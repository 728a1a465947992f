-- ===== src/Sql/Flatten.antt =====
-- sql/plan_optimization/query_flattening.rs: a query over nested subqueries becomes one SELECT. The
-- module is not compiled as it stands; its `LogicalPlan` has no aggregates and has `Skip`.
pub mod Levels
pub mod Passes
pub mod Single
use touchhouse.Prelude.{
  ℕ, zero, suc, ◌+◌, ◌^◌, Bool, ◌&&◌, Option, none, some, List, [], ◌∷◌, ◌++◌, is_empty, ltb, leb,
  ◌==◌, if◌then◌else◌,
}
use touchhouse.Outcome.{Result, ok, panics, ◌>>=◌}
use touchhouse.Storage.Table.{TableDef}
use touchhouse.Storage.Column.{Projection}
use touchhouse.Sql.Ast.{Expr, BinaryOperator}
use touchhouse.Sql.Plan.{LogicalPlan}

mutual
  -- `statement` is any of the plans that are no queries, which are not looked into.
  pub data QueryPlan : Type 0 where
    skip : QueryPlan
    statement : LogicalPlan → QueryPlan
    scan : QuerySource → QueryPlan
    projection : List Projection → QueryPlan → QueryPlan
    filter : Expr → QueryPlan → QueryPlan
    order_by : List (List Projection) → QueryPlan → QueryPlan
    limit : Option ℕ → ℕ → QueryPlan → QueryPlan

  -- `ScanSource`
  pub data QuerySource : Type 0 where
    subquery : QueryPlan → QuerySource
    table : TableDef → QuerySource

-- Each scan of a subquery gives way to the subquery. A statement below a query is `unreachable!`.
unfoldable mutual
  pub merge_scans : QueryPlan → Result QueryPlan
  merge_scans (scan source) = merge_source source
  merge_scans (projection columns plan) = merge_scans plan >>= λ p. ok (projection columns p)
  merge_scans (filter expr plan) = merge_scans plan >>= λ p. ok (filter expr p)
  merge_scans (order_by column_defs plan) = merge_scans plan >>= λ p. ok (order_by column_defs p)
  merge_scans (limit l offset plan) = merge_scans plan >>= λ p. ok (limit l offset p)
  merge_scans skip = panics
  merge_scans (statement s) = panics

  pub merge_source : QuerySource → Result QueryPlan
  merge_source (QuerySource.subquery plan) = merge_scans plan
  merge_source (QuerySource.table t) = ok (scan (QuerySource.table t))

-- The loop of `combine_filters`.
abbrev pub and_all : Expr → List Expr → Expr
and_all result [] = result
and_all result (f ∷ fs) = and_all (Expr.binary_op BinaryOperator.and result f) fs

-- `remove(0)` panics where there is none.
unfoldable pub combine_filters : List Expr → Result Expr
combine_filters [] = panics
combine_filters (f ∷ fs) = ok (and_all f fs)

unfoldable pub merge_filters : QueryPlan → List Expr → Result QueryPlan
unfolding combine_filters
merge_filters (filter expr plan) filters = merge_filters plan (filters ++ (expr ∷ []))
merge_filters (scan source) filters =
    if is_empty filters
    then ok (scan source)
    else combine_filters filters >>= λ e. ok (filter e (scan source))
merge_filters (projection columns plan) filters =
    merge_filters plan filters >>= λ p. ok (projection columns p)
merge_filters (order_by column_defs plan) filters =
    merge_filters plan filters >>= λ p. ok (order_by column_defs p)
merge_filters (limit l offset plan) filters =
    merge_filters plan filters >>= λ p. ok (limit l offset p)
merge_filters skip filters = panics
merge_filters (statement s) filters = panics

-- Where a projection stands over the filters and the scan, if there are columns.
abbrev pub project : List Projection → QueryPlan → QueryPlan
project columns plan = if is_empty columns then plan else projection columns plan

unfoldable pub merge_projections : QueryPlan → List Projection → Result QueryPlan
merge_projections (projection proj_cols plan) columns =
    merge_projections plan (if is_empty columns then proj_cols else columns)
merge_projections (filter expr plan) columns = ok (project columns (filter expr plan))
merge_projections (scan source) columns = ok (project columns (scan source))
merge_projections (order_by column_defs plan) columns =
    merge_projections plan columns >>= λ p. ok (order_by column_defs p)
merge_projections (limit l offset plan) columns =
    merge_projections plan columns >>= λ p. ok (limit l offset p)
merge_projections skip columns = panics
merge_projections (statement s) columns = panics

-- `Vec::insert` of the entries, one after another, at 0, 1, …: they come to stand before the rest.
unfoldable pub merge_order_by : QueryPlan → List (List Projection) → Result QueryPlan
merge_order_by (order_by column_defs plan) orders = merge_order_by plan (column_defs ++ orders)
merge_order_by (projection columns plan) orders =
    ok (
      if is_empty orders
      then projection columns plan
      else order_by orders (projection columns plan))
merge_order_by (limit l offset plan) orders =
    merge_order_by plan orders >>= λ p. ok (limit l offset p)
merge_order_by skip orders = panics
merge_order_by (statement s) orders = panics
merge_order_by (filter expr plan) orders = panics
merge_order_by (scan source) orders = panics

abbrev pub min_limit : Option ℕ → Option ℕ → Option ℕ
min_limit none none = none
min_limit none (some n) = some n
min_limit (some n) none = some n
min_limit (some n) (some m) = some (if leb n m then n else m)

-- A limit over the plan, if there is one or an offset.
abbrev pub restrict : Option ℕ → ℕ → QueryPlan → QueryPlan
restrict none zero plan = plan
restrict none (suc n) plan = limit none (suc n) plan
restrict (some l) offset plan = limit (some l) offset plan

-- `checked_add` on 64 bits, and `expect`.
unfoldable pub merge_offset_and_limit : QueryPlan → Option ℕ → ℕ → Result QueryPlan
merge_offset_and_limit (limit inner offset_inner plan) outer offset =
    elim (ltb (offset + offset_inner) (2 ^ 64)) [
      | Bool.false ↦ panics
      | Bool.true ↦ merge_offset_and_limit plan (min_limit outer inner) (offset + offset_inner)
    ]
merge_offset_and_limit (order_by column_defs plan) outer offset =
    ok (restrict outer offset (order_by column_defs plan))
merge_offset_and_limit (projection columns plan) outer offset =
    ok (restrict outer offset (projection columns plan))
merge_offset_and_limit skip outer offset = panics
merge_offset_and_limit (statement s) outer offset = panics
merge_offset_and_limit (filter expr plan) outer offset = panics
merge_offset_and_limit (scan source) outer offset = panics

-- The five passes of `flatten`, one after another.
abbrev pub flatten_query : QueryPlan → Result QueryPlan
flatten_query plan = do
  p1 ← merge_scans plan
  p2 ← merge_filters p1 []
  p3 ← merge_projections p2 []
  p4 ← merge_order_by p3 []
  merge_offset_and_limit p4 none 0

unfoldable pub flatten : QueryPlan → Result QueryPlan
flatten skip = ok skip
flatten (statement s) = ok (statement s)
flatten plan = flatten_query plan
