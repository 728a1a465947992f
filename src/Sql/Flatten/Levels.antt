-- ===== src/Sql/Flatten/Levels.antt =====
-- sql/plan_optimization/query_flattening.rs: nested SELECTs, and the one SELECT that they come to.
use touchhouse.Prelude.{ℕ, ◌+◌, ◌^◌, Option, none, some, List, [], ◌∷◌, ◌++◌, ltb, if◌then◌else◌}
use touchhouse.Outcome.{Result, ok, panics}
use touchhouse.Storage.Table.{TableDef}
use touchhouse.Storage.Column.{Projection}
use touchhouse.Sql.Ast.{Expr}
use touchhouse.Sql.Flatten.{
  QueryPlan, QuerySource, scan, projection, filter, order_by, limit, and_all, min_limit, restrict,
}

-- One SELECT of a nest: LIMIT and OFFSET, ORDER BY, columns and WHERE.
pub record Level : Type 0 where
  pub limited : Option (Option ℕ × ℕ)
  pub ordered : Option (List (List Projection))
  pub columns : List Projection
  pub filtered : Option Expr

abbrev pub on_limit : Option (Option ℕ × ℕ) → QueryPlan → QueryPlan
on_limit none p = p
on_limit (some l) p = limit l.0 l.1 p

abbrev pub on_order : Option (List (List Projection)) → QueryPlan → QueryPlan
on_order none p = p
on_order (some os) p = order_by os p

abbrev pub on_filter : Option Expr → QueryPlan → QueryPlan
on_filter none p = p
on_filter (some e) p = filter e p

abbrev pub level : Level → QueryPlan → QueryPlan
level l p = on_limit l.limited (on_order l.ordered (projection l.columns (on_filter l.filtered p)))

-- The plan of a SELECT from a SELECT ... from a table, the outermost first.
abbrev pub nested : Level → List Level → TableDef → QueryPlan
nested l [] t = level l (scan (QuerySource.table t))
nested l (m ∷ ms) t = level l (scan (QuerySource.subquery (nested m ms t)))

-- What the one SELECT has.
abbrev pub filters_of : List Level → List Expr
filters_of [] = []
filters_of (l ∷ ls) = elim l.filtered [ none ↦ filters_of ls | some e ↦ e ∷ filters_of ls ]

abbrev pub selected : List Expr → TableDef → QueryPlan
selected [] t = scan (QuerySource.table t)
selected (f ∷ fs) t = filter (and_all f fs) (scan (QuerySource.table t))

-- The entries of inner ORDER BYs stand before those of outer ones.
abbrev pub orders_of : List Level → List (List Projection) → List (List Projection)
orders_of [] os = os
orders_of (l ∷ ls) os = orders_of ls (elim l.ordered [ none ↦ os | some own ↦ own ++ os ])

abbrev pub ordering : List (List Projection) → QueryPlan → QueryPlan
ordering [] p = p
ordering (o ∷ os) p = order_by (o ∷ os) p

abbrev pub limit_of : List Level → Option ℕ → Option ℕ
limit_of [] lim = lim
limit_of (l ∷ ls) lim = limit_of ls (elim l.limited [ none ↦ lim | some own ↦ min_limit lim own.0 ])

abbrev pub offset_of : List Level → ℕ
offset_of [] = 0
offset_of (l ∷ ls) = elim l.limited [ none ↦ offset_of ls | some own ↦ own.1 + offset_of ls ]

-- The plans between the passes.
abbrev pub chain : List Level → QueryPlan → QueryPlan
chain [] p = p
chain (l ∷ ls) p = level l (chain ls p)

abbrev pub unfiltered : List Level → QueryPlan → QueryPlan
unfiltered [] p = p
unfiltered (l ∷ ls) p =
    on_limit l.limited (on_order l.ordered (projection l.columns (unfiltered ls p)))

abbrev pub framed : List Level → QueryPlan → QueryPlan
framed [] p = p
framed (l ∷ ls) p = on_limit l.limited (on_order l.ordered (framed ls p))

abbrev pub limits : List Level → QueryPlan → QueryPlan
limits [] p = p
limits (l ∷ ls) p = on_limit l.limited (limits ls p)

-- What the pass over limits comes to, with what it has met.
abbrev pub limited_to : Option ℕ → ℕ → QueryPlan → Result QueryPlan
limited_to lim offset p = if ltb offset (2 ^ 64) then ok (restrict lim offset p) else panics

-- The SELECT with the given levels' clauses together.
abbrev pub single : List Level → List Projection → TableDef → QueryPlan
single ls columns t = ordering (orders_of ls []) (projection columns (selected (filters_of ls) t))
