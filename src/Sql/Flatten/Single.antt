-- ===== src/Sql/Flatten/Single.antt =====
-- sql/plan_optimization/query_flattening.rs: the one SELECT that nested SELECTs become.
use touchhouse.Prelude.{ℕ, ◌≡◌, refl, ap, ◌∙◌, Option, none, some, List, [], ◌∷◌, arith}
use touchhouse.Outcome.{◌>>=◌}
use touchhouse.Storage.Table.{TableDef}
use touchhouse.Storage.Column.{Projection}
use touchhouse.Sql.Flatten.{
  QueryPlan, QuerySource, scan, projection, merge_filters, merge_projections, merge_order_by,
  merge_offset_and_limit, flatten_query, flatten,
}
use touchhouse.Sql.Flatten.Levels.{
  Level, on_limit, on_order, on_filter, level, nested, filters_of, selected, orders_of, limit_of,
  offset_of, chain, unfiltered, framed, limited_to, single,
}
use touchhouse.Sql.Flatten.Passes.{scans, filters, first_projections, orders, restricts}

flatten-level : (l : Level) (p : QueryPlan) → flatten (level l p) ≡ flatten_query (level l p)
unfolding flatten
flatten-level l p = at l.limited l.ordered
  where
    at :
        (a : Option (Option ℕ × ℕ)) (b : Option (List (List Projection)))
        → flatten (on_limit a (on_order b (projection l.columns (on_filter l.filtered p))))
          ≡ flatten_query (on_limit a (on_order b (projection l.columns (on_filter l.filtered p))))
    at none none = refl
    at none (some os) = refl
    at (some o) b = refl

flatten-nested :
    (l : Level) (ls : List Level) (t : TableDef)
    → flatten (nested l ls t) ≡ flatten_query (nested l ls t)
flatten-nested l [] t = flatten-level l (scan (QuerySource.table t))
flatten-nested l (m ∷ ms) t = flatten-level l (scan (QuerySource.subquery (nested m ms t)))

-- `flatten` makes of SELECTs that are nested to any depth, the outermost with a column, one
-- SELECT from the innermost table: with the outermost columns, the conjunction of all filters,
-- the entries of all ORDER BYs, inner ones first, the least of the limits and the sum of the
-- offsets, or it panics where this sum does not fit in 64 bits.
pub flatten-single :
    (l : Level) (ls : List Level) (t : TableDef) (c : Projection) (cs : List Projection)
    → l.columns ≡ c ∷ cs
    → flatten (nested l ls t)
      ≡ limited_to (limit_of (l ∷ ls) none) (offset_of (l ∷ ls)) (single (l ∷ ls) (c ∷ cs) t)
flatten-single l ls t c cs e =
    let all = l ∷ ls in
    let fs = filters_of all in
    let base = projection (c ∷ cs) (selected fs t) in
    let p1 = chain all (scan (QuerySource.table t)) in
    let p2 = unfiltered all (selected fs t) in
    let p3 = framed all base in
    flatten-nested l ls t
    ∙ ap
        (λ r. r >>= λ a. merge_filters a [] >>= λ b. merge_projections b [] >>= λ c.
          merge_order_by c [] >>= λ d. merge_offset_and_limit d none 0)
        (scans l ls t)
    ∙ ap
        (λ r. r >>= λ b. merge_projections b [] >>= λ c.
          merge_order_by c [] >>= λ d. merge_offset_and_limit d none 0)
        (filters all t [])
    ∙ ap (λ r. r >>= λ c. merge_order_by c [] >>= λ d. merge_offset_and_limit d none 0)
        (first_projections l ls t fs c cs e)
    ∙ ap (λ r. r >>= λ d. merge_offset_and_limit d none 0) (orders all [] (c ∷ cs) (selected fs t))
    ∙ restricts all (orders_of all []) (c ∷ cs) (selected fs t) none 0 (omega arith)
    ∙ ap (λ n. limited_to (limit_of all none) n (single all (c ∷ cs) t)) (omega arith)
