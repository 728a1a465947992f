-- ===== src/Sql/Flatten/Passes.antt =====
-- sql/plan_optimization/query_flattening.rs: what each pass of `flatten` makes of nested SELECTs.
use touchhouse.Prelude.{
  ℕ, ◌+◌, ◌^◌, ◌≤◌, ◌<◌, ◌≡◌, refl, sym, ap, ◌∙◌, Option, none, some, List, [], ◌∷◌, ◌++◌,
  append_assoc, append_nil, ltb, ltb→lt, lt→ltb, ltb_no, Bool-cases, inl, inr, arith,
}
use touchhouse.Outcome.{Result, ok, ◌>>=◌}
use touchhouse.Storage.Table.{TableDef}
use touchhouse.Storage.Column.{Projection}
use touchhouse.Sql.Ast.{Expr}
use touchhouse.Sql.Flatten.{
  QueryPlan, QuerySource, scan, projection, order_by, limit, merge_scans, merge_filters,
  combine_filters, merge_projections, merge_order_by, merge_offset_and_limit, min_limit,
}
use touchhouse.Sql.Flatten.Levels.{
  Level, on_limit, on_order, on_filter, level, nested, filters_of, selected, orders_of, ordering,
  limit_of, offset_of, chain, unfiltered, framed, limits, limited_to,
}

-- A pass that goes on below a LIMIT, an ORDER BY or a projection, and leaves it.
module _ (pass : QueryPlan → Result QueryPlan) where
  GoesBelow : (QueryPlan → QueryPlan) → Type 0
  GoesBelow node = (p : QueryPlan) → pass (node p) ≡ (pass p >>= λ q. ok (node q))

  below :
      (node : QueryPlan → QueryPlan) (p q : QueryPlan)
      → GoesBelow node
      → pass p ≡ ok q
      → pass (node p) ≡ ok (node q)
  unfolding GoesBelow
  below node p q thru h = thru p ∙ ap (λ r. r >>= λ s. ok (node s)) h

  below-on_limit :
      (o : Option (Option ℕ × ℕ)) (p q : QueryPlan)
      → ((l : Option ℕ) (n : ℕ) → GoesBelow (limit l n))
      → pass p ≡ ok q
      → pass (on_limit o p) ≡ ok (on_limit o q)
  below-on_limit none p q thru h = h
  below-on_limit (some l) p q thru h = below (limit l.0 l.1) p q (thru l.0 l.1) h

  below-on_order :
      (o : Option (List (List Projection))) (p q : QueryPlan)
      → ((os : List (List Projection)) → GoesBelow (order_by os))
      → pass p ≡ ok q
      → pass (on_order o p) ≡ ok (on_order o q)
  below-on_order none p q thru h = h
  below-on_order (some os) p q thru h = below (order_by os) p q (thru os) h

scans-on_filter :
    (o : Option Expr) (p q : QueryPlan)
    → merge_scans p ≡ ok q
    → merge_scans (on_filter o p) ≡ ok (on_filter o q)
unfolding merge_scans
scans-on_filter none p q h = h
scans-on_filter (some e) p q h = rw h refl

scans-level :
    (l : Level) (p q : QueryPlan) → merge_scans p ≡ ok q → merge_scans (level l p) ≡ ok (level l q)
unfolding merge_scans GoesBelow
scans-level l p q h =
    below-on_limit merge_scans l.limited _ _ (λ m n r. refl)
      (below-on_order merge_scans l.ordered _ _ (λ os r. refl)
        (below merge_scans (projection l.columns) (on_filter l.filtered p) (on_filter l.filtered q)
          (λ r. refl) (scans-on_filter l.filtered p q h)))

pub scans :
    (l : Level) (ls : List Level) (t : TableDef)
    → merge_scans (nested l ls t) ≡ ok (chain (l ∷ ls) (scan (QuerySource.table t)))
unfolding merge_scans
scans l [] t = scans-level l (scan (QuerySource.table t)) (scan (QuerySource.table t)) refl
scans l (m ∷ ms) t =
    scans-level l (scan (QuerySource.subquery (nested m ms t)))
      (chain (m ∷ ms) (scan (QuerySource.table t))) (scans m ms t)

filters_at :
    (t : TableDef) (fs : List Expr)
    → merge_filters (scan (QuerySource.table t)) fs ≡ ok (selected fs t)
unfolding merge_filters combine_filters
filters_at t [] = refl
filters_at t (f ∷ fs) = refl

abbrev with_filter : Option Expr → List Expr → List Expr
with_filter o fs = elim o [ none ↦ fs | some e ↦ fs ++ (e ∷ []) ]

filters-on_filter :
    (o : Option Expr) (p q : QueryPlan) (fs : List Expr)
    → merge_filters p (with_filter o fs) ≡ ok q
    → merge_filters (on_filter o p) fs ≡ ok q
unfolding merge_filters
filters-on_filter none p q fs h = h
filters-on_filter (some e) p q fs h = h

more_filters :
    (o : Option Expr) (fs rest : List Expr)
    → with_filter o fs ++ rest ≡ fs ++ elim o [ none ↦ rest | some e ↦ e ∷ rest ]
more_filters none fs rest = refl
more_filters (some e) fs rest = append_assoc fs (e ∷ []) rest

pub filters :
    (ls : List Level) (t : TableDef) (fs : List Expr)
    → merge_filters (chain ls (scan (QuerySource.table t))) fs
      ≡ ok (unfiltered ls (selected (fs ++ filters_of ls) t))
unfolding merge_filters GoesBelow
filters [] t fs = filters_at t fs ∙ ap (λ l. ok (selected l t)) (sym (append_nil fs))
filters (l ∷ ls) t fs =
    let pass : QueryPlan → Result QueryPlan = λ p. merge_filters p fs in
    below-on_limit pass l.limited _ _ (λ m n r. refl)
      (below-on_order pass l.ordered _ _ (λ os r. refl)
        (below pass (projection l.columns)
          (on_filter l.filtered (chain ls (scan (QuerySource.table t)))) _ (λ r. refl)
          (filters-on_filter l.filtered (chain ls (scan (QuerySource.table t))) _ fs (
            filters ls t (with_filter l.filtered fs)
            ∙ ap (λ s. ok (unfiltered ls (selected s t)))
                (more_filters l.filtered fs (filters_of ls))))))

projections_at :
    (t : TableDef) (fs : List Expr) (c : Projection) (cs : List Projection)
    → merge_projections (selected fs t) (c ∷ cs) ≡ ok (projection (c ∷ cs) (selected fs t))
unfolding merge_projections
projections_at t [] c cs = refl
projections_at t (f ∷ fs) c cs = refl

-- The columns are there, or are those of the first level.
projections :
    (ls : List Level) (t : TableDef) (fs : List Expr) (c : Projection) (cs : List Projection)
    → merge_projections (unfiltered ls (selected fs t)) (c ∷ cs)
      ≡ ok (framed ls (projection (c ∷ cs) (selected fs t)))
unfolding merge_projections GoesBelow
projections [] t fs c cs = projections_at t fs c cs
projections (l ∷ ls) t fs c cs =
    let pass : QueryPlan → Result QueryPlan = λ p. merge_projections p (c ∷ cs) in
    below-on_limit pass l.limited _ _ (λ m n r. refl)
      (below-on_order pass l.ordered _ _ (λ os r. refl) (projections ls t fs c cs))

pub first_projections :
    (l : Level) (ls : List Level) (t : TableDef) (fs : List Expr) (c : Projection)
    (cs : List Projection)
    → l.columns ≡ c ∷ cs
    → merge_projections (unfiltered (l ∷ ls) (selected fs t)) []
      ≡ ok (framed (l ∷ ls) (projection (c ∷ cs) (selected fs t)))
unfolding merge_projections GoesBelow
first_projections l ls t fs c cs e =
    let pass : QueryPlan → Result QueryPlan = λ p. merge_projections p [] in
    below-on_limit pass l.limited _ _ (λ m n r. refl)
      (below-on_order pass l.ordered _ _ (λ os r. refl)
        (ap (λ own. merge_projections (unfiltered ls (selected fs t)) own) e
          ∙ projections ls t fs c cs))

orders_at :
    (os : List (List Projection)) (cs : List Projection) (p : QueryPlan)
    → merge_order_by (projection cs p) os ≡ ok (ordering os (projection cs p))
unfolding merge_order_by
orders_at [] cs p = refl
orders_at (o ∷ os) cs p = refl

orders-on_order :
    (o : Option (List (List Projection))) (p q : QueryPlan) (os : List (List Projection))
    → merge_order_by p (elim o [ none ↦ os | some own ↦ own ++ os ]) ≡ ok q
    → merge_order_by (on_order o p) os ≡ ok q
unfolding merge_order_by
orders-on_order none p q os h = h
orders-on_order (some own) p q os h = h

pub orders :
    (ls : List Level) (os : List (List Projection)) (cs : List Projection) (p : QueryPlan)
    → merge_order_by (framed ls (projection cs p)) os
      ≡ ok (limits ls (ordering (orders_of ls os) (projection cs p)))
unfolding merge_order_by GoesBelow
orders [] os cs p = orders_at os cs p
orders (l ∷ ls) os cs p =
    below-on_limit (λ q. merge_order_by q os) l.limited _ _ (λ m n r. refl)
      (orders-on_order l.ordered _ _ os (orders ls _ cs p))

restricts_at :
    (os : List (List Projection)) (cs : List Projection) (p : QueryPlan) (lim : Option ℕ)
    (offset : ℕ)
    → offset < 2 ^ 64
    → merge_offset_and_limit (ordering os (projection cs p)) lim offset
      ≡ limited_to lim offset (ordering os (projection cs p))
unfolding merge_offset_and_limit
restricts_at [] cs p lim offset lt = rw (lt→ltb offset (2 ^ 64) lt) refl
restricts_at (o ∷ os) cs p lim offset lt = rw (lt→ltb offset (2 ^ 64) lt) refl

restricts-on_limit :
    (o : Option (Option ℕ × ℕ)) (rest : ℕ) (next : Option ℕ → Option ℕ) (p q : QueryPlan)
    (lim : Option ℕ) (offset : ℕ)
    → offset < 2 ^ 64
    → ((lim' : Option ℕ) (offset' : ℕ)
        → offset' < 2 ^ 64
        → merge_offset_and_limit p lim' offset' ≡ limited_to (next lim') (offset' + rest) q)
    → merge_offset_and_limit (on_limit o p) lim offset
      ≡ limited_to
          (next (elim o [ none ↦ lim | some own ↦ min_limit lim own.0 ]))
          (offset + elim o [ none ↦ rest | some own ↦ own.1 + rest ])
          q
unfolding merge_offset_and_limit
restricts-on_limit none rest next p q lim offset lt h = h lim offset lt
restricts-on_limit (some own) rest next p q lim offset lt h =
    let sum : offset + own.1 + rest ≡ offset + (own.1 + rest) = omega arith in
    elim (Bool-cases (ltb (offset + own.1) (2 ^ 64))) [
      | inl e ↦
          rw (e, merge_offset_and_limit)
            (h (min_limit lim own.0) (offset + own.1) (ltb→lt (offset + own.1) (2 ^ 64) e)
              ∙ ap (λ n. limited_to (next (min_limit lim own.0)) n q) sum)
      | inr e ↦
          let over : 2 ^ 64 ≤ offset + own.1 = ground (arith, e) in
          rw
            (
              e,
              merge_offset_and_limit,
              ltb_no (offset + (own.1 + rest)) (2 ^ 64) (omega (arith, over)),
            )
            refl
    ]

pub restricts :
    (ls : List Level) (os : List (List Projection)) (cs : List Projection) (p : QueryPlan)
    (lim : Option ℕ) (offset : ℕ)
    → offset < 2 ^ 64
    → merge_offset_and_limit (limits ls (ordering os (projection cs p))) lim offset
      ≡ limited_to (limit_of ls lim) (offset + offset_of ls) (ordering os (projection cs p))
restricts [] os cs p lim offset lt =
    restricts_at os cs p lim offset lt
    ∙ ap (λ n. limited_to lim n (ordering os (projection cs p))) (omega arith)
restricts (l ∷ ls) os cs p lim offset lt =
    restricts-on_limit l.limited (offset_of ls) (limit_of ls)
      (limits ls (ordering os (projection cs p))) (ordering os (projection cs p)) lim offset lt
      (λ lim' offset' lt'. restricts ls os cs p lim' offset' lt')
