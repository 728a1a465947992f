-- ===== src/Execution/Aggregator/Fold.antt =====
-- sql/execution/select/aggregator.rs: what the aggregates make of the cells of a column.
use touchhouse.Prelude.{
  ℕ, suc, ◌+◌, ◌≡◌, refl, sym, ap, ◌∙◌, String, pos, Option, none, some, List, [], ◌∷◌, ◌++◌, map,
  length, length-append, append_nil, append_assoc, ==_ne, Option-cases, inl, inr, arith,
}
use touchhouse.Outcome.{Result, ok, ◌>>=◌, >>=-eq-ok, ok-eq}
use touchhouse.Externs.{Externs}
use touchhouse.Value.{Value, ToValue}
use touchhouse.Value.Display.{as_f64}
use touchhouse.Storage.Column.{Projection}
use touchhouse.Sql.Plan.Projections.{AggregateFunction, AggregateProjection}
use touchhouse.Execution.Aggregator.{
  RawData, count, avg, values, add_value, add_cells, add_columns, new_aggregator,
  create_aggregate_column, initial_data, finalize_column, append_chunk, finalize, Aggregator,
  RawColumn, simple,
}

-- The floats that cells are read as, where each is a number.
abbrev pub numbers : {T : Type 0} → Externs → ToValue T → List T → Option (List ℕ)
numbers x t [] = some []
numbers x t (c ∷ cs) = elim (as_f64 x (t.view c)) [
  | none ↦ none
  | some f ↦ elim (numbers x t cs) [ none ↦ none | some fs ↦ some (f ∷ fs) ]
]

abbrev pub fold {ℓ} : {A : Type ℓ} → (A → ℕ → A) → A → List ℕ → A
fold f a [] = a
fold f a (n ∷ ns) = fold f (f a n) ns

zero_add : (n : ℕ) → 0 + n ≡ n
zero_add n = omega arith

add_zero : (n : ℕ) → n + 0 ≡ n
add_zero n = omega arith

module _ {T : Type 0} (x : Externs) (t : ToValue T) where
  pub values_all :
      (cells : List T) (vs : List Value)
      → add_cells x t (values vs) cells ≡ ok (values (vs ++ map t.view cells))
  unfolding add_cells add_value
  values_all [] vs = ap (λ l. ok (values l)) (sym (append_nil vs))
  values_all (c ∷ cs) vs =
      values_all cs (vs ++ (t.view c ∷ []))
      ∙ ap (λ l. ok (values l)) (append_assoc vs (t.view c ∷ []) (map t.view cs))

  count_all :
      (cells : List T) (n : ℕ) → add_cells x t (count n) cells ≡ ok (count (n + length cells))
  unfolding add_cells add_value
  count_all [] n = ap (λ m. ok (count m)) (omega arith)
  count_all (c ∷ cs) n = count_all cs (suc n) ∙ ap (λ m. ok (count m)) (omega arith)

  numbers_cons :
      (c : T) (cs : List T) (fs : List ℕ)
      → numbers x t (c ∷ cs) ≡ some fs
      → (f : ℕ) × (gs : List ℕ) × (as_f64 x (t.view c) ≡ some f)
        × (numbers x t cs ≡ some gs)
        × (fs ≡ f ∷ gs)
  numbers_cons c cs fs h = elim (Option-cases (as_f64 x (t.view c))) [
    | inl e ↦ cc (rw (e, numbers) at h)
    | inr f ↦ elim (Option-cases (numbers x t cs)) [
      | inl e ↦ cc (rw (f.1, e, numbers) at h)
      | inr gs ↦ (f.0, gs.0, f.1, gs.1, cc (rw (f.1, gs.1, numbers) at h))
    ]
  ]

  length-numbers :
      (cells : List T) (fs : List ℕ) → numbers x t cells ≡ some fs → length cells ≡ length fs
  length-numbers [] fs h = cc h
  length-numbers (c ∷ cs) fs h =
      let (f, gs, e, es, eq) = numbers_cons c cs fs h in rw eq (ap suc (length-numbers cs gs es))

  avg_all :
      (cells : List T) (fs : List ℕ) (s n : ℕ)
      → numbers x t cells ≡ some fs
      → add_cells x t (avg s n) cells ≡ ok (avg (fold x.f64_add s fs) (n + length cells))
  unfolding add_cells add_value
  avg_all [] fs s n h = let z : n + 0 ≡ n = omega arith in cc (h, z)
  avg_all (c ∷ cs) fs s n h =
      let (f, gs, e, es, eq) = numbers_cons c cs fs h in
      rw (e, eq)
        (avg_all cs gs (x.f64_add s f) (suc n) es
          ∙ ap (λ m. ok (avg (fold x.f64_add s (f ∷ gs)) m)) (omega arith))

  add_cells-split :
      (cs ds : List T) (d e : RawData)
      → add_cells x t d (cs ++ ds) ≡ ok e
      → (m : RawData) × (add_cells x t d cs ≡ ok m) × (add_cells x t m ds ≡ ok e)
  unfolding add_cells
  add_cells-split [] ds d e h = (d, refl, h)
  add_cells-split (c ∷ cs) ds d e h =
      let (a, p, q) = >>=-eq-ok (add_value x d (t.view c)) (λ d'. add_cells x t d' (cs ++ ds)) h in
      let (m, r, s) = add_cells-split cs ds a e q in (m, rw p r, s)

  -- The chunks of a scan, one after another.
  abbrev pub append_chunks : Aggregator → List (List (List T)) → Result Aggregator
  append_chunks a [] = ok a
  append_chunks a (c ∷ cs) = append_chunk x t a c >>= λ r. append_chunks r.0 cs

  abbrev pub flat : List (List T) → List T
  flat [] = []
  flat (c ∷ cs) = c ++ flat cs

  -- An aggregator of one column, which is not grouped.
  abbrev pub single : RawColumn → ℕ → Aggregator
  single c n = record { format = simple (c ∷ []); rows = n }

  single_step :
      (v : T) (vs : List T) (c : RawColumn) (m : RawData) (n : ℕ)
      → add_cells x t c.data_of (v ∷ vs) ≡ ok m
      → append_chunk x t (single c n) ((v ∷ vs) ∷ [])
        ≡ ok (single record c { data_of = m } (n + suc (length vs)), suc (length vs))
  unfolding append_chunk add_columns
  single_step v vs c m n h = rw (==_ne (suc (length vs)) 0 (λ e. omega arith), add_columns, h) refl

  single_all :
      (chunks : List (List T)) (c : RawColumn) (d : RawData) (n : ℕ)
      → add_cells x t c.data_of (flat chunks) ≡ ok d
      → append_chunks (single c n) (map (λ cells. cells ∷ []) chunks)
        ≡ ok (single record c { data_of = d } (n + length (flat chunks)))
  unfolding append_chunk add_cells
  single_all [] c d n h = cc (ok-eq h, add_zero n)
  single_all ([] ∷ chunks) c d n h = single_all chunks c d n h
  single_all ((v ∷ vs) ∷ chunks) c d n h =
      let (m, p, q) = add_cells-split (v ∷ vs) (flat chunks) c.data_of d h in
      let e : n + suc (length vs) + length (flat chunks) ≡ n + length (flat ((v ∷ vs) ∷ chunks)) =
        omega (arith, length-append vs (flat chunks)) in
      ap (λ z. z >>= λ r. append_chunks r.0 (map (λ cells. cells ∷ []) chunks))
        (single_step v vs c m n p)
      ∙ single_all chunks record c { data_of = m } d (n + suc (length vs)) q
      ∙ ap (λ z. ok (single record c { data_of = d } z)) e

  -- What one aggregate or column of a SELECT without GROUP BY holds after the chunks.
  abbrev pub Collects :
      List Projection → List AggregateProjection → List (List T) → List Value → Type 0
  Collects projections aggregates chunks vs =
      (a : Aggregator) × (q : Projection) × (append_chunks
          (new_aggregator projections aggregates []) (map (λ cells. cells ∷ []) chunks)
        ≡ ok a)
      × (finalize x a ≡ ok (record { proj = q; data_of = vs } ∷ []))

  -- `SELECT count(p)` with no GROUP BY comes to the number of the cells that the chunks hold.
  count-Collects :
      (alias : Option String) (p : Projection) (chunks : List (List T))
      → Collects []
          (record { alias = alias; source = AggregateFunction.count p } ∷ [])
          chunks
          (Value.uint64 (length (flat chunks)) ∷ [])
  unfolding new_aggregator create_aggregate_column initial_data finalize finalize_column
  count-Collects alias p chunks = (
    single record { alias = alias; proj = p; data_of = count (length (flat chunks)) }
        (0 + length (flat chunks)),
    _,
    single_all chunks record { alias = alias; proj = p; data_of = count 0 }
        (count (length (flat chunks))) 0
        (count_all (flat chunks) 0 ∙ ap (λ m. ok (count m)) (zero_add (length (flat chunks)))),
    refl,
  )

  -- `SELECT p` with no GROUP BY collects the values of all cells of the chunks, in their order.
  column-Collects :
      (p : Projection) (chunks : List (List T))
      → Collects (p ∷ []) [] chunks (map t.view (flat chunks))
  unfolding new_aggregator finalize finalize_column
  column-Collects p chunks = (
    single record { alias = none; proj = p; data_of = values (map t.view (flat chunks)) }
        (0 + length (flat chunks)),
    _,
    single_all chunks record { alias = none; proj = p; data_of = values [] }
        (values (map t.view (flat chunks))) 0 (values_all (flat chunks) []),
    refl,
  )

  -- `SELECT avg(p)` with no GROUP BY, over cells that are all numbers and at least one, comes to
  -- the sum of the cells, taken in their order from 0, over their number.
  pub avg-Collects :
      (alias : Option String) (p : Projection) (chunks : List (List T)) (f : ℕ) (fs : List ℕ)
      → numbers x t (flat chunks) ≡ some (f ∷ fs)
      → Collects [] (record { alias = alias; source = AggregateFunction.avg p } ∷ []) chunks (
          Value.f64 (x.f64_div (fold x.f64_add 0 (f ∷ fs)) (x.f64_of_int (pos (length (f ∷ fs)))))
          ∷ [])
  unfolding new_aggregator create_aggregate_column initial_data finalize finalize_column
  avg-Collects alias p chunks f fs h =
      let total : ℕ = fold x.f64_add 0 (f ∷ fs) in
      let e : 0 + length (flat chunks) ≡ suc (length fs) =
        omega (arith, length-numbers (flat chunks) (f ∷ fs) h) in
      (
        single record { alias = alias; proj = p; data_of = avg total (suc (length fs)) }
            (0 + length (flat chunks)),
        _,
        single_all chunks record { alias = alias; proj = p; data_of = avg 0 0 }
            (avg total (suc (length fs))) 0
            (avg_all (flat chunks) (f ∷ fs) 0 0 h ∙ ap (λ m. ok (avg total m)) e),
        refl,
      )
