-- ===== src/Storage/Part/Marks.antt =====
-- storage/table_part.rs: the marks of a new part, one to a granule.
use touchhouse.Prelude.{
  ℕ, zero, suc, ◌+◌, ◌-◌, ◌*◌, ◌/◌, ◌≤◌, ◌<◌, ◌≡◌, refl, sym, ap, ◌∙◌, String, Bool, true, Option,
  none, some, List, [], ◌∷◌, map, any, filter, length, get_elem?, drop, length-drop, is_empty,
  div_ceil, ltb, ltb→lt, Bool-cases, inl, inr, All, All-map, arith,
}
use mathlib.Core.Path.{subst}
use native.Mathlib.Numerals.{unary_clauses}
use native.Mathlib.Nat.{div-eq_of_lt, div-eq-sub-div}
use touchhouse.Outcome.{Result, Error, ok, err, ◌>>=◌, >>=-eq-ok, ok-eq, index, traverse}
use touchhouse.Value.{Value}
use touchhouse.Storage.Column.{
  ColumnDef, PhysicalColumn, eq_column_def, projection_of, output_of, physical_of,
}
use touchhouse.Storage.Table.{TableMetadata}
use touchhouse.Engines.{get_engine}
use touchhouse.Engines.Sort.{EngineConfig}
use touchhouse.Engines.Permute.{range_from}
use touchhouse.Storage.Part.{
  Mark, TablePart, granules, granules_from, not_zero, generate_indexes, try_new,
}

div_step : (n s : ℕ) → 0 < s → s ≤ n → n / s ≡ suc ((n - s) / s)
div_step n s hs le = simp unary_clauses at (div-eq-sub-div {n = n} hs le)

div_ceil-suc : (n s : ℕ) → 0 < s → 0 < n → div_ceil n s ≡ suc (div_ceil (n - s) s)
div_ceil-suc n s hs hn =
    let one_less : (n + (s - 1)) / s ≡ suc ((n + (s - 1) - s) / s) =
      div_step (n + (s - 1)) s hs (omega arith) in
    elim (Bool-cases (ltb n s)) [
      | inl e ↦
          let lt : n < s = ltb→lt n s e in
          one_less
          ∙ ap suc (
              div-eq_of_lt {n = n + (s - 1) - s} {m = s} (omega arith)
              ∙ sym (div-eq_of_lt {n = n - s + (s - 1)} {m = s} (omega arith)))
      | inr f ↦
          let ge : s ≤ n = ground (arith, f) in
          let e : n + (s - 1) - s ≡ n - s + (s - 1) = omega arith in
          one_less ∙ ap (λ m. suc (m / s)) e
    ]

length-granules_from {ℓ} :
    {A : Type ℓ} (fuel s : ℕ) (rows : List A)
    → 0 < s
    → length rows ≤ fuel
    → length (granules_from fuel s rows) ≡ div_ceil (length rows) s
length-granules_from zero s [] hs le = sym (div-eq_of_lt (omega arith))
length-granules_from zero s (r ∷ rows) hs le = absurd (omega (arith, le))
length-granules_from (suc fuel) s [] hs le = sym (div-eq_of_lt (omega arith))
length-granules_from (suc fuel) s (r ∷ rows) hs le =
    let left = length-drop s (r ∷ rows) in
    ap suc (
      length-granules_from fuel s (drop s (r ∷ rows)) hs (omega (arith, left, hs, le))
      ∙ ap (λ n. div_ceil n s) left)
    ∙ sym (div_ceil-suc (length (r ∷ rows)) s hs (omega arith))

traverse_all {ℓ κ μ} :
    {A : Type ℓ} {B : Type κ} (P : B → Type μ) (f : A → Result B) (l : List A) (out : List B)
    → ((a : A) (b : B) → f a ≡ ok b → P b)
    → traverse f l ≡ ok out
    → All P out × (length out ≡ length l)
traverse_all P f [] out good h = subst (λ o. All P o × (length o ≡ 0)) (ok-eq h) (tt, refl)
traverse_all P f (a ∷ l) out good h =
    let (b, eb, h1) = >>=-eq-ok (f a) _ h in
    let (bs, ebs, h2) = >>=-eq-ok (traverse f l) _ h1 in
    let (all, n) = traverse_all P f l bs good ebs in
    subst (λ o. All P o × (length o ≡ suc (length l))) (ok-eq h2) ((good a b eb, all), ap suc n)

length-range_from : (k n : ℕ) → length (range_from k n) ≡ n
length-range_from k zero = refl
length-range_from k (suc n) = ap suc (length-range_from (suc k) n)

first_kept {ℓ κ} :
    {A : Type ℓ} (P : A → Type κ) (p : A → Bool) (l : List A)
    → any p l ≡ true
    → All P l
    → (a : A) × (get_elem? (filter p l) 0 ≡ some a) × P a
first_kept P p [] h all = cc h
first_kept P p (a ∷ l) h all = elim (Bool-cases (p a)) [
  | inl e ↦ (a, rw e refl, all.0)
  | inr e ↦ rw (e, filter) (first_kept P p l (rw e at h) all.1)
]

err_ok {ℓ} : {A : Type ℓ} {e : Error} {a : A} → err e ≡ ok a → ⊥
err_ok h = cc h

positive : (n : ℕ) {u : Unit {0}} → not_zero n ≡ ok u → 0 < n
positive zero h = cc h
positive (suc n) h = omega arith

-- A column of the part is on the primary key.
abbrev pub HasKey : List PhysicalColumn → List ColumnDef → Type 0
HasKey columns keys =
    any (λ (c : PhysicalColumn). any (λ k. eq_column_def k c.column_def) keys) columns ≡ true

-- One mark for each granule, with no entries yet.
generate_indexes-granules :
    (columns : List PhysicalColumn) (keys : List ColumnDef) (granularity n : ℕ) (marks : List Mark)
    → generate_indexes columns keys granularity ≡ ok marks
    → All (λ (c : PhysicalColumn). length c.data_of ≡ n) columns
    → HasKey columns keys
    → All (λ (m : Mark). m.info ≡ []) marks
      × (length marks ≡ div_ceil n granularity)
      × All
          (λ (c : PhysicalColumn). length (granules granularity c.data_of) ≡ div_ceil n granularity)
          columns
unfolding generate_indexes
generate_indexes-granules columns keys granularity n marks h same key =
    let indexed : List PhysicalColumn =
      filter (λ (c : PhysicalColumn). any (λ k. eq_column_def k c.column_def) keys) columns in
    let (c, ec, nc) =
      first_kept (λ (c : PhysicalColumn). length c.data_of ≡ n)
        (λ (c : PhysicalColumn). any (λ k. eq_column_def k c.column_def) keys) columns key same in
    let total : ℕ = elim (get_elem? indexed 0) [ none ↦ 0 | some c ↦ length c.data_of ] in
    let et : total ≡ n =
      ap (λ (o : Option PhysicalColumn). elim o [ none ↦ 0 | some c ↦ length c.data_of ]) ec ∙ nc in
    let (_, ez, h1) = >>=-eq-ok (not_zero granularity) _ h in
    let row_of : ℕ → Result (List Value) = λ k.
      traverse (λ (c : PhysicalColumn). index (get_elem? c.data_of (k * granularity))) indexed in
    let mark_at : ℕ → Result Mark =
      λ k. row_of k >>= λ row. ok record { index_of = row; info = [] } in
    let (all, count) =
      traverse_all (λ (m : Mark). m.info ≡ []) mark_at (range_from 0 (div_ceil total granularity))
        marks
        (λ k m e.
          let (row, _, e1) = >>=-eq-ok (row_of k) _ e in sym (ap (λ (q : Mark). q.info) (ok-eq e1)))
        h1 in
    (
      all,
      count
          ∙ length-range_from 0 (div_ceil total granularity)
          ∙ ap (λ m. div_ceil m granularity) et,
      All-map columns
          (λ c' e.
            length-granules_from (length c'.data_of) granularity c'.data_of
              (positive granularity ez) (omega arith)
            ∙ ap (λ m. div_ceil m granularity) e)
          same,
    )

module _ (metadata : TableMetadata) where
  abbrev granularity_of : ℕ
  granularity_of = metadata.settings.index_granularity

  -- What a new part has: the definitions of its columns, and marks with no entries, one to a granule.
  pub record IsNew (part : TablePart) : Type 0 where
    pub defs : part.info.column_defs ≡ map (λ (p : PhysicalColumn). p.column_def) part.data_of
    pub unmarked : All (λ (m : Mark). m.info ≡ []) part.info.marks
    pub filled : 0 < length part.info.marks
    pub enough :
        All
          (λ (c : PhysicalColumn).
            length part.info.marks ≤ length (granules granularity_of c.data_of))
          part.data_of

  new_part :
      (ordered : List PhysicalColumn) (name : String) (n : ℕ) (marks : List Mark)
      → generate_indexes ordered metadata.schema.primary_key granularity_of ≡ ok marks
      → All (λ (c : PhysicalColumn). length c.data_of ≡ n) ordered
      → 0 < n
      → HasKey ordered metadata.schema.primary_key
      → IsNew record {
        info = record {
          name = name;
          row_count = n;
          marks = marks;
          column_defs = map (λ (p : PhysicalColumn). p.column_def) ordered;
        };
        data_of = ordered;
      }
  unfolding generate_indexes
  new_part ordered name n marks h same some_rows key =
      let (unmarked, count, all) =
        generate_indexes-granules ordered metadata.schema.primary_key granularity_of n marks h same
          key in
      let (_, ez, _) = >>=-eq-ok (not_zero granularity_of) _ h in
      let more : div_ceil n granularity_of ≡ suc (div_ceil (n - granularity_of) granularity_of) =
        div_ceil-suc n granularity_of (positive granularity_of ez) some_rows in
      record {
        defs = refl;
        unmarked = unmarked;
        filled = omega (arith, count, more);
        enough = All-map ordered (λ c e. omega (arith, e, count)) all;
      }

  -- A part whose columns have as many rows as it says, at least one, and whose primary key has a
  -- column.
  abbrev pub IsRegular : TablePart → Type 0
  IsRegular part =
      All (λ (c : PhysicalColumn). length c.data_of ≡ part.info.row_count) part.data_of
      × (0 < part.info.row_count)
      × HasKey part.data_of metadata.schema.primary_key

  -- How a part is made.
  abbrev pub part_of : String → List PhysicalColumn → List Mark → PhysicalColumn → TablePart
  part_of name ordered marks first = record {
    info = record {
      name = name;
      row_count = length first.data_of;
      marks = marks;
      column_defs = map (λ (p : PhysicalColumn). p.column_def) ordered;
    };
    data_of = ordered;
  }

  pub try_new-part_of :
      (columns : List PhysicalColumn) (name : String) (part : TablePart)
      → try_new metadata columns name ≡ ok part
      → (ordered : List PhysicalColumn) × (marks : List Mark) × (first : PhysicalColumn)
        × (generate_indexes ordered metadata.schema.primary_key granularity_of ≡ ok marks)
        × (part_of name ordered marks first ≡ part)
  unfolding try_new
  try_new-part_of [] name part h = cc h
  try_new-part_of (c ∷ cs) name part h = elim (Bool-cases (is_empty c.data_of)) [
    | inl e ↦ absurd (err_ok (rw e at h))
    | inr e ↦
        let (out, _, h1) =
          >>=-eq-ok (get_engine metadata.settings.engine config (map output_of (c ∷ cs))) _
            (rw e at h) in
        let (ordered, _, h2) = >>=-eq-ok (traverse physical_of out) _ h1 in
        let (marks, em, h3) =
          >>=-eq-ok (generate_indexes ordered metadata.schema.primary_key granularity_of) _ h2 in
        let (first, _, h4) = >>=-eq-ok (index (get_elem? ordered 0)) _ h3 in
        (ordered, marks, first, em, ok-eq h4)
  ]
    where
      config : EngineConfig
      config = record {
        order_by = map projection_of metadata.schema.order_by;
        primary_key = metadata.schema.primary_key;
      }

  pub try_new-IsNew :
      (columns : List PhysicalColumn) (name : String) (part : TablePart)
      → try_new metadata columns name ≡ ok part
      → IsRegular part
      → IsNew part
  try_new-IsNew columns name part h =
      let (ordered, marks, first, em, e) = try_new-part_of columns name part h in
      subst (λ p. IsRegular p → IsNew p) e
        (λ (same, some_rows, key).
          new_part ordered name (length first.data_of) marks em same some_rows key)
