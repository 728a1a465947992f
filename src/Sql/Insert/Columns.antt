-- ===== src/Sql/Insert/Columns.antt =====
-- sql/logical_plan/insert.rs: the columns of an INSERT that is accepted.
use touchhouse.Prelude.{
  ℕ, suc, ◌+◌, ◌≡◌, refl, sym, ap, ◌∙◌, Bool, true, false, not, ◌&&◌, List, [], ◌∷◌, ◌++◌, map,
  length, length-append, any, ◌==◌, ==_iff, length-map, All, Bool-cases, inl, inr, arith,
}
use mathlib.Core.Path.{subst}
use touchhouse.Outcome.{
  ok, >>=-eq-ok, ok-eq, guard, guard-eq-ok, could_not_insert_data, invalid_source,
}
use touchhouse.Externs.{Externs}
use touchhouse.Value.{Value, eq}
use touchhouse.Value.Literal.{try_from}
use touchhouse.Value.Literal.Typed.{HasType, try_from-HasType}
use touchhouse.Storage.Column.{ColumnDef, PhysicalColumn, empty_column}
use touchhouse.Sql.Ast.{Expr}
use touchhouse.Sql.Insert.{
  extract_sql_value, cell_for, push_values, push_rows, validate_and_populate_columns,
}

-- A cell of the column's type or NULL, and NULL only where the column is nullable.
abbrev pub Fits : ColumnDef → Value → Type 0
Fits d v = HasType d.field_type v × (d.constraints.nullable ≡ false → eq v Value.null ≡ false)

abbrev pub Holds : ℕ → PhysicalColumn → Type 0
Holds n c = (length c.data_of ≡ n) × All (Fits c.column_def) c.data_of

guard_null :
    (e n : Bool) (u : Unit {0})
    → guard (not (e && not n)) could_not_insert_data ≡ ok u
    → n ≡ false
    → e ≡ false
guard_null false n u h k = refl
guard_null true true u h k = cc k
guard_null true false u h k = cc h

All-snoc {ℓ κ} :
    {A : Type ℓ} (P : A → Type κ) (l : List A) (v : A) → All P l → P v → All P (l ++ (v ∷ []))
All-snoc P [] v h p = (p, tt)
All-snoc P (a ∷ l) v h p = (h.0, All-snoc P l v h.1 p)

abbrev pub def_of : PhysicalColumn → ColumnDef
def_of c = c.column_def

not_any :
    (n : ℕ) (rows : List (List Expr))
    → not (any (λ (r : List Expr). not (length r == n)) rows) ≡ true
    → All (λ (r : List Expr). length r ≡ n) rows
not_any n [] h = tt
not_any n (r ∷ rows) h = elim (Bool-cases (length r == n)) [
  | inl e ↦ ((==_iff (length r) n).0 e, not_any n rows (rw (e, any) at h))
  | inr e ↦ cc (rw (e, any) at h)
]

module _ (x : Externs) where
  cell_fits : (d : ColumnDef) (e : Expr) (v : Value) → cell_for x d e ≡ ok v → Fits d v
  unfolding cell_for
  cell_fits d e v h =
      let (s, _, h1) = >>=-eq-ok (extract_sql_value e) _ h in
      let (w, t, h2) = >>=-eq-ok (try_from x s d.field_type) _ h1 in
      let (_, g, h3) =
        >>=-eq-ok
          (guard (not (eq w Value.null && not d.constraints.nullable)) could_not_insert_data) _
          h2 in
      subst (Fits d) (ok-eq h3) (
        try_from-HasType x s d.field_type w t,
        guard_null (eq w Value.null) d.constraints.nullable _ g,
      )

  values_pushed :
      (n : ℕ) (cs out : List PhysicalColumn) (row : List Expr)
      → length row ≡ length cs
      → All (Holds n) cs
      → push_values x cs row ≡ ok out
      → All (Holds (suc n)) out × (map def_of out ≡ map def_of cs)
  unfolding push_values
  values_pushed n [] out [] l h e =
      subst (λ o. All (Holds (suc n)) o × (map def_of o ≡ [])) (ok-eq e) (tt, refl)
  values_pushed n [] out (r ∷ row) l h e = absurd (omega (arith, l))
  values_pushed n (c ∷ cs) out [] l h e = absurd (omega (arith, l))
  values_pushed n (c ∷ cs) out (r ∷ row) l h e =
      let (v, ev, e1) = >>=-eq-ok (cell_for x c.column_def r) _ e in
      let (rest, er, e2) = >>=-eq-ok (push_values x cs row) _ e1 in
      let (hs, ds) = values_pushed n cs rest row (omega (arith, l)) h.1 er in
      subst (λ o. All (Holds (suc n)) o × (map def_of o ≡ map def_of (c ∷ cs))) (ok-eq e2)
        (
          (
            (
              omega (arith, length-append c.data_of (v ∷ []), h.0.0),
              All-snoc (Fits c.column_def) c.data_of v h.0.1 (cell_fits c.column_def r v ev),
            ),
            hs,
          ),
          ap (λ l. c.column_def ∷ l) ds,
        )

  rows_pushed :
      (n k : ℕ) (cs out : List PhysicalColumn) (rows : List (List Expr))
      → length cs ≡ k
      → All (λ (r : List Expr). length r ≡ k) rows
      → All (Holds n) cs
      → push_rows x cs rows ≡ ok out
      → All (Holds (n + length rows)) out × (map def_of out ≡ map def_of cs)
  unfolding push_rows
  rows_pushed n k cs out [] l r h e =
      subst (λ o. All (Holds (n + 0)) o × (map def_of o ≡ map def_of cs)) (ok-eq e)
        (subst (λ m. All (Holds m) cs) (omega arith) h, refl)
  rows_pushed n k cs out (row ∷ rows) l r h e =
      let (cs', ec, e1) = >>=-eq-ok (push_values x cs row) _ e in
      let (h', d') = values_pushed n cs cs' row (omega (arith, l, r.0)) h ec in
      let l' : length cs' ≡ k =
        sym (length-map def_of cs') ∙ ap length d' ∙ length-map def_of cs ∙ l in
      let (h'', d'') = rows_pushed (suc n) k cs' out rows l' r.1 h' e1 in
      let s : suc n + length rows ≡ n + length (row ∷ rows) = omega arith in
      (subst (λ m. All (Holds m) out) s h'', d'' ∙ d')

  empty_hold : (defs : List ColumnDef) → All (Holds 0) (map empty_column defs)
  empty_hold [] = tt
  empty_hold (d ∷ defs) = ((refl, tt), empty_hold defs)

  empty_defs : (defs : List ColumnDef) → map def_of (map empty_column defs) ≡ defs
  empty_defs [] = refl
  empty_defs (d ∷ defs) = ap (λ l. d ∷ l) (empty_defs defs)

  -- Where the rows of an INSERT are accepted, the result has one column for each column that is
  -- inserted, in this order, with as many cells as there are rows, each cell NULL or of the
  -- column's type, and NULL only where the column is nullable.
  pub validate_and_populate_columns-Holds :
      (defs : List ColumnDef) (rows : List (List Expr)) (out : List PhysicalColumn)
      → validate_and_populate_columns x (map empty_column defs) rows ≡ ok out
      → All (Holds (length rows)) out × (map def_of out ≡ defs)
  unfolding validate_and_populate_columns
  validate_and_populate_columns-Holds defs [] out e = cc e
  validate_and_populate_columns-Holds defs (row ∷ rows) out e =
      let columns : List PhysicalColumn = map empty_column defs in
      let (_, g, e1) =
        >>=-eq-ok
          (guard (not (any (λ (r : List Expr). not (length r == length row)) (row ∷ rows)))
            invalid_source)
          _ e in
      let (_, g', e2) = >>=-eq-ok (guard (length columns == length row) invalid_source) _ e1 in
      let (h, d) =
        rows_pushed 0 (length row) columns out (row ∷ rows)
          ((==_iff (length columns) (length row)).0 (guard-eq-ok _ invalid_source _ g'))
          (not_any (length row) (row ∷ rows) (guard-eq-ok _ invalid_source _ g)) (empty_hold defs)
          e2 in
      let z : 0 + length (row ∷ rows) ≡ length (row ∷ rows) = omega arith in
      (subst (λ m. All (Holds m) out) z h, d ∙ empty_defs defs)
