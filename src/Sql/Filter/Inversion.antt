-- ===== src/Sql/Filter/Inversion.antt =====
-- sql/compiled_filter.rs: what a compiled comparison is made of.
use touchhouse.Prelude.{
  ℕ, zero, suc, ◌<◌, ◌≡◌, sym, String, Bool, some, List, [], ◌∷◌, length, get_elem?, position, find,
  str_eq, arith,
}
use touchhouse.Outcome.{ok, index, ok_or, column_not_found, >>=-eq-ok, ok_or-eq-ok, index-eq-ok}
use touchhouse.BinOp.{BinOp, flip}
use touchhouse.Externs.{Externs}
use touchhouse.Value.{Value}
use touchhouse.Value.Literal.{try_from, try_from_untyped}
use touchhouse.Storage.Column.{ColumnDef}
use touchhouse.Sql.Ast.{SqlValue}
use touchhouse.Sql.Filter.{
  CompiledFilter, compare, compare_columns, column, const, column_at, column_value_comparison,
  value_column_comparison, value_value_comparison, column_column_comparison, compile_identifier,
}
use touchhouse.Sql.Filter.Reading.{relate, result_of, typed}

-- The column found by its place is the column found by its name.
find-position :
    (p : ColumnDef → Bool) (defs : List ColumnDef) (i : ℕ)
    → position p defs ≡ some i
    → get_elem? defs i ≡ find p defs
find-position p [] i h = cc
find-position p (d ∷ defs) zero h = ground arith
find-position p (d ∷ defs) (suc i) h = ground (arith, find-position p defs i)

position-lt :
    (p : ColumnDef → Bool) (defs : List ColumnDef) (i : ℕ)
    → position p defs ≡ some i
    → i < length defs
position-lt p [] i h = cc
position-lt p (d ∷ defs) zero h = omega arith
position-lt p (d ∷ defs) (suc i) h = ground (arith, position-lt p defs i)

module _ (x : Externs) (defs : List ColumnDef) (name : String) (v : SqlValue) (op : BinOp)
    (f : CompiledFilter) where
  -- What a compiled comparison of a column and a literal is made of.
  abbrev pub Comparison : BinOp → Type 0
  Comparison o =
      (i : ℕ) × (w : Value) × (column_at name defs ≡ some i)
      × (typed x v (find (λ (c : ColumnDef). str_eq c.name name) defs) ≡ some w)
      × (f ≡ compare i o w)
      × (i < length defs)

  typed-find :
      (i : ℕ) (d : ColumnDef) (w : Value)
      → position (λ (c : ColumnDef). str_eq c.name name) defs ≡ some i
      → get_elem? defs i ≡ some d
      → try_from x v d.field_type ≡ ok w
      → typed x v (find (λ (c : ColumnDef). str_eq c.name name) defs) ≡ some w
  typed-find i d w at got tried = rw (sym (find-position _ defs i at)) (rw got (rw tried))

  pub column_value-inv : column_value_comparison x defs name v op ≡ ok f → Comparison op
  unfolding column_value_comparison
  column_value-inv h =
      let (i, at, rest) = >>=-eq-ok (ok_or (column_at name defs) column_not_found) _ h in
      let (d, got, last) = >>=-eq-ok (index (get_elem? defs i)) _ rest in
      let (w, tried, made) = >>=-eq-ok (try_from x v d.field_type) _ last in
      let found = ok_or-eq-ok (column_at name defs) column_not_found at in
      (
        i,
        w,
        found,
        typed-find i d w found (index-eq-ok _ got) tried,
        cc made,
        position-lt _ defs i found,
      )

  pub value_column-inv : value_column_comparison x defs v name op ≡ ok f → Comparison (flip op)
  unfolding value_column_comparison
  value_column-inv h =
      let (i, at, rest) = >>=-eq-ok (ok_or (column_at name defs) column_not_found) _ h in
      let (d, got, last) = >>=-eq-ok (index (get_elem? defs i)) _ rest in
      let (w, tried, made) = >>=-eq-ok (try_from x v d.field_type) _ last in
      let found = ok_or-eq-ok (column_at name defs) column_not_found at in
      (
        i,
        w,
        found,
        typed-find i d w found (index-eq-ok _ got) tried,
        cc made,
        position-lt _ defs i found,
      )

module _ (x : Externs) (defs : List ColumnDef) (f : CompiledFilter) where
  pub value_value-inv :
      (l r : SqlValue) (op : BinOp)
      → value_value_comparison x defs l r op ≡ ok f
      → f ≡ const (relate op (result_of (try_from_untyped x l)) (result_of (try_from_untyped x r)))
  unfolding value_value_comparison
  value_value-inv l r op h =
      let (a, left, rest) = >>=-eq-ok (try_from_untyped x l) _ h in
      let (b, right, made) = >>=-eq-ok (try_from_untyped x r) _ rest in rw (left, right) (cc made)

  pub column_column-inv :
      (l r : String) (op : BinOp)
      → column_column_comparison x defs l r op ≡ ok f
      → (i : ℕ) × (j : ℕ) × (column_at l defs ≡ some i)
        × (column_at r defs ≡ some j)
        × (f ≡ compare_columns i op j)
        × (i < length defs)
        × (j < length defs)
  unfolding column_column_comparison
  column_column-inv l r op h =
      let (i, left, rest) = >>=-eq-ok (ok_or (column_at l defs) column_not_found) _ h in
      let (j, right, made) = >>=-eq-ok (ok_or (column_at r defs) column_not_found) _ rest in
      let at_l = ok_or-eq-ok (column_at l defs) column_not_found left in
      let at_r = ok_or-eq-ok (column_at r defs) column_not_found right in
      (i, j, at_l, at_r, cc made, position-lt _ defs i at_l, position-lt _ defs j at_r)

  pub identifier-inv :
      (name : String)
      → compile_identifier x defs name ≡ ok f
      → (i : ℕ) × (column_at name defs ≡ some i) × (f ≡ column i) × (i < length defs)
  unfolding compile_identifier
  identifier-inv name h =
      let (i, at, rest) = >>=-eq-ok (ok_or (column_at name defs) column_not_found) _ h in
      let (d, got, last) = >>=-eq-ok (index (get_elem? defs i)) _ rest in
      let found = ok_or-eq-ok (column_at name defs) column_not_found at in
      (i, found, ground (arith, last), position-lt _ defs i found)
