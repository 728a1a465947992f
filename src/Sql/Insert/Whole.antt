-- ===== src/Sql/Insert/Whole.antt =====
-- sql/logical_plan/insert.rs: all columns of an INSERT that is accepted, with those that it fills in.
use touchhouse.Prelude.{
  ℕ, ◌≡◌, ap, String, Option, none, some, List, [], ◌∷◌, ◌++◌, map, length, replicate,
  length-replicate, All, Bool-cases, inl, inr,
}
use mathlib.Core.Path.{subst}
use touchhouse.Outcome.{ok, >>=-eq-ok, ok-eq, ok_or, table_not_found}
use touchhouse.Externs.{Externs}
use touchhouse.Value.{Value}
use touchhouse.Storage.Column.{ColumnDef, PhysicalColumn, empty_column}
use touchhouse.Storage.Table.{TableDef, TableSchema}
use touchhouse.Sql.Ast.{Expr}
use touchhouse.Sql.Query.{Insert}
use touchhouse.Sql.Plan.{LogicalPlan, insert}
use touchhouse.Sql.Insert.{
  extract_table_def, validate_no_duplicate_columns, resolve_insert_columns,
  validate_required_columns, names_of, extract_values_source, validate_and_populate_columns,
  default_of, default_columns, add_default_columns, from_insert,
}
use touchhouse.Sql.CreateTable.{has_name}
use touchhouse.Sql.Insert.Columns.{Holds, validate_and_populate_columns-Holds}

-- Every column has the given number of cells.
abbrev pub AreLong : ℕ → List PhysicalColumn → Type 0
AreLong n columns = All (λ (c : PhysicalColumn). length c.data_of ≡ n) columns

AreLong-append :
    (n : ℕ) (l r : List PhysicalColumn) → AreLong n l → AreLong n r → AreLong n (l ++ r)
AreLong-append n [] r h k = k
AreLong-append n (c ∷ l) r h k = (h.0, AreLong-append n l r h.1 k)

held_AreLong : (n : ℕ) (l : List PhysicalColumn) → All (Holds n) l → AreLong n l
held_AreLong n [] h = tt
held_AreLong n (c ∷ l) h = (h.0.0, held_AreLong n l h.1)

filled_in :
    (n : ℕ) (c : ColumnDef) (rest : List PhysicalColumn) (o : Option Value)
    → AreLong n rest
    → AreLong n (elim o [
      | none ↦ rest
      | some v ↦ record { column_def = c; data_of = replicate n v } ∷ rest
    ])
filled_in n c rest none h = h
filled_in n c rest (some v) h = (length-replicate n v, h)

default_columns-AreLong :
    (inserted : List String) (n : ℕ) (cs : List ColumnDef)
    → AreLong n (default_columns inserted n cs)
default_columns-AreLong inserted n [] = tt
default_columns-AreLong inserted n (c ∷ cs) = elim (Bool-cases (has_name inserted c.name)) [
  | inl e ↦ rw (e, default_columns) (default_columns-AreLong inserted n cs)
  | inr e ↦
      rw (e, default_columns)
        (filled_in n c (default_columns inserted n cs) (default_of c)
          (default_columns-AreLong inserted n cs))
]

columns_of : LogicalPlan → List PhysicalColumn
columns_of (insert t columns) = columns
columns_of _ = []

-- The plan of an INSERT that is accepted has in each column, those that it fills in from defaults
-- or with NULL included, as many cells as its VALUES has rows.
pub from_insert-AreLong :
    (x : Externs) (tables : TableDef → Option TableSchema) (statement : Insert) (t : TableDef)
    (columns : List PhysicalColumn)
    → from_insert x tables statement ≡ ok (insert t columns)
    → (rows : List (List Expr)) × (extract_values_source statement.source ≡ ok rows)
      × AreLong (length rows) columns
unfolding from_insert add_default_columns columns_of
from_insert-AreLong x tables statement t columns h =
    let (t', _, h1) = >>=-eq-ok (extract_table_def statement.table) _ h in
    let (schema, _, h2) = >>=-eq-ok (ok_or (tables t') table_not_found) _ h1 in
    let (_, _, h3) = >>=-eq-ok (validate_no_duplicate_columns statement.columns) _ h2 in
    let (defs, _, h4) = >>=-eq-ok (resolve_insert_columns statement.columns schema) _ h3 in
    let (_, _, h5) = >>=-eq-ok (validate_required_columns (names_of defs) schema) _ h4 in
    let (rows, source, h6) = >>=-eq-ok (extract_values_source statement.source) _ h5 in
    let (given, filled, h7) =
      >>=-eq-ok (validate_and_populate_columns x (map empty_column defs) rows) _ h6 in
    let (held, _) = validate_and_populate_columns-Holds x defs rows given filled in
    (
      rows,
      source,
      subst (AreLong (length rows)) (ap columns_of (ok-eq h7)) (
          AreLong-append (length rows) given
            (default_columns (names_of defs) (length rows) schema.columns)
            (held_AreLong (length rows) given held)
            (default_columns-AreLong (names_of defs) (length rows) schema.columns)),
    )
