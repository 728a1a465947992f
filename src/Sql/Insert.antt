-- ===== src/Sql/Insert.antt =====
-- sql/logical_plan/insert.rs: the plan of an INSERT.
pub mod Columns
pub mod Whole
use Prim.Native.String.{◌++◌ as append}
use touchhouse.Prelude.{
  ℕ, String, Bool, true, false, not, ◌&&◌, Option, none, some, List, [], ◌∷◌, ◌++◌, any, map,
  length, replicate, ◌==◌, if◌then◌else◌,
}
use touchhouse.Outcome.{
  Result, ok, err, panics, ◌>>=◌, ok_or, guard, traverse, unsupported_command, table_not_found,
  no_columns_specified, invalid_column_name, invalid_source, invalid_columns_specified,
  empty_source, could_not_insert_data,
}
use touchhouse.Externs.{Externs}
use touchhouse.Value.{Value, eq}
use touchhouse.Value.Literal.{try_from}
use touchhouse.Storage.Column.{ColumnDef, PhysicalColumn, empty_column}
use touchhouse.Storage.Table.{TableDef, TableSchema, table_of}
use touchhouse.Sql.Ast.{Expr, SqlValue, UnaryOperator, ObjectName, minus, plus}
use touchhouse.Sql.Query.{Insert, Query, query, values}
use touchhouse.Sql.Plan.{LogicalPlan, insert}
use touchhouse.Sql.CreateTable.{has_name, find_column}

unfoldable pub extract_table_def : Option ObjectName → Result TableDef
extract_table_def none = err unsupported_command
extract_table_def (some name) = table_of name

abbrev pub no_duplicates : List String → List String → Bool
no_duplicates seen [] = true
no_duplicates seen (c ∷ cs) = not (has_name seen c) && no_duplicates (c ∷ seen) cs

unfoldable pub validate_no_duplicate_columns : List String → Result (Unit {0})
validate_no_duplicate_columns [] = err no_columns_specified
validate_no_duplicate_columns (c ∷ cs) = guard (no_duplicates [] (c ∷ cs)) invalid_column_name

unfoldable pub resolve_insert_columns : List String → TableSchema → Result (List ColumnDef)
resolve_insert_columns names schema =
    traverse (λ n. ok_or (find_column schema.columns n) invalid_column_name) names

abbrev pub names_of : List ColumnDef → List String
names_of columns = map (λ (c : ColumnDef). c.name) columns

-- Not among the inserted columns, not nullable and with no default.
abbrev pub is_missing : List String → ColumnDef → Bool
is_missing inserted c =
    not (has_name inserted c.name)
    && (not c.constraints.nullable && elim c.constraints.default [ none ↦ true | some v ↦ false ])

unfoldable pub validate_required_columns : List String → TableSchema → Result (Unit {0})
validate_required_columns inserted schema = do
  _ ← guard (not (any (is_missing inserted) schema.columns)) invalid_source
  _ ← guard (not (any (is_missing inserted) schema.order_by)) invalid_columns_specified
  guard (not (any (is_missing inserted) schema.primary_key)) invalid_columns_specified

unfoldable pub extract_values_source : Option Query → Result (List (List Expr))
extract_values_source (some (query (values rows) o l)) = ok rows
extract_values_source _ = err invalid_source

-- A number with its sign.
signed : UnaryOperator → SqlValue → Result SqlValue
signed minus (SqlValue.number n exact) = ok (SqlValue.number (append "-" n) exact)
signed plus (SqlValue.number n exact) = ok (SqlValue.number n exact)
signed _ _ = err invalid_source

unfoldable pub extract_sql_value : Expr → Result SqlValue
unfolding signed
extract_sql_value (Expr.value v) = ok v
extract_sql_value (Expr.unary_op op (Expr.value v)) = signed op v
extract_sql_value _ = err invalid_source

-- One value for one column: of the column's type, and no NULL where it is not nullable.
unfoldable pub cell_for : Externs → ColumnDef → Expr → Result Value
cell_for x c e = do
  sql_value ← extract_sql_value e
  v ← try_from x sql_value c.field_type
  _ ← guard (not (eq v Value.null && not c.constraints.nullable)) could_not_insert_data
  ok v

-- The values of one row, each pushed on its column. `columns[col_idx]` past the end panics.
unfoldable pub push_values :
    Externs → List PhysicalColumn → List Expr → Result (List PhysicalColumn)
push_values x cs [] = ok cs
push_values x [] (e ∷ es) = extract_sql_value e >>= λ v. panics
push_values x (c ∷ cs) (e ∷ es) = do
  v ← cell_for x c.column_def e
  rest ← push_values x cs es
  ok (record { column_def = c.column_def; data_of = c.data_of ++ (v ∷ []) } ∷ rest)

unfoldable pub push_rows :
    Externs → List PhysicalColumn → List (List Expr) → Result (List PhysicalColumn)
push_rows x cs [] = ok cs
push_rows x cs (row ∷ rows) = push_values x cs row >>= λ cs'. push_rows x cs' rows

unfoldable pub validate_and_populate_columns :
    Externs → List PhysicalColumn → List (List Expr) → Result (List PhysicalColumn)
validate_and_populate_columns x columns [] = err empty_source
validate_and_populate_columns x columns (row ∷ rows) = do
  _ ←
      guard (not (any (λ (r : List Expr). not (length r == length row)) (row ∷ rows)))
        invalid_source
  _ ← guard (length columns == length row) invalid_source
  push_rows x columns (row ∷ rows)

-- What a column that is not given holds: its default, or NULL if it is nullable.
abbrev pub default_of : ColumnDef → Option Value
default_of c = elim c.constraints.default [
  | some v ↦ some v
  | none ↦ if c.constraints.nullable then some Value.null else none
]

abbrev pub default_columns : List String → ℕ → List ColumnDef → List PhysicalColumn
default_columns inserted rows [] = []
default_columns inserted rows (c ∷ cs) =
    if has_name inserted c.name then default_columns inserted rows cs else elim (default_of c) [
      | none ↦ default_columns inserted rows cs
      | some v ↦
          record { column_def = c; data_of = replicate rows v } ∷ default_columns inserted rows cs
    ]

unfoldable pub add_default_columns :
    List PhysicalColumn → List String → TableSchema → ℕ → List PhysicalColumn
add_default_columns columns inserted schema rows =
    columns ++ default_columns inserted rows schema.columns

-- `tables` is what `TABLE_DATA` holds.
unfoldable pub from_insert : Externs → (TableDef → Option TableSchema) → Insert → Result LogicalPlan
from_insert x tables statement = do
  t ← extract_table_def statement.table
  schema ← ok_or (tables t) table_not_found
  _ ← validate_no_duplicate_columns statement.columns
  insert_columns ← resolve_insert_columns statement.columns schema
  _ ← validate_required_columns (names_of insert_columns) schema
  rows ← extract_values_source statement.source
  columns ← validate_and_populate_columns x (map empty_column insert_columns) rows
  ok (insert t (add_default_columns columns (names_of insert_columns) schema (length rows)))
