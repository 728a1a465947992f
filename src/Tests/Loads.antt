-- ===== src/Tests/Loads.antt =====
-- Runs of the literals, the INSERT, the pages of a result and the parts that a merge reads.
use touchhouse.Prelude.{
  ℕ, false, none, length, some, List, [], ◌∷◌, ◌++◌, ◌≡◌, refl, map, All, arith,
}
use touchhouse.Outcome.{ok, panics}
use touchhouse.Value.{Value, ValueType, eq}
use touchhouse.Value.Literal.{try_from}
use touchhouse.Value.Literal.Typed.{HasType, try_from-HasType}
use touchhouse.Storage.Column.{PhysicalColumn}
use touchhouse.Storage.Part.{Bytes, TablePartInfo, magic_bytes_column, from_le_bytes, validate_mmap}
use touchhouse.Storage.Native.{LoadedChunk, next_part, gen_next_chunk, open_column}
use touchhouse.Execution.Merge.{load_part_cols}
use touchhouse.Execution.Merge.Reading.{load_part_cols-single}
use touchhouse.Storage.Virtual.{VirtualStorage, load_next_chunk, virtual_of, access_chunk_column}
use touchhouse.Storage.Virtual.Scan.{access_chunk_column-short}
use touchhouse.Storage.Column.{
  eq_projection, eq_source, eq_column_def, eq_type, eq_constraints, eq_compression, eq_bool,
}
use touchhouse.Sql.Ast.{SqlValue, Expr, ObjectNamePart}
use touchhouse.Sql.Query.{Statement, Insert}
use touchhouse.Sql.Insert.{
  validate_and_populate_columns, push_rows, push_values, cell_for, extract_sql_value,
}
use touchhouse.Sql.Insert.{
  from_insert, extract_table_def, validate_no_duplicate_columns, resolve_insert_columns,
  validate_required_columns, extract_values_source, add_default_columns,
}
use touchhouse.Sql.Insert.Whole.{AreLong, from_insert-AreLong}
use touchhouse.Storage.Table.{table_of}
use touchhouse.Sql.Insert.Columns.{Holds, validate_and_populate_columns-Holds}
use touchhouse.Execution.Scan.{skip_rows, limit_rows}
use touchhouse.Execution.Scan.Rows.{ArePages, limit_rows-skip_rows}
use touchhouse.Execution.Commands.{Db, execute_command}
use touchhouse.Execution.Commands.Load.{execute_command-database_load}
use touchhouse.Tests.Fixtures.{externs, codec, column, col_a, schema, table_t}

try_from-HasType_example : HasType ValueType.uint64 Value.null
unfolding try_from
try_from-HasType_example = try_from-HasType externs SqlValue.null ValueType.uint64 Value.null refl

abbrev row : List Expr
row = Expr.value SqlValue.null ∷ []

abbrev populated : PhysicalColumn
populated = record { column_def = col_a; data_of = Value.null ∷ Value.null ∷ [] }

validate_and_populate_columns-Holds_example :
    All (Holds 2) (populated ∷ [])
    × (map (λ (c : PhysicalColumn). c.column_def) (populated ∷ []) ≡ col_a ∷ [])
unfolding validate_and_populate_columns push_rows push_values cell_for extract_sql_value try_from eq
validate_and_populate_columns-Holds_example =
    validate_and_populate_columns-Holds externs (col_a ∷ []) (row ∷ row ∷ []) (populated ∷ []) refl

limit_rows-skip_rows_example :
    ArePages 1 1 (column ∷ []) (limit_rows (some 1) (skip_rows 1 (column ∷ [])))
limit_rows-skip_rows_example = limit_rows-skip_rows 3 1 1 (column ∷ []) (refl, tt)

abbrev loaded_db : Db
loaded_db = record { table_data = []; folders = []; database_load = 5 }

execute_command-database_load_example :
    (execute_command codec externs
      (λ d n. ok [])
      loaded_db
      "p"
      (Statement.drop touchhouse.Sql.Query.table false ([] ∷ []))).0.database_load
    ≡ 5
execute_command-database_load_example =
    execute_command-database_load codec externs (λ d n. ok []) loaded_db "p"
      (Statement.drop touchhouse.Sql.Query.table false ([] ∷ []))

-- A length field of 2^64 - 1.
abbrev all_ones : List ℕ
all_ones = 255 ∷ 255 ∷ 255 ∷ 255 ∷ 255 ∷ 255 ∷ 255 ∷ 255 ∷ []

-- A file of no granule.
abbrev file : Bytes
file = magic_bytes_column ++ (1 ∷ 7 ∷ 0 ∷ 0 ∷ 0 ∷ [])

abbrev part : TablePartInfo
part = record {
  name = "p";
  row_count = 1;
  marks = record { index_of = []; info = [] } ∷ [];
  column_defs = col_a ∷ [];
}

abbrev chunk : LoadedChunk
chunk = record { part_info = part; granule_idx = 0; mmaps = file ∷ []; chunk_bytes = [] }

load_part_cols-single_example :
    load_part_cols externs codec (λ p c. some file) (some (schema, [])) part ≡ panics
unfolding next_part gen_next_chunk open_column validate_mmap from_le_bytes
load_part_cols-single_example =
    load_part_cols-single externs codec (λ p c. some file) schema [] part col_a [] chunk refl refl
      refl refl

abbrev insert_a : Insert
insert_a = record {
  table = some (ObjectNamePart.identifier "d" ∷ ObjectNamePart.identifier "t" ∷ []);
  columns = "a" ∷ [];
  source =
      some (touchhouse.Sql.Query.query (touchhouse.Sql.Query.values (row ∷ row ∷ [])) none none);
}

inserted_a :
    from_insert externs (λ t. some schema) insert_a
    ≡ ok (touchhouse.Sql.Plan.insert table_t (populated ∷ []))
unfolding from_insert extract_table_def validate_no_duplicate_columns resolve_insert_columns
    validate_required_columns extract_values_source add_default_columns table_of
    validate_and_populate_columns push_rows push_values cell_for extract_sql_value try_from eq
inserted_a = refl

from_insert-AreLong_example :
    (rows : List (List Expr)) × (extract_values_source insert_a.source ≡ ok rows)
    × AreLong (length rows) (populated ∷ [])
from_insert-AreLong_example =
    from_insert-AreLong externs (λ t. some schema) insert_a table_t (populated ∷ []) inserted_a

access_chunk_column-short_example :
    (s : VirtualStorage) × (load_next_chunk (virtual_of externs (column ∷ [])) ≡ ok (some s))
    × (access_chunk_column s column.proj ≡ panics)
unfolding eq_projection eq_source eq_column_def eq_type eq_constraints eq_compression eq_bool
access_chunk_column-short_example =
    access_chunk_column-short externs column [] (omega arith) (omega arith) refl
