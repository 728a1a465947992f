-- ===== src/Tests/Selects.antt =====
-- SELECT with a WHERE from a table of one part.
use touchhouse.Prelude.{
  ℕ, ◌+◌, false, zero, suc, ◌≡◌, refl, some, Option, List, [], ◌∷◌, position, str_eq, arith,
}
use mathlib.Core.Path.{subst}
use touchhouse.Outcome.{ok, panics}
use touchhouse.BinOp.{BinOp}
use touchhouse.Value.{Value, value_cell, fits_op, partial_cmp, eq}
use touchhouse.Value.Archived.{archive, to_value}
use touchhouse.Value.Literal.{try_from, parse_unsigned}
use touchhouse.Storage.Column.{
  ColumnDef, projection_of, eq_column_def, eq_type, eq_constraints, eq_compression, eq_bool,
}
use touchhouse.Storage.Table.{TableDef, TableSchema}
use touchhouse.Storage.Part.{TablePartInfo, eq_part}
use touchhouse.Storage.Native.Walk.{AreApart}
use touchhouse.Storage.Native.Saved.{try_new-save_raw-Served}
use touchhouse.Sql.Ast.{Expr, BinaryOperator, SqlValue}
use touchhouse.Sql.Filter.{
  CompiledFilter, compare, compile, compile_comparison, compare_operands, column_value_comparison,
  column_at, bin_op_of,
}
use touchhouse.Sql.Filter.Mask.{keep_rows}
use touchhouse.Sql.Filter.Reading.{eval, relate_operands}
use touchhouse.Sql.Plan.{ScanSource, no_fields, select_node}
use touchhouse.Execution.Scan.{select, compile_option, scan_from_storage}
use touchhouse.Execution.Scan.Unread.{scan_from_storage-unread}
use touchhouse.Storage.Read.{StorageRead}
use touchhouse.Execution.Scan.Kept.{HasNames, all_columns}
use touchhouse.Execution.Scan.Stored.{IsStored}
use touchhouse.Execution.Scan.Where.{select-kept_all}
use touchhouse.Tests.Fixtures.{externs, codec, codec-RoundTrips, col_a, table_t, schema}
use touchhouse.Tests.Saves.{twos, rows, part, saved, file, disk, made, written, part-IsRegular}

IsStored-IsStored : IsStored externs codec disk 2 schema saved
IsStored-IsStored = record {
  is_served =
      try_new-save_raw-Served externs codec disk codec-RoundTrips twos
        (record { column_def = col_a; data_of = rows } ∷ []) "p" part saved (file ∷ [])
        (λ b. omega arith) made part-IsRegular (refl, tt) written ((refl, omega arith), tt);
  defs = refl;
  columns = refl;
  rows = (refl, tt);
  marked = refl;
}

stored-AreApart : AreApart (saved.info ∷ [])
unfolding eq_part eq eq_column_def eq_type eq_constraints eq_compression eq_bool
stored-AreApart zero p h =
    let e : saved.info ≡ p = cc h in
    subst (λ r. position (λ q. eq_part q r) (saved.info ∷ []) ≡ some 0) e refl
stored-AreApart (suc j) p h = cc h

abbrev tables : TableDef → Option (TableSchema × List TablePartInfo)
tables t = some (schema, saved.info ∷ [])

schema-HasNames : HasNames schema
schema-HasNames zero d h =
    let e : col_a ≡ d = cc h in
    subst (λ c. position (λ (q : ColumnDef). str_eq q.name c.name) schema.columns ≡ some 0) e refl
schema-HasNames (suc i) d h = cc h

abbrev more_than_one : Expr
more_than_one =
    Expr.binary_op BinaryOperator.gt (Expr.identifier "a") (Expr.value (SqlValue.number "1" false))

abbrev more_than_one_filter : CompiledFilter
more_than_one_filter = compare 0 BinOp.gt (Value.uint64 1)

compiled :
    compile_option externs schema.columns (some more_than_one) ≡ ok (some more_than_one_filter)
unfolding compile_option compile compile_comparison compare_operands column_value_comparison
    bin_op_of column_at try_from parse_unsigned
compiled = refl

select-kept_all_example :
    select externs codec tables
      (λ t. disk)
      3
      (select_node
        (ScanSource.table table_t)
        record no_fields { columns = all_columns schema; filter = some more_than_one })
    ≡ ok
        (record { proj = projection_of col_a; data_of = Value.uint64 2 ∷ Value.uint64 3 ∷ [] } ∷ [])
unfolding keep_rows eval relate_operands fits_op partial_cmp archive to_value eq bin_op_of column_at
    try_from parse_unsigned
select-kept_all_example =
    select-kept_all externs codec tables (λ t. disk) 3 2 table_t schema (some more_than_one)
      (some more_than_one_filter) (saved ∷ []) refl compiled (omega arith) schema-HasNames
      (IsStored-IsStored, tt) stored-AreApart (omega arith) (omega arith)

-- A table of two columns, of which a query reads the first and compares the second.
abbrev col_b : ColumnDef
col_b = record col_a { name = "b" }

abbrev both : StorageRead ℕ Value
both = record {
  get_total_rows = λ s. 1;
  get_schema =
      λ s. record { columns = col_a ∷ col_b ∷ []; order_by = col_a ∷ []; primary_key = col_a ∷ [] };
  load_next_chunk = λ s. ok (some (s + 1));
  access_chunk_column = λ s p. ok (Value.uint64 5 ∷ []);
}

abbrev b_more_than_one : Expr
b_more_than_one =
    Expr.binary_op BinaryOperator.gt (Expr.identifier "b") (Expr.value (SqlValue.number "1" false))

b_compiled :
    compile externs (col_a ∷ col_b ∷ []) b_more_than_one ≡ ok (compare 1 BinOp.gt (Value.uint64 1))
unfolding compile compile_comparison compare_operands column_value_comparison bin_op_of column_at
    try_from parse_unsigned
b_compiled = refl

scan_from_storage-unread_example :
    scan_from_storage externs both value_cell 3 0
      record no_fields { columns = projection_of col_a ∷ []; filter = some b_more_than_one }
    ≡ panics
scan_from_storage-unread_example =
    scan_from_storage-unread externs both value_cell 2 0 1 (projection_of col_a) [] b_more_than_one
      1 BinOp.gt (Value.uint64 1) ((Value.uint64 5 ∷ []) ∷ []) b_compiled (omega arith)
      (omega arith) refl refl
