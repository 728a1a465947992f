-- ===== src/Sql/Filter/Tests.antt =====
-- Runs of a filter.
use touchhouse.Prelude.{false, [], ◌∷◌, ◌≡◌, refl}
use touchhouse.Outcome.{ok}
use touchhouse.BinOp.{BinOp}
use touchhouse.Value.{Value, value_cell, value_cell-IsLawful, fits_op, partial_cmp, eq}
use touchhouse.Value.Literal.{try_from, parse_unsigned}
use touchhouse.Sql.Ast.{Expr, SqlValue, BinaryOperator}
use touchhouse.Sql.Filter.{
  CompiledFilter, compare, compile, filter_granule, compile_comparison, compare_operands,
  column_value_comparison, column_at, bin_op_of,
}
use touchhouse.Sql.Filter.Mask.{keep_rows}
use touchhouse.Sql.Filter.Reading.{eval, relate_operands}
use touchhouse.Sql.Filter.Compile.{where_rows}
use touchhouse.Tests.Fixtures.{externs, col_a, cells}

abbrev more_than_one : Expr
more_than_one =
    Expr.binary_op BinaryOperator.gt (Expr.identifier "a") (Expr.value (SqlValue.number "1" false))

abbrev more_than_one_filter : CompiledFilter
more_than_one_filter = compare 0 BinOp.gt (Value.uint64 1)

compiled : compile externs (col_a ∷ []) more_than_one ≡ ok more_than_one_filter
unfolding compile compile_comparison compare_operands column_value_comparison bin_op_of column_at
    try_from parse_unsigned
compiled = refl

where_rows_example :
    filter_granule more_than_one_filter (cells ∷ [])
    ≡ ok ((Value.uint64 3 ∷ Value.uint64 2 ∷ []) ∷ [])
unfolding keep_rows eval relate_operands fits_op partial_cmp eq bin_op_of column_at try_from
    parse_unsigned
where_rows_example =
    where_rows value_cell-IsLawful externs (col_a ∷ []) more_than_one more_than_one_filter
      (cells ∷ []) 3 compiled refl (refl, (refl, tt))
