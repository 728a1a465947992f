-- ===== src/Sql/Filter/Reading.antt =====
-- sql/compiled_filter.rs: a plain reading of the expressions of a WHERE clause, one row at a time.
use touchhouse.Prelude.{
  ℕ, String, Bool, false, not, ◌&&◌, ◌||◌, Option, none, some, List, find, str_eq,
}
use touchhouse.Outcome.{Result, ok}
use touchhouse.BinOp.{BinOp}
use touchhouse.Externs.{Externs}
use touchhouse.Value.{Value, ToValue, fits_op, is_true}
use touchhouse.Value.Literal.{try_from, try_from_untyped}
use touchhouse.Storage.Column.{ColumnDef}
use touchhouse.Sql.Ast.{SqlValue, BinaryOperator, UnaryOperator, Expr}
use touchhouse.Sql.Filter.{bin_op_of, column_at}

abbrev pub relate : BinOp → Option Value → Option Value → Bool
relate op (some v) (some w) = fits_op v w op
relate op _ _ = false

abbrev pub result_of : Result Value → Option Value
result_of (ok v) = some v
result_of _ = none

abbrev pub truth : Option Value → Bool
truth none = false
truth (some v) = is_true v

module _ (x : Externs) where
  abbrev pub typed : SqlValue → Option ColumnDef → Option Value
  typed v none = none
  typed v (some def) = result_of (try_from x v def.field_type)

module _ {T : Type 0} where
  abbrev pub cell_of : Option ℕ → (ℕ → Option T) → Option T
  cell_of none row = none
  cell_of (some i) row = row i

module _ {T : Type 0} ⦃t : ToValue T⦄ where
  abbrev pub viewed : Option T → Option Value
  viewed none = none
  viewed (some a) = some (t.view a)

  abbrev pub column_value : List ColumnDef → String → (ℕ → Option T) → Option Value
  column_value defs name row = viewed (cell_of (column_at name defs) row)

-- The reading of an expression over one row. A column is the first of its name; a literal beside a
-- column is read at the column's type; a comparison relates its two sides as they stand. What the
-- compiler refuses reads as false.
module _ {T : Type 0} ⦃t : ToValue T⦄ (x : Externs) (defs : List ColumnDef) where
  unfoldable pub relate_operands : Expr → Expr → BinOp → (ℕ → Option T) → Bool
  relate_operands (Expr.identifier l) (Expr.value r) op row =
      relate op (column_value defs l row)
        (typed x r (find (λ (c : ColumnDef). str_eq c.name l) defs))
  relate_operands (Expr.value l) (Expr.identifier r) op row =
      relate op (typed x l (find (λ (c : ColumnDef). str_eq c.name r) defs))
        (column_value defs r row)
  relate_operands (Expr.value l) (Expr.value r) op row =
      relate op (result_of (try_from_untyped x l)) (result_of (try_from_untyped x r))
  relate_operands (Expr.identifier l) (Expr.identifier r) op row =
      relate op (column_value defs l row) (column_value defs r row)
  relate_operands _ _ op row = false

  unfoldable pub eval : Expr → (ℕ → Option T) → Bool
  unfolding bin_op_of relate_operands
  eval (Expr.binary_op BinaryOperator.and l r) row = eval l row && eval r row
  eval (Expr.binary_op BinaryOperator.or l r) row = eval l row || eval r row
  eval (Expr.binary_op op l r) row = elim (bin_op_of op) [
    | ok o ↦ relate_operands l r o row
    | _ ↦ false
  ]
  eval (Expr.unary_op UnaryOperator.not e) row = not (eval e row)
  eval (Expr.value (SqlValue.boolean b)) row = b
  eval (Expr.identifier name) row = truth (column_value defs name row)
  eval _ row = false
