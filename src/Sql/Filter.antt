-- ===== src/Sql/Filter.antt =====
-- sql/compiled_filter.rs: the filter of a WHERE clause, compiled against the columns of a schema,
-- and its run over a chunk of columns.
pub mod Mask
pub mod Reading
mod Inversion
pub mod Compile
mod Tests
use touchhouse.Prelude.{
  ℕ, String, Bool, true, false, not, ◌&&◌, ◌||◌, Option, none, some, List, [], ◌∷◌, map, length,
  get_elem?, replicate, position, str_eq, if◌then◌else◌,
}
use touchhouse.Outcome.{
  Result, ok, err, panics, hangs, ◌>>=◌, index, ok_or, traverse, column_not_found, invalid_source,
  unsupported_filter,
}
use touchhouse.BinOp.{BinOp, flip}
use touchhouse.Externs.{Externs}
use touchhouse.Value.{Value, ValueType, ToValue, fits, fits_op}
use touchhouse.Value.Literal.{try_from, try_from_untyped}
use touchhouse.Storage.Column.{ColumnDef, eq_type}
use touchhouse.Sql.Ast.{SqlValue, BinaryOperator, UnaryOperator, Expr}

pub data CompiledFilter : Type 0 where
  compare : ℕ → BinOp → Value → CompiledFilter
  compare_columns : ℕ → BinOp → ℕ → CompiledFilter
  and or : CompiledFilter → CompiledFilter → CompiledFilter
  not_of : CompiledFilter → CompiledFilter
  column : ℕ → CompiledFilter
  const : Bool → CompiledFilter

-- `BinOp::try_from`
unfoldable pub bin_op_of : BinaryOperator → Result BinOp
bin_op_of BinaryOperator.gt = ok BinOp.gt
bin_op_of BinaryOperator.lt = ok BinOp.lt
bin_op_of BinaryOperator.gt_eq = ok BinOp.gt_eq
bin_op_of BinaryOperator.lt_eq = ok BinOp.lt_eq
bin_op_of BinaryOperator.eq = ok BinOp.eq
bin_op_of BinaryOperator.not_eq = ok BinOp.not_eq
bin_op_of _ = err unsupported_filter

-- The first column of the name, with its definition.
unfoldable pub column_at : String → List ColumnDef → Option ℕ
column_at name defs = position (λ (c : ColumnDef). str_eq c.name name) defs

-- `compile_and` and `compile_or`, from what the two sides compile to. What the right side compiles
-- to is read only where the left is no constant that decides.
pub compile_and : Result CompiledFilter → Result CompiledFilter → Result CompiledFilter
compile_and (ok (const false)) right = ok (const false)
compile_and (ok (const true)) right = right
compile_and (ok left) (ok (const false)) = ok (const false)
compile_and (ok left) (ok (const true)) = ok left
compile_and (ok left) (ok right) = ok (and left right)
compile_and (ok left) (err e) = err e
compile_and (ok left) panics = panics
compile_and (ok left) hangs = hangs
compile_and (err e) right = err e
compile_and panics right = panics
compile_and hangs right = hangs

pub compile_or : Result CompiledFilter → Result CompiledFilter → Result CompiledFilter
compile_or (ok (const true)) right = ok (const true)
compile_or (ok (const false)) right = right
compile_or (ok left) (ok (const true)) = ok (const true)
compile_or (ok left) (ok (const false)) = ok left
compile_or (ok left) (ok right) = ok (or left right)
compile_or (ok left) (err e) = err e
compile_or (ok left) panics = panics
compile_or (ok left) hangs = hangs
compile_or (err e) right = err e
compile_or panics right = panics
compile_or hangs right = hangs

pub compile_unary : UnaryOperator → Result CompiledFilter → Result CompiledFilter
compile_unary UnaryOperator.not inner = inner >>= λ f. ok (not_of f)
compile_unary _ inner = err invalid_source

pub compile_value : SqlValue → Result CompiledFilter
compile_value (SqlValue.boolean b) = ok (const b)
compile_value _ = err invalid_source

module _ (x : Externs) (defs : List ColumnDef) where
  unfoldable pub column_value_comparison : String → SqlValue → BinOp → Result CompiledFilter
  unfolding column_at
  column_value_comparison name v op = do
    col_idx ← ok_or (column_at name defs) column_not_found
    def ← index (get_elem? defs col_idx)
    value ← try_from x v def.field_type
    ok (compare col_idx op value)

  pub value_column_comparison : SqlValue → String → BinOp → Result CompiledFilter
  unfolding column_at
  value_column_comparison v name op = do
    col_idx ← ok_or (column_at name defs) column_not_found
    def ← index (get_elem? defs col_idx)
    value ← try_from x v def.field_type
    ok (compare col_idx (flip op) value)

  pub value_value_comparison : SqlValue → SqlValue → BinOp → Result CompiledFilter
  value_value_comparison l r op = do
    left ← try_from_untyped x l
    right ← try_from_untyped x r
    ok (const (fits_op left right op))

  pub column_column_comparison : String → String → BinOp → Result CompiledFilter
  unfolding column_at
  column_column_comparison l r op = do
    left_idx ← ok_or (column_at l defs) column_not_found
    right_idx ← ok_or (column_at r defs) column_not_found
    ok (compare_columns left_idx op right_idx)

  unfoldable pub compare_operands : Expr → Expr → BinOp → Result CompiledFilter
  compare_operands (Expr.identifier l) (Expr.value r) op = column_value_comparison l r op
  compare_operands (Expr.value l) (Expr.identifier r) op = value_column_comparison l r op
  compare_operands (Expr.value l) (Expr.value r) op = value_value_comparison l r op
  compare_operands (Expr.identifier l) (Expr.identifier r) op = column_column_comparison l r op
  compare_operands _ _ op = err invalid_source

  unfoldable pub compile_comparison : BinaryOperator → Expr → Expr → Result CompiledFilter
  compile_comparison op l r = bin_op_of op >>= λ o. compare_operands l r o

  pub compile_identifier : String → Result CompiledFilter
  unfolding column_at
  compile_identifier name = do
    col_idx ← ok_or (column_at name defs) column_not_found
    def ← index (get_elem? defs col_idx)
    if eq_type def.field_type ValueType.bool then ok (column col_idx) else err invalid_source

  unfoldable pub compile : Expr → Result CompiledFilter
  compile (Expr.binary_op BinaryOperator.and l r) = compile_and (compile l) (compile r)
  compile (Expr.binary_op BinaryOperator.or l r) = compile_or (compile l) (compile r)
  compile (Expr.binary_op op l r) = compile_comparison op l r
  compile (Expr.unary_op op e) = compile_unary op (compile e)
  compile (Expr.value v) = compile_value v
  compile (Expr.identifier name) = compile_identifier name
  compile _ = err unsupported_filter

pub zip_with : (Bool → Bool → Bool) → List Bool → List Bool → List Bool
zip_with f (a ∷ l) (b ∷ r) = f a b ∷ zip_with f l r
zip_with f _ _ = []

-- `columns.first().map_or(0, Vec::len)`
abbrev pub first_len {ℓ} : {T : Type ℓ} → List (List T) → ℕ
first_len [] = 0
first_len (c ∷ cs) = length c

module _ {T : Type 0} where
  -- `retain` with the mask read at a running index, which panics past its end
  unfoldable pub retain : List Bool → List T → Result (List T)
  retain mask [] = ok []
  retain [] (v ∷ vs) = panics
  retain (keep ∷ mask) (v ∷ vs) = retain mask vs >>= λ rest. ok (if keep then v ∷ rest else rest)

module _ {T : Type 0} ⦃t : ToValue T⦄ where
  -- `fits_op` of a cell against a value, and of two cells
  abbrev pub cell_fits : T → BinOp → Value → Bool
  cell_fits a op v = fits (t.cmp_value a v) (t.eq_value a v) op

  abbrev pub cells_fit : BinOp → T → T → Bool
  cells_fit op a b = fits (t.cmp_cell a b) (t.eq_cell a b) op

  pub zip_cells : BinOp → List T → List T → List Bool
  zip_cells op (a ∷ l) (b ∷ r) = cells_fit op a b ∷ zip_cells op l r
  zip_cells op _ _ = []

  unfoldable pub get_granule_mask : CompiledFilter → List (List T) → Result (List Bool)
  unfolding zip_cells zip_with
  get_granule_mask (column i) cols = index (get_elem? cols i) >>= λ c. ok (map t.is_true_cell c)
  get_granule_mask (compare i op v) cols =
      index (get_elem? cols i) >>= λ c. ok (map (λ a. cell_fits a op v) c)
  get_granule_mask (compare_columns i op j) cols = do
    left ← index (get_elem? cols i)
    right ← index (get_elem? cols j)
    ok (zip_cells op left right)
  get_granule_mask (and l r) cols =
      get_granule_mask l cols >>= λ a. get_granule_mask r cols >>= λ b. ok (zip_with ◌&&◌ a b)
  get_granule_mask (or l r) cols =
      get_granule_mask l cols >>= λ a. get_granule_mask r cols >>= λ b. ok (zip_with ◌||◌ a b)
  get_granule_mask (not_of f) cols = get_granule_mask f cols >>= λ a. ok (map not a)
  get_granule_mask (const b) cols = ok (replicate (first_len cols) b)

  unfoldable pub filter_granule : CompiledFilter → List (List T) → Result (List (List T))
  filter_granule f cols = get_granule_mask f cols >>= λ mask. traverse (retain mask) cols
