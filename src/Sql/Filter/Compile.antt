-- ===== src/Sql/Filter/Compile.antt =====
-- sql/compiled_filter.rs: `compile` looks columns up, types literals, turns comparisons round and
-- folds constants; against the plain reading of the expression.
use touchhouse.Prelude.{
  ℕ, ◌≡◌, refl, ap, sym, ◌∙◌, Bool, true, false, not, ◌&&◌, ◌||◌, Option, none, some, List, length,
  arith,
}
use touchhouse.Outcome.{Result, ok, err, panics, hangs, >>=-eq-ok}
use touchhouse.BinOp.{BinOp, flip}
use touchhouse.Externs.{Externs}
use touchhouse.Value.{Value, ToValue, IsLawful, fits_op}
use touchhouse.Value.Order.{partial_cmp-flip, eq-partial_cmp}
use touchhouse.Storage.Column.{ColumnDef}
use touchhouse.Sql.Ast.{SqlValue, BinaryOperator, UnaryOperator, Expr}
use touchhouse.Sql.Filter.{
  CompiledFilter, and, or, const, bin_op_of, compile_and, compile_or, compile_unary, compile_value,
  compare_operands, compile_comparison, compile, cell_fits, cells_fit,
}
use touchhouse.Sql.Filter.Mask.{InBounds, holds, on_cell, on_cells}
use touchhouse.Sql.Filter.Reading.{relate, truth, viewed, relate_operands, eval}
use touchhouse.Sql.Filter.Mask.{IsRect, cell, keep_rows, filter_granule_rows}
use touchhouse.Sql.Filter.{filter_granule}
use touchhouse.Sql.Filter.Inversion.{
  column_value-inv, value_column-inv, value_value-inv, column_column-inv, identifier-inv,
}
use mathlib.Core.Path.{subst, fun_ext}
use touchhouse.Prelude.{map}

-- Turning a comparison round flips its operator, for any two values.
pub fits_op-flip : (v w : Value) (op : BinOp) → fits_op v w (flip op) ≡ fits_op w v op
unfolding fits_op flip
fits_op-flip v w op = ground (arith, partial_cmp-flip v w, eq-partial_cmp v w, eq-partial_cmp w v)

module _ {T : Type 0} ⦃t : ToValue T⦄ (row : ℕ → Option T) where
  compile_and-holds :
      (l r : Result CompiledFilter) (f : CompiledFilter) (a b : Bool)
      → ((g : CompiledFilter) → l ≡ ok g → holds g row ≡ a)
      → ((g : CompiledFilter) → r ≡ ok g → holds g row ≡ b)
      → compile_and l r ≡ ok f
      → holds f row ≡ (a && b)
  unfolding compile_and holds
  compile_and-holds (ok l) (ok r) f a b hl hr h = ground (arith, hl l refl, hr r refl)
  compile_and-holds (ok l) (err e) f a b hl hr h = ground (arith, hl l refl)
  compile_and-holds (ok l) panics f a b hl hr h = ground (arith, hl l refl)
  compile_and-holds (ok l) hangs f a b hl hr h = ground (arith, hl l refl)
  compile_and-holds (err e) r f a b hl hr h = cc
  compile_and-holds panics r f a b hl hr h = cc
  compile_and-holds hangs r f a b hl hr h = cc

  compile_or-holds :
      (l r : Result CompiledFilter) (f : CompiledFilter) (a b : Bool)
      → ((g : CompiledFilter) → l ≡ ok g → holds g row ≡ a)
      → ((g : CompiledFilter) → r ≡ ok g → holds g row ≡ b)
      → compile_or l r ≡ ok f
      → holds f row ≡ (a || b)
  unfolding compile_or holds
  compile_or-holds (ok l) (ok r) f a b hl hr h = ground (arith, hl l refl, hr r refl)
  compile_or-holds (ok l) (err e) f a b hl hr h = ground (arith, hl l refl)
  compile_or-holds (ok l) panics f a b hl hr h = ground (arith, hl l refl)
  compile_or-holds (ok l) hangs f a b hl hr h = ground (arith, hl l refl)
  compile_or-holds (err e) r f a b hl hr h = cc
  compile_or-holds panics r f a b hl hr h = cc
  compile_or-holds hangs r f a b hl hr h = cc

module _ {T : Type 0} ⦃t : ToValue T⦄ (lawful : IsLawful t) where
  cell-relate :
      (o : Option T) (op : BinOp) (w : Value)
      → on_cell (λ a. cell_fits a op w) o ≡ relate op (viewed o) (some w)
  unfolding fits_op
  cell-relate none op w = refl
  cell-relate (some a) op w = cc (lawful.cmp_value_view a w, lawful.eq_value_view a w)

  cells-relate :
      (o p : Option T) (op : BinOp) → on_cells (cells_fit op) o p ≡ relate op (viewed o) (viewed p)
  unfolding fits_op
  cells-relate none p op = refl
  cells-relate (some a) none op = refl
  cells-relate (some a) (some b) op = cc (lawful.cmp_cell_view a b, lawful.eq_cell_view a b)

  relate-flip :
      (o : Option T) (op : BinOp) (w : Value)
      → relate (flip op) (viewed o) (some w) ≡ relate op (some w) (viewed o)
  relate-flip none op w = refl
  relate-flip (some a) op w = fits_op-flip (t.view a) w op

  cell-truth : (o : Option T) → on_cell t.is_true_cell o ≡ truth (viewed o)
  cell-truth none = refl
  cell-truth (some a) = lawful.is_true_view a

ok_inj {ℓ} : {A : Type ℓ} (a b : A) → ok a ≡ ok b → a ≡ b
ok_inj a b h = cc

module _ (P : CompiledFilter → Type 0) (k : (b : Bool) → P (const b)) (f : CompiledFilter) where
  compile_and-ind :
      (l r : Result CompiledFilter)
      → ((g : CompiledFilter) → l ≡ ok g → P g)
      → ((g : CompiledFilter) → r ≡ ok g → P g)
      → ((g g' : CompiledFilter) → l ≡ ok g → r ≡ ok g' → P (and g g'))
      → compile_and l r ≡ ok f
      → P f
  unfolding compile_and
  compile_and-ind (ok (const false)) r pl pr pb h = subst P (ok_inj _ _ h) (k false)
  compile_and-ind (ok (const true)) r pl pr pb h = pr f h
  compile_and-ind (ok left) (ok (const false)) pl pr pb h = subst P (ok_inj _ _ h) (k false)
  compile_and-ind (ok left) (ok (const true)) pl pr pb h = subst P (ok_inj _ _ h) (pl left refl)
  compile_and-ind (ok left) (ok right) pl pr pb h = subst P (ok_inj _ _ h) (pb left right refl refl)
  compile_and-ind _ _ pl pr pb h = cc

  compile_or-ind :
      (l r : Result CompiledFilter)
      → ((g : CompiledFilter) → l ≡ ok g → P g)
      → ((g : CompiledFilter) → r ≡ ok g → P g)
      → ((g g' : CompiledFilter) → l ≡ ok g → r ≡ ok g' → P (or g g'))
      → compile_or l r ≡ ok f
      → P f
  unfolding compile_or
  compile_or-ind (ok (const true)) r pl pr pb h = subst P (ok_inj _ _ h) (k true)
  compile_or-ind (ok (const false)) r pl pr pb h = pr f h
  compile_or-ind (ok left) (ok (const true)) pl pr pb h = subst P (ok_inj _ _ h) (k true)
  compile_or-ind (ok left) (ok (const false)) pl pr pb h = subst P (ok_inj _ _ h) (pl left refl)
  compile_or-ind (ok left) (ok right) pl pr pb h = subst P (ok_inj _ _ h) (pb left right refl refl)
  compile_or-ind _ _ pl pr pb h = cc

module _ (x : Externs) (defs : List ColumnDef) where
  operands-InBounds :
      (l r : Expr) (op : BinOp) (f : CompiledFilter)
      → compare_operands x defs l r op ≡ ok f
      → InBounds (length defs) f
  unfolding compare_operands
  operands-InBounds (Expr.identifier l) (Expr.value r) op f h =
      let (i, w, at, lit, made, lt) = column_value-inv x defs l r op f h in
      subst (InBounds (length defs)) (sym made) lt
  operands-InBounds (Expr.value l) (Expr.identifier r) op f h =
      let (i, w, at, lit, made, lt) = value_column-inv x defs r l op f h in
      subst (InBounds (length defs)) (sym made) lt
  operands-InBounds (Expr.value l) (Expr.value r) op f h =
      subst (InBounds (length defs)) (sym (value_value-inv x defs f l r op h)) tt
  operands-InBounds (Expr.identifier l) (Expr.identifier r) op f h =
      let (i, j, at_l, at_r, made, lt_i, lt_j) = column_column-inv x defs f l r op h in
      subst (InBounds (length defs)) (sym made) (lt_i, lt_j)
  operands-InBounds _ _ op f h = cc

  -- A compiled filter names columns of the schema alone.
  pub compile-InBounds :
      (e : Expr) (f : CompiledFilter) → compile x defs e ≡ ok f → InBounds (length defs) f
  unfolding compile compile_comparison bin_op_of compile_unary compile_value
  compile-InBounds (Expr.binary_op BinaryOperator.and l r) f h =
      compile_and-ind (InBounds (length defs)) (λ b. tt) f (compile x defs l) (compile x defs r)
        (compile-InBounds l) (compile-InBounds r)
        (λ g g' p q. (compile-InBounds l g p, compile-InBounds r g' q)) h
  compile-InBounds (Expr.binary_op BinaryOperator.or l r) f h =
      compile_or-ind (InBounds (length defs)) (λ b. tt) f (compile x defs l) (compile x defs r)
        (compile-InBounds l) (compile-InBounds r)
        (λ g g' p q. (compile-InBounds l g p, compile-InBounds r g' q)) h
  compile-InBounds (Expr.binary_op BinaryOperator.gt l r) f h = operands-InBounds l r BinOp.gt f h
  compile-InBounds (Expr.binary_op BinaryOperator.lt l r) f h = operands-InBounds l r BinOp.lt f h
  compile-InBounds (Expr.binary_op BinaryOperator.gt_eq l r) f h =
      operands-InBounds l r BinOp.gt_eq f h
  compile-InBounds (Expr.binary_op BinaryOperator.lt_eq l r) f h =
      operands-InBounds l r BinOp.lt_eq f h
  compile-InBounds (Expr.binary_op BinaryOperator.eq l r) f h = operands-InBounds l r BinOp.eq f h
  compile-InBounds (Expr.binary_op BinaryOperator.not_eq l r) f h =
      operands-InBounds l r BinOp.not_eq f h
  compile-InBounds (Expr.unary_op UnaryOperator.not e) f h =
      let (g, inner, made) = >>=-eq-ok (compile x defs e) _ h in
      subst (InBounds (length defs)) (ok_inj _ _ made) (compile-InBounds e g inner)
  compile-InBounds (Expr.value (SqlValue.boolean b)) f h =
      subst (InBounds (length defs)) (ok_inj _ _ h) tt
  compile-InBounds (Expr.identifier name) f h =
      let (i, at, made, lt) = identifier-inv x defs f name h in
      subst (InBounds (length defs)) (sym made) lt
  compile-InBounds _ f h = cc

module _ {T : Type 0} ⦃t : ToValue T⦄ (lawful : IsLawful t) (x : Externs) (defs : List ColumnDef)
    (row : ℕ → Option T) where
  operands-holds :
      (l r : Expr) (op : BinOp) (f : CompiledFilter)
      → compare_operands x defs l r op ≡ ok f
      → holds f row ≡ relate_operands x defs l r op row
  unfolding compare_operands holds relate_operands
  operands-holds (Expr.identifier l) (Expr.value r) op f h =
      let (i, w, at, lit, made, lt) = column_value-inv x defs l r op f h in
      rw (made, at, lit) (cell-relate lawful (row i) op w)
  operands-holds (Expr.value l) (Expr.identifier r) op f h =
      let (i, w, at, lit, made, lt) = value_column-inv x defs r l op f h in
      rw (made, at, lit) (cell-relate lawful (row i) (flip op) w ∙ relate-flip lawful (row i) op w)
  operands-holds (Expr.value l) (Expr.value r) op f h = rw (value_value-inv x defs f l r op h)
  operands-holds (Expr.identifier l) (Expr.identifier r) op f h =
      let (i, j, at_l, at_r, made, lt_i, lt_j) = column_column-inv x defs f l r op h in
      rw made (rw at_l (rw at_r (cells-relate lawful (row i) (row j) op)))
  operands-holds _ _ op f h = cc

  -- Compiling keeps the meaning: whatever is folded or turned round, the filter that an expression
  -- compiles to says of every row what the plain reading of the expression says of it.
  pub compile-holds :
      (e : Expr) (f : CompiledFilter) → compile x defs e ≡ ok f → holds f row ≡ eval x defs e row
  unfolding compile compile_comparison compile_unary compile_value holds eval
  compile-holds (Expr.binary_op BinaryOperator.and l r) f h =
      compile_and-holds row (compile x defs l) (compile x defs r) f _ _ (compile-holds l)
        (compile-holds r) h
  compile-holds (Expr.binary_op BinaryOperator.or l r) f h =
      compile_or-holds row (compile x defs l) (compile x defs r) f _ _ (compile-holds l)
        (compile-holds r) h
  compile-holds (Expr.binary_op BinaryOperator.gt l r) f h = operands-holds l r BinOp.gt f h
  compile-holds (Expr.binary_op BinaryOperator.lt l r) f h = operands-holds l r BinOp.lt f h
  compile-holds (Expr.binary_op BinaryOperator.gt_eq l r) f h = operands-holds l r BinOp.gt_eq f h
  compile-holds (Expr.binary_op BinaryOperator.lt_eq l r) f h = operands-holds l r BinOp.lt_eq f h
  compile-holds (Expr.binary_op BinaryOperator.eq l r) f h = operands-holds l r BinOp.eq f h
  compile-holds (Expr.binary_op BinaryOperator.not_eq l r) f h = operands-holds l r BinOp.not_eq f h
  compile-holds (Expr.unary_op UnaryOperator.not e) f h =
      let (g, inner, made) = >>=-eq-ok (compile x defs e) _ h in
      rw (sym (ok_inj _ _ made)) (ap not (compile-holds e g inner))
  compile-holds (Expr.value (SqlValue.boolean b)) f h = rw (sym (ok_inj _ _ h)) refl
  compile-holds (Expr.identifier name) f h =
      let (i, at, made, lt) = identifier-inv x defs f name h in
      rw (made, at) (cell-truth lawful (row i))
  compile-holds _ f h = cc

keep_rows-congruence :
    {T : Type 0} (p q : ℕ → Bool) (cs : List (List T))
    → ((i : ℕ) → p i ≡ q i)
    → map (keep_rows p) cs ≡ map (keep_rows q) cs
keep_rows-congruence p q cs h = ap (λ (r : ℕ → Bool). map (keep_rows r) cs) (fun_ext h)

-- For an expression that compiles against the columns of a schema, and a chunk of equally long
-- columns, one for each column of the schema, `filter_granule` does not panic, and keeps in every
-- column exactly the cells of the rows of which the plain reading of the expression is true, in
-- their order. This is for cells that compare as the values they stand for.
pub where_rows :
    {T : Type 0} ⦃t : ToValue T⦄ (lawful : IsLawful t) (x : Externs) (defs : List ColumnDef)
    (e : Expr) (f : CompiledFilter) (cols : List (List T)) (n : ℕ)
    → compile x defs e ≡ ok f
    → length cols ≡ length defs
    → IsRect n cols
    → filter_granule f cols ≡ ok (map (keep_rows (λ i. eval x defs e (cell cols i))) cols)
where_rows lawful x defs e f cols n h len rect =
    filter_granule_rows f cols n rect
      (subst (λ k. InBounds k f) (sym len) (compile-InBounds x defs e f h))
    ∙ ap ok (keep_rows-congruence _ _ cols (λ i. compile-holds lawful x defs (cell cols i) e f h))
