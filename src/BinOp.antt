-- ===== src/BinOp.antt =====
-- sql/compiled_filter.rs: the comparison operators of a filter.
pub data BinOp : Type 0 where
  gt lt gt_eq lt_eq eq not_eq : BinOp

unfoldable pub flip : BinOp → BinOp
flip BinOp.gt = BinOp.lt
flip BinOp.lt = BinOp.gt
flip BinOp.gt_eq = BinOp.lt_eq
flip BinOp.lt_eq = BinOp.gt_eq
flip BinOp.eq = BinOp.eq
flip BinOp.not_eq = BinOp.not_eq
