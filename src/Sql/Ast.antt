-- ===== src/Sql/Ast.antt =====
-- The syntax tree that the crate `sqlparser` hands over: the cases that the source matches on, with
-- the parts that it reads. Each `other` case stands for all the rest.
use touchhouse.Prelude.{String, Bool, List}

pub data SqlValue : Type 0 where
  null : SqlValue
  single_quoted triple_single_quoted triple_double_quoted : String → SqlValue
  number : String → Bool → SqlValue
  boolean : Bool → SqlValue
  placeholder : SqlValue
  other : SqlValue

pub data BinaryOperator : Type 0 where
  and or gt lt gt_eq lt_eq eq not_eq other : BinaryOperator

pub data UnaryOperator : Type 0 where
  not minus plus other : UnaryOperator

pub data ObjectNamePart : Type 0 where
  identifier : String → ObjectNamePart
  function : ObjectNamePart

abbrev pub ObjectName : Type 0
ObjectName = List ObjectNamePart

-- An identifier is its text. A list of arguments is kept with whether it has clauses and whether
-- `ALL` or `DISTINCT` stands before it.
mutual
  pub data Expr : Type 0 where
    identifier : String → Expr
    value : SqlValue → Expr
    binary_op : BinaryOperator → Expr → Expr → Expr
    unary_op : UnaryOperator → Expr → Expr
    tuple : Exprs → Expr
    nested : Expr → Expr
    function : ObjectName → Arguments → Arguments → Expr
    other : Expr

  pub data Exprs : Type 0 where
    nil : Exprs
    cons : Expr → Exprs → Exprs

  pub data Arguments : Type 0 where
    no_arguments : Arguments
    subquery : Arguments
    arguments : Bool → Bool → Args → Arguments

  pub data Args : Type 0 where
    end : Args
    unnamed : Expr → Args → Args
    wildcard qualified_wildcard named expr_named : Args → Args
