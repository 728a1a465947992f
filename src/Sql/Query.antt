-- ===== src/Sql/Query.antt =====
-- The statements that the crate `sqlparser` hands over, as `Ast` has its expressions.
use touchhouse.Prelude.{String, Bool, List, Option}
use touchhouse.Sql.Ast.{Expr, ObjectName}

pub data SelectItem : Type 0 where
  wildcard qualified_wildcard : SelectItem
  unnamed_expr : Expr → SelectItem
  expr_with_alias : Expr → String → SelectItem

-- Each with whether modifiers follow.
pub data GroupByExpr : Type 0 where
  all : Bool → GroupByExpr
  expressions : List Expr → Bool → GroupByExpr

pub data OrderBy : Type 0 where
  all : OrderBy
  expressions : List Expr → OrderBy

pub data LimitClause : Type 0 where
  limit_offset : Option Expr → Option Expr → LimitClause
  other : LimitClause

-- A table of FROM is kept with whether joins follow it.
mutual
  pub data Query : Type 0 where
    query : SetExpr → Option OrderBy → Option LimitClause → Query

  pub data SetExpr : Type 0 where
    select : Tables → List SelectItem → Option Expr → GroupByExpr → Option Expr → SetExpr
    values : List (List Expr) → SetExpr
    other : SetExpr

  pub data Tables : Type 0 where
    nil : Tables
    cons : TableFactor → Bool → Tables → Tables

  pub data TableFactor : Type 0 where
    table : ObjectName → TableFactor
    derived : Query → TableFactor
    other_factor : TableFactor

pub data DataType : Type 0 where
  string uuid bool int8 int16 int32 int64 uint8 uint16 uint32 uint64 float32 float64 : DataType
  other : DataType

pub data ColumnOption : Type 0 where
  null not_null other : ColumnOption
  default : Expr → ColumnOption

pub record TableColumn : Type 0 where
  pub name : String
  pub data_type : DataType
  pub options : List ColumnOption

-- `key = name(...)`, or another kind of option.
pub data SqlOption : Type 0 where
  named_list : String → Option String → SqlOption
  other : SqlOption

pub data CreateTableOptions : Type 0 where
  no_options : CreateTableOptions
  plain : List SqlOption → CreateTableOptions
  other : CreateTableOptions

pub record CreateTable : Type 0 where
  pub name : ObjectName
  pub if_not_exists : Bool
  pub columns : List TableColumn
  pub table_options : CreateTableOptions
  pub order_by : Option (List Expr)
  pub primary_key : Option Expr

-- The table, or a table function.
pub record Insert : Type 0 where
  pub table : Option ObjectName
  pub columns : List String
  pub source : Option Query

pub data ObjectType : Type 0 where
  table database other : ObjectType

pub data Statement : Type 0 where
  create_database : ObjectName → Bool → Statement
  create_table : CreateTable → Statement
  insert : Insert → Statement
  query : Query → Statement
  drop : ObjectType → Bool → List ObjectName → Statement
  other : Statement
