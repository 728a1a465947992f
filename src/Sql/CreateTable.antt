-- ===== src/Sql/CreateTable.antt =====
-- sql/logical_plan/create_table.rs: the plan of a CREATE TABLE.
pub mod Keys
mod Tests
use touchhouse.Prelude.{
  String, Bool, true, false, ◌&&◌, not, Option, none, some, List, [], ◌∷◌, any, find, length,
  is_empty, ltb, str_eq,
}
use touchhouse.Outcome.{
  Result, ok, err, ◌>>=◌, ok_or, guard, invalid_engine_name, unsupported_table_option,
  invalid_order_by, order_by_columns_not_found, invalid_primary_key, column_not_found,
  unsupported_column_constraint, invalid_table_name, no_columns_specified, invalid_column_name,
  unsupported_column_type, invalid_order_by_primary_key_pair,
}
use touchhouse.Externs.{Externs}
use touchhouse.Value.{Value, ValueType}
use touchhouse.Value.Literal.{try_from}
use touchhouse.Storage.Column.{ColumnDef, Constraints, get_optimal_compression, eq_column_def}
use touchhouse.Storage.Table.{TableSettings, default_settings, table_of}
use touchhouse.Engines.{engine_of_name}
use touchhouse.Sql.Ast.{Expr, Exprs, identifier, tuple, nested, nil, cons}
use touchhouse.Sql.Query.{
  DataType, ColumnOption, TableColumn, SqlOption, CreateTableOptions, CreateTable, null, not_null,
  default, named_list, no_options, plain,
}
use touchhouse.Sql.Plan.{LogicalPlan, create_table}
use touchhouse.Sql.Names.{validate_name}

-- `ValueType::try_from(data_type)`
unfoldable pub field_type_of : DataType → Result ValueType
field_type_of DataType.string = ok ValueType.string
field_type_of DataType.uuid = ok ValueType.uuid
field_type_of DataType.bool = ok ValueType.bool
field_type_of DataType.int8 = ok ValueType.int8
field_type_of DataType.int16 = ok ValueType.int16
field_type_of DataType.int32 = ok ValueType.int32
field_type_of DataType.int64 = ok ValueType.int64
field_type_of DataType.uint8 = ok ValueType.uint8
field_type_of DataType.uint16 = ok ValueType.uint16
field_type_of DataType.uint32 = ok ValueType.uint32
field_type_of DataType.uint64 = ok ValueType.uint64
field_type_of DataType.float32 = ok ValueType.f32
field_type_of DataType.float64 = ok ValueType.f64
field_type_of DataType.other = err unsupported_column_type

-- A `HashSet` of names, as the list of what was inserted.
abbrev pub has_name : List String → String → Bool
has_name names name = any (λ n. str_eq n name) names

-- `columns.iter().find(|col| col.name == name)`
abbrev pub find_column : List ColumnDef → String → Option ColumnDef
find_column columns name = find (λ (c : ColumnDef). str_eq c.name name) columns

-- A second NULL or NOT NULL is refused.
set_nullable : Option Bool → Bool → Result (Option Bool)
set_nullable none b = ok (some b)
set_nullable (some c) b = err unsupported_column_constraint

unwrap_nullable : Option Bool → Bool
unwrap_nullable none = true
unwrap_nullable (some b) = b

literal_default : Externs → Expr → ValueType → Result Value
literal_default x (Expr.value v) t = try_from x v t
literal_default x _ t = err unsupported_column_constraint

constraints_from :
    Externs → ValueType → Option Bool → Option Value → List ColumnOption → Result Constraints
unfolding set_nullable unwrap_nullable literal_default
constraints_from x t n d [] = ok record {
  nullable = unwrap_nullable n;
  default = d;
  compression_type = get_optimal_compression t;
}
constraints_from x t n d (null ∷ os) = set_nullable n true >>= λ n'. constraints_from x t n' d os
constraints_from x t n d (not_null ∷ os) =
    set_nullable n false >>= λ n'. constraints_from x t n' d os
constraints_from x t n d (default e ∷ os) =
    literal_default x e t >>= λ v. constraints_from x t n (some v) os
constraints_from x t n d (ColumnOption.other ∷ os) = err unsupported_column_constraint

unfoldable pub parse_column_constraints :
    Externs → List ColumnOption → ValueType → Result Constraints
unfolding constraints_from
parse_column_constraints x options t = constraints_from x t none none options

-- The loop over the columns of the statement, with the names seen.
unfoldable pub parse_columns : Externs → List String → List TableColumn → Result (List ColumnDef)
parse_columns x names [] = ok []
parse_columns x names (c ∷ cs) = do
  _ ← guard (validate_name c.name) invalid_column_name
  _ ← guard (not (has_name names c.name)) invalid_column_name
  t ← field_type_of c.data_type
  constraints ← parse_column_constraints x c.options t
  rest ← parse_columns x (c.name ∷ names) cs
  ok (record { name = c.name; field_type = t; constraints = constraints } ∷ rest)

settings_from : Externs → TableSettings → List SqlOption → Result TableSettings
settings_from x s [] = ok s
settings_from x s (SqlOption.other ∷ os) = err invalid_engine_name
settings_from x s (named_list key name ∷ os) = do
  _ ← guard (str_eq (x.to_lowercase key) "engine") unsupported_table_option
  n ← ok_or name invalid_engine_name
  e ← engine_of_name n
  settings_from x record s { engine = e } os

unfoldable pub parse_table_options : Externs → CreateTableOptions → Result TableSettings
unfolding settings_from
parse_table_options x no_options = ok default_settings
parse_table_options x (plain options) = settings_from x default_settings options
parse_table_options x CreateTableOptions.other = err invalid_engine_name

order_by_from : List ColumnDef → List String → List Expr → Result (List ColumnDef)
order_by_from columns names [] = ok []
order_by_from columns names (identifier name ∷ es) = do
  c ← ok_or (find_column columns name) invalid_order_by
  _ ← guard (not (has_name names name)) invalid_order_by
  rest ← order_by_from columns (name ∷ names) es
  ok (c ∷ rest)
order_by_from columns names (_ ∷ es) = err invalid_order_by

unfoldable pub create_parse_order_by : List Expr → List ColumnDef → Result (List ColumnDef)
unfolding order_by_from
create_parse_order_by [] columns = err order_by_columns_not_found
create_parse_order_by (e ∷ es) columns = order_by_from columns [] (e ∷ es)

abbrev pub parse_column_def_ident : String → List ColumnDef → Result ColumnDef
parse_column_def_ident name columns = ok_or (find_column columns name) column_not_found

primary_keys_of : Exprs → List ColumnDef → Result (List ColumnDef)
primary_keys_of nil columns = ok []
primary_keys_of (cons (identifier name) es) columns =
    parse_column_def_ident name columns >>= λ c. primary_keys_of es columns >>= λ cs. ok (c ∷ cs)
primary_keys_of (cons _ es) columns = err invalid_primary_key

unfoldable pub parse_primary_key : Expr → List ColumnDef → Result (List ColumnDef)
unfolding primary_keys_of
parse_primary_key (identifier name) columns =
    parse_column_def_ident name columns >>= λ c. ok (c ∷ [])
parse_primary_key (tuple keys) columns = primary_keys_of keys columns
parse_primary_key (nested (identifier name)) columns =
    parse_column_def_ident name columns >>= λ c. ok (c ∷ [])
parse_primary_key _ columns = err invalid_primary_key

-- The zip of the primary key and ORDER BY.
abbrev pub all_equal : List ColumnDef → List ColumnDef → Bool
all_equal [] os = true
all_equal (p ∷ ps) [] = true
all_equal (p ∷ ps) (o ∷ os) = eq_column_def p o && all_equal ps os

-- The two keys: what is not given is taken from the other, and with neither it is the first column.
unfoldable pub parse_keys :
    Option (List Expr) → Option Expr → List ColumnDef → Result (List ColumnDef × List ColumnDef)
parse_keys (some os) (some p) columns = do
  order_by ← create_parse_order_by os columns
  primary_key ← parse_primary_key p columns
  _ ← guard (not (ltb (length order_by) (length primary_key))) invalid_order_by_primary_key_pair
  _ ← guard (all_equal primary_key order_by) invalid_order_by_primary_key_pair
  ok (order_by, primary_key)
parse_keys (some os) none columns =
    create_parse_order_by os columns >>= λ order_by. ok (order_by, order_by)
parse_keys none (some p) columns =
    parse_primary_key p columns >>= λ primary_key. ok (primary_key, primary_key)
parse_keys none none [] = Result.panics
parse_keys none none (c ∷ cs) = ok (c ∷ [], c ∷ [])

unfoldable pub from_create_table : Externs → CreateTable → Result LogicalPlan
from_create_table x statement = do
  t ← table_of statement.name
  _ ← guard (validate_name t.table) invalid_table_name
  _ ← guard (not (is_empty statement.columns)) no_columns_specified
  columns ← parse_columns x [] statement.columns
  settings ← parse_table_options x statement.table_options
  keys ← parse_keys statement.order_by statement.primary_key columns
  ok (
      create_table record {
        name = t;
        if_not_exists = statement.if_not_exists;
        columns = columns;
        settings = settings;
        order_by = keys.0;
        primary_key = keys.1;
      })
