-- ===== src/Sql/CreateTable/Tests.antt =====
-- A run of a CREATE TABLE.
use touchhouse.Prelude.{false, none, some, [], ◌∷◌, ◌≡◌, refl}
use touchhouse.Outcome.{ok}
use touchhouse.Storage.Table.{table_of, default_settings}
use touchhouse.Storage.Column.{get_optimal_compression}
use touchhouse.Sql.Ast.{Expr, ObjectNamePart}
use touchhouse.Sql.Query.{CreateTable, DataType, no_options}
use touchhouse.Sql.Plan.{CreateTablePlan, create_table}
use touchhouse.Sql.Names.{validate_name}
use touchhouse.Sql.CreateTable.{
  from_create_table, parse_columns, field_type_of, parse_column_constraints, constraints_from,
  unwrap_nullable, parse_table_options, parse_keys, create_parse_order_by, order_by_from,
}
use touchhouse.Sql.CreateTable.Keys.{IsWellFormed, from_create_table-IsWellFormed}
use touchhouse.Tests.Fixtures.{externs, col_a, table_t}

abbrev create_t : CreateTable
create_t = record {
  name = ObjectNamePart.identifier "d" ∷ ObjectNamePart.identifier "t" ∷ [];
  if_not_exists = false;
  columns = record { name = "a"; data_type = DataType.uint64; options = [] } ∷ [];
  table_options = no_options;
  order_by = some (Expr.identifier "a" ∷ []);
  primary_key = none;
}

abbrev planned_t : CreateTablePlan
planned_t = record {
  name = table_t;
  if_not_exists = false;
  columns = col_a ∷ [];
  settings = default_settings;
  order_by = col_a ∷ [];
  primary_key = col_a ∷ [];
}

created : from_create_table externs create_t ≡ ok (create_table planned_t)
unfolding from_create_table parse_columns field_type_of parse_column_constraints constraints_from
    unwrap_nullable parse_table_options parse_keys create_parse_order_by order_by_from table_of
    validate_name get_optimal_compression
created = refl

from_create_table-IsWellFormed_example : IsWellFormed planned_t
from_create_table-IsWellFormed_example =
    from_create_table-IsWellFormed externs create_t planned_t created
