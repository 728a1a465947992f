-- ===== src/Sql/Plan.antt =====
-- sql/sql_parser.rs: the logical and the physical plan, and the way from one to the other.
pub mod Projections
use touchhouse.Prelude.{ℕ, String, Bool, true, false, Option, none, some, List, []}
use touchhouse.Outcome.{Result, ok, err, ◌>>=◌, internal}
use touchhouse.Storage.Column.{ColumnDef, PhysicalColumn, Projection}
use touchhouse.Storage.Table.{TableDef, TableSettings}
use touchhouse.Sql.Ast.{Expr}
use touchhouse.Sql.Plan.Projections.{AggregateProjection}

pub record CreateTablePlan : Type 0 where
  pub name : TableDef
  pub if_not_exists : Bool
  pub columns : List ColumnDef
  pub settings : TableSettings
  pub order_by : List ColumnDef
  pub primary_key : List ColumnDef

mutual
  pub data LogicalPlan : Type 0 where
    create_database : String → Bool → LogicalPlan
    create_table : CreateTablePlan → LogicalPlan
    insert : TableDef → List PhysicalColumn → LogicalPlan
    drop_database : String → Bool → LogicalPlan
    drop_table : TableDef → Bool → LogicalPlan
    scan : LogicalSource → LogicalPlan
    projection : List Projection → LogicalPlan → LogicalPlan
    filter : Expr → LogicalPlan → LogicalPlan
    order_by : List (List Projection) → LogicalPlan → LogicalPlan
    limit : Option ℕ → ℕ → LogicalPlan → LogicalPlan
    aggregate : List AggregateProjection → List Projection → LogicalPlan → LogicalPlan
    having : Expr → LogicalPlan → LogicalPlan

  -- `ScanSource<LogicalPlan>`
  pub data LogicalSource : Type 0 where
    table : TableDef → LogicalSource
    subquery : LogicalPlan → LogicalSource

-- What a `SelectNode` holds besides its source.
pub record SelectFields : Type 0 where
  pub columns : List Projection
  pub filter : Option Expr
  pub aggregate_cols : List AggregateProjection
  pub group_by : List Projection
  pub having : Option Expr
  pub order_by : Option (List (List Projection))
  pub limit : Option ℕ
  pub offset : ℕ

mutual
  pub data SelectNode : Type 0 where
    select_node : ScanSource → SelectFields → SelectNode

  -- `ScanSource<SelectNode>`
  pub data ScanSource : Type 0 where
    table : TableDef → ScanSource
    subquery : SelectNode → ScanSource

abbrev pub no_fields : SelectFields
no_fields = record {
  columns = [];
  filter = none;
  aggregate_cols = [];
  group_by = [];
  having = none;
  order_by = none;
  limit = none;
  offset = 0;
}

-- `SelectNode::try_from`: the loop, with what it has collected, and a fresh one for a subquery.
unfoldable mutual
  pub collect : LogicalPlan → SelectFields → Result SelectNode
  collect (scan source) f = collect_source source >>= λ s. ok (select_node s f)
  collect (projection projs plan) f = collect plan record f { columns = projs }
  collect (filter e plan) f = collect plan record f { filter = some e }
  collect (order_by projs plan) f = collect plan record f { order_by = some projs }
  collect (limit l o plan) f = collect plan record f { limit = l; offset = o }
  collect (aggregate aggr_proj group_by plan) f =
      collect plan record f { aggregate_cols = aggr_proj; group_by = group_by }
  collect (having e plan) f = collect plan record f { having = some e }
  collect (create_database n b) f = err internal
  collect (create_table c) f = err internal
  collect (insert t cols) f = err internal
  collect (drop_database n b) f = err internal
  collect (drop_table t b) f = err internal

  pub collect_source : LogicalSource → Result ScanSource
  collect_source (LogicalSource.table t) = ok (ScanSource.table t)
  collect_source (LogicalSource.subquery plan) =
      collect plan no_fields >>= λ node. ok (ScanSource.subquery node)

unfoldable pub select_node_of : LogicalPlan → Result SelectNode
select_node_of plan = collect plan no_fields

pub data PhysicalPlan : Type 0 where
  create_database : String → Bool → PhysicalPlan
  create_table : CreateTablePlan → PhysicalPlan
  insert : TableDef → List PhysicalColumn → PhysicalPlan
  drop_database : String → Bool → PhysicalPlan
  drop_table : TableDef → Bool → PhysicalPlan
  select : SelectNode → PhysicalPlan

-- `PhysicalPlan::try_from`
unfoldable pub physical_plan : LogicalPlan → Result PhysicalPlan
unfolding select_node_of
physical_plan (create_database n b) = ok (PhysicalPlan.create_database n b)
physical_plan (create_table c) = ok (PhysicalPlan.create_table c)
physical_plan (insert t columns) = ok (PhysicalPlan.insert t columns)
physical_plan (drop_database n b) = ok (PhysicalPlan.drop_database n b)
physical_plan (drop_table t b) = ok (PhysicalPlan.drop_table t b)
physical_plan plan = select_node_of plan >>= λ node. ok (PhysicalPlan.select node)

unfoldable pub get_complexity : PhysicalPlan → ℕ
get_complexity (PhysicalPlan.insert t columns) = 2
get_complexity (PhysicalPlan.select node) = 4
get_complexity _ = 1
