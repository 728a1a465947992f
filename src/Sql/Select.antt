-- ===== src/Sql/Select.antt =====
-- sql/logical_plan/select.rs: the plan of a SELECT, from the table up.
pub mod Clauses
pub mod Physical
use touchhouse.Prelude.{Bool, true, false, Option, none, some, List, [], ◌∷◌, map}
use touchhouse.Outcome.{Result, ok, err, ◌>>=◌, unsupported_command, table_not_found}
use touchhouse.Externs.{Externs}
use touchhouse.Storage.Column.{Projection, projection_of}
use touchhouse.Storage.Table.{TableDef, TableSchema, table_of}
use touchhouse.Sql.Ast.{Expr}
use touchhouse.Sql.Query.{
  Query, SetExpr, Tables, TableFactor, SelectItem, GroupByExpr, OrderBy, LimitClause, query, select,
  values, nil, cons, derived, other_factor,
}
use touchhouse.Sql.Plan.{
  LogicalPlan, LogicalSource, scan, projection, filter, order_by, limit, aggregate, having,
  create_database, create_table, insert, drop_database, drop_table, subquery,
}
use touchhouse.Sql.Select.Clauses.{
  parse_projections, apply_filter, apply_projection, apply_group_by, apply_having, apply_order_by,
  apply_limit,
}

-- `tables` is what `TABLE_DATA` holds: the schema of each table that there is.
module _ (x : Externs) (tables : TableDef → Option TableSchema) where
  table_columns : Option TableSchema → Result (List Projection)
  table_columns none = err table_not_found
  table_columns (some schema) = ok (map projection_of schema.columns)

  unfoldable mutual
    unfolding table_columns

    pub extract_columns_from_plan : LogicalPlan → Result (List Projection)
    extract_columns_from_plan (projection projs plan) = ok projs
    extract_columns_from_plan (filter e plan) = extract_columns_from_plan plan
    extract_columns_from_plan (order_by projs plan) = extract_columns_from_plan plan
    extract_columns_from_plan (limit l o plan) = extract_columns_from_plan plan
    extract_columns_from_plan (scan source) = extract_columns_from_source source
    extract_columns_from_plan (aggregate a g plan) = err unsupported_command
    extract_columns_from_plan (having e plan) = err unsupported_command
    extract_columns_from_plan (create_database n b) = err unsupported_command
    extract_columns_from_plan (create_table c) = err unsupported_command
    extract_columns_from_plan (insert t columns) = err unsupported_command
    extract_columns_from_plan (drop_database n b) = err unsupported_command
    extract_columns_from_plan (drop_table t b) = err unsupported_command

    pub extract_columns_from_source : LogicalSource → Result (List Projection)
    extract_columns_from_source (LogicalSource.table t) = table_columns (tables t)
    extract_columns_from_source (subquery plan) = extract_columns_from_plan plan

  -- `from_query` once the source is known: the plan grows by one clause after another.
  unfoldable pub from_source :
      LogicalSource
      → List SelectItem
      → Option Expr
      → GroupByExpr
      → Option Expr
      → Option OrderBy
      → Option LimitClause
      → Result LogicalPlan
  from_source source items selection group_by having_expr order_by_clause limit_clause = do
    available ← extract_columns_from_plan (scan source)
    projs ← parse_projections x items available
    grouped ←
        apply_group_by x (apply_projection (apply_filter (scan source) selection) projs.0) group_by
          projs.0 projs.1 available
    ordered ← apply_order_by (apply_having grouped having_expr) order_by_clause projs.0
    apply_limit ordered limit_clause

  unfoldable mutual
    pub from_query : Query → Result LogicalPlan
    from_query (query body order_by_clause limit_clause) =
        from_body body order_by_clause limit_clause

    pub from_body : SetExpr → Option OrderBy → Option LimitClause → Result LogicalPlan
    from_body (select from items selection group_by having_expr) order_by_clause limit_clause =
        build_scan_source from >>= λ source.
        from_source source items selection group_by having_expr order_by_clause limit_clause
    from_body (values rows) order_by_clause limit_clause = err unsupported_command
    from_body SetExpr.other order_by_clause limit_clause = err unsupported_command

    -- `validate_from_clause` and `build_scan_source`: one table, with no joins.
    pub build_scan_source : Tables → Result LogicalSource
    build_scan_source nil = err unsupported_command
    build_scan_source (cons relation joined (cons r j ts)) = err unsupported_command
    build_scan_source (cons relation true nil) = err unsupported_command
    build_scan_source (cons relation false nil) = source_of relation

    pub source_of : TableFactor → Result LogicalSource
    source_of (TableFactor.table name) = table_of name >>= λ t. ok (LogicalSource.table t)
    source_of (derived q) = from_query q >>= λ plan. ok (subquery plan)
    source_of other_factor = err unsupported_command
