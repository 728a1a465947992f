-- ===== src/Tests/Plans.antt =====
-- Runs of the planner, the sort and the files of columns.
use touchhouse.Prelude.{
  ℕ, zero, suc, false, Option, none, some, List, [], ◌∷◌, ◌≡◌, refl, compare, get_elem?,
}
use touchhouse.Outcome.{ok, traverse, ok_or, invalid_columns_specified}
use touchhouse.Value.{Value, partial_cmp}
use touchhouse.Storage.Table.{TableDef, TableSchema, table_of}
use touchhouse.Storage.Column.{
  OutputColumn, Projection, projection_of, eq_projection, eq_column_def, eq_type, eq_source,
  eq_constraints, eq_compression, eq_bool, get_optimal_compression,
}
use touchhouse.Storage.Part.{
  Mark, write_column_with_marks, write_granules, encode_granule, compress_bytes, Bytes,
}
use touchhouse.Storage.Part.Granules.{Marked, write_column_with_marks-granule_bytes}
use touchhouse.Engines.Sort.{EngineConfig, compare_by}
use touchhouse.Engines.Sort.Sorted.{Shuffle, IsSorted}
use touchhouse.Engines.Permute.{range_from}
use touchhouse.Engines.MergeTree.{cell_at, order_index, order_columns}
use touchhouse.Engines.MergeTree.Sorted.{AllCompare}
use touchhouse.Engines.MergeTree.Ordered.{AllMoved, order_columns-sorts}
use touchhouse.Sql.Ast.{ObjectNamePart}
use touchhouse.Sql.Query.{Query, SelectItem, Tables, GroupByExpr}
use touchhouse.Sql.Plan.{LogicalPlan, LogicalSource, PhysicalPlan, ScanSource, SelectFields}
use touchhouse.Sql.Select.{
  from_query, from_source, build_scan_source, source_of, extract_columns_from_plan, from_body,
}
use touchhouse.Sql.Select.Clauses.{
  parse_projections, parse_items, expand_wildcard, apply_filter, apply_projection, apply_group_by,
  apply_having, apply_order_by, apply_limit,
}
use touchhouse.Sql.Select.Physical.{from_query-physical_plan}
use touchhouse.Tests.Fixtures.{
  externs, codec, codec-RoundTrips, cells, column, col_a, table_t, schema,
}

abbrev by_a : EngineConfig
by_a = record { order_by = projection_of col_a ∷ []; primary_key = col_a ∷ [] }

abbrev tables : TableDef → Option TableSchema
tables t = some schema

abbrev from_t : Tables
from_t =
    Tables.cons
      (touchhouse.Sql.Query.table
        (ObjectNamePart.identifier "d" ∷ ObjectNamePart.identifier "t" ∷ []))
      false Tables.nil

abbrev plan_t : LogicalPlan
plan_t =
    LogicalPlan.projection (projection_of col_a ∷ [])
      (LogicalPlan.scan (LogicalSource.table table_t))

planned :
    from_query externs tables (
      touchhouse.Sql.Query.query
        (touchhouse.Sql.Query.select from_t
          (SelectItem.wildcard ∷ [])
          none
          (GroupByExpr.expressions [] false)
          none)
        none
        none)
    ≡ ok plan_t
unfolding from_query from_body from_source build_scan_source source_of extract_columns_from_plan
    parse_projections parse_items expand_wildcard apply_filter apply_projection apply_group_by
    apply_having apply_order_by apply_limit table_of
planned = refl

from_query-physical_plan_example :
    (source : LogicalSource) × (s : ScanSource) × (fields : SelectFields) × (available : List
      Projection)
    × (aggregates : List _) × (touchhouse.Sql.Plan.physical_plan plan_t
        ≡ ok (PhysicalPlan.select (touchhouse.Sql.Plan.select_node s fields)))
    × (build_scan_source externs tables from_t ≡ ok source)
    × (touchhouse.Sql.Plan.collect_source source ≡ ok s)
    × (extract_columns_from_plan externs tables (LogicalPlan.scan source) ≡ ok available)
    × (parse_projections externs (SelectItem.wildcard ∷ []) available
        ≡ ok (fields.columns, aggregates))
    × (fields.filter ≡ none)
from_query-physical_plan_example =
    from_query-physical_plan externs tables from_t (SelectItem.wildcard ∷ []) none
      (GroupByExpr.expressions [] false) none none none plan_t planned

abbrev marks : List Mark
marks =
    record { index_of = Value.uint64 3 ∷ []; info = [] }
    ∷ record { index_of = Value.uint64 2 ∷ []; info = [] }
    ∷ []

abbrev file : Bytes
file = 84 ∷ 72 ∷ 68 ∷ 65 ∷ 84 ∷ 65 ∷ 3 ∷ 1 ∷ 2 ∷ 7 ∷ 0 ∷ 0 ∷ 0 ∷ []

abbrev marks' : List Mark
marks' =
    record { index_of = Value.uint64 3 ∷ []; info = record { start = 6; stop = 8 } ∷ [] }
    ∷ record { index_of = Value.uint64 2 ∷ []; info = record { start = 8; stop = 9 } ∷ [] }
    ∷ []

wrote : write_column_with_marks codec cells 2 marks ≡ ok (file, marks')
unfolding write_column_with_marks write_granules encode_granule compress_bytes
    get_optimal_compression
wrote = refl

write_column_with_marks-granule_bytes_example :
    Marked codec codec-RoundTrips file
      (Value.uint64 2 ∷ [])
      (record { index_of = Value.uint64 2 ∷ []; info = [] })
      marks'
      1
write_column_with_marks-granule_bytes_example =
    write_column_with_marks-granule_bytes codec codec-RoundTrips cells 2 marks file marks' wrote 1
      (Value.uint64 2 ∷ []) (record { index_of = Value.uint64 2 ∷ []; info = [] }) refl refl

a_number : (i : ℕ) (v : Value) → get_elem? cells i ≡ some v → (n : ℕ) × (v ≡ Value.uint64 n)
a_number zero v h = (3, cc h)
a_number (suc zero) v h = (1, cc h)
a_number (suc (suc zero)) v h = (2, cc h)
a_number (suc (suc (suc i))) v h = cc h

cells_compare : AllCompare cells
unfolding partial_cmp
cells_compare i j a b p q =
    let (m, e) = a_number i a p in let (n, f) = a_number j b q in rw (e, f) (compare m n, refl)

has_key : order_index (column ∷ []) (projection_of col_a) ≡ some 0
unfolding eq_projection eq_source eq_column_def eq_type eq_constraints eq_compression eq_bool
has_key = refl

order_columns-sorts_example :
    (places : List ℕ) × (indices : List ℕ) × (out : List OutputColumn) × (order_columns by_a
        (column ∷ [])
      ≡ ok out)
    × Shuffle (range_from 0 3) indices
    × IsSorted (compare_by (cell_at (column ∷ [])) places) indices
    × (traverse
          (λ proj. ok_or (order_index (column ∷ []) proj) invalid_columns_specified)
          (projection_of col_a ∷ [])
        ≡ ok places)
    × AllMoved indices (column ∷ []) out
order_columns-sorts_example =
    order_columns-sorts by_a column [] refl (refl, tt)
      ((0, column, has_key, refl, cells_compare), tt)
