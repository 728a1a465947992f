-- ===== src/Execution/Scan.antt =====
-- sql/execution/select/mod.rs: `scan_from_storage` and `select`.
pub mod Rows
pub mod Unread
pub mod Whole
pub mod Granules
pub mod Kept
pub mod Stored
pub mod Where
use touchhouse.Prelude.{
  ℕ, zero, suc, ◌+◌, String, Bool, true, false, not, ◌||◌, Option, none, some, List, [], ◌∷◌, map,
  length, get_elem?, take, drop, is_empty, if◌then◌else◌,
}
use touchhouse.Outcome.{Result, ok, err, hangs, ◌>>=◌, traverse}
use touchhouse.Externs.{Externs, Codec}
use touchhouse.Value.{Value, ToValue, value_cell}
use touchhouse.Value.Archived.{ArchivedValue, archived_cell}
use touchhouse.Storage.Column.{OutputColumn, Projection, ColumnDef}
use touchhouse.Storage.Table.{TableDef, TableSchema, merge_tree}
use touchhouse.Storage.Read.{StorageRead}
use touchhouse.Storage.Part.{Bytes, TablePartInfo}
use touchhouse.Storage.Native.{native_storage, open_table}
use touchhouse.Storage.Virtual.{virtual_of, virtual_storage}
use touchhouse.Engines.{get_engine}
use touchhouse.Sql.Ast.{Expr}
use touchhouse.Sql.Filter.{CompiledFilter, compile, filter_granule}
use touchhouse.Sql.Plan.{SelectNode, SelectFields, ScanSource, select_node}
use touchhouse.Execution.Strategy.{
  Strategy, new_strategy, set_lines_read, should_read_next_chunk, min_of,
}
use touchhouse.Execution.Aggregator.{
  Aggregator, new_aggregator, get_projs_to_read, append_chunk, finalize,
}

-- `data.drain(0..final_offset)` and `data.truncate(final_length)` on every column, by the length of
-- the first.
abbrev pub first_rows : List OutputColumn → ℕ
first_rows [] = 0
first_rows (c ∷ cs) = length c.data_of

abbrev pub map_data : (List Value → List Value) → List OutputColumn → List OutputColumn
map_data f columns = map (λ (c : OutputColumn). record c { data_of = f c.data_of }) columns

unfoldable pub skip_rows : ℕ → List OutputColumn → List OutputColumn
skip_rows offset columns = map_data (drop (min_of (first_rows columns) offset)) columns

unfoldable pub limit_rows : Option ℕ → List OutputColumn → List OutputColumn
limit_rows none columns = columns
limit_rows (some limit) columns = map_data (take (min_of (first_rows columns) limit)) columns

-- Each ORDER BY in turn, by the default engine.
unfoldable pub order_rows :
    TableSchema → List (List Projection) → List OutputColumn → Result (List OutputColumn)
order_rows schema [] columns = ok columns
order_rows schema (keys ∷ more) columns =
    get_engine merge_tree record { order_by = keys; primary_key = schema.primary_key } columns
    >>= order_rows schema more

abbrev columns_of : TableSchema → List ColumnDef
columns_of s = s.columns

order_option :
    TableSchema → Option (List (List Projection)) → List OutputColumn → Result (List OutputColumn)
order_option schema none columns = ok columns
order_option schema (some keys) columns = order_rows schema keys columns

is_given : Option (List (List Projection)) → Bool
is_given none = false
is_given (some keys) = true

module _ (x : Externs) where
  unfoldable pub compile_option : List ColumnDef → Option Expr → Result (Option CompiledFilter)
  compile_option columns none = ok none
  compile_option columns (some e) = compile x columns e >>= λ f. ok (some f)

  module _ {S T : Type 0} (r : StorageRead S T) (t : ToValue T) where
    unfoldable pub filter_option : Option CompiledFilter → List (List T) → Result (List (List T))
    filter_option none granule = ok granule
    filter_option (some f) granule = filter_granule ⦃t = t⦄ f granule

    -- One chunk: read, filtered and collected.
    unfoldable pub read_chunk : Option CompiledFilter → Aggregator → S → Result (Aggregator × ℕ)
    unfolding filter_option
    read_chunk f a s = do
      granule ← traverse (r.access_chunk_column s) (get_projs_to_read a)
      kept ← filter_option f granule
      append_chunk x t a kept

    -- The `while` loop. It is `hangs` where `fuel` rounds are not enough.
    unfoldable pub read_chunks :
        ℕ → Option CompiledFilter → Strategy → Aggregator → S → Result Aggregator
    read_chunks zero f strategy a s = hangs
    read_chunks (suc fuel) f strategy a s = elim (should_read_next_chunk strategy) [
      | false ↦ ok a
      | true ↦ r.load_next_chunk s >>= λ next. elim next [
        | none ↦ ok a
        | some s' ↦ read_chunk f a s' >>= λ read.
            read_chunks fuel f (set_lines_read strategy read.1) read.0 s'
      ]
    ]

    unfoldable pub scan_from_storage : ℕ → S → SelectFields → Result (List OutputColumn)
    unfolding compile_option order_option is_given
    scan_from_storage fuel s params = do
      strategy ←
          new_strategy params.limit params.offset (r.get_total_rows s)
            (is_given params.order_by || not (is_empty params.group_by))
      f ← compile_option (columns_of (r.get_schema s)) params.filter
      a ←
          read_chunks fuel f strategy
            (new_aggregator params.columns params.aggregate_cols params.group_by) s
      columns ← finalize x a
      ordered ← order_option (r.get_schema s) params.order_by columns
      ok (limit_rows params.limit (skip_rows params.offset ordered))

  -- `CommandRunner::select`. `tables` is `TABLE_DATA`, and `disk` the columns' files of a table.
  module _ (k : Codec Value ArchivedValue)
      (tables : TableDef → Option (TableSchema × List TablePartInfo))
      (disk : TableDef → String → String → Option Bytes) (fuel : ℕ) where
    unfoldable mutual
      pub select : SelectNode → Result (List OutputColumn)
      select (select_node source params) = select_source source params

      pub select_source : ScanSource → SelectFields → Result (List OutputColumn)
      select_source (ScanSource.table d) params = open_table x k (disk d) (tables d) >>= λ s.
          scan_from_storage (native_storage x k (disk d)) archived_cell fuel s params
      select_source (ScanSource.subquery node) params = select node >>= λ columns.
          scan_from_storage virtual_storage value_cell fuel (virtual_of x columns) params
