-- ===== src/Tests/Rounds.antt =====
-- A round of the background merge over a table of two parts.
use mathlib.Core.Path.{subst}
use touchhouse.Execution.Merge.Combined.{combine_cols-joined}
use touchhouse.Prelude.{
  ℕ, zero, suc, position, get_elem?, ◌<◌, ◌≡◌, ◌⊎◌, refl, true, some, Option, List, [], ◌∷◌, ◌++◌,
  String,
}
use touchhouse.Outcome.{Result, ok}
use touchhouse.Value.{Value, partial_cmp, eq}
use touchhouse.Storage.Table.{TableDef, TableMetadata}
use touchhouse.Storage.Part.{
  Bytes, Mark, TablePartInfo, magic_bytes_column, try_new, save_raw, save_columns, generate_indexes,
  write_column_with_marks, write_granules, encode_granule, compress_bytes, eq_part, granule_bytes,
  decompress_bytes, validate_mmap,
}
use touchhouse.Execution.Merge.{
  find_parts_to_merge, first_two, part_named, cmp_uuid_strs_asc, load_part_cols, combine_cols,
  combine_from, combine_col, atomic_part_move, retain_infos, move_to_normal,
}
use touchhouse.Storage.Native.{
  open_part, gen_next_chunk, open_column, load_next_chunk, advance_chunk_metadata, load_part,
  next_part, fill_chunk, chunk_bytes_of, read_column, access_loaded, access_chunk_column,
}
use touchhouse.Value.Display.{show_source}
use touchhouse.Value.Archived.{archive, to_value}
use touchhouse.Engines.{get_engine}
use touchhouse.Engines.Sort.{compare_by, sort_by, insert}
use touchhouse.Engines.Permute.{apply_permutation_in_place}
use touchhouse.Engines.MergeTree.{order_columns, permute_column}
use touchhouse.Storage.Column.{
  PhysicalColumn, physical_of, output_of, eq_projection, eq_source, eq_column_def, eq_type,
  eq_constraints, eq_compression, eq_bool, get_optimal_compression,
}
use touchhouse.Execution.Merge.Round.{
  ServerState, PartsToMerge, Round, round, merge_parts, save_and_move, move_parts, find_in_tables,
}
use touchhouse.Execution.Merge.Round.Found.{AreParts}
use touchhouse.Execution.Merge.Round.Tables.{Swapped, round-IsMerged}
use touchhouse.Tests.Sorts.{externs-SortsNames}
use touchhouse.Tests.Fixtures.{externs, codec, col_a, metadata, table_t}

abbrev twos : TableMetadata
twos = record metadata { settings = record metadata.settings { index_granularity = 2 } }

abbrev marks : List Mark
marks =
    record { index_of = Value.uint64 1 ∷ []; info = record { start = 6; stop = 8 } ∷ [] }
    ∷ record { index_of = Value.uint64 3 ∷ []; info = record { start = 8; stop = 9 } ∷ [] }
    ∷ []

abbrev named : String → TablePartInfo
named n = record { name = n; row_count = 3; marks = marks; column_defs = col_a ∷ [] }

abbrev disk : TableDef → String → String → Option Bytes
disk t p c = some (magic_bytes_column ++ (1 ∷ 2 ∷ 3 ∷ 7 ∷ 0 ∷ 0 ∷ 0 ∷ []))

abbrev idle : ServerState
idle = record {
  table_data = (table_t, record { metadata = twos; infos = named "p" ∷ named "q" ∷ [] }) ∷ [];
  folders = λ t. record { normal = "p" ∷ "q" ∷ []; raw = [] };
  database_load = 0;
}

abbrev merged : Result Round
merged = round externs codec disk (λ t a b. true) (λ t n. true) (λ t n. true) 5 idle

abbrev result_of : Result Round → Round
result_of (ok r) = r
result_of _ = (idle, 0)

abbrev after : Round
after = result_of merged

ran : round externs codec disk (λ t a b. true) (λ t n. true) (λ t n. true) 5 idle ≡ ok after
unfolding round merge_parts save_and_move move_parts find_in_tables find_parts_to_merge first_two
    part_named cmp_uuid_strs_asc load_part_cols combine_cols combine_from combine_col
    atomic_part_move retain_infos move_to_normal open_part gen_next_chunk open_column validate_mmap
    load_next_chunk advance_chunk_metadata load_part next_part fill_chunk chunk_bytes_of
    granule_bytes decompress_bytes read_column access_loaded access_chunk_column show_source archive
    to_value eq_part eq try_new get_engine order_columns permute_column apply_permutation_in_place
    compare_by sort_by insert partial_cmp generate_indexes physical_of output_of eq_projection
    eq_source eq_column_def eq_type eq_constraints eq_compression eq_bool save_raw save_columns
    write_column_with_marks write_granules encode_granule compress_bytes get_optimal_compression
ran = refl

round-IsMerged_example :
    (after.0.table_data ≡ idle.table_data)
    ⊎ ((idle.database_load < 5)
        × ((p : PartsToMerge) × AreParts idle.table_data p × Swapped idle p after.0))
round-IsMerged_example =
    round-IsMerged externs externs-SortsNames codec disk (λ t a b. true) (λ t n. true) (λ t n. true)
      5 idle after ran

abbrev column_of : List Value → PhysicalColumn
column_of vs = record { column_def = col_a; data_of = vs }

same_place :
    (i : ℕ) (b : PhysicalColumn)
    → get_elem? (column_of (Value.uint64 2 ∷ []) ∷ []) i ≡ some b
    → position
        (λ (c : PhysicalColumn). eq_column_def c.column_def b.column_def)
        (column_of (Value.uint64 1 ∷ []) ∷ [])
      ≡ some i
unfolding eq_column_def eq_type eq_constraints eq_compression eq_bool
same_place zero b h =
    let e : column_of (Value.uint64 2 ∷ []) ≡ b = cc h in
    subst
      (λ (d : PhysicalColumn).
        position (λ (c : PhysicalColumn). eq_column_def c.column_def d.column_def)
          (column_of (Value.uint64 1 ∷ []) ∷ [])
        ≡ some 0)
      e refl
same_place (suc i) b h = cc h

combine_cols-joined_example :
    combine_cols (column_of (Value.uint64 1 ∷ []) ∷ []) (column_of (Value.uint64 2 ∷ []) ∷ [])
    ≡ column_of (Value.uint64 1 ∷ Value.uint64 2 ∷ []) ∷ []
combine_cols-joined_example =
    combine_cols-joined (column_of (Value.uint64 1 ∷ []) ∷ [])
      (column_of (Value.uint64 2 ∷ []) ∷ []) refl same_place
