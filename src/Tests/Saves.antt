-- ===== src/Tests/Saves.antt =====
-- A part that is made, saved and read.
use touchhouse.Prelude.{◌≡◌, refl, some, Option, List, [], ◌∷◌, ◌++◌, String, arith}
use touchhouse.Outcome.{ok}
use touchhouse.Value.{Value, partial_cmp}
use touchhouse.Engines.{get_engine}
use touchhouse.Engines.Sort.{compare_by, sort_by, insert}
use touchhouse.Engines.Permute.{apply_permutation_in_place}
use touchhouse.Engines.MergeTree.{order_columns, permute_column}
use touchhouse.Storage.Part.Marks.{IsRegular}
use touchhouse.Storage.Column.{
  physical_of, output_of, eq_projection, eq_source, eq_column_def, eq_type, eq_constraints,
  eq_compression, eq_bool, get_optimal_compression,
}
use touchhouse.Storage.Table.{TableMetadata}
use touchhouse.Storage.Part.{
  Bytes, Mark, TablePart, magic_bytes_column, try_new, save_raw, save_columns, generate_indexes,
  write_column_with_marks, write_granules, encode_granule, compress_bytes,
}
use touchhouse.Storage.Native.Saved.{Served, try_new-save_raw-Served}
use touchhouse.Tests.Fixtures.{externs, codec, codec-RoundTrips, col_a, metadata}

abbrev pub twos : TableMetadata
twos = record metadata { settings = record metadata.settings { index_granularity = 2 } }

abbrev pub rows : List Value
rows = Value.uint64 3 ∷ Value.uint64 1 ∷ Value.uint64 2 ∷ []

abbrev marks : List Mark
marks =
    record { index_of = Value.uint64 1 ∷ []; info = [] }
    ∷ record { index_of = Value.uint64 3 ∷ []; info = [] }
    ∷ []

abbrev pub part : TablePart
part = record {
  info = record { name = "p"; row_count = 3; marks = marks; column_defs = col_a ∷ [] };
  data_of =
      record { column_def = col_a; data_of = Value.uint64 1 ∷ Value.uint64 2 ∷ Value.uint64 3 ∷ [] }
      ∷ [];
}

pub made : try_new twos (record { column_def = col_a; data_of = rows } ∷ []) "p" ≡ ok part
unfolding try_new get_engine order_columns permute_column apply_permutation_in_place compare_by
    sort_by insert partial_cmp generate_indexes physical_of output_of eq_projection eq_source
    eq_column_def eq_type eq_constraints eq_compression eq_bool
made = refl

abbrev saved_marks : List Mark
saved_marks =
    record { index_of = Value.uint64 1 ∷ []; info = record { start = 6; stop = 8 } ∷ [] }
    ∷ record { index_of = Value.uint64 3 ∷ []; info = record { start = 8; stop = 9 } ∷ [] }
    ∷ []

abbrev pub saved : TablePart
saved = record { info = record part.info { marks = saved_marks }; data_of = part.data_of }

abbrev pub file : Bytes
file = magic_bytes_column ++ (1 ∷ 2 ∷ 3 ∷ 7 ∷ 0 ∷ 0 ∷ 0 ∷ [])

abbrev pub disk : String → String → Option Bytes
disk p c = some file

pub written : save_raw codec part 2 ≡ ok (file ∷ [], saved)
unfolding save_raw save_columns write_column_with_marks write_granules encode_granule compress_bytes
    get_optimal_compression
written = refl

pub part-IsRegular : IsRegular twos part
unfolding eq_column_def eq_type eq_constraints eq_compression eq_bool
part-IsRegular = ((refl, tt), omega arith, refl)

try_new-save_raw-Served_example : Served externs codec disk 2 part.data_of saved.info
try_new-save_raw-Served_example =
    try_new-save_raw-Served externs codec disk codec-RoundTrips twos
      (record { column_def = col_a; data_of = rows } ∷ []) "p" part saved (file ∷ [])
      (λ b. omega arith) made part-IsRegular (refl, tt) written ((refl, omega arith), tt)
