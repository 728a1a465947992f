-- ===== src/Storage/Part.antt =====
-- storage/table_part.rs, storage/compression.rs and `validate_mmap` of storage/column.rs: a part of
-- a table, its columns' files, granule by granule, and the marks that say where each granule lies.
-- The files' names and the failures of the file system are left out.
pub mod Granules
pub mod Columns
pub mod Marks
use touchhouse.Prelude.{
  ℕ, zero, suc, ◌+◌, ◌-◌, ◌*◌, ◌/◌, ◌%◌, String, Bool, true, false, ◌&&◌, Option, none, some, List,
  [], ◌∷◌, ◌++◌, map, any, filter, length, get_elem?, take, drop, is_empty, eq_list, ltb, leb, ◌==◌,
  str_eq, div_ceil, if◌then◌else◌,
}
use touchhouse.Outcome.{
  Result, ok, err, panics, ◌>>=◌, ok_or, index, guard, traverse, could_not_insert_data,
  could_not_read_data, invalid_source,
}
use touchhouse.Externs.{Codec}
use touchhouse.Value.{Value, get_type, eq}
use touchhouse.Value.Archived.{ArchivedValue}
use touchhouse.Storage.Column.{
  ColumnDef, CompressionType, PhysicalColumn, OutputColumn, lz4, uncompressed,
  get_optimal_compression, eq_column_def, projection_of, output_of, physical_of,
}
use touchhouse.Storage.Table.{TableMetadata}
use touchhouse.Engines.{get_engine}
use touchhouse.Engines.Permute.{range_from}

abbrev pub Bytes : Type 0
Bytes = List ℕ

pub record MarkInfo : Type 0 where
  pub start : ℕ
  pub stop : ℕ

pub record Mark : Type 0 where
  pub index_of : List Value
  pub info : List MarkInfo

pub record TablePartInfo : Type 0 where
  pub name : String
  pub row_count : ℕ
  pub marks : List Mark
  pub column_defs : List ColumnDef

pub record TablePart : Type 0 where
  pub info : TablePartInfo
  pub data_of : List PhysicalColumn

-- The derived `PartialEq`s.
abbrev pub eq_mark_info : MarkInfo → MarkInfo → Bool
eq_mark_info a b = (a.start == b.start) && (a.stop == b.stop)

abbrev pub eq_mark : Mark → Mark → Bool
eq_mark a b = eq_list eq a.index_of b.index_of && eq_list eq_mark_info a.info b.info

unfoldable pub eq_part : TablePartInfo → TablePartInfo → Bool
eq_part a b =
    str_eq a.name b.name
    && ((a.row_count == b.row_count)
        && (eq_list eq_mark a.marks b.marks && eq_list eq_column_def a.column_defs b.column_defs))

-- `MAGIC_BYTES_COLUMN`, "THDATA"
abbrev pub magic_bytes_column : Bytes
magic_bytes_column = 84 ∷ 72 ∷ 68 ∷ 65 ∷ 84 ∷ 65 ∷ []

-- `to_le_bytes` and `from_le_bytes` of a `u32`
abbrev pub to_le_bytes : ℕ → Bytes
to_le_bytes n = n % 256 ∷ (n / 256) % 256 ∷ (n / 65536) % 256 ∷ (n / 16777216) % 256 ∷ []

abbrev pub from_le_bytes : Bytes → Result ℕ
from_le_bytes (a ∷ b ∷ c ∷ d ∷ []) = ok (a + (256 * b + (65536 * c + 16777216 * d)))
from_le_bytes _ = panics

-- The rows of a column, `size` to a granule: `(0..total).step_by(size)`. Each round takes a row, so
-- as many rounds as there are rows are enough.
abbrev pub granules_from {ℓ} : {A : Type ℓ} → ℕ → ℕ → List A → List (List A)
granules_from zero size rows = []
granules_from (suc fuel) size [] = []
granules_from (suc fuel) size (r ∷ rows) =
    take size (r ∷ rows) ∷ granules_from fuel size (drop size (r ∷ rows))

abbrev pub granules {ℓ} : {A : Type ℓ} → ℕ → List A → List (List A)
granules size rows = granules_from (length rows) size rows

-- The step of `step_by` and the divisor of `div_ceil`: 0 panics.
abbrev pub not_zero : ℕ → Result (Unit {0})
not_zero zero = panics
not_zero (suc n) = ok tt

-- One mark for each granule: its first row, on the primary key.
unfoldable pub generate_indexes : List PhysicalColumn → List ColumnDef → ℕ → Result (List Mark)
generate_indexes columns keys granularity = do
  let indexed : List PhysicalColumn =
      filter (λ (c : PhysicalColumn). any (λ k. eq_column_def k c.column_def) keys) columns
  let total_rows : ℕ = elim (get_elem? indexed 0) [ none ↦ 0 | some c ↦ length c.data_of ]
  _ ← not_zero granularity
  traverse
      (λ k.
        traverse (λ (c : PhysicalColumn). index (get_elem? c.data_of (k * granularity))) indexed
        >>= λ row. ok record { index_of = row; info = [] })
      (range_from 0 (div_ceil total_rows granularity))

-- `name` is the given one or the fresh UUID.
unfoldable pub try_new : TableMetadata → List PhysicalColumn → String → Result TablePart
try_new metadata [] name = err invalid_source
try_new metadata (c ∷ cs) name = if is_empty c.data_of then err invalid_source else do
  ordered_out ←
      get_engine metadata.settings.engine
        record {
          order_by = map projection_of metadata.schema.order_by;
          primary_key = metadata.schema.primary_key;
        }
        (map output_of (c ∷ cs))
  ordered ← traverse physical_of ordered_out
  marks ← generate_indexes ordered metadata.schema.primary_key metadata.settings.index_granularity
  first ← index (get_elem? ordered 0)
  ok record {
    info = record {
      name = name;
      row_count = length first.data_of;
      marks = marks;
      column_defs = map (λ (p : PhysicalColumn). p.column_def) ordered;
    };
    data_of = ordered;
  }

module _ (k : Codec Value ArchivedValue) where
  unfoldable pub compress_bytes : Bytes → CompressionType → Result Bytes
  compress_bytes bytes (lz4 level) = ok_or (k.lz4_compress level bytes) could_not_insert_data
  compress_bytes bytes uncompressed = ok bytes

  unfoldable pub decompress_bytes : Bytes → CompressionType → Result Bytes
  decompress_bytes bytes (lz4 level) = ok_or (k.lz4_decompress bytes) could_not_read_data
  decompress_bytes bytes uncompressed = ok bytes

  -- `get_granule_bytes_decompressed`
  unfoldable pub granule_bytes : Bytes → MarkInfo → CompressionType → Result Bytes
  granule_bytes bytes mark compression =
      if ltb mark.stop mark.start
      then err could_not_read_data
      else if ltb (length bytes) mark.stop
      then err could_not_read_data
      else decompress_bytes (take (mark.stop - mark.start) (drop mark.start bytes)) compression

  -- One granule as it is written.
  unfoldable pub encode_granule : List Value → Result Bytes
  encode_granule rows = do
    bytes ← ok_or (k.to_bytes rows) could_not_insert_data
    first ← index (get_elem? rows 0)
    compress_bytes bytes (get_optimal_compression (get_type first))

  -- The loop of `write_column_with_marks`, on the granules that are left and the marks that are
  -- theirs. More granules than marks is an error.
  unfoldable pub write_granules : List (List Value) → Bytes → List Mark → Result (Bytes × List Mark)
  write_granules [] file marks = ok (file, marks)
  write_granules (rows ∷ more) file [] = encode_granule rows >>= λ bytes. err could_not_insert_data
  write_granules (rows ∷ more) file (mark ∷ marks) = do
    bytes ← encode_granule rows
    rest ← write_granules more (file ++ bytes) marks
    ok (
      rest.0,
      record {
        index_of = mark.index_of;
        info = mark.info ++ (record { start = length file; stop = length (file ++ bytes) } ∷ []);
      }
          ∷ rest.1,
    )

  unfoldable pub write_column_with_marks : List Value → ℕ → List Mark → Result (Bytes × List Mark)
  write_column_with_marks rows granularity marks = do
    _ ← not_zero granularity
    written ← write_granules (granules granularity rows) magic_bytes_column marks
    ok (written.0 ++ to_le_bytes (k.crc32 (drop 6 written.0)), written.1)

  unfoldable pub save_columns :
      List PhysicalColumn → ℕ → List Mark → Result (List Bytes × List Mark)
  save_columns [] granularity marks = ok ([], marks)
  save_columns (c ∷ cs) granularity marks = do
    written ← write_column_with_marks c.data_of granularity marks
    rest ← save_columns cs granularity written.1
    ok (written.0 ∷ rest.0, rest.1)

  -- The files of the columns, in order, and the part with its marks filled.
  unfoldable pub save_raw : TablePart → ℕ → Result (List Bytes × TablePart)
  unfolding save_columns
  save_raw part granularity = do
    saved ← save_columns part.data_of granularity part.info.marks
    ok (saved.0, record { info = record part.info { marks = saved.1 }; data_of = part.data_of })

  unfoldable pub validate_mmap : Bytes → Result (Unit {0})
  validate_mmap bytes =
      if leb (length bytes) 10
      then err could_not_read_data
      else if eq_list ◌==◌ (take 6 bytes) magic_bytes_column
      then (do
        expected ← from_le_bytes (drop (length bytes - 4) bytes)
        guard (expected == k.crc32 (take (length bytes - 10) (drop 6 bytes))) could_not_read_data)
      else err could_not_read_data
