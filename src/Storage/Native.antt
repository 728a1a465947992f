-- ===== src/Storage/Native.antt =====
-- storage/tables/native.rs: `NativeStorage`, which scans the parts of a table granule by granule.
-- The lock on the table is left out: the parts and the files stay as they are during a scan.
pub mod Walk
pub mod Scan
pub mod Saved
use touchhouse.Prelude.{
  ℕ, zero, suc, ◌+◌, String, Option, none, some, List, [], ◌∷◌, ◌++◌, length, get_elem?, position,
  replicate, drop, ◌==◌, str_eq, if◌then◌else◌,
}
use touchhouse.Outcome.{
  Result, ok, err, hangs, ◌>>=◌, ok_or, index, traverse, table_not_found, could_not_read_data,
  internal,
}
use touchhouse.Externs.{Externs, Codec}
use touchhouse.Value.{Value}
use touchhouse.Value.Archived.{ArchivedValue}
use touchhouse.Value.Display.{show_source}
use touchhouse.Storage.Column.{ColumnDef, Projection}
use touchhouse.Storage.Table.{TableSchema, standard_granularity}
use touchhouse.Storage.Part.{Bytes, TablePartInfo, MarkInfo, eq_part, granule_bytes, validate_mmap}
use touchhouse.Storage.Read.{StorageRead}

pub record LoadedChunk : Type 0 where
  pub part_info : TablePartInfo
  pub granule_idx : ℕ
  pub mmaps : List Bytes
  pub chunk_bytes : List Bytes

-- A table that is open for reading: its schema and parts (`TableConfig`), and the chunk it is at.
pub record NativeStorage : Type 0 where
  pub schema : TableSchema
  pub infos : List TablePartInfo
  pub loaded_chunk : Option LoadedChunk

abbrev pub sum_rows : List TablePartInfo → ℕ
sum_rows [] = 0
sum_rows (p ∷ ps) = p.row_count + sum_rows ps

-- `disk` is the file of a part's column, by the names of both.
module _ (x : Externs) (k : Codec Value ArchivedValue) (disk : String → String → Option Bytes) where
  -- `open_as_mmap` and `validate_mmap`
  unfoldable pub open_column : TablePartInfo → ColumnDef → Result Bytes
  open_column part c = do
    bytes ← ok_or (disk part.name c.name) could_not_read_data
    _ ← validate_mmap k bytes
    ok bytes

  unfoldable pub gen_next_chunk : TablePartInfo → Result LoadedChunk
  unfolding open_column
  gen_next_chunk part = do
    mmaps ← traverse (open_column part) part.column_defs
    ok record { part_info = part; granule_idx = 0; mmaps = mmaps; chunk_bytes = [] }

  -- The part after the one that is read.
  unfoldable pub next_part : List TablePartInfo → TablePartInfo → Option TablePartInfo
  next_part infos part = elim (position (λ i. eq_part i part) infos) [
    | none ↦ none
    | some i ↦ get_elem? infos (i + 1)
  ]

  unfoldable pub load_part : Option TablePartInfo → Result (Option LoadedChunk)
  load_part none = ok none
  load_part (some part) = gen_next_chunk part >>= λ c. ok (some c)

  -- `advance_chunk_metadata`: to the next granule, the next part, or, with no chunk, the first part.
  unfoldable pub advance_chunk_metadata :
      List TablePartInfo → Option LoadedChunk → Result (Option LoadedChunk)
  unfolding load_part
  advance_chunk_metadata infos none = load_part (get_elem? infos 0)
  advance_chunk_metadata infos (some c) =
      if c.granule_idx + 1 == length c.part_info.marks
      then load_part (next_part infos c.part_info)
      else ok (some record c { granule_idx = c.granule_idx + 1 })

  -- The bytes of one granule, for each column.
  unfoldable pub chunk_bytes_of : List ColumnDef → List Bytes → List MarkInfo → Result (List Bytes)
  chunk_bytes_of [] mmaps marks = ok []
  chunk_bytes_of (c ∷ cs) mmaps marks = do
    mmap ← index (get_elem? mmaps 0)
    mark ← index (get_elem? marks 0)
    bytes ← granule_bytes k mmap mark c.constraints.compression_type
    rest ← chunk_bytes_of cs (drop 1 mmaps) (drop 1 marks)
    ok (bytes ∷ rest)

  unfoldable pub fill_chunk : NativeStorage → Option LoadedChunk → Result (Option NativeStorage)
  fill_chunk s none = ok none
  fill_chunk s (some c) = do
    mark ← index (get_elem? c.part_info.marks c.granule_idx)
    bytes ← chunk_bytes_of c.part_info.column_defs c.mmaps mark.info
    ok (some record s { loaded_chunk = some record c { chunk_bytes = bytes } })

  unfoldable pub load_next_chunk : NativeStorage → Result (Option NativeStorage)
  unfolding fill_chunk
  load_next_chunk s = advance_chunk_metadata s.infos s.loaded_chunk >>= fill_chunk s

  -- A column that the part does not have is read as NULL.
  unfoldable pub read_column : Option ℕ → LoadedChunk → Result (List ArchivedValue)
  read_column none c = ok (replicate standard_granularity ArchivedValue.null)
  read_column (some i) c = index (get_elem? c.chunk_bytes i) >>= λ bytes. ok (k.access bytes)

  unfoldable pub access_loaded : Option LoadedChunk → Projection → Result (List ArchivedValue)
  unfolding read_column
  access_loaded none proj = err internal
  access_loaded (some c) proj =
      read_column
        (position (λ (d : ColumnDef). str_eq d.name (show_source x proj.source))
          c.part_info.column_defs)
        c

  unfoldable pub access_chunk_column : NativeStorage → Projection → Result (List ArchivedValue)
  unfolding access_loaded
  access_chunk_column s proj = access_loaded s.loaded_chunk proj

  abbrev pub native_storage : StorageRead NativeStorage ArchivedValue
  native_storage = record {
    get_total_rows = λ s. sum_rows s.infos;
    get_schema = λ s. s.schema;
    load_next_chunk = load_next_chunk;
    access_chunk_column = access_chunk_column;
  }

  -- `NativeStorage::try_from`
  unfoldable pub open_table : Option (TableSchema × List TablePartInfo) → Result NativeStorage
  open_table none = err table_not_found
  open_table (some config) = ok record { schema = config.0; infos = config.1; loaded_chunk = none }

  -- `try_from_table_def_and_part`
  unfoldable pub open_part :
      Option (TableSchema × List TablePartInfo) → TablePartInfo → Result NativeStorage
  open_part none part = err table_not_found
  open_part (some config) part = do
    chunk ← gen_next_chunk part
    ok record { schema = config.0; infos = config.1; loaded_chunk = some chunk }

  -- The chunk that a storage is at: its part, and the number of its granule.
  abbrev pub place_of : NativeStorage → List (TablePartInfo × ℕ)
  place_of s = elim s.loaded_chunk [ none ↦ [] | some c ↦ (c.part_info, c.granule_idx) ∷ [] ]

  -- `load_next_chunk` until there is none: the chunks, in the order in which they are loaded.
  unfoldable pub visits : ℕ → NativeStorage → Result (List (TablePartInfo × ℕ))
  visits zero s = hangs
  visits (suc fuel) s = load_next_chunk s >>= λ next. elim next [
    | none ↦ ok []
    | some s' ↦ visits fuel s' >>= λ rest. ok (place_of s' ++ rest)
  ]
