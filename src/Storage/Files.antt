-- ===== src/Storage/Files.antt =====
-- storage/table_metadata.rs and `TablePartInfo::write_to` and `read_from` of
-- storage/table_part.rs: the file `.metadata` of a table and the file `part.inf` of a part. Both
-- hold magic bytes, the bytes of the value, and their checksum. A store of files is a function from
-- paths below the database's folder; what the file system does with a call is an argument.
pub mod Atomic
pub mod Store
use touchhouse.Prelude.{
  ℕ, ◌+◌, ◌-◌, String, Bool, true, false, Option, none, some, List, [], ◌∷◌, ◌++◌, length, take,
  drop, eq_list, str_eq, leb, ◌==◌, if◌then◌else◌,
}
use touchhouse.Outcome.{
  Result, ok, err, panics, hangs, ◌>>=◌, ok_or, guard, could_not_insert_data, could_not_read_data,
}
use touchhouse.Externs.{FileCodec}
use touchhouse.Storage.Table.{TableDef, TableMetadata}
use touchhouse.Storage.Part.{Bytes, TablePartInfo, to_le_bytes, from_le_bytes}

abbrev pub FilePath : Type 0
FilePath = List String

abbrev pub Files : Type 0
Files = FilePath → Option Bytes

abbrev pub put : FilePath → Option Bytes → Files → Files
put p content files q = if eq_list str_eq p q then content else files q

-- What `std::fs::write` comes to: all is written, or it fails and leaves something in the file.
pub data Write : Type 0 where
  done : Write
  failed : Option Bytes → Write

module _ {T : Type 0} (c : FileCodec T) where
  -- The file's bytes: magic bytes, the serialized value, the checksum.
  unfoldable pub seal : Bytes → T → Result Bytes
  seal magic t = do
    body ← ok_or (c.to_bytes t) could_not_insert_data
    ok (magic ++ (body ++ to_le_bytes (c.crc32 body)))

  unfoldable pub unseal : Bytes → Bytes → Result T
  unseal magic file =
      let body : Bytes = take (length file - 4 - length magic) (drop (length magic) file) in
      if leb (length file) (length magic + 4)
      then err could_not_read_data
      else if eq_list ◌==◌ (take (length magic) file) magic
      then (do
        expected ← from_le_bytes (drop (length file - 4) file)
        _ ← guard (expected == c.crc32 body) could_not_read_data
        ok_or (c.from_bytes body) could_not_read_data)
      else err could_not_read_data

-- `TABLE_METADATA_MAGIC_BYTES`, "THMETA", and `MAGIC_BYTES_INFO`, "THINDX"
abbrev pub magic_bytes_metadata : Bytes
magic_bytes_metadata = 84 ∷ 72 ∷ 77 ∷ 69 ∷ 84 ∷ 65 ∷ []

abbrev pub magic_bytes_info : Bytes
magic_bytes_info = 84 ∷ 72 ∷ 73 ∷ 78 ∷ 68 ∷ 88 ∷ []

abbrev pub metadata_path : TableDef → FilePath
metadata_path t = t.database ∷ t.table ∷ ".metadata" ∷ []

-- `metadata_path.with_extension("tmp")`: the name `.metadata` has no extension to replace.
abbrev pub temp_path : TableDef → FilePath
temp_path t = t.database ∷ t.table ∷ ".metadata.tmp" ∷ []

-- Under the temporary name, then renamed over the file.
unfoldable pub write_temp : Write → Bool → TableDef → Bytes → Files → Files × Result (Unit {0})
write_temp (failed content) renamed t bytes files =
    (put (temp_path t) content files, err could_not_insert_data)
write_temp done false t bytes files =
    (put (temp_path t) (some bytes) files, err could_not_insert_data)
write_temp done true t bytes files =
    (put (metadata_path t) (some bytes) (put (temp_path t) none files), ok tt)

unfoldable pub write_sealed :
    Write → Bool → TableDef → Result Bytes → Files → Files × Result (Unit {0})
unfolding write_temp
write_sealed write renamed t (ok bytes) files = write_temp write renamed t bytes files
write_sealed write renamed t (err e) files = (files, err e)
write_sealed write renamed t panics files = (files, panics)
write_sealed write renamed t hangs files = (files, hangs)

-- `TableMetadata::write_to` and `TableMetadata::read_from`
unfoldable pub write_metadata :
    FileCodec TableMetadata
    → Write
    → Bool
    → TableDef
    → TableMetadata
    → Files
    → Files × Result (Unit {0})
unfolding write_sealed
write_metadata c write renamed t m files =
    write_sealed write renamed t (seal c magic_bytes_metadata m) files

unfoldable pub read_metadata : FileCodec TableMetadata → TableDef → Files → Result TableMetadata
read_metadata c t files = do
  bytes ← ok_or (files (metadata_path t)) could_not_read_data
  unseal c magic_bytes_metadata bytes

-- `raw` is the folder that a part stands in until it is moved.
abbrev pub info_path : TableDef → Bool → String → FilePath
info_path t raw name =
    if raw
    then t.database ∷ t.table ∷ "raw" ∷ name ∷ "part.inf" ∷ []
    else t.database ∷ t.table ∷ name ∷ "part.inf" ∷ []

unfoldable pub write_at : Write → FilePath → Result Bytes → Files → Files × Result (Unit {0})
write_at done p (ok bytes) files = (put p (some bytes) files, ok tt)
write_at (failed content) p (ok bytes) files = (put p content files, err could_not_insert_data)
write_at write p (err e) files = (files, err e)
write_at write p panics files = (files, panics)
write_at write p hangs files = (files, hangs)

-- `TablePartInfo::write_to` and `TablePartInfo::read_from`. `created` says whether the folder can
-- be made.
unfoldable pub write_info :
    FileCodec TablePartInfo
    → Bool
    → Write
    → TableDef
    → Bool
    → TablePartInfo
    → Files
    → Files × Result (Unit {0})
unfolding write_at
write_info c created write t raw info files =
    write_at write (info_path t raw info.name)
      (seal c magic_bytes_info info >>= λ bytes.
        guard created could_not_insert_data >>= λ _. ok bytes)
      files

unfoldable pub read_info :
    FileCodec TablePartInfo → TableDef → String → Files → Result TablePartInfo
read_info c t name files = do
  bytes ← ok_or (files (info_path t false name)) could_not_read_data
  unseal c magic_bytes_info bytes
