-- ===== src/Storage/Files/Store.antt =====
-- storage/table_metadata.rs, storage/table_part.rs: what the files hold after a write.
use touchhouse.Prelude.{
  ◌≡◌, refl, ◌⊎◌, inl, inr, Bool, true, false, Option, none, some, [], ◌∷◌, eq_list, str_eq, eq_iff,
  Option-cases, ◌++◌,
}
use touchhouse.Outcome.{Result, ok, err, Error, could_not_insert_data}
use touchhouse.Externs.{FileCodec}
use touchhouse.Storage.Table.{TableDef, TableMetadata}
use touchhouse.Storage.Part.{Bytes, to_le_bytes}
use touchhouse.Storage.Files.{
  Files, FilePath, put, Write, done, failed, seal, magic_bytes_metadata, metadata_path, temp_path,
  write_temp, write_sealed, write_metadata, read_metadata,
}
use touchhouse.Storage.Files.Atomic.{IsLawful, unseal-seal}

eq_path_self : (p : FilePath) → eq_list str_eq p p ≡ true
eq_path_self [] = refl
eq_path_self (s ∷ p) = rw ((eq_iff s s).1 refl, eq_list) (eq_path_self p)

put_self : (p : FilePath) (content : Option Bytes) (files : Files) → put p content files p ≡ content
put_self p content files = rw (eq_path_self p) refl

-- The metadata and its temporary file are two files.
temp_apart : (t : TableDef) → eq_list str_eq (temp_path t) (metadata_path t) ≡ false
temp_apart t = rw ((eq_iff t.database t.database).1 refl, (eq_iff t.table t.table).1 refl) refl

-- The write succeeds and the value is read back, or it fails with an error and what is read is what
-- was read before.
abbrev pub IsAtomic :
    FileCodec TableMetadata → TableDef → TableMetadata → Files → Files × Result (Unit {0}) → Type 0
IsAtomic c t m files out =
    ((out.1 ≡ ok tt) × (read_metadata c t out.0 ≡ ok m))
    ⊎ ((e : Error) × (out.1 ≡ err e) × (read_metadata c t out.0 ≡ read_metadata c t files))

module _ (c : FileCodec TableMetadata) (law : IsLawful c) where
  temp_kept :
      (t : TableDef) (content : Option Bytes) (files : Files)
      → read_metadata c t (put (temp_path t) content files) ≡ read_metadata c t files
  unfolding read_metadata
  temp_kept t content files = rw (temp_apart t) refl

  written_read :
      (t : TableDef) (m : TableMetadata) (bytes : Bytes) (files : Files)
      → seal c magic_bytes_metadata m ≡ ok bytes
      → read_metadata c t (put (metadata_path t) (some bytes) files) ≡ ok m
  unfolding read_metadata
  written_read t m bytes files h =
      rw (put_self (metadata_path t) (some bytes) files)
        (unseal-seal c law magic_bytes_metadata bytes m h)

  temp_written :
      (write : Write) (renamed : Bool) (t : TableDef) (m : TableMetadata) (bytes : Bytes)
      (files : Files)
      → seal c magic_bytes_metadata m ≡ ok bytes
      → IsAtomic c t m files (write_temp write renamed t bytes files)
  unfolding write_temp
  temp_written (failed content) renamed t m bytes files h =
      inr (could_not_insert_data, refl, temp_kept t content files)
  temp_written done false t m bytes files h =
      inr (could_not_insert_data, refl, temp_kept t (some bytes) files)
  temp_written done true t m bytes files h =
      inl (refl, written_read t m bytes (put (temp_path t) none files) h)

  sealed_cases :
      (m : TableMetadata)
      → ((bytes : Bytes) × (seal c magic_bytes_metadata m ≡ ok bytes))
        ⊎ (seal c magic_bytes_metadata m ≡ err could_not_insert_data)
  unfolding seal
  sealed_cases m = elim (Option-cases (c.to_bytes m)) [
    | inl e ↦ inr (rw e refl)
    | inr (body, e) ↦ inl (magic_bytes_metadata ++ (body ++ to_le_bytes (c.crc32 body)), rw e refl)
  ]

  -- Whatever the file system does with its calls, `TableMetadata::write_to` either succeeds, and
  -- then `read_from` gives the metadata, or answers an error, and then `read_from` gives what it
  -- gave before. This is for crates that read what they wrote, never as no bytes, and a checksum
  -- of 32 bits.
  pub write_metadata-IsAtomic :
      (write : Write) (renamed : Bool) (t : TableDef) (m : TableMetadata) (files : Files)
      → IsAtomic c t m files (write_metadata c write renamed t m files)
  unfolding write_metadata
  write_metadata-IsAtomic write renamed t m files = elim (sealed_cases m) [
    | inl (bytes, e) ↦ rw (e, write_sealed) (temp_written write renamed t m bytes files e)
    | inr e ↦ inr (could_not_insert_data, rw (e, write_sealed) refl, rw (e, write_sealed) refl)
  ]
