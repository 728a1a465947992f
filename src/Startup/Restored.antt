-- ===== src/Startup/Restored.antt =====
-- lib.rs: the tables and parts that a start finds in the files that were written.
use touchhouse.Prelude.{
  ◌≡◌, refl, sym, ap, ◌∙◌, String, true, false, Option, none, some, List, [], ◌∷◌, ◌++◌, filter,
  append_assoc, append_nil, eq_iff, Bool-cases, inl, inr,
}
use mathlib.Core.Path.{subst}
use touchhouse.Outcome.{ok, >>=-ok}
use touchhouse.Externs.{FileCodec}
use touchhouse.Storage.Table.{TableDef, TableMetadata, eq_table}
use touchhouse.Storage.Part.{Bytes, TablePartInfo}
use touchhouse.Storage.Files.{
  Files, seal, magic_bytes_metadata, magic_bytes_info, metadata_path, info_path, read_metadata,
  read_info,
}
use touchhouse.Storage.Files.Atomic.{IsLawful, unseal-seal}
use touchhouse.Execution.Commands.{TableConfig, lookup, remove, replace}
use touchhouse.Startup.{
  PartEntry, TableEntry, DatabaseEntry, Loading, is_passed_over, should_remove_raw_directory,
  push_part, process_part_entry, process_part_entries, process_table_entry, process_table_entries,
  process_database_entry, process_database_entries, load_existing_parts,
}

abbrev pub Tables : Type 0
Tables = List (TableDef × TableConfig)

module _ (cm : FileCodec TableMetadata) (ci : FileCodec TablePartInfo) (files : Files) where
  -- The folder of a table holds the given parts, in this order, each with the file that
  -- `TablePartInfo::write_to` makes; what else is in it is passed over.
  pub data HoldsParts (t : TableDef) : List (Option PartEntry) → List TablePartInfo → Type 0 where
    no_more : HoldsParts t [] []
    leftover :
        (e : PartEntry) {es : List (Option PartEntry)} {infos : List TablePartInfo}
        → is_passed_over e ≡ true
        → HoldsParts t es infos
        → HoldsParts t (some e ∷ es) infos
    in_part :
        (e : PartEntry) (info : TablePartInfo) (bytes : Bytes) {es : List (Option PartEntry)}
        {infos : List TablePartInfo}
        → is_passed_over e ≡ false
        → seal ci magic_bytes_info info ≡ ok bytes
        → files (info_path t false e.name) ≡ some bytes
        → HoldsParts t es infos
        → HoldsParts t (some e ∷ es) (info ∷ infos)

  -- The folder of a database holds the given tables.
  pub data HoldsTables (database : String) : List (Option TableEntry) → Tables → Type 0 where
    no_more : HoldsTables database [] []
    leftover :
        (e : TableEntry) {es : List (Option TableEntry)} {tables : Tables}
        → e.is_dir ≡ false
        → HoldsTables database es tables
        → HoldsTables database (some e ∷ es) tables
    in_table :
        (e : TableEntry) (t : TableDef) (config : TableConfig) (bytes : Bytes)
        (parts : List (Option PartEntry)) {es : List (Option TableEntry)} {tables : Tables}
        → e.is_dir ≡ true
        → t ≡ record { table = e.name; database = database }
        → seal cm magic_bytes_metadata config.metadata ≡ ok bytes
        → files (metadata_path t) ≡ some bytes
        → e.parts ≡ some parts
        → HoldsParts t parts config.infos
        → HoldsTables database es tables
        → HoldsTables database (some e ∷ es) ((t, config) ∷ tables)

  pub data HoldsDatabases : List (Option DatabaseEntry) → Tables → Type 0 where
    no_more : HoldsDatabases [] []
    leftover :
        (e : DatabaseEntry) {es : List (Option DatabaseEntry)} {tables : Tables}
        → e.is_dir ≡ false
        → HoldsDatabases es tables
        → HoldsDatabases (some e ∷ es) tables
    in_database :
        (e : DatabaseEntry) (entries : List (Option TableEntry)) (here rest all : Tables)
        {es : List (Option DatabaseEntry)}
        → e.is_dir ≡ true
        → e.tables ≡ some entries
        → all ≡ here ++ rest
        → HoldsTables e.name entries here
        → HoldsDatabases es rest
        → HoldsDatabases (some e ∷ es) all

-- No table is listed twice, nor among those that are there.
abbrev pub AreNew : Tables → Tables → Type 0
AreNew before [] = Unit
AreNew before (e ∷ es) = (lookup before e.0 ≡ none) × AreNew (e ∷ before) es

abbrev pub reverse_onto : Tables → Tables → Tables
reverse_onto [] acc = acc
reverse_onto (e ∷ es) acc = reverse_onto es (e ∷ acc)

reverse_onto-append :
    (l r acc : Tables) → reverse_onto (l ++ r) acc ≡ reverse_onto r (reverse_onto l acc)
reverse_onto-append [] r acc = refl
reverse_onto-append (e ∷ l) r acc = reverse_onto-append l r (e ∷ acc)

AreNew-append :
    (before l r : Tables)
    → AreNew before (l ++ r)
    → AreNew before l × AreNew (reverse_onto l before) r
AreNew-append before [] r h = (tt, h)
AreNew-append before (e ∷ l) r h = let (a, b) = AreNew-append (e ∷ before) l r h.1 in ((h.0, a), b)

eq_table_self : (t : TableDef) → eq_table t t ≡ true
eq_table_self t = rw ((eq_iff t.table t.table).1 refl, (eq_iff t.database t.database).1 refl) refl

replace_first :
    (t : TableDef) (c d : TableConfig) (rest : Tables) → replace t d ((t, c) ∷ rest) ≡ (t, d) ∷ rest
replace_first t c d rest = rw (eq_table_self t) refl

remove-new : (t : TableDef) (tables : Tables) → lookup tables t ≡ none → remove t tables ≡ tables
remove-new t [] h = refl
remove-new t (e ∷ es) h = elim (Bool-cases (eq_table e.0 t)) [
  | inl same ↦ cc (rw (same, lookup) at h)
  | inr other ↦ rw (other, filter) (ap (λ l. e ∷ l) (remove-new t es (rw (other, lookup) at h)))
]

module _ (cm : FileCodec TableMetadata) (ci : FileCodec TablePartInfo) (mlaw : IsLawful cm)
    (ilaw : IsLawful ci) (files : Files) where
  abbrev with_infos :
      TableDef → TableMetadata → List TablePartInfo → Tables → List TableDef → Loading
  with_infos t m infos rest removed = record {
    table_data = (t, record { metadata = m; infos = infos }) ∷ rest;
    removed = removed;
  }

  push_first :
      (t : TableDef) (m : TableMetadata) (infos : List TablePartInfo) (rest : Tables)
      (removed : List TableDef) (info : TablePartInfo)
      → push_part cm ci files t (ok info) (with_infos t m infos rest removed)
        ≡ ok (with_infos t m (infos ++ (info ∷ [])) rest removed)
  unfolding push_part
  push_first t m infos rest removed info =
      rw (eq_table_self t, push_part)
        (ap (λ (l : Tables). ok record { table_data = l; removed = removed })
          (replace_first t record { metadata = m; infos = infos }
            record { metadata = m; infos = infos ++ (info ∷ []) } rest))

  part_read :
      (t : TableDef) (name : String) (info : TablePartInfo) (bytes : Bytes)
      → seal ci magic_bytes_info info ≡ ok bytes
      → files (info_path t false name) ≡ some bytes
      → read_info ci t name files ≡ ok info
  unfolding read_info
  part_read t name info bytes sealed file =
      rw file (unseal-seal ci ilaw magic_bytes_info bytes info sealed)

  metadata_read :
      (t : TableDef) (m : TableMetadata) (bytes : Bytes)
      → seal cm magic_bytes_metadata m ≡ ok bytes
      → files (metadata_path t) ≡ some bytes
      → read_metadata cm t files ≡ ok m
  unfolding read_metadata
  metadata_read t m bytes sealed file =
      rw file (unseal-seal cm mlaw magic_bytes_metadata bytes m sealed)

  passed_over :
      (t : TableDef) (m : TableMetadata) (before : List TablePartInfo) (rest : Tables)
      (removed : List TableDef) (e : PartEntry)
      → is_passed_over e ≡ true
      → (removed' : List TableDef) × (process_part_entry cm ci files t e
            (with_infos t m before rest removed)
          ≡ ok (with_infos t m before rest removed'))
  unfolding process_part_entry
  passed_over t m before rest removed e out = elim (Bool-cases (should_remove_raw_directory e)) [
    | inl raw ↦ (t ∷ removed, rw (out, raw, process_part_entry) refl)
    | inr other ↦ (removed, rw (out, other, process_part_entry) refl)
  ]

  parts_loaded :
      (t : TableDef) (m : TableMetadata) (before : List TablePartInfo) (rest : Tables)
      (removed : List TableDef) (es : List (Option PartEntry)) (infos : List TablePartInfo)
      → HoldsParts cm ci files t es infos
      → (removed' : List TableDef) × (process_part_entries cm ci files t es
            (with_infos t m before rest removed)
          ≡ ok (with_infos t m (before ++ infos) rest removed'))
  unfolding process_part_entries process_part_entry
  parts_loaded t m before rest removed _ _ no_more =
      (removed, ap (λ l. ok (with_infos t m l rest removed)) (sym (append_nil before)))
  parts_loaded t m before rest removed _ _ (leftover e {es} {infos} out h) =
      let (removed1, e1) = passed_over t m before rest removed e out in
      let (removed2, e2) = parts_loaded t m before rest removed1 es infos h in
      (removed2, >>=-ok _ (λ s. process_part_entries cm ci files t es s) e1 e2)
  parts_loaded t m before rest removed _ _ (in_part e info bytes {es} {infos} keep sealed file h) =
      let e1 : process_part_entry cm ci files t e (with_infos t m before rest removed)
          ≡ ok (with_infos t m (before ++ (info ∷ [])) rest removed) =
        rw (keep, part_read t e.name info bytes sealed file, process_part_entry)
          (push_first t m before rest removed info) in
      let (removed2, e2) = parts_loaded t m (before ++ (info ∷ [])) rest removed es infos h in
      (
        removed2,
        >>=-ok _ (λ s. process_part_entries cm ci files t es s) e1 e2
            ∙ ap (λ l. ok (with_infos t m l rest removed2)) (append_assoc before (info ∷ []) infos),
      )

  loading : Tables → List TableDef → Loading
  loading tables removed = record { table_data = tables; removed = removed }

  table_loaded :
      (database : String) (e : TableEntry) (config : TableConfig) (bytes : Bytes)
      (parts : List (Option PartEntry)) (before : Tables) (removed : List TableDef) (t : TableDef)
      → t ≡ record { table = e.name; database = database }
      → e.is_dir ≡ true
      → seal cm magic_bytes_metadata config.metadata ≡ ok bytes
      → files (metadata_path t) ≡ some bytes
      → e.parts ≡ some parts
      → HoldsParts cm ci files t parts config.infos
      → lookup before t ≡ none
      → (removed' : List TableDef) × (process_table_entry cm ci files database e
            (loading before removed)
          ≡ ok (loading ((t, config) ∷ before) removed'))
  unfolding process_table_entry loading
  table_loaded database e config bytes parts before removed t same dir sealed file entries h new =
      let (removed', loaded) =
        parts_loaded t config.metadata [] before removed parts config.infos h in
      (
        removed',
        rw
            (
              dir,
              ← same,
              metadata_read t config.metadata bytes sealed file,
              entries,
              remove-new record { table = e.name; database = database } before
                  (subst (λ u. lookup before u ≡ none) same new),
            )
            loaded,
      )

  tables_loaded :
      (database : String) (before : Tables) (removed : List TableDef)
      (es : List (Option TableEntry)) (tables : Tables)
      → HoldsTables cm ci files database es tables
      → AreNew before tables
      → (removed' : List TableDef) × (process_table_entries cm ci files database es
            (loading before removed)
          ≡ ok (loading (reverse_onto tables before) removed'))
  unfolding process_table_entries process_table_entry
  tables_loaded database before removed _ _ no_more new = (removed, refl)
  tables_loaded database before removed _ _ (leftover e {es} {tables} out h) new =
      let (removed', e2) = tables_loaded database before removed es tables h new in
      (
        removed',
        >>=-ok (process_table_entry cm ci files database e (loading before removed))
            (λ s. process_table_entries cm ci files database es s) (rw out refl) e2,
      )
  tables_loaded database before removed _ _
        (in_table e t config bytes parts {es} {tables} dir same sealed file entries held h) new =
      let (removed1, e1) =
        table_loaded database e config bytes parts before removed t same dir sealed file entries
          held new.0 in
      let (removed2, e2) =
        tables_loaded database ((t, config) ∷ before) removed1 es tables h new.1 in
      (removed2, >>=-ok _ (λ s. process_table_entries cm ci files database es s) e1 e2)

  databases_loaded :
      (before : Tables) (removed : List TableDef) (es : List (Option DatabaseEntry))
      (tables : Tables)
      → HoldsDatabases cm ci files es tables
      → AreNew before tables
      → (removed' : List TableDef) × (process_database_entries cm ci files es
            (loading before removed)
          ≡ ok (loading (reverse_onto tables before) removed'))
  unfolding process_database_entries process_database_entry
  databases_loaded before removed _ _ no_more new = (removed, refl)
  databases_loaded before removed _ _ (leftover e {es} {tables} out h) new =
      let (removed', e2) = databases_loaded before removed es tables h new in
      (
        removed',
        >>=-ok (process_database_entry cm ci files e (loading before removed))
            (λ s. process_database_entries cm ci files es s) (rw out refl) e2,
      )
  databases_loaded before removed _ _
        (in_database e entries here rest all {es} dir listed same held h) new =
      let (new1, new2) = AreNew-append before here rest (subst (AreNew before) same new) in
      let (removed1, e1) = tables_loaded e.name before removed entries here held new1 in
      let (removed2, e2) = databases_loaded (reverse_onto here before) removed1 es rest h new2 in
      (
        removed2,
        >>=-ok (process_database_entry cm ci files e (loading before removed))
              (λ s. process_database_entries cm ci files es s) (rw (dir, listed) e1) e2
            ∙ ap (λ l. ok (loading l removed2))
                (sym (reverse_onto-append here rest before)
                  ∙ ap (λ l. reverse_onto l before) (sym same)),
      )

  -- Where the folders hold databases, tables and parts whose files are those that
  -- `TableMetadata::write_to` and `TablePartInfo::write_to` make, besides leftovers that are
  -- passed over, and no table is listed twice, a start of the server succeeds, and `TABLE_DATA`
  -- holds exactly these tables, each with its metadata and its parts in the order of the folder.
  -- This is for crates that read what they wrote, never as no bytes, and a checksum of 32 bits.
  pub load_existing_parts-restores :
      (entries : List (Option DatabaseEntry)) (tables : Tables)
      → HoldsDatabases cm ci files entries tables
      → AreNew [] tables
      → (s : Loading) × (load_existing_parts cm ci files true (some entries) ≡ ok s)
        × (s.table_data ≡ reverse_onto tables [])
  unfolding load_existing_parts loading
  load_existing_parts-restores entries tables h new =
      let (removed, e) = databases_loaded [] [] entries tables h new in
      (loading (reverse_onto tables []) removed, e, refl)
