-- ===== src/Startup.antt =====
-- lib.rs: `load_existing_parts`, which loads the tables and their parts when the server starts. The
-- tree holds what `read_dir` hands over, an entry that could not be read as `none`, and `files` the
-- files. Where a folder `raw` is not removed, the start goes on all the same.
pub mod Restored
pub mod Unreadable
use touchhouse.Prelude.{
  ℕ, ◌+◌, String, Bool, true, false, not, ◌&&◌, ◌||◌, Option, none, some, List, [], ◌∷◌, ◌++◌, map,
  eq_list, str_eq, leb, ◌==◌, if◌then◌else◌,
}
use touchhouse.Outcome.{Result, ok, err, panics, hangs, ◌>>=◌, ok_or, guard, internal}
use touchhouse.Externs.{FileCodec}
use touchhouse.Value.Literal.{codes}
use touchhouse.Storage.Table.{TableDef, TableMetadata}
use touchhouse.Storage.Part.{TablePartInfo}
use touchhouse.Storage.Files.{Files, read_metadata, read_info}
use touchhouse.Execution.Commands.{TableConfig, lookup, remove, replace}

pub record PartEntry : Type 0 where
  pub name : String
  pub is_dir : Bool

pub record TableEntry : Type 0 where
  pub name : String
  pub is_dir : Bool
  pub parts : Option (List (Option PartEntry))

pub record DatabaseEntry : Type 0 where
  pub name : String
  pub is_dir : Bool
  pub tables : Option (List (Option TableEntry))

-- `TABLE_DATA`, and the tables whose folder `raw` is removed.
pub record Loading : Type 0 where
  pub table_data : List (TableDef × TableConfig)
  pub removed : List TableDef

-- `TABLE_DATA.insert`
abbrev pub insert_config :
    TableDef → TableConfig → List (TableDef × TableConfig) → List (TableDef × TableConfig)
insert_config t c data_of = (t, c) ∷ remove t data_of

abbrev pub starts_with_dot : List ℕ → Bool
starts_with_dot [] = false
starts_with_dot (c ∷ cs) = c == 46

-- What follows the last dot.
abbrev pub after_last_dot : List ℕ → Option (List ℕ)
after_last_dot [] = none
after_last_dot (c ∷ cs) = elim (after_last_dot cs) [
  | some e ↦ some e
  | none ↦ if c == 46 then some cs else none
]

-- `Path::extension` of a name: a dot at the start does not count.
abbrev pub extension : List ℕ → Option (List ℕ)
extension [] = none
extension (c ∷ cs) = after_last_dot cs

abbrev pub to_ascii_lowercase : ℕ → ℕ
to_ascii_lowercase c = if leb 65 c && leb c 90 then c + 32 else c

-- The extension `old`, in any case.
unfoldable pub should_skip_old_part : String → Bool
should_skip_old_part name = elim (extension (codes name)) [
  | none ↦ false
  | some e ↦ eq_list ◌==◌ (map to_ascii_lowercase e) (codes "old")
]

-- `should_remove_raw_directory`, asked only of a folder whose name does not start with a dot
unfoldable pub should_remove_raw_directory : PartEntry → Bool
should_remove_raw_directory e =
    e.is_dir && (not (starts_with_dot (codes e.name)) && str_eq e.name "raw")

-- An entry that is no part.
unfoldable pub is_passed_over : PartEntry → Bool
is_passed_over e =
    not e.is_dir
    || (starts_with_dot (codes e.name) || (str_eq e.name "raw" || should_skip_old_part e.name))

-- An error of any kind becomes `Internal`, with its text.
abbrev pub or_internal {ℓ} : {A : Type ℓ} → Result A → Result A
or_internal (ok a) = ok a
or_internal (err e) = err internal
or_internal panics = panics
or_internal hangs = hangs

module _ (cm : FileCodec TableMetadata) (ci : FileCodec TablePartInfo) (files : Files) where
  -- A part whose information cannot be read is left out.
  unfoldable pub push_part : TableDef → Result TablePartInfo → Loading → Result Loading
  push_part t (ok info) s = elim (lookup s.table_data t) [
    | none ↦ err internal
    | some c ↦
        ok record s {
          table_data = replace t record c { infos = c.infos ++ (info ∷ []) } s.table_data;
        }
  ]
  push_part t (err e) s = ok s
  push_part t panics s = panics
  push_part t hangs s = hangs

  unfoldable pub process_part_entry : TableDef → PartEntry → Loading → Result Loading
  process_part_entry t e s =
      if is_passed_over e
      then ok (if should_remove_raw_directory e then record s { removed = t ∷ s.removed } else s)
      else push_part t (read_info ci t e.name files) s

  unfoldable pub process_part_entries :
      TableDef → List (Option PartEntry) → Loading → Result Loading
  process_part_entries t [] s = ok s
  process_part_entries t (none ∷ es) s = err internal
  process_part_entries t (some e ∷ es) s =
      process_part_entry t e s >>= λ s'. process_part_entries t es s'

  unfoldable pub process_table_entry : String → TableEntry → Loading → Result Loading
  process_table_entry database e s =
      if e.is_dir
      then (do
        let t : TableDef = record { table = e.name; database = database }
        metadata ← or_internal (read_metadata cm t files)
        parts ← ok_or e.parts internal
        process_part_entries t parts record s {
          table_data = insert_config t record { metadata = metadata; infos = [] } s.table_data;
        })
      else ok s

  unfoldable pub process_table_entries :
      String → List (Option TableEntry) → Loading → Result Loading
  process_table_entries database [] s = ok s
  process_table_entries database (none ∷ es) s = err internal
  process_table_entries database (some e ∷ es) s =
      process_table_entry database e s >>= λ s'. process_table_entries database es s'

  unfoldable pub process_database_entry : DatabaseEntry → Loading → Result Loading
  process_database_entry e s =
      if e.is_dir
      then (do tables ← ok_or e.tables internal; process_table_entries e.name tables s)
      else ok s

  unfoldable pub process_database_entries : List (Option DatabaseEntry) → Loading → Result Loading
  process_database_entries [] s = ok s
  process_database_entries (none ∷ es) s = err internal
  process_database_entries (some e ∷ es) s =
      process_database_entry e s >>= λ s'. process_database_entries es s'

  -- `exists` says whether the database's folder is there, `databases` what is in it.
  unfoldable pub load_existing_parts : Bool → Option (List (Option DatabaseEntry)) → Result Loading
  load_existing_parts exists databases = do
    _ ← guard exists internal
    entries ← ok_or databases internal
    process_database_entries entries record { table_data = []; removed = [] }
