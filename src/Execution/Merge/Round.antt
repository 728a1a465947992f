-- ===== src/Execution/Merge/Round.antt =====
-- background_merge.rs: a round of the endless loop of `BackgroundMerge::start`, on the loaded tables
-- of the server. Nothing else runs during a round; the round's files are those on `disk`.
pub mod Found
pub mod Tables
use touchhouse.Prelude.{
  ℕ, String, Bool, Option, none, some, List, [], ◌∷◌, map, length, find, leb, ltb, if◌then◌else◌,
}
use touchhouse.Outcome.{Result, Error, ok, err, panics, hangs, ◌>>=◌}
use touchhouse.Externs.{Externs, Codec}
use touchhouse.Value.{Value}
use touchhouse.Value.Archived.{ArchivedValue}
use touchhouse.Storage.Column.{PhysicalColumn}
use touchhouse.Storage.Table.{TableDef, TableMetadata, TableSchema, eq_table}
use touchhouse.Storage.Part.{Bytes, TablePartInfo, TablePart, try_new, save_raw}
use touchhouse.Execution.Commands.{TableConfig, lookup, replace}
use touchhouse.Execution.Merge.{
  Folders, find_parts_to_merge, load_part_cols, combine_cols, atomic_part_move,
}

-- The loaded tables, the folders of each, and `DATABASE_LOAD`.
pub record ServerState : Type 0 where
  pub table_data : List (TableDef × TableConfig)
  pub folders : TableDef → Folders
  pub database_load : ℕ

pub record PartsToMerge : Type 0 where
  pub table_def : TableDef
  pub table_metadata : TableMetadata
  pub part_1_info : TablePartInfo
  pub part_2_info : TablePartInfo

-- `SLEEP_IF_NOT_FOUND`, and the pause after a part that could not be moved, in milliseconds.
abbrev pub sleep_if_not_found : ℕ
sleep_if_not_found = 5000

abbrev pub sleep_if_not_moved : ℕ
sleep_if_not_moved = 1000

-- What a round leaves, and how long the thread sleeps after it.
abbrev pub Round : Type 0
Round = ServerState × ℕ

-- An error ends the round; a panic ends the thread.
abbrev pub or_else : {A : Type 0} → Result A → Round → (A → Result Round) → Result Round
or_else (ok a) failed next = next a
or_else (err e) failed next = ok failed
or_else panics failed next = panics
or_else hangs failed next = hangs

abbrev pub parts_to_merge :
    TableDef × TableConfig → Option (TablePartInfo × TablePartInfo) → Option PartsToMerge
parts_to_merge e none = none
parts_to_merge e (some parts) = some record {
  table_def = e.0;
  table_metadata = e.1.metadata;
  part_1_info = parts.0;
  part_2_info = parts.1;
}

-- `find_parts_to_merge`, over all tables: those of the first table of more than one part.
unfoldable pub find_in_tables :
    Externs → List (TableDef × TableConfig) → Result (Option PartsToMerge)
find_in_tables x tables =
    elim (find (λ (e : TableDef × TableConfig). ltb 1 (length e.1.infos)) tables) [
      | none ↦ ok none
      | some e ↦ find_parts_to_merge x e.1.infos >>= λ parts. ok (parts_to_merge e parts)
    ]

abbrev pub set_folders : (TableDef → Folders) → TableDef → Folders → TableDef → Folders
set_folders folders t f u = if eq_table u t then f else folders u

abbrev pub with_raw : Folders → String → Folders
with_raw f name = record f { raw = name ∷ f.raw }

-- The table as `NativeStorage` takes it.
abbrev pub opened_table :
    List (TableDef × TableConfig) → TableDef → Option (TableSchema × List TablePartInfo)
opened_table tables t = elim (lookup tables t) [
  | none ↦ none
  | some c ↦ some (c.metadata.schema, c.infos)
]

module _ (x : Externs) (k : Codec Value ArchivedValue)
    (disk : TableDef → String → String → Option Bytes) (can : TableDef → String → String → Bool)
    (can_move can_remove : TableDef → String → Bool) where
  -- `atomic_part_move` on the loaded tables.
  unfoldable pub move_parts : ServerState → PartsToMerge → TablePartInfo → Result Round
  move_parts s p new_part = elim (lookup s.table_data p.table_def) [
    | none ↦ ok (s, sleep_if_not_moved)
    | some config ↦
        atomic_part_move (can p.table_def) (can_move p.table_def) (can_remove p.table_def)
          p.part_1_info p.part_2_info new_part config.infos (s.folders p.table_def)
        >>= λ moved. ok (
          record s {
            table_data = replace p.table_def (record config { infos = moved.0 }) s.table_data;
            folders = set_folders s.folders p.table_def moved.1;
          },
          if moved.2 then 0 else sleep_if_not_moved,
        )
  ]

  -- The new part is written to its folder under `raw`, which stays where the writing fails.
  unfoldable pub save_and_move : ServerState → PartsToMerge → TablePart → Result Round
  unfolding move_parts
  save_and_move s p new_part =
      let made : ServerState = record s {
        folders =
            set_folders s.folders p.table_def (with_raw (s.folders p.table_def) new_part.info.name);
      } in
      or_else (save_raw k new_part p.table_metadata.settings.index_granularity) (made, 0)
        (λ saved. move_parts made p saved.1.info)

  unfoldable pub merge_parts : ServerState → PartsToMerge → Result Round
  unfolding save_and_move
  merge_parts s p =
      let part_cols : TablePartInfo → Result (List PhysicalColumn) =
        load_part_cols x k (disk p.table_def) (opened_table s.table_data p.table_def) in
      or_else (part_cols p.part_1_info) (s, sleep_if_not_found)
        (λ part_1_cols.
          or_else (part_cols p.part_2_info) (s, sleep_if_not_found)
            (λ part_2_cols.
              or_else
                (try_new p.table_metadata (combine_cols part_1_cols part_2_cols) p.part_2_info.name)
                (s, 0) (save_and_move s p)))

  -- `available_under` is the configuration's.
  unfoldable pub round : ℕ → ServerState → Result Round
  unfolding merge_parts
  round available_under s =
      if leb available_under s.database_load
      then ok (s, sleep_if_not_found)
      else find_in_tables x s.table_data >>= λ found. elim found [
        | none ↦ ok (s, sleep_if_not_found)
        | some p ↦ merge_parts s p
      ]
