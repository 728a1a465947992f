-- ===== src/Tests/Starts.antt =====
-- Runs of the files of tables and parts, of a start of the server and of its connections.
use touchhouse.Prelude.{
  ℕ, ◌+◌, ◌<◌, ◌≤◌, ◌≡◌, ◌≢◌, refl, ◌⊎◌, String, true, false, Option, none, some, List, [], ◌∷◌,
  ◌++◌, arith,
}
use touchhouse.Outcome.{Result, ok, could_not_read_data}
use touchhouse.Storage.Table.{TableMetadata, merge_tree}
use touchhouse.Storage.Part.{Bytes, TablePartInfo}
use touchhouse.Storage.Files.{
  Files, put, done, seal, unseal, magic_bytes_metadata, magic_bytes_info, metadata_path, info_path,
  write_metadata, read_metadata,
}
use touchhouse.Storage.Files.Atomic.{IsChecked, IsSealed, unseal_cases}
use touchhouse.Storage.Files.Store.{IsAtomic, write_metadata-IsAtomic}
use touchhouse.Startup.{
  PartEntry, TableEntry, DatabaseEntry, Loading, load_existing_parts, is_passed_over,
  should_skip_old_part,
}
use touchhouse.Startup.Restored.{
  HoldsParts, HoldsTables, HoldsDatabases, Tables, load_existing_parts-restores,
}
use touchhouse.Startup.Unreadable.{load_existing_parts-unreadable}
use touchhouse.Server.{
  Item, command, undecoded, Permits, Reach, here, next, acquire, accepted, init_conn_semaphore,
  handle_connection,
}
use touchhouse.Server.Answers.{HasSent, answers, handle_connection-HasSent}
use touchhouse.Server.Counted.{Reach-connected}
use touchhouse.Tests.Fixtures.{table_t}
use touchhouse.Tests.Codecs.{
  metadata_codec, metadata_codec-IsLawful, info_codec, info_codec-IsLawful,
}

abbrev bare : TableMetadata
bare = record {
  version = 1;
  flags = 0;
  created_at = 5;
  settings = record { index_granularity = 8192; engine = merge_tree };
  schema = record { columns = []; order_by = []; primary_key = [] };
}

abbrev nowhere : Files
nowhere p = none

write_metadata-IsAtomic_example :
    IsAtomic metadata_codec table_t bare nowhere
      (write_metadata metadata_codec done true table_t bare nowhere)
write_metadata-IsAtomic_example =
    write_metadata-IsAtomic metadata_codec metadata_codec-IsLawful done true table_t bare nowhere

abbrev sealed_bare : Bytes
sealed_bare = magic_bytes_metadata ++ (1 ∷ 0 ∷ 5 ∷ 200 ∷ 7 ∷ 0 ∷ 0 ∷ 0 ∷ [])

unseal_cases_example :
    IsChecked metadata_codec magic_bytes_metadata sealed_bare
      (unseal metadata_codec magic_bytes_metadata sealed_bare)
    × ((t : TableMetadata)
        → IsSealed metadata_codec magic_bytes_metadata sealed_bare t
        → unseal metadata_codec magic_bytes_metadata sealed_bare ≡ ok t)
unseal_cases_example =
    unseal_cases metadata_codec metadata_codec-IsLawful.small magic_bytes_metadata sealed_bare
      (omega arith)

-- A table with one part, what was left of a merge, and a file.
abbrev part_p : TablePartInfo
part_p = record { name = "p"; row_count = 3; marks = []; column_defs = [] }

abbrev metadata_file : Bytes
metadata_file = magic_bytes_metadata ++ (1 ∷ 0 ∷ 5 ∷ 8192 ∷ 7 ∷ 0 ∷ 0 ∷ 0 ∷ [])

abbrev info_file : Bytes
info_file = magic_bytes_info ++ (3 ∷ 7 ∷ 0 ∷ 0 ∷ 0 ∷ [])

abbrev stored : Files
stored =
    put (metadata_path table_t) (some metadata_file)
      (put (info_path table_t false "p") (some info_file) nowhere)

abbrev part_entries : List (Option PartEntry)
part_entries =
    some record { name = ".metadata"; is_dir = false }
    ∷ some record { name = "q.OLD"; is_dir = true }
    ∷ some record { name = "p"; is_dir = true }
    ∷ []

abbrev table_entry : TableEntry
table_entry = record { name = "t"; is_dir = true; parts = some part_entries }

abbrev database_entry : DatabaseEntry
database_entry = record { name = "d"; is_dir = true; tables = some (some table_entry ∷ []) }

abbrev loaded_tables : Tables
loaded_tables = (table_t, record { metadata = bare; infos = part_p ∷ [] }) ∷ []

holds_parts : HoldsParts metadata_codec info_codec stored table_t part_entries (part_p ∷ [])
unfolding seal is_passed_over should_skip_old_part
holds_parts =
    HoldsParts.leftover record { name = ".metadata"; is_dir = false } refl
      (HoldsParts.leftover record { name = "q.OLD"; is_dir = true } refl
        (HoldsParts.in_part record { name = "p"; is_dir = true } part_p info_file refl refl refl
          HoldsParts.no_more))

holds_databases :
    HoldsDatabases metadata_codec info_codec stored (some database_entry ∷ []) loaded_tables
unfolding seal
holds_databases =
    HoldsDatabases.in_database database_entry (some table_entry ∷ []) loaded_tables [] loaded_tables
      refl refl refl
      (HoldsTables.in_table table_entry table_t record { metadata = bare; infos = part_p ∷ [] }
        metadata_file part_entries refl refl refl refl refl holds_parts HoldsTables.no_more)
      HoldsDatabases.no_more

load_existing_parts-restores_example :
    (s : Loading) × (load_existing_parts metadata_codec info_codec stored true
        (some (some database_entry ∷ []))
      ≡ ok s)
    × (s.table_data ≡ loaded_tables)
load_existing_parts-restores_example =
    load_existing_parts-restores metadata_codec info_codec metadata_codec-IsLawful
      info_codec-IsLawful stored (some database_entry ∷ []) loaded_tables holds_databases (refl, tt)

abbrev nothing_loaded : Loading
nothing_loaded = record { table_data = []; removed = [] }

load_existing_parts-unreadable_example :
    load_existing_parts metadata_codec info_codec nowhere true (some (some database_entry ∷ []))
    ≢ ok nothing_loaded
unfolding read_metadata
load_existing_parts-unreadable_example =
    load_existing_parts-unreadable metadata_codec info_codec nowhere [] [] database_entry [] []
      table_entry could_not_read_data true nothing_loaded refl refl refl refl

-- A session that counts its commands.
abbrev count_up : ℕ → String → ℕ × Result ℕ
count_up n text = (n + 1, ok n)

abbrev items : List Item
items = command "a" ∷ undecoded "b" ∷ command "c" ∷ command "exit" ∷ command "d" ∷ []

handle_connection-HasSent_example :
    HasSent count_up
      (λ n. true)
      0
      (answers count_up items 0)
      (handle_connection count_up (λ n. true) items 0)
handle_connection-HasSent_example = handle_connection-HasSent count_up (λ n. true) items 0

abbrev one_of_two : Permits
one_of_two = record { free = 1; waiting = 0; connected = 1 }

reached : Reach (init_conn_semaphore 2) one_of_two
unfolding init_conn_semaphore
reached = next (next here (acquire 1 refl refl)) (accepted refl)

Reach-connected_example :
    (one_of_two.connected ≤ 2)
    × ((one_of_two.connected ≡ 2) ⊎ (0 < one_of_two.free + one_of_two.waiting))
Reach-connected_example = Reach-connected 2 reached
