-- ===== src/Startup/Unreadable.antt =====
-- lib.rs: a table whose metadata cannot be read.
use touchhouse.Prelude.{◌≡◌, ◌≢◌, String, Bool, true, Option, none, some, List, [], ◌∷◌, ◌++◌}
use touchhouse.Outcome.{ok, err, >>=-eq-ok, guard, internal, Error}
use touchhouse.Externs.{FileCodec}
use touchhouse.Storage.Table.{TableMetadata}
use touchhouse.Storage.Part.{TablePartInfo}
use touchhouse.Storage.Files.{Files, read_metadata}
use touchhouse.Startup.{
  TableEntry, DatabaseEntry, Loading, process_table_entry, process_table_entries,
  process_database_entry, process_database_entries, load_existing_parts,
}

module _ (cm : FileCodec TableMetadata) (ci : FileCodec TablePartInfo) (files : Files) where
  table_unread :
      (database : String) (f : TableEntry) (e : Error) (s t : Loading)
      → f.is_dir ≡ true
      → read_metadata cm record { table = f.name; database = database } files ≡ err e
      → process_table_entry cm ci files database f s ≢ ok t
  unfolding process_table_entry
  table_unread database f e s t dir unread h = cc (rw (dir, unread) at h)

  tables_unread :
      (database : String) (before after : List (Option TableEntry)) (f : TableEntry) (e : Error)
      (s t : Loading)
      → f.is_dir ≡ true
      → read_metadata cm record { table = f.name; database = database } files ≡ err e
      → process_table_entries cm ci files database (before ++ (some f ∷ after)) s ≢ ok t
  unfolding process_table_entries
  tables_unread database [] after f e s t dir unread h =
      let (u, g, _) = >>=-eq-ok (process_table_entry cm ci files database f s) _ h in
      table_unread database f e s u dir unread g
  tables_unread database (none ∷ before) after f e s t dir unread h = cc h
  tables_unread database (some b ∷ before) after f e s t dir unread h =
      let (u, _, g) = >>=-eq-ok (process_table_entry cm ci files database b s) _ h in
      tables_unread database before after f e u t dir unread g

  database_unread :
      (d : DatabaseEntry) (before after : List (Option TableEntry)) (f : TableEntry) (e : Error)
      (s t : Loading)
      → d.is_dir ≡ true
      → d.tables ≡ some (before ++ (some f ∷ after))
      → f.is_dir ≡ true
      → read_metadata cm record { table = f.name; database = d.name } files ≡ err e
      → process_database_entry cm ci files d s ≢ ok t
  unfolding process_database_entry
  database_unread d before after f e s t dir listed dir' unread h =
      tables_unread d.name before after f e s t dir' unread (rw (dir, listed) at h)

  databases_unread :
      (ds es : List (Option DatabaseEntry)) (d : DatabaseEntry)
      (before after : List (Option TableEntry)) (f : TableEntry) (e : Error) (s t : Loading)
      → d.is_dir ≡ true
      → d.tables ≡ some (before ++ (some f ∷ after))
      → f.is_dir ≡ true
      → read_metadata cm record { table = f.name; database = d.name } files ≡ err e
      → process_database_entries cm ci files (ds ++ (some d ∷ es)) s ≢ ok t
  unfolding process_database_entries
  databases_unread [] es d before after f e s t dir listed dir' unread h =
      let (u, g, _) = >>=-eq-ok (process_database_entry cm ci files d s) _ h in
      database_unread d before after f e s u dir listed dir' unread g
  databases_unread (none ∷ ds) es d before after f e s t dir listed dir' unread h = cc h
  databases_unread (some b ∷ ds) es d before after f e s t dir listed dir' unread h =
      let (u, _, g) = >>=-eq-ok (process_database_entry cm ci files b s) _ h in
      databases_unread ds es d before after f e u t dir listed dir' unread g

  -- The server does not start where one folder of a table, in any database, has metadata that
  -- cannot be read.
  pub load_existing_parts-unreadable :
      (ds es : List (Option DatabaseEntry)) (d : DatabaseEntry)
      (before after : List (Option TableEntry)) (f : TableEntry) (e : Error) (exists : Bool)
      (s : Loading)
      → d.is_dir ≡ true
      → d.tables ≡ some (before ++ (some f ∷ after))
      → f.is_dir ≡ true
      → read_metadata cm record { table = f.name; database = d.name } files ≡ err e
      → load_existing_parts cm ci files exists (some (ds ++ (some d ∷ es))) ≢ ok s
  unfolding load_existing_parts
  load_existing_parts-unreadable ds es d before after f e exists s dir listed dir' unread h =
      let (_, _, g) = >>=-eq-ok (guard exists internal) _ h in
      databases_unread ds es d before after f e record { table_data = []; removed = [] } s dir
        listed dir' unread g
