-- ===== src/Execution/Commands/Load.antt =====
-- sql/command_runner.rs: the load that a command adds while it runs.
use touchhouse.Prelude.{◌+◌, ◌≡◌, refl, Bool, List, String, Option-cases, inl, inr, arith}
use touchhouse.Outcome.{Result, ok, err, panics, hangs, ◌>>=◌}
use touchhouse.Externs.{Externs, Codec}
use touchhouse.Value.{Value}
use touchhouse.Value.Archived.{ArchivedValue}
use touchhouse.Storage.Table.{TableDef, TableMetadata}
use touchhouse.Storage.Column.{OutputColumn, PhysicalColumn}
use touchhouse.Storage.Part.{Bytes, TablePart}
use touchhouse.Sql.Query.{Statement}
use touchhouse.Sql.Plan.{CreateTablePlan, PhysicalPlan, SelectNode, physical_plan, get_complexity}
use touchhouse.Execution.Folders.{create_dir, get_path}
use touchhouse.Execution.Folders.Plain.{Created-cases}
use touchhouse.Execution.Commands.{
  Db, TableConfig, lookup, create_vacant, create_entry, create_database, create_table, drop_table,
  drop_database, insert, inserted, new_part, execute_physical_plan, execute_command, planned,
  loaded, logical_plan,
}

module _ (x : Externs) where
  create_database-load :
      (db : Db) (n : String) (b : Bool)
      → (create_database x db n b).0.database_load ≡ db.database_load
  unfolding create_database
  create_database-load db n b = elim (Created-cases (create_dir db.folders (x.join x.db_dir n))) [
    | inl e ↦ rw (e.1, create_database) refl
    | inr (inl e) ↦ rw (e, create_database) refl
    | inr (inr e) ↦ rw (e, create_database) refl
  ]

  create_vacant-load :
      (db : Db) (p : CreateTablePlan) (metadata : TableMetadata)
      → (create_vacant x db p metadata).0.database_load ≡ db.database_load
  unfolding create_vacant
  create_vacant-load db p metadata =
      elim (Created-cases (create_dir db.folders (get_path x p.name))) [
        | inl e ↦ rw (e.1, create_vacant) refl
        | inr (inl e) ↦ rw (e, create_vacant) refl
        | inr (inr e) ↦ rw (e, create_vacant) refl
      ]

  create_entry-load :
      (db : Db) (p : CreateTablePlan) (r : Result TableMetadata)
      → (create_entry x db p r).0.database_load ≡ db.database_load
  unfolding create_entry
  create_entry-load db p (ok metadata) = elim (Option-cases (lookup db.table_data p.name)) [
    | inl e ↦ rw (e, create_entry) (create_vacant-load db p metadata)
    | inr c ↦ rw (c.1, create_entry) refl
  ]
  create_entry-load db p (err e) = refl
  create_entry-load db p panics = refl
  create_entry-load db p hangs = refl

  drop_table-load :
      (db : Db) (t : TableDef) (b : Bool) → (drop_table x db t b).0.database_load ≡ db.database_load
  unfolding drop_table
  drop_table-load db t b = elim (Option-cases (lookup db.table_data t)) [
    | inl e ↦ rw (e, drop_table) refl
    | inr c ↦ rw (c.1, drop_table) refl
  ]

module _ (k : Codec Value ArchivedValue) where
  inserted-load :
      (db : Db) (t : TableDef) (c : TableConfig) (r : Result (List Bytes × TablePart))
      → (inserted k db t c r).0.database_load ≡ db.database_load
  unfolding inserted
  inserted-load db t c (ok saved) = refl
  inserted-load db t c (err e) = refl
  inserted-load db t c panics = refl
  inserted-load db t c hangs = refl

  insert-load :
      (db : Db) (t : TableDef) (columns : List PhysicalColumn) (name : String)
      → (insert k db t columns name).0.database_load ≡ db.database_load
  unfolding insert
  insert-load db t columns name = elim (Option-cases (lookup db.table_data t)) [
    | inl e ↦ rw (e, insert) refl
    | inr c ↦ rw (c.1, insert) (inserted-load db t c.0 (new_part k c.0 columns name))
  ]

  module _ (x : Externs) (select : Db → SelectNode → Result (List OutputColumn)) where
    plan-load :
        (db : Db) (name : String) (plan : PhysicalPlan)
        → (execute_physical_plan k x select db name plan).0.database_load ≡ db.database_load
    unfolding execute_physical_plan create_table drop_database
    plan-load db name (PhysicalPlan.create_database n b) = create_database-load x db n b
    plan-load db name (PhysicalPlan.create_table p) = create_entry-load x db p _
    plan-load db name (PhysicalPlan.insert t columns) = insert-load db t columns name
    plan-load db name (PhysicalPlan.drop_database n b) = refl
    plan-load db name (PhysicalPlan.drop_table t b) = drop_table-load x db t b
    plan-load db name (PhysicalPlan.select node) = refl

    planned-load :
        (db : Db) (name : String) (r : Result PhysicalPlan)
        → (planned k x select db name r).0.database_load ≡ db.database_load
    unfolding planned loaded
    planned-load db name (ok plan) =
        let e =
          plan-load record db { database_load = db.database_load + get_complexity plan } name
            plan in
        rw e (omega arith)
    planned-load db name (err e) = refl
    planned-load db name panics = refl
    planned-load db name hangs = refl

    -- Any statement, whether it succeeds or fails, leaves the load of the database as it was:
    -- what a query adds when it starts it takes off when it ends.
    pub execute_command-database_load :
        (db : Db) (name : String) (statement : Statement)
        → (execute_command k x select db name statement).0.database_load ≡ db.database_load
    unfolding execute_command
    execute_command-database_load db name statement =
        planned-load db name (logical_plan k x select db statement >>= physical_plan)
