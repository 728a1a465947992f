-- ===== src/Execution/Commands/Consistent.antt =====
-- sql/execution/ and sql/command_runner.rs: the tables that are loaded against the folders on disk.
use touchhouse.Prelude.{◌+◌, String, true, List, ◌≡◌, refl, Option-cases, inl, inr}
use touchhouse.Outcome.{Result, ok, err, panics, hangs, ◌>>=◌}
use touchhouse.Storage.Table.{TableDef}
use touchhouse.Storage.Column.{OutputColumn, PhysicalColumn}
use touchhouse.Externs.{Externs, Codec}
use touchhouse.Value.{Value}
use touchhouse.Value.Archived.{ArchivedValue}
use touchhouse.Storage.Part.{Bytes, TablePart}
use touchhouse.Sql.Query.{Statement}
use touchhouse.Sql.Names.{validate_name}
use touchhouse.Sql.Plan.{PhysicalPlan, SelectNode, physical_plan, get_complexity}
use touchhouse.Execution.Folders.Plain.{JoinsNames, HasNames}
use touchhouse.Execution.Commands.Named.{planned-named}
use touchhouse.Execution.Commands.{
  Db, TableConfig, lookup, create_table, insert, inserted, new_part, planned, loaded, logical_plan,
  execute_physical_plan, execute_command,
}
use touchhouse.Execution.Commands.Steps.{
  IsConsistent, create_database_keeps, create_entry_keeps, drop_table_keeps, drop_database_keeps,
  replace_keeps,
}

-- The database of a plan that makes a table, or drops a database, has a valid name.
abbrev pub NamesDatabase : PhysicalPlan → Type 0
NamesDatabase (PhysicalPlan.create_table p) = validate_name p.name.database ≡ true
NamesDatabase (PhysicalPlan.drop_database n b) = validate_name n ≡ true
NamesDatabase _ = Unit

-- So has the table.
abbrev HasValidNames : PhysicalPlan → Type 0
HasValidNames (PhysicalPlan.create_table p) = HasNames p.name
HasValidNames (PhysicalPlan.drop_database n b) = validate_name n ≡ true
HasValidNames _ = Unit

module _ (k : Codec Value ArchivedValue) (x : Externs) where
  inserted_keeps :
      (db : Db) (t : TableDef) (c : TableConfig) (r : Result (List Bytes × TablePart))
      → IsConsistent x db
      → IsConsistent x (inserted k db t c r).0
  unfolding inserted
  inserted_keeps db t c (ok saved) h = replace_keeps x db.folders t _ db.table_data h
  inserted_keeps db t c (err e) h = h
  inserted_keeps db t c panics h = h
  inserted_keeps db t c hangs h = h

  insert_keeps :
      (db : Db) (t : TableDef) (columns : List PhysicalColumn) (name : String)
      → IsConsistent x db
      → IsConsistent x (insert k db t columns name).0
  unfolding insert
  insert_keeps db t columns name h = elim (Option-cases (lookup db.table_data t)) [
    | inl e ↦ rw (e, insert) h
    | inr c ↦ rw (c.1, insert) (inserted_keeps db t c.0 (new_part k c.0 columns name) h)
  ]

  module _ (select : Db → SelectNode → Result (List OutputColumn)) where
    plan_keeps :
        (joins : JoinsNames x) (db : Db) (name : String) (plan : PhysicalPlan)
        → HasValidNames plan
        → IsConsistent x db
        → IsConsistent x (execute_physical_plan k x select db name plan).0
    unfolding execute_physical_plan create_table
    plan_keeps joins db name (PhysicalPlan.create_database n b) v h =
        create_database_keeps x joins db n b h
    plan_keeps joins db name (PhysicalPlan.create_table p) v h =
        create_entry_keeps x joins db p _ v h
    plan_keeps joins db name (PhysicalPlan.insert t columns) v h = insert_keeps db t columns name h
    plan_keeps joins db name (PhysicalPlan.drop_database n b) v h =
        drop_database_keeps x joins db n b v h
    plan_keeps joins db name (PhysicalPlan.drop_table t b) v h = drop_table_keeps x joins db t b h
    plan_keeps joins db name (PhysicalPlan.select node) v h = h

    planned_keeps :
        (joins : JoinsNames x) (db : Db) (name : String) (r : Result PhysicalPlan)
        → ((plan : PhysicalPlan) → r ≡ ok plan → HasValidNames plan)
        → IsConsistent x db
        → IsConsistent x (planned k x select db name r).0
    unfolding planned loaded
    planned_keeps joins db name (ok plan) v h =
        plan_keeps joins record db { database_load = db.database_load + get_complexity plan } name
          plan (v plan refl) h
    planned_keeps joins db name (err e) v h = h
    planned_keeps joins db name panics v h = h
    planned_keeps joins db name hangs v h = h

    -- The planner has validated the name of a table that is made.
    valid_names :
        (db : Db) (statement : Statement)
        → ((plan : PhysicalPlan)
            → (logical_plan k x select db statement >>= physical_plan) ≡ ok plan
            → NamesDatabase plan)
        → (plan : PhysicalPlan) → (logical_plan k x select db statement >>= physical_plan) ≡ ok plan
        → HasValidNames plan
    valid_names db statement v (PhysicalPlan.create_table p) e =
        (v (PhysicalPlan.create_table p) e, planned-named k x select db statement p e)
    valid_names db statement v (PhysicalPlan.drop_database n b) e =
        v (PhysicalPlan.drop_database n b) e
    valid_names db statement v (PhysicalPlan.create_database n b) e = tt
    valid_names db statement v (PhysicalPlan.insert t columns) e = tt
    valid_names db statement v (PhysicalPlan.drop_table t b) e = tt
    valid_names db statement v (PhysicalPlan.select node) e = tt

    -- Where every loaded table has a valid name, a database of a valid name, its folder and its
    -- database's folder, this is still so after any statement, whether it succeeds or fails, if a
    -- CREATE TABLE is in, and a DROP DATABASE names, a database of a valid name, and `Path::join`
    -- with such a name is one more folder.
    pub execute_command-IsConsistent :
        JoinsNames x
        → (db : Db) (name : String) (statement : Statement)
        → ((plan : PhysicalPlan)
            → (logical_plan k x select db statement >>= physical_plan) ≡ ok plan
            → NamesDatabase plan)
        → IsConsistent x db
        → IsConsistent x (execute_command k x select db name statement).0
    unfolding execute_command planned
    execute_command-IsConsistent joins db name statement v h =
        planned_keeps joins db name (logical_plan k x select db statement >>= physical_plan)
          (valid_names db statement v) h
