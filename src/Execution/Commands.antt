-- ===== src/Execution/Commands.antt =====
-- sql/execution/create.rs, drop.rs and insert.rs, sql/command_runner.rs and `LogicalPlan::try_from`
-- of sql/sql_parser.rs: what a statement does to the database. Of the file system a folder's being
-- there is kept; its other failures are left out, as are the texts of a query and its parser.
pub mod Steps
pub mod Consistent
pub mod Elsewhere
pub mod Named
pub mod Load
use touchhouse.Prelude.{
  ℕ, ◌+◌, ◌-◌, String, Bool, true, false, not, Option, none, some, List, [], ◌∷◌, ◌++◌, filter,
  str_eq, if◌then◌else◌,
}
use touchhouse.Outcome.{
  Result, Error, ok, err, panics, hangs, ◌>>=◌, invalid_database_name, database_already_exists,
  table_already_exists, could_not_create_table, table_not_found, database_not_found,
  unsupported_command,
}
use touchhouse.Externs.{Externs, Codec}
use touchhouse.Value.{Value}
use touchhouse.Value.Archived.{ArchivedValue}
use touchhouse.Storage.Column.{OutputColumn, PhysicalColumn, value}
use touchhouse.Storage.Table.{TableDef, TableMetadata, TableSchema, new_metadata, eq_table}
use touchhouse.Storage.Part.{Bytes, TablePartInfo, TablePart, try_new, save_raw}
use touchhouse.Sql.Query.{Statement}
use touchhouse.Sql.Plan.{
  LogicalPlan, PhysicalPlan, CreateTablePlan, SelectNode, physical_plan, get_complexity,
}
use touchhouse.Sql.Names.{from_create_database, from_drop}
use touchhouse.Sql.Select.{from_query}
use touchhouse.Sql.CreateTable.{from_create_table}
use touchhouse.Sql.Insert.{from_insert}
use touchhouse.Execution.Folders.{
  FolderPath, created, already_exists, not_created, create_dir, remove_dir_all, or_same, get_path,
}

pub record TableConfig : Type 0 where
  pub metadata : TableMetadata
  pub infos : List TablePartInfo

-- `TABLE_DATA`, the folders that there are, down to those of the tables, and `DATABASE_LOAD`.
pub record Db : Type 0 where
  pub table_data : List (TableDef × TableConfig)
  pub folders : List FolderPath
  pub database_load : ℕ

abbrev pub lookup : List (TableDef × TableConfig) → TableDef → Option TableConfig
lookup [] t = none
lookup (e ∷ es) t = if eq_table e.0 t then some e.1 else lookup es t

abbrev pub remove : TableDef → List (TableDef × TableConfig) → List (TableDef × TableConfig)
remove t es = filter (λ (e : TableDef × TableConfig). not (eq_table e.0 t)) es

abbrev pub replace :
    TableDef → TableConfig → List (TableDef × TableConfig) → List (TableDef × TableConfig)
replace t c [] = []
replace t c (e ∷ es) = if eq_table e.0 t then (e.0, c) ∷ es else e ∷ replace t c es

-- `OutputColumn::build_ok_vec`
abbrev pub ok_columns : List OutputColumn
ok_columns =
    record {
      proj = record { alias = none; source = value (Value.string "OK") };
      data_of = Value.string "OK" ∷ [];
    }
    ∷ []

-- What a command leaves, and what it answers.
abbrev pub Done : Type 0
Done = Db × Result (List OutputColumn)

module _ (x : Externs) where
  -- Any other failure of `create_dir` is taken for that there is no folder around.
  unfoldable pub create_database : Db → String → Bool → Done
  create_database db name if_not_exists = elim (create_dir db.folders (x.join x.db_dir name)) [
    | created folders ↦ (record db { folders = folders }, ok ok_columns)
    | already_exists ↦ (db, if if_not_exists then ok ok_columns else err database_already_exists)
    | not_created ↦ (db, err invalid_database_name)
  ]

  -- The metadata is made before the entry is looked up.
  unfoldable pub create_vacant : Db → CreateTablePlan → TableMetadata → Done
  create_vacant db p metadata = elim (create_dir db.folders (get_path x p.name)) [
    | created folders ↦ (
      record db {
        table_data = (p.name, record { metadata = metadata; infos = [] }) ∷ db.table_data;
        folders = folders;
      },
      ok ok_columns,
    )
    | already_exists ↦ (db, err could_not_create_table)
    | not_created ↦ (db, err could_not_create_table)
  ]

  unfoldable pub create_entry : Db → CreateTablePlan → Result TableMetadata → Done
  unfolding create_vacant
  create_entry db p (ok metadata) = elim (lookup db.table_data p.name) [
    | some c ↦ (db, if p.if_not_exists then ok ok_columns else err table_already_exists)
    | none ↦ create_vacant db p metadata
  ]
  create_entry db p (err e) = (db, err e)
  create_entry db p panics = (db, panics)
  create_entry db p hangs = (db, hangs)

  unfoldable pub create_table : Db → CreateTablePlan → Done
  unfolding create_entry
  create_table db p = create_entry db p (
      new_metadata x.unix_time_millis
        record { columns = p.columns; order_by = p.order_by; primary_key = p.primary_key }
        p.settings)

  -- The folder and all in it are removed; where it is not there, IF EXISTS makes that no error.
  abbrev removed : Db → FolderPath → Bool → Error → Done
  removed db path if_exists missing = (
    record db { folders = or_same db.folders (remove_dir_all db.folders path) },
    elim (remove_dir_all db.folders path) [
      | some rest ↦ ok ok_columns
      | none ↦ if if_exists then ok ok_columns else err missing
    ],
  )

  -- The entry goes first, then the folder.
  unfoldable pub drop_table : Db → TableDef → Bool → Done
  drop_table db t if_exists = elim (lookup db.table_data t) [
    | none ↦ (db, if if_exists then ok ok_columns else err table_not_found)
    | some c ↦
        removed record db { table_data = remove t db.table_data } (get_path x t) if_exists
          table_not_found
  ]

  -- The entries of the database go first, then the folder that its name reaches.
  unfoldable pub drop_database : Db → String → Bool → Done
  drop_database db name if_exists =
      removed
        record db {
          table_data =
              filter (λ (e : TableDef × TableConfig). not (str_eq e.0.database name)) db.table_data;
        }
        (x.join x.db_dir name) if_exists database_not_found

module _ (k : Codec Value ArchivedValue) where
  unfoldable pub new_part :
      TableConfig → List PhysicalColumn → String → Result (List Bytes × TablePart)
  new_part c columns name = try_new c.metadata columns name >>= λ part.
      save_raw k part c.metadata.settings.index_granularity

  unfoldable pub inserted : Db → TableDef → TableConfig → Result (List Bytes × TablePart) → Done
  inserted db t c (ok saved) = (
    record db {
      table_data =
          replace t record { metadata = c.metadata; infos = c.infos ++ (saved.1.info ∷ []) }
            db.table_data;
    },
    ok ok_columns,
  )
  inserted db t c (err e) = (db, err e)
  inserted db t c panics = (db, panics)
  inserted db t c hangs = (db, hangs)

  -- `name` is the fresh UUID.
  unfoldable pub insert : Db → TableDef → List PhysicalColumn → String → Done
  unfolding new_part inserted
  insert db t columns name = elim (lookup db.table_data t) [
    | none ↦ (db, err table_not_found)
    | some c ↦ inserted db t c (new_part c columns name)
  ]

  module _ (x : Externs) (select : Db → SelectNode → Result (List OutputColumn)) where
    unfoldable pub execute_physical_plan : Db → String → PhysicalPlan → Done
    execute_physical_plan db name (PhysicalPlan.create_database n b) = create_database x db n b
    execute_physical_plan db name (PhysicalPlan.create_table p) = create_table x db p
    execute_physical_plan db name (PhysicalPlan.insert t columns) = insert db t columns name
    execute_physical_plan db name (PhysicalPlan.drop_database n b) = drop_database x db n b
    execute_physical_plan db name (PhysicalPlan.drop_table t b) = drop_table x db t b
    execute_physical_plan db name (PhysicalPlan.select node) = (db, select db node)

    schema_of : Db → TableDef → Option TableSchema
    schema_of db t = elim (lookup db.table_data t) [ none ↦ none | some c ↦ some c.metadata.schema ]

    -- `LogicalPlan::try_from`, of a statement that is parsed.
    unfoldable pub logical_plan : Db → Statement → Result LogicalPlan
    unfolding schema_of
    logical_plan db (Statement.create_database n b) = from_create_database n b
    logical_plan db (Statement.create_table c) = from_create_table x c
    logical_plan db (Statement.insert i) = from_insert x (schema_of db) i
    logical_plan db (Statement.query q) = from_query x (schema_of db) q
    logical_plan db (Statement.drop t b names) = from_drop t b names
    logical_plan db Statement.other = err unsupported_command

    -- With the load raised while the plan is carried out, and lowered after it.
    unfoldable pub loaded : Db → String → PhysicalPlan → Done
    loaded db name plan =
        let done : Done =
          execute_physical_plan record db { database_load = db.database_load + get_complexity plan }
            name plan in
        (record done.0 { database_load = done.0.database_load - get_complexity plan }, done.1)

    unfoldable pub planned : Db → String → Result PhysicalPlan → Done
    unfolding loaded
    planned db name (ok plan) = loaded db name plan
    planned db name (err e) = (db, err e)
    planned db name panics = (db, panics)
    planned db name hangs = (db, hangs)

    unfoldable pub execute_command : Db → String → Statement → Done
    unfolding planned
    execute_command db name statement =
        planned db name (logical_plan db statement >>= physical_plan)
