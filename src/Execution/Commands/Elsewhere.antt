-- ===== src/Execution/Commands/Elsewhere.antt =====
-- sql/execution/drop.rs: DROP DATABASE removes the folder that its name reaches, and the name is not
-- validated.
use touchhouse.Prelude.{
  String, Bool, true, false, not, List, [], ◌∷◌, ◌≡◌, sym, some, filter, str_eq, Bool-cases, inl,
  inr,
}
use mathlib.Core.Path.{subst}
use touchhouse.Outcome.{Result}
use touchhouse.Externs.{Externs, Codec}
use touchhouse.Value.{Value}
use touchhouse.Value.Archived.{ArchivedValue}
use touchhouse.Storage.Table.{TableDef, eq_table}
use touchhouse.Storage.Column.{OutputColumn}
use touchhouse.Sql.Ast.{identifier}
use touchhouse.Sql.Query.{Statement}
use touchhouse.Sql.Names.{from_drop}
use touchhouse.Sql.Plan.{SelectNode, physical_plan}
use touchhouse.Execution.Folders.{has_dir, get_path}
use touchhouse.Execution.Folders.Plain.{has_dir-removed}
use touchhouse.Execution.Commands.{
  Db, TableConfig, lookup, drop_database, logical_plan, execute_physical_plan, execute_command,
}
use touchhouse.Execution.Commands.Steps.{eq_table→eq}

lookup-filter :
    (es : List (TableDef × TableConfig)) (n : String) (t : TableDef) (c : TableConfig)
    → lookup es t ≡ some c
    → not (str_eq t.database n) ≡ true
    → lookup (filter (λ (e : TableDef × TableConfig). not (str_eq e.0.database n)) es) t ≡ some c
lookup-filter [] n t c h d = cc h
lookup-filter (e ∷ es) n t c h d = elim (Bool-cases (eq_table e.0 t)) [
  | inl f ↦
      let stays : not (str_eq e.0.database n) ≡ true =
        subst (λ (u : TableDef). not (str_eq u.database n) ≡ true) (sym (eq_table→eq e.0 t f)) d in
      rw (stays, filter, f, lookup) (rw f at h)
  | inr f ↦
      let rest = lookup-filter es n t c (rw f at h) d in
      elim (Bool-cases (not (str_eq e.0.database n))) [
        | inl g ↦ rw (g, filter, f, lookup) rest
        | inr g ↦ rw (g, filter) rest
      ]
]

module _ (k : Codec Value ArchivedValue) (x : Externs)
    (select : Db → SelectNode → Result (List OutputColumn)) where
  -- A DROP DATABASE whose name reaches, joined to the database's folder, the folder of a loaded
  -- table, and is not the name of this table's database, removes that folder and leaves the table
  -- loaded.
  pub execute_command-drops_loaded :
      (db : Db) (name n : String) (if_exists : Bool) (t : TableDef) (c : TableConfig)
      → lookup db.table_data t ≡ some c
      → x.join x.db_dir n ≡ get_path x t
      → not (str_eq t.database n) ≡ true
      → (lookup
            (execute_command k x select db name (
              Statement.drop touchhouse.Sql.Query.database if_exists
                ((identifier n ∷ []) ∷ []))).0.table_data
            t
          ≡ some c)
        × (has_dir
              (execute_command k x select db name (
                Statement.drop touchhouse.Sql.Query.database if_exists
                  ((identifier n ∷ []) ∷ []))).0.folders
              (get_path x t)
            ≡ false)
  unfolding execute_command logical_plan from_drop physical_plan execute_physical_plan drop_database
  execute_command-drops_loaded db name n if_exists t c h e d =
      (lookup-filter db.table_data n t c h d, rw e (has_dir-removed db.folders (get_path x t)))
