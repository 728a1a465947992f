-- ===== src/Execution/Commands/Steps.antt =====
-- sql/execution/create.rs and drop.rs: each step leaves the loaded tables their folders.
use touchhouse.Prelude.{
  String, Bool, true, false, not, List, [], ◌∷◌, ◌&&◌, ◌≡◌, refl, sym, ap, ◌∙◌, some, filter, any,
  str_eq, eq_iff, Bool-cases, and_true, Option-cases, inl, inr, All, All-map, All-filter, any-cons,
}
use mathlib.Core.Path.{subst}
use touchhouse.Outcome.{Result, ok, err, panics, hangs}
use touchhouse.Storage.Table.{TableDef, TableMetadata, eq_table}
use touchhouse.Externs.{Externs}
use touchhouse.Sql.Names.{validate_name}
use touchhouse.Sql.Plan.{CreateTablePlan}
use touchhouse.Execution.Folders.{
  FolderPath, created, create_dir, remove_dir_all, or_same, has_dir, eq_path, get_path, parent,
}
use touchhouse.Execution.Folders.Plain.{
  JoinsNames, HasNames, Created-cases, create_dir-created, get_path_plain, parent-append,
  eq_path_self, has_dir-remove, database-database, database-table, table-database, table-table,
}
use touchhouse.Execution.Commands.{
  Db, TableConfig, lookup, remove, replace, create_database, create_vacant, create_entry,
  drop_table, drop_database,
}

pub eq_table→eq : (a b : TableDef) → eq_table a b ≡ true → a ≡ b
eq_table→eq a b h =
    let (t, d) = and_true (str_eq a.table b.table) (str_eq a.database b.database) h in
    let t' : a.table ≡ b.table = (eq_iff a.table b.table).0 t in
    let d' : a.database ≡ b.database = (eq_iff a.database b.database).0 d in
    λ i. record { table = t' i; database = d' i }

-- The table and its database have valid names, and the folders of both are there.
abbrev pub HasFolders : Externs → List FolderPath → TableDef → Type 0
HasFolders x folders t =
    HasNames t
    × (has_dir folders (x.join x.db_dir t.database) ≡ true)
    × (has_dir folders (get_path x t) ≡ true)

-- Every table that is loaded has its folders.
abbrev pub IsConsistent : Externs → Db → Type 0
IsConsistent x db = All (λ (e : TableDef × TableConfig). HasFolders x db.folders e.0) db.table_data

HasFolders-cons :
    (x : Externs) (folders : List FolderPath) (p : FolderPath) (t : TableDef)
    → HasFolders x folders t
    → HasFolders x (p ∷ folders) t
HasFolders-cons x folders p t h = (
  h.0,
  any-cons (λ q. eq_path q (x.join x.db_dir t.database)) p folders h.1,
  any-cons (λ q. eq_path q (get_path x t)) p folders h.2,
)

-- What `create_dir` makes leaves the tables their folders.
created_keeps :
    (x : Externs) (es : List (TableDef × TableConfig)) (folders out : List FolderPath)
    (p : FolderPath)
    → p ∷ folders ≡ out
    → All (λ (e : TableDef × TableConfig). HasFolders x folders e.0) es
    → All (λ (e : TableDef × TableConfig). HasFolders x out e.0) es
created_keeps x es folders out p e h =
    subst (λ fs. All (λ (e : TableDef × TableConfig). HasFolders x fs e.0) es) e
      (All-map es (λ t f. HasFolders-cons x folders p t.0 f) h)

not_both : (a b : Bool) → not a ≡ true → a ≡ true → ⊥
not_both true b h k = cc h
not_both false b h k = cc k

not_false : (b : Bool) → not b ≡ true → b ≡ false
not_false true h = cc h
not_false false h = refl

differs : (n m : String) → not (str_eq m n) ≡ true → str_eq n m ≡ false
differs n m h = elim (Bool-cases (str_eq n m)) [
  | inr e ↦ e
  | inl e ↦
      let same : n ≡ m = (eq_iff n m).0 e in
      absurd (not_both (str_eq m n) true h ((eq_iff m n).1 (sym same)))
]

tables_differ :
    (t u : TableDef)
    → not (eq_table u t) ≡ true
    → (str_eq t.database u.database && (str_eq t.table u.table && true)) ≡ false
tables_differ t u h = elim (Bool-cases (str_eq t.database u.database)) [
  | inr e ↦ rw e refl
  | inl e ↦ elim (Bool-cases (str_eq t.table u.table)) [
    | inr f ↦ rw (e, f) refl
    | inl f ↦
        let d : u.database ≡ t.database = sym ((eq_iff t.database u.database).0 e) in
        let n : u.table ≡ t.table = sym ((eq_iff t.table u.table).0 f) in
        let same : eq_table u t ≡ true =
          rw ((eq_iff u.table t.table).1 n, (eq_iff u.database t.database).1 d) refl in
        absurd (not_both (eq_table u t) true h same)
  ]
]

module _ (x : Externs) (joins : JoinsNames x) where
  pub create_database_keeps :
      (db : Db) (n : String) (b : Bool)
      → IsConsistent x db
      → IsConsistent x (create_database x db n b).0
  unfolding create_database
  create_database_keeps db n b h =
      elim (Created-cases (create_dir db.folders (x.join x.db_dir n))) [
        | inl (out, e) ↦
            rw (e, create_database)
              (created_keeps x db.table_data db.folders out _
                (create_dir-created db.folders out _ e).0 h)
        | inr (inl e) ↦ rw (e, create_database) h
        | inr (inr e) ↦ rw (e, create_database) h
      ]

  -- The folder of a table that is made, and of its database, are there.
  made_folders :
      (folders out : List FolderPath) (t : TableDef)
      → HasNames t
      → create_dir folders (get_path x t) ≡ created out
      → HasFolders x out t
  made_folders folders out t h e =
      let (same, around) = create_dir-created folders out (get_path x t) e in
      let outer : parent (get_path x t) ≡ x.join x.db_dir t.database =
        ap parent (get_path_plain x joins t h)
        ∙ parent-append x.db_dir t.database t.table
        ∙ sym (joins x.db_dir t.database h.0) in
      subst (λ fs. HasFolders x fs t) same
        (
          h,
          any-cons (λ q. eq_path q (x.join x.db_dir t.database)) (get_path x t) folders
              (subst (λ p. has_dir folders p ≡ true) outer around),
          rw (eq_path_self (get_path x t), any) refl,
        )

  create_vacant_keeps :
      (db : Db) (p : CreateTablePlan) (metadata : TableMetadata)
      → HasNames p.name
      → IsConsistent x db
      → IsConsistent x (create_vacant x db p metadata).0
  unfolding create_vacant
  create_vacant_keeps db p metadata v h =
      elim (Created-cases (create_dir db.folders (get_path x p.name))) [
        | inl (out, e) ↦
            rw (e, create_vacant)
              (
                made_folders db.folders out p.name v e,
                created_keeps x db.table_data db.folders out _
                    (create_dir-created db.folders out _ e).0 h,
              )
        | inr (inl e) ↦ rw (e, create_vacant) h
        | inr (inr e) ↦ rw (e, create_vacant) h
      ]

  pub create_entry_keeps :
      (db : Db) (p : CreateTablePlan) (r : Result TableMetadata)
      → HasNames p.name
      → IsConsistent x db
      → IsConsistent x (create_entry x db p r).0
  unfolding create_entry
  create_entry_keeps db p (ok metadata) v h = elim (Option-cases (lookup db.table_data p.name)) [
    | inr c ↦ rw (c.1, create_entry) h
    | inl e ↦ rw (e, create_entry) (create_vacant_keeps db p metadata v h)
  ]
  create_entry_keeps db p (err e) v h = h
  create_entry_keeps db p panics v h = h
  create_entry_keeps db p hangs v h = h

  -- A table that is loaded has valid names.
  looked_up-HasNames :
      (folders : List FolderPath) (es : List (TableDef × TableConfig)) (t : TableDef)
      (c : TableConfig)
      → lookup es t ≡ some c
      → All (λ (e : TableDef × TableConfig). HasFolders x folders e.0) es
      → HasNames t
  looked_up-HasNames folders [] t c e h = cc e
  looked_up-HasNames folders (u ∷ es) t c e h = elim (Bool-cases (eq_table u.0 t)) [
    | inl f ↦ subst HasNames (eq_table→eq u.0 t f) h.0.0
    | inr f ↦ looked_up-HasNames folders es t c (rw f at e) h.1
  ]

  -- The tables other than `t` keep their folders where that of `t` goes.
  other_tables :
      (folders : List FolderPath) (t u : TableDef)
      → HasNames t
      → HasFolders x folders u
      → not (eq_table u t) ≡ true
      → HasFolders x (or_same folders (remove_dir_all folders (get_path x t))) u
  other_tables folders t u v h n = (
    h.0,
    has_dir-remove folders (get_path x t) _ h.1 (table-database x joins t u.database v h.0.0),
    has_dir-remove folders (get_path x t) _ h.2
        (table-table x joins t u v h.0 ∙ tables_differ t u n),
  )

  pub drop_table_keeps :
      (db : Db) (t : TableDef) (b : Bool)
      → IsConsistent x db
      → IsConsistent x (drop_table x db t b).0
  unfolding drop_table
  drop_table_keeps db t b h = elim (Option-cases (lookup db.table_data t)) [
    | inl e ↦ rw (e, drop_table) h
    | inr (c, e) ↦
        rw (e, drop_table)
          (All-map (remove t db.table_data)
            (λ u g.
              other_tables db.folders t u.0 (looked_up-HasNames db.folders db.table_data t c e h)
                g.0 g.1)
            (All-filter (λ (e : TableDef × TableConfig). HasFolders x db.folders e.0)
              (λ e. not (eq_table e.0 t)) db.table_data h))
  ]

  other_databases :
      (folders : List FolderPath) (n : String) (u : TableDef)
      → validate_name n ≡ true
      → HasFolders x folders u
      → not (str_eq u.database n) ≡ true
      → HasFolders x (or_same folders (remove_dir_all folders (x.join x.db_dir n))) u
  other_databases folders n u v h k = (
    h.0,
    has_dir-remove folders (x.join x.db_dir n) _ h.1
        (database-database x joins n u.database v h.0.0 ∙ differs n u.database k),
    has_dir-remove folders (x.join x.db_dir n) _ h.2
        (database-table x joins n u v h.0 ∙ differs n u.database k),
  )

  pub drop_database_keeps :
      (db : Db) (n : String) (b : Bool)
      → validate_name n ≡ true
      → IsConsistent x db
      → IsConsistent x (drop_database x db n b).0
  unfolding drop_database
  drop_database_keeps db n b v h =
      All-map (filter (λ (e : TableDef × TableConfig). not (str_eq e.0.database n)) db.table_data)
        (λ u g. other_databases db.folders n u.0 v g.0 g.1)
        (All-filter (λ (e : TableDef × TableConfig). HasFolders x db.folders e.0)
          (λ e. not (str_eq e.0.database n)) db.table_data h)

pub replace_keeps :
    (x : Externs) (folders : List FolderPath) (t : TableDef) (c : TableConfig)
    (es : List (TableDef × TableConfig))
    → All (λ (e : TableDef × TableConfig). HasFolders x folders e.0) es
    → All (λ (e : TableDef × TableConfig). HasFolders x folders e.0) (replace t c es)
replace_keeps x folders t c [] h = tt
replace_keeps x folders t c (e ∷ es) h = elim (Bool-cases (eq_table e.0 t)) [
  | inl f ↦ rw (f, replace) (h.0, h.1)
  | inr f ↦ rw (f, replace) (h.0, replace_keeps x folders t c es h.1)
]
