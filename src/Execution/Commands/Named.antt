-- ===== src/Execution/Commands/Named.antt =====
-- sql/logical_plan: the table that a CREATE TABLE makes has a valid name.
use touchhouse.Prelude.{◌≡◌, Bool, Bool-cases, Option, List, [], ◌∷◌, true, inl, inr, map}
use mathlib.Core.Path.{subst}
use touchhouse.Outcome.{Result, ok, ◌>>=◌, >>=-eq-ok, ok-eq, ok_or, table_not_found}
use touchhouse.Externs.{Externs, Codec}
use touchhouse.Value.{Value}
use touchhouse.Value.Archived.{ArchivedValue}
use touchhouse.Storage.Column.{OutputColumn, PhysicalColumn, empty_column}
use touchhouse.Storage.Table.{TableDef, TableSchema, table_of}
use touchhouse.Sql.Ast.{ObjectName, identifier, function}
use touchhouse.Sql.Query.{Statement, Insert, Query, ObjectType, table, database, other}
use touchhouse.Sql.Names.{validate_name, from_create_database, from_drop, drop_named}
use touchhouse.Sql.Plan.{
  LogicalPlan, PhysicalPlan, CreateTablePlan, SelectNode, physical_plan, select_node_of, collect,
}
use touchhouse.Sql.Insert.{
  names_of, from_insert, extract_table_def, validate_no_duplicate_columns, resolve_insert_columns,
  validate_required_columns, extract_values_source, validate_and_populate_columns,
}
use touchhouse.Sql.Select.{from_query}
use touchhouse.Sql.Select.Physical.{query_collected}
use touchhouse.Sql.CreateTable.Keys.{from_create_table-IsWellFormed}
use touchhouse.Execution.Commands.{Db, logical_plan}

create_table_back :
    (plan : LogicalPlan) (p : CreateTablePlan)
    → physical_plan plan ≡ ok (PhysicalPlan.create_table p)
    → plan ≡ LogicalPlan.create_table p
unfolding physical_plan
create_table_back (LogicalPlan.create_database n b) p h = cc h
create_table_back (LogicalPlan.create_table c) p h = cc h
create_table_back (LogicalPlan.insert t c) p h = cc h
create_table_back (LogicalPlan.drop_database n b) p h = cc h
create_table_back (LogicalPlan.drop_table t b) p h = cc h
create_table_back plan p h =
    let (node, _, h1) = >>=-eq-ok (select_node_of plan) _ h in cc (ok-eq h1)

-- What is no CREATE TABLE makes no plan of one.
abbrev Other : Result LogicalPlan → Type 0
Other r = (p : CreateTablePlan) → r ≡ ok (LogicalPlan.create_table p) → ⊥

create_database-Other : (names : ObjectName) (b : Bool) → Other (from_create_database names b)
unfolding from_create_database
create_database-Other [] b p h = cc h
create_database-Other (function ∷ names) b p h = cc h
create_database-Other (identifier n ∷ []) b p h = elim (Bool-cases (validate_name n)) [
  | inl e ↦ cc (rw e at h)
  | inr e ↦ cc (rw e at h)
]
create_database-Other (identifier n ∷ a ∷ names) b p h = cc h

drop_named-Other : (names : ObjectName) (b : Bool) → Other (drop_named names b)
unfolding drop_named
drop_named-Other [] b p h = cc h
drop_named-Other (identifier n ∷ []) b p h = cc h
drop_named-Other (function ∷ []) b p h = cc h
drop_named-Other (identifier n ∷ a ∷ names) b p h = cc h
drop_named-Other (function ∷ a ∷ names) b p h = cc h

drop-Other : (t : ObjectType) (b : Bool) (names : List ObjectName) → Other (from_drop t b names)
unfolding from_drop
drop-Other table b [] p h = cc h
drop-Other table b (n ∷ []) p h = let (t, _, h1) = >>=-eq-ok (table_of n) _ h in cc (ok-eq h1)
drop-Other table b (n ∷ m ∷ names) p h = cc h
drop-Other database b [] p h = cc h
drop-Other database b (n ∷ []) p h = drop_named-Other n b p h
drop-Other database b (n ∷ m ∷ names) p h = cc h
drop-Other other b names p h = cc h

not_insert :
    (t : TableDef) (columns : List PhysicalColumn) → Other (ok (LogicalPlan.insert t columns))
not_insert t columns p h = cc (ok-eq h)

insert-Other :
    (x : Externs) (tables : TableDef → Option TableSchema) (i : Insert)
    → Other (from_insert x tables i)
unfolding from_insert
insert-Other x tables i p h =
    let (_, _, h1) = >>=-eq-ok (extract_table_def i.table) _ h in
    let (schema, _, h2) = >>=-eq-ok (ok_or (tables _) table_not_found) _ h1 in
    let (_, _, h3) = >>=-eq-ok (validate_no_duplicate_columns i.columns) _ h2 in
    let (columns, _, h4) = >>=-eq-ok (resolve_insert_columns i.columns schema) _ h3 in
    let (_, _, h5) = >>=-eq-ok (validate_required_columns (names_of columns) schema) _ h4 in
    let (rows, _, h6) = >>=-eq-ok (extract_values_source i.source) _ h5 in
    let (_, _, h7) =
      >>=-eq-ok (validate_and_populate_columns x (map empty_column columns) rows) _ h6 in
    not_insert _ _ p h7

query-Other :
    (x : Externs) (tables : TableDef → Option TableSchema) (q : Query)
    → Other (from_query x tables q)
unfolding select_node_of collect
query-Other x tables q p h =
    let (n, e) = query_collected x tables q (LogicalPlan.create_table p) h in cc e

module _ (k : Codec Value ArchivedValue) (x : Externs)
    (select : Db → SelectNode → Result (List OutputColumn)) where
  named :
      (db : Db) (statement : Statement) (p : CreateTablePlan)
      → logical_plan k x select db statement ≡ ok (LogicalPlan.create_table p)
      → validate_name p.name.table ≡ true
  unfolding logical_plan
  named db (Statement.create_database n b) p h = absurd (create_database-Other n b p h)
  named db (Statement.create_table c) p h = (from_create_table-IsWellFormed x c p h).0
  named db (Statement.insert i) p h = absurd (insert-Other x _ i p h)
  named db (Statement.query q) p h = absurd (query-Other x _ q p h)
  named db (Statement.drop t b names) p h = absurd (drop-Other t b names p h)
  named db Statement.other p h = cc h

  -- The table of the plan of a CREATE TABLE has a valid name.
  pub planned-named :
      (db : Db) (statement : Statement) (p : CreateTablePlan)
      → (logical_plan k x select db statement >>= physical_plan) ≡ ok (PhysicalPlan.create_table p)
      → validate_name p.name.table ≡ true
  planned-named db statement p h =
      let (plan, e, h1) = >>=-eq-ok (logical_plan k x select db statement) physical_plan h in
      named db statement p
        (subst (λ l. logical_plan k x select db statement ≡ ok l) (create_table_back plan p h1) e)
