-- ===== src/Tests/Runs.antt =====
-- Runs of the storage, the engines, the aggregates and the commands.
use mathlib.Core.Path.{subst}
use touchhouse.Prelude.{
  true, str_eq, eq_iff, Bool-cases, inl, inr, false, none, some, List, [], ◌∷◌, ◌≡◌, refl, arith,
}
use touchhouse.Outcome.{ok, ok-eq, ◌>>=◌}
use touchhouse.Value.{Value, value_cell}
use touchhouse.Storage.Column.{projection_of}
use touchhouse.Storage.Virtual.{VirtualStorage, get_total_rows}
use touchhouse.Storage.Virtual.Scan.{loads, load_next_chunk-never_ends}
use touchhouse.Sql.Query.{Statement}
use touchhouse.Sql.Ast.{identifier}
use touchhouse.Sql.Names.{validate_name, from_drop}
use touchhouse.Sql.Plan.{PhysicalPlan, physical_plan}
use touchhouse.Storage.Table.{TableDef}
use touchhouse.Execution.Folders.{has_dir, get_path}
use touchhouse.Execution.Folders.Plain.{JoinsNames}
use touchhouse.Execution.Commands.Elsewhere.{execute_command-drops_loaded}
use touchhouse.Execution.Aggregator.Fold.{Collects, avg-Collects}
use touchhouse.Execution.Commands.{Db, lookup, logical_plan, execute_command}
use touchhouse.Execution.Commands.Steps.{IsConsistent}
use touchhouse.Execution.Commands.Consistent.{NamesDatabase, execute_command-IsConsistent}
use touchhouse.Tests.Fixtures.{metadata, externs, codec, column, col_a, table_t, schema}

abbrev chunks : List (List Value)
chunks = (Value.uint64 3 ∷ []) ∷ [] ∷ (Value.uint64 1 ∷ Value.uint64 2 ∷ []) ∷ []

avg-Collects_example :
    Collects externs value_cell []
      (record { alias = none; source = touchhouse.Sql.Plan.Projections.avg (projection_of col_a) }
        ∷ [])
      chunks
      (Value.f64 0 ∷ [])
unfolding touchhouse.Value.Display.as_f64
avg-Collects_example =
    avg-Collects externs value_cell none (projection_of col_a) chunks 3 (1 ∷ 2 ∷ []) refl

abbrev fresh : VirtualStorage
fresh = record { columns = column ∷ []; granule_idx = none; schema = schema }

abbrev rows : VirtualStorage
rows = record { columns = column ∷ []; granule_idx = some 0; schema = schema }

load_next_chunk-never_ends_example : loads 5 fresh ≡ ok (some rows)
unfolding get_total_rows
load_next_chunk-never_ends_example = load_next_chunk-never_ends (column ∷ []) schema 4 (omega arith)

abbrev table_u : TableDef
table_u = record { table = "u"; database = "e" }

-- The tables d.t and e.u, with their folders.
abbrev db : Db
db = record {
  table_data =
      (table_t, record { metadata = metadata; infos = [] })
      ∷ (table_u, record { metadata = metadata; infos = [] })
      ∷ [];
  folders =
      ("db" ∷ "d" ∷ "t" ∷ [])
      ∷ ("db" ∷ "e" ∷ "u" ∷ [])
      ∷ ("db" ∷ "d" ∷ [])
      ∷ ("db" ∷ "e" ∷ [])
      ∷ ("db" ∷ [])
      ∷ [];
  database_load = 0;
}

externs-JoinsNames : JoinsNames externs
unfolding validate_name
externs-JoinsNames p n h = elim (Bool-cases (str_eq n "d/t")) [
  | inr e ↦ rw e refl
  | inl e ↦
      let same : n ≡ "d/t" = (eq_iff n "d/t").0 e in
      let bad : validate_name "d/t" ≡ true = subst (λ m. validate_name m ≡ true) same h in cc bad
]

-- DROP DATABASE d
abbrev drop_d : Statement
drop_d = Statement.drop touchhouse.Sql.Query.database false ((identifier "d" ∷ []) ∷ [])

drop_d-NamesDatabase :
    (plan : PhysicalPlan)
    → (logical_plan codec externs (λ d n. ok []) db drop_d >>= physical_plan) ≡ ok plan
    → NamesDatabase plan
unfolding logical_plan from_drop physical_plan validate_name
drop_d-NamesDatabase plan h = subst NamesDatabase (ok-eq h) refl

execute_command-IsConsistent_example :
    IsConsistent externs (execute_command codec externs (λ d n. ok []) db "p" drop_d).0
unfolding get_path validate_name
execute_command-IsConsistent_example =
    execute_command-IsConsistent codec externs (λ d n. ok []) externs-JoinsNames db "p" drop_d
      drop_d-NamesDatabase (((refl, refl), refl, refl), (((refl, refl), refl, refl), tt))

-- DROP DATABASE "d/t"
abbrev drop_t : Statement
drop_t = Statement.drop touchhouse.Sql.Query.database false ((identifier "d/t" ∷ []) ∷ [])

execute_command-drops_loaded_example :
    (lookup (execute_command codec externs (λ d n. ok []) db "p" drop_t).0.table_data table_t
      ≡ some record { metadata = metadata; infos = [] })
    × (has_dir
          (execute_command codec externs (λ d n. ok []) db "p" drop_t).0.folders
          (get_path externs table_t)
        ≡ false)
unfolding get_path
execute_command-drops_loaded_example =
    execute_command-drops_loaded codec externs (λ d n. ok []) db "p" "d/t" false table_t
      record { metadata = metadata; infos = [] } refl refl refl
