-- ===== src/Storage/Virtual.antt =====
-- storage/tables/virtual.rs: `VirtualStorage`, which scans the columns of a subquery.
pub mod Scan
use touchhouse.Prelude.{
  ℕ, zero, suc, ◌+◌, ◌-◌, ◌*◌, Bool, true, false, not, ◌&&◌, Option, none, some, List, [], map,
  length, get_elem?, position, take, drop, ltb, leb, ◌==◌, div_ceil, if◌then◌else◌,
}
use touchhouse.Outcome.{Result, ok, err, panics, ◌>>=◌, ok_or, index, internal}
use touchhouse.Externs.{Externs}
use touchhouse.Value.{Value}
use touchhouse.Value.Display.{show_projection}
use touchhouse.Storage.Column.{
  ColumnDef, OutputColumn, Projection, eq_projection, default_constraints,
}
use touchhouse.Storage.Table.{TableSchema, standard_granularity}
use touchhouse.Storage.Read.{StorageRead}
use touchhouse.Sql.Plan.Projections.{get_field_type}

pub record VirtualStorage : Type 0 where
  pub columns : List OutputColumn
  pub granule_idx : Option ℕ
  pub schema : TableSchema

unfoldable pub proj_to_col_def : Externs → Projection → ColumnDef
proj_to_col_def x proj = record {
  name = show_projection x proj;
  field_type = get_field_type proj.source;
  constraints = default_constraints;
}

-- `VirtualStorage::from(columns)`
unfoldable pub virtual_of : Externs → List OutputColumn → VirtualStorage
virtual_of x columns =
    let defs : List ColumnDef = map (λ (c : OutputColumn). proj_to_col_def x c.proj) columns in
    record {
      columns = columns;
      granule_idx = none;
      schema = record { columns = defs; order_by = defs; primary_key = defs };
    }

rows_of : Option OutputColumn → ℕ
rows_of none = 0
rows_of (some c) = length c.data_of

unfoldable pub get_total_rows : VirtualStorage → ℕ
unfolding rows_of
get_total_rows s = rows_of (get_elem? s.columns 0)

-- The next granule where there is one; else, unless there are no rows at all, the first one.
pub next_granule : Option ℕ → ℕ → Option ℕ
next_granule none count = if count == 0 then none else some 0
next_granule (some i) count =
    if ltb (i + 1) count then some (i + 1) else if count == 0 then none else some 0

unfoldable pub load_next_chunk : VirtualStorage → Result (Option VirtualStorage)
unfolding next_granule
load_next_chunk s =
    ok (elim (next_granule s.granule_idx (div_ceil (get_total_rows s) standard_granularity)) [
      | none ↦ none
      | some i ↦ some record s { granule_idx = some i }
    ])

-- `data[start..stop]`: a slice past the end panics.
abbrev pub slice {ℓ} : {A : Type ℓ} → ℕ → ℕ → List A → Result (List A)
slice start stop l = if leb stop (length l) then ok (take (stop - start) (drop start l)) else panics

unfoldable pub access_chunk_column : VirtualStorage → Projection → Result (List Value)
access_chunk_column s proj = do
  i ← ok_or s.granule_idx internal
  c ← ok_or (position (λ (c : OutputColumn). eq_projection c.proj proj) s.columns) internal
  col ← index (get_elem? s.columns c)
  slice (i * standard_granularity) ((i + 1) * standard_granularity) col.data_of

abbrev pub virtual_storage : StorageRead VirtualStorage Value
virtual_storage = record {
  get_total_rows = get_total_rows;
  get_schema = λ s. s.schema;
  load_next_chunk = load_next_chunk;
  access_chunk_column = access_chunk_column;
}
