-- ===== src/Execution/Scan/Kept.antt =====
-- sql/execution/select/mod.rs: what SELECT of all columns of a table, with a WHERE or none, keeps of
-- its parts.
use touchhouse.Prelude.{
  ℕ, ◌≡◌, Bool, Option, none, some, List, [], ◌∷◌, map, get_elem?, position, str_eq,
}
use touchhouse.Externs.{Externs}
use touchhouse.Value.Archived.{ArchivedValue, archive, archived_cell}
use touchhouse.Storage.Column.{ColumnDef, PhysicalColumn, Projection, projection_of}
use touchhouse.Storage.Table.{TableSchema}
use touchhouse.Storage.Part.{TablePart, TablePartInfo}
use touchhouse.Storage.Native.Walk.{PartItems, all_items}
use touchhouse.Storage.Native.Saved.{granule_at}
use touchhouse.Sql.Ast.{Expr}
use touchhouse.Sql.Filter.Mask.{cell, keep_rows, count}
use touchhouse.Sql.Filter.Reading.{eval}
use touchhouse.Execution.Scan.Whole.{Kept}
use touchhouse.Execution.Scan.Granules.{size_at}

-- The cells of each column in the g-th granule.
abbrev pub cells_of : ℕ → List PhysicalColumn → ℕ → List (List ArchivedValue)
cells_of granularity cs g =
    map (λ (c : PhysicalColumn). map archive (granule_at granularity g c)) cs

-- The columns of a granule without the rows of which the condition is not true.
abbrev pub holds_at : Externs → List ColumnDef → Expr → List (List ArchivedValue) → ℕ → Bool
holds_at x defs e cols i = eval ⦃t = archived_cell⦄ x defs e (cell cols i)

abbrev pub where_of :
    Externs → List ColumnDef → Option Expr → List (List ArchivedValue) → List (List ArchivedValue)
where_of x defs none cols = cols
where_of x defs (some e) cols = map (keep_rows (holds_at x defs e cols)) cols

abbrev pub rows_where : Externs → List ColumnDef → Option Expr → List (List ArchivedValue) → ℕ → ℕ
rows_where x defs none cols n = n
rows_where x defs (some e) cols n = count n (holds_at x defs e cols)

-- Each name stands for one column.
abbrev pub HasNames : TableSchema → Type 0
HasNames schema =
    (i : ℕ) (d : ColumnDef)
    → get_elem? schema.columns i ≡ some d
    → position (λ (q : ColumnDef). str_eq q.name d.name) schema.columns ≡ some i

abbrev pub all_columns : TableSchema → List Projection
all_columns schema = map projection_of schema.columns

-- The parts' descriptions.
abbrev pub infos_in : List TablePart → List TablePartInfo
infos_in [] = []
infos_in (p ∷ ps) = p.info ∷ infos_in ps

module _ (x : Externs) (granularity : ℕ) (schema : TableSchema) where
  -- What is kept of a granule.
  abbrev pub kept_of : Option Expr → TablePart → ℕ → Kept ArchivedValue
  kept_of e part g = record {
    cols = where_of x schema.columns e (cells_of granularity part.data_of g);
    rows =
        rows_where x schema.columns e (cells_of granularity part.data_of g)
          (size_at granularity part.info.row_count g);
    read = size_at granularity part.info.row_count g;
  }

  abbrev pub kept_items : Option Expr → List TablePart → List (PartItems (Kept ArchivedValue))
  kept_items e [] = []
  kept_items e (p ∷ ps) = record { info = p.info; item = kept_of e p } ∷ kept_items e ps

  abbrev pub kept_all : Option Expr → List TablePart → List (Kept ArchivedValue)
  kept_all e parts = all_items (kept_items e parts)
