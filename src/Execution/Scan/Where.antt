-- ===== src/Execution/Scan/Where.antt =====
-- sql/execution/select/mod.rs: SELECT of all columns of a table, with a WHERE or none.
use touchhouse.Prelude.{
  ℕ, zero, suc, ◌+◌, ◌<◌, ◌≡◌, refl, ap, ◌∙◌, String, Option, none, some, List, [], ◌∷◌, ◌++◌,
  length, length-append, length-map, All, arith,
}
use mathlib.Core.Path.{subst}
use touchhouse.Outcome.{ok, >>=-ok}
use touchhouse.Externs.{Externs, Codec}
use touchhouse.Value.{Value}
use touchhouse.Value.Archived.{ArchivedValue, archived_cell}
use touchhouse.Storage.Column.{projection_of}
use touchhouse.Storage.Table.{TableDef, TableSchema}
use touchhouse.Storage.Part.{Bytes, TablePart, TablePartInfo}
use touchhouse.Storage.Native.{NativeStorage, native_storage, open_table, sum_rows}
use touchhouse.Storage.Native.Walk.{AreApart, infos_of, items_from, at, walk}
use touchhouse.Storage.Native.Scan.{total_marks}
use touchhouse.Sql.Ast.{Expr}
use touchhouse.Sql.Filter.{CompiledFilter}
use touchhouse.Sql.Plan.{ScanSource, no_fields, select_node}
use touchhouse.Execution.Scan.{select, compile_option}
use touchhouse.Execution.Scan.Whole.{
  Kept, IsChunk, sum_read, gathered, no_rows, outputs, scan_chunks,
}
use touchhouse.Execution.Scan.Granules.{size_at, sum, sum-size_at}
use touchhouse.Execution.Scan.Kept.{HasNames, all_columns, kept_of, kept_items, kept_all, infos_in}
use touchhouse.Execution.Scan.Stored.{
  IsStored, kept-IsChunk, Shown, IsKept, nothing_left, one_kept, all-Gives,
}

module _ (x : Externs) (k : Codec Value ArchivedValue) (disk : String → String → Option Bytes)
    (granularity : ℕ) (schema : TableSchema) (e : Option Expr) where
  infos-kept :
      (parts : List TablePart) → infos_in parts ≡ infos_of (kept_items x granularity schema e parts)
  infos-kept [] = refl
  infos-kept (p ∷ ps) = ap (λ l. p.info ∷ l) (infos-kept ps)

  items-All :
      (P : Kept ArchivedValue → Type 0) (item : ℕ → Kept ArchivedValue)
      (rest : List (Kept ArchivedValue)) (g n : ℕ)
      → ((i : ℕ) → i < n → P (item (g + i)))
      → All P rest
      → All P (items_from item g n ++ rest)
  items-All P item rest g zero at h = h
  items-All P item rest g (suc n) at h =
      let start : g + 0 ≡ g = omega arith in
      (
        subst (λ i. P (item i)) start (at 0 (omega arith)),
        items-All P item rest (g + 1) n
            (λ i lt.
              let next : g + suc i ≡ g + 1 + i = omega arith in
              subst (λ i. P (item i)) next (at (suc i) (omega (arith, lt))))
            h,
      )

  kept_all-IsChunk :
      (parts : List TablePart)
      → 0 < granularity
      → All (IsStored x k disk granularity schema) parts
      → All (IsChunk (all_columns schema)) (kept_all x granularity schema e parts)
  kept_all-IsChunk [] pos h = tt
  kept_all-IsChunk (p ∷ ps) pos h =
      items-All (IsChunk (all_columns schema)) (kept_of x granularity schema e p)
        (kept_all x granularity schema e ps) 0 (length p.info.marks)
        (λ i lt.
          let start : i ≡ 0 + i = omega arith in
          subst (λ i. IsChunk (all_columns schema) (kept_of x granularity schema e p i)) start
            (kept-IsChunk x k disk granularity schema e p i h.0 pos lt))
        (kept_all-IsChunk ps pos h.1)

  length-items : (item : ℕ → Kept ArchivedValue) (g n : ℕ) → length (items_from item g n) ≡ n
  length-items item g zero = refl
  length-items item g (suc n) = ap suc (length-items item (g + 1) n)

  length-kept_all :
      (parts : List TablePart)
      → length (kept_all x granularity schema e parts) ≡ total_marks (infos_in parts)
  length-kept_all [] = refl
  length-kept_all (p ∷ ps) =
      let item = kept_of x granularity schema e p in
      omega (
        arith,
        length-append (items_from item 0 (length p.info.marks))
            (kept_all x granularity schema e ps),
        length-items item 0 (length p.info.marks),
        length-kept_all ps,
      )

  sum_read-append : (a b : List (Kept ArchivedValue)) → sum_read (a ++ b) ≡ sum_read a + sum_read b
  sum_read-append [] b = omega arith
  sum_read-append (c ∷ a) b = omega (arith, sum_read-append a b)

  sum_read-items :
      (p : TablePart) (g n : ℕ)
      → sum_read (items_from (kept_of x granularity schema e p) g n)
        ≡ sum (items_from (size_at granularity p.info.row_count) g n)
  sum_read-items p g zero = refl
  sum_read-items p g (suc n) =
      ap (λ m. size_at granularity p.info.row_count g + m) (sum_read-items p (g + 1) n)

  -- The granules have the rows that the parts count.
  sum_read-kept_all :
      (parts : List TablePart)
      → 0 < granularity
      → All (IsStored x k disk granularity schema) parts
      → sum_read (kept_all x granularity schema e parts) ≡ sum_rows (infos_in parts)
  sum_read-kept_all [] pos h = refl
  sum_read-kept_all (p ∷ ps) pos h =
      let item = kept_of x granularity schema e p in
      let n = p.info.row_count in
      let own : sum_read (items_from item 0 (length p.info.marks)) ≡ n =
        sum_read-items p 0 (length p.info.marks)
        ∙ ap (λ m. sum (items_from (size_at granularity n) 0 m)) h.0.marked
        ∙ sum-size_at granularity n pos in
      omega (
        arith,
        own,
        sum_read-append (items_from item 0 (length p.info.marks))
            (kept_all x granularity schema e ps),
        sum_read-kept_all ps pos h.1,
      )

-- A SELECT of all columns of a table, with a WHERE that compiles or with none, and no other
-- clause, succeeds and returns in each column, part by part and granule by granule, the values of
-- the rows of which the plain reading of the WHERE is true, in their order. This is for a table
-- with a column, whose columns have different names, and whose parts are served from the disk as
-- they were saved, each with the columns of the table, one mark for each granule and as many rows
-- as it says, and the first that equals it; for a granularity that is not 0, and one more call of
-- `load_next_chunk` allowed than there are marks.
pub select-kept_all :
    (x : Externs) (k : Codec Value ArchivedValue)
    (tables : TableDef → Option (TableSchema × List TablePartInfo))
    (disk : TableDef → String → String → Option Bytes) (fuel granularity : ℕ) (d : TableDef)
    (schema : TableSchema) (e : Option Expr) (f : Option CompiledFilter) (parts : List TablePart)
    → tables d ≡ some (schema, infos_in parts)
    → compile_option x schema.columns e ≡ ok f
    → 0 < length schema.columns
    → HasNames schema
    → All (IsStored x k (disk d) granularity schema) parts
    → AreApart (infos_in parts)
    → 0 < granularity
    → total_marks (infos_in parts) < fuel
    → select x k tables disk fuel (
        select_node
          (ScanSource.table d)
          record no_fields { columns = all_columns schema; filter = e })
      ≡ ok (
          outputs (all_columns schema) (
            gathered archived_cell.view
              (no_rows (all_columns schema))
              (kept_all x granularity schema e parts)))
unfolding select open_table
select-kept_all x k tables disk fuel granularity d schema e f parts here compiled some_columns names
      stored apart pos lt =
    let infos = infos_in parts in
    let kept = kept_all x granularity schema e parts in
    let s : NativeStorage = record { schema = schema; infos = infos; loaded_chunk = none } in
    let shown : Shown x k (disk d) granularity schema e f infos s kept =
      walk x k (disk d) (Shown x k (disk d) granularity schema e f infos)
        (IsKept x k (disk d) granularity schema e f infos)
        (nothing_left x k (disk d) granularity schema e f infos)
        (one_kept x k (disk d) granularity schema e f infos) schema infos
        (kept_items x granularity schema e parts)
        (infos-kept x k (disk d) granularity schema e parts)
        (all-Gives x k (disk d) granularity schema e f infos parts names compiled some_columns
          stored)
        apart in
    let rounds = length-kept_all x k (disk d) granularity schema e parts in
    let rows = sum_read-kept_all x k (disk d) granularity schema e parts pos stored in
    let wide = length-map projection_of schema.columns in
    >>=-ok (open_table x k (disk d) (tables d)) _ (ap (open_table x k (disk d)) here) (
      scan_chunks x (native_storage x k (disk d)) archived_cell fuel s (all_columns schema) e f kept
        compiled shown (omega (arith, wide, some_columns))
        (kept_all-IsChunk x k (disk d) granularity schema e parts pos stored)
        (omega (arith, rounds, lt)) (omega (arith, rows)))
