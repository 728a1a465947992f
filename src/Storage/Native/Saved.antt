-- ===== src/Storage/Native/Saved.antt =====
-- storage/table_part.rs and storage/tables/native.rs: a part that is saved, as a scan reads it.
use touchhouse.Prelude.{
  ℕ, ◌<◌, ◌≤◌, ◌^◌, ◌≡◌, refl, sym, ap, ◌∙◌, String, Option, none, some, List, [], ◌∷◌, ◌++◌, map,
  length, get_elem?, All, All-map, arith,
}
use mathlib.Core.Path.{subst}
use touchhouse.Outcome.{ok, >>=-eq-ok, ok-eq, traverse}
use touchhouse.Externs.{Externs, Codec}
use touchhouse.Value.{Value}
use touchhouse.Value.Archived.{ArchivedValue, archive}
use touchhouse.Storage.Column.{ColumnDef, PhysicalColumn, lz4}
use touchhouse.Storage.Part.{
  Bytes, Mark, MarkInfo, TablePart, TablePartInfo, granules, write_column_with_marks, save_columns,
  save_raw, try_new, validate_mmap,
}
use touchhouse.Storage.Part.Granules.{RoundTrips, validate_mmap-write_column_with_marks}
use touchhouse.Storage.Table.{TableMetadata}
use touchhouse.Storage.Part.Columns.{
  some_elem, All-at, columns_marked, length-save_columns, ReadsAll,
}
use touchhouse.Storage.Part.Marks.{IsRegular, try_new-IsNew}
use touchhouse.Storage.Native.{open_column, chunk_bytes_of}
use touchhouse.Storage.Native.Walk.{IsReadable}

-- The rows of a column's g-th granule.
abbrev pub granule_at : ℕ → ℕ → PhysicalColumn → List Value
granule_at granularity g c = elim (get_elem? (granules granularity c.data_of) g) [
  | none ↦ []
  | some rows ↦ rows
]

abbrev pub definitions : List PhysicalColumn → List ColumnDef
definitions cs = map (λ (c : PhysicalColumn). c.column_def) cs

-- The columns are compressed as the definitions that CREATE TABLE makes are.
abbrev pub Compressed : List PhysicalColumn → Type 0
Compressed cs = All (λ (c : PhysicalColumn). c.column_def.constraints.compression_type ≡ lz4 3) cs

module _ (x : Externs) (k : Codec Value ArchivedValue) (disk : String → String → Option Bytes) where
  -- The directory of a part holds the files of its columns, each with bytes between the magic
  -- bytes and the checksum.
  abbrev pub OnDisk : String → List PhysicalColumn → List Bytes → Type 0
  OnDisk name [] [] = Unit
  OnDisk name (c ∷ cs) (f ∷ fs) =
      ((disk name c.column_def.name ≡ some f) × (10 < length f)) × OnDisk name cs fs
  OnDisk _ _ _ = ⊥

  granule_served :
      (law : RoundTrips k) (granularity g : ℕ) (cs : List PhysicalColumn) (fs : List Bytes)
      (is : List MarkInfo)
      → Compressed cs
      → ReadsAll k law granularity g cs fs is
      → (out : List Bytes) × (chunk_bytes_of x k disk (definitions cs) fs is ≡ ok out)
        × (map k.access out ≡ map (λ c. map archive (granule_at granularity g c)) cs)
  unfolding chunk_bytes_of
  granule_served law granularity g [] [] [] z r = ([], refl, refl)
  granule_served law granularity g [] [] (i ∷ is) z r = elim r [ ]
  granule_served law granularity g [] (f ∷ fs) is z r = elim r [ ]
  granule_served law granularity g (c ∷ cs) [] is z r = elim r [ ]
  granule_served law granularity g (c ∷ cs) (f ∷ fs) [] z r = elim r [ ]
  granule_served law granularity g (c ∷ cs) (f ∷ fs) (i ∷ is) z r =
      let ((rows, at, (b, eb, back)), more) = r in
      let (out, eo, all) = granule_served law granularity g cs fs is z.1 more in
      let head : map archive (granule_at granularity g c) ≡ map archive rows =
        ap (λ (o : Option (List Value)). map archive (elim o [ none ↦ [] | some rs ↦ rs ])) at in
      (
        b ∷ out,
        rw (z.0, eb, eo) refl,
        ap (λ h. h ∷ map k.access out) (back ∙ sym head)
            ∙ ap (λ t. map archive (granule_at granularity g c) ∷ t) all,
      )

  files_open :
      (law : RoundTrips k) (granularity : ℕ) (part : TablePartInfo) (cs : List PhysicalColumn)
      (marks : List Mark) (fs : List Bytes) (marks' : List Mark)
      → ((b : Bytes) → k.crc32 b < 2 ^ 32)
      → save_columns k cs granularity marks ≡ ok (fs, marks')
      → OnDisk part.name cs fs
      → traverse (open_column x k disk part) (definitions cs) ≡ ok fs
  unfolding save_columns open_column
  files_open law granularity part [] marks [] marks' small h d = refl
  files_open law granularity part [] marks (f ∷ fs) marks' small h d = elim d [ ]
  files_open law granularity part (c ∷ cs) marks [] marks' small h d = elim d [ ]
  files_open law granularity part (c ∷ cs) marks (f ∷ fs) marks' small h d =
      let (w, ew, h1) = >>=-eq-ok (write_column_with_marks k c.data_of granularity marks) _ h in
      let (r, er, h2) = >>=-eq-ok (save_columns k cs granularity w.1) _ h1 in
      let e : (w.0 ∷ r.0, r.1) ≡ (f ∷ fs, marks') = ok-eq h2 in
      let ef : w.0 ≡ f = cc e in
      let efs : (r.0, r.1) ≡ (fs, marks') = cc e in
      let valid : validate_mmap k f ≡ ok tt =
        subst (λ z. validate_mmap k z ≡ ok tt) ef
          (validate_mmap-write_column_with_marks k law c.data_of granularity marks w.0 w.1 small ew
            (rw ef d.0.1)) in
      let opened : traverse (open_column x k disk part) (definitions cs) ≡ ok fs =
        files_open law granularity part cs w.1 fs marks' small
          (er ∙ ap (λ (q : List Bytes × List Mark). ok q) efs) d.1 in
      rw (d.0.0, valid, opened) refl

  -- Each granule of the columns is read back, by the scan, from the files and the marks of a part.
  abbrev pub Served : ℕ → List PhysicalColumn → TablePartInfo → Type 0
  Served granularity cs info =
      (h : IsReadable x k disk info) × ((g : ℕ)
        → g < length info.marks
        → (mark : Mark) × (bytes : List Bytes) × (get_elem? info.marks g ≡ some mark)
          × (chunk_bytes_of x k disk info.column_defs h.mmaps mark.info ≡ ok bytes)
          × (map k.access bytes ≡ map (λ c. map archive (granule_at granularity g c)) cs))

  -- Marks that lead to the granules of the columns, and files that open, serve the granules.
  served :
      (law : RoundTrips k) (granularity : ℕ) (cs : List PhysicalColumn) (info : TablePartInfo)
      (fs : List Bytes)
      → info.column_defs ≡ definitions cs
      → Compressed cs
      → ((g : ℕ)
          → g < length info.marks
          → (mark : Mark) × (get_elem? info.marks g ≡ some mark)
            × ReadsAll k law granularity g cs fs mark.info)
      → 0 < length info.marks
      → traverse (open_column x k disk info) (definitions cs) ≡ ok fs
      → Served granularity cs info
  served law granularity cs info fs defs lz at filled opened =
      let chunk : (g : ℕ)
          → g < length info.marks
          → (mark : Mark) × (bytes : List Bytes) × (get_elem? info.marks g ≡ some mark)
            × (chunk_bytes_of x k disk info.column_defs fs mark.info ≡ ok bytes)
            × (map k.access bytes ≡ map (λ c. map archive (granule_at granularity g c)) cs) =
        λ g lt.
          let (mark, em, reads) = at g lt in
          let (bytes, eb, ea) = granule_served law granularity g cs fs mark.info lz reads in
          (mark, bytes, em, rw defs eb, ea) in
      (
        record {
          mmaps = fs;
          opened = subst (λ ds. traverse (open_column x k disk info) ds ≡ ok fs) (sym defs) opened;
          filled = filled;
          read = λ g lt. let (mark, bytes, em, eb, _) = chunk g lt in (mark, bytes, em, eb);
        },
        chunk,
      )

  save_raw-Served :
      (law : RoundTrips k) (granularity : ℕ) (part saved : TablePart) (files : List Bytes)
      → ((b : Bytes) → k.crc32 b < 2 ^ 32)
      → part.info.column_defs ≡ definitions part.data_of
      → Compressed part.data_of
      → All (λ (m : Mark). m.info ≡ []) part.info.marks
      → 0 < length part.info.marks
      → All
          (λ (c : PhysicalColumn). length part.info.marks ≤ length (granules granularity c.data_of))
          part.data_of
      → save_raw k part granularity ≡ ok (files, saved)
      → OnDisk part.info.name part.data_of files
      → Served granularity part.data_of saved.info
  unfolding save_raw
  save_raw-Served law granularity part saved files small defs lz unmarked some_marks enough h d =
      let cs = part.data_of in
      let marks = part.info.marks in
      let (r, er, h1) = >>=-eq-ok (save_columns k cs granularity marks) _ h in
      let es : record { info = record part.info { marks = r.1 }; data_of = cs } ≡ saved =
        ap (λ (q : List Bytes × TablePart). q.1) (ok-eq h1) in
      let ef : r.0 ≡ files = ap (λ (q : List Bytes × TablePart). q.0) (ok-eq h1) in
      let same = length-save_columns k granularity cs marks r.0 r.1 er in
      subst (λ (p : TablePart). Served granularity cs p.info) es
        (served law granularity cs (record part.info { marks = r.1 }) r.0 defs lz
          (λ g lt.
            let lt' : g < length marks = omega (arith, lt, same) in
            let (mark, em) = some_elem marks g lt' in
            let (is, e, reads) =
              columns_marked k law granularity g cs marks r.0 r.1 mark er em
                (All-map cs (λ c le. omega (arith, le, lt')) enough) in
            let empty : mark.info ≡ [] =
              All-at (λ (m : Mark). m.info ≡ []) marks g mark unmarked em in
            (
              record { index_of = mark.index_of; info = mark.info ++ is },
              e,
              subst (λ l. ReadsAll k law granularity g cs r.0 (l ++ is)) (sym empty) reads,
            ))
          (omega (arith, some_marks, same))
          (files_open law granularity (record part.info { marks = r.1 }) cs marks r.0 r.1 small er
            (subst (OnDisk part.info.name cs) (sym ef) d)))

  -- A part that `TablePart::try_new` makes and `save_raw` writes is read back whole by a scan:
  -- its columns' files open, and the bytes that are loaded for its g-th granule are, for each
  -- column in order, bytes that `rkyv` takes for the archived values of the column's g-th
  -- granule. This is for a part whose columns are compressed with LZ4 and have as many rows as it
  -- says, at least one, with a column on the primary key, on a disk that gives the files as they
  -- were written, each with something between its magic bytes and its checksum, and for crates
  -- that read back what they wrote and a checksum of 32 bits.
  pub try_new-save_raw-Served :
      (law : RoundTrips k) (metadata : TableMetadata) (columns : List PhysicalColumn)
      (name : String) (part saved : TablePart) (files : List Bytes)
      → ((b : Bytes) → k.crc32 b < 2 ^ 32)
      → try_new metadata columns name ≡ ok part
      → IsRegular metadata part
      → Compressed part.data_of
      → save_raw k part metadata.settings.index_granularity ≡ ok (files, saved)
      → OnDisk part.info.name part.data_of files
      → Served metadata.settings.index_granularity part.data_of saved.info
  try_new-save_raw-Served law metadata columns name part saved files small made regular lz h d =
      let new = try_new-IsNew metadata columns name part made regular in
      save_raw-Served law metadata.settings.index_granularity part saved files small new.defs lz
        new.unmarked new.filled new.enough h d
