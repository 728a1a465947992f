-- ===== src/Execution/Scan/Stored.antt =====
-- sql/execution/select/mod.rs: a granule of a part as it was saved, read and filtered.
use touchhouse.Prelude.{
  ℕ, zero, suc, ◌≤◌, ◌<◌, ◌≡◌, refl, sym, ap, ◌∙◌, String, Bool, Option, none, some, List, [], ◌∷◌,
  map, length, length-map, get_elem?, position, str_eq, All, arith,
}
use touchhouse.Outcome.{Result, ok, ok-eq, >>=-eq-ok, traverse}
use touchhouse.Externs.{Externs, Codec}
use touchhouse.Value.{Value}
use touchhouse.Value.Archived.{ArchivedValue, archive, archived_cell}
use touchhouse.Value.Archived.Agreement.{archived_cell-IsLawful}
use touchhouse.Value.Display.{show_source}
use touchhouse.Storage.Column.{ColumnDef, PhysicalColumn, Projection, projection_of}
use touchhouse.Storage.Table.{TableSchema}
use touchhouse.Storage.Part.{Bytes, Mark, TablePart, TablePartInfo, granules}
use touchhouse.Storage.Part.Granules.{some_eq}
use touchhouse.Storage.Native.{
  NativeStorage, chunk_bytes_of, read_column, access_loaded, access_chunk_column, native_storage,
}
use touchhouse.Storage.Native.Walk.{Gives, at}
use touchhouse.Storage.Native.Saved.{Served, granule_at, definitions}
use touchhouse.Sql.Ast.{Expr}
use touchhouse.Sql.Filter.{CompiledFilter, compile}
use touchhouse.Sql.Filter.Mask.{IsRect, AllLen, keep_rows, length-keep_rows, count}
use touchhouse.Sql.Filter.Compile.{where_rows}
use touchhouse.Execution.Scan.{filter_option, compile_option}
use touchhouse.Execution.Scan.Whole.{Kept, Scans, done, more, IsChunk}
use touchhouse.Execution.Scan.Granules.{
  within, same_at, elem-map, size_at, granule_count, len_at-granules, some_rows,
}
use touchhouse.Execution.Scan.Kept.{
  cells_of, holds_at, where_of, rows_where, HasNames, all_columns, kept_of, kept_items,
}

length_found :
    (o : Option (List Value))
    → length (elim o [ none ↦ [] | some rs ↦ rs ]) ≡ elim o [ none ↦ 0 | some r ↦ length r ]
length_found none = refl
length_found (some r) = refl

all_long :
    (cols : List (List ArchivedValue)) (n : ℕ)
    → All (λ (col : List ArchivedValue). length col ≡ n) cols
    → AllLen n cols
all_long [] n h = tt
all_long (c ∷ cols) n h = (h.0, all_long cols n h.1)

rect :
    (cols : List (List ArchivedValue)) (n : ℕ)
    → 0 < length cols
    → All (λ (col : List ArchivedValue). length col ≡ n) cols
    → IsRect n cols
rect [] n wide h = absurd (omega (arith, wide))
rect (c ∷ cols) n wide h = (h.0, all_long (c ∷ cols) n h)

kept_long :
    (p : ℕ → Bool) (cols : List (List ArchivedValue)) (n : ℕ)
    → All (λ (col : List ArchivedValue). length col ≡ n) cols
    → All (λ (col : List ArchivedValue). length col ≡ count n p) (map (keep_rows p) cols)
kept_long p [] n h = tt
kept_long p (c ∷ cols) n h =
    (length-keep_rows p c ∙ ap (λ m. count m p) h.0, kept_long p cols n h.1)

count_fewer : (n : ℕ) (p : ℕ → Bool) → count n p ≤ n
unfolding count
count_fewer zero p = omega arith
count_fewer (suc n) p = ground (arith, count_fewer n (λ i. p (suc i)))

module _ (x : Externs) (k : Codec Value ArchivedValue) (disk : String → String → Option Bytes)
    (granularity : ℕ) (schema : TableSchema) where
  -- A part that is served from the disk, with the columns of the schema, each with as many rows as
  -- the part says, and a mark for each granule.
  pub record IsStored (part : TablePart) : Type 0 where
    pub is_served : Served x k disk granularity part.data_of part.info
    pub defs : part.info.column_defs ≡ schema.columns
    pub columns : definitions part.data_of ≡ schema.columns
    pub rows : All (λ (c : PhysicalColumn). length c.data_of ≡ part.info.row_count) part.data_of
    pub marked : length part.info.marks ≡ granule_count granularity part.info.row_count

  traverse_places :
      {B : Type 0} (f : Projection → Result B) (h : PhysicalColumn → B) (cs : List PhysicalColumn)
      → ((i : ℕ) (c : PhysicalColumn)
          → get_elem? cs i ≡ some c
          → f (projection_of c.column_def) ≡ ok (h c))
      → traverse f (map projection_of (definitions cs)) ≡ ok (map h cs)
  traverse_places f h [] at = refl
  traverse_places f h (c ∷ cs) at =
      rw (at 0 c refl, traverse_places f h cs (λ i d e. at (suc i) d e)) refl

  -- Every column of a granule that is loaded is read.
  column_read :
      (part : TablePart) (h : IsStored part) (g : ℕ) (mark : Mark) (bytes : List Bytes)
      (infos : List TablePartInfo)
      → HasNames schema
      → get_elem? part.info.marks g ≡ some mark
      → chunk_bytes_of x k disk part.info.column_defs h.is_served.0.mmaps mark.info ≡ ok bytes
      → (i : ℕ) (c : PhysicalColumn) → get_elem? part.data_of i ≡ some c
      → access_chunk_column x k disk
          (at x k disk schema infos part.info g h.is_served.0.mmaps bytes)
          (projection_of c.column_def)
        ≡ ok (map archive (granule_at granularity g c))
  unfolding access_chunk_column access_loaded read_column show_source
  column_read part h g mark bytes infos names em eb i c ec =
      let (mark', bytes', em', eb', all) = h.is_served.1 g (within part.info.marks g mark em) in
      let same_mark : mark' ≡ mark = some_eq (sym em' ∙ em) in
      let same_bytes : bytes' ≡ bytes = ok-eq (
        sym eb'
        ∙ ap
            (λ (m : Mark). chunk_bytes_of x k disk part.info.column_defs h.is_served.0.mmaps m.info)
            same_mark
        ∙ eb) in
      let (b, at, is) =
        same_at k.access (λ (d : PhysicalColumn). map archive (granule_at granularity g d)) bytes
          part.data_of i c (ap (λ bs. map k.access bs) (sym same_bytes) ∙ all) ec in
      let def : get_elem? schema.columns i ≡ some c.column_def =
        ap (λ ds. get_elem? ds i) (sym h.columns)
        ∙ elem-map (λ (d : PhysicalColumn). d.column_def) part.data_of i c ec in
      let found : position (λ (q : ColumnDef). str_eq q.name c.column_def.name)
            part.info.column_defs
          ≡ some i =
        ap (λ ds. position (λ (q : ColumnDef). str_eq q.name c.column_def.name) ds) h.defs
        ∙ names i c.column_def def in
      rw (found, at) (ap (λ l. ok l) is)

  granule_read :
      (part : TablePart) (h : IsStored part) (g : ℕ) (mark : Mark) (bytes : List Bytes)
      (infos : List TablePartInfo)
      → HasNames schema
      → get_elem? part.info.marks g ≡ some mark
      → chunk_bytes_of x k disk part.info.column_defs h.is_served.0.mmaps mark.info ≡ ok bytes
      → traverse
          (access_chunk_column x k disk
            (at x k disk schema infos part.info g h.is_served.0.mmaps bytes))
          (all_columns schema)
        ≡ ok (cells_of granularity part.data_of g)
  granule_read part h g mark bytes infos names em eb =
      let s : NativeStorage = at x k disk schema infos part.info g h.is_served.0.mmaps bytes in
      ap (λ ds. traverse (access_chunk_column x k disk s) (map projection_of ds)) (sym h.columns)
      ∙ traverse_places (access_chunk_column x k disk s)
          (λ (c : PhysicalColumn). map archive (granule_at granularity g c)) part.data_of
          (column_read part h g mark bytes infos names em eb)

  -- All columns of a granule have its rows.
  even_columns :
      (cs : List PhysicalColumn) (n g : ℕ)
      → All (λ (c : PhysicalColumn). length c.data_of ≡ n) cs
      → All
          (λ (col : List ArchivedValue). length col ≡ size_at granularity n g)
          (cells_of granularity cs g)
  even_columns [] n g h = tt
  even_columns (c ∷ cs) n g h = (
    length-map archive (granule_at granularity g c)
        ∙ length_found (get_elem? (granules granularity c.data_of) g)
        ∙ len_at-granules granularity n c.data_of g h.0,
    even_columns cs n g h.1,
  )

  compiled_keeps :
      (S : Type 0) (r : touchhouse.Storage.Read.StorageRead S ArchivedValue) (e : Option Expr)
      (f : Option CompiledFilter) (cols : List (List ArchivedValue)) (n : ℕ)
      → compile_option x schema.columns e ≡ ok f
      → length cols ≡ length schema.columns
      → 0 < length cols
      → All (λ (col : List ArchivedValue). length col ≡ n) cols
      → filter_option x r archived_cell f cols ≡ ok (where_of x schema.columns e cols)
  unfolding compile_option filter_option
  compiled_keeps S r none f cols n h len wide even =
      ap (λ (g : Option CompiledFilter). filter_option x r archived_cell g cols) (sym (ok-eq h))
  compiled_keeps S r (some e) f cols n h len wide even =
      let (g, eg, h1) = >>=-eq-ok (compile x schema.columns e) _ h in
      ap (λ (o : Option CompiledFilter). filter_option x r archived_cell o cols) (sym (ok-eq h1))
      ∙ where_rows ⦃t = archived_cell⦄ archived_cell-IsLawful x schema.columns e g cols n eg len
          (rect cols n wide even)

  -- What is kept of a granule has the columns, and no more rows than were read, which are some.
  pub kept-IsChunk :
      (e : Option Expr) (part : TablePart) (g : ℕ)
      → IsStored part
      → 0 < granularity
      → g < length part.info.marks
      → IsChunk (all_columns schema) (kept_of x granularity schema e part g)
  kept-IsChunk e part g h pos lt =
      let cells = cells_of granularity part.data_of g in
      let n = size_at granularity part.info.row_count g in
      let wide : length cells ≡ length (all_columns schema) =
        length-map (λ (c : PhysicalColumn). map archive (granule_at granularity g c)) part.data_of
        ∙ sym (length-map (λ (c : PhysicalColumn). c.column_def) part.data_of)
        ∙ ap length h.columns
        ∙ sym (length-map projection_of schema.columns) in
      (
        width e cells ∙ wide,
        kept_even e cells n (even_columns part.data_of part.info.row_count g h.rows),
        kept_fewer e cells n,
        some_rows granularity part.info.row_count g pos (omega (arith, lt, h.marked)),
      )
    where
      width :
          (e : Option Expr) (cols : List (List ArchivedValue))
          → length (where_of x schema.columns e cols) ≡ length cols
      width none cols = refl
      width (some e) cols = length-map (keep_rows (holds_at x schema.columns e cols)) cols

      kept_even :
          (e : Option Expr) (cols : List (List ArchivedValue)) (n : ℕ)
          → All (λ (col : List ArchivedValue). length col ≡ n) cols
          → All
              (λ (col : List ArchivedValue). length col ≡ rows_where x schema.columns e cols n)
              (where_of x schema.columns e cols)
      kept_even none cols n h = h
      kept_even (some e) cols n h = kept_long (holds_at x schema.columns e cols) cols n h

      kept_fewer :
          (e : Option Expr) (cols : List (List ArchivedValue)) (n : ℕ)
          → rows_where x schema.columns e cols n ≤ n
      kept_fewer none cols n = omega arith
      kept_fewer (some e) cols n = count_fewer n (holds_at x schema.columns e cols)

  module _ (e : Option Expr) (f : Option CompiledFilter) (infos : List TablePartInfo) where
    abbrev pub storage : touchhouse.Storage.Read.StorageRead NativeStorage ArchivedValue
    storage = native_storage x k disk

    abbrev pub Shown : NativeStorage → List (Kept ArchivedValue) → Type 0
    Shown = Scans storage (filter_option x storage archived_cell f) (all_columns schema)

    abbrev pub IsKept : NativeStorage → Kept ArchivedValue → Type 0
    IsKept s c =
        (cols : List (List ArchivedValue)) × (traverse (storage.access_chunk_column s)
            (all_columns schema)
          ≡ ok cols)
        × (filter_option x storage archived_cell f cols ≡ ok c.cols)

    pub nothing_left : (s : NativeStorage) → storage.load_next_chunk s ≡ ok none → Shown s []
    nothing_left s h = done h

    pub one_kept :
        (s s' : NativeStorage) (c : Kept ArchivedValue) (rest : List (Kept ArchivedValue))
        → storage.load_next_chunk s ≡ ok (some s')
        → IsKept s' c
        → Shown s' rest
        → Shown s (c ∷ rest)
    one_kept s s' c rest h kept after = let (cols, read, keeps) = kept in more h read keeps after

    pub all-Gives :
        (parts : List TablePart)
        → HasNames schema
        → compile_option x schema.columns e ≡ ok f
        → 0 < length schema.columns
        → All IsStored parts
        → All
            (Gives x k disk Shown IsKept nothing_left one_kept schema infos)
            (kept_items x granularity schema e parts)
    all-Gives [] names compiled some_columns h = tt
    all-Gives (p ∷ ps) names compiled some_columns h =
        let wide : (g : ℕ) → length (cells_of granularity p.data_of g) ≡ length schema.columns =
          λ g.
            length-map (λ (c : PhysicalColumn). map archive (granule_at granularity g c)) p.data_of
            ∙ sym (length-map (λ (c : PhysicalColumn). c.column_def) p.data_of)
            ∙ ap length h.0.columns in
        (
          record {
            readable = h.0.is_served.0;
            item_at = λ g mark bytes lt em eb. (
              cells_of granularity p.data_of g,
              granule_read p h.0 g mark bytes infos names em eb,
              compiled_keeps NativeStorage storage e f (cells_of granularity p.data_of g)
                  (size_at granularity p.info.row_count g) compiled (wide g)
                  (omega (arith, wide g, some_columns))
                  (even_columns p.data_of p.info.row_count g h.0.rows),
            );
          },
          all-Gives ps names compiled some_columns h.1,
        )
