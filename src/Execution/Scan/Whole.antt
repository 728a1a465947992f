-- ===== src/Execution/Scan/Whole.antt =====
-- sql/execution/select/mod.rs: a scan that takes all chunks of a storage, and what it keeps of them.
use touchhouse.Prelude.{
  ℕ, zero, suc, ◌+◌, ◌≤◌, ◌<◌, ◌≡◌, refl, sym, ap, ◌∙◌, true, Option, none, some, List, [], ◌∷◌,
  ◌++◌, map, length, drop, append_nil, All, ltb, lt→ltb, ltb_no, ==_ne, Bool-cases, inl, inr, arith,
}
use mathlib.Core.Path.{subst}
use touchhouse.Outcome.{Result, ok, traverse}
use touchhouse.Externs.{Externs}
use touchhouse.Value.{Value, ToValue}
use touchhouse.Storage.Column.{OutputColumn, Projection}
use touchhouse.Storage.Read.{StorageRead}
use touchhouse.Sql.Ast.{Expr}
use touchhouse.Sql.Filter.{CompiledFilter}
use touchhouse.Sql.Plan.{no_fields}
use touchhouse.Execution.Strategy.{min_of, new_strategy, set_lines_read, should_read_next_chunk}
use touchhouse.Execution.Aggregator.{
  RawColumn, Aggregator, simple, values, raw_column, proj_of, add_columns, append_chunk,
  new_aggregator, get_projs_to_read, finalize, finalize_column,
}
use touchhouse.Execution.Aggregator.Fold.{values_all}
use touchhouse.Execution.Scan.{
  read_chunk, read_chunks, scan_from_storage, filter_option, compile_option, skip_rows, limit_rows,
  first_rows, map_data,
}

-- What is kept of a chunk: its columns and how many rows they have, and how many were read.
pub record Kept (T : Type 0) : Type 0 where
  pub cols : List (List T)
  pub rows : ℕ
  pub read : ℕ

-- `load_next_chunk` until there is none: what is kept of the columns of each chunk, in turn.
pub data Scans {S T : Type 0} (r : StorageRead S T) (keep : List (List T) → Result (List (List T)))
    (ps : List Projection) : S → List (Kept T) → Type 0 where
  done : {s : S} → r.load_next_chunk s ≡ ok none → Scans r keep ps s []
  more :
      {s s' : S} {cols : List (List T)} {c : Kept T} {rest : List (Kept T)}
      → r.load_next_chunk s ≡ ok (some s')
      → traverse (r.access_chunk_column s') ps ≡ ok cols
      → keep cols ≡ ok c.cols
      → Scans r keep ps s' rest
      → Scans r keep ps s (c ∷ rest)

-- One column for each projection, with as many rows as is said, which are no more than were read.
abbrev pub IsChunk : {T : Type 0} → List Projection → Kept T → Type 0
IsChunk ps c =
    (length c.cols ≡ length ps)
    × All (λ col. length col ≡ c.rows) c.cols
    × (c.rows ≤ c.read)
    × (0 < c.read)

abbrev pub sum_read : {T : Type 0} → List (Kept T) → ℕ
sum_read [] = 0
sum_read (c ∷ cs) = c.read + sum_read cs

-- The values of a chunk's columns, after those that there are.
abbrev pub appended :
    {T : Type 0} → (T → Value) → List (List Value) → List (List T) → List (List Value)
appended view [] cols = []
appended view (vs ∷ vss) [] = vs ∷ vss
appended view (vs ∷ vss) (c ∷ cols) = (vs ++ map view c) ∷ appended view vss cols

abbrev pub gathered :
    {T : Type 0} → (T → Value) → List (List Value) → List (Kept T) → List (List Value)
gathered view vss [] = vss
gathered view vss (c ∷ cs) = gathered view (appended view vss c.cols) cs

abbrev pub no_rows : List Projection → List (List Value)
no_rows ps = map (λ p. []) ps

abbrev raws : List Projection → List (List Value) → List RawColumn
raws [] vss = []
raws (p ∷ ps) [] = []
raws (p ∷ ps) (vs ∷ vss) = record { alias = none; proj = p; data_of = values vs } ∷ raws ps vss

abbrev pub outputs : List Projection → List (List Value) → List OutputColumn
outputs [] vss = []
outputs (p ∷ ps) [] = []
outputs (p ∷ ps) (vs ∷ vss) =
    record { proj = record { alias = none; source = p.source }; data_of = vs } ∷ outputs ps vss

raws-empty : (ps : List Projection) → map raw_column ps ≡ raws ps (no_rows ps)
raws-empty [] = refl
raws-empty (p ∷ ps) = ap (λ l. raw_column p ∷ l) (raws-empty ps)

projs-raws :
    (ps : List Projection) (vss : List (List Value))
    → length vss ≡ length ps
    → map proj_of (raws ps vss) ≡ ps
projs-raws [] vss h = refl
projs-raws (p ∷ ps) [] h = absurd (omega (arith, h))
projs-raws (p ∷ ps) (vs ∷ vss) h = ap (λ l. p ∷ l) (projs-raws ps vss (omega (arith, h)))

length-appended :
    {T : Type 0} (view : T → Value) (vss : List (List Value)) (cols : List (List T))
    → length (appended view vss cols) ≡ length vss
length-appended view [] cols = refl
length-appended view (vs ∷ vss) [] = refl
length-appended view (vs ∷ vss) (c ∷ cols) = ap suc (length-appended view vss cols)

appended-none :
    {T : Type 0} (view : T → Value) (vss : List (List Value)) (cols : List (List T))
    → All (λ (col : List T). length col ≡ 0) cols
    → appended view vss cols ≡ vss
appended-none view [] cols h = refl
appended-none view (vs ∷ vss) [] h = refl
appended-none view (vs ∷ vss) ([] ∷ cols) h =
    ap (λ l. l ∷ appended view vss cols) (append_nil vs)
    ∙ ap (λ l. vs ∷ l) (appended-none view vss cols h.1)
appended-none view (vs ∷ vss) ((a ∷ c) ∷ cols) h = absurd (omega (arith, h.0))

module _ {S T : Type 0} (x : Externs) (r : StorageRead S T) (t : ToValue T) where
  columns_added :
      (ps : List Projection) (vss : List (List Value)) (cols : List (List T))
      → length cols ≡ length ps
      → length vss ≡ length ps
      → add_columns x t cols (raws ps vss) ≡ ok (raws ps (appended t.view vss cols))
  unfolding add_columns
  columns_added [] vss [] h g = refl
  columns_added [] vss (c ∷ cols) h g = absurd (omega (arith, h))
  columns_added (p ∷ ps) vss [] h g = absurd (omega (arith, h))
  columns_added (p ∷ ps) [] (c ∷ cols) h g = absurd (omega (arith, g))
  columns_added (p ∷ ps) (vs ∷ vss) (c ∷ cols) h g =
      rw (values_all x t c vs, columns_added ps vss cols (omega (arith, h)) (omega (arith, g))) refl

  abbrev collecting : List Projection → List (List Value) → ℕ → Aggregator
  collecting ps vss n = record { format = simple (raws ps vss); rows = n }

  -- A chunk with no rows is passed over, and leaves nothing.
  chunk_added :
      (ps : List Projection) (vss : List (List Value)) (n : ℕ) (cols : List (List T)) (rows : ℕ)
      → 0 < length ps
      → length cols ≡ length ps
      → All (λ (col : List T). length col ≡ rows) cols
      → length vss ≡ length ps
      → (m : ℕ) × (append_chunk x t (collecting ps vss n) cols
          ≡ ok (collecting ps (appended t.view vss cols) m, rows))
  unfolding append_chunk
  chunk_added ps vss n [] rows some_ps h long g = absurd (omega (arith, h, some_ps))
  chunk_added ps vss n ([] ∷ cols) rows some_ps h long g =
      let zero_rows : 0 ≡ rows = long.0 in
      let none_here : All (λ (col : List T). length col ≡ 0) ([] ∷ cols) =
        subst (λ k. All (λ (col : List T). length col ≡ k) ([] ∷ cols)) (sym zero_rows) long in
      (
        n,
        ap (λ (l : List (List Value)). ok (collecting ps l n, 0))
              (sym (appended-none t.view vss ([] ∷ cols) none_here))
            ∙ ap (λ (k : ℕ). ok (collecting ps (appended t.view vss ([] ∷ cols)) n, k)) zero_rows,
      )
  chunk_added ps vss n ((v ∷ vs) ∷ cols) rows some_ps h long g =
      let all : List (List T) = (v ∷ vs) ∷ cols in
      (
        n + suc (length vs),
        rw (==_ne (suc (length vs)) 0 (λ e. omega arith), columns_added ps vss all h g)
            (ap (λ (k : ℕ). ok (collecting ps (appended t.view vss all) (n + suc (length vs)), k))
              long.0),
      )

  -- The `while` loop, over what is kept: it may stop early only after the last chunk.
  chunks_read :
      (fuel total read : ℕ) (f : Option CompiledFilter) (ps : List Projection) (cs : List (Kept T))
      (vss : List (List Value)) (n : ℕ) (s : S)
      → Scans r (filter_option x r t f) ps s cs
      → 0 < length ps
      → All (IsChunk ps) cs
      → length vss ≡ length ps
      → length cs < fuel
      → read + sum_read cs ≤ total
      → (m : ℕ) × (read_chunks x r t fuel f
            record { lines_to_read = total; lines_read = read }
            (collecting ps vss n)
            s
          ≡ ok (collecting ps (gathered t.view vss cs) m))
  unfolding read_chunks read_chunk set_lines_read should_read_next_chunk get_projs_to_read
  chunks_read zero total read f ps cs vss n s y some_ps ok_cs g lt le = absurd (omega (arith, lt))
  chunks_read (suc fuel) total read f ps [] vss n s (done e) some_ps ok_cs g lt le = (
    n,
    elim (Bool-cases (ltb read total)) [
      | inl b ↦ rw (b, read_chunks, e) refl
      | inr b ↦ rw (b, read_chunks) refl
    ],
  )
  chunks_read (suc fuel) total read f ps (c ∷ cs) vss n s
        (more {s' = s'} {cols = cols} loaded at kept y) some_ps ok_cs g lt le =
      let (wide, long, fewer, some_read) = ok_cs.0 in
      let go : ltb read total ≡ true = lt→ltb read total (omega (arith, le, some_read)) in
      let (m, add) = chunk_added ps vss n c.cols c.rows some_ps wide long g in
      let (k, rest) =
        chunks_read fuel total c.rows f ps cs (appended t.view vss c.cols) m s' y some_ps ok_cs.1
          (length-appended t.view vss c.cols ∙ g) (omega (arith, lt)) (omega (arith, le, fewer)) in
      (k, rw (go, read_chunks, loaded, projs-raws ps vss g, read_chunk, at, kept, add) rest)

  finalized :
      (ps : List Projection) (vss : List (List Value))
      → map (finalize_column x) (raws ps vss) ≡ outputs ps vss
  unfolding finalize_column
  finalized [] vss = refl
  finalized (p ∷ ps) [] = refl
  finalized (p ∷ ps) (vs ∷ vss) =
      ap (λ l. record { proj = record { alias = none; source = p.source }; data_of = vs } ∷ l)
        (finalized ps vss)

  drop_none : (n : ℕ) (l : List OutputColumn) → n ≡ 0 → map_data (drop n) l ≡ l
  drop_none n [] e = refl
  drop_none n (c ∷ cs) e =
      ap (λ k. record c { data_of = drop k c.data_of } ∷ map_data (drop n) cs) e
      ∙ ap (λ m. c ∷ m) (drop_none n cs e)

  skip_none : (columns : List OutputColumn) → skip_rows 0 columns ≡ columns
  unfolding skip_rows
  skip_none columns =
      drop_none (min_of (first_rows columns) 0) columns
        (rw (ltb_no (first_rows columns) 0 (omega arith)) refl)

  length-no_rows : (ps : List Projection) → length (no_rows ps) ≡ length ps
  length-no_rows [] = refl
  length-no_rows (p ∷ ps) = ap suc (length-no_rows ps)

  -- A SELECT of columns with a WHERE or none, and no other clause, answers what is kept of the
  -- chunks, one after another.
  pub scan_chunks :
      (fuel : ℕ) (s : S) (ps : List Projection) (e : Option Expr) (f : Option CompiledFilter)
      (cs : List (Kept T))
      → compile_option x (r.get_schema s).columns e ≡ ok f
      → Scans r (filter_option x r t f) ps s cs
      → 0 < length ps
      → All (IsChunk ps) cs
      → length cs < fuel
      → sum_read cs ≤ r.get_total_rows s
      → scan_from_storage x r t fuel s record no_fields { columns = ps; filter = e }
        ≡ ok (outputs ps (gathered t.view (no_rows ps) cs))
  unfolding scan_from_storage new_aggregator finalize new_strategy limit_rows
  scan_chunks fuel s [] e f cs compiled y some_ps full lt le = absurd (omega (arith, some_ps))
  scan_chunks fuel s (p ∷ ps) e f cs compiled y some_ps full lt le =
      let all : List Projection = p ∷ ps in
      let (m, read) =
        chunks_read fuel (r.get_total_rows s) 0 f all cs (no_rows all) 0 s y some_ps full
          (length-no_rows all) lt (omega (arith, le)) in
      rw (compiled, raws-empty ps, read)
        (ap (λ l. ok (skip_rows 0 l)) (finalized all (gathered t.view (no_rows all) cs))
          ∙ ap (λ l. ok l) (skip_none (outputs all (gathered t.view (no_rows all) cs))))
