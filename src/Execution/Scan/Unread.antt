-- ===== src/Execution/Scan/Unread.antt =====
-- sql/execution/select/mod.rs: the filter is compiled against the columns of the schema, and is run
-- over those that are read.
use touchhouse.Prelude.{
  ℕ, zero, suc, ◌<◌, ◌≤◌, ◌≡◌, refl, sym, ap, ◌∙◌, true, none, some, List, [], ◌∷◌, map, length,
  get_elem?, ltb_yes, arith,
}
use mathlib.Core.Path.{subst}
use touchhouse.Outcome.{Result, ok, panics, >>=-eq-ok, ok-eq, traverse}
use touchhouse.Externs.{Externs}
use touchhouse.BinOp.{BinOp}
use touchhouse.Value.{Value, ToValue}
use touchhouse.Storage.Column.{Projection}
use touchhouse.Storage.Read.{StorageRead}
use touchhouse.Sql.Ast.{Expr}
use touchhouse.Sql.Filter.{compare, compile, get_granule_mask, filter_granule}
use touchhouse.Sql.Plan.{no_fields}
use touchhouse.Execution.Strategy.{Strategy, new_strategy, should_read_next_chunk}
use touchhouse.Execution.Aggregator.{
  Aggregator, raw_column, proj_of, new_aggregator, get_projs_to_read,
}
use touchhouse.Execution.Scan.{
  filter_option, compile_option, read_chunk, read_chunks, scan_from_storage,
}

get_elem?_beyond {ℓ} : {A : Type ℓ} (l : List A) (k : ℕ) → length l ≤ k → get_elem? l k ≡ none
get_elem?_beyond [] k h = refl
get_elem?_beyond (a ∷ l) zero h = absurd (omega arith)
get_elem?_beyond (a ∷ l) (suc k) h = get_elem?_beyond l k (omega arith)

length-traverse {ℓ κ} :
    {A : Type ℓ} {B : Type κ} (f : A → Result B) (l : List A) (out : List B)
    → traverse f l ≡ ok out
    → length out ≡ length l
length-traverse f [] out h = ap length (sym (ok-eq h))
length-traverse f (a ∷ l) out h =
    let (b, _, h1) = >>=-eq-ok (f a) _ h in
    let (bs, e, h2) = >>=-eq-ok (traverse f l) _ h1 in
    ap length (sym (ok-eq h2)) ∙ ap suc (length-traverse f l bs e)

projs_back : (ps : List Projection) → map proj_of (map raw_column ps) ≡ ps
projs_back [] = refl
projs_back (p ∷ ps) = ap (λ l. p ∷ l) (projs_back ps)

has_rows :
    (n : ℕ) → 0 < n → should_read_next_chunk record { lines_to_read = n; lines_read = 0 } ≡ true
unfolding should_read_next_chunk
has_rows n h = ltb_yes 0 n h

module _ {S T : Type 0} (x : Externs) (r : StorageRead S T) (t : ToValue T) where
  filter_granule_beyond :
      (i : ℕ) (op : BinOp) (v : Value) (cols : List (List T))
      → length cols ≤ i
      → filter_granule ⦃t = t⦄ (compare i op v) cols ≡ panics
  unfolding filter_granule get_granule_mask
  filter_granule_beyond i op v cols h = rw (get_elem?_beyond cols i h) refl

  unread_chunk :
      (s' : S) (a : Aggregator) (i : ℕ) (op : BinOp) (v : Value) (granule : List (List T))
      → length (get_projs_to_read a) ≤ i
      → traverse (r.access_chunk_column s') (get_projs_to_read a) ≡ ok granule
      → read_chunk x r t (some (compare i op v)) a s' ≡ panics
  unfolding read_chunk filter_option
  unread_chunk s' a i op v granule unread read =
      let few : length granule ≤ i =
        omega
          (arith, length-traverse (r.access_chunk_column s') (get_projs_to_read a) granule read) in
      rw (read, filter_granule_beyond i op v granule few) refl

  unread_chunks :
      (fuel : ℕ) (strategy : Strategy) (s s' : S) (a : Aggregator) (i : ℕ) (op : BinOp) (v : Value)
      (granule : List (List T))
      → should_read_next_chunk strategy ≡ true
      → r.load_next_chunk s ≡ ok (some s')
      → length (get_projs_to_read a) ≤ i
      → traverse (r.access_chunk_column s') (get_projs_to_read a) ≡ ok granule
      → read_chunks x r t (suc fuel) (some (compare i op v)) strategy a s ≡ panics
  unfolding read_chunks
  unread_chunks fuel strategy s s' a i op v granule y loaded unread read =
      rw (y, read_chunks, loaded, unread_chunk s' a i op v granule unread read) refl

  projs_read :
      (p : Projection) (ps : List Projection)
      → get_projs_to_read (new_aggregator (p ∷ ps) [] []) ≡ p ∷ ps
  unfolding get_projs_to_read new_aggregator
  projs_read p ps = projs_back (p ∷ ps)

  -- A SELECT of columns, whose WHERE compiles to a comparison of a column that stands in the
  -- schema at a place beyond the number of the columns it reads, and which has no other clause,
  -- panics on its first chunk, for any storage that has rows and whose first chunk loads and is
  -- read.
  pub scan_from_storage-unread :
      (fuel : ℕ) (s s' : S) (p : Projection) (ps : List Projection) (e : Expr) (i : ℕ) (op : BinOp)
      (v : Value) (granule : List (List T))
      → compile x (r.get_schema s).columns e ≡ ok (compare i op v)
      → length (p ∷ ps) ≤ i
      → 0 < r.get_total_rows s
      → r.load_next_chunk s ≡ ok (some s')
      → traverse (r.access_chunk_column s') (p ∷ ps) ≡ ok granule
      → scan_from_storage x r t (suc fuel) s record no_fields { columns = p ∷ ps; filter = some e }
        ≡ panics
  unfolding scan_from_storage compile_option new_strategy
  scan_from_storage-unread fuel s s' p ps e i op v granule compiled unread rows loaded read =
      let a : Aggregator = new_aggregator (p ∷ ps) [] [] in
      let strategy : Strategy = record { lines_to_read = r.get_total_rows s; lines_read = 0 } in
      let same = projs_read p ps in
      let few : length (get_projs_to_read a) ≤ i = subst (λ l. length l ≤ i) (sym same) unread in
      let cells : traverse (r.access_chunk_column s') (get_projs_to_read a) ≡ ok granule =
        subst (λ l. traverse (r.access_chunk_column s') l ≡ ok granule) (sym same) read in
      rw
        (
          compiled,
          unread_chunks fuel strategy s s' a i op v granule (has_rows (r.get_total_rows s) rows)
              loaded few cells,
        )
        refl
