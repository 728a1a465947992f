-- ===== src/Sql/Filter/Mask.antt =====
-- sql/compiled_filter.rs: `get_granule_mask` and `filter_granule`, which run over whole columns,
-- against a reading of one row at a time.
use touchhouse.Prelude.{
  ℕ, zero, suc, ◌<◌, ◌≡◌, refl, ap, sym, ◌∙◌, Bool, false, not, ◌&&◌, ◌||◌, Option, none, some,
  List, [], ◌∷◌, map, length, get_elem?, replicate, arith, if◌then◌else◌,
}
use touchhouse.Outcome.{ok, ◌>>=◌, index, traverse}
use touchhouse.BinOp.{BinOp}
use touchhouse.Value.{ToValue}
use touchhouse.Sql.Filter.{
  CompiledFilter, compare, compare_columns, and, or, not_of, column, const, zip_with, first_len,
  cell_fits, cells_fit, zip_cells, get_granule_mask, retain, filter_granule,
}

-- The list of `p 0` to `p (n - 1)`.
abbrev pub tabulate : ℕ → (ℕ → Bool) → List Bool
tabulate zero p = []
tabulate (suc n) p = p 0 ∷ tabulate n (λ i. p (suc i))

-- The columns that a filter names are among the first `k`.
abbrev pub InBounds : ℕ → CompiledFilter → Type 0
InBounds k (compare i op v) = i < k
InBounds k (compare_columns i op j) = (i < k) × (j < k)
InBounds k (and l r) = InBounds k l × InBounds k r
InBounds k (or l r) = InBounds k l × InBounds k r
InBounds k (not_of f) = InBounds k f
InBounds k (column i) = i < k
InBounds k (const b) = Unit

-- How many of `p 0` to `p (n - 1)` are true.
unfoldable pub count : ℕ → (ℕ → Bool) → ℕ
count zero p = 0
count (suc n) p = if p 0 then suc (count n (λ i. p (suc i))) else count n (λ i. p (suc i))

zip_with-tabulate :
    (f : Bool → Bool → Bool) (n : ℕ) (p q : ℕ → Bool)
    → zip_with f (tabulate n p) (tabulate n q) ≡ tabulate n (λ i. f (p i) (q i))
unfolding zip_with
zip_with-tabulate f zero p q = refl
zip_with-tabulate f (suc n) p q =
    ap (◌∷◌ (f (p 0) (q 0))) (zip_with-tabulate f n (λ i. p (suc i)) (λ i. q (suc i)))

map_not-tabulate : (n : ℕ) (p : ℕ → Bool) → map not (tabulate n p) ≡ tabulate n (λ i. not (p i))
map_not-tabulate zero p = refl
map_not-tabulate (suc n) p = ap (◌∷◌ (not (p 0))) (map_not-tabulate n (λ i. p (suc i)))

replicate-tabulate : (n : ℕ) (b : Bool) → replicate n b ≡ tabulate n (λ i. b)
replicate-tabulate zero b = refl
replicate-tabulate (suc n) b = ap (◌∷◌ b) (replicate-tabulate n b)

module _ {T : Type 0} where
  abbrev pub AllLen : ℕ → List (List T) → Type 0
  AllLen n [] = Unit
  AllLen n (c ∷ cs) = (length c ≡ n) × AllLen n cs

  -- A chunk of `n` rows: each column has a cell for each of them.
  abbrev pub IsRect : ℕ → List (List T) → Type 0
  IsRect n cols = (first_len cols ≡ n) × AllLen n cols

  abbrev pub at_row : Option (List T) → ℕ → Option T
  at_row none i = none
  at_row (some c) i = get_elem? c i

  -- The cell of row `i` in column `c`.
  abbrev pub cell : List (List T) → ℕ → ℕ → Option T
  cell cols i c = at_row (get_elem? cols c) i

  abbrev pub on_cell : (T → Bool) → Option T → Bool
  on_cell p none = false
  on_cell p (some v) = p v

  abbrev pub on_cells : (T → T → Bool) → Option T → Option T → Bool
  on_cells p (some a) (some b) = p a b
  on_cells p _ _ = false

  map-tabulate :
      (p : T → Bool) (c : List T) → map p c ≡ tabulate (length c) (λ i. on_cell p (get_elem? c i))
  map-tabulate p [] = refl
  map-tabulate p (v ∷ c) = ap (◌∷◌ (p v)) (map-tabulate p c)

  column_of :
      (n : ℕ) (cols : List (List T)) (i : ℕ)
      → AllLen n cols
      → i < length cols
      → (c : List T) × (get_elem? cols i ≡ some c) × (length c ≡ n)
  column_of n [] i all h = elim h [ ]
  column_of n (c ∷ cs) zero all h = (c, refl, all.0)
  column_of n (c ∷ cs) (suc i) all h = column_of n cs i all.1 (omega arith)

  -- The cells of a column whose row passes.
  unfoldable pub keep_rows : (ℕ → Bool) → List T → List T
  keep_rows p [] = []
  keep_rows p (v ∷ vs) =
      if p 0 then v ∷ keep_rows (λ i. p (suc i)) vs else keep_rows (λ i. p (suc i)) vs

  retain-tabulate :
      (p : ℕ → Bool) (c : List T) → retain (tabulate (length c) p) c ≡ ok (keep_rows p c)
  unfolding retain keep_rows
  retain-tabulate p [] = refl
  retain-tabulate p (v ∷ c) = rw (retain-tabulate (λ i. p (suc i)) c) (ground arith)

  retain-rows :
      (n : ℕ) (p : ℕ → Bool) (c : List T)
      → length c ≡ n
      → retain (tabulate n p) c ≡ ok (keep_rows p c)
  retain-rows n p c h = rw (sym h) (retain-tabulate p c)

  traverse-retain :
      (n : ℕ) (p : ℕ → Bool) (cols : List (List T))
      → AllLen n cols
      → traverse (retain (tabulate n p)) cols ≡ ok (map (keep_rows p) cols)
  traverse-retain n p [] all = refl
  traverse-retain n p (c ∷ cs) all = rw (retain-rows n p c all.0, traverse-retain n p cs all.1)

  pub length-keep_rows : (p : ℕ → Bool) (c : List T) → length (keep_rows p c) ≡ count (length c) p
  unfolding keep_rows count
  length-keep_rows p [] = refl
  length-keep_rows p (v ∷ c) = ground (arith, length-keep_rows (λ i. p (suc i)) c)

module _ {T : Type 0} ⦃t : ToValue T⦄ where
  -- What a filter says of one row, given by its cells.
  unfoldable pub holds : CompiledFilter → (ℕ → Option T) → Bool
  holds (column i) r = on_cell t.is_true_cell (r i)
  holds (compare i op v) r = on_cell (λ a. cell_fits a op v) (r i)
  holds (compare_columns i op j) r = on_cells (cells_fit op) (r i) (r j)
  holds (and l r) row = holds l row && holds r row
  holds (or l r) row = holds l row || holds r row
  holds (not_of f) r = not (holds f r)
  holds (const b) r = b

  zip_cells-tabulate :
      (op : BinOp) (a b : List T)
      → length a ≡ length b
      → zip_cells op a b
        ≡ tabulate (length a) (λ i. on_cells (cells_fit op) (get_elem? a i) (get_elem? b i))
  unfolding zip_cells
  zip_cells-tabulate op [] [] h = refl
  zip_cells-tabulate op [] (w ∷ b) h = refl
  zip_cells-tabulate op (v ∷ a) [] h = absurd (omega arith)
  zip_cells-tabulate op (v ∷ a) (w ∷ b) h =
      ap (◌∷◌ (cells_fit op v w)) (zip_cells-tabulate op a b (omega arith))

  one_column :
      (p : T → Bool) (n : ℕ) (cols : List (List T)) (i : ℕ)
      → AllLen n cols
      → i < length cols
      → (index (get_elem? cols i) >>= λ c. ok (map p c))
        ≡ ok (tabulate n (λ k. on_cell p (cell cols k i)))
  one_column p n cols i all h =
      let (c, at, len) = column_of n cols i all h in rw at (rw (sym len) (ap ok (map-tabulate p c)))

  two_columns :
      (op : BinOp) (n : ℕ) (cols : List (List T)) (i j : ℕ)
      → AllLen n cols
      → i < length cols
      → j < length cols
      → (index (get_elem? cols i) >>= λ a. index (get_elem? cols j) >>= λ b. ok (zip_cells op a b))
        ≡ ok (tabulate n (λ k. on_cells (cells_fit op) (cell cols k i) (cell cols k j)))
  two_columns op n cols i j all h k =
      let (a, at_i, len_a) = column_of n cols i all h in
      let (b, at_j, len_b) = column_of n cols j all k in
      rw (at_i, at_j) (rw (sym len_a) (ap ok (zip_cells-tabulate op a b (len_a ∙ sym len_b))))

  -- Over a chunk of `n` rows that has the columns which the filter names, the mask exists and has
  -- for each row what the filter says of that row.
  pub mask_rows :
      (f : CompiledFilter) (cols : List (List T)) (n : ℕ)
      → IsRect n cols
      → InBounds (length cols) f
      → get_granule_mask f cols ≡ ok (tabulate n (λ i. holds f (cell cols i)))
  unfolding get_granule_mask holds
  mask_rows (compare i op v) cols n rect h = one_column (λ a. cell_fits a op v) n cols i rect.1 h
  mask_rows (compare_columns i op j) cols n rect h = two_columns op n cols i j rect.1 h.0 h.1
  mask_rows (column i) cols n rect h = one_column t.is_true_cell n cols i rect.1 h
  mask_rows (and l r) cols n rect h =
      rw (mask_rows l cols n rect h.0, mask_rows r cols n rect h.1)
        (ap ok (zip_with-tabulate ◌&&◌ n _ _))
  mask_rows (or l r) cols n rect h =
      rw (mask_rows l cols n rect h.0, mask_rows r cols n rect h.1)
        (ap ok (zip_with-tabulate ◌||◌ n _ _))
  mask_rows (not_of f) cols n rect h = rw (mask_rows f cols n rect h) (ap ok (map_not-tabulate n _))
  mask_rows (const b) cols n rect h = rw rect.0 (ap ok (replicate-tabulate n b))

  -- For a filter whose columns are all within the chunk, and a chunk of equally long columns,
  -- `filter_granule` succeeds, and keeps in every column the cells of the rows of which the
  -- filter holds, in their order.
  pub filter_granule_rows :
      (f : CompiledFilter) (cols : List (List T)) (n : ℕ)
      → IsRect n cols
      → InBounds (length cols) f
      → filter_granule f cols ≡ ok (map (keep_rows (λ i. holds f (cell cols i))) cols)
  unfolding filter_granule
  filter_granule_rows f cols n rect h =
      rw (mask_rows f cols n rect h) (traverse-retain n _ cols rect.1)
