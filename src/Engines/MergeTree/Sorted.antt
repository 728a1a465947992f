-- ===== src/Engines/MergeTree/Sorted.antt =====
-- engines/merge_tree.rs: what `order_columns` leaves.
use touchhouse.Prelude.{
  ℕ, zero, suc, ◌+◌, ◌≤◌, ◌<◌, ◌≡◌, ◌≢◌, refl, sym, ap, ◌∙◌, some, List, [], ◌∷◌, length, get_elem?,
  Ordering, flip_ord, All, arith,
}
use touchhouse.Outcome.{ok}
use touchhouse.Value.{Value, partial_cmp}
use touchhouse.Value.Order.{flip_partial, partial_cmp-flip}
use touchhouse.Storage.Column.{OutputColumn}
use touchhouse.Engines.Sort.{compare_by}
use touchhouse.Engines.Sort.Sorted.{Shuffle, nil, cons, swap, trans, shuffle-All}
use touchhouse.Engines.Permute.{range_from}
use touchhouse.Engines.Permute.Cycle.{some_below}
use touchhouse.Engines.MergeTree.{cell_at}

-- Any two cells of a column compare.
abbrev pub AllCompare : List Value → Type 0
AllCompare l =
    (i j : ℕ) (a b : Value)
    → get_elem? l i ≡ some a
    → get_elem? l j ≡ some b
    → (o : Ordering) × (partial_cmp a b ≡ some o)

-- The places in `places` are those of columns of `n` rows, whose cells compare.
abbrev pub Keys : List OutputColumn → ℕ → List ℕ → Type 0
Keys columns n places =
    All
      (λ c.
        (col : OutputColumn) × (get_elem? columns c ≡ some col)
        × (length col.data_of ≡ n)
        × AllCompare col.data_of)
      places

-- Two rows compare, and from either side alike.
pub rows_compare :
    (columns : List OutputColumn) (n : ℕ) (places : List ℕ)
    → Keys columns n places
    → (a b : ℕ) → a < n
    → b < n
    → (o : Ordering) × (compare_by (cell_at columns) places a b ≡ ok o)
      × (compare_by (cell_at columns) places b a ≡ ok (flip_ord o))
unfolding compare_by
rows_compare columns n [] h a b p q = (Ordering.eq, refl, refl)
rows_compare columns n (c ∷ cs) h a b p q =
    let (col, at, len, cmp) = h.0 in
    let (x, ex) = some_below col.data_of a (omega (arith, len)) in
    let (y, ey) = some_below col.data_of b (omega (arith, len)) in
    let (o, e) = cmp a b x y ex ey in
    let f : partial_cmp y x ≡ some (flip_ord o) = partial_cmp-flip x y ∙ ap flip_partial e in
    elim o
        as (λ o.
          partial_cmp x y ≡ some o
          → partial_cmp y x ≡ some (flip_ord o)
          → (r : Ordering) × (compare_by (cell_at columns) (c ∷ cs) a b ≡ ok r)
            × (compare_by (cell_at columns) (c ∷ cs) b a ≡ ok (flip_ord r))) [
              | Ordering.lt ↦ λ e f. (Ordering.lt, rw (at, ex, ey, e) refl, rw (at, ey, ex, f) refl)
              | Ordering.gt ↦ λ e f. (Ordering.gt, rw (at, ex, ey, e) refl, rw (at, ey, ex, f) refl)
              | Ordering.eq ↦ λ e f.
                  let (r, e1, e2) = rows_compare columns n cs h.1 a b p q in
                  (r, rw (at, ex, ey, e) e1, rw (at, ey, ex, f) e2)
            ]
      e f

-- No entry stands twice.
abbrev IsDistinct : List ℕ → Type 0
IsDistinct [] = Unit
IsDistinct (x ∷ xs) = All (λ y. x ≢ y) xs × IsDistinct xs

pub shuffle-IsDistinct : {xs ys : List ℕ} → Shuffle xs ys → IsDistinct xs → IsDistinct ys
shuffle-IsDistinct nil h = tt
shuffle-IsDistinct (cons x s) h = (shuffle-All (λ y. x ≢ y) s h.0, shuffle-IsDistinct s h.1)
shuffle-IsDistinct (swap x y l) h = (((λ e. h.0.0 (sym e)), h.1.0), (h.0.1, h.1.1))
shuffle-IsDistinct (trans s t) h = shuffle-IsDistinct t (shuffle-IsDistinct s h)

range_above : (m k j : ℕ) → j < k → All (λ y. j ≢ y) (range_from k m)
range_above zero k j h = tt
range_above (suc m) k j h = (λ e. omega (arith, h, e), range_above m (suc k) j (omega (arith, h)))

pub range-IsDistinct : (m k : ℕ) → IsDistinct (range_from k m)
range-IsDistinct zero k = tt
range-IsDistinct (suc m) k = (range_above m (suc k) k (omega arith), range-IsDistinct m (suc k))

pub range_below : (m k n : ℕ) → k + m ≤ n → All (λ i. i < n) (range_from k m)
range_below zero k n h = tt
range_below (suc m) k n h = (omega (arith, h), range_below m (suc k) n (omega (arith, h)))

pub length-range_from : (m k : ℕ) → length (range_from k m) ≡ m
length-range_from zero k = refl
length-range_from (suc m) k = ap suc (length-range_from m (suc k))

-- The entry at a place, 0 past the end.
abbrev pub entry : List ℕ → ℕ → ℕ
entry [] i = 0
entry (x ∷ xs) zero = x
entry (x ∷ xs) (suc i) = entry xs i

pub entry_reads : (l : List ℕ) (i : ℕ) → i < length l → get_elem? l i ≡ some (entry l i)
entry_reads [] i h = elim h [ ]
entry_reads (x ∷ xs) zero h = refl
entry_reads (x ∷ xs) (suc i) h = entry_reads xs i (omega arith)

pub entry_all : (P : ℕ → Type 0) (l : List ℕ) (i : ℕ) → All P l → i < length l → P (entry l i)
entry_all P [] i h k = elim k [ ]
entry_all P (x ∷ xs) zero h k = h.0
entry_all P (x ∷ xs) (suc i) h k = entry_all P xs i h.1 (omega arith)

pub entry_injective :
    (l : List ℕ) (i j : ℕ)
    → IsDistinct l
    → i < length l
    → j < length l
    → entry l i ≡ entry l j
    → i ≡ j
entry_injective [] i j d h k e = elim h [ ]
entry_injective (x ∷ xs) zero zero d h k e = refl
entry_injective (x ∷ xs) zero (suc j) d h k e =
    absurd (entry_all (λ y. x ≢ y) xs j d.0 (omega arith) e)
entry_injective (x ∷ xs) (suc i) zero d h k e =
    absurd (entry_all (λ y. x ≢ y) xs i d.0 (omega arith) (sym e))
entry_injective (x ∷ xs) (suc i) (suc j) d h k e =
    ap suc (entry_injective xs i j d.1 (omega arith) (omega arith) e)
