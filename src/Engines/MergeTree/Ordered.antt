-- ===== src/Engines/MergeTree/Ordered.antt =====
-- engines/merge_tree.rs: `order_columns` of a table's columns, as a whole.
use touchhouse.Prelude.{
  ℕ, zero, suc, ◌<◌, ◌≡◌, refl, sym, ◌∙◌, false, not, some, List, [], ◌∷◌, length, get_elem?,
  is_empty, any, ◌==◌, ==_iff, All, arith,
}
use mathlib.Core.Path.{subst}
use touchhouse.Outcome.{ok, traverse, ok_or, invalid_columns_specified}
use touchhouse.Storage.Column.{OutputColumn, Projection}
use touchhouse.Engines.Sort.{EngineConfig, compare_by}
use touchhouse.Engines.Sort.Sorted.{
  Shuffle, shuffle-All, shuffle_length, IsSorted, sort_by-IsSorted,
}
use touchhouse.Engines.Permute.{range_from}
use touchhouse.Engines.Permute.Whole.{apply_permutation_in_place-permutes}
use touchhouse.Engines.MergeTree.{cell_at, order_index, permute_column, order_columns}
use touchhouse.Engines.MergeTree.Sorted.{
  AllCompare, Keys, rows_compare, entry, entry_reads, entry_all, entry_injective,
  shuffle-IsDistinct, range-IsDistinct, range_below, length-range_from,
}

-- The first column that a projection of ORDER BY names, with cells that compare.
abbrev pub HasKey : List OutputColumn → Projection → Type 0
HasKey columns proj =
    (c : ℕ) × (col : OutputColumn) × (order_index columns proj ≡ some c)
    × (get_elem? columns c ≡ some col)
    × AllCompare col.data_of

abbrev pub IsRectangle : ℕ → List OutputColumn → Type 0
IsRectangle n columns = All (λ (col : OutputColumn). length col.data_of ≡ n) columns

all_get_elem? {ℓ κ} :
    {A : Type ℓ} (P : A → Type κ) (l : List A) (i : ℕ) (a : A)
    → All P l
    → get_elem? l i ≡ some a
    → P a
all_get_elem? P [] i a h e = cc e
all_get_elem? P (x ∷ xs) zero a h e = subst P (cc e) h.0
all_get_elem? P (x ∷ xs) (suc i) a h e = all_get_elem? P xs i a h.1 e

Keys-found :
    (n : ℕ) (columns : List OutputColumn) (projs : List Projection)
    → IsRectangle n columns
    → All (HasKey columns) projs
    → (places : List ℕ) × (traverse
          (λ proj. ok_or (order_index columns proj) invalid_columns_specified)
          projs
        ≡ ok places)
      × Keys columns n places
Keys-found n columns [] r h = ([], refl, tt)
Keys-found n columns (p ∷ ps) r h =
    let (c, col, e, at, cmp) = h.0 in
    let (places, es, keys) = Keys-found n columns ps r h.1 in
    (
      c ∷ places,
      rw (e, es) refl,
      (
        (
          col,
          at,
          all_get_elem? (λ (k : OutputColumn). length k.data_of ≡ n) columns c col r at,
          cmp,
        ),
        keys,
      ),
    )

not_ragged :
    (n : ℕ) (columns : List OutputColumn)
    → IsRectangle n columns
    → any (λ (col : OutputColumn). not (length col.data_of == n)) columns ≡ false
not_ragged n [] h = refl
not_ragged n (c ∷ cs) h = rw ((==_iff (length c.data_of) n).1 h.0, any) (not_ragged n cs h.1)

-- A column with its rows in the order of `indices`.
abbrev pub IsMoved : List ℕ → OutputColumn → OutputColumn → Type 0
IsMoved indices col out =
    (out.proj ≡ col.proj)
    × (length out.data_of ≡ length col.data_of)
    × ((i : ℕ)
        → i < length col.data_of
        → get_elem? out.data_of i ≡ get_elem? col.data_of (entry indices i))

abbrev pub AllMoved : List ℕ → List OutputColumn → List OutputColumn → Type 0
AllMoved indices [] [] = Unit
AllMoved indices (c ∷ cs) (o ∷ os) = IsMoved indices c o × AllMoved indices cs os
AllMoved indices _ _ = ⊥

column-IsMoved :
    (n : ℕ) (indices : List ℕ) (col : OutputColumn)
    → Shuffle (range_from 0 n) indices
    → length col.data_of ≡ n
    → (out : OutputColumn) × (permute_column indices col ≡ ok out) × IsMoved indices col out
unfolding permute_column
column-IsMoved n indices col s e =
    let len : length indices ≡ n = sym (shuffle_length s) ∙ length-range_from n 0 in
    let (d, ed, ld, at) =
      apply_permutation_in_place-permutes col.data_of indices (entry indices)
        (λ i h. entry_reads indices i (omega (arith, h, e, len)))
        (λ i h. omega (
          arith,
          e,
          entry_all (λ k. k < n) indices i
              (shuffle-All (λ k. k < n) s (range_below n 0 n (omega arith)))
              (omega (arith, h, e, len)),
        ))
        (λ i j h k q.
          entry_injective indices i j (shuffle-IsDistinct s (range-IsDistinct n 0))
            (omega (arith, h, e, len)) (omega (arith, k, e, len)) q) in
    (record { proj = col.proj; data_of = d }, rw ed refl, (refl, ld, at))

columns_moved :
    (n : ℕ) (indices : List ℕ) (columns : List OutputColumn)
    → Shuffle (range_from 0 n) indices
    → IsRectangle n columns
    → (out : List OutputColumn) × (traverse (permute_column indices) columns ≡ ok out)
      × AllMoved indices columns out
columns_moved n indices [] s h = ([], refl, tt)
columns_moved n indices (c ∷ cs) s h =
    let (o, eo, mo) = column-IsMoved n indices c s h.0 in
    let (os, es, ms) = columns_moved n indices cs s h.1 in (o ∷ os, rw (eo, es) refl, (mo, ms))

-- For columns of one length, with an ORDER BY that is not empty and whose columns are found and
-- hold cells that all compare, the engine MergeTree returns. There is one order of the row
-- numbers in which no row stands right before one that the ORDER BY columns put earlier, and
-- every column is returned with its projection and its rows in this order.
pub order_columns-sorts :
    (config : EngineConfig) (first : OutputColumn) (rest : List OutputColumn)
    → is_empty config.order_by ≡ false
    → IsRectangle (length first.data_of) (first ∷ rest)
    → All (HasKey (first ∷ rest)) config.order_by
    → (places : List ℕ) × (indices : List ℕ) × (out : List OutputColumn) × (order_columns config
          (first ∷ rest)
        ≡ ok out)
      × Shuffle (range_from 0 (length first.data_of)) indices
      × IsSorted (compare_by (cell_at (first ∷ rest)) places) indices
      × (traverse
            (λ proj. ok_or (order_index (first ∷ rest) proj) invalid_columns_specified)
            config.order_by
          ≡ ok places)
      × AllMoved indices (first ∷ rest) out
unfolding order_columns
order_columns-sorts config first rest given rect found =
    let n : ℕ = length first.data_of in
    let columns : List OutputColumn = first ∷ rest in
    let (places, ep, keys) = Keys-found n columns config.order_by rect found in
    let (indices, ei, sorted, shuffled) =
      sort_by-IsSorted (compare_by (cell_at columns) places) (λ i. i < n)
        (λ a b p q. rows_compare columns n places keys a b p q) (range_from 0 n)
        (range_below n 0 n (omega arith)) in
    let (out, eo, moved) = columns_moved n indices columns shuffled rect in
    (
      places,
      indices,
      out,
      rw (given, not_ragged n columns rect, ep, ei, eo) refl,
      shuffled,
      sorted,
      ep,
      moved,
    )
