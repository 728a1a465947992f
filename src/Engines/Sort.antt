-- ===== src/Engines/Sort.antt =====
-- engines/mod.rs and the two engines' `order_columns`: the configuration, the comparison of two
-- rows by the ORDER BY columns, and the standard library's `sort_by`, here the stable insertion
-- sort. It is also one of the orders that `sort_unstable_by` may leave.
pub mod Sorted
use touchhouse.Prelude.{ℕ, List, [], ◌∷◌, Option, none, some, Ordering, ◌==◌, Bool, true, false}
use touchhouse.Outcome.{Result, ok, ◌>>=◌, index}
use touchhouse.Value.{Value, partial_cmp}
use touchhouse.Storage.Column.{ColumnDef, Projection}

pub record EngineConfig : Type 0 where
  pub order_by : List Projection
  pub primary_key : List ColumnDef

-- The comparator. `read` finds the cell of a row in a column. Where two cells do not compare the
-- source's `expect` panics.
unfoldable pub compare_by {ℓ} :
    {A : Type ℓ} → (A → ℕ → Result Value) → List ℕ → A → A → Result Ordering
compare_by read [] a b = ok Ordering.eq
compare_by read (c ∷ cs) a b = read a c >>= λ x. read b c >>= λ y. index (partial_cmp x y) >>= λ o.
    elim o [
      | Ordering.eq ↦ compare_by read cs a b
      | Ordering.lt ↦ ok Ordering.lt
      | Ordering.gt ↦ ok Ordering.gt
    ]

module _ {ℓ} {A : Type ℓ} (cmp : A → A → Result Ordering) where
  unfoldable pub insert : A → List A → Result (List A)
  insert x [] = ok (x ∷ [])
  insert x (y ∷ ys) = cmp x y >>= λ o. elim o [
    | Ordering.gt ↦ insert x ys >>= λ zs. ok (y ∷ zs)
    | Ordering.eq ↦ ok (x ∷ y ∷ ys)
    | Ordering.lt ↦ ok (x ∷ y ∷ ys)
  ]

  unfoldable pub sort_by : List A → Result (List A)
  unfolding insert
  sort_by [] = ok []
  sort_by (x ∷ xs) = sort_by xs >>= insert x
