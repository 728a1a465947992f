-- ===== src/Engines/Sort/Sorted.antt =====
-- The sort of the engines: where the comparator never panics, it returns, and what it returns is in
-- order and has the same entries.
use touchhouse.Prelude.{
  suc, ◌≡◌, ◌≢◌, refl, ap, ◌∙◌, List, [], ◌∷◌, length, Ordering, flip_ord, All,
}
use touchhouse.Outcome.{Result, ok}
use touchhouse.Engines.Sort.{insert, sort_by}

module _ {ℓ} {A : Type ℓ} where
  -- The entries of one list in another order.
  pub data Shuffle : List A → List A → Type ℓ where
    nil : Shuffle [] []
    cons : (x : A) {xs ys : List A} → Shuffle xs ys → Shuffle (x ∷ xs) (x ∷ ys)
    swap : (x y : A) (l : List A) → Shuffle (x ∷ y ∷ l) (y ∷ x ∷ l)
    trans : {xs ys zs : List A} → Shuffle xs ys → Shuffle ys zs → Shuffle xs zs

  pub shuffle_refl : (xs : List A) → Shuffle xs xs
  shuffle_refl [] = nil
  shuffle_refl (x ∷ xs) = cons x (shuffle_refl xs)

  pub shuffle-All {κ} : (P : A → Type κ) {xs ys : List A} → Shuffle xs ys → All P xs → All P ys
  shuffle-All P nil h = tt
  shuffle-All P (cons x s) h = (h.0, shuffle-All P s h.1)
  shuffle-All P (swap x y l) h = (h.1.0, (h.0, h.1.1))
  shuffle-All P (trans s t) h = shuffle-All P t (shuffle-All P s h)

  pub shuffle_length : {xs ys : List A} → Shuffle xs ys → length xs ≡ length ys
  shuffle_length nil = refl
  shuffle_length (cons x s) = ap suc (shuffle_length s)
  shuffle_length (swap x y l) = refl
  shuffle_length (trans s t) = shuffle_length s ∙ shuffle_length t

module _ {ℓ} {A : Type ℓ} (cmp : A → A → Result Ordering) where
  -- The first may stand before the second.
  abbrev pub InOrder : A → A → Type 0
  InOrder x y = (o : Ordering) × (cmp x y ≡ ok o) × (o ≢ Ordering.gt)

  abbrev pub IsSorted : List A → Type 0
  IsSorted [] = Unit
  IsSorted (x ∷ []) = Unit
  IsSorted (x ∷ y ∷ l) = InOrder x y × IsSorted (y ∷ l)

  tail-IsSorted : (x : A) (l : List A) → IsSorted (x ∷ l) → IsSorted l
  tail-IsSorted x [] s = tt
  tail-IsSorted x (y ∷ l) s = s.1

  module _ {κ} (P : A → Type κ)
      (total : (a b : A)
        → P a
        → P b
        → (o : Ordering) × (cmp a b ≡ ok o) × (cmp b a ≡ ok (flip_ord o))) where
    -- Sorted, with a first entry that is one of two.
    abbrev Inserted : A → List A → Result (List A) → Type ℓ
    Inserted x ys r =
        (zs : List A) × (r ≡ ok zs)
        × IsSorted zs
        × Shuffle (x ∷ ys) zs
        × ((w : A) → InOrder w x → IsSorted (w ∷ ys) → IsSorted (w ∷ zs))

    insert_first :
        (x y : A) (ys : List A) (o : Ordering)
        → cmp x y ≡ ok o
        → o ≢ Ordering.gt
        → IsSorted (y ∷ ys)
        → Inserted x (y ∷ ys) (ok (x ∷ y ∷ ys))
    insert_first x y ys o e n s =
        (x ∷ y ∷ ys, refl, ((o, e, n), s), shuffle_refl (x ∷ y ∷ ys), λ w i j. (i, ((o, e, n), s)))

    insert_sorted :
        (x : A) (ys : List A) → P x → All P ys → IsSorted ys → Inserted x ys (insert cmp x ys)
    unfolding insert
    insert_sorted x [] p h s = (x ∷ [], refl, tt, shuffle_refl (x ∷ []), λ w i j. (i, tt))
    insert_sorted x (y ∷ ys) p h s =
        let (o, e, f) = total x y p h.0 in
        elim o
            as (λ o.
              cmp x y ≡ ok o
              → cmp y x ≡ ok (flip_ord o)
              → Inserted x (y ∷ ys) (insert cmp x (y ∷ ys))) [
                | Ordering.lt ↦
                    λ e f. rw (e, insert) (insert_first x y ys Ordering.lt e (λ c. cc c) s)
                | Ordering.eq ↦
                    λ e f. rw (e, insert) (insert_first x y ys Ordering.eq e (λ c. cc c) s)
                | Ordering.gt ↦ λ e f.
                    let (zs, ez, sz, sh, first) = insert_sorted x ys p h.1 (tail-IsSorted y ys s) in
                    (
                      y ∷ zs,
                      rw (e, insert, ez) refl,
                      first y (Ordering.lt, f, λ c. cc c) s,
                      trans (swap x y ys) (cons y sh),
                      λ w i j. (j.0, first y (Ordering.lt, f, λ c. cc c) s),
                    )
              ]
          e f

    -- Where any two entries with a property compare, and from either side alike, the sort of
    -- entries that all have it returns, and returns the entries in an order in which no entry
    -- stands right before one that is less.
    pub sort_by-IsSorted :
        (xs : List A)
        → All P xs
        → (zs : List A) × (sort_by cmp xs ≡ ok zs) × IsSorted zs × Shuffle xs zs
    unfolding sort_by
    sort_by-IsSorted [] h = ([], refl, tt, nil)
    sort_by-IsSorted (x ∷ xs) h =
        let (ys, e, s, sh) = sort_by-IsSorted xs h.1 in
        let (zs, ez, sz, sh', _) = insert_sorted x ys h.0 (shuffle-All P sh h.1) s in
        (zs, rw (e, ez) refl, sz, trans (cons x sh) sh')
