-- ===== src/Engines/Replacing/Kept.antt =====
-- engines/replacing_merge_tree.rs: the rows that stay.
use touchhouse.Prelude.{ℕ, ◌≡◌, refl, Bool, true, false, ◌⊎◌, inl, inr, List, [], ◌∷◌, All}
use mathlib.Core.Path.{subst}
use touchhouse.Outcome.{Result, ok, ◌>>=◌, >>=-eq-ok, ok-eq}
use touchhouse.Value.{Value}
use touchhouse.Engines.Sort.{compare_by, sort_by}
use touchhouse.Engines.Replacing.{
  same_key, dedup_from, dedup_by, reverse_onto, reverse, cell_of, replace_rows,
}

module _ (same : List Value → List Value → Result Bool) where
  -- No row is the same as the row right after it.
  abbrev pub AreApart : List (List Value) → Type 0
  AreApart [] = Unit
  AreApart (a ∷ []) = Unit
  AreApart (a ∷ b ∷ l) = (same a b ≡ ok false) × AreApart (b ∷ l)

  -- One of the rows is this row, or the same.
  abbrev pub IsCovered : List Value → List (List Value) → Type 0
  IsCovered r [] = ⊥
  IsCovered r (a ∷ l) = ((r ≡ a) ⊎ (same r a ≡ ok true)) ⊎ IsCovered r l

  -- From the back: no row is the same as the row right before it.
  abbrev AreApartBack : List Value → List (List Value) → Type 0
  AreApartBack a [] = Unit
  AreApartBack a (b ∷ l) = (same b a ≡ ok false) × AreApartBack b l

  apart_reversed :
      (a : List Value) (l acc : List (List Value))
      → AreApartBack a l
      → AreApart (a ∷ acc)
      → AreApart (reverse_onto l (a ∷ acc))
  apart_reversed a [] acc h k = k
  apart_reversed a (b ∷ l) acc h k = apart_reversed b l (a ∷ acc) h.1 (h.0, k)

  IsCovered-reversed :
      (r : List Value) (l acc : List (List Value))
      → IsCovered r l ⊎ IsCovered r acc
      → IsCovered r (reverse_onto l acc)
  IsCovered-reversed r [] acc (inl h) = absurd h
  IsCovered-reversed r [] acc (inr h) = h
  IsCovered-reversed r (a ∷ l) acc (inl (inl h)) = IsCovered-reversed r l (a ∷ acc) (inr (inl h))
  IsCovered-reversed r (a ∷ l) acc (inl (inr h)) = IsCovered-reversed r l (a ∷ acc) (inl h)
  IsCovered-reversed r (a ∷ l) acc (inr h) = IsCovered-reversed r l (a ∷ acc) (inr (inr h))

  -- What `dedup_by` leaves, after a row that stays.
  abbrev Left : List Value → List (List Value) → List (List Value) → Type 0
  Left a xs rest = AreApartBack a rest × All (λ r. IsCovered r (a ∷ rest)) xs

  All-IsCovered :
      (a b : List Value) (xs rest : List (List Value))
      → All (λ r. IsCovered r (b ∷ rest)) xs
      → All (λ r. IsCovered r (a ∷ b ∷ rest)) xs
  All-IsCovered a b [] rest h = tt
  All-IsCovered a b (x ∷ xs) rest h = (inr h.0, All-IsCovered a b xs rest h.1)

  Left-by :
      (a x : List Value) (xs out : List (List Value)) (b : Bool)
      → same x a ≡ ok b
      → elim b [
        | true ↦ dedup_from same a xs
        | false ↦ dedup_from same x xs >>= λ rest. ok (x ∷ rest)
      ]
        ≡ ok out
      → ((o : List (List Value)) → dedup_from same a xs ≡ ok o → Left a xs o)
      → ((o : List (List Value)) → dedup_from same x xs ≡ ok o → Left x xs o)
      → Left a (x ∷ xs) out
  Left-by a x xs out true e h f g = ((f out h).0, (inl (inr e), (f out h).1))
  Left-by a x xs out false e h f g =
      let (rest, r, h1) = >>=-eq-ok (dedup_from same x xs) _ h in
      let (back, covered) = g rest r in
      subst (Left a (x ∷ xs)) (ok-eq h1)
        ((e, back), (inr (inl (inl refl)), All-IsCovered a x xs rest covered))

  from_Left :
      (a : List Value) (xs out : List (List Value)) → dedup_from same a xs ≡ ok out → Left a xs out
  from_Left a [] out h = subst (Left a []) (ok-eq h) (tt, tt)
  from_Left a (x ∷ xs) out h =
      let (b, e, h1) = >>=-eq-ok (same x a) _ h in
      Left-by a x xs out b e h1 (from_Left a xs) (from_Left x xs)

  All-unreversed {κ} :
      (P : List Value → Type κ) (l acc : List (List Value))
      → All P (reverse_onto l acc)
      → All P l × All P acc
  All-unreversed P [] acc h = (tt, h)
  All-unreversed P (a ∷ l) acc h =
      let (l', acc') = All-unreversed P l (a ∷ acc) h in ((acc'.0, l'), acc'.1)

  All-onto :
      (l xs : List (List Value))
      → All (λ r. IsCovered r l) xs
      → All (λ r. IsCovered r (reverse l)) xs
  All-onto l [] h = tt
  All-onto l (x ∷ xs) h = (IsCovered-reversed x l [] (inl h.0), All-onto l xs h.1)

  reversed_left :
      (l out : List (List Value))
      → dedup_by same l ≡ ok out
      → AreApart (reverse out) × All (λ r. IsCovered r (reverse out)) l
  reversed_left [] out h =
      subst (λ o. AreApart (reverse o) × All (λ r. IsCovered r (reverse o)) []) (ok-eq h) (tt, tt)
  reversed_left (x ∷ xs) out h =
      let (rest, r, h1) = >>=-eq-ok (dedup_from same x xs) _ h in
      let (back, covered) = from_Left x xs rest r in
      subst (λ o. AreApart (reverse o) × All (λ r. IsCovered r (reverse o)) (x ∷ xs)) (ok-eq h1)
        (apart_reversed x rest [] back tt, All-onto (x ∷ rest) (x ∷ xs) (inl (inl refl), covered))

-- Where ReplacingMergeTree's sort and removal of rows succeed, no two neighbours of the rows that
-- are left agree on the primary key, and each row that was sorted is left or agrees on the
-- primary key with one that is left.
pub replace_rows-AreApart :
    (order_by_indexes pk_indexes : List ℕ) (rows out : List (List Value))
    → replace_rows order_by_indexes pk_indexes rows ≡ ok out
    → (sorted : List (List Value)) × (sort_by (compare_by cell_of order_by_indexes) rows
        ≡ ok sorted)
      × AreApart (same_key pk_indexes) out
      × All (λ row. IsCovered (same_key pk_indexes) row out) sorted
unfolding replace_rows
replace_rows-AreApart order_by_indexes pk_indexes rows out h =
    let (sorted, s, h1) = >>=-eq-ok (sort_by (compare_by cell_of order_by_indexes) rows) _ h in
    let (kept, k, h2) = >>=-eq-ok (dedup_by (same_key pk_indexes) (reverse sorted)) _ h1 in
    let (apart, covered) = reversed_left (same_key pk_indexes) (reverse sorted) kept k in
    subst
      (λ o.
        (sorted : List (List Value)) × (sort_by (compare_by cell_of order_by_indexes) rows
          ≡ ok sorted)
        × AreApart (same_key pk_indexes) o
        × All (λ row. IsCovered (same_key pk_indexes) row o) sorted)
      (ok-eq h2)
      (
        sorted,
        s,
        apart,
        (All-unreversed (same_key pk_indexes)
            (λ row. IsCovered (same_key pk_indexes) row (reverse kept)) sorted [] covered).0,
      )
