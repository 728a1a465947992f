-- ===== src/Tests/Sorts.antt =====
-- The sort of the tests keeps the entries of a list.
use mathlib.Core.Path.{subst}
use touchhouse.Prelude.{◌≡◌, ap, String, Ordering, some, List, [], ◌∷◌}
use touchhouse.Outcome.{Result, ok, err, panics, hangs, >>=-eq-ok, ok-eq}
use touchhouse.Storage.Part.Granules.{some_eq}
use touchhouse.Engines.Sort.{insert, sort_by}
use touchhouse.Engines.Sort.Sorted.{Shuffle, nil, cons, swap, trans, shuffle_refl}
use touchhouse.Execution.Merge.Round.Found.{SortsNames}
use touchhouse.Tests.Fixtures.{externs, sorted}

module _ {ℓ} {A : Type ℓ} (cmp : A → A → Result Ordering) where
  insert-Shuffle : (x : A) (ys zs : List A) → insert cmp x ys ≡ ok zs → Shuffle (x ∷ ys) zs
  unfolding insert
  insert-Shuffle x [] zs h = subst (Shuffle (x ∷ [])) (ok-eq h) (shuffle_refl (x ∷ []))
  insert-Shuffle x (y ∷ ys) zs h =
      let (o, e, _) = >>=-eq-ok (cmp x y) _ h in
      elim o as (λ o. cmp x y ≡ ok o → Shuffle (x ∷ y ∷ ys) zs) [
        | Ordering.lt ↦ λ e.
            subst (Shuffle (x ∷ y ∷ ys)) (ok-eq (rw (e, insert) at h)) (shuffle_refl (x ∷ y ∷ ys))
        | Ordering.eq ↦ λ e.
            subst (Shuffle (x ∷ y ∷ ys)) (ok-eq (rw (e, insert) at h)) (shuffle_refl (x ∷ y ∷ ys))
        | Ordering.gt ↦ λ e.
            let (rest, i, r) = >>=-eq-ok (insert cmp x ys) _ (rw (e, insert) at h) in
            subst (Shuffle (x ∷ y ∷ ys)) (ok-eq r)
              (trans (swap x y ys) (cons y (insert-Shuffle x ys rest i)))
      ]
        e

  sort_by-Shuffle : (xs zs : List A) → sort_by cmp xs ≡ ok zs → Shuffle xs zs
  unfolding sort_by
  sort_by-Shuffle [] zs h = subst (Shuffle []) (ok-eq h) nil
  sort_by-Shuffle (x ∷ xs) zs h =
      let (ys, e, i) = >>=-eq-ok (sort_by cmp xs) _ h in
      trans (cons x (sort_by-Shuffle xs ys e)) (insert-Shuffle x ys zs i)

sorted-some : (r : Result (List String)) (l : List String) → sorted r ≡ some l → r ≡ ok l
sorted-some (ok a) l h = ap (λ z. ok z) (some_eq h)
sorted-some (err e) l h = cc h
sorted-some panics l h = cc h
sorted-some hangs l h = cc h

pub externs-SortsNames : SortsNames externs
externs-SortsNames cmp l r h =
    sort_by-Shuffle (λ a b. ok (cmp a b)) l r (sorted-some (sort_by (λ a b. ok (cmp a b)) l) r h)
