-- ===== src/Engines/Permute/Whole.antt =====
-- engines/merge_tree.rs: the whole of `apply_permutation_in_place`.
use touchhouse.Prelude.{
  ℕ, zero, suc, ◌+◌, ◌≤◌, ◌<◌, ◌≡◌, refl, Bool, true, false, List, [], ◌∷◌, length, get_elem?,
  replicate, some, length-replicate, inl, inr, arith,
}
use mathlib.Core.Path.{subst}
use native.Mathlib.Decide.{ℕ_discrete}
use touchhouse.Outcome.{ok}
use touchhouse.Engines.Permute.{range_from, cycles, apply_permutation_in_place}
use touchhouse.Engines.Permute.Cycle.{
  unmarked, IsMarked, IsUnmarked, IsMarked-cases, Outer, Inner, walk_ends,
}

unmarked_le : (v : List Bool) → unmarked v ≤ length v
unmarked_le [] = omega arith
unmarked_le (true ∷ v) = omega (arith, unmarked_le v)
unmarked_le (false ∷ v) = omega (arith, unmarked_le v)

none_marked : (n i : ℕ) → IsMarked (replicate n false) i → ⊥
none_marked zero i m = cc
none_marked (suc n) zero m = cc
none_marked (suc n) (suc i) m = none_marked n i m

below_suc :
    (v : List Bool) (k : ℕ)
    → ((i : ℕ) → i < k → IsMarked v i)
    → IsMarked v k
    → (i : ℕ) → i < suc k
    → IsMarked v i
below_suc v k done here i lt = elim (ℕ_discrete k i) [
  | yes e ↦ subst (IsMarked v) e here
  | no ne ↦ done i (omega (arith, lt, ne))
]

module _ {A : Type 0} (n : ℕ) (p : ℕ → ℕ) (indices : List ℕ) (orig : List A)
    (reads : (i : ℕ) → i < n → get_elem? indices i ≡ some (p i))
    (in_range : (i : ℕ) → i < n → p i < n)
    (injective : (i j : ℕ) → i < n → j < n → p i ≡ p j → i ≡ j) where
  -- The invariant between cycles, as it is where the next one begins.
  enter :
      (start : ℕ) (l : List A) (v : List Bool)
      → Outer n p indices orig reads in_range injective l v
      → start < n
      → IsUnmarked v start
      → Inner n p indices orig reads in_range injective start start l v
  enter start l v inv lt u = record {
    length_l = inv.length_l;
    length_v = inv.length_v;
    start_lt = lt;
    cur_lt = lt;
    fresh = u;
    settled = inv.settled;
    untouched = λ i w ne. inv.untouched i w;
    held = inv.untouched start u;
    back = λ i below m ns. inv.back i below m;
    before = λ i below e ne. absurd (ne refl);
  }

  -- Every start from `k` on is visited, and those before it were.
  cycles_end :
      (m k : ℕ) (l : List A) (v : List Bool)
      → Outer n p indices orig reads in_range injective l v
      → k + m ≡ n
      → ((i : ℕ) → i < k → IsMarked v i)
      → (out : List A) × (cycles (range_from k m) indices l v ≡ ok out)
        × (length out ≡ n)
        × ((i : ℕ) → i < n → get_elem? out i ≡ get_elem? orig (p i))
  unfolding cycles
  cycles_end zero k l v inv e done =
      (l, refl, inv.length_l, λ i lt. inv.settled i (done i (omega arith)))
  cycles_end (suc m) k l v inv e done = elim (IsMarked-cases v k (omega (arith, inv.length_v))) [
    | inl seen ↦
        let rec = cycles_end m (suc k) l v inv (omega arith) (below_suc v k done seen) in
        (rec.0, rw (seen) rec.1, rec.2, rec.3)
    | inr u ↦
        let (l', v', walked, inv', kept, here) =
          walk_ends n p indices orig reads in_range injective (length l) k k l v
            (enter k l v inv (omega arith) u) (λ ne. absurd (ne refl))
            (omega (arith, unmarked_le v, inv.length_l, inv.length_v)) in
        let rec =
          cycles_end m (suc k) l' v' inv' (omega arith)
            (below_suc v' k (λ i lt. kept i (done i lt)) here) in
        (rec.0, rw (u, reads k (omega arith), walked) rec.1, rec.2, rec.3)
  ]

-- For a permutation `p` of the numbers below the length of a column, listed by `indices`,
-- `apply_permutation_in_place` returns, and entry `i` of the column it leaves is entry `p i` of
-- the one it was given.
pub apply_permutation_in_place-permutes :
    {A : Type 0} (orig : List A) (indices : List ℕ) (p : ℕ → ℕ)
    → ((i : ℕ) → i < length orig → get_elem? indices i ≡ some (p i))
    → ((i : ℕ) → i < length orig → p i < length orig)
    → ((i j : ℕ) → i < length orig → j < length orig → p i ≡ p j → i ≡ j)
    → (out : List A) × (apply_permutation_in_place orig indices ≡ ok out)
      × (length out ≡ length orig)
      × ((i : ℕ) → i < length orig → get_elem? out i ≡ get_elem? orig (p i))
unfolding apply_permutation_in_place
apply_permutation_in_place-permutes orig indices p reads in_range injective =
    cycles_end (length orig) p indices orig reads in_range injective (length orig) 0 orig
      (replicate (length orig) false)
      record {
        length_l = refl;
        length_v = length-replicate (length orig) false;
        settled = λ i m. absurd (none_marked (length orig) i m);
        untouched = λ i u. refl;
        back = λ i lt m. absurd (none_marked (length orig) (p i) m);
      }
      (omega arith) (λ i lt. absurd (omega (arith, lt)))
