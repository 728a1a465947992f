-- ===== src/Tests/Values.antt =====
-- Runs on values, permutations and frames.
use touchhouse.Prelude.{
  ℕ, zero, suc, ◌<◌, ◌^◌, true, none, some, List, [], ◌∷◌, ◌++◌, ◌≡◌, ◌≢◌, refl, Ordering, length,
  get_elem?, arith,
}
use touchhouse.Outcome.{ok}
use touchhouse.Value.{Value, partial_cmp, eq, hash, get_type}
use touchhouse.Value.Archived.{archive, to_value}
use touchhouse.Value.Archived.Agreement.{archived_agrees}
use touchhouse.Value.Order.{
  partial_cmp-flip, eq-partial_cmp, partial_cmp_trans, hash_of_eq, comparable,
}
use touchhouse.Value.Float.{f64_key, is_nan32}
use touchhouse.Engines.Permute.{apply_permutation_in_place}
use touchhouse.Engines.Permute.Whole.{apply_permutation_in_place-permutes}
use touchhouse.Tcp.{decode, encode}
use touchhouse.Tcp.Frames.{decode-encode}
use touchhouse.Tests.Fixtures.{cells}

archived_agrees_example : to_value (archive (Value.bool true)) ≡ Value.bool true
archived_agrees_example = (archived_agrees (Value.bool true) Value.null).6

partial_cmp-flip_example : partial_cmp (Value.uint8 2) (Value.uint8 1) ≡ some Ordering.gt
unfolding partial_cmp
partial_cmp-flip_example = partial_cmp-flip (Value.uint8 1) (Value.uint8 2)

eq-partial_cmp_example : eq (Value.bool true) (Value.bool true) ≡ true
unfolding partial_cmp
eq-partial_cmp_example = eq-partial_cmp (Value.bool true) (Value.bool true)

partial_cmp_trans_example : partial_cmp (Value.uint8 1) (Value.uint8 3) ≡ some Ordering.lt
unfolding partial_cmp
partial_cmp_trans_example =
    partial_cmp_trans (Value.uint8 1) (Value.uint8 2) (Value.uint8 3) refl refl

-- The two zeros of an `f64`.
hash_of_eq_example : hash (Value.f64 0) ≡ hash (Value.f64 (2 ^ 63))
unfolding eq f64_key
hash_of_eq_example = hash_of_eq (Value.f64 0) (Value.f64 (2 ^ 63)) (omega arith) (omega arith) refl

comparable_example : partial_cmp (Value.f32 0) (Value.f32 1) ≢ none
unfolding get_type is_nan32
comparable_example = comparable (Value.f32 0) (Value.f32 1) refl refl refl

-- Three entries, moved round.
abbrev turned : ℕ → ℕ
turned zero = 1
turned (suc zero) = 2
turned (suc (suc n)) = 0

abbrev turned_list : List ℕ
turned_list = 1 ∷ 2 ∷ 0 ∷ []

turned_reads : (i : ℕ) → i < 3 → get_elem? turned_list i ≡ some (turned i)
turned_reads zero h = refl
turned_reads (suc zero) h = refl
turned_reads (suc (suc zero)) h = refl
turned_reads (suc (suc (suc i))) h = absurd (omega (arith, h))

turned_below : (i : ℕ) → i < 3 → turned i < 3
turned_below zero h = omega arith
turned_below (suc zero) h = omega arith
turned_below (suc (suc n)) h = omega arith

turned_injective : (i j : ℕ) → i < 3 → j < 3 → turned i ≡ turned j → i ≡ j
turned_injective zero zero h k e = refl
turned_injective zero (suc zero) h k e = absurd (omega (arith, e))
turned_injective zero (suc (suc j)) h k e = absurd (omega (arith, e))
turned_injective (suc zero) zero h k e = absurd (omega (arith, e))
turned_injective (suc zero) (suc zero) h k e = refl
turned_injective (suc zero) (suc (suc j)) h k e = absurd (omega (arith, e))
turned_injective (suc (suc i)) zero h k e = absurd (omega (arith, e))
turned_injective (suc (suc i)) (suc zero) h k e = absurd (omega (arith, e))
turned_injective (suc (suc i)) (suc (suc j)) h k e = omega (arith, h, k)

apply_permutation_in_place-permutes_example :
    (out : List Value) × (apply_permutation_in_place cells turned_list ≡ ok out)
    × (length out ≡ 3)
    × ((i : ℕ) → i < 3 → get_elem? out i ≡ get_elem? cells (turned i))
apply_permutation_in_place-permutes_example =
    apply_permutation_in_place-permutes cells turned_list turned turned_reads turned_below
      turned_injective

decode-encode_example :
    decode (λ n. true) (encode (104 ∷ 105 ∷ []) [] ++ (7 ∷ [])) ≡ ok (some (104 ∷ 105 ∷ []), 7 ∷ [])
decode-encode_example = decode-encode (λ n. true) (104 ∷ 105 ∷ []) (7 ∷ []) (omega arith)
