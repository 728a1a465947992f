-- ===== src/Value/Float.antt =====
-- IEEE 754 binary32 and binary64 by their bits: the sign bit, and below it the exponent and the
-- fraction, whose order as a number is the order of the magnitudes. The infinities end the
-- magnitudes; what lies above them is NaN.
use touchhouse.Prelude.{
  ℕ, ◌-◌, ◌%◌, ◌^◌, Bool, true, false, ℤ, pos, negsuc, Option, none, some, Ordering, compare_ℤ, ltb,
  ◌==◌, if◌then◌else◌,
}

abbrev inf32 : ℕ
inf32 = 0x7f80_0000

abbrev inf64 : ℕ
inf64 = 0x7ff0_0000_0000_0000

unfoldable pub is_nan32 : ℕ → Bool
is_nan32 b = ltb inf32 (b % 2 ^ 31)

unfoldable pub is_nan64 : ℕ → Bool
is_nan64 b = ltb inf64 (b % 2 ^ 63)

-- Of both signs.
unfoldable pub is_zero32 : ℕ → Bool
is_zero32 b = (b % 2 ^ 31) == 0

unfoldable pub is_zero64 : ℕ → Bool
is_zero64 b = (b % 2 ^ 63) == 0

abbrev signed : Bool → ℕ → ℤ
signed negative m = if negative then (if m == 0 then pos 0 else negsuc (m - 1)) else pos m

-- The place of a float in the order of the floats; NaN has none, and the zeros have one.
unfoldable pub f32_key : ℕ → Option ℤ
unfolding is_nan32
f32_key b = if is_nan32 b then none else some (signed (ltb (2 ^ 31 - 1) b) (b % 2 ^ 31))

unfoldable pub f64_key : ℕ → Option ℤ
unfolding is_nan64
f64_key b = if is_nan64 b then none else some (signed (ltb (2 ^ 63 - 1) b) (b % 2 ^ 63))

abbrev pub key_cmp : Option ℤ → Option ℤ → Option Ordering
key_cmp (some l) (some r) = some (compare_ℤ l r)
key_cmp _ _ = none

abbrev pub key_eq : Option ℤ → Option ℤ → Bool
key_eq (some l) (some r) = elim (compare_ℤ l r) [ Ordering.eq ↦ true | _ ↦ false ]
key_eq _ _ = false
