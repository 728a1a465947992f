-- ===== src/Prelude/Int.antt =====
-- Signed integers over the native numbers, with the order of Rust's `i8` to `i64`.
use Prim.Native.Nat.{ℕ, compare, Ordering}
use mathlib.Core.Path.{◌≡◌, refl, ap}
use native.Mathlib.Omega.{arith}
use touchhouse.Prelude.Tests.{flip_ord, compare-flip, eq_of_compare, compare_self}

-- `negsuc n` is -(n + 1).
pub data ℤ : Type 0 where
  pos : ℕ → ℤ
  negsuc : ℕ → ℤ

abbrev pub compare_ℤ : ℤ → ℤ → Ordering
compare_ℤ (pos a) (pos b) = compare a b
compare_ℤ (pos a) (negsuc b) = Ordering.gt
compare_ℤ (negsuc a) (pos b) = Ordering.lt
compare_ℤ (negsuc a) (negsuc b) = compare b a

pub compare_ℤ-flip : (a b : ℤ) → compare_ℤ b a ≡ flip_ord (compare_ℤ a b)
compare_ℤ-flip (pos a) (pos b) = compare-flip a b
compare_ℤ-flip (pos a) (negsuc b) = refl
compare_ℤ-flip (negsuc a) (pos b) = refl
compare_ℤ-flip (negsuc a) (negsuc b) = compare-flip b a

pub eq_of_compare_ℤ : (a b : ℤ) → compare_ℤ a b ≡ Ordering.eq → a ≡ b
eq_of_compare_ℤ (pos a) (pos b) h = ap pos (eq_of_compare a b h)
eq_of_compare_ℤ (pos a) (negsuc b) h = cc
eq_of_compare_ℤ (negsuc a) (pos b) h = cc
eq_of_compare_ℤ (negsuc a) (negsuc b) h = ground (arith, eq_of_compare b a)

pub compare_ℤ_self : (a : ℤ) → compare_ℤ a a ≡ Ordering.eq
compare_ℤ_self (pos a) = compare_self a
compare_ℤ_self (negsuc a) = compare_self a

pub compare_ℤ_trans :
    (a b c : ℤ)
    → compare_ℤ a b ≡ Ordering.lt
    → compare_ℤ b c ≡ Ordering.lt
    → compare_ℤ a c ≡ Ordering.lt
compare_ℤ_trans a b c h k = ground arith
