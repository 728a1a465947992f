-- ===== src/Value/Order.antt =====
-- The comparisons of values keep the contracts of Rust's `PartialEq`, `PartialOrd` and `Hash`.
use Prim.Native.String.{[], ◌∷◌, String, compare as compare_string, then}
use Prim.Native.String.compare
use Prim.Native.Char.{code}
use touchhouse.Prelude.{
  ℕ, ◌^◌, ◌<◌, ◌≡◌, refl, ap, sym, ◌∙◌, ◌≢◌, Bool, true, false, ℤ, Option, none, some, Ordering,
  compare, flip_ord, compare-flip, eq_of_compare, compare_ℤ-flip, eq_of_compare_ℤ, compare_ℤ_trans,
  arith, eq_iff,
}
use touchhouse.Value.{Value, get_type, eq, partial_cmp, hash, compare_bool}
use touchhouse.Value.Float.{key_cmp, f32_key, f64_key, is_nan32, is_nan64, is_zero32, is_zero64}

then-flip : (o r : Ordering) → then (flip_ord o) (flip_ord r) ≡ flip_ord (then o r)
then-flip Ordering.lt r = refl
then-flip Ordering.eq r = refl
then-flip Ordering.gt r = refl

compare_string-flip : (s t : String) → compare_string t s ≡ flip_ord (compare_string s t)
compare_string-flip [] [] = refl
compare_string-flip [] (d ∷ t) = compare.cons-nil d t ∙ ap flip_ord (sym (compare.nil-cons d t))
compare_string-flip (c ∷ s) [] = compare.nil-cons c s ∙ ap flip_ord (sym (compare.cons-nil c s))
compare_string-flip (c ∷ s) (d ∷ t) = cc (
  compare.cons-cons d c t s,
  compare.cons-cons c d s t,
  compare-flip (code c) (code d),
  compare_string-flip s t,
  then-flip (compare (code c) (code d)) (compare_string s t),
)

compare_string_trans :
    (s t u : String)
    → compare_string s t ≡ Ordering.lt
    → compare_string t u ≡ Ordering.lt
    → compare_string s u ≡ Ordering.lt
compare_string_trans s [] [] h k = cc
compare_string_trans [] [] (e ∷ u) h k = cc
compare_string_trans (c ∷ s) [] (e ∷ u) h k = cc (compare.cons-nil c s)
compare_string_trans s (d ∷ t) [] h k = cc (compare.cons-nil d t)
compare_string_trans [] (d ∷ t) (e ∷ u) h k = compare.nil-cons e u
compare_string_trans (c ∷ s) (d ∷ t) (e ∷ u) h k = ground (
  arith,
  compare.cons-cons c d s t,
  compare.cons-cons d e t u,
  compare.cons-cons c e s u,
  compare_string_trans s t u,
  eq_of_compare (code c) (code d),
  eq_of_compare (code d) (code e),
  eq_of_compare (code c) (code e),
)

compare_bool-flip : (a b : Bool) → compare_bool b a ≡ flip_ord (compare_bool a b)
compare_bool-flip false false = refl
compare_bool-flip false true = refl
compare_bool-flip true false = refl
compare_bool-flip true true = refl

-- An optional ordering, read from the other side.
abbrev pub flip_partial : Option Ordering → Option Ordering
flip_partial none = none
flip_partial (some o) = some (flip_ord o)

key_cmp-flip : (a b : Option ℤ) → key_cmp b a ≡ flip_partial (key_cmp a b)
key_cmp-flip none none = refl
key_cmp-flip none (some b) = refl
key_cmp-flip (some a) none = refl
key_cmp-flip (some a) (some b) = ap some (compare_ℤ-flip a b)

-- Two values compared from the other side compare the other way round, or again not at all.
pub partial_cmp-flip : (v w : Value) → partial_cmp w v ≡ flip_partial (partial_cmp v w)
unfolding partial_cmp
partial_cmp-flip Value.null Value.null = refl
partial_cmp-flip (Value.string l) (Value.string r) = ap some (compare_string-flip l r)
partial_cmp-flip (Value.bool l) (Value.bool r) = ap some (compare_bool-flip l r)
partial_cmp-flip (Value.uuid l) (Value.uuid r) = ap some (compare-flip l r)
partial_cmp-flip (Value.int8 l) (Value.int8 r) = ap some (compare_ℤ-flip l r)
partial_cmp-flip (Value.int16 l) (Value.int16 r) = ap some (compare_ℤ-flip l r)
partial_cmp-flip (Value.int32 l) (Value.int32 r) = ap some (compare_ℤ-flip l r)
partial_cmp-flip (Value.int64 l) (Value.int64 r) = ap some (compare_ℤ-flip l r)
partial_cmp-flip (Value.uint8 l) (Value.uint8 r) = ap some (compare-flip l r)
partial_cmp-flip (Value.uint16 l) (Value.uint16 r) = ap some (compare-flip l r)
partial_cmp-flip (Value.uint32 l) (Value.uint32 r) = ap some (compare-flip l r)
partial_cmp-flip (Value.uint64 l) (Value.uint64 r) = ap some (compare-flip l r)
partial_cmp-flip (Value.f32 l) (Value.f32 r) = key_cmp-flip (f32_key l) (f32_key r)
partial_cmp-flip (Value.f64 l) (Value.f64 r) = key_cmp-flip (f64_key l) (f64_key r)
partial_cmp-flip _ _ = refl

-- What `==` says of an answer of `partial_cmp`.
abbrev pub says_equal : Option Ordering → Bool
says_equal (some Ordering.eq) = true
says_equal _ = false

-- `==` says of two values what `partial_cmp` says: they are equal exactly where it is `Equal`.
pub eq-partial_cmp : (v w : Value) → eq v w ≡ says_equal (partial_cmp v w)
unfolding eq partial_cmp
eq-partial_cmp Value.null Value.null = refl
eq-partial_cmp (Value.string l) (Value.string r) = ground arith
eq-partial_cmp (Value.bool l) (Value.bool r) = ground arith
eq-partial_cmp (Value.uuid l) (Value.uuid r) = ground arith
eq-partial_cmp (Value.int8 l) (Value.int8 r) = ground arith
eq-partial_cmp (Value.int16 l) (Value.int16 r) = ground arith
eq-partial_cmp (Value.int32 l) (Value.int32 r) = ground arith
eq-partial_cmp (Value.int64 l) (Value.int64 r) = ground arith
eq-partial_cmp (Value.uint8 l) (Value.uint8 r) = ground arith
eq-partial_cmp (Value.uint16 l) (Value.uint16 r) = ground arith
eq-partial_cmp (Value.uint32 l) (Value.uint32 r) = ground arith
eq-partial_cmp (Value.uint64 l) (Value.uint64 r) = ground arith
eq-partial_cmp (Value.f32 l) (Value.f32 r) = ground arith
eq-partial_cmp (Value.f64 l) (Value.f64 r) = ground arith
eq-partial_cmp _ _ = refl

some_inj {ℓ} : {A : Type ℓ} (a b : A) → some a ≡ some b → a ≡ b
some_inj a b h = cc

key_cmp_trans :
    (a b c : Option ℤ)
    → key_cmp a b ≡ some Ordering.lt
    → key_cmp b c ≡ some Ordering.lt
    → key_cmp a c ≡ some Ordering.lt
key_cmp_trans (some a) (some b) (some c) h k =
    ap some (compare_ℤ_trans a b c (some_inj _ _ h) (some_inj _ _ k))
key_cmp_trans none b c h k = cc
key_cmp_trans (some a) none c h k = cc
key_cmp_trans (some a) (some b) none h k = cc

compare_trans :
    (a b c : ℕ) → compare a b ≡ Ordering.lt → compare b c ≡ Ordering.lt → compare a c ≡ Ordering.lt
compare_trans a b c h k = ground arith

compare_bool_trans :
    (a b c : Bool)
    → compare_bool a b ≡ Ordering.lt
    → compare_bool b c ≡ Ordering.lt
    → compare_bool a c ≡ Ordering.lt
compare_bool_trans a b c h k = ground arith

-- `Less` is transitive, across all values.
pub partial_cmp_trans :
    (u v w : Value)
    → partial_cmp u v ≡ some Ordering.lt
    → partial_cmp v w ≡ some Ordering.lt
    → partial_cmp u w ≡ some Ordering.lt
unfolding partial_cmp
partial_cmp_trans (Value.string a) (Value.string b) (Value.string c) h k =
    ap some (compare_string_trans a b c (some_inj _ _ h) (some_inj _ _ k))
partial_cmp_trans (Value.bool a) (Value.bool b) (Value.bool c) h k =
    ap some (compare_bool_trans a b c (some_inj _ _ h) (some_inj _ _ k))
partial_cmp_trans (Value.uuid a) (Value.uuid b) (Value.uuid c) h k =
    ap some (compare_trans a b c (some_inj _ _ h) (some_inj _ _ k))
partial_cmp_trans (Value.int8 a) (Value.int8 b) (Value.int8 c) h k =
    ap some (compare_ℤ_trans a b c (some_inj _ _ h) (some_inj _ _ k))
partial_cmp_trans (Value.int16 a) (Value.int16 b) (Value.int16 c) h k =
    ap some (compare_ℤ_trans a b c (some_inj _ _ h) (some_inj _ _ k))
partial_cmp_trans (Value.int32 a) (Value.int32 b) (Value.int32 c) h k =
    ap some (compare_ℤ_trans a b c (some_inj _ _ h) (some_inj _ _ k))
partial_cmp_trans (Value.int64 a) (Value.int64 b) (Value.int64 c) h k =
    ap some (compare_ℤ_trans a b c (some_inj _ _ h) (some_inj _ _ k))
partial_cmp_trans (Value.uint8 a) (Value.uint8 b) (Value.uint8 c) h k =
    ap some (compare_trans a b c (some_inj _ _ h) (some_inj _ _ k))
partial_cmp_trans (Value.uint16 a) (Value.uint16 b) (Value.uint16 c) h k =
    ap some (compare_trans a b c (some_inj _ _ h) (some_inj _ _ k))
partial_cmp_trans (Value.uint32 a) (Value.uint32 b) (Value.uint32 c) h k =
    ap some (compare_trans a b c (some_inj _ _ h) (some_inj _ _ k))
partial_cmp_trans (Value.uint64 a) (Value.uint64 b) (Value.uint64 c) h k =
    ap some (compare_trans a b c (some_inj _ _ h) (some_inj _ _ k))
partial_cmp_trans (Value.f32 a) (Value.f32 b) (Value.f32 c) h k =
    key_cmp_trans (f32_key a) (f32_key b) (f32_key c) h k
partial_cmp_trans (Value.f64 a) (Value.f64 b) (Value.f64 c) h k =
    key_cmp_trans (f64_key a) (f64_key b) (f64_key c) h k
partial_cmp_trans Value.null Value.null w h k = cc
partial_cmp_trans _ _ _ h k = cc

-- The bits of a float of the given width.
abbrev pub InWidth : Value → Type 0
InWidth (Value.f32 b) = b < 2 ^ 32
InWidth (Value.f64 b) = b < 2 ^ 64
InWidth _ = Unit

-- Values that are equal feed the hasher alike, for floats within their width. So the two zeros
-- do.
pub hash_of_eq : (v w : Value) → InWidth v → InWidth w → eq v w ≡ true → hash v ≡ hash w
unfolding eq hash f32_key f64_key is_zero32 is_zero64
hash_of_eq Value.null Value.null _ _ h = refl
hash_of_eq (Value.string l) (Value.string r) _ _ h = ground (arith, eq_iff l r)
hash_of_eq (Value.bool l) (Value.bool r) a b h = ground arith
hash_of_eq (Value.uuid l) (Value.uuid r) a b h = ground arith
hash_of_eq (Value.int8 l) (Value.int8 r) a b h = ground (arith, eq_of_compare_ℤ l r)
hash_of_eq (Value.int16 l) (Value.int16 r) a b h = ground (arith, eq_of_compare_ℤ l r)
hash_of_eq (Value.int32 l) (Value.int32 r) a b h = ground (arith, eq_of_compare_ℤ l r)
hash_of_eq (Value.int64 l) (Value.int64 r) a b h = ground (arith, eq_of_compare_ℤ l r)
hash_of_eq (Value.uint8 l) (Value.uint8 r) a b h = ground arith
hash_of_eq (Value.uint16 l) (Value.uint16 r) a b h = ground arith
hash_of_eq (Value.uint32 l) (Value.uint32 r) a b h = ground arith
hash_of_eq (Value.uint64 l) (Value.uint64 r) a b h = ground arith
hash_of_eq (Value.f32 l) (Value.f32 r) a b h = ground arith
hash_of_eq (Value.f64 l) (Value.f64 r) a b h = ground arith
hash_of_eq _ _ _ _ h = cc

-- Neither a NaN of one width nor of the other.
abbrev pub is_nan : Value → Bool
is_nan (Value.f32 b) = is_nan32 b
is_nan (Value.f64 b) = is_nan64 b
is_nan _ = false

-- Two values of one type, no NaN among them, compare: there the `expect` of the engines does not
-- panic.
pub comparable :
    (v w : Value)
    → get_type v ≡ get_type w
    → is_nan v ≡ false
    → is_nan w ≡ false
    → partial_cmp v w ≢ none
unfolding partial_cmp get_type f32_key f64_key
comparable (Value.f32 l) (Value.f32 r) e a b = ground arith
comparable (Value.f64 l) (Value.f64 r) e a b = ground arith
comparable Value.null Value.null e a b = λ h. cc
comparable (Value.string l) (Value.string r) e a b = λ h. cc
comparable (Value.bool l) (Value.bool r) e a b = λ h. cc
comparable (Value.uuid l) (Value.uuid r) e a b = λ h. cc
comparable (Value.int8 l) (Value.int8 r) e a b = λ h. cc
comparable (Value.int16 l) (Value.int16 r) e a b = λ h. cc
comparable (Value.int32 l) (Value.int32 r) e a b = λ h. cc
comparable (Value.int64 l) (Value.int64 r) e a b = λ h. cc
comparable (Value.uint8 l) (Value.uint8 r) e a b = λ h. cc
comparable (Value.uint16 l) (Value.uint16 r) e a b = λ h. cc
comparable (Value.uint32 l) (Value.uint32 r) e a b = λ h. cc
comparable (Value.uint64 l) (Value.uint64 r) e a b = λ h. cc
comparable _ _ e a b = cc
