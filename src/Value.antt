-- ===== src/Value.antt =====
-- storage/value.rs: the values of a cell, their types, and how values compare. The archived form,
-- which the scan reads with no copy, is in `Archived`, the literals of a query in `Literal`.
pub mod Float
pub mod Archived
pub mod Order
pub mod Literal
pub mod Display
use touchhouse.Prelude.{
  ◌≡◌, refl, ℕ, suc, String, Bool, true, false, ℤ, Option, none, some, Ordering, compare, compare_ℤ,
  str_eq, ◌==◌, if◌then◌else◌,
}
use Prim.Native.String.{compare as compare_string}
use touchhouse.BinOp.{BinOp}
use touchhouse.Value.Float.{
  f32_key, f64_key, key_cmp, key_eq, is_nan32, is_nan64, is_zero32, is_zero64,
}

-- A UUID is its 128 bits as a number; an `f32` or `f64` is its bit pattern.
pub data Value : Type 0 where
  null : Value
  string : String → Value
  uuid : ℕ → Value
  bool : Bool → Value
  int8 int16 int32 int64 : ℤ → Value
  uint8 uint16 uint32 uint64 : ℕ → Value
  f32 f64 : ℕ → Value

pub data ValueType : Type 0 where
  null string uuid bool int8 int16 int32 int64 uint8 uint16 uint32 uint64 f32 f64 : ValueType

unfoldable pub get_type : Value → ValueType
get_type Value.null = ValueType.null
get_type (Value.string s) = ValueType.string
get_type (Value.uuid u) = ValueType.uuid
get_type (Value.bool b) = ValueType.bool
get_type (Value.int8 n) = ValueType.int8
get_type (Value.int16 n) = ValueType.int16
get_type (Value.int32 n) = ValueType.int32
get_type (Value.int64 n) = ValueType.int64
get_type (Value.uint8 n) = ValueType.uint8
get_type (Value.uint16 n) = ValueType.uint16
get_type (Value.uint32 n) = ValueType.uint32
get_type (Value.uint64 n) = ValueType.uint64
get_type (Value.f32 b) = ValueType.f32
get_type (Value.f64 b) = ValueType.f64

-- The order of `bool`, with `false` first.
abbrev pub compare_bool : Bool → Bool → Ordering
compare_bool false false = Ordering.eq
compare_bool false true = Ordering.lt
compare_bool true false = Ordering.gt
compare_bool true true = Ordering.eq

abbrev pub is_eq : Ordering → Bool
is_eq Ordering.eq = true
is_eq _ = false

-- The derived `PartialEq`.
unfoldable pub eq : Value → Value → Bool
eq Value.null Value.null = true
eq (Value.string l) (Value.string r) = str_eq l r
eq (Value.uuid l) (Value.uuid r) = l == r
eq (Value.bool l) (Value.bool r) = is_eq (compare_bool l r)
eq (Value.int8 l) (Value.int8 r) = is_eq (compare_ℤ l r)
eq (Value.int16 l) (Value.int16 r) = is_eq (compare_ℤ l r)
eq (Value.int32 l) (Value.int32 r) = is_eq (compare_ℤ l r)
eq (Value.int64 l) (Value.int64 r) = is_eq (compare_ℤ l r)
eq (Value.uint8 l) (Value.uint8 r) = l == r
eq (Value.uint16 l) (Value.uint16 r) = l == r
eq (Value.uint32 l) (Value.uint32 r) = l == r
eq (Value.uint64 l) (Value.uint64 r) = l == r
eq (Value.f32 l) (Value.f32 r) = key_eq (f32_key l) (f32_key r)
eq (Value.f64 l) (Value.f64 r) = key_eq (f64_key l) (f64_key r)
eq _ _ = false

-- `None` where the two are of different types, or a NaN is among them.
unfoldable pub partial_cmp : Value → Value → Option Ordering
partial_cmp Value.null Value.null = some Ordering.eq
partial_cmp (Value.string l) (Value.string r) = some (compare_string l r)
partial_cmp (Value.bool l) (Value.bool r) = some (compare_bool l r)
partial_cmp (Value.uuid l) (Value.uuid r) = some (compare l r)
partial_cmp (Value.int8 l) (Value.int8 r) = some (compare_ℤ l r)
partial_cmp (Value.int16 l) (Value.int16 r) = some (compare_ℤ l r)
partial_cmp (Value.int32 l) (Value.int32 r) = some (compare_ℤ l r)
partial_cmp (Value.int64 l) (Value.int64 r) = some (compare_ℤ l r)
partial_cmp (Value.uint8 l) (Value.uint8 r) = some (compare l r)
partial_cmp (Value.uint16 l) (Value.uint16 r) = some (compare l r)
partial_cmp (Value.uint32 l) (Value.uint32 r) = some (compare l r)
partial_cmp (Value.uint64 l) (Value.uint64 r) = some (compare l r)
partial_cmp (Value.f32 l) (Value.f32 r) = key_cmp (f32_key l) (f32_key r)
partial_cmp (Value.f64 l) (Value.f64 r) = key_cmp (f64_key l) (f64_key r)
partial_cmp _ _ = none

unfoldable pub is_true : Value → Bool
is_true (Value.bool b) = b
is_true _ = false

-- What `hash` feeds to the hasher after the discriminant.
pub data HashPayload : Type 0 where
  nothing : HashPayload
  text : String → HashPayload
  flag : Bool → HashPayload
  signed : ℤ → HashPayload
  unsigned : ℕ → HashPayload

hash_bits : Bool → Bool → ℕ → ℕ
hash_bits nan zero bits = if nan then 0x7fc0_0000 else if zero then 0 else bits

-- The discriminant and the payload.
unfoldable pub hash : Value → ℕ × HashPayload
unfolding hash_bits
hash Value.null = (0, nothing)
hash (Value.string s) = (1, text s)
hash (Value.uuid u) = (2, unsigned u)
hash (Value.bool b) = (3, flag b)
hash (Value.int8 n) = (4, signed n)
hash (Value.int16 n) = (5, signed n)
hash (Value.int32 n) = (6, signed n)
hash (Value.int64 n) = (7, signed n)
hash (Value.uint8 n) = (8, unsigned n)
hash (Value.uint16 n) = (9, unsigned n)
hash (Value.uint32 n) = (10, unsigned n)
hash (Value.uint64 n) = (11, unsigned n)
hash (Value.f32 b) = (12, unsigned (hash_bits (is_nan32 b) (is_zero32 b) b))
hash (Value.f64 b) = (13, unsigned (hash_bits (is_nan64 b) (is_zero64 b) b))

-- Rust's `<`, `<=`, `>`, `>=` read a `partial_cmp`, its `==` and `!=` an `eq`.
abbrev pub fits : Option Ordering → Bool → BinOp → Bool
fits o e BinOp.gt = elim o [ some Ordering.gt ↦ true | _ ↦ false ]
fits o e BinOp.gt_eq = elim o [ some Ordering.gt ↦ true | some Ordering.eq ↦ true | _ ↦ false ]
fits o e BinOp.lt = elim o [ some Ordering.lt ↦ true | _ ↦ false ]
fits o e BinOp.lt_eq = elim o [ some Ordering.lt ↦ true | some Ordering.eq ↦ true | _ ↦ false ]
fits o e BinOp.eq = e
fits o e BinOp.not_eq = if e then false else true

unfoldable pub fits_op : Value → Value → BinOp → Bool
fits_op l r op = fits (partial_cmp l r) (eq l r) op

-- The trait `ToValue`: what a scan may do with a cell without copying it, for a cell that stands
-- for the value `view`.
pub record ToValue (T : Type 0) : Type 0 where
  pub view : T → Value
  pub is_true_cell : T → Bool
  pub cmp_value : T → Value → Option Ordering
  pub eq_value : T → Value → Bool
  pub cmp_cell : T → T → Option Ordering
  pub eq_cell : T → T → Bool

-- A cell compares as the value that it stands for.
pub record IsLawful {T : Type 0} (t : ToValue T) : Type 0 where
  pub is_true_view : (a : T) → t.is_true_cell a ≡ is_true (t.view a)
  pub cmp_value_view : (a : T) (v : Value) → t.cmp_value a v ≡ partial_cmp (t.view a) v
  pub eq_value_view : (a : T) (v : Value) → t.eq_value a v ≡ eq (t.view a) v
  pub cmp_cell_view : (a b : T) → t.cmp_cell a b ≡ partial_cmp (t.view a) (t.view b)
  pub eq_cell_view : (a b : T) → t.eq_cell a b ≡ eq (t.view a) (t.view b)

-- `ToValue for Value`, for the rows of a subquery.
instance abbrev pub value_cell : ToValue Value
value_cell = record {
  view = λ v. v;
  is_true_cell = is_true;
  cmp_value = partial_cmp;
  eq_value = eq;
  cmp_cell = partial_cmp;
  eq_cell = eq;
}

pub value_cell-IsLawful : IsLawful value_cell
value_cell-IsLawful = record {
  is_true_view = λ a. refl;
  cmp_value_view = λ a v. refl;
  eq_value_view = λ a v. refl;
  cmp_cell_view = λ a b. refl;
  eq_cell_view = λ a b. refl;
}
