-- ===== src/Value/Archived.antt =====
-- storage/value.rs: the archived form of a value, which a scan compares and filters without first
-- copying it. Its constructors are those of `Value`; `archive` and `to_value` are what the derived
-- `Archive` and `Deserialize` do, constructor by constructor.
pub mod Agreement
use Prim.Native.String.{compare as compare_string}
use touchhouse.Prelude.{
  ℕ, String, ◌≡◌, refl, Bool, true, false, ℤ, Option, none, some, Ordering, compare, compare_ℤ,
  str_eq, ◌==◌,
}
use touchhouse.Value.{Value, ToValue, compare_bool, is_eq, eq, partial_cmp, is_true}
use touchhouse.Value.Float.{f32_key, f64_key, key_cmp, key_eq}

pub data ArchivedValue : Type 0 where
  null : ArchivedValue
  string : String → ArchivedValue
  uuid : ℕ → ArchivedValue
  bool : Bool → ArchivedValue
  int8 int16 int32 int64 : ℤ → ArchivedValue
  uint8 uint16 uint32 uint64 : ℕ → ArchivedValue
  f32 f64 : ℕ → ArchivedValue

unfoldable pub archive : Value → ArchivedValue
archive Value.null = ArchivedValue.null
archive (Value.string x) = ArchivedValue.string x
archive (Value.uuid x) = ArchivedValue.uuid x
archive (Value.bool x) = ArchivedValue.bool x
archive (Value.int8 x) = ArchivedValue.int8 x
archive (Value.int16 x) = ArchivedValue.int16 x
archive (Value.int32 x) = ArchivedValue.int32 x
archive (Value.int64 x) = ArchivedValue.int64 x
archive (Value.uint8 x) = ArchivedValue.uint8 x
archive (Value.uint16 x) = ArchivedValue.uint16 x
archive (Value.uint32 x) = ArchivedValue.uint32 x
archive (Value.uint64 x) = ArchivedValue.uint64 x
archive (Value.f32 x) = ArchivedValue.f32 x
archive (Value.f64 x) = ArchivedValue.f64 x

unfoldable pub to_value : ArchivedValue → Value
to_value ArchivedValue.null = Value.null
to_value (ArchivedValue.string x) = Value.string x
to_value (ArchivedValue.uuid x) = Value.uuid x
to_value (ArchivedValue.bool x) = Value.bool x
to_value (ArchivedValue.int8 x) = Value.int8 x
to_value (ArchivedValue.int16 x) = Value.int16 x
to_value (ArchivedValue.int32 x) = Value.int32 x
to_value (ArchivedValue.int64 x) = Value.int64 x
to_value (ArchivedValue.uint8 x) = Value.uint8 x
to_value (ArchivedValue.uint16 x) = Value.uint16 x
to_value (ArchivedValue.uint32 x) = Value.uint32 x
to_value (ArchivedValue.uint64 x) = Value.uint64 x
to_value (ArchivedValue.f32 x) = Value.f32 x
to_value (ArchivedValue.f64 x) = Value.f64 x

pub is_true_archived : ArchivedValue → Bool
is_true_archived (ArchivedValue.bool b) = b
is_true_archived _ = false

-- `PartialOrd<ArchivedValue> for Value`
pub value_cmp_archived : Value → ArchivedValue → Option Ordering
value_cmp_archived Value.null ArchivedValue.null = some Ordering.eq
value_cmp_archived (Value.string l) (ArchivedValue.string r) = some (compare_string l r)
value_cmp_archived (Value.uuid l) (ArchivedValue.uuid r) = some (compare l r)
value_cmp_archived (Value.bool l) (ArchivedValue.bool r) = some (compare_bool l r)
value_cmp_archived (Value.int8 l) (ArchivedValue.int8 r) = some (compare_ℤ l r)
value_cmp_archived (Value.int16 l) (ArchivedValue.int16 r) = some (compare_ℤ l r)
value_cmp_archived (Value.int32 l) (ArchivedValue.int32 r) = some (compare_ℤ l r)
value_cmp_archived (Value.int64 l) (ArchivedValue.int64 r) = some (compare_ℤ l r)
value_cmp_archived (Value.uint8 l) (ArchivedValue.uint8 r) = some (compare l r)
value_cmp_archived (Value.uint16 l) (ArchivedValue.uint16 r) = some (compare l r)
value_cmp_archived (Value.uint32 l) (ArchivedValue.uint32 r) = some (compare l r)
value_cmp_archived (Value.uint64 l) (ArchivedValue.uint64 r) = some (compare l r)
value_cmp_archived (Value.f32 l) (ArchivedValue.f32 r) = key_cmp (f32_key l) (f32_key r)
value_cmp_archived (Value.f64 l) (ArchivedValue.f64 r) = key_cmp (f64_key l) (f64_key r)
value_cmp_archived _ _ = none

-- `PartialOrd<Value> for &ArchivedValue`
pub archived_cmp_value : ArchivedValue → Value → Option Ordering
archived_cmp_value ArchivedValue.null Value.null = some Ordering.eq
archived_cmp_value (ArchivedValue.string l) (Value.string r) = some (compare_string l r)
archived_cmp_value (ArchivedValue.uuid l) (Value.uuid r) = some (compare l r)
archived_cmp_value (ArchivedValue.bool l) (Value.bool r) = some (compare_bool l r)
archived_cmp_value (ArchivedValue.int8 l) (Value.int8 r) = some (compare_ℤ l r)
archived_cmp_value (ArchivedValue.int16 l) (Value.int16 r) = some (compare_ℤ l r)
archived_cmp_value (ArchivedValue.int32 l) (Value.int32 r) = some (compare_ℤ l r)
archived_cmp_value (ArchivedValue.int64 l) (Value.int64 r) = some (compare_ℤ l r)
archived_cmp_value (ArchivedValue.uint8 l) (Value.uint8 r) = some (compare l r)
archived_cmp_value (ArchivedValue.uint16 l) (Value.uint16 r) = some (compare l r)
archived_cmp_value (ArchivedValue.uint32 l) (Value.uint32 r) = some (compare l r)
archived_cmp_value (ArchivedValue.uint64 l) (Value.uint64 r) = some (compare l r)
archived_cmp_value (ArchivedValue.f32 l) (Value.f32 r) = key_cmp (f32_key l) (f32_key r)
archived_cmp_value (ArchivedValue.f64 l) (Value.f64 r) = key_cmp (f64_key l) (f64_key r)
archived_cmp_value _ _ = none

-- `PartialEq<Value> for &ArchivedValue`: the source matches on the value first.
pub archived_eq_value : ArchivedValue → Value → Bool
archived_eq_value ArchivedValue.null Value.null = true
archived_eq_value (ArchivedValue.string r) (Value.string l) = str_eq l r
archived_eq_value (ArchivedValue.uuid r) (Value.uuid l) = l == r
archived_eq_value (ArchivedValue.bool r) (Value.bool l) = is_eq (compare_bool l r)
archived_eq_value (ArchivedValue.int8 r) (Value.int8 l) = is_eq (compare_ℤ l r)
archived_eq_value (ArchivedValue.int16 r) (Value.int16 l) = is_eq (compare_ℤ l r)
archived_eq_value (ArchivedValue.int32 r) (Value.int32 l) = is_eq (compare_ℤ l r)
archived_eq_value (ArchivedValue.int64 r) (Value.int64 l) = is_eq (compare_ℤ l r)
archived_eq_value (ArchivedValue.uint8 r) (Value.uint8 l) = l == r
archived_eq_value (ArchivedValue.uint16 r) (Value.uint16 l) = l == r
archived_eq_value (ArchivedValue.uint32 r) (Value.uint32 l) = l == r
archived_eq_value (ArchivedValue.uint64 r) (Value.uint64 l) = l == r
archived_eq_value (ArchivedValue.f32 r) (Value.f32 l) = key_eq (f32_key l) (f32_key r)
archived_eq_value (ArchivedValue.f64 r) (Value.f64 l) = key_eq (f64_key l) (f64_key r)
archived_eq_value _ _ = false

-- `PartialEq<ArchivedValue> for ArchivedValue`
pub archived_eq : ArchivedValue → ArchivedValue → Bool
archived_eq ArchivedValue.null ArchivedValue.null = true
archived_eq (ArchivedValue.string l) (ArchivedValue.string r) = str_eq l r
archived_eq (ArchivedValue.uuid l) (ArchivedValue.uuid r) = l == r
archived_eq (ArchivedValue.bool l) (ArchivedValue.bool r) = is_eq (compare_bool l r)
archived_eq (ArchivedValue.int8 l) (ArchivedValue.int8 r) = is_eq (compare_ℤ l r)
archived_eq (ArchivedValue.int16 l) (ArchivedValue.int16 r) = is_eq (compare_ℤ l r)
archived_eq (ArchivedValue.int32 l) (ArchivedValue.int32 r) = is_eq (compare_ℤ l r)
archived_eq (ArchivedValue.int64 l) (ArchivedValue.int64 r) = is_eq (compare_ℤ l r)
archived_eq (ArchivedValue.uint8 l) (ArchivedValue.uint8 r) = l == r
archived_eq (ArchivedValue.uint16 l) (ArchivedValue.uint16 r) = l == r
archived_eq (ArchivedValue.uint32 l) (ArchivedValue.uint32 r) = l == r
archived_eq (ArchivedValue.uint64 l) (ArchivedValue.uint64 r) = l == r
archived_eq (ArchivedValue.f32 l) (ArchivedValue.f32 r) = key_eq (f32_key l) (f32_key r)
archived_eq (ArchivedValue.f64 l) (ArchivedValue.f64 r) = key_eq (f64_key l) (f64_key r)
archived_eq _ _ = false

-- `PartialOrd<ArchivedValue> for ArchivedValue`
pub archived_cmp : ArchivedValue → ArchivedValue → Option Ordering
archived_cmp ArchivedValue.null ArchivedValue.null = some Ordering.eq
archived_cmp (ArchivedValue.string l) (ArchivedValue.string r) = some (compare_string l r)
archived_cmp (ArchivedValue.uuid l) (ArchivedValue.uuid r) = some (compare l r)
archived_cmp (ArchivedValue.bool l) (ArchivedValue.bool r) = some (compare_bool l r)
archived_cmp (ArchivedValue.int8 l) (ArchivedValue.int8 r) = some (compare_ℤ l r)
archived_cmp (ArchivedValue.int16 l) (ArchivedValue.int16 r) = some (compare_ℤ l r)
archived_cmp (ArchivedValue.int32 l) (ArchivedValue.int32 r) = some (compare_ℤ l r)
archived_cmp (ArchivedValue.int64 l) (ArchivedValue.int64 r) = some (compare_ℤ l r)
archived_cmp (ArchivedValue.uint8 l) (ArchivedValue.uint8 r) = some (compare l r)
archived_cmp (ArchivedValue.uint16 l) (ArchivedValue.uint16 r) = some (compare l r)
archived_cmp (ArchivedValue.uint32 l) (ArchivedValue.uint32 r) = some (compare l r)
archived_cmp (ArchivedValue.uint64 l) (ArchivedValue.uint64 r) = some (compare l r)
archived_cmp (ArchivedValue.f32 l) (ArchivedValue.f32 r) = key_cmp (f32_key l) (f32_key r)
archived_cmp (ArchivedValue.f64 l) (ArchivedValue.f64 r) = key_cmp (f64_key l) (f64_key r)
archived_cmp _ _ = none

-- `ToValue for &ArchivedValue`, for the granules of a table.
instance abbrev pub archived_cell : ToValue ArchivedValue
archived_cell = record {
  view = to_value;
  is_true_cell = is_true_archived;
  cmp_value = archived_cmp_value;
  eq_value = archived_eq_value;
  cmp_cell = archived_cmp;
  eq_cell = archived_eq;
}
