-- ===== src/Value/Literal.antt =====
-- storage/value.rs: a value from a literal of the query, at a column's type or at none.
pub mod Typed
use Prim.Native.Char.{code}
use touchhouse.Prelude.{
  ℕ, ◌+◌, ◌-◌, ◌*◌, ◌^◌, String, Bool, ◌&&◌, ℤ, pos, negsuc, Option, none, some, List, [], ◌∷◌, ltb,
  leb, ◌==◌, if◌then◌else◌,
}
use touchhouse.Outcome.{Result, ok, err, invalid_source, unsupported_column_type}
use touchhouse.Externs.{Externs}
use touchhouse.Value.{Value, ValueType}
use touchhouse.Sql.Ast.{SqlValue}

-- The code points of a text.
abbrev pub codes : String → List ℕ
codes String.[] = []
codes (String.◌∷◌ c s) = code c ∷ codes s

digits : ℕ → List ℕ → Option ℕ
digits acc [] = some acc
digits acc (c ∷ cs) =
    let rest = digits (acc * 10 + (c - 48)) cs in if leb 48 c && leb c 57 then rest else none

-- At least one digit, and nothing else.
parse_digits : List ℕ → Option ℕ
unfolding digits
parse_digits [] = none
parse_digits (c ∷ cs) = digits 0 (c ∷ cs)

-- A result below the bound.
below : ℕ → Option ℕ → Option ℕ
below bound none = none
below bound (some n) = if ltb n bound then some n else none

-- `str::parse` into an unsigned integer of `w` bits: an optional `+`, then digits.
unfoldable pub parse_unsigned : ℕ → List ℕ → Option ℕ
unfolding parse_digits below
parse_unsigned w [] = none
parse_unsigned w (c ∷ cs) =
    below (2 ^ w) (if c == 43 then parse_digits cs else parse_digits (c ∷ cs))

positive : Option ℕ → Option ℤ
positive none = none
positive (some n) = some (pos n)

negative : Option ℕ → Option ℤ
negative none = none
negative (some n) = some (if n == 0 then pos 0 else negsuc (n - 1))

-- Into a signed integer of `w` bits: an optional sign, then digits.
unfoldable pub parse_signed : ℕ → List ℕ → Option ℤ
unfolding parse_digits below positive negative
parse_signed w [] = none
parse_signed w (c ∷ cs) =
    if c == 45
    then negative (below (2 ^ (w - 1) + 1) (parse_digits cs))
    else positive (below (2 ^ (w - 1)) (if c == 43 then parse_digits cs else parse_digits (c ∷ cs)))

-- A number that does not parse is `InvalidSource`.
parsed : {A : Type 0} → Option A → (A → Value) → Result Value
parsed none f = err invalid_source
parsed (some a) f = ok (f a)

module _ (x : Externs) where
  text_as : String → ValueType → Result Value
  unfolding parsed
  text_as s ValueType.string = ok (Value.string s)
  text_as s ValueType.uuid = parsed (x.parse_uuid s) Value.uuid
  text_as s _ = err invalid_source

  number_as : String → ValueType → Result Value
  unfolding parsed
  number_as n ValueType.int8 = parsed (parse_signed 8 (codes n)) Value.int8
  number_as n ValueType.int16 = parsed (parse_signed 16 (codes n)) Value.int16
  number_as n ValueType.int32 = parsed (parse_signed 32 (codes n)) Value.int32
  number_as n ValueType.int64 = parsed (parse_signed 64 (codes n)) Value.int64
  number_as n ValueType.uint8 = parsed (parse_unsigned 8 (codes n)) Value.uint8
  number_as n ValueType.uint16 = parsed (parse_unsigned 16 (codes n)) Value.uint16
  number_as n ValueType.uint32 = parsed (parse_unsigned 32 (codes n)) Value.uint32
  number_as n ValueType.uint64 = parsed (parse_unsigned 64 (codes n)) Value.uint64
  number_as n ValueType.f32 = parsed (x.parse_f32 n) Value.f32
  number_as n ValueType.f64 = parsed (x.parse_f64 n) Value.f64
  number_as n _ = err unsupported_column_type

  boolean_as : Bool → ValueType → Result Value
  boolean_as b ValueType.bool = ok (Value.bool b)
  boolean_as b _ = err invalid_source

  -- `Value::try_from((sql_value, value_type))`
  unfoldable pub try_from : SqlValue → ValueType → Result Value
  unfolding text_as number_as boolean_as
  try_from SqlValue.null t = ok Value.null
  try_from (SqlValue.single_quoted s) t = text_as s t
  try_from (SqlValue.triple_single_quoted s) t = text_as s t
  try_from (SqlValue.triple_double_quoted s) t = text_as s t
  try_from (SqlValue.number n _) t = number_as n t
  try_from (SqlValue.boolean b) t = boolean_as b t
  try_from SqlValue.placeholder t = err unsupported_column_type
  try_from SqlValue.other t = err unsupported_column_type

  -- `Value::try_from_untyped`
  unfoldable pub try_from_untyped : SqlValue → Result Value
  unfolding parsed
  try_from_untyped SqlValue.null = ok Value.null
  try_from_untyped (SqlValue.single_quoted s) = ok (Value.string s)
  try_from_untyped (SqlValue.triple_single_quoted s) = ok (Value.string s)
  try_from_untyped (SqlValue.triple_double_quoted s) = ok (Value.string s)
  try_from_untyped (SqlValue.number n _) = parsed (x.parse_f64 n) Value.f64
  try_from_untyped (SqlValue.boolean b) = ok (Value.bool b)
  try_from_untyped SqlValue.placeholder = err invalid_source
  try_from_untyped SqlValue.other = err invalid_source
