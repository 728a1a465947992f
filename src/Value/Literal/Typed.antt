-- ===== src/Value/Literal/Typed.antt =====
-- storage/value.rs: the types of the values that literals become.
use touchhouse.Prelude.{String, Bool, ◌≡◌, refl, sym, ◌⊎◌, inl, inr, Option, none, some}
use mathlib.Core.Path.{subst}
use touchhouse.Outcome.{ok, ok-eq}
use touchhouse.Externs.{Externs}
use touchhouse.Value.{Value, ValueType, get_type}
use touchhouse.Value.Literal.{
  parsed, text_as, number_as, boolean_as, try_from, parse_signed, parse_unsigned, codes,
}
use touchhouse.Sql.Ast.{SqlValue}

-- NULL, or of the type that is asked for.
abbrev pub HasType : ValueType → Value → Type 0
HasType t v = (v ≡ Value.null) ⊎ (get_type v ≡ t)

typed : {t : ValueType} {v w : Value} → get_type v ≡ t → ok v ≡ ok w → HasType t w
typed {t} e h = inr (subst (λ u. get_type u ≡ t) (ok-eq h) e)

parsed_typed :
    {A : Type 0} (t : ValueType) (o : Option A) (f : A → Value) (w : Value)
    → ((a : A) → get_type (f a) ≡ t)
    → parsed o f ≡ ok w
    → HasType t w
unfolding parsed
parsed_typed t none f w e h = cc h
parsed_typed t (some a) f w e h = typed (e a) h

module _ (x : Externs) where
  text_typed : (s : String) (t : ValueType) (w : Value) → text_as x s t ≡ ok w → HasType t w
  unfolding text_as get_type
  text_typed s ValueType.string w h = typed refl h
  text_typed s ValueType.uuid w h =
      parsed_typed ValueType.uuid (x.parse_uuid s) Value.uuid w (λ a. refl) h
  text_typed s _ w h = cc h

  number_typed : (n : String) (t : ValueType) (w : Value) → number_as x n t ≡ ok w → HasType t w
  unfolding number_as get_type
  number_typed n ValueType.int8 w h =
      parsed_typed ValueType.int8 (parse_signed 8 (codes n)) Value.int8 w (λ a. refl) h
  number_typed n ValueType.int16 w h =
      parsed_typed ValueType.int16 (parse_signed 16 (codes n)) Value.int16 w (λ a. refl) h
  number_typed n ValueType.int32 w h =
      parsed_typed ValueType.int32 (parse_signed 32 (codes n)) Value.int32 w (λ a. refl) h
  number_typed n ValueType.int64 w h =
      parsed_typed ValueType.int64 (parse_signed 64 (codes n)) Value.int64 w (λ a. refl) h
  number_typed n ValueType.uint8 w h =
      parsed_typed ValueType.uint8 (parse_unsigned 8 (codes n)) Value.uint8 w (λ a. refl) h
  number_typed n ValueType.uint16 w h =
      parsed_typed ValueType.uint16 (parse_unsigned 16 (codes n)) Value.uint16 w (λ a. refl) h
  number_typed n ValueType.uint32 w h =
      parsed_typed ValueType.uint32 (parse_unsigned 32 (codes n)) Value.uint32 w (λ a. refl) h
  number_typed n ValueType.uint64 w h =
      parsed_typed ValueType.uint64 (parse_unsigned 64 (codes n)) Value.uint64 w (λ a. refl) h
  number_typed n ValueType.f32 w h =
      parsed_typed ValueType.f32 (x.parse_f32 n) Value.f32 w (λ a. refl) h
  number_typed n ValueType.f64 w h =
      parsed_typed ValueType.f64 (x.parse_f64 n) Value.f64 w (λ a. refl) h
  number_typed n _ w h = cc h

  boolean_typed : (b : Bool) (t : ValueType) (w : Value) → boolean_as x b t ≡ ok w → HasType t w
  unfolding boolean_as get_type
  boolean_typed b ValueType.bool w h = typed refl h
  boolean_typed b _ w h = cc h

  -- A literal that `Value::try_from` takes for a column's type becomes NULL or a value of this
  -- type.
  pub try_from-HasType :
      (v : SqlValue) (t : ValueType) (w : Value) → try_from x v t ≡ ok w → HasType t w
  unfolding try_from
  try_from-HasType SqlValue.null t w h = inl (sym (ok-eq h))
  try_from-HasType (SqlValue.single_quoted s) t w h = text_typed s t w h
  try_from-HasType (SqlValue.triple_single_quoted s) t w h = text_typed s t w h
  try_from-HasType (SqlValue.triple_double_quoted s) t w h = text_typed s t w h
  try_from-HasType (SqlValue.number n _) t w h = number_typed n t w h
  try_from-HasType (SqlValue.boolean b) t w h = boolean_typed b t w h
  try_from-HasType SqlValue.placeholder t w h = cc h
  try_from-HasType SqlValue.other t w h = cc h
