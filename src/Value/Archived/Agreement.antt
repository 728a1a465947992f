-- ===== src/Value/Archived/Agreement.antt =====
-- Reading a cell in its archived form, with no copy, is reading the value that it holds.
use touchhouse.Prelude.{◌≡◌, refl, ◌∙◌, arith}
use mathlib.Core.Path.{subst}
use touchhouse.Value.{Value, IsLawful, eq, partial_cmp, is_true}
use touchhouse.Value.Order.{eq-partial_cmp, partial_cmp-flip}
use touchhouse.Value.Archived.{
  ArchivedValue, archived_cell, archive, to_value, is_true_archived, value_cmp_archived,
  archived_cmp_value, archived_eq_value, archived_eq, archived_cmp,
}

archived_cmp_value-archive : (v w : Value) → archived_cmp_value (archive v) w ≡ partial_cmp v w
unfolding archived_cmp_value archive partial_cmp
archived_cmp_value-archive Value.null Value.null = refl
archived_cmp_value-archive (Value.string l) (Value.string r) = refl
archived_cmp_value-archive (Value.uuid l) (Value.uuid r) = refl
archived_cmp_value-archive (Value.bool l) (Value.bool r) = refl
archived_cmp_value-archive (Value.int8 l) (Value.int8 r) = refl
archived_cmp_value-archive (Value.int16 l) (Value.int16 r) = refl
archived_cmp_value-archive (Value.int32 l) (Value.int32 r) = refl
archived_cmp_value-archive (Value.int64 l) (Value.int64 r) = refl
archived_cmp_value-archive (Value.uint8 l) (Value.uint8 r) = refl
archived_cmp_value-archive (Value.uint16 l) (Value.uint16 r) = refl
archived_cmp_value-archive (Value.uint32 l) (Value.uint32 r) = refl
archived_cmp_value-archive (Value.uint64 l) (Value.uint64 r) = refl
archived_cmp_value-archive (Value.f32 l) (Value.f32 r) = refl
archived_cmp_value-archive (Value.f64 l) (Value.f64 r) = refl
archived_cmp_value-archive _ _ = refl

value_cmp_archived-archive : (v w : Value) → value_cmp_archived v (archive w) ≡ partial_cmp v w
unfolding value_cmp_archived archive partial_cmp
value_cmp_archived-archive Value.null Value.null = refl
value_cmp_archived-archive (Value.string l) (Value.string r) = refl
value_cmp_archived-archive (Value.uuid l) (Value.uuid r) = refl
value_cmp_archived-archive (Value.bool l) (Value.bool r) = refl
value_cmp_archived-archive (Value.int8 l) (Value.int8 r) = refl
value_cmp_archived-archive (Value.int16 l) (Value.int16 r) = refl
value_cmp_archived-archive (Value.int32 l) (Value.int32 r) = refl
value_cmp_archived-archive (Value.int64 l) (Value.int64 r) = refl
value_cmp_archived-archive (Value.uint8 l) (Value.uint8 r) = refl
value_cmp_archived-archive (Value.uint16 l) (Value.uint16 r) = refl
value_cmp_archived-archive (Value.uint32 l) (Value.uint32 r) = refl
value_cmp_archived-archive (Value.uint64 l) (Value.uint64 r) = refl
value_cmp_archived-archive (Value.f32 l) (Value.f32 r) = refl
value_cmp_archived-archive (Value.f64 l) (Value.f64 r) = refl
value_cmp_archived-archive _ _ = refl

archived_cmp-archive : (v w : Value) → archived_cmp (archive v) (archive w) ≡ partial_cmp v w
unfolding archived_cmp archive partial_cmp
archived_cmp-archive Value.null Value.null = refl
archived_cmp-archive (Value.string l) (Value.string r) = refl
archived_cmp-archive (Value.uuid l) (Value.uuid r) = refl
archived_cmp-archive (Value.bool l) (Value.bool r) = refl
archived_cmp-archive (Value.int8 l) (Value.int8 r) = refl
archived_cmp-archive (Value.int16 l) (Value.int16 r) = refl
archived_cmp-archive (Value.int32 l) (Value.int32 r) = refl
archived_cmp-archive (Value.int64 l) (Value.int64 r) = refl
archived_cmp-archive (Value.uint8 l) (Value.uint8 r) = refl
archived_cmp-archive (Value.uint16 l) (Value.uint16 r) = refl
archived_cmp-archive (Value.uint32 l) (Value.uint32 r) = refl
archived_cmp-archive (Value.uint64 l) (Value.uint64 r) = refl
archived_cmp-archive (Value.f32 l) (Value.f32 r) = refl
archived_cmp-archive (Value.f64 l) (Value.f64 r) = refl
archived_cmp-archive _ _ = refl

archived_eq-archive : (v w : Value) → archived_eq (archive v) (archive w) ≡ eq v w
unfolding archived_eq archive eq
archived_eq-archive Value.null Value.null = refl
archived_eq-archive (Value.string l) (Value.string r) = refl
archived_eq-archive (Value.uuid l) (Value.uuid r) = refl
archived_eq-archive (Value.bool l) (Value.bool r) = refl
archived_eq-archive (Value.int8 l) (Value.int8 r) = refl
archived_eq-archive (Value.int16 l) (Value.int16 r) = refl
archived_eq-archive (Value.int32 l) (Value.int32 r) = refl
archived_eq-archive (Value.int64 l) (Value.int64 r) = refl
archived_eq-archive (Value.uint8 l) (Value.uint8 r) = refl
archived_eq-archive (Value.uint16 l) (Value.uint16 r) = refl
archived_eq-archive (Value.uint32 l) (Value.uint32 r) = refl
archived_eq-archive (Value.uint64 l) (Value.uint64 r) = refl
archived_eq-archive (Value.f32 l) (Value.f32 r) = refl
archived_eq-archive (Value.f64 l) (Value.f64 r) = refl
archived_eq-archive _ _ = refl

swap_eq : (v w : Value) → archived_eq_value (archive v) w ≡ eq w v
unfolding archived_eq_value archive eq
swap_eq Value.null Value.null = refl
swap_eq (Value.string l) (Value.string r) = refl
swap_eq (Value.uuid l) (Value.uuid r) = refl
swap_eq (Value.bool l) (Value.bool r) = refl
swap_eq (Value.int8 l) (Value.int8 r) = refl
swap_eq (Value.int16 l) (Value.int16 r) = refl
swap_eq (Value.int32 l) (Value.int32 r) = refl
swap_eq (Value.int64 l) (Value.int64 r) = refl
swap_eq (Value.uint8 l) (Value.uint8 r) = refl
swap_eq (Value.uint16 l) (Value.uint16 r) = refl
swap_eq (Value.uint32 l) (Value.uint32 r) = refl
swap_eq (Value.uint64 l) (Value.uint64 r) = refl
swap_eq (Value.f32 l) (Value.f32 r) = refl
swap_eq (Value.f64 l) (Value.f64 r) = refl
swap_eq _ _ = refl

eq_comm : (v w : Value) → eq v w ≡ eq w v
eq_comm v w = ground (arith, eq-partial_cmp v w, eq-partial_cmp w v, partial_cmp-flip v w)

is_true-archive : (v : Value) → is_true_archived (archive v) ≡ is_true v
unfolding is_true_archived archive is_true
is_true-archive (Value.bool b) = refl
is_true-archive _ = refl

to_value-archive : (v : Value) → to_value (archive v) ≡ v
unfolding to_value archive
to_value-archive Value.null = refl
to_value-archive _ = refl

-- For any two values the five comparisons that involve an archived value answer as the
-- comparisons of the values themselves do, the test for true too, and `to_value` gives back the
-- value that was archived.
pub archived_agrees :
    (v w : Value)
    → (archived_cmp_value (archive v) w ≡ partial_cmp v w)
      × (value_cmp_archived v (archive w) ≡ partial_cmp v w)
      × (archived_cmp (archive v) (archive w) ≡ partial_cmp v w)
      × (archived_eq_value (archive v) w ≡ eq v w)
      × (archived_eq (archive v) (archive w) ≡ eq v w)
      × (is_true_archived (archive v) ≡ is_true v)
      × (to_value (archive v) ≡ v)
archived_agrees v w = (
  archived_cmp_value-archive v w,
  value_cmp_archived-archive v w,
  archived_cmp-archive v w,
  swap_eq v w ∙ eq_comm w v,
  archived_eq-archive v w,
  is_true-archive v,
  to_value-archive v,
)

archive-to_value : (a : ArchivedValue) → archive (to_value a) ≡ a
unfolding to_value archive
archive-to_value ArchivedValue.null = refl
archive-to_value _ = refl

-- So a scan of archived cells compares them as the values that they hold.
pub archived_cell-IsLawful : IsLawful archived_cell
archived_cell-IsLawful = record {
  is_true_view = λ a.
      subst (λ b. is_true_archived b ≡ is_true (to_value a)) (archive-to_value a)
        (is_true-archive (to_value a));
  cmp_value_view = λ a v.
      subst (λ b. archived_cmp_value b v ≡ partial_cmp (to_value a) v) (archive-to_value a)
        (archived_cmp_value-archive (to_value a) v);
  eq_value_view = λ a v.
      subst (λ b. archived_eq_value b v ≡ eq (to_value a) v) (archive-to_value a)
        (swap_eq (to_value a) v ∙ eq_comm v (to_value a));
  cmp_cell_view = λ a b.
      cc (archive-to_value a, archive-to_value b, archived_cmp-archive (to_value a) (to_value b));
  eq_cell_view = λ a b.
      cc (archive-to_value a, archive-to_value b, archived_eq-archive (to_value a) (to_value b));
}
