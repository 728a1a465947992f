-- ===== src/Outcome.antt =====
-- error.rs: the one error type, and the outcome of a fallible call. A `panic!`, an `expect` or an
-- index out of bounds is the outcome `panics`; a loop that is still running when its fuel is used
-- up is `hangs`. The texts that some errors carry are left out.
use touchhouse.Prelude.{◌≡◌, refl, Bool, true, false, not, Option, none, some, List, [], ◌∷◌}

pub data Error : Type 0 where
  system_time_went_backword database_not_found table_not_found : Error
  invalid_database_name invalid_column_name database_already_exists : Error
  table_already_exists sql_to_ast_conversion unsupported_command : Error
  unsupported_column_type invalid_engine_name unsupported_table_option : Error
  invalid_order_by invalid_primary_key invalid_order_by_primary_key_pair : Error
  invalid_table_name no_columns_specified invalid_columns_specified : Error
  invalid_source unsupported_column_constraint could_not_insert_data : Error
  could_not_read_data could_not_create_table empty_source permission_denied : Error
  unsupported_filter column_not_found duplicate_column invalid_limit_value : Error
  invalid_number_of_params_specified unknown_function : Error
  unsupported_nested_functions invalid_function_params : Error
  part_does_not_have_columns column_not_in_group_by : Error
  order_by_columns_not_found send_response internal : Error

pub data Result {ℓ} (A : Type ℓ) : Type ℓ where
  panics hangs : Result A
  err : Error → Result A
  ok : A → Result A

-- Rust's `?`.
module _ {ℓ κ} {A : Type ℓ} {B : Type κ} where
  infixl 5 ◌>>=◌
  abbrev pub ◌>>=◌ : Result A → (A → Result B) → Result B
  panics >>= next = panics
  hangs >>= next = hangs
  err e >>= next = err e
  ok a >>= next = next a

-- `ok_or`
abbrev pub ok_or {ℓ} : {A : Type ℓ} → Option A → Error → Result A
ok_or none e = err e
ok_or (some a) e = ok a

-- An index into a slice: out of bounds it panics.
abbrev pub index {ℓ} : {A : Type ℓ} → Option A → Result A
index none = panics
index (some a) = ok a

-- `if !test { return Err(..) }`
abbrev pub guard : (test : Bool) → Error → Result (Unit {0})
guard false error = err error
guard true error = ok tt

-- A fallible step for each entry of a list, first to last.
abbrev pub traverse {ℓ κ} : {A : Type ℓ} {B : Type κ} → (A → Result B) → List A → Result (List B)
traverse f [] = ok []
traverse f (x ∷ xs) = f x >>= λ y. traverse f xs >>= λ ys. ok (y ∷ ys)

pub ok-eq {ℓ} : {A : Type ℓ} {a b : A} → ok a ≡ ok b → a ≡ b
ok-eq h = cc h

-- Where a chain succeeds its first step did.
module _ {ℓ κ} {A : Type ℓ} {B : Type κ} where
  pub >>=-eq-ok :
      (step : Result A) (next : A → Result B) {out : B}
      → (step >>= next) ≡ ok out
      → (a : A) × (step ≡ ok a) × (next a ≡ ok out)
  >>=-eq-ok panics next e = cc
  >>=-eq-ok hangs next e = cc
  >>=-eq-ok (err error) next e = cc
  >>=-eq-ok (ok a) next e = (a, refl, e)

pub ok_or-eq-ok {ℓ} :
    {A : Type ℓ} (o : Option A) (e : Error) {a : A} → ok_or o e ≡ ok a → o ≡ some a
ok_or-eq-ok none e h = cc
ok_or-eq-ok (some b) e h = cc

pub index-eq-ok {ℓ} : {A : Type ℓ} (o : Option A) {a : A} → index o ≡ ok a → o ≡ some a
index-eq-ok none h = cc
index-eq-ok (some b) h = cc

pub guard-eq-ok : (b : Bool) (e : Error) (u : Unit {0}) → guard b e ≡ ok u → b ≡ true
guard-eq-ok true e u h = refl
guard-eq-ok false e u h = cc h

pub guard-not : (b : Bool) (e : Error) (u : Unit {0}) → guard (not b) e ≡ ok u → b ≡ false
guard-not false e u h = refl
guard-not true e u h = cc h

pub >>=-ok {ℓ κ} :
    {A : Type ℓ} {B : Type κ} (step : Result A) (next : A → Result B) {a : A} {out : B}
    → step ≡ ok a
    → next a ≡ ok out
    → (step >>= next) ≡ ok out
>>=-ok step next e h = rw e h
