-- ===== src/Execution/Scan/Rows.antt =====
-- sql/execution/select/mod.rs: OFFSET and LIMIT on the columns of the result.
use touchhouse.Prelude.{
  length-drop, ℕ, zero, suc, ◌+◌, ◌-◌, ◌≤◌, ◌<◌, ◌≡◌, refl, sym, ap, ◌∙◌, some, List, [], ◌∷◌,
  length, get_elem?, take, drop, ltb, ltb→lt, All, Bool-cases, inl, inr, arith,
}
use mathlib.Core.Path.{subst}
use touchhouse.Storage.Column.{OutputColumn}
use touchhouse.Value.{Value}
use touchhouse.Execution.Strategy.{min_of}
use touchhouse.Execution.Scan.{map_data, skip_rows, limit_rows}

get_elem?-drop {ℓ} :
    {A : Type ℓ} (n i : ℕ) (l : List A) → get_elem? (drop n l) i ≡ get_elem? l (n + i)
get_elem?-drop zero i l = let e : i ≡ 0 + i = omega arith in ap (get_elem? l) e
get_elem?-drop (suc n) i [] = refl
get_elem?-drop (suc n) i (x ∷ l) =
    let e : suc (n + i) ≡ suc n + i = omega arith in get_elem?-drop n i l ∙ ap (get_elem? (x ∷ l)) e

get_elem?-take {ℓ} :
    {A : Type ℓ} (n i : ℕ) (l : List A) → i < n → get_elem? (take n l) i ≡ get_elem? l i
get_elem?-take zero i l h = absurd (omega (arith, h))
get_elem?-take (suc n) i [] h = refl
get_elem?-take (suc n) zero (x ∷ l) h = refl
get_elem?-take (suc n) (suc i) (x ∷ l) h = get_elem?-take n i l (omega (arith, h))

length-take {ℓ} : {A : Type ℓ} (n : ℕ) (l : List A) → length (take n l) ≡ min_of (length l) n
length-take zero l = ground arith
length-take (suc n) [] = ground arith
length-take (suc n) (x ∷ l) = ground (arith, length-take n l)

-- Every column has the given length.
abbrev pub IsLong : ℕ → List OutputColumn → Type 0
IsLong n columns = All (λ (c : OutputColumn). length c.data_of ≡ n) columns

-- A column holds the rows of another from `offset` on, and no more than `limit` of them.
abbrev pub IsPage : ℕ → ℕ → OutputColumn → OutputColumn → Type 0
IsPage offset limit col out =
    (out.proj ≡ col.proj)
    × (length out.data_of ≡ min_of (length col.data_of - offset) limit)
    × ((i : ℕ) → i < limit → get_elem? out.data_of i ≡ get_elem? col.data_of (offset + i))

abbrev pub ArePages : ℕ → ℕ → List OutputColumn → List OutputColumn → Type 0
ArePages offset limit [] [] = Unit
ArePages offset limit (c ∷ cs) (o ∷ os) = IsPage offset limit c o × ArePages offset limit cs os
ArePages offset limit _ _ = ⊥

drop_all {ℓ} : {A : Type ℓ} (n : ℕ) (l : List A) → length l ≤ n → drop n l ≡ []
drop_all zero [] h = refl
drop_all zero (x ∷ l) h = absurd (omega (arith, h))
drop_all (suc n) [] h = refl
drop_all (suc n) (x ∷ l) h = drop_all n l (omega (arith, h))

take_all {ℓ} : {A : Type ℓ} (n : ℕ) (l : List A) → length l ≤ n → take n l ≡ l
take_all zero [] h = refl
take_all zero (x ∷ l) h = absurd (omega (arith, h))
take_all (suc n) [] h = refl
take_all (suc n) (x ∷ l) h = ap (λ k. x ∷ k) (take_all n l (omega (arith, h)))

drop_short {ℓ} :
    {A : Type ℓ} (n offset : ℕ) (l : List A)
    → length l ≡ n
    → drop (min_of n offset) l ≡ drop offset l
drop_short n offset l e = elim (Bool-cases (ltb n offset)) [
  | inl t ↦ rw t (
      drop_all n l (omega (arith, e))
      ∙ sym (drop_all offset l (omega (arith, e, ltb→lt n offset t))))
  | inr f ↦ rw f refl
]

take_short {ℓ} :
    {A : Type ℓ} (n limit : ℕ) (l : List A) → length l ≡ n → take (min_of n limit) l ≡ take limit l
take_short n limit l e = elim (Bool-cases (ltb n limit)) [
  | inl t ↦ rw t (
      take_all n l (omega (arith, e)) ∙ sym (take_all limit l (omega (arith, e, ltb→lt n limit t))))
  | inr f ↦ rw f refl
]

dropped :
    (n offset : ℕ) (l : List Value) → length l ≡ n → length (drop (min_of n offset) l) ≡ n - offset
dropped n offset l e = rw (drop_short n offset l e) (length-drop offset l ∙ ap (λ k. k - offset) e)

one-IsPage :
    (n offset limit : ℕ) (c : OutputColumn)
    → length c.data_of ≡ n
    → IsPage offset limit c record {
      proj = c.proj;
      data_of = take (min_of (n - offset) limit) (drop (min_of n offset) c.data_of);
    }
one-IsPage n offset limit c e =
    let whole : take (min_of (n - offset) limit) (drop (min_of n offset) c.data_of)
        ≡ take limit (drop offset c.data_of) =
      take_short (n - offset) limit _ (dropped n offset c.data_of e)
      ∙ ap (take limit) (drop_short n offset c.data_of e) in
    (
      refl,
      rw whole (
          length-take limit (drop offset c.data_of)
          ∙ ap (λ k. min_of k limit) (length-drop offset c.data_of)),
      λ i lt.
          rw whole
            (get_elem?-take limit i (drop offset c.data_of) lt ∙ get_elem?-drop offset i c.data_of),
    )

pages :
    (n offset limit : ℕ) (columns : List OutputColumn)
    → IsLong n columns
    → ArePages offset limit columns
        (map_data (take (min_of (n - offset) limit)) (map_data (drop (min_of n offset)) columns))
pages n offset limit [] h = tt
pages n offset limit (c ∷ cs) h = (one-IsPage n offset limit c h.0, pages n offset limit cs h.1)

-- For columns of one length, OFFSET and then LIMIT leave every column with its projection and
-- with the rows from the offset on, as many as there are but no more than the limit.
pub limit_rows-skip_rows :
    (n offset limit : ℕ) (columns : List OutputColumn)
    → IsLong n columns
    → ArePages offset limit columns (limit_rows (some limit) (skip_rows offset columns))
unfolding limit_rows skip_rows
limit_rows-skip_rows n offset limit [] h = tt
limit_rows-skip_rows n offset limit (c ∷ cs) h =
    subst
      (λ a. ArePages offset limit (c ∷ cs) (
        map_data (take (min_of (length (drop (min_of a offset) c.data_of)) limit))
          (map_data (drop (min_of a offset)) (c ∷ cs))))
      (sym h.0)
      (subst
        (λ b.
          ArePages offset limit (c ∷ cs)
            (map_data (take (min_of b limit)) (map_data (drop (min_of n offset)) (c ∷ cs))))
        (sym (dropped n offset c.data_of h.0)) (pages n offset limit (c ∷ cs) h))
