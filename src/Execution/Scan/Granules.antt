-- ===== src/Execution/Scan/Granules.antt =====
-- storage/table_part.rs: the rows of a column's granules.
use touchhouse.Prelude.{
  ℕ, zero, suc, ◌+◌, ◌≤◌, ◌<◌, ◌≡◌, refl, sym, ap, ◌∙◌, Option, none, some, List, [], ◌∷◌, ◌++◌,
  map, length, length-append, length-drop, get_elem?, take, drop, All, arith,
}
use touchhouse.Storage.Part.{granules, granules_from}
use touchhouse.Storage.Part.Granules.{some_eq}
use touchhouse.Storage.Part.Columns.{some_elem, All-at}
use touchhouse.Storage.Native.Walk.{items_from}
use touchhouse.Engines.Permute.{range_from}

pub within {ℓ} : {A : Type ℓ} (l : List A) (i : ℕ) (a : A) → get_elem? l i ≡ some a → i < length l
within [] i a h = cc h
within (b ∷ l) zero a h = omega arith
within (b ∷ l) (suc i) a h = omega (arith, within l i a h)

pub same_at {ℓ κ μ} :
    {A : Type ℓ} {B : Type κ} {C : Type μ} (f : A → C) (g : B → C) (l : List A) (m : List B) (i : ℕ)
    (b : B)
    → map f l ≡ map g m
    → get_elem? m i ≡ some b
    → (a : A) × (get_elem? l i ≡ some a) × (f a ≡ g b)
same_at f g l [] i b e h = cc h
same_at f g [] (c ∷ m) i b e h = cc e
same_at f g (a ∷ l) (c ∷ m) zero b e h =
    let first : f a ≡ g c = cc e in (a, refl, first ∙ ap g (some_eq h))
same_at f g (a ∷ l) (c ∷ m) (suc i) b e h =
    let rest : map f l ≡ map g m = cc e in same_at f g l m i b rest h

-- The lists of a list, one after another.
abbrev concat {ℓ} : {A : Type ℓ} → List (List A) → List A
concat [] = []
concat (l ∷ ls) = l ++ concat ls

take-drop_append {ℓ} : {A : Type ℓ} (n : ℕ) (l : List A) → take n l ++ drop n l ≡ l
take-drop_append zero l = refl
take-drop_append (suc n) [] = refl
take-drop_append (suc n) (a ∷ l) = ap (λ m. a ∷ m) (take-drop_append n l)

concat-granules_from {ℓ} :
    {A : Type ℓ} (fuel s : ℕ) (rows : List A)
    → 0 < s
    → length rows ≤ fuel
    → concat (granules_from fuel s rows) ≡ rows
concat-granules_from zero s [] hs le = refl
concat-granules_from zero s (r ∷ rows) hs le = absurd (omega (arith, le))
concat-granules_from (suc fuel) s [] hs le = refl
concat-granules_from (suc fuel) s (r ∷ rows) hs le =
    ap (λ l. take s (r ∷ rows) ++ l)
      (concat-granules_from fuel s (drop s (r ∷ rows)) hs
        (omega (arith, length-drop s (r ∷ rows), hs, le)))
    ∙ take-drop_append s (r ∷ rows)

full_granules {ℓ} :
    {A : Type ℓ} (fuel s : ℕ) (rows : List A)
    → 0 < s
    → All (λ (g : List A). 0 < length g) (granules_from fuel s rows)
full_granules zero s rows hs = tt
full_granules (suc fuel) s [] hs = tt
full_granules (suc fuel) zero (r ∷ rows) hs = absurd (omega (arith, hs))
full_granules (suc fuel) (suc s) (r ∷ rows) hs =
    (omega arith, full_granules fuel (suc s) (drop (suc s) (r ∷ rows)) hs)

pub elem-map {ℓ κ} :
    {A : Type ℓ} {B : Type κ} (f : A → B) (l : List A) (i : ℕ) (a : A)
    → get_elem? l i ≡ some a
    → get_elem? (map f l) i ≡ some (f a)
elem-map f [] i a h = cc h
elem-map f (b ∷ l) zero a h = ap (λ c. some (f c)) (some_eq h)
elem-map f (b ∷ l) (suc i) a h = elem-map f l i a h

abbrev pub len_at {ℓ} : {A : Type ℓ} → List (List A) → ℕ → ℕ
len_at l g = elim (get_elem? l g) [ none ↦ 0 | some r ↦ length r ]

same_drop {ℓ κ} :
    {A : Type ℓ} {B : Type κ} (n : ℕ) (a : List A) (b : List B)
    → length a ≡ length b
    → length (drop n a) ≡ length (drop n b)
same_drop n a b e = omega (arith, e, length-drop n a, length-drop n b)

same_take {ℓ κ} :
    {A : Type ℓ} {B : Type κ} (n : ℕ) (a : List A) (b : List B)
    → length a ≡ length b
    → length (take n a) ≡ length (take n b)
same_take zero a b e = refl
same_take (suc n) [] [] e = refl
same_take (suc n) [] (y ∷ b) e = absurd (omega (arith, e))
same_take (suc n) (x ∷ a) [] e = absurd (omega (arith, e))
same_take (suc n) (x ∷ a) (y ∷ b) e = ap suc (same_take n a b (omega (arith, e)))

same_sizes {ℓ κ} :
    {A : Type ℓ} {B : Type κ} (fuel s : ℕ) (a : List A) (b : List B) (g : ℕ)
    → length a ≡ length b
    → len_at (granules_from fuel s a) g ≡ len_at (granules_from fuel s b) g
same_sizes zero s a b g e = refl
same_sizes (suc fuel) s [] [] g e = refl
same_sizes (suc fuel) s [] (y ∷ b) g e = absurd (omega (arith, e))
same_sizes (suc fuel) s (x ∷ a) [] g e = absurd (omega (arith, e))
same_sizes (suc fuel) s (x ∷ a) (y ∷ b) zero e = same_take s (x ∷ a) (y ∷ b) e
same_sizes (suc fuel) s (x ∷ a) (y ∷ b) (suc g) e =
    same_sizes fuel s (drop s (x ∷ a)) (drop s (y ∷ b)) g (same_drop s (x ∷ a) (y ∷ b) e)

length-range_from : (k n : ℕ) → length (range_from k n) ≡ n
length-range_from k zero = refl
length-range_from k (suc n) = ap suc (length-range_from (suc k) n)

-- The rows of the g-th granule of a column of `n` rows, and how many granules it has.
abbrev pub size_at : ℕ → ℕ → ℕ → ℕ
size_at granularity n g = len_at (granules granularity (range_from 0 n)) g

abbrev pub granule_count : ℕ → ℕ → ℕ
granule_count granularity n = length (granules granularity (range_from 0 n))

pub len_at-granules {ℓ} :
    {A : Type ℓ} (granularity n : ℕ) (rows : List A) (g : ℕ)
    → length rows ≡ n
    → len_at (granules granularity rows) g ≡ size_at granularity n g
len_at-granules granularity n rows g e =
    let same : length rows ≡ length (range_from 0 n) = e ∙ sym (length-range_from 0 n) in
    same_sizes (length rows) granularity rows (range_from 0 n) g same
    ∙ ap (λ fuel. len_at (granules_from fuel granularity (range_from 0 n)) g) same

pub some_rows :
    (granularity n g : ℕ)
    → 0 < granularity
    → g < granule_count granularity n
    → 0 < size_at granularity n g
some_rows granularity n g pos lt =
    let l : List (List ℕ) = granules granularity (range_from 0 n) in
    let (rows, e) = some_elem l g lt in
    let full : 0 < length rows =
      All-at (λ (r : List ℕ). 0 < length r) l g rows
        (full_granules (length (range_from 0 n)) granularity (range_from 0 n) pos) e in
    let is : len_at l g ≡ length rows =
      ap (λ (o : Option (List ℕ)). elim o [ none ↦ 0 | some r ↦ length r ]) e in
    omega (arith, full, is)

abbrev pub sum : List ℕ → ℕ
sum [] = 0
sum (n ∷ ns) = n + sum ns

sum-lengths {ℓ} :
    {A : Type ℓ} (l : List (List A)) → sum (map (λ (r : List A). length r) l) ≡ length (concat l)
sum-lengths [] = refl
sum-lengths (r ∷ l) = omega (arith, sum-lengths l, length-append r (concat l))

items_from-map {ℓ} :
    {A : Type ℓ} (f : ℕ → ℕ) (h : A → ℕ) (l : List A) (g : ℕ)
    → ((i : ℕ) (a : A) → get_elem? l i ≡ some a → f (g + i) ≡ h a)
    → items_from f g (length l) ≡ map h l
items_from-map f h [] g at = refl
items_from-map f h (a ∷ l) g at =
    let first : f (g + 0) ≡ h a = at 0 a refl in
    let start : g + 0 ≡ g = omega arith in
    ap (λ c. c ∷ items_from f (g + 1) (length l)) (ap f (sym start) ∙ first)
    ∙ ap (λ cs. h a ∷ cs)
        (items_from-map f h l (g + 1)
          (λ i b e. let next : g + 1 + i ≡ g + suc i = omega arith in ap f next ∙ at (suc i) b e))

-- The granules have all rows.
pub sum-size_at :
    (granularity n : ℕ)
    → 0 < granularity
    → sum (items_from (size_at granularity n) 0 (granule_count granularity n)) ≡ n
sum-size_at granularity n pos =
    let rows : List ℕ = range_from 0 n in
    let l : List (List ℕ) = granules granularity rows in
    ap sum (
      items_from-map (size_at granularity n) (λ (r : List ℕ). length r) l 0
        (λ i a e.
          let start : 0 + i ≡ i = omega arith in
          ap (size_at granularity n) start
          ∙ ap (λ (o : Option (List ℕ)). elim o [ none ↦ 0 | some r ↦ length r ]) e))
    ∙ sum-lengths l
    ∙ ap length (concat-granules_from (length rows) granularity rows pos (omega arith))
    ∙ length-range_from 0 n
