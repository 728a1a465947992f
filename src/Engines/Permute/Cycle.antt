-- ===== src/Engines/Permute/Cycle.antt =====
-- engines/merge_tree.rs: one cycle of `apply_permutation_in_place`.
use touchhouse.Prelude.{
  ℕ, zero, suc, ◌≤◌, ◌<◌, ◌≡◌, ◌≢◌, refl, sym, ◌∙◌, ap, Bool, true, false, some, List, [], ◌∷◌,
  length, get_elem?, set, length-set, get_elem?-set_self, get_elem?-set_ne, ==_iff, ==_ne, inl, inr,
  ◌⊎◌, arith,
}
use mathlib.Core.Path.{subst}
use native.Mathlib.Decide.{ℕ_discrete}
use touchhouse.Outcome.{Result, ok}
use touchhouse.Engines.Permute.{swap, walk}

-- How many entries are not marked.
abbrev pub unmarked : List Bool → ℕ
unmarked [] = 0
unmarked (true ∷ v) = unmarked v
unmarked (false ∷ v) = suc (unmarked v)

abbrev pub IsMarked : List Bool → ℕ → Type 0
IsMarked v i = get_elem? v i ≡ some true

abbrev pub IsUnmarked : List Bool → ℕ → Type 0
IsUnmarked v i = get_elem? v i ≡ some false

pub IsMarked-cases : (v : List Bool) (i : ℕ) → i < length v → IsMarked v i ⊎ IsUnmarked v i
IsMarked-cases [] i h = elim h [ ]
IsMarked-cases (true ∷ v) zero h = inl refl
IsMarked-cases (false ∷ v) zero h = inr refl
IsMarked-cases (b ∷ v) (suc i) h = IsMarked-cases v i (omega arith)

unmarked-set : (v : List Bool) (i : ℕ) → IsUnmarked v i → suc (unmarked (set v i true)) ≡ unmarked v
unmarked-set [] i h = cc
unmarked-set (true ∷ v) zero h = cc
unmarked-set (false ∷ v) zero h = refl
unmarked-set (true ∷ v) (suc i) h = unmarked-set v i h
unmarked-set (false ∷ v) (suc i) h = ap suc (unmarked-set v i h)

pub some_below {ℓ} :
    {A : Type ℓ} (l : List A) (i : ℕ) → i < length l → (a : A) × (get_elem? l i ≡ some a)
some_below [] i h = elim h [ ]
some_below (x ∷ l) zero h = (x, refl)
some_below (x ∷ l) (suc i) h = some_below l i (omega arith)

IsMarked-set_self : (v : List Bool) (i : ℕ) → IsUnmarked v i → IsMarked (set v i true) i
IsMarked-set_self [] i h = cc
IsMarked-set_self (b ∷ v) zero h = refl
IsMarked-set_self (b ∷ v) (suc i) h = IsMarked-set_self v i h

IsMarked-set : (v : List Bool) (k i : ℕ) → IsUnmarked v k → IsMarked v i → IsMarked (set v k true) i
IsMarked-set v k i h m = elim (ℕ_discrete k i) [
  | yes e ↦ subst (IsMarked (set v k true)) e (IsMarked-set_self v k h)
  | no ne ↦ get_elem?-set_ne v k i true ne ∙ m
]

not_both : (v : List Bool) (i : ℕ) → IsMarked v i → IsUnmarked v i → ⊥
not_both v i m u = cc (m, u)

below_of_some {ℓ} :
    {A : Type ℓ} (l : List A) (i : ℕ) (a : A) → get_elem? l i ≡ some a → i < length l
below_of_some [] i a h = cc
below_of_some (x ∷ l) zero a h = omega arith
below_of_some (x ∷ l) (suc i) a h = omega (arith, below_of_some l i a h)

-- `p` is the permutation that `indices` lists, and `orig` the column as it was.
module _ {A : Type 0} (n : ℕ) (p : ℕ → ℕ) (indices : List ℕ) (orig : List A)
    (reads : (i : ℕ) → i < n → get_elem? indices i ≡ some (p i))
    (in_range : (i : ℕ) → i < n → p i < n)
    (injective : (i j : ℕ) → i < n → j < n → p i ≡ p j → i ≡ j) where
  -- Between cycles: what is marked has its final entry, what is not its first one.
  pub record Outer (l : List A) (v : List Bool) : Type 0 where
    pub length_l : length l ≡ n
    pub length_v : length v ≡ n
    pub settled : (i : ℕ) → IsMarked v i → get_elem? l i ≡ get_elem? orig (p i)
    pub untouched : (i : ℕ) → IsUnmarked v i → get_elem? l i ≡ get_elem? orig i
    pub back : (i : ℕ) → i < n → IsMarked v (p i) → IsMarked v i

  -- Within a cycle that began at `start`: place `cur` holds the entry of `start`.
  pub record Inner (start cur : ℕ) (l : List A) (v : List Bool) : Type 0 where
    pub length_l : length l ≡ n
    pub length_v : length v ≡ n
    pub start_lt : start < n
    pub cur_lt : cur < n
    pub fresh : IsUnmarked v cur
    pub settled : (i : ℕ) → IsMarked v i → get_elem? l i ≡ get_elem? orig (p i)
    pub untouched : (i : ℕ) → IsUnmarked v i → i ≢ cur → get_elem? l i ≡ get_elem? orig i
    pub held : get_elem? l cur ≡ get_elem? orig start
    pub back : (i : ℕ) → i < n → IsMarked v (p i) → p i ≢ start → IsMarked v i
    pub before : (i : ℕ) → i < n → p i ≡ cur → cur ≢ start → IsMarked v i

  module _ (start cur : ℕ) (l : List A) (v : List Bool) (inv : Inner start cur l v) where
    -- The cycle closes.
    close : p cur ≡ start → Outer l (set v cur true)
    close e = record {
      length_l = inv.length_l;
      length_v = length-set v cur true ∙ inv.length_v;
      settled = λ i m. elim (ℕ_discrete cur i) [
        | yes c ↦
            subst (λ k. get_elem? l k ≡ get_elem? orig (p k)) c
              (inv.held ∙ ap (get_elem? orig) (sym e))
        | no ne ↦ inv.settled i (sym (get_elem?-set_ne v cur i true ne) ∙ m)
      ];
      untouched = λ i u. elim (ℕ_discrete cur i) [
        | yes c ↦ absurd (
            not_both (set v cur true) i
              (subst (IsMarked (set v cur true)) c (IsMarked-set_self v cur inv.fresh)) u)
        | no ne ↦ inv.untouched i (sym (get_elem?-set_ne v cur i true ne) ∙ u) (λ c. ne (sym c))
      ];
      back = λ i lt m. elim (ℕ_discrete (p i) start) [
        | yes s ↦
            subst (IsMarked (set v cur true)) (injective cur i inv.cur_lt lt (e ∙ sym s))
              (IsMarked-set_self v cur inv.fresh)
        | no ns ↦ elim (ℕ_discrete cur (p i)) [
          | yes c ↦ IsMarked-set v cur i inv.fresh (inv.before i lt (sym c) (λ d. ns (sym c ∙ d)))
          | no nc ↦
              IsMarked-set v cur i inv.fresh
                (inv.back i lt (sym (get_elem?-set_ne v cur (p i) true nc) ∙ m) ns)
        ]
      ];
    }

    module _ (open_at : p cur ≢ start) where
      next_fresh : IsUnmarked v (p cur)
      next_fresh =
          elim (IsMarked-cases v (p cur)
            (subst (λ k. p cur < k) (sym inv.length_v) (in_range cur inv.cur_lt))) [
              | inl m ↦ absurd (not_both v cur (inv.back cur inv.cur_lt m open_at) inv.fresh)
              | inr u ↦ u
            ]

      next-ne : cur ≢ p cur
      next-ne e =
          not_both v cur (inv.before cur inv.cur_lt (sym e) (λ s. open_at (sym e ∙ s))) inv.fresh

      module _ (a b : A) (at_cur : get_elem? l cur ≡ some a)
          (at_next : get_elem? l (p cur) ≡ some b) where
        abbrev swapped : List A
        swapped = set (set l cur b) (p cur) a

        swap-eq : swap l cur (p cur) ≡ ok swapped
        unfolding swap
        swap-eq = rw at_cur (rw at_next refl)

        at_next' : get_elem? swapped (p cur) ≡ some a
        at_next' = get_elem?-set_self (set l cur b) (p cur) a (
            subst (λ k. p cur < k) (sym (length-set l cur b ∙ inv.length_l))
              (in_range cur inv.cur_lt))

        at_cur' : get_elem? swapped cur ≡ some b
        at_cur' =
            get_elem?-set_ne (set l cur b) (p cur) cur a (λ e. next-ne (sym e))
            ∙ get_elem?-set_self l cur b (subst (λ k. cur < k) (sym inv.length_l) inv.cur_lt)

        elsewhere : (i : ℕ) → cur ≢ i → p cur ≢ i → get_elem? swapped i ≡ get_elem? l i
        elsewhere i nc nn =
            get_elem?-set_ne (set l cur b) (p cur) i a nn ∙ get_elem?-set_ne l cur i b nc

        final_at_cur : get_elem? swapped cur ≡ get_elem? orig (p cur)
        final_at_cur =
            at_cur' ∙ sym at_next ∙ inv.untouched (p cur) next_fresh (λ e. next-ne (sym e))

        -- One round of the loop keeps the invariant.
        step : Inner start (p cur) swapped (set v cur true)
        step = record {
          length_l = length-set (set l cur b) (p cur) a ∙ length-set l cur b ∙ inv.length_l;
          length_v = length-set v cur true ∙ inv.length_v;
          start_lt = inv.start_lt;
          cur_lt = in_range cur inv.cur_lt;
          fresh = get_elem?-set_ne v cur (p cur) true next-ne ∙ next_fresh;
          settled = λ i m. elim (ℕ_discrete cur i) [
            | yes c ↦ subst (λ k. get_elem? swapped k ≡ get_elem? orig (p k)) c final_at_cur
            | no nc ↦
                let m' : IsMarked v i = sym (get_elem?-set_ne v cur i true nc) ∙ m in
                elsewhere i nc (λ e. not_both v i m' (subst (IsUnmarked v) e next_fresh))
                ∙ inv.settled i m'
          ];
          untouched = λ i u ne.
              let nc : cur ≢ i = λ c.
                not_both (set v cur true) i
                  (subst (IsMarked (set v cur true)) c (IsMarked-set_self v cur inv.fresh)) u in
              elsewhere i nc (λ e. ne (sym e))
              ∙ inv.untouched i (sym (get_elem?-set_ne v cur i true nc) ∙ u) (λ c. nc (sym c));
          held = at_next' ∙ sym at_cur ∙ inv.held;
          back = λ i lt m ns. elim (ℕ_discrete cur (p i)) [
            | yes c ↦ IsMarked-set v cur i inv.fresh (inv.before i lt (sym c) (λ d. ns (sym c ∙ d)))
            | no nc ↦
                IsMarked-set v cur i inv.fresh
                  (inv.back i lt (sym (get_elem?-set_ne v cur (p i) true nc) ∙ m) ns)
          ];
          before = λ i lt e _.
              subst (IsMarked (set v cur true)) (injective cur i inv.cur_lt lt (sym e))
                (IsMarked-set_self v cur inv.fresh);
        }

  -- Where the loop of one cycle ends: the invariant between cycles holds, what was marked still is,
  -- and the start is marked.
  abbrev pub Walked : ℕ → List Bool → Result (List A × List Bool) → Type 0
  Walked start v r =
      (l' : List A) × (v' : List Bool) × (r ≡ ok (l', v'))
      × Outer l' v'
      × ((i : ℕ) → IsMarked v i → IsMarked v' i)
      × IsMarked v' start

  -- After a round, the start is marked.
  start-IsMarked :
      (start cur : ℕ) (v : List Bool)
      → IsUnmarked v cur
      → (cur ≢ start → IsMarked v start)
      → IsMarked (set v cur true) start
  start-IsMarked start cur v fresh seen = elim (ℕ_discrete cur start) [
    | yes e ↦ subst (IsMarked (set v cur true)) e (IsMarked-set_self v cur fresh)
    | no ne ↦ IsMarked-set v cur start fresh (seen ne)
  ]

  walk_round :
      (fuel start cur : ℕ) (l l' : List A) (v : List Bool)
      → p cur ≢ start
      → p cur < n
      → swap l cur (p cur) ≡ ok l'
      → walk (suc fuel) indices start cur (p cur) l v
        ≡ walk fuel indices start (p cur) (p (p cur)) l' (set v cur true)
  unfolding walk
  walk_round fuel start cur l l' v ne lt s =
      rw (==_ne (p cur) start ne, walk, s, reads (p cur) lt) refl

  pub walk_ends :
      (fuel start cur : ℕ) (l : List A) (v : List Bool)
      → Inner start cur l v
      → (cur ≢ start → IsMarked v start)
      → unmarked v ≤ fuel
      → Walked start v (walk fuel indices start cur (p cur) l v)
  unfolding walk
  walk_ends zero start cur l v inv seen enough =
      absurd (omega (arith, unmarked-set v cur inv.fresh))
  walk_ends (suc fuel) start cur l v inv seen enough = elim (ℕ_discrete (p cur) start) [
    | yes e ↦ (
      l,
      set v cur true,
      rw ((==_iff (p cur) start).1 e, walk) refl,
      close start cur l v inv e,
      λ i m. IsMarked-set v cur i inv.fresh m,
      start-IsMarked start cur v inv.fresh seen,
    )
    | no ne ↦
        let (a, at_cur) = some_below l cur (omega (arith, inv.length_l, inv.cur_lt)) in
        let (b, at_next) =
          some_below l (p cur) (omega (arith, inv.length_l, in_range cur inv.cur_lt)) in
        let rec =
          walk_ends fuel start (p cur) (swapped start cur l v inv ne a b at_cur at_next)
            (set v cur true) (step start cur l v inv ne a b at_cur at_next)
            (λ _. start-IsMarked start cur v inv.fresh seen)
            (omega (arith, enough, unmarked-set v cur inv.fresh)) in
        (
          rec.0,
          rec.1,
          walk_round fuel start cur l (swapped start cur l v inv ne a b at_cur at_next) v ne
                (in_range cur inv.cur_lt) (swap-eq start cur l v inv ne a b at_cur at_next)
              ∙ rec.2,
          rec.3,
          λ i m. rec.4 i (IsMarked-set v cur i inv.fresh m),
          rec.5,
        )
  ]
