-- ===== src/Engines/Permute.antt =====
-- engines/merge_tree.rs: `apply_permutation_in_place`, which walks the cycles of a permutation and
-- swaps the entries of a column along them.
pub mod Cycle
pub mod Whole
use touchhouse.Prelude.{
  ℕ, zero, suc, Bool, true, false, List, [], ◌∷◌, length, get_elem?, set, replicate, ◌==◌,
}
use touchhouse.Outcome.{Result, ok, panics, hangs, ◌>>=◌, index}

-- The numbers from `k`, `n` of them.
abbrev pub range_from : ℕ → ℕ → List ℕ
range_from k zero = []
range_from k (suc n) = k ∷ range_from (suc k) n

module _ {A : Type 0} where
  -- `slice::swap`
  pub swap : List A → ℕ → ℕ → Result (List A)
  swap l i j = do a ← index (get_elem? l i); b ← index (get_elem? l j); ok (set (set l i b) j a)

  -- The `while` loop: one cycle, from `start` round to it. Each round marks an entry, so as many
  -- rounds as there are entries are enough.
  pub walk : ℕ → List ℕ → ℕ → ℕ → ℕ → List A → List Bool → Result (List A × List Bool)
  unfolding swap
  walk zero indices start current next l visited = hangs
  walk (suc fuel) indices start current next l visited = elim (next == start) [
    | true ↦ ok (l, set visited current true)
    | false ↦ swap l current next >>= λ l'. index (get_elem? indices next) >>= λ next'.
        walk fuel indices start next next' l' (set visited current true)
  ]

  -- The `for` loop, over the starts that are left.
  pub cycles : List ℕ → List ℕ → List A → List Bool → Result (List A)
  unfolding walk
  cycles [] indices l visited = ok l
  cycles (start ∷ starts) indices l visited = index (get_elem? visited start) >>= λ seen.
      elim seen [
        | true ↦ cycles starts indices l visited
        | false ↦ index (get_elem? indices start) >>= λ next.
            walk (length l) indices start start next l visited >>= λ state.
            cycles starts indices state.0 state.1
      ]

  unfoldable pub apply_permutation_in_place : List A → List ℕ → Result (List A)
  unfolding cycles
  apply_permutation_in_place l indices =
      cycles (range_from 0 (length l)) indices l (replicate (length l) false)
