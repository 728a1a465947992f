-- ===== src/Tests/Moves.antt =====
-- A run of the move of a merged part.
use touchhouse.Prelude.{true, [], ◌∷◌, ◌≡◌, ◌≢◌, refl, String, eq_iff, false, str_eq}
use touchhouse.Outcome.{ok}
use touchhouse.Storage.Part.{TablePartInfo}
use touchhouse.Execution.Merge.{Folders, retain_infos, old_name, move_to_normal, atomic_part_move}
use touchhouse.Execution.Merge.Move.{IsMoved, atomic_part_move-infos}

abbrev named : String → TablePartInfo
named n = record { name = n; row_count = 1; marks = []; column_defs = [] }

abbrev before : Folders
before = record { normal = "p" ∷ "q" ∷ "s" ∷ []; raw = "r" ∷ [] }

abbrev after : Folders
after = record { normal = "r" ∷ "s" ∷ []; raw = [] }

moved :
    atomic_part_move
      (λ a b. true)
      (λ a. true)
      (λ a. true)
      (named "p")
      (named "q")
      (named "r")
      (named "p" ∷ named "q" ∷ named "s" ∷ [])
      before
    ≡ ok (named "s" ∷ named "r" ∷ [], after, true)
unfolding atomic_part_move retain_infos move_to_normal
moved = refl

differs : (a b : String) → str_eq a b ≡ false → a ≢ b
differs a b h e = cc (h, (eq_iff a b).1 e)

atomic_part_move-infos_example :
    IsMoved
      (named "p")
      (named "q")
      (named "r")
      (named "p" ∷ named "q" ∷ named "s" ∷ [])
      before
      "s"
      (named "s" ∷ named "r" ∷ [], after, true)
atomic_part_move-infos_example =
    atomic_part_move-infos (λ a b. true) (λ a. true) (λ a. true) (named "p") (named "q") (named "r")
      (named "p" ∷ named "q" ∷ named "s" ∷ []) before (named "s" ∷ named "r" ∷ [], after, true) "s"
      moved (differs "s" "p" refl) (differs "s" "q" refl) (differs "s" (old_name "p") refl)
      (differs "s" (old_name "q") refl) (differs "s" "r" refl)
