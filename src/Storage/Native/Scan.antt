-- ===== src/Storage/Native/Scan.antt =====
-- storage/tables/native.rs: the chunks that a scan of a table loads.
use touchhouse.Prelude.{
  ℕ, zero, suc, ◌+◌, ◌<◌, ◌≡◌, length-append, refl, ap, ◌∙◌, String, Option, none, some, List, [],
  ◌∷◌, ◌++◌, length, get_elem?, position, All, arith,
}
use mathlib.Core.Path.{subst}
use touchhouse.Outcome.{ok, >>=-ok}
use touchhouse.Externs.{Externs, Codec}
use touchhouse.Value.{Value}
use touchhouse.Value.Archived.{ArchivedValue}
use touchhouse.Storage.Table.{TableSchema}
use touchhouse.Storage.Part.{Bytes, TablePartInfo, eq_part}
use touchhouse.Storage.Native.{NativeStorage, load_next_chunk, visits, place_of}
use touchhouse.Storage.Native.Walk.{
  IsReadable, PartItems, Gives, infos_of, items_from, all_items, with_chunk, walk,
}

-- The granules of a part from the g-th on, `n` of them, and those of some parts.
abbrev pub places_from : TablePartInfo → ℕ → ℕ → List (TablePartInfo × ℕ)
places_from part g zero = []
places_from part g (suc n) = (part, g) ∷ places_from part (g + 1) n

abbrev pub all_places : List TablePartInfo → List (TablePartInfo × ℕ)
all_places [] = []
all_places (p ∷ ps) = places_from p 0 (length p.marks) ++ all_places ps

abbrev pub total_marks : List TablePartInfo → ℕ
total_marks [] = 0
total_marks (p ∷ ps) = length p.marks + total_marks ps

abbrev placed : List TablePartInfo → List (PartItems (TablePartInfo × ℕ))
placed [] = []
placed (p ∷ ps) = record { info = p; item = λ g. (p, g) } ∷ placed ps

infos-placed : (ps : List TablePartInfo) → ps ≡ infos_of (placed ps)
infos-placed [] = refl
infos-placed (p ∷ ps) = ap (λ l. p ∷ l) (infos-placed ps)

items-placed : (p : TablePartInfo) (g n : ℕ) → items_from (λ g. (p, g)) g n ≡ places_from p g n
items-placed p g zero = refl
items-placed p g (suc n) = ap (λ l. (p, g) ∷ l) (items-placed p (g + 1) n)

all-placed : (ps : List TablePartInfo) → all_items (placed ps) ≡ all_places ps
all-placed [] = refl
all-placed (p ∷ ps) =
    ap (λ l. l ++ all_items (placed ps)) (items-placed p 0 (length p.marks))
    ∙ ap (λ l. places_from p 0 (length p.marks) ++ l) (all-placed ps)

length-places_from : (p : TablePartInfo) (g n : ℕ) → length (places_from p g n) ≡ n
length-places_from p g zero = refl
length-places_from p g (suc n) = ap suc (length-places_from p (g + 1) n)

length-all_places : (ps : List TablePartInfo) → length (all_places ps) ≡ total_marks ps
length-all_places [] = refl
length-all_places (p ∷ ps) = omega (
  arith,
  length-append (places_from p 0 (length p.marks)) (all_places ps),
  length-places_from p 0 (length p.marks),
  length-all_places ps,
)

module _ (x : Externs) (k : Codec Value ArchivedValue) (disk : String → String → Option Bytes) where
  -- With a call for each place and one more, the places are visited.
  abbrev Visited : NativeStorage → List (TablePartInfo × ℕ) → Type 0
  Visited s places = (fuel : ℕ) → length places < fuel → visits x k disk fuel s ≡ ok places

  abbrev IsAt : NativeStorage → TablePartInfo × ℕ → Type 0
  IsAt s place = place_of x k disk s ≡ place ∷ []

  none_left : (s : NativeStorage) → load_next_chunk x k disk s ≡ ok none → Visited s []
  unfolding visits
  none_left s e zero lt = absurd (omega (arith, lt))
  none_left s e (suc fuel) lt = >>=-ok (load_next_chunk x k disk s) _ e refl

  one-Visited :
      (s s' : NativeStorage) (b : TablePartInfo × ℕ) (rest : List (TablePartInfo × ℕ))
      → load_next_chunk x k disk s ≡ ok (some s')
      → IsAt s' b
      → Visited s' rest
      → Visited s (b ∷ rest)
  unfolding visits
  one-Visited s s' b rest e is_at after zero lt = absurd (omega (arith, lt))
  one-Visited s s' b rest e is_at after (suc fuel) lt = >>=-ok (load_next_chunk x k disk s) _ e (
      >>=-ok (visits x k disk fuel s') _ (after fuel (omega (arith, lt)))
        (ap (λ (l : List (TablePartInfo × ℕ)). ok (l ++ rest)) is_at))

  abbrev Placed : TableSchema → List TablePartInfo → PartItems (TablePartInfo × ℕ) → Type 0
  Placed schema infos = Gives x k disk Visited IsAt none_left one-Visited schema infos

  placed-Gives :
      (schema : TableSchema) (infos ps : List TablePartInfo)
      → All (IsReadable x k disk) ps
      → All (Placed schema infos) (placed ps)
  placed-Gives schema infos [] h = tt
  placed-Gives schema infos (p ∷ ps) h = (
    record { readable = h.0; item_at = λ g mark bytes lt em eb. refl },
    placed-Gives schema infos ps h.1,
  )

  -- Where every part of a table has a granule and can be read, and each part is the first that
  -- equals it, a scan of the table loads every granule of every part once, in order, and then
  -- there is none: one call more than there are granules is enough.
  pub visits-all_places :
      (schema : TableSchema) (infos : List TablePartInfo) (fuel : ℕ)
      → All (IsReadable x k disk) infos
      → ((j : ℕ) (p : TablePartInfo)
          → get_elem? infos j ≡ some p
          → position (λ q. eq_part q p) infos ≡ some j)
      → total_marks infos < fuel
      → visits x k disk fuel (record { schema = schema; infos = infos; loaded_chunk = none })
        ≡ ok (all_places infos)
  visits-all_places schema infos fuel rs apart lt =
      subst (λ l. Visited (with_chunk x k disk schema infos none) l) (all-placed infos)
        (walk x k disk Visited IsAt none_left one-Visited schema infos (placed infos)
          (infos-placed infos) (placed-Gives schema infos infos rs) apart)
        fuel (omega (arith, lt, ap length (all-placed infos), length-all_places infos))
