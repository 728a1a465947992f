-- ===== src/Tests/Kept.antt =====
-- A run of the replacing engine: of two rows with one key the last stays.
use touchhouse.Prelude.{true, false, [], ◌∷◌, List, ◌≡◌, refl, All}
use touchhouse.Outcome.{ok}
use touchhouse.Value.{Value, partial_cmp, eq}
use touchhouse.Engines.Sort.{compare_by, sort_by, insert}
use touchhouse.Engines.Replacing.{replace_rows, same_key, cell_of}
use touchhouse.Engines.Replacing.Kept.{AreApart, IsCovered, replace_rows-AreApart}

abbrev first_of_1 : List Value
first_of_1 = Value.uint64 1 ∷ Value.bool true ∷ []

abbrev of_2 : List Value
of_2 = Value.uint64 2 ∷ Value.bool true ∷ []

abbrev last_of_1 : List Value
last_of_1 = Value.uint64 1 ∷ Value.bool false ∷ []

replaced :
    replace_rows (0 ∷ []) (0 ∷ []) (first_of_1 ∷ of_2 ∷ last_of_1 ∷ []) ≡ ok (last_of_1 ∷ of_2 ∷ [])
unfolding replace_rows sort_by insert compare_by partial_cmp eq
replaced = refl

replace_rows-AreApart_example :
    (sorted : List (List Value)) × (sort_by
        (compare_by cell_of (0 ∷ []))
        (first_of_1 ∷ of_2 ∷ last_of_1 ∷ [])
      ≡ ok sorted)
    × AreApart (same_key (0 ∷ [])) (last_of_1 ∷ of_2 ∷ [])
    × All (λ row. IsCovered (same_key (0 ∷ [])) row (last_of_1 ∷ of_2 ∷ [])) sorted
replace_rows-AreApart_example =
    replace_rows-AreApart (0 ∷ []) (0 ∷ []) (first_of_1 ∷ of_2 ∷ last_of_1 ∷ [])
      (last_of_1 ∷ of_2 ∷ []) replaced
