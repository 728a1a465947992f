-- ===== src/Tests/Scans.antt =====
-- A scan of a table of two parts.
use touchhouse.Prelude.{
  ℕ, zero, suc, ◌<◌, ◌≡◌, refl, none, some, Option, List, [], ◌∷◌, ◌++◌, get_elem?, position,
  String, arith,
}
use mathlib.Core.Path.{subst}
use touchhouse.Outcome.{ok}
use touchhouse.Storage.Column.{eq_column_def, eq_type, eq_constraints, eq_compression, eq_bool}
use touchhouse.Storage.Part.{
  Bytes, Mark, TablePartInfo, magic_bytes_column, granule_bytes, decompress_bytes, validate_mmap,
  eq_part,
}
use touchhouse.Storage.Native.{open_column, chunk_bytes_of, visits}
use touchhouse.Storage.Native.Walk.{IsReadable}
use touchhouse.Storage.Native.Scan.{visits-all_places}
use touchhouse.Tests.Fixtures.{externs, codec, col_a, schema}

abbrev file : Bytes
file = magic_bytes_column ++ (1 ∷ 2 ∷ 7 ∷ 0 ∷ 0 ∷ 0 ∷ [])

abbrev disk : String → String → Option Bytes
disk p c = some file

abbrev first_mark : Mark
first_mark = record { index_of = []; info = record { start = 6; stop = 7 } ∷ [] }

abbrev second_mark : Mark
second_mark = record { index_of = []; info = record { start = 7; stop = 8 } ∷ [] }

abbrev part_p : TablePartInfo
part_p = record {
  name = "p";
  row_count = 2;
  marks = first_mark ∷ second_mark ∷ [];
  column_defs = col_a ∷ [];
}

abbrev part_q : TablePartInfo
part_q = record { name = "q"; row_count = 1; marks = first_mark ∷ []; column_defs = col_a ∷ [] }

part_p-IsReadable : IsReadable externs codec disk part_p
unfolding open_column validate_mmap chunk_bytes_of granule_bytes decompress_bytes
part_p-IsReadable = record {
  mmaps = file ∷ [];
  opened = refl;
  filled = omega arith;
  read = granule;
}
  where
    granule :
        (g : ℕ)
        → g < 2
        → (mark : Mark) × (bytes : List Bytes) × (get_elem? part_p.marks g ≡ some mark)
          × (chunk_bytes_of externs codec disk part_p.column_defs (file ∷ []) mark.info ≡ ok bytes)
    granule zero h = (first_mark, (1 ∷ []) ∷ [], refl, refl)
    granule (suc zero) h = (second_mark, (2 ∷ []) ∷ [], refl, refl)
    granule (suc (suc g)) h = absurd (omega arith)

part_q-IsReadable : IsReadable externs codec disk part_q
unfolding open_column validate_mmap chunk_bytes_of granule_bytes decompress_bytes
part_q-IsReadable = record {
  mmaps = file ∷ [];
  opened = refl;
  filled = omega arith;
  read = granule;
}
  where
    granule :
        (g : ℕ)
        → g < 1
        → (mark : Mark) × (bytes : List Bytes) × (get_elem? part_q.marks g ≡ some mark)
          × (chunk_bytes_of externs codec disk part_q.column_defs (file ∷ []) mark.info ≡ ok bytes)
    granule zero h = (first_mark, (1 ∷ []) ∷ [], refl, refl)
    granule (suc g) h = absurd (omega arith)

found :
    (j : ℕ) (p : TablePartInfo)
    → get_elem? (part_p ∷ part_q ∷ []) j ≡ some p
    → position (λ q. eq_part q p) (part_p ∷ part_q ∷ []) ≡ some j
unfolding eq_part eq_column_def eq_type eq_constraints eq_compression eq_bool
found zero p h =
    let e : part_p ≡ p = cc h in
    subst (λ r. position (λ q. eq_part q r) (part_p ∷ part_q ∷ []) ≡ some 0) e refl
found (suc zero) p h =
    let e : part_q ≡ p = cc h in
    subst (λ r. position (λ q. eq_part q r) (part_p ∷ part_q ∷ []) ≡ some 1) e refl
found (suc (suc j)) p h = cc h

visits-all_places_example :
    visits externs codec disk 4
      (record { schema = schema; infos = part_p ∷ part_q ∷ []; loaded_chunk = none })
    ≡ ok ((part_p, 0) ∷ (part_p, 1) ∷ (part_q, 0) ∷ [])
visits-all_places_example =
    visits-all_places externs codec disk schema (part_p ∷ part_q ∷ []) 4
      (part_p-IsReadable, (part_q-IsReadable, tt)) found (omega arith)
