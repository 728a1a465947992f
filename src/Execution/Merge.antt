-- ===== src/Execution/Merge.antt =====
-- background_merge.rs: the two oldest parts of a table are read, put together, and take their place
-- as one part. A round of the loop around it is in Execution/Merge/Round.
pub mod Reading
pub mod Move
pub mod Round
pub mod Combined
use Prim.Native.String.{◌++◌ as append}
use touchhouse.Prelude.{
  ℕ, zero, suc, ◌+◌, String, Bool, true, false, not, ◌&&◌, ◌||◌, Option, none, some, List, [], ◌∷◌,
  ◌++◌, map, any, filter, length, get_elem?, set, find, position, replicate, str_eq, ◌==◌, ltb,
  Ordering, if◌then◌else◌,
}
use touchhouse.Outcome.{Result, ok, err, hangs, ◌>>=◌, index, traverse}
use touchhouse.Externs.{Externs, Codec}
use touchhouse.Value.{Value}
use touchhouse.Value.Archived.{ArchivedValue, to_value}
use touchhouse.Storage.Column.{
  ColumnDef, PhysicalColumn, Projection, eq_column_def, projection_of, empty_column,
}
use touchhouse.Storage.Table.{TableSchema}
use touchhouse.Storage.Part.{Bytes, TablePartInfo, TablePart}
use touchhouse.Storage.Native.{NativeStorage, open_part, load_next_chunk, access_chunk_column}

-- `unwrap_or_default`: the default of a value is NULL.
abbrev pub default_value : Option Value → Value
default_value none = Value.null
default_value (some v) = v

-- The column that has the definition takes the data; a new one is filled up first.
unfoldable pub combine_col : ℕ → List PhysicalColumn → PhysicalColumn → List PhysicalColumn
combine_col base_len cols c =
    elim (position (λ (d : PhysicalColumn). eq_column_def d.column_def c.column_def) cols) [
      | none ↦
          cols
          ++ (record {
            column_def = c.column_def;
            data_of =
                replicate base_len (default_value c.column_def.constraints.default) ++ c.data_of;
          }
              ∷ [])
      | some i ↦ elim (get_elem? cols i) [
        | none ↦ cols
        | some d ↦ set cols i record d { data_of = d.data_of ++ c.data_of }
      ]
    ]

unfoldable pub combine_from : ℕ → List PhysicalColumn → List PhysicalColumn → List PhysicalColumn
combine_from base_len cols [] = cols
combine_from base_len cols (c ∷ cs) = combine_from base_len (combine_col base_len cols c) cs

abbrev pub base_length : List PhysicalColumn → ℕ
base_length [] = 0
base_length (c ∷ cs) = length c.data_of

unfoldable pub combine_cols : List PhysicalColumn → List PhysicalColumn → List PhysicalColumn
combine_cols cols1 cols2 = combine_from (base_length cols1) cols1 cols2

-- By seconds, then nanoseconds: later is greater, anything else less.
cmp_times : Option (ℕ × ℕ) → Option (ℕ × ℕ) → Ordering
cmp_times none t = Ordering.eq
cmp_times (some s) none = Ordering.eq
cmp_times (some s) (some t) =
    if ltb t.0 s.0 || ((s.0 == t.0) && ltb t.1 s.1) then Ordering.gt else Ordering.lt

unfoldable pub cmp_uuid_strs_asc : Externs → String → String → Ordering
unfolding cmp_times
cmp_uuid_strs_asc x t1 t2 =
    if str_eq t1 t2 then Ordering.eq else cmp_times (x.uuid_timestamp t1) (x.uuid_timestamp t2)

unfoldable pub part_named : List TablePartInfo → String → Option TablePartInfo
part_named infos name = find (λ (p : TablePartInfo). str_eq p.name name) infos

-- The parts with the first two names, for a table of more than one part.
unfoldable pub first_two : List TablePartInfo → List String → Option (TablePartInfo × TablePartInfo)
unfolding part_named
first_two infos (a ∷ b ∷ names) = elim (part_named infos a) [
  | none ↦ none
  | some p ↦ elim (part_named infos b) [ none ↦ none | some q ↦ some (p, q) ]
]
first_two infos _ = none

unfoldable pub find_parts_to_merge :
    Externs → List TablePartInfo → Result (Option (TablePartInfo × TablePartInfo))
unfolding first_two
find_parts_to_merge x infos =
    if ltb 1 (length infos)
    then (index
          (x.sort_unstable_by (cmp_uuid_strs_asc x) (map (λ (p : TablePartInfo). p.name) infos))
        >>= λ names. ok (first_two infos names))
    else ok none

module _ (x : Externs) (k : Codec Value ArchivedValue) (disk : String → String → Option Bytes) where
  -- The next chunk where there is one; the source passes over that there is none.
  advance : NativeStorage → Result NativeStorage
  advance s = load_next_chunk x k disk s >>= λ next. elim next [ none ↦ ok s | some s' ↦ ok s' ]

  extend_cols : NativeStorage → List PhysicalColumn → Result (List PhysicalColumn)
  extend_cols s [] = ok []
  extend_cols s (c ∷ cs) = do
    cells ← access_chunk_column x k disk s (projection_of c.column_def)
    rest ← extend_cols s cs
    ok (record c { data_of = c.data_of ++ map to_value cells } ∷ rest)

  pub load_chunks : ℕ → NativeStorage → List PhysicalColumn → Result (List PhysicalColumn)
  unfolding advance extend_cols
  load_chunks zero s columns = ok columns
  load_chunks (suc n) s columns =
      advance s >>= λ s'. extend_cols s' columns >>= λ columns'. load_chunks n s' columns'

  unfoldable pub load_part_cols :
      Option (TableSchema × List TablePartInfo) → TablePartInfo → Result (List PhysicalColumn)
  unfolding load_chunks
  load_part_cols table part = do
    s ← open_part x k disk table part
    load_chunks (length part.marks) s (map empty_column part.column_defs)

-- The folders of a table's parts by name, the finished ones and those under `raw`.
pub record Folders : Type 0 where
  pub normal : List String
  pub raw : List String

abbrev pub has_folder : List String → String → Bool
has_folder names n = any (λ m. str_eq m n) names

-- A rename within the table's folder: there is such a folder, none in its way, and `can`, what the
-- file system allows besides.
abbrev pub rename : (String → String → Bool) → List String → String → String → Option (List String)
rename can names from to =
    if has_folder names from && (not (has_folder names to) && can from to)
    then some (to ∷ filter (λ n. not (str_eq n from)) names)
    else none

unfoldable pub retain_infos : String → String → List TablePartInfo → List TablePartInfo
retain_infos a b infos =
    filter (λ (p : TablePartInfo). not (str_eq p.name a) && not (str_eq p.name b)) infos

abbrev pub old_name : String → String
old_name n = append n ".old"

-- `move_to_normal`: the part is pushed, and popped again where the rename fails.
unfoldable pub move_to_normal :
    (String → Bool)
    → TablePartInfo
    → List TablePartInfo
    → Folders
    → Option (List TablePartInfo × Folders)
move_to_normal can part infos f =
    if has_folder f.raw part.name && (not (has_folder f.normal part.name) && can part.name)
    then some (
      infos ++ (part ∷ []),
      record { normal = part.name ∷ f.normal; raw = filter (λ n. not (str_eq n part.name)) f.raw },
    )
    else none

-- `remove_dir_all`, whose failure is only warned of: the folder stays then.
abbrev pub remove_folder : (String → Bool) → String → List String → List String
remove_folder can_remove name names =
    if can_remove name then filter (λ n. not (str_eq n name)) names else names

-- The parts of the table and its folders after the move, and whether it was made. Where the new
-- part cannot be moved, the source asks for the table's lock a second time while it holds it, and
-- never gets it.
unfoldable pub atomic_part_move :
    (String → String → Bool)
    → (String → Bool)
    → (String → Bool)
    → TablePartInfo
    → TablePartInfo
    → TablePartInfo
    → List TablePartInfo
    → Folders
    → Result (List TablePartInfo × Folders × Bool)
atomic_part_move can can_move can_remove part_1 part_2 new_part infos f =
    elim (rename can f.normal part_1.name (old_name part_1.name)) [
      | none ↦ ok (infos, f, false)
      | some names1 ↦ elim (rename can names1 part_2.name (old_name part_2.name)) [
        | none ↦ elim (rename can names1 (old_name part_1.name) part_1.name) [
          | none ↦ ok (infos, record f { normal = names1 }, false)
          | some names0 ↦ ok (infos, record f { normal = names0 }, false)
        ]
        | some names2 ↦
            elim (move_to_normal can_move new_part (retain_infos part_1.name part_2.name infos)
              record f { normal = names2 }) [
                | none ↦ hangs
                | some moved ↦ ok (
                  moved.0,
                  record {
                    normal =
                        remove_folder can_remove (old_name part_2.name)
                          (remove_folder can_remove (old_name part_1.name) moved.1.normal);
                    raw = moved.1.raw;
                  },
                  true,
                )
              ]
      ]
    ]
