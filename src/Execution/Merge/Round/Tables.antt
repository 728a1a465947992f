-- ===== src/Execution/Merge/Round/Tables.antt =====
-- background_merge.rs: what a round does to the loaded tables.
use touchhouse.Prelude.{
  ℕ, ◌<◌, ◌≡◌, ◌⊎◌, refl, sym, ap, ◌∙◌, String, Bool, Option, some, List, [], ◌∷◌, ◌++◌, leb,
  Bool-cases, Option-cases, inl, inr, arith,
}
use touchhouse.Outcome.{Result, ok, err, panics, hangs, >>=-eq-ok, ok-eq}
use touchhouse.Externs.{Externs, Codec}
use touchhouse.Value.{Value}
use touchhouse.Value.Archived.{ArchivedValue}
use touchhouse.Storage.Table.{TableDef, eq_table}
use touchhouse.Storage.Part.{Bytes, TablePartInfo, TablePart, try_new, save_raw, save_columns}
use touchhouse.Storage.Part.Marks.{try_new-part_of}
use touchhouse.Execution.Commands.{TableConfig, lookup, replace}
use touchhouse.Execution.Merge.{
  Folders, rename, retain_infos, old_name, move_to_normal, load_part_cols, combine_cols,
  atomic_part_move,
}
use touchhouse.Execution.Merge.Move.{tested}
use touchhouse.Execution.Merge.Round.Found.{SortsNames, AreParts, find_in_tables-AreParts}
use touchhouse.Execution.Merge.Round.{
  ServerState, PartsToMerge, Round, or_else, find_in_tables, move_parts, save_and_move, merge_parts,
  round, opened_table, sleep_if_not_found,
}

or_else-ok :
    {A : Type 0} (r : Result A) (failed out : Round) (next : A → Result Round)
    → or_else r failed next ≡ ok out
    → (failed ≡ out) ⊎ ((a : A) × (r ≡ ok a) × (next a ≡ ok out))
or_else-ok (ok a) failed out next h = inr (a, refl, h)
or_else-ok (err e) failed out next h = inl (ok-eq h)
or_else-ok panics failed out next h = cc h
or_else-ok hangs failed out next h = cc h

replace-same :
    (t : TableDef) (c : TableConfig) (es : List (TableDef × TableConfig))
    → lookup es t ≡ some c
    → replace t c es ≡ es
replace-same t c [] h = refl
replace-same t c (e ∷ es) h = elim (Bool-cases (eq_table e.0 t)) [
  | inl y ↦ let same : some e.1 ≡ some c = rw y at h in rw (y, replace) (cc same)
  | inr n ↦ rw (n, replace) (ap (λ l. e ∷ l) (replace-same t c es (rw n at h)))
]

move_to_normal-pushed :
    (can : String → Bool) (part : TablePartInfo) (infos : List TablePartInfo) (f : Folders)
    (moved : List TablePartInfo × Folders)
    → move_to_normal can part infos f ≡ some moved
    → moved.0 ≡ infos ++ (part ∷ [])
unfolding move_to_normal
move_to_normal-pushed can part infos f moved h =
    sym (ap (λ (m : List TablePartInfo × Folders). m.0) (tested _ _ moved h))

save_raw-name :
    (k : Codec Value ArchivedValue) (part : TablePart) (granularity : ℕ)
    (saved : List Bytes × TablePart)
    → save_raw k part granularity ≡ ok saved
    → saved.1.info.name ≡ part.info.name
unfolding save_raw
save_raw-name k part granularity saved h =
    let (r, _, h1) = >>=-eq-ok (save_columns k part.data_of granularity part.info.marks) _ h in
    sym (ap (λ (q : List Bytes × TablePart). q.1.info.name) (ok-eq h1))

-- The two parts have gone and the new one is the last, or all parts are there.
atomic_part_move-swapped :
    (can : String → String → Bool) (can_move can_remove : String → Bool) (p q new : TablePartInfo)
    (infos : List TablePartInfo) (f : Folders) (out : List TablePartInfo × Folders × Bool)
    → atomic_part_move can can_move can_remove p q new infos f ≡ ok out
    → (out.0 ≡ infos) ⊎ (out.0 ≡ retain_infos p.name q.name infos ++ (new ∷ []))
unfolding atomic_part_move
atomic_part_move-swapped can can_move can_remove p q new infos f out h =
    let infos_of : List TablePartInfo × Folders × Bool → List TablePartInfo = λ m. m.0 in
    elim (Option-cases (rename can f.normal p.name (old_name p.name))) [
      | inl e ↦ inl (sym (ap infos_of (ok-eq (rw (e, atomic_part_move) at h))))
      | inr (names1, e1) ↦ elim (Option-cases (rename can names1 q.name (old_name q.name))) [
        | inl e2 ↦ elim (Option-cases (rename can names1 (old_name p.name) p.name)) [
          | inl e3 ↦ inl (sym (ap infos_of (ok-eq (rw (e1, e2, e3, atomic_part_move) at h))))
          | inr (names0, e3) ↦
              inl (sym (ap infos_of (ok-eq (rw (e1, e2, e3, atomic_part_move) at h))))
        ]
        | inr (names2, e2) ↦
            elim (Option-cases (
              move_to_normal can_move new (retain_infos p.name q.name infos)
                record f { normal = names2 })) [
                  | inl e3 ↦ cc (rw (e1, e2, e3, atomic_part_move) at h)
                  | inr (moved, e3) ↦ inr (
                      sym (ap infos_of (ok-eq (rw (e1, e2, e3, atomic_part_move) at h)))
                      ∙ move_to_normal-pushed can_move new (retain_infos p.name q.name infos)
                          record f { normal = names2 } moved e3)
                ]
      ]
    ]

-- In the table the two parts have gone and a new one, of the second's name, is the last.
abbrev pub Swapped : ServerState → PartsToMerge → ServerState → Type 0
Swapped s p out =
    (config : TableConfig) × (new_part : TablePartInfo) × (lookup s.table_data p.table_def
      ≡ some config)
    × (new_part.name ≡ p.part_2_info.name)
    × (out.table_data
        ≡ replace p.table_def
            (record config {
              infos =
                  retain_infos p.part_1_info.name p.part_2_info.name config.infos
                  ++ (new_part ∷ []);
            })
            s.table_data)

abbrev pub IsMerged : ServerState → PartsToMerge → ServerState → Type 0
IsMerged s p out = (out.table_data ≡ s.table_data) ⊎ Swapped s p out

module _ (x : Externs) (k : Codec Value ArchivedValue)
    (disk : TableDef → String → String → Option Bytes) (can : TableDef → String → String → Bool)
    (can_move can_remove : TableDef → String → Bool) where
  move_parts-IsMerged :
      (s : ServerState) (p : PartsToMerge) (new_part : TablePartInfo) (out : Round)
      → move_parts x k disk can can_move can_remove s p new_part ≡ ok out
      → new_part.name ≡ p.part_2_info.name
      → IsMerged s p out.0
  unfolding move_parts
  move_parts-IsMerged s p new_part out h n = elim (Option-cases (lookup s.table_data p.table_def)) [
    | inl e ↦ inl (sym (ap (λ (r : Round). r.0.table_data) (ok-eq (rw (e, move_parts) at h))))
    | inr (config, e) ↦
        let (moved, em, h1) =
          >>=-eq-ok
            (atomic_part_move (can p.table_def) (can_move p.table_def) (can_remove p.table_def)
              p.part_1_info p.part_2_info new_part config.infos (s.folders p.table_def))
            _ (rw (e, move_parts) at h) in
        let put_back : replace p.table_def (record config { infos = moved.0 }) s.table_data
            ≡ out.0.table_data =
          ap (λ (r : Round). r.0.table_data) (ok-eq h1) in
        let put : List TablePartInfo → List (TableDef × TableConfig) =
          λ infos. replace p.table_def (record config { infos = infos }) s.table_data in
        elim (atomic_part_move-swapped (can p.table_def) (can_move p.table_def)
          (can_remove p.table_def) p.part_1_info p.part_2_info new_part config.infos
          (s.folders p.table_def) moved em) [
            | inl same ↦
                inl (sym put_back ∙ ap put same ∙ replace-same p.table_def config s.table_data e)
            | inr swapped ↦ inr (config, new_part, e, n, sym put_back ∙ ap put swapped)
          ]
  ]

  save_and_move-IsMerged :
      (s : ServerState) (p : PartsToMerge) (new_part : TablePart) (out : Round)
      → save_and_move x k disk can can_move can_remove s p new_part ≡ ok out
      → new_part.info.name ≡ p.part_2_info.name
      → IsMerged s p out.0
  unfolding save_and_move
  save_and_move-IsMerged s p new_part out h n =
      elim (or_else-ok (save_raw k new_part p.table_metadata.settings.index_granularity) _ out _
        h) [
          | inl e ↦ inl (sym (ap (λ (r : Round). r.0.table_data) e))
          | inr (saved, es, h1) ↦
              move_parts-IsMerged _ p saved.1.info out h1 (save_raw-name k new_part _ saved es ∙ n)
        ]

  merge_parts-IsMerged :
      (s : ServerState) (p : PartsToMerge) (out : Round)
      → merge_parts x k disk can can_move can_remove s p ≡ ok out
      → IsMerged s p out.0
  unfolding merge_parts
  merge_parts-IsMerged s p out h =
      let same : (ms : ℕ) → (s, ms) ≡ out → IsMerged s p out.0 =
        λ ms e. inl (sym (ap (λ (r : Round). r.0.table_data) e)) in
      elim (or_else-ok
        (load_part_cols x k (disk p.table_def) (opened_table s.table_data p.table_def)
          p.part_1_info)
        _ out _ h) [
          | inl e ↦ same sleep_if_not_found e
          | inr (cols1, _, h1) ↦
              elim (or_else-ok
                (load_part_cols x k (disk p.table_def) (opened_table s.table_data p.table_def)
                  p.part_2_info)
                _ out _ h1) [
                  | inl e ↦ same sleep_if_not_found e
                  | inr (cols2, _, h2) ↦
                      elim (or_else-ok
                        (try_new p.table_metadata (combine_cols cols1 cols2) p.part_2_info.name) _
                        out _ h2) [
                          | inl e ↦ same 0 e
                          | inr (new_part, en, h3) ↦
                              let (ordered, marks, first, _, made) =
                                try_new-part_of p.table_metadata (combine_cols cols1 cols2)
                                  p.part_2_info.name new_part en in
                              save_and_move-IsMerged s p new_part out h3
                                (sym (ap (λ (t : TablePart). t.info.name) made))
                        ]
                ]
        ]

-- A round of the background merge that ends leaves the loaded tables as they were, or the load
-- was below the threshold and, in one table, of more than one part, two of its parts, whose names
-- stand at two places among those of its parts, have gone and one new part, which has the name of
-- the second of them, is the last; no other table has changed. The unstable sort is taken to keep
-- the entries of a list.
pub round-IsMerged :
    (x : Externs) (sorts : SortsNames x) (k : Codec Value ArchivedValue)
    (disk : TableDef → String → String → Option Bytes) (can : TableDef → String → String → Bool)
    (can_move can_remove : TableDef → String → Bool) (available_under : ℕ) (s : ServerState)
    (out : Round)
    → round x k disk can can_move can_remove available_under s ≡ ok out
    → (out.0.table_data ≡ s.table_data)
      ⊎ ((s.database_load < available_under)
          × ((p : PartsToMerge) × AreParts s.table_data p × Swapped s p out.0))
unfolding round
round-IsMerged x sorts k disk can can_move can_remove available_under s out h =
    elim (Bool-cases (leb available_under s.database_load)) [
      | inl e ↦ inl (sym (ap (λ (r : Round). r.0.table_data) (ok-eq (rw (e, round) at h))))
      | inr e ↦
          let (found, ef, h1) = >>=-eq-ok (find_in_tables x s.table_data) _ (rw (e, round) at h) in
          elim (Option-cases found) [
            | inl n ↦ inl (sym (ap (λ (r : Round). r.0.table_data) (ok-eq (rw n at h1))))
            | inr (p, f) ↦
                elim (merge_parts-IsMerged x k disk can can_move can_remove s p out (rw f at h1)) [
                  | inl same ↦ inl same
                  | inr swapped ↦ inr (
                    ground (arith, e),
                    (
                      p,
                      find_in_tables-AreParts x sorts s.table_data p (ef ∙ ap (λ o. ok o) f),
                      swapped,
                    ),
                  )
                ]
          ]
    ]
