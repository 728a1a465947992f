-- ===== src/Execution/Merge/Move.antt =====
-- background_merge.rs: what `atomic_part_move` does to the parts and the folders of a table.
use touchhouse.Prelude.{
  ◌≡◌, ◌≢◌, refl, sym, ap, ◌∙◌, String, Bool, true, false, not, ◌&&◌, none, some, List, [], ◌∷◌,
  ◌++◌, any, filter, str_eq, eq_iff, Bool-cases, Option-cases, inl, inr, if◌then◌else◌,
}
use mathlib.Core.Path.{subst}
use touchhouse.Outcome.{ok, ok-eq}
use touchhouse.Storage.Part.{TablePartInfo}
use touchhouse.Execution.Merge.{
  remove_folder, Folders, has_folder, rename, retain_infos, old_name, move_to_normal,
  atomic_part_move,
}

str_ne : (a b : String) → a ≢ b → str_eq a b ≡ false
str_ne a b h = elim (Bool-cases (str_eq a b)) [ inl e ↦ absurd (h ((eq_iff a b).0 e)) | inr e ↦ e ]

has_folder-filter :
    (q : String → Bool) (names : List String) (n : String)
    → q n ≡ true
    → has_folder (filter q names) n ≡ has_folder names n
has_folder-filter q [] n h = refl
has_folder-filter q (m ∷ ms) n h = elim (Bool-cases (q m)) [
  | inl e ↦ rw (e, filter, has_folder-filter q ms n h) refl
  | inr e ↦ elim (Bool-cases (str_eq m n)) [
    | inl s ↦ cc (ap q ((eq_iff m n).0 s), h, e)
    | inr s ↦ rw (e, filter, s, any) (has_folder-filter q ms n h)
  ]
]

pub tested : {A : Type 0} (b : Bool) (a out : A) → (if b then some a else none) ≡ some out → a ≡ out
tested true a out h = cc h
tested false a out h = cc h

has_folder-cons :
    (m n : String) (names : List String) → m ≢ n → has_folder (m ∷ names) n ≡ has_folder names n
has_folder-cons m n names h = rw (str_ne m n h, any) refl

not_dropped : (n a : String) → n ≢ a → not (str_eq n a) ≡ true
not_dropped n a h = rw (str_ne n a h) refl

has_folder-rename :
    (can : String → String → Bool) (names out : List String) (a b n : String)
    → rename can names a b ≡ some out
    → n ≢ a
    → b ≢ n
    → has_folder out n ≡ has_folder names n
has_folder-rename can names out a b n h k l =
    sym (
      ap (λ o. has_folder o n)
        (tested (has_folder names a && (not (has_folder names b) && can a b))
          (b ∷ filter (λ m. not (str_eq m a)) names) out h))
    ∙ has_folder-cons b n (filter (λ m. not (str_eq m a)) names) l
    ∙ has_folder-filter (λ m. not (str_eq m a)) names n (not_dropped n a k)

has_folder-remove :
    (can_remove : String → Bool) (a : String) (names : List String) (n : String)
    → n ≢ a
    → has_folder (remove_folder can_remove a names) n ≡ has_folder names n
has_folder-remove can_remove a names n h = elim (Bool-cases (can_remove a)) [
  | inl e ↦
      rw (e, remove_folder) (has_folder-filter (λ m. not (str_eq m a)) names n (not_dropped n a h))
  | inr e ↦ rw (e, remove_folder) refl
]

-- All at once or not at all, and the folder of the given name as it was.
abbrev pub IsMoved :
    TablePartInfo
    → TablePartInfo
    → TablePartInfo
    → List TablePartInfo
    → Folders
    → String
    → List TablePartInfo × Folders × Bool
    → Type 0
IsMoved part_1 part_2 new_part infos f n out =
    (out.0
      ≡ (if out.2 then retain_infos part_1.name part_2.name infos ++ (new_part ∷ []) else infos))
    × (has_folder out.1.normal n ≡ has_folder f.normal n)

move_to_normal-normal :
    (can : String → Bool) (part : TablePartInfo) (infos : List TablePartInfo) (f : Folders)
    (moved : List TablePartInfo × Folders) (n : String)
    → move_to_normal can part infos f ≡ some moved
    → part.name ≢ n
    → (moved.0 ≡ infos ++ (part ∷ [])) × (has_folder moved.1.normal n ≡ has_folder f.normal n)
unfolding move_to_normal
move_to_normal-normal can part infos f moved n h k =
    let e =
      tested (has_folder f.raw part.name && (not (has_folder f.normal part.name) && can part.name))
        _ moved h in
    (
      sym (ap (λ m. m.0) e),
      sym (ap (λ m. has_folder m.1.normal n) e) ∙ has_folder-cons part.name n f.normal k,
    )

-- Where `atomic_part_move` returns, the loaded parts have changed all at once or not at all: it
-- answers true and the two parts have gone and the new one is the last, or it answers false and
-- they are as they were. A name that is none of the two parts, their `.old` names and the new
-- part has a finished folder after it exactly where it had one before.
pub atomic_part_move-infos :
    (can : String → String → Bool) (can_move can_remove : String → Bool)
    (part_1 part_2 new_part : TablePartInfo) (infos : List TablePartInfo) (f : Folders)
    (out : List TablePartInfo × Folders × Bool) (n : String)
    → atomic_part_move can can_move can_remove part_1 part_2 new_part infos f ≡ ok out
    → n ≢ part_1.name
    → n ≢ part_2.name
    → n ≢ old_name part_1.name
    → n ≢ old_name part_2.name
    → n ≢ new_part.name
    → IsMoved part_1 part_2 new_part infos f n out
unfolding atomic_part_move
atomic_part_move-infos can can_move can_remove part_1 part_2 new_part infos f out n h a1 a2 o1 o2
      w =
    elim (Option-cases (rename can f.normal part_1.name (old_name part_1.name))) [
      | inl e ↦
          subst (IsMoved part_1 part_2 new_part infos f n) (ok-eq (rw (e, atomic_part_move) at h))
            (refl, refl)
      | inr (names1, e1) ↦
          let r1 =
            has_folder-rename can f.normal names1 part_1.name (old_name part_1.name) n e1 a1
              (λ q. o1 (sym q)) in
          elim (Option-cases (rename can names1 part_2.name (old_name part_2.name))) [
            | inl e2 ↦ elim (Option-cases (rename can names1 (old_name part_1.name) part_1.name)) [
              | inl e3 ↦
                  subst (IsMoved part_1 part_2 new_part infos f n)
                    (ok-eq (rw (e1, e2, e3, atomic_part_move) at h)) (refl, r1)
              | inr (names0, e3) ↦
                  subst (IsMoved part_1 part_2 new_part infos f n)
                    (ok-eq (rw (e1, e2, e3, atomic_part_move) at h))
                    (
                      refl,
                      has_folder-rename can names1 names0 (old_name part_1.name) part_1.name n e3 o1
                            (λ q. a1 (sym q))
                          ∙ r1,
                    )
            ]
            | inr (names2, e2) ↦
                elim (Option-cases (
                  move_to_normal can_move new_part (retain_infos part_1.name part_2.name infos)
                    record f { normal = names2 })) [
                      | inl e3 ↦ cc (rw (e1, e2, e3, atomic_part_move) at h)
                      | inr (moved, e3) ↦
                          let r2 =
                            has_folder-rename can names1 names2 part_2.name (old_name part_2.name) n
                              e2 a2 (λ q. o2 (sym q)) in
                          let (is, r3) =
                            move_to_normal-normal can_move new_part
                              (retain_infos part_1.name part_2.name infos)
                              record f { normal = names2 } moved n e3 (λ q. w (sym q)) in
                          subst (IsMoved part_1 part_2 new_part infos f n)
                            (ok-eq (rw (e1, e2, e3, atomic_part_move) at h))
                            (
                              is,
                              has_folder-remove can_remove (old_name part_2.name)
                                    (remove_folder can_remove (old_name part_1.name) moved.1.normal)
                                    n o2
                                  ∙ has_folder-remove can_remove (old_name part_1.name)
                                      moved.1.normal n o1
                                  ∙ r3
                                  ∙ r2
                                  ∙ r1,
                            )
                    ]
          ]
    ]
