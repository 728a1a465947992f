-- ===== src/Execution/Merge/Round/Found.antt =====
-- background_merge.rs: the parts that a round finds.
use touchhouse.Prelude.{
  ℕ, zero, suc, ◌<◌, ◌≡◌, sym, ap, ◌∙◌, String, Bool, true, Option, none, some, List, [], ◌∷◌, map,
  length, find, ltb, ltb→lt, get_elem?, str_eq, eq_iff, Ordering, Bool-cases, Option-cases, inl,
  inr,
}
use mathlib.Core.Path.{subst}
use touchhouse.Outcome.{index, ok, >>=-eq-ok, ok-eq}
use touchhouse.Externs.{Externs}
use touchhouse.Storage.Table.{TableDef}
use touchhouse.Storage.Part.{TablePartInfo}
use touchhouse.Storage.Part.Granules.{some_eq}
use touchhouse.Engines.Sort.Sorted.{Shuffle}
use touchhouse.Execution.Commands.{TableConfig}
use touchhouse.Execution.Merge.{find_parts_to_merge, first_two, part_named, cmp_uuid_strs_asc}
use touchhouse.Execution.Merge.Round.{PartsToMerge, find_in_tables, parts_to_merge}

-- The list has the entry.
abbrev pub Has {ℓ} : {A : Type ℓ} → List A → A → Type ℓ
Has l a = (i : ℕ) × (get_elem? l i ≡ some a)

find-Has {ℓ} :
    {A : Type ℓ} (p : A → Bool) (l : List A) (a : A) → find p l ≡ some a → Has l a × (p a ≡ true)
find-Has p [] a h = cc h
find-Has p (b ∷ l) a h = elim (Bool-cases (p b)) [
  | inl e ↦ let same : some b ≡ some a = rw e at h in ((zero, same), cc (e, same))
  | inr e ↦ let ((i, at), t) = find-Has p l a (rw e at h) in ((suc i, at), t)
]

-- `find_parts_to_merge` gives parts of the table.
indexed {ℓ} : {A : Type ℓ} (o : Option A) (a : A) → index o ≡ ok a → o ≡ some a
indexed none a h = cc h
indexed (some b) a h = ap some (ok-eq h)

part_named-Has :
    (infos : List TablePartInfo) (name : String) (p : TablePartInfo)
    → part_named infos name ≡ some p
    → Has infos p × (p.name ≡ name)
unfolding part_named
part_named-Has infos name p h =
    let (has, same) = find-Has (λ (q : TablePartInfo). str_eq q.name name) infos p h in
    (has, (eq_iff p.name name).0 same)

first_two-Has :
    (infos : List TablePartInfo) (names : List String) (p q : TablePartInfo)
    → first_two infos names ≡ some (p, q)
    → Has infos p × Has infos q × ((rest : List String) × (names ≡ p.name ∷ (q.name ∷ rest)))
unfolding first_two
first_two-Has infos [] p q h = cc h
first_two-Has infos (a ∷ []) p q h = cc h
first_two-Has infos (a ∷ b ∷ names) p q h = elim (Option-cases (part_named infos a)) [
  | inl e ↦ cc (rw (e, first_two) at h)
  | inr (r, e) ↦ elim (Option-cases (part_named infos b)) [
    | inl f ↦ cc (rw (e, f, first_two) at h)
    | inr (t, f) ↦
        let both : some (r, t) ≡ some (p, q) = rw (e, f, first_two) at h in
        let er : r ≡ p = cc both in
        let et : t ≡ q = cc both in
        let (hp, np) = part_named-Has infos a p (e ∙ ap some er) in
        let (hq, nq) = part_named-Has infos b q (f ∙ ap some et) in
        (
          hp,
          hq,
          (names, ap (λ n. n ∷ (b ∷ names)) (sym np) ∙ ap (λ n. p.name ∷ (n ∷ names)) (sym nq)),
        )
  ]
]

-- What is documented of the unstable sort: what it returns has the same entries.
abbrev pub SortsNames : Externs → Type 0
SortsNames x =
    (cmp : String → String → Ordering) (l r : List String)
    → x.sort_unstable_by cmp l ≡ some r
    → Shuffle l r

abbrev pub names_of : List TablePartInfo → List String
names_of = map (λ (p : TablePartInfo). p.name)

-- The two stand at two places of the table's parts, as far as their names tell.
abbrev pub AreTwo : List TablePartInfo → TablePartInfo → TablePartInfo → Type 0
AreTwo infos p q = (rest : List String) × Shuffle (names_of infos) (p.name ∷ (q.name ∷ rest))

find_parts_to_merge-Has :
    (x : Externs) (sorts : SortsNames x) (infos : List TablePartInfo) (p q : TablePartInfo)
    → find_parts_to_merge x infos ≡ ok (some (p, q))
    → Has infos p × Has infos q × AreTwo infos p q
unfolding find_parts_to_merge
find_parts_to_merge-Has x sorts infos p q h = elim (Bool-cases (ltb 1 (length infos))) [
  | inl e ↦
      let (names, sorted, h1) =
        >>=-eq-ok (index (x.sort_unstable_by (cmp_uuid_strs_asc x) (names_of infos))) _
          (rw (e, find_parts_to_merge) at h) in
      let (hp, hq, (rest, first)) = first_two-Has infos names p q (ok-eq h1) in
      (
        hp,
        hq,
        (
          rest,
          subst (Shuffle (names_of infos)) first
              (sorts (cmp_uuid_strs_asc x) (names_of infos) names (indexed _ names sorted)),
        ),
      )
  | inr e ↦ cc (rw (e, find_parts_to_merge) at h)
]

-- A table of more than one part, and two of its parts, at two places.
abbrev pub AreParts : List (TableDef × TableConfig) → PartsToMerge → Type 0
AreParts tables p =
    (config : TableConfig) × Has tables (p.table_def, config)
    × (1 < length config.infos)
    × Has config.infos p.part_1_info
    × Has config.infos p.part_2_info
    × AreTwo config.infos p.part_1_info p.part_2_info

pub find_in_tables-AreParts :
    (x : Externs) (sorts : SortsNames x) (tables : List (TableDef × TableConfig)) (p : PartsToMerge)
    → find_in_tables x tables ≡ ok (some p)
    → AreParts tables p
unfolding find_in_tables
find_in_tables-AreParts x sorts tables p h =
    elim (Option-cases (find (λ (e : TableDef × TableConfig). ltb 1 (length e.1.infos)) tables)) [
      | inl e ↦ cc (rw (e, find_in_tables) at h)
      | inr (e, ee) ↦
          let (parts, ep, h1) =
            >>=-eq-ok (find_parts_to_merge x e.1.infos) _ (rw (ee, find_in_tables) at h) in
          let (has, long) =
            find-Has (λ (e : TableDef × TableConfig). ltb 1 (length e.1.infos)) tables e ee in
          found e parts ep has long (ok-eq h1)
    ]
  where
    found :
        (e : TableDef × TableConfig) (parts : Option (TablePartInfo × TablePartInfo))
        → find_parts_to_merge x e.1.infos ≡ ok parts
        → Has tables e
        → ltb 1 (length e.1.infos) ≡ true
        → parts_to_merge e parts ≡ some p
        → AreParts tables p
    found e none ep has long h = cc h
    found e (some (q, r)) ep has long h =
        let (hq, hr, two) = find_parts_to_merge-Has x sorts e.1.infos q r ep in
        subst (λ (t : PartsToMerge). AreParts tables t) (some_eq h)
          (e.1, has, ltb→lt 1 (length e.1.infos) long, hq, hr, two)
