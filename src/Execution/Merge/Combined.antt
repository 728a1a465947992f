-- ===== src/Execution/Merge/Combined.antt =====
-- background_merge.rs: what `combine_cols` makes of the columns of two parts.
use touchhouse.Prelude.{
  ℕ, suc, ◌+◌, ◌≡◌, refl, sym, ap, ◌∙◌, Option, none, some, List, [], ◌∷◌, ◌++◌, map, length,
  length-append, get_elem?, set, position, append_assoc, if◌then◌else◌, arith,
}
use touchhouse.Storage.Column.{ColumnDef, PhysicalColumn, eq_column_def}
use touchhouse.Execution.Merge.{combine_col, combine_from, combine_cols, base_length}

-- Each column has its own rows, and then those of the column in the same place.
abbrev pub joined : List PhysicalColumn → List PhysicalColumn → List PhysicalColumn
joined [] bs = []
joined (a ∷ more) [] = a ∷ more
joined (a ∷ more) (b ∷ bs) = record a { data_of = a.data_of ++ b.data_of } ∷ joined more bs

abbrev defs_of : List PhysicalColumn → List ColumnDef
defs_of cs = map (λ (c : PhysicalColumn). c.column_def) cs

place_of_def : ColumnDef → List ColumnDef → Option ℕ
place_of_def d ds = position (λ e. eq_column_def e d) ds

position-defs :
    (d : ColumnDef) (cs : List PhysicalColumn)
    → position (λ (c : PhysicalColumn). eq_column_def c.column_def d) cs
      ≡ place_of_def d (defs_of cs)
unfolding place_of_def
position-defs d [] = refl
position-defs d (c ∷ cs) =
    ap
      (λ (o : Option ℕ).
        if eq_column_def c.column_def d
        then some 0
        else elim o [ none ↦ none | some i ↦ some (suc i) ])
      (position-defs d cs)

get-middle :
    (pre more : List PhysicalColumn) (a : PhysicalColumn)
    → get_elem? (pre ++ (a ∷ more)) (length pre) ≡ some a
get-middle [] more a = refl
get-middle (p ∷ pre) more a = get-middle pre more a

set-middle :
    (pre more : List PhysicalColumn) (a v : PhysicalColumn)
    → set (pre ++ (a ∷ more)) (length pre) v ≡ pre ++ (v ∷ more)
set-middle [] more a v = refl
set-middle (p ∷ pre) more a v = ap (λ l. p ∷ l) (set-middle pre more a v)

defs-middle :
    (pre more : List PhysicalColumn) (a v : PhysicalColumn)
    → a.column_def ≡ v.column_def
    → defs_of (pre ++ (a ∷ more)) ≡ defs_of (pre ++ (v ∷ more))
defs-middle [] more a v e = ap (λ d. d ∷ defs_of more) e
defs-middle (p ∷ pre) more a v e = ap (λ l. p.column_def ∷ l) (defs-middle pre more a v e)

combined :
    (n : ℕ) (bs pre more : List PhysicalColumn)
    → length more ≡ length bs
    → ((i : ℕ) (b : PhysicalColumn)
        → get_elem? bs i ≡ some b
        → place_of_def b.column_def (defs_of (pre ++ more)) ≡ some (length pre + i))
    → combine_from n (pre ++ more) bs ≡ pre ++ joined more bs
unfolding combine_from combine_col
combined n [] pre [] e at = refl
combined n [] pre (a ∷ more) e at = absurd (omega (arith, e))
combined n (b ∷ bs) pre [] e at = absurd (omega (arith, e))
combined n (b ∷ bs) pre (a ∷ more) e at =
    let v : PhysicalColumn = record a { data_of = a.data_of ++ b.data_of } in
    let start : length pre + 0 ≡ length pre = omega arith in
    let found : position (λ (c : PhysicalColumn). eq_column_def c.column_def b.column_def)
          (pre ++ (a ∷ more))
        ≡ some (length pre) =
      position-defs b.column_def (pre ++ (a ∷ more)) ∙ at 0 b refl ∙ ap some start in
    let one : combine_col n (pre ++ (a ∷ more)) b ≡ (pre ++ (v ∷ [])) ++ more =
      rw (found, get-middle pre more a, combine_col)
        (set-middle pre more a v ∙ sym (append_assoc pre (v ∷ []) more)) in
    ap (λ cols. combine_from n cols bs) one
    ∙ combined n bs (pre ++ (v ∷ [])) more (omega (arith, e)) (λ i c h.
      let next : length pre + suc i ≡ length (pre ++ (v ∷ [])) + i =
        omega (arith, length-append pre (v ∷ [])) in
      ap (place_of_def c.column_def)
        (ap defs_of (append_assoc pre (v ∷ []) more) ∙ sym (defs-middle pre more a v refl))
      ∙ at (suc i) c h
      ∙ ap some next)
    ∙ append_assoc pre (v ∷ []) (joined more bs)

-- `combine_cols`, of the columns of two parts in which as many columns stand and each column of
-- the second has its definition first at the same place of the first, gives the first's columns,
-- each with its own rows and then the rows of the second's column: nothing is lost, doubled or
-- reordered.
pub combine_cols-joined :
    (cols1 cols2 : List PhysicalColumn)
    → length cols1 ≡ length cols2
    → ((i : ℕ) (b : PhysicalColumn)
        → get_elem? cols2 i ≡ some b
        → position (λ (c : PhysicalColumn). eq_column_def c.column_def b.column_def) cols1 ≡ some i)
    → combine_cols cols1 cols2 ≡ joined cols1 cols2
unfolding combine_cols
combine_cols-joined cols1 cols2 e at = combined (base_length cols1) cols2 [] cols1 e (λ i b h.
    let start : i ≡ 0 + i = omega arith in
    sym (position-defs b.column_def cols1) ∙ at i b h ∙ ap some start)
