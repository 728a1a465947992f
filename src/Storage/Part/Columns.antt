-- ===== src/Storage/Part/Columns.antt =====
-- storage/table_part.rs: the marks of a part, as its columns are saved one after another.
use touchhouse.Prelude.{
  ℕ, zero, suc, ◌<◌, ◌≡◌, refl, sym, ap, ◌∙◌, some, List, [], ◌∷◌, ◌++◌, length, get_elem?,
  append_assoc, append_nil, All, arith,
}
use mathlib.Core.Path.{subst}
use touchhouse.Outcome.{ok, >>=-eq-ok, ok-eq}
use touchhouse.Externs.{Codec}
use touchhouse.Value.{Value}
use touchhouse.Value.Archived.{ArchivedValue}
use touchhouse.Storage.Column.{PhysicalColumn}
use touchhouse.Storage.Part.{
  Bytes, Mark, MarkInfo, granules, write_granules, encode_granule, write_column_with_marks,
  save_columns, not_zero, magic_bytes_column,
}
use touchhouse.Storage.Part.Granules.{
  RoundTrips, ReadsBack, some_eq, write_column_with_marks-granule_bytes,
}

pub some_elem {ℓ} :
    {A : Type ℓ} (l : List A) (i : ℕ) → i < length l → (a : A) × (get_elem? l i ≡ some a)
some_elem [] i h = absurd (omega (arith, h))
some_elem (a ∷ l) zero h = (a, refl)
some_elem (a ∷ l) (suc i) h = some_elem l i (omega (arith, h))

pub All-at {ℓ κ} :
    {A : Type ℓ} (P : A → Type κ) (l : List A) (i : ℕ) (a : A)
    → All P l
    → get_elem? l i ≡ some a
    → P a
All-at P [] i a h e = cc e
All-at P (b ∷ l) zero a h e = subst P (some_eq e) h.0
All-at P (b ∷ l) (suc i) a h e = All-at P l i a h.1 e

module _ (k : Codec Value ArchivedValue) where
  length-write_granules :
      (gs : List (List Value)) (file : Bytes) (marks : List Mark) (out : Bytes × List Mark)
      → write_granules k gs file marks ≡ ok out
      → length out.1 ≡ length marks
  unfolding write_granules
  length-write_granules [] file marks out h =
      sym (ap (λ (r : Bytes × List Mark). length r.1) (ok-eq h))
  length-write_granules (g ∷ gs) file [] out h =
      let (c, _, h1) = >>=-eq-ok (encode_granule k g) _ h in cc h1
  length-write_granules (g ∷ gs) file (m ∷ ms) out h =
      let (c, _, h1) = >>=-eq-ok (encode_granule k g) _ h in
      let (rest, e, h2) = >>=-eq-ok (write_granules k gs (file ++ c) ms) _ h1 in
      sym (ap (λ (r : Bytes × List Mark). length r.1) (ok-eq h2))
      ∙ ap suc (length-write_granules gs (file ++ c) ms rest e)

  length-write_column :
      (rows : List Value) (granularity : ℕ) (marks : List Mark) (out : Bytes × List Mark)
      → write_column_with_marks k rows granularity marks ≡ ok out
      → length out.1 ≡ length marks
  unfolding write_column_with_marks
  length-write_column rows granularity marks out h =
      let (_, _, h1) = >>=-eq-ok (not_zero granularity) _ h in
      let (w, e, h2) =
        >>=-eq-ok (write_granules k (granules granularity rows) magic_bytes_column marks) _ h1 in
      sym (ap (λ (r : Bytes × List Mark). length r.1) (ok-eq h2))
      ∙ length-write_granules (granules granularity rows) magic_bytes_column marks w e

module _ (k : Codec Value ArchivedValue) (law : RoundTrips k) (granularity g : ℕ) where
  -- The g-th granule of each column is read back from its file.
  abbrev pub ReadsAll : List PhysicalColumn → List Bytes → List MarkInfo → Type 0
  ReadsAll [] [] [] = Unit
  ReadsAll (c ∷ cs) (f ∷ fs) (i ∷ is) =
      ((rows : List Value) × (get_elem? (granules granularity c.data_of) g ≡ some rows)
        × ReadsBack k law f i rows)
      × ReadsAll cs fs is
  ReadsAll _ _ _ = ⊥

  -- The mark has one more entry for each column.
  abbrev pub MarkedAll : List PhysicalColumn → List Bytes → Mark → List Mark → Type 0
  MarkedAll cs fs mark marks' =
      (is : List MarkInfo) × (get_elem? marks' g
        ≡ some record { index_of = mark.index_of; info = mark.info ++ is })
      × ReadsAll cs fs is

  pub columns_marked :
      (cs : List PhysicalColumn) (marks : List Mark) (fs : List Bytes) (marks' : List Mark)
      (mark : Mark)
      → save_columns k cs granularity marks ≡ ok (fs, marks')
      → get_elem? marks g ≡ some mark
      → All (λ (c : PhysicalColumn). g < length (granules granularity c.data_of)) cs
      → MarkedAll cs fs mark marks'
  unfolding save_columns
  columns_marked [] marks fs marks' mark h e long =
      subst (λ (r : List Bytes × List Mark). MarkedAll [] r.0 mark r.1) (ok-eq h)
        (
          [],
          e
              ∙ ap (λ l. some record { index_of = mark.index_of; info = l })
                  (sym (append_nil mark.info)),
          tt,
        )
  columns_marked (c ∷ cs) marks fs marks' mark h e long =
      let (w, ew, h1) = >>=-eq-ok (write_column_with_marks k c.data_of granularity marks) _ h in
      let (r, er, h2) = >>=-eq-ok (save_columns k cs granularity w.1) _ h1 in
      let (rows, at) = some_elem (granules granularity c.data_of) g long.0 in
      let (info, marked, back) =
        write_column_with_marks-granule_bytes k law c.data_of granularity marks w.0 w.1 ew g rows
          mark at e in
      let (is, marked', all) =
        columns_marked cs w.1 r.0 r.1
          record { index_of = mark.index_of; info = mark.info ++ (info ∷ []) } er marked long.1 in
      subst (λ (q : List Bytes × List Mark). MarkedAll (c ∷ cs) q.0 mark q.1) (ok-eq h2)
        (
          info ∷ is,
          marked'
              ∙ ap (λ l. some record { index_of = mark.index_of; info = l })
                  (append_assoc mark.info (info ∷ []) is),
          ((rows, at, back), all),
        )

pub length-save_columns :
    (k : Codec Value ArchivedValue) (granularity : ℕ) (cs : List PhysicalColumn) (marks : List Mark)
    (fs : List Bytes) (marks' : List Mark)
    → save_columns k cs granularity marks ≡ ok (fs, marks')
    → length marks' ≡ length marks
unfolding save_columns
length-save_columns k granularity [] marks fs marks' h =
    sym (ap (λ (r : List Bytes × List Mark). length r.1) (ok-eq h))
length-save_columns k granularity (c ∷ cs) marks fs marks' h =
    let (w, ew, h1) = >>=-eq-ok (write_column_with_marks k c.data_of granularity marks) _ h in
    let (r, er, h2) = >>=-eq-ok (save_columns k cs granularity w.1) _ h1 in
    sym (ap (λ (r : List Bytes × List Mark). length r.1) (ok-eq h2))
    ∙ length-save_columns k granularity cs w.1 r.0 r.1 er
    ∙ length-write_column k c.data_of granularity marks w ew
