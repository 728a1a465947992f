-- ===== src/Storage/Part/Granules.antt =====
-- storage/table_part.rs: a column's file, written and read granule by granule.
use touchhouse.Prelude.{
  ℕ, zero, suc, ◌+◌, ◌-◌, ◌*◌, ◌/◌, ◌%◌, ◌^◌, ◌<◌, ◌≡◌, refl, sym, ap, ◌∙◌, none, some, List, [],
  ◌∷◌, ◌++◌, map, length, get_elem?, take, drop, ltb_no, leb_no, ==_self, ◌==◌, length-append,
  append_assoc, append_nil, take-append, drop-append, arith,
}
use mathlib.Core.Path.{subst}
use touchhouse.Outcome.{
  Result, ok, ◌>>=◌, >>=-eq-ok, ok_or-eq-ok, index, ok_or, ok-eq, could_not_insert_data,
  could_not_read_data, guard,
}
use touchhouse.Externs.{Codec}
use touchhouse.Value.{Value}
use touchhouse.Value.Archived.{ArchivedValue, archive}
use touchhouse.Storage.Column.{lz4, get_optimal_compression}
use touchhouse.Storage.Part.{
  Bytes, Mark, MarkInfo, compress_bytes, decompress_bytes, granule_bytes, encode_granule,
  write_granules, write_column_with_marks, granules, magic_bytes_column, to_le_bytes, from_le_bytes,
  validate_mmap, not_zero,
}

slice_middle :
    (f b s : Bytes) → take (length (f ++ b) - length f) (drop (length f) ((f ++ b) ++ s)) ≡ b
slice_middle f b s =
    let n : length (f ++ b) - length f ≡ length b = omega (arith, length-append f b) in
    rw (append_assoc f b s, drop-append f (b ++ s), n) (take-append b s)

none-some {ℓ} : {A : Type ℓ} {a : A} → none ≡ some a → ⊥
none-some h = cc h

pub some_eq {ℓ} : {A : Type ℓ} {a b : A} → some a ≡ some b → a ≡ b
some_eq h = cc h

-- What is documented of the crates: `rkyv` reads what it wrote, and `lz4` decompresses what it
-- compressed.
pub record RoundTrips (k : Codec Value ArchivedValue) : Type 0 where
  pub rkyv :
      (rows : List Value) (b : Bytes) → k.to_bytes rows ≡ some b → k.access b ≡ map archive rows
  pub lz4_back :
      (level : ℕ) (b c : Bytes) → k.lz4_compress level b ≡ some c → k.lz4_decompress c ≡ some b

module _ (k : Codec Value ArchivedValue) (law : RoundTrips k) where
  -- A granule is read back from the bytes between its marks.
  abbrev pub ReadsBack : Bytes → MarkInfo → List Value → Type 0
  ReadsBack file info rows =
      (b : Bytes) × (granule_bytes k file info (lz4 3) ≡ ok b) × (k.access b ≡ map archive rows)

  encode_decode :
      (rows : List Value) (c f s : Bytes)
      → encode_granule k rows ≡ ok c
      → ReadsBack ((f ++ c) ++ s) record { start = length f; stop = length (f ++ c) } rows
  unfolding encode_granule compress_bytes granule_bytes decompress_bytes get_optimal_compression
  encode_decode rows c f s h =
      let (b, e, h1) = >>=-eq-ok (ok_or (k.to_bytes rows) could_not_insert_data) _ h in
      let (first, _, h2) = >>=-eq-ok (index (get_elem? rows 0)) _ h1 in
      let back = law.lz4_back 3 b c (ok_or-eq-ok _ could_not_insert_data h2) in
      (
        b,
        rw
            (
              ltb_no (length (f ++ c)) (length f) (omega (arith, length-append f c)),
              ltb_no (length ((f ++ c) ++ s)) (length (f ++ c))
                  (omega (arith, length-append (f ++ c) s)),
              slice_middle f c s,
              back,
            )
            refl,
        law.rkyv rows b (ok_or-eq-ok _ could_not_insert_data e),
      )

  -- The mark of a granule is given one more entry, from which the granule is read back.
  abbrev pub Marked : Bytes → List Value → Mark → List Mark → ℕ → Type 0
  Marked file rows mark marks i =
      (info : MarkInfo) × (get_elem? marks i
        ≡ some record { index_of = mark.index_of; info = mark.info ++ (info ∷ []) })
      × ReadsBack file info rows

  at_granule :
      (g : List Value) (gs : List (List Value)) (m : Mark) (ms : List Mark) (c file s : Bytes)
      (rest : List Mark) (tail : Bytes)
      → encode_granule k g ≡ ok c
      → ((i : ℕ) (rows : List Value) (mark : Mark)
          → get_elem? gs i ≡ some rows
          → get_elem? ms i ≡ some mark
          → Marked (((file ++ c) ++ s) ++ tail) rows mark rest i)
      → (i : ℕ) (rows : List Value) (mark : Mark) → get_elem? (g ∷ gs) i ≡ some rows
      → get_elem? (m ∷ ms) i ≡ some mark
      → Marked
          (((file ++ c) ++ s) ++ tail)
          rows
          mark
          (record m {
            info = m.info ++ (record { start = length file; stop = length (file ++ c) } ∷ []);
          }
            ∷ rest)
          i
  at_granule g gs m ms c file s rest tail e more (suc i) rows mark p q = more i rows mark p q
  at_granule g gs m ms c file s rest tail e more zero rows mark p q =
      let info : MarkInfo = record { start = length file; stop = length (file ++ c) } in
      (
        info,
        ap (λ (n : Mark). some (record n { info = n.info ++ (info ∷ []) })) (some_eq q),
        subst (λ r. ReadsBack (((file ++ c) ++ s) ++ tail) info r) (some_eq p)
            (subst (λ o. ReadsBack o info g) (sym (append_assoc (file ++ c) s tail))
              (encode_decode g c file (s ++ tail) e)),
      )

  -- What the loop writes follows what there was, whatever is written after it.
  Written : List (List Value) → Bytes → List Mark → Bytes → List Mark → Type 0
  Written gs file marks out marks' =
      (s : Bytes) × (out ≡ file ++ s)
      × ((tail : Bytes) (i : ℕ) (rows : List Value) (mark : Mark)
          → get_elem? gs i ≡ some rows
          → get_elem? marks i ≡ some mark
          → Marked (out ++ tail) rows mark marks' i)

  written :
      (gs : List (List Value)) (file : Bytes) (marks : List Mark) (out : Bytes) (marks' : List Mark)
      → write_granules k gs file marks ≡ ok (out, marks')
      → Written gs file marks out marks'
  unfolding write_granules Written
  written [] file marks out marks' h = (
    [],
    sym (ap (λ (r : Bytes × List Mark). r.0) (ok-eq h)) ∙ sym (append_nil file),
    λ tail i rows mark e f. absurd (none-some e),
  )
  written (g ∷ gs) file [] out marks' h =
      let (c, e, h1) = >>=-eq-ok (encode_granule k g) _ h in cc h1
  written (g ∷ gs) file (m ∷ ms) out marks' h =
      let (c, e, h1) = >>=-eq-ok (encode_granule k g) _ h in
      let (rest, e1, h2) = >>=-eq-ok (write_granules k gs (file ++ c) ms) _ h1 in
      let (s, es, more) = written gs (file ++ c) ms rest.0 rest.1 e1 in
      let eo : rest.0 ≡ out = ap (λ (r : Bytes × List Mark). r.0) (ok-eq h2) in
      let em : record m {
        info = m.info ++ (record { start = length file; stop = length (file ++ c) } ∷ []);
      }
            ∷ rest.1
          ≡ marks' =
        ap (λ (r : Bytes × List Mark). r.1) (ok-eq h2) in
      (
        c ++ s,
        sym eo ∙ es ∙ append_assoc file c s,
        λ tail i rows mark eg ek.
            subst (λ o. Marked (o ++ tail) rows mark marks' i) (sym es ∙ eo)
              (subst (λ l. Marked (((file ++ c) ++ s) ++ tail) rows mark l i) em
                (at_granule g gs m ms c file s rest.1 tail e
                  (λ j rs mk p q.
                    subst (λ o. Marked (o ++ tail) rs mk rest.1 j) es (more tail j rs mk p q))
                  i rows mark eg ek)),
      )

  -- Where `write_column_with_marks` succeeds, it gives the mark of each granule that has one
  -- another entry, and `get_granule_bytes_decompressed` reads from the file, at that entry and
  -- for LZ4, bytes that `rkyv` takes for the archived values of the granule. This is for crates
  -- `rkyv` and `lz4` that read back what they wrote.
  pub write_column_with_marks-granule_bytes :
      (rows : List Value) (granularity : ℕ) (marks : List Mark) (file : Bytes) (marks' : List Mark)
      → write_column_with_marks k rows granularity marks ≡ ok (file, marks')
      → (i : ℕ) (granule : List Value) (mark : Mark)
      → get_elem? (granules granularity rows) i ≡ some granule
      → get_elem? marks i ≡ some mark
      → Marked file granule mark marks' i
  unfolding write_column_with_marks Written
  write_column_with_marks-granule_bytes rows granularity marks file marks' h i granule mark p q =
      let (_, _, h1) = >>=-eq-ok (not_zero granularity) _ h in
      let (w, e, h2) =
        >>=-eq-ok (write_granules k (granules granularity rows) magic_bytes_column marks) _ h1 in
      let (s, es, all) = written (granules granularity rows) magic_bytes_column marks w.0 w.1 e in
      subst (λ (r : Bytes × List Mark). Marked r.0 granule mark r.1 i) (ok-eq h2)
        (all (to_le_bytes (k.crc32 (drop 6 w.0))) i granule mark p q)

  crc_bytes : (n : ℕ) → n < 2 ^ 32 → from_le_bytes (to_le_bytes n) ≡ ok n
  crc_bytes n h =
      let e : n % 256
            + (256 * ((n / 256) % 256)
                + (65536 * ((n / 65536) % 256) + 16777216 * ((n / 16777216) % 256)))
          ≡ n =
        omega arith in
      ap (λ m. ok m) e

  guard_after :
      (r : Result ℕ) (c : ℕ) → r ≡ ok c → (r >>= λ e. guard (e == c) could_not_read_data) ≡ ok tt
  guard_after r c e = rw (e, ==_self c) refl

  checked :
      (s : Bytes)
      → k.crc32 s < 2 ^ 32
      → 0 < length s
      → validate_mmap k ((magic_bytes_column ++ s) ++ to_le_bytes (k.crc32 s)) ≡ ok tt
  unfolding validate_mmap
  checked s h p =
      let crc : Bytes = to_le_bytes (k.crc32 s) in
      let file : Bytes = (magic_bytes_column ++ s) ++ crc in
      let n : length file ≡ length s + 10 = omega (arith, length-append s crc) in
      let e4 : length file - 4 ≡ suc (suc (suc (suc (suc (suc (length s)))))) = omega (arith, n) in
      let e10 : length file - 10 ≡ length s = omega (arith, n) in
      rw (leb_no (length file) 10 (omega (arith, n)), e4, drop-append s crc, e10, take-append s crc)
        (guard_after (from_le_bytes crc) (k.crc32 s) (crc_bytes (k.crc32 s) h))

  -- `validate_mmap` accepts the file that `write_column_with_marks` wrote, where something was
  -- written between the magic bytes and the checksum, and the checksum has 32 bits.
  pub validate_mmap-write_column_with_marks :
      (rows : List Value) (granularity : ℕ) (marks : List Mark) (file : Bytes) (marks' : List Mark)
      → ((b : Bytes) → k.crc32 b < 2 ^ 32)
      → write_column_with_marks k rows granularity marks ≡ ok (file, marks')
      → 10 < length file
      → validate_mmap k file ≡ ok tt
  unfolding write_column_with_marks Written
  validate_mmap-write_column_with_marks rows granularity marks file marks' small h long =
      let (_, _, h1) = >>=-eq-ok (not_zero granularity) _ h in
      let (w, e, h2) =
        >>=-eq-ok (write_granules k (granules granularity rows) magic_bytes_column marks) _ h1 in
      let (s, es, all) = written (granules granularity rows) magic_bytes_column marks w.0 w.1 e in
      let whole : (magic_bytes_column ++ s) ++ to_le_bytes (k.crc32 s) ≡ file =
        ap (λ z. z ++ to_le_bytes (k.crc32 (drop 6 z))) (sym es)
        ∙ ap (λ (r : Bytes × List Mark). r.0) (ok-eq h2) in
      subst (λ f. validate_mmap k f ≡ ok tt) whole
        (checked s (small s)
          (omega (arith, long, ap length whole, length-append s (to_le_bytes (k.crc32 s)))))
