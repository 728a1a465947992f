-- ===== src/Storage/Files/Atomic.antt =====
-- storage/table_metadata.rs, storage/table_part.rs: what is read back of the files.
use touchhouse.Prelude.{
  ℕ, ◌+◌, ◌-◌, ◌*◌, ◌/◌, ◌%◌, ◌^◌, ◌<◌, ◌≤◌, zero, suc, ◌≡◌, refl, sym, ap, ◌∙◌, ◌⊎◌, inl, inr,
  true, false, some, [], ◌∷◌, ◌++◌, length, take, drop, eq_list, ◌==◌, ==_self, ==_iff, leb, leb_no,
  length-append, append_assoc, take-append, drop-append, drop-drop, take-drop, length-drop, All,
  All-drop, Bool-cases, Option-cases, arith,
}
use mathlib.Core.Path.{subst}
use touchhouse.Outcome.{
  Result, ok, err, ◌>>=◌, >>=-eq-ok, ok-eq, ok_or, ok_or-eq-ok, guard, could_not_insert_data,
  could_not_read_data,
}
use touchhouse.Externs.{FileCodec}
use touchhouse.Storage.Part.{Bytes, to_le_bytes, from_le_bytes}
use touchhouse.Storage.Files.{seal, unseal}

-- What is documented of the crates: `rkyv` reads what it wrote, which is not empty, and the
-- checksum has 32 bits.
pub record IsLawful {T : Type 0} (c : FileCodec T) : Type 0 where
  pub back : (t : T) (b : Bytes) → c.to_bytes t ≡ some b → c.from_bytes b ≡ some t
  pub filled : (t : T) (b : Bytes) → c.to_bytes t ≡ some b → 0 < length b
  pub small : (b : Bytes) → c.crc32 b < 2 ^ 32

eq_list_self : (l : Bytes) → eq_list ◌==◌ l l ≡ true
eq_list_self [] = refl
eq_list_self (b ∷ l) = rw (==_self b, eq_list) (eq_list_self l)

eq_of_eq_list : (l r : Bytes) → eq_list ◌==◌ l r ≡ true → l ≡ r
eq_of_eq_list [] [] h = refl
eq_of_eq_list [] (b ∷ r) h = cc h
eq_of_eq_list (a ∷ l) [] h = cc h
eq_of_eq_list (a ∷ l) (b ∷ r) h = elim (Bool-cases (a == b)) [
  | inl e ↦ cc ((==_iff a b).0 e, eq_of_eq_list l r (rw (e, eq_list) at h))
  | inr e ↦ cc (rw (e, eq_list) at h)
]

pub crc_bytes : (n : ℕ) → n < 2 ^ 32 → from_le_bytes (to_le_bytes n) ≡ ok n
crc_bytes n h =
    let e : n % 256
          + (256 * ((n / 256) % 256)
              + (65536 * ((n / 65536) % 256) + 16777216 * ((n / 16777216) % 256)))
        ≡ n =
      omega arith in
    ap (λ m. ok m) e

module _ {T : Type 0} (c : FileCodec T) where
  -- What follows the reading of the checksum.
  abbrev opened : Bytes → Result ℕ → Result T
  opened body r = r >>= λ expected. guard (expected == c.crc32 body) could_not_read_data >>= λ _.
      ok_or (c.from_bytes body) could_not_read_data

module _ {T : Type 0} (c : FileCodec T) where
  opened_sound :
      (body : Bytes) (t : T) (r : Result ℕ)
      → r ≡ ok (c.crc32 body)
      → c.from_bytes body ≡ some t
      → opened c body r ≡ ok t
  opened_sound body t r e f = rw (e, ==_self (c.crc32 body), f) refl

  sealed_back :
      (small : (b : Bytes) → c.crc32 b < 2 ^ 32) (magic body : Bytes) (t : T)
      → c.from_bytes body ≡ some t
      → 0 < length body
      → unseal c magic (magic ++ (body ++ to_le_bytes (c.crc32 body))) ≡ ok t
  unfolding unseal
  sealed_back small magic body t e p =
      let crc : Bytes = to_le_bytes (c.crc32 body) in
      let file : Bytes = magic ++ (body ++ crc) in
      let n : length file ≡ length magic + (length body + 4) =
        omega (arith, length-append magic (body ++ crc), length-append body crc) in
      let long : leb (length file) (length magic + 4) ≡ false =
        leb_no (length file) (length magic + 4) (omega (arith, n)) in
      let e4 : length file - 4 ≡ length (magic ++ body) =
        omega (arith, n, length-append magic body) in
      let eb : length file - 4 - length magic ≡ length body = omega (arith, n) in
      let d : drop (length (magic ++ body)) file ≡ crc =
        rw (← append_assoc magic body crc) (drop-append (magic ++ body) crc) in
      rw
        (
          long,
          take-append magic (body ++ crc),
          eq_list_self magic,
          eb,
          drop-append magic (body ++ crc),
          take-append body crc,
          e4,
          d,
        )
        (opened_sound body t (from_le_bytes crc) (crc_bytes (c.crc32 body) (small body)) e)

  pub unseal-seal :
      (law : IsLawful c) (magic file : Bytes) (t : T)
      → seal c magic t ≡ ok file
      → unseal c magic file ≡ ok t
  unfolding seal
  unseal-seal law magic file t h =
      let (body, e, h1) = >>=-eq-ok (ok_or (c.to_bytes t) could_not_insert_data) _ h in
      let e' = ok_or-eq-ok _ could_not_insert_data e in
      subst (λ f. unseal c magic f ≡ ok t) (ok-eq h1)
        (sealed_back law.small magic body t (law.back t body e') (law.filled t body e'))

take_some : (n : ℕ) (l : Bytes) → 0 < n → n ≤ length l → 0 < length (take n l)
take_some zero l h le = absurd (omega arith)
take_some (suc n) [] h le = absurd (omega arith)
take_some (suc n) (b ∷ l) h le = omega arith

-- Four bytes are those of the number that they are read as.
le_bytes_back :
    (l : Bytes)
    → length l ≡ 4
    → All (λ b. b < 256) l
    → (n : ℕ) × (from_le_bytes l ≡ ok n) × (l ≡ to_le_bytes n)
le_bytes_back [] e h = absurd (omega (arith, e))
le_bytes_back (a ∷ []) e h = absurd (omega (arith, e))
le_bytes_back (a ∷ b ∷ []) e h = absurd (omega (arith, e))
le_bytes_back (a ∷ b ∷ d ∷ []) e h = absurd (omega (arith, e))
le_bytes_back (a ∷ b ∷ d ∷ f ∷ []) e h =
    let n : ℕ = a + (256 * b + (65536 * d + 16777216 * f)) in
    let ha = h.0 in
    let hb = h.1.0 in
    let hd = h.1.1.0 in
    let hf = h.1.1.1.0 in
    let e0 : a ≡ n % 256 = omega arith in
    let e1 : b ≡ (n / 256) % 256 = omega arith in
    let e2 : d ≡ (n / 65536) % 256 = omega arith in
    let e3 : f ≡ (n / 16777216) % 256 = omega arith in (n, refl, cc (e0, e1, e2, e3))
le_bytes_back (a ∷ b ∷ d ∷ f ∷ g ∷ l) e h = absurd (omega (arith, e))

module _ {T : Type 0} (c : FileCodec T) where
  -- The file is sealed: magic bytes, the bytes of the value, of which there are some, and their
  -- checksum.
  abbrev pub IsSealed : Bytes → Bytes → T → Type 0
  IsSealed magic file t =
      (body : Bytes) × (file ≡ magic ++ (body ++ to_le_bytes (c.crc32 body)))
      × (0 < length body)
      × (c.from_bytes body ≡ some t)

  -- It is sealed and read as its value, or refused.
  abbrev pub IsChecked : Bytes → Bytes → Result T → Type 0
  IsChecked magic file r =
      ((t : T) × (r ≡ ok t) × IsSealed magic file t) ⊎ (r ≡ err could_not_read_data)

  opened_cases :
      (magic file body : Bytes) (expected : ℕ)
      → 0 < length body
      → file ≡ magic ++ (body ++ to_le_bytes expected)
      → IsChecked magic file (opened c body (ok expected))
  opened_cases magic file body expected p e = elim (Bool-cases (expected == c.crc32 body)) [
    | inr f ↦ inr (rw f refl)
    | inl f ↦ elim (Option-cases (c.from_bytes body)) [
      | inl g ↦ inr (rw (f, g) refl)
      | inr (t, g) ↦
          inl (t, rw (f, g) refl, (body, rw (← (==_iff expected (c.crc32 body)).0 f) e, p, g))
    ]
  ]

  leb-false : (m n : ℕ) → leb m n ≡ false → n < m
  leb-false m n h = ground arith

  parts :
      (magic file : Bytes)
      → length magic + 4 < length file
      → take (length magic) file ≡ magic
      → file
        ≡ magic
          ++ (take (length file - 4 - length magic) (drop (length magic) file)
              ++ drop (length file - 4) file)
  parts magic file long same =
      let m : ℕ = length magic in
      let k : ℕ = length file - 4 - m in
      let e : m + k ≡ length file - 4 = omega arith in
      sym (take-drop m file)
      ∙ ap (λ l. l ++ drop m file) same
      ∙ ap (λ l. magic ++ l) (sym (take-drop k (drop m file)))
      ∙ ap (λ l. magic ++ (take k (drop m file) ++ l))
          (drop-drop m k file ∙ ap (λ n. drop n file) e)

  checked :
      (magic file : Bytes) → All (λ b. b < 256) file → IsChecked magic file (unseal c magic file)
  unfolding unseal
  checked magic file small = elim (Bool-cases (leb (length file) (length magic + 4))) [
    | inl short ↦ inr (rw short refl)
    | inr long ↦ elim (Bool-cases (eq_list ◌==◌ (take (length magic) file) magic)) [
      | inr other ↦ inr (rw (long, other) refl)
      | inl same ↦
          let whole =
            parts magic file (leb-false (length file) (length magic + 4) long)
              (eq_of_eq_list _ _ same) in
          let four : length (drop (length file - 4) file) ≡ 4 = omega (
            arith,
            length-drop (length file - 4) file,
            leb-false (length file) (length magic + 4) long,
          ) in
          let (n, read, bytes) =
            le_bytes_back (drop (length file - 4) file) four
              (All-drop (λ b. b < 256) (length file - 4) file small) in
          let body : Bytes = take (length file - 4 - length magic) (drop (length magic) file) in
          let some_body : 0 < length body = omega (
            arith,
            take_some (length file - 4 - length magic) (drop (length magic) file),
            length-drop (length magic) file,
            leb-false (length file) (length magic + 4) long,
          ) in
          rw (long, same)
            (subst (λ r. IsChecked magic file (opened c body r)) (sym read)
              (opened_cases magic file body n some_body
                (whole ∙ ap (λ tail. magic ++ (body ++ tail)) bytes)))
    ]
  ]

  -- Where checksums have 32 bits, a file of bytes that is magic bytes, then bytes that `rkyv`
  -- takes, of which there are some, and then their checksum, is read as their value; any file of
  -- bytes is read as such a value or refused with CouldNotReadData: reading does not panic.
  pub unseal_cases :
      ((b : Bytes) → c.crc32 b < 2 ^ 32)
      → (magic file : Bytes) → All (λ b. b < 256) file
      → IsChecked magic file (unseal c magic file)
        × ((t : T) → IsSealed magic file t → unseal c magic file ≡ ok t)
  unseal_cases small magic file bytes = (
    checked magic file bytes,
    λ t sealed.
        let (body, e, p, g) = sealed in
        subst (λ f. unseal c magic f ≡ ok t) (sym e) (sealed_back c small magic body t g p),
  )
