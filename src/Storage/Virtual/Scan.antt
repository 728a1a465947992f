-- ===== src/Storage/Virtual/Scan.antt =====
-- storage/tables/virtual.rs: the chunks of a subquery's rows.
use touchhouse.Prelude.{
  ℕ, zero, suc, ◌+◌, ◌%◌, ◌<◌, ◌≡◌, ◌≢◌, refl, sym, ap, ◌∙◌, Option, none, some, List, ◌∷◌, ◌*◌,
  true, false, length, leb, ltb, ==_ne, div_ceil, Bool-cases, inl, inr, arith,
}
use native.Mathlib.Nat.{mod-lt, mod-add-mod, mod_self, mod-eq_of_lt}
use touchhouse.Outcome.{Result, ok, panics, ◌>>=◌}
use touchhouse.Externs.{Externs}
use touchhouse.Storage.Column.{OutputColumn, eq_projection}
use touchhouse.Storage.Virtual.{
  VirtualStorage, load_next_chunk, next_granule, get_total_rows, virtual_of, access_chunk_column,
}
use touchhouse.Storage.Table.{TableSchema, standard_granularity}

some_chunks : (n : ℕ) → 0 < n → div_ceil n standard_granularity ≢ 0
some_chunks n h e = omega arith

some_chunks_lt : (n : ℕ) → 0 < n → 0 < div_ceil n standard_granularity
some_chunks_lt n h = omega arith

-- So many calls of `load_next_chunk`, one after the other.
abbrev pub loads : ℕ → VirtualStorage → Result (Option VirtualStorage)
loads zero s = ok (some s)
loads (suc n) s = loads n s >>= λ o. elim o [ none ↦ ok none | some s' ↦ load_next_chunk s' ]

abbrev chunks_of : VirtualStorage → ℕ
chunks_of s = div_ceil (get_total_rows s) standard_granularity

next_mod : (n c : ℕ) → ltb (n % c + 1) c ≡ true → suc n % c ≡ n % c + 1
next_mod n c h = grind arith

wrap_mod : (n c : ℕ) → 0 < c → ltb (n % c + 1) c ≡ false → suc n % c ≡ 0
wrap_mod n c p h =
    let last : n % c + 1 ≡ c = ground (arith, mod-lt n p) in
    ap (λ m. m % c) (omega arith) ∙ sym (mod-add-mod n c 1) ∙ ap (λ m. m % c) last ∙ mod_self c

next_granule-mod : (n c : ℕ) → 0 < c → next_granule (some (n % c)) c ≡ some (suc n % c)
unfolding next_granule
next_granule-mod n c p = elim (Bool-cases (ltb (n % c + 1) c)) [
  | inl e ↦ rw (e, next_mod n c e) refl
  | inr e ↦ rw (e, ==_ne c 0 (λ z. omega arith), wrap_mod n c p e) refl
]

-- A new scan of a subquery that has rows stands, after n + 1 calls of `load_next_chunk`, each of
-- which finds a chunk, at the granule n modulo the number of granules, on the same columns: after
-- the last one it is the first again, without end.
pub load_next_chunk-never_ends :
    (columns : List OutputColumn) (schema : TableSchema) (n : ℕ)
    → 0 < get_total_rows record { columns = columns; granule_idx = none; schema = schema }
    → loads (suc n) record { columns = columns; granule_idx = none; schema = schema }
      ≡ ok (
          some record {
            columns = columns;
            granule_idx = some (
                n
                % div_ceil
                    (get_total_rows
                      record { columns = columns; granule_idx = none; schema = schema })
                    standard_granularity);
            schema = schema;
          })
unfolding load_next_chunk get_total_rows
load_next_chunk-never_ends columns schema zero h =
    let c : ℕ = chunks_of record { columns = columns; granule_idx = none; schema = schema } in
    rw (==_ne c 0 (some_chunks _ h), mod-eq_of_lt {n = 0} {m = c} (some_chunks_lt _ h)) refl
load_next_chunk-never_ends columns schema (suc n) h =
    let c : ℕ = chunks_of record { columns = columns; granule_idx = none; schema = schema } in
    rw (load_next_chunk-never_ends columns schema n h, next_granule-mod n c (some_chunks_lt _ h))
      refl

-- A new scan of a subquery whose first column has rows, but fewer than a granule of 8192, and a
-- projection that equals itself, loads a chunk, and reading this column of it panics.
pub access_chunk_column-short :
    (x : Externs) (c : OutputColumn) (cs : List OutputColumn)
    → 0 < length c.data_of
    → length c.data_of < standard_granularity
    → eq_projection c.proj c.proj ≡ true
    → (s : VirtualStorage) × (load_next_chunk (virtual_of x (c ∷ cs)) ≡ ok (some s))
      × (access_chunk_column s c.proj ≡ panics)
unfolding load_next_chunk virtual_of next_granule access_chunk_column get_total_rows
access_chunk_column-short x c cs h short e =
    let n : ℕ = length c.data_of in
    let cut : leb (1 * standard_granularity) n ≡ false = ground arith in
    let s : VirtualStorage = record (virtual_of x (c ∷ cs)) { granule_idx = some 0 } in
    (s, rw (==_ne (div_ceil n standard_granularity) 0 (some_chunks n h)) refl, rw (e, cut) refl)
