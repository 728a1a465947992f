-- ===== src/Storage/Native/Walk.antt =====
-- storage/tables/native.rs: how `load_next_chunk` walks through the parts of a table.
use touchhouse.Prelude.{
  ℕ, zero, suc, ◌+◌, ◌-◌, ◌<◌, ◌≡◌, ◌≢◌, drop-drop, refl, sym, ap, ◌∙◌, String, Option, none, some,
  List, [], ◌∷◌, ◌++◌, length, get_elem?, drop, position, All, ==_iff, ==_ne, arith,
}
use mathlib.Core.Path.{subst}
use touchhouse.Outcome.{ok, >>=-ok, traverse}
use touchhouse.Externs.{Externs, Codec}
use touchhouse.Value.{Value}
use touchhouse.Value.Archived.{ArchivedValue}
use touchhouse.Storage.Table.{TableSchema}
use touchhouse.Storage.Part.{Bytes, TablePartInfo, Mark, eq_part}
use touchhouse.Storage.Native.{
  LoadedChunk, NativeStorage, open_column, gen_next_chunk, next_part, load_part,
  advance_chunk_metadata, chunk_bytes_of, fill_chunk, load_next_chunk,
}

get_elem?-first {ℓ} : {A : Type ℓ} (i : ℕ) (l : List A) → get_elem? (drop i l) 0 ≡ get_elem? l i
get_elem?-first zero l = refl
get_elem?-first (suc i) [] = refl
get_elem?-first (suc i) (a ∷ l) = get_elem?-first i l

module _ (x : Externs) (k : Codec Value ArchivedValue) (disk : String → String → Option Bytes) where
  -- The files of a part open, and the bytes of every granule can be read from them. It has a granule.
  pub record IsReadable (part : TablePartInfo) : Type 0 where
    pub mmaps : List Bytes
    pub opened : traverse (open_column x k disk part) part.column_defs ≡ ok mmaps
    pub filled : 0 < length part.marks
    pub read :
        (g : ℕ)
        → g < length part.marks
        → (mark : Mark) × (bytes : List Bytes) × (get_elem? part.marks g ≡ some mark)
          × (chunk_bytes_of x k disk part.column_defs mmaps mark.info ≡ ok bytes)

  module _ (schema : TableSchema) (infos : List TablePartInfo) where
    abbrev pub at : TablePartInfo → ℕ → List Bytes → List Bytes → NativeStorage
    at part g mmaps bytes = record {
      schema = schema;
      infos = infos;
      loaded_chunk =
          some record { part_info = part; granule_idx = g; mmaps = mmaps; chunk_bytes = bytes };
    }

    abbrev pub with_chunk : Option LoadedChunk → NativeStorage
    with_chunk loaded = record { schema = schema; infos = infos; loaded_chunk = loaded }

    opened_chunk :
        (part : TablePartInfo) (h : IsReadable part)
        → load_part x k disk (some part)
          ≡ ok
              (some record { part_info = part; granule_idx = 0; mmaps = h.mmaps; chunk_bytes = [] })
    unfolding load_part gen_next_chunk
    opened_chunk part h = rw h.opened refl

    next_at :
        (i : ℕ) (part : TablePartInfo) (o : Option TablePartInfo)
        → position (λ q. eq_part q part) infos ≡ some i
        → get_elem? infos (i + 1) ≡ o
        → next_part x k disk infos part ≡ o
    unfolding next_part
    next_at i part o found e = rw (found, next_part) e

    last_granule :
        (i : ℕ) (part : TablePartInfo) (g : ℕ) (mmaps bytes : List Bytes) (o : Option TablePartInfo)
        → position (λ q. eq_part q part) infos ≡ some i
        → get_elem? infos (i + 1) ≡ o
        → g + 1 ≡ length part.marks
        → advance_chunk_metadata x k disk infos (at part g mmaps bytes).loaded_chunk
          ≡ load_part x k disk o
    unfolding advance_chunk_metadata
    last_granule i part g mmaps bytes o found e last =
        rw ((==_iff (g + 1) (length part.marks)).1 last)
          (ap (load_part x k disk) (next_at i part o found e))

-- Each part is the first that equals it.
abbrev pub AreApart : List TablePartInfo → Type 0
AreApart infos =
    (j : ℕ) (q : TablePartInfo)
    → get_elem? infos j ≡ some q
    → position (λ r. eq_part r q) infos ≡ some j

-- A part, and what is taken from each of its granules.
pub record PartItems (B : Type 0) : Type 0 where
  pub info : TablePartInfo
  pub item : ℕ → B

abbrev pub infos_of : {B : Type 0} → List (PartItems B) → List TablePartInfo
infos_of [] = []
infos_of (e ∷ es) = e.info ∷ infos_of es

abbrev pub items_from : {B : Type 0} → (ℕ → B) → ℕ → ℕ → List B
items_from item g zero = []
items_from item g (suc n) = item g ∷ items_from item (g + 1) n

abbrev pub all_items : {B : Type 0} → List (PartItems B) → List B
all_items [] = []
all_items (e ∷ es) = items_from e.item 0 (length e.info.marks) ++ all_items es

-- `P s items` is what is shown of a storage from which the items are taken, one at each chunk that
-- is loaded, and `Q s item` that the item is what the loaded chunk gives.
module _ (x : Externs) (k : Codec Value ArchivedValue) (disk : String → String → Option Bytes)
    {B : Type 0} (P : NativeStorage → List B → Type 0) (Q : NativeStorage → B → Type 0)
    (stop : (s : NativeStorage) → load_next_chunk x k disk s ≡ ok none → P s [])
    (step : (s s' : NativeStorage) (b : B) (rest : List B)
      → load_next_chunk x k disk s ≡ ok (some s')
      → Q s' b
      → P s' rest
      → P s (b ∷ rest))
    (schema : TableSchema) (infos : List TablePartInfo) where
  -- A readable part, whose granules give the items.
  pub record Gives (e : PartItems B) : Type 0 where
    pub readable : IsReadable x k disk e.info
    pub item_at :
        (g : ℕ) (mark : Mark) (bytes : List Bytes)
        → g < length e.info.marks
        → get_elem? e.info.marks g ≡ some mark
        → chunk_bytes_of x k disk e.info.column_defs readable.mmaps mark.info ≡ ok bytes
        → Q (at x k disk schema infos e.info g readable.mmaps bytes) (e.item g)

  take_one :
      (loaded : Option LoadedChunk) (e : PartItems B) (g : ℕ) (h : Gives e) (old : List Bytes)
      (rest : List B)
      → g < length e.info.marks
      → advance_chunk_metadata x k disk infos loaded
        ≡ ok (
            some record {
              part_info = e.info;
              granule_idx = g;
              mmaps = h.readable.mmaps;
              chunk_bytes = old;
            })
      → ((bytes : List Bytes) → P (at x k disk schema infos e.info g h.readable.mmaps bytes) rest)
      → P (with_chunk x k disk schema infos loaded) (e.item g ∷ rest)
  unfolding load_next_chunk fill_chunk
  take_one loaded e g h old rest lt found after =
      let (mark, bytes, m, b) = h.readable.read g lt in
      step (with_chunk x k disk schema infos loaded)
        (at x k disk schema infos e.info g h.readable.mmaps bytes) (e.item g) rest
        (>>=-ok (advance_chunk_metadata x k disk infos loaded)
          (fill_chunk x k disk (with_chunk x k disk schema infos loaded)) found
          (rw (m, b, fill_chunk) refl))
        (h.item_at g mark bytes lt m b) (after bytes)

  -- From a granule on: what is left of its part, and the parts after it.
  walk_from :
      (rest : List (PartItems B)) (n i : ℕ) (e : PartItems B) (g : ℕ) (h : Gives e)
      (bytes : List Bytes)
      → AreApart infos
      → All Gives rest
      → get_elem? infos i ≡ some e.info
      → drop (i + 1) infos ≡ infos_of rest
      → g + 1 + n ≡ length e.info.marks
      → P
          (at x k disk schema infos e.info g h.readable.mmaps bytes)
          (items_from e.item (g + 1) n ++ all_items rest)
  unfolding load_next_chunk fill_chunk load_part advance_chunk_metadata
  walk_from rest (suc n) i e g h bytes apart hs ei er en =
      let more_here : g + 1 ≢ length e.info.marks = λ q. omega (arith, q, en) in
      take_one
        (some record {
          part_info = e.info;
          granule_idx = g;
          mmaps = h.readable.mmaps;
          chunk_bytes = bytes;
        })
        e (g + 1) h bytes (items_from e.item (g + 1 + 1) n ++ all_items rest) (omega (arith, en))
        (rw (==_ne (g + 1) (length e.info.marks) more_here, advance_chunk_metadata) refl)
        (λ new. walk_from rest n i e (g + 1) h new apart hs ei er (omega (arith, en)))
  walk_from [] zero i e g h bytes apart hs ei er en =
      let here : NativeStorage = at x k disk schema infos e.info g h.readable.mmaps bytes in
      let gone : get_elem? infos (i + 1) ≡ none =
        sym (get_elem?-first (i + 1) infos) ∙ ap (λ l. get_elem? l 0) er in
      stop here (
        >>=-ok (advance_chunk_metadata x k disk infos here.loaded_chunk) _
          (last_granule x k disk schema infos i e.info g h.readable.mmaps bytes none
            (apart i e.info ei) gone (omega (arith, en)))
          refl)
  walk_from (q ∷ qs) zero i e g h bytes apart hs ei er en =
      let here : NativeStorage = at x k disk schema infos e.info g h.readable.mmaps bytes in
      let eq : get_elem? infos (i + 1) ≡ some q.info =
        sym (get_elem?-first (i + 1) infos) ∙ ap (λ l. get_elem? l 0) er in
      let hq : Gives q = hs.0 in
      let m : ℕ = length q.info.marks - 1 in
      let em : suc m ≡ length q.info.marks = omega (arith, hq.readable.filled) in
      let eqs : drop (i + 1 + 1) infos ≡ infos_of qs =
        sym (drop-drop (i + 1) 1 infos) ∙ ap (λ l. drop 1 l) er in
      subst (λ c. P here (items_from q.item 0 c ++ all_items qs)) em
        (take_one here.loaded_chunk q 0 hq [] (items_from q.item (0 + 1) m ++ all_items qs)
          hq.readable.filled
          (last_granule x k disk schema infos i e.info g h.readable.mmaps bytes (some q.info)
              (apart i e.info ei) eq (omega (arith, en))
            ∙ opened_chunk x k disk schema infos q.info hq.readable)
          (λ new. walk_from qs m (i + 1) q 0 hq new apart hs.1 eq eqs (omega (arith, em))))

  -- A table that is open for reading gives the items of all granules of all parts, in turn.
  pub walk :
      (es : List (PartItems B))
      → infos ≡ infos_of es
      → All Gives es
      → AreApart infos
      → P (with_chunk x k disk schema infos none) (all_items es)
  unfolding load_next_chunk fill_chunk load_part advance_chunk_metadata
  walk [] same hs apart = stop (with_chunk x k disk schema infos none) (
      >>=-ok (advance_chunk_metadata x k disk infos none) _
        (ap (λ l. load_part x k disk (get_elem? l 0)) same) refl)
  walk (q ∷ qs) same hs apart =
      let hq : Gives q = hs.0 in
      let first : get_elem? infos 0 ≡ some q.info = ap (λ l. get_elem? l 0) same in
      let m : ℕ = length q.info.marks - 1 in
      let em : suc m ≡ length q.info.marks = omega (arith, hq.readable.filled) in
      subst (λ c. P (with_chunk x k disk schema infos none) (items_from q.item 0 c ++ all_items qs))
        em
        (take_one none q 0 hq [] (items_from q.item (0 + 1) m ++ all_items qs) hq.readable.filled
          (ap (load_part x k disk) first ∙ opened_chunk x k disk schema infos q.info hq.readable)
          (λ new.
            walk_from qs m 0 q 0 hq new apart hs.1 first (ap (λ l. drop 1 l) same)
              (omega (arith, em))))
