-- ===== src/Tests/Codecs.antt =====
-- Crates for the files of tables and parts: they take tables of no column and parts named "p" of no
-- granule, and give the numbers in them.
use touchhouse.Prelude.{
  ℕ, ◌<◌, ◌≡◌, ◌∙◌, refl, sym, ap, length, String, Bool, true, false, Option, none, some, List, [],
  ◌∷◌, str_eq, eq_iff, arith,
}
use touchhouse.Externs.{FileCodec}
use touchhouse.Storage.Column.{ColumnDef}
use touchhouse.Storage.Table.{TableMetadata, EngineName, merge_tree, replacing_merge_tree}
use touchhouse.Storage.Part.{Bytes, Mark, TablePartInfo}
use touchhouse.Storage.Files.Atomic.{IsLawful}

abbrev metadata_bytes :
    ℕ → ℕ → ℕ → ℕ → EngineName → List ColumnDef → List ColumnDef → List ColumnDef → Option Bytes
metadata_bytes v f c g merge_tree [] [] [] = some (v ∷ f ∷ c ∷ g ∷ [])
metadata_bytes v f c g e cs os ps = none

abbrev metadata_of : Bytes → Option TableMetadata
metadata_of (v ∷ f ∷ c ∷ g ∷ []) = some record {
  version = v;
  flags = f;
  created_at = c;
  settings = record { index_granularity = g; engine = merge_tree };
  schema = record { columns = []; order_by = []; primary_key = [] };
}
metadata_of _ = none

abbrev pub metadata_codec : FileCodec TableMetadata
metadata_codec = record {
  to_bytes = λ m.
      metadata_bytes m.version m.flags m.created_at m.settings.index_granularity m.settings.engine
        m.schema.columns m.schema.order_by m.schema.primary_key;
  from_bytes = metadata_of;
  crc32 = λ b. 7;
}

metadata_back :
    (v f c g : ℕ) (e : EngineName) (cs os ps : List ColumnDef) (b : Bytes)
    → metadata_bytes v f c g e cs os ps ≡ some b
    → (metadata_of b
        ≡ some record {
          version = v;
          flags = f;
          created_at = c;
          settings = record { index_granularity = g; engine = e };
          schema = record { columns = cs; order_by = os; primary_key = ps };
        })
      × (b ≡ v ∷ f ∷ c ∷ g ∷ [])
metadata_back v f c g merge_tree [] [] [] b h =
    let e : b ≡ v ∷ f ∷ c ∷ g ∷ [] = cc h in (ap metadata_of e, e)
metadata_back v f c g merge_tree [] [] (p ∷ ps) b h = cc h
metadata_back v f c g merge_tree [] (o ∷ os) ps b h = cc h
metadata_back v f c g merge_tree (d ∷ cs) os ps b h = cc h
metadata_back v f c g replacing_merge_tree cs os ps b h = cc h

longer : (b : Bytes) (v f c g : ℕ) → b ≡ v ∷ f ∷ c ∷ g ∷ [] → 0 < length b
longer b v f c g e = let n : length b ≡ 4 = ap length e in omega (arith, n)

pub metadata_codec-IsLawful : IsLawful metadata_codec
metadata_codec-IsLawful = record {
  back = λ m b h.
      (metadata_back m.version m.flags m.created_at m.settings.index_granularity m.settings.engine
        m.schema.columns m.schema.order_by m.schema.primary_key b h).0;
  filled = λ m b h.
      longer b m.version m.flags m.created_at m.settings.index_granularity
        (metadata_back m.version m.flags m.created_at m.settings.index_granularity m.settings.engine
          m.schema.columns m.schema.order_by m.schema.primary_key b h).1;
  small = λ b. omega arith;
}

abbrev info_bytes : Bool → ℕ → List Mark → List ColumnDef → Option Bytes
info_bytes true n [] [] = some (n ∷ [])
info_bytes b n ms cs = none

abbrev info_of : Bytes → Option TablePartInfo
info_of (n ∷ []) = some record { name = "p"; row_count = n; marks = []; column_defs = [] }
info_of _ = none

abbrev pub info_codec : FileCodec TablePartInfo
info_codec = record {
  to_bytes = λ i. info_bytes (str_eq i.name "p") i.row_count i.marks i.column_defs;
  from_bytes = info_of;
  crc32 = λ b. 7;
}

info_back :
    (name : String) (t : Bool) (n : ℕ) (ms : List Mark) (cs : List ColumnDef) (b : Bytes)
    → (t ≡ true → name ≡ "p")
    → info_bytes t n ms cs ≡ some b
    → (info_of b ≡ some record { name = name; row_count = n; marks = ms; column_defs = cs })
      × (b ≡ n ∷ [])
info_back name true n [] [] b p h =
    let e : b ≡ n ∷ [] = cc h in
    (
      ap info_of e
          ∙ ap (λ m. some record { name = m; row_count = n; marks = []; column_defs = [] })
              (sym (p refl)),
      e,
    )
info_back name true n [] (c ∷ cs) b p h = cc h
info_back name true n (m ∷ ms) cs b p h = cc h
info_back name false n ms cs b p h = cc h

pub info_codec-IsLawful : IsLawful info_codec
info_codec-IsLawful = record {
  back = λ i b h.
      (info_back i.name (str_eq i.name "p") i.row_count i.marks i.column_defs b
        (eq_iff i.name "p").0 h).0;
  filled = λ i b h.
      let n : length b ≡ 1 =
        ap length
          (info_back i.name (str_eq i.name "p") i.row_count i.marks i.column_defs b
            (eq_iff i.name "p").0 h).1 in
      omega (arith, n);
  small = λ b. omega arith;
}
