-- ===== src/Execution/Merge/Reading.antt =====
-- background_merge.rs: what `load_part_cols` reads of a part.
use touchhouse.Prelude.{
  ◌≡◌, refl, ap, ◌∙◌, String, Option, none, some, List, [], ◌∷◌, map, length, eq_iff,
}
use touchhouse.Outcome.{ok, panics, ◌>>=◌, >>=-eq-ok, traverse}
use touchhouse.Externs.{Externs, Codec}
use touchhouse.Value.{Value}
use touchhouse.Value.Archived.{ArchivedValue}
use touchhouse.Value.Display.{show_source}
use touchhouse.Storage.Column.{ColumnDef, empty_column}
use touchhouse.Storage.Table.{TableSchema}
use touchhouse.Storage.Part.{Bytes, TablePartInfo}
use touchhouse.Storage.Native.{
  LoadedChunk, NativeStorage, gen_next_chunk, next_part, load_part, advance_chunk_metadata,
  fill_chunk, load_next_chunk, read_column, access_loaded, access_chunk_column, open_part,
  open_column,
}
use touchhouse.Execution.Merge.{load_part_cols, load_chunks, advance, extend_cols}

module _ (x : Externs) (k : Codec Value ArchivedValue) (disk : String → String → Option Bytes) where
  abbrev at_first : TableSchema → List TablePartInfo → TablePartInfo → List Bytes → NativeStorage
  at_first schema infos part mmaps = record {
    schema = schema;
    infos = infos;
    loaded_chunk =
        some record { part_info = part; granule_idx = 0; mmaps = mmaps; chunk_bytes = [] };
  }

  -- A chunk of one granule, in the last part: there is no next chunk, and the storage stays.
  advance-last :
      (schema : TableSchema) (infos : List TablePartInfo) (part : TablePartInfo)
      (mmaps : List Bytes)
      → length part.marks ≡ 1
      → next_part x k disk infos part ≡ none
      → advance x k disk (at_first schema infos part mmaps) ≡ ok (at_first schema infos part mmaps)
  unfolding advance load_next_chunk advance_chunk_metadata load_part fill_chunk
  advance-last schema infos part mmaps m n = rw (m, n) refl

  extend-unread :
      (schema : TableSchema) (infos : List TablePartInfo) (part : TablePartInfo)
      (mmaps : List Bytes) (c : ColumnDef) (cs : List ColumnDef)
      → part.column_defs ≡ c ∷ cs
      → extend_cols x k disk (at_first schema infos part mmaps) (map empty_column (c ∷ cs)) ≡ panics
  unfolding extend_cols access_chunk_column access_loaded read_column show_source
  extend-unread schema infos part mmaps c cs e =
      rw (e, (eq_iff c.name c.name).1 refl, read_column) refl

  chunks-unread :
      (schema : TableSchema) (infos : List TablePartInfo) (part : TablePartInfo)
      (mmaps : List Bytes) (c : ColumnDef) (cs : List ColumnDef)
      → part.column_defs ≡ c ∷ cs
      → length part.marks ≡ 1
      → next_part x k disk infos part ≡ none
      → load_chunks x k disk 1 (at_first schema infos part mmaps) (map empty_column (c ∷ cs))
        ≡ panics
  unfolding load_chunks
  chunks-unread schema infos part mmaps c cs d m n =
      ap
        (λ a. a >>= λ s. extend_cols x k disk s (map empty_column (c ∷ cs)) >>= λ cols.
          load_chunks x k disk 0 s cols)
        (advance-last schema infos part mmaps m n)
      ∙ ap (λ a. a >>= λ cols. load_chunks x k disk 0 (at_first schema infos part mmaps) cols)
          (extend-unread schema infos part mmaps c cs d)

  part-unread :
      (schema : TableSchema) (infos : List TablePartInfo) (part : TablePartInfo)
      (mmaps : List Bytes) (c : ColumnDef) (cs : List ColumnDef)
      → traverse (open_column x k disk part) part.column_defs ≡ ok mmaps
      → part.column_defs ≡ c ∷ cs
      → length part.marks ≡ 1
      → next_part x k disk infos part ≡ none
      → load_part_cols x k disk (some (schema, infos)) part ≡ panics
  unfolding load_part_cols open_part gen_next_chunk
  part-unread schema infos part mmaps c cs e d m n =
      rw (e, m)
        (ap (λ ds. load_chunks x k disk 1 (at_first schema infos part mmaps) (map empty_column ds))
            d
          ∙ chunks-unread schema infos part mmaps c cs d m n)

  -- Reading a part that has a first column and one granule, whose files open, and after which
  -- there is no part in the table, makes `load_part_cols` panic.
  pub load_part_cols-single :
      (schema : TableSchema) (infos : List TablePartInfo) (part : TablePartInfo) (c : ColumnDef)
      (cs : List ColumnDef) (chunk : LoadedChunk)
      → part.column_defs ≡ c ∷ cs
      → length part.marks ≡ 1
      → next_part x k disk infos part ≡ none
      → gen_next_chunk x k disk part ≡ ok chunk
      → load_part_cols x k disk (some (schema, infos)) part ≡ panics
  unfolding gen_next_chunk
  load_part_cols-single schema infos part c cs chunk d m n g =
      let (mmaps, e, _) = >>=-eq-ok (traverse (open_column x k disk part) part.column_defs) _ g in
      part-unread schema infos part mmaps c cs e d m n
