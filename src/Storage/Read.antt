-- ===== src/Storage/Read.antt =====
-- storage/tables/mod.rs: the trait `StorageRead`, what a scan asks of a storage. `load_next_chunk`
-- gives the storage with its next chunk loaded, or `none` where there is no further one.
use touchhouse.Prelude.{ℕ, List, Option}
use touchhouse.Outcome.{Result}
use touchhouse.Storage.Column.{Projection}
use touchhouse.Storage.Table.{TableSchema}

pub record StorageRead (S T : Type 0) : Type 0 where
  pub get_total_rows : S → ℕ
  pub get_schema : S → TableSchema
  pub load_next_chunk : S → Result (Option S)
  pub access_chunk_column : S → Projection → Result (List T)
