-- ===== src/Storage/Table.antt =====
-- storage/table_def.rs, storage/table_metadata.rs and runtime_config.rs: what names a table, its
-- schema and settings, and its metadata.
use touchhouse.Prelude.{ℕ, String, List, [], ◌∷◌, Bool, ◌&&◌, str_eq, Option, none, some}
use touchhouse.Outcome.{Result, ok, err, ◌>>=◌, unsupported_command, system_time_went_backword}
use touchhouse.Sql.Ast.{ObjectName, identifier}
use touchhouse.Storage.Column.{ColumnDef}

pub record TableDef : Type 0 where
  pub table : String
  pub database : String

-- The derived `PartialEq`.
abbrev pub eq_table : TableDef → TableDef → Bool
eq_table a b = str_eq a.table b.table && str_eq a.database b.database

-- `TableDef::try_from(object_name)`: a database and a table, both plain names.
unfoldable pub table_of : ObjectName → Result TableDef
table_of (identifier d ∷ identifier t ∷ []) = ok record { table = t; database = d }
table_of _ = err unsupported_command

pub data EngineName : Type 0 where
  merge_tree replacing_merge_tree : EngineName

pub record TableSettings : Type 0 where
  pub index_granularity : ℕ
  pub engine : EngineName

abbrev pub standard_granularity : ℕ
standard_granularity = 8192

abbrev pub default_settings : TableSettings
default_settings = record { index_granularity = standard_granularity; engine = merge_tree }

pub record TableSchema : Type 0 where
  pub columns : List ColumnDef
  pub order_by : List ColumnDef
  pub primary_key : List ColumnDef

pub record TableMetadata : Type 0 where
  pub version : ℕ
  pub flags : ℕ
  pub created_at : ℕ
  pub settings : TableSettings
  pub schema : TableSchema

-- `get_unix_time`: in milliseconds, where the clock is not before 1970 and the number has 64 bits.
unfoldable pub get_unix_time : Option ℕ → Result ℕ
get_unix_time none = err system_time_went_backword
get_unix_time (some millis) = ok millis

-- `TableMetadata::try_new(schema, settings)`, of version 1 and with no flags.
unfoldable pub new_metadata : Option ℕ → TableSchema → TableSettings → Result TableMetadata
unfolding get_unix_time
new_metadata clock schema settings = do
  created_at ← get_unix_time clock
  ok record {
    version = 1;
    flags = 0;
    created_at = created_at;
    settings = settings;
    schema = schema;
  }
