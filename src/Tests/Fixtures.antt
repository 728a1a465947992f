-- ===== src/Tests/Fixtures.antt =====
-- Parameters and data for the tests.
use touchhouse.Prelude.{
  String, str_eq, ◌++◌, if◌then◌else◌, ℕ, Option, none, some, List, [], ◌∷◌, ◌≡◌, refl, sym, map,
  pos, negsuc,
}
use touchhouse.Externs.{Externs, Codec}
use touchhouse.Value.{Value, ValueType}
use touchhouse.Value.Archived.{ArchivedValue, archive}
use touchhouse.Storage.Column.{ColumnDef, OutputColumn, default_constraints, projection_of}
use touchhouse.Storage.Table.{TableDef, TableSchema, TableMetadata, default_settings}
use touchhouse.Engines.Sort.{sort_by}
use touchhouse.Outcome.{Result, ok}
use touchhouse.Storage.Part.{Bytes}
use touchhouse.Storage.Part.Granules.{RoundTrips}

abbrev pub sorted : Result (List String) → Option (List String)
sorted (ok l) = some l
sorted _ = none

-- A name reaches the folder of that name, but this one a table's.
abbrev pub joined : List String → String → List String
joined p n = if str_eq n "d/t" then p ++ ("d" ∷ "t" ∷ []) else p ++ (n ∷ [])

abbrev pub externs : Externs
externs = record {
  parse_f32 = λ s. none;
  parse_f64 = λ s. none;
  uuid_timestamp = λ s. none;
  unix_time_millis = some 1700000000000;
  parse_uuid = λ s. none;
  f64_of_int = λ n. elim n [ pos k ↦ k | negsuc k ↦ 0 ];
  f64_of_f32 = λ b. b;
  f64_add = λ a b. a;
  f64_div = λ a b. a;
  f64_min = λ a b. a;
  f64_max = λ a b. b;
  sort_unstable_by = λ cmp l. sorted (sort_by (λ a b. ok (cmp a b)) l);
  db_dir = "db" ∷ [];
  join = joined;
  to_lowercase = λ s. s;
  show_int = λ n. "0";
  show_nat = λ n. "0";
  show_uuid = λ n. "0";
  show_f32 = λ n. "0";
  show_f64 = λ n. "0";
}

-- A codec of `uint64` values, a number to a value, that compresses nothing.
abbrev pub prepend : ℕ → Option Bytes → Option Bytes
prepend n none = none
prepend n (some b) = some (n ∷ b)

abbrev pub numbers : List Value → Option Bytes
numbers [] = some []
numbers (Value.uint64 n ∷ rows) = prepend n (numbers rows)
numbers (_ ∷ rows) = none

abbrev pub codec : Codec Value ArchivedValue
codec = record {
  to_bytes = numbers;
  access = map ArchivedValue.uint64;
  lz4_compress = λ level b. some b;
  lz4_decompress = some;
  crc32 = λ b. 7;
}

prepend_access :
    (n : ℕ) (rows : List Value) (o : Option Bytes) (b : Bytes)
    → ((c : Bytes) → o ≡ some c → map ArchivedValue.uint64 c ≡ map archive rows)
    → prepend n o ≡ some b
    → map ArchivedValue.uint64 b ≡ map archive (Value.uint64 n ∷ rows)
unfolding archive
prepend_access n rows none b h e = cc e
prepend_access n rows (some c) b h e = cc (h c refl, e)

numbers_access :
    (rows : List Value) (b : Bytes)
    → numbers rows ≡ some b
    → map ArchivedValue.uint64 b ≡ map archive rows
numbers_access [] b e = cc e
numbers_access (Value.uint64 n ∷ rows) b e =
    prepend_access n rows (numbers rows) b (λ c f. numbers_access rows c f) e
numbers_access (_ ∷ rows) b e = cc e

pub codec-RoundTrips : RoundTrips codec
codec-RoundTrips = record { rkyv = numbers_access; lz4_back = λ level b c e. sym e }

abbrev pub col_a : ColumnDef
col_a = record { name = "a"; field_type = ValueType.uint64; constraints = default_constraints }

abbrev pub table_t : TableDef
table_t = record { table = "t"; database = "d" }

abbrev pub schema : TableSchema
schema = record { columns = col_a ∷ []; order_by = col_a ∷ []; primary_key = col_a ∷ [] }

abbrev pub cells : List Value
cells = Value.uint64 3 ∷ Value.uint64 1 ∷ Value.uint64 2 ∷ []

abbrev pub column : OutputColumn
column = record { proj = projection_of col_a; data_of = cells }

abbrev pub metadata : TableMetadata
metadata = record {
  version = 1;
  flags = 0;
  created_at = 1700000000000;
  settings = default_settings;
  schema = schema;
}
