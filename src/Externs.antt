-- ===== src/Externs.antt =====
-- What the source takes from Rust's floats, its unstable sort and its paths, and from the crate
-- `uuid`, as parameters: their functions on bit patterns, on texts and on paths. Nothing is assumed of them here; a theorem that needs a
-- documented fact names it as a hypothesis.
use touchhouse.Prelude.{ℕ, String, ℤ, Ordering, Option, List}

pub record Externs : Type 0 where
  -- `str::parse` into an `f32` and an `f64`
  pub parse_f32 : String → Option ℕ
  pub parse_f64 : String → Option ℕ
  -- the Unix time of the UUID that a text holds, in seconds and nanoseconds
  pub uuid_timestamp : String → Option (ℕ × ℕ)
  -- the system's clock, in milliseconds since 1970, where it is not before and 64 bits are enough
  pub unix_time_millis : Option ℕ
  -- `Uuid::parse_str`
  pub parse_uuid : String → Option ℕ
  -- the casts of an integer and of an `f32` to an `f64`
  pub f64_of_int : ℤ → ℕ
  pub f64_of_f32 : ℕ → ℕ
  -- `+`, `/`, `f64::min` and `f64::max`
  pub f64_add : ℕ → ℕ → ℕ
  pub f64_div : ℕ → ℕ → ℕ
  pub f64_min : ℕ → ℕ → ℕ
  pub f64_max : ℕ → ℕ → ℕ
  -- `slice::sort_unstable_by`, with a comparison and the entries: where the comparison is no total
  -- order, in any order, or a panic
  pub sort_unstable_by : (String → String → Ordering) → List String → Option (List String)
  -- the database's folder, and the folder that is reached from a folder by `Path::join` with a
  -- text, each as the names on the way from the root
  pub db_dir : List String
  pub join : List String → String → List String
  -- `str::to_lowercase`
  pub to_lowercase : String → String
  -- The texts of a signed and an unsigned integer, a UUID and a float.
  pub show_int : ℤ → String
  pub show_nat : ℕ → String
  pub show_uuid : ℕ → String
  pub show_f32 : ℕ → String
  pub show_f64 : ℕ → String

-- What the storage takes from the crates `rkyv`, `lz4` and `crc32fast`, on lists of bytes.
pub record Codec (V A : Type 0) : Type 0 where
  -- `rkyv::to_bytes` and `rkyv::access_unchecked` of a list of values
  pub to_bytes : List V → Option (List ℕ)
  pub access : List ℕ → List A
  pub lz4_compress : ℕ → List ℕ → Option (List ℕ)
  pub lz4_decompress : List ℕ → Option (List ℕ)
  pub crc32 : List ℕ → ℕ

-- `rkyv::to_bytes` and `rkyv::from_bytes` of one value, and the checksum.
pub record FileCodec (T : Type 0) : Type 0 where
  pub to_bytes : T → Option (List ℕ)
  pub from_bytes : List ℕ → Option T
  pub crc32 : List ℕ → ℕ
