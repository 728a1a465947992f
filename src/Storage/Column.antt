-- ===== src/Storage/Column.antt =====
-- storage/column.rs and the projections of sql/sql_parser.rs, which columns carry.
use touchhouse.Prelude.{
  ℕ, String, Bool, true, false, ◌&&◌, Option, none, some, List, [], str_eq, ◌==◌, if◌then◌else◌,
}
use touchhouse.Outcome.{Result, ok, err, invalid_source}
use touchhouse.Value.{Value, ValueType, eq}

pub data CompressionType : Type 0 where
  uncompressed : CompressionType
  lz4 : ℕ → CompressionType

unfoldable pub get_optimal_compression : ValueType → CompressionType
get_optimal_compression t = lz4 3

pub record Constraints : Type 0 where
  pub nullable : Bool
  pub default : Option Value
  pub compression_type : CompressionType

abbrev pub default_constraints : Constraints
default_constraints = record { nullable = true; default = none; compression_type = lz4 3 }

pub record ColumnDef : Type 0 where
  pub name : String
  pub field_type : ValueType
  pub constraints : Constraints

-- The derived `PartialEq`s.
unfoldable pub eq_type : ValueType → ValueType → Bool
eq_type ValueType.null ValueType.null = true
eq_type ValueType.string ValueType.string = true
eq_type ValueType.uuid ValueType.uuid = true
eq_type ValueType.bool ValueType.bool = true
eq_type ValueType.int8 ValueType.int8 = true
eq_type ValueType.int16 ValueType.int16 = true
eq_type ValueType.int32 ValueType.int32 = true
eq_type ValueType.int64 ValueType.int64 = true
eq_type ValueType.uint8 ValueType.uint8 = true
eq_type ValueType.uint16 ValueType.uint16 = true
eq_type ValueType.uint32 ValueType.uint32 = true
eq_type ValueType.uint64 ValueType.uint64 = true
eq_type ValueType.f32 ValueType.f32 = true
eq_type ValueType.f64 ValueType.f64 = true
eq_type _ _ = false

unfoldable pub eq_bool : Bool → Bool → Bool
eq_bool true b = b
eq_bool false b = if b then false else true

unfoldable pub eq_compression : CompressionType → CompressionType → Bool
eq_compression uncompressed uncompressed = true
eq_compression (lz4 a) (lz4 b) = a == b
eq_compression _ _ = false

abbrev pub eq_option {ℓ} : {A : Type ℓ} → (A → A → Bool) → Option A → Option A → Bool
eq_option e none none = true
eq_option e (some a) (some b) = e a b
eq_option e _ _ = false

unfoldable pub eq_constraints : Constraints → Constraints → Bool
unfolding eq_bool eq_compression
eq_constraints a b =
    eq_bool a.nullable b.nullable
    && (eq_option eq a.default b.default && eq_compression a.compression_type b.compression_type)

unfoldable pub eq_column_def : ColumnDef → ColumnDef → Bool
unfolding eq_type eq_constraints
eq_column_def a b =
    str_eq a.name b.name
    && (eq_type a.field_type b.field_type && eq_constraints a.constraints b.constraints)

pub data ProjectionValue : Type 0 where
  value : Value → ProjectionValue
  column_def : ColumnDef → ProjectionValue

pub record Projection : Type 0 where
  pub alias : Option String
  pub source : ProjectionValue

unfoldable pub eq_source : ProjectionValue → ProjectionValue → Bool
eq_source (value a) (value b) = eq a b
eq_source (column_def a) (column_def b) = eq_column_def a b
eq_source _ _ = false

unfoldable pub eq_projection : Projection → Projection → Bool
unfolding eq_source
eq_projection a b = eq_option str_eq a.alias b.alias && eq_source a.source b.source

-- `Projection::from(column_def)`
abbrev pub projection_of : ColumnDef → Projection
projection_of c = record { alias = none; source = column_def c }

pub record PhysicalColumn : Type 0 where
  pub column_def : ColumnDef
  pub data_of : List Value

pub record OutputColumn : Type 0 where
  pub proj : Projection
  pub data_of : List Value

-- `PhysicalColumn::from(column_def)`
abbrev pub empty_column : ColumnDef → PhysicalColumn
empty_column c = record { column_def = c; data_of = [] }

-- `OutputColumn::from(physical)` and `into_output_column`
unfoldable pub output_of : PhysicalColumn → OutputColumn
output_of p = record { proj = projection_of p.column_def; data_of = p.data_of }

physical_from : ProjectionValue → List Value → Result PhysicalColumn
physical_from (value v) d = err invalid_source
physical_from (column_def c) d = ok (record { column_def = c; data_of = d })

-- `PhysicalColumn::try_from(output)`
unfoldable pub physical_of : OutputColumn → Result PhysicalColumn
unfolding physical_from
physical_of o = physical_from o.proj.source o.data_of
