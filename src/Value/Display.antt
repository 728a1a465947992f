-- ===== src/Value/Display.antt =====
-- storage/value.rs and sql/sql_parser.rs: the texts of values and of projections, and the `f64`
-- that an aggregate reads from a value.
use Prim.Native.String.{◌++◌ as append}
use touchhouse.Prelude.{ℕ, String, Bool, true, false, pos, Option, none, some}
use touchhouse.Externs.{Externs}
use touchhouse.Value.{Value}
use touchhouse.Storage.Column.{ProjectionValue, Projection, value, column_def}

wrapped : String → String → String
wrapped name text = append name (append "(" (append text ")"))

show_bool : Bool → String
show_bool true = "true"
show_bool false = "false"

module _ (x : Externs) where
  unfoldable pub show_value : Value → String
  unfolding wrapped show_bool
  show_value Value.null = "null"
  show_value (Value.string s) = wrapped "String" s
  show_value (Value.uuid u) = wrapped "Uuid" (x.show_uuid u)
  show_value (Value.bool b) = wrapped "Bool" (show_bool b)
  show_value (Value.int8 n) = wrapped "Int8" (x.show_int n)
  show_value (Value.int16 n) = wrapped "Int16" (x.show_int n)
  show_value (Value.int32 n) = wrapped "Int32" (x.show_int n)
  show_value (Value.int64 n) = wrapped "Int64" (x.show_int n)
  show_value (Value.uint8 n) = wrapped "UInt8" (x.show_nat n)
  show_value (Value.uint16 n) = wrapped "UInt16" (x.show_nat n)
  show_value (Value.uint32 n) = wrapped "UInt32" (x.show_nat n)
  show_value (Value.uint64 n) = wrapped "UInt64" (x.show_nat n)
  show_value (Value.f32 b) = wrapped "Float32" (x.show_f32 b)
  show_value (Value.f64 b) = wrapped "Float64" (x.show_f64 b)

  unfoldable pub show_source : ProjectionValue → String
  show_source (value v) = show_value v
  show_source (column_def c) = c.name

  show_named : Option String → ProjectionValue → String
  show_named (some alias) source = alias
  show_named none source = show_source source

  unfoldable pub show_projection : Projection → String
  unfolding show_named
  show_projection p = show_named p.alias p.source

  -- `format!("{name}({argument})")`
  unfoldable pub call_text : String → String → String
  unfolding wrapped
  call_text name argument = wrapped name argument

  unfoldable pub add_aggr_fn_around : String → ProjectionValue → ProjectionValue
  add_aggr_fn_around name source = value (Value.string (call_text name (show_source source)))

  -- `ToValue::as_f64`
  unfoldable pub as_f64 : Value → Option ℕ
  as_f64 (Value.int8 n) = some (x.f64_of_int n)
  as_f64 (Value.int16 n) = some (x.f64_of_int n)
  as_f64 (Value.int32 n) = some (x.f64_of_int n)
  as_f64 (Value.int64 n) = some (x.f64_of_int n)
  as_f64 (Value.uint8 n) = some (x.f64_of_int (pos n))
  as_f64 (Value.uint16 n) = some (x.f64_of_int (pos n))
  as_f64 (Value.uint32 n) = some (x.f64_of_int (pos n))
  as_f64 (Value.uint64 n) = some (x.f64_of_int (pos n))
  as_f64 (Value.f32 b) = some (x.f64_of_f32 b)
  as_f64 (Value.f64 b) = some b
  as_f64 _ = none
