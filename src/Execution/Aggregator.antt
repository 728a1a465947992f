-- ===== src/Execution/Aggregator.antt =====
-- sql/execution/select/aggregator.rs: what a SELECT collects from the rows, as they are or grouped.
-- The groups are a list in the order in which their keys were met, one of the orders in which a
-- `HashMap` may be walked.
pub mod Fold
use touchhouse.Prelude.{
  ℕ, zero, suc, ◌+◌, String, Bool, true, false, ℤ, pos, Option, none, some, List, [], ◌∷◌, ◌++◌,
  map, length, get_elem?, take, drop, is_empty, eq_list, ◌==◌, if◌then◌else◌,
}
use touchhouse.Outcome.{
  Result, ok, err, panics, ◌>>=◌, ok_or, index, traverse, invalid_columns_specified,
}
use touchhouse.Externs.{Externs}
use touchhouse.Value.{Value, ToValue, eq}
use touchhouse.Value.Display.{show_projection, call_text, add_aggr_fn_around, as_f64}
use touchhouse.Storage.Column.{OutputColumn, Projection, ProjectionValue, value}
use touchhouse.Sql.Plan.Projections.{AggregateFunction, AggregateProjection}
use touchhouse.Engines.Permute.{range_from}

-- An average is its sum and its count.
pub data RawData : Type 0 where
  sum min max : Option ℕ → RawData
  count : ℕ → RawData
  avg : ℕ → ℕ → RawData
  values : List Value → RawData

pub record RawColumn : Type 0 where
  pub alias : Option String
  pub proj : Projection
  pub data_of : RawData

pub data AggregatorFormat : Type 0 where
  simple : List RawColumn → AggregatorFormat
  aggregate : List RawColumn → List RawColumn → List (List Value × List RawData) → AggregatorFormat

pub record Aggregator : Type 0 where
  pub format : AggregatorFormat
  pub rows : ℕ

abbrev pub map_or : (ℕ → ℕ → ℕ) → Option ℕ → ℕ → Option ℕ
map_or f none v = some v
map_or f (some m) v = some (f m v)

unfoldable pub get_fn_name : RawData → Option String
get_fn_name (sum v) = some "sum"
get_fn_name (min v) = some "min"
get_fn_name (max v) = some "max"
get_fn_name (count n) = some "count"
get_fn_name (avg s n) = some "avg"
get_fn_name (values vs) = none

-- `data_as_empty_vec`
abbrev pub data_as_empty_vec : RawColumn → RawColumn
data_as_empty_vec c = record { alias = c.alias; proj = c.proj; data_of = values [] }

abbrev pub raw_column : Projection → RawColumn
raw_column p = record { alias = none; proj = p; data_of = values [] }

unfoldable pub initial_data : AggregateFunction → Projection × RawData
initial_data (AggregateFunction.sum p) = (p, sum none)
initial_data (AggregateFunction.min p) = (p, min none)
initial_data (AggregateFunction.max p) = (p, max none)
initial_data (AggregateFunction.count p) = (p, count 0)
initial_data (AggregateFunction.avg p) = (p, avg 0 0)

unfoldable pub create_aggregate_column : AggregateProjection → RawColumn
create_aggregate_column a = record {
  alias = a.alias;
  proj = (initial_data a.source).0;
  data_of = (initial_data a.source).1;
}

-- `Aggregator::new`
unfoldable pub new_aggregator :
    List Projection → List AggregateProjection → List Projection → Aggregator
new_aggregator projections aggregates group_by = record {
  format =
      if is_empty group_by
      then (if is_empty projections
          then simple (map create_aggregate_column aggregates)
          else simple (map raw_column projections))
      else aggregate (map raw_column group_by) (map create_aggregate_column aggregates) [];
  rows = 0;
}

abbrev pub proj_of : RawColumn → Projection
proj_of c = c.proj

projs_inside : AggregatorFormat → List Projection
projs_inside (simple columns) = map proj_of columns
projs_inside (aggregate group_by_cols aggregate_cols groups) =
    map proj_of group_by_cols ++ map proj_of aggregate_cols

unfoldable pub get_projs_to_read : Aggregator → List Projection
unfolding projs_inside
get_projs_to_read a = projs_inside a.format

-- `groups.entry(key).or_insert_with(..)`, then the group changed by `f`.
abbrev pub at_group :
    List Value
    → List RawData
    → (List RawData → Result (List RawData))
    → List (List Value × List RawData)
    → Result (List (List Value × List RawData))
at_group key fresh f [] = f fresh >>= λ d. ok ((key, d) ∷ [])
at_group key fresh f (g ∷ gs) = elim (eq_list eq g.0 key) [
  | true ↦ f g.1 >>= λ d. ok ((g.0, d) ∷ gs)
  | false ↦ at_group key fresh f gs >>= λ gs'. ok (g ∷ gs')
]

module _ (x : Externs) where
  unfoldable pub add_value : RawData → Value → Result RawData
  add_value (sum m) v =
      ok_or (as_f64 x v) invalid_columns_specified >>= λ f. ok (sum (map_or x.f64_add m f))
  add_value (min m) v =
      ok_or (as_f64 x v) invalid_columns_specified >>= λ f. ok (min (map_or x.f64_min m f))
  add_value (max m) v =
      ok_or (as_f64 x v) invalid_columns_specified >>= λ f. ok (max (map_or x.f64_max m f))
  add_value (count n) v = ok (count (suc n))
  add_value (avg s n) v =
      ok_or (as_f64 x v) invalid_columns_specified >>= λ f. ok (avg (x.f64_add s f) (suc n))
  add_value (values vs) v = ok (values (vs ++ (v ∷ [])))

  -- What an aggregate comes to.
  abbrev pub option_f64 : Option ℕ → Value
  option_f64 none = Value.null
  option_f64 (some v) = Value.f64 v

  unfoldable pub result_of : RawData → Result Value
  result_of (sum v) = ok (option_f64 v)
  result_of (min v) = ok (option_f64 v)
  result_of (max v) = ok (option_f64 v)
  result_of (count n) = ok (Value.uint64 n)
  result_of (avg s zero) = ok Value.null
  result_of (avg s (suc n)) = ok (Value.f64 (x.f64_div s (x.f64_of_int (pos (suc n)))))
  result_of (values vs) = panics

  called : Option String → Projection → String → Projection
  called alias proj name = record {
    alias = alias;
    source = value (Value.string (call_text x name (show_projection x proj)));
  }

  finalized_proj : RawData → Option String → Projection → Projection
  unfolding called
  finalized_proj (sum v) alias proj = called alias proj "sum"
  finalized_proj (min v) alias proj = called alias proj "min"
  finalized_proj (max v) alias proj = called alias proj "max"
  finalized_proj (count n) alias proj = called alias proj "count"
  finalized_proj (avg s n) alias proj = called alias proj "avg"
  finalized_proj (values vs) alias proj = record { alias = alias; source = proj.source }

  finalized_data : RawData → List Value
  finalized_data (values vs) = vs
  finalized_data (sum v) = option_f64 v ∷ []
  finalized_data (min v) = option_f64 v ∷ []
  finalized_data (max v) = option_f64 v ∷ []
  finalized_data (count n) = Value.uint64 n ∷ []
  finalized_data (avg s zero) = Value.null ∷ []
  finalized_data (avg s (suc n)) = Value.f64 (x.f64_div s (x.f64_of_int (pos (suc n)))) ∷ []

  -- `RawColumn::finalize`
  unfoldable pub finalize_column : RawColumn → OutputColumn
  unfolding finalized_proj finalized_data
  finalize_column c = record {
    proj = finalized_proj c.data_of c.alias c.proj;
    data_of = finalized_data c.data_of;
  }

  -- One value for each column: `zip`, and `add_value(val).unwrap()`.
  unfoldable pub add_row : List RawColumn → List Value → Result (List RawColumn)
  add_row [] vs = ok []
  add_row (c ∷ cs) [] = ok (c ∷ cs)
  add_row (c ∷ cs) (v ∷ vs) = do
    d ← add_value c.data_of v
    rest ← add_row cs vs
    ok (record c { data_of = d } ∷ rest)

  unfoldable pub add_rows : List RawColumn → List (List Value) → Result (List RawColumn)
  add_rows cs [] = ok cs
  add_rows cs (row ∷ rows) = add_row cs row >>= λ cs'. add_rows cs' rows

  renamed : Option String → RawColumn → RawColumn
  renamed none c = c
  renamed (some name) c = record {
    alias = c.alias;
    proj = record { alias = c.proj.alias; source = add_aggr_fn_around x name c.proj.source };
    data_of = c.data_of;
  }

  finalize_format : AggregatorFormat → Result (List OutputColumn)
  unfolding renamed
  finalize_format (simple columns) = ok (map finalize_column columns)
  finalize_format (aggregate group_by_cols aggregate_cols []) =
      ok (map finalize_column (map data_as_empty_vec (group_by_cols ++ aggregate_cols)))
  finalize_format (aggregate group_by_cols aggregate_cols (g ∷ gs)) = do
    keys ← add_rows group_by_cols (map (λ (e : List Value × List RawData). e.0) (g ∷ gs))
    results ← traverse (λ (e : List Value × List RawData). traverse result_of e.1) (g ∷ gs)
    let named : List RawColumn = map (λ c. renamed (get_fn_name c.data_of) c) aggregate_cols
    totals ← add_rows (map data_as_empty_vec named) results
    ok (map finalize_column (keys ++ totals))

  unfoldable pub finalize : Aggregator → Result (List OutputColumn)
  unfolding finalize_format
  finalize a = finalize_format a.format

  -- Each aggregate of a group takes its value of the row.
  add_each : List RawData → List Value → Result (List RawData)
  add_each [] vs = ok []
  add_each (d ∷ ds) [] = panics
  add_each (d ∷ ds) (v ∷ vs) = add_value d v >>= λ d'. add_each ds vs >>= λ rest. ok (d' ∷ rest)

  module _ {T : Type 0} (t : ToValue T) where
    -- A column's cells, one after another.
    unfoldable pub add_cells : RawData → List T → Result RawData
    add_cells d [] = ok d
    add_cells d (c ∷ cs) = add_value d (t.view c) >>= λ d'. add_cells d' cs

    -- The zip of the chunk and the columns.
    unfoldable pub add_columns : List (List T) → List RawColumn → Result (List RawColumn)
    add_columns [] columns = ok columns
    add_columns (cells ∷ chunk) [] = ok []
    add_columns (cells ∷ chunk) (c ∷ cs) = do
      d ← add_cells c.data_of cells
      rest ← add_columns chunk cs
      ok (record c { data_of = d } ∷ rest)

    -- `col[row_idx]` of each column.
    unfoldable pub row_at : List (List T) → ℕ → Result (List Value)
    row_at chunk i = traverse (λ col. index (get_elem? col i) >>= λ cell. ok (t.view cell)) chunk

    unfoldable pub add_group_row :
        ℕ
        → List RawColumn
        → List (List T)
        → List (List Value × List RawData)
        → ℕ
        → Result (List (List Value × List RawData))
    unfolding add_each
    add_group_row keys aggregate_cols chunk groups i = do
      key ← row_at (take keys chunk) i
      at_group key (map (λ (c : RawColumn). c.data_of) aggregate_cols)
          (λ ds. row_at (take (length aggregate_cols) (drop keys chunk)) i >>= add_each ds) groups

    unfoldable pub add_group_rows :
        ℕ
        → List RawColumn
        → List (List T)
        → List ℕ
        → List (List Value × List RawData)
        → Result (List (List Value × List RawData))
    add_group_rows keys aggregate_cols chunk [] groups = ok groups
    add_group_rows keys aggregate_cols chunk (i ∷ is) groups =
        add_group_row keys aggregate_cols chunk groups i
        >>= add_group_rows keys aggregate_cols chunk is

    append_format : AggregatorFormat → List (List T) → ℕ → Result AggregatorFormat
    append_format (simple columns) chunk num_rows =
        add_columns chunk columns >>= λ cs. ok (simple cs)
    append_format (aggregate group_by_cols aggregate_cols groups) chunk num_rows =
        add_group_rows (length group_by_cols) aggregate_cols chunk (range_from 0 num_rows) groups
        >>= λ gs. ok (aggregate group_by_cols aggregate_cols gs)

    rows_of : Option (List T) → ℕ
    rows_of none = 0
    rows_of (some cells) = length cells

    -- `append_chunk`: the aggregator and the number of rows that it took.
    unfoldable pub append_chunk : Aggregator → List (List T) → Result (Aggregator × ℕ)
    unfolding append_format rows_of
    append_chunk a chunk =
        let num_rows : ℕ = rows_of (get_elem? chunk 0) in
        if num_rows == 0 then ok (a, 0) else do
          format ← append_format a.format chunk num_rows
          ok (record { format = format; rows = a.rows + num_rows }, num_rows)
