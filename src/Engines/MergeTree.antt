-- ===== src/Engines/MergeTree.antt =====
-- engines/merge_tree.rs: `MergeTreeEngine::order_columns`.
pub mod Sorted
pub mod Ordered
use touchhouse.Prelude.{
  ℕ, List, [], ◌∷◌, Option, none, some, ◌==◌, ◌||◌, not, Bool, true, false, length, get_elem?,
  is_empty, any, position, if◌then◌else◌,
}
use touchhouse.Outcome.{
  Result, ok, err, ◌>>=◌, ok_or, index, traverse, no_columns_specified, invalid_columns_specified,
}
use touchhouse.Value.{Value}
use touchhouse.Storage.Column.{OutputColumn, Projection, eq_projection}
use touchhouse.Engines.Sort.{EngineConfig, compare_by, sort_by}
use touchhouse.Engines.Permute.{range_from, apply_permutation_in_place}

-- `&columns[col_idx].data[row]`
abbrev pub cell_at : List OutputColumn → ℕ → ℕ → Result Value
cell_at columns row c = index (get_elem? columns c) >>= λ col. index (get_elem? col.data_of row)

-- `columns.iter().position(|col| *order_proj == col.proj)`
abbrev pub order_index : List OutputColumn → Projection → Option ℕ
order_index columns proj = position (λ (col : OutputColumn). eq_projection proj col.proj) columns

-- The data of a column, moved.
unfoldable pub permute_column : List ℕ → OutputColumn → Result OutputColumn
permute_column indices col = do
  d ← apply_permutation_in_place col.data_of indices
  ok record { proj = col.proj; data_of = d }

unfoldable pub order_columns : EngineConfig → List OutputColumn → Result (List OutputColumn)
unfolding permute_column
order_columns config [] = err no_columns_specified
order_columns config (first ∷ rest) =
    let columns : List OutputColumn = first ∷ rest in
    let row_count : ℕ = length first.data_of in
    if is_empty config.order_by
    then err no_columns_specified
    else if any (λ (col : OutputColumn). not (length col.data_of == row_count)) columns
    then err invalid_columns_specified
    else do
      order_by_indices ←
          traverse (λ proj. ok_or (order_index columns proj) invalid_columns_specified)
            config.order_by
      indices ← sort_by (compare_by (cell_at columns) order_by_indices) (range_from 0 row_count)
      traverse (permute_column indices) columns
