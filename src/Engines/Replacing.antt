-- ===== src/Engines/Replacing.antt =====
-- engines/replacing_merge_tree.rs: `ReplacingMergeTreeEngine::order_columns`.
pub mod Kept
use touchhouse.Prelude.{
  ℕ, List, [], ◌∷◌, ◌++◌, map, Option, none, some, Bool, true, false, length, get_elem?, position,
  replicate,
}
use touchhouse.Outcome.{Result, ok, err, panics, ◌>>=◌, index, no_columns_specified}
use touchhouse.Value.{Value, eq}
use touchhouse.Storage.Column.{
  OutputColumn, ProjectionValue, ColumnDef, value, column_def, eq_projection, eq_column_def,
}
use touchhouse.Engines.Sort.{EngineConfig, compare_by, sort_by}

-- The places that are found, the others passed over (`continue`).
abbrev pub found {ℓ} : {A : Type ℓ} → (A → Option ℕ) → List A → List ℕ
found f [] = []
found f (x ∷ xs) = elim (f x) [ none ↦ found f xs | some i ↦ i ∷ found f xs ]

is_source : ColumnDef → ProjectionValue → Bool
is_source pk (column_def d) = eq_column_def pk d
is_source pk (value v) = false

-- `data_in_row_format[idx].push(value)` for the values of one column: a value past the last row
-- panics.
abbrev pub push_column : List (List Value) → List Value → Result (List (List Value))
push_column rows [] = ok rows
push_column [] (v ∷ vs) = panics
push_column (row ∷ rows) (v ∷ vs) = push_column rows vs >>= λ rest. ok ((row ++ (v ∷ [])) ∷ rest)

abbrev pub push_columns : List (List Value) → List OutputColumn → Result (List (List Value))
push_columns rows [] = ok rows
push_columns rows (c ∷ cs) = push_column rows c.data_of >>= λ rows'. push_columns rows' cs

abbrev pub reverse_onto {ℓ} : {A : Type ℓ} → List A → List A → List A
reverse_onto [] acc = acc
reverse_onto (x ∷ xs) acc = reverse_onto xs (x ∷ acc)

abbrev pub reverse {ℓ} : {A : Type ℓ} → List A → List A
reverse xs = reverse_onto xs []

-- Whether two rows agree on the primary key.
abbrev pub same_key : List ℕ → List Value → List Value → Result Bool
same_key [] a b = ok true
same_key (k ∷ ks) a b = index (get_elem? a k) >>= λ x.
    index (get_elem? b k) >>= λ y. elim (eq x y) [ true ↦ same_key ks a b | false ↦ ok false ]

-- `dedup_by`: an entry goes where it is the same as the last that stays.
abbrev pub dedup_from :
    (List Value → List Value → Result Bool)
    → List Value
    → List (List Value)
    → Result (List (List Value))
dedup_from same last [] = ok []
dedup_from same last (x ∷ xs) = same x last >>= λ b. elim b [
  | true ↦ dedup_from same last xs
  | false ↦ dedup_from same x xs >>= λ rest. ok (x ∷ rest)
]

abbrev pub dedup_by :
    (List Value → List Value → Result Bool) → List (List Value) → Result (List (List Value))
dedup_by same [] = ok []
dedup_by same (x ∷ xs) = dedup_from same x xs >>= λ rest. ok (x ∷ rest)

-- `columns.iter_mut().zip(row)`: each column takes its value of the row.
abbrev pub take_row : List OutputColumn → List Value → List OutputColumn
take_row [] row = []
take_row (c ∷ cs) [] = c ∷ cs
take_row (c ∷ cs) (v ∷ row) =
    record { proj = c.proj; data_of = c.data_of ++ (v ∷ []) } ∷ take_row cs row

abbrev pub take_rows : List OutputColumn → List (List Value) → List OutputColumn
take_rows cs [] = cs
take_rows cs (row ∷ rows) = take_rows (take_row cs row) rows

abbrev pub drained : OutputColumn → OutputColumn
drained c = record { proj = c.proj; data_of = [] }

-- `&row[idx]`
abbrev pub cell_of : List Value → ℕ → Result Value
cell_of row c = index (get_elem? row c)

-- The rows, sorted, and of those with one key that stand together the last.
unfoldable pub replace_rows : List ℕ → List ℕ → List (List Value) → Result (List (List Value))
replace_rows order_by_indexes pk_indexes rows = do
  sorted ← sort_by (compare_by cell_of order_by_indexes) rows
  kept ← dedup_by (same_key pk_indexes) (reverse sorted)
  ok (reverse kept)

unfoldable pub order_columns : EngineConfig → List OutputColumn → Result (List OutputColumn)
unfolding is_source replace_rows
order_columns config [] = err no_columns_specified
order_columns config (first ∷ rest) = do
  let columns : List OutputColumn = first ∷ rest
  let order_by_indexes : List ℕ =
      found (λ proj. position (λ (col : OutputColumn). eq_projection proj col.proj) columns)
        config.order_by
  let pk_indexes : List ℕ =
      found (λ pk. position (λ (col : OutputColumn). is_source pk col.proj.source) columns)
        config.primary_key
  rows ← push_columns (replicate (length first.data_of) []) columns
  kept ← replace_rows order_by_indexes pk_indexes rows
  ok (take_rows (map drained columns) kept)
