-- ===== src/Execution/Strategy.antt =====
-- sql/execution/select/strategy.rs: how many rows a scan has still to read.
use touchhouse.Prelude.{ℕ, ◌+◌, ◌^◌, Bool, true, false, Option, none, some, ltb, if◌then◌else◌}
use touchhouse.Outcome.{Result, ok, panics}

pub record Strategy : Type 0 where
  pub lines_to_read : ℕ
  pub lines_read : ℕ

abbrev pub min_of : ℕ → ℕ → ℕ
min_of a b = if ltb a b then a else b

-- The sum is checked to have 64 bits.
unfoldable pub new_strategy : Option ℕ → ℕ → ℕ → Bool → Result Strategy
new_strategy limit offset in_table_lines true =
    ok record { lines_to_read = in_table_lines; lines_read = 0 }
new_strategy none offset in_table_lines false =
    ok record { lines_to_read = in_table_lines; lines_read = 0 }
new_strategy (some limit) offset in_table_lines false =
    if ltb (min_of in_table_lines limit + offset) (2 ^ 64)
    then ok record { lines_to_read = min_of in_table_lines limit + offset; lines_read = 0 }
    else panics

unfoldable pub set_lines_read : Strategy → ℕ → Strategy
set_lines_read s num = record { lines_to_read = s.lines_to_read; lines_read = num }

unfoldable pub should_read_next_chunk : Strategy → Bool
should_read_next_chunk s = ltb s.lines_read s.lines_to_read
