-- ===== src/Sql/Names.antt =====
-- sql/mod.rs `validate_name`, and the statements that name a database or a table:
-- sql/logical_plan/create_database.rs and drop.rs.
use touchhouse.Prelude.{
  ℕ, String, Bool, true, false, ◌&&◌, ◌||◌, List, [], ◌∷◌, leb, ◌==◌, if◌then◌else◌,
}
use touchhouse.Outcome.{
  Result, ok, err, ◌>>=◌, invalid_database_name, invalid_number_of_params_specified,
  unsupported_command,
}
use touchhouse.Value.Literal.{codes}
use touchhouse.Storage.Table.{table_of}
use touchhouse.Sql.Ast.{ObjectName, identifier, function}
use touchhouse.Sql.Query.{ObjectType, table, database, other}
use touchhouse.Sql.Plan.{LogicalPlan, create_database, drop_database, drop_table}

-- `is_ascii_alphanumeric`, or `_`
abbrev pub is_name_char : ℕ → Bool
is_name_char c =
    (leb 48 c && leb c 57) || ((leb 65 c && leb c 90) || ((leb 97 c && leb c 122) || (c == 95)))

abbrev pub all_name_chars : List ℕ → Bool
all_name_chars [] = true
all_name_chars (c ∷ cs) = is_name_char c && all_name_chars cs

not_empty : List ℕ → Bool
not_empty [] = false
not_empty (c ∷ cs) = true

unfoldable pub validate_name : String → Bool
unfolding not_empty
validate_name name = not_empty (codes name) && all_name_chars (codes name)

unfoldable pub from_create_database : ObjectName → Bool → Result LogicalPlan
from_create_database (identifier name ∷ []) if_not_exists =
    if validate_name name
    then ok (create_database name if_not_exists)
    else err invalid_database_name
from_create_database _ if_not_exists = err invalid_database_name

unfoldable pub drop_named : ObjectName → Bool → Result LogicalPlan
drop_named (identifier name ∷ []) if_exists = ok (drop_database name if_exists)
drop_named (function ∷ []) if_exists = err invalid_database_name
drop_named _ if_exists = err invalid_number_of_params_specified

unfoldable pub from_drop : ObjectType → Bool → List ObjectName → Result LogicalPlan
unfolding drop_named
from_drop table if_exists (name ∷ []) = table_of name >>= λ t. ok (drop_table t if_exists)
from_drop table if_exists _ = err invalid_database_name
from_drop database if_exists (name ∷ []) = drop_named name if_exists
from_drop database if_exists _ = err invalid_number_of_params_specified
from_drop other if_exists names = err unsupported_command
