-- ===== src/Tests/Flats.antt =====
-- A query over a query over a query, flattened.
use touchhouse.Prelude.{◌≡◌, refl, none, some, [], ◌∷◌, List}
use touchhouse.Storage.Column.{Projection, projection_of}
use touchhouse.Sql.Ast.{Expr}
use touchhouse.Sql.Flatten.{flatten}
use touchhouse.Sql.Flatten.Levels.{Level, nested, limited_to, single}
use touchhouse.Sql.Flatten.Single.{flatten-single}
use touchhouse.Tests.Fixtures.{col_a, table_t}

abbrev age : Projection
age = projection_of col_a

abbrev name : Projection
name = projection_of record col_a { name = "name" }

abbrev id : Projection
id = projection_of record col_a { name = "id" }

abbrev outer : Level
outer = record {
  limited = some (some 2, 2);
  ordered = some ((age ∷ name ∷ []) ∷ []);
  columns = age ∷ name ∷ [];
  filtered = some (Expr.identifier "filter3");
}

abbrev middle : Level
middle = record {
  limited = none;
  ordered = none;
  columns = age ∷ name ∷ id ∷ [];
  filtered = some (Expr.identifier "filter2");
}

abbrev inner : Level
inner = record {
  limited = some (some 4, 6);
  ordered = some ((age ∷ id ∷ []) ∷ []);
  columns = age ∷ name ∷ id ∷ [];
  filtered = some (Expr.identifier "filter1");
}

abbrev all : List Level
all = outer ∷ middle ∷ inner ∷ []

flatten-single_example :
    flatten (nested outer (middle ∷ inner ∷ []) table_t)
    ≡ limited_to (some 2) 8 (single all (age ∷ name ∷ []) table_t)
flatten-single_example = flatten-single outer (middle ∷ inner ∷ []) table_t age (name ∷ []) refl
