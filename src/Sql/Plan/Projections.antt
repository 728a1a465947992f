-- ===== src/Sql/Plan/Projections.antt =====
-- sql/sql_parser.rs: what a projection of the query stands for, a column, a value or an aggregate.
use touchhouse.Prelude.{
  String, Bool, false, Option, none, some, List, [], ◌∷◌, find, get_elem?, str_eq, if◌then◌else◌,
}
use touchhouse.Outcome.{
  Result, ok, err, panics, ◌>>=◌, ok_or, index, column_not_found, invalid_function_params,
  unknown_function, invalid_source, unsupported_command,
}
use touchhouse.Externs.{Externs}
use touchhouse.Value.{ValueType, get_type}
use touchhouse.Value.Literal.{try_from_untyped}
use touchhouse.Storage.Column.{ColumnDef, ProjectionValue, Projection, value, column_def}
use touchhouse.Sql.Ast.{
  Expr, ObjectName, ObjectNamePart, Arguments, Args, no_arguments, arguments, end, unnamed,
  wildcard, qualified_wildcard, named, expr_named,
}

unfoldable pub get_col_def : ProjectionValue → Option ColumnDef
get_col_def (column_def c) = some c
get_col_def (value v) = none

unfoldable pub get_field_type : ProjectionValue → ValueType
get_field_type (value v) = get_type v
get_field_type (column_def c) = c.field_type

pub data AggregateFunction : Type 0 where
  min max sum avg count : Projection → AggregateFunction

pub record AggregateProjection : Type 0 where
  pub alias : Option String
  pub source : AggregateFunction

pub data RawProjection : Type 0 where
  projection : Projection → RawProjection
  aggregate : AggregateProjection → RawProjection

-- Whether a projection goes by a name: its alias, or with none the name of its column.
goes_by : String → Option String → ProjectionValue → Bool
goes_by name (some alias) source = str_eq alias name
goes_by name none (column_def c) = str_eq c.name name
goes_by name none (value v) = false

-- `Projection::try_from_ident`
unfoldable pub try_from_ident : String → List Projection → Result Projection
unfolding goes_by
try_from_ident name available =
    ok_or (find (λ (p : Projection). goes_by name p.alias p.source) available) column_not_found

-- Exactly one argument.
only_argument : List Projection → (Projection → AggregateFunction) → Result AggregateFunction
only_argument (p ∷ []) f = ok (f p)
only_argument _ f = err invalid_function_params

-- The name is compared in lower case.
find_lower : String → List Projection → Result AggregateFunction
unfolding only_argument
find_lower name args =
    if str_eq name "min"
    then only_argument args min
    else if str_eq name "max"
    then only_argument args max
    else if str_eq name "sum"
    then only_argument args sum
    else if str_eq name "avg"
    then only_argument args avg
    else if str_eq name "count"
    then only_argument args count
    else err unknown_function

module _ (x : Externs) where
  unfoldable pub find_function : String → List Projection → Result AggregateFunction
  unfolding find_lower
  find_function name args = find_lower (x.to_lowercase name) args

  -- `try_parse` checks the function's name, then its parameters, then each argument.
  function_name : ObjectName → Result String
  function_name (ObjectNamePart.identifier name ∷ []) = ok name
  function_name _ = err unknown_function

  no_parameters : Arguments → Result (Unit {0})
  no_parameters no_arguments = ok tt
  no_parameters _ = err invalid_function_params

  plain_argument : RawProjection → Result Projection
  plain_argument (projection p) = ok p
  plain_argument (aggregate a) = err invalid_source

  unfoldable mutual
    unfolding function_name no_parameters plain_argument

    -- `RawProjection::try_from`
    pub raw_projection : Expr → List Projection → Result RawProjection
    raw_projection (Expr.identifier name) available =
        try_from_ident name available >>= λ p. ok (projection p)
    raw_projection (Expr.value v) available =
        try_from_untyped x v >>= λ u. ok (projection record { alias = none; source = value u })
    raw_projection (Expr.function name parameters args) available = function_name name >>= λ n.
        no_parameters parameters >>= λ _. arguments_of args available >>= λ ps.
        find_function n ps >>= λ f. ok (aggregate record { alias = none; source = f })
    raw_projection (Expr.binary_op op l r) available = err unsupported_command
    raw_projection (Expr.unary_op op e) available = err unsupported_command
    raw_projection (Expr.tuple es) available = err unsupported_command
    raw_projection (Expr.nested e) available = err unsupported_command
    raw_projection Expr.other available = err unsupported_command

    pub arguments_of : Arguments → List Projection → Result (List Projection)
    arguments_of no_arguments available = ok []
    arguments_of Arguments.subquery available = err invalid_function_params
    arguments_of (arguments clauses treated args) available =
        if clauses
        then err invalid_function_params
        else if treated
        then err invalid_function_params
        else args_of args available

    -- The wildcard is the first projection there is.
    pub args_of : Args → List Projection → Result (List Projection)
    args_of end available = ok []
    args_of (unnamed e args) available = raw_projection e available >>= plain_argument >>= λ p.
        args_of args available >>= λ ps. ok (p ∷ ps)
    args_of (wildcard args) available =
        index (get_elem? available 0) >>= λ p. args_of args available >>= λ ps. ok (p ∷ ps)
    args_of (qualified_wildcard args) available = err invalid_function_params
    args_of (named args) available = err invalid_function_params
    args_of (expr_named args) available = panics

-- `set_alias`
unfoldable pub set_alias : String → RawProjection → RawProjection
set_alias alias (projection p) = projection record { alias = some alias; source = p.source }
set_alias alias (aggregate a) = aggregate record { alias = some alias; source = a.source }
