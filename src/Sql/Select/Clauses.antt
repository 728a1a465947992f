-- ===== src/Sql/Select/Clauses.antt =====
-- sql/logical_plan/select.rs: the clauses of a SELECT.
use touchhouse.Prelude.{
  ℕ, zero, suc, Bool, not, ◌&&◌, Option, none, some, List, [], ◌∷◌, ◌++◌, any, is_empty,
  if◌then◌else◌,
}
use touchhouse.Outcome.{
  Result, ok, err, ◌>>=◌, ok_or, guard, traverse, unsupported_command, invalid_source,
  column_not_in_group_by, invalid_limit_value, invalid_order_by,
}
use touchhouse.Externs.{Externs}
use touchhouse.Value.Literal.{parse_unsigned, codes}
use touchhouse.Storage.Column.{Projection, eq_projection}
use touchhouse.Sql.Ast.{Expr, Exprs, SqlValue, identifier, tuple, nested, nil, cons}
use touchhouse.Sql.Query.{
  SelectItem, GroupByExpr, OrderBy, LimitClause, wildcard, qualified_wildcard, unnamed_expr,
  expr_with_alias, limit_offset,
}
use touchhouse.Sql.Plan.{LogicalPlan, projection, filter, order_by, limit, aggregate, having}
use touchhouse.Sql.Plan.Projections.{
  AggregateProjection, RawProjection, raw_projection, set_alias, try_from_ident,
}

-- `projs.contains(proj)`
abbrev pub contains : List Projection → Projection → Bool
contains projs p = any (λ q. eq_projection q p) projs

abbrev pub add_new : List Projection → List Projection → List Projection
add_new read [] = read
add_new read (p ∷ ps) = if contains read p then add_new read ps else add_new (read ++ (p ∷ [])) ps

unfoldable pub expand_wildcard : Option ℕ → List Projection → List Projection → List Projection
expand_wildcard none read available = read
expand_wildcard (some zero) read available = available
expand_wildcard (some (suc i)) read available = add_new read available

-- `add_projection`
abbrev pub add_projection :
    RawProjection
    → List Projection × List AggregateProjection
    → List Projection × List AggregateProjection
add_projection (RawProjection.projection p) acc = (acc.0 ++ (p ∷ []), acc.1)
add_projection (RawProjection.aggregate a) acc = (acc.0, acc.1 ++ (a ∷ []))

-- `validate_no_wildcard_before`
abbrev pub validate_no_wildcard_before : Option ℕ → Result (Unit {0})
validate_no_wildcard_before none = ok tt
validate_no_wildcard_before (some i) = err unsupported_command

projection_of_raw : RawProjection → Result Projection
projection_of_raw (RawProjection.projection p) = ok p
projection_of_raw (RawProjection.aggregate a) = err invalid_source

module _ (x : Externs) where
  -- The loop of `parse_projections` from place `idx` on.
  unfoldable pub parse_items :
      ℕ
      → Option ℕ
      → List SelectItem
      → List Projection
      → List Projection × List AggregateProjection
      → Result (List Projection × List AggregateProjection)
  parse_items idx seen [] available acc = ok (expand_wildcard seen acc.0 available, acc.1)
  parse_items idx seen (wildcard ∷ items) available acc =
      validate_no_wildcard_before seen >>= λ _. parse_items (suc idx) (some idx) items available acc
  parse_items idx seen (unnamed_expr e ∷ items) available acc =
      validate_no_wildcard_before seen >>= λ _. raw_projection x e available >>= λ raw.
      parse_items (suc idx) seen items available (add_projection raw acc)
  parse_items idx seen (expr_with_alias e alias ∷ items) available acc =
      validate_no_wildcard_before seen >>= λ _. raw_projection x e available >>= λ raw.
      parse_items (suc idx) seen items available (add_projection (set_alias alias raw) acc)
  parse_items idx seen (qualified_wildcard ∷ items) available acc = err unsupported_command

  unfoldable pub parse_projections :
      List SelectItem → List Projection → Result (List Projection × List AggregateProjection)
  parse_projections [] available = err unsupported_command
  parse_projections (item ∷ items) available = parse_items 0 none (item ∷ items) available ([], [])

  unfoldable pub parse_group_by_expressions : List Expr → List Projection → Result (List Projection)
  unfolding projection_of_raw
  parse_group_by_expressions expressions available =
      traverse (λ e. raw_projection x e available >>= projection_of_raw) expressions

  -- `validate_all_columns_in_group_by`
  unfoldable pub validate_all_columns_in_group_by :
      List Projection → List Projection → Result (Unit {0})
  validate_all_columns_in_group_by read group_by =
      guard (not (any (λ p. not (contains group_by p)) read)) column_not_in_group_by

  unfoldable pub apply_group_by :
      LogicalPlan
      → GroupByExpr
      → List Projection
      → List AggregateProjection
      → List Projection
      → Result LogicalPlan
  unfolding validate_all_columns_in_group_by
  apply_group_by plan (GroupByExpr.all modified) read aggregates available =
      if modified then err unsupported_command else ok (aggregate aggregates read plan)
  apply_group_by plan (GroupByExpr.expressions es modified) read aggregates available =
      if modified
      then err unsupported_command
      else if is_empty es && is_empty aggregates
      then ok plan
      else do
        group_by ← parse_group_by_expressions es available
        _ ←
            guard (not (is_empty group_by && (not (is_empty read) && not (is_empty aggregates))))
              unsupported_command
        _ ← validate_all_columns_in_group_by read group_by
        ok (aggregate aggregates group_by plan)

unfoldable pub apply_filter : LogicalPlan → Option Expr → LogicalPlan
apply_filter plan none = plan
apply_filter plan (some e) = filter e plan

unfoldable pub apply_projection : LogicalPlan → List Projection → LogicalPlan
apply_projection plan projs = projection projs plan

unfoldable pub apply_having : LogicalPlan → Option Expr → LogicalPlan
apply_having plan none = plan
apply_having plan (some e) = having e plan

-- The identifiers of a tuple, each found.
keys_of : Exprs → List Projection → Result (List Projection)
keys_of nil available = ok []
keys_of (cons (identifier name) es) available =
    try_from_ident name available >>= λ p. keys_of es available >>= λ ps. ok (p ∷ ps)
keys_of (cons _ es) available = err invalid_order_by

unfoldable pub parse_order_by : Expr → List Projection → Result (List Projection)
unfolding keys_of
parse_order_by (identifier name) available = try_from_ident name available >>= λ p. ok (p ∷ [])
parse_order_by (tuple keys) available = keys_of keys available
parse_order_by (nested (identifier name)) available =
    try_from_ident name available >>= λ p. ok (p ∷ [])
parse_order_by _ available = err invalid_order_by

unfoldable pub apply_order_by : LogicalPlan → Option OrderBy → List Projection → Result LogicalPlan
apply_order_by plan none read = ok plan
apply_order_by plan (some OrderBy.all) read = ok (order_by (read ∷ []) plan)
apply_order_by plan (some (OrderBy.expressions es)) read =
    traverse (λ e. parse_order_by e read) es >>= λ projs. ok (order_by projs plan)

-- A literal number that fits a `usize`.
count_of : Expr → Result ℕ
count_of (Expr.value (SqlValue.number n _)) =
    ok_or (parse_unsigned 64 (codes n)) invalid_limit_value
count_of _ = err invalid_limit_value

pub parse_limit_value : Option Expr → Result (Option ℕ)
unfolding count_of
parse_limit_value none = ok none
parse_limit_value (some e) = count_of e >>= λ n. ok (some n)

pub parse_offset_value : Option Expr → Result ℕ
unfolding count_of
parse_offset_value none = ok 0
parse_offset_value (some e) = count_of e

unfoldable pub apply_limit : LogicalPlan → Option LimitClause → Result LogicalPlan
unfolding parse_limit_value parse_offset_value
apply_limit plan none = ok plan
apply_limit plan (some (limit_offset l o)) =
    parse_limit_value l >>= λ n. parse_offset_value o >>= λ m. ok (limit n m plan)
apply_limit plan (some LimitClause.other) = err invalid_limit_value
