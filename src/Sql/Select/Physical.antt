-- ===== src/Sql/Select/Physical.antt =====
-- sql/logical_plan/select.rs and `SelectNode::try_from` of sql/sql_parser.rs: the plan that
-- `from_query` builds, clause upon clause, and the node that is collected from it.
use touchhouse.Prelude.{
  true, false, Option, none, some, List, [], ◌∷◌, ◌≡◌, refl, sym, ap, ◌∙◌, is_empty, ◌&&◌, not,
  Bool-cases, inl, inr,
}
use mathlib.Core.Path.{subst}
use touchhouse.Outcome.{ok, >>=-eq-ok, ok-eq, traverse, unsupported_command, guard}
use touchhouse.Externs.{Externs}
use touchhouse.Storage.Column.{Projection}
use touchhouse.Storage.Table.{TableDef, TableSchema, table_of}
use touchhouse.Sql.Ast.{Expr}
use touchhouse.Sql.Query.{
  Query, SetExpr, Tables, TableFactor, SelectItem, GroupByExpr, OrderBy, LimitClause, query, select,
  values, nil, cons, derived, other_factor, limit_offset,
}
use touchhouse.Sql.Plan.{
  LogicalPlan, LogicalSource, PhysicalPlan, ScanSource, SelectFields, SelectNode, scan, projection,
  filter, order_by, limit, aggregate, having, create_database, create_table, insert, drop_database,
  drop_table, subquery, select_node, collect, collect_source, no_fields, select_node_of,
  physical_plan,
}
use touchhouse.Sql.Plan.Projections.{AggregateProjection}
use touchhouse.Sql.Select.{
  from_query, from_body, from_source, build_scan_source, source_of, extract_columns_from_plan,
}
use touchhouse.Sql.Select.Clauses.{
  parse_projections, apply_filter, apply_projection, apply_group_by, apply_having, apply_order_by,
  apply_limit, parse_order_by, parse_limit_value, parse_offset_value, parse_group_by_expressions,
  validate_all_columns_in_group_by,
}

-- A plan passes the fields on to another, changed by `g`, and leaves the WHERE and the columns.
record Passes (outer inner : LogicalPlan) : Type 0 where
  g : SelectFields → SelectFields
  passes : (f : SelectFields) → collect outer f ≡ collect inner (g f)
  same_filter : (f : SelectFields) → (g f).filter ≡ f.filter

id-Passes : (plan : LogicalPlan) → Passes plan plan
id-Passes plan = record { g = λ f. f; passes = λ f. refl; same_filter = λ f. refl }

then-Passes : {a b c : LogicalPlan} → Passes a b → Passes b c → Passes a c
then-Passes p q = record {
  g = λ f. q.g (p.g f);
  passes = λ f. p.passes f ∙ q.passes (p.g f);
  same_filter = λ f. q.same_filter (p.g f) ∙ p.same_filter f;
}

limit-Passes :
    (plan : LogicalPlan) (c : Option LimitClause) (out : LogicalPlan)
    → apply_limit plan c ≡ ok out
    → Passes out plan
unfolding apply_limit collect
limit-Passes plan none out h = subst (λ p. Passes p plan) (ok-eq h) (id-Passes plan)
limit-Passes plan (some (limit_offset l o)) out h =
    let (n, _, h1) = >>=-eq-ok (parse_limit_value l) _ h in
    let (m, _, h2) = >>=-eq-ok (parse_offset_value o) _ h1 in
    subst (λ p. Passes p plan) (ok-eq h2)
      record {
        g = λ f. record f { limit = n; offset = m };
        passes = λ f. refl;
        same_filter = λ f. refl;
      }
limit-Passes plan (some LimitClause.other) out h = cc h

order-Passes :
    (plan : LogicalPlan) (o : Option OrderBy) (read : List Projection) (out : LogicalPlan)
    → apply_order_by plan o read ≡ ok out
    → Passes out plan
unfolding apply_order_by collect
order-Passes plan none read out h = subst (λ p. Passes p plan) (ok-eq h) (id-Passes plan)
order-Passes plan (some OrderBy.all) read out h =
    subst (λ p. Passes p plan) (ok-eq h)
      record {
        g = λ f. record f { order_by = some (read ∷ []) };
        passes = λ f. refl;
        same_filter = λ f. refl;
      }
order-Passes plan (some (OrderBy.expressions es)) read out h =
    let (projs, _, h1) = >>=-eq-ok (traverse (λ e. parse_order_by e read) es) _ h in
    subst (λ p. Passes p plan) (ok-eq h1)
      record {
        g = λ f. record f { order_by = some projs };
        passes = λ f. refl;
        same_filter = λ f. refl;
      }

having-Passes : (plan : LogicalPlan) (e : Option Expr) → Passes (apply_having plan e) plan
unfolding apply_having collect
having-Passes plan none = id-Passes plan
having-Passes plan (some e) = record {
  g = λ f. record f { having = some e };
  passes = λ f. refl;
  same_filter = λ f. refl;
}

aggregate-Passes :
    (plan : LogicalPlan) (aggs : List AggregateProjection) (g : List Projection)
    → Passes (aggregate aggs g plan) plan
unfolding collect
aggregate-Passes plan aggs g = record {
  g = λ f. record f { aggregate_cols = aggs; group_by = g };
  passes = λ f. refl;
  same_filter = λ f. refl;
}

group-Passes :
    (x : Externs) (plan : LogicalPlan) (g : GroupByExpr) (read : List Projection)
    (aggs : List AggregateProjection) (available : List Projection) (out : LogicalPlan)
    → apply_group_by x plan g read aggs available ≡ ok out
    → Passes out plan
unfolding apply_group_by validate_all_columns_in_group_by
group-Passes x plan (GroupByExpr.all true) read aggs available out h = cc h
group-Passes x plan (GroupByExpr.all false) read aggs available out h =
    subst (λ p. Passes p plan) (ok-eq h) (aggregate-Passes plan aggs read)
group-Passes x plan (GroupByExpr.expressions es true) read aggs available out h = cc h
group-Passes x plan (GroupByExpr.expressions es false) read aggs available out h =
    elim (Bool-cases (is_empty es && is_empty aggs)) [
      | inl e ↦ subst (λ p. Passes p plan) (ok-eq (rw e at h)) (id-Passes plan)
      | inr e ↦
          let (gs, _, h1) = >>=-eq-ok (parse_group_by_expressions x es available) _ (rw e at h) in
          let (_, _, h2) =
            >>=-eq-ok
              (guard (not (is_empty gs && (not (is_empty read) && not (is_empty aggs))))
                unsupported_command)
              _ h1 in
          let (_, _, h3) = >>=-eq-ok (validate_all_columns_in_group_by x read gs) _ h2 in
          subst (λ p. Passes p plan) (ok-eq h3) (aggregate-Passes plan aggs gs)
    ]

-- The plan of a WHERE and a projection, collected.
bottom :
    (source : LogicalSource) (s : ScanSource) (selection : Option Expr) (projs : List Projection)
    (f : SelectFields)
    → collect_source source ≡ ok s
    → f.filter ≡ none
    → (fields : SelectFields) × (collect
          (apply_projection (apply_filter (scan source) selection) projs)
          f
        ≡ ok (select_node s fields))
      × (fields.columns ≡ projs)
      × (fields.filter ≡ selection)
unfolding apply_projection apply_filter collect
bottom source s none projs f e n = (record f { columns = projs }, rw e refl, refl, n)
bottom source s (some w) projs f e n =
    (record f { columns = projs; filter = some w }, rw e refl, refl, refl)

physical_of_node :
    (plan : LogicalPlan) (n : SelectNode)
    → select_node_of plan ≡ ok n
    → physical_plan plan ≡ ok (PhysicalPlan.select n)
unfolding physical_plan select_node_of collect
physical_of_node (create_database a b) n h = cc h
physical_of_node (create_table c) n h = cc h
physical_of_node (insert t c) n h = cc h
physical_of_node (drop_database a b) n h = cc h
physical_of_node (drop_table t b) n h = cc h
physical_of_node (scan s) n h = rw h refl
physical_of_node (projection p plan) n h = rw h refl
physical_of_node (filter e plan) n h = rw h refl
physical_of_node (order_by p plan) n h = rw h refl
physical_of_node (limit l o plan) n h = rw h refl
physical_of_node (aggregate a g plan) n h = rw h refl
physical_of_node (having e plan) n h = rw h refl

node_collected :
    (plan : LogicalPlan) (n : SelectNode)
    → select_node_of plan ≡ ok n
    → collect_source (subquery plan) ≡ ok (ScanSource.subquery n)
unfolding select_node_of collect_source
node_collected plan n h = rw h refl

module _ (x : Externs) (tables : TableDef → Option TableSchema) where
  -- What becomes of a SELECT: a node on the given source, with its columns and its WHERE.
  abbrev pub Collected :
      LogicalPlan → ScanSource → List SelectItem → Option Expr → LogicalSource → Type 0
  Collected plan s items selection source =
      (fields : SelectFields) × (available : List Projection) × (aggregates : List
        AggregateProjection)
      × (select_node_of plan ≡ ok (select_node s fields))
      × (extract_columns_from_plan x tables (scan source) ≡ ok available)
      × (parse_projections x items available ≡ ok (fields.columns, aggregates))
      × (fields.filter ≡ selection)

  source-Collected :
      (source : LogicalSource) (s : ScanSource) (items : List SelectItem) (selection : Option Expr)
      (g : GroupByExpr) (hav : Option Expr) (o : Option OrderBy) (l : Option LimitClause)
      (plan : LogicalPlan)
      → collect_source source ≡ ok s
      → from_source x tables source items selection g hav o l ≡ ok plan
      → Collected plan s items selection source
  unfolding from_source select_node_of
  source-Collected source s items selection g hav o l plan c h =
      let (available, e1, h1) = >>=-eq-ok (extract_columns_from_plan x tables (scan source)) _ h in
      let (projs, e2, h2) = >>=-eq-ok (parse_projections x items available) _ h1 in
      let (grouped, e3, h3) =
        >>=-eq-ok
          (apply_group_by x (apply_projection (apply_filter (scan source) selection) projs.0) g
            projs.0 projs.1 available)
          _ h2 in
      let (ordered, e4, h4) =
        >>=-eq-ok (apply_order_by (apply_having grouped hav) o projs.0) _ h3 in
      let all = then-Passes (limit-Passes ordered l plan h4) (
        then-Passes (order-Passes (apply_having grouped hav) o projs.0 ordered e4) (
          then-Passes (having-Passes grouped hav)
            (group-Passes x _ g projs.0 projs.1 available grouped e3))) in
      let (fields, k, cols, fil) =
        bottom source s selection projs.0 (all.g no_fields) c (all.same_filter no_fields) in
      (
        fields,
        available,
        projs.1,
        all.passes no_fields ∙ k,
        e1,
        e2 ∙ ap (λ z. ok (z, projs.1)) (sym cols),
        fil,
      )

  mutual
    unfolding from_query build_scan_source source_of collect_source from_body collect

    pub query_collected :
        (q : Query) (plan : LogicalPlan)
        → from_query x tables q ≡ ok plan
        → (n : SelectNode) × (select_node_of plan ≡ ok n)
    query_collected (query (select from items sel g hav) o l) plan h =
        let (source, e, h1) = >>=-eq-ok (build_scan_source x tables from) _ h in
        let (s, c) = tables_collected from source e in
        let got = source-Collected source s items sel g hav o l plan c h1 in
        (select_node s got.0, got.3)
    query_collected (query (values rows) o l) plan h = cc h
    query_collected (query SetExpr.other o l) plan h = cc h

    tables_collected :
        (from : Tables) (source : LogicalSource)
        → build_scan_source x tables from ≡ ok source
        → (s : ScanSource) × (collect_source source ≡ ok s)
    tables_collected nil source h = cc h
    tables_collected (cons f j (cons f' j' ts)) source h = cc h
    tables_collected (cons f true nil) source h = cc h
    tables_collected (cons f false nil) source h = factor_collected f source h

    factor_collected :
        (f : TableFactor) (source : LogicalSource)
        → source_of x tables f ≡ ok source
        → (s : ScanSource) × (collect_source source ≡ ok s)
    factor_collected (TableFactor.table name) source h =
        let (t, _, h1) = >>=-eq-ok (table_of name) _ h in
        subst (λ z. (s : ScanSource) × (collect_source z ≡ ok s)) (ok-eq h1)
          (ScanSource.table t, refl)
    factor_collected (derived q) source h =
        let (plan, e, h1) = >>=-eq-ok (from_query x tables q) _ h in
        let (n, c) = query_collected q plan e in
        subst (λ z. (s : ScanSource) × (collect_source z ≡ ok s)) (ok-eq h1)
          (ScanSource.subquery n, node_collected plan n c)
    factor_collected other_factor source h = cc h

  -- A SELECT that `from_query` accepts is also accepted by `PhysicalPlan::try_from`: the result
  -- is a SELECT node on the collected source, whose columns are those that `parse_projections`
  -- found among the columns of the source, and whose filter is the WHERE of the query.
  pub from_query-physical_plan :
      (from : Tables) (items : List SelectItem) (selection : Option Expr) (g : GroupByExpr)
      (hav : Option Expr) (o : Option OrderBy) (l : Option LimitClause) (plan : LogicalPlan)
      → from_query x tables (query (select from items selection g hav) o l) ≡ ok plan
      → (source : LogicalSource) × (s : ScanSource) × (fields : SelectFields) × (available : List
          Projection)
        × (aggregates : List AggregateProjection) × (physical_plan plan
            ≡ ok (PhysicalPlan.select (select_node s fields)))
        × (build_scan_source x tables from ≡ ok source)
        × (collect_source source ≡ ok s)
        × (extract_columns_from_plan x tables (scan source) ≡ ok available)
        × (parse_projections x items available ≡ ok (fields.columns, aggregates))
        × (fields.filter ≡ selection)
  unfolding from_query from_body
  from_query-physical_plan from items selection g hav o l plan h =
      let (source, e, h1) = >>=-eq-ok (build_scan_source x tables from) _ h in
      let (s, c) = tables_collected from source e in
      let (fields, available, aggregates, n, a, p, f) =
        source-Collected source s items selection g hav o l plan c h1 in
      (
        source,
        s,
        fields,
        available,
        aggregates,
        physical_of_node plan (select_node s fields) n,
        e,
        c,
        a,
        p,
        f,
      )
