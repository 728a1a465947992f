-- ===== src/Sql/CreateTable/Keys.antt =====
-- sql/logical_plan/create_table.rs: the columns and the keys of a CREATE TABLE that is accepted.
use touchhouse.Prelude.{
  ◌≡◌, refl, sym, ap, ◌∙◌, String, true, false, not, Option, none, some, List, [], ◌∷◌, find,
  length, is_empty, ltb, str_eq, eq_iff, All, Bool-cases, inl, inr, ◌⊎◌,
}
use mathlib.Core.Path.{subst}
use touchhouse.Outcome.{
  ok, ◌>>=◌, >>=-eq-ok, ok-eq, ok_or, ok_or-eq-ok, guard, guard-eq-ok, guard-not, Error,
  invalid_column_name, invalid_order_by, column_not_found, invalid_order_by_primary_key_pair,
  invalid_table_name, no_columns_specified,
}
use touchhouse.Externs.{Externs}
use touchhouse.Storage.Column.{ColumnDef}
use touchhouse.Sql.Ast.{Expr, Exprs, identifier, tuple, nested, nil, cons}
use touchhouse.Sql.Query.{TableColumn, CreateTable}
use touchhouse.Sql.Plan.{LogicalPlan, CreateTablePlan, create_table}
use touchhouse.Sql.Names.{validate_name}
use touchhouse.Storage.Table.{table_of}
use touchhouse.Sql.CreateTable.{
  has_name, find_column, parse_columns, field_type_of, parse_column_constraints, order_by_from,
  create_parse_order_by, parse_column_def_ident, primary_keys_of, parse_primary_key, all_equal,
  parse_keys, parse_table_options, from_create_table,
}

-- No two columns of one name.
abbrev pub AreDistinct : List ColumnDef → Type 0
AreDistinct [] = Unit
AreDistinct (c ∷ cs) = All (λ (d : ColumnDef). str_eq c.name d.name ≡ false) cs × AreDistinct cs

-- The column is one of the table: the one that its name finds.
abbrev pub IsFound : List ColumnDef → ColumnDef → Type 0
IsFound columns c = find_column columns c.name ≡ some c

-- The primary key is ORDER BY, or no longer and equal to the columns that ORDER BY starts with.
abbrev pub IsKeyPair : List ColumnDef → List ColumnDef → Type 0
IsKeyPair order_by primary_key =
    (primary_key ≡ order_by)
    ⊎ ((ltb (length order_by) (length primary_key) ≡ false)
        × (all_equal primary_key order_by ≡ true))

abbrev pub IsWellFormed : CreateTablePlan → Type 0
IsWellFormed p =
    (validate_name p.name.table ≡ true)
    × (All (λ (c : ColumnDef). validate_name c.name ≡ true) p.columns × AreDistinct p.columns)
    × (All (IsFound p.columns) p.order_by × All (IsFound p.columns) p.primary_key)
    × IsKeyPair p.order_by p.primary_key

has_name-cons :
    (n : String) (names : List String) (m : String)
    → has_name (n ∷ names) m ≡ false
    → (str_eq n m ≡ false) × (has_name names m ≡ false)
has_name-cons n names m h = elim (Bool-cases (str_eq n m)) [
  | inl e ↦ cc (rw e at h)
  | inr e ↦ (e, rw e at h)
]

All-split {ℓ κ μ ν} :
    {A : Type ℓ} {P : A → Type κ} {Q : A → Type μ} {R : A → Type ν} (l : List A)
    → ((a : A) → P a → Q a × R a)
    → All P l
    → All Q l × All R l
All-split [] f h = (tt, tt)
All-split (a ∷ l) f h =
    let (q, r) = f a h.0 in let (qs, rs) = All-split l f h.1 in ((q, qs), (r, rs))

-- The columns that are parsed: valid names, none of those seen, and no two alike.
abbrev Parsed : List String → List ColumnDef → Type 0
Parsed names out =
    All (λ (c : ColumnDef). validate_name c.name ≡ true) out
    × (All (λ (c : ColumnDef). has_name names c.name ≡ false) out × AreDistinct out)

columns-Parsed :
    (x : Externs) (names : List String) (cs : List TableColumn) (out : List ColumnDef)
    → parse_columns x names cs ≡ ok out
    → Parsed names out
unfolding parse_columns
columns-Parsed x names [] out h = subst (Parsed names) (ok-eq h) (tt, (tt, tt))
columns-Parsed x names (c ∷ cs) out h =
    let (u, v, h1) = >>=-eq-ok (guard (validate_name c.name) invalid_column_name) _ h in
    let (u', w, h2) = >>=-eq-ok (guard (not (has_name names c.name)) invalid_column_name) _ h1 in
    let (t, _, h3) = >>=-eq-ok (field_type_of c.data_type) _ h2 in
    let (k, _, h4) = >>=-eq-ok (parse_column_constraints x c.options t) _ h3 in
    let (rest, r, h5) = >>=-eq-ok (parse_columns x (c.name ∷ names) cs) _ h4 in
    let (valid, (seen, distinct)) = columns-Parsed x (c.name ∷ names) cs rest r in
    let (apart, fresh) =
      All-split rest (λ (d : ColumnDef). has_name-cons c.name names d.name) seen in
    subst (Parsed names) (ok-eq h5) (
      (guard-eq-ok _ invalid_column_name u v, valid),
      ((guard-not _ invalid_column_name u' w, fresh), (apart, distinct)),
    )

find_named :
    (columns : List ColumnDef) (name : String) (c : ColumnDef)
    → find_column columns name ≡ some c
    → c.name ≡ name
find_named [] name c h = cc h
find_named (d ∷ ds) name c h = elim (Bool-cases (str_eq d.name name)) [
  | inl e ↦
      sym (
        ap (λ (o : Option ColumnDef). elim o [ none ↦ name | some k ↦ k.name ]) (rw (e, find) at h))
      ∙ (eq_iff d.name name).0 e
  | inr e ↦ find_named ds name c (rw (e, find) at h)
]

name-IsFound :
    (columns : List ColumnDef) (name : String) (e : Error) (c : ColumnDef)
    → ok_or (find_column columns name) e ≡ ok c
    → IsFound columns c
name-IsFound columns name e c h =
    let f : find_column columns name ≡ some c = ok_or-eq-ok (find_column columns name) e h in
    ap (find_column columns) (find_named columns name c f) ∙ f

order_by-IsFound :
    (columns : List ColumnDef) (names : List String) (es : List Expr) (out : List ColumnDef)
    → order_by_from columns names es ≡ ok out
    → All (IsFound columns) out
unfolding order_by_from
order_by-IsFound columns names [] out h = subst (All (IsFound columns)) (ok-eq h) tt
order_by-IsFound columns names (identifier name ∷ es) out h =
    let (c, f, h1) = >>=-eq-ok (ok_or (find_column columns name) invalid_order_by) _ h in
    let (u, _, h2) = >>=-eq-ok (guard (not (has_name names name)) invalid_order_by) _ h1 in
    let (rest, r, h3) = >>=-eq-ok (order_by_from columns (name ∷ names) es) _ h2 in
    subst (All (IsFound columns)) (ok-eq h3) (
      name-IsFound columns name invalid_order_by c f,
      order_by-IsFound columns (name ∷ names) es rest r,
    )
order_by-IsFound columns names (_ ∷ es) out h = cc h

parsed_order_by :
    (columns : List ColumnDef) (es : List Expr) (out : List ColumnDef)
    → create_parse_order_by es columns ≡ ok out
    → All (IsFound columns) out
unfolding create_parse_order_by
parsed_order_by columns [] out h = cc h
parsed_order_by columns (e ∷ es) out h = order_by-IsFound columns [] (e ∷ es) out h

single-IsFound :
    (columns : List ColumnDef) (name : String) (out : List ColumnDef)
    → (parse_column_def_ident name columns >>= λ c. ok (c ∷ [])) ≡ ok out
    → All (IsFound columns) out
single-IsFound columns name out h =
    let (c, f, h1) = >>=-eq-ok (parse_column_def_ident name columns) _ h in
    subst (All (IsFound columns)) (ok-eq h1) (name-IsFound columns name column_not_found c f, tt)

tuple-IsFound :
    (columns : List ColumnDef) (es : Exprs) (out : List ColumnDef)
    → primary_keys_of es columns ≡ ok out
    → All (IsFound columns) out
unfolding primary_keys_of
tuple-IsFound columns nil out h = subst (All (IsFound columns)) (ok-eq h) tt
tuple-IsFound columns (cons (identifier name) es) out h =
    let (c, f, h1) = >>=-eq-ok (parse_column_def_ident name columns) _ h in
    let (cs, r, h2) = >>=-eq-ok (primary_keys_of es columns) _ h1 in
    subst (All (IsFound columns)) (ok-eq h2)
      (name-IsFound columns name column_not_found c f, tuple-IsFound columns es cs r)
tuple-IsFound columns (cons _ es) out h = cc h

primary-IsFound :
    (columns : List ColumnDef) (e : Expr) (out : List ColumnDef)
    → parse_primary_key e columns ≡ ok out
    → All (IsFound columns) out
unfolding parse_primary_key
primary-IsFound columns (identifier name) out h = single-IsFound columns name out h
primary-IsFound columns (tuple keys) out h = tuple-IsFound columns keys out h
primary-IsFound columns (nested (identifier name)) out h = single-IsFound columns name out h
primary-IsFound columns _ out h = cc h

-- The two keys that are found.
abbrev AreKeys : List ColumnDef → List ColumnDef × List ColumnDef → Type 0
AreKeys columns keys =
    (All (IsFound columns) keys.0 × All (IsFound columns) keys.1) × IsKeyPair keys.0 keys.1

keys_parsed :
    (columns : List ColumnDef) (o : Option (List Expr)) (p : Option Expr)
    (keys : List ColumnDef × List ColumnDef)
    → parse_keys o p columns ≡ ok keys
    → AreKeys columns keys
unfolding parse_keys
keys_parsed columns (some os) (some p) keys h =
    let (order_by, a, h1) = >>=-eq-ok (create_parse_order_by os columns) _ h in
    let (primary_key, b, h2) = >>=-eq-ok (parse_primary_key p columns) _ h1 in
    let (u, short, h3) =
      >>=-eq-ok
        (guard (not (ltb (length order_by) (length primary_key))) invalid_order_by_primary_key_pair)
        _ h2 in
    let (w, same, h4) =
      >>=-eq-ok (guard (all_equal primary_key order_by) invalid_order_by_primary_key_pair) _ h3 in
    subst (AreKeys columns) (ok-eq h4) (
      (parsed_order_by columns os order_by a, primary-IsFound columns p primary_key b),
      inr (
        guard-not _ invalid_order_by_primary_key_pair u short,
        guard-eq-ok _ invalid_order_by_primary_key_pair w same,
      ),
    )
keys_parsed columns (some os) none keys h =
    let (order_by, a, h1) = >>=-eq-ok (create_parse_order_by os columns) _ h in
    let f : All (IsFound columns) order_by = parsed_order_by columns os order_by a in
    subst (AreKeys columns) (ok-eq h1) ((f, f), inl refl)
keys_parsed columns none (some p) keys h =
    let (primary_key, b, h1) = >>=-eq-ok (parse_primary_key p columns) _ h in
    let f : All (IsFound columns) primary_key = primary-IsFound columns p primary_key b in
    subst (AreKeys columns) (ok-eq h1) ((f, f), inl refl)
keys_parsed [] none none keys h = cc h
keys_parsed (c ∷ cs) none none keys h =
    let f : IsFound (c ∷ cs) c = rw ((eq_iff c.name c.name).1 refl, find) refl in
    subst (AreKeys (c ∷ cs)) (ok-eq h) (((f, tt), (f, tt)), inl refl)

plan_of : LogicalPlan → CreateTablePlan → CreateTablePlan
plan_of (create_table p) q = p
plan_of _ q = q

-- A CREATE TABLE that is accepted has a table and columns of valid names, no two columns of one
-- name, every column of ORDER BY and of the primary key is the table's column of that name, and
-- the primary key is ORDER BY itself, or is no longer and equals the columns that ORDER BY starts
-- with.
pub from_create_table-IsWellFormed :
    (x : Externs) (statement : CreateTable) (p : CreateTablePlan)
    → from_create_table x statement ≡ ok (create_table p)
    → IsWellFormed p
unfolding from_create_table plan_of
from_create_table-IsWellFormed x statement p h =
    let (t, _, h1) = >>=-eq-ok (table_of statement.name) _ h in
    let (u, v, h2) = >>=-eq-ok (guard (validate_name t.table) invalid_table_name) _ h1 in
    let (w, _, h3) =
      >>=-eq-ok (guard (not (is_empty statement.columns)) no_columns_specified) _ h2 in
    let (columns, parsed, h4) = >>=-eq-ok (parse_columns x [] statement.columns) _ h3 in
    let (settings, _, h5) = >>=-eq-ok (parse_table_options x statement.table_options) _ h4 in
    let (keys, found, h6) =
      >>=-eq-ok (parse_keys statement.order_by statement.primary_key columns) _ h5 in
    let (valid, (_, distinct)) = columns-Parsed x [] statement.columns columns parsed in
    let (both, pair) = keys_parsed columns statement.order_by statement.primary_key keys found in
    subst IsWellFormed (ap (λ l. plan_of l p) (ok-eq h6))
      (guard-eq-ok _ invalid_table_name u v, (valid, distinct), both, pair)
