-- ===== src/Planner/Plans.antt =====
-- The plans that the planner builds.
use space_db.Base.{
  ℕ, ◌≡◌, ◌↔◌, Bool, true, false, not, ◌&&◌, ◌||◌, List, [], ◌∷◌, Option, none, some, Result, ok,
  err, if◌then◌else◌, >>=-eq-ok, ok-injective, Bool-cases, inl, inr,
}
use mathlib.Core.Path.{subst}
use space_db.Types.{Value, value_null, value_integer, SqlError}
use space_db.Types.Int64.{pos, negsuc}
use space_db.Ast.{
  Expression, null, boolean_literal, integer_literal, float_literal, string_literal,
  operation_expression, function_expression, column_reference, OrderBy, SelectItem, FromItem,
  table_from_item, join_from_item, SelectStatement, Statement, create_table_statement,
  insert_statement, select_statement, update_statement, delete_statement,
}
use space_db.Executor.Expressions.{value_from_expression}
use space_db.Planner.{
  Node, create_table_node, insert_node, scan_node, filter_node, order_node, limit_node, offset_node,
  projection_node, aggregate_node, nested_loop_join_node, update_node, delete_node,
  table_from_create_statement, validate_join_item, build_from_item, is_right, is_outer, join_nodes,
  with_filter, with_count, with_order, with_projection, count_of, integer_count, build_select,
  build, group_column, check_items, is_grouped,
}

-- A node whose executor returns rows: it only reads.
abbrev pub IsQuery : Node → Type 0
IsQuery (scan_node name) = Unit
IsQuery (filter_node source p) = IsQuery source
IsQuery (order_node source o) = IsQuery source
IsQuery (limit_node source n) = IsQuery source
IsQuery (offset_node source n) = IsQuery source
IsQuery (projection_node source items) = IsQuery source
IsQuery (aggregate_node source items g) = IsQuery source
IsQuery (nested_loop_join_node l r p outer) = IsQuery l × IsQuery r
IsQuery (create_table_node t) = ⊥
IsQuery (insert_node name columns values) = ⊥
IsQuery (update_node name source a) = ⊥
IsQuery (delete_node name source) = ⊥

-- A plan in which every source is a query, so that the assertions `sourceResult.(RowsResult)` hold.
abbrev pub IsPlan : Node → Type 0
IsPlan (create_table_node t) = Unit
IsPlan (insert_node name columns values) = Unit
IsPlan (update_node name source a) = IsQuery source
IsPlan (delete_node name source) = IsQuery source
IsPlan node = IsQuery node

join_nodes-IsQuery :
    (left right : Result SqlError Node) (p : Option Expression) (outer : Bool) (node : Node)
    → ((n : Node) → left ≡ ok n → IsQuery n)
    → ((n : Node) → right ≡ ok n → IsQuery n)
    → join_nodes left right p outer ≡ ok node
    → IsQuery node
unfolding join_nodes
join_nodes-IsQuery left right p outer node hl hr h =
    let (l, el, rest) = >>=-eq-ok left _ h in
    let (r, er, e) = >>=-eq-ok right _ rest in subst IsQuery (ok-injective e) (hl l el, hr r er)

build_from_item-IsQuery :
    (item : FromItem) (node : Node) → build_from_item item ≡ ok node → IsQuery node
unfolding build_from_item
build_from_item-IsQuery (table_from_item name) node h = subst IsQuery (ok-injective h) tt
build_from_item-IsQuery (join_from_item l r kind p) node h =
    let (u, valid, rest) = >>=-eq-ok (validate_join_item kind p) _ h in
    elim (Bool-cases (is_right kind)) [
      | inl right ↦
          join_nodes-IsQuery (build_from_item r) (build_from_item l) p (is_outer kind) node
            (build_from_item-IsQuery r) (build_from_item-IsQuery l) (rw right at rest)
      | inr left ↦
          join_nodes-IsQuery (build_from_item l) (build_from_item r) p (is_outer kind) node
            (build_from_item-IsQuery l) (build_from_item-IsQuery r) (rw left at rest)
    ]

with_filter-IsQuery :
    (f : Option Expression) (node : Node) → IsQuery node → IsQuery (with_filter f node)
unfolding with_filter
with_filter-IsQuery none node h = h
with_filter-IsQuery (some p) node h = h

with_order-IsQuery : (o : List OrderBy) (node : Node) → IsQuery node → IsQuery (with_order o node)
unfolding with_order
with_order-IsQuery [] node h = h
with_order-IsQuery (o ∷ os) node h = h

with_projection-IsQuery :
    (items : List SelectItem) (aggregate : Bool) (node : Node)
    → IsQuery node
    → IsQuery (with_projection items aggregate node)
unfolding with_projection
with_projection-IsQuery [] aggregate node h = h
with_projection-IsQuery (i ∷ is) true node h = h
with_projection-IsQuery (i ∷ is) false node h = h

with_count-IsQuery :
    (e : Option Expression) (make : Node → ℕ → Node) (node out : Node)
    → ((m : Node) (n : ℕ) → IsQuery m → IsQuery (make m n))
    → IsQuery node
    → with_count e make node ≡ ok out
    → IsQuery out
unfolding with_count
with_count-IsQuery none make node out keeps q h = subst IsQuery (ok-injective h) q
with_count-IsQuery (some e) make node out keeps q h =
    let (n, counted, made) = >>=-eq-ok (count_of e) _ h in
    subst IsQuery (ok-injective made) (keeps node n q)

with_aggregate-IsQuery :
    (aggregate : Bool) (node : Node) (items : List SelectItem) (g : Option Expression)
    → IsQuery node
    → IsQuery (if aggregate then aggregate_node node items g else node)
with_aggregate-IsQuery true node items g h = h
with_aggregate-IsQuery false node items g h = h

build_select-IsQuery :
    (stmt : SelectStatement) (node : Node) → build_select stmt ≡ ok node → IsQuery node
unfolding build_select
build_select-IsQuery stmt node h =
    let (source, hs, rest1) = >>=-eq-ok (build_from_item stmt.from_item) _ h in
    let (group, hg, rest2) = >>=-eq-ok (group_column stmt.group_by) _ rest1 in
    let (found, hf, rest3) = >>=-eq-ok (check_items group stmt.select_items) _ rest2 in
    let (u, unmixed, rest4) =
      >>=-eq-ok
        (if not (is_grouped group) && (found.0 && found.1)
          then err space_db.Types.mixed_aggregates
          else ok tt)
        _ rest3 in
    let (skipped, ho, rest5) = >>=-eq-ok (with_count stmt.offset offset_node _) _ rest4 in
    let (limited, hl, e) = >>=-eq-ok (with_count stmt.limit limit_node skipped) _ rest5 in
    let aggregate = found.0 || is_grouped group in
    let filtered =
      with_filter-IsQuery stmt.filter source (build_from_item-IsQuery stmt.from_item source hs) in
    let aggregated = with_aggregate-IsQuery aggregate _ stmt.select_items stmt.group_by filtered in
    let ordered =
      with_order-IsQuery stmt.order_by _ (with_filter-IsQuery stmt.having _ aggregated) in
    let after_offset =
      with_count-IsQuery stmt.offset offset_node _ skipped (λ m n q. q) ordered ho in
    let after_limit =
      with_count-IsQuery stmt.limit limit_node skipped limited (λ m n q. q) after_offset hl in
    subst IsQuery (ok-injective e)
      (with_projection-IsQuery stmt.select_items aggregate limited after_limit)

query-IsPlan : (node : Node) → IsQuery node → IsPlan node
query-IsPlan (create_table_node t) h = tt
query-IsPlan (insert_node n c v) h = tt
query-IsPlan (update_node n s a) h = absurd h
query-IsPlan (delete_node n s) h = absurd h
query-IsPlan (scan_node n) h = h
query-IsPlan (filter_node s p) h = h
query-IsPlan (order_node s o) h = h
query-IsPlan (limit_node s n) h = h
query-IsPlan (offset_node s n) h = h
query-IsPlan (projection_node s i) h = h
query-IsPlan (aggregate_node s i g) h = h
query-IsPlan (nested_loop_join_node l r p o) h = h

-- In every plan that is built, each source of a node is a query, which only reads rows: the nodes
-- that change data stand at the root.
pub build-IsPlan : (stmt : Statement) (node : Node) → build stmt ≡ ok node → IsPlan node
unfolding build
build-IsPlan (create_table_statement stmt) node h =
    let (table, ht, e) = >>=-eq-ok (table_from_create_statement stmt) _ h in
    subst IsPlan (ok-injective e) tt
build-IsPlan (insert_statement stmt) node h = subst IsPlan (ok-injective h) tt
build-IsPlan (select_statement stmt) node h = query-IsPlan node (build_select-IsQuery stmt node h)
build-IsPlan (update_statement stmt) node h =
    subst IsPlan (ok-injective h) (with_filter-IsQuery stmt.filter (scan_node stmt.table_name) tt)
build-IsPlan (delete_statement stmt) node h =
    subst IsPlan (ok-injective h) (with_filter-IsQuery stmt.filter (scan_node stmt.table_name) tt)

-- LIMIT and OFFSET accept exactly the integer literals that are not negative.
pub count_of-literal :
    (e : Expression) (n : ℕ) → (count_of e ≡ ok n) ↔ (e ≡ integer_literal (pos n))
unfolding count_of value_from_expression integer_count
count_of-literal (integer_literal (pos m)) n = ((λ h. cc (ok-injective h)), (λ p. cc p))
count_of-literal (integer_literal (negsuc m)) n = ((λ h. cc h), (λ p. cc p))
count_of-literal null n = ((λ h. cc h), (λ p. cc p))
count_of-literal (boolean_literal b) n = ((λ h. cc h), (λ p. cc p))
count_of-literal (float_literal b) n = ((λ h. cc h), (λ p. cc p))
count_of-literal (string_literal b) n = ((λ h. cc h), (λ p. cc p))
count_of-literal (operation_expression k l r) n = ((λ h. cc h), (λ p. cc p))
count_of-literal (function_expression a b) n = ((λ h. cc h), (λ p. cc p))
count_of-literal (column_reference b) n = ((λ h. cc h), (λ p. cc p))
