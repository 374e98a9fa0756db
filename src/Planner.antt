-- ===== src/Planner.antt =====
-- planner/: the plans of statements, and tables from CREATE TABLE.
pub mod Plans
pub mod Tables
use space_db.Base.{
  ℕ, Bool, true, false, not, ◌&&◌, ◌||◌, List, [], ◌∷◌, Option, none, some, Result, ok, err, ◌>>=◌,
  ◌>>◌, if◌then◌else◌,
}
use space_db.Bytes.{Bytes, compare_bytes, bytes_eq}
use space_db.Types.{
  Value, value_null, value_integer, SqlError, cross_with_predicate, join_without_predicate,
  group_by_not_column, item_not_grouped, mixed_aggregates, column_not_grouped, not_a_count,
}
use space_db.Types.Int64.{ℤ, pos, negsuc}
use space_db.Schema.{Table}
use space_db.Ast.{
  Expression, function_expression, column_reference, CreateTableStatement, InsertStatement, OrderBy,
  SelectItem, JoinType, join_cross, join_inner, join_left, join_right, FromItem, table_from_item,
  join_from_item, SelectStatement, UpdateStatement, DeleteStatement, Statement,
  create_table_statement, insert_statement, select_statement, update_statement, delete_statement,
}
use space_db.Executor.Expressions.{value_from_expression}

-- The nodes of a plan. The counts of LIMIT and OFFSET are not negative.
pub data Node : Type 0 where
  create_table_node : Table → Node
  insert_node : Bytes → List Bytes → List (List Expression) → Node
  scan_node : Bytes → Node
  filter_node : Node → Expression → Node
  order_node : Node → List OrderBy → Node
  limit_node offset_node : Node → ℕ → Node
  projection_node : Node → List SelectItem → Node
  aggregate_node : Node → List SelectItem → Option Expression → Node
  nested_loop_join_node : Node → Node → Option Expression → Bool → Node
  update_node : Bytes → Node → List (Bytes × Expression) → Node
  delete_node : Bytes → Node → Node

-- tableFromCreateStatement
unfoldable pub explicit_default : Expression → Result SqlError (Option Value)
unfolding value_from_expression
explicit_default e = do v ← value_from_expression e; ok (some v)

unfoldable pub column_default : Option Expression → Bool → Result SqlError (Option Value)
unfolding explicit_default
column_default (some e) nullable = explicit_default e
column_default none true = ok (some value_null)
column_default none false = ok none

abbrev pub nullable_or : Option Bool → Bool → Bool
nullable_or none default_nullable = default_nullable
nullable_or (some b) default_nullable = b

unfoldable pub table_columns :
    List space_db.Ast.Column → Result SqlError (List space_db.Schema.Column)
unfolding column_default
table_columns [] = ok []
table_columns (c ∷ cs) = do
  let nullable = nullable_or c.nullable (not c.primary_key)
  default_value ← column_default c.default_value nullable
  rest ← table_columns cs
  ok (
      (record {
        name = c.name;
        data_type = c.data_type;
        nullable = nullable;
        default_value = default_value;
        primary_key = c.primary_key;
      })
      ∷ rest)

unfoldable pub table_from_create_statement : CreateTableStatement → Result SqlError Table
unfolding table_columns
table_from_create_statement stmt = do
  columns ← table_columns stmt.columns
  ok (record { name = stmt.name; columns = columns })

-- validateJoinItem
unfoldable pub validate_join_item : JoinType → Option Expression → Result SqlError (Unit {0})
validate_join_item join_cross none = ok tt
validate_join_item join_cross (some p) = err cross_with_predicate
validate_join_item kind none = err join_without_predicate
validate_join_item kind (some p) = ok tt

abbrev pub is_right : JoinType → Bool
is_right join_right = true
is_right kind = false

abbrev pub is_outer : JoinType → Bool
is_outer join_left = true
is_outer join_right = true
is_outer kind = false

unfoldable pub join_nodes :
    Result SqlError Node → Result SqlError Node → Option Expression → Bool → Result SqlError Node
join_nodes left right predicate outer = do
  l ← left
  r ← right
  ok (nested_loop_join_node l r predicate outer)

-- A right join is the left join of its inputs exchanged.
unfoldable pub build_from_item : FromItem → Result SqlError Node
unfolding validate_join_item join_nodes
build_from_item (table_from_item name) = ok (scan_node name)
build_from_item (join_from_item l r kind predicate) =
    let left = build_from_item l in
    let right = build_from_item r in
    validate_join_item kind predicate
    >> (if is_right kind
        then join_nodes right left predicate (is_outer kind)
        else join_nodes left right predicate (is_outer kind))

unfoldable pub with_filter : Option Expression → Node → Node
with_filter none node = node
with_filter (some predicate) node = filter_node node predicate

-- The column of GROUP BY.
unfoldable pub group_column : Option Expression → Result SqlError (Option Bytes)
group_column none = ok none
group_column (some (column_reference name)) = ok (some name)
group_column (some e) = err group_by_not_column

-- The items of SELECT: whether there is an aggregate, and whether there is anything else.
unfoldable pub check_item : Option Bytes → Expression → Result SqlError (Bool × Bool)
unfolding compare_bytes
check_item group (function_expression name argument) = ok (true, false)
check_item none (column_reference name) = ok (false, true)
check_item (some g) (column_reference name) =
    if bytes_eq name g then ok (false, true) else err (column_not_grouped name)
check_item none e = ok (false, true)
check_item (some g) e = err item_not_grouped

unfoldable pub check_items : Option Bytes → List SelectItem → Result SqlError (Bool × Bool)
unfolding check_item
check_items group [] = ok (false, false)
check_items group (item ∷ items) = do
  this ← check_item group item.expression
  others ← check_items group items
  ok (this.0 || others.0, this.1 || others.1)

abbrev pub is_grouped : Option Bytes → Bool
is_grouped none = false
is_grouped (some g) = true

-- The count of LIMIT or OFFSET. An int64 that is not negative always fits an int.
unfoldable pub integer_count : Value → Result SqlError ℕ
integer_count (value_integer (pos n)) = ok n
integer_count v = err not_a_count

unfoldable pub count_of : Expression → Result SqlError ℕ
unfolding value_from_expression integer_count
count_of e = do v ← value_from_expression e; integer_count v

unfoldable pub with_count : Option Expression → (Node → ℕ → Node) → Node → Result SqlError Node
unfolding count_of
with_count none make node = ok node
with_count (some e) make node = do n ← count_of e; ok (make node n)

unfoldable pub with_order : List OrderBy → Node → Node
with_order [] node = node
with_order (o ∷ os) node = order_node node (o ∷ os)

unfoldable pub with_projection : List SelectItem → Bool → Node → Node
with_projection [] aggregate node = node
with_projection items true node = node
with_projection items false node = projection_node node items

unfoldable pub build_select : SelectStatement → Result SqlError Node
unfolding build_from_item with_filter group_column check_items with_order with_count with_projection
build_select stmt = do
  source ← build_from_item stmt.from_item
  group ← group_column stmt.group_by
  found ← check_items group stmt.select_items
  if not (is_grouped group) && (found.0 && found.1) then err mixed_aggregates else ok tt
  let aggregate = found.0 || is_grouped group
  let filtered = with_filter stmt.filter source
  let aggregated =
      if aggregate then aggregate_node filtered stmt.select_items stmt.group_by else filtered
  let ordered = with_order stmt.order_by (with_filter stmt.having aggregated)
  skipped ← with_count stmt.offset offset_node ordered
  limited ← with_count stmt.limit limit_node skipped
  ok (with_projection stmt.select_items aggregate limited)

unfoldable pub build : Statement → Result SqlError Node
unfolding table_from_create_statement build_select with_filter
build (create_table_statement stmt) = do
  table ← table_from_create_statement stmt
  ok (create_table_node table)
build (insert_statement stmt) = ok (insert_node stmt.table_name stmt.columns stmt.values)
build (select_statement stmt) = build_select stmt
build (update_statement stmt) = ok (
    update_node stmt.table_name (with_filter stmt.filter (scan_node stmt.table_name))
      stmt.assignments)
build (delete_statement stmt) =
    ok (delete_node stmt.table_name (with_filter stmt.filter (scan_node stmt.table_name)))
