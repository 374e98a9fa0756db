-- ===== src/Tests/Planned.antt =====
-- Plans at concrete statements.
use space_db.Base.{◌≡◌, refl, [], ◌∷◌, none, some, true, false, ok}
use space_db.Types.{integer, string, value_null}
use space_db.Types.Int64.{pos}
use space_db.Schema.{Table}
use space_db.Ast.{
  Expression, integer_literal, column_reference, operation_expression, operation_greater_than,
  CreateTableStatement, Statement, select_statement, join_from_item, table_from_item, join_right,
}
use space_db.Planner.{
  Node, scan_node, filter_node, limit_node, nested_loop_join_node, build,
  table_from_create_statement,
}
use space_db.Planner.Plans.{IsPlan, build-IsPlan}

-- i > 1
abbrev above_one : Expression
above_one =
    operation_expression operation_greater_than (column_reference (105 ∷ []))
      (integer_literal (pos 1))

-- SELECT * FROM a RIGHT JOIN b ON i > 1 WHERE i > 1 LIMIT 3
abbrev query : Statement
query = select_statement (record {
  from_item =
      join_from_item (table_from_item (97 ∷ [])) (table_from_item (98 ∷ [])) join_right
        (some above_one);
  select_items = [];
  filter = some above_one;
  group_by = none;
  having = none;
  order_by = [];
  limit = some (integer_literal (pos 3));
  offset = none;
})

abbrev query_plan : Node
query_plan =
    limit_node
      (filter_node
        (nested_loop_join_node (scan_node (98 ∷ [])) (scan_node (97 ∷ [])) (some above_one) true)
        above_one)
      3

query_builds : build query ≡ ok query_plan
unfolding build
query_builds = refl

build-IsPlan_example : IsPlan query_plan
build-IsPlan_example = build-IsPlan query query_plan query_builds

-- CREATE TABLE u (i INT PRIMARY KEY, n TEXT)
abbrev created : CreateTableStatement
created = record {
  name = 117 ∷ [];
  columns =
      (record {
        name = 105 ∷ [];
        data_type = integer;
        nullable = none;
        default_value = none;
        primary_key = true;
      })
      ∷ (record {
        name = 110 ∷ [];
        data_type = string;
        nullable = none;
        default_value = none;
        primary_key = false;
      })
      ∷ [];
}

abbrev created_table : Table
created_table = record {
  name = 117 ∷ [];
  columns =
      (record {
        name = 105 ∷ [];
        data_type = integer;
        nullable = false;
        default_value = none;
        primary_key = true;
      })
      ∷ (record {
        name = 110 ∷ [];
        data_type = string;
        nullable = true;
        default_value = some value_null;
        primary_key = false;
      })
      ∷ [];
}

created_plans : table_from_create_statement created ≡ ok created_table
unfolding table_from_create_statement
created_plans = refl
