-- ===== src/Tests/Sql.antt =====
-- The tables, rows and relations at concrete inputs.
use space_db.Base.{
  List, ◌≡◌, ◌↔◌, refl, [], ◌∷◌, ◌++◌, none, some, true, false, ok, err, arith, Ordering, length,
}
use space_db.Bytes.{Bytes, compare_bytes}
use space_db.Bytes.BigEndian.{be}
use space_db.Types.{
  Value, value_null, value_boolean, value_integer, value_float, value_string, Row, integer, string,
  compare_value, kind_of, incomparable,
}
use space_db.Types.Int64.{pos, negsuc}
use space_db.Types.Float64.{float_of_int}
use space_db.Types.Order.{swap, compare_value-swap}
use space_db.Schema.{Table, validate, primary_key_value}
use space_db.Schema.Validity.{IsTable, validate-IsTable}
use space_db.Kv.Keys.{encode_primary_key, row_key}
use space_db.Kv.Keyed.{encode_primary_key-lt, row_key-injective}
use space_db.Kv.Rows.{validate_row}
use space_db.Kv.Fits.{AllFit, IsKeyed, validate_row-AllFit, primary_key_value-total}
use space_db.Ast.{
  Expression, operation_expression, operation_equal, operation_greater_than, column_reference,
  integer_literal,
}
use space_db.Ast.{SelectItem, order_descending}
use space_db.Executor.Projection.{project, unnamed}
use space_db.Executor.Aggregates.{group_rows}
use space_db.Executor.Groups.{group_rows-AreGroups, AreGroups}
use space_db.Executor.Execution.{order}
use space_db.Executor.Shapes.{project-AreRows, AreRows}
use space_db.Executor.Relations.{RowsResult, filter, join}
use space_db.Executor.Filters.{row_passes, keep, filter-keep}
use space_db.Executor.Joins.{pairs, pair_passes, join-pairs}
use space_db.Executor.Inserts.{make_insert_row}

-- The conversion of integers: 1, -2, and 2^53 + 1, which is rounded to even.
one_is_float : float_of_int (pos 1) ≡ 4607182418800017408
unfolding float_of_int
one_is_float = refl

minus_two_is_float : float_of_int (negsuc 1) ≡ 13835058055282163712
unfolding float_of_int
minus_two_is_float = refl

rounded : float_of_int (pos 9007199254740993) ≡ float_of_int (pos 9007199254740992)
unfolding float_of_int
rounded = refl

compare_value-swap_example :
    compare_value (value_float 4607182418800017408) (value_integer (pos 2))
    ≡ elim (compare_value (value_integer (pos 2)) (value_float 4607182418800017408)) [
      | ok o ↦ ok (swap o)
      | err e ↦ err (
          incomparable
            (kind_of (value_float 4607182418800017408))
            (kind_of (value_integer (pos 2))))
    ]
compare_value-swap_example =
    compare_value-swap (value_integer (pos 2)) (value_float 4607182418800017408)

encode_primary_key-lt_example :
    compare_bytes (2 ∷ be 8 9223372036854775807) (2 ∷ be 8 9223372036854775811) ≡ Ordering.lt
unfolding encode_primary_key compare_value space_db.Types.kind_of space_db.Types.Int64.compare_int
encode_primary_key-lt_example =
    encode_primary_key-lt (value_integer (negsuc 0)) (value_integer (pos 3))
      (2 ∷ be 8 9223372036854775807) (2 ∷ be 8 9223372036854775811) (omega arith) (omega arith) refl
      refl refl refl

abbrev table_name : Bytes
table_name = 117 ∷ []

row_key-injective_example :
    (table_name ≡ table_name) × (value_string table_name ≡ value_string table_name)
unfolding row_key
row_key-injective_example =
    row_key-injective table_name table_name (2 ∷ 117 ∷ 0 ∷ 4 ∷ 117 ∷ []) (value_string table_name)
      (value_string table_name) (omega arith) (omega arith) (omega arith) (omega arith) refl refl

-- A table with an integer primary key and a nullable string that defaults to null.
abbrev users : Table
users = record {
  name = 117 ∷ [];
  columns =
      (record {
        name = 105 ∷ [];
        data_type = integer;
        nullable = false;
        default_value = none;
        primary_key = true;
      })
      ∷ (record {
        name = 110 ∷ [];
        data_type = string;
        nullable = true;
        default_value = some value_null;
        primary_key = false;
      })
      ∷ [];
}

users_valid : validate users ≡ ok tt
unfolding validate
users_valid = refl

validate-IsTable_example : (validate users ≡ ok tt) ↔ IsTable users
validate-IsTable_example = validate-IsTable users

abbrev alice : Row
alice = value_integer (pos 1) ∷ value_string (97 ∷ []) ∷ []

abbrev bob : Row
bob = value_integer (pos 2) ∷ value_null ∷ []

alice_valid : validate_row users alice ≡ ok tt
unfolding validate_row
alice_valid = refl

validate_row-AllFit_example : (validate_row users alice ≡ ok tt) ↔ AllFit users.columns alice
validate_row-AllFit_example = validate_row-AllFit users alice

primary_key_value-total_example : (v : Value) × (primary_key_value users alice ≡ ok v) × IsKeyed v
primary_key_value-total_example = primary_key_value-total users alice users_valid alice_valid

abbrev source : RowsResult
source = record { columns = (105 ∷ []) ∷ (110 ∷ []) ∷ []; rows = alice ∷ bob ∷ [] }

-- `i > 1`
abbrev above_one : Expression
above_one =
    operation_expression operation_greater_than (column_reference (105 ∷ []))
      (integer_literal (pos 1))

filter-keep_example :
    filter above_one source
    ≡ ok (record {
      columns = source.columns;
      rows = keep (row_passes above_one source.columns) source.rows;
    })
unfolding space_db.Executor.Expressions.evaluate_expression
filter-keep_example =
    filter-keep above_one source ((value_boolean false, refl), ((value_boolean true, refl), tt))

-- `i = i`, the columns of the two inputs
abbrev same_number : Expression
same_number =
    operation_expression operation_equal (column_reference (105 ∷ [])) (column_reference (105 ∷ []))

abbrev only_bob : RowsResult
only_bob = record { columns = source.columns; rows = bob ∷ [] }

-- A left join keeps the row that has no partner, with nulls.
abbrev joined : RowsResult
joined = record {
  columns = source.columns ++ source.columns;
  rows = (alice ++ (value_null ∷ value_null ∷ [])) ∷ (bob ++ bob) ∷ [];
}

source_joins : join (some same_number) true source only_bob ≡ ok joined
unfolding join
source_joins = refl

join-pairs_example :
    (joined.columns ≡ source.columns ++ only_bob.columns)
    × (joined.rows
        ≡ pairs
            (pair_passes (some same_number) source.columns only_bob.columns)
            true
            (length only_bob.columns)
            source.rows
            only_bob.rows)
join-pairs_example = join-pairs (some same_number) true source only_bob joined source_joins

-- INSERT INTO users (i) VALUES (2)
bob_inserted : make_insert_row users ((105 ∷ []) ∷ []) (value_integer (pos 2) ∷ []) ≡ ok bob
unfolding make_insert_row
bob_inserted = refl

-- SELECT n AS x, 5
abbrev items : List SelectItem
items =
    record { expression = column_reference (110 ∷ []); alias = some (120 ∷ []) }
    ∷ record { expression = integer_literal (pos 5); alias = none }
    ∷ []

abbrev projected : RowsResult
projected = record {
  columns = (120 ∷ []) ∷ unnamed ∷ [];
  rows =
      (value_string (97 ∷ []) ∷ value_integer (pos 5) ∷ [])
      ∷ (value_null ∷ value_integer (pos 5) ∷ [])
      ∷ [];
}

source_projects : project items source ≡ ok projected
unfolding project space_db.Executor.Projection.resolve_items
    space_db.Executor.Projection.resolve_item space_db.Executor.Projection.column_item
    space_db.Executor.Projection.index_of compare_bytes space_db.Executor.Projection.constant_item
    space_db.Executor.Expressions.value_from_expression space_db.Executor.Projection.project_rows
    space_db.Executor.Projection.project_row space_db.Executor.Projection.cell
source_projects = refl

project-AreRows_example :
    (length projected.columns ≡ length items)
    × AreRows (length projected.columns) (length source.rows) projected.rows
project-AreRows_example = project-AreRows items source projected source_projects

-- GROUP BY n
abbrev by_name_groups : List (Value × List Row)
by_name_groups = (value_string (97 ∷ []), alice ∷ []) ∷ (value_null, bob ∷ []) ∷ []

source_groups : group_rows 1 source.rows [] ≡ ok by_name_groups
unfolding group_rows space_db.Executor.Aggregates.cell_at space_db.Executor.Aggregates.add_row
    space_db.Types.value_eq
source_groups = refl

group_rows-AreGroups_example : AreGroups 1 source.rows by_name_groups
group_rows-AreGroups_example = group_rows-AreGroups 1 source.rows by_name_groups source_groups

-- ORDER BY i DESC
ordered_source :
    order (record { column = 105 ∷ []; direction = order_descending } ∷ []) source
    ≡ ok (record { columns = source.columns; rows = bob ∷ alice ∷ [] })
unfolding order space_db.Executor.Execution.order_columns space_db.Executor.Aggregates.column_of
    space_db.Executor.Projection.index_of compare_bytes space_db.Executor.Execution.sort_rows
    space_db.Executor.Execution.insert_row space_db.Executor.Execution.compare_rows
    space_db.Executor.Aggregates.cell_at compare_value space_db.Executor.Execution.directed
ordered_source = refl
