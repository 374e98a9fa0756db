-- ===== src/Executor/Aggregates.antt =====
-- executor/aggregate.go: AggregateExecutor, on what its source returned.
use space_db.Base.{
  ℕ, ◌+◌, Bool, true, false, List, [], ◌∷◌, ◌++◌, Option, none, some, Result, ok, err, ◌>>=◌,
  get_elem?, if◌then◌else◌, Ordering,
}
use space_db.Bytes.{Bytes, bytes_eq}
use space_db.Types.{
  Value, value_null, value_boolean, value_integer, value_float, value_string, unknown_value, Row,
  SqlError, is_null, column_missing, panic, unknown_aggregate, not_numeric, value_eq, compare_value,
}
use space_db.Types.Int64.{pos}
use space_db.Types.Float64.{float_of_int}
use space_db.Ast.{
  Expression, SelectItem, null, boolean_literal, integer_literal, float_literal, string_literal,
  operation_expression, function_expression, column_reference,
}
use space_db.Lexer.Tokens.{to_upper}
use space_db.Executor.Relations.{RowsResult}
use space_db.Executor.Projection.{index_of, name_or}

-- `row[columnIndex]` panics out of range.
unfoldable pub cell_at : ℕ → Row → Result SqlError Value
cell_at i row = elim (get_elem? row i) [ none ↦ err panic | some v ↦ ok v ]

unfoldable pub column_of : List Bytes → Bytes → Result SqlError ℕ
column_of columns name = elim (index_of 0 columns name) [
  | none ↦ err (column_missing name)
  | some i ↦ ok i
]

-- countCalculator
unfoldable pub count_cells : ℕ → List Row → ℕ → Result SqlError ℕ
count_cells i [] count = ok count
count_cells i (row ∷ rows) count = do
  v ← cell_at i row
  count_cells i rows (if is_null v then count else count + 1)

unfoldable pub calculate_count : Bytes → List Bytes → List Row → Result SqlError ℕ
calculate_count name columns rows = do i ← column_of columns name; count_cells i rows 0

-- calculateExtreme: `replace`, and the value kept after one more row.
unfoldable pub replaces : Bool → Ordering → Bool
replaces minimum Ordering.lt = minimum
replaces minimum Ordering.eq = false
replaces true Ordering.gt = false
replaces false Ordering.gt = true

unfoldable pub extreme_of : Bool → Option Value → Value → Result SqlError (Option Value)
extreme_of minimum none current = ok (some current)
extreme_of minimum (some extreme) current = do
  comparison ← compare_value current extreme
  ok (some (if replaces minimum comparison then current else extreme))

unfoldable pub find_extreme : ℕ → Bool → List Row → Option Value → Result SqlError (Option Value)
find_extreme i minimum [] extreme = ok extreme
find_extreme i minimum (row ∷ rows) extreme = do
  current ← cell_at i row
  next ← if is_null current then ok extreme else extreme_of minimum extreme current
  find_extreme i minimum rows next

abbrev pub or_null : Option Value → Value
or_null none = value_null
or_null (some v) = v

unfoldable pub calculate_extreme : Bytes → List Bytes → List Row → Bool → Result SqlError Value
calculate_extreme name columns rows minimum = do
  i ← column_of columns name
  extreme ← find_extreme i minimum rows none
  ok (or_null extreme)

-- The groups in the order in which their keys come first: a row goes to the group of its key.
unfoldable pub add_row : Value → Row → List (Value × List Row) → List (Value × List Row)
add_row key row [] = (key, row ∷ []) ∷ []
add_row key row ((k, rows) ∷ groups) =
    let later = add_row key row groups in
    if value_eq k key then (k, rows ++ (row ∷ [])) ∷ groups else (k, rows) ∷ later

unfoldable pub group_rows :
    ℕ → List Row → List (Value × List Row) → Result SqlError (List (Value × List Row))
group_rows i [] groups = ok groups
group_rows i (row ∷ rows) groups = do
  key ← cell_at i row
  group_rows i rows (add_row key row groups)

-- `expression.Value.(string)` panics for an expression that holds no string.
unfoldable pub text_of : Expression → Result SqlError Bytes
text_of (column_reference name) = ok name
text_of (string_literal s) = ok s
text_of null = err panic
text_of (boolean_literal b) = err panic
text_of (integer_literal i) = err panic
text_of (float_literal f) = err panic
text_of (operation_expression o a b) = err panic
text_of (function_expression f a) = err panic

-- The name and the argument of a call, none for what is no call.
abbrev pub call_of : Expression → Option (Bytes × Bytes)
call_of (function_expression f a) = some (f, a)
call_of (column_reference name) = none
call_of (string_literal s) = none
call_of null = none
call_of (boolean_literal b) = none
call_of (integer_literal i) = none
call_of (float_literal f) = none
call_of (operation_expression o a b) = none

-- The name of an item's column before its alias.
unfoldable pub item_name : Option (Bytes × Bytes) → Expression → Result SqlError Bytes
item_name none e = text_of e
item_name (some call) e = ok (call.0)

unfoldable pub aggregate_output_columns : List SelectItem → Result SqlError (List Bytes)
aggregate_output_columns [] = ok []
aggregate_output_columns (item ∷ items) = do
  name ← item_name (call_of item.expression) item.expression
  names ← aggregate_output_columns items
  ok (name_or item.alias name ∷ names)

-- `*groupValue`
unfoldable pub group_value_of : Option Value → Result SqlError Value
group_value_of none = err panic
group_value_of (some v) = ok v

-- The sum and the quotient of two float64 are given, on their bits.
module _ (float_add float_div : ℕ → ℕ → ℕ) where
  -- sumCalculator: `found` is false while the sum is none.
  unfoldable pub add_to : Option ℕ → ℕ → Option ℕ
  add_to none x = some (float_add 0 x)
  add_to (some sum) x = some (float_add sum x)

  unfoldable pub add_cell : Bytes → Value → Option ℕ → Result SqlError (Option ℕ)
  add_cell name value_null sum = ok sum
  add_cell name (value_integer i) sum = ok (add_to sum (float_of_int i))
  add_cell name (value_float x) sum = ok (add_to sum x)
  add_cell name (value_boolean b) sum = err (not_numeric name)
  add_cell name (value_string s) sum = err (not_numeric name)
  add_cell name (unknown_value k) sum = err (not_numeric name)

  unfoldable pub sum_cells : Bytes → ℕ → List Row → Option ℕ → Result SqlError (Option ℕ)
  sum_cells name i [] sum = ok sum
  sum_cells name i (row ∷ rows) sum = do
    v ← cell_at i row
    next ← add_cell name v sum
    sum_cells name i rows next

  unfoldable pub calculate_sum : Bytes → List Bytes → List Row → Result SqlError (Option ℕ)
  calculate_sum name columns rows = do i ← column_of columns name; sum_cells name i rows none

  -- avgCalculator, behind its sum and count.
  abbrev pub average : Option ℕ → ℕ → Value
  average none count = value_null
  average (some sum) count = value_float (float_div sum (float_of_int (pos count)))

  abbrev pub sum_value : Option ℕ → Value
  sum_value none = value_null
  sum_value (some sum) = value_float sum

  unfoldable pub calculate_avg : Bytes → List Bytes → List Row → Result SqlError Value
  calculate_avg name columns rows = do
    sum ← calculate_sum name columns rows
    count ← calculate_count name columns rows
    ok (average sum count)

  -- buildAggregateCalculator and the call of the calculator.
  unfoldable pub calculate : Bytes → Bytes → List Bytes → List Row → Result SqlError Value
  calculate function name columns rows =
      let upper = to_upper function in
      if bytes_eq upper (67 ∷ 79 ∷ 85 ∷ 78 ∷ 84 ∷ [])
      then (calculate_count name columns rows >>= λ c. ok (value_integer (pos c)))
      else if bytes_eq upper (77 ∷ 73 ∷ 78 ∷ [])
      then calculate_extreme name columns rows true
      else if bytes_eq upper (77 ∷ 65 ∷ 88 ∷ [])
      then calculate_extreme name columns rows false
      else if bytes_eq upper (83 ∷ 85 ∷ 77 ∷ [])
      then (calculate_sum name columns rows >>= λ s. ok (sum_value s))
      else if bytes_eq upper (65 ∷ 86 ∷ 71 ∷ [])
      then calculate_avg name columns rows
      else err (unknown_aggregate function)

  unfoldable pub calculate_item :
      Option (Bytes × Bytes) → Option Value → List Bytes → List Row → Result SqlError Value
  calculate_item none group_value columns rows = group_value_of group_value
  calculate_item (some call) group_value columns rows = calculate call.0 call.1 columns rows

  unfoldable pub calculate_row :
      List SelectItem → Option Value → List Bytes → List Row → Result SqlError Row
  calculate_row [] group_value columns rows = ok []
  calculate_row (item ∷ items) group_value columns rows = do
    v ← calculate_item (call_of item.expression) group_value columns rows
    vs ← calculate_row items group_value columns rows
    ok (v ∷ vs)

  unfoldable pub calculate_groups :
      List SelectItem → List Bytes → List (Value × List Row) → Result SqlError (List Row)
  calculate_groups items columns [] = ok []
  calculate_groups items columns ((key, rows) ∷ groups) = do
    first ← calculate_row items (some key) columns rows
    others ← calculate_groups items columns groups
    ok (first ∷ others)

  unfoldable pub output_rows :
      List SelectItem → Option Expression → RowsResult → Result SqlError (List Row)
  output_rows items none source = do
    row ← calculate_row items none source.columns source.rows
    ok (row ∷ [])
  output_rows items (some group_by) source = do
    name ← text_of group_by
    i ← column_of source.columns name
    groups ← group_rows i source.rows []
    calculate_groups items source.columns groups

  -- AggregateExecutor.Execute, after its source.
  unfoldable pub aggregate :
      List SelectItem → Option Expression → RowsResult → Result SqlError RowsResult
  aggregate items group_by source = do
    columns ← aggregate_output_columns items
    rows ← output_rows items group_by source
    ok (record { columns = columns; rows = rows })
