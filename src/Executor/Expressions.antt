-- ===== src/Executor/Expressions.antt =====
-- executor/expression.go and planner/value.go: the values of expressions.
use space_db.Base.{
  ℕ, suc, Ordering, Bool, true, false, List, [], ◌∷◌, Option, none, some, Result, ok, err, ◌>>=◌,
  if◌then◌else◌, ◌||◌, get_elem?,
}
use space_db.Bytes.{Bytes, compare_bytes, bytes_eq}
use space_db.Types.{
  Value, value_null, value_boolean, value_integer, value_float, value_string, Row, SqlError,
  compare_value, is_null, column_missing, panic, unsupported_expression,
}
use space_db.Ast.{
  OperationKind, operation_equal, operation_greater_than, operation_less_than, Expression, null,
  boolean_literal, integer_literal, float_literal, string_literal, operation_expression,
  function_expression, column_reference,
}

-- `slices.Index`, with `none` for -1.
unfoldable pub index_of : List Bytes → Bytes → Option ℕ
unfolding compare_bytes
index_of [] name = none
index_of (c ∷ cs) name =
    let rest = index_of cs name in
    if bytes_eq c name then some 0 else (elim rest [ none ↦ none | some i ↦ some (suc i) ])

-- `row[i]`
abbrev pub at_index : Row → ℕ → Result SqlError Value
at_index row i = elim (get_elem? row i) [ none ↦ err panic | some v ↦ ok v ]

-- The switch on the kind of a comparison.
abbrev pub holds : OperationKind → Ordering → Bool
holds operation_equal Ordering.eq = true
holds operation_equal o = false
holds operation_greater_than Ordering.gt = true
holds operation_greater_than o = false
holds operation_less_than Ordering.lt = true
holds operation_less_than o = false

unfoldable pub compare_known : OperationKind → Value → Value → Result SqlError Value
unfolding compare_value
compare_known kind left right = do
  comparison ← compare_value left right
  ok (value_boolean (holds kind comparison))

unfoldable pub evaluate_comparison : OperationKind → Value → Value → Result SqlError Value
unfolding compare_known
evaluate_comparison kind left right =
    if is_null left || is_null right then ok value_null else compare_known kind left right

column_value : Row → Bytes → Option ℕ → Result SqlError Value
column_value row name none = err (column_missing name)
column_value row name (some i) = at_index row i

-- The operands of an operation are evaluated with the two inputs exchanged for the right one.
unfoldable pub evaluate_expression :
    Expression → List Bytes → Row → List Bytes → Row → Result SqlError Value
unfolding evaluate_comparison column_value index_of
evaluate_expression null lc lr rc rr = ok value_null
evaluate_expression (boolean_literal b) lc lr rc rr = ok (value_boolean b)
evaluate_expression (integer_literal i) lc lr rc rr = ok (value_integer i)
evaluate_expression (float_literal f) lc lr rc rr = ok (value_float f)
evaluate_expression (string_literal s) lc lr rc rr = ok (value_string s)
evaluate_expression (column_reference name) lc lr rc rr = column_value lr name (index_of lc name)
evaluate_expression (operation_expression kind l r) lc lr rc rr = do
  left ← evaluate_expression l lc lr rc rr
  right ← evaluate_expression r rc rr lc lr
  evaluate_comparison kind left right
evaluate_expression (function_expression name argument) lc lr rc rr = err unsupported_expression

-- planner.ValueFromExpression
unfoldable pub value_from_expression : Expression → Result SqlError Value
value_from_expression null = ok value_null
value_from_expression (boolean_literal b) = ok (value_boolean b)
value_from_expression (integer_literal i) = ok (value_integer i)
value_from_expression (float_literal f) = ok (value_float f)
value_from_expression (string_literal s) = ok (value_string s)
value_from_expression (operation_expression kind l r) = err unsupported_expression
value_from_expression (function_expression name argument) = err unsupported_expression
value_from_expression (column_reference name) = err unsupported_expression
