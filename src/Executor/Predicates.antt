-- ===== src/Executor/Predicates.antt =====
-- When a predicate is true: the expressions of executor/expression.go by the values of their operands.
use space_db.Base.{
  ◌≡◌, refl, ap, ◌∙◌, Bool, true, false, List, Result, ok, err, if◌then◌else◌, >>=-eq-ok,
  ok-injective, Bool-cases, inl, inr, Ordering,
}
use space_db.Bytes.{Bytes}
use space_db.Types.{
  Value, value_null, value_boolean, value_integer, value_float, value_string, unknown_value, Row,
  SqlError, compare_value, is_null,
}
use space_db.Ast.{
  Expression, OperationKind, operation_equal, operation_greater_than, operation_less_than, null,
  boolean_literal, integer_literal, float_literal, string_literal, operation_expression,
  function_expression, column_reference,
}
use space_db.Executor.Expressions.{evaluate_expression, evaluate_comparison, compare_known, holds}
use space_db.Executor.Relations.{is_true}

-- A result is accepted when it is the Boolean true; a null, another value and an error are not.
abbrev pub accepts : Result SqlError Value → Bool
accepts (ok (value_boolean true)) = true
accepts (ok (value_boolean false)) = false
accepts (ok value_null) = false
accepts (ok (value_integer i)) = false
accepts (ok (value_float f)) = false
accepts (ok (value_string s)) = false
accepts (ok (unknown_value k)) = false
accepts (err e) = false

accepts-is_true : (v : Value) → accepts (ok v) ≡ is_true v
accepts-is_true value_null = refl
accepts-is_true (value_boolean true) = refl
accepts-is_true (value_boolean false) = refl
accepts-is_true (value_integer i) = refl
accepts-is_true (value_float f) = refl
accepts-is_true (value_string s) = refl
accepts-is_true (unknown_value k) = refl

-- Which order of its operands makes a comparison true.
abbrev pub orders_as : OperationKind → Result SqlError Ordering → Bool
orders_as operation_equal (ok Ordering.eq) = true
orders_as operation_equal (ok Ordering.lt) = false
orders_as operation_equal (ok Ordering.gt) = false
orders_as operation_greater_than (ok Ordering.gt) = true
orders_as operation_greater_than (ok Ordering.eq) = false
orders_as operation_greater_than (ok Ordering.lt) = false
orders_as operation_less_than (ok Ordering.lt) = true
orders_as operation_less_than (ok Ordering.eq) = false
orders_as operation_less_than (ok Ordering.gt) = false
orders_as kind (err e) = false

-- A comparison passes when both operands have values that are not null, in that order.
abbrev pub compares : OperationKind → Result SqlError Value → Result SqlError Value → Bool
compares kind (ok x) (ok y) =
    if is_null x then false else if is_null y then false else orders_as kind (compare_value x y)
compares kind (ok x) (err e) = false
compares kind (err e) y = false

-- Whether an expression is true of two rows; the right operand of a comparison is of the second.
abbrev pub passes : Expression → List Bytes → Row → List Bytes → Row → Bool
passes (operation_expression kind l r) lc a rc b =
    compares kind (evaluate_expression l lc a rc b) (evaluate_expression r rc b lc a)
passes (boolean_literal t) lc a rc b = t
passes (column_reference name) lc a rc b =
    accepts (evaluate_expression (column_reference name) lc a rc b)
passes null lc a rc b = false
passes (integer_literal i) lc a rc b = false
passes (float_literal x) lc a rc b = false
passes (string_literal s) lc a rc b = false
passes (function_expression name argument) lc a rc b = false

orders_as-holds : (kind : OperationKind) (o : Ordering) → orders_as kind (ok o) ≡ holds kind o
orders_as-holds operation_equal Ordering.eq = refl
orders_as-holds operation_equal Ordering.lt = refl
orders_as-holds operation_equal Ordering.gt = refl
orders_as-holds operation_greater_than Ordering.eq = refl
orders_as-holds operation_greater_than Ordering.lt = refl
orders_as-holds operation_greater_than Ordering.gt = refl
orders_as-holds operation_less_than Ordering.eq = refl
orders_as-holds operation_less_than Ordering.lt = refl
orders_as-holds operation_less_than Ordering.gt = refl

orders_as-is_true :
    (kind : OperationKind) (x y v : Value)
    → compare_known kind x y ≡ ok v
    → orders_as kind (compare_value x y) ≡ is_true v
unfolding compare_known
orders_as-is_true kind x y v h =
    let (o, ho, e) = >>=-eq-ok (compare_value x y) _ h in
    ap (orders_as kind) ho ∙ orders_as-holds kind o ∙ ap is_true (ok-injective e)

compares-is_true :
    (kind : OperationKind) (x y v : Value)
    → evaluate_comparison kind x y ≡ ok v
    → compares kind (ok x) (ok y) ≡ is_true v
unfolding evaluate_comparison
compares-is_true kind x y v h = elim (Bool-cases (is_null x)) [
  | inl absent ↦ rw absent (ap is_true (ok-injective (rw absent at h)))
  | inr there ↦ elim (Bool-cases (is_null y)) [
    | inl absent ↦ rw (there, absent) (ap is_true (ok-injective (rw (there, absent) at h)))
    | inr both ↦ rw (there, both) (orders_as-is_true kind x y v (rw (there, both) at h))
  ]
]

pub passes-is_true :
    (predicate : Expression) (lc : List Bytes) (a : Row) (rc : List Bytes) (b : Row) (v : Value)
    → evaluate_expression predicate lc a rc b ≡ ok v
    → passes predicate lc a rc b ≡ is_true v
unfolding evaluate_expression
passes-is_true (operation_expression kind l r) lc a rc b v h =
    let (x, hx, rest) = >>=-eq-ok (evaluate_expression l lc a rc b) _ h in
    let (y, hy, done) = >>=-eq-ok (evaluate_expression r rc b lc a) _ rest in
    rw (hx, hy) (compares-is_true kind x y v done)
passes-is_true (boolean_literal t) lc a rc b v h = ap is_true (ok-injective h)
passes-is_true (column_reference name) lc a rc b v h = ap accepts h ∙ accepts-is_true v
passes-is_true null lc a rc b v h = ap is_true (ok-injective h)
passes-is_true (integer_literal i) lc a rc b v h = ap is_true (ok-injective h)
passes-is_true (float_literal x) lc a rc b v h = ap is_true (ok-injective h)
passes-is_true (string_literal s) lc a rc b v h = ap is_true (ok-injective h)
passes-is_true (function_expression name argument) lc a rc b v h = absurd (cc h)
