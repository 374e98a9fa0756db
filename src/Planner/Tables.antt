-- ===== src/Planner/Tables.antt =====
-- The tables that CREATE TABLE makes.
use space_db.Base.{
  suc, ◌≡◌, refl, ap, sym, Bool, true, false, not, List, [], ◌∷◌, Option, none, some, ok, >>=-eq-ok,
  ok-injective, All, length,
}
use mathlib.Core.Path.{subst}
use space_db.Types.{Value, value_null}
use space_db.Schema.{Table}
use space_db.Ast.{
  Expression, null, boolean_literal, integer_literal, float_literal, string_literal,
  operation_expression, function_expression, column_reference, CreateTableStatement, OrderBy,
  SelectItem, JoinType, join_cross, join_inner, join_left, join_right, FromItem, table_from_item,
  join_from_item, SelectStatement, Statement, create_table_statement, insert_statement,
  select_statement, update_statement, delete_statement,
}
use space_db.Executor.Expressions.{value_from_expression}
use space_db.Planner.{
  table_columns, table_from_create_statement, column_default, explicit_default, nullable_or,
}

-- A column that an INSERT may leave out, or that is not nullable.
abbrev pub HasDefault : space_db.Schema.Column → Type 0
HasDefault c = c.nullable ≡ true → (v : Value) × (c.default_value ≡ some v)

column_default-some :
    (d : Option Expression) (nullable : Bool) (out : Option Value)
    → column_default d nullable ≡ ok out
    → nullable ≡ true
    → (v : Value) × (out ≡ some v)
unfolding column_default explicit_default
column_default-some (some e) nullable out h yes_null =
    let (v, hv, done) = >>=-eq-ok (value_from_expression e) _ h in (v, sym (ok-injective done))
column_default-some none true out h yes_null = (value_null, sym (ok-injective h))
column_default-some none false out h yes_null = absurd (cc yes_null)

table_columns-HasDefault :
    (cs : List space_db.Ast.Column) (out : List space_db.Schema.Column)
    → table_columns cs ≡ ok out
    → All HasDefault out × (length out ≡ length cs)
unfolding table_columns
table_columns-HasDefault [] out h =
    subst (λ o. All HasDefault o × (length o ≡ 0)) (ok-injective h) (tt, refl)
table_columns-HasDefault (c ∷ cs) out h =
    let (d, hd, rest) =
      >>=-eq-ok (column_default c.default_value (nullable_or c.nullable (not c.primary_key))) _ h in
    let (more, hm, e) = >>=-eq-ok (table_columns cs) _ rest in
    let (defaults, same) = table_columns-HasDefault cs more hm in
    subst (λ o. All HasDefault o × (length o ≡ length (c ∷ cs))) (ok-injective e)
      (((λ n. column_default-some c.default_value _ d hd n), defaults), ap suc same)

-- A table made from CREATE TABLE has as many columns as the statement, and each of its columns
-- that is nullable has a default value.
pub table_from_create_statement-HasDefault :
    (stmt : CreateTableStatement) (t : Table)
    → table_from_create_statement stmt ≡ ok t
    → All HasDefault t.columns × (length t.columns ≡ length stmt.columns)
unfolding table_from_create_statement
table_from_create_statement-HasDefault stmt t h =
    let (columns, hc, e) = >>=-eq-ok (table_columns stmt.columns) _ h in
    subst (λ (x : Table). All HasDefault x.columns × (length x.columns ≡ length stmt.columns))
      (ok-injective e) (table_columns-HasDefault stmt.columns columns hc)
