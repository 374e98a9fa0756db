-- ===== src/Executor/Relations.antt =====
-- executor/filter.go, join.go and executor.go: filter, join, OFFSET and LIMIT on the rows that the
-- sources produce. The calls of the sources themselves are not part of these functions.
use space_db.Base.{
  ℕ, Bool, true, false, List, [], ◌∷◌, ◌++◌, Option, none, some, Result, ok, ◌>>=◌, if◌then◌else◌,
  take, drop, length, ltb,
}
use space_db.Bytes.{Bytes}
use space_db.Types.{Value, value_null, value_boolean, Row, SqlError}
use space_db.Ast.{Expression}
use space_db.Executor.Expressions.{evaluate_expression}

pub record RowsResult : Type 0 where
  pub columns : List Bytes
  pub rows : List Row

-- `value.Kind == types.ValueBoolean && value.Boolean`
abbrev pub is_true : Value → Bool
is_true (value_boolean b) = b
is_true v = false

unfoldable pub filter_rows : Expression → List Bytes → List Row → Result SqlError (List Row)
unfolding evaluate_expression
filter_rows predicate columns [] = ok []
filter_rows predicate columns (row ∷ rows) = do
  value ← evaluate_expression predicate columns row columns row
  kept ← filter_rows predicate columns rows
  ok (if is_true value then row ∷ kept else kept)

-- FilterExecutor.Execute, after its source.
unfoldable pub filter : Expression → RowsResult → Result SqlError RowsResult
unfolding filter_rows
filter predicate source = do
  kept ← filter_rows predicate source.columns source.rows
  ok (record { columns = source.columns; rows = kept })

-- The predicate of a join, where nil matches every pair.
unfoldable pub is_match :
    Option Expression → List Bytes → Row → List Bytes → Row → Result SqlError Bool
unfolding evaluate_expression
is_match none lc a rc b = ok true
is_match (some predicate) lc a rc b = do
  value ← evaluate_expression predicate lc a rc b
  ok (is_true value)

-- The inner loop of the join: the rows made of `a` and each matching row of the right input.
unfoldable pub matches :
    Option Expression → List Bytes → Row → List Bytes → List Row → Result SqlError (List Row)
unfolding is_match
matches predicate lc a rc [] = ok []
matches predicate lc a rc (b ∷ bs) = do
  matched ← is_match predicate lc a rc b
  rest ← matches predicate lc a rc bs
  ok (if matched then (a ++ b) ∷ rest else rest)

abbrev pub nulls : List Bytes → Row
nulls [] = []
nulls (c ∷ cs) = value_null ∷ nulls cs

-- A row of the left input that matched nothing, in an outer join.
abbrev pub pad_row : Bool → Row → List Bytes → List Row → List Row
pad_row true a rc [] = (a ++ nulls rc) ∷ []
pad_row outer a rc rows = rows

unfoldable pub join_rows :
    Option Expression
    → Bool
    → List Bytes
    → List Row
    → List Bytes
    → List Row
    → Result SqlError (List Row)
unfolding matches
join_rows predicate outer lc [] rc bs = ok []
join_rows predicate outer lc (a ∷ as') rc bs = do
  found ← matches predicate lc a rc bs
  rest ← join_rows predicate outer lc as' rc bs
  ok (pad_row outer a rc found ++ rest)

-- NestedLoopJoinExecutor.Execute, after its two inputs.
unfoldable pub join :
    Option Expression → Bool → RowsResult → RowsResult → Result SqlError RowsResult
unfolding join_rows
join predicate outer left right = do
  joined ← join_rows predicate outer left.columns left.rows right.columns right.rows
  ok (record { columns = left.columns ++ right.columns; rows = joined })

-- OffsetExecutor.Execute and LimitExecutor.Execute, after their sources. The planner makes both
-- numbers from literals that are not negative.
unfoldable pub offset : ℕ → RowsResult → RowsResult
offset n source =
    let start = if ltb (length source.rows) n then length source.rows else n in
    record { columns = source.columns; rows = drop start source.rows }

unfoldable pub limit : ℕ → RowsResult → RowsResult
limit n source =
    let end = if ltb (length source.rows) n then length source.rows else n in
    record { columns = source.columns; rows = take end source.rows }
