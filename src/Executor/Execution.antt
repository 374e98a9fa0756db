-- ===== src/Executor/Execution.antt =====
-- executor/executor.go: ORDER BY, and Build with the executors of all nodes of a plan.
use space_db.Base.{
  ℕ, ◌≡◌, refl, sym, ap, ◌∙◌, List, [], ◌∷◌, Option, none, some, Result, ok, err, ◌>>=◌, >>=-eq-ok,
  ok-injective, Ordering, length, suc,
}
use space_db.Base.Exec.{Exec, pure, reads, lift}
use space_db.Bytes.{Bytes}
use space_db.Types.{Row, SqlError, compare_value, panic}
use space_db.Ast.{OrderBy, OrderDirection, order_ascending, order_descending, Expression}
use space_db.Planner.{
  Node, create_table_node, insert_node, scan_node, filter_node, order_node, limit_node, offset_node,
  projection_node, aggregate_node, nested_loop_join_node, update_node, delete_node,
}
use space_db.Executor.Relations.{RowsResult, filter, join, limit, offset}
use space_db.Executor.Projection.{project}
use space_db.Executor.Aggregates.{aggregate, cell_at, column_of}
use space_db.Executor.Transaction.{Transaction}
use space_db.Executor.Statements.{
  ResultSet, create_table_result, insert_result, update_result, delete_result, rows_result,
  create_table, insert, scan, update, delete,
}

-- The columns of ORDER BY by their places.
unfoldable pub order_columns :
    List Bytes → List OrderBy → Result SqlError (List (ℕ × OrderDirection))
order_columns columns [] = ok []
order_columns columns (o ∷ os) = do
  i ← column_of columns o.column
  rest ← order_columns columns os
  ok ((i, o.direction) ∷ rest)

unfoldable pub directed : OrderDirection → Ordering → Ordering
directed order_ascending o = o
directed order_descending Ordering.lt = Ordering.gt
directed order_descending Ordering.eq = Ordering.eq
directed order_descending Ordering.gt = Ordering.lt

abbrev pub or_next : Ordering → OrderDirection → Result SqlError Ordering → Result SqlError Ordering
or_next Ordering.eq direction later = later
or_next Ordering.lt direction later = ok (directed direction Ordering.lt)
or_next Ordering.gt direction later = ok (directed direction Ordering.gt)

-- The comparison that is given to `slices.SortStableFunc`.
unfoldable pub compare_rows : List (ℕ × OrderDirection) → Row → Row → Result SqlError Ordering
compare_rows [] a b = ok Ordering.eq
compare_rows ((i, direction) ∷ rest) a b = do
  x ← cell_at i a
  y ← cell_at i b
  comparison ← compare_value x y
  or_next comparison direction (compare_rows rest a b)

-- A stable insertion sort, where a comparison that fails fails the sort: every stable sort gives this
-- result on rows that can be compared.
unfoldable pub insert_row : List (ℕ × OrderDirection) → Row → List Row → Result SqlError (List Row)
insert_row by row [] = ok (row ∷ [])
insert_row by row (first ∷ rows) = do
  comparison ← compare_rows by first row
  elim comparison [
    | Ordering.lt ↦ insert_row by row rows >>= λ inserted. ok (first ∷ inserted)
    | _ ↦ ok (row ∷ first ∷ rows)
  ]

unfoldable pub sort_rows : List (ℕ × OrderDirection) → List Row → Result SqlError (List Row)
sort_rows by [] = ok []
sort_rows by (row ∷ rows) = do sorted ← sort_rows by rows; insert_row by row sorted

-- OrderExecutor.Execute, after its source.
unfoldable pub order : List OrderBy → RowsResult → Result SqlError RowsResult
order os source = do
  by ← order_columns source.columns os
  rows ← sort_rows by source.rows
  ok (record { columns = source.columns; rows = rows })

-- `sourceResult.(RowsResult)` panics on another result.
unfoldable pub rows_of : ResultSet → Result SqlError RowsResult
rows_of (rows_result r) = ok r
rows_of (create_table_result name) = err panic
rows_of (insert_result n) = err panic
rows_of (update_result n) = err panic
rows_of (delete_result n) = err panic

module _ (float_add float_div : ℕ → ℕ → ℕ) (tx : Transaction) where
  -- An executor that calls its source and then works on its rows.
  unfoldable pub on_rows :
      Exec tx.State SqlError ResultSet
      → (RowsResult → Result SqlError RowsResult)
      → Exec tx.State SqlError ResultSet
  on_rows source step = space_db.Base.Exec.◌>>=◌ source λ result.
      space_db.Base.Exec.◌>>=◌ (lift (rows_of result >>= step)) λ found. pure (rows_result found)

  unfoldable pub source_rows : Exec tx.State SqlError ResultSet → Exec tx.State SqlError RowsResult
  source_rows source = space_db.Base.Exec.◌>>=◌ source λ result. lift (rows_of result)

  unfoldable pub join_sources :
      Exec tx.State SqlError ResultSet
      → Exec tx.State SqlError ResultSet
      → Option Expression
      → space_db.Base.Bool
      → Exec tx.State SqlError ResultSet
  join_sources left right predicate outer = space_db.Base.Exec.◌>>=◌ (source_rows left) λ l.
      space_db.Base.Exec.◌>>=◌ (source_rows right) λ r.
        space_db.Base.Exec.◌>>=◌ (lift (join predicate outer l r))
          λ joined. pure (rows_result joined)

  -- Build, with the Execute of the executor that it makes for each node.
  unfoldable pub execute : Node → Exec tx.State SqlError ResultSet
  execute (create_table_node table) = create_table tx table
  execute (insert_node name columns values) = insert tx name columns values
  execute (scan_node name) = scan tx name
  execute (filter_node source predicate) = on_rows (execute source) (filter predicate)
  execute (order_node source os) = on_rows (execute source) (order os)
  execute (limit_node source n) = on_rows (execute source) (λ r. ok (limit n r))
  execute (offset_node source n) = on_rows (execute source) (λ r. ok (offset n r))
  execute (projection_node source items) = on_rows (execute source) (project items)
  execute (aggregate_node source items group_by) =
      on_rows (execute source) (aggregate float_add float_div items group_by)
  execute (nested_loop_join_node left right predicate outer) =
      join_sources (execute left) (execute right) predicate outer
  execute (update_node name source assignments) =
      update tx name assignments (source_rows (execute source))
  execute (delete_node name source) = delete tx name (source_rows (execute source))
