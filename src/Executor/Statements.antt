-- ===== src/Executor/Statements.antt =====
-- executor/executor.go: the executors that call the transaction. A source is the result that its
-- executor returned.
use space_db.Base.{ℕ, suc, ◌+◌, List, [], ◌∷◌, Option, none, some, Result, ok, err, ◌>>=◌, set_elem}
use space_db.Base.Exec.{Exec, pure, reads, lift, ◌>>◌}
use space_db.Bytes.{Bytes}
use space_db.Types.{Value, Row, SqlError}
use space_db.Schema.{Column, Table, primary_key_value, column_index}
use space_db.Ast.{Expression}
use space_db.Kv.{need_table}
use space_db.Executor.Expressions.{value_from_expression}
use space_db.Executor.Inserts.{make_insert_row}
use space_db.Executor.Relations.{RowsResult}
use space_db.Executor.Transaction.{Transaction}

pub data ResultSet : Type 0 where
  create_table_result : Bytes → ResultSet
  insert_result update_result delete_result : ℕ → ResultSet
  rows_result : RowsResult → ResultSet

unfoldable pub values_of : List Expression → Result SqlError Row
values_of [] = ok []
values_of (e ∷ es) = do v ← value_from_expression e; vs ← values_of es; ok (v ∷ vs)

-- The row that one list of values of an INSERT stands for.
unfoldable pub inserted_row : Table → List Bytes → List Expression → Result SqlError Row
inserted_row table column_names es = do
  input ← values_of es
  make_insert_row table column_names input

-- The assignments of an UPDATE by position; the map's order is the order of its list.
unfoldable pub resolve : Table → List (Bytes × Expression) → Result SqlError (List (ℕ × Value))
resolve table [] = ok []
resolve table ((name, e) ∷ rest) = do
  i ← column_index table name
  v ← value_from_expression e
  others ← resolve table rest
  ok ((i, v) ∷ others)

-- `updatedRow`
unfoldable pub assign : List (ℕ × Value) → Row → Row
assign [] row = row
assign ((i, v) ∷ rest) row = assign rest (set_elem row i v)

abbrev pub column_names : List Column → List Bytes
column_names [] = []
column_names (c ∷ cs) = c.name ∷ column_names cs

module _ (tx : Transaction) where
  unfoldable pub create_table : Table → Exec tx.State SqlError ResultSet
  create_table table =
      space_db.Base.Exec.◌>>=◌ (tx.create_table table) λ _. pure (create_table_result table.name)

  -- `GetTable` and `table == nil`
  unfoldable pub load_table : Bytes → Exec tx.State SqlError Table
  load_table name =
      space_db.Base.Exec.◌>>=◌ (reads (tx.get_table name)) λ found. lift (need_table name found)

  unfoldable pub insert_rows :
      Bytes → Table → List Bytes → List (List Expression) → ℕ → Exec tx.State SqlError ℕ
  insert_rows name table columns [] inserted = pure inserted
  insert_rows name table columns (es ∷ rest) inserted =
      space_db.Base.Exec.◌>>=◌ (lift (inserted_row table columns es))
        λ row. tx.create_row name row >> insert_rows name table columns rest (inserted + 1)

  unfoldable pub insert :
      Bytes → List Bytes → List (List Expression) → Exec tx.State SqlError ResultSet
  insert name columns values = space_db.Base.Exec.◌>>=◌ (load_table name) λ table.
      space_db.Base.Exec.◌>>=◌ (insert_rows name table columns values 0)
        λ inserted. pure (insert_result inserted)

  unfoldable pub scan : Bytes → Exec tx.State SqlError ResultSet
  scan name = space_db.Base.Exec.◌>>=◌ (load_table name) λ table.
      space_db.Base.Exec.◌>>=◌ (reads (tx.scan_table table))
        λ rows. pure (rows_result (record { columns = column_names table.columns; rows = rows }))

  unfoldable pub update_rows : Table → List (ℕ × Value) → List Row → ℕ → Exec tx.State SqlError ℕ
  update_rows table assignments [] updated = pure updated
  update_rows table assignments (row ∷ rows) updated =
      space_db.Base.Exec.◌>>=◌ (lift (primary_key_value table row)) λ old_primary_key.
        tx.update_row table old_primary_key (assign assignments row)
        >> update_rows table assignments rows (updated + 1)

  unfoldable pub update :
      Bytes
      → List (Bytes × Expression)
      → Exec tx.State SqlError RowsResult
      → Exec tx.State SqlError ResultSet
  update name assignments source = space_db.Base.Exec.◌>>=◌ (load_table name) λ table.
      space_db.Base.Exec.◌>>=◌ (lift (resolve table assignments)) λ resolved.
        space_db.Base.Exec.◌>>=◌ source λ found.
          space_db.Base.Exec.◌>>=◌ (update_rows table resolved found.rows 0)
            λ updated. pure (update_result updated)

  unfoldable pub delete_rows : Table → List Row → ℕ → Exec tx.State SqlError ℕ
  delete_rows table [] deleted = pure deleted
  delete_rows table (row ∷ rows) deleted =
      space_db.Base.Exec.◌>>=◌ (lift (primary_key_value table row))
        λ primary_key. tx.delete_row table primary_key >> delete_rows table rows (deleted + 1)

  unfoldable pub delete :
      Bytes → Exec tx.State SqlError RowsResult → Exec tx.State SqlError ResultSet
  delete name source = space_db.Base.Exec.◌>>=◌ (load_table name) λ table.
      space_db.Base.Exec.◌>>=◌ source λ found.
        space_db.Base.Exec.◌>>=◌ (delete_rows table found.rows 0)
          λ deleted. pure (delete_result deleted)
