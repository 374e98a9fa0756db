-- ===== src/Executor/Projection.antt =====
-- executor/executor.go: ProjectionExecutor.
use space_db.Base.{
  ℕ, suc, List, [], ◌∷◌, Option, none, some, Result, ok, err, ◌>>=◌, get_elem?, if◌then◌else◌,
}
use space_db.Bytes.{Bytes, bytes_eq}
use space_db.Types.{Value, Row, SqlError, column_missing, panic}
use space_db.Ast.{
  Expression, SelectItem, null, boolean_literal, integer_literal, float_literal, string_literal,
  operation_expression, function_expression, column_reference,
}
use space_db.Executor.Expressions.{value_from_expression}
use space_db.Executor.Relations.{RowsResult}

-- `slices.Index(columns, name)`, counted from `i`.
unfoldable pub index_of : ℕ → List Bytes → Bytes → Option ℕ
index_of i [] name = none
index_of i (c ∷ cs) name =
    let later = index_of (suc i) cs name in if bytes_eq c name then some i else later

-- An item, resolved: the place in the row, or a constant.
pub data Source : Type 0 where
  column_at : ℕ → Source
  constant : Value → Source

-- `?column?`
abbrev pub unnamed : Bytes
unnamed = 63 ∷ 99 ∷ 111 ∷ 108 ∷ 117 ∷ 109 ∷ 110 ∷ 63 ∷ []

abbrev pub name_or : Option Bytes → Bytes → Bytes
name_or none name = name
name_or (some alias) name = alias

unfoldable pub constant_item : Option Bytes → Expression → Result SqlError (Bytes × Source)
constant_item alias e = do v ← value_from_expression e; ok (name_or alias unnamed, constant v)

unfoldable pub column_item : Bytes → Option Bytes → Option ℕ → Result SqlError (Bytes × Source)
column_item name alias none = err (column_missing name)
column_item name alias (some i) = ok (name_or alias name, column_at i)

-- Only a column reference is read from the row.
unfoldable pub resolve_item :
    List Bytes → Option Bytes → Expression → Result SqlError (Bytes × Source)
resolve_item columns alias (column_reference name) =
    column_item name alias (index_of 0 columns name)
resolve_item columns alias null = constant_item alias null
resolve_item columns alias (boolean_literal b) = constant_item alias (boolean_literal b)
resolve_item columns alias (integer_literal i) = constant_item alias (integer_literal i)
resolve_item columns alias (float_literal f) = constant_item alias (float_literal f)
resolve_item columns alias (string_literal s) = constant_item alias (string_literal s)
resolve_item columns alias (operation_expression o a b) =
    constant_item alias (operation_expression o a b)
resolve_item columns alias (function_expression f a) = constant_item alias (function_expression f a)

unfoldable pub resolve_items :
    List Bytes → List SelectItem → Result SqlError (List (Bytes × Source))
resolve_items columns [] = ok []
resolve_items columns (item ∷ items) = do
  first ← resolve_item columns item.alias item.expression
  others ← resolve_items columns items
  ok (first ∷ others)

-- `sourceRow[item.columnIndex]` panics out of range.
unfoldable pub cell : Row → Source → Result SqlError Value
cell row (constant v) = ok v
cell row (column_at i) = elim (get_elem? row i) [ none ↦ err panic | some v ↦ ok v ]

unfoldable pub project_row : List (Bytes × Source) → Row → Result SqlError Row
project_row [] row = ok []
project_row ((name, source) ∷ items) row = do
  v ← cell row source
  vs ← project_row items row
  ok (v ∷ vs)

unfoldable pub project_rows : List (Bytes × Source) → List Row → Result SqlError (List Row)
project_rows items [] = ok []
project_rows items (row ∷ rows) = do
  first ← project_row items row
  others ← project_rows items rows
  ok (first ∷ others)

abbrev pub output_names : List (Bytes × Source) → List Bytes
output_names [] = []
output_names ((name, source) ∷ items) = name ∷ output_names items

-- ProjectionExecutor.Execute, after its source.
unfoldable pub project : List SelectItem → RowsResult → Result SqlError RowsResult
project items source = do
  resolved ← resolve_items source.columns items
  rows ← project_rows resolved source.rows
  ok (record { columns = output_names resolved; rows = rows })
