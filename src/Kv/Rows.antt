-- ===== src/Kv/Rows.antt =====
-- engine/kv.go: the test of a row against its table.
use space_db.Base.{
  List, [], ◌∷◌, Option, none, some, Result, ok, err, ◌>>◌, length, ◌==◌, if◌then◌else◌,
}
use space_db.Types.{
  Value, value_null, Row, DataType, data_type, type_eq, SqlError, row_length, null_in_column,
  invalid_kind, type_mismatch,
}
use space_db.Schema.{Column, Table}

unfoldable pub check_kind : Column → Option DataType → Result SqlError (Unit {0})
check_kind c none = err (invalid_kind c.name)
check_kind c (some t) = if type_eq t c.data_type then ok tt else err (type_mismatch c.name)

unfoldable pub validate_value : Column → Value → Result SqlError (Unit {0})
unfolding check_kind data_type
validate_value c value_null = if c.nullable then ok tt else err (null_in_column c.name)
validate_value c v = check_kind c (data_type v)

-- The loop of validateRow, over a row as long as the columns.
unfoldable pub validate_values : List Column → Row → Result SqlError (Unit {0})
unfolding validate_value
validate_values [] row = ok tt
validate_values (c ∷ cs) [] = ok tt
validate_values (c ∷ cs) (v ∷ row) = do validate_value c v; validate_values cs row

unfoldable pub validate_row : Table → Row → Result SqlError (Unit {0})
unfolding validate_values
validate_row t row =
    if length row == length t.columns then validate_values t.columns row else err row_length
