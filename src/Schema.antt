-- ===== src/Schema.antt =====
-- schema/schema.go: tables, and what they must satisfy.
pub mod Validity
use space_db.Base.{
  ℕ, zero, suc, ◌+◌, Bool, true, false, List, [], ◌∷◌, Option, none, some, Result, ok, err, ◌>>=◌,
  ◌>>◌, length, ◌==◌, if◌then◌else◌, not,
}
use space_db.Bytes.{Bytes, compare_bytes, bytes_eq}
use space_db.Types.{
  Value, Row, DataType, data_type, type_eq, SqlError, empty_table_name, no_columns, no_primary_key,
  many_primary_keys, nullable_primary_key, default_type, row_length, column_missing,
}

-- `default_value` is the field Default, nil or a pointer to a value.
pub record Column : Type 0 where
  pub name : Bytes
  pub data_type : DataType
  pub nullable : Bool
  pub default_value : Option Value
  pub primary_key : Bool

pub record Table : Type 0 where
  pub name : Bytes
  pub columns : List Column

check_primary_key : Column → ℕ → Result SqlError ℕ
check_primary_key c n =
    if c.primary_key
    then (if c.nullable then err (nullable_primary_key c.name) else ok (n + 1))
    else ok n

-- A default without a type is a null.
check_type : Column → Option DataType → Result SqlError (Unit {0})
check_type c none = ok tt
check_type c (some t) = if type_eq t c.data_type then ok tt else err (default_type c.name)

check_default : Column → Option Value → Result SqlError (Unit {0})
unfolding check_type data_type
check_default c none = ok tt
check_default c (some v) = check_type c (data_type v)

-- The loop of Validate, which counts the primary keys.
unfoldable pub check_columns : List Column → ℕ → Result SqlError ℕ
unfolding check_primary_key check_default
check_columns [] n = ok n
check_columns (c ∷ cs) n = do
  m ← check_primary_key c n
  check_default c c.default_value
  check_columns cs m

one_key : ℕ → Result SqlError (Unit {0})
one_key zero = err no_primary_key
one_key (suc zero) = ok tt
one_key (suc (suc n)) = err many_primary_keys

unfoldable pub validate : Table → Result SqlError (Unit {0})
unfolding check_columns one_key
validate t =
    if length t.name == 0
    then err empty_table_name
    else if length t.columns == 0
    then err no_columns
    else do primary_keys ← check_columns t.columns 0; one_key primary_keys

-- The loop of PrimaryKeyValue, over a row as long as the columns.
unfoldable pub find_primary_key : List Column → Row → Result SqlError Value
find_primary_key [] row = err no_primary_key
find_primary_key (c ∷ cs) [] = err no_primary_key
find_primary_key (c ∷ cs) (v ∷ row) = if c.primary_key then ok v else find_primary_key cs row

unfoldable pub primary_key_value : Table → Row → Result SqlError Value
unfolding find_primary_key
primary_key_value t row =
    if length row == length t.columns then find_primary_key t.columns row else err row_length

index_from : ℕ → List Column → Bytes → Result SqlError ℕ
unfolding compare_bytes
index_from i [] name = err (column_missing name)
index_from i (c ∷ cs) name =
    let rest = index_from (i + 1) cs name in if bytes_eq c.name name then ok i else rest

unfoldable pub column_index : Table → Bytes → Result SqlError ℕ
unfolding index_from
column_index t name = index_from 0 t.columns name
