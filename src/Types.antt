-- ===== src/Types.antt =====
-- types/: the runtime values, their SQL types and their order; and the errors of the SQL layer.
pub mod Int64
pub mod Float64
pub mod Order
use space_db.Base.{
  ℕ, ◌+◌, compare, Ordering, Bool, true, false, not, ◌&&◌, List, Option, none, some, Result, ok,
  err, ◌==◌, ltb,
}
use space_db.Bytes.{Bytes, compare_bytes, bytes_eq}
use space_db.Storage.Errors.{Error}
use Int64.{ℤ, pos, negsuc, compare_int}
use Float64.{compare_float, float_of_int, float_eq}

pub data DataType : Type 0 where
  boolean integer float string : DataType

-- Value, a tagged union: a constructor for each ValueKind with the one field that the kind uses.
-- A string is the list of its bytes and a float64 the number of its bits; `unknown_value k` is
-- the kind 5 + k, which has no constant.
pub data Value : Type 0 where
  value_null : Value
  value_boolean : Bool → Value
  value_integer : ℤ → Value
  value_float : ℕ → Value
  value_string : Bytes → Value
  unknown_value : ℕ → Value

abbrev pub Row : Type 0
Row = List Value

-- The errors of types/, schema/, engine/ and executor/. A constructor stands for the message at
-- one place; the context that a caller wraps round an error with %w is not modelled.
pub data SqlError : Type 0 where
  storage : Error → SqlError
  incomparable : ℕ → ℕ → SqlError
  empty_table_name no_columns no_primary_key many_primary_keys : SqlError
  nullable_primary_key default_type : Bytes → SqlError
  row_length : SqlError
  column_missing : Bytes → SqlError
  null_in_column invalid_kind type_mismatch : Bytes → SqlError
  table_missing table_exists duplicate_key : Bytes → SqlError
  invalid_table : SqlError → SqlError
  bad_encoding : SqlError
  unsupported_operation unsupported_expression : SqlError
  too_many_values value_count : SqlError
  no_default repeated_column : Bytes → SqlError
  cross_with_predicate join_without_predicate : SqlError
  group_by_not_column item_not_grouped mixed_aggregates : SqlError
  column_not_grouped : Bytes → SqlError
  not_a_count : SqlError
  unknown_aggregate not_numeric : Bytes → SqlError
  -- a run-time panic: an index out of range
  panic : SqlError

unfoldable pub kind_of : Value → ℕ
kind_of value_null = 0
kind_of (value_boolean b) = 1
kind_of (value_integer i) = 2
kind_of (value_float f) = 3
kind_of (value_string s) = 4
kind_of (unknown_value k) = 5 + k

-- `none` stands for the second result false.
unfoldable pub data_type : Value → Option DataType
data_type value_null = none
data_type (value_boolean b) = some boolean
data_type (value_integer i) = some integer
data_type (value_float f) = some float
data_type (value_string s) = some string
data_type (unknown_value k) = none

-- `v.Kind == types.ValueNull`
abbrev pub is_null : Value → Bool
is_null v = elim v [ value_null ↦ true | _ ↦ false ]

abbrev pub type_eq : DataType → DataType → Bool
type_eq boolean boolean = true
type_eq integer integer = true
type_eq float float = true
type_eq string string = true
type_eq _ _ = false

unfoldable pub compare_bool : Bool → Bool → Ordering
compare_bool false true = Ordering.lt
compare_bool true false = Ordering.gt
compare_bool false false = Ordering.eq
compare_bool true true = Ordering.eq

-- Value.Compare; -1, 0 and 1 are the three orderings.
unfoldable pub compare_value : Value → Value → Result SqlError Ordering
unfolding kind_of compare_bool compare_int compare_float float_of_int compare_bytes
compare_value value_null value_null = ok Ordering.eq
compare_value value_null w = ok Ordering.lt
compare_value v value_null = ok Ordering.gt
compare_value (value_boolean a) (value_boolean b) = ok (compare_bool a b)
compare_value (value_integer a) (value_integer b) = ok (compare_int a b)
compare_value (value_float a) (value_float b) = ok (compare_float a b)
compare_value (value_integer a) (value_float b) = ok (compare_float (float_of_int a) b)
compare_value (value_float a) (value_integer b) = ok (compare_float a (float_of_int b))
compare_value (value_string a) (value_string b) = ok (compare_bytes a b)
compare_value v w = err (incomparable (kind_of v) (kind_of w))

int_eq : ℤ → ℤ → Bool
int_eq (pos a) (pos b) = a == b
int_eq (negsuc a) (negsuc b) = a == b
int_eq _ _ = false

bool_eq : Bool → Bool → Bool
bool_eq true b = b
bool_eq false b = not b

-- Go's `==` on two Value structs, whose unused fields are zero.
unfoldable pub value_eq : Value → Value → Bool
unfolding int_eq bool_eq float_eq compare_bytes
value_eq value_null value_null = true
value_eq (value_boolean a) (value_boolean b) = bool_eq a b
value_eq (value_integer a) (value_integer b) = int_eq a b
value_eq (value_float a) (value_float b) = float_eq a b
value_eq (value_string a) (value_string b) = bytes_eq a b
value_eq (unknown_value a) (unknown_value b) = a == b
value_eq _ _ = false
