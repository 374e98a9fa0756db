-- ===== src/Types/Order.antt =====
-- The order of values.
use space_db.Base.{ℕ, ◌<◌, ◌≡◌, refl, ap, compare, Ordering, Bool, true, false, ok, err, arith}
use space_db.Bytes.{Bytes, IsBytes, compare_bytes}
use space_db.Bytes.Order.{compare_swap_gt, compare_swap_lt, eq_of_compare, compare_refl}
use space_db.Types.{
  Value, value_null, value_boolean, value_integer, value_float, value_string, unknown_value,
  compare_value, compare_bool, kind_of, incomparable,
}
use space_db.Types.Int64.{ℤ, pos, negsuc, IsInt64, compare_int}
use space_db.Types.Float64.{IsFloat64, float_lt, compare_float, float_of_int}

abbrev pub swap : Ordering → Ordering
swap Ordering.lt = Ordering.gt
swap Ordering.eq = Ordering.eq
swap Ordering.gt = Ordering.lt

-- The ranges of the fields of a value.
abbrev pub IsValue : Value → Type 0
IsValue value_null = Unit
IsValue (value_boolean b) = Unit
IsValue (value_integer i) = IsInt64 i
IsValue (value_float f) = IsFloat64 f
IsValue (value_string s) = IsBytes s
IsValue (unknown_value k) = k < 251

swap-compare : (a b : ℕ) → compare b a ≡ swap (compare a b)
swap-compare a b = ground arith

swap-compare_bool : (a b : Bool) → compare_bool b a ≡ swap (compare_bool a b)
unfolding compare_bool
swap-compare_bool true true = refl
swap-compare_bool true false = refl
swap-compare_bool false true = refl
swap-compare_bool false false = refl

swap-compare_int : (a b : ℤ) → compare_int b a ≡ swap (compare_int a b)
unfolding compare_int
swap-compare_int (pos a) (pos b) = swap-compare a b
swap-compare_int (pos a) (negsuc b) = refl
swap-compare_int (negsuc a) (pos b) = refl
swap-compare_int (negsuc a) (negsuc b) = swap-compare b a

swap-compare_bytes : (a b : Bytes) → compare_bytes b a ≡ swap (compare_bytes a b)
swap-compare_bytes a b = go (compare_bytes a b) refl
  where
    go : (o : Ordering) → compare_bytes a b ≡ o → compare_bytes b a ≡ swap o
    go Ordering.lt h = compare_swap_lt a b h
    go Ordering.gt h = compare_swap_gt a b h
    go Ordering.eq h = rw (eq_of_compare a b h) (compare_refl b)

float_lt_asym : (a b : ℕ) → float_lt a b ≡ true → float_lt b a ≡ false
unfolding float_lt
float_lt_asym a b h = ground arith

swap-compare_float : (a b : ℕ) → compare_float b a ≡ swap (compare_float a b)
unfolding compare_float
swap-compare_float a b = ground (arith, float_lt_asym a b, float_lt_asym b a)

-- `Compare` with the operands exchanged gives the opposite order, and where it gave an error, the
-- error with the kinds of the operands exchanged.
pub compare_value-swap :
    (v w : Value)
    → compare_value w v ≡ (elim (compare_value v w) [
      | ok o ↦ ok (swap o)
      | err e ↦ err (incomparable (kind_of w) (kind_of v))
    ])
unfolding compare_value kind_of
compare_value-swap value_null value_null = refl
compare_value-swap (value_boolean a) (value_boolean b) = ap ok (swap-compare_bool a b)
compare_value-swap (value_integer a) (value_integer b) = ap ok (swap-compare_int a b)
compare_value-swap (value_float a) (value_float b) = ap ok (swap-compare_float a b)
compare_value-swap (value_integer a) (value_float b) = ap ok (swap-compare_float (float_of_int a) b)
compare_value-swap (value_float a) (value_integer b) = ap ok (swap-compare_float a (float_of_int b))
compare_value-swap (value_string a) (value_string b) = ap ok (swap-compare_bytes a b)
compare_value-swap value_null (value_boolean b) = refl
compare_value-swap value_null (value_integer b) = refl
compare_value-swap value_null (value_float b) = refl
compare_value-swap value_null (value_string b) = refl
compare_value-swap value_null (unknown_value b) = refl
compare_value-swap (value_boolean a) value_null = refl
compare_value-swap (value_boolean a) (value_integer b) = refl
compare_value-swap (value_boolean a) (value_float b) = refl
compare_value-swap (value_boolean a) (value_string b) = refl
compare_value-swap (value_boolean a) (unknown_value b) = refl
compare_value-swap (value_integer a) value_null = refl
compare_value-swap (value_integer a) (value_boolean b) = refl
compare_value-swap (value_integer a) (value_string b) = refl
compare_value-swap (value_integer a) (unknown_value b) = refl
compare_value-swap (value_float a) value_null = refl
compare_value-swap (value_float a) (value_boolean b) = refl
compare_value-swap (value_float a) (value_string b) = refl
compare_value-swap (value_float a) (unknown_value b) = refl
compare_value-swap (value_string a) value_null = refl
compare_value-swap (value_string a) (value_boolean b) = refl
compare_value-swap (value_string a) (value_integer b) = refl
compare_value-swap (value_string a) (value_float b) = refl
compare_value-swap (value_string a) (unknown_value b) = refl
compare_value-swap (unknown_value a) value_null = refl
compare_value-swap (unknown_value a) (value_boolean b) = refl
compare_value-swap (unknown_value a) (value_integer b) = refl
compare_value-swap (unknown_value a) (value_float b) = refl
compare_value-swap (unknown_value a) (value_string b) = refl
compare_value-swap (unknown_value a) (unknown_value b) = refl
