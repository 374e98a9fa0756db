-- ===== src/Types/Float64.antt =====
-- Go's float64, by its 64 bits (math.Float64bits): IEEE 754 comparison, and the conversion of an
-- int64, rounded to the nearest, ties to even.
use space_db.Base.{
  ℕ, zero, suc, ◌+◌, ◌-◌, ◌*◌, ◌/◌, ◌%◌, ◌^◌, ◌<◌, Ordering, Bool, true, false, ltb, leb, ◌==◌,
  ◌&&◌, ◌||◌, if◌then◌else◌,
}
use space_db.Types.Int64.{ℤ, pos, negsuc}

-- The bit of the sign, 2^63.
abbrev pub sign_bit : ℕ
sign_bit = 9223372036854775808

abbrev pub IsFloat64 : ℕ → Type 0
IsFloat64 b = b < 18446744073709551616

abbrev pub magnitude : ℕ → ℕ
magnitude b = b % sign_bit

abbrev pub is_negative : ℕ → Bool
is_negative b = leb sign_bit b

-- The exponent has all bits set and the fraction is not zero.
abbrev pub is_nan : ℕ → Bool
is_nan b = ltb 9218868437227405312 (magnitude b)

-- `a < b` and `a == b`. A NaN is not ordered, and the two zeros are equal.
unfoldable pub float_lt : ℕ → ℕ → Bool
float_lt a b =
    if is_nan a || is_nan b
    then false
    else if (magnitude a == 0) && (magnitude b == 0)
    then false
    else if is_negative a
    then (if is_negative b then ltb (magnitude b) (magnitude a) else true)
    else if is_negative b
    then false
    else ltb a b

unfoldable pub float_eq : ℕ → ℕ → Bool
float_eq a b =
    if is_nan a || is_nan b
    then false
    else if (magnitude a == 0) && (magnitude b == 0)
    then true
    else a == b

-- The comparisons of Value.Compare: less, then greater, else equal.
unfoldable pub compare_float : ℕ → ℕ → Ordering
unfolding float_lt
compare_float a b =
    if float_lt a b then Ordering.lt else if float_lt b a then Ordering.gt else Ordering.eq

-- The position of the highest bit of a number below 2^fuel.
log2 : ℕ → ℕ → ℕ
log2 zero m = 0
log2 (suc fuel) m = let rest = log2 fuel (m / 2) in if ltb m 2 then 0 else suc rest

shift_round : ℕ → ℕ → ℕ
shift_round m k =
    let q = m / 2 ^ k in
    let r = m % 2 ^ k in
    let half = 2 ^ (k - 1) in if ltb half r then q + 1 else if r == half then q + q % 2 else q

float_of_nat : ℕ → ℕ
unfolding log2 shift_round
float_of_nat m =
    let e = log2 64 m in
    let significand = if leb e 52 then m * 2 ^ (52 - e) else shift_round m (e - 52) in
    if m == 0 then 0 else (e + 1022) * 4503599627370496 + significand

-- `float64(i)`
unfoldable pub float_of_int : ℤ → ℕ
unfolding float_of_nat
float_of_int (pos n) = float_of_nat n
float_of_int (negsuc n) = sign_bit + float_of_nat (n + 1)
