-- ===== src/Types/Int64.antt =====
-- Go's int64: the integers from -2^63 to 2^63 - 1, and their conversion to uint64.
use space_db.Base.{ℕ, ◌-◌, ◌<◌, compare, Ordering}

-- `negsuc n` is -(n + 1).
pub data ℤ : Type 0 where
  pos negsuc : ℕ → ℤ

abbrev pub IsInt64 : ℤ → Type 0
IsInt64 (pos n) = n < 9223372036854775808
IsInt64 (negsuc n) = n < 9223372036854775808

unfoldable pub compare_int : ℤ → ℤ → Ordering
compare_int (pos a) (pos b) = compare a b
compare_int (pos a) (negsuc b) = Ordering.gt
compare_int (negsuc a) (pos b) = Ordering.lt
compare_int (negsuc a) (negsuc b) = compare b a

-- `uint64(i)`: two's complement.
unfoldable pub uint64_of_int : ℤ → ℕ
uint64_of_int (pos n) = n
uint64_of_int (negsuc n) = 18446744073709551615 - n
