-- ===== src/Bytes.antt =====
-- Byte slices: lists of numbers below 256. A slice that may be nil is an `Option`, with `none` for
-- nil. The comparison is the one of the standard library's bytes package.
pub mod Order
pub mod BigEndian
use space_db.Base.{ℕ, ◌<◌, compare, Ordering, Bool, true, false, List, [], ◌∷◌, Option, All}

abbrev pub Bytes : Type 0
Bytes = List ℕ

abbrev pub Slice : Type 0
Slice = Option Bytes

abbrev pub IsByte : ℕ → Type 0
IsByte b = b < 256

abbrev pub IsBytes : Bytes → Type 0
IsBytes bs = All IsByte bs

-- `bytes.Compare`: lexicographic, a proper prefix first.
unfoldable pub compare_bytes : Bytes → Bytes → Ordering
compare_bytes [] [] = Ordering.eq
compare_bytes [] (b ∷ bs) = Ordering.lt
compare_bytes (a ∷ as') [] = Ordering.gt
compare_bytes (a ∷ as') (b ∷ bs) = elim (compare a b) [
  | Ordering.lt ↦ Ordering.lt
  | Ordering.eq ↦ compare_bytes as' bs
  | Ordering.gt ↦ Ordering.gt
]

-- `bytes.Equal`, and equality of map keys.
abbrev pub bytes_eq : Bytes → Bytes → Bool
bytes_eq a b = elim (compare_bytes a b) [ Ordering.eq ↦ true | _ ↦ false ]

-- `bytes.Compare(a, b) < 0`
abbrev pub bytes_lt : Bytes → Bytes → Bool
bytes_lt a b = elim (compare_bytes a b) [ Ordering.lt ↦ true | _ ↦ false ]
