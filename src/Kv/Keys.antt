-- ===== src/Kv/Keys.antt =====
-- engine/kv.go: the keys of tables and rows.
use space_db.Base.{
  ℕ, ◌+◌, ◌-◌, [], ◌∷◌, ◌++◌, Result, ok, err, ◌>>=◌, length, ◌==◌, leb, if◌then◌else◌,
}
use space_db.Bytes.{Bytes}
use space_db.Bytes.BigEndian.{be}
use space_db.Types.{
  Value, value_null, value_boolean, value_integer, value_float, value_string, unknown_value,
  SqlError, empty_table_name, invalid_kind,
}
use space_db.Types.Int64.{uint64_of_int}
use space_db.Types.Float64.{sign_bit, is_negative}

unfoldable pub table_key : Bytes → Result SqlError Bytes
table_key table_name = if length table_name == 0 then err empty_table_name else ok (1 ∷ table_name)

unfoldable pub row_prefix_key : Bytes → Result SqlError Bytes
row_prefix_key table_name =
    if length table_name == 0 then err empty_table_name else ok (2 ∷ table_name ++ (0 ∷ []))

-- `x ^ (1 << 63)`
abbrev pub flip_sign : ℕ → ℕ
flip_sign x = if leb sign_bit x then x - sign_bit else x + sign_bit

-- The bits of a float in an order of unsigned numbers: `^bits` of a negative one.
abbrev pub ordered_bits : ℕ → ℕ
ordered_bits b = if is_negative b then 18446744073709551615 - b else flip_sign b

unfoldable pub encode_primary_key : Value → Result SqlError Bytes
unfolding uint64_of_int be
encode_primary_key value_null = ok (0 ∷ [])
encode_primary_key (value_boolean b) = ok (1 ∷ (if b then 1 else 0) ∷ [])
encode_primary_key (value_integer i) = ok (2 ∷ be 8 (flip_sign (uint64_of_int i)))
encode_primary_key (value_float f) = ok (3 ∷ be 8 (ordered_bits f))
encode_primary_key (value_string s) = ok (4 ∷ s)
encode_primary_key (unknown_value k) = err (invalid_kind [])

unfoldable pub row_key : Bytes → Value → Result SqlError Bytes
unfolding row_prefix_key encode_primary_key
row_key table_name primary = do
  prefix ← row_prefix_key table_name
  encoded_primary ← encode_primary_key primary
  ok (prefix ++ encoded_primary)
