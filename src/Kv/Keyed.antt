-- ===== src/Kv/Keyed.antt =====
-- The keys of rows: different rows have different keys, in the order of their primary keys.
use space_db.Base.{
  ℕ, ◌^◌, ◌<◌, ◌≤◌, ◌≡◌, refl, ap, ◌∙◌, sym, compare, Ordering, Bool, true, false, ok, err, arith,
  ◌==◌, if◌then◌else◌, [], ◌∷◌, ◌++◌, ok-injective, length, All, >>=-eq-ok, append_assoc,
}
use space_db.Bytes.{Bytes, compare_bytes}
use space_db.Bytes.Order.{compare-append_front}
use space_db.Bytes.BigEndian.{be, compare-be, of_be-be, of_be}
use space_db.Types.{
  Value, value_null, value_boolean, value_integer, value_float, value_string, unknown_value,
  compare_value, kind_of, compare_bool, empty_table_name,
}
use space_db.Types.Int64.{ℤ, pos, negsuc, IsInt64, compare_int, uint64_of_int}
use space_db.Types.Float64.{IsFloat64, float_lt, compare_float}
use space_db.Types.Order.{IsValue}
use space_db.Kv.Keys.{row_prefix_key, row_key, encode_primary_key, flip_sign, ordered_bits}

compare-flip_sign_int :
    (a b : ℤ)
    → IsInt64 a
    → IsInt64 b
    → compare (flip_sign (uint64_of_int a)) (flip_sign (uint64_of_int b)) ≡ compare_int a b
unfolding compare_int uint64_of_int
compare-flip_sign_int (pos a) (pos b) ha hb = ground arith
compare-flip_sign_int (pos a) (negsuc b) ha hb = ground arith
compare-flip_sign_int (negsuc a) (pos b) ha hb = ground arith
compare-flip_sign_int (negsuc a) (negsuc b) ha hb = ground arith

flip_sign_small : (i : ℤ) → IsInt64 i → flip_sign (uint64_of_int i) < 256 ^ 8
unfolding uint64_of_int
flip_sign_small (pos a) h = ground arith
flip_sign_small (negsuc a) h = ground arith

ordered_bits_small : (b : ℕ) → IsFloat64 b → ordered_bits b < 256 ^ 8
ordered_bits_small b h = ground arith

ordered_bits_lt :
    (a b : ℕ) → IsFloat64 a → IsFloat64 b → float_lt a b ≡ true → ordered_bits a < ordered_bits b
unfolding float_lt
ordered_bits_lt a b ha hb h = ground arith

ordered_bits_injective :
    (a b : ℕ) → IsFloat64 a → IsFloat64 b → ordered_bits a ≡ ordered_bits b → a ≡ b
ordered_bits_injective a b ha hb h = ground arith

flip_sign_injective :
    (a b : ℤ)
    → IsInt64 a
    → IsInt64 b
    → flip_sign (uint64_of_int a) ≡ flip_sign (uint64_of_int b)
    → a ≡ b
unfolding uint64_of_int
flip_sign_injective (pos a) (pos b) ha hb h = let e : a ≡ b = ground arith in ap pos e
flip_sign_injective (pos a) (negsuc b) ha hb h = absurd (ground arith)
flip_sign_injective (negsuc a) (pos b) ha hb h = absurd (ground arith)
flip_sign_injective (negsuc a) (negsuc b) ha hb h = let e : a ≡ b = ground arith in ap negsuc e

compare_int_lt :
    (x y : ℤ)
    → IsInt64 x
    → IsInt64 y
    → compare_bytes (be 8 (flip_sign (uint64_of_int x))) (be 8 (flip_sign (uint64_of_int y)))
      ≡ compare_int x y
compare_int_lt x y hx hy =
    compare-be 8 (flip_sign (uint64_of_int x)) (flip_sign (uint64_of_int y)) (flip_sign_small x hx)
      (flip_sign_small y hy)
    ∙ compare-flip_sign_int x y hx hy

float_lt_of_compare : (x y : ℕ) → compare_float x y ≡ Ordering.lt → float_lt x y ≡ true
unfolding compare_float
float_lt_of_compare x y h = ground arith

compare_float_lt :
    (x y : ℕ)
    → IsFloat64 x
    → IsFloat64 y
    → compare_float x y ≡ Ordering.lt
    → compare_bytes (be 8 (ordered_bits x)) (be 8 (ordered_bits y)) ≡ Ordering.lt
compare_float_lt x y hx hy h =
    let less = ordered_bits_lt x y hx hy (float_lt_of_compare x y h) in
    compare-be 8 (ordered_bits x) (ordered_bits y) (ordered_bits_small x hx)
      (ordered_bits_small y hy)
    ∙ ground arith

bool_byte_lt :
    (x y : Bool)
    → compare_bool x y ≡ Ordering.lt
    → compare_bytes (1 ∷ (if x then 1 else 0) ∷ []) (1 ∷ (if y then 1 else 0) ∷ []) ≡ Ordering.lt
unfolding compare_bool compare_bytes
bool_byte_lt false true h = refl
bool_byte_lt true false h = cc
bool_byte_lt false false h = cc
bool_byte_lt true true h = cc

-- Among values of one kind, with fields in their ranges, a value that `Compare` finds smaller
-- has a smaller key.
pub encode_primary_key-lt :
    (v w : Value) (a b : Bytes)
    → IsValue v
    → IsValue w
    → kind_of v ≡ kind_of w
    → encode_primary_key v ≡ ok a
    → encode_primary_key w ≡ ok b
    → compare_value v w ≡ ok Ordering.lt
    → compare_bytes a b ≡ Ordering.lt
unfolding compare_value kind_of encode_primary_key
encode_primary_key-lt value_null value_null a b hv hw same ea eb h = absurd (cc (ok-injective h))
encode_primary_key-lt (value_boolean x) (value_boolean y) a b hv hw same ea eb h =
    rw (← ok-injective ea, ← ok-injective eb) (bool_byte_lt x y (ok-injective h))
encode_primary_key-lt (value_integer x) (value_integer y) a b hv hw same ea eb h =
    rw (← ok-injective ea, ← ok-injective eb)
      (compare-append_front (2 ∷ []) (be 8 (flip_sign (uint64_of_int x)))
          (be 8 (flip_sign (uint64_of_int y)))
        ∙ compare_int_lt x y hv hw
        ∙ ok-injective h)
encode_primary_key-lt (value_float x) (value_float y) a b hv hw same ea eb h =
    rw (← ok-injective ea, ← ok-injective eb)
      (compare-append_front (3 ∷ []) (be 8 (ordered_bits x)) (be 8 (ordered_bits y))
        ∙ compare_float_lt x y hv hw (ok-injective h))
encode_primary_key-lt (value_string x) (value_string y) a b hv hw same ea eb h =
    rw (← ok-injective ea, ← ok-injective eb) (compare-append_front (4 ∷ []) x y ∙ ok-injective h)
encode_primary_key-lt (unknown_value k) w a b hv hw same ea eb h = absurd (cc ea)
encode_primary_key-lt v w a b hv hw same ea eb h = absurd (omega arith)

-- The bytes of the key behind the kind.
unfoldable pub key_body : Value → Bytes
key_body value_null = []
key_body (value_boolean b) = (if b then 1 else 0) ∷ []
key_body (value_integer i) = be 8 (flip_sign (uint64_of_int i))
key_body (value_float f) = be 8 (ordered_bits f)
key_body (value_string s) = s
key_body (unknown_value k) = []

pub encode-key_body :
    (v : Value) (a : Bytes) → encode_primary_key v ≡ ok a → a ≡ kind_of v ∷ key_body v
unfolding encode_primary_key kind_of key_body
encode-key_body value_null a e = sym (ok-injective e)
encode-key_body (value_boolean b) a e = sym (ok-injective e)
encode-key_body (value_integer i) a e = sym (ok-injective e)
encode-key_body (value_float f) a e = sym (ok-injective e)
encode-key_body (value_string s) a e = sym (ok-injective e)
encode-key_body (unknown_value k) a e = absurd (cc e)

be_injective : (u v : ℕ) → u < 256 ^ 8 → v < 256 ^ 8 → be 8 u ≡ be 8 v → u ≡ v
be_injective u v hu hv e = sym (of_be-be 8 u hu) ∙ ap (of_be 0) e ∙ of_be-be 8 v hv

key_body-injective :
    (v w : Value) (a : Bytes)
    → IsValue v
    → IsValue w
    → encode_primary_key v ≡ ok a
    → kind_of v ≡ kind_of w
    → key_body v ≡ key_body w
    → v ≡ w
unfolding kind_of key_body encode_primary_key
key_body-injective value_null value_null a hv hw ea same e = refl
key_body-injective (value_boolean true) (value_boolean true) a hv hw ea same e = refl
key_body-injective (value_boolean false) (value_boolean false) a hv hw ea same e = refl
key_body-injective (value_boolean true) (value_boolean false) a hv hw ea same e = absurd (cc e)
key_body-injective (value_boolean false) (value_boolean true) a hv hw ea same e = absurd (cc e)
key_body-injective (value_integer x) (value_integer y) a hv hw ea same e = ap value_integer (
    flip_sign_injective x y hv hw
      (be_injective _ _ (flip_sign_small x hv) (flip_sign_small y hw) e))
key_body-injective (value_float x) (value_float y) a hv hw ea same e = ap value_float (
    ordered_bits_injective x y hv hw
      (be_injective _ _ (ordered_bits_small x hv) (ordered_bits_small y hw) e))
key_body-injective (value_string x) (value_string y) a hv hw ea same e = ap value_string e
key_body-injective (unknown_value k) w a hv hw ea same e = absurd (cc ea)
key_body-injective v w a hv hw ea same e = absurd (omega arith)

-- Different values have different keys.
pub encode_primary_key-injective :
    (v w : Value) (a : Bytes)
    → IsValue v
    → IsValue w
    → encode_primary_key v ≡ ok a
    → encode_primary_key w ≡ ok a
    → v ≡ w
encode_primary_key-injective v w a hv hw ea eb =
    let e : kind_of v ∷ key_body v ≡ kind_of w ∷ key_body w =
      sym (encode-key_body v a ea) ∙ encode-key_body w a eb in
    key_body-injective v w a hv hw ea (cc e) (cc e)

-- A table name without the separator, as the lexer makes them.
abbrev pub IsName : Bytes → Type 0
IsName n = All (λ b. 1 ≤ b) n

separated :
    (m n a b : Bytes) → IsName m → IsName n → m ++ (0 ∷ a) ≡ n ++ (0 ∷ b) → (m ≡ n) × (a ≡ b)
separated [] [] a b hm hn e = (refl, cc e)
separated [] (y ∷ n) a b hm hn e = let z : 0 ≡ y = cc e in absurd (omega (arith, hn.0, z))
separated (x ∷ m) [] a b hm hn e = let z : x ≡ 0 = cc e in absurd (omega (arith, hm.0, z))
separated (x ∷ m) (y ∷ n) a b hm hn e =
    let (names, rest) = separated m n a b hm.1 hn.1 (cc e) in
    let first : x ≡ y = cc e in (cc (first, names), rest)

pub row_key-eq :
    (n k : Bytes) (v : Value)
    → row_key n v ≡ ok k
    → (a : Bytes) × (encode_primary_key v ≡ ok a) × (k ≡ 2 ∷ n ++ (0 ∷ a))
unfolding row_key row_prefix_key
row_key-eq n k v h =
    let (p, hp, rest) = >>=-eq-ok _ _ h in
    let (a, ha, e) = >>=-eq-ok _ _ rest in
    (
      a,
      ha,
      sym (ok-injective e)
          ∙ ap (λ q. q ++ a) (prefix_is p hp)
          ∙ ap (λ q. 2 ∷ q) (append_assoc n (0 ∷ []) a),
    )
  where
    prefix_is :
        (p : Bytes)
        → (if length n == 0 then err empty_table_name else ok (2 ∷ n ++ (0 ∷ []))) ≡ ok p
        → p ≡ 2 ∷ n ++ (0 ∷ [])
    prefix_is p h = ground arith

-- Rows of different tables, and rows with different primary keys, have different keys, where the
-- tables' names hold no zero byte and the values' fields are in their ranges.
pub row_key-injective :
    (m n k : Bytes) (v w : Value)
    → IsName m
    → IsName n
    → IsValue v
    → IsValue w
    → row_key m v ≡ ok k
    → row_key n w ≡ ok k
    → (m ≡ n) × (v ≡ w)
row_key-injective m n k v w hm hn hv hw em en =
    let (a, ea, ka) = row_key-eq m k v em in
    let (b, eb, kb) = row_key-eq n k w en in
    let e : 2 ∷ m ++ (0 ∷ a) ≡ 2 ∷ n ++ (0 ∷ b) = sym ka ∙ kb in
    let (names, bodies) = separated m n a b hm hn (cc e) in
    (names, encode_primary_key-injective v w a hv hw ea (rw bodies eb))
