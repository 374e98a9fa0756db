-- ===== src/Kv/Fits.antt =====
-- What validateRow accepts, and the primary key of an accepted row.
use space_db.Base.{
  ◌≡◌, ◌≢◌, ◌↔◌, refl, ap, ◌∙◌, Bool, true, false, List, [], ◌∷◌, Option, none, some, Result, ok,
  length, if◌then◌else◌, arith, All, Bool-cases, inl, inr, >>=-eq-ok, some-injective,
}
use space_db.Bytes.{Bytes}
use space_db.Types.{
  Value, value_null, value_boolean, value_integer, value_float, value_string, unknown_value, Row,
  DataType, data_type, type_eq, boolean, integer, float, string, SqlError,
}
use space_db.Schema.{Column, Table, validate, primary_key_value, find_primary_key}
use space_db.Schema.Validity.{IsColumn, count_keys, validate-IsTable}
use space_db.Kv.Keys.{encode_primary_key}
use space_db.Kv.Rows.{validate_value, validate_values, validate_row, check_kind}

-- A value that may stand in a column: a null in a nullable column, or a value of its type.
abbrev pub Fits : Column → Value → Type 0
Fits c value_null = c.nullable ≡ true
Fits c v = data_type v ≡ some c.data_type

abbrev pub AllFit : List Column → Row → Type 0
AllFit [] [] = Unit
AllFit (c ∷ cs) (v ∷ row) = Fits c v × AllFit cs row
AllFit [] (v ∷ row) = ⊥
AllFit (c ∷ cs) [] = ⊥

type_eq-eq : (a b : DataType) → type_eq a b ≡ true → a ≡ b
type_eq-eq boolean boolean h = refl
type_eq-eq integer integer h = refl
type_eq-eq float float h = refl
type_eq-eq string string h = refl
type_eq-eq a b h = absurd (cc h)

type_eq_refl : (a : DataType) → type_eq a a ≡ true
type_eq_refl boolean = refl
type_eq_refl integer = refl
type_eq_refl float = refl
type_eq_refl string = refl

check_kind_iff :
    (c : Column) (o : Option DataType) → (check_kind c o ≡ ok tt) ↔ (o ≡ some c.data_type)
unfolding check_kind
check_kind_iff c none = ((λ h. cc h), (λ h. cc h))
check_kind_iff c (some t) = (
  (λ h. ap some (type_eq-eq t c.data_type (ground arith))),
  (λ h. rw (some-injective h, type_eq_refl c.data_type)),
)

validate_value_iff : (c : Column) (v : Value) → (validate_value c v ≡ ok tt) ↔ Fits c v
unfolding validate_value
validate_value_iff c value_null = ground arith
validate_value_iff c (value_boolean b) = check_kind_iff c (some boolean)
validate_value_iff c (value_integer i) = check_kind_iff c (some integer)
validate_value_iff c (value_float f) = check_kind_iff c (some float)
validate_value_iff c (value_string s) = check_kind_iff c (some string)
validate_value_iff c (unknown_value k) = check_kind_iff c none

values_fit :
    (cs : List Column) (row : Row)
    → length row ≡ length cs
    → validate_values cs row ≡ ok tt
    → AllFit cs row
unfolding validate_values
values_fit [] [] e h = tt
values_fit [] (v ∷ row) e h = absurd (omega arith)
values_fit (c ∷ cs) [] e h = absurd (omega arith)
values_fit (c ∷ cs) (v ∷ row) e h =
    let (u, first, rest) = >>=-eq-ok (validate_value c v) _ h in
    ((validate_value_iff c v).0 first, values_fit cs row (omega arith) rest)

values_pass :
    (cs : List Column) (row : Row)
    → AllFit cs row
    → (length row ≡ length cs) × (validate_values cs row ≡ ok tt)
unfolding validate_values
values_pass [] [] h = (refl, refl)
values_pass [] (v ∷ row) h = absurd h
values_pass (c ∷ cs) [] h = absurd h
values_pass (c ∷ cs) (v ∷ row) (first, rest) =
    let (e, passed) = values_pass cs row rest in
    (omega (arith, e), rw ((validate_value_iff c v).1 first) passed)

row_parts :
    (t : Table) (row : Row)
    → validate_row t row ≡ ok tt
    → (length row ≡ length t.columns) × (validate_values t.columns row ≡ ok tt)
unfolding validate_row
row_parts t row h = ground arith

row_passes :
    (t : Table) (row : Row)
    → length row ≡ length t.columns
    → validate_values t.columns row ≡ ok tt
    → validate_row t row ≡ ok tt
unfolding validate_row
row_passes t row e h = ground (arith, e, h)

-- `validateRow` accepts exactly the rows that have one value for each column, each of the type of
-- its column, or null where the column is nullable.
pub validate_row-AllFit :
    (t : Table) (row : Row) → (validate_row t row ≡ ok tt) ↔ AllFit t.columns row
validate_row-AllFit t row = (
  (λ h. let (e, passed) = row_parts t row h in values_fit t.columns row e passed),
  (λ h. let (e, passed) = values_pass t.columns row h in row_passes t row e passed),
)

-- A value that is a key: not null, with an encoding.
abbrev pub IsKeyed : Value → Type 0
IsKeyed v = (v ≢ value_null) × ((k : Bytes) × (encode_primary_key v ≡ ok k))

-- A value that fits a column which is not nullable has a key.
IsKeyed-of_Fits : (c : Column) (v : Value) → c.nullable ≡ false → Fits c v → IsKeyed v
unfolding encode_primary_key data_type
IsKeyed-of_Fits c value_null h f = absurd (cc (h, f))
IsKeyed-of_Fits c (value_boolean b) h f = ((λ p. cc p), (_, refl))
IsKeyed-of_Fits c (value_integer b) h f = ((λ p. cc p), (_, refl))
IsKeyed-of_Fits c (value_float b) h f = ((λ p. cc p), (_, refl))
IsKeyed-of_Fits c (value_string b) h f = ((λ p. cc p), (_, refl))
IsKeyed-of_Fits c (unknown_value k) h f = absurd (cc f)

if_false : {b : Bool} (x y : Result SqlError Value) → b ≡ false → (if b then x else y) ≡ y
if_false x y h = rw h refl

next_key :
    (c : Column) (cs : List Column)
    → c.primary_key ≡ false
    → count_keys (c ∷ cs) ≢ 0
    → count_keys cs ≢ 0
next_key c cs h n = ground (arith, h, n)

find-IsKeyed :
    (cs : List Column) (row : Row)
    → All IsColumn cs
    → AllFit cs row
    → count_keys cs ≢ 0
    → (v : Value) × (find_primary_key cs row ≡ ok v) × IsKeyed v
unfolding find_primary_key
find-IsKeyed [] row cols fit n = absurd (n refl)
find-IsKeyed (c ∷ cs) [] cols fit n = absurd fit
find-IsKeyed (c ∷ cs) (v ∷ row) ((key, typed), cols) (f, fit) n = elim (Bool-cases c.primary_key) [
  | inl yes_key ↦ (v, rw yes_key refl, IsKeyed-of_Fits c v (key yes_key) f)
  | inr no_key ↦
      let (w, found, more) = find-IsKeyed cs row cols fit (next_key c cs no_key n) in
      (w, if_false (ok v) (find_primary_key cs row) no_key ∙ found, more)
]

-- Every row that a valid table accepts has a primary key value, which is not null and has a key.
pub primary_key_value-total :
    (t : Table) (row : Row)
    → validate t ≡ ok tt
    → validate_row t row ≡ ok tt
    → (v : Value) × (primary_key_value t row ≡ ok v) × IsKeyed v
unfolding primary_key_value
primary_key_value-total t row valid accepted =
    let table = (validate-IsTable t).0 valid in
    let fit = (validate_row-AllFit t row).0 accepted in
    let (e, passed) = row_parts t row accepted in
    let (v, found, more) =
      find-IsKeyed t.columns row table.columns_fit fit (omega (arith, table.one_primary_key)) in
    (v, ground (arith, e, found), more)
