-- ===== src/Schema/Validity.antt =====
-- What Validate accepts: the tables with exactly one primary key, whose columns are well formed.
use space_db.Base.{
  ℕ, zero, suc, ◌+◌, ◌≡◌, ◌≢◌, ◌↔◌, refl, ap, ◌∙◌, Bool, true, false, List, [], ◌∷◌, Option, none,
  some, ok, ◌>>=◌, length, if◌then◌else◌, arith, All, >>=-eq-ok, ok-injective,
}
use space_db.Types.{Value, DataType, data_type, type_eq}
use space_db.Schema.{
  Column, Table, validate, check_columns, check_primary_key, check_default, check_type, one_key,
}

abbrev pub type_fits : Column → Option DataType → Bool
type_fits c none = true
type_fits c (some t) = type_eq t c.data_type

-- A default value has the type of its column, or none.
abbrev pub default_fits : Column → Option Value → Bool
default_fits c none = true
default_fits c (some v) = type_fits c (data_type v)

abbrev pub IsColumn : Column → Type 0
IsColumn c = (c.primary_key ≡ true → c.nullable ≡ false) × (default_fits c c.default_value ≡ true)

abbrev pub count_keys : List Column → ℕ
count_keys [] = 0
count_keys (c ∷ cs) = (if c.primary_key then 1 else 0) + count_keys cs

pub record IsTable (t : Table) : Type 0 where
  pub named : length t.name ≢ 0
  pub one_primary_key : count_keys t.columns ≡ 1
  pub columns_fit : All IsColumn t.columns

check_type_iff :
    (c : Column) (o : Option DataType) → (check_type c o ≡ ok tt) ↔ (type_fits c o ≡ true)
unfolding check_type
check_type_iff c none = ((λ h. refl), (λ h. refl))
check_type_iff c (some t) = ground arith

check_default_iff :
    (c : Column) (d : Option Value) → (check_default c d ≡ ok tt) ↔ (default_fits c d ≡ true)
unfolding check_default
check_default_iff c none = ((λ h. refl), (λ h. refl))
check_default_iff c (some v) = check_type_iff c (data_type v)

check_primary_key-ok :
    (c : Column) (n m : ℕ)
    → check_primary_key c n ≡ ok m
    → (c.primary_key ≡ true → c.nullable ≡ false) × (m ≡ (if c.primary_key then 1 else 0) + n)
unfolding check_primary_key
check_primary_key-ok c n m h = ground arith

ok-check_primary_key :
    (c : Column) (n : ℕ)
    → (c.primary_key ≡ true → c.nullable ≡ false)
    → check_primary_key c n ≡ ok ((if c.primary_key then 1 else 0) + n)
unfolding check_primary_key
ok-check_primary_key c n h = ground arith

check_columns-ok :
    (cs : List Column) (n m : ℕ)
    → check_columns cs n ≡ ok m
    → All IsColumn cs × (m ≡ count_keys cs + n)
unfolding check_columns
check_columns-ok [] n m h = (tt, omega (arith, ok-injective h))
check_columns-ok (c ∷ cs) n m h =
    let (k, hk, rest) = >>=-eq-ok (check_primary_key c n) _ h in
    let (u, hd, rest') = >>=-eq-ok (check_default c c.default_value) _ rest in
    let (fits, counted) = check_columns-ok cs k m rest' in
    let (key, this) = check_primary_key-ok c n k hk in
    (((key, (check_default_iff c c.default_value).0 hd), fits), omega (arith, counted, this))

ok-check_columns :
    (cs : List Column) (n : ℕ) → All IsColumn cs → check_columns cs n ≡ ok (count_keys cs + n)
unfolding check_columns
ok-check_columns [] n h = ap ok (omega arith)
ok-check_columns (c ∷ cs) n ((key, fits), rest) =
    rw (ok-check_primary_key c n key, (check_default_iff c c.default_value).1 fits)
      (ok-check_columns cs ((if c.primary_key then 1 else 0) + n) rest ∙ ap ok (omega arith))

one_key_iff : (n : ℕ) → (one_key n ≡ ok tt) ↔ (n ≡ 1)
unfolding one_key
one_key_iff zero = ground arith
one_key_iff (suc zero) = ground arith
one_key_iff (suc (suc n)) = ground arith

valid_parts :
    (t : Table)
    → validate t ≡ ok tt
    → (length t.name ≢ 0) × ((check_columns t.columns 0 >>= one_key) ≡ ok tt)
unfolding validate
valid_parts t h = ground arith

nonempty_of_count : (cs : List Column) → count_keys cs ≡ 1 → length cs ≢ 0
nonempty_of_count [] h = omega arith
nonempty_of_count (c ∷ cs) h = omega arith

validate_accepts : (t : Table) → IsTable t → validate t ≡ ok tt
unfolding validate
validate_accepts t table =
    let some_column = nonempty_of_count t.columns table.one_primary_key in
    let counted : (check_columns t.columns 0 >>= one_key) ≡ ok tt =
      rw (ok-check_columns t.columns 0 table.columns_fit)
        ((one_key_iff (count_keys t.columns + 0)).1 (omega (arith, table.one_primary_key))) in
    ground (arith, table.named, some_column, counted)

-- `Validate` accepts exactly the tables that have a name and exactly one primary key, which is not
-- nullable, and whose typed default values have the type of their column.
pub validate-IsTable : (t : Table) → (validate t ≡ ok tt) ↔ IsTable t
validate-IsTable t = (accepted, validate_accepts t)
  where
    accepted : validate t ≡ ok tt → IsTable t
    accepted h =
        let (named, rest) = valid_parts t h in
        let (m, hm, one) = >>=-eq-ok (check_columns t.columns 0) _ rest in
        let (fits, counted) = check_columns-ok t.columns 0 m hm in
        record {
          named = named;
          one_primary_key = omega (arith, (one_key_iff m).0 one, counted);
          columns_fit = fits;
        }
