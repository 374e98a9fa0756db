-- ===== src/Kv/Stored.antt =====
-- What CreateRow of engine/kv.go keeps in the store.
use space_db.Base.{
  ℕ, ◌+◌, ◌≡◌, ◌<◌, refl, ap, ◌∙◌, sym, true, false, List, [], ◌∷◌, Option, none, some, Result, ok,
  err, arith, All, All-append, ok-injective, Bool-cases, inl, inr, length, ◌==◌,
}
use space_db.Base.Exec.{reads-eq-ok}
use mathlib.Core.Path.{subst, ap₂}
use space_db.Bytes.{Bytes, Slice, IsByte, IsBytes}
use space_db.Bytes.BigEndian.{be-IsBytes}
use space_db.Storage.Errors.{Error}
use space_db.Storage.Engine.{Engine, IsReliable}
use space_db.Storage.Key.{IsVersion}
use space_db.Storage.Versions.{Transaction, is_visible}
use space_db.Storage.Mvcc.{get, set, write}
use space_db.Storage.Mvcc.Store.{IsStore}
use space_db.Storage.Mvcc.Isolation.{get-write_self}
use space_db.Types.{
  Value, value_null, value_boolean, value_integer, value_float, value_string, unknown_value, Row,
  SqlError,
}
use space_db.Types.Order.{IsValue}
use space_db.Schema.{Column, Table, primary_key_value, find_primary_key}
use space_db.Kv.{Codec, stored, create_row, get_table, need_table, need_absent, need_bytes, calls}
use space_db.Kv.Keys.{row_key}
use space_db.Kv.Keyed.{row_key-eq, encode-key_body, key_body}
use space_db.Kv.Rows.{validate_row}

key_body-IsBytes : (v : Value) → IsValue v → IsBytes (key_body v)
unfolding key_body
key_body-IsBytes value_null h = tt
key_body-IsBytes (value_boolean true) h = omega arith
key_body-IsBytes (value_boolean false) h = omega arith
key_body-IsBytes (value_integer i) h = be-IsBytes 8 _
key_body-IsBytes (value_float f) h = be-IsBytes 8 _
key_body-IsBytes (value_string s) h = h
key_body-IsBytes (unknown_value k) h = tt

kind_small : (v : Value) → IsValue v → space_db.Types.kind_of v < 256
unfolding space_db.Types.kind_of
kind_small value_null h = omega arith
kind_small (value_boolean b) h = omega arith
kind_small (value_integer i) h = omega arith
kind_small (value_float f) h = omega arith
kind_small (value_string s) h = omega arith
kind_small (unknown_value k) h = omega arith

row_key-IsBytes : (n k : Bytes) (v : Value) → IsBytes n → IsValue v → row_key n v ≡ ok k → IsBytes k
row_key-IsBytes n k v hn hv h =
    let (a, ea, shape) = row_key-eq n k v h in
    let tail : IsBytes a =
      subst IsBytes (sym (encode-key_body v a ea)) (kind_small v hv, key_body-IsBytes v hv) in
    subst IsBytes (sym shape) (omega arith, All-append IsByte n (0 ∷ a) hn (omega arith, tail))

table_needed : (name : Bytes) (o : Option Table) (t : Table) → need_table name o ≡ ok t → o ≡ some t
unfolding need_table
table_needed name none t h = absurd (cc h)
table_needed name (some u) t h = ap some (ok-injective h)

absent_needed : (name : Bytes) (v : Slice) (u : Unit {0}) → need_absent name v ≡ ok u → v ≡ none
unfolding need_absent
absent_needed name none u h = refl
absent_needed name (some b) u h = absurd (cc h)

bytes_needed : (o : Option Bytes) (b : Bytes) → need_bytes o ≡ ok b → o ≡ some b
unfolding need_bytes
bytes_needed none b h = absurd (cc h)
bytes_needed (some c) b h = ap some (ok-injective h)

stored-ok : {A : Type 0} (r : Result Error A) (a : A) → stored r ≡ ok a → r ≡ ok a
stored-ok (ok x) a h = ap ok (ok-injective h)
stored-ok (err e) a h = absurd (cc h)

module _ (e : Engine) (codec : Codec) (t : Transaction) (name : Bytes) (row : Row)
    (s : e.State) where
  -- What a row that CreateRow has made was checked against, and where it is kept.
  pub record Created (s' : e.State) : Type 0 where
    pub table : Table
    pub primary_key : Value
    pub key : Bytes
    pub encoded : Bytes
    pub found : get_table e codec t name s ≡ ok (some table)
    pub accepted : validate_row table row ≡ ok tt
    pub keyed : primary_key_value table row ≡ ok primary_key
    pub has_key : row_key name primary_key ≡ ok key
    pub was_absent : get e t key s ≡ ok none
    pub marshalled : codec.marshal_row row ≡ some encoded
    pub written : calls e codec t (set e t key (some encoded)) s ≡ (ok tt, s')

  -- `CreateRow` succeeds only for a row that the table accepts, under a key that had no value, and
  -- its effect is one write of the encoded row under that key.
  pub create_row-Created :
      (s' : e.State) → create_row e codec t name row s ≡ (ok tt, s') → Created s'
  unfolding create_row
  create_row-Created s' h =
      let (o, h1, rest1) = reads-eq-ok (get_table e codec t name s) s _ h in
      let (table, h2, rest2) = reads-eq-ok (need_table name o) s _ rest1 in
      let (u, h3, rest3) = reads-eq-ok (validate_row table row) s _ rest2 in
      let (primary_key, h4, rest4) = reads-eq-ok (primary_key_value table row) s _ rest3 in
      let (key, h5, rest5) = reads-eq-ok (row_key name primary_key) s _ rest4 in
      let (existing, h6, rest6) = reads-eq-ok (stored (get e t key s)) s _ rest5 in
      let (v, h7, rest7) = reads-eq-ok (need_absent name existing) s _ rest6 in
      let (encoded, h8, rest8) = reads-eq-ok (need_bytes (codec.marshal_row row)) s _ rest7 in
      record {
        table = table;
        primary_key = primary_key;
        key = key;
        encoded = encoded;
        found = h1 ∙ ap ok (table_needed name o table h2);
        accepted = h3;
        keyed = h4;
        has_key = h5;
        was_absent =
            stored-ok (get e t key s) existing h6 ∙ ap ok (absent_needed name existing v h7);
        marshalled = bytes_needed (codec.marshal_row row) encoded h8;
        written = rest8;
      }

find_primary_key-IsValue :
    (cs : List Column) (row : Row) (v : Value)
    → All IsValue row
    → find_primary_key cs row ≡ ok v
    → IsValue v
unfolding find_primary_key
find_primary_key-IsValue [] row v values h = absurd (cc h)
find_primary_key-IsValue (c ∷ cs) [] v values h = absurd (cc h)
find_primary_key-IsValue (c ∷ cs) (w ∷ row) v (first, rest) h = elim (Bool-cases c.primary_key) [
  | inl this ↦ subst IsValue (ok-injective (rw this at h)) first
  | inr other ↦ find_primary_key-IsValue cs row v rest (rw other at h)
]

primary_key_value-IsValue :
    (t : Table) (row : Row) (v : Value)
    → All IsValue row
    → primary_key_value t row ≡ ok v
    → IsValue v
unfolding primary_key_value
primary_key_value-IsValue t row v values h = elim (Bool-cases (length row == length t.columns)) [
  | inl same ↦ find_primary_key-IsValue t.columns row v values (rw same at h)
  | inr other ↦ absurd (cc (rw other at h))
]

module _ (e : Engine) (codec : Codec) (t : Transaction) where
  set_is_write :
      (key b : Bytes) (s s' : e.State)
      → calls e codec t (set e t key (some b)) s ≡ (ok tt, s')
      → write e t key (some b) false s ≡ (ok tt, s')
  unfolding set
  set_is_write key b s s' h = go (write e t key (some b) false s) h
    where
      go :
          (p : Result Error (Unit {0}) × e.State)
          → ◌≡◌ {A = Result SqlError (Unit {0}) × e.State} (stored p.0, p.1) (ok tt, s')
          → p ≡ (ok tt, s')
      go (r, s1) h = ap₂ (λ a b. (a, b)) (stored-ok r tt (ap (λ q. q.0) h)) (ap (λ q. q.1) h)

module _ (e : Engine) (laws : IsReliable e) (codec : Codec) (t : Transaction) (name : Bytes)
    (row : Row) (next : ℕ) (s : e.State) (store : IsStore e laws next s)
    (fits : IsVersion (t.version + 1)) (begun : t.version < next)
    (own : is_visible t t.version ≡ true) where
  -- Over an engine that keeps its contract and contents that satisfy the invariant, and where
  -- the transaction has begun, sees its own version, and the version after it fits 64 bits: if
  -- `CreateRow` of a row with fields in their ranges succeeds, then the JSON library encoded the
  -- row, and there is a key that held nothing before and at which `Get` now returns the encoded
  -- row to the same transaction.
  pub create_row-get :
      (s' : e.State)
      → IsBytes name
      → All IsValue row
      → create_row e codec t name row s ≡ (ok tt, s')
      → (key : Bytes) × (encoded : Bytes) × (codec.marshal_row row ≡ some encoded)
        × (get e t key s ≡ ok none)
        × (get e t key s' ≡ ok (some encoded))
  create_row-get s' hn values h =
      let c = create_row-Created e codec t name row s s' h in
      let value = primary_key_value-IsValue c.table row c.primary_key values c.keyed in
      let bytes = row_key-IsBytes name c.key c.primary_key hn value c.has_key in
      (
        c.key,
        c.encoded,
        c.marshalled,
        c.was_absent,
        get-write_self e laws t c.key (some c.encoded) false next s bytes store fits begun s' own
            (set_is_write e codec t c.key c.encoded s s' c.written),
      )
