-- ===== src/Storage/Key/Prefix.antt =====
-- What the prefixes for scans select.
use space_db.Base.{
  ℕ, zero, suc, ◌≡◌, refl, ap, ◌∙◌, sym, [], ◌∷◌, ◌++◌, true, false, arith, ◌==◌, length,
  if◌then◌else◌, All-append,
}
use mathlib.Core.Path.{ap₂}
use space_db.Bytes.{Bytes, IsByte, IsBytes}
use space_db.Bytes.BigEndian.{be, length-be, of_be, of_be-be, be-IsBytes}
use space_db.Storage.Engine.{has_prefix}
use space_db.Storage.Key.{
  MvccKeyKind, next_version, txn_active, txn_write, version, MvccKey, encode, kind_byte,
  mvcc_metadata_prefix, versioned_key, transaction_write_key, IsKey, IsVersion,
  active_transaction_prefix, transaction_write_prefix, versioned_key_prefix, mvcc_key_kind_prefix,
}
use space_db.Storage.Key.Escape.{escape, terminated, append_escaped_raw_key-escape}
use space_db.Storage.Key.RoundTrip.{payload, encode-payload}

has_prefix-append : (p a b : Bytes) → has_prefix (p ++ a) (p ++ b) ≡ has_prefix a b
has_prefix-append [] a b = refl
has_prefix-append (x ∷ p) a b = ground (arith, has_prefix-append p a b)

has_prefix_self : (a b : Bytes) → has_prefix a (a ++ b) ≡ true
has_prefix_self [] b = refl
has_prefix_self (x ∷ a) b = ground (arith, has_prefix_self a b)

-- A prefix of the length of the front is the front.
eq_of_has_prefix : (a b r : Bytes) → length a ≡ length b → has_prefix a (b ++ r) ≡ true → a ≡ b
eq_of_has_prefix [] [] r e h = refl
eq_of_has_prefix [] (y ∷ b) r e h = ground arith
eq_of_has_prefix (x ∷ a) [] r e h = ground arith
eq_of_has_prefix (x ∷ a) (y ∷ b) r e h = ground (arith, eq_of_has_prefix a b r)

has_prefix-encode :
    (k : MvccKey) (c : ℕ) (p : Bytes)
    → has_prefix (mvcc_metadata_prefix ++ (c ∷ p)) (encode k)
      ≡ (if c == kind_byte k.kind then has_prefix p (payload k.kind k.at k.raw_key) else false)
has_prefix-encode k c p = rw (encode-payload k) (
    has_prefix-append mvcc_metadata_prefix (c ∷ p)
      (kind_byte k.kind ∷ payload k.kind k.at k.raw_key))

-- The active-transaction prefix selects the active markers.
pub prefix_selects_active :
    (k : MvccKey) → has_prefix active_transaction_prefix (encode k) ≡ (1 == kind_byte k.kind)
unfolding active_transaction_prefix
prefix_selects_active k = has_prefix-encode k 1 [] ∙ ground arith

write_prefix_selects :
    (kind : MvccKeyKind) (at v : ℕ) (raw : Bytes)
    → IsVersion at
    → IsVersion v
    → has_prefix
        (transaction_write_prefix v)
        (encode (record { kind = kind; at = at; raw_key = raw }))
      ≡ true
    → (kind ≡ txn_write) × (at ≡ v)
unfolding transaction_write_prefix kind_byte
write_prefix_selects next_version at v raw ha hv h =
    cc (has_prefix-encode (record { kind = next_version; at = at; raw_key = raw }) 2 (be 8 v), h)
write_prefix_selects txn_active at v raw ha hv h =
    cc (has_prefix-encode (record { kind = txn_active; at = at; raw_key = raw }) 2 (be 8 v), h)
write_prefix_selects version at v raw ha hv h =
    cc (has_prefix-encode (record { kind = version; at = at; raw_key = raw }) 2 (be 8 v), h)
write_prefix_selects txn_write at v raw ha hv h =
    let e : has_prefix (be 8 v) (be 8 at ++ terminated raw []) ≡ true =
      sym (has_prefix-encode (transaction_write_key at raw) 2 (be 8 v)) ∙ h in
    let same =
      eq_of_has_prefix (be 8 v) (be 8 at) (terminated raw []) (length-be 8 v ∙ sym (length-be 8 at))
        e in
    (refl, sym (of_be-be 8 at ha) ∙ ap (of_be 0) (sym same) ∙ of_be-be 8 v hv)

-- A well-formed key whose encoding has the write prefix of `v` is a write record of `v`, for `v`
-- of 64 bits.
pub prefix_selects_writes :
    (k : MvccKey) (v : ℕ)
    → IsKey k
    → IsVersion v
    → has_prefix (transaction_write_prefix v) (encode k) ≡ true
    → k ≡ transaction_write_key v k.raw_key
prefix_selects_writes k v key hv h =
    let (kind, at) = write_prefix_selects k.kind k.at v k.raw_key key.0 hv h in
    ap₂ (λ a b. record { kind = a; at = b; raw_key = k.raw_key }) kind at

pub write_has_prefix :
    (raw : Bytes) (v : ℕ)
    → has_prefix (transaction_write_prefix v) (encode (transaction_write_key v raw)) ≡ true
unfolding transaction_write_prefix kind_byte
write_has_prefix raw v =
    has_prefix-encode (transaction_write_key v raw) 2 (be 8 v) ∙ has_prefix_self (be 8 v) _

has_prefix-escape :
    (p raw rest : Bytes) → has_prefix (escape p) (terminated raw rest) ≡ has_prefix p raw
has_prefix-escape [] raw rest = refl
has_prefix-escape (zero ∷ p) [] rest = refl
has_prefix-escape (suc a ∷ p) [] rest = ground arith
has_prefix-escape (zero ∷ p) (zero ∷ raw) rest = has_prefix-escape p raw rest
has_prefix-escape (zero ∷ p) (suc b ∷ raw) rest = ground arith
has_prefix-escape (suc a ∷ p) (zero ∷ raw) rest = ground arith
has_prefix-escape (suc a ∷ p) (suc b ∷ raw) rest = ground (arith, has_prefix-escape p raw rest)

-- The encoding of a versioned key has the scan prefix of a raw prefix exactly if the raw key
-- begins with the raw prefix.
pub prefix_selects_versions :
    (p raw : Bytes) (v : ℕ)
    → has_prefix (versioned_key_prefix p) (encode (versioned_key raw v)) ≡ has_prefix p raw
unfolding versioned_key_prefix kind_byte
prefix_selects_versions p raw v =
    ap (λ t. has_prefix t (encode (versioned_key raw v)))
      (append_escaped_raw_key-escape (mvcc_key_kind_prefix version) p)
    ∙ has_prefix-encode (versioned_key raw v) 3 (escape p)
    ∙ has_prefix-escape p raw (be 8 v)

pub transaction_write_prefix-IsBytes : (v : ℕ) → IsBytes (transaction_write_prefix v)
unfolding transaction_write_prefix kind_byte
transaction_write_prefix-IsBytes v =
    All-append IsByte (mvcc_metadata_prefix ++ (2 ∷ [])) (be 8 v) (omega arith) (be-IsBytes 8 v)

pub active_transaction_prefix-IsBytes : IsBytes active_transaction_prefix
unfolding active_transaction_prefix kind_byte
active_transaction_prefix-IsBytes = omega arith
