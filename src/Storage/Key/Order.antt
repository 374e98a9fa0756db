-- ===== src/Storage/Key/Order.antt =====
-- Encoded keys in the engine's order: by kind, and the versions of a raw key together.
use space_db.Base.{ℕ, ◌≡◌, ap, ◌∙◌, ◌∷◌, ◌++◌, true, false, compare, arith, append_assoc}
use space_db.Bytes.{Bytes, compare_bytes, bytes_lt}
use space_db.Bytes.Order.{then, compare-append_front, eq_of_compare}
use space_db.Bytes.BigEndian.{be, compare-be}
use space_db.Storage.Key.{
  MvccKeyKind, next_version, txn_active, txn_write, version, MvccKey, encode, kind_byte,
  mvcc_metadata_prefix, versioned_key, IsVersion,
}
use space_db.Storage.Key.Escape.{escape, terminated, compare-terminated}
use space_db.Storage.Key.RoundTrip.{payload, encode-payload}

abbrev key_tail : MvccKey → Bytes
key_tail k = kind_byte k.kind ∷ payload k.kind k.at k.raw_key

pub compare-encode :
    (k m : MvccKey)
    → compare_bytes (encode k) (encode m)
      ≡ then
          (compare (kind_byte k.kind) (kind_byte m.kind))
          (compare_bytes (payload k.kind k.at k.raw_key) (payload m.kind m.at m.raw_key))
compare-encode k m =
    rw (encode-payload k, encode-payload m)
      (compare-append_front mvcc_metadata_prefix (key_tail k) (key_tail m)
        ∙ (unfold compare_bytes in ground arith))

-- For versions of 64 bits, encoded versioned keys compare by raw key first and then by version.
pub compare-versioned :
    (a b : Bytes) (u v : ℕ)
    → IsVersion u
    → IsVersion v
    → compare_bytes (encode (versioned_key a u)) (encode (versioned_key b v))
      ≡ then (compare_bytes a b) (compare u v)
unfolding kind_byte
compare-versioned a b u v hu hv =
    compare-encode (versioned_key a u) (versioned_key b v)
    ∙ compare-terminated a b (be 8 u) (be 8 v)
    ∙ ap (λ o. then (compare_bytes a b) o) (compare-be 8 u v hu hv)

-- `bs` is the versioned key of `raw` with `tail` for its version.
pub encode-versioned_tail :
    (raw tail : Bytes) (v : ℕ)
    → encode (versioned_key raw v) ++ tail
      ≡ mvcc_metadata_prefix ++ (3 ∷ terminated raw (be 8 v ++ tail))
unfolding kind_byte
encode-versioned_tail raw tail v =
    ap (λ t. t ++ tail) (encode-payload (versioned_key raw v))
    ∙ append_assoc mvcc_metadata_prefix (3 ∷ terminated raw (be 8 v)) tail
    ∙ ap (λ t. mvcc_metadata_prefix ++ (3 ∷ t)) (append_assoc (escape raw) (0 ∷ 0 ∷ be 8 v) tail)

abbrev pub versions_from : Bytes → Bytes → Bytes
versions_from raw x = mvcc_metadata_prefix ++ (3 ∷ terminated raw x)

pub compare-versions_from :
    (k : MvccKey) (raw x : Bytes)
    → compare_bytes (encode k) (versions_from raw x)
      ≡ then
          (compare (kind_byte k.kind) 3)
          (compare_bytes (payload k.kind k.at k.raw_key) (terminated raw x))
compare-versions_from k raw x = rw (encode-payload k) (
    compare-append_front mvcc_metadata_prefix (key_tail k) (3 ∷ terminated raw x)
    ∙ (unfold compare_bytes in ground arith))

-- A key between two ends that both belong to `raw` is a version of `raw`.
abbrev pub Between : MvccKey → Bytes → Bytes → Bytes → Type 0
Between k raw x y =
    (k.kind ≡ version)
    × (k.raw_key ≡ raw)
    × (bytes_lt (be 8 k.at) x ≡ false)
    × (bytes_lt (be 8 k.at) y ≡ true)

pub Between-payload :
    (kind : MvccKeyKind) (at : ℕ) (key raw x y : Bytes)
    → bytes_lt (encode (record { kind = kind; at = at; raw_key = key })) (versions_from raw x)
      ≡ false
    → bytes_lt (encode (record { kind = kind; at = at; raw_key = key })) (versions_from raw y)
      ≡ true
    → Between (record { kind = kind; at = at; raw_key = key }) raw x y
unfolding kind_byte
Between-payload next_version at key raw x y h l =
    ground
      (arith, compare-versions_from (record { kind = next_version; at = at; raw_key = key }) raw x)
Between-payload txn_active at key raw x y h l =
    ground
      (arith, compare-versions_from (record { kind = txn_active; at = at; raw_key = key }) raw x)
Between-payload txn_write at key raw x y h l =
    ground
      (arith, compare-versions_from (record { kind = txn_write; at = at; raw_key = key }) raw x)
Between-payload version at key raw x y h l = ground (
  arith,
  compare-versions_from (record { kind = version; at = at; raw_key = key }) raw x,
  compare-versions_from (record { kind = version; at = at; raw_key = key }) raw y,
  compare-terminated key raw (be 8 at) x,
  compare-terminated key raw (be 8 at) y,
  eq_of_compare key raw,
)

pub encode-versions_from :
    (raw : Bytes) (v : ℕ) → encode (versioned_key raw v) ≡ versions_from raw (be 8 v)
unfolding kind_byte
encode-versions_from raw v = encode-payload (versioned_key raw v)
