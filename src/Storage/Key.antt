-- ===== src/Storage/Key.antt =====
-- storage/mvcc_key.go: the keys under which MVCC keeps its records in the engine.
pub mod Escape
pub mod RoundTrip
pub mod Order
pub mod Ranges
pub mod Prefix
use space_db.Base.{
  ℕ, zero, suc, ◌+◌, ◌^◌, ◌<◌, List, [], ◌∷◌, ◌++◌, Option, none, some, Result, ok, err, ◌>>=◌,
  length, take, drop, ltb, ◌==◌, if◌then◌else◌, ◌≡◌,
}
use space_db.Bytes.{Bytes, IsBytes, bytes_eq, compare_bytes}
use space_db.Bytes.BigEndian.{be, of_be}
use space_db.Storage.Errors.{
  Error, truncated_key, invalid_namespace, trailing_bytes, truncated_version, unknown_kind,
  truncated_escape, no_terminator, invalid_escape, invalid_version_length,
}

-- A version is a uint64.
abbrev pub u64_mod : ℕ
u64_mod = 2 ^ 64

abbrev pub IsVersion : ℕ → Type 0
IsVersion v = v < u64_mod

-- "\x00spacedb\x00"
abbrev pub mvcc_metadata_prefix : Bytes
mvcc_metadata_prefix = 0 ∷ b's' ∷ b'p' ∷ b'a' ∷ b'c' ∷ b'e' ∷ b'd' ∷ b'b' ∷ 0 ∷ []

pub data MvccKeyKind : Type 0 where
  next_version txn_active txn_write version : MvccKeyKind

-- The value of the constant.
unfoldable pub kind_byte : MvccKeyKind → ℕ
kind_byte next_version = 0
kind_byte txn_active = 1
kind_byte txn_write = 2
kind_byte version = 3

unfoldable pub kind_of_byte : ℕ → Option MvccKeyKind
kind_of_byte zero = some next_version
kind_of_byte (suc zero) = some txn_active
kind_of_byte (suc (suc zero)) = some txn_write
kind_of_byte (suc (suc (suc zero))) = some version
kind_of_byte (suc (suc (suc (suc n)))) = none

pub record MvccKey : Type 0 where
  pub kind : MvccKeyKind
  pub at : ℕ
  pub raw_key : Bytes

abbrev pub next_version_key : MvccKey
next_version_key = record { kind = next_version; at = 0; raw_key = [] }

abbrev pub active_transaction_key : ℕ → MvccKey
active_transaction_key v = record { kind = txn_active; at = v; raw_key = [] }

abbrev pub transaction_write_key : ℕ → Bytes → MvccKey
transaction_write_key v raw = record { kind = txn_write; at = v; raw_key = raw }

abbrev pub versioned_key : Bytes → ℕ → MvccKey
versioned_key raw v = record { kind = version; at = v; raw_key = raw }

unfoldable pub mvcc_key_kind_prefix : MvccKeyKind → Bytes
unfolding kind_byte
mvcc_key_kind_prefix kind = mvcc_metadata_prefix ++ (kind_byte kind ∷ [])

-- The loop appends to `dst`.
unfoldable pub append_escaped_raw_key : Bytes → Bytes → Bytes
append_escaped_raw_key dst [] = dst
append_escaped_raw_key dst (zero ∷ raw) = append_escaped_raw_key (dst ++ (0 ∷ 0xff ∷ [])) raw
append_escaped_raw_key dst (suc b ∷ raw) = append_escaped_raw_key (dst ++ (suc b ∷ [])) raw

unfoldable pub append_terminated_raw_key : Bytes → Bytes → Bytes
unfolding append_escaped_raw_key
append_terminated_raw_key dst raw = append_escaped_raw_key dst raw ++ (0 ∷ 0 ∷ [])

encode_kind : MvccKeyKind → ℕ → Bytes → Bytes → Bytes
unfolding append_terminated_raw_key
encode_kind next_version v raw encoded = encoded
encode_kind txn_active v raw encoded = encoded ++ be 8 v
encode_kind txn_write v raw encoded = append_terminated_raw_key (encoded ++ be 8 v) raw
encode_kind version v raw encoded = append_terminated_raw_key encoded raw ++ be 8 v

-- `mvccKey.encode`. The panic of the default case is for a kind that is none of the constants.
unfoldable pub encode : MvccKey → Bytes
unfolding encode_kind mvcc_key_kind_prefix
encode k = encode_kind k.kind k.at k.raw_key (mvcc_key_kind_prefix k.kind)

-- Prefixes for scans.
unfoldable pub active_transaction_prefix : Bytes
unfolding mvcc_key_kind_prefix
active_transaction_prefix = mvcc_key_kind_prefix txn_active

unfoldable pub transaction_write_prefix : ℕ → Bytes
unfolding mvcc_key_kind_prefix
transaction_write_prefix v = mvcc_key_kind_prefix txn_write ++ be 8 v

unfoldable pub versioned_key_prefix : Bytes → Bytes
unfolding mvcc_key_kind_prefix append_escaped_raw_key
versioned_key_prefix raw_prefix = append_escaped_raw_key (mvcc_key_kind_prefix version) raw_prefix

-- The loop of `decodeRawKey`: `raw` is the key so far, the list is `encoded[i:]`.
unfoldable pub decode_raw_key_loop : Bytes → Bytes → Result Error (Bytes × Bytes)
decode_raw_key_loop raw [] = err no_terminator
decode_raw_key_loop raw (suc b ∷ rest) = decode_raw_key_loop (raw ++ (suc b ∷ [])) rest
decode_raw_key_loop raw (zero ∷ []) = err truncated_escape
decode_raw_key_loop raw (zero ∷ c ∷ rest) =
    let more = decode_raw_key_loop (raw ++ (0 ∷ [])) rest in
    if c == 0 then ok (raw, rest) else if c == 0xff then more else err (invalid_escape c)

unfoldable pub decode_raw_key : Bytes → Result Error (Bytes × Bytes)
unfolding decode_raw_key_loop
decode_raw_key encoded = decode_raw_key_loop [] encoded

unfoldable pub encode_version : ℕ → Bytes
encode_version v = be 8 v

unfoldable pub decode_version : Bytes → Result Error ℕ
decode_version encoded =
    if length encoded == 8
    then ok (of_be 0 encoded)
    else err (invalid_version_length (length encoded))

-- The cases of `decodeMvccKey`, on the bytes behind the kind.
decode_payload : MvccKeyKind → Bytes → Result Error MvccKey
unfolding decode_version decode_raw_key
decode_payload next_version payload =
    if length payload == 0 then ok next_version_key else err trailing_bytes
decode_payload txn_active payload = do v ← decode_version payload; ok (active_transaction_key v)
decode_payload txn_write payload = if ltb (length payload) 8 then err truncated_version else do
  (raw, remaining) ← decode_raw_key (drop 8 payload)
  if length remaining == 0
      then ok (record { kind = txn_write; at = of_be 0 (take 8 payload); raw_key = raw })
      else err trailing_bytes
decode_payload version payload = do
  (raw, remaining) ← decode_raw_key payload
  v ← decode_version remaining
  ok (record { kind = version; at = v; raw_key = raw })

decode_known : Option MvccKeyKind → Bytes → Result Error MvccKey
unfolding decode_payload
decode_known none payload = err unknown_kind
decode_known (some kind) payload = decode_payload kind payload

-- `encoded[prefixLength:]`. The length test has excluded the empty slice.
decode_tagged : Bytes → Result Error MvccKey
unfolding decode_known kind_of_byte
decode_tagged [] = err truncated_key
decode_tagged (kind ∷ payload) = decode_known (kind_of_byte kind) payload

unfoldable pub decode_mvcc_key : Bytes → Result Error MvccKey
unfolding decode_tagged compare_bytes
decode_mvcc_key encoded =
    if ltb (length encoded) (length mvcc_metadata_prefix + 1)
    then err truncated_key
    else if bytes_eq (take (length mvcc_metadata_prefix) encoded) mvcc_metadata_prefix
    then decode_tagged (drop (length mvcc_metadata_prefix) encoded)
    else err invalid_namespace

-- The keys that the constructors above build: a field that a kind does not use is zero.
abbrev pub Unused : MvccKeyKind → ℕ → Bytes → Type 0
Unused next_version v raw = (v ≡ 0) × (raw ≡ [])
Unused txn_active v raw = raw ≡ []
Unused txn_write v raw = Unit
Unused version v raw = Unit

abbrev pub IsKey : MvccKey → Type 0
IsKey k = IsVersion k.at × IsBytes k.raw_key × Unused k.kind k.at k.raw_key
