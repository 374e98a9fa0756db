-- ===== src/Storage/Key/RoundTrip.antt =====
-- Keys are read back as they were written, and only written keys are read.
use space_db.Base.{
  ℕ, zero, suc, ◌≤◌, false, some, ◌≡◌, refl, ap, ◌∙◌, sym, [], ◌∷◌, ◌++◌, append_assoc, append-nil,
  Option-cases, if◌then◌else◌, All-append, All-take, All-drop, length-take_le, take-append-drop,
  Bool-cases, inl, inr, ==_iff, >>=-eq-ok, ok-injective, ok, err, ◌>>=◌, length, length-append,
  take, drop, take-append, drop-append, arith, ltb, ◌==◌,
}
use mathlib.Core.Path.{subst, ap₂}
use space_db.Bytes.{Bytes, IsByte, IsBytes, bytes_eq}
use space_db.Bytes.Order.{bytes_eq_iff}
use space_db.Bytes.BigEndian.{be, of_be, length-be, of_be-be, be-of_be, of_be-lt, be-IsBytes}
use space_db.Storage.Errors.{trailing_bytes}
use space_db.Storage.Key.{
  MvccKeyKind, next_version, txn_active, txn_write, version, MvccKey, encode, encode_kind,
  kind_byte, mvcc_key_kind_prefix, mvcc_metadata_prefix, decode_mvcc_key, decode_tagged,
  decode_payload, decode_known, kind_of_byte, decode_version, decode_raw_key, transaction_write_key,
  active_transaction_key, versioned_key, IsKey, IsVersion,
}
use space_db.Storage.Key.Escape.{
  escape, terminated, append_terminated_raw_key-escape, decode_raw_key-terminated,
  decode_raw_key_inv, IsBytes-terminated,
}

-- What follows the kind byte of a key.
abbrev pub payload : MvccKeyKind → ℕ → Bytes → Bytes
payload next_version v raw = []
payload txn_active v raw = be 8 v
payload txn_write v raw = be 8 v ++ terminated raw []
payload version v raw = terminated raw (be 8 v)

terminated-append : (raw rest : Bytes) → (escape raw ++ (0 ∷ 0 ∷ [])) ++ rest ≡ terminated raw rest
terminated-append raw rest = append_assoc (escape raw) (0 ∷ 0 ∷ []) rest

encode_kind-payload :
    (kind : MvccKeyKind) (v : ℕ) (raw front : Bytes)
    → encode_kind kind v raw front ≡ front ++ payload kind v raw
unfolding encode_kind
encode_kind-payload next_version v raw front = sym (append-nil front)
encode_kind-payload txn_active v raw front = refl
encode_kind-payload txn_write v raw front =
    append_terminated_raw_key-escape (front ++ be 8 v) raw ∙ append_assoc front (be 8 v) _
encode_kind-payload version v raw front =
    ap (λ t. t ++ be 8 v) (append_terminated_raw_key-escape front raw)
    ∙ append_assoc front _ (be 8 v)
    ∙ ap (λ t. front ++ t) (terminated-append raw (be 8 v))

-- A key is the namespace, the kind byte and the payload.
pub encode-payload :
    (k : MvccKey)
    → encode k ≡ mvcc_metadata_prefix ++ (kind_byte k.kind ∷ payload k.kind k.at k.raw_key)
unfolding encode
encode-payload k = encode_kind-payload k.kind k.at k.raw_key (mvcc_key_kind_prefix k.kind)

pub kind_of_byte-kind_byte : (kind : MvccKeyKind) → kind_of_byte (kind_byte kind) ≡ some kind
unfolding kind_of_byte kind_byte
kind_of_byte-kind_byte next_version = refl
kind_of_byte-kind_byte _ = refl

decode_mvcc_key_front :
    (bs : Bytes) → decode_mvcc_key (mvcc_metadata_prefix ++ bs) ≡ decode_tagged bs
unfolding decode_mvcc_key
decode_mvcc_key_front [] = refl
decode_mvcc_key_front (b ∷ bs) = ground arith

decode_version-be : (v : ℕ) → IsVersion v → decode_version (be 8 v) ≡ ok v
unfolding decode_version
decode_version-be v h = ground (arith, length-be 8 v, of_be-be 8 v)

decode_write-payload :
    (v : ℕ) (raw : Bytes)
    → IsVersion v
    → decode_payload txn_write (be 8 v ++ terminated raw []) ≡ ok (transaction_write_key v raw)
unfolding decode_payload
decode_write-payload v raw h =
    let long : ltb (length (be 8 v ++ terminated raw [])) 8 ≡ false =
      ground (arith, length-append (be 8 v) (terminated raw []), length-be 8 v) in
    rw (
      long,
      take-append 8 (be 8 v) (terminated raw []) (length-be 8 v),
      drop-append 8 (be 8 v) (terminated raw []) (length-be 8 v),
      decode_raw_key-terminated raw [],
      of_be-be 8 v h,
    )

decode_payload-payload :
    (kind : MvccKeyKind) (v : ℕ) (raw : Bytes)
    → IsKey (record { kind = kind; at = v; raw_key = raw })
    → decode_payload kind (payload kind v raw) ≡ ok (record { kind = kind; at = v; raw_key = raw })
unfolding decode_payload
decode_payload-payload next_version v raw h = cc (h.2.0, h.2.1)
decode_payload-payload txn_active v raw h = rw (decode_version-be v h.0, h.2)
decode_payload-payload txn_write v raw h = decode_write-payload v raw h.0
decode_payload-payload version v raw h =
    rw (decode_raw_key-terminated raw (be 8 v), decode_version-be v h.0)

-- `decodeMvccKey` reads back every key that `encode` writes, for a version of 64 bits, a raw key
-- of bytes, and no raw key or version where the kind has none.
pub decode_mvcc_key-encode : (k : MvccKey) → IsKey k → decode_mvcc_key (encode k) ≡ ok k
unfolding decode_tagged
decode_mvcc_key-encode k h =
    ap decode_mvcc_key (encode-payload k)
    ∙ decode_mvcc_key_front (kind_byte k.kind ∷ payload k.kind k.at k.raw_key)
    ∙ ap (λ o. decode_known o (payload k.kind k.at k.raw_key)) (kind_of_byte-kind_byte k.kind)
    ∙ (unfold decode_known in decode_payload-payload k.kind k.at k.raw_key h)

decode_version_inv :
    (bs : Bytes) (v : ℕ) → IsBytes bs → decode_version bs ≡ ok v → IsVersion v × (bs ≡ be 8 v)
unfolding decode_version
decode_version_inv bs v h e = elim (Bool-cases (length bs == 8)) [
  | inl long ↦
      let n : length bs ≡ 8 = (==_iff _ 8).0 long in
      let read : of_be 0 bs ≡ v = ground arith in
      (rw n at (rw read at (of_be-lt bs h)), sym (rw (n, read) at (be-of_be bs h)))
  | inr short ↦ cc (rw short at e)
]

-- `p` is the payload of the key `k` of this kind.
abbrev Holds : MvccKeyKind → Bytes → MvccKey → Type 0
Holds kind p k = IsKey k × (k.kind ≡ kind) × (p ≡ payload kind k.at k.raw_key)

write_inv :
    (p : Bytes) (k : MvccKey) (raw remaining : Bytes)
    → IsBytes p
    → 8 ≤ length p
    → drop 8 p ≡ terminated raw remaining
    → (if length remaining == 0
        then ok (transaction_write_key (of_be 0 (take 8 p)) raw)
        else err trailing_bytes)
      ≡ ok k
    → Holds txn_write p k
write_inv p k raw (b ∷ remaining) h long d f = ground arith
write_inv p k raw [] h long d f =
    let front : IsBytes (take 8 p) = All-take IsByte 8 p h in
    let n = length-take_le 8 p long in
    let back = IsBytes-terminated raw [] (subst IsBytes d (All-drop IsByte 8 p h)) in
    let same : be 8 (of_be 0 (take 8 p)) ≡ take 8 p = rw n at (be-of_be (take 8 p) front) in
    let small : IsVersion (of_be 0 (take 8 p)) = rw n at (of_be-lt (take 8 p) front) in
    subst (Holds txn_write p) (ok-injective f)
      ((small, back.0, tt), refl, sym (take-append-drop 8 p) ∙ ap₂ (λ a b. a ++ b) (sym same) d)

version_inv :
    (p : Bytes) (k : MvccKey) (raw remaining : Bytes)
    → IsBytes p
    → p ≡ terminated raw remaining
    → (decode_version remaining >>= λ v. ok (versioned_key raw v)) ≡ ok k
    → Holds version p k
version_inv p k raw remaining h d f =
    let (v, dv, g) = >>=-eq-ok (decode_version remaining) (λ v. ok (versioned_key raw v)) f in
    let (raw_ok, rem_ok) = IsBytes-terminated raw remaining (subst IsBytes d h) in
    let (small, same) = decode_version_inv remaining v rem_ok dv in
    subst (Holds version p) (ok-injective g)
      ((small, raw_ok, tt), refl, d ∙ ap (λ t. terminated raw t) same)

decode_payload_inv :
    (kind : MvccKeyKind) (p : Bytes) (k : MvccKey)
    → IsBytes p
    → decode_payload kind p ≡ ok k
    → Holds kind p k
unfolding decode_payload
decode_payload_inv next_version [] k h e =
    subst (Holds next_version []) (ok-injective e) ((omega arith, tt, (refl, refl)), refl, refl)
decode_payload_inv next_version (b ∷ p) k h e = ground arith
decode_payload_inv txn_active p k h e =
    let (v, d, f) = >>=-eq-ok (decode_version p) (λ v. ok (active_transaction_key v)) e in
    let (small, same) = decode_version_inv p v h d in
    subst (Holds txn_active p) (ok-injective f) ((small, tt, refl), refl, same)
decode_payload_inv txn_write p k h e = elim (Bool-cases (ltb (length p) 8)) [
  | inl short ↦ cc (rw short at e)
  | inr long ↦
      let ((raw, remaining), d, f) = >>=-eq-ok (decode_raw_key (drop 8 p)) _ (rw long at e) in
      write_inv p k raw remaining h (ground arith) (decode_raw_key_inv (drop 8 p) raw remaining d) f
]
decode_payload_inv version p k h e =
    let ((raw, remaining), d, f) = >>=-eq-ok (decode_raw_key p) _ e in
    version_inv p k raw remaining h (decode_raw_key_inv p raw remaining d) f

kind_byte-kind_of_byte :
    (b : ℕ) (kind : MvccKeyKind) → kind_of_byte b ≡ some kind → b ≡ kind_byte kind
unfolding kind_of_byte kind_byte
kind_byte-kind_of_byte zero kind h = ground arith
kind_byte-kind_of_byte (suc zero) kind h = ground arith
kind_byte-kind_of_byte (suc (suc zero)) kind h = ground arith
kind_byte-kind_of_byte (suc (suc (suc zero))) kind h = ground arith
kind_byte-kind_of_byte (suc (suc (suc (suc b)))) kind h = cc

abbrev Accepted : Bytes → MvccKey → Type 0
Accepted t k = IsKey k × (t ≡ kind_byte k.kind ∷ payload k.kind k.at k.raw_key)

decode_tagged_inv : (t : Bytes) (k : MvccKey) → IsBytes t → decode_tagged t ≡ ok k → Accepted t k
unfolding decode_tagged
decode_tagged_inv [] k h e = cc
decode_tagged_inv (b ∷ p) k h e = elim (Option-cases (kind_of_byte b)) [
  | inl unknown ↦ unfold decode_known in cc (rw unknown at e)
  | inr (kind, known) ↦
      let (key, same_kind, same) =
        decode_payload_inv kind p k h.1 (unfold decode_known in (rw known at e)) in
      (
        key,
        ap₂ (λ c r. c ∷ r) (kind_byte-kind_of_byte b kind known ∙ ap kind_byte (sym same_kind))
            (same ∙ ap (λ c. payload c k.at k.raw_key) (sym same_kind)),
      )
]

-- The two tests in front of the kind byte.
decode_mvcc_key_tests :
    (bs : Bytes) (k : MvccKey)
    → decode_mvcc_key bs ≡ ok k
    → (take 9 bs ≡ mvcc_metadata_prefix) × (decode_tagged (drop 9 bs) ≡ ok k)
unfolding decode_mvcc_key
decode_mvcc_key_tests bs k e = elim (Bool-cases (ltb (length bs) 10)) [
  | inl short ↦ cc (rw short at e)
  | inr long ↦ elim (Bool-cases (bytes_eq (take 9 bs) mvcc_metadata_prefix)) [
    | inl same ↦ ((bytes_eq_iff _ _).0 same, rw (long, same) at e)
    | inr other ↦ cc (rw (long, other) at e)
  ]
]

-- Bytes that `decodeMvccKey` accepts are the encoding of the key that it returns, which is well
-- formed.
pub encode-decode_mvcc_key :
    (bs : Bytes) (k : MvccKey) → IsBytes bs → decode_mvcc_key bs ≡ ok k → IsKey k × (encode k ≡ bs)
encode-decode_mvcc_key bs k h e =
    let (front, tagged) = decode_mvcc_key_tests bs k e in
    let (key, same) = decode_tagged_inv (drop 9 bs) k (All-drop IsByte 9 bs h) tagged in
    (key, encode-payload k ∙ sym (ap₂ (λ a b. a ++ b) front same) ∙ take-append-drop 9 bs)

pub encode-injective : (k m : MvccKey) → IsKey k → IsKey m → encode k ≡ encode m → k ≡ m
encode-injective k m hk hm e =
    ok-injective
      (sym (decode_mvcc_key-encode k hk) ∙ ap decode_mvcc_key e ∙ decode_mvcc_key-encode m hm)

escape-IsBytes : (raw rest : Bytes) → IsBytes raw → IsBytes rest → IsBytes (terminated raw rest)
escape-IsBytes [] rest h r = (omega arith, (omega arith, r))
escape-IsBytes (zero ∷ raw) rest h r = (omega arith, (omega arith, escape-IsBytes raw rest h.1 r))
escape-IsBytes (suc b ∷ raw) rest h r = (h.0, escape-IsBytes raw rest h.1 r)

payload-IsBytes :
    (kind : MvccKeyKind) (v : ℕ) (raw : Bytes) → IsBytes raw → IsBytes (payload kind v raw)
payload-IsBytes next_version v raw h = tt
payload-IsBytes txn_active v raw h = be-IsBytes 8 v
payload-IsBytes txn_write v raw h =
    All-append IsByte (be 8 v) (terminated raw []) (be-IsBytes 8 v) (escape-IsBytes raw [] h tt)
payload-IsBytes version v raw h = escape-IsBytes raw (be 8 v) h (be-IsBytes 8 v)

kind_byte-IsByte : (kind : MvccKeyKind) → IsByte (kind_byte kind)
unfolding kind_byte
kind_byte-IsByte kind = ground arith

-- Encoded keys are bytes.
pub encode-IsBytes : (k : MvccKey) → IsBytes k.raw_key → IsBytes (encode k)
encode-IsBytes k h = rw (encode-payload k) (
    All-append IsByte mvcc_metadata_prefix (kind_byte k.kind ∷ payload k.kind k.at k.raw_key)
      (omega arith) (kind_byte-IsByte k.kind, payload-IsBytes k.kind k.at k.raw_key h))
