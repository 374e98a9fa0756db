-- ===== src/Storage/Mvcc/Begin.antt =====
-- What `Begin` returns and leaves: a fresh version, and the snapshot of the active transactions.
use space_db.Base.{
  ℕ, ◌+◌, ◌%◌, ◌≡◌, ◌⊎◌, refl, ap, ◌∙◌, sym, List, [], ◌∷◌, none, some, true, false, Bool-cases,
  inl, inr, ok, arith, some_of_if, ◌==◌,
}
use mathlib.Core.Path.{subst}
use space_db.Bytes.{Bytes, Slice, IsBytes, bytes_eq}
use space_db.Bytes.BigEndian.{of_be-be, length-be}
use space_db.Bytes.Order.{bytes_eq_iff}
use space_db.Storage.Entries.{Entries, lookup}
use space_db.Storage.Entries.Contents.{Each, Each-ascending}
use space_db.Storage.Engine.{Engine, IsReliable, has_prefix}
use space_db.Storage.Key.{
  MvccKey, MvccKeyKind, next_version, txn_active, txn_write, version, encode, next_version_key,
  active_transaction_key, active_transaction_prefix, kind_byte, IsKey, IsVersion, encode_version,
  decode_version, u64_mod,
}
use space_db.Storage.Key.RoundTrip.{decode_mvcc_key-encode, encode-injective, encode-IsBytes}
use space_db.Storage.Key.Prefix.{prefix_selects_active, active_transaction_prefix-IsBytes}
use space_db.Storage.Versions.{contains, collect_active, load_next}
use space_db.Storage.Mvcc.{begin}
use space_db.Storage.Mvcc.Store.{IsStore}
use space_db.Storage.Mvcc.Commit.{active-IsKey}

-- The active marker of some version.
abbrev pub IsActive : Bytes → Slice → Type 0
IsActive k _ = (v : ℕ) × IsVersion v × (k ≡ encode (active_transaction_key v))

-- The versions that `Begin` collects from the markers found.
pub record Collected (l : Entries) (vs : List ℕ) : Type 0 where
  pub collected : collect_active l none ≡ ok vs
  pub listed :
      (v : ℕ)
      → IsVersion v
      → contains vs v ≡ true
      → (x : Slice) × (lookup (encode (active_transaction_key v)) l ≡ some x)
  pub complete :
      (v : ℕ) (x : Slice)
      → IsVersion v
      → lookup (encode (active_transaction_key v)) l ≡ some x
      → contains vs v ≡ true

active_injective :
    (u v : ℕ)
    → IsVersion u
    → IsVersion v
    → encode (active_transaction_key u) ≡ encode (active_transaction_key v)
    → u ≡ v
active_injective u v hu hv p =
    ap (λ (k : MvccKey). k.at)
      (encode-injective (active_transaction_key u) (active_transaction_key v) (active-IsKey u hu)
        (active-IsKey v hv) p)

same_test :
    (u v : ℕ)
    → IsVersion u
    → IsVersion v
    → bytes_eq (encode (active_transaction_key u)) (encode (active_transaction_key v)) ≡ (u == v)
same_test u v hu hv = elim (Bool-cases (u == v)) [
  | inl same ↦
      let eq : u ≡ v = ground arith in
      (bytes_eq_iff _ _).1 (ap (λ w. encode (active_transaction_key w)) eq) ∙ sym same
  | inr ne ↦
      elim (Bool-cases
        (bytes_eq (encode (active_transaction_key u)) (encode (active_transaction_key v)))) [
          | inl hit ↦ let eq = active_injective u v hu hv ((bytes_eq_iff _ _).0 hit) in ground arith
          | inr miss ↦ miss ∙ sym ne
        ]
]

collect_cons :
    (u : ℕ) (x : Slice) (l : Entries) (vs : List ℕ)
    → IsVersion u
    → Collected l vs
    → Collected ((encode (active_transaction_key u), x) ∷ l) (u ∷ vs)
unfolding collect_active contains lookup
collect_cons u x l vs hu c = record {
  collected =
      rw (decode_mvcc_key-encode (active_transaction_key u) (active-IsKey u hu), c.collected) refl;
  listed = λ v hv h. listed_cons v hv h (Bool-cases (u == v));
  complete = λ v y hv h. complete_cons v y hv h (Bool-cases (u == v));
}
  where
    listed_cons :
        (v : ℕ)
        → IsVersion v
        → contains (u ∷ vs) v ≡ true
        → ((u == v) ≡ true) ⊎ ((u == v) ≡ false)
        → (y : Slice) × (lookup
              (encode (active_transaction_key v))
              ((encode (active_transaction_key u), x) ∷ l)
            ≡ some y)
    listed_cons v hv h (inl same) = (x, rw (same_test u v hu hv, same) refl)
    listed_cons v hv h (inr ne) =
        let (y, at) = c.listed v hv (rw ne at h) in (y, rw (same_test u v hu hv, ne) at)

    complete_cons :
        (v : ℕ) (y : Slice)
        → IsVersion v
        → lookup (encode (active_transaction_key v)) ((encode (active_transaction_key u), x) ∷ l)
          ≡ some y
        → ((u == v) ≡ true) ⊎ ((u == v) ≡ false)
        → contains (u ∷ vs) v ≡ true
    complete_cons v y hv h (inl same) = rw same refl
    complete_cons v y hv h (inr ne) = rw ne (c.complete v y hv (rw (same_test u v hu hv, ne) at h))

pub collect_found : (l : Entries) → Each IsActive l → (vs : List ℕ) × Collected l vs
collect_found [] h = (
  [],
  unfold collect_active contains lookup in
      record { collected = refl; listed = λ v hv p. cc; complete = λ v x hv p. cc },
)
collect_found ((k, x) ∷ l) ((u, hu, same), rest) =
    let (vs, c) = collect_found l rest in
    (u ∷ vs, subst (λ b. Collected ((b, x) ∷ l) (u ∷ vs)) (sym same) (collect_cons u x l vs hu c))

active_of_prefix :
    (kind : MvccKeyKind) (at : ℕ) (raw : Bytes)
    → IsKey (record { kind = kind; at = at; raw_key = raw })
    → (1 == kind_byte kind) ≡ true
    → encode (record { kind = kind; at = at; raw_key = raw }) ≡ encode (active_transaction_key at)
unfolding kind_byte
active_of_prefix next_version at raw key h = cc h
active_of_prefix txn_active at raw key h =
    ap (λ b. encode (record { kind = txn_active; at = at; raw_key = b })) key.2
active_of_prefix txn_write at raw key h = cc h
active_of_prefix version at raw key h = cc h

pub load_next-encode_version : (n : ℕ) → IsVersion n → load_next (some (encode_version n)) ≡ ok n
unfolding load_next encode_version decode_version
load_next-encode_version n hn = rw (length-be 8 n, of_be-be 8 n hn) refl

module _ (e : Engine) (laws : IsReliable e) (next : ℕ) (s : e.State)
    (store : IsStore e laws next s) where
  abbrev pub markers : Entries
  markers = (e.scan_prefix active_transaction_prefix s).0

  pub lookup-markers :
      (v : ℕ)
      → IsVersion v
      → lookup (encode (active_transaction_key v)) markers
        ≡ laws.find (encode (active_transaction_key v)) s
  lookup-markers v hv =
      laws.lookup-prefix active_transaction_prefix _ s active_transaction_prefix-IsBytes
        (encode-IsBytes (active_transaction_key v) tt)
      ∙ rw (prefix_selects_active (active_transaction_key v)) (unfold kind_byte in refl)

  pub marker-IsActive : (j : Bytes) (x : Slice) → lookup j markers ≡ some x → IsActive j x
  marker-IsActive j x h =
      let at = laws.prefix_finds active_transaction_prefix j x s h in
      let (k, key, same, _) = store.records j x at in
      let hj : IsBytes j = subst IsBytes same (encode-IsBytes k key.1) in
      let (inside, _) = some_of_if _ _ (
        sym (laws.lookup-prefix active_transaction_prefix j s active_transaction_prefix-IsBytes hj)
        ∙ h) in
      (
        k.at,
        key.0,
        sym same
            ∙ active_of_prefix k.kind k.at k.raw_key key (
                sym (prefix_selects_active k)
                ∙ subst (λ b. has_prefix active_transaction_prefix b ≡ true) (sym same) inside),
      )

  abbrev pub actives : (vs : List ℕ) × Collected markers vs
  actives = collect_found markers (
      Each-ascending IsActive markers
        (laws.prefix-IsAscending active_transaction_prefix s store.valid) marker-IsActive)

  abbrev pub begun_state : e.State
  begun_state =
      laws.put (encode (active_transaction_key next)) none
        (laws.put (encode next_version_key) (some (encode_version (next + 1))) s)

  pub begin-eq :
      IsVersion (next + 1)
      → begin e s ≡ (ok (record { version = next; active_versions = actives.0 }), begun_state)
  unfolding begin
  begin-eq fits =
      let wrap : (next + 1) % u64_mod ≡ next + 1 = omega arith in
      rw (
        laws.get_find, store.next_stored, laws.prefix_succeeds, actives.1.collected, wrap,
        laws.set_put, laws.set_put,
      )
