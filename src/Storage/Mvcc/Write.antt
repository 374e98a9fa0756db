-- ===== src/Storage/Mvcc/Write.antt =====
-- What `Set` and `Delete` do to the engine's contents.
use space_db.Base.{
  ℕ, ◌+◌, ◌%◌, ◌≤◌, ◌<◌, ◌≡◌, ◌≢◌, ◌⊎◌, refl, ap, ◌∙◌, none, some, Bool, true, false, Bool-cases,
  inl, inr, Result, ok, err, arith, if◌then◌else◌,
}
use mathlib.Core.Path.{fun_ext}
use space_db.Base.Exec.{◌>>◌, continue}
use space_db.Bytes.{Bytes, Slice, IsBytes}
use space_db.Storage.Errors.{Error, write_conflict}
use space_db.Storage.Engine.{Engine, IsReliable}
use space_db.Storage.Key.{MvccKey, encode, versioned_key, transaction_write_key, IsVersion, u64_mod}
use space_db.Storage.Key.RoundTrip.{encode-injective}
use space_db.Storage.Versions.{
  Transaction, is_visible, from_version, check_conflict, encode_versioned_value,
  decode_versioned_value, slice_bytes,
}
use space_db.Storage.Mvcc.{write}
use space_db.Storage.Mvcc.Store.{IsStore, version_at}
use space_db.Storage.Mvcc.Keep.{put-IsStore, find-put_self, find-put_ne}
use space_db.Storage.Mvcc.Conflict.{
  Checked, untouched, newest, conflict_test-Checked, versions_from_least, from_version-le,
  hidden_is_checked,
}

set_twice :
    (e : Engine) (laws : IsReliable e) (k j : Bytes) (v w : Slice)
    → (e.set k v >> e.set j w) ≡ (λ s. (ok tt, laws.put j w (laws.put k v s)))
set_twice e laws k j v w = fun_ext λ s. rw (laws.set_put k v s, laws.set_put j w (laws.put k v s))

module _ (e : Engine) (laws : IsReliable e) (t : Transaction) (raw : Bytes) (value : Slice)
    (deleted : Bool) where
  -- The state that a write without a conflict leaves: a record of the write set and the version.
  abbrev pub written : e.State → e.State
  written s =
      laws.put (encode (versioned_key raw t.version)) (some (encode_versioned_value value deleted))
        (laws.put (encode (transaction_write_key t.version raw)) none s)

  abbrev pub checked_versions : e.State → Result Error (Unit {0})
  checked_versions s =
      let least = from_version (t.version + 1) t.active_versions in
      check_conflict t (versions_from_least e raw least s) none

  -- `write` is its conflict test, followed by two writes that cannot fail.
  pub write-eq :
      (s : e.State)
      → IsVersion (t.version + 1)
      → write e t raw value deleted s
        ≡ continue (checked_versions s, s) (λ _ s'. (ok tt, written s'))
  unfolding write
  write-eq s fits =
      let wrap : (t.version + 1) % u64_mod ≡ t.version + 1 = omega arith in
      simp (wrap, laws.reverse_succeeds, set_twice e laws)

pub decode-encode_versioned_value :
    (value : Slice) (deleted : Bool)
    → decode_versioned_value (some (encode_versioned_value value deleted))
      ≡ ok (if deleted then none else some (slice_bytes value))
unfolding decode_versioned_value encode_versioned_value
decode-encode_versioned_value value true = refl
decode-encode_versioned_value value false = refl

write_ne_version :
    (v u : ℕ) (raw key : Bytes)
    → IsVersion v
    → IsVersion u
    → IsBytes raw
    → IsBytes key
    → encode (transaction_write_key v raw) ≢ encode (versioned_key key u)
write_ne_version v u raw key hv hu hr hk e = cc (
    ap (λ (k : MvccKey). k.kind)
      (encode-injective (transaction_write_key v raw) (versioned_key key u) (hv, hr, tt)
        (hu, hk, tt) e))

module _ (e : Engine) (laws : IsReliable e) (t : Transaction) (raw : Bytes) (value : Slice)
    (deleted : Bool) (next : ℕ) (s : e.State) (bytes : IsBytes raw) (store : IsStore e laws next s)
    (fits : IsVersion (t.version + 1)) where
  -- The two writes of a write without a conflict keep the invariant.
  pub written-IsStore :
      t.version < next → IsStore e laws next (written e laws t raw value deleted s)
  written-IsStore begun =
      put-IsStore e laws (versioned_key raw t.version) next _ (omega arith, bytes, tt) (λ p. cc)
        (some (encode_versioned_value value deleted))
        (_, decode-encode_versioned_value value deleted) begun
        (put-IsStore e laws (transaction_write_key t.version raw) next s (omega arith, bytes, tt)
          (λ p. cc) none tt begun store)

  -- The version that was written.
  pub version_at-written_self :
      version_at e laws raw t.version (written e laws t raw value deleted s)
      ≡ some (some (encode_versioned_value value deleted))
  version_at-written_self = find-put_self e laws _ _ _

  -- The other versions stay as they were.
  pub version_at-written_ne :
      (key : Bytes) (u : ℕ)
      → IsBytes key
      → IsVersion u
      → (raw ≢ key) ⊎ (t.version ≢ u)
      → version_at e laws key u (written e laws t raw value deleted s) ≡ version_at e laws key u s
  version_at-written_ne key u hk hu other =
      find-put_ne e laws _ _ _ _ (other_version key u hk hu other)
      ∙ find-put_ne e laws _ _ _ _ (write_ne_version t.version u raw key (omega arith) hu bytes hk)
    where
      other_version :
          (key : Bytes) (u : ℕ)
          → IsBytes key
          → IsVersion u
          → (raw ≢ key) ⊎ (t.version ≢ u)
          → encode (versioned_key raw t.version) ≢ encode (versioned_key key u)
      other_version key u hk hu o e =
          let same =
            encode-injective (versioned_key raw t.version) (versioned_key key u)
              (omega arith, bytes, tt) (hu, hk, tt) e in
          elim o [
            | inl ne ↦ ne (ap (λ (k : MvccKey). k.raw_key) same)
            | inr ne ↦ ne (ap (λ (k : MvccKey). k.at) same)
          ]

  least_small : IsVersion (from_version (t.version + 1) t.active_versions)
  least_small = omega (arith, from_version-le (t.version + 1) t.active_versions)

  checked :
      Checked t
        (λ u. version_at e laws raw u s)
        (from_version (t.version + 1) t.active_versions)
        (checked_versions e laws t raw value deleted s)
  checked = conflict_test-Checked e laws raw next s bytes store _ least_small t

  -- Over an engine that keeps its contract and contents that satisfy the invariant, and where
  -- the version after the transaction's fits 64 bits: if the transaction sees every stored
  -- version of the key, the write succeeds and leaves the record of the write set and the
  -- version.
  pub write_succeeds :
      ((u : ℕ) (v : Slice)
        → IsVersion u
        → version_at e laws raw u s ≡ some v
        → is_visible t u ≡ true)
      → write e t raw value deleted s ≡ (ok tt, written e laws t raw value deleted s)
  write_succeeds seen = elim checked [
    | untouched empty r ↦ rw (write-eq e laws t raw value deleted s fits, r)
    | newest u v hu low at top r ↦
        rw (write-eq e laws t raw value deleted s fits, r, seen u v hu at)
  ]

  -- Over an engine that keeps its contract and contents that satisfy the invariant, and where
  -- the version after the transaction's fits 64 bits: if the newest stored version of the key is
  -- one that the transaction does not see, the write is refused with a conflict, and nothing
  -- changes.
  pub write_conflicts :
      (u : ℕ) (v : Slice)
      → IsVersion u
      → version_at e laws raw u s ≡ some v
      → is_visible t u ≡ false
      → ((w : ℕ) (x : Slice) → IsVersion w → version_at e laws raw w s ≡ some x → w ≤ u)
      → write e t raw value deleted s ≡ (err write_conflict, s)
  write_conflicts u v hu at hidden top = elim checked [
    | untouched empty r ↦ cc (at, empty u hu (hidden_is_checked t u hidden))
    | newest w x hw low bt under r ↦
        let same : w ≡ u =
          omega (arith, top w x hw bt, under u v hu (hidden_is_checked t u hidden) at) in
        rw (write-eq e laws t raw value deleted s fits, r, same, hidden)
  ]

  -- A write is refused and changes nothing, or it is made.
  pub write_cases :
      (write e t raw value deleted s ≡ (err write_conflict, s))
      ⊎ (write e t raw value deleted s ≡ (ok tt, written e laws t raw value deleted s))
  write_cases = elim checked [
    | untouched empty r ↦ inr (rw (write-eq e laws t raw value deleted s fits, r))
    | newest u v hu low at top r ↦ elim (Bool-cases (is_visible t u)) [
      | inl seen ↦ inr (rw (write-eq e laws t raw value deleted s fits, r, seen))
      | inr hidden ↦ inl (rw (write-eq e laws t raw value deleted s fits, r, hidden))
    ]
  ]

  -- Over an engine that keeps its contract and contents that satisfy the invariant, and where
  -- the version after the transaction's fits 64 bits: the state that a write of a begun
  -- transaction leaves, whether it is made or refused, satisfies the invariant.
  pub write_keeps-IsStore : t.version < next → IsStore e laws next (write e t raw value deleted s).1
  write_keeps-IsStore begun = elim write_cases [
    | inl refused ↦ rw refused store
    | inr made ↦ rw made (written-IsStore begun)
  ]
