-- ===== src/Storage/Mvcc/Isolation.antt =====
-- Reads after writes: a transaction reads its own writes, and no other's.
use space_db.Base.{
  ℕ, ◌+◌, ◌<◌, ◌≡◌, ◌≢◌, ◌⊎◌, ap, ◌∙◌, sym, none, some, Bool, true, false, inl, inr, ok, arith,
  if◌then◌else◌,
}
use space_db.Bytes.{Bytes, Slice, IsBytes}
use space_db.Storage.Engine.{Engine, IsReliable}
use space_db.Storage.Key.{IsVersion}
use space_db.Storage.Versions.{
  Transaction, is_visible, decode_versioned_value, encode_versioned_value, slice_bytes,
}
use space_db.Storage.Mvcc.{get, write}
use space_db.Storage.Mvcc.Store.{IsStore, version_at}
use space_db.Storage.Mvcc.Newest.{found, missing}
use space_db.Storage.Mvcc.Snapshot.{get-Newest, get-ext, visible_le, SameSeen}
use space_db.Storage.Mvcc.Write.{
  written, write_cases, written-IsStore, version_at-written_self, version_at-written_ne,
  decode-encode_versioned_value,
}

module _ (e : Engine) (laws : IsReliable e) (t : Transaction) (raw : Bytes) (value : Slice)
    (deleted : Bool) (next : ℕ) (s : e.State) (bytes : IsBytes raw) (store : IsStore e laws next s)
    (fits : IsVersion (t.version + 1)) (begun : t.version < next) where
  get-written :
      is_visible t t.version ≡ true
      → get e t raw (written e laws t raw value deleted s)
        ≡ ok (if deleted then none else some (slice_bytes value))
  get-written own =
      let self = version_at-written_self e laws t raw value deleted next s bytes store fits in
      let after = written-IsStore e laws t raw value deleted next s bytes store fits begun in
      elim (get-Newest e laws raw next _ bytes after t fits) [
        | found u v hu vis at top r ↦
            let low = top t.version _ (omega arith) own self in
            let same : t.version ≡ u = omega (arith, visible_le t u vis) in
            let v_is : some v ≡ some (some (encode_versioned_value value deleted)) =
              sym (rw (← same) at at) ∙ self in
            r ∙ ap decode_versioned_value (cc v_is) ∙ decode-encode_versioned_value value deleted
        | missing empty r ↦ cc (self, empty t.version (omega arith) own)
      ]

  -- Over an engine that keeps its contract and contents that satisfy the invariant, and where
  -- the transaction has begun, sees its own version, and the version after it fits 64 bits:
  -- after a write that succeeds, `Get` of the key in the same transaction returns the value that
  -- was set, or nil after a deletion.
  pub get-write_self :
      (s' : e.State)
      → is_visible t t.version ≡ true
      → write e t raw value deleted s ≡ (ok tt, s')
      → get e t raw s' ≡ ok (if deleted then none else some (slice_bytes value))
  get-write_self s' own done =
      elim (write_cases e laws t raw value deleted next s bytes store fits) [
        | inl refused ↦ cc (ap (λ p. p.0) refused, ap (λ p. p.0) done)
        | inr w ↦
            let at : written e laws t raw value deleted s ≡ s' = ap (λ p. p.1) (sym w ∙ done) in
            rw (← at) (get-written own)
      ]

  -- Over an engine that keeps its contract and contents that satisfy the invariant, and where
  -- the versions after those of the two transactions fit 64 bits and the writer has begun: a
  -- write, whether it succeeds or not, does not change what `Get` returns for another key, nor
  -- what it returns to a transaction that does not see the writer's version.
  pub get-write_other :
      (other : Transaction) (key : Bytes)
      → IsBytes key
      → IsVersion (other.version + 1)
      → (raw ≢ key) ⊎ (is_visible other t.version ≡ false)
      → get e other key (write e t raw value deleted s).1 ≡ get e other key s
  get-write_other other key hk small apart =
      elim (write_cases e laws t raw value deleted next s bytes store fits) [
        | inl refused ↦ rw refused
        | inr w ↦ rw w (
            get-ext e laws key next next _ s other hk
              (written-IsStore e laws t raw value deleted next s bytes store fits begun) store small
              unseen)
      ]
    where
      apart_at :
          (u : ℕ)
          → is_visible other u ≡ true
          → (raw ≢ key) ⊎ (is_visible other t.version ≡ false)
          → (raw ≢ key) ⊎ (t.version ≢ u)
      apart_at u vis (inl ne) = inl ne
      apart_at u vis (inr hidden) = inr (λ p. cc (hidden, vis, p))

      unseen :
          SameSeen other
            (λ u. version_at e laws key u (written e laws t raw value deleted s))
            (λ u. version_at e laws key u s)
      unseen u hu vis =
          version_at-written_ne e laws t raw value deleted next s bytes store fits key u hk hu
            (apart_at u vis apart)
