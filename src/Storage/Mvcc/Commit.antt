-- ===== src/Storage/Mvcc/Commit.antt =====
-- What `Commit` leaves: the versions stay, the write set and the active marker are gone.
use space_db.Base.{
  ℕ, ◌≡◌, ◌≢◌, refl, ap, ◌∙◌, sym, List, Option, none, some, false, Bool-cases, inl, inr, ok, arith,
  if◌then◌else◌, All,
}
use space_db.Bytes.{Bytes, Slice, IsBytes}
use space_db.Storage.Engine.{Engine, IsReliable}
use space_db.Storage.Key.{
  MvccKey, txn_active, encode, versioned_key, active_transaction_key, transaction_write_key, IsKey,
  IsVersion,
}
use space_db.Storage.Key.RoundTrip.{encode-injective}
use space_db.Storage.Versions.{Transaction}
use space_db.Storage.Mvcc.{commit}
use space_db.Storage.Mvcc.Store.{IsStore, version_at}
use space_db.Storage.Mvcc.Keep.{drop-IsStore, find-drop_ne, find-drop_self}
use space_db.Storage.Mvcc.WriteSet.{
  keys_of, has_key, drop_all, delete_all-drop_all, find-drop_all, at_key, drop_all-IsStore,
  IsWriteOf, IsOwn, Droppable-of_own, All-imp, collect_writes-keys_of, keys_are_writes, write_set,
  write_set-writes, has_write,
}

pub encode_ne : (k m : MvccKey) → IsKey k → IsKey m → k.kind ≢ m.kind → encode k ≢ encode m
encode_ne k m key mkey other e =
    other (ap (λ (x : MvccKey). x.kind) (encode-injective k m key mkey e))

pub active-IsKey : (v : ℕ) → IsVersion v → IsKey (active_transaction_key v)
active-IsKey v hv = (hv, tt, refl)

module _ (e : Engine) (laws : IsReliable e) (t : Transaction) (hv : IsVersion t.version) where
  -- The state that the end of a transaction leaves, where `ks` are the keys it deletes.
  abbrev pub ended : List Bytes → e.State → e.State
  ended ks s = laws.drop_key (encode (active_transaction_key t.version)) (drop_all e laws ks s)

  pub find-ended :
      (ks : List Bytes) (k : MvccKey) (s : e.State)
      → IsKey k
      → k.kind ≢ txn_active
      → laws.find (encode k) (ended ks s)
        ≡ (if has_key (encode k) ks then none else laws.find (encode k) s)
  find-ended ks k s key other =
      find-drop_ne e laws _ (encode k) _ (
        encode_ne (active_transaction_key t.version) k (active-IsKey t.version hv) key
          (λ p. other (sym p)))
      ∙ find-drop_all e laws ks (encode k) s

  pub ended-IsStore :
      (ks : List Bytes) (next : ℕ) (s : e.State)
      → All (IsOwn t.version) ks
      → IsStore e laws next s
      → IsStore e laws next (ended ks s)
  ended-IsStore ks next s own store =
      drop-IsStore e laws (active_transaction_key t.version) next _ (active-IsKey t.version hv)
        (λ p. cc p)
        (drop_all-IsStore e laws next ks s
          (All-imp _ _ (λ j o. Droppable-of_own t.version j hv o) ks own) store)

  module _ (next : ℕ) (s : e.State) (store : IsStore e laws next s) where
    abbrev pub write_keys : List Bytes
    write_keys = keys_of (write_set e laws next s store t.version hv)

    pub write_keys-writes : All (λ k. IsWriteOf t.version k none) write_keys
    write_keys-writes =
        keys_are_writes t.version hv _ (write_set-writes e laws next s store t.version hv)

    pub commit-eq : commit e t s ≡ (ok tt, ended write_keys s)
    unfolding commit
    commit-eq = rw (
      laws.prefix_succeeds,
      collect_writes-keys_of t.version hv _ (write_set-writes e laws next s store t.version hv),
      delete_all-drop_all e laws write_keys s,
      laws.delete_drop_key,
    )

    -- What a commit promises of the state `s'` that it leaves.
    pub record Committed (s' : e.State) : Type 0 where
      pub keeps : IsStore e laws next s'
      pub versions_stay :
          (raw : Bytes) (u : ℕ)
          → IsBytes raw
          → IsVersion u
          → version_at e laws raw u s' ≡ version_at e laws raw u s
      pub marker_gone : laws.find (encode (active_transaction_key t.version)) s' ≡ none
      pub write_set_gone :
          (raw : Bytes)
          → IsBytes raw
          → laws.find (encode (transaction_write_key t.version raw)) s' ≡ none

    version_is_no_write :
        (raw : Bytes) (u : ℕ)
        → IsBytes raw
        → IsVersion u
        → has_key (encode (versioned_key raw u)) write_keys ≡ false
    version_is_no_write raw u hr hu =
        elim (Bool-cases (has_key (encode (versioned_key raw u)) write_keys)) [
          | inr miss ↦ miss
          | inl hit ↦
              let (w, hw, same) =
                at_key (λ k. IsWriteOf t.version k none) _ write_keys write_keys-writes hit in
              absurd (
                encode_ne (versioned_key raw u) (transaction_write_key t.version w) (hu, hr, tt)
                  (hv, hw, tt) (λ p. cc p) same)
        ]

    write_is_gone :
        (raw : Bytes)
        → IsBytes raw
        → laws.find (encode (transaction_write_key t.version raw)) (ended write_keys s) ≡ none
    write_is_gone raw hr =
        find-ended write_keys (transaction_write_key t.version raw) s (hv, hr, tt) (λ p. cc p)
        ∙ gone raw hr (laws.find (encode (transaction_write_key t.version raw)) s) refl
      where
        gone :
            (raw : Bytes)
            → IsBytes raw
            → (o : Option Slice) → laws.find (encode (transaction_write_key t.version raw)) s ≡ o
            → (if has_key (encode (transaction_write_key t.version raw)) write_keys
                then none
                else o)
              ≡ none
        gone raw hr none h = ground arith
        gone raw hr (some x) h = rw (has_write e laws next s store t.version hv raw x hr h) refl

    -- Over an engine that keeps its contract and contents that satisfy the invariant, `Commit`
    -- of a transaction whose version fits 64 bits succeeds; it keeps the invariant, changes no
    -- version of any key, and removes the active marker and every record of the transaction's
    -- write set.
    pub commit-Committed : (s' : e.State) × (commit e t s ≡ (ok tt, s')) × Committed s'
    commit-Committed = (
      ended write_keys s,
      commit-eq,
      record {
        keeps =
            ended-IsStore write_keys next s
              (All-imp _ _ (λ j (raw, hr, same). (raw, hr, inl same)) write_keys write_keys-writes)
              store;
        versions_stay = λ raw u hr hu.
            find-ended write_keys (versioned_key raw u) s (hu, hr, tt) (λ p. cc p)
            ∙ rw (version_is_no_write raw u hr hu) refl;
        marker_gone = find-drop_self e laws _ _;
        write_set_gone = write_is_gone;
      },
    )
