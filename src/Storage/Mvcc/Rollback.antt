-- ===== src/Storage/Mvcc/Rollback.antt =====
-- What `Rollback` leaves: no version that the transaction wrote, and everyone else's versions.
use space_db.Base.{
  ℕ, ◌+◌, ◌≡◌, ◌≢◌, refl, ap, ◌∙◌, sym, List, Option, none, some, Bool, false, Bool-cases, inl, inr,
  ok, arith, if◌then◌else◌,
}
use mathlib.Core.Path.{subst}
use space_db.Bytes.{Bytes, Slice, IsBytes, bytes_eq}
use space_db.Bytes.Order.{bytes_eq_iff}
use space_db.Storage.Engine.{Engine, IsReliable}
use space_db.Storage.Key.{
  MvccKey, encode, versioned_key, active_transaction_key, transaction_write_key, IsVersion,
}
use space_db.Storage.Key.RoundTrip.{encode-injective}
use space_db.Storage.Versions.{Transaction, is_visible}
use space_db.Storage.Mvcc.{rollback, get, write}
use space_db.Storage.Mvcc.Store.{IsStore, version_at}
use space_db.Storage.Mvcc.Keep.{find-drop_self, find-put_self, find-put_ne}
use space_db.Storage.Mvcc.Snapshot.{get-ext}
use space_db.Storage.Mvcc.Write.{written, write_cases}
use space_db.Storage.Mvcc.WriteSet.{
  has_key, delete_all-drop_all, at_key, IsOwn, RolledBack, collect_rolled_back, write_set,
  write_set-writes, has_write,
}
use space_db.Storage.Mvcc.Commit.{ended, find-ended, ended-IsStore, encode_ne}

-- Every stored version of transaction `v` has its record in the write set of `v`.
abbrev pub IsLogged : (e : Engine) → IsReliable e → ℕ → e.State → Type 0
IsLogged e laws v s =
    (raw : Bytes) (x : Slice)
    → IsBytes raw
    → version_at e laws raw v s ≡ some x
    → (w : Slice) × (laws.find (encode (transaction_write_key v raw)) s ≡ some w)

module _ (e : Engine) (laws : IsReliable e) (t : Transaction) (hv : IsVersion t.version) (next : ℕ)
    (s : e.State) (store : IsStore e laws next s) where
  abbrev pub rolled_keys :
      (ks : List Bytes) × RolledBack t.version hv (write_set e laws next s store t.version hv) ks
  rolled_keys =
      collect_rolled_back t.version hv _ (write_set-writes e laws next s store t.version hv)

  pub rollback-eq : rollback e t s ≡ (ok tt, ended e laws t hv rolled_keys.0 s)
  unfolding rollback
  rollback-eq = rw (
    laws.prefix_succeeds,
    rolled_keys.1.collected,
    delete_all-drop_all e laws rolled_keys.0 s,
    laws.delete_drop_key,
  )

  -- What a rollback promises of the state `s'` that it leaves.
  pub record Undone (s' : e.State) : Type 0 where
    pub keeps : IsStore e laws next s'
    pub versions_gone : (raw : Bytes) → IsBytes raw → version_at e laws raw t.version s' ≡ none
    pub others_stay :
        (raw : Bytes) (u : ℕ)
        → IsBytes raw
        → IsVersion u
        → t.version ≢ u
        → version_at e laws raw u s' ≡ version_at e laws raw u s
    pub marker_gone : laws.find (encode (active_transaction_key t.version)) s' ≡ none
    pub write_set_gone :
        (raw : Bytes)
        → IsBytes raw
        → laws.find (encode (transaction_write_key t.version raw)) s' ≡ none

  other_is_kept :
      (raw : Bytes) (u : ℕ)
      → IsBytes raw
      → IsVersion u
      → t.version ≢ u
      → has_key (encode (versioned_key raw u)) rolled_keys.0 ≡ false
  other_is_kept raw u hr hu other =
      elim (Bool-cases (has_key (encode (versioned_key raw u)) rolled_keys.0)) [
        | inr miss ↦ miss
        | inl hit ↦
            let (w, hw, form) = at_key (IsOwn t.version) _ rolled_keys.0 rolled_keys.1.own hit in
            absurd (elim form [
              | inl same ↦
                  encode_ne (versioned_key raw u) (transaction_write_key t.version w) (hu, hr, tt)
                    (hv, hw, tt) (λ p. cc p) same
              | inr same ↦ other (
                  ap (λ (k : MvccKey). k.at)
                    (sym (
                      encode-injective (versioned_key raw u) (versioned_key w t.version)
                        (hu, hr, tt) (hv, hw, tt) same)))
            ])
      ]

  module _ (raw : Bytes) (hr : IsBytes raw) where
    write_is_gone :
        laws.find (encode (transaction_write_key t.version raw)) (ended e laws t hv rolled_keys.0 s)
        ≡ none
    write_is_gone =
        find-ended e laws t hv rolled_keys.0 (transaction_write_key t.version raw) s (hv, hr, tt)
          (λ p. cc p)
        ∙ gone (laws.find (encode (transaction_write_key t.version raw)) s) refl
      where
        gone :
            (o : Option Slice)
            → laws.find (encode (transaction_write_key t.version raw)) s ≡ o
            → (if has_key (encode (transaction_write_key t.version raw)) rolled_keys.0
                then none
                else o)
              ≡ none
        gone none h = ground arith
        gone (some x) h =
            rw
              (rolled_keys.1.complete raw hr
                (has_write e laws next s store t.version hv raw x hr h)).0
              refl

    version_is_gone :
        IsLogged e laws t.version s
        → version_at e laws raw t.version (ended e laws t hv rolled_keys.0 s) ≡ none
    version_is_gone logged =
        find-ended e laws t hv rolled_keys.0 (versioned_key raw t.version) s (hv, hr, tt)
          (λ p. cc p)
        ∙ gone (version_at e laws raw t.version s) refl
      where
        gone :
            (o : Option Slice)
            → version_at e laws raw t.version s ≡ o
            → (if has_key (encode (versioned_key raw t.version)) rolled_keys.0 then none else o)
              ≡ none
        gone none h = ground arith
        gone (some x) h =
            let (w, at) = logged raw x hr h in
            rw
              (rolled_keys.1.complete raw hr
                (has_write e laws next s store t.version hv raw w hr at)).1
              refl

  -- Over an engine that keeps its contract and contents that satisfy the invariant, and where
  -- every version of the transaction has its record in the write set, `Rollback` succeeds; it
  -- keeps the invariant, removes all versions that the transaction wrote, its write set and its
  -- active marker, and changes no version of another transaction.
  pub rollback-Undone :
      IsLogged e laws t.version s → (s' : e.State) × (rollback e t s ≡ (ok tt, s')) × Undone s'
  rollback-Undone logged = (
    ended e laws t hv rolled_keys.0 s,
    rollback-eq,
    record {
      keeps = ended-IsStore e laws t hv rolled_keys.0 next s rolled_keys.1.own store;
      versions_gone = λ raw hr. version_is_gone raw hr logged;
      others_stay = λ raw u hr hu other.
          find-ended e laws t hv rolled_keys.0 (versioned_key raw u) s (hu, hr, tt) (λ p. cc p)
          ∙ rw (other_is_kept raw u hr hu other) refl;
      marker_gone = find-drop_self e laws _ _;
      write_set_gone = write_is_gone;
    },
  )

  -- Over an engine that keeps its contract and contents that satisfy the invariant, and where
  -- every version of the transaction that is rolled back has its record in its write set, a
  -- rollback changes no answer of `Get` to a transaction that does not see that version and
  -- whose own next version fits 64 bits.
  pub get-rollback :
      (other : Transaction) (key : Bytes)
      → IsLogged e laws t.version s
      → IsBytes key
      → IsVersion (other.version + 1)
      → is_visible other t.version ≡ false
      → get e other key (rollback e t s).1 ≡ get e other key s
  get-rollback other key logged hk fits hidden =
      let (s', done, undone) = rollback-Undone logged in
      rw done (
        get-ext e laws key next next s' s other hk undone.keeps store fits
          (λ u hu vis. undone.others_stay key u hk hu (λ p. cc (p, vis, hidden))))

module _ (e : Engine) (laws : IsReliable e) (t : Transaction) (raw : Bytes) (value : Slice)
    (deleted : Bool) (next : ℕ) (s : e.State) (bytes : IsBytes raw) (store : IsStore e laws next s)
    (fits : IsVersion (t.version + 1)) where
  written-IsLogged :
      IsLogged e laws t.version s → IsLogged e laws t.version (written e laws t raw value deleted s)
  written-IsLogged logged key x hk at = elim (Bool-cases (bytes_eq raw key)) [
    | inl same ↦
        subst
          (λ b.
            (w : Slice) × (laws.find (encode (transaction_write_key t.version b))
                (written e laws t raw value deleted s)
              ≡ some w))
          ((bytes_eq_iff raw key).0 same) (record_kept raw bytes none (find-put_self e laws _ _ _))
    | inr ne ↦
        let raw_ne : raw ≢ key = λ p. cc ((bytes_eq_iff raw key).1 p, ne) in
        let (w, there) = logged key x hk (sym (version_kept key hk raw_ne) ∙ at) in
        record_kept key hk w (find-put_ne e laws _ _ _ _ (write_ne key hk raw_ne) ∙ there)
  ]
    where
      hv : IsVersion t.version
      hv = omega arith

      record_kept :
          (key : Bytes)
          → IsBytes key
          → (w : Slice)
          → laws.find
              (encode (transaction_write_key t.version key))
              (laws.put (encode (transaction_write_key t.version raw)) none s)
            ≡ some w
          → (w : Slice) × (laws.find
                (encode (transaction_write_key t.version key))
                (written e laws t raw value deleted s)
              ≡ some w)
      record_kept key hk w h = (
        w,
        find-put_ne e laws _ _ _ _ (
              encode_ne (versioned_key raw t.version) (transaction_write_key t.version key)
                (hv, bytes, tt) (hv, hk, tt) (λ p. cc p))
            ∙ h,
      )

      write_ne :
          (key : Bytes)
          → IsBytes key
          → raw ≢ key
          → encode (transaction_write_key t.version raw)
            ≢ encode (transaction_write_key t.version key)
      write_ne key hk ne p = ne (
          ap (λ (k : MvccKey). k.raw_key)
            (encode-injective (transaction_write_key t.version raw)
              (transaction_write_key t.version key) (hv, bytes, tt) (hv, hk, tt) p))

      version_kept :
          (key : Bytes)
          → IsBytes key
          → raw ≢ key
          → version_at e laws key t.version (written e laws t raw value deleted s)
            ≡ version_at e laws key t.version s
      version_kept key hk ne =
          find-put_ne e laws _ _ _ _ (λ p. ne (
            ap (λ (k : MvccKey). k.raw_key)
              (encode-injective (versioned_key raw t.version) (versioned_key key t.version)
                (hv, bytes, tt) (hv, hk, tt) p)))
          ∙ find-put_ne e laws _ _ _ _ (
              encode_ne (transaction_write_key t.version raw) (versioned_key key t.version)
                (hv, bytes, tt) (hv, hk, tt) (λ p. cc p))

  -- Over an engine that keeps its contract and contents that satisfy the invariant, and where
  -- the version after the writer's fits 64 bits: if every version of the writer has its record
  -- in its write set, this is still so after a write, whether it succeeds or not.
  pub write-IsLogged :
      IsLogged e laws t.version s → IsLogged e laws t.version (write e t raw value deleted s).1
  write-IsLogged logged = elim (write_cases e laws t raw value deleted next s bytes store fits) [
    | inl refused ↦ rw refused logged
    | inr done ↦ rw done (written-IsLogged logged)
  ]
