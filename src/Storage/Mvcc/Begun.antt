-- ===== src/Storage/Mvcc/Begun.antt =====
-- The promises of `Begin`.
use space_db.Base.{
  ℕ, ◌+◌, ◌≡◌, ◌≢◌, refl, ◌∙◌, sym, none, some, true, false, Bool-cases, inl, inr, ok, arith,
  some-injective,
}
use space_db.Bytes.{Bytes, Slice, IsBytes, bytes_eq}
use space_db.Bytes.Order.{bytes_eq_iff}
use space_db.Storage.Engine.{Engine, IsReliable}
use space_db.Storage.Key.{
  encode, versioned_key, next_version_key, active_transaction_key, IsVersion, encode_version,
}
use space_db.Storage.Versions.{Transaction, contains, is_visible}
use space_db.Storage.Mvcc.{begin, get}
use space_db.Storage.Mvcc.Store.{IsStore, version_at}
use space_db.Storage.Mvcc.Keep.{
  put-IsStore, find-put_self, find-put_ne, next_version_key-IsKey, encode_ne_next,
}
use space_db.Storage.Mvcc.Snapshot.{get-ext}
use space_db.Storage.Mvcc.Commit.{encode_ne, active-IsKey}
use space_db.Storage.Mvcc.Rollback.{IsLogged}
use space_db.Storage.Mvcc.Begin.{
  begin-eq, begun_state, actives, load_next-encode_version, lookup-markers,
}

module _ (e : Engine) (laws : IsReliable e) (next : ℕ) (s : e.State)
    (store : IsStore e laws next s) where
  -- The version counter goes up by one.
  advance-IsStore :
      IsVersion (next + 1)
      → IsStore e laws
          (next + 1)
          (laws.put (encode next_version_key) (some (encode_version (next + 1))) s)
  advance-IsStore fits = record {
    valid = laws.put-IsValid _ _ s store.valid;
    records = λ j w h. elim (Bool-cases (bytes_eq (encode next_version_key) j)) [
      | inl same ↦
          let stored =
            rw
              (laws.find-put (encode next_version_key) j (some (encode_version (next + 1))) s, same)
              at h in
          (
            next_version_key,
            next_version_key-IsKey,
            (bytes_eq_iff _ _).0 same,
            (next + 1, fits, sym (some-injective stored)),
          )
      | inr ne ↦ store.records j w (
          rw (laws.find-put (encode next_version_key) j (some (encode_version (next + 1))) s, ne) at
            h)
    ];
    next_stored =
        rw (find-put_self e laws (encode next_version_key) (some (encode_version (next + 1))) s)
          (load_next-encode_version (next + 1) fits);
    next_fits = fits;
    below_next = λ m w mkey mother h.
        let old = store.below_next m w mkey mother (
          sym (
            find-put_ne e laws (encode next_version_key) (encode m) _ s
              (λ p. encode_ne_next m mkey mother (sym p)))
          ∙ h) in
        omega arith;
  }

  -- What `Begin` promises of the transaction `t` and of the state `s'` that it leaves.
  pub record Begun (t : Transaction) (s' : e.State) : Type 0 where
    pub fresh : t.version ≡ next
    pub keeps : IsStore e laws (next + 1) s'
    pub logged : IsLogged e laws t.version s'
    pub sees_itself : is_visible t t.version ≡ true
    pub marked : laws.find (encode (active_transaction_key t.version)) s' ≡ some none
    pub actives_marked :
        (v : ℕ)
        → IsVersion v
        → contains t.active_versions v ≡ true
        → (x : Slice) × (laws.find (encode (active_transaction_key v)) s ≡ some x)
    pub marked_actives :
        (v : ℕ) (x : Slice)
        → IsVersion v
        → laws.find (encode (active_transaction_key v)) s ≡ some x
        → contains t.active_versions v ≡ true
    pub versions_stay :
        (raw : Bytes) (u : ℕ)
        → IsBytes raw
        → IsVersion u
        → version_at e laws raw u s' ≡ version_at e laws raw u s

  pub versions_kept :
      (raw : Bytes) (u : ℕ)
      → IsBytes raw
      → IsVersion u
      → version_at e laws raw u (begun_state e laws next s store) ≡ version_at e laws raw u s
  versions_kept raw u hr hu =
      find-put_ne e laws _ _ _ _ (
        encode_ne (active_transaction_key next) (versioned_key raw u)
          (active-IsKey next store.next_fits) (hu, hr, tt) (λ p. cc p))
      ∙ find-put_ne e laws _ _ _ _
          (λ p. encode_ne_next (versioned_key raw u) (hu, hr, tt) (λ q. cc q) (sym p))

  no_version_yet : (raw : Bytes) (x : Slice) → IsBytes raw → version_at e laws raw next s ≢ some x
  no_version_yet raw x hr h =
      let small =
        store.below_next (versioned_key raw next) x (store.next_fits, hr, tt) (λ p. cc p) h in
      omega arith

  next_not_active : contains (actives e laws next s store).0 next ≡ false
  next_not_active = elim (Bool-cases (contains (actives e laws next s store).0 next)) [
    | inr miss ↦ miss
    | inl hit ↦
        let (x, at) = (actives e laws next s store).1.listed next store.next_fits hit in
        let small =
          store.below_next (active_transaction_key next) x (active-IsKey next store.next_fits)
            (λ p. cc p) (sym (lookup-markers e laws next s store next store.next_fits) ∙ at) in
        absurd (omega arith)
  ]

  pub begun_state-IsStore :
      IsVersion (next + 1) → IsStore e laws (next + 1) (begun_state e laws next s store)
  begun_state-IsStore fits =
      put-IsStore e laws (active_transaction_key next) (next + 1) _
        (active-IsKey next store.next_fits) (λ p. cc p) none tt (omega arith) (advance-IsStore fits)

  -- Over an engine that keeps its contract and contents that satisfy the invariant, and where
  -- the version counter is below 2^64 - 1, `Begin` succeeds: the transaction gets the stored
  -- version, which it sees itself and which has no stored versions, and its snapshot holds the
  -- versions that have an active marker and no others; the counter goes up, the transaction is
  -- marked as active, the invariant is kept, and no version of a key changes.
  pub begin-Begun :
      IsVersion (next + 1)
      → (t : Transaction) × (s' : e.State) × (begin e s ≡ (ok t, s')) × Begun t s'
  begin-Begun fits = (
    record { version = next; active_versions = (actives e laws next s store).0 },
    begun_state e laws next s store,
    begin-eq e laws next s store fits,
    record {
      fresh = refl;
      keeps = begun_state-IsStore fits;
      logged = λ raw x hr h.
          absurd (no_version_yet raw x hr (sym (versions_kept raw next hr store.next_fits) ∙ h));
      sees_itself = unfold is_visible in ground (arith, next_not_active);
      marked = find-put_self e laws _ _ _;
      actives_marked = λ v hv h.
          let (x, at) = (actives e laws next s store).1.listed v hv h in
          (x, sym (lookup-markers e laws next s store v hv) ∙ at);
      marked_actives = λ v x hv h.
          (actives e laws next s store).1.complete v x hv
            (lookup-markers e laws next s store v hv ∙ h);
      versions_stay = versions_kept;
    },
  )

  -- Over an engine that keeps its contract and contents that satisfy the invariant, and where
  -- the version counter is below 2^64 - 1, beginning a transaction changes no answer of `Get` to
  -- another one, if the version after that one's fits 64 bits.
  pub get-begin :
      (other : Transaction) (key : Bytes)
      → IsBytes key
      → IsVersion (next + 1)
      → IsVersion (other.version + 1)
      → get e other key (begin e s).1 ≡ get e other key s
  get-begin other key hk fits small =
      let (t, s', done, begun) = begin-Begun fits in
      rw done (
        get-ext e laws key (next + 1) next s' s other hk begun.keeps store small
          (λ u hu vis. begun.versions_stay key u hk hu))
