-- ===== src/Storage/Mvcc/Keep.antt =====
-- One record written or deleted keeps the invariant of the engine's contents.
use space_db.Base.{
  ℕ, ◌≡◌, ◌≢◌, ◌<◌, refl, ap, none, some, false, Bool-cases, some-injective, inl, inr, arith,
}
use mathlib.Core.Path.{subst}
use space_db.Bytes.{Bytes, Slice, bytes_eq}
use space_db.Bytes.Order.{bytes_eq_iff}
use space_db.Storage.Engine.{Engine, IsReliable}
use space_db.Storage.Key.{MvccKey, next_version, encode, next_version_key, IsKey}
use space_db.Storage.Key.RoundTrip.{encode-injective}
use space_db.Storage.Mvcc.Store.{IsStore, IsRecord}

pub bytes_ne : (a b : Bytes) → a ≢ b → bytes_eq a b ≡ false
bytes_ne a b h = ground (arith, bytes_eq_iff a b)

pub next_version_key-IsKey : IsKey next_version_key
next_version_key-IsKey = (omega arith, tt, (refl, refl))

pub encode_ne_next :
    (k : MvccKey) → IsKey k → k.kind ≢ next_version → encode k ≢ encode next_version_key
encode_ne_next k key other e = other (
    ap (λ (m : MvccKey). m.kind) (encode-injective k next_version_key key next_version_key-IsKey e))

module _ (e : Engine) (laws : IsReliable e) where
  pub find-put_self : (k : Bytes) (v : Slice) (s : e.State) → laws.find k (laws.put k v s) ≡ some v
  find-put_self k v s = rw (laws.find-put k k v s, (bytes_eq_iff k k).1 refl)

  pub find-put_ne :
      (k j : Bytes) (v : Slice) (s : e.State) → k ≢ j → laws.find j (laws.put k v s) ≡ laws.find j s
  find-put_ne k j v s h = rw (laws.find-put k j v s, bytes_ne k j h)

  pub find-drop_ne :
      (k j : Bytes) (s : e.State) → k ≢ j → laws.find j (laws.drop_key k s) ≡ laws.find j s
  find-drop_ne k j s h = rw (laws.find-drop_key k j s, bytes_ne k j h)

  pub find-drop_self : (k : Bytes) (s : e.State) → laws.find k (laws.drop_key k s) ≡ none
  find-drop_self k s = rw (laws.find-drop_key k k s, (bytes_eq_iff k k).1 refl)

  -- A record that a drop leaves was there before.
  pub find-drop_some :
      (k j : Bytes) (s : e.State) (v : Slice)
      → laws.find j (laws.drop_key k s) ≡ some v
      → (k ≢ j) × (laws.find j s ≡ some v)
  find-drop_some k j s v h = elim (Bool-cases (bytes_eq k j)) [
    | inl same ↦ cc (rw same at (laws.find-drop_key k j s), h)
    | inr other ↦
        ((λ p. cc ((bytes_eq_iff k j).1 p, other)), rw (laws.find-drop_key k j s, other) at h)
  ]

  module _ (k : MvccKey) (n : ℕ) (s : e.State) (key : IsKey k) (other : k.kind ≢ next_version) where
    pub put-IsStore :
        (v : Slice)
        → IsRecord k.kind v
        → k.at < n
        → IsStore e laws n s
        → IsStore e laws n (laws.put (encode k) v s)
    put-IsStore v rec small store = record {
      valid = laws.put-IsValid (encode k) v s store.valid;
      records = λ j w h. elim (Bool-cases (bytes_eq (encode k) j)) [
        | inl same ↦
            let found = rw (laws.find-put (encode k) j v s, same) at h in
            (k, key, (bytes_eq_iff _ _).0 same, subst (IsRecord k.kind) (some-injective found) rec)
        | inr ne ↦ store.records j w (rw (laws.find-put (encode k) j v s, ne) at h)
      ];
      next_stored =
          rw (find-put_ne (encode k) (encode next_version_key) v s (encode_ne_next k key other))
            store.next_stored;
      next_fits = store.next_fits;
      below_next = λ m w mkey mother h. elim (Bool-cases (bytes_eq (encode k) (encode m))) [
        | inl same ↦
            subst (λ (x : MvccKey). x.at < n)
              (encode-injective k m key mkey ((bytes_eq_iff _ _).0 same)) small
        | inr ne ↦
            store.below_next m w mkey mother (rw (laws.find-put (encode k) (encode m) v s, ne) at h)
      ];
    }

    pub drop-IsStore : IsStore e laws n s → IsStore e laws n (laws.drop_key (encode k) s)
    drop-IsStore store = record {
      valid = laws.drop_key-IsValid (encode k) s store.valid;
      records = λ j w h. store.records j w (find-drop_some (encode k) j s w h).1;
      next_stored =
          rw (find-drop_ne (encode k) (encode next_version_key) s (encode_ne_next k key other))
            store.next_stored;
      next_fits = store.next_fits;
      below_next = λ m w mkey mother h.
          store.below_next m w mkey mother (find-drop_some (encode k) (encode m) s w h).1;
    }
