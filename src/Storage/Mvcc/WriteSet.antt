-- ===== src/Storage/Mvcc/WriteSet.antt =====
-- The write set of a transaction: what `Commit` and `Rollback` find and delete.
use space_db.Base.{
  ℕ, ◌≡◌, ◌≢◌, ◌⊎◌, refl, ap, ◌∙◌, sym, List, [], ◌∷◌, none, some, Bool, true, false, Bool-cases,
  inl, inr, some_of_if, ok, arith, if◌then◌else◌, All,
}
use mathlib.Core.Path.{subst}
use space_db.Bytes.{Bytes, Slice, IsBytes, bytes_eq}
use space_db.Bytes.Order.{bytes_eq_iff}
use space_db.Storage.Entries.{Entries, lookup}
use space_db.Storage.Entries.Contents.{Each, Each-ascending}
use space_db.Storage.Engine.{Engine, IsReliable, has_prefix}
use space_db.Storage.Key.{
  MvccKey, next_version, encode, versioned_key, transaction_write_key, transaction_write_prefix,
  IsKey, IsVersion,
}
use space_db.Storage.Key.RoundTrip.{decode_mvcc_key-encode, encode-injective, encode-IsBytes}
use space_db.Storage.Key.Prefix.{
  prefix_selects_writes, write_has_prefix, transaction_write_prefix-IsBytes,
}
use space_db.Storage.Versions.{collect_writes, collect_written}
use space_db.Storage.Mvcc.{delete_all}
use space_db.Storage.Mvcc.Store.{IsStore}
use space_db.Storage.Mvcc.Keep.{drop-IsStore}

-- The keys of a scan, and the keys that `Rollback` deletes.
abbrev pub keys_of : Entries → List Bytes
keys_of [] = []
keys_of ((k, v) ∷ l) = k ∷ keys_of l

abbrev pub has_key : Bytes → List Bytes → Bool
has_key j [] = false
has_key j (k ∷ ks) = if bytes_eq k j then true else has_key j ks

-- A record of the write set of version `v`.
abbrev pub IsWriteOf : ℕ → Bytes → Slice → Type 0
IsWriteOf v k _ = (raw : Bytes) × IsBytes raw × (k ≡ encode (transaction_write_key v raw))

module _ (e : Engine) (laws : IsReliable e) where
  abbrev pub drop_all : List Bytes → e.State → e.State
  drop_all [] s = s
  drop_all (k ∷ ks) s = drop_all ks (laws.drop_key k s)

  pub delete_all-drop_all :
      (ks : List Bytes) (s : e.State) → delete_all e ks s ≡ (ok tt, drop_all ks s)
  unfolding delete_all
  delete_all-drop_all [] s = refl
  delete_all-drop_all (k ∷ ks) s =
      rw (laws.delete_drop_key k s) (delete_all-drop_all ks (laws.drop_key k s))

  pub find-drop_all :
      (ks : List Bytes) (j : Bytes) (s : e.State)
      → laws.find j (drop_all ks s) ≡ (if has_key j ks then none else laws.find j s)
  find-drop_all [] j s = refl
  find-drop_all (k ∷ ks) j s =
      ground (arith, find-drop_all ks j (laws.drop_key k s), laws.find-drop_key k j s)

pub has_key_of_lookup :
    (j : Bytes) (x : Slice) (l : Entries) → lookup j l ≡ some x → has_key j (keys_of l) ≡ true
unfolding lookup
has_key_of_lookup j x [] h = cc
has_key_of_lookup j x ((k, v) ∷ l) h = ground (arith, has_key_of_lookup j x l)

-- What holds of the keys of a list holds of each.
pub at_key :
    (P : Bytes → Type 0) (j : Bytes) (ks : List Bytes) → All P ks → has_key j ks ≡ true → P j
at_key P j [] a h = cc
at_key P j (k ∷ ks) a h = elim (Bool-cases (bytes_eq k j)) [
  | inl same ↦ subst P ((bytes_eq_iff k j).0 same) a.0
  | inr other ↦ at_key P j ks a.1 (rw other at h)
]

-- A key that a transaction may delete.
abbrev pub Droppable : Bytes → Type 0
Droppable j = (k : MvccKey) × IsKey k × (k.kind ≢ next_version) × (j ≡ encode k)

module _ (e : Engine) (laws : IsReliable e) (n : ℕ) where
  pub drop_all-IsStore :
      (ks : List Bytes) (s : e.State)
      → All Droppable ks
      → IsStore e laws n s
      → IsStore e laws n (drop_all e laws ks s)
  drop_all-IsStore [] s a store = store
  drop_all-IsStore (j ∷ ks) s ((k, key, other, same), rest) store =
      drop_all-IsStore ks (laws.drop_key j s) rest (
        subst (λ b. IsStore e laws n (laws.drop_key b s)) (sym same)
          (drop-IsStore e laws k n s key other store))

-- The key of a write record of `v`, or of the version that it stands for.
abbrev pub IsOwn : ℕ → Bytes → Type 0
IsOwn v j =
    (raw : Bytes) × IsBytes raw
    × ((j ≡ encode (transaction_write_key v raw)) ⊎ (j ≡ encode (versioned_key raw v)))

pub Droppable-of_own : (v : ℕ) (j : Bytes) → IsVersion v → IsOwn v j → Droppable j
Droppable-of_own v j hv (raw, hr, inl same) =
    (transaction_write_key v raw, (hv, hr, tt), (λ p. cc), same)
Droppable-of_own v j hv (raw, hr, inr same) = (versioned_key raw v, (hv, hr, tt), (λ p. cc), same)

pub All-imp :
    (P Q : Bytes → Type 0) → ((j : Bytes) → P j → Q j) → (ks : List Bytes) → All P ks → All Q ks
All-imp P Q f [] a = tt
All-imp P Q f (k ∷ ks) a = (f k a.0, All-imp P Q f ks a.1)

-- The write records of version `v` that a scan found.
module _ (v : ℕ) (hv : IsVersion v) where
  pub collect_writes-keys_of :
      (l : Entries) → Each (IsWriteOf v) l → collect_writes l none ≡ ok (keys_of l)
  unfolding collect_writes
  collect_writes-keys_of [] h = refl
  collect_writes-keys_of ((k, x) ∷ l) ((raw, hr, same), rest) = rw (
    same,
    decode_mvcc_key-encode (transaction_write_key v raw) (hv, hr, tt),
    collect_writes-keys_of l rest,
  )

  pub keys_are_writes :
      (l : Entries) → Each (IsWriteOf v) l → All (λ k. IsWriteOf v k none) (keys_of l)
  keys_are_writes [] h = tt
  keys_are_writes ((k, x) ∷ l) (w, rest) = (w, keys_are_writes l rest)

  at_write_injective :
      (raw raw' : Bytes)
      → IsBytes raw
      → IsBytes raw'
      → encode (transaction_write_key v raw) ≡ encode (transaction_write_key v raw')
      → raw ≡ raw'
  at_write_injective raw raw' h h' p =
      ap (λ (k : MvccKey). k.raw_key)
        (encode-injective (transaction_write_key v raw) (transaction_write_key v raw') (hv, h, tt)
          (hv, h', tt) p)

  -- The keys that `Rollback` collects: the records found and their versions, and no others.
  pub record RolledBack (l : Entries) (ks : List Bytes) : Type 0 where
    pub collected : collect_written l none ≡ ok ks
    pub own : All (IsOwn v) ks
    pub complete :
        (raw : Bytes)
        → IsBytes raw
        → has_key (encode (transaction_write_key v raw)) (keys_of l) ≡ true
        → (has_key (encode (transaction_write_key v raw)) ks ≡ true)
          × (has_key (encode (versioned_key raw v)) ks ≡ true)

  two_more : (j a b : Bytes) (ks : List Bytes) → has_key j ks ≡ true → has_key j (a ∷ b ∷ ks) ≡ true
  two_more j a b ks h = ground arith

  has_first : (a b : Bytes) (ks : List Bytes) → has_key a (a ∷ b ∷ ks) ≡ true
  has_first a b ks = ground (arith, bytes_eq_iff a a)

  has_second : (a b : Bytes) (ks : List Bytes) → has_key b (a ∷ b ∷ ks) ≡ true
  has_second a b ks = ground (arith, bytes_eq_iff b b)

  complete_cons :
      (raw raw' : Bytes) (l : Entries) (ks : List Bytes)
      → IsBytes raw
      → IsBytes raw'
      → (has_key (encode (transaction_write_key v raw')) (keys_of l) ≡ true
          → (has_key (encode (transaction_write_key v raw')) ks ≡ true)
            × (has_key (encode (versioned_key raw' v)) ks ≡ true))
      → has_key
          (encode (transaction_write_key v raw'))
          (encode (transaction_write_key v raw) ∷ keys_of l)
        ≡ true
      → (has_key
            (encode (transaction_write_key v raw'))
            (encode (transaction_write_key v raw) ∷ encode (versioned_key raw v) ∷ ks)
          ≡ true)
        × (has_key
              (encode (versioned_key raw' v))
              (encode (transaction_write_key v raw) ∷ encode (versioned_key raw v) ∷ ks)
            ≡ true)
  complete_cons raw raw' l ks hr hr' ih h =
      elim (Bool-cases
        (bytes_eq (encode (transaction_write_key v raw)) (encode (transaction_write_key v raw')))) [
          | inl same ↦
              let eq = at_write_injective raw raw' hr hr' ((bytes_eq_iff _ _).0 same) in
              rw eq (has_first _ _ ks, has_second _ _ ks)
          | inr other ↦
              let (w, u) = ih (rw other at h) in (two_more _ _ _ ks w, two_more _ _ _ ks u)
        ]

  rolled_cons :
      (k : Bytes) (x : Slice) (l : Entries) (raw : Bytes)
      → IsBytes raw
      → k ≡ encode (transaction_write_key v raw)
      → (ks : List Bytes) × RolledBack l ks
      → (ks : List Bytes) × RolledBack ((k, x) ∷ l) ks
  unfolding collect_written
  rolled_cons k x l raw hr same (ks, r) =
      subst (λ b. (ks : List Bytes) × RolledBack ((b, x) ∷ l) ks) (sym same)
        (
          encode (transaction_write_key v raw) ∷ encode (versioned_key raw v) ∷ ks,
          record {
            collected =
                rw (decode_mvcc_key-encode (transaction_write_key v raw) (hv, hr, tt), r.collected);
            own = ((raw, hr, inl refl), ((raw, hr, inr refl), r.own));
            complete = λ raw' hr' h. complete_cons raw raw' l ks hr hr' (r.complete raw' hr') h;
          },
        )

  pub collect_rolled_back :
      (l : Entries) → Each (IsWriteOf v) l → (ks : List Bytes) × RolledBack l ks
  collect_rolled_back [] h = (
    [],
    record { collected = unfold collect_written in refl; own = tt; complete = λ raw hr p. cc },
  )
  collect_rolled_back ((k, x) ∷ l) ((raw, hr, same), rest) =
      rolled_cons k x l raw hr same (collect_rolled_back l rest)

-- What a scan of the write set finds.
module _ (e : Engine) (laws : IsReliable e) (n : ℕ) (s : e.State) (store : IsStore e laws n s)
    (v : ℕ) (hv : IsVersion v) where
  abbrev pub write_set : Entries
  write_set = (e.scan_prefix (transaction_write_prefix v) s).0

  lookup-write_set :
      (j : Bytes)
      → IsBytes j
      → lookup j write_set
        ≡ (if has_prefix (transaction_write_prefix v) j then laws.find j s else none)
  lookup-write_set j hj =
      laws.lookup-prefix (transaction_write_prefix v) j s (transaction_write_prefix-IsBytes v) hj

  found_is_write : (j : Bytes) (x : Slice) → lookup j write_set ≡ some x → IsWriteOf v j x
  found_is_write j x h =
      let at = laws.prefix_finds (transaction_write_prefix v) j x s h in
      let (k, key, same, _) = store.records j x at in
      let hj : IsBytes j = subst IsBytes same (encode-IsBytes k key.1) in
      let (inside, _) = some_of_if _ _ (sym (lookup-write_set j hj) ∙ h) in
      let is_write =
        prefix_selects_writes k v key hv
          (subst (λ b. has_prefix (transaction_write_prefix v) b ≡ true) (sym same) inside) in
      (k.raw_key, key.1, sym same ∙ ap encode is_write)

  pub write_set-writes : Each (IsWriteOf v) write_set
  write_set-writes =
      Each-ascending (IsWriteOf v) write_set
        (laws.prefix-IsAscending (transaction_write_prefix v) s store.valid) found_is_write

  -- The scan finds every record of the write set.
  pub has_write :
      (raw : Bytes) (x : Slice)
      → IsBytes raw
      → laws.find (encode (transaction_write_key v raw)) s ≡ some x
      → has_key (encode (transaction_write_key v raw)) (keys_of write_set) ≡ true
  has_write raw x hr h = has_key_of_lookup _ x write_set (
      rw
        (
          lookup-write_set _ (encode-IsBytes (transaction_write_key v raw) hr),
          write_has_prefix raw v,
        )
        h)
