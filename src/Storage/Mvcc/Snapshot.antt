-- ===== src/Storage/Mvcc/Snapshot.antt =====
-- What `Get` returns depends on the versions that the transaction sees, and on nothing else.
use space_db.Base.{
  ℕ, ◌+◌, ◌%◌, ◌≤◌, ◌≡◌, ap, ◌∙◌, sym, Option, none, some, true, some_of_if, Result, arith,
  if◌then◌else◌,
}
use mathlib.Core.Path.{subst}
use space_db.Bytes.{Bytes, Slice, IsBytes}
use space_db.Storage.Errors.{Error}
use space_db.Storage.Entries.{Entries, lookup}
use space_db.Storage.Entries.Contents.{Each-descending}
use space_db.Storage.Engine.{Engine, IsReliable, in_range}
use space_db.Storage.Key.{encode, versioned_key, IsVersion, u64_mod}
use space_db.Storage.Key.Ranges.{in_versions, in_range-versioned}
use space_db.Storage.Versions.{Transaction, is_visible}
use space_db.Storage.Mvcc.{get}
use space_db.Storage.Mvcc.Store.{IsStore, version_at}
use space_db.Storage.Mvcc.Newest.{Newest, found, missing, IsVersionOf, read_newest-Newest}

-- Two stores agree on what `t` sees.
abbrev pub SameSeen : Transaction → (ℕ → Option Slice) → (ℕ → Option Slice) → Type 0
SameSeen t f g = (u : ℕ) → IsVersion u → is_visible t u ≡ true → f u ≡ g u

pub Newest-ext :
    (t : Transaction) (f g : ℕ → Option Slice) (r : Result Error Slice)
    → SameSeen t f g
    → Newest t f r
    → Newest t g r
Newest-ext t f g r same (found u v hu vis at top e) =
    found u v hu vis (sym (same u hu vis) ∙ at)
      (λ w x hw seen h. top w x hw seen (same w hw seen ∙ h)) e
Newest-ext t f g r same (missing empty e) =
    missing (λ w hw seen. sym (same w hw seen) ∙ empty w hw seen) e

pub Newest-unique :
    (t : Transaction) (f : ℕ → Option Slice) (r r' : Result Error Slice)
    → Newest t f r
    → Newest t f r'
    → r ≡ r'
Newest-unique t f r r' (found u v hu vis at top e) (found w x hw seen bt under d) =
    let same : u ≡ w = omega (arith, top w x hw seen bt, under u v hu vis at) in
    cc (same, at, bt, e, d)
Newest-unique t f r r' (found u v hu vis at top e) (missing empty d) = cc (at, empty u hu vis)
Newest-unique t f r r' (missing empty e) (found w x hw seen bt under d) = cc (bt, empty w hw seen)
Newest-unique t f r r' (missing empty e) (missing empty' d) = e ∙ sym d

pub visible_le : (t : Transaction) (u : ℕ) → is_visible t u ≡ true → u ≤ t.version
unfolding is_visible
visible_le t u h = ground arith

module _ (e : Engine) (laws : IsReliable e) (raw : Bytes) (next : ℕ) (s : e.State)
    (bytes : IsBytes raw) (store : IsStore e laws next s) where
  abbrev versions_below : ℕ → Entries
  versions_below hi =
      (e.scan_reverse (some (encode (versioned_key raw 0))) (some (encode (versioned_key raw hi)))
        s).0

  lookup-versions :
      (hi : ℕ) (j : Bytes)
      → lookup j (versions_below hi) ≡ (
          if in_range (some (encode (versioned_key raw 0))) (some (encode (versioned_key raw hi))) j
          then laws.find j s
          else none)
  lookup-versions hi j = laws.lookup-reverse _ _ j s store.valid

  Each_version :
      (hi : ℕ)
      → IsVersion hi
      → (j : Bytes) (v : Slice) → lookup j (versions_below hi) ≡ some v
      → IsVersionOf raw j v
  Each_version hi small j v h =
      let (inside, at) = some_of_if _ _ (sym (lookup-versions hi j) ∙ h) in
      let (k, key, same, _) = store.records j v at in
      let (shape, _, _) = in_versions k raw 0 key (omega arith) hi small (
        subst
          (λ b.
            in_range (some (encode (versioned_key raw 0))) (some (encode (versioned_key raw hi))) b
            ≡ true)
          (sym same) inside) in
      (k.at, key.0, sym same ∙ ap encode shape)

  seen_in_list :
      (t : Transaction)
      → IsVersion (t.version + 1)
      → SameSeen t
          (λ u. lookup (encode (versioned_key raw u)) (versions_below (t.version + 1)))
          (λ u. version_at e laws raw u s)
  seen_in_list t fits u hu vis =
      let below = visible_le t u vis in
      let inside = in_range-versioned raw u 0 hu (omega arith) (t.version + 1) fits in
      lookup-versions (t.version + 1) (encode (versioned_key raw u)) ∙ ground (arith, inside)

  -- Over an engine that keeps its contract and contents that satisfy the invariant, and where
  -- the version after the transaction's fits 64 bits, `Get` of a byte string returns the value
  -- of the newest version of the key that the transaction sees, or nil if that version is a
  -- deletion or if there is none.
  pub get-Newest :
      (t : Transaction)
      → IsVersion (t.version + 1)
      → Newest t (λ u. version_at e laws raw u s) (get e t raw s)
  unfolding get
  get-Newest t fits =
      let wrap : (t.version + 1) % u64_mod ≡ t.version + 1 = omega arith in
      let listed =
        read_newest-Newest t raw bytes (versions_below (t.version + 1))
          (laws.reverse-IsDescending _ _ s store.valid)
          (Each-descending (IsVersionOf raw) (versions_below (t.version + 1))
            (laws.reverse-IsDescending _ _ s store.valid) (Each_version (t.version + 1) fits)) in
      rw (wrap, laws.reverse_succeeds) (Newest-ext t _ _ _ (seen_in_list t fits) listed)

module _ (e : Engine) (laws : IsReliable e) (raw : Bytes) (next next' : ℕ) (s s' : e.State)
    (t : Transaction) where
  -- Over an engine that keeps its contract and contents that satisfy the invariant, and where
  -- the version after the transaction's fits 64 bits, two states that agree on the versions of a
  -- key which the transaction sees give it the same answer to `Get`.
  pub get-ext :
      IsBytes raw
      → IsStore e laws next s
      → IsStore e laws next' s'
      → IsVersion (t.version + 1)
      → SameSeen t (λ u. version_at e laws raw u s) (λ u. version_at e laws raw u s')
      → get e t raw s ≡ get e t raw s'
  get-ext bytes store store' fits same =
      Newest-unique t (λ u. version_at e laws raw u s') _ _
        (Newest-ext t _ _ _ same (get-Newest e laws raw next s bytes store t fits))
        (get-Newest e laws raw next' s' bytes store' t fits)
