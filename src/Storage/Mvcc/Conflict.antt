-- ===== src/Storage/Mvcc/Conflict.antt =====
-- The conflict test of `write` looks at the newest version of the key from `fromVersion` on.
use space_db.Base.{
  ℕ, ◌+◌, ◌≤◌, ◌≡◌, refl, ap, ◌∙◌, sym, List, [], ◌∷◌, Option, none, some, true, false, some_of_if,
  Result, ok, err, arith, if◌then◌else◌, ltb,
}
use mathlib.Core.Path.{subst}
use space_db.Bytes.{Bytes, Slice, IsBytes}
use space_db.Storage.Errors.{Error, write_conflict}
use space_db.Storage.Entries.{Entries, lookup}
use space_db.Storage.Entries.Sorted.{IsDescending, Below}
use space_db.Storage.Entries.Contents.{Each, Each-descending, lookup_head}
use space_db.Storage.Engine.{Engine, IsReliable, in_range}
use space_db.Storage.Key.{encode, versioned_key, IsVersion}
use space_db.Storage.Key.RoundTrip.{decode_mvcc_key-encode}
use space_db.Storage.Key.Ranges.{in_versions_past, in_range-past, past_versions}
use space_db.Storage.Versions.{Transaction, is_visible, contains, from_version, check_conflict}
use space_db.Storage.Mvcc.Store.{IsStore, version_at}
use space_db.Storage.Mvcc.Newest.{le_of_cons}

-- The outcome `r` of the test, where `f` gives the stored versions of the key and `least` is the
-- first that is looked at.
pub data Checked (t : Transaction) (f : ℕ → Option Slice) (least : ℕ) (r : Result Error (Unit {0}))
    : Type 0 where
  untouched : ((w : ℕ) → IsVersion w → least ≤ w → f w ≡ none) → r ≡ ok tt → Checked t f least r
  newest :
      (u : ℕ) (v : Slice)
      → IsVersion u
      → least ≤ u
      → f u ≡ some v
      → ((w : ℕ) (x : Slice) → IsVersion w → least ≤ w → f w ≡ some x → w ≤ u)
      → r ≡ (if is_visible t u then ok tt else err write_conflict)
      → Checked t f least r

-- `fromVersion` is at most the version after this one and every active version.
pub from_version-le : (least : ℕ) (vs : List ℕ) → from_version least vs ≤ least
unfolding from_version
from_version-le least [] = omega arith
from_version-le least (v ∷ vs) =
    ground (arith, from_version-le (if ltb v least then v else least) vs)

pub from_version-le_active :
    (least v : ℕ) (vs : List ℕ) → contains vs v ≡ true → from_version least vs ≤ v
unfolding from_version contains
from_version-le_active least v [] h = cc
from_version-le_active least v (x ∷ vs) h = ground (
  arith,
  from_version-le (if ltb x least then x else least) vs,
  from_version-le_active (if ltb x least then x else least) v vs,
)

-- Every version that `t` does not see is among those that the test looks at.
pub hidden_is_checked :
    (t : Transaction) (u : ℕ)
    → is_visible t u ≡ false
    → from_version (t.version + 1) t.active_versions ≤ u
unfolding is_visible
hidden_is_checked t u h = ground (
  arith,
  from_version-le (t.version + 1) t.active_versions,
  from_version-le_active (t.version + 1) u t.active_versions,
)

abbrev listed : Bytes → Entries → ℕ → Option Slice
listed raw l u = lookup (encode (versioned_key raw u)) l

check_conflict-Checked :
    (t : Transaction) (raw : Bytes) (least : ℕ) (l : Entries)
    → IsBytes raw
    → IsDescending l
    → Each (λ k v. (u : ℕ) × IsVersion u × (k ≡ encode (versioned_key raw u)) × (least ≤ u)) l
    → Checked t (listed raw l) least (check_conflict t l none)
check_conflict-Checked t raw least [] bytes d h =
    unfold check_conflict lookup in untouched (λ w hw low. refl) refl
check_conflict-Checked t raw least ((k, v) ∷ l) bytes d ((u, hu, same, low), rest) =
    subst (λ b. Checked t (listed raw ((b, v) ∷ l)) least (check_conflict t ((b, v) ∷ l) none))
      (sym same)
      (newest u v hu low (lookup_head (encode (versioned_key raw u)) v l)
        (λ w x hw _ f. le_of_cons t raw bytes u w v x l hu hw (subst (λ b. Below b l) same d.0) f)
        (unfold check_conflict in
          rw (decode_mvcc_key-encode (versioned_key raw u) (hu, bytes, tt))))

Checked-ext :
    (t : Transaction) (f g : ℕ → Option Slice) (least : ℕ) (r : Result Error (Unit {0}))
    → ((w : ℕ) → IsVersion w → least ≤ w → f w ≡ g w)
    → Checked t f least r
    → Checked t g least r
Checked-ext t f g least r same (untouched none_there e) =
    untouched (λ w hw low. sym (same w hw low) ∙ none_there w hw low) e
Checked-ext t f g least r same (newest u v hu low at top e) =
    newest u v hu low (sym (same u hu low) ∙ at) (λ w x hw lw h. top w x hw lw (same w hw lw ∙ h)) e

-- The records that the loop of `write` runs over.
abbrev pub versions_from_least : (e : Engine) → Bytes → ℕ → e.State → Entries
versions_from_least e raw least s =
    (e.scan_reverse (some (encode (versioned_key raw least))) (some (past_versions raw)) s).0

module _ (e : Engine) (laws : IsReliable e) (raw : Bytes) (next : ℕ) (s : e.State)
    (bytes : IsBytes raw) (store : IsStore e laws next s) (least : ℕ)
    (small : IsVersion least) where
  lookup-versions :
      (j : Bytes)
      → lookup j (versions_from_least e raw least s) ≡ (
          if in_range (some (encode (versioned_key raw least))) (some (past_versions raw)) j
          then laws.find j s
          else none)
  lookup-versions j = laws.lookup-reverse _ _ j s store.valid

  Each_checked :
      (j : Bytes) (v : Slice)
      → lookup j (versions_from_least e raw least s) ≡ some v
      → (u : ℕ) × IsVersion u × (j ≡ encode (versioned_key raw u)) × (least ≤ u)
  Each_checked j v h =
      let (inside, at) = some_of_if _ _ (sym (lookup-versions j) ∙ h) in
      let (k, key, same, _) = store.records j v at in
      let (shape, low) = in_versions_past k raw least key small (
        subst
          (λ b.
            in_range (some (encode (versioned_key raw least))) (some (past_versions raw)) b ≡ true)
          (sym same) inside) in
      (k.at, key.0, sym same ∙ ap encode shape, low)

  listed_is_stored :
      (w : ℕ)
      → IsVersion w
      → least ≤ w
      → listed raw (versions_from_least e raw least s) w ≡ version_at e laws raw w s
  listed_is_stored w hw low =
      let inside = in_range-past raw w least hw small in
      lookup-versions (encode (versioned_key raw w)) ∙ ground (arith, inside)

  -- The test finds the newest version of the key from `least` on.
  pub conflict_test-Checked :
      (t : Transaction)
      → Checked t
          (λ u. version_at e laws raw u s)
          least
          (check_conflict t (versions_from_least e raw least s) none)
  conflict_test-Checked t = Checked-ext t _ _ least _ listed_is_stored (
      check_conflict-Checked t raw least (versions_from_least e raw least s) bytes
        (laws.reverse-IsDescending _ _ s store.valid)
        (Each-descending _ (versions_from_least e raw least s)
          (laws.reverse-IsDescending _ _ s store.valid) Each_checked))
