-- ===== src/Storage/Mvcc/Store.antt =====
-- The invariant of the engine's contents that the transactions keep.
use space_db.Base.{ℕ, ◌≡◌, ◌≢◌, ◌<◌, Option, some, ok}
use space_db.Bytes.{Bytes, Slice}
use space_db.Storage.Engine.{Engine, IsReliable, or_nil}
use space_db.Storage.Key.{
  MvccKeyKind, next_version, txn_active, txn_write, version, MvccKey, encode, versioned_key,
  next_version_key, IsKey, IsVersion, encode_version,
}
use space_db.Storage.Versions.{decode_versioned_value, load_next}

-- The values that the kinds of keys have.
abbrev pub IsRecord : MvccKeyKind → Slice → Type 0
IsRecord next_version v = (n : ℕ) × IsVersion n × (v ≡ some (encode_version n))
IsRecord txn_active v = Unit
IsRecord txn_write v = Unit
IsRecord version v = (w : Slice) × (decode_versioned_value v ≡ ok w)

module _ (e : Engine) (laws : IsReliable e) where
  -- The value of version `u` of a raw key, as it is stored.
  abbrev pub version_at : Bytes → ℕ → e.State → Option Slice
  version_at raw u s = laws.find (encode (versioned_key raw u)) s

  -- Every record is one that a transaction wrote, and `next` is the version that the next
  -- transaction gets: no record belongs to it or to a later one.
  pub record IsStore (next : ℕ) (s : e.State) : Type 0 where
    pub valid : laws.IsValid s
    pub records :
        (j : Bytes) (v : Slice)
        → laws.find j s ≡ some v
        → (k : MvccKey) × IsKey k × (encode k ≡ j) × IsRecord k.kind v
    pub next_stored : load_next (or_nil (laws.find (encode next_version_key) s)) ≡ ok next
    pub next_fits : IsVersion next
    pub below_next :
        (k : MvccKey) (v : Slice)
        → IsKey k
        → k.kind ≢ next_version
        → laws.find (encode k) s ≡ some v
        → k.at < next
