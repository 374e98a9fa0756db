-- ===== src/Storage/Mvcc.antt =====
-- storage/storage.go: transactions over any engine. The mutex that every method holds makes a
-- method one step of the shared engine state.
pub mod Store
pub mod Newest
pub mod Snapshot
pub mod Keep
pub mod Write
pub mod Isolation
pub mod WriteSet
pub mod Commit
pub mod Rollback
pub mod Begin
pub mod Begun
pub mod Tests
pub mod Conflict
use space_db.Base.{ℕ, ◌+◌, ◌-◌, ◌%◌, List, [], ◌∷◌, ◌++◌, none, some, Bool, true, false, Result}
use space_db.Base.Exec.{Exec, pure, reads, lift, ◌>>=◌, ◌>>◌}
use space_db.Bytes.{Bytes, Slice}
use space_db.Storage.Errors.{Error}
use space_db.Storage.Entries.{Entries}
use space_db.Storage.Engine.{Engine}
use space_db.Storage.Key.{
  encode, next_version_key, active_transaction_key, transaction_write_key, versioned_key,
  active_transaction_prefix, transaction_write_prefix, versioned_key_prefix, encode_version,
  u64_mod,
}
use space_db.Storage.Versions.{
  Transaction, load_next, collect_active, collect_writes, collect_written, read_newest,
  from_version, check_conflict, encode_versioned_value, merge_versions,
}

module _ (e : Engine) where
  unfoldable pub delete_all : List Bytes → Exec e.State Error (Unit {0})
  delete_all [] = pure tt
  delete_all (k ∷ ks) = do e.delete k; delete_all ks

  unfoldable pub begin : Exec e.State Error Transaction
  unfolding load_next collect_active encode_version
  begin = do
    encoded_next ← reads (e.get (encode next_version_key))
    next ← lift (load_next encoded_next)
    active ← reads (λ s.
        let (found, failure) = e.scan_prefix active_transaction_prefix s in
        collect_active found failure)
    e.set (encode next_version_key) (some (encode_version ((next + 1) % u64_mod)))
    e.set (encode (active_transaction_key next)) none
    pure (record { version = next; active_versions = active })

  unfoldable pub commit : Transaction → Exec e.State Error (Unit {0})
  unfolding collect_writes delete_all
  commit t = do
    write_keys ← reads (λ s.
        let (found, failure) = e.scan_prefix (transaction_write_prefix t.version) s in
        collect_writes found failure)
    delete_all write_keys
    e.delete (encode (active_transaction_key t.version))

  unfoldable pub rollback : Transaction → Exec e.State Error (Unit {0})
  unfolding collect_written delete_all
  rollback t = do
    all_keys ← reads (λ s.
        let (found, failure) = e.scan_prefix (transaction_write_prefix t.version) s in
        collect_written found failure)
    delete_all all_keys
    e.delete (encode (active_transaction_key t.version))

  unfoldable pub get : Transaction → Bytes → e.State → Result Error Slice
  unfolding read_newest
  get t key s =
      let from = encode (versioned_key key 0) in
      let to = encode (versioned_key key ((t.version + 1) % u64_mod)) in
      let (found, failure) = e.scan_reverse (some from) (some to) s in read_newest t found failure

  unfoldable pub scan_prefix : Transaction → Bytes → e.State → Result Error Entries
  unfolding merge_versions
  scan_prefix t raw_prefix s =
      let (found, failure) = e.scan_prefix (versioned_key_prefix raw_prefix) s in
      merge_versions t found failure
        (record { current_key = none; current_value = none; current_visible = false; entries = [] })

  unfoldable pub write : Transaction → Bytes → Slice → Bool → Exec e.State Error (Unit {0})
  unfolding from_version check_conflict encode_versioned_value
  write t raw_key value deleted = do
    let least = from_version ((t.version + 1) % u64_mod) t.active_versions
    let from = encode (versioned_key raw_key least)
    let to = encode (versioned_key raw_key (u64_mod - 1)) ++ (0 ∷ [])
    reads (λ s.
        let (found, failure) = e.scan_reverse (some from) (some to) s in
        check_conflict t found failure)
    e.set (encode (transaction_write_key t.version raw_key)) none
    e.set (encode (versioned_key raw_key t.version)) (some (encode_versioned_value value deleted))

  unfoldable pub set : Transaction → Bytes → Slice → Exec e.State Error (Unit {0})
  unfolding write
  set t key value = write t key value false

  unfoldable pub delete : Transaction → Bytes → Exec e.State Error (Unit {0})
  unfolding write
  delete t key = write t key none true
