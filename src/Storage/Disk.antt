-- ===== src/Storage/Disk.antt =====
-- storage/disk.go: the engine over an append-only log, with an index of it in memory. The state is
-- what the log's file holds and, while the engine is open, the index; the engine's lock on its
-- file is outside of it.
pub mod FileSystem
pub mod Log
pub mod RoundTrip
pub mod Contents
pub mod Writes
pub mod Ranges
pub mod Scans
pub mod Opening
pub mod Replay
pub mod Durability
pub mod Termination
pub mod Compaction
pub mod Exchange
pub mod Snapshot
pub mod Closed
pub mod Bounds
pub mod Refinement
pub mod Torn
use space_db.Base.{
  ℕ, zero, suc, ◌+◌, ◌-◌, [], ◌∷◌, Option, none, some, Bool, true, false, not, length, ltb, leb,
  if◌then◌else◌, Result, ok, err, guard, ◌>>=◌, ◌>>◌,
}
use space_db.Base.Exec.{Exec, continue}
use space_db.Bytes.{Bytes, Slice, bytes_lt, compare_bytes}
use space_db.Types.Int64.{ℤ, pos, negsuc}
use space_db.Storage.Errors.{
  Error, engine_closed, invalid_value_size, invalid_entry_size, already_locked, join_results,
}
use space_db.Storage.Entries.{Items, Entry, Entries}
use space_db.Storage.Engine.{Engine, Scan}
use space_db.Storage.Memory.{prefix_end}
use space_db.Storage.BTree.{BTree}
use space_db.Storage.Disk.FileSystem.{Files}
use space_db.Storage.Disk.Log.{Position, write_entry, read_entry, read_log_value}

-- `keydir` is none where the log and the index of the source are nil.
pub record DiskEngine (b : BTree Position) : Type 0 where
  pub keydir : Option b.Tree
  pub file : Bytes

-- `start != nil && end != nil && bytes.Compare(start, end) >= 0`
unfoldable pub empty_range : Slice → Slice → Bool
empty_range none end' = false
empty_range (some lo) none = false
empty_range (some lo) (some hi) = not (bytes_lt lo hi)

-- `appendReverseItem` on the items from the greatest down: skipped at or above `end`, and the
-- first below `start` ends the walk.
unfoldable pub at_or_above : Slice → Bytes → Bool
at_or_above none k = false
at_or_above (some hi) k = not (bytes_lt k hi)

unfoldable pub below : Slice → Bytes → Bool
below none k = false
below (some lo) k = bytes_lt k lo

unfoldable pub append_reverse : Slice → Slice → Items Position → Items Position
append_reverse start end' [] = []
append_reverse start end' ((k, position) ∷ l) =
    let rest = append_reverse start end' l in
    if at_or_above end' k then rest else if below start k then [] else (k, position) ∷ rest

unfoldable pub add_entry : Result Error Entry → Scan → Scan
add_entry (err e) rest = ([], some e)
add_entry (ok entry) rest = (entry ∷ rest.0, rest.1)

module _ (b : BTree Position) where
  unfoldable pub ensure_open : DiskEngine b → Result Error b.Tree
  ensure_open d = elim d.keydir [ none ↦ err engine_closed | some t ↦ ok t ]

  unfoldable pub walk_up : Slice → Slice → b.Tree → Items Position
  walk_up (some lo) (some hi) t = b.ascend_range lo hi t
  walk_up (some lo) none t = b.ascend_greater_or_equal lo t
  walk_up none (some hi) t = b.ascend_less_than hi t
  walk_up none none t = b.ascend t

  unfoldable pub walk_down : Slice → Slice → b.Tree → Items Position
  walk_down start none t = append_reverse start none (b.descend t)
  walk_down start (some hi) t = append_reverse start (some hi) (b.descend_less_or_equal hi t)

  unfoldable pub snapshot_range :
      Slice → Slice → Bool → DiskEngine b → Result Error (Items Position)
  snapshot_range start end' reversed d = do
    t ← ensure_open d
    ok (
        if empty_range start end'
        then []
        else if reversed
        then walk_down start end' t
        else walk_up start end' t)

module _ (b : BTree Position) (f : Files) where
  -- A write to the log, whatever it returns, and what is done to the index behind it.
  unfoldable pub log_then :
      Bytes → Slice → Bool → (Position → b.Tree → b.Tree) → Exec (DiskEngine b) Error (Unit {0})
  log_then key value deleted change d =
      continue (ensure_open b d, d)
        λ t d'.
          let written = write_entry f key value deleted d'.file in
          continue (written.0, record { keydir = some t; file = written.1 })
            λ position d''. (ok tt, record { keydir = some (change position t); file = d''.file })

  unfoldable pub set : Bytes → Slice → Exec (DiskEngine b) Error (Unit {0})
  set key value = log_then key value false (λ position t. b.replace_or_insert key position t)

  unfoldable pub get : Bytes → DiskEngine b → Result Error Slice
  get key d = do
    t ← ensure_open b d
    elim (b.find key t) [
      | none ↦ ok none
      | some position ↦ read_log_value f d.file position >>= λ value. ok (some value)
    ]

  unfoldable pub delete : Bytes → Exec (DiskEngine b) Error (Unit {0})
  delete key = log_then key none true (λ position t. b.delete_item key t)

  -- Given what closing the log and `Unlock` return; a second Close does nothing.
  unfoldable pub close :
      Result Error (Unit {0}) → Result Error (Unit {0}) → Exec (DiskEngine b) Error (Unit {0})
  close log_closed unlocked d = elim d.keydir [
    | none ↦ (ok tt, d)
    | some t ↦ (join_results log_closed unlocked, record { keydir = none; file = d.file })
  ]

  unfoldable pub read_scan_item : Bytes × Position → DiskEngine b → Result Error Entry
  read_scan_item item d = do
    _ ← ensure_open b d
    value ← read_log_value f d.file item.1
    ok (item.0, some value)

  -- The loop of `scan`, for a consumer that takes every record and leaves the engine alone.
  unfoldable pub read_items : Items Position → DiskEngine b → Scan
  read_items [] d = ([], none)
  read_items (item ∷ items) d =
      let rest = read_items items d in add_entry (read_scan_item item d) rest

  unfoldable pub scan_with : Slice → Slice → Bool → DiskEngine b → Scan
  scan_with start end' reversed d = elim (snapshot_range b start end' reversed d) [
    | err e ↦ ([], some e)
    | ok items ↦ read_items items d
  ]

  unfoldable pub scan : Slice → Slice → DiskEngine b → Scan
  scan start end' = scan_with start end' false

  unfoldable pub scan_reverse : Slice → Slice → DiskEngine b → Scan
  scan_reverse start end' = scan_with start end' true

  unfoldable pub scan_prefix : Bytes → DiskEngine b → Scan
  scan_prefix bs = scan (some bs) (prefix_end bs)

  unfoldable pub scan_prefix_reverse : Bytes → DiskEngine b → Scan
  scan_prefix_reverse bs = scan_reverse (some bs) (prefix_end bs)

  -- `var _ Engine = (*DiskEngine)(nil)`
  abbrev pub disk_engine : Engine
  disk_engine = record {
    State = DiskEngine b;
    set = set;
    get = get;
    delete = delete;
    scan = scan;
    scan_reverse = scan_reverse;
    scan_prefix = scan_prefix;
    scan_prefix_reverse = scan_prefix_reverse;
  }
