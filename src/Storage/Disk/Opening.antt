-- ===== src/Storage/Disk/Opening.antt =====
-- storage/disk.go: opening an engine, which replays its log into an index, and rewriting its log.
use space_db.Base.{
  ℕ, zero, suc, ◌+◌, ◌-◌, [], ◌∷◌, Option, none, some, Bool, true, false, length, leb, ◌&&◌, Result,
  ok, err, guard, ◌>>=◌, ◌>>◌,
}
use space_db.Bytes.{Bytes}
use space_db.Types.Int64.{ℤ, pos, negsuc}
use space_db.Storage.Errors.{
  Error, invalid_value_size, invalid_entry_size, already_locked, joined, join_with, join_results,
}
use space_db.Storage.Entries.{Items}
use space_db.Storage.BTree.{BTree}
use space_db.Storage.Disk.{DiskEngine, ensure_open}
use space_db.Storage.Disk.FileSystem.{Files}
use space_db.Storage.Disk.Log.{Position, write_entry, read_entry, read_log_value}

-- `storedValueSize`: `negsuc 0` is -1, the size of a deletion.
unfoldable pub stored_value_size : ℤ → Result Error ℕ
stored_value_size (pos n) = ok n
stored_value_size (negsuc zero) = ok 0
stored_value_size (negsuc (suc n)) = err invalid_value_size

module _ (b : BTree Position) where
  unfoldable pub index_record : ℕ → ℕ → Bytes → ℤ → b.Tree → b.Tree
  index_record offset size key (negsuc n) t = b.delete_item key t
  index_record offset size key (pos n) t =
      b.replace_or_insert key (record { entry_offset = offset; entry_size = size }) t

module _ (b : BTree Position) (f : Files) (file : Bytes) where
  -- The body of the loop: the next offset, and the index behind the record.
  unfoldable pub rebuild_step : ℕ → b.Tree → Result Error (ℕ × b.Tree)
  rebuild_step offset t = do
    (key, value_size) ← read_entry f file offset
    stored ← stored_value_size value_size
    guard
        (leb (8 + length key + stored) 4294967295
          && leb (8 + length key + stored) (length file - offset))
        invalid_entry_size
    ok (
      offset + (8 + length key + stored),
      index_record b offset (8 + length key + stored) key value_size t,
    )

  -- The loop, from an offset: none when the fuel ends before it.
  unfoldable pub rebuild_loop : ℕ → ℕ → b.Tree → Option (Result Error b.Tree)
  rebuild_loop zero offset t = none
  rebuild_loop (suc fuel) offset t = elim (leb (length file) offset) [
    | true ↦ some (ok t)
    | false ↦ elim (rebuild_step offset t) [
      | err e ↦ some (err e)
      | ok next ↦ rebuild_loop fuel next.0 next.1
    ]
  ]

  -- The loop from the start, with as many rounds as the file has bytes, and one for the last test. An
  -- error of Stat before it is the second argument of new_disk_engine.
  unfoldable pub rebuild_keydir : b.Tree → Option (Result Error b.Tree)
  rebuild_keydir t = rebuild_loop (suc (length file)) 0 t

module _ (b : BTree Position) (f : Files) where
  unfoldable pub opened : Bytes → Result Error b.Tree → Result Error (DiskEngine b)
  opened file (err e) = err e
  opened file (ok t) = ok (record { keydir = some t; file = file })

  -- What the file lock returns is given, and what `newDisLog` and then `Stat` in rebuildKeydir return:
  -- whether the lock is held, and what the log's file holds. An error of either of the two ends the
  -- opening.
  unfoldable pub new_disk_engine :
      Result Error Bool → Result Error Bytes → Option (Result Error (DiskEngine b))
  new_disk_engine (err e) log = some (err e)
  new_disk_engine (ok false) log = some (err already_locked)
  new_disk_engine (ok true) (err e) = some (err e)
  new_disk_engine (ok true) (ok file) = elim (rebuild_keydir b f file b.new_tree) [
    | none ↦ none
    | some r ↦ some (opened file r)
  ]

  -- The traversal of `compact`: the values of the index written to a new log, with its index.
  unfoldable pub rewrite_items :
      Bytes → Items Position → b.Tree → Bytes → Result Error (b.Tree × Bytes)
  rewrite_items file [] t temp = ok (t, temp)
  rewrite_items file ((key, position) ∷ items) t temp = do
    value ← read_log_value f file position
    let written = write_entry f key (some value) false temp
    position' ← written.0
    rewrite_items file items (b.replace_or_insert key position' t) written.1

-- What the calls of `compact` return beside those on the records of the logs; of `os.Remove` in
-- restoreOriginal, where ErrNotExist counts as no error. `closing` is what Close returns to
-- NewDiskEngineCompact.
pub record Outcome : Type 0 where
  -- the temporary log
  pub created : Result Error (Unit {0})
  pub synced : Result Error (Unit {0})
  pub temp_closed : Result Error (Unit {0})
  -- the old log, moved to the backup
  pub original_closed : Result Error (Unit {0})
  pub backed_up : Result Error (Unit {0})
  pub original_reopened : Result Error (Unit {0})
  -- the new log
  pub installed : Result Error (Unit {0})
  pub reopened : Result Error (Unit {0})
  pub backup_removed : Result Error (Unit {0})
  -- restoreOriginal
  pub path_cleared : Result Error (Unit {0})
  pub put_back : Result Error (Unit {0})
  pub backup_reopened : Result Error (Unit {0})
  pub closing : Result Error (Unit {0})

-- How `compact` ends: without an error; with one, and an engine whose log is open; or with one, and an
-- engine whose log is closed, given what the files at the log's path and at the backup's path hold.
pub data Compaction (b : BTree Position) : Type 0 where
  succeeded : DiskEngine b → Compaction b
  failed : Error → DiskEngine b → Compaction b
  log_lost : Error → Option Bytes → Option Bytes → Compaction b

module _ (b : BTree Position) (f : Files) (outcome : Outcome) where
  -- Up to the closing of the temporary log.
  unfoldable pub compacted : DiskEngine b → Result Error (b.Tree × Bytes)
  compacted d = do
    t ← ensure_open b d
    outcome.created
    written ← rewrite_items b f d.file (b.ascend t) b.new_tree []
    outcome.synced
    outcome.temp_closed
    ok written

  abbrev pub left_at_path : Option Bytes → Option Bytes
  left_at_path at_path = elim outcome.path_cleared [ ok u ↦ none | err e ↦ at_path ]

  -- `restoreOriginal` behind an error, given what the file at the log's path holds.
  unfoldable pub restore_original : Error → Option Bytes → DiskEngine b → Compaction b
  restore_original e at_path d = elim outcome.put_back [
    | err stuck ↦
        log_lost (join_with e (join_results outcome.path_cleared (err stuck)))
          (left_at_path at_path) (some d.file)
    | ok u ↦ elim outcome.backup_reopened [
      | err lost ↦
          log_lost (join_with e (join_results outcome.path_cleared (err lost))) (some d.file) none
      | ok u' ↦ failed (join_with e outcome.path_cleared) d
    ]
  ]

  -- The new log is opened at the log's path, and the backup removed.
  unfoldable pub open_replacement : DiskEngine b → b.Tree × Bytes → Compaction b
  open_replacement d written = elim outcome.reopened [
    | err e ↦ restore_original e (some written.1) d
    | ok u ↦
        let d' : DiskEngine b = record { keydir = some written.0; file = written.1 } in
        elim outcome.backup_removed [ err e ↦ failed e d' | ok u' ↦ succeeded d' ]
  ]

  -- `os.Rename` of the old log failed: it is opened again.
  unfoldable pub keep_original : Error → DiskEngine b → Compaction b
  keep_original e d = elim outcome.original_reopened [
    | err lost ↦ log_lost (joined e lost) (some d.file) none
    | ok u ↦ failed e d
  ]

  unfoldable pub replace_log : DiskEngine b → b.Tree × Bytes → Compaction b
  replace_log d written = elim outcome.original_closed [
    | err e ↦ log_lost e (some d.file) none
    | ok u ↦ elim outcome.backed_up [
      | err e ↦ keep_original e d
      | ok u' ↦ elim outcome.installed [
        | err e ↦ restore_original e none d
        | ok u'' ↦ open_replacement d written
      ]
    ]
  ]

  unfoldable pub exchange_logs : DiskEngine b → Result Error (b.Tree × Bytes) → Compaction b
  exchange_logs d (err e) = failed e d
  exchange_logs d (ok written) = replace_log d written

  unfoldable pub compact : DiskEngine b → Compaction b
  compact d = exchange_logs d (compacted d)

  -- An engine that cannot be compacted is closed and not given out.
  unfoldable pub given_out : Compaction b → Result Error (DiskEngine b)
  given_out (succeeded d) = ok d
  given_out (failed e d) = err (join_with e outcome.closing)
  given_out (log_lost e at_path at_backup) = err (join_with e outcome.closing)

  -- `NewDiskEngineCompact`
  unfoldable pub new_disk_engine_compact :
      Result Error Bool → Result Error Bytes → Option (Result Error (DiskEngine b))
  new_disk_engine_compact locked log = elim (new_disk_engine b f locked log) [
    | none ↦ none
    | some made ↦ some (made >>= λ d. given_out (compact d))
  ]
