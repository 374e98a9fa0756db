-- ===== src/Tests/Disk.antt =====
-- Runs of the disk engine on a disk of a hundred bytes, with a sorted list for the index.
use space_db.Base.{
  ◌≡◌, refl, if◌then◌else◌, List, [], ◌∷◌, ◌++◌, none, some, true, false, ok, err, take, ◌≢◌, arith,
}
use space_db.Bytes.{Bytes, Slice, IsBytes}
use space_db.Bytes.BigEndian.{be}
use space_db.Storage.Errors.{Error, joined, write_failed, short_read}
use space_db.Storage.Entries.{Items, lookup}
use space_db.Storage.Entries.Sorted.{IsAscending, IsDescending}
use space_db.Storage.Entries.Contents.{Each}
use space_db.Storage.Engine.{in_range, has_prefix}
use space_db.Storage.Disk.Writes.{RepresentsAfter, get-Represents}
use space_db.Storage.Disk.Scans.{listed}
use space_db.Storage.Disk.RoundTrip.{length-entry_bytes}
use space_db.Storage.BTree.{BTree, IsBTree, sorted_list, sorted_list-IsBTree, Sorted}
use space_db.Storage.Disk.{
  DiskEngine, get, set, delete, scan, scan_reverse, scan_prefix, read_items, snapshot_range,
}
use space_db.Storage.Disk.FileSystem.{Files, IsFiles, bounded_disk, bounded_disk-IsFiles}
use space_db.Storage.Disk.Log.{Position}
use space_db.Storage.Disk.Contents.{Contents, put_key, drop_key}
use space_db.Storage.Disk.Opening.{Outcome, compact, new_disk_engine, succeeded, log_lost}
use space_db.Storage.Disk.Replay.{LogRecord, log_bytes, record_bytes, new_tree-Indexes}
use space_db.Storage.Disk.Durability.{
  Operation, set_key, delete_key, run_all, IsConsistent, run_all-IsConsistent, reopen-run_all,
  apply_all,
}
use space_db.Storage.Disk.Refinement.{calls-Represents, scans-Represent}
use space_db.Storage.Disk.Termination.{new_disk_engine-ends}
use space_db.Storage.Disk.Torn.{torn_record_refused}
use space_db.Storage.Disk.Compaction.{live_records}
use space_db.Storage.Disk.Exchange.{compact-Keeps, Keeps}
use space_db.Storage.Disk.Snapshot.{read_items-stable, run_each}
use space_db.Storage.Disk.Bounds.{snapshot_range-Placed, Placed, present}
use space_db.Storage.Disk.Closed.{closed, closed-Refuses, Refuses}

abbrev tree : BTree Position
tree = sorted_list Position

abbrev disk : Files
disk = bounded_disk 100

abbrev trees : IsBTree tree
trees = sorted_list-IsBTree Position

abbrev files : IsFiles disk
files = bounded_disk-IsFiles 100

abbrev empty_engine : DiskEngine tree
empty_engine = record { keydir = some ([], tt); file = [] }

abbrev nothing : Contents
nothing k = none

abbrev empty_consistent : IsConsistent tree disk empty_engine nothing
empty_consistent = record {
  records = [];
  all_fit = tt;
  file_bytes = refl;
  replayed = refl;
  represents = record {
    tree = ([], tt);
    is_open = refl;
    indexed = new_tree-Indexes tree disk files trees [];
  };
}

-- Two keys, one written twice, one deleted.
abbrev calls : List Operation
calls =
    set_key (1 ∷ []) (some (7 ∷ 8 ∷ []))
    ∷ set_key (2 ∷ []) none
    ∷ set_key (1 ∷ []) (some (9 ∷ []))
    ∷ delete_key (2 ∷ [])
    ∷ []

abbrev filled : DiskEngine tree
filled = (run_all tree disk calls empty_engine).1

calls_succeed : (run_all tree disk calls empty_engine).0 ≡ ok tt
unfolding set space_db.Storage.Disk.log_then space_db.Storage.Disk.ensure_open
    space_db.Storage.Disk.Log.write_entry space_db.Storage.Disk.Log.entry_bytes delete
calls_succeed = refl

abbrev left : Contents
left = apply_all calls nothing

filled_consistent : IsConsistent tree disk filled left
filled_consistent =
    run_all-IsConsistent tree disk files trees calls empty_engine nothing empty_consistent
      calls_succeed

calls-Represents_example :
    (get tree disk (1 ∷ []) filled ≡ ok (left (1 ∷ [])))
    × RepresentsAfter disk files tree
        (set tree disk (1 ∷ []) (some (5 ∷ [])) filled)
        (put_key (1 ∷ []) (5 ∷ []) left)
        left
    × RepresentsAfter disk files tree
        (delete tree disk (1 ∷ []) filled)
        (drop_key (1 ∷ []) left)
        left
calls-Represents_example =
    calls-Represents tree disk files trees filled left (filled_consistent.represents) (1 ∷ [])
      (some (5 ∷ []))

-- The value that is there is the one written last.
filled_value : get tree disk (1 ∷ []) filled ≡ ok (some (9 ∷ []))
unfolding space_db.Bytes.compare_bytes
filled_value = get-Represents disk files tree filled left (1 ∷ []) (filled_consistent.represents)

reopen-run_all_example :
    (d : DiskEngine tree) × (new_disk_engine tree disk (ok true) (ok filled.file) ≡ some (ok d))
    × ((k : Bytes) → (get tree disk k d ≡ ok (left k)) × (get tree disk k filled ≡ ok (left k)))
reopen-run_all_example =
    reopen-run_all tree disk files trees calls empty_engine nothing empty_consistent calls_succeed

abbrev first_record : LogRecord
first_record = record { key = 1 ∷ []; value = some (7 ∷ 8 ∷ []); deleted = false }

abbrev second_record : LogRecord
second_record = record { key = 2 ∷ []; value = some (5 ∷ []); deleted = false }

torn_record_refused_example :
    (e : Error) × (new_disk_engine tree disk
        (ok true)
        (ok (log_bytes (first_record ∷ []) ++ take 3 (record_bytes second_record)))
      ≡ some (err e))
torn_record_refused_example =
    torn_record_refused tree disk files trees (first_record ∷ []) second_record 3
      ((omega arith, omega arith), tt) (omega arith, omega arith) (omega arith)
      (omega (arith, length-entry_bytes (2 ∷ []) (some (5 ∷ [])) false))

new_disk_engine-ends_example : new_disk_engine tree disk (ok true) (ok (1 ∷ 2 ∷ 3 ∷ [])) ≢ none
new_disk_engine-ends_example = new_disk_engine-ends tree disk (ok true) (ok (1 ∷ 2 ∷ 3 ∷ []))

-- A compaction that succeeds, and one that cannot put the old log back.
abbrev all_succeed : Outcome
all_succeed = record {
  created = ok tt;
  synced = ok tt;
  temp_closed = ok tt;
  original_closed = ok tt;
  backed_up = ok tt;
  original_reopened = ok tt;
  installed = ok tt;
  reopened = ok tt;
  backup_removed = ok tt;
  path_cleared = ok tt;
  put_back = ok tt;
  backup_reopened = ok tt;
  closing = ok tt;
}

abbrev stuck : Outcome
stuck = record all_succeed { installed = err write_failed; put_back = err short_read }

compacts :
    compact tree disk all_succeed filled
    ≡ succeeded (record {
      keydir = some ((1 ∷ [], record { entry_offset = 0; entry_size = 10 }) ∷ [], (tt, tt));
      file = log_bytes (record { key = 1 ∷ []; value = some (9 ∷ []); deleted = false } ∷ []);
    })
unfolding compact space_db.Storage.Disk.Opening.exchange_logs
    space_db.Storage.Disk.Opening.compacted space_db.Storage.Disk.Opening.rewrite_items
    space_db.Storage.Disk.Opening.keep_original space_db.Storage.Disk.Opening.open_replacement
    space_db.Storage.Disk.Opening.replace_log space_db.Storage.Disk.Opening.restore_original
    space_db.Storage.Disk.ensure_open set space_db.Storage.Disk.log_then delete
    space_db.Storage.Disk.Log.write_entry space_db.Storage.Disk.Log.entry_bytes
    space_db.Storage.Disk.Log.read_log_value space_db.Storage.Disk.Log.read_entry
    space_db.Storage.Disk.Log.int32_of space_db.Storage.Disk.Log.read_checked
    space_db.Storage.Disk.Log.read_value space_db.Storage.BTree.drop_sorted
    space_db.Storage.BTree.put_sorted space_db.Storage.Entries.Sorted.sort
    space_db.Storage.Entries.remove space_db.Storage.Entries.insert space_db.Bytes.compare_bytes be
    space_db.Bytes.BigEndian.of_be
compacts = refl

loses :
    compact tree disk stuck filled
    ≡ log_lost (joined write_failed short_read) none (some filled.file)
unfolding compact space_db.Storage.Disk.Opening.exchange_logs
    space_db.Storage.Disk.Opening.compacted space_db.Storage.Disk.Opening.rewrite_items
    space_db.Storage.Disk.Opening.keep_original space_db.Storage.Disk.Opening.open_replacement
    space_db.Storage.Disk.Opening.replace_log space_db.Storage.Disk.Opening.restore_original
    space_db.Storage.Disk.ensure_open set space_db.Storage.Disk.log_then delete
    space_db.Storage.Disk.Log.write_entry space_db.Storage.Disk.Log.entry_bytes
    space_db.Storage.Disk.Log.read_log_value space_db.Storage.Disk.Log.read_entry
    space_db.Storage.Disk.Log.int32_of space_db.Storage.Disk.Log.read_checked
    space_db.Storage.Disk.Log.read_value space_db.Storage.BTree.drop_sorted
    space_db.Storage.BTree.put_sorted space_db.Storage.Entries.Sorted.sort
    space_db.Storage.Entries.remove space_db.Storage.Entries.insert space_db.Bytes.compare_bytes be
    space_db.Bytes.BigEndian.of_be
loses = refl

compact-Keeps_example :
    Keeps tree disk files trees filled left
      (live_records left (filled_consistent.represents.tree.0))
      (compact tree disk all_succeed filled)
compact-Keeps_example =
    compact-Keeps tree disk files trees all_succeed filled left filled_consistent

abbrev copied_item : Items Position
copied_item = (1 ∷ [], record { entry_offset = 20; entry_size = 10 }) ∷ []

copies : snapshot_range tree none (some (2 ∷ [])) false filled ≡ ok copied_item
unfolding snapshot_range space_db.Storage.Disk.ensure_open set space_db.Storage.Disk.log_then
    space_db.Storage.Disk.Log.write_entry space_db.Storage.Disk.Log.entry_bytes delete
    space_db.Storage.Disk.empty_range space_db.Storage.Disk.walk_up
    space_db.Storage.Entries.Filtered.keep_if space_db.Storage.BTree.drop_sorted
    space_db.Storage.Entries.Sorted.sort space_db.Storage.Entries.remove
    space_db.Storage.BTree.put_sorted space_db.Storage.Entries.insert space_db.Bytes.compare_bytes
copies = refl

-- The second value does not fit the disk, and the calls go on behind the error.
abbrev later_calls : List Operation
later_calls =
    set_key (3 ∷ []) (some (be 60 0)) ∷ set_key (1 ∷ []) (some (be 60 0)) ∷ delete_key (1 ∷ []) ∷ []

read_items-stable_example :
    read_items tree disk copied_item (run_each tree disk files trees later_calls filled)
    ≡ read_items tree disk copied_item filled
read_items-stable_example =
    read_items-stable tree disk files trees none (some (2 ∷ [])) false copied_item later_calls
      filled left (filled_consistent.represents) copies

scans-Represent_example :
    (((scan tree disk none (some (2 ∷ [])) filled).1 ≡ none)
      × IsAscending (scan tree disk none (some (2 ∷ [])) filled).0
      × ((j : Bytes)
          → lookup j (scan tree disk none (some (2 ∷ [])) filled).0
            ≡ (if in_range none (some (2 ∷ [])) j then listed (left j) else none)))
    × (((scan_reverse tree disk none (some (2 ∷ [])) filled).1 ≡ none)
        × IsDescending (scan_reverse tree disk none (some (2 ∷ [])) filled).0
        × ((j : Bytes)
            → lookup j (scan_reverse tree disk none (some (2 ∷ [])) filled).0
              ≡ (if in_range none (some (2 ∷ [])) j then listed (left j) else none)))
    × (((scan_prefix tree disk (1 ∷ []) filled).1 ≡ none)
        × IsAscending (scan_prefix tree disk (1 ∷ []) filled).0
        × ((j : Bytes)
            → IsBytes j
            → lookup j (scan_prefix tree disk (1 ∷ []) filled).0
              ≡ (if has_prefix (1 ∷ []) j then listed (left j) else none)))
scans-Represent_example =
    scans-Represent tree disk files trees filled left (filled_consistent.represents) none
      (some (2 ∷ [])) (1 ∷ []) (omega arith, tt)

abbrev shut_down : DiskEngine tree
shut_down = closed tree disk files trees (err write_failed) (ok tt) filled left filled_consistent

closed-Refuses_example :
    Refuses tree disk shut_down
    × (run_each tree disk files trees later_calls shut_down ≡ shut_down)
    × ((d' : DiskEngine tree) × (new_disk_engine tree disk
            (ok true)
            (ok (run_each tree disk files trees later_calls shut_down).file)
          ≡ some (ok d'))
        × ((k : Bytes) → get tree disk k d' ≡ ok (left k)))
closed-Refuses_example =
    closed-Refuses tree disk files trees (err write_failed) (ok tt) filled left filled_consistent
      later_calls

snapshot_range-Placed_example :
    Each (Placed filled.file left) copied_item
    × ((j : Bytes)
        → present (lookup j copied_item)
          ≡ (if in_range none (some (2 ∷ [])) j then present (left j) else false))
snapshot_range-Placed_example =
    snapshot_range-Placed tree disk files trees filled left none (some (2 ∷ [])) false copied_item
      (filled_consistent.represents) copies
