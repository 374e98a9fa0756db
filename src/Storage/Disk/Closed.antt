-- ===== src/Storage/Disk/Closed.antt =====
-- The disk engine behind Close.
use space_db.Base.{◌≡◌, refl, sym, ap, ◌∙◌, List, [], ◌∷◌, some, none, ok, err, true, Result}
use mathlib.Core.Path.{subst}
use space_db.Bytes.{Bytes, Slice}
use space_db.Storage.Errors.{Error, engine_closed}
use space_db.Storage.BTree.{BTree, IsBTree}
use space_db.Storage.Disk.{
  DiskEngine, ensure_open, log_then, set, get, delete, close, scan, scan_reverse, scan_prefix,
  scan_prefix_reverse, scan_with, snapshot_range,
}
use space_db.Storage.Disk.FileSystem.{Files, IsFiles}
use space_db.Storage.Disk.Log.{Position}
use space_db.Storage.Disk.Contents.{Contents}
use space_db.Storage.Disk.Writes.{get-Represents}
use space_db.Storage.Disk.Opening.{
  Outcome, compact, exchange_logs, compacted, failed, new_disk_engine,
}
use space_db.Storage.Disk.Durability.{
  Operation, set_key, delete_key, run, IsConsistent, reopen-IsConsistent,
}
use space_db.Storage.Disk.Snapshot.{run_each}

module _ (b : BTree Position) (f : Files) where
  -- Every call on an engine ends with the error of a closed engine, a scan without a record before
  -- it, and changes nothing, but for Close, which returns no error.
  pub record Refuses (c : DiskEngine b) : Type 0 where
    pub calls : (o : Operation) → run b f o c ≡ (err engine_closed, c)
    pub gets : (k : Bytes) → get b f k c ≡ err engine_closed
    pub scans : (lo hi : Slice) → scan b f lo hi c ≡ ([], some engine_closed)
    pub reverse_scans : (lo hi : Slice) → scan_reverse b f lo hi c ≡ ([], some engine_closed)
    pub prefix_scans : (p : Bytes) → scan_prefix b f p c ≡ ([], some engine_closed)
    pub reverse_prefix_scans : (p : Bytes) → scan_prefix_reverse b f p c ≡ ([], some engine_closed)
    pub compactions : (outcome : Outcome) → compact b f outcome c ≡ failed engine_closed c
    pub closes :
        (log_closed unlocked : Result Error (Unit {0}))
        → close b f log_closed unlocked c ≡ (ok tt, c)

  abbrev shut : Bytes → DiskEngine b
  shut file = record { keydir = none; file = file }

  run-shut : (file : Bytes) (o : Operation) → run b f o (shut file) ≡ (err engine_closed, shut file)
  unfolding set delete log_then ensure_open
  run-shut file (set_key k v) = refl
  run-shut file (delete_key k) = refl

  shut-Refuses : (file : Bytes) → Refuses (shut file)
  unfolding close get ensure_open scan scan_reverse scan_prefix scan_prefix_reverse scan_with
      snapshot_range compact exchange_logs compacted
  shut-Refuses file = record {
    calls = run-shut file;
    gets = λ k. refl;
    scans = λ lo hi. refl;
    reverse_scans = λ lo hi. refl;
    prefix_scans = λ p. refl;
    reverse_prefix_scans = λ p. refl;
    compactions = λ outcome. refl;
    closes = λ log_closed unlocked. refl;
  }

  module _ (files : IsFiles f) (trees : IsBTree b) where
    run_each-refused :
        (os : List Operation) (c : DiskEngine b) → Refuses c → run_each b f files trees os c ≡ c
    run_each-refused [] c h = refl
    run_each-refused (o ∷ os) c h =
        ap (λ call. run_each b f files trees os call.1) (h.calls o) ∙ run_each-refused os c h

    module _ (log_closed unlocked : Result Error (Unit {0})) (d : DiskEngine b) (m : Contents)
        (h : IsConsistent b f d m) where
      abbrev pub closed : DiskEngine b
      closed = (close b f log_closed unlocked d).1

      closed-shut : closed ≡ shut d.file
      unfolding close
      closed-shut = rw h.represents.is_open refl

      -- Close an open engine whose file is made of whole records and which represents their replay,
      -- whatever the closing of the file and the unlocking return. Then Set, Delete, Get, the four
      -- scans and compact end with the error of a closed engine and change nothing, Close returns no
      -- error and changes nothing, so any sequence of Sets and Deletes leaves the engine and its file
      -- as they are, and an engine that is opened on that file afterwards finds for every key what
      -- the closed one held.
      pub closed-Refuses :
          (os : List Operation)
          → Refuses closed
            × (run_each b f files trees os closed ≡ closed)
            × ((d' : DiskEngine b) × (new_disk_engine b f
                    (ok true)
                    (ok (run_each b f files trees os closed).file)
                  ≡ some (ok d'))
                × ((k : Bytes) → get b f k d' ≡ ok (m k)))
      closed-Refuses os =
          let refuses : Refuses closed = subst Refuses (sym closed-shut) (shut-Refuses d.file) in
          let still = run_each-refused os closed refuses in
          let (d', opens, again) = reopen-IsConsistent b f files trees d m h in
          (
            refuses,
            still,
            (
              d',
              ap (λ (c : DiskEngine b). new_disk_engine b f (ok true) (ok c.file))
                    (still ∙ closed-shut)
                  ∙ opens,
              λ k. get-Represents f files b d' m k again.represents,
            ),
          )
