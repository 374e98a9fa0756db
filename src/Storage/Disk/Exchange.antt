-- ===== src/Storage/Disk/Exchange.antt =====
-- What `compact` of storage/disk.go keeps, however the exchange of the log files ends.
use space_db.Base.{◌≡◌, ◌⊎◌, refl, ap, List, Option, none, some, ok, err, Result-cases, inl, inr}
use mathlib.Core.Path.{subst}
use space_db.Bytes.{Bytes}
use space_db.Storage.Errors.{Error}
use space_db.Storage.BTree.{BTree, IsBTree}
use space_db.Storage.Disk.{DiskEngine}
use space_db.Storage.Disk.FileSystem.{Files, IsFiles}
use space_db.Storage.Disk.Log.{Position}
use space_db.Storage.Disk.Contents.{Contents, Indexes}
use space_db.Storage.Disk.Opening.{
  compacted, compact, exchange_logs, replace_log, restore_original, keep_original, open_replacement,
  Outcome, Compaction, succeeded, failed, log_lost,
}
use space_db.Storage.Disk.Replay.{LogRecord, log_bytes}
use space_db.Storage.Disk.Durability.{IsConsistent}
use space_db.Storage.Disk.Compaction.{live_records, live_contents, compacted-Rewritten}

module _ (b : BTree Position) (f : Files) (files : IsFiles f) (trees : IsBTree b) where
  -- What the end of a compaction of `d` leaves.
  abbrev pub Keeps : DiskEngine b → Contents → List LogRecord → Compaction b → Type 0
  Keeps d m records (succeeded d') = IsConsistent b f d' m × (d'.file ≡ log_bytes records)
  Keeps d m records (failed e d') = IsConsistent b f d' m
  Keeps d m records (log_lost e at_path at_backup) =
      (at_path ≡ some d.file) ⊎ (at_backup ≡ some d.file)

  module _ (outcome : Outcome) (d : DiskEngine b) (m : Contents) (rs : List LogRecord)
      (h : IsConsistent b f d m) where
    restore_original-Keeps :
        (e : Error) (at_path : Option Bytes)
        → Keeps d m rs (restore_original b f outcome e at_path d)
    unfolding restore_original
    restore_original-Keeps e at_path = elim (Result-cases outcome.put_back) [
      | inr stuck ↦ rw stuck.1 (inr refl)
      | inl back ↦ elim (Result-cases outcome.backup_reopened) [
        | inr lost ↦ rw (back.1, lost.1) (inl refl)
        | inl again ↦ rw (back.1, again.1) h
      ]
    ]

    keep_original-Keeps : (e : Error) → Keeps d m rs (keep_original b f outcome e d)
    unfolding keep_original
    keep_original-Keeps e = elim (Result-cases outcome.original_reopened) [
      | inr lost ↦ rw lost.1 (inl refl)
      | inl again ↦ rw again.1 h
    ]

    module _ (w : b.Tree × Bytes) (bytes : w.1 ≡ log_bytes rs)
        (new : IsConsistent b f (record { keydir = some w.0; file = w.1 }) m) where
      open_replacement-Keeps : Keeps d m rs (open_replacement b f outcome d w)
      unfolding open_replacement restore_original
      open_replacement-Keeps = elim (Result-cases outcome.reopened) [
        | inr lost ↦ rw lost.1 (restore_original-Keeps lost.0 (some w.1))
        | inl again ↦ elim (Result-cases outcome.backup_removed) [
          | inr left ↦ rw (again.1, left.1) new
          | inl removed ↦ rw (again.1, removed.1) (new, bytes)
        ]
      ]

      replace_log-Keeps : Keeps d m rs (replace_log b f outcome d w)
      unfolding replace_log open_replacement restore_original keep_original
      replace_log-Keeps = elim (Result-cases outcome.original_closed) [
        | inr stuck ↦ rw stuck.1 (inl refl)
        | inl closed ↦ elim (Result-cases outcome.backed_up) [
          | inr stayed ↦ rw (closed.1, stayed.1) (keep_original-Keeps stayed.0)
          | inl moved ↦ elim (Result-cases outcome.installed) [
            | inr refused ↦
                rw (closed.1, moved.1, refused.1) (restore_original-Keeps refused.0 none)
            | inl there ↦ rw (closed.1, moved.1, there.1) open_replacement-Keeps
          ]
        ]
      ]

  compact-goes_on :
      (outcome : Outcome) (d : DiskEngine b) (w : b.Tree × Bytes)
      → compacted b f outcome d ≡ ok w
      → compact b f outcome d ≡ replace_log b f outcome d w
  unfolding compact exchange_logs
  compact-goes_on outcome d w h = ap (exchange_logs b f outcome d) h

  compact-stops :
      (outcome : Outcome) (d : DiskEngine b) (e : Error)
      → compacted b f outcome d ≡ err e
      → compact b f outcome d ≡ failed e d
  unfolding compact exchange_logs
  compact-stops outcome d e h = ap (exchange_logs b f outcome d) h

  -- Compact an open engine whose file is made of whole records and which represents their replay,
  -- whatever the calls on the files return. Where this ends without an error, the engine is such a one
  -- with the same contents, and its file holds one record, with the value, for each key of the index
  -- in their order, and nothing else. Where it ends with an error and an open log, the engine is such
  -- a one with the same contents. Where it ends with a closed log, the old log, with every byte, is
  -- what stands at its own path or at the backup's.
  pub compact-Keeps :
      (outcome : Outcome) (d : DiskEngine b) (m : Contents)
      → (h : IsConsistent b f d m)
      → Keeps d m (live_records m (b.ascend h.represents.tree)) (compact b f outcome d)
  compact-Keeps outcome d m h = elim (Result-cases (compacted b f outcome d)) [
    | inr refused ↦ rw (compact-stops outcome d refused.0 refused.1) h
    | inl went ↦
        let rewritten =
          compacted-Rewritten b f files trees d m h.represents outcome went.0 went.1 in
        rw (compact-goes_on outcome d went.0 went.1) (
          replace_log-Keeps outcome d m (live_records m (b.ascend h.represents.tree)) h went.0
            rewritten.bytes
            (record {
              records = live_records m (b.ascend h.represents.tree);
              all_fit = rewritten.all_fit;
              file_bytes = rewritten.bytes;
              replayed = live_contents b f files trees d m h.represents;
              represents = record {
                tree = went.0.0;
                is_open = refl;
                indexed =
                    subst (Indexes b went.0.1 went.0.0)
                      (live_contents b f files trees d m h.represents) rewritten.indexed;
              };
            }))
  ]
