-- ===== src/Storage/Disk/Durability.antt =====
-- What is written without an error is there when the engine is opened again on its file.
use space_db.Base.{
  ◌≡◌, refl, sym, ap, ◌∙◌, List, [], ◌∷◌, ◌++◌, some, none, true, false, All, All-append, ok,
  append-nil, append_assoc,
}
use space_db.Base.Exec.{Exec, pure, ◌>>◌, continue-eq-ok}
use mathlib.Core.Path.{subst}
use space_db.Bytes.{Bytes, Slice}
use space_db.Storage.Errors.{Error}
use space_db.Storage.BTree.{BTree, IsBTree}
use space_db.Storage.Disk.{DiskEngine, set, delete, get}
use space_db.Storage.Disk.FileSystem.{Files, IsFiles}
use space_db.Storage.Disk.Log.{Position, slice_bytes}
use space_db.Storage.Disk.Contents.{Contents, put_key, drop_key, Represents}
use space_db.Storage.Disk.Writes.{
  set-Represents, delete-Represents, get-Represents, log_then-appends, after,
}
use space_db.Storage.Disk.Opening.{new_disk_engine}
use space_db.Storage.Disk.Replay.{
  LogRecord, RecordFits, record_bytes, log_bytes, replay, apply_record, new_disk_engine-replays,
}

pub data Operation : Type 0 where
  set_key : Bytes → Slice → Operation
  delete_key : Bytes → Operation

abbrev pub apply_operation : Operation → Contents → Contents
apply_operation (set_key k v) m = put_key k (slice_bytes v) m
apply_operation (delete_key k) m = drop_key k m

abbrev pub apply_all : List Operation → Contents → Contents
apply_all [] m = m
apply_all (o ∷ os) m = apply_all os (apply_operation o m)

record_of : Operation → LogRecord
record_of (set_key k v) = record { key = k; value = v; deleted = false }
record_of (delete_key k) = record { key = k; value = none; deleted = true }

apply_record-record_of :
    (o : Operation) (m : Contents) → apply_record (record_of o) m ≡ apply_operation o m
unfolding record_of
apply_record-record_of (set_key k v) m = refl
apply_record-record_of (delete_key k) m = refl

log_bytes-snoc :
    (rs : List LogRecord) (r : LogRecord)
    → log_bytes (rs ++ (r ∷ [])) ≡ log_bytes rs ++ record_bytes r
log_bytes-snoc [] r = append-nil (record_bytes r)
log_bytes-snoc (q ∷ rs) r =
    ap (λ t. record_bytes q ++ t) (log_bytes-snoc rs r)
    ∙ sym (append_assoc (record_bytes q) (log_bytes rs) (record_bytes r))

replay-snoc :
    (rs : List LogRecord) (r : LogRecord) (m : Contents)
    → replay (rs ++ (r ∷ [])) m ≡ apply_record r (replay rs m)
replay-snoc [] r m = refl
replay-snoc (q ∷ rs) r m = replay-snoc rs r (apply_record q m)

module _ (b : BTree Position) (f : Files) where
  abbrev pub run : Operation → Exec (DiskEngine b) Error (Unit {0})
  run (set_key k v) = set b f k v
  run (delete_key k) = delete b f k

  -- A sequence of calls, which ends at the first error.
  abbrev pub run_all : List Operation → Exec (DiskEngine b) Error (Unit {0})
  run_all [] = pure tt
  run_all (o ∷ os) = run o >> run_all os

  -- An open engine, and the records of which its file is made.
  pub record IsConsistent (d : DiskEngine b) (m : Contents) : Type 0 where
    pub records : List LogRecord
    pub all_fit : All RecordFits records
    pub file_bytes : d.file ≡ log_bytes records
    pub replayed : replay records (λ k. none) ≡ m
    pub represents : Represents b d m

  module _ (files : IsFiles f) (trees : IsBTree b) where
    run-Represents :
        (o : Operation) (d : DiskEngine b) (m : Contents)
        → Represents b d m
        → (run o d).0 ≡ ok tt
        → Represents b (run o d).1 (apply_operation o m)
    run-Represents (set_key k v) d m h done =
        subst
          (λ r. Represents b (set b f k v d).1 (after f files b r (put_key k (slice_bytes v) m) m))
          done (set-Represents f files b trees d m k v h)
    run-Represents (delete_key k) d m h done =
        subst (λ r. Represents b (delete b f k d).1 (after f files b r (drop_key k m) m)) done
          (delete-Represents f files b trees d m k h)

    run-appends :
        (o : Operation) (d : DiskEngine b) (m : Contents)
        → Represents b d m
        → (run o d).0 ≡ ok tt
        → RecordFits (record_of o) × ((run o d).1.file ≡ d.file ++ record_bytes (record_of o))
    unfolding set delete record_of
    run-appends (set_key k v) d m h done =
        log_then-appends f files b d m k v false (λ position t. b.replace_or_insert k position t) h
          done
    run-appends (delete_key k) d m h done =
        log_then-appends f files b d m k none true (λ position t. b.delete_item k t) h done

    run-IsConsistent :
        (o : Operation) (d : DiskEngine b) (m : Contents)
        → IsConsistent d m
        → (run o d).0 ≡ ok tt
        → IsConsistent (run o d).1 (apply_operation o m)
    run-IsConsistent o d m h done =
        let (fits, bytes) = run-appends o d m h.represents done in
        record {
          records = h.records ++ (record_of o ∷ []);
          all_fit = All-append RecordFits h.records (record_of o ∷ []) h.all_fit (fits, tt);
          file_bytes =
              bytes
              ∙ ap (λ t. t ++ record_bytes (record_of o)) h.file_bytes
              ∙ sym (log_bytes-snoc h.records (record_of o));
          replayed =
              replay-snoc h.records (record_of o) (λ k. none)
              ∙ ap (apply_record (record_of o)) h.replayed
              ∙ apply_record-record_of o m;
          represents = run-Represents o d m h.represents done;
        }

    pub run_all-IsConsistent :
        (os : List Operation) (d : DiskEngine b) (m : Contents)
        → IsConsistent d m
        → (run_all os d).0 ≡ ok tt
        → IsConsistent (run_all os d).1 (apply_all os m)
    run_all-IsConsistent [] d m h done = h
    run_all-IsConsistent (o ∷ os) d m h done =
        let (_, first, rest) = continue-eq-ok (run o d) (λ _. run_all os) done in
        subst (λ call. IsConsistent call.1 (apply_all os (apply_operation o m))) (sym rest)
          (run_all-IsConsistent os (run o d).1 (apply_operation o m)
            (run-IsConsistent o d m h first) (sym (ap (λ call. call.0) rest) ∙ done))

    pub reopen-IsConsistent :
        (d : DiskEngine b) (m : Contents)
        → IsConsistent d m
        → (d' : DiskEngine b) × (new_disk_engine b f (ok true) (ok d.file) ≡ some (ok d'))
          × IsConsistent d' m
    reopen-IsConsistent d m h =
        let (d', opens, bytes, replays) =
          new_disk_engine-replays b f files trees h.records h.all_fit in
        (
          d',
          ap (λ t. new_disk_engine b f (ok true) (ok t)) h.file_bytes ∙ opens,
          record {
            records = h.records;
            all_fit = h.all_fit;
            file_bytes = bytes;
            replayed = h.replayed;
            represents = subst (Represents b d') h.replayed replays;
          },
        )

    -- Start with an open engine whose file is made of whole records and which represents their
    -- replay, and let a sequence of Sets and Deletes return no error. The engine that is opened again
    -- on the file as they leave it opens without an error, and its Get returns for every key what the
    -- sequence left there, with no error, as the Get of the engine before does.
    pub reopen-run_all :
        (os : List Operation) (d : DiskEngine b) (m : Contents)
        → IsConsistent d m
        → (run_all os d).0 ≡ ok tt
        → (d' : DiskEngine b) × (new_disk_engine b f (ok true) (ok (run_all os d).1.file)
            ≡ some (ok d'))
          × ((k : Bytes)
              → (get b f k d' ≡ ok (apply_all os m k))
                × (get b f k (run_all os d).1 ≡ ok (apply_all os m k)))
    reopen-run_all os d m h done =
        let live = run_all-IsConsistent os d m h done in
        let (d', opens, again) = reopen-IsConsistent (run_all os d).1 (apply_all os m) live in
        (
          d',
          opens,
          λ k. (
            get-Represents f files b d' (apply_all os m) k again.represents,
            get-Represents f files b (run_all os d).1 (apply_all os m) k live.represents,
          ),
        )
