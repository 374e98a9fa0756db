-- ===== src/Storage/Disk/Replay.antt =====
-- Opening an engine on the file that a sequence of records makes.
use space_db.Base.{
  ℕ, zero, suc, ◌+◌, ◌-◌, ◌≤◌, ◌<◌, ◌≡◌, refl, sym, ap, ◌∙◌, List, [], ◌∷◌, ◌++◌, Option, none,
  some, Bool, true, false, if◌then◌else◌, length, All, Result, ok, append_assoc, append-nil,
  length-append, arith,
}
use mathlib.Core.Path.{subst}
use space_db.Bytes.{Bytes, Slice}
use space_db.Storage.Errors.{Error}
use space_db.Storage.BTree.{BTree, IsBTree}
use space_db.Storage.Disk.{DiskEngine}
use space_db.Storage.Disk.FileSystem.{Files, IsFiles}
use space_db.Storage.Disk.Log.{Position, slice_bytes, entry_bytes, entry_size_of, read_entry}
use space_db.Storage.Disk.RoundTrip.{
  Fits, value_size_of, length-entry_bytes, read_entry-entry_bytes,
}
use space_db.Storage.Disk.Contents.{
  Contents, put_key, drop_key, Indexes, Indexes-put, Indexes-drop, Represents,
}
use space_db.Storage.Disk.Opening.{
  stored_value_size, index_record, rebuild_step, rebuild_loop, rebuild_keydir, new_disk_engine,
  opened,
}

pub record LogRecord : Type 0 where
  pub key : Bytes
  pub value : Slice
  pub deleted : Bool

abbrev pub record_bytes : LogRecord → Bytes
record_bytes r = entry_bytes r.key r.value r.deleted

abbrev pub log_bytes : List LogRecord → Bytes
log_bytes [] = []
log_bytes (r ∷ rs) = record_bytes r ++ log_bytes rs

abbrev pub RecordFits : LogRecord → Type 0
RecordFits r = Fits r.key r.value r.deleted

abbrev pub apply_record : LogRecord → Contents → Contents
apply_record r m = if r.deleted then drop_key r.key m else put_key r.key (slice_bytes r.value) m

abbrev pub replay : List LogRecord → Contents → Contents
replay [] m = m
replay (r ∷ rs) m = replay rs (apply_record r m)

module _ (b : BTree Position) (f : Files) (files : IsFiles f) where
  -- What the replay of a record does to the index.
  abbrev indexed_record : Bytes → Slice → Bool → ℕ → b.Tree → b.Tree
  indexed_record key value deleted offset t =
      if deleted
      then b.delete_item key t
      else b.replace_or_insert key
          (record { entry_offset = offset; entry_size = entry_size_of key value deleted }) t

  -- A record whose sizes are read back, and which ends within the file.
  step_of_read :
      (file key : Bytes) (value : Slice) (deleted : Bool) (offset : ℕ) (t : b.Tree)
      → read_entry f file offset ≡ ok (key, value_size_of value deleted)
      → entry_size_of key value deleted ≤ 4294967295
      → entry_size_of key value deleted ≤ length file - offset
      → rebuild_step b f file offset t
        ≡ ok (offset + entry_size_of key value deleted, indexed_record key value deleted offset t)
  unfolding rebuild_step stored_value_size index_record
  step_of_read file key value true offset t h small within = rw h (ground arith)
  step_of_read file key value false offset t h small within = rw h (ground arith)

  rebuild_step-record :
      (front back : Bytes) (r : LogRecord) (t : b.Tree)
      → RecordFits r
      → rebuild_step b f (front ++ (record_bytes r ++ back)) (length front) t
        ≡ ok (
          length front + entry_size_of r.key r.value r.deleted,
          indexed_record r.key r.value r.deleted (length front) t,
        )
  rebuild_step-record front back r t fits =
      step_of_read (front ++ (record_bytes r ++ back)) r.key r.value r.deleted (length front) t
        (read_entry-entry_bytes f files front back r.key r.value r.deleted fits) fits.1
        (omega (
          arith,
          length-append front (record_bytes r ++ back),
          length-append (record_bytes r) back,
          length-entry_bytes r.key r.value r.deleted,
        ))

  module _ (trees : IsBTree b) where
    Indexes-record :
        (front back key : Bytes) (value : Slice) (deleted : Bool) (t : b.Tree) (m : Contents)
        → Fits key value deleted
        → Indexes b (front ++ (entry_bytes key value deleted ++ back)) t m
        → Indexes b
            (front ++ (entry_bytes key value deleted ++ back))
            (indexed_record key value deleted (length front) t)
            (if deleted then drop_key key m else put_key key (slice_bytes value) m)
    Indexes-record front back key value true t m fits h =
        Indexes-drop b trees (front ++ (entry_bytes key value true ++ back)) key t m h
    Indexes-record front back key value false t m fits h =
        Indexes-put b trees (front ++ (entry_bytes key value false ++ back)) key (slice_bytes value)
          (record { entry_offset = length front; entry_size = entry_size_of key value false }) t m h
          (record {
            front = front;
            back = back;
            stored_value = value;
            split = refl;
            fits = fits;
            at_front = refl;
            value_bytes = refl;
          })

    pub rebuild_loop-stops :
        (file : Bytes) (fuel offset : ℕ) (t : b.Tree)
        → length file ≤ offset
        → rebuild_loop b f file (suc fuel) offset t ≡ some (ok t)
    unfolding rebuild_loop
    rebuild_loop-stops file fuel offset t h = ground arith

    pub rebuild_loop-steps :
        (file : Bytes) (fuel offset next : ℕ) (t t' : b.Tree)
        → offset < length file
        → rebuild_step b f file offset t ≡ ok (next, t')
        → rebuild_loop b f file (suc fuel) offset t ≡ rebuild_loop b f file fuel next t'
    unfolding rebuild_loop
    rebuild_loop-steps file fuel offset next t t' h e = ground (arith, e)

    -- The loop comes, with enough fuel, to what stands behind the records, with their replay.
    pub record Reaches (file : Bytes) (front : Bytes) (m : Contents)
        (result : Option (Result Error b.Tree)) : Type 0 where
      pub fuel_left : ℕ
      pub tree : b.Tree
      pub reached : result ≡ rebuild_loop b f file (suc fuel_left) (length front) tree
      pub indexed : Indexes b file tree m

    pub rebuild_loop-Reaches :
        (file tail : Bytes) (rs : List LogRecord) (front : Bytes) (fuel offset : ℕ) (t : b.Tree)
        (m : Contents)
        → file ≡ front ++ (log_bytes rs ++ tail)
        → offset ≡ length front
        → length rs < fuel
        → All RecordFits rs
        → Indexes b file t m
        → Reaches file (front ++ log_bytes rs) (replay rs m) (rebuild_loop b f file fuel offset t)
    rebuild_loop-Reaches file tail rs front zero offset t m whole at_end enough fits h =
        absurd (omega arith)
    rebuild_loop-Reaches file tail [] front (suc fuel) offset t m whole at_end enough fits h =
        record {
          fuel_left = fuel;
          tree = t;
          reached =
              ap (λ o. rebuild_loop b f file (suc fuel) o t)
                (at_end ∙ ap length (sym (append-nil front)));
          indexed = h;
        }
    rebuild_loop-Reaches file tail (r ∷ rs) front (suc fuel) offset t m whole at_end enough fits h =
        let t' = indexed_record r.key r.value r.deleted (length front) t in
        let next = length front + entry_size_of r.key r.value r.deleted in
        let behind : file ≡ front ++ (record_bytes r ++ (log_bytes rs ++ tail)) =
          whole ∙ ap (λ x. front ++ x) (append_assoc (record_bytes r) (log_bytes rs) tail) in
        let longer : length front + 8 ≤ length file = omega (
          arith,
          ap length behind,
          length-append front (record_bytes r ++ (log_bytes rs ++ tail)),
          length-append (record_bytes r) (log_bytes rs ++ tail),
          length-entry_bytes r.key r.value r.deleted,
        ) in
        let step : rebuild_step b f file (length front) t ≡ ok (next, t') =
          ap (λ x. rebuild_step b f x (length front) t) behind
          ∙ rebuild_step-record front (log_bytes rs ++ tail) r t fits.0 in
        let rest =
          rebuild_loop-Reaches file tail rs (front ++ record_bytes r) fuel next t'
            (apply_record r m)
            (behind ∙ sym (append_assoc front (record_bytes r) (log_bytes rs ++ tail)))
            (omega (
              arith,
              length-append front (record_bytes r),
              length-entry_bytes r.key r.value r.deleted,
            ))
            (omega arith) fits.1
            (subst (λ x. Indexes b x t' (apply_record r m)) (sym behind)
              (Indexes-record front (log_bytes rs ++ tail) r.key r.value r.deleted t m fits.0
                (subst (λ x. Indexes b x t m) behind h))) in
        record {
          fuel_left = rest.fuel_left;
          tree = rest.tree;
          reached =
              ap (λ o. rebuild_loop b f file (suc fuel) o t) at_end
              ∙ rebuild_loop-steps file fuel (length front) next t t' (omega arith) step
              ∙ rest.reached
              ∙ ap (λ x. rebuild_loop b f file (suc rest.fuel_left) (length x) rest.tree)
                  (append_assoc front (record_bytes r) (log_bytes rs));
          indexed = rest.indexed;
        }

    pub length-log_bytes : (rs : List LogRecord) → length rs ≤ length (log_bytes rs)
    length-log_bytes [] = omega arith
    length-log_bytes (r ∷ rs) = omega (
      arith,
      length-append (record_bytes r) (log_bytes rs),
      length-entry_bytes r.key r.value r.deleted,
      length-log_bytes rs,
    )

    pub new_tree-Indexes : (file : Bytes) → Indexes b file b.new_tree (λ k. none)
    new_tree-Indexes file k = rw (trees.find-new_tree k) tt

    pub rebuild_keydir-Reaches :
        (rs : List LogRecord) (tail : Bytes)
        → All RecordFits rs
        → Reaches
            (log_bytes rs ++ tail)
            (log_bytes rs)
            (replay rs (λ k. none))
            (rebuild_keydir b f (log_bytes rs ++ tail) b.new_tree)
    unfolding rebuild_keydir
    rebuild_keydir-Reaches rs tail fits =
        rebuild_loop-Reaches (log_bytes rs ++ tail) tail rs [] (suc (length (log_bytes rs ++ tail)))
          0 b.new_tree (λ k. none) refl refl
          (omega (arith, length-log_bytes rs, length-append (log_bytes rs) tail)) fits
          (new_tree-Indexes (log_bytes rs ++ tail))

    new_disk_engine-opens :
        (file : Bytes) (t : b.Tree)
        → rebuild_keydir b f file b.new_tree ≡ some (ok t)
        → new_disk_engine b f (ok true) (ok file)
          ≡ some (ok (record { keydir = some t; file = file }))
    unfolding new_disk_engine opened
    new_disk_engine-opens file t e =
        ap (λ o. elim o [ none ↦ none | some r ↦ some (opened b f file r) ]) e

    -- Opening an engine on a file that holds whole records, each of an accepted size, ends within the
    -- fuel without an error, in an open engine on the file as it is, which represents the replay of
    -- the records in their order.
    pub new_disk_engine-replays :
        (rs : List LogRecord)
        → All RecordFits rs
        → (d : DiskEngine b) × (new_disk_engine b f (ok true) (ok (log_bytes rs)) ≡ some (ok d))
          × (d.file ≡ log_bytes rs)
          × Represents b d (replay rs (λ k. none))
    new_disk_engine-replays rs fits =
        let reached =
          subst
            (λ x.
              Reaches x (log_bytes rs) (replay rs (λ k. none)) (rebuild_keydir b f x b.new_tree))
            (append-nil (log_bytes rs)) (rebuild_keydir-Reaches rs [] fits) in
        (
          record { keydir = some reached.tree; file = log_bytes rs },
          new_disk_engine-opens (log_bytes rs) reached.tree (
              reached.reached
              ∙ rebuild_loop-stops (log_bytes rs) reached.fuel_left (length (log_bytes rs))
                  reached.tree (omega arith)),
          refl,
          record { tree = reached.tree; is_open = refl; indexed = reached.indexed },
        )
