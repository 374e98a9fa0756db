-- ===== src/Storage/Disk/Writes.antt =====
-- What Set, Get and Delete of the disk engine do to the contents it represents.
use space_db.Base.{
  ℕ, ◌≡◌, ◌⊎◌, refl, sym, ap, ◌∙◌, [], ◌++◌, Option, none, some, Bool, true, false, length, take,
  ltb, Result, ok, err, ◌>>=◌, append-nil, arith, Bool-cases, Result-cases, inl, inr,
}
use space_db.Bytes.{Bytes, Slice}
use space_db.Storage.Errors.{Error, value_too_large, entry_too_large}
use space_db.Storage.BTree.{BTree, IsBTree}
use space_db.Storage.Disk.{DiskEngine, get, set, delete, log_then, ensure_open}
use space_db.Storage.Disk.FileSystem.{Files, IsFiles}
use space_db.Storage.Disk.Log.{
  Position, slice_bytes, entry_bytes, entry_size_of, write_entry, read_log_value,
}
use space_db.Storage.Disk.RoundTrip.{Fits, read_log_value-entry_bytes}
use space_db.Storage.Disk.Contents.{
  HoldsAt, Contents, put_key, drop_key, Stored, Indexes, Indexes-append, Indexes-put, Indexes-drop,
  Represents,
}

-- The position of a record written at the end of the file.
abbrev pub end_position : Bytes → Slice → Bool → Bytes → Position
end_position key value deleted file = record {
  entry_offset = length file;
  entry_size = entry_size_of key value deleted;
}

module _ (f : Files) (files : IsFiles f) where
  abbrev WritesAll : Bytes → Slice → Bool → Bytes → Type 0
  WritesAll key value deleted file =
      Fits key value deleted
      × (write_entry f key value deleted file
          ≡ (ok (end_position key value deleted file), file ++ entry_bytes key value deleted))

  abbrev WritesFront : Bytes → Slice → Bool → Bytes → Type 0
  WritesFront key value deleted file =
      (e : Error) × (n : ℕ) × (write_entry f key value deleted file
        ≡ (err e, file ++ take n (entry_bytes key value deleted)))

  -- A record is written whole at the end of the file, or an error comes with a front of it there.
  pub write_entry-cases :
      (key : Bytes) (value : Slice) (deleted : Bool) (file : Bytes)
      → WritesAll key value deleted file ⊎ WritesFront key value deleted file
  unfolding write_entry
  write_entry-cases key value deleted file =
      elim (Bool-cases (ltb 2147483647 (length (slice_bytes value)))) [
        | inl large ↦ inr (
          value_too_large,
          0,
          rw large (ap (λ t. (err value_too_large, t)) (sym (append-nil file))),
        )
        | inr small ↦ elim (Bool-cases (ltb 4294967295 (entry_size_of key value deleted))) [
          | inl large ↦ inr (
            entry_too_large,
            0,
            rw (small, large) (ap (λ t. (err entry_too_large, t)) (sym (append-nil file))),
          )
          | inr fits ↦ elim (Result-cases (f.append_file file (entry_bytes key value deleted)).0) [
            | inl done ↦ inl (
              (ground arith, ground arith),
              rw (small, fits, done.1, files.appended file (entry_bytes key value deleted) done.1)
                  refl,
            )
            | inr failed ↦
                let (n, _, e) =
                  files.append_fails file (entry_bytes key value deleted) failed.0 failed.1 in
                inr (failed.0, n, rw (small, fits, failed.1, e) refl)
          ]
        ]
      ]

  pub read_held :
      (file key : Bytes) (position : Position) (value : Bytes)
      → HoldsAt file key position value
      → read_log_value f file position ≡ ok value
  read_held file key position value h =
      rw (h.split, h.at_front)
        (read_log_value-entry_bytes f files h.front h.back key h.stored_value h.fits
          ∙ ap ok h.value_bytes)

  module _ (b : BTree Position) where
    -- A call on an open engine that writes a record, when the record is written and when it is not.
    module _ (d : DiskEngine b) (t : b.Tree) (key : Bytes) (value : Slice) (deleted : Bool)
        (change : Position → b.Tree → b.Tree) (open' : d.keydir ≡ some t) where
      log_then-writes :
          (position : Position) (file : Bytes)
          → write_entry f key value deleted d.file ≡ (ok position, file)
          → log_then b f key value deleted change d
            ≡ (ok tt, record { keydir = some (change position t); file = file })
      unfolding log_then ensure_open
      log_then-writes position file h = rw (open', h) refl

      log_then-fails :
          (e : Error) (file : Bytes)
          → write_entry f key value deleted d.file ≡ (err e, file)
          → log_then b f key value deleted change d
            ≡ (err e, record { keydir = some t; file = file })
      unfolding log_then ensure_open
      log_then-fails e file h = rw (open', h) refl

    pub log_then-appends :
        (d : DiskEngine b) (m : Contents) (key : Bytes) (value : Slice) (deleted : Bool)
        (change : Position → b.Tree → b.Tree)
        → Represents b d m
        → (log_then b f key value deleted change d).0 ≡ ok tt
        → Fits key value deleted
          × ((log_then b f key value deleted change d).1.file
              ≡ d.file ++ entry_bytes key value deleted)
    log_then-appends d m key value deleted change h done =
        elim (write_entry-cases key value deleted d.file) [
          | inl whole ↦ (
            whole.0,
            ap (λ call. call.1.file)
                (log_then-writes d h.tree key value deleted change h.is_open
                  (end_position key value deleted d.file) (d.file ++ entry_bytes key value deleted)
                  whole.1),
          )
          | inr front ↦
              let failed =
                log_then-fails d h.tree key value deleted change h.is_open front.0
                  (d.file ++ take front.1 (entry_bytes key value deleted)) front.2 in
              cc (sym (ap (λ call. call.0) failed) ∙ done)
        ]

    -- Whether or not it succeeds, the call only adds to the file.
    pub log_then-extends :
        (d : DiskEngine b) (m : Contents) (key : Bytes) (value : Slice) (deleted : Bool)
        (change : Position → b.Tree → b.Tree)
        → Represents b d m
        → (more : Bytes) × ((log_then b f key value deleted change d).1.file ≡ d.file ++ more)
    log_then-extends d m key value deleted change h =
        elim (write_entry-cases key value deleted d.file) [
          | inl whole ↦ (
            entry_bytes key value deleted,
            ap (λ call. call.1.file)
                (log_then-writes d h.tree key value deleted change h.is_open
                  (end_position key value deleted d.file) (d.file ++ entry_bytes key value deleted)
                  whole.1),
          )
          | inr front ↦ (
            take front.1 (entry_bytes key value deleted),
            ap (λ call. call.1.file)
                (log_then-fails d h.tree key value deleted change h.is_open front.0
                  (d.file ++ take front.1 (entry_bytes key value deleted)) front.2),
          )
        ]

    -- The contents behind a call: those of `done` where it succeeded.
    abbrev pub after : Result Error (Unit {0}) → Contents → Contents → Contents
    after (ok _) done undone = done
    after (err _) done undone = undone

    abbrev pub RepresentsAfter :
        Result Error (Unit {0}) × DiskEngine b → Contents → Contents → Type 0
    RepresentsAfter call done undone = Represents b call.1 (after call.0 done undone)

    module _ (trees : IsBTree b) where
      log_then-Represents :
          (d : DiskEngine b) (m done : Contents) (key : Bytes) (value : Slice) (deleted : Bool)
          (change : Position → b.Tree → b.Tree) (h : Represents b d m)
          → (Fits key value deleted
              → Indexes b (d.file ++ entry_bytes key value deleted) h.tree m
              → Indexes b
                  (d.file ++ entry_bytes key value deleted)
                  (change (end_position key value deleted d.file) h.tree)
                  done)
          → RepresentsAfter (log_then b f key value deleted change d) done m
      log_then-Represents d m done key value deleted change h step =
          elim (write_entry-cases key value deleted d.file) [
            | inl whole ↦
                rw
                  (log_then-writes d h.tree key value deleted change h.is_open
                    (end_position key value deleted d.file)
                    (d.file ++ entry_bytes key value deleted) whole.1)
                  (record {
                    tree = change (end_position key value deleted d.file) h.tree;
                    is_open = refl;
                    indexed = step whole.0 (
                        Indexes-append b d.file (entry_bytes key value deleted) h.tree m h.indexed);
                  })
            | inr front ↦
                rw
                  (log_then-fails d h.tree key value deleted change h.is_open front.0
                    (d.file ++ take front.1 (entry_bytes key value deleted)) front.2)
                  (record {
                    tree = h.tree;
                    is_open = refl;
                    indexed =
                        Indexes-append b d.file (take front.1 (entry_bytes key value deleted))
                          h.tree m h.indexed;
                  })
          ]

      pub new_record :
          (file key : Bytes) (value : Slice)
          → Fits key value false
          → HoldsAt
              (file ++ entry_bytes key value false)
              key
              (end_position key value false file)
              (slice_bytes value)
      new_record file key value fits = record {
        front = file;
        back = [];
        stored_value = value;
        split = ap (λ t. file ++ t) (sym (append-nil (entry_bytes key value false)));
        fits = fits;
        at_front = refl;
        value_bytes = refl;
      }

      -- A Set that returns no error puts the bytes of the value under the key; a Set that returns an
      -- error, at whatever point the write of its record stopped, leaves the contents as they were.
      pub set-Represents :
          (d : DiskEngine b) (m : Contents) (key : Bytes) (value : Slice)
          → Represents b d m
          → RepresentsAfter (set b f key value d) (put_key key (slice_bytes value) m) m
      unfolding set
      set-Represents d m key value h =
          log_then-Represents d m (put_key key (slice_bytes value) m) key value false
            (λ position t. b.replace_or_insert key position t) h
            (λ fits indexed.
              Indexes-put b trees (d.file ++ entry_bytes key value false) key (slice_bytes value)
                (end_position key value false d.file) h.tree m indexed
                (new_record d.file key value fits))

      -- A Delete that returns no error leaves no value under the key and the others as they were; one
      -- that returns an error changes none.
      pub delete-Represents :
          (d : DiskEngine b) (m : Contents) (key : Bytes)
          → Represents b d m
          → RepresentsAfter (delete b f key d) (drop_key key m) m
      unfolding delete
      delete-Represents d m key h =
          log_then-Represents d m (drop_key key m) key none true (λ position t. b.delete_item key t)
            h
            (λ fits indexed.
              Indexes-drop b trees (d.file ++ entry_bytes key none true) key h.tree m indexed)

    read-Stored :
        (file key : Bytes) (o : Option Position) (v : Option Bytes)
        → Stored file key o v
        → elim o [
          | none ↦ ok none
          | some position ↦ read_log_value f file position >>= λ value. ok (some value)
        ]
          ≡ ok v
    read-Stored file key none none h = refl
    read-Stored file key none (some v) h = absurd h
    read-Stored file key (some position) none h = absurd h
    read-Stored file key (some position) (some v) h = rw (read_held file key position v h) refl

    -- A Get of the disk engine returns what the contents hold under the key, and nil for a key that
    -- they do not hold; it returns no error.
    pub get-Represents :
        (d : DiskEngine b) (m : Contents) (key : Bytes)
        → Represents b d m
        → get b f key d ≡ ok (m key)
    unfolding get ensure_open
    get-Represents d m key h =
        rw h.is_open (read-Stored d.file key (b.find key h.tree) (m key) (h.indexed key))
