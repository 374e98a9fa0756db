-- ===== src/Storage/Disk/Torn.antt =====
-- A log whose last record is not whole.
use space_db.Base.{
  ℕ, zero, suc, ◌+◌, ◌-◌, ◌≤◌, ◌<◌, ◌≡◌, refl, sym, ap, ◌∙◌, List, [], ◌∷◌, ◌++◌, none, some, Bool,
  true, false, length, take, drop, ltb, All, ok, err, append-nil, length-append, length-take_le,
  arith, Bool-cases, inl, inr,
}
use space_db.Bytes.{Bytes, Slice}
use space_db.Bytes.BigEndian.{be}
use space_db.Storage.Errors.{Error, short_read, invalid_entry_size}
use space_db.Storage.BTree.{BTree, IsBTree}
use space_db.Storage.Disk.FileSystem.{Files, IsFiles}
use space_db.Storage.Disk.Log.{Position, size_field, entry_bytes, entry_size_of, read_entry}
use space_db.Storage.Disk.RoundTrip.{
  Fits, value_size_of, length-entry_bytes, header_read, key_size_read, key_read, value_size_read,
  read_entry_parts,
}
use space_db.Storage.Disk.Termination.{rebuild_loop-takes_step}
use space_db.Storage.Disk.Opening.{
  stored_value_size, rebuild_step, rebuild_loop, rebuild_keydir, new_disk_engine, opened,
}
use space_db.Storage.Disk.Replay.{
  LogRecord, RecordFits, record_bytes, log_bytes, rebuild_keydir-Reaches,
}

module _ {ℓ} {A : Type ℓ} where
  take-take_le : (m n : ℕ) (xs : List A) → m ≤ n → take m (take n xs) ≡ take m xs
  take-take_le zero n xs h = refl
  take-take_le (suc m) zero xs h = absurd (omega arith)
  take-take_le (suc m) (suc n) [] h = refl
  take-take_le (suc m) (suc n) (x ∷ xs) h = ap (λ t. x ∷ t) (take-take_le m n xs (omega arith))

  take-nil : (n : ℕ) → ◌≡◌ {A = List A} (take n []) []
  take-nil zero = refl
  take-nil (suc n) = refl

  drop-take : (m n : ℕ) (xs : List A) → m ≤ n → drop m (take n xs) ≡ take (n - m) (drop m xs)
  drop-take zero n xs h = ap (λ k. take k xs) (omega arith)
  drop-take (suc m) zero xs h = absurd (omega arith)
  drop-take (suc m) (suc n) [] h = sym (take-nil (suc n - suc m))
  drop-take (suc m) (suc n) (x ∷ xs) h =
      drop-take m n xs (omega arith) ∙ ap (λ k. take k (drop m xs)) (omega arith)

  drop-append_add : (k n : ℕ) (xs ys : List A) → k ≡ length xs + n → drop k (xs ++ ys) ≡ drop n ys
  drop-append_add k n [] ys h = ap (λ i. drop i ys) (omega arith)
  drop-append_add zero n (x ∷ xs) ys h = absurd (omega arith)
  drop-append_add (suc k) n (x ∷ xs) ys h = drop-append_add k n xs ys (omega arith)

module _ (f : Files) (files : IsFiles f) (front key : Bytes) (value : Slice) (deleted : Bool)
    (n : ℕ) where
  -- The file, and the part of the record that is there.
  abbrev part : Bytes
  part = take n (entry_bytes key value deleted)

  module _ (fits : Fits key value deleted) (some_bytes : 0 < n)
      (not_all : n < entry_size_of key value deleted) where
    length-part : length part ≡ n
    length-part =
        length-take_le n (entry_bytes key value deleted)
          (omega (arith, length-entry_bytes key value deleted))

    length-torn : length (front ++ part) ≡ length front + n
    length-torn = length-append front part ∙ omega (arith, length-part)

    -- A read of the torn file that stays within it reads what the whole record has there.
    same_read :
        (m i : ℕ)
        → i + m ≤ n
        → f.read_at (front ++ part) m (length front + i)
          ≡ f.read_at (front ++ (entry_bytes key value deleted ++ [])) m (length front + i)
    same_read m i h =
        files.read_within (front ++ part) m (length front + i) (omega (arith, length-torn))
        ∙ ap (λ t. ok (take m t)) (drop-append_add (length front + i) i front part refl)
        ∙ ap (λ t. ok (take m t)) (drop-take i n (entry_bytes key value deleted) (omega arith))
        ∙ ap ok (take-take_le m (n - i) (drop i (entry_bytes key value deleted)) (omega arith))
        ∙ ap (λ t. ok (take m (drop i t))) (sym (append-nil (entry_bytes key value deleted)))
        ∙ ap (λ t. ok (take m t))
            (sym (
              drop-append_add (length front + i) i front (entry_bytes key value deleted ++ [])
                refl))
        ∙ sym (
            files.read_within (front ++ (entry_bytes key value deleted ++ [])) m (length front + i)
              (omega (
                arith,
                length-append front (entry_bytes key value deleted ++ []),
                length-append (entry_bytes key value deleted) [],
                length-entry_bytes key value deleted,
              )))

    abbrev header : Bytes
    header = be 4 (length key) ++ be 4 (size_field value deleted)

    header_within : 8 ≤ n → f.read_at (front ++ part) 8 (length front) ≡ ok header
    header_within h =
        ap (f.read_at (front ++ part) 8) (omega arith)
        ∙ same_read 8 0 (omega arith)
        ∙ ap (f.read_at (front ++ (entry_bytes key value deleted ++ [])) 8) (omega arith)
        ∙ header_read f files front [] key value deleted fits

    no_header : n < 8 → read_entry f (front ++ part) (length front) ≡ err short_read
    unfolding read_entry
    no_header h =
        rw
          (files.read_beyond (front ++ part) 8 (length front) (omega arith)
            (omega (arith, length-torn)))
          refl

    no_key :
        8 ≤ n → n < 8 + length key → read_entry f (front ++ part) (length front) ≡ err short_read
    unfolding read_entry
    no_key h k =
        rw
          (
            header_within h,
            key_size_read f files front [] key value deleted fits,
            files.read_beyond (front ++ part) (length key) (length front + 8) (omega arith)
                (omega (arith, length-torn)),
          )
          refl

    sizes_within :
        8 + length key ≤ n
        → read_entry f (front ++ part) (length front) ≡ ok (key, value_size_of value deleted)
    sizes_within h =
        read_entry_parts f files (front ++ part) header key (length front) (length key)
          (value_size_of value deleted) (header_within (omega arith))
          (key_size_read f files front [] key value deleted fits)
          (same_read (length key) 8 (omega arith)
            ∙ key_read f files front [] key value deleted fits)
          (value_size_read f files front [] key value deleted fits)

step_fails :
    (b : BTree Position) (f : Files) (file key : Bytes) (value : Slice) (deleted : Bool)
    (offset : ℕ) (t : b.Tree)
    → read_entry f file offset ≡ ok (key, value_size_of value deleted)
    → length file - offset < entry_size_of key value deleted
    → rebuild_step b f file offset t ≡ err invalid_entry_size
unfolding rebuild_step stored_value_size
step_fails b f file key value true offset t h beyond = rw h (ground arith)
step_fails b f file key value false offset t h beyond = rw h (ground arith)

step_unread :
    (b : BTree Position) (f : Files) (file : Bytes) (offset : ℕ) (t : b.Tree) (e : Error)
    → read_entry f file offset ≡ err e
    → rebuild_step b f file offset t ≡ err e
unfolding rebuild_step
step_unread b f file offset t e h = rw h refl

module _ (b : BTree Position) (f : Files) (files : IsFiles f) (trees : IsBTree b) where
  torn_step :
      (front : Bytes) (r : LogRecord) (n : ℕ) (t : b.Tree)
      → RecordFits r
      → 0 < n
      → n < length (record_bytes r)
      → (e : Error) × (rebuild_step b f (front ++ take n (record_bytes r)) (length front) t ≡ err e)
  torn_step front r n t fits some_bytes not_all =
      let short : n < entry_size_of r.key r.value r.deleted =
        omega (arith, length-entry_bytes r.key r.value r.deleted) in
      elim (Bool-cases (ltb n 8)) [
        | inl h ↦ (
          short_read,
          step_unread b f (front ++ take n (record_bytes r)) (length front) t short_read (
              no_header f files front r.key r.value r.deleted n fits some_bytes short
                (ground arith)),
        )
        | inr h ↦ elim (Bool-cases (ltb n (8 + length r.key))) [
          | inl k ↦ (
            short_read,
            step_unread b f (front ++ take n (record_bytes r)) (length front) t short_read (
                no_key f files front r.key r.value r.deleted n fits some_bytes short (ground arith)
                  (ground arith)),
          )
          | inr k ↦ (
            invalid_entry_size,
            step_fails b f (front ++ take n (record_bytes r)) r.key r.value r.deleted (length front)
                t
                (sizes_within f files front r.key r.value r.deleted n fits some_bytes short
                  (ground arith))
                (omega (
                  arith,
                  length-torn f files front r.key r.value r.deleted n fits some_bytes short,
                )),
          )
        ]
      ]

  loop_fails :
      (file : Bytes) (fuel offset : ℕ) (t : b.Tree) (e : Error)
      → offset < length file
      → rebuild_step b f file offset t ≡ err e
      → rebuild_loop b f file (suc fuel) offset t ≡ some (err e)
  loop_fails file fuel offset t e h k =
      rebuild_loop-takes_step b f file fuel offset t (err e) (ground arith) k

  open_fails :
      (file : Bytes) (e : Error)
      → rebuild_keydir b f file b.new_tree ≡ some (err e)
      → new_disk_engine b f (ok true) (ok file) ≡ some (err e)
  unfolding new_disk_engine opened
  open_fails file e h = ap (λ o. elim o [ none ↦ none | some r ↦ some (opened b f file r) ]) h

  -- When a file of whole records ends in a part of a record, some of its bytes but not all, as a
  -- write that stops part of the way leaves it, opening an engine on it returns an error: none of the
  -- records is read.
  pub torn_record_refused :
      (rs : List LogRecord) (r : LogRecord) (n : ℕ)
      → All RecordFits rs
      → RecordFits r
      → 0 < n
      → n < length (record_bytes r)
      → (e : Error) × (new_disk_engine b f (ok true) (ok (log_bytes rs ++ take n (record_bytes r)))
          ≡ some (err e))
  torn_record_refused rs r n fits_all fits some_bytes not_all =
      let file = log_bytes rs ++ take n (record_bytes r) in
      let there = rebuild_keydir-Reaches b f files trees rs (take n (record_bytes r)) fits_all in
      let (e, failed) = torn_step (log_bytes rs) r n there.tree fits some_bytes not_all in
      (
        e,
        open_fails file e (
            there.reached
            ∙ loop_fails file there.fuel_left (length (log_bytes rs)) there.tree e
                (omega (
                  arith,
                  length-append (log_bytes rs) (take n (record_bytes r)),
                  length-take_le n (record_bytes r),
                ))
                failed),
      )
