-- ===== src/Storage/Disk/FileSystem.antt =====
-- The os package, as far as storage/disk_log.go uses it: files that are appended to and read at an
-- offset. A file is the bytes it holds; its calls are a parameter, with what the package documents.
use space_db.Base.{
  ℕ, ◌+◌, ◌-◌, ◌≤◌, ◌<◌, ◌≡◌, refl, ◌++◌, length, take, drop, leb, Bool-cases, inl, inr, Result, ok,
  err, if◌then◌else◌, arith,
}
use space_db.Bytes.{Bytes}
use space_db.Storage.Errors.{Error, short_read, write_failed}

pub record Files : Type 0 where
  -- `Seek` to the end of a file opened with O_APPEND, and `Write`: the result, and what the file
  -- holds then. An error of Seek is one before which nothing is written.
  pub append_file : Bytes → Bytes → Result Error (Unit {0}) × Bytes
  -- `ReadAt`, given what the file holds, the length of the buffer and the offset.
  pub read_at : Bytes → ℕ → ℕ → Result Error Bytes

-- A write that fails has written a front of the data, perhaps nothing; a read of bytes that the
-- file holds gives them, and a read beyond its end is an error.
pub record IsFiles (f : Files) : Type 0 where
  pub appended :
      (file data' : Bytes)
      → (f.append_file file data').0 ≡ ok tt
      → (f.append_file file data').1 ≡ file ++ data'
  pub append_fails :
      (file data' : Bytes) (e : Error)
      → (f.append_file file data').0 ≡ err e
      → (n : ℕ) × (n ≤ length data') × ((f.append_file file data').1 ≡ file ++ take n data')
  pub read_within :
      (file : Bytes) (n offset : ℕ)
      → offset + n ≤ length file
      → f.read_at file n offset ≡ ok (take n (drop offset file))
  pub read_beyond :
      (file : Bytes) (n offset : ℕ)
      → 0 < n
      → length file < offset + n
      → f.read_at file n offset ≡ err short_read

-- Files for runs: on a disk of so many bytes, where a write that does not fit fills the disk.
module _ (capacity : ℕ) where
  abbrev pub append_bounded : Bytes → Bytes → Result Error (Unit {0}) × Bytes
  append_bounded file data' =
      if leb (length file + length data') capacity
      then (ok tt, file ++ data')
      else (err write_failed, file ++ take (capacity - length file) data')

  abbrev pub read_bounded : Bytes → ℕ → ℕ → Result Error Bytes
  read_bounded file n offset =
      if leb (offset + n) (length file) then ok (take n (drop offset file)) else err short_read

  abbrev pub bounded_disk : Files
  bounded_disk = record { append_file = append_bounded; read_at = read_bounded }

  append_bounded_succeeds :
      (file data' : Bytes)
      → (append_bounded file data').0 ≡ ok tt
      → (append_bounded file data').1 ≡ file ++ data'
  append_bounded_succeeds file data' h =
      elim (Bool-cases (leb (length file + length data') capacity)) [
        | inl fits ↦ rw fits refl
        | inr full ↦ cc (rw full at h)
      ]

  append_bounded_fails :
      (file data' : Bytes) (e : Error)
      → (append_bounded file data').0 ≡ err e
      → (n : ℕ) × (n ≤ length data') × ((append_bounded file data').1 ≡ file ++ take n data')
  append_bounded_fails file data' e h =
      elim (Bool-cases (leb (length file + length data') capacity)) [
        | inl fits ↦ cc (rw fits at h)
        | inr full ↦ (capacity - length file, ground arith, rw full refl)
      ]

  pub bounded_disk-IsFiles : IsFiles bounded_disk
  bounded_disk-IsFiles = record {
    appended = append_bounded_succeeds;
    append_fails = append_bounded_fails;
    read_within = λ file n offset h. ground arith;
    read_beyond = λ file n offset h k. ground arith;
  }
