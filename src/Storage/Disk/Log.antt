-- ===== src/Storage/Disk/Log.antt =====
-- storage/disk_log.go: the records of the append-only log. A file is the bytes it holds.
use space_db.Base.{
  ℕ, ◌+◌, ◌-◌, [], ◌++◌, none, some, Bool, length, take, drop, ltb, ◌==◌, if◌then◌else◌, Result, ok,
  err, ◌>>=◌, ◌>>◌,
}
use space_db.Base.Exec.{Exec}
use space_db.Bytes.{Bytes, Slice}
use space_db.Bytes.BigEndian.{be, of_be}
use space_db.Types.Int64.{ℤ, pos, negsuc}
use space_db.Storage.Errors.{
  Error, value_too_large, entry_too_large, size_mismatch, invalid_value_size,
}
use space_db.Storage.Disk.FileSystem.{Files}

pub record Position : Type 0 where
  pub entry_offset : ℕ
  pub entry_size : ℕ

-- `len` of a slice that may be nil, and its bytes.
abbrev pub slice_bytes : Slice → Bytes
slice_bytes none = []
slice_bytes (some bs) = bs

-- `int32(n)` for n < 2^32
unfoldable pub int32_of : ℕ → ℤ
int32_of n = if ltb n 2147483648 then pos n else negsuc (4294967295 - n)

-- `storedValueSize`, and `uint32(valueSize)`
abbrev pub stored_bytes : Slice → Bool → Bytes
stored_bytes value deleted = if deleted then [] else slice_bytes value

abbrev pub size_field : Slice → Bool → ℕ
size_field value deleted = if deleted then 4294967295 else length (slice_bytes value)

-- What the buffered writer holds when it is flushed.
unfoldable pub entry_bytes : Bytes → Slice → Bool → Bytes
unfolding be
entry_bytes key value deleted =
    be 4 (length key) ++ be 4 (size_field value deleted) ++ key ++ stored_bytes value deleted

abbrev pub entry_size_of : Bytes → Slice → Bool → ℕ
entry_size_of key value deleted = 8 + length key + length (stored_bytes value deleted)

-- The buffered writer's one `Flush` is the only write. An error of the Seek before it is an error of
-- append_file that writes nothing.
unfoldable pub write_entry : Files → Bytes → Slice → Bool → Exec Bytes Error Position
write_entry f key value deleted file =
    if ltb 2147483647 (length (slice_bytes value))
    then (err value_too_large, file)
    else if ltb 4294967295 (entry_size_of key value deleted)
    then (err entry_too_large, file)
    else let written = f.append_file file (entry_bytes key value deleted) in
      let position : Position = record {
        entry_offset = length file;
        entry_size = entry_size_of key value deleted;
      } in
      (written.0 >> ok position, written.1)

unfoldable pub read_entry : Files → Bytes → ℕ → Result Error (Bytes × ℤ)
read_entry f file offset = do
  header ← f.read_at file 8 offset
  key ← f.read_at file (of_be 0 (take 4 header)) (offset + 8)
  ok (key, int32_of (of_be 0 (drop 4 header)))

unfoldable pub read_value : Files → Bytes → ℕ → ℕ → Result Error Bytes
read_value f file offset size = f.read_at file size offset

-- `readLogValue` behind the call of `readEntry`
unfoldable pub read_checked : Files → Bytes → Position → Bytes → ℤ → Result Error Bytes
read_checked f file position key (negsuc n) = err invalid_value_size
read_checked f file position key (pos n) =
    if 8 + length key + n == position.entry_size
    then read_value f file (position.entry_offset + 8 + length key) n
    else err size_mismatch

unfoldable pub read_log_value : Files → Bytes → Position → Result Error Bytes
read_log_value f file position = do
  (key, value_size) ← read_entry f file position.entry_offset
  read_checked f file position key value_size
