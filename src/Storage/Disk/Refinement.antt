-- ===== src/Storage/Disk/Refinement.antt =====
-- The disk engine against its abstract view: a map from keys to bytes.
use space_db.Base.{◌≡◌, none, ok, if◌then◌else◌}
use space_db.Bytes.{Bytes, Slice, IsBytes}
use space_db.Storage.Entries.{lookup}
use space_db.Storage.Entries.Sorted.{IsAscending, IsDescending}
use space_db.Storage.Engine.{in_range, has_prefix}
use space_db.Storage.BTree.{BTree, IsBTree}
use space_db.Storage.Disk.{DiskEngine, get, set, delete, scan, scan_reverse, scan_prefix}
use space_db.Storage.Disk.FileSystem.{Files, IsFiles}
use space_db.Storage.Disk.Log.{Position, slice_bytes}
use space_db.Storage.Disk.Contents.{Contents, put_key, drop_key, Represents}
use space_db.Storage.Disk.Writes.{
  get-Represents, set-Represents, delete-Represents, RepresentsAfter,
}
use space_db.Storage.Disk.Scans.{
  listed, scan-Represents, scan_reverse-Represents, scan_prefix-Represents,
}

module _ (b : BTree Position) (f : Files) (files : IsFiles f) (trees : IsBTree b) (d : DiskEngine b)
    (m : Contents) (h : Represents b d m) where
  -- Of an open disk engine that represents some contents, with files and trees that do what their
  -- packages document: Get returns with no error what the contents hold under the key, nil for
  -- nothing; a Set or a Delete that returns no error puts the bytes of the value under the key, or
  -- drops the key; one that returns an error, wherever the write of its record stopped, leaves the
  -- contents as they were.
  pub calls-Represents :
      (key : Bytes) (value : Slice)
      → (get b f key d ≡ ok (m key))
        × RepresentsAfter f files b (set b f key value d) (put_key key (slice_bytes value) m) m
        × RepresentsAfter f files b (delete b f key d) (drop_key key m) m
  calls-Represents key value = (
    get-Represents f files b d m key h,
    set-Represents f files b trees d m key value h,
    delete-Represents f files b trees d m key h,
  )

  -- The scans of an open disk engine meet no error and list, each key with its value, the keys that
  -- the contents hold: Scan those of the range in ascending order, ScanReverse the same in descending
  -- order, and ScanPrefix of a prefix of bytes, in ascending order, those keys of bytes that have it.
  pub scans-Represent :
      (lo hi : Slice) (p : Bytes)
      → IsBytes p
      → (((scan b f lo hi d).1 ≡ none)
          × IsAscending (scan b f lo hi d).0
          × ((j : Bytes)
              → lookup j (scan b f lo hi d).0 ≡ (if in_range lo hi j then listed (m j) else none)))
        × (((scan_reverse b f lo hi d).1 ≡ none)
            × IsDescending (scan_reverse b f lo hi d).0
            × ((j : Bytes)
                → lookup j (scan_reverse b f lo hi d).0
                  ≡ (if in_range lo hi j then listed (m j) else none)))
        × (((scan_prefix b f p d).1 ≡ none)
            × IsAscending (scan_prefix b f p d).0
            × ((j : Bytes)
                → IsBytes j
                → lookup j (scan_prefix b f p d).0
                  ≡ (if has_prefix p j then listed (m j) else none)))
  scans-Represent lo hi p hp = (
    scan-Represents f files b trees d m h lo hi,
    scan_reverse-Represents f files b trees d m h lo hi,
    scan_prefix-Represents f files b trees d m h p hp,
  )
