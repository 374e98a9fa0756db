-- ===== src/Storage/Versions.antt =====
-- storage/storage.go, the part of the transactions that does not touch the engine: visibility, the
-- encoding of values, and the loops over the records of a scan.
use space_db.Base.{
  ℕ, List, [], ◌∷◌, ◌++◌, Option, none, some, Bool, true, false, Result, ok, err, ltb, leb, ◌==◌,
  if◌then◌else◌, zero, suc, ◌>>=◌,
}
use space_db.Bytes.{Bytes, Slice, bytes_eq, compare_bytes}
use space_db.Storage.Errors.{Error, write_conflict, truncated_value, invalid_value_tag}
use space_db.Storage.Entries.{Entries}
use space_db.Storage.Key.{encode, decode_mvcc_key, decode_version, versioned_key}

-- transactionState, the snapshot that a transaction takes when it begins. The other field of
-- MVCCTransaction is the engine, which the methods take as their state.
pub record Transaction : Type 0 where
  pub version : ℕ
  pub active_versions : List ℕ

unfoldable pub contains : List ℕ → ℕ → Bool
contains [] v = false
contains (x ∷ xs) v = if x == v then true else contains xs v

unfoldable pub is_visible : Transaction → ℕ → Bool
unfolding contains
is_visible t v = if contains t.active_versions v then false else leb v t.version

unfoldable pub decode_versioned_value : Slice → Result Error Slice
decode_versioned_value none = err truncated_value
decode_versioned_value (some []) = err truncated_value
decode_versioned_value (some (zero ∷ rest)) = ok none
decode_versioned_value (some (suc zero ∷ rest)) = ok (some rest)
decode_versioned_value (some (suc (suc b) ∷ rest)) = err (invalid_value_tag (suc (suc b)))

-- `append(encodedValue, value...)`: nil appends nothing.
abbrev pub slice_bytes : Slice → Bytes
slice_bytes none = []
slice_bytes (some bs) = bs

unfoldable pub encode_versioned_value : Slice → Bool → Bytes
encode_versioned_value value deleted = if deleted then 0 ∷ [] else 1 ∷ slice_bytes value

-- The loop of `Begin` over the active markers.
unfoldable pub collect_active : Entries → Option Error → Result Error (List ℕ)
collect_active [] none = ok []
collect_active [] (some e) = err e
collect_active ((k, v) ∷ rest) failure = do
  key ← decode_mvcc_key k
  versions ← collect_active rest failure
  ok (key.at ∷ versions)

unfoldable pub load_next : Slice → Result Error ℕ
load_next none = ok 1
load_next (some encoded) = decode_version encoded

-- The loop of `Commit` over the write set.
unfoldable pub collect_writes : Entries → Option Error → Result Error (List Bytes)
collect_writes [] none = ok []
collect_writes [] (some e) = err e
collect_writes ((k, v) ∷ rest) failure = do
  key ← decode_mvcc_key k
  keys ← collect_writes rest failure
  ok (k ∷ keys)

-- The loop of `Rollback`: each write record and the version that it stands for.
unfoldable pub collect_written : Entries → Option Error → Result Error (List Bytes)
collect_written [] none = ok []
collect_written [] (some e) = err e
collect_written ((k, v) ∷ rest) failure = do
  key ← decode_mvcc_key k
  keys ← collect_written rest failure
  ok (k ∷ encode (versioned_key key.raw_key key.at) ∷ keys)

-- The loop of `Get` over the versions, newest first.
unfoldable pub read_newest : Transaction → Entries → Option Error → Result Error Slice
read_newest t [] none = ok none
read_newest t [] (some e) = err e
read_newest t ((k, v) ∷ rest) failure =
    let older = read_newest t rest failure in
    do key ← decode_mvcc_key k; if is_visible t key.at then decode_versioned_value v else older

-- `fromVersion` of `write`: the least of the active versions and the version after this one.
unfoldable pub from_version : ℕ → List ℕ → ℕ
from_version least [] = least
from_version least (v ∷ vs) = from_version (if ltb v least then v else least) vs

-- The loop of `write`, which ends at the first record.
unfoldable pub check_conflict : Transaction → Entries → Option Error → Result Error (Unit {0})
check_conflict t [] none = ok tt
check_conflict t [] (some e) = err e
check_conflict t ((k, v) ∷ rest) failure = do
  key ← decode_mvcc_key k
  if is_visible t key.at then ok tt else err write_conflict

-- The state of the loop of `ScanPrefix`. `currentKey` is nil at first.
pub record Merge : Type 0 where
  pub current_key : Slice
  pub current_value : Slice
  pub current_visible : Bool
  pub entries : Entries

unfoldable pub flush : Merge → Entries
flush m =
    if m.current_visible
    then m.entries ++ ((slice_bytes m.current_key, m.current_value) ∷ [])
    else m.entries

abbrev is_some : Slice → Bool
is_some none = false
is_some (some b) = true

start_key : Merge → Bytes → Merge
unfolding flush compare_bytes
start_key m raw = if bytes_eq raw (slice_bytes m.current_key) then m else (record {
  current_key = some raw;
  current_value = none;
  current_visible = false;
  entries = flush m;
})

unfoldable pub merge_versions : Transaction → Entries → Option Error → Merge → Result Error Entries
unfolding start_key flush is_visible decode_versioned_value
merge_versions t [] none m = ok (flush m)
merge_versions t [] (some e) m = err e
merge_versions t ((k, v) ∷ rest) failure m = do
  key ← decode_mvcc_key k
  let m' = start_key m key.raw_key
  let older = merge_versions t rest failure m'
  if is_visible t key.at
      then (do
        value ← decode_versioned_value v
        merge_versions t rest failure
            (record m' { current_value = value; current_visible = is_some value }))
      else older
