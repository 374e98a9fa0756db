-- ===== src/Storage/Memory.antt =====
-- storage/memory.go: the engine over a Go map, and the upper bound of a prefix.
pub mod Prefix
pub mod Ranges
pub mod Laws
use space_db.Base.{
  ℕ, zero, suc, ◌+◌, ◌%◌, ◌≡◌, List, [], ◌∷◌, Option, none, some, Bool, true, false, not, length,
  get_or, set_elem, take, ◌==◌, if◌then◌else◌, Result, ok,
}
use mathlib.Core.List.{reverse}
use space_db.Bytes.{Bytes, Slice, bytes_lt, compare_bytes}
use space_db.Storage.Errors.{Error}
use space_db.Storage.Entries.{Entry, Entries, lookup, remove, insert}
use space_db.Storage.Entries.Sorted.{sort}
use space_db.Storage.Engine.{Engine, Scan}

pub record MemoryEngine : Type 0 where
  pub entries : Entries

abbrev pub new_memory_engine : MemoryEngine
new_memory_engine = record { entries = [] }

-- The copies that `bytes.Clone` makes are values here.
unfoldable pub set : Bytes → Slice → MemoryEngine → Result Error (Unit {0}) × MemoryEngine
unfolding insert
set key value me = (ok tt, record { entries = insert key value me.entries })

value_or_nil : Option Slice → Slice
value_or_nil none = none
value_or_nil (some v) = v

unfoldable pub get : Bytes → MemoryEngine → Result Error Slice
unfolding lookup value_or_nil
get key me = ok (value_or_nil (lookup key me.entries))

unfoldable pub delete : Bytes → MemoryEngine → Result Error (Unit {0}) × MemoryEngine
unfolding remove
delete key me = (ok tt, record { entries = remove key me.entries })

-- The two `continue`s of `scan`.
unfoldable pub skipped : Slice → Slice → Bytes → Bool
unfolding compare_bytes
skipped none none k = false
skipped none (some hi) k = not (bytes_lt k hi)
skipped (some lo) none k = bytes_lt k lo
skipped (some lo) (some hi) k = if bytes_lt k lo then true else not (bytes_lt k hi)

unfoldable pub collect : Slice → Slice → Entries → Entries
unfolding skipped
collect start end' [] = []
collect start end' ((k, v) ∷ m) =
    let rest = collect start end' m in if skipped start end' k then rest else (k, v) ∷ rest

unfoldable pub scan_with : Slice → Slice → Bool → MemoryEngine → Scan
unfolding collect sort
scan_with start end' reversed me =
    let entries = sort (collect start end' me.entries) in
    (if reversed then reverse entries else entries, none)

unfoldable pub scan : Slice → Slice → MemoryEngine → Scan
unfolding scan_with
scan start end' = scan_with start end' false

unfoldable pub scan_reverse : Slice → Slice → MemoryEngine → Scan
unfolding scan_with
scan_reverse start end' = scan_with start end' true

-- The loop of `prefixEnd` from the index below the counter down.
prefix_end_loop : ℕ → Bytes → Slice
prefix_end_loop zero bs = none
prefix_end_loop (suc i) bs =
    let next = prefix_end_loop i bs in
    if get_or bs i 0 == 0xff
    then next
    else some (take (suc i) (set_elem bs i ((get_or bs i 0 + 1) % 256)))

unfoldable pub prefix_end : Bytes → Slice
unfolding prefix_end_loop
prefix_end bs = prefix_end_loop (length bs) bs

unfoldable pub scan_prefix : Bytes → MemoryEngine → Scan
unfolding scan prefix_end
scan_prefix bs = scan (some bs) (prefix_end bs)

unfoldable pub scan_prefix_reverse : Bytes → MemoryEngine → Scan
unfolding scan_reverse prefix_end
scan_prefix_reverse bs = scan_reverse (some bs) (prefix_end bs)

-- `var _ Engine = (*MemoryEngine)(nil)`
abbrev pub memory_engine : Engine
memory_engine = record {
  State = MemoryEngine;
  set = set;
  get = get;
  delete = delete;
  scan = scan;
  scan_reverse = scan_reverse;
  scan_prefix = scan_prefix;
  scan_prefix_reverse = scan_prefix_reverse;
}
