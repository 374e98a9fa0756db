-- ===== src/Tests/Keys.antt =====
-- The keys and the memory engine at concrete inputs.
use space_db.Base.{◌≡◌, refl, [], ◌∷◌, none, some, ok, arith, compare, if◌then◌else◌}
use space_db.Bytes.{Bytes, IsBytes, compare_bytes}
use space_db.Bytes.Order.{then}
use space_db.Storage.Entries.{lookup}
use space_db.Storage.Entries.Sorted.{IsAscending}
use space_db.Storage.Engine.{has_prefix}
use space_db.Storage.Memory.{MemoryEngine, scan_prefix, prefix_end}
use space_db.Storage.Memory.Laws.{scan_prefix-lists}
use space_db.Storage.Key.{
  MvccKey, encode, decode_mvcc_key, versioned_key, transaction_write_key, IsKey, IsVersion,
  versioned_key_prefix, transaction_write_prefix,
}
use space_db.Storage.Key.RoundTrip.{decode_mvcc_key-encode, encode-decode_mvcc_key}
use space_db.Storage.Key.Order.{compare-versioned}

-- The key of version 5 of the raw key `[0, 7]`.
abbrev sample : MvccKey
sample = versioned_key (0 ∷ 7 ∷ []) 5

decode_mvcc_key-encode_example : decode_mvcc_key (encode sample) ≡ ok sample
decode_mvcc_key-encode_example = decode_mvcc_key-encode sample (omega arith, omega arith, tt)

sample_decodes : decode_mvcc_key (encode sample) ≡ ok sample
sample_decodes = decode_mvcc_key-encode sample (omega arith, omega arith, tt)

encode-decode_mvcc_key_example : IsKey sample × (encode sample ≡ encode sample)
encode-decode_mvcc_key_example =
    encode-decode_mvcc_key (encode sample) sample
      (space_db.Storage.Key.RoundTrip.encode-IsBytes sample (omega arith)) sample_decodes

compare-versioned_example :
    compare_bytes (encode (versioned_key (0 ∷ []) 9)) (encode (versioned_key (0 ∷ 7 ∷ []) 5))
    ≡ (then) (compare_bytes (0 ∷ []) (0 ∷ 7 ∷ [])) (compare 9 5)
compare-versioned_example = compare-versioned (0 ∷ []) (0 ∷ 7 ∷ []) 9 5 (omega arith) (omega arith)

-- The bound of a prefix that ends with 0xff, and of one that has no upper bound.
prefix_end_carry : prefix_end (1 ∷ 255 ∷ []) ≡ some (2 ∷ [])
unfolding prefix_end
prefix_end_carry = refl

prefix_end-none : prefix_end (255 ∷ 255 ∷ []) ≡ none
unfolding prefix_end
prefix_end-none = refl

abbrev two_entries : MemoryEngine
two_entries = record { entries = (3 ∷ [], some (9 ∷ [])) ∷ (1 ∷ [], none) ∷ [] }

abbrev other_order : MemoryEngine
other_order = record { entries = (1 ∷ [], none) ∷ (3 ∷ [], some (9 ∷ [])) ∷ [] }

scan_prefix-lists_example :
    IsAscending (scan_prefix (3 ∷ []) two_entries).0
    × ((j : Bytes)
        → IsBytes j
        → lookup j (scan_prefix (3 ∷ []) two_entries).0
          ≡ (if has_prefix (3 ∷ []) j then lookup j two_entries.entries else none))
unfolding lookup compare_bytes
scan_prefix-lists_example = scan_prefix-lists (3 ∷ []) two_entries (omega arith) (refl, (refl, tt))

same_entries : (k : Bytes) → lookup k two_entries.entries ≡ lookup k other_order.entries
unfolding lookup compare_bytes
same_entries [] = refl
same_entries (a ∷ []) = ground arith
same_entries (a ∷ b ∷ k) = ground arith
