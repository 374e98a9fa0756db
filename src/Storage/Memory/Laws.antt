-- ===== src/Storage/Memory/Laws.antt =====
-- The memory engine keeps the contract of the interface.
use space_db.Base.{◌≡◌, refl, sym, ap, ◌∙◌, Option, none, some, Bool, ok, if◌then◌else◌, arith}
use mathlib.Core.List.{reverse}
use space_db.Bytes.{Bytes, Slice, IsBytes}
use space_db.Storage.Entries.{
  Entries, lookup, IsMap, insert, remove, lookup-insert, lookup-remove, insert-IsMap, remove-IsMap,
}
use space_db.Storage.Entries.Sorted.{
  sort, lookup-sort, sort-IsAscending, IsAscending, IsDescending, ascending_ext,
}
use space_db.Storage.Engine.{IsReliable, in_range, has_prefix, or_nil}
use space_db.Storage.Memory.{
  MemoryEngine, memory_engine, set, get, delete, scan, scan_reverse, scan_prefix, scan_with,
  collect, value_or_nil, prefix_end,
}
use space_db.Storage.Memory.Ranges.{
  lookup-collect, collect-IsMap, reverse-IsDescending, lookup-reverse_list,
}
use space_db.Storage.Memory.Prefix.{in_range-prefix_end}

value_or_nil-or_nil : (o : Option Slice) → value_or_nil o ≡ or_nil o
unfolding value_or_nil
value_or_nil-or_nil none = refl
value_or_nil-or_nil (some v) = refl

module _ (lo hi : Slice) (me : MemoryEngine) where
  sorted_part : IsMap me.entries → IsAscending (sort (collect lo hi me.entries))
  sorted_part h = sort-IsAscending (collect lo hi me.entries) (collect-IsMap lo hi me.entries h)

  pub scan-IsAscending : IsMap me.entries → IsAscending (scan lo hi me).0
  unfolding scan
  scan-IsAscending h = sorted_part h

  pub lookup-scan :
      (j : Bytes)
      → lookup j (scan lo hi me).0 ≡ (if in_range lo hi j then lookup j me.entries else none)
  unfolding scan
  lookup-scan j = lookup-sort j (collect lo hi me.entries) ∙ lookup-collect lo hi j me.entries

  pub reverse_scan-IsDescending : IsMap me.entries → IsDescending (scan_reverse lo hi me).0
  unfolding scan_reverse
  reverse_scan-IsDescending h =
      reverse-IsDescending (sort (collect lo hi me.entries)) (sorted_part h)

  pub lookup-scan_reverse :
      (j : Bytes)
      → IsMap me.entries
      → lookup j (scan_reverse lo hi me).0
        ≡ (if in_range lo hi j then lookup j me.entries else none)
  unfolding scan_reverse
  lookup-scan_reverse j h =
      lookup-reverse_list j (sort (collect lo hi me.entries)) (sorted_part h)
      ∙ lookup-sort j (collect lo hi me.entries)
      ∙ lookup-collect lo hi j me.entries

pub lookup-scan_prefix :
    (p j : Bytes) (me : MemoryEngine)
    → IsBytes p
    → IsBytes j
    → lookup j (scan_prefix p me).0 ≡ (if has_prefix p j then lookup j me.entries else none)
unfolding scan_prefix
lookup-scan_prefix p j me hp hj =
    lookup-scan (some p) (prefix_end p) me j
    ∙ ap (λ t. if t then lookup j me.entries else none) (in_range-prefix_end p j hp hj)

pub scan_prefix_finds :
    (p j : Bytes) (v : Slice) (me : MemoryEngine)
    → lookup j (scan_prefix p me).0 ≡ some v
    → lookup j me.entries ≡ some v
unfolding scan_prefix
scan_prefix_finds p j v me h = ground (arith, lookup-scan (some p) (prefix_end p) me j)

pub get_or_nil : (k : Bytes) (me : MemoryEngine) → get k me ≡ ok (or_nil (lookup k me.entries))
unfolding get
get_or_nil k me = ap ok (value_or_nil-or_nil (lookup k me.entries))

pub set_inserts :
    (k : Bytes) (v : Slice) (me : MemoryEngine)
    → set k v me ≡ (ok tt, record { entries = insert k v me.entries })
unfolding set
set_inserts k v me = refl

pub delete_removes :
    (k : Bytes) (me : MemoryEngine)
    → delete k me ≡ (ok tt, record { entries = remove k me.entries })
unfolding delete
delete_removes k me = refl

pub scan_succeeds : (lo hi : Slice) (me : MemoryEngine) → (scan lo hi me).1 ≡ none
unfolding scan
scan_succeeds lo hi me = refl

pub scan_reverse_succeeds : (lo hi : Slice) (me : MemoryEngine) → (scan_reverse lo hi me).1 ≡ none
unfolding scan_reverse
scan_reverse_succeeds lo hi me = refl

pub scan_prefix_succeeds : (p : Bytes) (me : MemoryEngine) → (scan_prefix p me).1 ≡ none
unfolding scan_prefix scan
scan_prefix_succeeds p me = refl

pub scan_prefix-IsAscending :
    (p : Bytes) (me : MemoryEngine) → IsMap me.entries → IsAscending (scan_prefix p me).0
unfolding scan_prefix
scan_prefix-IsAscending p me h = scan-IsAscending (some p) (prefix_end p) me h

abbrev pub memory_laws : IsReliable memory_engine
memory_laws = record {
  IsValid = λ me. IsMap me.entries;
  find = λ k me. lookup k me.entries;
  put = λ k v me. record { entries = insert k v me.entries };
  drop_key = λ k me. record { entries = remove k me.entries };
  get_find = get_or_nil;
  set_put = set_inserts;
  delete_drop_key = delete_removes;
  put-IsValid = λ k v s h. insert-IsMap k v s.entries h;
  drop_key-IsValid = λ k s h. remove-IsMap k s.entries h;
  find-put = λ k j v s. lookup-insert k j v s.entries;
  find-drop_key = λ k j s. lookup-remove k j s.entries;
  scan_succeeds = scan_succeeds;
  scan-IsAscending = scan-IsAscending;
  lookup-scan = λ lo hi j s. lookup-scan lo hi s j;
  reverse_succeeds = scan_reverse_succeeds;
  reverse-IsDescending = reverse_scan-IsDescending;
  lookup-reverse = λ lo hi j s. lookup-scan_reverse lo hi s j;
  prefix_succeeds = scan_prefix_succeeds;
  prefix-IsAscending = scan_prefix-IsAscending;
  lookup-prefix = lookup-scan_prefix;
  prefix_finds = scan_prefix_finds;
}

sorted_part_ext :
    (lo hi : Slice) (a b : Entries)
    → IsMap a
    → IsMap b
    → ((k : Bytes) → lookup k a ≡ lookup k b)
    → sort (collect lo hi a) ≡ sort (collect lo hi b)
sorted_part_ext lo hi a b ha hb same =
    ascending_ext (sort (collect lo hi a)) (sort (collect lo hi b))
      (sort-IsAscending (collect lo hi a) (collect-IsMap lo hi a ha))
      (sort-IsAscending (collect lo hi b) (collect-IsMap lo hi b hb))
      (λ j.
        rw (lookup-sort, lookup-collect)
          (ap (λ o. if in_range lo hi j then o else none) (same j)
            ∙ sym (lookup-sort j (collect lo hi b) ∙ lookup-collect lo hi j b)))

-- Two memory engines that hold the same values under the same keys, each key once, answer a scan
-- alike, in whatever order the maps iterate over them.
pub scan_with_ext :
    (lo hi : Slice) (reversed : Bool) (a b : MemoryEngine)
    → IsMap a.entries
    → IsMap b.entries
    → ((k : Bytes) → lookup k a.entries ≡ lookup k b.entries)
    → scan_with lo hi reversed a ≡ scan_with lo hi reversed b
unfolding scan_with
scan_with_ext lo hi reversed a b ha hb same =
    ap (λ l. (if reversed then reverse l else l, none))
      (sorted_part_ext lo hi a.entries b.entries ha hb same)

-- Over a map that holds a key once, a scan of a range lists the entries whose keys are in the
-- range, in ascending order, and the reverse scan lists the same ones in descending order;
-- neither lists anything else.
pub scan-lists :
    (lo hi : Slice) (me : MemoryEngine)
    → IsMap me.entries
    → (IsAscending (scan lo hi me).0 × IsDescending (scan_reverse lo hi me).0)
      × ((j : Bytes)
          → (lookup j (scan lo hi me).0 ≡ (if in_range lo hi j then lookup j me.entries else none))
            × (lookup j (scan_reverse lo hi me).0
                ≡ (if in_range lo hi j then lookup j me.entries else none)))
scan-lists lo hi me h = (
  (scan-IsAscending lo hi me h, reverse_scan-IsDescending lo hi me h),
  λ j. (lookup-scan lo hi me j, lookup-scan_reverse lo hi me j h),
)

-- A scan of a prefix of bytes, over a map that holds a key once, is in ascending order and lists
-- those entries with keys of bytes that have the prefix, and no others.
pub scan_prefix-lists :
    (p : Bytes) (me : MemoryEngine)
    → IsBytes p
    → IsMap me.entries
    → IsAscending (scan_prefix p me).0
      × ((j : Bytes)
          → IsBytes j
          → lookup j (scan_prefix p me).0 ≡ (if has_prefix p j then lookup j me.entries else none))
scan_prefix-lists p me hp h =
    (scan_prefix-IsAscending p me h, λ j hj. lookup-scan_prefix p j me hp hj)
