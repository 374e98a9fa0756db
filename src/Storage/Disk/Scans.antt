-- ===== src/Storage/Disk/Scans.antt =====
-- The scans of the disk engine: the items of the index that they copy, and the values that they
-- read for them.
use space_db.Base.{
  ok-injective, sym, ◌≡◌, refl, ap, ◌∙◌, [], ◌∷◌, Option, none, some, Bool, true, false,
  if◌then◌else◌, ok, err, arith, Bool-cases, inl, inr,
}
use mathlib.Core.Path.{subst}
use space_db.Bytes.{Bytes, Slice, IsBytes}
use space_db.Storage.Entries.{Items, lookup}
use space_db.Storage.Entries.Sorted.{IsAscending, IsDescending}
use space_db.Storage.Entries.Contents.{Each, Each-ascending, Each-descending}
use space_db.Storage.Entries.Valued.{
  with_values, lookup-with_values, with_values-IsAscending, with_values-IsDescending,
}
use space_db.Storage.Engine.{in_range, has_prefix}
use space_db.Storage.Memory.{prefix_end}
use space_db.Storage.Memory.Prefix.{in_range-prefix_end}
use space_db.Storage.BTree.{BTree, IsBTree}
use space_db.Storage.Disk.{
  DiskEngine, empty_range, walk_up, walk_down, snapshot_range, read_items, read_scan_item,
  add_entry, ensure_open, scan_with, scan, scan_reverse, scan_prefix,
}
use space_db.Storage.Disk.FileSystem.{Files, IsFiles}
use space_db.Storage.Disk.Log.{Position}
use space_db.Storage.Disk.Contents.{Contents, Stored, Represents}
use space_db.Storage.Disk.Ranges.{empty_in_range, walk_up-copies, walk_down-copies, ListsRange}
use space_db.Storage.Disk.Writes.{read_held}

-- The record that a scan gives for what the contents hold.
abbrev pub listed : Option Bytes → Option Slice
listed none = none
listed (some v) = some (some v)

-- A position in the file holds the value of the key.
abbrev pub HoldsValue : Bytes → Contents → Bytes → Position → Type 0
HoldsValue file m key position = Stored file key (some position) (m key)

Stored-found :
    (file key : Bytes) (o : Option Position) (v : Option Bytes) (position : Position)
    → o ≡ some position
    → Stored file key o v
    → Stored file key (some position) v
Stored-found file key o v position e h = subst (λ q. Stored file key q v) e h

Stored-listed :
    (file key : Bytes) (o : Option Position) (v : Option Bytes)
    → Stored file key o v
    → elim o [ none ↦ none | some position ↦ some v ] ≡ listed v
Stored-listed file key none none h = refl
Stored-listed file key none (some v) h = absurd h
Stored-listed file key (some position) none h = absurd h
Stored-listed file key (some position) (some v) h = refl

module _ (f : Files) (files : IsFiles f) (b : BTree Position) where
  read_held_item :
      (d : DiskEngine b) (t : b.Tree) (key : Bytes) (position : Position) (v : Option Bytes)
      → d.keydir ≡ some t
      → Stored d.file key (some position) v
      → read_scan_item b f (key, position) d ≡ ok (key, v)
  unfolding read_scan_item ensure_open
  read_held_item d t key position none e h = absurd h
  read_held_item d t key position (some v) e h =
      rw (e, read_held f files d.file key position v h) refl

  pub read_items-with_values :
      (d : DiskEngine b) (t : b.Tree) (m : Contents) (l : Items Position)
      → d.keydir ≡ some t
      → Each (HoldsValue d.file m) l
      → read_items b f l d ≡ (with_values m l, none)
  unfolding read_items add_entry
  read_items-with_values d t m [] e h = refl
  read_items-with_values d t m ((k, p) ∷ l) e h =
      rw (read_held_item d t k p (m k) e h.0, read_items-with_values d t m l e h.1) refl

  scan_with-read_items :
      (lo hi : Slice) (reversed : Bool) (d : DiskEngine b) (l : Items Position)
      → snapshot_range b lo hi reversed d ≡ ok l
      → scan_with b f lo hi reversed d ≡ read_items b f l d
  unfolding scan_with
  scan_with-read_items lo hi reversed d l e =
      ap (λ r. elim r [ err e ↦ ([], some e) | ok items ↦ read_items b f items d ]) e

  module _ (trees : IsBTree b) (d : DiskEngine b) (m : Contents) (h : Represents b d m) where
    -- What a snapshot of the index lists is read back.
    module _ (lo hi : Slice) (l : Items Position) (lists : ListsRange b trees lo hi h.tree l) where
      item_holds : (j : Bytes) (p : Position) → lookup j l ≡ some p → HoldsValue d.file m j p
      item_holds j p found =
          Stored-found d.file j (b.find j h.tree) (m j) p (ground (arith, lists j)) (h.indexed j)

      lookup-values :
          (j : Bytes)
          → lookup j (with_values m l) ≡ (if in_range lo hi j then listed (m j) else none)
      lookup-values j =
          lookup-with_values m j l
          ∙ ground (arith, lists j, Stored-listed d.file j (b.find j h.tree) (m j) (h.indexed j))

    pub snapshot_eq :
        (lo hi : Slice) (reversed : Bool)
        → snapshot_range b lo hi reversed d
          ≡ ok (
              if empty_range lo hi
              then []
              else if reversed
              then walk_down b lo hi h.tree
              else walk_up b lo hi h.tree)
    unfolding snapshot_range ensure_open
    snapshot_eq lo hi reversed = rw h.is_open refl

    empty_lists : (lo hi : Slice) → empty_range lo hi ≡ true → ListsRange b trees lo hi h.tree []
    unfolding lookup
    empty_lists lo hi e j = rw (empty_in_range lo hi j e) refl

    -- The items that a scan copies.
    abbrev pub copied : Slice → Slice → Bool → Items Position
    copied lo hi reversed =
        if empty_range lo hi
        then []
        else if reversed
        then walk_down b lo hi h.tree
        else walk_up b lo hi h.tree

    copied_up :
        (lo hi : Slice)
        → IsAscending (copied lo hi false) × ListsRange b trees lo hi h.tree (copied lo hi false)
    copied_up lo hi = elim (Bool-cases (empty_range lo hi)) [
      | inl e ↦ rw e (tt, empty_lists lo hi e)
      | inr e ↦ rw e (walk_up-copies b trees lo hi h.tree)
    ]

    copied_down :
        (lo hi : Slice)
        → IsDescending (copied lo hi true) × ListsRange b trees lo hi h.tree (copied lo hi true)
    copied_down lo hi = elim (Bool-cases (empty_range lo hi)) [
      | inl e ↦ rw e (tt, empty_lists lo hi e)
      | inr e ↦ rw e (walk_down-copies b trees lo hi h.tree)
    ]

    copied_hold :
        (lo hi : Slice) (reversed : Bool) → Each (HoldsValue d.file m) (copied lo hi reversed)
    copied_hold lo hi false =
        let (up, lists) = copied_up lo hi in
        Each-ascending (HoldsValue d.file m) (copied lo hi false) up
          (item_holds lo hi (copied lo hi false) lists)
    copied_hold lo hi true =
        let (down, lists) = copied_down lo hi in
        Each-descending (HoldsValue d.file m) (copied lo hi true) down
          (item_holds lo hi (copied lo hi true) lists)

    scan_with-eq :
        (lo hi : Slice) (reversed : Bool)
        → scan_with b f lo hi reversed d ≡ (with_values m (copied lo hi reversed), none)
    scan_with-eq lo hi reversed =
        scan_with-read_items lo hi reversed d (copied lo hi reversed) (snapshot_eq lo hi reversed)
        ∙ read_items-with_values d h.tree m (copied lo hi reversed) h.is_open
            (copied_hold lo hi reversed)

    -- A scan of a range by an open disk engine meets no error and lists, in ascending order, the
    -- keys of the range that the contents hold, each with its value, and no others.
    pub scan-Represents :
        (lo hi : Slice)
        → ((scan b f lo hi d).1 ≡ none)
          × IsAscending (scan b f lo hi d).0
          × ((j : Bytes)
              → lookup j (scan b f lo hi d).0 ≡ (if in_range lo hi j then listed (m j) else none))
    unfolding scan
    scan-Represents lo hi =
        let (up, lists) = copied_up lo hi in
        rw (scan_with-eq lo hi false) (
          refl,
          with_values-IsAscending m (copied lo hi false) up,
          lookup-values lo hi (copied lo hi false) lists,
        )

    -- A reverse scan by an open disk engine meets no error and lists the same keys of the range with
    -- their values in descending order.
    pub scan_reverse-Represents :
        (lo hi : Slice)
        → ((scan_reverse b f lo hi d).1 ≡ none)
          × IsDescending (scan_reverse b f lo hi d).0
          × ((j : Bytes)
              → lookup j (scan_reverse b f lo hi d).0
                ≡ (if in_range lo hi j then listed (m j) else none))
    unfolding scan_reverse
    scan_reverse-Represents lo hi =
        let (down, lists) = copied_down lo hi in
        rw (scan_with-eq lo hi true) (
          refl,
          with_values-IsDescending m (copied lo hi true) down,
          lookup-values lo hi (copied lo hi true) lists,
        )

    -- The items of a snapshot of the index have their values in the file.
    pub items_hold :
        (lo hi : Slice) (reversed : Bool) (items : Items Position)
        → snapshot_range b lo hi reversed d ≡ ok items
        → Each (HoldsValue d.file m) items
    items_hold lo hi reversed items e =
        subst (Each (HoldsValue d.file m)) (ok-injective (sym (snapshot_eq lo hi reversed) ∙ e))
          (copied_hold lo hi reversed)

    -- The items of a snapshot of the index are those of the range.
    pub items_listed :
        (lo hi : Slice) (reversed : Bool) (items : Items Position)
        → snapshot_range b lo hi reversed d ≡ ok items
        → ListsRange b trees lo hi h.tree items
    items_listed lo hi false items e =
        subst (ListsRange b trees lo hi h.tree) (ok-injective (sym (snapshot_eq lo hi false) ∙ e))
          (copied_up lo hi).1
    items_listed lo hi true items e =
        subst (ListsRange b trees lo hi h.tree) (ok-injective (sym (snapshot_eq lo hi true) ∙ e))
          (copied_down lo hi).1

    -- A scan of a prefix of bytes by an open disk engine meets no error and lists, in ascending order,
    -- those of the keys of bytes that the contents hold which have the prefix, each with its value.
    pub scan_prefix-Represents :
        (p : Bytes)
        → IsBytes p
        → ((scan_prefix b f p d).1 ≡ none)
          × IsAscending (scan_prefix b f p d).0
          × ((j : Bytes)
              → IsBytes j
              → lookup j (scan_prefix b f p d).0 ≡ (if has_prefix p j then listed (m j) else none))
    unfolding scan_prefix
    scan_prefix-Represents p hp =
        let (none_met, up, lists) = scan-Represents (some p) (prefix_end p) in
        (
          none_met,
          up,
          λ j hj.
              lists j ∙ ap (λ t. if t then listed (m j) else none) (in_range-prefix_end p j hp hj),
        )
