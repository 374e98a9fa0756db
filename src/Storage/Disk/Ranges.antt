-- ===== src/Storage/Disk/Ranges.antt =====
-- The range of the index that the scans of the disk engine copy.
use space_db.Base.{
  ◌≡◌, refl, sym, ap, ◌∙◌, [], ◌∷◌, none, some, Bool, true, false, not, if◌then◌else◌, arith,
  Bool-cases, inl, inr,
}
use mathlib.Core.List.{reverse}
use space_db.Bytes.{Bytes, Slice, bytes_lt}
use space_db.Bytes.Order.{compare_trans, compare_swap_gt, compare_swap_lt, eq_of_compare}
use space_db.Storage.Entries.{Items, lookup}
use space_db.Storage.Entries.Sorted.{IsAscending, IsDescending, Below}
use space_db.Storage.Entries.Filtered.{
  keep_if, lookup-keep_if, keep_if-IsAscending, keep_if-IsDescending, keep_all,
}
use space_db.Storage.Memory.Ranges.{reverse-IsDescending, lookup-reverse_list}
use space_db.Storage.Engine.{in_range}
use space_db.Storage.BTree.{BTree, IsBTree}
use space_db.Storage.Disk.{empty_range, walk_up, walk_down, append_reverse, at_or_above, below}
use space_db.Storage.Disk.Log.{Position}

pub empty_in_range :
    (lo hi : Slice) (k : Bytes) → empty_range lo hi ≡ true → in_range lo hi k ≡ false
unfolding empty_range
empty_in_range none hi k h = cc
empty_in_range (some lo) none k h = cc
empty_in_range (some lo) (some hi) k h =
    ground (arith, compare_trans lo k hi, compare_swap_gt k lo, eq_of_compare k lo)

at_or_above-in_range :
    (lo hi : Slice) (k : Bytes) → at_or_above hi k ≡ true → in_range lo hi k ≡ false
unfolding at_or_above
at_or_above-in_range lo none k h = cc
at_or_above-in_range none (some hi) k h = ground arith
at_or_above-in_range (some lo) (some hi) k h = ground arith

below-in_range : (lo hi : Slice) (k : Bytes) → below lo k ≡ true → in_range lo hi k ≡ false
unfolding below
below-in_range none hi k h = cc
below-in_range (some lo) none k h = ground arith
below-in_range (some lo) (some hi) k h = ground arith

inside-in_range :
    (lo hi : Slice) (k : Bytes)
    → at_or_above hi k ≡ false
    → below lo k ≡ false
    → in_range lo hi k ≡ true
unfolding at_or_above below
inside-in_range none none k h g = refl
inside-in_range none (some hi) k h g = ground arith
inside-in_range (some lo) none k h g = ground arith
inside-in_range (some lo) (some hi) k h g = ground arith

below_trans :
    (lo : Slice) (j k : Bytes) → below lo k ≡ true → bytes_lt j k ≡ true → below lo j ≡ true
unfolding below
below_trans none j k h g = cc
below_trans (some lo) j k h g = ground (arith, compare_trans j k lo)

-- Behind a key below the range a descending walk meets no key of the range.
module _ {V : Type 0} where
  nothing_below :
      (lo hi : Slice) (k : Bytes) (l : Items V)
      → below lo k ≡ true
      → Below k l
      → keep_if (in_range lo hi) l ≡ []
  unfolding keep_if
  nothing_below lo hi k [] h a = refl
  nothing_below lo hi k ((j, v) ∷ l) h a =
      rw (below-in_range lo hi j (below_trans lo j k h a.0)) (nothing_below lo hi k l h a.1)

append_reverse-keep_if :
    (lo hi : Slice) (l : Items Position)
    → IsDescending l
    → append_reverse lo hi l ≡ keep_if (in_range lo hi) l
unfolding append_reverse keep_if
append_reverse-keep_if lo hi [] a = refl
append_reverse-keep_if lo hi ((k, p) ∷ l) a = elim (Bool-cases (at_or_above hi k)) [
  | inl high ↦ rw (high, at_or_above-in_range lo hi k high, append_reverse-keep_if lo hi l a.1) refl
  | inr low ↦ elim (Bool-cases (below lo k)) [
    | inl end' ↦
        rw (low, end', below-in_range lo hi k end') (sym (nothing_below lo hi k l end' a.0))
    | inr inside ↦
        rw (low, inside, inside-in_range lo hi k low inside, append_reverse-keep_if lo hi l a.1)
          refl
  ]
]

module _ (b : BTree Position) (trees : IsBTree b) where
  pub walk_up-keep_if :
      (lo hi : Slice) (t : b.Tree) → walk_up b lo hi t ≡ keep_if (in_range lo hi) (b.ascend t)
  unfolding walk_up
  walk_up-keep_if (some lo) (some hi) t = trees.ascend_range_lem lo hi t
  walk_up-keep_if (some lo) none t = trees.ascend_greater_or_equal_lem lo t
  walk_up-keep_if none (some hi) t = trees.ascend_less_than_lem hi t
  walk_up-keep_if none none t = sym (keep_all (in_range none none) (b.ascend t) (λ k. refl))

  up_to-in_range :
      (lo : Slice) (hi j : Bytes) → in_range lo (some hi) j ≡ true → not (bytes_lt hi j) ≡ true
  up_to-in_range none hi j h = ground (arith, compare_swap_lt hi j)
  up_to-in_range (some lo) hi j h = ground (arith, compare_swap_lt hi j)

  -- The items that `copied` lists are those of the range.
  abbrev pub ListsRange : Slice → Slice → b.Tree → Items Position → Type 0
  ListsRange lo hi t copied =
      (j : Bytes) → lookup j copied ≡ (if in_range lo hi j then b.find j t else none)

  walk_up-lists : (lo hi : Slice) (t : b.Tree) → ListsRange lo hi t (walk_up b lo hi t)
  walk_up-lists lo hi t j =
      ap (lookup j) (walk_up-keep_if lo hi t)
      ∙ lookup-keep_if (in_range lo hi) j (b.ascend t)
      ∙ ap (λ o. if in_range lo hi j then o else none) (trees.lookup-ascend j t)

  walk_up-IsAscending : (lo hi : Slice) (t : b.Tree) → IsAscending (walk_up b lo hi t)
  walk_up-IsAscending lo hi t =
      rw (walk_up-keep_if lo hi t)
        (keep_if-IsAscending (in_range lo hi) (b.ascend t) (trees.ascend-IsAscending t))

  -- From the greatest item down: all of them, or those up to a bound.
  module _ (lo hi : Slice) (t : b.Tree) (test : Bytes → Bool) where
    abbrev walked : Items Position
    walked = reverse (keep_if test (b.ascend t))

    walked-IsDescending : IsDescending walked
    walked-IsDescending =
        reverse-IsDescending (keep_if test (b.ascend t))
          (keep_if-IsAscending test (b.ascend t) (trees.ascend-IsAscending t))

    kept-IsDescending : IsDescending (append_reverse lo hi walked)
    kept-IsDescending =
        rw (append_reverse-keep_if lo hi walked walked-IsDescending)
          (keep_if-IsDescending (in_range lo hi) walked walked-IsDescending)

    lookup-walked : (j : Bytes) → lookup j walked ≡ (if test j then b.find j t else none)
    lookup-walked j =
        lookup-reverse_list j (keep_if test (b.ascend t))
          (keep_if-IsAscending test (b.ascend t) (trees.ascend-IsAscending t))
        ∙ lookup-keep_if test j (b.ascend t)
        ∙ ap (λ o. if test j then o else none) (trees.lookup-ascend j t)

    kept-lists :
        ((j : Bytes) → in_range lo hi j ≡ true → test j ≡ true)
        → ListsRange lo hi t (append_reverse lo hi walked)
    kept-lists h j =
        ap (lookup j) (append_reverse-keep_if lo hi walked walked-IsDescending)
        ∙ lookup-keep_if (in_range lo hi) j walked
        ∙ ground (arith, lookup-walked j, h j)

  pub walk_down-copies :
      (lo hi : Slice) (t : b.Tree)
      → IsDescending (walk_down b lo hi t) × ListsRange lo hi t (walk_down b lo hi t)
  unfolding walk_down
  walk_down-copies lo none t =
      let all : b.descend t ≡ walked lo none t (λ k. true) =
        trees.descend_lem t ∙ ap reverse (sym (keep_all (λ k. true) (b.ascend t) (λ k. refl))) in
      rw all
        (kept-IsDescending lo none t (λ k. true), kept-lists lo none t (λ k. true) (λ j h. refl))
  walk_down-copies lo (some hi) t = rw (trees.descend_less_or_equal_lem hi t) (
    kept-IsDescending lo (some hi) t (λ k. not (bytes_lt hi k)),
    kept-lists lo (some hi) t (λ k. not (bytes_lt hi k)) (λ j. up_to-in_range lo hi j),
  )

  pub walk_up-copies :
      (lo hi : Slice) (t : b.Tree)
      → IsAscending (walk_up b lo hi t) × ListsRange lo hi t (walk_up b lo hi t)
  walk_up-copies lo hi t = (walk_up-IsAscending lo hi t, walk_up-lists lo hi t)
