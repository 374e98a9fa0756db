-- ===== src/Storage/Entries/Sorted.antt =====
-- Sorting records by key, as `slices.SortFunc` does with `bytes.Compare`, and what determines the
-- result.
use space_db.Base.{
  ◌≡◌, ◌∙◌, sym, refl, ap, [], ◌∷◌, none, some, true, false, if◌then◌else◌, arith, Bool-cases, inl,
  inr,
}
use mathlib.Core.Path.{ap₂}
use space_db.Bytes.{Bytes, bytes_eq, bytes_lt}
use space_db.Bytes.Order.{
  bytes_eq_iff, compare_trans, compare_refl, compare_swap_gt, compare_swap_lt,
}
use space_db.Storage.Entries.{Items, lookup, IsMap}

above_of_ge : (j k : Bytes) → bytes_lt j k ≡ false → bytes_eq j k ≡ false → bytes_lt k j ≡ true
above_of_ge j k h e = ground (arith, compare_swap_gt j k)

pub not_both_lt : (a b : Bytes) → bytes_lt a b ≡ true → bytes_lt b a ≡ true → ⊥
not_both_lt a b h k = ground (arith, compare_swap_lt a b)

module _ {V : Type 0} where
  insert_sorted : Bytes → V → Items V → Items V
  insert_sorted k v [] = (k, v) ∷ []
  insert_sorted k v ((j, w) ∷ l) =
      let rest = insert_sorted k v l in if bytes_lt j k then (j, w) ∷ rest else (k, v) ∷ (j, w) ∷ l

  -- An insertion sort: with distinct keys every sort gives this result.
  unfoldable pub sort : Items V → Items V
  unfolding insert_sorted
  sort [] = []
  sort ((k, v) ∷ m) = insert_sorted k v (sort m)

  -- All keys lie above `k`.
  abbrev pub Above : Bytes → Items V → Type 0
  Above k [] = Unit
  Above k ((j, w) ∷ l) = (bytes_lt k j ≡ true) × Above k l

  abbrev pub IsAscending : Items V → Type 0
  IsAscending [] = Unit
  IsAscending ((k, v) ∷ l) = Above k l × IsAscending l

  lookup-insert_sorted :
      (k j : Bytes) (v : V) (l : Items V)
      → lookup j (insert_sorted k v l) ≡ (if bytes_eq k j then some v else lookup j l)
  unfolding lookup insert_sorted
  lookup-insert_sorted k j v [] = refl
  lookup-insert_sorted k j v ((i, w) ∷ l) = ground (
    arith,
    lookup-insert_sorted k j v l,
    bytes_eq_iff i k,
    bytes_eq_iff i j,
    bytes_eq_iff k j,
    compare_refl i,
  )

  pub lookup-sort : (j : Bytes) (m : Items V) → lookup j (sort m) ≡ lookup j m
  unfolding lookup sort
  lookup-sort j [] = refl
  lookup-sort j ((k, v) ∷ m) =
      lookup-insert_sorted k j v (sort m)
      ∙ ap (λ o. if bytes_eq k j then some v else o) (lookup-sort j m)

  pub Above-trans : (a b : Bytes) (l : Items V) → bytes_lt a b ≡ true → Above b l → Above a l
  Above-trans a b [] h k = tt
  Above-trans a b ((j, w) ∷ l) h k = (ground (arith, compare_trans a b j), Above-trans a b l h k.1)

  Above-insert_sorted :
      (a k : Bytes) (v : V) (l : Items V)
      → bytes_lt a k ≡ true
      → Above a l
      → Above a (insert_sorted k v l)
  unfolding insert_sorted
  Above-insert_sorted a k v [] h b = (h, tt)
  Above-insert_sorted a k v ((j, w) ∷ l) h b = elim (Bool-cases (bytes_lt j k)) [
    | inl lt ↦ rw lt (b.0, Above-insert_sorted a k v l h b.1)
    | inr ge ↦ rw ge (h, b)
  ]

  insert_sorted-IsAscending :
      (k : Bytes) (v : V) (l : Items V)
      → lookup k l ≡ none
      → IsAscending l
      → IsAscending (insert_sorted k v l)
  unfolding insert_sorted lookup
  insert_sorted-IsAscending k v [] h a = (tt, tt)
  insert_sorted-IsAscending k v ((j, w) ∷ l) h a = elim (Bool-cases (bytes_lt j k)) [
    | inl lt ↦ rw lt (
      Above-insert_sorted j k v l lt a.0,
      insert_sorted-IsAscending k v l (ground (arith, h)) a.1,
    )
    | inr ge ↦
        let other : bytes_eq j k ≡ false = ground arith in
        let low : bytes_lt k j ≡ true = above_of_ge j k ge other in
        rw ge ((low, Above-trans k j l low a.0), a)
  ]

  pub sort-IsAscending : (m : Items V) → IsMap m → IsAscending (sort m)
  unfolding sort
  sort-IsAscending [] h = tt
  sort-IsAscending ((k, v) ∷ m) h =
      insert_sorted-IsAscending k v (sort m) (lookup-sort k m ∙ h.0) (sort-IsAscending m h.1)

  pub lookup_below : (k : Bytes) (l : Items V) → Above k l → lookup k l ≡ none
  unfolding lookup
  lookup_below k [] h = refl
  lookup_below k ((j, w) ∷ l) h =
      ground (arith, bytes_eq_iff j k, compare_refl k, lookup_below k l h.1)

  -- All keys lie below `k`.
  abbrev pub Below : Bytes → Items V → Type 0
  Below k [] = Unit
  Below k ((j, w) ∷ l) = (bytes_lt j k ≡ true) × Below k l

  abbrev pub IsDescending : Items V → Type 0
  IsDescending [] = Unit
  IsDescending ((k, v) ∷ l) = Below k l × IsDescending l

  pub lt_of_lookup :
      (k j : Bytes) (v : V) (l : Items V) → Above k l → lookup j l ≡ some v → bytes_lt k j ≡ true
  unfolding lookup
  lt_of_lookup k j v [] a h = cc
  lt_of_lookup k j v ((i, w) ∷ l) a h = elim (Bool-cases (bytes_eq i j)) [
    | inl same ↦ rw (← (bytes_eq_iff i j).0 same) (a.0)
    | inr other ↦ lt_of_lookup k j v l a.1 (rw other at h)
  ]

  head_of_lookup :
      (k j : Bytes) (v w : V) (l m : Items V)
      → Above k l
      → Above j m
      → lookup k ((k, v) ∷ l) ≡ lookup k ((j, w) ∷ m)
      → lookup j ((k, v) ∷ l) ≡ lookup j ((j, w) ∷ m)
      → (k ≡ j) × (v ≡ w)
  unfolding lookup
  head_of_lookup k j v w l m a b hk hj = elim (Bool-cases (bytes_eq k j)) [
    | inl same ↦
        let e = (bytes_eq_iff k j).0 same in (e, ground (arith, compare_refl j, compare_refl k))
    | inr other ↦ ground (
      arith,
      bytes_eq_iff k j,
      bytes_eq_iff j k,
      compare_refl j,
      compare_refl k,
      lt_of_lookup k j w l a,
      lt_of_lookup j k v m b,
      not_both_lt k j,
    )
  ]

  tail_of_lookup :
      (k i : Bytes) (v : V) (l m : Items V)
      → Above k l
      → Above k m
      → lookup i ((k, v) ∷ l) ≡ lookup i ((k, v) ∷ m)
      → lookup i l ≡ lookup i m
  unfolding lookup
  tail_of_lookup k i v l m a b h = elim (Bool-cases (bytes_eq k i)) [
    | inl same ↦
        let e = (bytes_eq_iff k i).0 same in
        rw (← e) (lookup_below k l a ∙ sym (lookup_below k m b))
    | inr other ↦ rw other at h
  ]

  -- An ascending list is determined by what it finds.
  pub ascending_ext :
      (l m : Items V)
      → IsAscending l
      → IsAscending m
      → ((j : Bytes) → lookup j l ≡ lookup j m)
      → l ≡ m
  unfolding lookup
  ascending_ext [] [] a b same = refl
  ascending_ext [] ((k, v) ∷ m) a b same = ground (arith, same k, bytes_eq_iff k k)
  ascending_ext ((k, v) ∷ l) [] a b same = ground (arith, same k, bytes_eq_iff k k)
  ascending_ext ((k, v) ∷ l) ((j, w) ∷ m) a b same =
      let (ek, ev) = head_of_lookup k j v w l m a.0 b.0 (same k) (same j) in
      let above : Above k m = rw ek b.0 in
      let tails : (i : Bytes) → lookup i l ≡ lookup i m =
        λ i. tail_of_lookup k i v l m a.0 above (rw (← ek, ← ev) at (same i)) in
      ap₂ (λ x r. x ∷ r) (ap₂ (λ x y. (x, y)) ek ev) (ascending_ext l m a.1 b.1 tails)
