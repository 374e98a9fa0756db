-- ===== src/Storage/Entries/Contents.antt =====
-- What is known of every record that a sorted list finds is known of its members.
use space_db.Base.{◌≡◌, ◌∙◌, [], ◌∷◌, some, true, Bool-cases, inl, inr, arith, ◌≢◌}
use space_db.Bytes.{Bytes, bytes_eq, bytes_lt}
use space_db.Bytes.Order.{bytes_eq_iff, compare_refl}
use space_db.Storage.Entries.{Items, lookup}
use space_db.Storage.Entries.Sorted.{Above, Below, IsAscending, IsDescending, lt_of_lookup}

not_lt_self : (k : Bytes) → bytes_lt k k ≢ true
not_lt_self k h = ground (arith, compare_refl k)

module _ {V : Type 0} where
  abbrev pub Each : (Bytes → V → Type 0) → Items V → Type 0
  Each P [] = Unit
  Each P ((k, v) ∷ l) = P k v × Each P l

  pub gt_of_lookup :
      (k j : Bytes) (v : V) (l : Items V) → Below k l → lookup j l ≡ some v → bytes_lt j k ≡ true
  unfolding lookup
  gt_of_lookup k j v [] a h = cc
  gt_of_lookup k j v ((i, w) ∷ l) a h = elim (Bool-cases (bytes_eq i j)) [
    | inl same ↦ rw (← (bytes_eq_iff i j).0 same) (a.0)
    | inr other ↦ gt_of_lookup k j v l a.1 (rw other at h)
  ]

  pub lookup_head : (k : Bytes) (v : V) (l : Items V) → lookup k ((k, v) ∷ l) ≡ some v
  unfolding lookup
  lookup_head k v l = ground (arith, compare_refl k)

  pub lookup_tail : (k j : Bytes) (v : V) (l : Items V) → k ≢ j → lookup j ((k, v) ∷ l) ≡ lookup j l
  unfolding lookup
  lookup_tail k j v l h = ground (arith, bytes_eq_iff k j)

  -- A key found behind the head is not the head's.
  pub ne_of_Below : (k j : Bytes) (v : V) (l : Items V) → Below k l → lookup j l ≡ some v → k ≢ j
  ne_of_Below k j v l b h e = not_lt_self k (rw (← e) at (gt_of_lookup k j v l b h))

  pub ne_of_Above : (k j : Bytes) (v : V) (l : Items V) → Above k l → lookup j l ≡ some v → k ≢ j
  ne_of_Above k j v l b h e = not_lt_self k (rw (← e) at (lt_of_lookup k j v l b h))

  module _ (P : Bytes → V → Type 0) where
    pub Each-descending :
        (l : Items V)
        → IsDescending l
        → ((j : Bytes) (v : V) → lookup j l ≡ some v → P j v)
        → Each P l
    Each-descending [] d h = tt
    Each-descending ((k, v) ∷ l) d h = (
      h k v (lookup_head k v l),
      Each-descending l d.1 (λ j w f. h j w (lookup_tail k j v l (ne_of_Below k j w l d.0 f) ∙ f)),
    )

    pub Each-ascending :
        (l : Items V)
        → IsAscending l
        → ((j : Bytes) (v : V) → lookup j l ≡ some v → P j v)
        → Each P l
    Each-ascending [] d h = tt
    Each-ascending ((k, v) ∷ l) d h = (
      h k v (lookup_head k v l),
      Each-ascending l d.1 (λ j w f. h j w (lookup_tail k j v l (ne_of_Above k j w l d.0 f) ∙ f)),
    )
