-- ===== src/Storage/Memory/Ranges.antt =====
-- What the loop and the reversal of `scan` keep.
use space_db.Base.{
  ◌≡◌, refl, ap, ◌∙◌, [], ◌∷◌, ◌++◌, none, some, true, not, if◌then◌else◌, arith, Bool-cases, inl,
  inr,
}
use mathlib.Core.List.{reverse, reverse-append}
use space_db.Bytes.{Bytes, Slice, bytes_eq, bytes_lt}
use space_db.Bytes.Order.{bytes_eq_iff, compare_refl}
use space_db.Storage.Entries.{Items, Entries, lookup, IsMap}
use space_db.Storage.Entries.Sorted.{IsAscending, IsDescending, Above, Below, lookup_below}
use space_db.Storage.Engine.{in_range}
use space_db.Storage.Memory.{collect, skipped}

skipped-in_range : (lo hi : Slice) (k : Bytes) → skipped lo hi k ≡ not (in_range lo hi k)
unfolding skipped
skipped-in_range none none k = refl
skipped-in_range none (some hi) k = refl
skipped-in_range (some lo) none k = ground arith
skipped-in_range (some lo) (some hi) k = ground arith

pub lookup-collect :
    (lo hi : Slice) (j : Bytes) (m : Entries)
    → lookup j (collect lo hi m) ≡ (if in_range lo hi j then lookup j m else none)
unfolding collect lookup
lookup-collect lo hi j [] = ground arith
lookup-collect lo hi j ((k, v) ∷ m) = ground (
  arith,
  lookup-collect lo hi j m,
  skipped-in_range lo hi k,
  skipped-in_range lo hi j,
  bytes_eq_iff k j,
)

pub collect-IsMap : (lo hi : Slice) (m : Entries) → IsMap m → IsMap (collect lo hi m)
unfolding collect
collect-IsMap lo hi [] h = tt
collect-IsMap lo hi ((k, v) ∷ m) h = elim (Bool-cases (skipped lo hi k)) [
  | inl out ↦ rw out (collect-IsMap lo hi m h.1)
  | inr kept ↦ rw kept (ground (arith, lookup-collect lo hi k m), collect-IsMap lo hi m h.1)
]

module _ {V : Type 0} where
  Below-snoc :
      (k j : Bytes) (v : V) (l : Items V)
      → Below k l
      → bytes_lt j k ≡ true
      → Below k (l ++ ((j, v) ∷ []))
  Below-snoc k j v [] b h = (h, tt)
  Below-snoc k j v ((i, w) ∷ l) b h = (b.0, Below-snoc k j v l b.1 h)

  -- All keys of `l` lie above `k`, so `k` may follow a descending list.
  IsDescending-snoc :
      (k : Bytes) (v : V) (l : Items V)
      → Above k l
      → IsDescending l
      → IsDescending (l ++ ((k, v) ∷ []))
  IsDescending-snoc k v [] a d = (tt, tt)
  IsDescending-snoc k v ((i, w) ∷ l) a d =
      (Below-snoc i k v l d.0 a.0, IsDescending-snoc k v l a.1 d.1)

  Above-append : (k : Bytes) (l m : Items V) → Above k l → Above k m → Above k (l ++ m)
  Above-append k [] m a b = b
  Above-append k ((i, w) ∷ l) m a b = (a.0, Above-append k l m a.1 b)

  Above-reverse : (k : Bytes) (l : Items V) → Above k l → Above k (reverse l)
  Above-reverse k [] a = tt
  Above-reverse k ((i, w) ∷ l) a =
      rw (reverse-append ((i, w) ∷ []) l)
        (Above-append k (reverse l) ((i, w) ∷ []) (Above-reverse k l a.1) (a.0, tt))

  pub reverse-IsDescending : (l : Items V) → IsAscending l → IsDescending (reverse l)
  reverse-IsDescending [] a = tt
  reverse-IsDescending ((k, v) ∷ l) a =
      rw (reverse-append ((k, v) ∷ []) l)
        (IsDescending-snoc k v (reverse l) (Above-reverse k l a.0) (reverse-IsDescending l a.1))

  lookup-snoc :
      (j k : Bytes) (v : V) (l : Items V)
      → lookup k l ≡ none
      → lookup j (l ++ ((k, v) ∷ [])) ≡ (if bytes_eq k j then some v else lookup j l)
  unfolding lookup
  lookup-snoc j k v [] h = refl
  lookup-snoc j k v ((i, w) ∷ l) h = ground (
    arith,
    lookup-snoc j k v l,
    bytes_eq_iff i k,
    bytes_eq_iff i j,
    bytes_eq_iff k j,
    compare_refl k,
  )

  pub lookup-reverse_list :
      (j : Bytes) (l : Items V) → IsAscending l → lookup j (reverse l) ≡ lookup j l
  unfolding lookup
  lookup-reverse_list j [] a = refl
  lookup-reverse_list j ((k, v) ∷ l) a = rw (reverse-append ((k, v) ∷ []) l) (
      lookup-snoc j k v (reverse l) (lookup-reverse_list k l a.1 ∙ lookup_below k l a.0)
      ∙ ap (λ o. if bytes_eq k j then some v else o) (lookup-reverse_list j l a.1))
