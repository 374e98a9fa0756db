-- ===== src/Storage/Entries/Filtered.antt =====
-- The items whose keys pass a test.
use space_db.Base.{
  ◌≡◌, refl, ◌∷◌, none, true, Bool, [], ◌∷◌, none, Bool, if◌then◌else◌, arith, Bool-cases, inl, inr,
}
use space_db.Bytes.{Bytes, bytes_eq}
use space_db.Bytes.Order.{bytes_eq_iff}
use space_db.Storage.Entries.{Items, lookup}
use space_db.Storage.Entries.Sorted.{Above, Below, IsAscending, IsDescending}

module _ {V : Type 0} where
  unfoldable pub keep_if : (Bytes → Bool) → Items V → Items V
  keep_if test [] = []
  keep_if test ((k, v) ∷ l) = let rest = keep_if test l in if test k then (k, v) ∷ rest else rest

  pub lookup-keep_if :
      (test : Bytes → Bool) (j : Bytes) (l : Items V)
      → lookup j (keep_if test l) ≡ (if test j then lookup j l else none)
  unfolding lookup keep_if
  lookup-keep_if test j [] = ground arith
  lookup-keep_if test j ((k, v) ∷ l) = elim (Bool-cases (bytes_eq k j)) [
    | inl same ↦
        let e = (bytes_eq_iff k j).0 same in
        rw (← e) (ground (arith, lookup-keep_if test k l, bytes_eq_iff k k))
    | inr other ↦ ground (arith, lookup-keep_if test j l)
  ]

  Above-keep_if :
      (test : Bytes → Bool) (k : Bytes) (l : Items V) → Above k l → Above k (keep_if test l)
  unfolding keep_if
  Above-keep_if test k [] a = tt
  Above-keep_if test k ((j, w) ∷ l) a = elim (Bool-cases (test j)) [
    | inl kept ↦ rw kept (a.0, Above-keep_if test k l a.1)
    | inr out ↦ rw out (Above-keep_if test k l a.1)
  ]

  pub keep_if-IsAscending :
      (test : Bytes → Bool) (l : Items V) → IsAscending l → IsAscending (keep_if test l)
  unfolding keep_if
  keep_if-IsAscending test [] a = tt
  keep_if-IsAscending test ((k, v) ∷ l) a = elim (Bool-cases (test k)) [
    | inl kept ↦ rw kept (Above-keep_if test k l a.0, keep_if-IsAscending test l a.1)
    | inr out ↦ rw out (keep_if-IsAscending test l a.1)
  ]

  Below-keep_if :
      (test : Bytes → Bool) (k : Bytes) (l : Items V) → Below k l → Below k (keep_if test l)
  unfolding keep_if
  Below-keep_if test k [] a = tt
  Below-keep_if test k ((j, w) ∷ l) a = elim (Bool-cases (test j)) [
    | inl kept ↦ rw kept (a.0, Below-keep_if test k l a.1)
    | inr out ↦ rw out (Below-keep_if test k l a.1)
  ]

  pub keep_if-IsDescending :
      (test : Bytes → Bool) (l : Items V) → IsDescending l → IsDescending (keep_if test l)
  unfolding keep_if
  keep_if-IsDescending test [] a = tt
  keep_if-IsDescending test ((k, v) ∷ l) a = elim (Bool-cases (test k)) [
    | inl kept ↦ rw kept (Below-keep_if test k l a.0, keep_if-IsDescending test l a.1)
    | inr out ↦ rw out (keep_if-IsDescending test l a.1)
  ]

  pub keep_all :
      (test : Bytes → Bool) (l : Items V) → ((k : Bytes) → test k ≡ true) → keep_if test l ≡ l
  unfolding keep_if
  keep_all test [] h = refl
  keep_all test ((k, v) ∷ l) h = rw (h k, keep_all test l h) refl
