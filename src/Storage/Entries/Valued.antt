-- ===== src/Storage/Entries/Valued.antt =====
-- The keys of a list with other values.
use space_db.Base.{◌≡◌, refl, [], ◌∷◌, none, some, arith}
use space_db.Bytes.{Bytes}
use space_db.Bytes.Order.{bytes_eq_iff}
use space_db.Storage.Entries.{Items, lookup}
use space_db.Storage.Entries.Sorted.{Above, Below, IsAscending, IsDescending}

module _ {V W : Type 0} (values : Bytes → W) where
  abbrev pub with_values : Items V → Items W
  with_values [] = []
  with_values ((k, v) ∷ l) = (k, values k) ∷ with_values l

  pub lookup-with_values :
      (j : Bytes) (l : Items V)
      → lookup j (with_values l) ≡ elim (lookup j l) [ none ↦ none | some v ↦ some (values j) ]
  unfolding lookup
  lookup-with_values j [] = refl
  lookup-with_values j ((k, v) ∷ l) = ground (arith, lookup-with_values j l, bytes_eq_iff k j)

  Above-with_values : (k : Bytes) (l : Items V) → Above k l → Above k (with_values l)
  Above-with_values k [] a = tt
  Above-with_values k ((j, v) ∷ l) a = (a.0, Above-with_values k l a.1)

  Below-with_values : (k : Bytes) (l : Items V) → Below k l → Below k (with_values l)
  Below-with_values k [] a = tt
  Below-with_values k ((j, v) ∷ l) a = (a.0, Below-with_values k l a.1)

  pub with_values-IsAscending : (l : Items V) → IsAscending l → IsAscending (with_values l)
  with_values-IsAscending [] a = tt
  with_values-IsAscending ((k, v) ∷ l) a =
      (Above-with_values k l a.0, with_values-IsAscending l a.1)

  pub with_values-IsDescending : (l : Items V) → IsDescending l → IsDescending (with_values l)
  with_values-IsDescending [] a = tt
  with_values-IsDescending ((k, v) ∷ l) a =
      (Below-with_values k l a.0, with_values-IsDescending l a.1)
