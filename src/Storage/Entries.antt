-- ===== src/Storage/Entries.antt =====
-- Lists of records by key: Go's map from strings to byte slices in some order of iteration, and
-- the records that a scan returns.
pub mod Sorted
pub mod Contents
pub mod Filtered
pub mod Valued
use space_db.Base.{
  ℕ, ◌≡◌, refl, ap, List, [], ◌∷◌, ◌++◌, Option, none, some, Bool, true, false, if◌then◌else◌,
  arith, ◌≢◌, Ordering, Bool-cases, inl, inr, ◌↔◌,
}
use space_db.Bytes.{Bytes, Slice, bytes_eq, compare_bytes}
use space_db.Bytes.Order.{bytes_eq_iff}

-- storage.Entry: the key and the value, which may be nil.
abbrev pub Entry : Type 0
Entry = Bytes × Slice

-- Values by key.
abbrev pub Items : Type 0 → Type 0
Items V = List (Bytes × V)

abbrev pub Entries : Type 0
Entries = Items Slice

module _ {V : Type 0} where
  -- `m[k]`
  unfoldable pub lookup : Bytes → Items V → Option V
  lookup k [] = none
  lookup k ((j, v) ∷ m) = if bytes_eq j k then some v else lookup k m

  -- `delete(m, k)`
  unfoldable pub remove : Bytes → Items V → Items V
  remove k [] = []
  remove k ((j, v) ∷ m) = let rest = remove k m in if bytes_eq j k then rest else (j, v) ∷ rest

  -- `m[k] = v`
  unfoldable pub insert : Bytes → V → Items V → Items V
  unfolding remove
  insert k v m = (k, v) ∷ remove k m

  -- A map holds a key once.
  abbrev pub IsMap : Items V → Type 0
  IsMap [] = Unit
  IsMap ((k, v) ∷ m) = (lookup k m ≡ none) × IsMap m

  pub lookup-remove :
      (k j : Bytes) (m : Items V)
      → lookup j (remove k m) ≡ (if bytes_eq k j then none else lookup j m)
  unfolding lookup remove
  lookup-remove k j [] = ground arith
  lookup-remove k j ((i, v) ∷ m) =
      ground (arith, lookup-remove k j m, bytes_eq_iff i k, bytes_eq_iff i j, bytes_eq_iff k j)

  pub lookup-insert :
      (k j : Bytes) (v : V) (m : Items V)
      → lookup j (insert k v m) ≡ (if bytes_eq k j then some v else lookup j m)
  unfolding lookup insert
  lookup-insert k j v m = ground (arith, lookup-remove k j m)

  pub remove-IsMap : (k : Bytes) (m : Items V) → IsMap m → IsMap (remove k m)
  unfolding remove
  remove-IsMap k [] h = tt
  remove-IsMap k ((i, v) ∷ m) h = elim (Bool-cases (bytes_eq i k)) [
    | inl same ↦ rw same (remove-IsMap k m h.1)
    | inr other ↦ rw other (ground (arith, lookup-remove k i m), remove-IsMap k m h.1)
  ]

  pub insert-IsMap : (k : Bytes) (v : V) (m : Items V) → IsMap m → IsMap (insert k v m)
  unfolding insert
  insert-IsMap k v m h = (ground (arith, lookup-remove k k m, bytes_eq_iff k k), remove-IsMap k m h)
