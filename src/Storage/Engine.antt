-- ===== src/Storage/Engine.antt =====
-- storage/engine.go: the interface Engine, and the laws of an engine whose operations succeed.
use space_db.Base.{
  ◌≡◌, [], ◌∷◌, ◌==◌, true, false, not, ◌&&◌, Option, none, some, Bool, Result, ok, if◌then◌else◌,
}
use space_db.Bytes.{Bytes, Slice, IsBytes, bytes_eq, bytes_lt}
use space_db.Storage.Errors.{Error}
use space_db.Storage.Entries.{Entries, lookup}
use space_db.Storage.Entries.Sorted.{IsAscending, IsDescending}

-- An iterator of records and errors: both engines end it at the first error.
abbrev pub Scan : Type 0
Scan = Entries × Option Error

pub record Engine : Type 1 where
  pub State : Type 0
  pub set : Bytes → Slice → State → Result Error (Unit {0}) × State
  pub get : Bytes → State → Result Error Slice
  pub delete : Bytes → State → Result Error (Unit {0}) × State
  pub scan : Slice → Slice → State → Scan
  pub scan_reverse : Slice → Slice → State → Scan
  pub scan_prefix : Bytes → State → Scan
  pub scan_prefix_reverse : Bytes → State → Scan

-- start ≤ key < end, where nil is no bound.
abbrev pub in_range : Slice → Slice → Bytes → Bool
in_range none none k = true
in_range none (some hi) k = bytes_lt k hi
in_range (some lo) none k = not (bytes_lt k lo)
in_range (some lo) (some hi) k = not (bytes_lt k lo) && bytes_lt k hi

-- `bytes.HasPrefix(k, p)`
abbrev pub has_prefix : Bytes → Bytes → Bool
has_prefix [] k = true
has_prefix (a ∷ p) [] = false
has_prefix (a ∷ p) (b ∷ k) = if a == b then has_prefix p k else false

-- What a missing key reads as.
abbrev pub or_nil : Option Slice → Slice
or_nil none = none
or_nil (some v) = v

-- The contract of an engine that does no input and output: the operations succeed, and it is a
-- finite map from keys to slices, whose scans list the keys of a range in order.
pub record IsReliable (e : Engine) : Type 1 where
  pub IsValid : e.State → Type 0
  pub find : Bytes → e.State → Option Slice
  pub put : Bytes → Slice → e.State → e.State
  pub drop_key : Bytes → e.State → e.State
  pub get_find : (k : Bytes) (s : e.State) → e.get k s ≡ ok (or_nil (find k s))
  pub set_put : (k : Bytes) (v : Slice) (s : e.State) → e.set k v s ≡ (ok tt, put k v s)
  pub delete_drop_key : (k : Bytes) (s : e.State) → e.delete k s ≡ (ok tt, drop_key k s)
  pub put-IsValid : (k : Bytes) (v : Slice) (s : e.State) → IsValid s → IsValid (put k v s)
  pub drop_key-IsValid : (k : Bytes) (s : e.State) → IsValid s → IsValid (drop_key k s)
  pub find-put :
      (k j : Bytes) (v : Slice) (s : e.State)
      → find j (put k v s) ≡ (if bytes_eq k j then some v else find j s)
  pub find-drop_key :
      (k j : Bytes) (s : e.State)
      → find j (drop_key k s) ≡ (if bytes_eq k j then none else find j s)
  pub scan_succeeds : (lo hi : Slice) (s : e.State) → (e.scan lo hi s).1 ≡ none
  pub scan-IsAscending : (lo hi : Slice) (s : e.State) → IsValid s → IsAscending (e.scan lo hi s).0
  pub lookup-scan :
      (lo hi : Slice) (j : Bytes) (s : e.State)
      → lookup j (e.scan lo hi s).0 ≡ (if in_range lo hi j then find j s else none)
  pub reverse_succeeds : (lo hi : Slice) (s : e.State) → (e.scan_reverse lo hi s).1 ≡ none
  pub reverse-IsDescending :
      (lo hi : Slice) (s : e.State) → IsValid s → IsDescending (e.scan_reverse lo hi s).0
  pub lookup-reverse :
      (lo hi : Slice) (j : Bytes) (s : e.State)
      → IsValid s
      → lookup j (e.scan_reverse lo hi s).0 ≡ (if in_range lo hi j then find j s else none)
  pub prefix_succeeds : (p : Bytes) (s : e.State) → (e.scan_prefix p s).1 ≡ none
  pub prefix-IsAscending : (p : Bytes) (s : e.State) → IsValid s → IsAscending (e.scan_prefix p s).0
  pub lookup-prefix :
      (p j : Bytes) (s : e.State)
      → IsBytes p
      → IsBytes j
      → lookup j (e.scan_prefix p s).0 ≡ (if has_prefix p j then find j s else none)
  pub prefix_finds :
      (p j : Bytes) (v : Slice) (s : e.State)
      → lookup j (e.scan_prefix p s).0 ≡ some v
      → find j s ≡ some v
