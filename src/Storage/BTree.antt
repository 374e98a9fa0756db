-- ===== src/Storage/BTree.antt =====
-- github.com/google/btree, as far as storage/disk.go uses it: a tree of items ordered by their
-- keys. The tree is a parameter; its laws are what the package documents of the calls.
use space_db.Base.{◌≡◌, refl, ◌∙◌, Option, none, some, not, ◌&&◌, [], ◌∷◌, if◌then◌else◌}
use mathlib.Core.List.{reverse}
use space_db.Bytes.{Bytes, bytes_eq, bytes_lt}
use space_db.Storage.Entries.{
  Items, lookup, insert, remove, IsMap, lookup-insert, lookup-remove, insert-IsMap, remove-IsMap,
}
use space_db.Storage.Entries.Sorted.{sort, IsAscending, lookup-sort, sort-IsAscending, lookup_below}
use space_db.Storage.Entries.Filtered.{keep_if}

-- A traversal gives the list of the items it visits, in the order in which it visits them.
pub record BTree (V : Type 0) : Type 1 where
  pub Tree : Type 0
  pub new_tree : Tree
  pub find : Bytes → Tree → Option V
  pub replace_or_insert : Bytes → V → Tree → Tree
  pub delete_item : Bytes → Tree → Tree
  pub ascend : Tree → Items V
  pub ascend_range : Bytes → Bytes → Tree → Items V
  pub ascend_greater_or_equal : Bytes → Tree → Items V
  pub ascend_less_than : Bytes → Tree → Items V
  pub descend : Tree → Items V
  pub descend_less_or_equal : Bytes → Tree → Items V

pub record IsBTree {V : Type 0} (b : BTree V) : Type 1 where
  pub find-new_tree : (k : Bytes) → b.find k b.new_tree ≡ none
  pub find-replace_or_insert :
      (k j : Bytes) (v : V) (t : b.Tree)
      → b.find j (b.replace_or_insert k v t) ≡ (if bytes_eq k j then some v else b.find j t)
  pub find-delete_item :
      (k j : Bytes) (t : b.Tree)
      → b.find j (b.delete_item k t) ≡ (if bytes_eq k j then none else b.find j t)
  pub ascend-IsAscending : (t : b.Tree) → IsAscending (b.ascend t)
  pub lookup-ascend : (j : Bytes) (t : b.Tree) → lookup j (b.ascend t) ≡ b.find j t
  pub ascend_range_lem :
      (lo hi : Bytes) (t : b.Tree)
      → b.ascend_range lo hi t ≡ keep_if (λ k. not (bytes_lt k lo) && bytes_lt k hi) (b.ascend t)
  pub ascend_greater_or_equal_lem :
      (lo : Bytes) (t : b.Tree)
      → b.ascend_greater_or_equal lo t ≡ keep_if (λ k. not (bytes_lt k lo)) (b.ascend t)
  pub ascend_less_than_lem :
      (hi : Bytes) (t : b.Tree)
      → b.ascend_less_than hi t ≡ keep_if (λ k. bytes_lt k hi) (b.ascend t)
  pub descend_lem : (t : b.Tree) → b.descend t ≡ reverse (b.ascend t)
  pub descend_less_or_equal_lem :
      (hi : Bytes) (t : b.Tree)
      → b.descend_less_or_equal hi t ≡ reverse (keep_if (λ k. not (bytes_lt hi k)) (b.ascend t))

pub ascending-IsMap : {V : Type 0} (l : Items V) → IsAscending l → IsMap l
ascending-IsMap [] a = tt
ascending-IsMap ((k, v) ∷ l) a = (lookup_below k l a.0, ascending-IsMap l a.1)

-- A tree for runs: a sorted list.
abbrev pub Sorted : Type 0 → Type 0
Sorted V = (l : Items V) × IsAscending l

module _ {V : Type 0} where
  unfoldable pub put_sorted : Bytes → V → Sorted V → Sorted V
  put_sorted k v t = (
    sort (insert k v t.0),
    sort-IsAscending (insert k v t.0) (insert-IsMap k v t.0 (ascending-IsMap t.0 t.1)),
  )

  unfoldable pub drop_sorted : Bytes → Sorted V → Sorted V
  drop_sorted k t = (
    sort (remove k t.0),
    sort-IsAscending (remove k t.0) (remove-IsMap k t.0 (ascending-IsMap t.0 t.1)),
  )

  find-put_sorted :
      (k j : Bytes) (v : V) (t : Sorted V)
      → lookup j (put_sorted k v t).0 ≡ (if bytes_eq k j then some v else lookup j t.0)
  unfolding put_sorted
  find-put_sorted k j v t = lookup-sort j (insert k v t.0) ∙ lookup-insert k j v t.0

  find-drop_sorted :
      (k j : Bytes) (t : Sorted V)
      → lookup j (drop_sorted k t).0 ≡ (if bytes_eq k j then none else lookup j t.0)
  unfolding drop_sorted
  find-drop_sorted k j t = lookup-sort j (remove k t.0) ∙ lookup-remove k j t.0

module _ (V : Type 0) where
  abbrev pub sorted_list : BTree V
  sorted_list = record {
    Tree = Sorted V;
    new_tree = ([], tt);
    find = λ k t. lookup k t.0;
    replace_or_insert = put_sorted;
    delete_item = drop_sorted;
    ascend = λ t. t.0;
    ascend_range = λ lo hi t. keep_if (λ k. not (bytes_lt k lo) && bytes_lt k hi) t.0;
    ascend_greater_or_equal = λ lo t. keep_if (λ k. not (bytes_lt k lo)) t.0;
    ascend_less_than = λ hi t. keep_if (λ k. bytes_lt k hi) t.0;
    descend = λ t. reverse t.0;
    descend_less_or_equal = λ hi t. reverse (keep_if (λ k. not (bytes_lt hi k)) t.0);
  }

  find-none : (k : Bytes) → ◌≡◌ {A = Option V} (lookup k []) none
  unfolding lookup
  find-none k = refl

  pub sorted_list-IsBTree : IsBTree sorted_list
  sorted_list-IsBTree = record {
    find-new_tree = find-none;
    find-replace_or_insert = find-put_sorted;
    find-delete_item = find-drop_sorted;
    ascend-IsAscending = λ t. t.1;
    lookup-ascend = λ j t. refl;
    ascend_range_lem = λ lo hi t. refl;
    ascend_greater_or_equal_lem = λ lo t. refl;
    ascend_less_than_lem = λ hi t. refl;
    descend_lem = λ t. refl;
    descend_less_or_equal_lem = λ hi t. refl;
  }
