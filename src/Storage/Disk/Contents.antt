-- ===== src/Storage/Disk/Contents.antt =====
-- The disk engine as a map from keys to bytes: what the index and the log together represent, and
-- what the operations do to it.
use space_db.Base.{
  ◌≡◌, ap, ◌∙◌, ◌++◌, Option, none, some, false, if◌then◌else◌, length, append_assoc, Bool-cases,
  inl, inr,
}
use mathlib.Core.Path.{subst}
use space_db.Bytes.{Bytes, Slice, bytes_eq}
use space_db.Bytes.Order.{bytes_eq_iff}
use space_db.Storage.BTree.{BTree, IsBTree}
use space_db.Storage.Disk.{DiskEngine}
use space_db.Storage.Disk.Log.{Position, slice_bytes, entry_bytes, entry_size_of}
use space_db.Storage.Disk.RoundTrip.{Fits}

-- A record of `key` with this value stands in the file at this position.
pub record HoldsAt (file key : Bytes) (position : Position) (value : Bytes) : Type 0 where
  pub front : Bytes
  pub back : Bytes
  pub stored_value : Slice
  pub split : file ≡ front ++ (entry_bytes key stored_value false ++ back)
  pub fits : Fits key stored_value false
  pub at_front :
      position
      ≡ record { entry_offset = length front; entry_size = entry_size_of key stored_value false }
  pub value_bytes : slice_bytes stored_value ≡ value

-- What is written behind a record leaves it where it is.
pub HoldsAt-append :
    (file key : Bytes) (position : Position) (value more : Bytes)
    → HoldsAt file key position value
    → HoldsAt (file ++ more) key position value
HoldsAt-append file key position value more h = record {
  front = h.front;
  back = h.back ++ more;
  stored_value = h.stored_value;
  split =
      ap (λ t. t ++ more) h.split
      ∙ append_assoc h.front (entry_bytes key h.stored_value false ++ h.back) more
      ∙ ap (λ t. h.front ++ t) (append_assoc (entry_bytes key h.stored_value false) h.back more);
  fits = h.fits;
  at_front = h.at_front;
  value_bytes = h.value_bytes;
}

-- Which bytes are stored under a key.
abbrev pub Contents : Type 0
Contents = Bytes → Option Bytes

abbrev pub put_key : Bytes → Bytes → Contents → Contents
put_key k v m j = if bytes_eq k j then some v else m j

abbrev pub drop_key : Bytes → Contents → Contents
drop_key k m j = if bytes_eq k j then none else m j

abbrev pub Stored : Bytes → Bytes → Option Position → Option Bytes → Type 0
Stored file key none none = Unit
Stored file key none (some v) = ⊥
Stored file key (some position) none = ⊥
Stored file key (some position) (some v) = HoldsAt file key position v

pub Stored-append :
    (file key more : Bytes) (o : Option Position) (v : Option Bytes)
    → Stored file key o v
    → Stored (file ++ more) key o v
Stored-append file key more none none h = tt
Stored-append file key more none (some v) h = elim h [ ]
Stored-append file key more (some position) none h = elim h [ ]
Stored-append file key more (some position) (some v) h = HoldsAt-append file key position v more h

module _ (b : BTree Position) where
  -- The index finds the record of every key that the contents hold, and no other key.
  abbrev pub Indexes : Bytes → b.Tree → Contents → Type 0
  Indexes file t m = (k : Bytes) → Stored file k (b.find k t) (m k)

  pub Indexes-append :
      (file more : Bytes) (t : b.Tree) (m : Contents)
      → Indexes file t m
      → Indexes (file ++ more) t m
  Indexes-append file more t m h k = Stored-append file k more (b.find k t) (m k) (h k)

  -- An open engine with these contents.
  pub record Represents (d : DiskEngine b) (m : Contents) : Type 0 where
    pub tree : b.Tree
    pub is_open : d.keydir ≡ some tree
    pub indexed : Indexes d.file tree m

  module _ (trees : IsBTree b) where
    pub Indexes-put :
        (file key value : Bytes) (position : Position) (t : b.Tree) (m : Contents)
        → Indexes file t m
        → HoldsAt file key position value
        → Indexes file (b.replace_or_insert key position t) (put_key key value m)
    Indexes-put file key value position t m h holds j =
        rw (trees.find-replace_or_insert key j position t) (elim (Bool-cases (bytes_eq key j)) [
          | inl same ↦
              rw same
                (subst (λ k. HoldsAt file k position value) ((bytes_eq_iff key j).0 same) holds)
          | inr other ↦ rw other (h j)
        ])

    pub Indexes-drop :
        (file key : Bytes) (t : b.Tree) (m : Contents)
        → Indexes file t m
        → Indexes file (b.delete_item key t) (drop_key key m)
    Indexes-drop file key t m h j =
        rw (trees.find-delete_item key j t) (elim (Bool-cases (bytes_eq key j)) [
          | inl same ↦ rw same tt
          | inr other ↦ rw other (h j)
        ])
