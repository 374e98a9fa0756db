-- ===== src/Storage/Disk/Bounds.antt =====
-- Where the positions of the index lie.
use space_db.Base.{
  ◌++◌, false, Bool, ok, [], ◌∷◌, ◌+◌, ◌≤◌, ◌≡◌, Option, none, some, length, length-append, arith,
  take, drop, take-append, drop-append, refl, ◌∙◌, Bool-cases, inl, inr, if◌then◌else◌, true, sym,
  ap,
}
use mathlib.Core.Path.{subst}
use space_db.Bytes.{Bytes, Slice}
use space_db.Storage.Entries.{Items, lookup}
use space_db.Storage.Engine.{in_range}
use space_db.Storage.Entries.Contents.{Each}
use space_db.Storage.BTree.{BTree, IsBTree}
use space_db.Storage.Disk.FileSystem.{Files, IsFiles}
use space_db.Storage.Disk.Scans.{HoldsValue, items_hold, items_listed}
use space_db.Storage.Disk.{DiskEngine, snapshot_range}
use space_db.Storage.Disk.Log.{Position, entry_bytes, entry_size_of, slice_bytes}
use space_db.Storage.Disk.RoundTrip.{length-entry_bytes}
use space_db.Storage.Disk.Contents.{HoldsAt, Contents, Stored, Represents}

-- The position lies in the file, its size fits 32 bits, and the bytes there are those of a record of
-- the key with the value that the contents hold.
abbrev pub Placed : Bytes → Contents → Bytes → Position → Type 0
Placed file m key position =
    (position.entry_offset + position.entry_size ≤ length file)
    × (8 ≤ position.entry_size)
    × (position.entry_size ≤ 4294967295)
    × ((value : Slice) × (take position.entry_size (drop position.entry_offset file)
          ≡ entry_bytes key value false)
        × (m key ≡ some (slice_bytes value)))

HoldsAt-Placed :
    (file key : Bytes) (m : Contents) (position : Position) (v : Bytes)
    → m key ≡ some v
    → HoldsAt file key position v
    → Placed file m key position
HoldsAt-Placed file key m position v e h =
    let entry = entry_bytes key h.stored_value false in
    let size : length entry ≡ entry_size_of key h.stored_value false =
      length-entry_bytes key h.stored_value false in
    subst (Placed file m key) (sym h.at_front) (
      omega (
        arith,
        ap length h.split,
        length-append h.front (entry ++ h.back),
        length-append entry h.back,
        size,
      ),
      omega arith,
      h.fits.1,
      (
        h.stored_value,
        ap (λ t. take (entry_size_of key h.stored_value false) (drop (length h.front) t)) h.split
            ∙ ap (take (entry_size_of key h.stored_value false))
                (drop-append (length h.front) h.front (entry ++ h.back) refl)
            ∙ take-append (entry_size_of key h.stored_value false) entry h.back size,
        e ∙ ap some (sym h.value_bytes),
      ),
    )

Stored-Placed :
    (file key : Bytes) (m : Contents) (v : Option Bytes) (position : Position)
    → m key ≡ v
    → Stored file key (some position) v
    → Placed file m key position
Stored-Placed file key m none position e h = absurd h
Stored-Placed file key m (some v) position e h = HoldsAt-Placed file key m position v e h

items-Placed :
    (file : Bytes) (m : Contents) (items : Items Position)
    → Each (HoldsValue file m) items
    → Each (Placed file m) items
items-Placed file m [] h = tt
items-Placed file m ((key, position) ∷ items) h =
    (Stored-Placed file key m (m key) position refl h.0, items-Placed file m items h.1)

-- Whether an option holds something.
abbrev pub present : {A : Type 0} → Option A → Bool
present none = false
present (some x) = true

Stored-present :
    (file key : Bytes) (o : Option Position) (v : Option Bytes)
    → Stored file key o v
    → present o ≡ present v
Stored-present file key none none h = refl
Stored-present file key none (some v) h = absurd h
Stored-present file key (some position) none h = absurd h
Stored-present file key (some position) (some v) h = refl

-- In an open engine that represents some contents, a scan copies from the index a position for each
-- key of the range that the contents hold, and for no other key. Each position lies in the file, is
-- of at least the header's 8 bytes, with a size that fits the 32 bits in which it is kept, and the
-- file's bytes there are the record of that key with the value that the contents hold.
pub snapshot_range-Placed :
    (b : BTree Position) (f : Files) (files : IsFiles f) (trees : IsBTree b) (d : DiskEngine b)
    (m : Contents) (lo hi : Slice) (reversed : Bool) (items : Items Position)
    → Represents b d m
    → snapshot_range b lo hi reversed d ≡ ok items
    → Each (Placed d.file m) items
      × ((j : Bytes)
          → present (lookup j items) ≡ (if in_range lo hi j then present (m j) else false))
snapshot_range-Placed b f files trees d m lo hi reversed items h copies = (
  items-Placed d.file m items (items_hold f files b trees d m h lo hi reversed items copies),
  λ j.
      let there = Stored-present d.file j (b.find j h.tree) (m j) (h.indexed j) in
      let listed = items_listed f files b trees d m h lo hi reversed items copies j in
      elim (Bool-cases (in_range lo hi j)) [
        | inl within ↦ rw within (ap present (rw within at listed) ∙ there)
        | inr outside ↦ rw outside (ap present (rw outside at listed))
      ],
)
