-- ===== src/Storage/Disk/Snapshot.antt =====
-- The disk engine's scans copy the index first and read the values later: what writes in between do
-- to them.
use space_db.Base.{
  ◌≡◌, sym, ap, ◌∙◌, List, [], ◌∷◌, ◌++◌, none, some, Bool, true, false, append_assoc, append-nil,
  ok,
}
use mathlib.Core.Path.{subst}
use space_db.Bytes.{Bytes, Slice}
use space_db.Storage.Entries.{Items}
use space_db.Storage.Entries.Contents.{Each}
use space_db.Storage.BTree.{BTree, IsBTree}
use space_db.Storage.Disk.{DiskEngine, set, delete, snapshot_range, read_items}
use space_db.Storage.Disk.FileSystem.{Files, IsFiles}
use space_db.Storage.Disk.Log.{Position}
use space_db.Storage.Disk.Contents.{Contents, Stored-append, Represents}
use space_db.Storage.Disk.Writes.{log_then-extends, set-Represents, delete-Represents}
use space_db.Storage.Disk.Scans.{HoldsValue, items_hold, read_items-with_values}
use space_db.Storage.Disk.Durability.{Operation, set_key, delete_key, run}

module _ (b : BTree Position) (f : Files) (files : IsFiles f) (trees : IsBTree b) where
  -- Later states of an open engine: it stays open, and its file only grows.
  record Later (d d' : DiskEngine b) : Type 0 where
    contents : Contents
    represents : Represents b d' contents
    more : Bytes
    grown : d'.file ≡ d.file ++ more

  run-Later :
      (o : Operation) (d : DiskEngine b) (m : Contents) → Represents b d m → Later d (run b f o d).1
  unfolding set delete
  run-Later (set_key k v) d m h =
      let (more, grown) =
        log_then-extends f files b d m k v false (λ p t. b.replace_or_insert k p t) h in
      record {
        contents = _;
        represents = set-Represents f files b trees d m k v h;
        more = more;
        grown = grown;
      }
  run-Later (delete_key k) d m h =
      let (more, grown) = log_then-extends f files b d m k none true (λ p t. b.delete_item k t) h in
      record {
        contents = _;
        represents = delete-Represents f files b trees d m k h;
        more = more;
        grown = grown;
      }

  Later-trans : (d d' d'' : DiskEngine b) → Later d d' → Later d' d'' → Later d d''
  Later-trans d d' d'' h k = record {
    contents = k.contents;
    represents = k.represents;
    more = h.more ++ k.more;
    grown = k.grown ∙ ap (λ t. t ++ k.more) h.grown ∙ append_assoc d.file h.more k.more;
  }

  -- The engine behind a sequence of calls that goes on behind those that fail.
  abbrev pub run_each : List Operation → DiskEngine b → DiskEngine b
  run_each [] d = d
  run_each (o ∷ os) d = run_each os (run b f o d).1

  run_each-Later :
      (os : List Operation) (d : DiskEngine b) (m : Contents)
      → Represents b d m
      → Later d (run_each os d)
  run_each-Later [] d m h = record {
    contents = m;
    represents = h;
    more = [];
    grown = sym (append-nil d.file);
  }
  run_each-Later (o ∷ os) d m h =
      let first = run-Later o d m h in
      Later-trans d (run b f o d).1 (run_each os (run b f o d).1) first
        (run_each-Later os (run b f o d).1 first.contents first.represents)

  HoldsValue-grown :
      (file file' more : Bytes) (m : Contents) (l : Items Position)
      → file' ≡ file ++ more
      → Each (HoldsValue file m) l
      → Each (HoldsValue file' m) l
  HoldsValue-grown file file' more m [] e h = tt
  HoldsValue-grown file file' more m ((k, p) ∷ l) e h = (
    subst (λ x. HoldsValue x m k p) (sym e) (Stored-append file k more (some p) (m k) h.0),
    HoldsValue-grown file file' more m l e h.1,
  )

  -- In an open engine that represents some contents, the items that a scan copies from the index are read alike before and after any sequence of Sets
  -- and Deletes, the failing ones and what follows them included: the scan gives the values of the
  -- moment of its copy.
  pub read_items-stable :
      (lo hi : Slice) (reversed : Bool) (items : Items Position) (os : List Operation)
      (d : DiskEngine b) (m : Contents)
      → Represents b d m
      → snapshot_range b lo hi reversed d ≡ ok items
      → read_items b f items (run_each os d) ≡ read_items b f items d
  read_items-stable lo hi reversed items os d m h copies =
      let later = run_each-Later os d m h in
      let each = items_hold f files b trees d m h lo hi reversed items copies in
      read_items-with_values f files b (run_each os d) later.represents.tree m items
        later.represents.is_open
        (HoldsValue-grown d.file (run_each os d).file later.more m items later.grown each)
      ∙ sym (read_items-with_values f files b d h.tree m items h.is_open each)
