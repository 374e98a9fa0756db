-- ===== src/Storage/Disk/Compaction.antt =====
-- What the traversal of `compact` of storage/disk.go writes to the new log.
use space_db.Base.{
  ◌≡◌, refl, sym, ap, ◌∙◌, List, [], ◌∷◌, ◌++◌, Option, none, some, false, All, ok, err,
  append_assoc, append-nil, Bool-cases, some-injective, >>=-eq-ok, ok-injective, inl, inr,
}
use mathlib.Core.Path.{subst, fun_ext}
use space_db.Bytes.{Bytes, bytes_eq}
use space_db.Bytes.Order.{bytes_eq_iff}
use space_db.Storage.Errors.{Error}
use space_db.Storage.Entries.{Items, lookup}
use space_db.Storage.Entries.Contents.{Each, Each-ascending}
use space_db.Storage.BTree.{BTree, IsBTree}
use space_db.Storage.Disk.{DiskEngine, ensure_open}
use space_db.Storage.Disk.FileSystem.{Files, IsFiles}
use space_db.Storage.Disk.Log.{Position, slice_bytes, entry_bytes, write_entry, read_log_value}
use space_db.Storage.Disk.RoundTrip.{Fits}
use space_db.Storage.Disk.Contents.{
  HoldsAt, Contents, put_key, Stored, Indexes, Indexes-put, Indexes-append, Represents,
}
use space_db.Storage.Disk.Writes.{read_held, write_entry-cases, end_position, new_record}
use space_db.Storage.Disk.Opening.{rewrite_items, compacted, Outcome}
use space_db.Storage.Disk.Replay.{LogRecord, RecordFits, log_bytes, replay, new_tree-Indexes}

-- A record for every item, with the value of its key.
abbrev pub live_records : Contents → Items Position → List LogRecord
live_records m [] = []
live_records m ((k, p) ∷ l) = record { key = k; value = m k; deleted = false } ∷ live_records m l

either_same :
    {x y : Option Bytes} (o : Option Position) → x ≡ y → (elim o [ none ↦ x | some p ↦ y ]) ≡ y
either_same none e = e
either_same (some p) e = refl

module _ (m : Contents) where
  replay-live_records :
      (l : Items Position) (m₀ : Contents) (j : Bytes)
      → replay (live_records m l) m₀ j
        ≡ elim (lookup j l) [ none ↦ m₀ j | some p ↦ some (slice_bytes (m j)) ]
  unfolding lookup
  replay-live_records [] m₀ j = refl
  replay-live_records ((k, p) ∷ l) m₀ j = elim (Bool-cases (bytes_eq k j)) [
    | inl same ↦
        replay-live_records l (put_key k (slice_bytes (m k)) m₀) j
        ∙ rw same (
            either_same (lookup j l)
              (rw same (ap (λ x. some (slice_bytes (m x))) ((bytes_eq_iff k j).0 same))))
    | inr other ↦
        let kept : put_key k (slice_bytes (m k)) m₀ j ≡ m₀ j = rw other refl in
        rw other (
          replay-live_records l (put_key k (slice_bytes (m k)) m₀) j
          ∙ ap (λ x. elim (lookup j l) [ none ↦ x | some q ↦ some (slice_bytes (m j)) ]) kept)
  ]

  -- The items of the index find what the contents hold under their keys.
  abbrev HoldsItem : Bytes → Bytes → Position → Type 0
  HoldsItem file key p = (v : Bytes) × (m key ≡ some v) × HoldsAt file key p v

  module _ (b : BTree Position) (f : Files) (files : IsFiles f) (trees : IsBTree b)
      (file : Bytes) where
    rewrite_items-writes :
        (k : Bytes) (p p' : Position) (l : Items Position) (t : b.Tree) (temp temp' v : Bytes)
        → read_log_value f file p ≡ ok v
        → write_entry f k (some v) false temp ≡ (ok p', temp')
        → rewrite_items b f file ((k, p) ∷ l) t temp
          ≡ rewrite_items b f file l (b.replace_or_insert k p' t) temp'
    unfolding rewrite_items
    rewrite_items-writes k p p' l t temp temp' v h w = rw (h, w) refl

    rewrite_items-fails :
        (k : Bytes) (p : Position) (l : Items Position) (t : b.Tree) (temp temp' v : Bytes)
        (e : Error)
        → read_log_value f file p ≡ ok v
        → write_entry f k (some v) false temp ≡ (err e, temp')
        → rewrite_items b f file ((k, p) ∷ l) t temp ≡ err e
    unfolding rewrite_items
    rewrite_items-fails k p l t temp temp' v e h w = rw (h, w) refl

    -- The log and the index that a traversal of the items leaves.
    pub record Rewritten (temp : Bytes) (m₀ : Contents) (l : Items Position) (w : b.Tree × Bytes)
        : Type 0 where
      pub bytes : w.1 ≡ temp ++ log_bytes (live_records m l)
      pub all_fit : All RecordFits (live_records m l)
      pub indexed : Indexes b w.1 w.0 (replay (live_records m l) m₀)

    rewrite_items-ends :
        (t : b.Tree) (temp : Bytes) → rewrite_items b f file [] t temp ≡ ok (t, temp)
    unfolding rewrite_items
    rewrite_items-ends t temp = refl

    -- The record of an item whose key holds `v`, in front of the others.
    Rewritten-cons :
        (k v temp : Bytes) (p : Position) (m₀ : Contents) (l : Items Position) (w : b.Tree × Bytes)
        → some v ≡ m k
        → Fits k (some v) false
        → Rewritten (temp ++ entry_bytes k (some v) false) (put_key k (slice_bytes (m k)) m₀) l w
        → Rewritten temp m₀ ((k, p) ∷ l) w
    Rewritten-cons k v temp p m₀ l w e fits rest = record {
      bytes =
          rest.bytes
          ∙ ap (λ o. (temp ++ entry_bytes k o false) ++ log_bytes (live_records m l)) e
          ∙ append_assoc temp (entry_bytes k (m k) false) (log_bytes (live_records m l));
      all_fit = (subst (λ o. Fits k o false) e fits, rest.all_fit);
      indexed = rest.indexed;
    }

    rewrite_items-Rewritten :
        (l : Items Position) (t : b.Tree) (temp : Bytes) (m₀ : Contents) (w : b.Tree × Bytes)
        → Each (HoldsItem file) l
        → Indexes b temp t m₀
        → rewrite_items b f file l t temp ≡ ok w
        → Rewritten temp m₀ l w
    rewrite_items-Rewritten [] t temp m₀ w each h done =
        subst (Rewritten temp m₀ []) (ok-injective (sym (rewrite_items-ends t temp) ∙ done))
          (record { bytes = sym (append-nil temp); all_fit = tt; indexed = h })
    rewrite_items-Rewritten ((k, p) ∷ l) t temp m₀ w each h done =
        let ((v, e, held), others) = each in
        let read = read_held f files file k p v held in
        elim (write_entry-cases f files k (some v) false temp) [
          | inl whole ↦
              let p' = end_position k (some v) false temp in
              let temp' = temp ++ entry_bytes k (some v) false in
              Rewritten-cons k v temp p m₀ l w (sym e) whole.0 (
                rewrite_items-Rewritten l (b.replace_or_insert k p' t) temp'
                  (put_key k (slice_bytes (m k)) m₀) w others
                  (subst
                    (λ o.
                      Indexes b temp' (b.replace_or_insert k p' t) (put_key k (slice_bytes o) m₀))
                    (sym e)
                    (Indexes-put b trees temp' k v p' t m₀
                      (Indexes-append b temp (entry_bytes k (some v) false) t m₀ h)
                      (new_record f files b trees temp k (some v) whole.0)))
                  (sym (rewrite_items-writes k p p' l t temp temp' v read whole.1) ∙ done))
          | inr front ↦ cc (sym (rewrite_items-fails k p l t temp _ v front.0 read front.2) ∙ done)
        ]

module _ (b : BTree Position) (f : Files) (files : IsFiles f) (trees : IsBTree b) where
  Stored-found :
      (file key : Bytes) (p : Position) (o : Option Position) (v : Option Bytes)
      → o ≡ some p
      → Stored file key o v
      → (x : Bytes) × (v ≡ some x) × HoldsAt file key p x
  Stored-found file key p none v e h = cc e
  Stored-found file key p (some q) none e h = absurd h
  Stored-found file key p (some q) (some x) e h =
      (x, refl, subst (λ r. HoldsAt file key r x) (some-injective e) h)

  live_value :
      (file key : Bytes) (o : Option Position) (v : Option Bytes)
      → Stored file key o v
      → (elim o [ none ↦ none | some p ↦ some (slice_bytes v) ]) ≡ v
  live_value file key none none h = refl
  live_value file key none (some v) h = absurd h
  live_value file key (some p) none h = absurd h
  live_value file key (some p) (some v) h = refl

  module _ (d : DiskEngine b) (m : Contents) (h : Represents b d m) where
    abbrev pub items : Items Position
    items = b.ascend h.tree

    items-HoldsItem : Each (HoldsItem m d.file) items
    items-HoldsItem =
        Each-ascending (HoldsItem m d.file) items (trees.ascend-IsAscending h.tree) (λ j p found.
          Stored-found d.file j p (b.find j h.tree) (m j)
            (sym (trees.lookup-ascend j h.tree) ∙ found) (h.indexed j))

    pub live_contents : replay (live_records m items) (λ k. none) ≡ m
    live_contents = fun_ext (λ j.
        replay-live_records m items (λ k. none) j
        ∙ ap (λ o. elim o [ none ↦ none | some p ↦ some (slice_bytes (m j)) ])
            (trees.lookup-ascend j h.tree)
        ∙ live_value d.file j (b.find j h.tree) (m j) (h.indexed j))

    pub compacted-Rewritten :
        (outcome : Outcome) (w : b.Tree × Bytes)
        → compacted b f outcome d ≡ ok w
        → Rewritten m b f files trees d.file [] (λ k. none) items w
    unfolding compacted ensure_open
    compacted-Rewritten outcome w done =
        let (_, _, made) = >>=-eq-ok outcome.created _ (rw h.is_open at done) in
        let (w', e, placed) = >>=-eq-ok (rewrite_items b f d.file items b.new_tree []) _ made in
        let (_, _, flushed) = >>=-eq-ok outcome.synced _ placed in
        let (_, _, result) = >>=-eq-ok outcome.temp_closed _ flushed in
        subst (Rewritten m b f files trees d.file [] (λ k. none) items) (ok-injective result) (
          rewrite_items-Rewritten m b f files trees d.file items b.new_tree [] (λ k. none) w'
            items-HoldsItem (new_tree-Indexes b f files trees []) e)
