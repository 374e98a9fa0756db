-- ===== src/Storage/Disk/Termination.antt =====
-- The replay of a log ends, whatever the file holds.
use space_db.Base.{
  ℕ, zero, suc, ◌+◌, ◌-◌, ◌≤◌, ◌<◌, ◌≡◌, ◌≢◌, refl, ap, none, some, true, false, length, leb,
  Option, Result, ok, err, >>=-eq-ok, ok-injective, ◌>>◌, guard, Result-cases, Bool-cases, arith,
  inl, inr, Bool,
}
use space_db.Bytes.{Bytes}
use space_db.Storage.Errors.{Error}
use space_db.Storage.BTree.{BTree}
use space_db.Storage.Disk.FileSystem.{Files}
use space_db.Storage.Disk.Log.{Position, read_entry}
use space_db.Storage.Disk.Opening.{
  stored_value_size, rebuild_step, rebuild_loop, rebuild_keydir, new_disk_engine, opened,
}

module _ (b : BTree Position) (f : Files) (file : Bytes) where
  advances_checked :
      (test : Bool) (e : Error) (offset key_size stored : ℕ) (t : b.Tree) (next : ℕ × b.Tree)
      → (guard test e >> ok (offset + (8 + key_size + stored), t)) ≡ ok next
      → offset + 8 ≤ next.0
  advances_checked true e offset key_size stored t next h =
      let same : offset + (8 + key_size + stored) ≡ next.0 = ap (λ p. p.0) (ok-injective h) in
      omega arith
  advances_checked false e offset key_size stored t next h = cc

  -- A round that goes on has passed a header.
  rebuild_step-advances :
      (offset : ℕ) (t : b.Tree) (next : ℕ × b.Tree)
      → rebuild_step b f file offset t ≡ ok next
      → offset + 8 ≤ next.0
  unfolding rebuild_step
  rebuild_step-advances offset t next h =
      let (entry, _, sized) = >>=-eq-ok (read_entry f file offset) _ h in
      let (stored, _, checked) = >>=-eq-ok (stored_value_size entry.1) _ sized in
      advances_checked _ _ offset (length entry.0) stored _ next checked

  rebuild_loop-stops_at_end :
      (fuel offset : ℕ) (t : b.Tree)
      → leb (length file) offset ≡ true
      → rebuild_loop b f file (suc fuel) offset t ≡ some (ok t)
  unfolding rebuild_loop
  rebuild_loop-stops_at_end fuel offset t h = ground (arith, h)

  pub rebuild_loop-takes_step :
      (fuel offset : ℕ) (t : b.Tree) (r : Result Error (ℕ × b.Tree))
      → leb (length file) offset ≡ false
      → rebuild_step b f file offset t ≡ r
      → rebuild_loop b f file (suc fuel) offset t
        ≡ elim r [ err e ↦ some (err e) | ok next ↦ rebuild_loop b f file fuel next.0 next.1 ]
  unfolding rebuild_loop
  rebuild_loop-takes_step fuel offset t r more h = ground (arith, more, h)

  rebuild_loop-ends :
      (fuel offset : ℕ) (t : b.Tree)
      → length file - offset < fuel
      → rebuild_loop b f file fuel offset t ≢ none
  rebuild_loop-ends zero offset t enough = absurd (omega arith)
  rebuild_loop-ends (suc fuel) offset t enough = elim (Bool-cases (leb (length file) offset)) [
    | inl at_end ↦ rw (rebuild_loop-stops_at_end fuel offset t at_end) (λ e. cc e)
    | inr more ↦ elim (Result-cases (rebuild_step b f file offset t)) [
      | inr failed ↦
          rw (rebuild_loop-takes_step fuel offset t (err failed.0) more failed.1) (λ e. cc e)
      | inl went ↦
          let further = rebuild_step-advances offset t went.0 went.1 in
          rw (rebuild_loop-takes_step fuel offset t (ok went.0) more went.1)
            (rebuild_loop-ends fuel went.0.0 went.0.1 (ground arith))
    ]
  ]

  rebuild_keydir-ends : (t : b.Tree) → rebuild_keydir b f file t ≢ none
  unfolding rebuild_keydir
  rebuild_keydir-ends t = rebuild_loop-ends (suc (length file)) 0 t (omega arith)

  opened-ends :
      (o : Option (Result Error b.Tree))
      → o ≢ none
      → (elim o [ none ↦ none | some r ↦ some (opened b f file r) ]) ≢ none
  opened-ends none h = absurd (h refl)
  opened-ends (some r) h = λ e. cc e

module _ (b : BTree Position) (f : Files) where
  -- Opening an engine gives an engine or an error, whatever the lock and the opening of the file
  -- return, whatever bytes the file holds and whatever reading them returns: the loop that replays
  -- the log ends within its rounds, one for every byte of the file and one more.
  pub new_disk_engine-ends :
      (locked : Result Error Bool) (log : Result Error Bytes)
      → new_disk_engine b f locked log ≢ none
  unfolding new_disk_engine
  new_disk_engine-ends (err e) log = λ h. cc h
  new_disk_engine-ends (ok false) log = λ h. cc h
  new_disk_engine-ends (ok true) (err e) = λ h. cc h
  new_disk_engine-ends (ok true) (ok file) =
      opened-ends b f file (rebuild_keydir b f file b.new_tree)
        (rebuild_keydir-ends b f file b.new_tree)
