-- ===== src/Executor/Calls.antt =====
-- UPDATE and DELETE as sequences of calls of the transaction, one for each row.
use space_db.Base.{
  ℕ, ◌+◌, ◌≡◌, refl, sym, ap, ◌∙◌, List, [], ◌∷◌, Result, ok, err, length, map, arith, zero, suc,
  false, true, ◌<◌, ◌==◌, if◌then◌else◌, set_elem,
}
use mathlib.Core.Path.{fun_ext, ap₂}
use space_db.Base.Exec.{Exec, pure, lift, continue, ◌>>◌, ◌>>=◌}
use space_db.Types.{Value, Row, SqlError}
use space_db.Schema.{Table, primary_key_value}
use space_db.Executor.Transaction.{Transaction}
use space_db.Executor.Statements.{update_rows, assign, delete_rows}

module _ {S E A B C : Type 0} where
  continue_assoc :
      (call : Result E A × S) (f : A → Exec S E B) (g : B → Exec S E C)
      → continue (continue call f) g ≡ continue call (λ x s. continue (f x s) g)
  continue_assoc (ok x, s) f g = refl
  continue_assoc (err e, s) f g = refl

-- The calls one after the other, up to the first that returns an error.
module _ {S E : Type 0} where
  abbrev pub run_in_order : List (Exec S E (Unit {0})) → Exec S E (Unit {0})
  run_in_order [] = pure tt
  run_in_order (call ∷ calls) = call >> run_in_order calls

  -- A count of the calls, where all of them succeed.
  abbrev pub counted : List (Exec S E (Unit {0})) → ℕ → Exec S E ℕ
  counted calls n s = continue (run_in_order calls s) (λ u. pure (n + length calls))

  counted-cons :
      (call : Exec S E (Unit {0})) (calls : List (Exec S E (Unit {0}))) (n : ℕ) (s : S)
      → continue (call s) (λ u. counted calls (n + 1)) ≡ counted (call ∷ calls) n s
  counted-cons call calls n s =
      ap (λ k. continue (call s) (λ u s'. continue (run_in_order calls s') (λ w. pure k)))
        (omega arith)
      ∙ sym (continue_assoc (call s) (λ u. run_in_order calls) (λ w. pure (n + (1 + length calls))))
      ∙ ap (λ k. continue (continue (call s) (λ u. run_in_order calls)) (λ w. pure (n + k)))
          (omega arith)

  -- A round that looks something up, calls, and goes on to the later rounds.
  counted-round :
      {K : Type 0} (first : Result E K) (act : K → Exec S E (Unit {0})) (rest : Exec S E ℕ)
      (calls : List (Exec S E (Unit {0}))) (n : ℕ) (s : S)
      → ((s' : S) → rest s' ≡ counted calls (n + 1) s')
      → (lift first >>= λ k. act k >> rest) s ≡ counted ((lift first >>= act) ∷ calls) n s
  counted-round first act rest calls n s h =
      ap (λ (later : Exec S E ℕ). continue (first, s) (λ k s'. continue (act k s') (λ u. later)))
        (fun_ext h)
      ∙ sym (continue_assoc (first, s) act (λ u. counted calls (n + 1)))
      ∙ counted-cons (lift first >>= act) calls n s

-- The value of a column behind the assignments: the last one to it, or the old value.
abbrev pub assigned_value : List (ℕ × Value) → ℕ → Value → Value
assigned_value [] i old = old
assigned_value ((j, v) ∷ rest) i old = assigned_value rest i (if j == i then v else old)

-- The cells of a row behind the assignments, from a column on.
abbrev pub assigned_from : List (ℕ × Value) → ℕ → Row → Row
assigned_from assignments i [] = []
assigned_from assignments i (old ∷ row) =
    assigned_value assignments i old ∷ assigned_from assignments (suc i) row

assigned_from-later :
    (j : ℕ) (v : Value) (rest : List (ℕ × Value)) (i : ℕ) (row : Row)
    → j < i
    → assigned_from ((j, v) ∷ rest) i row ≡ assigned_from rest i row
assigned_from-later j v rest i [] h = refl
assigned_from-later j v rest i (old ∷ row) h =
    let other : (j == i) ≡ false = ground arith in
    ap₂ (λ x l. x ∷ l) (rw other refl) (assigned_from-later j v rest (suc i) row (omega arith))

assigned_from-set_elem :
    (j : ℕ) (v : Value) (rest : List (ℕ × Value)) (i : ℕ) (row : Row)
    → assigned_from rest i (set_elem row j v) ≡ assigned_from ((i + j, v) ∷ rest) i row
assigned_from-set_elem j v rest i [] = refl
assigned_from-set_elem zero v rest i (old ∷ row) =
    let same : (i + 0 == i) ≡ true = ground arith in
    ap₂ (λ x l. x ∷ l) (rw same refl)
      (sym (assigned_from-later (i + 0) v rest (suc i) row (omega arith)))
assigned_from-set_elem (suc j) v rest i (old ∷ row) =
    let other : (i + suc j == i) ≡ false = ground arith in
    let shift : suc i + j ≡ i + suc j = omega arith in
    ap₂ (λ x l. x ∷ l) (rw other refl)
      (assigned_from-set_elem j v rest (suc i) row
        ∙ ap (λ k. assigned_from ((k, v) ∷ rest) (suc i) row) shift)

assigned_from-nil : (i : ℕ) (row : Row) → assigned_from [] i row ≡ row
assigned_from-nil i [] = refl
assigned_from-nil i (old ∷ row) = ap (λ l. old ∷ l) (assigned_from-nil (suc i) row)

assign-assigned_from :
    (assignments : List (ℕ × Value)) (row : Row)
    → assign assignments row ≡ assigned_from assignments 0 row
unfolding assign
assign-assigned_from [] row = sym (assigned_from-nil 0 row)
assign-assigned_from ((j, v) ∷ rest) row =
    let start : 0 + j ≡ j = omega arith in
    assign-assigned_from rest (set_elem row j v)
    ∙ assigned_from-set_elem j v rest 0 row
    ∙ ap (λ k. assigned_from ((k, v) ∷ rest) 0 row) start

module _ (tx : Transaction) (table : Table) where
  -- What each statement calls for a row.
  abbrev pub update_call : List (ℕ × Value) → Row → Exec tx.State SqlError (Unit {0})
  update_call assignments row = lift (primary_key_value table row) >>= λ key.
      tx.update_row table key (assigned_from assignments 0 row)

  abbrev pub delete_call : Row → Exec tx.State SqlError (Unit {0})
  delete_call row = lift (primary_key_value table row) >>= λ key. tx.delete_row table key

  delete_rows-counted :
      (rows : List Row) (n : ℕ) (s : tx.State)
      → delete_rows tx table rows n s ≡ counted (map delete_call rows) n s
  unfolding delete_rows
  delete_rows-counted [] n s = ap (λ k. (ok k, s)) (omega arith)
  delete_rows-counted (row ∷ rows) n s =
      counted-round (primary_key_value table row) (λ key. tx.delete_row table key)
        (delete_rows tx table rows (n + 1)) (map delete_call rows) n s
        (delete_rows-counted rows (n + 1))

  update_rows-counted :
      (assignments : List (ℕ × Value)) (rows : List Row) (n : ℕ) (s : tx.State)
      → update_rows tx table assignments rows n s ≡ counted (map (update_call assignments) rows) n s
  unfolding update_rows
  update_rows-counted assignments [] n s = ap (λ k. (ok k, s)) (omega arith)
  update_rows-counted assignments (row ∷ rows) n s =
      ap
        (λ new.
          continue (lift (primary_key_value table row) s)
            (λ key. tx.update_row table key new >> update_rows tx table assignments rows (n + 1)))
        (assign-assigned_from assignments row)
      ∙ counted-round (primary_key_value table row)
          (λ key. tx.update_row table key (assigned_from assignments 0 row))
          (update_rows tx table assignments rows (n + 1)) (map (update_call assignments) rows) n s
          (update_rows-counted assignments rows (n + 1))

  -- UPDATE and DELETE of rows call the transaction once for each row, in the order of the rows: UPDATE
  -- under the primary key of the old row and with the row whose value in each column is the one
  -- assigned last to it, or the old one where none is assigned; DELETE with the primary key. They stop
  -- at the first error, from a call or from what prepares it, and otherwise return the number of the
  -- rows.
  pub rows-counted :
      (assignments : List (ℕ × Value)) (rows : List Row) (s : tx.State)
      → (update_rows tx table assignments rows 0 s
          ≡ counted (map (update_call assignments) rows) 0 s)
        × (delete_rows tx table rows 0 s ≡ counted (map delete_call rows) 0 s)
  rows-counted assignments rows s =
      (update_rows-counted assignments rows 0 s, delete_rows-counted rows 0 s)
