-- ===== src/Executor/InsertRows.antt =====
-- The rows that makeInsertRow builds.
use space_db.Base.{
  ℕ, zero, suc, ◌+◌, ◌≡◌, refl, ap, ◌∙◌, sym, false, List, [], ◌∷◌, Option, none, some, ok, length,
  arith, >>=-eq-ok, ok-injective, Bool-cases, inl, inr, ltb, ◌==◌, drop, length-append, length-drop,
  set_elem,
}
use space_db.Bytes.{Bytes}
use space_db.Types.{Value, Row}
use space_db.Schema.{Column, Table}
use space_db.Executor.Inserts.{
  make_insert_row, in_order, by_name, default_tail, default_of, fill, fill_at, place, complete,
  position_from, empty_places, Filled,
}

length-default_tail :
    (cs : List Column) (row : Row) → default_tail cs ≡ ok row → length row ≡ length cs
unfolding default_tail
length-default_tail [] row h = ap length (sym (ok-injective h))
length-default_tail (c ∷ cs) row h =
    let (v, hv, rest) = >>=-eq-ok (default_of c c.default_value) _ h in
    let (more, hm, e) = >>=-eq-ok (default_tail cs) _ rest in
    ap length (sym (ok-injective e)) ∙ ap suc (length-default_tail cs more hm)

length-set_elem : (xs : Filled) (i : ℕ) (v : Option Value) → length (set_elem xs i v) ≡ length xs
length-set_elem [] i v = refl
length-set_elem (x ∷ xs) zero v = refl
length-set_elem (x ∷ xs) (suc i) v = ap suc (length-set_elem xs i v)

length-place :
    (name : Bytes) (v : Value) (filled out : Filled) (i : ℕ) (o : Option Value)
    → place name v filled i o ≡ ok out
    → length out ≡ length filled
unfolding place
length-place name v filled out i (some taken) h = absurd (cc h)
length-place name v filled out i none h =
    ap length (sym (ok-injective h)) ∙ length-set_elem filled i (some v)

length-fill_at :
    (name : Bytes) (v : Value) (filled out : Filled) (p : Option ℕ)
    → fill_at name v filled p ≡ ok out
    → length out ≡ length filled
unfolding fill_at
length-fill_at name v filled out none h = absurd (cc h)
length-fill_at name v filled out (some i) h = length-place name v filled out i _ h

length-fill :
    (cs : List Column) (names : List Bytes) (input : Row) (filled out : Filled)
    → fill cs names input filled ≡ ok out
    → length out ≡ length filled
unfolding fill
length-fill cs [] input filled out h = ap length (sym (ok-injective h))
length-fill cs (name ∷ names) [] filled out h = ap length (sym (ok-injective h))
length-fill cs (name ∷ names) (v ∷ input) filled out h =
    let (next, hn, rest) = >>=-eq-ok (fill_at name v filled (position_from 0 cs name)) _ h in
    length-fill cs names input next out rest
    ∙ length-fill_at name v filled next (position_from 0 cs name) hn

length-complete :
    (cs : List Column) (filled : Filled) (row : Row)
    → length filled ≡ length cs
    → complete cs filled ≡ ok row
    → length row ≡ length cs
unfolding complete
length-complete [] filled row e h = ap length (sym (ok-injective h))
length-complete (c ∷ cs) [] row e h = absurd (omega arith)
length-complete (c ∷ cs) (some v ∷ filled) row e h =
    let (more, hm, done) = >>=-eq-ok (complete cs filled) _ h in
    ap length (sym (ok-injective done)) ∙ ap suc (length-complete cs filled more (omega arith) hm)
length-complete (c ∷ cs) (none ∷ filled) row e h =
    let (v, hv, rest) = >>=-eq-ok (default_of c c.default_value) _ h in
    let (more, hm, done) = >>=-eq-ok (complete cs filled) _ rest in
    ap length (sym (ok-injective done)) ∙ ap suc (length-complete cs filled more (omega arith) hm)

length-empty_places : (cs : List Column) → length (empty_places cs) ≡ length cs
length-empty_places [] = refl
length-empty_places (c ∷ cs) = ap suc (length-empty_places cs)

length-in_order :
    (t : Table) (input row : Row) → in_order t input ≡ ok row → length row ≡ length t.columns
unfolding in_order
length-in_order t input row h = elim (Bool-cases (ltb (length t.columns) (length input))) [
  | inl long ↦ absurd (cc (rw long at h))
  | inr short ↦
      let (more, hm, e) =
        >>=-eq-ok (default_tail (drop (length input) t.columns)) _ (rw short at h) in
      ap length (sym (ok-injective e))
      ∙ length-append input more
      ∙ omega_sum input more t short (length-default_tail _ more hm)
]
  where
    omega_sum :
        (input more : Row) (t : Table)
        → ltb (length t.columns) (length input) ≡ false
        → length more ≡ length (drop (length input) t.columns)
        → length input + length more ≡ length t.columns
    omega_sum input more t short e = ground (arith, short, e, length-drop (length input) t.columns)

length-by_name :
    (t : Table) (names : List Bytes) (input row : Row)
    → by_name t names input ≡ ok row
    → length row ≡ length t.columns
unfolding by_name
length-by_name t names input row h = elim (Bool-cases (length names == length input)) [
  | inr differ ↦ absurd (cc (rw differ at h))
  | inl same ↦
      let (filled, hf, rest) =
        >>=-eq-ok (fill t.columns names input (empty_places t.columns)) _ (rw same at h) in
      length-complete t.columns filled row
        (length-fill t.columns names input _ filled hf ∙ length-empty_places t.columns) rest
]

-- A row that an INSERT makes has one value for each column of the table.
pub length-make_insert_row :
    (t : Table) (names : List Bytes) (input row : Row)
    → make_insert_row t names input ≡ ok row
    → length row ≡ length t.columns
unfolding make_insert_row
length-make_insert_row t names input row h = elim (Bool-cases (length names == 0)) [
  | inl all ↦ length-in_order t input row (rw all at h)
  | inr named ↦ length-by_name t names input row (rw named at h)
]
