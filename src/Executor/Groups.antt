-- ===== src/Executor/Groups.antt =====
-- The groups of an aggregation and the bounds of COUNT.
use space_db.Base.{
  ℕ, ◌+◌, ◌≤◌, ◌<◌, ◌≡◌, ◌⊎◌, refl, List, [], ◌∷◌, ◌++◌, ok, >>=-eq-ok, ok-injective, length,
  length-append, All, All-append, arith, true, false, Bool-cases, inl, inr, if◌then◌else◌,
}
use mathlib.Core.Path.{subst}
use mathlib.Core.List.{Perm, perm_middle, append-nil, append_assoc}
use mathlib.Core.List.Perm
use space_db.Types.{Value, Row, value_eq, is_null}
use space_db.Executor.Aggregates.{cell_at, count_cells, add_row, group_rows}

module _ (i : ℕ) where
  -- The row's value is the key, or Go's `==` takes it for the key.
  abbrev pub HasKey : Value → Row → Type 0
  HasKey key row = (v : Value) × (cell_at i row ≡ ok v) × ((key ≡ v) ⊎ (value_eq key v ≡ true))

  abbrev pub IsGroup : Value × List Row → Type 0
  IsGroup group = (0 < length group.1) × All (HasKey group.0) group.1

  -- The rows of all groups.
  abbrev pub all_rows : List (Value × List Row) → List Row
  all_rows [] = []
  all_rows (group ∷ groups) = group.1 ++ all_rows groups

  all_rows-add_row :
      (key : Value) (row : Row) (groups : List (Value × List Row))
      → Perm (all_rows (add_row key row groups)) (row ∷ all_rows groups)
  unfolding add_row
  all_rows-add_row key row [] = Perm.rfl
  all_rows-add_row key row ((k, rows) ∷ groups) = elim (Bool-cases (value_eq k key)) [
    | inl same ↦
        rw (same, append_assoc rows (row ∷ []) (all_rows groups))
          (perm_middle rows (all_rows groups))
    | inr other ↦ rw other (
        Perm.trans (Perm.append Perm.rfl (all_rows-add_row key row groups))
          (perm_middle rows (all_rows groups)))
  ]

  add_row-IsGroup :
      (key : Value) (row : Row) (groups : List (Value × List Row))
      → cell_at i row ≡ ok key
      → All IsGroup groups
      → All IsGroup (add_row key row groups)
  unfolding add_row
  add_row-IsGroup key row [] e h = ((omega arith, ((key, e, inl refl), tt)), tt)
  add_row-IsGroup key row ((k, rows) ∷ groups) e h = elim (Bool-cases (value_eq k key)) [
    | inl same ↦ rw same (
      (
        omega (arith, length-append rows (row ∷ [])),
        All-append (HasKey k) rows (row ∷ []) h.0.1 ((key, e, inr same), tt),
      ),
      h.1,
    )
    | inr other ↦ rw other (h.0, add_row-IsGroup key row groups e h.1)
  ]

  -- No key is taken for a later one.
  abbrev pub Fresh : Value → List (Value × List Row) → Type 0
  Fresh k [] = Unit
  Fresh k (group ∷ groups) = (value_eq k group.0 ≡ false) × Fresh k groups

  abbrev pub AreDistinct : List (Value × List Row) → Type 0
  AreDistinct [] = Unit
  AreDistinct (group ∷ groups) = Fresh group.0 groups × AreDistinct groups

  Fresh-add_row :
      (k key : Value) (row : Row) (groups : List (Value × List Row))
      → value_eq k key ≡ false
      → Fresh k groups
      → Fresh k (add_row key row groups)
  unfolding add_row
  Fresh-add_row k key row [] e h = (e, tt)
  Fresh-add_row k key row ((j, rows) ∷ groups) e h = elim (Bool-cases (value_eq j key)) [
    | inl same ↦ rw same h
    | inr other ↦ rw other (h.0, Fresh-add_row k key row groups e h.1)
  ]

  add_row-AreDistinct :
      (key : Value) (row : Row) (groups : List (Value × List Row))
      → AreDistinct groups
      → AreDistinct (add_row key row groups)
  unfolding add_row
  add_row-AreDistinct key row [] h = (tt, tt)
  add_row-AreDistinct key row ((k, rows) ∷ groups) h = elim (Bool-cases (value_eq k key)) [
    | inl same ↦ rw same h
    | inr other ↦
        rw other (Fresh-add_row k key row groups other h.0, add_row-AreDistinct key row groups h.1)
  ]

  abbrev pub AreGroups : List Row → List (Value × List Row) → Type 0
  AreGroups rows groups = Perm (all_rows groups) rows × All IsGroup groups × AreDistinct groups

  group_rows-adds :
      (rows before : List Row) (groups found : List (Value × List Row))
      → AreGroups before groups
      → group_rows i rows groups ≡ ok found
      → AreGroups (rows ++ before) found
  unfolding group_rows
  group_rows-adds [] before groups found h e = subst (AreGroups before) (ok-injective e) h
  group_rows-adds (row ∷ rows) before groups found h e =
      let (key, at, e') = >>=-eq-ok (cell_at i row) _ e in
      let (perm, nonempty, distinct) =
        group_rows-adds rows (row ∷ before) (add_row key row groups) found
          (
            Perm.trans (all_rows-add_row key row groups) (Perm.cons row h.0),
            add_row-IsGroup key row groups at h.1,
            add_row-AreDistinct key row groups h.2,
          )
          e' in
      (Perm.trans perm (perm_middle rows before), nonempty, distinct)

  -- Where grouping returns no error, the rows of all groups are the rows of the source, each as often
  -- as there, no group is empty, the value of each of its rows in the column is the group's key or
  -- equal to it, and no group's key is equal to a later group's.
  pub group_rows-AreGroups :
      (rows : List Row) (found : List (Value × List Row))
      → group_rows i rows [] ≡ ok found
      → AreGroups rows found
  group_rows-AreGroups rows found e =
      subst (λ l. AreGroups l found) (append-nil rows)
        (group_rows-adds rows [] [] found (Perm.rfl, tt, tt) e)

  count_cells-le :
      (rows : List Row) (count c : ℕ)
      → count_cells i rows count ≡ ok c
      → (count ≤ c) × (c ≤ count + length rows)
  unfolding count_cells
  count_cells-le [] count c e = let same : count ≡ c = ok-injective e in (omega arith, omega arith)
  count_cells-le (row ∷ rows) count c e =
      let (v, _, e') = >>=-eq-ok (cell_at i row) _ e in
      let later = count_cells-le rows (if is_null v then count else count + 1) c e' in
      elim (Bool-cases (is_null v)) [
        | inl absent ↦
            let bounds = rw absent at later in (omega (arith, bounds.0), omega (arith, bounds.1))
        | inr there ↦
            let bounds = rw there at later in (omega (arith, bounds.0), omega (arith, bounds.1))
      ]
