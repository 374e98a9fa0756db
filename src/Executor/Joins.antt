-- ===== src/Executor/Joins.antt =====
-- What the nested loop join produces.
use space_db.Base.{
  ℕ, zero, suc, ◌≡◌, refl, ap, ◌∙◌, sym, Bool, true, false, List, [], ◌∷◌, ◌++◌, Option, none, some,
  ok, if◌then◌else◌, length, map, >>=-eq-ok, ok-injective,
}
use mathlib.Core.Path.{ap₂}
use space_db.Bytes.{Bytes}
use space_db.Types.{Value, value_null, Row}
use space_db.Ast.{Expression}
use space_db.Executor.Expressions.{evaluate_expression}
use space_db.Executor.Filters.{keep}
use space_db.Executor.Predicates.{passes, passes-is_true}
use space_db.Executor.Relations.{RowsResult, is_match, matches, join_rows, join, pad_row, nulls}

abbrev pub repeated : ℕ → Value → Row
repeated zero v = []
repeated (suc n) v = v ∷ repeated n v

-- What stands for a left row: its pairs, or, in an outer join, one row with so many nulls where there
-- are none.
abbrev pub or_unmatched : Bool → ℕ → Row → List Row → List Row
or_unmatched true width a [] = (a ++ repeated width value_null) ∷ []
or_unmatched false width a [] = []
or_unmatched true width a (row ∷ rows) = row ∷ rows
or_unmatched false width a (row ∷ rows) = row ∷ rows

-- The rows of a join: for each left row, in order, its concatenations with the right rows for which
-- the test holds, in order.
abbrev pub pairs : (Row → Row → Bool) → Bool → ℕ → List Row → List Row → List Row
pairs test outer width [] bs = []
pairs test outer width (a ∷ as') bs =
    or_unmatched outer width a (map (λ b. a ++ b) (keep (test a) bs))
    ++ pairs test outer width as' bs

-- Whether the predicate, if there is one, is true of a pair.
abbrev pub pair_passes : Option Expression → List Bytes → List Bytes → Row → Row → Bool
pair_passes none lc rc a b = true
pair_passes (some predicate) lc rc a b = passes predicate lc a rc b

nulls-repeated : (rc : List Bytes) → nulls rc ≡ repeated (length rc) value_null
nulls-repeated [] = refl
nulls-repeated (c ∷ cs) = ap (λ l. value_null ∷ l) (nulls-repeated cs)

pad_row-or_unmatched :
    (outer : Bool) (a : Row) (rc : List Bytes) (rows : List Row)
    → pad_row outer a rc rows ≡ or_unmatched outer (length rc) a rows
pad_row-or_unmatched true a rc [] = ap (λ l. (a ++ l) ∷ []) (nulls-repeated rc)
pad_row-or_unmatched false a rc [] = refl
pad_row-or_unmatched true a rc (row ∷ rows) = refl
pad_row-or_unmatched false a rc (row ∷ rows) = refl

is_match-passes :
    (predicate : Option Expression) (lc rc : List Bytes) (a b : Row) (t : Bool)
    → is_match predicate lc a rc b ≡ ok t
    → pair_passes predicate lc rc a b ≡ t
unfolding is_match
is_match-passes none lc rc a b t h = ok-injective h
is_match-passes (some predicate) lc rc a b t h =
    let (v, hv, e) = >>=-eq-ok (evaluate_expression predicate lc a rc b) _ h in
    passes-is_true predicate lc a rc b v hv ∙ ok-injective e

module _ (predicate : Option Expression) (outer : Bool) (lc rc : List Bytes) where
  abbrev partners : Row → List Row → List Row
  partners a bs = map (λ b. a ++ b) (keep (pair_passes predicate lc rc a) bs)

  partners_step :
      (a b : Row) (t : Bool) (bs : List Row)
      → pair_passes predicate lc rc a b ≡ t
      → (if t then (a ++ b) ∷ partners a bs else partners a bs) ≡ partners a (b ∷ bs)
  partners_step a b true bs h = rw h refl
  partners_step a b false bs h = rw h refl

  matches-partners :
      (a : Row) (bs out : List Row) → matches predicate lc a rc bs ≡ ok out → out ≡ partners a bs
  unfolding matches
  matches-partners a [] out h = sym (ok-injective h)
  matches-partners a (b ∷ bs) out h =
      let (t, ht, rest) = >>=-eq-ok (is_match predicate lc a rc b) _ h in
      let (found, hf, e) = >>=-eq-ok (matches predicate lc a rc bs) _ rest in
      sym (ok-injective e)
      ∙ ap (λ (l : List Row). if t then (a ++ b) ∷ l else l) (matches-partners a bs found hf)
      ∙ partners_step a b t bs (is_match-passes predicate lc rc a b t ht)

  join_rows-pairs :
      (as' bs out : List Row)
      → join_rows predicate outer lc as' rc bs ≡ ok out
      → out ≡ pairs (pair_passes predicate lc rc) outer (length rc) as' bs
  unfolding join_rows
  join_rows-pairs [] bs out h = sym (ok-injective h)
  join_rows-pairs (a ∷ as') bs out h =
      let (found, hf, rest) = >>=-eq-ok (matches predicate lc a rc bs) _ h in
      let (more, hm, e) = >>=-eq-ok (join_rows predicate outer lc as' rc bs) _ rest in
      sym (ok-injective e)
      ∙ ap₂ (λ f m. f ++ m)
          (pad_row-or_unmatched outer a rc found
            ∙ ap (or_unmatched outer (length rc) a) (matches-partners a bs found hf))
          (join_rows-pairs as' bs more hm)

-- A join that succeeds returns the columns of both inputs and, for each left row in order, its
-- concatenation with each right row, in order, for which the predicate is true, or with every right
-- row where there is no predicate. A comparison is true when both operands, the left one of the left
-- row and the right one of the right row, have a value that is not null, with the order that it asks
-- for. For a left row without such a right row an outer join
-- returns that row with a null for each column of the right input, and another join nothing.
pub join-pairs :
    (predicate : Option Expression) (outer : Bool) (left right out : RowsResult)
    → join predicate outer left right ≡ ok out
    → (out.columns ≡ left.columns ++ right.columns)
      × (out.rows
          ≡ pairs
              (pair_passes predicate left.columns right.columns)
              outer
              (length right.columns)
              left.rows
              right.rows)
unfolding join
join-pairs predicate outer left right out h =
    let (joined, hj, e) =
      >>=-eq-ok (join_rows predicate outer left.columns left.rows right.columns right.rows) _ h in
    (
      ap (λ (r : RowsResult). r.columns) (sym (ok-injective e)),
      ap (λ (r : RowsResult). r.rows) (sym (ok-injective e))
          ∙ join_rows-pairs predicate outer left.columns right.columns left.rows right.rows joined
              hj,
    )
