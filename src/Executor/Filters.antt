-- ===== src/Executor/Filters.antt =====
-- What a filter keeps, and how LIMIT and OFFSET cut.
use space_db.Base.{
  ℕ, zero, suc, ◌≡◌, refl, ap, ◌∙◌, sym, Bool, true, List, [], ◌∷◌, ◌++◌, Result, ok, if◌then◌else◌,
  take, length, ltb, arith, All, >>=-eq-ok, ok-injective, take-append-drop, Bool-cases, inl, inr,
}
use space_db.Bytes.{Bytes}
use space_db.Types.{Value, Row, SqlError}
use space_db.Ast.{Expression}
use space_db.Executor.Expressions.{evaluate_expression}
use space_db.Executor.Predicates.{passes, passes-is_true}
use space_db.Executor.Relations.{RowsResult, is_true, filter_rows, filter, offset, limit}

abbrev pub row_passes : Expression → List Bytes → Row → Bool
row_passes predicate columns row = passes predicate columns row columns row

abbrev pub keep : (Row → Bool) → List Row → List Row
keep test [] = []
keep test (row ∷ rows) = if test row then row ∷ keep test rows else keep test rows

module _ (predicate : Expression) (columns : List Bytes) where
  abbrev pub Evaluates : Row → Type 0
  Evaluates row = (v : Value) × (evaluate_expression predicate columns row columns row ≡ ok v)

  keep_step :
      (row : Row) (v : Value) (rows kept out : List Row)
      → evaluate_expression predicate columns row columns row ≡ ok v
      → kept ≡ keep (row_passes predicate columns) rows
      → ◌≡◌ {A = Result SqlError (List Row)} (ok (if is_true v then row ∷ kept else kept)) (ok out)
      → out ≡ keep (row_passes predicate columns) (row ∷ rows)
  keep_step row v rows kept out hv same e =
      sym (ok-injective e) ∙ rw (passes-is_true predicate columns row columns row v hv, same) refl

  filter_rows-keep :
      (rows out : List Row)
      → filter_rows predicate columns rows ≡ ok out
      → All Evaluates rows × (out ≡ keep (row_passes predicate columns) rows)
  unfolding filter_rows
  filter_rows-keep [] out h = (tt, sym (ok-injective h))
  filter_rows-keep (row ∷ rows) out h =
      let (v, hv, rest) = >>=-eq-ok (evaluate_expression predicate columns row columns row) _ h in
      let (kept, hk, e) = >>=-eq-ok (filter_rows predicate columns rows) _ rest in
      let (all, same) = filter_rows-keep rows kept hk in
      (((v, hv), all), keep_step row v rows kept out hv same e)

  filter_rows-ok :
      (rows : List Row)
      → All Evaluates rows
      → filter_rows predicate columns rows ≡ ok (keep (row_passes predicate columns) rows)
  unfolding filter_rows
  filter_rows-ok [] h = refl
  filter_rows-ok (row ∷ rows) ((v, hv), rest) =
      rw (hv, filter_rows-ok rows rest, passes-is_true predicate columns row columns row v hv) refl

-- A filter whose predicate has a value for every row keeps the columns and, in their order, the
-- rows of which the predicate is true: a comparison of which both operands have a value that is not
-- null, with the order that it asks for, the constant true, or a column with the value true. It keeps
-- no row for which the value is false, null or of another type.
pub filter-keep :
    (predicate : Expression) (source : RowsResult)
    → All (Evaluates predicate source.columns) source.rows
    → filter predicate source
      ≡ ok (record {
        columns = source.columns;
        rows = keep (row_passes predicate source.columns) source.rows;
      })
unfolding filter
filter-keep predicate source h = rw (filter_rows-ok predicate source.columns source.rows h) refl

-- A filter that succeeds had a value for every row.
pub filter-Evaluates :
    (predicate : Expression) (source out : RowsResult)
    → filter predicate source ≡ ok out
    → All (Evaluates predicate source.columns) source.rows
unfolding filter
filter-Evaluates predicate source out h =
    let (kept, hk, e) = >>=-eq-ok (filter_rows predicate source.columns source.rows) _ h in
    (filter_rows-keep predicate source.columns source.rows kept hk).0

-- LIMIT n gives the first n rows, and these with the rows from OFFSET n on are all rows.
pub limit-offset :
    (n : ℕ) (source : RowsResult)
    → ((limit n source).rows ++ (offset n source).rows ≡ source.rows)
      × ((limit n source).rows ≡ take n source.rows)
unfolding limit offset
limit-offset n source = (
  take-append-drop (if ltb (length source.rows) n then length source.rows else n) source.rows,
  cut n source.rows,
)
  where
    take_all :
        (n : ℕ) (rows : List Row)
        → ltb (length rows) n ≡ true
        → take (length rows) rows ≡ take n rows
    take_all zero [] h = refl
    take_all (suc n) [] h = refl
    take_all zero (row ∷ rows) h = absurd (ground arith)
    take_all (suc n) (row ∷ rows) h = ap (λ t. row ∷ t) (take_all n rows (ground arith))

    cut :
        (n : ℕ) (rows : List Row)
        → take (if ltb (length rows) n then length rows else n) rows ≡ take n rows
    cut n rows = elim (Bool-cases (ltb (length rows) n)) [
      | inl long ↦ rw long (take_all n rows long)
      | inr short ↦ rw short refl
    ]
