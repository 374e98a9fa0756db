-- ===== src/Executor/Inserts.antt =====
-- executor/executor.go: makeInsertRow.
use space_db.Base.{
  ℕ, ◌+◌, not, List, [], ◌∷◌, ◌++◌, Option, none, some, Result, ok, err, ◌>>=◌, if◌then◌else◌, drop,
  length, ltb, ◌==◌, get_or, set_elem,
}
use space_db.Bytes.{Bytes, compare_bytes, bytes_eq}
use space_db.Types.{
  Value, Row, SqlError, too_many_values, value_count, no_default, repeated_column, column_missing,
}
use space_db.Schema.{Column, Table}

-- `*column.Default`, or the error of the two places that need one.
unfoldable pub default_of : Column → Option Value → Result SqlError Value
default_of c none = err (no_default c.name)
default_of c (some v) = ok v

unfoldable pub default_tail : List Column → Result SqlError Row
unfolding default_of
default_tail [] = ok []
default_tail (c ∷ cs) = do v ← default_of c c.default_value; rest ← default_tail cs; ok (v ∷ rest)

-- `positions[name]`: the map keeps the last column of a name.
unfoldable pub position_from : ℕ → List Column → Bytes → Option ℕ
unfolding compare_bytes
position_from i [] name = none
position_from i (c ∷ cs) name =
    let later = position_from (i + 1) cs name in
    elim later [ some j ↦ some j | none ↦ if bytes_eq c.name name then some i else none ]

-- `result` and `filled`: the places that have a value.
abbrev pub Filled : Type 0
Filled = List (Option Value)

-- A place that is already filled was named before.
unfoldable pub place : Bytes → Value → Filled → ℕ → Option Value → Result SqlError Filled
place name v filled i (some taken) = err (repeated_column name)
place name v filled i none = ok (set_elem filled i (some v))

unfoldable pub fill_at : Bytes → Value → Filled → Option ℕ → Result SqlError Filled
unfolding place
fill_at name v filled none = err (column_missing name)
fill_at name v filled (some i) = place name v filled i (get_or filled i none)

unfoldable pub fill : List Column → List Bytes → Row → Filled → Result SqlError Filled
unfolding fill_at position_from
fill cs [] input filled = ok filled
fill cs (name ∷ names) [] filled = ok filled
fill cs (name ∷ names) (v ∷ input) filled = do
  filled' ← fill_at name v filled (position_from 0 cs name)
  fill cs names input filled'

-- The last loop: the defaults of the places that are still empty.
unfoldable pub complete : List Column → Filled → Result SqlError Row
unfolding default_of
complete [] filled = ok []
complete (c ∷ cs) [] = ok []
complete (c ∷ cs) (some v ∷ filled) = do rest ← complete cs filled; ok (v ∷ rest)
complete (c ∷ cs) (none ∷ filled) = do
  v ← default_of c c.default_value
  rest ← complete cs filled
  ok (v ∷ rest)

abbrev pub empty_places : List Column → Filled
empty_places [] = []
empty_places (c ∷ cs) = none ∷ empty_places cs

unfoldable pub in_order : Table → Row → Result SqlError Row
unfolding default_tail
in_order table input =
    if ltb (length table.columns) (length input)
    then err too_many_values
    else do rest ← default_tail (drop (length input) table.columns); ok (input ++ rest)

unfoldable pub by_name : Table → List Bytes → Row → Result SqlError Row
unfolding fill complete
by_name table column_names input =
    if not (length column_names == length input) then err value_count else do
      filled ← fill table.columns column_names input (empty_places table.columns)
      complete table.columns filled

unfoldable pub make_insert_row : Table → List Bytes → Row → Result SqlError Row
unfolding in_order by_name
make_insert_row table column_names input =
    if length column_names == 0 then in_order table input else by_name table column_names input
