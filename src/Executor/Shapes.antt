-- ===== src/Executor/Shapes.antt =====
-- The shape of what a projection returns.
use space_db.Base.{
  ℕ, suc, ◌≡◌, refl, sym, ap, ◌∙◌, List, [], ◌∷◌, ok, >>=-eq-ok, ok-injective, length, All,
}
use mathlib.Core.Path.{subst}
use space_db.Bytes.{Bytes}
use space_db.Types.{Row}
use space_db.Ast.{SelectItem}
use space_db.Executor.Relations.{RowsResult}
use space_db.Executor.Projection.{
  Source, resolve_item, resolve_items, cell, project_row, project_rows, output_names, project,
}

length-resolve_items :
    (columns : List Bytes) (items : List SelectItem) (found : List (Bytes × Source))
    → resolve_items columns items ≡ ok found
    → length found ≡ length items
unfolding resolve_items
length-resolve_items columns [] found h = ap length (sym (ok-injective h))
length-resolve_items columns (item ∷ items) found h =
    let (first, _, h') = >>=-eq-ok (resolve_item columns item.alias item.expression) _ h in
    let (others, e, h'') = >>=-eq-ok (resolve_items columns items) _ h' in
    ap length (sym (ok-injective h'')) ∙ ap suc (length-resolve_items columns items others e)

length-project_row :
    (items : List (Bytes × Source)) (row found : Row)
    → project_row items row ≡ ok found
    → length found ≡ length items
unfolding project_row
length-project_row [] row found h = ap length (sym (ok-injective h))
length-project_row ((name, source) ∷ items) row found h =
    let (v, _, h') = >>=-eq-ok (cell row source) _ h in
    let (vs, e, h'') = >>=-eq-ok (project_row items row) _ h' in
    ap length (sym (ok-injective h'')) ∙ ap suc (length-project_row items row vs e)

-- Rows of this length, as many as there were.
abbrev pub AreRows : ℕ → ℕ → List Row → Type 0
AreRows width count rows = (length rows ≡ count) × All (λ row. length row ≡ width) rows

project_rows-AreRows :
    (items : List (Bytes × Source)) (rows found : List Row)
    → project_rows items rows ≡ ok found
    → AreRows (length items) (length rows) found
unfolding project_rows
project_rows-AreRows items [] found h = subst (AreRows (length items) 0) (ok-injective h) (refl, tt)
project_rows-AreRows items (row ∷ rows) found h =
    let (first, e, h') = >>=-eq-ok (project_row items row) _ h in
    let (others, e', h'') = >>=-eq-ok (project_rows items rows) _ h' in
    let (counted, widths) = project_rows-AreRows items rows others e' in
    subst (AreRows (length items) (suc (length rows))) (ok-injective h'')
      (ap suc counted, (length-project_row items row first e, widths))

length-output_names : (items : List (Bytes × Source)) → length (output_names items) ≡ length items
length-output_names [] = refl
length-output_names ((name, source) ∷ items) = ap suc (length-output_names items)

-- A projection that returns no error returns a column for each of its items, a row for each row of
-- its source, and in each row a value for each of its columns.
pub project-AreRows :
    (items : List SelectItem) (source result : RowsResult)
    → project items source ≡ ok result
    → (length result.columns ≡ length items)
      × AreRows (length result.columns) (length source.rows) result.rows
unfolding project
project-AreRows items source result h =
    let (resolved, e, h') = >>=-eq-ok (resolve_items source.columns items) _ h in
    let (rows, e', h'') = >>=-eq-ok (project_rows resolved source.rows) _ h' in
    subst
      (λ (r : RowsResult).
        (length r.columns ≡ length items) × AreRows (length r.columns) (length source.rows) r.rows)
      (ok-injective h'')
      (
        length-output_names resolved ∙ length-resolve_items source.columns items resolved e,
        subst (λ w. AreRows w (length source.rows) rows) (sym (length-output_names resolved))
            (project_rows-AreRows resolved source.rows rows e'),
      )
