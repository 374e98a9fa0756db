-- ===== src/Lexer/Keywords.antt =====
-- Which words are keywords.
use space_db.Base.{
  ◌≡◌, refl, sym, ap, ◌∙◌, List, [], ◌∷◌, some, some-injective, ◌↔◌, Bool-cases, inl, inr,
}
use space_db.Bytes.{Bytes, bytes_eq, compare_bytes}
use space_db.Bytes.Order.{bytes_eq_iff}
use space_db.Lexer.Tokens.{
  Keyword, spelling, keywords, spelled, keyword_from_identifier, to_upper, keyword_create,
  keyword_table, keyword_int, keyword_integer, keyword_boolean, keyword_bool, keyword_string,
  keyword_text, keyword_varchar, keyword_float, keyword_double, keyword_select, keyword_from,
  keyword_insert, keyword_into, keyword_values, keyword_true, keyword_false, keyword_default,
  keyword_not, keyword_null, keyword_primary, keyword_key, keyword_update, keyword_set,
  keyword_where, keyword_delete, keyword_group, keyword_having, keyword_order, keyword_by,
  keyword_asc, keyword_desc, keyword_limit, keyword_offset, keyword_as, keyword_cross, keyword_join,
  keyword_left, keyword_right, keyword_on,
}

spelled-found :
    (text : Bytes) (k : Keyword) (ks : List Keyword) → spelled text ks ≡ some k → spelling k ≡ text
unfolding spelled
spelled-found text k [] h = cc h
spelled-found text k (j ∷ ks) h = elim (Bool-cases (bytes_eq (spelling j) text)) [
  | inl same ↦
      ap spelling (sym (some-injective (rw same at h))) ∙ (bytes_eq_iff (spelling j) text).0 same
  | inr other ↦ spelled-found text k ks (rw other at h)
]

spelled-spelling : (k : Keyword) → spelled (spelling k) keywords ≡ some k
unfolding spelled spelling compare_bytes
spelled-spelling keyword_create = refl
spelled-spelling keyword_table = refl
spelled-spelling keyword_int = refl
spelled-spelling keyword_integer = refl
spelled-spelling keyword_boolean = refl
spelled-spelling keyword_bool = refl
spelled-spelling keyword_string = refl
spelled-spelling keyword_text = refl
spelled-spelling keyword_varchar = refl
spelled-spelling keyword_float = refl
spelled-spelling keyword_double = refl
spelled-spelling keyword_select = refl
spelled-spelling keyword_from = refl
spelled-spelling keyword_insert = refl
spelled-spelling keyword_into = refl
spelled-spelling keyword_values = refl
spelled-spelling keyword_true = refl
spelled-spelling keyword_false = refl
spelled-spelling keyword_default = refl
spelled-spelling keyword_not = refl
spelled-spelling keyword_null = refl
spelled-spelling keyword_primary = refl
spelled-spelling keyword_key = refl
spelled-spelling keyword_update = refl
spelled-spelling keyword_set = refl
spelled-spelling keyword_where = refl
spelled-spelling keyword_delete = refl
spelled-spelling keyword_group = refl
spelled-spelling keyword_having = refl
spelled-spelling keyword_order = refl
spelled-spelling keyword_by = refl
spelled-spelling keyword_asc = refl
spelled-spelling keyword_desc = refl
spelled-spelling keyword_limit = refl
spelled-spelling keyword_offset = refl
spelled-spelling keyword_as = refl
spelled-spelling keyword_cross = refl
spelled-spelling keyword_join = refl
spelled-spelling keyword_left = refl
spelled-spelling keyword_right = refl
spelled-spelling keyword_on = refl

-- A word is read as a keyword just when its letters, taken as capitals, are the keyword's spelling.
pub keyword_from_identifier-spelling :
    (text : Bytes) (k : Keyword)
    → (keyword_from_identifier text ≡ some k) ↔ (to_upper text ≡ spelling k)
unfolding keyword_from_identifier
keyword_from_identifier-spelling text k = (
  λ h. sym (spelled-found (to_upper text) k keywords h),
  λ e. ap (λ t. spelled t keywords) e ∙ spelled-spelling k,
)
