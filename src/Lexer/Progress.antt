-- ===== src/Lexer/Progress.antt =====
-- Every token but the last takes at least one byte of the input, and no byte is passed twice.
use space_db.Base.{
  ℕ, suc, ◌+◌, ◌≤◌, ◌<◌, ◌≡◌, refl, [], ◌∷◌, ◌++◌, Option, none, some, Bool, true, false, not,
  length, if◌then◌else◌, Result, ok, err, ◌==◌, ltb, arith, inl, inr, ◌⊎◌,
}
use mathlib.Core.Path.{subst}
use space_db.Bytes.{Bytes}
use space_db.Lexer.{
  Lexer, LexError, span, take_while, is_digit, is_identifier_start, is_identifier_part, is_space,
  word_token, scan_identifier, scan_integer, decimal, symbol_kind, advance, scan_symbol, at_point,
  is_end, end_string, scan_string, float_token, scan_fraction, scan_number, scan_token, scan_at,
  skip_whitespace, next,
}
use space_db.Lexer.Tokens.{Kind, Token, keyword_from_identifier}

pub length-span :
    (test : ℕ → Bool) (bs : Bytes) → length (span test bs).0 + length (span test bs).1 ≡ length bs
unfolding span
length-span test [] = omega arith
length-span test (c ∷ cs) = ground (arith, length-span test cs)

span_first :
    (test : ℕ → Bool) (c : ℕ) (cs : Bytes) → test c ≡ true → 0 < length (span test (c ∷ cs)).0
unfolding span
span_first test c cs h = rw h (omega arith)

either_list {ℓ} :
    {A : Type ℓ} (P : A → Type 0) (xs : Bytes) (x y : A)
    → P x
    → P y
    → P (elim xs [ [] ↦ x | c ∷ cs ↦ y ])
either_list P [] x y p q = p
either_list P (c ∷ cs) x y p q = q

either_option {ℓ κ} :
    {A : Type ℓ} {B : Type κ} (P : A → Type 0) (o : Option B) (x : A) (y : B → A)
    → P x
    → ((v : B) → o ≡ some v → P (y v))
    → P (elim o [ none ↦ x | some v ↦ y v ])
either_option P none x y p q = p
either_option P (some v) x y p q = q v refl

either_bool {ℓ} :
    {A : Type ℓ} (P : A → Type 0) (b : Bool) (x y : A)
    → (b ≡ true → P x)
    → (b ≡ false → P y)
    → P (if b then x else y)
either_bool P true x y p q = p refl
either_bool P false x y p q = q refl

-- A token that is read from the offset `begin` on, of an input of `total` bytes.
abbrev pub Scanned : ℕ → ℕ → Result LexError Token × Lexer → Type 0
Scanned begin total (err e, l) = Unit
Scanned begin total (ok token, l) =
    (is_end token.kind ≡ false)
    × (token.offset ≡ begin)
    × (begin < l.offset)
    × (l.offset + length l.rest ≡ total)

symbol_kind_not_end : (c : ℕ) (kind : Kind) → symbol_kind c ≡ some kind → is_end kind ≡ false
unfolding symbol_kind
symbol_kind_not_end c kind h = ground (arith, h)

scan_symbol-Scanned :
    (c o : ℕ) (cs : Bytes)
    → Scanned o (o + suc (length cs)) (scan_symbol c (record { offset = o; rest = c ∷ cs }))
unfolding scan_symbol
scan_symbol-Scanned c o cs =
    either_option (Scanned o (o + suc (length cs))) (symbol_kind c) _ _ tt
      (λ kind e. (symbol_kind_not_end c kind e, refl, omega arith, omega arith))

end_string-Scanned :
    (begin o total : ℕ) (text rest : Bytes)
    → begin < o
    → o + length rest ≡ total
    → Scanned begin total (end_string begin text (record { offset = o; rest = rest }))
unfolding end_string
end_string-Scanned begin o total text [] h k = tt
end_string-Scanned begin o total text (c ∷ cs) h k = (refl, refl, omega arith, omega arith)

scan_string-Scanned :
    (c o : ℕ) (cs : Bytes)
    → Scanned o (o + suc (length cs)) (scan_string (record { offset = o; rest = c ∷ cs }))
unfolding scan_string take_while
scan_string-Scanned c o cs =
    end_string-Scanned o (o + 1 + length (span (λ c. not (c == 39)) cs).0) (o + suc (length cs))
      (span (λ c. not (c == 39)) cs).0 (span (λ c. not (c == 39)) cs).1 (omega arith)
      (omega (arith, length-span (λ c. not (c == 39)) cs))

word_token-Scanned :
    (text : Bytes) (begin total : ℕ) (l : Lexer)
    → begin < l.offset
    → l.offset + length l.rest ≡ total
    → Scanned begin total (ok (word_token text begin), l)
unfolding word_token
word_token-Scanned text begin total l h k =
    either_option (λ t. Scanned begin total (ok t, l)) (keyword_from_identifier text) _ _
      (refl, refl, h, k) (λ keyword e. (refl, refl, h, k))

scan_identifier-Scanned :
    (c o : ℕ) (cs : Bytes)
    → is_identifier_part c ≡ true
    → Scanned o (o + suc (length cs)) (
      ok (scan_identifier (record { offset = o; rest = c ∷ cs })).0,
      (scan_identifier (record { offset = o; rest = c ∷ cs })).1,
    )
unfolding scan_identifier take_while
scan_identifier-Scanned c o cs h =
    word_token-Scanned (span is_identifier_part (c ∷ cs)).0 o (o + suc (length cs))
      (record {
        offset = o + length (span is_identifier_part (c ∷ cs)).0;
        rest = (span is_identifier_part (c ∷ cs)).1;
      })
      (omega (arith, span_first is_identifier_part c cs h))
      (omega (arith, length-span is_identifier_part (c ∷ cs)))

scan_integer-Scanned :
    (text : Bytes) (begin total : ℕ) (l : Lexer)
    → begin < l.offset
    → l.offset + length l.rest ≡ total
    → Scanned begin total (scan_integer text begin, l)
unfolding scan_integer
scan_integer-Scanned text begin total l h k =
    either_bool (λ r. Scanned begin total (r, l)) (ltb (decimal 0 text) 9223372036854775808) _ _
      (λ e. (refl, refl, h, k)) (λ e. tt)

module _ (parse_float : Bytes → Option ℕ) where
  float_token-Scanned :
      (text : Bytes) (begin total : ℕ) (l : Lexer)
      → begin < l.offset
      → l.offset + length l.rest ≡ total
      → Scanned begin total (float_token parse_float begin text, l)
  unfolding float_token
  float_token-Scanned text begin total l h k =
      either_option (λ r. Scanned begin total (r, l)) (parse_float text) _ _ tt
        (λ bits e. (refl, refl, h, k))

  scan_fraction-Scanned :
      (begin o total : ℕ) (whole rest : Bytes)
      → begin < o
      → o + length rest ≡ total
      → Scanned begin total
          (scan_fraction parse_float begin whole (record { offset = o; rest = rest }))
  unfolding scan_fraction take_while
  scan_fraction-Scanned begin o total whole rest h k =
      either_list (Scanned begin total) (span is_digit rest).0 _ _ tt (
        float_token-Scanned (whole ++ (46 ∷ (span is_digit rest).0)) begin total _ (omega arith)
          (omega (arith, length-span is_digit rest)))

  -- Behind the digits of a number.
  number-Scanned :
      (begin o total : ℕ) (text rest : Bytes)
      → begin < o
      → o + length rest ≡ total
      → Scanned begin total (
          if at_point rest
          then scan_fraction parse_float begin text (advance (record { offset = o; rest = rest }))
          else (scan_integer text begin, record { offset = o; rest = rest }))
  unfolding at_point
  number-Scanned begin o total text [] h k = scan_integer-Scanned text begin total _ h k
  number-Scanned begin o total text (c ∷ cs) h k =
      either_bool (Scanned begin total) (c == 46) _ _
        (λ e. scan_fraction-Scanned begin (o + 1) total text cs (omega arith) (omega arith))
        (λ e. scan_integer-Scanned text begin total _ h k)

  scan_number-Scanned :
      (c o : ℕ) (cs : Bytes)
      → is_digit c ≡ true
      → Scanned o
          (o + suc (length cs))
          (scan_number parse_float (record { offset = o; rest = c ∷ cs }))
  unfolding scan_number take_while
  scan_number-Scanned c o cs h =
      number-Scanned o (o + length (span is_digit (c ∷ cs)).0) (o + suc (length cs))
        (span is_digit (c ∷ cs)).0 (span is_digit (c ∷ cs)).1
        (omega (arith, span_first is_digit c cs h)) (omega (arith, length-span is_digit (c ∷ cs)))

  part_of_start : (c : ℕ) → is_identifier_start c ≡ true → is_identifier_part c ≡ true
  part_of_start c h = rw h refl

  scan_token-Scanned :
      (c o : ℕ) (cs : Bytes)
      → Scanned o
          (o + suc (length cs))
          (scan_token parse_float c (record { offset = o; rest = c ∷ cs }))
  unfolding scan_token
  scan_token-Scanned c o cs =
      either_bool (Scanned o (o + suc (length cs))) (c == 39) _ _ (λ e. scan_string-Scanned c o cs)
        (λ e.
          either_bool (Scanned o (o + suc (length cs))) (is_digit c) _ _
            (λ d. scan_number-Scanned c o cs d)
            (λ d.
              either_bool (Scanned o (o + suc (length cs))) (is_identifier_start c) _ _
                (λ w. scan_identifier-Scanned c o cs (part_of_start c w))
                (λ w. scan_symbol-Scanned c o cs)))

  -- What a call of Next reads: the token for the end, at the end, or a token behind which the rest of
  -- the input is shorter.
  abbrev pub Read : Lexer → Result LexError Token × Lexer → Type 0
  Read l (err e, l') = Unit
  Read l (ok token, l') =
      (l.offset ≤ token.offset)
      × (l'.offset + length l'.rest ≡ l.offset + length l.rest)
      × (((is_end token.kind ≡ true) × (token.offset ≡ l.offset + length l.rest))
          ⊎ ((is_end token.kind ≡ false) × (token.offset < l'.offset)))

  Read-Scanned :
      (l : Lexer) (begin : ℕ) (r : Result LexError Token × Lexer)
      → l.offset ≤ begin
      → Scanned begin (l.offset + length l.rest) r
      → Read l r
  Read-Scanned l begin (err e, l') h k = tt
  Read-Scanned l begin (ok token, l') h (kept, at_begin, further, same) =
      (omega arith, same, inr (kept, omega arith))

  scan_at-Read :
      (l : Lexer) (o : ℕ) (rest : Bytes)
      → l.offset ≤ o
      → o + length rest ≡ l.offset + length l.rest
      → Read l (scan_at parse_float (record { offset = o; rest = rest }))
  unfolding scan_at
  scan_at-Read l o [] h k = (h, k, inl (refl, omega arith))
  scan_at-Read l o (c ∷ cs) h k =
      Read-Scanned l o (scan_token parse_float c (record { offset = o; rest = c ∷ cs })) h (
        subst (λ n. Scanned o n (scan_token parse_float c (record { offset = o; rest = c ∷ cs }))) k
          (scan_token-Scanned c o cs))

  pub next-Read : (l : Lexer) → Read l (next parse_float l)
  unfolding next skip_whitespace take_while
  next-Read l =
      scan_at-Read l (l.offset + length (span is_space l.rest).0) (span is_space l.rest).1
        (omega arith) (omega (arith, length-span is_space l.rest))
