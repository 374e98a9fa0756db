-- ===== src/Lexer.antt =====
-- lexer/lexer.go: from the text of a statement to its tokens. The state is the offset and what the
-- input has from there on.
pub mod Tokens
pub mod Progress
pub mod Keywords
pub mod Tokenized
use space_db.Base.{
  ℕ, zero, suc, ◌+◌, ◌-◌, ◌*◌, [], ◌∷◌, ◌++◌, List, Option, none, some, Bool, true, false, not,
  ◌&&◌, ◌||◌, length, ltb, leb, ◌==◌, if◌then◌else◌, Result, ok, err,
}
use space_db.Base.Exec.{Exec}
use space_db.Bytes.{Bytes}
use space_db.Types.Int64.{pos}
use Tokens.{
  Kind, end_of_input, keyword_kind, identifier, string, number, open_paren, close_paren, comma,
  semicolon, asterisk, plus, minus, slash, equal, greater_than, less_than, Token, TokenValue,
  no_value, text_value, integer_value, float_value, to_lower, keyword_from_identifier,
}

pub record Lexer : Type 0 where
  pub offset : ℕ
  pub rest : Bytes

-- The messages of the lexer, with the offset that they print.
pub data LexError : Type 0 where
  digits_required integer_out_of_range invalid_number unterminated_string : ℕ → LexError
  unexpected_character : ℕ → ℕ → LexError

abbrev pub new_lexer : Bytes → Lexer
new_lexer input = record { offset = 0; rest = input }

abbrev pub is_digit : ℕ → Bool
is_digit c = leb 48 c && leb c 57

abbrev pub is_identifier_start : ℕ → Bool
is_identifier_start c = (leb 97 c && leb c 122) || (leb 65 c && leb c 90) || (c == 95)

abbrev pub is_identifier_part : ℕ → Bool
is_identifier_part c = is_identifier_start c || is_digit c

-- The cutset of `strings.TrimLeft`.
abbrev pub is_space : ℕ → Bool
is_space c = (c == 32) || (c == 9) || (c == 13) || (c == 10) || (c == 12) || (c == 11)

-- The bytes in front that pass a test, and the rest.
unfoldable pub span : (ℕ → Bool) → Bytes → Bytes × Bytes
span test [] = ([], [])
span test (c ∷ cs) =
    let later = span test cs in if test c then (c ∷ later.0, later.1) else ([], c ∷ cs)

-- The loops that advance while a test holds.
unfoldable pub take_while : (ℕ → Bool) → Lexer → Bytes × Lexer
take_while test l =
    let cut = span test l.rest in (cut.0, record { offset = l.offset + length cut.0; rest = cut.1 })

unfoldable pub skip_whitespace : Lexer → Lexer
skip_whitespace l = (take_while is_space l).1

abbrev pub token_at : Kind → TokenValue → ℕ → Token
token_at kind value begin = record { kind = kind; keyword = none; value = value; offset = begin }

unfoldable pub word_token : Bytes → ℕ → Token
word_token text begin = elim (keyword_from_identifier text) [
  | some k ↦ record { kind = keyword_kind; keyword = some k; value = no_value; offset = begin }
  | none ↦ token_at identifier (text_value (to_lower text)) begin
]

unfoldable pub scan_identifier : Lexer → Token × Lexer
scan_identifier l =
    let word = take_while is_identifier_part l in (word_token word.0 l.offset, word.1)

-- `strconv.ParseInt(text, 10, 64)` of digits: none where it is out of range.
unfoldable pub decimal : ℕ → Bytes → ℕ
decimal acc [] = acc
decimal acc (c ∷ cs) = decimal (acc * 10 + (c - 48)) cs

unfoldable pub scan_integer : Bytes → ℕ → Result LexError Token
scan_integer text begin =
    if ltb (decimal 0 text) 9223372036854775808
    then ok (token_at number (integer_value (pos (decimal 0 text))) begin)
    else err (integer_out_of_range begin)

unfoldable pub symbol_kind : ℕ → Option Kind
symbol_kind c =
    if c == 40
    then some open_paren
    else if c == 41
    then some close_paren
    else if c == 44
    then some comma
    else if c == 59
    then some semicolon
    else if c == 42
    then some asterisk
    else if c == 43
    then some plus
    else if c == 45
    then some minus
    else if c == 47
    then some slash
    else if c == 61
    then some equal
    else if c == 62
    then some greater_than
    else if c == 60
    then some less_than
    else none

-- `advance`, where the input has a byte.
abbrev pub advance : Lexer → Lexer
advance l = elim l.rest [ [] ↦ l | c ∷ cs ↦ record { offset = l.offset + 1; rest = cs } ]

unfoldable pub scan_symbol : ℕ → Exec Lexer LexError Token
scan_symbol c l = elim (symbol_kind c) [
  | none ↦ (err (unexpected_character c l.offset), l)
  | some kind ↦ (ok (token_at kind no_value l.offset), advance l)
]

unfoldable pub at_point : Bytes → Bool
at_point [] = false
at_point (c ∷ cs) = c == 46

abbrev pub is_end : Kind → Bool
is_end kind = elim kind [ end_of_input ↦ true | _ ↦ false ]

-- `tokens = append(tokens, token)` in front of what the later rounds append.
unfoldable pub append_token :
    Token → Option (Result LexError (List Token)) → Option (Result LexError (List Token))
append_token token none = none
append_token token (some (err e)) = some (err e)
append_token token (some (ok tokens)) = some (ok (token ∷ tokens))

-- At the closing quote, or at the end of the input.
unfoldable pub end_string : ℕ → Bytes → Lexer → Result LexError Token × Lexer
end_string begin text l = elim l.rest [
  | [] ↦ (err (unterminated_string begin), l)
  | c ∷ cs ↦ (ok (token_at string (text_value text) begin), advance l)
]

unfoldable pub scan_string : Exec Lexer LexError Token
scan_string l =
    let inside = take_while (λ c. not (c == 39)) (advance l) in
    end_string l.offset inside.0 inside.1

-- `strconv.ParseFloat(text, 64)` is given: the bits of the number, or none for an error.
module _ (parse_float : Bytes → Option ℕ) where
  unfoldable pub float_token : ℕ → Bytes → Result LexError Token
  float_token begin text = elim (parse_float text) [
    | none ↦ err (invalid_number begin)
    | some bits ↦ ok (token_at number (float_value bits) begin)
  ]

  -- Behind the decimal point.
  unfoldable pub scan_fraction : ℕ → Bytes → Exec Lexer LexError Token
  scan_fraction begin whole l =
      let digits = take_while is_digit l in
      elim digits.0 [
        | [] ↦ (err (digits_required begin), l)
        | c ∷ cs ↦ (float_token begin (whole ++ (46 ∷ digits.0)), digits.1)
      ]

  unfoldable pub scan_number : Exec Lexer LexError Token
  scan_number l =
      let whole = take_while is_digit l in
      if at_point whole.1.rest
      then scan_fraction l.offset whole.0 (advance whole.1)
      else (scan_integer whole.0 l.offset, whole.1)

  -- The switch of `Next` on the byte it peeks at.
  unfoldable pub scan_token : ℕ → Exec Lexer LexError Token
  scan_token c l =
      if c == 39
      then scan_string l
      else if is_digit c
      then scan_number l
      else if is_identifier_start c
      then (let word = scan_identifier l in (ok word.0, word.1))
      else scan_symbol c l

  unfoldable pub scan_at : Exec Lexer LexError Token
  scan_at l = elim l.rest [
    | [] ↦ (ok (token_at end_of_input no_value l.offset), l)
    | c ∷ cs ↦ scan_token c l
  ]

  unfoldable pub next : Exec Lexer LexError Token
  next l = scan_at (skip_whitespace l)

  -- The loop of `TokenizeAll`: none when the fuel ends before it.
  unfoldable pub tokenize : ℕ → Lexer → Option (Result LexError (List Token))
  tokenize zero l = none
  tokenize (suc fuel) l =
      let step = next l in
      elim step.0 [
        | err e ↦ some (err e)
        | ok token ↦ elim (is_end token.kind) [
          | true ↦ some (ok (token ∷ []))
          | false ↦ append_token token (tokenize fuel step.1)
        ]
      ]

  -- With a round for every byte of the input, and two more.
  unfoldable pub lex : Bytes → Option (Result LexError (List Token))
  lex input = tokenize (suc (suc (length input))) (new_lexer input)
