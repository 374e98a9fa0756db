-- ===== src/Tests/Statements.antt =====
-- Runs of the lexer.
use space_db.Base.{◌≡◌, refl, [], ◌∷◌, List, Option, none, some, length, ok, err, ◌↔◌, ℕ}
use space_db.Bytes.{Bytes}
use space_db.Types.Int64.{pos}
use space_db.Lexer.{lex, LexError, unterminated_string}
use space_db.Lexer.Tokens.{
  Token, keyword_select, keyword_kind, identifier, number, string, end_of_input, text_value,
  integer_value, no_value, keyword_from_identifier, spelling, to_upper,
}
use space_db.Lexer.Tokenized.{lex-Ends, Ends}
use space_db.Lexer.Keywords.{keyword_from_identifier-spelling}

abbrev no_floats : Bytes → Option ℕ
no_floats text = none

-- `select 12 'a'`
abbrev text : Bytes
text = 115 ∷ 101 ∷ 108 ∷ 101 ∷ 99 ∷ 116 ∷ 32 ∷ 49 ∷ 50 ∷ 32 ∷ 39 ∷ 97 ∷ 39 ∷ []

abbrev tokens : List Token
tokens =
    record { kind = keyword_kind; keyword = some keyword_select; value = no_value; offset = 0 }
    ∷ record { kind = number; keyword = none; value = integer_value (pos 12); offset = 7 }
    ∷ record { kind = string; keyword = none; value = text_value (97 ∷ []); offset = 10 }
    ∷ record { kind = end_of_input; keyword = none; value = no_value; offset = 13 }
    ∷ []

lexed_text : lex no_floats text ≡ some (ok tokens)
unfolding lex space_db.Lexer.tokenize space_db.Lexer.next space_db.Lexer.scan_at
    space_db.Lexer.skip_whitespace space_db.Lexer.take_while space_db.Lexer.span
    space_db.Lexer.scan_token space_db.Lexer.scan_identifier space_db.Lexer.word_token
    space_db.Lexer.append_token space_db.Lexer.scan_number space_db.Lexer.at_point
    space_db.Lexer.scan_integer space_db.Lexer.decimal space_db.Lexer.scan_string
    space_db.Lexer.end_string space_db.Lexer.Tokens.spelled keyword_from_identifier
    space_db.Bytes.compare_bytes spelling
lexed_text = refl

open_string : lex no_floats (32 ∷ 39 ∷ 97 ∷ []) ≡ some (err (unterminated_string 1))
unfolding lex space_db.Lexer.tokenize space_db.Lexer.next space_db.Lexer.scan_at
    space_db.Lexer.skip_whitespace space_db.Lexer.take_while space_db.Lexer.span
    space_db.Lexer.scan_token space_db.Lexer.scan_string space_db.Lexer.end_string
open_string = refl

lex-Ends_example : Ends 0 (length text) (lex no_floats text)
lex-Ends_example = lex-Ends no_floats text

keyword_from_identifier-spelling_example :
    (keyword_from_identifier (115 ∷ 101 ∷ 108 ∷ 101 ∷ 99 ∷ 116 ∷ []) ≡ some keyword_select)
    ↔ (to_upper (115 ∷ 101 ∷ 108 ∷ 101 ∷ 99 ∷ 116 ∷ []) ≡ spelling keyword_select)
keyword_from_identifier-spelling_example =
    keyword_from_identifier-spelling (115 ∷ 101 ∷ 108 ∷ 101 ∷ 99 ∷ 116 ∷ []) keyword_select
