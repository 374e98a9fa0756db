-- ===== src/Lexer/Tokenized.antt =====
-- What TokenizeAll returns.
use space_db.Base.{
  ℕ, zero, suc, ◌+◌, ◌≤◌, ◌<◌, ◌≡◌, refl, ap, List, [], ◌∷◌, Option, some, true, false, length,
  Result, ok, err, arith, inl, inr, ◌⊎◌,
}
use mathlib.Core.Path.{subst}
use space_db.Bytes.{Bytes}
use space_db.Lexer.{Lexer, LexError, next, is_end, append_token, tokenize, lex, new_lexer}
use space_db.Lexer.Tokens.{Token}
use space_db.Lexer.Progress.{Read, next-Read}

-- Tokens at growing offsets from `least` on, of which the last and no other is the one for the end,
-- at the end of the input of `total` bytes.
abbrev pub IsTokens : ℕ → ℕ → List Token → Type 0
IsTokens least total [] = ⊥
IsTokens least total (t ∷ ts) =
    (least ≤ t.offset)
    × (((is_end t.kind ≡ true) × (t.offset ≡ total) × (ts ≡ []))
        ⊎ ((is_end t.kind ≡ false) × IsTokens (t.offset + 1) total ts))

IsTokens-lower :
    (least more total : ℕ) (ts : List Token)
    → least ≤ more
    → IsTokens more total ts
    → IsTokens least total ts
IsTokens-lower least more total [] h k = k
IsTokens-lower least more total (t ∷ ts) h k = (omega (arith, k.0), k.1)

abbrev pub Tokens : ℕ → ℕ → Result LexError (List Token) → Type 0
Tokens least total (err e) = Unit
Tokens least total (ok ts) = IsTokens least total ts

abbrev pub Ends : ℕ → ℕ → Option (Result LexError (List Token)) → Type 0
Ends least total o = (r : Result LexError (List Token)) × (o ≡ some r) × Tokens least total r

module _ (parse_float : Bytes → Option ℕ) where
  append_token-Ends :
      (least more total : ℕ) (t : Token) (o : Option (Result LexError (List Token)))
      → least ≤ t.offset
      → t.offset < more
      → is_end t.kind ≡ false
      → Ends more total o
      → Ends least total (append_token t o)
  unfolding append_token
  append_token-Ends least more total t o h k e (err reason, same, tokens) =
      (err reason, ap (append_token t) same, tt)
  append_token-Ends least more total t o h k e (ok ts, same, tokens) = (
    ok (t ∷ ts),
    ap (append_token t) same,
    (h, inr (e, IsTokens-lower (t.offset + 1) more total ts (omega arith) tokens)),
  )

  -- A round of the loop, given what the rounds behind it return.
  round-Ends :
      (fuel : ℕ) (l : Lexer) (call : Result LexError Token × Lexer)
      → Read parse_float l call
      → ((l' : Lexer)
          → length l'.rest < length l.rest
          → Ends l'.offset (l'.offset + length l'.rest) (tokenize parse_float fuel l'))
      → Ends l.offset (l.offset + length l.rest) (elim call.0 [
        | err e ↦ some (err e)
        | ok token ↦ elim (is_end token.kind) [
          | true ↦ some (ok (token ∷ []))
          | false ↦ append_token token (tokenize parse_float fuel call.1)
        ]
      ])
  round-Ends fuel l (err e, l') read later = (err e, refl, tt)
  round-Ends fuel l (ok token, l') (least, same, inl (last, at_end)) later =
      rw last (ok (token ∷ []), refl, (least, inl (last, at_end, refl)))
  round-Ends fuel l (ok token, l') (least, same, inr (kept, further)) later = rw kept (
      append_token-Ends l.offset l'.offset (l.offset + length l.rest) token
        (tokenize parse_float fuel l') least further kept
        (subst (λ n. Ends l'.offset n (tokenize parse_float fuel l')) same
          (later l' (omega arith))))

  tokenize-Ends :
      (fuel : ℕ) (l : Lexer)
      → length l.rest < fuel
      → Ends l.offset (l.offset + length l.rest) (tokenize parse_float fuel l)
  unfolding tokenize
  tokenize-Ends zero l h = absurd (omega arith)
  tokenize-Ends (suc fuel) l h =
      round-Ends fuel l (next parse_float l) (next-Read parse_float l)
        (λ l' shorter. tokenize-Ends fuel l' (omega arith))

  -- Lexing any input ends within the rounds given, one for every byte and two more, in an error or in
  -- a list of tokens. The offsets of the tokens grow from one to the next; the last token, and no
  -- other, is the one for the end of the input, and it stands at the input's length.
  pub lex-Ends : (input : Bytes) → Ends 0 (length input) (lex parse_float input)
  unfolding lex
  lex-Ends input =
      subst (λ n. Ends 0 n (tokenize parse_float (suc (suc (length input))) (new_lexer input)))
        (omega arith) (tokenize-Ends (suc (suc (length input))) (new_lexer input) (omega arith))
