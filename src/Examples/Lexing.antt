-- ===== src/Examples/Lexing.antt =====
-- The lexer on concrete texts.
use quantadb.Prelude.{ℕ, ◌≡◌, ◌||◌, ◌&&◌, ◌==◌, refl, Bool, true, some, List, [], ◌∷◌, ◌++◌, leb}
use quantadb.Prelude.Result.{ok}
use quantadb.Syntax.Token.{Text, Token, string, identifier}
use quantadb.Syntax.Lexer.{
  Unicode, Lexer, LexResult, byte_length, tokenize, lex_string, lex_quoted_identifier,
}
use quantadb.Syntax.Lexer.Quoted.{escaped, lex-escaped}
use quantadb.Syntax.Lexer.Total.{Tokens, tokenize_total}

abbrev ascii_letter : ℕ → Bool
ascii_letter c = (leb 65 c && leb c 90) || (leb 97 c && leb c 122)

abbrev ascii : Unicode
ascii = record {
  is_whitespace = λ c. c == 32 || c == 10;
  is_alphabetic = ascii_letter;
  is_alphanumeric = λ c. ascii_letter c || (leb 48 c && leb c 57);
  to_lowercase = λ text. text;
}

-- SELECT 'it''s' -- x
abbrev query : Text
query =
    83 ∷ 69 ∷ 76 ∷ 69 ∷ 67 ∷ 84 ∷ 32 ∷ 39 ∷ 105 ∷ 116 ∷ 39 ∷ 39 ∷ 115 ∷ 39 ∷ 32 ∷ 45 ∷ 45 ∷ 32 ∷ 120
    ∷ []

tokenize_total_example :
    (r : LexResult (List Token)) × (tokenize ascii query ≡ some r) × Tokens 0 (byte_length query) r
tokenize_total_example = tokenize_total ascii query

-- it's
abbrev its : Text
its = 105 ∷ 116 ∷ 39 ∷ 115 ∷ []

lex-escaped_example :
    ((end : Lexer) × (end.rest ≡ 44 ∷ [])
      × (lex_string (record { rest = 39 ∷ escaped 39 its ++ 39 ∷ 44 ∷ []; cursor = 7 })
          ≡ ok (record { kind = string its; span = record { start = 7; end = end.cursor } }, end)))
    × ((end : Lexer) × (end.rest ≡ 44 ∷ [])
        × (lex_quoted_identifier (record { rest = 34 ∷ escaped 34 its ++ 34 ∷ 44 ∷ []; cursor = 7 })
            ≡ ok (
              record { kind = identifier its true; span = record { start = 7; end = end.cursor } },
              end,
            )))
lex-escaped_example = lex-escaped its (44 ∷ []) 7 refl refl
