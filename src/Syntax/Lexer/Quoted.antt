-- ===== src/Syntax/Lexer/Quoted.antt =====
-- syntax/src/lexer.rs: quoted text. A quote inside is written twice.
use quantadb.Prelude.{
  ℕ, ◌≡◌, refl, true, false, some, [], ◌∷◌, ◌++◌, ◌==◌, if◌then◌else◌, arith, ap, ◌∙◌, Bool-cases,
  inl, inr,
}
use quantadb.Prelude.Result.{ok}
use quantadb.Syntax.Token.{Text, string, identifier}
use quantadb.Syntax.Lexer.{
  Lexer, next_is, quoted_from, lex_string, lex_quoted_identifier, advance_to,
}

-- the text between the quotes
abbrev pub escaped : ℕ → Text → Text
escaped quote [] = []
escaped quote (c ∷ cs) =
    if c == quote then quote ∷ quote ∷ escaped quote cs else c ∷ escaped quote cs

quoted_from-plain :
    (quote c : ℕ) (rest : Text) (value after : Text)
    → (c == quote) ≡ false
    → quoted_from quote rest ≡ some (value, after)
    → quoted_from quote (c ∷ rest) ≡ some (c ∷ value, after)
unfolding quoted_from
quoted_from-plain quote c [] value after e h = ground (arith, h)
quoted_from-plain quote c (d ∷ rest) value after e h = ground (arith, e, h)

quoted_from-doubled :
    (quote : ℕ) (rest : Text) (value after : Text)
    → quoted_from quote rest ≡ some (value, after)
    → quoted_from quote (quote ∷ quote ∷ rest) ≡ some (quote ∷ value, after)
unfolding quoted_from
quoted_from-doubled quote rest value after h = ground (arith, h)

quoted_from-end :
    (quote : ℕ) (rest : Text)
    → next_is rest quote ≡ false
    → quoted_from quote (quote ∷ rest) ≡ some ([], rest)
unfolding quoted_from
quoted_from-end quote [] e = ground arith
quoted_from-end quote (d ∷ rest) e = ground (arith, e)

quoted_from-escaped :
    (quote : ℕ) (value rest : Text)
    → next_is rest quote ≡ false
    → quoted_from quote (escaped quote value ++ quote ∷ rest) ≡ some (value, rest)
quoted_from-escaped quote [] rest e = quoted_from-end quote rest e
quoted_from-escaped quote (c ∷ value) rest e = elim (Bool-cases (c == quote)) [
  | inl f ↦
      let there : quote ≡ c = ground (arith, f) in
      rw (f) (
        quoted_from-doubled quote (escaped quote value ++ quote ∷ rest) value rest
          (quoted_from-escaped quote value rest e)
        ∙ ap (λ q. some (q ∷ value, rest)) there)
  | inr f ↦ rw (f) (
      quoted_from-plain quote c (escaped quote value ++ quote ∷ rest) value rest f
        (quoted_from-escaped quote value rest e))
]

-- Any text, quoted with its quotes doubled, is lexed as one string with that text as its value, and
-- likewise as one quoted identifier, unless one more quote follows.
pub lex-escaped :
    (value rest : Text) (cursor : ℕ)
    → next_is rest 39 ≡ false
    → next_is rest 34 ≡ false
    → ((end : Lexer) × (end.rest ≡ rest)
        × (lex_string (record { rest = 39 ∷ escaped 39 value ++ 39 ∷ rest; cursor = cursor })
            ≡ ok (
              record { kind = string value; span = record { start = cursor; end = end.cursor } },
              end,
            )))
      × ((end : Lexer) × (end.rest ≡ rest)
          × (lex_quoted_identifier
                (record { rest = 34 ∷ escaped 34 value ++ 34 ∷ rest; cursor = cursor })
              ≡ ok (
                record {
                  kind = identifier value true;
                  span = record { start = cursor; end = end.cursor };
                },
                end,
              )))
unfolding lex_string lex_quoted_identifier
lex-escaped value rest cursor e f = (
  (
    advance_to (record { rest = 39 ∷ escaped 39 value ++ 39 ∷ rest; cursor = cursor }) rest,
    refl,
    rw (lex_string, quoted_from-escaped 39 value rest e) refl,
  ),
  (
    advance_to (record { rest = 34 ∷ escaped 34 value ++ 34 ∷ rest; cursor = cursor }) rest,
    refl,
    rw (lex_quoted_identifier, quoted_from-escaped 34 value rest f) refl,
  ),
)
