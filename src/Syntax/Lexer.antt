-- ===== src/Syntax/Lexer.antt =====
-- syntax/src/lexer.rs: the lexer. The Unicode tables of the standard library are the parameter
-- `Unicode`. A lexer is the text behind the cursor and the cursor, a number of UTF-8 bytes.
pub mod Quoted
pub mod Lexed
pub mod Total
use quantadb.Prelude.{
  ℕ, zero, suc, ◌+◌, ◌-◌, ◌^◌, Bool, true, false, Option, none, some, List, [], ◌∷◌, ◌==◌, ◌&&◌,
  ◌||◌, not, if◌then◌else◌, length, take, ltb, leb, min,
}
use quantadb.Prelude.Result.{Result, ok, err, ◌>>=◌}
use quantadb.Syntax.Token.{
  Text, Token, TokenKind, Span, Keyword, from_identifier, keyword, identifier, number, string,
  comma, dot, star, left_paren, right_paren, semicolon, equal, not_equal, less_than,
  less_than_or_equal, greater_than, greater_than_or_equal, plus, minus, slash, percent, eof,
}

pub data Message : Type 0 where
  expected_equal_after_bang unexpected_character unterminated_block_comment : Message
  unterminated_quoted_identifier unterminated_string_literal expected_exponent_digits : Message

pub record SyntaxError : Type 0 where
  pub message : Message
  pub span : Span

abbrev pub LexResult {ℓ} : Type ℓ → Type ℓ
LexResult A = Result SyntaxError A

pub record Unicode : Type 0 where
  pub is_whitespace : ℕ → Bool
  pub is_alphabetic : ℕ → Bool
  pub is_alphanumeric : ℕ → Bool
  pub to_lowercase : Text → Text

pub record Lexer : Type 0 where
  pub rest : Text
  pub cursor : ℕ

abbrev pub len_utf8 : ℕ → ℕ
len_utf8 c = if ltb c 128 then 1 else if ltb c 2048 then 2 else if ltb c 65536 then 3 else 4

-- `sql.len()`
abbrev pub byte_length : Text → ℕ
byte_length [] = 0
byte_length (c ∷ cs) = len_utf8 c + byte_length cs

-- The lexer at a later point: the cursor has moved over the bytes between.
abbrev pub advance_to : Lexer → Text → Lexer
advance_to l rest = record {
  rest = rest;
  cursor = l.cursor + (byte_length l.rest - byte_length rest);
}

abbrev pub tail : Text → Text
tail [] = []
tail (c ∷ cs) = cs

abbrev pub advance : Lexer → Lexer
advance l = advance_to l (tail l.rest)

abbrev pub peek_char : Text → Option ℕ
peek_char [] = none
peek_char (c ∷ cs) = some c

-- `peek_char() == Some(expected)`
abbrev pub next_is : Text → ℕ → Bool
next_is [] expected = false
next_is (c ∷ cs) expected = c == expected

abbrev pub next_in : (ℕ → Bool) → Text → Bool
next_in p [] = false
next_in p (c ∷ cs) = p c

-- `while peek_char().is_some_and(p) { advance() }`
unfoldable pub skip_while : (ℕ → Bool) → Text → Text
skip_while p [] = []
skip_while p (c ∷ cs) = let rest = skip_while p cs in if p c then rest else c ∷ cs

-- `&sql[start..cursor]`
abbrev pub consumed : Lexer → Lexer → Text
consumed from to = take (length from.rest - length to.rest) from.rest

abbrev pub span_of : Lexer → Lexer → Span
span_of from to = record { start = from.cursor; end = to.cursor }

-- up to the end of the text
abbrev pub span_to_end : Lexer → Span
span_to_end l = record { start = l.cursor; end = l.cursor + byte_length l.rest }

abbrev pub is_ascii_digit : ℕ → Bool
is_ascii_digit c = leb 48 c && leb c 57

pub data CommentStep : Type 0 where
  opens closes inside : CommentStep

abbrev pub comment_step : ℕ → ℕ → CommentStep
comment_step c d =
    if c == 47 && d == 42 then opens else if c == 42 && d == 47 then closes else inside

-- `skip_block_comment` behind its opening: the text behind the comment
unfoldable pub block_comment : Text → ℕ → Option Text
block_comment [] depth = none
block_comment (c ∷ []) depth = none
block_comment (c ∷ d ∷ cs) depth = elim (comment_step c d) [
  | opens ↦ block_comment cs (min (depth + 1) (2 ^ 32 - 1))
  | closes ↦ let rest = block_comment cs (depth - 1) in if depth == 1 then some cs else rest
  | inside ↦ block_comment (d ∷ cs) depth
]

pub data QuotedStep : Type 0 where
  ends doubled plain : QuotedStep

abbrev pub quoted_step : ℕ → ℕ → ℕ → QuotedStep
quoted_step quote c d = if c == quote then (if d == quote then doubled else ends) else plain

abbrev pub push_char : ℕ → Option (Text × Text) → Option (Text × Text)
push_char c none = none
push_char c (some (value, rest)) = some (c ∷ value, rest)

-- The loop of `lex_string` and `lex_quoted_identifier`: the value, and the text behind the quote.
unfoldable pub quoted_from : ℕ → Text → Option (Text × Text)
quoted_from quote [] = none
quoted_from quote (c ∷ []) = if c == quote then some ([], []) else none
quoted_from quote (c ∷ d ∷ cs) = elim (quoted_step quote c d) [
  | ends ↦ some ([], d ∷ cs)
  | doubled ↦ push_char quote (quoted_from quote cs)
  | plain ↦ push_char c (quoted_from quote (d ∷ cs))
]

unfoldable pub lex_string : Lexer → LexResult (Token × Lexer)
lex_string l = elim (quoted_from 39 (tail l.rest)) [
  | none ↦ err (record { message = unterminated_string_literal; span = span_to_end l })
  | some (value, rest) ↦
      ok (record { kind = string value; span = span_of l (advance_to l rest) }, advance_to l rest)
]

unfoldable pub lex_quoted_identifier : Lexer → LexResult (Token × Lexer)
lex_quoted_identifier l = elim (quoted_from 34 (tail l.rest)) [
  | none ↦ err (record { message = unterminated_quoted_identifier; span = span_to_end l })
  | some (value, rest) ↦ ok (
    record { kind = identifier value true; span = span_of l (advance_to l rest) },
    advance_to l rest,
  )
]

-- The fraction of a number, where a digit follows the point.
unfoldable pub skip_fraction : Text → Text
skip_fraction rest =
    if next_is rest 46 && next_in is_ascii_digit (tail rest)
    then skip_while is_ascii_digit (tail rest)
    else rest

abbrev pub skip_sign : Text → Text
skip_sign rest = if next_in (λ c. c == 43 || c == 45) rest then tail rest else rest

-- a token up to `rest`
abbrev pub token_to : Lexer → Text → TokenKind → LexResult (Token × Lexer)
token_to l rest kind =
    ok (record { kind = kind; span = span_of l (advance_to l rest) }, advance_to l rest)

abbrev pub number_to : Lexer → Text → LexResult (Token × Lexer)
number_to l rest = token_to l rest (number (consumed l (advance_to l rest)))

unfoldable pub lex_number : Lexer → LexResult (Token × Lexer)
lex_number l =
    let whole = skip_fraction (skip_while is_ascii_digit l.rest) in
    let exponent = skip_sign (tail whole) in
    if next_in (λ c. c == 101 || c == 69) whole
    then (if next_in is_ascii_digit exponent
        then number_to l (skip_while is_ascii_digit exponent)
        else err (record {
          message = expected_exponent_digits;
          span = span_of l (advance_to l exponent);
        }))
    else number_to l whole

module _ (unicode : Unicode) where
  unfoldable pub is_identifier_start : ℕ → Bool
  is_identifier_start c = c == 95 || unicode.is_alphabetic c

  unfoldable pub is_identifier_continue : ℕ → Bool
  is_identifier_continue c = c == 95 || c == 36 || unicode.is_alphanumeric c

  unfoldable pub identifier_kind : Text → TokenKind
  identifier_kind value = elim (from_identifier value) [
    | none ↦ identifier (unicode.to_lowercase value) false
    | some word ↦ keyword word
  ]

  unfoldable pub lex_identifier : Lexer → Token × Lexer
  lex_identifier l =
      let end = advance_to l (skip_while is_identifier_continue (tail l.rest)) in
      (record { kind = identifier_kind (consumed l end); span = span_of l end }, end)

  -- The match of `next_token` on its first character `c`, with `cs` behind it.
  unfoldable pub lex_token : Lexer → ℕ → Text → LexResult (Token × Lexer)
  lex_token l c cs =
      if c == 44
      then token_to l cs comma
      else if c == 46
      then token_to l cs dot
      else if c == 42
      then token_to l cs star
      else if c == 40
      then token_to l cs left_paren
      else if c == 41
      then token_to l cs right_paren
      else if c == 59
      then token_to l cs semicolon
      else if c == 61
      then token_to l cs equal
      else if c == 43
      then token_to l cs plus
      else if c == 45
      then token_to l cs minus
      else if c == 47
      then token_to l cs slash
      else if c == 37
      then token_to l cs percent
      else if c == 60
      then (if next_is cs 61
          then token_to l (tail cs) less_than_or_equal
          else if next_is cs 62
          then token_to l (tail cs) not_equal
          else token_to l cs less_than)
      else if c == 62
      then (if next_is cs 61
          then token_to l (tail cs) greater_than_or_equal
          else token_to l cs greater_than)
      else if c == 33
      then (if next_is cs 61
          then token_to l (tail cs) not_equal
          else err
              (record { message = expected_equal_after_bang; span = span_of l (advance_to l cs) }))
      else if c == 39
      then lex_string l
      else if c == 34
      then lex_quoted_identifier l
      else if is_ascii_digit c
      then lex_number l
      else if is_identifier_start c
      then ok (lex_identifier l)
      else err (record { message = unexpected_character; span = span_of l (advance_to l cs) })

  unfoldable pub next_token : Lexer → LexResult (Token × Lexer)
  next_token l = elim l.rest [ [] ↦ token_to l [] eof | c ∷ cs ↦ lex_token l c cs ]

  abbrev pub starts_with_two : Text → ℕ → ℕ → Bool
  starts_with_two rest c d = next_is rest c && next_is (tail rest) d

  -- One round of `skip_trivia`: what is left, and whether the loop goes on.
  unfoldable pub trivia_step : Lexer → LexResult (Lexer × Bool)
  trivia_step l =
      let blank = skip_while unicode.is_whitespace l.rest in
      if starts_with_two blank 45 45
      then ok (advance_to l (skip_while (λ c. not (c == 10)) (tail (tail blank))), true)
      else if starts_with_two blank 47 42
      then (elim (block_comment (tail (tail blank)) 1) [
        | none ↦ err (record {
          message = unterminated_block_comment;
          span = span_to_end (advance_to l blank);
        })
        | some rest ↦ ok (advance_to l rest, true)
      ])
      else ok (advance_to l blank, false)

  -- The outer `none` of the loops means that the fuel ran out.
  unfoldable pub skip_trivia : ℕ → Lexer → Option (LexResult Lexer)
  skip_trivia zero l = none
  skip_trivia (suc fuel) l = elim (trivia_step l) [
    | err e ↦ some (err e)
    | ok (next, goes_on) ↦
        let rest = skip_trivia fuel next in if goes_on then rest else some (ok next)
  ]

  abbrev pub push_token : Token → Option (LexResult (List Token)) → Option (LexResult (List Token))
  push_token token none = none
  push_token token (some (err e)) = some (err e)
  push_token token (some (ok tokens)) = some (ok (token ∷ tokens))

  -- One round of the loop behind the trivia, and what follows it.
  unfoldable pub push_next :
      Lexer → (Lexer → Option (LexResult (List Token))) → Option (LexResult (List Token))
  push_next at more = elim at.rest [
    | [] ↦ some (ok (record { kind = eof; span = span_of at at } ∷ []))
    | c ∷ cs ↦ elim (next_token at) [
      | err e ↦ some (err e)
      | ok (token, next) ↦ push_token token (more next)
    ]
  ]

  unfoldable pub tokenize_from : ℕ → Lexer → Option (LexResult (List Token))
  tokenize_from zero l = none
  tokenize_from (suc fuel) l = elim (skip_trivia (suc (length l.rest)) l) [
    | none ↦ none
    | some (err e) ↦ some (err e)
    | some (ok at) ↦ push_next at (tokenize_from fuel)
  ]

  -- A round takes a character at least, so the length is fuel enough.
  unfoldable pub tokenize : Text → Option (LexResult (List Token))
  tokenize sql = tokenize_from (suc (length sql)) (record { rest = sql; cursor = 0 })
