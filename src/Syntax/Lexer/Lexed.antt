-- ===== src/Syntax/Lexer/Lexed.antt =====
-- syntax/src/lexer.rs: what each scanner leaves of the text.
use quantadb.Prelude.{
  ℕ, ◌+◌, ◌-◌, ◌≤◌, ◌≡◌, refl, Bool, true, false, Option, none, some, [], ◌∷◌, ◌==◌, ◌&&◌, ◌||◌,
  if◌then◌else◌, length, arith, ap, subst, ◌^◌, Option-cases, Bool-cases, inl, inr, min,
}
use quantadb.Prelude.Result.{ok, err}
use quantadb.Syntax.Token.{Text, Token, TokenKind, string, identifier, number}
use quantadb.Syntax.Lexer.{
  Lexer, LexResult, SyntaxError, Unicode, byte_length, advance_to, tail, skip_while, span_of,
  consumed, block_comment, CommentStep, QuotedStep, comment_step, opens, closes, inside,
  quoted_from, quoted_step, push_char, ends, doubled, plain, lex_string, lex_quoted_identifier,
  skip_fraction, skip_sign, lex_number, token_to, is_ascii_digit, lex_identifier, lex_token,
  next_in, next_is, is_identifier_continue, is_identifier_start,
}

-- What is left of a text: no more characters, and no more bytes.
abbrev pub Left : Text → Text → Type 0
Left rest text = (length rest ≤ length text) × (byte_length rest ≤ byte_length text)

pub Left-trans : (a b c : Text) → Left a b → Left b c → Left a c
Left-trans a b c p q = (omega (arith, p.0, q.0), omega (arith, p.1, q.1))

Left-cons : (a : Text) (c : ℕ) (cs : Text) → Left a cs → Left a (c ∷ cs)
Left-cons a c cs p = (omega (arith, p.0), omega (arith, p.1))

pub tail-Left : (text : Text) → Left (tail text) text
tail-Left [] = (omega arith, omega arith)
tail-Left (c ∷ cs) = (omega arith, omega arith)

pub skip_while-Left : (p : ℕ → Bool) (text : Text) → Left (skip_while p text) text
unfolding skip_while
skip_while-Left p [] = (omega arith, omega arith)
skip_while-Left p (c ∷ cs) = elim (Bool-cases (p c)) [
  | inl e ↦ rw (e) (Left-cons (skip_while p cs) c cs (skip_while-Left p cs))
  | inr e ↦ rw (e) (omega arith, omega arith)
]

-- A conditional whose branches both give what is wanted.
pub either {ℓ κ} :
    {A : Type ℓ} {r : A} {P : Type κ} (b : Bool) {x y : A}
    → (x ≡ r → P)
    → (y ≡ r → P)
    → ◌≡◌ {A = A} (if b then x else y) r
    → P
either true f g h = f h
either false f g h = g h

some_eq {ℓ} : {A : Type ℓ} {x y : A} → some x ≡ some y → x ≡ y
some_eq e = ground (arith, e)

pub ok_eq {ℓ} : {A : Type ℓ} {x y : A} → ◌≡◌ {A = LexResult A} (ok x) (ok y) → x ≡ y
ok_eq e = ground (arith, e)

push_char-some :
    (c : ℕ) (found : Option (Text × Text)) (value rest : Text)
    → push_char c found ≡ some (value, rest)
    → (inner : Text) × (found ≡ some (inner, rest))
push_char-some c none value rest h = ground (arith, h)
push_char-some c (some (inner, behind)) value rest h =
    (inner, ap (λ t. some (inner, t)) (ap (λ (o : Text × Text). o.1) (some_eq h)))

pub either_known {ℓ κ} :
    {A : Type ℓ} {r : A} {P : Type κ} (b : Bool) {x y : A}
    → (b ≡ true → x ≡ r → P)
    → (y ≡ r → P)
    → ◌≡◌ {A = A} (if b then x else y) r
    → P
either_known true f g h = f refl h
either_known false f g h = g h

pub block_comment-Left :
    (text : Text) (depth : ℕ) (rest : Text) → block_comment text depth ≡ some rest → Left rest text
unfolding block_comment
block_comment-Left [] depth rest h = ground (arith, h)
block_comment-Left (c ∷ []) depth rest h = ground (arith, h)
block_comment-Left (c ∷ d ∷ cs) depth rest h =
    by_step (λ deeper. block_comment-Left cs deeper rest) (block_comment-Left (d ∷ cs) depth rest)
      (comment_step c d) h
  where
    by_step :
        ((deeper : ℕ) → block_comment cs deeper ≡ some rest → Left rest cs)
        → (block_comment (d ∷ cs) depth ≡ some rest → Left rest (d ∷ cs))
        → (step : CommentStep)
        → elim step [
          | opens ↦ block_comment cs (min (depth + 1) (2 ^ 32 - 1))
          | closes ↦
              let behind = block_comment cs (depth - 1) in if depth == 1 then some cs else behind
          | inside ↦ block_comment (d ∷ cs) depth
        ]
          ≡ some rest
        → Left rest (c ∷ d ∷ cs)
    by_step two one opens e =
        Left-cons rest c (d ∷ cs) (Left-cons rest d cs (two (min (depth + 1) (2 ^ 32 - 1)) e))
    by_step two one closes e = Left-cons rest c (d ∷ cs) (
        Left-cons rest d cs (
          either (depth == 1)
            (λ (g : some cs ≡ some rest).
              subst (λ t. Left t cs) (some_eq g) (omega arith, omega arith))
            (λ (g : block_comment cs (depth - 1) ≡ some rest). two (depth - 1) g) e))
    by_step two one inside e = Left-cons rest c (d ∷ cs) (one e)

quoted_from-Left :
    (quote : ℕ) (text value rest : Text)
    → quoted_from quote text ≡ some (value, rest)
    → Left rest text
unfolding quoted_from
quoted_from-Left quote [] value rest h = ground (arith, h)
quoted_from-Left quote (c ∷ []) value rest h = ground (arith, h)
quoted_from-Left quote (c ∷ d ∷ cs) value rest h =
    by_step (λ inner. quoted_from-Left quote cs inner rest)
      (λ inner. quoted_from-Left quote (d ∷ cs) inner rest) (quoted_step quote c d) h
  where
    by_step :
        ((inner : Text) → quoted_from quote cs ≡ some (inner, rest) → Left rest cs)
        → ((inner : Text) → quoted_from quote (d ∷ cs) ≡ some (inner, rest) → Left rest (d ∷ cs))
        → (step : QuotedStep)
        → ◌≡◌ {A = Option (Text × Text)}
            (elim step [
              | ends ↦ some ([], d ∷ cs)
              | doubled ↦ push_char quote (quoted_from quote cs)
              | plain ↦ push_char c (quoted_from quote (d ∷ cs))
            ])
            (some (value, rest))
        → Left rest (c ∷ d ∷ cs)
    by_step two one ends e = Left-cons rest c (d ∷ cs) (
        subst (λ t. Left t (d ∷ cs)) (ap (λ (o : Text × Text). o.1) (some_eq e))
          (omega arith, omega arith))
    by_step two one doubled e =
        let (inner, g) = push_char-some quote (quoted_from quote cs) value rest e in
        Left-cons rest c (d ∷ cs) (Left-cons rest d cs (two inner g))
    by_step two one plain e =
        let (inner, g) = push_char-some c (quoted_from quote (d ∷ cs)) value rest e in
        Left-cons rest c (d ∷ cs) (one inner g)

skip_fraction-Left : (text : Text) → Left (skip_fraction text) text
unfolding skip_fraction
skip_fraction-Left text =
    elim (Bool-cases (next_is text 46 && next_in is_ascii_digit (tail text))) [
      | inl e ↦ rw (e) (
          Left-trans (skip_while is_ascii_digit (tail text)) (tail text) text
            (skip_while-Left is_ascii_digit (tail text)) (tail-Left text))
      | inr e ↦ rw (e) (omega arith, omega arith)
    ]

-- A token that was lexed at `from`, whose first character has `cs` behind it.
pub record Lexed (from : Lexer) (cs : Text) (token : Token) (to : Lexer) : Type 0 where
  pub left : Left to.rest cs
  pub moved : to ≡ advance_to from to.rest
  pub span : token.span ≡ span_of from to

token_to-Lexed :
    (l : Lexer) (cs rest : Text) (kind : TokenKind) (token : Token) (to : Lexer)
    → Left rest cs
    → token_to l rest kind ≡ ok (token, to)
    → Lexed l cs token to
token_to-Lexed l cs rest kind token to p h =
    subst (λ (o : Token × Lexer). Lexed l cs o.0 o.1) (ok_eq h)
      (record { left = p; moved = refl; span = refl })

-- the lexer at a character
abbrev pub at : ℕ → Text → ℕ → Lexer
at c cs cursor = record { rest = c ∷ cs; cursor = cursor }

lex_string-Lexed :
    (c : ℕ) (cs : Text) (cursor : ℕ) (token : Token) (to : Lexer)
    → lex_string (at c cs cursor) ≡ ok (token, to)
    → Lexed (at c cs cursor) cs token to
unfolding lex_string
lex_string-Lexed c cs cursor token to h = elim (Option-cases (quoted_from 39 cs)) [
  | inl e ↦ ground (arith, e, h)
  | inr ((value, rest), e) ↦
      token_to-Lexed (at c cs cursor) cs rest (string value) token to
        (quoted_from-Left 39 cs value rest e) (ground (arith, e, h))
]

lex_quoted_identifier-Lexed :
    (c : ℕ) (cs : Text) (cursor : ℕ) (token : Token) (to : Lexer)
    → lex_quoted_identifier (at c cs cursor) ≡ ok (token, to)
    → Lexed (at c cs cursor) cs token to
unfolding lex_quoted_identifier
lex_quoted_identifier-Lexed c cs cursor token to h = elim (Option-cases (quoted_from 34 cs)) [
  | inl e ↦ ground (arith, e, h)
  | inr ((value, rest), e) ↦
      token_to-Lexed (at c cs cursor) cs rest (identifier value true) token to
        (quoted_from-Left 34 cs value rest e) (ground (arith, e, h))
]

skip_sign-Left : (text : Text) → Left (skip_sign text) text
skip_sign-Left text = elim (Bool-cases (next_in (λ c. c == 43 || c == 45) text)) [
  | inl e ↦ rw (e) (tail-Left text)
  | inr e ↦ rw (e) (omega arith, omega arith)
]

-- the whole number, and what may be its exponent
whole-Left :
    (c : ℕ) (cs : Text)
    → is_ascii_digit c ≡ true
    → Left (skip_fraction (skip_while is_ascii_digit (c ∷ cs))) cs
unfolding skip_while
whole-Left c cs d = rw (d) (
    Left-trans (skip_fraction (skip_while is_ascii_digit cs)) (skip_while is_ascii_digit cs) cs
      (skip_fraction-Left (skip_while is_ascii_digit cs)) (skip_while-Left is_ascii_digit cs))

exponent-Left :
    (whole cs : Text) → Left whole cs → Left (skip_while is_ascii_digit (skip_sign (tail whole))) cs
exponent-Left whole cs p =
    Left-trans (skip_while is_ascii_digit (skip_sign (tail whole))) (skip_sign (tail whole)) cs
      (skip_while-Left is_ascii_digit (skip_sign (tail whole)))
      (Left-trans (skip_sign (tail whole)) (tail whole) cs (skip_sign-Left (tail whole))
        (Left-trans (tail whole) whole cs (tail-Left whole) p))

pub failed-Lexed :
    {x : SyntaxError} {P : Type 0} (token : Token) (to : Lexer)
    → ◌≡◌ {A = LexResult (Token × Lexer)} (err x) (ok (token, to))
    → P
failed-Lexed token to e = ground (arith, e)

lex_number-Lexed :
    (c : ℕ) (cs : Text) (cursor : ℕ) (token : Token) (to : Lexer)
    → is_ascii_digit c ≡ true
    → lex_number (at c cs cursor) ≡ ok (token, to)
    → Lexed (at c cs cursor) cs token to
unfolding lex_number
lex_number-Lexed c cs cursor token to d h =
    let whole = skip_fraction (skip_while is_ascii_digit (c ∷ cs)) in
    let exponent = skip_sign (tail whole) in
    let end = skip_while is_ascii_digit exponent in
    let left = whole-Left c cs d in
    either (next_in (λ c. c == 101 || c == 69) whole)
      (either (next_in is_ascii_digit exponent)
        (token_to-Lexed (at c cs cursor) cs end
          (number (consumed (at c cs cursor) (advance_to (at c cs cursor) end))) token to
          (exponent-Left whole cs left))
        (failed-Lexed token to))
      (token_to-Lexed (at c cs cursor) cs whole
        (number (consumed (at c cs cursor) (advance_to (at c cs cursor) whole))) token to left)
      h

module _ (unicode : Unicode) where
  lex_identifier-Lexed :
      (c : ℕ) (cs : Text) (cursor : ℕ) (token : Token) (to : Lexer)
      → lex_identifier unicode (at c cs cursor) ≡ (token, to)
      → Lexed (at c cs cursor) cs token to
  unfolding lex_identifier
  lex_identifier-Lexed c cs cursor token to h =
      subst (λ (o : Token × Lexer). Lexed (at c cs cursor) cs o.0 o.1) h
        (record {
          left = skip_while-Left (is_identifier_continue unicode) cs;
          moved = refl;
          span = refl;
        })

  pub lex_token-Lexed :
      (c : ℕ) (cs : Text) (cursor : ℕ) (token : Token) (to : Lexer)
      → lex_token unicode (at c cs cursor) c cs ≡ ok (token, to)
      → Lexed (at c cs cursor) cs token to
  unfolding lex_token
  lex_token-Lexed c cs cursor token to h =
      either (c == 44) one
        (either (c == 46) one (
          either (c == 42) one (
            either (c == 40) one (
              either (c == 41) one (
                either (c == 59) one (
                  either (c == 61) one (
                    either (c == 43) one (
                      either (c == 45) one (
                        either (c == 47) one (
                          either (c == 37) one (
                            either (c == 60)
                              (either (next_is cs 61) two (either (next_is cs 62) two one))
                              (either (c == 62) (either (next_is cs 61) two one) (
                                either (c == 33)
                                  (either (next_is cs 61) two (failed-Lexed token to))
                                  (either (c == 39) (lex_string-Lexed c cs cursor token to) (
                                    either (c == 34)
                                      (lex_quoted_identifier-Lexed c cs cursor token to)
                                      (either_known (is_ascii_digit c)
                                        (λ d. lex_number-Lexed c cs cursor token to d)
                                        (either (is_identifier_start unicode c)
                                          (λ e. lex_identifier-Lexed c cs cursor token to (ok_eq e))
                                          (failed-Lexed token to))))))))))))))))))
        h
    where
      one :
          {kind : TokenKind}
          → token_to (at c cs cursor) cs kind ≡ ok (token, to)
          → Lexed (at c cs cursor) cs token to
      one {kind} e =
          token_to-Lexed (at c cs cursor) cs cs kind token to (omega arith, omega arith) e

      two :
          {kind : TokenKind}
          → token_to (at c cs cursor) (tail cs) kind ≡ ok (token, to)
          → Lexed (at c cs cursor) cs token to
      two {kind} e = token_to-Lexed (at c cs cursor) cs (tail cs) kind token to (tail-Left cs) e
