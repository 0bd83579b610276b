-- ===== src/Syntax/Lexer/Total.antt =====
-- syntax/src/lexer.rs: the lexer ends, and its tokens lie one behind the other in the text.
use quantadb.Prelude.{
  ℕ, zero, suc, ◌+◌, ◌≤◌, ◌<◌, ◌≡◌, refl, Bool, true, false, Option, some, List, [], ◌∷◌, ◌==◌, not,
  length, arith, ap, ◌∙◌, sym, subst, Option-cases, inl, inr,
}
use quantadb.Prelude.Result.{ok, err, Result-cases}
use quantadb.Syntax.Token.{Text, Token, Span, eof}
use quantadb.Syntax.Lexer.{
  Lexer, LexResult, Unicode, byte_length, len_utf8, advance_to, tail, skip_while, span_of,
  block_comment, next_token, starts_with_two, trivia_step, skip_trivia, push_token, push_next,
  tokenize_from, tokenize,
}
use quantadb.Syntax.Lexer.Lexed.{
  Left, Left-trans, skip_while-Left, tail-Left, block_comment-Left, lex_token-Lexed, ok_eq,
  either_known,
}

-- A lexer further on in the same text.
abbrev pub Ahead : Lexer → Lexer → Type 0
Ahead l n = Left n.rest l.rest × (n.cursor + byte_length n.rest ≡ l.cursor + byte_length l.rest)

Ahead-trans : (a b c : Lexer) → Ahead a b → Ahead b c → Ahead a c
Ahead-trans a b c p q = (Left-trans c.rest b.rest a.rest q.0 p.0, q.1 ∙ p.1)

advance_to-Ahead : (l : Lexer) (rest : Text) → Left rest l.rest → Ahead l (advance_to l rest)
advance_to-Ahead l rest p = (p, omega (arith, p.1))

module _ (unicode : Unicode) where
  two_less :
      (text : Text) (c d : ℕ)
      → starts_with_two unicode text c d ≡ true
      → length (tail (tail text)) < length text
  two_less [] c d h = ground (arith, h)
  two_less (x ∷ []) c d h = omega arith
  two_less (x ∷ y ∷ cs) c d h = omega arith

  -- What a round of trivia leaves: less text where the loop goes on.
  abbrev Round : Lexer → Lexer → Bool → Type 0
  Round l n true = Ahead l n × (length n.rest < length l.rest)
  Round l n false = Ahead l n

  trivia_step-Round :
      (l n : Lexer) (goes_on : Bool) → trivia_step unicode l ≡ ok (n, goes_on) → Round l n goes_on
  unfolding trivia_step
  trivia_step-Round l n goes_on h =
      either_known (starts_with_two unicode blank 45 45)
        (λ e g. moved (skip_while (λ c. not (c == 10)) (tail (tail blank))) true g (
          advance_to-Ahead l _
              (behind _ (skip_while-Left (λ c. not (c == 10)) (tail (tail blank)))),
          omega (
            arith,
            two_less blank 45 45 e,
            (skip_while-Left (λ c. not (c == 10)) (tail (tail blank))).0,
            left.0,
          ),
        ))
        (either_known (starts_with_two unicode blank 47 42)
          (λ e g. elim (Option-cases (block_comment (tail (tail blank)) 1)) [
            | inl f ↦ ground (arith, f, g)
            | inr (rest, f) ↦ moved rest true (ground (arith, f, g)) (
              advance_to-Ahead l rest
                  (behind rest (block_comment-Left (tail (tail blank)) 1 rest f)),
              omega (
                arith,
                two_less blank 47 42 e,
                (block_comment-Left (tail (tail blank)) 1 rest f).0,
                left.0,
              ),
            )
          ])
          (λ g. moved blank false g (advance_to-Ahead l blank left)))
        h
    where
      blank : Text
      blank = skip_while unicode.is_whitespace l.rest

      left : Left (skip_while unicode.is_whitespace l.rest) l.rest
      left = skip_while-Left unicode.is_whitespace l.rest

      behind :
          (rest : Text)
          → Left rest (tail (tail (skip_while unicode.is_whitespace l.rest)))
          → Left rest l.rest
      behind rest p =
          Left-trans rest (tail (skip_while unicode.is_whitespace l.rest)) l.rest
            (Left-trans rest (tail (tail (skip_while unicode.is_whitespace l.rest)))
              (tail (skip_while unicode.is_whitespace l.rest)) p
              (tail-Left (tail (skip_while unicode.is_whitespace l.rest))))
            (Left-trans (tail (skip_while unicode.is_whitespace l.rest))
              (skip_while unicode.is_whitespace l.rest) l.rest
              (tail-Left (skip_while unicode.is_whitespace l.rest)) left)

      moved :
          (rest : Text) (more : Bool)
          → ◌≡◌ {A = LexResult (Lexer × Bool)} (ok (advance_to l rest, more)) (ok (n, goes_on))
          → Round l (advance_to l rest) more
          → Round l n goes_on
      moved rest more g r = subst (λ (o : Lexer × Bool). Round l o.0 o.1) (ok_eq g) r

  skip_trivia_total :
      (fuel : ℕ) (l : Lexer)
      → length l.rest < fuel
      → (r : LexResult Lexer) × (skip_trivia unicode fuel l ≡ some r)
        × ((n : Lexer) → r ≡ ok n → Ahead l n)
  unfolding skip_trivia
  skip_trivia_total zero l h = absurd (omega arith)
  skip_trivia_total (suc fuel) l h = elim (Result-cases (trivia_step unicode l)) [
    | inr (x, e) ↦ (err x, rw (skip_trivia, e) refl, λ n g. ground (arith, g))
    | inl ((n, true), e) ↦
        let (ahead, less) = trivia_step-Round l n true e in
        let (r, f, g) = skip_trivia_total fuel n (omega (arith, less, h)) in
        (r, rw (skip_trivia, e) f, λ m k. Ahead-trans l n m ahead (g m k))
    | inl ((n, false), e) ↦ (
      ok n,
      rw (skip_trivia, e) refl,
      λ m k. subst (Ahead l) (ok_eq k) (trivia_step-Round l n false e),
    )
  ]

-- The tokens lie in the text one behind the other, none of them empty, and the last is the end.
abbrev pub Tiled : ℕ → ℕ → List Token → Type 0
Tiled low high [] = ⊥
Tiled low high (t ∷ []) =
    (t.kind ≡ eof) × (t.span ≡ record { start = high; end = high }) × (low ≤ high)
Tiled low high (t ∷ u ∷ ts) =
    (low ≤ t.span.start) × (t.span.start < t.span.end) × Tiled t.span.end high (u ∷ ts)

-- What `tokenize` gives of a text between two offsets.
abbrev pub Tokens : ℕ → ℕ → LexResult (List Token) → Type 0
Tokens low high (err e) = Unit
Tokens low high (ok tokens) = Tiled low high tokens

module _ (unicode : Unicode) where
  push_token-Tokens :
      (low : ℕ) (from to : Lexer) (token : Token) (r : LexResult (List Token))
      → low ≤ from.cursor
      → token.span ≡ span_of from to
      → from.cursor < to.cursor
      → Tokens to.cursor (to.cursor + byte_length to.rest) r
      → (s : LexResult (List Token)) × (push_token unicode token (some r) ≡ some s)
        × Tokens low (to.cursor + byte_length to.rest) s
  push_token-Tokens low from to token (err e) p q h t = (err e, refl, tt)
  push_token-Tokens low from to token (ok []) p q h t = absurd t
  push_token-Tokens low from to token (ok (u ∷ ts)) p q h t = (
    ok (token ∷ u ∷ ts),
    refl,
    (subst
        (λ (x : Span).
          (low ≤ x.start)
          × (x.start < x.end)
          × Tiled x.end (to.cursor + byte_length to.rest) (u ∷ ts))
        (sym q) (p, h, t)),
  )

  -- A token takes a character at least.
  next_token-Ahead :
      (c : ℕ) (cs : Text) (cursor : ℕ) (token : Token) (to : Lexer)
      → next_token unicode (record { rest = c ∷ cs; cursor = cursor }) ≡ ok (token, to)
      → Ahead (record { rest = c ∷ cs; cursor = cursor }) to
        × (length to.rest ≤ length cs)
        × (cursor < to.cursor)
        × (token.span ≡ span_of (record { rest = c ∷ cs; cursor = cursor }) to)
  unfolding next_token
  next_token-Ahead c cs cursor token to h =
      let x = lex_token-Lexed unicode c cs cursor token to h in
      let there = ap (λ (l : Lexer). l.cursor) x.moved in
      let wide = len_utf8_positive c in
      (
        ((omega (arith, x.left.0), omega (arith, x.left.1)), omega (arith, x.left.1, there)),
        x.left.0,
        omega (arith, x.left.1, there, wide),
        x.span,
      )
    where
      len_utf8_positive : (c : ℕ) → 0 < len_utf8 c
      len_utf8_positive c = ground arith

  Tokens-lower :
      (low at high : ℕ) (r : LexResult (List Token))
      → low ≤ at
      → Tokens at high r
      → Tokens low high r
  Tokens-lower low at high (err e) p t = tt
  Tokens-lower low at high (ok []) p t = t
  Tokens-lower low at high (ok (x ∷ [])) p t = (t.0, t.1, omega (arith, t.2))
  Tokens-lower low at high (ok (x ∷ y ∷ ts)) p t = (omega (arith, t.0), t.1, t.2)

  -- behind the trivia
  push_next_total :
      (more : Lexer → Option (LexResult (List Token))) (n : Lexer)
      → ((m : Lexer)
          → length m.rest < length n.rest
          → (r : LexResult (List Token)) × (more m ≡ some r)
            × Tokens m.cursor (m.cursor + byte_length m.rest) r)
      → (r : LexResult (List Token)) × (push_next unicode n more ≡ some r)
        × Tokens n.cursor (n.cursor + byte_length n.rest) r
  unfolding push_next
  push_next_total more n rest_total = by_text n.rest n.cursor rest_total
    where
      by_text :
          (rest : Text) (cursor : ℕ)
          → ((m : Lexer)
              → length m.rest < length rest
              → (r : LexResult (List Token)) × (more m ≡ some r)
                × Tokens m.cursor (m.cursor + byte_length m.rest) r)
          → (r : LexResult (List Token)) × (push_next unicode
                (record { rest = rest; cursor = cursor })
                more
              ≡ some r)
            × Tokens cursor (cursor + byte_length rest) r
      by_text [] cursor f = (
        ok (record { kind = eof; span = record { start = cursor; end = cursor } } ∷ []),
        refl,
        (refl, ap (λ k. record { start = k; end = k }) (omega arith), omega arith),
      )
      by_text (c ∷ cs) cursor f =
          elim (Result-cases (next_token unicode (record { rest = c ∷ cs; cursor = cursor }))) [
            | inr (x, e) ↦ (err x, rw (push_next, e) refl, tt)
            | inl ((token, next), e) ↦
                let (ahead, less, later, spanned) = next_token-Ahead c cs cursor token next e in
                let (r, g, t) = f next (omega (arith, less)) in
                let (s, k, u) =
                  push_token-Tokens cursor (record { rest = c ∷ cs; cursor = cursor }) next token r
                    (omega arith) spanned later t in
                (s, rw (push_next, e, g) k, subst (λ high. Tokens cursor high s) ahead.1 u)
          ]

  tokenize_from_total :
      (fuel : ℕ) (l : Lexer)
      → length l.rest < fuel
      → (r : LexResult (List Token)) × (tokenize_from unicode fuel l ≡ some r)
        × Tokens l.cursor (l.cursor + byte_length l.rest) r
  unfolding tokenize_from
  tokenize_from_total zero l h = absurd (omega arith)
  tokenize_from_total (suc fuel) l h =
      let (found, e, ahead) = skip_trivia_total unicode (suc (length l.rest)) l (omega arith) in
      elim (Result-cases found) [
        | inr (x, f) ↦ (err x, rw (tokenize_from, e, f) refl, tt)
        | inl (n, f) ↦
            let further = ahead n f in
            let (r, g, t) =
              push_next_total (tokenize_from unicode fuel) n
                λ m less. tokenize_from_total fuel m (omega (arith, less, further.0.0, h)) in
            (
              r,
              rw (tokenize_from, e, f) g,
              subst (λ high. Tokens l.cursor high r) further.1
                  (Tokens-lower l.cursor n.cursor (n.cursor + byte_length n.rest) r
                    (omega (arith, further.0.1, further.1)) t),
            )
      ]

  -- Every text is lexed to its end, with tokens or with an error. The spans of the tokens are not
  -- empty, lie within the bytes of the text and one behind the other, up to the end token.
  pub tokenize_total :
      (sql : Text)
      → (r : LexResult (List Token)) × (tokenize unicode sql ≡ some r)
        × Tokens 0 (byte_length sql) r
  unfolding tokenize
  tokenize_total sql =
      let (r, e, t) =
        tokenize_from_total (suc (length sql)) (record { rest = sql; cursor = 0 }) (omega arith) in
      (r, e, subst (λ n. Tokens 0 n r) (omega arith) t)
