-- ===== src/Engine/Codec/Injective.antt =====
-- engine/src/codec.rs: a key tells the index and the values that it was made of.
use quantadb.Prelude.{
  ℕ, ◌^◌, ◌<◌, ◌≡◌, refl, List, [], ◌∷◌, ◌++◌, length, take, drop, ltb, arith, ap, ◌∙◌, sym,
}
use mathlib.Core.Path.{ap₂}
use quantadb.Prelude.Result.{ok, >>=-eq-ok, ensure->>-ok, ◌>>=◌}
use quantadb.Prelude.Seq.{All}
use quantadb.Bytes.{Bytes, from_le}
use quantadb.Bytes.Fields.{from_le-to_le_32, from_le-to_le_64}
use quantadb.Bytes.Slices.{take-length_append, drop-length_append}
use quantadb.Engine.Error.{EngineResult, invalid_row}
use quantadb.Engine.Codec.{
  Value, null, boolean, integer, float, text, to_be, reverse_onto, flip_sign, ordered_bits,
  encode_identity, delimited, delimited_values, index_entry_prefix, index_value_prefix,
}

-- Numbers of 64 bits, where a value holds one
abbrev pub IsValue : Value → Type 0
IsValue null = Unit
IsValue (boolean b) = Unit
IsValue (integer value) = value < 2 ^ 64
IsValue (float bits) = bits < 2 ^ 64
IsValue (text value) = Unit

to_be_64-injective : (m n : ℕ) → m < 2 ^ 64 → n < 2 ^ 64 → to_be 8 m ≡ to_be 8 n → m ≡ n
to_be_64-injective m n p q e =
    sym (from_le-to_le_64 m p) ∙ ap (λ bs. from_le (reverse_onto [] bs)) e ∙ from_le-to_le_64 n q

to_be_32-injective : (m n : ℕ) → m < 2 ^ 32 → n < 2 ^ 32 → to_be 4 m ≡ to_be 4 n → m ≡ n
to_be_32-injective m n p q e =
    sym (from_le-to_le_32 m p) ∙ ap (λ bs. from_le (reverse_onto [] bs)) e ∙ from_le-to_le_32 n q

flip_sign-injective : (m n : ℕ) → m < 2 ^ 64 → n < 2 ^ 64 → flip_sign m ≡ flip_sign n → m ≡ n
flip_sign-injective m n p q e = omega (arith, p, q, e)

ordered_bits-injective :
    (m n : ℕ) → m < 2 ^ 64 → n < 2 ^ 64 → ordered_bits m ≡ ordered_bits n → m ≡ n
ordered_bits-injective m n p q e = ground (arith, p, q, e)

ok_eq : {xs ys : Bytes} → ◌≡◌ {A = EngineResult Bytes} (ok xs) (ok ys) → xs ≡ ys
ok_eq e = ground (arith, e)

tail_eq : {x y : ℕ} {xs ys : Bytes} → (x ∷ xs) ≡ (y ∷ ys) → xs ≡ ys
tail_eq e = ap (drop 1) e

ordered_bits_u64 : (m : ℕ) → m < 2 ^ 64 → ordered_bits m < 2 ^ 64
ordered_bits_u64 m p = ground (arith, p)

float_bytes :
    (bits : ℕ) (bytes : Bytes)
    → encode_identity (float bits) ≡ ok bytes
    → ◌≡◌ {A = EngineResult Bytes} (ok (3 ∷ to_be 8 (ordered_bits bits))) (ok bytes)
unfolding encode_identity
float_bytes bits bytes e = ground (arith, e)

encode_identity-injective :
    (v w : Value) (bytes : Bytes)
    → IsValue v
    → IsValue w
    → encode_identity v ≡ ok bytes
    → encode_identity w ≡ ok bytes
    → v ≡ w
unfolding encode_identity
encode_identity-injective null w bytes p q e f = ground (arith, e)
encode_identity-injective (boolean b) null bytes p q e f = ground (arith, f)
encode_identity-injective (boolean b) (boolean c) bytes p q e f = ground (arith, e, f)
encode_identity-injective (boolean b) (integer n) bytes p q e f = ground (arith, e, f)
encode_identity-injective (boolean b) (float n) bytes p q e f = ground (arith, e, f)
encode_identity-injective (boolean b) (text u) bytes p q e f = ground (arith, e, f)
encode_identity-injective (integer m) null bytes p q e f = ground (arith, f)
encode_identity-injective (integer m) (boolean c) bytes p q e f = ground (arith, e, f)
encode_identity-injective (integer m) (integer n) bytes p q e f = ap integer (
    flip_sign-injective m n p q (
      to_be_64-injective (flip_sign m) (flip_sign n) (omega arith) (omega arith)
        (tail_eq (ok_eq (e ∙ sym f)))))
encode_identity-injective (integer m) (float n) bytes p q e f = ground (arith, e, f)
encode_identity-injective (integer m) (text u) bytes p q e f = ground (arith, e, f)
encode_identity-injective (float m) null bytes p q e f = ground (arith, f)
encode_identity-injective (float m) (boolean c) bytes p q e f = ground (arith, e, f)
encode_identity-injective (float m) (integer n) bytes p q e f = ground (arith, e, f)
encode_identity-injective (float m) (float n) bytes p q e f = ap float (
    ordered_bits-injective m n p q (
      to_be_64-injective (ordered_bits m) (ordered_bits n) (ordered_bits_u64 m p)
        (ordered_bits_u64 n q)
        (tail_eq (ok_eq (float_bytes m bytes e ∙ sym (float_bytes n bytes f))))))
encode_identity-injective (float m) (text u) bytes p q e f = ground (arith, e, f)
encode_identity-injective (text t) null bytes p q e f = ground (arith, f)
encode_identity-injective (text t) (boolean c) bytes p q e f = ground (arith, e, f)
encode_identity-injective (text t) (integer n) bytes p q e f = ground (arith, e, f)
encode_identity-injective (text t) (float n) bytes p q e f = ground (arith, e, f)
encode_identity-injective (text t) (text u) bytes p q e f = ap text (tail_eq (ok_eq (e ∙ sym f)))

-- Two delimited texts in front of others, in one text
delimited-apart :
    (x y r s : Bytes)
    → length x < 2 ^ 32
    → length y < 2 ^ 32
    → (to_be 4 (length x) ++ x) ++ r ≡ (to_be 4 (length y) ++ y) ++ s
    → (x ≡ y) × (r ≡ s)
delimited-apart x y r s p q e = (body, rest)
  where
    same_length : length x ≡ length y
    same_length = to_be_32-injective (length x) (length y) p q (ap (take 4) e)

    behind : x ++ r ≡ y ++ s
    behind = ap (drop 4) e

    body : x ≡ y
    body =
        sym (take-length_append x r)
        ∙ ap (take (length x)) behind
        ∙ ap (λ n. take n (y ++ s)) same_length
        ∙ take-length_append y s

    rest : r ≡ s
    rest =
        sym (drop-length_append x r)
        ∙ ap (drop (length x)) behind
        ∙ ap (λ n. drop n (y ++ s)) same_length
        ∙ drop-length_append y s

-- What a list of values that has a key consists of.
delimited_values-cons :
    (v : Value) (vs : List Value) (key : Bytes)
    → delimited_values (v ∷ vs) ≡ ok key
    → (identity : Bytes) × (rest : Bytes) × (encode_identity v ≡ ok identity)
      × (length identity < 2 ^ 32)
      × (delimited_values vs ≡ ok rest)
      × ((to_be 4 (length identity) ++ identity) ++ rest ≡ key)
unfolding delimited_values delimited
delimited_values-cons v vs key h =
    let frame : Bytes → EngineResult Bytes = λ identity.
      delimited invalid_row identity >>= λ framed.
      delimited_values vs >>= λ rest. ok (framed ++ rest) in
    let (identity, e, g) = >>=-eq-ok (encode_identity v) frame h in
    let (framed, e', g') =
      >>=-eq-ok (delimited invalid_row identity)
        (λ framed. delimited_values vs >>= λ rest. ok (framed ++ rest)) g in
    let (rest, e'', g'') = >>=-eq-ok (delimited_values vs) (λ rest. ok (framed ++ rest)) g' in
    let (short, same) =
      ensure->>-ok (ltb (length identity) (2 ^ 32)) invalid_row
        (ok (to_be 4 (length identity) ++ identity)) e' in
    (identity, rest, e, ground (arith, short), e'', ap (λ t. t ++ rest) (ok_eq same) ∙ ok_eq g'')

nil_cons : {x : ℕ} {xs : Bytes} → ◌≡◌ {A = Bytes} [] (x ∷ xs) → ⊥
nil_cons e = ground (arith, e)

delimited_values-nil : (key : Bytes) → delimited_values [] ≡ ok key → [] ≡ key
unfolding delimited_values
delimited_values-nil key h = ok_eq h

delimited_values-injective :
    (vs ws : List Value) (key : Bytes)
    → All IsValue vs
    → All IsValue ws
    → delimited_values vs ≡ ok key
    → delimited_values ws ≡ ok key
    → vs ≡ ws
delimited_values-injective [] [] key p q e f = refl
delimited_values-injective [] (w ∷ ws) key p q e f =
    let (y, s, f', small, g', f'') = delimited_values-cons w ws key f in
    absurd (nil_cons (delimited_values-nil key e ∙ sym f''))
delimited_values-injective (v ∷ vs) [] key p q e f =
    let (x, r, e', small, g, e'') = delimited_values-cons v vs key e in
    absurd (nil_cons (delimited_values-nil key f ∙ sym e''))
delimited_values-injective (v ∷ vs) (w ∷ ws) key p q e f =
    let (x, r, e', short, g, e'') = delimited_values-cons v vs key e in
    let (y, s, f', small, g', f'') = delimited_values-cons w ws key f in
    let (same_identity, same_rest) = delimited-apart x y r s short small (e'' ∙ sym f'') in
    ap₂ (λ a b. a ∷ b) (encode_identity-injective v w y p.0 q.0 (e' ∙ ap ok same_identity) f')
      (delimited_values-injective vs ws s p.1 q.1 (g ∙ ap ok same_rest) g')

-- Two indexes and lists of values with one key are the same.
pub index_value_prefix-injective :
    (i j : ℕ) (vs ws : List Value) (key : Bytes)
    → i < 2 ^ 64
    → j < 2 ^ 64
    → All IsValue vs
    → All IsValue ws
    → index_value_prefix i vs ≡ ok key
    → index_value_prefix j ws ≡ ok key
    → (i ≡ j) × (vs ≡ ws)
unfolding index_value_prefix index_entry_prefix
index_value_prefix-injective i j vs ws key a b p q e f =
    let (k, e', g) = >>=-eq-ok (delimited_values vs) (λ k. ok (index_entry_prefix i ++ k)) e in
    let (l, f', h) = >>=-eq-ok (delimited_values ws) (λ l. ok (index_entry_prefix j ++ l)) f in
    let same_key = ok_eq (g ∙ sym h) in
    (
      to_be_64-injective i j a b (ap (λ t. take 8 (drop 14 t)) same_key),
      delimited_values-injective vs ws l p q (e' ∙ ap (λ t. ok (drop 22 t)) same_key) f',
    )
