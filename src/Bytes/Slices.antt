-- ===== src/Bytes/Slices.antt =====
-- Where slices and copies meet concatenation.
use quantadb.Prelude.{
  ℕ, zero, suc, ◌+◌, ◌≡◌, refl, List, [], ◌∷◌, ◌++◌, ap, arith, length, take, drop, replicate, ◌∙◌,
}
use quantadb.Bytes.{Bytes, overlay, write_at, zeroes}

module _ {ℓ} {A : Type ℓ} where
  pub take-length_append : (xs ys : List A) → take (length xs) (xs ++ ys) ≡ xs
  take-length_append [] ys = refl
  take-length_append (x ∷ xs) ys = ap (λ t. x ∷ t) (take-length_append xs ys)

  pub drop-length_append : (xs ys : List A) → drop (length xs) (xs ++ ys) ≡ ys
  drop-length_append [] ys = refl
  drop-length_append (x ∷ xs) ys = drop-length_append xs ys

  pub drop-add : (a b : ℕ) (xs : List A) → drop (a + b) xs ≡ drop b (drop a xs)
  drop-add zero b xs = rw add_zero_left refl
    where
      add_zero_left : zero + b ≡ b
      add_zero_left = omega arith
  drop-add (suc a) b [] = rw suc_left (drop_nil b)
    where
      suc_left : suc a + b ≡ suc (a + b)
      suc_left = omega arith

      drop_nil : (n : ℕ) → ◌≡◌ {A = List A} [] (drop n [])
      drop_nil zero = refl
      drop_nil (suc n) = refl
  drop-add (suc a) b (x ∷ xs) = rw suc_left (drop-add a b xs)
    where
      suc_left : suc a + b ≡ suc (a + b)
      suc_left = omega arith

  pub take-length : (xs : List A) → take (length xs) xs ≡ xs
  take-length [] = refl
  take-length (x ∷ xs) = ap (λ t. x ∷ t) (take-length xs)

  pub replicate-add : (a b : ℕ) (x : A) → replicate (a + b) x ≡ replicate a x ++ replicate b x
  replicate-add zero b x = ap (λ n. replicate n x) zero_left
    where
      zero_left : zero + b ≡ b
      zero_left = omega arith
  replicate-add (suc a) b x =
      ap (λ n. replicate n x) suc_left ∙ ap (λ t. x ∷ t) (replicate-add a b x)
    where
      suc_left : suc a + b ≡ suc (a + b)
      suc_left = omega arith

-- a copy over a fresh buffer that is long enough
pub overlay-zeroes : (xs : Bytes) (n : ℕ) → overlay xs (zeroes (length xs + n)) ≡ xs ++ zeroes n
overlay-zeroes [] n = ap zeroes zero_left
  where
    zero_left : 0 + n ≡ n
    zero_left = omega arith
overlay-zeroes (x ∷ xs) n =
    ap (λ k. overlay (x ∷ xs) (zeroes k)) suc_left ∙ ap (λ t. x ∷ t) (overlay-zeroes xs n)
  where
    suc_left : suc (length xs) + n ≡ suc (length xs + n)
    suc_left = omega arith

pub write_at-length_append :
    (xs ys zs : Bytes) → write_at (xs ++ ys) (length xs) zs ≡ xs ++ overlay zs ys
write_at-length_append [] ys zs = refl
write_at-length_append (x ∷ xs) ys zs = ap (λ t. x ∷ t) (write_at-length_append xs ys zs)

-- a copy that fills what is left of the buffer
pub overlay-zeroes_all : (xs : Bytes) → overlay xs (zeroes (length xs)) ≡ xs
overlay-zeroes_all [] = refl
overlay-zeroes_all (x ∷ xs) = ap (λ t. x ∷ t) (overlay-zeroes_all xs)

pub length-overlay : (xs bs : Bytes) → length (overlay xs bs) ≡ length bs
length-overlay [] bs = refl
length-overlay (x ∷ xs) [] = refl
length-overlay (x ∷ xs) (b ∷ bs) = ap suc (length-overlay xs bs)

pub length-write_at :
    (bs : Bytes) (offset : ℕ) (xs : Bytes) → length (write_at bs offset xs) ≡ length bs
length-write_at bs zero xs = length-overlay xs bs
length-write_at [] (suc offset) xs = refl
length-write_at (b ∷ bs) (suc offset) xs = ap suc (length-write_at bs offset xs)
