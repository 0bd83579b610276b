-- ===== src/Storage/DataFile/Slices.antt =====
-- Slices of a file that grows and is written to.
use quantadb.Prelude.{
  ℕ, zero, suc, ◌+◌, ◌-◌, ◌≤◌, ◌≡◌, refl, true, [], ◌∷◌, ◌++◌, length, take, drop, take-append_le,
  max, arith, ap, length-append, length-replicate,
}
use quantadb.Bytes.{Bytes, zeroes, write_at, overlay, slice, all_zero}
use quantadb.Bytes.Slices.{length-write_at}
use quantadb.Storage.DataFile.{write_extending}

-- Slices of a file with one write.
take-overlay : (xs bs : Bytes) → length xs ≤ length bs → take (length xs) (overlay xs bs) ≡ xs
take-overlay [] bs h = refl
take-overlay (x ∷ xs) [] h = absurd (omega arith)
take-overlay (x ∷ xs) (b ∷ bs) h = ap (λ t. x ∷ t) (take-overlay xs bs (omega arith))

slice-write_at_same :
    (bs : Bytes) (offset : ℕ) (xs : Bytes)
    → offset + length xs ≤ length bs
    → slice offset (length xs) (write_at bs offset xs) ≡ xs
slice-write_at_same bs zero xs h = take-overlay xs bs (omega arith)
slice-write_at_same [] (suc offset) xs h = take-nil xs (omega arith)
  where
    take-nil : (xs : Bytes) → length xs ≤ 0 → take (length xs) [] ≡ xs
    take-nil [] h = refl
    take-nil (x ∷ xs) h = absurd (omega arith)
slice-write_at_same (b ∷ bs) (suc offset) xs h = slice-write_at_same bs offset xs (omega arith)

drop-overlay : (xs bs : Bytes) (n : ℕ) → length xs ≤ n → drop n (overlay xs bs) ≡ drop n bs
drop-overlay [] bs n h = refl
drop-overlay (x ∷ xs) [] n h = refl
drop-overlay (x ∷ xs) (b ∷ bs) zero h = absurd (omega arith)
drop-overlay (x ∷ xs) (b ∷ bs) (suc n) h = drop-overlay xs bs n (omega arith)

pub slice-write_at_after :
    (bs : Bytes) (offset : ℕ) (xs : Bytes) (at n : ℕ)
    → offset + length xs ≤ at
    → slice at n (write_at bs offset xs) ≡ slice at n bs
slice-write_at_after bs zero xs at n h = ap (λ t. take n t) (drop-overlay xs bs at (omega arith))
slice-write_at_after [] (suc offset) xs at n h = refl
slice-write_at_after (b ∷ bs) (suc offset) xs zero n h = absurd (omega arith)
slice-write_at_after (b ∷ bs) (suc offset) xs (suc at) n h =
    slice-write_at_after bs offset xs at n (omega arith)

take-write_at :
    (bs : Bytes) (offset : ℕ) (xs : Bytes) (n : ℕ)
    → n ≤ offset
    → take n (write_at bs offset xs) ≡ take n bs
take-write_at bs offset xs zero h = refl
take-write_at bs zero xs (suc n) h = absurd (omega arith)
take-write_at [] (suc offset) xs (suc n) h = refl
take-write_at (b ∷ bs) (suc offset) xs (suc n) h =
    ap (λ t. b ∷ t) (take-write_at bs offset xs n (omega arith))

pub slice-write_at_before :
    (bs : Bytes) (offset : ℕ) (xs : Bytes) (at n : ℕ)
    → at + n ≤ offset
    → slice at n (write_at bs offset xs) ≡ slice at n bs
slice-write_at_before bs offset xs zero n h = take-write_at bs offset xs n (omega arith)
slice-write_at_before bs zero xs (suc at) n h = absurd (omega arith)
slice-write_at_before [] (suc offset) xs (suc at) n h = refl
slice-write_at_before (b ∷ bs) (suc offset) xs (suc at) n h =
    slice-write_at_before bs offset xs at n (omega arith)

-- Slices of a file that grew by zeroes.
pub slice-append_le :
    (xs ys : Bytes) (at n : ℕ) → at + n ≤ length xs → slice at n (xs ++ ys) ≡ slice at n xs
slice-append_le xs ys zero n h = take-append_le xs ys n (omega arith)
slice-append_le [] ys (suc at) n h = take-append_nil ys n (omega arith)
  where
    take-append_nil : (ys : Bytes) (n : ℕ) → suc at + n ≤ 0 → take n (drop (suc at) ys) ≡ take n []
    take-append_nil ys n h = absurd (omega arith)
slice-append_le (x ∷ xs) ys (suc at) n h = slice-append_le xs ys at n (omega arith)

all_zero-slice : (m at n : ℕ) → all_zero (slice at n (zeroes m)) ≡ true
all_zero-slice zero zero zero = refl
all_zero-slice zero zero (suc n) = refl
all_zero-slice zero (suc at) zero = refl
all_zero-slice zero (suc at) (suc n) = refl
all_zero-slice (suc m) zero zero = refl
all_zero-slice (suc m) zero (suc n) = all_zero-slice m zero n
all_zero-slice (suc m) (suc at) n = all_zero-slice m at n

pub all_zero-beyond :
    (xs : Bytes) (m at n : ℕ) → length xs ≤ at → all_zero (slice at n (xs ++ zeroes m)) ≡ true
all_zero-beyond [] m at n h = all_zero-slice m at n
all_zero-beyond (x ∷ xs) m zero n h = absurd (omega arith)
all_zero-beyond (x ∷ xs) m (suc at) n h = all_zero-beyond xs m at n (omega arith)

pub length-write_extending :
    (file : Bytes) (offset : ℕ) (xs : Bytes)
    → length (write_extending file offset xs) ≡ max (length file) (offset + length xs)
unfolding write_extending
length-write_extending file offset xs = omega (
  arith,
  length-write_at (file ++ zeroes (offset + length xs - length file)) offset xs,
  length-append file (zeroes (offset + length xs - length file)),
  length-replicate {A = ℕ} (offset + length xs - length file) 0,
)

pub slice-write_extending :
    (file : Bytes) (offset : ℕ) (xs : Bytes)
    → slice offset (length xs) (write_extending file offset xs) ≡ xs
unfolding write_extending
slice-write_extending file offset xs =
    slice-write_at_same (file ++ zeroes (offset + length xs - length file)) offset xs (
      omega (
        arith,
        length-append file (zeroes (offset + length xs - length file)),
        length-replicate {A = ℕ} (offset + length xs - length file) 0,
      ))
