-- ===== src/Bytes/Fields.antt =====
-- Little-endian fields read back what was written.
use quantadb.Prelude.{
  ℕ, zero, suc, ◌+◌, ◌*◌, ◌/◌, ◌%◌, ◌^◌, ◌<◌, ◌≡◌, refl, true, [], ◌∷◌, ap, arith, length,
}
use quantadb.Bytes.{Bytes, to_le, from_le, AllBytes, bytes_eq}

pub length-to_le : (w v : ℕ) → length (to_le w v) ≡ w
length-to_le zero v = refl
length-to_le (suc w) v = ap suc (length-to_le w (v / 256))

pub from_le-to_le_16 : (v : ℕ) → v < 2 ^ 16 → from_le (to_le 2 v) ≡ v
from_le-to_le_16 v h = omega arith

pub from_le-to_le_32 : (v : ℕ) → v < 2 ^ 32 → from_le (to_le 4 v) ≡ v
from_le-to_le_32 v h = omega arith

pub from_le-to_le_64 : (v : ℕ) → v < 2 ^ 64 → from_le (to_le 8 v) ≡ v
from_le-to_le_64 v h = omega arith

pub to_le-AllBytes : (w v : ℕ) → AllBytes (to_le w v)
to_le-AllBytes zero v = tt
to_le-AllBytes (suc w) v = (omega arith, to_le-AllBytes w (v / 256))

pub bytes_eq_refl : (a : Bytes) → bytes_eq a a ≡ true
bytes_eq_refl [] = refl
bytes_eq_refl (x ∷ xs) = ground (arith, bytes_eq_refl xs)

pub eq_of_bytes_eq : (a b : Bytes) → bytes_eq a b ≡ true → a ≡ b
eq_of_bytes_eq [] [] h = refl
eq_of_bytes_eq [] (y ∷ ys) h = cc
eq_of_bytes_eq (x ∷ xs) [] h = cc
eq_of_bytes_eq (x ∷ xs) (y ∷ ys) h = ground (arith, eq_of_bytes_eq xs ys)

-- a field of one byte, written back, is the byte itself
pub to_le-from_le : (bs : Bytes) → AllBytes bs → to_le (length bs) (from_le bs) ≡ bs
to_le-from_le [] h = refl
to_le-from_le (b ∷ bs) h =
    ground (arith, to_le-from_le bs, head_byte b (from_le bs), tail_bytes b (from_le bs))
  where
    head_byte : (x y : ℕ) → x < 256 → (x + 256 * y) % 256 ≡ x
    head_byte x y p = omega arith

    tail_bytes : (x y : ℕ) → x < 256 → (x + 256 * y) / 256 ≡ y
    tail_bytes x y p = omega arith
