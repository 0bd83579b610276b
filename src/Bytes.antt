-- ===== src/Bytes.antt =====
-- Byte buffers as lists of numbers: the little-endian fields and the slice copies that every format
-- of the workspace uses (storage/src/page.rs, wal.rs; mvcc/src/record.rs, index_manifest.rs;
-- index/src/node.rs). A write stays within its buffer in every caller; past the end it changes
-- nothing, where the source would panic.
pub mod Fields
pub mod Slices
use quantadb.Prelude.{
  ℕ, zero, suc, ◌+◌, ◌*◌, ◌/◌, ◌%◌, ◌<◌, ◌≡◌, refl, Bool, true, false, ◌&&◌, List, [], ◌∷◌, ◌++◌,
  ◌==◌, ◌^◌, ltb, Option, none, some, if◌then◌else◌, take, drop, replicate,
}

abbrev pub Bytes : Type 0
Bytes = List ℕ

-- `value.to_le_bytes()` for an integer of `width` bytes
abbrev pub to_le : ℕ → ℕ → Bytes
to_le zero v = []
to_le (suc width) v = (v % 256) ∷ to_le width (v / 256)

-- `uN::from_le_bytes`
abbrev pub from_le : Bytes → ℕ
from_le [] = 0
from_le (b ∷ bs) = b + 256 * from_le bs

-- `xs` over the head of `bs`
abbrev pub overlay : Bytes → Bytes → Bytes
overlay [] bs = bs
overlay (x ∷ xs) [] = []
overlay (x ∷ xs) (b ∷ bs) = x ∷ overlay xs bs

-- `bytes[offset..offset + xs.len()].copy_from_slice(xs)`
abbrev pub write_at : Bytes → ℕ → Bytes → Bytes
write_at bs zero xs = overlay xs bs
write_at [] (suc offset) xs = []
write_at (b ∷ bs) (suc offset) xs = b ∷ write_at bs offset xs

abbrev pub write_u16 : Bytes → ℕ → ℕ → Bytes
write_u16 bs offset v = write_at bs offset (to_le 2 v)

abbrev pub write_u32 : Bytes → ℕ → ℕ → Bytes
write_u32 bs offset v = write_at bs offset (to_le 4 v)

abbrev pub write_u64 : Bytes → ℕ → ℕ → Bytes
write_u64 bs offset v = write_at bs offset (to_le 8 v)

-- `bytes[offset..offset + n]`
abbrev pub slice : ℕ → ℕ → Bytes → Bytes
slice offset n bs = take n (drop offset bs)

abbrev pub read_u16 : Bytes → ℕ → ℕ
read_u16 bs offset = from_le (slice offset 2 bs)

abbrev pub read_u32 : Bytes → ℕ → ℕ
read_u32 bs offset = from_le (slice offset 4 bs)

abbrev pub read_u64 : Bytes → ℕ → ℕ
read_u64 bs offset = from_le (slice offset 8 bs)

-- `vec![0; n]`
abbrev pub zeroes : ℕ → Bytes
zeroes n = replicate n 0

-- `bytes.iter().all(|byte| *byte == 0)`
abbrev pub all_zero : Bytes → Bool
all_zero [] = true
all_zero (b ∷ bs) = b == 0 && all_zero bs

-- `a == b` on slices
abbrev pub bytes_eq : Bytes → Bytes → Bool
bytes_eq [] [] = true
bytes_eq [] (y ∷ ys) = false
bytes_eq (x ∷ xs) [] = false
bytes_eq (x ∷ xs) (y ∷ ys) = x == y && bytes_eq xs ys

-- `key.starts_with(prefix)`
abbrev pub starts_with : Bytes → Bytes → Bool
starts_with ks [] = true
starts_with [] (p ∷ ps) = false
starts_with (k ∷ ks) (p ∷ ps) = k == p && starts_with ks ps

-- what a `u8` gives for nothing
abbrev pub AllBytes : Bytes → Type 0
AllBytes [] = Unit
AllBytes (b ∷ bs) = (b < 256) × AllBytes bs

-- `usize::checked_add`
abbrev pub checked_add : ℕ → ℕ → Option ℕ
checked_add a b = if ltb (a + b) (2 ^ 64) then some (a + b) else none
