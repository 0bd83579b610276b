-- ===== src/Mvcc/Record/RoundTrip.antt =====
-- A record decodes from its encoding, whatever follows it.
use quantadb.Prelude.{
  ℕ, ◌+◌, ◌%◌, ◌^◌, ◌≤◌, ◌<◌, ◌≡◌, refl, [], ◌++◌, length, take, drop, ◌==◌, none, some, Option,
  if◌then◌else◌, arith, ap, ◌∙◌, true, length-append, append_assoc,
}
use quantadb.Prelude.Result.{ok}
use quantadb.Bytes.{
  from_le, Bytes, zeroes, write_at, to_le, slice, read_u16, read_u32, read_u64, all_zero,
}
use quantadb.Bytes.Fields.{from_le-to_le_32, from_le-to_le_64}
use quantadb.Bytes.Slices.{
  replicate-add, overlay-zeroes, take-length_append, drop-length_append, write_at-length_append,
  overlay-zeroes_all, drop-add,
}
use quantadb.Mvcc.Record.{
  VersionRecord, magic, value_bytes, tombstone_flags, validate_size, fill, encode, decode_bytes,
  check_header, check_length, checked_record,
}

-- What a commit timestamp and a successful `validate_size` give.
pub record IsRecord (r : VersionRecord) : Type 0 where
  pub committed : 0 < r.timestamp
  pub timestamp_u64 : r.timestamp < 2 ^ 64
  pub fits : 32 + length r.key + length (value_bytes r.value) ≤ 8128

abbrev pub size : VersionRecord → ℕ
size r = 32 + length r.key + length (value_bytes r.value)

header : VersionRecord → Bytes
header r =
    magic
    ++ to_le 2 1
    ++ to_le 2 (tombstone_flags r.value)
    ++ to_le 8 r.timestamp
    ++ to_le 4 (length r.key % 2 ^ 32)
    ++ to_le 4 (length (value_bytes r.value) % 2 ^ 32)
    ++ zeroes 8

pub image : VersionRecord → Bytes
unfolding header
image r = header r ++ r.key ++ value_bytes r.value

pub length-image : (r : VersionRecord) → length (image r) ≡ size r
unfolding image header
length-image r = omega (arith, length-append r.key (value_bytes r.value))

abbrev of : ℕ → Bytes → Option Bytes → VersionRecord
of t k v = record { timestamp = t; key = k; value = v }

zeroes_apart : (a b : ℕ) → zeroes (32 + a + b) ≡ zeroes 32 ++ zeroes (a + b)
zeroes_apart a b = ap zeroes regroup ∙ replicate-add 32 (a + b) 0
  where
    regroup : 32 + a + b ≡ 32 + (a + b)
    regroup = omega arith

fill_value :
    (t : ℕ) (k : Bytes) (v : Option Bytes)
    → fill (zeroes (size (of t k v))) (of t k v) ≡ image (of t k v)
unfolding fill image header
fill_value t k none =
    ap (λ b. fill b (of t k none)) (zeroes_apart (length k) 0)
    ∙ ap (λ b. header (of t k none) ++ b) (overlay-zeroes k 0)
fill_value t k (some v) =
    ap (λ b. fill b (of t k (some v))) (zeroes_apart (length k) (length v))
    ∙ ap (λ b. write_at (header (of t k (some v)) ++ b) (32 + length k) v)
        (overlay-zeroes k (length v))
    ∙ ap (λ n. write_at ((header (of t k (some v)) ++ k) ++ zeroes (length v)) n v) (at_end)
    ∙ write_at-length_append (header (of t k (some v)) ++ k) (zeroes (length v)) v
    ∙ ap (λ b. header (of t k (some v)) ++ k ++ b) (overlay-zeroes_all v)
  where
    at_end : 32 + length k ≡ length (header (of t k (some v)) ++ k)
    at_end = omega arith

fill-zeroes : (r : VersionRecord) → fill (zeroes (size r)) r ≡ image r
fill-zeroes r = fill_value r.timestamp r.key r.value

validate_size-fits :
    (k : Bytes) (v : Option Bytes)
    → 32 + length k + length (value_bytes v) ≤ 8128
    → validate_size k v ≡ ok tt
unfolding validate_size
validate_size-fits k v h = ground arith

-- A record within a page's payload is encoded to its image.
pub encode-image : (r : VersionRecord) → IsRecord r → encode r ≡ ok (image r)
unfolding encode
encode-image r v = rw (validate_size-fits r.key r.value v.fits, fill-zeroes r) refl

-- What `decode_bytes` returns, by the fields that it reads.
decode_fields :
    (page_id : ℕ) (bytes : Bytes) (flags timestamp kl vl : ℕ)
    → 32 + kl + vl ≤ length bytes
    → 32 + kl + vl < 2 ^ 64
    → slice 0 4 bytes ≡ magic
    → read_u16 bytes 4 ≡ 1
    → read_u16 bytes 6 ≡ flags
    → flags < 2
    → all_zero (slice 24 8 bytes) ≡ true
    → read_u64 bytes 8 ≡ timestamp
    → 0 < timestamp
    → read_u32 bytes 16 ≡ kl
    → read_u32 bytes 20 ≡ vl
    → (flags ≡ 1 → vl ≡ 0)
    → decode_bytes page_id bytes
      ≡ ok (
          some (
            of timestamp
                (slice 32 kl bytes)
                (if flags == 0 then some (slice (32 + kl) vl bytes) else none),
            32 + kl + vl,
          ))
unfolding decode_bytes checked_record check_header check_length
decode_fields page_id bytes flags timestamp kl vl len small m ver fl two zero ts pos k v tomb =
    rw (m, ver, fl, zero, ts, k, v) (ground arith)

-- The bytes of a record, whatever follows them, decode to the record and its length.
pub decode_bytes-image :
    (page_id : ℕ) (r : VersionRecord) (rest : Bytes)
    → IsRecord r
    → decode_bytes page_id (image r ++ rest) ≡ ok (some (r, size r))
unfolding image header
decode_bytes-image page_id r rest v = split r.timestamp r.key r.value v
  where
    u32 : (n : ℕ) → n ≤ 8128 → n % 2 ^ 32 ≡ n
    u32 n h = omega arith

    field : (n : ℕ) → n ≤ 8128 → from_le (to_le 4 (n % 2 ^ 32)) ≡ n
    field n h = from_le-to_le_32 (n % 2 ^ 32) (omega arith) ∙ u32 n h

    key_part : (k w : Bytes) → take (length k) ((k ++ w) ++ rest) ≡ k
    key_part k w = rw (append_assoc) (take-length_append k (w ++ rest))

    value_part : (k x : Bytes) → take (length x) (drop (length k) ((k ++ x) ++ rest)) ≡ x
    value_part k x = rw (append_assoc, drop-length_append k (x ++ rest)) (take-length_append x rest)

    long :
        (t : ℕ) (k : Bytes) (w : Option Bytes)
        → 32 + length k + length (value_bytes w) ≤ length (image (of t k w) ++ rest)
    long t k w = omega (arith, length-append (image (of t k w)) rest, length-image (of t k w))

    split :
        (t : ℕ) (k : Bytes) (w : Option Bytes)
        → IsRecord (of t k w)
        → decode_bytes page_id (image (of t k w) ++ rest) ≡ ok (some (of t k w, size (of t k w)))
    split t k none v =
        decode_fields page_id (image (of t k none) ++ rest) 1 t (length k) 0 (long t k none)
          (omega arith) refl refl refl (omega arith) refl (from_le-to_le_64 t v.timestamp_u64)
          v.committed (field (length k) (omega arith)) refl (λ _. refl)
        ∙ ap (λ key. ok (some (of t key none, 32 + length k + 0))) (key_part k [])
    split t k (some x) v =
        decode_fields page_id (image (of t k (some x)) ++ rest) 0 t (length k) (length x)
          (long t k (some x)) (omega arith) refl refl refl (omega arith) refl
          (from_le-to_le_64 t v.timestamp_u64) v.committed (field (length k) (omega arith))
          (field (length x) (omega arith)) (λ e. cc)
        ∙ ap
            (λ b. ok (
              some (
                of t (take (length k) ((k ++ x) ++ rest)) (some (take (length x) b)),
                32 + length k + length x,
              )))
            (drop-add 32 (length k) (image (of t k (some x)) ++ rest))
        ∙ ap
            (λ key. ok (
              some (
                of t key (some (take (length x) (drop (length k) ((k ++ x) ++ rest)))),
                32 + length k + length x,
              )))
            (key_part k x)
        ∙ ap (λ value. ok (some (of t k (some value), 32 + length k + length x))) (value_part k x)
