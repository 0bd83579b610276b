-- ===== src/Storage/Page/RoundTrip.antt =====
-- A page that was encoded decodes to itself.
use quantadb.Prelude.{
  true, ◌==◌, ==_iff, ℕ, ◌+◌, ◌%◌, ◌^◌, ◌-◌, ◌≤◌, ◌<◌, ◌≡◌, refl, ◌++◌, length, ltb, arith, ap, ◌∙◌,
  false, sym, length-append, length-replicate,
}
use quantadb.Prelude.Result.{ok}
use quantadb.Bytes.{Bytes, zeroes, to_le, slice, all_zero, read_u16, read_u32, read_u64}
use quantadb.Bytes.Fields.{from_le-to_le_32, from_le-to_le_64}
use quantadb.Bytes.Slices.{replicate-add, overlay-zeroes, take-length_append}
use quantadb.Storage.Page.{
  Page, page_size, page_magic, max_page_payload, fill, seal, encode, decode,
  checksum_with_zeroed_field,
}

-- The header up to the checksum, and the reserved bytes behind it.
head_fields : Page → Bytes
head_fields p =
    page_magic
    ++ to_le 2 1
    ++ zeroes 2
    ++ to_le 8 p.id
    ++ to_le 8 p.lsn
    ++ to_le 4 (length p.payload % 2 ^ 32)

image : Page → Bytes → Bytes
unfolding head_fields
image p sum = head_fields p ++ sum ++ zeroes 32 ++ p.payload ++ zeroes (8128 - length p.payload)

fill-zeroes :
    (p : Page)
    → length p.payload ≤ max_page_payload
    → fill (zeroes page_size) p ≡ image p (zeroes 4)
unfolding fill image
fill-zeroes p h =
    ap (λ n. fill (zeroes n) p) whole
    ∙ ap (λ b. fill b p) (replicate-add 64 (length p.payload + (8128 - length p.payload)) 0)
    ∙ ap (λ b. head_fields p ++ zeroes 4 ++ zeroes 32 ++ b)
        (overlay-zeroes p.payload (8128 - length p.payload))
  where
    whole : 8192 ≡ 64 + (length p.payload + (8128 - length p.payload))
    whole = omega arith

length-image :
    (p : Page) (s : ℕ)
    → length p.payload ≤ max_page_payload
    → length (image p (to_le 4 s)) ≡ page_size
unfolding image head_fields
length-image p s h = omega (
  arith,
  length-append p.payload (zeroes (8128 - length p.payload)),
  length-replicate {A = ℕ} (8128 - length p.payload) 0,
)

-- What `u64`, `u32` and a successful `with_lsn` give.
pub record IsPage (p : Page) : Type 0 where
  pub id_u64 : p.id < 2 ^ 64
  pub lsn_u64 : p.lsn < 2 ^ 64
  pub fits : length p.payload ≤ max_page_payload

module _ (crc : Bytes → ℕ) where
  encode-image :
      (p : Page)
      → length p.payload ≤ max_page_payload
      → encode crc p ≡ image p (to_le 4 (checksum_with_zeroed_field crc (image p (zeroes 4))))
  unfolding encode image head_fields seal
  encode-image p h = ap (seal crc) (fill-zeroes p h)

  decode_reads :
      (bytes : Bytes) (p : Page)
      → length bytes ≡ page_size
      → slice 0 4 bytes ≡ page_magic
      → read_u16 bytes 4 ≡ 1
      → read_u64 bytes 8 ≡ p.id
      → read_u64 bytes 16 ≡ p.lsn
      → read_u32 bytes 24 ≡ length p.payload
      → read_u32 bytes 28 ≡ checksum_with_zeroed_field crc bytes
      → length p.payload ≤ max_page_payload
      → slice 64 (length p.payload) bytes ≡ p.payload
      → decode crc bytes ≡ ok p
  unfolding decode
  decode_reads bytes p len magic version id lsn n sum fits payload =
      rw (len, magic, version, sum_agrees, id, n, not_above, lsn, payload) refl
    where
      sum_agrees : (read_u32 bytes 28 == checksum_with_zeroed_field crc bytes) ≡ true
      sum_agrees = (==_iff _ _).1 sum

      not_above : ltb max_page_payload (length p.payload) ≡ false
      not_above = ground arith

  -- the stored sum does not enter the sum
  checksum-image :
      (p : Page) (s : ℕ)
      → checksum_with_zeroed_field crc (image p (to_le 4 s))
        ≡ checksum_with_zeroed_field crc (image p (zeroes 4))
  unfolding checksum_with_zeroed_field image head_fields
  checksum-image p s = refl

  decode-image :
      (p : Page) (s : ℕ)
      → s < 2 ^ 32
      → s ≡ checksum_with_zeroed_field crc (image p (zeroes 4))
      → IsPage p
      → decode crc (image p (to_le 4 s)) ≡ ok p
  unfolding image head_fields
  decode-image p s small e v =
      decode_reads (image p (to_le 4 s)) p (length-image p s v.fits) refl refl
        (from_le-to_le_64 p.id v.id_u64) (from_le-to_le_64 p.lsn v.lsn_u64)
        (from_le-to_le_32 (length p.payload % 2 ^ 32) (omega arith)
          ∙ fits_u32 (length p.payload) v.fits)
        (from_le-to_le_32 s small ∙ e ∙ sym (checksum-image p s)) v.fits
        (take-length_append p.payload (zeroes (8128 - length p.payload)))
    where
      fits_u32 : (n : ℕ) → n ≤ 8128 → n % 2 ^ 32 ≡ n
      fits_u32 n h = omega arith

  -- An encoded page decodes to itself, given that its fields are in range and that the checksum has
  -- 32 bits.
  pub decode-encode :
      ((bytes : Bytes) → crc bytes < 2 ^ 32)
      → (p : Page) → IsPage p
      → decode crc (encode crc p) ≡ ok p
  unfolding checksum_with_zeroed_field
  decode-encode crc_u32 p v = rw (encode-image p v.fits) (decode-image p _ (crc_u32 _) refl v)

  pub length-encode : (p : Page) → IsPage p → length (encode crc p) ≡ page_size
  length-encode p v = rw (encode-image p v.fits) (length-image p _ v.fits)

  -- The magic keeps a page from being all zeroes.
  pub all_zero-encode : (p : Page) → IsPage p → all_zero (encode crc p) ≡ false
  unfolding image head_fields
  all_zero-encode p v = ap all_zero (encode-image p v.fits)
