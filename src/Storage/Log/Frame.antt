-- ===== src/Storage/Log/Frame.antt =====
-- A framed record is read back from its bytes.
use quantadb.Prelude.{
  ℕ, ◌+◌, ◌^◌, ◌-◌, ◌%◌, ◌≤◌, ◌<◌, ◌≡◌, refl, true, some, ◌++◌, length, take, get_or, arith, ap,
  ◌∙◌, sym, length-append,
}
use quantadb.Bytes.{Bytes, to_le, from_le, slice, read_u16, read_u32, read_u64, bytes_eq}
use quantadb.Bytes.Fields.{from_le-to_le_32, from_le-to_le_64}
use quantadb.Bytes.Slices.{take-length_append}
use quantadb.Storage.Page.{max_page_payload}
use quantadb.Storage.Log.{
  WalKind, WalRecord, page_image, page_append, batch_commit, checkpoint, type_of, page_of, framed,
  blank_header, kind_from, record_checksum, header_of, fits, read_record, wal_magic,
  wal_header_size,
}

-- What a kind has that the log writes and its scan accepts.
abbrev pub IsKind : WalKind → Type 0
IsKind (page_image page_id payload) = page_id < 2 ^ 64 - 1
IsKind (page_append page_id offset payload) = (page_id < 2 ^ 64 - 1) × (offset < 2 ^ 32)
IsKind (batch_commit page_count) = (0 < page_count) × (page_count < 2 ^ 32)
IsKind checkpoint = Unit

pub record IsRecord (r : WalRecord) : Type 0 where
  pub positive : 0 < r.lsn
  pub lsn_u64 : r.lsn < 2 ^ 64
  pub kind : IsKind r.kind
  pub short : length (framed r.kind) ≤ max_page_payload

kind_from-framed : (k : WalKind) → IsKind k → kind_from (type_of k) (page_of k) (framed k) ≡ some k
unfolding kind_from
kind_from-framed (page_image page_id payload) v = ground arith
kind_from-framed (page_append page_id offset payload) v =
    ground (arith, from_le-to_le_32 offset v.1)
kind_from-framed (batch_commit page_count) v = ground (arith, from_le-to_le_32 page_count v.1)
kind_from-framed checkpoint v = refl

page_of_u64 : (k : WalKind) → IsKind k → page_of k < 2 ^ 64
page_of_u64 (page_image page_id payload) v = omega arith
page_of_u64 (page_append page_id offset payload) v = omega arith
page_of_u64 (batch_commit page_count) v = omega arith
page_of_u64 checkpoint v = omega arith

module _ (crc : Bytes → ℕ) where
  unfoldable pub image : WalRecord → Bytes
  image r = header_of crc r ++ framed r.kind

  pub length-header_of : (r : WalRecord) → length (header_of crc r) ≡ wal_header_size
  unfolding header_of blank_header
  length-header_of r = refl

  -- What a round returns, by the fields that it reads.
  read_record-fields :
      (previous : ℕ) (bytes : Bytes) (n lsn : ℕ) (k : WalKind)
      → bytes_eq (slice 0 4 (take 40 bytes)) wal_magic ≡ true
      → read_u16 (take 40 bytes) 4 ≡ 1
      → read_u32 (take 40 bytes) 8 ≡ 40 + n
      → read_u32 (take 40 bytes) 12 ≡ n
      → n ≤ max_page_payload
      → 40 + n ≤ length bytes
      → read_u32 (take 40 bytes) 32 ≡ record_checksum crc (take 40 bytes) (slice 40 n bytes)
      → read_u64 (take 40 bytes) 16 ≡ lsn
      → 0 < lsn
      → previous < lsn
      → kind_from (get_or (take 40 bytes) 6 0) (read_u64 (take 40 bytes) 24) (slice 40 n bytes)
        ≡ some k
      → read_record crc previous bytes ≡ some (record { lsn = lsn; kind = k })
  unfolding read_record fits
  read_record-fields previous bytes n lsn k magic version len plen small room sum l positive later
        kind =
      rw (plen, len, version, magic, l, sum, kind) (ground arith)

  payload_of :
      (r : WalRecord) (rest : Bytes)
      → slice 40 (length (framed r.kind)) (image r ++ rest) ≡ framed r.kind
  unfolding image header_of blank_header
  payload_of r rest = take-length_append (framed r.kind) rest

  pub read_record-image :
      ((bytes : Bytes) → crc bytes < 2 ^ 32)
      → (previous : ℕ) (r : WalRecord) (rest : Bytes) → previous < r.lsn
      → IsRecord r
      → read_record crc previous (image r ++ rest) ≡ some r
  unfolding image header_of blank_header record_checksum
  read_record-image crc_u32 previous r rest later v =
      read_record-fields previous (image r ++ rest) (length (framed r.kind)) r.lsn r.kind refl refl
        (from_le-to_le_32 (40 + length (framed r.kind)) (omega (arith, v.short)))
        (short_u32 (length (framed r.kind)) v.short) v.short
        (omega (arith, length-append (framed r.kind) rest))
        (from_le-to_le_32 _ (crc_u32 _)
          ∙ ap (λ p. record_checksum crc (take 40 (image r ++ rest)) p) (sym (payload_of r rest)))
        (from_le-to_le_64 r.lsn v.lsn_u64) v.positive later
        (ap (λ p. kind_from (type_of r.kind) (from_le (to_le 8 (page_of r.kind))) p)
            (payload_of r rest)
          ∙ ap (λ p. kind_from (type_of r.kind) p (framed r.kind))
              (from_le-to_le_64 (page_of r.kind) (page_of_u64 r.kind v.kind))
          ∙ kind_from-framed r.kind v.kind)
    where
      short_u32 : (n : ℕ) → n ≤ max_page_payload → from_le (to_le 4 (n % 2 ^ 32)) ≡ n
      short_u32 n h = from_le-to_le_32 (n % 2 ^ 32) (omega arith) ∙ omega arith
