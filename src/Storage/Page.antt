-- ===== src/Storage/Page.antt =====
-- storage/src/page.rs: a page of 8192 bytes, its header and its checksum. `PageId` and `Lsn` are
-- numbers below 2 ^ 64. The CRC of the crate crc32fast is the parameter `crc`.
pub mod RoundTrip
use quantadb.Prelude.{
  ℕ, ◌+◌, ◌%◌, ◌^◌, ◌-◌, ◌∷◌, [], ◌++◌, length, take, drop, ltb, ◌==◌, not, if◌then◌else◌,
}
use quantadb.Prelude.Result.{ok, err, ensure, ◌>>=◌, ◌>>◌}
use quantadb.Bytes.{
  Bytes, zeroes, write_at, write_u16, write_u32, write_u64, slice, read_u16, read_u32, read_u64,
  bytes_eq,
}
use quantadb.Storage.Error.{
  StorageResult, page_too_large, invalid_page_length, corrupt_page, invalid_page_magic,
  unsupported_page_version, checksum_mismatch, payload_exceeds_page,
}

abbrev pub page_size : ℕ
page_size = 8192

abbrev pub page_header_size : ℕ
page_header_size = 64

abbrev pub max_page_payload : ℕ
max_page_payload = 8128

-- b"QNPG"
abbrev pub page_magic : Bytes
page_magic = 81 ∷ 78 ∷ 80 ∷ 71 ∷ []

abbrev pub page_format_version : ℕ
page_format_version = 1

pub record Page : Type 0 where
  pub id : ℕ
  pub lsn : ℕ
  pub payload : Bytes

unfoldable pub with_lsn : ℕ → ℕ → Bytes → StorageResult Page
with_lsn id lsn payload =
    if ltb max_page_payload (length payload)
    then err (page_too_large (length payload) max_page_payload)
    else ok (record { id = id; lsn = lsn; payload = payload })

unfoldable pub new : ℕ → Bytes → StorageResult Page
new id payload = with_lsn id 0 payload

-- The writes of `encode` before the checksum, on any buffer.
fill : Bytes → Page → Bytes
fill bytes page =
    let bytes = write_at bytes 0 page_magic in
    let bytes = write_u16 bytes 4 page_format_version in
    let bytes = write_u64 bytes 8 page.id in
    let bytes = write_u64 bytes 16 page.lsn in
    let bytes = write_u32 bytes 24 (length page.payload % 2 ^ 32) in
    write_at bytes page_header_size page.payload

module _ (crc : Bytes → ℕ) where
  pub checksum_with_zeroed_field : Bytes → ℕ
  checksum_with_zeroed_field bytes = crc (take 28 bytes ++ zeroes 4 ++ drop 32 bytes)

  -- the last two steps of `encode`
  seal : Bytes → Bytes
  seal bytes = write_u32 bytes 28 (checksum_with_zeroed_field bytes)

  pub encode : Page → Bytes
  encode page = seal (fill (zeroes page_size) page)

  pub decode : Bytes → StorageResult Page
  decode bytes = do
    ensure (length bytes == page_size) (invalid_page_length (length bytes) page_size)
    let id = read_u64 bytes 8
    ensure (bytes_eq (slice 0 4 bytes) page_magic) (corrupt_page id invalid_page_magic)
    ensure (read_u16 bytes 4 == page_format_version) (corrupt_page id unsupported_page_version)
    ensure (read_u32 bytes 28 == checksum_with_zeroed_field bytes)
        (corrupt_page id checksum_mismatch)
    let payload_length = read_u32 bytes 24
    ensure (not (ltb max_page_payload payload_length)) (corrupt_page id payload_exceeds_page)
    ok (record {
      id = id;
      lsn = read_u64 bytes 16;
      payload = slice page_header_size payload_length bytes;
    })
