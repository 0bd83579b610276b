-- ===== src/Storage/DataFile.antt =====
-- storage/src/data_file.rs: the file of pages, as its bytes. Reads and writes of the file succeed.
pub mod Slices
pub mod Pages
use quantadb.Prelude.{
  ℕ, zero, suc, ◌+◌, ◌*◌, ◌-◌, ◌/◌, ◌%◌, ◌^◌, Bool, true, false, Option, none, some, ◌++◌, ◌==◌,
  if◌then◌else◌, length, take, ltb, max,
}
use quantadb.Prelude.Result.{Result, ok, err, ensure, ◌>>=◌, ◌>>◌}
use quantadb.Bytes.{Bytes, zeroes, write_at, slice, all_zero}
use quantadb.Storage.Error.{
  StorageResult, StorageError, Reason, corrupt_page, corrupt_data_file, page_id_mismatch,
  page_offset_overflow,
}
use quantadb.Storage.Page.{Page, page_size, encode, decode}

-- `DataFile::open`: a partial final page is cut off.
unfoldable pub open_file : Bytes → Bytes
open_file file = take (length file - length file % page_size) file

-- `page_id.checked_mul(PAGE_SIZE)`
unfoldable pub page_offset : ℕ → StorageResult ℕ
page_offset page_id =
    if ltb (page_id * page_size) (2 ^ 64)
    then ok (page_id * page_size)
    else err (corrupt_data_file page_offset_overflow)

unfoldable pub page_count : Bytes → ℕ
page_count file = length file / page_size

-- A positional write makes the file longer where it has to.
unfoldable pub write_extending : Bytes → ℕ → Bytes → Bytes
write_extending file offset bytes =
    write_at (file ++ zeroes (offset + length bytes - length file)) offset bytes

module _ (crc : Bytes → ℕ) where
  unfoldable pub check_id : ℕ → Page → StorageResult (Option Page)
  check_id page_id page =
      if page.id == page_id then ok (some page) else err (corrupt_page page_id page_id_mismatch)

  -- the page in the bytes at its offset
  unfoldable pub read_bytes : ℕ → Bytes → StorageResult (Option Page)
  read_bytes page_id bytes =
      if all_zero bytes then ok none else (decode crc bytes >>= λ page. check_id page_id page)

  -- `read_shared`
  unfoldable pub read : Bytes → ℕ → StorageResult (Option Page)
  read file page_id = page_offset page_id >>= λ offset.
      (if ltb (length file) (offset + page_size)
        then ok none
        else read_bytes page_id (slice offset page_size file))

  unfoldable pub write : Bytes → Page → StorageResult Bytes
  write file page =
      page_offset page.id >>= λ offset. ok (write_extending file offset (encode crc page))

  -- `max_lsn`, over the first pages
  unfoldable pub max_lsn : Bytes → ℕ → StorageResult ℕ
  max_lsn file zero = ok 0
  max_lsn file (suc page_id) = do
    highest ← max_lsn file page_id
    page ← read file page_id
    ok (elim page [ none ↦ highest | some p ↦ max highest p.lsn ])
