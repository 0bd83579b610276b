-- ===== src/Mvcc/Manifest.antt =====
-- mvcc/src/index_manifest.rs: the page that names an index generation.
pub mod RoundTrip
use quantadb.Prelude.{
  ℕ, ◌+◌, ◌*◌, ◌/◌, ◌%◌, ◌^◌, ◌-◌, Bool, true, false, Option, none, some, [], ◌∷◌, length, ltb,
  ◌==◌, not, if◌then◌else◌, ◌&&◌, ◌||◌,
}
use quantadb.Prelude.Result.{ok, err, ensure, ◌>>=◌, ◌>>◌}
use quantadb.Bytes.{
  Bytes, zeroes, write_at, write_u16, write_u64, slice, read_u16, read_u64, bytes_eq, all_zero,
}
use quantadb.Mvcc.Error.{
  MvccResult, TransactionError, Reason, corrupt_record, manifest_length,
  unsupported_manifest_version, unknown_manifest_flags, reserved_manifest_bytes,
  incomplete_root_metadata, root_metadata_in_empty_generation,
}
use quantadb.Mvcc.State.{IndexGeneration, IndexRoot}

-- b"QNIR"
abbrev pub magic : Bytes
magic = 81 ∷ 78 ∷ 73 ∷ 82 ∷ []

abbrev pub encoded_size : ℕ
encoded_size = 48

-- `u64::MAX`
abbrev pub no_page : ℕ
no_page = 2 ^ 64 - 1

-- The fields that `encode` writes for a root, or for none: flags, page, height, entries.
abbrev pub root_fields : Option IndexRoot → ℕ × ℕ × ℕ × ℕ
root_fields none = (0, no_page, 0, 0)
root_fields (some root) = (1, root.page_id, root.height, root.entries)

-- Writing flags of zero over a buffer of zeroes is what leaving them out does.
pub encode : IndexGeneration → Bytes
encode g =
    let (flags, page, height, entries) = root_fields g.root in
    let bytes = write_at (zeroes encoded_size) 0 magic in
    let bytes = write_u16 bytes 4 1 in
    let bytes = write_u16 bytes 6 flags in
    let bytes = write_u64 bytes 8 g.timestamp in
    let bytes = write_u64 bytes 16 page in
    let bytes = write_u16 bytes 24 height in write_u64 bytes 32 entries

pub decode_no_root : ℕ → ℕ → ℕ → ℕ → MvccResult (Option IndexRoot)
decode_no_root page_id page height entries = do
  ensure (page == no_page && height == 0 && entries == 0)
      (corrupt_record page_id root_metadata_in_empty_generation)
  ok none

pub decode_some_root : ℕ → ℕ → ℕ → ℕ → MvccResult (Option IndexRoot)
decode_some_root page_id page height entries = do
  ensure (not (page == no_page || height == 0 || entries == 0))
      (corrupt_record page_id incomplete_root_metadata)
  ok (some (record { page_id = page; height = height; entries = entries }))

-- The root that the fields describe: `flags & FLAG_HAS_ROOT` says whether there is one.
pub decode_root : ℕ → ℕ → ℕ → ℕ → ℕ → MvccResult (Option IndexRoot)
decode_root page_id flags page height entries =
    if flags % 2 == 0
    then decode_no_root page_id page height entries
    else decode_some_root page_id page height entries

pub decode_fields : ℕ → ℕ → ℕ → Bool → ℕ → ℕ → ℕ → ℕ → MvccResult (Option IndexGeneration)
decode_fields page_id version flags reserved timestamp page height entries = do
  ensure (version == 1) (corrupt_record page_id unsupported_manifest_version)
  ensure (flags / 2 * 2 == 0) (corrupt_record page_id unknown_manifest_flags)
  ensure reserved (corrupt_record page_id reserved_manifest_bytes)
  root ← decode_root page_id flags page height entries
  ok (some (record { timestamp = timestamp; root = root; manifest_page_id = page_id }))

pub decode : ℕ → Bytes → MvccResult (Option IndexGeneration)
decode page_id bytes =
    if ltb (length bytes) 4 || not (bytes_eq (slice 0 4 bytes) magic) then ok none else do
      ensure (length bytes == encoded_size) (corrupt_record page_id manifest_length)
      decode_fields page_id (read_u16 bytes 4) (read_u16 bytes 6)
          (all_zero (slice 26 6 bytes) && all_zero (slice 40 8 bytes)) (read_u64 bytes 8)
          (read_u64 bytes 16) (read_u16 bytes 24) (read_u64 bytes 32)
