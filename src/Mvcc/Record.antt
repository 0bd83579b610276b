-- ===== src/Mvcc/Record.antt =====
-- mvcc/src/record.rs: the versioned records that are packed back to back into a page.
pub mod RoundTrip
pub mod Pages
use quantadb.Prelude.{
  ℕ, zero, suc, ◌+◌, ◌*◌, ◌/◌, ◌%◌, ◌^◌, Bool, true, false, Option, none, some, List, [], ◌∷◌,
  length, drop, ltb, ◌==◌, not, ◌-◌, ◌&&◌, ◌||◌, if◌then◌else◌,
}
use quantadb.Prelude.Result.{ok, err, ensure, ◌>>=◌, ◌>>◌}
use quantadb.Bytes.{
  checked_add, Bytes, zeroes, write_at, write_u16, write_u32, write_u64, slice, read_u16, read_u32,
  read_u64, bytes_eq, all_zero,
}
use quantadb.Storage.Page.{max_page_payload}
use quantadb.Mvcc.Error

-- b"QNMV"
abbrev pub magic : Bytes
magic = 81 ∷ 78 ∷ 77 ∷ 86 ∷ []

abbrev pub format_version : ℕ
format_version = 1

abbrev pub header_size : ℕ
header_size = 32

abbrev pub flag_tombstone : ℕ
flag_tombstone = 1

-- `value` is `none` for a deletion.
pub record VersionRecord : Type 0 where
  pub timestamp : ℕ
  pub key : Bytes
  pub value : Option Bytes

abbrev pub value_bytes : Option Bytes → Bytes
value_bytes none = []
value_bytes (some v) = v

abbrev pub tombstone_flags : Option Bytes → ℕ
tombstone_flags none = flag_tombstone
tombstone_flags (some v) = 0

unfoldable pub validate_size : Bytes → Option Bytes → Error.MvccResult (Unit {0})
validate_size key value =
    let too_large =
      λ (actual : ℕ). Error.TransactionError.record_too_large actual max_page_payload in
    elim (checked_add header_size (length key)) [
      | none ↦ err (too_large (2 ^ 64 - 1))
      | some with_key ↦ elim (checked_add with_key (length (value_bytes value))) [
        | none ↦ err (too_large (2 ^ 64 - 1))
        | some actual ↦ ensure (not (ltb max_page_payload actual)) (too_large actual)
      ]
    ]

-- The copies of `encode`, on a buffer. A buffer of zeroes already holds the flags of a live value.
fill : Bytes → VersionRecord → Bytes
fill bytes r =
    let bytes = write_at bytes 0 magic in
    let bytes = write_u16 bytes 4 format_version in
    let bytes : Bytes = elim r.value [ none ↦ write_u16 bytes 6 flag_tombstone | some _ ↦ bytes ] in
    let bytes = write_u64 bytes 8 r.timestamp in
    let bytes = write_u32 bytes 16 (length r.key % 2 ^ 32) in
    let bytes = write_u32 bytes 20 (length (value_bytes r.value) % 2 ^ 32) in
    let bytes = write_at bytes header_size r.key in
    elim r.value [ none ↦ bytes | some v ↦ write_at bytes (header_size + length r.key) v ]

pub encode : VersionRecord → Error.MvccResult Bytes
unfolding validate_size fill
encode r = do
  validate_size r.key r.value
  ok (fill (zeroes (header_size + length r.key + length (value_bytes r.value))) r)

-- `.ok_or_else(|| corrupt(page_id, "record length overflow"))?`
abbrev pub or_overflow : ℕ → Option ℕ → Error.MvccResult ℕ
or_overflow page_id none =
    err (Error.TransactionError.corrupt_record page_id Error.Reason.record_length_overflow)
or_overflow page_id (some n) = ok n

-- The checks of `decode_at` on the fixed fields of the header.
check_header : ℕ → ℕ → ℕ → Bool → ℕ → Error.MvccResult (Unit {0})
check_header page_id version flags reserved timestamp = do
  let corrupt = Error.TransactionError.corrupt_record page_id
  ensure (version == format_version) (corrupt Error.Reason.unsupported_record_version)
  ensure (flags / 2 * 2 == 0) (corrupt Error.Reason.unknown_flags)
  ensure reserved (corrupt Error.Reason.reserved_bytes_not_zero)
  ensure (not (timestamp == 0)) (corrupt Error.Reason.zero_timestamp)

-- The declared length of the record, where it is within what the page has left.
check_length : ℕ → ℕ → ℕ → ℕ → Error.MvccResult ℕ
check_length page_id available key_length value_length = do
  with_key ← or_overflow page_id (checked_add header_size key_length)
  expected ← or_overflow page_id (checked_add with_key value_length)
  ensure (not (ltb available expected))
      (Error.TransactionError.corrupt_record page_id Error.Reason.record_length_mismatch)
  ok expected

-- `decode_at` from the version check on, by the fields that it reads.
checked_record :
    ℕ → Bytes → ℕ → ℕ → Bool → ℕ → ℕ → ℕ → Error.MvccResult (Option (VersionRecord × ℕ))
checked_record page_id bytes version flags reserved timestamp key_length value_length = do
  check_header page_id version flags reserved timestamp
  expected ← check_length page_id (length bytes) key_length value_length
  let tombstone = not (flags % 2 == 0)
  ensure (not (tombstone && not (value_length == 0)))
      (Error.TransactionError.corrupt_record page_id Error.Reason.tombstone_with_value)
  let key = slice header_size key_length bytes
  let value = if tombstone then none else some (slice (header_size + key_length) value_length bytes)
  ok (some (record { timestamp = timestamp; key = key; value = value }, expected))

-- `decode_at` once the page reaches the offset: `bytes` is `page[offset..]`.
pub decode_bytes : ℕ → Bytes → Error.MvccResult (Option (VersionRecord × ℕ))
decode_bytes page_id bytes =
    if ltb (length bytes) 4 || not (bytes_eq (slice 0 4 bytes) magic) then ok none else do
      ensure (not (ltb (length bytes) header_size))
          (Error.TransactionError.corrupt_record page_id Error.Reason.shorter_than_header)
      checked_record page_id bytes (read_u16 bytes 4) (read_u16 bytes 6)
          (all_zero (slice 24 8 bytes)) (read_u64 bytes 8) (read_u32 bytes 16) (read_u32 bytes 20)

pub decode_at : ℕ → Bytes → ℕ → Error.MvccResult (Option (VersionRecord × ℕ))
decode_at page_id page offset =
    if ltb (length page) offset then ok none else decode_bytes page_id (drop offset page)

abbrev pub prepend :
    VersionRecord
    → Option (Error.MvccResult (List VersionRecord))
    → Option (Error.MvccResult (List VersionRecord))
prepend r none = none
prepend r (some (err e)) = some (err e)
prepend r (some (ok rs)) = some (ok (r ∷ rs))

-- The loop of `decode_page` from a cursor. The outer `none` means that the fuel ran out.
decode_from : ℕ → ℕ → Bytes → ℕ → Option (Error.MvccResult (List VersionRecord))
decode_from zero page_id page cursor = none
decode_from (suc fuel) page_id page cursor = elim (decode_at page_id page cursor) [
  | err e ↦ some (err e)
  | ok none ↦ some (ok [])
  | ok (some (found, used)) ↦ prepend found (decode_from fuel page_id page (cursor + used))
]

-- Every record takes its header at least, so the page's length is fuel enough.
pub decode_page : ℕ → Bytes → Option (Error.MvccResult (List VersionRecord))
decode_page page_id page = decode_from (suc (length page)) page_id page 0
