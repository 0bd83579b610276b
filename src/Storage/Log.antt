-- ===== src/Storage/Log.antt =====
-- storage/src/wal.rs: the records of the write-ahead log, their frames, and the scan of a segment.
-- A segment file is its bytes. The CRC of the crate crc32fast is the parameter `crc`.
pub mod Frame
pub mod Recovery
use quantadb.Prelude.{
  ℕ, zero, suc, ◌+◌, ◌^◌, ◌-◌, ◌%◌, Bool, true, false, Option, none, some, List, [], ◌∷◌, ◌++◌,
  ◌==◌, ◌&&◌, ◌||◌, not, if◌then◌else◌, length, take, drop, get_or, ltb, leb,
}
use quantadb.Bytes.{
  Bytes, zeroes, to_le, write_at, write_u16, write_u32, write_u64, slice, read_u16, read_u32,
  read_u64, bytes_eq,
}
use quantadb.Storage.Page.{max_page_payload}

-- b"QNWL"
abbrev pub wal_magic : Bytes
wal_magic = 81 ∷ 78 ∷ 87 ∷ 76 ∷ []

abbrev pub wal_header_size : ℕ
wal_header_size = 40

-- `u64::MAX`
abbrev pub no_page_id : ℕ
no_page_id = 2 ^ 64 - 1

abbrev pub stop_marker : Bytes
stop_marker = zeroes 4

pub data WalKind : Type 0 where
  page_image : ℕ → Bytes → WalKind
  page_append : ℕ → ℕ → Bytes → WalKind
  batch_commit : ℕ → WalKind
  checkpoint : WalKind

pub record WalRecord : Type 0 where
  pub lsn : ℕ
  pub kind : WalKind

-- What a record is framed with: its type, its page and its payload.
abbrev pub type_of : WalKind → ℕ
type_of (page_image page_id payload) = 1
type_of (page_append page_id offset payload) = 4
type_of (batch_commit page_count) = 2
type_of checkpoint = 3

abbrev pub page_of : WalKind → ℕ
page_of (page_image page_id payload) = page_id
page_of (page_append page_id offset payload) = page_id
page_of (batch_commit page_count) = no_page_id
page_of checkpoint = no_page_id

abbrev pub framed : WalKind → Bytes
framed (page_image page_id payload) = payload
framed (page_append page_id offset payload) = to_le 4 offset ++ payload
framed (batch_commit page_count) = to_le 4 page_count
framed checkpoint = []

-- The header with a checksum of zero.
unfoldable pub blank_header : WalRecord → Bytes
blank_header r =
    let header = write_at (zeroes wal_header_size) 0 wal_magic in
    let header = write_u16 header 4 1 in
    let header = write_at header 6 (type_of r.kind ∷ []) in
    let header = write_u32 header 8 (wal_header_size + length (framed r.kind)) in
    let header = write_u32 header 12 (length (framed r.kind) % 2 ^ 32) in
    let header = write_u64 header 16 r.lsn in write_u64 header 24 (page_of r.kind)

-- `read_exact_at` of a header, and then of the payload, within the file's length: the kind that the
-- type, the page and the payload give.
unfoldable pub kind_from : ℕ → ℕ → Bytes → Option WalKind
kind_from type page_id payload =
    if type == 1 && not (page_id == no_page_id)
    then some (page_image page_id payload)
    else if type == 2 && page_id == no_page_id && length payload == 4
    then (if read_u32 payload 0 == 0 then none else some (batch_commit (read_u32 payload 0)))
    else if type == 3 && page_id == no_page_id && length payload == 0
    then some checkpoint
    else if type == 4 && not (page_id == no_page_id) && not (ltb (length payload) 4)
    then some (page_append page_id (read_u32 payload 0) (drop 4 payload))
    else none

abbrev pub with_lsn : ℕ → Option WalKind → Option WalRecord
with_lsn lsn none = none
with_lsn lsn (some kind) = some (record { lsn = lsn; kind = kind })

module _ (crc : Bytes → ℕ) where
  unfoldable pub record_checksum : Bytes → Bytes → ℕ
  record_checksum header payload = crc (take 32 header ++ zeroes 4 ++ drop 36 header ++ payload)

  unfoldable pub header_of : WalRecord → Bytes
  header_of r = write_u32 (blank_header r) 32 (record_checksum (blank_header r) (framed r.kind))

  -- The checks of the scan on the lengths that a header declares, with what the file has left.
  unfoldable pub fits : ℕ → ℕ → ℕ → Bool
  fits record_length payload_length left =
      record_length == wal_header_size + payload_length
      && not (ltb max_page_payload payload_length)
      && not (ltb left record_length)

  -- One round of the scan from a header on: `bytes` is the file from the offset on. `none` ends the
  -- scan.
  unfoldable pub read_record : ℕ → Bytes → Option WalRecord
  read_record previous_lsn bytes =
      let header = take wal_header_size bytes in
      let payload = slice wal_header_size (read_u32 header 12) bytes in
      if ltb (length bytes) wal_header_size
      then none
      else if not (bytes_eq (slice 0 4 header) wal_magic)
      then none
      else if not (read_u16 header 4 == 1)
      then none
      else if not (fits (read_u32 header 8) (read_u32 header 12) (length bytes))
      then none
      else if not (read_u32 header 32 == record_checksum header payload)
      then none
      else if read_u64 header 16 == 0 || leb (read_u64 header 16) previous_lsn
      then none
      else with_lsn (read_u64 header 16)
          (kind_from (get_or header 6 0) (read_u64 header 24) payload)

  -- The loop of `scan_and_repair`: the records, and the offset where the log ends. The outer `none`
  -- means that the fuel ran out.
  unfoldable pub scan_from : ℕ → ℕ → Bytes → ℕ → Option (List WalRecord × ℕ)
  scan_from zero previous_lsn file offset = none
  scan_from (suc fuel) previous_lsn file offset =
      elim (read_record previous_lsn (drop offset file)) [
        | none ↦ some ([], offset)
        | some r ↦
            elim (scan_from fuel r.lsn file (offset + (wal_header_size + length (framed r.kind)))) [
              | none ↦ none
              | some (rs, end) ↦ some (r ∷ rs, end)
            ]
      ]

  -- A record takes its header at least, so the file's length is fuel enough.
  unfoldable pub scan : Bytes → Option (List WalRecord × ℕ)
  scan file = scan_from (suc (length file)) 0 file 0

  -- `scan_and_repair`: the tail behind the log is sealed where a stop marker fits.
  unfoldable pub seal_tail : Bytes → ℕ → Bytes
  seal_tail file offset =
      if ltb (length file) (offset + length stop_marker)
      then file
      else write_at file offset stop_marker
