-- ===== src/Storage/Wal.antt =====
-- storage/src/wal.rs: `Segment` and `Wal`, two segments of which one is active. A file is its
-- bytes, and its length is theirs; reads, writes and syncs of files succeed.
pub mod Segments
pub mod Order
pub mod Durable
pub mod Reopen
pub mod Reset
use quantadb.Prelude.{
  ℕ, ◌+◌, ◌*◌, ◌-◌, ◌^◌, Bool, true, false, Option, none, some, List, [], ◌∷◌, ◌++◌, ◌==◌, ◌&&◌,
  ◌||◌, not, if◌then◌else◌, length, drop, ltb, leb, min, max, suc,
}
use quantadb.Prelude.Result.{Result, ok, err}
use quantadb.Prelude.Seq.{keep, last, rposition, is_some}
use quantadb.Bytes.{Bytes, zeroes, write_at, checked_add}
use quantadb.Storage.Error.{
  StorageResult, StorageError, Reason, corrupt_wal, page_too_large, log_offset_overflow,
  log_size_overflow, rotation_needs_spare, no_retired_segment, empty_batch_commit,
  batch_count_exceeds_u32, lsn_space_exhausted, record_too_large,
}
use quantadb.Storage.Page.{max_page_payload}
use quantadb.Storage.Log.{
  WalKind, WalRecord, page_image, page_append, batch_commit, checkpoint, framed, header_of, scan,
  seal_tail, stop_marker, wal_header_size,
}

-- WAL_PREALLOCATE_BYTES
unfoldable pub wal_preallocate_bytes : ℕ
wal_preallocate_bytes = 64 * 2 ^ 20

-- WAL_ZERO_FILL_AHEAD
unfoldable pub wal_zero_fill_ahead : ℕ
wal_zero_fill_ahead = 4 * 2 ^ 20

pub record Segment : Type 0 where
  pub file : Bytes
  pub end_offset : ℕ
  pub allocated_offset : ℕ

-- `set_len`, where it makes a file longer
abbrev pub set_len : Bytes → ℕ → Bytes
set_len file n = file ++ zeroes (n - length file)

-- the file after the growth of `append_record`, where it is needed
unfoldable pub grow : Segment → ℕ → StorageResult Bytes
grow s needed =
    if ltb (length s.file) needed
    then (elim (checked_add needed wal_preallocate_bytes) [
      | none ↦ err (corrupt_wal s.end_offset log_size_overflow)
      | some grown ↦ ok (set_len s.file grown)
    ])
    else ok s.file

-- `zero_fill`
unfoldable pub zero_fill : Bytes → ℕ → ℕ → Bytes
zero_fill file from to = write_at file from (zeroes (to - from))

-- zeroes ahead of the log, in the file and in the offset up to which blocks are allocated
unfoldable pub fill_ahead : Segment → Bytes → ℕ → Segment
fill_ahead s file needed =
    let target = min (needed + wal_zero_fill_ahead) (length file) in
    if ltb s.allocated_offset needed
    then record s { file = zero_fill file s.allocated_offset target; allocated_offset = target }
    else record s { file = file }

-- the three writes of `append_record`
unfoldable pub place : Segment → Bytes → Bytes → Segment
place s header payload =
    let file = write_at s.file s.end_offset header in
    let file = write_at file (s.end_offset + length header) payload in
    record s {
      file = write_at file (s.end_offset + length header + length payload) stop_marker;
      end_offset = s.end_offset + length header + length payload;
    }

abbrev pub place_in : Segment → ℕ → Bytes → Bytes → StorageResult Bytes → StorageResult Segment
place_in s needed header payload (err e) = err e
place_in s needed header payload (ok file) = ok (place (fill_ahead s file needed) header payload)

-- `Segment::append_record`
unfoldable pub append_record : Segment → Bytes → Bytes → StorageResult Segment
append_record s header payload =
    let needed = s.end_offset + (length header + length payload) + length stop_marker in
    elim (checked_add s.end_offset (length header + length payload)) [
      | none ↦ err (corrupt_wal s.end_offset log_offset_overflow)
      | some record_end ↦ place_in s needed header payload (grow s needed)
    ]

-- `seal_and_sync`
unfoldable pub seal : Segment → Segment
seal s = record s { file = write_at s.file 0 stop_marker; end_offset = 0 }

abbrev pub scanned : Option (List WalRecord × ℕ) → List WalRecord × ℕ
scanned none = ([], 0)
scanned (some found) = found

abbrev pub preallocated : Bytes → Bytes
preallocated file =
    if ltb (length file) wal_preallocate_bytes then set_len file wal_preallocate_bytes else file

module _ (crc : Bytes → ℕ) where
  -- `Segment::open`; the scan never runs out of its fuel.
  unfoldable pub open_segment : Bytes → Segment × List WalRecord
  open_segment file =
      let (records, end) = scanned (scan crc file) in
      (
        record {
          file = preallocated (seal_tail crc file end);
          end_offset = end;
          allocated_offset = end;
        },
        records,
      )

-- The segments are `first` and `second`, and `active` tells which of them is (`true`: the second).
pub record Wal : Type 0 where
  pub first : Segment
  pub second : Segment
  pub active : Bool
  pub retired : Option Bool
  pub records : List WalRecord
  pub next_lsn : ℕ

abbrev pub segment : Wal → Bool → Segment
segment w false = w.first
segment w true = w.second

abbrev pub put_segment : Wal → Bool → Segment → Wal
put_segment w false s = record w { first = s }
put_segment w true s = record w { second = s }

abbrev pub first_lsn : List WalRecord → ℕ
first_lsn [] = 0
first_lsn (r ∷ rs) = r.lsn

-- `earlier.last().is_none_or(|last| later[0].lsn > last.lsn)`
abbrev pub seam_is_monotonic : List WalRecord → List WalRecord → Bool
seam_is_monotonic earlier later = elim (last earlier) [
  | none ↦ true
  | some r ↦ ltb r.lsn (first_lsn later)
]

-- The records of both files in their order, the active segment, and a segment to seal as garbage.
unfoldable pub join_records : List WalRecord → List WalRecord → List WalRecord × Bool × Option Bool
join_records records_a [] = (records_a, false, none)
join_records [] (b ∷ records_b) = (b ∷ records_b, true, none)
join_records (a ∷ records_a) (b ∷ records_b) =
    let a_first =
      if seam_is_monotonic (a ∷ records_a) (b ∷ records_b)
      then ((a ∷ records_a) ++ (b ∷ records_b), true, none)
      else (a ∷ records_a, false, some true) in
    let b_first =
      if seam_is_monotonic (b ∷ records_b) (a ∷ records_a)
      then ((b ∷ records_b) ++ (a ∷ records_a), false, none)
      else (b ∷ records_b, true, some false) in
    if ltb a.lsn b.lsn then a_first else b_first

-- `saturating_add(1)` of the last LSN, or 1
abbrev pub lsn_after : List WalRecord → ℕ
lsn_after records = elim (last records) [ none ↦ 1 | some r ↦ min (r.lsn + 1) (2 ^ 64 - 1) ]

abbrev pub seal_garbage : Option Bool → Wal → Wal
seal_garbage none w = w
seal_garbage (some index) w = put_segment w index (seal (segment w index))

module _ (crc : Bytes → ℕ) where
  -- `Wal::open`
  unfoldable pub open_wal : Bytes → Bytes → Wal
  open_wal primary secondary =
      let (first, records_a) = open_segment crc primary in
      let (second, records_b) = open_segment crc secondary in
      let (records, active, garbage) = join_records records_a records_b in
      seal_garbage garbage (record {
        first = first;
        second = second;
        active = active;
        retired = none;
        records = records;
        next_lsn = lsn_after records;
      })

unfoldable pub both_segments_live : Wal → Bool
both_segments_live w = ltb 0 w.first.end_offset && ltb 0 w.second.end_offset

unfoldable pub can_rotate : Wal → Bool
can_rotate w = not (is_some w.retired) && (segment w (not w.active)).end_offset == 0

-- `rotate`: the boundary LSN
unfoldable pub rotate : Wal → StorageResult (Wal × ℕ)
rotate w =
    if can_rotate w
    then ok (record w { retired = some w.active; active = not w.active }, w.next_lsn)
    else err (corrupt_wal 0 rotation_needs_spare)

unfoldable pub finish_recycle : Wal → ℕ → StorageResult Wal
finish_recycle w boundary_lsn = elim w.retired [
  | none ↦ err (corrupt_wal 0 no_retired_segment)
  | some index ↦ ok (record (put_segment w index (record (segment w index) { end_offset = 0 })) {
    retired = none;
    records = keep (λ r. not (ltb r.lsn boundary_lsn)) w.records;
  })
]

-- `seal_and_sync` of a segment that holds records
abbrev pub reset_segment : Segment → Segment
reset_segment s = if ltb 0 s.end_offset then seal s else s

unfoldable pub reset_after_checkpoint : Wal → Wal
reset_after_checkpoint w = record w {
  first = reset_segment w.first;
  second = reset_segment w.second;
  retired = none;
  records = [];
}

abbrev pub is_checkpoint : WalRecord → Bool
is_checkpoint r = elim r.kind [
  | page_image page_id payload ↦ false
  | page_append page_id offset payload ↦ false
  | batch_commit page_count ↦ false
  | checkpoint ↦ true
]

unfoldable pub trim_records_to_last_checkpoint : Wal → Wal
trim_records_to_last_checkpoint w = record w {
  records = elim (rposition is_checkpoint w.records) [
    | none ↦ w.records
    | some i ↦ drop (suc i) w.records
  ];
}

abbrev pub active_end : Wal → ℕ
active_end w = (segment w w.active).end_offset

unfoldable pub ensure_next_lsn_after : Wal → ℕ → StorageResult Wal
ensure_next_lsn_after w durable_lsn = elim (checked_add durable_lsn 1) [
  | none ↦ err (corrupt_wal (active_end w) lsn_space_exhausted)
  | some next ↦ ok (record w { next_lsn = max w.next_lsn next })
]

unfoldable pub size_bytes : Wal → ℕ
size_bytes w = active_end w

module _ (crc : Bytes → ℕ) where
  -- the record in the active segment and in memory
  abbrev pub push_record : Wal → WalRecord → StorageResult Segment → Wal × StorageResult ℕ
  push_record w r (err e) = (w, err e)
  push_record w r (ok s) =
      (record (put_segment w w.active s) { records = w.records ++ r ∷ [] }, ok r.lsn)

  -- `Wal::append`: the LSN is spent whatever follows.
  unfoldable pub append : Wal → WalKind → Wal × StorageResult ℕ
  append w kind =
      let r : WalRecord = record { lsn = w.next_lsn; kind = kind } in
      let spent = record w { next_lsn = w.next_lsn + 1 } in
      elim (checked_add w.next_lsn 1) [
        | none ↦ (w, err (corrupt_wal (active_end w) lsn_space_exhausted))
        | some next ↦
            if ltb (wal_header_size + length (framed kind)) (2 ^ 32)
            then push_record spent r
                (append_record (segment w w.active) (header_of crc r) (framed kind))
            else (spent, err (corrupt_wal (active_end w) record_too_large))
      ]

  unfoldable pub append_page : Wal → ℕ → Bytes → Wal × StorageResult ℕ
  append_page w page_id payload =
      if ltb max_page_payload (length payload)
      then (w, err (page_too_large (length payload) max_page_payload))
      else append w (page_image page_id payload)

  unfoldable pub append_page_tail : Wal → ℕ → ℕ → Bytes → Wal × StorageResult ℕ
  append_page_tail w page_id offset payload =
      if ltb max_page_payload (length payload)
      then (w, err (page_too_large (length payload) max_page_payload))
      else append w (page_append page_id offset payload)

  unfoldable pub append_checkpoint : Wal → Wal × StorageResult ℕ
  append_checkpoint w = append w checkpoint

  unfoldable pub append_batch_commit : Wal → ℕ → Wal × StorageResult ℕ
  append_batch_commit w page_count =
      if page_count == 0
      then (w, err (corrupt_wal (active_end w) empty_batch_commit))
      else if ltb page_count (2 ^ 32)
      then append w (batch_commit page_count)
      else (w, err (corrupt_wal (active_end w) batch_count_exceeds_u32))
