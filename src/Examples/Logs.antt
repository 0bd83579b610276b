-- ===== src/Examples/Logs.antt =====
-- The write-ahead log on concrete records.
use quantadb.Prelude.{
  ℕ, ◌%◌, ◌^◌, ◌++◌, ◌≡◌, refl, some, none, [], ◌∷◌, arith, true, length, inr, ◌<◌, replicate,
  length-replicate,
}
use quantadb.Prelude.Result.{ok}
use quantadb.Bytes.{Bytes, from_le, zeroes}
use quantadb.Storage.Log.{
  WalRecord, page_image, page_append, batch_commit, header_of, blank_header, scan, stop_marker,
}
use quantadb.Storage.Log.Frame.{IsRecord, image}
use quantadb.Storage.Log.Recovery.{images, scan-images}
use quantadb.Storage.Wal.{
  Segment, Wal, append, append_page_tail, append_record, grow, fill_ahead, place, open_wal,
}
use quantadb.Storage.Wal.Segments.{Logged}
use quantadb.Storage.Wal.Durable.{Durable, append-Durable}
use quantadb.Storage.Wal.Reopen.{open-records, append_page_tail-oversized}

-- a checksum that has 32 bits
abbrev toy_crc : Bytes → ℕ
toy_crc bytes = from_le bytes % 2 ^ 32

toy_crc_u32 : (bytes : Bytes) → toy_crc bytes < 2 ^ 32
toy_crc_u32 bytes = omega arith

abbrev one_page : WalRecord
one_page = record { lsn = 1; kind = page_image 4 (7 ∷ 8 ∷ []) }

abbrev its_commit : WalRecord
its_commit = record { lsn = 2; kind = batch_commit 1 }

one_page-IsRecord : IsRecord one_page
one_page-IsRecord = record {
  positive = omega arith;
  lsn_u64 = omega arith;
  kind = omega arith;
  short = omega arith;
}

its_commit-IsRecord : IsRecord its_commit
its_commit-IsRecord = record {
  positive = omega arith;
  lsn_u64 = omega arith;
  kind = (omega arith, omega arith);
  short = omega arith;
}

-- A log of one batch, with a stop marker and what an older log left behind it.
scan-images_example :
    scan toy_crc (images toy_crc (one_page ∷ its_commit ∷ []) ++ (stop_marker ++ 9 ∷ 9 ∷ []))
    ≡ some (one_page ∷ its_commit ∷ [], length (images toy_crc (one_page ∷ its_commit ∷ [])))
scan-images_example =
    scan-images toy_crc toy_crc_u32 (one_page ∷ its_commit ∷ []) (stop_marker ++ 9 ∷ 9 ∷ [])
      (omega arith, (omega arith, tt)) (one_page-IsRecord, (its_commit-IsRecord, tt))
      (inr (9 ∷ 9 ∷ [], refl))

abbrev empty_segment : Segment
empty_segment = record { file = zeroes 100; end_offset = 0; allocated_offset = 100 }

abbrev empty_log : Wal
empty_log = record {
  first = empty_segment;
  second = empty_segment;
  active = true;
  retired = none;
  records = [];
  next_lsn = 1;
}

empty_segment-Logged : Logged [] empty_segment
empty_segment-Logged = record {
  tail = zeroes 96;
  bytes = refl;
  end = refl;
  allocated = omega arith;
  within = omega arith;
}

empty_log-Durable : Durable toy_crc empty_log [] []
empty_log-Durable = record {
  older = empty_segment-Logged;
  newer = empty_segment-Logged;
  records = refl;
  increasing = tt;
  all = tt;
  below = tt;
  positive = omega arith;
}

abbrev logged_page : Wal
logged_page = (append toy_crc empty_log (page_image 4 (7 ∷ 8 ∷ []))).0

append_page : append toy_crc empty_log (page_image 4 (7 ∷ 8 ∷ [])) ≡ (logged_page, ok 1)
unfolding append append_record grow fill_ahead place header_of blank_header
append_page = refl

append-Durable_example : Durable toy_crc logged_page [] (one_page ∷ [])
append-Durable_example =
    append-Durable toy_crc empty_log [] [] (page_image 4 (7 ∷ 8 ∷ [])) logged_page 1
      empty_log-Durable (omega arith) (omega arith) append_page

logged_page-Durable : Durable toy_crc logged_page [] (one_page ∷ [])
logged_page-Durable =
    append-Durable toy_crc empty_log [] [] (page_image 4 (7 ∷ 8 ∷ [])) logged_page 1
      empty_log-Durable (omega arith) (omega arith) append_page

open-records_example :
    (open_wal toy_crc logged_page.first.file logged_page.second.file).records ≡ logged_page.records
open-records_example =
    open-records toy_crc toy_crc_u32 logged_page [] (one_page ∷ []) logged_page-Durable

-- A payload of 8128 bytes, which a page has room for.
abbrev large_payload : Bytes
large_payload = replicate 8128 5

append_page_tail-oversized_example :
    (append_page_tail toy_crc empty_log 4 0 large_payload
      ≡ append toy_crc empty_log (page_append 4 0 large_payload))
    × (scan toy_crc (
          images toy_crc (one_page ∷ [])
          ++ (image toy_crc (record { lsn = 2; kind = page_append 4 0 large_payload }) ++ []))
        ≡ some (one_page ∷ [], length (images toy_crc (one_page ∷ []))))
append_page_tail-oversized_example =
    append_page_tail-oversized toy_crc toy_crc_u32 empty_log 4 0 2 large_payload [] (one_page ∷ [])
      (omega (arith, length-replicate {A = ℕ} 8128 5))
      (omega (arith, length-replicate {A = ℕ} 8128 5)) (omega arith, tt) (one_page-IsRecord, tt)
