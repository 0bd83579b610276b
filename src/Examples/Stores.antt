-- ===== src/Examples/Stores.antt =====
-- The page store on concrete pages.
use quantadb.Prelude.{
  ℕ, ◌*◌, ◌%◌, ◌^◌, ◌++◌, ◌≡◌, refl, some, none, List, [], ◌∷◌, arith, true, false, length, take,
  inl, inr, ◌⊎◌, ◌≤◌, ◌<◌, suc, ap, if◌then◌else◌, ◌==◌,
}
use quantadb.Prelude.Result.{ok, err}
use quantadb.Prelude.Seq.{All}
use quantadb.Bytes.{Bytes, from_le, zeroes}
use quantadb.Storage.Log.{
  WalRecord, scan, scan_from, read_record, page_append, checkpoint, header_of, blank_header,
}
use quantadb.Prelude.Ord.{nat_ord}
use quantadb.Prelude.Map.{lookup, insert}
use quantadb.Storage.Error.{StorageResult, page_too_large}
use quantadb.Storage.Page
use quantadb.Storage.Page.{Page, encode}
use quantadb.Storage.Page.RoundTrip.{IsPage}
use quantadb.Storage.DataFile.{read, write, page_offset, write_extending}
use quantadb.Storage.DataFile.Pages.{write-reads}
use quantadb.Storage.Wal.{
  open_segment, Wal, Segment, append_page, append_checkpoint, append_batch_commit, append,
  append_record, grow, fill_ahead, place,
}
use quantadb.Storage.Store.Batches.{
  read_page, write_pages_with, write_pages_inner, check_writes, log_batch, log_writes, store_writes,
  apply_batch,
}
use quantadb.Storage.Store.Batches.Reads.{written, read_page-write_pages_with}
use quantadb.Storage.Store.Checkpoint
use quantadb.Storage.Store.Checkpoint.{
  checkpoint_inner, flush_all, flush_some_dirty, take_pending, write_pending, drained, reset_log,
}
use quantadb.Storage.Wal.Reset.{IsEmpty, SparesBlank}
use quantadb.Storage.Store.Checkpoint.Settled.{IsStore, checkpoint-reads}
use quantadb.Storage.Store.Background.{
  BackgroundCheckpoint, run_chunk, seal_retired, complete_background_checkpoint,
}
use quantadb.Storage.Store.Background.Skipped.{run_chunk-complete_Changed}
use quantadb.Storage.Store.Poison.{Stopped, apply_batch-Stopped}
use quantadb.Storage.Store.{PageAllocator, PageWrite, DurableStore}
use quantadb.Storage.Store.Allocator.{reserve, take_free, numbered}
use quantadb.Storage.Store.Allocator.Pool.{IsAllocator, Ascending, Handed}
use quantadb.Storage.Store.Allocator.Fresh.{reserve-Handed}
use quantadb.Storage.Store.Replay.{CommittedWrite, committed_page_images}
use quantadb.Storage.Store.Replay.Atomicity.{Batch, log_of, writes_of, committed_page_images-prefix}

-- two pages are free, and three are asked for
abbrev some_free : PageAllocator
some_free = record { next_page_id = 9; free_pages = (2, tt) ∷ (5, tt) ∷ [] }

some_free-IsAllocator : IsAllocator some_free
some_free-IsAllocator = (omega arith, (omega arith, omega arith))

abbrev none_free : PageAllocator
none_free = record { next_page_id = 10; free_pages = [] }

abbrev three_ids : List ℕ
three_ids = 2 ∷ 5 ∷ 9 ∷ []

reserve_three : reserve some_free 3 ≡ (none_free, ok three_ids)
unfolding reserve take_free numbered
reserve_three = refl

reserve-Handed_example :
    (length three_ids ≡ 3) × Ascending 0 10 three_ids × All (Handed some_free none_free) three_ids
reserve-Handed_example =
    reserve-Handed some_free none_free 3 three_ids some_free-IsAllocator reserve_three

abbrev first_write : CommittedWrite
first_write = record { lsn = 1; page_id = 4; payload = 7 ∷ []; append_at = none }

abbrev second_write : CommittedWrite
second_write = record { lsn = 4; page_id = 4; payload = 8 ∷ []; append_at = some 1 }

-- the second behind a write that an interrupted batch left
abbrev two_batches : List Batch
two_batches =
    record { torn = []; writes = first_write ∷ []; lsn = 2 }
    ∷ record {
      torn = record { lsn = 3; page_id = 6; payload = []; append_at = none } ∷ [];
      writes = second_write ∷ [];
      lsn = 5;
    }
    ∷ []

-- The log ends in front of the second commit.
committed_page_images-prefix_example :
    (k : ℕ) × (length (log_of (take k two_batches)) ≤ 4)
    × ((k ≡ 2) ⊎ (4 < length (log_of (take (suc k) two_batches))))
    × (committed_page_images (take 4 (log_of two_batches)) ≡ ok (writes_of (take k two_batches)))
    × (committed_page_images (
          (record { lsn = 1; kind = checkpoint } ∷ [])
          ++ record { lsn = 1; kind = checkpoint } ∷ take 4 (log_of two_batches))
        ≡ ok (writes_of (take k two_batches)))
committed_page_images-prefix_example =
    committed_page_images-prefix two_batches 4 (record { lsn = 1; kind = checkpoint } ∷ []) 1

-- A log with room for three records.
abbrev roomy_segment : Segment
roomy_segment = record { file = zeroes 400; end_offset = 0; allocated_offset = 400 }

abbrev roomy_log : Wal
roomy_log = record {
  first = roomy_segment;
  second = roomy_segment;
  active = false;
  retired = none;
  records = [];
  next_lsn = 1;
}

abbrev new_store : DurableStore
new_store = record {
  data_file = [];
  wal = roomy_log;
  dirty = [];
  flushed = [];
  flush_queue = [];
  allocator = record { next_page_id = 0; free_pages = [] };
  open_pages = [];
  checkpoint_in_flight = false;
  poisoned = false;
}

-- a checksum that has 32 bits
abbrev toy_crc : Bytes → ℕ
toy_crc bytes = from_le bytes % 2 ^ 32

toy_crc_u32 : (bytes : Bytes) → toy_crc bytes < 2 ^ 32
toy_crc_u32 bytes = omega arith

abbrev page_four : Page
page_four = record { id = 4; lsn = 9; payload = 7 ∷ 8 ∷ [] }

page_four-IsPage : IsPage page_four
page_four-IsPage = record { id_u64 = omega arith; lsn_u64 = omega arith; fits = omega arith }

abbrev file_with_four : Bytes
file_with_four = write_extending [] (4 * 8192) (encode toy_crc page_four)

write_four : write toy_crc [] page_four ≡ ok file_with_four
unfolding write page_offset
write_four = refl

write-reads_example :
    (read toy_crc file_with_four 4 ≡ (if 4 == 4 then ok (some page_four) else read toy_crc [] 4))
    × (length file_with_four % 8192 ≡ 0)
write-reads_example =
    write-reads toy_crc toy_crc_u32 [] page_four file_with_four 4 page_four-IsPage refl write_four

-- two writes of one page in a batch
abbrev twice : List PageWrite
twice = record { page_id = 4; payload = 7 ∷ [] } ∷ record { page_id = 4; payload = 8 ∷ [] } ∷ []

abbrev written_twice : DurableStore
written_twice = (write_pages_with toy_crc new_store twice).0

abbrev two_lsns : List ℕ
two_lsns = 1 ∷ 2 ∷ []

write_twice : (write_pages_with toy_crc new_store twice).1 ≡ ok two_lsns
unfolding write_pages_with write_pages_inner check_writes Page.new Page.with_lsn log_batch
    log_writes append_page append_batch_commit append append_record grow fill_ahead place
    store_writes header_of blank_header
write_twice = refl

read_page-write_pages_with_example :
    (length two_lsns ≡ length twice)
    × (read_page toy_crc written_twice 4 ≡ written twice two_lsns 4 (read_page toy_crc new_store 4))
read_page-write_pages_with_example =
    read_page-write_pages_with toy_crc new_store twice written_twice two_lsns 4
      (ap (λ t. (written_twice, t)) write_twice)

-- A page that was written and not yet flushed.
abbrev dirty_store : DurableStore
dirty_store = record new_store { dirty = (4, page_four) ∷ []; flush_queue = 4 ∷ [] }

dirty_store-IsStore : IsStore toy_crc toy_crc_u32 dirty_store
unfolding lookup
dirty_store-IsStore = record {
  consistent = record {
    whole = refl;
    pages = λ page_id page e. ground (arith, e, page_four-IsPage);
    in_file = λ page_id page e f. ground (arith, e, f);
  };
  sorted = (tt, tt);
  covered = λ page_id page e. inr (inl (ground (arith, e)));
}

new_log-SparesBlank : SparesBlank toy_crc toy_crc_u32 dirty_store.wal
unfolding open_segment scan scan_from read_record
new_log-SparesBlank false e = refl
new_log-SparesBlank true e = refl

abbrev settled_store : DurableStore
settled_store = (Checkpoint.checkpoint toy_crc dirty_store).0

checkpoint_dirty : (Checkpoint.checkpoint toy_crc dirty_store).1 ≡ ok 1
unfolding Checkpoint.checkpoint checkpoint_inner flush_all flush_some_dirty take_pending
    write_pending write page_offset drained reset_log append_checkpoint append append_record grow
    fill_ahead place lookup insert header_of blank_header
checkpoint_dirty = refl

checkpoint-reads_example :
    (settled_store.dirty ≡ [])
    × IsEmpty toy_crc toy_crc_u32 settled_store.wal
    × ((page_id : ℕ)
        → read toy_crc settled_store.data_file page_id ≡ read_page toy_crc dirty_store page_id)
    × IsStore toy_crc toy_crc_u32 settled_store
checkpoint-reads_example =
    checkpoint-reads toy_crc toy_crc_u32 dirty_store settled_store 1 dirty_store-IsStore
      new_log-SparesBlank (ap (λ t. (settled_store, t)) checkpoint_dirty)

-- a batch whose second write is above the maximum
abbrev oversized : List PageWrite
oversized =
    record { page_id = 4; payload = 7 ∷ [] } ∷ record { page_id = 5; payload = zeroes 8129 } ∷ []

abbrev failed_store : DurableStore
failed_store = (apply_batch toy_crc new_store oversized []).0

apply_oversized : (apply_batch toy_crc new_store oversized []).1 ≡ err (page_too_large 8129 8128)
unfolding apply_batch write_pages_inner log_batch log_writes append_page append append_record grow
    fill_ahead place header_of blank_header
apply_oversized = refl

apply_batch-Stopped_example : Stopped toy_crc failed_store
apply_batch-Stopped_example =
    apply_batch-Stopped toy_crc new_store oversized [] failed_store (page_too_large 8129 8128)
      (ap (λ t. (failed_store, t)) apply_oversized)

-- Page 4 was appended to at LSN 5, the log was rotated, and page 4 was appended to again at LSN 9.
abbrev old_append : WalRecord
old_append = record { lsn = 5; kind = page_append 4 0 (7 ∷ []) }

abbrev new_append : WalRecord
new_append = record { lsn = 9; kind = page_append 4 1 (8 ∷ []) }

abbrev rotated_store : DurableStore
rotated_store = record dirty_store {
  wal = record roomy_log { retired = some true; records = old_append ∷ new_append ∷ [] };
  checkpoint_in_flight = true;
}

abbrev running_job : BackgroundCheckpoint
running_job = record { manifest = (4, 5) ∷ []; retired_file = true; boundary_lsn = 7 }

abbrev completed : DurableStore × StorageResult (Unit {0})
completed = complete_background_checkpoint (seal_retired rotated_store running_job) running_job []

found : lookup rotated_store.dirty 4 ≡ some page_four
unfolding lookup
found = refl

-- The retired segment is recycled, and with it the append at LSN 5, which no file holds then.
loses_append :
    (run_chunk toy_crc rotated_store ((4, 5) ∷ []) ≡ (rotated_store, ok []))
    × (completed.1 ≡ ok tt)
    × (completed.0.data_file ≡ [])
    × (completed.0.wal.records ≡ new_append ∷ [])
loses_append =
    run_chunk-complete_Changed toy_crc rotated_store running_job true refl
      ((page_four, found, refl), tt)

empty_file : read toy_crc [] 4 ≡ ok none
unfolding read page_offset
empty_file = refl
