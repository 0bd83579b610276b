-- ===== src/Storage/Store/Open.antt =====
-- storage/src/store.rs: `DurableStore::open`, from the bytes of its files. The directory and its
-- lock are not modelled.
use quantadb.Prelude.{ℕ, false, [], if◌then◌else◌}
use quantadb.Prelude.Result.{ok, ◌>>=◌}
use quantadb.Bytes.{Bytes}
use quantadb.Storage.Error.{StorageResult}
use quantadb.Storage.DataFile
use quantadb.Storage.DataFile.{open_file, max_lsn}
use quantadb.Storage.Wal.{
  Wal, open_wal, ensure_next_lsn_after, trim_records_to_last_checkpoint, both_segments_live,
}
use quantadb.Storage.Store.{DurableStore}
use quantadb.Storage.Store.Replay.{recover, calculate_next_page_id}
use quantadb.Storage.Store.Checkpoint.{checkpoint}

-- The store around its files, with nothing in memory.
unfoldable pub fresh_store : Bytes → Wal → ℕ → DurableStore
fresh_store file w next_page_id = record {
  data_file = file;
  wal = w;
  dirty = [];
  flushed = [];
  flush_queue = [];
  allocator = record { next_page_id = next_page_id; free_pages = [] };
  open_pages = [];
  checkpoint_in_flight = false;
  poisoned = false;
}

module _ (crc : Bytes → ℕ) where
  -- the checkpoint that makes a spare segment empty again after a crash in a rotation
  unfoldable pub consolidate : DurableStore → StorageResult DurableStore
  consolidate s =
      let (consolidated, done) = checkpoint crc s in
      if both_segments_live s.wal then (done >>= λ lsn. ok consolidated) else ok s

  unfoldable pub open_store : Bytes → Bytes → Bytes → StorageResult DurableStore
  open_store file primary secondary = do
    let w = open_wal crc primary secondary
    file ← recover crc (open_file file) w.records
    highest ← max_lsn crc file (DataFile.page_count file)
    w ← ensure_next_lsn_after w highest
    next_page_id ← calculate_next_page_id file w.records
    consolidate (fresh_store file (trim_records_to_last_checkpoint w) next_page_id)
