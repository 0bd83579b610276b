-- ===== src/Storage/Error.antt =====
-- storage/src/error.rs. The text of a reason is a constructor of `Reason`.
use quantadb.Prelude.{ℕ}
use quantadb.Prelude.Result.{Result}

pub data Reason : Type 0 where
  invalid_page_magic unsupported_page_version checksum_mismatch payload_exceeds_page : Reason
  log_offset_overflow log_size_overflow rotation_needs_spare no_retired_segment : Reason
  empty_batch_commit batch_count_exceeds_u32 lsn_space_exhausted : Reason
  record_length_overflow record_too_large : Reason
  invalid_wal_magic unsupported_wal_version inconsistent_record_lengths payload_exceeds_maximum :
      Reason
  page_id_mismatch page_offset_overflow unexpected_checkpoint batch_declares_too_many : Reason
  wal_checksum_mismatch lsn_not_increasing malformed_record unknown_record_type : Reason

pub data StorageError : Type 0 where
  io : StorageError
  page_too_large : ℕ → ℕ → StorageError
  invalid_page_length : ℕ → ℕ → StorageError
  corrupt_page : ℕ → Reason → StorageError
  corrupt_data_file : Reason → StorageError
  corrupt_wal : ℕ → Reason → StorageError
  page_not_found : ℕ → StorageError
  buffer_pool_exhausted : ℕ → StorageError
  already_open : StorageError
  configuration : StorageError
  commit_coordinator_stopped : StorageError
  group_commit : StorageError
  poisoned : StorageError

abbrev pub StorageResult {ℓ} : Type ℓ → Type ℓ
StorageResult A = Result StorageError A
