-- ===== src/Mvcc/Error.antt =====
-- mvcc/src/error.rs. The text of a reason is a constructor of `Reason`.
use quantadb.Prelude.{ℕ}
use quantadb.Prelude.Result.{Result}
use quantadb.Bytes.{Bytes}
use quantadb.Storage.Error.{StorageError}
use quantadb.Index.Error.{IndexError}

pub data Reason : Type 0 where
  shorter_than_header unsupported_record_version unknown_flags reserved_bytes_not_zero : Reason
  zero_timestamp record_length_overflow record_length_mismatch tombstone_with_value : Reason
  manifest_length unsupported_manifest_version unknown_manifest_flags : Reason
  reserved_manifest_bytes incomplete_root_metadata root_metadata_in_empty_generation : Reason
  absent_version_page non_mvcc_page no_visible_version : Reason
  duplicate_version_timestamp duplicate_commit_timestamp : Reason

pub data TransactionError : Type 0 where
  storage : StorageError → TransactionError
  index : IndexError → TransactionError
  write_conflict : Bytes → TransactionError
  range_conflict : Bytes → TransactionError
  inactive : TransactionError
  record_too_large : ℕ → ℕ → TransactionError
  corrupt_record : ℕ → Reason → TransactionError
  transaction_id_exhausted : TransactionError
  timestamp_exhausted : TransactionError
  state_poisoned : TransactionError

abbrev pub MvccResult {ℓ} : Type ℓ → Type ℓ
MvccResult A = Result TransactionError A
