-- ===== src/Index/Error.antt =====
-- index/src/error.rs. The text of a reason is a constructor of `Reason`.
use quantadb.Prelude.{ℕ}
use quantadb.Prelude.Result.{Result}
use quantadb.Storage.Error.{StorageError}

pub data Reason : Type 0 where
  shorter_than_header invalid_node_magic unsupported_node_version reserved_bytes_not_zero : Reason
  leaf_level_not_zero internal_level_zero no_first_child separator_without_child : Reason
  unknown_node_kind key_length_overflow key_past_boundary field_offset_overflow : Reason
  ends_inside_u32 ends_inside_u64 trailing_bytes keys_not_increasing : Reason
  root_height_zero internal_below_leaf level_not_height missing_page page_cycle : Reason
  cursor_at_internal leaf_chain_unordered leaf_empty entry_count_underflow : Reason
  height_underflow plan_cycle : Reason
  level_mismatch : ℕ → ℕ → Reason

pub data IndexError : Type 0 where
  storage : StorageError → IndexError
  key_too_large : ℕ → ℕ → IndexError
  corrupt_node : ℕ → Reason → IndexError
  entry_count_overflow : IndexError
  keys_not_strictly_increasing : IndexError

abbrev pub IndexResult {ℓ} : Type ℓ → Type ℓ
IndexResult A = Result IndexError A
