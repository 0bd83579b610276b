-- ===== src/Storage/Store.antt =====
-- storage/src/store.rs: the state of `DurableStore`. A `HashMap` is kept in key order; its iteration
-- order only orders pages. Reads, writes and syncs of files succeed.
pub mod Allocator
pub mod Replay
pub mod Batches
pub mod Checkpoint
pub mod Background
pub mod Open
pub mod Poison
use quantadb.Prelude.{ℕ, Bool, Option, List}
use quantadb.Prelude.Map.{Map}
use quantadb.Bytes.{Bytes}
use quantadb.Storage.Page.{Page}
use quantadb.Storage.Wal.{Wal}

pub record PageWrite : Type 0 where
  pub page_id : ℕ
  pub payload : Bytes

pub record PageAppend : Type 0 where
  pub page_id : ℕ
  pub offset : ℕ
  pub payload : Bytes
  pub sealed : Bool

-- `AllocatorState`
pub record PageAllocator : Type 0 where
  pub next_page_id : ℕ
  pub free_pages : Map ℕ (Unit {0})

pub record DurableStore : Type 0 where
  pub data_file : Bytes
  pub wal : Wal
  pub dirty : Map ℕ Page
  pub flushed : Map ℕ ℕ
  pub flush_queue : List ℕ
  pub allocator : PageAllocator
  pub open_pages : Map ℕ (Unit {0})
  pub checkpoint_in_flight : Bool
  pub poisoned : Bool
