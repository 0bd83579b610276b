-- ===== src/Storage/Store/Background.antt =====
-- storage/src/store.rs: the checkpoint in the background. The store goes on between its steps; the
-- job shares the dirty table and the files with the store.
pub mod Skipped
use quantadb.Prelude.{
  ℕ, zero, suc, ◌+◌, ◌-◌, ◌^◌, Bool, true, false, Option, none, some, List, [], ◌∷◌, ◌++◌, ◌==◌,
  ◌&&◌, not, if◌then◌else◌, take, drop, length,
}
use quantadb.Prelude.Result.{Result, ok, err, ◌>>=◌, and_then}
use quantadb.Prelude.Ord.{nat_ord}
use quantadb.Prelude.Map.{Map, lookup, remove}
use quantadb.Prelude.Seq.{is_some_and}
use quantadb.Bytes.{Bytes, write_at}
use quantadb.Storage.Error.{StorageResult, StorageError, configuration, poisoned}
use quantadb.Storage.Page.{Page}
use quantadb.Storage.DataFile.{write}
use quantadb.Storage.Log.{stop_marker}
use quantadb.Storage.Wal.{Wal, segment, put_segment, can_rotate, rotate, finish_recycle}
use quantadb.Storage.Store.{DurableStore}
use quantadb.Storage.Store.Batches.{poison_on_error}
use quantadb.Storage.Store.Checkpoint.{manifest_of}

pub record BackgroundCheckpoint : Type 0 where
  pub manifest : List (ℕ × ℕ)
  pub retired_file : Bool
  pub boundary_lsn : ℕ

unfoldable pub can_begin_background_checkpoint : DurableStore → Bool
can_begin_background_checkpoint s = not s.checkpoint_in_flight && not s.poisoned && can_rotate s.wal

-- The segment that `rotate` retires is the one that was active.
unfoldable pub begin_background_checkpoint :
    DurableStore → DurableStore × StorageResult BackgroundCheckpoint
begin_background_checkpoint s =
    if s.poisoned
    then (s, err poisoned)
    else if s.checkpoint_in_flight
    then (s, err configuration)
    else elim (rotate s.wal) [
      | err e ↦ (s, err e)
      | ok (w, boundary_lsn) ↦ (
        record s { wal = w; checkpoint_in_flight = true },
        ok (record {
          manifest = manifest_of s.dirty;
          retired_file = s.wal.active;
          boundary_lsn = boundary_lsn;
        }),
      )
    ]

-- The pages of a chunk that still carry their LSN.
unfoldable pub unchanged_pages : Map ℕ Page → List (ℕ × ℕ) → List Page
unchanged_pages dirty [] = []
unchanged_pages dirty ((page_id, lsn) ∷ chunk) =
    let rest = unchanged_pages dirty chunk in
    elim (lookup dirty page_id) [
      | none ↦ rest
      | some page ↦ if page.lsn == lsn then page ∷ rest else rest
    ]

module _ (crc : Bytes → ℕ) where
  unfoldable pub write_shared : Bytes → List Page → StorageResult (Bytes × List (ℕ × ℕ))
  write_shared file [] = ok (file, [])
  write_shared file (page ∷ pages) = write crc file page >>= λ file.
      write_shared file pages >>= λ (rest : Bytes × List (ℕ × ℕ)).
      ok (rest.0, (page.id, page.lsn) ∷ rest.1)

  -- One chunk of `run`: the store may do anything between two chunks.
  unfoldable pub run_chunk :
      DurableStore → List (ℕ × ℕ) → DurableStore × StorageResult (List (ℕ × ℕ))
  run_chunk s chunk = elim (write_shared s.data_file (unchanged_pages s.dirty chunk)) [
    | err e ↦ (s, err e)
    | ok (file, written) ↦ (record s { data_file = file }, ok written)
  ]

-- `seal_file`, the last step of `run`: the file, and not the segment's offsets
unfoldable pub seal_retired : DurableStore → BackgroundCheckpoint → DurableStore
seal_retired s job =
    let retired = segment s.wal job.retired_file in
    record s {
      wal =
          put_segment s.wal job.retired_file
            (record retired { file = write_at retired.file 0 stop_marker });
    }

-- A page leaves the tables if it still carries the LSN that was written.
unfoldable pub settle : DurableStore → ℕ × ℕ → DurableStore
settle s (page_id, lsn) =
    let dirty =
      if is_some_and (lookup s.dirty page_id) (λ page. page.lsn == lsn)
      then remove s.dirty page_id
      else s.dirty in
    let flushed =
      if is_some_and (lookup s.flushed page_id) (λ written. written == lsn)
      then remove s.flushed page_id
      else s.flushed in
    record s { dirty = dirty; flushed = flushed }

unfoldable pub settle_all : DurableStore → List (ℕ × ℕ) → DurableStore
settle_all s [] = s
settle_all s (page ∷ written) = settle_all (settle s page) written

unfoldable pub complete_background_checkpoint :
    DurableStore → BackgroundCheckpoint → List (ℕ × ℕ) → DurableStore × StorageResult (Unit {0})
complete_background_checkpoint s job written = elim (finish_recycle s.wal job.boundary_lsn) [
  | err e ↦ (record s { checkpoint_in_flight = false; poisoned = true }, err e)
  | ok w ↦ (settle_all (record s { wal = w; checkpoint_in_flight = false }) written, ok tt)
]

unfoldable pub abort_background_checkpoint : DurableStore → DurableStore
abort_background_checkpoint s = record s { checkpoint_in_flight = false }
