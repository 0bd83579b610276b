-- ===== src/Storage/Store/Checkpoint.antt =====
-- storage/src/store.rs: checkpoints, whole and in the background.
pub mod Flush
pub mod Rounds
pub mod Settled
use quantadb.Prelude.{
  ℕ, zero, suc, ◌+◌, ◌-◌, ◌^◌, Bool, true, false, Option, none, some, List, [], ◌∷◌, ◌++◌, map,
  ◌==◌, ◌&&◌, not, if◌then◌else◌, length, ltb,
}
use quantadb.Prelude.Result.{Result, ok, err, ◌>>=◌, and_then}
use quantadb.Prelude.Ord.{nat_ord}
use quantadb.Prelude.Map.{Map, lookup, insert, remove}
use quantadb.Prelude.Seq.{is_some_and}
use quantadb.Bytes.{Bytes, write_at}
use quantadb.Storage.Error.{StorageResult, StorageError, configuration, poisoned}
use quantadb.Storage.Page.{Page}
use quantadb.Storage.DataFile.{write}
use quantadb.Storage.Log.{stop_marker}
use quantadb.Storage.Wal
use quantadb.Storage.Wal.{
  Wal, Segment, segment, put_segment, append_checkpoint, reset_after_checkpoint, can_rotate, rotate,
  finish_recycle,
}
use quantadb.Storage.Store.{DurableStore}
use quantadb.Storage.Store.Batches.{poison_on_error}

-- A page is in the data file as the LSN that was written says.
abbrev pub is_flushed : Map ℕ ℕ → ℕ → Page → Bool
is_flushed flushed page_id page =
    is_some_and (lookup flushed page_id) (λ written. written == page.lsn)

-- What a queued page adds to the pages to write.
abbrev pub due : Map ℕ Page → Map ℕ ℕ → ℕ → Option Page
due dirty flushed page_id = elim (lookup dirty page_id) [
  | none ↦ none
  | some page ↦ if is_flushed flushed page_id page then none else some page
]

abbrev pub next_budget : ℕ → Option Page → ℕ
next_budget budget none = budget
next_budget budget (some page) = budget - 1

abbrev pub with_due : Option Page → List Page × List ℕ → List Page × List ℕ
with_due none (pages, queue) = (pages, queue)
with_due (some page) (pages, queue) = (page ∷ pages, queue)

-- The loop over the flush queue: the pages to write, and the queue that is left.
unfoldable pub take_pending : Map ℕ Page → Map ℕ ℕ → ℕ → List ℕ → List Page × List ℕ
take_pending dirty flushed budget [] = ([], [])
take_pending dirty flushed budget (page_id ∷ queue) =
    let rest =
      with_due (due dirty flushed page_id)
        (take_pending dirty flushed (next_budget budget (due dirty flushed page_id)) queue) in
    if budget == 0 then ([], page_id ∷ queue) else rest

-- the `(page, lsn)` pairs of the dirty table
unfoldable pub manifest_of : Map ℕ Page → List (ℕ × ℕ)
manifest_of [] = []
manifest_of ((page_id, page) ∷ dirty) = (page_id, page.lsn) ∷ manifest_of dirty

-- `HashSet::drain`
unfoldable pub drained : Map ℕ (Unit {0}) → List ℕ
drained [] = []
drained ((page_id, mark) ∷ pages) = page_id ∷ drained pages

-- `retain`: what is in the data file leaves the table.
unfoldable pub retain_unflushed : Map ℕ ℕ → Map ℕ Page → Map ℕ Page
retain_unflushed flushed [] = []
retain_unflushed flushed ((page_id, page) ∷ dirty) =
    let rest = retain_unflushed flushed dirty in
    if is_flushed flushed page_id page then rest else (page_id, page) ∷ rest

module _ (crc : Bytes → ℕ) where
  -- The writes of the pages, each noted as flushed.
  unfoldable pub write_pending : DurableStore → List Page → DurableStore × StorageResult (Unit {0})
  write_pending s [] = (s, ok tt)
  write_pending s (page ∷ pages) = elim (write crc s.data_file page) [
    | err e ↦ (s, err e)
    | ok file ↦
        write_pending (record s { data_file = file; flushed = insert s.flushed page.id page.lsn })
          pages
  ]

  unfoldable pub flush_some_dirty : DurableStore → ℕ → DurableStore × StorageResult ℕ
  flush_some_dirty s budget =
      let (pending, queue) = take_pending s.dirty s.flushed budget s.flush_queue in
      if s.checkpoint_in_flight
      then (s, ok 0)
      else and_then (write_pending (record s { flush_queue = queue }) pending)
          λ s done. (s, ok (length pending))

  -- The loop of `checkpoint_inner`. The inner `none` means that the fuel ran out.
  unfoldable pub flush_all : ℕ → DurableStore → DurableStore × StorageResult (Option (Unit {0}))
  flush_all zero s = (s, ok none)
  flush_all (suc fuel) s =
      and_then (flush_some_dirty s (2 ^ 64 - 1)) λ s written.
        (let rest = flush_all fuel s in if written == 0 then (s, ok (some tt)) else rest)

  -- behind the loop: the checkpoint in the log, and the log's reset
  unfoldable pub reset_log : DurableStore → DurableStore × StorageResult ℕ
  reset_log s =
      let (w, done) =
        and_then (append_checkpoint crc s.wal) λ w lsn. (reset_after_checkpoint w, ok lsn) in
      (record s { wal = w }, done)

  abbrev pub forget_flushed : DurableStore → ℕ → DurableStore × StorageResult ℕ
  forget_flushed s lsn =
      (record s { dirty = retain_unflushed s.flushed s.dirty; flushed = [] }, ok lsn)

  -- Each round of the loop but the last takes a page from the queue, whose length is fuel enough.
  unfoldable pub checkpoint_inner : DurableStore → DurableStore × StorageResult ℕ
  checkpoint_inner s =
      let queue = s.flush_queue ++ drained s.open_pages in
      let s = record s { flush_queue = queue; open_pages = [] } in
      and_then (flush_all (suc (length queue)) s) λ s done. and_then (reset_log s) forget_flushed

  unfoldable pub checkpoint : DurableStore → DurableStore × StorageResult ℕ
  checkpoint s =
      if s.poisoned
      then (s, err poisoned)
      else if s.checkpoint_in_flight
      then (s, err configuration)
      else poison_on_error (checkpoint_inner s)
