-- ===== src/Storage/Store/Background/Skipped.antt =====
-- storage/src/store.rs: what a checkpoint in the background does to pages that change while it runs.
use quantadb.Prelude.{
  ℕ, zero, suc, ◌+◌, ◌≡◌, refl, Bool, true, false, none, some, List, [], ◌∷◌, ◌++◌, ◌==◌, not,
  length, ltb, arith, ap, ◌∙◌,
}
use quantadb.Prelude.Result.{ok, ◌>>=◌}
use quantadb.Prelude.Ord.{nat_ord}
use quantadb.Prelude.Map.{Map, lookup}
use quantadb.Prelude.Seq.{All, keep}
use quantadb.Bytes.{Bytes, zeroes, write_at, overlay}
use quantadb.Bytes.Slices.{overlay-zeroes_all}
use quantadb.Storage.Page.{Page}
use quantadb.Storage.Log.{WalRecord, stop_marker}
use quantadb.Storage.Page
use quantadb.Storage.DataFile.{read, write}
use quantadb.Storage.Wal.{Wal, Segment, finish_recycle, put_segment, segment}
use quantadb.Storage.Store.{DurableStore}
use quantadb.Storage.Store.Replay.{current_page, replay_one, splice}
use quantadb.Storage.Store.Background.{
  BackgroundCheckpoint, unchanged_pages, write_shared, run_chunk, seal_retired, settle_all,
  complete_background_checkpoint,
}

-- A page of the manifest that a commit has changed since.
abbrev pub Changed : Map ℕ Page → ℕ × ℕ → Type 0
Changed dirty (page_id, lsn) =
    (page : Page) × (lookup dirty page_id ≡ some page) × ((page.lsn == lsn) ≡ false)

unchanged_pages-Changed :
    (dirty : Map ℕ Page) (chunk : List (ℕ × ℕ))
    → All (Changed dirty) chunk
    → unchanged_pages dirty chunk ≡ []
unfolding unchanged_pages
unchanged_pages-Changed dirty [] c = refl
unchanged_pages-Changed dirty ((page_id, lsn) ∷ chunk) c =
    let (page, e, f) = c.0 in ground (arith, e, f, unchanged_pages-Changed dirty chunk c.1)

write_at-zeroes :
    (offset : ℕ) (xs : Bytes)
    → write_at (zeroes (offset + length xs)) offset xs ≡ zeroes offset ++ xs
write_at-zeroes zero xs = ap (λ n. overlay xs (zeroes n)) (omega arith) ∙ overlay-zeroes_all xs
write_at-zeroes (suc offset) xs =
    ap (λ n. write_at (zeroes n) (suc offset) xs) shifted
    ∙ ap (λ t. 0 ∷ t) (write_at-zeroes offset xs)
  where
    shifted : suc offset + length xs ≡ suc (offset + length xs)
    shifted = omega arith

module _ (crc : Bytes → ℕ) where
  run_chunk-Changed :
      (s : DurableStore) (chunk : List (ℕ × ℕ))
      → All (Changed s.dirty) chunk
      → run_chunk crc s chunk ≡ (s, ok [])
  unfolding run_chunk write_shared
  run_chunk-Changed s chunk c = rw (run_chunk, unchanged_pages-Changed s.dirty chunk c) refl

  put_segment-keeps :
      (w : Wal) (index : Bool) (x : Segment)
      → ((put_segment w index x).retired ≡ w.retired)
        × ((put_segment w index x).records ≡ w.records)
  put_segment-keeps w false x = (refl, refl)
  put_segment-keeps w true x = (refl, refl)

  recycled :
      (s : DurableStore) (job : BackgroundCheckpoint) (index : Bool)
      → s.wal.retired ≡ some index
      → ((complete_background_checkpoint (seal_retired s job) job []).1 ≡ ok tt)
        × ((complete_background_checkpoint (seal_retired s job) job []).0.data_file ≡ s.data_file)
        × ((complete_background_checkpoint (seal_retired s job) job []).0.wal.records
            ≡ keep (λ r. not (ltb r.lsn job.boundary_lsn)) s.wal.records)
  unfolding complete_background_checkpoint seal_retired settle_all finish_recycle
  recycled s job index h =
      let (retired, records) =
        put_segment-keeps s.wal job.retired_file (record (segment s.wal job.retired_file) {
          file = write_at (segment s.wal job.retired_file).file 0 stop_marker;
        }) in
      let e = retired ∙ h in
      let kept = ap (keep (λ (r : WalRecord). not (ltb r.lsn job.boundary_lsn))) records in
      (
        ground (arith, e),
        ground (arith, e),
        rw (complete_background_checkpoint, finish_recycle, e) kept,
      )

  -- Where every page of the manifest was changed by commits since the rotation, the run writes
  -- nothing to the data file, and its completion succeeds all the same and drops the records below
  -- the boundary from the log.
  pub run_chunk-complete_Changed :
      (s : DurableStore) (job : BackgroundCheckpoint) (index : Bool)
      → s.wal.retired ≡ some index
      → All (Changed s.dirty) job.manifest
      → (run_chunk crc s job.manifest ≡ (s, ok []))
        × ((complete_background_checkpoint (seal_retired s job) job []).1 ≡ ok tt)
        × ((complete_background_checkpoint (seal_retired s job) job []).0.data_file ≡ s.data_file)
        × ((complete_background_checkpoint (seal_retired s job) job []).0.wal.records
            ≡ keep (λ r. not (ltb r.lsn job.boundary_lsn)) s.wal.records)
  run_chunk-complete_Changed s job index h c =
      let (done, file, records) = recycled s job index h in
      (run_chunk-Changed s job.manifest c, done, file, records)

  -- A page append whose page the data file does not have is replayed onto zeroes: whatever earlier
  -- appends put in front of it is not there.
  pub replay_one-gap :
      (file : Bytes) (lsn page_id offset : ℕ) (payload : Bytes)
      → read crc file page_id ≡ ok none
      → replay_one crc file
          (record { lsn = lsn; page_id = page_id; payload = payload; append_at = some offset })
        ≡ (Page.with_lsn page_id lsn (zeroes offset ++ payload) >>= λ page. write crc file page)
  unfolding replay_one current_page splice
  replay_one-gap file lsn page_id offset payload h =
      rw (replay_one, current_page, h)
        (ap (λ t. Page.with_lsn page_id lsn t >>= λ page. write crc file page) gap)
    where
      gap : splice [] offset payload ≡ zeroes offset ++ payload
      gap =
          ap (λ n. write_at (zeroes n) offset payload) (omega arith)
          ∙ write_at-zeroes offset payload
