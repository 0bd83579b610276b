-- ===== src/Storage/Store/Batches/Reads.antt =====
-- storage/src/store.rs: the pages that are read after a batch.
use quantadb.Prelude.{
  ℕ, suc, ◌≡◌, Option, some, List, [], ◌∷◌, ◌==◌, if◌then◌else◌, length, arith, ap, ◌∙◌, sym,
}
use quantadb.Prelude.Result.{ok, err, and_then, and_then-ok}
use quantadb.Prelude.Ord.{nat_ord}
use quantadb.Prelude.Map.{lookup-insert}
use quantadb.Bytes.{Bytes}
use quantadb.Storage.Error.{StorageResult}
use quantadb.Storage.Page
use quantadb.Storage.Page.{Page}
use quantadb.Storage.Wal.{Wal, append_page, append_batch_commit}
use quantadb.Storage.Store.{DurableStore, PageWrite}
use quantadb.Storage.Store.Batches.{
  read_page, store_page, store_writes, check_writes, log_batch, log_writes, write_pages_inner,
  write_pages_with, poison_on_error,
}

-- What the batch leaves of a page: the last of its writes, or what was there.
abbrev pub written :
    List PageWrite → List ℕ → ℕ → StorageResult (Option Page) → StorageResult (Option Page)
written [] lsns page_id before = before
written (w ∷ ws) [] page_id before = before
written (w ∷ ws) (lsn ∷ lsns) page_id before = written ws lsns page_id (
    if w.page_id == page_id
    then ok (some (record { id = w.page_id; lsn = lsn; payload = w.payload }))
    else before)

module _ (crc : Bytes → ℕ) where
  read_page-store_page :
      (s : DurableStore) (page : Page) (page_id : ℕ)
      → read_page crc (store_page s page) page_id
        ≡ (if page.id == page_id then ok (some page) else read_page crc s page_id)
  unfolding read_page store_page
  read_page-store_page s page page_id = ground (arith, lookup-insert s.dirty page.id page_id page)

  with_lsn-ok :
      (id lsn : ℕ) (payload : Bytes) (page : Page)
      → Page.with_lsn id lsn payload ≡ ok page
      → record { id = id; lsn = lsn; payload = payload } ≡ page
  unfolding Page.with_lsn
  with_lsn-ok id lsn payload page h = ground (arith, h)

  store_writes-cons :
      (s : DurableStore) (w : PageWrite) (ws : List PageWrite) (lsn : ℕ) (lsns : List ℕ)
      (s' : DurableStore)
      → store_writes s (w ∷ ws) (lsn ∷ lsns) ≡ (s', ok tt)
      → store_writes
          (store_page s (record { id = w.page_id; lsn = lsn; payload = w.payload }))
          ws
          lsns
        ≡ (s', ok tt)
  unfolding store_writes Page.with_lsn
  store_writes-cons s w ws lsn lsns s' h = ground (arith, h)

  read_page-store_writes :
      (s : DurableStore) (ws : List PageWrite) (lsns : List ℕ) (s' : DurableStore) (page_id : ℕ)
      → store_writes s ws lsns ≡ (s', ok tt)
      → read_page crc s' page_id ≡ written ws lsns page_id (read_page crc s page_id)
  unfolding store_writes
  read_page-store_writes s [] lsns s' page_id h = ground (arith, h)
  read_page-store_writes s (w ∷ ws) [] s' page_id h = ground (arith, h)
  read_page-store_writes s (w ∷ ws) (lsn ∷ lsns) s' page_id h =
      let page : Page = record { id = w.page_id; lsn = lsn; payload = w.payload } in
      read_page-store_writes (store_page s page) ws lsns s' page_id
        (store_writes-cons s w ws lsn lsns s' h)
      ∙ ap (written ws lsns page_id) (read_page-store_page s page page_id)

  ok-eq : {xs ys : List ℕ} → ◌≡◌ {A = StorageResult (List ℕ)} (ok xs) (ok ys) → xs ≡ ys
  ok-eq e = ground (arith, e)

  -- The log does not enter a read.
  log_batch-keeps :
      (s : DurableStore) (count : ℕ) (logged : Wal × StorageResult (List ℕ)) (s' : DurableStore)
      (lsns : List ℕ) (page_id : ℕ)
      → log_batch crc s count logged ≡ (s', ok lsns)
      → (read_page crc s' page_id ≡ read_page crc s page_id) × (logged.1 ≡ ok lsns)
  unfolding log_batch read_page
  log_batch-keeps s count logged s' lsns page_id h =
      let (ls, e, f, g) =
        and_then-ok logged (λ w ls. and_then (append_batch_commit crc w count) λ w lsn. (w, ok ls))
          (ap (λ (o : DurableStore × StorageResult (List ℕ)). o.1) h) in
      let (lsn, e', f', g') =
        and_then-ok (append_batch_commit crc logged.0 count) (λ w lsn. (w, ok ls)) g in
      (
        ap (λ (o : DurableStore × StorageResult (List ℕ)). read_page crc o.0 page_id) (sym h),
        e ∙ g',
      )

  log_writes-length :
      (w : Wal) (ws : List PageWrite) (lsns : List ℕ)
      → (log_writes crc w ws).1 ≡ ok lsns
      → length lsns ≡ length ws
  unfolding log_writes
  log_writes-length w [] lsns h = ap length (sym (ok-eq h))
  log_writes-length w (write ∷ ws) lsns h =
      let first = append_page crc w write.page_id write.payload in
      let (lsn, e, f, g) =
        and_then-ok first (λ w lsn. and_then (log_writes crc w ws) λ w lsns. (w, ok (lsn ∷ lsns)))
          h in
      let (ls, e', f', g') =
        and_then-ok (log_writes crc first.0 ws) (λ w lsns. (w, ok (lsn ∷ lsns))) g in
      ap length (sym (ok-eq g')) ∙ ap suc (log_writes-length first.0 ws ls e')

  read_page-write_pages_inner :
      (s : DurableStore) (ws : List PageWrite) (s' : DurableStore) (lsns : List ℕ) (page_id : ℕ)
      → write_pages_inner crc s ws ≡ (s', ok lsns)
      → (length lsns ≡ length ws)
        × (read_page crc s' page_id ≡ written ws lsns page_id (read_page crc s page_id))
  unfolding write_pages_inner
  read_page-write_pages_inner s ws s' lsns page_id h =
      let logged = log_batch crc s (length ws) (log_writes crc s.wal ws) in
      let (ls, e, f, g) =
        and_then-ok logged (λ s lsns. and_then (store_writes s ws lsns) λ s done. (s, ok lsns))
          (ap (λ (o : DurableStore × StorageResult (List ℕ)). o.1) h) in
      let (done, e', f', g') = and_then-ok (store_writes logged.0 ws ls) (λ s done. (s, ok ls)) g in
      let (unread, logs) =
        log_batch-keeps s (length ws) (log_writes crc s.wal ws) logged.0 ls page_id
          (ap (λ t. (logged.0, t)) e) in
      let same = ok-eq g' in
      let stored =
        read_page-store_writes logged.0 ws ls (store_writes logged.0 ws ls).0 page_id
          (ap (λ t. ((store_writes logged.0 ws ls).0, t)) e') in
      (
        ap length (sym same) ∙ log_writes-length s.wal ws ls logs,
        ap (λ (o : DurableStore × StorageResult (List ℕ)). read_page crc o.0 page_id)
              (sym h ∙ f ∙ f')
            ∙ stored
            ∙ ap (λ t. written ws t page_id (read_page crc logged.0 page_id)) same
            ∙ ap (written ws lsns page_id) unread,
      )

  poison_on_error-ok :
      (o : DurableStore × StorageResult (List ℕ)) (s' : DurableStore) (lsns : List ℕ)
      → poison_on_error o ≡ (s', ok lsns)
      → o ≡ (s', ok lsns)
  poison_on_error-ok (s, ok a) s' lsns h = h
  poison_on_error-ok (s, err e) s' lsns h = ground (arith, h)

  write_pages_with-ok :
      (s : DurableStore) (w : PageWrite) (ws : List PageWrite) (s' : DurableStore) (lsns : List ℕ)
      → write_pages_with crc s (w ∷ ws) ≡ (s', ok lsns)
      → poison_on_error (write_pages_inner crc s (w ∷ ws)) ≡ (s', ok lsns)
  unfolding write_pages_with
  write_pages_with-ok s w ws s' lsns h = ground (arith, h)

  write_pages_with-nil :
      (s s' : DurableStore) (lsns : List ℕ)
      → write_pages_with crc s [] ≡ (s', ok lsns)
      → (lsns ≡ []) × (s' ≡ s)
  unfolding write_pages_with check_writes
  write_pages_with-nil s s' lsns h = ground (arith, h)

  -- A batch that returns has given one LSN to each write, and each page then reads as the last of
  -- its writes in the batch, or as before where the batch has none.
  pub read_page-write_pages_with :
      (s : DurableStore) (ws : List PageWrite) (s' : DurableStore) (lsns : List ℕ) (page_id : ℕ)
      → write_pages_with crc s ws ≡ (s', ok lsns)
      → (length lsns ≡ length ws)
        × (read_page crc s' page_id ≡ written ws lsns page_id (read_page crc s page_id))
  read_page-write_pages_with s [] s' lsns page_id h =
      let (e, g) = write_pages_with-nil s s' lsns h in
      (ap length e, ap (λ t. read_page crc t page_id) g)
  read_page-write_pages_with s (w ∷ ws) s' lsns page_id h =
      read_page-write_pages_inner s (w ∷ ws) s' lsns page_id (
        poison_on_error-ok (write_pages_inner crc s (w ∷ ws)) s' lsns
          (write_pages_with-ok s w ws s' lsns h))
