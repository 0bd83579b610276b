-- ===== src/Storage/Store/Checkpoint/Settled.antt =====
-- storage/src/store.rs: a checkpoint moves every committed page into the data file.
use quantadb.Prelude.{
  ℕ, suc, ◌^◌, ◌<◌, ◌≡◌, refl, true, false, none, some, [], ◌++◌, length, arith, ap, ◌∙◌, sym,
  subst, Option-cases, inl, inr,
}
use quantadb.Prelude.Result.{ok, err, and_then, and_then-ok}
use quantadb.Prelude.Ord.{nat_ord}
use quantadb.Prelude.Map.{Sorted, lookup}
use quantadb.Bytes.{Bytes}
use quantadb.Storage.Error.{StorageResult}
use quantadb.Storage.Page.{Page}
use quantadb.Storage.DataFile.{read}
use quantadb.Storage.Log.{checkpoint}
use quantadb.Storage.Wal.{Wal, append_checkpoint, reset_after_checkpoint}
use quantadb.Storage.Wal.Reset.{
  IsEmpty, SparesBlank, append-SparesBlank, reset_after_checkpoint-IsEmpty,
}
use quantadb.Storage.Store.{DurableStore}
use quantadb.Storage.Store.Batches.{read_page, poison_on_error}
use quantadb.Storage.Store.Checkpoint
use quantadb.Storage.Store.Checkpoint.{
  is_flushed, flush_all, drained, reset_log, forget_flushed, checkpoint_inner,
}
use quantadb.Storage.Store.Checkpoint.Flush.{queued, Consistent}
use quantadb.Storage.Store.Checkpoint.Rounds.{
  Covered, Flushed, queued-append, queued-append_right, queued-drained, retain_unflushed-nil,
  flush_all-Flushed,
}

module _ (crc : Bytes → ℕ) (crc_u32 : (bytes : Bytes) → crc bytes < 2 ^ 32) where
  -- What holds of a store between its operations.
  pub record IsStore (s : DurableStore) : Type 0 where
    pub consistent : Consistent crc s.data_file s.dirty s.flushed
    pub sorted : Sorted s.dirty
    pub covered : Covered s

  -- Every page that the store reads is in the data file.
  InFile : DurableStore → DurableStore → Type 0
  InFile s s' =
      (s'.dirty ≡ [])
      × IsEmpty crc crc_u32 s'.wal
      × ((page_id : ℕ) → read crc s'.data_file page_id ≡ read_page crc s page_id)
      × IsStore s'

  all_flushed :
      (s t : DurableStore)
      → Flushed crc crc_u32 s t
      → t.flush_queue ≡ []
      → t.open_pages ≡ []
      → (page_id : ℕ) (page : Page) → lookup t.dirty page_id ≡ some page
      → is_flushed t.flushed page_id page ≡ true
  unfolding lookup
  all_flushed s t f q o page_id page e = elim (f.covered page_id page e) [
    | inl x ↦ x
    | inr (inl x) ↦ absurd (unqueued (ap (queued page_id) (sym q) ∙ x))
    | inr (inr x) ↦ absurd (unopened (ap (λ m. lookup m page_id) (sym o) ∙ x))
  ]
    where
      unqueued : queued page_id [] ≡ true → ⊥
      unqueued x = ground (arith, x)

      unopened : none ≡ some (tt {0}) → ⊥
      unopened x = ground (arith, x)

  in_data_file :
      (s t : DurableStore)
      → Flushed crc crc_u32 s t
      → ((page_id : ℕ) (page : Page)
          → lookup t.dirty page_id ≡ some page
          → is_flushed t.flushed page_id page ≡ true)
      → (page_id : ℕ) → read crc t.data_file page_id ≡ read_page crc s page_id
  unfolding read_page
  in_data_file s t f all page_id = elim (Option-cases (lookup s.dirty page_id)) [
    | inl e ↦ f.others page_id e ∙ rw (read_page, e) refl
    | inr (page, e) ↦
        let there : lookup t.dirty page_id ≡ some page = ap (λ m. lookup m page_id) f.dirty ∙ e in
        f.consistent.in_file page_id page there (all page_id page there) ∙ rw (read_page, e) refl
  ]

  reset_log-resets :
      (s s' : DurableStore) (lsn : ℕ)
      → SparesBlank crc crc_u32 s.wal
      → reset_log crc s ≡ (s', ok lsn)
      → IsEmpty crc crc_u32 s'.wal × (record s { wal = s'.wal } ≡ s')
  unfolding reset_log append_checkpoint
  reset_log-resets s s' lsn spare h =
      let step = append_checkpoint crc s.wal in
      let next : Wal → ℕ → Wal × StorageResult ℕ = λ w lsn. (reset_after_checkpoint w, ok lsn) in
      let (value, e, f, g) =
        and_then-ok step next (ap (λ (o : DurableStore × StorageResult ℕ). o.1) h) in
      let logged : record s { wal = (and_then step next).0 } ≡ s' =
        ap (λ (o : DurableStore × StorageResult ℕ). o.0) h in
      let same_wal : (and_then step next).0 ≡ s'.wal = ap (λ (t : DurableStore). t.wal) logged in
      (
        subst (IsEmpty crc crc_u32) (sym (ap (λ (o : Wal × StorageResult ℕ). o.0) f) ∙ same_wal) (
            reset_after_checkpoint-IsEmpty crc crc_u32 step.0 (
              append-SparesBlank crc crc_u32 s.wal step.0 checkpoint value spare
                (ap (λ t. (step.0, t)) e))),
        ap (λ w. record s { wal = w }) (sym same_wal) ∙ logged,
      )

  drained-Covered :
      (s : DurableStore)
      → Covered s
      → Covered (record s { flush_queue = s.flush_queue ++ drained s.open_pages; open_pages = [] })
  drained-Covered s c page_id page e = elim (c page_id page e) [
    | inl f ↦ inl f
    | inr (inl f) ↦ inr (inl (queued-append page_id s.flush_queue (drained s.open_pages) f))
    | inr (inr f) ↦ inr (
        inl (
          queued-append_right page_id s.flush_queue (drained s.open_pages)
            (queued-drained page_id s.open_pages f)))
  ]

  -- the last step, behind the flushes of the pages and the reset of the log
  forgotten :
      (s t : DurableStore) (w : Wal) (lsn : ℕ)
      → Sorted s.dirty
      → Flushed crc crc_u32 s t
      → t.flush_queue ≡ []
      → t.open_pages ≡ []
      → IsEmpty crc crc_u32 w
      → InFile s (forget_flushed crc (record t { wal = w }) lsn).0
  unfolding InFile lookup
  forgotten s t w lsn sorted f q o r =
      let all = all_flushed s t f q o in
      let nothing =
        retain_unflushed-nil t.flushed t.dirty (subst Sorted (sym f.dirty) sorted) all in
      (
        nothing,
        r,
        in_data_file s t f all,
        record {
          consistent = record {
            whole = f.consistent.whole;
            pages = λ page_id page e.
                absurd (missing page_id page (ap (λ m. lookup m page_id) (sym nothing) ∙ e));
            in_file = λ page_id page e g.
                absurd (missing page_id page (ap (λ m. lookup m page_id) (sym nothing) ∙ e));
          };
          sorted = subst Sorted (sym nothing) tt;
          covered = λ page_id page e.
              absurd (missing page_id page (ap (λ m. lookup m page_id) (sym nothing) ∙ e));
        },
      )
    where
      missing : (page_id : ℕ) (page : Page) → lookup [] page_id ≡ some page → ⊥
      missing page_id page e = ground (arith, e)

  poison_on_error-ok :
      (o : DurableStore × StorageResult ℕ) (s : DurableStore) (lsn : ℕ)
      → poison_on_error o ≡ (s, ok lsn)
      → o ≡ (s, ok lsn)
  poison_on_error-ok (t, ok a) s lsn h = h
  poison_on_error-ok (t, err e) s lsn h = ground (arith, h)

  checkpoint_inner-InFile :
      (s s' : DurableStore) (lsn : ℕ)
      → s.checkpoint_in_flight ≡ false
      → IsStore s
      → SparesBlank crc crc_u32 s.wal
      → checkpoint_inner crc s ≡ (s', ok lsn)
      → InFile s s'
  unfolding checkpoint_inner InFile read_page
  checkpoint_inner-InFile s s' lsn i v spare h =
      let start : DurableStore = record s {
        flush_queue = s.flush_queue ++ drained s.open_pages;
        open_pages = [];
      } in
      let flush = flush_all crc (suc (length start.flush_queue)) start in
      let (done, e, f, g) =
        and_then-ok flush (λ t done. and_then (reset_log crc t) (forget_flushed crc))
          (ap (λ (o : DurableStore × StorageResult ℕ). o.1) h) in
      let (value, e', f', g') = and_then-ok (reset_log crc flush.0) (forget_flushed crc) g in
      let (flushed, empty, ended) =
        flush_all-Flushed crc crc_u32 (suc (length start.flush_queue)) start flush.0 done i
          v.consistent (drained-Covered s v.covered) (omega arith) (ap (λ t. (flush.0, t)) e) in
      let (no_records, same_store) =
        reset_log-resets flush.0 (reset_log crc flush.0).0 value
          (subst (SparesBlank crc crc_u32) (sym flushed.wal) spare)
          (ap (λ t. ((reset_log crc flush.0).0, t)) e') in
      subst (InFile s) (ap (λ (o : DurableStore × StorageResult ℕ). o.0) (sym f' ∙ sym f ∙ h)) (
        subst (λ t. InFile s (forget_flushed crc t value).0) same_store
          (forgotten start flush.0 (reset_log crc flush.0).0.wal value v.sorted flushed empty
            flushed.open_pages no_records))

  -- On a log whose segments hold nothing where they end at offset 0, a checkpoint that returns has
  -- moved every page into the data file: what the store read before is what the data file alone
  -- gives. The log is empty: both segments end at offset 0, none is retired, and neither the records
  -- in memory nor the files, opened again, hold a record. The store's invariant still holds.
  pub checkpoint-reads :
      (s s' : DurableStore) (lsn : ℕ)
      → IsStore s
      → SparesBlank crc crc_u32 s.wal
      → Checkpoint.checkpoint crc s ≡ (s', ok lsn)
      → (s'.dirty ≡ [])
        × IsEmpty crc crc_u32 s'.wal
        × ((page_id : ℕ) → read crc s'.data_file page_id ≡ read_page crc s page_id)
        × IsStore s'
  unfolding Checkpoint.checkpoint InFile
  checkpoint-reads s s' lsn v spare h =
      checkpoint_inner-InFile s s' lsn (ground (arith, h)) v spare
        (poison_on_error-ok (checkpoint_inner crc s) s' lsn (ground (arith, h)))
