-- ===== src/Storage/Store/Checkpoint/Rounds.antt =====
-- storage/src/store.rs: the rounds of flushes of a checkpoint.
use quantadb.Prelude.{
  ℕ, zero, suc, ◌+◌, ◌-◌, ◌^◌, ◌≤◌, ◌<◌, ◌≡◌, refl, true, false, Option, none, some, List, [], ◌∷◌,
  ◌++◌, ◌==◌, if◌then◌else◌, length, arith, ap, ◌∙◌, sym, subst, Option-cases, Bool-cases, ◌⊎◌, inl,
  inr,
}
use quantadb.Prelude.Result.{ok, and_then, and_then-ok}
use quantadb.Prelude.Ord.{nat_ord}
use quantadb.Prelude.Map.{Map, Sorted, lookup, lookup-KeysAbove}
use quantadb.Bytes.{Bytes}
use quantadb.Storage.Error.{StorageResult}
use quantadb.Storage.Page.{Page}
use quantadb.Storage.DataFile.{read}
use quantadb.Storage.Store.{DurableStore}
use quantadb.Storage.Store.Checkpoint.{
  is_flushed, due, next_budget, take_pending, write_pending, flush_some_dirty, flush_all, drained,
  retain_unflushed,
}
use quantadb.Storage.Store.Checkpoint.Flush.{
  queued, Consistent, Written, write_pending-Written, take_pending-Pending, take_pending-Covers,
  Covers,
}

-- A committed page is in the data file, or a flush will come to it.
abbrev pub Covered : DurableStore → Type 0
Covered s =
    (page_id : ℕ) (page : Page)
    → lookup s.dirty page_id ≡ some page
    → (is_flushed s.flushed page_id page ≡ true)
      ⊎ (queued page_id s.flush_queue ≡ true)
      ⊎ (lookup s.open_pages page_id ≡ some tt)

-- The loop over the queue ends with it, or has found pages.
take_pending-short :
    (dirty : Map ℕ Page) (flushed : Map ℕ ℕ) (budget : ℕ) (queue : List ℕ)
    → length (take_pending dirty flushed budget queue).0
        + length (take_pending dirty flushed budget queue).1
      ≤ length queue
unfolding take_pending
take_pending-short dirty flushed budget [] = omega arith
take_pending-short dirty flushed budget (q ∷ queue) =
    ground
      (arith, take_pending-short dirty flushed (next_budget budget (due dirty flushed q)) queue)

take_pending-nothing :
    (dirty : Map ℕ Page) (flushed : Map ℕ ℕ) (budget : ℕ) (queue : List ℕ)
    → 0 < budget
    → length (take_pending dirty flushed budget queue).0 ≡ 0
    → (take_pending dirty flushed budget queue).1 ≡ []
unfolding take_pending
take_pending-nothing dirty flushed budget [] h e = refl
take_pending-nothing dirty flushed budget (q ∷ queue) h e =
    elim (Option-cases (due dirty flushed q)) [
      | inl d ↦ ground (arith, d, h, e, take_pending-nothing dirty flushed budget queue)
      | inr (page, d) ↦ ground (arith, d, h, e)
    ]

pub queued-append :
    (page_id : ℕ) (xs ys : List ℕ) → queued page_id xs ≡ true → queued page_id (xs ++ ys) ≡ true
queued-append page_id [] ys h = ground (arith, h)
queued-append page_id (x ∷ xs) ys h = ground (arith, h, queued-append page_id xs ys)

pub queued-append_right :
    (page_id : ℕ) (xs ys : List ℕ) → queued page_id ys ≡ true → queued page_id (xs ++ ys) ≡ true
queued-append_right page_id [] ys h = h
queued-append_right page_id (x ∷ xs) ys h = ground (arith, queued-append_right page_id xs ys h)

pub queued-drained :
    (page_id : ℕ) (pages : Map ℕ (Unit {0}))
    → lookup pages page_id ≡ some tt
    → queued page_id (drained pages) ≡ true
unfolding lookup drained
queued-drained page_id [] h = ground (arith, h)
queued-drained page_id ((q, mark) ∷ pages) h = ground (arith, h, queued-drained page_id pages)

-- A table whose pages are all flushed becomes empty.
pub retain_unflushed-nil :
    (flushed : Map ℕ ℕ) (dirty : Map ℕ Page)
    → Sorted dirty
    → ((page_id : ℕ) (page : Page)
        → lookup dirty page_id ≡ some page
        → is_flushed flushed page_id page ≡ true)
    → retain_unflushed flushed dirty ≡ []
unfolding retain_unflushed lookup
retain_unflushed-nil flushed [] o h = refl
retain_unflushed-nil flushed ((q, p) ∷ dirty) o h = rw (h q p (ground arith)) (
    retain_unflushed-nil flushed dirty o.1
      λ page_id page e. h page_id page (ground (arith, e, lookup-KeysAbove q dirty o.0)))

module _ (crc : Bytes → ℕ) (crc_u32 : (bytes : Bytes) → crc bytes < 2 ^ 32) where
  -- What flushes leave of the tables, and of the data file.
  pub record Flushed (s s' : DurableStore) : Type 0 where
    pub dirty : s'.dirty ≡ s.dirty
    pub wal : s'.wal ≡ s.wal
    pub open_pages : s'.open_pages ≡ s.open_pages
    pub in_flight : s'.checkpoint_in_flight ≡ s.checkpoint_in_flight
    pub consistent : Consistent crc s'.data_file s'.dirty s'.flushed
    pub covered : Covered s'
    pub others :
        (page_id : ℕ)
        → lookup s.dirty page_id ≡ none
        → read crc s'.data_file page_id ≡ read crc s.data_file page_id

  Flushed-trans : (s t u : DurableStore) → Flushed s t → Flushed t u → Flushed s u
  Flushed-trans s t u f g = record {
    dirty = g.dirty ∙ f.dirty;
    wal = g.wal ∙ f.wal;
    open_pages = g.open_pages ∙ f.open_pages;
    in_flight = g.in_flight ∙ f.in_flight;
    consistent = g.consistent;
    covered = g.covered;
    others =
        λ page_id e. g.others page_id (ap (λ m. lookup m page_id) f.dirty ∙ e) ∙ f.others page_id e;
  }

  Written-Flushed :
      (s : DurableStore) (budget : ℕ) (s' : DurableStore)
      → Consistent crc s.data_file s.dirty s.flushed
      → Covered s
      → Written crc crc_u32
          (record s { flush_queue = (take_pending s.dirty s.flushed budget s.flush_queue).1 })
          s'
          (take_pending s.dirty s.flushed budget s.flush_queue).0
      → Flushed s s'
  Written-Flushed s budget s' c v w = record {
    dirty = same_dirty;
    wal = sym (ap (λ (t : DurableStore). t.wal) w.rest);
    open_pages = sym (ap (λ (t : DurableStore). t.open_pages) w.rest);
    in_flight = sym (ap (λ (t : DurableStore). t.checkpoint_in_flight) w.rest);
    consistent =
        subst (λ d. Consistent crc s'.data_file d s'.flushed) (sym same_dirty) w.consistent;
    covered = λ page_id page e. kept page_id page (ap (λ m. lookup m page_id) (sym same_dirty) ∙ e);
    others = w.others;
  }
    where
      same_dirty : s'.dirty ≡ s.dirty
      same_dirty = sym (ap (λ (t : DurableStore). t.dirty) w.rest)

      out : List Page × List ℕ
      out = take_pending s.dirty s.flushed budget s.flush_queue

      same_queue : (take_pending s.dirty s.flushed budget s.flush_queue).1 ≡ s'.flush_queue
      same_queue = ap (λ (t : DurableStore). t.flush_queue) w.rest

      settled :
          (page_id : ℕ) (page : Page)
          → lookup s.dirty page_id ≡ some page
          → Covers s.dirty s.flushed page_id page
              (take_pending s.dirty s.flushed budget s.flush_queue)
          → (is_flushed s'.flushed page_id page ≡ true) ⊎ (queued page_id s'.flush_queue ≡ true)
      settled page_id page e (inl f) = inl (w.kept page_id page e f)
      settled page_id page e (inr (inl f)) = inr (ap (queued page_id) (sym same_queue) ∙ f)
      settled page_id page e (inr (inr f)) = inl (w.noted page_id page e f)

      kept :
          (page_id : ℕ) (page : Page)
          → lookup s.dirty page_id ≡ some page
          → (is_flushed s'.flushed page_id page ≡ true)
            ⊎ (queued page_id s'.flush_queue ≡ true)
            ⊎ (lookup s'.open_pages page_id ≡ some tt)
      kept page_id page e = elim (v page_id page e) [
        | inl f ↦ inl (w.kept page_id page e f)
        | inr (inl f) ↦
            elim (settled page_id page e (
              take_pending-Covers s.dirty s.flushed budget s.flush_queue page_id page
                (c.pages page_id page e).0 e f)) [ inl x ↦ inl x | inr x ↦ inr (inl x) ]
        | inr (inr f) ↦
            inr (inr (ap (λ (t : DurableStore). lookup t.open_pages page_id) (sym w.rest) ∙ f))
      ]

  flush_some_dirty-Flushed :
      (s : DurableStore) (budget : ℕ) (s' : DurableStore) (written : ℕ)
      → s.checkpoint_in_flight ≡ false
      → Consistent crc s.data_file s.dirty s.flushed
      → Covered s
      → flush_some_dirty crc s budget ≡ (s', ok written)
      → Flushed s s'
        × (written + length s'.flush_queue ≤ length s.flush_queue)
        × (0 < budget → written ≡ 0 → s'.flush_queue ≡ [])
  unfolding flush_some_dirty
  flush_some_dirty-Flushed s budget s' written i c v h =
      let queue = (take_pending s.dirty s.flushed budget s.flush_queue).1 in
      let pending = (take_pending s.dirty s.flushed budget s.flush_queue).0 in
      let step = write_pending crc (record s { flush_queue = queue }) pending in
      let chained : and_then step (λ t done. (t, ok (length pending))) ≡ (s', ok written) =
        ground (arith, i, h) in
      let (done, e, f, g) =
        and_then-ok step (λ t done. (t, ok (length pending)))
          (ap (λ (o : DurableStore × StorageResult ℕ). o.1) chained) in
      let same_state : step.0 ≡ s' =
        ap (λ (o : DurableStore × StorageResult ℕ). o.0) (sym f ∙ chained) in
      let count : length pending ≡ written = ok_eq g in
      let w =
        write_pending-Written crc crc_u32 (record s { flush_queue = queue }) pending s' c
          (take_pending-Pending s.dirty s.flushed budget s.flush_queue
            λ page_id page e. (c.pages page_id page e).0)
          (ap (λ t. (step.0, t)) e ∙ ap (λ t. (t, ok tt)) same_state) in
      let same_queue : queue ≡ s'.flush_queue = ap (λ (t : DurableStore). t.flush_queue) w.rest in
      (
        Written-Flushed s budget s' c v w,
        omega (
          arith,
          ap length same_queue,
          count,
          take_pending-short s.dirty s.flushed budget s.flush_queue,
        ),
        λ enough nothing.
            sym same_queue
            ∙ take_pending-nothing s.dirty s.flushed budget s.flush_queue enough (count ∙ nothing),
      )
    where
      ok_eq : {m n : ℕ} → ◌≡◌ {A = StorageResult ℕ} (ok m) (ok n) → m ≡ n
      ok_eq e = ground (arith, e)

  pub flush_all-Flushed :
      (fuel : ℕ) (s s' : DurableStore) (end : Option (Unit {0}))
      → s.checkpoint_in_flight ≡ false
      → Consistent crc s.data_file s.dirty s.flushed
      → Covered s
      → length s.flush_queue < fuel
      → flush_all crc fuel s ≡ (s', ok end)
      → Flushed s s' × (s'.flush_queue ≡ []) × (end ≡ some tt)
  unfolding flush_all
  flush_all-Flushed zero s s' end i c v l h = absurd (omega arith)
  flush_all-Flushed (suc fuel) s s' end i c v l h =
      let step = flush_some_dirty crc s (2 ^ 64 - 1) in
      let next : DurableStore → ℕ → DurableStore × StorageResult (Option (Unit {0})) =
        λ t written. (if written == 0 then (t, ok (some tt)) else flush_all crc fuel t) in
      let (written, e, f, g) =
        and_then-ok step next
          (ap (λ (o : DurableStore × StorageResult (Option (Unit {0}))). o.1) h) in
      let (flushed, shorter, emptied) =
        flush_some_dirty-Flushed s (2 ^ 64 - 1) step.0 written i c v (ap (λ t. (step.0, t)) e) in
      let last : next step.0 written ≡ (s', ok end) = sym f ∙ h in
      elim (Bool-cases (written == 0)) [
        | inl z ↦
            ended step.0 written flushed (emptied (omega arith) (ground (arith, z)))
              (ground (arith, z, last))
        | inr z ↦
            let (more, empty, done) =
              flush_all-Flushed fuel step.0 s' end (flushed.in_flight ∙ i) flushed.consistent
                flushed.covered (ground (arith, z, shorter, l)) (ground (arith, z, last)) in
            (Flushed-trans s step.0 s' flushed more, empty, done)
      ]
    where
      ended :
          (t : DurableStore) (written : ℕ)
          → Flushed s t
          → t.flush_queue ≡ []
          → ◌≡◌ {A = DurableStore × StorageResult (Option (Unit {0}))}
              (t, ok (some tt))
              (s', ok end)
          → Flushed s s' × (s'.flush_queue ≡ []) × (end ≡ some tt)
      ended t written f e h =
          let same_state : t ≡ s' =
            ap (λ (o : DurableStore × StorageResult (Option (Unit {0}))). o.0) h in
          (
            subst (λ u. Flushed s u) same_state f,
            ap (λ (u : DurableStore). u.flush_queue) (sym same_state) ∙ e,
            ground (arith, h),
          )
