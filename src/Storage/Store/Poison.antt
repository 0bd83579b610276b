-- ===== src/Storage/Store/Poison.antt =====
-- storage/src/store.rs: the flag that stops a store after a failure.
use quantadb.Prelude.{
  ℕ, ◌≡◌, refl, true, false, List, [], ◌∷◌, arith, ap, sym, Bool-cases, ◌⊎◌, inl, inr,
}
use quantadb.Prelude.Result.{ok, err, Result-cases, and_then}
use quantadb.Bytes.{Bytes}
use quantadb.Storage.Error.{StorageResult, StorageError, poisoned}
use quantadb.Storage.Store.{DurableStore, PageWrite, PageAppend}
use quantadb.Storage.Store.Batches.{
  reserve_page_ids, write_pages_with, write_pages_inner, append_pages, apply_batch, check_writes,
  poison_on_error, writes_of_batch, appends_of_batch,
}
use quantadb.Storage.Store.Checkpoint.{checkpoint, checkpoint_inner}
use quantadb.Storage.Store.Background.{begin_background_checkpoint}

module _ (crc : Bytes → ℕ) where
  -- Every operation that would log, allocate or checkpoint refuses and changes nothing.
  pub record Stopped (s : DurableStore) : Type 0 where
    pub no_writes : (ws : List PageWrite) → write_pages_with crc s ws ≡ (s, err poisoned)
    pub no_appends :
        (a : PageAppend) (appends : List PageAppend)
        → append_pages crc s (a ∷ appends) ≡ (s, err poisoned)
    pub no_batches :
        (ws : List PageWrite) (appends : List PageAppend)
        → apply_batch crc s ws appends ≡ (s, err poisoned)
    pub no_ids : (count : ℕ) → reserve_page_ids s count ≡ (s, err poisoned)
    pub no_checkpoint : checkpoint crc s ≡ (s, err poisoned)
    pub no_background : begin_background_checkpoint s ≡ (s, err poisoned)

  poisoned-Stopped : (s : DurableStore) → s.poisoned ≡ true → Stopped s
  unfolding write_pages_with append_pages apply_batch reserve_page_ids checkpoint
      begin_background_checkpoint
  poisoned-Stopped s h = record {
    no_writes = λ ws. rw (write_pages_with, h) refl;
    no_appends = λ a appends. rw (append_pages, h) refl;
    no_batches = λ ws appends. rw (apply_batch, h) refl;
    no_ids = λ count. rw (reserve_page_ids, h) refl;
    no_checkpoint = rw (checkpoint, h) refl;
    no_background = rw (begin_background_checkpoint, h) refl;
  }

  poison_on_error-poisoned {ℓ} :
      {A : Type ℓ} (o : DurableStore × StorageResult A) (s : DurableStore) (e : StorageError)
      → poison_on_error o ≡ (s, err e)
      → s.poisoned ≡ true
  poison_on_error-poisoned (s', ok a) s e h = ground (arith, h)
  poison_on_error-poisoned (s', err x) s e h =
      ap (λ (o : DurableStore × StorageResult _). o.0.poisoned) (sym h)

  apply_batch-poisoned :
      (s : DurableStore) (ws : List PageWrite) (appends : List PageAppend) (s' : DurableStore)
      (e : StorageError)
      → apply_batch crc s ws appends ≡ (s', err e)
      → s'.poisoned ≡ true
  unfolding apply_batch
  apply_batch-poisoned s ws appends s' e h = elim (Bool-cases s.poisoned) [
    | inl p ↦ ground (arith, p, h)
    | inr p ↦
        poison_on_error-poisoned {A = List ℕ × List ℕ}
          (and_then (writes_of_batch crc s ws) λ s write_lsns.
            and_then (appends_of_batch crc s appends)
              λ s append_lsns. (s, ok (write_lsns, append_lsns)))
          s' e (ground (arith, p, h))
  ]

  -- A batch that fails stops the store, whether it failed before or after its first record was logged.
  pub apply_batch-Stopped :
      (s : DurableStore) (ws : List PageWrite) (appends : List PageAppend) (s' : DurableStore)
      (e : StorageError)
      → apply_batch crc s ws appends ≡ (s', err e)
      → Stopped s'
  apply_batch-Stopped s ws appends s' e h =
      poisoned-Stopped s' (apply_batch-poisoned s ws appends s' e h)

  write_pages_with-poisoned :
      (s : DurableStore) (ws : List PageWrite) (s' : DurableStore) (e : StorageError)
      → write_pages_with crc s ws ≡ (s', err e)
      → (s' ≡ s) ⊎ (s'.poisoned ≡ true)
  unfolding write_pages_with
  write_pages_with-poisoned s ws s' e h = elim (Bool-cases s.poisoned) [
    | inl p ↦ inl (ground (arith, p, h))
    | inr p ↦ elim (Result-cases (check_writes ws)) [
      | inr (x, q) ↦ inl (ground (arith, p, q, h))
      | inl (x, q) ↦ written ws p q h
    ]
  ]
    where
      written :
          (ws : List PageWrite)
          → s.poisoned ≡ false
          → check_writes ws ≡ ok tt
          → write_pages_with crc s ws ≡ (s', err e)
          → (s' ≡ s) ⊎ (s'.poisoned ≡ true)
      written [] p q h = ground (arith, p, q, h)
      written (w ∷ ws) p q h = inr (
          poison_on_error-poisoned (write_pages_inner crc s (w ∷ ws)) s' e
            (ground (arith, p, q, h)))

  -- A batch of page writes that fails was refused before anything was logged, or stops the store.
  pub write_pages_with-Stopped :
      (s : DurableStore) (ws : List PageWrite) (s' : DurableStore) (e : StorageError)
      → write_pages_with crc s ws ≡ (s', err e)
      → (s' ≡ s) ⊎ Stopped s'
  write_pages_with-Stopped s ws s' e h = elim (write_pages_with-poisoned s ws s' e h) [
    | inl same ↦ inl same
    | inr p ↦ inr (poisoned-Stopped s' p)
  ]

  -- A checkpoint that fails has changed nothing, or stops the store.
  pub checkpoint-Stopped :
      (s s' : DurableStore) (e : StorageError)
      → checkpoint crc s ≡ (s', err e)
      → (s' ≡ s) ⊎ Stopped s'
  unfolding checkpoint
  checkpoint-Stopped s s' e h = elim (Bool-cases s.poisoned) [
    | inl p ↦ inl (ground (arith, p, h))
    | inr p ↦ elim (Bool-cases s.checkpoint_in_flight) [
      | inl q ↦ inl (ground (arith, p, q, h))
      | inr q ↦ inr (
          poisoned-Stopped s'
            (poison_on_error-poisoned (checkpoint_inner crc s) s' e (ground (arith, p, q, h))))
    ]
  ]
