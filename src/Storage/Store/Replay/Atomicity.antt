-- ===== src/Storage/Store/Replay/Atomicity.antt =====
-- storage/src/store.rs: a batch is committed as a whole or not at all, wherever the log ends.
use quantadb.Prelude.{
  ℕ, zero, suc, ◌+◌, ◌-◌, ◌≤◌, ◌<◌, ◌≡◌, refl, false, Option, none, some, List, [], ◌∷◌, ◌++◌, map,
  length, take, drop, take-append_le, take-append_ge, take-nil, take-map, Bool-cases, ltb, arith,
  ap, ◌∙◌, sym, length-append, append_assoc, append-nil, ◌⊎◌, inl, inr,
}
use quantadb.Prelude.Result.{ok}
use quantadb.Prelude.Seq.{rposition}
use quantadb.Bytes.Slices.{drop-length_append}
use quantadb.Storage.Log.{WalKind, WalRecord, page_image, page_append, batch_commit, checkpoint}
use quantadb.Storage.Wal.{is_checkpoint}
use quantadb.Storage.Store.Replay.{
  CommittedWrite, commit_step, commit_from, after_checkpoint, committed_page_images,
}

-- the record that logs a write
abbrev pub kind_of : CommittedWrite → Option ℕ → WalKind
kind_of w none = page_image w.page_id w.payload
kind_of w (some offset) = page_append w.page_id offset w.payload

abbrev pub record_of : CommittedWrite → WalRecord
record_of w = record { lsn = w.lsn; kind = kind_of w w.append_at }

-- A batch in the log, behind what an interrupted batch left.
pub record Batch : Type 0 where
  pub torn : List CommittedWrite
  pub writes : List CommittedWrite
  pub lsn : ℕ

abbrev pub batch_records : Batch → List WalRecord
batch_records b =
    map record_of (b.torn ++ b.writes)
    ++ record { lsn = b.lsn; kind = batch_commit (length b.writes) } ∷ []

abbrev pub log_of : List Batch → List WalRecord
log_of [] = []
log_of (b ∷ bs) = batch_records b ++ log_of bs

abbrev pub writes_of : List Batch → List CommittedWrite
writes_of [] = []
writes_of (b ∷ bs) = b.writes ++ writes_of bs

commit_step-page :
    (pending committed : List CommittedWrite) (w : CommittedWrite)
    → commit_step pending committed (record_of w) ≡ ok (pending ++ w ∷ [], committed)
unfolding commit_step
commit_step-page pending committed w = by_place w.lsn w.page_id w.payload w.append_at
  where
    by_place :
        (lsn page_id : ℕ) (payload : List ℕ) (append_at : Option ℕ)
        → commit_step pending committed (
            record_of
              (record { lsn = lsn; page_id = page_id; payload = payload; append_at = append_at }))
          ≡ ok (
            pending
                ++ record { lsn = lsn; page_id = page_id; payload = payload; append_at = append_at }
                  ∷ [],
            committed,
          )
    by_place lsn page_id payload none = refl
    by_place lsn page_id payload (some offset) = refl

commit_from-pages :
    (pending committed ws : List CommittedWrite) (rs : List WalRecord)
    → commit_from pending committed (map record_of ws ++ rs)
      ≡ commit_from (pending ++ ws) committed rs
unfolding commit_from
commit_from-pages pending committed [] rs =
    ap (λ t. commit_from t committed rs) (sym (append-nil pending))
commit_from-pages pending committed (w ∷ ws) rs = rw (commit_step-page pending committed w) (
    commit_from-pages (pending ++ w ∷ []) committed ws rs
    ∙ ap (λ t. commit_from t committed rs) (append_assoc pending (w ∷ []) ws))

commit_step-batch :
    (torn writes committed : List CommittedWrite) (lsn : ℕ)
    → commit_step
        (torn ++ writes)
        committed
        (record { lsn = lsn; kind = batch_commit (length writes) })
      ≡ ok ([], committed ++ writes)
unfolding commit_step
commit_step-batch torn writes committed lsn =
    let whole = length-append torn writes in
    let enough : ltb (length (torn ++ writes)) (length writes) ≡ false = ground (arith, whole) in
    rw (enough) (
      ap (λ t. ok ([], committed ++ t))
        (ap (λ n. drop n (torn ++ writes)) (omega (arith, whole)) ∙ drop-length_append torn writes))

commit_from-batch :
    (committed : List CommittedWrite) (b : Batch) (rs : List WalRecord)
    → commit_from [] committed (batch_records b ++ rs) ≡ commit_from [] (committed ++ b.writes) rs
unfolding commit_from
commit_from-batch committed b rs =
    ap (commit_from [] committed) (append_assoc (map record_of (b.torn ++ b.writes)) _ rs)
    ∙ commit_from-pages [] committed (b.torn ++ b.writes) _
    ∙ rw (commit_step-batch b.torn b.writes committed b.lsn) refl

-- Every prefix of a log commits the batches that are complete in it.
Complete : List Batch → ℕ → List WalRecord → List CommittedWrite → Type 0
Complete bs n rs committed =
    (k : ℕ) × (length (log_of (take k bs)) ≤ n)
    × ((k ≡ length bs) ⊎ (n < length (log_of (take (suc k) bs))))
    × (commit_from [] committed rs ≡ ok (committed ++ writes_of (take k bs)))

commit_from-inside :
    (committed : List CommittedWrite) (b : Batch) (rs : List WalRecord) (n : ℕ)
    → n < length (batch_records b)
    → commit_from [] committed (take n (batch_records b ++ rs)) ≡ ok committed
unfolding commit_from
commit_from-inside committed b rs n h =
    ap (commit_from [] committed) (
      take-append_le (batch_records b) rs n (omega (arith, h))
      ∙ take-append_le (map record_of (b.torn ++ b.writes)) _ n (omega (arith, h, whole))
      ∙ take-map record_of n (b.torn ++ b.writes)
      ∙ sym (append-nil _))
    ∙ commit_from-pages [] committed (take n (b.torn ++ b.writes)) []
  where
    whole : length (batch_records b) ≡ length (map record_of (b.torn ++ b.writes)) + 1
    whole =
        length-append (map record_of (b.torn ++ b.writes))
          (record { lsn = b.lsn; kind = batch_commit (length b.writes) } ∷ [])

commit_from-prefix :
    (bs : List Batch) (n : ℕ) (committed : List CommittedWrite)
    → Complete bs n (take n (log_of bs)) committed
unfolding Complete commit_from
commit_from-prefix [] n committed = (
  0,
  omega arith,
  inl refl,
  ap (commit_from [] committed) (take-nil n) ∙ ap ok (sym (append-nil committed)),
)
commit_from-prefix (b ∷ bs) n committed = elim (Bool-cases (ltb n (length (batch_records b)))) [
  | inl e ↦ (
    0,
    omega arith,
    inr (ground (arith, e, length-append (batch_records b) [])),
    commit_from-inside committed b (log_of bs) n (ground (arith, e))
        ∙ ap ok (sym (append-nil committed)),
  )
  | inr e ↦
      beyond (ground (arith, e))
        (commit_from-prefix bs (n - length (batch_records b)) (committed ++ b.writes))
]
  where
    beyond :
        length (batch_records b) ≤ n
        → Complete bs
            (n - length (batch_records b))
            (take (n - length (batch_records b)) (log_of bs))
            (committed ++ b.writes)
        → Complete (b ∷ bs) n (take n (log_of (b ∷ bs))) committed
    beyond h (k, within, next, done) = (
      suc k,
      omega (arith, h, within, length-append (batch_records b) (log_of (take k bs))),
      elim next [
        | inl e ↦ inl (ap suc e)
        | inr e ↦
            inr (omega (arith, h, e, length-append (batch_records b) (log_of (take (suc k) bs))))
      ],
      ap (commit_from [] committed) (take-append_ge (batch_records b) (log_of bs) n h)
          ∙ commit_from-batch committed b (take (n - length (batch_records b)) (log_of bs))
          ∙ done
          ∙ ap ok (append_assoc committed b.writes (writes_of (take k bs))),
    )

-- Records without a checkpoint need no cut, and are what is left behind one.
abbrev NoCheckpoint : List WalRecord → Type 0
NoCheckpoint [] = Unit
NoCheckpoint (r ∷ rs) = (is_checkpoint r ≡ false) × NoCheckpoint rs

NoCheckpoint-take : (n : ℕ) (rs : List WalRecord) → NoCheckpoint rs → NoCheckpoint (take n rs)
NoCheckpoint-take zero rs h = tt
NoCheckpoint-take (suc n) [] h = tt
NoCheckpoint-take (suc n) (r ∷ rs) h = (h.0, NoCheckpoint-take n rs h.1)

NoCheckpoint-append :
    (rs qs : List WalRecord) → NoCheckpoint rs → NoCheckpoint qs → NoCheckpoint (rs ++ qs)
NoCheckpoint-append [] qs h k = k
NoCheckpoint-append (r ∷ rs) qs h k = (h.0, NoCheckpoint-append rs qs h.1 k)

map-NoCheckpoint : (ws : List CommittedWrite) → NoCheckpoint (map record_of ws)
map-NoCheckpoint [] = tt
map-NoCheckpoint (w ∷ ws) = (by_place w.append_at, map-NoCheckpoint ws)
  where
    by_place :
        (append_at : Option ℕ)
        → is_checkpoint (record { lsn = w.lsn; kind = kind_of w append_at }) ≡ false
    by_place none = refl
    by_place (some offset) = refl

log_of-NoCheckpoint : (bs : List Batch) → NoCheckpoint (log_of bs)
log_of-NoCheckpoint [] = tt
log_of-NoCheckpoint (b ∷ bs) =
    NoCheckpoint-append (batch_records b) (log_of bs)
      (NoCheckpoint-append (map record_of (b.torn ++ b.writes)) _
        (map-NoCheckpoint (b.torn ++ b.writes)) (refl, tt))
      (log_of-NoCheckpoint bs)

rposition-NoCheckpoint : (rs : List WalRecord) → NoCheckpoint rs → rposition is_checkpoint rs ≡ none
rposition-NoCheckpoint [] h = refl
rposition-NoCheckpoint (r ∷ rs) h = rw (rposition-NoCheckpoint rs h.1, h.0) refl

rposition-boundary :
    (before rs : List WalRecord) (lsn : ℕ)
    → NoCheckpoint rs
    → rposition is_checkpoint (before ++ record { lsn = lsn; kind = checkpoint } ∷ rs)
      ≡ some (length before)
rposition-boundary [] rs lsn h = rw (rposition-NoCheckpoint rs h) refl
rposition-boundary (r ∷ before) rs lsn h = rw (rposition-boundary before rs lsn h) refl

drop-boundary :
    (before : List WalRecord) (r : WalRecord) (rs : List WalRecord)
    → drop (suc (length before)) (before ++ r ∷ rs) ≡ rs
drop-boundary [] r rs = refl
drop-boundary (x ∷ before) r rs = drop-boundary before r rs

after_checkpoint-boundary :
    (before rs : List WalRecord) (lsn : ℕ)
    → NoCheckpoint rs
    → (after_checkpoint rs ≡ rs)
      × (after_checkpoint (before ++ record { lsn = lsn; kind = checkpoint } ∷ rs) ≡ rs)
unfolding after_checkpoint
after_checkpoint-boundary before rs lsn h = (
  rw (after_checkpoint, rposition-NoCheckpoint rs h) refl,
  rw (after_checkpoint, rposition-boundary before rs lsn h) (drop-boundary before _ rs),
)

-- A log that ends anywhere commits the first `k` batches, which are those that are complete in it:
-- their writes and nothing else, in order. The same holds behind a checkpoint, whatever is before it.
pub committed_page_images-prefix :
    (bs : List Batch) (n : ℕ) (before : List WalRecord) (lsn : ℕ)
    → (k : ℕ) × (length (log_of (take k bs)) ≤ n)
      × ((k ≡ length bs) ⊎ (n < length (log_of (take (suc k) bs))))
      × (committed_page_images (take n (log_of bs)) ≡ ok (writes_of (take k bs)))
      × (committed_page_images
            (before ++ record { lsn = lsn; kind = checkpoint } ∷ take n (log_of bs))
          ≡ ok (writes_of (take k bs)))
unfolding committed_page_images Complete
committed_page_images-prefix bs n before lsn =
    let (k, within, next, done) = commit_from-prefix bs n [] in
    let (plain, behind) =
      after_checkpoint-boundary before (take n (log_of bs)) lsn
        (NoCheckpoint-take n (log_of bs) (log_of-NoCheckpoint bs)) in
    (k, within, next, ap (commit_from [] []) plain ∙ done, ap (commit_from [] []) behind ∙ done)
