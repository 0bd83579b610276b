-- ===== src/Mvcc/Transaction.antt =====
-- mvcc/src/database.rs: `Transaction`, and `commit` of `Inner` where nothing comes between.
pub mod Own
pub mod Overlay
pub mod Entries
use quantadb.Prelude.{
  ℕ, ◌+◌, Bool, true, false, Option, none, some, List, [], ◌∷◌, ◌++◌, ◌==◌, if◌then◌else◌, ◌&&◌,
  ◌||◌, not, length, ltb, leb, map,
}
use quantadb.Prelude.Result.{Result, ok, err, ensure, ◌>>=◌, ◌>>◌}
use quantadb.Prelude.Ord.{same, nat_ord, bytes_ord}
use quantadb.Prelude.Map.{Map, lookup, insert, remove}
use quantadb.Prelude.Seq.{keep, any, is_some}
use quantadb.Bytes.{Bytes, starts_with}
use quantadb.Storage.Error.{StorageResult}
use quantadb.Storage.Page.{Page}
use quantadb.Index.Error.{IndexResult}
use quantadb.Mvcc.Error.{
  MvccResult, TransactionError, Reason, storage, index, inactive, corrupt_record,
  absent_version_page, non_mvcc_page, no_visible_version,
}
use quantadb.Mvcc.Record.{VersionRecord, decode_page, validate_size}
use quantadb.Mvcc.Prefix.{version_range, prefix_end}
use quantadb.Mvcc.State.{
  State, Version, IndexRoot, IndexGeneration, versions_of, visible_version, generation_at,
}
use quantadb.Mvcc.Commit.{Write, prepare_commit, finish_prepared, end_transaction}
use quantadb.Mvcc.Read.{
  Reader, from_storage, from_index, or_corrupt, newest_record, page_records, is_empty,
  read_index_version, read_entry, read_indexed, root_at, read,
}

pub record Transaction : Type 0 where
  pub id : ℕ
  pub snapshot : ℕ
  pub writes : Map Bytes (Option Bytes)
  pub scanned_prefixes : List Bytes
  pub range_protected : Bool
  pub finished : Bool

module _ (reader : Reader) where
  -- `Transaction::get`
  unfoldable pub get : Transaction → State → Bytes → MvccResult (Option Bytes)
  get tx s key = do
    ensure (not tx.finished) inactive
    elim (lookup tx.writes key) [ some value ↦ ok value | none ↦ read reader s key tx.snapshot ]

-- `Transaction::put`
unfoldable pub put : Transaction → Bytes → Bytes → MvccResult Transaction
put tx key value = do
  ensure (not tx.finished) inactive
  validate_size key (some value)
  ok (record tx { writes = insert tx.writes key (some value) })

-- `Transaction::delete`
unfoldable pub delete : Transaction → Bytes → MvccResult Transaction
delete tx key = do
  ensure (not tx.finished) inactive
  validate_size key none
  ok (record tx { writes = insert tx.writes key none })

unfoldable pub protect_scans : Transaction → Transaction
protect_scans tx = record tx { range_protected = true }

-- The prefixes to protect, with one more: a prefix that another one covers is left out.
unfoldable pub protect_prefix : List Bytes → Bytes → List Bytes
protect_prefix scanned prefix =
    if any (λ existing. starts_with prefix existing) scanned
    then scanned
    else keep (λ existing. not (starts_with existing prefix)) scanned ++ prefix ∷ []

-- The first step of `scan_prefix`.
unfoldable pub note_scan : Transaction → Bytes → Transaction
note_scan tx prefix =
    if tx.range_protected
    then record tx { scanned_prefixes = protect_prefix tx.scanned_prefixes prefix }
    else tx

-- `if let Some(value) = value { results.insert(key, value) }`
abbrev pub put_live : Map Bytes Bytes → Bytes → Option Bytes → Map Bytes Bytes
put_live results key none = results
put_live results key (some value) = insert results key value

-- One round of the loop over the versions: nothing, where no version is visible.
abbrev pub mask_key : Map Bytes (Unit {0}) → Bytes → Option Version → Map Bytes (Unit {0})
mask_key masked key none = masked
mask_key masked key (some version) = insert masked key tt

abbrev pub put_visible : Map Bytes Bytes → Bytes → Option Version → Map Bytes Bytes
put_visible results key none = results
put_visible results key (some version) = put_live results key version.value

-- The loop over the versions: the keys that a visible version masks, and the live values.
unfoldable pub scan_versions :
    ℕ
    → Map Bytes (List Version)
    → Map Bytes (Unit {0})
    → Map Bytes Bytes
    → Map Bytes (Unit {0}) × Map Bytes Bytes
scan_versions snapshot [] masked results = (masked, results)
scan_versions snapshot ((key, versions) ∷ m) masked results =
    let visible = visible_version versions snapshot in
    scan_versions snapshot m (mask_key masked key visible) (put_visible results key visible)

module _ (reader : Reader) where
  -- One round of the loop over the index entries.
  unfoldable pub scan_entry :
      ℕ → Bytes → ℕ → Map Bytes (Unit {0}) → Map Bytes Bytes → MvccResult (Map Bytes Bytes)
  scan_entry snapshot key page_id masked results =
      if is_some (lookup masked key)
      then ok results
      else (read_index_version reader page_id key snapshot >>= λ value.
          ok (put_live results key value))

  unfoldable pub scan_entries :
      ℕ → Map Bytes ℕ → Map Bytes (Unit {0}) → Map Bytes Bytes → MvccResult (Map Bytes Bytes)
  scan_entries snapshot [] masked results = ok results
  scan_entries snapshot ((key, page_id) ∷ entries) masked results =
      scan_entry snapshot key page_id masked results >>= λ found.
      scan_entries snapshot entries masked found

  unfoldable pub scan_index :
      Option IndexRoot
      → Bytes
      → ℕ
      → Map Bytes (Unit {0})
      → Map Bytes Bytes
      → MvccResult (Map Bytes Bytes)
  scan_index none prefix snapshot masked results = ok results
  scan_index (some root) prefix snapshot masked results = do
    entries ← from_index (reader.tree_range root prefix (prefix_end prefix))
    scan_entries snapshot entries masked results

-- One round of the loop over the transaction's own writes.
abbrev pub write_over : Map Bytes Bytes → Bytes → Option Bytes → Map Bytes Bytes
write_over results key none = remove results key
write_over results key (some value) = insert results key value

unfoldable pub scan_writes : Bytes → List Write → Map Bytes Bytes → Map Bytes Bytes
scan_writes prefix [] results = results
scan_writes prefix ((key, value) ∷ writes) results =
    scan_writes prefix writes
      (if starts_with key prefix then write_over results key value else results)

-- What `scan_prefix` returns once the prefix is noted.
module _ (reader : Reader) where
  unfoldable pub scan : Transaction → State → Bytes → MvccResult (Map Bytes Bytes)
  scan tx s prefix = do
    let seen = scan_versions tx.snapshot (version_range s.versions prefix) [] []
    results ←
        scan_index reader (root_at (generation_at s tx.snapshot)) prefix tx.snapshot seen.0 seen.1
    ok (scan_writes prefix tx.writes results)

  -- `Transaction::scan_prefix`: the transaction afterwards, and the outcome.
  unfoldable pub scan_prefix :
      Transaction → State → Bytes → Transaction × MvccResult (Map Bytes Bytes)
  scan_prefix tx s prefix =
      if tx.finished then (tx, err inactive) else (note_scan tx prefix, scan tx s prefix)

abbrev pub index_entry : Bytes → Option Version → Map Bytes ℕ → Map Bytes ℕ
index_entry key none rest = rest
index_entry key (some version) rest = elim version.value [
  | none ↦ rest
  | some _ ↦ (key, version.page_id) ∷ rest
]

-- The entries of the first index: the keys with a live visible version, and the page of each.
unfoldable pub current_index_entries : Map Bytes (List Version) → ℕ → Map Bytes ℕ
current_index_entries [] snapshot = []
current_index_entries ((key, versions) ∷ m) snapshot =
    index_entry key (visible_version versions snapshot) (current_index_entries m snapshot)

-- The end of `commit`: the publication's error, or the result.
abbrev pub finished_commit :
    ℕ → ℕ → State × MvccResult (Unit {0}) → State × MvccResult (Option ℕ × ℕ)
finished_commit timestamp count (s, err e) = (s, err e)
finished_commit timestamp count (s, ok _) = (s, ok (some timestamp, count))

-- `match self.persist_commit(timestamp, &writes)`
abbrev pub persisted :
    State → ℕ → ℕ → List Write → MvccResult (List ℕ) → State × MvccResult (Option ℕ × ℕ)
persisted s id timestamp writes (ok page_ids) =
    finished_commit timestamp (length writes)
      (finish_prepared s id timestamp writes (some page_ids))
persisted s id timestamp writes (err e) = ((finish_prepared s id timestamp writes none).0, err e)

abbrev pub committing :
    (ℕ → List Write → MvccResult (List ℕ))
    → State
    → ℕ
    → List Write
    → MvccResult (ℕ × State)
    → State × MvccResult (Option ℕ × ℕ)
committing persist s id writes (err e) = (s, err e)
committing persist s id writes (ok (timestamp, prepared)) =
    persisted prepared id timestamp writes (persist timestamp writes)

-- `Inner::commit` where no other critical section comes between its two: the outcome has the commit
-- timestamp, if there is one, and the number of writes. `persist` is `persist_commit`.
unfoldable pub commit_writes :
    (ℕ → List Write → MvccResult (List ℕ))
    → State
    → ℕ
    → ℕ
    → List Write
    → List Bytes
    → State × MvccResult (Option ℕ × ℕ)
commit_writes persist s id snapshot [] prefixes = (s, ok (none, 0))
commit_writes persist s id snapshot (write ∷ writes) prefixes =
    committing persist s id (write ∷ writes)
      (prepare_commit s id snapshot (map (λ w. w.0) (write ∷ writes)) prefixes)

-- `Transaction::commit`: the transaction is gone afterwards, whatever the outcome.
unfoldable pub commit :
    (ℕ → List Write → MvccResult (List ℕ)) → Transaction → State → State × MvccResult (Option ℕ × ℕ)
commit persist tx s =
    if tx.finished
    then (s, err inactive)
    else (let (after, outcome) =
          commit_writes persist s tx.id tx.snapshot tx.writes tx.scanned_prefixes in
        (end_transaction after tx.id, outcome))

-- `Transaction::rollback`
unfoldable pub rollback : Transaction → State → State × MvccResult (Unit {0})
rollback tx s = if tx.finished then (s, err inactive) else (end_transaction s tx.id, ok tt)
