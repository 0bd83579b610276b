-- ===== src/Mvcc/Commit.antt =====
-- mvcc/src/database.rs: the commit path of `Inner`, on the locked state. A write is a key with the
-- value to store, or with `none` to delete.
pub mod Accepting
pub mod Finish
pub mod Growth
pub mod Prepare
pub mod Publish
use quantadb.Prelude.{
  ℕ, zero, suc, ◌+◌, ◌^◌, Bool, true, false, Option, none, some, List, [], ◌∷◌, ◌==◌, if◌then◌else◌,
  ◌&&◌, ◌||◌, not, length, ltb, get_elem?, map,
}
use quantadb.Prelude.Result.{Result, ok, err, ensure, ◌>>=◌, ◌>>◌}
use quantadb.Prelude.Ord.{nat_ord, bytes_ord}
use quantadb.Prelude.Map.{Map, lookup, insert, remove}
use quantadb.Prelude.Seq.{partition_point, insert_at, last, any, is_some_and, or_default}
use quantadb.Bytes.{Bytes, starts_with}
use quantadb.Mvcc.Error.{
  MvccResult, TransactionError, write_conflict, range_conflict, timestamp_exhausted,
  transaction_id_exhausted, corrupt_record, duplicate_commit_timestamp,
}
use quantadb.Mvcc.Prefix.{version_range}
use quantadb.Mvcc.State.{State, Version, checked_suc, versions_of, complete}

abbrev pub Write : Type 0
Write = Bytes × Option Bytes

-- `versions.last().is_some_and(|version| version.timestamp > snapshot)`
unfoldable pub newer_than : ℕ → List Version → Bool
newer_than snapshot versions = is_some_and (last versions) (λ v. ltb snapshot v.timestamp)

-- The two tests of `prepare_commit` on one key.
unfoldable pub key_conflicts : State → ℕ → ℕ → Bytes → Bool
key_conflicts s transaction_id snapshot key =
    is_some_and (lookup s.intents key) (λ owner. not (owner == transaction_id))
    || newer_than snapshot (versions_of s key)

unfoldable pub check_keys : State → ℕ → ℕ → List Bytes → MvccResult (Unit {0})
check_keys s transaction_id snapshot [] = ok tt
check_keys s transaction_id snapshot (key ∷ keys) = do
  ensure (not (key_conflicts s transaction_id snapshot key)) (write_conflict key)
  check_keys s transaction_id snapshot keys

unfoldable pub prefix_conflicts : State → ℕ → ℕ → Bytes → Bool
prefix_conflicts s transaction_id snapshot prefix =
    any (λ entry. newer_than snapshot entry.1) (version_range s.versions prefix)
    || any (λ intent. not (intent.1 == transaction_id) && starts_with intent.0 prefix) s.intents

unfoldable pub check_prefixes : State → ℕ → ℕ → List Bytes → MvccResult (Unit {0})
check_prefixes s transaction_id snapshot [] = ok tt
check_prefixes s transaction_id snapshot (prefix ∷ prefixes) = do
  ensure (not (prefix_conflicts s transaction_id snapshot prefix)) (range_conflict prefix)
  check_prefixes s transaction_id snapshot prefixes

unfoldable pub insert_intents : Map Bytes ℕ → ℕ → List Bytes → Map Bytes ℕ
insert_intents intents transaction_id [] = intents
insert_intents intents transaction_id (key ∷ keys) =
    insert_intents (insert intents key transaction_id) transaction_id keys

-- The state once a commit has its timestamp and its write intents.
unfoldable pub reserve : State → ℕ → List Bytes → State
reserve s transaction_id keys = record s {
  next_commit_timestamp = s.next_commit_timestamp + 1;
  intents = insert_intents s.intents transaction_id keys;
}

-- Validation, the commit timestamp, and the write intents.
unfoldable pub prepare_commit : State → ℕ → ℕ → List Bytes → List Bytes → MvccResult (ℕ × State)
prepare_commit s transaction_id snapshot keys scanned_prefixes = do
  check_keys s transaction_id snapshot keys
  check_prefixes s transaction_id snapshot scanned_prefixes
  elim (checked_suc s.next_commit_timestamp) [
    | none ↦ err timestamp_exhausted
    | some next ↦ ok (s.next_commit_timestamp, reserve s transaction_id keys)
  ]

-- `if state.intents.get(key) == Some(&transaction_id) { state.intents.remove(key); }`
unfoldable pub release_intent : ℕ → Bytes → Map Bytes ℕ → Map Bytes ℕ
release_intent transaction_id key intents =
    if is_some_and (lookup intents key) (λ owner. owner == transaction_id)
    then remove intents key
    else intents

unfoldable pub release_intents : ℕ → List Write → Map Bytes ℕ → Map Bytes ℕ
release_intents transaction_id [] intents = intents
release_intents transaction_id ((key, value) ∷ writes) intents =
    release_intents transaction_id writes (release_intent transaction_id key intents)

-- Where `binary_search_by_key` finds the timestamp, or finds its place.
abbrev pub position_of : ℕ → List Version → ℕ
position_of timestamp versions = partition_point (λ v. ltb v.timestamp timestamp) versions

abbrev pub bump : Option ℕ → ℕ
bump none = 1
bump (some n) = n + 1

-- The version put in its place, its page counted, and its key marked dirty.
unfoldable pub push_version : ℕ → Write → ℕ → State → State
push_version timestamp (key, value) page_id s =
    let versions = versions_of s key in
    record s {
      versions = insert s.versions key (
          insert_at versions (position_of timestamp versions)
            (record { timestamp = timestamp; value = value; page_id = page_id }));
      page_refs = insert s.page_refs page_id (bump (lookup s.page_refs page_id));
      dirty_keys = insert s.dirty_keys key tt;
    }

-- Whether the version at the place for a timestamp has that timestamp.
abbrev pub has_timestamp : ℕ → List Version → Bool
has_timestamp timestamp versions =
    is_some_and (get_elem? versions (position_of timestamp versions))
      (λ v. v.timestamp == timestamp)

-- One round of the loop that publishes the written versions.
unfoldable pub publish_write : ℕ → Write → ℕ → State → MvccResult State
publish_write timestamp write page_id s =
    if has_timestamp timestamp (versions_of s write.0)
    then err (corrupt_record page_id duplicate_commit_timestamp)
    else ok (push_version timestamp write page_id s)

-- A round that fails ends the loop.
abbrev pub or_stop :
    State
    → MvccResult State
    → (State → State × MvccResult (Unit {0}))
    → State × MvccResult (Unit {0})
or_stop s (err e) rest = (s, err e)
or_stop s (ok s') rest = rest s'

-- The loop over `writes.iter().zip(page_ids)`. On an error the rounds before it have taken effect.
unfoldable pub publish_writes : ℕ → List Write → List ℕ → State → State × MvccResult (Unit {0})
publish_writes timestamp [] page_ids s = (s, ok tt)
publish_writes timestamp (write ∷ writes) [] s = (s, ok tt)
publish_writes timestamp (write ∷ writes) (page_id ∷ page_ids) s =
    or_stop s (publish_write timestamp write page_id s) (publish_writes timestamp writes page_ids)

-- The outcome of the second loop: a failure returns before the timestamp is completed.
abbrev pub then_complete : ℕ → State × MvccResult (Unit {0}) → State × MvccResult (Unit {0})
then_complete timestamp (s, err e) = (s, err e)
then_complete timestamp (s, ok _) = (complete timestamp s, ok tt)

unfoldable pub finish_prepared :
    State → ℕ → ℕ → List Write → Option (List ℕ) → State × MvccResult (Unit {0})
finish_prepared s transaction_id timestamp writes page_ids =
    let released = record s { intents = release_intents transaction_id writes s.intents } in
    then_complete timestamp (elim page_ids [
      | none ↦ (released, ok tt)
      | some ids ↦ publish_writes timestamp writes ids released
    ])

unfoldable pub end_transaction : State → ℕ → State
end_transaction s transaction_id = record s { active = remove s.active transaction_id }

-- The state with one more active transaction, at the watermark.
unfoldable pub start_transaction : State → State
start_transaction s = record s {
  next_transaction_id = s.next_transaction_id + 1;
  active = insert s.active s.next_transaction_id s.visible_through;
}

-- `MvccDatabase::begin`: the new transaction's id and its snapshot.
unfoldable pub begin : State → MvccResult ((ℕ × ℕ) × State)
begin s = elim (checked_suc s.next_transaction_id) [
  | none ↦ err transaction_id_exhausted
  | some next ↦ ok ((s.next_transaction_id, s.visible_through), start_transaction s)
]
