-- ===== src/Examples/States.antt =====
-- The state of the database on concrete values: the watermark, a commit, a reclamation, a step.
use quantadb.Prelude.{
  ◌≡◌, ◌≤◌, true, Bool-cases, inl, inr, subst, refl, some, none, [], ◌∷◌, arith, List,
}
use quantadb.Prelude.Ord.{nat_ord, bytes_ord, same, eq_of_same}
use quantadb.Prelude.Map.{lookup}
use quantadb.Mvcc.State.{State, IndexGeneration, complete, versions_of}
use quantadb.Mvcc.State.Watermark.{Completes, complete-Completes}
use quantadb.Mvcc.Commit.{
  Write, prepare_commit, check_keys, key_conflicts, newer_than, check_prefixes, prefix_conflicts,
  reserve, publish_writes, publish_write,
}
use quantadb.Mvcc.Commit.Prepare.{Clear, Prepared, prepare_commit-Prepared}
use quantadb.Mvcc.Commit.Publish.{Published, publish_writes-Published}
use quantadb.Mvcc.Reclaim.{reclaim_covered}
use quantadb.Mvcc.Rebuild.{publish_rebuilt}
use quantadb.Mvcc.Rebuild.Dirty.{publish_rebuilt-dirty}
use quantadb.Mvcc.Reclaim.Laws.{Reclaimed, reclaim_covered-Reclaimed}
use quantadb.Mvcc.Prefix.{version_range, prefix_end, prefix_end_scan}
use quantadb.Mvcc.Commit.Accepting.{prepare_commit-Clear}
use quantadb.Mvcc.State.Versions.{newest}
use quantadb.Bytes.{Bytes, AllBytes}
use quantadb.Prelude.Result.{ok}
use quantadb.Prelude.Seq.{is_some}
use quantadb.Mvcc.Protocol.{Step}
use quantadb.Mvcc.Protocol.Serial.{Reach-Inv}
use quantadb.Mvcc.Protocol.Snapshot.{SeenBy, repeatable_reads}
use quantadb.Examples.Transactions.{second_active, empty_system-Inv, to_flying_two, flying_two}

-- one key with two versions, an index generation at the second, and timestamp 5 completed
abbrev pub busy : State
busy = record {
  versions =
      (
        107 ∷ [],
        record { timestamp = 1; value = some (1 ∷ []); page_id = 4 }
            ∷ record { timestamp = 2; value = some (2 ∷ []); page_id = 5 }
            ∷ [],
      )
      ∷ [];
  page_refs = (4, 1) ∷ (5, 1) ∷ [];
  intents = [];
  active = (9, 3) ∷ [];
  completed_timestamps = (5, tt) ∷ [];
  next_transaction_id = 10;
  next_commit_timestamp = 6;
  visible_through = 3;
  generations = record { timestamp = 2; root = none; manifest_page_id = 6 } ∷ [];
  dirty_keys = [];
  reclaimed_versions = 0;
}

abbrev dirty_state : State
dirty_state = record busy { dirty_keys = (106 ∷ [], tt) ∷ (107 ∷ [], tt) ∷ [] }

complete-Completes_example : Completes 4 busy (complete 4 busy)
complete-Completes_example = complete-Completes 4 busy

reclaim_covered-Reclaimed_example : Reclaimed busy (reclaim_covered (some 2) busy).0
reclaim_covered-Reclaimed_example = reclaim_covered-Reclaimed (some 2) busy (tt, tt)

prepare_commit-Prepared_example :
    Prepared busy 9 3 ((107 ∷ []) ∷ []) ((108 ∷ []) ∷ []) 6 (reserve busy 9 ((107 ∷ []) ∷ []))
unfolding prepare_commit check_keys key_conflicts newer_than check_prefixes prefix_conflicts lookup
    version_range prefix_end prefix_end_scan
prepare_commit-Prepared_example =
    prepare_commit-Prepared busy 9 3 ((107 ∷ []) ∷ []) ((108 ∷ []) ∷ []) 6
      (reserve busy 9 ((107 ∷ []) ∷ [])) refl

busy_key : (key : Bytes) → is_some (lookup busy.versions key) ≡ true → (107 ∷ []) ≡ key
unfolding lookup
busy_key key h = eq_of_same (107 ∷ []) key (ground (arith, h))

busy-newest : (key : Bytes) → newest (versions_of busy key) ≤ 3
unfolding lookup
busy-newest key = elim (Bool-cases (same (107 ∷ []) key)) [
  | inl e ↦ rw e (omega arith)
  | inr e ↦ rw e (omega arith)
]

busy-Clear : (key : Bytes) → Clear busy 9 3 key
unfolding lookup
busy-Clear key = (busy-newest key, λ owner e. cc)

abbrev next_generation : IndexGeneration
next_generation = record { timestamp = 3; root = none; manifest_page_id = 9 }

publish_rebuilt-dirty_example :
    lookup (publish_rebuilt next_generation (some 2) dirty_state).0.dirty_keys (107 ∷ []) ≡ none
unfolding lookup
publish_rebuilt-dirty_example =
    publish_rebuilt-dirty next_generation (some 2) dirty_state (107 ∷ []) (tt, tt)
      ((omega arith, tt), (tt, tt))

prepare_commit-Clear_example :
    prepare_commit busy 9 3 ((107 ∷ []) ∷ []) ((108 ∷ []) ∷ [])
    ≡ ok (6, reserve busy 9 ((107 ∷ []) ∷ []))
prepare_commit-Clear_example =
    prepare_commit-Clear busy 9 3 ((107 ∷ []) ∷ []) ((108 ∷ []) ∷ []) (tt, tt) tt
      (λ key h. subst AllBytes (busy_key key h) (omega arith, tt)) (omega arith)
      (λ key c. busy-Clear key) (λ prefix key c t. busy-Clear key)

abbrev one_write : List Write
one_write = (107 ∷ [], none) ∷ []

publish_writes-Published_example :
    Published 6 one_write (8 ∷ []) busy (publish_writes 6 one_write (8 ∷ []) busy).0
unfolding publish_writes publish_write lookup
publish_writes-Published_example =
    publish_writes-Published 6 one_write (8 ∷ []) busy (omega arith) refl

-- the second critical section of a rebuild, while the second transaction runs
rebuilds :
    Step flying_two
      (record flying_two { state = (publish_rebuilt next_generation none flying_two.state).0 })
rebuilds = Step.rebuild flying_two next_generation none

repeatable_reads_example :
    SeenBy 1 (107 ∷ []) flying_two.state (publish_rebuilt next_generation none flying_two.state).0
repeatable_reads_example =
    repeatable_reads 2 1 (107 ∷ []) (Reach-Inv empty_system-Inv to_flying_two) rebuilds
      second_active
