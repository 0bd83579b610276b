-- ===== src/Examples/Transactions.antt =====
-- Two transactions that write one key, one after the other.
use quantadb.Prelude.{ℕ, ◌≤◌, ◌<◌, ◌≡◌, refl, some, [], ◌∷◌, arith, List}
use quantadb.Prelude.Ord.{nat_ord, bytes_ord}
use quantadb.Prelude.Map.{lookup, insert, remove}
use quantadb.Mvcc.State.{State, complete, advance_visible, versions_of, visible_version}
use quantadb.Mvcc.Commit.{
  Write, begin, start_transaction, prepare_commit, check_keys, key_conflicts, newer_than,
  check_prefixes, insert_intents, reserve, finish_prepared, release_intents, release_intent,
  publish_writes, publish_write, push_version,
}
use quantadb.Mvcc.Protocol.{Flight, System, Step, Reach, here, next}
use quantadb.Mvcc.Protocol.Invariant.{Inv}
use quantadb.Mvcc.Protocol.Serial.{no_lost_update, flights_unseen, flights_write_apart}

abbrev empty_state : State
empty_state = record {
  versions = [];
  page_refs = [];
  intents = [];
  active = [];
  completed_timestamps = [];
  next_transaction_id = 1;
  next_commit_timestamp = 1;
  visible_through = 0;
  generations = [];
  dirty_keys = [];
  reclaimed_versions = 0;
}

abbrev pub empty_system : System
empty_system = record { state = empty_state; flights = []; history = [] }

pub empty_system-Inv : Inv empty_system
unfolding lookup
empty_system-Inv = record {
  timestamps = record {
    below_next = omega arith;
    completed_below = λ t h. cc;
    pending = λ t f h. cc;
    issued = λ t f h. cc;
    unfinished = λ t f h. cc;
  };
  snapshots = record { active_visible = tt; ids_below = λ id n h. cc; flying_active = λ t f h. cc };
  intents = record { held = λ t f k h w. cc; distinct = λ t u f g a b e. cc };
  versions = record { sorted = tt; ascending = λ k. tt; recorded = λ t c k a w. cc };
  serial = record {
    before_flights = λ t u c f k a b v w. cc;
    before_commits = λ t u c d k a b v w l. cc;
  };
}

abbrev put_one : List Write
put_one = (107 ∷ [], some (49 ∷ [])) ∷ []

abbrev put_two : List Write
put_two = (107 ∷ [], some (50 ∷ [])) ∷ []

-- the states after `begin`, `prepare_commit` and `finish_prepared`, as the code computes them
begun : State
unfolding start_transaction insert
begun = start_transaction empty_state

pub prepared : State
unfolding begun reserve insert_intents
prepared = reserve begun 1 ((107 ∷ []) ∷ [])

begins : Step empty_system (record empty_system { state = begun })
unfolding begun begin
begins = Step.begin empty_system refl

prepares :
    Step
      (record empty_system { state = begun })
      (record empty_system {
        state = prepared;
        flights = (1, record { id = 1; snapshot = 0; writes = put_one }) ∷ [];
      })
unfolding begun prepared prepare_commit check_keys key_conflicts newer_than check_prefixes lookup
    insert
prepares =
    Step.prepare (record empty_system { state = begun }) 1 0 put_one [] refl (λ t f h. cc) refl

abbrev pub first : Flight
first = record { id = 1; snapshot = 0; writes = put_one }

abbrev second : Flight
second = record { id = 2; snapshot = 1; writes = put_two }

abbrev pub flying_one : System
flying_one = record { state = prepared; flights = (1, first) ∷ []; history = [] }

pub published : State
unfolding prepared finish_prepared release_intents release_intent publish_writes publish_write
    push_version complete advance_visible lookup insert remove
published = (finish_prepared prepared 1 1 put_one (some (7 ∷ []))).0

abbrev pub stored_one : System
stored_one = record { state = published; flights = []; history = (1, first) ∷ [] }

pub publishes : Step flying_one stored_one
unfolding published
publishes = Step.publish flying_one 1 first (7 ∷ []) refl (omega arith) refl

begun_again : State
unfolding published start_transaction
begun_again = start_transaction published

pub prepared_again : State
unfolding begun_again reserve insert_intents
prepared_again = reserve begun_again 2 ((107 ∷ []) ∷ [])

abbrev pub flying_two : System
flying_two = record {
  state = prepared_again;
  flights = (2, second) ∷ [];
  history = (1, first) ∷ [];
}

published_again : State
unfolding prepared_again finish_prepared release_intents release_intent publish_writes publish_write
    push_version complete advance_visible lookup insert remove
published_again = (finish_prepared prepared_again 2 2 put_two (some (8 ∷ []))).0

abbrev stored_two : System
stored_two = record {
  state = published_again;
  flights = [];
  history = (1, first) ∷ (2, second) ∷ [];
}

begins_again : Step stored_one (record stored_one { state = begun_again })
unfolding begun_again begin
begins_again = Step.begin stored_one refl

prepares_again : Step (record stored_one { state = begun_again }) flying_two
unfolding prepared_again prepare_commit check_keys key_conflicts newer_than check_prefixes
prepares_again =
    Step.prepare (record stored_one { state = begun_again }) 2 1 put_two [] refl (λ t f h. cc) refl

publishes_again : Step flying_two stored_two
unfolding published_again
publishes_again = Step.publish flying_two 2 second (8 ∷ []) refl (omega arith) refl

pub first_active : lookup flying_one.state.active first.id ≡ some first.snapshot
unfolding lookup insert prepared begun
first_active = refl

pub to_flying_one : Reach empty_system flying_one
to_flying_one = next (next here begins) prepares

pub second_active : lookup flying_two.state.active second.id ≡ some second.snapshot
unfolding lookup insert remove prepared_again begun_again published prepared begun start_transaction
    reserve insert_intents finish_prepared release_intents release_intent publish_writes
    publish_write push_version complete advance_visible
second_active = refl

pub to_flying_two : Reach empty_system flying_two
to_flying_two = next (next (next to_flying_one publishes) begins_again) prepares_again

no_lost_update_example : 1 ≤ second.snapshot
unfolding lookup insert published_again
no_lost_update_example =
    no_lost_update 1 2 first second (107 ∷ []) empty_system-Inv (next to_flying_two publishes_again)
      refl refl refl refl (omega arith)

started_third : State
unfolding prepared_again start_transaction
started_third = start_transaction prepared_again

flights_unseen_example :
    (1 < 2)
    × (visible_version
          (versions_of (finish_prepared started_third 2 2 put_two (some (8 ∷ []))).0 (107 ∷ []))
          1
        ≡ visible_version (versions_of started_third (107 ∷ [])) 1)
unfolding lookup begin started_third finish_prepared release_intents release_intent publish_writes
    publish_write push_version complete advance_visible insert remove begun_again published prepared
    begun start_transaction reserve insert_intents
flights_unseen_example =
    flights_unseen 2 second 3 1 (8 ∷ []) (107 ∷ []) empty_system-Inv to_flying_two refl refl
      (omega arith) refl

flights_write_apart_example : ◌≡◌ {A = ℕ} 2 2
unfolding lookup
flights_write_apart_example =
    flights_write_apart 2 2 second second (107 ∷ []) empty_system-Inv to_flying_two refl refl refl
      refl
