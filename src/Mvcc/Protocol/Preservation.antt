-- ===== src/Mvcc/Protocol/Preservation.antt =====
-- The invariant under the steps that change no commit: `begin`, the end of a transaction, and the
-- second critical section of `rebuild_index`.
pub mod Finishing
pub mod Preparing
use quantadb.Prelude.{
  ℕ, ◌+◌, ◌^◌, ◌≤◌, ◌<◌, ◌≡◌, ◌≢◌, refl, Bool, true, false, Option, none, some, List, ◌⊎◌, inl, inr,
  arith, sym, subst, ap,
}
use native.Mathlib.Nat.{le_refl}
use quantadb.Prelude.Ord.{nat_ord, bytes_ord}
use quantadb.Prelude.Map.{Map, lookup, insert, remove, Sorted, lookup-insert, lookup-remove}
use quantadb.Prelude.Result.{ok}
use quantadb.Bytes.{Bytes}
use quantadb.Mvcc.State.{
  State, IndexGeneration, publish_generation, versions_of, oldest_active_snapshot,
}
use quantadb.Mvcc.State.Versions.{Ascending, newest}
use quantadb.Mvcc.State.Snapshots.{
  AtLeast, AllValues, AllValues-insert, AllValues-remove, AtLeast-insert, AtLeast-remove,
  oldest_active_snapshot_lower, oldest_active_snapshot_greatest, oldest_active_snapshot-le_visible,
}
use quantadb.Mvcc.Commit
use quantadb.Mvcc.Commit.{start_transaction}
use quantadb.Mvcc.Commit.Finish.{begin-eq-ok}
use quantadb.Mvcc.Reclaim.{reclaim_covered}
use quantadb.Mvcc.Rebuild.{retain_dirty, publish_rebuilt}
use quantadb.Mvcc.Reclaim.Laws.{reclaim_covered-Reclaimed, Reclaimed}
use quantadb.Mvcc.Protocol.{Flight, System, Grounded}
use quantadb.Mvcc.Protocol.Invariant.{
  Inv, TimestampsOk, SnapshotsOk, IntentsOk, VersionsOk, SerialOk, FlightAt,
}

-- A change of state that no commit notices.
pub record Quiet (y : System) (s : State) : Type 0 where
  pub intents : s.intents ≡ y.state.intents
  pub completed : s.completed_timestamps ≡ y.state.completed_timestamps
  pub next_commit : s.next_commit_timestamp ≡ y.state.next_commit_timestamp
  pub visible : s.visible_through ≡ y.state.visible_through
  pub active_visible : AllValues s.visible_through s.active
  pub ids_below :
      (id snapshot : ℕ) → lookup s.active id ≡ some snapshot → id < s.next_transaction_id
  pub flying : (t : ℕ) (f : Flight) → FlightAt y t f → lookup s.active f.id ≡ some f.snapshot
  pub oldest : oldest_active_snapshot y.state ≤ oldest_active_snapshot s
  pub sorted : Sorted s.versions
  pub ascending : (key : Bytes) → Ascending (versions_of s key)
  pub newest_kept :
      (key : Bytes)
      → (newest (versions_of y.state key) ≤ oldest_active_snapshot y.state)
        ⊎ (newest (versions_of y.state key) ≤ newest (versions_of s key))

pub Quiet-Inv : (y : System) (s : State) → Inv y → Quiet y s → Inv (record y { state = s })
Quiet-Inv y s i q = record {
  timestamps = record {
    below_next = rw (q.visible, q.next_commit) i.timestamps.below_next;
    completed_below =
        λ t h. rw q.next_commit (i.timestamps.completed_below t (rw q.completed at h));
    pending = λ t f h. rw q.visible (i.timestamps.pending t f h);
    issued = λ t f h. rw q.next_commit (i.timestamps.issued t f h);
    unfinished = λ t f h. rw q.completed (i.timestamps.unfinished t f h);
  };
  snapshots = record {
    active_visible = q.active_visible;
    ids_below = q.ids_below;
    flying_active = q.flying;
  };
  intents = record {
    held = λ t f key a b. rw q.intents (i.intents.held t f key a b);
    distinct = i.intents.distinct;
  };
  versions = record {
    sorted = q.sorted;
    ascending = q.ascending;
    recorded =
        λ t c key a b. ground (arith, i.versions.recorded t c key a b, q.newest_kept key, q.oldest);
  };
  serial = record {
    before_flights = i.serial.before_flights;
    before_commits = i.serial.before_commits;
  };
}

-- The parts of `Quiet` that hold of a state that differs in its active transactions at most.
same-Quiet :
    (y : System) (s : State)
    → Inv y
    → s.intents ≡ y.state.intents
    → s.completed_timestamps ≡ y.state.completed_timestamps
    → s.next_commit_timestamp ≡ y.state.next_commit_timestamp
    → s.visible_through ≡ y.state.visible_through
    → s.versions ≡ y.state.versions
    → AllValues y.state.visible_through s.active
    → ((id snapshot : ℕ) → lookup s.active id ≡ some snapshot → id < s.next_transaction_id)
    → ((t : ℕ) (f : Flight) → FlightAt y t f → lookup s.active f.id ≡ some f.snapshot)
    → AtLeast (oldest_active_snapshot y.state) s.active
    → Quiet y s
same-Quiet y s i a b c d e active ids flying least = record {
  intents = a;
  completed = b;
  next_commit = c;
  visible = d;
  active_visible = rw d active;
  ids_below = ids;
  flying = flying;
  oldest =
      oldest_active_snapshot_greatest s (oldest_active_snapshot y.state) least
        (rw d (oldest_active_snapshot-le_visible y.state i.snapshots.active_visible));
  sorted = rw e i.versions.sorted;
  ascending = λ key. rw e (i.versions.ascending key);
  newest_kept = λ key. inr (rw e (le_refl _));
}

-- The state that a rebuild hands to the reclamation: a new generation, fewer dirty keys.
indexed-Quiet :
    (y : System) (g : IndexGeneration)
    → Inv y
    → Quiet y (retain_dirty g.timestamp (publish_generation g y.state))
unfolding publish_generation retain_dirty
indexed-Quiet y g i =
    same-Quiet y (retain_dirty g.timestamp (publish_generation g y.state)) i refl refl refl refl
      refl i.snapshots.active_visible i.snapshots.ids_below i.snapshots.flying_active
      (oldest_active_snapshot_lower y.state)

pub indexed-Inv :
    (y : System) (g : IndexGeneration)
    → Inv y
    → Inv (record y { state = retain_dirty g.timestamp (publish_generation g y.state) })
indexed-Inv y g i = Quiet-Inv y _ i (indexed-Quiet y g i)

start-Quiet : (y : System) → Inv y → Quiet y (start_transaction y.state)
unfolding start_transaction
start-Quiet y i =
    same-Quiet y (start_transaction y.state) i refl refl refl refl refl
      (AllValues-insert v y.state.active n v (omega arith) i.snapshots.active_visible)
      (λ id snapshot h.
        ground (arith, lookup-insert y.state.active n id v, i.snapshots.ids_below id snapshot))
      (λ t f h. ground (
        arith,
        lookup-insert y.state.active n f.id v,
        i.snapshots.flying_active t f h,
        i.snapshots.ids_below f.id f.snapshot,
      ))
      (AtLeast-insert (oldest_active_snapshot y.state) y.state.active n v
        (oldest_active_snapshot-le_visible y.state i.snapshots.active_visible)
        (oldest_active_snapshot_lower y.state))
  where
    n : ℕ
    n = y.state.next_transaction_id

    v : ℕ
    v = y.state.visible_through

pub begin-Quiet :
    (y : System) (x : ℕ × ℕ) (s : State) → Commit.begin y.state ≡ ok (x, s) → Inv y → Quiet y s
begin-Quiet y x s h i = subst (Quiet y) (sym (begin-eq-ok y.state x s h)) (start-Quiet y i)

pub finish-Quiet :
    (y : System) (id : ℕ) → Grounded y id → Inv y → Quiet y (Commit.end_transaction y.state id)
unfolding Commit.end_transaction
finish-Quiet y id g i =
    same-Quiet y (Commit.end_transaction y.state id) i refl refl refl refl refl
      (AllValues-remove y.state.visible_through y.state.active id i.snapshots.active_visible)
      (λ j snapshot h.
        ground (arith, lookup-remove y.state.active id j, i.snapshots.ids_below j snapshot))
      (λ t f h.
        ground
          (arith, lookup-remove y.state.active id f.id, i.snapshots.flying_active t f h, g t f h))
      (AtLeast-remove (oldest_active_snapshot y.state) y.state.active id
        (oldest_active_snapshot_lower y.state))

reclaim-Quiet :
    (y : System) (protect : Option ℕ) → Inv y → Quiet y (reclaim_covered protect y.state).0
reclaim-Quiet y protect i =
    let s = (reclaim_covered protect y.state).0 in
    let r = reclaim_covered-Reclaimed protect y.state i.versions.sorted in
    record {
      intents = r.intents;
      completed = r.completed;
      next_commit = r.next_commit;
      visible = r.visible;
      active_visible = rw (r.visible, r.active) i.snapshots.active_visible;
      ids_below =
          λ id snapshot h. rw r.next_id (i.snapshots.ids_below id snapshot (rw r.active at h));
      flying = λ t f h. rw r.active (i.snapshots.flying_active t f h);
      oldest =
          oldest_active_snapshot_greatest s (oldest_active_snapshot y.state)
            (rw r.active (oldest_active_snapshot_lower y.state))
            (rw r.visible (oldest_active_snapshot-le_visible y.state i.snapshots.active_visible));
      sorted = r.sorted;
      ascending = λ key. elim (r.keys key) [
        | inl k ↦ k.ascending (i.versions.ascending key)
        | inr k ↦ rw k.gone tt
      ];
      newest_kept = λ key. elim (r.keys key) [
        | inl k ↦ inr (rw k.newest_same (le_refl _))
        | inr k ↦ inl (omega (arith, k.covers, k.reachable))
      ];
    }

pub rebuilt-Inv :
    (y : System) (g : IndexGeneration) (open_page : Option ℕ)
    → Inv y
    → Inv (record y { state = (publish_rebuilt g open_page y.state).0 })
unfolding publish_rebuilt
rebuilt-Inv y g open_page i =
    Quiet-Inv (record y { state = retain_dirty g.timestamp (publish_generation g y.state) }) _
      (indexed-Inv y g i) (reclaim-Quiet _ open_page (indexed-Inv y g i))
