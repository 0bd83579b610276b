-- ===== src/Mvcc/Protocol/Preservation/Finishing.antt =====
-- The invariant when a commit in flight is published, or fails.
use quantadb.Prelude.{
  ℕ, ◌≤◌, ◌<◌, ◌≡◌, ◌≢◌, refl, Bool, true, false, Option, none, some, List, ◌⊎◌, inl, inr, arith,
  sym, subst, ◌↔◌, length, ◌∙◌, Bool-cases,
}
use native.Mathlib.Decide.{dec_lt}
use quantadb.Prelude.Ord.{nat_ord, bytes_ord}
use quantadb.Prelude.Map.{Map, lookup, insert, remove, Sorted, lookup-insert, lookup-remove}
use quantadb.Prelude.Seq.{is_some}
use quantadb.Prelude.Result.{ok}
use quantadb.Bytes.{Bytes}
use quantadb.Mvcc.State.{State, complete, versions_of, oldest_active_snapshot}
use quantadb.Mvcc.State.Watermark.{complete-Unmoved, complete-Completes, Completes, Completed}
use quantadb.Mvcc.State.Snapshots.{
  AllValues-mono, le_of_AllValues, oldest_active_snapshot_lower, oldest_active_snapshot_greatest,
  oldest_active_snapshot-le_visible,
}
use quantadb.Mvcc.Commit.{release_intents, finish_prepared, publish_writes}
use quantadb.Mvcc.Commit.Finish.{released, finish_prepared-none, finish_prepared-some}
use quantadb.Mvcc.Commit.Growth.{Grown, Grown-refl}
use quantadb.Mvcc.Commit.Publish.{
  publish_writes-Published, publish_writes-Sorted, keys_of, contains,
}
use quantadb.Mvcc.Commit.Prepare.{lookup-release_intents}
use quantadb.Mvcc.Protocol.{Flight, System}
use quantadb.Mvcc.Protocol.Invariant.{
  Inv, TimestampsOk, SnapshotsOk, IntentsOk, VersionsOk, SerialOk, FlightAt, CommitAt, Writes,
}

-- What the end of a commit does to the state; `written` says which keys got a version.
pub record Finished (y : System) (t : ℕ) (f : Flight) (written : Bytes → Bool) (s : State)
    : Type 0 where
  pub intents : s.intents ≡ release_intents f.id f.writes y.state.intents
  pub active : s.active ≡ y.state.active
  pub next_id : s.next_transaction_id ≡ y.state.next_transaction_id
  pub next_commit : s.next_commit_timestamp ≡ y.state.next_commit_timestamp
  pub completes : Completes t y.state s
  pub sorted : Sorted s.versions
  pub grown : (key : Bytes) → Grown t (written key) (versions_of y.state key) (versions_of s key)

abbrev pub landed : System → ℕ → State → Map ℕ Flight → System
landed y t s history = record { state = s; flights = remove y.flights t; history = history }

module _ (y : System) (t : ℕ) (f : Flight) (written : Bytes → Bool) (s : State)
    (history : Map ℕ Flight) (i : Inv y) (flying : FlightAt y t f)
    (d : Finished y t f written s) where
  -- the other commits in flight
  other : (u : ℕ) (g : Flight) → lookup (remove y.flights t) u ≡ some g → FlightAt y u g × (u ≢ t)
  other u g h = ground (arith, lookup-remove y.flights t u)

  watermark_below : s.visible_through < y.state.next_commit_timestamp
  watermark_below = ground (
    arith,
    d.completes.over_completed s.visible_through,
    d.completes.rises,
    i.timestamps.below_next,
    i.timestamps.completed_below s.visible_through,
    i.timestamps.issued t f,
  )

  still_pending : (u : ℕ) (g : Flight) → FlightAt y u g → u ≢ t → s.visible_through < u
  still_pending u g h ne = ground (
    arith,
    d.completes.over_completed u,
    i.timestamps.pending u g h,
    i.timestamps.unfinished u g h,
  )

  Completed-issued : (u : ℕ) → Completed s u → u < y.state.next_commit_timestamp
  Completed-issued u h = elim (dec_lt s.visible_through u) [
    | yes above ↦ elim ((d.completes.rest_completed u above).0 h) [
      | inl before ↦ i.timestamps.completed_below u before
      | inr now ↦ rw now (i.timestamps.issued t f flying)
    ]
    | no below ↦ omega (arith, watermark_below)
  ]

  not_completed :
      (u : ℕ) (g : Flight)
      → FlightAt y u g
      → u ≢ t
      → is_some (lookup s.completed_timestamps u) ≡ false
  not_completed u g h ne = elim (Bool-cases (is_some (lookup s.completed_timestamps u))) [
    | inl c ↦ elim ((d.completes.rest_completed u (still_pending u g h ne)).0 c) [
      | inl before ↦ cc (i.timestamps.unfinished u g h, before)
      | inr now ↦ absurd (ne now)
    ]
    | inr c ↦ c
  ]

  pub finished-TimestampsOk : TimestampsOk (landed y t s history)
  finished-TimestampsOk = record {
    below_next = rw d.next_commit watermark_below;
    completed_below = λ u h. rw d.next_commit (Completed-issued u h);
    pending = λ u g h. let (a, ne) = other u g h in still_pending u g a ne;
    issued = λ u g h. rw d.next_commit (i.timestamps.issued u g (other u g h).0);
    unfinished = λ u g h. let (a, ne) = other u g h in not_completed u g a ne;
  }

  pub finished-SnapshotsOk : SnapshotsOk (landed y t s history)
  finished-SnapshotsOk = record {
    active_visible = rw d.active (
        AllValues-mono y.state.visible_through s.visible_through y.state.active d.completes.rises
          i.snapshots.active_visible);
    ids_below =
        λ id snapshot h. rw d.next_id (i.snapshots.ids_below id snapshot (rw d.active at h));
    flying_active = λ u g h. rw d.active (i.snapshots.flying_active u g (other u g h).0);
  }

  pub finished-IntentsOk : IntentsOk (landed y t s history)
  finished-IntentsOk = record {
    held = λ u g key h w.
        let (a, ne) = other u g h in
        rw d.intents (
          ground (
            arith,
            lookup-release_intents f.id f.writes y.state.intents key,
            i.intents.held u g key a w,
            i.intents.distinct u t g f a flying,
          ));
    distinct = λ u v g h a b. i.intents.distinct u v g h (other u g a).0 (other v h b).0;
  }

  oldest_rises : oldest_active_snapshot y.state ≤ oldest_active_snapshot s
  oldest_rises =
      oldest_active_snapshot_greatest s (oldest_active_snapshot y.state)
        (rw d.active (oldest_active_snapshot_lower y.state))
        (omega (
          arith,
          oldest_active_snapshot-le_visible y.state i.snapshots.active_visible,
          d.completes.rises,
        ))

  pub finished-VersionsOk :
      ((u : ℕ) (c : Flight) (key : Bytes)
        → lookup history u ≡ some c
        → Writes c key
        → CommitAt y u c ⊎ ((u ≡ t) × (written key ≡ true)))
      → VersionsOk (landed y t s history)
  finished-VersionsOk known = record {
    sorted = d.sorted;
    ascending = λ key. (d.grown key).ascending (i.versions.ascending key);
    recorded = λ u c key a w. elim (known u c key a w) [
      | inl old ↦ elim (i.versions.recorded u c key old w) [
        | inl low ↦ inl (omega (arith, oldest_rises))
        | inr top ↦ inr (omega (arith, (d.grown key).newest_kept (i.versions.ascending key)))
      ]
      | inr (e, new) ↦ inr (rw e ((d.grown key).newest_written (i.versions.ascending key) new))
    ];
  }

-- The history of a commit that is published: its own entry, and those before it.
pub published_known :
    (y : System) (t : ℕ) (f : Flight) (u : ℕ) (c : Flight) (key : Bytes)
    → lookup (insert y.history t f) u ≡ some c
    → Writes c key
    → CommitAt y u c ⊎ ((u ≡ t) × (contains (keys_of f.writes) key ≡ true))
published_known y t f u c key h w = ground (arith, lookup-insert y.history t u f)

-- Two commits in flight share no key.
pub flights_disjoint :
    (y : System) (t u : ℕ) (f g : Flight) (key : Bytes)
    → Inv y
    → FlightAt y t f
    → FlightAt y u g
    → Writes f key
    → Writes g key
    → t ≡ u
flights_disjoint y t u f g key i a b wf wg =
    i.intents.distinct t u f g a b
      (same_owner (i.intents.held t f key a wf) (i.intents.held u g key b wg))
  where
    same_owner : {o : Option ℕ} → o ≡ some f.id → o ≡ some g.id → f.id ≡ g.id
    same_owner p q = cc

-- A commit in flight has its timestamp above its snapshot.
pub snapshot-lt : (y : System) (t : ℕ) (f : Flight) → Inv y → FlightAt y t f → f.snapshot < t
snapshot-lt y t f i a = omega (
  arith,
  le_of_AllValues y.state.visible_through y.state.active f.id f.snapshot i.snapshots.active_visible
      (i.snapshots.flying_active t f a),
  i.timestamps.pending t f a,
)

-- An entry of the history once `f` is published at `t`.
entry_cases :
    (y : System) (t : ℕ) (f : Flight) (u : ℕ) (c : Flight)
    → lookup (insert y.history t f) u ≡ some c
    → ((u ≡ t) × (f ≡ c)) ⊎ ((u ≢ t) × CommitAt y u c)
entry_cases y t f u c h = ground (arith, lookup-insert y.history t u f)

-- A commit is published: it was validated after the commits before it, and those after it were
-- validated after it.
pub published-SerialOk :
    (y : System) (t : ℕ) (f : Flight) (s : State)
    → Inv y
    → FlightAt y t f
    → SerialOk (landed y t s (insert y.history t f))
published-SerialOk y t f s i flying = record {
  before_flights = λ u v c g key a b wc wg.
      let here : FlightAt y v g × (v ≢ t) = ground (arith, lookup-remove y.flights t v) in
      elim (entry_cases y t f u c a) [
        | inl (e, same_flight) ↦
            absurd (
              here.1
                (sym (flights_disjoint y t v f g key i flying here.0 (rw (same_flight) wc) wg)))
        | inr (ne, old) ↦ i.serial.before_flights u v c g key old here.0 wc wg
      ];
  before_commits = λ u v c d key a b wc wd less. elim (entry_cases y t f u c a) [
    | inl (e, first) ↦ elim (entry_cases y t f v d b) [
      | inl (e', second) ↦ absurd (omega arith)
      | inr (ne, old) ↦ absurd (
          omega (
            arith,
            i.serial.before_flights v t d f key old flying wd (rw first wc),
            snapshot-lt y t f i flying,
          ))
    ]
    | inr (ne, old) ↦ elim (entry_cases y t f v d b) [
      | inl (e', second) ↦
          subst (λ h. u ≤ h.snapshot) second
            (i.serial.before_flights u t c f key old flying wc (rw second wd))
      | inr (ne', old') ↦ i.serial.before_commits u v c d key old old' wc wd less
    ]
  ];
}

pub failed-SerialOk :
    (y : System) (t : ℕ) (f : Flight) (s : State) → Inv y → SerialOk (landed y t s y.history)
failed-SerialOk y t f s i = record {
  before_flights = λ u v c g key a b wc wg.
      i.serial.before_flights u v c g key a (ground (arith, lookup-remove y.flights t v)) wc wg;
  before_commits = i.serial.before_commits;
}

-- The end of a commit, from what `complete` is given.
Finished-of :
    (y : System) (t : ℕ) (f : Flight) (written : Bytes → Bool) (s : State)
    → s.intents ≡ release_intents f.id f.writes y.state.intents
    → s.active ≡ y.state.active
    → s.next_transaction_id ≡ y.state.next_transaction_id
    → s.next_commit_timestamp ≡ y.state.next_commit_timestamp
    → s.completed_timestamps ≡ y.state.completed_timestamps
    → s.visible_through ≡ y.state.visible_through
    → Sorted s.versions
    → ((key : Bytes) → Grown t (written key) (versions_of y.state key) (versions_of s key))
    → Finished y t f written (complete t s)
Finished-of y t f written s a b c d e v sorted grown =
    let u = complete-Unmoved t s in
    let k = complete-Completes t s in
    record {
      intents = u.intents ∙ a;
      active = u.active ∙ b;
      next_id = u.next_id ∙ c;
      next_commit = u.next_commit ∙ d;
      completes = record {
        rises = subst (λ n. n ≤ (complete t s).visible_through) v k.rises;
        over_completed = λ n above below.
            subst (λ m. (is_some (lookup m n) ≡ true) ⊎ (n ≡ t)) e
              (k.over_completed n (omega arith) below);
        stopped = k.stopped;
        rest_completed = λ n above.
            subst (λ m. Completed (complete t s) n ↔ ((is_some (lookup m n) ≡ true) ⊎ (n ≡ t))) e
              (k.rest_completed n above);
      };
      sorted = rw u.versions sorted;
      grown = λ key. rw u.versions (grown key);
    }

pub failed-Finished :
    (y : System) (t : ℕ) (f : Flight)
    → Inv y
    → Finished y t f (λ _. false) (finish_prepared y.state f.id t f.writes none).0
failed-Finished y t f i = rw (finish_prepared-none y.state f.id t f.writes) (
    Finished-of y t f (λ _. false) (released y.state f.id f.writes) refl refl refl refl refl refl
      i.versions.sorted (λ key. Grown-refl t (versions_of y.state key)))

pub published-Finished :
    (y : System) (t : ℕ) (f : Flight) (ids : List ℕ)
    → Inv y
    → length f.writes ≤ length ids
    → (finish_prepared y.state f.id t f.writes (some ids)).1 ≡ ok tt
    → Finished y t f
        (contains (keys_of f.writes))
        (finish_prepared y.state f.id t f.writes (some ids)).0
published-Finished y t f ids i n h =
    let (all_put, same_state) = finish_prepared-some y.state f.id t f.writes ids h in
    let s = (publish_writes t f.writes ids (released y.state f.id f.writes)).0 in
    let p = publish_writes-Published t f.writes ids (released y.state f.id f.writes) n all_put in
    rw same_state (
      Finished-of y t f (contains (keys_of f.writes)) s p.control.intents p.control.active
        p.control.next_id p.control.next_commit p.control.completed p.control.visible
        (publish_writes-Sorted t f.writes ids (released y.state f.id f.writes) i.versions.sorted)
        p.grown)
