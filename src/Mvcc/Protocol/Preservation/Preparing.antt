-- ===== src/Mvcc/Protocol/Preservation/Preparing.antt =====
-- The invariant when a commit passes validation.
use quantadb.Prelude.{
  ℕ, ◌≤◌, ◌≡◌, true, false, some, List, ◌⊎◌, inl, inr, arith, sym, subst, ap, ◌∙◌, Bool-cases,
  if◌then◌else◌,
}
use quantadb.Prelude.Ord.{nat_ord, bytes_ord}
use quantadb.Prelude.Map.{lookup, insert, lookup-insert}
use quantadb.Prelude.Seq.{is_some}
use quantadb.Bytes.{Bytes}
use quantadb.Mvcc.State.{State, oldest_active_snapshot}
use quantadb.Mvcc.State.Snapshots.{
  oldest_active_snapshot-le, oldest_active_snapshot_lower, oldest_active_snapshot_greatest,
  oldest_active_snapshot-le_visible,
}
use quantadb.Mvcc.Commit.{Write, reserve}
use quantadb.Mvcc.Commit.Publish.{keys_of, contains}
use quantadb.Mvcc.Commit.Prepare.{Prepared, lookup-insert_intents}
use quantadb.Mvcc.Protocol.{Flight, System, Grounded}
use quantadb.Mvcc.Protocol.Invariant.{
  Inv, TimestampsOk, SnapshotsOk, IntentsOk, VersionsOk, SerialOk, FlightAt, CommitAt, Writes,
}

module _ (y : System) (id snapshot : ℕ) (writes : List Write) (prefixes : List Bytes)
    (active : lookup y.state.active id ≡ some snapshot) (grounded : Grounded y id) (i : Inv y)
    {s0 : State} (t0 : ℕ) (p : Prepared y.state id snapshot (keys_of writes) prefixes t0 s0) where
  abbrev now : ℕ
  now = y.state.next_commit_timestamp

  abbrev new_flight : Flight
  new_flight = record { id = id; snapshot = snapshot; writes = writes }

  abbrev launched : System
  launched = record y {
    state = reserve y.state id (keys_of writes);
    flights = insert y.flights now new_flight;
  }

  flight_cases :
      (u : ℕ) (g : Flight) → FlightAt launched u g → ((u ≡ now) × (new_flight ≡ g)) ⊎ FlightAt y u g
  flight_cases u g h = ground (arith, lookup-insert y.flights now u new_flight)

  not_completed_now : is_some (lookup y.state.completed_timestamps now) ≡ false
  not_completed_now = elim (Bool-cases (is_some (lookup y.state.completed_timestamps now))) [
    | inl c ↦ absurd (omega (arith, i.timestamps.completed_below now c))
    | inr c ↦ c
  ]

  launched-TimestampsOk : TimestampsOk launched
  unfolding reserve
  launched-TimestampsOk = record {
    below_next = omega (arith, i.timestamps.below_next);
    completed_below = λ u h. omega (arith, i.timestamps.completed_below u h);
    pending = λ u g h. elim (flight_cases u g h) [
      | inl (e, same_flight) ↦ rw e i.timestamps.below_next
      | inr old ↦ i.timestamps.pending u g old
    ];
    issued = λ u g h. elim (flight_cases u g h) [
      | inl (e, same_flight) ↦ omega arith
      | inr old ↦ omega (arith, i.timestamps.issued u g old)
    ];
    unfinished = λ u g h. elim (flight_cases u g h) [
      | inl (e, same_flight) ↦ rw e not_completed_now
      | inr old ↦ i.timestamps.unfinished u g old
    ];
  }

  launched-SnapshotsOk : SnapshotsOk launched
  unfolding reserve
  launched-SnapshotsOk = record {
    active_visible = i.snapshots.active_visible;
    ids_below = i.snapshots.ids_below;
    flying_active = λ u g h. elim (flight_cases u g h) [
      | inl (e, same_flight) ↦
          subst (λ k. lookup y.state.active k.id ≡ some k.snapshot) same_flight active
      | inr old ↦ i.snapshots.flying_active u g old
    ];
  }

  -- no commit in flight holds a key of the new one
  keys_free :
      (u : ℕ) (g : Flight) (key : Bytes)
      → FlightAt y u g
      → Writes g key
      → contains (keys_of writes) key ≡ false
  keys_free u g key h w = elim (Bool-cases (contains (keys_of writes) key)) [
    | inl c ↦ absurd (grounded u g h ((p.keys_clear key c).1 g.id (i.intents.held u g key h w)))
    | inr c ↦ c
  ]

  launched-IntentsOk : IntentsOk launched
  unfolding reserve
  launched-IntentsOk = record {
    held = λ u g key h w. elim (flight_cases u g h) [
      | inl (e, same_flight) ↦
          lookup-insert_intents y.state.intents id (keys_of writes) key
          ∙ subst
              (λ k.
                Writes k key
                → (if contains (keys_of writes) key then some id else lookup y.state.intents key)
                  ≡ some k.id)
              same_flight (λ c. rw c) w
      | inr old ↦
          lookup-insert_intents y.state.intents id (keys_of writes) key
          ∙ rw (keys_free u g key old w) (i.intents.held u g key old w)
    ];
    distinct = λ u v g h a b e. elim (flight_cases u g a) [
      | inl (eu, first) ↦ elim (flight_cases v h b) [
        | inl (ev, second) ↦ omega arith
        | inr old ↦ absurd (grounded v h old (sym e ∙ sym (ap (λ (k : Flight). k.id) first)))
      ]
      | inr old ↦ elim (flight_cases v h b) [
        | inl (ev, second) ↦ absurd (grounded u g old (e ∙ sym (ap (λ (k : Flight). k.id) second)))
        | inr old' ↦ i.intents.distinct u v g h old old' e
      ]
    ];
  }

  oldest_kept :
      oldest_active_snapshot y.state ≤ oldest_active_snapshot (reserve y.state id (keys_of writes))
  unfolding reserve
  oldest_kept =
      oldest_active_snapshot_greatest (reserve y.state id (keys_of writes))
        (oldest_active_snapshot y.state) (oldest_active_snapshot_lower y.state)
        (oldest_active_snapshot-le_visible y.state i.snapshots.active_visible)

  launched-VersionsOk : VersionsOk launched
  unfolding reserve
  launched-VersionsOk = record {
    sorted = i.versions.sorted;
    ascending = i.versions.ascending;
    recorded = λ u c key a w. elim (i.versions.recorded u c key a w) [
      | inl low ↦ inl (omega (arith, oldest_kept))
      | inr top ↦ inr top
    ];
  }

  -- every published commit of a key of the new one is in its snapshot
  validated :
      (u : ℕ) (c : Flight) (key : Bytes)
      → CommitAt y u c
      → Writes c key
      → contains (keys_of writes) key ≡ true
      → u ≤ snapshot
  validated u c key a wc w = elim (i.versions.recorded u c key a wc) [
    | inl low ↦ omega (arith, oldest_active_snapshot-le y.state id snapshot active)
    | inr top ↦ omega (arith, (p.keys_clear key w).0)
  ]

  launched-SerialOk : SerialOk launched
  unfolding reserve
  launched-SerialOk = record {
    before_flights = λ u v c g key a b wc wg. elim (flight_cases v g b) [
      | inl (e, same_flight) ↦
          subst (λ k. Writes k key → u ≤ k.snapshot) same_flight (validated u c key a wc) wg
      | inr old ↦ i.serial.before_flights u v c g key a old wc wg
    ];
    before_commits = i.serial.before_commits;
  }

  pub launched-Inv : Inv launched
  launched-Inv = record {
    timestamps = launched-TimestampsOk;
    snapshots = launched-SnapshotsOk;
    intents = launched-IntentsOk;
    versions = launched-VersionsOk;
    serial = launched-SerialOk;
  }
