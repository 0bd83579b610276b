-- ===== src/Mvcc/Protocol/Invariant.antt =====
-- The invariant of the interleaved transactions.
use quantadb.Prelude.{ℕ, ◌≤◌, ◌<◌, ◌≡◌, true, false, some, ◌⊎◌}
use quantadb.Prelude.Ord.{nat_ord, bytes_ord}
use quantadb.Prelude.Map.{lookup, Sorted}
use quantadb.Prelude.Seq.{is_some}
use quantadb.Bytes.{Bytes}
use quantadb.Mvcc.State.{versions_of, oldest_active_snapshot}
use quantadb.Mvcc.State.Versions.{Ascending, newest}
use quantadb.Mvcc.State.Snapshots.{AllValues}
use quantadb.Mvcc.Commit.Publish.{keys_of, contains}
use quantadb.Mvcc.Protocol.{Flight, System}

abbrev pub FlightAt : System → ℕ → Flight → Type 0
FlightAt y t f = lookup y.flights t ≡ some f

abbrev pub CommitAt : System → ℕ → Flight → Type 0
CommitAt y t c = lookup y.history t ≡ some c

abbrev pub Writes : Flight → Bytes → Type 0
Writes f key = contains (keys_of f.writes) key ≡ true

-- Timestamps: a commit in flight lies above the watermark and is not completed.
pub record TimestampsOk (y : System) : Type 0 where
  pub below_next : y.state.visible_through < y.state.next_commit_timestamp
  pub completed_below :
      (t : ℕ)
      → is_some (lookup y.state.completed_timestamps t) ≡ true
      → t < y.state.next_commit_timestamp
  pub pending : (t : ℕ) (f : Flight) → FlightAt y t f → y.state.visible_through < t
  pub issued : (t : ℕ) (f : Flight) → FlightAt y t f → t < y.state.next_commit_timestamp
  pub unfinished :
      (t : ℕ) (f : Flight)
      → FlightAt y t f
      → is_some (lookup y.state.completed_timestamps t) ≡ false

-- Snapshots: every active one is at or below the watermark, and a commit in flight is active.
pub record SnapshotsOk (y : System) : Type 0 where
  pub active_visible : AllValues y.state.visible_through y.state.active
  pub ids_below :
      (id snapshot : ℕ)
      → lookup y.state.active id ≡ some snapshot
      → id < y.state.next_transaction_id
  pub flying_active :
      (t : ℕ) (f : Flight) → FlightAt y t f → lookup y.state.active f.id ≡ some f.snapshot

-- Intents: a commit in flight holds each of its keys, and is the only one of its transaction.
pub record IntentsOk (y : System) : Type 0 where
  pub held :
      (t : ℕ) (f : Flight) (key : Bytes)
      → FlightAt y t f
      → Writes f key
      → lookup y.state.intents key ≡ some f.id
  pub distinct : (t u : ℕ) (f g : Flight) → FlightAt y t f → FlightAt y u g → f.id ≡ g.id → t ≡ u

-- Versions: lists are ascending; a published commit is still the newest of each of its keys, or an
-- older one than it, or it is at or below every snapshot in use.
pub record VersionsOk (y : System) : Type 0 where
  pub sorted : Sorted y.state.versions
  pub ascending : (key : Bytes) → Ascending (versions_of y.state key)
  pub recorded :
      (t : ℕ) (c : Flight) (key : Bytes)
      → CommitAt y t c
      → Writes c key
      → (t ≤ oldest_active_snapshot y.state) ⊎ (t ≤ newest (versions_of y.state key))

-- First committer wins: a commit in flight, or published, was validated on a snapshot that holds
-- every earlier commit of its keys.
pub record SerialOk (y : System) : Type 0 where
  pub before_flights :
      (t u : ℕ) (c f : Flight) (key : Bytes)
      → CommitAt y t c
      → FlightAt y u f
      → Writes c key
      → Writes f key
      → t ≤ f.snapshot
  pub before_commits :
      (t u : ℕ) (c d : Flight) (key : Bytes)
      → CommitAt y t c
      → CommitAt y u d
      → Writes c key
      → Writes d key
      → t < u
      → t ≤ d.snapshot

pub record Inv (y : System) : Type 0 where
  pub timestamps : TimestampsOk y
  pub snapshots : SnapshotsOk y
  pub intents : IntentsOk y
  pub versions : VersionsOk y
  pub serial : SerialOk y
