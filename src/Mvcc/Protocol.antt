-- ===== src/Mvcc/Protocol.antt =====
-- The transactions of mvcc/src/database.rs as interleaved steps on the shared `State`. A step is one
-- critical section of the source that changes the state: `begin`, `prepare_commit`,
-- `finish_prepared`, `end_transaction`, and the second one of `rebuild_index`; its first one, and the
-- reads of a transaction, only look at the state. Between `prepare_commit` and `finish_prepared` the
-- versions are written to storage, and between the two of `rebuild_index` the index is; any other step
-- may come between. A `finish_prepared` that fails, as a version list has its timestamp already, is
-- not a step.
pub mod Invariant
pub mod Preservation
pub mod Serial
pub mod Snapshot
use quantadb.Prelude.{ℕ, ◌≤◌, ◌≡◌, ◌≢◌, Option, none, some, List, length}
use quantadb.Prelude.Result.{ok}
use quantadb.Prelude.Ord.{nat_ord}
use quantadb.Prelude.Map.{Map, lookup, insert, remove}
use quantadb.Bytes.{Bytes}
use quantadb.Mvcc.State.{State, IndexGeneration}
use quantadb.Mvcc.Commit
use quantadb.Mvcc.Commit.{Write, prepare_commit, finish_prepared, end_transaction}
use quantadb.Mvcc.Commit.Publish.{keys_of}
use quantadb.Mvcc.Rebuild.{publish_rebuilt}

-- A commit, by what it was validated with.
pub record Flight : Type 0 where
  pub id : ℕ
  pub snapshot : ℕ
  pub writes : List Write

-- The state, the commits that are prepared and not finished, and, for the statements, those that
-- were published; both by commit timestamp.
pub record System : Type 0 where
  pub state : State
  pub flights : Map ℕ Flight
  pub history : Map ℕ Flight

-- A transaction is consumed by its commit: no other step of it overlaps the flight.
abbrev pub Grounded : System → ℕ → Type 0
Grounded y id = (t : ℕ) (f : Flight) → lookup y.flights t ≡ some f → f.id ≢ id

pub data Step : System → System → Type 0 where
  begin :
      (y : System) {started : ℕ × ℕ} {s' : State}
      → Commit.begin y.state ≡ ok (started, s')
      → Step y (record y { state = s' })
  prepare :
      (y : System) (id snapshot : ℕ) (writes : List Write) (prefixes : List Bytes) {t : ℕ}
      {s' : State}
      → lookup y.state.active id ≡ some snapshot
      → Grounded y id
      → prepare_commit y.state id snapshot (keys_of writes) prefixes ≡ ok (t, s')
      → Step y (record y {
        state = s';
        flights = insert y.flights t (record { id = id; snapshot = snapshot; writes = writes });
      })
  publish :
      (y : System) (t : ℕ) (f : Flight) (page_ids : List ℕ)
      → lookup y.flights t ≡ some f
      → length f.writes ≤ length page_ids
      → (finish_prepared y.state f.id t f.writes (some page_ids)).1 ≡ ok tt
      → Step y (record {
        state = (finish_prepared y.state f.id t f.writes (some page_ids)).0;
        flights = remove y.flights t;
        history = insert y.history t f;
      })
  fail :
      (y : System) (t : ℕ) (f : Flight)
      → lookup y.flights t ≡ some f
      → Step y (record y {
        state = (finish_prepared y.state f.id t f.writes none).0;
        flights = remove y.flights t;
      })
  finish :
      (y : System) (id : ℕ)
      → Grounded y id
      → Step y (record y { state = end_transaction y.state id })
  -- `publish_generation`, the retained dirty keys and `reclaim_covered`, under one lock. The
  -- generation is any: its timestamp was the watermark at the first critical section.
  rebuild :
      (y : System) (g : IndexGeneration) (open_page : Option ℕ)
      → Step y (record y { state = (publish_rebuilt g open_page y.state).0 })

pub data Reach (y : System) : System → Type 0 where
  here : Reach y y
  next : {z w : System} → Reach y z → Step z w → Reach y w
