-- ===== src/Mvcc/Protocol/Serial.antt =====
-- First committer wins: what every interleaving of transactions keeps.
use quantadb.Prelude.{
  List, sym, subst, true, ℕ, ◌≤◌, ◌<◌, ◌≡◌, ◌⊎◌, inl, arith, length, Bool, false, some,
}
use quantadb.Prelude.Ord.{nat_ord}
use quantadb.Prelude.Map.{Map, lookup, insert}
use quantadb.Bytes.{Bytes}
use quantadb.Prelude.Result.{ok}
use quantadb.Mvcc.State.{State, versions_of, visible_version}
use quantadb.Mvcc.Commit
use quantadb.Mvcc.Commit.{Write, finish_prepared}
use quantadb.Mvcc.Commit.Finish.{begin-snapshot}
use quantadb.Mvcc.Commit.Publish.{contains, keys_of}
use quantadb.Mvcc.Commit.Prepare.{prepare_commit-Prepared, Prepared}
use quantadb.Mvcc.Protocol.{
  Grounded, Flight, System, Step, Reach, begin, prepare, publish, fail, finish, rebuild, here, next,
}
use quantadb.Mvcc.Protocol.Invariant.{SerialOk, Inv, FlightAt, CommitAt, Writes}
use quantadb.Mvcc.Protocol.Preservation.{Quiet-Inv, begin-Quiet, finish-Quiet, rebuilt-Inv}
use quantadb.Mvcc.Protocol.Preservation.Preparing.{launched-Inv}
use quantadb.Mvcc.Protocol.Preservation.Finishing.{
  flights_disjoint, Finished, landed, finished-TimestampsOk, finished-SnapshotsOk,
  finished-IntentsOk, finished-VersionsOk, published_known, published-SerialOk, failed-SerialOk,
  published-Finished, failed-Finished,
}

-- The invariant once a commit has ended, by what it wrote and by the history.
ended-Inv :
    (y : System) (t : ℕ) (f : Flight) (written : Bytes → Bool) (s : State) (history : Map ℕ Flight)
    → Inv y
    → FlightAt y t f
    → Finished y t f written s
    → ((u : ℕ) (c : Flight) (key : Bytes)
        → lookup history u ≡ some c
        → Writes c key
        → CommitAt y u c ⊎ ((u ≡ t) × (written key ≡ true)))
    → SerialOk (landed y t s history)
    → Inv (landed y t s history)
ended-Inv y t f written s history i flying d known serial = record {
  timestamps = finished-TimestampsOk y t f written s history i flying d;
  snapshots = finished-SnapshotsOk y t f written s history i flying d;
  intents = finished-IntentsOk y t f written s history i flying d;
  versions = finished-VersionsOk y t f written s history i flying d known;
  serial = serial;
}

launched_by :
    (y : System) (id snapshot : ℕ) (writes : List Write) (prefixes : List Bytes) (t : ℕ) (s : State)
    → lookup y.state.active id ≡ some snapshot
    → Grounded y id
    → Inv y
    → Prepared y.state id snapshot (keys_of writes) prefixes t s
    → Inv (record y {
      state = s;
      flights = insert y.flights t (record { id = id; snapshot = snapshot; writes = writes });
    })
launched_by y id snapshot writes prefixes t s active grounded i p =
    subst
      (λ u. Inv (record y {
        state = s;
        flights = insert y.flights u (record { id = id; snapshot = snapshot; writes = writes });
      }))
      (sym p.timestamp)
      (subst
        (λ r. Inv (record y {
          state = r;
          flights =
              insert y.flights y.state.next_commit_timestamp
                (record { id = id; snapshot = snapshot; writes = writes });
        }))
        (sym p.reserved) (launched-Inv y id snapshot writes prefixes active grounded i t p))

-- Every step keeps the invariant.
pub Step-Inv : {y z : System} → Step y z → Inv y → Inv z
Step-Inv (begin y h) i = Quiet-Inv y _ i (begin-Quiet y _ _ h i)
Step-Inv (prepare y id snapshot writes prefixes active grounded h) i =
    launched_by y id snapshot writes prefixes _ _ active grounded i
      (prepare_commit-Prepared y.state id snapshot (keys_of writes) prefixes _ _ h)
Step-Inv (publish y t f ids flying n h) i =
    ended-Inv y t f (contains (keys_of f.writes)) _ (insert y.history t f) i flying
      (published-Finished y t f ids i n h) (published_known y t f)
      (published-SerialOk y t f _ i flying)
Step-Inv (fail y t f flying) i =
    ended-Inv y t f (λ _. false) _ y.history i flying (failed-Finished y t f i)
      (λ u c key a w. inl a) (failed-SerialOk y t f _ i)
Step-Inv (finish y id g) i = Quiet-Inv y _ i (finish-Quiet y id g i)
Step-Inv (rebuild y g open_page) i = rebuilt-Inv y g open_page i

-- Whatever the interleaving of steps, the invariant is kept.
pub Reach-Inv : {y z : System} → Inv y → Reach y z → Inv z
Reach-Inv i here = i
Reach-Inv i (next r st) = Step-Inv st (Reach-Inv i r)

-- After any steps from a state with the invariant, as the empty one is: of two published commits that
-- wrote one key, the later was validated on a snapshot that holds the earlier. No update is lost.
pub no_lost_update :
    {y z : System} (t u : ℕ) (c d : Flight) (key : Bytes)
    → Inv y
    → Reach y z
    → CommitAt z t c
    → CommitAt z u d
    → Writes c key
    → Writes d key
    → t < u
    → t ≤ d.snapshot
no_lost_update t u c d key i r = (Reach-Inv i r).serial.before_commits t u c d key

-- After any steps from a state with the invariant, a transaction that begins while a commit is in
-- flight has a snapshot below the timestamp of that commit; and it sees of each key, once the commit is published with a page
-- for each write, what it saw before.
pub flights_unseen :
    {y z : System} {s' : State} (t : ℕ) (f : Flight) (id snapshot : ℕ) (page_ids : List ℕ)
    (key : Bytes)
    → Inv y
    → Reach y z
    → FlightAt z t f
    → Commit.begin z.state ≡ ok ((id, snapshot), s')
    → length f.writes ≤ length page_ids
    → (finish_prepared s' f.id t f.writes (some page_ids)).1 ≡ ok tt
    → (snapshot < t)
      × (visible_version
            (versions_of (finish_prepared s' f.id t f.writes (some page_ids)).0 key)
            snapshot
          ≡ visible_version (versions_of s' key) snapshot)
flights_unseen {z = z} {s' = s'} t f id snapshot page_ids key i r flying started n done =
    let j = Reach-Inv i r in
    let k = Step-Inv (Step.begin z started) j in
    let low : snapshot < t =
      omega
        (arith, begin-snapshot z.state id snapshot s' started, j.timestamps.pending t f flying) in
    (
      low,
      ((published-Finished (record z { state = s' }) t f page_ids k n done).grown key).seen snapshot
          low,
    )

-- After any steps from a state with the invariant, two commits that are in flight at once write
-- different keys.
pub flights_write_apart :
    {y z : System} (t u : ℕ) (f g : Flight) (key : Bytes)
    → Inv y
    → Reach y z
    → FlightAt z t f
    → FlightAt z u g
    → Writes f key
    → Writes g key
    → t ≡ u
flights_write_apart {z = z} t u f g key i r = flights_disjoint z t u f g key (Reach-Inv i r)
