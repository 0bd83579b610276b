-- ===== src/Mvcc/Protocol/Snapshot.antt =====
-- Repeatable reads: what a step leaves of what a running transaction sees.
use quantadb.Prelude.{ℕ, ◌≤◌, ◌≡◌, ◌⊎◌, inl, inr, some, refl, ap, sym, ◌∙◌, Option, List, [], arith}
use quantadb.Prelude.Ord.{nat_ord, bytes_ord}
use quantadb.Prelude.Map.{lookup}
use quantadb.Bytes.{Bytes}
use quantadb.Mvcc.State.{
  State, IndexGeneration, versions_of, visible_version, generation_at, oldest_active_snapshot,
  publish_generation,
}
use quantadb.Mvcc.State.Versions.{newest}
use quantadb.Mvcc.State.Snapshots.{
  le_of_AllValues, oldest_active_snapshot-le, oldest_active_snapshot-same,
}
use quantadb.Mvcc.Commit.{start_transaction, end_transaction, reserve}
use quantadb.Mvcc.Commit.Finish.{begin-eq-ok}
use quantadb.Mvcc.Commit.Publish.{keys_of}
use quantadb.Mvcc.Commit.Prepare.{prepare_commit-Prepared}
use quantadb.Mvcc.Reclaim
use quantadb.Mvcc.Reclaim.Laws.{reclaim_covered-Reclaimed}
use quantadb.Mvcc.Protocol.{System, Step, begin, prepare, publish, fail, finish, rebuild}
use quantadb.Mvcc.Rebuild.{publish_rebuilt, retain_dirty}
use quantadb.Mvcc.Protocol.Invariant.{Inv}
use quantadb.Mvcc.Protocol.Preservation.{indexed-Inv}
use quantadb.Mvcc.Protocol.Preservation.Finishing.{published-Finished, failed-Finished}

-- What a snapshot sees of a key is what it saw, or the key has left the map and a generation that
-- the snapshot reaches covers its last version.
abbrev pub SeenBy : ℕ → Bytes → State → State → Type 0
SeenBy snapshot key s s' =
    (visible_version (versions_of s' key) snapshot ≡ visible_version (versions_of s key) snapshot)
    ⊎ ((g : IndexGeneration) × (generation_at s' (oldest_active_snapshot s) ≡ some g)
        × (newest (versions_of s key) ≤ g.timestamp)
        × (g.timestamp ≤ snapshot)
        × (versions_of s' key ≡ []))

unchanged :
    (snapshot : ℕ) (key : Bytes) (s s' : State)
    → s'.versions ≡ s.versions
    → SeenBy snapshot key s s'
unchanged snapshot key s s' e = inl (rw e)

start_versions : (s : State) → (start_transaction s).versions ≡ s.versions
unfolding start_transaction
start_versions s = refl

end_versions : (s : State) (id : ℕ) → (end_transaction s id).versions ≡ s.versions
unfolding end_transaction
end_versions s id = refl

reserve_versions :
    (s : State) (id : ℕ) (keys : List Bytes) → (reserve s id keys).versions ≡ s.versions
unfolding reserve
reserve_versions s id keys = refl

reclaim_seen :
    (y : System) (protect : Option ℕ) (id snapshot : ℕ) (key : Bytes)
    → Inv y
    → lookup y.state.active id ≡ some snapshot
    → SeenBy snapshot key y.state (Reclaim.reclaim_covered protect y.state).0
reclaim_seen y protect id snapshot key i active =
    let low = oldest_active_snapshot-le y.state id snapshot active in
    elim ((reclaim_covered-Reclaimed protect y.state i.versions.sorted).keys key) [
      | inl k ↦ inl (k.seen snapshot low)
      | inr k ↦ inr (k.generation, k.covering, k.covers, omega (arith, k.reachable), k.gone)
    ]

rebuild_seen :
    (y : System) (g : IndexGeneration) (open_page : Option ℕ) (id snapshot : ℕ) (key : Bytes)
    → Inv y
    → lookup y.state.active id ≡ some snapshot
    → SeenBy snapshot key y.state (publish_rebuilt g open_page y.state).0
unfolding publish_rebuilt publish_generation retain_dirty
rebuild_seen y g open_page id snapshot key i active =
    let s = retain_dirty g.timestamp (publish_generation g y.state) in
    rw (sym (oldest_active_snapshot-same y.state s refl refl))
      (reclaim_seen (record y { state = s }) open_page id snapshot key (indexed-Inv y g i) active)

-- On a state with the invariant, a transaction that runs while any step is taken sees of each key
-- what it saw before, or the key was reclaimed, and then the newest generation that the snapshots in use reach covers its last version.
pub repeatable_reads :
    {y z : System} (id snapshot : ℕ) (key : Bytes)
    → Inv y
    → Step y z
    → lookup y.state.active id ≡ some snapshot
    → SeenBy snapshot key y.state z.state
repeatable_reads id snapshot key i (begin y h) a =
    unchanged snapshot key y.state _
      (ap (λ (s : State). s.versions) (begin-eq-ok y.state _ _ h) ∙ start_versions y.state)
repeatable_reads id snapshot key i (prepare y id' snapshot' writes prefixes active grounded h) a =
    let p = prepare_commit-Prepared y.state id' snapshot' (keys_of writes) prefixes _ _ h in
    unchanged snapshot key y.state _
      (ap (λ (s : State). s.versions) p.reserved ∙ reserve_versions y.state id' (keys_of writes))
repeatable_reads id snapshot key i (publish y t f ids flying n h) a = inl (
    ((published-Finished y t f ids i n h).grown key).seen snapshot (
      omega (
        arith,
        le_of_AllValues y.state.visible_through y.state.active id snapshot
            i.snapshots.active_visible a,
        i.timestamps.pending t f flying,
      )))
repeatable_reads id snapshot key i (fail y t f flying) a = inl (
    ((failed-Finished y t f i).grown key).seen snapshot (
      omega (
        arith,
        le_of_AllValues y.state.visible_through y.state.active id snapshot
            i.snapshots.active_visible a,
        i.timestamps.pending t f flying,
      )))
repeatable_reads id snapshot key i (finish y id' g) a =
    unchanged snapshot key y.state _ (end_versions y.state id')
repeatable_reads id snapshot key i (rebuild y g open_page) a =
    rebuild_seen y g open_page id snapshot key i a
