-- ===== src/Mvcc/Rebuild/Dirty.antt =====
-- Which keys a rebuild leaves dirty.
use quantadb.Prelude.{
  ℕ, ◌≡◌, Bool, Option, none, List, [], ◌∷◌, if◌then◌else◌, ltb, arith, ap, ◌∙◌, Option-cases, inl,
  inr,
}
use quantadb.Prelude.Ord.{eq_of_same, bytes_ord}
use quantadb.Prelude.Map.{Map, lookup, Sorted}
use quantadb.Prelude.Seq.{keep, any, last}
use quantadb.Bytes.{Bytes}
use quantadb.Mvcc.State.{State, Version, IndexGeneration, versions_of, publish_generation}
use quantadb.Mvcc.State.Versions.{Ascending, newest, le_of_Above}
use quantadb.Mvcc.Reclaim.Laws.{reclaim_covered-Reclaimed}
use quantadb.Mvcc.Rebuild.{has_newer, retain_dirty, publish_rebuilt}

lookup-keep :
    (kept : Bytes → Bool) (m : Map Bytes (Unit {0})) (q : Bytes)
    → lookup (keep (λ entry. kept entry.0) m) q ≡ (if kept q then lookup m q else none)
unfolding lookup
lookup-keep kept [] q = ground arith
lookup-keep kept ((key, u) ∷ m) q = ground (arith, lookup-keep kept m q, eq_of_same key q)

-- After a rebuild at a timestamp a key is dirty exactly when it was dirty before and has a
-- version above the timestamp.
pub retain_dirty-dirty :
    (timestamp : ℕ) (s : State) (key : Bytes)
    → lookup (retain_dirty timestamp s).dirty_keys key
      ≡ (if has_newer s timestamp key then lookup s.dirty_keys key else none)
unfolding retain_dirty
retain_dirty-dirty timestamp s key = lookup-keep (has_newer s timestamp) s.dirty_keys key

retained_versions :
    (g : IndexGeneration) (s : State)
    → Sorted s.versions
    → Sorted (retain_dirty g.timestamp (publish_generation g s)).versions
unfolding retain_dirty publish_generation
retained_versions g s sorted = sorted

-- on an ascending list, the newest version is above a timestamp if any is
any-newest :
    (timestamp : ℕ) (vs : List Version)
    → Ascending vs
    → any (λ v. ltb timestamp v.timestamp) vs ≡ ltb timestamp (newest vs)
any-newest timestamp [] up = ground arith
any-newest timestamp (w ∷ vs) up = elim (Option-cases (last vs)) [
  | inl e ↦ ground (arith, any-newest timestamp vs up.1, e)
  | inr (u, e) ↦
      let above = le_of_Above w.timestamp vs u up.0 e in
      ground (arith, any-newest timestamp vs up.1, e, above)
]

-- After the second critical section of a rebuild, where the versions of a key ascend, the key is
-- dirty exactly when it was and its newest version is above the timestamp of the generation. The
-- reclamation behind it makes no key dirty or clean.
pub publish_rebuilt-dirty :
    (g : IndexGeneration) (open_page : Option ℕ) (s : State) (key : Bytes)
    → Sorted s.versions
    → Ascending (versions_of s key)
    → lookup (publish_rebuilt g open_page s).0.dirty_keys key
      ≡ (if ltb g.timestamp (newest (versions_of s key)) then lookup s.dirty_keys key else none)
unfolding publish_rebuilt publish_generation has_newer
publish_rebuilt-dirty g open_page s key sorted up =
    let before = publish_generation g s in
    let kept =
      (reclaim_covered-Reclaimed open_page (retain_dirty g.timestamp before)
        (retained_versions g s sorted)).dirty in
    ap (λ m. lookup m key) kept
    ∙ retain_dirty-dirty g.timestamp before key
    ∙ ap (λ b. if b then lookup s.dirty_keys key else none)
        (any-newest g.timestamp (versions_of s key) up)
