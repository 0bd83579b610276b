-- ===== src/Mvcc/Reclaim.antt =====
-- mvcc/src/database.rs: `State::reclaim_covered`, the sweep over versions and generations.
pub mod Sweeping
pub mod Laws
use quantadb.Prelude.{
  ℕ, zero, suc, ◌+◌, ◌-◌, Bool, true, false, Option, none, some, List, [], ◌∷◌, ◌++◌, ◌==◌,
  if◌then◌else◌, ◌&&◌, not, length, take, drop, leb, map,
}
use quantadb.Prelude.Ord.{nat_ord, bytes_ord}
use quantadb.Prelude.Map.{Map, lookup, insert, remove}
use quantadb.Prelude.Seq.{rposition, is_some, is_some_and}
use quantadb.Bytes.{Bytes}
use quantadb.Mvcc.State.{State, Version, IndexGeneration, generation_at, oldest_active_snapshot}

-- What the closure `release` and the counter of the sweep change.
pub record Sweep : Type 0 where
  pub page_refs : Map ℕ ℕ
  pub freed : List ℕ
  pub reclaimed : ℕ

-- `protect != Some(page_id)`, and then `freed.push(page_id)`
push_freed : Option ℕ → ℕ → List ℕ → List ℕ
push_freed protect page_id freed =
    if is_some_and protect (λ p. p == page_id) then freed else freed ++ page_id ∷ []

-- The closure `release`: a page is free when the last of its versions goes.
pub release : Option ℕ → ℕ → Sweep → Sweep
release protect page_id w = elim (lookup w.page_refs page_id) [
  | none ↦ w
  | some count ↦
      if count - 1 == 0
      then record w {
        page_refs = remove w.page_refs page_id;
        freed = push_freed protect page_id w.freed;
      }
      else record w { page_refs = insert w.page_refs page_id (count - 1) }
]

pub release_all : Option ℕ → List Version → Sweep → Sweep
release_all protect [] w = w
release_all protect (v ∷ vs) w = release_all protect vs (release protect v.page_id w)

-- The versions in front of the newest that the oldest active snapshot sees.
pub superseded : ℕ → List Version → ℕ
superseded oldest_active vs = elim (rposition (λ v. leb v.timestamp oldest_active) vs) [
  | none ↦ 0
  | some i ↦ i
]

-- `key_versions.len() == 1 && key_versions[0].timestamp <= cover`
pub fully_covered : Option ℕ → List Version → Bool
fully_covered none vs = false
fully_covered (some cover) [] = false
fully_covered (some cover) (v ∷ []) = leb v.timestamp cover
fully_covered (some cover) (v ∷ w ∷ vs) = false

-- Whether the closure of `retain` keeps a key with the versions that are left of it.
pub retains : State → Option ℕ → Bytes → List Version → Bool
retains s cover key vs = not (
    fully_covered cover vs
    && not (is_some (lookup s.dirty_keys key))
    && not (is_some (lookup s.intents key)))

-- What `retain` makes of the versions of a key.
pub swept : State → ℕ → Option ℕ → Bytes → List Version → Option (List Version)
swept s oldest_active cover key vs =
    let left = drop (superseded oldest_active vs) vs in
    if retains s cover key left then some left else none

-- What that does to the pages and the counter.
pub count_swept : Option ℕ → ℕ → List Version → Bool → Sweep → Sweep
count_swept protect oldest_active vs kept w =
    let n = superseded oldest_active vs in
    let released = release_all protect (take n vs) w in
    record released { reclaimed = released.reclaimed + n + (if kept then 0 else 1) }

abbrev pub prepend_kept :
    Bytes → Option (List Version) → Map Bytes (List Version) → Map Bytes (List Version)
prepend_kept key none rest = rest
prepend_kept key (some vs) rest = (key, vs) ∷ rest

-- The pass of `retain` over the entries. The state `s` is that before the sweep.
pub sweep :
    State
    → Option ℕ
    → ℕ
    → Option ℕ
    → Map Bytes (List Version)
    → Sweep
    → Map Bytes (List Version) × Sweep
sweep s protect oldest_active cover [] w = ([], w)
sweep s protect oldest_active cover ((key, vs) ∷ m) w =
    let left = swept s oldest_active cover key vs in
    let (rest, w') =
      sweep s protect oldest_active cover m
        (count_swept protect oldest_active vs (is_some left) w) in
    (prepend_kept key left rest, w')

-- The generations in front of the newest at or below the oldest active snapshot.
pub unreachable_generations : State → ℕ
unreachable_generations s =
    elim (rposition (λ g. leb g.timestamp (oldest_active_snapshot s)) s.generations) [
      | none ↦ 0
      | some i ↦ i
    ]

-- `self.generations.drain(..cover_position)`
pub prune_generations : State → State
prune_generations s = record s { generations = drop (unreachable_generations s) s.generations }

-- The timestamp of the covering generation.
pub cover_of : State → ℕ → Option ℕ
cover_of s oldest_active = elim (generation_at s oldest_active) [
  | none ↦ none
  | some g ↦ some g.timestamp
]

-- The manifest pages of the drained generations are freed first.
pub start_sweep : State → Sweep
start_sweep s = record {
  page_refs = s.page_refs;
  freed = map (λ g. g.manifest_page_id) (take (unreachable_generations s) s.generations);
  reclaimed = s.reclaimed_versions;
}

-- The new state and the pages that nothing refers to any more.
pub reclaim_covered : Option ℕ → State → State × List ℕ
reclaim_covered protect s =
    let oldest_active = oldest_active_snapshot s in
    let pruned = prune_generations s in
    let cover = cover_of pruned oldest_active in
    let (versions, w) = sweep s protect oldest_active cover s.versions (start_sweep s) in
    (
      record pruned {
        versions = versions;
        page_refs = w.page_refs;
        reclaimed_versions = w.reclaimed;
      },
      w.freed,
    )
