-- ===== src/Mvcc/Rebuild.antt =====
-- mvcc/src/database.rs: the two critical sections of `rebuild_index`, and `stats`.
pub mod Dirty
use quantadb.Prelude.{
  ◌==◌, ℕ, ◌+◌, Bool, true, false, Option, none, some, List, [], ◌∷◌, if◌then◌else◌, ltb, leb,
  length,
}
use quantadb.Prelude.Ord.{nat_ord, bytes_ord}
use quantadb.Prelude.Map.{Map, lookup}
use quantadb.Prelude.Seq.{any, keep}
use quantadb.Bytes.{Bytes}
use quantadb.Mvcc.State.{
  State, Version, IndexRoot, IndexGeneration, versions_of, visible_version, latest_generation,
  publish_generation,
}
use quantadb.Mvcc.Transaction.{current_index_entries}
use quantadb.Mvcc.Reclaim.{reclaim_covered}

-- index/src/tree.rs
pub data IndexMutation : Type 0 where
  upsert : Bytes → ℕ → IndexMutation
  delete : Bytes → IndexMutation

-- What the rebuild does to the index for the newest version of a key at the watermark.
abbrev pub mutation_for : ℕ → Bytes → Option Version → Option IndexMutation
mutation_for indexed key none = none
mutation_for indexed key (some newest) =
    if leb newest.timestamp indexed
    then none
    else some (elim newest.value [ none ↦ delete key | some _ ↦ upsert key newest.page_id ])

abbrev pub prepend_some {ℓ} : {A : Type ℓ} → Option A → List A → List A
prepend_some none rest = rest
prepend_some (some a) rest = a ∷ rest

-- The `filter_map` over the dirty keys.
unfoldable pub index_mutations : State → ℕ → ℕ → Map Bytes (Unit {0}) → List IndexMutation
index_mutations s timestamp indexed [] = []
index_mutations s timestamp indexed ((key, _) ∷ dirty) =
    prepend_some (mutation_for indexed key (visible_version (versions_of s key) timestamp))
      (index_mutations s timestamp indexed dirty)

-- What the first critical section finds: an index at the watermark already, no index yet, or an
-- index to edit.
pub data RebuildPlan : Type 0 where
  up_to_date : ℕ → Option IndexRoot → RebuildPlan
  build : ℕ → Map Bytes ℕ → RebuildPlan
  edit : ℕ → IndexGeneration → List IndexMutation → RebuildPlan

abbrev pub plan_from : State → Option IndexGeneration → RebuildPlan
plan_from s none = build s.visible_through (current_index_entries s.versions s.visible_through)
plan_from s (some g) =
    if g.timestamp == s.visible_through
    then up_to_date s.visible_through g.root
    else edit s.visible_through g (index_mutations s s.visible_through g.timestamp s.dirty_keys)

unfoldable pub plan_rebuild : State → RebuildPlan
plan_rebuild s = plan_from s (latest_generation s)

-- `versions.iter().any(|version| version.timestamp > timestamp)`
unfoldable pub has_newer : State → ℕ → Bytes → Bool
has_newer s timestamp key = any (λ v. ltb timestamp v.timestamp) (versions_of s key)

-- `dirty_keys.retain`
unfoldable pub retain_dirty : ℕ → State → State
retain_dirty timestamp s = record s {
  dirty_keys = keep (λ entry. has_newer s timestamp entry.0) s.dirty_keys;
}

-- The second critical section: the new state and the freed pages.
unfoldable pub publish_rebuilt : IndexGeneration → Option ℕ → State → State × List ℕ
publish_rebuilt generation open_page s =
    reclaim_covered open_page (retain_dirty generation.timestamp (publish_generation generation s))

-- The part of `MvccStats` that the state gives.
pub record Stats : Type 0 where
  pub visible_through : ℕ
  pub keys : ℕ
  pub versions : ℕ
  pub active_transactions : ℕ
  pub write_intents : ℕ
  pub indexed_through : Option ℕ
  pub index_height : Option ℕ
  pub indexed_keys : ℕ
  pub reclaimed_versions : ℕ

abbrev pub count_versions : Map Bytes (List Version) → ℕ
count_versions [] = 0
count_versions ((key, versions) ∷ m) = length versions + count_versions m

abbrev pub latest_root : Option IndexGeneration → Option IndexRoot
latest_root none = none
latest_root (some g) = g.root

unfoldable pub stats : State → Stats
stats s = record {
  visible_through = s.visible_through;
  keys = length s.versions;
  versions = count_versions s.versions;
  active_transactions = length s.active;
  write_intents = length s.intents;
  indexed_through = elim (latest_generation s) [ none ↦ none | some g ↦ some g.timestamp ];
  index_height = elim (latest_root (latest_generation s)) [ none ↦ none | some r ↦ some r.height ];
  indexed_keys = elim (latest_root (latest_generation s)) [ none ↦ 0 | some r ↦ r.entries ];
  reclaimed_versions = s.reclaimed_versions;
}
