-- ===== src/Mvcc/State.antt =====
-- mvcc/src/database.rs: `State`, the part of the database behind its one lock, and its methods.
-- Timestamps, transaction ids and page ids are numbers. A set is a map to `Unit`.
pub mod Watermark
pub mod Versions
pub mod Snapshots
use quantadb.Prelude.{
  ℕ, zero, suc, ◌+◌, ◌-◌, ◌^◌, Bool, true, false, Option, none, some, List, [], ◌∷◌, ◌++◌, ◌==◌,
  if◌then◌else◌, ◌&&◌, ◌||◌, not, length, take, drop, ltb, leb, get_elem?,
}
use quantadb.Prelude.Ord.{nat_ord, bytes_ord}
use quantadb.Prelude.Map.{Map, lookup, insert, remove}
use quantadb.Prelude.Seq.{
  find_last, rposition, partition_point, insert_at, last, is_some, is_some_and, or_default,
}
use quantadb.Bytes.{Bytes}

pub record Version : Type 0 where
  pub timestamp : ℕ
  pub value : Option Bytes
  pub page_id : ℕ

-- index/src/tree.rs
pub record IndexRoot : Type 0 where
  pub page_id : ℕ
  pub height : ℕ
  pub entries : ℕ

-- mvcc/src/index_manifest.rs
pub record IndexGeneration : Type 0 where
  pub timestamp : ℕ
  pub root : Option IndexRoot
  pub manifest_page_id : ℕ

pub record State : Type 0 where
  pub versions : Map Bytes (List Version)
  pub page_refs : Map ℕ ℕ
  pub intents : Map Bytes ℕ
  pub active : Map ℕ ℕ
  pub completed_timestamps : Map ℕ (Unit {0})
  pub next_transaction_id : ℕ
  pub next_commit_timestamp : ℕ
  pub visible_through : ℕ
  pub generations : List IndexGeneration
  pub dirty_keys : Map Bytes (Unit {0})
  pub reclaimed_versions : ℕ

-- `u64::checked_add(1)`
abbrev pub checked_suc : ℕ → Option ℕ
checked_suc n = if ltb (n + 1) (2 ^ 64) then some (n + 1) else none

-- The versions held of a key; a key that the map lacks has none.
abbrev pub versions_of : State → Bytes → List Version
versions_of s key = or_default (lookup s.versions key)

-- `versions.iter().rev().find(|version| version.timestamp <= snapshot)`
unfoldable pub visible_version : List Version → ℕ → Option Version
visible_version versions snapshot = find_last (λ v. leb v.timestamp snapshot) versions

pub latest_generation : State → Option IndexGeneration
latest_generation s = last s.generations

unfoldable pub generation_at : State → ℕ → Option IndexGeneration
generation_at s snapshot = find_last (λ g. leb g.timestamp snapshot) s.generations

-- `values().min()`
min_value : Map ℕ ℕ → Option ℕ
min_value [] = none
min_value ((k, v) ∷ m) = elim (min_value m) [
  | none ↦ some v
  | some w ↦ some (if leb v w then v else w)
]

pub oldest_active_snapshot : State → ℕ
oldest_active_snapshot s = elim (min_value s.active) [ some v ↦ v | none ↦ s.visible_through ]

-- `(a.timestamp, a.manifest_page_id) <= (b.timestamp, b.manifest_page_id)`
generation_le : IndexGeneration → IndexGeneration → Bool
generation_le a b =
    ltb a.timestamp b.timestamp
    || (a.timestamp == b.timestamp && leb a.manifest_page_id b.manifest_page_id)

generation_same : IndexGeneration → IndexGeneration → Bool
generation_same a b = a.timestamp == b.timestamp && a.manifest_page_id == b.manifest_page_id

-- The ring with one more generation in its place, unless it is there.
pub insert_generation : IndexGeneration → List IndexGeneration → List IndexGeneration
insert_generation generation generations =
    let position = partition_point (λ existing. generation_le existing generation) generations in
    let duplicate =
      not (position == 0)
      && is_some_and (get_elem? generations (position - 1)) (λ g. generation_same g generation) in
    if duplicate then generations else insert_at generations position generation

unfoldable pub publish_generation : IndexGeneration → State → State
publish_generation generation s = record s {
  generations = insert_generation generation s.generations;
}

-- The loop that moves the watermark over completed timestamps. A round removes a timestamp, so the
-- number of completed timestamps is fuel enough.
unfoldable pub advance_visible : ℕ → State → State
advance_visible zero s = s
advance_visible (suc fuel) s =
    let stepped = advance_visible fuel (record s {
      visible_through = s.visible_through + 1;
      completed_timestamps = remove s.completed_timestamps (s.visible_through + 1);
    }) in
    elim (checked_suc s.visible_through) [
      | none ↦ s
      | some next ↦ if is_some (lookup s.completed_timestamps next) then stepped else s
    ]

-- The end of `finish_prepared`: the timestamp is completed, and the watermark moves.
unfoldable pub complete : ℕ → State → State
complete timestamp s =
    let s = record s { completed_timestamps = insert s.completed_timestamps timestamp tt } in
    advance_visible (length s.completed_timestamps) s
