-- ===== src/Mvcc/Read.antt =====
-- mvcc/src/database.rs: the reads of `Inner`. The index tree and the pages are an interface. The two
-- caches are left out: they keep decoded pages.
use quantadb.Prelude.{
  ℕ, Bool, true, false, Option, none, some, List, [], ◌∷◌, if◌then◌else◌, ◌&&◌, not, ltb, leb,
}
use quantadb.Prelude.Result.{ok, err, ensure, ◌>>=◌, ◌>>◌}
use quantadb.Prelude.Ord.{same, nat_ord, bytes_ord}
use quantadb.Prelude.Map.{Map}
use quantadb.Prelude.Seq.{keep}
use quantadb.Bytes.{Bytes}
use quantadb.Storage.Error.{StorageResult}
use quantadb.Storage.Page.{Page}
use quantadb.Index.Error.{IndexResult}
use quantadb.Mvcc.Error.{
  MvccResult, Reason, storage, index, corrupt_record, absent_version_page, non_mvcc_page,
  no_visible_version,
}
use quantadb.Mvcc.Record.{VersionRecord, decode_page}
use quantadb.Mvcc.State.{
  State, IndexRoot, IndexGeneration, versions_of, visible_version, generation_at,
}

-- `BPlusTree::get`, `BPlusTree::range` without a limit, and `GroupCommitHandle::read_page`.
pub record Reader : Type 0 where
  pub tree_get : IndexRoot → Bytes → IndexResult (Option ℕ)
  pub tree_range : IndexRoot → Bytes → Option Bytes → IndexResult (Map Bytes ℕ)
  pub read_page : ℕ → StorageResult (Option Page)

abbrev pub from_storage {ℓ} : {A : Type ℓ} → StorageResult A → MvccResult A
from_storage (ok a) = ok a
from_storage (err e) = err (storage e)

abbrev pub from_index {ℓ} : {A : Type ℓ} → IndexResult A → MvccResult A
from_index (ok a) = ok a
from_index (err e) = err (index e)

-- `ok_or_else(|| corrupt)`
abbrev pub or_corrupt {ℓ} : {A : Type ℓ} → ℕ → Reason → Option A → MvccResult A
or_corrupt page_id reason none = err (corrupt_record page_id reason)
or_corrupt page_id reason (some a) = ok a

-- `max_by_key(|record| record.timestamp)`: of equal keys the last.
unfoldable pub newest_record : List VersionRecord → Option VersionRecord
newest_record [] = none
newest_record (r ∷ rs) = elim (newest_record rs) [
  | none ↦ some r
  | some best ↦ some (if ltb best.timestamp r.timestamp then r else best)
]

-- `decode_page` never runs out of its fuel.
unfoldable pub page_records : ℕ → Bytes → MvccResult (List VersionRecord)
page_records page_id payload = elim (decode_page page_id payload) [ none ↦ ok [] | some r ↦ r ]

abbrev pub is_empty {ℓ} : {A : Type ℓ} → List A → Bool
is_empty [] = true
is_empty (x ∷ xs) = false

-- `generation_at(snapshot).and_then(|generation| generation.root)`
abbrev pub root_at : Option IndexGeneration → Option IndexRoot
root_at none = none
root_at (some g) = g.root

module _ (reader : Reader) where
  unfoldable pub read_index_version : ℕ → Bytes → ℕ → MvccResult (Option Bytes)
  read_index_version page_id key snapshot = do
    found ← from_storage (reader.read_page page_id)
    page ← or_corrupt page_id absent_version_page found
    records ← page_records page_id page.payload
    ensure (not (is_empty records)) (corrupt_record page_id non_mvcc_page)
    visible ←
        or_corrupt page_id no_visible_version
          (newest_record (keep (λ r. same r.key key && leb r.timestamp snapshot) records))
    ok visible.value

  -- what the tree has for a key
  unfoldable pub read_entry : Option ℕ → Bytes → ℕ → MvccResult (Option Bytes)
  read_entry none key snapshot = ok none
  read_entry (some page_id) key snapshot = read_index_version page_id key snapshot

  unfoldable pub read_indexed : Option IndexRoot → Bytes → ℕ → MvccResult (Option Bytes)
  read_indexed none key snapshot = ok none
  read_indexed (some root) key snapshot = do
    page_id ← from_index (reader.tree_get root key)
    read_entry page_id key snapshot

  -- `Inner::read`
  unfoldable pub read : State → Bytes → ℕ → MvccResult (Option Bytes)
  read s key snapshot = elim (visible_version (versions_of s key) snapshot) [
    | some version ↦ ok version.value
    | none ↦ read_indexed (root_at (generation_at s snapshot)) key snapshot
  ]
