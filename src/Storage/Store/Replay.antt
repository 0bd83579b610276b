-- ===== src/Storage/Store/Replay.antt =====
-- storage/src/store.rs: what a log commits, and its replay onto the data file.
pub mod Atomicity
use quantadb.Prelude.{
  ℕ, zero, suc, ◌+◌, ◌-◌, ◌^◌, Bool, true, false, Option, none, some, List, [], ◌∷◌, ◌++◌,
  if◌then◌else◌, length, take, drop, ltb, leb, min, max,
}
use quantadb.Prelude.Result.{Result, ok, err, ◌>>=◌}
use quantadb.Prelude.Seq.{rposition, is_some_and}
use quantadb.Bytes.{Bytes, zeroes, write_at}
use quantadb.Storage.Error.{
  StorageResult, StorageError, corrupt_page, corrupt_wal, unexpected_checkpoint,
  batch_declares_too_many,
}
use quantadb.Storage.Page
use quantadb.Storage.Page.{Page}
use quantadb.Storage.DataFile.{read, write, page_count}
use quantadb.Storage.Log.{WalKind, WalRecord, page_image, page_append, batch_commit, checkpoint}
use quantadb.Storage.Wal.{is_checkpoint}

-- bytes at an offset, with zeroes in a gap before them
unfoldable pub splice : Bytes → ℕ → Bytes → Bytes
splice base offset bytes =
    write_at (base ++ zeroes (offset + length bytes - length base)) offset bytes

pub record CommittedWrite : Type 0 where
  pub lsn : ℕ
  pub page_id : ℕ
  pub payload : Bytes
  pub append_at : Option ℕ

-- One record of the loop: what is pending, and what is committed.
unfoldable pub commit_step :
    List CommittedWrite
    → List CommittedWrite
    → WalRecord
    → StorageResult (List CommittedWrite × List CommittedWrite)
commit_step pending committed r = elim r.kind [
  | page_image page_id payload ↦ ok (
    pending ++ record { lsn = r.lsn; page_id = page_id; payload = payload; append_at = none } ∷ [],
    committed,
  )
  | page_append page_id offset payload ↦ ok (
    pending
        ++ record { lsn = r.lsn; page_id = page_id; payload = payload; append_at = some offset }
          ∷ [],
    committed,
  )
  | batch_commit page_count ↦
      if ltb (length pending) page_count
      then err (corrupt_wal 0 batch_declares_too_many)
      else ok ([], committed ++ drop (length pending - page_count) pending)
  | checkpoint ↦ err (corrupt_wal 0 unexpected_checkpoint)
]

unfoldable pub commit_from :
    List CommittedWrite → List CommittedWrite → List WalRecord → StorageResult (List CommittedWrite)
commit_from pending committed [] = ok committed
commit_from pending committed (r ∷ rs) =
    commit_step pending committed r >>= λ (next : List CommittedWrite × List CommittedWrite).
    commit_from next.0 next.1 rs

unfoldable pub after_checkpoint : List WalRecord → List WalRecord
after_checkpoint rs = elim (rposition is_checkpoint rs) [ none ↦ rs | some i ↦ drop (suc i) rs ]

unfoldable pub committed_page_images : List WalRecord → StorageResult (List CommittedWrite)
committed_page_images rs = commit_from [] [] (after_checkpoint rs)

abbrev pub payload_of : Option Page → Bytes
payload_of none = []
payload_of (some page) = page.payload

abbrev pub replayed : Option Page → CommittedWrite → Bytes
replayed current w = elim w.append_at [
  | none ↦ w.payload
  | some offset ↦ splice (payload_of current) offset w.payload
]

module _ (crc : Bytes → ℕ) where
  -- A page that reads as corrupt is replayed like one that is missing.
  unfoldable pub current_page : Bytes → ℕ → StorageResult (Option Page)
  current_page file page_id = elim (read crc file page_id) [
    | ok page ↦ ok page
    | err (corrupt_page id reason) ↦ ok none
    | err e ↦ err e
  ]

  -- One round of the loop of `recover`: a page that carries the change already is skipped.
  unfoldable pub replay_one : Bytes → CommittedWrite → StorageResult Bytes
  replay_one file w = current_page file w.page_id >>= λ current.
      (if is_some_and current (λ page. leb w.lsn page.lsn)
        then ok file
        else (Page.with_lsn w.page_id w.lsn (replayed current w) >>= λ page. write crc file page))

  unfoldable pub replay : Bytes → List CommittedWrite → StorageResult Bytes
  replay file [] = ok file
  replay file (w ∷ ws) = replay_one file w >>= λ next. replay next ws

  unfoldable pub recover : Bytes → List WalRecord → StorageResult Bytes
  recover file rs = committed_page_images rs >>= λ ws. replay file ws

abbrev pub end_of_writes : List CommittedWrite → ℕ
end_of_writes [] = 0
end_of_writes (w ∷ ws) = max (min (w.page_id + 1) (2 ^ 64 - 1)) (end_of_writes ws)

unfoldable pub calculate_next_page_id : Bytes → List WalRecord → StorageResult ℕ
calculate_next_page_id file rs =
    committed_page_images rs >>= λ ws. ok (max (page_count file) (end_of_writes ws))
