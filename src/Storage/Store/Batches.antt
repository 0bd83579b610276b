-- ===== src/Storage/Store/Batches.antt =====
-- storage/src/store.rs: the batches of page replacements and page appends, and the reads of pages.
pub mod Reads
use quantadb.Prelude.{
  ℕ, zero, suc, ◌+◌, ◌-◌, ◌^◌, Bool, true, false, Option, none, some, List, [], ◌∷◌, ◌++◌, ◌==◌,
  ◌&&◌, if◌then◌else◌, length, ltb, min, max,
}
use quantadb.Prelude.Result.{Result, ok, err, ◌>>=◌, and_then}
use quantadb.Prelude.Ord.{nat_ord}
use quantadb.Prelude.Map.{Map, lookup, insert, remove}
use quantadb.Prelude.Seq.{is_some, any}
use quantadb.Bytes.{Bytes, checked_add}
use quantadb.Storage.Error.{StorageResult, StorageError, page_too_large, configuration, poisoned}
use quantadb.Storage.Page
use quantadb.Storage.Page.{Page, max_page_payload}
use quantadb.Storage.DataFile
use quantadb.Storage.DataFile.{read}
use quantadb.Storage.Wal.{Wal, append_page, append_page_tail, append_batch_commit}
use quantadb.Storage.Store.{DurableStore, PageAllocator, PageWrite, PageAppend}
use quantadb.Storage.Store.Allocator.{reserve, release, note_written}
use quantadb.Storage.Store.Replay.{splice, payload_of}

-- the store after an operation, poisoned where the operation failed
abbrev pub poison_on_error {ℓ} :
    {A : Type ℓ} → DurableStore × StorageResult A → DurableStore × StorageResult A
poison_on_error (s, ok a) = (s, ok a)
poison_on_error (s, err e) = (record s { poisoned = true }, err e)

unfoldable pub reserve_page_ids : DurableStore → ℕ → DurableStore × StorageResult (List ℕ)
reserve_page_ids s count =
    if s.poisoned
    then (s, err poisoned)
    else (record s { allocator = (reserve s.allocator count).0 }, (reserve s.allocator count).1)

unfoldable pub release_pages : DurableStore → List ℕ → DurableStore
release_pages s pages = record s { allocator = release s.allocator pages }

-- `Page::new` of each write, for its check only
unfoldable pub check_writes : List PageWrite → StorageResult (Unit {0})
check_writes [] = ok tt
check_writes (w ∷ ws) = Page.new w.page_id w.payload >>= λ page. check_writes ws

-- A page that a batch committed, in the dirty table and in the flush queue.
unfoldable pub store_page : DurableStore → Page → DurableStore
store_page s page = record s {
  dirty = insert s.dirty page.id page;
  flush_queue = s.flush_queue ++ page.id ∷ [];
  allocator = note_written s.allocator page.id;
}

unfoldable pub store_writes :
    DurableStore → List PageWrite → List ℕ → DurableStore × StorageResult (Unit {0})
store_writes s [] lsns = (s, ok tt)
store_writes s (w ∷ ws) [] = (s, ok tt)
store_writes s (w ∷ ws) (lsn ∷ lsns) = elim (Page.with_lsn w.page_id lsn w.payload) [
  | err e ↦ (s, err e)
  | ok page ↦ store_writes (store_page s page) ws lsns
]

-- The last append of each page decides its LSN.
unfoldable pub newest_lsns : Map ℕ ℕ → List PageAppend → List ℕ → Map ℕ ℕ
newest_lsns newest [] lsns = newest
newest_lsns newest (a ∷ appends) [] = newest
newest_lsns newest (a ∷ appends) (lsn ∷ lsns) =
    newest_lsns (insert newest a.page_id lsn) appends lsns

abbrev pub or_zero : Option ℕ → ℕ
or_zero none = 0
or_zero (some n) = n

-- `sealed.contains(&page_id)`
abbrev pub is_sealed : List PageAppend → ℕ → Bool
is_sealed [] page_id = false
is_sealed (a ∷ appends) page_id =
    if a.page_id == page_id && a.sealed then true else is_sealed appends page_id

-- A sealed page goes to the flush queue; another stays open.
unfoldable pub store_grown_page : DurableStore → Bool → Page → DurableStore
store_grown_page s sealed page =
    let queued =
      if sealed
      then record s {
        open_pages = remove s.open_pages page.id;
        flush_queue = s.flush_queue ++ page.id ∷ [];
      }
      else record s { open_pages = insert s.open_pages page.id tt } in
    record queued {
      dirty = insert s.dirty page.id page;
      allocator = note_written s.allocator page.id;
    }

unfoldable pub store_grown :
    DurableStore → List PageAppend → Map ℕ ℕ → Map ℕ Bytes → DurableStore × StorageResult (Unit {0})
store_grown s appends newest [] = (s, ok tt)
store_grown s appends newest ((page_id, payload) ∷ grown) =
    elim (Page.with_lsn page_id (or_zero (lookup newest page_id)) payload) [
      | err e ↦ (s, err e)
      | ok page ↦
          store_grown (store_grown_page s (is_sealed appends page_id) page) appends newest grown
    ]

module _ (crc : Bytes → ℕ) where
  unfoldable pub read_page : DurableStore → ℕ → StorageResult (Option Page)
  read_page s page_id = elim (lookup s.dirty page_id) [
    | some page ↦ ok (some page)
    | none ↦ read crc s.data_file page_id
  ]

  -- The writes of a batch in the log.
  unfoldable pub log_writes : Wal → List PageWrite → Wal × StorageResult (List ℕ)
  log_writes w [] = (w, ok [])
  log_writes w (write ∷ writes) =
      and_then (append_page crc w write.page_id write.payload)
        λ w lsn. and_then (log_writes w writes) λ w lsns. (w, ok (lsn ∷ lsns))

  unfoldable pub log_appends : Wal → List PageAppend → Wal × StorageResult (List ℕ)
  log_appends w [] = (w, ok [])
  log_appends w (a ∷ appends) =
      and_then (append_page_tail crc w a.page_id a.offset a.payload)
        λ w lsn. and_then (log_appends w appends) λ w lsns. (w, ok (lsn ∷ lsns))

  -- A batch in the log, with the commit behind it.
  unfoldable pub log_batch :
      DurableStore → ℕ → Wal × StorageResult (List ℕ) → DurableStore × StorageResult (List ℕ)
  log_batch s page_count logged =
      let (w, done) =
        and_then logged
          λ w lsns. and_then (append_batch_commit crc w page_count) λ w lsn. (w, ok lsns) in
      (record s { wal = w }, done)

  unfoldable pub write_pages_inner :
      DurableStore → List PageWrite → DurableStore × StorageResult (List ℕ)
  write_pages_inner s writes =
      and_then (log_batch s (length writes) (log_writes s.wal writes))
        λ s lsns. and_then (store_writes s writes lsns) λ s done. (s, ok lsns)

  unfoldable pub write_pages_with :
      DurableStore → List PageWrite → DurableStore × StorageResult (List ℕ)
  write_pages_with s writes = if s.poisoned then (s, err poisoned) else elim (check_writes writes) [
    | err e ↦ (s, err e)
    | ok checked ↦ elim writes [
      | [] ↦ (s, ok [])
      | w ∷ ws ↦ poison_on_error (write_pages_inner s (w ∷ ws))
    ]
  ]

  abbrev pub single_lsn : DurableStore → List ℕ → DurableStore × StorageResult ℕ
  single_lsn s [] = (s, err configuration)
  single_lsn s (lsn ∷ lsns) = (s, ok lsn)

  unfoldable pub write_page : DurableStore → ℕ → Bytes → DurableStore × StorageResult ℕ
  write_page s page_id payload =
      and_then (write_pages_with s (record { page_id = page_id; payload = payload } ∷ []))
        single_lsn

  abbrev pub write_first : Bytes → DurableStore → List ℕ → DurableStore × StorageResult ℕ
  write_first payload s [] = (s, err configuration)
  write_first payload s (page_id ∷ page_ids) =
      and_then (write_page s page_id payload) λ s lsn. (s, ok page_id)

  unfoldable pub allocate_page : DurableStore → Bytes → DurableStore × StorageResult ℕ
  allocate_page s payload =
      and_then (record s { allocator = (reserve s.allocator 1).0 }, (reserve s.allocator 1).1)
        (write_first payload)

  -- What a page holds before an append.
  unfoldable pub base_of : DurableStore → ℕ → StorageResult Bytes
  base_of s page_id = elim (lookup s.dirty page_id) [
    | some page ↦ ok page.payload
    | none ↦ read crc s.data_file page_id >>= λ page. ok (payload_of page)
  ]

  abbrev pub target_of : DurableStore → Map ℕ Bytes → ℕ → StorageResult Bytes
  target_of s grown page_id = elim (lookup grown page_id) [
    | some payload ↦ ok payload
    | none ↦ base_of s page_id
  ]

  unfoldable pub grow_page : DurableStore → Map ℕ Bytes → PageAppend → StorageResult (Map ℕ Bytes)
  grow_page s grown a = target_of s grown a.page_id >>= λ target.
      elim (checked_add a.offset (length a.payload)) [
        | none ↦ err (page_too_large (2 ^ 64 - 1) max_page_payload)
        | some end ↦
            if ltb max_page_payload end
            then err (page_too_large end max_page_payload)
            else ok (insert grown a.page_id (splice target a.offset a.payload))
      ]

  unfoldable pub grow_pages :
      DurableStore → Map ℕ Bytes → List PageAppend → StorageResult (Map ℕ Bytes)
  grow_pages s grown [] = ok grown
  grow_pages s grown (a ∷ appends) = grow_page s grown a >>= λ grown. grow_pages s grown appends

  unfoldable pub append_pages_inner :
      DurableStore → List PageAppend → DurableStore × StorageResult (List ℕ)
  append_pages_inner s appends = elim (grow_pages s [] appends) [
    | err e ↦ (s, err e)
    | ok grown ↦ and_then (log_batch s (length appends) (log_appends s.wal appends)) λ s lsns.
        and_then (store_grown s appends (newest_lsns [] appends lsns) grown) λ s done. (s, ok lsns)
  ]

  unfoldable pub append_pages :
      DurableStore → List PageAppend → DurableStore × StorageResult (List ℕ)
  append_pages s [] = (s, ok [])
  append_pages s (a ∷ appends) =
      if s.poisoned then (s, err poisoned) else poison_on_error (append_pages_inner s (a ∷ appends))

  abbrev pub writes_of_batch : DurableStore → List PageWrite → DurableStore × StorageResult (List ℕ)
  writes_of_batch s [] = (s, ok [])
  writes_of_batch s (w ∷ ws) = write_pages_inner s (w ∷ ws)

  abbrev pub appends_of_batch :
      DurableStore → List PageAppend → DurableStore × StorageResult (List ℕ)
  appends_of_batch s [] = (s, ok [])
  appends_of_batch s (a ∷ appends) = append_pages_inner s (a ∷ appends)

  unfoldable pub apply_batch :
      DurableStore
      → List PageWrite
      → List PageAppend
      → DurableStore × StorageResult (List ℕ × List ℕ)
  apply_batch s writes appends =
      if s.poisoned
      then (s, err poisoned)
      else poison_on_error (
          and_then (writes_of_batch s writes) λ s write_lsns.
            and_then (appends_of_batch s appends)
              λ s append_lsns. (s, ok (write_lsns, append_lsns)))

abbrev pub end_of_pages : Map ℕ Page → ℕ
end_of_pages [] = 0
end_of_pages ((page_id, page) ∷ dirty) = max (min (page_id + 1) (2 ^ 64 - 1)) (end_of_pages dirty)

unfoldable pub page_count : DurableStore → ℕ
page_count s = max (DataFile.page_count s.data_file) (end_of_pages s.dirty)
