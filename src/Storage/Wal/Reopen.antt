-- ===== src/Storage/Wal/Reopen.antt =====
-- storage/src/wal.rs: what a log gives when it is opened again.
use mathlib.Core.Path.{ap₂}
use quantadb.Prelude.{
  ℕ, ◌^◌, ◌≤◌, ◌<◌, ◌≡◌, refl, Bool, true, false, Option, none, some, List, [], ◌∷◌, ◌++◌, length,
  arith, ap, ◌∙◌, sym, append-nil, inr,
}
use quantadb.Bytes.{Bytes}
use quantadb.Storage.Page.{max_page_payload}
use quantadb.Storage.Log.{page_append, WalRecord, scan, stop_marker}
use quantadb.Storage.Log.Frame.{image}
use quantadb.Storage.Log.Recovery.{Increasing, AllRecords, images, scan-images, scan-oversized}
use quantadb.Storage.Wal.{
  Segment, Wal, append_page_tail, append, open_segment, open_wal, join_records, seal_garbage,
  scanned,
}
use quantadb.Storage.Wal.Segments.{Logged}
use quantadb.Storage.Wal.Order.{
  Increasing-left, Increasing-right, AllRecords-left, AllRecords-right, seam,
}
use quantadb.Storage.Wal.Durable.{Durable}

module _ (crc : Bytes → ℕ) where
  open_segment-Logged :
      ((bytes : Bytes) → crc bytes < 2 ^ 32)
      → (s : Segment) (rs : List WalRecord) → Logged (images crc rs) s
      → Increasing 0 rs
      → AllRecords rs
      → (open_segment crc s.file).1 ≡ rs
  unfolding open_segment
  open_segment-Logged crc_u32 s rs l i v =
      ap (λ f. (scanned (scan crc f)).0) l.bytes
      ∙ ap (λ o. (scanned o).0)
          (scan-images crc crc_u32 rs (stop_marker ++ l.tail) i v (inr (l.tail, refl)))

  join-ordered :
      (old new : List WalRecord)
      → Increasing 0 (old ++ new)
      → ((join_records old new).0 ≡ old ++ new) × ((join_records new old).0 ≡ old ++ new)
  unfolding join_records
  join-ordered [] [] i = (refl, refl)
  join-ordered [] (b ∷ new) i = (refl, refl)
  join-ordered (a ∷ old) [] i = (sym (append-nil (a ∷ old)), sym (append-nil (a ∷ old)))
  join-ordered (a ∷ old) (b ∷ new) i =
      let meets = seam 0 (a ∷ old) b new i in
      let after = ordered a old b new i in
      (ground (arith, meets, after), ground (arith, meets, after))
    where
      ordered :
          (a : WalRecord) (old : List WalRecord) (b : WalRecord) (new : List WalRecord)
          → Increasing 0 ((a ∷ old) ++ b ∷ new)
          → a.lsn < b.lsn
      ordered a old b new i = (Increasing-right a.lsn old (b ∷ new) i.1).0

  -- Reopening the files of a log whose records are all framed with at most the maximum payload, in
  -- both segments, with increasing LSNs, finds the records that were in memory, in order.
  pub open-records :
      ((bytes : Bytes) → crc bytes < 2 ^ 32)
      → (w : Wal) (old new : List WalRecord) → Durable crc w old new
      → (open_wal crc w.first.file w.second.file).records ≡ w.records
  unfolding open_wal
  open-records crc_u32 w old new d =
      opened w.first w.second w.active w.retired w.records w.next_lsn d
    where
      kept : (garbage : Option Bool) (w : Wal) → (seal_garbage garbage w).records ≡ w.records
      kept none w = refl
      kept (some false) w = refl
      kept (some true) w = refl

      opened :
          (first second : Segment) (active : Bool) (retired : Option Bool)
          (records : List WalRecord) (next : ℕ)
          → Durable crc
              (record {
                first = first;
                second = second;
                active = active;
                retired = retired;
                records = records;
                next_lsn = next;
              })
              old
              new
          → (open_wal crc first.file second.file).records ≡ records
      opened first second false retired records next d =
          kept _ _
          ∙ ap₂ (λ a b. (join_records a b).0)
              (open_segment-Logged crc_u32 first new d.newer
                (Increasing-right 0 old new d.increasing) (AllRecords-right old new d.all))
              (open_segment-Logged crc_u32 second old d.older
                (Increasing-left 0 old new d.increasing) (AllRecords-left old new d.all))
          ∙ (join-ordered old new d.increasing).1
          ∙ sym d.records
      opened first second true retired records next d =
          kept _ _
          ∙ ap₂ (λ a b. (join_records a b).0)
              (open_segment-Logged crc_u32 first old d.older
                (Increasing-left 0 old new d.increasing) (AllRecords-left old new d.all))
              (open_segment-Logged crc_u32 second new d.newer
                (Increasing-right 0 old new d.increasing) (AllRecords-right old new d.all))
          ∙ (join-ordered old new d.increasing).0
          ∙ sym d.records

  -- A page append of 8125 to 8128 bytes is logged like any other, but with its offset it is framed
  -- with more than the maximum payload: a scan of the file stops in front of it, and finds neither
  -- that record nor any record behind it.
  pub append_page_tail-oversized :
      ((bytes : Bytes) → crc bytes < 2 ^ 32)
      → (w : Wal) (page_id offset lsn : ℕ) (payload rest : Bytes) (rs : List WalRecord)
      → 8124 < length payload
      → length payload ≤ max_page_payload
      → Increasing 0 rs
      → AllRecords rs
      → (append_page_tail crc w page_id offset payload
          ≡ append crc w (page_append page_id offset payload))
        × (scan crc (
              images crc rs
              ++ (image crc (record { lsn = lsn; kind = page_append page_id offset payload })
                  ++ rest))
            ≡ some (rs, length (images crc rs)))
  unfolding append_page_tail
  append_page_tail-oversized crc_u32 w page_id offset lsn payload rest rs large fits i v = (
    ground arith,
    scan-oversized crc crc_u32 rs (record { lsn = lsn; kind = page_append page_id offset payload })
        rest i v (omega arith) (omega arith),
  )
