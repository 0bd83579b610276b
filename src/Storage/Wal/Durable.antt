-- ===== src/Storage/Wal/Durable.antt =====
-- storage/src/wal.rs: appends of records that are framed with at most the maximum payload.
use quantadb.Prelude.{
  ℕ, ◌+◌, ◌≤◌, ◌<◌, ◌≡◌, refl, Bool, true, false, Option, some, List, [], ◌∷◌, ◌++◌, not, length,
  arith, ap, ◌∙◌, sym, subst, append_assoc, Option-cases, inl, inr,
}
use quantadb.Prelude.Result.{ok, Result-cases}
use quantadb.Bytes.{Bytes, checked_add}
use quantadb.Storage.Error.{StorageResult}
use quantadb.Storage.Page.{max_page_payload}
use quantadb.Storage.Log.{WalKind, WalRecord, framed, header_of}
use quantadb.Storage.Log.Frame.{IsKind, IsRecord, image}
use quantadb.Storage.Log.Recovery.{Increasing, AllRecords, images}
use quantadb.Storage.Wal.{Segment, Wal, segment, append, push_record, append_record}
use quantadb.Storage.Wal.Segments.{Logged, append_record-Logged}
use quantadb.Storage.Wal.Order.{
  images-append, Increasing-append, AllRecords-append, Below-append, Below,
}

module _ (crc : Bytes → ℕ) where
  -- `old` are the records of the segment that is not active and `new` those of the active one; in
  -- memory they are one list of increasing LSNs.
  pub record Durable (w : Wal) (old new : List WalRecord) : Type 0 where
    pub older : Logged (images crc old) (segment w (not w.active))
    pub newer : Logged (images crc new) (segment w w.active)
    pub records : w.records ≡ old ++ new
    pub increasing : Increasing 0 (old ++ new)
    pub all : AllRecords (old ++ new)
    pub below : Below w.next_lsn (old ++ new)
    pub positive : 0 < w.next_lsn

  -- the record of an append in the active segment and in memory
  extended :
      (w w' : Wal) (old new : List WalRecord) (r : WalRecord)
      → Durable w old new
      → IsRecord r
      → r.lsn ≡ w.next_lsn
      → Logged (images crc old) (segment w' (not w'.active))
      → Logged (images crc new ++ image crc r) (segment w' w'.active)
      → w'.records ≡ w.records ++ r ∷ []
      → w'.next_lsn ≡ w.next_lsn + 1
      → Durable w' old (new ++ r ∷ [])
  extended w w' old new r d v e o l k n = record {
    older = o;
    newer = subst (λ t. Logged t (segment w' w'.active)) (sym (images-append crc new r)) l;
    records = k ∙ ap (λ t. t ++ r ∷ []) d.records ∙ append_assoc old new (r ∷ []);
    increasing =
        subst (λ t. Increasing 0 t) (append_assoc old new (r ∷ []))
          (Increasing-append 0 (old ++ new) r d.increasing
            (subst (λ m. Below m (old ++ new)) (sym e) d.below) (omega (arith, e, d.positive)));
    all =
        subst (λ t. AllRecords t) (append_assoc old new (r ∷ []))
          (AllRecords-append (old ++ new) r d.all v);
    below =
        subst (λ t. Below w'.next_lsn t) (append_assoc old new (r ∷ []))
          (subst (λ m. Below m ((old ++ new) ++ r ∷ [])) (sym n)
            (Below-append w.next_lsn (old ++ new) r d.below e));
    positive = omega (arith, n);
  }

  pushed-Durable :
      (first second : Segment) (active : Bool) (retired : Option Bool)
      (records old new : List WalRecord) (next : ℕ) (kind : WalKind) (s : Segment)
      → Durable
          (record {
            first = first;
            second = second;
            active = active;
            retired = retired;
            records = records;
            next_lsn = next;
          })
          old
          new
      → IsRecord (record { lsn = next; kind = kind })
      → Logged (images crc new ++ image crc (record { lsn = next; kind = kind })) s
      → Durable
          (push_record crc
            (record {
              first = first;
              second = second;
              active = active;
              retired = retired;
              records = records;
              next_lsn = next + 1;
            })
            (record { lsn = next; kind = kind })
            (ok s)).0
          old
          (new ++ record { lsn = next; kind = kind } ∷ [])
  pushed-Durable first second false retired records old new next kind s d v l =
      extended _ _ old new (record { lsn = next; kind = kind }) d v refl d.older l refl refl
  pushed-Durable first second true retired records old new next kind s d v l =
      extended _ _ old new (record { lsn = next; kind = kind }) d v refl d.older l refl refl

  -- On a log of records that are framed with at most the maximum payload, an append of a kind with
  -- fields in range, framed with at most the maximum payload, that returns adds its record to the
  -- active segment and to the records in memory, with the LSN that it returns.
  pub append-Durable :
      (w : Wal) (old new : List WalRecord) (kind : WalKind) (w' : Wal) (lsn : ℕ)
      → Durable w old new
      → IsKind kind
      → length (framed kind) ≤ max_page_payload
      → append crc w kind ≡ (w', ok lsn)
      → Durable w' old (new ++ record { lsn = lsn; kind = kind } ∷ [])
  unfolding append image
  append-Durable w old new kind w' lsn d k short h =
      elim (Option-cases (checked_add w.next_lsn 1)) [
        | inl e ↦ ground (arith, e)
        | inr (next, e) ↦
            elim (Result-cases
              (append_record (segment w w.active) (header_of crc r) (framed kind))) [
                | inr (x, g) ↦ ground (arith, e, g)
                | inl (s, g) ↦ moved s e g (
                    pushed-Durable w.first w.second w.active w.retired w.records old new w.next_lsn
                      kind s d
                      (record {
                        positive = d.positive;
                        lsn_u64 = ground (arith, e);
                        kind = k;
                        short = short;
                      })
                      (append_record-Logged (segment w w.active) (images crc new) (header_of crc r)
                        (framed kind) s d.newer g))
              ]
      ]
    where
      r : WalRecord
      r = record { lsn = w.next_lsn; kind = kind }

      same_lsn : {m n : ℕ} → ◌≡◌ {A = StorageResult ℕ} (ok m) (ok n) → m ≡ n
      same_lsn e = ground arith

      moved :
          (s : Segment) {next : ℕ}
          → checked_add w.next_lsn 1 ≡ some next
          → append_record (segment w w.active) (header_of crc r) (framed kind) ≡ ok s
          → Durable
              (push_record crc (record w { next_lsn = w.next_lsn + 1 }) r (ok s)).0
              old
              (new ++ r ∷ [])
          → Durable w' old (new ++ record { lsn = lsn; kind = kind } ∷ [])
      moved s e g q =
          let done : push_record crc (record w { next_lsn = w.next_lsn + 1 }) r (ok s)
              ≡ (w', ok lsn) =
            ground (arith, e, g, h) in
          subst (λ n. Durable w' old (new ++ record { lsn = n; kind = kind } ∷ []))
            (same_lsn (ap (λ (o : Wal × StorageResult ℕ). o.1) done))
            (subst (λ t. Durable t old (new ++ r ∷ []))
              (ap (λ (o : Wal × StorageResult ℕ). o.0) done) q)
