-- ===== src/Storage/Wal/Reset.antt =====
-- storage/src/wal.rs: what a log that a checkpoint has reset holds.
use mathlib.Core.Path.{ap₂}
use quantadb.Bytes.Slices.{length-write_at}
use quantadb.Storage.Wal.Segments.{overlay_lem}
use quantadb.Prelude.{
  ℕ, ◌+◌, ◌^◌, ◌<◌, ◌≡◌, refl, Bool, true, false, Option, some, none, List, [], ◌∷◌, ◌++◌, length,
  arith, ap, ◌∙◌, subst, ltb, Option-cases, Bool-cases, inl, inr, drop,
}
use quantadb.Prelude.Result.{ok, Result-cases}
use quantadb.Bytes.{Bytes, write_at, checked_add}
use quantadb.Storage.Error.{StorageResult}
use quantadb.Storage.Log.{WalKind, WalRecord, stop_marker, header_of, framed, wal_header_size}
use quantadb.Storage.Log.Frame.{length-header_of}
use quantadb.Storage.Log.Recovery.{scan-images, Ends}
use quantadb.Storage.Wal.{
  Segment, Wal, segment, append, append_record, place, grow, fill_ahead, seal, scanned,
  open_segment, open_wal, join_records, seal_garbage, reset_segment, reset_after_checkpoint,
  put_segment,
}

append_record-positive :
    (s s' : Segment) (header payload : Bytes)
    → 0 < length header
    → append_record s header payload ≡ ok s'
    → 0 < s'.end_offset
unfolding append_record place fill_ahead
append_record-positive s s' header payload positive h =
    elim (Option-cases (checked_add s.end_offset (length header + length payload))) [
      | inl e ↦ ground (arith, e, h)
      | inr (n, e) ↦ elim (Result-cases (grow s needed)) [
        | inr (x, g) ↦ ground (arith, e, g, h)
        | inl (file, g) ↦
            subst (λ t. 0 < t.end_offset) (one (rw (e, g, append_record) at h))
              (omega (arith, positive))
      ]
    ]
  where
    needed : ℕ
    needed = s.end_offset + (length header + length payload) + length stop_marker

    one : {t u : Segment} → ◌≡◌ {A = StorageResult Segment} (ok t) (ok u) → t ≡ u
    one e = cc

module _ (crc : Bytes → ℕ) (crc_u32 : (bytes : Bytes) → crc bytes < 2 ^ 32) where
  -- Opened again, the segment holds no record.
  abbrev pub IsBlank : Segment → Type 0
  IsBlank s = (open_segment crc s.file).1 ≡ []

  -- Each segment whose log ends at offset 0 is blank, as `seal` leaves one.
  abbrev pub SparesBlank : Wal → Type 0
  SparesBlank w = (index : Bool) → (segment w index).end_offset ≡ 0 → IsBlank (segment w index)

  marked-Ends : (file : Bytes) → Ends (write_at file 0 stop_marker)
  marked-Ends file = elim (Bool-cases (ltb (length file) 4)) [
    | inl e ↦ inl (ground (arith, e, length-write_at file 0 stop_marker))
    | inr e ↦ inr (drop 4 file, overlay_lem stop_marker file (ground (arith, e)))
  ]

  seal-IsBlank : (s : Segment) → IsBlank (seal s)
  unfolding seal open_segment
  seal-IsBlank s =
      ap (λ o. (scanned o).0)
        (scan-images crc crc_u32 [] (write_at s.file 0 stop_marker) tt tt (marked-Ends s.file))

  put-SparesBlank :
      (w : Wal) (active : Bool) (s : Segment) (records : List WalRecord)
      → SparesBlank w
      → 0 < s.end_offset
      → SparesBlank (record (put_segment w active s) { records = records })
  put-SparesBlank w false s records spare h false e = absurd (omega (arith, h, e))
  put-SparesBlank w false s records spare h true e = spare true e
  put-SparesBlank w true s records spare h false e = spare false e
  put-SparesBlank w true s records spare h true e = absurd (omega (arith, h, e))

  pub append-SparesBlank :
      (w w' : Wal) (kind : WalKind) (lsn : ℕ)
      → SparesBlank w
      → append crc w kind ≡ (w', ok lsn)
      → SparesBlank w'
  unfolding append
  append-SparesBlank w w' kind lsn spare h = elim (Option-cases (checked_add w.next_lsn 1)) [
    | inl e ↦ ground (arith, e, h)
    | inr (next, e) ↦ elim (Bool-cases (ltb (wal_header_size + length (framed kind)) (2 ^ 32))) [
      | inr f ↦ ground (arith, e, f, h)
      | inl f ↦
          elim (Result-cases (append_record (segment w w.active) (header_of crc r) (framed kind))) [
            | inr (x, g) ↦ ground (arith, e, f, g, h)
            | inl (s, g) ↦
                subst SparesBlank
                  (ap (λ (o : Wal × StorageResult ℕ). o.0) (rw (e, f, g, append) at h))
                  (put-SparesBlank (record w { next_lsn = w.next_lsn + 1 }) w.active s
                    (w.records ++ r ∷ []) spare
                    (append_record-positive (segment w w.active) s (header_of crc r) (framed kind)
                      (omega (arith, length-header_of crc r)) g))
          ]
    ]
  ]
    where
      r : WalRecord
      r = record { lsn = w.next_lsn; kind = kind }

  reset_segment-IsBlank :
      (s : Segment)
      → (s.end_offset ≡ 0 → IsBlank s)
      → ((reset_segment s).end_offset ≡ 0) × IsBlank (reset_segment s)
  unfolding seal
  reset_segment-IsBlank s spare = elim (Bool-cases (ltb 0 s.end_offset)) [
    | inl e ↦ rw e (refl, seal-IsBlank s)
    | inr e ↦ rw e (ground (arith, e), spare (ground (arith, e)))
  ]

  -- A log that holds nothing, in memory or in its files.
  pub record IsEmpty (w : Wal) : Type 0 where
    pub records : w.records ≡ []
    pub retired : w.retired ≡ none
    pub ends : (index : Bool) → (segment w index).end_offset ≡ 0
    pub blank : (index : Bool) → IsBlank (segment w index)
    pub reopened : (open_wal crc w.first.file w.second.file).records ≡ []

  opened-nil :
      (first second : Segment)
      → IsBlank first
      → IsBlank second
      → (open_wal crc first.file second.file).records ≡ []
  unfolding open_wal join_records
  opened-nil first second a b = kept _ _ ∙ ap₂ (λ x y. (join_records x y).0) a b
    where
      kept : (garbage : Option Bool) (w : Wal) → (seal_garbage garbage w).records ≡ w.records
      kept none w = refl
      kept (some false) w = refl
      kept (some true) w = refl

  pub reset_after_checkpoint-IsEmpty :
      (w : Wal) → SparesBlank w → IsEmpty (reset_after_checkpoint w)
  unfolding reset_after_checkpoint
  reset_after_checkpoint-IsEmpty w spare =
      let (first_end, first_blank) = reset_segment-IsBlank w.first (spare false) in
      let (second_end, second_blank) = reset_segment-IsBlank w.second (spare true) in
      record {
        records = refl;
        retired = refl;
        ends = λ index. elim index as (λ k. (segment (reset_after_checkpoint w) k).end_offset ≡ 0) [
          | false ↦ first_end
          | true ↦ second_end
        ];
        blank = λ index. elim index as (λ k. IsBlank (segment (reset_after_checkpoint w) k)) [
          | false ↦ first_blank
          | true ↦ second_blank
        ];
        reopened =
            opened-nil (reset_segment w.first) (reset_segment w.second) first_blank second_blank;
      }
