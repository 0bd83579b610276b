-- ===== src/Storage/Log/Recovery.antt =====
-- What a scan recovers: the records that were appended, in order, and no others.
use quantadb.Prelude.{
  ℕ, zero, suc, ◌+◌, ◌≤◌, ◌<◌, ◌≡◌, refl, Bool, true, false, Option, none, some, List, [], ◌∷◌,
  ◌++◌, ◌==◌, length, take, drop, ltb, ◌%◌, arith, ap, ◌∙◌, sym, length-append, append_assoc,
  append-nil, ◌^◌, Option-cases, inl, inr, ◌⊎◌, if◌then◌else◌, not, ◌&&◌, ◌||◌, leb, subst,
  length-drop, length-take, get_or,
}
use quantadb.Bytes.{Bytes, zeroes, slice, read_u16, read_u32, read_u64, bytes_eq}
use quantadb.Bytes.Slices.{drop-length_append}
use quantadb.Bytes.Fields.{from_le-to_le_32}
use quantadb.Storage.Page.{max_page_payload}
use quantadb.Storage.Log.{
  WalKind, WalRecord, framed, kind_from, with_lsn, read_record, record_checksum, fits, scan_from,
  scan, wal_header_size, wal_magic, header_of, blank_header,
}
use quantadb.Storage.Log.Frame.{IsRecord, image, read_record-image, length-header_of}

-- The records carry increasing LSNs above a bound.
abbrev pub Increasing : ℕ → List WalRecord → Type 0
Increasing previous [] = Unit
Increasing previous (r ∷ rs) = (previous < r.lsn) × Increasing r.lsn rs

abbrev pub AllRecords : List WalRecord → Type 0
AllRecords [] = Unit
AllRecords (r ∷ rs) = IsRecord r × AllRecords rs

-- What ends a scan: fewer bytes than a header, or a stop marker.
abbrev pub Ends : Bytes → Type 0
Ends rest = (length rest < 40) ⊎ ((tail : Bytes) × (rest ≡ zeroes 4 ++ tail))

-- A test that does not end the round.
passed :
    {A : Type 0} (b : Bool) (x : Option A) {a : A}
    → (if b then none else x) ≡ some a
    → (b ≡ false) × (x ≡ some a)
passed true x h = cc
passed false x h = (refl, h)

with_lsn-some :
    (lsn : ℕ) (k : Option WalKind) (r : WalRecord) → with_lsn lsn k ≡ some r → r.lsn ≡ lsn
with_lsn-some lsn none r h = cc
with_lsn-some lsn (some k) r h = ground arith

-- A kind is framed with as many bytes as it was read from.
kind_from-length :
    (type page_id : ℕ) (payload : Bytes) (k : WalKind)
    → kind_from type page_id payload ≡ some k
    → length (framed k) ≡ length payload
unfolding kind_from
kind_from-length type page_id payload k h = ground (arith, length-drop 4 payload)

with_lsn-kind :
    (lsn type page_id : ℕ) (payload : Bytes) (r : WalRecord)
    → with_lsn lsn (kind_from type page_id payload) ≡ some r
    → length (framed r.kind) ≡ length payload
with_lsn-kind lsn type page_id payload r h = elim (Option-cases (kind_from type page_id payload)) [
  | inl e ↦ ground (arith, e)
  | inr (k, e) ↦ ground (arith, e, kind_from-length type page_id payload k e)
]

length-slice : (n : ℕ) (bytes : Bytes) → 40 + n ≤ length bytes → length (slice 40 n bytes) ≡ n
length-slice n bytes h = ground (arith, length-take n (drop 40 bytes), length-drop 40 bytes)

module _ (crc : Bytes → ℕ) where
  abbrev pub images : List WalRecord → Bytes
  images [] = []
  images (r ∷ rs) = image crc r ++ images rs

  pub length-image : (r : WalRecord) → length (image crc r) ≡ 40 + length (framed r.kind)
  unfolding image
  length-image r =
      length-append (header_of crc r) (framed r.kind)
      ∙ ap (λ n. n + length (framed r.kind)) (length-header_of crc r)

  read_record-Ends :
      (previous : ℕ) (rest : Bytes) → Ends rest → read_record crc previous rest ≡ none
  unfolding read_record
  read_record-Ends previous rest (inl h) = ground arith
  read_record-Ends previous rest (inr (tail, e)) = rw e (ground arith)

  scan_from-next :
      (fuel previous : ℕ) (file : Bytes) (offset : ℕ) (r : WalRecord)
      → read_record crc previous (drop offset file) ≡ some r
      → (rs : List WalRecord) (end : ℕ)
      → scan_from crc fuel r.lsn file (offset + (40 + length (framed r.kind))) ≡ some (rs, end)
      → scan_from crc (suc fuel) previous file offset ≡ some (r ∷ rs, end)
  unfolding scan_from
  scan_from-next fuel previous file offset r h rs end e = rw (h, e, scan_from) refl

  scan_from-stop :
      (fuel previous : ℕ) (file : Bytes) (offset : ℕ)
      → read_record crc previous (drop offset file) ≡ none
      → scan_from crc (suc fuel) previous file offset ≡ some ([], offset)
  unfolding scan_from
  scan_from-stop fuel previous file offset h = rw (h, scan_from) refl

  scan_from-images :
      ((bytes : Bytes) → crc bytes < 2 ^ 32)
      → (fuel previous : ℕ) (done : Bytes) (rs : List WalRecord) (rest : Bytes) → length rs < fuel
      → Increasing previous rs
      → AllRecords rs
      → ((p : ℕ) → read_record crc p rest ≡ none)
      → scan_from crc fuel previous (done ++ (images rs ++ rest)) (length done)
        ≡ some (rs, length (done ++ images rs))
  scan_from-images crc_u32 zero previous done rs rest h i v e = absurd (omega arith)
  scan_from-images crc_u32 (suc fuel) previous done [] rest h i v e =
      scan_from-stop fuel previous (done ++ rest) (length done)
        (ap (λ b. read_record crc previous b) (drop-length_append done rest) ∙ e previous)
      ∙ ap (λ (b : Bytes). some ([], length b)) (sym (append-nil done))
  scan_from-images crc_u32 (suc fuel) previous done (r ∷ rs) rest h i v e =
      subst
        (λ file.
          scan_from crc (suc fuel) previous file (length done)
          ≡ some (r ∷ rs, length (done ++ (image crc r ++ images rs))))
        (sym (regroup (image crc r) (images rs)))
        (scan_from-next fuel previous ((done ++ image crc r) ++ (images rs ++ rest)) (length done) r
          (ap (λ b. read_record crc previous b) (at_record (image crc r) (images rs))
            ∙ read_record-image crc crc_u32 previous r (images rs ++ rest) i.0 v.0)
          rs (length (done ++ (image crc r ++ images rs)))
          (ap (λ n. scan_from crc fuel r.lsn ((done ++ image crc r) ++ (images rs ++ rest)) n)
              advance
            ∙ scan_from-images crc_u32 fuel r.lsn (done ++ image crc r) rs rest (omega arith) i.1
                v.1 e
            ∙ ap (λ (b : Bytes). some (rs, length b))
                (append_assoc done (image crc r) (images rs))))
    where
      regroup : (a b : Bytes) → done ++ ((a ++ b) ++ rest) ≡ (done ++ a) ++ (b ++ rest)
      regroup a b =
          ap (λ t. done ++ t) (append_assoc a b rest) ∙ sym (append_assoc done a (b ++ rest))

      at_record : (a b : Bytes) → drop (length done) ((done ++ a) ++ (b ++ rest)) ≡ a ++ (b ++ rest)
      at_record a b =
          ap (λ t. drop (length done) t) (append_assoc done a (b ++ rest))
          ∙ drop-length_append done (a ++ (b ++ rest))

      advance : length done + (40 + length (framed r.kind)) ≡ length (done ++ image crc r)
      advance = omega (arith, length-append done (image crc r), length-image r)

  count : (rs : List WalRecord) → length rs ≤ length (images rs)
  count [] = omega arith
  count (r ∷ rs) = omega (arith, count rs, length-append (image crc r) (images rs), length-image r)

  -- A file that begins with framed records of increasing LSNs, and then ends or has a stop marker, is
  -- scanned to those records, whatever follows the marker, and the log ends behind the last of them.
  pub scan-images :
      ((bytes : Bytes) → crc bytes < 2 ^ 32)
      → (rs : List WalRecord) (rest : Bytes) → Increasing 0 rs
      → AllRecords rs
      → Ends rest
      → scan crc (images rs ++ rest) ≡ some (rs, length (images rs))
  unfolding scan
  scan-images crc_u32 rs rest i v e =
      scan_from-images crc_u32 (suc (length (images rs ++ rest))) 0 [] rs rest
        (omega (arith, count rs, length-append (images rs) rest)) i v
        (λ p. read_record-Ends p rest e)

  read_record_lem :
      (previous : ℕ) (bytes : Bytes) (r : WalRecord)
      → read_record crc previous bytes ≡ some r
      → (previous < r.lsn) × (40 + length (framed r.kind) ≤ length bytes)
  unfolding read_record fits
  read_record_lem previous bytes r h =
      let header = take wal_header_size bytes in
      let payload = slice wal_header_size (read_u32 header 12) bytes in
      let (long, h1) = passed (ltb (length bytes) wal_header_size) _ h in
      let (m, h2) = passed (not (bytes_eq (slice 0 4 header) wal_magic)) _ h1 in
      let (v, h3) = passed (not (read_u16 header 4 == 1)) _ h2 in
      let (f, h4) =
        passed (not (fits crc (read_u32 header 8) (read_u32 header 12) (length bytes))) _ h3 in
      let (c, h5) = passed (not (read_u32 header 32 == record_checksum crc header payload)) _ h4 in
      let (l, h6) = passed (read_u64 header 16 == 0 || leb (read_u64 header 16) previous) _ h5 in
      later (length bytes) (read_u64 header 16) r.lsn (read_u32 header 8) (read_u32 header 12)
        (length (framed r.kind)) l (with_lsn-some _ _ r h6) f
        (with_lsn-kind (read_u64 header 16) (get_or header 6 0) (read_u64 header 24) payload r h6)
        (length-slice (read_u32 header 12) bytes)
    where
      later :
          (left lsn lsn' total n m : ℕ) {s : ℕ}
          → (lsn == 0 || leb lsn previous) ≡ false
          → lsn' ≡ lsn
          → not (total == 40 + n && not (ltb max_page_payload n) && not (ltb left total)) ≡ false
          → m ≡ s
          → (40 + n ≤ left → s ≡ n)
          → (previous < lsn') × (40 + m ≤ left)
      later left lsn lsn' total n m b e f g k = ground arith

  -- Whatever a file holds, the records of its scan have positive, increasing LSNs.
  scan_from-Increasing :
      (fuel previous : ℕ) (file : Bytes) (offset : ℕ) (rs : List WalRecord) (end : ℕ)
      → scan_from crc fuel previous file offset ≡ some (rs, end)
      → Increasing previous rs
  unfolding scan_from
  scan_from-Increasing zero previous file offset rs end h = cc
  scan_from-Increasing (suc fuel) previous file offset rs end h =
      elim (Option-cases (read_record crc previous (drop offset file))) [
        | inl e ↦ ground (arith, e)
        | inr (r, e) ↦
            elim (Option-cases
              (scan_from crc fuel r.lsn file (offset + (40 + length (framed r.kind))))) [
                | inl g ↦ ground (arith, e, g)
                | inr ((rs', end'), g) ↦ ground (
                  arith,
                  e,
                  g,
                  read_record_lem previous (drop offset file) r e,
                  scan_from-Increasing fuel r.lsn file (offset + (40 + length (framed r.kind))) rs'
                      end' g,
                )
              ]
      ]

  pub scan-Increasing :
      (file : Bytes) (rs : List WalRecord) (end : ℕ)
      → scan crc file ≡ some (rs, end)
      → Increasing 0 rs
  unfolding scan
  scan-Increasing file rs end h = scan_from-Increasing (suc (length file)) 0 file 0 rs end h

  scan_from_total :
      (fuel previous : ℕ) (file : Bytes) (offset : ℕ)
      → offset ≤ length file
      → length file < fuel + offset
      → (found : List WalRecord × ℕ) × (scan_from crc fuel previous file offset ≡ some found)
  unfolding scan_from
  scan_from_total zero previous file offset p h = absurd (omega arith)
  scan_from_total (suc fuel) previous file offset p h =
      elim (Option-cases (read_record crc previous (drop offset file))) [
        | inl e ↦ (([], offset), rw (e, scan_from) refl)
        | inr (r, e) ↦
            let fitting = read_record_lem previous (drop offset file) r e in
            let (found, g) =
              scan_from_total fuel r.lsn file (offset + (40 + length (framed r.kind)))
                (omega (arith, fitting, length-drop offset file))
                (omega (arith, fitting, length-drop offset file)) in
            ((r ∷ found.0, found.1), scan_from-next fuel previous file offset r e found.0 found.1 g)
      ]

  -- The fuel is enough: every file is scanned.
  pub scan_total : (file : Bytes) → (found : List WalRecord × ℕ) × (scan crc file ≡ some found)
  unfolding scan
  scan_total file = scan_from_total (suc (length file)) 0 file 0 (omega arith) (omega arith)

  read_record-oversized :
      (previous : ℕ) (r : WalRecord) (rest : Bytes)
      → max_page_payload < length (framed r.kind)
      → length (framed r.kind) < 2 ^ 32
      → read_record crc previous (image crc r ++ rest) ≡ none
  unfolding read_record fits image header_of blank_header
  read_record-oversized previous r rest large u =
      rw (from_le-to_le_32 (length (framed r.kind) % 2 ^ 32) (omega arith)) (ground (arith, small))
    where
      small : length (framed r.kind) % 2 ^ 32 ≡ length (framed r.kind)
      small = omega (arith, u)

  -- A record whose framed payload is above the maximum ends the scan: it is lost, and so is every
  -- record behind it.
  pub scan-oversized :
      ((bytes : Bytes) → crc bytes < 2 ^ 32)
      → (rs : List WalRecord) (r : WalRecord) (rest : Bytes) → Increasing 0 rs
      → AllRecords rs
      → max_page_payload < length (framed r.kind)
      → length (framed r.kind) < 2 ^ 32
      → scan crc (images rs ++ (image crc r ++ rest)) ≡ some (rs, length (images rs))
  unfolding scan
  scan-oversized crc_u32 rs r rest i v large u =
      scan_from-images crc_u32 (suc (length (images rs ++ (image crc r ++ rest)))) 0 [] rs
        (image crc r ++ rest)
        (omega (arith, count rs, length-append (images rs) (image crc r ++ rest))) i v
        (λ p. read_record-oversized p r rest large u)
