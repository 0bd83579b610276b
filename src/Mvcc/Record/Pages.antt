-- ===== src/Mvcc/Record/Pages.antt =====
-- A page of records: the loop ends, and it returns the records that were packed.
use quantadb.Prelude.{
  ℕ, zero, suc, ◌+◌, ◌≤◌, ◌<◌, ◌≡◌, refl, List, ◌∷◌, [], ◌++◌, length, drop, ltb, none, some,
  Option, arith, ap, ◌∙◌, false, length-append, length-drop, Bool, append_assoc, ◌⊎◌, inl, inr,
}
use quantadb.Prelude.Result.{ok, err}
use quantadb.Bytes.{read_u16, read_u32, read_u64, all_zero, slice, Bytes, zeroes}
use quantadb.Bytes.Slices.{drop-length_append}
use quantadb.Mvcc.Error.{TransactionError, MvccResult}
use quantadb.Mvcc.Record.{
  VersionRecord, check_length, checked_record, decode_bytes, decode_at, decode_from, decode_page,
  prepend,
}
use quantadb.Mvcc.Record.RoundTrip.{IsRecord, image, size, decode_bytes-image, length-image}

abbrev pub images : List VersionRecord → Bytes
images [] = []
images (r ∷ rs) = image r ++ images rs

abbrev pub AllRecords : List VersionRecord → Type 0
AllRecords [] = Unit
AllRecords (r ∷ rs) = IsRecord r × AllRecords rs

decode_at_end :
    (page_id : ℕ) (done : Bytes) (n : ℕ)
    → decode_at page_id (done ++ zeroes n) (length done) ≡ ok none
unfolding decode_at decode_bytes
decode_at_end page_id done n = rw (within, drop-length_append done (zeroes n)) (blank n)
  where
    within : ltb (length (done ++ zeroes n)) (length done) ≡ false
    within = ground (arith, length-append done (zeroes n))

    blank : (n : ℕ) → decode_bytes page_id (zeroes n) ≡ ok none
    blank zero = refl
    blank (suc zero) = refl
    blank (suc (suc zero)) = refl
    blank (suc (suc (suc zero))) = refl
    blank (suc (suc (suc (suc n)))) = ground arith

decode_at-image :
    (page_id : ℕ) (done : Bytes) (r : VersionRecord) (rest : Bytes)
    → IsRecord r
    → decode_at page_id (done ++ (image r ++ rest)) (length done) ≡ ok (some (r, size r))
unfolding decode_at
decode_at-image page_id done r rest v =
    rw (within, drop-length_append done (image r ++ rest)) (decode_bytes-image page_id r rest v)
  where
    within : ltb (length (done ++ (image r ++ rest))) (length done) ≡ false
    within = ground (arith, length-append done (image r ++ rest))

decode_from-some :
    (fuel page_id : ℕ) (page : Bytes) (cursor : ℕ) {r : VersionRecord} {used : ℕ}
    → decode_at page_id page cursor ≡ ok (some (r, used))
    → decode_from (suc fuel) page_id page cursor
      ≡ prepend r (decode_from fuel page_id page (cursor + used))
unfolding decode_from
decode_from-some fuel page_id page cursor h = rw (h, decode_from) refl

decode_from-images :
    (fuel page_id : ℕ) (done : Bytes) (rs : List VersionRecord) (n : ℕ)
    → length rs < fuel
    → AllRecords rs
    → decode_from fuel page_id (done ++ (images rs ++ zeroes n)) (length done) ≡ some (ok rs)
unfolding decode_from
decode_from-images zero page_id done rs n h v = absurd (omega arith)
decode_from-images (suc fuel) page_id done [] n h v =
    rw (decode_at_end page_id done n, decode_from) refl
decode_from-images (suc fuel) page_id done (r ∷ rs) n h v =
    rw (append_assoc (image r) (images rs) (zeroes n)) (
      decode_from-some fuel page_id (done ++ (image r ++ (images rs ++ zeroes n))) (length done)
        (decode_at-image page_id done r (images rs ++ zeroes n) v.0)
      ∙ ap (prepend r)
          (advance ∙ decode_from-images fuel page_id (done ++ image r) rs n (omega arith) v.1))
  where
    advance :
        decode_from fuel page_id
          (done ++ (image r ++ (images rs ++ zeroes n)))
          (length done + size r)
        ≡ decode_from fuel page_id
            ((done ++ image r) ++ (images rs ++ zeroes n))
            (length (done ++ image r))
    advance =
        rw
          (
            append_assoc done (image r) (images rs ++ zeroes n),
            length-append done (image r),
            length-image r,
          )
          refl

-- A page of packed records, and zeroes behind them, decodes to those records.
pub decode_page-images :
    (page_id : ℕ) (rs : List VersionRecord) (n : ℕ)
    → AllRecords rs
    → decode_page page_id (images rs ++ zeroes n) ≡ some (ok rs)
unfolding decode_page
decode_page-images page_id rs n v =
    decode_from-images (suc (length (images rs ++ zeroes n))) page_id [] rs n (count rs) v
  where
    count : (rs : List VersionRecord) → length rs < suc (length (images rs ++ zeroes n))
    count [] = omega arith
    count (r ∷ rs) = omega (
      arith,
      count rs,
      length-append (image r ++ images rs) (zeroes n),
      length-append (images rs) (zeroes n),
      length-append (image r) (images rs),
      length-image r,
    )

check_length_lem :
    (page_id available k v : ℕ) {n : ℕ}
    → check_length page_id available k v ≡ ok n
    → (n ≡ 32 + k + v) × (n ≤ available)
unfolding check_length
check_length_lem page_id available k v h = ground arith

checked_record_used :
    (page_id : ℕ) (bytes : Bytes) (version flags : ℕ) (reserved : Bool) (t k v : ℕ)
    (r : VersionRecord) (used : ℕ)
    → checked_record page_id bytes version flags reserved t k v ≡ ok (some (r, used))
    → (32 ≤ used) × (used ≤ length bytes)
unfolding checked_record
checked_record_used page_id bytes version flags reserved t k v r used h =
    ground (arith, check_length_lem page_id (length bytes) k v {n = used})

decode_bytes_used :
    (page_id : ℕ) (bytes : Bytes) (r : VersionRecord) (used : ℕ)
    → decode_bytes page_id bytes ≡ ok (some (r, used))
    → (32 ≤ used) × (used ≤ length bytes)
unfolding decode_bytes
decode_bytes_used page_id bytes r used h = ground (
  arith,
  checked_record_used page_id bytes (read_u16 bytes 4) (read_u16 bytes 6)
      (all_zero (slice 24 8 bytes)) (read_u64 bytes 8) (read_u32 bytes 16) (read_u32 bytes 20) r
      used,
)

decode_at_used :
    (page_id : ℕ) (page : Bytes) (cursor : ℕ) (r : VersionRecord) (used : ℕ)
    → decode_at page_id page cursor ≡ ok (some (r, used))
    → (32 ≤ used) × (cursor + used ≤ length page)
unfolding decode_at
decode_at_used page_id page cursor r used h =
    ground (arith, decode_bytes_used page_id (drop cursor page) r used, length-drop cursor page)

result_cases :
    (m : MvccResult (Option (VersionRecord × ℕ)))
    → ((e : TransactionError) × (m ≡ err e))
      ⊎ ((m ≡ ok none) ⊎ ((r : VersionRecord) × (used : ℕ) × (m ≡ ok (some (r, used)))))
result_cases (err e) = inl (e, refl)
result_cases (ok none) = inr (inl refl)
result_cases (ok (some (r, used))) = inr (inr (r, used, refl))

prepended :
    (r : VersionRecord) (rest : MvccResult (List VersionRecord))
    → (q : MvccResult (List VersionRecord)) × (prepend r (some rest) ≡ some q)
prepended r (ok rs) = (ok (r ∷ rs), refl)
prepended r (err e) = (err e, refl)

decode_from_total :
    (fuel page_id : ℕ) (page : Bytes) (cursor : ℕ)
    → cursor ≤ length page
    → length page < cursor + fuel
    → (r : MvccResult (List VersionRecord)) × (decode_from fuel page_id page cursor ≡ some r)
unfolding decode_from
decode_from_total zero page_id page cursor c h = absurd (omega arith)
decode_from_total (suc fuel) page_id page cursor c h =
    elim (result_cases (decode_at page_id page cursor)) [
      | inl (e, p) ↦ (err e, rw (p, decode_from))
      | inr (inl p) ↦ (ok [], rw (p, decode_from))
      | inr (inr (r, used, p)) ↦
          let step = decode_at_used page_id page cursor r used p in
          let (rest, q) =
            decode_from_total fuel page_id page (cursor + used) (omega arith) (omega arith) in
          let (list, e) = prepended r rest in
          (list, decode_from-some fuel page_id page cursor p ∙ ap (prepend r) q ∙ e)
    ]

-- The fuel is enough: `decode_page` returns records or an error on every page.
pub decode_page_total :
    (page_id : ℕ) (page : Bytes)
    → (r : MvccResult (List VersionRecord)) × (decode_page page_id page ≡ some r)
unfolding decode_page
decode_page_total page_id page =
    decode_from_total (suc (length page)) page_id page 0 (omega arith) (omega arith)
