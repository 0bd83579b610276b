-- ===== src/Storage/DataFile/Pages.antt =====
-- A file of whole pages reads back what was written, page by page.
use quantadb.Prelude.{
  ℕ, ◌+◌, ◌*◌, ◌-◌, ◌%◌, ◌^◌, ◌≤◌, ◌<◌, ◌≡◌, ◌≢◌, refl, true, false, none, some, ◌++◌, ◌==◌,
  if◌then◌else◌, length, ltb, max, arith, ap, ◌∙◌, sym, subst, Bool-cases, inl, inr, ◌⊎◌,
}
use quantadb.Prelude.Result.{ok}
use quantadb.Bytes.{Bytes, zeroes, slice, all_zero}
use quantadb.Storage.Page.{Page, page_size, encode}
use quantadb.Storage.Page.RoundTrip.{IsPage, decode-encode, length-encode, all_zero-encode}
use quantadb.Storage.DataFile.{page_offset, write_extending, check_id, read_bytes, read, write}
use quantadb.Storage.DataFile.Slices.{
  length-write_extending, slice-write_extending, slice-write_at_before, slice-write_at_after,
  slice-append_le, all_zero-beyond,
}

module _ (crc : Bytes → ℕ) where
  read-at :
      (file : Bytes) (page_id : ℕ)
      → page_id * page_size < 2 ^ 64
      → read crc file page_id ≡ (
          if ltb (length file) (page_id * page_size + page_size)
          then ok none
          else read_bytes crc page_id (slice (page_id * page_size) page_size file))
  unfolding read page_offset
  read-at file page_id h = ground arith

  read_bytes-encode :
      ((bytes : Bytes) → crc bytes < 2 ^ 32)
      → (p : Page) → IsPage p
      → read_bytes crc p.id (encode crc p) ≡ ok (some p)
  unfolding read_bytes check_id
  read_bytes-encode crc_u32 p v =
      rw (all_zero-encode crc p v, decode-encode crc crc_u32 p v) (ground arith)

  write-cases :
      (file : Bytes) (p : Page) (file' : Bytes)
      → write crc file p ≡ ok file'
      → (p.id * page_size < 2 ^ 64)
        × (write_extending file (p.id * page_size) (encode crc p) ≡ file')
  unfolding write page_offset
  write-cases file p file' h = ground arith

  -- A page that was written is read back.
  pub read-write :
      ((bytes : Bytes) → crc bytes < 2 ^ 32)
      → (file : Bytes) (p : Page) (file' : Bytes) → IsPage p
      → write crc file p ≡ ok file'
      → read crc file' p.id ≡ ok (some p)
  read-write crc_u32 file p file' v h =
      let (small, e) = write-cases file p file' h in
      let size = length-encode crc p v in
      let long = length-write_extending file (p.id * page_size) (encode crc p) in
      let there = slice-write_extending file (p.id * page_size) (encode crc p) in
      subst (λ t. read crc t p.id ≡ ok (some p)) e
        (read-at (write_extending file (p.id * page_size) (encode crc p)) p.id small
          ∙ rw
              (inside (length (write_extending file (p.id * page_size) (encode crc p)))
                (omega (arith, long, size)))
              (ap (read_bytes crc p.id) (
                  ap
                    (λ n.
                      slice (p.id * page_size) n
                        (write_extending file (p.id * page_size) (encode crc p)))
                    (sym size)
                  ∙ there)
                ∙ read_bytes-encode crc_u32 p v))
    where
      inside :
          (n : ℕ) → p.id * page_size + page_size ≤ n → ltb n (p.id * page_size + page_size) ≡ false
      inside n k = ground arith

  read_bytes-all_zero :
      (page_id : ℕ) (bytes : Bytes) → all_zero bytes ≡ true → read_bytes crc page_id bytes ≡ ok none
  unfolding read_bytes
  read_bytes-all_zero page_id bytes h = rw (h) refl

  slice-beyond :
      (file : Bytes) (at q : ℕ) (bytes : Bytes)
      → length file ≤ q * page_size
      → q * page_size + page_size ≤ length (write_extending file (at * page_size) bytes)
      → length bytes ≡ page_size
      → q ≢ at
      → all_zero (slice (q * page_size) page_size (write_extending file (at * page_size) bytes))
        ≡ true
  unfolding write_extending
  slice-beyond file at q bytes old within size apart =
      ap all_zero (
        slice-write_at_before (file ++ zeroes missing) (at * page_size) bytes (q * page_size)
          page_size (before (length-write_extending file (at * page_size) bytes)))
      ∙ all_zero-beyond file missing (q * page_size) page_size old
    where
      missing : ℕ
      missing = at * page_size + length bytes - length file

      before :
          length (write_extending file (at * page_size) bytes)
            ≡ max (length file) (at * page_size + length bytes)
          → q * page_size + page_size ≤ at * page_size
      before long = elim (order) [
        | inl below ↦ omega (arith, below)
        | inr above ↦ absurd (omega (arith, long, within, above, size, old))
      ]
        where
          order : (q < at) ⊎ (at < q)
          order = ground (arith, apart)

  slice-within :
      (file : Bytes) (at q : ℕ) (bytes : Bytes)
      → q * page_size + page_size ≤ length file
      → length bytes ≡ page_size
      → q ≢ at
      → slice (q * page_size) page_size (write_extending file (at * page_size) bytes)
        ≡ slice (q * page_size) page_size file
  unfolding write_extending
  slice-within file at q bytes old size apart =
      elim order [
        | inl below ↦
            slice-write_at_before _ (at * page_size) bytes (q * page_size) page_size
              (omega (arith, below))
        | inr above ↦
            slice-write_at_after _ (at * page_size) bytes (q * page_size) page_size
              (omega (arith, above, size))
      ]
      ∙ slice-append_le file (zeroes (at * page_size + length bytes - length file)) (q * page_size)
          page_size old
    where
      order : (q < at) ⊎ (at < q)
      order = ground (arith, apart)

  read-beyond_u64 :
      (file file' : Bytes) (q : ℕ)
      → ltb (q * page_size) (2 ^ 64) ≡ false
      → read crc file' q ≡ read crc file q
  unfolding read page_offset
  read-beyond_u64 file file' q large = rw (large) refl

  read-short :
      (file : Bytes) (q : ℕ)
      → q * page_size < 2 ^ 64
      → length file < q * page_size + page_size
      → read crc file q ≡ ok none
  read-short file q small short = read-at file q small ∙ ground (arith, short)

  read-long :
      (file : Bytes) (q : ℕ)
      → q * page_size < 2 ^ 64
      → q * page_size + page_size ≤ length file
      → read crc file q ≡ read_bytes crc q (slice (q * page_size) page_size file)
  read-long file q small long = read-at file q small ∙ ground (arith, long)

  -- The other pages, in a file of whole pages.
  read-extending_other :
      (file : Bytes) (at q : ℕ) (bytes : Bytes)
      → length file % page_size ≡ 0
      → length bytes ≡ page_size
      → q ≢ at
      → read crc (write_extending file (at * page_size) bytes) q ≡ read crc file q
  read-extending_other file at q bytes whole size apart =
      elim (Bool-cases (ltb (q * page_size) (2 ^ 64))) [
        | inr large ↦ read-beyond_u64 file (write_extending file (at * page_size) bytes) q large
        | inl small ↦
            within (ground (arith, small))
              (Bool-cases (ltb (length file) (q * page_size + page_size)))
      ]
    where
      grown :
          length (write_extending file (at * page_size) bytes)
          ≡ max (length file) (at * page_size + length bytes)
      grown = length-write_extending file (at * page_size) bytes

      short-cases :
          q * page_size < 2 ^ 64
          → length file ≤ q * page_size
          → (ltb (length (write_extending file (at * page_size) bytes)) (q * page_size + page_size)
              ≡ true)
            ⊎ (ltb
                  (length (write_extending file (at * page_size) bytes))
                  (q * page_size + page_size)
                ≡ false)
          → read crc (write_extending file (at * page_size) bytes) q ≡ ok none
      short-cases small old (inl e) = read-short _ q small (ground (arith, e))
      short-cases small old (inr e) =
          read-long _ q small (ground (arith, e))
          ∙ read_bytes-all_zero q _
              (slice-beyond file at q bytes old (ground (arith, e)) size apart)

      within :
          q * page_size < 2 ^ 64
          → (ltb (length file) (q * page_size + page_size) ≡ true)
            ⊎ (ltb (length file) (q * page_size + page_size) ≡ false)
          → read crc (write_extending file (at * page_size) bytes) q ≡ read crc file q
      within small (inl e) =
          let short : length file < q * page_size + page_size = ground (arith, e) in
          short-cases small (omega (arith, short, whole)) (Bool-cases _)
          ∙ sym (read-short file q small short)
      within small (inr e) =
          let long : q * page_size + page_size ≤ length file = ground (arith, e) in
          read-long _ q small (omega (arith, long, grown))
          ∙ ap (read_bytes crc q) (slice-within file at q bytes long size apart)
          ∙ sym (read-long file q small long)

  pub read-write_other :
      (file : Bytes) (p : Page) (file' : Bytes) (q : ℕ)
      → IsPage p
      → length file % page_size ≡ 0
      → q ≢ p.id
      → write crc file p ≡ ok file'
      → read crc file' q ≡ read crc file q
  read-write_other file p file' q v whole apart h =
      let (small, e) = write-cases file p file' h in
      subst (λ t. read crc t q ≡ read crc file q) e
        (read-extending_other file p.id q (encode crc p) whole (length-encode crc p v) apart)

  pub length-write :
      (file : Bytes) (p : Page) (file' : Bytes)
      → IsPage p
      → length file % page_size ≡ 0
      → write crc file p ≡ ok file'
      → length file' % page_size ≡ 0
  length-write file p file' v whole h =
      let (small, e) = write-cases file p file' h in
      let size = length-encode crc p v in
      let long = length-write_extending file (p.id * page_size) (encode crc p) in
      subst (λ t. length t % page_size ≡ 0) e (omega (arith, long, size, whole))

  -- A write to a file of whole pages gives a file of whole pages, in which the page that was written
  -- reads back and every other page reads as before.
  pub write-reads :
      ((bytes : Bytes) → crc bytes < 2 ^ 32)
      → (file : Bytes) (p : Page) (file' : Bytes) (q : ℕ) → IsPage p
      → length file % page_size ≡ 0
      → write crc file p ≡ ok file'
      → (read crc file' q ≡ (if q == p.id then ok (some p) else read crc file q))
        × (length file' % page_size ≡ 0)
  write-reads crc_u32 file p file' q v whole h = (
    elim (Bool-cases (q == p.id)) [
      | inl e ↦
          let there : q ≡ p.id = ground (arith, e) in
          ap (read crc file') there ∙ read-write crc_u32 file p file' v h ∙ ground (arith, e)
      | inr e ↦
          read-write_other file p file' q v whole (λ x. ground (arith, e, x)) h ∙ ground (arith, e)
    ],
    length-write file p file' v whole h,
  )
