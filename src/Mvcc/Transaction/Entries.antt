-- ===== src/Mvcc/Transaction/Entries.antt =====
-- What the loop of `scan_prefix` over the index entries reads.
use quantadb.Prelude.{ℕ, ◌≡◌, true, false, none, [], ◌∷◌, arith, Bool-cases, inl, inr}
use quantadb.Prelude.Result.{ok, >>=-eq-ok, Result-cases}
use quantadb.Prelude.Ord.{same, eq_of_same, same_refl, nat_ord, bytes_ord}
use quantadb.Prelude.Map.{Map, lookup, Sorted, lookup-KeysAbove}
use quantadb.Prelude.Seq.{is_some}
use quantadb.Bytes.{Bytes}
use quantadb.Mvcc.Read.{Reader, read_index_version, read_entry}
use quantadb.Mvcc.Transaction.{scan_entry, scan_entries}
use quantadb.Mvcc.Transaction.Overlay.{lookup-put_live}

module _ (reader : Reader) where
  scan_entry-elsewhere :
      (n : ℕ) (key : Bytes) (page_id : ℕ) (masked : Map Bytes (Unit {0}))
      (results found : Map Bytes Bytes) (q : Bytes)
      → same key q ≡ false
      → scan_entry reader n key page_id masked results ≡ ok found
      → lookup found q ≡ lookup results q
  unfolding scan_entry
  scan_entry-elsewhere n key page_id masked results found q h e =
      elim (Bool-cases (is_some (lookup masked key))) [
        | inl m ↦ ground arith
        | inr m ↦ elim (Result-cases (read_index_version reader page_id key n)) [
          | inl (v, r) ↦ ground (arith, lookup-put_live results key q v)
          | inr (x, r) ↦ ground arith
        ]
      ]

  scan_entry-masked :
      (n : ℕ) (key : Bytes) (page_id : ℕ) (masked : Map Bytes (Unit {0}))
      (results found : Map Bytes Bytes)
      → is_some (lookup masked key) ≡ true
      → scan_entry reader n key page_id masked results ≡ ok found
      → found ≡ results
  unfolding scan_entry
  scan_entry-masked n key page_id masked results found h e = ground arith

  scan_entry-read :
      (n : ℕ) (key : Bytes) (page_id : ℕ) (masked : Map Bytes (Unit {0}))
      (results found : Map Bytes Bytes)
      → is_some (lookup masked key) ≡ false
      → lookup results key ≡ none
      → scan_entry reader n key page_id masked results ≡ ok found
      → read_index_version reader page_id key n ≡ ok (lookup found key)
  unfolding scan_entry
  scan_entry-read n key page_id masked results found h absent e =
      elim (Result-cases (read_index_version reader page_id key n)) [
        | inl (v, r) ↦ ground (arith, lookup-put_live results key key v, same_refl key)
        | inr (x, r) ↦ ground arith
      ]

  -- a key that a version masks, or that the index does not have
  pub scan_entries-masked :
      (n : ℕ) (entries : Map Bytes ℕ) (masked : Map Bytes (Unit {0}))
      (results out : Map Bytes Bytes) (q : Bytes)
      → is_some (lookup masked q) ≡ true
      → scan_entries reader n entries masked results ≡ ok out
      → lookup out q ≡ lookup results q
  unfolding scan_entries
  scan_entries-masked n [] masked results out q h e = ground arith
  scan_entries-masked n ((key, page_id) ∷ entries) masked results out q h e =
      let (found, first, rest) = >>=-eq-ok (scan_entry reader n key page_id masked results) _ e in
      ground (
        arith,
        scan_entries-masked n entries masked found out q h rest,
        eq_of_same key q,
        scan_entry-elsewhere n key page_id masked results found q,
        scan_entry-masked n key page_id masked results found,
      )

  pub scan_entries-absent :
      (n : ℕ) (entries : Map Bytes ℕ) (masked : Map Bytes (Unit {0}))
      (results out : Map Bytes Bytes) (q : Bytes)
      → lookup entries q ≡ none
      → scan_entries reader n entries masked results ≡ ok out
      → lookup out q ≡ lookup results q
  unfolding scan_entries lookup
  scan_entries-absent n [] masked results out q h e = ground arith
  scan_entries-absent n ((key, page_id) ∷ entries) masked results out q h e =
      let (found, first, rest) = >>=-eq-ok (scan_entry reader n key page_id masked results) _ e in
      ground (
        arith,
        scan_entries-absent n entries masked found out q,
        scan_entry-elsewhere n key page_id masked results found q,
      )

  pub scan_entries-read :
      (n : ℕ) (entries : Map Bytes ℕ) (masked : Map Bytes (Unit {0}))
      (results out : Map Bytes Bytes) (q : Bytes)
      → Sorted entries
      → is_some (lookup masked q) ≡ false
      → lookup results q ≡ none
      → scan_entries reader n entries masked results ≡ ok out
      → read_entry reader (lookup entries q) q n ≡ ok (lookup out q)
  unfolding scan_entries lookup read_entry
  scan_entries-read n [] masked results out q p h absent e = ground arith
  scan_entries-read n ((key, page_id) ∷ entries) masked results out q p h absent e =
      let (found, first, rest) = >>=-eq-ok (scan_entry reader n key page_id masked results) _ e in
      elim (Bool-cases (same key q)) [
        | inl here ↦ ground (
          arith,
          eq_of_same key q here,
          scan_entry-read n key page_id masked results found,
          lookup-KeysAbove key entries p.0,
          scan_entries-absent n entries masked found out q,
        )
        | inr there ↦ ground (
          arith,
          scan_entry-elsewhere n key page_id masked results found q there first,
          scan_entries-read n entries masked found out q p.1 h,
        )
      ]
