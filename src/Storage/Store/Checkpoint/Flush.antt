-- ===== src/Storage/Store/Checkpoint/Flush.antt =====
-- storage/src/store.rs: what a flush of dirty pages leaves.
use quantadb.Prelude.{
  ℕ, ◌%◌, ◌^◌, ◌<◌, ◌≡◌, refl, Bool, true, Option, none, some, List, [], ◌∷◌, ◌==◌, if◌then◌else◌,
  length, arith, ap, ◌∙◌, sym, subst, Bool-cases, ◌⊎◌, inl, inr,
}
use quantadb.Prelude.Result.{ok, Result-cases}
use quantadb.Prelude.Ord.{nat_ord}
use quantadb.Prelude.Map.{Map, lookup, insert, lookup-insert}
use quantadb.Prelude.Seq.{All, any}
use quantadb.Bytes.{Bytes}
use quantadb.Storage.Error.{StorageResult}
use quantadb.Storage.Page.{Page, page_size}
use quantadb.Storage.Page.RoundTrip.{IsPage}
use quantadb.Storage.DataFile.{read, write}
use quantadb.Storage.DataFile.Pages.{read-write, read-write_other, length-write}
use quantadb.Storage.Store.{DurableStore}
use quantadb.Storage.Store.Checkpoint.{
  is_flushed, due, with_due, next_budget, take_pending, write_pending,
}

abbrev pub queued : ℕ → List ℕ → Bool
queued page_id queue = any (λ q. q == page_id) queue

abbrev pub has_page : ℕ → List Page → Bool
has_page page_id pages = any (λ (p : Page). p.id == page_id) pages

module _ (crc : Bytes → ℕ) where
  -- The dirty table has pages under their ids, and what is noted as flushed is in the data file.
  pub record Consistent (file : Bytes) (dirty : Map ℕ Page) (flushed : Map ℕ ℕ) : Type 0 where
    pub whole : length file % page_size ≡ 0
    pub pages :
        (page_id : ℕ) (page : Page)
        → lookup dirty page_id ≡ some page
        → (page.id ≡ page_id) × IsPage page
    pub in_file :
        (page_id : ℕ) (page : Page)
        → lookup dirty page_id ≡ some page
        → is_flushed flushed page_id page ≡ true
        → read crc file page_id ≡ ok (some page)

-- The pages of a flush come from the dirty table.
abbrev pub Pending : Map ℕ Page → List Page → Type 0
Pending dirty pages = All (λ (p : Page). lookup dirty p.id ≡ some p) pages

is_flushed-insert :
    (flushed : Map ℕ ℕ) (p : Page) (page_id : ℕ) (page : Page)
    → is_flushed (insert flushed p.id p.lsn) page_id page
      ≡ (if p.id == page_id then p.lsn == page.lsn else is_flushed flushed page_id page)
is_flushed-insert flushed p page_id page = ground (arith, lookup-insert flushed p.id page_id p.lsn)

module _ (crc : Bytes → ℕ) (crc_u32 : (bytes : Bytes) → crc bytes < 2 ^ 32) where
  write_one-Consistent :
      (file : Bytes) (dirty : Map ℕ Page) (flushed : Map ℕ ℕ) (p : Page) (file' : Bytes)
      → Consistent crc file dirty flushed
      → lookup dirty p.id ≡ some p
      → write crc file p ≡ ok file'
      → Consistent crc file' dirty (insert flushed p.id p.lsn)
  write_one-Consistent file dirty flushed p file' c d h = record {
    whole = length-write crc file p file' valid c.whole h;
    pages = c.pages;
    in_file = λ page_id page e f. elim (Bool-cases (p.id == page_id)) [
      | inl g ↦ own page_id page e (ground (arith, g))
      | inr g ↦
          read-write_other crc file p file' page_id valid c.whole (λ x. ground (arith, g, x)) h
          ∙ c.in_file page_id page e
              (ground (arith, g, f, is_flushed-insert flushed p page_id page))
    ];
  }
    where
      valid : IsPage p
      valid = (c.pages p.id p d).1

      some_eq : {x y : Page} → some x ≡ some y → x ≡ y
      some_eq e = ground (arith, e)

      own :
          (page_id : ℕ) (page : Page)
          → lookup dirty page_id ≡ some page
          → p.id ≡ page_id
          → read crc file' page_id ≡ ok (some page)
      own page_id page e g =
          let same_page = some_eq (sym d ∙ ap (lookup dirty) g ∙ e) in
          ap (read crc file') (sym g)
          ∙ read-write crc crc_u32 file p file' valid h
          ∙ ap (λ t. ok (some t)) same_page

  -- What a flush has done.
  pub record Written (s s' : DurableStore) (pages : List Page) : Type 0 where
    pub consistent : Consistent crc s'.data_file s.dirty s'.flushed
    pub rest : record s { data_file = s'.data_file; flushed = s'.flushed } ≡ s'
    pub kept :
        (page_id : ℕ) (page : Page)
        → lookup s.dirty page_id ≡ some page
        → is_flushed s.flushed page_id page ≡ true
        → is_flushed s'.flushed page_id page ≡ true
    pub noted :
        (page_id : ℕ) (page : Page)
        → lookup s.dirty page_id ≡ some page
        → has_page page_id pages ≡ true
        → is_flushed s'.flushed page_id page ≡ true
    pub others :
        (page_id : ℕ)
        → lookup s.dirty page_id ≡ none
        → read crc s'.data_file page_id ≡ read crc s.data_file page_id

  -- one page, written or not
  inserted :
      (dirty : Map ℕ Page) (flushed : Map ℕ ℕ) (p : Page) (page_id : ℕ) (page : Page)
      → lookup dirty p.id ≡ some p
      → lookup dirty page_id ≡ some page
      → ((p.id == page_id) ≡ true) ⊎ (is_flushed flushed page_id page ≡ true)
      → is_flushed (insert flushed p.id p.lsn) page_id page ≡ true
  inserted dirty flushed p page_id page d e c =
      is_flushed-insert flushed p page_id page ∙ elim (Bool-cases (p.id == page_id)) [
        | inl g ↦
            let there : p.id ≡ page_id = ground (arith, g) in
            let found = sym d ∙ ap (lookup dirty) there ∙ e in rw (g) (ground (arith, found))
        | inr g ↦ rw (g) (ground (arith, c, g))
      ]

  pub write_pending-Written :
      (s : DurableStore) (pages : List Page) (s' : DurableStore)
      → Consistent crc s.data_file s.dirty s.flushed
      → Pending s.dirty pages
      → write_pending crc s pages ≡ (s', ok tt)
      → Written s s' pages
  unfolding write_pending
  write_pending-Written s [] s' c d h =
      subst (λ t. Written s t []) (ap (λ (o : DurableStore × StorageResult (Unit {0})). o.0) h)
        (record {
          consistent = c;
          rest = refl;
          kept = λ page_id page e f. f;
          noted = λ page_id page e f. ground (arith, f);
          others = λ page_id e. refl;
        })
  write_pending-Written s (p ∷ pages) s' c d h = elim (Result-cases (write crc s.data_file p)) [
    | inr (x, e) ↦ ground (arith, e, h)
    | inl (file, e) ↦ combined file e (
        write_pending-Written (record s { data_file = file; flushed = insert s.flushed p.id p.lsn })
          pages s' (write_one-Consistent s.data_file s.dirty s.flushed p file c d.0 e) d.1
          (ground (arith, e, h)))
  ]
    where
      combined :
          (file : Bytes)
          → write crc s.data_file p ≡ ok file
          → Written (record s { data_file = file; flushed = insert s.flushed p.id p.lsn }) s' pages
          → Written s s' (p ∷ pages)
      combined file e w = record {
        consistent = w.consistent;
        rest = w.rest;
        kept = λ page_id page g f.
            w.kept page_id page g (inserted s.dirty s.flushed p page_id page d.0 g (inr f));
        noted = λ page_id page g f. elim (Bool-cases (p.id == page_id)) [
          | inl k ↦ w.kept page_id page g (inserted s.dirty s.flushed p page_id page d.0 g (inl k))
          | inr k ↦ w.noted page_id page g (ground (arith, f, k))
        ];
        others = λ page_id g.
            w.others page_id g
            ∙ read-write_other crc s.data_file p file page_id (c.pages p.id p d.0).1 c.whole
                (λ x. absent (sym g ∙ ap (lookup s.dirty) x ∙ d.0)) e;
      }
        where
          absent : none ≡ some p → ⊥
          absent x = ground (arith, x)

module _ (dirty : Map ℕ Page) (flushed : Map ℕ ℕ) where
  due-Pending :
      ((page_id : ℕ) (page : Page) → lookup dirty page_id ≡ some page → page.id ≡ page_id)
      → (page_id : ℕ) (found : Option Page) (rest : List Page × List ℕ)
      → due dirty flushed page_id ≡ found
      → Pending dirty rest.0
      → Pending dirty (with_due found rest).0
  due-Pending ids page_id none rest e p = p
  due-Pending ids page_id (some page) rest e p =
      let there : lookup dirty page_id ≡ some page = ground (arith, e) in
      let named = ids page_id page there in (ap (lookup dirty) named ∙ there, p)

  pub take_pending-Pending :
      (budget : ℕ) (queue : List ℕ)
      → ((page_id : ℕ) (page : Page) → lookup dirty page_id ≡ some page → page.id ≡ page_id)
      → Pending dirty (take_pending dirty flushed budget queue).0
  unfolding take_pending
  take_pending-Pending budget [] ids = tt
  take_pending-Pending budget (page_id ∷ queue) ids =
      let here =
        due-Pending ids page_id (due dirty flushed page_id)
          (take_pending dirty flushed (next_budget budget (due dirty flushed page_id)) queue) refl
          (take_pending-Pending (next_budget budget (due dirty flushed page_id)) queue ids) in
      elim (Bool-cases (budget == 0)) [ inl e ↦ rw (e) tt | inr e ↦ rw (e) here ]

  -- A page is flushed, or in one of the two lists of a round.
  abbrev pub Covers : ℕ → Page → List Page × List ℕ → Type 0
  Covers page_id page out =
      (is_flushed flushed page_id page ≡ true)
      ⊎ (queued page_id out.1 ≡ true)
      ⊎ (has_page page_id out.0 ≡ true)

  with_due-Covers :
      (found : Option Page) (page_id : ℕ) (page : Page) (rest : List Page × List ℕ)
      → Covers page_id page rest
      → Covers page_id page (with_due found rest)
  with_due-Covers none page_id page rest c = c
  with_due-Covers (some p) page_id page rest c = elim c [
    | inl e ↦ inl e
    | inr (inl e) ↦ inr (inl e)
    | inr (inr e) ↦ inr (inr (ground (arith, e)))
  ]

  due-Covers :
      (found : Option Page) (page_id : ℕ) (page : Page) (rest : List Page × List ℕ)
      → page.id ≡ page_id
      → lookup dirty page_id ≡ some page
      → due dirty flushed page_id ≡ found
      → Covers page_id page (with_due found rest)
  due-Covers none page_id page rest i e f = inl (ground (arith, e, f))
  due-Covers (some p) page_id page rest i e f =
      let same_page : some p ≡ some page = ground (arith, e, f) in
      inr (inr (ground (arith, same_page, i)))

  pub take_pending-Covers :
      (budget : ℕ) (queue : List ℕ) (page_id : ℕ) (page : Page)
      → page.id ≡ page_id
      → lookup dirty page_id ≡ some page
      → queued page_id queue ≡ true
      → Covers page_id page (take_pending dirty flushed budget queue)
  unfolding take_pending
  take_pending-Covers budget [] page_id page i e h = ground (arith, h)
  take_pending-Covers budget (q ∷ queue) page_id page i e h = elim (Bool-cases (budget == 0)) [
    | inl z ↦ rw (z) (inr (inl h))
    | inr z ↦ rw (z) (elim (Bool-cases (q == page_id)) [
      | inl k ↦ here (ground (arith, k))
      | inr k ↦
          with_due-Covers (due dirty flushed q) page_id page
            (take_pending dirty flushed (next_budget budget (due dirty flushed q)) queue)
            (take_pending-Covers (next_budget budget (due dirty flushed q)) queue page_id page i e
              (ground (arith, h, k)))
    ])
  ]
    where
      here :
          q ≡ page_id
          → Covers page_id page (
              with_due
                (due dirty flushed q)
                (take_pending dirty flushed (next_budget budget (due dirty flushed q)) queue))
      here k =
          due-Covers (due dirty flushed q) page_id page
            (take_pending dirty flushed (next_budget budget (due dirty flushed q)) queue) i e
            (ap (due dirty flushed) (sym k))
