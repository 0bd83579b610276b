-- ===== src/Storage/ByteLru/Bounds.antt =====
-- The cache stays within its bytes.
use quantadb.Prelude.{
  ℕ, ◌+◌, ◌≤◌, ◌≡◌, refl, Option, none, some, [], ◌∷◌, ltb, arith, Bool-cases, Option-cases, inl,
  inr, ap, ◌∙◌, subst,
}
use quantadb.Prelude.Ord.{nat_ord, same_refl}
use quantadb.Prelude.Map.{Map, lookup, remove, Sorted, KeysAbove, remove-head, lookup-remove}
use quantadb.Storage.ByteLru.{
  LruEntry, Lru, empty, get, delete, evict, evict_page, put, place, forget,
}
use quantadb.Storage.ByteLru.Links.{total, Linked, Linked-forget, Linked-place, Linked-hit}

module _ {ℓ} {V : Type ℓ} where
  -- the order of use without its first place, and the entry of that place gone
  Linked-evict_page :
      (c : Lru V) (tick page : ℕ) (rest : Map ℕ ℕ) (o : Option (LruEntry V))
      → c.recency ≡ (tick, page) ∷ rest
      → lookup c.entries page ≡ o
      → Linked c
      → Linked (evict_page page o (record c { recency = rest }))
  unfolding lookup
  Linked-evict_page c tick page rest none r e l = absurd (contradiction (l.known tick page named))
    where
      named : lookup c.recency tick ≡ some page
      named = ground (arith, r, same_refl tick)

      contradiction : (f : LruEntry V) × (lookup c.entries page ≡ some f) × (f.tick ≡ tick) → ⊥
      contradiction (f, a, b) = ground (arith, a, e)
  Linked-evict_page c tick page rest (some old) r e l =
      subst (λ order. Linked (evict_page page (some old) (record c { recency = order })))
        (ap (λ order. remove order old.tick) r
          ∙ ap (λ t. remove ((tick, page) ∷ rest) t) (old_tick (l.known tick page named))
          ∙ remove-head tick page rest above)
        (Linked-forget c page (some old) e l)
    where
      named : lookup c.recency tick ≡ some page
      named = ground (arith, r, same_refl tick)

      old_tick :
          (f : LruEntry V) × (lookup c.entries page ≡ some f) × (f.tick ≡ tick) → old.tick ≡ tick
      old_tick (f, a, b) = ground (arith, a, b, e)

      above : KeysAbove tick rest
      above = (subst (λ order. Sorted order) r l.recency_sorted).0

  evict_page-capacity :
      (c : Lru V) (page : ℕ) (o : Option (LruEntry V)) → (evict_page page o c).capacity ≡ c.capacity
  evict_page-capacity c page none = refl
  evict_page-capacity c page (some old) = refl

  evict_page-recency :
      (c : Lru V) (page : ℕ) (o : Option (LruEntry V)) → (evict_page page o c).recency ≡ c.recency
  evict_page-recency c page none = refl
  evict_page-recency c page (some old) = refl

  no_entries : (m : Map ℕ (LruEntry V)) → ((page : ℕ) → lookup m page ≡ none) → total m ≡ 0
  unfolding lookup
  no_entries [] h = refl
  no_entries ((k, e) ∷ m) h = absurd (ground (arith, h k, same_refl k))

  -- The cache within its bytes.
  pub record Cached (c : Lru V) : Type ℓ where
    pub linked : Linked c
    pub bounded : c.bytes ≤ c.capacity

  evict-Cached :
      (order : Map ℕ ℕ) (c : Lru V) → c.recency ≡ order → Linked c → Cached (evict order c)
  unfolding evict lookup
  evict-Cached [] c r l = record {
    linked = l;
    bounded = ground (arith, no_entries c.entries vacant, l.counted);
  }
    where
      vacant : (page : ℕ) → lookup c.entries page ≡ none
      vacant page = elim (Option-cases (lookup c.entries page)) [
        | inl gone ↦ gone
        | inr (e, h) ↦ absurd (ground (arith, l.listed page e h, r))
      ]
  evict-Cached ((tick, page) ∷ order) c r l = elim (Bool-cases (ltb c.capacity c.bytes)) [
    | inl over ↦ rw over (
        evict-Cached order (evict_page page (lookup c.entries page) (record c { recency = order }))
          (evict_page-recency (record c { recency = order }) page (lookup c.entries page))
          (Linked-evict_page c tick page order (lookup c.entries page) r refl l))
    | inr within ↦ rw within (record { linked = l; bounded = ground (arith, within) })
  ]

  forget-none :
      (c : Lru V) (page : ℕ) (o : Option (LruEntry V))
      → lookup c.entries page ≡ o
      → lookup (forget page o c).entries page ≡ none
  forget-none c page none e = e
  forget-none c page (some old) e =
      ground (arith, lookup-remove c.entries page page, same_refl page)

  Linked-missed :
      (c : Lru V) (misses : ℕ)
      → Linked c
      → Linked (record c { next_tick = c.next_tick + 1; misses = misses })
  Linked-missed c misses l = record {
    entries_sorted = l.entries_sorted;
    recency_sorted = l.recency_sorted;
    counted = l.counted;
    listed = l.listed;
    known = l.known;
    fresh = λ t q g. omega (arith, l.fresh t q g);
  }

  get-Cached : (c : Lru V) (page : ℕ) → Cached c → Cached (get c page).0
  unfolding get
  get-Cached c page k = split (lookup c.entries page) refl
    where
      split : (o : Option (LruEntry V)) → lookup c.entries page ≡ o → Cached (get c page).0
      split none e =
          rw (e, get)
            (record { linked = Linked-missed c (c.misses + 1) k.linked; bounded = k.bounded })
      split (some old) e =
          rw (e, get) (record { linked = Linked-hit c page old e k.linked; bounded = k.bounded })

  delete-Cached : (c : Lru V) (page : ℕ) → Cached c → Cached (delete c page)
  unfolding delete
  delete-Cached c page k = record {
    linked = Linked-forget c page (lookup c.entries page) refl k.linked;
    bounded = omega (arith, k.bounded, smaller (lookup c.entries page));
  }
    where
      smaller : (o : Option (LruEntry V)) → (forget page o c).bytes ≤ (forget page o c).capacity
      smaller none = k.bounded
      smaller (some old) = omega (arith, k.bounded)

  put-Cached :
      (c : Lru V) (page : ℕ) (value : V) (size : ℕ) → Cached c → Cached (put c page value size)
  unfolding put
  put-Cached c page value size k = elim (Bool-cases (ltb c.capacity size)) [
    | inl large ↦ rw large k
    | inr fits ↦
        let kept = forget page (lookup c.entries page) c in
        rw fits (
          evict-Cached (place page value size kept).recency (place page value size kept) refl (
            Linked-place kept page value size (forget-none c page (lookup c.entries page) refl)
              (Linked-forget c page (lookup c.entries page) refl k.linked)))
  ]

  -- A lookup, a removal and an insertion keep the cache within its bytes, with the bytes counted
  -- and the order of use in step with the entries: none of them subtracts more than is counted.
  pub operations-Cached :
      (c : Lru V) (page : ℕ) (value : V) (size : ℕ)
      → Cached c
      → Cached (get c page).0 × Cached (delete c page) × Cached (put c page value size)
  operations-Cached c page value size k =
      (get-Cached c page k, delete-Cached c page k, put-Cached c page value size k)

  pub empty-Cached : (capacity : ℕ) → Cached (empty capacity)
  unfolding empty lookup
  empty-Cached capacity = record {
    linked = record {
      entries_sorted = tt;
      recency_sorted = tt;
      counted = refl;
      listed = λ page e h. cc;
      known = λ t page h. absurd (nothing h);
      fresh = λ t page h. cc;
    };
    bounded = omega arith;
  }
    where
      nothing : {page : ℕ} → ◌≡◌ {A = Option ℕ} none (some page) → ⊥
      nothing h = cc
