-- ===== src/Storage/ByteLru/Links.antt =====
-- The entries and the order of use of the cache, and the bytes it counts.
use quantadb.Prelude.{
  ℕ, ◌+◌, ◌<◌, ◌≡◌, Option, none, some, [], ◌∷◌, arith, false, Bool-cases, inl, inr,
}
use quantadb.Prelude.Ord.{
  compare-lt, compare-gt, compare-eq, compare_refl, nat_ord, same, eq_of_same, same_refl,
}
use quantadb.Prelude.Map.{
  Map, lookup, insert, remove, Sorted, KeysAbove-trans, insert-Sorted, remove-Sorted,
  lookup-KeysAbove, lookup-insert, lookup-remove,
}
use quantadb.Storage.ByteLru.{LruEntry, Lru, place, forget, hit, retick}

module _ {ℓ} {V : Type ℓ} where
  abbrev pub total : Map ℕ (LruEntry V) → ℕ
  total [] = 0
  total ((k, e) ∷ m) = e.size + total m

  abbrev size_of : Option (LruEntry V) → ℕ
  size_of none = 0
  size_of (some e) = e.size

  pub total-insert :
      (m : Map ℕ (LruEntry V)) (k : ℕ) (e : LruEntry V)
      → Sorted m
      → total (insert m k e) + size_of (lookup m k) ≡ total m + e.size
  unfolding insert lookup
  total-insert [] k e p = omega arith
  total-insert ((j, f) ∷ m) k e p = ground (
    arith,
    total-insert m k e p.1,
    lookup-KeysAbove j m p.0,
    lookup-KeysAbove k m,
    KeysAbove-trans k j m,
    compare-lt k j,
    compare-gt k j,
    compare-eq k j,
    compare_refl k,
  )

  total-remove :
      (m : Map ℕ (LruEntry V)) (k : ℕ)
      → Sorted m
      → total (remove m k) + size_of (lookup m k) ≡ total m
  unfolding remove lookup
  total-remove [] k p = omega arith
  total-remove ((j, f) ∷ m) k p =
      ground (arith, total-remove m k p.1, lookup-KeysAbove j m p.0, eq_of_same j k)

  -- The entries and the order of use name each other, and the bytes are the sum of the sizes.
  pub record Linked (c : Lru V) : Type ℓ where
    pub entries_sorted : Sorted c.entries
    pub recency_sorted : Sorted c.recency
    pub counted : c.bytes ≡ total c.entries
    pub listed :
        (page : ℕ) (e : LruEntry V)
        → lookup c.entries page ≡ some e
        → lookup c.recency e.tick ≡ some page
    pub known :
        (tick page : ℕ)
        → lookup c.recency tick ≡ some page
        → (e : LruEntry V) × (lookup c.entries page ≡ some e) × (e.tick ≡ tick)
    pub fresh : (tick page : ℕ) → lookup c.recency tick ≡ some page → tick < c.next_tick

  pub Linked-forget :
      (c : Lru V) (page : ℕ) (o : Option (LruEntry V))
      → lookup c.entries page ≡ o
      → Linked c
      → Linked (forget page o c)
  Linked-forget c page none e l = l
  Linked-forget c page (some old) e l = record {
    entries_sorted = remove-Sorted c.entries page l.entries_sorted;
    recency_sorted = remove-Sorted c.recency old.tick l.recency_sorted;
    counted = ground (arith, total-remove c.entries page l.entries_sorted, e, l.counted);
    listed = λ q f g. ground (
      arith,
      g,
      lookup-remove c.entries page q,
      lookup-remove c.recency old.tick f.tick,
      l.listed q f,
      l.listed page old e,
      eq_of_same old.tick f.tick,
      same_refl page,
    );
    known = λ t q g.
        let (f, a, b) = l.known t q (ground (arith, g, lookup-remove c.recency old.tick t)) in
        (
          f,
          ground (
            arith,
            g,
            a,
            b,
            e,
            lookup-remove c.recency old.tick t,
            lookup-remove c.entries page q,
            eq_of_same page q,
            same_refl t,
          ),
          b,
        );
    fresh = λ t q g. ground (arith, g, lookup-remove c.recency old.tick t, l.fresh t q);
  }

  abbrev fresh_entry : Lru V → V → ℕ → LruEntry V
  fresh_entry c value size = record { value = value; size = size; tick = c.next_tick }

  pub Linked-place :
      (c : Lru V) (page : ℕ) (value : V) (size : ℕ)
      → lookup c.entries page ≡ none
      → Linked c
      → Linked (place page value size c)
  Linked-place c page value size e l = record {
    entries_sorted = insert-Sorted c.entries page _ l.entries_sorted;
    recency_sorted = insert-Sorted c.recency c.next_tick page l.recency_sorted;
    counted = ground (
      arith,
      total-insert c.entries page (record { value = value; size = size; tick = c.next_tick })
          l.entries_sorted,
      e,
      l.counted,
    );
    listed = λ q f g. ground (
      arith,
      g,
      lookup-insert c.entries page q (fresh_entry c value size),
      lookup-insert c.recency c.next_tick f.tick page,
      l.listed q f,
      l.fresh f.tick q,
      eq_of_same page q,
      same_refl c.next_tick,
      eq_of_same c.next_tick f.tick,
    );
    known = λ t q g. elim (Bool-cases (same c.next_tick t)) [
      | inl new ↦ (
        fresh_entry c value size,
        ground (
          arith,
          g,
          new,
          lookup-insert c.recency c.next_tick t page,
          lookup-insert c.entries page q (fresh_entry c value size),
          same_refl q,
        ),
        eq_of_same c.next_tick t new,
      )
      | inr old ↦
          let (f, a, b) =
            l.known t q (ground (arith, g, old, lookup-insert c.recency c.next_tick t page)) in
          (
            f,
            ground (
              arith,
              a,
              e,
              lookup-insert c.entries page q (fresh_entry c value size),
              eq_of_same page q,
            ),
            b,
          )
    ];
    fresh = λ t q g. ground (
      arith,
      g,
      lookup-insert c.recency c.next_tick t page,
      l.fresh t q,
      eq_of_same c.next_tick t,
    );
  }

  pub Linked-hit :
      (c : Lru V) (page : ℕ) (e : LruEntry V)
      → lookup c.entries page ≡ some e
      → Linked c
      → Linked (hit page e c)
  Linked-hit c page e h l = record {
    entries_sorted = insert-Sorted c.entries page _ l.entries_sorted;
    recency_sorted =
        insert-Sorted (remove c.recency e.tick) c.next_tick page
          (remove-Sorted c.recency e.tick l.recency_sorted);
    counted =
        ground (
          arith,
          total-insert c.entries page (retick c.next_tick e) l.entries_sorted,
          h,
          l.counted,
        );
    listed = λ q f g. ground (
      arith,
      g,
      lookup-insert c.entries page q (retick c.next_tick e),
      lookup-insert (remove c.recency e.tick) c.next_tick f.tick page,
      lookup-remove c.recency e.tick f.tick,
      l.listed q f,
      l.listed page e h,
      l.fresh f.tick q,
      eq_of_same page q,
      same_refl page,
      same_refl c.next_tick,
      eq_of_same c.next_tick f.tick,
      eq_of_same e.tick f.tick,
    );
    known = λ t q g. elim (Bool-cases (same c.next_tick t)) [
      | inl new ↦ (
        retick c.next_tick e,
        ground (
          arith,
          g,
          new,
          lookup-insert (remove c.recency e.tick) c.next_tick t page,
          lookup-insert c.entries page q (retick c.next_tick e),
          same_refl q,
        ),
        eq_of_same c.next_tick t new,
      )
      | inr old ↦
          let kept : (lookup c.recency t ≡ some q) × (same e.tick t ≡ false) = ground (
            arith,
            g,
            old,
            lookup-insert (remove c.recency e.tick) c.next_tick t page,
            lookup-remove c.recency e.tick t,
          ) in
          let (f, a, b) = l.known t q kept.0 in
          (
            f,
            ground (
              arith,
              a,
              b,
              h,
              kept.1,
              lookup-insert c.entries page q (retick c.next_tick e),
              eq_of_same page q,
              same_refl t,
            ),
            b,
          )
    ];
    fresh = λ t q g. ground (
      arith,
      g,
      lookup-insert (remove c.recency e.tick) c.next_tick t page,
      lookup-remove c.recency e.tick t,
      l.fresh t q,
      eq_of_same c.next_tick t,
    );
  }
