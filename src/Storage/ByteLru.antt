-- ===== src/Storage/ByteLru.antt =====
-- storage/src/byte_lru.rs: `SharedByteLru`, a cache of decoded values bounded by bytes, under its
-- lock. The ticks are counted without a bound; the source counts them in 64 bits.
pub mod Links
pub mod Bounds
use quantadb.Prelude.{
  ℕ, zero, suc, ◌+◌, ◌-◌, Option, none, some, List, [], ◌∷◌, if◌then◌else◌, ltb, length,
}
use quantadb.Prelude.Ord.{nat_ord}
use quantadb.Prelude.Map.{Map, lookup, insert, remove}

module _ {ℓ} (V : Type ℓ) where
  pub record LruEntry : Type ℓ where
    pub value : V
    pub size : ℕ
    pub tick : ℕ

  pub record Lru : Type ℓ where
    pub entries : Map ℕ LruEntry
    pub recency : Map ℕ ℕ
    pub next_tick : ℕ
    pub bytes : ℕ
    pub capacity : ℕ
    pub hits : ℕ
    pub misses : ℕ

pub record ByteCacheStats : Type 0 where
  pub hits : ℕ
  pub misses : ℕ
  pub entries : ℕ
  pub bytes : ℕ

module _ {ℓ} {V : Type ℓ} where
  unfoldable pub stats : Lru V → ByteCacheStats
  stats c = record { hits = c.hits; misses = c.misses; entries = length c.entries; bytes = c.bytes }

  unfoldable pub empty : ℕ → Lru V
  empty capacity = record {
    entries = [];
    recency = [];
    next_tick = 0;
    bytes = 0;
    capacity = capacity;
    hits = 0;
    misses = 0;
  }

  -- an entry moved to the tick
  abbrev pub retick : ℕ → LruEntry V → LruEntry V
  retick tick e = record e { tick = tick }

  abbrev pub hit : ℕ → LruEntry V → Lru V → Lru V
  hit page_id e c = record c {
    next_tick = c.next_tick + 1;
    entries = insert c.entries page_id (retick c.next_tick e);
    recency = insert (remove c.recency e.tick) c.next_tick page_id;
    hits = c.hits + 1;
  }

  unfoldable pub get : Lru V → ℕ → Lru V × Option V
  get c page_id = elim (lookup c.entries page_id) [
    | some e ↦ (hit page_id e c, some e.value)
    | none ↦ (record c { next_tick = c.next_tick + 1; misses = c.misses + 1 }, none)
  ]

  -- an entry gone, with its place in the order
  abbrev pub forget : ℕ → Option (LruEntry V) → Lru V → Lru V
  forget page_id none c = c
  forget page_id (some e) c = record c {
    entries = remove c.entries page_id;
    recency = remove c.recency e.tick;
    bytes = c.bytes - e.size;
  }

  unfoldable pub delete : Lru V → ℕ → Lru V
  delete c page_id = forget page_id (lookup c.entries page_id) c

  -- one round of the eviction: the oldest place is gone, and the entry that it names
  abbrev pub evict_page : ℕ → Option (LruEntry V) → Lru V → Lru V
  evict_page page_id none c = c
  evict_page page_id (some e) c = record c {
    entries = remove c.entries page_id;
    bytes = c.bytes - e.size;
  }

  -- The loop that evicts, over the order of use.
  unfoldable pub evict : Map ℕ ℕ → Lru V → Lru V
  evict [] c = c
  evict ((tick, page_id) ∷ recency) c =
      let rest =
        evict recency
          (evict_page page_id (lookup c.entries page_id) (record c { recency = recency })) in
      if ltb c.capacity c.bytes then rest else c

  -- the new entry, where an old one of its page is forgotten
  abbrev pub place : ℕ → V → ℕ → Lru V → Lru V
  place page_id value size c = record c {
    next_tick = c.next_tick + 1;
    entries = insert c.entries page_id (record { value = value; size = size; tick = c.next_tick });
    recency = insert c.recency c.next_tick page_id;
    bytes = c.bytes + size;
  }

  unfoldable pub put : Lru V → ℕ → V → ℕ → Lru V
  put c page_id value size =
      let placed = place page_id value size (forget page_id (lookup c.entries page_id) c) in
      if ltb c.capacity size then c else evict placed.recency placed
