-- ===== src/Storage/BufferPool.antt =====
-- storage/src/buffer_pool.rs: a bounded write-through page cache over the store, which is an
-- interface. The clock and the counters are counted without the bound at which the source saturates.
pub mod Capacity
use quantadb.Prelude.{
  ℕ, zero, suc, ◌+◌, ◌==◌, Bool, true, false, Option, none, some, List, [], ◌∷◌, if◌then◌else◌, ltb,
  leb, length, ◌||◌,
}
use quantadb.Prelude.Result.{Result, ok, err}
use quantadb.Prelude.Ord.{nat_ord}
use quantadb.Prelude.Map.{Map, lookup, insert, remove}
use quantadb.Prelude.Seq.{is_some}
use quantadb.Bytes.{Bytes}
use quantadb.Storage.Error.{
  StorageResult, StorageError, configuration, buffer_pool_exhausted, page_not_found,
}
use quantadb.Storage.Page.{Page, with_lsn}

-- What the pool calls of `DurableStore`.
pub record Store {ℓ} (S : Type ℓ) : Type ℓ where
  pub read_page : S → ℕ → StorageResult (Option Page)
  pub allocate_page : S → Bytes → S × StorageResult ℕ
  pub write_page : S → ℕ → Bytes → S × StorageResult ℕ

pub record Frame : Type 0 where
  pub page : Page
  pub last_access : ℕ

pub record BufferPool {ℓ} (S : Type ℓ) : Type ℓ where
  pub store : S
  pub capacity : ℕ
  pub clock : ℕ
  pub frames : Map ℕ Frame
  pub hits : ℕ
  pub misses : ℕ
  pub evictions : ℕ

-- `iter().min_by_key(last_access)`: the key of a frame that was used least recently
unfoldable pub victim : Map ℕ Frame → Option (ℕ × ℕ)
victim [] = none
victim ((page_id, frame) ∷ frames) = elim (victim frames) [
  | none ↦ some (page_id, frame.last_access)
  | some (other, access) ↦
      if leb frame.last_access access
      then some (page_id, frame.last_access)
      else some (other, access)
]

module _ {ℓ} {S : Type ℓ} where
  unfoldable pub open_pool : S → ℕ → StorageResult (BufferPool S)
  open_pool store capacity =
      if capacity == 0
      then err configuration
      else ok (record {
        store = store;
        capacity = capacity;
        clock = 0;
        frames = [];
        hits = 0;
        misses = 0;
        evictions = 0;
      })

  abbrev pub evict : BufferPool S → Option (ℕ × ℕ) → StorageResult (BufferPool S)
  evict pool none = err (buffer_pool_exhausted pool.capacity)
  evict pool (some (page_id, access)) =
      ok (record pool { frames = remove pool.frames page_id; evictions = pool.evictions + 1 })

  unfoldable pub make_room : BufferPool S → ℕ → StorageResult (BufferPool S)
  make_room pool incoming =
      if is_some (lookup pool.frames incoming) || ltb (length pool.frames) pool.capacity
      then ok pool
      else evict pool (victim pool.frames)

  -- `frames.insert(page_id, Frame { page, last_access: clock })`
  abbrev pub keep_frame : ℕ → Page → BufferPool S → BufferPool S
  keep_frame page_id page pool = record pool {
    frames = insert pool.frames page_id (record { page = page; last_access = pool.clock });
  }

  -- a frame put where there is room, and `make_room(page_id)?`
  abbrev pub in_room :
      BufferPool S
      → ℕ
      → Page
      → StorageResult (BufferPool S)
      → BufferPool S × StorageResult (Unit {0})
  in_room pool page_id page (err e) = (pool, err e)
  in_room pool page_id page (ok roomy) = (keep_frame page_id page roomy, ok tt)

  abbrev pub tick : BufferPool S → BufferPool S
  tick pool = record pool { clock = pool.clock + 1 }

  unfoldable pub insert_frame : BufferPool S → Page → BufferPool S × StorageResult (Unit {0})
  insert_frame pool page = in_room (tick pool) page.id page (make_room (tick pool) page.id)

module _ {ℓ} {S : Type ℓ} (ops : Store S) where
  -- the result of `insert_frame`, and then the result of the operation
  abbrev pub answering {κ} :
      {A : Type κ} → A → BufferPool S × StorageResult (Unit {0}) → BufferPool S × StorageResult A
  answering a (pool, err e) = (pool, err e)
  answering a (pool, ok _) = (pool, ok a)

  abbrev pub missed :
      BufferPool S → ℕ → StorageResult (Option Page) → BufferPool S × StorageResult (Option Page)
  missed pool page_id (err e) = (pool, err e)
  missed pool page_id (ok none) = (pool, ok none)
  missed pool page_id (ok (some page)) =
      answering (some page) (in_room pool page_id page (make_room pool page_id))

  unfoldable pub get : BufferPool S → ℕ → BufferPool S × StorageResult (Option Page)
  get pool page_id =
      let ticked = tick pool in
      elim (lookup pool.frames page_id) [
        | some frame ↦ (
          keep_frame page_id frame.page (record ticked { hits = pool.hits + 1 }),
          ok (some frame.page),
        )
        | none ↦
            missed (record ticked { misses = pool.misses + 1 }) page_id
              (ops.read_page pool.store page_id)
      ]

  -- the allocated page, read back
  abbrev pub allocated :
      BufferPool S → ℕ → StorageResult (Option Page) → BufferPool S × StorageResult ℕ
  allocated pool page_id (err e) = (pool, err e)
  allocated pool page_id (ok none) = (pool, err (page_not_found page_id))
  allocated pool page_id (ok (some page)) = answering page_id (insert_frame pool page)

  abbrev pub allocating : BufferPool S → S × StorageResult ℕ → BufferPool S × StorageResult ℕ
  allocating pool (store, err e) = (record pool { store = store }, err e)
  allocating pool (store, ok page_id) =
      allocated (record pool { store = store }) page_id (ops.read_page store page_id)

  unfoldable pub allocate : BufferPool S → Bytes → BufferPool S × StorageResult ℕ
  allocate pool payload = allocating pool (ops.allocate_page pool.store payload)

  abbrev pub framed : BufferPool S → ℕ → StorageResult Page → BufferPool S × StorageResult ℕ
  framed pool lsn (err e) = (pool, err e)
  framed pool lsn (ok page) = answering lsn (insert_frame pool page)

  abbrev pub writing :
      BufferPool S → ℕ → Bytes → S × StorageResult ℕ → BufferPool S × StorageResult ℕ
  writing pool page_id payload (store, err e) = (record pool { store = store }, err e)
  writing pool page_id payload (store, ok lsn) =
      framed (record pool { store = store }) lsn (with_lsn page_id lsn payload)

  unfoldable pub write : BufferPool S → ℕ → Bytes → BufferPool S × StorageResult ℕ
  write pool page_id payload =
      writing pool page_id payload (ops.write_page pool.store page_id payload)
