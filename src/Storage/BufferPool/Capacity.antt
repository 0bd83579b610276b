-- ===== src/Storage/BufferPool/Capacity.antt =====
-- The pool holds no more frames than its capacity, and an operation never finds it exhausted.
use quantadb.Prelude.{
  ℕ, suc, ◌+◌, ◌≤◌, ◌<◌, ◌≡◌, refl, true, false, Option, none, some, [], ◌∷◌, ltb, length, arith,
  ap, Bool-cases, Option-cases, inl, inr,
}
use quantadb.Prelude.Result.{ok, err}
use quantadb.Prelude.Ord.{nat_ord, eq_of_same, same_refl, compare_refl}
use quantadb.Prelude.Map.{
  Map, lookup, insert, remove, Sorted, insert-Sorted, remove-Sorted, length-remove_lt,
  lookup-KeysAbove, KeysAbove-trans,
}
use quantadb.Prelude.Seq.{is_some}
use quantadb.Bytes.{Bytes}
use quantadb.Storage.Error.{StorageResult}
use quantadb.Storage.Page.{Page, with_lsn}
use quantadb.Storage.BufferPool.{
  Store, Frame, BufferPool, victim, make_room, keep_frame, in_room, tick, insert_frame, answering,
  missed, get, allocated, allocating, allocate, framed, writing, write,
}

length-insert_le : (m : Map ℕ Frame) (k : ℕ) (f : Frame) → length (insert m k f) ≤ suc (length m)
unfolding insert
length-insert_le [] k f = omega arith
length-insert_le ((j, g) ∷ m) k f = ground (arith, length-insert_le m k f)

length-insert_known :
    (m : Map ℕ Frame) (k : ℕ) (f : Frame)
    → Sorted m
    → is_some (lookup m k) ≡ true
    → length (insert m k f) ≤ length m
unfolding insert lookup
length-insert_known [] k f p h = cc
length-insert_known ((j, g) ∷ m) k f p h = ground (
  arith,
  length-insert_known m k f p.1,
  lookup-KeysAbove k m,
  KeysAbove-trans k j m,
  eq_of_same j k,
  compare_refl k,
)

victim-known :
    (m : Map ℕ Frame) (page_id access : ℕ)
    → victim m ≡ some (page_id, access)
    → is_some (lookup m page_id) ≡ true
unfolding victim lookup
victim-known [] page_id access e = cc
victim-known ((j, g) ∷ m) page_id access e =
    ground (arith, victim-known m page_id access, same_refl j)

victim-some : (m : Map ℕ Frame) → victim m ≡ none → length m ≡ 0
unfolding victim
victim-some [] e = refl
victim-some ((j, g) ∷ m) e = ground arith

module _ {ℓ} {S : Type ℓ} where
  pub record Bounded (pool : BufferPool S) : Type 0 where
    pub sorted : Sorted pool.frames
    pub within : length pool.frames ≤ pool.capacity
    pub positive : 0 < pool.capacity

  -- There is always room to make, and then a new frame fits.
  make_room-Bounded :
      (pool : BufferPool S) (page_id : ℕ) (page : Page)
      → Bounded pool
      → Bounded (in_room pool page_id page (make_room pool page_id)).0
        × ((in_room pool page_id page (make_room pool page_id)).1 ≡ ok tt)
  unfolding make_room
  make_room-Bounded pool page_id page b = elim (Bool-cases (is_some (lookup pool.frames page_id))) [
    | inl here ↦
        rw (here, make_room)
          (
            kept pool page_id page b.sorted b.positive (
                omega (
                  arith,
                  b.within,
                  length-insert_known pool.frames page_id (new_frame pool page) b.sorted here,
                )),
            refl,
          )
    | inr gone ↦ elim (Bool-cases (ltb (length pool.frames) pool.capacity)) [
      | inl room ↦
          rw (gone, room, make_room)
            (
              kept pool page_id page b.sorted b.positive (
                  enough pool.capacity (length pool.frames) _ room
                    (length-insert_le pool.frames page_id (new_frame pool page))),
              refl,
            )
      | inr full ↦ elim (Option-cases (victim pool.frames)) [
        | inl nothing ↦ absurd (
            stuck pool.capacity (length pool.frames) full (victim-some pool.frames nothing)
              b.positive)
        | inr (v, found) ↦
            rw (gone, full, found, make_room)
              (
                kept (evicted pool v) page_id page (remove-Sorted pool.frames v.0 b.sorted)
                    b.positive
                    (omega (
                      arith,
                      b.within,
                      removed pool v found,
                      length-insert_le (remove pool.frames v.0) page_id (new_frame pool page),
                    )),
                refl,
              )
      ]
    ]
  ]
    where
      new_frame : BufferPool S → Page → Frame
      new_frame pool page = record { page = page; last_access = pool.clock }

      evicted : BufferPool S → ℕ × ℕ → BufferPool S
      evicted pool v = record pool {
        frames = remove pool.frames v.0;
        evictions = pool.evictions + 1;
      }

      kept :
          (pool : BufferPool S) (page_id : ℕ) (page : Page)
          → Sorted pool.frames
          → 0 < pool.capacity
          → length (insert pool.frames page_id (new_frame pool page)) ≤ pool.capacity
          → Bounded (keep_frame page_id page pool)
      kept pool page_id page p c n = record {
        sorted = insert-Sorted pool.frames page_id (new_frame pool page) p;
        within = n;
        positive = c;
      }

      enough : (c n m : ℕ) → ltb n c ≡ true → m ≤ suc n → m ≤ c
      enough c n m h k = ground arith

      stuck : (c n : ℕ) → ltb n c ≡ false → n ≡ 0 → 0 < c → ⊥
      stuck c n h z p = ground arith

      removed :
          (pool : BufferPool S) (v : ℕ × ℕ)
          → victim pool.frames ≡ some v
          → length (remove pool.frames v.0) < length pool.frames
      removed pool v found = elim (Option-cases (lookup pool.frames v.0)) [
        | inl none_there ↦
            absurd (ground (arith, victim-known pool.frames v.0 v.1 found, none_there))
        | inr (f, there) ↦ length-remove_lt pool.frames v.0 f there
      ]

  insert_frame-Bounded :
      (pool : BufferPool S) (page : Page) → Bounded pool → Bounded (insert_frame pool page).0
  unfolding insert_frame
  insert_frame-Bounded pool page b =
      (make_room-Bounded (tick pool) page.id page
        (record { sorted = b.sorted; within = b.within; positive = b.positive })).0

  answering-Bounded {κ} :
      (ops : Store S) {A : Type κ} (a : A) (r : BufferPool S × StorageResult (Unit {0}))
      → Bounded r.0
      → Bounded (answering ops a r).0
  answering-Bounded ops a (pool, ok done) b = b
  answering-Bounded ops a (pool, err e) b = b

  on_store :
      (pool : BufferPool S) (store : S) → Bounded pool → Bounded (record pool { store = store })
  on_store pool store b = record { sorted = b.sorted; within = b.within; positive = b.positive }

module _ {ℓ} {S : Type ℓ} (ops : Store S) where
  missed-Bounded :
      (pool : BufferPool S) (page_id : ℕ) (r : StorageResult (Option Page))
      → Bounded pool
      → Bounded (missed ops pool page_id r).0
  missed-Bounded pool page_id (err e) b = b
  missed-Bounded pool page_id (ok none) b = b
  missed-Bounded pool page_id (ok (some page)) b =
      answering-Bounded ops (some page) (in_room pool page_id page (make_room pool page_id))
        (make_room-Bounded pool page_id page b).0

  allocated-Bounded :
      (pool : BufferPool S) (page_id : ℕ) (r : StorageResult (Option Page))
      → Bounded pool
      → Bounded (allocated ops pool page_id r).0
  allocated-Bounded pool page_id (err e) b = b
  allocated-Bounded pool page_id (ok none) b = b
  allocated-Bounded pool page_id (ok (some page)) b =
      answering-Bounded ops page_id (insert_frame pool page) (insert_frame-Bounded pool page b)

  allocating-Bounded :
      (pool : BufferPool S) (r : S × StorageResult ℕ)
      → Bounded pool
      → Bounded (allocating ops pool r).0
  allocating-Bounded pool (store, err e) b = on_store pool store b
  allocating-Bounded pool (store, ok page_id) b =
      allocated-Bounded (record pool { store = store }) page_id (ops.read_page store page_id)
        (on_store pool store b)

  framed-Bounded :
      (pool : BufferPool S) (lsn : ℕ) (r : StorageResult Page)
      → Bounded pool
      → Bounded (framed ops pool lsn r).0
  framed-Bounded pool lsn (err e) b = b
  framed-Bounded pool lsn (ok page) b =
      answering-Bounded ops lsn (insert_frame pool page) (insert_frame-Bounded pool page b)

  writing-Bounded :
      (pool : BufferPool S) (page_id : ℕ) (payload : Bytes) (r : S × StorageResult ℕ)
      → Bounded pool
      → Bounded (writing ops pool page_id payload r).0
  writing-Bounded pool page_id payload (store, err e) b = on_store pool store b
  writing-Bounded pool page_id payload (store, ok lsn) b =
      framed-Bounded (record pool { store = store }) lsn (with_lsn page_id lsn payload)
        (on_store pool store b)

  get-Bounded :
      (pool : BufferPool S) (page_id : ℕ) → Bounded pool → Bounded (get ops pool page_id).0
  unfolding get
  get-Bounded pool page_id b = elim (Option-cases (lookup pool.frames page_id)) [
    | inl gone ↦
        rw (gone, get)
          (missed-Bounded (record pool { clock = pool.clock + 1; misses = pool.misses + 1 }) page_id
            (ops.read_page pool.store page_id)
            (record { sorted = b.sorted; within = b.within; positive = b.positive }))
    | inr (frame, here) ↦
        rw (here, get)
          (record {
            sorted = insert-Sorted pool.frames page_id (used pool frame) b.sorted;
            within = omega (
              arith,
              b.within,
              length-insert_known pool.frames page_id (used pool frame) b.sorted (ap is_some here),
            );
            positive = b.positive;
          })
  ]
    where
      used : BufferPool S → Frame → Frame
      used pool frame = record { page = frame.page; last_access = pool.clock + 1 }

  -- Whatever the store answers, a read, an allocation and a write leave no more frames than the
  -- capacity.
  pub pool-Bounded :
      (pool : BufferPool S) (page_id : ℕ) (payload : Bytes)
      → Bounded pool
      → Bounded (get ops pool page_id).0
        × Bounded (allocate ops pool payload).0
        × Bounded (write ops pool page_id payload).0
  unfolding allocate write
  pool-Bounded pool page_id payload b = (
    get-Bounded pool page_id b,
    allocating-Bounded pool (ops.allocate_page pool.store payload) b,
    writing-Bounded pool page_id payload (ops.write_page pool.store page_id payload) b,
  )
