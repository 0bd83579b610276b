-- ===== src/Examples/Pool.antt =====
-- The buffer pool over a store of one page.
use quantadb.Prelude.{ℕ, ◌+◌, some, [], ◌∷◌, arith}
use quantadb.Prelude.Result.{ok}
use quantadb.Storage.Page.{Page}
use quantadb.Storage.BufferPool.{Store, BufferPool, get, allocate, write}
use quantadb.Storage.BufferPool.Capacity.{Bounded, pool-Bounded}

abbrev first_page : Page
first_page = record { id = 0; lsn = 1; payload = 7 ∷ [] }

abbrev one_page : Store ℕ
one_page = record {
  read_page = λ s page_id. ok (some first_page);
  allocate_page = λ s payload. (s, ok 0);
  write_page = λ s page_id payload. (s + 1, ok s);
}

-- a full pool of one frame
abbrev full_pool : BufferPool ℕ
full_pool = record {
  store = 2;
  capacity = 1;
  clock = 4;
  frames = (5, record { page = first_page; last_access = 3 }) ∷ [];
  hits = 0;
  misses = 1;
  evictions = 0;
}

pool-Bounded_example :
    Bounded (get one_page full_pool 0).0
    × Bounded (allocate one_page full_pool (7 ∷ [])).0
    × Bounded (write one_page full_pool 0 (7 ∷ [])).0
pool-Bounded_example =
    pool-Bounded one_page full_pool 0 (7 ∷ [])
      (record { sorted = (tt, tt); within = omega arith; positive = omega arith })
