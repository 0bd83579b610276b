-- ===== src/Storage/Store/Allocator/Pool.antt =====
-- storage/src/store.rs: the pool of free pages below the next id.
use quantadb.Prelude.{
  ℕ, zero, suc, ◌+◌, ◌≤◌, ◌<◌, ◌≡◌, refl, none, some, List, [], ◌∷◌, ◌++◌, length, arith, ap, subst,
  ◌⊎◌, inl, inr,
}
use quantadb.Prelude.Ord.{nat_ord}
use quantadb.Prelude.Map.{Map, lookup, insert}
use quantadb.Storage.Store.{PageAllocator}
use quantadb.Storage.Store.Allocator.{take_free, numbered}

-- The pages of a free pool in their order, from `low` on and below `high`.
abbrev pub Pool : ℕ → ℕ → Map ℕ (Unit {0}) → Type 0
Pool low high [] = low ≤ high
Pool low high ((page_id, mark) ∷ free) = (low ≤ page_id) × Pool (page_id + 1) high free

-- Only pages that were handed out before are free.
abbrev pub IsAllocator : PageAllocator → Type 0
IsAllocator a = Pool 0 a.next_page_id a.free_pages

-- Increasing numbers, from `low` on and below `high`
abbrev pub Ascending : ℕ → ℕ → List ℕ → Type 0
Ascending low high [] = low ≤ high
Ascending low high (n ∷ ns) = (low ≤ n) × Ascending (n + 1) high ns

-- What `reserve` gives: a page that was free or never handed out, and that is free no longer.
abbrev pub Handed : PageAllocator → PageAllocator → ℕ → Type 0
Handed a a' page_id =
    ((lookup a.free_pages page_id ≡ some tt) ⊎ (a.next_page_id ≤ page_id))
    × (page_id < a'.next_page_id)
    × (lookup a'.free_pages page_id ≡ none)

pub Pool-bounds : (low high : ℕ) (free : Map ℕ (Unit {0})) → Pool low high free → low ≤ high
Pool-bounds low high [] p = p
Pool-bounds low high ((page_id, mark) ∷ free) p =
    omega (arith, p.0, Pool-bounds (page_id + 1) high free p.1)

pub Pool-wider :
    (low high bound : ℕ) (free : Map ℕ (Unit {0}))
    → high ≤ bound
    → Pool low high free
    → Pool low bound free
Pool-wider low high bound [] h p = omega arith
Pool-wider low high bound ((page_id, mark) ∷ free) h p =
    (p.0, Pool-wider (page_id + 1) high bound free h p.1)

pub lookup-Pool :
    (low high : ℕ) (free : Map ℕ (Unit {0})) (q : ℕ)
    → Pool low high free
    → q < low
    → lookup free q ≡ none
unfolding lookup
lookup-Pool low high [] q p h = refl
lookup-Pool low high ((page_id, mark) ∷ free) q p h =
    let rest = lookup-Pool (page_id + 1) high free q p.1 (omega (arith, p.0)) in
    ground (arith, p, rest)

pub Pool-insert :
    (low high : ℕ) (free : Map ℕ (Unit {0})) (q : ℕ)
    → Pool low high free
    → low ≤ q
    → q < high
    → Pool low high (insert free q tt)
unfolding insert
Pool-insert low high [] q p l h = (l, omega arith)
Pool-insert low high ((page_id, mark) ∷ free) q p l h =
    ground (arith, p, Pool-insert (page_id + 1) high free q)

-- What is taken lies below what is left.
pub take_free-Pool :
    (count low high : ℕ) (free : Map ℕ (Unit {0}))
    → Pool low high free
    → (mid : ℕ) × Ascending low mid (take_free count free).0
      × Pool mid high (take_free count free).1
unfolding take_free
take_free-Pool zero low high free p = (low, omega arith, p)
take_free-Pool (suc count) low high [] p = (low, omega arith, p)
take_free-Pool (suc count) low high ((page_id, mark) ∷ free) p =
    let (mid, taken, left) = take_free-Pool count (page_id + 1) high free p.1 in
    (mid, (p.0, taken), left)

pub take_free-short :
    (count : ℕ) (free : Map ℕ (Unit {0}))
    → (length (take_free count free).0 ≡ count)
      ⊎ ((length (take_free count free).0 < count) × ((take_free count free).1 ≡ []))
unfolding take_free
take_free-short zero free = inl refl
take_free-short (suc count) [] = inr (omega arith, refl)
take_free-short (suc count) ((page_id, mark) ∷ free) = elim (take_free-short count free) [
  | inl e ↦ inl (ap suc e)
  | inr (e, g) ↦ inr (omega (arith, e), g)
]

pub length-numbered : (first count : ℕ) → length (numbered first count) ≡ count
unfolding numbered
length-numbered first zero = refl
length-numbered first (suc count) = ap suc (length-numbered (first + 1) count)

pub numbered-Ascending : (first count : ℕ) → Ascending first (first + count) (numbered first count)
unfolding numbered
numbered-Ascending first zero = omega arith
numbered-Ascending first (suc count) = (
  omega arith,
  subst (λ n. Ascending (first + 1) n (numbered (first + 1) count)) (omega arith)
      (numbered-Ascending (first + 1) count),
)

pub Ascending-append :
    (low mid start end : ℕ) (ns ms : List ℕ)
    → Ascending low mid ns
    → mid ≤ start
    → Ascending start end ms
    → Ascending low end (ns ++ ms)
Ascending-append low mid start end [] ms a h b = lower ms b
  where
    lower : (ms : List ℕ) → Ascending start end ms → Ascending low end ms
    lower [] b = omega arith
    lower (m ∷ ms) b = (omega (arith, b.0), b.1)
Ascending-append low mid start end (n ∷ ns) ms a h b =
    (a.0, Ascending-append (n + 1) mid start end ns ms a.1 h b)
