-- ===== src/Storage/Store/Allocator/Fresh.antt =====
-- storage/src/store.rs: the ids that `PageAllocator` hands out are new to their holder.
use quantadb.Prelude.{
  ℕ, zero, suc, ◌+◌, ◌-◌, ◌≤◌, ◌<◌, ◌≡◌, refl, none, some, List, [], ◌∷◌, ◌++◌, length, arith,
  subst, length-append, Option-cases, inl, inr,
}
use quantadb.Prelude.Result.{ok}
use quantadb.Prelude.Ord.{nat_ord}
use quantadb.Prelude.Map.{Map, lookup}
use quantadb.Prelude.Seq.{All}
use quantadb.Bytes.{checked_add}
use quantadb.Storage.Store.{PageAllocator}
use quantadb.Storage.Store.Allocator.{
  take_free, numbered, reserve, release_one, release, note_written,
}
use quantadb.Storage.Store.Allocator.Pool.{
  Pool-bounds, Pool-wider, lookup-Pool, Pool-insert, take_free-Pool, take_free-short,
  length-numbered, numbered-Ascending, Ascending-append, Pool, IsAllocator, Ascending, Handed,
}

All-zip :
    {P Q R : ℕ → Type 0} (ns : List ℕ)
    → ((n : ℕ) → P n → Q n → R n)
    → All P ns
    → All Q ns
    → All R ns
All-zip [] f p q = tt
All-zip (n ∷ ns) f p q = (f n p.0 q.0, All-zip ns f p.1 q.1)

All-append : (P : ℕ → Type 0) (ns ms : List ℕ) → All P ns → All P ms → All P (ns ++ ms)
All-append P [] ms p q = q
All-append P (n ∷ ns) ms p q = (p.0, All-append P ns ms p.1 q)

lookup-Pool_above :
    (low high : ℕ) (free : Map ℕ (Unit {0})) (q : ℕ)
    → Pool low high free
    → high ≤ q
    → lookup free q ≡ none
unfolding lookup
lookup-Pool_above low high [] q p h = refl
lookup-Pool_above low high ((page_id, mark) ∷ free) q p h =
    let rest = lookup-Pool_above (page_id + 1) high free q p.1 h in
    let apart = Pool-bounds (page_id + 1) high free p.1 in ground (arith, rest, apart)

Ascending-All :
    (low high : ℕ) (ns : List ℕ) → Ascending low high ns → All (λ n. (low ≤ n) × (n < high)) ns
Ascending-All low high [] a = tt
Ascending-All low high (n ∷ ns) a = (
  (a.0, top ns a.1),
  All-zip ns (λ m p q. (omega (arith, p.0, a.0), p.1)) (Ascending-All (n + 1) high ns a.1)
      (Ascending-All (n + 1) high ns a.1),
)
  where
    top : {n : ℕ} (ns : List ℕ) → Ascending (n + 1) high ns → n < high
    top [] a = omega arith
    top (m ∷ ns) a = omega (arith, a.0, top ns a.1)

take_free-free :
    (count low high : ℕ) (free : Map ℕ (Unit {0}))
    → Pool low high free
    → All (λ n. lookup free n ≡ some tt) (take_free count free).0
unfolding take_free lookup
take_free-free zero low high free p = tt
take_free-free (suc count) low high [] p = tt
take_free-free (suc count) low high ((page_id, mark) ∷ free) p =
    let (mid, taken, left) = take_free-Pool count (page_id + 1) high free p.1 in
    (
      ground arith,
      All-zip (take_free count free).0 (λ n e b. ground (arith, e, b))
          (take_free-free count (page_id + 1) high free p.1)
          (Ascending-All (page_id + 1) mid (take_free count free).0 taken),
    )

reserve-cases :
    (a a' : PageAllocator) (count : ℕ) (page_ids : List ℕ)
    → reserve a count ≡ (a', ok page_ids)
    → (record {
      next_page_id = a.next_page_id + (count - length (take_free count a.free_pages).0);
      free_pages = (take_free count a.free_pages).1;
    }
        ≡ a')
      × ((take_free count a.free_pages).0
            ++ numbered a.next_page_id (count - length (take_free count a.free_pages).0)
          ≡ page_ids)
unfolding reserve
reserve-cases a a' count page_ids h = ground (arith, h)

-- The allocator and the ids of a `reserve` that succeeds.
after_reserve : PageAllocator → ℕ → PageAllocator
after_reserve a count = record {
  next_page_id = a.next_page_id + (count - length (take_free count a.free_pages).0);
  free_pages = (take_free count a.free_pages).1;
}

handed_ids : PageAllocator → ℕ → List ℕ
handed_ids a count =
    (take_free count a.free_pages).0
    ++ numbered a.next_page_id (count - length (take_free count a.free_pages).0)

handed_ids-length : (a : PageAllocator) (count : ℕ) → length (handed_ids a count) ≡ count
unfolding handed_ids
handed_ids-length a count =
    let taken = (take_free count a.free_pages).0 in
    let whole = length-append taken (numbered a.next_page_id (count - length taken)) in
    let fresh = length-numbered a.next_page_id (count - length taken) in
    elim (take_free-short count a.free_pages) [
      | inl e ↦ omega (arith, e, whole, fresh)
      | inr (e, g) ↦ omega (arith, e, whole, fresh)
    ]

handed_ids-Ascending :
    (a : PageAllocator) (count : ℕ)
    → IsAllocator a
    → Ascending 0 (after_reserve a count).next_page_id (handed_ids a count)
unfolding handed_ids after_reserve
handed_ids-Ascending a count v =
    let (mid, taken, left) = take_free-Pool count 0 a.next_page_id a.free_pages v in
    Ascending-append 0 mid a.next_page_id _ (take_free count a.free_pages).0 _ taken
      (Pool-bounds mid a.next_page_id (take_free count a.free_pages).1 left)
      (numbered-Ascending a.next_page_id (count - length (take_free count a.free_pages).0))

handed_ids-Handed :
    (a : PageAllocator) (count : ℕ)
    → IsAllocator a
    → All (Handed a (after_reserve a count)) (handed_ids a count)
unfolding handed_ids after_reserve
handed_ids-Handed a count v =
    let (mid, taken, left) = take_free-Pool count 0 a.next_page_id a.free_pages v in
    let rest = (take_free count a.free_pages).1 in
    let fresh = count - length (take_free count a.free_pages).0 in
    let within = Pool-bounds mid a.next_page_id rest left in
    All-append (Handed a (after_reserve a count)) (take_free count a.free_pages).0
      (numbered a.next_page_id fresh)
      (All-zip (take_free count a.free_pages).0
        (λ n e b.
          (inl e, omega (arith, b.1, within), lookup-Pool mid a.next_page_id rest n left b.1))
        (take_free-free count 0 a.next_page_id a.free_pages v)
        (Ascending-All 0 mid (take_free count a.free_pages).0 taken))
      (All-zip (numbered a.next_page_id fresh)
        (λ n b c. (inr b.0, b.1, lookup-Pool_above mid a.next_page_id rest n left b.0))
        (Ascending-All a.next_page_id _ _ (numbered-Ascending a.next_page_id fresh))
        (Ascending-All a.next_page_id _ _ (numbered-Ascending a.next_page_id fresh)))

-- The ids of a successful `reserve` are as many as were asked for, all different and below the next
-- id, were free or never handed out, and are free no longer.
pub reserve-Handed :
    (a a' : PageAllocator) (count : ℕ) (page_ids : List ℕ)
    → IsAllocator a
    → reserve a count ≡ (a', ok page_ids)
    → (length page_ids ≡ count) × Ascending 0 a'.next_page_id page_ids × All (Handed a a') page_ids
unfolding handed_ids after_reserve
reserve-Handed a a' count page_ids v h =
    let (e, g) = reserve-cases a a' count page_ids h in
    subst (λ t. (length t ≡ count) × Ascending 0 a'.next_page_id t × All (Handed a a') t) g
      (subst
        (λ (t : PageAllocator).
          (length (handed_ids a count) ≡ count)
          × Ascending 0 t.next_page_id (handed_ids a count)
          × All (Handed a t) (handed_ids a count))
        e (handed_ids-length a count, handed_ids-Ascending a count v, handed_ids-Handed a count v))

reserve-IsAllocator :
    (a : PageAllocator) (count : ℕ) → IsAllocator a → IsAllocator (reserve a count).0
unfolding reserve
reserve-IsAllocator a count v =
    let (mid, taken, left) = take_free-Pool count 0 a.next_page_id a.free_pages v in
    let lower = lowered mid a.next_page_id (take_free count a.free_pages).1 left in
    elim (Option-cases
      (checked_add a.next_page_id (count - length (take_free count a.free_pages).0))) [
        | inl e ↦ ground (arith, e, lower)
        | inr (end, e) ↦
            let within : a.next_page_id ≤ end = ground (arith, e) in
            let wider =
              Pool-wider 0 a.next_page_id end (take_free count a.free_pages).1 within lower in
            ground (arith, e, wider)
      ]
  where
    lowered : (low high : ℕ) (free : Map ℕ (Unit {0})) → Pool low high free → Pool 0 high free
    lowered low high [] p = omega arith
    lowered low high ((page_id, mark) ∷ free) p = (omega arith, p.1)

release-IsAllocator :
    (a : PageAllocator) (pages : List ℕ) → IsAllocator a → IsAllocator (release a pages)
unfolding release release_one
release-IsAllocator a [] v = v
release-IsAllocator a (page_id ∷ pages) v =
    release-IsAllocator (release_one a page_id) pages
      (ground (arith, v, Pool-insert 0 a.next_page_id a.free_pages page_id))

note_written-IsAllocator :
    (a : PageAllocator) (page_id : ℕ) → IsAllocator a → IsAllocator (note_written a page_id)
unfolding note_written
note_written-IsAllocator a page_id v = Pool-wider 0 a.next_page_id _ a.free_pages (omega arith) v

-- A reserve, also one that fails, a release and a noted write keep the free pages in their order
-- and below the next id.
pub operations-IsAllocator :
    (a : PageAllocator)
    → IsAllocator a
    → ((count : ℕ) → IsAllocator (reserve a count).0)
      × ((pages : List ℕ) → IsAllocator (release a pages))
      × ((page_id : ℕ) → IsAllocator (note_written a page_id))
operations-IsAllocator a v = (
  λ count. reserve-IsAllocator a count v,
  λ pages. release-IsAllocator a pages v,
  λ page_id. note_written-IsAllocator a page_id v,
)
