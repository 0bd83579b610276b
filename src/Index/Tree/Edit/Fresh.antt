-- ===== src/Index/Tree/Edit/Fresh.antt =====
-- index/src/tree.rs: what the pages and the overlay of an editor hold, and that `allocate` keeps it.
use quantadb.Prelude.{
  ℕ, zero, suc, ◌<◌, ◌≡◌, refl, sym, ap, ◌∙◌, subst, true, false, Option, none, List, [], ◌∷◌,
  arith, ◌⊎◌, Bool-cases, inl, inr,
}
use quantadb.Prelude.Result.{ok, and_then-ok}
use quantadb.Prelude.Ord.{nat_ord, same, eq_of_same, same_refl}
use quantadb.Prelude.Map.{Map, lookup, insert, lookup-insert}
use quantadb.Bytes.{Bytes}
use quantadb.Storage.Error.{StorageResult}
use quantadb.Storage.Store.{PageAllocator}
use quantadb.Storage.Store.Allocator.{reserve, take_free}
use quantadb.Storage.Store.Allocator.Pool.{IsAllocator, Handed}
use quantadb.Storage.Store.Allocator.Fresh.{reserve-Handed, operations-IsAllocator}
use quantadb.Index.Error.{IndexResult}
use quantadb.Index.Node.{Node, leaf, internal}
use quantadb.Index.Tree.Build.{reserve_pages}
use quantadb.Index.Tree.Build.Raise.{from_storage-ok}
use quantadb.Index.Tree.Edit.Row.{NoEmptyLeaf}
use quantadb.Index.Tree.Edit.{Editor, allocate, put_node, read}

-- a page that was handed out and has not been released
abbrev pub Taken : PageAllocator → ℕ → Type 0
Taken a page_id = (page_id < a.next_page_id) × (lookup a.free_pages page_id ≡ none)

abbrev pub IsFilled : Node → Type 0
IsFilled (leaf [] next) = ⊥
IsFilled (leaf (entry ∷ entries) next) = Unit
IsFilled (internal level first_child separators) = Unit

-- The nodes that an editor reads from pages in use; none of them is an empty leaf.
abbrev pub Stands : (ℕ → StorageResult (Option Bytes)) → Editor → ℕ → Node → Type 0
Stands read_page ed page_id node =
    (read read_page ed page_id ≡ ok node) × Taken ed.allocator page_id × IsFilled node

lookup-take_free :
    (count : ℕ) (free : Map ℕ (Unit {0})) (page_id : ℕ)
    → lookup free page_id ≡ none
    → lookup (take_free count free).1 page_id ≡ none
unfolding take_free lookup
lookup-take_free zero free page_id h = h
lookup-take_free (suc count) [] page_id h = refl
lookup-take_free (suc count) ((p, mark) ∷ free) page_id h =
    lookup-take_free count free page_id (ground arith)

reserve-Taken :
    (a : PageAllocator) (count : ℕ) (page_id : ℕ)
    → Taken a page_id
    → Taken (reserve a count).0 page_id
unfolding reserve
reserve-Taken a count page_id t =
    ground (arith, t.0, lookup-take_free count a.free_pages page_id t.1)

-- what `allocate` has done where it succeeds
allocated :
    (ed : Editor) (node : Node) (page_id : ℕ)
    → (allocate ed node).1 ≡ ok page_id
    → (page_ids : List ℕ) × ((reserve_pages ed.allocator 1).1 ≡ ok (page_id ∷ page_ids))
      × ((allocate ed node).0 ≡ record {
        allocator = (reserve_pages ed.allocator 1).0;
        root = ed.root;
        overlay = insert ed.overlay page_id node;
      })
unfolding allocate
allocated ed node page_id e =
    let (page_ids, e1, s, e2) =
      and_then-ok
        (
          record ed { allocator = (reserve_pages ed.allocator 1).0 },
          (reserve_pages ed.allocator 1).1,
        )
        (put_node node) e in
    first page_ids e1 s e2
  where
    first :
        (page_ids : List ℕ)
        → (reserve_pages ed.allocator 1).1 ≡ ok page_ids
        → (allocate ed node)
          ≡ put_node node (record ed { allocator = (reserve_pages ed.allocator 1).0 }) page_ids
        → (put_node node (record ed { allocator = (reserve_pages ed.allocator 1).0 }) page_ids).1
          ≡ ok page_id
        → (page_ids : List ℕ) × ((reserve_pages ed.allocator 1).1 ≡ ok (page_id ∷ page_ids))
          × ((allocate ed node).0 ≡ record {
            allocator = (reserve_pages ed.allocator 1).0;
            root = ed.root;
            overlay = insert ed.overlay page_id node;
          })
    first [] e1 s e2 = cc
    first (p ∷ page_ids) e1 s e2 =
        let same_page : p ≡ page_id = cc in
        (
          page_ids,
          subst (λ q. (reserve_pages ed.allocator 1).1 ≡ ok (q ∷ page_ids)) same_page e1,
          ap (λ (t : Editor × IndexResult ℕ). t.0) s
              ∙ ap
                  (λ q. record {
                    allocator = (reserve_pages ed.allocator 1).0;
                    root = ed.root;
                    overlay = insert ed.overlay q node;
                  })
                  same_page,
        )

reserve_pages-Handed :
    (a : PageAllocator) (page_id : ℕ) (page_ids : List ℕ)
    → IsAllocator a
    → (reserve_pages a 1).1 ≡ ok (page_id ∷ page_ids)
    → Handed a (reserve a 1).0 page_id
unfolding reserve_pages
reserve_pages-Handed a page_id page_ids v e =
    let taken = from_storage-ok (reserve a 1).1 (page_id ∷ page_ids) e in
    (reserve-Handed a (reserve a 1).0 1 (page_id ∷ page_ids) v
      (ap (λ r. ((reserve a 1).0, r)) taken)).2.0

-- the editor with one node more on a page that was not in use
abbrev added : Editor → ℕ → Node → Editor
added ed page_id node = record {
  allocator = (reserve ed.allocator 1).0;
  root = ed.root;
  overlay = insert ed.overlay page_id node;
}

added-Stands :
    (read_page : ℕ → StorageResult (Option Bytes)) (ed : Editor) (page_id : ℕ) (node : Node)
    → Handed ed.allocator (reserve ed.allocator 1).0 page_id
    → IsFilled node
    → Stands read_page (added ed page_id node) page_id node
unfolding read
added-Stands read_page ed page_id node h f = (
  rw (read, lookup-insert ed.overlay page_id page_id node, same_refl page_id) refl,
  (h.1, h.2),
  f,
)

added-keep :
    (read_page : ℕ → StorageResult (Option Bytes)) (ed : Editor) (page_id : ℕ) (node : Node)
    → Handed ed.allocator (reserve ed.allocator 1).0 page_id
    → (p : ℕ) (n : Node) → Stands read_page ed p n
    → Stands read_page (added ed page_id node) p n
unfolding read
added-keep read_page ed page_id node h p n (r, t, f) = (
  rw (read, lookup-insert ed.overlay page_id p node, other (Bool-cases (same page_id p))) r,
  reserve-Taken ed.allocator 1 p t,
  f,
)
  where
    other : (same page_id p ≡ true) ⊎ (same page_id p ≡ false) → same page_id p ≡ false
    other (inl h') =
        let one_page = eq_of_same page_id p h' in absurd (ground (arith, h.0, t.0, t.1, one_page))
    other (inr h') = h'

-- What an editor still has after steps: its allocator and its root, and the nodes on its pages.
abbrev pub Keeps : (ℕ → StorageResult (Option Bytes)) → Editor → Editor → Type 0
Keeps read_page ed now =
    IsAllocator now.allocator
    × (now.root ≡ ed.root)
    × ((p : ℕ) (n : Node) → Stands read_page ed p n → Stands read_page now p n)

pub Keeps-trans :
    (read_page : ℕ → StorageResult (Option Bytes)) (a b c : Editor)
    → Keeps read_page a b
    → Keeps read_page b c
    → Keeps read_page a c
Keeps-trans read_page a b c h k = (k.0, k.1 ∙ h.1, λ p n s. k.2 p n (h.2 p n s))

-- A page that `allocate` gives holds the node, and every page in use holds what it did.
pub allocate-Keeps :
    (read_page : ℕ → StorageResult (Option Bytes)) (ed : Editor) (node : Node) (page_id : ℕ)
    → IsAllocator ed.allocator
    → IsFilled node
    → (allocate ed node).1 ≡ ok page_id
    → Stands read_page (allocate ed node).0 page_id node × Keeps read_page ed (allocate ed node).0
unfolding reserve_pages
allocate-Keeps read_page ed node page_id v f e =
    let (page_ids, e1, e2) = allocated ed node page_id e in
    let h = reserve_pages-Handed ed.allocator page_id page_ids v e1 in
    subst (λ (t : Editor). Stands read_page t page_id node × Keeps read_page ed t) (sym e2)
      (
        added-Stands read_page ed page_id node h f,
        ((operations-IsAllocator ed.allocator v).0 1, refl, added-keep read_page ed page_id node h),
      )

pub Stands-NoEmptyLeaf :
    (read_page : ℕ → StorageResult (Option Bytes)) (ed : Editor) → NoEmptyLeaf (Stands read_page ed)
Stands-NoEmptyLeaf read_page ed page_id next h = h.2
