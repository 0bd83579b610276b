-- ===== src/Index/Tree/Build/Raise.antt =====
-- index/src/tree.rs: the levels that `plan` raises over the leaves end in one root.
use quantadb.Prelude.{
  ℕ, zero, suc, ◌+◌, ◌-◌, ◌*◌, ◌^◌, ◌≤◌, ◌<◌, ◌≡◌, refl, sym, ap, ◌∙◌, subst, Option, some, List,
  [], ◌∷◌, ◌++◌, length, arith,
}
use quantadb.Prelude.Result.{Result, ok, err, and_then, and_then-ok}
use quantadb.Prelude.Ord.{bytes_ord}
use quantadb.Prelude.Map.{Sorted}
use quantadb.Prelude.Seq.{All}
use quantadb.Bytes.{Bytes}
use quantadb.Storage.Error.{StorageResult, StorageError}
use quantadb.Storage.Store.{PageAllocator, PageWrite}
use quantadb.Storage.Store.Allocator.{reserve}
use quantadb.Storage.Store.Allocator.Pool.{IsAllocator, Ascending}
use quantadb.Storage.Store.Allocator.Fresh.{reserve-Handed, operations-IsAllocator}
use quantadb.Index.Error.{IndexResult}
use quantadb.Index.Node.{Entry}
use quantadb.Index.Node.RoundTrip.{ArePages}
use quantadb.Index.Tree.{from_storage}
use quantadb.Index.Tree.Partition.{Child, Group}
use quantadb.Index.Tree.Partition.Bounds.{Sized, partition_internal-AreGroups}
use quantadb.Index.Tree.Lookup.{Reading, Tree, AtLeast, Children}
use quantadb.Index.Tree.Order.{All-append}
use quantadb.Index.Tree.Build.{
  reserve_pages, raise_level, raise_levels, level_nodes, first_page, next_level, add_writes,
}
use quantadb.Index.Tree.Build.Levels.{Reads, Level, level_nodes-Level, ungroup}

-- the ids that an allocator hands out fit the fields of nodes
abbrev ArePageIds : List ℕ → Type 0
ArePageIds = All (λ page_id. page_id < 2 ^ 64 - 1)

Ascending-ArePageIds :
    (low high : ℕ) (page_ids : List ℕ)
    → high < 2 ^ 64
    → Ascending low high page_ids
    → ArePageIds page_ids × (low ≤ high)
Ascending-ArePageIds low high [] h a = (tt, a)
Ascending-ArePageIds low high (page_id ∷ page_ids) h a =
    let (rest, low_end) = Ascending-ArePageIds (page_id + 1) high page_ids h a.1 in
    ((omega (arith, low_end), rest), omega (arith, low_end, a.0))

reserve-below :
    (a : PageAllocator) (count : ℕ) (page_ids : List ℕ)
    → (reserve a count).1 ≡ ok page_ids
    → (reserve a count).0.next_page_id < 2 ^ 64
unfolding reserve
reserve-below a count page_ids e = ground arith

pub from_storage-ok :
    {A : Type 0} (r : Result StorageError A) (value : A) → from_storage r ≡ ok value → r ≡ ok value
from_storage-ok (err failure) value e = cc
from_storage-ok (ok found) value e = cc

pub reserve_pages-ArePageIds :
    (a : PageAllocator) (count : ℕ) (page_ids : List ℕ)
    → IsAllocator a
    → (reserve_pages a count).1 ≡ ok page_ids
    → (length page_ids ≡ count) × ArePageIds page_ids × IsAllocator (reserve_pages a count).0
unfolding reserve_pages
reserve_pages-ArePageIds a count page_ids v e =
    let taken = from_storage-ok (reserve a count).1 page_ids e in
    let (size, rising, handed) =
      reserve-Handed a (reserve a count).0 count page_ids v
        (ap (λ r. ((reserve a count).0, r)) taken) in
    (
      size,
      (Ascending-ArePageIds 0 (reserve a count).0.next_page_id page_ids
          (reserve-below a count page_ids taken) rising).0,
      (operations-IsAllocator a v).0 count,
    )

-- a level as a condition on its list of children
abbrev Held : (ℕ → StorageResult (Option Bytes)) → ℕ → Bytes → List Entry → List Child → Type 0
Held read_page below key entries [] = ⊥
Held read_page below key entries (child ∷ children) =
    (child.0 ≡ key)
    × AtLeast child.0 entries
    × Children (Tree (Reading read_page) below) child.1 children entries
    × Sorted (child ∷ children)
    × ArePages (child ∷ children)
    × Sized (child ∷ children)

-- the nodes over groups of children
raise_groups :
    (read_page : ℕ → StorageResult (Option Bytes)) (a : PageAllocator) (below : ℕ) (key : Bytes)
    (groups : List Group) (parents : List Child) (writes : List PageWrite) (entries : List Entry)
    → IsAllocator a
    → suc below < 2 ^ 16
    → Held read_page below key entries (ungroup groups)
    → (and_then
        (reserve_pages a (length groups))
        (λ a page_ids. (a, level_nodes (suc below) groups page_ids))).1
      ≡ ok (writes, parents)
    → Reads read_page writes
    → Level read_page (suc below) key parents (length groups) entries
      × IsAllocator
          (and_then
            (reserve_pages a (length groups))
            (λ a page_ids. (a, level_nodes (suc below) groups page_ids))).0
raise_groups read_page a below key [] parents writes entries v top held e r = elim held [ ]
raise_groups read_page a below key ((first, others) ∷ groups) parents writes entries v top held e
      r =
    let (same_key, low, tree, sorted, pages, sized) = held in
    let (page_ids, taken, state, made) =
      and_then-ok (reserve_pages a (suc (length groups)))
        (λ a page_ids. (a, level_nodes (suc below) ((first, others) ∷ groups) page_ids)) e in
    let (size, ids, v') = reserve_pages-ArePageIds a (suc (length groups)) page_ids v taken in
    let level =
      level_nodes-Level read_page below first others groups page_ids writes parents entries top
        sorted pages sized size ids made r low tree in
    (
      subst (λ k. Level read_page (suc below) k parents (suc (length groups)) entries) same_key
          level,
      subst (λ (t : PageAllocator × IndexResult (List PageWrite × List Child)). IsAllocator t.0)
          (sym state) v',
    )

-- the round of the loop behind its partition
abbrev raise_from :
    PageAllocator
    → ℕ
    → IndexResult (List Group)
    → PageAllocator × IndexResult (List PageWrite × List Child)
raise_from a level cut =
    and_then (a, cut)
      (λ a groups.
        and_then (reserve_pages a (length groups))
          (λ a page_ids. (a, level_nodes level groups page_ids)))

-- A level over a level holds the same entries, with at most half as many nodes, rounded up.
raise_level-Level :
    (read_page : ℕ → StorageResult (Option Bytes)) (a : PageAllocator) (below : ℕ) (key : Bytes)
    (children parents : List Child) (writes : List PageWrite) (count : ℕ) (entries : List Entry)
    → IsAllocator a
    → suc below < 2 ^ 16
    → Level read_page below key children count entries
    → (raise_level a (suc below) children).1 ≡ ok (writes, parents)
    → Reads read_page writes
    → (fewer : ℕ) × (2 * fewer ≤ count + 1)
      × Level read_page (suc below) key parents fewer entries
      × IsAllocator (raise_level a (suc below) children).0
unfolding raise_level
raise_level-Level read_page a below key children parents writes count entries v top held e r =
    let (page_id, others, same_children, low, tree, sorted, pages, sized, n) = held in
    let (groups, cut, pieces) =
      partition_internal-AreGroups children (subst Sized (sym same_children) sized) in
    let (whole, small, half) = pieces in
    let (level, v') =
      raise_groups read_page a below key groups parents writes entries v top
        (subst (Held read_page below key entries) (sym same_children ∙ whole)
          (refl, low, tree, sorted, pages, sized))
        (ap (λ t. (raise_from a (suc below) t).1) (sym cut) ∙ e) r in
    (
      length groups,
      omega (arith, half, ap length same_children, n),
      level,
      subst (λ t. IsAllocator (raise_from a (suc below) t).0) (sym cut) v',
    )

-- The levels end in one node that holds the entries.
pub raise_levels-Tree :
    (read_page : ℕ → StorageResult (Option Bytes)) (fuel : ℕ) (a : PageAllocator) (below : ℕ)
    (key : Bytes) (children : List Child) (count : ℕ) (entries : List Entry) (top : ℕ)
    (root : List Child) (writes : List PageWrite)
    → count ≤ fuel
    → IsAllocator a
    → Level read_page below key children count entries
    → (raise_levels fuel a below children).1 ≡ ok (top, root, writes)
    → Reads read_page writes
    → Tree (Reading read_page) top (first_page root) entries
unfolding raise_levels
raise_levels-Tree read_page fuel a below key [] count entries top root writes h v held e r =
    let same = held.2 in cc
raise_levels-Tree read_page fuel a below key (child ∷ []) count entries top root writes h v held e
      r =
    let same = held.2 in
    let alone : held.1 ≡ [] = cc in
    let page : held.0 ≡ child.1 = ap first_page (sym same) in
    let bottom : below ≡ top = cc in
    let end : root ≡ child ∷ [] = cc in
    subst (λ t. Tree (Reading read_page) top (first_page t) entries) (sym end)
      (subst (λ t. Tree (Reading read_page) t child.1 entries) bottom
        (subst (λ p. Tree (Reading read_page) below p entries) page
          (subst (λ t. Children (Tree (Reading read_page) below) held.0 t entries) alone held.4)))
raise_levels-Tree read_page zero a below key (child ∷ second ∷ children) count entries top root
      writes h v held e r =
    absurd (omega (arith, h, ap length held.2, held.8))
raise_levels-Tree read_page (suc fuel) a below key (child ∷ second ∷ children) count entries top
      root writes h v held e r =
    let all = child ∷ second ∷ children in
    let (above, e1, s1, e2) =
      and_then-ok (a, next_level below)
        (λ a above.
          and_then (raise_level a above all)
            (λ a made. and_then (raise_levels fuel a above made.1) (add_writes made.0)))
        e in
    let (made, e3, s2, e4) =
      and_then-ok (raise_level a above all)
        (λ a made. and_then (raise_levels fuel a above made.1) (add_writes made.0)) e2 in
    let (rest, e5, s3, e6) =
      and_then-ok (raise_levels fuel (raise_level a above all).0 above made.1) (add_writes made.0)
        e4 in
    let next_top : (above ≡ suc below) × (suc below < 2 ^ 16) = ground arith in
    let same_top : rest.0 ≡ top = cc in
    let same_root : rest.1 ≡ root = cc in
    let same_writes : made.0 ++ rest.2 ≡ writes = cc in
    let (here, later) =
      All-append (λ (write : PageWrite). read_page write.page_id ≡ ok (some write.payload)) made.0
        rest.2 (subst (Reads read_page) (sym same_writes) r) in
    let raised = subst (λ t. (raise_level a t all).1 ≡ ok made) next_top.0 e3 in
    let (fewer, half, level, v') =
      raise_level-Level read_page a below key all made.1 made.0 count entries v next_top.1 held
        raised here in
    let higher =
      raise_levels-Tree read_page fuel (raise_level a (suc below) all).0 (suc below) key made.1
        fewer entries rest.0 rest.1 rest.2 (omega (arith, h, half, ap length held.2, held.8)) v'
        level
        (subst (λ t. (raise_levels fuel (raise_level a t all).0 t made.1).1 ≡ ok rest) next_top.0
          e5)
        later in
    subst (λ t. Tree (Reading read_page) t (first_page root) entries) same_top
      (subst (λ t. Tree (Reading read_page) rest.0 (first_page t) entries) same_root higher)
