-- ===== src/Index/Tree/Build/Total.antt =====
-- index/src/tree.rs: when `plan` succeeds.
use quantadb.Prelude.{
  ℕ, zero, suc, ◌+◌, ◌-◌, ◌*◌, ◌^◌, ◌≤◌, ◌<◌, ◌≡◌, ◌≢◌, refl, ap, ◌∙◌, sym, subst, List, [], ◌∷◌,
  ◌++◌, length, true, none, some, arith, ltb, not, length-append,
}
use native.Mathlib.Nat.{pow-succ'}
use quantadb.Prelude.Result.{ok}
use quantadb.Prelude.Seq.{All}
use quantadb.Bytes.{Bytes, zeroes}
use quantadb.Storage.Store.{PageAllocator, PageWrite}
use quantadb.Storage.Store.Allocator.{reserve, take_free, numbered}
use quantadb.Index.Error.{IndexResult}
use quantadb.Index.Node.{
  Node, leaf, internal, Entry, encode, encoded_length, checked_entry_length, count_u32, entries_of,
  fill,
}
use quantadb.Index.Node.Valid.{entries_size}
use quantadb.Index.Node.RoundTrip.{length-entries_size}
use quantadb.Index.Tree.Partition.{Child, Group, validate_entries}
use quantadb.Index.Tree.Partition.Bounds.{
  Sized, concat, partition_leaves-ArePieces, partition_internal-AreGroups, validate_entries_lem,
}
use quantadb.Index.Tree.Build.Levels.{ungroup}
use quantadb.Index.Tree.Order.{All-append}
use quantadb.Index.Tree.Build.{
  head?, with_node, leaf_nodes, level_nodes, reserve_pages, raise_level, raise_levels, plan_entries,
  plan, IndexBuildPlan, first_page,
}

encoded_length-ok :
    (total : ℕ) (entries : List Entry)
    → total + entries_size entries < 2 ^ 64
    → encoded_length total entries ≡ ok (total + entries_size entries)
unfolding encoded_length checked_entry_length
encoded_length-ok total [] h = ground arith
encoded_length-ok total ((key, page_id) ∷ entries) h = rw (one) (
    encoded_length-ok (total + length key + 12) entries (omega (arith, h))
    ∙ ap (λ n. ok n) (omega arith))
  where
    one : checked_entry_length total (length key) ≡ ok (total + length key + 12)
    one = ground arith

-- A node that fits its page is encoded.
encode-ok :
    (node : Node)
    → 32 + entries_size (entries_of node) ≤ 8128
    → (payload : Bytes) × (encode node ≡ ok payload)
unfolding encode count_u32
encode-ok node h = (
  fill (zeroes (32 + entries_size (entries_of node))) (length (entries_of node)) node,
  rw (encoded_length-ok 32 (entries_of node) (omega arith), fits, count) refl,
)
  where
    fits : not (ltb 8128 (32 + entries_size (entries_of node))) ≡ true
    fits = ground arith

    count : ltb (length (entries_of node)) (2 ^ 32) ≡ true
    count = ground (arith, length-entries_size (entries_of node))

-- Ids are handed out while there are that many below 2 ^ 64.
reserve_pages-ok :
    (a : PageAllocator) (count : ℕ)
    → a.next_page_id + count < 2 ^ 64
    → (a' : PageAllocator) × (page_ids : List ℕ) × (reserve_pages a count ≡ (a', ok page_ids))
      × (a'.next_page_id ≤ a.next_page_id + count)
unfolding reserve_pages reserve
reserve_pages-ok a count h =
    let fresh = count - length (take_free count a.free_pages).0 in
    let enough : ltb (a.next_page_id + fresh) (2 ^ 64) ≡ true = ground (arith, h) in
    (
      record {
        next_page_id = a.next_page_id + fresh;
        free_pages = (take_free count a.free_pages).1;
      },
      (take_free count a.free_pages).0 ++ numbered a.next_page_id fresh,
      rw (enough, reserve_pages, reserve) refl,
      omega arith,
    )

-- what is made of nodes that fit
abbrev Made : ℕ → IndexResult (List PageWrite × List Child) → Type 0
Made count result =
    (writes : List PageWrite) × (children : List Child) × (result ≡ ok (writes, children))
    × Sized children
    × (length children ≤ count)

concat-length :
    (groups : List (List Entry))
    → All (λ group. (group ≢ []) × (32 + entries_size group ≤ 8128)) groups
    → length groups ≤ length (concat groups)
concat-length [] h = omega arith
concat-length ([] ∷ groups) h = absurd (h.0.0 refl)
concat-length ((entry ∷ group) ∷ groups) h =
    omega (arith, concat-length groups h.1, length-append group (concat groups))

with_node-Made :
    (count : ℕ) (first_key : Bytes) (page_id : ℕ) (node : Node)
    (rest : IndexResult (List PageWrite × List Child))
    → 44 + length first_key ≤ 8128
    → 32 + entries_size (entries_of node) ≤ 8128
    → Made count rest
    → Made (suc count) (with_node first_key page_id node rest)
with_node-Made count first_key page_id node rest h fits (writes, children, e, sized, few) =
    let (payload, e') = encode-ok node fits in
    (
      record { page_id = page_id; payload = payload } ∷ writes,
      (first_key, page_id) ∷ children,
      rw (e', e) refl,
      (h, sized),
      omega (arith, few),
    )

leaf_nodes-Made :
    (groups : List (List Entry)) (page_ids : List ℕ)
    → All (λ group. (group ≢ []) × (32 + entries_size group ≤ 8128)) groups
    → Sized (concat groups)
    → Made (length groups) (leaf_nodes groups page_ids)
unfolding leaf_nodes
leaf_nodes-Made [] page_ids h sized = ([], [], refl, tt, omega arith)
leaf_nodes-Made (group ∷ groups) [] h sized = ([], [], refl, tt, omega arith)
leaf_nodes-Made ([] ∷ groups) (page_id ∷ page_ids) h sized = absurd (h.0.0 refl)
leaf_nodes-Made ((entry ∷ group) ∷ groups) (page_id ∷ page_ids) h sized =
    with_node-Made (length groups) entry.0 page_id (leaf (entry ∷ group) (head? page_ids))
      (leaf_nodes groups page_ids) sized.0 h.0.1
      (leaf_nodes-Made groups page_ids h.1
        (All-append (λ (entry : Entry). 44 + length entry.0 ≤ 8128) group (concat groups)
          sized.1).1)

level_nodes-Made :
    (level : ℕ) (groups : List Group) (page_ids : List ℕ)
    → All (λ group. 32 + entries_size group.1 ≤ 8128) groups
    → Sized (ungroup groups)
    → Made (length groups) (level_nodes level groups page_ids)
unfolding level_nodes
level_nodes-Made level [] page_ids h sized = ([], [], refl, tt, omega arith)
level_nodes-Made level (group ∷ groups) [] h sized = ([], [], refl, tt, omega arith)
level_nodes-Made level ((first, others) ∷ groups) (page_id ∷ page_ids) h sized =
    with_node-Made (length groups) first.0 page_id (internal level first.1 others)
      (level_nodes level groups page_ids) sized.0 h.0
      (level_nodes-Made level groups page_ids h.1
        (All-append (λ (entry : Entry). 44 + length entry.0 ≤ 8128) others (ungroup groups)
          sized.1).1)

-- A level over children whose keys fit is made while the ids last: at most half as many nodes.
raise_level-ok :
    (a : PageAllocator) (level : ℕ) (children : List Child)
    → Sized children
    → 2 ≤ length children
    → a.next_page_id + 2 * length children < 2 ^ 64
    → (a' : PageAllocator) × (made : List PageWrite × List Child) × (raise_level a level children
        ≡ (a', ok made))
      × Sized made.1
      × (2 * length made.1 ≤ length children + 1)
      × (a'.next_page_id + 2 * length made.1 ≤ a.next_page_id + 2 * length children)
unfolding raise_level
raise_level-ok a level children sized two ids =
    let (groups, cut, pieces) = partition_internal-AreGroups children sized in
    let (whole, fit, half) = pieces in
    let (a', page_ids, e, next) =
      reserve_pages-ok a (length groups) (omega (arith, ids, half, two)) in
    let (writes, parents, e', sized', few) =
      level_nodes-Made level groups page_ids fit (subst Sized whole sized) in
    (
      a',
      (writes, parents),
      rw (cut, e, e') refl,
      sized',
      omega (arith, half, few),
      omega (arith, half, few, next, two),
    )

-- Levels are raised to the end while the ids and the levels last.
raise_levels-ok :
    (fuel k : ℕ) (a : PageAllocator) (level : ℕ) (children : List Child)
    → Sized children
    → length children ≤ 2 ^ k
    → level + k + 1 < 2 ^ 16
    → a.next_page_id + 2 * length children < 2 ^ 64
    → (a' : PageAllocator) × (rest : ℕ × List Child × List PageWrite) × (raise_levels fuel a level
          children
        ≡ (a', ok rest))
      × (rest.0 + 1 < 2 ^ 16)
unfolding raise_levels
raise_levels-ok fuel k a level [] sized few levels ids =
    (a, (level, [], []), refl, omega (arith, levels))
raise_levels-ok fuel k a level (child ∷ []) sized few levels ids =
    (a, (level, child ∷ [], []), refl, omega (arith, levels))
raise_levels-ok zero k a level (child ∷ second ∷ children) sized few levels ids =
    (a, (level, child ∷ second ∷ children, []), refl, omega (arith, levels))
raise_levels-ok (suc fuel) zero a level (child ∷ second ∷ children) sized few levels ids =
    absurd (omega (arith, few))
raise_levels-ok (suc fuel) (suc k) a level (child ∷ second ∷ children) sized few levels ids =
    let (a', made, e, sized', half, next) =
      raise_level-ok a (level + 1) (child ∷ second ∷ children) sized (omega arith) ids in
    let (a'', rest, e', low) =
      raise_levels-ok fuel k a' (level + 1) made.1 sized' (omega (arith, half, few, pow-succ' 2 k))
        (omega (arith, levels)) (omega (arith, next, ids)) in
    let above : ltb (level + 1) (2 ^ 16) ≡ true = ground (arith, levels) in
    (a'', (rest.0, rest.1, made.0 ++ rest.2), rw (above, e, e') refl, low)

plan_entries-ok :
    (a : PageAllocator) (entries : List Entry)
    → validate_entries entries ≡ ok tt
    → a.next_page_id + 3 * length entries < 2 ^ 64
    → (built : IndexBuildPlan) × ((plan_entries a entries).1 ≡ ok built)
unfolding plan_entries
plan_entries-ok a entries valid ids =
    let (groups, cut, pieces) = partition_leaves-ArePieces entries valid in
    let fewer = concat-length groups (pieces.1) in
    let total : length (concat groups) ≡ length entries = sym (ap length pieces.0) in
    let (a', page_ids, e, next) =
      reserve_pages-ok a (length groups) (omega (arith, ids, fewer, total)) in
    let (writes, children, e', sized, few) =
      leaf_nodes-Made groups page_ids pieces.1
        (subst Sized pieces.0 (validate_entries_lem entries valid).0) in
    let (a'', rest, e'', low) =
      raise_levels-ok (length children) 64 a' 0 children sized
        (omega (arith, few, fewer, total, ids)) (omega arith)
        (omega (arith, few, fewer, total, ids, next)) in
    let tall : ltb (rest.0 + 1) (2 ^ 16) ≡ true = ground (arith, low) in
    (
      record {
        root =
            some (record {
              page_id = first_page rest.1;
              height = rest.0 + 1;
              entries = length entries;
            });
        writes = writes ++ rest.2;
      },
      rw (cut, e, e', e'', tall) refl,
    )

-- Entries that `validate_entries` lets through get a plan, if three ids for each entry are left
-- below 2 ^ 64: no key is too large for the nodes over the leaves, no node for its page, and
-- neither the ids nor the 16 bits of the levels run out.
pub plan-succeeds :
    (a : PageAllocator) (entries : List Entry)
    → validate_entries entries ≡ ok tt
    → a.next_page_id + 3 * length entries < 2 ^ 64
    → (built : IndexBuildPlan) × ((plan a entries).1 ≡ ok built)
unfolding plan
plan-succeeds a [] valid ids = (record { root = none; writes = [] }, rw (valid) refl)
plan-succeeds a (entry ∷ entries) valid ids =
    let (built, e) = plan_entries-ok a (entry ∷ entries) valid ids in (built, rw (valid) e)
