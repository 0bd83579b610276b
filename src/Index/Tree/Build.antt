-- ===== src/Index/Tree/Build.antt =====
-- index/src/tree.rs: `BPlusTree::plan`, over the pages of the storage's allocator.
pub mod Levels
pub mod Raise
pub mod Plan
pub mod Total
use quantadb.Prelude.{
  ℕ, zero, suc, ◌+◌, ◌^◌, Option, none, some, List, [], ◌∷◌, ◌++◌, if◌then◌else◌, length, ltb,
}
use quantadb.Prelude.Result.{Result, ok, err, ◌>>=◌, ◌>>◌, and_then}
use quantadb.Bytes.{Bytes}
use quantadb.Storage.Store.{PageAllocator, PageWrite}
use quantadb.Storage.Store.Allocator.{reserve}
use quantadb.Mvcc.State.{IndexRoot}
use quantadb.Index.Error.{IndexResult, entry_count_overflow}
use quantadb.Index.Node.{Node, leaf, internal, Entry, encode}
use quantadb.Index.Tree.{from_storage}
use quantadb.Index.Tree.Partition.{
  Child, Group, partition_leaves, partition_internal, validate_entries,
}

pub record IndexBuildPlan : Type 0 where
  pub root : Option IndexRoot
  pub writes : List PageWrite

abbrev pub head? {ℓ} : {A : Type ℓ} → List A → Option A
head? [] = none
head? (x ∷ xs) = some x

abbrev pub first_key_of : List Entry → Bytes
first_key_of [] = []
first_key_of (entry ∷ entries) = entry.0

-- the write of a node, and its child, before those of the nodes behind it
abbrev pub with_node :
    Bytes
    → ℕ
    → Node
    → IndexResult (List PageWrite × List Child)
    → IndexResult (List PageWrite × List Child)
with_node first_key page_id node rest = encode node >>= λ payload. rest >>= λ made.
    ok (record { page_id = page_id; payload = payload } ∷ made.0, (first_key, page_id) ∷ made.1)

-- The loop over the leaves and their pages; a leaf links to the page of the next.
unfoldable pub leaf_nodes : List (List Entry) → List ℕ → IndexResult (List PageWrite × List Child)
leaf_nodes [] page_ids = ok ([], [])
leaf_nodes (group ∷ groups) [] = ok ([], [])
leaf_nodes (group ∷ groups) (page_id ∷ page_ids) =
    with_node (first_key_of group) page_id (leaf group (head? page_ids))
      (leaf_nodes groups page_ids)

-- the loop over the nodes of a level and their pages
unfoldable pub level_nodes : ℕ → List Group → List ℕ → IndexResult (List PageWrite × List Child)
level_nodes level [] page_ids = ok ([], [])
level_nodes level (group ∷ groups) [] = ok ([], [])
level_nodes level ((first, others) ∷ groups) (page_id ∷ page_ids) =
    with_node first.0 page_id (internal level first.1 others) (level_nodes level groups page_ids)

-- `reserve_page_ids` with the error of the index
unfoldable pub reserve_pages : PageAllocator → ℕ → PageAllocator × IndexResult (List ℕ)
reserve_pages a count = let (a', page_ids) = reserve a count in (a', from_storage page_ids)

-- `level.checked_add(1)` on 16 bits
abbrev pub next_level : ℕ → IndexResult ℕ
next_level level = if ltb (level + 1) (2 ^ 16) then ok (level + 1) else err entry_count_overflow

-- one round of `while children.len() > 1`: the nodes over the children
unfoldable pub raise_level :
    PageAllocator → ℕ → List Child → PageAllocator × IndexResult (List PageWrite × List Child)
raise_level a level children =
    and_then (a, partition_internal children)
      (λ a groups.
        and_then (reserve_pages a (length groups))
          (λ a page_ids. (a, level_nodes level groups page_ids)))

-- the writes of a level, before those of the levels over it
abbrev pub add_writes :
    List PageWrite
    → PageAllocator
    → ℕ × List Child × List PageWrite
    → PageAllocator × IndexResult (ℕ × List Child × List PageWrite)
add_writes writes a (level, root, more) = (a, ok (level, root, writes ++ more))

-- The loop, on fuel that the number of children is enough for: the level of the root, the children
-- left, and the writes of all levels in order.
unfoldable pub raise_levels :
    ℕ
    → PageAllocator
    → ℕ
    → List Child
    → PageAllocator × IndexResult (ℕ × List Child × List PageWrite)
raise_levels fuel a level [] = (a, ok (level, [], []))
raise_levels fuel a level (child ∷ []) = (a, ok (level, child ∷ [], []))
raise_levels zero a level (child ∷ second ∷ children) =
    (a, ok (level, child ∷ second ∷ children, []))
raise_levels (suc fuel) a level (child ∷ second ∷ children) =
    and_then (a, next_level level)
      (λ a above.
        and_then (raise_level a above (child ∷ second ∷ children))
          (λ a made. and_then (raise_levels fuel a above made.1) (add_writes made.0)))

-- the page of `children[0]`
abbrev pub first_page : List Child → ℕ
first_page [] = 0
first_page (child ∷ children) = child.1

abbrev pub finish_plan :
    ℕ → List PageWrite → ℕ × List Child × List PageWrite → IndexResult IndexBuildPlan
finish_plan count writes (level, children, more) = next_level level >>= λ height. ok (record {
  root = some (record { page_id = first_page children; height = height; entries = count });
  writes = writes ++ more;
})

-- what `plan` does with entries that are not empty
unfoldable pub plan_entries :
    PageAllocator → List Entry → PageAllocator × IndexResult IndexBuildPlan
plan_entries a entries =
    and_then (a, partition_leaves entries)
      (λ a groups. and_then (reserve_pages a (length groups)) (λ a page_ids.
        and_then (a, leaf_nodes groups page_ids)
          (λ a made.
            and_then (raise_levels (length made.1) a 0 made.1)
              (λ a rest. (a, finish_plan (length entries) made.0 rest)))))

abbrev pub plan_or_empty : PageAllocator → List Entry → PageAllocator × IndexResult IndexBuildPlan
plan_or_empty a [] = (a, ok (record { root = none; writes = [] }))
plan_or_empty a (entry ∷ entries) = plan_entries a (entry ∷ entries)

unfoldable pub plan : PageAllocator → List Entry → PageAllocator × IndexResult IndexBuildPlan
plan a entries = and_then (a, validate_entries entries) (λ a done. plan_or_empty a entries)
