-- ===== src/Index/Tree/Build/Plan.antt =====
-- index/src/tree.rs: the writes of `plan` are those of a tree that holds the entries.
use quantadb.Prelude.{
  ℕ, suc, ◌+◌, ◌≤◌, ◌≡◌, ◌≢◌, refl, sym, ap, ◌∙◌, subst, Option, none, some, List, [], ◌∷◌, ◌++◌,
  map, length, arith,
}
use quantadb.Prelude.Result.{ok, >>=-eq-ok, and_then, and_then-ok}
use quantadb.Prelude.Ord.{bytes_ord}
use quantadb.Prelude.Map.{Sorted, lookup}
use quantadb.Prelude.Seq.{All}
use quantadb.Bytes.{Bytes}
use quantadb.Storage.Error.{StorageResult}
use quantadb.Storage.Store.{PageAllocator, PageWrite}
use quantadb.Storage.Store.Allocator.Pool.{IsAllocator}
use quantadb.Index.Error.{IndexResult}
use quantadb.Index.Node.{Entry}
use quantadb.Index.Node.RoundTrip.{ArePages}
use quantadb.Index.Tree.{get}
use quantadb.Mvcc.State.{IndexRoot}
use quantadb.Index.Node.Valid.{entries_size, KeysIncrease}
use quantadb.Index.Tree.Partition.{Child, partition_leaves, validate_entries}
use quantadb.Index.Tree.Partition.Bounds.{
  Sized, ArePieces, validate_entries_lem, partition_leaves-ArePieces,
}
use quantadb.Index.Tree.Lookup.{Reading, Tree, get-lookup, IsIndex, KeysIncrease-Sorted}
use quantadb.Index.Tree.Order.{All-append}
use quantadb.Index.Tree.Build.{
  reserve_pages, raise_levels, first_page, next_level, finish_plan, IndexBuildPlan, leaf_nodes,
  plan_entries, plan_or_empty, plan,
}
use quantadb.Index.Tree.Build.Levels.{Reads, Level, leaf_nodes-Level}
use quantadb.Index.Tree.Build.Raise.{reserve_pages-ArePageIds, raise_levels-Tree}

-- what is behind the leaves
abbrev plan_from :
    PageAllocator
    → List Entry
    → IndexResult (List (List Entry))
    → PageAllocator × IndexResult IndexBuildPlan
plan_from a entries cut =
    and_then (a, cut)
      (λ a groups. and_then (reserve_pages a (length groups)) (λ a page_ids.
        and_then (a, leaf_nodes groups page_ids)
          (λ a made.
            and_then (raise_levels (length made.1) a 0 made.1)
              (λ a rest. (a, finish_plan (length entries) made.0 rest)))))

-- what the plan says of its levels
finish_plan-IsIndex :
    (read_page : ℕ → StorageResult (Option Bytes)) (entries : List Entry) (writes : List PageWrite)
    (top : ℕ) (root : List Child) (more : List PageWrite) (p : IndexBuildPlan)
    → finish_plan (length entries) writes (top, root, more) ≡ ok p
    → (p.writes ≡ writes ++ more)
      × (Tree (Reading read_page) top (first_page root) entries → IsIndex read_page p.root entries)
finish_plan-IsIndex read_page entries writes top root more p e =
    let (height, e1, e2) = >>=-eq-ok (next_level top) _ e in
    let high : height ≡ suc top = ground arith in
    let made : record {
      root = some (record { page_id = first_page root; height = height; entries = length entries });
      writes = writes ++ more;
    }
        ≡ p =
      cc in
    (
      sym (ap (λ (t : IndexBuildPlan). t.writes) made),
      λ tree.
          subst (λ (t : IndexBuildPlan). IsIndex read_page t.root entries) made
            (top, high, refl, tree),
    )

-- `plan_entries` up to its partition
entered :
    (a : PageAllocator) (entries : List Entry) (p : IndexBuildPlan)
    → (plan_entries a entries).1 ≡ ok p
    → (plan_from a entries (partition_leaves entries)).1 ≡ ok p
unfolding plan_entries
entered a entries p e = e

plan_groups-IsIndex :
    (read_page : ℕ → StorageResult (Option Bytes)) (a : PageAllocator) (entries : List Entry)
    (first : Entry) (group : List Entry) (groups : List (List Entry)) (p : IndexBuildPlan)
    → IsAllocator a
    → ArePieces entries ((first ∷ group) ∷ groups)
    → Sorted entries
    → ArePages entries
    → Sized entries
    → (plan_from a entries (ok ((first ∷ group) ∷ groups))).1 ≡ ok p
    → Reads read_page p.writes
    → IsIndex read_page p.root entries
plan_groups-IsIndex read_page a entries first group groups p v (whole, full) sorted pages sized e
      r =
    let all = (first ∷ group) ∷ groups in
    let (page_ids, e1, s1, e2) =
      and_then-ok (reserve_pages a (length all))
        (λ a page_ids.
          and_then (a, leaf_nodes all page_ids)
            (λ a made.
              and_then (raise_levels (length made.1) a 0 made.1)
                (λ a rest. (a, finish_plan (length entries) made.0 rest))))
        e in
    let a1 = (reserve_pages a (length all)).0 in
    let (made, e3, s2, e4) =
      and_then-ok (a1, leaf_nodes all page_ids)
        (λ a made.
          and_then (raise_levels (length made.1) a 0 made.1)
            (λ a rest. (a, finish_plan (length entries) made.0 rest)))
        e2 in
    let (rest, e5, s3, e6) =
      and_then-ok (raise_levels (length made.1) a1 0 made.1)
        (λ a rest. (a, finish_plan (length entries) made.0 rest)) e4 in
    let (size, ids, v') = reserve_pages-ArePageIds a (length all) page_ids v e1 in
    let (wrote, index) = finish_plan-IsIndex read_page entries made.0 rest.0 rest.1 rest.2 p e6 in
    let (leaves, levels) =
      All-append (λ (write : PageWrite). read_page write.page_id ≡ ok (some write.payload)) made.0
        rest.2 (subst (Reads read_page) wrote r) in
    let bottom =
      leaf_nodes-Level read_page first group groups page_ids made.0 made.1
        (subst Sorted whole sorted) (subst ArePages whole pages) (subst Sized whole sized)
        (nonempty groups full.1) size ids e3 leaves in
    index (
      raise_levels-Tree read_page (length made.1) a1 0 first.0 made.1 (length all) entries rest.0
        rest.1 rest.2 (omega (arith, ap length bottom.2, bottom.8)) v'
        (subst (Level read_page 0 first.0 made.1 (length all)) (sym whole) bottom) e5 levels)
  where
    nonempty :
        (groups : List (List Entry))
        → All (λ group. (group ≢ []) × (32 + entries_size group ≤ 8128)) groups
        → All (λ group. group ≢ []) groups
    nonempty [] h = tt
    nonempty (group ∷ groups) h = (h.0.0, nonempty groups h.1)

plan_entries-IsIndex :
    (read_page : ℕ → StorageResult (Option Bytes)) (a : PageAllocator) (entry : Entry)
    (entries : List Entry) (p : IndexBuildPlan) (groups : List (List Entry))
    → IsAllocator a
    → ArePieces (entry ∷ entries) groups
    → Sorted (entry ∷ entries)
    → ArePages (entry ∷ entries)
    → Sized (entry ∷ entries)
    → (plan_from a (entry ∷ entries) (ok groups)).1 ≡ ok p
    → Reads read_page p.writes
    → IsIndex read_page p.root (entry ∷ entries)
plan_entries-IsIndex read_page a entry entries p [] v pieces sorted pages sized e r =
    let whole = pieces.0 in cc
plan_entries-IsIndex read_page a entry entries p ([] ∷ groups) v pieces sorted pages sized e r =
    absurd (pieces.1.0.0 refl)
plan_entries-IsIndex read_page a entry entries p ((first ∷ group) ∷ groups) v pieces sorted pages
      sized e r =
    plan_groups-IsIndex read_page a (entry ∷ entries) first group groups p v pieces sorted pages
      sized e r

-- A plan that succeeds makes an index: in any storage where the pages that it writes read as
-- written, its root is that of a tree of its height that holds the entries, as many as it says. The
-- allocator is one that hands out new ids, and the values are ids of pages.
pub plan-IsIndex :
    (read_page : ℕ → StorageResult (Option Bytes)) (a : PageAllocator) (entries : List Entry)
    (p : IndexBuildPlan)
    → IsAllocator a
    → ArePages entries
    → (plan a entries).1 ≡ ok p
    → Reads read_page p.writes
    → IsIndex read_page p.root entries
unfolding plan
plan-IsIndex read_page a entries p v pages e r =
    let (done, valid, state, e') =
      and_then-ok (a, validate_entries entries) (λ a done. plan_or_empty a entries) e in
    planned entries (validate_entries_lem entries valid) valid pages e'
  where
    planned :
        (entries : List Entry)
        → Sized entries × KeysIncrease (map (λ entry. entry.0) entries)
        → validate_entries entries ≡ ok tt
        → ArePages entries
        → (plan_or_empty a entries).1 ≡ ok p
        → IsIndex read_page p.root entries
    planned [] h valid pages e =
        let made : record { root = none; writes = [] } ≡ p = cc in
        subst (λ (t : IndexBuildPlan). IsIndex read_page t.root []) made refl
    planned (entry ∷ entries) h valid pages e =
        let (groups, cut, pieces) = partition_leaves-ArePieces (entry ∷ entries) valid in
        plan_entries-IsIndex read_page a entry entries p groups v pieces
          (KeysIncrease-Sorted (entry ∷ entries) h.1) pages h.0
          (ap (λ t. (plan_from a (entry ∷ entries) t).1) (sym cut)
            ∙ entered a (entry ∷ entries) p e)
          r

-- Where a plan succeeds, from an allocator that hands out new ids and with ids of pages as values,
-- and the pages that it writes read as written, `get` under its root finds each key of the entries
-- with its value, and no other key.
pub get-plan :
    (read_page : ℕ → StorageResult (Option Bytes)) (a : PageAllocator) (entries : List Entry)
    (p : IndexBuildPlan) (root : IndexRoot) (key : Bytes)
    → IsAllocator a
    → ArePages entries
    → (plan a entries).1 ≡ ok p
    → p.root ≡ some root
    → Reads read_page p.writes
    → get read_page root key ≡ ok (lookup entries key)
get-plan read_page a entries p root key v pages e e' r =
    get-lookup read_page root entries key
      (subst (λ t. IsIndex read_page t entries) e' (plan-IsIndex read_page a entries p v pages e r))
