-- ===== src/Index/Tree/Edit.antt =====
-- index/src/tree.rs: `Editor`, the copy-on-write edits of a tree, and `edit_plan`. The loops that
-- follow pages are on fuel, for the pages that a storage can have at most.
pub mod Row
pub mod Pieces
pub mod Fresh
pub mod Level
pub mod Frames
pub mod Climb
pub mod Chosen
pub mod Descent
pub mod Leaf
pub mod Apply
pub mod Total
use quantadb.Prelude.{
  ℕ, zero, suc, ◌+◌, ◌-◌, ◌^◌, Bool, true, false, Option, none, some, List, [], ◌∷◌, ◌++◌, ◌==◌,
  if◌then◌else◌, ltb, take, drop, set, map, not, get_or,
}
use quantadb.Prelude.Result.{ok, err, ensure, ◌>>=◌, ◌>>◌, and_then}
use quantadb.Prelude.Ord.{nat_ord}
use quantadb.Prelude.Map.{Map, lookup, insert}
use quantadb.Prelude.Seq.{partition_point, insert_at, is_some}
use quantadb.Bytes.{Bytes}
use quantadb.Storage.Error.{StorageResult}
use quantadb.Storage.Store.{PageAllocator, PageWrite}
use quantadb.Mvcc.State.{IndexRoot}
use quantadb.Mvcc.Rebuild.{IndexMutation, upsert, delete}
use quantadb.Index.Error.{
  IndexResult, corrupt_node, entry_count_overflow, internal_below_leaf, level_not_height,
  page_cycle, leaf_empty, entry_count_underflow, height_underflow, plan_cycle,
}
use quantadb.Index.Node.{Node, leaf, internal, Entry, level, encode}
use quantadb.Index.Tree.{read_node, binary_search, at_most, root_level}
use quantadb.Index.Tree.Partition.{
  Child, Group, partition_leaves, partition_internal, validate_entries,
}
use quantadb.Index.Tree.Build.{IndexBuildPlan, reserve_pages, first_key_of}

pub record EditFrame : Type 0 where
  pub level : ℕ
  pub children : List Child
  pub position : ℕ

-- The storage of an editor is its allocator and, as a parameter below, its pages.
pub record Editor : Type 0 where
  pub allocator : PageAllocator
  pub root : Option IndexRoot
  pub overlay : Map ℕ Node

-- the node that `allocate` puts on the first of the pages reserved
abbrev pub put_node : Node → Editor → List ℕ → Editor × IndexResult ℕ
put_node node ed [] = (ed, err entry_count_overflow)
put_node node ed (page_id ∷ page_ids) =
    (record ed { overlay = insert ed.overlay page_id node }, ok page_id)

unfoldable pub allocate : Editor → Node → Editor × IndexResult ℕ
allocate ed node =
    let (a, page_ids) = reserve_pages ed.allocator 1 in
    and_then (record ed { allocator = a }, page_ids) (put_node node)

-- `leaf_entries.remove(position)`
abbrev pub remove_at : List Entry → ℕ → List Entry
remove_at entries position = take position entries ++ drop (position + 1) entries

-- the change of the number of entries
pub data EntryDelta : Type 0 where
  removed kept added : EntryDelta

-- The entries of a leaf after an edit, or nothing where the key to delete is not there.
unfoldable pub edit_entries : List Entry → Bytes → Option ℕ → Option (List Entry × EntryDelta)
edit_entries entries key value = elim (binary_search entries key) [
  | ok position ↦ elim value [
    | some page_id ↦ some (set entries position (key, page_id), kept)
    | none ↦ some (remove_at entries position, removed)
  ]
  | err position ↦ elim value [
    | some page_id ↦ some (insert_at entries position (key, page_id), added)
    | none ↦ none
  ]
]

abbrev pub Made : Type 0
Made = Editor × IndexResult (List Child)

-- a child, before those of the groups behind it
abbrev pub add_child : Bytes → ℕ → Editor → List Child → Made
add_child key page_id ed children = (ed, ok ((key, page_id) ∷ children))

-- the `map` of `make_leaves` over the leaves of the partition
unfoldable pub allocate_leaves : Editor → List (List Entry) → Made
allocate_leaves ed [] = (ed, ok [])
allocate_leaves ed (group ∷ groups) =
    and_then (allocate ed (leaf group none))
      (λ ed page_id. and_then (allocate_leaves ed groups) (add_child (first_key_of group) page_id))

unfoldable pub make_leaves : Editor → List Entry → Made
make_leaves ed [] = (ed, ok [])
make_leaves ed (entry ∷ entries) = and_then (ed, partition_leaves (entry ∷ entries)) allocate_leaves

unfoldable pub allocate_level : ℕ → Editor → List Group → Made
allocate_level level ed [] = (ed, ok [])
allocate_level level ed ((first, others) ∷ groups) =
    and_then (allocate ed (internal level first.1 others))
      (λ ed page_id. and_then (allocate_level level ed groups) (add_child first.0 page_id))

unfoldable pub make_internal_level : Editor → ℕ → List Child → Made
make_internal_level ed level children =
    and_then (ed, partition_internal children) (allocate_level level)

-- `children.splice(position..position + 1, replacement)`
abbrev pub splice : EditFrame → List Child → List Child
splice frame replacement =
    take frame.position frame.children ++ (replacement ++ drop (frame.position + 1) frame.children)

abbrev pub Climbed : Type 0
Climbed = Editor × IndexResult (List Child × ℕ)

-- A round of the loop over the frames, with the rounds after it as an argument: no child left, a
-- root with one child, which takes its place, or a level over the children.
abbrev pub climb_with :
    (Editor → List Child → ℕ → Climbed) → ℕ → ℕ → Bool → Editor → ℕ → List Child → Climbed
climb_with next root_page level is_root ed height [] = next ed [] height
climb_with next root_page level true ed height (child ∷ []) = elim height [
  | zero ↦ (ed, err (corrupt_node root_page height_underflow))
  | suc lower ↦ next ed (child ∷ []) lower
]
climb_with next root_page level is_root ed height children =
    and_then (make_internal_level ed level children) (λ ed made. next ed made height)

abbrev pub is_nil {ℓ} : {A : Type ℓ} → List A → Bool
is_nil [] = true
is_nil (x ∷ xs) = false

-- the loop over the frames, from the one of the leaf up
unfoldable pub climb : List EditFrame → ℕ → Editor → List Child → ℕ → Climbed
climb [] root_page ed replacement height = (ed, ok (replacement, height))
climb (frame ∷ frames) root_page ed replacement height =
    climb_with (climb frames root_page) root_page frame.level (is_nil frames) ed height
      (splice frame replacement)

-- the number of entries after the edit
unfoldable pub entries_after : IndexRoot → EntryDelta → IndexResult ℕ
entries_after root removed = elim root.entries [
  | zero ↦ err (corrupt_node root.page_id entry_count_underflow)
  | suc count ↦ ok count
]
entries_after root kept = ok root.entries
entries_after root added =
    if ltb (root.entries + 1) (2 ^ 64) then ok (root.entries + 1) else err entry_count_overflow

abbrev pub with_root : Editor → Option IndexRoot → Editor
with_root ed root = record ed { root = root }

-- the new node as the root, where its height still has 16 bits
abbrev pub root_over : Bool → ℕ → ℕ → Editor → ℕ → Editor × IndexResult (Unit {0})
root_over false entries height ed page_id = (ed, err entry_count_overflow)
root_over true entries height ed page_id = (
  with_root ed (some (record { page_id = page_id; height = height + 1; entries = entries })),
  ok tt,
)

-- The root over what replaces the old one: none, the one node, or a new node over all of them, of
-- the height that the source then adds one to.
unfoldable pub new_root : ℕ → ℕ → Editor → List Child → Editor × IndexResult (Unit {0})
new_root entries height ed [] = (with_root ed none, ok tt)
new_root entries height ed (child ∷ []) =
    (with_root ed (some (record { page_id = child.1; height = height; entries = entries })), ok tt)
new_root entries height ed (child ∷ second ∷ children) =
    and_then (allocate ed (internal height child.1 (second ∷ children)))
      (root_over (ltb (height + 1) (2 ^ 16)) entries height)

-- What `apply` does with the edited leaf, or with nothing to do.
unfoldable pub replace_leaf :
    IndexRoot
    → List EditFrame
    → Editor
    → Option (List Entry × EntryDelta)
    → Editor × IndexResult (Unit {0})
replace_leaf root frames ed none = (ed, ok tt)
replace_leaf root frames ed (some (entries, delta)) =
    and_then (make_leaves ed entries) (λ ed leaves.
      and_then (climb frames root.page_id ed leaves root.height) (λ ed replaced.
        and_then (ed, entries_after root delta)
          (λ ed count. new_root count replaced.1 ed replaced.0)))

-- an upsert into no tree makes a leaf; a delete does nothing
unfoldable pub start_tree : Editor → Bytes → Option ℕ → Editor × IndexResult (Unit {0})
start_tree ed key none = (ed, ok tt)
start_tree ed key (some value) =
    and_then (allocate ed (leaf ((key, value) ∷ []) none)) (λ ed page_id.
      (with_root ed (some (record { page_id = page_id; height = 1; entries = 1 })), ok tt))

-- `children[position]`
abbrev pub child_at : List Child → ℕ → Child
child_at children position = get_or children position ([], 0)

abbrev pub append_frame : List EditFrame → EditFrame → List EditFrame
append_frame frames frame = frames ++ (frame ∷ [])

abbrev pub reverse {ℓ} : {A : Type ℓ} → List A → List A
reverse [] = []
reverse (x ∷ xs) = reverse xs ++ (x ∷ [])

-- the round of `first_key` at a node, with the rounds below it as an argument
abbrev pub first_key_in : (ℕ → IndexResult Bytes) → ℕ → Node → IndexResult Bytes
first_key_in below page_id (leaf [] next) = err (corrupt_node page_id leaf_empty)
first_key_in below page_id (leaf (entry ∷ entries) next) = ok entry.0
first_key_in below page_id (internal level first_child separators) = below first_child

-- a round of the way down at a node: its entries, or its frame and the way on
abbrev pub descend_in :
    (Child → IndexResult (List Entry × List EditFrame))
    → Bytes
    → Bytes
    → Node
    → IndexResult (List Entry × List EditFrame)
descend_in below key first_key (leaf entries next) = ok (entries, [])
descend_in below key first_key (internal level first_child separators) =
    let children = (first_key, first_child) ∷ separators in
    let position = partition_point (λ child. at_most child.0 key) children - 1 in
    below (child_at children position) >>= λ found. ok (
      found.0,
      append_frame found.1 (record { level = level; children = children; position = position }),
    )

module _ (read_page : ℕ → StorageResult (Option Bytes)) where
  unfoldable pub read : Editor → ℕ → IndexResult Node
  read ed page_id = elim (lookup ed.overlay page_id) [
    | some node ↦ ok node
    | none ↦ read_node read_page page_id
  ]

  -- The loop of `first_key`, with the pages visited.
  unfoldable pub first_key : ℕ → Editor → Map ℕ (Unit {0}) → ℕ → IndexResult Bytes
  first_key zero ed visited page_id = err (corrupt_node page_id page_cycle)
  first_key (suc fuel) ed visited page_id = do
    ensure (not (is_some (lookup visited page_id))) (corrupt_node page_id page_cycle)
    node ← read ed page_id
    first_key_in (λ child. first_key fuel ed (insert visited page_id tt) child) page_id node

  -- The loop of `apply` down to the leaf: its entries, and the frames from the leaf up.
  unfoldable pub descend : ℕ → Editor → Bytes → Child → IndexResult (List Entry × List EditFrame)
  descend zero ed key (first_key, page_id) = do
    node ← read ed page_id
    ensure (level node == 0) (corrupt_node page_id level_not_height)
    descend_in (λ child. err (corrupt_node child.1 internal_below_leaf)) key first_key node
  descend (suc below) ed key (first_key, page_id) = do
    node ← read ed page_id
    ensure (level node == suc below) (corrupt_node page_id level_not_height)
    descend_in (λ child. descend below ed key child) key first_key node

  -- `apply` under a root, on a key with the value to put, or none to delete it
  unfoldable pub edit_under :
      ℕ → Editor → Bytes → Option ℕ → Option IndexRoot → Editor × IndexResult (Unit {0})
  edit_under fuel ed key value none = start_tree ed key value
  edit_under fuel ed key value (some root) =
      and_then (ed, root_level root)
        (λ ed expected.
          and_then (ed, first_key fuel ed [] root.page_id)
            (λ ed first.
              and_then (ed, descend expected ed key (first, root.page_id))
                (λ ed found. replace_leaf root found.1 ed (edit_entries found.0 key value))))

  unfoldable pub edit_key : ℕ → Editor → Bytes → Option ℕ → Editor × IndexResult (Unit {0})
  edit_key fuel ed key value = edit_under fuel ed key value ed.root

  unfoldable pub apply : ℕ → Editor → IndexMutation → Editor × IndexResult (Unit {0})
  apply fuel ed (upsert key value) =
      and_then (ed, validate_entries ((key, value) ∷ []))
        (λ ed done. edit_key fuel ed key (some value))
  apply fuel ed (delete key) = edit_key fuel ed key none

  unfoldable pub apply_all : ℕ → Editor → List IndexMutation → Editor × IndexResult (Unit {0})
  apply_all fuel ed [] = (ed, ok tt)
  apply_all fuel ed (mutation ∷ mutations) =
      and_then (apply fuel ed mutation) (λ ed done. apply_all fuel ed mutations)

-- the pages that a node of the overlay adds to `pending`, the last first
abbrev pub children_of : Option Node → List ℕ
children_of none = []
children_of (some (leaf entries next)) = []
children_of (some (internal level first_child separators)) =
    reverse (first_child ∷ map (λ child. child.1) separators)

-- The loop of `finish` over the pages reachable from the root, the end of `pending` first.
unfoldable pub reach : ℕ → Map ℕ Node → Map ℕ (Unit {0}) → List ℕ → IndexResult (Map ℕ (Unit {0}))
reach fuel overlay reachable [] = ok reachable
reach zero overlay reachable (page_id ∷ pending) = err (corrupt_node page_id plan_cycle)
reach (suc fuel) overlay reachable (page_id ∷ pending) = do
  ensure (not (is_some (lookup reachable page_id))) (corrupt_node page_id plan_cycle)
  reach fuel overlay (insert reachable page_id tt) (children_of (lookup overlay page_id) ++ pending)

-- the writes of the overlay's nodes that are reachable, in the order of their pages
unfoldable pub reachable_writes : Map ℕ Node → Map ℕ (Unit {0}) → IndexResult (List PageWrite)
reachable_writes [] reachable = ok []
reachable_writes ((page_id, node) ∷ overlay) reachable =
    let rest = reachable_writes overlay reachable in
    if is_some (lookup reachable page_id)
    then (encode node >>= λ payload.
        rest >>= λ writes. ok (record { page_id = page_id; payload = payload } ∷ writes))
    else rest

abbrev pub root_page : Option IndexRoot → List ℕ
root_page none = []
root_page (some root) = root.page_id ∷ []

unfoldable pub finish : ℕ → Editor → IndexResult IndexBuildPlan
finish fuel ed = do
  reachable ← reach fuel ed.overlay [] (root_page ed.root)
  writes ← reachable_writes ed.overlay reachable
  ok (record { root = ed.root; writes = writes })

unfoldable pub edit_plan :
    (ℕ → StorageResult (Option Bytes))
    → ℕ
    → PageAllocator
    → Option IndexRoot
    → List IndexMutation
    → PageAllocator × IndexResult IndexBuildPlan
edit_plan read_page fuel a root mutations =
    let start : Editor = record { allocator = a; root = root; overlay = [] } in
    let (ed, done) =
      and_then (apply_all read_page fuel start mutations) (λ ed done. (ed, finish fuel ed)) in
    (ed.allocator, done)
