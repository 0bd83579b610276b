-- ===== src/Examples/Trees.antt =====
-- The theorems on the index tree at concrete inputs.
use quantadb.Prelude.{
  ℕ, ◌≡◌, refl, List, [], ◌∷◌, ◌++◌, Option, none, some, arith, length, ◌==◌, if◌then◌else◌,
}
use quantadb.Prelude.Result.{ok}
use quantadb.Prelude.Ord.{nat_ord, bytes_ord}
use quantadb.Prelude.Map.{lookup, insert, Sorted}
use quantadb.Bytes.{Bytes}
use quantadb.Storage.Error.{StorageResult}
use quantadb.Storage.Store.{PageAllocator}
use quantadb.Mvcc.State.{IndexRoot}
use quantadb.Index.Node.{
  Node, Entry, leaf, internal, encode, decode, entries_of, encoded_length, checked_entry_length,
  count_u32, fill, level, write_entries, write_entry, read_key, read_entry, read_entries, field_end,
  decode_entries, decode_leaf, decode_internal, decode_kind, ensure_above, ensure_strict_keys,
}
use quantadb.Index.Node.RoundTrip.{decode-encode_node}
use quantadb.Index.Node.Image.{head_image, entries_image}
use quantadb.Index.Tree.{get, read_node, binary_search}
use quantadb.Mvcc.Rebuild.{IndexMutation, upsert, delete}
use quantadb.Index.Tree.Edit.{
  Editor, EditFrame, apply_all, apply, edit_key, edit_under, first_key, descend, read, edit_entries,
  replace_leaf, make_leaves, allocate_leaves, allocate, climb, make_internal_level, allocate_level,
  entries_after, new_root,
}
use quantadb.Index.Tree.Partition.{partition_from}
use quantadb.Index.Tree.Lookup.{Tree}
use quantadb.Index.Tree.Edit.Fresh.{Stands}
use quantadb.Index.Tree.Edit.Descent.{Reached}
use quantadb.Index.Tree.Edit.Apply.{IsEditor, mutate_all, apply_all-IsEditor}
use quantadb.Index.Tree.Edit.Total.{locate-Reached}
use quantadb.Index.Tree.Lookup.{IsIndex, get-lookup}
use quantadb.Index.Tree.Partition.{
  Group, validate_entries, partition_leaves, partition_internal, partition_by, fill_node,
  check_order, check_sizes, known_size, entry_size,
}
use quantadb.Index.Tree.Partition.Bounds.{
  ArePieces, AreGroups, partition_leaves-ArePieces, partition_internal-AreGroups,
}
use quantadb.Index.Tree.Build.{
  plan, IndexBuildPlan, plan_entries, reserve_pages, leaf_nodes, raise_levels,
}
use quantadb.Storage.Store.Allocator.{reserve, take_free, numbered}
use quantadb.Index.Tree.Build.Total.{plan-succeeds}
use quantadb.Index.Tree.Build.Plan.{plan-IsIndex, get-plan}

abbrev image_of : Node → Bytes
image_of node = head_image (length (entries_of node)) node ++ entries_image (entries_of node)

abbrev three_entries : List Entry
three_entries = (97 ∷ [], 10) ∷ (97 ∷ 98 ∷ [], 11) ∷ (99 ∷ [], 12) ∷ []

abbrev first_allocator : PageAllocator
first_allocator = record { next_page_id = 0; free_pages = [] }

abbrev one_leaf : Node
one_leaf = leaf three_entries none

abbrev only_root : IndexRoot
only_root = record { page_id = 0; height = 1; entries = 3 }

abbrev plan_of_three : IndexBuildPlan
plan_of_three = record {
  root = some only_root;
  writes = record { page_id = 0; payload = image_of one_leaf } ∷ [];
}

abbrev one_page : ℕ → StorageResult (Option Bytes)
one_page page_id = ok (some (image_of one_leaf))

planned_three : (plan first_allocator three_entries).1 ≡ ok plan_of_three
unfolding plan validate_entries check_order check_sizes known_size entry_size plan_entries
    partition_leaves partition_by fill_node reserve_pages reserve take_free numbered leaf_nodes
    encode encoded_length checked_entry_length count_u32 fill level write_entries write_entry
    raise_levels
planned_three = refl

-- a root on page 3 over the leaves on pages 1 and 2
abbrev left_leaf : Node
left_leaf = leaf ((97 ∷ [], 10) ∷ (97 ∷ 98 ∷ [], 11) ∷ []) (some 2)

abbrev right_leaf : Node
right_leaf = leaf ((99 ∷ [], 12) ∷ []) none

abbrev two_leaves : Node
two_leaves = internal 1 1 ((98 ∷ [], 2) ∷ [])

abbrev three_pages : ℕ → StorageResult (Option Bytes)
three_pages page_id =
    if page_id == 1
    then ok (some (image_of left_leaf))
    else if page_id == 2
    then ok (some (image_of right_leaf))
    else if page_id == 3
    then ok (some (image_of two_leaves))
    else ok none

abbrev high_root : IndexRoot
high_root = record { page_id = 3; height = 2; entries = 3 }

three_pages-IsIndex : IsIndex three_pages (some high_root) three_entries
unfolding read_node decode decode_kind decode_leaf decode_internal decode_entries read_entries
    read_entry read_key field_end ensure_strict_keys ensure_above level
three_pages-IsIndex = (
  1,
  refl,
  refl,
  (
    1,
    (98 ∷ [], 2) ∷ [],
    refl,
    (
      (97 ∷ [], 10) ∷ (97 ∷ 98 ∷ [], 11) ∷ [],
      (99 ∷ [], 12) ∷ [],
      refl,
      (refl, (refl, tt)),
      (refl, tt),
      (some 2, refl),
      (none, refl),
    ),
  ),
)

get-lookup_example : get three_pages high_root (99 ∷ []) ≡ ok (lookup three_entries (99 ∷ []))
get-lookup_example = get-lookup three_pages high_root three_entries (99 ∷ []) three_pages-IsIndex

plan-IsIndex_example : IsIndex one_page (some only_root) three_entries
plan-IsIndex_example =
    plan-IsIndex one_page first_allocator three_entries plan_of_three (omega arith)
      (omega arith, (omega arith, (omega arith, tt))) planned_three (refl, tt)

get-plan_example : get one_page only_root (97 ∷ 98 ∷ []) ≡ ok (lookup three_entries (97 ∷ 98 ∷ []))
get-plan_example =
    get-plan one_page first_allocator three_entries plan_of_three only_root (97 ∷ 98 ∷ [])
      (omega arith) (omega arith, (omega arith, (omega arith, tt))) planned_three refl (refl, tt)

three_entries_valid : validate_entries three_entries ≡ ok tt
unfolding validate_entries check_order check_sizes known_size entry_size
three_entries_valid = refl

partition_leaves-ArePieces_example :
    (groups : List (List Entry)) × (partition_leaves three_entries ≡ ok groups)
    × ArePieces three_entries groups
partition_leaves-ArePieces_example = partition_leaves-ArePieces three_entries three_entries_valid

partition_internal-AreGroups_example :
    (groups : List Group) × (partition_internal three_entries ≡ ok groups)
    × AreGroups three_entries groups
partition_internal-AreGroups_example =
    partition_internal-AreGroups three_entries (omega arith, (omega arith, (omega arith, tt)))

encoded_right : encode right_leaf ≡ ok (image_of right_leaf)
unfolding encode encoded_length checked_entry_length count_u32 fill level write_entries write_entry
encoded_right = refl

decode-encode_node_example : decode 2 (image_of right_leaf) ≡ ok right_leaf
decode-encode_node_example =
    decode-encode_node 2 right_leaf (image_of right_leaf) (tt, (omega arith, tt)) encoded_right

-- an editor on those pages, and edits of both leaves
abbrev first_editor : Editor
first_editor = record {
  allocator = record { next_page_id = 4; free_pages = [] };
  root = some high_root;
  overlay = [];
}

first_editor-Tree : Tree (Stands three_pages first_editor) 1 3 three_entries
unfolding lookup read read_node decode decode_kind decode_leaf decode_internal decode_entries
    read_entries read_entry read_key field_end ensure_strict_keys ensure_above level
first_editor-Tree = (
  1,
  (98 ∷ [], 2) ∷ [],
  (refl, (omega arith, refl), tt),
  (
    (97 ∷ [], 10) ∷ (97 ∷ 98 ∷ [], 11) ∷ [],
    (99 ∷ [], 12) ∷ [],
    refl,
    (refl, (refl, tt)),
    (refl, tt),
    (some 2, (refl, (omega arith, refl), tt)),
    (none, (refl, (omega arith, refl), tt)),
  ),
)

three_entries-Sorted : Sorted three_entries
three_entries-Sorted = (((refl, (refl, tt)), ((refl, tt), (tt, tt))))

first_editor-IsEditor : IsEditor three_pages first_editor three_entries
first_editor-IsEditor = ((1, refl, refl, first_editor-Tree), three_entries-Sorted, omega arith)

abbrev two_edits : List IndexMutation
two_edits = upsert (97 ∷ 97 ∷ []) 7 ∷ delete (99 ∷ []) ∷ []

edited_twice : (apply_all three_pages 2 first_editor two_edits).1 ≡ ok tt
unfolding apply_all apply edit_key edit_under validate_entries check_order check_sizes known_size
    entry_size first_key descend read edit_entries binary_search replace_leaf make_leaves
    allocate_leaves partition_leaves partition_by fill_node allocate reserve_pages reserve take_free
    numbered climb make_internal_level allocate_level partition_internal partition_from
    entries_after new_root lookup insert read_node decode decode_kind decode_leaf decode_internal
    decode_entries read_entries read_entry read_key field_end ensure_strict_keys ensure_above level
edited_twice = refl

apply_all-IsEditor_example :
    IsEditor three_pages
      (apply_all three_pages 2 first_editor two_edits).0
      (mutate_all three_pages three_entries two_edits)
apply_all-IsEditor_example =
    apply_all-IsEditor three_pages 2 first_editor two_edits three_entries first_editor-IsEditor
      edited_twice

locate-Reached_example :
    (first : Bytes) × (held : List Entry) × (frames : List EditFrame) × (first_key three_pages 2
        first_editor [] 3
      ≡ ok first)
    × (descend three_pages 1 first_editor (99 ∷ []) (first, 3) ≡ ok (held, frames))
    × Reached (Stands three_pages first_editor) 1 none none (99 ∷ []) held frames three_entries
locate-Reached_example =
    locate-Reached three_pages first_editor 2 high_root 1 three_entries (99 ∷ []) refl (omega arith)
      three_entries-Sorted first_editor-Tree

plan-succeeds_example :
    (built : IndexBuildPlan) × ((plan first_allocator three_entries).1 ≡ ok built)
plan-succeeds_example =
    plan-succeeds first_allocator three_entries three_entries_valid (omega arith)
