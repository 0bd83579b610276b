-- ===== src/Index/Tree/Partition.antt =====
-- index/src/tree.rs: how entries and children are cut into nodes. A range of positions is the slice
-- that it selects.
pub mod Bounds
use quantadb.Prelude.{
  ℕ, zero, suc, ◌+◌, ◌-◌, ◌^◌, Bool, true, false, Option, none, some, List, [], ◌∷◌, if◌then◌else◌,
  not, length, ltb, leb,
}
use quantadb.Prelude.Result.{ok, err, ensure, ◌>>=◌, ◌>>◌}
use quantadb.Prelude.Seq.{any}
use quantadb.Bytes.{Bytes, checked_add}
use quantadb.Storage.Page.{max_page_payload}
use quantadb.Index.Error.{IndexResult, key_too_large, keys_not_strictly_increasing}
use quantadb.Index.Node.{Entry, header_size, entry_overhead, increases}

-- a child is its first key and its page
abbrev pub Child : Type 0
Child = Bytes × ℕ

-- `leaf_entry_size` and `internal_entry_size`
unfoldable pub entry_size : Bytes × ℕ → Option ℕ
entry_size (key, page_id) = checked_add (length key) entry_overhead

-- `KeyTooLarge` with `usize::MAX` for a size that overflows
unfoldable pub known_size : Bytes × ℕ → IndexResult ℕ
known_size entry = elim (entry_size entry) [
  | none ↦ err (key_too_large (2 ^ 64 - 1) (max_page_payload - header_size))
  | some size ↦ ok size
]

abbrev pub prepend {ℓ κ} : {A : Type ℓ} {B : Type κ} → A → List A × B → List A × B
prepend x (xs, rest) = (x ∷ xs, rest)

-- The inner loop of both partitions: what goes into a node where `used` bytes are taken, and what is
-- left over.
unfoldable pub fill_node : ℕ → List (Bytes × ℕ) → IndexResult (List (Bytes × ℕ) × List (Bytes × ℕ))
fill_node used [] = ok ([], [])
fill_node used (entry ∷ entries) = known_size entry >>= λ size.
    let rest = fill_node (used + size) entries in
    if ltb max_page_payload (used + size)
    then ok ([], entry ∷ entries)
    else (rest >>= λ found. ok (prepend entry found))

-- `entry_size(start).unwrap_or(usize::MAX)`
abbrev pub size_or_max : Bytes × ℕ → ℕ
size_or_max entry = elim (entry_size entry) [ none ↦ 2 ^ 64 - 1 | some size ↦ size ]

-- A round of the loop of `partition_by`, with the rounds after it as an argument: the check of
-- `end == start`, and the range.
abbrev pub leaf_round :
    (List Entry → IndexResult (List (List Entry)))
    → Entry
    → List Entry × List Entry
    → IndexResult (List (List Entry))
leaf_round next first ([], left_over) =
    err (key_too_large (size_or_max first) (max_page_payload - header_size))
leaf_round next first (entry ∷ group, left_over) =
    next left_over >>= λ groups. ok ((entry ∷ group) ∷ groups)

-- The loop of `partition_by`; each round takes an entry, so that their number is fuel enough.
unfoldable pub partition_by : ℕ → List Entry → IndexResult (List (List Entry))
partition_by fuel [] = ok []
partition_by zero (entry ∷ entries) = ok []
partition_by (suc fuel) (entry ∷ entries) =
    fill_node header_size (entry ∷ entries)
    >>= leaf_round (λ left_over. partition_by fuel left_over) entry

unfoldable pub partition_leaves : List Entry → IndexResult (List (List Entry))
partition_leaves entries = partition_by (length entries) entries

-- the first child of an internal node, and those with separators
abbrev pub Group : Type 0
Group = Child × List Child

-- The check after the inner loop of `partition_internal`: a first child alone, and another behind it
-- whose key does not fit any node.
abbrev pub check_lone : List Child → List Child → IndexResult (Unit {0})
check_lone [] ((key, page_id) ∷ left_over) =
    ensure (not (ltb max_page_payload (header_size + size_or_max (key, page_id))))
      (key_too_large (length key) (max_page_payload - header_size - 12))
check_lone group left_over = ok tt

-- The loop of `partition_internal`, on fuel that the number of children is enough for. The first
-- child of a node has no separator, and takes no space.
unfoldable pub partition_from : ℕ → List Child → IndexResult (List Group)
partition_from fuel [] = ok []
partition_from zero (child ∷ children) = ok []
partition_from (suc fuel) (child ∷ children) = do
  (group, left_over) ← fill_node header_size children
  check_lone group left_over
  groups ← partition_from fuel left_over
  ok ((child, group) ∷ groups)

unfoldable pub partition_internal : List Child → IndexResult (List Group)
partition_internal children = partition_from (length children) children

-- the loop over `windows(2)`
unfoldable pub check_order : List Entry → IndexResult (Unit {0})
check_order [] = ok tt
check_order (entry ∷ []) = ok tt
check_order (a ∷ b ∷ entries) =
    ensure (increases a.0 b.0) keys_not_strictly_increasing >> check_order (b ∷ entries)

unfoldable pub check_sizes : List Entry → IndexResult (Unit {0})
check_sizes [] = ok tt
check_sizes (entry ∷ entries) = do
  size ← known_size entry
  ensure (not (ltb max_page_payload (header_size + size)))
      (key_too_large (length entry.0) (max_page_payload - header_size - 12))
  check_sizes entries

unfoldable pub validate_entries : List Entry → IndexResult (Unit {0})
validate_entries entries = check_order entries >> check_sizes entries
