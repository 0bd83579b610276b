-- ===== src/Index/Tree.antt =====
-- index/src/tree.rs: what `BPlusTree` and its helpers share: reads of nodes, and lookups. The cache
-- of nodes is `None`, as callers may pass; the pages of the storage are a function of their ids.
pub mod Lookup
pub mod Partition
pub mod Order
pub mod Build
pub mod Edit
use Prim.Native.Nat.Ordering.{lt, gt}
use quantadb.Prelude.{
  ℕ, zero, suc, ◌+◌, ◌-◌, Bool, true, false, Option, none, some, List, [], ◌∷◌, ◌==◌, if◌then◌else◌,
  get_elem?,
}
use quantadb.Prelude.Result.{Result, ok, err, ensure, ◌>>=◌, ◌>>◌}
use quantadb.Prelude.Ord.{compare_bytes, bytes_ord, same}
use quantadb.Prelude.Seq.{partition_point}
use quantadb.Bytes.{Bytes}
use quantadb.Storage.Error.{StorageResult}
use quantadb.Mvcc.State.{IndexRoot}
use quantadb.Index.Error.{
  IndexResult, storage, corrupt_node, root_height_zero, internal_below_leaf, missing_page,
  level_mismatch,
}
use quantadb.Index.Node.{Node, leaf, internal, Entry, level, decode, increases}

-- `#[from] StorageError`
abbrev pub from_storage {ℓ} : {A : Type ℓ} → StorageResult A → IndexResult A
from_storage (err failure) = err (storage failure)
from_storage (ok value) = ok value

-- `a <= b` on keys
abbrev pub at_most : Bytes → Bytes → Bool
at_most a b = elim (compare_bytes a b) [ gt ↦ false | _ ↦ true ]

-- the same place, behind one entry more
abbrev pub deeper : Result ℕ ℕ → Result ℕ ℕ
deeper (ok position) = ok (suc position)
deeper (err position) = err (suc position)

-- `binary_search_by` on entries in strict key order: the position of the key, or else the position
-- at which it belongs.
unfoldable pub binary_search : List Entry → Bytes → Result ℕ ℕ
binary_search [] key = err 0
binary_search (entry ∷ entries) key =
    let rest = binary_search entries key in
    if increases entry.0 key then deeper rest else if same entry.0 key then ok 0 else err 0

-- the page of a leaf entry, where the search finds the key
abbrev pub found_value : List Entry → Result ℕ ℕ → Option ℕ
found_value entries (err position) = none
found_value entries (ok position) = elim (get_elem? entries position) [
  | none ↦ none
  | some entry ↦ some entry.1
]

-- `first_child` for the child at 0, and else the page of the separator before it
unfoldable pub child_page : ℕ → List Entry → ℕ → ℕ
child_page first_child separators zero = first_child
child_page first_child [] (suc position) = first_child
child_page first_child ((key, page_id) ∷ separators) (suc position) =
    child_page page_id separators position

-- `separators.partition_point(|(separator, _)| separator <= key)`
unfoldable pub child_position : List Entry → Bytes → ℕ
child_position separators key = partition_point (λ separator. at_most separator.0 key) separators

-- `height.checked_sub(1)`
abbrev pub root_level : IndexRoot → IndexResult ℕ
root_level root = elim root.height [
  | zero ↦ err (corrupt_node root.page_id root_height_zero)
  | suc below ↦ ok below
]

-- a page of the storage as a node
abbrev pub node_on : ℕ → Option Bytes → IndexResult Node
node_on page_id none = err (corrupt_node page_id missing_page)
node_on page_id (some payload) = decode page_id payload

-- one round of the loop of `get`, with the lookup in the child as an argument
abbrev pub get_in : (ℕ → IndexResult (Option ℕ)) → Bytes → Node → IndexResult (Option ℕ)
get_in below key (leaf entries next) = ok (found_value entries (binary_search entries key))
get_in below key (internal height first_child separators) =
    below (child_page first_child separators (child_position separators key))

module _ (read_page : ℕ → StorageResult (Option Bytes)) where
  unfoldable pub read_node : ℕ → IndexResult Node
  read_node page_id = from_storage (read_page page_id) >>= node_on page_id

  -- the loop of `get`, which goes down a level at a time
  unfoldable pub get_at : ℕ → ℕ → Bytes → IndexResult (Option ℕ)
  get_at zero page_id key = do
    node ← read_node page_id
    ensure (level node == 0) (corrupt_node page_id (level_mismatch (level node) 0))
    get_in (λ child. err (corrupt_node child internal_below_leaf)) key node
  get_at (suc below) page_id key = do
    node ← read_node page_id
    ensure (level node == suc below)
        (corrupt_node page_id (level_mismatch (level node) (suc below)))
    get_in (λ child. get_at below child key) key node

  unfoldable pub get : IndexRoot → Bytes → IndexResult (Option ℕ)
  get root key = root_level root >>= λ expected. get_at expected root.page_id key
