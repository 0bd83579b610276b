-- ===== src/Index/Tree/Lookup.antt =====
-- index/src/tree.rs: the trees that pages hold, and what `get` finds in them.
use Prim.Native.Nat.Ordering.{lt}
use quantadb.Prelude.{
  ℕ, zero, suc, ◌≡◌, refl, sym, ap, ◌∙◌, true, false, Option, none, some, List, [], ◌∷◌, ◌++◌, map,
  length, Bool-cases, inl, inr, arith, ==_refl,
}
use quantadb.Prelude.Result.{ok, >>=-eq-ok}
use quantadb.Prelude.Ord.{
  compare_bytes, bytes_ord, compare_bytes-lt, compare_bytes-gt, compare_bytes-eq,
}
use quantadb.Prelude.Map.{Map, lookup, Sorted, KeysAbove-trans, lookup-KeysAbove}
use quantadb.Prelude.Seq.{All}
use quantadb.Bytes.{Bytes}
use quantadb.Storage.Error.{StorageResult}
use quantadb.Mvcc.State.{IndexRoot}
use quantadb.Index.Error.{IndexResult}
use quantadb.Index.Node.{Node, leaf, internal, Entry, level}
use quantadb.Index.Node.Valid.{KeysIncrease, decode-IsNode}
use quantadb.Index.Tree.{
  at_most, binary_search, found_value, child_page, child_position, read_node, node_on, get_at, get,
  from_storage,
}

-- the keys that are less than a separator, and those that are not
abbrev pub Below : Bytes → List Entry → Type 0
Below key = All (λ entry. compare_bytes entry.0 key ≡ lt)

abbrev pub AtLeast : Bytes → List Entry → Type 0
AtLeast key = All (λ entry. at_most key entry.0 ≡ true)

-- The children of an internal node hold the entries in order, each separator between its neighbours.
abbrev pub Children : (ℕ → List Entry → Type 0) → ℕ → List Entry → List Entry → Type 0
Children Holds first_child [] entries = Holds first_child entries
Children Holds first_child ((key, page_id) ∷ separators) entries =
    (left : List Entry) × (right : List Entry) × (entries ≡ left ++ right)
    × Below key left
    × AtLeast key right
    × Holds first_child left
    × Children Holds page_id separators right

-- The page is the root of a tree of this level that holds these entries, where `At` says which node
-- stands on a page.
abbrev pub Tree : (ℕ → Node → Type 0) → ℕ → ℕ → List Entry → Type 0
Tree At zero page_id entries = (next : Option ℕ) × At page_id (leaf entries next)
Tree At (suc below) page_id entries =
    (first_child : ℕ) × (separators : List Entry) × At page_id
      (internal (suc below) first_child separators)
    × Children (Tree At below) first_child separators entries

-- the nodes that the pages of a storage hold
abbrev pub Reading : (ℕ → StorageResult (Option Bytes)) → ℕ → Node → Type 0
Reading read_page page_id node = read_node read_page page_id ≡ ok node

-- An index: no root holds nothing, and a root is that of a tree of its height with as many entries.
abbrev pub IsIndexOf : (ℕ → Node → Type 0) → Option IndexRoot → Map Bytes ℕ → Type 0
IsIndexOf At none entries = entries ≡ []
IsIndexOf At (some root) entries =
    (below : ℕ) × (root.height ≡ suc below)
    × (root.entries ≡ length entries)
    × Tree At below root.page_id entries

abbrev pub IsIndex : (ℕ → StorageResult (Option Bytes)) → Option IndexRoot → Map Bytes ℕ → Type 0
IsIndex read_page = IsIndexOf (Reading read_page)

-- keys in strict order are those of a map
pub KeysIncrease-Sorted :
    (entries : List Entry) → KeysIncrease (map (λ entry. entry.0) entries) → Sorted entries
KeysIncrease-Sorted [] h = tt
KeysIncrease-Sorted ((k, v) ∷ []) h = (tt, tt)
KeysIncrease-Sorted ((k, v) ∷ (k', v') ∷ entries) h =
    let first : compare_bytes k k' ≡ lt = ground (arith, h.0) in
    let rest = KeysIncrease-Sorted ((k', v') ∷ entries) h.1 in
    ((first, KeysAbove-trans k k' entries first rest.0), rest)

-- a search of entries in order finds what their map holds
pub found_value-lookup :
    (entries : List Entry) (key : Bytes)
    → Sorted entries
    → found_value entries (binary_search entries key) ≡ lookup entries key
unfolding binary_search lookup
found_value-lookup [] key s = refl
found_value-lookup ((k, v) ∷ entries) key s = ground (
  arith,
  found_value-lookup entries key s.1,
  compare_bytes-gt k key,
  KeysAbove-trans key k entries,
  lookup-KeysAbove key entries,
)

-- a leaf that is read is in order
pub leaf-Sorted :
    (read_page : ℕ → StorageResult (Option Bytes)) (page_id : ℕ) (entries : List Entry)
    (next : Option ℕ)
    → read_node read_page page_id ≡ ok (leaf entries next)
    → Sorted entries
unfolding read_node
leaf-Sorted read_page page_id entries next e =
    let (found, e1, e2) =
      >>=-eq-ok (from_storage (read_page page_id)) (λ found. node_on page_id found) e in
    decoded found e2
  where
    decoded :
        (found : Option Bytes) → node_on page_id found ≡ ok (leaf entries next) → Sorted entries
    decoded none h = cc
    decoded (some payload) h =
        KeysIncrease-Sorted entries (decode-IsNode page_id payload (leaf entries next) h).0

-- a key at or past the separator is not on its left, and one before it not on its right
lookup-right :
    (key q : Bytes) (left right : List Entry)
    → Below key left
    → at_most key q ≡ true
    → lookup (left ++ right) q ≡ lookup right q
unfolding lookup
lookup-right key q [] right b h = refl
lookup-right key q ((k, v) ∷ left) right b h =
    ground (
      arith,
      lookup-right key q left right b.1 h,
      b.0,
      compare_bytes-eq k q,
      compare_bytes-lt k key,
    )

lookup-AtLeast :
    (key q : Bytes) (right : List Entry)
    → AtLeast key right
    → at_most key q ≡ false
    → lookup right q ≡ none
unfolding lookup
lookup-AtLeast key q [] b h = refl
lookup-AtLeast key q ((k, v) ∷ right) b h =
    ground (arith, lookup-AtLeast key q right b.1 h, b.0, compare_bytes-eq k q)

lookup-left :
    (key q : Bytes) (left right : List Entry)
    → AtLeast key right
    → at_most key q ≡ false
    → lookup (left ++ right) q ≡ lookup left q
unfolding lookup
lookup-left key q [] right b h = lookup-AtLeast key q right b h
lookup-left key q ((k, v) ∷ left) right b h = ground (arith, lookup-left key q left right b h)

-- the child that the search goes to holds what the node does of the key
child-lookup :
    (Holds : ℕ → List Entry → Type 0) (find : ℕ → IndexResult (Option ℕ)) (key : Bytes)
    (first_child : ℕ) (separators entries : List Entry)
    → ((page_id : ℕ) (held : List Entry) → Holds page_id held → find page_id ≡ ok (lookup held key))
    → Children Holds first_child separators entries
    → find (child_page first_child separators (child_position separators key))
      ≡ ok (lookup entries key)
unfolding child_page child_position
child-lookup Holds find key first_child [] entries each h = each first_child entries h
child-lookup Holds find key first_child ((k, page_id) ∷ separators) entries each h =
    let (left, right, whole, low, high, here, rest) = h in
    elim (Bool-cases (at_most k key)) [
      | inl right_side ↦ rw (right_side) (
          child-lookup Holds find key page_id separators right each rest
          ∙ ap (λ (o : Option ℕ). ok o)
              (sym (ap (λ m. lookup m key) whole ∙ lookup-right k key left right low right_side)))
      | inr left_side ↦ rw (left_side) (
          each first_child left here
          ∙ ap (λ (o : Option ℕ). ok o)
              (sym (ap (λ m. lookup m key) whole ∙ lookup-left k key left right high left_side)))
    ]

-- Going down from the root of a tree gives what the map of its entries holds of the key.
pub get_at-lookup :
    (read_page : ℕ → StorageResult (Option Bytes)) (height page_id : ℕ) (entries : List Entry)
    (key : Bytes)
    → Tree (Reading read_page) height page_id entries
    → get_at read_page height page_id key ≡ ok (lookup entries key)
unfolding get_at level
get_at-lookup read_page zero page_id entries key (next, e) = rw (e) (
    ap (λ (o : Option ℕ). ok o)
      (found_value-lookup entries key (leaf-Sorted read_page page_id entries next e)))
get_at-lookup read_page (suc below) page_id entries key (first_child, separators, e, children) =
    rw (e, ==_refl (suc below))
      (child-lookup (Tree (Reading read_page) below) (λ child. get_at read_page below child key) key
        first_child separators entries
        (λ child held h. get_at-lookup read_page below child held key h) children)

-- `get` on a root over pages that hold a tree of its height succeeds with the page of the key, or with nothing where the entries
-- of the tree have no such key.
pub get-lookup :
    (read_page : ℕ → StorageResult (Option Bytes)) (root : IndexRoot) (entries : Map Bytes ℕ)
    (key : Bytes)
    → IsIndex read_page (some root) entries
    → get read_page root key ≡ ok (lookup entries key)
unfolding get
get-lookup read_page root entries key (below, high, count, tree) =
    rw (high) (get_at-lookup read_page below root.page_id entries key tree)
