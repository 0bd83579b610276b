-- ===== src/Index/Node.antt =====
-- index/src/node.rs: the nodes of the B+ tree and their encoding. An entry is a key with its page.
pub mod Valid
pub mod Image
pub mod RoundTrip
use Prim.Native.Nat.Ordering.{lt}
use quantadb.Prelude.{
  ℕ, zero, suc, ◌+◌, ◌-◌, ◌^◌, ◌%◌, Bool, true, false, Option, none, some, List, [], ◌∷◌, ◌==◌,
  if◌then◌else◌, ◌&&◌, not, length, ltb, get_or, map,
}
use quantadb.Prelude.Result.{ok, err, ensure, ◌>>=◌, ◌>>◌}
use quantadb.Prelude.Ord.{compare_bytes}
use quantadb.Bytes.{
  Bytes, zeroes, write_at, write_u16, write_u32, write_u64, slice, read_u16, read_u32, read_u64,
  bytes_eq, all_zero, checked_add,
}
use quantadb.Storage.Page.{max_page_payload}
use quantadb.Index.Error.{
  IndexResult, IndexError, Reason, key_too_large, entry_count_overflow, corrupt_node,
  shorter_than_header, invalid_node_magic, unsupported_node_version, reserved_bytes_not_zero,
  leaf_level_not_zero, internal_level_zero, no_first_child, separator_without_child,
  unknown_node_kind, key_length_overflow, key_past_boundary, field_offset_overflow, ends_inside_u32,
  ends_inside_u64, trailing_bytes, keys_not_increasing,
}

-- b"QNIX"
abbrev pub magic : Bytes
magic = 81 ∷ 78 ∷ 73 ∷ 88 ∷ []

abbrev pub header_size : ℕ
header_size = 32

abbrev pub leaf_kind : ℕ
leaf_kind = 1

abbrev pub internal_kind : ℕ
internal_kind = 2

-- `u64::MAX`
abbrev pub no_page : ℕ
no_page = 2 ^ 64 - 1

-- LEAF_ENTRY_OVERHEAD and INTERNAL_ENTRY_OVERHEAD
abbrev pub entry_overhead : ℕ
entry_overhead = 12

abbrev pub Entry : Type 0
Entry = Bytes × ℕ

pub data Node : Type 0 where
  leaf : List Entry → Option ℕ → Node
  internal : ℕ → ℕ → List Entry → Node

unfoldable pub level : Node → ℕ
level (leaf entries next) = 0
level (internal height first_child separators) = height

-- the entries of a leaf, or the separators of an internal node
abbrev pub entries_of : Node → List Entry
entries_of (leaf entries next) = entries
entries_of (internal level first_child separators) = separators

unfoldable pub checked_entry_length : ℕ → ℕ → IndexResult ℕ
checked_entry_length total key_length = elim (checked_add total key_length) [
  | none ↦ err (key_too_large (2 ^ 64 - 1) max_page_payload)
  | some with_key ↦ elim (checked_add with_key entry_overhead) [
    | none ↦ err (key_too_large (2 ^ 64 - 1) max_page_payload)
    | some sum ↦ ok sum
  ]
]

-- the `try_fold` of `encode`
unfoldable pub encoded_length : ℕ → List Entry → IndexResult ℕ
encoded_length total [] = ok total
encoded_length total ((key, page_id) ∷ entries) =
    checked_entry_length total (length key) >>= λ sum. encoded_length sum entries

unfoldable pub count_u32 : ℕ → IndexResult ℕ
count_u32 count = if ltb count (2 ^ 32) then ok count else err entry_count_overflow

-- `write_key`, and the page of the entry behind it
unfoldable pub write_entry : Bytes → ℕ → Entry → Bytes
write_entry bytes cursor (key, page_id) =
    let bytes = write_u32 bytes cursor (length key % 2 ^ 32) in
    let bytes = write_at bytes (cursor + 4) key in write_u64 bytes (cursor + 4 + length key) page_id

unfoldable pub write_entries : Bytes → ℕ → List Entry → Bytes
write_entries bytes cursor [] = bytes
write_entries bytes cursor ((key, page_id) ∷ entries) =
    write_entries (write_entry bytes cursor (key, page_id)) (cursor + 4 + length key + 8) entries

abbrev pub kind_of : Node → ℕ
kind_of (leaf entries next) = leaf_kind
kind_of (internal level first_child separators) = internal_kind

abbrev pub or_no_page : Option ℕ → ℕ
or_no_page none = no_page
or_no_page (some page_id) = page_id

-- the field at offset 16
abbrev pub auxiliary_of : Node → ℕ
auxiliary_of (leaf entries next) = or_no_page next
auxiliary_of (internal level first_child separators) = first_child

unfoldable pub fill : Bytes → ℕ → Node → Bytes
fill bytes count node =
    let bytes = write_at bytes 0 magic in
    let bytes = write_u16 bytes 4 1 in
    let bytes = write_u16 bytes 12 (level node) in
    let bytes = write_at bytes 6 (kind_of node ∷ []) in
    let bytes = write_u32 bytes 8 count in
    let bytes = write_u64 bytes 16 (auxiliary_of node) in
    write_entries bytes header_size (entries_of node)

unfoldable pub encode : Node → IndexResult Bytes
encode node = do
  size ← encoded_length header_size (entries_of node)
  ensure (not (ltb max_page_payload size)) (key_too_large size max_page_payload)
  count ← count_u32 (length (entries_of node))
  ok (fill (zeroes size) count node)

-- `cursor.checked_add(width)`, within the node
unfoldable pub field_end : ℕ → Bytes → ℕ → ℕ → Reason → Reason → IndexResult ℕ
field_end page_id bytes cursor width overflow past = elim (checked_add cursor width) [
  | none ↦ err (corrupt_node page_id overflow)
  | some end ↦ if ltb (length bytes) end then err (corrupt_node page_id past) else ok end
]

-- `read_key`: the key and the cursor behind it
unfoldable pub read_key : ℕ → Bytes → ℕ → IndexResult (Bytes × ℕ)
read_key page_id bytes cursor = do
  start ← field_end page_id bytes cursor 4 field_offset_overflow ends_inside_u32
  end ← field_end page_id bytes start (read_u32 bytes cursor) key_length_overflow key_past_boundary
  ok (slice start (end - start) bytes, end)

-- a key, and the page behind it by `read_required_u64`
unfoldable pub read_entry : ℕ → Bytes → ℕ → IndexResult (Entry × ℕ)
read_entry page_id bytes cursor = do
  found ← read_key page_id bytes cursor
  end ← field_end page_id bytes found.1 8 field_offset_overflow ends_inside_u64
  ok ((found.0, read_u64 bytes found.1), end)

-- The loop of a leaf or of an internal node, whose children are not `NO_PAGE`: the entries, and
-- the cursor behind them.
unfoldable pub read_entries : Bool → ℕ → Bytes → ℕ → ℕ → IndexResult (List Entry × ℕ)
read_entries children page_id bytes zero cursor = ok ([], cursor)
read_entries children page_id bytes (suc count) cursor = do
  found ← read_entry page_id bytes cursor
  ensure (not (children && found.0.1 == no_page)) (corrupt_node page_id separator_without_child)
  rest ← read_entries children page_id bytes count found.1
  ok (found.0 ∷ rest.0, rest.1)

abbrev pub increases : Bytes → Bytes → Bool
increases a b = elim (compare_bytes a b) [ lt ↦ true | _ ↦ false ]

-- the loop of `ensure_strict_keys`
unfoldable pub ensure_above : ℕ → Bytes → List Bytes → IndexResult (Unit {0})
ensure_above page_id previous [] = ok tt
ensure_above page_id previous (key ∷ keys) = do
  ensure (increases previous key) (corrupt_node page_id keys_not_increasing)
  ensure_above page_id key keys

unfoldable pub ensure_strict_keys : ℕ → List Bytes → IndexResult (Unit {0})
ensure_strict_keys page_id [] = ok tt
ensure_strict_keys page_id (key ∷ keys) = ensure_above page_id key keys

-- the entries that a node declares, where they fill it and increase
unfoldable pub decode_entries : Bool → ℕ → Bytes → ℕ → IndexResult (List Entry)
decode_entries children page_id bytes count = do
  found ← read_entries children page_id bytes count header_size
  ensure (found.1 == length bytes) (corrupt_node page_id trailing_bytes)
  ensure_strict_keys page_id (map (λ entry. entry.0) found.0)
  ok found.0

unfoldable pub decode_leaf : ℕ → Bytes → ℕ → ℕ → ℕ → IndexResult Node
decode_leaf page_id bytes count level auxiliary = do
  ensure (level == 0) (corrupt_node page_id leaf_level_not_zero)
  entries ← decode_entries false page_id bytes count
  ok (leaf entries (if auxiliary == no_page then none else some auxiliary))

unfoldable pub decode_internal : ℕ → Bytes → ℕ → ℕ → ℕ → IndexResult Node
decode_internal page_id bytes count level auxiliary = do
  ensure (not (level == 0)) (corrupt_node page_id internal_level_zero)
  ensure (not (auxiliary == no_page)) (corrupt_node page_id no_first_child)
  separators ← decode_entries true page_id bytes count
  ok (internal level auxiliary separators)

-- the `match` on the kind
unfoldable pub decode_kind : ℕ → Bytes → ℕ → ℕ → ℕ → ℕ → IndexResult Node
decode_kind page_id bytes kind count level auxiliary =
    if kind == leaf_kind
    then decode_leaf page_id bytes count level auxiliary
    else if kind == internal_kind
    then decode_internal page_id bytes count level auxiliary
    else err (corrupt_node page_id unknown_node_kind)

unfoldable pub decode : ℕ → Bytes → IndexResult Node
decode page_id bytes = do
  ensure (not (ltb (length bytes) header_size)) (corrupt_node page_id shorter_than_header)
  ensure (bytes_eq (slice 0 4 bytes) magic) (corrupt_node page_id invalid_node_magic)
  ensure (read_u16 bytes 4 == 1) (corrupt_node page_id unsupported_node_version)
  ensure (get_or bytes 7 0 == 0 && all_zero (slice 14 2 bytes) && all_zero (slice 24 8 bytes))
      (corrupt_node page_id reserved_bytes_not_zero)
  decode_kind page_id bytes (get_or bytes 6 0) (read_u32 bytes 8) (read_u16 bytes 12)
      (read_u64 bytes 16)
