-- ===== src/Index/Node/Valid.antt =====
-- What a node that decodes has.
use quantadb.Prelude.{
  ℕ, zero, suc, ◌+◌, ◌-◌, ◌≤◌, ◌≡◌, ◌≢◌, Bool, true, false, some, List, [], ◌∷◌, not, length, ltb,
  map, arith, ◌==◌, get_or, length-take, length-drop, drop, ◌&&◌,
}
use quantadb.Prelude.Result.{ok, ensure->>-ok, >>=-eq-ok, ensure}
use quantadb.Bytes.{Bytes, slice, read_u16, read_u32, read_u64, bytes_eq, all_zero}
use quantadb.Index.Error.{IndexResult, IndexError, Reason}
use quantadb.Index.Node.{
  Node, leaf, internal, Entry, no_page, increases, field_end, read_key, read_entry, read_entries,
  ensure_above, ensure_strict_keys, decode_entries, decode_leaf, decode_internal, decode_kind,
  decode, header_size, magic,
}

-- the bytes that entries take
abbrev pub entries_size : List Entry → ℕ
entries_size [] = 0
entries_size ((key, page_id) ∷ entries) = 4 + length key + 8 + entries_size entries

abbrev pub KeysIncrease : List Bytes → Type 0
KeysIncrease [] = Unit
KeysIncrease (a ∷ []) = Unit
KeysIncrease (a ∷ b ∷ keys) = (increases a b ≡ true) × KeysIncrease (b ∷ keys)

abbrev pub HaveChildren : List Entry → Type 0
HaveChildren [] = Unit
HaveChildren ((key, page_id) ∷ entries) = (page_id ≢ no_page) × HaveChildren entries

field_end_lem :
    (page_id : ℕ) (bytes : Bytes) (cursor width : ℕ) (overflow past : Reason) (end : ℕ)
    → field_end page_id bytes cursor width overflow past ≡ ok end
    → (end ≡ cursor + width) × (end ≤ length bytes)
unfolding field_end
field_end_lem page_id bytes cursor width overflow past end e = ground arith

length-slice :
    (bytes : Bytes) (start width : ℕ)
    → start + width ≤ length bytes
    → length (slice start width bytes) ≡ width
length-slice bytes start width h =
    ground (arith, length-take width (drop start bytes), length-drop start bytes)

read_key_lem :
    (page_id : ℕ) (bytes : Bytes) (cursor : ℕ) (key : Bytes) (end : ℕ)
    → read_key page_id bytes cursor ≡ ok (key, end)
    → (end ≡ cursor + 4 + length key) × (end ≤ length bytes)
unfolding read_key
read_key_lem page_id bytes cursor key end e =
    let (start, first, rest) =
      >>=-eq-ok
        (field_end page_id bytes cursor 4 Reason.field_offset_overflow Reason.ends_inside_u32) _
        e in
    let (stop, second, last) =
      >>=-eq-ok
        (field_end page_id bytes start (read_u32 bytes cursor) Reason.key_length_overflow
          Reason.key_past_boundary)
        _ rest in
    let a =
      field_end_lem page_id bytes cursor 4 Reason.field_offset_overflow Reason.ends_inside_u32 start
        first in
    let b =
      field_end_lem page_id bytes start (read_u32 bytes cursor) Reason.key_length_overflow
        Reason.key_past_boundary stop second in
    ground (arith, a, b, length-slice bytes start (stop - start), last)

read_entry_lem :
    (page_id : ℕ) (bytes : Bytes) (cursor : ℕ) (entry : Entry) (end : ℕ)
    → read_entry page_id bytes cursor ≡ ok (entry, end)
    → (end ≡ cursor + (4 + length entry.0 + 8)) × (end ≤ length bytes)
unfolding read_entry
read_entry_lem page_id bytes cursor entry end e =
    let (found, first, rest) = >>=-eq-ok (read_key page_id bytes cursor) _ e in
    let (stop, second, last) =
      >>=-eq-ok
        (field_end page_id bytes found.1 8 Reason.field_offset_overflow Reason.ends_inside_u64) _
        rest in
    let a = read_key_lem page_id bytes cursor found.0 found.1 first in
    let b =
      field_end_lem page_id bytes found.1 8 Reason.field_offset_overflow Reason.ends_inside_u64 stop
        second in
    ground (arith, a, b, last)

-- one entry and the rest
joined :
    (children : Bool) (count cursor size : ℕ) (entry : Entry) (next : ℕ) (rest : List Entry)
    (stop : ℕ) (entries : List Entry) (end : ℕ) (page_id : ℕ) (done : Unit {0})
    → (next ≡ cursor + (4 + length entry.0 + 8)) × (next ≤ size)
    → ensure
        (not (children && entry.1 == no_page))
        (IndexError.corrupt_node page_id Reason.separator_without_child)
      ≡ ok done
    → (length rest ≡ count)
      × (stop ≡ next + entries_size rest)
      × (stop ≤ size)
      × (children ≡ true → HaveChildren rest)
    → ◌≡◌ {A = IndexResult (List Entry × ℕ)} (ok (entry ∷ rest, stop)) (ok (entries, end))
    → (length entries ≡ suc count)
      × (end ≡ cursor + entries_size entries)
      × (end ≤ size)
      × (children ≡ true → HaveChildren entries)
joined children count cursor size entry next rest stop entries end page_id done a checked b last =
    ground arith

read_entries_lem :
    (children : Bool) (page_id : ℕ) (bytes : Bytes) (count cursor : ℕ) (entries : List Entry)
    (end : ℕ)
    → cursor ≤ length bytes
    → read_entries children page_id bytes count cursor ≡ ok (entries, end)
    → (length entries ≡ count)
      × (end ≡ cursor + entries_size entries)
      × (end ≤ length bytes)
      × (children ≡ true → HaveChildren entries)
unfolding read_entries
read_entries_lem children page_id bytes zero cursor entries end h e = ground arith
read_entries_lem children page_id bytes (suc count) cursor entries end h e =
    let (found, first, next) = >>=-eq-ok (read_entry page_id bytes cursor) _ e in
    let (done, checked, after) =
      >>=-eq-ok
        (ensure (not (children && found.0.1 == no_page))
          (IndexError.corrupt_node page_id Reason.separator_without_child))
        _ next in
    let (rest, more, last) =
      >>=-eq-ok (read_entries children page_id bytes count found.1) _ after in
    let a = read_entry_lem page_id bytes cursor found.0 found.1 first in
    let b = read_entries_lem children page_id bytes count found.1 rest.0 rest.1 a.1 more in
    joined children count cursor (length bytes) found.0 found.1 rest.0 rest.1 entries end page_id
      done a checked b last

ensure_above-KeysIncrease :
    (page_id : ℕ) (previous : Bytes) (keys : List Bytes)
    → ensure_above page_id previous keys ≡ ok tt
    → KeysIncrease (previous ∷ keys)
unfolding ensure_above
ensure_above-KeysIncrease page_id previous [] e = tt
ensure_above-KeysIncrease page_id previous (key ∷ keys) e =
    ground (arith, ensure_above-KeysIncrease page_id key keys)

ensure_strict_keys-KeysIncrease :
    (page_id : ℕ) (keys : List Bytes) → ensure_strict_keys page_id keys ≡ ok tt → KeysIncrease keys
unfolding ensure_strict_keys
ensure_strict_keys-KeysIncrease page_id [] e = tt
ensure_strict_keys-KeysIncrease page_id (key ∷ keys) e =
    ensure_above-KeysIncrease page_id key keys e

-- What the checks of `decode` leave of a node in `bytes`.
abbrev pub IsNode : Bytes → Node → Type 0
IsNode bytes (leaf entries next) =
    KeysIncrease (map (λ entry. entry.0) entries)
    × (length bytes ≡ 32 + entries_size entries)
    × (next ≢ some no_page)
IsNode bytes (internal level first_child separators) =
    KeysIncrease (map (λ entry. entry.0) separators)
    × (length bytes ≡ 32 + entries_size separators)
    × (level ≢ 0)
    × (first_child ≢ no_page)
    × HaveChildren separators

decode_entries_lem :
    (children : Bool) (page_id : ℕ) (bytes : Bytes) (count : ℕ) (entries : List Entry)
    → 32 ≤ length bytes
    → decode_entries children page_id bytes count ≡ ok entries
    → KeysIncrease (map (λ entry. entry.0) entries)
      × (length bytes ≡ 32 + entries_size entries)
      × (children ≡ true → HaveChildren entries)
unfolding decode_entries
decode_entries_lem children page_id bytes count entries h e =
    let (found, first, next) = >>=-eq-ok (read_entries children page_id bytes count 32) _ e in
    let (done, full, after) =
      >>=-eq-ok
        (ensure (found.1 == length bytes) (IndexError.corrupt_node page_id Reason.trailing_bytes)) _
        next in
    let (done', strict, last) =
      >>=-eq-ok (ensure_strict_keys page_id (map (λ entry. entry.0) found.0)) _ after in
    let a = read_entries_lem children page_id bytes count 32 found.0 found.1 h first in
    let b = ensure_strict_keys-KeysIncrease page_id (map (λ entry. entry.0) found.0) strict in
    ground (arith, a, b, full, last)

decode_leaf-IsNode :
    (page_id : ℕ) (bytes : Bytes) (count level auxiliary : ℕ) (node : Node)
    → 32 ≤ length bytes
    → decode_leaf page_id bytes count level auxiliary ≡ ok node
    → IsNode bytes node
unfolding decode_leaf
decode_leaf-IsNode page_id bytes count level auxiliary node h e =
    let (done, zero_level, next) =
      >>=-eq-ok (ensure (level == 0) (IndexError.corrupt_node page_id Reason.leaf_level_not_zero)) _
        e in
    let (entries, first, last) = >>=-eq-ok (decode_entries false page_id bytes count) _ next in
    ground (arith, decode_entries_lem false page_id bytes count entries h first, last)

decode_internal-IsNode :
    (page_id : ℕ) (bytes : Bytes) (count level auxiliary : ℕ) (node : Node)
    → 32 ≤ length bytes
    → decode_internal page_id bytes count level auxiliary ≡ ok node
    → IsNode bytes node
unfolding decode_internal
decode_internal-IsNode page_id bytes count level auxiliary node h e =
    let (done, positive, next) =
      >>=-eq-ok
        (ensure (not (level == 0)) (IndexError.corrupt_node page_id Reason.internal_level_zero)) _
        e in
    let (done', child, after) =
      >>=-eq-ok
        (ensure (not (auxiliary == no_page))
          (IndexError.corrupt_node page_id Reason.no_first_child))
        _ next in
    let (entries, first, last) = >>=-eq-ok (decode_entries true page_id bytes count) _ after in
    ground
      (arith, positive, child, decode_entries_lem true page_id bytes count entries h first, last)

decode_kind-IsNode :
    (page_id : ℕ) (bytes : Bytes) (kind count level auxiliary : ℕ) (node : Node)
    → 32 ≤ length bytes
    → decode_kind page_id bytes kind count level auxiliary ≡ ok node
    → IsNode bytes node
unfolding decode_kind
decode_kind-IsNode page_id bytes kind count level auxiliary node h e = ground (
  arith,
  decode_leaf-IsNode page_id bytes count level auxiliary node h,
  decode_internal-IsNode page_id bytes count level auxiliary node h,
)

-- A node that decodes fills its page exactly; its keys strictly increase; the link of a leaf is a
-- page or nothing; and an internal node has a positive level and a child for each separator.
pub decode-IsNode :
    (page_id : ℕ) (bytes : Bytes) (node : Node) → decode page_id bytes ≡ ok node → IsNode bytes node
unfolding decode
decode-IsNode page_id bytes node e =
    let (long, e1) = ensure->>-ok (not (ltb (length bytes) header_size)) _ _ e in
    let (m, e2) = ensure->>-ok (bytes_eq (slice 0 4 bytes) magic) _ _ e1 in
    let (v, e3) = ensure->>-ok (read_u16 bytes 4 == 1) _ _ e2 in
    let (r, e4) =
      ensure->>-ok
        (get_or bytes 7 0 == 0 && all_zero (slice 14 2 bytes) && all_zero (slice 24 8 bytes)) _ _
        e3 in
    decode_kind-IsNode page_id bytes (get_or bytes 6 0) (read_u32 bytes 8) (read_u16 bytes 12)
      (read_u64 bytes 16) node (ground (arith, long)) e4
