-- ===== src/Index/Node/RoundTrip.antt =====
-- A node that was encoded decodes to itself.
use quantadb.Prelude.{
  ℕ, suc, ◌+◌, ◌-◌, ◌%◌, ◌^◌, ◌≤◌, ◌<◌, ◌≡◌, ◌≢◌, refl, sym, ap, ◌∙◌, Bool, true, false, none, some,
  List, [], ◌∷◌, ◌++◌, append_assoc, length, length-append, not, ◌&&◌, map, ltb, arith, take,
  get_or, ◌==◌,
}
use quantadb.Prelude.Result.{ok}
use quantadb.Prelude.Seq.{All}
use quantadb.Bytes.{Bytes, zeroes, to_le, from_le, slice, read_u16, read_u32, read_u64}
use quantadb.Bytes.Fields.{from_le-to_le_16, from_le-to_le_32, from_le-to_le_64}
use quantadb.Bytes.Slices.{take-length_append, drop-length_append}
use quantadb.Index.Error.{Reason}
use quantadb.Index.Node.{
  Node, leaf, internal, Entry, magic, level, entries_of, kind_of, auxiliary_of, encode, field_end,
  read_key, read_entry, read_entries, decode_entries, decode, no_page, ensure_above,
  ensure_strict_keys, decode_kind, decode_leaf, decode_internal,
}
use quantadb.Index.Node.Valid.{entries_size, KeysIncrease}
use quantadb.Index.Node.Image.{
  entry_image, entries_image, length-entry_image, head_image, encode-image,
}

-- a field behind what has been read
slice-append :
    (done xs rest : Bytes) (n : ℕ)
    → n ≡ length xs
    → slice (length done) n (done ++ (xs ++ rest)) ≡ xs
slice-append done xs rest n e =
    ap (λ t. take n t) (drop-length_append done (xs ++ rest))
    ∙ ap (λ k. take k (xs ++ rest)) e
    ∙ take-length_append xs rest

field_end-ok :
    (page_id : ℕ) (bytes : Bytes) (cursor width : ℕ) (overflow past : Reason)
    → cursor + width ≤ length bytes
    → length bytes < 2 ^ 64
    → field_end page_id bytes cursor width overflow past ≡ ok (cursor + width)
unfolding field_end
field_end-ok page_id bytes cursor width overflow past h small = ground arith

-- the fields of an entry in bytes that hold it
read_entry_lem :
    (page_id : ℕ) (bytes : Bytes) (cursor : ℕ) (key : Bytes) (child : ℕ)
    → read_u32 bytes cursor ≡ length key
    → slice (cursor + 4) (length key) bytes ≡ key
    → read_u64 bytes (cursor + 4 + length key) ≡ child
    → cursor + 4 + length key + 8 ≤ length bytes
    → length bytes < 2 ^ 64
    → read_entry page_id bytes cursor ≡ ok ((key, child), cursor + 4 + length key + 8)
unfolding read_entry read_key
read_entry_lem page_id bytes cursor key child n k c h small =
    rw
      (
        field_end-ok page_id bytes cursor 4 Reason.field_offset_overflow Reason.ends_inside_u32
            (omega arith) small,
        n,
        field_end-ok page_id bytes (cursor + 4) (length key) Reason.key_length_overflow
            Reason.key_past_boundary (omega arith) small,
        width,
        k,
        field_end-ok page_id bytes (cursor + 4 + length key) 8 Reason.field_offset_overflow
            Reason.ends_inside_u64 (omega arith) small,
        c,
      )
      refl
  where
    width : cursor + 4 + length key - (cursor + 4) ≡ length key
    width = omega arith

read_entry-image :
    (page_id : ℕ) (done : Bytes) (entry : Entry) (rest : Bytes)
    → length entry.0 < 2 ^ 32
    → entry.1 < 2 ^ 64
    → length (done ++ (entry_image entry ++ rest)) < 2 ^ 64
    → read_entry page_id (done ++ (entry_image entry ++ rest)) (length done)
      ≡ ok (entry, length done + 4 + length entry.0 + 8)
read_entry-image page_id done (key, child) rest h h' small =
    read_entry_lem page_id bytes (length done) key child first second third fits small
  where
    size : Bytes
    size = to_le 4 (length key % 2 ^ 32)

    last : Bytes
    last = to_le 8 child

    bytes : Bytes
    bytes = done ++ (entry_image (key, child) ++ rest)

    as_size : bytes ≡ done ++ (size ++ (key ++ (last ++ rest)))
    as_size = ap (λ t. done ++ (size ++ t)) (append_assoc key last rest)

    as_key : bytes ≡ (done ++ size) ++ (key ++ (last ++ rest))
    as_key = as_size ∙ sym (append_assoc done size (key ++ (last ++ rest)))

    as_last : bytes ≡ (done ++ size ++ key) ++ (last ++ rest)
    as_last = as_key ∙ sym (append_assoc (done ++ size) key (last ++ rest))

    in_range : length key % 2 ^ 32 ≡ length key
    in_range = omega arith

    first : read_u32 bytes (length done) ≡ length key
    first =
        ap (λ b. read_u32 b (length done)) as_size
        ∙ ap from_le (slice-append done size (key ++ (last ++ rest)) 4 refl)
        ∙ from_le-to_le_32 (length key % 2 ^ 32) (omega arith)
        ∙ in_range

    second : slice (length done + 4) (length key) bytes ≡ key
    second =
        ap (λ at. slice at (length key) bytes) (sym (length-append done size))
        ∙ ap (slice (length (done ++ size)) (length key)) as_key
        ∙ slice-append (done ++ size) key (last ++ rest) (length key) refl

    third : read_u64 bytes (length done + 4 + length key) ≡ child
    third =
        ap (λ at. read_u64 bytes (at + length key)) (sym (length-append done size))
        ∙ ap (λ at. read_u64 bytes at) (sym (length-append (done ++ size) key))
        ∙ ap (λ b. read_u64 b (length (done ++ size ++ key))) as_last
        ∙ ap from_le (slice-append (done ++ size ++ key) last rest 8 refl)
        ∙ from_le-to_le_64 child h'

    fits : length done + 4 + length key + 8 ≤ length bytes
    fits = omega (
      arith,
      length-append done (entry_image (key, child) ++ rest),
      length-append (entry_image (key, child)) rest,
      length-entry_image (key, child),
    )

-- Page ids have 64 bits, and those of children are not `NO_PAGE`.
abbrev pub ArePages : List Entry → Type 0
ArePages = All (λ entry. entry.1 < 2 ^ 64 - 1)

entries_size_lem : (entries : List Entry) → length (entries_image entries) ≡ entries_size entries
entries_size_lem [] = refl
entries_size_lem (entry ∷ entries) = omega (
  arith,
  entries_size_lem entries,
  length-append (entry_image entry) (entries_image entries),
  length-entry_image entry,
)

-- one entry, and then the rest
read_entries_next :
    (children : Bool) (page_id : ℕ) (bytes : Bytes) (cursor next : ℕ) (entry : Entry)
    (entries : List Entry) (end : ℕ)
    → entry.1 < 2 ^ 64 - 1
    → read_entry page_id bytes cursor ≡ ok (entry, next)
    → read_entries children page_id bytes (length entries) next ≡ ok (entries, end)
    → read_entries children page_id bytes (suc (length entries)) cursor ≡ ok (entry ∷ entries, end)
unfolding read_entries
read_entries_next children page_id bytes cursor next entry entries end v here rest =
    rw (here, is_page, rest) refl
  where
    is_page : not (children && entry.1 == no_page) ≡ true
    is_page = ground arith

read_entries-image :
    (children : Bool) (page_id : ℕ) (done : Bytes) (entries : List Entry)
    → length done + entries_size entries < 2 ^ 32
    → ArePages entries
    → read_entries children page_id (done ++ entries_image entries) (length entries) (length done)
      ≡ ok (entries, length done + entries_size entries)
unfolding read_entries
read_entries-image children page_id done [] small v = ground arith
read_entries-image children page_id done ((key, child) ∷ entries) small v =
    read_entries_next children page_id bytes (length done) (length one) (key, child) entries
      (length done + entries_size ((key, child) ∷ entries)) v.0
      (read_entry-image page_id done (key, child) (entries_image entries) (omega arith)
          (omega (arith, v.0)) (omega (arith, len, small))
        ∙ ap (λ n. ok ((key, child), n)) (sym behind))
      (ap (λ b. read_entries children page_id b (length entries) (length one))
          (sym (append_assoc done (entry_image (key, child)) (entries_image entries)))
        ∙ read_entries-image children page_id one entries (omega (arith, behind, small)) v.1
        ∙ ap (λ n. ok (entries, n)) (omega (arith, behind)))
  where
    bytes : Bytes
    bytes = done ++ entries_image ((key, child) ∷ entries)

    one : Bytes
    one = done ++ entry_image (key, child)

    len : length bytes ≡ length done + entries_size ((key, child) ∷ entries)
    len = omega (
      arith,
      length-append done (entries_image ((key, child) ∷ entries)),
      entries_size_lem ((key, child) ∷ entries),
    )

    behind : length one ≡ length done + 4 + length key + 8
    behind =
        omega
          (arith, length-append done (entry_image (key, child)), length-entry_image (key, child))

ensure_above_lem :
    (page_id : ℕ) (previous : Bytes) (keys : List Bytes)
    → KeysIncrease (previous ∷ keys)
    → ensure_above page_id previous keys ≡ ok tt
unfolding ensure_above
ensure_above_lem page_id previous [] h = refl
ensure_above_lem page_id previous (key ∷ keys) h =
    ground (arith, ensure_above_lem page_id key keys, h)

ensure_strict_keys_lem :
    (page_id : ℕ) (keys : List Bytes) → KeysIncrease keys → ensure_strict_keys page_id keys ≡ ok tt
unfolding ensure_strict_keys
ensure_strict_keys_lem page_id [] h = refl
ensure_strict_keys_lem page_id (key ∷ keys) h = ensure_above_lem page_id key keys h

decode_entries-image :
    (children : Bool) (page_id : ℕ) (head : Bytes) (entries : List Entry)
    → length head ≡ 32
    → 32 + entries_size entries ≤ 8128
    → KeysIncrease (map (λ entry. entry.0) entries)
    → ArePages entries
    → decode_entries children page_id (head ++ entries_image entries) (length entries) ≡ ok entries
unfolding decode_entries
decode_entries-image children page_id head entries h small strict v =
    rw (all_read, full, ensure_strict_keys_lem page_id (map (λ entry. entry.0) entries) strict) refl
  where
    all_read :
        read_entries children page_id (head ++ entries_image entries) (length entries) 32
        ≡ ok (entries, 32 + entries_size entries)
    all_read =
        ap (λ at. read_entries children page_id (head ++ entries_image entries) (length entries) at)
          (sym h)
        ∙ read_entries-image children page_id head entries (omega (arith, h)) v
        ∙ ap (λ n. ok (entries, n + entries_size entries)) h

    full : (32 + entries_size entries == length (head ++ entries_image entries)) ≡ true
    full = ground (arith, h, length-append head (entries_image entries), entries_size_lem entries)

-- What the tree gives to `encode`: keys in strict order, and pages and a level that fit their
-- fields.
abbrev pub IsEncodable : Node → Type 0
IsEncodable (leaf entries none) = KeysIncrease (map (λ entry. entry.0) entries) × ArePages entries
IsEncodable (leaf entries (some next)) =
    KeysIncrease (map (λ entry. entry.0) entries) × ArePages entries × (next < 2 ^ 64 - 1)
IsEncodable (internal level first_child separators) =
    KeysIncrease (map (λ entry. entry.0) separators)
    × ArePages separators
    × (first_child < 2 ^ 64 - 1)
    × (level ≢ 0)
    × (level < 2 ^ 16)

-- the header of a node, as `decode` reads it
decode_reads :
    (page_id : ℕ) (bytes : Bytes) (kind count height auxiliary : ℕ)
    → 32 ≤ length bytes
    → slice 0 4 bytes ≡ magic
    → read_u16 bytes 4 ≡ 1
    → get_or bytes 7 0 ≡ 0
    → slice 14 2 bytes ≡ zeroes 2
    → slice 24 8 bytes ≡ zeroes 8
    → get_or bytes 6 0 ≡ kind
    → read_u32 bytes 8 ≡ count
    → read_u16 bytes 12 ≡ height
    → read_u64 bytes 16 ≡ auxiliary
    → decode page_id bytes ≡ decode_kind page_id bytes kind count height auxiliary
unfolding decode
decode_reads page_id bytes kind count height auxiliary long m v r r' r'' k c h a =
    rw (long_enough, m, v, r, r', r'', k, c, h, a) refl
  where
    long_enough : not (ltb (length bytes) 32) ≡ true
    long_enough = ground arith

decode-head_image :
    (page_id count : ℕ) (node : Node) (rest : Bytes)
    → count < 2 ^ 32
    → level node < 2 ^ 16
    → auxiliary_of node < 2 ^ 64
    → let bytes = head_image count node ++ rest in
      decode page_id bytes
      ≡ decode_kind page_id bytes (kind_of node) count (level node) (auxiliary_of node)
decode-head_image page_id count node rest h h' h'' =
    decode_reads page_id (head_image count node ++ rest) (kind_of node) count (level node)
      (auxiliary_of node) (omega arith) refl refl refl refl refl refl (from_le-to_le_32 count h)
      (from_le-to_le_16 (level node) h') (from_le-to_le_64 (auxiliary_of node) h'')

-- one entry takes bytes
pub length-entries_size : (entries : List Entry) → length entries ≤ entries_size entries
length-entries_size [] = omega arith
length-entries_size ((key, child) ∷ entries) = omega (arith, length-entries_size entries)

decode-image :
    (page_id : ℕ) (node : Node)
    → IsEncodable node
    → 32 + entries_size (entries_of node) ≤ 8128
    → decode page_id (head_image (length (entries_of node)) node ++ entries_image (entries_of node))
      ≡ ok node
unfolding decode_kind decode_leaf decode_internal level
decode-image page_id (leaf entries none) (strict, v) small =
    decode-head_image page_id (length entries) (leaf entries none) (entries_image entries)
      (omega (arith, length-entries_size entries)) (omega arith) (omega arith)
    ∙ rw
        (decode_entries-image false page_id (head_image (length entries) (leaf entries none))
          entries refl small strict v)
        refl
decode-image page_id (leaf entries (some next)) (strict, v, page) small =
    decode-head_image page_id (length entries) (leaf entries (some next)) (entries_image entries)
      (omega (arith, length-entries_size entries)) (omega arith) (omega arith)
    ∙ rw
        (
          decode_entries-image false page_id
              (head_image (length entries) (leaf entries (some next))) entries refl small strict v,
          is_page,
        )
        refl
  where
    is_page : (next == no_page) ≡ false
    is_page = ground arith
decode-image page_id (internal height first_child separators) (strict, v, page, high, low) small =
    decode-head_image page_id (length separators) (internal height first_child separators)
      (entries_image separators) (omega (arith, length-entries_size separators)) (omega arith)
      (omega arith)
    ∙ rw
        (
          positive,
          is_page,
          decode_entries-image true page_id
              (head_image (length separators) (internal height first_child separators)) separators
              refl small strict v,
        )
        refl
  where
    is_page : (first_child == no_page) ≡ false
    is_page = ground arith

    positive : (height == 0) ≡ false
    positive = ground arith

-- A node with keys in strict order, and with pages and a level that fit their fields, decodes from
-- what `encode` makes of it, where `encode` succeeds.
pub decode-encode_node :
    (page_id : ℕ) (node : Node) (payload : Bytes)
    → IsEncodable node
    → encode node ≡ ok payload
    → decode page_id payload ≡ ok node
decode-encode_node page_id node payload v e =
    let (image, small) = encode-image node payload e in
    ap (decode page_id) image ∙ decode-image page_id node v small
