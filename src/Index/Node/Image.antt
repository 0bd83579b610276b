-- ===== src/Index/Node/Image.antt =====
-- The bytes that `encode` of index/src/node.rs makes of a node.
use quantadb.Prelude.{
  ℕ, ◌+◌, ◌%◌, ◌^◌, ◌≤◌, ◌≡◌, refl, sym, ap, ◌∙◌, List, [], ◌∷◌, ◌++◌, append_assoc, length,
  length-append, not, ltb, arith,
}
use quantadb.Prelude.Result.{ok, >>=-eq-ok, ensure->>-ok}
use quantadb.Bytes.{Bytes, zeroes, to_le, write_at}
use quantadb.Bytes.Slices.{replicate-add, overlay-zeroes, write_at-length_append}
use quantadb.Index.Error.{IndexResult}
use quantadb.Index.Node.{
  Node, Entry, magic, header_size, level, entries_of, kind_of, auxiliary_of, encoded_length,
  checked_entry_length, count_u32, write_entry, write_entries, fill, encode,
}
use quantadb.Index.Node.Valid.{entries_size}

-- the bytes of an entry, and of entries
abbrev pub entry_image : Entry → Bytes
entry_image (key, page_id) = to_le 4 (length key % 2 ^ 32) ++ (key ++ to_le 8 page_id)

abbrev pub entries_image : List Entry → Bytes
entries_image [] = []
entries_image (entry ∷ entries) = entry_image entry ++ entries_image entries

-- a copy to the head of what is still zero
write_next :
    (done xs : Bytes) (n : ℕ)
    → write_at (done ++ zeroes (length xs + n)) (length done) xs ≡ (done ++ xs) ++ zeroes n
write_next done xs n =
    write_at-length_append done (zeroes (length xs + n)) xs
    ∙ ap (λ t. done ++ t) (overlay-zeroes xs n)
    ∙ sym (append_assoc done xs (zeroes n))

write_entry-image :
    (done : Bytes) (entry : Entry) (n : ℕ)
    → write_entry (done ++ zeroes (4 + (length entry.0 + (8 + n)))) (length done) entry
      ≡ (done ++ entry_image entry) ++ zeroes n
unfolding write_entry
write_entry-image done (key, page_id) n =
    ap (λ b. write_at (write_at b (length done + 4) key) (length done + 4 + length key) last)
      (write_next done first (length key + (8 + n)))
    ∙ ap
        (λ at.
          write_at (write_at (one ++ zeroes (length key + (8 + n))) at key) (at + length key) last)
        (sym (length-append done first))
    ∙ ap (λ b. write_at b (length one + length key) last) (write_next one key (8 + n))
    ∙ ap (λ at. write_at (two ++ zeroes (8 + n)) at last) (sym (length-append one key))
    ∙ write_next two last n
    ∙ ap (λ b. b ++ zeroes n) (append_assoc one key last ∙ append_assoc done first (key ++ last))
  where
    first : Bytes
    first = to_le 4 (length key % 2 ^ 32)

    last : Bytes
    last = to_le 8 page_id

    one : Bytes
    one = done ++ first

    two : Bytes
    two = one ++ key

pub length-entry_image : (entry : Entry) → length (entry_image entry) ≡ 4 + length entry.0 + 8
length-entry_image (key, page_id) = omega (arith, length-append key (to_le 8 page_id))

write_entries-image :
    (done : Bytes) (entries : List Entry)
    → write_entries (done ++ zeroes (entries_size entries)) (length done) entries
      ≡ done ++ entries_image entries
unfolding write_entries
write_entries-image done [] = refl
write_entries-image done ((key, page_id) ∷ entries) =
    let one = done ++ entry_image (key, page_id) in
    ap
      (λ n.
        write_entries (write_entry (done ++ zeroes n) (length done) (key, page_id))
          (length done + 4 + length key + 8) entries)
      regroup
    ∙ ap (λ b. write_entries b (length done + 4 + length key + 8) entries)
        (write_entry-image done (key, page_id) (entries_size entries))
    ∙ ap (λ at. write_entries (one ++ zeroes (entries_size entries)) at entries) behind
    ∙ write_entries-image one entries
    ∙ append_assoc done (entry_image (key, page_id)) (entries_image entries)
  where
    regroup :
        4 + length key + 8 + entries_size entries ≡ 4 + (length key + (8 + entries_size entries))
    regroup = omega arith

    behind : length done + 4 + length key + 8 ≡ length (done ++ entry_image (key, page_id))
    behind =
        omega (
          arith,
          length-append done (entry_image (key, page_id)),
          length-entry_image (key, page_id),
        )

-- the header of a node with a number of entries
abbrev pub head_image : ℕ → Node → Bytes
head_image count node =
    magic
    ++ (to_le 2 1
        ++ ((kind_of node ∷ 0 ∷ [])
            ++ (to_le 4 count
                ++ (to_le 2 (level node)
                    ++ (zeroes 2 ++ (to_le 8 (auxiliary_of node) ++ zeroes 8))))))

fill-image :
    (count : ℕ) (node : Node)
    → fill (zeroes (32 + entries_size (entries_of node))) count node
      ≡ head_image count node ++ entries_image (entries_of node)
unfolding fill
fill-image count node =
    ap (λ b. fill b count node) (replicate-add 32 (entries_size (entries_of node)) 0)
    ∙ write_entries-image (head_image count node) (entries_of node)

-- the sum of `encode` is that of the header and the entries
encoded_length_lem :
    (total : ℕ) (entries : List Entry) (size : ℕ)
    → encoded_length total entries ≡ ok size
    → size ≡ total + entries_size entries
unfolding encoded_length checked_entry_length
encoded_length_lem total [] size e = ground arith
encoded_length_lem total ((key, page_id) ∷ entries) size e =
    let (sum, e1, e2) = >>=-eq-ok (checked_entry_length total (length key)) _ e in
    ground (arith, encoded_length_lem sum entries size e2, e1)

pub encode-image :
    (node : Node) (payload : Bytes)
    → encode node ≡ ok payload
    → (payload ≡ head_image (length (entries_of node)) node ++ entries_image (entries_of node))
      × (32 + entries_size (entries_of node) ≤ 8128)
unfolding encode count_u32
encode-image node payload e =
    let (size, e1, e2) = >>=-eq-ok (encoded_length header_size (entries_of node)) _ e in
    let (small, e3) = ensure->>-ok (not (ltb 8128 size)) _ _ e2 in
    let (count, e4, e5) = >>=-eq-ok (count_u32 (length (entries_of node))) _ e3 in
    let whole = encoded_length_lem 32 (entries_of node) size e1 in
    let same_count : length (entries_of node) ≡ count = ground (arith, e4) in
    (
      sym (ok-injective _ _ e5)
          ∙ ap (λ n. fill (zeroes n) count node) whole
          ∙ ap (λ c. fill (zeroes (32 + entries_size (entries_of node))) c node) (sym same_count)
          ∙ fill-image (length (entries_of node)) node,
      ground (arith, whole, small),
    )
  where
    ok-injective : (a b : Bytes) → ◌≡◌ {A = IndexResult Bytes} (ok a) (ok b) → a ≡ b
    ok-injective a b h = cc
