-- ===== src/Index/Tree/Partition/Bounds.antt =====
-- index/src/tree.rs: the nodes of a partition hold all entries in order, and each fits its page.
use quantadb.Prelude.{
  ℕ, zero, suc, ◌+◌, ◌*◌, ◌≤◌, ◌≡◌, ◌≢◌, refl, ap, ◌∙◌, true, false, List, [], ◌∷◌, ◌++◌, length,
  length-append, ltb, arith, Bool-cases, inl, inr, map,
}
use quantadb.Prelude.Result.{ok, >>=-eq-ok, ensure->>-ok}
use quantadb.Prelude.Seq.{All}
use quantadb.Bytes.{Bytes}
use quantadb.Index.Node.{Entry, increases}
use quantadb.Index.Node.Valid.{entries_size, KeysIncrease}
use quantadb.Index.Tree.Partition.{
  Child, Group, known_size, entry_size, fill_node, partition_by, partition_leaves, partition_from,
  partition_internal, check_order, check_sizes, validate_entries,
}

-- keys that fit a node
abbrev pub Sized : List (Bytes × ℕ) → Type 0
Sized = All (λ entry. 44 + length entry.0 ≤ 8128)

-- what the inner loop has put into a node, and what it has left
abbrev Filled : ℕ → List (Bytes × ℕ) → List (Bytes × ℕ) → List (Bytes × ℕ) → Type 0
Filled used entries group left_over =
    (fill_node used entries ≡ ok (group, left_over))
    × (entries ≡ group ++ left_over)
    × (used + entries_size group ≤ 8128)
    × Sized left_over

known_size-Sized :
    (entry : Bytes × ℕ) → 44 + length entry.0 ≤ 8128 → known_size entry ≡ ok (length entry.0 + 12)
unfolding known_size entry_size
known_size-Sized (key, page_id) h = ground arith

-- one entry more in the node
fill_more :
    (used : ℕ) (entry : Bytes × ℕ) (entries group left_over : List (Bytes × ℕ))
    → 44 + length entry.0 ≤ 8128
    → used + (length entry.0 + 12) ≤ 8128
    → Filled (used + (length entry.0 + 12)) entries group left_over
    → Filled used (entry ∷ entries) (entry ∷ group) left_over
unfolding fill_node
fill_more used (key, page_id) entries group left_over h fits (e, whole, size, sized) = (
  rw (known_size-Sized (key, page_id) h, room, e) refl,
  ap (λ t. (key, page_id) ∷ t) whole,
  omega (arith, size),
  sized,
)
  where
    room : ltb 8128 (used + (length key + 12)) ≡ false
    room = ground arith

fill_none :
    (used : ℕ) (entry : Bytes × ℕ) (entries : List (Bytes × ℕ))
    → Sized (entry ∷ entries)
    → used ≤ 8128
    → ltb 8128 (used + (length entry.0 + 12)) ≡ true
    → Filled used (entry ∷ entries) [] (entry ∷ entries)
unfolding fill_node
fill_none used entry entries h small full =
    (rw (known_size-Sized entry h.0, full) refl, refl, omega arith, h)

fill_node-Filled :
    (used : ℕ) (entries : List (Bytes × ℕ))
    → Sized entries
    → used ≤ 8128
    → (group : List (Bytes × ℕ)) × (left_over : List (Bytes × ℕ)) × Filled used entries group
        left_over
unfolding fill_node
fill_node-Filled used [] h small = ([], [], (refl, refl, omega arith, tt))
fill_node-Filled used (entry ∷ entries) h small =
    elim (Bool-cases (ltb 8128 (used + (length entry.0 + 12)))) [
      | inl full ↦ ([], entry ∷ entries, fill_none used entry entries h small full)
      | inr room ↦
          let fits : used + (length entry.0 + 12) ≤ 8128 = ground arith in
          let (group, left_over, filled) =
            fill_node-Filled (used + (length entry.0 + 12)) entries h.1 fits in
          (entry ∷ group, left_over, fill_more used entry entries group left_over h.0 fits filled)
    ]

-- a node that starts empty takes the first entry
fill_first :
    (entry : Bytes × ℕ) (entries : List (Bytes × ℕ))
    → Sized (entry ∷ entries)
    → (group : List (Bytes × ℕ)) × (left_over : List (Bytes × ℕ)) × Filled 32
        (entry ∷ entries)
        (entry ∷ group)
        left_over
fill_first entry entries h =
    let fits : 32 + (length entry.0 + 12) ≤ 8128 = omega (arith, h.0) in
    let (group, left_over, filled) =
      fill_node-Filled (32 + (length entry.0 + 12)) entries h.1 fits in
    (group, left_over, fill_more 32 entry entries group left_over h.0 fits filled)

abbrev pub concat {ℓ} : {A : Type ℓ} → List (List A) → List A
concat [] = []
concat (xs ∷ rest) = xs ++ concat rest

-- Nodes in order for these entries, none of them empty, and each within a page.
abbrev pub ArePieces : List Entry → List (List Entry) → Type 0
ArePieces entries groups =
    (entries ≡ concat groups)
    × All (λ group. (group ≢ []) × (32 + entries_size group ≤ 8128)) groups

partition_by-ArePieces :
    (fuel : ℕ) (entries : List Entry)
    → length entries ≤ fuel
    → Sized entries
    → (groups : List (List Entry)) × (partition_by fuel entries ≡ ok groups)
      × ArePieces entries groups
unfolding partition_by
partition_by-ArePieces fuel [] h sized = ([], refl, (refl, tt))
partition_by-ArePieces zero (entry ∷ entries) h sized = absurd (omega (arith, h))
partition_by-ArePieces (suc fuel) (entry ∷ entries) h sized =
    let (group, left_over, filled) = fill_first entry entries sized in
    let (e, whole, size, rest_sized) = filled in
    let shorter : length left_over ≤ fuel =
      omega (arith, h, ap length whole, length-append group left_over) in
    let (groups, e', pieces) = partition_by-ArePieces fuel left_over shorter rest_sized in
    let (whole', small) = pieces in
    (
      (entry ∷ group) ∷ groups,
      rw (e, e') refl,
      (whole ∙ ap (λ t. entry ∷ (group ++ t)) whole', ((λ c. cc, size), small)),
    )

check_sizes-Sized : (entries : List Entry) → check_sizes entries ≡ ok tt → Sized entries
unfolding check_sizes known_size entry_size
check_sizes-Sized [] e = tt
check_sizes-Sized ((key, page_id) ∷ entries) e = ground (arith, check_sizes-Sized entries)

check_order-KeysIncrease :
    (entries : List Entry)
    → check_order entries ≡ ok tt
    → KeysIncrease (map (λ entry. entry.0) entries)
unfolding check_order
check_order-KeysIncrease [] e = tt
check_order-KeysIncrease (entry ∷ []) e = tt
check_order-KeysIncrease (a ∷ b ∷ entries) e =
    let (first, rest) = ensure->>-ok (increases a.0 b.0) _ _ e in
    (first, check_order-KeysIncrease (b ∷ entries) rest)

pub validate_entries_lem :
    (entries : List Entry)
    → validate_entries entries ≡ ok tt
    → Sized entries × KeysIncrease (map (λ entry. entry.0) entries)
unfolding validate_entries
validate_entries_lem entries e =
    let (done, first, rest) = >>=-eq-ok (check_order entries) _ e in
    (check_sizes-Sized entries rest, check_order-KeysIncrease entries first)

-- Entries that `validate_entries` lets through are cut into leaves without an error: the leaves hold
-- all of them in order, no leaf is empty, and each fits a page.
pub partition_leaves-ArePieces :
    (entries : List Entry)
    → validate_entries entries ≡ ok tt
    → (groups : List (List Entry)) × (partition_leaves entries ≡ ok groups)
      × ArePieces entries groups
unfolding partition_leaves
partition_leaves-ArePieces entries e =
    partition_by-ArePieces (length entries) entries (omega arith) (validate_entries_lem entries e).0

-- Internal nodes in order for these children, each within a page, and at most half as many where
-- there are two or more.
abbrev pub AreGroups : List Child → List Group → Type 0
AreGroups children groups =
    (children ≡ concat (map (λ group. group.0 ∷ group.1) groups))
    × All (λ group. 32 + entries_size group.1 ≤ 8128) groups
    × (2 * length groups ≤ length children + 1)

-- one internal node with at least one separator, and those behind it
group_first :
    (fuel : ℕ) (child second : Child) (children group left_over : List Child) (groups : List Group)
    → Filled 32 (second ∷ children) (second ∷ group) left_over
    → partition_from fuel left_over ≡ ok groups
    → AreGroups left_over groups
    → (partition_from (suc fuel) (child ∷ second ∷ children)
        ≡ ok ((child, second ∷ group) ∷ groups))
      × AreGroups (child ∷ second ∷ children) ((child, second ∷ group) ∷ groups)
unfolding partition_from
group_first fuel child second children group left_over groups (e, whole, size, sized) e'
      (whole', small, half) =
    (
      rw (e, e') refl,
      (
        ap (λ t. child ∷ t) (whole ∙ ap (λ t. second ∷ (group ++ t)) whole'),
        (size, small),
        omega (arith, half, ap length whole, length-append group left_over),
      ),
    )

partition_from-AreGroups :
    (fuel : ℕ) (children : List Child)
    → length children ≤ fuel
    → Sized children
    → (groups : List Group) × (partition_from fuel children ≡ ok groups) × AreGroups children groups
unfolding partition_from fill_node
partition_from-AreGroups fuel [] h sized = ([], refl, (refl, tt, omega arith))
partition_from-AreGroups zero (child ∷ children) h sized = absurd (omega (arith, h))
partition_from-AreGroups (suc fuel) (child ∷ []) h sized =
    ((child, []) ∷ [], refl, (refl, (omega arith, tt), omega arith))
partition_from-AreGroups (suc fuel) (child ∷ second ∷ children) h sized =
    let (group, left_over, filled) = fill_first second children sized.1 in
    let shorter : length left_over ≤ fuel =
      omega (arith, h, ap length filled.1, length-append group left_over) in
    let (groups, e, pieces) = partition_from-AreGroups fuel left_over shorter filled.3 in
    let made = group_first fuel child second children group left_over groups filled e pieces in
    ((child, second ∷ group) ∷ groups, made.0, made.1)

-- Children whose keys fit a node are grouped into internal nodes without an error: the nodes have
-- all of them in order, each fits a page, and there are at most half as many, rounded up.
pub partition_internal-AreGroups :
    (children : List Child)
    → Sized children
    → (groups : List Group) × (partition_internal children ≡ ok groups) × AreGroups children groups
unfolding partition_internal
partition_internal-AreGroups children sized =
    partition_from-AreGroups (length children) children (omega arith) sized
