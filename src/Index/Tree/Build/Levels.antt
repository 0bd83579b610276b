-- ===== src/Index/Tree/Build/Levels.antt =====
-- index/src/tree.rs: the nodes that `plan` writes for a level hold what the level below holds.
use Prim.Native.Nat.Ordering.{lt}
use quantadb.Prelude.{
  true, append-nil, ℕ, suc, ◌+◌, ◌-◌, ◌^◌, ◌≤◌, ◌<◌, ◌≡◌, ◌≢◌, refl, sym, ap, ◌∙◌, subst, Option,
  some, List, [], ◌∷◌, ◌++◌, append_assoc, map, length, arith,
}
use quantadb.Prelude.Result.{ok, ◌>>=◌, >>=-eq-ok}
use quantadb.Prelude.Ord.{compare_bytes, bytes_ord}
use quantadb.Prelude.Map.{Sorted, KeysAbove-trans}
use quantadb.Prelude.Seq.{All}
use quantadb.Bytes.{Bytes}
use quantadb.Storage.Error.{StorageResult}
use quantadb.Storage.Store.{PageWrite}
use quantadb.Index.Error.{IndexResult}
use quantadb.Index.Node.{Node, leaf, internal, Entry, encode}
use quantadb.Index.Node.RoundTrip.{IsEncodable, ArePages, decode-encode_node}
use quantadb.Index.Tree.{read_node, at_most}
use quantadb.Index.Tree.Partition.Bounds.{Sized}
use quantadb.Index.Tree.Lookup.{Reading, Below, AtLeast, Children, Tree}
use quantadb.Index.Tree.Partition.{Child, Group}
use quantadb.Index.Tree.Partition.Bounds.{concat}
use quantadb.Index.Tree.Order.{
  Sorted-KeysIncrease, All-append, All-join, Sorted-append, Sorted-Below, Sorted-AtLeast,
  Below-trans, KeysAbove-cons,
}
use quantadb.Index.Tree.Build.{head?, with_node, leaf_nodes, level_nodes}

-- A storage that has the writes: each page reads as it was written.
abbrev pub Reads : (ℕ → StorageResult (Option Bytes)) → List PageWrite → Type 0
Reads read_page = All (λ write. read_page write.page_id ≡ ok (some write.payload))

-- The children of a level, the first with this key: in order, they hold the entries; and their keys
-- and pages fit the nodes above.
abbrev pub Level :
    (ℕ → StorageResult (Option Bytes)) → ℕ → Bytes → List Child → ℕ → List Entry → Type 0
Level read_page level key children count entries =
    (page_id : ℕ) × (others : List Child) × (children ≡ (key, page_id) ∷ others)
    × AtLeast key entries
    × Children (Tree (Reading read_page) level) page_id others entries
    × Sorted ((key, page_id) ∷ others)
    × ArePages ((key, page_id) ∷ others)
    × Sized ((key, page_id) ∷ others)
    × (suc (length others) ≡ count)

read_node-encode :
    (read_page : ℕ → StorageResult (Option Bytes)) (page_id : ℕ) (node : Node) (payload : Bytes)
    → IsEncodable node
    → encode node ≡ ok payload
    → read_page page_id ≡ ok (some payload)
    → read_node read_page page_id ≡ ok node
unfolding read_node
read_node-encode read_page page_id node payload v e r =
    rw (r) (decode-encode_node page_id node payload v e)

-- The children of a level split where a key among them begins.
Children-split :
    (Holds : ℕ → List Entry → Type 0) (page_id : ℕ) (before : List Child) (child : Child)
    (behind : List Child) (entries : List Entry)
    → Sorted (before ++ (child ∷ behind))
    → Children Holds page_id (before ++ (child ∷ behind)) entries
    → (left : List Entry) × (right : List Entry) × (entries ≡ left ++ right)
      × Below child.0 left
      × AtLeast child.0 right
      × Children Holds page_id before left
      × Children Holds child.1 behind right
Children-split Holds page_id [] child behind entries s h = h
Children-split Holds page_id ((k, p) ∷ before) child behind entries s h =
    let (left, right, whole, low, high, here, rest) = h in
    let (left', right', whole', low', high', here', rest') =
      Children-split Holds p before child behind right s.1 rest in
    let first_less = KeysAbove-cons k child behind before s.0 in
    let both =
      All-append (λ (entry : Entry). at_most k entry.0 ≡ true) left' right'
        (subst (AtLeast k) whole' high) in
    (
      left ++ left',
      right',
      whole ∙ ap (λ t. left ++ t) whole' ∙ sym (append_assoc left left' right'),
      All-join (λ (entry : Entry). compare_bytes entry.0 child.0 ≡ lt) left left'
          (Below-trans k child.0 left first_less low) low',
      high',
      (left, left', refl, low, both.0, here, here'),
      rest',
    )

-- what makes a node of a group, where the rest has been made
with_node-ok :
    (first_key : Bytes) (page_id : ℕ) (node : Node)
    (rest : IndexResult (List PageWrite × List Child)) (writes : List PageWrite)
    (children : List Child)
    → with_node first_key page_id node rest ≡ ok (writes, children)
    → (payload : Bytes) × (more : List PageWrite) × (others : List Child) × (encode node
        ≡ ok payload)
      × (rest ≡ ok (more, others))
      × (writes ≡ record { page_id = page_id; payload = payload } ∷ more)
      × (children ≡ (first_key, page_id) ∷ others)
with_node-ok first_key page_id node rest writes children e =
    let (payload, e1, e2) =
      >>=-eq-ok (encode node)
        (λ payload. rest >>= λ made.
          ok (
            record { page_id = page_id; payload = payload } ∷ made.0,
            (first_key, page_id) ∷ made.1,
          ))
        e in
    let (made, e3, e4) =
      >>=-eq-ok rest
        (λ made.
          ok (
            record { page_id = page_id; payload = payload } ∷ made.0,
            (first_key, page_id) ∷ made.1,
          ))
        e2 in
    (payload, made.0, made.1, e1, e3, cc, cc)

-- a level of one node, and one node more before a level
Level-one :
    (read_page : ℕ → StorageResult (Option Bytes)) (level : ℕ) (key : Bytes) (page_id : ℕ)
    (children : List Child) (entries : List Entry)
    → children ≡ (key, page_id) ∷ []
    → AtLeast key entries
    → Tree (Reading read_page) level page_id entries
    → page_id < 2 ^ 64 - 1
    → 44 + length key ≤ 8128
    → Level read_page level key children 1 entries
Level-one read_page level key page_id children entries e a t v h =
    (page_id, [], e, a, t, (tt, tt), (v, tt), (h, tt), refl)

Level-cons :
    (read_page : ℕ → StorageResult (Option Bytes)) (level : ℕ) (key next_key : Bytes) (page_id : ℕ)
    (children others : List Child) (count : ℕ) (entries left right : List Entry)
    → children ≡ (key, page_id) ∷ others
    → AtLeast key entries
    → Tree (Reading read_page) level page_id left
    → page_id < 2 ^ 64 - 1
    → 44 + length key ≤ 8128
    → entries ≡ left ++ right
    → Below next_key left
    → compare_bytes key next_key ≡ lt
    → Level read_page level next_key others count right
    → Level read_page level key children (suc count) entries
Level-cons read_page level key next_key page_id children others count entries left right e a t v h
      whole low less (page_id', others', e', a', c', s', v', h', n') =
    (
      page_id,
      (next_key, page_id') ∷ others',
      e ∙ ap (λ t. (key, page_id) ∷ t) e',
      a,
      (left, right, whole, low, a', t, c'),
      ((less, KeysAbove-trans key next_key others' less s'.0), s'),
      (v, v'),
      (h, h'),
      ap suc n',
    )

-- a node over its children
node_held :
    (read_page : ℕ → StorageResult (Option Bytes)) (below : ℕ) (first : Child) (others : List Child)
    (page_id : ℕ) (payload : Bytes) (entries : List Entry)
    → suc below < 2 ^ 16
    → Sorted others
    → ArePages (first ∷ others)
    → encode (internal (suc below) first.1 others) ≡ ok payload
    → read_page page_id ≡ ok (some payload)
    → Children (Tree (Reading read_page) below) first.1 others entries
    → Tree (Reading read_page) (suc below) page_id entries
node_held read_page below first others page_id payload entries top s v e r c = (
  first.1,
  others,
  read_node-encode read_page page_id (internal (suc below) first.1 others) payload
      (Sorted-KeysIncrease others s, v.1, v.0, (λ z. omega arith), top) e r,
  c,
)

abbrev pub ungroup : List Group → List Child
ungroup groups = concat (map (λ group. group.0 ∷ group.1) groups)

pub level_nodes-Level :
    (read_page : ℕ → StorageResult (Option Bytes)) (below : ℕ) (first : Child) (others : List Child)
    (groups : List Group) (page_ids : List ℕ) (writes : List PageWrite) (parents : List Child)
    (entries : List Entry)
    → suc below < 2 ^ 16
    → Sorted (ungroup ((first, others) ∷ groups))
    → ArePages (ungroup ((first, others) ∷ groups))
    → Sized (ungroup ((first, others) ∷ groups))
    → length page_ids ≡ suc (length groups)
    → All (λ page_id. page_id < 2 ^ 64 - 1) page_ids
    → level_nodes (suc below) ((first, others) ∷ groups) page_ids ≡ ok (writes, parents)
    → Reads read_page writes
    → AtLeast first.0 entries
    → Children (Tree (Reading read_page) below) first.1 (others ++ ungroup groups) entries
    → Level read_page (suc below) first.0 parents (suc (length groups)) entries
unfolding level_nodes
level_nodes-Level read_page below first others groups [] writes parents entries top s v h n w e r a
      c =
    absurd (omega (arith, n))
level_nodes-Level read_page below first others [] (page_id ∷ page_ids) writes parents entries top s
      v h n w e r a c =
    let node = internal (suc below) first.1 others in
    let (payload, more, rest, e1, e2, e3, e4) =
      with_node-ok first.0 page_id node (level_nodes (suc below) [] page_ids) writes parents e in
    let here = subst (Reads read_page) e3 r in
    let none_more : rest ≡ [] = ground (arith, e2) in
    let alone = append-nil others in
    Level-one read_page (suc below) first.0 page_id parents entries
      (e4 ∙ ap (λ t. (first.0, page_id) ∷ t) none_more) a
      (node_held read_page below first others page_id payload entries top (subst Sorted alone s.1)
        (v.0, subst ArePages alone v.1) e1 here.0
        (subst (λ t. Children (Tree (Reading read_page) below) first.1 t entries) alone c))
      w.0 h.0
level_nodes-Level read_page below first others ((second, others') ∷ groups) (page_id ∷ page_ids)
      writes parents entries top s v h n w e r a c =
    let node = internal (suc below) first.1 others in
    let (payload, more, rest, e1, e2, e3, e4) =
      with_node-ok first.0 page_id node
        (level_nodes (suc below) ((second, others') ∷ groups) page_ids) writes parents e in
    let here = subst (Reads read_page) e3 r in
    let (left, right, whole, low, high, c1, c2) =
      Children-split (Tree (Reading read_page) below) first.1 others second
        (others' ++ ungroup groups) entries s.1 c in
    let s' = Sorted-append others (ungroup ((second, others') ∷ groups)) s.1 in
    let v' =
      All-append (λ (entry : Entry). entry.1 < 2 ^ 64 - 1) others
        (ungroup ((second, others') ∷ groups)) v.1 in
    let h' =
      All-append (λ (entry : Entry). 44 + length entry.0 ≤ 8128) others
        (ungroup ((second, others') ∷ groups)) h.1 in
    Level-cons read_page (suc below) first.0 second.0 page_id parents rest (suc (length groups))
      entries left right e4 a
      (node_held read_page below first others page_id payload left top s'.0 (v.0, v'.0) e1 here.0
        c1)
      w.0 h.0 whole low (KeysAbove-cons first.0 second (others' ++ ungroup groups) others s.0)
      (level_nodes-Level read_page below second others' groups page_ids more rest right top s'.1
        v'.1 h'.1 (omega (arith, n)) w.1 e2 here.1 high c2)

leaf_held :
    (read_page : ℕ → StorageResult (Option Bytes)) (group : List Entry) (next : Option ℕ)
    (page_id : ℕ) (payload : Bytes)
    → IsEncodable (leaf group next)
    → encode (leaf group next) ≡ ok payload
    → read_page page_id ≡ ok (some payload)
    → Tree (Reading read_page) 0 page_id group
leaf_held read_page group next page_id payload v e r =
    (next, read_node-encode read_page page_id (leaf group next) payload v e r)

leaf-IsEncodable :
    (group : List Entry) (page_ids : List ℕ)
    → Sorted group
    → ArePages group
    → All (λ page_id. page_id < 2 ^ 64 - 1) page_ids
    → IsEncodable (leaf group (head? page_ids))
leaf-IsEncodable group [] s v w = (Sorted-KeysIncrease group s, v)
leaf-IsEncodable group (next ∷ page_ids) s v w = (Sorted-KeysIncrease group s, v, w.0)

pub leaf_nodes-Level :
    (read_page : ℕ → StorageResult (Option Bytes)) (first : Entry) (group : List Entry)
    (groups : List (List Entry)) (page_ids : List ℕ) (writes : List PageWrite)
    (parents : List Child)
    → Sorted (concat ((first ∷ group) ∷ groups))
    → ArePages (concat ((first ∷ group) ∷ groups))
    → Sized (concat ((first ∷ group) ∷ groups))
    → All (λ group. group ≢ []) groups
    → length page_ids ≡ suc (length groups)
    → All (λ page_id. page_id < 2 ^ 64 - 1) page_ids
    → leaf_nodes ((first ∷ group) ∷ groups) page_ids ≡ ok (writes, parents)
    → Reads read_page writes
    → Level read_page 0 first.0 parents (suc (length groups)) (concat ((first ∷ group) ∷ groups))
unfolding leaf_nodes
leaf_nodes-Level read_page first group groups [] writes parents s v h full n w e r =
    absurd (omega (arith, n))
leaf_nodes-Level read_page first group [] (page_id ∷ page_ids) writes parents s v h full n w e r =
    let node = leaf (first ∷ group) (head? page_ids) in
    let (payload, more, rest, e1, e2, e3, e4) =
      with_node-ok first.0 page_id node (leaf_nodes [] page_ids) writes parents e in
    let here = subst (Reads read_page) e3 r in
    let none_more : rest ≡ [] = ground (arith, e2) in
    let alone = append-nil (first ∷ group) in
    subst (λ t. Level read_page 0 first.0 parents 1 t) (sym alone)
      (Level-one read_page 0 first.0 page_id parents (first ∷ group)
        (e4 ∙ ap (λ t. (first.0, page_id) ∷ t) none_more)
        (Sorted-AtLeast first group (subst Sorted alone s))
        (leaf_held read_page (first ∷ group) (head? page_ids) page_id payload
          (leaf-IsEncodable (first ∷ group) page_ids (subst Sorted alone s) (subst ArePages alone v)
            w.1)
          e1 here.0)
        w.0 h.0)
leaf_nodes-Level read_page first group ([] ∷ groups) (page_id ∷ page_ids) writes parents s v h full
      n w e r =
    absurd (full.0 refl)
leaf_nodes-Level read_page first group ((second ∷ group') ∷ groups) (page_id ∷ page_ids) writes
      parents s v h full n w e r =
    let behind = concat ((second ∷ group') ∷ groups) in
    let node = leaf (first ∷ group) (head? page_ids) in
    let (payload, more, rest, e1, e2, e3, e4) =
      with_node-ok first.0 page_id node (leaf_nodes ((second ∷ group') ∷ groups) page_ids) writes
        parents e in
    let here = subst (Reads read_page) e3 r in
    let s' = Sorted-append (first ∷ group) behind s in
    let v' = All-append (λ (entry : Entry). entry.1 < 2 ^ 64 - 1) (first ∷ group) behind v in
    let h' = All-append (λ (entry : Entry). 44 + length entry.0 ≤ 8128) (first ∷ group) behind h in
    Level-cons read_page 0 first.0 second.0 page_id parents rest (suc (length groups))
      (concat ((first ∷ group) ∷ (second ∷ group') ∷ groups)) (first ∷ group) behind e4
      (Sorted-AtLeast first (group ++ behind) s)
      (leaf_held read_page (first ∷ group) (head? page_ids) page_id payload
        (leaf-IsEncodable (first ∷ group) page_ids s'.0 v'.0 w.1) e1 here.0)
      w.0 h.0 refl (Sorted-Below (first ∷ group) second (group' ++ concat groups) s)
      (KeysAbove-cons first.0 second (group' ++ concat groups) group s.0)
      (leaf_nodes-Level read_page second group' groups page_ids more rest s'.1 v'.1 h'.1 full.1
        (omega (arith, n)) w.1 e2 here.1)
