-- ===== src/Index/Tree/Edit/Chosen.antt =====
-- index/src/tree.rs: the child that the way down of `apply` goes to at an internal node.
use Prim.Native.Nat.Ordering.{lt}
use quantadb.Prelude.{
  ℕ, suc, ◌+◌, ◌-◌, ◌≡◌, refl, sym, ap, ◌∙◌, subst, ◌⊎◌, inl, inr, true, false, Option, none, some,
  List, [], ◌∷◌, ◌++◌, take, drop, arith, Bool-cases,
}
use quantadb.Prelude.Ord.{
  compare_bytes, bytes_ord, compare_bytes_trans, compare_bytes-eq, compare_bytes-gt,
  compare_bytes_refl,
}
use quantadb.Prelude.Seq.{partition_point}
use quantadb.Bytes.{Bytes}
use quantadb.Index.Node.{Node, Entry, level}
use quantadb.Index.Tree.{at_most}
use quantadb.Index.Tree.Lookup.{Tree, AtLeast, Below}
use quantadb.Index.Tree.Partition.{Child}
use quantadb.Index.Tree.Order.{All-append}
use quantadb.Index.Tree.Edit.{EditFrame, child_at}
use quantadb.Index.Tree.Edit.Row.{
  Under, Over, AllUnder, Under-trans, at_most_trans, at_most-lt, next_key, Row, Row-append, Row-key,
  Row-AtLeast, Row-AllUnder, NoEmptyLeaf, All-imp,
}
use quantadb.Index.Tree.Edit.Level.{KeysOver}
use quantadb.Index.Tree.Edit.Frames.{Frame}
use quantadb.Index.Tree.Edit.Leaf.{Above}

pub Over-trans : (low : Option Bytes) (a b : Bytes) → Over low a → at_most a b ≡ true → Over low b
Over-trans none a b h k = tt
Over-trans (some low) a b h k = at_most_trans low a b h k

Row-KeysOver :
    (At : ℕ → Node → Type 0) (level : ℕ) (low high : Option Bytes) (child : Child)
    (children : List Child) (entries : List Entry)
    → NoEmptyLeaf At
    → Row At level high (child ∷ children) entries
    → Over low child.0
    → KeysOver low (child ∷ children)
Row-KeysOver At level low high child [] entries full row over = (over, tt)
Row-KeysOver At level low high (key, page_id) (second ∷ children) entries full row over = (
  over,
  Row-KeysOver At level low high second children row.1 full row.6 (
      Over-trans low key second.0 over (
        at_most-lt key second.0
          (Row-key At level full high key page_id (second ∷ children) entries row))),
)

-- Where the children begin with keys at most the searched one: those before, the last of them, and
-- those behind, of which the first is past the key.
abbrev Cut : Bytes → List Child → ℕ → Type 0
Cut key children position =
    (pre : List Child) × (child : Child) × (post : List Child) × (children ≡ pre ++ (child ∷ post))
    × (take position children ≡ pre)
    × (drop (position + 1) children ≡ post)
    × (child_at children position ≡ child)
    × (at_most child.0 key ≡ true)
    × ((high : Option Bytes) → Under high key → Under (next_key high post) key)

Cut-children :
    (key : Bytes) (child : Child) (children : List Child)
    → at_most child.0 key ≡ true
    → Cut key (child ∷ children) (partition_point (λ (c : Child). at_most c.0 key) children)
Cut-children key child [] h = ([], child, [], refl, refl, refl, refl, h, λ high u. u)
Cut-children key child (second ∷ children) h = elim (Bool-cases (at_most second.0 key)) [
  | inr past ↦ rw (past) (
    [],
    child,
    second ∷ children,
    refl,
    refl,
    refl,
    refl,
    h,
    λ high u. ground (arith, past, compare_bytes-gt second.0 key),
  )
  | inl more ↦ rw (more) (deeper_cut _ (Cut-children key second children more))
]
  where
    deeper_cut :
        (position : ℕ)
        → Cut key (second ∷ children) position
        → Cut key (child ∷ second ∷ children) (suc position)
    deeper_cut position (pre, c, post, whole, taken, dropped, found, low, high) = (
      child ∷ pre,
      c,
      post,
      ap (λ t. child ∷ t) whole,
      ap (λ t. child ∷ t) taken,
      ap (λ n. drop n (child ∷ second ∷ children)) one_more ∙ dropped,
      found,
      low,
      high,
    )
      where
        one_more : suc position + 1 ≡ suc (position + 1)
        one_more = omega arith

abbrev pub low_of : Option Bytes → List Child → Child → Option Bytes
low_of low [] child = low
low_of low (x ∷ pre) child = some child.0

-- What the way down has at a child: where it stands among the entries, its frame, and that the key
-- belongs to it.
abbrev pub Chosen :
    (ℕ → Node → Type 0)
    → ℕ
    → Option Bytes
    → Option Bytes
    → Bytes
    → EditFrame
    → Child
    → List Entry
    → Type 0
Chosen At below low high key frame child entries =
    (low' : Option Bytes) × (high' : Option Bytes) × (left : List Entry) × (hole : List Entry)
    × (right : List Entry) × (entries ≡ left ++ (hole ++ right))
    × Frame At below low' high' frame low high left right
    × Below key left
    × Above key right
    × Tree At below child.1 hole
    × AtLeast child.0 hole
    × AllUnder high' hole
    × Over low' child.0
    × Over low' key
    × Under high' key

module _ (At : ℕ → Node → Type 0) (below : ℕ) (full : NoEmptyLeaf At) where
  left-Below :
      (low : Option Bytes) (key : Bytes) (pre : List Child) (child : Child) (left : List Entry)
      → Row At below (some child.0) pre left
      → Over (low_of low pre child) key
      → Below key left
  left-Below low key [] child left row over = subst (Below key) (sym row) tt
  left-Below low key (x ∷ pre) child left row over =
      All-imp (λ (entry : Entry). compare_bytes entry.0 child.0 ≡ lt)
        (λ (entry : Entry). compare_bytes entry.0 key ≡ lt) left
        (λ entry h. lt_at_most entry.0 child.0 key h over)
        (Row-AllUnder At below full (some child.0) (x ∷ pre) left row)
    where
      lt_at_most :
          (a b c : Bytes) → compare_bytes a b ≡ lt → at_most b c ≡ true → compare_bytes a c ≡ lt
      lt_at_most a b c h k = ground (arith, compare_bytes_trans a b c, compare_bytes-eq b c)

  right-Above :
      (high : Option Bytes) (key : Bytes) (post : List Child) (right : List Entry)
      → Row At below high post right
      → Under (next_key high post) key
      → Above key right
  right-Above high key [] right row under = subst (Above key) (sym row) tt
  right-Above high key (x ∷ post) right row under =
      All-imp (λ (entry : Entry). at_most x.0 entry.0 ≡ true)
        (λ (entry : Entry). compare_bytes key entry.0 ≡ lt) right
        (λ entry h. lt_at_most key x.0 entry.0 under h)
        (Row-AtLeast At below full high x post right row)
    where
      lt_at_most :
          (a b c : Bytes) → compare_bytes a b ≡ lt → at_most b c ≡ true → compare_bytes a c ≡ lt
      lt_at_most a b c h k = ground (arith, compare_bytes_trans a b c, compare_bytes-eq b c)

  lower_of :
      (low : Option Bytes) (pre : List Child) (child : Child) (key : Bytes)
      → Over low child.0
      → Over (low_of low pre child) key
      → Over low key
  lower_of low [] child key h over = over
  lower_of low (x ∷ pre) child key h over = Over-trans low child.0 key h over

  meets_of :
      (low : Option Bytes) (pre : List Child) (child : Child) (key : Bytes)
      → Over (low_of low pre child) key
      → (pre ≡ []) ⊎ (at_most child.0 key ≡ true)
  meets_of low [] child key over = inl refl
  meets_of low (x ∷ pre) child key over = inr over

  Over-own :
      (low : Option Bytes) (pre : List Child) (child : Child)
      → Over low child.0
      → Over (low_of low pre child) child.0
  Over-own low [] child h = h
  Over-own low (x ∷ pre) child h = ground (arith, compare_bytes_refl child.0)

  cut-Chosen :
      (low high : Option Bytes) (key : Bytes) (frame : EditFrame) (pre : List Child) (child : Child)
      (post : List Child) (entries : List Entry)
      → frame.level ≡ suc below
      → frame.children ≡ pre ++ (child ∷ post)
      → take frame.position frame.children ≡ pre
      → drop (frame.position + 1) frame.children ≡ post
      → Row At below high frame.children entries
      → KeysOver low frame.children
      → Over (low_of low pre child) key
      → Under (next_key high post) key
      → Chosen At below low high key frame child entries
  cut-Chosen low high key frame pre child post entries up whole taken dropped row keys over under =
      let (left, rest, e, row1, row2) =
        Row-append At below high pre (child ∷ post) entries
          (subst (λ t. Row At below high t entries) whole row) in
      let (hole, right, e', tree, least, most, row3) = row2 in
      let (keys1, keys2) =
        All-append (λ (c : Child). Over low c.0) pre (child ∷ post)
          (subst (KeysOver low) whole keys) in
      (
        low_of low pre child,
        next_key high post,
        left,
        hole,
        right,
        e ∙ ap (λ t. left ++ t) e',
        record {
          pre = pre;
          post = post;
          child = child;
          taken = taken;
          dropped = dropped;
          level_above = up;
          row_before = row1;
          row_after = row3;
          high_next = refl;
          child_under = Row-key At below full high child.0 child.1 post rest row2;
          keys_before = keys1;
          keys_after = keys2.1;
          lower = λ k h. lower_of low pre child k keys2.0 h;
          meets = λ k h. meets_of low pre child k h;
        },
        left-Below low key pre child left row1 over,
        right-Above high key post right row3 under,
        tree,
        least,
        most,
        Over-own low pre child keys2.0,
        over,
        under,
      )

  -- The child that the way down goes to.
  pub children-Chosen :
      (low high : Option Bytes) (key first_key : Bytes) (first_child : ℕ) (separators : List Child)
      (entries : List Entry)
      → Row At below high ((first_key, first_child) ∷ separators) entries
      → Over low first_key
      → Over low key
      → Under high key
      → let children = (first_key, first_child) ∷ separators in
        let position = partition_point (λ (c : Child). at_most c.0 key) children - 1 in
        Chosen At below low high key
          (record { level = suc below; children = children; position = position })
          (child_at children position)
          entries
  children-Chosen low high key first_key first_child separators entries row low_first over under =
      elim (Bool-cases (at_most first_key key)) [
        | inl within ↦
            let (pre, child, post, whole, taken, dropped, found, least, high_next) =
              Cut-children key (first_key, first_child) separators within in
            subst (λ n. Chosen At below low high key (at_position n) (child_at children n) entries)
              (sym (behind within))
              (subst
                (λ c.
                  Chosen At below low high key
                    (at_position (partition_point (λ (c : Child). at_most c.0 key) separators)) c
                    entries)
                (sym found)
                (cut-Chosen low high key
                  (at_position (partition_point (λ (c : Child). at_most c.0 key) separators)) pre
                  child post entries refl whole taken dropped row keys
                  (own low pre child over least) (high_next high under)))
        | inr before ↦
            let less : compare_bytes key first_key ≡ lt =
              ground (arith, before, compare_bytes-gt first_key key) in
            subst (λ n. Chosen At below low high key (at_position n) (child_at children n) entries)
              (sym (at_start before))
              (cut-Chosen low high key (at_position 0) [] (first_key, first_child) separators
                entries refl refl refl refl row keys over
                (Under-trans (next_key high separators) key first_key less
                  (Row-key At below full high first_key first_child separators entries row)))
      ]
    where
      children : List Child
      children = (first_key, first_child) ∷ separators

      at_position : ℕ → EditFrame
      at_position n = record { level = suc below; children = children; position = n }

      keys : KeysOver low children
      keys =
          Row-KeysOver At below low high (first_key, first_child) separators entries full row
            low_first

      behind :
          at_most first_key key ≡ true
          → partition_point (λ (c : Child). at_most c.0 key) children - 1
            ≡ partition_point (λ (c : Child). at_most c.0 key) separators
      behind h = ground (arith, h)

      at_start :
          at_most first_key key ≡ false
          → partition_point (λ (c : Child). at_most c.0 key) children - 1 ≡ 0
      at_start h = ground (arith, h)

      own :
          (low : Option Bytes) (pre : List Child) (child : Child)
          → Over low key
          → at_most child.0 key ≡ true
          → Over (low_of low pre child) key
      own low [] child over least = over
      own low (x ∷ pre) child over least = least
