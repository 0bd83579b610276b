-- ===== src/Index/Tree/Edit/Level.antt =====
-- index/src/tree.rs: the nodes that `make_leaves` and `make_internal_level` allocate.
use quantadb.Prelude.{ℕ, suc, ◌≡◌, refl, sym, ◌∙◌, subst, Option, none, some, List, [], ◌∷◌, ◌++◌}
use quantadb.Prelude.Result.{ok, and_then, and_then-ok}
use quantadb.Prelude.Ord.{bytes_ord}
use quantadb.Prelude.Map.{Sorted}
use quantadb.Prelude.Seq.{All}
use quantadb.Bytes.{Bytes}
use quantadb.Storage.Error.{StorageResult}
use quantadb.Storage.Store.Allocator.Pool.{IsAllocator}
use quantadb.Index.Error.{IndexResult}
use quantadb.Index.Node.{Node, Entry, leaf, internal}
use quantadb.Index.Tree.Lookup.{Tree, AtLeast}
use quantadb.Index.Tree.Partition.{Child, Group, partition_leaves, partition_internal}
use quantadb.Index.Tree.Partition.Bounds.{concat}
use quantadb.Index.Tree.Build.Levels.{ungroup}
use quantadb.Index.Tree.Order.{All-append, Sorted-append, Sorted-Below, Sorted-AtLeast}
use quantadb.Index.Tree.Edit.{
  Editor, allocate, allocate_leaves, allocate_level, make_leaves, make_internal_level, add_child,
}
use quantadb.Index.Tree.Edit.Row.{
  Under, Over, AllUnder, AllOver, next_key, Row, Row-append, Row-keep, Row-AllUnder, Row-AtLeast,
  Row-Children, Tree-keep,
}
use quantadb.Index.Tree.Edit.Pieces.{NoneEmpty, partition_leaves-concat, partition_internal-ungroup}
use quantadb.Index.Tree.Edit.Fresh.{
  Stands, IsFilled, Keeps, Keeps-trans, allocate-Keeps, Stands-NoEmptyLeaf,
}

-- where the first entry stands, or else the bound
abbrev first_of : Option Bytes → List Entry → Option Bytes
first_of high [] = high
first_of high (entry ∷ entries) = some entry.0

abbrev pub KeysOver : Option Bytes → List Child → Type 0
KeysOver low = All (λ child. Over low child.0)

module _ (read_page : ℕ → StorageResult (Option Bytes)) where
  -- What allocating nodes for entries gives: a row that holds them, whose keys are over what all
  -- keys in hand were, and an editor that keeps the rest.
  abbrev pub Allocated :
      Editor
      → Editor
      → ℕ
      → Option Bytes
      → Option Bytes
      → Option Bytes
      → List Child
      → List Entry
      → Type 0
  Allocated ed now level low high first children entries =
      Row (Stands read_page now) level high children entries
      × Keeps read_page ed now
      × KeysOver low children
      × (next_key high children ≡ first)

  -- one node, and then those behind it
  allocate-Allocated :
      (ed : Editor) (node : Node) (rest : Editor → Editor × IndexResult (List Child)) (key : Bytes)
      (children : List Child) (level : ℕ) (low high first : Option Bytes) (left right : List Entry)
      → IsAllocator ed.allocator
      → IsFilled node
      → ((page_id : ℕ) (now : Editor)
          → Stands read_page now page_id node
          → Keeps read_page ed now
          → Tree (Stands read_page now) level page_id left)
      → AtLeast key left
      → AllUnder first left
      → Over low key
      → ((now : Editor) (others : List Child)
          → Keeps read_page ed now
          → (rest now).1 ≡ ok others
          → Allocated now (rest now).0 level low high first others right)
      → (and_then (allocate ed node) (λ ed page_id. and_then (rest ed) (add_child key page_id))).1
        ≡ ok children
      → Allocated ed
          (and_then (allocate ed node) (λ ed page_id. and_then (rest ed) (add_child key page_id))).0
          level
          low
          high
          (some key)
          children
          (left ++ right)
  allocate-Allocated ed node rest key children level low high first left right v f tree least under
        over more e =
      let (page_id, e1, s1, e2) =
        and_then-ok (allocate ed node) (λ ed page_id. and_then (rest ed) (add_child key page_id))
          e in
      let now = (allocate ed node).0 in
      let (others, e3, s2, e4) = and_then-ok (rest now) (add_child key page_id) e2 in
      let (stands, keeps) = allocate-Keeps read_page ed node page_id v f e1 in
      let (row, keeps', over', first') = more now others keeps e3 in
      let made : (key, page_id) ∷ others ≡ children = cc in
      subst
        (λ (t : Editor × IndexResult (List Child)).
          Allocated ed t.0 level low high (some key) children (left ++ right))
        (sym (s1 ∙ s2))
        (subst (λ t. Allocated ed (rest now).0 level low high (some key) t (left ++ right)) made
          (
            (
              left,
              right,
              refl,
              Tree-keep (Stands read_page now) (Stands read_page (rest now).0) keeps'.2 level
                  page_id left (tree page_id now stands keeps),
              least,
              subst (λ t. AllUnder t left) (sym first') under,
              row,
            ),
            Keeps-trans read_page ed now (rest now).0 keeps keeps',
            (over, over'),
            refl,
          ))

  none-Allocated :
      (ed : Editor) (level : ℕ) (low high : Option Bytes) (children : List Child)
      → IsAllocator ed.allocator
      → ◌≡◌ {A = IndexResult (List Child)} (ok []) (ok children)
      → Allocated ed ed level low high high children []
  none-Allocated ed level low high children v e =
      let made : [] ≡ children = cc in
      subst (λ t. Allocated ed ed level low high high t []) made
        (refl, (v, refl, λ p n s. s), tt, refl)

  allocate_leaves-Allocated :
      (ed : Editor) (groups : List (List Entry)) (children : List Child) (low high : Option Bytes)
      → IsAllocator ed.allocator
      → NoneEmpty groups
      → Sorted (concat groups)
      → AllUnder high (concat groups)
      → AllOver low (concat groups)
      → (allocate_leaves ed groups).1 ≡ ok children
      → Allocated ed
          (allocate_leaves ed groups).0
          0
          low
          high
          (first_of high (concat groups))
          children
          (concat groups)
  unfolding allocate_leaves
  allocate_leaves-Allocated ed [] children low high v full s under over e =
      none-Allocated ed 0 low high children v e
  allocate_leaves-Allocated ed ([] ∷ groups) children low high v full s under over e =
      absurd (full.0 refl)
  allocate_leaves-Allocated ed ((x ∷ group) ∷ groups) children low high v full s under over e =
      let s' = Sorted-append (x ∷ group) (concat groups) s in
      let under' =
        All-append (λ (entry : Entry). Under high entry.0) (x ∷ group) (concat groups) under in
      let over' =
        All-append (λ (entry : Entry). Over low entry.0) (x ∷ group) (concat groups) over in
      allocate-Allocated ed (leaf (x ∷ group) none) (λ ed. allocate_leaves ed groups) x.0 children 0
        low high (first_of high (concat groups)) (x ∷ group) (concat groups) v tt
        (λ page_id now stands keeps. (none, stands)) (Sorted-AtLeast x group s'.0)
        (below (concat groups) s under'.0) over.0
        (λ now others keeps e'.
          allocate_leaves-Allocated now groups others low high keeps.0 full.1 s'.1 under'.1 over'.1
            e')
        e
    where
      below :
          (rest : List Entry)
          → Sorted ((x ∷ group) ++ rest)
          → AllUnder high (x ∷ group)
          → AllUnder (first_of high rest) (x ∷ group)
      below [] s u = u
      below (y ∷ rest) s u = Sorted-Below (x ∷ group) y rest s

  allocate_level-Allocated :
      (ed : Editor) (below : ℕ) (groups : List Group) (children : List Child)
      (low high : Option Bytes) (entries : List Entry)
      → IsAllocator ed.allocator
      → Row (Stands read_page ed) below high (ungroup groups) entries
      → KeysOver low (ungroup groups)
      → (allocate_level (suc below) ed groups).1 ≡ ok children
      → Allocated ed
          (allocate_level (suc below) ed groups).0
          (suc below)
          low
          high
          (next_key high (ungroup groups))
          children
          entries
  unfolding allocate_level
  allocate_level-Allocated ed below [] children low high entries v row over e =
      subst (Allocated ed ed (suc below) low high high children) (sym row)
        (none-Allocated ed (suc below) low high children v e)
  allocate_level-Allocated ed below ((first, others) ∷ groups) children low high entries v row over
        e =
      let (left, right, whole, row1, row2) =
        Row-append (Stands read_page ed) below high (first ∷ others) (ungroup groups) entries row in
      let full = Stands-NoEmptyLeaf read_page ed in
      let next = next_key high (ungroup groups) in
      subst
        (Allocated ed (allocate_level (suc below) ed ((first, others) ∷ groups)).0 (suc below) low
          high (some first.0) children)
        (sym whole)
        (allocate-Allocated ed (internal (suc below) first.1 others)
          (λ ed. allocate_level (suc below) ed groups) first.0 children (suc below) low high next
          left right v tt
          (λ page_id now stands keeps. (
            first.1,
            others,
            stands,
            Row-Children (Stands read_page now) below (Stands-NoEmptyLeaf read_page now) next first
                others left
                (Row-keep (Stands read_page ed) (Stands read_page now) keeps.2 below next
                  (first ∷ others) left row1),
          ))
          (Row-AtLeast (Stands read_page ed) below full next first others left row1)
          (Row-AllUnder (Stands read_page ed) below full next (first ∷ others) left row1) over.0
          (λ now others' keeps e'.
            allocate_level-Allocated now below groups others' low high right keeps.0
              (Row-keep (Stands read_page ed) (Stands read_page now) keeps.2 below high
                (ungroup groups) right row2)
              (All-append (λ (child : Child). Over low child.0) others (ungroup groups) over.1).1
              e')
          e)

  pub make_leaves-Allocated :
      (ed : Editor) (entries : List Entry) (children : List Child) (low high : Option Bytes)
      → IsAllocator ed.allocator
      → Sorted entries
      → AllUnder high entries
      → AllOver low entries
      → (make_leaves ed entries).1 ≡ ok children
      → Allocated ed (make_leaves ed entries).0 0 low high (first_of high entries) children entries
  unfolding make_leaves
  make_leaves-Allocated ed [] children low high v s under over e =
      none-Allocated ed 0 low high children v e
  make_leaves-Allocated ed (x ∷ entries) children low high v s under over e =
      let all = x ∷ entries in
      let (groups, e1, state, e2) = and_then-ok (ed, partition_leaves all) allocate_leaves e in
      let (whole, full) = partition_leaves-concat all groups e1 in
      subst
        (λ (t : Editor × IndexResult (List Child)).
          Allocated ed t.0 0 low high (first_of high all) children all)
        (sym state)
        (subst
          (λ t. Allocated ed (allocate_leaves ed groups).0 0 low high (first_of high t) children t)
          (sym whole)
          (allocate_leaves-Allocated ed groups children low high v full (subst Sorted whole s)
            (subst (AllUnder high) whole under) (subst (AllOver low) whole over) e2))

  pub make_internal_level-Allocated :
      (ed : Editor) (below : ℕ) (children parents : List Child) (low high : Option Bytes)
      (entries : List Entry)
      → IsAllocator ed.allocator
      → Row (Stands read_page ed) below high children entries
      → KeysOver low children
      → (make_internal_level ed (suc below) children).1 ≡ ok parents
      → Allocated ed
          (make_internal_level ed (suc below) children).0
          (suc below)
          low
          high
          (next_key high children)
          parents
          entries
  unfolding make_internal_level
  make_internal_level-Allocated ed below children parents low high entries v row over e =
      let (groups, e1, state, e2) =
        and_then-ok (ed, partition_internal children) (allocate_level (suc below)) e in
      let whole = partition_internal-ungroup children groups e1 in
      subst
        (λ (t : Editor × IndexResult (List Child)).
          Allocated ed t.0 (suc below) low high (next_key high children) parents entries)
        (sym state)
        (subst
          (λ t.
            Allocated ed (allocate_level (suc below) ed groups).0 (suc below) low high
              (next_key high t) parents entries)
          (sym whole)
          (allocate_level-Allocated ed below groups parents low high entries v
            (subst (λ t. Row (Stands read_page ed) below high t entries) whole row)
            (subst (KeysOver low) whole over) e2))
