-- ===== src/Index/Tree/Edit/Row.antt =====
-- Children of a level in key order, below a bound, as edits cut and join them.
use Prim.Native.Nat.Ordering.{lt}
use quantadb.Prelude.{
  ℕ, zero, suc, ◌≡◌, refl, sym, ap, ◌∙◌, subst, true, Option, none, some, List, [], ◌∷◌, ◌++◌,
  append-nil, append_assoc, arith,
}
use quantadb.Prelude.Ord.{compare_bytes, bytes_ord, compare_bytes_trans, compare_bytes-eq}
use quantadb.Prelude.Seq.{All}
use quantadb.Bytes.{Bytes}
use quantadb.Index.Node.{Node, Entry, leaf, internal}
use quantadb.Index.Tree.{at_most}
use quantadb.Index.Tree.Lookup.{Tree, Children, AtLeast}
use quantadb.Index.Tree.Partition.{Child}
use quantadb.Index.Tree.Order.{All-append, All-join}

-- below a bound, and at or past one, where there is one
abbrev pub Under : Option Bytes → Bytes → Type 0
Under none key = Unit
Under (some high) key = compare_bytes key high ≡ lt

abbrev pub Over : Option Bytes → Bytes → Type 0
Over none key = Unit
Over (some low) key = at_most low key ≡ true

abbrev pub AllUnder : Option Bytes → List Entry → Type 0
AllUnder high = All (λ entry. Under high entry.0)

abbrev pub AllOver : Option Bytes → List Entry → Type 0
AllOver low = All (λ entry. Over low entry.0)

abbrev pub next_key : Option Bytes → List Child → Option Bytes
next_key high [] = high
next_key high (child ∷ children) = some child.0

-- Trees side by side: each holds keys from its own on, and below that of the next.
abbrev pub Row : (ℕ → Node → Type 0) → ℕ → Option Bytes → List Child → List Entry → Type 0
Row At level high [] entries = entries ≡ []
Row At level high ((key, page_id) ∷ children) entries =
    (left : List Entry) × (right : List Entry) × (entries ≡ left ++ right)
    × Tree At level page_id left
    × AtLeast key left
    × AllUnder (next_key high children) left
    × Row At level high children right

-- Pages hold no empty leaves.
abbrev pub NoEmptyLeaf : (ℕ → Node → Type 0) → Type 0
NoEmptyLeaf At = (page_id : ℕ) (next : Option ℕ) → At page_id (leaf [] next) → ⊥

pub at_most_trans : (a b c : Bytes) → at_most a b ≡ true → at_most b c ≡ true → at_most a c ≡ true
at_most_trans a b c h k =
    ground (arith, compare_bytes_trans a b c, compare_bytes-eq a b, compare_bytes-eq b c)

pub at_most_below :
    (a b c : Bytes) → at_most a b ≡ true → compare_bytes b c ≡ lt → compare_bytes a c ≡ lt
at_most_below a b c h k = ground (arith, compare_bytes_trans a b c, compare_bytes-eq a b)

pub at_most-lt : (a b : Bytes) → compare_bytes a b ≡ lt → at_most a b ≡ true
at_most-lt a b h = ground arith

pub Under-trans :
    (high : Option Bytes) (a b : Bytes) → compare_bytes a b ≡ lt → Under high b → Under high a
Under-trans none a b h u = tt
Under-trans (some high) a b h u = compare_bytes_trans a b high h u

Under-at_most :
    (high : Option Bytes) (a b : Bytes) → at_most a b ≡ true → Under high b → Under high a
Under-at_most none a b h u = tt
Under-at_most (some high) a b h u = at_most_below a b high h u

pub All-imp {ℓ κ μ} :
    {A : Type ℓ} (P : A → Type κ) (Q : A → Type μ) (xs : List A)
    → ((x : A) → P x → Q x)
    → All P xs
    → All Q xs
All-imp P Q [] f h = tt
All-imp P Q (x ∷ xs) f h = (f x h.0, All-imp P Q xs f h.1)

-- Trees hold entries.
Children-inhabited :
    (Holds : ℕ → List Entry → Type 0) (page_id : ℕ) (separators : List Entry)
    → ((page_id : ℕ) → Holds page_id [] → ⊥)
    → Children Holds page_id separators []
    → ⊥
Children-inhabited Holds page_id [] f h = f page_id h
Children-inhabited Holds page_id (separator ∷ separators) f ([], right, e, low, high, here, rest) =
    f page_id here
Children-inhabited Holds page_id (separator ∷ separators) f
      (x ∷ left, right, e, low, high, here, rest) =
    cc

pub Tree-inhabited :
    (At : ℕ → Node → Type 0) (level page_id : ℕ) → NoEmptyLeaf At → Tree At level page_id [] → ⊥
Tree-inhabited At zero page_id full (next, h) = full page_id next h
Tree-inhabited At (suc below) page_id full (first, separators, h, children) =
    Children-inhabited (Tree At below) first separators
      (λ page_id t. Tree-inhabited At below page_id full t) children

-- a key with entries between it and a bound is below the bound
bound_between :
    (high : Option Bytes) (key : Bytes) (left : List Entry)
    → (left ≡ [] → ⊥)
    → AtLeast key left
    → AllUnder high left
    → Under high key
bound_between high key [] f low under = absurd (f refl)
bound_between high key (entry ∷ left) f low under = Under-at_most high key entry.0 low.0 under.0

module _ (At : ℕ → Node → Type 0) (level : ℕ) (full : NoEmptyLeaf At) where
  pub Row-key :
      (high : Option Bytes) (key : Bytes) (page_id : ℕ) (children : List Child)
      (entries : List Entry)
      → Row At level high ((key, page_id) ∷ children) entries
      → Under (next_key high children) key
  Row-key high key page_id children entries (left, right, e, tree, low, under, rest) =
      bound_between (next_key high children) key left
        (λ c. Tree-inhabited At level page_id full (subst (Tree At level page_id) c tree)) low under

  pub Row-high :
      (high : Option Bytes) (child : Child) (children : List Child) (entries : List Entry)
      → Row At level high (child ∷ children) entries
      → Under high child.0
  Row-high high (key, page_id) [] entries row = Row-key high key page_id [] entries row
  Row-high high (key, page_id) (child ∷ children) entries row =
      Under-trans high key child.0 (Row-key high key page_id (child ∷ children) entries row)
        (Row-high high child children row.1 row.6)

  pub Row-AllUnder :
      (high : Option Bytes) (children : List Child) (entries : List Entry)
      → Row At level high children entries
      → AllUnder high entries
  Row-AllUnder high [] entries e = subst (AllUnder high) (sym e) tt
  Row-AllUnder high (child ∷ []) entries (left, right, e, tree, low, under, rest) =
      subst (AllUnder high) (sym (e ∙ ap (λ t. left ++ t) rest ∙ append-nil left)) under
  Row-AllUnder high (child ∷ second ∷ children) entries (left, right, e, tree, low, under, rest) =
      subst (AllUnder high) (sym e) (
        All-join (λ (entry : Entry). Under high entry.0) left right
          (All-imp (λ (entry : Entry). compare_bytes entry.0 second.0 ≡ lt)
            (λ (entry : Entry). Under high entry.0) left
            (λ entry h.
              Under-trans high entry.0 second.0 h (Row-high high second children right rest))
            under)
          (Row-AllUnder high (second ∷ children) right rest))

  pub Row-AtLeast :
      (high : Option Bytes) (child : Child) (children : List Child) (entries : List Entry)
      → Row At level high (child ∷ children) entries
      → AtLeast child.0 entries
  Row-AtLeast high (key, page_id) [] entries (left, right, e, tree, low, under, rest) =
      subst (AtLeast key) (sym (e ∙ ap (λ t. left ++ t) rest ∙ append-nil left)) low
  Row-AtLeast high (key, page_id) (second ∷ children) entries row =
      let less = Row-key high key page_id (second ∷ children) entries row in
      subst (AtLeast key) (sym row.2) (
        All-join (λ (entry : Entry). at_most key entry.0 ≡ true) row.0 row.1 row.4
          (All-imp (λ (entry : Entry). at_most second.0 entry.0 ≡ true)
            (λ (entry : Entry). at_most key entry.0 ≡ true) row.1
            (λ entry h. at_most_trans key second.0 entry.0 (at_most-lt key second.0 less) h)
            (Row-AtLeast high second children row.1 row.6)))

  -- The children of a node over a row.
  pub Row-Children :
      (high : Option Bytes) (child : Child) (children : List Child) (entries : List Entry)
      → Row At level high (child ∷ children) entries
      → Children (Tree At level) child.1 children entries
  Row-Children high (key, page_id) [] entries (left, right, e, tree, low, under, rest) =
      subst (Tree At level page_id) (sym (e ∙ ap (λ t. left ++ t) rest ∙ append-nil left)) tree
  Row-Children high (key, page_id) (second ∷ children) entries
        (left, right, e, tree, low, under, rest) =
      (
        left,
        right,
        e,
        under,
        Row-AtLeast high second children right rest,
        tree,
        Row-Children high second children right rest,
      )

module _ (At : ℕ → Node → Type 0) (level : ℕ) where
  pub Children-Row :
      (high : Option Bytes) (key : Bytes) (page_id : ℕ) (children : List Child)
      (entries : List Entry)
      → Children (Tree At level) page_id children entries
      → AtLeast key entries
      → AllUnder high entries
      → Row At level high ((key, page_id) ∷ children) entries
  Children-Row high key page_id [] entries tree low under =
      (entries, [], sym (append-nil entries), tree, low, under, refl)
  Children-Row high key page_id ((k, p) ∷ children) entries
        (left, right, e, below, least, tree, rest) low under =
      let low' =
        All-append (λ (entry : Entry). at_most key entry.0 ≡ true) left right
          (subst (AtLeast key) e low) in
      let under' =
        All-append (λ (entry : Entry). Under high entry.0) left right
          (subst (AllUnder high) e under) in
      (
        left,
        right,
        e,
        tree,
        low'.0,
        below,
        Children-Row high k p children right rest least under'.1,
      )

  -- a row cut in two, and two rows joined
  pub Row-append :
      (high : Option Bytes) (xs ys : List Child) (entries : List Entry)
      → Row At level high (xs ++ ys) entries
      → (left : List Entry) × (right : List Entry) × (entries ≡ left ++ right)
        × Row At level (next_key high ys) xs left
        × Row At level high ys right
  Row-append high [] ys entries row = ([], entries, refl, refl, row)
  Row-append high (x ∷ []) ys entries (left, right, e, tree, low, under, rest) =
      (left, right, e, (left, [], sym (append-nil left), tree, low, under, refl), rest)
  Row-append high (x ∷ x' ∷ xs) ys entries (left, right, e, tree, low, under, rest) =
      let (left', right', e', row, row') = Row-append high (x' ∷ xs) ys right rest in
      (
        left ++ left',
        right',
        e ∙ ap (λ t. left ++ t) e' ∙ sym (append_assoc left left' right'),
        (left, left', refl, tree, low, under, row),
        row',
      )

  pub Row-join :
      (high : Option Bytes) (xs ys : List Child) (left right : List Entry)
      → Row At level (next_key high ys) xs left
      → Row At level high ys right
      → Row At level high (xs ++ ys) (left ++ right)
  Row-join high [] ys left right e row = subst (λ t. Row At level high ys (t ++ right)) (sym e) row
  Row-join high (x ∷ []) ys left right (l, r, e, tree, low, under, rest) row = (
    l,
    right,
    ap (λ t. t ++ right) (e ∙ ap (λ t. l ++ t) rest ∙ append-nil l),
    tree,
    low,
    under,
    row,
  )
  Row-join high (x ∷ x' ∷ xs) ys left right (l, r, e, tree, low, under, rest) row = (
    l,
    r ++ right,
    ap (λ t. t ++ right) e ∙ append_assoc l r right,
    tree,
    low,
    under,
    Row-join high (x' ∷ xs) ys r right rest row,
  )

  -- a higher bound
  pub Row-wider :
      (low high : Option Bytes) (children : List Child) (entries : List Entry)
      → ((key : Bytes) → Under low key → Under high key)
      → Row At level low children entries
      → Row At level high children entries
  Row-wider low high [] entries f e = e
  Row-wider low high (x ∷ []) entries f (l, r, e, tree, least, under, rest) = (
    l,
    r,
    e,
    tree,
    least,
    All-imp (λ (entry : Entry). Under low entry.0) (λ (entry : Entry). Under high entry.0) l
        (λ entry h. f entry.0 h) under,
    rest,
  )
  Row-wider low high (x ∷ x' ∷ xs) entries f (l, r, e, tree, least, under, rest) =
      (l, r, e, tree, least, under, Row-wider low high (x' ∷ xs) r f rest)

-- Pages that keep their nodes keep their trees.
module _ (At Now : ℕ → Node → Type 0)
    (keep : (page_id : ℕ) (node : Node) → At page_id node → Now page_id node) where
  Children-keep :
      (Holds Held : ℕ → List Entry → Type 0) (page_id : ℕ) (separators entries : List Entry)
      → ((page_id : ℕ) (entries : List Entry) → Holds page_id entries → Held page_id entries)
      → Children Holds page_id separators entries
      → Children Held page_id separators entries
  Children-keep Holds Held page_id [] entries f h = f page_id entries h
  Children-keep Holds Held page_id ((k, p) ∷ separators) entries f
        (l, r, e, low, high, here, rest) =
      (l, r, e, low, high, f page_id l here, Children-keep Holds Held p separators r f rest)

  pub Tree-keep :
      (level page_id : ℕ) (entries : List Entry)
      → Tree At level page_id entries
      → Tree Now level page_id entries
  Tree-keep zero page_id entries (next, h) = (next, keep page_id (leaf entries next) h)
  Tree-keep (suc below) page_id entries (first, separators, h, children) = (
    first,
    separators,
    keep page_id (internal (suc below) first separators) h,
    Children-keep (Tree At below) (Tree Now below) first separators entries
        (λ page_id entries t. Tree-keep below page_id entries t) children,
  )

  pub Row-keep :
      (level : ℕ) (high : Option Bytes) (children : List Child) (entries : List Entry)
      → Row At level high children entries
      → Row Now level high children entries
  Row-keep level high [] entries e = e
  Row-keep level high (x ∷ xs) entries (l, r, e, tree, low, under, rest) =
      (l, r, e, Tree-keep level x.1 l tree, low, under, Row-keep level high xs r rest)
