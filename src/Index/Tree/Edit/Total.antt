-- ===== src/Index/Tree/Edit/Total.antt =====
-- index/src/tree.rs: the way down of an edit ends in a leaf, on fuel for the height of the tree.
use quantadb.Prelude.{
  ℕ, zero, suc, ◌-◌, ◌<◌, ◌≡◌, refl, sym, ap, ◌∙◌, subst, Bool, true, false, Option, none, some,
  List, [], ◌∷◌, arith, ==_refl, if◌then◌else◌,
}
use quantadb.Prelude.Result.{ok}
use quantadb.Prelude.Ord.{nat_ord, bytes_ord, same, eq_of_same}
use quantadb.Prelude.Map.{Map, lookup, insert, lookup-insert, Sorted}
use quantadb.Prelude.Seq.{is_some, partition_point}
use quantadb.Bytes.{Bytes}
use quantadb.Storage.Error.{StorageResult}
use quantadb.Mvcc.State.{IndexRoot}
use quantadb.Index.Node.{Node, Entry, leaf, internal, level}
use quantadb.Index.Tree.{at_most}
use quantadb.Index.Tree.Lookup.{Tree, Children, AtLeast}
use quantadb.Index.Tree.Partition.{Child}
use quantadb.Index.Tree.Edit.{Editor, EditFrame, read, first_key, descend, child_at, append_frame}
use quantadb.Index.Tree.Edit.Row.{AllUnder, Under, Over, Children-Row}
use quantadb.Index.Tree.Edit.Fresh.{Stands, Stands-NoEmptyLeaf}
use quantadb.Index.Tree.Edit.Descent.{Reached, descend-Reached}
use quantadb.Index.Tree.Edit.Chosen.{children-Chosen}
use quantadb.Index.Tree.Edit.Apply.{first_key-Begins, Begins-AtLeast}

module _ (read_page : ℕ → StorageResult (Option Bytes)) (ed : Editor) where
  -- pages visited hold nodes of higher levels
  abbrev Higher : ℕ → Map ℕ (Unit {0}) → Type 0
  Higher height visited =
      (page_id : ℕ)
      → lookup visited page_id ≡ some tt
      → (node : Node) × (read read_page ed page_id ≡ ok node) × (height < level node)

  Higher-nil : (height : ℕ) → Higher height []
  unfolding lookup
  Higher-nil height page_id seen = cc

  unseen :
      (height page_id : ℕ) (node : Node) (visited : Map ℕ (Unit {0}))
      → Higher height visited
      → read read_page ed page_id ≡ ok node
      → level node ≡ height
      → is_some (lookup visited page_id) ≡ false
  unseen height page_id node visited h e l = decided (lookup visited page_id) refl
    where
      decided : (found : Option (Unit {0})) → lookup visited page_id ≡ found → is_some found ≡ false
      decided none f = refl
      decided (some mark) f =
          let (other, e', more) = h page_id f in
          let one : node ≡ other = cc in absurd (omega (arith, more, l, ap level one))

  Higher-insert :
      (below page_id : ℕ) (node : Node) (visited : Map ℕ (Unit {0}))
      → Higher (suc below) visited
      → read read_page ed page_id ≡ ok node
      → level node ≡ suc below
      → Higher below (insert visited page_id tt)
  Higher-insert below page_id node visited h e l p seen =
      decided (same page_id p) refl (sym (lookup-insert visited page_id p tt) ∙ seen)
    where
      decided :
          (equal : Bool)
          → same page_id p ≡ equal
          → (if equal then some tt else lookup visited p) ≡ some tt
          → (other : Node) × (read read_page ed p ≡ ok other) × (below < level other)
      decided true q f =
          let one = eq_of_same page_id p q in
          (node, subst (λ r. read read_page ed r ≡ ok node) one e, omega (arith, l))
      decided false q f = let (other, e', more) = h p f in (other, e', omega (arith, more))

  -- The loop of `first_key` ends: the levels of the pages that it visits go down.
  first_key_total :
      (fuel height page_id : ℕ) (entries : List Entry) (visited : Map ℕ (Unit {0}))
      → height < fuel
      → Tree (Stands read_page ed) height page_id entries
      → Higher height visited
      → (key : Bytes) × (first_key read_page fuel ed visited page_id ≡ ok key)
  unfolding first_key level
  first_key_total zero height page_id entries visited f tree h = absurd (omega arith)
  first_key_total (suc fuel) zero page_id [] visited f (next, stands) h = elim stands.2 [ ]
  first_key_total (suc fuel) zero page_id (entry ∷ entries) visited f (next, stands) h = (
    entry.0,
    rw (unseen 0 page_id (leaf (entry ∷ entries) next) visited h stands.0 refl, stands.0) refl,
  )
  first_key_total (suc fuel) (suc below) page_id entries visited f
        (first, separators, stands, children) h =
      let node = internal (suc below) first separators in
      let (held, tree) = leftmost separators first entries children in
      let (key, e) =
        first_key_total fuel below first held (insert visited page_id tt) (omega arith) tree
          (Higher-insert below page_id node visited h stands.0 refl) in
      (key, rw (unseen (suc below) page_id node visited h stands.0 refl, stands.0) e)
    where
      leftmost :
          (separators : List Entry) (first : ℕ) (entries : List Entry)
          → Children (Tree (Stands read_page ed) below) first separators entries
          → (held : List Entry) × Tree (Stands read_page ed) below first held
      leftmost [] first entries h = (entries, h)
      leftmost (separator ∷ separators) first entries (left, right, e, low, high, here, rest) =
          (left, here)

  descend_total :
      (key : Bytes) (expected : ℕ) (first : Bytes) (page_id : ℕ) (entries : List Entry)
      (low high : Option Bytes)
      → Tree (Stands read_page ed) expected page_id entries
      → AtLeast first entries
      → AllUnder high entries
      → Over low first
      → Over low key
      → Under high key
      → (held : List Entry) × (frames : List EditFrame) × (descend read_page expected ed key
            (first, page_id)
          ≡ ok (held, frames))
  unfolding descend level
  descend_total key zero first page_id entries low high (next, stands) least most o1 o2 o3 =
      (entries, [], rw (stands.0) refl)
  descend_total key (suc below) first page_id entries low high
        (first_child, separators, stands, children) least most o1 o2 o3 =
      let row =
        Children-Row (Stands read_page ed) below high first first_child separators entries children
          least most in
      let (low', high', left, hole, right, whole, f, less, more, tree, least', most', p1, p2, p3) =
        children-Chosen (Stands read_page ed) below (Stands-NoEmptyLeaf read_page ed) low high key
          first first_child separators entries row o1 o2 o3 in
      let position =
        partition_point (λ (c : Child). at_most c.0 key) ((first, first_child) ∷ separators) - 1 in
      let child = child_at ((first, first_child) ∷ separators) position in
      let frame : EditFrame = record {
        level = suc below;
        children = (first, first_child) ∷ separators;
        position = position;
      } in
      let (held, frames, e) =
        descend_total key below child.0 child.1 hole low' high' tree least' most' p1 p2 p3 in
      (held, append_frame frames frame, rw (stands.0, ==_refl (suc below)) (rw (e) refl))

  -- Under a root of a tree on pages in use, on fuel for its height, `first_key` and the way down of an edit succeed, whatever the
  -- key. They end in a leaf of the tree where the key belongs: what is before the leaf is less
  -- than the key, and what is behind it is greater.
  pub locate-Reached :
      (fuel : ℕ) (root : IndexRoot) (height : ℕ) (entries : List Entry) (key : Bytes)
      → root.height ≡ suc height
      → height < fuel
      → Sorted entries
      → Tree (Stands read_page ed) height root.page_id entries
      → (first : Bytes) × (held : List Entry) × (frames : List EditFrame) × (first_key read_page
            fuel ed [] root.page_id
          ≡ ok first)
        × (descend read_page height ed key (first, root.page_id) ≡ ok (held, frames))
        × Reached (Stands read_page ed) height none none key held frames entries
  locate-Reached fuel root height entries key high enough s tree =
      let (first, e) =
        first_key_total fuel height root.page_id entries [] enough tree (Higher-nil height) in
      let least =
        Begins-AtLeast first entries s
          (first_key-Begins read_page fuel ed [] height root.page_id first entries tree e) in
      let (held, frames, e') =
        descend_total key height first root.page_id entries none none tree least (all_under entries)
          tt tt tt in
      (
        first,
        held,
        frames,
        e,
        e',
        descend-Reached read_page ed key height first root.page_id entries held frames none none
            tree least (all_under entries) tt tt tt e',
      )
    where
      all_under : (entries : List Entry) → AllUnder none entries
      all_under [] = tt
      all_under (x ∷ entries) = (tt, all_under entries)
