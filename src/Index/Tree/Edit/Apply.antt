-- ===== src/Index/Tree/Edit/Apply.antt =====
-- index/src/tree.rs: `apply` edits the map that a tree holds.
use quantadb.Prelude.{
  ℕ, zero, suc, ◌+◌, ◌^◌, ◌≡◌, refl, sym, ap, ◌∙◌, subst, Bool, true, false, Option, none, some,
  List, [], ◌∷◌, ◌++◌, length, length-append, arith, not, ltb,
}
use quantadb.Prelude.Result.{ok, err, ◌>>=◌, ensure->>-ok, and_then, and_then-ok}
use quantadb.Prelude.Ord.{bytes_ord, nat_ord}
use quantadb.Prelude.Map.{Map, lookup, insert, remove, Sorted, insert-Sorted, remove-Sorted}
use quantadb.Prelude.Seq.{All, is_some}
use quantadb.Bytes.{Bytes}
use quantadb.Storage.Error.{StorageResult}
use quantadb.Storage.Store.Allocator.Pool.{IsAllocator}
use quantadb.Mvcc.State.{IndexRoot}
use quantadb.Mvcc.Rebuild.{IndexMutation, upsert, delete}
use quantadb.Index.Error.{IndexResult, corrupt_node, entry_count_underflow}
use quantadb.Index.Node.{Entry, leaf, internal}
use quantadb.Index.Tree.{root_level}
use quantadb.Index.Tree.Lookup.{Tree, Children, AtLeast, IsIndexOf}
use quantadb.Index.Tree.Partition.{Child, validate_entries}
use quantadb.Index.Tree.Order.{Sorted-append, Sorted-AtLeast}
use quantadb.Index.Tree.Edit.{
  Editor, EditFrame, EntryDelta, removed, kept, added, read, first_key, first_key_in, descend,
  edit_entries, replace_leaf, new_root, with_root, root_over, entries_after, start_tree,
  make_leaves, climb, edit_key, edit_under, allocate, apply, apply_all,
}
use quantadb.Index.Tree.Edit.Row.{AllUnder, AllOver, Under, Over, Row, Row-keep, Row-Children}
use quantadb.Index.Tree.Edit.Fresh.{Stands, allocate-Keeps, Stands-NoEmptyLeaf}
use quantadb.Index.Tree.Edit.Level.{make_leaves-Allocated}
use quantadb.Index.Tree.Edit.Climb.{climb-Replaced}
use quantadb.Index.Tree.Edit.Descent.{Reached, descend-Reached}
use quantadb.Index.Tree.Edit.Leaf.{update, update-around, Edited, edit_entries-Edited, Counted}

All-update :
    (P : Bytes → Type 0) (entries : List Entry) (key : Bytes) (value : Option ℕ)
    → P key
    → All (λ entry. P entry.0) entries
    → All (λ entry. P entry.0) (update entries key value)
unfolding insert remove
All-update P [] key none p h = tt
All-update P [] key (some value) p h = (p, tt)
All-update P (x ∷ entries) key none p h = ground (arith, All-update P entries key none p h.1)
All-update P (x ∷ entries) key (some value) p h =
    ground (arith, All-update P entries key (some value) p h.1)

update-Sorted :
    (entries : List Entry) (key : Bytes) (value : Option ℕ)
    → Sorted entries
    → Sorted (update entries key value)
update-Sorted entries key none s = remove-Sorted entries key s
update-Sorted entries key (some value) s = insert-Sorted entries key value s

-- The key that begins a tree begins its entries.
abbrev pub Begins : Bytes → List Entry → Type 0
Begins key entries =
    (entry : Entry) × (rest : List Entry) × (entries ≡ entry ∷ rest) × (entry.0 ≡ key)

pub Begins-AtLeast :
    (key : Bytes) (entries : List Entry) → Sorted entries → Begins key entries → AtLeast key entries
Begins-AtLeast key entries s (entry, rest, e, k) =
    subst (λ t. AtLeast t entries) k
      (subst (AtLeast entry.0) (sym e) (Sorted-AtLeast entry rest (subst Sorted e s)))

Children-Begins :
    (Holds : ℕ → List Entry → Type 0) (key : Bytes) (page_id : ℕ) (separators entries : List Entry)
    → ((entries : List Entry) → Holds page_id entries → Begins key entries)
    → Children Holds page_id separators entries
    → Begins key entries
Children-Begins Holds key page_id [] entries f h = f entries h
Children-Begins Holds key page_id (separator ∷ separators) entries f
      (left, right, e, low, high, here, more) =
    let (entry, rest, e', k) = f left here in (entry, rest ++ right, e ∙ ap (λ t. t ++ right) e', k)

module _ (read_page : ℕ → StorageResult (Option Bytes)) where
  pub first_key-Begins :
      (fuel : ℕ) (ed : Editor) (visited : Map ℕ (Unit {0})) (level page_id : ℕ) (key : Bytes)
      (entries : List Entry)
      → Tree (Stands read_page ed) level page_id entries
      → first_key read_page fuel ed visited page_id ≡ ok key
      → Begins key entries
  unfolding first_key
  first_key-Begins zero ed visited level page_id key entries tree e = cc
  first_key-Begins (suc fuel) ed visited zero page_id key [] (next, stands) e = elim stands.2 [ ]
  first_key-Begins (suc fuel) ed visited zero page_id key (entry ∷ entries) (next, stands) e =
      let (unseen, e1) = ensure->>-ok (not (is_some (lookup visited page_id))) _ _ e in
      let reduced =
        ap
          (λ t.
            t
            >>= first_key_in
                (λ child. first_key read_page fuel ed (insert visited page_id tt) child) page_id)
          stands.0 in
      let same_key = sym reduced ∙ e1 in
      (entry, entries, refl, (let one : entry.0 ≡ key = cc in one))
  first_key-Begins (suc fuel) ed visited (suc below) page_id key entries
        (first, separators, stands, children) e =
      let (unseen, e1) = ensure->>-ok (not (is_some (lookup visited page_id))) _ _ e in
      let reduced =
        ap
          (λ t.
            t
            >>= first_key_in
                (λ child. first_key read_page fuel ed (insert visited page_id tt) child) page_id)
          stands.0 in
      Children-Begins (Tree (Stands read_page ed) below) key first separators entries
        (λ held tree.
          first_key-Begins fuel ed (insert visited page_id tt) below first key held tree
            (sym reduced ∙ e1))
        children

  -- An editor over a map: its root is that of a tree that holds the map, with as many entries, on
  -- pages in use.
  abbrev pub IsEditor : Editor → Map Bytes ℕ → Type 0
  IsEditor ed entries =
      IsIndexOf (Stands read_page ed) ed.root entries × Sorted entries × IsAllocator ed.allocator

  start_tree-IsEditor :
      (ed : Editor) (key : Bytes) (value : Option ℕ)
      → ed.root ≡ none
      → IsAllocator ed.allocator
      → (start_tree ed key value).1 ≡ ok tt
      → IsEditor (start_tree ed key value).0 (update [] key value)
  unfolding start_tree insert remove read
  start_tree-IsEditor ed key none no_root v e =
      (subst (λ t. IsIndexOf (Stands read_page ed) t []) (sym no_root) refl, tt, v)
  start_tree-IsEditor ed key (some value) no_root v e =
      let node = leaf ((key, value) ∷ []) none in
      let (page_id, e1, state, e2) =
        and_then-ok (allocate ed node)
          (λ ed page_id.
            (with_root ed (some (record { page_id = page_id; height = 1; entries = 1 })), ok tt))
          e in
      let (stands, keeps) = allocate-Keeps read_page ed node page_id v tt e1 in
      subst (λ (t : Editor × IndexResult (Unit {0})). IsEditor t.0 ((key, value) ∷ [])) (sym state)
        ((0, refl, refl, (none, stands)), (tt, tt), keeps.0)

  new_root-IsEditor :
      (count height level : ℕ) (ed : Editor) (children : List Child) (entries : List Entry)
      → height ≡ suc level
      → count ≡ length entries
      → Row (Stands read_page ed) level none children entries
      → Sorted entries
      → IsAllocator ed.allocator
      → (new_root count height ed children).1 ≡ ok tt
      → IsEditor (new_root count height ed children).0 entries
  unfolding new_root read
  new_root-IsEditor count height level ed [] entries high many row s v e = (row, s, v)
  new_root-IsEditor count height level ed (child ∷ []) entries high many row s v e = (
    (
      level,
      high,
      many,
      Row-Children (Stands read_page ed) level (Stands-NoEmptyLeaf read_page ed) none child []
          entries row,
    ),
    s,
    v,
  )
  new_root-IsEditor count height level ed (child ∷ second ∷ children) entries high many row s v e =
      let node = internal height child.1 (second ∷ children) in
      let (page_id, e1, state, e2) =
        and_then-ok (allocate ed node) (root_over (ltb (height + 1) (2 ^ 16)) count height) e in
      let (stands, keeps) = allocate-Keeps read_page ed node page_id v tt e1 in
      let now = (allocate ed node).0 in
      let whole =
        Row-Children (Stands read_page now) level (Stands-NoEmptyLeaf read_page now) none child
          (second ∷ children) entries
          (Row-keep (Stands read_page ed) (Stands read_page now) keeps.2 level none
            (child ∷ second ∷ children) entries row) in
      let tree : Tree (Stands read_page now) (suc level) page_id entries = (
        child.1,
        second ∷ children,
        subst (λ h. Stands read_page now page_id (internal h child.1 (second ∷ children))) high
            stands,
        whole,
      ) in
      let taller : height + 1 ≡ suc (suc level) = omega (arith, high) in
      subst (λ (t : Editor × IndexResult (Unit {0})). IsEditor t.0 entries) (sym state)
        (rooted (ltb (height + 1) (2 ^ 16)) now page_id (taller, tree) keeps.0 e2)
    where
      rooted :
          (small : Bool) (now : Editor) (page_id : ℕ)
          → (height + 1 ≡ suc (suc level)) × Tree (Stands read_page now) (suc level) page_id entries
          → IsAllocator now.allocator
          → (root_over small count height now page_id).1 ≡ ok tt
          → IsEditor (root_over small count height now page_id).0 entries
      rooted false now page_id tree v e = cc
      rooted true now page_id tree v e = ((suc level, tree.0, many, tree.1), s, v)

  -- the count that the new root has
  entries_after-Counted :
      (root : IndexRoot) (delta : EntryDelta) (old new count : ℕ)
      → Counted delta old new
      → (extra : ℕ) → root.entries ≡ extra + old
      → entries_after root delta ≡ ok count
      → count ≡ extra + new
  unfolding entries_after
  entries_after-Counted root removed old new count c extra r e = counted root.entries refl e
    where
      counted :
          (entries : ℕ)
          → root.entries ≡ entries
          → (elim entries [
            | zero ↦ err (corrupt_node root.page_id entry_count_underflow)
            | suc count ↦ ok count
          ])
            ≡ ok count
          → count ≡ extra + new
      counted zero e h = cc
      counted (suc n) e h = let one : n ≡ count = cc in omega (arith, one, e, r, c)
  entries_after-Counted root kept old new count c extra r e = ground (arith, c, r)
  entries_after-Counted root added old new count c extra r e = ground (arith, c, r)

  replace_leaf-IsEditor :
      (ed : Editor) (root : IndexRoot) (level : ℕ) (frames : List EditFrame) (key : Bytes)
      (value : Option ℕ) (held entries : List Entry) (edited : Option (List Entry × EntryDelta))
      → ed.root ≡ some root
      → IsEditor ed entries
      → root.height ≡ suc level
      → root.entries ≡ length entries
      → Reached (Stands read_page ed) level none none key held frames entries
      → Edited held key value edited
      → (replace_leaf root frames ed edited).1 ≡ ok tt
      → IsEditor (replace_leaf root frames ed edited).0 (update entries key value)
  unfolding replace_leaf
  replace_leaf-IsEditor ed root level frames key value held entries none r ix high many reached h
        e =
      let (low, high', before, after, whole, path, less, more, o1, o2, o3, o4) = reached in
      subst (IsEditor ed)
        (whole
          ∙ sym (ap (λ t. before ++ (t ++ after)) h)
          ∙ sym (update-around before held after key value less more)
          ∙ sym (ap (λ t. update t key value) whole))
        ix
  replace_leaf-IsEditor ed root level frames key value held entries (some (new, delta)) r ix high
        many reached h e =
      let (low, high', before, after, whole, path, less, more, o1, o2, o3, o4) = reached in
      let (is_update, counted) = h in
      let sorted_held =
        (Sorted-append held after
          (Sorted-append before (held ++ after) (subst Sorted whole ix.1)).1).0 in
      let (leaves, e1, s1, e2) =
        and_then-ok (make_leaves ed new)
          (λ ed leaves. and_then (climb frames root.page_id ed leaves root.height) (λ ed replaced.
            and_then (ed, entries_after root delta)
              (λ ed count. new_root count replaced.1 ed replaced.0)))
          e in
      let now = (make_leaves ed new).0 in
      let (replaced, e3, s2, e4) =
        and_then-ok (climb frames root.page_id now leaves root.height)
          (λ ed replaced.
            and_then (ed, entries_after root delta)
              (λ ed count. new_root count replaced.1 ed replaced.0))
          e2 in
      let up = (climb frames root.page_id now leaves root.height).0 in
      let (count, e5, s3, e6) =
        and_then-ok (up, entries_after root delta)
          (λ ed count. new_root count replaced.1 ed replaced.0) e4 in
      let (row, keeps, over, first) =
        make_leaves-Allocated read_page ed new leaves low high' ix.2
          (subst Sorted (sym is_update) (update-Sorted held key value sorted_held))
          (subst (AllUnder high') (sym is_update) (All-update (Under high') held key value o4 o2))
          (subst (AllOver low) (sym is_update) (All-update (Over low) held key value o3 o1)) e1 in
      let (top, high_end, row', keeps') =
        climb-Replaced read_page frames root.page_id ed now 0 level low high' before after
          root.height leaves new replaced.0 replaced.1 path high keeps row over e3 in
      let updated : before ++ (new ++ after) ≡ update entries key value =
        ap (λ t. before ++ (t ++ after)) is_update
        ∙ sym (update-around before held after key value less more)
        ∙ sym (ap (λ t. update t key value) whole) in
      let counts =
        entries_after-Counted root delta (length held) (length new) count counted
          (length before + length after)
          (omega (
            arith,
            many,
            ap length whole,
            length-append before (held ++ after),
            length-append held after,
          ))
          e5 in
      subst (λ (t : Editor × IndexResult (Unit {0})). IsEditor t.0 (update entries key value))
        (sym (s1 ∙ s2 ∙ s3))
        (new_root-IsEditor count replaced.1 top up replaced.0 (update entries key value) high_end
          (omega (
            arith,
            counts,
            ap length updated,
            length-append before (new ++ after),
            length-append new after,
          ))
          (subst (Row (Stands read_page up) top none replaced.0) updated row')
          (update-Sorted entries key value ix.1) keeps'.0 e6)

  edit_under-IsEditor :
      (fuel : ℕ) (ed : Editor) (key : Bytes) (value : Option ℕ) (root : Option IndexRoot)
      (entries : List Entry)
      → ed.root ≡ root
      → IsEditor ed entries
      → (edit_under read_page fuel ed key value root).1 ≡ ok tt
      → IsEditor (edit_under read_page fuel ed key value root).0 (update entries key value)
  unfolding edit_under
  edit_under-IsEditor fuel ed key value none entries r ix e =
      let nothing : entries ≡ [] = subst (λ t. IsIndexOf (Stands read_page ed) t entries) r ix.0 in
      subst (λ t. IsEditor (start_tree ed key value).0 (update t key value)) (sym nothing)
        (start_tree-IsEditor ed key value r ix.2 e)
  edit_under-IsEditor fuel ed key value (some root) entries r ix e =
      let (level, high, many, tree) =
        subst (λ t. IsIndexOf (Stands read_page ed) t entries) r ix.0 in
      let (expected, e1, s1, e2) =
        and_then-ok (ed, root_level root)
          (λ ed expected.
            and_then (ed, first_key read_page fuel ed [] root.page_id)
              (λ ed first.
                and_then (ed, descend read_page expected ed key (first, root.page_id))
                  (λ ed found. replace_leaf root found.1 ed (edit_entries found.0 key value))))
          e in
      let (first, e3, s2, e4) =
        and_then-ok (ed, first_key read_page fuel ed [] root.page_id)
          (λ ed first.
            and_then (ed, descend read_page expected ed key (first, root.page_id))
              (λ ed found. replace_leaf root found.1 ed (edit_entries found.0 key value)))
          e2 in
      let (found, e5, s3, e6) =
        and_then-ok (ed, descend read_page expected ed key (first, root.page_id))
          (λ ed found. replace_leaf root found.1 ed (edit_entries found.0 key value)) e4 in
      let same_level : level ≡ expected = ground (arith, high, e1) in
      let least =
        Begins-AtLeast first entries ix.1
          (first_key-Begins fuel ed [] level root.page_id first entries tree e3) in
      let reached =
        descend-Reached read_page ed key level first root.page_id entries found.0 found.1 none none
          tree least (all_unbounded entries) tt tt tt
          (ap (λ n. descend read_page n ed key (first, root.page_id)) same_level ∙ e5) in
      subst (λ (t : Editor × IndexResult (Unit {0})). IsEditor t.0 (update entries key value))
        (sym (s1 ∙ s2 ∙ s3))
        (replace_leaf-IsEditor ed root level found.1 key value found.0 entries
          (edit_entries found.0 key value) r ix high many reached
          (edit_entries-Edited found.0 key value
            (held_sorted ed level key found.0 found.1 entries ix.1 reached))
          e6)
    where
      all_unbounded : (entries : List Entry) → AllUnder none entries
      all_unbounded [] = tt
      all_unbounded (x ∷ entries) = (tt, all_unbounded entries)

      held_sorted :
          (ed : Editor) (level : ℕ) (key : Bytes) (held : List Entry) (frames : List EditFrame)
          (entries : List Entry)
          → Sorted entries
          → Reached (Stands read_page ed) level none none key held frames entries
          → Sorted held
      held_sorted ed level key held frames entries s reached =
          let whole = subst Sorted reached.4 s in
          (Sorted-append held reached.3 (Sorted-append reached.2 (held ++ reached.3) whole).1).0

  -- what a mutation makes of a map
  abbrev pub mutate : Map Bytes ℕ → IndexMutation → Map Bytes ℕ
  mutate entries (upsert key value) = update entries key (some value)
  mutate entries (delete key) = update entries key none

  -- An edit that succeeds makes of an editor over a map one over the edited map: an upsert puts its
  -- value, a delete takes out its key, and the number of entries at the root is that of the map.
  pub apply-IsEditor :
      (fuel : ℕ) (ed : Editor) (mutation : IndexMutation) (entries : Map Bytes ℕ)
      → IsEditor ed entries
      → (apply read_page fuel ed mutation).1 ≡ ok tt
      → IsEditor (apply read_page fuel ed mutation).0 (mutate entries mutation)
  unfolding apply edit_key
  apply-IsEditor fuel ed (upsert key value) entries ix e =
      let (done, valid, state, e') =
        and_then-ok (ed, validate_entries ((key, value) ∷ []))
          (λ ed done. edit_key read_page fuel ed key (some value)) e in
      subst
        (λ (t : Editor × IndexResult (Unit {0})). IsEditor t.0 (update entries key (some value)))
        (sym state) (edit_under-IsEditor fuel ed key (some value) ed.root entries refl ix e')
  apply-IsEditor fuel ed (delete key) entries ix e =
      edit_under-IsEditor fuel ed key none ed.root entries refl ix e

  abbrev pub mutate_all : Map Bytes ℕ → List IndexMutation → Map Bytes ℕ
  mutate_all entries [] = entries
  mutate_all entries (mutation ∷ mutations) = mutate_all (mutate entries mutation) mutations

  -- Edits that succeed, one after another, make of an editor over a map one over the map with all
  -- edits in their order: an upsert puts its value, and a delete takes out its key. The root of such
  -- an editor has the height of a tree that holds the map on pages in use, and the number of its
  -- entries.
  pub apply_all-IsEditor :
      (fuel : ℕ) (ed : Editor) (mutations : List IndexMutation) (entries : Map Bytes ℕ)
      → IsEditor ed entries
      → (apply_all read_page fuel ed mutations).1 ≡ ok tt
      → IsEditor (apply_all read_page fuel ed mutations).0 (mutate_all entries mutations)
  unfolding apply_all
  apply_all-IsEditor fuel ed [] entries ix e = ix
  apply_all-IsEditor fuel ed (mutation ∷ mutations) entries ix e =
      let (done, e1, state, e2) =
        and_then-ok (apply read_page fuel ed mutation)
          (λ ed done. apply_all read_page fuel ed mutations) e in
      subst
        (λ (t : Editor × IndexResult (Unit {0})).
          IsEditor t.0 (mutate_all entries (mutation ∷ mutations)))
        (sym state)
        (apply_all-IsEditor fuel (apply read_page fuel ed mutation).0 mutations
          (mutate entries mutation) (apply-IsEditor fuel ed mutation entries ix e1) e2)
