-- ===== src/Index/Tree/Edit/Descent.antt =====
-- index/src/tree.rs: the way down of `apply` finds the leaf of the key, and frames around it.
use Prim.Native.Nat.Ordering.{lt}
use quantadb.Prelude.{
  ℕ, zero, suc, ◌-◌, ◌≡◌, refl, sym, ap, ◌∙◌, subst, true, Option, List, [], ◌∷◌, ◌++◌, append-nil,
  append_assoc, ==_refl,
}
use quantadb.Prelude.Result.{ok, >>=-eq-ok}
use quantadb.Prelude.Ord.{compare_bytes, bytes_ord}
use quantadb.Prelude.Seq.{partition_point}
use quantadb.Bytes.{Bytes}
use quantadb.Storage.Error.{StorageResult}
use quantadb.Index.Node.{Node, Entry, internal, level}
use quantadb.Index.Tree.{at_most}
use quantadb.Index.Tree.Lookup.{Tree, AtLeast, Below}
use quantadb.Index.Tree.Partition.{Child}
use quantadb.Index.Tree.Order.{All-join}
use quantadb.Index.Tree.Edit.{Editor, EditFrame, descend, descend_in, child_at, append_frame}
use quantadb.Index.Tree.Edit.Row.{Under, Over, AllUnder, AllOver, Children-Row, All-imp}
use quantadb.Index.Tree.Edit.Fresh.{Stands, Stands-NoEmptyLeaf}
use quantadb.Index.Tree.Edit.Frames.{Frame, Trail}
use quantadb.Index.Tree.Edit.Leaf.{Above}
use quantadb.Index.Tree.Edit.Chosen.{Over-trans, children-Chosen}

-- A frame over the top of frames.
Trail-snoc :
    (At : ℕ → Node → Type 0) (level : ℕ) (low high : Option Bytes) (frames : List EditFrame)
    (top : ℕ) (low' high' : Option Bytes) (before after : List Entry) (frame : EditFrame)
    (least most : Option Bytes) (left right : List Entry)
    → Trail At level low high frames top low' high' before after
    → Frame At top low' high' frame least most left right
    → Trail At level low high
        (frames ++ (frame ∷ []))
        (suc top)
        least
        most
        (left ++ before)
        (after ++ right)
Trail-snoc At level low high [] top low' high' before after frame least most left right
      (e1, e2, e3, e4, e5) f =
    (
      least,
      most,
      left,
      right,
      [],
      [],
      subst (λ t. Frame At t low high frame least most left right) (sym e1)
          (subst (λ t. Frame At top t high frame least most left right) (sym e2)
            (subst (λ t. Frame At top low' t frame least most left right) (sym e3) f)),
      (ap suc e1, refl, refl, refl, refl),
      ap (λ t. left ++ t) e4 ∙ append-nil left,
      ap (λ t. t ++ right) e5 ∙ sym (append-nil right),
    )
Trail-snoc At level low high (x ∷ frames) top low' high' before after frame least most left right
      (l, h, b, a, b', a', f', path, e1, e2) f =
    (
      l,
      h,
      b,
      a,
      left ++ b',
      a' ++ right,
      f',
      Trail-snoc At (suc level) l h frames top low' high' b' a' frame least most left right path f,
      ap (λ t. left ++ t) e1 ∙ sym (append_assoc left b' b),
      ap (λ t. t ++ right) e2 ∙ append_assoc a a' right,
    )

-- Where the way down ends: the entries of a leaf in their place among all, the frames around it, and
-- the key between them.
abbrev pub Reached :
    (ℕ → Node → Type 0)
    → ℕ
    → Option Bytes
    → Option Bytes
    → Bytes
    → List Entry
    → List EditFrame
    → List Entry
    → Type 0
Reached At top least most key held frames entries =
    (low : Option Bytes) × (high : Option Bytes) × (before : List Entry) × (after : List Entry)
    × (entries ≡ before ++ (held ++ after))
    × Trail At 0 low high frames top least most before after
    × Below key before
    × Above key after
    × AllOver low held
    × AllUnder high held
    × Over low key
    × Under high key

AtLeast-Over :
    (low : Option Bytes) (key : Bytes) (entries : List Entry)
    → Over low key
    → AtLeast key entries
    → AllOver low entries
AtLeast-Over low key entries over least =
    All-imp (λ (entry : Entry). at_most key entry.0 ≡ true) (λ (entry : Entry). Over low entry.0)
      entries (λ entry h. Over-trans low key entry.0 over h) least

Reached-more :
    (At : ℕ → Node → Type 0) (below : ℕ) (low high : Option Bytes) (key : Bytes) (held : List Entry)
    (frames : List EditFrame) (frame : EditFrame) (low' high' : Option Bytes)
    (left hole right entries : List Entry)
    → entries ≡ left ++ (hole ++ right)
    → Frame At below low' high' frame low high left right
    → Below key left
    → Above key right
    → Reached At below low' high' key held frames hole
    → Reached At (suc below) low high key held (append_frame frames frame) entries
Reached-more At below low high key held frames frame low' high' left hole right entries whole f less
      more (l, h, before, after, whole', path, less', more', o1, o2, o3, o4) =
    (
      l,
      h,
      left ++ before,
      after ++ right,
      whole ∙ ap (λ t. left ++ (t ++ right)) whole' ∙ sorted_out,
      Trail-snoc At 0 l h frames below low' high' before after frame low high left right path f,
      All-join (λ (entry : Entry). compare_bytes entry.0 key ≡ lt) left before less less',
      All-join (λ (entry : Entry). compare_bytes key entry.0 ≡ lt) after right more' more,
      o1,
      o2,
      o3,
      o4,
    )
  where
    sorted_out :
        left ++ ((before ++ (held ++ after)) ++ right)
        ≡ (left ++ before) ++ (held ++ (after ++ right))
    sorted_out =
        ap (λ t. left ++ t)
          (append_assoc before (held ++ after) right
            ∙ ap (λ t. before ++ t) (append_assoc held after right))
        ∙ sym (append_assoc left before (held ++ (after ++ right)))

module _ (read_page : ℕ → StorageResult (Option Bytes)) (ed : Editor) (key : Bytes) where
  pub descend-Reached :
      (expected : ℕ) (first_key : Bytes) (page_id : ℕ) (entries held : List Entry)
      (frames : List EditFrame) (low high : Option Bytes)
      → Tree (Stands read_page ed) expected page_id entries
      → AtLeast first_key entries
      → AllUnder high entries
      → Over low first_key
      → Over low key
      → Under high key
      → descend read_page expected ed key (first_key, page_id) ≡ ok (held, frames)
      → Reached (Stands read_page ed) expected low high key held frames entries
  unfolding descend level
  descend-Reached zero first_key page_id entries held frames low high (next, stands) least most
        over_first over under e =
      let computed : descend read_page zero ed key (first_key, page_id) ≡ ok (entries, []) =
        rw (stands.0) refl in
      let there = sym computed ∙ e in
      let one : entries ≡ held = cc in
      let other : [] ≡ frames = cc in
      subst (λ t. Reached (Stands read_page ed) 0 low high key t frames entries) one
        (subst (λ t. Reached (Stands read_page ed) 0 low high key entries t entries) other
          (
            low,
            high,
            [],
            [],
            sym (append-nil entries),
            (refl, refl, refl, refl, refl),
            tt,
            tt,
            AtLeast-Over low first_key entries over_first least,
            most,
            over,
            under,
          ))
  descend-Reached (suc below) first_key page_id entries held frames low high
        (first, separators, stands, children) least most over_first over under e =
      let full = Stands-NoEmptyLeaf read_page ed in
      let row =
        Children-Row (Stands read_page ed) below high first_key first separators entries children
          least most in
      let chosen =
        children-Chosen (Stands read_page ed) below full low high key first_key first separators
          entries row over_first over under in
      let (low', high', left, hole, right, whole, f, less, more, tree, least', most', o1, o2, o3) =
        chosen in
      let computed : descend read_page (suc below) ed key (first_key, page_id)
          ≡ descend_in (λ child. descend read_page below ed key child) key first_key
              (internal (suc below) first separators) =
        rw (stands.0, ==_refl (suc below)) refl in
      let child =
        child_at ((first_key, first) ∷ separators) (
          partition_point (λ (c : Child). at_most c.0 key) ((first_key, first) ∷ separators) - 1) in
      let (found, e1, e2) = >>=-eq-ok (descend read_page below ed key child) _ (sym computed ∙ e) in
      let one : found.0 ≡ held = cc in
      let frame : EditFrame = record {
        level = suc below;
        children = (first_key, first) ∷ separators;
        position =
            partition_point (λ (c : Child). at_most c.0 key) ((first_key, first) ∷ separators) - 1;
      } in
      let other : append_frame found.1 frame ≡ frames = cc in
      subst (λ t. Reached (Stands read_page ed) (suc below) low high key t frames entries) one
        (subst (λ t. Reached (Stands read_page ed) (suc below) low high key found.0 t entries) other
          (Reached-more (Stands read_page ed) below low high key found.0 found.1 frame low' high'
            left hole right entries whole f less more
            (descend-Reached below child.0 child.1 hole found.0 found.1 low' high' tree least' most'
              o1 o2 o3 e1)))
