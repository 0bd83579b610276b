-- ===== src/Index/Tree/Edit/Frames.antt =====
-- index/src/tree.rs: the frames above a leaf, and rows of children in their places.
use Prim.Native.Nat.Ordering.{lt}
use quantadb.Prelude.{
  ℕ, suc, ◌+◌, ◌≡◌, sym, ap, ◌∙◌, subst, ◌⊎◌, inl, inr, true, Option, some, List, [], ◌∷◌, ◌++◌,
  take, drop, arith,
}
use quantadb.Prelude.Ord.{compare_bytes, bytes_ord, compare_bytes_trans, compare_bytes-eq}
use quantadb.Bytes.{Bytes}
use quantadb.Index.Node.{Node, Entry}
use quantadb.Index.Tree.{at_most}
use quantadb.Index.Tree.Partition.{Child}
use quantadb.Index.Tree.Order.{All-join}
use quantadb.Index.Tree.Edit.{EditFrame, splice}
use quantadb.Index.Tree.Edit.Row.{
  Under, Over, Under-trans, next_key, Row, Row-join, Row-wider, Row-keep,
}
use quantadb.Index.Tree.Edit.Level.{KeysOver}

-- A frame of a level over a place for children between two bounds: what it holds before and after the
-- place, and the bounds of the place of the frame itself.
pub record Frame (At : ℕ → Node → Type 0) (level : ℕ) (low high : Option Bytes) (frame : EditFrame)
    (least most : Option Bytes) (before after : List Entry) : Type 0 where
  pub pre : List Child
  pub post : List Child
  pub child : Child
  pub taken : take frame.position frame.children ≡ pre
  pub dropped : drop (frame.position + 1) frame.children ≡ post
  pub level_above : frame.level ≡ suc level
  pub row_before : Row At level (some child.0) pre before
  pub row_after : Row At level most post after
  pub high_next : high ≡ next_key most post
  pub child_under : Under high child.0
  pub keys_before : KeysOver least pre
  pub keys_after : KeysOver least post
  pub lower : (key : Bytes) → Over low key → Over least key
  pub meets : (key : Bytes) → Over low key → (pre ≡ []) ⊎ (at_most child.0 key ≡ true)

-- Frames from a place up to one of the level `top`.
abbrev pub Trail :
    (ℕ → Node → Type 0)
    → ℕ
    → Option Bytes
    → Option Bytes
    → List EditFrame
    → ℕ
    → Option Bytes
    → Option Bytes
    → List Entry
    → List Entry
    → Type 0
Trail At level low high [] top least most before after =
    (level ≡ top) × (low ≡ least) × (high ≡ most) × (before ≡ []) × (after ≡ [])
Trail At level low high (frame ∷ frames) top least most before after =
    (low' : Option Bytes) × (high' : Option Bytes) × (left : List Entry) × (right : List Entry)
    × (before' : List Entry) × (after' : List Entry) × Frame At level low high frame low' high' left
        right
    × Trail At (suc level) low' high' frames top least most before' after'
    × (before ≡ before' ++ left)
    × (after ≡ right ++ after')

pub Frame-keep :
    (At Now : ℕ → Node → Type 0) (level : ℕ) (low high : Option Bytes) (frame : EditFrame)
    (least most : Option Bytes) (before after : List Entry)
    → ((page_id : ℕ) (node : Node) → At page_id node → Now page_id node)
    → Frame At level low high frame least most before after
    → Frame Now level low high frame least most before after
Frame-keep At Now level low high frame least most before after keep f = record {
  pre = f.pre;
  post = f.post;
  child = f.child;
  taken = f.taken;
  dropped = f.dropped;
  level_above = f.level_above;
  row_before = Row-keep At Now keep level (some f.child.0) f.pre before f.row_before;
  row_after = Row-keep At Now keep level most f.post after f.row_after;
  high_next = f.high_next;
  child_under = f.child_under;
  keys_before = f.keys_before;
  keys_after = f.keys_after;
  lower = f.lower;
  meets = f.meets;
}

-- A row in the place of a frame makes a row with the rest of the frame.
pub splice-Row :
    (At : ℕ → Node → Type 0) (level : ℕ) (low high : Option Bytes) (frame : EditFrame)
    (least most : Option Bytes) (before after : List Entry) (children : List Child)
    (hole : List Entry)
    → Frame At level low high frame least most before after
    → Row At level high children hole
    → KeysOver low children
    → Row At level most (splice frame children) (before ++ (hole ++ after))
      × KeysOver least (splice frame children)
splice-Row At level low high frame least most before after children hole f row over =
    subst (λ t. Row At level most t (before ++ (hole ++ after)) × KeysOver least t)
      (sym (
        ap (λ t. t ++ (children ++ drop (frame.position + 1) frame.children)) f.taken
        ∙ ap (λ t. f.pre ++ (children ++ t)) f.dropped))
      (
        Row-join At level most f.pre (children ++ f.post) before (hole ++ after)
            (first f.pre children f.row_before f.meets over)
            (Row-join At level most children f.post hole after
              (subst (λ t. Row At level t children hole) f.high_next row) f.row_after),
        All-join (λ (child : Child). Over least child.0) f.pre (children ++ f.post) f.keys_before
            (All-join (λ (child : Child). Over least child.0) children f.post
              (lowered children over) f.keys_after),
      )
  where
    lowered : (children : List Child) → KeysOver low children → KeysOver least children
    lowered [] h = tt
    lowered (child ∷ children) h = (f.lower child.0 h.0, lowered children h.1)

    first :
        (pre children : List Child)
        → Row At level (some f.child.0) pre before
        → ((key : Bytes) → Over low key → (pre ≡ []) ⊎ (at_most f.child.0 key ≡ true))
        → KeysOver low children
        → Row At level (next_key most (children ++ f.post)) pre before
    first [] children row meets over = row
    first (x ∷ pre) [] row meets over =
        Row-wider At level (some f.child.0) (next_key most f.post) (x ∷ pre) before
          (λ key h.
            subst (λ t. Under t key) f.high_next (Under-trans high key f.child.0 h f.child_under))
          row
    first (x ∷ pre) (child ∷ children) row meets over =
        Row-wider At level (some f.child.0) (some child.0) (x ∷ pre) before
          (λ key h. past key h (meets child.0 over.0)) row
      where
        past :
            (key : Bytes)
            → compare_bytes key f.child.0 ≡ lt
            → (x ∷ pre ≡ []) ⊎ (at_most f.child.0 child.0 ≡ true)
            → compare_bytes key child.0 ≡ lt
        past key h (inl e) = cc
        past key h (inr e) = ground (
          arith,
          h,
          e,
          compare_bytes_trans key f.child.0 child.0,
          compare_bytes-eq f.child.0 child.0,
        )
