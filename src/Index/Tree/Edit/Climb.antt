-- ===== src/Index/Tree/Edit/Climb.antt =====
-- index/src/tree.rs: what `apply` puts in the place of frames on the way up.
use quantadb.Prelude.{
  ℕ, zero, suc, ◌≡◌, refl, sym, ap, ◌∙◌, subst, Bool, true, false, Option, none, List, [], ◌∷◌,
  ◌++◌, append-nil, append_assoc, arith,
}
use quantadb.Prelude.Result.{ok, and_then, and_then-ok}
use quantadb.Prelude.Ord.{bytes_ord}
use quantadb.Bytes.{Bytes}
use quantadb.Storage.Error.{StorageResult}
use quantadb.Index.Node.{Entry}
use quantadb.Index.Tree.Partition.{Child}
use quantadb.Index.Tree.Edit.{
  Editor, EditFrame, Climbed, splice, climb, climb_with, make_internal_level,
}
use quantadb.Index.Tree.Edit.Row.{next_key, Row}
use quantadb.Index.Tree.Edit.Fresh.{Stands, Keeps, Keeps-trans}
use quantadb.Index.Tree.Edit.Level.{KeysOver, Allocated, make_internal_level-Allocated}
use quantadb.Index.Tree.Edit.Frames.{Trail, Frame-keep, splice-Row}

module _ (read_page : ℕ → StorageResult (Option Bytes)) where
  -- What a climb ends with: a row of the whole, of a level below the height, in an editor that keeps
  -- the rest.
  abbrev pub Replaced : Editor → Editor → List Child → ℕ → List Entry → Type 0
  Replaced ed now children height entries =
      (level : ℕ) × (height ≡ suc level)
      × Row (Stands read_page now) level none children entries
      × Keeps read_page ed now

  -- what the rounds behind a frame give, for any row in the place of the frame
  abbrev Rounds :
      (Editor → List Child → ℕ → Climbed)
      → Editor
      → ℕ
      → Option Bytes
      → Option Bytes
      → (List Entry → List Entry)
      → ℕ
      → Type 0
  Rounds next ed0 level low high around height =
      (ed : Editor) (children : List Child) (hole : List Entry) (replaced : List Child) (end : ℕ)
      → Keeps read_page ed0 ed
      → Row (Stands read_page ed) level high children hole
      → KeysOver low children
      → (next ed children height).1 ≡ ok (replaced, end)
      → Replaced ed0 (next ed children height).0 replaced end (around hole)

  -- a level over the children, and the rounds behind it
  raise-Replaced :
      (next : Editor → List Child → ℕ → Climbed) (ed0 ed : Editor) (level above : ℕ)
      (low high : Option Bytes) (around : List Entry → List Entry) (height : ℕ)
      (children : List Child) (hole : List Entry) (replaced : List Child) (end : ℕ)
      → above ≡ suc level
      → Rounds next ed0 (suc level) low high around height
      → Keeps read_page ed0 ed
      → Row (Stands read_page ed) level high children hole
      → KeysOver low children
      → (and_then (make_internal_level ed above children) (λ ed made. next ed made height)).1
        ≡ ok (replaced, end)
      → Replaced ed0
          (and_then (make_internal_level ed above children) (λ ed made. next ed made height)).0
          replaced
          end
          (around hole)
  raise-Replaced next ed0 ed level above low high around height children hole replaced end up rounds
        keeps row over e =
      let (made, e1, state, e2) =
        and_then-ok (make_internal_level ed above children) (λ ed made. next ed made height) e in
      let now = (make_internal_level ed above children).0 in
      let grown : Allocated read_page ed now (suc level) low high (next_key high children) made
          hole =
        subst
          (λ t.
            Allocated read_page ed (make_internal_level ed t children).0 (suc level) low high
              (next_key high children) made hole)
          (sym up)
          (make_internal_level-Allocated read_page ed level children made low high hole keeps.0 row
            over (subst (λ t. (make_internal_level ed t children).1 ≡ ok made) up e1)) in
      subst (λ (t : Climbed). Replaced ed0 t.0 replaced end (around hole)) (sym state)
        (rounds now made hole replaced end (Keeps-trans read_page ed0 ed now keeps grown.1) grown.0
          grown.2 e2)

  -- the rounds behind a frame that is not the root's
  below-Replaced :
      (next : Editor → List Child → ℕ → Climbed) (root_page : ℕ) (is_root : Bool) (ed0 ed : Editor)
      (level above : ℕ) (low high : Option Bytes) (around : List Entry → List Entry) (height : ℕ)
      (children : List Child) (hole : List Entry) (replaced : List Child) (end : ℕ)
      → is_root ≡ false
      → above ≡ suc level
      → Rounds next ed0 (suc level) low high around height
      → Keeps read_page ed0 ed
      → Row (Stands read_page ed) level high children hole
      → KeysOver low children
      → (climb_with next root_page above is_root ed height children).1 ≡ ok (replaced, end)
      → Replaced ed0
          (climb_with next root_page above is_root ed height children).0
          replaced
          end
          (around hole)
  below-Replaced next root_page is_root ed0 ed level above low high around height [] hole replaced
        end inner up rounds keeps row over e =
      rounds ed [] hole replaced end keeps row tt e
  below-Replaced next root_page true ed0 ed level above low high around height (child ∷ []) hole
        replaced end inner up rounds keeps row over e =
      cc
  below-Replaced next root_page false ed0 ed level above low high around height (child ∷ []) hole
        replaced end inner up rounds keeps row over e =
      raise-Replaced next ed0 ed level above low high around height (child ∷ []) hole replaced end
        up rounds keeps row over e
  below-Replaced next root_page true ed0 ed level above low high around height
        (child ∷ second ∷ children) hole replaced end inner up rounds keeps row over e =
      cc
  below-Replaced next root_page false ed0 ed level above low high around height
        (child ∷ second ∷ children) hole replaced end inner up rounds keeps row over e =
      raise-Replaced next ed0 ed level above low high around height (child ∷ second ∷ children) hole
        replaced end up rounds keeps row over e

  -- the last round, at the frame of the root
  root-Replaced :
      (root_page : ℕ) (ed0 ed : Editor) (level above : ℕ) (low : Option Bytes) (height : ℕ)
      (children : List Child) (hole : List Entry) (replaced : List Child) (end : ℕ)
      → above ≡ suc level
      → height ≡ suc (suc level)
      → Keeps read_page ed0 ed
      → Row (Stands read_page ed) level none children hole
      → KeysOver low children
      → (climb_with (climb [] root_page) root_page above true ed height children).1
        ≡ ok (replaced, end)
      → Replaced ed0
          (climb_with (climb [] root_page) root_page above true ed height children).0
          replaced
          end
          hole
  unfolding climb
  root-Replaced root_page ed0 ed level above low height [] hole replaced end up high keeps row over
        e =
      let one : [] ≡ replaced = cc in
      let other : height ≡ end = cc in
      (
        suc level,
        sym other ∙ high,
        subst (λ t. Row (Stands read_page ed) (suc level) none t hole) one row,
        keeps,
      )
  root-Replaced root_page ed0 ed level above low zero (child ∷ []) hole replaced end up high keeps
        row over e =
      cc
  root-Replaced root_page ed0 ed level above low (suc height) (child ∷ []) hole replaced end up high
        keeps row over e =
      let one : child ∷ [] ≡ replaced = cc in
      let other : height ≡ end = cc in
      let lower : height ≡ suc level = omega (arith, high) in
      (
        level,
        sym other ∙ lower,
        subst (λ t. Row (Stands read_page ed) level none t hole) one row,
        keeps,
      )
  root-Replaced root_page ed0 ed level above low height (child ∷ second ∷ children) hole replaced
        end up high keeps row over e =
      raise-Replaced (climb [] root_page) ed0 ed level above low none (λ entries. entries) height
        (child ∷ second ∷ children) hole replaced end up
        (λ now made held done stop keeps' row' over' e'.
          let one : made ≡ done = cc in
          let other : height ≡ stop = cc in
          (
            suc level,
            sym other ∙ high,
            subst (λ t. Row (Stands read_page now) (suc level) none t held) one row',
            keeps',
          ))
        keeps row over e

  around_frame :
      (before left hole right after : List Entry)
      → before ++ ((left ++ (hole ++ right)) ++ after)
        ≡ (before ++ left) ++ (hole ++ (right ++ after))
  around_frame before left hole right after =
      ap (λ t. before ++ t)
        (append_assoc left (hole ++ right) after
          ∙ ap (λ t. left ++ t) (append_assoc hole right after))
      ∙ sym (append_assoc before left (hole ++ (right ++ after)))

  -- The way up from a row in the place of a leaf: a row of the whole.
  pub climb-Replaced :
      (frames : List EditFrame) (root_page : ℕ) (ed0 ed : Editor) (level top : ℕ)
      (low high : Option Bytes) (before after : List Entry) (height : ℕ) (children : List Child)
      (hole : List Entry) (replaced : List Child) (end : ℕ)
      → Trail (Stands read_page ed0) level low high frames top none none before after
      → height ≡ suc top
      → Keeps read_page ed0 ed
      → Row (Stands read_page ed) level high children hole
      → KeysOver low children
      → (climb frames root_page ed children height).1 ≡ ok (replaced, end)
      → Replaced ed0
          (climb frames root_page ed children height).0
          replaced
          end
          (before ++ (hole ++ after))
  unfolding climb
  climb-Replaced [] root_page ed0 ed level top low high before after height children hole replaced
        end (e1, e2, e3, e4, e5) tall keeps row over e =
      let one : children ≡ replaced = cc in
      let other : height ≡ end = cc in
      subst (Replaced ed0 ed replaced end)
        (sym (ap (λ t. t ++ (hole ++ after)) e4 ∙ ap (λ t. hole ++ t) e5 ∙ append-nil hole))
        (
          level,
          sym other ∙ tall ∙ ap suc (sym e1),
          subst (λ t. Row (Stands read_page ed) level t replaced hole) e3
              (subst (λ t. Row (Stands read_page ed) level high t hole) one row),
          keeps,
        )
  climb-Replaced (frame ∷ []) root_page ed0 ed level top low high before after height children hole
        replaced end (low', high', left, right, before', after', f, (e1, e2, e3, e4, e5), e6, e7)
        tall keeps row over e =
      let (spliced, keys) =
        splice-Row (Stands read_page ed) level low high frame low' high' left right children hole
          (Frame-keep (Stands read_page ed0) (Stands read_page ed) level low high frame low' high'
            left right keeps.2 f)
          row over in
      subst
        (Replaced ed0
          (climb_with (climb [] root_page) root_page frame.level true ed height
            (splice frame children)).0
          replaced end)
        (sym (
          ap (λ t. t ++ (hole ++ after)) (e6 ∙ ap (λ t. t ++ left) e4)
          ∙ ap (λ t. left ++ (hole ++ t)) (e7 ∙ ap (λ t. right ++ t) e5 ∙ append-nil right)))
        (root-Replaced root_page ed0 ed level frame.level low' height (splice frame children)
          (left ++ (hole ++ right)) replaced end f.level_above (tall ∙ ap suc (sym e1)) keeps
          (subst
            (λ t.
              Row (Stands read_page ed) level t (splice frame children) (left ++ (hole ++ right)))
            e3 spliced)
          keys e)
  climb-Replaced (frame ∷ upper ∷ frames) root_page ed0 ed level top low high before after height
        children hole replaced end (low', high', left, right, before', after', f, path, e6, e7) tall
        keeps row over e =
      let (spliced, keys) =
        splice-Row (Stands read_page ed) level low high frame low' high' left right children hole
          (Frame-keep (Stands read_page ed0) (Stands read_page ed) level low high frame low' high'
            left right keeps.2 f)
          row over in
      subst
        (Replaced ed0
          (climb_with (climb (upper ∷ frames) root_page) root_page frame.level false ed height
            (splice frame children)).0
          replaced end)
        (around_frame before' left hole right after'
          ∙ sym (ap (λ t. t ++ (hole ++ after)) e6 ∙ ap (λ t. (before' ++ left) ++ (hole ++ t)) e7))
        (below-Replaced (climb (upper ∷ frames) root_page) root_page false ed0 ed level frame.level
          low' high' (λ entries. before' ++ (entries ++ after')) height (splice frame children)
          (left ++ (hole ++ right)) replaced end refl f.level_above
          (λ now made held done stop keeps' row' over' e'.
            climb-Replaced (upper ∷ frames) root_page ed0 now (suc level) top low' high' before'
              after' height made held done stop path tall keeps' row' over' e')
          keeps spliced keys e)
