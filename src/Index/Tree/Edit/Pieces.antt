-- ===== src/Index/Tree/Edit/Pieces.antt =====
-- Where a partition succeeds, its pieces are all that it was given.
use quantadb.Prelude.{
  ℕ, zero, suc, ◌+◌, ◌≤◌, ◌≡◌, ◌≢◌, sym, ap, ◌∙◌, List, [], ◌∷◌, ◌++◌, length, length-append, ltb,
  arith, subst, Bool, true, false, if◌then◌else◌,
}
use quantadb.Prelude.Result.{ok, ◌>>=◌, >>=-eq-ok}
use quantadb.Prelude.Seq.{All}
use quantadb.Bytes.{Bytes}
use quantadb.Index.Error.{IndexResult}
use quantadb.Index.Node.{Entry, header_size}
use quantadb.Index.Tree.Partition.{
  Child, Group, known_size, fill_node, prepend, partition_by, leaf_round, partition_leaves,
  partition_from, partition_internal, check_lone,
}
use quantadb.Index.Tree.Partition.Bounds.{concat}
use quantadb.Index.Tree.Build.Levels.{ungroup}

-- the branch of the inner loop that goes on
filled_more :
    (rest : IndexResult (List (Bytes × ℕ) × List (Bytes × ℕ))) (entry : Bytes × ℕ)
    (entries group left_over : List (Bytes × ℕ))
    → ((group left_over : List (Bytes × ℕ))
        → rest ≡ ok (group, left_over)
        → entries ≡ group ++ left_over)
    → (rest >>= λ found. ok (prepend entry found)) ≡ ok (group, left_over)
    → entry ∷ entries ≡ group ++ left_over
filled_more rest entry entries group left_over f e =
    let (found, e1, e2) = >>=-eq-ok rest (λ found. ok (prepend entry found)) e in
    let first : entry ∷ found.0 ≡ group = cc in
    let last : found.1 ≡ left_over = cc in
    ap (λ t. entry ∷ t) (f found.0 found.1 e1)
    ∙ ap (λ t. t ++ found.1) first
    ∙ ap (λ t. group ++ t) last

fill_node-append :
    (used : ℕ) (entries group left_over : List (Bytes × ℕ))
    → fill_node used entries ≡ ok (group, left_over)
    → entries ≡ group ++ left_over
unfolding fill_node
fill_node-append used [] group left_over e = ground arith
fill_node-append used (entry ∷ entries) group left_over e =
    let (size, e1, e2) = >>=-eq-ok (known_size entry) _ e in
    decided (ltb 8128 (used + size)) (fill_node (used + size) entries)
      (λ group left_over h. fill_node-append (used + size) entries group left_over h) e2
  where
    decided :
        (full : Bool) (rest : IndexResult (List (Bytes × ℕ) × List (Bytes × ℕ)))
        → ((group left_over : List (Bytes × ℕ))
            → rest ≡ ok (group, left_over)
            → entries ≡ group ++ left_over)
        → (if full then ok ([], entry ∷ entries) else (rest >>= λ found. ok (prepend entry found)))
          ≡ ok (group, left_over)
        → entry ∷ entries ≡ group ++ left_over
    decided true rest f h = ground arith
    decided false rest f h = filled_more rest entry entries group left_over f h

abbrev pub NoneEmpty : List (List Entry) → Type 0
NoneEmpty = All (λ group. group ≢ [])

partition_by-concat :
    (fuel : ℕ) (entries : List Entry) (groups : List (List Entry))
    → length entries ≤ fuel
    → partition_by fuel entries ≡ ok groups
    → (entries ≡ concat groups) × NoneEmpty groups
unfolding partition_by
partition_by-concat fuel [] groups h e =
    let none_left : groups ≡ [] = ground arith in
    (sym (ap concat none_left), subst NoneEmpty (sym none_left) tt)
partition_by-concat zero (entry ∷ entries) groups h e = absurd (omega arith)
partition_by-concat (suc fuel) (entry ∷ entries) groups h e =
    let (found, e1, e2) =
      >>=-eq-ok (fill_node header_size (entry ∷ entries))
        (leaf_round (λ left_over. partition_by fuel left_over) entry) e in
    rounded found.0 found.1 (fill_node-append header_size (entry ∷ entries) found.0 found.1 e1)
      (λ left_over groups h e. partition_by-concat fuel left_over groups h e) e2
  where
    rounded :
        (group left_over : List Entry)
        → entry ∷ entries ≡ group ++ left_over
        → ((left_over : List Entry) (groups : List (List Entry))
            → length left_over ≤ fuel
            → partition_by fuel left_over ≡ ok groups
            → (left_over ≡ concat groups) × NoneEmpty groups)
        → leaf_round (λ left_over. partition_by fuel left_over) entry (group, left_over) ≡ ok groups
        → (entry ∷ entries ≡ concat groups) × NoneEmpty groups
    rounded [] left_over whole f e2 = cc
    rounded (x ∷ group) left_over whole f e2 =
        let (rest, e3, e4) =
          >>=-eq-ok (partition_by fuel left_over) (λ groups. ok ((x ∷ group) ∷ groups)) e2 in
        let (whole', full) =
          f left_over rest (omega (arith, ap length whole, h, length-append group left_over)) e3 in
        let made : (x ∷ group) ∷ rest ≡ groups = cc in
        (
          whole ∙ ap (λ t. (x ∷ group) ++ t) whole' ∙ ap concat made,
          subst NoneEmpty made ((λ c. cc), full),
        )

pub partition_leaves-concat :
    (entries : List Entry) (groups : List (List Entry))
    → partition_leaves entries ≡ ok groups
    → (entries ≡ concat groups) × NoneEmpty groups
unfolding partition_leaves
partition_leaves-concat entries groups e =
    partition_by-concat (length entries) entries groups (omega arith) e

partition_from-ungroup :
    (fuel : ℕ) (children : List Child) (groups : List Group)
    → length children ≤ fuel
    → partition_from fuel children ≡ ok groups
    → children ≡ ungroup groups
unfolding partition_from
partition_from-ungroup fuel [] groups h e =
    let none_left : groups ≡ [] = ground arith in sym (ap ungroup none_left)
partition_from-ungroup zero (child ∷ children) groups h e = absurd (omega arith)
partition_from-ungroup (suc fuel) (child ∷ children) groups h e =
    let (found, e1, e2) = >>=-eq-ok (fill_node header_size children) _ e in
    let (done, e3, e4) = >>=-eq-ok (check_lone found.0 found.1) _ e2 in
    let (rest, e5, e6) = >>=-eq-ok (partition_from fuel found.1) _ e4 in
    let whole = fill_node-append header_size children found.0 found.1 e1 in
    let whole' =
      partition_from-ungroup fuel found.1 rest
        (omega (arith, ap length whole, h, length-append found.0 found.1)) e5 in
    let made : (child, found.0) ∷ rest ≡ groups = cc in
    ap (λ t. child ∷ t) (whole ∙ ap (λ t. found.0 ++ t) whole') ∙ ap ungroup made

pub partition_internal-ungroup :
    (children : List Child) (groups : List Group)
    → partition_internal children ≡ ok groups
    → children ≡ ungroup groups
unfolding partition_internal
partition_internal-ungroup children groups e =
    partition_from-ungroup (length children) children groups (omega arith) e
