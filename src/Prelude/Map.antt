-- ===== src/Prelude/Map.antt =====
-- `BTreeMap` and `HashMap`, documented behaviour only: a list of bindings in key order. A set is a
-- map to `Unit`. `range` keeps the bindings between two bounds, as `BTreeMap::range` does.
use Prim.Native.Nat.Ordering.{lt, eq, gt}
use quantadb.Prelude.{
  ◌≡◌, refl, ◌≤◌, ◌<◌, length, Option, none, some, List, [], ◌∷◌, if◌then◌else◌, arith,
}
use quantadb.Prelude.Ord.{Ord, same}

abbrev pub Map {ℓ κ} : Type ℓ → Type κ → Type (ℓ ⊔ κ)
Map K V = List (K × V)

module _ {ℓ κ} {K : Type ℓ} {V : Type κ} ⦃o : Ord K⦄ where
  unfoldable pub lookup : Map K V → K → Option V
  lookup [] q = none
  lookup ((k, v) ∷ m) q = if same k q then some v else lookup m q

  unfoldable pub insert : Map K V → K → V → Map K V
  insert [] q w = (q, w) ∷ []
  insert ((k, v) ∷ m) q w =
      let rest = insert m q w in
      elim (o.cmp q k) [ lt ↦ (q, w) ∷ (k, v) ∷ m | eq ↦ (q, w) ∷ m | gt ↦ (k, v) ∷ rest ]

  unfoldable pub remove : Map K V → K → Map K V
  remove [] q = []
  remove ((k, v) ∷ m) q = let rest = remove m q in if same k q then rest else (k, v) ∷ rest

  pub lookup-insert :
      (m : Map K V) (q p : K) (w : V)
      → lookup (insert m q w) p ≡ (if same q p then some w else lookup m p)
  unfolding lookup insert
  lookup-insert [] q p w = refl
  lookup-insert ((k, v) ∷ m) q p w = ground (
    arith,
    lookup-insert m q p w,
    o.eq_of_cmp q k,
    o.eq_of_cmp q p,
    o.eq_of_cmp k p,
    o.cmp_refl k,
  )

  pub lookup-remove :
      (m : Map K V) (q p : K) → lookup (remove m q) p ≡ (if same q p then none else lookup m p)
  unfolding lookup remove
  lookup-remove [] q p = ground arith
  lookup-remove ((k, v) ∷ m) q p = ground (
    arith,
    lookup-remove m q p,
    o.eq_of_cmp k q,
    o.eq_of_cmp k p,
    o.eq_of_cmp q p,
    o.cmp_refl q,
    o.cmp_refl k,
  )

module _ {ℓ κ} {K : Type ℓ} {V : Type κ} ⦃o : Ord K⦄ where
  pub length-remove_le : (m : Map K V) (q : K) → length (remove m q) ≤ length m
  unfolding remove
  length-remove_le [] q = omega arith
  length-remove_le ((k, v) ∷ m) q = ground (arith, length-remove_le m q)

  pub length-remove_lt :
      (m : Map K V) (q : K) (v : V) → lookup m q ≡ some v → length (remove m q) < length m
  unfolding remove lookup
  length-remove_lt [] q w h = cc
  length-remove_lt ((k, v) ∷ m) q w h = ground (arith, length-remove_le m q, length-remove_lt m q w)

module _ {ℓ κ} {K : Type ℓ} {V : Type κ} ⦃o : Ord K⦄ where
  abbrev pub KeysAbove : K → Map K V → Type 0
  KeysAbove q [] = Unit
  KeysAbove q ((k, v) ∷ m) = (o.cmp q k ≡ lt) × KeysAbove q m

  -- The keys strictly increase, as a map of the library keeps them.
  abbrev pub Sorted : Map K V → Type 0
  Sorted [] = Unit
  Sorted ((k, v) ∷ m) = KeysAbove k m × Sorted m

  pub KeysAbove-trans : (a b : K) (m : Map K V) → o.cmp a b ≡ lt → KeysAbove b m → KeysAbove a m
  KeysAbove-trans a b [] h p = tt
  KeysAbove-trans a b ((k, v) ∷ m) h p = (o.lt_trans a b k h p.0, KeysAbove-trans a b m h p.1)

  KeysAbove-insert :
      (a : K) (m : Map K V) (q : K) (w : V)
      → o.cmp a q ≡ lt
      → KeysAbove a m
      → KeysAbove a (insert m q w)
  unfolding insert
  KeysAbove-insert a [] q w h p = (h, tt)
  KeysAbove-insert a ((k, v) ∷ m) q w h p = ground (arith, KeysAbove-insert a m q w)

  pub insert-Sorted : (m : Map K V) (q : K) (w : V) → Sorted m → Sorted (insert m q w)
  unfolding insert
  insert-Sorted [] q w s = (tt, tt)
  insert-Sorted ((k, v) ∷ m) q w s = ground (
    arith,
    insert-Sorted m q w,
    KeysAbove-insert k m q w,
    KeysAbove-trans q k m,
    o.lt_of_gt q k,
    o.eq_of_cmp q k,
  )

  pub lookup-KeysAbove : (q : K) (m : Map K V) → KeysAbove q m → lookup m q ≡ none
  unfolding lookup
  lookup-KeysAbove q [] p = refl
  lookup-KeysAbove q ((k, v) ∷ m) p = ground (arith, lookup-KeysAbove q m, o.gt_of_lt q k)

  KeysAbove-remove : (a : K) (m : Map K V) (q : K) → KeysAbove a m → KeysAbove a (remove m q)
  unfolding remove
  KeysAbove-remove a [] q p = tt
  KeysAbove-remove a ((k, v) ∷ m) q p = ground (arith, KeysAbove-remove a m q)

  pub remove-Sorted : (m : Map K V) (q : K) → Sorted m → Sorted (remove m q)
  unfolding remove
  remove-Sorted [] q s = tt
  remove-Sorted ((k, v) ∷ m) q s = ground (arith, remove-Sorted m q, KeysAbove-remove k m q)

  pub remove-KeysAbove : (q : K) (m : Map K V) → KeysAbove q m → remove m q ≡ m
  unfolding remove
  remove-KeysAbove q [] p = refl
  remove-KeysAbove q ((k, v) ∷ m) p = ground (arith, remove-KeysAbove q m, o.gt_of_lt q k)

  pub remove-head : (k : K) (v : V) (m : Map K V) → KeysAbove k m → remove ((k, v) ∷ m) k ≡ m
  unfolding remove
  remove-head k v m p = ground (arith, remove-KeysAbove k m, o.cmp_refl k)
