-- ===== src/Prelude/Ord.antt =====
-- `Ord` with the laws that the trait asks of `cmp`; numbers, and byte strings in dictionary order.
use Prim.Native.Nat.{ℕ, compare, Ordering}
use Prim.Native.Nat.Ordering.{lt, eq, gt}
use mathlib.Core.Path.{◌≡◌, refl}
use mathlib.Core.Bool.{Bool, true, false}
use mathlib.Core.List.{List, [], ◌∷◌}
use native.Mathlib.Omega.{arith}

pub record Ord {κ} (Key : Type κ) : Type κ where
  pub cmp : Key → Key → Ordering
  pub lt_trans : (low mid high : Key) → cmp low mid ≡ lt → cmp mid high ≡ lt → cmp low high ≡ lt
  pub gt_of_lt : (x y : Key) → cmp x y ≡ lt → cmp y x ≡ gt
  pub cmp_refl : (x : Key) → cmp x x ≡ eq
  pub lt_of_gt : (x y : Key) → cmp x y ≡ gt → cmp y x ≡ lt
  pub eq_of_cmp : (x y : Key) → cmp x y ≡ eq → x ≡ y

pub compare_refl : (a : ℕ) → compare a a ≡ eq
compare_refl a = ground arith

pub compare-eq : (a b : ℕ) → compare a b ≡ eq → a ≡ b
compare-eq a b h = ground arith

pub compare-gt : (a b : ℕ) → compare a b ≡ gt → compare b a ≡ lt
compare-gt a b h = ground arith

pub compare-lt : (a b : ℕ) → compare a b ≡ lt → compare b a ≡ gt
compare-lt a b h = ground arith

pub compare_trans : (a b c : ℕ) → compare a b ≡ lt → compare b c ≡ lt → compare a c ≡ lt
compare_trans a b c h k = ground arith

instance abbrev pub nat_ord : Ord ℕ
nat_ord = record {
  cmp = compare;
  cmp_refl = compare_refl;
  eq_of_cmp = compare-eq;
  lt_of_gt = compare-gt;
  gt_of_lt = compare-lt;
  lt_trans = compare_trans;
}

-- The order of `[u8]`: the first difference decides, and a prefix comes first.
abbrev pub compare_bytes : List ℕ → List ℕ → Ordering
compare_bytes [] [] = eq
compare_bytes [] (y ∷ ys) = lt
compare_bytes (x ∷ xs) [] = gt
compare_bytes (x ∷ xs) (y ∷ ys) =
    let rest = compare_bytes xs ys in elim (compare x y) [ lt ↦ lt | eq ↦ rest | gt ↦ gt ]

pub compare_bytes_refl : (a : List ℕ) → compare_bytes a a ≡ eq
compare_bytes_refl [] = refl
compare_bytes_refl (x ∷ xs) = ground (arith, compare_bytes_refl xs)

pub compare_bytes-eq : (a b : List ℕ) → compare_bytes a b ≡ eq → a ≡ b
compare_bytes-eq [] [] h = refl
compare_bytes-eq [] (y ∷ ys) h = cc
compare_bytes-eq (x ∷ xs) [] h = cc
compare_bytes-eq (x ∷ xs) (y ∷ ys) h = ground (arith, compare_bytes-eq xs ys)

pub compare_bytes-gt : (a b : List ℕ) → compare_bytes a b ≡ gt → compare_bytes b a ≡ lt
compare_bytes-gt [] [] h = cc
compare_bytes-gt [] (y ∷ ys) h = cc
compare_bytes-gt (x ∷ xs) [] h = refl
compare_bytes-gt (x ∷ xs) (y ∷ ys) h = ground (arith, compare_bytes-gt xs ys)

pub compare_bytes-lt : (a b : List ℕ) → compare_bytes a b ≡ lt → compare_bytes b a ≡ gt
compare_bytes-lt [] [] h = cc
compare_bytes-lt [] (y ∷ ys) h = refl
compare_bytes-lt (x ∷ xs) [] h = cc
compare_bytes-lt (x ∷ xs) (y ∷ ys) h = ground (arith, compare_bytes-lt xs ys)

pub compare_bytes_trans :
    (a b c : List ℕ) → compare_bytes a b ≡ lt → compare_bytes b c ≡ lt → compare_bytes a c ≡ lt
compare_bytes_trans [] [] c h k = cc
compare_bytes_trans [] (y ∷ ys) [] h k = cc
compare_bytes_trans [] (y ∷ ys) (z ∷ zs) h k = refl
compare_bytes_trans (x ∷ xs) [] c h k = cc
compare_bytes_trans (x ∷ xs) (y ∷ ys) [] h k = cc
compare_bytes_trans (x ∷ xs) (y ∷ ys) (z ∷ zs) h k = ground (arith, compare_bytes_trans xs ys zs)

instance abbrev pub bytes_ord : Ord (List ℕ)
bytes_ord = record {
  cmp = compare_bytes;
  cmp_refl = compare_bytes_refl;
  eq_of_cmp = compare_bytes-eq;
  lt_of_gt = compare_bytes-gt;
  gt_of_lt = compare_bytes-lt;
  lt_trans = compare_bytes_trans;
}

-- `a == b`, as the order decides it.
abbrev pub same {ℓ} : {K : Type ℓ} ⦃o : Ord K⦄ → K → K → Bool
same ⦃o⦄ a b = elim (o.cmp a b) [ eq ↦ true | _ ↦ false ]

pub eq_of_same {ℓ} : {K : Type ℓ} ⦃o : Ord K⦄ (a b : K) → same a b ≡ true → a ≡ b
eq_of_same ⦃o⦄ a b h = ground (arith, o.eq_of_cmp a b)

pub same_refl {ℓ} : {K : Type ℓ} ⦃o : Ord K⦄ (a : K) → same a a ≡ true
same_refl ⦃o⦄ a = rw (o.cmp_refl a, same) refl
