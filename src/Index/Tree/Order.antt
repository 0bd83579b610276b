-- ===== src/Index/Tree/Order.antt =====
-- Entries in strict key order, cut in two.
use Prim.Native.Nat.Ordering.{lt}
use quantadb.Prelude.{◌≡◌, List, [], ◌∷◌, ◌++◌, map, arith}
use quantadb.Prelude.Ord.{compare_bytes, bytes_ord, compare_bytes_trans, compare_bytes_refl}
use quantadb.Prelude.Map.{Sorted, KeysAbove}
use quantadb.Prelude.Seq.{All}
use quantadb.Bytes.{Bytes}
use quantadb.Index.Node.{Entry}
use quantadb.Index.Node.Valid.{KeysIncrease}
use quantadb.Index.Tree.Lookup.{Below, AtLeast}

pub Sorted-KeysIncrease :
    (entries : List Entry) → Sorted entries → KeysIncrease (map (λ entry. entry.0) entries)
Sorted-KeysIncrease [] s = tt
Sorted-KeysIncrease (a ∷ []) s = tt
Sorted-KeysIncrease (a ∷ b ∷ entries) s =
    (ground (arith, s.0), Sorted-KeysIncrease (b ∷ entries) s.1)

pub All-append {ℓ κ} :
    {A : Type ℓ} (P : A → Type κ) (xs ys : List A) → All P (xs ++ ys) → All P xs × All P ys
All-append P [] ys h = (tt, h)
All-append P (x ∷ xs) ys h = let (left, right) = All-append P xs ys h.1 in ((h.0, left), right)

pub All-join {ℓ κ} :
    {A : Type ℓ} (P : A → Type κ) (xs ys : List A) → All P xs → All P ys → All P (xs ++ ys)
All-join P [] ys h k = k
All-join P (x ∷ xs) ys h k = (h.0, All-join P xs ys h.1 k)

KeysAbove-append :
    (key : Bytes) (xs ys : List Entry)
    → KeysAbove key (xs ++ ys)
    → KeysAbove key xs × KeysAbove key ys
KeysAbove-append key [] ys h = (tt, h)
KeysAbove-append key (x ∷ xs) ys h =
    let (left, right) = KeysAbove-append key xs ys h.1 in ((h.0, left), right)

pub Sorted-append : (xs ys : List Entry) → Sorted (xs ++ ys) → Sorted xs × Sorted ys
Sorted-append [] ys s = (tt, s)
Sorted-append (x ∷ xs) ys s =
    let (left, right) = Sorted-append xs ys s.1 in
    (((KeysAbove-append x.0 xs ys s.0).0, left), right)

-- what stands before an entry is less
pub Sorted-Below :
    (xs : List Entry) (y : Entry) (ys : List Entry) → Sorted (xs ++ (y ∷ ys)) → Below y.0 xs
Sorted-Below [] y ys s = tt
Sorted-Below (x ∷ xs) y ys s =
    ((KeysAbove-append x.0 xs (y ∷ ys) s.0).1.0, Sorted-Below xs y ys s.1)

pub KeysAbove-AtLeast : (key : Bytes) (ys : List Entry) → KeysAbove key ys → AtLeast key ys
KeysAbove-AtLeast key [] h = tt
KeysAbove-AtLeast key (y ∷ ys) h = (ground (arith, h.0), KeysAbove-AtLeast key ys h.1)

-- the first key is least
pub Sorted-AtLeast : (y : Entry) (ys : List Entry) → Sorted (y ∷ ys) → AtLeast y.0 (y ∷ ys)
Sorted-AtLeast y ys s = (ground (arith, compare_bytes_refl y.0), KeysAbove-AtLeast y.0 ys s.0)

-- less than a lesser key
pub Below-trans : (a b : Bytes) (xs : List Entry) → compare_bytes a b ≡ lt → Below a xs → Below b xs
Below-trans a b [] h p = tt
Below-trans a b (x ∷ xs) h p = (compare_bytes_trans x.0 a b p.0 h, Below-trans a b xs h p.1)

-- a first key over what comes behind a next one
pub KeysAbove-cons :
    (key : Bytes) (y : Entry) (ys zs : List Entry)
    → KeysAbove key (zs ++ (y ∷ ys))
    → compare_bytes key y.0 ≡ lt
KeysAbove-cons key y ys zs h = (KeysAbove-append key zs (y ∷ ys) h).1.0
