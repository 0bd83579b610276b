-- ===== src/Storage/Wal/Order.antt =====
-- Lists of records of increasing LSNs.
use quantadb.Prelude.{
  ℕ, ◌+◌, ◌<◌, ◌≡◌, refl, true, List, [], ◌∷◌, ◌++◌, arith, ap, ◌∙◌, sym, append-nil, append_assoc,
}
use quantadb.Bytes.{Bytes}
use quantadb.Storage.Log.{WalRecord}
use quantadb.Storage.Log.Frame.{IsRecord, image}
use quantadb.Storage.Log.Recovery.{Increasing, AllRecords, images}
use quantadb.Storage.Wal.{seam_is_monotonic}

-- Every LSN is below a bound.
abbrev pub Below : ℕ → List WalRecord → Type 0
Below next [] = Unit
Below next (r ∷ rs) = (r.lsn < next) × Below next rs

pub images-append :
    (crc : Bytes → ℕ) (rs : List WalRecord) (r : WalRecord)
    → images crc (rs ++ r ∷ []) ≡ images crc rs ++ image crc r
images-append crc [] r = append-nil (image crc r)
images-append crc (x ∷ rs) r =
    ap (λ t. image crc x ++ t) (images-append crc rs r)
    ∙ sym (append_assoc (image crc x) (images crc rs) (image crc r))

pub Increasing-append :
    (previous : ℕ) (rs : List WalRecord) (r : WalRecord)
    → Increasing previous rs
    → Below r.lsn rs
    → previous < r.lsn
    → Increasing previous (rs ++ r ∷ [])
Increasing-append previous [] r i b p = (p, tt)
Increasing-append previous (x ∷ rs) r i b p = (i.0, Increasing-append x.lsn rs r i.1 b.1 b.0)

pub AllRecords-append :
    (rs : List WalRecord) (r : WalRecord) → AllRecords rs → IsRecord r → AllRecords (rs ++ r ∷ [])
AllRecords-append [] r v h = (h, tt)
AllRecords-append (x ∷ rs) r v h = (v.0, AllRecords-append rs r v.1 h)

pub Below-append :
    (n : ℕ) (rs : List WalRecord) (r : WalRecord)
    → Below n rs
    → r.lsn ≡ n
    → Below (n + 1) (rs ++ r ∷ [])
Below-append n [] r b e = (omega arith, tt)
Below-append n (x ∷ rs) r b e = (omega (arith, b.0), Below-append n rs r b.1 e)

-- The parts of an increasing list, and where they meet.
pub Increasing-left : (p : ℕ) (xs ys : List WalRecord) → Increasing p (xs ++ ys) → Increasing p xs
Increasing-left p [] ys i = tt
Increasing-left p (a ∷ xs) ys i = (i.0, Increasing-left a.lsn xs ys i.1)

pub Increasing-right : (p : ℕ) (xs ys : List WalRecord) → Increasing p (xs ++ ys) → Increasing p ys
Increasing-right p [] ys i = i
Increasing-right p (a ∷ xs) [] i = tt
Increasing-right p (a ∷ xs) (b ∷ ys) i =
    let rest = Increasing-right a.lsn xs (b ∷ ys) i.1 in (omega (arith, i.0, rest.0), rest.1)

pub AllRecords-left : (xs ys : List WalRecord) → AllRecords (xs ++ ys) → AllRecords xs
AllRecords-left [] ys v = tt
AllRecords-left (a ∷ xs) ys v = (v.0, AllRecords-left xs ys v.1)

pub AllRecords-right : (xs ys : List WalRecord) → AllRecords (xs ++ ys) → AllRecords ys
AllRecords-right [] ys v = v
AllRecords-right (a ∷ xs) ys v = AllRecords-right xs ys v.1

pub seam :
    (p : ℕ) (xs : List WalRecord) (b : WalRecord) (ys : List WalRecord)
    → Increasing p (xs ++ b ∷ ys)
    → seam_is_monotonic xs (b ∷ ys) ≡ true
seam p [] b ys i = refl
seam p (a ∷ []) b ys i = ground (arith, i)
seam p (a ∷ c ∷ xs) b ys i = ground (arith, seam a.lsn (c ∷ xs) b ys i.1)
