-- ===== src/Mvcc/Prefix/Range.antt =====
-- The range from a prefix to its `prefix_end` holds the keys with that prefix, and no other.
use quantadb.Prelude.{
  ℕ, zero, suc, ◌+◌, ◌<◌, ◌≡◌, refl, Option, none, some, ◌==◌, if◌then◌else◌, length, [], ◌∷◌,
  arith, ap, ◌∙◌,
}
use quantadb.Prelude.Map.{Map}
use quantadb.Prelude.Seq.{keep, All}
use quantadb.Bytes.{Bytes, starts_with, AllBytes}
use quantadb.Mvcc.Prefix.{prefix_end_scan, prefix_end, in_range, version_range}

-- `prefix_end` by recursion on the prefix
abbrev extend : ℕ → Option Bytes → Option Bytes
extend b (some end) = some (b ∷ end)
extend b none = if b == 255 then none else some ((b + 1) ∷ [])

prefix_end_scan-cons :
    (n b : ℕ) (bs : Bytes) → prefix_end_scan (suc n) (b ∷ bs) ≡ extend b (prefix_end_scan n bs)
unfolding prefix_end_scan
prefix_end_scan-cons zero b bs = refl
prefix_end_scan-cons (suc n) b bs = ground (arith, prefix_end_scan-cons n b bs)

prefix_end-cons : (b : ℕ) (bs : Bytes) → prefix_end (b ∷ bs) ≡ extend b (prefix_end bs)
unfolding prefix_end
prefix_end-cons b bs = prefix_end_scan-cons (length bs) b bs

in_range-extend :
    (p : ℕ) (prefix : Bytes) (x : ℕ) (key : Bytes) (end : Option Bytes)
    → x < 256
    → in_range prefix end key ≡ starts_with key prefix
    → in_range (p ∷ prefix) (extend p end) (x ∷ key) ≡ starts_with (x ∷ key) (p ∷ prefix)
in_range-extend p prefix x [] none k h = ground arith
in_range-extend p prefix x (y ∷ key) none k h = ground arith
in_range-extend p prefix x key (some end) k h = ground arith

-- A key lies in the range exactly when it starts with the prefix, for keys and prefixes of bytes.
pub in_range-prefix_end :
    (prefix key : Bytes)
    → AllBytes key
    → in_range prefix (prefix_end prefix) key ≡ starts_with key prefix
unfolding prefix_end prefix_end_scan
in_range-prefix_end [] [] k = refl
in_range-prefix_end [] (x ∷ key) k = refl
in_range-prefix_end (p ∷ prefix) [] k = refl
in_range-prefix_end (p ∷ prefix) (x ∷ key) k =
    ap (λ end. in_range (p ∷ prefix) end (x ∷ key)) (prefix_end-cons p prefix)
    ∙ in_range-extend p prefix x key (prefix_end prefix) k.0 (in_range-prefix_end prefix key k.1)

abbrev AllKeys {ℓ} : {V : Type ℓ} → Map Bytes V → Type 0
AllKeys versions = All (λ entry. AllBytes entry.0) versions

-- What a scan of a prefix visits: the entries of the map whose key has the prefix, in their order.
pub version_range-starts_with {ℓ} :
    {V : Type ℓ} (versions : Map Bytes V) (prefix : Bytes)
    → AllKeys versions
    → version_range versions prefix ≡ keep (λ entry. starts_with entry.0 prefix) versions
unfolding version_range
version_range-starts_with [] prefix k = refl
version_range-starts_with ((key, v) ∷ m) prefix k =
    rw (in_range-prefix_end prefix key k.0, version_range-starts_with m prefix k.1)
