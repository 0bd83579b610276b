-- ===== src/Mvcc/Transaction/Overlay.antt =====
-- What the loops of `scan_prefix` over the versions and over the own writes leave of each key.
use quantadb.Prelude.{
  ℕ, ◌≡◌, refl, true, false, Option, none, some, List, [], ◌∷◌, if◌then◌else◌, ◌||◌, arith,
}
use quantadb.Prelude.Ord.{same, eq_of_same, same_refl, nat_ord, bytes_ord}
use quantadb.Prelude.Map.{
  Map, lookup, insert, remove, lookup-insert, lookup-remove, Sorted, KeysAbove, lookup-KeysAbove,
}
use quantadb.Prelude.Seq.{is_some}
use quantadb.Bytes.{Bytes, starts_with}
use quantadb.Mvcc.Prefix.{version_range, prefix_end, in_range}
use quantadb.Mvcc.State.{State, Version, versions_of, visible_version}
use quantadb.Mvcc.Commit.{Write}
use quantadb.Mvcc.Transaction.{put_live, put_visible, mask_key, scan_versions, scan_writes}

-- What the versions show of a key.
abbrev pub seen_in : ℕ → Map Bytes (List Version) → Bytes → Option Version
seen_in snapshot m key = elim (lookup m key) [ none ↦ none | some vs ↦ visible_version vs snapshot ]

abbrev pub live_over : Option Version → Option Bytes → Option Bytes
live_over none before = before
live_over (some v) before = elim v.value [ none ↦ before | some value ↦ some value ]

pub lookup-put_live :
    (results : Map Bytes Bytes) (key q : Bytes) (value : Option Bytes)
    → lookup (put_live results key value) q ≡ (
        if same key q
        then elim value [ none ↦ lookup results q | some v ↦ some v ]
        else lookup results q)
lookup-put_live results key q none = ground arith
lookup-put_live results key q (some v) = lookup-insert results key q v

lookup-put_visible :
    (results : Map Bytes Bytes) (key q : Bytes) (visible : Option Version)
    → lookup (put_visible results key visible) q
      ≡ (if same key q then live_over visible (lookup results q) else lookup results q)
lookup-put_visible results key q none = ground arith
lookup-put_visible results key q (some v) = ground (arith, lookup-put_live results key q v.value)

lookup-mask_key :
    (masked : Map Bytes (Unit {0})) (key q : Bytes) (visible : Option Version)
    → is_some (lookup (mask_key masked key visible) q) ≡ (
        if same key q
        then is_some visible || is_some (lookup masked q)
        else is_some (lookup masked q))
lookup-mask_key masked key q none = ground arith
lookup-mask_key masked key q (some v) = ground (arith, lookup-insert masked key q tt)

pub masked-scan_versions :
    (n : ℕ) (m : Map Bytes (List Version)) (masked : Map Bytes (Unit {0}))
    (results : Map Bytes Bytes) (q : Bytes)
    → Sorted m
    → is_some (lookup (scan_versions n m masked results).0 q)
      ≡ (is_some (seen_in n m q) || is_some (lookup masked q))
unfolding scan_versions lookup
masked-scan_versions n [] masked results q p = refl
masked-scan_versions n ((key, vs) ∷ m) masked results q p = ground (
  arith,
  masked-scan_versions n m (mask_key masked key (visible_version vs n))
      (put_visible results key (visible_version vs n)) q p.1,
  lookup-mask_key masked key q (visible_version vs n),
  eq_of_same key q,
  lookup-KeysAbove key m p.0,
)

pub results-scan_versions :
    (n : ℕ) (m : Map Bytes (List Version)) (masked : Map Bytes (Unit {0}))
    (results : Map Bytes Bytes) (q : Bytes)
    → Sorted m
    → lookup (scan_versions n m masked results).1 q ≡ live_over (seen_in n m q) (lookup results q)
unfolding scan_versions lookup
results-scan_versions n [] masked results q p = refl
results-scan_versions n ((key, vs) ∷ m) masked results q p = ground (
  arith,
  results-scan_versions n m (mask_key masked key (visible_version vs n))
      (put_visible results key (visible_version vs n)) q p.1,
  lookup-put_visible results key q (visible_version vs n),
  eq_of_same key q,
  lookup-KeysAbove key m p.0,
)

lookup-version_range :
    (m : Map Bytes (List Version)) (prefix q : Bytes)
    → lookup (version_range m prefix) q
      ≡ (if in_range prefix (prefix_end prefix) q then lookup m q else none)
unfolding version_range lookup
lookup-version_range [] prefix q = ground arith
lookup-version_range ((key, vs) ∷ m) prefix q =
    ground (arith, lookup-version_range m prefix q, eq_of_same key q)

version_range-KeysAbove :
    (a : Bytes) (m : Map Bytes (List Version)) (prefix : Bytes)
    → KeysAbove a m
    → KeysAbove a (version_range m prefix)
unfolding version_range
version_range-KeysAbove a [] prefix p = tt
version_range-KeysAbove a ((key, vs) ∷ m) prefix p =
    ground (arith, version_range-KeysAbove a m prefix)

pub version_range-Sorted :
    (m : Map Bytes (List Version)) (prefix : Bytes) → Sorted m → Sorted (version_range m prefix)
unfolding version_range
version_range-Sorted [] prefix p = tt
version_range-Sorted ((key, vs) ∷ m) prefix p =
    ground (arith, version_range-Sorted m prefix, version_range-KeysAbove key m prefix)

-- a range shows what the whole map shows of a key in it
pub seen_in-version_range :
    (n : ℕ) (s : State) (prefix q : Bytes)
    → in_range prefix (prefix_end prefix) q ≡ true
    → seen_in n (version_range s.versions prefix) q ≡ visible_version (versions_of s q) n
unfolding visible_version
seen_in-version_range n s prefix q i = ground (arith, lookup-version_range s.versions prefix q)

pub seen_in-outside :
    (n : ℕ) (m : Map Bytes (List Version)) (prefix q : Bytes)
    → in_range prefix (prefix_end prefix) q ≡ false
    → seen_in n (version_range m prefix) q ≡ none
seen_in-outside n m prefix q i = ground (arith, lookup-version_range m prefix q)

pub lookup_nil {ℓ} : {V : Type ℓ} (q : Bytes) → lookup {V = V} [] q ≡ none
unfolding lookup
lookup_nil q = refl

pub lookup-scan_writes :
    (prefix : Bytes) (writes : List Write) (results : Map Bytes Bytes) (q : Bytes)
    → Sorted writes
    → lookup (scan_writes prefix writes results) q ≡ (
        if starts_with q prefix
        then elim (lookup writes q) [ none ↦ lookup results q | some value ↦ value ]
        else lookup results q)
unfolding scan_writes lookup
lookup-scan_writes prefix [] results q p = ground arith
lookup-scan_writes prefix ((key, none) ∷ writes) results q p = ground (
  arith,
  lookup-scan_writes prefix writes (if starts_with key prefix then remove results key else results)
      q p.1,
  lookup-remove results key q,
  eq_of_same key q,
  same_refl q,
  lookup-KeysAbove key writes p.0,
)
lookup-scan_writes prefix ((key, some v) ∷ writes) results q p = ground (
  arith,
  lookup-scan_writes prefix writes
      (if starts_with key prefix then insert results key v else results) q p.1,
  lookup-insert results key q v,
  eq_of_same key q,
  same_refl q,
  lookup-KeysAbove key writes p.0,
)
