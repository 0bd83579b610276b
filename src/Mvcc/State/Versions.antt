-- ===== src/Mvcc/State/Versions.antt =====
-- The version list of one key: order, the newest timestamp, what a snapshot sees of it.
use quantadb.Prelude.{
  ℕ, zero, suc, ◌≤◌, ◌<◌, ◌≡◌, false, Option, none, some, if◌then◌else◌, List, [], ◌∷◌, ◌==◌, ltb,
  arith, max, get_elem?, tests, Option-cases, Bool-cases, inl, inr,
}
use quantadb.Prelude.Seq.{All, insert_at, partition_point, last, is_some_and}
use quantadb.Mvcc.State.{Version, visible_version}

abbrev pub Above : ℕ → List Version → Type 0
Above n vs = All (λ v. n < v.timestamp) vs

-- Strictly ascending timestamps.
abbrev pub Ascending : List Version → Type 0
Ascending [] = Unit
Ascending (v ∷ vs) = Above v.timestamp vs × Ascending vs

-- The timestamp of the last version; 0, which no commit has, of no version.
abbrev pub newest : List Version → ℕ
newest vs = elim (last vs) [ some v ↦ v.timestamp | none ↦ 0 ]

Above-trans : (a b : ℕ) (vs : List Version) → a ≤ b → Above b vs → Above a vs
Above-trans a b [] h p = tt
Above-trans a b (v ∷ vs) h p = (omega arith, Above-trans a b vs h p.1)

pub le_of_Above :
    (n : ℕ) (vs : List Version) (u : Version) → Above n vs → last vs ≡ some u → n < u.timestamp
le_of_Above n [] u p e = cc
le_of_Above n (v ∷ vs) u p e = ground (arith, le_of_Above n vs u p.1)

Above-insert_at :
    (n : ℕ) (vs : List Version) (i : ℕ) (v : Version)
    → n < v.timestamp
    → Above n vs
    → Above n (insert_at vs i v)
Above-insert_at n [] zero v h p = (h, tt)
Above-insert_at n [] (suc i) v h p = (h, tt)
Above-insert_at n (w ∷ vs) zero v h p = (h, p)
Above-insert_at n (w ∷ vs) (suc i) v h p = (p.0, Above-insert_at n vs i v h p.1)

-- A version put where its timestamp belongs leaves the list ascending, if the timestamp is new.
pub insert_at-Ascending :
    (vs : List Version) (v : Version)
    → Ascending vs
    → is_some_and
        (get_elem? vs (partition_point (λ w. ltb w.timestamp v.timestamp) vs))
        (λ w. w.timestamp == v.timestamp)
      ≡ false
    → Ascending (insert_at vs (partition_point (λ w. ltb w.timestamp v.timestamp) vs) v)
insert_at-Ascending [] v a h = (tt, tt)
insert_at-Ascending (w ∷ vs) v a h = elim (Bool-cases (ltb w.timestamp v.timestamp)) [
  | inl e ↦ rw e (
    Above-insert_at w.timestamp vs (partition_point (λ w. ltb w.timestamp v.timestamp) vs) v
        (omega tests) a.0,
    insert_at-Ascending vs v a.1 (rw e at h),
  )
  | inr e ↦ rw e ((ground arith, Above-trans v.timestamp w.timestamp vs (ground arith) a.0), a)
]

pub newest-insert_at :
    (vs : List Version) (v : Version)
    → Ascending vs
    → newest (insert_at vs (partition_point (λ w. ltb w.timestamp v.timestamp) vs) v)
      ≡ max v.timestamp (newest vs)
newest-insert_at [] v a = omega arith
newest-insert_at (w ∷ vs) v a = elim (Bool-cases (ltb w.timestamp v.timestamp)) [
  | inl e ↦ rw e (
      longer (insert_at vs (partition_point (λ w. ltb w.timestamp v.timestamp) vs) v)
        (newest-insert_at vs v a.1) (omega tests))
  | inr e ↦ rw e (front e)
]
  where
    longer :
        (ins : List Version)
        → newest ins ≡ max v.timestamp (newest vs)
        → w.timestamp < v.timestamp
        → newest (w ∷ ins) ≡ max v.timestamp (newest (w ∷ vs))
    longer ins h lt = ground arith

    front :
        ltb w.timestamp v.timestamp ≡ false
        → newest (v ∷ w ∷ vs) ≡ max v.timestamp (newest (w ∷ vs))
    front e = elim (Option-cases (last vs)) [
      | inl n ↦ ground arith
      | inr (u, n) ↦ let above = le_of_Above w.timestamp vs u a.0 n in ground arith
    ]

-- A version above the snapshot, wherever it is put, is not seen.
pub visible_version-insert_at :
    (vs : List Version) (i : ℕ) (v : Version) (snapshot : ℕ)
    → snapshot < v.timestamp
    → visible_version (insert_at vs i v) snapshot ≡ visible_version vs snapshot
unfolding visible_version
visible_version-insert_at [] zero v snapshot h = ground arith
visible_version-insert_at [] (suc i) v snapshot h = ground arith
visible_version-insert_at (w ∷ vs) zero v snapshot h = ground arith
visible_version-insert_at (w ∷ vs) (suc i) v snapshot h =
    ground (arith, visible_version-insert_at vs i v snapshot h)

-- What a snapshot that reaches a new version sees, by what it saw before it was put.
abbrev pub seen_after : Option Version → Version → Option Version
seen_after none v = some v
seen_after (some u) v = if ltb v.timestamp u.timestamp then some u else some v

visible-ge :
    (n : ℕ) (vs : List Version) (u : Version) (snapshot : ℕ)
    → Above n vs
    → visible_version vs snapshot ≡ some u
    → n < u.timestamp
unfolding visible_version
visible-ge n [] u snapshot a h = cc
visible-ge n (w ∷ vs) u snapshot a h = ground (arith, visible-ge n vs u snapshot a.1)

-- A version at or below the snapshot, put in its place, is seen unless a later one is.
pub visible_version-insert_at_place :
    (vs : List Version) (v : Version) (snapshot : ℕ)
    → v.timestamp ≤ snapshot
    → Ascending vs
    → is_some_and
        (get_elem? vs (partition_point (λ w. ltb w.timestamp v.timestamp) vs))
        (λ w. w.timestamp == v.timestamp)
      ≡ false
    → visible_version
        (insert_at vs (partition_point (λ w. ltb w.timestamp v.timestamp) vs) v)
        snapshot
      ≡ seen_after (visible_version vs snapshot) v
unfolding visible_version
visible_version-insert_at_place [] v snapshot h a fresh = ground arith
visible_version-insert_at_place (w ∷ vs) v snapshot h a fresh =
    elim (Bool-cases (ltb w.timestamp v.timestamp)) [
      | inl e ↦
          rw e (ground (arith, visible_version-insert_at_place vs v snapshot h a.1 (rw e at fresh)))
      | inr e ↦ rw e (elim (Option-cases (visible_version vs snapshot)) [
        | inl f ↦ ground arith
        | inr (u, f) ↦ let above = visible-ge w.timestamp vs u snapshot a.0 f in ground arith
      ])
    ]
