-- ===== src/Mvcc/State/Snapshots.antt =====
-- The oldest active snapshot is a lower bound of what any transaction reads at.
use quantadb.Prelude.{
  ℕ, ◌≤◌, ◌≡◌, Option, none, some, [], ◌∷◌, leb, if◌then◌else◌, arith, Option-cases, inl, inr, ◌⊎◌,
  refl,
}
use quantadb.Prelude.Ord.{nat_ord}
use quantadb.Prelude.Map.{Map, lookup, insert, remove}
use quantadb.Prelude.Seq.{All}
use quantadb.Mvcc.State.{State, min_value, oldest_active_snapshot}

abbrev pub AllValues : ℕ → Map ℕ ℕ → Type 0
AllValues n m = All (λ entry. entry.1 ≤ n) m

pub AllValues-insert :
    (n : ℕ) (m : Map ℕ ℕ) (k v : ℕ) → v ≤ n → AllValues n m → AllValues n (insert m k v)
unfolding insert
AllValues-insert n [] k v h a = (h, tt)
AllValues-insert n ((j, w) ∷ m) k v h a = ground (arith, AllValues-insert n m k v)

pub AllValues-remove : (n : ℕ) (m : Map ℕ ℕ) (k : ℕ) → AllValues n m → AllValues n (remove m k)
unfolding remove
AllValues-remove n [] k a = tt
AllValues-remove n ((j, w) ∷ m) k a = ground (arith, AllValues-remove n m k)

pub AllValues-mono : (a b : ℕ) (m : Map ℕ ℕ) → a ≤ b → AllValues a m → AllValues b m
AllValues-mono a b [] h p = tt
AllValues-mono a b ((j, w) ∷ m) h p = (omega arith, AllValues-mono a b m h p.1)

-- the least value of an entry and of those behind it
min_value-cons :
    (j v : ℕ) (m : Map ℕ ℕ) (w : ℕ)
    → min_value ((j, v) ∷ m) ≡ some w
    → (w ≤ v) × ((u : ℕ) → min_value m ≡ some u → w ≤ u) × ((w ≡ v) ⊎ (min_value m ≡ some w))
unfolding min_value
min_value-cons j v m w h = elim (Option-cases (min_value m)) [
  | inl e ↦ (ground arith, λ u f. ground arith, ground arith)
  | inr (u, e) ↦ (ground arith, λ u f. ground arith, ground arith)
]

min_value-some : (j v : ℕ) (m : Map ℕ ℕ) → (w : ℕ) × (min_value ((j, v) ∷ m) ≡ some w)
unfolding min_value
min_value-some j v m = elim (Option-cases (min_value m)) [
  | inl e ↦ (v, ground arith)
  | inr (u, e) ↦ ((if leb v u then v else u), ground arith)
]

min_value-le : (m : Map ℕ ℕ) (k v w : ℕ) → lookup m k ≡ some v → min_value m ≡ some w → w ≤ v
unfolding lookup
min_value-le [] k v w h e = cc
min_value-le ((j, u) ∷ []) k v w h e = ground (arith, min_value-cons j u [] w e)
min_value-le ((j, u) ∷ (i, t) ∷ m) k v w h e =
    let (least, some_least) = min_value-some i t m in
    let (below, behind, which) = min_value-cons j u ((i, t) ∷ m) w e in
    ground (arith, min_value-le ((i, t) ∷ m) k v least, behind least)

min_value-ne-none : (m : Map ℕ ℕ) (k v : ℕ) → lookup m k ≡ some v → min_value m ≡ none → ⊥
unfolding lookup
min_value-ne-none [] k v h e = cc
min_value-ne-none ((j, u) ∷ m) k v h e = let (w, f) = min_value-some j u m in cc

min_value_bounded : (m : Map ℕ ℕ) (n w : ℕ) → AllValues n m → min_value m ≡ some w → w ≤ n
unfolding min_value
min_value_bounded [] n w a h = cc
min_value_bounded ((j, v) ∷ m) n w a h =
    ground (arith, (min_value-cons j v m w h).2, min_value_bounded m n w a.1)

pub oldest_active_snapshot-le :
    (s : State) (id snapshot : ℕ)
    → lookup s.active id ≡ some snapshot
    → oldest_active_snapshot s ≤ snapshot
unfolding oldest_active_snapshot
oldest_active_snapshot-le s id snapshot h = elim (Option-cases (min_value s.active)) [
  | inl e ↦ absurd (min_value-ne-none s.active id snapshot h e)
  | inr (w, e) ↦ ground (arith, min_value-le s.active id snapshot w h e)
]

pub oldest_active_snapshot-le_visible :
    (s : State)
    → AllValues s.visible_through s.active
    → oldest_active_snapshot s ≤ s.visible_through
unfolding oldest_active_snapshot
oldest_active_snapshot-le_visible s a = elim (Option-cases (min_value s.active)) [
  | inl e ↦ ground arith
  | inr (w, e) ↦ ground (arith, min_value_bounded s.active s.visible_through w a)
]

abbrev pub AtLeast : ℕ → Map ℕ ℕ → Type 0
AtLeast n m = All (λ entry. n ≤ entry.1) m

pub AtLeast-insert :
    (n : ℕ) (m : Map ℕ ℕ) (k v : ℕ) → n ≤ v → AtLeast n m → AtLeast n (insert m k v)
unfolding insert
AtLeast-insert n [] k v h a = (h, tt)
AtLeast-insert n ((j, w) ∷ m) k v h a = ground (arith, AtLeast-insert n m k v)

pub AtLeast-remove : (n : ℕ) (m : Map ℕ ℕ) (k : ℕ) → AtLeast n m → AtLeast n (remove m k)
unfolding remove
AtLeast-remove n [] k a = tt
AtLeast-remove n ((j, w) ∷ m) k a = ground (arith, AtLeast-remove n m k)

found_first : (j v : ℕ) (m : Map ℕ ℕ) → lookup ((j, v) ∷ m) j ≡ some v
unfolding lookup
found_first j v m = ground arith

AtLeast-mono : (a b : ℕ) (m : Map ℕ ℕ) → b ≤ a → AtLeast a m → AtLeast b m
AtLeast-mono a b [] h p = tt
AtLeast-mono a b ((j, w) ∷ m) h p = (omega arith, AtLeast-mono a b m h p.1)

AtLeast-min_value : (m : Map ℕ ℕ) (w : ℕ) → min_value m ≡ some w → AtLeast w m
AtLeast-min_value [] w h = tt
AtLeast-min_value ((j, v) ∷ []) w h = ((min_value-cons j v [] w h).0, tt)
AtLeast-min_value ((j, v) ∷ (i, t) ∷ m) w h =
    let (least, e) = min_value-some i t m in
    let (below, behind, which) = min_value-cons j v ((i, t) ∷ m) w h in
    (
      below,
      AtLeast-mono least w ((i, t) ∷ m) (behind least e) (AtLeast-min_value ((i, t) ∷ m) least e),
    )

min_value-AtLeast : (m : Map ℕ ℕ) (n w : ℕ) → AtLeast n m → min_value m ≡ some w → n ≤ w
unfolding min_value
min_value-AtLeast [] n w a h = cc
min_value-AtLeast ((j, v) ∷ m) n w a h =
    ground (arith, (min_value-cons j v m w h).2, min_value-AtLeast m n w a.1)

-- The oldest active snapshot is the greatest lower bound of the active ones and the watermark.
pub oldest_active_snapshot_lower : (s : State) → AtLeast (oldest_active_snapshot s) s.active
unfolding oldest_active_snapshot
oldest_active_snapshot_lower s = lower s.active (min_value s.active) refl
  where
    lower :
        (m : Map ℕ ℕ) (found : Option ℕ)
        → min_value m ≡ found
        → AtLeast (elim found [ some v ↦ v | none ↦ s.visible_through ]) m
    lower [] found h = tt
    lower ((j, v) ∷ m) none h =
        let (w, e) = min_value-some j v m in
        absurd (min_value-ne-none ((j, v) ∷ m) j v (found_first j v m) h)
    lower ((j, v) ∷ m) (some w) h = AtLeast-min_value ((j, v) ∷ m) w h

pub oldest_active_snapshot_greatest :
    (s : State) (n : ℕ) → AtLeast n s.active → n ≤ s.visible_through → n ≤ oldest_active_snapshot s
unfolding oldest_active_snapshot
oldest_active_snapshot_greatest s n a h = elim (Option-cases (min_value s.active)) [
  | inl e ↦ ground arith
  | inr (w, e) ↦ ground (arith, min_value-AtLeast s.active n w a)
]

pub le_of_AllValues : (n : ℕ) (m : Map ℕ ℕ) (k v : ℕ) → AllValues n m → lookup m k ≡ some v → v ≤ n
unfolding lookup
le_of_AllValues n [] k v a h = cc
le_of_AllValues n ((j, w) ∷ m) k v a h = ground (arith, le_of_AllValues n m k v)

-- The oldest active snapshot reads the active transactions and the watermark only.
pub oldest_active_snapshot-same :
    (s s' : State)
    → s'.active ≡ s.active
    → s'.visible_through ≡ s.visible_through
    → oldest_active_snapshot s' ≡ oldest_active_snapshot s
unfolding oldest_active_snapshot
oldest_active_snapshot-same s s' a v = rw (a, v) refl
