-- ===== src/Mvcc/Reclaim/Sweeping.antt =====
-- What the sweep leaves of one key's versions.
use quantadb.Prelude.{
  ℕ, zero, suc, ◌≤◌, ◌≡◌, refl, Bool, true, false, Option, none, some, List, [], ◌∷◌, drop, leb,
  arith, ap,
}
use quantadb.Prelude.Ord.{nat_ord, bytes_ord}
use quantadb.Prelude.Map.{lookup}
use quantadb.Prelude.Seq.{rposition, find_last, last, is_some}
use quantadb.Bytes.{Bytes}
use quantadb.Mvcc.State.{State, Version, visible_version}
use quantadb.Mvcc.State.Versions.{Ascending, newest}
use quantadb.Mvcc.Reclaim.{superseded, fully_covered, retains}

-- The versions of a key before and after a sweep that keeps the key.
pub record Trimmed (oldest_active : ℕ) (vs vs' : List Version) : Type 0 where
  pub ascending : Ascending vs → Ascending vs'
  pub newest_same : newest vs' ≡ newest vs
  pub seen :
      (snapshot : ℕ)
      → oldest_active ≤ snapshot
      → visible_version vs' snapshot ≡ visible_version vs snapshot

drop-Ascending : (n : ℕ) (vs : List Version) → Ascending vs → Ascending (drop n vs)
drop-Ascending zero vs a = a
drop-Ascending (suc n) [] a = a
drop-Ascending (suc n) (v ∷ vs) a = drop-Ascending n vs a.1

-- Dropping what stands in front of a version that the snapshot sees changes nothing for it.
drop-seen :
    (p q : Version → Bool) (vs : List Version) (i : ℕ)
    → ((v : Version) → p v ≡ true → q v ≡ true)
    → rposition p vs ≡ some i
    → (find_last q (drop i vs) ≡ find_last q vs)
      × (is_some (find_last q (drop i vs)) ≡ true)
      × (last (drop i vs) ≡ last vs)
      × (is_some (last vs) ≡ true)
drop-seen p q [] i imp h = cc
drop-seen p q (v ∷ vs) zero imp h = (refl, ground (arith, imp v), refl, ground arith)
drop-seen p q (v ∷ vs) (suc i) imp h =
    let at_rest : rposition p vs ≡ some i = ground arith in
    let (a, b, c, d) = drop-seen p q vs i imp at_rest in
    (ground arith, b, ground arith, ground arith)

-- Under `superseded`, by the position that it finds.
drop_position-Trimmed :
    (oldest_active : ℕ) (vs : List Version) (found : Option ℕ)
    → rposition (λ v. leb v.timestamp oldest_active) vs ≡ found
    → Trimmed oldest_active vs (drop (elim found [ none ↦ 0 | some i ↦ i ]) vs)
unfolding visible_version
drop_position-Trimmed oldest_active vs none e = record {
  ascending = λ a. a;
  newest_same = refl;
  seen = λ n h. refl;
}
drop_position-Trimmed oldest_active vs (some i) e = record {
  ascending = drop-Ascending i vs;
  newest_same =
      ap (λ (l : Option Version). newest_of l)
        (drop-seen (λ v. leb v.timestamp oldest_active) (λ v. leb v.timestamp oldest_active) vs i
          (λ v t. t) e).2;
  seen = λ n h.
      (drop-seen (λ v. leb v.timestamp oldest_active) (λ v. leb v.timestamp n) vs i
        (λ v t. leb_up v.timestamp n h t) e).0;
}
  where
    newest_of : Option Version → ℕ
    newest_of o = elim o [ some v ↦ v.timestamp | none ↦ 0 ]

    leb_up : (t n : ℕ) → oldest_active ≤ n → leb t oldest_active ≡ true → leb t n ≡ true
    leb_up t n h e = ground arith

pub drop-Trimmed :
    (oldest_active : ℕ) (vs : List Version)
    → Trimmed oldest_active vs (drop (superseded oldest_active vs) vs)
unfolding superseded
drop-Trimmed oldest_active vs = drop_position-Trimmed oldest_active vs _ refl

-- A key that the sweep drops has one version, at or below the covering generation; no commit since
-- the last build wrote it, and no commit is writing it.
pub dropped_lem :
    (s : State) (cover : Option ℕ) (key : Bytes) (vs : List Version)
    → retains s cover key vs ≡ false
    → (c : ℕ) × (cover ≡ some c)
      × (newest vs ≤ c)
      × (lookup s.intents key ≡ none)
      × (lookup s.dirty_keys key ≡ none)
unfolding retains fully_covered
dropped_lem s none key vs h = cc
dropped_lem s (some c) key [] h = cc
dropped_lem s (some c) key (v ∷ []) h = (c, refl, ground arith, ground arith, ground arith)
dropped_lem s (some c) key (v ∷ w ∷ vs) h = cc
