-- ===== src/Mvcc/Commit/Growth.antt =====
-- The version list of one key, and what a snapshot sees of it, as a commit is published.
use quantadb.Prelude.{
  ℕ, ◌≤◌, ◌<◌, ◌≡◌, ltb, refl, Bool, true, false, Option, none, some, List, if◌then◌else◌, arith,
  Bool-cases, inl, inr, ◌⊎◌, ◌∙◌,
}
use quantadb.Prelude.Ord.{nat_ord, bytes_ord}
use quantadb.Prelude.Seq.{insert_at}
use quantadb.Bytes.{Bytes}
use quantadb.Mvcc.State.{Version, visible_version}
use quantadb.Mvcc.State.Versions.{
  Ascending, newest, insert_at-Ascending, newest-insert_at, visible_version-insert_at,
  visible_version-insert_at_place, seen_after,
}
use quantadb.Mvcc.Commit.{has_timestamp, position_of}

-- The versions of one key before and after publishing at a timestamp.
pub record Grown (timestamp : ℕ) (written : Bool) (vs vs' : List Version) : Type 0 where
  pub ascending : Ascending vs → Ascending vs'
  pub newest_kept : Ascending vs → newest vs ≤ newest vs'
  pub newest_written : Ascending vs → written ≡ true → timestamp ≤ newest vs'
  pub seen :
      (snapshot : ℕ)
      → snapshot < timestamp
      → visible_version vs' snapshot ≡ visible_version vs snapshot

pub Grown-refl : (t : ℕ) (vs : List Version) → Grown t false vs vs
Grown-refl t vs = record {
  ascending = λ a. a;
  newest_kept = λ a. omega arith;
  newest_written = λ a e. cc;
  seen = λ n h. refl;
}

pub Grown-trans :
    (t : ℕ) (b c d : Bool) (vs us ws : List Version)
    → (d ≡ true → (b ≡ true) ⊎ (c ≡ true))
    → Grown t b vs us
    → Grown t c us ws
    → Grown t d vs ws
Grown-trans t b c d vs us ws split p q = record {
  ascending = λ a. q.ascending (p.ascending a);
  newest_kept = λ a. omega (arith, p.newest_kept a, q.newest_kept (p.ascending a));
  newest_written = λ a e. elim (split e) [
    | inl first ↦ omega (arith, p.newest_written a first, q.newest_kept (p.ascending a))
    | inr rest ↦ q.newest_written (p.ascending a) rest
  ];
  seen = λ n h. q.seen n h ∙ p.seen n h;
}

pub Grown-insert_at :
    (t : ℕ) (vs : List Version) (value : Option Bytes) (page_id : ℕ)
    → has_timestamp t vs ≡ false
    → Grown t true vs (
        insert_at vs
          (position_of t vs)
          (record { timestamp = t; value = value; page_id = page_id }))
Grown-insert_at t vs value page_id fresh =
    let v : Version = record { timestamp = t; value = value; page_id = page_id } in
    record {
      ascending = λ a. insert_at-Ascending vs v a fresh;
      newest_kept = λ a. omega (arith, newest-insert_at vs v a);
      newest_written = λ a e. omega (arith, newest-insert_at vs v a);
      seen = λ n h. visible_version-insert_at vs (position_of t vs) v n h;
    }

-- What a snapshot sees of a key once it is stored at a timestamp, by what it saw before.
abbrev pub seen_with : ℕ → ℕ → Option (Option Bytes × ℕ) → Option Version → Option Version
seen_with timestamp snapshot none before = before
seen_with timestamp snapshot (some (value, page_id)) before =
    if ltb snapshot timestamp
    then before
    else seen_after before (record { timestamp = timestamp; value = value; page_id = page_id })

pub seen_with-insert_at :
    (t n : ℕ) (vs : List Version) (value : Option Bytes) (page_id : ℕ)
    → has_timestamp t vs ≡ false
    → Ascending vs
    → visible_version
        (insert_at vs
          (position_of t vs)
          (record { timestamp = t; value = value; page_id = page_id }))
        n
      ≡ seen_with t n (some (value, page_id)) (visible_version vs n)
seen_with-insert_at t n vs value page_id fresh a =
    let v : Version = record { timestamp = t; value = value; page_id = page_id } in
    elim (Bool-cases (ltb n t)) [
      | inl e ↦ rw e (visible_version-insert_at vs (position_of t vs) v n (ground arith))
      | inr e ↦ rw e (visible_version-insert_at_place vs v n (ground arith) a fresh)
    ]

pub seen_with_trans :
    (t n : ℕ) (first rest : Option (Option Bytes × ℕ)) (before : Option Version)
    → seen_with t n rest (seen_with t n first before)
      ≡ seen_with t n (elim rest [ some stored ↦ some stored | none ↦ first ]) before
seen_with_trans t n none none before = refl
seen_with_trans t n (some (value, page_id)) none before = refl
seen_with_trans t n none (some (value, page_id)) before = refl
seen_with_trans t n (some (value, page_id)) (some (value', page_id')) none = ground arith
seen_with_trans t n (some (value, page_id)) (some (value', page_id')) (some u) = ground arith
