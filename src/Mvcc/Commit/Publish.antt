-- ===== src/Mvcc/Commit/Publish.antt =====
-- Publishing the versions of a commit.
use quantadb.Prelude.{
  ℕ, ◌≤◌, ◌≡◌, ◌+◌, ◌==◌, refl, Bool, true, false, Option, none, some, List, [], ◌∷◌, if◌then◌else◌,
  arith, ap, length, map, subst, sym, Bool-cases, inl, inr, ◌⊎◌, ◌∙◌,
}
use quantadb.Prelude.Result.{Result, ok, err}
use quantadb.Prelude.Ord.{nat_ord, bytes_ord, same, eq_of_same}
use quantadb.Prelude.Map.{Sorted, lookup, insert-Sorted, lookup-insert}
use quantadb.Prelude.Seq.{insert_at, any}
use quantadb.Bytes.{Bytes}
use quantadb.Mvcc.Error.{TransactionError}
use quantadb.Mvcc.State.{State, versions_of, visible_version}
use quantadb.Mvcc.State.Versions.{Ascending}
use quantadb.Mvcc.Commit.Growth.{
  Grown, Grown-refl, Grown-trans, Grown-insert_at, seen_with, seen_with-insert_at, seen_with_trans,
}
use quantadb.Mvcc.Commit.{
  Write, has_timestamp, push_version, publish_write, or_stop, publish_writes, position_of, bump,
}

abbrev pub keys_of : List Write → List Bytes
keys_of writes = map (λ w. w.0) writes

abbrev pub contains : List Bytes → Bytes → Bool
contains keys key = any (λ k. same k key) keys

-- What publishing leaves alone.
pub record SameControl (s s' : State) : Type 0 where
  pub intents : s'.intents ≡ s.intents
  pub active : s'.active ≡ s.active
  pub completed : s'.completed_timestamps ≡ s.completed_timestamps
  pub next_id : s'.next_transaction_id ≡ s.next_transaction_id
  pub next_commit : s'.next_commit_timestamp ≡ s.next_commit_timestamp
  pub visible : s'.visible_through ≡ s.visible_through
  pub generations : s'.generations ≡ s.generations
  pub reclaimed : s'.reclaimed_versions ≡ s.reclaimed_versions

-- The value and the page with which the loop stores a key, if the commit writes it.
abbrev pub written_as : List Write → List ℕ → Bytes → Option (Option Bytes × ℕ)
written_as [] ids key = none
written_as (w ∷ writes) [] key = none
written_as (w ∷ writes) (page_id ∷ ids) key = elim (written_as writes ids key) [
  | some stored ↦ some stored
  | none ↦ if same w.0 key then some (w.1, page_id) else none
]

-- How often a page is used by the stored versions.
abbrev pub stored_on : List Write → List ℕ → ℕ → ℕ
stored_on [] ids page = 0
stored_on (w ∷ writes) [] page = 0
stored_on (w ∷ writes) (page_id ∷ ids) page =
    (if page_id == page then 1 else 0) + stored_on writes ids page

abbrev pub or_zero : Option ℕ → ℕ
or_zero none = 0
or_zero (some n) = n

abbrev pub refs_to : State → ℕ → ℕ
refs_to s page = or_zero (lookup s.page_refs page)

pub record Published (timestamp : ℕ) (writes : List Write) (ids : List ℕ) (s s' : State)
    : Type 0 where
  pub control : SameControl s s'
  pub grown :
      (key : Bytes)
      → Grown timestamp (contains (keys_of writes) key) (versions_of s key) (versions_of s' key)
  pub stored :
      (key : Bytes) (snapshot : ℕ)
      → Ascending (versions_of s key)
      → visible_version (versions_of s' key) snapshot
        ≡ seen_with timestamp snapshot
            (written_as writes ids key)
            (visible_version (versions_of s key) snapshot)
  pub dirty :
      (key : Bytes)
      → lookup s'.dirty_keys key
        ≡ (if contains (keys_of writes) key then some tt else lookup s.dirty_keys key)
  pub counted : (page : ℕ) → refs_to s' page ≡ stored_on writes ids page + refs_to s page

push_version-Published :
    (t : ℕ) (w : Write) (page_id : ℕ) (s : State)
    → has_timestamp t (versions_of s w.0) ≡ false
    → Published t (w ∷ []) (page_id ∷ []) s (push_version t w page_id s)
unfolding push_version
push_version-Published t (k, value) page_id s fresh = record {
  control = record {
    intents = refl;
    active = refl;
    completed = refl;
    next_id = refl;
    next_commit = refl;
    visible = refl;
    generations = refl;
    reclaimed = refl;
  };
  grown = λ key. elim (Bool-cases (same k key)) [
    | inl e ↦
        rw (lookup-insert s.versions k key _, e)
          (subst
            (λ vs. Grown t true vs (
              insert_at (versions_of s k) (position_of t (versions_of s k))
                (record { timestamp = t; value = value; page_id = page_id })))
            (ap (versions_of s) (eq_of_same k key e))
            (Grown-insert_at t (versions_of s k) value page_id fresh))
    | inr e ↦ rw (lookup-insert s.versions k key _, e) (Grown-refl t (versions_of s key))
  ];
  stored = λ key n a. elim (Bool-cases (same k key)) [
    | inl e ↦
        let here : k ≡ key = eq_of_same k key e in
        rw (lookup-insert s.versions k key _, e)
          (subst
            (λ vs.
              visible_version
                (insert_at (versions_of s k) (position_of t (versions_of s k))
                  (record { timestamp = t; value = value; page_id = page_id }))
                n
              ≡ seen_with t n (some (value, page_id)) (visible_version vs n))
            (ap (versions_of s) here)
            (seen_with-insert_at t n (versions_of s k) value page_id fresh
              (subst (λ q. Ascending (versions_of s q)) (sym here) a)))
    | inr e ↦ rw (lookup-insert s.versions k key _, e) refl
  ];
  dirty = λ key. ground (arith, lookup-insert s.dirty_keys k key tt);
  counted = λ page.
      ground (arith, lookup-insert s.page_refs page_id page (bump (lookup s.page_refs page_id)));
}

ok-injective : (s s' : State) → ◌≡◌ {A = Result TransactionError State} (ok s) (ok s') → s ≡ s'
ok-injective s s' h = cc

publish_write-Published :
    (t : ℕ) (w : Write) (page_id : ℕ) (s s' : State)
    → publish_write t w page_id s ≡ ok s'
    → Published t (w ∷ []) (page_id ∷ []) s s'
unfolding publish_write
publish_write-Published t w page_id s s' h =
    elim (Bool-cases (has_timestamp t (versions_of s w.0))) [
      | inl e ↦ cc (rw e at h)
      | inr e ↦
          subst (Published t (w ∷ []) (page_id ∷ []) s) (ok-injective _ s' (rw e at h))
            (push_version-Published t w page_id s e)
    ]

SameControl-refl : (s : State) → SameControl s s
SameControl-refl s = record {
  intents = refl;
  active = refl;
  completed = refl;
  next_id = refl;
  next_commit = refl;
  visible = refl;
  generations = refl;
  reclaimed = refl;
}

SameControl-trans : (a b c : State) → SameControl a b → SameControl b c → SameControl a c
SameControl-trans a b c p q = record {
  intents = q.intents ∙ p.intents;
  active = q.active ∙ p.active;
  completed = q.completed ∙ p.completed;
  next_id = q.next_id ∙ p.next_id;
  next_commit = q.next_commit ∙ p.next_commit;
  visible = q.visible ∙ p.visible;
  generations = q.generations ∙ p.generations;
  reclaimed = q.reclaimed ∙ p.reclaimed;
}

Published-trans :
    (t : ℕ) (w : Write) (writes : List Write) (page_id : ℕ) (ids : List ℕ) (a b c : State)
    → Published t (w ∷ []) (page_id ∷ []) a b
    → Published t writes ids b c
    → Published t (w ∷ writes) (page_id ∷ ids) a c
Published-trans t w writes page_id ids a b c p q = record {
  control = SameControl-trans a b c p.control q.control;
  grown = λ key.
      Grown-trans t (contains (w.0 ∷ []) key) (contains (keys_of writes) key)
        (contains (w.0 ∷ keys_of writes) key) (versions_of a key) (versions_of b key)
        (versions_of c key) (either (same w.0 key) (contains (keys_of writes) key)) (p.grown key)
        (q.grown key);
  stored = λ key n up.
      q.stored key n ((p.grown key).ascending up)
      ∙ ap (seen_with t n (written_as writes ids key)) (p.stored key n up)
      ∙ seen_with_trans t n (written_as (w ∷ []) (page_id ∷ []) key) (written_as writes ids key) _;
  dirty = λ key. ground (arith, p.dirty key, q.dirty key);
  counted = λ page. omega (arith, p.counted page, q.counted page);
}
  where
    either :
        (x y : Bool)
        → (if x then true else y) ≡ true
        → ((if x then true else false) ≡ true) ⊎ (y ≡ true)
    either true y e = inl refl
    either false y e = inr e

-- Publishing that succeeds, with a page for each write, keeps every version list ascending and the
-- control state. On an ascending list, a snapshot below the commit's timestamp sees of a key what it
-- saw; any other sees the value and the page that the commit stores for the key, at that timestamp,
-- unless it saw a later version, or the commit does not write the key. The written keys are dirty,
-- the others as they were, and each page is counted once more for each version stored on it.
pub publish_writes-Published :
    (t : ℕ) (writes : List Write) (ids : List ℕ) (s : State)
    → length writes ≤ length ids
    → (publish_writes t writes ids s).1 ≡ ok tt
    → Published t writes ids s (publish_writes t writes ids s).0
unfolding publish_writes
publish_writes-Published t [] ids s n h = record {
  control = SameControl-refl s;
  grown = λ key. Grown-refl t (versions_of s key);
  stored = λ key n up. refl;
  dirty = λ key. refl;
  counted = λ page. omega arith;
}
publish_writes-Published t (w ∷ writes) [] s n h = absurd (omega arith)
publish_writes-Published t (w ∷ writes) (page_id ∷ ids) s n h =
    split (publish_write t w page_id s) refl h
      (λ s'. publish_writes-Published t writes ids s' (omega arith))
  where
    split :
        (m : Result TransactionError State)
        → publish_write t w page_id s ≡ m
        → (or_stop s m (publish_writes t writes ids)).1 ≡ ok tt
        → ((s' : State)
            → (publish_writes t writes ids s').1 ≡ ok tt
            → Published t writes ids s' (publish_writes t writes ids s').0)
        → Published t (w ∷ writes) (page_id ∷ ids) s (or_stop s m (publish_writes t writes ids)).0
    split (err e) eq h rest = cc
    split (ok s') eq h rest =
        Published-trans t w writes page_id ids s s' (publish_writes t writes ids s').0
          (publish_write-Published t w page_id s s' eq) (rest s' h)

push_version-Sorted :
    (t : ℕ) (w : Write) (page_id : ℕ) (s : State)
    → Sorted s.versions
    → Sorted (push_version t w page_id s).versions
unfolding push_version
push_version-Sorted t (k, value) page_id s p = insert-Sorted s.versions k _ p

put_Sorted :
    (t : ℕ) (w : Write) (page_id : ℕ) (s s' : State)
    → Sorted s.versions
    → publish_write t w page_id s ≡ ok s'
    → Sorted s'.versions
unfolding publish_write
put_Sorted t w page_id s s' p h = elim (Bool-cases (has_timestamp t (versions_of s w.0))) [
  | inl e ↦ cc (rw e at h)
  | inr e ↦
      subst (λ r. Sorted r.versions) (ok-injective _ s' (rw e at h))
        (push_version-Sorted t w page_id s p)
]

-- Publishing keeps the map of versions in key order.
pub publish_writes-Sorted :
    (t : ℕ) (writes : List Write) (ids : List ℕ) (s : State)
    → Sorted s.versions
    → Sorted (publish_writes t writes ids s).0.versions
unfolding publish_writes
publish_writes-Sorted t [] ids s p = p
publish_writes-Sorted t (w ∷ writes) [] s p = p
publish_writes-Sorted t (w ∷ writes) (page_id ∷ ids) s p =
    split (publish_write t w page_id s) refl (publish_writes-Sorted t writes ids)
  where
    pushed : (s' : State) → publish_write t w page_id s ≡ ok s' → Sorted s'.versions
    pushed s' e = put_Sorted t w page_id s s' p e

    split :
        (m : Result TransactionError State)
        → publish_write t w page_id s ≡ m
        → ((s' : State) → Sorted s'.versions → Sorted (publish_writes t writes ids s').0.versions)
        → Sorted (or_stop s m (publish_writes t writes ids)).0.versions
    split (err e) eq rest = p
    split (ok s') eq rest = rest s' (pushed s' eq)
