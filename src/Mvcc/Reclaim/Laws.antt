-- ===== src/Mvcc/Reclaim/Laws.antt =====
-- What a reclamation leaves: the map of versions key by key, and the rest of the state.
use quantadb.Prelude.{
  ℕ, ◌≤◌, ◌≡◌, refl, Bool, true, false, Option, none, some, List, [], ◌∷◌, if◌then◌else◌, drop, leb,
  arith, ap, Bool-cases, inl, inr, ◌⊎◌, ◌∙◌, sym,
}
use Prim.Native.Nat.Ordering.{lt}
use quantadb.Prelude.Ord.{compare_bytes, nat_ord, bytes_ord, same, eq_of_same}
use quantadb.Prelude.Map.{Map, lookup, Sorted, KeysAbove, lookup-KeysAbove}
use quantadb.Prelude.Seq.{is_some, find_last, or_default}
use quantadb.Bytes.{Bytes}
use quantadb.Mvcc.State.{
  State, Version, IndexGeneration, generation_at, oldest_active_snapshot, versions_of,
}
use quantadb.Mvcc.State.Versions.{newest}
use quantadb.Mvcc.Reclaim.{
  Sweep, superseded, retains, swept, count_swept, prepend_kept, sweep, prune_generations, cover_of,
  start_sweep, reclaim_covered, unreachable_generations,
}
use quantadb.Mvcc.Reclaim.Sweeping.{Trimmed, drop-Trimmed, dropped_lem}

KeysAbove-prepend_kept :
    (q key : Bytes) (left : Option (List Version)) (rest : Map Bytes (List Version))
    → compare_bytes q key ≡ lt
    → KeysAbove q rest
    → KeysAbove q (prepend_kept key left rest)
KeysAbove-prepend_kept q key none rest h p = p
KeysAbove-prepend_kept q key (some vs) rest h p = (h, p)

prepend_kept-Sorted :
    (key : Bytes) (left : Option (List Version)) (rest : Map Bytes (List Version))
    → KeysAbove key rest
    → Sorted rest
    → Sorted (prepend_kept key left rest)
prepend_kept-Sorted key none rest h p = p
prepend_kept-Sorted key (some vs) rest h p = (h, p)

lookup-prepend_kept :
    (key : Bytes) (left : Option (List Version)) (rest : Map Bytes (List Version)) (q : Bytes)
    → lookup rest key ≡ none
    → lookup (prepend_kept key left rest) q ≡ (if same key q then left else lookup rest q)
unfolding lookup
lookup-prepend_kept key none rest q h = ground (arith, eq_of_same key q)
lookup-prepend_kept key (some vs) rest q h = refl

abbrev swept? : State → ℕ → Option ℕ → Bytes → Option (List Version) → Option (List Version)
swept? s oldest_active cover key none = none
swept? s oldest_active cover key (some vs) = swept s oldest_active cover key vs

module _ (s : State) (protect : Option ℕ) (oldest_active : ℕ) (cover : Option ℕ) where
  KeysAbove-sweep :
      (q : Bytes) (m : Map Bytes (List Version)) (w : Sweep)
      → KeysAbove q m
      → KeysAbove q (sweep s protect oldest_active cover m w).0
  unfolding sweep
  KeysAbove-sweep q [] w p = tt
  KeysAbove-sweep q ((key, vs) ∷ m) w p =
      KeysAbove-prepend_kept q key (swept s oldest_active cover key vs) _ p.0 (
        KeysAbove-sweep q m
          (count_swept protect oldest_active vs (is_some (swept s oldest_active cover key vs)) w)
          p.1)

  sweep-Sorted :
      (m : Map Bytes (List Version)) (w : Sweep)
      → Sorted m
      → Sorted (sweep s protect oldest_active cover m w).0
  unfolding sweep
  sweep-Sorted [] w p = tt
  sweep-Sorted ((key, vs) ∷ m) w p =
      let w' =
        count_swept protect oldest_active vs (is_some (swept s oldest_active cover key vs)) w in
      prepend_kept-Sorted key (swept s oldest_active cover key vs) _ (KeysAbove-sweep key m w' p.0)
        (sweep-Sorted m w' p.1)

  lookup-sweep :
      (m : Map Bytes (List Version)) (w : Sweep) (q : Bytes)
      → Sorted m
      → lookup (sweep s protect oldest_active cover m w).0 q
        ≡ swept? s oldest_active cover q (lookup m q)
  unfolding sweep lookup
  lookup-sweep [] w q p = refl
  lookup-sweep ((key, vs) ∷ m) w q p =
      let w' =
        count_swept protect oldest_active vs (is_some (swept s oldest_active cover key vs)) w in
      lookup-prepend_kept key (swept s oldest_active cover key vs)
        (sweep s protect oldest_active cover m w').0 q
        (lookup-KeysAbove key _ (KeysAbove-sweep key m w' p.0))
      ∙ ground (arith, lookup-sweep m w' q p.1, eq_of_same key q)

find_last_holds {ℓ} :
    {A : Type ℓ} (p : A → Bool) (xs : List A) (a : A) → find_last p xs ≡ some a → p a ≡ true
find_last_holds p [] a h = cc
find_last_holds p (x ∷ xs) a h = ground (arith, find_last_holds p xs a)

-- A key that leaves the map: the covering generation reaches its one version.
pub record Covered (s s' : State) (key : Bytes) : Type 0 where
  pub generation : IndexGeneration
  pub covering : generation_at s' (oldest_active_snapshot s) ≡ some generation
  pub covers : newest (versions_of s key) ≤ generation.timestamp
  pub reachable : generation.timestamp ≤ oldest_active_snapshot s
  pub gone : versions_of s' key ≡ []
  pub not_written : lookup s.intents key ≡ none
  pub not_dirty : lookup s.dirty_keys key ≡ none

-- A reclamation changes the versions, the page counts, the generations and the counter only. Each
-- key keeps what the oldest active snapshot and later ones see of it, or it is covered.
pub record Reclaimed (s s' : State) : Type 0 where
  pub intents : s'.intents ≡ s.intents
  pub active : s'.active ≡ s.active
  pub completed : s'.completed_timestamps ≡ s.completed_timestamps
  pub next_id : s'.next_transaction_id ≡ s.next_transaction_id
  pub next_commit : s'.next_commit_timestamp ≡ s.next_commit_timestamp
  pub visible : s'.visible_through ≡ s.visible_through
  pub dirty : s'.dirty_keys ≡ s.dirty_keys
  pub generations : s'.generations ≡ drop (unreachable_generations s) s.generations
  pub sorted : Sorted s'.versions
  pub keys :
      (key : Bytes)
      → Trimmed (oldest_active_snapshot s) (versions_of s key) (versions_of s' key)
        ⊎ Covered s s' key

cover_of_lem :
    (s : State) (oldest c : ℕ)
    → cover_of s oldest ≡ some c
    → (g : IndexGeneration) × (generation_at s oldest ≡ some g) × (g.timestamp ≡ c) × (c ≤ oldest)
unfolding cover_of generation_at
cover_of_lem s oldest c h = split (find_last (λ g. leb g.timestamp oldest) s.generations) refl h
  where
    split :
        (found : Option IndexGeneration)
        → find_last (λ g. leb g.timestamp oldest) s.generations ≡ found
        → ◌≡◌ {A = Option ℕ} (elim found [ none ↦ none | some g ↦ some g.timestamp ]) (some c)
        → (g : IndexGeneration) × (found ≡ some g) × (g.timestamp ≡ c) × (c ≤ oldest)
    split none e k = cc
    split (some g) e k =
        let low = find_last_holds (λ g. leb g.timestamp oldest) s.generations g e in
        (g, refl, ground arith, ground arith)

Covered-of_dropped :
    (s s' : State) (key : Bytes) (vs : List Version) (c : ℕ)
    → versions_of s key ≡ vs
    → versions_of s' key ≡ []
    → cover_of s' (oldest_active_snapshot s) ≡ some c
    → newest vs ≤ c
    → lookup s.intents key ≡ none
    → lookup s.dirty_keys key ≡ none
    → Covered s s' key
Covered-of_dropped s s' key vs c e gone cover le free clean =
    let (g, covering, same_time, reach) = cover_of_lem s' (oldest_active_snapshot s) c cover in
    record {
      generation = g;
      covering = covering;
      covers = rw (e, same_time) le;
      reachable = rw same_time reach;
      gone = gone;
      not_written = free;
      not_dirty = clean;
    }

swept-kept :
    (s : State) (old : ℕ) (cover : Option ℕ) (key : Bytes) (vs : List Version)
    → retains s cover key (drop (superseded old vs) vs) ≡ true
    → swept s old cover key vs ≡ some (drop (superseded old vs) vs)
unfolding swept
swept-kept s old cover key vs h = rw h

swept-dropped :
    (s : State) (old : ℕ) (cover : Option ℕ) (key : Bytes) (vs : List Version)
    → retains s cover key (drop (superseded old vs) vs) ≡ false
    → swept s old cover key vs ≡ none
unfolding swept
swept-dropped s old cover key vs h = rw h

swept_cases :
    (s : State) (s' : State) (cover : Option ℕ) (key : Bytes) (found : Option (List Version))
    → lookup s.versions key ≡ found
    → lookup s'.versions key ≡ swept? s (oldest_active_snapshot s) cover key found
    → cover ≡ cover_of s' (oldest_active_snapshot s)
    → Trimmed (oldest_active_snapshot s) (versions_of s key) (versions_of s' key) ⊎ Covered s s' key
swept_cases s s' cover key none e f c =
    rw (e, f) (inl (record { ascending = λ a. a; newest_same = refl; seen = λ n h. refl }))
swept_cases s s' cover key (some vs) e f c =
    let old = oldest_active_snapshot s in
    let trimmed = drop-Trimmed old vs in
    elim (Bool-cases (retains s cover key (drop (superseded old vs) vs))) [
      | inl kept ↦ inl (rw (e, (f ∙ swept-kept s old cover key vs kept)) trimmed)
      | inr dropped ↦
          let (n, is, le, free, clean) =
            dropped_lem s cover key (drop (superseded old vs) vs) dropped in
          inr (
            Covered-of_dropped s s' key vs n (ap or_default e)
              (ap or_default (f ∙ swept-dropped s old cover key vs dropped)) (sym c ∙ is)
              (rw trimmed.newest_same at le) free clean)
    ]

-- On versions in key order, a reclamation changes only the versions, the page counts, the
-- generations and the counter. Each key keeps what every snapshot from the oldest active one on
-- sees of it; or it leaves the map, and then it was neither dirty nor held by an intent, and the
-- generation that the oldest active snapshot reaches covers its newest version.
pub reclaim_covered-Reclaimed :
    (protect : Option ℕ) (s : State) → Sorted s.versions → Reclaimed s (reclaim_covered protect s).0
unfolding reclaim_covered prune_generations cover_of generation_at
reclaim_covered-Reclaimed protect s sorted =
    let old = oldest_active_snapshot s in
    let cover = cover_of (prune_generations s) old in
    record {
      intents = refl;
      active = refl;
      completed = refl;
      next_id = refl;
      next_commit = refl;
      visible = refl;
      dirty = refl;
      generations = refl;
      sorted = sweep-Sorted s protect old cover s.versions (start_sweep s) sorted;
      keys = λ key.
          swept_cases s (reclaim_covered protect s).0 cover key (lookup s.versions key) refl
            (lookup-sweep s protect old cover s.versions (start_sweep s) key sorted) refl;
    }
