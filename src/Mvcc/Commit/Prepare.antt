-- ===== src/Mvcc/Commit/Prepare.antt =====
-- Validation and write intents.
use quantadb.Prelude.{
  ℕ, ◌+◌, ◌^◌, ◌≤◌, ◌<◌, ◌≡◌, refl, true, false, none, some, List, [], ◌∷◌, if◌then◌else◌, ◌==◌,
  ◌&&◌, arith, ap, Bool, Bool-cases, subst, not, Option-cases, inl, inr, ◌∙◌,
}
use quantadb.Prelude.Result.{ok}
use quantadb.Prelude.Ord.{nat_ord, bytes_ord, same, eq_of_same}
use quantadb.Prelude.Map.{Map, lookup, insert, lookup-insert, lookup-remove}
use quantadb.Prelude.Seq.{is_some_and, any}
use quantadb.Bytes.{Bytes, starts_with, AllBytes}
use quantadb.Mvcc.Prefix.{in_range, prefix_end, version_range}
use quantadb.Mvcc.Prefix.Range.{in_range-prefix_end}
use quantadb.Mvcc.State.{State, versions_of}
use quantadb.Mvcc.State.Versions.{newest}
use quantadb.Mvcc.Commit.{
  Write, newer_than, key_conflicts, check_keys, prefix_conflicts, check_prefixes, insert_intents,
  reserve, prepare_commit, release_intent, release_intents,
}
use quantadb.Mvcc.Commit.Publish.{keys_of, contains}

check_keys-ok :
    (s : State) (id snapshot : ℕ) (keys : List Bytes) (key : Bytes)
    → check_keys s id snapshot keys ≡ ok tt
    → contains keys key ≡ true
    → key_conflicts s id snapshot key ≡ false
unfolding check_keys
check_keys-ok s id snapshot [] key h c = cc
check_keys-ok s id snapshot (k ∷ keys) key h c =
    ground (arith, check_keys-ok s id snapshot keys key, eq_of_same k key)

check_prefixes-ok :
    (s : State) (id snapshot : ℕ) (prefixes : List Bytes) (prefix : Bytes)
    → check_prefixes s id snapshot prefixes ≡ ok tt
    → contains prefixes prefix ≡ true
    → prefix_conflicts s id snapshot prefix ≡ false
unfolding check_prefixes
check_prefixes-ok s id snapshot [] prefix h c = cc
check_prefixes-ok s id snapshot (p ∷ prefixes) prefix h c =
    ground (arith, check_prefixes-ok s id snapshot prefixes prefix, eq_of_same p prefix)

pub lookup-insert_intents :
    (m : Map Bytes ℕ) (id : ℕ) (keys : List Bytes) (key : Bytes)
    → lookup (insert_intents m id keys) key ≡ (if contains keys key then some id else lookup m key)
unfolding insert_intents
lookup-insert_intents m id [] key = refl
lookup-insert_intents m id (k ∷ keys) key =
    ground (arith, lookup-insert_intents (insert m k id) id keys key, lookup-insert m k key id)

lookup-release_intent :
    (id : ℕ) (k : Bytes) (m : Map Bytes ℕ) (key : Bytes)
    → lookup (release_intent id k m) key ≡ (
        if same k key && is_some_and (lookup m key) (λ owner. owner == id)
        then none
        else lookup m key)
unfolding release_intent
lookup-release_intent id k m key = ground (arith, lookup-remove m k key, eq_of_same k key)

pub lookup-release_intents :
    (id : ℕ) (writes : List Write) (m : Map Bytes ℕ) (key : Bytes)
    → lookup (release_intents id writes m) key ≡ (
        if contains (keys_of writes) key && is_some_and (lookup m key) (λ owner. owner == id)
        then none
        else lookup m key)
unfolding release_intents
lookup-release_intents id [] m key = refl
lookup-release_intents id ((k, value) ∷ writes) m key = ground (
  arith,
  lookup-release_intents id writes (release_intent id k m) key,
  lookup-release_intent id k m key,
)

-- A key that passes validation has no newer version and no other owner.
pub key_conflicts-newest :
    (s : State) (id snapshot : ℕ) (key : Bytes)
    → key_conflicts s id snapshot key ≡ false
    → newest (versions_of s key) ≤ snapshot
unfolding key_conflicts newer_than
key_conflicts-newest s id snapshot key h = ground arith

pub key_conflicts-owner :
    (s : State) (id snapshot : ℕ) (key : Bytes) (owner : ℕ)
    → key_conflicts s id snapshot key ≡ false
    → lookup s.intents key ≡ some owner
    → owner ≡ id
unfolding key_conflicts
key_conflicts-owner s id snapshot key owner h e = ground arith

-- No version of the key is above the snapshot, and no other transaction holds it.
abbrev pub Clear : State → ℕ → ℕ → Bytes → Type 0
Clear s id snapshot key =
    (newest (versions_of s key) ≤ snapshot)
    × ((owner : ℕ) → lookup s.intents key ≡ some owner → owner ≡ id)

any-range {ℓ} :
    {V : Type ℓ} (p : Bytes × V → Bool) (prefix : Bytes) (m : Map Bytes V) (key : Bytes) (v : V)
    → any p (version_range m prefix) ≡ false
    → in_range prefix (prefix_end prefix) key ≡ true
    → lookup m key ≡ some v
    → p (key, v) ≡ false
unfolding version_range lookup
any-range p prefix [] key v h r e = cc
any-range p prefix ((k, w) ∷ m) key v h r e = elim (Bool-cases (same k key)) [
  | inl found ↦
      let here : k ≡ key = eq_of_same k key found in
      let value : w ≡ v = cc (rw found at e) in
      let inside : in_range prefix (prefix_end prefix) k ≡ true = rw here r in
      subst (λ q. p (q, v) ≡ false) here
        (subst (λ u. p (k, u) ≡ false) value (ground (arith, inside, h)))
  | inr other ↦ any-range p prefix m key v (ground (arith, h)) r (rw other at e)
]

prefix_conflicts-newest :
    (s : State) (id snapshot : ℕ) (prefix key : Bytes)
    → prefix_conflicts s id snapshot prefix ≡ false
    → AllBytes key
    → starts_with key prefix ≡ true
    → newest (versions_of s key) ≤ snapshot
unfolding prefix_conflicts newer_than
prefix_conflicts-newest s id snapshot prefix key h k e =
    elim (Option-cases (lookup s.versions key)) [
      | inl f ↦ rw f (omega arith)
      | inr (vs, f) ↦
          let none_newer =
            any-range (λ entry. newer_than snapshot entry.1) prefix s.versions key vs (ground arith)
              (in_range-prefix_end prefix key k ∙ e) f in
          rw f (ground arith)
    ]

any-intents :
    (id : ℕ) (prefix : Bytes) (m : Map Bytes ℕ) (key : Bytes) (owner : ℕ)
    → any (λ intent. not (intent.1 == id) && starts_with intent.0 prefix) m ≡ false
    → starts_with key prefix ≡ true
    → lookup m key ≡ some owner
    → owner ≡ id
unfolding lookup
any-intents id prefix [] key owner h e f = cc
any-intents id prefix ((k, w) ∷ m) key owner h e f = elim (Bool-cases (same k key)) [
  | inl found ↦
      let here : k ≡ key = eq_of_same k key found in
      let value : w ≡ owner = cc (rw found at f) in
      let inside : starts_with k prefix ≡ true = rw here e in ground (arith, inside, h, value)
  | inr other ↦ any-intents id prefix m key owner (ground (arith, h)) e (rw other at f)
]

prefix_conflicts-owner :
    (s : State) (id snapshot : ℕ) (prefix key : Bytes) (owner : ℕ)
    → prefix_conflicts s id snapshot prefix ≡ false
    → starts_with key prefix ≡ true
    → lookup s.intents key ≡ some owner
    → owner ≡ id
unfolding prefix_conflicts
prefix_conflicts-owner s id snapshot prefix key owner h e f =
    any-intents id prefix s.intents key owner (ground arith) e f

reserve-held :
    (s : State) (id : ℕ) (keys : List Bytes) (s' : State)
    → s' ≡ reserve s id keys
    → (key : Bytes)
    → lookup s'.intents key ≡ (if contains keys key then some id else lookup s.intents key)
unfolding reserve
reserve-held s id keys s' e key =
    ap (λ (r : State). lookup r.intents key) e ∙ lookup-insert_intents s.intents id keys key

-- What a commit that passes validation has found and done.
pub record Prepared (s : State) (id snapshot : ℕ) (keys prefixes : List Bytes) (t : ℕ) (s' : State)
    : Type 0 where
  pub timestamp : t ≡ s.next_commit_timestamp
  pub in_range : s.next_commit_timestamp + 1 < 2 ^ 64
  pub reserved : s' ≡ reserve s id keys
  pub held :
      (key : Bytes)
      → lookup s'.intents key ≡ (if contains keys key then some id else lookup s.intents key)
  pub keys_clear : (key : Bytes) → contains keys key ≡ true → Clear s id snapshot key
  pub prefixes_clear :
      (prefix key : Bytes)
      → contains prefixes prefix ≡ true
      → AllBytes key
      → starts_with key prefix ≡ true
      → Clear s id snapshot key

-- A commit that passes validation gets the next timestamp, which is in range, and the written keys
-- become its intents, the others staying as they were. Neither a written key nor any key of bytes
-- under a scanned prefix has a version above the snapshot, or the intent of another transaction.
pub prepare_commit-Prepared :
    (s : State) (id snapshot : ℕ) (keys prefixes : List Bytes) (t : ℕ) (s' : State)
    → prepare_commit s id snapshot keys prefixes ≡ ok (t, s')
    → Prepared s id snapshot keys prefixes t s'
unfolding prepare_commit
prepare_commit-Prepared s id snapshot keys prefixes t s' h = record {
  timestamp = ground arith;
  in_range = ground arith;
  reserved = ground arith;
  held = λ key. reserve-held s id keys s' (ground arith) key;
  keys_clear = λ key c.
      let free : key_conflicts s id snapshot key ≡ false =
        ground (arith, check_keys-ok s id snapshot keys key) in
      (
        key_conflicts-newest s id snapshot key free,
        λ owner. key_conflicts-owner s id snapshot key owner free,
      );
  prefixes_clear = λ prefix key c k e.
      let free : prefix_conflicts s id snapshot prefix ≡ false =
        ground (arith, check_prefixes-ok s id snapshot prefixes prefix) in
      (
        prefix_conflicts-newest s id snapshot prefix key free k e,
        λ owner. prefix_conflicts-owner s id snapshot prefix key owner free e,
      );
}
