-- ===== src/Mvcc/Commit/Accepting.antt =====
-- mvcc/src/database.rs, `prepare_commit` of `Inner`: when a commit passes validation.
use quantadb.Prelude.{
  ℕ, ◌+◌, ◌^◌, ◌≤◌, ◌<◌, ◌≡◌, refl, true, false, some, List, [], ◌∷◌, ◌==◌, ◌&&◌, arith, ap, ltb,
  Bool, Bool-cases, subst, not, Option-cases, inl, inr,
}
use quantadb.Prelude.Result.{ok}
use quantadb.Prelude.Ord.{nat_ord, bytes_ord, same, eq_of_same, same_refl}
use quantadb.Prelude.Map.{Map, lookup, Sorted, lookup-KeysAbove}
use quantadb.Prelude.Seq.{is_some, any, or_default}
use quantadb.Bytes.{Bytes, starts_with, AllBytes}
use quantadb.Mvcc.Prefix.{in_range, prefix_end, version_range}
use quantadb.Mvcc.Prefix.Range.{in_range-prefix_end}
use quantadb.Mvcc.State.{State, Version, versions_of}
use quantadb.Mvcc.State.Versions.{newest}
use quantadb.Mvcc.Commit.{
  newer_than, key_conflicts, check_keys, prefix_conflicts, check_prefixes, reserve, prepare_commit,
}
use quantadb.Mvcc.Commit.Prepare.{Clear}
use quantadb.Mvcc.Commit.Publish.{contains}

any-none {ℓ} :
    {V : Type ℓ} (p : Bytes × V → Bool) (m : Map Bytes V)
    → Sorted m
    → ((key : Bytes) (v : V) → lookup m key ≡ some v → p (key, v) ≡ false)
    → any p m ≡ false
unfolding lookup
any-none p [] up h = refl
any-none p ((k, w) ∷ m) up h =
    rw
      (
        h k w (rw (same_refl k) refl),
        any-none p m up.1 (λ key v e. elim (Bool-cases (same k key)) [
          | inl found ↦ cc (e, lookup-KeysAbove k m up.0, eq_of_same k key found)
          | inr other ↦ h key v (rw other e)
        ]),
      )
      refl

abbrev pub AllKeys {ℓ} : {V : Type ℓ} → Map Bytes V → Type 0
AllKeys m = (key : Bytes) → is_some (lookup m key) ≡ true → AllBytes key

any-range-none {ℓ} :
    {V : Type ℓ} (p : Bytes × V → Bool) (prefix : Bytes) (m : Map Bytes V)
    → any (λ entry. in_range prefix (prefix_end prefix) entry.0 && p entry) m ≡ false
    → any p (version_range m prefix) ≡ false
unfolding version_range
any-range-none p prefix [] h = refl
any-range-none p prefix ((k, w) ∷ m) h = ground (arith, any-range-none p prefix m, h)

key_conflicts-Clear :
    (s : State) (id snapshot : ℕ) (key : Bytes)
    → Clear s id snapshot key
    → key_conflicts s id snapshot key ≡ false
unfolding key_conflicts newer_than
key_conflicts-Clear s id snapshot key (low, own) = elim (Option-cases (lookup s.intents key)) [
  | inl e ↦ ground (arith, low, e)
  | inr (owner, e) ↦ let mine = own owner e in ground (arith, low, mine, e)
]

newer_than-newest :
    (snapshot : ℕ) (vs : List Version) → newest vs ≤ snapshot → newer_than snapshot vs ≡ false
unfolding newer_than
newer_than-newest snapshot vs h = ground arith

prefix_conflicts-Clear :
    (s : State) (id snapshot : ℕ) (prefix : Bytes)
    → Sorted s.versions
    → Sorted s.intents
    → AllKeys s.versions
    → ((key : Bytes)
        → AllBytes key
        → starts_with key prefix ≡ true
        → newest (versions_of s key) ≤ snapshot)
    → ((key : Bytes) (owner : ℕ)
        → starts_with key prefix ≡ true
        → lookup s.intents key ≡ some owner
        → owner ≡ id)
    → prefix_conflicts s id snapshot prefix ≡ false
unfolding prefix_conflicts
prefix_conflicts-Clear s id snapshot prefix v i b low own =
    rw
      (
        any-range-none (λ entry. newer_than snapshot entry.1) prefix s.versions
            (any-none
              (λ entry. in_range prefix (prefix_end prefix) entry.0 && newer_than snapshot entry.1)
              s.versions v
              (λ key vs e.
                let bytes = b key (rw e refl) in
                elim (Bool-cases (starts_with key prefix)) [
                  | inl t ↦
                      let held : versions_of s key ≡ vs = ap or_default e in
                      let top : newest vs ≤ snapshot =
                        subst (λ us. newest us ≤ snapshot) held (low key bytes t) in
                      rw
                        (newer_than-newest snapshot vs top, in_range-prefix_end prefix key bytes, t)
                        refl
                  | inr f ↦ rw (in_range-prefix_end prefix key bytes, f) refl
                ])),
        any-none (λ intent. not (intent.1 == id) && starts_with intent.0 prefix) s.intents i
            (λ key owner e. elim (Bool-cases (starts_with key prefix)) [
              | inl t ↦ let mine = own key owner t e in ground (arith, mine, t)
              | inr f ↦ ground (arith, f)
            ]),
      )
      refl

check_prefixes-Clear :
    (s : State) (id snapshot : ℕ) (prefixes : List Bytes)
    → ((prefix : Bytes)
        → contains prefixes prefix ≡ true
        → prefix_conflicts s id snapshot prefix ≡ false)
    → check_prefixes s id snapshot prefixes ≡ ok tt
unfolding check_prefixes
check_prefixes-Clear s id snapshot [] h = refl
check_prefixes-Clear s id snapshot (p ∷ prefixes) h =
    let first = h p (rw (same_refl p) refl) in
    let rest =
      check_prefixes-Clear s id snapshot prefixes (λ prefix c. h prefix (ground (arith, c))) in
    rw (first, rest) refl

check_keys-Clear :
    (s : State) (id snapshot : ℕ) (keys : List Bytes)
    → ((key : Bytes) → contains keys key ≡ true → Clear s id snapshot key)
    → check_keys s id snapshot keys ≡ ok tt
unfolding check_keys
check_keys-Clear s id snapshot [] h = refl
check_keys-Clear s id snapshot (k ∷ keys) h =
    let first = key_conflicts-Clear s id snapshot k (h k (rw (same_refl k) refl)) in
    let rest = check_keys-Clear s id snapshot keys (λ key c. h key (ground (arith, c))) in
    rw (first, rest) refl

-- On maps in key order whose keys are bytes, and while a timestamp is left, validation refuses no
-- commit without cause: if neither a written key nor any key under a scanned prefix has a version
-- above the snapshot or the intent of another transaction, the commit gets the next timestamp and
-- its intents.
pub prepare_commit-Clear :
    (s : State) (id snapshot : ℕ) (keys prefixes : List Bytes)
    → Sorted s.versions
    → Sorted s.intents
    → AllKeys s.versions
    → s.next_commit_timestamp + 1 < 2 ^ 64
    → ((key : Bytes) → contains keys key ≡ true → Clear s id snapshot key)
    → ((prefix key : Bytes)
        → contains prefixes prefix ≡ true
        → starts_with key prefix ≡ true
        → Clear s id snapshot key)
    → prepare_commit s id snapshot keys prefixes ≡ ok (s.next_commit_timestamp, reserve s id keys)
unfolding prepare_commit
prepare_commit-Clear s id snapshot keys prefixes v i b left clear free =
    let first = check_keys-Clear s id snapshot keys clear in
    let second = check_prefixes-Clear s id snapshot prefixes (λ prefix c.
      prefix_conflicts-Clear s id snapshot prefix v i b (λ key k t. (free prefix key c t).0)
        (λ key owner t. (free prefix key c t).1 owner)) in
    let timely : ltb (s.next_commit_timestamp + 1) (2 ^ 64) ≡ true = ground (arith, left) in
    rw (first, second, timely) refl
