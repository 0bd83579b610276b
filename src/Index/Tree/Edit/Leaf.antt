-- ===== src/Index/Tree/Edit/Leaf.antt =====
-- index/src/tree.rs: the edit of a leaf is that of the map of its entries, and of a whole around it.
use Prim.Native.Nat.Ordering.{lt}
use quantadb.Prelude.{
  ℕ, suc, ◌≡◌, refl, sym, ap, ◌∙◌, subst, Bool, true, false, Option, none, some, List, [], ◌∷◌,
  ◌++◌, length, set, arith, if◌then◌else◌,
}
use quantadb.Prelude.Result.{Result, ok, err}
use quantadb.Prelude.Ord.{
  compare_bytes, bytes_ord, same, eq_of_same, compare_bytes-gt, compare_bytes-lt, compare_bytes-eq,
  compare_bytes_refl,
}
use quantadb.Prelude.Map.{
  Map, insert, remove, Sorted, KeysAbove-trans, remove-head, remove-KeysAbove,
}
use quantadb.Prelude.Seq.{All, insert_at}
use quantadb.Bytes.{Bytes}
use quantadb.Index.Node.{Entry, increases}
use quantadb.Index.Tree.{binary_search, deeper}
use quantadb.Index.Tree.Lookup.{Below}
use quantadb.Index.Tree.Edit.{edit_entries, remove_at, EntryDelta, removed, kept, added}

-- what an edit of a key makes of a map: a value put, or the key taken out
abbrev pub update : Map Bytes ℕ → Bytes → Option ℕ → Map Bytes ℕ
update entries key none = remove entries key
update entries key (some value) = insert entries key value

abbrev pub Above : Bytes → List Entry → Type 0
Above key = All (λ entry. compare_bytes key entry.0 ≡ lt)

insert-append :
    (entries after : List Entry) (key : Bytes) (value : ℕ)
    → Above key after
    → insert (entries ++ after) key value ≡ insert entries key value ++ after
unfolding insert
insert-append [] [] key value h = refl
insert-append [] (x ∷ after) key value h = ground (arith, h.0)
insert-append (x ∷ entries) after key value h =
    ground (arith, insert-append entries after key value h)

remove-Above : (after : List Entry) (key : Bytes) → Above key after → remove after key ≡ after
unfolding remove
remove-Above [] key h = refl
remove-Above (x ∷ after) key h =
    ground (arith, remove-Above after key h.1, h.0, compare_bytes-lt key x.0)

remove-append :
    (entries after : List Entry) (key : Bytes)
    → Above key after
    → remove (entries ++ after) key ≡ remove entries key ++ after
unfolding remove
remove-append [] after key h = remove-Above after key h
remove-append (x ∷ entries) after key h = ground (arith, remove-append entries after key h)

-- An edit of a key leaves what is around the place of the key.
pub update-around :
    (before entries after : List Entry) (key : Bytes) (value : Option ℕ)
    → Below key before
    → Above key after
    → update (before ++ (entries ++ after)) key value
      ≡ before ++ (update entries key value ++ after)
unfolding insert remove
update-around [] entries after key none l h = remove-append entries after key h
update-around [] entries after key (some value) l h = insert-append entries after key value h
update-around (x ∷ before) entries after key none l h =
    ground (arith, update-around before entries after key none l.1 h, l.0)
update-around (x ∷ before) entries after key (some value) l h = ground (
  arith,
  update-around before entries after key (some value) l.1 h,
  l.0,
  compare_bytes-lt x.0 key,
)

-- the number of entries that a delta says
abbrev pub Counted : EntryDelta → ℕ → ℕ → Type 0
Counted removed old new = old ≡ suc new
Counted kept old new = new ≡ old
Counted added old new = new ≡ suc old

-- what the search says of an edit
abbrev Searched : List Entry → Bytes → Result ℕ ℕ → Type 0
Searched entries key (ok position) =
    ((value : ℕ) → set entries position (key, value) ≡ insert entries key value)
    × (remove_at entries position ≡ remove entries key)
    × ((value : ℕ) → length (insert entries key value) ≡ length entries)
    × (length entries ≡ suc (length (remove entries key)))
Searched entries key (err position) =
    ((value : ℕ) → insert_at entries position (key, value) ≡ insert entries key value)
    × (remove entries key ≡ entries)
    × ((value : ℕ) → length (insert entries key value) ≡ suc (length entries))

Searched-deeper :
    (entry : Entry) (entries : List Entry) (key : Bytes) (found : Result ℕ ℕ)
    → compare_bytes entry.0 key ≡ lt
    → Searched entries key found
    → Searched (entry ∷ entries) key (deeper found)
unfolding insert remove
Searched-deeper (k, v) entries key (ok position) h s =
    let above = compare_bytes-lt k key h in
    (
      λ value. ground (arith, above, s.0 value),
      ground (arith, h, s.1),
      λ value. ground (arith, above, s.2 value),
      ground (arith, h, s.3),
    )
Searched-deeper (k, v) entries key (err position) h s =
    let above = compare_bytes-lt k key h in
    (
      λ value. ground (arith, above, s.0 value),
      ground (arith, h, s.1),
      λ value. ground (arith, above, s.2 value),
    )

-- A search of entries in order says what each edit does.
binary_search-Searched :
    (entries : List Entry) (key : Bytes)
    → Sorted entries
    → Searched entries key (binary_search entries key)
unfolding binary_search insert remove
binary_search-Searched [] key s = (λ value. refl, refl, λ value. refl)
binary_search-Searched ((k, v) ∷ entries) key s =
    decided (increases k key) (same k key) refl refl (binary_search-Searched entries key s.1)
  where
    there : same k key ≡ true → Searched ((k, v) ∷ entries) key (ok 0)
    there h =
        let one = eq_of_same k key h in
        let gone =
          subst (λ q. remove ((k, v) ∷ entries) q ≡ entries) one (remove-head k v entries s.0) in
        (
          λ value. ground (arith, h, compare_bytes-eq k key, compare_bytes_refl key),
          sym gone,
          λ value. ground (arith, h, compare_bytes-eq k key, compare_bytes_refl key),
          ap suc (sym (ap length gone)),
        )

    before : increases k key ≡ false → same k key ≡ false → Searched ((k, v) ∷ entries) key (err 0)
    before h h' =
        let above : compare_bytes key k ≡ lt = ground (arith, compare_bytes-gt k key) in
        (
          λ value. ground (arith, above),
          ground (arith, h', remove-KeysAbove key entries, KeysAbove-trans key k entries above s.0),
          λ value. ground (arith, above),
        )

    decided :
        (less equal : Bool)
        → increases k key ≡ less
        → same k key ≡ equal
        → Searched entries key (binary_search entries key)
        → Searched
            ((k, v) ∷ entries)
            key
            (if less then deeper (binary_search entries key) else if equal then ok 0 else err 0)
    decided true equal h h' rest =
        Searched-deeper (k, v) entries key (binary_search entries key) (ground (arith, h)) rest
    decided false true h h' rest = there h'
    decided false false h h' rest = before h h'

-- what an edit of a leaf gives
abbrev pub Edited : List Entry → Bytes → Option ℕ → Option (List Entry × EntryDelta) → Type 0
Edited entries key value none = update entries key value ≡ entries
Edited entries key value (some (edited, delta)) =
    (edited ≡ update entries key value) × Counted delta (length entries) (length edited)

pub edit_entries-Edited :
    (entries : List Entry) (key : Bytes) (value : Option ℕ)
    → Sorted entries
    → Edited entries key value (edit_entries entries key value)
unfolding edit_entries
edit_entries-Edited entries key value s =
    decided (binary_search entries key) value (binary_search-Searched entries key s)
  where
    decided :
        (found : Result ℕ ℕ) (value : Option ℕ)
        → Searched entries key found
        → Edited entries key value (elim found [
          | ok position ↦ elim value [
            | some page_id ↦ some (set entries position (key, page_id), kept)
            | none ↦ some (remove_at entries position, removed)
          ]
          | err position ↦ elim value [
            | some page_id ↦ some (insert_at entries position (key, page_id), added)
            | none ↦ none
          ]
        ])
    decided (ok position) (some page_id) h = (h.0 page_id, ap length (h.0 page_id) ∙ h.2 page_id)
    decided (ok position) none h = (h.1, h.3 ∙ ap suc (sym (ap length h.1)))
    decided (err position) (some page_id) h = (h.0 page_id, ap length (h.0 page_id) ∙ h.2 page_id)
    decided (err position) none h = h.1
