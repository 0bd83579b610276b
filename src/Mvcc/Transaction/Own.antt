-- ===== src/Mvcc/Transaction/Own.antt =====
-- A transaction reads its own writes.
use quantadb.Prelude.{◌≡◌, false, Option, none, some, if◌then◌else◌, arith, ap, ◌∙◌, inl, inr}
use quantadb.Prelude.Result.{ok, Result-cases}
use quantadb.Prelude.Ord.{same, bytes_ord}
use quantadb.Prelude.Map.{insert, lookup-insert}
use quantadb.Bytes.{Bytes}
use quantadb.Mvcc.Record.{validate_size}
use quantadb.Mvcc.State.{State}
use quantadb.Mvcc.Read.{Reader}
use quantadb.Mvcc.Transaction.{Transaction, get, put, delete}

put-ok :
    (tx : Transaction) (key value : Bytes) (tx' : Transaction)
    → put tx key value ≡ ok tx'
    → (tx.finished ≡ false) × (tx' ≡ record tx { writes = insert tx.writes key (some value) })
unfolding put
put-ok tx key value tx' e = elim (Result-cases (validate_size key (some value))) [
  | inl (done, v) ↦ ground arith
  | inr (x, v) ↦ ground arith
]

delete-ok :
    (tx : Transaction) (key : Bytes) (tx' : Transaction)
    → delete tx key ≡ ok tx'
    → (tx.finished ≡ false) × (tx' ≡ record tx { writes = insert tx.writes key none })
unfolding delete
delete-ok tx key tx' e = elim (Result-cases (validate_size key none)) [
  | inl (done, v) ↦ ground arith
  | inr (x, v) ↦ ground arith
]

-- what `get` finds with one more write
get-insert :
    (reader : Reader) (tx : Transaction) (s : State) (key q : Bytes) (write : Option Bytes)
    → tx.finished ≡ false
    → get reader (record tx { writes = insert tx.writes key write }) s q
      ≡ (if same key q then ok write else get reader tx s q)
unfolding get
get-insert reader tx s key q write active = ground (arith, lookup-insert tx.writes key q write)

module _ (reader : Reader) where
  -- After a `put` that succeeds, `get` returns the value for its key and is as before for the others.
  pub get-put :
      (tx : Transaction) (s : State) (key value q : Bytes) (tx' : Transaction)
      → put tx key value ≡ ok tx'
      → get reader tx' s q ≡ (if same key q then ok (some value) else get reader tx s q)
  get-put tx s key value q tx' e =
      let (active, put) = put-ok tx key value tx' e in
      ap (λ t. get reader t s q) put ∙ get-insert reader tx s key q (some value) active

  -- After a `delete` that succeeds, `get` finds nothing for its key and is as before for the others.
  pub get-delete :
      (tx : Transaction) (s : State) (key q : Bytes) (tx' : Transaction)
      → delete tx key ≡ ok tx'
      → get reader tx' s q ≡ (if same key q then ok none else get reader tx s q)
  get-delete tx s key q tx' e =
      let (active, deleted) = delete-ok tx key tx' e in
      ap (λ t. get reader t s q) deleted ∙ get-insert reader tx s key q none active
