-- ===== src/Mvcc/Commit/Finish.antt =====
-- Starting and ending transactions, and the end of a commit.
use quantadb.Prelude.{ℕ, ◌≡◌, refl, none, some, List, arith}
use quantadb.Prelude.Result.{Result, ok, err}
use quantadb.Prelude.Ord.{nat_ord, bytes_ord}
use quantadb.Mvcc.Error.{TransactionError}
use quantadb.Mvcc.State.{State, complete}
use quantadb.Mvcc.Commit.{
  Write, start_transaction, begin, release_intents, publish_writes, finish_prepared, then_complete,
}

pub begin-eq-ok :
    (s : State) (x : ℕ × ℕ) (s' : State) → begin s ≡ ok (x, s') → s' ≡ start_transaction s
unfolding begin
begin-eq-ok s x s' h = ground arith

pub begin-snapshot :
    (s : State) (id snapshot : ℕ) (s' : State)
    → begin s ≡ ok ((id, snapshot), s')
    → snapshot ≡ s.visible_through
unfolding begin
begin-snapshot s id snapshot s' h = ground arith

abbrev pub released : State → ℕ → List Write → State
released s id writes = record s { intents = release_intents id writes s.intents }

-- A commit that storage refused releases its intents, and its timestamp is completed all the same.
pub finish_prepared-none :
    (s : State) (id t : ℕ) (writes : List Write)
    → (finish_prepared s id t writes none).0 ≡ complete t (released s id writes)
unfolding finish_prepared
finish_prepared-none s id t writes = refl

then_complete-ok :
    (t : ℕ) (r : State × Result TransactionError (Unit {0}))
    → (then_complete t r).1 ≡ ok tt
    → (r.1 ≡ ok tt) × ((then_complete t r).0 ≡ complete t r.0)
then_complete-ok t (s, ok tt) h = (refl, refl)
then_complete-ok t (s, err e) h = cc

pub finish_prepared-some :
    (s : State) (id t : ℕ) (writes : List Write) (ids : List ℕ)
    → (finish_prepared s id t writes (some ids)).1 ≡ ok tt
    → ((publish_writes t writes ids (released s id writes)).1 ≡ ok tt)
      × ((finish_prepared s id t writes (some ids)).0
          ≡ complete t (publish_writes t writes ids (released s id writes)).0)
unfolding finish_prepared
finish_prepared-some s id t writes ids h =
    then_complete-ok t (publish_writes t writes ids (released s id writes)) h
