-- ===== src/Mvcc/State/Watermark.antt =====
-- The watermark.
use quantadb.Prelude.{
  ℕ, zero, suc, ◌+◌, ◌^◌, ◌≤◌, ◌<◌, ◌≡◌, refl, true, false, none, [], ◌∷◌, length, arith,
  Option-cases, ◌⊎◌, inl, inr, ◌↔◌, subst, sym,
}
use quantadb.Prelude.Ord.{nat_ord}
use quantadb.Prelude.Map.{
  Map, lookup, insert, remove, lookup-insert, lookup-remove, length-remove_lt,
}
use quantadb.Prelude.Seq.{is_some}
use quantadb.Mvcc.State.{State, advance_visible, complete}

abbrev pub Completed : State → ℕ → Type 0
Completed s t = is_some (lookup s.completed_timestamps t) ≡ true

-- The watermark only rises; it rises over completed timestamps; the others stay completed; and it
-- stops below a timestamp that is not completed.
pub record Advanced (s s' : State) : Type 0 where
  pub rises : s.visible_through ≤ s'.visible_through
  pub over_completed : (t : ℕ) → s.visible_through < t → t ≤ s'.visible_through → Completed s t
  pub rest_completed :
      (t : ℕ)
      → s'.visible_through < t
      → is_some (lookup s'.completed_timestamps t) ≡ is_some (lookup s.completed_timestamps t)

step : State → State
step s = record s {
  visible_through = s.visible_through + 1;
  completed_timestamps = remove s.completed_timestamps (s.visible_through + 1);
}

advance_visible-stop :
    (fuel : ℕ) (s : State)
    → is_some (lookup s.completed_timestamps (s.visible_through + 1)) ≡ false
    → advance_visible fuel s ≡ s
unfolding advance_visible
advance_visible-stop zero s h = refl
advance_visible-stop (suc fuel) s h = ground arith

advance_visible-step :
    (fuel : ℕ) (s : State)
    → Completed s (s.visible_through + 1)
    → s.visible_through + 1 < 2 ^ 64
    → advance_visible (suc fuel) s ≡ advance_visible fuel (step s)
unfolding advance_visible step
advance_visible-step fuel s h b = ground arith

advance_visible-end :
    (fuel : ℕ) (s : State) → 2 ^ 64 ≤ s.visible_through + 1 → advance_visible fuel s ≡ s
unfolding advance_visible
advance_visible-end zero s h = refl
advance_visible-end (suc fuel) s h = ground arith

step_cases :
    (s : State)
    → ((is_some (lookup s.completed_timestamps (s.visible_through + 1)) ≡ false)
        ⊎ (2 ^ 64 ≤ s.visible_through + 1))
      ⊎ (Completed s (s.visible_through + 1) × (s.visible_through + 1 < 2 ^ 64))
step_cases s = ground arith

step-Advanced : (s : State) → Completed s (s.visible_through + 1) → Advanced s (step s)
unfolding step
step-Advanced s h = record {
  rises = omega arith;
  over_completed = λ t a b. ground arith;
  rest_completed =
      λ t a. ground (arith, lookup-remove s.completed_timestamps (s.visible_through + 1) t);
}

Advanced-trans : (a b c : State) → Advanced a b → Advanced b c → Advanced a c
Advanced-trans a b c p q = record {
  rises = omega (arith, p.rises, q.rises);
  over_completed = λ t above below.
      ground (arith, p.over_completed t, q.over_completed t, p.rest_completed t, p.rises, q.rises);
  rest_completed = λ t above. ground (arith, q.rest_completed t, p.rest_completed t, q.rises);
}

Advanced-refl : (s : State) → Advanced s s
Advanced-refl s = record {
  rises = omega arith;
  over_completed = λ t a b. absurd (omega arith);
  rest_completed = λ t a. refl;
}

advance_visible-Advanced : (fuel : ℕ) (s : State) → Advanced s (advance_visible fuel s)
unfolding advance_visible
advance_visible-Advanced zero s = Advanced-refl s
advance_visible-Advanced (suc fuel) s = elim (step_cases s) [
  | inl (inl e) ↦ subst (Advanced s) (sym (advance_visible-stop (suc fuel) s e)) (Advanced-refl s)
  | inl (inr e) ↦ subst (Advanced s) (sym (advance_visible-end (suc fuel) s e)) (Advanced-refl s)
  | inr (c, b) ↦ subst (Advanced s) (sym (advance_visible-step fuel s c b)) (
      Advanced-trans s (step s) (advance_visible fuel (step s)) (step-Advanced s c)
        (advance_visible-Advanced fuel (step s)))
]

-- Where the loop ends: at a timestamp that is not completed, or at the last of the timestamps.
abbrev pub Stopped : State → Type 0
Stopped s =
    (is_some (lookup s.completed_timestamps (s.visible_through + 1)) ≡ false)
    ⊎ (2 ^ 64 ≤ s.visible_through + 1)

length-step :
    (fuel : ℕ) (s : State)
    → Completed s (s.visible_through + 1)
    → length s.completed_timestamps ≤ suc fuel
    → length (step s).completed_timestamps ≤ fuel
unfolding step
length-step fuel s c h =
    elim (Option-cases (lookup s.completed_timestamps (s.visible_through + 1))) [
      | inl e ↦ absurd (none_completed e)
      | inr (v, e) ↦
          omega (arith, length-remove_lt s.completed_timestamps (s.visible_through + 1) v e)
    ]
  where
    none_completed : lookup s.completed_timestamps (s.visible_through + 1) ≡ none → ⊥
    none_completed e = ground arith

advance_visible-Stopped :
    (fuel : ℕ) (s : State) → length s.completed_timestamps ≤ fuel → Stopped (advance_visible fuel s)
unfolding advance_visible lookup step
advance_visible-Stopped zero s h = inl (empty s.completed_timestamps h)
  where
    empty :
        (m : Map ℕ (Unit {0})) → length m ≤ 0 → is_some (lookup m (s.visible_through + 1)) ≡ false
    empty [] h = refl
    empty (x ∷ m) h = absurd (omega arith)
advance_visible-Stopped (suc fuel) s h = elim (step_cases s) [
  | inl (inl e) ↦ subst Stopped (sym (advance_visible-stop (suc fuel) s e)) (inl e)
  | inl (inr e) ↦ subst Stopped (sym (advance_visible-end (suc fuel) s e)) (inr e)
  | inr (c, b) ↦
      subst Stopped (sym (advance_visible-step fuel s c b))
        (advance_visible-Stopped fuel (step s) (length-step fuel s c h))
]

-- What `complete` does: the watermark rises over completed timestamps only, as far as they reach,
-- and the timestamps above it are completed as before, with the new one.
pub record Completes (t : ℕ) (s s' : State) : Type 0 where
  pub rises : s.visible_through ≤ s'.visible_through
  pub over_completed :
      (u : ℕ) → s.visible_through < u → u ≤ s'.visible_through → Completed s u ⊎ (u ≡ t)
  pub stopped : Stopped s'
  pub rest_completed : (u : ℕ) → s'.visible_through < u → Completed s' u ↔ (Completed s u ⊎ (u ≡ t))

-- Completing a timestamp moves the watermark over the run of completed timestamps just above it, and
-- no further: each timestamp that it passes was completed or is the new one, it stops below a
-- timestamp that is not completed (or at the end of the timestamps), and above it exactly the
-- timestamps that were completed, and the new one, are completed.
pub complete-Completes : (t : ℕ) (s : State) → Completes t s (complete t s)
unfolding complete
complete-Completes t s =
    let s1 : State = record s { completed_timestamps = insert s.completed_timestamps t tt } in
    let a = advance_visible-Advanced (length s1.completed_timestamps) s1 in
    record {
      rises = a.rises;
      over_completed = λ u above below.
          ground (arith, a.over_completed u, lookup-insert s.completed_timestamps t u tt);
      stopped = advance_visible-Stopped (length s1.completed_timestamps) s1 (omega arith);
      rest_completed = λ u above.
          ground (arith, a.rest_completed u, lookup-insert s.completed_timestamps t u tt);
    }

-- What the watermark leaves alone.
pub record Unmoved (s s' : State) : Type 0 where
  pub versions : s'.versions ≡ s.versions
  pub intents : s'.intents ≡ s.intents
  pub active : s'.active ≡ s.active
  pub next_id : s'.next_transaction_id ≡ s.next_transaction_id
  pub next_commit : s'.next_commit_timestamp ≡ s.next_commit_timestamp
  pub generations : s'.generations ≡ s.generations

Unmoved-refl : (s : State) → Unmoved s s
Unmoved-refl s = record {
  versions = refl;
  intents = refl;
  active = refl;
  next_id = refl;
  next_commit = refl;
  generations = refl;
}

Unmoved-step : (s s' : State) → Unmoved (step s) s' → Unmoved s s'
unfolding step
Unmoved-step s s' u = record {
  versions = u.versions;
  intents = u.intents;
  active = u.active;
  next_id = u.next_id;
  next_commit = u.next_commit;
  generations = u.generations;
}

advance_visible-Unmoved : (fuel : ℕ) (s : State) → Unmoved s (advance_visible fuel s)
unfolding advance_visible
advance_visible-Unmoved zero s = Unmoved-refl s
advance_visible-Unmoved (suc fuel) s = elim (step_cases s) [
  | inl (inl e) ↦ subst (Unmoved s) (sym (advance_visible-stop (suc fuel) s e)) (Unmoved-refl s)
  | inl (inr e) ↦ subst (Unmoved s) (sym (advance_visible-end (suc fuel) s e)) (Unmoved-refl s)
  | inr (c, b) ↦
      subst (Unmoved s) (sym (advance_visible-step fuel s c b))
        (Unmoved-step s (advance_visible fuel (step s)) (advance_visible-Unmoved fuel (step s)))
]

pub complete-Unmoved : (t : ℕ) (s : State) → Unmoved s (complete t s)
unfolding complete
complete-Unmoved t s =
    let s1 : State = record s { completed_timestamps = insert s.completed_timestamps t tt } in
    let u = advance_visible-Unmoved (length s1.completed_timestamps) s1 in
    record {
      versions = u.versions;
      intents = u.intents;
      active = u.active;
      next_id = u.next_id;
      next_commit = u.next_commit;
      generations = u.generations;
    }
