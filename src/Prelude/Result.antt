-- ===== src/Prelude/Result.antt =====
-- Fallible code: `Result<A, E>` of the source, and the operator `?` as a bind.
use mathlib.Core.Path.{◌≡◌, refl}
use mathlib.Core.Logic.{◌⊎◌, inl, inr}
use mathlib.Core.Bool.{Bool, true, false}

pub data Result {κ ℓ} (Failure : Type κ) (Value : Type ℓ) : Type (κ ⊔ ℓ) where
  err : Failure → Result Failure Value
  ok : Value → Result Failure Value

infixl 5 ◌>>=◌ ◌>>◌
abbrev pub ◌>>=◌ {μ ℓ κ} :
    {E : Type μ} {A : Type ℓ} {B : Type κ} → Result E A → (A → Result E B) → Result E B
err failure >>= next = err failure
ok value >>= next = next value

abbrev pub ◌>>◌ {μ ℓ} : {E : Type μ} {B : Type ℓ} → Result E (Unit {0}) → Result E B → Result E B
checked >> next = checked >>= (λ done. next)

-- `if !b { return Err(e) }`
abbrev pub ensure {μ} : {E : Type μ} → Bool → E → Result E (Unit {0})
ensure false failure = err failure
ensure true failure = ok tt

-- A chain that succeeds has passed each of its steps.
pub >>=-eq-ok {κ ℓ μ} :
    {E : Type μ} {A : Type κ} {B : Type ℓ} (step : Result E A) (next : A → Result E B) {end : B}
    → (step >>= next) ≡ ok end
    → (value : A) × (step ≡ ok value) × (next value ≡ ok end)
>>=-eq-ok (err failure) next passed = cc
>>=-eq-ok (ok value) next passed = (value, refl, passed)

pub Result-cases {κ ℓ} :
    {E : Type κ} {A : Type ℓ} (m : Result E A) → ((a : A) × (m ≡ ok a)) ⊎ ((e : E) × (m ≡ err e))
Result-cases (ok a) = inl (a, refl)
Result-cases (err e) = inr (e, refl)

-- A check that lets the chain succeed has held.
pub ensure->>-ok {ℓ μ} :
    {E : Type μ} {A : Type ℓ} (b : Bool) (failure : E) (next : Result E A) {a : A}
    → (ensure b failure >> next) ≡ ok a
    → (b ≡ true) × (next ≡ ok a)
ensure->>-ok true failure next e = (refl, e)
ensure->>-ok false failure next e = cc

-- A step that changes a state whether it succeeds or not, and what follows where it succeeds.
abbrev pub and_then {σ μ ℓ κ} :
    {S : Type σ} {E : Type μ} {A : Type ℓ} {B : Type κ}
    → S × Result E A
    → (S → A → S × Result E B)
    → S × Result E B
and_then (state, err failure) next = (state, err failure)
and_then (state, ok value) next = next state value

-- A step and what follows it have succeeded where the whole has.
pub and_then-ok {σ μ ℓ κ} :
    {S : Type σ} {E : Type μ} {A : Type ℓ} {B : Type κ} (step : S × Result E A)
    (next : S → A → S × Result E B) {end : B}
    → (and_then step next).1 ≡ ok end
    → (value : A) × (step.1 ≡ ok value)
      × (and_then step next ≡ next step.0 value)
      × ((next step.0 value).1 ≡ ok end)
and_then-ok (state, err failure) next passed = cc
and_then-ok (state, ok value) next passed = (value, refl, refl, passed)
