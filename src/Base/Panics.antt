-- ===== src/Base/Panics.antt =====
-- What a call that may panic does: it returns, or a panic unwinds it. The state is kept beside the
-- outcome, since what was written before a panic stays written.
use mathlib.Core.Path.{◌≡◌, refl}
use mathlib.Core.Logic.{◌⊎◌, inl, inr}

pub data Outcome {ℓ} (A : Type ℓ) : Type ℓ where
  ret : A → Outcome A
  panic : Outcome A

-- One call after another over a shared state; a panic skips the rest.
abbrev pub then_do {ℓ} : {A B S : Type ℓ} → Outcome A × S → (A → S → Outcome B × S) → Outcome B × S
then_do (ret a, s) f = f a s
then_do (panic, s) f = (panic, s)

abbrev pub Returns {ℓ} : {A : Type ℓ} → Outcome A → Type ℓ
Returns {A} r = (a : A) × (r ≡ ret a)

pub then_do_of_ret {ℓ} :
    {A B S : Type ℓ} (r : Outcome A × S) (a : A) (f : A → S → Outcome B × S)
    → r.0 ≡ ret a
    → then_do r f ≡ f a r.1
then_do_of_ret (ret b, s) a f h = cc
then_do_of_ret (panic, s) a f h = cc

pub Outcome-cases {ℓ} : {A : Type ℓ} (r : Outcome A) → (r ≡ panic) ⊎ ((a : A) × (r ≡ ret a))
Outcome-cases (ret a) = inr (a, refl)
Outcome-cases panic = inl refl
