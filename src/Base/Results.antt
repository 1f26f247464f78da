-- ===== src/Base/Results.antt =====
-- What a call that returns a value and an error gives: Go's error, named by the start of its
-- message. A method that may fail passes its state on either way.
use Prim.Native.String.{String}
use mathlib.Core.Path.{◌≡◌, refl}
use mathlib.Core.Logic.{◌⊎◌, inl, inr}

pub data Result {ℓ} (A : Type ℓ) : Type ℓ where
  ok : A → Result A
  err : String → Result A

pub Result-cases :
    {A : Type 0} (r : Result A) → ((message : String) × (r ≡ err message)) ⊎ ((a : A) × (r ≡ ok a))
Result-cases (ok a) = inr (a, refl)
Result-cases (err m) = inl (m, refl)

abbrev pub Fallible : Type 0 → Type 0 → Type 0
Fallible S A = S → Result A × S

module _ {S : Type 0} where
  abbrev pub pure : {A : Type 0} → A → Fallible S A
  pure a s = (ok a, s)

  abbrev pub fail : {A : Type 0} → String → Fallible S A
  fail m s = (err m, s)

  abbrev pub continue : {A B : Type 0} → (A → Fallible S B) → Result A × S → Result B × S
  continue f (ok a, s) = f a s
  continue f (err m, s) = (err m, s)

  infixl 5 ◌>>=◌ ◌>>◌
  abbrev pub ◌>>=◌ : {A B : Type 0} → Fallible S A → (A → Fallible S B) → Fallible S B
  ◌>>=◌ m f s = continue f (m s)

  abbrev pub ◌>>◌ : {B : Type 0} → Fallible S (Unit {0}) → Fallible S B → Fallible S B
  m >> k = m >>= λ _. k

module _ {S A B : Type 0} (f : A → Fallible S B) where
  pub continue_keeps {ℓ} :
      (P : S → Type ℓ) (r : Result A × S)
      → P r.1
      → ((a : A) → r.0 ≡ ok a → P (f a r.1).1)
      → P (continue f r).1
  continue_keeps P (ok a, s) p k = k a refl
  continue_keeps P (err m, s) p k = p

  pub continue_ok :
      (r : Result A × S) (b : B)
      → (continue f r).0 ≡ ok b
      → (a : A) × ((r.0 ≡ ok a) × (continue f r ≡ f a r.1))
  continue_ok (ok a, s) b h = (a, (refl, refl))
  continue_ok (err m, s) b h = absurd cc

  pub continue_of_ok : (r : Result A × S) (a : A) → r.0 ≡ ok a → continue f r ≡ f a r.1
  continue_of_ok (ok a, s) b h = cc
  continue_of_ok (err m, s) b h = absurd cc

  pub continue_err :
      (r : Result A × S) (m : String)
      → (continue f r).0 ≡ err m
      → ((continue f r).1 ≡ r.1) ⊎ ((a : A) × ((r.0 ≡ ok a) × (continue f r ≡ f a r.1)))
  continue_err (ok a, s) m h = inr (a, (refl, refl))
  continue_err (err m, s) m' h = inl refl
