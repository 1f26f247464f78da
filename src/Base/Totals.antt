-- ===== src/Base/Totals.antt =====
-- Predicates and sums over the entries of a map.
use Prim.Native.Nat.{ℕ, ◌+◌, ◌≤◌}
use mathlib.Core.Path.{◌≡◌, subst, sym}
use mathlib.Core.Option.{Option, none, some}
use mathlib.Core.List.{[], ◌∷◌}
use native.Mathlib.Omega.{arith}
use mathlib.Core.Logic.{inl, inr}
use tripflare.Base.Tests.{Bool-cases}
use tripflare.Base.Text.{GoString, str_eq, str_eq_iff}
use tripflare.Base.Maps.{Dict, lookup, insert, remove}

module _ {ℓ} {V : Type ℓ} where
  abbrev pub Every {κ} : (GoString → V → Type κ) → Dict V → Type κ
  Every P [] = Unit
  Every P ((k, v) ∷ d) = P k v × Every P d

  abbrev pub total : (V → ℕ) → Dict V → ℕ
  total f [] = 0
  total f ((k, v) ∷ d) = f v + total f d

  abbrev pub of_found : (V → ℕ) → Option V → ℕ
  of_found f none = 0
  of_found f (some v) = f v

  pub total-insert :
      (f : V → ℕ) (k : GoString) (v : V) (d : Dict V)
      → total f (insert k v d) + of_found f (lookup k d) ≡ total f d + f v
  unfolding insert lookup
  total-insert f k v [] = omega arith
  total-insert f k v ((j, w) ∷ d) = ground (arith, total-insert f k v d)

  pub total-remove :
      (f : V → ℕ) (k : GoString) (d : Dict V)
      → total f (remove k d) + of_found f (lookup k d) ≤ total f d
  unfolding remove lookup
  total-remove f k [] = omega arith
  total-remove f k ((j, w) ∷ d) = ground (arith, total-remove f k d)

  module _ {κ} (P : GoString → V → Type κ) where
    pub Every-lookup : (k : GoString) (v : V) (d : Dict V) → lookup k d ≡ some v → Every P d → P k v
    unfolding lookup
    Every-lookup k v [] h a = ground arith
    Every-lookup k v ((j, w) ∷ d) h (p, a) = elim (Bool-cases (str_eq j k)) [
      | inl same ↦
          let e : w ≡ v = ground arith in
          subst (λ i. P i v) ((str_eq_iff j k).0 same) (subst (P j) e p)
      | inr other ↦ Every-lookup k v d (ground arith) a
    ]

    pub Every-insert :
        (k : GoString) (v : V) (d : Dict V) → P k v → Every P d → Every P (insert k v d)
    unfolding insert
    Every-insert k v [] p a = (p, tt)
    Every-insert k v ((j, w) ∷ d) p (q, a) = elim (Bool-cases (str_eq j k)) [
      | inl same ↦ rw same (subst (λ i. P i v) (sym ((str_eq_iff j k).0 same)) p, a)
      | inr other ↦ rw other (q, Every-insert k v d p a)
    ]

    pub Every-remove : (k : GoString) (d : Dict V) → Every P d → Every P (remove k d)
    unfolding remove
    Every-remove k [] a = tt
    Every-remove k ((j, w) ∷ d) (q, a) = elim (Bool-cases (str_eq j k)) [
      | inl same ↦ rw same (Every-remove k d a)
      | inr other ↦ rw other (q, Every-remove k d a)
    ]
