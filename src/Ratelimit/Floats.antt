-- ===== src/Ratelimit/Floats.antt =====
-- The floating-point arithmetic that internal/ratelimit counts tokens with.
use tripflare.Base.{ltb, ℕ, ◌+◌, ◌-◌, ◌*◌, ◌/◌, ◌≡◌, Bool, false}

-- float64 and the operations on it that the limiter uses; of_int is float64(n).
pub record Floats : Type 1 where
  pub F : Type 0
  pub of_int : ℕ → F
  pub add : F → F → F
  pub sub : F → F → F
  pub mul : F → F → F
  pub div : F → F → F
  pub lt : F → F → Bool

-- Two facts about the comparison of IEEE 754: a number is not below itself, and to take one from a
-- number that is not above a bound gives no number above it.
pub record IsOrdered (f : Floats) : Type 0 where
  pub irrefl : (x : f.F) → f.lt x x ≡ false
  pub sub_one : (c x : f.F) → f.lt c x ≡ false → f.lt c (f.sub x (f.of_int 1)) ≡ false

-- Exact arithmetic on the multiples of 1/w, as their numbers of units: what the limiter's counts
-- would be without rounding, for tiers whose window is w.
abbrev pub exact : ℕ → Floats
exact w = record {
  F = ℕ;
  of_int = λ n. n * w;
  add = λ x y. x + y;
  sub = λ x y. x - y;
  mul = λ x y. x * y / w;
  div = λ x y. x * w / y;
  lt = ltb;
}
