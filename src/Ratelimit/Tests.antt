-- ===== src/Ratelimit/Tests.antt =====
-- The limiter (internal/ratelimit/ratelimit.go) on concrete calls, with exact arithmetic.
use tripflare.Ratelimit.Floats.{IsOrdered, exact}
use tripflare.Ratelimit.Runs.{Calls, allowed, allowed-le-rate}
use tripflare.Ratelimit.Rate.{tier_of}
use tripflare.Ratelimit.Buckets.{
  Svc, new, refill, refill_all, any_below_one, take_tokens, full_buckets, get_or_create,
  allow_buckets, allow,
}
use tripflare.Base.{bytes, str_eq, lookup, insert, ◌+◌, ◌-◌, ◌*◌, ◌≤◌, ◌≡◌, refl, [], ◌∷◌, arith}

exact-IsOrdered : IsOrdered (exact 10)
exact-IsOrdered = record { irrefl = λ x. ground arith; sub_one = λ c x h. ground arith }

-- a limiter of two calls for each ten nanoseconds, after a first call
abbrev used : Svc (exact 10)
used = record {
  tiers = tier_of 2 10 ∷ [];
  keys =
      (
        bytes "1.2.3.4:abc12345",
        record { buckets = record { tokens = 10; last_refill = 3 } ∷ []; last_access = 3 },
      )
      ∷ [];
}

used_run :
    (allow (exact 10) (bytes "1.2.3.4:abc12345") 3 (new (exact 10) (tier_of 2 10 ∷ []))).1 ≡ used
unfolding allow new get_or_create allow_buckets lookup insert full_buckets refill_all refill
    any_below_one take_tokens
used_run = refl

abbrev calls : Calls
calls = (bytes "a", 1) ∷ (bytes "a", 1) ∷ (bytes "b", 2) ∷ (bytes "a", 2) ∷ (bytes "a", 7) ∷ []

-- the third call with "a" is refused, the one after a refill is not
allowed_run : allowed 2 10 (bytes "a") calls (new (exact 10) (tier_of 2 10 ∷ [])) ≡ 3
unfolding allowed allow new get_or_create allow_buckets lookup insert full_buckets refill_all refill
    any_below_one take_tokens str_eq
allowed_run = refl

allowed-le-rate_example :
    allowed 2 10 (bytes "a") calls (new (exact 10) (tier_of 2 10 ∷ [])) * 10 ≤ 2 * 10 + (7 - 1) * 2
allowed-le-rate_example =
    allowed-le-rate 2 10 (bytes "a") 1 7 calls (omega arith)
      (omega arith, (omega arith, (omega arith, (omega arith, (omega arith, omega arith)))))
