-- ===== src/Ratelimit/Buckets.antt =====
-- The limiter of internal/ratelimit/ratelimit.go. The time that a method reads is its argument.
use tripflare.Base.{
  ltb, leb, if◌then◌else◌, GoString, Dict, lookup, insert, ℕ, ◌-◌, Bool, true, false, ◌||◌, none,
  some, List, [], ◌∷◌,
}
use tripflare.Ratelimit.Floats.{Floats}

pub record TierConfig : Type 0 where
  pub capacity : ℕ
  pub window : ℕ

module _ (f : Floats) where
  pub record Bucket : Type 0 where
    pub tokens : f.F
    pub last_refill : ℕ

  pub record Entry : Type 0 where
    pub buckets : List Bucket
    pub last_access : ℕ

  pub record Svc : Type 0 where
    pub tiers : List TierConfig
    pub keys : Dict Entry

  unfoldable pub new : List TierConfig → Svc
  new tiers = record { tiers = tiers; keys = [] }

  -- the `if b.tokens > float64(tier.Capacity)` of refill
  unfoldable pub cap_at : f.F → f.F → f.F
  cap_at capacity tokens = if f.lt capacity tokens then capacity else tokens

  unfoldable pub refill : TierConfig → ℕ → Bucket → Bucket
  unfolding cap_at
  refill tier now b =
      if leb now b.last_refill
      then b
      else (let rate = f.div (f.of_int tier.capacity) (f.of_int tier.window) in
          let tokens = f.add b.tokens (f.mul (f.of_int (now - b.last_refill)) rate) in
          record { tokens = cap_at (f.of_int tier.capacity) tokens; last_refill = now })

  -- the loop of refills; there is a bucket for each tier
  unfoldable pub refill_all : List TierConfig → ℕ → List Bucket → List Bucket
  unfolding refill
  refill_all [] now bs = bs
  refill_all (t ∷ ts) now [] = []
  refill_all (t ∷ ts) now (b ∷ bs) = refill t now b ∷ refill_all ts now bs

  -- the loop that refuses
  unfoldable pub any_below_one : List Bucket → Bool
  any_below_one [] = false
  any_below_one (b ∷ bs) = f.lt b.tokens (f.of_int 1) || any_below_one bs

  -- the loop that takes a token from each bucket
  unfoldable pub take_tokens : List Bucket → List Bucket
  take_tokens [] = []
  take_tokens (b ∷ bs) = record b { tokens = f.sub b.tokens (f.of_int 1) } ∷ take_tokens bs

  unfoldable pub full_buckets : List TierConfig → ℕ → List Bucket
  full_buckets [] now = []
  full_buckets (t ∷ ts) now =
      record { tokens = f.of_int t.capacity; last_refill = now } ∷ full_buckets ts now

  unfoldable pub get_or_create : GoString → ℕ → Svc → Entry
  unfolding full_buckets
  get_or_create key now s = elim (lookup key s.keys) [
    | some e ↦ e
    | none ↦ record { buckets = full_buckets s.tiers now; last_access = now }
  ]

  -- Allow on the buckets of the key's entry: the answer and the buckets that it leaves
  unfoldable pub allow_buckets : List TierConfig → ℕ → List Bucket → Bool × List Bucket
  unfolding refill_all any_below_one take_tokens
  allow_buckets tiers now bs =
      let refilled = refill_all tiers now bs in
      if any_below_one refilled then (false, refilled) else (true, take_tokens refilled)

  unfoldable pub allow : GoString → ℕ → Svc → Bool × Svc
  unfolding get_or_create allow_buckets
  allow key now s =
      let e = get_or_create key now s in
      let (answer, buckets') = allow_buckets s.tiers now e.buckets in
      (
        answer,
        record s { keys = insert key (record { buckets = buckets'; last_access = now }) s.keys },
      )

  unfoldable pub gc_keys : ℕ → Dict Entry → Dict Entry
  gc_keys cutoff [] = []
  gc_keys cutoff ((key, e) ∷ keys) =
      let rest = gc_keys cutoff keys in if ltb e.last_access cutoff then rest else (key, e) ∷ rest

  unfoldable pub gc : ℕ → ℕ → Svc → Svc
  unfolding gc_keys
  gc max_age now s = record s { keys = gc_keys (now - max_age) s.keys }
