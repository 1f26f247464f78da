-- ===== src/Ratelimit/Limits.antt =====
-- What holds of the limiter with any floating-point arithmetic that keeps the order.
use tripflare.Base.{
  ltb, Bool-cases, Option-cases, GoString, Dict, lookup, Every, Every-lookup, Every-insert, ℕ, ◌-◌,
  ◌≡◌, inl, inr, false, List, [], ◌∷◌, arith,
}
use tripflare.Ratelimit.Floats.{Floats, IsOrdered}
use tripflare.Ratelimit.Buckets.{
  TierConfig, Bucket, Entry, Svc, refill, refill_all, any_below_one, take_tokens, full_buckets,
  get_or_create, allow_buckets, allow, gc_keys, gc,
}

module _ (f : Floats) where
  -- no bucket holds more tokens than its tier's capacity
  abbrev pub Within : List TierConfig → List (Bucket f) → Type 0
  Within [] bs = Unit
  Within (t ∷ ts) [] = Unit
  Within (t ∷ ts) (b ∷ bs) = (f.lt (f.of_int t.capacity) b.tokens ≡ false) × Within ts bs

  -- the same of every key of the limiter
  abbrev pub AllWithin : Svc f → Type 0
  AllWithin s = Every (λ _ e. Within s.tiers e.buckets) s.keys

  abbrev InTiers : List TierConfig → GoString → Entry f → Type 0
  InTiers tiers key e = Within tiers e.buckets

module _ (f : Floats) (ord : IsOrdered f) where
  full-Within : (ts : List TierConfig) (now : ℕ) → Within f ts (full_buckets f ts now)
  unfolding full_buckets
  full-Within [] now = tt
  full-Within (t ∷ ts) now = (ord.irrefl (f.of_int t.capacity), full-Within ts now)

  refill-within :
      (t : TierConfig) (now : ℕ) (b : Bucket f)
      → f.lt (f.of_int t.capacity) b.tokens ≡ false
      → f.lt (f.of_int t.capacity) (refill f t now b).tokens ≡ false
  unfolding refill
  refill-within t now b h = ground (arith, ord.irrefl (f.of_int t.capacity))

  refill_all-Within :
      (ts : List TierConfig) (now : ℕ) (bs : List (Bucket f))
      → Within f ts bs
      → Within f ts (refill_all f ts now bs)
  unfolding refill_all
  refill_all-Within [] now bs h = tt
  refill_all-Within (t ∷ ts) now [] h = tt
  refill_all-Within (t ∷ ts) now (b ∷ bs) (h, hs) =
      (refill-within t now b h, refill_all-Within ts now bs hs)

  take_tokens-Within :
      (ts : List TierConfig) (bs : List (Bucket f))
      → Within f ts bs
      → Within f ts (take_tokens f bs)
  unfolding take_tokens
  take_tokens-Within [] bs h = tt
  take_tokens-Within (t ∷ ts) [] h = tt
  take_tokens-Within (t ∷ ts) (b ∷ bs) (h, hs) =
      (ord.sub_one (f.of_int t.capacity) b.tokens h, take_tokens-Within ts bs hs)

  allow_buckets-Within :
      (ts : List TierConfig) (now : ℕ) (bs : List (Bucket f))
      → Within f ts bs
      → Within f ts (allow_buckets f ts now bs).1
  unfolding allow_buckets
  allow_buckets-Within ts now bs h =
      let h' = refill_all-Within ts now bs h in
      elim (Bool-cases (any_below_one f (refill_all f ts now bs))) [
        | inl empty ↦ rw empty h'
        | inr enough ↦ rw enough (take_tokens-Within ts (refill_all f ts now bs) h')
      ]

  Every-gc :
      (P : GoString → Entry f → Type 0) (cutoff : ℕ) (keys : Dict (Entry f))
      → Every P keys
      → Every P (gc_keys f cutoff keys)
  unfolding gc_keys
  Every-gc P cutoff [] a = tt
  Every-gc P cutoff ((k, e) ∷ keys) (p, a) = elim (Bool-cases (ltb e.last_access cutoff)) [
    | inl old ↦ rw old (Every-gc P cutoff keys a)
    | inr recent ↦ rw recent (p, Every-gc P cutoff keys a)
  ]

  allow-AllWithin :
      (s : Svc f) (key : GoString) (now : ℕ) → AllWithin f s → AllWithin f (allow f key now s).1
  unfolding allow get_or_create
  allow-AllWithin s key now h = elim (Option-cases (lookup key s.keys)) [
    | inl absent ↦
        rw (absent, allow, get_or_create)
          (Every-insert (InTiers f s.tiers) key _ s.keys
            (allow_buckets-Within s.tiers now _ (full-Within s.tiers now)) h)
    | inr (e, present) ↦
        rw (present, allow, get_or_create)
          (Every-insert (InTiers f s.tiers) key _ s.keys
            (allow_buckets-Within s.tiers now e.buckets
              (Every-lookup (InTiers f s.tiers) key e s.keys present h))
            h)
  ]

  gc-AllWithin : (s : Svc f) (max_age now : ℕ) → AllWithin f s → AllWithin f (gc f max_age now s)
  unfolding gc
  gc-AllWithin s max_age now h = Every-gc (InTiers f s.tiers) (now - max_age) s.keys h

  -- Allow, whatever it answers, and GC keep the tokens of every bucket of every key from rising
  -- above the capacity of the bucket's tier.
  capacity_kept :
      (s : Svc f)
      → AllWithin f s
      → ((key : GoString) (now : ℕ) → AllWithin f (allow f key now s).1)
        × ((max_age now : ℕ) → AllWithin f (gc f max_age now s))
  capacity_kept s h =
      (λ key now. allow-AllWithin s key now h, λ max_age now. gc-AllWithin s max_age now h)
