-- ===== src/Ratelimit/Runs.antt =====
-- Runs of Allow on a limiter of one tier, over all its keys, with exact arithmetic.
use mathlib.Core.Path.{subst}
use tripflare.Base.{
  if◌then◌else◌, Bool-cases, GoString, str_eq, str_eq_refl, str_eq_iff, lookup, lookup-insert, ℕ,
  ◌+◌, ◌-◌, ◌*◌, ◌≤◌, ◌<◌, ◌≡◌, refl, sym, ◌∙◌, inl, inr, Bool, none, some, List, [], ◌∷◌, arith,
}
use tripflare.Ratelimit.Floats.{exact}
use tripflare.Ratelimit.Buckets.{
  Bucket, Entry, Svc, new, full_buckets, get_or_create, allow_buckets, allow,
}
use tripflare.Ratelimit.Rate.{flag, tier_of, IsCharged, allow-IsCharged}

-- the calls that a run makes: a key and the time at which Allow is called with it
abbrev pub Calls : Type 0
Calls = List (GoString × ℕ)

-- the calls come in order of time, none before `start` and none after `end`
abbrev pub InOrder : ℕ → ℕ → Calls → Type 0
InOrder start end [] = start ≤ end
InOrder start end ((key, now) ∷ calls) = (start ≤ now) × InOrder now end calls

InOrder-le : (start end : ℕ) (calls : Calls) → InOrder start end calls → start ≤ end
InOrder-le start end [] h = h
InOrder-le start end ((key, now) ∷ calls) (h, r) = omega (arith, InOrder-le now end calls r)

split_span :
    (last now end c : ℕ)
    → last ≤ now
    → now ≤ end
    → (end - last) * c ≡ (now - last) * c + (end - now) * c
split_span last now end c h h' =
    let e : end - last ≡ (now - last) + (end - now) = omega arith in rw e (omega arith)

module _ (c w : ℕ) where
  -- how many of the calls with the key are allowed
  unfoldable pub allowed : GoString → Calls → Svc (exact w) → ℕ
  unfolding allow
  allowed key [] s = 0
  allowed key ((k, now) ∷ calls) s =
      let (answer, s') = allow (exact w) k now s in
      (if str_eq k key then flag answer else 0) + allowed key calls s'

  module _ (pos : 0 < w) (key : GoString) (end : ℕ) where
    -- the key's entry, if there is one, leaves at most `budget` units up to the end
    data Budget (s : Svc (exact w)) (now budget : ℕ) : Type 0 where
      unseen :
          s.tiers ≡ tier_of c w ∷ []
          → lookup key s.keys ≡ none
          → c * w + (end - now) * c ≤ budget
          → Budget s now budget
      seen :
          (e : Entry (exact w)) (b : Bucket (exact w))
          → s.tiers ≡ tier_of c w ∷ []
          → lookup key s.keys ≡ some e
          → e.buckets ≡ b ∷ []
          → b.last_refill ≤ now
          → b.tokens + (end - b.last_refill) * c ≤ budget
          → Budget s now budget

    -- a call with the key, from a bucket b
    charge :
        (s s' : Svc (exact w)) (now budget : ℕ) (b : Bucket (exact w))
        (r : Bool × List (Bucket (exact w)))
        → IsCharged c w pos now b r
        → now ≤ end
        → b.last_refill ≤ now
        → s'.tiers ≡ tier_of c w ∷ []
        → lookup key s'.keys ≡ some (record { buckets = r.1; last_access = now })
        → b.tokens + (end - b.last_refill) * c ≤ budget
        → (flag r.0 * w ≤ budget) × Budget s' now (budget - flag r.0 * w)
    charge s s' now budget b r p h h' ts l q =
        let split = split_span b.last_refill now end c h' h in
        (
          omega (arith, p.cost),
          seen _ p.left ts l p.buckets (omega (arith, p.at)) (rw p.at (omega (arith, p.cost))),
        )

    -- what Allow does, with its parts shut
    answer_of : GoString → ℕ → Svc (exact w) → Bool × List (Bucket (exact w))
    answer_of k now s =
        allow_buckets (exact w) s.tiers now (get_or_create (exact w) k now s).buckets

    lookup-allow :
        (k : GoString) (now : ℕ) (s : Svc (exact w))
        → lookup key (allow (exact w) k now s).1.keys ≡ (
            if str_eq k key
            then some (record { buckets = (answer_of k now s).1; last_access = now })
            else lookup key s.keys)
    unfolding allow answer_of
    lookup-allow k now s = lookup-insert k key _ s.keys

    answer-allow :
        (k : GoString) (now : ℕ) (s : Svc (exact w))
        → (allow (exact w) k now s).0 ≡ (answer_of k now s).0
    unfolding allow answer_of
    answer-allow k now s = refl

    tiers-allow :
        (k : GoString) (now : ℕ) (s : Svc (exact w)) → (allow (exact w) k now s).1.tiers ≡ s.tiers
    unfolding allow
    tiers-allow k now s = refl

    -- one call with the key, whose entry has the bucket b or is made with it
    spend_from :
        (now budget : ℕ) (b : Bucket (exact w)) (s : Svc (exact w))
        → now ≤ end
        → b.last_refill ≤ now
        → s.tiers ≡ tier_of c w ∷ []
        → (get_or_create (exact w) key now s).buckets ≡ b ∷ []
        → b.tokens + (end - b.last_refill) * c ≤ budget
        → let r = allow (exact w) key now s in
          (flag r.0 * w ≤ budget) × Budget r.1 now (budget - flag r.0 * w)
    spend_from now budget b s h hb ts eb q =
        let p : IsCharged c w pos now b (answer_of key now s) =
          unfold answer_of in rw (eb, ts) (allow-IsCharged c w pos now b hb) in
        rw (answer-allow key now s) (
          charge s (allow (exact w) key now s).1 now budget b (answer_of key now s) p h hb
            (tiers-allow key now s ∙ ts) (lookup-allow key now s ∙ rw (str_eq_refl key)) q)

    spend_self :
        (now budget last : ℕ) (s : Svc (exact w))
        → last ≤ now
        → now ≤ end
        → Budget s last budget
        → let r = allow (exact w) key now s in
          (flag r.0 * w ≤ budget) × Budget r.1 now (budget - flag r.0 * w)
    spend_self now budget last s h h' (unseen ts l q) =
        let b : Bucket (exact w) = record { tokens = c * w; last_refill = now } in
        let first : (get_or_create (exact w) key now s).buckets ≡ b ∷ [] =
          unfold get_or_create full_buckets in rw (l, ts, get_or_create) in
        spend_from now budget b s h' (omega arith) ts first
          (omega (arith, split_span last now end c h h'))
    spend_self now budget last s h h' (seen e b ts l eb hb q) =
        let there : (get_or_create (exact w) key now s).buckets ≡ b ∷ [] =
          unfold get_or_create in rw (l, get_or_create) eb in
        spend_from now budget b s h' (omega arith) ts there q

    -- a state that is the same for the key keeps the budget to a later time
    later :
        (s' : Svc (exact w)) (now budget last : ℕ) (s : Svc (exact w))
        → last ≤ now
        → now ≤ end
        → s'.tiers ≡ s.tiers
        → lookup key s'.keys ≡ lookup key s.keys
        → Budget s last budget
        → Budget s' now budget
    later s' now budget last s h h' same kept (unseen ts l q) =
        unseen (same ∙ ts) (kept ∙ l) (omega (arith, split_span last now end c h h'))
    later s' now budget last s h h' same kept (seen e b ts l eb hb q) =
        seen e b (same ∙ ts) (kept ∙ l) eb (omega arith) q

    -- one call, with whatever key
    spend :
        (k : GoString) (now budget last : ℕ) (s : Svc (exact w))
        → last ≤ now
        → now ≤ end
        → Budget s last budget
        → let r = allow (exact w) k now s in
          let n = if str_eq k key then flag r.0 else 0 in
          (n * w ≤ budget) × Budget r.1 now (budget - n * w)
    spend k now budget last s h h' g = elim (Bool-cases (str_eq k key)) [
      | inl same ↦ rw same (
          subst
            (λ j.
              (flag (allow (exact w) j now s).0 * w ≤ budget)
              × Budget (allow (exact w) j now s).1 now
                  (budget - flag (allow (exact w) j now s).0 * w))
            (sym ((str_eq_iff k key).0 same)) (spend_self now budget last s h h' g))
      | inr other ↦
          let same_tiers = tiers-allow k now s in
          let kept : lookup key (allow (exact w) k now s).1.keys ≡ lookup key s.keys =
            lookup-allow k now s ∙ rw other in
          let rest : budget - 0 * w ≡ budget = omega arith in
          rw (other, rest) (omega arith, later _ now budget last s h h' same_tiers kept g)
    ]

    -- the calls allowed with the key, in units of 1/w, are within the budget
    allowed-le :
        (calls : Calls) (start budget : ℕ) (s : Svc (exact w))
        → InOrder start end calls
        → Budget s start budget
        → allowed key calls s * w ≤ budget
    unfolding allowed
    allowed-le [] start budget s o g = omega arith
    allowed-le ((k, now) ∷ calls) start budget s (h, o) g =
        let one = spend k now budget start s h (InOrder-le now end calls o) g in
        let ih = allowed-le calls now _ (allow (exact w) k now s).1 o one.1 in omega (arith, one.0)

-- With exact arithmetic, whatever calls a new limiter of one tier gets, with whatever keys and in
-- order of time between two instants: those that are allowed with one key are at most the tier's
-- capacity and what its rate, the capacity for each window, adds between the instants.
pub allowed-le-rate :
    (c w : ℕ) (key : GoString) (start end : ℕ) (calls : Calls)
    → 0 < w
    → InOrder start end calls
    → allowed c w key calls (new (exact w) (tier_of c w ∷ [])) * w ≤ c * w + (end - start) * c
unfolding new lookup
allowed-le-rate c w key start end calls pos o =
    allowed-le c w pos key end calls start (c * w + (end - start) * c) _ o
      (unseen refl refl (omega arith))
