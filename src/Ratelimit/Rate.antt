-- ===== src/Ratelimit/Rate.antt =====
-- How many calls a limiter of one tier allows, with exact arithmetic.
use native.Mathlib.Nat.{mul-div-mul_right, mul-div_cancel}
use tripflare.Base.{
  ltb, leb, Bool-cases, ℕ, ◌+◌, ◌-◌, ◌*◌, ◌/◌, ◌≤◌, ◌<◌, ◌≡◌, refl, ap, ◌∙◌, inl, inr, Bool, true,
  false, List, [], ◌∷◌, arith,
}
use tripflare.Ratelimit.Floats.{exact}
use tripflare.Ratelimit.Buckets.{
  TierConfig, Bucket, refill, refill_all, any_below_one, take_tokens, allow_buckets,
}

abbrev pub flag : Bool → ℕ
flag true = 1
flag false = 0

abbrev pub tier_of : ℕ → ℕ → TierConfig
tier_of c w = record { capacity = c; window = w }

module _ (c w : ℕ) (pos : 0 < w) where
  rate_lem : c * w * w / (w * w) ≡ c
  rate_lem = mul-div-mul_right (c * w) w pos ∙ mul-div_cancel c pos

  -- what a refill of a bucket of the (tier_of c w) does, in units of 1/w tokens
  record IsRefilled (now : ℕ) (b b' : Bucket (exact w)) : Type 0 where
    at : b'.last_refill ≡ now
    gains : b'.tokens ≤ b.tokens + (now - b.last_refill) * c
    keeps : b.tokens ≤ c * w → (b.tokens ≤ b'.tokens) × (b'.tokens ≤ c * w)

  refill-IsRefilled :
      (now : ℕ) (b : Bucket (exact w))
      → b.last_refill ≤ now
      → IsRefilled now b (refill (exact w) (tier_of c w) now b)
  unfolding refill
  refill-IsRefilled now b h =
      let d = now - b.last_refill in
      let step : d * w * c / w ≡ d * c =
        ap (λ x. x / w) (let e : d * w * c ≡ d * c * w = omega arith in e)
        ∙ mul-div_cancel (d * c) pos in
      elim (Bool-cases (leb now b.last_refill)) [
        | inl still ↦ rw still (record {
          at = ground arith;
          gains = omega arith;
          keeps = λ within. (omega arith, within);
        })
        | inr later ↦
            rw (later, rate_lem, step)
              (record {
                at = refl;
                gains = ground arith;
                keeps = λ within. (ground arith, ground arith);
              })
      ]

  -- what a call leaves of a bucket: each answer `true` has cost a token
  pub record IsCharged (now : ℕ) (b : Bucket (exact w)) (r : Bool × List (Bucket (exact w)))
      : Type 0 where
    pub left : Bucket (exact w)
    pub buckets : r.1 ≡ left ∷ []
    pub at : left.last_refill ≡ now
    pub cost : flag r.0 * w + left.tokens ≤ b.tokens + (now - b.last_refill) * c
    pub answer :
        b.tokens ≤ c * w
        → (left.tokens ≤ c * w) × (w ≤ b.tokens → (r.0 ≡ true) × (b.tokens ≤ left.tokens + w))

  -- With exact arithmetic, a call of Allow on the bucket of a tier, not before the bucket's last
  -- refill: what is left and the token that an allowed call costs are at most what there was and
  -- what the tier's rate has added; a bucket within the capacity stays within it; and a call on
  -- a bucket with a whole token is allowed and costs at most that token.
  pub allow-IsCharged :
      (now : ℕ) (b : Bucket (exact w))
      → b.last_refill ≤ now
      → IsCharged now b (allow_buckets (exact w) ((tier_of c w) ∷ []) now (b ∷ []))
  unfolding allow_buckets refill_all any_below_one take_tokens
  allow-IsCharged now b h =
      let b' = refill (exact w) (tier_of c w) now b in
      let r = refill-IsRefilled now b h in
      elim (Bool-cases (ltb b'.tokens (1 * w))) [
        | inl empty ↦ rw (empty) (record {
          left = b';
          buckets = refl;
          at = r.at;
          cost = omega (arith, r.gains);
          answer =
              λ within. ((r.keeps within).1, λ enough. absurd (ground (arith, r.keeps within)));
        })
        | inr enough ↦ rw (enough) (record {
          left = record b' { tokens = b'.tokens - 1 * w };
          buckets = refl;
          at = r.at;
          cost = ground (arith, r.gains);
          answer = λ within.
              (ground (arith, r.keeps within), λ some_left. (refl, ground (arith, r.keeps within)));
        })
      ]
