-- ===== src/Registry/Invariant/Sweep.antt =====
-- Cleanup of internal/registry/registry.go, its loop and the registry's invariant.
use tripflare.Base.{
  ltb, if◌then◌else◌, Bool-cases, length, Dict, Outcome, ret, Every, total, ℕ, ◌+◌, ◌-◌, ◌≤◌, ◌≡◌,
  refl, sym, ap, ◌∙◌, inl, inr, [], ◌∷◌, arith,
}
use tripflare.Registry.Types.{Chans, SlugEntry, Svc}
use tripflare.Registry.Channels.{close_all}
use tripflare.Registry.Methods.{slug_count, sweep, cleanup}
use tripflare.Registry.Subscribers.{closed_at, close_all-IsClosed}
use tripflare.Registry.Invariant.{subscribed, IsEntry, IsValid, IsSafe}

-- the slugs that have not expired
unfoldable pub live : ℕ → Dict SlugEntry → Dict SlugEntry
live now [] = []
live now ((id, e) ∷ d) =
    let rest = live now d in if ltb e.slug.expires_at now then rest else (id, e) ∷ rest

pub record IsSwept (now : ℕ) (d : Dict SlugEntry) (chans : Chans)
    (r : Outcome ℕ × (Dict SlugEntry × Chans)) : Type 0 where
  pub removed : (n : ℕ) × (r.0 ≡ ret n) × (n + length (live now d) ≡ length d)
  pub kept : r.1.0 ≡ live now d
  pub closes :
      (c : ℕ)
      → total (subscribed c) (live now d) + closed_at r.1.1 c
        ≡ total (subscribed c) d + closed_at chans c

sweep-IsSwept :
    (now : ℕ) (d : Dict SlugEntry) (chans : Chans)
    → ((c : ℕ) → total (subscribed c) d + closed_at chans c ≤ 1)
    → IsSwept now d chans (sweep now d chans)
unfolding sweep live
sweep-IsSwept now [] chans h = record {
  removed = (0, refl, omega arith);
  kept = refl;
  closes = λ c. refl;
}
sweep-IsSwept now ((id, e) ∷ d) chans h = elim (Bool-cases (ltb e.slug.expires_at now)) [
  | inl expired ↦
      let done = close_all-IsClosed e.subscribers chans (λ c. omega (arith, h c)) in
      let chans' = (close_all e.subscribers chans).1 in
      let ih = sweep-IsSwept now d chans' (λ c. omega (arith, h c, done.closes c)) in
      let (n, returns, counts) = ih.removed in
      let l : live now ((id, e) ∷ d) ≡ live now d = rw expired refl in
      rw (expired, sweep, done.returns, returns)
        (record {
          removed = (n + 1, refl, omega (arith, ap length l));
          kept = ih.kept ∙ sym l;
          closes = λ c. omega (arith, done.closes c, ih.closes c, ap (total (subscribed c)) l);
        })
  | inr alive ↦
      let ih = sweep-IsSwept now d chans (λ c. omega (arith, h c)) in
      let (n, returns, counts) = ih.removed in
      let l : live now ((id, e) ∷ d) ≡ (id, e) ∷ live now d = rw alive refl in
      rw (alive, sweep)
        (record {
          removed = (n, returns, omega (arith, ap length l));
          kept = ap (λ k. (id, e) ∷ k) ih.kept ∙ sym l;
          closes = λ c. omega (arith, ih.closes c, ap (total (subscribed c)) l);
        })
]

Every-live : (m now : ℕ) (d : Dict SlugEntry) → Every (IsEntry m) d → Every (IsEntry m) (live now d)
unfolding live
Every-live m now [] a = tt
Every-live m now ((id, e) ∷ d) (p, a) = elim (Bool-cases (ltb e.slug.expires_at now)) [
  | inl expired ↦ rw expired (Every-live m now d a)
  | inr alive ↦ rw alive (p, Every-live m now d a)
]

total-live :
    (c now : ℕ) (d : Dict SlugEntry) → total (subscribed c) (live now d) ≤ total (subscribed c) d
unfolding live
total-live c now [] = omega arith
total-live c now ((id, e) ∷ d) = ground (arith, total-live c now d)

-- From a state that keeps the invariant Cleanup returns: it removes exactly the slugs that expired
-- before now, returns their number, and closes the channels of their subscribers and no others.
pub cleanup_lem :
    (now : ℕ) (s : Svc)
    → IsValid s
    → ((cleanup now s).0 ≡ ret (slug_count s - slug_count (cleanup now s).1))
      × ((cleanup now s).1.slugs ≡ live now s.slugs)
      × ((c : ℕ)
          → closed_at (cleanup now s).1.chans c + total (subscribed c) (live now s.slugs)
            ≡ closed_at s.chans c + total (subscribed c) s.slugs)
unfolding cleanup slug_count
cleanup_lem now s v =
    let done = sweep-IsSwept now s.slugs s.chans v.unclosed in
    let (n, returns, counts) = done.removed in
    let k : n ≡ length s.slugs - length (sweep now s.slugs s.chans).1.0 =
      omega (arith, ap length done.kept) in
    (returns ∙ ap ret k, done.kept, λ c. omega (arith, done.closes c))

pub cleanup-IsSafe : (now : ℕ) (s : Svc) → IsValid s → IsSafe (cleanup now s)
unfolding cleanup
cleanup-IsSafe now s v =
    let done = sweep-IsSwept now s.slugs s.chans v.unclosed in
    let (n, returns, counts) = done.removed in
    record {
      returns = (n, returns);
      valid = record {
        positive = v.positive;
        entries = rw done.kept (Every-live s.max_events_per_slug now s.slugs v.entries);
        unclosed =
            λ c. omega (arith, done.closes c, v.unclosed c, ap (total (subscribed c)) done.kept);
        fresh = λ c h.
            omega
              (arith, total-live c now s.slugs, v.fresh c h, ap (total (subscribed c)) done.kept);
      };
    }
