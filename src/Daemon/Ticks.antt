-- ===== src/Daemon/Ticks.antt =====
-- cmd/tripflare/main.go: what one tick of the flush loop removes.
use mathlib.Core.Path.{subst}
use tripflare.Store.Integrity.{without_expired, delete_expired_lem}
use tripflare.Base.{
  ltb, Bool-cases, All, Dict, Every, ok, ℕ, ◌-◌, ◌≡◌, sym, inl, inr, Bool, true, false, not, List,
  [], ◌∷◌,
}
use tripflare.Store.Rows.{SlugRow}
use tripflare.Store.Sqlite.{select, is_expired, delete_expired, sqlite}
use tripflare.Registry.Types.{SlugEntry}
use tripflare.Registry.Invariant.Sweep.{live, cleanup_lem, cleanup-IsSafe}
use tripflare.Registry.Invariant.Steps.{Reach-IsValid}
use tripflare.Registry.Persistence.{flush_to}
use tripflare.Ratelimit.Floats.{Floats}
use tripflare.Ratelimit.Buckets.{Entry, gc_keys, gc}
use tripflare.Daemon.{rate_limit_gc_max_age, Clock, State, tick}
use tripflare.Daemon.Alive.{flush_to-Reach, IsHealthy}

abbrev pub Unexpired : ℕ → Dict SlugEntry → Type 0
Unexpired now d = Every (λ _ e. ltb e.slug.expires_at now ≡ false) d

live-Unexpired : (now : ℕ) (d : Dict SlugEntry) → Unexpired now (live now d)
unfolding live
live-Unexpired now [] = tt
live-Unexpired now ((id, e) ∷ d) = elim (Bool-cases (ltb e.slug.expires_at now)) [
  | inl expired ↦ rw expired (live-Unexpired now d)
  | inr fine ↦ rw fine (fine, live-Unexpired now d)
]

All-select : (p : SlugRow → Bool) (rows : List SlugRow) → All (λ r. p r ≡ true) (select p rows)
unfolding select
All-select p [] = tt
All-select p (r ∷ rows) = elim (Bool-cases (p r)) [
  | inl yes' ↦ rw yes' (yes', All-select p rows)
  | inr no' ↦ rw no' (All-select p rows)
]

module _ (f : Floats) where
  abbrev pub Used : ℕ → Dict (Entry f) → Type 0
  Used cutoff keys = Every (λ _ e. ltb e.last_access cutoff ≡ false) keys

  gc_keys-Used : (cutoff : ℕ) (keys : Dict (Entry f)) → Used cutoff (gc_keys f cutoff keys)
  unfolding gc_keys
  gc_keys-Used cutoff [] = tt
  gc_keys-Used cutoff ((key, e) ∷ keys) = elim (Bool-cases (ltb e.last_access cutoff)) [
    | inl idle ↦ rw idle (gc_keys-Used cutoff keys)
    | inr used ↦ rw used (used, gc_keys-Used cutoff keys)
  ]

  -- After a tick on a healthy state during which nothing else runs, no slug in memory had expired
  -- when Cleanup ran; if DeleteExpired returned no error, then no slug in the store had expired at
  -- the time that it was given; and the limiter has no key that was not used in the hour before GC
  -- ran.
  pub tick_lem :
      (clock : Clock) (w : State f)
      → IsHealthy f w
      → let w' = (tick f clock w).1 in
        Unexpired clock.cleaned w'.registry.slugs
        × (((n : ℕ)
              → (delete_expired clock.deleted (flush_to sqlite w.registry w.db).2).0 ≡ ok n
              → All (λ r. not (is_expired clock.deleted r) ≡ true) w'.db.slugs)
            × Used (clock.collected - rate_limit_gc_max_age) w'.limits.keys)
  unfolding tick gc without_expired
  tick_lem clock w h =
      let flushed = flush_to sqlite w.registry w.db in
      let valid = Reach-IsValid (flush_to-Reach sqlite w.registry w.db) h.registry in
      let (a, returns) = (cleanup-IsSafe clock.cleaned flushed.1 valid).returns in
      let (_, swept, _) = cleanup_lem clock.cleaned flushed.1 valid in
      rw (returns, tick)
        (
          subst (Unexpired clock.cleaned) (sym swept)
              (live-Unexpired clock.cleaned flushed.1.slugs),
          (
            λ n deleted.
                let (_, gone, _) = delete_expired_lem clock.deleted n flushed.2 deleted in
                subst (All (λ r. not (is_expired clock.deleted r) ≡ true)) (sym gone)
                  (All-select _ flushed.2.slugs),
            gc_keys-Used (clock.collected - rate_limit_gc_max_age) w.limits.keys,
          ),
        )
