-- ===== src/Registry/Invariant.antt =====
-- The invariant of the registry's state (internal/registry).
pub mod Methods
pub mod Sweep
pub mod Steps
use tripflare.Base.{
  length, GoString, lookup, Outcome, Returns, Every, total, of_found, total-remove, ℕ, ◌+◌, ◌≤◌,
  ◌<◌, ◌≡◌, ap, some, arith,
}
use tripflare.Registry.Types.{SlugEntry, Svc}
use tripflare.Registry.Subscribers.{count, closed_at, Open}

-- in how many subscriber lists the channel c stands
abbrev pub subscribed : ℕ → SlugEntry → ℕ
subscribed c e = count c e.subscribers

-- an entry stands under its slug's id, and holds no more events than the limit
abbrev pub IsEntry : ℕ → GoString → SlugEntry → Type 0
IsEntry max_events id e = (e.slug.id ≡ id) × (length e.events ≤ max_events)

pub record IsValid (s : Svc) : Type 0 where
  pub positive : 0 < s.max_events_per_slug
  pub entries : Every (IsEntry s.max_events_per_slug) s.slugs
  pub unclosed : (c : ℕ) → total (subscribed c) s.slugs + closed_at s.chans c ≤ 1
  pub fresh : (c : ℕ) → s.next ≤ c → total (subscribed c) s.slugs ≡ 0

-- a method's result: it returned, and the invariant holds
pub record IsSafe {A : Type 0} (r : Outcome A × Svc) : Type 0 where
  pub returns : Returns r.0
  pub valid : IsValid r.1

-- the subscribers of an entry of the map are open
pub subscribers-Open :
    (s : Svc) (slug : GoString) (e : SlugEntry)
    → IsValid s
    → lookup slug s.slugs ≡ some e
    → Open e.subscribers s.chans
subscribers-Open s slug e v found c = omega (
  arith,
  total-remove (subscribed c) slug s.slugs,
  v.unclosed c,
  ap (of_found (subscribed c)) found,
)
