-- ===== src/Daemon/Wiring.antt =====
-- cmd/tripflare/main.go: initServices.
use tripflare.Dns.Answers.{Zone}
use tripflare.Dns.Messages.{QType}
use tripflare.Registry.Invariant.Methods.{new-IsValid}
use mathlib.Core.Path.{subst}
use tripflare.Base.{
  GoString, str_eq, Result, ok, err, Result-cases, ℕ, ◌<◌, max, ◌≡◌, refl, ◌⊎◌, inl, inr, Bool,
  Option, String, List, [], ◌∷◌,
}
use tripflare.Config.{Config}
use tripflare.Store.Monad.{Db}
use tripflare.Store.Sqlite.{sqlite}
use tripflare.Store.Integrity.{HasSlugs, HasSlugs-same}
use tripflare.Registry.Types.{Svc}
use tripflare.Registry.Methods.{new as new_registry}
use tripflare.Registry.Persistence.{load_from}
use tripflare.Registry.Revived.{Fits, load_from-IsValid}
use tripflare.Ratelimit.Floats.{Floats}
use tripflare.Ratelimit.Buckets.{new as new_limiter}
use tripflare.Geoip.{DirEntry}
use tripflare.Geoip.Lookup.{Addr, Reader, GeoService, noop, new as new_geoip}
use tripflare.Daemon.{hits_tier, State, geoip_or_noop, init_services, new_server}
use tripflare.Registry.Invariant.{IsValid}
use tripflare.Daemon.Process.{Act, live}
use tripflare.Daemon.Alive.{IsHealthy, IsAlive, live-IsAlive}

module _ (f : Floats) (read_dir : GoString → Result (List DirEntry))
    (open_db : GoString → Result Reader) where
  new_of_empty : new_geoip read_dir open_db [] ≡ ok noop
  unfolding new_geoip str_eq
  new_of_empty = refl

  geoip_or_noop_lem :
      (path : GoString) → (geo : GeoService) × (geoip_or_noop f read_dir open_db path ≡ ok geo)
  unfolding geoip_or_noop
  geoip_or_noop_lem path = elim (Result-cases (new_geoip read_dir open_db path)) [
    | inl (m, e) ↦ (noop, rw (e, geoip_or_noop) (rw new_of_empty))
    | inr (geo, e) ↦ (geo, rw (e, geoip_or_noop))
  ]

  -- what LoadFrom makes of a new registry
  abbrev pub loaded : Config → Db → ℕ → Result (Unit {0}) × Svc × Db
  loaded cfg db now =
      load_from sqlite now (new_registry cfg.limits.max_events_per_slug cfg.limits.slug_ttl) db

  -- what initServices returns, on any store
  init_services-cases :
      (cfg : Config) (db : Db) (now : ℕ)
      → 0 < cfg.limits.max_events_per_slug
      → Fits cfg.limits.max_events_per_slug db.events
      → (((m : String) × ((loaded cfg db now).0 ≡ err m))
          × (init_services f read_dir open_db cfg (ok db) now ≡ err "load registry"))
        ⊎ ((w : State f) × ((geo : GeoService) × ((init_services f read_dir open_db cfg (ok db) now
                  ≡ ok (w, geo))
                × (IsValid w.registry × ((w.db.slugs ≡ db.slugs) × (w.db.events ≡ db.events))))))
  unfolding init_services new_registry
  init_services-cases cfg db now positive fits =
      let (max, ttl) : ℕ × ℕ = (cfg.limits.max_events_per_slug, cfg.limits.slug_ttl) in
      let (valid, tables) =
        load_from-IsValid now (new_registry max ttl) db fits (new-IsValid max ttl positive) in
      elim (Result-cases (loaded cfg db now).0) [
        | inl (m, e) ↦ inl ((m, e), rw (e, init_services))
        | inr (done, e) ↦
            let (geo, opens) = geoip_or_noop_lem cfg.geoip_path in
            let w : State f = record {
              registry = (loaded cfg db now).1;
              db = (loaded cfg db now).2;
              limits = new_limiter f (hits_tier cfg ∷ []);
            } in
            inr (w, (geo, (rw (e, init_services) (rw opens), (valid, tables))))
      ]

  -- Where the store opens, max_events_per_slug is not 0, no slug has more stored events than it
  -- allows, and the store has the slug of every event: initServices fails only if LoadFrom does,
  -- whatever the geoip files are; otherwise the registry keeps its invariant and the store still
  -- has the slug of every event.
  pub init_services_lem :
      (cfg : Config) (db : Db) (now : ℕ)
      → 0 < cfg.limits.max_events_per_slug
      → Fits cfg.limits.max_events_per_slug db.events
      → HasSlugs db
      → (((m : String) × ((loaded cfg db now).0 ≡ err m))
          × (init_services f read_dir open_db cfg (ok db) now ≡ err "load registry"))
        ⊎ ((w : State f) × ((geo : GeoService) × ((init_services f read_dir open_db cfg (ok db) now
                  ≡ ok (w, geo))
                × IsHealthy f w)))
  init_services_lem cfg db now positive fits stored =
      elim (init_services-cases cfg db now positive fits) [
        | inl fails ↦ inl fails
        | inr (w, (geo, (starts, (valid, tables)))) ↦ inr (
          w,
          (geo, (starts, record { registry = valid; store = HasSlugs-same w.db db tables stored })),
        )
      ]

module _ (f : Floats) (read_dir : GoString → Result (List DirEntry))
    (open_db : GoString → Result Reader) (type_to_string : QType → GoString) (zone : Zone)
    (parse_addr : GoString → Option Addr) (password_matches : GoString → GoString → Bool) where
  -- A process that initServices has started, on a store with no slug that has more events than
  -- max_events_per_slug, where that and flush_interval are not 0: whatever the goroutines do, one
  -- after another, namely requests, queries, what a stream receives and its unsub, and the steps of
  -- the flush loop, with anything between the calls of the store in FlushTo, and whichever calls of
  -- the database's driver fail, the process never panics, and the registry keeps its invariant.
  pub started-IsAlive :
      (cfg : Config) (db : Db) (now : ℕ) (w : State f) (geo : GeoService) (list : List Act)
      → 0 < cfg.limits.max_events_per_slug
      → 0 < cfg.limits.flush_interval
      → Fits cfg.limits.max_events_per_slug db.events
      → init_services f read_dir open_db cfg (ok db) now ≡ ok (w, geo)
      → IsAlive f (
          live f type_to_string zone
            (new_server f parse_addr password_matches cfg geo)
            cfg.limits.flush_interval
            list
            w)
  started-IsAlive cfg db now w geo list positive ticking fits started =
      elim (init_services-cases f read_dir open_db cfg db now positive fits) [
        | inl (_, fails) ↦ absurd cc
        | inr (w', (geo', (starts, (valid, _)))) ↦
            let same : w' ≡ w = cc in
            live-IsAlive f type_to_string zone (new_server f parse_addr password_matches cfg geo)
              cfg.limits.flush_interval list w ticking (subst (λ v. IsValid v.registry) same valid)
      ]
