-- ===== src/Daemon.antt =====
-- cmd/tripflare/main.go: how the services are made, the flush loop and the end of run.
pub mod Process
pub mod Uninterrupted
pub mod Alive
pub mod Ticks
pub mod Wiring
pub mod Restart
pub mod Tests
use tripflare.Base.{
  ◌==◌, if◌then◌else◌, GoString, Outcome, ret, panic, then_do, Result, ok, err, ℕ, ◌*◌, Bool, true,
  false, Option, none, some, List, [], ◌∷◌,
}
use tripflare.Config.{Config}
use tripflare.Store.Monad.{Db}
use tripflare.Store.Sqlite.{delete_expired, sqlite}
use tripflare.Registry.Methods.{cleanup, new as new_registry}
use tripflare.Registry.Persistence.{flush_to, load_from}
use tripflare.Ratelimit.Floats.{Floats}
use tripflare.Ratelimit.Buckets.{TierConfig, allow, gc, Svc as Limiter, new as new_limiter}
use tripflare.Geoip.{DirEntry}
use tripflare.Geoip.Lookup.{Addr, Reader, GeoService, lookup_ip, new as new_geoip}
use tripflare.Dns.Messages.{Ip}
use tripflare.Dns.Answers.{Zone, new as new_zone}
use tripflare.Acme.Challenge.{new_challenge_store}
use tripflare.Acme.SelfSigned.{hour}
use tripflare.Acme.Types.{Key, Crypto, Svc as Manager}
use tripflare.Acme.Manager.{new as new_manager}
use tripflare.Http.Types.{Server, World}

-- rateLimitGCMaxAge
abbrev pub rate_limit_gc_max_age : ℕ
rate_limit_gc_max_age = 1 * hour

-- time.Minute
abbrev pub minute : ℕ
minute = 60_000_000_000

-- the tier of the access limiter
abbrev pub hits_tier : Config → TierConfig
hits_tier cfg = record { capacity = cfg.limits.max_hits_per_slug_per_minute; window = minute }

-- what the clock shows in one tick: to Cleanup, to DeleteExpired and to GC
pub record Clock : Type 0 where
  pub cleaned : ℕ
  pub deleted : ℕ
  pub collected : ℕ

-- what becomes of an error that is logged only
abbrev pub logged : {A B : Type 0} → Result A × B → B
logged r = r.1

-- time.NewTicker panics for an interval that is not positive
unfoldable pub new_ticker : ℕ → Outcome (Unit {0})
new_ticker interval = if interval == 0 then panic else ret tt

module _ (f : Floats) where
  -- the states of the registry, of the store and of the limiter, which the goroutines share
  abbrev pub State : Type 0
  State = World Db (Limiter f)

  -- the case of flushLoop's ticker, where nothing else runs during it
  unfoldable pub tick : Clock → State → Outcome (Unit {0}) × State
  tick clock w =
      let (flushed, registry', db') = flush_to sqlite w.registry w.db in
      let (removed, registry'') = cleanup clock.cleaned registry' in
      then_do (removed, record w { registry = registry''; db = db' })
        (λ _ w'. (
          ret tt,
          record w' {
            db = logged (delete_expired clock.deleted w'.db);
            limits = gc f rate_limit_gc_max_age clock.collected w'.limits;
          },
        ))

  -- the loop of flushLoop until the context is done
  unfoldable pub tick_all : List Clock → State → Outcome (Unit {0}) × State
  tick_all [] w = (ret tt, w)
  tick_all (clock ∷ clocks) w = then_do (tick clock w) (λ _. tick_all clocks)

  -- flushLoop, where nothing else runs during its ticks
  unfoldable pub flush_loop : ℕ → List Clock → State → Outcome (Unit {0}) × State
  flush_loop interval clocks w = then_do (new_ticker interval, w) (λ _. tick_all clocks)

  -- the last flush of run
  unfoldable pub shut_down : State → State
  shut_down w =
      let (flushed, registry', db') = flush_to sqlite w.registry w.db in
      record w { registry = registry'; db = db' }

  -- initServices: `opened` is what store.New returns, and the geoip databases are read through
  -- `read_dir` and `open_db`
  module _ (read_dir : GoString → Result (List DirEntry)) (open_db : GoString → Result Reader) where
    -- geoip.New, and a service without databases where it fails
    unfoldable pub geoip_or_noop : GoString → Result GeoService
    geoip_or_noop path = elim (new_geoip read_dir open_db path) [
      | ok geo ↦ ok geo
      | err m ↦ elim (new_geoip read_dir open_db []) [
        | ok geo ↦ ok geo
        | err m' ↦ err "create noop geoip"
      ]
    ]

    unfoldable pub init_services : Config → Result Db → ℕ → Result (State × GeoService)
    init_services cfg opened now = elim opened [
      | err m ↦ err "create store"
      | ok db ↦
          let (loaded, registry', db') =
            load_from sqlite now (new_registry cfg.limits.max_events_per_slug cfg.limits.slug_ttl)
              db in
          elim loaded [
            | err m ↦ err "load registry"
            | ok _ ↦ elim (geoip_or_noop cfg.geoip_path) [
              | err m ↦ err "create noop geoip"
              | ok geo ↦ ok (
                record {
                  registry = registry';
                  db = db';
                  limits = new_limiter f (hits_tier cfg ∷ []);
                },
                geo,
              )
            ]
          ]
    ]

  -- the service that httpserver.New is given to
  unfoldable pub new_server :
      (GoString → Option Addr)
      → (GoString → GoString → Bool)
      → Config
      → GeoService
      → Server Db (Limiter f)
  new_server parse_addr password_matches cfg geo = record {
    domain = cfg.domain;
    store = some sqlite;
    allow = allow f;
    auth = cfg.auth;
    geo = lookup_ip parse_addr geo;
    password_matches = password_matches;
  }

-- What startServers has started: the DNS server's zone, and, unless the context was done before the
-- DNS server was ready, the ACME manager.
pub record Started : Type 0 where
  pub zone : Zone
  pub manager : Option Manager

unfoldable pub start_servers :
    (GoString → Option Ip)
    → (GoString → GoString)
    → Crypto
    → Config
    → Bool
    → Result Key
    → Result ℕ
    → ℕ
    → Result Started
start_servers parse_ip fqdn lib cfg dns_ready new_key new_serial now =
    elim (new_zone parse_ip fqdn cfg.domain cfg.external_ip cfg.nameservers) [
      | none ↦ err "create dns server"
      | some zone ↦ elim dns_ready [
        | false ↦ ok (record { zone = zone; manager = none })
        | true ↦
            elim (new_manager lib cfg.domain cfg.acme.email cfg.cert_path cfg.acme.staging
              cfg.acme.enabled new_challenge_store new_key new_serial now) [
                | err m ↦ err "create acme manager"
                | ok manager ↦ ok (record { zone = zone; manager = some manager })
              ]
      ]
    ]
