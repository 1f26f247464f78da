-- ===== src/Daemon/Tests.antt =====
-- The process (cmd/tripflare/main.go) on a store with one slug.
use mathlib.Core.Path.{subst}
use tripflare.Registry.Flushing.{pending}
use tripflare.Store.Reload.{quiet}
use tripflare.Registry.Restored.{Restored, InTime}
use tripflare.Registry.Methods.{new as new_registry}
use tripflare.Geoip.Mapped.{lookup_ip_of_mapped}
use tripflare.Http.Types.{Request}
use tripflare.Dns.Messages.{type_a, Query, ip4}
use tripflare.Daemon.Restart.{with_quiet, shut_down-load_from}
use tripflare.Daemon.Ticks.{Unexpired, Used, tick_lem}
use tripflare.Dns.Answers.{Zone}
use tripflare.Base.{
  ltb, length, All, GoString, bytes, str_eq, lookup, insert, Every, Result, ok, err, ℕ, ◌+◌, ◌-◌,
  ◌*◌, ◌^◌, ◌≤◌, ◌≡◌, refl, ◌⊎◌, inl, inr, true, false, not, Option, none, some, String, List, [],
  ◌∷◌, ◌++◌, arith,
}
use tripflare.Config.{Config}
use tripflare.Store.Monad.{orders_of, Db, call}
use tripflare.Store.Rows.{SlugRow, EventRow}
use tripflare.Store.Sqlite.{
  select, place_at, rearrange, max_slug_id, load_slugs, load_events, is_expired, in_ids,
  delete_expired, sqlite,
}
use tripflare.Store.Integrity.{HasSlugs}
use tripflare.Registry.Persistence.{
  collect, collect_dirty_snapshots, flush_snapshots, flush_to, events_of, loaded_entry, restore,
  load_from,
}
use tripflare.Registry.Revived.{Fits}
use tripflare.Ratelimit.Buckets.{new as new_limiter}
use tripflare.Ratelimit.Floats.{exact}
use tripflare.Geoip.{DirEntry}
use tripflare.Geoip.Lookup.{
  Addr, v4, v6, Reader, GeoService, noop, svc, find_db_in, lookup_ip, new as new_geoip,
}
use tripflare.Daemon.Process.{Act, flushes, https, http, queries, receives, leaves, live}
use tripflare.Daemon.{
  rate_limit_gc_max_age, hits_tier, Clock, State, tick, shut_down, geoip_or_noop, init_services,
  new_server,
}
use tripflare.Daemon.Alive.{IsHealthy, IsAlive}
use tripflare.Daemon.Wiring.{loaded, init_services_lem, started-IsAlive}

abbrev slug : GoString
slug = bytes "abc12345"

abbrev row : SlugRow
row = record {
  id = slug;
  owner = bytes "alice";
  created_at = 2_000_000_000;
  expires_at = 9_000_000_000;
}

abbrev event : EventRow
event = record {
  slug = slug;
  type = bytes "dns";
  source_ip = [];
  timestamp = 3_000_000_000;
  payload = [];
}

-- the first call of the driver after those of the start fails
abbrev tables : Db
tables = record {
  slugs = row ∷ [];
  events = event ∷ [];
  faults = false ∷ false ∷ true ∷ [];
  orders = orders_of [] (1 ∷ []);
}

tables-Fits : Fits 500 tables.events
unfolding events_of
tables-Fits id = ground arith

tables-HasSlugs : HasSlugs tables
unfolding in_ids str_eq
tables-HasSlugs = record { rows = (refl, tt) }

abbrev cfg : Config
cfg = record {
  domain = bytes "a.io";
  external_ip = bytes "1.2.3.4";
  nameservers = [];
  log_format = [];
  listen = record { dns = bytes ":53"; http = bytes ":80"; https = bytes ":443" };
  sqlite_path = bytes "db";
  cert_path = bytes "certs";
  acme = record { enabled = false; email = []; staging = true };
  auth = [];
  limits = record {
    max_events_per_slug = 500;
    slug_ttl = 12 * 3600 * 1_000_000_000;
    flush_interval = 30 * 1_000_000_000;
    max_hits_per_slug_per_minute = 60;
  };
  geoip_path = bytes "geo";
}

abbrev no_dir : GoString → Result (List DirEntry)
no_dir dir = err "no such directory"

abbrev no_db : GoString → Result Reader
no_db path = err "no such file"

init_services_lem_example :
    (((m : String) × ((loaded (exact 60) no_dir no_db cfg tables 4_000_000_000).0 ≡ err m))
      × (init_services (exact 60) no_dir no_db cfg (ok tables) 4_000_000_000 ≡ err "load registry"))
    ⊎ ((w : State (exact 60)) × ((geo : GeoService) × ((init_services
                (exact 60)
                no_dir
                no_db
                cfg
                (ok tables)
                4_000_000_000
              ≡ ok (w, geo))
            × IsHealthy (exact 60) w)))
init_services_lem_example =
    init_services_lem (exact 60) no_dir no_db cfg tables 4_000_000_000 (omega arith) tables-Fits
      tables-HasSlugs

abbrev up : State (exact 60)
up = record {
  registry = (loaded (exact 60) no_dir no_db cfg tables 4_000_000_000).1;
  db = (loaded (exact 60) no_dir no_db cfg tables 4_000_000_000).2;
  limits = new_limiter (exact 60) (hits_tier cfg ∷ []);
}

up-starts : init_services (exact 60) no_dir no_db cfg (ok tables) 4_000_000_000 ≡ ok (up, noop)
unfolding init_services geoip_or_noop new_geoip find_db_in str_eq load_from sqlite load_slugs
    load_events call
up-starts = refl

abbrev zone : Zone
zone = record { domain = bytes "a.io."; external_ip = ip4 (1 ∷ 2 ∷ 3 ∷ 4 ∷ []); nameservers = [] }

abbrev get : Request
get = record {
  host = slug ++ bytes ".a.io";
  method = bytes "GET";
  path = bytes "/x.png";
  raw_query = [];
  user_agent = [];
  header = λ name. [];
  remote_addr = bytes "9.9.9.9:53";
  tls = false;
  basic_auth = none;
}

abbrev question : Query
question = record {
  questions = record { name = slug ++ bytes ".a.io."; qtype = type_a } ∷ [];
  edns = none;
}

abbrev clock : Clock
clock = record { cleaned = 9_000_000_001; deleted = 9_000_000_002; collected = 9_000_000_003 }

abbrev day : List Act
day =
    https [] 5_000_000_000 get
    ∷ flushes 5_000_000_000
    ∷ queries [] (bytes "9.9.9.9:53") question 5_000_000_001
    ∷ flushes 5_000_000_001
    ∷ http 5_000_000_002 get
    ∷ flushes 5_000_000_003
    ∷ receives 1
    ∷ leaves slug 1
    ∷ []

started-IsAlive_example : IsAlive (exact 60) (
    live
      (exact 60)
      (λ t. bytes "A")
      zone
      (new_server (exact 60) (λ ip. none) str_eq cfg noop)
      cfg.limits.flush_interval
      day
      up)
started-IsAlive_example =
    started-IsAlive (exact 60) no_dir no_db (λ t. bytes "A") zone (λ ip. none) str_eq cfg tables
      4_000_000_000 up noop day (omega arith) (omega arith) tables-Fits up-starts

up-IsHealthy : IsHealthy (exact 60) up
up-IsHealthy = elim init_services_lem_example [
  | inl (_, fails) ↦ absurd (let e = up-starts in cc)
  | inr (w, (geo, (starts, healthy))) ↦
      let e = up-starts in let same : w ≡ up = cc in subst (IsHealthy (exact 60)) same healthy
]

tick_lem_example :
    let w' = (tick (exact 60) clock up).1 in
    Unexpired clock.cleaned w'.registry.slugs
    × (((n : ℕ)
          → (delete_expired clock.deleted (flush_to sqlite up.registry up.db).2).0 ≡ ok n
          → All (λ r. not (is_expired clock.deleted r) ≡ true) w'.db.slugs)
        × Used (exact 60) (clock.collected - rate_limit_gc_max_age) w'.limits.keys)
tick_lem_example = tick_lem (exact 60) clock up up-IsHealthy

up_ids : Every (λ _ e. length e.slug.id ≤ max_slug_id) up.registry.slugs
unfolding load_from sqlite load_slugs load_events call restore new_registry insert loaded_entry
    select str_eq rearrange place_at
up_ids = (omega arith, tt)

up-InTime : InTime (shut_down (exact 60) (with_quiet (exact 60) up)).db
unfolding shut_down flush_to collect_dirty_snapshots collect flush_snapshots load_from sqlite
    load_slugs load_events call restore new_registry insert loaded_entry select rearrange place_at
up-InTime =
    ((omega arith, λ t k same. elim k [ inl q ↦ rw q (omega arith) | inr k' ↦ absurd k' ]), tt)

shut_down-load_from_example :
    let w' = shut_down (exact 60) (with_quiet (exact 60) up) in
    let r = load_from sqlite 5_000_000_000 (new_registry 500 60) (quiet w'.db) in
    let live = select (λ t. ltb 5_000_000_000 t.expires_at) w'.db.slugs in
    (r.0 ≡ ok tt)
    × (((in_ids slug live ≡ false) × (lookup slug r.1.slugs ≡ none))
        ⊎ Restored slug live (up.db.events ++ pending up.registry.slugs) r.1)
shut_down-load_from_example =
    shut_down-load_from (exact 60) up 5_000_000_000 500 60 slug up_ids up-InTime

-- an address that is parsed to 1.2.3.4, or to that in its IPv6 form
abbrev parse : GoString → Option Addr
parse [] = none
parse (c ∷ []) = some (v4 16909060)
parse (c ∷ d ∷ ip) = some (v6 0 (0xffff * 2 ^ 32 + 16909060) [])

abbrev readers : GeoService
readers =
    svc (record { country = λ a. some (bytes "DE"); asn = λ a. none })
      (record { country = λ a. none; asn = λ a. some (1, bytes "org") })

lookup_ip_of_mapped_example :
    lookup_ip parse readers (bytes "mapped") ≡ lookup_ip parse readers (bytes "4")
lookup_ip_of_mapped_example =
    lookup_ip_of_mapped parse readers (bytes "4") (bytes "mapped") 16909060 [] (omega arith) refl
      refl
