-- ===== src/Daemon/Process.antt =====
-- What the goroutines of cmd/tripflare/main.go do to the state that they share, one step at a time:
-- FlushTo of internal/registry/persistence.go takes a step for each call of the store, and others
-- may come between two of these.
use tripflare.Base.{GoString, Outcome, ret, then_do, Result, ok, err, ℕ, Option, List, [], ◌∷◌}
use tripflare.Store.Monad.{Db}
use tripflare.Store.Sqlite.{delete_expired, sqlite}
use tripflare.Registry.Channels.{take_event}
use tripflare.Registry.Methods.{cleanup, unsubscribe}
use tripflare.Registry.Persistence.{FlushSnapshot, collect_dirty_snapshots, finish_snapshot}
use tripflare.Ratelimit.Floats.{Floats}
use tripflare.Ratelimit.Buckets.{gc, Svc as Limiter}
use tripflare.Dns.Messages.{QType, Query}
use tripflare.Dns.Answers.{Zone}
use tripflare.Dns.Server.{handle_query}
use tripflare.Acme.Challenge.{Store}
use tripflare.Http.Types.{Request, Server}
use tripflare.Http.Routes.{redirect_handler, main_handler}
use tripflare.Daemon.{rate_limit_gc_max_age, logged, new_ticker, State}

-- where the goroutine of flushLoop is: at the ticker; in FlushTo, before InsertSlug, before
-- InsertEvents or before the locked section at the end, with the snapshots that are left; or before
-- Cleanup, DeleteExpired or GC
pub data Flusher : Type 0 where
  at_ticker : Flusher
  at_slug : FlushSnapshot → List FlushSnapshot → Flusher
  at_events : FlushSnapshot → List FlushSnapshot → Flusher
  at_end : FlushSnapshot → List FlushSnapshot → Flusher
  at_cleanup : Flusher
  at_delete : Flusher
  at_gc : Flusher

-- the loop of FlushTo over the snapshots
unfoldable pub next_snapshot : List FlushSnapshot → Flusher
next_snapshot [] = at_cleanup
next_snapshot (snap ∷ snaps) = at_slug snap snaps

-- after InsertSlug: no InsertEvents without events, and an error ends FlushTo
unfoldable pub after_slug : Result (Unit {0}) → FlushSnapshot → List FlushSnapshot → Flusher
after_slug (err m) snap snaps = at_cleanup
after_slug (ok _) snap snaps = elim snap.events [
  | [] ↦ at_end snap snaps
  | _ ∷ _ ↦ at_events snap snaps
]

-- after InsertEvents
unfoldable pub after_events : Result (Unit {0}) → FlushSnapshot → List FlushSnapshot → Flusher
after_events (err m) snap snaps = at_cleanup
after_events (ok _) snap snaps = at_end snap snaps

-- what the goroutines do next: a step of flushLoop's, a request on either port, a DNS query with the
-- challenges that the store then holds, and the receipt of an event and the deferred unsub of a
-- stream, of any subscriber and any number of times
pub data Act : Type 0 where
  flushes : ℕ → Act
  https : List (Option (List ℕ)) → ℕ → Request → Act
  http : ℕ → Request → Act
  queries : Store → GoString → Query → ℕ → Act
  receives : ℕ → Act
  leaves : GoString → ℕ → Act

module _ (f : Floats) where
  -- one step of flushLoop, at the instant that it reads
  unfoldable pub flush_step : ℕ → Flusher → State f → Outcome Flusher × State f
  flush_step now at_ticker w =
      let (snaps, registry') = collect_dirty_snapshots w.registry in
      (ret (next_snapshot snaps), record w { registry = registry' })
  flush_step now (at_slug snap snaps) w =
      let (inserted, db') = sqlite.insert_slug snap.slug w.db in
      (ret (after_slug inserted snap snaps), record w { db = db' })
  flush_step now (at_events snap snaps) w =
      let (stored, db') = sqlite.insert_events snap.events w.db in
      (ret (after_events stored snap snaps), record w { db = db' })
  flush_step now (at_end snap snaps) w =
      (ret (next_snapshot snaps), record w { registry = finish_snapshot snap w.registry })
  flush_step now at_cleanup w =
      let (removed, registry') = cleanup now w.registry in
      then_do (removed, record w { registry = registry' }) (λ _ w'. (ret at_delete, w'))
  flush_step now at_delete w = (ret at_gc, record w { db = logged (delete_expired now w.db) })
  flush_step now at_gc w =
      (ret at_ticker, record w { limits = gc f rate_limit_gc_max_age now w.limits })

  module _ (type_to_string : QType → GoString) (zone : Zone) (server : Server Db (Limiter f)) where
    unfoldable pub act : Act → Flusher → State f → Outcome Flusher × State f
    act (flushes now) g w = flush_step now g w
    act (https draws now r) g w = then_do (main_handler server draws now r w) (λ _ w'. (ret g, w'))
    act (http now r) g w = then_do (redirect_handler server now r w) (λ _ w'. (ret g, w'))
    act (queries challenges remote_addr r now) g w =
        let (reply, registry') =
          handle_query type_to_string zone challenges remote_addr r now w.registry in
        then_do (reply, record w { registry = registry' }) (λ _ w'. (ret g, w'))
    act (receives sub) g w = (
      ret g,
      record w { registry = record w.registry { chans = take_event sub w.registry.chans } },
    )
    act (leaves slug sub) g w =
        let (left, registry') = unsubscribe slug sub w.registry in
        then_do (left, record w { registry = registry' }) (λ _ w'. (ret g, w'))

    -- one after another; a panic ends the process
    unfoldable pub acts : List Act → Flusher → State f → Outcome (Unit {0}) × State f
    acts [] g w = (ret tt, w)
    acts (a ∷ more) g w = then_do (act a g w) (λ g'. acts more g')

    -- the process from the start of flushLoop, which makes its ticker
    unfoldable pub live : ℕ → List Act → State f → Outcome (Unit {0}) × State f
    live interval list w = then_do (new_ticker interval, w) (λ _. acts list at_ticker)
