-- ===== src/Daemon/Uninterrupted.antt =====
-- cmd/tripflare/main.go: the flush loop's steps when nothing else runs between them.
use tripflare.Registry.Types.{Svc}
use tripflare.Store.Rows.{SlugRow, EventRow}
use tripflare.Base.{GoString, Outcome, Result, ok, err, ℕ, ◌≡◌, List, ◌++◌, map}
use tripflare.Store.Monad.{Db}
use tripflare.Store.Sqlite.{sqlite}
use tripflare.Registry.Persistence.{FlushSnapshot, persist}
use tripflare.Ratelimit.Floats.{Floats}
use tripflare.Ratelimit.Buckets.{Svc as Limiter}
use tripflare.Dns.Messages.{QType}
use tripflare.Dns.Answers.{Zone}
use tripflare.Http.Types.{Server}
use tripflare.Daemon.{State}
use tripflare.Daemon.Process.{Flusher, at_slug, at_end, at_cleanup, Act, flushes, acts}

module _ (f : Floats) (type_to_string : QType → GoString) (zone : Zone)
    (server : Server Db (Limiter f)) where
  abbrev run : List Act → Flusher → State f → Outcome (Unit {0}) × State f
  run = acts f type_to_string zone server

  -- from one place of the flush loop to another, by steps of its own
  abbrev Leads : Flusher → State f → Flusher → State f → Type 0
  Leads g w g' w' =
      (list : List ℕ) × ((rest : List Act) → run (map flushes list ++ rest) g w ≡ run rest g' w')

  -- where FlushTo goes on after the writes for a snapshot
  dest : Result (Unit {0}) → FlushSnapshot → List FlushSnapshot → Flusher
  dest (ok u) snap snaps = at_end snap snaps
  dest (err m) snap snaps = at_cleanup

  module _ (slug : SlugRow) (entry snapshot_len : ℕ) (snaps : List FlushSnapshot)
      (w : State f) where
    abbrev at_events_of : List EventRow → FlushSnapshot
    at_events_of rows = record {
      slug = slug;
      events = rows;
      entry = entry;
      snapshot_len = snapshot_len;
    }

    abbrev inserted : Result (Unit {0}) × Db
    inserted = sqlite.insert_slug slug w.db

    abbrev Persists : FlushSnapshot → Type 0
    Persists snap =
        Leads (at_slug snap snaps) w (dest (persist sqlite snap w.db).0 snap snaps)
          (record w { db = (persist sqlite snap w.db).1 })

  -- what a flush leaves
  abbrev flushed : Result (Unit {0}) × Svc × Db → State f → State f
  flushed r w = record w { registry = r.1; db = r.2 }
