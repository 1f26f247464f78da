-- ===== src/Registry/RestartTests.antt =====
-- A restart (LoadFrom of internal/registry/persistence.go) on tables with one live slug.

use tripflare.Store.Reload.{quiet}
use tripflare.Store.Sqlite.{select, in_ids, sqlite}
use tripflare.Registry.Restored.{Restored, InTime, load_from_lem}
use tripflare.Registry.Persistence.{load_from}
use tripflare.Base.{
  ltb, GoString, bytes, lookup, ok, ◌≡◌, ◌⊎◌, inl, inr, false, none, [], ◌∷◌, arith,
}
use tripflare.Registry.Methods.{new}
use tripflare.Store.Rows.{SlugRow, EventRow}
use tripflare.Store.Monad.{orders_of, Db}

abbrev slug : GoString
slug = bytes "abc12345"

abbrev row : SlugRow
row = record {
  id = slug;
  owner = bytes "alice";
  created_at = 2_000_000_000;
  expires_at = 9_000_000_000;
}

abbrev event : EventRow
event = record {
  slug = slug;
  type = bytes "dns";
  source_ip = [];
  timestamp = 3_000_000_000;
  payload = [];
}

abbrev tables : Db
tables = record {
  slugs = row ∷ [];
  events = event ∷ [];
  faults = [];
  orders = orders_of [] (1 ∷ []);
}

tables-InTime : InTime tables
tables-InTime =
    ((omega arith, λ t k same. elim k [ inl q ↦ rw q (omega arith) | inr k' ↦ absurd k' ]), tt)

load_from_lem_example :
    let r = load_from sqlite 4_000_000_000 (new 3 60) (quiet tables) in
    let live = select (λ t. ltb 4_000_000_000 t.expires_at) tables.slugs in
    (r.0 ≡ ok tt)
    × (((in_ids slug live ≡ false) × (lookup slug r.1.slugs ≡ none))
        ⊎ Restored slug live tables.events r.1)
load_from_lem_example = load_from_lem 4_000_000_000 3 60 tables slug tables-InTime
