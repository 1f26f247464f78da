-- ===== src/Daemon/Restart.antt =====
-- cmd/tripflare/main.go: the last flush of run, and the start that comes after it.
use mathlib.Core.List.{Perm}
use mathlib.Core.Path.{subst}
use tripflare.Base.{
  ltb, length, GoString, lookup, Every, ok, ℕ, ◌≤◌, ◌≡◌, ◌⊎◌, inl, inr, false, none, ◌++◌,
}
use tripflare.Store.Sqlite.{select, max_slug_id, in_ids, sqlite}
use tripflare.Store.Reload.{quiet}
use tripflare.Registry.Methods.{new as new_registry}
use tripflare.Registry.Persistence.{flush_to, events_of, load_from}
use tripflare.Registry.Flushing.{pending, flush_to_lem}
use tripflare.Registry.Restored.{Restored, InTime, load_from_lem}
use tripflare.Ratelimit.Floats.{Floats}
use tripflare.Daemon.{State, shut_down}

module _ (f : Floats) where
  -- a driver that does not fail
  abbrev pub with_quiet : State f → State f
  with_quiet w = record w { db = quiet w.db }

  -- With a driver that does not fail and ids of at most 64 bytes, and in whatever order the queries
  -- give their rows: after the last flush of run and a new start, a slug that is in the store and has
  -- not expired has, each as often, the events stored before and those that the last flush still had
  -- to store, and no other; another slug is absent. This asks that the stored events came after the
  -- creation of their slugs.
  pub shut_down-load_from :
      (w : State f) (now max_events ttl : ℕ) (id : GoString)
      → Every (λ _ e. length e.slug.id ≤ max_slug_id) w.registry.slugs
      → let w' = shut_down f (with_quiet w) in
        InTime w'.db
        → let r = load_from sqlite now (new_registry max_events ttl) (quiet w'.db) in
          let live = select (λ t. ltb now t.expires_at) w'.db.slugs in
          (r.0 ≡ ok tt)
          × (((in_ids id live ≡ false) × (lookup id r.1.slugs ≡ none))
              ⊎ Restored id live (w.db.events ++ pending w.registry.slugs) r.1)
  unfolding shut_down
  shut_down-load_from w now max_events ttl id short timely =
      let (_, stored) = flush_to_lem w.registry w.db short in
      let (returns, outcome) =
        load_from_lem now max_events ttl (flush_to sqlite w.registry (quiet w.db)).2 id timely in
      (
        returns,
        elim outcome [
          | inl absent ↦ inl absent
          | inr (t, e, is_row, named, is_found, row, events) ↦ inr (
            t,
            e,
            is_row,
            named,
            is_found,
            row,
            subst (λ rows. Perm e.events (events_of id rows)) stored events,
          )
        ],
      )
