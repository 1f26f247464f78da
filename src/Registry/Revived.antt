-- ===== src/Registry/Revived.antt =====
-- internal/registry/persistence.go: the invariant of a registry that LoadFrom has filled.
use tripflare.Store.Monad.{event_order, Db, call}
use tripflare.Base.{
  ltb, length, GoString, insert, total-insert, Every-insert, ok, Result-cases, ℕ, zero, suc, ◌+◌,
  ◌-◌, ◌≤◌, ◌≡◌, refl, ◌∙◌, inl, inr, Bool, List, [], ◌∷◌, arith,
}
use tripflare.Store.Rows.{SlugRow, EventRow}
use tripflare.Store.Sqlite.{select, place_at, rearrange, load_slugs, load_events, sqlite}
use tripflare.Registry.Types.{Event, Svc}
use tripflare.Registry.Invariant.{subscribed, IsEntry, IsValid}
use tripflare.Registry.Persistence.{events_of, earliest, second, loaded_entry, restore, load_from}

-- no slug has more events than the registry keeps
abbrev pub Fits : ℕ → List EventRow → Type 0
Fits max_events rows = (id : GoString) → length (events_of id rows) ≤ max_events

length-events_of-select :
    (p : EventRow → Bool) (id : GoString) (rows : List EventRow)
    → length (events_of id (select p rows)) ≤ length (events_of id rows)
unfolding events_of select
length-events_of-select p id [] = omega arith
length-events_of-select p id (r ∷ rows) = ground (arith, length-events_of-select p id rows)

length-events_of-place_at :
    (id : GoString) (n : ℕ) (r : EventRow) (rows : List EventRow)
    → length (events_of id (place_at n r rows)) ≡ length (events_of id (r ∷ rows))
unfolding events_of place_at
length-events_of-place_at id zero r rows = refl
length-events_of-place_at id (suc n) r [] = refl
length-events_of-place_at id (suc n) r (q ∷ rows) =
    ground (arith, length-events_of-place_at id n r rows)

length-events_of-rearrange :
    (id : GoString) (ns : List ℕ) (rows : List EventRow)
    → length (events_of id (rearrange ns rows)) ≡ length (events_of id rows)
unfolding events_of rearrange
length-events_of-rearrange id ns [] = refl
length-events_of-rearrange id [] (r ∷ rows) = refl
length-events_of-rearrange id (n ∷ ns) (r ∷ rows) = ground (
  arith,
  length-events_of-place_at id n r (rearrange ns rows),
  length-events_of-rearrange id ns rows,
)

add_loaded-IsValid :
    (t : SlugRow) (evs : List Event) (s : Svc)
    → length evs ≤ s.max_events_per_slug
    → IsValid s
    → IsValid
        (record s { slugs = insert t.id (loaded_entry s.next t evs) s.slugs; next = s.next + 1 })
unfolding loaded_entry
add_loaded-IsValid t evs s fits v = record {
  positive = v.positive;
  entries = Every-insert (IsEntry s.max_events_per_slug) t.id _ s.slugs (refl, fits) v.entries;
  unclosed = λ c.
      omega
        (arith, total-insert (subscribed c) t.id (loaded_entry s.next t evs) s.slugs, v.unclosed c);
  fresh = λ c h.
      omega
        (arith, total-insert (subscribed c) t.id (loaded_entry s.next t evs) s.slugs, v.fresh c);
}

pub restore-IsValid :
    (ts : List SlugRow) (rows : List EventRow) (s : Svc)
    → Fits s.max_events_per_slug rows
    → IsValid s
    → IsValid (restore ts rows s)
unfolding restore
restore-IsValid [] rows s fits v = v
restore-IsValid (t ∷ ts) rows s fits v =
    restore-IsValid ts rows _ fits (add_loaded-IsValid t (events_of t.id rows) s (fits t.id) v)

load_slugs-tables :
    (since : ℕ) (db : Db)
    → ((load_slugs since db).1.slugs ≡ db.slugs) × ((load_slugs since db).1.events ≡ db.events)
unfolding load_slugs call
load_slugs-tables since db = ground arith

load_events-tables :
    (since : ℕ) (db : Db)
    → ((load_events since db).1.slugs ≡ db.slugs) × ((load_events since db).1.events ≡ db.events)
unfolding load_events call
load_events-tables since db = ground arith

load_events_of_ok :
    (since : ℕ) (db : Db) (rows : List EventRow)
    → (load_events since db).0 ≡ ok rows
    → rows ≡ rearrange (event_order db.orders) (select (λ r. ltb since r.timestamp) db.events)
unfolding load_events call
load_events_of_ok since db rows h = ground arith

-- Where no slug has more stored events than the registry may keep, LoadFrom fills a registry that
-- keeps its invariant with one that keeps it, whether or not it returns an error, and it leaves the
-- tables as they were.
pub load_from-IsValid :
    (now : ℕ) (s : Svc) (db : Db)
    → Fits s.max_events_per_slug db.events
    → IsValid s
    → let r = load_from sqlite now s db in
      IsValid r.1 × ((r.2.slugs ≡ db.slugs) × (r.2.events ≡ db.events))
unfolding load_from sqlite
load_from-IsValid now s db fits v =
    let db' = (load_slugs now db).1 in
    let same = load_slugs-tables now db in
    elim (Result-cases (load_slugs now db).0) [
      | inl (m, e) ↦ rw (e, load_from) (v, same)
      | inr (ts, e) ↦
          let since = earliest now ts - second in
          let same' = load_events-tables since db' in
          elim (Result-cases (load_events since db').0) [
            | inl (m, e') ↦ rw (e, load_from) (rw e' (v, (same'.0 ∙ same.0, same'.1 ∙ same.1)))
            | inr (rows, e') ↦
                let found = load_events_of_ok since db' rows e' in
                let few : Fits s.max_events_per_slug rows = λ id.
                  rw (found, same.1)
                    (omega (
                      arith,
                      length-events_of-rearrange id (event_order db'.orders)
                          (select (λ r. ltb since r.timestamp) db.events),
                      length-events_of-select (λ r. ltb since r.timestamp) id db.events,
                      fits id,
                    )) in
                rw (e, load_from)
                  (rw e' (restore-IsValid ts rows s few v, (same'.0 ∙ same.0, same'.1 ∙ same.1)))
          ]
    ]
