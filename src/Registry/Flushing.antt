-- ===== src/Registry/Flushing.antt =====
-- What FlushTo of internal/registry/persistence.go puts into the store of internal/store/store.go.
use tripflare.Registry.Ring.Flush.{unflushed_lem}
use tripflare.Registry.Persistence.{
  FlushSnapshot, event_rows, snapshot, collect, collect_dirty_snapshots, finish_snapshot, persist,
  flush_snapshots, flush_to,
}
use tripflare.Registry.Types.{Event, SlugEntry, Svc}
use tripflare.Base.{
  leb, if◌then◌else◌, Bool-cases, length, drop, All, List-cases, GoString, Dict, Every, ok, ◌≤◌,
  ◌≡◌, refl, sym, ap, ◌∙◌, inl, inr, true, List, [], ◌∷◌, ◌++◌, append-nil, append_assoc, arith,
}
use tripflare.Store.Rows.{SlugRow, EventRow, Service}
use tripflare.Store.Monad.{Db, call, check, write, roll_back, transaction}
use tripflare.Store.Sqlite.{
  replace_slug, max_slug_id, max_event_slug, insert_slug, insert_rows, insert_events, sqlite,
}
use tripflare.Store.Reload.{quiet}

-- a database whose driver does not fail stores what it is given
insert_slug-quiet :
    (row : SlugRow) (db : Db)
    → length row.id ≤ max_slug_id
    → insert_slug row (quiet db) ≡ (ok tt, quiet (record db { slugs = replace_slug row db.slugs }))
unfolding insert_slug call check write
insert_slug-quiet row db h = ground arith

insert_rows-quiet :
    (es : List EventRow) (db : Db)
    → All (λ e. length e.slug ≤ max_event_slug) es
    → insert_rows es (quiet db) ≡ (ok tt, quiet (record db { events = db.events ++ es }))
unfolding insert_rows call check write
insert_rows-quiet [] db h = rw (append-nil db.events) refl
insert_rows-quiet (e ∷ es) db (h, hs) =
    let short : leb (length e.slug) max_event_slug ≡ true = ground arith in
    rw short (
      insert_rows-quiet es (record db { events = db.events ++ e ∷ [] }) hs
      ∙ ap (λ l. (ok tt, quiet (record db { events = l }))) (append_assoc db.events (e ∷ []) es))

insert_events-quiet :
    (es : List EventRow) (db : Db)
    → All (λ e. length e.slug ≤ max_event_slug) es
    → insert_events es (quiet db) ≡ (ok tt, quiet (record db { events = db.events ++ es }))
unfolding insert_events call transaction roll_back
insert_events-quiet [] db h = rw (append-nil db.events) refl
insert_events-quiet (e ∷ es) db h = rw (insert_rows-quiet (e ∷ es) db h) refl

-- ids and events that the schema takes
abbrev pub Fitting : FlushSnapshot → Type 0
Fitting snap =
    (length snap.slug.id ≤ max_slug_id) × All (λ e. length e.slug ≤ max_event_slug) snap.events

persist_lem :
    {S : Type 0} (st : Service S) (snap : FlushSnapshot) (db a b : S)
    → st.insert_slug snap.slug db ≡ (ok tt, a)
    → st.insert_events snap.events a ≡ (ok tt, b)
    → (snap.events ≡ [] → a ≡ b)
    → persist st snap db ≡ (ok tt, b)
unfolding persist
persist_lem st snap db a b p q k = elim (List-cases snap.events) [
  | inl none_new ↦ rw (p, persist, none_new) (rw p (ap (λ x. (ok tt, x)) (k none_new)))
  | inr (e, es, some_new) ↦ rw (p, persist, some_new) (rw p (rw q (rw p (rw q refl))))
]

persist-quiet :
    (snap : FlushSnapshot) (db : Db)
    → Fitting snap
    → persist sqlite snap (quiet db) ≡ (
      ok tt,
      quiet (record db {
        slugs = replace_slug snap.slug db.slugs;
        events = db.events ++ snap.events;
      }),
    )
unfolding sqlite
persist-quiet snap db (h, hs) =
    let db' : Db = record db { slugs = replace_slug snap.slug db.slugs } in
    persist_lem sqlite snap (quiet db) (quiet db') _ (insert_slug-quiet snap.slug db h)
      (insert_events-quiet snap.events db' hs)
      (λ none_new. rw (none_new, append-nil db.events) refl)

-- the events of the snapshots, and the slugs with their rows
abbrev pub stored_events : List FlushSnapshot → List EventRow
stored_events [] = []
stored_events (snap ∷ snaps) = snap.events ++ stored_events snaps

flush_snapshots-quiet :
    (snaps : List FlushSnapshot) (s : Svc) (db : Db)
    → All Fitting snaps
    → let r = flush_snapshots sqlite snaps s (quiet db) in
      (r.0 ≡ ok tt) × (r.2.events ≡ db.events ++ stored_events snaps)
unfolding flush_snapshots
flush_snapshots-quiet [] s db h = (refl, sym (append-nil db.events))
flush_snapshots-quiet (snap ∷ snaps) s db (h, hs) =
    let db' : Db = record db {
      slugs = replace_slug snap.slug db.slugs;
      events = db.events ++ snap.events;
    } in
    let ih = flush_snapshots-quiet snaps (finish_snapshot snap s) db' hs in
    rw (persist-quiet snap db h, flush_snapshots)
      (rw (persist-quiet snap db h)
        (ih.0, ih.1 ∙ append_assoc db.events snap.events (stored_events snaps)))

-- the events of dirty entries that are not flushed
unfoldable pub pending : Dict SlugEntry → List EventRow
pending [] = []
pending ((id, e) ∷ d) =
    let rest = pending d in
    if e.dirty then event_rows e.slug.id (drop e.flushed_count e.events) ++ rest else rest

event_rows-short :
    (id : GoString) (evs : List Event)
    → length id ≤ max_event_slug
    → All (λ e. length e.slug ≤ max_event_slug) (event_rows id evs)
event_rows-short id [] h = tt
event_rows-short id (ev ∷ evs) h = (h, event_rows-short id evs h)

collect-Fitting :
    (d : Dict SlugEntry)
    → Every (λ _ e. length e.slug.id ≤ max_slug_id) d
    → All Fitting (collect d).0 × (stored_events (collect d).0 ≡ pending d)
unfolding collect snapshot pending
collect-Fitting [] h = (tt, refl)
collect-Fitting ((id, e) ∷ d) (h, hs) =
    let (fit, same) = collect-Fitting d hs in
    elim (Bool-cases e.dirty) [
      | inl dirty ↦
          rw (dirty, unflushed_lem e)
            (
              ((h, event_rows-short e.slug.id _ (omega arith)), fit),
              ap (λ l. event_rows e.slug.id (drop e.flushed_count e.events) ++ l) same,
            )
      | inr clean ↦ rw clean (fit, same)
    ]

-- With a driver that does not fail and ids of at most 64 bytes, FlushTo returns no error, and adds
-- exactly the events of dirty slugs that were not flushed to the events of the store.
pub flush_to_lem :
    (s : Svc) (db : Db)
    → Every (λ _ e. length e.slug.id ≤ max_slug_id) s.slugs
    → let r = flush_to sqlite s (quiet db) in
      (r.0 ≡ ok tt) × (r.2.events ≡ db.events ++ pending s.slugs)
unfolding flush_to collect_dirty_snapshots
flush_to_lem s db h =
    let (fit, same) = collect-Fitting s.slugs h in
    let done = flush_snapshots-quiet (collect s.slugs).0 (collect_dirty_snapshots s).1 db fit in
    (done.0, done.1 ∙ ap (λ l. db.events ++ l) same)
