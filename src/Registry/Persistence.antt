-- ===== src/Registry/Persistence.antt =====
-- internal/registry/persistence.go: FlushTo in its steps, and LoadFrom.
use tripflare.Base.{
  ltb, ◌==◌, if◌then◌else◌, length, GoString, str_eq, Dict, insert, Result, ok, err, ℕ, ◌+◌, ◌-◌,
  false, List, [], ◌∷◌, map,
}
use tripflare.Store.Rows.{SlugRow, EventRow, Service}
use tripflare.Registry.Types.{Slug, Event, SlugEntry, Svc}
use tripflare.Registry.Entry.{begin_flush, unflushed, finish_flush}

-- flushSnapshot; `entry` is the address of the entry.
pub record FlushSnapshot : Type 0 where
  pub slug : SlugRow
  pub events : List EventRow
  pub entry : ℕ
  pub snapshot_len : ℕ

abbrev pub slug_row : Slug → SlugRow
slug_row t = record {
  id = t.id;
  owner = t.owner;
  created_at = t.created_at;
  expires_at = t.expires_at;
}

abbrev pub event_row : GoString → Event → EventRow
event_row id ev = record {
  slug = id;
  type = ev.type;
  source_ip = ev.source_ip;
  timestamp = ev.timestamp;
  payload = ev.payload;
}

abbrev pub event_rows : GoString → List Event → List EventRow
event_rows id evs = map (event_row id) evs

unfoldable pub snapshot : SlugEntry → FlushSnapshot
unfolding unflushed
snapshot e = record {
  slug = slug_row e.slug;
  events = event_rows e.slug.id (unflushed e);
  entry = e.addr;
  snapshot_len = length e.events;
}

-- the loop of collectDirtySnapshots over the map
unfoldable pub collect : Dict SlugEntry → List FlushSnapshot × Dict SlugEntry
unfolding snapshot begin_flush
collect [] = ([], [])
collect ((id, e) ∷ rest) =
    let (snaps, rest') = collect rest in
    if e.dirty then (snapshot e ∷ snaps, (id, begin_flush e) ∷ rest') else (snaps, (id, e) ∷ rest')

unfoldable pub collect_dirty_snapshots : Svc → List FlushSnapshot × Svc
unfolding collect
collect_dirty_snapshots s =
    let (snaps, slugs') = collect s.slugs in (snaps, record s { slugs = slugs' })

-- A write through the pointer `addr`. An entry that has left the map is reached by nothing else.
unfoldable pub write_at : ℕ → (SlugEntry → SlugEntry) → Dict SlugEntry → Dict SlugEntry
write_at addr f [] = []
write_at addr f ((id, e) ∷ rest) = (id, if e.addr == addr then f e else e) ∷ write_at addr f rest

-- the locked section at the end of FlushTo's loop body
unfoldable pub finish_snapshot : FlushSnapshot → Svc → Svc
unfolding finish_flush write_at
finish_snapshot snap s = record s {
  slugs = write_at snap.entry (finish_flush snap.snapshot_len) s.slugs;
}

module _ {S : Type 0} (st : Service S) where
  -- the calls of the store in FlushTo's loop body, outside the lock
  unfoldable pub persist : FlushSnapshot → S → Result (Unit {0}) × S
  persist snap db =
      let (inserted, db') = st.insert_slug snap.slug db in
      elim inserted [
        | err _ ↦ (err "flush slug", db')
        | ok _ ↦ elim snap.events [
          | [] ↦ (ok tt, db')
          | _ ∷ _ ↦
              let (stored, db'') = st.insert_events snap.events db' in
              elim stored [ err _ ↦ (err "flush events", db'') | ok _ ↦ (ok tt, db'') ]
        ]
      ]

  unfoldable pub flush_snapshots : List FlushSnapshot → Svc → S → Result (Unit {0}) × Svc × S
  unfolding persist finish_snapshot
  flush_snapshots [] s db = (ok tt, s, db)
  flush_snapshots (snap ∷ snaps) s db =
      let (stored, db') = persist snap db in
      elim stored [
        | err m ↦ (err m, s, db')
        | ok _ ↦ flush_snapshots snaps (finish_snapshot snap s) db'
      ]

  -- FlushTo where no other method runs while the store is written
  unfoldable pub flush_to : Svc → S → Result (Unit {0}) × Svc × S
  unfolding collect_dirty_snapshots flush_snapshots
  flush_to s db = let (snaps, s') = collect_dirty_snapshots s in flush_snapshots snaps s' db

-- the grouping of loadAndGroupEvents: result[slug] for one slug
unfoldable pub events_of : GoString → List EventRow → List Event
events_of id [] = []
events_of id (r ∷ rows) =
    let rest = events_of id rows in
    let ev : Event = record {
      type = r.type;
      source_ip = r.source_ip;
      timestamp = r.timestamp;
      payload = r.payload;
    } in
    if str_eq r.slug id then ev ∷ rest else rest

-- the earliest creation, and `now` where that is earlier
unfoldable pub earliest : ℕ → List SlugRow → ℕ
earliest acc [] = acc
earliest acc (t ∷ rows) = earliest (if ltb t.created_at acc then t.created_at else acc) rows

abbrev pub second : ℕ
second = 1_000_000_000

unfoldable pub loaded_entry : ℕ → SlugRow → List Event → SlugEntry
loaded_entry addr t evts = record {
  addr = addr;
  slug = record {
    id = t.id;
    owner = t.owner;
    created_at = t.created_at;
    expires_at = t.expires_at;
  };
  events = evts;
  subscribers = [];
  dirty = false;
  flushed_count = length evts;
  evicted_during_flush = 0;
}

-- the loop of LoadFrom over the slugs
unfoldable pub restore : List SlugRow → List EventRow → Svc → Svc
unfolding loaded_entry events_of
restore [] rows s = s
restore (t ∷ ts) rows s = restore ts rows (record s {
  slugs = insert t.id (loaded_entry s.next t (events_of t.id rows)) s.slugs;
  next = s.next + 1;
})

module _ {S : Type 0} (st : Service S) where
  unfoldable pub load_from : ℕ → Svc → S → Result (Unit {0}) × Svc × S
  unfolding restore earliest
  load_from now s db =
      let (loaded, db') = st.load_slugs now db in
      elim loaded [
        | err _ ↦ (err "load slugs", s, db')
        | ok slugs ↦
            let (found, db'') = st.load_events (earliest now slugs - second) db' in
            elim found [
              | err _ ↦ (err "load events", s, db'')
              | ok rows ↦ (ok tt, restore slugs rows s, db'')
            ]
      ]
