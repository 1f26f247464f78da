-- ===== src/Registry/Entry.antt =====
-- What recordEvent, ClearEvents and the flush do to one *slugEntry.
use tripflare.Base.{
  ltb, leb, ◌==◌, if◌then◌else◌, length, drop, Outcome, ret, panic, then_do, ℕ, ◌+◌, ◌-◌, Bool,
  true, ◌||◌, List, [], ◌∷◌, ◌++◌,
}
use tripflare.Registry.Types.{Event, SlugEntry}

-- make([]Event, n-1, cap) panics: a negative length, or a length above the capacity
unfoldable pub make_panics : ℕ → ℕ → Bool
make_panics n cap = n == 0 || ltb cap (n - 1)

-- the body of `if len(e.events) >= s.maxEventsPerSlug` in recordEvent
unfoldable pub evict : ℕ → SlugEntry → Outcome (Unit {0}) × SlugEntry
evict max_events e =
    let e' : SlugEntry = record e {
      flushed_count = if ltb 0 e.flushed_count then e.flushed_count - 1 else e.flushed_count;
      evicted_during_flush = e.evicted_during_flush + 1;
    } in
    if make_panics (length e.events) max_events
    then (panic, e')
    else (ret tt, record e' { events = drop 1 e.events })

unfoldable pub make_room : ℕ → SlugEntry → Outcome (Unit {0}) × SlugEntry
make_room max_events e =
    if leb max_events (length e.events) then evict max_events e else (ret tt, e)

-- recordEvent, up to the sends
unfoldable pub push_event : ℕ → Event → SlugEntry → Outcome (Unit {0}) × SlugEntry
push_event max_events ev e =
    then_do (make_room max_events e)
      (λ _ e'. (ret tt, record e' { events = e'.events ++ ev ∷ []; dirty = true }))

-- ClearEvents
unfoldable pub clear_entry : SlugEntry → SlugEntry
clear_entry e = record e { events = []; flushed_count = 0; dirty = true }

-- what collectDirtySnapshots writes to a dirty entry
unfoldable pub begin_flush : SlugEntry → SlugEntry
begin_flush e = record e { evicted_during_flush = 0 }

-- e.events[e.flushedCount:] where that is not empty
unfoldable pub unflushed : SlugEntry → List Event
unflushed e = if ltb e.flushed_count (length e.events) then drop e.flushed_count e.events else []

-- what FlushTo writes to the entry once the store has the snapshot
unfoldable pub finish_flush : ℕ → SlugEntry → SlugEntry
finish_flush snapshot_len e =
    let flushed = snapshot_len - e.evicted_during_flush in
    record e { flushed_count = flushed; dirty = ltb flushed (length e.events) }
