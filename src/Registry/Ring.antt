-- ===== src/Registry/Ring.antt =====
-- The ring buffer of recordEvent on one entry (push_event of Registry/Entry.antt).
pub mod Flush
pub mod Cycles
pub mod Once
pub mod Lost
use tripflare.Base.{
  leb, Bool-cases, length, drop, length-append, length-drop, ret, ℕ, ◌+◌, ◌-◌, ◌≤◌, ◌<◌, ◌≡◌, inl,
  inr, true, [], ◌∷◌, ◌++◌, arith,
}
use tripflare.Registry.Types.{Event, SlugEntry}
use tripflare.Registry.Entry.{make_panics, evict, make_room, push_event}

-- What New and the methods keep of an entry: no more events than the limit, and no more of them
-- counted as flushed than there are.
pub record IsRing (max_events : ℕ) (e : SlugEntry) : Type 0 where
  pub within : length e.events ≤ max_events
  pub counted : e.flushed_count ≤ length e.events

-- how many events go, to make room for one
abbrev pub overflow : ℕ → SlugEntry → ℕ
overflow max_events e = length e.events + 1 - max_events

module _ (max_events : ℕ) (ev : Event) (e : SlugEntry) where
  abbrev pub pushed : SlugEntry
  pushed = record e {
    events = drop (overflow max_events e) e.events ++ ev ∷ [];
    dirty = true;
    flushed_count = e.flushed_count - overflow max_events e;
    evicted_during_flush = e.evicted_during_flush + overflow max_events e;
  }

  -- On an entry within its limits recordEvent returns, and this is what it leaves.
  pub push_event_lem :
      0 < max_events → length e.events ≤ max_events → push_event max_events ev e ≡ (ret tt, pushed)
  unfolding push_event make_room evict make_panics
  push_event_lem h r = elim (Bool-cases (leb max_events (length e.events))) [
    | inl full ↦ let k : overflow max_events e ≡ 1 = ground arith in rw k (ground arith)
    | inr room ↦ let k : overflow max_events e ≡ 0 = ground arith in rw k (ground arith)
  ]

  pub length-pushed :
      length e.events ≤ max_events
      → 0 < max_events
      → length pushed.events ≡ length e.events + 1 - overflow max_events e
  length-pushed r h = omega (
    arith,
    length-append (drop (overflow max_events e) e.events) (ev ∷ []),
    length-drop (overflow max_events e) e.events,
  )

  pub pushed-IsRing : 0 < max_events → IsRing max_events e → IsRing max_events pushed
  pushed-IsRing h r = record {
    within = omega (arith, length-pushed r.within h);
    counted = omega (arith, length-pushed r.within h);
  }
