-- ===== src/Registry/Ring/Lost.antt =====
-- ClearEvents while the store is written (internal/registry).
use tripflare.Base.{
  length, drop, drop_of_length-le, ret, ℕ, ◌+◌, ◌-◌, ◌≤◌, ◌<◌, ◌≡◌, ap, ◌∙◌, false, List, [],
  append-nil, arith,
}
use tripflare.Registry.Types.{Event, SlugEntry}
use tripflare.Registry.Entry.{clear_entry, begin_flush, unflushed, finish_flush}
use tripflare.Registry.Ring.Flush.{push_all, push_all-IsRun, unflushed_lem}
use tripflare.Registry.Ring.Cycles.{Turn, flush_turn, flush_turn_lem}

-- the entry after a flush of `e` during which its events were cleared
abbrev pub cleared_in_flush : SlugEntry → SlugEntry
cleared_in_flush e = finish_flush (length e.events) (clear_entry (begin_flush e))

module _ (max_events : ℕ) (pos : 0 < max_events) where
  -- If the events of an entry are cleared while a flush of them is written, then the events that
  -- are recorded next, up to as many as were cleared, are marked as flushed by the next flush
  -- without having been stored: it stores nothing, and the entry keeps the events, is not dirty
  -- and has no event left to flush.
  pub cleared_in_flush-loses :
      (e : SlugEntry) (evs stored : List Event)
      → length e.events ≤ max_events
      → length evs ≤ length e.events
      → let r =
          flush_turn max_events
            (record { before = evs; during = [] })
            (cleared_in_flush e)
            stored in
        (r.0 ≡ ret stored) × (r.1.events ≡ evs) × (unflushed r.1 ≡ []) × (r.1.dirty ≡ false)
  unfolding push_all finish_flush clear_entry begin_flush
  cleared_in_flush-loses e evs stored h h' =
      let n = length e.events in
      let c = cleared_in_flush e in
      let t : Turn = record { before = evs; during = [] } in
      let run = push_all-IsRun max_events pos evs c (omega arith) in
      let e1 = (push_all max_events evs c).1 in
      let k : 0 + length evs - max_events ≡ 0 = omega arith in
      let same : e1.events ≡ evs = run.events ∙ ap (λ k. drop k evs) k in
      let len : length e1.events ≡ length evs = ap length same in
      let flushed : length e1.events ≤ e1.flushed_count = omega (arith, run.flushed) in
      let none_left : unflushed e1 ≡ [] =
        unflushed_lem e1 ∙ drop_of_length-le e1.flushed_count e1.events flushed in
      rw (flush_turn_lem max_events pos t c stored (omega arith) (omega arith)) (
        rw none_left (ap ret (append-nil stored)),
        same,
        unflushed_lem _ ∙ drop_of_length-le (length e1.events - 0) e1.events (omega arith),
        ground arith,
      )
