-- ===== src/Registry/Ring/Cycles.antt =====
-- Flushes of one entry that interleave with recordEvent and ClearEvents (FlushTo of
-- internal/registry/persistence.go): what reaches the store, and what does not.
use tripflare.Base.{
  length, drop, length-append, length-drop, drop-length_append, drop-drop, drop-append-drop,
  Outcome, ret, then_do, then_do_of_ret, ℕ, ◌+◌, ◌-◌, ◌≤◌, ◌<◌, ◌≡◌, refl, sym, ap, ◌∙◌, List, ◌++◌,
  arith,
}
use tripflare.Registry.Types.{Event, SlugEntry}
use tripflare.Registry.Entry.{begin_flush, unflushed, finish_flush}
use tripflare.Registry.Ring.{IsRing}
use tripflare.Registry.Ring.Flush.{push_all, push_all-IsRun, unflushed_lem}

-- A turn of the flush loop: the events recorded before the snapshot, and those recorded while the
-- store is written.
pub record Turn : Type 0 where
  pub before : List Event
  pub during : List Event

-- The entry after a turn whose writes succeed, and the events stored so far.
unfoldable pub flush_turn : ℕ → Turn → SlugEntry → List Event → Outcome (List Event) × SlugEntry
unfolding push_all unflushed begin_flush finish_flush
flush_turn max_events t e stored = then_do (push_all max_events t.before e) (λ _ e1.
    then_do (push_all max_events t.during (begin_flush e1))
      (λ _ e2. (ret (stored ++ unflushed e1), finish_flush (length e1.events) e2)))

module _ (max_events : ℕ) (pos : 0 < max_events) where
  -- after a run, what is not flushed is the end of what was not flushed and the new events
  pub unflushed-run :
      (evs : List Event) (e : SlugEntry)
      → IsRing max_events e
      → unflushed (push_all max_events evs e).1
        ≡ drop (length (unflushed e) + length evs - max_events) (unflushed e ++ evs)
  unflushed-run evs e r =
      let run = push_all-IsRun max_events pos evs e r.within in
      let v = length e.events + length evs - max_events in
      let len = length-drop e.flushed_count e.events in
      unflushed_lem (push_all max_events evs e).1
      ∙ rw (run.flushed, run.events, unflushed_lem e)
          (drop-drop (e.flushed_count - v) v (v + (e.flushed_count - v)) (e.events ++ evs) refl
            ∙ sym (drop-append-drop _ e.flushed_count _ e.events evs r.counted (omega arith)))

  -- The events that the flush leaves unflushed are those recorded since its snapshot, so far as
  -- the limit keeps them: none is lost to the counters, and none would be stored twice.
  pub unflushed-finish_flush :
      (evs : List Event) (e : SlugEntry)
      → IsRing max_events e
      → unflushed (finish_flush (length e.events) (push_all max_events evs (begin_flush e)).1)
        ≡ drop (length evs - max_events) evs
  unfolding finish_flush begin_flush
  unflushed-finish_flush evs e r =
      let run = push_all-IsRun max_events pos evs (begin_flush e) r.within in
      let n = length e.events in
      let v = n + length evs - max_events in
      unflushed_lem (finish_flush n (push_all max_events evs (begin_flush e)).1)
      ∙ rw (run.evicted, run.events)
          (drop-drop (n - (0 + v)) v (n + (length evs - max_events)) (e.events ++ evs) (omega arith)
            ∙ sym (drop-drop (length evs - max_events) n _ (e.events ++ evs) refl)
            ∙ ap (drop (length evs - max_events)) (drop-length_append e.events evs))

  -- the limits hold again after the flush
  pub finish_flush-IsRing :
      (evs : List Event) (e : SlugEntry)
      → IsRing max_events e
      → IsRing max_events
          (finish_flush (length e.events) (push_all max_events evs (begin_flush e)).1)
  unfolding finish_flush begin_flush
  finish_flush-IsRing evs e r =
      let run = push_all-IsRun max_events pos evs (begin_flush e) r.within in
      let len =
        ap length run.events
        ∙ length-drop (length e.events + length evs - max_events) (e.events ++ evs) in
      let all = length-append e.events evs in
      record { within = omega arith; counted = omega (arith, run.evicted) }

  pub push_all-IsRing :
      (evs : List Event) (e : SlugEntry)
      → IsRing max_events e
      → IsRing max_events (push_all max_events evs e).1
  push_all-IsRing evs e r =
      let run = push_all-IsRun max_events pos evs e r.within in
      let len =
        ap length run.events
        ∙ length-drop (length e.events + length evs - max_events) (e.events ++ evs) in
      let all = length-append e.events evs in
      record { within = omega arith; counted = omega (arith, run.flushed, r.counted) }

  -- a turn returns, and in these states
  pub flush_turn_lem :
      (t : Turn) (e : SlugEntry) (stored : List Event)
      → length e.events ≤ max_events
      → length (push_all max_events t.before e).1.events ≤ max_events
      → let e1 = (push_all max_events t.before e).1 in
        flush_turn max_events t e stored ≡ (
          ret (stored ++ unflushed e1),
          finish_flush (length e1.events) (push_all max_events t.during (begin_flush e1)).1,
        )
  unfolding flush_turn
  flush_turn_lem t e stored h h1 =
      let e1 = (push_all max_events t.before e).1 in
      let run = push_all-IsRun max_events pos t.before e h in
      let run' = push_all-IsRun max_events pos t.during (begin_flush e1) h1 in
      then_do_of_ret (push_all max_events t.before e) tt _ run.returns
      ∙ then_do_of_ret (push_all max_events t.during (begin_flush e1)) tt _ run'.returns
