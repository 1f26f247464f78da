-- ===== src/Registry/Ring/Flush.antt =====
-- Many events on one entry, and a flush that they interleave with: collectDirtySnapshots, then
-- calls of recordEvent or ClearEvents while the store is written, then the end of FlushTo's loop.
use tripflare.Base.{
  ltb, Bool-cases, length, drop, drop_of_length-le, drop-drop, drop-append_le, Outcome, ret,
  then_do, ℕ, suc, ◌+◌, ◌-◌, ◌≤◌, ◌<◌, ◌≡◌, refl, sym, ◌∙◌, inl, inr, List, [], ◌∷◌, ◌++◌,
  append-nil, append_assoc, arith,
}
use tripflare.Registry.Types.{Event, SlugEntry}
use tripflare.Registry.Entry.{push_event, unflushed}
use tripflare.Registry.Ring.{overflow, pushed, push_event_lem, length-pushed}

-- one recordEvent after another
unfoldable pub push_all : ℕ → List Event → SlugEntry → Outcome (Unit {0}) × SlugEntry
push_all max_events [] e = (ret tt, e)
push_all max_events (ev ∷ evs) e =
    then_do (push_event max_events ev e) (λ _ e'. push_all max_events evs e')

-- What a run of recordEvent does to an entry: it returns, the events are the last ones of all, as
-- many as the limit allows, and each counter moves by the number of events evicted.
pub record IsRun (max_events : ℕ) (evs : List Event) (e : SlugEntry)
    (r : Outcome (Unit {0}) × SlugEntry) : Type 0 where
  pub returns : r.0 ≡ ret tt
  pub events : r.1.events ≡ drop (length e.events + length evs - max_events) (e.events ++ evs)
  pub flushed : r.1.flushed_count ≡ e.flushed_count - (length e.events + length evs - max_events)
  pub evicted :
      r.1.evicted_during_flush
      ≡ e.evicted_during_flush + (length e.events + length evs - max_events)

module _ (max_events : ℕ) (pos : 0 < max_events) where
  drop-run :
      (ev : Event) (evs : List Event) (e : SlugEntry) (k : ℕ)
      → length e.events ≤ max_events
      → overflow max_events e + k ≡ length e.events + suc (length evs) - max_events
      → drop k ((pushed max_events ev e).events ++ evs)
        ≡ drop (length e.events + suc (length evs) - max_events) (e.events ++ ev ∷ evs)
  drop-run ev evs e k r q = rw append_assoc (
      rw (← drop-append_le (overflow max_events e) e.events (ev ∷ evs) (omega arith))
        (drop-drop k (overflow max_events e) _ (e.events ++ ev ∷ evs) q))

  -- From an entry within its limits, any number of recordEvent calls keep exactly the last events.
  pub push_all-IsRun :
      (evs : List Event) (e : SlugEntry)
      → length e.events ≤ max_events
      → IsRun max_events evs e (push_all max_events evs e)
  unfolding push_all
  push_all-IsRun [] e r =
      let k : length e.events + 0 - max_events ≡ 0 = omega arith in
      record {
        returns = refl;
        events = rw k (sym (append-nil e.events));
        flushed = omega arith;
        evicted = omega arith;
      }
  push_all-IsRun (ev ∷ evs) e r =
      let len = length-pushed max_events ev e r pos in
      let r' : length (pushed max_events ev e).events ≤ max_events = omega arith in
      let ih = push_all-IsRun evs (pushed max_events ev e) r' in
      rw (push_event_lem max_events ev e pos r) (record {
        returns = ih.returns;
        events = ih.events ∙ drop-run ev evs e _ r (omega arith);
        flushed = omega (arith, ih.flushed);
        evicted = omega (arith, ih.evicted);
      })

pub unflushed_lem : (e : SlugEntry) → unflushed e ≡ drop e.flushed_count e.events
unfolding unflushed
unflushed_lem e = elim (Bool-cases (ltb e.flushed_count (length e.events))) [
  | inl more ↦ rw more
  | inr none_left ↦ rw none_left (sym (drop_of_length-le e.flushed_count e.events (ground arith)))
]
