-- ===== src/Registry/Ring/Once.antt =====
-- Any number of turns of the flush loop on one entry (internal/registry).
use mathlib.Core.Path.{subst}
use tripflare.Base.{
  length, drop, Outcome, ret, then_do, then_do_of_ret, ℕ, ◌+◌, ◌-◌, ◌≤◌, ◌<◌, ◌≡◌, refl, sym, ap,
  ◌∙◌, List, [], ◌∷◌, ◌++◌, append-nil, append_assoc, arith,
}
use tripflare.Registry.Types.{Event, SlugEntry}
use tripflare.Registry.Entry.{unflushed}
use tripflare.Registry.Ring.{IsRing}
use tripflare.Registry.Ring.Flush.{push_all}
use tripflare.Registry.Ring.Cycles.{
  Turn, flush_turn, unflushed-run, unflushed-finish_flush, finish_flush-IsRing, push_all-IsRing,
  flush_turn_lem,
}

-- The turns of the flush loop, with the events stored so far.
unfoldable pub flush_turns :
    ℕ → List Turn → SlugEntry → List Event → Outcome (List Event) × SlugEntry
unfolding flush_turn
flush_turns max_events [] e stored = (ret stored, e)
flush_turns max_events (t ∷ ts) e stored =
    then_do (flush_turn max_events t e stored) (λ stored' e'. flush_turns max_events ts e' stored')

-- the events that the turns record, oldest first
unfoldable pub recorded : List Turn → List Event
recorded [] = []
recorded (t ∷ ts) = t.before ++ (t.during ++ recorded ts)

-- Between two snapshots the entry never holds more events that are not flushed than the limit.
abbrev pub Fits : ℕ → ℕ → List Turn → Type 0
Fits max_events pending [] = Unit
Fits max_events pending (t ∷ ts) =
    (pending + length t.before ≤ max_events)
    × (length t.during ≤ max_events)
    × Fits max_events (length t.during) ts

-- What one turn does: all that was not flushed is stored, and all that came during the writes is
-- left for the next turn.
record IsTurn (max_events : ℕ) (t : Turn) (e : SlugEntry) (stored : List Event)
    (r : Outcome (List Event) × SlugEntry) : Type 0 where
  returns : r.0 ≡ ret (stored ++ (unflushed e ++ t.before))
  left : unflushed r.1 ≡ t.during
  ring : IsRing max_events r.1

module _ (max_events : ℕ) (pos : 0 < max_events) where
  flush_turn-IsTurn :
      (t : Turn) (e : SlugEntry) (stored : List Event)
      → IsRing max_events e
      → length (unflushed e) + length t.before ≤ max_events
      → length t.during ≤ max_events
      → IsTurn max_events t e stored (flush_turn max_events t e stored)
  flush_turn-IsTurn t e stored r fits fits' =
      let e1 = (push_all max_events t.before e).1 in
      let r1 = push_all-IsRing max_events pos t.before e r in
      let k : length (unflushed e) + length t.before - max_events ≡ 0 = omega arith in
      let k' : length t.during - max_events ≡ 0 = omega arith in
      rw (flush_turn_lem max_events pos t e stored r.within r1.within) (record {
        returns =
            ap (λ l. ret (stored ++ l))
              (unflushed-run max_events pos t.before e r
                ∙ ap (λ k. drop k (unflushed e ++ t.before)) k);
        left = unflushed-finish_flush max_events pos t.during e1 r1 ∙ ap (λ k. drop k t.during) k';
        ring = finish_flush-IsRing max_events pos t.during e1 r1;
      })

  -- From an entry within its limits, whatever the turns record, before a snapshot or while the
  -- store is written: if the limit never evicts an event that is not flushed, then the turns
  -- return, and the stored events followed by those not flushed are the ones there were before,
  -- followed by all those recorded, each once and in order.
  pub stored_once :
      (ts : List Turn) (e : SlugEntry) (stored : List Event)
      → IsRing max_events e
      → Fits max_events (length (unflushed e)) ts
      → (stored' : List Event) × ((flush_turns max_events ts e stored).0 ≡ ret stored')
        × (stored' ++ unflushed (flush_turns max_events ts e stored).1
            ≡ (stored ++ unflushed e) ++ recorded ts)
  unfolding flush_turns recorded
  stored_once [] e stored r fits = (stored, refl, sym (append-nil _))
  stored_once (t ∷ ts) e stored r (fits, fits', rest) =
      let turn = flush_turn-IsTurn t e stored r fits fits' in
      let stored' = stored ++ (unflushed e ++ t.before) in
      let e' = (flush_turn max_events t e stored).1 in
      let fits'' : Fits max_events (length (unflushed e')) ts =
        subst (λ l. Fits max_events (length l) ts) (sym turn.left) rest in
      let (all, returns, once) = stored_once ts e' stored' turn.ring fits'' in
      rw (then_do_of_ret (flush_turn max_events t e stored) stored' _ turn.returns)
        (all, returns, once ∙ rw turn.left (simp append_assoc))
