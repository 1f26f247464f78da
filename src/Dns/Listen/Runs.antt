-- ===== src/Dns/Listen/Runs.antt =====
-- What the events of a run of ListenAndServe of internal/dns/server.go add up to.
use mathlib.Core.Path.{subst}
use tripflare.Base.{
  Option-cases, length, ℕ, ◌+◌, ◌≤◌, ◌≡◌, inl, inr, true, some, List, [], ◌∷◌, arith,
}
use tripflare.Dns.Listen.{Listening, Event, step, run}
use tripflare.Dns.Listen.Counts.{rank, failed_by, known, room, slots, counted, heard, step-counts}
use tripflare.Dns.Listen.Stages.{is_stage, step-stage, given, notified_by, step-given}

abbrev pub failed : List Event → ℕ
failed [] = 0
failed (e ∷ es) = failed_by e + failed es

abbrev pub notified : List Event → ℕ
notified [] = 0
notified (e ∷ es) = notified_by e + notified es

pub record IsSound (s : Listening) : Type 0 where
  pub stage : is_stage s.main s ≡ true
  pub enough_room : room s ≤ 2
  pub enough_slots : slots s ≤ 2
  pub enough_heard : 2 ≤ heard s

step-IsSound : (e : Event) (s s' : Listening) → IsSound s → step e s ≡ some s' → IsSound s'
step-IsSound e s s' v h = record {
  stage = step-stage e s s' v.stage h;
  enough_room = omega (arith, v.enough_room, step-counts e s s' h);
  enough_slots = omega (arith, v.enough_slots, step-counts e s s' h);
  enough_heard = omega (arith, v.enough_heard, step-counts e s s' h);
}

-- what a run leaves: at most so many events, each failure, and no more values than were given
pub run_lem :
    (es : List Event) (s s' : Listening)
    → IsSound s
    → run es s ≡ some s'
    → IsSound s'
      × ((length es + rank s' ≤ rank s)
          × ((failed es + known s ≡ known s') × (given s' ≤ notified es + given s)))
unfolding run
run_lem [] s s' v h =
    let e : s ≡ s' = cc in
    subst
      (λ t.
        IsSound t × ((0 + rank t ≤ rank s) × ((0 + known s ≡ known t) × (given t ≤ 0 + given s))))
      e (v, (omega arith, (omega arith, omega arith)))
run_lem (e ∷ es) s s' v h = elim (Option-cases (step e s)) [
  | inl none_left ↦ absurd (let h' = rw (none_left, run) at h in cc)
  | inr (t, steps) ↦
      let (v', (bound, (counted, values))) =
        run_lem es t s' (step-IsSound e s t v steps) (rw (steps, run) at h) in
      (
        v',
        (
          omega (arith, bound, step-counts e s t steps),
          (
            omega (arith, counted, step-counts e s t steps),
            omega (arith, values, step-given e s t v.stage steps),
          ),
        ),
      )
]
