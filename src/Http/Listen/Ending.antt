-- ===== src/Http/Listen/Ending.antt =====
-- How ListenAndServe of internal/httpserver/server.go ends.
use tripflare.Base.{
  Option-cases, length, Result, ℕ, ◌+◌, ◌≤◌, ◌≡◌, refl, sym, ◌⊎◌, inl, inr, Bool, true, false, none,
  some, List, [], ◌∷◌, arith,
}
use tripflare.Http.Listen.{
  ended, Main, selecting, stopping_http, stopping_https, waiting, returned, Listening, start, Event,
  http_fails, https_listen_fails, https_fails, http_sends, https_sends, https_listens, http_closes,
  https_closes, context_ends, error_received, context_seen, http_shut_down, https_shut_down, waited,
  send, receive, step, run,
}
use tripflare.Http.Listen.Events.{
  rank, failed_by, received, known, is_due, is_started, IsSound, step-stage, step-counts,
}

abbrev pub failed : List Event → ℕ
failed [] = 0
failed (e ∷ es) = failed_by e + failed es

run-rank : (es : List Event) (s s' : Listening) → run es s ≡ some s' → length es + rank s' ≤ rank s
unfolding run
run-rank [] s s' h = let e : s ≡ s' = cc in rw e (omega arith)
run-rank (e ∷ es) s s' h = elim (Option-cases (step e s)) [
  | inl none_left ↦ absurd (let h' = rw (none_left, run) at h in cc)
  | inr (t, steps) ↦
      let rest = run-rank es t s' (rw (steps, run) at h) in
      omega (arith, rest, step-counts e s t steps)
]

run-IsSound :
    (es : List Event) (s s' : Listening)
    → IsSound s
    → run es s ≡ some s'
    → IsSound s' × (failed es + known s ≡ known s')
unfolding run
run-IsSound [] s s' v h = let e : s ≡ s' = cc in rw (sym e) (v, omega arith)
run-IsSound (e ∷ es) s s' v h = elim (Option-cases (step e s)) [
  | inl none_left ↦ absurd (let h' = rw (none_left, run) at h in cc)
  | inr (t, steps) ↦
      let v' : IsSound t = record {
        stage = step-stage e s t v.stage steps;
        enough_room = omega (arith, v.enough_room, step-counts e s t steps);
      } in
      let (sound, counted) = run-IsSound es t s' v' (rw (steps, run) at h) in
      (sound, omega (arith, counted, step-counts e s t steps))
]

-- all events but those that a server or the context brings
abbrev pub is_own : Event → Bool
is_own http_fails = false
is_own https_listen_fails = false
is_own https_fails = false
is_own http_sends = true
is_own https_sends = true
is_own https_listens = true
is_own http_closes = true
is_own https_closes = true
is_own context_ends = false
is_own error_received = true
is_own context_seen = true
is_own http_shut_down = true
is_own https_shut_down = true
is_own waited = true

-- nothing is left that ListenAndServe or a goroutine could do by itself
abbrev pub IsQuiet : Listening → Type 0
IsQuiet s = (e : Event) → is_own e ≡ true → step e s ≡ none

abbrev has_returned : Main → Bool
has_returned selecting = false
has_returned (stopping_http r) = false
has_returned (stopping_https r) = false
has_returned (waiting r) = false
has_returned (returned r) = true

returned_lem : (m : Main) → has_returned m ≡ true → (r : Result (Unit {0})) × (m ≡ returned r)
returned_lem selecting h = absurd cc
returned_lem (stopping_http r) h = absurd cc
returned_lem (stopping_https r) h = absurd cc
returned_lem (waiting r) h = absurd cc
returned_lem (returned r) h = (r, refl)

quiet-has_returned :
    (s : Listening)
    → IsSound s
    → IsQuiet s
    → (1 ≤ known s) ⊎ (s.cancelled ≡ true)
    → has_returned s.main ≡ true
unfolding step send receive
quiet-has_returned s v q due = ground (
  arith,
  v.stage,
  v.enough_room,
  q http_sends refl,
  q https_sends refl,
  q https_listens refl,
  q http_closes refl,
  q https_closes refl,
  q error_received refl,
  q context_seen refl,
  q http_shut_down refl,
  q https_shut_down refl,
  q waited refl,
  due,
)

-- what IsSound says of the end
ended_lem :
    (s : Listening) (r : Result (Unit {0})) (n : ℕ)
    → is_started s ≡ true
    → s.main ≡ returned r
    → n ≡ known s
    → (s.http ≡ ended) × ((s.https ≡ ended) × ((received r ≤ n) × (is_due r s.cancelled ≡ true)))
ended_lem s r n v e counted = ground arith

-- Whatever the events are and their order: where a server has failed or the context is done, and
-- nothing is left that ListenAndServe or a goroutine could do by itself, there were at most ten
-- events, ListenAndServe has returned, and both of its goroutines have ended, so that neither waits
-- at errCh. The result is an error only where a server failed, and no error only where the context
-- is done.
pub run-Returns :
    (es : List Event) (s : Listening)
    → run es start ≡ some s
    → IsQuiet s
    → (1 ≤ failed es) ⊎ (s.cancelled ≡ true)
    → (length es ≤ 10)
      × ((s.http ≡ ended)
          × ((s.https ≡ ended)
              × ((r : Result (Unit {0})) × ((s.main ≡ returned r)
                    × ((received r ≤ failed es) × (is_due r s.cancelled ≡ true))))))
run-Returns es s h q due =
    let sound : IsSound start = record { stage = refl; enough_room = omega arith } in
    let (v, counted) = run-IsSound es start s sound h in
    let bound = run-rank es start s h in
    let due' : (1 ≤ known s) ⊎ (s.cancelled ≡ true) = ground (arith, due, counted) in
    let (r, e) = returned_lem s.main (quiet-has_returned s v q due') in
    let (http_ended, (https_ended, (counted_result, due_result))) =
      ended_lem s r (failed es) v.stage e (omega (arith, counted)) in
    (omega (arith, bound), (http_ended, (https_ended, (r, (e, (counted_result, due_result))))))
