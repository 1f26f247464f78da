-- ===== src/Http/Listen/Events.antt =====
-- What one event changes in ListenAndServe of internal/httpserver/server.go.
use tripflare.Base.{
  length, length-append, Result, ok, err, ℕ, suc, ◌+◌, ◌≤◌, ◌≡◌, Bool, true, false, ◌&&◌, not, some,
  [], ◌∷◌, arith,
}
use tripflare.Http.Listen.{
  Place, starting, serving, sending, ended, Main, selecting, stopping_http, stopping_https, waiting,
  returned, Listening, Event, http_fails, https_listen_fails, https_fails, http_sends, https_sends,
  https_listens, http_closes, https_closes, context_ends, error_received, context_seen,
  http_shut_down, https_shut_down, waited, is_starting, is_ended, send, receive, step,
}

abbrev left : Place → ℕ
left starting = 3
left serving = 2
left (sending m) = 1
left ended = 0

-- the steps that ListenAndServe itself has left
abbrev main_left : Main → ℕ
main_left selecting = 4
main_left (stopping_http r) = 3
main_left (stopping_https r) = 2
main_left (waiting r) = 1
main_left (returned r) = 0

abbrev context_left : Bool → ℕ
context_left true = 0
context_left false = 1

-- the most events that can still happen
abbrev pub rank : Listening → ℕ
rank s = left s.http + left s.https + context_left s.cancelled + main_left s.main

-- how many of the events are failures
abbrev pub failed_by : Event → ℕ
failed_by e = elim e [
  | http_fails ↦ 1
  | https_listen_fails ↦ 1
  | https_fails ↦ 1
  | http_sends ↦ 0
  | https_sends ↦ 0
  | https_listens ↦ 0
  | http_closes ↦ 0
  | https_closes ↦ 0
  | context_ends ↦ 0
  | error_received ↦ 0
  | context_seen ↦ 0
  | http_shut_down ↦ 0
  | https_shut_down ↦ 0
  | waited ↦ 0
]

-- the failures that the select has received
abbrev pub received : Result (Unit {0}) → ℕ
received (ok u) = 0
received (err m) = 1

abbrev pub taken : Main → ℕ
taken selecting = 0
taken (stopping_http r) = received r
taken (stopping_https r) = received r
taken (waiting r) = received r
taken (returned r) = received r

abbrev pub held : Place → ℕ
held starting = 0
held serving = 0
held (sending m) = 1
held ended = 0

abbrev pub known : Listening → ℕ
known s = held s.http + held s.https + length s.failures + taken s.main

abbrev pub busy : Place → ℕ
busy starting = 1
busy serving = 1
busy (sending m) = 1
busy ended = 0

send_lem :
    (p : Place) (s s' : Listening)
    → send p s ≡ some s'
    → (held p ≡ 1)
      × ((busy p ≡ 1)
          × ((length s'.failures ≡ suc (length s.failures))
              × ((s'.http ≡ s.http) × ((s'.https ≡ s.https) × (s'.main ≡ s.main)))))
unfolding send
send_lem starting s s' h = absurd cc
send_lem serving s s' h = absurd cc
send_lem (sending m) s s' h = ground (arith, length-append s.failures (m ∷ []))
send_lem ended s s' h = absurd cc

-- an error is the result of a failure, and no error that of the context's end
abbrev pub is_due : Result (Unit {0}) → Bool → Bool
is_due (ok u) cancelled = cancelled
is_due (err m) cancelled = true

abbrev pub is_stage : Main → Listening → Bool
is_stage selecting s = true
is_stage (stopping_http r) s = is_due r s.cancelled
is_stage (stopping_https r) s = is_due r s.cancelled && s.http_down
is_stage (waiting r) s = is_due r s.cancelled && s.http_down && s.https_down
is_stage (returned r) s = is_due r s.cancelled && is_ended s.http && is_ended s.https

abbrev pub is_started : Listening → Bool
is_started s = not (is_starting s.http) && is_stage s.main s

-- each goroutine that has not ended has a place in errCh
abbrev pub room : Listening → ℕ
room s = length s.failures + busy s.http + busy s.https

pub record IsSound (s : Listening) : Type 0 where
  pub stage : is_started s ≡ true
  pub enough_room : room s ≤ 2

pub step-stage :
    (e : Event) (s s' : Listening) → is_started s ≡ true → step e s ≡ some s' → is_started s' ≡ true
unfolding step send receive
step-stage http_fails s s' v h = ground arith
step-stage https_listen_fails s s' v h = ground arith
step-stage http_sends s s' v h = ground arith
step-stage https_sends s s' v h = ground arith
step-stage https_listens s s' v h = ground arith
step-stage https_fails s s' v h = ground arith
step-stage http_closes s s' v h = ground arith
step-stage https_closes s s' v h = ground arith
step-stage context_ends s s' v h = ground arith
step-stage error_received s s' v h = ground arith
step-stage context_seen s s' v h = ground arith
step-stage http_shut_down s s' v h = ground arith
step-stage https_shut_down s s' v h = ground arith
step-stage waited s s' v h = ground arith

-- what an event does to these numbers
pub step-counts :
    (e : Event) (s s' : Listening)
    → step e s ≡ some s'
    → (suc (rank s') ≤ rank s) × ((failed_by e + known s ≡ known s') × (room s' ≤ room s))
unfolding step send receive
step-counts http_fails s s' h = ground arith
step-counts https_listen_fails s s' h = ground arith
step-counts https_fails s s' h = ground arith
step-counts http_sends s s' h = ground (arith, send_lem s.http (record s { http = ended }) s' h)
step-counts https_sends s s' h = ground (arith, send_lem s.https (record s { https = ended }) s' h)
step-counts https_listens s s' h = ground arith
step-counts http_closes s s' h = ground arith
step-counts https_closes s s' h = ground arith
step-counts context_ends s s' h = ground arith
step-counts error_received s s' h = ground arith
step-counts context_seen s s' h = ground arith
step-counts http_shut_down s s' h = ground arith
step-counts https_shut_down s s' h = ground arith
step-counts waited s s' h = ground arith
