-- ===== src/Http/Listen.antt =====
-- ListenAndServe of internal/httpserver/server.go: what its goroutines and its caller's context do,
-- one event at a time.
pub mod Events
pub mod Ending
pub mod Tests
use tripflare.Base.{
  ltb, if◌then◌else◌, length, Result, ok, err, Bool, true, false, ◌&&◌, Option, none, some, String,
  List, [], ◌∷◌, ◌++◌,
}

-- where the goroutine of a server is: before tls.Listen, in Serve, at errCh with an error, or at its
-- end
pub data Place : Type 0 where
  starting : Place
  serving : Place
  sending : String → Place
  ended : Place

-- where ListenAndServe itself is, with the result that it will have: in the select, before each call
-- of Shutdown, in wg.Wait, or at its end
pub data Main : Type 0 where
  selecting : Main
  stopping_http : Result (Unit {0}) → Main
  stopping_https : Result (Unit {0}) → Main
  waiting : Result (Unit {0}) → Main
  returned : Result (Unit {0}) → Main

pub record Listening : Type 0 where
  pub http : Place
  pub https : Place
  -- errCh
  pub failures : List String
  pub http_down : Bool
  pub https_down : Bool
  pub cancelled : Bool
  pub main : Main

abbrev pub start : Listening
start = record {
  http = serving;
  https = starting;
  failures = [];
  http_down = false;
  https_down = false;
  cancelled = false;
  main = selecting;
}

pub data Event : Type 0 where
  -- a call of a server returns an error other than ErrServerClosed
  http_fails : Event
  https_listen_fails : Event
  https_fails : Event
  -- errCh takes the error of a server
  http_sends : Event
  https_sends : Event
  https_listens : Event
  -- a call of a server returns ErrServerClosed
  http_closes : Event
  https_closes : Event
  -- the context is done
  context_ends : Event
  -- the cases of the select
  error_received : Event
  context_seen : Event
  -- a call of Shutdown returns, at the latest after five seconds
  http_shut_down : Event
  https_shut_down : Event
  -- wg.Wait returns
  waited : Event

abbrev pub is_starting : Place → Bool
is_starting starting = true
is_starting (sending m) = false
is_starting serving = false
is_starting ended = false

abbrev pub is_serving : Place → Bool
is_serving starting = false
is_serving (sending m) = false
is_serving serving = true
is_serving ended = false

abbrev pub is_ended : Place → Bool
is_ended starting = false
is_ended (sending m) = false
is_ended serving = false
is_ended ended = true

-- errCh <- err: errCh has room for two errors; the error that is to be sent, and the state without it
unfoldable pub send : Place → Listening → Option Listening
send starting s = none
send serving s = none
send (sending m) s =
    if ltb (length s.failures) 2
    then some (record s { failures = s.failures ++ (m ∷ []) })
    else none
send ended s = none

-- the select of ListenAndServe
unfoldable pub receive : List String → Listening → Option Listening
receive [] s = none
receive (m ∷ failures) s = some (record s { failures = failures; main = stopping_http (err m) })

-- the state after an event, and none where the event cannot happen
unfoldable pub step : Event → Listening → Option Listening
step http_fails s = if is_serving s.http then some (record s { http = sending "http" }) else none
step https_listen_fails s =
    if is_starting s.https then some (record s { https = sending "https listen" }) else none
step http_sends s = send s.http (record s { http = ended })
step https_sends s = send s.https (record s { https = ended })
step https_listens s = if is_starting s.https then some (record s { https = serving }) else none
step https_fails s =
    if is_serving s.https then some (record s { https = sending "https" }) else none
step http_closes s =
    if is_serving s.http && s.http_down then some (record s { http = ended }) else none
step https_closes s =
    if is_serving s.https && s.https_down then some (record s { https = ended }) else none
step context_ends s = if s.cancelled then none else some (record s { cancelled = true })
step error_received s = elim s.main [
  | selecting ↦ receive s.failures s
  | stopping_http r ↦ none
  | stopping_https r ↦ none
  | waiting r ↦ none
  | returned r ↦ none
]
step context_seen s = elim s.main [
  | selecting ↦ if s.cancelled then some (record s { main = stopping_http (ok tt) }) else none
  | stopping_http r ↦ none
  | stopping_https r ↦ none
  | waiting r ↦ none
  | returned r ↦ none
]
step http_shut_down s = elim s.main [
  | selecting ↦ none
  | stopping_http r ↦ some (record s { http_down = true; main = stopping_https r })
  | stopping_https r ↦ none
  | waiting r ↦ none
  | returned r ↦ none
]
step https_shut_down s = elim s.main [
  | selecting ↦ none
  | stopping_http r ↦ none
  | stopping_https r ↦ some (record s { https_down = true; main = waiting r })
  | waiting r ↦ none
  | returned r ↦ none
]
step waited s = elim s.main [
  | selecting ↦ none
  | stopping_http r ↦ none
  | stopping_https r ↦ none
  | waiting r ↦
      if is_ended s.http && is_ended s.https then some (record s { main = returned r }) else none
  | returned r ↦ none
]

-- the events of a list, one after another
unfoldable pub run : List Event → Listening → Option Listening
run [] s = some s
run (e ∷ es) s = elim (step e s) [ none ↦ none | some s' ↦ run es s' ]
