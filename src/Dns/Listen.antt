-- ===== src/Dns/Listen.antt =====
-- ListenAndServe of internal/dns/server.go: what its goroutines and its caller's context do, one
-- event at a time.
pub mod Effects
pub mod Goroutines
pub mod Counts
pub mod Stages
pub mod Runs
pub mod Ending
pub mod Tests
use tripflare.Base.{
  ltb, if◌then◌else◌, length, Result, ok, err, ℕ, ◌+◌, ◌-◌, Bool, true, false, ◌&&◌, ◌||◌, Option,
  none, some, String, List, [], ◌∷◌, ◌++◌,
}

pub data Proto : Type 0 where
  udp : Proto
  tcp : Proto

-- where the goroutine of a server is: before it listens, in notifyStarted, at its queries, at errCh
-- with an error, or at its end
pub data Place : Type 0 where
  starting : Place
  notifying : Place
  serving : Place
  sending : String → Place
  ended : Place

-- where ListenAndServe itself is, with the result that it will have: in the loop over the two
-- servers, before close(ready), in the last select, before each call of Shutdown, in wg.Wait, or at
-- its end
pub data Main : Type 0 where
  awaiting_two : Main
  awaiting_one : Main
  closing : Main
  selecting : Main
  stopping_udp : Main
  stopping_tcp : Main
  waiting : Main
  returned : Result (Unit {0}) → Main

pub record Listening : Type 0 where
  pub udp_place : Place
  pub tcp_place : Place
  -- how many values serversReady holds
  pub servers_ready : ℕ
  -- errCh
  pub failures : List String
  -- the caller's channel is closed
  pub ready : Bool
  pub udp_down : Bool
  pub tcp_down : Bool
  pub cancelled : Bool
  pub main : Main

abbrev pub start : Listening
start = record {
  udp_place = starting;
  tcp_place = starting;
  servers_ready = 0;
  failures = [];
  ready = false;
  udp_down = false;
  tcp_down = false;
  cancelled = false;
  main = awaiting_two;
}

pub data Event : Type 0 where
  listens : Proto → Event
  -- serversReady takes a value
  notifies : Proto → Event
  -- ListenAndServe of a server returns an error, or none after its Shutdown
  fails : Proto → Event
  closes : Proto → Event
  -- errCh takes the error of a server
  sends : Proto → Event
  -- the context is done
  context_ends : Event
  -- the cases of the selects
  server_ready : Event
  error_received : Event
  context_seen : Event
  -- close(ready)
  ready_closed : Event
  -- a call of Shutdown returns
  shut_down : Proto → Event
  -- wg.Wait returns
  waited : Event

abbrev pub place : Proto → Listening → Place
place udp s = s.udp_place
place tcp s = s.tcp_place

abbrev pub put : Proto → Place → Listening → Listening
put udp p s = record s { udp_place = p }
put tcp p s = record s { tcp_place = p }

abbrev pub down : Proto → Listening → Bool
down udp s = s.udp_down
down tcp s = s.tcp_down

abbrev pub message : Proto → String
message udp = "dns udp"
message tcp = "dns tcp"

abbrev pub is_starting : Place → Bool
is_starting starting = true
is_starting notifying = false
is_starting serving = false
is_starting (sending m) = false
is_starting ended = false

abbrev pub is_notifying : Place → Bool
is_notifying starting = false
is_notifying notifying = true
is_notifying serving = false
is_notifying (sending m) = false
is_notifying ended = false

abbrev pub is_serving : Place → Bool
is_serving starting = false
is_serving notifying = false
is_serving serving = true
is_serving (sending m) = false
is_serving ended = false

abbrev pub is_ended : Place → Bool
is_ended starting = false
is_ended notifying = false
is_ended serving = false
is_ended (sending m) = false
is_ended ended = true

-- errCh <- err: errCh has room for two errors; the error that is to be sent, and the state without it
unfoldable pub send : Place → Listening → Option Listening
send starting s = none
send notifying s = none
send serving s = none
send (sending m) s =
    if ltb (length s.failures) 2
    then some (record s { failures = s.failures ++ (m ∷ []) })
    else none
send ended s = none

-- serversReady <- struct{}{}: it has room for two values
unfoldable pub notify_started : Listening → Option Listening
notify_started s =
    if ltb s.servers_ready 2 then some (record s { servers_ready = s.servers_ready + 1 }) else none

-- an error is received, and ListenAndServe returns it
unfoldable pub receive : List String → Listening → Option Listening
receive [] s = none
receive (m ∷ failures) s = some (record s { failures = failures; main = returned (err m) })

-- a value of serversReady is received
unfoldable pub count_ready : Main → Listening → Option Listening
count_ready m s =
    if ltb 0 s.servers_ready
    then some (record s { servers_ready = s.servers_ready - 1; main = m })
    else none

-- case <-serversReady
unfoldable pub on_server_ready : Main → Listening → Option Listening
on_server_ready awaiting_two s = count_ready awaiting_one s
on_server_ready awaiting_one s = count_ready closing s
on_server_ready m s = none

-- whether ListenAndServe is in a select, each of which has the case of errCh
abbrev pub is_select : Main → Bool
is_select awaiting_two = true
is_select awaiting_one = true
is_select selecting = true
is_select m = false

-- close(ready)
unfoldable pub on_closing : Main → Listening → Option Listening
on_closing closing s = some (record s { ready = true; main = selecting })
on_closing m s = none

-- case <-ctx.Done()
unfoldable pub on_context : Main → Listening → Option Listening
on_context selecting s = if s.cancelled then some (record s { main = stopping_udp }) else none
on_context m s = none

-- udpServer.Shutdown and tcpServer.Shutdown
unfoldable pub on_shut_down : Proto → Main → Listening → Option Listening
on_shut_down udp stopping_udp s = some (record s { udp_down = true; main = stopping_tcp })
on_shut_down tcp stopping_tcp s = some (record s { tcp_down = true; main = waiting })
on_shut_down p m s = none

-- wg.Wait
unfoldable pub on_waited : Main → Listening → Option Listening
on_waited waiting s =
    if is_ended s.udp_place && is_ended s.tcp_place
    then some (record s { main = returned (ok tt) })
    else none
on_waited m s = none

-- the state after an event, and none where the event cannot happen
unfoldable pub step : Event → Listening → Option Listening
step (listens p) s = if is_starting (place p s) then some (put p notifying s) else none
step (notifies p) s = if is_notifying (place p s) then notify_started (put p serving s) else none
step (fails p) s =
    if is_starting (place p s) || is_serving (place p s)
    then some (put p (sending (message p)) s)
    else none
step (closes p) s = if is_serving (place p s) && down p s then some (put p ended s) else none
step (sends p) s = send (place p s) (put p ended s)
step context_ends s = if s.cancelled then none else some (record s { cancelled = true })
step server_ready s = on_server_ready s.main s
step error_received s = if is_select s.main then receive s.failures s else none
step context_seen s = on_context s.main s
step ready_closed s = on_closing s.main s
step (shut_down p) s = on_shut_down p s.main s
step waited s = on_waited s.main s

-- the events of a list, one after another
unfoldable pub run : List Event → Listening → Option Listening
run [] s = some s
run (e ∷ es) s = elim (step e s) [ none ↦ none | some s' ↦ run es s' ]
