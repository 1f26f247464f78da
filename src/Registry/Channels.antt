-- ===== src/Registry/Channels.antt =====
-- The channel operations of internal/registry/registry.go on the channels of subscribers.
use tripflare.Base.{
  ltb, ◌==◌, if◌then◌else◌, length, drop, Outcome, ret, panic, then_do, ℕ, true, Option, none, some,
  List, [], ◌∷◌, ◌++◌,
}
use tripflare.Registry.Types.{Event, Chan, Chans}

abbrev pub subscriber_capacity : ℕ
subscriber_capacity = 64

unfoldable pub set_chan : Chans → ℕ → Chan → Chans
set_chan chans c ch d = if c == d then ch else chans d

-- close(ch): panics on a closed channel
unfoldable pub close_chan : ℕ → Chans → Outcome (Unit {0}) × Chans
close_chan c chans =
    if (chans c).closed
    then (panic, chans)
    else (ret tt, set_chan chans c (record (chans c) { closed = true }))

-- select { case ch <- ev: default: }: panics on a closed channel, drops the event on a full one
unfoldable pub try_send : ℕ → Event → Chans → Outcome (Unit {0}) × Chans
try_send c ev chans =
    if (chans c).closed
    then (panic, chans)
    else if ltb (length (chans c).buffer) subscriber_capacity
    then (ret tt, set_chan chans c (record (chans c) { buffer = (chans c).buffer ++ ev ∷ [] }))
    else (ret tt, chans)

-- <-ch in streamSSE: the oldest event leaves the buffer, if there is one
unfoldable pub take_event : ℕ → Chans → Chans
take_event c chans = set_chan chans c (record (chans c) { buffer = drop 1 (chans c).buffer })

-- for _, sub := range e.subscribers { close(sub.ch) }
unfoldable pub close_all : List ℕ → Chans → Outcome (Unit {0}) × Chans
close_all [] chans = (ret tt, chans)
close_all (c ∷ cs) chans = then_do (close_chan c chans) (λ _ chans'. close_all cs chans')

-- for _, sub := range e.subscribers { select ... }
unfoldable pub send_all : List ℕ → Event → Chans → Outcome (Unit {0}) × Chans
send_all [] ev chans = (ret tt, chans)
send_all (c ∷ cs) ev chans = then_do (try_send c ev chans) (λ _ chans'. send_all cs ev chans')

-- the loop of unsub: the subscribers without the first that is `sub`
unfoldable pub remove_subscriber : ℕ → List ℕ → Option (List ℕ)
remove_subscriber sub [] = none
remove_subscriber sub (ss ∷ rest) =
    if ss == sub
    then some rest
    else elim (remove_subscriber sub rest) [ none ↦ none | some rest' ↦ some (ss ∷ rest') ]
