-- ===== src/Dns/Listen/Counts.antt =====
-- The events that ListenAndServe of internal/dns/server.go has left, its errors and the values of
-- serversReady: how many there are, and where.
use tripflare.Base.{
  length, length-append, Result, ok, err, ℕ, suc, ◌+◌, ◌≤◌, ◌≡◌, ap, inl, inr, Bool, true, false,
  some, [], ◌∷◌, arith,
}
use tripflare.Dns.Listen.{
  udp, tcp, Place, starting, notifying, serving, sending, ended, Main, awaiting_two, awaiting_one,
  closing, selecting, stopping_udp, stopping_tcp, waiting, returned, Listening, Event, listens,
  notifies, fails, closes, sends, context_ends, server_ready, error_received, context_seen,
  ready_closed, shut_down, waited, is_select, step,
}
use tripflare.Dns.Listen.Effects.{
  on_server_ready_lem, error_received_lem, on_closing_lem, on_context_lem, on_shut_down_udp,
  on_shut_down_tcp, on_waited_lem, context_ends_lem,
}
use tripflare.Dns.Listen.Goroutines.{listens_lem, notifies_lem, fails_lem, closes_lem, sends_lem}

abbrev left : Place → ℕ
left starting = 4
left notifying = 3
left serving = 2
left (sending m) = 1
left ended = 0

-- the steps that ListenAndServe itself has left
abbrev main_left : Main → ℕ
main_left awaiting_two = 7
main_left awaiting_one = 6
main_left closing = 5
main_left selecting = 4
main_left stopping_udp = 3
main_left stopping_tcp = 2
main_left waiting = 1
main_left (returned r) = 0

abbrev context_left : Bool → ℕ
context_left true = 0
context_left false = 1

-- the most events that can still happen
abbrev pub rank : Listening → ℕ
rank s = left s.udp_place + left s.tcp_place + context_left s.cancelled + main_left s.main

-- how many failures an event is
abbrev pub failed_by : Event → ℕ
failed_by (fails p) = 1
failed_by e = 0

abbrev pub held : Place → ℕ
held (sending m) = 1
held p = 0

-- the failure that ListenAndServe has returned
abbrev pub received : Result (Unit {0}) → ℕ
received (ok u) = 0
received (err m) = 1

abbrev pub taken : Main → ℕ
taken (returned r) = received r
taken m = 0

-- the failures so far: at errCh, in it, and received
abbrev pub known : Listening → ℕ
known s = held s.udp_place + held s.tcp_place + length s.failures + taken s.main

abbrev pub busy : Place → ℕ
busy ended = 0
busy p = 1

-- what errCh holds and may yet get
abbrev pub room : Listening → ℕ
room s = length s.failures + busy s.udp_place + busy s.tcp_place

-- whether a server has not started and has not failed to
abbrev pub silent : Place → ℕ
silent starting = 1
silent notifying = 1
silent p = 0

-- what serversReady holds and may yet get
abbrev pub slots : Listening → ℕ
slots s = s.servers_ready + silent s.udp_place + silent s.tcp_place

-- the values that the loop over the servers has received, and more once it is over
abbrev pub counted : Main → ℕ
counted awaiting_two = 0
counted awaiting_one = 1
counted m = 2

-- what the loop has received, can receive and may yet get, or has failed
abbrev pub heard : Listening → ℕ
heard s = slots s + counted s.main + known s

place_facts :
    {p q : Place}
    → p ≡ q
    → (left p ≡ left q) × ((held p ≡ held q) × ((busy p ≡ busy q) × (silent p ≡ silent q)))
place_facts e = (ap left e, (ap held e, (ap busy e, ap silent e)))

main_facts :
    {m m' : Main}
    → m ≡ m'
    → (main_left m ≡ main_left m') × ((taken m ≡ taken m') × (counted m ≡ counted m'))
main_facts e = (ap main_left e, (ap taken e, ap counted e))

select_facts :
    (m : Main) → is_select m ≡ true → (4 ≤ main_left m) × ((taken m ≡ 0) × (counted m ≤ 2))
select_facts m h = ground arith

-- what an event does to these numbers
pub step-counts :
    (e : Event) (s s' : Listening)
    → step e s ≡ some s'
    → (suc (rank s') ≤ rank s)
      × ((failed_by e + known s ≡ known s')
          × ((room s' ≤ room s) × ((slots s' ≤ slots s) × (heard s ≤ heard s'))))
unfolding step
step-counts (listens udp) s s' h =
    let (at_place, e) = listens_lem udp s s' h in rw e (omega (arith, place_facts at_place))
step-counts (listens tcp) s s' h =
    let (at_place, e) = listens_lem tcp s s' h in rw e (omega (arith, place_facts at_place))
step-counts (notifies udp) s s' h =
    let (at_place, e) = notifies_lem udp s s' h in rw e (omega (arith, place_facts at_place))
step-counts (notifies tcp) s s' h =
    let (at_place, e) = notifies_lem tcp s s' h in rw e (omega (arith, place_facts at_place))
step-counts (fails udp) s s' h =
    let (at_place, e) = fails_lem udp s s' h in
    rw e (elim at_place [
      | inl e₁ ↦ omega (arith, place_facts e₁)
      | inr e₁ ↦ omega (arith, place_facts e₁)
    ])
step-counts (fails tcp) s s' h =
    let (at_place, e) = fails_lem tcp s s' h in
    rw e (elim at_place [
      | inl e₁ ↦ omega (arith, place_facts e₁)
      | inr e₁ ↦ omega (arith, place_facts e₁)
    ])
step-counts (closes udp) s s' h =
    let (at_place, e) = closes_lem udp s s' h in rw e (omega (arith, place_facts at_place))
step-counts (closes tcp) s s' h =
    let (at_place, e) = closes_lem tcp s s' h in rw e (omega (arith, place_facts at_place))
step-counts (sends udp) s s' h =
    let (m, (at_place, e)) = sends_lem udp s s' h in
    rw e (omega (arith, length-append s.failures (m ∷ []), place_facts at_place))
step-counts (sends tcp) s s' h =
    let (m, (at_place, e)) = sends_lem tcp s s' h in
    rw e (omega (arith, length-append s.failures (m ∷ []), place_facts at_place))
step-counts context_ends s s' h =
    let (was, e) = context_ends_lem s s' h in rw e (omega (arith, ap context_left was))
step-counts server_ready s s' h =
    let (more, (m, (e, at_place))) = on_server_ready_lem s.main s s' h in
    rw e (elim at_place [
      | inl (e₁, e₂) ↦ omega (arith, more, main_facts e₁, main_facts e₂)
      | inr (e₁, e₂) ↦ omega (arith, more, main_facts e₁, main_facts e₂)
    ])
step-counts error_received s s' h =
    let (selects, (m, (rest, (fs, e)))) = error_received_lem s s' h in
    rw e (omega (arith, ap length fs, select_facts s.main selects))
step-counts context_seen s s' h =
    let (at_place, (_, e)) = on_context_lem s.main s s' h in
    rw e (omega (arith, main_facts at_place))
step-counts ready_closed s s' h =
    let (at_place, e) = on_closing_lem s.main s s' h in rw e (omega (arith, main_facts at_place))
step-counts (shut_down udp) s s' h =
    let (at_place, e) = on_shut_down_udp s.main s s' h in rw e (omega (arith, main_facts at_place))
step-counts (shut_down tcp) s s' h =
    let (at_place, e) = on_shut_down_tcp s.main s s' h in rw e (omega (arith, main_facts at_place))
step-counts waited s s' h =
    let (at_place, (_, e)) = on_waited_lem s.main s s' h in
    rw e (omega (arith, main_facts at_place))
