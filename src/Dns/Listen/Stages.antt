-- ===== src/Dns/Listen/Stages.antt =====
-- What holds at each place of ListenAndServe of internal/dns/server.go.
use tripflare.Dns.Listen.Goroutines.{listens_lem, notifies_lem, fails_lem, closes_lem, sends_lem}
use tripflare.Dns.Listen.Effects.{
  on_server_ready_lem, error_received_lem, on_closing_lem, on_context_lem, on_shut_down_udp,
  on_shut_down_tcp, on_waited_lem, context_ends_lem,
}
use tripflare.Base.{
  length-append, Result, ok, err, ℕ, ◌+◌, ◌≤◌, ◌≡◌, refl, ap, ◌∙◌, inl, inr, Bool, true, false,
  ◌&&◌, ◌||◌, not, some, [], ◌∷◌, arith,
}
use tripflare.Dns.Listen.{
  udp, tcp, Place, starting, notifying, serving, sending, ended, Main, awaiting_two, awaiting_one,
  closing, selecting, stopping_udp, stopping_tcp, waiting, returned, Listening, Event, listens,
  notifies, fails, closes, sends, context_ends, server_ready, error_received, context_seen,
  ready_closed, shut_down, waited, is_ended, send, notify_started, is_select, step,
}

-- the result is no error only when the context is done and both servers have ended
abbrev pub is_due : Result (Unit {0}) → Listening → Bool
is_due (ok u) s = s.ready && s.cancelled && is_ended s.udp_place && is_ended s.tcp_place
is_due (err m) s = true

abbrev pub is_stage : Main → Listening → Bool
is_stage awaiting_two s = not s.ready
is_stage awaiting_one s = not s.ready
is_stage closing s = not s.ready
is_stage selecting s = s.ready
is_stage stopping_udp s = s.ready && s.cancelled
is_stage stopping_tcp s = s.ready && s.cancelled && s.udp_down
is_stage waiting s = s.ready && s.cancelled && s.udp_down && s.tcp_down
is_stage (returned r) s = is_due r s

-- the events of the two goroutines and of the context
abbrev is_outer : Event → Bool
is_outer server_ready = false
is_outer error_received = false
is_outer context_seen = false
is_outer ready_closed = false
is_outer (shut_down p) = false
is_outer waited = false
is_outer e = true

-- what these events keep
abbrev Follows : Listening → Listening → Type 0
Follows s s' =
    (s'.main ≡ s.main)
    × ((s'.ready ≡ s.ready)
        × ((s'.udp_down ≡ s.udp_down)
            × ((s'.tcp_down ≡ s.tcp_down)
                × ((not s.cancelled || s'.cancelled ≡ true)
                    × ((not (is_ended s.udp_place) || is_ended s'.udp_place ≡ true)
                        × (not (is_ended s.tcp_place) || is_ended s'.tcp_place ≡ true))))))

Follows-is_stage :
    (m : Main) (s s' : Listening) → Follows s s' → is_stage m s ≡ true → is_stage m s' ≡ true
Follows-is_stage awaiting_two s s' f h = ground (arith, f)
Follows-is_stage awaiting_one s s' f h = ground (arith, f)
Follows-is_stage closing s s' f h = ground (arith, f)
Follows-is_stage selecting s s' f h = ground (arith, f)
Follows-is_stage stopping_udp s s' f h = ground (arith, f)
Follows-is_stage stopping_tcp s s' f h = ground (arith, f)
Follows-is_stage waiting s s' f h = ground (arith, f)
Follows-is_stage (returned (ok u)) s s' f h = ground (arith, f)
Follows-is_stage (returned (err m)) s s' f h = refl

send-Follows : (p : Place) (s s' : Listening) → send p s ≡ some s' → Follows s s'
unfolding send
send-Follows starting s s' h = absurd cc
send-Follows notifying s s' h = absurd cc
send-Follows serving s s' h = absurd cc
send-Follows (sending m) s s' h = ground arith
send-Follows ended s s' h = absurd cc

place-Follows :
    (e : Event) (s s' : Listening) → is_outer e ≡ true → step e s ≡ some s' → Follows s s'
unfolding step notify_started send
place-Follows (listens udp) s s' g h = ground arith
place-Follows (listens tcp) s s' g h = ground arith
place-Follows (notifies udp) s s' g h = ground arith
place-Follows (notifies tcp) s s' g h = ground arith
place-Follows (fails udp) s s' g h = ground arith
place-Follows (fails tcp) s s' g h = ground arith
place-Follows (closes udp) s s' g h = ground arith
place-Follows (closes tcp) s s' g h = ground arith
place-Follows (sends udp) s s' g h = ground arith
place-Follows (sends tcp) s s' g h = ground arith
place-Follows context_ends s s' g h = let (was, e) = context_ends_lem s s' h in rw e (ground arith)
place-Follows server_ready s s' g h = absurd cc
place-Follows error_received s s' g h = absurd cc
place-Follows context_seen s s' g h = absurd cc
place-Follows ready_closed s s' g h = absurd cc
place-Follows (shut_down p) s s' g h = absurd cc
place-Follows waited s s' g h = absurd cc

-- the stage that an event of ListenAndServe's own goroutine leads to
pub step-stage :
    (e : Event) (s s' : Listening)
    → is_stage s.main s ≡ true
    → step e s ≡ some s'
    → is_stage s'.main s' ≡ true
unfolding step
step-stage server_ready s s' v h =
    let (more, (m, (e, at_place))) = on_server_ready_lem s.main s s' h in
    rw e (elim at_place [ inl (e₁, e₂) ↦ rw e₂ (rw e₁ at v) | inr (e₁, e₂) ↦ rw e₂ (rw e₁ at v) ])
step-stage error_received s s' v h =
    let (_, (_, (_, (_, e)))) = error_received_lem s s' h in rw e refl
step-stage ready_closed s s' v h = let (_, e) = on_closing_lem s.main s s' h in rw e refl
step-stage context_seen s s' v h =
    let (at_place, (c, e)) = on_context_lem s.main s s' h in
    let v' = rw at_place at v in rw e (ground (arith, v', c))
step-stage (shut_down udp) s s' v h =
    let (at_place, e) = on_shut_down_udp s.main s s' h in
    let v' = rw at_place at v in rw e (ground (arith, v'))
step-stage (shut_down tcp) s s' v h =
    let (at_place, e) = on_shut_down_tcp s.main s s' h in
    let v' = rw at_place at v in rw e (ground (arith, v'))
step-stage waited s s' v h =
    let (at_place, (both, e)) = on_waited_lem s.main s s' h in
    let v' = rw at_place at v in rw e (ground (arith, v', both))
step-stage e s s' v h =
    let f = place-Follows e s s' refl h in
    (ap (λ m. is_stage m s') (f.0)) ∙ Follows-is_stage s.main s s' f v

-- the values of serversReady that the stage needs, and that is_ready says of the caller's channel
abbrev pub needed : Main → Bool → ℕ
needed awaiting_two is_ready = 0
needed awaiting_one is_ready = 1
needed closing is_ready = 2
needed selecting is_ready = 2
needed stopping_udp is_ready = 2
needed stopping_tcp is_ready = 2
needed waiting is_ready = 2
needed (returned r) true = 2
needed (returned r) false = 0

-- those that have been received and those that can be
abbrev pub given : Listening → ℕ
given s = s.servers_ready + needed s.main s.ready

-- how many times an event puts a value into serversReady
abbrev pub notified_by : Event → ℕ
notified_by (notifies p) = 1
notified_by e = 0

select-needed :
    (m : Main) (s : Listening) (r : Result (Unit {0}))
    → is_select m ≡ true
    → is_stage m s ≡ true
    → needed (returned r) s.ready ≤ needed m s.ready
select-needed m s r h v = ground arith

waiting-needed : (s : Listening) (r : Result (Unit {0})) → needed (returned r) s.ready ≤ 2
waiting-needed s r = ground arith

pub step-given :
    (e : Event) (s s' : Listening)
    → is_stage s.main s ≡ true
    → step e s ≡ some s'
    → given s' ≤ notified_by e + given s
unfolding step
step-given (listens udp) s s' v h =
    let (at_place, e) = listens_lem udp s s' h in rw e (omega (arith))
step-given (listens tcp) s s' v h =
    let (at_place, e) = listens_lem tcp s s' h in rw e (omega (arith))
step-given (notifies udp) s s' v h =
    let (at_place, e) = notifies_lem udp s s' h in rw e (omega (arith))
step-given (notifies tcp) s s' v h =
    let (at_place, e) = notifies_lem tcp s s' h in rw e (omega (arith))
step-given (fails udp) s s' v h =
    let (at_place, e) = fails_lem udp s s' h in
    rw e (elim at_place [ inl e₁ ↦ omega (arith) | inr e₁ ↦ omega (arith) ])
step-given (fails tcp) s s' v h =
    let (at_place, e) = fails_lem tcp s s' h in
    rw e (elim at_place [ inl e₁ ↦ omega (arith) | inr e₁ ↦ omega (arith) ])
step-given (closes udp) s s' v h = let (at_place, e) = closes_lem udp s s' h in rw e (omega (arith))
step-given (closes tcp) s s' v h = let (at_place, e) = closes_lem tcp s s' h in rw e (omega (arith))
step-given (sends udp) s s' v h =
    let (m, (at_place, e)) = sends_lem udp s s' h in
    rw e (omega (arith, length-append s.failures (m ∷ [])))
step-given (sends tcp) s s' v h =
    let (m, (at_place, e)) = sends_lem tcp s s' h in
    rw e (omega (arith, length-append s.failures (m ∷ [])))
step-given context_ends s s' v h = let (_, e) = context_ends_lem s s' h in rw e (omega arith)
step-given server_ready s s' v h =
    let (more, (m, (e, at_place))) = on_server_ready_lem s.main s s' h in
    let at_main : Main → ℕ = λ m. needed m s.ready in
    rw e (elim at_place [
      | inl (e₁, e₂) ↦ omega (arith, more, ap at_main e₁, ap at_main e₂)
      | inr (e₁, e₂) ↦ omega (arith, more, ap at_main e₁, ap at_main e₂)
    ])
step-given error_received s s' v h =
    let (selects, (m, (_, (_, e)))) = error_received_lem s s' h in
    rw e (omega (arith, select-needed s.main s (err m) selects v))
step-given ready_closed s s' v h =
    let (at_place, e) = on_closing_lem s.main s s' h in rw e (rw at_place (omega arith))
step-given context_seen s s' v h =
    let (at_place, (_, e)) = on_context_lem s.main s s' h in rw e (rw at_place (omega arith))
step-given (shut_down udp) s s' v h =
    let (at_place, e) = on_shut_down_udp s.main s s' h in rw e (rw at_place (omega arith))
step-given (shut_down tcp) s s' v h =
    let (at_place, e) = on_shut_down_tcp s.main s s' h in rw e (rw at_place (omega arith))
step-given waited s s' v h =
    let (at_place, (_, e)) = on_waited_lem s.main s s' h in
    rw e (rw at_place (omega (arith, waiting-needed s (ok tt))))
