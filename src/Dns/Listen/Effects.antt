-- ===== src/Dns/Listen/Effects.antt =====
-- What the events of the caller's goroutine change in ListenAndServe of internal/dns/server.go.
use tripflare.Base.{
  ltb, Bool-cases, ok, err, ◌-◌, ◌≤◌, ◌≡◌, refl, ◌⊎◌, inl, inr, true, false, ◌&&◌, some, String,
  List, [], ◌∷◌, arith,
}
use tripflare.Dns.Listen.{
  udp, tcp, Main, awaiting_two, awaiting_one, closing, selecting, stopping_udp, stopping_tcp,
  waiting, returned, Listening, context_ends, error_received, is_ended, receive, count_ready,
  on_server_ready, is_select, on_closing, on_context, on_shut_down, on_waited, step,
}

count_ready_lem :
    (m : Main) (s s' : Listening)
    → count_ready m s ≡ some s'
    → (1 ≤ s.servers_ready) × (s' ≡ record s { servers_ready = s.servers_ready - 1; main = m })
unfolding count_ready
count_ready_lem m s s' h = elim (Bool-cases (ltb 0 s.servers_ready)) [
  | inl e ↦ (ground arith, let h' = rw (e, count_ready) at h in cc)
  | inr e ↦ absurd (let h' = rw (e, count_ready) at h in cc)
]

-- the two places at which a value of serversReady is received
pub on_server_ready_lem :
    (m : Main) (s s' : Listening)
    → on_server_ready m s ≡ some s'
    → (1 ≤ s.servers_ready)
      × ((m' : Main) × ((s' ≡ record s { servers_ready = s.servers_ready - 1; main = m' })
            × (((m ≡ awaiting_two) × (m' ≡ awaiting_one)) ⊎ ((m ≡ awaiting_one) × (m' ≡ closing)))))
unfolding on_server_ready
on_server_ready_lem awaiting_two s s' h =
    let (more, e) = count_ready_lem awaiting_one s s' h in
    (more, (awaiting_one, (e, inl (refl, refl))))
on_server_ready_lem awaiting_one s s' h =
    let (more, e) = count_ready_lem closing s s' h in (more, (closing, (e, inr (refl, refl))))
on_server_ready_lem closing s s' h = absurd cc
on_server_ready_lem selecting s s' h = absurd cc
on_server_ready_lem stopping_udp s s' h = absurd cc
on_server_ready_lem stopping_tcp s s' h = absurd cc
on_server_ready_lem waiting s s' h = absurd cc
on_server_ready_lem (returned r) s s' h = absurd cc

receive_lem :
    (failures : List String) (s s' : Listening)
    → receive failures s ≡ some s'
    → (m : String) × ((rest : List String) × ((failures ≡ m ∷ rest)
          × (s' ≡ record s { failures = rest; main = returned (err m) })))
unfolding receive
receive_lem [] s s' h = absurd cc
receive_lem (m ∷ rest) s s' h = (m, (rest, (refl, cc)))

pub error_received_lem :
    (s s' : Listening)
    → step error_received s ≡ some s'
    → (is_select s.main ≡ true)
      × ((m : String) × ((rest : List String) × ((s.failures ≡ m ∷ rest)
              × (s' ≡ record s { failures = rest; main = returned (err m) }))))
unfolding step
error_received_lem s s' h = elim (Bool-cases (is_select s.main)) [
  | inl e ↦ (e, receive_lem s.failures s s' (rw (e, step) at h))
  | inr e ↦ absurd (let h' = rw (e, step) at h in cc)
]

pub on_closing_lem :
    (m : Main) (s s' : Listening)
    → on_closing m s ≡ some s'
    → (m ≡ closing) × (s' ≡ record s { ready = true; main = selecting })
unfolding on_closing
on_closing_lem awaiting_two s s' h = absurd cc
on_closing_lem awaiting_one s s' h = absurd cc
on_closing_lem closing s s' h = (refl, cc)
on_closing_lem selecting s s' h = absurd cc
on_closing_lem stopping_udp s s' h = absurd cc
on_closing_lem stopping_tcp s s' h = absurd cc
on_closing_lem waiting s s' h = absurd cc
on_closing_lem (returned r) s s' h = absurd cc

pub on_context_lem :
    (m : Main) (s s' : Listening)
    → on_context m s ≡ some s'
    → (m ≡ selecting) × ((s.cancelled ≡ true) × (s' ≡ record s { main = stopping_udp }))
unfolding on_context
on_context_lem awaiting_two s s' h = absurd cc
on_context_lem awaiting_one s s' h = absurd cc
on_context_lem closing s s' h = absurd cc
on_context_lem selecting s s' h = elim (Bool-cases s.cancelled) [
  | inl e ↦ (refl, (e, let h' = rw (e, on_context) at h in cc))
  | inr e ↦ absurd (let h' = rw (e, on_context) at h in cc)
]
on_context_lem stopping_udp s s' h = absurd cc
on_context_lem stopping_tcp s s' h = absurd cc
on_context_lem waiting s s' h = absurd cc
on_context_lem (returned r) s s' h = absurd cc

pub on_shut_down_udp :
    (m : Main) (s s' : Listening)
    → on_shut_down udp m s ≡ some s'
    → (m ≡ stopping_udp) × (s' ≡ record s { udp_down = true; main = stopping_tcp })
unfolding on_shut_down
on_shut_down_udp awaiting_two s s' h = absurd cc
on_shut_down_udp awaiting_one s s' h = absurd cc
on_shut_down_udp closing s s' h = absurd cc
on_shut_down_udp selecting s s' h = absurd cc
on_shut_down_udp stopping_udp s s' h = (refl, cc)
on_shut_down_udp stopping_tcp s s' h = absurd cc
on_shut_down_udp waiting s s' h = absurd cc
on_shut_down_udp (returned r) s s' h = absurd cc

pub on_shut_down_tcp :
    (m : Main) (s s' : Listening)
    → on_shut_down tcp m s ≡ some s'
    → (m ≡ stopping_tcp) × (s' ≡ record s { tcp_down = true; main = waiting })
unfolding on_shut_down
on_shut_down_tcp awaiting_two s s' h = absurd cc
on_shut_down_tcp awaiting_one s s' h = absurd cc
on_shut_down_tcp closing s s' h = absurd cc
on_shut_down_tcp selecting s s' h = absurd cc
on_shut_down_tcp stopping_udp s s' h = absurd cc
on_shut_down_tcp stopping_tcp s s' h = (refl, cc)
on_shut_down_tcp waiting s s' h = absurd cc
on_shut_down_tcp (returned r) s s' h = absurd cc

pub on_waited_lem :
    (m : Main) (s s' : Listening)
    → on_waited m s ≡ some s'
    → (m ≡ waiting)
      × ((is_ended s.udp_place && is_ended s.tcp_place ≡ true)
          × (s' ≡ record s { main = returned (ok tt) }))
unfolding on_waited
on_waited_lem awaiting_two s s' h = absurd cc
on_waited_lem awaiting_one s s' h = absurd cc
on_waited_lem closing s s' h = absurd cc
on_waited_lem selecting s s' h = absurd cc
on_waited_lem stopping_udp s s' h = absurd cc
on_waited_lem stopping_tcp s s' h = absurd cc
on_waited_lem waiting s s' h = elim (Bool-cases (is_ended s.udp_place && is_ended s.tcp_place)) [
  | inl e ↦ (refl, (e, let h' = rw (e, on_waited) at h in cc))
  | inr e ↦ absurd (let h' = rw (e, on_waited) at h in cc)
]
on_waited_lem (returned r) s s' h = absurd cc

pub context_ends_lem :
    (s s' : Listening)
    → step context_ends s ≡ some s'
    → (s.cancelled ≡ false) × (s' ≡ record s { cancelled = true })
unfolding step
context_ends_lem s s' h = elim (Bool-cases s.cancelled) [
  | inl e ↦ absurd (let h' = rw (e, step) at h in cc)
  | inr e ↦ (e, let h' = rw (e, step) at h in cc)
]
