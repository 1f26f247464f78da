-- ===== src/Dns/Listen/Ending.antt =====
-- How ListenAndServe of internal/dns/server.go ends.
use tripflare.Dns.Listen.Runs.{failed, notified, IsSound, run_lem}
use tripflare.Base.{
  ltb, Bool-cases, length, Result, ℕ, ◌≤◌, ◌≡◌, refl, sym, ap, ◌∙◌, ◌≢◌, ◌⊎◌, inl, inr, Bool, true,
  false, ◌||◌, not, none, some, String, List, [], ◌∷◌, arith,
}
use tripflare.Dns.Listen.{
  Proto, udp, tcp, Place, Main, awaiting_two, awaiting_one, closing, selecting, stopping_udp,
  stopping_tcp, waiting, returned, Listening, start, Event, listens, notifies, fails, closes, sends,
  context_ends, server_ready, error_received, context_seen, ready_closed, shut_down, waited, place,
  is_serving, is_ended, send, notify_started, receive, count_ready, on_server_ready, is_select,
  on_closing, on_context, on_shut_down, on_waited, step, run,
}
use tripflare.Dns.Listen.Counts.{held, received, taken, known, silent, counted}
use tripflare.Dns.Listen.Stages.{is_due, is_stage, needed, given}

-- all events but those that a server or the context brings
abbrev pub is_own : Event → Bool
is_own (fails p) = false
is_own context_ends = false
is_own e = true

-- nothing is left that ListenAndServe or a goroutine could do by itself
abbrev pub IsQuiet : Listening → Type 0
IsQuiet s = (e : Event) → is_own e ≡ true → step e s ≡ none

-- a goroutine then serves or has ended
abbrev pub settled : Place → Bool
settled p = is_serving p || is_ended p

quiet-settled : (p : Proto) (s : Listening) → IsSound s → IsQuiet s → settled (place p s) ≡ true
unfolding step send notify_started
quiet-settled udp s v q = ground (
  arith,
  v.enough_room,
  v.enough_slots,
  q (listens udp) refl,
  q (notifies udp) refl,
  q (sends udp) refl,
)
quiet-settled tcp s v q = ground (
  arith,
  v.enough_room,
  v.enough_slots,
  q (listens tcp) refl,
  q (notifies tcp) refl,
  q (sends tcp) refl,
)

receive-none :
    (failures : List String) (s : Listening) → receive failures s ≡ none → length failures ≡ 0
unfolding receive
receive-none [] s h = refl
receive-none (m ∷ failures) s h = absurd cc

count_ready-none : (m : Main) (s : Listening) → count_ready m s ≡ none → s.servers_ready ≡ 0
unfolding count_ready
count_ready-none m s h = elim (Bool-cases (ltb 0 s.servers_ready)) [
  | inl e ↦ absurd (let h' = rw (e, count_ready) at h in cc)
  | inr e ↦ ground arith
]

settled_lem :
    (p : Place)
    → settled p ≡ true
    → (held p ≡ 0) × ((silent p ≡ 0) × (not (is_serving p) ≡ is_ended p))
settled_lem p h = ground arith

quiet-errors : (s : Listening) → IsQuiet s → is_select s.main ≡ true → length s.failures ≡ 0
unfolding step
quiet-errors s q h = receive-none s.failures s (rw h at (q error_received refl))

quiet-waiting :
    (s : Listening)
    → is_stage waiting s ≡ true
    → settled s.udp_place ≡ true
    → settled s.tcp_place ≡ true
    → step (closes udp) s ≡ none
    → step (closes tcp) s ≡ none
    → on_waited waiting s ≢ none
unfolding step on_waited
quiet-waiting s v u t closes_udp closes_tcp h = ground arith

-- the stages that a quiet state can be in, once a server has failed or the context is done
quiet-returned :
    (m : Main) (s : Listening)
    → m ≡ s.main
    → IsSound s
    → IsQuiet s
    → (1 ≤ known s) ⊎ (s.cancelled ≡ true)
    → (r : Result (Unit {0})) × (m ≡ returned r)
unfolding step on_server_ready on_closing on_context on_shut_down count_ready
quiet-returned awaiting_two s e v q due =
    let u = settled_lem s.udp_place (quiet-settled udp s v q) in
    let t = settled_lem s.tcp_place (quiet-settled tcp s v q) in
    let no_error = quiet-errors s q (ap is_select (sym e)) in
    let no_value = count_ready-none awaiting_one s (rw (sym e) at (q server_ready refl)) in
    absurd (omega (arith, u, t, no_error, no_value, v.enough_heard, ap counted e, ap taken e))
quiet-returned awaiting_one s e v q due =
    let u = settled_lem s.udp_place (quiet-settled udp s v q) in
    let t = settled_lem s.tcp_place (quiet-settled tcp s v q) in
    let no_error = quiet-errors s q (ap is_select (sym e)) in
    let no_value = count_ready-none closing s (rw (sym e) at (q server_ready refl)) in
    absurd (omega (arith, u, t, no_error, no_value, v.enough_heard, ap counted e, ap taken e))
quiet-returned closing s e v q due = absurd (let h = rw (sym e) at (q ready_closed refl) in cc)
quiet-returned selecting s e v q due =
    let u = settled_lem s.udp_place (quiet-settled udp s v q) in
    let t = settled_lem s.tcp_place (quiet-settled tcp s v q) in
    let no_error = quiet-errors s q (ap is_select (sym e)) in
    elim due [
      | inl more ↦ absurd (omega (arith, u, t, no_error, more, ap taken e))
      | inr done ↦
          absurd (let h = rw (sym e) at (q context_seen refl) in let h' = rw done at h in cc)
    ]
quiet-returned stopping_udp s e v q due =
    absurd (let h = rw (sym e) at (q (shut_down udp) refl) in cc)
quiet-returned stopping_tcp s e v q due =
    absurd (let h = rw (sym e) at (q (shut_down tcp) refl) in cc)
quiet-returned waiting s e v q due = absurd (
    quiet-waiting s (ap (λ m. is_stage m s) e ∙ v.stage) (quiet-settled udp s v q)
      (quiet-settled tcp s v q) (q (closes udp) refl) (q (closes tcp) refl)
      (ap (λ m. on_waited m s) e ∙ q waited refl))
quiet-returned (returned r) s e v q due = (r, refl)

-- what the stage says of the end
ended_lem :
    (s : Listening) (r : Result (Unit {0})) (n : ℕ)
    → is_stage s.main s ≡ true
    → s.main ≡ returned r
    → n ≡ known s
    → (received r ≤ n) × (is_due r s ≡ true)
ended_lem s r n v e counted =
    (omega (arith, counted, ap taken e), ap (λ m. is_stage m s) (sym e) ∙ v)

ready_lem :
    (s : Listening) (r : Result (Unit {0})) (n : ℕ)
    → s.main ≡ returned r
    → given s ≤ n
    → (s.ready ≡ false) ⊎ (2 ≤ n)
ready_lem s r n e values = elim (Bool-cases s.ready) [
  | inl ready ↦
      let two : needed s.main s.ready ≡ 2 = rw (e, ready) refl in inr (omega (arith, two, values))
  | inr closed ↦ inl closed
]

-- Whatever the events are and their order: where a server has failed or the context is done, and
-- nothing is left that ListenAndServe or a goroutine could do by itself, there were at most sixteen
-- events and ListenAndServe has returned. Its result is an error only where a server failed; it is
-- no error only where the caller's channel was closed, the context is done and both goroutines have
-- ended. The channel was closed only where serversReady got two values. Each goroutine serves or has
-- ended: none waits at a channel.
pub run-Ends :
    (es : List Event) (s : Listening)
    → run es start ≡ some s
    → IsQuiet s
    → (1 ≤ failed es) ⊎ (s.cancelled ≡ true)
    → (length es ≤ 16)
      × ((r : Result (Unit {0})) × ((s.main ≡ returned r)
            × ((received r ≤ failed es)
                × ((is_due r s ≡ true)
                    × (((s.ready ≡ false) ⊎ (2 ≤ notified es))
                        × ((p : Proto) → settled (place p s) ≡ true))))))
run-Ends es s h q due =
    let sound : IsSound start = record {
      stage = refl;
      enough_room = omega arith;
      enough_slots = omega arith;
      enough_heard = omega arith;
    } in
    let (v, (bound, (counted, values))) = run_lem es start s sound h in
    let due' : (1 ≤ known s) ⊎ (s.cancelled ≡ true) = ground (arith, due, counted) in
    let (r, e) = quiet-returned s.main s refl v q due' in
    let (failures_due, result_due) = ended_lem s r (failed es) v.stage e (omega (arith, counted)) in
    (
      omega (arith, bound),
      (
        r,
        (
          e,
          (
            failures_due,
            (
              result_due,
              (ready_lem s r (notified es) e (omega (arith, values)), λ p. quiet-settled p s v q),
            ),
          ),
        ),
      ),
    )
