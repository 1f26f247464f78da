-- ===== src/Dns/Listen/Tests.antt =====
-- ListenAndServe of internal/dns/server.go with a port that is in use.
use tripflare.Base.{
  length, Result, err, ◌≤◌, ◌≡◌, refl, ◌⊎◌, inl, true, false, some, List, [], ◌∷◌, arith,
}
use tripflare.Dns.Listen.{
  Proto, udp, tcp, serving, ended, returned, Listening, start, Event, listens, notifies, fails,
  closes, sends, context_ends, error_received, shut_down, place, send, notify_started, receive,
  on_server_ready, on_closing, on_context, on_shut_down, on_waited, step, run,
}
use tripflare.Dns.Listen.Counts.{received}
use tripflare.Dns.Listen.Stages.{is_due}
use tripflare.Dns.Listen.Runs.{failed, notified}
use tripflare.Dns.Listen.Ending.{IsQuiet, settled, run-Ends}

-- the port is in use for UDP; the server for TCP serves on
abbrev in_use : List Event
in_use = fails udp ∷ sends udp ∷ error_received ∷ listens tcp ∷ notifies tcp ∷ []

abbrev last : Listening
last = record {
  udp_place = ended;
  tcp_place = serving;
  servers_ready = 1;
  failures = [];
  ready = false;
  udp_down = false;
  tcp_down = false;
  cancelled = false;
  main = returned (err "dns udp");
}

run-in_use : run in_use start ≡ some last
unfolding run step send receive notify_started
run-in_use = refl

last-IsQuiet : IsQuiet last
unfolding step send on_server_ready on_context on_closing on_shut_down on_waited
last-IsQuiet (listens udp) h = refl
last-IsQuiet (listens tcp) h = refl
last-IsQuiet (notifies udp) h = refl
last-IsQuiet (notifies tcp) h = refl
last-IsQuiet (fails p) h = absurd cc
last-IsQuiet (closes udp) h = refl
last-IsQuiet (closes tcp) h = refl
last-IsQuiet (sends udp) h = refl
last-IsQuiet (sends tcp) h = refl
last-IsQuiet context_ends h = absurd cc
last-IsQuiet (shut_down udp) h = refl
last-IsQuiet (shut_down tcp) h = refl
last-IsQuiet e h = refl

run-Ends_example :
    (length in_use ≤ 16)
    × ((r : Result (Unit {0})) × ((last.main ≡ returned r)
          × ((received r ≤ failed in_use)
              × ((is_due r last ≡ true)
                  × (((last.ready ≡ false) ⊎ (2 ≤ notified in_use))
                      × ((p : Proto) → settled (place p last) ≡ true))))))
run-Ends_example = run-Ends in_use last run-in_use last-IsQuiet (inl (omega arith))
