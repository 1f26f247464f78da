-- ===== src/Http/Listen/Tests.antt =====
-- ListenAndServe of internal/httpserver/server.go with ports that are in use.
use tripflare.Base.{
  length, Result, err, ◌≤◌, ◌≡◌, refl, inl, true, false, some, List, [], ◌∷◌, arith,
}
use tripflare.Http.Listen.{
  ended, returned, Listening, start, Event, http_fails, https_listen_fails, https_fails,
  https_sends, http_closes, context_ends, error_received, http_shut_down, https_shut_down, waited,
  send, receive, step, run,
}
use tripflare.Http.Listen.Events.{received, is_due}
use tripflare.Http.Listen.Ending.{failed, IsQuiet, run-Returns}

-- the port for HTTPS is in use
abbrev in_use : List Event
in_use =
    https_listen_fails ∷ https_sends ∷ error_received ∷ http_shut_down ∷ https_shut_down
    ∷ http_closes ∷ waited ∷ []

abbrev last : Listening
last = record {
  http = ended;
  https = ended;
  failures = [];
  http_down = true;
  https_down = true;
  cancelled = false;
  main = returned (err "https listen");
}

run-in_use : run in_use start ≡ some last
unfolding run step send receive
run-in_use = refl

last-IsQuiet : IsQuiet last
unfolding step send
last-IsQuiet http_fails h = absurd cc
last-IsQuiet https_listen_fails h = absurd cc
last-IsQuiet https_fails h = absurd cc
last-IsQuiet context_ends h = absurd cc
last-IsQuiet e h = refl

run-Returns_example :
    (length in_use ≤ 10)
    × ((last.http ≡ ended)
        × ((last.https ≡ ended)
            × ((r : Result (Unit {0})) × ((last.main ≡ returned r)
                  × ((received r ≤ failed in_use) × (is_due r last.cancelled ≡ true))))))
run-Returns_example = run-Returns in_use last run-in_use last-IsQuiet (inl (omega arith))
