-- ===== src/Dns/Listen/Goroutines.antt =====
-- What the events of the two goroutines change in ListenAndServe of internal/dns/server.go.
use tripflare.Base.{
  ltb, if◌then◌else◌, length, ◌+◌, ◌≡◌, refl, ◌⊎◌, Bool, true, false, ◌&&◌, ◌||◌, Option, none,
  some, String, [], ◌∷◌, ◌++◌, arith,
}
use tripflare.Dns.Listen.{
  Proto, Place, starting, notifying, serving, sending, ended, Listening, listens, notifies, fails,
  closes, sends, place, put, down, message, is_starting, is_notifying, is_serving, send,
  notify_started, step,
}

guard_lem :
    {A : Type 0} (b : Bool) (o : Option A) (a : A)
    → (if b then o else none) ≡ some a
    → (b ≡ true) × (o ≡ some a)
guard_lem true o a h = (refl, h)
guard_lem false o a h = absurd cc

starting_lem : (p : Place) → is_starting p ≡ true → p ≡ starting
starting_lem p h = ground arith

notifying_lem : (p : Place) → is_notifying p ≡ true → p ≡ notifying
notifying_lem p h = ground arith

serving_lem : (p : Place) (b : Bool) → is_serving p && b ≡ true → p ≡ serving
serving_lem p b h = ground arith

pub listens_lem :
    (p : Proto) (s s' : Listening)
    → step (listens p) s ≡ some s'
    → (place p s ≡ starting) × (s' ≡ put p notifying s)
unfolding step
listens_lem p s s' h =
    let (c, e) = guard_lem (is_starting (place p s)) (some (put p notifying s)) s' h in
    (starting_lem (place p s) c, cc)

notify_started_lem :
    (s s' : Listening)
    → notify_started s ≡ some s'
    → s' ≡ record s { servers_ready = s.servers_ready + 1 }
unfolding notify_started
notify_started_lem s s' h =
    let (_, e) =
      guard_lem (ltb s.servers_ready 2) (some (record s { servers_ready = s.servers_ready + 1 })) s'
        h in
    cc

pub notifies_lem :
    (p : Proto) (s s' : Listening)
    → step (notifies p) s ≡ some s'
    → (place p s ≡ notifying)
      × (s' ≡ record (put p serving s) { servers_ready = (put p serving s).servers_ready + 1 })
unfolding step
notifies_lem p s s' h =
    let (c, e) = guard_lem (is_notifying (place p s)) (notify_started (put p serving s)) s' h in
    (notifying_lem (place p s) c, notify_started_lem (put p serving s) s' e)

pub fails_lem :
    (p : Proto) (s s' : Listening)
    → step (fails p) s ≡ some s'
    → ((place p s ≡ starting) ⊎ (place p s ≡ serving)) × (s' ≡ put p (sending (message p)) s)
unfolding step
fails_lem p s s' h =
    let (c, e) =
      guard_lem (is_starting (place p s) || is_serving (place p s))
        (some (put p (sending (message p)) s)) s' h in
    (open_lem (place p s) c, cc)
  where
    open_lem : (p : Place) → is_starting p || is_serving p ≡ true → (p ≡ starting) ⊎ (p ≡ serving)
    open_lem p h = ground arith

pub closes_lem :
    (p : Proto) (s s' : Listening)
    → step (closes p) s ≡ some s'
    → (place p s ≡ serving) × (s' ≡ put p ended s)
unfolding step
closes_lem p s s' h =
    let (c, e) = guard_lem (is_serving (place p s) && down p s) (some (put p ended s)) s' h in
    (serving_lem (place p s) (down p s) c, cc)

send_lem :
    (q : Place) (s s' : Listening)
    → send q s ≡ some s'
    → (m : String) × ((q ≡ sending m) × (s' ≡ record s { failures = s.failures ++ (m ∷ []) }))
unfolding send
send_lem starting s s' h = absurd cc
send_lem notifying s s' h = absurd cc
send_lem serving s s' h = absurd cc
send_lem (sending m) s s' h =
    let (_, e) =
      guard_lem (ltb (length s.failures) 2) (some (record s { failures = s.failures ++ (m ∷ []) }))
        s' h in
    (m, (refl, cc))
send_lem ended s s' h = absurd cc

pub sends_lem :
    (p : Proto) (s s' : Listening)
    → step (sends p) s ≡ some s'
    → (m : String) × ((place p s ≡ sending m)
        × (s' ≡ record (put p ended s) { failures = (put p ended s).failures ++ (m ∷ []) }))
unfolding step
sends_lem p s s' h = send_lem (place p s) (put p ended s) s' h
