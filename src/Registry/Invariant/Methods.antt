-- ===== src/Registry/Invariant/Methods.antt =====
-- The invariant of the registry and its methods (internal/registry/registry.go).
use tripflare.Base.{
  Option-cases, length, GoString, lookup, insert, of_found, total-insert, total-remove,
  Every-lookup, Every-insert, Every-remove, ℕ, ◌≤◌, ◌<◌, ◌≡◌, refl, ap, ◌∙◌, inl, inr, true, false,
  Option, some, List, [], ◌∷◌, ◌++◌, arith,
}
use tripflare.Json.{RawMessage}
use tripflare.Registry.Channels.{set_chan, close_chan, take_event, send_all, remove_subscriber}
use tripflare.Registry.Ring.{push_event_lem, length-pushed}
use tripflare.Registry.Entry.{push_event, clear_entry}
use tripflare.Registry.Types.{Event, Chans, SlugEntry, Svc}
use tripflare.Registry.Methods.{
  new, found, rand_error, exhausted, draw_id, new_slug, new_entry, add_drawn, create_slug,
  delete_slug, clear_events, record_event, subscribe, unsubscribe,
}
use tripflare.Registry.Subscribers.{
  count, flag, count-append, close_all-IsClosed, send_all-IsSent, remove_subscriber-some,
}
use tripflare.Registry.Invariant.{subscribed, IsEntry, IsValid, IsSafe, subscribers-Open}

pub new-IsValid : (max_events ttl : ℕ) → 0 < max_events → IsValid (new max_events ttl)
unfolding new
new-IsValid m ttl h = record {
  positive = h;
  entries = tt;
  unclosed = λ c. omega arith;
  fresh = λ c _. refl;
}

pub create_slug-IsValid :
    (draws : List (Option (List ℕ))) (owner : GoString) (now : ℕ) (s : Svc)
    → IsValid s
    → IsValid (create_slug draws owner now s).1
unfolding create_slug
create_slug-IsValid draws owner now s v =
    elim (draw_id draws s.slugs) as (λ d. IsValid (add_drawn d owner now s).1) [
      | found id ↦
          let slug = new_slug id owner now s.slug_ttl in
          let e = new_entry s.next slug in
          record {
            positive = v.positive;
            entries =
                Every-insert (IsEntry s.max_events_per_slug) id e s.slugs (refl, omega arith)
                  v.entries;
            unclosed = λ c. omega (arith, total-insert (subscribed c) id e s.slugs, v.unclosed c);
            fresh = λ c h. omega (arith, total-insert (subscribed c) id e s.slugs, v.fresh c);
          }
      | rand_error ↦ v
      | exhausted ↦ v
    ]

pub clear_events-IsValid : (slug : GoString) (s : Svc) → IsValid s → IsValid (clear_events slug s).1
unfolding clear_events
clear_events-IsValid slug s v = elim (Option-cases (lookup slug s.slugs)) [
  | inl absent ↦ rw (absent, clear_events) v
  | inr (e, present) ↦
      let e' = clear_entry e in
      let (keyed, within) =
        Every-lookup (IsEntry s.max_events_per_slug) slug e s.slugs present v.entries in
      rw (present, clear_events)
        (record {
          positive = v.positive;
          entries =
              Every-insert (IsEntry s.max_events_per_slug) slug e' s.slugs (keyed, omega arith)
                v.entries;
          unclosed = λ c. ground (arith, total-insert (subscribed c) slug e' s.slugs, v.unclosed c);
          fresh = λ c h. ground (arith, total-insert (subscribed c) slug e' s.slugs, v.fresh c);
        })
]

pub delete_slug-IsSafe : (slug : GoString) (s : Svc) → IsValid s → IsSafe (delete_slug slug s)
unfolding delete_slug
delete_slug-IsSafe slug s v = elim (Option-cases (lookup slug s.slugs)) [
  | inl absent ↦ rw (absent, delete_slug) (record { returns = (tt, refl); valid = v })
  | inr (e, present) ↦
      let done = close_all-IsClosed e.subscribers s.chans (subscribers-Open s slug e v present) in
      let gone = λ (c : ℕ). total-remove (subscribed c) slug s.slugs in
      let was = λ (c : ℕ). ap (of_found (subscribed c)) present in
      rw (present, delete_slug, done.returns)
        (record {
          returns = (tt, refl);
          valid = record {
            positive = v.positive;
            entries = Every-remove (IsEntry s.max_events_per_slug) slug s.slugs v.entries;
            unclosed = λ c. omega (arith, gone c, was c, done.closes c, v.unclosed c);
            fresh = λ c h. omega (arith, gone c, v.fresh c h);
          };
        })
]

-- An entry of the map is replaced by one of the same slug and the same subscribers.
replaced-IsValid :
    (slug : GoString) (e e' : SlugEntry) (s : Svc) (chans' : Chans)
    → IsValid s
    → lookup slug s.slugs ≡ some e
    → e'.slug ≡ e.slug
    → e'.subscribers ≡ e.subscribers
    → length e'.events ≤ s.max_events_per_slug
    → ((c : ℕ) → (chans' c).closed ≡ (s.chans c).closed)
    → IsValid (record s { slugs = insert slug e' s.slugs; chans = chans' })
replaced-IsValid slug e e' s chans' v present same subs within closed =
    let old = Every-lookup (IsEntry s.max_events_per_slug) slug e s.slugs present v.entries in
    let put = λ (c : ℕ). total-insert (subscribed c) slug e' s.slugs in
    let was = λ (c : ℕ). ap (of_found (subscribed c)) present in
    let are = λ (c : ℕ). ap (count c) subs in
    record {
      positive = v.positive;
      entries =
          Every-insert (IsEntry s.max_events_per_slug) slug e' s.slugs
            (ap (λ t. t.id) same ∙ old.0, within) v.entries;
      unclosed = λ c. omega (arith, put c, was c, are c, v.unclosed c, ap flag (closed c));
      fresh = λ c h. omega (arith, put c, was c, are c, v.fresh c h);
    }

pub record_event-IsSafe :
    (slug event_type source_ip : GoString) (payload : RawMessage) (now : ℕ) (s : Svc)
    → IsValid s
    → IsSafe (record_event slug event_type source_ip payload now s)
unfolding record_event
record_event-IsSafe slug event_type source_ip payload now s v =
    elim (Option-cases (lookup slug s.slugs)) [
      | inl absent ↦ rw (absent, record_event) (record { returns = (false, refl); valid = v })
      | inr (e, present) ↦
          let ev : Event = record {
            type = event_type;
            source_ip = source_ip;
            timestamp = now;
            payload = payload;
          } in
          let max_events = s.max_events_per_slug in
          let old = Every-lookup (IsEntry max_events) slug e s.slugs present v.entries in
          let sent =
            send_all-IsSent e.subscribers ev s.chans (subscribers-Open s slug e v present) in
          let len = length-pushed max_events ev e old.1 v.positive in
          let step = push_event_lem max_events ev e v.positive old.1 in
          let e' = (push_event max_events ev e).1 in
          let grown = ap (λ r. length r.1.events) step in
          let chans' = (send_all e.subscribers ev s.chans).1 in
          rw (present, record_event, ap (λ r. r.0) step, sent.returns)
            (record {
              returns = (true, refl);
              valid =
                  replaced-IsValid slug e e' s chans' v present (ap (λ r. r.1.slug) step)
                    (ap (λ r. r.1.subscribers) step) (omega arith) sent.closes;
            })
    ]

pub subscribe-IsValid : (slug : GoString) (s : Svc) → IsValid s → IsValid (subscribe slug s).1
unfolding subscribe set_chan
subscribe-IsValid slug s v = elim (Option-cases (lookup slug s.slugs)) [
  | inl absent ↦
      rw (absent, subscribe)
        (record {
          positive = v.positive;
          entries = v.entries;
          unclosed = λ c. ground (arith, v.unclosed c, v.fresh c);
          fresh = λ c h. ground (arith, v.fresh c);
        })
  | inr (e, present) ↦
      let e' : SlugEntry = record e { subscribers = e.subscribers ++ s.next ∷ [] } in
      let old = Every-lookup (IsEntry s.max_events_per_slug) slug e s.slugs present v.entries in
      let put = λ (c : ℕ). total-insert (subscribed c) slug e' s.slugs in
      let was = λ (c : ℕ). ap (of_found (subscribed c)) present in
      let more = λ (c : ℕ). count-append c e.subscribers (s.next ∷ []) in
      rw (present, subscribe)
        (record {
          positive = v.positive;
          entries = Every-insert (IsEntry s.max_events_per_slug) slug e' s.slugs old v.entries;
          unclosed = λ c. ground (arith, put c, was c, more c, v.unclosed c, v.fresh c);
          fresh = λ c h. ground (arith, put c, was c, more c, v.fresh c);
        })
]

pub take_event-IsValid :
    (sub : ℕ) (s : Svc) → IsValid s → IsValid (record s { chans = take_event sub s.chans })
unfolding take_event set_chan
take_event-IsValid sub s v = record {
  positive = v.positive;
  entries = v.entries;
  unclosed = λ c. ground (arith, v.unclosed c);
  fresh = v.fresh;
}

pub unsubscribe-IsSafe :
    (slug : GoString) (sub : ℕ) (s : Svc) → IsValid s → IsSafe (unsubscribe slug sub s)
unfolding unsubscribe close_chan set_chan
unsubscribe-IsSafe slug sub s v = elim (Option-cases (lookup slug s.slugs)) [
  | inl absent ↦ rw (absent, unsubscribe) (record { returns = (tt, refl); valid = v })
  | inr (e, present) ↦ elim (Option-cases (remove_subscriber sub e.subscribers)) [
    | inl gone ↦ rw (present, unsubscribe, gone) (record { returns = (tt, refl); valid = v })
    | inr (rest, removed) ↦
        let e' : SlugEntry = record e { subscribers = rest } in
        let old = Every-lookup (IsEntry s.max_events_per_slug) slug e s.slugs present v.entries in
        let put = λ (c : ℕ). total-insert (subscribed c) slug e' s.slugs in
        let was = λ (c : ℕ). ap (of_found (subscribed c)) present in
        let less = (remove_subscriber-some sub e.subscribers rest removed).counts in
        let free : (s.chans sub).closed ≡ false =
          ground (arith, less sub, subscribers-Open s slug e v present sub) in
        rw (present, unsubscribe, removed, free)
          (record {
            returns = (tt, refl);
            valid = record {
              positive = v.positive;
              entries = Every-insert (IsEntry s.max_events_per_slug) slug e' s.slugs old v.entries;
              unclosed = λ c. ground (arith, put c, was c, less c, v.unclosed c);
              fresh = λ c h. ground (arith, put c, was c, less c, v.fresh c);
            };
          })
  ]
]
