-- ===== src/Registry/Recording.antt =====
-- What recordEvent of internal/registry/registry.go does to the events of each slug, and to the
-- channels of its subscribers.
use tripflare.Registry.Entry.{push_event}
use tripflare.Base.{
  ltb, if◌then◌else◌, Option-cases, length, drop, GoString, str_eq, str_eq_refl, lookup,
  lookup-insert, ret, Every-lookup, ℕ, ◌+◌, ◌-◌, ◌≡◌, refl, sym, ap, ◌∙◌, ◌⊎◌, inl, inr, true,
  false, some, [], ◌∷◌, ◌++◌,
}
use tripflare.Json.{RawMessage}
use tripflare.Registry.Types.{Event, SlugEntry, Svc}
use tripflare.Registry.Ring.{push_event_lem}
use tripflare.Registry.Subscribers.{count, offer, send_all-IsSent}
use tripflare.Registry.Methods.{slug_exists, get_events, record_event}
use tripflare.Registry.Invariant.{IsEntry, IsValid, subscribers-Open}

module _ (slug event_type source_ip : GoString) (payload : RawMessage) (now : ℕ) (s : Svc) where
  abbrev pub new_event : Event
  new_event = record {
    type = event_type;
    source_ip = source_ip;
    timestamp = now;
    payload = payload;
  }

  -- the event after those that were there, without the oldest where the limit is reached
  pub record IsRecorded (after : Svc) : Type 0 where
    pub appended :
        get_events slug after
        ≡ drop (length (get_events slug s) + 1 - s.max_events_per_slug) (get_events slug s)
          ++ new_event ∷ []
    pub others :
        (id : GoString) → str_eq slug id ≡ false → lookup id after.slugs ≡ lookup id s.slugs
    pub delivered :
        (e : SlugEntry) (c : ℕ)
        → lookup slug s.slugs ≡ some e
        → (after.chans c).buffer ≡ (
            if ltb 0 (count c e.subscribers)
            then offer new_event (s.chans c).buffer
            else (s.chans c).buffer)

  -- In a state that keeps the invariant, recordEvent for a slug that exists returns true: the event
  -- is the slug's last, the oldest one goes where the limit is reached, no other slug changes, and
  -- exactly the subscribers of the slug are offered the event, which a full buffer drops. For a
  -- slug that does not exist it returns false and changes nothing.
  pub record_event_lem :
      IsValid s
      → ((slug_exists slug s ≡ true)
          × ((record_event slug event_type source_ip payload now s).0 ≡ ret true)
          × IsRecorded (record_event slug event_type source_ip payload now s).1)
        ⊎ ((slug_exists slug s ≡ false)
            × (record_event slug event_type source_ip payload now s ≡ (ret false, s)))
  unfolding record_event slug_exists get_events
  record_event_lem v = elim (Option-cases (lookup slug s.slugs)) [
    | inl absent ↦ inr (rw (absent, slug_exists), rw (absent, record_event))
    | inr (e, present) ↦
        let max_events = s.max_events_per_slug in
        let old = Every-lookup (IsEntry max_events) slug e s.slugs present v.entries in
        let sent =
          send_all-IsSent e.subscribers new_event s.chans (subscribers-Open s slug e v present) in
        let step = push_event_lem max_events new_event e v.positive old.1 in
        let returned = ap (λ r. r.0) step in
        let put =
          λ (id : GoString). lookup-insert slug id (push_event max_events new_event e).1 s.slugs in
        let state = ap (λ r. r.1.events) step in
        inl (
          rw (present, slug_exists),
          rw (present, record_event, returned, sent.returns),
          rw (present, record_event, returned, sent.returns)
              (record {
                appended = rw (put slug, str_eq_refl slug, get_events, present, get_events) state;
                others = λ id apart. put id ∙ rw apart refl;
                delivered = λ e' c there.
                    (let same : e ≡ e' = let q : some e ≡ some e' = sym present ∙ there in cc in
                      rw (← same) (sent.offers c));
              }),
        )
  ]
