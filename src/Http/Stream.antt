-- ===== src/Http/Stream.antt =====
-- The cache of enrichEvent and the frames of streamSSE (internal/httpserver).
use tripflare.Base.{
  Option-cases, GoString, Dict, lookup, Every, Every-lookup, Every-insert, ◌≡◌, refl, ap, inl, inr,
  List, [], ◌∷◌, ◌++◌, map,
}
use tripflare.Registry.Types.{Event}
use tripflare.Http.Types.{Info, EnrichedEvent}
use tripflare.Http.Events.{
  Signal, received, channel_closed, tick, done, Frame, data_frame, close_frame, heartbeat, frames,
  enrich_event, enrich_all, stream_loop, stream_sse,
}

module _ (geo : GoString → Info) where
  -- the event with the answer of a Lookup of its own
  abbrev pub looked_up : Event → EnrichedEvent
  looked_up ev = record { event = ev; info = geo ev.source_ip }

  -- the cache holds answers of Lookup only
  abbrev pub IsCache : Dict Info → Type 0
  IsCache cache = Every (λ ip info. info ≡ geo ip) cache

  enrich_event_lem :
      (ev : Event) (cache : Dict Info)
      → IsCache cache
      → ((enrich_event geo ev cache).0 ≡ looked_up ev) × IsCache (enrich_event geo ev cache).1
  unfolding enrich_event
  enrich_event_lem ev cache h = elim (Option-cases (lookup ev.source_ip cache)) [
    | inl absent ↦
        rw (absent, enrich_event)
          (refl, Every-insert (λ ip i. i ≡ geo ip) ev.source_ip _ cache refl h)
    | inr (info, present) ↦
        let right = Every-lookup (λ ip i. i ≡ geo ip) ev.source_ip info cache present h in
        rw (present, enrich_event) (ap (λ i. record { event = ev; info = i }) right, h)
  ]

  enrich_all_lem :
      (evs : List Event) (cache : Dict Info)
      → IsCache cache
      → ((enrich_all geo evs cache).0 ≡ map looked_up evs) × IsCache (enrich_all geo evs cache).1
  unfolding enrich_all
  enrich_all_lem [] cache h = (refl, h)
  enrich_all_lem (ev ∷ evs) cache h =
      let (same, h') = enrich_event_lem ev cache h in
      let (ih, h'') = enrich_all_lem evs (enrich_event geo ev cache).1 h' in (rw (same, ih), h'')

  -- What a stream writes for its signals, with no cache: a frame for each event until the channel
  -- is closed, which is said at the end, or the request is done.
  unfoldable pub shown : List Signal → List Frame
  shown [] = []
  shown (received ev ∷ signals) = data_frame (looked_up ev) ∷ shown signals
  shown (channel_closed ∷ signals) = close_frame ∷ []
  shown (tick ∷ signals) = heartbeat ∷ shown signals
  shown (done ∷ signals) = []

  stream_loop_lem :
      (signals : List Signal) (cache : Dict Info)
      → IsCache cache
      → stream_loop geo signals cache ≡ shown signals
  unfolding stream_loop shown
  stream_loop_lem [] cache h = refl
  stream_loop_lem (received ev ∷ signals) cache h =
      let (same, h') = enrich_event_lem ev cache h in
      rw (same, stream_loop_lem signals (enrich_event geo ev cache).1 h')
  stream_loop_lem (channel_closed ∷ signals) cache h = refl
  stream_loop_lem (tick ∷ signals) cache h = rw (stream_loop_lem signals cache h)
  stream_loop_lem (done ∷ signals) cache h = refl

  -- A stream writes the events of the history and then those that it receives, each once and in
  -- order, with the answer of Lookup for the event's own source, heartbeats between them, and it
  -- ends where the channel is closed or the request is done: the cache changes nothing of that.
  pub stream_sse_lem :
      (history : List Event) (signals : List Signal)
      → stream_sse geo history signals ≡ frames (map looked_up history) ++ shown signals
  unfolding stream_sse
  stream_sse_lem history signals =
      let (same, h) = enrich_all_lem history [] tt in
      rw (same, stream_loop_lem signals (enrich_all geo history []).1 h)
