-- ===== src/Http/Events.antt =====
-- enrichEvent and the loop of streamSSE (internal/httpserver).
use tripflare.Base.{GoString, Dict, lookup, insert, none, some, List, [], ◌∷◌, ◌++◌}
use tripflare.Registry.Types.{Event}
use tripflare.Http.Types.{Info, EnrichedEvent}

-- what the select of streamSSE receives
pub data Signal : Type 0 where
  received : Event → Signal
  channel_closed tick done : Signal

-- what streamSSE writes
pub data Frame : Type 0 where
  data_frame : EnrichedEvent → Frame
  close_frame heartbeat : Frame

abbrev pub frames : List EnrichedEvent → List Frame
frames [] = []
frames (e ∷ es) = data_frame e ∷ frames es

-- `geo` is geoip.Service's Lookup. The cache is handed on from event to event.
module _ (geo : GoString → Info) where
  unfoldable pub enrich_event : Event → Dict Info → EnrichedEvent × Dict Info
  enrich_event ev cache = elim (lookup ev.source_ip cache) [
    | some info ↦ (record { event = ev; info = info }, cache)
    | none ↦ (
      record { event = ev; info = geo ev.source_ip },
      insert ev.source_ip (geo ev.source_ip) cache,
    )
  ]

  -- the loop over the events, in handleGetSlug and before the loop of streamSSE
  unfoldable pub enrich_all : List Event → Dict Info → List EnrichedEvent × Dict Info
  enrich_all [] cache = ([], cache)
  enrich_all (ev ∷ evs) cache =
      let (e, cache') = enrich_event ev cache in
      let (es, cache'') = enrich_all evs cache' in (e ∷ es, cache'')

  unfoldable pub stream_loop : List Signal → Dict Info → List Frame
  stream_loop [] cache = []
  stream_loop (received ev ∷ signals) cache =
      let (e, cache') = enrich_event ev cache in data_frame e ∷ stream_loop signals cache'
  stream_loop (channel_closed ∷ signals) cache = close_frame ∷ []
  stream_loop (tick ∷ signals) cache = heartbeat ∷ stream_loop signals cache
  stream_loop (done ∷ signals) cache = []

  -- streamSSE, after Subscribe: the history and the loop
  unfoldable pub stream_sse : List Event → List Signal → List Frame
  stream_sse history signals =
      let (es, cache) = enrich_all history [] in frames es ++ stream_loop signals cache
