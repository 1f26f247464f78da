-- ===== src/Http/Types.antt =====
-- The requests, the responses and the services of internal/httpserver.
use tripflare.Base.{GoString, bytes, ℕ, Bool, Option, List}
use tripflare.Registry.Types.{Event, Svc}
use tripflare.Config.{AuthEntry}
use tripflare.Store.Rows.{Service}
use tripflare.Pixel.{ContentType}

-- http.Request, so far as the handlers read it; `header` is r.Header.Get.
pub record Request : Type 0 where
  pub host : GoString
  pub method : GoString
  pub path : GoString
  pub raw_query : GoString
  pub user_agent : GoString
  pub header : GoString → GoString
  pub remote_addr : GoString
  pub tls : Bool
  pub basic_auth : Option (GoString × GoString)

-- geoip.Info
pub record Info : Type 0 where
  pub country_code : GoString
  pub flag : GoString
  pub asn : ℕ
  pub org : GoString

-- svc, without its addresses, its certificates and the registry, over the states S of the store
-- and L of the limiter. `store` is none where the source has nil; `allow` is ratelimit.Limiter,
-- `geo` the Lookup of geoip.Service and `password_matches` bcrypt's comparison of a hash with a
-- password.
pub record Server (S L : Type 0) : Type 0 where
  pub domain : GoString
  pub store : Option (Service S)
  pub allow : GoString → ℕ → L → Bool × L
  pub auth : List AuthEntry
  pub geo : GoString → Info
  pub password_matches : GoString → GoString → Bool

-- The states of the services that the handlers share.
pub record World (S L : Type 0) : Type 0 where
  pub registry : Svc
  pub db : S
  pub limits : L

-- enrichedEvent
pub record EnrichedEvent : Type 0 where
  pub event : Event
  pub info : Info

-- slugResponse; its two instants are printed to the second.
pub record SlugResponse : Type 0 where
  pub slug : GoString
  pub domain : GoString
  pub created_at : ℕ
  pub expires_at : ℕ

-- slugListItem
pub record SlugListItem : Type 0 where
  pub slug : SlugResponse
  pub event_count : ℕ

pub data UiFile : Type 0 where
  index_html style_css : UiFile

-- What a handler writes: its status and body, by the call that writes it. `stream` is the start
-- of streamSSE, with the history, the channel that it reads and its subscriber.
pub data Response : Type 0 where
  page_not_found unauthorized method_not_allowed service_unavailable not_found : Response
  created : SlugResponse → Response
  slugs : List SlugListItem → Response
  detail : SlugResponse → List EnrichedEvent → Response
  no_content cleared : Response
  ui : UiFile → Response
  stream : GoString → List Event → ℕ → Response
  pixel : ContentType → List ℕ → Response
  og_page : GoString → Response

abbrev pub status : Response → ℕ
status page_not_found = 404
status unauthorized = 401
status method_not_allowed = 405
status service_unavailable = 503
status not_found = 404
status (created r) = 201
status (slugs rs) = 200
status (detail r evs) = 200
status no_content = 204
status cleared = 200
status (ui f) = 200
status (stream slug history sub) = 200
status (pixel t bytes) = 200
status (og_page host) = 200
