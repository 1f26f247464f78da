-- ===== src/Http/Tests.antt =====
-- The HTTP server (internal/httpserver) on concrete requests.
use tripflare.Http.Credentials.{Decided, extract_username_lem}
use tripflare.Http.Stream.{looked_up, shown, stream_sse_lem}
use tripflare.Http.Others.{OthersKept}
use tripflare.Registry.SlugId.{set_bytes, digit36, digits36, text36, pad, generate_slug_id}
use tripflare.Http.Events.{received, channel_closed, tick, frames, stream_sse}
use tripflare.Http.Routes.{
  host_slug, page, find_user, extract_username, route_slug_resource, handle_bare_domain,
  handle_tripflare, redirect_handler, main_handler,
}
use tripflare.Registry.Recording.{IsRecorded, record_event_lem}
use mathlib.Core.Bool.{false≢true}
use tripflare.Http.Access.{
  denial, NotOwned, resource_of_other, for_users, handle_bare_domain_of_stranger,
}
use tripflare.Http.Keeping.{handle_bare_domain-OthersKept}
use tripflare.Http.Tracking.{IsServed, Hits, handle_tripflare_lem}
use tripflare.Http.Serving.{handlers-IsServed}
use tripflare.Base.{
  if◌then◌else◌, GoString, bytes, str_eq, str_eq_iff, has_prefix, has_suffix, trim_prefix,
  trim_suffix, contains_byte, cut, lookup, insert, ret, ℕ, ◌≡◌, refl, ap, ◌∙◌, ◌⊎◌, true, false,
  Option, none, some, List, [], ◌∷◌, ◌++◌, map, arith,
}
use tripflare.Registry.Types.{Event, SlugEntry, Svc}
use tripflare.Registry.Methods.{
  new, draw_id, add_drawn, create_slug, slug_exists, http_type, record_event,
}
use tripflare.Registry.Invariant.{IsValid}
use tripflare.Registry.Invariant.Methods.{new-IsValid, create_slug-IsValid}
use tripflare.Http.Types.{Request, Server, World, page_not_found, unauthorized, status}

-- a server without a store, whose limiter allows all, and whose passwords stand in the open
abbrev server : Server (Unit {0}) (Unit {0})
server = record {
  domain = bytes "a.io";
  store = none;
  allow = λ key now l. (true, l);
  auth = record { username = bytes "bob"; password_hash = bytes "pw" } ∷ [];
  geo = λ ip. record { country_code = bytes "DE"; flag = []; asn = 1; org = ip };
  password_matches = str_eq;
}

abbrev slug : GoString
slug = bytes "01zl7h8l"

abbrev draws : List (Option (List ℕ))
draws = some (1 ∷ 2 ∷ 3 ∷ 4 ∷ 5 ∷ []) ∷ []

-- alice's slug
abbrev registry : Svc
registry = (create_slug draws (bytes "alice") 5 (new 3 60)).1

registry-IsValid : IsValid registry
registry-IsValid =
    create_slug-IsValid draws (bytes "alice") 5 (new 3 60) (new-IsValid 3 60 (omega arith))

abbrev world : World (Unit {0}) (Unit {0})
world = record { registry = registry; db = tt; limits = tt }

abbrev request : GoString → GoString → GoString → Option (GoString × GoString) → Request
request host method path auth = record {
  host = host;
  method = method;
  path = path;
  raw_query = [];
  user_agent = [];
  header = λ name. [];
  remote_addr = bytes "9.9.9.9:1234";
  tls = true;
  basic_auth = auth;
}

-- bob deletes alice's slug, which he may not
abbrev delete_request : Request
delete_request =
    request (bytes "a.io") (bytes "DELETE") (bytes "/api/slugs/01zl7h8l")
      (some (bytes "bob", bytes "pw"))

bob : extract_username server delete_request ≡ bytes "bob"
unfolding extract_username find_user str_eq
bob = refl

abbrev owner_of : Option SlugEntry → GoString
owner_of none = []
owner_of (some t) = t.slug.owner

not_bobs : NotOwned (bytes "bob") slug registry
unfolding create_slug draw_id add_drawn generate_slug_id pad text36 digits36 digit36 set_bytes
    insert lookup str_eq new
not_bobs t h same =
    let k : bytes "alice" ≡ bytes "bob" = ap owner_of h ∙ same in
    absurd (false≢true ((str_eq_iff (bytes "alice") (bytes "bob")).1 k))

resource_of_other_example :
    (route_slug_resource server delete_request (bytes "bob") slug [] world
      ≡ (ret (denial []), world))
    × (status (denial []) ≡ 404)
resource_of_other_example =
    resource_of_other server delete_request (bytes "bob") slug [] world not_bobs

abbrev stranger : Request
stranger = request (bytes "a.io") (bytes "GET") (bytes "/api/slugs") none

handle_bare_domain_of_stranger_example :
    handle_bare_domain server draws 6 stranger world
    ≡ (ret (if for_users server stranger then unauthorized else page_not_found), world)
unfolding extract_username
handle_bare_domain_of_stranger_example =
    handle_bare_domain_of_stranger server draws 6 stranger world refl

handle_bare_domain-OthersKept_example :
    OthersKept
      (extract_username server delete_request)
      registry
      (handle_bare_domain server draws 6 delete_request world).1.registry
handle_bare_domain-OthersKept_example =
    handle_bare_domain-OthersKept server draws 6 delete_request world

abbrev visit : Request
visit = request (bytes "01zl7h8l.a.io:443") (bytes "GET") (bytes "/x.png") none

handle_tripflare_lem_example :
    ((handle_tripflare server 6 visit slug world).0 ≡ ret (page visit))
    × IsValid (handle_tripflare server 6 visit slug world).1.registry
    × Hits server 6 visit slug world (handle_tripflare server 6 visit slug world).1.registry
handle_tripflare_lem_example = handle_tripflare_lem server 6 visit slug world registry-IsValid

handlers-IsServed_example :
    IsServed (main_handler server draws 6 visit world)
    × IsServed (redirect_handler server 6 visit world)
handlers-IsServed_example = handlers-IsServed server draws 6 visit world registry-IsValid

visited_slug : host_slug (bytes "a.io") (bytes "01zl7h8l.a.io:443") ≡ slug
unfolding host_slug cut trim_suffix trim_prefix has_suffix has_prefix contains_byte str_eq
visited_slug = refl

abbrev event : ℕ → Event
event n = record { type = http_type; source_ip = bytes "9.9.9.9"; timestamp = n; payload = [] }

stream_sse_lem_example :
    stream_sse server.geo (event 1 ∷ []) (received (event 2) ∷ tick ∷ channel_closed ∷ [])
    ≡ frames (map (looked_up server.geo) (event 1 ∷ []))
      ++ shown server.geo (received (event 2) ∷ tick ∷ channel_closed ∷ [])
stream_sse_lem_example =
    stream_sse_lem server.geo (event 1 ∷ []) (received (event 2) ∷ tick ∷ channel_closed ∷ [])

record_event_lem_example :
    ((slug_exists slug registry ≡ true)
      × ((record_event slug http_type [] [] 6 registry).0 ≡ ret true)
      × IsRecorded slug http_type [] [] 6 registry (record_event slug http_type [] [] 6 registry).1)
    ⊎ ((slug_exists slug registry ≡ false)
        × (record_event slug http_type [] [] 6 registry ≡ (ret false, registry)))
record_event_lem_example = record_event_lem slug http_type [] [] 6 registry registry-IsValid

extract_username_lem_example :
    ((delete_request.basic_auth ≡ none) × (extract_username server delete_request ≡ []))
    ⊎ ((username : GoString) × (password : GoString) × (delete_request.basic_auth
          ≡ some (username, password))
        × Decided server (extract_username server delete_request) username password server.auth)
extract_username_lem_example = extract_username_lem server delete_request
