-- ===== src/Http/Routes.antt =====
-- The routing of internal/httpserver/server.go. A handler reads the random bytes of CreateSlug and
-- the time from its arguments.
use tripflare.Config.{AuthEntry}
use tripflare.Base.{
  if◌then◌else◌, GoString, bytes, str_eq, has_prefix, has_suffix, trim_prefix, trim_suffix,
  contains_byte, cut, Outcome, ret, then_do, ℕ, ◌&&◌, ◌||◌, not, Option, none, some, List, [], ◌∷◌,
  ◌++◌,
}
use tripflare.Net.{split_host}
use tripflare.Registry.Methods.{slug_exists, Hit, record_http}
use tripflare.Pixel.{is_pixel_path, content_type, pixel_bytes}
use tripflare.Http.Types.{
  Request, Server, World, Response, page_not_found, unauthorized, method_not_allowed, pixel,
  og_page,
}
use tripflare.Http.Handlers.{
  path_ui, Handler, respond, handle_create_slug, handle_list_slugs, handle_get_slug,
  handle_delete_slug, handle_clear_events, handle_events, handle_ui,
}

abbrev pub path_api_slugs : GoString
path_api_slugs = bytes "/api/slugs"

-- extractSlug of the server for the host of a request
unfoldable pub host_slug : GoString → GoString → GoString
host_slug domain host =
    let h = (cut b':' host).0 in
    let slug = trim_suffix h (b'.' ∷ domain) in
    if has_suffix h (b'.' ∷ domain) then (if contains_byte b'.' slug then [] else slug) else []

unfoldable pub client_ip : Request → GoString
client_ip r = let host = split_host r.remote_addr in if str_eq host [] then r.remote_addr else host

abbrev pub hit : Request → Hit
hit r = record {
  scheme = if r.tls then bytes "https" else bytes "http";
  method = r.method;
  path = r.path;
  query = r.raw_query;
  user_agent = r.user_agent;
  headers =
      (bytes "Accept", r.header (bytes "Accept"))
      ∷ (bytes "Accept-Language", r.header (bytes "Accept-Language"))
      ∷ (bytes "Referer", r.header (bytes "Referer"))
      ∷ [];
}

-- what a tracker answers
unfoldable pub page : Request → Response
page r =
    if is_pixel_path r.path
    then pixel (content_type r.path) (pixel_bytes r.path)
    else og_page r.host

module _ {S L : Type 0} (server : Server S L) where
  -- the loop of extractUsername
  unfoldable pub find_user : GoString → GoString → List AuthEntry → GoString
  find_user username password [] = []
  find_user username password (entry ∷ entries) =
      let rest = find_user username password entries in
      if str_eq entry.username username && server.password_matches entry.password_hash password
      then username
      else rest

  unfoldable pub extract_username : Request → GoString
  unfolding find_user
  extract_username r = elim r.basic_auth [
    | none ↦ []
    | some (username, password) ↦ find_user username password server.auth
  ]

  unfoldable pub require_auth : Request → (GoString → Handler server) → Handler server
  unfolding extract_username
  require_auth r next =
      let username = extract_username r in
      if str_eq username [] then respond server unauthorized else next username

  unfoldable pub route_slugs_collection :
      List (Option (List ℕ)) → ℕ → Request → GoString → Handler server
  route_slugs_collection draws now r username =
      if str_eq r.method (bytes "GET")
      then handle_list_slugs server username
      else if str_eq r.method (bytes "POST")
      then handle_create_slug server draws now username
      else respond server method_not_allowed

  unfoldable pub route_slug_resource : Request → GoString → GoString → GoString → Handler server
  route_slug_resource r username slug suffix =
      let delete = str_eq r.method (bytes "DELETE") in
      if str_eq suffix []
      then (if delete
          then handle_delete_slug server username slug
          else handle_get_slug server username slug)
      else if str_eq suffix (bytes "events")
      then (if delete
          then handle_clear_events server username slug
          else handle_events server username slug)
      else respond server page_not_found

  unfoldable pub route_api : List (Option (List ℕ)) → ℕ → Request → GoString → Handler server
  unfolding route_slugs_collection route_slug_resource
  route_api draws now r username =
      let prefix = path_api_slugs ++ bytes "/" in
      let (slug, suffix, _) = cut b'/' (trim_prefix r.path prefix) in
      if str_eq r.path path_api_slugs
      then route_slugs_collection draws now r username
      else if not (has_prefix r.path prefix)
      then respond server page_not_found
      else if str_eq slug []
      then respond server page_not_found
      else route_slug_resource r username slug suffix

  unfoldable pub handle_bare_domain : List (Option (List ℕ)) → ℕ → Request → Handler server
  handle_bare_domain draws now r =
      if str_eq r.path (bytes "/")
      then respond server page_not_found
      else if has_prefix r.path (bytes "/api/")
      then require_auth r (route_api draws now r)
      else if str_eq r.path path_ui || has_prefix r.path (path_ui ++ bytes "/")
      then require_auth r (λ _. respond server (handle_ui r.path))
      else respond server page_not_found

  -- the part of handleTripflare that records
  unfoldable pub record_hit : ℕ → Request → GoString → World S L → Outcome (Unit {0}) × World S L
  record_hit now r slug w =
      if slug_exists slug w.registry
      then (let (allowed, limits') = server.allow (client_ip r ++ (b':' ∷ slug)) now w.limits in
          let w' : World S L = record w { limits = limits' } in
          let (recorded, registry') = record_http slug (client_ip r) (hit r) now w.registry in
          if allowed
          then then_do (recorded, record w' { registry = registry' }) (λ _ w''. (ret tt, w''))
          else (ret tt, w'))
      else (ret tt, w)

  unfoldable pub handle_tripflare : ℕ → Request → GoString → Handler server
  unfolding record_hit
  handle_tripflare now r slug w = then_do (record_hit now r slug w) (λ _. respond server (page r))

  -- redirectHandler, of the plain HTTP port
  unfoldable pub redirect_handler : ℕ → Request → Handler server
  redirect_handler now r =
      let slug = host_slug server.domain r.host in
      if str_eq slug [] then respond server page_not_found else handle_tripflare now r slug

  unfoldable pub main_handler : List (Option (List ℕ)) → ℕ → Request → Handler server
  main_handler draws now r =
      let slug = host_slug server.domain r.host in
      if str_eq slug [] then handle_bare_domain draws now r else handle_tripflare now r slug
