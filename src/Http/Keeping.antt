-- ===== src/Http/Keeping.antt =====
-- What a request to the bare domain of internal/httpserver leaves of other users' slugs.
use tripflare.Base.{
  Bool-cases, GoString, bytes, str_eq, has_prefix, trim_prefix, cut, ret, Outcome-cases, ℕ, inl,
  inr, ◌||◌, Option, List, [], ◌++◌,
}
use tripflare.Registry.Methods.{delete_slug}
use tripflare.Http.Types.{Request, Server, World, page_not_found, unauthorized}
use tripflare.Http.Handlers.{
  path_ui, handle_create_slug, handle_list_slugs, handle_get_slug, handle_delete_slug,
  handle_clear_events, handle_events,
}
use tripflare.Http.Routes.{
  path_api_slugs, extract_username, require_auth, route_slugs_collection, route_slug_resource,
  route_api, handle_bare_domain,
}
use tripflare.Http.Others.{
  OthersKept, create_slug-OthersKept, delete_slug-OthersKept, clear_events-OthersKept,
  subscribe-OthersKept,
}
use tripflare.Http.Access.{Keeps, require_slug_owner-Keeps}

module _ {S L : Type 0} (server : Server S L) where
  handle_delete_slug-Keeps :
      (user slug : GoString) (w : World S L) → Keeps user w (handle_delete_slug server user slug w)
  unfolding handle_delete_slug
  handle_delete_slug-Keeps user slug w = require_slug_owner-Keeps server user slug _ w (λ t own.
      elim (Outcome-cases (delete_slug slug w.registry).0) [
        | inl panics ↦ rw panics (delete_slug-OthersKept user slug w.registry own)
        | inr (a, returns) ↦ rw returns (delete_slug-OthersKept user slug w.registry own)
      ])

  handle_get_slug-Keeps :
      (user slug : GoString) (w : World S L) → Keeps user w (handle_get_slug server user slug w)
  unfolding handle_get_slug
  handle_get_slug-Keeps user slug w =
      require_slug_owner-Keeps server user slug _ w (λ t own id e h other. h)

  handle_clear_events-Keeps :
      (user slug : GoString) (w : World S L) → Keeps user w (handle_clear_events server user slug w)
  unfolding handle_clear_events
  handle_clear_events-Keeps user slug w =
      require_slug_owner-Keeps server user slug _ w
        (λ t own. clear_events-OthersKept user slug w.registry own)

  handle_events-Keeps :
      (user slug : GoString) (w : World S L) → Keeps user w (handle_events server user slug w)
  unfolding handle_events
  handle_events-Keeps user slug w =
      require_slug_owner-Keeps server user slug _ w
        (λ t own. subscribe-OthersKept user slug w.registry own)

  route_slug_resource-Keeps :
      (r : Request) (user slug suffix : GoString) (w : World S L)
      → Keeps user w (route_slug_resource server r user slug suffix w)
  unfolding route_slug_resource
  route_slug_resource-Keeps r user slug suffix w = elim (Bool-cases (str_eq suffix [])) [
    | inl whole ↦ elim (Bool-cases (str_eq r.method (bytes "DELETE"))) [
      | inl delete ↦ rw (whole, delete) (handle_delete_slug-Keeps user slug w)
      | inr get ↦ rw (whole, get) (handle_get_slug-Keeps user slug w)
    ]
    | inr part ↦ elim (Bool-cases (str_eq suffix (bytes "events"))) [
      | inl events ↦ elim (Bool-cases (str_eq r.method (bytes "DELETE"))) [
        | inl delete ↦ rw (part, events, delete) (handle_clear_events-Keeps user slug w)
        | inr get ↦ rw (part, events, get) (handle_events-Keeps user slug w)
      ]
      | inr unknown ↦ rw (part, unknown) (λ id e h other. h)
    ]
  ]

  route_slugs_collection-Keeps :
      (draws : List (Option (List ℕ))) (now : ℕ) (r : Request) (user : GoString) (w : World S L)
      → Keeps user w (route_slugs_collection server draws now r user w)
  unfolding route_slugs_collection handle_list_slugs handle_create_slug
  route_slugs_collection-Keeps draws now r user w =
      elim (Bool-cases (str_eq r.method (bytes "GET"))) [
        | inl get ↦ rw get (λ id e h other. h)
        | inr m ↦ elim (Bool-cases (str_eq r.method (bytes "POST"))) [
          | inl post ↦ rw (m, post) (create_slug-OthersKept draws user user now w.registry)
          | inr m' ↦ rw (m, m') (λ id e h other. h)
        ]
      ]

  route_api-Keeps :
      (draws : List (Option (List ℕ))) (now : ℕ) (r : Request) (user : GoString) (w : World S L)
      → Keeps user w (route_api server draws now r user w)
  unfolding route_api
  route_api-Keeps draws now r user w =
      let prefix = path_api_slugs ++ bytes "/" in
      let parts = cut b'/' (trim_prefix r.path prefix) in
      elim (Bool-cases (str_eq r.path path_api_slugs)) [
        | inl all ↦ rw all (route_slugs_collection-Keeps draws now r user w)
        | inr p ↦ elim (Bool-cases (has_prefix r.path prefix)) [
          | inr q ↦ rw (p, q) (λ id e h other. h)
          | inl below ↦ elim (Bool-cases (str_eq parts.0 [])) [
            | inl empty ↦ rw (p, below, empty) (λ id e h other. h)
            | inr named ↦ rw (p, below, named) (route_slug_resource-Keeps r user parts.0 parts.1 w)
          ]
        ]
      ]

  -- Whatever a request to the bare domain asks for and whoever sends it: each slug that is not of
  -- the user that its credentials name keeps its entry, with its events and its subscribers.
  pub handle_bare_domain-OthersKept :
      (draws : List (Option (List ℕ))) (now : ℕ) (r : Request) (w : World S L)
      → OthersKept
          (extract_username server r)
          w.registry
          (handle_bare_domain server draws now r w).1.registry
  unfolding handle_bare_domain require_auth
  handle_bare_domain-OthersKept draws now r w =
      let user = extract_username server r in
      let same : Keeps user w (ret page_not_found, w) = λ id e h other. h in
      let refused : Keeps user w (ret unauthorized, w) = λ id e h other. h in
      elim (Bool-cases (str_eq r.path (bytes "/"))) [
        | inl root ↦ rw root same
        | inr p ↦ elim (Bool-cases (has_prefix r.path (bytes "/api/"))) [
          | inl api ↦ elim (Bool-cases (str_eq user [])) [
            | inl stranger ↦ rw (p, api, stranger) refused
            | inr known ↦ rw (p, api, known) (route_api-Keeps draws now r user w)
          ]
          | inr p' ↦
              elim (Bool-cases
                (str_eq r.path path_ui || has_prefix r.path (path_ui ++ bytes "/"))) [
                  | inl is_ui ↦ elim (Bool-cases (str_eq user [])) [
                    | inl stranger ↦ rw (p, p', is_ui, stranger) refused
                    | inr known ↦ rw (p, p', is_ui, known) (λ id e h other. h)
                  ]
                  | inr p'' ↦ rw (p, p', p'') same
                ]
        ]
      ]
