-- ===== src/Http/Serving.antt =====
-- Panics of the handlers of internal/httpserver, and the registry's invariant.
use tripflare.Base.{
  Bool-cases, Option-cases, GoString, bytes, str_eq, has_prefix, trim_prefix, cut, ℕ, refl, inl,
  inr, ◌||◌, Option, List, [], ◌++◌,
}
use tripflare.Registry.Types.{Slug}
use tripflare.Registry.Methods.{get_slug}
use tripflare.Registry.Invariant.{IsValid}
use tripflare.Registry.Invariant.Methods.{
  create_slug-IsValid, clear_events-IsValid, delete_slug-IsSafe, subscribe-IsValid,
}
use tripflare.Http.Types.{
  Request, Server, World, Response, page_not_found, unauthorized, method_not_allowed, no_content,
}
use tripflare.Http.Handlers.{
  path_ui, Handler, respond, handle_create_slug, handle_list_slugs, require_slug_owner,
  handle_get_slug, handle_delete_slug, handle_clear_events, handle_events, handle_ui,
}
use tripflare.Http.Routes.{
  path_api_slugs, host_slug, page, extract_username, require_auth, route_slugs_collection,
  route_slug_resource, route_api, handle_bare_domain, redirect_handler, main_handler,
}
use tripflare.Http.Tracking.{IsServed, handle_tripflare_lem}

module _ {S L : Type 0} (server : Server S L) where
  require_slug_owner-IsServed :
      (user slug : GoString) (next : Slug → Handler server) (w : World S L)
      → IsValid w.registry
      → ((t : Slug) → IsServed (next t w))
      → IsServed (require_slug_owner server user slug next w)
  unfolding require_slug_owner
  require_slug_owner-IsServed user slug next w v k =
      elim (Option-cases (get_slug slug w.registry)) [
        | inl absent ↦ rw (absent, require_slug_owner) (record { answers = (_, refl); valid = v })
        | inr (t, there) ↦ elim (Bool-cases (str_eq t.owner user)) [
          | inl own ↦ rw (there, require_slug_owner, own) (k t)
          | inr other ↦
              rw (there, require_slug_owner, other) (record { answers = (_, refl); valid = v })
        ]
      ]

  unchanged : (a : Response) (w : World S L) → IsValid w.registry → IsServed (respond server a w)
  unchanged a w v = record { answers = (a, refl); valid = v }

  handle_delete_slug-IsServed :
      (user slug : GoString) (w : World S L)
      → IsValid w.registry
      → IsServed (handle_delete_slug server user slug w)
  unfolding handle_delete_slug
  handle_delete_slug-IsServed user slug w v = require_slug_owner-IsServed user slug _ w v (λ t.
      let safe = delete_slug-IsSafe slug w.registry v in
      let (a, returns) = safe.returns in
      rw returns (record { answers = (no_content, refl); valid = safe.valid }))

  handle_get_slug-IsServed :
      (user slug : GoString) (w : World S L)
      → IsValid w.registry
      → IsServed (handle_get_slug server user slug w)
  unfolding handle_get_slug
  handle_get_slug-IsServed user slug w v =
      require_slug_owner-IsServed user slug _ w v (λ t. record { answers = (_, refl); valid = v })

  handle_clear_events-IsServed :
      (user slug : GoString) (w : World S L)
      → IsValid w.registry
      → IsServed (handle_clear_events server user slug w)
  unfolding handle_clear_events
  handle_clear_events-IsServed user slug w v =
      require_slug_owner-IsServed user slug _ w v
        (λ t. record { answers = (_, refl); valid = clear_events-IsValid slug w.registry v })

  handle_events-IsServed :
      (user slug : GoString) (w : World S L)
      → IsValid w.registry
      → IsServed (handle_events server user slug w)
  unfolding handle_events
  handle_events-IsServed user slug w v =
      require_slug_owner-IsServed user slug _ w v
        (λ t. record { answers = (_, refl); valid = subscribe-IsValid slug w.registry v })

  route_slug_resource-IsServed :
      (r : Request) (user slug suffix : GoString) (w : World S L)
      → IsValid w.registry
      → IsServed (route_slug_resource server r user slug suffix w)
  unfolding route_slug_resource
  route_slug_resource-IsServed r user slug suffix w v = elim (Bool-cases (str_eq suffix [])) [
    | inl whole ↦ elim (Bool-cases (str_eq r.method (bytes "DELETE"))) [
      | inl delete ↦ rw (whole, delete) (handle_delete_slug-IsServed user slug w v)
      | inr get ↦ rw (whole, get) (handle_get_slug-IsServed user slug w v)
    ]
    | inr part ↦ elim (Bool-cases (str_eq suffix (bytes "events"))) [
      | inl events ↦ elim (Bool-cases (str_eq r.method (bytes "DELETE"))) [
        | inl delete ↦ rw (part, events, delete) (handle_clear_events-IsServed user slug w v)
        | inr get ↦ rw (part, events, get) (handle_events-IsServed user slug w v)
      ]
      | inr unknown ↦ rw (part, unknown) (unchanged page_not_found w v)
    ]
  ]

  module _ (draws : List (Option (List ℕ))) (now : ℕ) (r : Request) (w : World S L) where
    route_slugs_collection-IsServed :
        (user : GoString)
        → IsValid w.registry
        → IsServed (route_slugs_collection server draws now r user w)
    unfolding route_slugs_collection handle_list_slugs handle_create_slug
    route_slugs_collection-IsServed user v = elim (Bool-cases (str_eq r.method (bytes "GET"))) [
      | inl get ↦ rw get (record { answers = (_, refl); valid = v })
      | inr m ↦ elim (Bool-cases (str_eq r.method (bytes "POST"))) [
        | inl post ↦
            rw (m, post)
              (record {
                answers = (_, refl);
                valid = create_slug-IsValid draws user now w.registry v;
              })
        | inr m' ↦ rw (m, m') (unchanged method_not_allowed w v)
      ]
    ]

    route_api-IsServed :
        (user : GoString) → IsValid w.registry → IsServed (route_api server draws now r user w)
    unfolding route_api
    route_api-IsServed user v =
        let prefix = path_api_slugs ++ bytes "/" in
        let parts = cut b'/' (trim_prefix r.path prefix) in
        elim (Bool-cases (str_eq r.path path_api_slugs)) [
          | inl all ↦ rw all (route_slugs_collection-IsServed user v)
          | inr p ↦ elim (Bool-cases (has_prefix r.path prefix)) [
            | inr q ↦ rw (p, q) (unchanged page_not_found w v)
            | inl below ↦ elim (Bool-cases (str_eq parts.0 [])) [
              | inl empty ↦ rw (p, below, empty) (unchanged page_not_found w v)
              | inr named ↦
                  rw (p, below, named) (route_slug_resource-IsServed r user parts.0 parts.1 w v)
            ]
          ]
        ]

    require_auth-IsServed :
        (next : GoString → Handler server)
        → IsValid w.registry
        → ((user : GoString) → IsServed (next user w))
        → IsServed (require_auth server r next w)
    unfolding require_auth
    require_auth-IsServed next v k = elim (Bool-cases (str_eq (extract_username server r) [])) [
      | inl stranger ↦ rw stranger (unchanged unauthorized w v)
      | inr known ↦ rw known (k (extract_username server r))
    ]

    handle_bare_domain-IsServed :
        IsValid w.registry → IsServed (handle_bare_domain server draws now r w)
    unfolding handle_bare_domain
    handle_bare_domain-IsServed v = elim (Bool-cases (str_eq r.path (bytes "/"))) [
      | inl root ↦ rw root (unchanged page_not_found w v)
      | inr p ↦ elim (Bool-cases (has_prefix r.path (bytes "/api/"))) [
        | inl api ↦ rw (p, api) (require_auth-IsServed _ v (λ user. route_api-IsServed user v))
        | inr p' ↦
            elim (Bool-cases (str_eq r.path path_ui || has_prefix r.path (path_ui ++ bytes "/"))) [
              | inl is_ui ↦
                  rw (p, p', is_ui)
                    (require_auth-IsServed _ v (λ user. unchanged (handle_ui r.path) w v))
              | inr p'' ↦ rw (p, p', p'') (unchanged page_not_found w v)
            ]
      ]
    ]

    -- Where the registry keeps its invariant, both ports answer every request without a panic,
    -- whatever its host, path, method and credentials, and the invariant holds again.
    pub handlers-IsServed :
        IsValid w.registry
        → IsServed (main_handler server draws now r w) × IsServed (redirect_handler server now r w)
    unfolding main_handler redirect_handler
    handlers-IsServed v =
        let slug = host_slug server.domain r.host in
        let hit = handle_tripflare_lem server now r slug w v in
        elim (Bool-cases (str_eq slug [])) [
          | inl bare ↦ rw bare (handle_bare_domain-IsServed v, unchanged page_not_found w v)
          | inr named ↦ rw named (
            record { answers = (page r, hit.0); valid = hit.1 },
            record { answers = (page r, hit.0); valid = hit.1 },
          )
        ]
