-- ===== src/Http/Access.antt =====
-- Who may see and change which slug through the API of internal/httpserver.
use tripflare.Base.{
  if◌then◌else◌, Bool-cases, Option-cases, GoString, bytes, str_eq, str_eq_iff, has_prefix, lookup,
  Outcome, ret, ℕ, ◌≡◌, refl, ◌≢◌, inl, inr, Bool, ◌||◌, Option, some, List, [], ◌++◌,
}
use tripflare.Registry.Types.{Slug, SlugEntry, Svc}
use tripflare.Registry.Methods.{get_slug}
use tripflare.Http.Types.{
  Request, Server, World, Response, page_not_found, unauthorized, not_found, status,
}
use tripflare.Http.Handlers.{
  path_ui, Handler, require_slug_owner, handle_get_slug, handle_delete_slug, handle_clear_events,
  handle_events,
}
use tripflare.Http.Routes.{extract_username, require_auth, route_slug_resource, handle_bare_domain}
use tripflare.Http.Others.{OthersKept, Owned}

-- the error for a slug that is not there, by what is asked of it
abbrev pub denial : GoString → Response
denial suffix =
    if str_eq suffix []
    then not_found
    else if str_eq suffix (bytes "events")
    then not_found
    else page_not_found

-- no slug of the id, or one of another owner
abbrev pub NotOwned : GoString → GoString → Svc → Type 0
NotOwned user slug s = (t : SlugEntry) → lookup slug s.slugs ≡ some t → t.slug.owner ≢ user

-- what a handler leaves of the others' slugs
abbrev pub Keeps : {S L : Type 0} → GoString → World S L → Outcome Response × World S L → Type 0
Keeps user w r = OthersKept user w.registry r.1.registry

module _ {S L : Type 0} (server : Server S L) where
  require_slug_owner-denied :
      (user slug : GoString) (next : Slug → Handler server) (w : World S L)
      → NotOwned user slug w.registry
      → require_slug_owner server user slug next w ≡ (ret not_found, w)
  unfolding require_slug_owner get_slug
  require_slug_owner-denied user slug next w h =
      elim (Option-cases (lookup slug w.registry.slugs)) [
        | inl absent ↦ rw (absent, require_slug_owner, get_slug) refl
        | inr (t, there) ↦ elim (Bool-cases (str_eq t.slug.owner user)) [
          | inl own ↦ absurd (h t there ((str_eq_iff t.slug.owner user).0 own))
          | inr other ↦ rw (there, require_slug_owner, get_slug, other) refl
        ]
      ]

  pub require_slug_owner-Keeps :
      (user slug : GoString) (next : Slug → Handler server) (w : World S L)
      → ((t : Slug) → Owned user slug w.registry → Keeps user w (next t w))
      → Keeps user w (require_slug_owner server user slug next w)
  unfolding require_slug_owner get_slug
  require_slug_owner-Keeps user slug next w k = elim (Option-cases (lookup slug w.registry.slugs)) [
    | inl absent ↦ rw (absent, require_slug_owner, get_slug) (λ id e h other. h)
    | inr (t, there) ↦ elim (Bool-cases (str_eq t.slug.owner user)) [
      | inl own ↦
          rw (there, require_slug_owner, get_slug, own)
            (k t.slug (t, there, (str_eq_iff t.slug.owner user).0 own))
      | inr other ↦ rw (there, require_slug_owner, get_slug, other) (λ id e h o. h)
    ]
  ]

  -- A request for a slug that is not the user's is answered with 404 and in the same way as one for
  -- a slug that does not exist, whatever its method is, and changes nothing.
  pub resource_of_other :
      (r : Request) (user slug suffix : GoString) (w : World S L)
      → NotOwned user slug w.registry
      → (route_slug_resource server r user slug suffix w ≡ (ret (denial suffix), w))
        × (status (denial suffix) ≡ 404)
  unfolding route_slug_resource handle_delete_slug handle_get_slug handle_clear_events handle_events
  resource_of_other r user slug suffix w h = elim (Bool-cases (str_eq suffix [])) [
    | inl whole ↦ elim (Bool-cases (str_eq r.method (bytes "DELETE"))) [
      | inl delete ↦ rw (whole, delete) (require_slug_owner-denied user slug _ w h, refl)
      | inr get ↦ rw (whole, get) (require_slug_owner-denied user slug _ w h, refl)
    ]
    | inr part ↦ elim (Bool-cases (str_eq suffix (bytes "events"))) [
      | inl events ↦ elim (Bool-cases (str_eq r.method (bytes "DELETE"))) [
        | inl delete ↦ rw (part, events, delete) (require_slug_owner-denied user slug _ w h, refl)
        | inr get ↦ rw (part, events, get) (require_slug_owner-denied user slug _ w h, refl)
      ]
      | inr unknown ↦ rw (part, unknown) (refl, refl)
    ]
  ]

  -- the paths that the bare domain answers to users only
  abbrev pub for_users : Request → Bool
  for_users r =
      has_prefix r.path (bytes "/api/")
      || (str_eq r.path path_ui || has_prefix r.path (path_ui ++ bytes "/"))

  -- A request whose credentials match no entry, or that has none, is refused with 401 on every path
  -- of the API and of the UI, and gets 404 on every other; it changes nothing.
  pub handle_bare_domain_of_stranger :
      (draws : List (Option (List ℕ))) (now : ℕ) (r : Request) (w : World S L)
      → extract_username server r ≡ []
      → handle_bare_domain server draws now r w
        ≡ (ret (if for_users r then unauthorized else page_not_found), w)
  unfolding handle_bare_domain require_auth str_eq has_prefix
  handle_bare_domain_of_stranger draws now r w h = elim (Bool-cases (str_eq r.path (bytes "/"))) [
    | inl root ↦ rw ((str_eq_iff r.path (bytes "/")).0 root) refl
    | inr p ↦ elim (Bool-cases (has_prefix r.path (bytes "/api/"))) [
      | inl api ↦ rw (p, api, h) refl
      | inr p' ↦
          elim (Bool-cases (str_eq r.path path_ui || has_prefix r.path (path_ui ++ bytes "/"))) [
            | inl is_ui ↦ rw (p, p', is_ui, h) refl
            | inr p'' ↦ rw (p, p', p'') refl
          ]
    ]
  ]
