-- ===== src/Http/Handlers.antt =====
-- The handlers of internal/httpserver/handlers.go. `username` is what requireAuth put into the
-- request's context.
use tripflare.Base.{
  if◌then◌else◌, GoString, bytes, str_eq, Outcome, ret, then_do, ℕ, ◌/◌, ◌||◌, Option, none, some,
  List, [], ◌++◌, map,
}
use tripflare.Registry.Types.{Slug}
use tripflare.Registry.Methods.{
  create_slug, get_slug, event_count, get_events, list_slugs, delete_slug, clear_events, subscribe,
}
use tripflare.Registry.Persistence.{second}
use tripflare.Http.Types.{
  Server, World, SlugResponse, SlugListItem, index_html, style_css, Response, page_not_found,
  service_unavailable, not_found, created, slugs, detail, no_content, cleared, ui, stream,
}
use tripflare.Http.Events.{enrich_all}

abbrev pub path_ui : GoString
path_ui = bytes "/tripflare"

module _ {S L : Type 0} (server : Server S L) where
  abbrev pub Handler : Type 0
  Handler = World S L → Outcome Response × World S L

  abbrev pub respond : Response → Handler
  respond r w = (ret r, w)

  abbrev pub slug_response : Slug → SlugResponse
  slug_response t = record {
    slug = t.id;
    domain = server.domain;
    created_at = t.created_at / second;
    expires_at = t.expires_at / second;
  }

  unfoldable pub handle_create_slug : List (Option (List ℕ)) → ℕ → GoString → Handler
  handle_create_slug draws now username w =
      let (slug, registry') = create_slug draws username now w.registry in
      (
        ret (elim slug [ none ↦ service_unavailable | some t ↦ created (slug_response t) ]),
        record w { registry = registry' },
      )

  abbrev pub list_item : World S L → Slug → SlugListItem
  list_item w t = record { slug = slug_response t; event_count = event_count t.id w.registry }

  unfoldable pub handle_list_slugs : GoString → Handler
  handle_list_slugs username w =
      respond (slugs (map (list_item w) (list_slugs username w.registry))) w

  -- requireSlugOwner: what `next` does with the slug, or the error
  unfoldable pub require_slug_owner : GoString → GoString → (Slug → Handler) → Handler
  require_slug_owner username slug_id next w = elim (get_slug slug_id w.registry) [
    | none ↦ respond not_found w
    | some slug ↦ if str_eq slug.owner username then next slug w else respond not_found w
  ]

  unfoldable pub handle_get_slug : GoString → GoString → Handler
  handle_get_slug username slug_id = require_slug_owner username slug_id (λ slug w.
      respond
        (detail (slug_response slug) (enrich_all server.geo (get_events slug_id w.registry) []).0)
        w)

  -- the call of the store, whose error is only logged
  unfoldable pub delete_stored : GoString → S → S
  delete_stored slug_id db = elim server.store [
    | none ↦ db
    | some st ↦ (st.delete_slug slug_id db).1
  ]

  unfoldable pub handle_delete_slug : GoString → GoString → Handler
  unfolding delete_stored
  handle_delete_slug username slug_id = require_slug_owner username slug_id (λ slug w.
      let (deleted, registry') = delete_slug slug_id w.registry in
      then_do (deleted, record w { registry = registry' })
        (λ _ w'. respond no_content (record w' { db = delete_stored slug_id w'.db })))

  unfoldable pub handle_clear_events : GoString → GoString → Handler
  handle_clear_events username slug_id =
      require_slug_owner username slug_id
        (λ slug w. respond cleared (record w { registry = (clear_events slug_id w.registry).1 }))

  -- the case "events" of routeSlugResource, up to the loop of streamSSE, which is in Events; what the
  -- stream takes from its channel and its deferred unsub are steps of Daemon/Process
  unfoldable pub handle_events : GoString → GoString → Handler
  handle_events username slug_id = require_slug_owner username slug_id (λ slug w.
      let history = get_events slug_id w.registry in
      let (sub, registry') = subscribe slug_id w.registry in
      respond (stream slug_id history sub) (record w { registry = registry' }))

unfoldable pub handle_ui : GoString → Response
handle_ui path =
    if str_eq path path_ui || str_eq path (path_ui ++ bytes "/")
    then ui index_html
    else if str_eq path (path_ui ++ bytes "/style.css")
    then ui style_css
    else page_not_found
