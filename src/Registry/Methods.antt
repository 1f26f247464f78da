-- ===== src/Registry/Methods.antt =====
-- The methods of internal/registry/registry.go. Each returns its result beside the new state; the
-- time that it reads and the random bytes that it draws are arguments.
use tripflare.Base.{
  ltb, if◌then◌else◌, length, GoString, bytes, str_eq, Dict, lookup, insert, remove, Outcome, ret,
  panic, ℕ, ◌+◌, Bool, true, false, Option, none, some, List, [], ◌∷◌, ◌++◌,
}
use tripflare.Json.{text, texts, RawMessage}
use tripflare.Registry.Types.{Slug, Event, Chans, SlugEntry, Svc}
use tripflare.Registry.SlugId.{generate_slug_id}
use tripflare.Registry.Channels.{set_chan, close_chan, close_all, send_all, remove_subscriber}
use tripflare.Registry.Entry.{push_event, clear_entry}

unfoldable pub new : ℕ → ℕ → Svc
new max_events ttl = record {
  slugs = [];
  max_events_per_slug = max_events;
  slug_ttl = ttl;
  chans = λ _. record { buffer = []; closed = false };
  next = 0;
}

-- How the loop of CreateSlug ends on the draws that it is given: `exhausted` where every one of
-- them collided.
pub data Draw : Type 0 where
  found : GoString → Draw
  rand_error : Draw
  exhausted : Draw

unfoldable pub draw_id : List (Option (List ℕ)) → Dict SlugEntry → Draw
draw_id [] slugs = exhausted
draw_id (d ∷ ds) slugs = elim (generate_slug_id d) [
  | none ↦ rand_error
  | some id ↦ elim (lookup id slugs) [ none ↦ found id | some _ ↦ draw_id ds slugs ]
]

abbrev pub new_slug : GoString → GoString → ℕ → ℕ → Slug
new_slug id owner now ttl = record {
  id = id;
  owner = owner;
  created_at = now;
  expires_at = now + ttl;
}

abbrev pub new_entry : ℕ → Slug → SlugEntry
new_entry addr slug = record {
  addr = addr;
  slug = slug;
  events = [];
  subscribers = [];
  dirty = true;
  flushed_count = 0;
  evicted_during_flush = 0;
}

-- `none` beside the state is the error of rand.Read.
unfoldable pub add_drawn : Draw → GoString → ℕ → Svc → Option Slug × Svc
add_drawn (found id) owner now s =
    let slug = new_slug id owner now s.slug_ttl in
    (some slug, record s { slugs = insert id (new_entry s.next slug) s.slugs; next = s.next + 1 })
add_drawn rand_error owner now s = (none, s)
add_drawn exhausted owner now s = (none, s)

unfoldable pub create_slug : List (Option (List ℕ)) → GoString → ℕ → Svc → Option Slug × Svc
unfolding draw_id add_drawn
create_slug draws owner now s = add_drawn (draw_id draws s.slugs) owner now s

unfoldable pub get_slug : GoString → Svc → Option Slug
get_slug slug s = elim (lookup slug s.slugs) [ none ↦ none | some e ↦ some e.slug ]

unfoldable pub slug_exists : GoString → Svc → Bool
slug_exists slug s = elim (lookup slug s.slugs) [ none ↦ false | some _ ↦ true ]

unfoldable pub slug_count : Svc → ℕ
slug_count s = length s.slugs

unfoldable pub event_count : GoString → Svc → ℕ
event_count slug s = elim (lookup slug s.slugs) [ none ↦ 0 | some e ↦ length e.events ]

unfoldable pub get_events : GoString → Svc → List Event
get_events slug s = elim (lookup slug s.slugs) [ none ↦ [] | some e ↦ e.events ]

unfoldable pub owned_slugs : GoString → Dict SlugEntry → List Slug
owned_slugs owner [] = []
owned_slugs owner ((id, e) ∷ rest) =
    let others = owned_slugs owner rest in
    if str_eq e.slug.owner owner then e.slug ∷ others else others

-- sort.Slice with `result[i].CreatedAt.After(result[j].CreatedAt)`, which leaves the order of
-- slugs of one instant open; here they stay in the order of the map's iteration
unfoldable pub insert_newest : Slug → List Slug → List Slug
insert_newest x [] = x ∷ []
insert_newest x (y ∷ ys) =
    let rest = insert_newest x ys in if ltb x.created_at y.created_at then y ∷ rest else x ∷ y ∷ ys

unfoldable pub sort_newest : List Slug → List Slug
sort_newest [] = []
sort_newest (x ∷ xs) = insert_newest x (sort_newest xs)

unfoldable pub list_slugs : GoString → Svc → List Slug
unfolding owned_slugs insert_newest sort_newest
list_slugs owner s = sort_newest (owned_slugs owner s.slugs)

unfoldable pub delete_slug : GoString → Svc → Outcome (Unit {0}) × Svc
unfolding close_all
delete_slug slug s = elim (lookup slug s.slugs) [
  | none ↦ (ret tt, s)
  | some e ↦
      let (closed, chans') = close_all e.subscribers s.chans in
      elim closed [
        | ret _ ↦ (ret tt, record s { slugs = remove slug s.slugs; chans = chans' })
        | panic ↦ (panic, record s { chans = chans' })
      ]
]

unfoldable pub clear_events : GoString → Svc → Bool × Svc
unfolding clear_entry
clear_events slug s = elim (lookup slug s.slugs) [
  | none ↦ (false, s)
  | some e ↦ (true, record s { slugs = insert slug (clear_entry e) s.slugs })
]

abbrev add_one : Outcome ℕ → Outcome ℕ
add_one (ret n) = ret (n + 1)
add_one panic = panic

-- the loop of Cleanup: the number of slugs removed, the slugs that stay and the channels
unfoldable pub sweep : ℕ → Dict SlugEntry → Chans → Outcome ℕ × (Dict SlugEntry × Chans)
unfolding close_all
sweep now [] chans = (ret 0, ([], chans))
sweep now ((id, e) ∷ rest) chans = elim (ltb e.slug.expires_at now) [
  | false ↦
      let (removed, (kept, chans')) = sweep now rest chans in (removed, ((id, e) ∷ kept, chans'))
  | true ↦
      let (closed, chans') = close_all e.subscribers chans in
      elim closed [
        | panic ↦ (panic, ((id, e) ∷ rest, chans'))
        | ret _ ↦
            let (removed, (kept, chans'')) = sweep now rest chans' in
            (add_one removed, (kept, chans''))
      ]
]

unfoldable pub cleanup : ℕ → Svc → Outcome ℕ × Svc
unfolding sweep
cleanup now s =
    let (removed, (kept, chans')) = sweep now s.slugs s.chans in
    (removed, record s { slugs = kept; chans = chans' })

abbrev pub dns_type : GoString
dns_type = bytes "dns"

abbrev pub http_type : GoString
http_type = bytes "http"

unfoldable pub record_event :
    GoString → GoString → GoString → RawMessage → ℕ → Svc → Outcome Bool × Svc
unfolding push_event send_all
record_event slug event_type source_ip payload now s = elim (lookup slug s.slugs) [
  | none ↦ (ret false, s)
  | some e ↦
      let ev : Event = record {
        type = event_type;
        source_ip = source_ip;
        timestamp = now;
        payload = payload;
      } in
      let (pushed, e') = push_event s.max_events_per_slug ev e in
      let s' : Svc = record s { slugs = insert slug e' s.slugs } in
      elim pushed [
        | panic ↦ (panic, s')
        | ret _ ↦
            let (sent, chans') = send_all e.subscribers ev s.chans in
            let s'' : Svc = record s' { chans = chans' } in
            elim sent [ ret _ ↦ (ret true, s'') | panic ↦ (panic, s'') ]
      ]
]

-- json.Marshal writes the keys of a map in order; client_subnet is left out if it is empty.
abbrev pub dns_payload : GoString → GoString → GoString → RawMessage
dns_payload query_type query_name client_subnet =
    let query : RawMessage =
      (bytes "query_name", text query_name) ∷ (bytes "query_type", text query_type) ∷ [] in
    if str_eq client_subnet [] then query else (bytes "client_subnet", text client_subnet) ∷ query

unfoldable pub record_dns :
    GoString → GoString → GoString → GoString → GoString → ℕ → Svc → Outcome Bool × Svc
unfolding record_event
record_dns slug source_ip query_type query_name client_subnet now s =
    record_event slug dns_type source_ip (dns_payload query_type query_name client_subnet) now s

-- The string arguments of RecordHTTP after the source, and its headers.
pub record Hit : Type 0 where
  pub scheme : GoString
  pub method : GoString
  pub path : GoString
  pub query : GoString
  pub user_agent : GoString
  pub headers : Dict GoString

abbrev pub http_payload : Hit → RawMessage
http_payload h =
    (bytes "headers", texts h.headers)
    ∷ (bytes "method", text h.method)
    ∷ (bytes "path", text h.path)
    ∷ (bytes "query", text h.query)
    ∷ (bytes "scheme", text h.scheme)
    ∷ (bytes "user_agent", text h.user_agent)
    ∷ []

unfoldable pub record_http : GoString → GoString → Hit → ℕ → Svc → Outcome Bool × Svc
unfolding record_event
record_http slug source_ip hit now s =
    record_event slug http_type source_ip (http_payload hit) now s

-- Subscribe returns the channel; unsub is `unsubscribe` at that channel.
unfoldable pub subscribe : GoString → Svc → ℕ × Svc
unfolding set_chan
subscribe slug s = elim (lookup slug s.slugs) [
  | none ↦ (
    s.next,
    record s {
      chans = set_chan s.chans s.next (record { buffer = []; closed = true });
      next = s.next + 1;
    },
  )
  | some e ↦ (
    s.next,
    record s {
      slugs = insert slug (record e { subscribers = e.subscribers ++ s.next ∷ [] }) s.slugs;
      chans = set_chan s.chans s.next (record { buffer = []; closed = false });
      next = s.next + 1;
    },
  )
]

unfoldable pub unsubscribe : GoString → ℕ → Svc → Outcome (Unit {0}) × Svc
unfolding remove_subscriber close_chan
unsubscribe slug sub s = elim (lookup slug s.slugs) [
  | none ↦ (ret tt, s)
  | some e ↦ elim (remove_subscriber sub e.subscribers) [
    | none ↦ (ret tt, s)
    | some rest ↦
        let s' : Svc = record s { slugs = insert slug (record e { subscribers = rest }) s.slugs } in
        let (closed, chans') = close_chan sub s.chans in (closed, record s' { chans = chans' })
  ]
]
