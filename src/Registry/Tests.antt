-- ===== src/Registry/Tests.antt =====
-- The registry (internal/registry) on concrete entries and states.
use tripflare.Registry.Listing.{Newest, tally, tally_owned, list_slugs_lem}
use tripflare.Store.Monad.{orders_of, Db}
use tripflare.Store.Sqlite.{max_slug_id}
use tripflare.Registry.Subscribers.{closed_at}
use tripflare.Registry.Invariant.Sweep.{live, cleanup_lem}
use tripflare.Registry.Channels.{send_all}
use tripflare.Registry.Ring.Lost.{cleared_in_flush, cleared_in_flush-loses}
use tripflare.Registry.Invariant.Methods.{new-IsValid}
use tripflare.Registry.Ring.{IsRing}
use tripflare.Registry.SlugId.{set_bytes, digit36, digits36, text36, pad, generate_slug_id}
use tripflare.Registry.Ring.Once.{flush_turns, recorded, stored_once}
use tripflare.Registry.Ring.Flush.{push_all}
use tripflare.Registry.Invariant.Steps.{
  creates, records, subscribes, Reach, here, next, Reach-IsValid, NeverPanics, Reach-NeverPanics,
}
use tripflare.Registry.Entry.{
  make_panics, evict, make_room, push_event, begin_flush, unflushed, finish_flush,
}
use tripflare.Registry.Ring.Cycles.{Turn, flush_turn, unflushed-finish_flush}
use tripflare.Registry.Invariant.{subscribed, IsValid}
use tripflare.Registry.SlugId.Unique.{IsDraw, generate_slug_id_inj}
use tripflare.Registry.Methods.{
  new, draw_id, new_slug, add_drawn, create_slug, slug_count, get_events, list_slugs, cleanup,
  http_type, record_event, subscribe,
}
use tripflare.Base.{
  length, GoString, bytes, str_eq, lookup, insert, ret, panic, Every, total, ℕ, ◌+◌, ◌-◌, ◌≤◌, ◌≡◌,
  refl, Bool, true, false, Option, some, List, [], ◌∷◌, ◌++◌, arith,
}
use tripflare.Registry.Types.{Slug, Event, SlugEntry, Svc}

abbrev ev : ℕ → Event
ev n = record { type = http_type; source_ip = []; timestamp = n; payload = [] }

abbrev entry : List Event → SlugEntry
entry evs = record {
  addr = 0;
  slug = new_slug (bytes "abc12345") (bytes "alice") 1 60;
  events = evs;
  subscribers = [];
  dirty = true;
  flushed_count = 0;
  evicted_during_flush = 0;
}

pair-IsRing : IsRing 2 (entry (ev 1 ∷ ev 2 ∷ []))
pair-IsRing = record { within = omega arith; counted = omega arith }

restored_panics : (push_event 1 (ev 9) (entry (ev 1 ∷ ev 2 ∷ ev 3 ∷ []))).0 ≡ panic
unfolding push_event make_room evict make_panics
restored_panics = refl

push_all_run :
    (push_all 2 (ev 3 ∷ ev 4 ∷ ev 5 ∷ []) (entry (ev 1 ∷ []))).1.events ≡ ev 4 ∷ ev 5 ∷ []
unfolding push_all push_event make_room evict make_panics
push_all_run = refl

unflushed-finish_flush_example :
    unflushed (finish_flush 2 (push_all 2 (ev 3 ∷ []) (begin_flush (entry (ev 1 ∷ ev 2 ∷ [])))).1)
    ≡ ev 3 ∷ []
unflushed-finish_flush_example =
    unflushed-finish_flush 2 (omega arith) (ev 3 ∷ []) (entry (ev 1 ∷ ev 2 ∷ [])) pair-IsRing

abbrev turns : List Turn
turns =
    record { before = ev 1 ∷ []; during = ev 2 ∷ [] }
    ∷ record { before = ev 3 ∷ []; during = [] }
    ∷ []

stored_once_example :
    (stored' : List Event) × ((flush_turns 2 turns (entry []) []).0 ≡ ret stored')
    × (stored' ++ unflushed (flush_turns 2 turns (entry []) []).1
        ≡ ([] ++ unflushed (entry [])) ++ recorded turns)
stored_once_example =
    stored_once 2 (omega arith) turns (entry []) []
      (record { within = omega arith; counted = omega arith })
      (unfold unflushed in (omega arith, omega arith, (omega arith, omega arith, tt)))

cleared_in_flush-loses_example :
    let r =
      flush_turn 2
        (record { before = ev 3 ∷ []; during = [] })
        (cleared_in_flush (entry (ev 1 ∷ ev 2 ∷ [])))
        [] in
    (r.0 ≡ ret []) × (r.1.events ≡ ev 3 ∷ []) × (unflushed r.1 ≡ []) × (r.1.dirty ≡ false)
cleared_in_flush-loses_example =
    cleared_in_flush-loses 2 (omega arith) (entry (ev 1 ∷ ev 2 ∷ [])) (ev 3 ∷ []) [] (omega arith)
      (omega arith)

-- a slug is created, an event recorded for it and a subscriber added
abbrev draws : List (Option (List ℕ))
draws = some (1 ∷ 2 ∷ 3 ∷ 4 ∷ 5 ∷ []) ∷ []

abbrev id : GoString
id = bytes "01zl7h8l"

abbrev created : Svc
created = (create_slug draws (bytes "alice") 5 (new 3 60)).1

abbrev reached : Svc
reached = (subscribe id (record_event id http_type [] [] 6 created).1).1

abbrev path : Reach (new 3 60) reached
path =
    next (next (next here (creates draws (bytes "alice") 5)) (records id http_type [] [] 6))
      (subscribes id)

reached_events : get_events id reached ≡ ev 6 ∷ []
unfolding create_slug draw_id add_drawn generate_slug_id pad text36 digits36 digit36 set_bytes
    insert lookup str_eq new get_events subscribe record_event push_event make_room send_all
reached_events = refl

reached-IsValid : IsValid reached
reached-IsValid = Reach-IsValid path (new-IsValid 3 60 (omega arith))

Reach-IsValid_example : IsValid reached
Reach-IsValid_example = Reach-IsValid path (new-IsValid 3 60 (omega arith))

Reach-NeverPanics_example : NeverPanics reached
Reach-NeverPanics_example = Reach-NeverPanics 3 60 (omega arith) path

cleanup_lem_example :
    ((cleanup 100 reached).0 ≡ ret (slug_count reached - slug_count (cleanup 100 reached).1))
    × ((cleanup 100 reached).1.slugs ≡ live 100 reached.slugs)
    × ((c : ℕ)
        → closed_at (cleanup 100 reached).1.chans c + total (subscribed c) (live 100 reached.slugs)
          ≡ closed_at reached.chans c + total (subscribed c) reached.slugs)
cleanup_lem_example = cleanup_lem 100 reached reached-IsValid

abbrev five : List ℕ
five = 1 ∷ 2 ∷ 3 ∷ 4 ∷ 5 ∷ []

five-IsDraw : IsDraw five
five-IsDraw = (refl, (omega arith, (omega arith, (omega arith, (omega arith, (omega arith, tt))))))

generate_slug_id_inj_example : five ≡ five
unfolding generate_slug_id pad text36 digits36 digit36 set_bytes
generate_slug_id_inj_example = generate_slug_id_inj five five id five-IsDraw five-IsDraw refl refl

abbrev empty_db : Db
empty_db = record { slugs = []; events = []; faults = []; orders = orders_of [] (1 ∷ []) }

reached_ids : Every (λ _ e. length e.slug.id ≤ max_slug_id) reached.slugs
unfolding create_slug draw_id add_drawn generate_slug_id pad text36 digits36 digit36 set_bytes
    insert lookup str_eq new subscribe record_event push_event make_room send_all
reached_ids = (omega arith, tt)

list_slugs_lem_example :
    Newest (list_slugs (bytes "alice") reached)
    × ((p : Slug → Bool)
        → tally p (list_slugs (bytes "alice") reached)
          ≡ tally_owned p (bytes "alice") reached.slugs)
list_slugs_lem_example = list_slugs_lem (bytes "alice") reached
