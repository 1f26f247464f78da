-- ===== src/Store/Tests.antt =====
-- The store (internal/store/store.go) on a table with one slug and one event.

use tripflare.Store.Integrity.{HasSlugs, writes-HasSlugs}
use tripflare.Store.Sqlite.{insert_slug, insert_events, in_ids, delete_expired, delete_slug}
use tripflare.Store.Monad.{orders_of, Db, call, write, roll_back, transaction}
use tripflare.Store.Rows.{SlugRow, EventRow}
use tripflare.Base.{All, GoString, bytes, str_eq, ℕ, ◌≡◌, refl, true, false, List, [], ◌∷◌}

abbrev row : SlugRow
row = record { id = bytes "abc12345"; owner = bytes "alice"; created_at = 1; expires_at = 60 }

abbrev event : EventRow
event = record {
  slug = bytes "abc12345";
  type = bytes "dns";
  source_ip = [];
  timestamp = 2;
  payload = [];
}

abbrev one_slug : Db
one_slug = record {
  slugs = row ∷ [];
  events = event ∷ [];
  faults = false ∷ false ∷ true ∷ [];
  orders = orders_of [] (1 ∷ []);
}

one_slug-HasSlugs : HasSlugs one_slug
unfolding in_ids str_eq
one_slug-HasSlugs = record { rows = (refl, tt) }

-- the second statement of the deletion fails, and the first is rolled back
rolled_back : (delete_slug (bytes "abc12345") one_slug).1.events ≡ event ∷ []
unfolding delete_slug call transaction roll_back write
rolled_back = refl

abbrev no_rows : Db
no_rows = record { slugs = []; events = []; faults = []; orders = orders_of [] [] }

-- FlushTo's two calls with a DeleteSlug between them: the event has no slug, and stays
abbrev between : Db
between =
    (insert_events (event ∷ []) (delete_slug (bytes "abc12345") (insert_slug row no_rows).1).1).1

orphaned :
    ((delete_expired 90 between).1.slugs ≡ []) × ((delete_expired 90 between).1.events ≡ event ∷ [])
unfolding insert_slug insert_events delete_slug delete_expired str_eq
orphaned = (refl, refl)

writes-HasSlugs_example :
    ((r : SlugRow) → HasSlugs (insert_slug r one_slug).1)
    × ((es : List EventRow)
        → All (λ e. in_ids e.slug one_slug.slugs ≡ true) es
        → HasSlugs (insert_events es one_slug).1)
    × ((before : ℕ) → HasSlugs (delete_expired before one_slug).1)
    × ((slug : GoString) → HasSlugs (delete_slug slug one_slug).1)
writes-HasSlugs_example = writes-HasSlugs one_slug one_slug-HasSlugs
