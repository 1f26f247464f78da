-- ===== src/Store/Sqlite.antt =====
-- The methods of internal/store/store.go. The SQL statements are read on tables that are lists of
-- rows; a query gives its rows in an order of its own.
use tripflare.Base.{
  ltb, leb, if◌then◌else◌, length, GoString, str_eq, ok, pure, ◌>>=◌, ◌>>◌, ℕ, zero, suc, Bool,
  false, ◌||◌, not, List, [], ◌∷◌, ◌++◌,
}
use tripflare.Store.Rows.{SlugRow, EventRow, Service}
use tripflare.Store.Monad.{slug_order, event_order, Db, Sql, call, check, write, transaction}

-- the rows of a table that a WHERE clause selects
unfoldable pub select {ℓ} : {A : Type ℓ} → (A → Bool) → List A → List A
select p [] = []
select p (x ∷ xs) = let rest = select p xs in if p x then x ∷ rest else rest

-- x before the n-th of the others, or at their end
unfoldable pub place_at {ℓ} : {A : Type ℓ} → ℕ → A → List A → List A
place_at zero x ys = x ∷ ys
place_at (suc n) x [] = x ∷ []
place_at (suc n) x (y ∷ ys) = y ∷ place_at n x ys

-- rows in an order of the engine's choice: for each row, where it goes among those after it. Every
-- order of the rows is one of these.
unfoldable pub rearrange {ℓ} : {A : Type ℓ} → List ℕ → List A → List A
rearrange ns [] = []
rearrange [] (x ∷ xs) = x ∷ xs
rearrange (n ∷ ns) (x ∷ xs) = place_at n x (rearrange ns xs)

-- INSERT OR REPLACE: a row with the same primary key is deleted first
unfoldable pub replace_slug : SlugRow → List SlugRow → List SlugRow
unfolding select
replace_slug row rows = select (λ r. not (str_eq r.id row.id)) rows ++ row ∷ []

abbrev pub max_slug_id : ℕ
max_slug_id = 64

abbrev pub max_event_slug : ℕ
max_event_slug = 128

unfoldable pub insert_slug : SlugRow → Sql (Unit {0})
unfolding call check write replace_slug
insert_slug row = do
  call "insert slug"
  check (leb (length row.id) max_slug_id) "insert slug"
  write (λ db. record db { slugs = replace_slug row db.slugs })

-- the loop over the events, inside the transaction
unfoldable pub insert_rows : List EventRow → Sql (Unit {0})
unfolding call check write
insert_rows [] = pure tt
insert_rows (e ∷ es) = do
  call "insert event"
  check (leb (length e.slug) max_event_slug) "insert event"
  write (λ db. record db { events = db.events ++ e ∷ [] })
  insert_rows es

unfoldable pub insert_events : List EventRow → Sql (Unit {0})
unfolding call insert_rows transaction
insert_events [] = pure tt
insert_events (e ∷ es) = do
  call "begin tx"
  transaction (do call "prepare insert events"; insert_rows (e ∷ es); call "commit events")

-- a query, the scans of its rows and rows.Err
unfoldable pub load_slugs : ℕ → Sql (List SlugRow)
unfolding call select
load_slugs since = do
  call "query slugs"
  λ db. (ok (rearrange (slug_order db.orders) (select (λ r. ltb since r.expires_at) db.slugs)), db)

unfoldable pub load_events : ℕ → Sql (List EventRow)
unfolding call select
load_events since = do
  call "query events"
  λ db. (ok (rearrange (event_order db.orders) (select (λ r. ltb since r.timestamp) db.events)), db)

unfoldable pub is_expired : ℕ → SlugRow → Bool
is_expired before r = ltb r.expires_at before

-- slug IN (SELECT id FROM rows)
unfoldable pub in_ids : GoString → List SlugRow → Bool
in_ids slug [] = false
in_ids slug (r ∷ rows) = str_eq r.id slug || in_ids slug rows

-- DeleteExpired inside its transaction
unfoldable pub delete_rows : ℕ → Sql ℕ
unfolding call write select in_ids is_expired
delete_rows before = do
  call "delete expired events"
  write (λ db. record db {
    events = select (λ e. not (in_ids e.slug (select (is_expired before) db.slugs))) db.events;
  })
  call "delete expired slugs"
  n ← λ db. (ok (length (select (is_expired before) db.slugs)), db)
  write (λ db. record db { slugs = select (λ r. not (is_expired before r)) db.slugs })
  call "rows affected"
  call "commit delete"
  pure n

unfoldable pub delete_expired : ℕ → Sql ℕ
unfolding call transaction delete_rows
delete_expired before = do call "begin delete tx"; transaction (delete_rows before)

unfoldable pub delete_slug : GoString → Sql (Unit {0})
unfolding call transaction write select
delete_slug slug = do
  call "begin delete slug tx"
  transaction (do
    call "delete events for slug"
    write (λ db. record db { events = select (λ e. not (str_eq e.slug slug)) db.events })
    call "delete slug"
    write (λ db. record db { slugs = select (λ r. not (str_eq r.id slug)) db.slugs })
    call "commit delete slug")

-- the implementation as a store.Service
unfoldable pub sqlite : Service Db
unfolding insert_events insert_slug load_slugs load_events delete_expired delete_slug
sqlite = record {
  insert_events = insert_events;
  insert_slug = insert_slug;
  load_slugs = load_slugs;
  load_events = load_events;
  delete_expired = delete_expired;
  delete_slug = delete_slug;
}
