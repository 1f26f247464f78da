-- ===== src/Store/Integrity.antt =====
-- The slugs of the events in the tables of internal/store/store.go.
use tripflare.Store.Atomic.{Atomic, writes-Atomic}
use tripflare.Store.Select.{All-select, in_ids-select, in_ids-append, in_ids-select_ne}
use tripflare.Base.{
  Bool-cases, length, drop, All, All-imp, All-append, GoString, str_eq, str_eq_iff, Result, ok, err,
  Result-cases, ℕ, ◌≡◌, refl, sym, inl, inr, true, not, List, [], ◌∷◌, ◌++◌, append-nil,
  append_assoc, arith,
}
use tripflare.Store.Rows.{SlugRow, EventRow}
use tripflare.Store.Monad.{Db, Sql, next_fault, call, roll_back, transaction}
use tripflare.Store.Sqlite.{
  select, replace_slug, insert_slug, insert_rows, insert_events, is_expired, in_ids, delete_rows,
  delete_expired, delete_slug,
}

-- every event's slug has a row
pub record HasSlugs (db : Db) : Type 0 where
  pub rows : All (λ e. in_ids e.slug db.slugs ≡ true) db.events

-- the methods' effect on the tables where no call fails
unfoldable pub without_expired : ℕ → Db → Db
without_expired before db = record db {
  events = select (λ e. not (in_ids e.slug (select (is_expired before) db.slugs))) db.events;
  slugs = select (λ r. not (is_expired before r)) db.slugs;
}

abbrev Deleted : ℕ → ℕ → Db → Db → Type 0
Deleted before n db db' =
    (n ≡ length (select (is_expired before) db.slugs))
    × (db'.slugs ≡ (without_expired before db).slugs)
    × (db'.events ≡ (without_expired before db).events)

delete_rows_lem :
    (before n : ℕ) (db : Db)
    → (delete_rows before db).0 ≡ ok n
    → Deleted before n db (delete_rows before db).1
unfolding delete_rows without_expired
delete_rows_lem before n db h = ground arith

roll_back-Deleted :
    (before n : ℕ) (db : Db) (r : Result ℕ × Db)
    → (roll_back db r).0 ≡ ok n
    → (r.0 ≡ ok n → Deleted before n db r.1)
    → Deleted before n db (roll_back db r).1
unfolding roll_back
roll_back-Deleted before n db (ok m, db') h done = done h
roll_back-Deleted before n db (err m, db') h done = absurd cc

pub delete_expired_lem :
    (before n : ℕ) (db : Db)
    → (delete_expired before db).0 ≡ ok n
    → (n ≡ length (select (is_expired before) db.slugs))
      × ((delete_expired before db).1.slugs ≡ (without_expired before db).slugs)
      × ((delete_expired before db).1.events ≡ (without_expired before db).events)
unfolding delete_expired transaction call without_expired
delete_expired_lem before n db h = elim (Bool-cases (next_fault db.faults)) [
  | inl fails ↦ absurd (let h' = rw (fails, delete_expired) at h in cc)
  | inr works ↦
      let db' : Db = record db { faults = drop 1 db.faults } in
      rw (works, delete_expired)
        (roll_back-Deleted before n db' (delete_rows before db') (rw (works, delete_expired) at h)
          (delete_rows_lem before n db'))
]

without_expired-HasSlugs :
    (before : ℕ) (db : Db) → HasSlugs db → HasSlugs (without_expired before db)
unfolding without_expired
without_expired-HasSlugs before db h = record {
  rows =
      All-select _ db.events
        (λ e kept there. in_ids-select e.slug (is_expired before) db.slugs there (ground arith))
        h.rows;
}

without_slug : GoString → Db → Db
without_slug slug db = record db {
  events = select (λ e. not (str_eq e.slug slug)) db.events;
  slugs = select (λ r. not (str_eq r.id slug)) db.slugs;
}

delete_slug_lem :
    (slug : GoString) (db : Db)
    → (delete_slug slug db).0 ≡ ok tt
    → ((delete_slug slug db).1.slugs ≡ (without_slug slug db).slugs)
      × ((delete_slug slug db).1.events ≡ (without_slug slug db).events)
unfolding delete_slug without_slug
delete_slug_lem slug db h = ground arith

without_slug-HasSlugs : (slug : GoString) (db : Db) → HasSlugs db → HasSlugs (without_slug slug db)
unfolding without_slug
without_slug-HasSlugs slug db h = record {
  rows =
      All-select _ db.events
        (λ e kept there. rw (in_ids-select_ne e.slug slug db.slugs (ground arith)) there) h.rows;
}

pub insert_slug_lem :
    (row : SlugRow) (db : Db)
    → (insert_slug row db).0 ≡ ok tt
    → ((insert_slug row db).1.slugs ≡ replace_slug row db.slugs)
      × ((insert_slug row db).1.events ≡ db.events)
unfolding insert_slug
insert_slug_lem row db h = ground arith

in_ids-replace_slug :
    (id : GoString) (row : SlugRow) (rows : List SlugRow)
    → in_ids id rows ≡ true
    → in_ids id (replace_slug row rows) ≡ true
unfolding replace_slug in_ids
in_ids-replace_slug id row rows h =
    rw (in_ids-append id (select (λ r. not (str_eq r.id row.id)) rows) (row ∷ []))
      (elim (Bool-cases (str_eq id row.id)) [
        | inl same ↦ ground (arith, str_eq_iff id row.id, str_eq_iff row.id id)
        | inr other ↦ rw (in_ids-select_ne id row.id rows other, h)
      ])

insert_rows_lem :
    (es : List EventRow) (db : Db)
    → (insert_rows es db).0 ≡ ok tt
    → ((insert_rows es db).1.slugs ≡ db.slugs) × ((insert_rows es db).1.events ≡ db.events ++ es)
unfolding insert_rows
insert_rows_lem [] db h = (refl, sym (append-nil db.events))
insert_rows_lem (e ∷ es) db h =
    let db' : Db = record db { faults = drop 1 db.faults; events = db.events ++ e ∷ [] } in
    ground (arith, insert_rows_lem es db', append_assoc db.events (e ∷ []) es)

insert_events_lem :
    (es : List EventRow) (db : Db)
    → (insert_events es db).0 ≡ ok tt
    → ((insert_events es db).1.slugs ≡ db.slugs)
      × ((insert_events es db).1.events ≡ db.events ++ es)
unfolding insert_events
insert_events_lem [] db h = (refl, sym (append-nil db.events))
insert_events_lem (e ∷ es) db h =
    let db' : Db = record db { faults = drop 1 (drop 1 db.faults) } in
    ground (arith, insert_rows_lem (e ∷ es) db')

-- the tables are the same
abbrev pub SameTables : Db → Db → Type 0
SameTables a b = (a.slugs ≡ b.slugs) × (a.events ≡ b.events)

pub HasSlugs-same : (a b : Db) → SameTables a b → HasSlugs b → HasSlugs a
HasSlugs-same a b (slugs, events) h = record {
  rows = rw events (All-imp b.events (λ e there. rw slugs there) h.rows);
}

-- A method that is atomic keeps the property if it does so where it succeeds.
keeps_HasSlugs :
    {A : Type 0} (m : Sql A)
    → Atomic m
    → (db after : Db) → ((a : A) → (m db).0 ≡ ok a → SameTables (m db).1 after)
    → HasSlugs after
    → HasSlugs db
    → HasSlugs (m db).1
keeps_HasSlugs m atomic db after succeeds h' h = elim (Result-cases (m db).0) [
  | inl (message, e) ↦ HasSlugs-same (m db).1 db (atomic db message e) h
  | inr (a, e) ↦ HasSlugs-same (m db).1 after (succeeds a e) h'
]

-- Whichever calls of the driver fail, the writing methods keep every stored event's slug stored:
-- InsertSlug, DeleteExpired and DeleteSlug do, and InsertEvents does where the slugs of its rows
-- are stored.
pub writes-HasSlugs :
    (db : Db)
    → HasSlugs db
    → ((row : SlugRow) → HasSlugs (insert_slug row db).1)
      × ((es : List EventRow)
          → All (λ e. in_ids e.slug db.slugs ≡ true) es
          → HasSlugs (insert_events es db).1)
      × ((before : ℕ) → HasSlugs (delete_expired before db).1)
      × ((slug : GoString) → HasSlugs (delete_slug slug db).1)
writes-HasSlugs db h = (
  λ row.
      keeps_HasSlugs (insert_slug row) (writes-Atomic.0 row) db
        (record db { slugs = replace_slug row db.slugs }) (λ a e. insert_slug_lem row db e)
        (record {
          rows =
              All-imp db.events (λ e there. in_ids-replace_slug e.slug row db.slugs there) h.rows;
        })
        h,
  λ es there.
      keeps_HasSlugs (insert_events es) (writes-Atomic.1 es) db
        (record db { events = db.events ++ es }) (λ a e. insert_events_lem es db e)
        (record {
          rows = All-append (λ e. in_ids e.slug db.slugs ≡ true) db.events es h.rows there;
        })
        h,
  λ before.
      keeps_HasSlugs (delete_expired before) (writes-Atomic.2 before) db (without_expired before db)
        (λ n e. let r = delete_expired_lem before n db e in (r.1, r.2))
        (without_expired-HasSlugs before db h) h,
  λ slug.
      keeps_HasSlugs (delete_slug slug) (writes-Atomic.3 slug) db (without_slug slug db)
        (λ a e. delete_slug_lem slug db e) (without_slug-HasSlugs slug db h) h,
)
