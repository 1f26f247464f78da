-- ===== src/Store/Atomic.antt =====
-- The errors of the writing methods of internal/store/store.go.
use tripflare.Base.{
  Bool-cases, drop, GoString, Result, ok, err, ◌>>◌, ℕ, ◌≡◌, refl, inl, inr, String, List, [], ◌∷◌,
  arith,
}
use tripflare.Store.Rows.{SlugRow, EventRow}
use tripflare.Store.Monad.{Db, Sql, next_fault, call, roll_back, transaction}
use tripflare.Store.Sqlite.{insert_slug, insert_events, delete_expired, delete_slug}

-- an error leaves the tables as they were
abbrev pub Atomic : {A : Type 0} → Sql A → Type 0
Atomic m =
    (db : Db) (message : String)
    → (m db).0 ≡ err message
    → ((m db).1.slugs ≡ db.slugs) × ((m db).1.events ≡ db.events)

roll_back-Atomic :
    {A : Type 0} (db : Db) (r : Result A × Db) (message : String)
    → (roll_back db r).0 ≡ err message
    → ((roll_back db r).1.slugs ≡ db.slugs) × ((roll_back db r).1.events ≡ db.events)
unfolding roll_back
roll_back-Atomic db (ok a, db') message h = cc
roll_back-Atomic db (err m, db') message h = (refl, refl)

transaction-Atomic : {A : Type 0} (m : Sql A) → Atomic (transaction m)
unfolding transaction
transaction-Atomic m db message h = roll_back-Atomic db (m db) message h

-- a failing call before a transaction changes nothing
call-Atomic : {A : Type 0} (message : String) (m : Sql A) → Atomic m → Atomic (call message >> m)
unfolding call
call-Atomic message m atomic db message' h = elim (Bool-cases (next_fault db.faults)) [
  | inl fault ↦ rw (fault, call) (refl, refl)
  | inr fine ↦
      let db' : Db = record db { faults = drop 1 db.faults } in
      rw (fine, call) (atomic db' message' (rw (fine, call) at h))
]

insert_slug-Atomic : (row : SlugRow) → Atomic (insert_slug row)
unfolding insert_slug
insert_slug-Atomic row db message h = ground arith

insert_events-Atomic : (es : List EventRow) → Atomic (insert_events es)
unfolding insert_events
insert_events-Atomic [] db message h = cc
insert_events-Atomic (e ∷ es) db message h =
    call-Atomic "begin tx" _ (transaction-Atomic _) db message h

delete_expired-Atomic : (before : ℕ) → Atomic (delete_expired before)
unfolding delete_expired
delete_expired-Atomic before = call-Atomic "begin delete tx" _ (transaction-Atomic _)

delete_slug-Atomic : (slug : GoString) → Atomic (delete_slug slug)
unfolding delete_slug
delete_slug-Atomic slug = call-Atomic "begin delete slug tx" _ (transaction-Atomic _)

-- Whichever calls of the driver fail: if InsertSlug, InsertEvents, DeleteExpired or DeleteSlug
-- returns an error, then both tables are as they were before the call.
pub writes-Atomic :
    ((row : SlugRow) → Atomic (insert_slug row))
    × ((es : List EventRow) → Atomic (insert_events es))
    × ((before : ℕ) → Atomic (delete_expired before))
    × ((slug : GoString) → Atomic (delete_slug slug))
writes-Atomic =
    (insert_slug-Atomic, insert_events-Atomic, delete_expired-Atomic, delete_slug-Atomic)
