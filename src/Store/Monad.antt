-- ===== src/Store/Monad.antt =====
-- Statements on the database: what database/sql does for internal/store/store.go.
-- Each call of the driver may fail: `faults` says of the coming calls which do (none, once it is
-- empty).
use tripflare.Base.{
  if◌then◌else◌, drop, Result, ok, err, Fallible, ℕ, Bool, false, String, List, [], ◌∷◌,
}
use tripflare.Store.Rows.{SlugRow, EventRow}

-- the orders in which the queries for slugs and for events, which have no ORDER BY, give their rows
pub data Orders : Type 0 where
  orders_of : List ℕ → List ℕ → Orders

abbrev pub slug_order : Orders → List ℕ
slug_order (orders_of slugs events) = slugs

abbrev pub event_order : Orders → List ℕ
event_order (orders_of slugs events) = events

pub record Db : Type 0 where
  pub slugs : List SlugRow
  pub events : List EventRow
  pub faults : List Bool
  pub orders : Orders

abbrev pub Sql : Type 0 → Type 0
Sql A = Fallible Db A

abbrev pub next_fault : List Bool → Bool
next_fault [] = false
next_fault (b ∷ bs) = b

-- one call of the driver, with the error that the caller returns if it fails
unfoldable pub call : String → Sql (Unit {0})
call message db =
    let db' : Db = record db { faults = drop 1 db.faults } in
    if next_fault db.faults then (err message, db') else (ok tt, db')

-- a CHECK constraint of the schema
unfoldable pub check : Bool → String → Sql (Unit {0})
check passes message db = if passes then (ok tt, db) else (err message, db)

unfoldable pub write : (Db → Db) → Sql (Unit {0})
write f db = (ok tt, f db)

unfoldable pub roll_back : {A : Type 0} → Db → Result A × Db → Result A × Db
roll_back before (ok a, db) = (ok a, db)
roll_back before (err m, db) = (err m, record db { slugs = before.slugs; events = before.events })

-- BeginTx with the deferred Rollback, which does nothing after a commit
unfoldable pub transaction : {A : Type 0} → Sql A → Sql A
unfolding roll_back
transaction m db = roll_back db (m db)
