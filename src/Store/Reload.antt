-- ===== src/Store/Reload.antt =====
-- A database of internal/store/store.go whose driver does not fail.
use tripflare.Base.{[]}
use tripflare.Store.Monad.{Db}

abbrev pub quiet : Db → Db
quiet db = record db { faults = [] }
