-- ===== src/Store.antt =====
-- internal/store: the persistence interface, and its implementation over SQLite.
pub mod Rows
pub mod Monad
pub mod Sqlite
pub mod Atomic
pub mod Select
pub mod Integrity
pub mod Reload
pub mod Tests
