-- ===== src/Registry.antt =====
-- internal/registry: the in-memory registry, its persistence and the properties of both.
pub mod Types
pub mod SlugId
pub mod Channels
pub mod Entry
pub mod Ring
pub mod Subscribers
pub mod Methods
pub mod Persistence
pub mod Invariant
pub mod Recording
pub mod Listing
pub mod Flushing
pub mod Reordered
pub mod Restored
pub mod Revived
pub mod RestartTests
pub mod Tests
