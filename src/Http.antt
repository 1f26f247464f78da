-- ===== src/Http.antt =====
-- internal/httpserver: which requests reach which handler, who may see and change which slug, and
-- what the handlers do to the registry and the store.
pub mod Types
pub mod Events
pub mod Listen
pub mod Handlers
pub mod Routes
pub mod Others
pub mod Credentials
pub mod Access
pub mod Keeping
pub mod Tracking
pub mod Serving
pub mod Stream
pub mod Tests
