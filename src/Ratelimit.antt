-- ===== src/Ratelimit.antt =====
-- internal/ratelimit/ratelimit.go: token buckets, one for each tier, under each key.
pub mod Floats
pub mod Buckets
pub mod Limits
pub mod Rate
pub mod Runs
pub mod Tests
