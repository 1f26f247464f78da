-- ===== src/Registry/Types.antt =====
-- The data of internal/registry: slugs, events, subscribers and the service's state.
-- An instant is a number of nanoseconds since Go's zero time, a duration a number of nanoseconds.
use tripflare.Json.{RawMessage}
use tripflare.Base.{GoString, Dict, ℕ, Bool, List}

pub record Slug : Type 0 where
  pub id : GoString
  pub owner : GoString
  pub created_at : ℕ
  pub expires_at : ℕ

pub record Event : Type 0 where
  pub type : GoString
  pub source_ip : GoString
  pub timestamp : ℕ
  pub payload : RawMessage

-- A channel of events: what is buffered, oldest first, and whether it has been closed.
pub record Chan : Type 0 where
  pub buffer : List Event
  pub closed : Bool

-- Channels by the number that stands for their address.
abbrev pub Chans : Type 0
Chans = ℕ → Chan

-- *slugEntry: `addr` stands for the pointer, a subscriber is the number of its channel.
pub record SlugEntry : Type 0 where
  pub addr : ℕ
  pub slug : Slug
  pub events : List Event
  pub subscribers : List ℕ
  pub dirty : Bool
  pub flushed_count : ℕ
  pub evicted_during_flush : ℕ

-- svc, without its mutex: each method is one step. `next` is the first address not yet in use.
pub record Svc : Type 0 where
  pub slugs : Dict SlugEntry
  pub max_events_per_slug : ℕ
  pub slug_ttl : ℕ
  pub chans : Chans
  pub next : ℕ
