-- ===== src/Store/Rows.antt =====
-- The rows of internal/store/store.go and the part of its Service that the registry calls.
use tripflare.Json.{RawMessage}
use tripflare.Base.{GoString, Result, ℕ, List}

pub record SlugRow : Type 0 where
  pub id : GoString
  pub owner : GoString
  pub created_at : ℕ
  pub expires_at : ℕ

pub record EventRow : Type 0 where
  pub slug : GoString
  pub type : GoString
  pub source_ip : GoString
  pub timestamp : ℕ
  pub payload : RawMessage

-- store.Service over its state S, without Close.
pub record Service (S : Type 0) : Type 0 where
  pub insert_events : List EventRow → S → Result (Unit {0}) × S
  pub insert_slug : SlugRow → S → Result (Unit {0}) × S
  pub load_slugs : ℕ → S → Result (List SlugRow) × S
  pub load_events : ℕ → S → Result (List EventRow) × S
  pub delete_expired : ℕ → S → Result ℕ × S
  pub delete_slug : GoString → S → Result (Unit {0}) × S
