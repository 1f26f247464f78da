-- ===== src/Config.antt =====
-- internal/config/config.go: defaults, the environment's overrides and the checks of Load.
pub mod Loaded
pub mod Tests
use tripflare.Base.{
  if◌then◌else◌, GoString, bytes, str_eq, ℕ, ◌+◌, ◌*◌, ◌⊎◌, inl, inr, Bool, true, false, ◌&&◌, ◌||◌,
  not, Option, none, some, List, [], ◌∷◌,
}

pub record AuthEntry : Type 0 where
  pub username : GoString
  pub password_hash : GoString

pub record LimitsConfig : Type 0 where
  pub max_events_per_slug : ℕ
  pub slug_ttl : ℕ
  pub flush_interval : ℕ
  pub max_hits_per_slug_per_minute : ℕ

pub record ListenConfig : Type 0 where
  pub dns : GoString
  pub http : GoString
  pub https : GoString

pub record AcmeConfig : Type 0 where
  pub enabled : Bool
  pub email : GoString
  pub staging : Bool

pub record Config : Type 0 where
  pub domain : GoString
  pub external_ip : GoString
  pub nameservers : List GoString
  pub log_format : GoString
  pub listen : ListenConfig
  pub sqlite_path : GoString
  pub cert_path : GoString
  pub acme : AcmeConfig
  pub auth : List AuthEntry
  pub limits : LimitsConfig
  pub geoip_path : GoString

-- the errors of Load, by their messages
pub data ConfigError : Type 0 where
  cannot_read cannot_parse domain_required external_ip_required email_required auth_required :
      ConfigError
  username_required hash_required hash_not_bcrypt : ℕ → ConfigError

unfoldable pub default_limits : LimitsConfig
default_limits = record {
  max_events_per_slug = 500;
  slug_ttl = 12 * 3600 * 1_000_000_000;
  flush_interval = 30 * 1_000_000_000;
  max_hits_per_slug_per_minute = 60;
}

unfoldable pub defaults : Config
unfolding default_limits
defaults = record {
  domain = [];
  external_ip = [];
  nameservers = [];
  log_format = [];
  listen = record { dns = bytes ":53"; http = bytes ":80"; https = bytes ":443" };
  sqlite_path = bytes "./tripflare.db";
  cert_path = bytes "./certs";
  acme = record { enabled = false; email = []; staging = true };
  auth = [];
  limits = default_limits;
  geoip_path = [];
}

-- if v := os.Getenv(name); v != ""
unfoldable pub overridden : GoString → GoString → GoString
overridden v old = if str_eq v [] then old else v

-- if v := os.Getenv(name); v == "true" || v == "1"
unfoldable pub switched_on : GoString → Bool → Bool
switched_on v old = if str_eq v (bytes "true") || str_eq v (bytes "1") then true else old

-- os.Getenv is `getenv`, which is empty for a variable that is not set
unfoldable pub apply_env_overrides : (GoString → GoString) → Config → Config
apply_env_overrides getenv cfg = record cfg {
  domain = overridden (getenv (bytes "TRIPFLARE_DOMAIN")) cfg.domain;
  external_ip = overridden (getenv (bytes "TRIPFLARE_EXTERNAL_IP")) cfg.external_ip;
  sqlite_path = overridden (getenv (bytes "TRIPFLARE_SQLITE_PATH")) cfg.sqlite_path;
  cert_path = overridden (getenv (bytes "TRIPFLARE_CERT_PATH")) cfg.cert_path;
  acme = record cfg.acme {
    email = overridden (getenv (bytes "TRIPFLARE_ACME_EMAIL")) cfg.acme.email;
    enabled = switched_on (getenv (bytes "TRIPFLARE_ACME_ENABLED")) cfg.acme.enabled;
  };
  geoip_path = overridden (getenv (bytes "TRIPFLARE_GEOIP_PATH")) cfg.geoip_path;
}

-- len(cfg.Auth) == 0
abbrev pub is_empty : List AuthEntry → Bool
is_empty [] = true
is_empty (entry ∷ entries) = false

-- `is_bcrypt` says whether bcrypt.Cost accepts a hash.
module _ (is_bcrypt : GoString → Bool) where
  -- the loop of validate, from the entry of index i
  unfoldable pub validate_auth : ℕ → List AuthEntry → Option ConfigError
  validate_auth i [] = none
  validate_auth i (entry ∷ entries) =
      let rest = validate_auth (i + 1) entries in
      if str_eq entry.username []
      then some (username_required i)
      else if str_eq entry.password_hash []
      then some (hash_required i)
      else if not (is_bcrypt entry.password_hash)
      then some (hash_not_bcrypt i)
      else rest

  unfoldable pub validate : Config → Option ConfigError
  unfolding validate_auth
  validate cfg =
      if str_eq cfg.domain []
      then some domain_required
      else if str_eq cfg.external_ip []
      then some external_ip_required
      else if cfg.acme.enabled && str_eq cfg.acme.email []
      then some email_required
      else if is_empty cfg.auth
      then some auth_required
      else validate_auth 0 cfg.auth

  -- Load: `read_file` is os.ReadFile, and `unmarshal` yaml.Unmarshal of a text into a Config.
  unfoldable pub load :
      (GoString → Option GoString)
      → (GoString → Config → Option Config)
      → (GoString → GoString)
      → GoString
      → Config ⊎ ConfigError
  load read_file unmarshal getenv path = elim (read_file path) [
    | none ↦ inr cannot_read
    | some text ↦ elim (unmarshal text defaults) [
      | none ↦ inr cannot_parse
      | some cfg ↦
          let cfg' = apply_env_overrides getenv cfg in
          elim (validate cfg') [ none ↦ inl cfg' | some e ↦ inr e ]
    ]
  ]
