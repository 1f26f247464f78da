-- ===== src/Config/Loaded.antt =====
-- What Load of internal/config accepts.
use tripflare.Base.{
  All, GoString, bytes, str_eq, ℕ, ◌+◌, ◌≡◌, refl, ◌≢◌, ◌↔◌, ◌⊎◌, Bool, true, false, ◌&&◌, none,
  List, [], ◌∷◌, arith,
}
use tripflare.Config.{AuthEntry, Config, is_empty, validate_auth, validate}

-- a setting after its environment variable has been read: that variable's text, unless it is empty
abbrev pub Set : GoString → GoString → GoString → Type 0
Set v old cfg = ((v ≡ []) × (cfg ≡ old)) ⊎ ((v ≢ []) × (cfg ≡ v))

abbrev SwitchesOn : GoString → Type 0
SwitchesOn v = (v ≡ bytes "true") ⊎ (v ≡ bytes "1")

-- a switch after that
abbrev pub Switched : GoString → Bool → Bool → Type 0
Switched v old cfg = (SwitchesOn v × (cfg ≡ true)) ⊎ ((¬ SwitchesOn v) × (cfg ≡ old))

-- The settings with the environment's: TRIPFLARE_ and the name of each of seven, and all others as
-- they were.
pub record IsOverridden (getenv : GoString → GoString) (old cfg : Config) : Type 0 where
  pub domain : Set (getenv (bytes "TRIPFLARE_DOMAIN")) old.domain cfg.domain
  pub external_ip : Set (getenv (bytes "TRIPFLARE_EXTERNAL_IP")) old.external_ip cfg.external_ip
  pub sqlite_path : Set (getenv (bytes "TRIPFLARE_SQLITE_PATH")) old.sqlite_path cfg.sqlite_path
  pub cert_path : Set (getenv (bytes "TRIPFLARE_CERT_PATH")) old.cert_path cfg.cert_path
  pub email : Set (getenv (bytes "TRIPFLARE_ACME_EMAIL")) old.acme.email cfg.acme.email
  pub enabled : Switched (getenv (bytes "TRIPFLARE_ACME_ENABLED")) old.acme.enabled cfg.acme.enabled
  pub geoip_path : Set (getenv (bytes "TRIPFLARE_GEOIP_PATH")) old.geoip_path cfg.geoip_path
  pub nameservers : cfg.nameservers ≡ old.nameservers
  pub log_format : cfg.log_format ≡ old.log_format
  pub listen : cfg.listen ≡ old.listen
  pub staging : cfg.acme.staging ≡ old.acme.staging
  pub auth : cfg.auth ≡ old.auth
  pub limits : cfg.limits ≡ old.limits

module _ (is_bcrypt : GoString → Bool) where
  pub record IsUser (entry : AuthEntry) : Type 0 where
    pub named : str_eq entry.username [] ≡ false
    pub hashed : str_eq entry.password_hash [] ≡ false
    pub bcrypted : is_bcrypt entry.password_hash ≡ true

  -- the settings that Load asks for
  pub record IsComplete (cfg : Config) : Type 0 where
    pub domain : str_eq cfg.domain [] ≡ false
    pub external_ip : str_eq cfg.external_ip [] ≡ false
    pub email : cfg.acme.enabled && str_eq cfg.acme.email [] ≡ false
    pub some_user : is_empty cfg.auth ≡ false
    pub users : All IsUser cfg.auth

  validate_auth-users :
      (i : ℕ) (entries : List AuthEntry)
      → validate_auth is_bcrypt i entries ≡ none
      → All IsUser entries
  unfolding validate_auth
  validate_auth-users i [] h = tt
  validate_auth-users i (entry ∷ entries) h = (
    record { named = ground arith; hashed = ground arith; bcrypted = ground arith },
    validate_auth-users (i + 1) entries (ground arith),
  )

  validate_auth_of_users :
      (i : ℕ) (entries : List AuthEntry)
      → All IsUser entries
      → validate_auth is_bcrypt i entries ≡ none
  unfolding validate_auth
  validate_auth_of_users i [] h = refl
  validate_auth_of_users i (entry ∷ entries) (u, h) =
      rw (u.named, u.hashed, u.bcrypted) (validate_auth_of_users (i + 1) entries h)

  -- validate accepts a configuration exactly where the domain and the address are given, an e-mail
  -- address if ACME is enabled, and one user at least, each of them with a name and a bcrypt hash.
  pub validate_iff : (cfg : Config) → (validate is_bcrypt cfg ≡ none) ↔ IsComplete cfg
  unfolding validate
  validate_iff cfg = (
    λ h. record {
      domain = ground arith;
      external_ip = ground arith;
      email = ground arith;
      some_user = ground arith;
      users = validate_auth-users 0 cfg.auth (ground arith);
    },
    λ u.
        rw (u.domain, u.external_ip, u.email, u.some_user)
          (validate_auth_of_users 0 cfg.auth u.users),
  )
