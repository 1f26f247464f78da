-- ===== src/Config/Tests.antt =====
-- A configuration (internal/config/config.go) that Load accepts.
use tripflare.Config.Loaded.{IsComplete}
use tripflare.Config.{Config, defaults}
use tripflare.Base.{
  if◌then◌else◌, GoString, bytes, str_eq, has_prefix, refl, Bool, Option, some, [], ◌∷◌,
}

abbrev is_bcrypt : GoString → Bool
is_bcrypt hash = has_prefix hash (bytes "$2")

abbrev parsed : Config
parsed = record defaults {
  domain = bytes "a.io";
  external_ip = bytes "1.2.3.4";
  auth = record { username = bytes "bob"; password_hash = bytes "$2a$10$x" } ∷ [];
}

abbrev read_file : GoString → Option GoString
read_file path = some []

abbrev unmarshal : GoString → Config → Option Config
unmarshal text cfg = some parsed

abbrev getenv : GoString → GoString
getenv name = if str_eq name (bytes "TRIPFLARE_DOMAIN") then bytes "b.io" else []

abbrev loaded : Config
loaded = record parsed { domain = bytes "b.io" }

parsed-IsComplete : IsComplete is_bcrypt parsed
unfolding str_eq has_prefix defaults
parsed-IsComplete = record {
  domain = refl;
  external_ip = refl;
  email = refl;
  some_user = refl;
  users = (record { named = refl; hashed = refl; bcrypted = refl }, tt);
}
