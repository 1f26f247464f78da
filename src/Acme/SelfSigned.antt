-- ===== src/Acme/SelfSigned.antt =====
-- internal/acme/selfsigned.go
use tripflare.Base.{GoString, bytes, Result, ok, err, ℕ, ◌+◌, ◌-◌, ◌*◌, some, [], ◌∷◌, ◌++◌}
use tripflare.Acme.Types.{Key, Certificate, Template, Crypto}

-- time.Hour, in nanoseconds
abbrev pub hour : ℕ
hour = 3_600_000_000_000

unfoldable pub template : GoString → ℕ → ℕ → Template
template domain serial now = record {
  serial = serial;
  common_name = bytes "*." ++ domain;
  dns_names = (bytes "*." ++ domain) ∷ domain ∷ [];
  not_before = now - 1 * hour;
  not_after = now + 10 * 365 * 24 * hour;
}

-- generateSelfSigned, on what the random source gives for the key and for the serial number
unfoldable pub generate_self_signed :
    Crypto → GoString → Result Key → Result ℕ → ℕ → Result Certificate
generate_self_signed lib domain new_key new_serial now = elim new_key [
  | err m ↦ err "generate key"
  | ok key ↦ elim new_serial [
    | err m ↦ err "generate serial"
    | ok serial ↦ elim (lib.create_certificate (template domain serial now) key) [
      | err m ↦ err "create certificate"
      | ok cert_der ↦ elim (lib.parse_certificate cert_der) [
        | err m ↦ err "parse certificate"
        | ok leaf ↦ ok (record { first = cert_der; rest = []; private_key = key; leaf = some leaf })
      ]
    ]
  ]
]
