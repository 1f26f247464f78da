-- ===== src/Acme/Account.antt =====
-- internal/acme/user.go: the account at the certificate authority and its two files.
use tripflare.Base.{
  GoString, bytes, str_eq, join, Result, ok, err, Fallible, pure, ◌>>=◌, ◌>>◌, Bool, false, not,
  none, some, String, [],
}
use tripflare.Acme.Files.{Disk, contents, not_exist, unreadable, read_file, write_file}
use tripflare.Acme.Types.{Key, AcmeUser, Crypto, Attempt, Svc, wrap, cert_dir}

unfoldable pub registered : AcmeUser → Bool
registered u = elim u.registration [ none ↦ false | some a ↦ not (str_eq a.location []) ]

abbrev pub account_key : Svc → GoString
account_key s = join (cert_dir s) (bytes "account.key")

abbrev pub account_json : Svc → GoString
account_json s = join (cert_dir s) (bytes "account.json")

-- What loadUser returns: errors.Is(err, fs.ErrNotExist) holds of `missing` alone.
pub data Loaded : Type 0 where
  loaded : AcmeUser → Loaded
  missing : Loaded
  broken : String → Loaded

module _ (lib : Crypto) where
  -- the part of loadUser after the key
  unfoldable pub with_registration : Attempt → GoString → AcmeUser → Disk → AcmeUser
  with_registration att user_file user disk = elim (read_file att.denied user_file disk) [
    | contents user_data ↦ lib.unmarshal user_data user
    | not_exist ↦ user
    | unreadable ↦ user
  ]

  unfoldable pub decode_key : GoString → Result Key
  decode_key key_data = elim (lib.pem_decode key_data) [
    | none ↦ err "failed to decode PEM"
    | some block ↦ wrap "parse account key" (lib.parse_ec_private_key block)
  ]

  unfoldable pub load_user : Attempt → Svc → Disk → Loaded
  load_user att s disk = elim (read_file att.denied (account_key s) disk) [
    | not_exist ↦ missing
    | unreadable ↦ broken "read key file"
    | contents key_data ↦ elim (decode_key key_data) [
      | err m ↦ broken m
      | ok key ↦
          let user : AcmeUser = record { email = s.email; registration = none; key = key } in
          loaded (with_registration att (account_json s) user disk)
    ]
  ]

  unfoldable pub create_user : Attempt → Svc → Fallible Disk AcmeUser
  create_user att s = do
    key ← λ disk. (wrap "generate key" att.generate_key, disk)
    key_bytes ← λ disk. (wrap "marshal key" (lib.marshal_ec_private_key key), disk)
    write_file att.written "write account key" (account_key s)
        (lib.pem_encode (bytes "EC PRIVATE KEY") key_bytes)
    pure (record { email = s.email; registration = none; key = key })

  unfoldable pub get_or_create_user : Attempt → Svc → Fallible Disk AcmeUser
  get_or_create_user att s disk = elim (load_user att s disk) [
    | loaded user ↦ (ok user, disk)
    | broken m ↦ (err "load existing account key", disk)
    | missing ↦ create_user att s disk
  ]

  -- its errors are only logged
  unfoldable pub save_user : Attempt → Svc → AcmeUser → Disk → Disk
  save_user att s user disk = elim (lib.marshal user) [
    | err m ↦ disk
    | ok user_data ↦
        (write_file att.written "save user registration" (account_json s) user_data disk).1
  ]
