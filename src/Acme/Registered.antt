-- ===== src/Acme/Registered.antt =====
-- internal/acme/user.go: the account after an attempt that succeeded.

use tripflare.Acme.Paths.{str_eq-join}
use tripflare.Acme.Good.{IsGood}
use tripflare.Acme.Keys.{IsFaithful, KeyUsable}
use tripflare.Base.{
  Option-cases, GoString, bytes, str_eq, str_eq_refl, lookup, insert, lookup-insert, ok, err,
  Result-cases, ℕ, ◌≡◌, refl, ap, ◌∙◌, inl, inr, Bool, true, false, Option, none, some, [], arith,
}
use tripflare.Acme.Files.{Disk, Read, contents, not_exist, unreadable, read_file, write_file}
use tripflare.Acme.Types.{Key, Account, AcmeUser, Crypto, Attempt, Svc, wrap, cert_dir}
use tripflare.Acme.Account.{
  registered, account_key, account_json, Loaded, loaded, missing, broken, with_registration,
  decode_key, load_user, create_user, get_or_create_user,
}

-- An account that the authority gives has a location, and encoding/json reads the one that it wrote.
pub record KeepsAccounts (lib : Crypto) (att : Attempt) : Type 0 where
  pub located :
      (user : AcmeUser) (a : Account) → att.register user ≡ ok a → str_eq a.location [] ≡ false
  pub saved :
      (user : AcmeUser) (a : Account)
      → att.register user ≡ ok a
      → (data_ : GoString) × ((lib.marshal (record user { registration = some a }) ≡ ok data_)
          × ((other_user : AcmeUser) → (lib.unmarshal data_ other_user).registration ≡ some a))

-- os.ReadFile of a file that can be read
abbrev pub read_of : Option GoString → Read
read_of none = not_exist
read_of (some data_) = contents data_

read_file_lem :
    (denied : GoString → Bool) (path : GoString) (disk : Disk)
    → denied path ≡ false
    → read_file denied path disk ≡ read_of (lookup path disk)
unfolding read_file
read_file_lem denied path disk readable = ground arith

module _ (lib : Crypto) where
  abbrev pub with_read : Read → AcmeUser → AcmeUser
  with_read (contents data_) user = lib.unmarshal data_ user
  with_read not_exist user = user
  with_read unreadable user = user

  -- loadUser on what the two files give
  abbrev pub loads : GoString → Read → Read → Loaded
  loads email key_read user_read = elim key_read [
    | not_exist ↦ missing
    | unreadable ↦ broken "read key file"
    | contents key_data ↦ elim (decode_key lib key_data) [
      | err m ↦ broken m
      | ok key ↦
          loaded (with_read user_read (record { email = email; registration = none; key = key }))
    ]
  ]

  abbrev pub on_file : GoString → Option GoString → Option GoString → Loaded
  on_file email key_data user_data = loads email (read_of key_data) (read_of user_data)

  with_registration_lem :
      (att : Attempt) (path : GoString) (user : AcmeUser) (disk : Disk)
      → with_registration lib att path user disk ≡ with_read (read_file att.denied path disk) user
  unfolding with_registration
  with_registration_lem att path user disk = ground arith

  pub load_user_lem :
      (att : Attempt) (s : Svc) (disk : Disk)
      → ((path : GoString) → att.denied path ≡ false)
      → load_user lib att s disk
        ≡ on_file s.email (lookup (account_key s) disk) (lookup (account_json s) disk)
  unfolding load_user
  load_user_lem att s disk readable =
      let key_read = read_file_lem att.denied (account_key s) disk (readable _) in
      elim (Option-cases (lookup (account_key s) disk)) [
        | inl absent ↦ rw (key_read, load_user) (rw absent)
        | inr (key_data, there) ↦ elim (Result-cases (decode_key lib key_data)) [
          | inl (m, e) ↦ rw (key_read, load_user) (rw there (rw (e, loads)))
          | inr (key, e) ↦
              let user : AcmeUser = record { email = s.email; registration = none; key = key } in
              rw (key_read, load_user)
                (rw there (
                  rw (e, loads)
                    (ap loaded (
                      with_registration_lem att (account_json s) user disk
                      ∙ ap (λ r. with_read r user)
                          (read_file_lem att.denied (account_json s) disk (readable _))))))
        ]
      ]

  -- the account key can be read back, and a registered user is the one that is read back
  abbrev pub Recorded : Svc → AcmeUser → Disk → Type 0
  Recorded s user disk =
      (key_data : GoString) × ((key : Key) × ((lookup (account_key s) disk ≡ some key_data)
          × ((decode_key lib key_data ≡ ok key)
              × (registered user ≡ true
                  → on_file s.email (lookup (account_key s) disk) (lookup (account_json s) disk)
                    ≡ loaded user))))

  unregistered :
      (email : GoString) (key : Key)
      → registered (record { email = email; registration = none; key = key }) ≡ true
      → ⊥
  unfolding registered
  unregistered email key h = cc

  create_user_lem :
      (t : ℕ) (att : Attempt) (s : Svc) (disk : Disk) (good : IsGood lib t att)
      → create_user lib att s disk ≡ (
        ok (record { email = s.email; registration = none; key = good.key }),
        insert (account_key s) (lib.pem_encode (bytes "EC PRIVATE KEY") good.key_bytes) disk,
      )
  unfolding create_user wrap write_file
  create_user_lem t att s disk good =
      rw (good.generated, create_user)
        (rw good.marshalled (rw (good.writable (account_key s), write_file)))

  pub get_or_create_user-Recorded :
      (t : ℕ) (att : Attempt) (s : Svc) (disk : Disk)
      → IsFaithful lib
      → IsGood lib t att
      → KeyUsable lib s disk
      → let r = get_or_create_user lib att s disk in
        (user : AcmeUser) × ((r.0 ≡ ok user) × Recorded s user r.1)
  unfolding get_or_create_user decode_key wrap
  get_or_create_user-Recorded t att s disk faithful good usable =
      let read = load_user_lem att s disk good.readable in
      let key_pem = lib.pem_encode (bytes "EC PRIVATE KEY") good.key_bytes in
      let put : lookup (account_key s) (insert (account_key s) key_pem disk) ≡ some key_pem =
        rw (
          lookup-insert (account_key s) (account_key s) key_pem disk,
          str_eq_refl (account_key s),
        ) in
      let decoded : decode_key lib key_pem ≡ ok good.key =
        rw (faithful.pem (bytes "EC PRIVATE KEY") good.key_bytes, decode_key)
          (rw (faithful.ec good.key good.key_bytes good.marshalled)) in
      elim (Option-cases (lookup (account_key s) disk)) [
        | inl absent ↦
            let gone : load_user lib att s disk ≡ missing = read ∙ rw absent in
            rw (gone, get_or_create_user)
              (rw (create_user_lem t att s disk good) (
                record { email = s.email; registration = none; key = good.key },
                (
                  refl,
                  (
                    key_pem,
                    (good.key, (put, (decoded, λ reg. absurd (unregistered s.email good.key reg)))),
                  ),
                ),
              ))
        | inr (key_data, there) ↦
            let (key, decoded) = usable key_data there in
            let user : AcmeUser = record { email = s.email; registration = none; key = key } in
            let user' = with_read (read_of (lookup (account_json s) disk)) user in
            let here : on_file s.email (lookup (account_key s) disk) (lookup (account_json s) disk)
                ≡ loaded user' =
              rw there (rw (decoded, loads)) in
            let done : load_user lib att s disk ≡ loaded user' = read ∙ here in
            rw (done, get_or_create_user)
              (user', (refl, (key_data, (key, (there, (decoded, λ _. here))))))
      ]

  -- a registered user is read back
  abbrev pub Kept : Svc → Disk → Type 0
  Kept s disk =
      (user : AcmeUser) × ((on_file s.email (lookup (account_key s) disk)
            (lookup (account_json s) disk)
          ≡ loaded user)
        × (registered user ≡ true))

  pub saved-Kept :
      (s : Svc) (user : AcmeUser) (a : Account) (data_ : GoString) (disk : Disk)
      → Recorded s user disk
      → str_eq a.location [] ≡ false
      → ((other_user : AcmeUser) → (lib.unmarshal data_ other_user).registration ≡ some a)
      → Kept s (insert (account_json s) data_ disk)
  unfolding registered str_eq
  saved-Kept s user a data_ disk (key_data, (key, (there, (decoded, _)))) located reads =
      let base : AcmeUser = record { email = s.email; registration = none; key = key } in
      let apart : str_eq (account_json s) (account_key s) ≡ false =
        str_eq-join (cert_dir s) (bytes "account.json") (bytes "account.key") in
      let key_there : lookup (account_key s) (insert (account_json s) data_ disk) ≡ some key_data =
        rw (lookup-insert (account_json s) (account_key s) data_ disk, apart) there in
      let json_there : lookup (account_json s) (insert (account_json s) data_ disk) ≡ some data_ =
        rw (
          lookup-insert (account_json s) (account_json s) data_ disk,
          str_eq_refl (account_json s),
        ) in
      (
        lib.unmarshal data_ base,
        (
          rw (key_there, json_there) (rw (decoded, loads)),
          rw (reads base, registered) (rw located),
        ),
      )
