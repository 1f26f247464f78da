-- ===== src/Acme/ManagerTests.antt =====
-- The manager of the certificate (internal/acme/manager.go) with a toy cryptography.
use mathlib.Core.Path.{subst}
use tripflare.Acme.Toy.{
  toy, toy-IsFaithful, toy-KeepsNotAfter, info, fine, offline, full, year, fine-IsGood, service,
}
use tripflare.Acme.Registered.{KeepsAccounts}
use tripflare.Acme.Accounts.{get_or_create_user-obtain}
use tripflare.Acme.Attempts.{Issued, obtain_of_err}
use tripflare.Acme.Serving.{run-get_certificate}
use tripflare.Acme.Restart.{load_or_obtain-obtain}
use tripflare.Acme.Challenge.{new_challenge_store}
use tripflare.Acme.Renewal.{run-needs_renewal}
use tripflare.Acme.Paths.{pair_files}
use tripflare.Acme.Account.{
  registered, with_registration, decode_key, load_user, create_user, get_or_create_user, save_user,
}
use tripflare.Base.{
  GoString, bytes, str_eq, join, lookup, insert, ok, err, ◌≡◌, refl, ◌⊎◌, true, false, some, [],
  ◌∷◌, arith,
}
use tripflare.Acme.Files.{read_file, write_file}
use tripflare.Acme.Types.{
  Leaf, Certificate, Account, AcmeUser, State, on_disk, lift, wrap, cert_dir,
}
use tripflare.Acme.SelfSigned.{template, generate_self_signed}
use tripflare.Acme.Manager.{
  new, get_certificate, needs_renewal, serve, setup_acme_client, register_if_needed,
  obtain_resource, request_certificate, obtain, load_key_pair, load_or_obtain, run,
}
use tripflare.Acme.Retries.{run_of_failed_start}
use tripflare.Acme.Keys.{KeyUsable, KeepsKey}
use tripflare.Acme.Good.{obtain_of_good}

service-new :
    new toy
      (bytes "a.io")
      (bytes "me")
      (bytes "d")
      false
      true
      new_challenge_store
      (ok (3 ∷ []))
      (ok 1)
      0
    ≡ ok service
unfolding new generate_self_signed template
service-new = refl

abbrev start : State
start = record { svc = service; disk = [] }

offline-fails : (obtain toy info offline start).0 ≡ err "create acme client"
unfolding obtain setup_acme_client get_or_create_user load_user decode_key with_registration
    create_user wrap lift write_file read_file join cert_dir lookup insert str_eq
offline-fails = refl

full-fails : (obtain toy info (full year) start).0 ≡ err "write key"
unfolding obtain setup_acme_client register_if_needed registered request_certificate obtain_resource
    get_or_create_user load_user decode_key with_registration create_user save_user wrap lift
    on_disk write_file read_file join cert_dir lookup insert str_eq
full-fails = refl

start-KeyUsable : KeyUsable toy service []
unfolding lookup
start-KeyUsable data_ there = absurd cc

full-KeepsKey : KeepsKey toy (full year) service
unfolding str_eq join cert_dir
full-KeepsKey n e = absurd cc

fine-not_due : needs_renewal 9 (obtain toy info (fine year) start).1.svc ≡ false
unfolding needs_renewal serve obtain setup_acme_client register_if_needed registered
    request_certificate obtain_resource get_or_create_user load_user decode_key with_registration
    create_user save_user wrap lift on_disk write_file read_file join cert_dir lookup insert str_eq
fine-not_due = refl

start-fails : (load_or_obtain toy info offline 5 start).0 ≡ err "create acme client"
unfolding load_or_obtain load_key_pair obtain setup_acme_client register_if_needed registered
    request_certificate obtain_resource get_or_create_user load_user decode_key with_registration
    create_user save_user wrap lift on_disk write_file read_file join cert_dir lookup insert str_eq
start-fails = refl

fine-succeeds : (obtain toy info (fine year) start).0 ≡ ok tt
fine-succeeds = obtain_of_good toy info 0 (fine year) start fine-IsGood start-KeyUsable

obtain_of_err_example :
    ((obtain toy info (full year) start).1.svc.cert ≡ service.cert)
    × ((pair_files service (obtain toy info (full year) start).1.disk ≡ pair_files service [])
        ⊎ Issued toy info (full year) start)
obtain_of_err_example = obtain_of_err toy info (full year) start "write key" full-fails

run-get_certificate_example :
    let s' = (run toy info (ok tt) (5, offline) ((6, fine year) ∷ []) start).1.svc in
    (cert : Certificate) × ((leaf : Leaf) × ((get_certificate s' ≡ ok cert)
        × ((cert.leaf ≡ some leaf) × (toy.parse_certificate cert.first ≡ ok leaf))))
run-get_certificate_example =
    run-get_certificate toy info (bytes "a.io") (bytes "me") (bytes "d") false true
      new_challenge_store (ok (3 ∷ [])) (ok 1) 0 service (ok tt) 5 offline ((6, fine year) ∷ []) []
      service-new

load_or_obtain-obtain_example :
    let st' = (obtain toy info (fine year) start).1 in
    load_or_obtain toy info offline 8 (record { svc = service; disk = st'.disk })
    ≡ (ok tt, record { svc = record service { cert = st'.svc.cert }; disk = st'.disk })
load_or_obtain-obtain_example =
    load_or_obtain-obtain toy info (fine year) start offline 8 service fine-succeeds refl
      (λ path. refl) fine-not_due

run_of_failed_start_example :
    let started = load_or_obtain toy info offline 5 start in
    (run toy info (ok tt) (5, offline) ((6, fine year) ∷ []) start ≡ (ok tt, started.1))
    × (started.1.svc.cert ≡ service.cert)
run_of_failed_start_example =
    run_of_failed_start toy info (bytes "a.io") (bytes "me") (bytes "d") false new_challenge_store
      (ok (3 ∷ [])) (ok 1) 0 service 5 offline ((6, fine year) ∷ []) [] "create acme client"
      toy-KeepsNotAfter service-new start-fails (omega arith, tt)

run-needs_renewal_example :
    needs_renewal 0
      (run toy info (ok tt) (0, offline) ((0, full year) ∷ (0, fine year) ∷ []) start).1.svc
    ≡ false
run-needs_renewal_example =
    run-needs_renewal toy info start 0 offline ((0, full year) ∷ []) 0 (fine year) toy-IsFaithful
      refl start-KeyUsable (λ n e. cc) (full-KeepsKey, tt) fine-IsGood

abbrev acct : Account
acct = record { location = bytes "acct/1"; body = [] }

fine-KeepsAccounts : KeepsAccounts toy (fine year)
unfolding str_eq
fine-KeepsAccounts = record { located = is_located; saved = is_saved }
  where
    is_located :
        (user : AcmeUser) (a : Account)
        → (fine year).register user ≡ ok a
        → str_eq a.location [] ≡ false
    is_located user a h = let e : acct ≡ a = cc in subst (λ a. str_eq a.location [] ≡ false) e refl

    is_saved :
        (user : AcmeUser) (a : Account)
        → (fine year).register user ≡ ok a
        → (data_ : GoString) × ((toy.marshal (record user { registration = some a }) ≡ ok data_)
            × ((other_user : AcmeUser) → (toy.unmarshal data_ other_user).registration ≡ some a))
    is_saved user a h =
        let e : acct ≡ a = cc in
        (
          a.location,
          (
            refl,
            λ other_user.
                subst (λ a. some (record { location = a.location; body = [] }) ≡ some a) e refl,
          ),
        )

get_or_create_user-obtain_example :
    let st' = (obtain toy info (fine year) start).1 in
    (user : AcmeUser) × ((get_or_create_user toy offline service st'.disk ≡ (ok user, st'.disk))
      × (registered user ≡ true))
get_or_create_user-obtain_example =
    get_or_create_user-obtain toy info 0 (fine year) start offline service toy-IsFaithful
      fine-IsGood fine-KeepsAccounts start-KeyUsable (λ path. refl) refl refl
