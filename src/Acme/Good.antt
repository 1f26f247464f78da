-- ===== src/Acme/Good.antt =====
-- internal/acme/manager.go: an attempt during which everything answers.

use tripflare.Base.{
  Bool-cases, Option-cases, GoString, bytes, lookup, Result, ok, ℕ, ◌+◌, ◌≤◌, ◌≡◌, ◌⊎◌, inl, inr,
  Bool, false, none, some, List, [], ◌∷◌, ◌++◌, arith,
}
use tripflare.Acme.Files.{Disk, read_file, complete, write_file}
use tripflare.Acme.Types.{
  Leaf, Key, Certificate, Account, AcmeUser, Crypto, Obtained, Attempt, Svc, State, on_disk, lift,
  wrap,
}
use tripflare.Acme.Account.{
  registered, account_key, account_json, loaded, missing, with_registration, load_user, create_user,
  get_or_create_user,
}
use tripflare.Acme.Provider.{ChallengeInfo}
use tripflare.Acme.Manager.{
  renew_before, cert_file, key_file, setup_acme_client, register_if_needed, obtain_resource,
  request_certificate, obtain,
}
use tripflare.Acme.Outcomes.{Valid, answered, install, setup_acme_client-state}
use tripflare.Acme.Keys.{KeyUsable}

-- Nothing fails during the attempt at the time t, and the certificate that the authority sends is
-- good for thirty days from then.
pub record IsGood (lib : Crypto) (t : ℕ) (att : Attempt) : Type 0 where
  pub key : Key
  pub key_bytes : GoString
  pub generated : att.generate_key ≡ ok key
  pub marshalled : lib.marshal_ec_private_key key ≡ ok key_bytes
  pub readable : (path : GoString) → att.denied path ≡ false
  pub writable : (path : GoString) → att.written path ≡ complete
  pub connects : (user : AcmeUser) (staging : Bool) → att.new_client user staging ≡ ok tt
  pub provides : att.set_provider ≡ ok tt
  pub registers : (user : AcmeUser) → (a : Account) × (att.register user ≡ ok a)
  pub issues :
      (user : AcmeUser) (domains : List GoString)
      → (v : Valid lib (att.obtain user domains).1) × (t + renew_before ≤ v.leaf.not_after)

-- one answer has one certificate
pub Valid-not_after :
    (lib : Crypto) (answer : Result Obtained) (v w : Valid lib answer)
    → v.leaf.not_after ≡ w.leaf.not_after
Valid-not_after lib answer v w =
    let a = v.answered in
    let b = w.answered in
    let c = v.paired in let d = w.paired in let e = v.parsed in let f = w.parsed in cc

module _ (lib : Crypto) (info : GoString → GoString → ChallengeInfo) where
  create_user_of_good :
      (t : ℕ) (att : Attempt) (s : Svc) (disk : Disk)
      → IsGood lib t att
      → (user : AcmeUser) × ((create_user lib att s disk).0 ≡ ok user)
  unfolding create_user wrap write_file
  create_user_of_good t att s disk good = (
    record { email = s.email; registration = none; key = good.key },
    rw (good.generated, create_user)
        (rw good.marshalled (rw (good.writable (account_key s), write_file))),
  )

  load_user_of_good :
      (t : ℕ) (att : Attempt) (s : Svc) (disk : Disk)
      → IsGood lib t att
      → KeyUsable lib s disk
      → (load_user lib att s disk ≡ missing)
        ⊎ ((user : AcmeUser) × (load_user lib att s disk ≡ loaded user))
  unfolding load_user read_file
  load_user_of_good t att s disk good usable = elim (Option-cases (lookup (account_key s) disk)) [
    | inl absent ↦ inl (rw (good.readable (account_key s), load_user) (rw absent))
    | inr (data_, there) ↦
        let (key, decoded) = usable data_ there in
        let user : AcmeUser = record { email = s.email; registration = none; key = key } in
        inr (
          with_registration lib att (account_json s) user disk,
          rw (good.readable (account_key s), load_user) (rw there (rw decoded)),
        )
  ]

  get_or_create_user_of_good :
      (t : ℕ) (att : Attempt) (s : Svc) (disk : Disk)
      → IsGood lib t att
      → KeyUsable lib s disk
      → (user : AcmeUser) × ((get_or_create_user lib att s disk).0 ≡ ok user)
  unfolding get_or_create_user
  get_or_create_user_of_good t att s disk good usable =
      elim (load_user_of_good t att s disk good usable) [
        | inl e ↦ rw (e, get_or_create_user) (create_user_of_good t att s disk good)
        | inr (user, e) ↦ (user, rw (e, get_or_create_user))
      ]

  pub setup_acme_client_of_good :
      (t : ℕ) (att : Attempt) (user : AcmeUser) (st : State)
      → IsGood lib t att
      → (setup_acme_client lib info att user st).0 ≡ ok tt
  unfolding setup_acme_client lift wrap
  setup_acme_client_of_good t att user st good =
      rw (good.connects user st.svc.staging, setup_acme_client) (rw good.provides)

  register_if_needed_of_good :
      (t : ℕ) (att : Attempt) (user : AcmeUser) (st : State)
      → IsGood lib t att
      → (user' : AcmeUser) × ((register_if_needed lib info att user st).0 ≡ ok user')
  unfolding register_if_needed
  register_if_needed_of_good t att user st good = elim (Bool-cases (registered user)) [
    | inl e ↦ (user, rw (e, register_if_needed))
    | inr e ↦
        let (a, answered) = good.registers user in
        (record user { registration = some a }, rw (e, register_if_needed) (rw answered))
  ]

  install_of_good :
      (t : ℕ) (att : Attempt) (r : Obtained) (c : Certificate) (leaf : Leaf) (st : State)
      → IsGood lib t att
      → (install lib info att r c leaf st).0 ≡ ok tt
  unfolding on_disk write_file
  install_of_good t att r c leaf st good =
      ground (arith, good.writable (cert_file st.svc), good.writable (key_file st.svc))

  request_certificate_of_good :
      (t : ℕ) (att : Attempt) (user : AcmeUser) (st : State)
      → IsGood lib t att
      → (request_certificate lib info att user st).0 ≡ ok tt
  unfolding request_certificate obtain_resource lift wrap
  request_certificate_of_good t att user st good =
      let (v, later) = good.issues user (st.svc.domain ∷ (bytes "*." ++ st.svc.domain) ∷ []) in
      rw (v.answered, request_certificate)
        (rw v.paired (
          rw v.parsed (
            install_of_good t att v.certificates v.cert v.leaf (answered lib info att user st)
              good)))

  pub obtain_of_good :
      (t : ℕ) (att : Attempt) (st : State)
      → IsGood lib t att
      → KeyUsable lib st.svc st.disk
      → (obtain lib info att st).0 ≡ ok tt
  unfolding obtain wrap
  obtain_of_good t att st good usable =
      let (user, e) = get_or_create_user_of_good t att st.svc st.disk good usable in
      let st' : State = record st { disk = (get_or_create_user lib att st.svc st.disk).1 } in
      let (user', e') = register_if_needed_of_good t att user st' good in
      rw (e, obtain)
        (rw (setup_acme_client_of_good t att user st' good) (
          rw (setup_acme_client-state lib info att user st') (
            rw e' (
              request_certificate_of_good t att user' (register_if_needed lib info att user st').1
                good))))
