-- ===== src/Acme/Manager.antt =====
-- internal/acme/manager.go
use tripflare.Base.{
  ltb, leb, GoString, bytes, join, Result, ok, err, Fallible, ◌>>=◌, ◌>>◌, ℕ, ◌+◌, ◌*◌, Bool, true,
  false, none, some, List, [], ◌∷◌, ◌++◌,
}
use tripflare.Acme.Challenge.{Store}
use tripflare.Acme.Provider.{ChallengeInfo, present, clean_up}
use tripflare.Acme.Files.{contents, not_exist, unreadable, read_file, write_file}
use tripflare.Acme.Types.{
  Leaf, Key, Certificate, AcmeUser, Crypto, ProviderCall, presents, cleans_up, Obtained, Attempt,
  Svc, State, on_disk, lift, wrap, cert_dir,
}
use tripflare.Acme.SelfSigned.{hour, generate_self_signed}
use tripflare.Acme.Account.{registered, get_or_create_user, save_user}

-- renewBeforeDays*24*time.Hour
abbrev pub renew_before : ℕ
renew_before = 30 * 24 * hour

unfoldable pub new :
    Crypto
    → GoString
    → GoString
    → GoString
    → Bool
    → Bool
    → Store
    → Result Key
    → Result ℕ
    → ℕ
    → Result Svc
new lib domain email cert_path staging enabled challenge new_key new_serial now =
    elim (generate_self_signed lib domain new_key new_serial now) [
      | err m ↦ err "generate self-signed cert"
      | ok cert ↦ ok (record {
        domain = domain;
        email = email;
        staging = staging;
        enabled = enabled;
        cert_path = cert_path;
        challenge = challenge;
        cert = some cert;
      })
    ]

unfoldable pub get_certificate : Svc → Result Certificate
get_certificate s = elim s.cert [ none ↦ err "no certificate available" | some cert ↦ ok cert ]

-- time.Until(t) is t - now
unfoldable pub needs_renewal : ℕ → Svc → Bool
needs_renewal now s = elim s.cert [
  | none ↦ true
  | some cert ↦ elim cert.leaf [ none ↦ true | some leaf ↦ ltb leaf.not_after (now + renew_before) ]
]

-- certFiles
abbrev pub cert_file : Svc → GoString
cert_file s = join (cert_dir s) (bytes "cert.pem")

abbrev pub key_file : Svc → GoString
key_file s = join (cert_dir s) (bytes "key.pem")

-- the locked assignment to s.cert
unfoldable pub serve : Certificate → Leaf → State → State
serve cert leaf st = record st {
  svc = record st.svc { cert = some (record cert { leaf = some leaf }) };
}

-- what lego calls of the provider
unfoldable pub run_calls : (GoString → GoString → ChallengeInfo) → List ProviderCall → Store → Store
run_calls info [] m = m
run_calls info (presents domain key_auth ∷ calls) m =
    run_calls info calls (present info domain key_auth m)
run_calls info (cleans_up domain key_auth ∷ calls) m =
    run_calls info calls (clean_up info domain key_auth m)

module _ (lib : Crypto) (info : GoString → GoString → ChallengeInfo) where
  unfoldable pub setup_acme_client : Attempt → AcmeUser → Fallible State Unit
  setup_acme_client att user = do
    λ st. (wrap "create acme client" (att.new_client user st.svc.staging), st)
    lift (wrap "set dns provider" att.set_provider)

  -- the user as the call leaves it, which lego's client holds too
  unfoldable pub register_if_needed : Attempt → AcmeUser → Fallible State AcmeUser
  register_if_needed att user st = elim (registered user) [
    | true ↦ (ok user, st)
    | false ↦ elim (att.register user) [
      | err m ↦ (err "register", st)
      | ok reg ↦
          let user' : AcmeUser = record user { registration = some reg } in
          (ok user', record st { disk = save_user lib att st.svc user' st.disk })
    ]
  ]

  -- client.Certificate.Obtain, which answers the challenges through the provider
  unfoldable pub obtain_resource : Attempt → AcmeUser → Fallible State Obtained
  obtain_resource att user st =
      let (calls, answer) = att.obtain user (st.svc.domain ∷ (bytes "*." ++ st.svc.domain) ∷ []) in
      (
        wrap "obtain certificate" answer,
        record st { svc = record st.svc { challenge = run_calls info calls st.svc.challenge } },
      )

  unfoldable pub request_certificate : Attempt → AcmeUser → Fallible State Unit
  request_certificate att user = do
    certificates ← obtain_resource att user
    tls_cert ← lift (
        wrap "parse obtained cert"
          (lib.x509_key_pair certificates.certificate certificates.private_key))
    leaf ← lift (wrap "parse cert leaf" (lib.parse_certificate tls_cert.first))
    λ st.
        on_disk (write_file att.written "write cert" (cert_file st.svc) certificates.certificate) st
    λ st. on_disk (write_file att.written "write key" (key_file st.svc) certificates.private_key) st
    λ st. (ok tt, serve tls_cert leaf st)

  unfoldable pub obtain : Attempt → Fallible State Unit
  obtain att = do
    user ← λ st.
        let (r, disk') = get_or_create_user lib att st.svc st.disk in
        (wrap "acme user" r, record st { disk = disk' })
    setup_acme_client att user
    user' ← register_if_needed att user
    request_certificate att user'

  -- tls.LoadX509KeyPair
  unfoldable pub load_key_pair : Attempt → State → Result Certificate
  load_key_pair att st = elim (read_file att.denied (cert_file st.svc) st.disk) [
    | not_exist ↦ err "open cert"
    | unreadable ↦ err "open cert"
    | contents cert_pem ↦ elim (read_file att.denied (key_file st.svc) st.disk) [
      | not_exist ↦ err "open key"
      | unreadable ↦ err "open key"
      | contents key_pem ↦ lib.x509_key_pair cert_pem key_pem
    ]
  ]

  unfoldable pub load_or_obtain : Attempt → ℕ → Fallible State Unit
  load_or_obtain att now st = elim (load_key_pair att st) [
    | err m ↦ obtain att st
    | ok cert ↦ elim (lib.parse_certificate cert.first) [
      | err m ↦ obtain att st
      | ok leaf ↦ elim (leb leaf.not_after (now + renew_before)) [
        | true ↦ obtain att st
        | false ↦ (ok tt, serve cert leaf st)
      ]
    ]
  ]

  -- one tick of Run's loop
  unfoldable pub tick : ℕ × Attempt → State → State
  tick (now, att) st = elim (needs_renewal now st.svc) [ true ↦ (obtain att st).1 | false ↦ st ]

  -- the ticks until the context is done
  unfoldable pub ticks : List (ℕ × Attempt) → State → State
  ticks [] st = st
  ticks (t ∷ ts) st = ticks ts (tick t st)

  -- Run: `made_dir` is what os.MkdirAll answers
  unfoldable pub run : Result (Unit {0}) → ℕ × Attempt → List (ℕ × Attempt) → Fallible State Unit
  run made_dir (now, att) ts st = elim st.svc.enabled [
    | false ↦ (ok tt, st)
    | true ↦ elim made_dir [
      | err m ↦ (err "create cert dir", st)
      | ok done ↦ (ok tt, ticks ts (load_or_obtain att now st).1)
    ]
  ]
