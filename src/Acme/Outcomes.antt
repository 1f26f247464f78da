-- ===== src/Acme/Outcomes.antt =====
-- What one attempt of internal/acme/manager.go leaves, by its result.
use tripflare.Base.{
  Bool-cases, GoString, bytes, str_eq, Result, ok, err, Result-cases, Fallible, ◌>>=◌, ◌>>◌, ◌≡◌,
  refl, ap, ◌∙◌, ◌⊎◌, inl, inr, some, String, List, [], ◌∷◌, ◌++◌, arith,
}
use tripflare.Acme.Files.{Disk, write_file}
use tripflare.Acme.Types.{
  Leaf, Certificate, AcmeUser, Crypto, ProviderCall, Obtained, Attempt, Svc, State, on_disk, lift,
  wrap,
}
use tripflare.Acme.Account.{registered, create_user, get_or_create_user, save_user}
use tripflare.Acme.Provider.{ChallengeInfo}
use tripflare.Acme.Manager.{
  cert_file, key_file, serve, run_calls, setup_acme_client, register_if_needed, obtain_resource,
  request_certificate, obtain,
}
use tripflare.Acme.Paths.{pair_files, pair_files-write_file, pair_files-insert}

-- what the authority answers to the request for the domain and its wildcard
abbrev pub answer_of : Attempt → AcmeUser → State → List ProviderCall × Result Obtained
answer_of att user st = att.obtain user (st.svc.domain ∷ (bytes "*." ++ st.svc.domain) ∷ [])

-- an answer with a certificate that parses and goes with its key
pub record Valid (lib : Crypto) (answer : Result Obtained) : Type 0 where
  pub certificates : Obtained
  pub cert : Certificate
  pub leaf : Leaf
  pub answered : answer ≡ ok certificates
  pub paired : lib.x509_key_pair certificates.certificate certificates.private_key ≡ ok cert
  pub parsed : lib.parse_certificate cert.first ≡ ok leaf

module _ (lib : Crypto) (info : GoString → GoString → ChallengeInfo) where
  create_user_lem :
      (att : Attempt) (s : Svc) (disk : Disk)
      → pair_files s (create_user lib att s disk).1 ≡ pair_files s disk
  unfolding create_user str_eq
  create_user_lem att s disk = elim (Result-cases (wrap "generate key" att.generate_key)) [
    | inl (m, e) ↦ rw e
    | inr (key, e) ↦
        rw e (elim (Result-cases (wrap "marshal key" (lib.marshal_ec_private_key key))) [
          | inl (m, e') ↦ rw e'
          | inr (key_bytes, e') ↦ rw e' (
              ground (
                arith,
                pair_files-write_file att.written "write account key" s (bytes "account.key")
                    (lib.pem_encode (bytes "EC PRIVATE KEY") key_bytes) disk refl refl,
              ))
        ])
  ]

  get_or_create_user_lem :
      (att : Attempt) (s : Svc) (disk : Disk)
      → pair_files s (get_or_create_user lib att s disk).1 ≡ pair_files s disk
  unfolding get_or_create_user
  get_or_create_user_lem att s disk = ground (arith, create_user_lem att s disk)

  save_user_lem :
      (att : Attempt) (s : Svc) (user : AcmeUser) (disk : Disk)
      → pair_files s (save_user lib att s user disk) ≡ pair_files s disk
  unfolding save_user str_eq
  save_user_lem att s user disk = elim (Result-cases (lib.marshal user)) [
    | inl (m, e) ↦ rw (e, save_user)
    | inr (user_data, e) ↦
        rw (e, save_user)
          (pair_files-write_file att.written "save user registration" s (bytes "account.json")
            user_data disk refl refl)
  ]

  -- the disk after registerIfNeeded: as it was, or with an account saved
  abbrev pub Saved : Attempt → Svc → Disk → Disk → Type 0
  Saved att s disk disk' =
      (disk' ≡ disk) ⊎ ((user : AcmeUser) × (disk' ≡ save_user lib att s user disk))

  Saved-pair_files :
      (att : Attempt) (s : Svc) (disk disk' : Disk)
      → Saved att s disk disk'
      → pair_files s disk' ≡ pair_files s disk
  Saved-pair_files att s disk disk' (inl e) = ap (pair_files s) e
  Saved-pair_files att s disk disk' (inr (user, e)) =
      ap (pair_files s) e ∙ save_user_lem att s user disk

  pub register_if_needed_lem :
      (att : Attempt) (user : AcmeUser) (st : State)
      → let r = register_if_needed lib info att user st in
        ((m : String) × (r ≡ (err m, st)))
        ⊎ ((user' : AcmeUser) × ((disk' : Disk) × (Saved att st.svc st.disk disk'
                × (r ≡ (ok user', record st { disk = disk' })))))
  unfolding register_if_needed
  register_if_needed_lem att user st = elim (Bool-cases (registered user)) [
    | inl e ↦ inr (user, (st.disk, (inl refl, rw (e, register_if_needed))))
    | inr e ↦ elim (Result-cases (att.register user)) [
      | inl (m, e') ↦ inl ("register", rw (e, register_if_needed) (rw e'))
      | inr (reg, e') ↦
          let user' : AcmeUser = record user { registration = some reg } in
          inr (
            user',
            (
              save_user lib att st.svc user' st.disk,
              (inr (user', refl), rw (e, register_if_needed) (rw e')),
            ),
          )
    ]
  ]

  -- the state after the challenges of a request
  abbrev pub answered : Attempt → AcmeUser → State → State
  answered att user st = record st {
    svc = record st.svc { challenge = run_calls info (answer_of att user st).0 st.svc.challenge };
  }

  -- the end of requestCertificate
  abbrev pub install : Attempt → Obtained → Certificate → Leaf → Fallible State Unit
  install att certificates tls_cert leaf = do
    λ st.
        on_disk (write_file att.written "write cert" (cert_file st.svc) certificates.certificate) st
    λ st. on_disk (write_file att.written "write key" (key_file st.svc) certificates.private_key) st
    λ st. (ok tt, serve tls_cert leaf st)

  pub request_certificate_lem :
      (att : Attempt) (user : AcmeUser) (st : State)
      → ((m : String) × (request_certificate lib info att user st ≡ (err m, answered att user st)))
        ⊎ ((i : Valid lib (answer_of att user st).1) × (request_certificate lib info att user st
              ≡ install att i.certificates i.cert i.leaf (answered att user st)))
  unfolding request_certificate obtain_resource lift wrap
  request_certificate_lem att user st = elim (Result-cases (answer_of att user st).1) [
    | inl (m, e) ↦ inl ("obtain certificate", rw (e, request_certificate))
    | inr (r, e) ↦ elim (Result-cases (lib.x509_key_pair r.certificate r.private_key)) [
      | inl (m, e') ↦ inl ("parse obtained cert", rw (e, request_certificate) (rw e'))
      | inr (c, e') ↦ elim (Result-cases (lib.parse_certificate c.first)) [
        | inl (m, e'') ↦ inl ("parse cert leaf", rw (e, request_certificate) (rw e' (rw e'')))
        | inr (leaf, e'') ↦ inr (
          record {
            certificates = r;
            cert = c;
            leaf = leaf;
            answered = e;
            paired = e';
            parsed = e'';
          },
          rw (e, request_certificate) (rw e' (rw e'')),
        )
      ]
    ]
  ]

  pub install-svc :
      (att : Attempt) (r : Obtained) (c : Certificate) (leaf : Leaf) (st : State) (m : String)
      → (install att r c leaf st).0 ≡ err m
      → (install att r c leaf st).1.svc ≡ st.svc
  unfolding on_disk write_file
  install-svc att r c leaf st m h = ground arith

  pub install_of_ok :
      (att : Attempt) (r : Obtained) (c : Certificate) (leaf : Leaf) (st : State)
      → (install att r c leaf st).0 ≡ ok tt
      → ((install att r c leaf st).1.svc ≡ (serve c leaf st).svc)
        × (pair_files st.svc (install att r c leaf st).1.disk
            ≡ (some r.certificate, some r.private_key))
  unfolding on_disk write_file serve
  install_of_ok att r c leaf st h =
      ground (arith, pair_files-insert st.svc r.certificate r.private_key st.disk)

  pub setup_acme_client-state :
      (att : Attempt) (user : AcmeUser) (st : State)
      → (setup_acme_client lib info att user st).1 ≡ st
  unfolding setup_acme_client lift
  setup_acme_client-state att user st = ground arith

  -- the attempt fails before it asks for a certificate, or it ends as its request does; `disk` is
  -- the one that the account was taken from
  abbrev pub Requested : Attempt → State → Disk → Result (Unit {0}) × State → Type 0
  Requested att st disk r =
      (disk' : Disk) × (Saved att st.svc disk disk'
        × (((m : String) × (r ≡ (err m, record st { disk = disk' })))
            ⊎ ((user : AcmeUser) × (r
                  ≡ request_certificate lib info att user (record st { disk = disk' })))))

  with_client_lem :
      (att : Attempt) (user : AcmeUser) (st : State)
      → Requested att st st.disk (
          (setup_acme_client lib info att user
              >> (register_if_needed lib info att user >>= request_certificate lib info att))
            st)
  with_client_lem att user st = elim (Result-cases (setup_acme_client lib info att user st).0) [
    | inl (m, e) ↦ (st.disk, (inl refl, inl (m, rw e (rw (setup_acme_client-state att user st)))))
    | inr (done, e) ↦ elim (register_if_needed_lem att user st) [
      | inl (m, e') ↦
          (st.disk, (inl refl, inl (m, rw e (rw (setup_acme_client-state att user st) (rw e')))))
      | inr (user', (disk', (saved, e'))) ↦
          (disk', (saved, inr (user', rw e (rw (setup_acme_client-state att user st) (rw e')))))
    ]
  ]

  pub obtain_lem :
      (att : Attempt) (st : State)
      → Requested att st (get_or_create_user lib att st.svc st.disk).1 (obtain lib info att st)
  unfolding wrap obtain
  obtain_lem att st =
      let disk' = (get_or_create_user lib att st.svc st.disk).1 in
      elim (Result-cases (get_or_create_user lib att st.svc st.disk).0) [
        | inl (m, e) ↦ (disk', (inl refl, inl ("acme user", rw (e, obtain))))
        | inr (user, e) ↦ rw (e, obtain) (with_client_lem att user (record st { disk = disk' }))
      ]

  pub Requested-pair_files :
      (att : Attempt) (st : State) (disk' : Disk)
      → Saved att st.svc (get_or_create_user lib att st.svc st.disk).1 disk'
      → pair_files st.svc disk' ≡ pair_files st.svc st.disk
  Requested-pair_files att st disk' saved =
      Saved-pair_files att st.svc _ disk' saved ∙ get_or_create_user_lem att st.svc st.disk
