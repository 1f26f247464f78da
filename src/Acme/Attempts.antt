-- ===== src/Acme/Attempts.antt =====
-- internal/acme/manager.go: obtain as its callers see it.
use tripflare.Base.{GoString, Result, ok, err, ◌≡◌, refl, ap, ◌∙◌, ◌⊎◌, inl, inr, some, String}
use tripflare.Acme.Types.{Leaf, Certificate, AcmeUser, Crypto, Obtained, Attempt, State, cert_dir}
use tripflare.Acme.Provider.{ChallengeInfo}
use tripflare.Acme.Manager.{serve, request_certificate, obtain}
use tripflare.Acme.Paths.{pair_files}
use tripflare.Acme.Outcomes.{
  answer_of, Valid, answered, request_certificate_lem, install-svc, install_of_ok, obtain_lem,
  Requested-pair_files,
}

-- the certificate that a valid answer is installed as
abbrev pub with_leaf : Certificate → Leaf → Certificate
with_leaf c leaf = record c { leaf = some leaf }

module _ (lib : Crypto) (info : GoString → GoString → ChallengeInfo) where
  -- a valid certificate came for the service's domain
  abbrev pub Issued : Attempt → State → Type 0
  Issued att st = (user : AcmeUser) × Valid lib (answer_of att user st).1

  request_certificate_of_err :
      (att : Attempt) (user : AcmeUser) (st : State) (m : String)
      → (request_certificate lib info att user st).0 ≡ err m
      → let st' = (request_certificate lib info att user st).1 in
        (st'.svc.cert ≡ st.svc.cert)
        × ((pair_files st.svc st'.disk ≡ pair_files st.svc st.disk) ⊎ Issued att st)
  request_certificate_of_err att user st m h = elim (request_certificate_lem lib info att user st) [
    | inl (m', e) ↦ rw e (refl, inl refl)
    | inr (valid, e) ↦
        let kept =
          install-svc lib info att valid.certificates valid.cert valid.leaf
            (answered lib info att user st) m (rw e at h) in
        rw e (ap (λ s. s.cert) kept, inr (user, valid))
  ]

  -- When an attempt to obtain a certificate returns an error, the service goes on serving the
  -- certificate that it had; and the files of the certificate and of its key are as they were, or
  -- the authority had sent a certificate that parses and goes with its key, so that only writing
  -- the files failed.
  pub obtain_of_err :
      (att : Attempt) (st : State) (m : String)
      → (obtain lib info att st).0 ≡ err m
      → let st' = (obtain lib info att st).1 in
        (st'.svc.cert ≡ st.svc.cert)
        × ((pair_files st.svc st'.disk ≡ pair_files st.svc st.disk) ⊎ Issued att st)
  obtain_of_err att st m h =
      let (disk', (saved, ends)) = obtain_lem lib info att st in
      let files = Requested-pair_files lib info att st disk' saved in
      elim ends [
        | inl (m', e) ↦ rw e (refl, inl files)
        | inr (user, e) ↦
            let (cert, outcome) =
              request_certificate_of_err att user (record st { disk = disk' }) m (rw e at h) in
            rw e (cert, elim outcome [ inl same ↦ inl (same ∙ files) | inr issued ↦ inr issued ])
      ]

  -- what the service serves and what its files hold, once the answer is installed
  abbrev pub Installed : State → State → {answer : Result Obtained} → Valid lib answer → Type 0
  Installed st st' valid =
      (st'.svc.cert ≡ some (with_leaf valid.cert valid.leaf))
      × ((cert_dir st'.svc ≡ cert_dir st.svc)
          × (pair_files st.svc st'.disk
              ≡ (some valid.certificates.certificate, some valid.certificates.private_key)))

  pub obtain_of_ok :
      (att : Attempt) (st : State)
      → (obtain lib info att st).0 ≡ ok tt
      → (i : Issued att st) × Installed st (obtain lib info att st).1 (i.1)
  unfolding serve cert_dir
  obtain_of_ok att st h =
      let (disk', (saved, ends)) = obtain_lem lib info att st in
      let st' : State = record st { disk = disk' } in
      elim ends [
        | inl (m, e) ↦ absurd (let h' = rw e at h in cc)
        | inr (user, e) ↦ elim (request_certificate_lem lib info att user st') [
          | inl (m, e') ↦ absurd (let h' = rw (e ∙ e') at h in cc)
          | inr (valid, e') ↦
              let done = rw (e ∙ e') at h in
              let (svc', pair) =
                install_of_ok lib info att valid.certificates valid.cert valid.leaf
                  (answered lib info att user st') done in
              rw (e, e') ((user, valid), (ap (λ s. s.cert) svc', (ap cert_dir svc', pair)))
        ]
      ]
