-- ===== src/Acme/Serving.antt =====
-- internal/acme/manager.go: what GetCertificate finds over a run.
use tripflare.Base.{
  leb, Bool-cases, GoString, Result, ok, err, Result-cases, ℕ, ◌+◌, ◌≡◌, refl, ◌∙◌, ◌⊎◌, inl, inr,
  Bool, some, List, [], ◌∷◌, arith,
}
use tripflare.Acme.Files.{Disk}
use tripflare.Acme.Challenge.{Store}
use tripflare.Acme.Types.{Leaf, Key, Certificate, Crypto, Attempt, Svc, State}
use tripflare.Acme.SelfSigned.{template, generate_self_signed}
use tripflare.Acme.Provider.{ChallengeInfo}
use tripflare.Acme.Manager.{
  renew_before, new, get_certificate, needs_renewal, serve, obtain, load_key_pair, load_or_obtain,
  tick, ticks, run,
}
use tripflare.Acme.Attempts.{with_leaf, obtain_of_err, obtain_of_ok}

module _ (lib : Crypto) where
  -- the service has a certificate, whose leaf is the one that its chain starts with
  pub record IsServing (s : Svc) : Type 0 where
    pub cert : Certificate
    pub leaf : Leaf
    pub has_cert : s.cert ≡ some cert
    pub has_leaf : cert.leaf ≡ some leaf
    pub parsed : lib.parse_certificate cert.first ≡ ok leaf

  IsServing-of_same : (s s' : Svc) → s'.cert ≡ s.cert → IsServing s → IsServing s'
  IsServing-of_same s s' e h = record {
    cert = h.cert;
    leaf = h.leaf;
    has_cert = e ∙ h.has_cert;
    has_leaf = h.has_leaf;
    parsed = h.parsed;
  }

  -- the certificate of a new service is one that was made from the template, and parsed again
  pub record IsFresh (domain : GoString) (enabled : Bool) (t₀ : ℕ) (s : Svc) : Type 0 where
    pub key : Key
    pub serial : ℕ
    pub cert_der : GoString
    pub leaf : Leaf
    pub created : lib.create_certificate (template domain serial t₀) key ≡ ok cert_der
    pub parsed : lib.parse_certificate cert_der ≡ ok leaf
    pub has_enabled : s.enabled ≡ enabled
    pub has_cert :
        s.cert ≡ some (record { first = cert_der; rest = []; private_key = key; leaf = some leaf })

  pub new-IsFresh :
      (domain email cert_path : GoString) (staging enabled : Bool) (challenge : Store)
      (new_key : Result Key) (new_serial : Result ℕ) (t₀ : ℕ) (s : Svc)
      → new lib domain email cert_path staging enabled challenge new_key new_serial t₀ ≡ ok s
      → IsFresh domain enabled t₀ s
  unfolding new generate_self_signed
  new-IsFresh domain email cert_path staging enabled challenge (err m) new_serial t₀ s h = absurd cc
  new-IsFresh domain email cert_path staging enabled challenge (ok key) (err m) t₀ s h = absurd cc
  new-IsFresh domain email cert_path staging enabled challenge (ok key) (ok serial) t₀ s h =
      elim (Result-cases (lib.create_certificate (template domain serial t₀) key)) [
        | inl (m, e) ↦ absurd (let h' = rw (e, new, generate_self_signed) at h in cc)
        | inr (cert_der, e) ↦ elim (Result-cases (lib.parse_certificate cert_der)) [
          | inl (m, e') ↦
              absurd
                (let h' = rw (e, new, generate_self_signed) at h in let h'' = rw e' at h' in cc)
          | inr (leaf, e') ↦ record {
            key = key;
            serial = serial;
            cert_der = cert_der;
            leaf = leaf;
            created = e;
            parsed = e';
            has_enabled =
                let h' = rw (e, new, generate_self_signed) at h in let h'' = rw e' at h' in cc;
            has_cert =
                let h' = rw (e, new, generate_self_signed) at h in let h'' = rw e' at h' in cc;
          }
        ]
      ]

  fresh-IsServing :
      (domain : GoString) (enabled : Bool) (t₀ : ℕ) (s : Svc)
      → IsFresh domain enabled t₀ s
      → IsServing s
  fresh-IsServing domain enabled t₀ s h = record {
    cert = _;
    leaf = h.leaf;
    has_cert = h.has_cert;
    has_leaf = refl;
    parsed = h.parsed;
  }

module _ (lib : Crypto) (info : GoString → GoString → ChallengeInfo) where
  obtain-IsServing :
      (att : Attempt) (st : State)
      → IsServing lib st.svc
      → IsServing lib (obtain lib info att st).1.svc
  obtain-IsServing att st h = elim (Result-cases (obtain lib info att st).0) [
    | inl (m, e) ↦ IsServing-of_same lib st.svc _ (obtain_of_err lib info att st m e).0 h
    | inr (done, e) ↦
        let ((user, valid), (served, _)) = obtain_of_ok lib info att st e in
        record {
          cert = with_leaf valid.cert valid.leaf;
          leaf = valid.leaf;
          has_cert = served;
          has_leaf = refl;
          parsed = valid.parsed;
        }
  ]

  -- a start either asks the authority or serves what it has loaded
  pub load_or_obtain_lem :
      (att : Attempt) (now : ℕ) (st : State)
      → (load_or_obtain lib info att now st ≡ obtain lib info att st)
        ⊎ ((cert : Certificate) × ((leaf : Leaf) × ((lib.parse_certificate cert.first ≡ ok leaf)
                × (load_or_obtain lib info att now st ≡ (ok tt, serve cert leaf st)))))
  unfolding load_or_obtain
  load_or_obtain_lem att now st = elim (Result-cases (load_key_pair lib info att st)) [
    | inl (m, e) ↦ inl (rw (e, load_or_obtain))
    | inr (cert, e) ↦ elim (Result-cases (lib.parse_certificate cert.first)) [
      | inl (m, e') ↦ inl (rw (e, load_or_obtain) (rw e'))
      | inr (leaf, e') ↦ elim (Bool-cases (leb leaf.not_after (now + renew_before))) [
        | inl due ↦ inl (rw (e, load_or_obtain) (rw e' (rw due)))
        | inr fine ↦ inr (cert, (leaf, (e', rw (e, load_or_obtain) (rw e' (rw fine)))))
      ]
    ]
  ]

  load_or_obtain-IsServing :
      (att : Attempt) (now : ℕ) (st : State)
      → IsServing lib st.svc
      → IsServing lib (load_or_obtain lib info att now st).1.svc
  unfolding serve
  load_or_obtain-IsServing att now st h = elim (load_or_obtain_lem att now st) [
    | inl e ↦ rw e (obtain-IsServing att st h)
    | inr (cert, (leaf, (parsed, e))) ↦ rw e (record {
      cert = with_leaf cert leaf;
      leaf = leaf;
      has_cert = refl;
      has_leaf = refl;
      parsed = parsed;
    })
  ]

  tick-IsServing :
      (now : ℕ) (att : Attempt) (st : State)
      → IsServing lib st.svc
      → IsServing lib (tick lib info (now, att) st).svc
  unfolding tick
  tick-IsServing now att st h = elim (Bool-cases (needs_renewal now st.svc)) [
    | inl due ↦ rw (due, tick) (obtain-IsServing att st h)
    | inr fine ↦ rw (fine, tick) h
  ]

  ticks-IsServing :
      (ts : List (ℕ × Attempt)) (st : State)
      → IsServing lib st.svc
      → IsServing lib (ticks lib info ts st).svc
  unfolding ticks
  ticks-IsServing [] st h = h
  ticks-IsServing ((now, att) ∷ ts) st h =
      ticks-IsServing ts (tick lib info (now, att) st) (tick-IsServing now att st h)

  run-IsServing :
      (made_dir : Result (Unit {0})) (now : ℕ) (att : Attempt) (ts : List (ℕ × Attempt))
      (st : State)
      → IsServing lib st.svc
      → IsServing lib (run lib info made_dir (now, att) ts st).1.svc
  unfolding run
  run-IsServing made_dir now att ts st h = ground (
    arith,
    ticks-IsServing ts (load_or_obtain lib info att now st).1
        (load_or_obtain-IsServing att now st h),
  )

  -- Whatever the random source, the files and the certificate authority do: when the manager could
  -- be made, GetCertificate returns a certificate without an error at every moment of its run, and
  -- the leaf that its renewal is decided by is the one that the served chain starts with.
  pub run-get_certificate :
      (domain email cert_path : GoString) (staging enabled : Bool) (challenge : Store)
      (new_key : Result Key) (new_serial : Result ℕ) (t₀ : ℕ) (s : Svc)
      (made_dir : Result (Unit {0})) (now : ℕ) (att : Attempt) (ts : List (ℕ × Attempt))
      (disk : Disk)
      → new lib domain email cert_path staging enabled challenge new_key new_serial t₀ ≡ ok s
      → let s' = (run lib info made_dir (now, att) ts (record { svc = s; disk = disk })).1.svc in
        (cert : Certificate) × ((leaf : Leaf) × ((get_certificate s' ≡ ok cert)
            × ((cert.leaf ≡ some leaf) × (lib.parse_certificate cert.first ≡ ok leaf))))
  unfolding get_certificate
  run-get_certificate domain email cert_path staging enabled challenge new_key new_serial t₀ s
        made_dir now att ts disk h =
      let served =
        run-IsServing made_dir now att ts (record { svc = s; disk = disk })
          (fresh-IsServing lib domain enabled t₀ s (
            new-IsFresh lib domain email cert_path staging enabled challenge new_key new_serial t₀ s
              h)) in
      (
        served.cert,
        (served.leaf, (rw (served.has_cert, get_certificate), (served.has_leaf, served.parsed))),
      )
