-- ===== src/Acme/Frames.antt =====
-- internal/acme/manager.go: the files that requestCertificate does not write.
use tripflare.Base.{
  GoString, bytes, str_eq, join, lookup, Result-cases, ◌≡◌, refl, ◌∙◌, inl, inr, false,
}
use tripflare.Acme.Files.{write_file}
use tripflare.Acme.Types.{
  Leaf, Certificate, AcmeUser, Crypto, Obtained, Attempt, State, on_disk, cert_dir,
}
use tripflare.Acme.Provider.{ChallengeInfo}
use tripflare.Acme.Manager.{cert_file, key_file, serve, request_certificate}
use tripflare.Acme.Paths.{str_eq-join, lookup-write_file}
use tripflare.Acme.Outcomes.{answered, install, request_certificate_lem}

module _ (lib : Crypto) (info : GoString → GoString → ChallengeInfo) where
  -- the directory stays, and so does the file of that name in it
  abbrev Leaves : GoString → State → State → Type 0
  Leaves name st st' =
      let path = join (cert_dir st.svc) name in
      (cert_dir st'.svc ≡ cert_dir st.svc) × (lookup path st'.disk ≡ lookup path st.disk)

  install-Leaves :
      (att : Attempt) (r : Obtained) (c : Certificate) (leaf : Leaf) (st : State) (name : GoString)
      → str_eq (bytes "cert.pem") name ≡ false
      → str_eq (bytes "key.pem") name ≡ false
      → Leaves name st (install lib info att r c leaf st).1
  unfolding on_disk serve cert_dir
  install-Leaves att r c leaf st name p q =
      let dir = cert_dir st.svc in
      let first = write_file att.written "write cert" (cert_file st.svc) r.certificate st.disk in
      let second = write_file att.written "write key" (key_file st.svc) r.private_key first.1 in
      let same_first : lookup (join dir name) first.1 ≡ lookup (join dir name) st.disk =
        lookup-write_file att.written "write cert" (cert_file st.svc) (join dir name) r.certificate
          st.disk (str_eq-join dir (bytes "cert.pem") name ∙ p) in
      let same_second : lookup (join dir name) second.1 ≡ lookup (join dir name) first.1 =
        lookup-write_file att.written "write key" (key_file st.svc) (join dir name) r.private_key
          first.1 (str_eq-join dir (bytes "key.pem") name ∙ q) in
      elim (Result-cases first.0) [
        | inl (m, e) ↦ rw e (refl, same_first)
        | inr (done, e) ↦ elim (Result-cases second.0) [
          | inl (m, e') ↦ rw e (rw e' (refl, same_second ∙ same_first))
          | inr (done', e') ↦ rw e (rw e' (refl, same_second ∙ same_first))
        ]
      ]

  pub request_certificate-files :
      (att : Attempt) (user : AcmeUser) (st : State) (name : GoString)
      → str_eq (bytes "cert.pem") name ≡ false
      → str_eq (bytes "key.pem") name ≡ false
      → Leaves name st (request_certificate lib info att user st).1
  unfolding cert_dir
  request_certificate-files att user st name p q =
      elim (request_certificate_lem lib info att user st) [
        | inl (m, e) ↦ rw e (refl, refl)
        | inr (valid, e) ↦ rw e (
            install-Leaves att valid.certificates valid.cert valid.leaf
              (answered lib info att user st) name p q)
      ]
