-- ===== src/Acme/Restart.antt =====
-- internal/acme/manager.go: a start after a certificate was obtained.
use tripflare.Base.{leb, GoString, lookup, Result, ok, ℕ, ◌+◌, ◌≡◌, ap, Bool, false, some, arith}
use tripflare.Acme.Files.{Disk, contents, read_file}
use tripflare.Acme.Types.{Crypto, Obtained, Attempt, Svc, State, cert_dir}
use tripflare.Acme.Provider.{ChallengeInfo}
use tripflare.Acme.Manager.{
  renew_before, needs_renewal, cert_file, key_file, serve, obtain, load_key_pair, load_or_obtain,
}
use tripflare.Acme.Paths.{pair_files}
use tripflare.Acme.Outcomes.{Valid}
use tripflare.Acme.Attempts.{obtain_of_ok}

read_file_of_some :
    (denied : GoString → Bool) (path data_ : GoString) (disk : Disk)
    → denied path ≡ false
    → lookup path disk ≡ some data_
    → read_file denied path disk ≡ contents data_
unfolding read_file
read_file_of_some denied path data_ disk readable there = rw readable (rw there)

module _ (lib : Crypto) (info : GoString → GoString → ChallengeInfo) where
  load_key_pair_of_files :
      (att : Attempt) (st : State) (c k : GoString)
      → ((path : GoString) → att.denied path ≡ false)
      → pair_files st.svc st.disk ≡ (some c, some k)
      → load_key_pair lib info att st ≡ lib.x509_key_pair c k
  unfolding load_key_pair
  load_key_pair_of_files att st c k readable files =
      rw
        (
          read_file_of_some att.denied (cert_file st.svc) c st.disk (readable _)
              (ap (λ p. p.0) files),
          load_key_pair,
        )
        (rw (
          read_file_of_some att.denied (key_file st.svc) k st.disk (readable _)
            (ap (λ p. p.1) files)))

  -- not due one nanosecond later, which is what a start asks for
  load_of_Valid :
      (att : Attempt) (now : ℕ) (st : State) (answer : Result Obtained) (valid : Valid lib answer)
      → ((path : GoString) → att.denied path ≡ false)
      → pair_files st.svc st.disk
        ≡ (some valid.certificates.certificate, some valid.certificates.private_key)
      → leb valid.leaf.not_after (now + renew_before) ≡ false
      → load_or_obtain lib info att now st ≡ (ok tt, serve valid.cert valid.leaf st)
  unfolding load_or_obtain
  load_of_Valid att now st answer valid readable files fine =
      rw (load_key_pair_of_files att st _ _ readable files, valid.paired, load_or_obtain)
        (rw valid.parsed (rw fine))

  -- After an attempt that succeeded, a service that starts with the same certificate path and the
  -- same choice of staging, and can read its files, serves that same certificate without asking the
  -- authority, so long as the certificate is not yet due for renewal at the start or a nanosecond
  -- later.
  pub load_or_obtain-obtain :
      (att : Attempt) (st : State) (att' : Attempt) (now : ℕ) (s : Svc)
      → (obtain lib info att st).0 ≡ ok tt
      → cert_dir s ≡ cert_dir st.svc
      → ((path : GoString) → att'.denied path ≡ false)
      → let st' = (obtain lib info att st).1 in
        needs_renewal (now + 1) st'.svc ≡ false
        → load_or_obtain lib info att' now (record { svc = s; disk = st'.disk })
          ≡ (ok tt, record { svc = record s { cert = st'.svc.cert }; disk = st'.disk })
  unfolding needs_renewal serve
  load_or_obtain-obtain att st att' now s success same_dir readable fine =
      let ((user, valid), (served, (_, files))) = obtain_of_ok lib info att st success in
      let st' = (obtain lib info att st).1 in
      let same_files : pair_files s st'.disk
          ≡ (some valid.certificates.certificate, some valid.certificates.private_key) =
        rw same_dir files in
      let later = rw (served, needs_renewal) at fine in
      rw served (
        load_of_Valid att' now (record { svc = s; disk = st'.disk }) _ valid readable same_files
          (ground arith))
