-- ===== src/Acme/Accounts.antt =====
-- internal/acme/user.go: the account after an attempt of internal/acme/manager.go that succeeded.
use tripflare.Acme.Frames.{request_certificate-files}
use tripflare.Acme.Outcomes.{answered, setup_acme_client-state}
use tripflare.Acme.Manager.{register_if_needed, request_certificate, obtain}
use tripflare.Acme.Provider.{ChallengeInfo}
use tripflare.Acme.Good.{IsGood, setup_acme_client_of_good}
use tripflare.Acme.Keys.{IsFaithful, KeyUsable}
use tripflare.Base.{
  Bool-cases, GoString, bytes, str_eq, insert, ok, ℕ, ◌≡◌, refl, ◌∙◌, inl, inr, true, false, some,
}
use tripflare.Acme.Files.{Disk, write_file}
use tripflare.Acme.Types.{AcmeUser, Crypto, Attempt, Svc, State, wrap, cert_dir}
use tripflare.Acme.Account.{
  registered, account_json, loaded, load_user, get_or_create_user, save_user,
}
use tripflare.Acme.Registered.{
  KeepsAccounts, load_user_lem, Recorded, get_or_create_user-Recorded, Kept, saved-Kept,
}

module _ (lib : Crypto) (info : GoString → GoString → ChallengeInfo) where
  save_user_of_good :
      (t : ℕ) (att : Attempt) (s : Svc) (user : AcmeUser) (data_ : GoString) (disk : Disk)
      → IsGood lib t att
      → lib.marshal user ≡ ok data_
      → save_user lib att s user disk ≡ insert (account_json s) data_ disk
  unfolding save_user write_file
  save_user_of_good t att s user data_ disk good marshalled =
      rw (marshalled, save_user) (rw (good.writable (account_json s), write_file))

  register_if_needed-Kept :
      (t : ℕ) (att : Attempt) (user : AcmeUser) (st : State)
      → IsGood lib t att
      → KeepsAccounts lib att
      → Recorded lib st.svc user st.disk
      → (user' : AcmeUser) × ((disk' : Disk) × ((register_if_needed lib info att user st
              ≡ (ok user', record st { disk = disk' }))
            × Kept lib st.svc disk'))
  unfolding register_if_needed
  register_if_needed-Kept t att user st good accounts recorded =
      elim (Bool-cases (registered user)) [
        | inl e ↦ (user, (st.disk, (rw (e, register_if_needed), (user, ((recorded.1.1.1.1) e, e)))))
        | inr e ↦
            let (a, answered) = good.registers user in
            let (data_, (marshalled, reads)) = accounts.saved user a answered in
            let user' : AcmeUser = record user { registration = some a } in
            let disk' = insert (account_json st.svc) data_ st.disk in
            let saves = save_user_of_good t att st.svc user' data_ st.disk good marshalled in
            (
              user',
              (
                disk',
                (
                  rw (e, register_if_needed) (rw answered (rw saves)),
                  saved-Kept lib st.svc user a data_ st.disk recorded
                      (accounts.located user a answered) reads,
                ),
              ),
            )
      ]

  -- an attempt that nothing fails ends as its request does, with an account that is read back
  obtain_lem_of_good :
      (t : ℕ) (att : Attempt) (st : State)
      → IsFaithful lib
      → IsGood lib t att
      → KeepsAccounts lib att
      → KeyUsable lib st.svc st.disk
      → (user : AcmeUser) × ((disk' : Disk) × ((obtain lib info att st
              ≡ request_certificate lib info att user (record st { disk = disk' }))
            × Kept lib st.svc disk'))
  unfolding obtain wrap
  obtain_lem_of_good t att st faithful good accounts usable =
      let (user, (made, recorded)) =
        get_or_create_user-Recorded lib t att st.svc st.disk faithful good usable in
      let st' : State = record st { disk = (get_or_create_user lib att st.svc st.disk).1 } in
      let (user', (disk', (registers, kept))) =
        register_if_needed-Kept t att user st' good accounts recorded in
      (
        user',
        (
          disk',
          (
            rw (made, obtain)
                (rw (setup_acme_client_of_good lib info t att user st' good)
                  (rw (setup_acme_client-state lib info att user st') (rw registers))),
            kept,
          ),
        ),
      )

  -- After an attempt during which nothing failed, each later attempt that can read the files, also
  -- after a restart with the same certificate path, e-mail and choice of staging, loads an account
  -- that is registered, and writes no file for it.
  pub get_or_create_user-obtain :
      (t : ℕ) (att : Attempt) (st : State) (att' : Attempt) (s : Svc)
      → IsFaithful lib
      → IsGood lib t att
      → KeepsAccounts lib att
      → KeyUsable lib st.svc st.disk
      → ((path : GoString) → att'.denied path ≡ false)
      → cert_dir s ≡ cert_dir st.svc
      → s.email ≡ st.svc.email
      → let st' = (obtain lib info att st).1 in
        (user : AcmeUser) × ((get_or_create_user lib att' s st'.disk ≡ (ok user, st'.disk))
          × (registered user ≡ true))
  unfolding get_or_create_user str_eq
  get_or_create_user-obtain t att st att' s faithful good accounts usable readable dir email =
      let (user, (disk', (ends, (kept, (reads, is_registered))))) =
        obtain_lem_of_good t att st faithful good accounts usable in
      let st₁ : State = record st { disk = disk' } in
      let key_same =
        (request_certificate-files lib info att user st₁ (bytes "account.key") refl refl).1 in
      let json_same =
        (request_certificate-files lib info att user st₁ (bytes "account.json") refl refl).1 in
      let final = (request_certificate lib info att user st₁).1.disk in
      let loads_it : load_user lib att' s final ≡ loaded kept =
        load_user_lem lib att' s final readable ∙ rw (dir, email, key_same, json_same) reads in
      (kept, (rw ends (rw (loads_it, get_or_create_user)), is_registered))
