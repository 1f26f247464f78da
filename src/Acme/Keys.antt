-- ===== src/Acme/Keys.antt =====
-- internal/acme/user.go: the account's key over the attempts of internal/acme/manager.go.
use tripflare.Acme.Outcomes.{Saved, obtain_lem}
use tripflare.Acme.Manager.{obtain}
use tripflare.Acme.Provider.{ChallengeInfo}
use tripflare.Acme.Paths.{str_eq-join, lookup-write_file}
use mathlib.Core.Path.{subst}
use tripflare.Base.{
  GoString, bytes, str_eq, str_eq_refl, lookup, lookup-insert, ok, Result-cases, ℕ, ◌≡◌, refl, sym,
  ◌∙◌, ◌≢◌, inl, inr, some,
}
use tripflare.Acme.Files.{Disk, Write, complete, refused, cut_short, write_file}
use tripflare.Acme.Types.{Key, AcmeUser, Crypto, Attempt, Svc, State, wrap, cert_dir}
use tripflare.Acme.Account.{
  account_key, account_json, Loaded, loaded, missing, broken, decode_key, load_user, create_user,
  get_or_create_user, save_user,
}
use tripflare.Acme.Frames.{request_certificate-files}

-- What encoding/pem and crypto/x509 promise: a key that was encoded decodes to the same.
pub record IsFaithful (lib : Crypto) : Type 0 where
  pub pem : (type data_ : GoString) → lib.pem_decode (lib.pem_encode type data_) ≡ some data_
  pub ec :
      (key : Key) (data_ : GoString)
      → lib.marshal_ec_private_key key ≡ ok data_
      → lib.parse_ec_private_key data_ ≡ ok key

module _ (lib : Crypto) where
  -- an account key that is there can be read back
  abbrev pub KeyUsable : Svc → Disk → Type 0
  KeyUsable s disk =
      (data_ : GoString)
      → lookup (account_key s) disk ≡ some data_
      → (key : Key) × (decode_key lib data_ ≡ ok key)

  -- a write of the account key is either complete or leaves no file
  abbrev pub KeepsKey : Attempt → Svc → Type 0
  KeepsKey att s = (n : ℕ) → att.written (account_key s) ≢ cut_short n

  pub KeyUsable-of_dir :
      (s s' : Svc) (disk : Disk) → cert_dir s' ≡ cert_dir s → KeyUsable s disk → KeyUsable s' disk
  KeyUsable-of_dir s s' disk dir usable data_ there = usable data_ (rw dir at there)

  KeyUsable-of_same :
      (s : Svc) (disk disk' : Disk)
      → lookup (account_key s) disk' ≡ lookup (account_key s) disk
      → KeyUsable s disk
      → KeyUsable s disk'
  KeyUsable-of_same s disk disk' same usable data_ there = usable data_ (sym same ∙ there)

  KeyUsable-write_file :
      (att : Attempt) (s : Svc) (data_ : GoString) (key : Key) (disk : Disk)
      → KeepsKey att s
      → decode_key lib data_ ≡ ok key
      → KeyUsable s disk
      → KeyUsable s (write_file att.written "write account key" (account_key s) data_ disk).1
  unfolding write_file
  KeyUsable-write_file att s data_ key disk keeps good usable =
      go (att.written (account_key s)) refl
    where
      go :
          (w : Write)
          → att.written (account_key s) ≡ w
          → KeyUsable s (write_file att.written "write account key" (account_key s) data_ disk).1
      go complete e =
          rw (e, write_file)
            (λ data_' there.
              let here =
                rw
                  (
                    lookup-insert (account_key s) (account_key s) data_ disk,
                    str_eq_refl (account_key s),
                  )
                  at there in
              (key, cc))
      go refused e = rw (e, write_file) usable
      go (cut_short n) e = absurd (keeps n e)

  create_user-KeyUsable :
      (att : Attempt) (s : Svc) (disk : Disk)
      → IsFaithful lib
      → KeepsKey att s
      → KeyUsable s disk
      → KeyUsable s (create_user lib att s disk).1
  unfolding create_user decode_key wrap
  create_user-KeyUsable att s disk faithful keeps usable = elim (Result-cases att.generate_key) [
    | inl (m, e) ↦ rw (e, create_user) usable
    | inr (key, e) ↦
        rw (e, create_user)
          (elim (Result-cases (lib.marshal_ec_private_key key)) [
            | inl (m, e') ↦ rw e' usable
            | inr (key_bytes, e') ↦
                let key_pem = lib.pem_encode (bytes "EC PRIVATE KEY") key_bytes in
                let good : decode_key lib key_pem ≡ ok key =
                  rw (faithful.pem (bytes "EC PRIVATE KEY") key_bytes, decode_key)
                    (rw (faithful.ec key key_bytes e')) in
                let kept = KeyUsable-write_file att s key_pem key disk keeps good usable in
                rw e'
                  (elim (Result-cases
                    (write_file att.written "write account key" (account_key s) key_pem disk).0) [
                      | inl (m, e'') ↦ rw e'' kept
                      | inr (done, e'') ↦ rw e'' kept
                    ])
          ])
  ]

  get_or_create_user-KeyUsable :
      (att : Attempt) (s : Svc) (disk : Disk)
      → IsFaithful lib
      → KeepsKey att s
      → KeyUsable s disk
      → KeyUsable s (get_or_create_user lib att s disk).1
  unfolding get_or_create_user
  get_or_create_user-KeyUsable att s disk faithful keeps usable = go (load_user lib att s disk) refl
    where
      go :
          (found : Loaded)
          → load_user lib att s disk ≡ found
          → KeyUsable s (get_or_create_user lib att s disk).1
      go (loaded user) e = rw (e, get_or_create_user) usable
      go missing e =
          rw (e, get_or_create_user) (create_user-KeyUsable att s disk faithful keeps usable)
      go (broken m) e = rw (e, get_or_create_user) usable

  save_user-KeyUsable :
      (att : Attempt) (s : Svc) (user : AcmeUser) (disk : Disk)
      → KeyUsable s disk
      → KeyUsable s (save_user lib att s user disk)
  unfolding save_user str_eq
  save_user-KeyUsable att s user disk usable = elim (Result-cases (lib.marshal user)) [
    | inl (m, e) ↦ rw (e, save_user) usable
    | inr (user_data, e) ↦
        rw (e, save_user)
          (KeyUsable-of_same s disk _
            (lookup-write_file att.written "save user registration" (account_json s) (account_key s)
              user_data disk
              (str_eq-join (cert_dir s) (bytes "account.json") (bytes "account.key")))
            usable)
  ]

  Saved-KeyUsable :
      (info : GoString → GoString → ChallengeInfo) (att : Attempt) (s : Svc) (disk disk' : Disk)
      → Saved lib info att s disk disk'
      → KeyUsable s disk
      → KeyUsable s disk'
  Saved-KeyUsable info att s disk disk' (inl e) usable = subst (KeyUsable s) (sym e) usable
  Saved-KeyUsable info att s disk disk' (inr (user, e)) usable =
      subst (KeyUsable s) (sym e) (save_user-KeyUsable att s user disk usable)

module _ (lib : Crypto) (info : GoString → GoString → ChallengeInfo) where
  -- An attempt keeps the directory of the service, and that its account key can be read back.
  pub obtain-KeyUsable :
      (att : Attempt) (st : State)
      → IsFaithful lib
      → KeepsKey lib att st.svc
      → KeyUsable lib st.svc st.disk
      → let st' = (obtain lib info att st).1 in
        (cert_dir st'.svc ≡ cert_dir st.svc) × KeyUsable lib st.svc st'.disk
  unfolding str_eq
  obtain-KeyUsable att st faithful keeps usable =
      let (disk', (saved, ends)) = obtain_lem lib info att st in
      let kept =
        Saved-KeyUsable lib info att st.svc _ disk' saved
          (get_or_create_user-KeyUsable lib att st.svc st.disk faithful keeps usable) in
      elim ends [
        | inl (m, e) ↦ rw e (refl, kept)
        | inr (user, e) ↦
            let (dir, key) =
              request_certificate-files lib info att user (record st { disk = disk' })
                (bytes "account.key") refl refl in
            rw e (dir, KeyUsable-of_same lib st.svc disk' _ key kept)
      ]
