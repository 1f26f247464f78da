-- ===== src/Acme/Retries.antt =====
-- internal/acme/manager.go: Run after a start that could not obtain a certificate.
use tripflare.Base.{
  All, All-imp, GoString, Result, ok, err, ℕ, ◌+◌, ◌*◌, ◌≤◌, ◌<◌, ◌≡◌, refl, ap, ◌∙◌, inl, inr,
  Bool, true, false, String, List, [], ◌∷◌, arith,
}
use tripflare.Acme.Files.{Disk}
use tripflare.Acme.Types.{Leaf, Key, Template, Crypto, Attempt, Svc, State}
use tripflare.Acme.Challenge.{Store}
use tripflare.Acme.SelfSigned.{hour, template}
use tripflare.Acme.Provider.{ChallengeInfo}
use tripflare.Acme.Manager.{renew_before, new, needs_renewal, load_or_obtain, tick, ticks, run}
use tripflare.Acme.Attempts.{obtain_of_err}
use tripflare.Acme.Serving.{IsFresh, new-IsFresh, load_or_obtain_lem}

-- time.Second, in nanoseconds
abbrev pub second : ℕ
second = 1_000_000_000

-- x509: a certificate made from a template ends when the template says, in whole seconds.
abbrev pub KeepsNotAfter : Crypto → Type 0
KeepsNotAfter lib =
    (t : Template) (key : Key) (cert_der : GoString) (leaf : Leaf)
    → lib.create_certificate t key ≡ ok cert_der
    → lib.parse_certificate cert_der ≡ ok leaf
    → t.not_after < leaf.not_after + second

module _ (lib : Crypto) (info : GoString → GoString → ChallengeInfo) where
  pub tick_of_fine :
      (now : ℕ) (att : Attempt) (st : State)
      → needs_renewal now st.svc ≡ false
      → tick lib info (now, att) st ≡ st
  unfolding tick
  tick_of_fine now att st fine = rw (fine, tick)

  ticks_of_fine :
      (ts : List (ℕ × Attempt)) (st : State)
      → All (λ t. needs_renewal t.0 st.svc ≡ false) ts
      → ticks lib info ts st ≡ st
  unfolding ticks
  ticks_of_fine [] st fine = refl
  ticks_of_fine ((now, att) ∷ ts) st (fine, more) =
      rw (tick_of_fine now att st fine) (ticks_of_fine ts st more)

  load_or_obtain_of_err :
      (att : Attempt) (now : ℕ) (st : State) (m : String)
      → (load_or_obtain lib info att now st).0 ≡ err m
      → (load_or_obtain lib info att now st).1.svc.cert ≡ st.svc.cert
  load_or_obtain_of_err att now st m h = elim (load_or_obtain_lem lib info att now st) [
    | inl e ↦ rw e ((obtain_of_err lib info att st m (rw e at h)).0)
    | inr (cert, (leaf, (parsed, e))) ↦ absurd (let h' = rw e at h in cc)
  ]

  needs_renewal_of_fresh :
      (domain : GoString) (t₀ : ℕ) (s s' : Svc)
      → KeepsNotAfter lib
      → IsFresh lib domain true t₀ s
      → s'.cert ≡ s.cert
      → (now : ℕ) → now + renew_before + second ≤ t₀ + 10 * 365 * 24 * hour
      → needs_renewal now s' ≡ false
  unfolding needs_renewal template
  needs_renewal_of_fresh domain t₀ s s' keeps fresh same now early =
      let long = keeps _ fresh.key fresh.cert_der fresh.leaf fresh.created fresh.parsed in
      rw (same ∙ fresh.has_cert, needs_renewal) (ground (arith, long))

  pub run_of_enabled :
      (now : ℕ) (att : Attempt) (ts : List (ℕ × Attempt)) (st : State)
      → st.svc.enabled ≡ true
      → run lib info (ok tt) (now, att) ts st
        ≡ (ok tt, ticks lib info ts (load_or_obtain lib info att now st).1)
  unfolding run
  run_of_enabled now att ts st enabled = ground arith

  -- When the attempt at the start of Run fails, Run never tries again for as long as the
  -- self-signed certificate has more than thirty days and a second left, which is for nearly ten
  -- years: whatever ticks come, the state stays as that attempt left it, and the self-signed
  -- certificate goes on being served.
  pub run_of_failed_start :
      (domain email cert_path : GoString) (staging : Bool) (challenge : Store)
      (new_key : Result Key) (new_serial : Result ℕ) (t₀ : ℕ) (s : Svc) (now : ℕ) (att : Attempt)
      (ts : List (ℕ × Attempt)) (disk : Disk) (m : String)
      → KeepsNotAfter lib
      → new lib domain email cert_path staging true challenge new_key new_serial t₀ ≡ ok s
      → let started = load_or_obtain lib info att now (record { svc = s; disk = disk }) in
        started.0 ≡ err m
        → All (λ t. t.0 + renew_before + second ≤ t₀ + 10 * 365 * 24 * hour) ts
        → (run lib info (ok tt) (now, att) ts (record { svc = s; disk = disk })
            ≡ (ok tt, started.1))
          × (started.1.svc.cert ≡ s.cert)
  run_of_failed_start domain email cert_path staging challenge new_key new_serial t₀ s now att ts
        disk m keeps made failed early =
      let st : State = record { svc = s; disk = disk } in
      let fresh =
        new-IsFresh lib domain email cert_path staging true challenge new_key new_serial t₀ s
          made in
      let same = load_or_obtain_of_err att now st m failed in
      let fine =
        All-imp ts
          (λ t.
            needs_renewal_of_fresh domain t₀ s (load_or_obtain lib info att now st).1.svc keeps
              fresh same (t.0))
          early in
      (
        run_of_enabled now att ts st fresh.has_enabled
            ∙ ap (λ st'. (ok tt, st')) (ticks_of_fine ts _ fine),
        same,
      )
