-- ===== src/Acme/Renewal.antt =====
-- internal/acme/manager.go: the ticks of Run, and a day on which everything answers.
use tripflare.Acme.Attempts.{obtain_of_ok}
use tripflare.Acme.Serving.{load_or_obtain_lem}
use tripflare.Acme.Retries.{tick_of_fine, run_of_enabled}
use tripflare.Base.{
  Bool-cases, All, All-imp, GoString, bytes, ok, ℕ, ◌≡◌, refl, ◌∙◌, inl, inr, true, false, List, [],
  ◌∷◌, ◌++◌, arith,
}
use tripflare.Acme.Types.{Crypto, Attempt, State, cert_dir}
use tripflare.Acme.Provider.{ChallengeInfo}
use tripflare.Acme.Manager.{needs_renewal, serve, obtain, load_or_obtain, tick, ticks, run}
use tripflare.Acme.Keys.{IsFaithful, KeyUsable, KeepsKey, KeyUsable-of_dir, obtain-KeyUsable}
use tripflare.Acme.Good.{IsGood, Valid-not_after, obtain_of_good}
use tripflare.Acme.Serving.{load_or_obtain_lem}

module _ (lib : Crypto) (info : GoString → GoString → ChallengeInfo) where
  needs_renewal-obtain :
      (t : ℕ) (att : Attempt) (st : State)
      → IsGood lib t att
      → KeyUsable lib st.svc st.disk
      → needs_renewal t (obtain lib info att st).1.svc ≡ false
  unfolding needs_renewal
  needs_renewal-obtain t att st good usable =
      let ((user, valid), (served, _)) =
        obtain_of_ok lib info att st (obtain_of_good lib info t att st good usable) in
      let (v, later) = good.issues user (st.svc.domain ∷ (bytes "*." ++ st.svc.domain) ∷ []) in
      let same : v.leaf.not_after ≡ valid.leaf.not_after = Valid-not_after lib _ v valid in
      rw (served, needs_renewal) (ground (arith, later, same))

  pub tick-needs_renewal :
      (t : ℕ) (att : Attempt) (st : State)
      → IsGood lib t att
      → KeyUsable lib st.svc st.disk
      → needs_renewal t (tick lib info (t, att) st).svc ≡ false
  unfolding tick
  tick-needs_renewal t att st good usable = elim (Bool-cases (needs_renewal t st.svc)) [
    | inl due ↦ rw (due, tick) (needs_renewal-obtain t att st good usable)
    | inr fine ↦ rw (tick_of_fine lib info t att st fine) fine
  ]

  -- the directory stays, and the account key can still be read
  abbrev Kept : State → State → Type 0
  Kept st st' = (cert_dir st'.svc ≡ cert_dir st.svc) × KeyUsable lib st'.svc st'.disk

  obtain-Kept :
      (att : Attempt) (st : State)
      → IsFaithful lib
      → KeepsKey lib att st.svc
      → KeyUsable lib st.svc st.disk
      → Kept st (obtain lib info att st).1
  obtain-Kept att st faithful keeps usable =
      let (dir, key) = obtain-KeyUsable lib info att st faithful keeps usable in
      (dir, KeyUsable-of_dir lib st.svc (obtain lib info att st).1.svc _ dir key)

  tick-Kept :
      (t : ℕ) (att : Attempt) (st : State)
      → IsFaithful lib
      → KeepsKey lib att st.svc
      → KeyUsable lib st.svc st.disk
      → Kept st (tick lib info (t, att) st)
  unfolding tick
  tick-Kept t att st faithful keeps usable = elim (Bool-cases (needs_renewal t st.svc)) [
    | inl due ↦ rw (due, tick) (obtain-Kept att st faithful keeps usable)
    | inr fine ↦ rw (fine, tick) (refl, usable)
  ]

  load_or_obtain-Kept :
      (att : Attempt) (now : ℕ) (st : State)
      → IsFaithful lib
      → KeepsKey lib att st.svc
      → KeyUsable lib st.svc st.disk
      → Kept st (load_or_obtain lib info att now st).1
  unfolding serve cert_dir
  load_or_obtain-Kept att now st faithful keeps usable =
      elim (load_or_obtain_lem lib info att now st) [
        | inl e ↦ rw e (obtain-Kept att st faithful keeps usable)
        | inr (cert, (leaf, (_, e))) ↦ rw e (refl, usable)
      ]

  ticks-Kept :
      (ts : List (ℕ × Attempt)) (st : State)
      → IsFaithful lib
      → All (λ t. KeepsKey lib (t.1) st.svc) ts
      → KeyUsable lib st.svc st.disk
      → Kept st (ticks lib info ts st)
  unfolding ticks
  ticks-Kept [] st faithful keeps usable = (refl, usable)
  ticks-Kept ((t, att) ∷ ts) st faithful (keep, keeps) usable =
      let st' = tick lib info (t, att) st in
      let (dir, usable') = tick-Kept t att st faithful keep usable in
      let (dir', usable'') =
        ticks-Kept ts st' faithful (All-imp ts (λ x k n e. k n (rw dir at e)) keeps) usable' in
      (dir' ∙ dir, usable'')

  ticks-append :
      (ts us : List (ℕ × Attempt)) (st : State)
      → ticks lib info (ts ++ us) st ≡ ticks lib info us (ticks lib info ts st)
  unfolding ticks
  ticks-append [] us st = refl
  ticks-append (t ∷ ts) us st = ticks-append ts us (tick lib info t st)

  -- Whatever failed at the start and on the days before: if Run is enabled, the account's key was
  -- never half written, and there comes a tick at which nothing fails and the authority sends a
  -- certificate that is good for thirty days, then after that tick the certificate served is not
  -- due for renewal.
  pub run-needs_renewal :
      (st : State) (now : ℕ) (att₀ : Attempt) (before : List (ℕ × Attempt)) (t : ℕ) (att : Attempt)
      → IsFaithful lib
      → st.svc.enabled ≡ true
      → KeyUsable lib st.svc st.disk
      → KeepsKey lib att₀ st.svc
      → All (λ b. KeepsKey lib (b.1) st.svc) before
      → IsGood lib t att
      → needs_renewal t (run lib info (ok tt) (now, att₀) (before ++ (t, att) ∷ []) st).1.svc
        ≡ false
  unfolding ticks
  run-needs_renewal st now att₀ before t att faithful enabled usable keep keeps good =
      let st₁ = (load_or_obtain lib info att₀ now st).1 in
      let (dir₁, usable₁) = load_or_obtain-Kept att₀ now st faithful keep usable in
      let keeps₁ = All-imp before (λ x k n e. k n (rw dir₁ at e)) keeps in
      let (dir₂, usable₂) = ticks-Kept before st₁ faithful keeps₁ usable₁ in
      rw
        (
          run_of_enabled lib info now att₀ (before ++ (t, att) ∷ []) st enabled,
          ticks-append before ((t, att) ∷ []) st₁,
        )
        (tick-needs_renewal t att (ticks lib info before st₁) good usable₂)
