-- ===== src/Acme/Bags.antt =====
-- internal/acme/challenge.go behind internal/acme/provider.go: the store as a bag of values for each
-- name, which forgets their order and how the map is laid out.
use mathlib.Core.Path.{fun_ext}
use tripflare.Base.{GoString, ℕ, ◌+◌, ◌-◌, ◌≡◌, refl, ap, ◌∙◌, List, [], ◌∷◌}
use tripflare.Acme.Challenge.{Store, get_txt}
use tripflare.Acme.Types.{ProviderCall, presents, cleans_up}
use tripflare.Acme.Provider.{
  ChallengeInfo, present, clean_up, occurrences, hit, occurrences-set, occurrences-delete,
}
use tripflare.Acme.Manager.{run_calls}

-- how often a name has a value
abbrev pub Bag : Type 0
Bag = GoString → GoString → ℕ

abbrev pub bag : Store → Bag
bag m name v = occurrences v (get_txt name m)

module _ (info : GoString → GoString → ChallengeInfo) where
  -- A challenge presented is one value more, and one cleaned up is one less, if there is one.
  pub apply : ProviderCall → Bag → Bag
  apply (presents domain key_auth) b name v =
      let c = info domain key_auth in b name v + hit c.fqdn c.value name v
  apply (cleans_up domain key_auth) b name v =
      let c = info domain key_auth in b name v - hit c.fqdn c.value name v

  pub apply_all : List ProviderCall → Bag → Bag
  apply_all [] b = b
  apply_all (c ∷ cs) b = apply_all cs (apply c b)

  present-refines :
      (domain key_auth : GoString) (m : Store)
      → bag (present info domain key_auth m) ≡ apply (presents domain key_auth) (bag m)
  unfolding present apply
  present-refines domain key_auth m =
      let c = info domain key_auth in
      fun_ext (λ name. fun_ext (λ v. occurrences-set c.fqdn c.value name v m))

  clean_up-refines :
      (domain key_auth : GoString) (m : Store)
      → bag (clean_up info domain key_auth m) ≡ apply (cleans_up domain key_auth) (bag m)
  unfolding clean_up apply
  clean_up-refines domain key_auth m =
      let c = info domain key_auth in
      fun_ext (λ name. fun_ext (λ v. occurrences-delete c.fqdn c.value name v m))

  -- Whatever lego calls of the provider, in any order and on any store: the values that the DNS
  -- server finds under each name, counted, are those of the same calls on a bag.
  pub run_calls-refines :
      (calls : List ProviderCall) (m : Store)
      → bag (run_calls info calls m) ≡ apply_all calls (bag m)
  unfolding run_calls apply_all
  run_calls-refines [] m = refl
  run_calls-refines (presents domain key_auth ∷ calls) m =
      run_calls-refines calls (present info domain key_auth m)
      ∙ ap (apply_all calls) (present-refines domain key_auth m)
  run_calls-refines (cleans_up domain key_auth ∷ calls) m =
      run_calls-refines calls (clean_up info domain key_auth m)
      ∙ ap (apply_all calls) (clean_up-refines domain key_auth m)
