-- ===== src/Acme/Provider.antt =====
-- internal/acme/provider.go, and what the DNS server reads of the store after its calls.
use mathlib.Core.Option
use tripflare.Base.{
  if◌then◌else◌, Bool-cases, Option-cases, GoString, str_eq, str_eq_iff, insert, remove,
  lookup-insert, lookup-remove, ℕ, ◌+◌, ◌-◌, ◌≡◌, refl, sym, ◌∙◌, inl, inr, ◌&&◌, List, [], ◌∷◌,
  ◌++◌, arith,
}
use tripflare.Acme.Challenge.{Store, values, set, drop_value, drop_from, delete, get_txt}

-- dns01.GetChallengeInfo is lego's: the name and the value that a domain and a key authorisation
-- ask for.
pub record ChallengeInfo : Type 0 where
  pub fqdn : GoString
  pub value : GoString

module _ (get_challenge_info : GoString → GoString → ChallengeInfo) where
  unfoldable pub present : GoString → GoString → Store → Store
  present domain key_auth m =
      let info = get_challenge_info domain key_auth in set info.fqdn info.value m

  unfoldable pub clean_up : GoString → GoString → Store → Store
  clean_up domain key_auth m =
      let info = get_challenge_info domain key_auth in delete info.fqdn info.value m

values-insert :
    (k name : GoString) (vals : List GoString) (m : Store)
    → values name (insert k vals m) ≡ (if str_eq k name then vals else values name m)
unfolding values
values-insert k name vals m = ground (arith, lookup-insert k name vals m)

values-remove :
    (k name : GoString) (m : Store)
    → values name (remove k m) ≡ (if str_eq k name then [] else values name m)
unfolding values
values-remove k name m = ground (arith, lookup-remove k name m)

-- how often v stands among the values
pub occurrences : GoString → List GoString → ℕ
occurrences v [] = 0
occurrences v (x ∷ xs) = (if str_eq x v then 1 else 0) + occurrences v xs

occurrences-append :
    (v : GoString) (xs ys : List GoString)
    → occurrences v (xs ++ ys) ≡ occurrences v xs + occurrences v ys
unfolding occurrences
occurrences-append v [] ys = omega arith
occurrences-append v (x ∷ xs) ys = omega (arith, occurrences-append v xs ys)

-- 1 for the name and the value that a challenge is about
abbrev pub hit : GoString → GoString → GoString → GoString → ℕ
hit fqdn value name v = if str_eq fqdn name && str_eq value v then 1 else 0

pub occurrences-set :
    (fqdn value name v : GoString) (m : Store)
    → occurrences v (get_txt name (set fqdn value m))
      ≡ occurrences v (get_txt name m) + hit fqdn value name v
unfolding get_txt set
occurrences-set fqdn value name v m =
    rw (values-insert fqdn name (values fqdn m ++ value ∷ []) m)
      (elim (Bool-cases (str_eq fqdn name)) [
        | inl same ↦
            rw (same, (str_eq_iff fqdn name).0 same)
              (occurrences-append v (values name m) (value ∷ [])
                ∙ (unfold occurrences in ground arith))
        | inr other ↦ rw other (omega arith)
      ])

occurrences-drop_value :
    (value v : GoString) (vals : List GoString)
    → occurrences v (Option.get_or (drop_value value vals) vals)
      ≡ occurrences v vals - (if str_eq value v then 1 else 0)
unfolding occurrences drop_value
occurrences-drop_value value v [] = ground arith
occurrences-drop_value value v (x ∷ vals) = ground (
  arith,
  occurrences-drop_value value v vals,
  str_eq_iff x value,
  str_eq_iff x v,
  str_eq_iff value v,
)

values-drop_from :
    (fqdn value name : GoString) (m : Store)
    → values name (drop_from fqdn value m) ≡ (
        if str_eq fqdn name
        then Option.get_or (drop_value value (values fqdn m)) (values fqdn m)
        else values name m)
unfolding drop_from
values-drop_from fqdn value name m = elim (Option-cases (drop_value value (values fqdn m))) [
  | inl absent ↦ rw (absent, drop_from) (ground (arith, str_eq_iff fqdn name))
  | inr (rest, there) ↦ rw (there, drop_from) (values-insert fqdn name rest m)
]

-- deleting a key that has no values left changes nothing
values_of_empty :
    (fqdn name : GoString) (m : Store) (vals : List GoString)
    → values fqdn m ≡ vals
    → values name (let m' = m in elim vals [ [] ↦ remove fqdn m' | _ ∷ _ ↦ m' ]) ≡ values name m
values_of_empty fqdn name m [] e =
    values-remove fqdn name m ∙ elim (Bool-cases (str_eq fqdn name)) [
      | inl same ↦ rw same (rw (← (str_eq_iff fqdn name).0 same) (sym e))
      | inr other ↦ rw other
    ]
values_of_empty fqdn name m (v ∷ vals) e = refl

values-delete :
    (fqdn value name : GoString) (m : Store)
    → values name (delete fqdn value m) ≡ values name (drop_from fqdn value m)
unfolding delete
values-delete fqdn value name m = values_of_empty fqdn name (drop_from fqdn value m) _ refl

pub occurrences-delete :
    (fqdn value name v : GoString) (m : Store)
    → occurrences v (get_txt name (delete fqdn value m))
      ≡ occurrences v (get_txt name m) - hit fqdn value name v
unfolding get_txt
occurrences-delete fqdn value name v m =
    rw (values-delete fqdn value name m, values-drop_from fqdn value name m)
      (elim (Bool-cases (str_eq fqdn name)) [
        | inl same ↦
            rw (same, (str_eq_iff fqdn name).0 same)
              (occurrences-drop_value value v (values name m))
        | inr other ↦ rw other (omega arith)
      ])

module _ (get_challenge_info : GoString → GoString → ChallengeInfo) where
  -- challenges presented one after another, by their domains and key authorisations
  unfoldable pub present_all : List (GoString × GoString) → Store → Store
  present_all [] m = m
  present_all ((domain, key_auth) ∷ more) m =
      present_all more (present get_challenge_info domain key_auth m)

  abbrev hits : List (GoString × GoString) → GoString → GoString → ℕ
  hits [] name v = 0
  hits ((domain, key_auth) ∷ more) name v =
      hit (get_challenge_info domain key_auth).fqdn (get_challenge_info domain key_auth).value name
        v
      + hits more name v

  occurrences-present_all :
      (more : List (GoString × GoString)) (name v : GoString) (m : Store)
      → occurrences v (get_txt name (present_all more m))
        ≡ occurrences v (get_txt name m) + hits more name v
  unfolding present_all present
  occurrences-present_all [] name v m = omega arith
  occurrences-present_all ((domain, key_auth) ∷ more) name v m =
      let info = get_challenge_info domain key_auth in
      omega (
        arith,
        occurrences-present_all more name v (set info.fqdn info.value m),
        occurrences-set info.fqdn info.value name v m,
      )

  -- A challenge that is presented, and cleaned up after any others were presented, leaves every
  -- value of every name as often as if only those others had been presented. So cleaning up one of
  -- two challenges of one name, as the apex and the wildcard have, leaves the other's value.
  clean_up-present :
      (domain key_auth : GoString) (others : List (GoString × GoString)) (name v : GoString)
      (m : Store)
      → occurrences v (
          get_txt name (
            clean_up get_challenge_info domain key_auth
              (present_all others (present get_challenge_info domain key_auth m))))
        ≡ occurrences v (get_txt name (present_all others m))
  unfolding present clean_up
  clean_up-present domain key_auth others name v m =
      let info = get_challenge_info domain key_auth in
      omega (
        arith,
        occurrences-delete info.fqdn info.value name v
            (present_all others (set info.fqdn info.value m)),
        occurrences-present_all others name v (set info.fqdn info.value m),
        occurrences-present_all others name v m,
        occurrences-set info.fqdn info.value name v m,
      )
