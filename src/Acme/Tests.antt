-- ===== src/Acme/Tests.antt =====
-- The challenges (internal/acme) of a domain and of its wildcard, which share a name.
use tripflare.Acme.Bags.{bag, apply_all, run_calls-refines}
use tripflare.Acme.Types.{presents, cleans_up}
use tripflare.Acme.Manager.{run_calls}
use tripflare.Acme.Provider.{ChallengeInfo, present, present_all}
use tripflare.Acme.Challenge.{new_challenge_store, values, set, get_txt}
use tripflare.Base.{GoString, bytes, str_eq, lookup, insert, ◌≡◌, refl, [], ◌∷◌, ◌++◌}

-- what lego answers, so far as the tests need it
abbrev info : GoString → GoString → ChallengeInfo
info domain key_auth = record { fqdn = bytes "_acme-challenge." ++ domain; value = key_auth }

abbrev name : GoString
name = bytes "_acme-challenge.a.io."

both :
    get_txt name (
      present_all info
        ((bytes "a.io.", bytes "v1") ∷ (bytes "a.io.", bytes "v2") ∷ [])
        new_challenge_store)
    ≡ bytes "v1" ∷ bytes "v2" ∷ []
unfolding get_txt present_all present set values lookup insert str_eq new_challenge_store
both = refl

run_calls-refines_example :
    bag (
      run_calls info
        (presents (bytes "a.io.") (bytes "v1") ∷ cleans_up (bytes "a.io.") (bytes "v2") ∷ [])
        [])
    ≡ apply_all info
        (presents (bytes "a.io.") (bytes "v1") ∷ cleans_up (bytes "a.io.") (bytes "v2") ∷ [])
        (bag [])
run_calls-refines_example =
    run_calls-refines info
      (presents (bytes "a.io.") (bytes "v1") ∷ cleans_up (bytes "a.io.") (bytes "v2") ∷ []) []
