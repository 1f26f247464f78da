-- ===== src/Acme/Challenge.antt =====
-- internal/acme/challenge.go: the TXT values by the name that they answer.
use tripflare.Base.{
  if◌then◌else◌, GoString, str_eq, Dict, lookup, insert, remove, Option, none, some, List, [], ◌∷◌,
  ◌++◌,
}

-- the field m of store, without its mutex
abbrev pub Store : Type 0
Store = Dict (List GoString)

unfoldable pub new_challenge_store : Store
new_challenge_store = []

-- c.m[fqdn], which is nil where the key is missing
unfoldable pub values : GoString → Store → List GoString
values fqdn m = elim (lookup fqdn m) [ none ↦ [] | some vals ↦ vals ]

unfoldable pub set : GoString → GoString → Store → Store
set fqdn value m = insert fqdn (values fqdn m ++ value ∷ []) m

-- the loop of Delete: the values without the first that equals `value`, if there is one
unfoldable pub drop_value : GoString → List GoString → Option (List GoString)
drop_value value [] = none
drop_value value (v ∷ vals) =
    if str_eq v value
    then some vals
    else elim (drop_value value vals) [ none ↦ none | some rest ↦ some (v ∷ rest) ]

unfoldable pub drop_from : GoString → GoString → Store → Store
drop_from fqdn value m = elim (drop_value value (values fqdn m)) [
  | none ↦ m
  | some rest ↦ insert fqdn rest m
]

-- Delete
unfoldable pub delete : GoString → GoString → Store → Store
delete fqdn value m =
    let m' = drop_from fqdn value m in elim (values fqdn m') [ [] ↦ remove fqdn m' | _ ∷ _ ↦ m' ]

unfoldable pub get_txt : GoString → Store → List GoString
get_txt fqdn m = values fqdn m
