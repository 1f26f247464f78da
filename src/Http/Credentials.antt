-- ===== src/Http/Credentials.antt =====
-- Which credentials extractUsername of internal/httpserver/server.go accepts.
use mathlib.Core.Bool.{false≢true}
use tripflare.Base.{
  Bool-cases, Option-cases, GoString, str_eq, str_eq_iff, ◌≡◌, refl, sym, ◌∙◌, ◌⊎◌, inl, inr, true,
  ◌&&◌, none, some, List, [], ◌∷◌, arith,
}
use tripflare.Config.{AuthEntry}
use tripflare.Http.Types.{Request, Server}
use tripflare.Http.Routes.{find_user, extract_username}

module _ {S L : Type 0} (server : Server S L) where
  -- an entry of the configuration has the name, and a hash that the password matches
  abbrev pub Knows : GoString → GoString → List AuthEntry → Type 0
  Knows username password [] = ⊥
  Knows username password (entry ∷ entries) =
      ((entry.username ≡ username) × (server.password_matches entry.password_hash password ≡ true))
      ⊎ Knows username password entries

  -- the user that the credentials name, if the configuration knows them, and otherwise no user
  abbrev pub Decided : GoString → GoString → GoString → List AuthEntry → Type 0
  Decided user username password entries =
      (Knows username password entries × (user ≡ username))
      ⊎ ((Knows username password entries → ⊥) × (user ≡ []))

  find_user-Decided :
      (username password : GoString) (entries : List AuthEntry)
      → Decided (find_user server username password entries) username password entries
  unfolding find_user
  find_user-Decided username password [] = inr (λ k. k, refl)
  find_user-Decided username password (entry ∷ entries) =
      elim (Bool-cases
        (str_eq entry.username username && server.password_matches entry.password_hash password)) [
          | inl match ↦ inl (
            inl ((str_eq_iff entry.username username).0 (ground arith), ground arith),
            rw match refl,
          )
          | inr no_match ↦ elim (find_user-Decided username password entries) [
            | inl (k, q) ↦ inl (inr k, rw no_match q)
            | inr (n, q) ↦ inr (
              λ k. elim k [
                | inl (same, matches) ↦
                    let named = (str_eq_iff entry.username username).1 same in
                    false≢true (sym no_match ∙ rw (named, matches) refl)
                | inr k' ↦ n k'
              ],
              rw no_match q,
            )
          ]
        ]

  -- A request has a user exactly where its credentials are those of an entry: the user is the name
  -- that they give, and a request without credentials, or with others, has none.
  pub extract_username_lem :
      (r : Request)
      → ((r.basic_auth ≡ none) × (extract_username server r ≡ []))
        ⊎ ((username : GoString) × (password : GoString) × (r.basic_auth
              ≡ some (username, password))
            × Decided (extract_username server r) username password server.auth)
  unfolding extract_username
  extract_username_lem r = elim (Option-cases r.basic_auth) [
    | inl absent ↦ inl (absent, rw (absent, extract_username) refl)
    | inr ((username, password), given) ↦ inr (
      username,
      password,
      given,
      rw (given, extract_username) (find_user-Decided username password server.auth),
    )
  ]
