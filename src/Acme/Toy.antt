-- ===== src/Acme/Toy.antt =====
-- A toy cryptography, and what may happen during an attempt of the manager of the certificate
-- (internal/acme/manager.go).
use tripflare.Acme.Challenge.{new_challenge_store}
use tripflare.Base.{
  if◌then◌else◌, GoString, bytes, str_eq, Result, ok, err, ℕ, ◌*◌, refl, sym, true, false, none,
  some, [], ◌∷◌, ◌++◌, arith,
}
use tripflare.Acme.Files.{complete, cut_short}
use tripflare.Acme.Types.{Leaf, Certificate, Crypto, presents, cleans_up, Attempt, Svc}
use tripflare.Acme.SelfSigned.{hour}
use tripflare.Acme.Provider.{ChallengeInfo}
use tripflare.Acme.Outcomes.{Valid}
use tripflare.Acme.Retries.{KeepsNotAfter}
use tripflare.Acme.Keys.{IsFaithful}
use tripflare.Acme.Good.{IsGood}

-- a certificate is its end and the key that it is for
abbrev chain : GoString → GoString → Result Certificate
chain [] key = err "no certificate"
chain (t ∷ owner) key =
    if str_eq owner key
    then ok (record { first = t ∷ owner; rest = []; private_key = key; leaf = none })
    else err "keys differ"

abbrev ending : GoString → Result Leaf
ending [] = err "malformed"
ending (t ∷ owner) = ok (record { not_after = t; issuer = bytes "toy" })

abbrev pub toy : Crypto
toy = record {
  x509_key_pair = chain;
  parse_certificate = ending;
  create_certificate = λ t key. ok (t.not_after ∷ key);
  pem_decode = some;
  pem_encode = λ type data_. data_;
  parse_ec_private_key = ok;
  marshal_ec_private_key = ok;
  unmarshal =
      λ data_ user. record user { registration = some (record { location = data_; body = [] }) };
  marshal = λ user. elim user.registration [ none ↦ err "no account" | some a ↦ ok a.location ];
}

pub toy-IsFaithful : IsFaithful toy
toy-IsFaithful = record { pem = λ type data_. refl; ec = λ key data_ e. sym e }

pub toy-KeepsNotAfter : KeepsNotAfter toy
toy-KeepsNotAfter t key cert_der leaf made parsed = ground arith

abbrev pub info : GoString → GoString → ChallengeInfo
info domain key_auth = record { fqdn = bytes "_acme-challenge." ++ domain; value = key_auth }

-- an attempt during which all goes well, with a certificate that ends at `end`
abbrev pub fine : ℕ → Attempt
fine end = record {
  generate_key = ok (7 ∷ []);
  denied = λ path. false;
  written = λ path. complete;
  new_client = λ user staging. ok tt;
  set_provider = ok tt;
  register = λ user. ok (record { location = bytes "acct/1"; body = [] });
  obtain = λ user domains. (
    presents (bytes "a.io.") (bytes "v") ∷ cleans_up (bytes "a.io.") (bytes "v") ∷ [],
    ok (record { certificate = end ∷ 9 ∷ []; private_key = 9 ∷ [] }),
  );
}

-- the authority cannot be reached
abbrev pub offline : Attempt
offline = record (fine 0) { new_client = λ user staging. err "no route" }

-- the disk is full when the key is written
abbrev pub full : ℕ → Attempt
full end = record (fine end) {
  written = λ path. if str_eq path (bytes "d/prod/key.pem") then cut_short 0 else complete;
}

abbrev pub year : ℕ
year = 365 * 24 * hour

pub fine-IsGood : IsGood toy 0 (fine year)
unfolding str_eq
fine-IsGood = record {
  key = 7 ∷ [];
  key_bytes = 7 ∷ [];
  generated = refl;
  marshalled = refl;
  readable = λ path. refl;
  writable = λ path. refl;
  connects = λ user staging. refl;
  provides = refl;
  registers = λ user. (record { location = bytes "acct/1"; body = [] }, refl);
  issues = λ user domains. (issued, omega arith);
}
  where
    issued : Valid toy (ok (record { certificate = year ∷ 9 ∷ []; private_key = 9 ∷ [] }))
    issued = record {
      certificates = record { certificate = year ∷ 9 ∷ []; private_key = 9 ∷ [] };
      cert = record { first = year ∷ 9 ∷ []; rest = []; private_key = 9 ∷ []; leaf = none };
      leaf = record { not_after = year; issuer = bytes "toy" };
      answered = refl;
      paired = refl;
      parsed = refl;
    }

abbrev pub service : Svc
service = record {
  domain = bytes "a.io";
  email = bytes "me";
  staging = false;
  enabled = true;
  cert_path = bytes "d";
  challenge = new_challenge_store;
  cert = some (record {
    first = (10 * year) ∷ 3 ∷ [];
    rest = [];
    private_key = 3 ∷ [];
    leaf = some (record { not_after = 10 * year; issuer = bytes "toy" });
  });
}
