-- ===== src/Acme/Types.antt =====
-- The data of internal/acme/manager.go and internal/acme/user.go, and what the package asks of the
-- cryptography, of the encodings and of lego.
use tripflare.Acme.Challenge.{Store}
use tripflare.Base.{
  if◌then◌else◌, GoString, bytes, join, Result, ok, err, Fallible, ℕ, Bool, Option, String, List,
}
use tripflare.Acme.Files.{Disk, Write}

-- of x509.Certificate: a time is in nanoseconds, counted from before any certificate
pub record Leaf : Type 0 where
  pub not_after : ℕ
  pub issuer : GoString

-- A private key, by its bytes.
abbrev pub Key : Type 0
Key = GoString

-- tls.Certificate: the first certificate of its chain, the others, the key, and Leaf (nil is none)
pub record Certificate : Type 0 where
  pub first : GoString
  pub rest : List GoString
  pub private_key : Key
  pub leaf : Option Leaf

-- the template of generateSelfSigned, without its key usages
pub record Template : Type 0 where
  pub serial : ℕ
  pub common_name : GoString
  pub dns_names : List GoString
  pub not_before : ℕ
  pub not_after : ℕ

-- lego's acme.ExtendedAccount: its Location, and all else in it
pub record Account : Type 0 where
  pub location : GoString
  pub body : GoString

pub record AcmeUser : Type 0 where
  pub email : GoString
  pub registration : Option Account
  pub key : Key

-- crypto/tls, crypto/x509, encoding/pem and encoding/json. A chain that X509KeyPair accepts has a
-- first certificate. Unmarshal gives what the user is after the call, which it may have changed in
-- part before an error.
pub record Crypto : Type 0 where
  pub x509_key_pair : GoString → GoString → Result Certificate
  pub parse_certificate : GoString → Result Leaf
  pub create_certificate : Template → Key → Result GoString
  pub pem_decode : GoString → Option GoString
  pub pem_encode : GoString → GoString → GoString
  pub parse_ec_private_key : GoString → Result Key
  pub marshal_ec_private_key : Key → Result GoString
  pub unmarshal : GoString → AcmeUser → AcmeUser
  pub marshal : AcmeUser → Result GoString

-- the calls of a challenge provider, with the domain and the key authorisation
pub data ProviderCall : Type 0 where
  presents cleans_up : GoString → GoString → ProviderCall

-- lego's certificate.Resource
pub record Obtained : Type 0 where
  pub certificate : GoString
  pub private_key : GoString

-- What the outside answers during one attempt to obtain a certificate: the random source, the
-- files, and the certificate authority through lego.
pub record Attempt : Type 0 where
  pub generate_key : Result Key
  pub denied : GoString → Bool
  pub written : GoString → Write
  pub new_client : AcmeUser → Bool → Result (Unit {0})
  pub set_provider : Result (Unit {0})
  pub register : AcmeUser → Result Account
  pub obtain : AcmeUser → List GoString → List ProviderCall × Result Obtained

-- svc, without its mutex
pub record Svc : Type 0 where
  pub domain : GoString
  pub email : GoString
  pub staging : Bool
  pub enabled : Bool
  pub cert_path : GoString
  pub challenge : Store
  pub cert : Option Certificate

-- the service and the disk that it reads and writes
pub record State : Type 0 where
  pub svc : Svc
  pub disk : Disk

-- a call on the disk
unfoldable pub on_disk : {A : Type 0} → Fallible Disk A → Fallible State A
on_disk m st = let (r, disk') = m st.disk in (r, record st { disk = disk' })

-- a result with the state as it is
unfoldable pub lift : {A : Type 0} → Result A → Fallible State A
lift r st = (r, st)

-- fmt.Errorf("message: %w", err)
unfoldable pub wrap : {A : Type 0} → String → Result A → Result A
wrap message (ok a) = ok a
wrap message (err m) = err message

-- filepath.Join(s.certPath, "staging") or "prod"
unfoldable pub cert_dir : Svc → GoString
cert_dir s =
    if s.staging then join s.cert_path (bytes "staging") else join s.cert_path (bytes "prod")
