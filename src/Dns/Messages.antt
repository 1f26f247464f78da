-- ===== src/Dns/Messages.antt =====
-- The messages of internal/dns/server.go, so far as it reads and writes those of miekg/dns.
use tripflare.Base.{GoString, ℕ, Bool, Option, List}

-- a query's type; the others by their number
pub data QType : Type 0 where
  type_a type_aaaa type_ns type_soa type_txt : QType
  type_other : ℕ → QType

pub record Question : Type 0 where
  pub name : GoString
  pub qtype : QType

-- an option of the EDNS0 record: the client subnet, with the text of its address, or another
pub data EdnsOption : Type 0 where
  subnet : GoString → ℕ → EdnsOption
  other : EdnsOption

-- dns.Msg as a query: its questions, and the options of its OPT record where it has one
pub record Query : Type 0 where
  pub questions : List Question
  pub edns : Option (List EdnsOption)

-- net.IP: four bytes or sixteen, and of those not one that To4 maps to four
pub data Ip : Type 0 where
  ip4 ip6 : List ℕ → Ip

-- the resource records that the server makes: name, TTL and data
pub data Record : Type 0 where
  a_record aaaa_record : GoString → ℕ → List ℕ → Record
  ns_record txt_record : GoString → ℕ → GoString → Record
  soa_record : GoString → ℕ → GoString → GoString → Record

pub data Rcode : Type 0 where
  success name_error : Rcode

-- dns.Msg as a reply
pub record Reply : Type 0 where
  pub authoritative : Bool
  pub rcode : Rcode
  pub answer : List Record
