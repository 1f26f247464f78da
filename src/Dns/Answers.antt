-- ===== src/Dns/Answers.antt =====
-- The names and the answers of internal/dns/server.go.
use tripflare.Base.{
  ltb, if◌then◌else◌, drop, GoString, bytes, str_eq, has_prefix, has_suffix, trim_suffix,
  last_index, ℕ, suc, ◌+◌, ◌/◌, ◌%◌, Bool, ◌&&◌, not, Option, none, some, List, [], ◌∷◌, ◌++◌, map,
}
use tripflare.Acme.Challenge.{Store, get_txt}
use tripflare.Dns.Messages.{
  type_a, type_aaaa, type_ns, type_soa, type_txt, type_other, Question, EdnsOption, subnet, other,
  Query, Ip, ip4, ip6, Record, a_record, aaaa_record, ns_record, txt_record, soa_record, name_error,
  Reply,
}

-- svc, without the listen address and the services that it calls
pub record Zone : Type 0 where
  pub domain : GoString
  pub external_ip : Ip
  pub nameservers : List GoString

abbrev pub dot : ℕ
dot = b'.'

abbrev pub acme_prefix : GoString
acme_prefix = bytes "_acme-challenge."

unfoldable pub is_acme_challenge : Zone → GoString → Bool
is_acme_challenge z qname = has_prefix qname acme_prefix && has_suffix qname z.domain

unfoldable pub is_subdomain : Zone → GoString → Bool
is_subdomain z qname = has_suffix qname (dot ∷ z.domain) && not (str_eq qname z.domain)

-- the label before the domain; [] is no slug
unfoldable pub extract_slug : Zone → GoString → GoString
extract_slug z qname =
    if has_suffix qname (dot ∷ z.domain)
    then (let sub = trim_suffix qname (dot ∷ z.domain) in
        elim (last_index dot sub) [ none ↦ sub | some i ↦ drop (suc i) sub ])
    else []

abbrev pub answer : List Record → Reply → Reply
answer rs msg = record msg { answer = msg.answer ++ rs }

unfoldable pub txt_answers : GoString → List GoString → List Record
txt_answers qname [] = []
txt_answers qname (txt ∷ txts) = txt_record qname 1 txt ∷ txt_answers qname txts

unfoldable pub handle_acme : Store → GoString → Reply → Reply
handle_acme challenges qname msg = elim (get_txt qname challenges) [
  | [] ↦ record msg { rcode = name_error }
  | v ∷ vs ↦ answer (txt_answers qname (v ∷ vs)) msg
]

unfoldable pub answer_a : Zone → Question → Reply → Reply
answer_a z q msg = elim z.external_ip [
  | ip4 b ↦ answer (a_record q.name 1 b ∷ []) msg
  | ip6 b ↦ msg
]

unfoldable pub answer_aaaa : Zone → Question → Reply → Reply
answer_aaaa z q msg = elim z.external_ip [
  | ip4 b ↦ msg
  | ip6 b ↦ answer (aaaa_record q.name 1 b ∷ []) msg
]

unfoldable pub ns_answers : Zone → List GoString → List Record
ns_answers z [] = []
ns_answers z (ns ∷ nss) = ns_record z.domain 3600 ns ∷ ns_answers z nss

unfoldable pub answer_ns : Zone → Question → Reply → Reply
unfolding ns_answers
answer_ns z q msg = if str_eq q.name z.domain then answer (ns_answers z z.nameservers) msg else msg

-- soaRecord: the first nameserver and the mailbox; the timers are constants
unfoldable pub answer_soa : Zone → Question → Reply → Reply
answer_soa z q msg = elim z.nameservers [
  | [] ↦ msg
  | ns ∷ nss ↦
      if str_eq q.name z.domain
      then answer (soa_record z.domain 3600 ns (bytes "hostmaster." ++ z.domain) ∷ []) msg
      else msg
]

unfoldable pub handle_subdomain : Zone → Question → Reply → Reply
unfolding answer_a answer_aaaa answer_ns answer_soa
handle_subdomain z q msg = elim q.qtype [
  | type_a ↦ answer_a z q msg
  | type_aaaa ↦ answer_aaaa z q msg
  | type_ns ↦ answer_ns z q msg
  | type_soa ↦ answer_soa z q msg
  | type_txt ↦ msg
  | type_other n ↦ msg
]

-- what %d prints of the prefix length, which is a byte
unfoldable pub decimal : ℕ → GoString
decimal n =
    if ltb n 10
    then (n + b'0') ∷ []
    else if ltb n 100
    then (n / 10 + b'0') ∷ (n % 10 + b'0') ∷ []
    else (n / 100 + b'0') ∷ (n / 10 % 10 + b'0') ∷ (n % 10 + b'0') ∷ []

unfoldable pub first_subnet : List EdnsOption → GoString
unfolding decimal
first_subnet [] = []
first_subnet (other ∷ os) = first_subnet os
first_subnet (subnet address source_netmask ∷ os) = address ++ (b'/' ∷ decimal source_netmask)

unfoldable pub extract_client_subnet : Query → GoString
unfolding first_subnet
extract_client_subnet r = elim r.edns [ none ↦ [] | some os ↦ first_subnet os ]

-- New: an external IP that net.ParseIP refuses is an error; fqdn is dns.Fqdn of miekg/dns.
unfoldable pub new :
    (GoString → Option Ip)
    → (GoString → GoString)
    → GoString
    → GoString
    → List GoString
    → Option Zone
new parse_ip fqdn domain external_ip nameservers = elim (parse_ip external_ip) [
  | none ↦ none
  | some ip ↦
      some (record { domain = fqdn domain; external_ip = ip; nameservers = map fqdn nameservers })
]
