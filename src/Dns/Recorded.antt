-- ===== src/Dns/Recorded.antt =====
-- Queries for the names of slugs (handleQuery and recordEvent of internal/dns/server.go).
use mathlib.Core.Bool.{false≢true}
use tripflare.Base.{
  Bool, Outcome, panic, then_do, true, inl, inr, refl, has_suffix-append, sym, ◌∙◌, Bool-cases,
  length, length-append, GoString, str_eq, str_eq_iff, contains_byte, to_lower, ret, ℕ, ◌≡◌, ap,
  inl, inr, true, false, Option, List, [], ◌∷◌, ◌++◌, arith,
}
use tripflare.Acme.Challenge.{Store}
use tripflare.Net.{split_host}
use tripflare.Registry.Types.{Svc}
use tripflare.Registry.Methods.{
  record_event as registry_record, slug_exists, dns_type, dns_payload, record_dns,
}
use tripflare.Registry.Invariant.{IsValid}
use tripflare.Dns.Names.{extract_slug_lem}
use tripflare.Registry.Recording.{record_event_lem, IsRecorded}
use tripflare.Dns.Messages.{Reply, QType, type_a, EdnsOption, Query, ip4, a_record, success}
use tripflare.Dns.Answers.{
  extract_slug, Zone, dot, is_subdomain, answer_a, handle_subdomain, extract_client_subnet,
}
use tripflare.Dns.Server.{record_event, answer_questions, handle_query}

below_domain : (label domain : GoString) → str_eq (label ++ dot ∷ domain) domain ≡ false
below_domain label domain = elim (Bool-cases (str_eq (label ++ dot ∷ domain) domain)) [
  | inr apart ↦ apart
  | inl same ↦
      let k = ap length ((str_eq_iff (label ++ dot ∷ domain) domain).0 same) in
      absurd (omega (arith, length-append label (dot ∷ domain)))
]

is_subdomain_of_label :
    (z : Zone) (label : GoString) → is_subdomain z (label ++ dot ∷ z.domain) ≡ true
unfolding is_subdomain
is_subdomain_of_label z label =
    rw (has_suffix-append label (dot ∷ z.domain), below_domain label z.domain) refl

address_answer :
    (z : Zone) (name : GoString) (ip : List ℕ) (m : Reply)
    → z.external_ip ≡ ip4 ip
    → handle_subdomain z (record { name = name; qtype = type_a }) m
      ≡ record m { answer = m.answer ++ a_record name 1 ip ∷ [] }
unfolding handle_subdomain answer_a
address_answer z name ip m h = rw h refl

-- a call that returns, and a result after it
then_ret :
    {A B : Type 0} (r : Outcome A × Svc) (a : A) (b : B)
    → r.0 ≡ ret a
    → then_do r (λ _ s. (ret b, s)) ≡ (ret b, r.1)
then_ret (ret c, s) a b h = refl
then_ret (panic, s) a b h = cc

module _ (type_to_string : QType → GoString) where
  record_event_of_slug :
      (z : Zone) (qname remote_addr label : GoString) (qtype : QType) (q : Query) (now : ℕ)
      (reg : Svc)
      → IsValid reg
      → extract_slug z qname ≡ label
      → str_eq label [] ≡ false
      → slug_exists label reg ≡ true
      → let r = record_event type_to_string z qname remote_addr qtype q now reg in
        (r.0 ≡ ret tt)
        × IsRecorded label dns_type
            (split_host remote_addr)
            (dns_payload (type_to_string qtype) qname (extract_client_subnet q))
            now
            reg
            r.1
  unfolding record_event record_dns
  record_event_of_slug z qname remote_addr label qtype q now reg v named full exists =
      let done =
        record_event_lem label dns_type (split_host remote_addr)
          (dns_payload (type_to_string qtype) qname (extract_client_subnet q)) now reg v in
      elim done [
        | inl (_, returns, rest) ↦
            let r =
              registry_record label dns_type (split_host remote_addr)
                (dns_payload (type_to_string qtype) qname (extract_client_subnet q)) now reg in
            rw (named, full, exists) (rw (then_ret r true tt returns) (refl, rest))
        | inr (missing, _) ↦ absurd (false≢true (sym missing ∙ exists))
      ]

  -- An A query for the name of an existing slug, in whatever case, in a zone with an IPv4 address
  -- and a registry that keeps its invariant: the reply is that address under the name as it was
  -- asked, with a TTL of one second, and the query is recorded as the slug's last event.
  pub handle_query_of_slug :
      (z : Zone) (challenges : Store) (remote_addr name label : GoString) (ip : List ℕ)
      (edns : Option (List EdnsOption)) (now : ℕ) (reg : Svc)
      → IsValid reg
      → z.external_ip ≡ ip4 ip
      → to_lower name ≡ label ++ dot ∷ z.domain
      → str_eq label [] ≡ false
      → contains_byte dot label ≡ false
      → slug_exists label reg ≡ true
      → let q : Query = record {
        questions = record { name = name; qtype = type_a } ∷ [];
        edns = edns;
      } in
        let r = handle_query type_to_string z challenges remote_addr q now reg in
        (r.0
          ≡ ret
              (record { authoritative = true; rcode = success; answer = a_record name 1 ip ∷ [] }))
        × IsRecorded label dns_type
            (split_host remote_addr)
            (dns_payload (type_to_string type_a) (to_lower name) (extract_client_subnet q))
            now
            reg
            r.1
  unfolding handle_query answer_questions record_event record_dns handle_subdomain answer_a
      is_subdomain
  handle_query_of_slug z challenges remote_addr name label ip edns now reg v address named full one
        exists =
      let q : Query = record {
        questions = record { name = name; qtype = type_a } ∷ [];
        edns = edns;
      } in
      let apex : str_eq (to_lower name) z.domain ≡ false = rw named (below_domain label z.domain) in
      let below : is_subdomain z (to_lower name) ≡ true =
        rw named (is_subdomain_of_label z label) in
      let slug = ap (extract_slug z) named ∙ (extract_slug_lem z label one).0 in
      let event =
        record_event_of_slug z (to_lower name) remote_addr label type_a q now reg v slug full
          exists in
      let reply : Reply = record { authoritative = true; rcode = success; answer = [] } in
      let answered : Bool × Reply =
        (true, handle_subdomain z (record { name = name; qtype = type_a }) reply) in
      let r = record_event type_to_string z (to_lower name) remote_addr type_a q now reg in
      rw (below, apex)
        (rw (then_ret r tt answered event.0)
          (ap ret (address_answer z name ip reply address), event.1))
