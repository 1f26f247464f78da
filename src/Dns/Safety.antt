-- ===== src/Dns/Safety.antt =====
-- Panics of the DNS server's handleQuery (internal/dns/server.go), and the registry's invariant.
use tripflare.Base.{
  Bool-cases, GoString, str_eq, to_lower, Outcome, then_do, then_do_of_ret, ℕ, refl, inl, inr, Bool,
  ◌&&◌, ◌||◌, not, List, [], ◌∷◌,
}
use tripflare.Acme.Challenge.{Store}
use tripflare.Registry.Types.{Svc}
use tripflare.Registry.Methods.{slug_exists, dns_type, record_dns}
use tripflare.Registry.Invariant.{IsValid, IsSafe}
use tripflare.Registry.Invariant.Methods.{record_event-IsSafe}
use tripflare.Dns.Messages.{QType, Question, Query, Reply}
use tripflare.Dns.Answers.{Zone, is_acme_challenge, is_subdomain, extract_slug}
use tripflare.Dns.Server.{is_txt, record_event, answer_questions, handle_query}

-- what follows a call that is safe may use that it returned
then_do-IsSafe :
    {A B : Type 0} (r : Outcome A × Svc) (f : A → Svc → Outcome B × Svc)
    → IsSafe r
    → ((a : A) (s : Svc) → IsValid s → IsSafe (f a s))
    → IsSafe (then_do r f)
then_do-IsSafe r f p k = let (a, e) = p.returns in rw (then_do_of_ret r a f e) (k a r.1 p.valid)

module _ (type_to_string : QType → GoString) where
  dns_event-IsSafe :
      (z : Zone) (qname remote_addr : GoString) (qtype : QType) (r : Query) (now : ℕ) (reg : Svc)
      → IsValid reg
      → IsSafe (record_event type_to_string z qname remote_addr qtype r now reg)
  unfolding record_event record_dns
  dns_event-IsSafe z qname remote_addr qtype r now reg v =
      let slug = extract_slug z qname in
      elim (Bool-cases (str_eq slug [] || not (slug_exists slug reg))) [
        | inl skip ↦ rw skip (record { returns = (tt, refl); valid = v })
        | inr go ↦ rw go (
            then_do-IsSafe _ _ (record_event-IsSafe slug dns_type _ _ now reg v)
              (λ _ s v'. record { returns = (tt, refl); valid = v' }))
      ]

  answer_questions-IsSafe :
      (z : Zone) (challenges : Store) (remote_addr : GoString) (r : Query) (now : ℕ)
      (qs : List Question) (acc : Bool × Reply) (reg : Svc)
      → IsValid reg
      → IsSafe (answer_questions type_to_string z challenges remote_addr r now qs acc reg)
  unfolding answer_questions
  answer_questions-IsSafe z challenges remote_addr r now [] (answered, msg) reg v = record {
    returns = (_, refl);
    valid = v;
  }
  answer_questions-IsSafe z challenges remote_addr r now (q ∷ qs) (answered, msg) reg v =
      let qname = to_lower q.name in
      let next = answer_questions-IsSafe z challenges remote_addr r now qs in
      elim (Bool-cases (is_txt q.qtype && is_acme_challenge z qname)) [
        | inl acme ↦ rw acme (next _ reg v)
        | inr other_name ↦ elim (Bool-cases (str_eq qname z.domain)) [
          | inl apex ↦ rw (other_name, apex) (next _ reg v)
          | inr not_apex ↦ elim (Bool-cases (is_subdomain z qname)) [
            | inl below ↦
                rw (other_name, not_apex, below)
                  (then_do-IsSafe _ _ (dns_event-IsSafe z qname remote_addr q.qtype r now reg v)
                    (λ _ s v'. next _ s v'))
            | inr outside ↦ rw (other_name, not_apex, outside) (next _ reg v)
          ]
        ]
      ]

  -- On a registry that satisfies its invariant, every query is answered without a panic, whatever
  -- its questions are, and leaves a registry that satisfies the invariant.
  pub handle_query-IsSafe :
      (z : Zone) (challenges : Store) (remote_addr : GoString) (r : Query) (now : ℕ) (reg : Svc)
      → IsValid reg
      → IsSafe (handle_query type_to_string z challenges remote_addr r now reg)
  unfolding handle_query
  handle_query-IsSafe z challenges remote_addr r now reg v =
      then_do-IsSafe _ _
        (answer_questions-IsSafe z challenges remote_addr r now r.questions _ reg v)
        (λ _ s v'. record { returns = (_, refl); valid = v' })
