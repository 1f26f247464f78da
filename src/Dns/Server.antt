-- ===== src/Dns/Server.antt =====
-- handleQuery and recordEvent of internal/dns/server.go.
use tripflare.Base.{
  if◌then◌else◌, GoString, str_eq, to_lower, Outcome, ret, then_do, ℕ, Bool, true, false, ◌&&◌,
  ◌||◌, not, List, [], ◌∷◌,
}
use tripflare.Acme.Challenge.{Store}
use tripflare.Net.{split_host}
use tripflare.Registry.Types.{Svc}
use tripflare.Registry.Methods.{slug_exists, record_dns}
use tripflare.Dns.Messages.{QType, type_txt, Question, Query, success, name_error, Reply}
use tripflare.Dns.Answers.{
  Zone, is_acme_challenge, is_subdomain, extract_slug, handle_acme, handle_subdomain,
  extract_client_subnet,
}

abbrev pub is_txt : QType → Bool
is_txt type_txt = true
is_txt t = false

-- the end of handleQuery: a query that no question of answers is for a name that does not exist
abbrev pub finish : Bool × Reply → Reply
finish (true, msg) = msg
finish (false, msg) = record msg { rcode = name_error }

-- `type_to_string` is the table dns.TypeToString of miekg/dns.
module _ (type_to_string : QType → GoString) where
  unfoldable pub record_event :
      Zone → GoString → GoString → QType → Query → ℕ → Svc → Outcome (Unit {0}) × Svc
  record_event z qname remote_addr qtype r now reg =
      let slug = extract_slug z qname in
      if str_eq slug [] || not (slug_exists slug reg)
      then (ret tt, reg)
      else then_do
          (record_dns slug (split_host remote_addr) (type_to_string qtype) qname
            (extract_client_subnet r) now reg)
          (λ _ reg'. (ret tt, reg'))

  -- the loop of handleQuery: whether a question was answered and the reply
  unfoldable pub answer_questions :
      Zone
      → Store
      → GoString
      → Query
      → ℕ
      → List Question
      → Bool × Reply
      → Svc
      → Outcome (Bool × Reply) × Svc
  unfolding record_event
  answer_questions z challenges remote_addr r now [] (answered, msg) reg =
      (ret (answered, msg), reg)
  answer_questions z challenges remote_addr r now (q ∷ qs) (answered, msg) reg =
      let qname = to_lower q.name in
      let acme =
        answer_questions z challenges remote_addr r now qs (true, handle_acme challenges qname msg)
          reg in
      let apex =
        answer_questions z challenges remote_addr r now qs (true, handle_subdomain z q msg) reg in
      let below = then_do (record_event z qname remote_addr q.qtype r now reg) (λ _ reg'.
        answer_questions z challenges remote_addr r now qs (true, handle_subdomain z q msg) reg') in
      let outside = answer_questions z challenges remote_addr r now qs (answered, msg) reg in
      if is_txt q.qtype && is_acme_challenge z qname
      then acme
      else if str_eq qname z.domain
      then apex
      else if is_subdomain z qname
      then below
      else outside

  -- the reply that is written; an error of the writer changes nothing
  unfoldable pub handle_query : Zone → Store → GoString → Query → ℕ → Svc → Outcome Reply × Svc
  unfolding answer_questions
  handle_query z challenges remote_addr r now reg =
      then_do
        (answer_questions z challenges remote_addr r now r.questions
          (false, record { authoritative = true; rcode = success; answer = [] }) reg)
        (λ result reg'. (ret (finish result), reg'))
