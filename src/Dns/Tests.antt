-- ===== src/Dns/Tests.antt =====
-- The DNS server (internal/dns/server.go) on concrete queries.
use tripflare.Net.{split_host}
use tripflare.Registry.Recording.{IsRecorded}
use tripflare.Registry.SlugId.{set_bytes, digit36, digits36, text36, pad, generate_slug_id}
use tripflare.Dns.Safety.{handle_query-IsSafe}
use tripflare.Registry.Invariant.Methods.{new-IsValid, create_slug-IsValid}
use tripflare.Dns.Server.{handle_query}
use tripflare.Dns.Messages.{QType, type_a, Query, ip4, a_record, success}
use tripflare.Registry.Invariant.{IsValid, IsSafe}
use tripflare.Registry.Types.{Svc}
use tripflare.Dns.Answers.{Zone, extract_client_subnet}
use tripflare.Dns.Recorded.{handle_query_of_slug}
use tripflare.Base.{
  GoString, bytes, str_eq, contains_byte, lower_byte, to_lower, lookup, insert, ret, ◌≡◌, refl,
  true, none, some, [], ◌∷◌, ◌++◌, arith,
}
use tripflare.Registry.Methods.{
  draw_id, add_drawn, create_slug, slug_exists, dns_type, dns_payload, new as registry_new,
}

abbrev zone : Zone
zone = record {
  domain = bytes "a.io.";
  external_ip = ip4 (1 ∷ 2 ∷ 3 ∷ 4 ∷ []);
  nameservers = bytes "ns1.a.io." ∷ [];
}

-- of dns.TypeToString, what the tests need
abbrev type_name : QType → GoString
type_name type_a = bytes "A"
type_name t = bytes "other"

abbrev ask : GoString → Query
ask n = record { questions = record { name = n; qtype = type_a } ∷ []; edns = none }

abbrev slug : GoString
slug = bytes "01zl7h8l"

abbrev registry : Svc
registry =
    (create_slug (some (1 ∷ 2 ∷ 3 ∷ 4 ∷ 5 ∷ []) ∷ []) (bytes "alice") 5 (registry_new 3 60)).1

registry-IsValid : IsValid registry
registry-IsValid =
    create_slug-IsValid (some (1 ∷ 2 ∷ 3 ∷ 4 ∷ 5 ∷ []) ∷ []) (bytes "alice") 5 (registry_new 3 60)
      (new-IsValid 3 60 (omega arith))

handle_query-IsSafe_example :
    IsSafe (
      handle_query type_name zone [] (bytes "9.9.9.9:53") (ask (slug ++ bytes ".A.io.")) 6 registry)
handle_query-IsSafe_example =
    handle_query-IsSafe type_name zone [] (bytes "9.9.9.9:53") (ask (slug ++ bytes ".A.io.")) 6
      registry registry-IsValid

handle_query_of_slug_example :
    let q : Query = ask (slug ++ bytes ".A.io.") in
    let r = handle_query type_name zone [] (bytes "9.9.9.9:53") q 6 registry in
    (r.0
      ≡ ret (record {
        authoritative = true;
        rcode = success;
        answer = a_record (slug ++ bytes ".A.io.") 1 (1 ∷ 2 ∷ 3 ∷ 4 ∷ []) ∷ [];
      }))
    × IsRecorded slug dns_type
        (split_host (bytes "9.9.9.9:53"))
        (dns_payload (bytes "A") (to_lower (slug ++ bytes ".A.io.")) (extract_client_subnet q))
        6
        registry
        r.1
unfolding create_slug draw_id add_drawn generate_slug_id pad text36 digits36 digit36 set_bytes
    insert lookup str_eq registry_new to_lower lower_byte contains_byte slug_exists
handle_query_of_slug_example =
    handle_query_of_slug type_name zone [] (bytes "9.9.9.9:53") (slug ++ bytes ".A.io.") slug
      (1 ∷ 2 ∷ 3 ∷ 4 ∷ []) none 6 registry registry-IsValid refl refl refl refl refl
