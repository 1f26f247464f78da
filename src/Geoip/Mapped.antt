-- ===== src/Geoip/Mapped.antt =====
-- internal/geoip/geoip.go: Lookup of an IPv4 address in its IPv6 form.
use tripflare.Geoip.{DirEntry}
use tripflare.Base.{
  Bool-cases, GoString, bytes, str_eq, Result, ok, err, Result-cases, ℕ, ◌+◌, ◌*◌, ◌/◌, ◌%◌, ◌^◌,
  ◌<◌, ◌≡◌, refl, sym, ap, ◌∙◌, inl, inr, Option, some, String, List, [], arith,
}
use tripflare.Geoip.Lookup.{
  Addr, v4, v6, unmap, Reader, GeoService, noop, svc, no_info, find_db_in, open_both, new,
  with_country, with_asn, lookup_addr, lookup_ip,
}

unmap_of_mapped :
    (a : ℕ) (zone : GoString) → a < 2 ^ 32 → unmap (v6 0 (0xffff * 2 ^ 32 + a) zone) ≡ v4 a
unfolding unmap
unmap_of_mapped a zone h =
    let high : (0xffff * 2 ^ 32 + a) / 2 ^ 32 ≡ 0xffff = omega arith in
    let low : (0xffff * 2 ^ 32 + a) % 2 ^ 32 ≡ a = omega arith in rw (high, low)

unmap_of_v4 : (a : ℕ) → unmap (v4 a) ≡ v4 a
unfolding unmap
unmap_of_v4 a = refl

lookup_addr_of_same :
    (country asn : Reader) (x y : Addr)
    → unmap x ≡ unmap y
    → lookup_addr (svc country asn) x ≡ lookup_addr (svc country asn) y
unfolding lookup_addr
lookup_addr_of_same country asn x y e =
    ap (λ z. with_asn (asn.asn z) (with_country (country.country z) no_info)) e

-- An IPv4 address in its IPv6 form, with any zone, has the country, the flag, the number and the
-- organisation that the IPv4 address itself has.
pub lookup_ip_of_mapped :
    (parse_addr : GoString → Option Addr) (s : GeoService) (ip mapped : GoString) (a : ℕ)
    (zone : GoString)
    → a < 2 ^ 32
    → parse_addr ip ≡ some (v4 a)
    → parse_addr mapped ≡ some (v6 0 (0xffff * 2 ^ 32 + a) zone)
    → lookup_ip parse_addr s mapped ≡ lookup_ip parse_addr s ip
unfolding lookup_ip
lookup_ip_of_mapped parse_addr noop ip mapped a zone h p q = refl
lookup_ip_of_mapped parse_addr (svc country asn) ip mapped a zone h p q =
    rw (q, lookup_ip)
      (rw (p, lookup_ip)
        (lookup_addr_of_same country asn _ _ (unmap_of_mapped a zone h ∙ sym (unmap_of_v4 a))))

-- New fails only where both databases are there and one of them cannot be opened.
new_of_err :
    (read_dir : GoString → Result (List DirEntry)) (open_db : GoString → Result Reader)
    (dir : GoString) (m : String)
    → new read_dir open_db dir ≡ err m
    → (country_path : GoString) × ((asn_path : GoString) × ((find_db_in read_dir open_db dir
              (bytes "country")
            ≡ ok country_path)
          × ((find_db_in read_dir open_db dir (bytes "asn") ≡ ok asn_path)
              × (open_both read_dir open_db country_path asn_path ≡ err m))))
unfolding new
new_of_err read_dir open_db dir m h = elim (Bool-cases (str_eq dir [])) [
  | inl empty ↦ absurd (let h' = rw (empty, new) at h in cc)
  | inr named ↦ elim (Result-cases (find_db_in read_dir open_db dir (bytes "country"))) [
    | inl (m', e) ↦ absurd (let h' = rw (named, new) at h in let h'' = rw e at h' in cc)
    | inr (c, e) ↦ elim (Result-cases (find_db_in read_dir open_db dir (bytes "asn"))) [
      | inl (m', e') ↦
          absurd (let h' = rw (named, new) at h in let h'' = rw e' at (rw e at h') in cc)
      | inr (a, e') ↦ let h' = rw (named, new) at h in (c, (a, (e, (e', rw e' at (rw e at h')))))
    ]
  ]
]
