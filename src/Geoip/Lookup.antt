-- ===== src/Geoip/Lookup.antt =====
-- internal/geoip/geoip.go: New and Lookup. Opening a database and decoding a record of it are
-- maxminddb's, and parsing an address is netip's: parameters.
use tripflare.Base.{
  ◌==◌, if◌then◌else◌, GoString, bytes, str_eq, join, Result, ok, err, ℕ, ◌/◌, ◌%◌, ◌^◌, true,
  false, ◌&&◌, Option, none, some, List, [],
}
use tripflare.Http.Types.{Info}
use tripflare.Geoip.{DirEntry, find_db, country_flag}

-- netip.Addr: four bytes, or two halves of eight bytes with a zone
pub data Addr : Type 0 where
  v4 : ℕ → Addr
  v6 : ℕ → ℕ → GoString → Addr

-- Addr.Unmap: an IPv6 address that starts with ::ffff is the IPv4 address that it ends with
unfoldable pub unmap : Addr → Addr
unmap (v4 a) = v4 a
unmap (v6 hi lo zone) = if hi == 0 && lo / 2 ^ 32 == 0xffff then v4 (lo % 2 ^ 32) else v6 hi lo zone

-- maxminddb.Reader: for an address the ISO code, or the number and organisation; none is an error
-- of Decode.
pub record Reader : Type 0 where
  pub country : Addr → Option GoString
  pub asn : Addr → Option (ℕ × GoString)

-- the two implementations of Service
pub data GeoService : Type 0 where
  noop : GeoService
  svc : Reader → Reader → GeoService

abbrev pub no_info : Info
no_info = record { country_code = []; flag = []; asn = 0; org = [] }

-- the files: os.ReadDir of a directory, which may fail, and maxminddb.Open of a path
module _ (read_dir : GoString → Result (List DirEntry)) (open_db : GoString → Result Reader) where
  unfoldable pub find_db_in : GoString → GoString → Result GoString
  find_db_in dir keyword = elim (read_dir dir) [
    | err m ↦ err "read geoip dir"
    | ok entries ↦ elim (find_db entries keyword) [
      | none ↦ err "no .mmdb file found"
      | some newest ↦ ok (join dir newest)
    ]
  ]

  unfoldable pub open_both : GoString → GoString → Result GeoService
  open_both country_path asn_path = elim (open_db country_path) [
    | err m ↦ err "open country db"
    | ok country ↦ elim (open_db asn_path) [
      | err m ↦ err "open asn db"
      | ok asn ↦ ok (svc country asn)
    ]
  ]

  unfoldable pub new : GoString → Result GeoService
  new dir = elim (str_eq dir []) [
    | true ↦ ok noop
    | false ↦ elim (find_db_in dir (bytes "country")) [
      | err m ↦ ok noop
      | ok country_path ↦ elim (find_db_in dir (bytes "asn")) [
        | err m ↦ ok noop
        | ok asn_path ↦ open_both country_path asn_path
      ]
    ]
  ]

-- the part of Lookup that fills in the country
unfoldable pub with_country : Option GoString → Info → Info
with_country none info = info
with_country (some code) info = record info { country_code = code; flag = country_flag code }

unfoldable pub with_asn : Option (ℕ × GoString) → Info → Info
with_asn none info = info
with_asn (some (number, org)) info = record info { asn = number; org = org }

unfoldable pub lookup_addr : GeoService → Addr → Info
lookup_addr noop a = no_info
lookup_addr (svc country asn) a =
    with_asn (asn.asn (unmap a)) (with_country (country.country (unmap a)) no_info)

-- Lookup, where netip.ParseAddr is `parse_addr`
unfoldable pub lookup_ip : (GoString → Option Addr) → GeoService → GoString → Info
lookup_ip parse_addr noop ip = no_info
lookup_ip parse_addr (svc country asn) ip = elim (parse_addr ip) [
  | none ↦ no_info
  | some a ↦ lookup_addr (svc country asn) a
]
