-- ===== src/Geoip/Tests.antt =====
-- The choice of a database (internal/geoip/geoip.go) in concrete directories, and a flag.
use tripflare.Geoip.Newest.{find_db_lem}
use tripflare.Geoip.Turns.{Pick, IsEligible, Unbeaten, Among}
use tripflare.Geoip.{
  str_lt, contains, is_database, supersedes, Stat, DirEntry, consider, pick, find_db, country_flag,
}
use tripflare.Base.{
  All, GoString, bytes, str_eq, has_prefix, has_suffix, lower_byte, to_lower, ℕ, ◌≡◌, refl, ◌⊎◌,
  false, none, some, List, [], ◌∷◌,
}

abbrev file : GoString → ℕ → DirEntry
file name time = record { name = name; stat = some (record { mod_time = time; is_dir = false }) }

abbrev entries : List DirEntry
entries =
    file (bytes "GeoLite2-Country.mmdb") 7
    ∷ file (bytes "dbip-country.mmdb") 7
    ∷ file (bytes "country.txt") 9
    ∷ file (bytes "old-country.mmdb") 3
    ∷ []

picked : find_db entries (bytes "country") ≡ some (bytes "dbip-country.mmdb")
unfolding find_db pick consider is_database supersedes str_lt contains to_lower lower_byte
    has_suffix has_prefix str_eq
picked = refl

find_db_lem_example :
    ((find_db entries (bytes "country") ≡ none)
      × All (λ e. (info : Stat) → IsEligible (bytes "country") e info → ⊥) entries)
    ⊎ ((r : Pick) × (find_db entries (bytes "country") ≡ some r.0)
        × Among (bytes "country") r entries
        × All (Unbeaten (bytes "country") r) entries)
find_db_lem_example = find_db_lem (bytes "country") entries

-- the two regional indicators of DE
german : country_flag (bytes "DE") ≡ 0x1F1E9 ∷ 0x1F1EA ∷ []
unfolding country_flag
german = refl
