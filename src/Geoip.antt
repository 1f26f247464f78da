-- ===== src/Geoip.antt =====
-- internal/geoip/geoip.go: which database is read, and the flag of a country.
pub mod Turns
pub mod Newest
pub mod Lookup
pub mod Mapped
pub mod Tests
use tripflare.Base.{
  ltb, ◌==◌, if◌then◌else◌, GoString, bytes, str_eq, has_prefix, has_suffix, to_lower, ℕ, ◌+◌, ◌-◌,
  Bool, true, false, ◌&&◌, not, Option, none, some, List, [], ◌∷◌,
}

-- a > b on Go strings, with the smaller first
unfoldable pub str_lt : GoString → GoString → Bool
str_lt s [] = false
str_lt [] (y ∷ t) = true
str_lt (x ∷ s) (y ∷ t) = let rest = str_lt s t in if x == y then rest else ltb x y

-- strings.Contains
unfoldable pub contains : GoString → GoString → Bool
contains [] keyword = has_prefix [] keyword
contains (x ∷ s) keyword =
    let rest = contains s keyword in if has_prefix (x ∷ s) keyword then true else rest

unfoldable pub is_database : GoString → GoString → Bool
unfolding contains
is_database filename keyword =
    has_suffix (to_lower filename) (bytes ".mmdb")
    && contains (to_lower filename) (to_lower keyword)

unfoldable pub supersedes : GoString → ℕ → GoString → ℕ → Bool
supersedes name time cur_name cur_time =
    if time == cur_time then str_lt cur_name name else ltb cur_time time

-- os.Stat of an entry of the directory, where it succeeds
pub record Stat : Type 0 where
  pub mod_time : ℕ
  pub is_dir : Bool

-- An entry of the directory, and what os.Stat answers for it; none is an error.
pub record DirEntry : Type 0 where
  pub name : GoString
  pub stat : Option Stat

-- the body of the loop of findDB: the newest database so far, [] where there is none, and its time
unfoldable pub consider : GoString → DirEntry → GoString × ℕ → GoString × ℕ
consider keyword entry (newest, newest_mod) =
    if not (is_database entry.name keyword) then (newest, newest_mod) else elim entry.stat [
      | none ↦ (newest, newest_mod)
      | some info ↦
          if info.is_dir
          then (newest, newest_mod)
          else if not (str_eq newest [])
              && not (supersedes entry.name info.mod_time newest newest_mod)
          then (newest, newest_mod)
          else (entry.name, info.mod_time)
    ]

unfoldable pub pick : GoString → List DirEntry → GoString × ℕ → GoString × ℕ
pick keyword [] best = best
pick keyword (entry ∷ entries) best = pick keyword entries (consider keyword entry best)

-- findDB on the entries that os.ReadDir gives, without the directory of the path
unfoldable pub find_db : List DirEntry → GoString → Option GoString
find_db entries keyword =
    let newest = (pick keyword entries ([], 0)).0 in if str_eq newest [] then none else some newest

-- countryFlag, as code points; `code` is a string of two bytes, of which the source makes runes.
unfoldable pub country_flag : GoString → List ℕ
country_flag (a ∷ b ∷ []) = (a + 0x1F1E6 - b'A') ∷ (b + 0x1F1E6 - b'A') ∷ []
country_flag code = []
