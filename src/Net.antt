-- ===== src/Net.antt =====
-- SplitHostPort of Go's package net, which internal/dns and internal/httpserver call.
use mathlib.Core.Option
use tripflare.Base.{
  ◌==◌, if◌then◌else◌, take, drop, GoString, bytes, has_prefix, contains_byte, last_index, ℕ, suc,
  ◌+◌, ◌≡◌, refl, ◌||◌, Option, none, some, [], ◌∷◌,
}

-- the index of the first byte c; none is -1
unfoldable pub index_byte : ℕ → GoString → Option ℕ
index_byte c [] = none
index_byte c (x ∷ s) = let rest = Option.map suc (index_byte c s) in if x == c then some 0 else rest

-- the host between brackets, where the address starts with one: i is the index of the last colon
unfoldable pub bracketed_host : ℕ → GoString → Option GoString
unfolding index_byte
bracketed_host i s = elim (index_byte b']' s) [
  | none ↦ none
  | some end ↦
      if end + 1 == i
      then (if contains_byte b'[' (drop 1 s) || contains_byte b']' (drop (end + 1) s)
          then none
          else some (drop 1 (take end s)))
      else none
]

-- the host before the last colon, where it holds no other and no bracket stands in the address
unfoldable pub plain_host : ℕ → GoString → Option GoString
plain_host i s =
    if contains_byte b':' (take i s) || (contains_byte b'[' s || contains_byte b']' s)
    then none
    else some (take i s)

-- net.SplitHostPort(s): the host, which is empty beside an error
unfoldable pub split_host : GoString → GoString
unfolding bracketed_host plain_host
split_host s = elim (last_index b':' s) [
  | none ↦ []
  | some i ↦
      Option.get_or (if has_prefix s (bytes "[") then bracketed_host i s else plain_host i s) []
]

split_host_examples :
    (split_host (bytes "192.0.2.7:5353") ≡ bytes "192.0.2.7")
    × (split_host (bytes "[2001:db8::1]:53") ≡ bytes "2001:db8::1")
    × (split_host (bytes "2001:db8::1") ≡ [])
    × (split_host (bytes "192.0.2.7") ≡ [])
unfolding split_host last_index contains_byte has_prefix
split_host_examples = (refl, refl, refl, refl)
