-- ===== src/Registry/SlugId.antt =====
-- generateSlugID of internal/registry/registry.go.
pub mod Unique
use tripflare.Base.{
  ℕ, zero, suc, ◌+◌, ◌*◌, ◌/◌, ◌%◌, ◌-◌, List, [], ◌∷◌, ◌++◌, Option, none, some, GoString, ltb,
  ◌==◌, if◌then◌else◌, length, take, replicate,
}

-- new(big.Int).SetBytes(b): the number whose big-endian bytes are b
unfoldable pub set_bytes : ℕ → List ℕ → ℕ
set_bytes acc [] = acc
set_bytes acc (b ∷ bs) = set_bytes (acc * 256 + b) bs

-- a digit of (*big.Int).Text: 0-9, a-z
unfoldable pub digit36 : ℕ → ℕ
digit36 d = if ltb d 10 then d + b'0' else d - 10 + b'a'

-- the digits of n > 0 in base 36 before those of acc; fuel bounds their number
unfoldable pub digits36 : ℕ → ℕ → GoString → GoString
digits36 zero n acc = acc
digits36 (suc fuel) n acc =
    let rest = digits36 fuel (n / 36) (digit36 (n % 36) ∷ acc) in if n == 0 then acc else rest

-- n.Text(36), for a number of at most 40 bits, which has at most 8 digits
unfoldable pub text36 : ℕ → GoString
text36 n = if n == 0 then b'0' ∷ [] else digits36 8 n []

-- the two adjustments of the length to 8
unfoldable pub pad : GoString → GoString
pad id =
    let cut = if ltb 8 (length id) then take 8 id else id in replicate (8 - length cut) b'0' ++ cut

-- `none` is an error of rand.Read, `some b` the five bytes that it gave.
unfoldable pub generate_slug_id : Option (List ℕ) → Option GoString
generate_slug_id none = none
generate_slug_id (some b) = some (pad (text36 (set_bytes 0 b)))
