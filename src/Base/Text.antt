-- ===== src/Base/Text.antt =====
-- Go strings as their bytes, and the functions of Go's package strings that the program calls.
use Prim.Native.Nat.{ℕ, suc, ◌+◌, ◌-◌}
use Prim.Native.Char.{code}
use Prim.Native.String.{String}
use mathlib.Core.Path.{◌≡◌, refl, ap}
use mathlib.Core.Logic.{◌↔◌, inl, inr}
use mathlib.Core.Bool.{Bool, true, false, ◌&&◌, ◌||◌}
use mathlib.Core.Option.{Option, none, some}
use mathlib.Core.List.{List, [], ◌∷◌, ◌++◌, map}
use native.Mathlib.Omega.{arith}
use tripflare.Base.Tests.{leb, ◌==◌, if◌then◌else◌, Bool-cases}
use tripflare.Base.Lists.{length, take, drop, length-append, take-length_append, drop-length_append}

abbrev pub GoString : Type 0
GoString = List ℕ

-- The bytes of an ASCII literal.
abbrev pub bytes : String → GoString
bytes String.[] = []
bytes (String.◌∷◌ c s) = code c ∷ bytes s

-- s == t
unfoldable pub str_eq : GoString → GoString → Bool
str_eq [] [] = true
str_eq [] (y ∷ t) = false
str_eq (x ∷ s) [] = false
str_eq (x ∷ s) (y ∷ t) = x == y && str_eq s t

pub str_eq_refl : (s : GoString) → str_eq s s ≡ true
unfolding str_eq
str_eq_refl [] = refl
str_eq_refl (x ∷ s) = ground (arith, str_eq_refl s)

eq_of_str_eq : (s t : GoString) → str_eq s t ≡ true → s ≡ t
unfolding str_eq
eq_of_str_eq [] [] h = refl
eq_of_str_eq [] (y ∷ t) h = cc
eq_of_str_eq (x ∷ s) [] h = cc
eq_of_str_eq (x ∷ s) (y ∷ t) h = ground (arith, eq_of_str_eq s t)

pub str_eq_iff : (s t : GoString) → (str_eq s t ≡ true) ↔ (s ≡ t)
str_eq_iff s t = (eq_of_str_eq s t, λ e. rw e (str_eq_refl t))

-- strings.HasPrefix(s, p)
unfoldable pub has_prefix : GoString → GoString → Bool
has_prefix s [] = true
has_prefix [] (c ∷ p) = false
has_prefix (x ∷ s) (c ∷ p) = x == c && has_prefix s p

-- strings.HasSuffix(s, p): one of the tails of s is p
unfoldable pub has_suffix : GoString → GoString → Bool
has_suffix [] p = str_eq [] p
has_suffix (x ∷ s) p = str_eq (x ∷ s) p || has_suffix s p

-- strings.TrimPrefix(s, p)
unfoldable pub trim_prefix : GoString → GoString → GoString
trim_prefix s p = if has_prefix s p then drop (length p) s else s

-- strings.TrimSuffix(s, p)
unfoldable pub trim_suffix : GoString → GoString → GoString
trim_suffix s p = if has_suffix s p then take (length s - length p) s else s

-- strings.Contains(s, sep), for a separator of one byte
unfoldable pub contains_byte : ℕ → GoString → Bool
contains_byte c [] = false
contains_byte c (x ∷ s) = x == c || contains_byte c s

-- strings.LastIndex(s, sep), for a separator of one byte; none is -1
unfoldable pub last_index : ℕ → GoString → Option ℕ
last_index c [] = none
last_index c (x ∷ s) = elim (last_index c s) [
  | some i ↦ some (suc i)
  | none ↦ if x == c then some 0 else none
]

-- strings.Cut(s, sep), for a separator of one byte: before, after, found
unfoldable pub cut : ℕ → GoString → GoString × GoString × Bool
cut c [] = ([], [], false)
cut c (x ∷ s) = let r = cut c s in if x == c then ([], s, true) else (x ∷ r.0, r.1, r.2)

-- strings.ToLower, on the bytes of ASCII letters
unfoldable pub lower_byte : ℕ → ℕ
lower_byte c = if leb b'A' c && leb c b'Z' then c + 32 else c

unfoldable pub to_lower : GoString → GoString
unfolding lower_byte
to_lower s = map lower_byte s

-- filepath.Join(dir, name), for a directory that is already clean
unfoldable pub join : GoString → GoString → GoString
join [] name = name
join (c ∷ dir) name = (c ∷ dir) ++ bytes "/" ++ name

has_prefix-append : (p t : GoString) → has_prefix (p ++ t) p ≡ true
unfolding has_prefix
has_prefix-append [] t = refl
has_prefix-append (c ∷ p) t = ground (arith, has_prefix-append p t)

prefix_split : (s p : GoString) → has_prefix s p ≡ true → (t : GoString) × (s ≡ p ++ t)
unfolding has_prefix
prefix_split s [] h = (s, refl)
prefix_split [] (c ∷ p) h = cc
prefix_split (x ∷ s) (c ∷ p) h = let (t, e) = prefix_split s p (ground arith) in (t, ground arith)

has_prefix_iff : (s p : GoString) → (has_prefix s p ≡ true) ↔ ((t : GoString) × (s ≡ p ++ t))
has_prefix_iff s p = (prefix_split s p, λ e. rw e.1 (has_prefix-append p e.0))

trim_prefix-append : (p t : GoString) → trim_prefix (p ++ t) p ≡ t
unfolding trim_prefix
trim_prefix-append p t = rw (has_prefix-append p t) (drop-length_append p t)

pub has_suffix-append : (t p : GoString) → has_suffix (t ++ p) p ≡ true
unfolding has_suffix
has_suffix-append [] [] = str_eq_refl []
has_suffix-append [] (c ∷ p) = rw (str_eq_refl (c ∷ p))
has_suffix-append (x ∷ t) p = rw (has_suffix-append t p) (or-true _)
  where
    or-true : (b : Bool) → (b || true) ≡ true
    or-true true = refl
    or-true false = refl

suffix_split : (s p : GoString) → has_suffix s p ≡ true → (t : GoString) × (s ≡ t ++ p)
unfolding has_suffix
suffix_split [] p h = ([], eq_of_str_eq [] p h)
suffix_split (x ∷ s) p h = elim (Bool-cases (str_eq (x ∷ s) p)) [
  | inl e ↦ ([], eq_of_str_eq (x ∷ s) p e)
  | inr e ↦ let (t, q) = suffix_split s p (ground arith) in (x ∷ t, ap (◌∷◌ x) q)
]

has_suffix_iff : (s p : GoString) → (has_suffix s p ≡ true) ↔ ((t : GoString) × (s ≡ t ++ p))
has_suffix_iff s p = (suffix_split s p, λ e. rw e.1 (has_suffix-append e.0 p))

pub trim_suffix-append : (t p : GoString) → trim_suffix (t ++ p) p ≡ t
unfolding trim_suffix
trim_suffix-append t p =
    let e : length (t ++ p) - length p ≡ length t = omega (arith, length-append t p) in
    rw (has_suffix-append t p, e) (take-length_append t p)
