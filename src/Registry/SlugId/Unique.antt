-- ===== src/Registry/SlugId/Unique.antt =====
-- The length and the values of slug ids (generateSlugID of internal/registry/registry.go).
use native.Mathlib.Nat.{pow-suc}
use tripflare.Base.{
  ltb, leb, ◌==◌, if◌then◌else◌, Bool-cases, length, replicate, All, length-append,
  length-replicate, GoString, ℕ, zero, suc, ◌+◌, ◌-◌, ◌*◌, ◌/◌, ◌%◌, ◌^◌, ◌≤◌, ◌<◌, ◌≡◌, refl, sym,
  ap, ◌∙◌, inl, inr, false, some, List, [], ◌∷◌, ◌++◌, arith,
}
use tripflare.Registry.SlugId.{set_bytes, digit36, digits36, text36, pad, generate_slug_id}

-- the number that a digit, and a text in base 36, stand for
value_digit : ℕ → ℕ
value_digit c = if leb b'a' c then c - b'a' + 10 else c - b'0'

value36 : ℕ → GoString → ℕ
value36 acc [] = acc
value36 acc (c ∷ s) = value36 (acc * 36 + value_digit c) s

value_digit-digit36 : (d : ℕ) → d < 36 → value_digit (digit36 d) ≡ d
unfolding value_digit digit36
value_digit-digit36 d h = ground arith

value36-digits36 :
    (fuel n : ℕ) (acc : GoString) → n < 36 ^ fuel → value36 0 (digits36 fuel n acc) ≡ value36 n acc
unfolding digits36 value36
value36-digits36 zero n acc h = let e : n ≡ 0 = omega arith in rw e
value36-digits36 (suc fuel) n acc h = elim (Bool-cases (n == 0)) [
  | inl e ↦ rw e (ap (λ k. value36 k acc) (ground arith))
  | inr e ↦ rw e (
      value36-digits36 fuel (n / 36) (digit36 (n % 36) ∷ acc) (omega (arith, pow-suc 36 fuel))
      ∙ ap (λ k. value36 k acc)
          (let k : n / 36 * 36 + value_digit (digit36 (n % 36)) ≡ n =
              omega (arith, value_digit-digit36 (n % 36) (omega arith)) in
            k))
]

value36-zeros : (k : ℕ) (s : GoString) → value36 0 (replicate k b'0' ++ s) ≡ value36 0 s
unfolding value36 value_digit
value36-zeros zero s = refl
value36-zeros (suc k) s = value36-zeros k s

length-digits36 : (fuel n : ℕ) (acc : GoString) → length (digits36 fuel n acc) ≤ fuel + length acc
unfolding digits36
length-digits36 zero n acc = omega arith
length-digits36 (suc fuel) n acc =
    ground (arith, length-digits36 fuel (n / 36) (digit36 (n % 36) ∷ acc))

length-text36 : (n : ℕ) → length (text36 n) ≤ 8
unfolding text36
length-text36 n = ground (arith, length-digits36 8 n [])

value36-text36 : (n : ℕ) → n < 2 ^ 40 → value36 0 (text36 n) ≡ n
unfolding text36 value36 value_digit
value36-text36 n h = elim (Bool-cases (n == 0)) [
  | inl e ↦ rw e (ground arith)
  | inr e ↦ rw e (value36-digits36 8 n [] (omega arith))
]

pad_lem : (s : GoString) → length s ≤ 8 → pad s ≡ replicate (8 - length s) b'0' ++ s
unfolding pad
pad_lem s h = let e : ltb 8 (length s) ≡ false = ground arith in rw e

value36-pad : (s : GoString) → length s ≤ 8 → value36 0 (pad s) ≡ value36 0 s
value36-pad s h = rw (pad_lem s h) (value36-zeros (8 - length s) s)

-- Five bytes.
abbrev pub IsDraw : List ℕ → Type 0
IsDraw b = (length b ≡ 5) × All (λ x. x < 256) b

set_bytes-lt : (b : List ℕ) → IsDraw b → set_bytes 0 b < 2 ^ 40
unfolding set_bytes
set_bytes-lt (a ∷ b ∷ c ∷ d ∷ e ∷ []) (h, r) = omega arith
set_bytes-lt b (h, r) = absurd (omega arith)

set_bytes_inj : (b c : List ℕ) → IsDraw b → IsDraw c → set_bytes 0 b ≡ set_bytes 0 c → b ≡ c
unfolding set_bytes
set_bytes_inj (a ∷ b ∷ c ∷ d ∷ e ∷ []) (a' ∷ b' ∷ c' ∷ d' ∷ e' ∷ []) (h, r) (h', r') q =
    let ea : a ≡ a' = omega arith in
    let eb : b ≡ b' = omega arith in
    let ec : c ≡ c' = omega arith in
    let ed : d ≡ d' = omega arith in let ee : e ≡ e' = omega arith in cc
set_bytes_inj b c (h, r) (h', r') q = absurd (omega arith)

value36-id : (b : List ℕ) → IsDraw b → value36 0 (pad (text36 (set_bytes 0 b))) ≡ set_bytes 0 b
value36-id b h =
    value36-pad (text36 (set_bytes 0 b)) (length-text36 (set_bytes 0 b))
    ∙ value36-text36 (set_bytes 0 b) (set_bytes-lt b h)

-- Whatever five bytes are drawn, the id has eight characters.
length-generate_slug_id :
    (b : List ℕ) (id : GoString) → generate_slug_id (some b) ≡ some id → length id ≡ 8
unfolding generate_slug_id
length-generate_slug_id b id h =
    let n = set_bytes 0 b in
    let short = length-text36 n in
    let e : pad (text36 n) ≡ id = cc in
    sym (ap length e)
    ∙ ap length (pad_lem (text36 n) short)
    ∙ (let zeros = length-replicate {A = ℕ} (8 - length (text36 n)) b'0' in
        let sum = length-append (replicate (8 - length (text36 n)) b'0') (text36 n) in omega arith)

-- Two draws of five bytes that give the same id are the same: neither the cut to eight characters
-- nor the padding makes two ids equal.
pub generate_slug_id_inj :
    (b c : List ℕ) (id : GoString)
    → IsDraw b
    → IsDraw c
    → generate_slug_id (some b) ≡ some id
    → generate_slug_id (some c) ≡ some id
    → b ≡ c
unfolding generate_slug_id
generate_slug_id_inj b c id hb hc p q =
    let e : pad (text36 (set_bytes 0 b)) ≡ pad (text36 (set_bytes 0 c)) = cc in
    set_bytes_inj b c hb hc (sym (value36-id b hb) ∙ ap (value36 0) e ∙ value36-id c hc)
