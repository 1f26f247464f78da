-- ===== src/Dns/Names.antt =====
-- Which slug a name is about (extractSlug of internal/dns/server.go).
use tripflare.Base.{
  length, drop, GoString, contains_byte, last_index, has_suffix-append, trim_suffix-append, ℕ, suc,
  ◌≡◌, refl, ap, ◌∙◌, false, none, some, [], ◌∷◌, ◌++◌, arith,
}
use tripflare.Dns.Answers.{Zone, dot, extract_slug}

last_index-none : (c : ℕ) (s : GoString) → contains_byte c s ≡ false → last_index c s ≡ none
unfolding last_index contains_byte
last_index-none c [] h = refl
last_index-none c (x ∷ s) h = ground (arith, last_index-none c s)

last_index-append :
    (c : ℕ) (p s : GoString)
    → contains_byte c s ≡ false
    → last_index c (p ++ c ∷ s) ≡ some (length p)
unfolding last_index
last_index-append c [] s h = rw (last_index-none c s h) (ground arith)
last_index-append c (x ∷ p) s h = rw (last_index-append c p s h)

drop-past : (c : ℕ) (p s : GoString) → drop (suc (length p)) (p ++ c ∷ s) ≡ s
drop-past c [] s = refl
drop-past c (x ∷ p) s = drop-past c p s

-- The slug of a name directly below the domain is its label, and the slug of a name further down
-- is the label next to the domain, whatever stands before it; the label has no dot.
pub extract_slug_lem :
    (z : Zone) (label : GoString)
    → contains_byte dot label ≡ false
    → (extract_slug z (label ++ dot ∷ z.domain) ≡ label)
      × ((prefix : GoString) → extract_slug z ((prefix ++ dot ∷ label) ++ dot ∷ z.domain) ≡ label)
unfolding extract_slug
extract_slug_lem z label one = (
  rw (has_suffix-append label (dot ∷ z.domain), trim_suffix-append label (dot ∷ z.domain))
      (rw (last_index-none dot label one) (trim_suffix-append label (dot ∷ z.domain))),
  λ prefix.
      rw
        (
          has_suffix-append (prefix ++ dot ∷ label) (dot ∷ z.domain),
          trim_suffix-append (prefix ++ dot ∷ label) (dot ∷ z.domain),
        )
        (rw (last_index-append dot prefix label one) (
          ap (drop (suc (length prefix)))
            (trim_suffix-append (prefix ++ dot ∷ label) (dot ∷ z.domain))
          ∙ drop-past dot prefix label)),
)
