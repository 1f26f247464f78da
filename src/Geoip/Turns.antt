-- ===== src/Geoip/Turns.antt =====
-- One turn of the loop of findDB (internal/geoip/geoip.go), and the order that it picks by.
use mathlib.Core.Bool.{false≢true}
use tripflare.Base.{
  Bool-cases, Option-cases, GoString, str_eq, ℕ, ◌≡◌, refl, sym, ap, ◌∙◌, ◌⊎◌, inl, inr, true,
  false, none, some, List, [], ◌∷◌, arith,
}
use tripflare.Geoip.{str_lt, is_database, supersedes, Stat, DirEntry, consider}

str_lt_irrefl : (s : GoString) → str_lt s s ≡ false
unfolding str_lt
str_lt_irrefl [] = refl
str_lt_irrefl (x ∷ s) = ground (arith, str_lt_irrefl s)

str_lt_trans : (s t u : GoString) → str_lt s t ≡ true → str_lt t u ≡ true → str_lt s u ≡ true
unfolding str_lt
str_lt_trans s t [] h k = cc
str_lt_trans s [] (z ∷ u) h k = ground arith
str_lt_trans [] (y ∷ t) (z ∷ u) h k = refl
str_lt_trans (x ∷ s) (y ∷ t) (z ∷ u) h k = ground (arith, str_lt_trans s t u)

pub supersedes_trans :
    (a b c : GoString) (i j k : ℕ)
    → supersedes a i b j ≡ true
    → supersedes b j c k ≡ true
    → supersedes a i c k ≡ true
unfolding supersedes
supersedes_trans a b c i j k h h' = ground (arith, str_lt_trans c b a)

pub supersedes_irrefl : (a : GoString) (i : ℕ) → supersedes a i a i ≡ false
unfolding supersedes
supersedes_irrefl a i = ground (arith, str_lt_irrefl a)

abbrev pub Pick : Type 0
Pick = GoString × ℕ

module _ (keyword : GoString) where
  -- a database that os.Stat answers for
  pub record IsEligible (entry : DirEntry) (info : Stat) : Type 0 where
    pub named : is_database entry.name keyword ≡ true
    pub there : entry.stat ≡ some info
    pub is_file : info.is_dir ≡ false

  -- no eligible entry is one that should replace the pick
  abbrev pub Unbeaten : Pick → DirEntry → Type 0
  Unbeaten r entry =
      (info : Stat) → IsEligible entry info → supersedes entry.name info.mod_time r.0 r.1 ≡ false

  -- the pick is an eligible entry of the list
  abbrev pub Among : Pick → List DirEntry → Type 0
  Among r [] = ⊥
  Among r (entry ∷ entries) =
      ((info : Stat) × IsEligible entry info × (r ≡ (entry.name, info.mod_time))) ⊎ Among r entries

  -- what one turn of the loop does
  pub data Turn (entry : DirEntry) (best after : Pick) : Type 0 where
    kept :
        after ≡ best
        → ((info : Stat)
            → IsEligible entry info
            → (str_eq best.0 [] ≡ false)
              × (supersedes entry.name info.mod_time best.0 best.1 ≡ false))
        → Turn entry best after
    taken :
        (info : Stat)
        → IsEligible entry info
        → after ≡ (entry.name, info.mod_time)
        → (str_eq best.0 [] ≡ true) ⊎ (supersedes entry.name info.mod_time best.0 best.1 ≡ true)
        → Turn entry best after

  pub consider-Turn :
      (entry : DirEntry) (best : Pick) → Turn entry best (consider keyword entry best)
  unfolding consider
  consider-Turn entry best = elim (Bool-cases (is_database entry.name keyword)) [
    | inr unnamed ↦ kept (rw unnamed refl) (λ info e. absurd (false≢true (sym unnamed ∙ e.named)))
    | inl named ↦ elim (Option-cases entry.stat) [
      | inl missing ↦
          kept (rw (named, missing, consider) refl)
            (λ info e. let q : none ≡ some info = sym missing ∙ e.there in cc)
      | inr (info, there) ↦
          let is_info = λ (info' : Stat) (e : IsEligible entry info').
            let q : some info ≡ some info' = sym there ∙ e.there in
            let same : info ≡ info' = cc in same in
          elim (Bool-cases info.is_dir) [
            | inl is_dir ↦ kept (rw (named, there, consider, is_dir) refl) (λ info' e.
                absurd (
                  false≢true (sym e.is_file ∙ ap (λ i. i.is_dir) (sym (is_info info' e)) ∙ is_dir)))
            | inr is_file ↦
                let e : IsEligible entry info = record {
                  named = named;
                  there = there;
                  is_file = is_file;
                } in
                elim (Bool-cases (str_eq best.0 [])) [
                  | inl empty ↦
                      taken info e (rw (named, there, consider, is_file, empty) refl) (inl empty)
                  | inr other ↦
                      elim (Bool-cases (supersedes entry.name info.mod_time best.0 best.1)) [
                        | inl better ↦
                            taken info e (rw (named, there, consider, is_file, other, better) refl)
                              (inr better)
                        | inr worse ↦
                            kept (rw (named, there, consider, is_file, other, worse) refl)
                              (λ info' e'. (other, rw (← is_info info' e') worse))
                      ]
                ]
          ]
    ]
  ]
