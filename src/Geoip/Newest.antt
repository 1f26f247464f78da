-- ===== src/Geoip/Newest.antt =====
-- The loop of findDB (internal/geoip/geoip.go) over all entries of a directory.
use mathlib.Core.Bool.{false≢true}
use tripflare.Base.{
  Bool-cases, All, GoString, str_eq, str_eq_refl, str_eq_iff, has_suffix, to_lower, ◌≡◌, refl, sym,
  ap, ◌∙◌, ◌⊎◌, inl, inr, true, false, none, some, List, [], ◌∷◌,
}
use tripflare.Geoip.{is_database, supersedes, Stat, DirEntry, consider, pick, find_db}
use tripflare.Geoip.Turns.{
  supersedes_trans, supersedes_irrefl, Pick, IsEligible, Unbeaten, Among, kept, taken,
  consider-Turn,
}

module _ (keyword : GoString) where
  -- how the pick changes over the rest of the loop
  data Grown (best r : Pick) : Type 0 where
    same : r ≡ best → Grown best r
    first : str_eq best.0 [] ≡ true → Grown best r
    better : supersedes r.0 r.1 best.0 best.1 ≡ true → Grown best r

  Unbeaten_of_Grown :
      (x best r : Pick)
      → str_eq best.0 [] ≡ false
      → supersedes x.0 x.1 best.0 best.1 ≡ false
      → Grown best r
      → supersedes x.0 x.1 r.0 r.1 ≡ false
  Unbeaten_of_Grown x best r full h (same e) = rw e h
  Unbeaten_of_Grown x best r full h (first e) = absurd (false≢true (sym full ∙ e))
  Unbeaten_of_Grown x best r full h (better e) = elim (Bool-cases (supersedes x.0 x.1 r.0 r.1)) [
    | inl beats ↦
        absurd (false≢true (sym h ∙ supersedes_trans x.0 r.0 best.0 x.1 r.1 best.1 beats e))
    | inr fine ↦ fine
  ]

  Grown-trans :
      (best after r : Pick)
      → str_eq after.0 [] ≡ false
      → supersedes after.0 after.1 best.0 best.1 ≡ true
      → Grown after r
      → Grown best r
  Grown-trans best after r full h (same e) = better (rw e h)
  Grown-trans best after r full h (first e) = absurd (false≢true (sym full ∙ e))
  Grown-trans best after r full h (better e) =
      better (supersedes_trans r.0 after.0 best.0 r.1 after.1 best.1 e h)

  -- the name of a database is not empty
  eligible_name :
      (entry : DirEntry) (info : Stat)
      → IsEligible keyword entry info
      → str_eq entry.name [] ≡ false
  unfolding is_database to_lower has_suffix str_eq
  eligible_name entry info e = elim (Bool-cases (str_eq entry.name [])) [
    | inr full ↦ full
    | inl empty ↦
        let named : is_database [] keyword ≡ true =
          ap (λ n. is_database n keyword) (sym ((str_eq_iff entry.name []).0 empty)) ∙ e.named in
        absurd (false≢true named)
  ]

  Among-full :
      (r : Pick) (entries : List DirEntry) → Among keyword r entries → str_eq r.0 [] ≡ false
  Among-full r [] a = elim a [ ]
  Among-full r (entry ∷ entries) (inl (info, e, q)) = rw q (eligible_name entry info e)
  Among-full r (entry ∷ entries) (inr a) = Among-full r entries a

  record IsPick (entries : List DirEntry) (best r : Pick) : Type 0 where
    grown : Grown best r
    unbeaten : All (Unbeaten keyword r) entries
    from : (r ≡ best) ⊎ Among keyword r entries
    empty : str_eq r.0 [] ≡ true → All (λ e. (info : Stat) → IsEligible keyword e info → ⊥) entries

  pick_kept :
      (entry : DirEntry) (entries : List DirEntry) (best r : Pick)
      → ((info : Stat)
          → IsEligible keyword entry info
          → (str_eq best.0 [] ≡ false)
            × (supersedes entry.name info.mod_time best.0 best.1 ≡ false))
      → IsPick entries best r
      → IsPick (entry ∷ entries) best r
  pick_kept entry entries best r k ih = record {
    grown = ih.grown;
    unbeaten = (
      λ info e.
          Unbeaten_of_Grown (entry.name, info.mod_time) best r (k info e).0 (k info e).1 ih.grown,
      ih.unbeaten,
    );
    from = elim ih.from [ inl q ↦ inl q | inr a ↦ inr (inr a) ];
    empty = λ none_yet. (
      λ info e. elim ih.from [
        | inl q ↦ false≢true (sym (k info e).0 ∙ ap (λ b. str_eq b.0 []) (sym q) ∙ none_yet)
        | inr a ↦ false≢true (sym (Among-full r entries a) ∙ none_yet)
      ],
      ih.empty none_yet,
    );
  }

  pick_taken :
      (entry : DirEntry) (entries : List DirEntry) (best r : Pick) (info : Stat)
      → IsEligible keyword entry info
      → (str_eq best.0 [] ≡ true) ⊎ (supersedes entry.name info.mod_time best.0 best.1 ≡ true)
      → IsPick entries (entry.name, info.mod_time) r
      → IsPick (entry ∷ entries) best r
  pick_taken entry entries best r info e why ih =
      let full = eligible_name entry info e in
      let there : Among keyword r (entry ∷ entries) = elim ih.from [
        | inl q ↦ inl (info, e, q)
        | inr a ↦ inr a
      ] in
      record {
        grown = elim why [
          | inl none_yet ↦ first none_yet
          | inr beats ↦ Grown-trans best (entry.name, info.mod_time) r full beats ih.grown
        ];
        unbeaten = (
          λ info' e'.
              let q : some info ≡ some info' = sym e.there ∙ e'.there in
              let is_info : info ≡ info' = cc in
              rw (← is_info) (
                Unbeaten_of_Grown (entry.name, info.mod_time) (entry.name, info.mod_time) r full
                  (supersedes_irrefl entry.name info.mod_time) ih.grown),
          ih.unbeaten,
        );
        from = inr there;
        empty =
            λ none_yet. absurd (false≢true (sym (Among-full r (entry ∷ entries) there) ∙ none_yet));
      }

  pick-IsPick :
      (entries : List DirEntry) (best : Pick) → IsPick entries best (pick keyword entries best)
  unfolding pick
  pick-IsPick [] best = record {
    grown = same refl;
    unbeaten = tt;
    from = inl refl;
    empty = λ h. tt;
  }
  pick-IsPick (entry ∷ entries) best =
      let ih = pick-IsPick entries (consider keyword entry best) in
      elim (consider-Turn keyword entry best) [
        | kept q k ↦ rw q (pick_kept entry entries best _ k (rw q at ih))
        | taken info e q why ↦ rw q (pick_taken entry entries best _ info e why (rw q at ih))
      ]

  -- findDB gives a name exactly where the directory has a file that is a database for the keyword
  -- and that os.Stat answers for; it is the name of such a file, with a time that no other of them
  -- supersedes: none is newer, and of those as new none has a greater name.
  pub find_db_lem :
      (entries : List DirEntry)
      → ((find_db entries keyword ≡ none)
          × All (λ e. (info : Stat) → IsEligible keyword e info → ⊥) entries)
        ⊎ ((r : Pick) × (find_db entries keyword ≡ some r.0)
            × Among keyword r entries
            × All (Unbeaten keyword r) entries)
  unfolding find_db
  find_db_lem entries =
      let r = pick keyword entries ([], 0) in
      let done = pick-IsPick entries ([], 0) in
      elim (Bool-cases (str_eq r.0 [])) [
        | inl empty ↦ inl (rw empty refl, done.empty empty)
        | inr full ↦ inr (
          r,
          rw full refl,
          elim done.from [
            | inl q ↦ absurd (false≢true (sym full ∙ ap (λ b. str_eq b.0 []) q ∙ str_eq_refl []))
            | inr a ↦ a
          ],
          done.unbeaten,
        )
      ]
