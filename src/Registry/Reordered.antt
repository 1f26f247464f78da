-- ===== src/Registry/Reordered.antt =====
-- What LoadFrom of internal/registry/persistence.go makes of rows that the store gives in any order.
use mathlib.Core.List.Perm
use mathlib.Core.List.{Perm}
use tripflare.Base.{
  Bool-cases, GoString, str_eq, ℕ, zero, suc, ◌≡◌, refl, ◌⊎◌, inl, inr, List, [], ◌∷◌, arith,
}
use tripflare.Store.Rows.{SlugRow, EventRow}
use tripflare.Store.Sqlite.{place_at, rearrange, in_ids}
use tripflare.Registry.Persistence.{events_of}

events_of-place_at :
    (id : GoString) (n : ℕ) (r : EventRow) (rows : List EventRow)
    → Perm (events_of id (place_at n r rows)) (events_of id (r ∷ rows))
unfolding events_of place_at
events_of-place_at id zero r rows = Perm.rfl
events_of-place_at id (suc n) r [] = Perm.rfl
events_of-place_at id (suc n) r (q ∷ rows) =
    let ih = events_of-place_at id n r rows in
    elim (Bool-cases (str_eq q.slug id)) [
      | inl e ↦ elim (Bool-cases (str_eq r.slug id)) [
        | inl e' ↦ rw (e, e') (Perm.trans (Perm.cons _ (rw e' at ih)) (Perm.swap _ _ _))
        | inr e' ↦ rw (e, e') (Perm.cons _ (rw e' at ih))
      ]
      | inr e ↦ rw e ih
    ]

pub events_of-rearrange :
    (id : GoString) (ns : List ℕ) (rows : List EventRow)
    → Perm (events_of id (rearrange ns rows)) (events_of id rows)
unfolding events_of rearrange
events_of-rearrange id ns [] = Perm.rfl
events_of-rearrange id [] (r ∷ rows) = Perm.rfl
events_of-rearrange id (n ∷ ns) (r ∷ rows) =
    let ih = events_of-rearrange id ns rows in
    Perm.trans (events_of-place_at id n r (rearrange ns rows))
      (elim (Bool-cases (str_eq r.slug id)) [ inl e ↦ rw e (Perm.cons _ ih) | inr e ↦ rw e ih ])

in_ids-place_at :
    (id : GoString) (n : ℕ) (t : SlugRow) (ts : List SlugRow)
    → in_ids id (place_at n t ts) ≡ in_ids id (t ∷ ts)
unfolding in_ids place_at
in_ids-place_at id zero t ts = refl
in_ids-place_at id (suc n) t [] = refl
in_ids-place_at id (suc n) t (u ∷ ts) = ground (arith, in_ids-place_at id n t ts)

pub in_ids-rearrange :
    (id : GoString) (ns : List ℕ) (ts : List SlugRow) → in_ids id (rearrange ns ts) ≡ in_ids id ts
unfolding in_ids rearrange
in_ids-rearrange id ns [] = refl
in_ids-rearrange id [] (t ∷ ts) = refl
in_ids-rearrange id (n ∷ ns) (t ∷ ts) =
    ground (arith, in_ids-place_at id n t (rearrange ns ts), in_ids-rearrange id ns ts)

abbrev pub IsRow : SlugRow → List SlugRow → Type 0
IsRow t [] = ⊥
IsRow t (u ∷ us) = (t ≡ u) ⊎ IsRow t us

IsRow-place_at :
    (t : SlugRow) (n : ℕ) (u : SlugRow) (ts : List SlugRow)
    → IsRow t (place_at n u ts)
    → IsRow t (u ∷ ts)
unfolding place_at
IsRow-place_at t zero u ts k = k
IsRow-place_at t (suc n) u [] k = k
IsRow-place_at t (suc n) u (q ∷ ts) k = elim k [
  | inl same ↦ inr (inl same)
  | inr below ↦ elim (IsRow-place_at t n u ts below) [ inl same ↦ inl same | inr k' ↦ inr (inr k') ]
]

pub IsRow-rearrange :
    (t : SlugRow) (ns : List ℕ) (ts : List SlugRow) → IsRow t (rearrange ns ts) → IsRow t ts
unfolding rearrange
IsRow-rearrange t ns [] k = k
IsRow-rearrange t [] (u ∷ ts) k = k
IsRow-rearrange t (n ∷ ns) (u ∷ ts) k = elim (IsRow-place_at t n u (rearrange ns ts) k) [
  | inl same ↦ inl same
  | inr k' ↦ inr (IsRow-rearrange t ns ts k')
]
