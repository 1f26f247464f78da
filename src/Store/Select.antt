-- ===== src/Store/Select.antt =====
-- Facts about the WHERE clauses of internal/store/store.go (select and in_ids of Store/Sqlite.antt).
use tripflare.Base.{
  Bool-cases, length, All, GoString, str_eq, str_eq_iff, ◌+◌, ◌≡◌, refl, inl, inr, Bool, true,
  false, ◌||◌, not, List, [], ◌∷◌, ◌++◌, arith,
}
use tripflare.Store.Rows.{SlugRow}
use tripflare.Store.Sqlite.{select, in_ids}

module _ {ℓ} {A : Type ℓ} where
  -- what a weaker clause has kept hides nothing from a stronger one
  pub select-select :
      (p q : A → Bool) (xs : List A)
      → ((x : A) → p x ≡ true → q x ≡ true)
      → select p (select q xs) ≡ select p xs
  unfolding select
  select-select p q [] h = refl
  select-select p q (x ∷ xs) h = ground (arith, select-select p q xs h, h x)

  -- what is kept passes the clause
  pub All-select {κ κ'} :
      {P : A → Type κ} {Q : A → Type κ'} (p : A → Bool) (xs : List A)
      → ((x : A) → p x ≡ true → P x → Q x)
      → All P xs
      → All Q (select p xs)
  unfolding select
  All-select p [] f a = tt
  All-select p (x ∷ xs) f (h, a) = elim (Bool-cases (p x)) [
    | inl kept ↦ rw kept (f x kept h, All-select p xs f a)
    | inr gone ↦ rw gone (All-select p xs f a)
  ]

  pub length-select-not :
      (p : A → Bool) (xs : List A)
      → length (select p xs) + length (select (λ x. not (p x)) xs) ≡ length xs
  unfolding select
  length-select-not p [] = refl
  length-select-not p (x ∷ xs) = ground (arith, length-select-not p xs)

-- an id among the rows is among those that a clause keeps or among those that it does not
pub in_ids-select :
    (id : GoString) (p : SlugRow → Bool) (rows : List SlugRow)
    → in_ids id rows ≡ true
    → in_ids id (select p rows) ≡ false
    → in_ids id (select (λ r. not (p r)) rows) ≡ true
unfolding in_ids select
in_ids-select id p [] h k = cc
in_ids-select id p (r ∷ rows) h k = ground (arith, in_ids-select id p rows)

pub in_ids-append :
    (id : GoString) (rows more : List SlugRow)
    → in_ids id (rows ++ more) ≡ (in_ids id rows || in_ids id more)
unfolding in_ids
in_ids-append id [] more = refl
in_ids-append id (r ∷ rows) more = ground (arith, in_ids-append id rows more)

pub in_ids-select_ne :
    (id slug : GoString) (rows : List SlugRow)
    → str_eq id slug ≡ false
    → in_ids id (select (λ r. not (str_eq r.id slug)) rows) ≡ in_ids id rows
unfolding in_ids select
in_ids-select_ne id slug [] h = refl
in_ids-select_ne id slug (r ∷ rows) h = ground (
  arith,
  in_ids-select_ne id slug rows,
  str_eq_iff r.id slug,
  str_eq_iff r.id id,
  str_eq_iff id slug,
)
