-- ===== src/Registry/Listing.antt =====
-- ListSlugs of internal/registry/registry.go: whose slugs it lists, and in which order.
use tripflare.Base.{
  ltb, if◌then◌else◌, Bool-cases, All, All-imp, GoString, str_eq, Dict, ℕ, ◌+◌, ◌≤◌, ◌≡◌, refl, ◌∙◌,
  inl, inr, Bool, ◌&&◌, List, [], ◌∷◌, arith,
}
use tripflare.Registry.Types.{Slug, SlugEntry, Svc}
use tripflare.Registry.Methods.{owned_slugs, insert_newest, sort_newest, list_slugs}

-- newest first
abbrev pub Newest : List Slug → Type 0
Newest [] = Unit
Newest (t ∷ ts) = All (λ u. u.created_at ≤ t.created_at) ts × Newest ts

-- how many slugs of the list have the test
unfoldable pub tally : (Slug → Bool) → List Slug → ℕ
tally p [] = 0
tally p (t ∷ ts) = (if p t then 1 else 0) + tally p ts

-- how many slugs of the map are the owner's and have the test
unfoldable pub tally_owned : (Slug → Bool) → GoString → Dict SlugEntry → ℕ
tally_owned p owner [] = 0
tally_owned p owner ((id, e) ∷ d) =
    (if str_eq e.slug.owner owner && p e.slug then 1 else 0) + tally_owned p owner d

tally-insert_newest :
    (p : Slug → Bool) (t : Slug) (ts : List Slug)
    → tally p (insert_newest t ts) ≡ (if p t then 1 else 0) + tally p ts
unfolding tally insert_newest
tally-insert_newest p t [] = refl
tally-insert_newest p t (u ∷ ts) = ground (arith, tally-insert_newest p t ts)

tally-sort_newest : (p : Slug → Bool) (ts : List Slug) → tally p (sort_newest ts) ≡ tally p ts
unfolding tally sort_newest
tally-sort_newest p [] = refl
tally-sort_newest p (t ∷ ts) =
    tally-insert_newest p t (sort_newest ts) ∙ rw (tally-sort_newest p ts) refl

tally-owned_slugs :
    (p : Slug → Bool) (owner : GoString) (d : Dict SlugEntry)
    → tally p (owned_slugs owner d) ≡ tally_owned p owner d
unfolding tally tally_owned owned_slugs
tally-owned_slugs p owner [] = refl
tally-owned_slugs p owner ((id, e) ∷ d) = ground (arith, tally-owned_slugs p owner d)

All-insert_newest :
    (P : Slug → Type 0) (t : Slug) (ts : List Slug) → P t → All P ts → All P (insert_newest t ts)
unfolding insert_newest
All-insert_newest P t [] h a = (h, tt)
All-insert_newest P t (u ∷ ts) h (k, a) = elim (Bool-cases (ltb t.created_at u.created_at)) [
  | inl older ↦ rw older (k, All-insert_newest P t ts h a)
  | inr newer ↦ rw newer (h, (k, a))
]

insert_newest-Newest : (t : Slug) (ts : List Slug) → Newest ts → Newest (insert_newest t ts)
unfolding insert_newest
insert_newest-Newest t [] a = (tt, tt)
insert_newest-Newest t (u ∷ ts) (k, a) = elim (Bool-cases (ltb t.created_at u.created_at)) [
  | inl older ↦ rw older (
    All-insert_newest (λ x. x.created_at ≤ u.created_at) t ts (ground arith) k,
    insert_newest-Newest t ts a,
  )
  | inr newer ↦
      let first : u.created_at ≤ t.created_at = ground arith in
      rw newer ((first, All-imp ts (λ x h. omega arith) k), (k, a))
]

sort_newest-Newest : (ts : List Slug) → Newest (sort_newest ts)
unfolding sort_newest
sort_newest-Newest [] = tt
sort_newest-Newest (t ∷ ts) = insert_newest-Newest t (sort_newest ts) (sort_newest-Newest ts)

-- ListSlugs lists the newest slugs first, and exactly the owner's: of the slugs with any given
-- test, such as one id, it lists as many as there are among the owner's.
pub list_slugs_lem :
    (owner : GoString) (s : Svc)
    → Newest (list_slugs owner s)
      × ((p : Slug → Bool) → tally p (list_slugs owner s) ≡ tally_owned p owner s.slugs)
unfolding list_slugs
list_slugs_lem owner s = (
  sort_newest-Newest (owned_slugs owner s.slugs),
  λ p. tally-sort_newest p (owned_slugs owner s.slugs) ∙ tally-owned_slugs p owner s.slugs,
)
