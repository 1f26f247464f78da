-- ===== src/Registry/Restored.antt =====
-- Which slugs and events LoadFrom of internal/registry/persistence.go restores from the tables of
-- internal/store/store.go.
use mathlib.Core.List.{Perm}
use tripflare.Base.{
  ltb, if◌then◌else◌, Bool-cases, All, All-imp, GoString, str_eq, str_eq_iff, lookup, insert,
  lookup-insert, ok, ℕ, ◌+◌, ◌-◌, ◌≤◌, ◌<◌, ◌≡◌, refl, sym, ap, ◌∙◌, ◌⊎◌, inl, inr, Bool, true,
  false, none, some, List, [], ◌∷◌, arith,
}
use tripflare.Registry.Reordered.{events_of-rearrange, in_ids-rearrange, IsRow, IsRow-rearrange}
use tripflare.Registry.Types.{SlugEntry, Svc}
use tripflare.Registry.Methods.{new}
use tripflare.Registry.Persistence.{
  slug_row, events_of, earliest, second, loaded_entry, restore, load_from,
}
use tripflare.Store.Rows.{SlugRow, EventRow}
use tripflare.Store.Monad.{slug_order, event_order, Db, call}
use tripflare.Store.Sqlite.{select, rearrange, load_slugs, load_events, in_ids, sqlite}
use tripflare.Store.Reload.{quiet}

-- the entry of the id is one of the rows, with the events of the id in any order
abbrev pub Restored : GoString → List SlugRow → List EventRow → Svc → Type 0
Restored id ts rows s =
    (t : SlugRow) × (e : SlugEntry) × IsRow t ts
    × (t.id ≡ id)
    × (lookup id s.slugs ≡ some e)
    × (slug_row e.slug ≡ t)
    × Perm e.events (events_of id rows)

-- the same in the order of the rows
abbrev InOrder : GoString → List SlugRow → List EventRow → Svc → Type 0
InOrder id ts rows s =
    (t : SlugRow) × (e : SlugEntry) × IsRow t ts
    × (t.id ≡ id)
    × (lookup id s.slugs ≡ some e)
    × (slug_row e.slug ≡ t)
    × (e.events ≡ events_of id rows)

restore_lem :
    (ts : List SlugRow) (rows : List EventRow) (s : Svc) (id : GoString)
    → ((in_ids id ts ≡ false) × (lookup id (restore ts rows s).slugs ≡ lookup id s.slugs))
      ⊎ InOrder id ts rows (restore ts rows s)
unfolding restore in_ids loaded_entry
restore_lem [] rows s id = inl (refl, refl)
restore_lem (t ∷ ts) rows s id =
    let e = loaded_entry s.next t (events_of t.id rows) in
    let s' : Svc = record s { slugs = insert t.id e s.slugs; next = s.next + 1 } in
    elim (restore_lem ts rows s' id) [
      | inr (u, e', is_row, k0, k1, k2, k3) ↦ inr (u, e', inr is_row, k0, k1, k2, k3)
      | inl (absent, same) ↦
          let put = same ∙ lookup-insert t.id id e s.slugs in
          elim (Bool-cases (str_eq t.id id)) [
            | inl this ↦
                let here : t.id ≡ id = (str_eq_iff t.id id).0 this in
                inr
                  (t, e, inl refl, here, put ∙ rw this refl, refl, ap (λ i. events_of i rows) here)
            | inr other ↦ inl (rw (other, absent) refl, put ∙ rw other refl)
          ]
    ]

earliest-le :
    (acc : ℕ) (ts : List SlugRow)
    → (earliest acc ts ≤ acc) × ((t : SlugRow) → IsRow t ts → earliest acc ts ≤ t.created_at)
unfolding earliest
earliest-le acc [] = (omega arith, λ t k. absurd k)
earliest-le acc (u ∷ ts) =
    let ih = earliest-le (if ltb u.created_at acc then u.created_at else acc) ts in
    (
      ground (arith, ih.0),
      λ t k. elim k [ inl same ↦ rw same (ground (arith, ih.0)) | inr below ↦ ih.1 t below ],
    )

-- the query for events since an instant gives all the events of a slug that came after it
events_of-select :
    (id : GoString) (since : ℕ) (rows : List EventRow)
    → All (λ r. str_eq r.slug id ≡ true → since < r.timestamp) rows
    → events_of id (select (λ r. ltb since r.timestamp) rows) ≡ events_of id rows
unfolding events_of select
events_of-select id since [] h = refl
events_of-select id since (r ∷ rows) (h, hs) =
    let ih = events_of-select id since rows hs in
    elim (Bool-cases (ltb since r.timestamp)) [
      | inl later ↦ rw (later, ih) refl
      | inr earlier ↦ elim (Bool-cases (str_eq r.slug id)) [
        | inl this ↦ let k : since < r.timestamp = h this in absurd (ground arith)
        | inr other ↦ rw (earlier, other) ih
      ]
    ]

-- each event came after the creation of its slug
abbrev pub InTime : Db → Type 0
InTime db =
    All
      (λ r.
        (0 < r.timestamp)
        × ((t : SlugRow) → IsRow t db.slugs → t.id ≡ r.slug → t.created_at ≤ r.timestamp))
      db.events

IsRow-select :
    (p : SlugRow → Bool) (t : SlugRow) (ts : List SlugRow) → IsRow t (select p ts) → IsRow t ts
unfolding select
IsRow-select p t [] k = k
IsRow-select p t (u ∷ ts) k = elim (Bool-cases (p u)) [
  | inl selected ↦ elim (rw selected at k) [
    | inl same ↦ inl same
    | inr k' ↦ inr (IsRow-select p t ts k')
  ]
  | inr rejected ↦ inr (IsRow-select p t ts (rw rejected at k))
]

-- A restart with a driver that does not fail, on tables whose events came after the creation of
-- their slugs, in whatever order the queries give their rows: LoadFrom returns no error, and a slug
-- that has a row that is not expired is restored from such a row, with all its stored events and no
-- other, each as often as it is stored; any other slug is absent.
pub load_from_lem :
    (now max_events ttl : ℕ) (db : Db) (id : GoString)
    → InTime db
    → let r = load_from sqlite now (new max_events ttl) (quiet db) in
      let live = select (λ t. ltb now t.expires_at) db.slugs in
      (r.0 ≡ ok tt)
      × (((in_ids id live ≡ false) × (lookup id r.1.slugs ≡ none)) ⊎ Restored id live db.events r.1)
unfolding load_from sqlite load_slugs load_events call new lookup
load_from_lem now max_events ttl db id timely =
    let live = select (λ t. ltb now t.expires_at) db.slugs in
    let slugs = rearrange (slug_order db.orders) live in
    let since = earliest now slugs - second in
    let later = select (λ r. ltb since r.timestamp) db.events in
    let rows = rearrange (event_order db.orders) later in
    (
      refl,
      elim (restore_lem slugs rows (new max_events ttl) id) [
        | inl (absent, none_left) ↦
            inl (sym (in_ids-rearrange id (slug_order db.orders) live) ∙ absent, none_left)
        | inr (t, e, is_row, named, is_found, row, events) ↦
            let is_live = IsRow-rearrange t (slug_order db.orders) live is_row in
            let all_later = events_of-select id since db.events (
              All-imp db.events
                (λ r in_time this.
                  let first = (earliest-le now slugs).1 t is_row in
                  let after =
                    in_time.1 t (IsRow-select (λ t. ltb now t.expires_at) t db.slugs is_live)
                      (named ∙ sym ((str_eq_iff r.slug id).0 this)) in
                  omega (arith, in_time.0))
                timely) in
            inr (
              t,
              e,
              is_live,
              named,
              is_found,
              row,
              rw (events, sym all_later) (events_of-rearrange id (event_order db.orders) later),
            )
      ],
    )
