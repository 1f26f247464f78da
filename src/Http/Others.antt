-- ===== src/Http/Others.antt =====
-- What the registry's methods leave of the slugs of other owners.
use tripflare.Base.{
  Bool-cases, Option-cases, GoString, str_eq, str_eq_iff, Dict, lookup, insert, remove,
  lookup-insert, lookup-remove, Outcome-cases, ℕ, ◌≡◌, refl, sym, ap, ◌∙◌, ◌≢◌, inl, inr, false,
  Option, none, some, List, [], ◌∷◌, ◌++◌, arith,
}
use tripflare.Registry.Types.{SlugEntry, Svc}
use tripflare.Registry.Channels.{close_all}
use tripflare.Registry.Entry.{clear_entry}
use tripflare.Registry.Methods.{
  Draw, found, rand_error, exhausted, draw_id, new_slug, new_entry, add_drawn, create_slug,
  delete_slug, clear_events, subscribe,
}
use tripflare.Registry.SlugId.{generate_slug_id}

-- the entries of the slugs that are not the user's stand as they were
abbrev pub OthersKept : GoString → Svc → Svc → Type 0
OthersKept user s s' =
    (id : GoString) (e : SlugEntry)
    → lookup id s.slugs ≡ some e
    → e.slug.owner ≢ user
    → lookup id s'.slugs ≡ some e

-- the entry of a slug of the user's
abbrev pub Owned : GoString → GoString → Svc → Type 0
Owned user slug s = (t : SlugEntry) × (lookup slug s.slugs ≡ some t) × (t.slug.owner ≡ user)

-- a slug that is not the user's is not the slug that is
other_slug :
    (user slug id : GoString) (s : Svc) (e : SlugEntry)
    → Owned user slug s
    → lookup id s.slugs ≡ some e
    → e.slug.owner ≢ user
    → str_eq slug id ≡ false
other_slug user slug id s e (t, there, own) h other = elim (Bool-cases (str_eq slug id)) [
  | inl same ↦
      let k : slug ≡ id = (str_eq_iff slug id).0 same in
      let q : lookup slug s.slugs ≡ some e = ap (λ i. lookup i s.slugs) k ∙ h in
      let u : t ≡ e = cc in absurd (other (sym (ap (λ x. x.slug.owner) u) ∙ own))
  | inr no_match ↦ no_match
]

kept-insert :
    (user slug : GoString) (s : Svc) (e' : SlugEntry)
    → Owned user slug s
    → (id : GoString) (e : SlugEntry) → lookup id s.slugs ≡ some e
    → e.slug.owner ≢ user
    → lookup id (insert slug e' s.slugs) ≡ some e
kept-insert user slug s e' own id e h other =
    lookup-insert slug id e' s.slugs ∙ rw (other_slug user slug id s e own h other) h

kept-remove :
    (user slug : GoString) (s : Svc)
    → Owned user slug s
    → (id : GoString) (e : SlugEntry) → lookup id s.slugs ≡ some e
    → e.slug.owner ≢ user
    → lookup id (remove slug s.slugs) ≡ some e
kept-remove user slug s own id e h other =
    lookup-remove slug id s.slugs ∙ rw (other_slug user slug id s e own h other) h

-- the id that CreateSlug uses is free
pub draw_id-free :
    (draws : List (Option (List ℕ))) (slugs : Dict SlugEntry) (id : GoString)
    → draw_id draws slugs ≡ found id
    → lookup id slugs ≡ none
unfolding draw_id
draw_id-free [] slugs id h = ground arith
draw_id-free (d ∷ ds) slugs id h = elim (Option-cases (generate_slug_id d)) [
  | inl failed ↦ ground (arith, failed)
  | inr (i, drawn) ↦ elim (Option-cases (lookup i slugs)) [
    | inl free ↦ ground (arith, drawn, free)
    | inr (e, taken) ↦ draw_id-free ds slugs id (rw (drawn, taken, draw_id) at h)
  ]
]

add_drawn-OthersKept :
    (d : Draw) (owner user : GoString) (now : ℕ) (s : Svc)
    → ((i : GoString) → d ≡ found i → lookup i s.slugs ≡ none)
    → OthersKept user s (add_drawn d owner now s).1
unfolding add_drawn
add_drawn-OthersKept (found i) owner user now s free id e h other =
    elim (Bool-cases (str_eq i id)) [
      | inl same ↦
          let k : lookup id s.slugs ≡ none =
            ap (λ j. lookup j s.slugs) (sym ((str_eq_iff i id).0 same)) ∙ free i refl in
          ground (arith, k, h)
      | inr apart ↦
          lookup-insert i id (new_entry s.next (new_slug i owner now s.slug_ttl)) s.slugs
          ∙ rw apart h
    ]
add_drawn-OthersKept rand_error owner user now s free id e h other = h
add_drawn-OthersKept exhausted owner user now s free id e h other = h

pub create_slug-OthersKept :
    (draws : List (Option (List ℕ))) (owner user : GoString) (now : ℕ) (s : Svc)
    → OthersKept user s (create_slug draws owner now s).1
unfolding create_slug
create_slug-OthersKept draws owner user now s =
    add_drawn-OthersKept (draw_id draws s.slugs) owner user now s (draw_id-free draws s.slugs)

pub delete_slug-OthersKept :
    (user slug : GoString) (s : Svc) → Owned user slug s → OthersKept user s (delete_slug slug s).1
unfolding delete_slug
delete_slug-OthersKept user slug s (t, there, own) id e h other =
    elim (Outcome-cases (close_all t.subscribers s.chans).0) [
      | inl panics ↦ rw (there, delete_slug, panics) h
      | inr (a, returns) ↦
          rw (there, delete_slug, returns) (kept-remove user slug s (t, there, own) id e h other)
    ]

pub clear_events-OthersKept :
    (user slug : GoString) (s : Svc) → Owned user slug s → OthersKept user s (clear_events slug s).1
unfolding clear_events
clear_events-OthersKept user slug s (t, there, own) id e h other =
    rw (there, clear_events) (kept-insert user slug s (clear_entry t) (t, there, own) id e h other)

pub subscribe-OthersKept :
    (user slug : GoString) (s : Svc) → Owned user slug s → OthersKept user s (subscribe slug s).1
unfolding subscribe
subscribe-OthersKept user slug s (t, there, own) id e h other =
    rw (there, subscribe)
      (kept-insert user slug s (record t { subscribers = t.subscribers ++ s.next ∷ [] })
        (t, there, own) id e h other)
