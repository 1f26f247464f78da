-- ===== src/Logging/Groups.antt =====
-- The groups in the lines of a derived handler (internal/logging/handler.go), beside lines that
-- qualify an attribute by the groups that were opened before it was added.
use tripflare.Base.{
  if◌then◌else◌, Bool-cases, All, All-append, GoString, bytes, str_eq, str_eq_refl, Result, ok, ◌≡◌,
  refl, ap, ◌∙◌, inl, inr, false, List, [], ◌∷◌, ◌++◌, map, append-nil, append_assoc,
}
use tripflare.Logging.{
  Level, Attr, Record, Handler, new_pretty_handler, join_with, write_attr, write_attrs, whole, line,
  handle, with_attrs, with_group, Derivation, attrs_added, group_opened, derive,
}

-- the key of an attribute under a sequence of groups
abbrev qualified_key : List GoString → GoString → GoString
qualified_key [] key = key
qualified_key (g ∷ gs) key = g ++ (bytes "." ++ qualified_key gs key)

-- the text of attributes under a sequence of groups
abbrev qualified : List GoString → List Attr → GoString
qualified gs [] = []
qualified gs (a ∷ attrs) =
    bytes " " ++ qualified_key gs a.key ++ bytes "=" ++ a.value ++ qualified gs attrs

-- a group without a name is not opened
abbrev opened : GoString → List GoString
opened name = if str_eq name [] then [] else name ∷ []

-- the groups that a sequence of derivations opens
abbrev groups_of : List Derivation → List GoString
groups_of [] = []
groups_of (attrs_added attrs ∷ ds) = groups_of ds
groups_of (group_opened name ∷ ds) = opened name ++ groups_of ds

-- the attributes that it adds
abbrev attrs_of : List Derivation → List Attr
attrs_of [] = []
attrs_of (attrs_added attrs ∷ ds) = attrs ++ attrs_of ds
attrs_of (group_opened name ∷ ds) = attrs_of ds

-- the text of what the derivations and the record add, each attribute under the groups that are open
-- when it is added
abbrev pub qualified_as_added : List GoString → List Derivation → List Attr → GoString
qualified_as_added gs [] attrs = qualified gs attrs
qualified_as_added gs (attrs_added more ∷ ds) attrs =
    qualified gs more ++ qualified_as_added gs ds attrs
qualified_as_added gs (group_opened name ∷ ds) attrs =
    qualified_as_added (gs ++ opened name) ds attrs

-- the same derivations, with those that open a group first
abbrev pub groups_first : List Derivation → List Derivation
groups_first ds = map group_opened (groups_of ds) ++ (attrs_added (attrs_of ds) ∷ [])

abbrev Named : List GoString → Type 0
Named gs = All (λ g. str_eq g [] ≡ false) gs

opened-Named : (name : GoString) → Named (opened name)
opened-Named name = elim (Bool-cases (str_eq name [])) [ inl e ↦ rw e tt | inr e ↦ rw e (e, tt) ]

groups_of-Named : (ds : List Derivation) → Named (groups_of ds)
groups_of-Named [] = tt
groups_of-Named (attrs_added attrs ∷ ds) = groups_of-Named ds
groups_of-Named (group_opened name ∷ ds) =
    All-append (λ g. str_eq g [] ≡ false) (opened name) (groups_of ds) (opened-Named name)
      (groups_of-Named ds)

with_group_lem :
    (name : GoString) (h : Handler)
    → with_group name h
      ≡ record { level = h.level; attrs = h.attrs; groups = h.groups ++ opened name }
unfolding with_group
with_group_lem name h = elim (Bool-cases (str_eq name [])) [
  | inl e ↦ rw (e, with_group, append-nil) refl
  | inr e ↦ rw (e, with_group) refl
]

derive_lem :
    (ds : List Derivation) (h : Handler)
    → derive ds h ≡ record {
      level = h.level;
      attrs = h.attrs ++ attrs_of ds;
      groups = h.groups ++ groups_of ds;
    }
unfolding derive with_attrs
derive_lem [] h = rw (append-nil h.attrs, append-nil h.groups) refl
derive_lem (attrs_added attrs ∷ ds) h = derive_lem ds (with_attrs attrs h) ∙ rw append_assoc refl
derive_lem (group_opened name ∷ ds) h = rw (with_group_lem name h) (
    derive_lem ds (record { level = h.level; attrs = h.attrs; groups = h.groups ++ opened name })
    ∙ rw append_assoc refl)

join_with_none : join_with (bytes ".") [] ≡ []
unfolding join_with
join_with_none = refl

join_with_one : (s : GoString) → join_with (bytes ".") (s ∷ []) ≡ s
unfolding join_with
join_with_one s = refl

join_with_cons :
    (s t : GoString) (elems : List GoString)
    → join_with (bytes ".") (s ∷ t ∷ elems) ≡ s ++ (bytes "." ++ join_with (bytes ".") (t ∷ elems))
unfolding join_with
join_with_cons s t elems = refl

join_with_lem :
    (g : GoString) (gs : List GoString) (key : GoString)
    → join_with (bytes ".") (g ∷ gs) ++ bytes "." ++ key ≡ qualified_key (g ∷ gs) key
join_with_lem g [] key = rw (join_with_one g) (append_assoc g (bytes ".") key)
join_with_lem g (g' ∷ gs) key =
    let text = bytes "." ++ join_with (bytes ".") (g' ∷ gs) in
    rw (join_with_cons g g' gs) (
      ap (λ t. t ++ key) (append_assoc g text (bytes "."))
      ∙ (append_assoc g (text ++ bytes ".") key
          ∙ ap (λ t. g ++ (bytes "." ++ t)) (join_with_lem g' gs key)))

join_with-nonempty :
    (g : GoString) (gs : List GoString)
    → str_eq g [] ≡ false
    → str_eq (join_with (bytes ".") (g ∷ gs)) [] ≡ false
unfolding join_with str_eq
join_with-nonempty [] gs h = absurd cc
join_with-nonempty (c ∷ g) [] h = refl
join_with-nonempty (c ∷ g) (g' ∷ gs) h = refl

write_attr_lem :
    (gs : List GoString) (a : Attr)
    → Named gs
    → write_attr (join_with (bytes ".") gs) a
      ≡ bytes " " ++ qualified_key gs a.key ++ bytes "=" ++ a.value
unfolding write_attr
write_attr_lem [] a h = rw (join_with_none, str_eq_refl []) refl
write_attr_lem (g ∷ gs) a h =
    rw (join_with-nonempty g gs h.0)
      (ap (λ key. bytes " " ++ key ++ bytes "=" ++ a.value) (join_with_lem g gs a.key))

write_attrs_lem :
    (gs : List GoString) (attrs : List Attr)
    → Named gs
    → write_attrs (join_with (bytes ".") gs) attrs ≡ qualified gs attrs
unfolding write_attrs
write_attrs_lem gs [] h = refl
write_attrs_lem gs (a ∷ attrs) h = rw (write_attr_lem gs a h, write_attrs_lem gs attrs h) refl

qualified_as_added_lem :
    (gs names : List GoString) (more attrs : List Attr)
    → Named names
    → qualified_as_added gs (map group_opened names ++ (attrs_added more ∷ [])) attrs
      ≡ qualified (gs ++ names) more ++ qualified (gs ++ names) attrs
qualified_as_added_lem gs [] more attrs h = rw (append-nil gs) refl
qualified_as_added_lem gs (name ∷ names) more attrs h =
    rw (qualified_as_added, h.0)
      (qualified_as_added_lem (gs ++ (name ∷ [])) names more attrs h.1
        ∙ rw (append_assoc gs (name ∷ []) names) refl)

-- The line that Handle writes for a handler that was derived by any calls of With and WithGroup: the
-- record's level and message, and then the attributes that were added and those of the record, each
-- with its key qualified by all the groups with a name, also by one that was opened after the
-- attribute was added. It is the line that has each key qualified by the groups that were opened
-- before, for the same calls with those of WithGroup first.
pub handle-derive :
    (level_string : Level → GoString) (level : Level) (ds : List Derivation) (r : Record)
    (out : GoString)
    → handle level_string whole (derive ds (new_pretty_handler level)) r out ≡ (
      ok tt,
      out
          ++ (bytes "["
              ++ level_string r.level
              ++ bytes "] "
              ++ r.message
              ++ qualified_as_added [] (groups_first ds) r.attrs
              ++ bytes "\n"),
    )
unfolding handle line
handle-derive level_string level ds r out =
    let names = groups_of-Named ds in
    let head = bytes "[" ++ level_string r.level ++ bytes "] " ++ r.message in
    let written : GoString → Result (Unit {0}) × GoString =
      λ text. (ok tt, out ++ (text ++ bytes "\n")) in
    let added = qualified (groups_of ds) (attrs_of ds) in
    let own = qualified (groups_of ds) r.attrs in
    rw
      (
        derive_lem ds (new_pretty_handler level),
        write_attrs_lem (groups_of ds) (attrs_of ds) names,
        write_attrs_lem (groups_of ds) r.attrs names,
        qualified_as_added_lem [] (groups_of ds) (attrs_of ds) r.attrs names,
      )
      (ap written (append_assoc head added own))
