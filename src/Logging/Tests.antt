-- ===== src/Logging/Tests.antt =====
-- The log handler (internal/logging/handler.go) at concrete handlers and records.
use tripflare.Base.{
  ◌==◌, if◌then◌else◌, GoString, bytes, str_eq, ok, err, ◌≡◌, refl, false, List, [], ◌∷◌, ◌++◌,
}
use tripflare.Logging.{
  Level, pos, negsuc, geb, Attr, Record, new_pretty_handler, enabled, join_with, write_attr,
  write_attrs, whole, short, line, handle, with_attrs, with_group, Derivation, attrs_added,
  group_opened, derive,
}
use tripflare.Logging.Groups.{qualified_as_added, groups_first, handle-derive}

-- the names of the levels that the program logs at
abbrev level_string : Level → GoString
level_string (negsuc n) = if n == 3 then bytes "DEBUG" else bytes "?"
level_string (pos n) =
    if n == 0 then bytes "INFO" else if n == 4 then bytes "WARN" else bytes "ERROR"

abbrev user : Attr
user = record { key = bytes "user"; value = bytes "me" }

abbrev id : Attr
id = record { key = bytes "id"; value = bytes "7" }

abbrev started : Record
started = record { level = pos 0; message = bytes "started"; attrs = id ∷ [] }

-- With("user", "me") and then WithGroup("req")
abbrev calls : List Derivation
calls = attrs_added (user ∷ []) ∷ group_opened (bytes "req") ∷ group_opened [] ∷ []

grouped :
    handle level_string whole (derive calls (new_pretty_handler (negsuc 3))) started []
    ≡ (ok tt, bytes "[INFO] started req.user=me req.id=7\n")
unfolding handle line derive with_attrs with_group write_attrs write_attr join_with str_eq
grouped = refl

broken_pipe :
    handle level_string (short 3) (new_pretty_handler (negsuc 3)) started []
    ≡ (err "write log line", bytes "[IN")
unfolding handle line write_attrs write_attr join_with str_eq
broken_pipe = refl

below : enabled (new_pretty_handler (pos 0)) (negsuc 3) ≡ false
unfolding enabled geb
below = refl

handle-derive_example :
    handle level_string whole (derive calls (new_pretty_handler (negsuc 3))) started [] ≡ (
      ok tt,
      bytes "[INFO] started" ++ qualified_as_added [] (groups_first calls) (id ∷ []) ++ bytes "\n",
    )
handle-derive_example = handle-derive level_string (negsuc 3) calls started []
