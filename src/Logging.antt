-- ===== src/Logging.antt =====
-- internal/logging/handler.go: the handler of log records.
pub mod Groups
pub mod Tests
use tripflare.Base.{
  leb, if◌then◌else◌, take, GoString, bytes, str_eq, Result, ok, err, ℕ, Bool, true, false, not,
  List, [], ◌∷◌, ◌++◌,
}

-- slog.Level, an int
pub data Level : Type 0 where
  pos : ℕ → Level
  negsuc : ℕ → Level

-- a >= b
unfoldable pub geb : Level → Level → Bool
geb (pos a) (pos b) = leb b a
geb (pos a) (negsuc b) = true
geb (negsuc a) (pos b) = false
geb (negsuc a) (negsuc b) = leb a b

-- slog.Attr, with the text that String gives of its value. Handle writes every attribute this way,
-- also one without a key and a group.
pub record Attr : Type 0 where
  pub key : GoString
  pub value : GoString

-- slog.Record: the time is not written
pub record Record : Type 0 where
  pub level : Level
  pub message : GoString
  pub attrs : List Attr

-- prettyHandler, less its writer and its mutex
pub record Handler : Type 0 where
  pub level : Level
  pub attrs : List Attr
  pub groups : List GoString

abbrev pub new_pretty_handler : Level → Handler
new_pretty_handler level = record { level = level; attrs = []; groups = [] }

unfoldable pub enabled : Handler → Level → Bool
enabled h level = geb level h.level

-- strings.Join(elems, sep)
unfoldable pub join_with : GoString → List GoString → GoString
join_with sep [] = []
join_with sep (s ∷ []) = s
join_with sep (s ∷ t ∷ elems) = s ++ (sep ++ join_with sep (t ∷ elems))

-- what writeAttr writes of an attribute
unfoldable pub write_attr : GoString → Attr → GoString
write_attr prefix a =
    let key = if not (str_eq prefix []) then prefix ++ bytes "." ++ a.key else a.key in
    bytes " " ++ key ++ bytes "=" ++ a.value

-- writeAttr for each attribute in turn
unfoldable pub write_attrs : GoString → List Attr → GoString
write_attrs prefix [] = []
write_attrs prefix (a ∷ attrs) = write_attr prefix a ++ write_attrs prefix attrs

-- how one io.WriteString ends
pub data Writing : Type 0 where
  whole : Writing
  short : ℕ → Writing

-- `level_string` is the String of slog.Level
module _ (level_string : Level → GoString) where
  -- the line that Handle builds
  unfoldable pub line : Handler → Record → GoString
  line h r =
      let prefix = join_with (bytes ".") h.groups in
      bytes "["
      ++ level_string r.level
      ++ bytes "] "
      ++ r.message
      ++ write_attrs prefix h.attrs
      ++ write_attrs prefix r.attrs
      ++ bytes "\n"

  -- Handle, on a writer to which `out` has been written
  unfoldable pub handle : Writing → Handler → Record → GoString → Result (Unit {0}) × GoString
  handle whole h r out = (ok tt, out ++ line h r)
  handle (short n) h r out = (err "write log line", out ++ take n (line h r))

unfoldable pub with_attrs : List Attr → Handler → Handler
with_attrs attrs h = record { level = h.level; attrs = h.attrs ++ attrs; groups = h.groups }

unfoldable pub with_group : GoString → Handler → Handler
with_group name h =
    if str_eq name []
    then h
    else record { level = h.level; attrs = h.attrs; groups = h.groups ++ (name ∷ []) }

-- a call that derives a handler, of slog.Logger's With and WithGroup
pub data Derivation : Type 0 where
  attrs_added : List Attr → Derivation
  group_opened : GoString → Derivation

-- the handler that a sequence of those gives
unfoldable pub derive : List Derivation → Handler → Handler
derive [] h = h
derive (attrs_added attrs ∷ ds) h = derive ds (with_attrs attrs h)
derive (group_opened name ∷ ds) h = derive ds (with_group name h)
