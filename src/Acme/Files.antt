-- ===== src/Acme/Files.antt =====
-- The files of internal/acme: os.ReadFile and os.WriteFile of Go's library, so far
-- as the package uses them.
use tripflare.Base.{
  if◌then◌else◌, take, GoString, Dict, lookup, insert, ok, err, Fallible, ℕ, Bool, none, some,
  String,
}

-- what the files hold, by path
abbrev pub Disk : Type 0
Disk = Dict GoString

-- what os.ReadFile gives: fs.ErrNotExist is told from the other errors
pub data Read : Type 0 where
  contents : GoString → Read
  not_exist unreadable : Read

-- os.ReadFile, where reading the file fails if `denied`
unfoldable pub read_file : (GoString → Bool) → GoString → Disk → Read
read_file denied path disk =
    if denied path
    then unreadable
    else elim (lookup path disk) [ none ↦ not_exist | some data_ ↦ contents data_ ]

-- How os.WriteFile ends: after all the bytes, before it has opened the file, or with an error after
-- the first n bytes.
pub data Write : Type 0 where
  complete refused : Write
  cut_short : ℕ → Write

unfoldable pub write_file : (GoString → Write) → String → GoString → GoString → Fallible Disk Unit
write_file outcome message path data_ disk = elim (outcome path) [
  | complete ↦ (ok tt, insert path data_ disk)
  | refused ↦ (err message, disk)
  | cut_short n ↦ (err message, insert path (take n data_) disk)
]
