-- ===== src/Json.antt =====
-- The JSON texts that the program encodes, as the objects that they encode (encoding/json).
use tripflare.Base.{GoString, Dict}

-- A member of an object: a string, or an object of strings.
pub data Member : Type 0 where
  text : GoString → Member
  texts : Dict GoString → Member

-- json.RawMessage, and the text of it that the store keeps.
abbrev pub RawMessage : Type 0
RawMessage = Dict Member
