-- ===== src/Cli/State.antt =====
-- src/cli/state.ts: the current room and the tokens that a home keeps. A file stands for the value that
-- its JSON text encodes, and each room has a file of tokens.
use telegent.Base.{Text, or_else, Result, ok, err, Option, none, some, []}
use telegent.Base.Maps.{Map, lookup, insert}

pub record CurrentRoom : Type 0 where
  pub room_id : Text
  pub alias : Text
  pub token : Text
  pub base_url : Text

-- The files of a home; the tokens by room and alias.
pub record HomeFiles : Type 0 where
  pub current : Option CurrentRoom
  pub tokens : Map (Map Text)

pub data HomeError : Type 0 where
  no_current_room no_token : HomeError

unfoldable pub write_current : CurrentRoom → HomeFiles → HomeFiles
write_current current h = record h { current = some current }

unfoldable pub read_current : HomeFiles → Result HomeError CurrentRoom
read_current h = elim h.current [ none ↦ err no_current_room | some c ↦ ok c ]

abbrev pub read_token_store : Text → HomeFiles → Map Text
read_token_store room_id h = or_else (lookup room_id h.tokens) []

unfoldable pub write_token : Text → Text → Text → HomeFiles → HomeFiles
write_token room_id alias token h = record h {
  tokens = insert room_id (insert alias token (read_token_store room_id h)) h.tokens;
}

unfoldable pub read_token : Text → Text → HomeFiles → Result HomeError Text
read_token room_id alias h = elim (lookup alias (read_token_store room_id h)) [
  | none ↦ err no_token
  | some token ↦ ok token
]
