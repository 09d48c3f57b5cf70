-- ===== src/Cli/Args.antt =====
-- src/cli/args.ts: the arguments of a command.
use telegent.Base.{
  Text, ◌==◌, if◌then◌else◌, Bool, true, false, ◌&&◌, Option, none, some, List, [], ◌∷◌, ◌++◌,
}
use telegent.Base.Maps.{Map, lookup, insert}

-- The value of a flag: a text, or `true`.
pub data FlagValue : Type 0 where
  given : Text → FlagValue
  set : FlagValue

pub record ParsedArgs : Type 0 where
  pub positional : List Text
  pub flags : Map FlagValue

-- The key of a flag: what follows `--`.
abbrev pub flag_key : Text → Option Text
flag_key [] = none
flag_key (a ∷ []) = none
flag_key (a ∷ b ∷ s) = if a == 45 && b == 45 then some s else none

abbrev pub with_positional : Text → ParsedArgs → ParsedArgs
with_positional arg parsed = record parsed { positional = parsed.positional ++ arg ∷ [] }

abbrev pub with_flag : Text → FlagValue → ParsedArgs → ParsedArgs
with_flag key value parsed = record parsed { flags = insert key value parsed.flags }

-- The loop, on what it has parsed.
unfoldable pub parse_from : ParsedArgs → List Text → ParsedArgs
parse_from parsed [] = parsed
parse_from parsed (arg ∷ []) = elim (flag_key arg) [
  | none ↦ with_positional arg parsed
  | some key ↦ with_flag key set parsed
]
parse_from parsed (arg ∷ next ∷ rest) = elim (flag_key arg) [
  | none ↦ parse_from (with_positional arg parsed) (next ∷ rest)
  | some key ↦ elim (flag_key next) [
    | some _ ↦ parse_from (with_flag key set parsed) (next ∷ rest)
    | none ↦ parse_from (with_flag key (given next) parsed) rest
  ]
]

unfoldable pub parse_args : List Text → ParsedArgs
unfolding parse_from
parse_args argv = parse_from (record { positional = []; flags = [] }) argv

unfoldable pub flag_string : ParsedArgs → Text → Option Text
flag_string args key = elim (lookup key args.flags) [
  | none ↦ none
  | some value ↦ elim value [ given s ↦ some s | set ↦ none ]
]

unfoldable pub flag_boolean : ParsedArgs → Text → Bool
flag_boolean args key = elim (lookup key args.flags) [
  | none ↦ false
  | some value ↦ elim value [ given s ↦ false | set ↦ true ]
]
