-- ===== src/Shell/Main.antt =====
-- shell/src/main.c: what becomes of a line that is read.
pub mod Rounds
use operating_systems_and_ne.Prelude.{Bool, Option, List, [], ◌∷◌, ◌==◌, if◌then◌else◌, Text}
use operating_systems_and_ne.Shell.Parser.{accepted, parse_input}
use operating_systems_and_ne.Shell.Executor.{ParsedCommand, plan}

-- What a line leads to.
pub data Round : Type 0 where
  invalid_syntax : Round
  executed : List (List (Option ParsedCommand) × Bool) → Round

-- `process_input`
unfoldable pub process_input : Text → Round
process_input input = elim (parse_input input) [
  | accepted ↦ executed (plan input)
  | _ ↦ invalid_syntax
]

-- Drops the newline at the end.
unfoldable pub strip_newline : Text → Text
strip_newline [] = []
strip_newline (c ∷ []) = if c == b'\n' then [] else c ∷ []
strip_newline (c ∷ d ∷ cs) = c ∷ strip_newline (d ∷ cs)
