-- ===== src/Shell/Executor.antt =====
-- shell/src/executor.c: how an accepted line is cut into groups, pipelines and commands.
-- The bytes at a NUL end a text, as in C; `strndup` and `malloc` are taken to succeed.
pub mod Scan
pub mod Words
pub mod Signs
pub mod Cuts
pub mod Pieces
pub mod Groups
pub mod Plan
pub mod Runnable
use operating_systems_and_ne.Prelude.{
  ℕ, zero, suc, ◌+◌, Bool, true, false, not, ◌&&◌, ◌||◌, Option, none, some, List, [], ◌∷◌, ◌++◌,
  ◌==◌, if◌then◌else◌, Text, peek, is_space, length, take, map,
}
use operating_systems_and_ne.Shell.Parser.{skip_whitespace, second_gt}

-- `ParsedCommand`
pub record ParsedCommand : Type 0 where
  pub args : List Text
  pub input_file : Option Text
  pub output_file : Option Text
  pub append_output : Bool

-- As `parse_command` sets it up.
abbrev pub no_command : ParsedCommand
no_command = record { args = []; input_file = none; output_file = none; append_output = false }

-- `strncpy` into a buffer of 4096 bytes, with the NUL behind.
abbrev pub copy_buffer : Text → Text
copy_buffer = take 4095

-- The test of the loops over a word: `*ptr && !isspace(*ptr) && *ptr != '>' && *ptr != '<'`.
unfoldable pub is_word_char : ℕ → Bool
unfolding is_space
is_word_char c = not (c == 0) && not (is_space c) && not (c == b'>') && not (c == b'<')

-- The word at the front, and the text behind it.
unfoldable pub scan_word : Text → Text × Text
scan_word [] = ([], [])
scan_word (c ∷ cs) =
    let (w, r) = scan_word cs in if is_word_char c then (c ∷ w, r) else ([], c ∷ cs)

-- `if (ptr > start)`: an empty word changes nothing.
unfoldable pub with_input : Text → ParsedCommand → ParsedCommand
with_input [] cmd = cmd
with_input (c ∷ w) cmd = record cmd { input_file = some (c ∷ w) }

unfoldable pub with_output : Text → ParsedCommand → ParsedCommand
with_output [] cmd = cmd
with_output (c ∷ w) cmd = record cmd { output_file = some (c ∷ w) }

unfoldable pub with_argument : Text → ParsedCommand → ParsedCommand
with_argument [] cmd = cmd
with_argument (c ∷ w) cmd = record cmd { args = cmd.args ++ (c ∷ w) ∷ [] }

-- `append_output` is set at `>>`, and never cleared.
abbrev pub with_append : Bool → ParsedCommand → ParsedCommand
with_append second cmd = record cmd { append_output = second || cmd.append_output }

-- One round of the loop in `parse_command` at a byte that is no whitespace: the command so far, and
-- the text left.
unfoldable pub parse_word : ℕ → Text → ParsedCommand → ParsedCommand × Text
unfolding with_input with_output with_argument
parse_word c cs cmd =
    if c == b'<'
    then (let (w, r) = scan_word (skip_whitespace cs) in (with_input w cmd, r))
    else if c == b'>'
    then (let (second, t) = second_gt cs in
        let (w, r) = scan_word (skip_whitespace t) in (with_output w (with_append second cmd), r))
    else (let (w, r) = scan_word (c ∷ cs) in (with_argument w cmd, r))

-- The loop of `parse_command`; `none` means that the fuel ran out.
unfoldable pub next_word :
    (ParsedCommand → Text → Option ParsedCommand) → ParsedCommand → Text → Option ParsedCommand
unfolding parse_word
next_word onward cmd [] = some cmd
next_word onward cmd (c ∷ cs) =
    if c == 0 then some cmd else (let (cmd', r) = parse_word c cs cmd in onward cmd' r)

unfoldable pub parse_words : ℕ → ParsedCommand → Text → Option ParsedCommand
unfolding next_word
parse_words zero cmd s = none
parse_words (suc f) cmd s = next_word (parse_words f) cmd (skip_whitespace s)

-- `parse_command`: it returns 0 if the command has an argument, and else -1.
unfoldable pub parse_command : Text → Option ParsedCommand
parse_command input =
    let buffer = copy_buffer input in parse_words (suc (length buffer)) no_command buffer

abbrev pub is_runnable : ParsedCommand → Bool
is_runnable cmd = elim cmd.args [ [] ↦ false | a ∷ as' ↦ true ]

-- Cuts a text at each byte that passes a test: the first piece, and each byte with the piece
-- behind it.
unfoldable pub cut : (ℕ → Bool) → Text → Text × List (ℕ × Text)
cut test [] = ([], [])
cut test (c ∷ cs) =
    let (piece, more) = cut test cs in
    if c == 0 then ([], []) else if test c then ([], (c, piece) ∷ more) else (c ∷ piece, more)

abbrev pub is_pipe : ℕ → Bool
is_pipe c = c == b'|'

abbrev pub is_separator : ℕ → Bool
is_separator c = c == b';' || c == b'&'

-- The splitting loop of `execute_pipeline`: the commands between the pipes.
unfoldable pub split_pipes : Text → List Text
unfolding cut
split_pipes input =
    let (first, more) = cut is_pipe (copy_buffer input) in first ∷ map (λ (p : ℕ × Text). p.1) more

-- Drops the whitespace at the end.
unfoldable pub keep_unless_blank : ℕ → Text → Text
keep_unless_blank c [] = if is_space c then [] else c ∷ []
keep_unless_blank c (d ∷ ds) = c ∷ d ∷ ds

unfoldable pub trim_end : Text → Text
unfolding keep_unless_blank is_space
trim_end [] = []
trim_end (c ∷ cs) = keep_unless_blank c (trim_end cs)

-- A group with its `backgrounds` flag, if something is left of it.
unfoldable pub group : Text → Bool → List (Text × Bool)
group [] background = []
group (c ∷ cs) background = (c ∷ cs, background) ∷ []

-- The groups behind a separator: the whitespace in front of each is skipped, that behind it dropped,
-- and the separator behind it says whether it runs in the background.
unfoldable pub later_groups : Text → List (ℕ × Text) → List (Text × Bool)
unfolding group trim_end
later_groups piece [] = group (trim_end (skip_whitespace piece)) false
later_groups piece ((sep, next) ∷ more) =
    group (trim_end (skip_whitespace piece)) (sep == b'&') ++ later_groups next more

-- The first group keeps the whitespace in front.
unfoldable pub first_group : Text → List (ℕ × Text) → List (Text × Bool)
unfolding later_groups
first_group piece [] = group (trim_end piece) false
first_group piece ((sep, next) ∷ more) =
    group (trim_end piece) (sep == b'&') ++ later_groups next more

-- The splitting loop of `execute_full_command`: `cmd_groups` with `backgrounds`.
unfoldable pub split_groups : Text → List (Text × Bool)
unfolding first_group cut
split_groups input =
    let (piece, more) = cut is_separator (copy_buffer input) in first_group piece more

-- What `execute_full_command` runs: for each group the commands of its pipeline, and whether it
-- runs in the background.
unfoldable pub pipeline_of : Text × Bool → List (Option ParsedCommand) × Bool
pipeline_of (input, background) = (map parse_command (split_pipes input), background)

unfoldable pub plan : Text → List (List (Option ParsedCommand) × Bool)
plan input = map pipeline_of (split_groups input)
