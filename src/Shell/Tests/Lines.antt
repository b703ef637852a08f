-- ===== src/Shell/Tests/Lines.antt =====
-- Concrete command lines, for parser.c, executor.c and main.c of shell/src.
use operating_systems_and_ne.Prelude.{
  ◌≡◌, ◌↔◌, ◌⊎◌, ◌<◌, refl, true, some, [], ◌∷◌, ◌++◌, map, Text, codes, length, arith, is_space,
}
use operating_systems_and_ne.Shell.Parser.{
  parse_input, accepted, rejected, skip_whitespace, parse_cmd_group, parse_atomic, parse_name,
  scan_name, is_name_char, parse_items, parse_item, parse_pipes, parse_groups,
}
use operating_systems_and_ne.Shell.Parser.Tokens.{name, lex}
use operating_systems_and_ne.Shell.Parser.Grammar.{
  Line, spell, spell_items, argument, append_to, output_to, parse_input_iff, parse_input_total,
}
use operating_systems_and_ne.Shell.Executor.{ParsedCommand, no_command, parse_command, plan}
use operating_systems_and_ne.Shell.Executor.Scan.{assemble, IsPlain}
use operating_systems_and_ne.Shell.Executor.Words.{parse_command_lem}
use operating_systems_and_ne.Shell.Executor.Pieces.{all_parsed}
use operating_systems_and_ne.Shell.Executor.Plan.{run_line, plan_accepted}
use operating_systems_and_ne.Shell.Executor.Runnable.{AllRunnable, plan-AllRunnable, append_sticks}

abbrev pub some_line : Text
some_line = codes "cat < in | wc -l >> out & ls; pwd"

pub short_line : length some_line < 4096
short_line = omega arith

pub accepted_line : parse_input some_line ≡ accepted
unfolding parse_input skip_whitespace is_space parse_cmd_group parse_atomic parse_name scan_name
    is_name_char parse_items parse_item parse_pipes parse_groups
accepted_line = refl

plan_accepted_example :
    (l : Line) × (lex some_line ≡ spell l) × (plan some_line ≡ map all_parsed (run_line l))
plan_accepted_example = plan_accepted some_line short_line accepted_line

plan-AllRunnable_example : AllRunnable (plan some_line)
plan-AllRunnable_example = plan-AllRunnable some_line short_line accepted_line

parse_input_iff_example :
    (parse_input some_line ≡ accepted) ↔ ((l : Line) × (lex some_line ≡ spell l))
parse_input_iff_example = parse_input_iff some_line

parse_input_total_example : (parse_input some_line ≡ accepted) ⊎ (parse_input some_line ≡ rejected)
parse_input_total_example = parse_input_total some_line

-- A pipe with nothing behind it.
rejected_line : parse_input (codes "cat |") ≡ rejected
unfolding parse_input skip_whitespace is_space parse_cmd_group parse_atomic parse_name scan_name
    is_name_char parse_items parse_item parse_pipes parse_groups
rejected_line = refl

abbrev sticky : Text
sticky = codes "echo hi >> a > b"

sticky-IsPlain : IsPlain sticky
sticky-IsPlain = ground arith

short_sticky : length sticky < 4096
short_sticky = omega arith

sticky_tokens :
    lex sticky
    ≡ name (codes "echo")
      ∷ spell_items
          ((argument (codes "hi") ∷ [])
            ++ append_to (codes "a") ∷ ([] ++ output_to (codes "b") ∷ []))
          []
unfolding lex
sticky_tokens = refl

parse_command_lem_example : parse_command sticky ≡ some (assemble no_command (lex sticky))
parse_command_lem_example = parse_command_lem sticky short_sticky sticky-IsPlain

append_sticks_example :
    (cmd : ParsedCommand) × (parse_command sticky ≡ some cmd)
    × (cmd.output_file ≡ some (codes "b"))
    × (cmd.append_output ≡ true)
append_sticks_example =
    append_sticks sticky (codes "echo") (codes "a") (codes "b") (argument (codes "hi") ∷ []) []
      short_sticky sticky-IsPlain sticky_tokens
