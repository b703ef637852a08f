-- ===== src/Shell/Main/Rounds.antt =====
-- What the loop of shell/src/main.c executes.
use operating_systems_and_ne.Prelude.{◌≤◌, ◌<◌, ◌≡◌, refl, [], ◌∷◌, Text, length, arith}
use operating_systems_and_ne.Shell.Parser.{Verdict, accepted, rejected, unfinished, parse_input}
use operating_systems_and_ne.Shell.Executor.{plan}
use operating_systems_and_ne.Shell.Executor.Runnable.{AllRunnable, plan-AllRunnable}
use operating_systems_and_ne.Shell.Log.{skip_blanks}
use operating_systems_and_ne.Shell.Main.{
  Round, invalid_syntax, executed, process_input, strip_newline,
}

-- If a round executes anything, every command of it has a name to execute.
abbrev pub IsSound : Round → Type 0
IsSound invalid_syntax = Unit
IsSound (executed p) = AllRunnable p

pub length-strip_newline : (s : Text) → length (strip_newline s) ≤ length s
unfolding strip_newline
length-strip_newline [] = omega arith
length-strip_newline (c ∷ []) = ground arith
length-strip_newline (c ∷ d ∷ cs) = omega (arith, length-strip_newline (d ∷ cs))

pub length-skip_blanks : (s : Text) → length (skip_blanks s) ≤ length s
unfolding skip_blanks
length-skip_blanks [] = omega arith
length-skip_blanks (c ∷ cs) = ground (arith, length-skip_blanks cs)

process_verdict :
    (s : Text) (v : Verdict)
    → length s < 4096
    → parse_input s ≡ v
    → IsSound (elim v as (λ x. Round) [
      | accepted ↦ executed (plan s)
      | rejected ↦ invalid_syntax
      | unfinished ↦ invalid_syntax
    ])
process_verdict s accepted short e = plan-AllRunnable s short e
process_verdict s rejected short e = tt
process_verdict s unfinished short e = tt

pub process_input-IsSound : (s : Text) → length s < 4096 → IsSound (process_input s)
unfolding process_input
process_input-IsSound s short = process_verdict s (parse_input s) short refl
