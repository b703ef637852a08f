-- ===== src/Shell/Session.antt =====
-- shell/src/main.c and shell/src/executor.c: the whole shell, from the line typed to the intrinsics that it runs.
-- The C library and what the system answers are arguments: `World` holds what stays, a `Moment` what is found
-- when a pipeline is run. `log execute` runs a stored line, which may hold `log execute` again; the fuel bounds
-- how deep they nest, and where it is used up the run is cut off.
pub mod Turns
pub mod Defined
pub mod Keeps
pub mod Runs
pub mod Loop
pub mod Safe
pub mod Restart
pub mod Background
pub mod Ends
pub mod CutOff
pub mod Diverges
use operating_systems_and_ne.Prelude.{
  ℕ, zero, suc, Bool, ◌||◌, Option, List, [], ◌∷◌, ◌++◌, ◌==◌, map, if◌then◌else◌, Text, codes,
  peek, text_eq, ℤ, Status, success, failure,
}
use operating_systems_and_ne.Shell.Executor.{ParsedCommand, plan}
use operating_systems_and_ne.Shell.Log.{
  Log, initial, Reply, executes, skip_blanks, log_add_command, cmd_log,
}
use operating_systems_and_ne.Shell.Jobs.{Jobs, zeroed, WaitStatus, Report, check_background_jobs}
use operating_systems_and_ne.Shell.JobControl.{
  Effect, Key, Outcome, press, cmd_activities, cmd_ping, cmd_fg, cmd_bg,
}
use operating_systems_and_ne.Shell.Hop.{Place, cmd_hop}
use operating_systems_and_ne.Shell.Reveal.{cmd_reveal}
use operating_systems_and_ne.Shell.Run.{Files, Note, intrinsic}
use operating_systems_and_ne.Shell.Pipeline.{Answers, Piped, single, stuck, execute_pipeline}
use operating_systems_and_ne.Shell.Main.{
  Round, invalid_syntax, executed, process_input, strip_newline,
}
use operating_systems_and_ne.Shell.Prompt.{init_shell, display_prompt}

-- What is found when a pipeline is run: the files, the answers of the system calls, whether a signal is
-- delivered, and the directories.
pub record Moment : Type 0 where
  pub files : Files
  pub answers : Answers
  pub delivered : Bool
  pub chdir : Text → Text → Option Text
  pub read_dir : Text → Option (List Text)

-- The C library, the user, and the moment of each pipeline.
pub record World : Type 0 where
  pub atoi : Text → ℤ
  pub strtol : Text → ℤ × Text
  pub qsort : (Text → Text → ℤ) → List Text → List Text
  pub home_dir : Text
  pub user : Text
  pub host : Text
  pub moment : ℕ → Moment

-- What the shell prints and starts.
pub data ShellEvent : Type 0 where
  prints : Text → ShellEvent
  reports : Report → ShellEvent
  tells : Note → ShellEvent
  affects : Effect → ShellEvent
  replies : Reply → ShellEvent
  starts : Piped → ShellEvent
  syntax_error hop_error logout kills_group : ShellEvent

-- The variables of the shell, the number of pipelines run so far, and what was printed and started.
pub record Session : Type 0 where
  pub log : Log
  pub place : Place
  pub jobs : Jobs
  pub clock : ℕ
  pub output : List ShellEvent

-- A run that came to its end, or that was cut off.
pub data Ran : Type 0 where
  done cut_off : Session → Ran

-- The state that was reached.
abbrev pub reached : Ran → Session
reached (done s) = s
reached (cut_off s) = s

infixl 5 ◌>>=◌
abbrev pub ◌>>=◌ : Ran → (Session → Ran) → Ran
done s >>= f = f s
cut_off s >>= f = cut_off s

abbrev pub put_out : Session → List ShellEvent → Session
put_out s es = record s { output = s.output ++ es }

-- Behind `cmd_hop`.
unfoldable pub behind_hop : Session → Place × Status → Session
behind_hop s (place, success) = record s { place = place }
behind_hop s (place, failure) = put_out (record s { place = place }) (hop_error ∷ [])

-- Behind `cmd_activities`, `cmd_ping`, `cmd_fg` and `cmd_bg`.
unfoldable pub behind_control : Session → Outcome → Session
behind_control s (jobs, out, status) = put_out (record s { jobs = jobs }) (map affects out)

-- Behind `cmd_log`: a stored line is executed.
unfoldable pub behind_log : (Session → Text → Ran) → Session → Log × Reply → Ran
behind_log onward s (g, executes line) =
    onward (put_out (record s { log = g }) (replies (executes line) ∷ [])) line
behind_log onward s (g, reply) = done (put_out (record s { log = g }) (replies reply ∷ []))

-- Behind `execute_pipeline`.
unfoldable pub behind_pipeline : Session → Jobs × List Note × Piped → Session
behind_pipeline s (jobs, notes, outcome) =
    put_out (record s { jobs = jobs; clock = suc s.clock }) (map tells notes ++ starts outcome ∷ [])

module _ (w : World) where
  -- `execute_intrinsic`, on `args[0]` and the arguments behind it; its result is not used by the callers.
  unfoldable pub execute_intrinsic :
      (Session → Text → Ran) → Moment → Session → Text → List Text → Ran
  unfolding behind_hop behind_control behind_log text_eq
  execute_intrinsic onward m s name args =
      if text_eq name (codes "hop")
      then done (behind_hop s (cmd_hop m.chdir w.home_dir s.place args))
      else if text_eq name (codes "reveal")
      then done (put_out s (prints (cmd_reveal m.read_dir w.qsort w.home_dir s.place args).0 ∷ []))
      else if text_eq name (codes "log")
      then behind_log onward s (cmd_log w.atoi s.log args)
      else if text_eq name (codes "activities")
      then done (behind_control s (cmd_activities s.jobs))
      else if text_eq name (codes "ping")
      then done (behind_control s (cmd_ping w.strtol s.jobs args m.delivered))
      else if text_eq name (codes "fg")
      then done (behind_control s (cmd_fg w.strtol s.jobs args m.answers.keys m.answers.status))
      else if text_eq name (codes "bg")
      then done (behind_control s (cmd_bg w.strtol s.jobs args))
      else done s

  -- An intrinsic by itself is run by the shell; a pipeline that is waited for without end is not left again.
  unfoldable pub run_intrinsic : (Session → Text → Ran) → Moment → Session → Piped → Ran
  unfolding execute_intrinsic
  run_intrinsic onward m s (single (intrinsic (name ∷ args))) =
      execute_intrinsic onward m s name args
  run_intrinsic onward m s (stuck children) = cut_off s
  run_intrinsic onward m s _ = done s

  -- `execute_pipeline`, with the intrinsic that it runs.
  unfoldable pub run_pipeline :
      (Session → Text → Ran) → Session → List (Option ParsedCommand) × Bool → Ran
  unfolding run_intrinsic behind_pipeline
  run_pipeline onward s group =
      let m = w.moment s.clock in
      let out = execute_pipeline m.files s.jobs m.answers group in
      run_intrinsic onward m (behind_pipeline s out) out.2

  -- The loop over the groups.
  unfoldable pub run_pipelines :
      (Session → Text → Ran) → Session → List (List (Option ParsedCommand) × Bool) → Ran
  unfolding run_pipeline
  run_pipelines onward s [] = done s
  run_pipelines onward s (group ∷ groups) =
      run_pipeline onward s group >>= λ s'. run_pipelines onward s' groups

  -- `execute_full_command`, on fuel.
  unfoldable pub run_full_command : ℕ → Session → Text → Ran
  unfolding run_pipelines
  run_full_command zero s input = cut_off s
  run_full_command (suc f) s input = run_pipelines (run_full_command f) s (plan input)

  -- What `process_input` makes of a line.
  unfoldable pub run_round : ℕ → Session → Round → Ran
  run_round f s invalid_syntax = done (put_out s (syntax_error ∷ []))
  run_round f s (executed p) = run_pipelines (run_full_command f) s p

  -- A line that is neither empty nor a comment is logged, and then processed.
  unfoldable pub take_line : ℕ → Session → Text → Ran
  unfolding run_round process_input
  take_line f s trimmed =
      run_round f (record s { log = log_add_command s.log trimmed }) (process_input trimmed)

  -- The body of the loop behind `fgets`.
  unfoldable pub read_line : ℕ → Session → Text → Ran
  unfolding take_line strip_newline skip_blanks
  read_line f s input =
      let trimmed = skip_blanks (strip_newline input) in
      if peek trimmed == 0 || peek trimmed == b'#' then done s else take_line f s trimmed
