-- ===== src/Shell/Pipeline/Started.antt =====
-- Where `pipe` and `fork` succeed, every pipeline of a line is started: execute_full_command of shell/src/executor.c.
use operating_systems_and_ne.Prelude.{ℕ, ◌≡◌, Bool, true, false, Option, some, List, [], ◌∷◌}
use operating_systems_and_ne.Shell.Jobs.{Jobs}
use operating_systems_and_ne.Shell.Run.{Run, nothing, not_forked}
use operating_systems_and_ne.Shell.Pipeline.{
  Answers, Stage, unforked, Piped, refused, undefined, single, piped, stuck,
}
use operating_systems_and_ne.Shell.Pipeline.Laws.{IsFilled}

-- The child of every command was forked; an intrinsic has none.
abbrev RunForked : Run → Type 0
RunForked nothing = ⊥
RunForked not_forked = ⊥
RunForked _ = Unit

pub all_forked : List (Option (ℕ × Stage)) → Bool
all_forked [] = true
all_forked (some (pid, unforked) ∷ children) = false
all_forked (child ∷ children) = all_forked children

abbrev IsForked : Piped → Type 0
IsForked refused = Unit
IsForked undefined = Unit
IsForked (single run) = RunForked run
IsForked (piped children) = all_forked children ≡ true
IsForked (stuck children) = all_forked children ≡ true

-- A pipeline that was started, with a child for each command and no `pids[i]` left uninitialised.
abbrev pub IsStarted : Piped → Type 0
IsStarted outcome = IsFilled outcome × IsForked outcome

-- `pipe` and `fork` succeed.
pub record Succeeds (a : Answers) : Type 0 where
  pub pipes : a.pipes_open ≡ true
  pub pid : ℕ
  pub fork_one : a.fork ≡ some pid
  pub pids : ℕ → ℕ
  pub fork_each : (i : ℕ) → a.forks i ≡ some (pids i)
