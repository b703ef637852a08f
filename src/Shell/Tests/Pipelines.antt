-- ===== src/Shell/Tests/Pipelines.antt =====
-- Concrete pipelines and lines, for shell/src/executor.c.
use operating_systems_and_ne.Prelude.{
  ℕ, ◌+◌, ◌≡◌, refl, true, some, [], ◌∷◌, get_elem?, codes, none,
}
use operating_systems_and_ne.Shell.Executor.{ParsedCommand}
use operating_systems_and_ne.Shell.Jobs.{wait_stopped}
use operating_systems_and_ne.Shell.JobControl.{ctrl_z}
use operating_systems_and_ne.Shell.Pipeline.{Answers, Feed, Drain, runs, parent_ends, fork_all}
use operating_systems_and_ne.Shell.Pipeline.Ends.{Reads, Writes, fork_all-ends}
use operating_systems_and_ne.Shell.Tests.Tables.{all_open, cat_command}

-- Each pipeline gets other pids.
abbrev pub answers : ℕ → Answers
answers i = record {
  pipes_open = true;
  fork = some (i + 7);
  forks = λ j. some (i + j + 50);
  children_end = true;
  keys = ctrl_z ∷ [];
  status = wait_stopped;
}

abbrev sort_command : ParsedCommand
sort_command = record {
  args = codes "sort" ∷ [];
  input_file = none;
  output_file = some (codes "out");
  append_output = true;
}

fork_all-ends_example :
    (feed : Feed) × (drain : Drain) × (get_elem?
        (fork_all all_open (λ i. some (i + 50)) 1 0 (some cat_command ∷ some sort_command ∷ []))
        1
      ≡ some (some (51, runs feed drain [] (codes "sort" ∷ []))))
    × Reads 1 feed
    × Writes 2 1 drain
    × (parent_ends 1 ≡ [])
fork_all-ends_example =
    fork_all-ends all_open (λ i. some (i + 50)) 1 1 51 (some cat_command ∷ some sort_command ∷ [])
      sort_command (λ name. refl, λ name. refl) refl refl refl refl
