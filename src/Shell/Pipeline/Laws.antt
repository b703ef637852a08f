-- ===== src/Shell/Pipeline/Laws.antt =====
-- What running a line keeps, and that no pid is used uninitialised.
use operating_systems_and_ne.Prelude.{
  ℕ, suc, ◌-◌, ◌≡◌, refl, ap, Bool, true, false, Option, none, some, List, [], ◌∷◌, if_ind, length,
  All, Text,
}
use operating_systems_and_ne.Shell.Executor.{ParsedCommand, is_runnable, plan}
use operating_systems_and_ne.Shell.Executor.Runnable.{Runnable}
use operating_systems_and_ne.Shell.Jobs.{Jobs, running}
use operating_systems_and_ne.Shell.Jobs.Table.{IsValid}
use operating_systems_and_ne.Shell.JobControl.Laws.{press-IsValid}
use operating_systems_and_ne.Shell.Run.{Files, Note}
use operating_systems_and_ne.Shell.Run.Laws.{add_job-IsValid, execute_single_command-IsValid}
use operating_systems_and_ne.Shell.Pipeline.{
  Answers, Stage, Piped, refused, undefined, single, piped, stuck, behind_group, fork_all,
  last_command, add_last, has_gap, wait_all, execute_stages, execute_single, execute_pipeline,
  execute_groups, execute_full_command,
}

add_last-IsValid :
    (s : Jobs) (children : List (Option (ℕ × Stage))) (pid : ℕ) (last : Option (List Text))
    → IsValid s
    → IsValid (add_last s children pid last).0
unfolding add_last
add_last-IsValid s children pid none v = v
add_last-IsValid s children pid (some []) v = v
add_last-IsValid s children pid (some (name ∷ args)) v = add_job-IsValid s pid name running v

execute_stages-IsValid :
    (fs : Files) (s : Jobs) (a : Answers) (cmds : List (Option ParsedCommand)) (background : Bool)
    → IsValid s
    → IsValid (execute_stages fs s a cmds background).0
unfolding execute_stages wait_all
execute_stages-IsValid fs s a cmds true v =
    if_ind (λ (out : Jobs × List Note × Piped). IsValid out.0) a.pipes_open
      (λ e. add_last-IsValid s _ _ (last_command cmds) v) (λ e. v)
execute_stages-IsValid fs s a cmds false v =
    if_ind (λ (out : Jobs × List Note × Piped). IsValid out.0) a.pipes_open
      (λ e. press-IsValid s a.keys v) (λ e. v)

pub execute_pipeline-IsValid :
    (fs : Files) (s : Jobs) (a : Answers) (group : List (Option ParsedCommand) × Bool)
    → IsValid s
    → IsValid (execute_pipeline fs s a group).0
unfolding execute_pipeline execute_single
execute_pipeline-IsValid fs s a ([], background) v = v
execute_pipeline-IsValid fs s a (none ∷ [], background) v = v
execute_pipeline-IsValid fs s a (some cmd ∷ [], background) v =
    if_ind (λ (out : Jobs × List Note × Piped). IsValid out.0) (is_runnable cmd)
      (λ e. execute_single_command-IsValid fs s cmd background a.fork a.keys a.status v) (λ e. v)
execute_pipeline-IsValid fs s a (cmd ∷ other ∷ cmds, background) v =
    execute_stages-IsValid fs s a (cmd ∷ other ∷ cmds) background v

behind_group-IsValid :
    (out : Jobs × List Note × Piped) (onward : Jobs → Jobs × List Note × List Piped)
    → IsValid out.0
    → ((s : Jobs) → IsValid s → IsValid (onward s).0)
    → IsValid (behind_group out onward).0
unfolding behind_group
behind_group-IsValid (s, notes, stuck children) onward v h = v
behind_group-IsValid (s, notes, refused) onward v h = h s v
behind_group-IsValid (s, notes, undefined) onward v h = h s v
behind_group-IsValid (s, notes, single run) onward v h = h s v
behind_group-IsValid (s, notes, piped children) onward v h = h s v

execute_groups-IsValid :
    (fs : Files) (s : Jobs) (answers : ℕ → Answers) (i : ℕ)
    (groups : List (List (Option ParsedCommand) × Bool))
    → IsValid s
    → IsValid (execute_groups fs s answers i groups).0
unfolding execute_groups
execute_groups-IsValid fs s answers i [] v = v
execute_groups-IsValid fs s answers i (group ∷ groups) v =
    behind_group-IsValid (execute_pipeline fs s (answers i) group) _
      (execute_pipeline-IsValid fs s (answers i) group v)
      (λ s' v'. execute_groups-IsValid fs s' answers (suc i) groups v')

-- Whatever the line, whatever the system calls return and whatever keys are pressed, executing it keeps
-- the table of jobs well formed.
pub execute_full_command-IsValid :
    (fs : Files) (s : Jobs) (answers : ℕ → Answers) (input : Text)
    → IsValid s
    → IsValid (execute_full_command fs s answers input).0
unfolding execute_full_command
execute_full_command-IsValid fs s answers input v =
    execute_groups-IsValid fs s answers 0 (plan input) v

-- A pipeline whose pipes were created, with no `pids[i]` left uninitialised.
abbrev pub IsFilled : Piped → Type 0
IsFilled refused = ⊥
IsFilled undefined = ⊥
IsFilled (single run) = Unit
IsFilled (piped children) = has_gap children ≡ false
IsFilled (stuck children) = has_gap children ≡ false

fork_all-full :
    (fs : Files) (forks : ℕ → Option ℕ) (last i : ℕ) (cmds : List (Option ParsedCommand))
    → All Runnable cmds
    → has_gap (fork_all fs forks last i cmds) ≡ false
unfolding fork_all has_gap
fork_all-full fs forks last i [] h = refl
fork_all-full fs forks last i (none ∷ cmds) h = absurd h.0
fork_all-full fs forks last i (some cmd ∷ cmds) h =
    rw h.0 (fork_all-full fs forks last (suc i) cmds h.1)

pub runnable_args :
    (args : List Text)
    → elim args [ [] ↦ false | a ∷ as' ↦ true ] ≡ true
    → (name : Text) × (more : List Text) × (args ≡ name ∷ more)
runnable_args [] h = absurd (cc)
runnable_args (name ∷ more) h = (name, more, refl)

last_command-some :
    (cmd : Option ParsedCommand) (cmds : List (Option ParsedCommand))
    → All Runnable (cmd ∷ cmds)
    → (name : Text) × (args : List Text) × (last_command (cmd ∷ cmds) ≡ some (name ∷ args))
unfolding last_command
last_command-some none cmds h = absurd h.0
last_command-some (some cmd) [] h =
    let (name, more, e) = runnable_args cmd.args h.0 in (name, more, ap some e)
last_command-some (some cmd) (other ∷ cmds) h = last_command-some other cmds h.1

add_last-IsFilled :
    (s : Jobs) (children : List (Option (ℕ × Stage))) (pid : ℕ) (last : Option (List Text))
    (name : Text) (args : List Text)
    → last ≡ some (name ∷ args)
    → has_gap children ≡ false
    → IsFilled (add_last s children pid last).2
unfolding add_last
add_last-IsFilled s children pid last name args e full = rw e full

execute_stages-IsFilled :
    (fs : Files) (s : Jobs) (a : Answers) (cmd : Option ParsedCommand)
    (cmds : List (Option ParsedCommand)) (background : Bool)
    → a.pipes_open ≡ true
    → All Runnable (cmd ∷ cmds)
    → IsFilled (execute_stages fs s a (cmd ∷ cmds) background).2
unfolding execute_stages wait_all
execute_stages-IsFilled fs s a cmd cmds true open_ h =
    let (name, args, e) = last_command-some cmd cmds h in
    rw open_ (
      add_last-IsFilled s _ _ (last_command (cmd ∷ cmds)) name args e
        (fork_all-full fs a.forks (suc (length cmds) - 1) 0 (cmd ∷ cmds) h))
execute_stages-IsFilled fs s a cmd cmds false open_ h =
    let full = fork_all-full fs a.forks (suc (length cmds) - 1) 0 (cmd ∷ cmds) h in
    rw (open_, full) (if_ind IsFilled a.children_end (λ e. full) (λ e. full))

pub execute_pipeline-IsFilled :
    (fs : Files) (s : Jobs) (a : Answers) (cmd : Option ParsedCommand)
    (cmds : List (Option ParsedCommand)) (background : Bool)
    → a.pipes_open ≡ true
    → All Runnable (cmd ∷ cmds)
    → IsFilled (execute_pipeline fs s a (cmd ∷ cmds, background)).2
unfolding execute_pipeline execute_single
execute_pipeline-IsFilled fs s a none [] background open_ h = absurd h.0
execute_pipeline-IsFilled fs s a (some cmd) [] background open_ h = rw h.0 tt
execute_pipeline-IsFilled fs s a cmd (other ∷ cmds) background open_ h =
    execute_stages-IsFilled fs s a cmd (other ∷ cmds) background open_ h
