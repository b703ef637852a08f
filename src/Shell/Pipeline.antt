-- ===== src/Shell/Pipeline.antt =====
-- shell/src/executor.c: how the commands of a pipeline and the groups of a line are run.
-- What the system calls return is an argument. There are at most as many commands as the arrays hold. A pid of
-- -1, which `fork` returns where it fails, is the bit pattern 2^32 - 1.
pub mod Closing
pub mod Ends
pub mod Idle
pub mod Laws
pub mod Started
use operating_systems_and_ne.Prelude.{
  ℕ, zero, suc, ◌-◌, ◌^◌, ◌==◌, Bool, true, false, Option, none, some, List, [], ◌∷◌, ◌++◌,
  if◌then◌else◌, length, Text,
}
use operating_systems_and_ne.Shell.Executor.{ParsedCommand, is_runnable, plan}
use operating_systems_and_ne.Shell.Jobs.{Jobs, running, add_job, WaitStatus}
use operating_systems_and_ne.Shell.JobControl.{Key, press}
use operating_systems_and_ne.Shell.Run.{
  Files, Note, in_background, handled, Run, nothing, execute_single_command,
}

-- Where a child of a pipeline reads from and writes to.
pub data Feed : Type 0 where
  from_shell : Feed
  from_file : Text → Feed
  from_pipe : ℕ → Feed

pub data Drain : Type 0 where
  to_terminal : Drain
  truncated appended : Text → Drain
  to_pipe : ℕ → Drain

-- The input of the child `i`: a file is opened for the first one only.
unfoldable pub feed_of : Files → ℕ → Option Text → Option Feed
feed_of fs zero none = some from_shell
feed_of fs zero (some name) = if fs.readable name then some (from_file name) else none
feed_of fs (suc i) file = some (from_pipe i)

-- The output of the child `i`: a file is opened for the last one only.
unfoldable pub drain_of : Files → Bool → ℕ → Option Text → Bool → Option Drain
drain_of fs false i file append = some (to_pipe i)
drain_of fs true i none append = some to_terminal
drain_of fs true i (some name) append =
    if fs.writable name then some (if append then appended name else truncated name) else none

-- The two ends of a pipe, `pipes[j][0]` and `pipes[j][1]`.
pub data PipeEnd : Type 0 where
  read_end write_end : ℕ → PipeEnd

-- The descriptors behind the loop over `pipe`, for the first `n` pipes; a child inherits them.
unfoldable pub open_pipes : ℕ → List PipeEnd
open_pipes zero = []
open_pipes (suc n) = read_end n ∷ write_end n ∷ open_pipes n

unfoldable pub is_end : PipeEnd → PipeEnd → Bool
is_end (read_end i) (read_end j) = i == j
is_end (write_end i) (write_end j) = i == j
is_end _ _ = false

-- `close` of a descriptor.
unfoldable pub close_end : PipeEnd → List PipeEnd → List PipeEnd
unfolding is_end
close_end e [] = []
close_end e (d ∷ ds) = let rest = close_end e ds in if is_end e d then rest else d ∷ rest

-- The loop that closes the ends of the pipes, from the pipe `j` on, with the pipes left.
unfoldable pub close_pipes : ℕ → ℕ → List PipeEnd → List PipeEnd
unfolding close_end
close_pipes j zero ds = ds
close_pipes j (suc n) ds =
    close_pipes (suc j) n (close_end (write_end j) (close_end (read_end j) ds))

-- What becomes of a child: there is none where `fork` fails; it exits where a file cannot be opened, or executes
-- its arguments, with the ends of pipes that it still holds besides its input and its output.
pub data Stage : Type 0 where
  unforked no_feed no_drain : Stage
  runs : Feed → Drain → List PipeEnd → List Text → Stage

unfoldable pub connect_stage : Option Feed → Option Drain → List PipeEnd → List Text → Stage
connect_stage none drain ends args = no_feed
connect_stage (some feed) none ends args = no_drain
connect_stage (some feed) (some drain) ends args = runs feed drain ends args

-- The child `i` of a pipeline whose last child is `last`.
unfoldable pub run_stage : Files → (last i : ℕ) → ParsedCommand → Stage
unfolding connect_stage feed_of drain_of open_pipes close_pipes
run_stage fs last i cmd =
    connect_stage (feed_of fs i cmd.input_file)
      (drain_of fs (i == last) i cmd.output_file cmd.append_output)
      (close_pipes 0 last (open_pipes last)) cmd.args

-- The ends that the shell holds behind its own closing loop.
unfoldable pub parent_ends : ℕ → List PipeEnd
unfolding open_pipes close_pipes
parent_ends last = close_pipes 0 last (open_pipes last)

-- What `fork` returns, as a pid.
unfoldable pub pid_of : Option ℕ → ℕ
pid_of none = 2 ^ 32 - 1
pid_of (some pid) = pid

-- The child, if there is one.
unfoldable pub stage_of : Option ℕ → Stage → Stage
stage_of none stage = unforked
stage_of (some pid) stage = stage

-- The loop that forks, from the command `i` on, with the results of `fork`: each `pids[i]` and its child. A
-- command that is not parsed is skipped, and its `pids[i]` stays uninitialised.
unfoldable pub fork_all :
    Files → (ℕ → Option ℕ) → (last i : ℕ) → List (Option ParsedCommand) → List (Option (ℕ × Stage))
unfolding run_stage stage_of pid_of
fork_all fs forks last i [] = []
fork_all fs forks last i (none ∷ cmds) = none ∷ fork_all fs forks last (suc i) cmds
fork_all fs forks last i (some cmd ∷ cmds) =
    (if is_runnable cmd
      then some (pid_of (forks i), stage_of (forks i) (run_stage fs last i cmd))
      else none)
    ∷ fork_all fs forks last (suc i) cmds

-- What the system calls of one pipeline return, the keys pressed while it is waited for, and whether all its
-- children end: the wait for several commands is one without WUNTRACED, which a stopped child does not end.
pub record Answers : Type 0 where
  pub pipes_open : Bool
  pub fork : Option ℕ
  pub forks : ℕ → Option ℕ
  pub children_end : Bool
  pub keys : List Key
  pub status : WaitStatus

-- How a pipeline ends: with -1, as a command by itself, or with its children. `stuck` waits for ever, and
-- `undefined` reads memory that was not initialised.
pub data Piped : Type 0 where
  refused undefined : Piped
  single : Run → Piped
  piped stuck : List (Option (ℕ × Stage)) → Piped

-- The last of the commands, with its arguments; `none` where there is none.
unfoldable pub last_command : List (Option ParsedCommand) → Option (List Text)
last_command [] = none
last_command (none ∷ []) = none
last_command (some cmd ∷ []) = some cmd.args
last_command (cmd ∷ other ∷ cmds) = last_command (other ∷ cmds)

-- Behind the loop, in the background: the last child becomes a job.
unfoldable pub add_last :
    Jobs → List (Option (ℕ × Stage)) → (pid : ℕ) → Option (List Text) → Jobs × List Note × Piped
add_last s children pid none = (s, [], undefined)
add_last s children pid (some []) = (s, [], undefined)
add_last s children pid (some (name ∷ args)) =
    let (s', number) = add_job s pid name running in
    (s', in_background number pid ∷ [], piped children)

-- Some `pids[i]` is uninitialised.
unfoldable pub has_gap : List (Option (ℕ × Stage)) → Bool
has_gap [] = false
has_gap (none ∷ children) = true
has_gap (some child ∷ children) = has_gap children

-- Behind the loop, in the foreground: each child is waited for, and the foreground pid is not set.
unfoldable pub wait_all :
    Jobs → Bool → List (Option (ℕ × Stage)) → List Key → Jobs × List Note × Piped
unfolding has_gap
wait_all s children_end children keys =
    let (s', out) = press s keys in
    (
      s',
      handled out ∷ [],
      if has_gap children
          then undefined
          else if children_end
          then piped children
          else stuck children,
    )

-- Several commands.
unfoldable pub execute_stages :
    Files → Jobs → Answers → List (Option ParsedCommand) → Bool → Jobs × List Note × Piped
unfolding fork_all add_last wait_all last_command pid_of
execute_stages fs s a cmds background =
    let last = length cmds - 1 in
    let children = fork_all fs a.forks last 0 cmds in
    if a.pipes_open
    then (if background
        then add_last s children (pid_of (a.forks last)) (last_command cmds)
        else wait_all s a.children_end children a.keys)
    else (s, [], refused)

-- One command by itself.
unfoldable pub execute_single :
    Files → Jobs → Answers → Option ParsedCommand → Bool → Jobs × List Note × Piped
execute_single fs s a none background = (s, [], refused)
execute_single fs s a (some cmd) background =
    let (s', notes, run) = execute_single_command fs s cmd background a.fork a.keys a.status in
    if is_runnable cmd then (s', notes, single run) else (s, [], refused)

-- `execute_pipeline`, behind the splitting loop.
unfoldable pub execute_pipeline :
    Files → Jobs → Answers → List (Option ParsedCommand) × Bool → Jobs × List Note × Piped
unfolding execute_single execute_stages
execute_pipeline fs s a ([], background) = (s, [], refused)
execute_pipeline fs s a (cmd ∷ [], background) = execute_single fs s a cmd background
execute_pipeline fs s a (cmd ∷ other ∷ cmds, background) =
    execute_stages fs s a (cmd ∷ other ∷ cmds) background

-- What is printed and started, with what follows unless the wait goes on for ever.
unfoldable pub behind_group :
    Jobs × List Note × Piped
    → (Jobs → Jobs × List Note × List Piped)
    → Jobs × List Note × List Piped
behind_group (s, notes, stuck children) onward = (s, notes, stuck children ∷ [])
behind_group (s, notes, done) onward =
    let (s', more, rest) = onward s in (s', notes ++ more, done ∷ rest)

-- The loop over the groups, the first of which is the `i`th.
unfoldable pub execute_groups :
    Files
    → Jobs
    → (ℕ → Answers)
    → ℕ
    → List (List (Option ParsedCommand) × Bool)
    → Jobs × List Note × List Piped
unfolding execute_pipeline behind_group
execute_groups fs s answers i [] = (s, [], [])
execute_groups fs s answers i (group ∷ groups) =
    behind_group (execute_pipeline fs s (answers i) group)
      (λ s'. execute_groups fs s' answers (suc i) groups)

-- `execute_full_command`
unfoldable pub execute_full_command :
    Files → Jobs → (ℕ → Answers) → Text → Jobs × List Note × List Piped
unfolding execute_groups plan
execute_full_command fs s answers input = execute_groups fs s answers 0 (plan input)
