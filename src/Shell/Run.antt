-- ===== src/Shell/Run.antt =====
-- shell/src/executor.c: how one command is run.
-- What `fork` and `waitpid` return, the keys pressed during the wait, and which files can be opened are
-- arguments; the intrinsics are run by their own modules, so that only the dispatch stands here.
pub mod Laws
use operating_systems_and_ne.Prelude.{
  ℕ, Bool, true, false, not, ◌&&◌, ◌||◌, Option, none, some, List, [], ◌∷◌, ◌++◌, if◌then◌else◌,
  Text, codes, text_eq, ℤ, pos, minus_one, Status, success, failure,
}
use operating_systems_and_ne.Shell.Executor.{ParsedCommand}
use operating_systems_and_ne.Shell.Jobs.{
  Jobs, JobStatus, running, stopped, add_job, set_foreground_pid, WaitStatus, exited, signaled,
  wait_stopped, continued,
}
use operating_systems_and_ne.Shell.JobControl.{Key, press, Effect}

-- `is_intrinsic`
unfoldable pub is_intrinsic : Text → Bool
unfolding text_eq
is_intrinsic cmd =
    text_eq cmd (codes "hop")
    || text_eq cmd (codes "reveal")
    || text_eq cmd (codes "log")
    || text_eq cmd (codes "activities")
    || text_eq cmd (codes "ping")
    || text_eq cmd (codes "fg")
    || text_eq cmd (codes "bg")

-- Where the child reads from and writes to.
pub data Source : Type 0 where
  inherited null_device : Source
  file : Text → Source

pub data Sink : Type 0 where
  terminal : Sink
  truncates appends : Text → Sink

-- What becomes of the child: it exits where a file cannot be opened, or executes its arguments.
pub data Child : Type 0 where
  no_input no_output : Child
  executes : Source → Sink → List Text → Child

-- The files that can be opened, for reading and for writing.
pub record Files : Type 0 where
  pub readable : Text → Bool
  pub writable : Text → Bool
  pub null_opens : Bool

unfoldable pub open_input : Files → Option Text → Option Source
open_input fs none = some inherited
open_input fs (some name) = if fs.readable name then some (file name) else none

unfoldable pub open_output : Files → Option Text → Bool → Option Sink
open_output fs none append = some terminal
open_output fs (some name) append =
    if fs.writable name then some (if append then appends name else truncates name) else none

-- The redirections in their order: the input, the output, and `/dev/null` in the background.
unfoldable pub connect : Files → ParsedCommand → Bool → Option Source → Option Sink → Child
connect fs cmd background none sink = no_input
connect fs cmd background (some source) none = no_output
connect fs cmd background (some source) (some sink) =
    executes (if background && fs.null_opens then null_device else source) sink cmd.args

-- The child process of `execute_single_command`.
unfoldable pub run_child : Files → ParsedCommand → Bool → Child
unfolding connect open_input open_output
run_child fs cmd background =
    connect fs cmd background (open_input fs cmd.input_file)
      (open_output fs cmd.output_file cmd.append_output)

-- What the shell prints: the number of a new job, as `add_job` returned it, with its pid or command.
pub data Note : Type 0 where
  in_background : ℤ → ℕ → Note
  job_stopped : ℤ → Text → Note
  handled : List Effect → Note
  fork_failed : Note

-- What running a command does: nothing, an intrinsic, a child, or none where `fork` fails.
pub data Run : Type 0 where
  nothing not_forked : Run
  intrinsic : List Text → Run
  child : Child → Run

-- Behind the wait for a foreground child: a stopped one becomes a job.
unfoldable pub behind_wait : Jobs → ℕ → Text → WaitStatus → Jobs × List Note
behind_wait s pid name wait_stopped =
    let (s', number) = add_job s pid name stopped in (s', job_stopped number name ∷ [])
behind_wait s pid name _ = (s, [])

-- The parent in `execute_single_command`, by what `fork` returns; `name` is `args[0]`.
unfoldable pub run_parent :
    Jobs → Text → Bool → Option ℕ → List Key → WaitStatus → Jobs × List Note × Status
unfolding behind_wait
run_parent s name background none keys st = (s, fork_failed ∷ [], failure)
run_parent s name true (some pid) keys st =
    let (s', number) = add_job s pid name running in (s', in_background number pid ∷ [], success)
run_parent s name false (some pid) keys st =
    let (s', out) = press (set_foreground_pid s (pos pid)) keys in
    let (s'', notes) = behind_wait (set_foreground_pid s' minus_one) pid name st in
    (s'', handled out ∷ notes, success)

-- `cmd->input_file` or `cmd->output_file` is set.
abbrev pub is_redirected : ParsedCommand → Bool
is_redirected cmd = elim cmd.input_file [
  | some i ↦ true
  | none ↦ elim cmd.output_file [ some o ↦ true | none ↦ false ]
]

-- The child, if there is one.
unfoldable pub child_of : Files → ParsedCommand → Bool → Option ℕ → Run
unfolding run_child
child_of fs cmd background none = not_forked
child_of fs cmd background (some pid) = child (run_child fs cmd background)

-- The command by its arguments; the status of an intrinsic is that of its own module.
unfoldable pub dispatch :
    Files
    → Jobs
    → ParsedCommand
    → List Text
    → Bool
    → Option ℕ
    → List Key
    → WaitStatus
    → Jobs × List Note × Run
unfolding run_parent child_of is_intrinsic
dispatch fs s cmd [] background fork keys st = (s, [], nothing)
dispatch fs s cmd (name ∷ args) background fork keys st =
    if is_intrinsic name && not (is_redirected cmd)
    then (s, [], intrinsic (name ∷ args))
    else (let (s', notes, status) = run_parent s name background fork keys st in
        (s', notes, child_of fs cmd background fork))

-- `execute_single_command`
unfoldable pub execute_single_command :
    Files → Jobs → ParsedCommand → Bool → Option ℕ → List Key → WaitStatus → Jobs × List Note × Run
unfolding dispatch
execute_single_command fs s cmd background fork keys st =
    dispatch fs s cmd cmd.args background fork keys st
