-- ===== src/Shell/Run/Laws.antt =====
-- What running a command keeps, and how its child is connected.
use operating_systems_and_ne.Prelude.{
  ℕ, Bool, true, false, not, ◌&&◌, Option, none, some, List, [], ◌∷◌, Text, pos, minus_one,
  Bool-cases, inl, inr,
}
use operating_systems_and_ne.Shell.Executor.{ParsedCommand}
use operating_systems_and_ne.Shell.Jobs.{
  Jobs, JobStatus, running, stopped, add_job, set_foreground_pid, WaitStatus, exited, signaled,
  wait_stopped, continued,
}
use operating_systems_and_ne.Shell.Jobs.Table.{IsValid}
use operating_systems_and_ne.Shell.Jobs.Operations.{add_job_cases}
use operating_systems_and_ne.Shell.JobControl.{Key}
use operating_systems_and_ne.Shell.JobControl.Laws.{press-IsValid, focus-IsValid}
use operating_systems_and_ne.Shell.Run.{
  behind_wait, run_parent, dispatch, execute_single_command, is_intrinsic, is_redirected, Files,
}

pub add_job-IsValid :
    (s : Jobs) (pid : ℕ) (name : Text) (st : JobStatus)
    → IsValid s
    → IsValid (add_job s pid name st).0
add_job-IsValid s pid name st v = elim (add_job_cases s pid name st v) [
  | inl (full, e) ↦ rw e v
  | inr added ↦ added.valid
]

behind_wait-IsValid :
    (s : Jobs) (pid : ℕ) (name : Text) (st : WaitStatus)
    → IsValid s
    → IsValid (behind_wait s pid name st).0
unfolding behind_wait
behind_wait-IsValid s pid name (exited c) v = v
behind_wait-IsValid s pid name signaled v = v
behind_wait-IsValid s pid name wait_stopped v = add_job-IsValid s pid name stopped v
behind_wait-IsValid s pid name continued v = v

run_parent-IsValid :
    (s : Jobs) (name : Text) (background : Bool) (fork : Option ℕ) (keys : List Key)
    (st : WaitStatus)
    → IsValid s
    → IsValid (run_parent s name background fork keys st).0
unfolding run_parent
run_parent-IsValid s name background none keys st v = v
run_parent-IsValid s name true (some pid) keys st v = add_job-IsValid s pid name running v
run_parent-IsValid s name false (some pid) keys st v = behind_wait-IsValid _ pid name st (
    focus-IsValid _ minus_one
      (press-IsValid (set_foreground_pid s (pos pid)) keys (focus-IsValid s (pos pid) v)))

dispatch-IsValid :
    (fs : Files) (s : Jobs) (cmd : ParsedCommand) (args : List Text) (background : Bool)
    (fork : Option ℕ) (keys : List Key) (st : WaitStatus)
    → IsValid s
    → IsValid (dispatch fs s cmd args background fork keys st).0
unfolding dispatch
dispatch-IsValid fs s cmd [] background fork keys st v = v
dispatch-IsValid fs s cmd (name ∷ args) background fork keys st v =
    elim (Bool-cases (is_intrinsic name && not (is_redirected cmd))) [
      | inl e ↦ rw e v
      | inr e ↦ rw e (run_parent-IsValid s name background fork keys st v)
    ]

-- Whatever the command, in the foreground or the background, with whatever `fork` and `waitpid` return
-- and whatever keys are pressed during the wait, `execute_single_command` keeps the table of jobs well
-- formed.
pub execute_single_command-IsValid :
    (fs : Files) (s : Jobs) (cmd : ParsedCommand) (background : Bool) (fork : Option ℕ)
    (keys : List Key) (st : WaitStatus)
    → IsValid s
    → IsValid (execute_single_command fs s cmd background fork keys st).0
unfolding execute_single_command
execute_single_command-IsValid fs s cmd background fork keys st v =
    dispatch-IsValid fs s cmd cmd.args background fork keys st v
