-- ===== src/Shell/Pipeline/Idle.antt =====
-- Between the commands that shell/src/executor.c and shell/src/job_control.c run, no process is in the
-- foreground.
use operating_systems_and_ne.Prelude.{
  ℕ, zero, suc, ◌≡◌, ◌∙◌, arith, ap, refl, Bool, true, false, not, ◌&&◌, Option, none, some, List,
  [], ◌∷◌, if_ind, Text, ℤ, pos, minus_one,
}
use operating_systems_and_ne.Shell.Executor.{ParsedCommand, is_runnable}
use operating_systems_and_ne.Shell.Jobs.{
  Jobs, JobStatus, running, stopped, finished, job_at, get_job_by_pid, add_at, add_job, release,
  remove_job, settle, wait_event, check_background_jobs, set_foreground_pid, WaitStatus, exited,
  signaled, wait_stopped, continued,
}
use operating_systems_and_ne.Shell.JobControl.{
  Key, ctrl_c, ctrl_z, press, stop_foreground, sigtstp_handler, resume, background, bg_choice,
  cmd_bg, Choice, chosen, refused, choose,
}
use operating_systems_and_ne.Shell.Run.{
  Files, Note, Run, behind_wait, run_parent, is_intrinsic, is_redirected, dispatch,
  execute_single_command,
}
use operating_systems_and_ne.Shell.Pipeline.{
  Answers, Stage, Piped, add_last, wait_all, execute_stages, execute_single, execute_pipeline,
  last_command,
}

abbrev pub IsIdle : Jobs → Type 0
IsIdle s = s.foreground_pid ≡ minus_one

stop-idle : (s : Jobs) (fg : ℤ) → fg ≡ minus_one → (stop_foreground s fg).0 ≡ s
unfolding stop_foreground
stop-idle s fg h = rw (h) refl

-- At the prompt the keys reach no process.
pub press-idle : (s : Jobs) (keys : List Key) → IsIdle s → (press s keys).0 ≡ s
unfolding press sigtstp_handler
press-idle s [] h = refl
press-idle s (ctrl_c ∷ ks) h = press-idle s ks h
press-idle s (ctrl_z ∷ ks) h =
    ap (λ t. (press t ks).0) (stop-idle s s.foreground_pid h) ∙ press-idle s ks h

add_job-IsIdle :
    (s : Jobs) (pid : ℕ) (name : Text) (st : JobStatus)
    → IsIdle s
    → IsIdle (add_job s pid name st).0
unfolding add_job add_at
add_job-IsIdle s pid name st h = ground arith

behind_wait-IsIdle :
    (s : Jobs) (pid : ℕ) (name : Text) (st : WaitStatus)
    → IsIdle s
    → IsIdle (behind_wait s pid name st).0
unfolding behind_wait
behind_wait-IsIdle s pid name (exited c) h = h
behind_wait-IsIdle s pid name signaled h = h
behind_wait-IsIdle s pid name wait_stopped h = add_job-IsIdle s pid name stopped h
behind_wait-IsIdle s pid name continued h = h

run_parent-IsIdle :
    (s : Jobs) (name : Text) (background : Bool) (fork : Option ℕ) (keys : List Key)
    (st : WaitStatus)
    → IsIdle s
    → IsIdle (run_parent s name background fork keys st).0
unfolding run_parent
run_parent-IsIdle s name background none keys st h = h
run_parent-IsIdle s name true (some pid) keys st h = add_job-IsIdle s pid name running h
run_parent-IsIdle s name false (some pid) keys st h =
    behind_wait-IsIdle
      (set_foreground_pid (press (set_foreground_pid s (pos pid)) keys).0 minus_one) pid name st
      refl

dispatch-IsIdle :
    (fs : Files) (s : Jobs) (cmd : ParsedCommand) (args : List Text) (background : Bool)
    (fork : Option ℕ) (keys : List Key) (st : WaitStatus)
    → IsIdle s
    → IsIdle (dispatch fs s cmd args background fork keys st).0
unfolding dispatch
dispatch-IsIdle fs s cmd [] background fork keys st h = h
dispatch-IsIdle fs s cmd (name ∷ args) background fork keys st h =
    if_ind (λ (out : Jobs × List Note × Run). IsIdle out.0)
      (is_intrinsic name && not (is_redirected cmd)) (λ e. h)
      (λ e. run_parent-IsIdle s name background fork keys st h)

add_last-IsIdle :
    (s : Jobs) (children : List (Option (ℕ × Stage))) (pid : ℕ) (last : Option (List Text))
    → IsIdle s
    → IsIdle (add_last s children pid last).0
unfolding add_last
add_last-IsIdle s children pid none h = h
add_last-IsIdle s children pid (some []) h = h
add_last-IsIdle s children pid (some (name ∷ args)) h = add_job-IsIdle s pid name running h

execute_stages-IsIdle :
    (fs : Files) (s : Jobs) (a : Answers) (cmds : List (Option ParsedCommand)) (background : Bool)
    → IsIdle s
    → IsIdle (execute_stages fs s a cmds background).0
unfolding execute_stages wait_all
execute_stages-IsIdle fs s a cmds true h =
    if_ind (λ (out : Jobs × List Note × Piped). IsIdle out.0) a.pipes_open
      (λ e. add_last-IsIdle s _ _ (last_command cmds) h) (λ e. h)
execute_stages-IsIdle fs s a cmds false h =
    if_ind (λ (out : Jobs × List Note × Piped). IsIdle out.0) a.pipes_open
      (λ e. rw (press-idle s a.keys h, h)) (λ e. h)

pub execute_pipeline-IsIdle :
    (fs : Files) (s : Jobs) (a : Answers) (group : List (Option ParsedCommand) × Bool)
    → IsIdle s
    → IsIdle (execute_pipeline fs s a group).0
unfolding execute_pipeline execute_single execute_single_command
execute_pipeline-IsIdle fs s a ([], background) h = h
execute_pipeline-IsIdle fs s a (none ∷ [], background) h = h
execute_pipeline-IsIdle fs s a (some cmd ∷ [], background) h =
    if_ind (λ (out : Jobs × List Note × Piped). IsIdle out.0) (is_runnable cmd)
      (λ e. dispatch-IsIdle fs s cmd cmd.args background a.fork a.keys a.status h) (λ e. h)
execute_pipeline-IsIdle fs s a (cmd ∷ other ∷ cmds, background) h =
    execute_stages-IsIdle fs s a (cmd ∷ other ∷ cmds) background h

remove_job-IsIdle : (s : Jobs) (id : ℕ) → IsIdle s → IsIdle (remove_job s id)
unfolding remove_job release
remove_job-IsIdle s id h = ground arith

settle-IsIdle :
    (s : Jobs) (pid : ℕ) (st : WaitStatus) (found : Option ℕ)
    → IsIdle s
    → IsIdle (settle s pid st found).0
unfolding settle
settle-IsIdle s pid st none h = h
settle-IsIdle s pid (exited zero) (some i) h = remove_job-IsIdle s _ h
settle-IsIdle s pid (exited (suc c)) (some i) h = remove_job-IsIdle s _ h
settle-IsIdle s pid signaled (some i) h = remove_job-IsIdle s _ h
settle-IsIdle s pid wait_stopped (some i) h = h
settle-IsIdle s pid continued (some i) h = h

pub check_background_jobs-IsIdle :
    (s : Jobs) (es : List (ℕ × WaitStatus)) → IsIdle s → IsIdle (check_background_jobs s es).0
unfolding check_background_jobs wait_event
check_background_jobs-IsIdle s [] h = h
check_background_jobs-IsIdle s ((pid, st) ∷ es) h =
    check_background_jobs-IsIdle (wait_event s (pid, st)).0 es
      (settle-IsIdle s pid st (get_job_by_pid s pid) h)

resume-IsIdle : (s : Jobs) (k : ℕ) (st : JobStatus) → IsIdle s → IsIdle (resume s k st).0
unfolding resume
resume-IsIdle s k running h = h
resume-IsIdle s k stopped h = h
resume-IsIdle s k finished h = h

module _ (strtol : Text → ℤ × Text) where
  bg_choice-IsIdle : (s : Jobs) (c : Choice) → IsIdle s → IsIdle (bg_choice strtol s c).0
  unfolding bg_choice background
  bg_choice-IsIdle s (refused e) h = h
  bg_choice-IsIdle s (chosen k) h = resume-IsIdle s k (job_at s k).status h

  pub cmd_bg-IsIdle : (s : Jobs) (args : List Text) → IsIdle s → IsIdle (cmd_bg strtol s args).0
  unfolding cmd_bg
  cmd_bg-IsIdle s args h = bg_choice-IsIdle s (choose strtol s args) h
