-- ===== src/Shell/Session/Background.antt =====
-- A command in the background, from the line typed to the report of its end.
use operating_systems_and_ne.Prelude.{
  ℕ, ◌≡◌, refl, ap, ◌∙◌, true, false, some, List, [], ◌∷◌, ◌++◌, Text, take, pos,
}
use operating_systems_and_ne.Shell.Parser.{parse_input, accepted}
use operating_systems_and_ne.Shell.Executor.{ParsedCommand, plan}
use operating_systems_and_ne.Shell.Log.{log_add_command}
use operating_systems_and_ne.Shell.Jobs.{
  Jobs, running, new_job, add_job, WaitStatus, wait_event, check_background_jobs,
}
use operating_systems_and_ne.Shell.Jobs.Table.{lookup}
use operating_systems_and_ne.Shell.Jobs.Lifecycle.{
  IsEnd, IsRoom, report_of, add_job-Lived, add_job-number,
}
use operating_systems_and_ne.Shell.Run.{
  Files, in_background, child, run_child, child_of, run_parent, dispatch, execute_single_command,
  is_intrinsic,
}
use operating_systems_and_ne.Shell.Run.Laws.{add_job-IsValid}
use operating_systems_and_ne.Shell.Pipeline.{Answers, single, execute_pipeline, execute_single}
use operating_systems_and_ne.Shell.Prompt.{display_prompt}
use operating_systems_and_ne.Shell.Session.{
  World, tells, starts, reports, prints, Session, Ran, done, behind_pipeline, run_intrinsic,
  run_pipeline, run_pipelines, run_full_command, run_round, take_line,
}
use operating_systems_and_ne.Shell.Session.Turns.{begin_turn}
use operating_systems_and_ne.Shell.Session.Safe.{IsSafe}
use operating_systems_and_ne.Shell.Session.Diverges.{process_input-accepted}

-- What a command in the background does to the jobs.
execute_pipeline_background :
    (fs : Files) (s : Jobs) (a : Answers) (cmd : ParsedCommand) (name : Text) (args : List Text)
    (pid : ℕ)
    → cmd.args ≡ name ∷ args
    → is_intrinsic name ≡ false
    → a.fork ≡ some pid
    → execute_pipeline fs s a (some cmd ∷ [], true) ≡ (
      (add_job s pid name running).0,
      in_background (add_job s pid name running).1 pid ∷ [],
      single (child (run_child fs cmd true)),
    )
unfolding execute_pipeline execute_single execute_single_command dispatch child_of run_parent
execute_pipeline_background fs s a cmd name args pid e i f = rw (e, i, f) refl

-- The line is a command by itself that is sent to the background, no intrinsic, and `fork` returns the pid.
pub record IsLaunched (w : World) (s : Session) (line : Text) (name : Text) (pid : ℕ) : Type 0 where
  pub command : ParsedCommand
  pub args : List Text
  pub planned : plan line ≡ (some command ∷ [], true) ∷ []
  pub named : command.args ≡ name ∷ args
  pub external : is_intrinsic name ≡ false
  pub forked : (w.moment s.clock).answers.fork ≡ some pid

run_pipelines_background :
    (w : World) (onward : Session → Text → Ran) (s : Session) (cmd : ParsedCommand) (name : Text)
    (args : List Text) (pid : ℕ)
    → cmd.args ≡ name ∷ args
    → is_intrinsic name ≡ false
    → (w.moment s.clock).answers.fork ≡ some pid
    → run_pipelines w onward s ((some cmd ∷ [], true) ∷ [])
      ≡ done (
          behind_pipeline s (
            (add_job s.jobs pid name running).0,
            in_background (add_job s.jobs pid name running).1 pid ∷ [],
            single (child (run_child (w.moment s.clock).files cmd true)),
          ))
unfolding run_pipelines run_pipeline run_intrinsic
run_pipelines_background w onward s cmd name args pid e i f =
    let m = w.moment s.clock in
    rw (execute_pipeline_background m.files s.jobs m.answers cmd name args pid e i f) refl

begin_turn-report :
    (w : World) (s : Session) (pid : ℕ) (name : Text) (st : WaitStatus)
    → (wait_event s.jobs (pid, st)).1 ≡ report_of st (take 1023 name) pid ∷ []
    → (begin_turn w s ((pid, st) ∷ [])).output
      ≡ s.output
        ++ reports (report_of st (take 1023 name) pid)
          ∷ prints (display_prompt w.user w.host w.home_dir s.place.cwd)
          ∷ []
unfolding begin_turn check_background_jobs
begin_turn-report w s pid name st e = rw e refl

begin_turn-jobs :
    (w : World) (s : Session) (pid : ℕ) (st : WaitStatus)
    → (begin_turn w s ((pid, st) ∷ [])).jobs ≡ (wait_event s.jobs (pid, st)).0
unfolding begin_turn check_background_jobs
begin_turn-jobs w s pid st = refl

-- Typed in a safe shell whose table has room, and whose jobs do not have the pid that `fork` returns, a command in
-- the background comes back to the loop at once, announced by its number and its pid, and is found under this
-- number. When its end is reported, the next turn prints its name, cut to 1023 bytes, with its pid and whether it
-- ended normally, and every number finds what it found before the line was typed.
pub take_line-Background :
    (w : World) (f : ℕ) (s : Session) (line name : Text) (pid k : ℕ) (st : WaitStatus)
    → IsSafe s
    → parse_input line ≡ accepted
    → (launched : IsLaunched w s line name pid) → IsRoom s.jobs pid k
    → IsEnd st
    → (s' : Session) × (take_line w f s line ≡ done s')
      × (s'.output
          ≡ s.output
            ++ tells (in_background (pos s.jobs.next_job_id) pid)
              ∷ starts (single (child (run_child (w.moment s.clock).files launched.command true)))
              ∷ [])
      × (lookup s'.jobs.table s.jobs.next_job_id ≡ some (new_job s.jobs pid name running))
      × ((begin_turn w s' ((pid, st) ∷ [])).output
          ≡ s'.output
            ++ reports (report_of st (take 1023 name) pid)
              ∷ prints (display_prompt w.user w.host w.home_dir s'.place.cwd)
              ∷ [])
      × ((id : ℕ)
          → lookup (begin_turn w s' ((pid, st) ∷ [])).jobs.table id ≡ lookup s.jobs.table id)
unfolding take_line run_round behind_pipeline
take_line-Background w f s line name pid k st safe ok launched room end_ =
    let logged = record s { log = log_add_command s.log line } in
    let jobs' = (add_job s.jobs pid name running).0 in
    let outcome = single (child (run_child (w.moment s.clock).files launched.command true)) in
    let s' =
      behind_pipeline logged
        (jobs', in_background (add_job s.jobs pid name running).1 pid ∷ [], outcome) in
    let lived =
      add_job-Lived s.jobs pid k name st safe.jobs
        (add_job-IsValid s.jobs pid name running safe.jobs) room end_ in
    (
      s',
      ap (run_round w f logged) (process_input-accepted line ok)
          ∙ ap (run_pipelines w (run_full_command w f) logged) launched.planned
          ∙ run_pipelines_background w (run_full_command w f) logged launched.command name
              launched.args pid launched.named launched.external launched.forked,
      ap (λ n. s.output ++ tells (in_background n pid) ∷ starts outcome ∷ [])
          (add_job-number s.jobs pid k name running room),
      lived.listed,
      begin_turn-report w s' pid name st lived.report,
      λ id. ap (λ (j : Jobs). lookup j.table id) (begin_turn-jobs w s' pid st) ∙ lived.gone id,
    )
