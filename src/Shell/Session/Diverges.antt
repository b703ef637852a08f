-- ===== src/Shell/Session/Diverges.antt =====
-- When the shell of shell/src does not come back to its prompt: a line that is logged and holds `log execute 1`
-- executes itself.
use operating_systems_and_ne.Prelude.{
  ℕ, zero, suc, ◌≡◌, refl, sym, ap, subst, Bool, false, some, List, [], ◌∷◌, ◌++◌, Text, codes, All,
  pos,
}
use operating_systems_and_ne.Shell.Parser.{parse_input, accepted, rejected, unfinished}
use operating_systems_and_ne.Shell.Executor.{ParsedCommand, plan}
use operating_systems_and_ne.Shell.Executor.Runnable.{AllRunnable, plan-AllRunnable}
use operating_systems_and_ne.Shell.Log.{Log, executes, is_log_command, cmd_log, log_add_command}
use operating_systems_and_ne.Shell.Run.{is_redirected}
use operating_systems_and_ne.Shell.Session.{World, Session, run_full_command, run_round, take_line}
use operating_systems_and_ne.Shell.Session.Keeps.{Kept, Asks, Fits}
use operating_systems_and_ne.Shell.Main.{Round, invalid_syntax, executed, process_input}
use operating_systems_and_ne.Shell.Session.Safe.{Short, IsSafe}
use operating_systems_and_ne.Shell.Log.Newest.{log_add_command-Newest, cmd_log-Newest}
use operating_systems_and_ne.Shell.Session.CutOff.{
  run_pipelines-IsCutOff, Group, LeavesLog, IsCutOff,
}

-- The line holds a `log` command with these arguments that the shell runs, behind groups that leave the log as
-- it is.
pub record Holds (line : Text) (args : List Text) : Type 0 where
  pub before : List Group
  pub command : ParsedCommand
  pub at_end : Bool
  pub after : List Group
  pub cut_there : plan line ≡ before ++ (some command ∷ [], at_end) ∷ after
  pub leaves : All (λ (group : Group). Asks LeavesLog group.0) before
  pub names : command.args ≡ codes "log" ∷ args
  pub bare : is_redirected command ≡ false

All-Fits :
    (before after : List Group)
    → AllRunnable (before ++ after)
    → All (λ (group : Group). Asks LeavesLog group.0) before
    → All (Fits LeavesLog) before
All-Fits [] after h l = tt
All-Fits (group ∷ before) after h l = ((h.0, l.0), All-Fits before after h.1 l.1)

-- A stored line that executes itself is cut off at every depth.
run_full_command-IsCutOff :
    (w : World) (g : Log) (line : Text) (args : List Text) (f : ℕ) (s : Session)
    → Holds line args
    → Short line
    → parse_input line ≡ accepted
    → cmd_log w.atoi g args ≡ (g, executes line)
    → Kept (λ g'. g' ≡ g) s
    → IsCutOff (run_full_command w f s line)
unfolding run_full_command
run_full_command-IsCutOff w g line args zero s h short ok recalled k = tt
run_full_command-IsCutOff w g line args (suc f) s h short ok recalled k =
    let runnable = subst AllRunnable h.cut_there (plan-AllRunnable line short ok) in
    rw h.cut_there (
      run_pipelines-IsCutOff w g line args recalled (run_full_command w f)
        (λ s' k'. run_full_command-IsCutOff w g line args f s' h short ok recalled k') s h.before
        h.after h.command h.at_end (All-Fits h.before _ runnable h.leaves) h.names h.bare k)

pub process_input-accepted :
    (line : Text) → parse_input line ≡ accepted → process_input line ≡ executed (plan line)
unfolding process_input
process_input-accepted line ok =
    ap
      (λ v. elim v as (λ x. Round) [
        | accepted ↦ executed (plan line)
        | rejected ↦ invalid_syntax
        | unfinished ↦ invalid_syntax
      ])
      ok

-- In a shell that is safe, an accepted line of less than 4096 bytes that does not begin with `log`, and holds
-- `log execute` with an index that is read as 1, as a command by itself behind groups that are no `log` commands of
-- the shell's own, never comes to its end once it is typed: it executes itself, so that every depth of nesting is
-- used up, unless a pipeline in front is waited for without end.
pub take_line-IsCutOff :
    (w : World) (f : ℕ) (s : Session) (line index : Text)
    → IsSafe s
    → Short line
    → parse_input line ≡ accepted
    → is_log_command line ≡ false
    → Holds line (codes "execute" ∷ index ∷ [])
    → w.atoi index ≡ pos 1
    → IsCutOff (take_line w f s line)
unfolding take_line
take_line-IsCutOff w f s line index k short ok n h i =
    let g = log_add_command s.log line in
    let newest = log_add_command-Newest s.log line k.log.0 n in
    let recalled = cmd_log-Newest w.atoi g line index newest i ok in
    let typed = record s { log = g } in
    subst (λ round. IsCutOff (run_round w f typed round)) (sym (process_input-accepted line ok))
      (unfold run_round run_full_command in
        (run_full_command-IsCutOff w g line (codes "execute" ∷ index ∷ []) (suc f) typed h short ok
          recalled (record { jobs = k.jobs; idle = k.idle; output = k.output; log = refl })))
