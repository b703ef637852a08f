-- ===== src/Shell/Session/CutOff.antt =====
-- A `log` command that executes the line it stands in is not left again, whatever stands in front of it.
use mathlib.Core.Path.{fun_ext}
use operating_systems_and_ne.Prelude.{
  inr, ◌≡◌, refl, sym, ap, ◌∙◌, subst, Bool, true, false, not, ◌&&◌, not_and_lem, Option, some,
  List, [], ◌∷◌, ◌++◌, Text, codes, text_eq, All,
}
use operating_systems_and_ne.Shell.Executor.{ParsedCommand}
use operating_systems_and_ne.Shell.Log.{Log, executes, cmd_log}
use operating_systems_and_ne.Shell.Jobs.{Jobs}
use operating_systems_and_ne.Shell.Run.{
  Files, is_redirected, is_intrinsic, intrinsic, dispatch, execute_single_command,
}
use operating_systems_and_ne.Shell.Pipeline.{Answers, single, execute_pipeline, execute_single}
use operating_systems_and_ne.Shell.Session.{
  World, Moment, Session, Ran, done, cut_off, ◌>>=◌, behind_log, execute_intrinsic, run_intrinsic,
  run_pipeline, run_pipelines,
}
use operating_systems_and_ne.Shell.Session.Keeps.{
  Kept, Fits, Lands, put_out-Kept, set_log-Kept, behind_pipeline-Kept,
}
use operating_systems_and_ne.Shell.Session.Runs.{run_pipelines-Lands}

abbrev pub Group : Type 0
Group = List (Option ParsedCommand) × Bool

-- The command is not a `log` that the shell runs.
abbrev begins_with_log : List Text → Bool
begins_with_log [] = false
begins_with_log (name ∷ args) = text_eq name (codes "log")

abbrev pub LeavesLog : ParsedCommand → Type 0
LeavesLog cmd = (not (is_redirected cmd) && begins_with_log cmd.args) ≡ false

leaves_log :
    (cmd : ParsedCommand) (args : List Text)
    → LeavesLog cmd
    → is_redirected cmd ≡ false
    → cmd.args ≡ codes "log" ∷ args
    → ⊥
unfolding text_eq
leaves_log cmd args h r e =
    let starts_so : begins_with_log cmd.args ≡ true = ap begins_with_log e in
    let starts_not = not_and_lem (is_redirected cmd) (begins_with_log cmd.args) h r in cc

-- A `log` command by itself is run by the shell.
execute_pipeline_log :
    (fs : Files) (s : Jobs) (a : Answers) (cmd : ParsedCommand) (args : List Text)
    (background : Bool)
    → cmd.args ≡ codes "log" ∷ args
    → is_redirected cmd ≡ false
    → execute_pipeline fs s a (some cmd ∷ [], background)
      ≡ (s, [], single (intrinsic (codes "log" ∷ args)))
unfolding execute_pipeline execute_single execute_single_command dispatch is_intrinsic text_eq
execute_pipeline_log fs s a cmd args background e r = rw (e, r) refl

abbrev pub IsCutOff : Ran → Type 0
IsCutOff (done s) = ⊥
IsCutOff (cut_off s) = Unit

IsCutOff-bind : (r : Ran) (next : Session → Ran) → IsCutOff r → IsCutOff (r >>= next)
IsCutOff-bind (done s) next h = absurd h
IsCutOff-bind (cut_off s) next h = tt

bind_assoc : (r : Ran) (f h : Session → Ran) → (r >>= f >>= h) ≡ (r >>= λ s. f s >>= h)
bind_assoc (done s) f h = refl
bind_assoc (cut_off s) f h = refl

run_pipelines-append :
    (w : World) (onward : Session → Text → Ran) (s : Session) (xs ys : List Group)
    → run_pipelines w onward s (xs ++ ys)
      ≡ (run_pipelines w onward s xs >>= λ s'. run_pipelines w onward s' ys)
unfolding run_pipelines
run_pipelines-append w onward s [] ys = refl
run_pipelines-append w onward s (x ∷ xs) ys =
    ap (λ k. run_pipeline w onward s x >>= k)
      (fun_ext (λ s'. run_pipelines-append w onward s' xs ys))
    ∙ sym (
        bind_assoc (run_pipeline w onward s x) (λ s'. run_pipelines w onward s' xs)
          (λ s'. run_pipelines w onward s' ys))

module _ (w : World) (g : Log) (line : Text) (args : List Text)
    (recalled : cmd_log w.atoi g args ≡ (g, executes line)) (onward : Session → Text → Ran) where
  -- The log is this one.
  abbrev Fixed : Session → Type 0
  Fixed = Kept (λ g'. g' ≡ g)

  landed :
      (r : Ran) (next : Session → Ran)
      → Lands (λ g'. g' ≡ g) (λ s. Unit) r
      → ((s : Session) → Fixed s → IsCutOff (next s))
      → IsCutOff (r >>= next)
  landed (done s) next h n = n s h
  landed (cut_off s) next h n = tt

  module _ (again : (s : Session) → Fixed s → IsCutOff (onward s line)) where
    execute_intrinsic-IsCutOff :
        (m : Moment) (s : Session)
        → Fixed s
        → IsCutOff (execute_intrinsic w onward m s (codes "log") args)
    unfolding execute_intrinsic text_eq behind_log
    execute_intrinsic-IsCutOff m s k =
        let e = ap (λ l. cmd_log w.atoi l args) k.log ∙ recalled in
        subst (λ out. IsCutOff (behind_log onward s out)) (sym e)
          (again _ (
            put_out-Kept w (λ g'. g' ≡ g) (record s { log = g }) _ (tt, tt)
              (set_log-Kept w (λ g'. g' ≡ g) s g refl k)))

    run_pipeline-IsCutOff :
        (s : Session) (cmd : ParsedCommand) (background : Bool)
        → cmd.args ≡ codes "log" ∷ args
        → is_redirected cmd ≡ false
        → Fixed s
        → IsCutOff (run_pipeline w onward s (some cmd ∷ [], background))
    unfolding run_pipeline run_intrinsic
    run_pipeline-IsCutOff s cmd background e r k =
        let m = w.moment s.clock in
        rw (execute_pipeline_log m.files s.jobs m.answers cmd args background e r) (
          execute_intrinsic-IsCutOff m _ (
            behind_pipeline-Kept w (λ g'. g' ≡ g) s
              (s.jobs, [], single (intrinsic (codes "log" ∷ args))) k.jobs k.idle tt k))

    -- The groups in front leave the log as it is; the `log` command is cut off.
    pub run_pipelines-IsCutOff :
        (s : Session) (before after : List Group) (cmd : ParsedCommand) (background : Bool)
        → All (Fits LeavesLog) before
        → cmd.args ≡ codes "log" ∷ args
        → is_redirected cmd ≡ false
        → Fixed s
        → IsCutOff (run_pipelines w onward s (before ++ (some cmd ∷ [], background) ∷ after))
    run_pipelines-IsCutOff s before after cmd background fits e r k =
        let rest : (s' : Session)
            → Fixed s'
            → IsCutOff (run_pipelines w onward s' ((some cmd ∷ [], background) ∷ after)) =
          λ s' k'.
            unfold run_pipelines in
            (IsCutOff-bind (run_pipeline w onward s' (some cmd ∷ [], background)) _
              (run_pipeline-IsCutOff s' cmd background e r k')) in
        rw (run_pipelines-append w onward s before ((some cmd ∷ [], background) ∷ after)) (
          landed (run_pipelines w onward s before) _
            (run_pipelines-Lands w (λ g'. g' ≡ g) LeavesLog (λ l. ⊥) (λ s'. Unit)
              (inr (λ s' k'. tt))
              (λ g' cmd' args' h a r' e'. absurd (leaves_log cmd' args' a r' e')) onward
              (λ s' l k' h. absurd h) s before fits k)
            rest)
