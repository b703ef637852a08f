-- ===== src/Shell/Session/Keeps.antt =====
-- What a run of the shell keeps: the jobs, what was started, and whatever the `log` commands keep of the log.
use operating_systems_and_ne.Prelude.{
  suc, ◌≡◌, refl, arith, Bool, Option, none, some, List, [], ◌∷◌, map, Text, All, All-append,
  Status, success, failure,
}
use operating_systems_and_ne.Shell.Executor.{ParsedCommand}
use operating_systems_and_ne.Shell.Executor.Runnable.{Runnable}
use operating_systems_and_ne.Shell.Log.{Log}
use operating_systems_and_ne.Shell.Jobs.{Jobs}
use operating_systems_and_ne.Shell.Jobs.Table.{IsValid}
use operating_systems_and_ne.Shell.JobControl.{Outcome, cmd_ping, ping}
use operating_systems_and_ne.Shell.Hop.{Place}
use operating_systems_and_ne.Shell.Run.{Note}
use operating_systems_and_ne.Shell.Pipeline.{Piped}
use operating_systems_and_ne.Shell.Pipeline.Idle.{IsIdle}
use operating_systems_and_ne.Shell.Session.{
  World, ShellEvent, starts, tells, affects, Session, Ran, done, cut_off, ◌>>=◌, put_out,
  behind_hop, behind_control, behind_pipeline,
}
use operating_systems_and_ne.Shell.Session.Defined.{IsDefined}

abbrev pub IsFine : ShellEvent → Type 0
IsFine (starts outcome) = IsDefined outcome
IsFine _ = Unit

pub map-IsFine {ℓ} :
    {X : Type ℓ} (f : X → ShellEvent) (xs : List X)
    → ((x : X) → IsFine (f x))
    → All IsFine (map f xs)
map-IsFine f [] h = tt
map-IsFine f (x ∷ xs) h = (h x, map-IsFine f xs h)

-- The table of jobs is well formed, no process is in the foreground, no pipeline was undefined, and the log has
-- the property `G`.
pub record Kept (G : Log → Type 0) (s : Session) : Type 0 where
  pub jobs : IsValid s.jobs
  pub idle : IsIdle s.jobs
  pub output : All IsFine s.output
  pub log : G s.log

-- The group can be run, and of a command by itself `A` holds.
abbrev pub Asks : (ParsedCommand → Type 0) → List (Option ParsedCommand) → Type 0
Asks A [] = Unit
Asks A (found ∷ []) = elim found [ none ↦ Unit | some cmd ↦ A cmd ]
Asks A (cmd ∷ other ∷ cmds) = Unit

abbrev pub Fits : (ParsedCommand → Type 0) → List (Option ParsedCommand) × Bool → Type 0
Fits A (cmds, background) = All Runnable cmds × Asks A cmds

-- A run that is cut off is in `C`.
abbrev pub Lands : (Log → Type 0) → (Session → Type 0) → Ran → Type 0
Lands G C (done s) = Kept G s
Lands G C (cut_off s) = C s

module _ (w : World) (G : Log → Type 0) where
  pub put_out-Kept :
      (s : Session) (es : List ShellEvent) → All IsFine es → Kept G s → Kept G (put_out s es)
  put_out-Kept s es h k = record {
    jobs = k.jobs;
    idle = k.idle;
    output = All-append IsFine s.output es k.output h;
    log = k.log;
  }

  pub set_jobs-Kept :
      (s : Session) (jobs : Jobs)
      → IsValid jobs
      → IsIdle jobs
      → Kept G s
      → Kept G (record s { jobs = jobs })
  set_jobs-Kept s jobs v i k = record { jobs = v; idle = i; output = k.output; log = k.log }

  pub set_log-Kept : (s : Session) (g : Log) → G g → Kept G s → Kept G (record s { log = g })
  set_log-Kept s g h k = record { jobs = k.jobs; idle = k.idle; output = k.output; log = h }

  pub behind_hop-Kept : (s : Session) (out : Place × Status) → Kept G s → Kept G (behind_hop s out)
  unfolding behind_hop
  behind_hop-Kept s (place, success) k = record {
    jobs = k.jobs;
    idle = k.idle;
    output = k.output;
    log = k.log;
  }
  behind_hop-Kept s (place, failure) k =
      put_out-Kept (record s { place = place }) _ (tt, tt)
        (record { jobs = k.jobs; idle = k.idle; output = k.output; log = k.log })

  pub behind_control-Kept :
      (s : Session) (out : Outcome)
      → IsValid out.0
      → IsIdle out.0
      → Kept G s
      → Kept G (behind_control s out)
  unfolding behind_control
  behind_control-Kept s (jobs, out, status) v i k =
      put_out-Kept (record s { jobs = jobs }) (map affects out) (map-IsFine affects out (λ x. tt))
        (set_jobs-Kept s jobs v i k)

  pub behind_pipeline-Kept :
      (s : Session) (out : Jobs × List Note × Piped)
      → IsValid out.0
      → IsIdle out.0
      → IsDefined out.2
      → Kept G s
      → Kept G (behind_pipeline s out)
  unfolding behind_pipeline
  behind_pipeline-Kept s (jobs, notes, outcome) v i d k =
      put_out-Kept (record s { jobs = jobs; clock = suc s.clock }) _
        (All-append IsFine (map tells notes) (starts outcome ∷ [])
          (map-IsFine tells notes (λ x. tt)) (d, tt))
        (record { jobs = v; idle = i; output = k.output; log = k.log })

  pub ping-same :
      (s : Jobs) (args : List Text) (delivered : Bool) → (cmd_ping w.strtol s args delivered).0 ≡ s
  unfolding cmd_ping ping
  ping-same s [] delivered = refl
  ping-same s (a ∷ []) delivered = refl
  ping-same s (a ∷ b ∷ []) delivered = ground arith
  ping-same s (a ∷ b ∷ c ∷ args) delivered = refl

  pub behind_run-Lands :
      (C : Session → Type 0) (r : Ran) (next : Session → Ran)
      → Lands G C r
      → ((s : Session) → Kept G s → Lands G C (next s))
      → Lands G C (r >>= next)
  behind_run-Lands C (done s) next h n = n s h
  behind_run-Lands C (cut_off s) next h n = h
