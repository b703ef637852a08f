-- ===== src/Shell/Session/Defined.antt =====
-- What `execute_pipeline` of shell/src/executor.c starts: nothing undefined, and an intrinsic by itself only
-- for a command that is not redirected.
use operating_systems_and_ne.Prelude.{
  ℕ, ◌-◌, ◌≡◌, refl, arith, Bool, true, false, not, ◌&&◌, Option, none, some, List, [], ◌∷◌, if_ind,
  Text, length, All, Bool-cases, inl, inr,
}
use operating_systems_and_ne.Shell.Executor.{ParsedCommand, is_runnable}
use operating_systems_and_ne.Shell.Executor.Runnable.{Runnable}
use operating_systems_and_ne.Shell.Jobs.{Jobs}
use operating_systems_and_ne.Shell.Run.{
  Files, Note, Run, intrinsic, child_of, dispatch, execute_single_command, is_intrinsic,
  is_redirected,
}
use operating_systems_and_ne.Shell.Pipeline.{
  Answers, Stage, Piped, refused, undefined, single, piped, fork_all, add_last, has_gap, wait_all,
  stuck, execute_stages, execute_single, execute_pipeline, last_command,
}
use operating_systems_and_ne.Shell.Pipeline.Laws.{execute_pipeline-IsFilled, IsFilled}

-- No memory is read that was not initialised.
abbrev pub IsDefined : Piped → Type 0
IsDefined refused = Unit
IsDefined undefined = ⊥
IsDefined (single run) = Unit
IsDefined (piped children) = has_gap children ≡ false
IsDefined (stuck children) = has_gap children ≡ false

IsDefined-of_IsFilled : (outcome : Piped) → IsFilled outcome → IsDefined outcome
IsDefined-of_IsFilled refused h = absurd h
IsDefined-of_IsFilled undefined h = h
IsDefined-of_IsFilled (single run) h = tt
IsDefined-of_IsFilled (piped children) h = h
IsDefined-of_IsFilled (stuck children) h = h

-- Where its pipes cannot be created, a pipeline is refused.
execute_stages_closed :
    (fs : Files) (s : Jobs) (a : Answers) (cmds : List (Option ParsedCommand)) (background : Bool)
    → a.pipes_open ≡ false
    → (execute_stages fs s a cmds background).2 ≡ refused
unfolding execute_stages
execute_stages_closed fs s a cmds background h = rw h refl

pub execute_pipeline-IsDefined :
    (fs : Files) (s : Jobs) (a : Answers) (cmds : List (Option ParsedCommand)) (background : Bool)
    → All Runnable cmds
    → IsDefined (execute_pipeline fs s a (cmds, background)).2
unfolding execute_pipeline execute_single
execute_pipeline-IsDefined fs s a [] background h = tt
execute_pipeline-IsDefined fs s a (none ∷ []) background h = tt
execute_pipeline-IsDefined fs s a (some cmd ∷ []) background h = rw h.0 tt
execute_pipeline-IsDefined fs s a (cmd ∷ other ∷ cmds) background h =
    elim (Bool-cases a.pipes_open) [
      | inl e ↦
          IsDefined-of_IsFilled _
            (execute_pipeline-IsFilled fs s a cmd (other ∷ cmds) background e h)
      | inr e ↦ rw (execute_stages_closed fs s a (cmd ∷ other ∷ cmds) background e) tt
    ]

-- The first word is an intrinsic.
abbrev pub names_intrinsic : List Text → Bool
names_intrinsic [] = false
names_intrinsic (name ∷ args) = is_intrinsic name

-- The command that the shell runs as an intrinsic with these arguments.
abbrev pub Bare : List (Option ParsedCommand) → List Text → Type 0
Bare [] args = ⊥
Bare (found ∷ []) args = elim found [
  | none ↦ ⊥
  | some cmd ↦ (cmd.args ≡ args) × (is_redirected cmd ≡ false) × (names_intrinsic args ≡ true)
]
Bare (cmd ∷ other ∷ cmds) args = ⊥

-- Of an intrinsic that was met, `B` holds.
abbrev pub Meets : (List Text → Type 0) → Piped → Type 0
Meets B (single (intrinsic args)) = B args
Meets B _ = Unit

abbrev MeetsRun : (List Text → Type 0) → Run → Type 0
MeetsRun B run = Meets B (single run)

and_not_lem : (a b : Bool) → (a && not b) ≡ true → (b ≡ false) × (a ≡ true)
and_not_lem a b h = (ground arith, ground arith)

child_of-Meets :
    (B : List Text → Type 0) (fs : Files) (cmd : ParsedCommand) (background : Bool)
    (fork : Option ℕ)
    → MeetsRun B (child_of fs cmd background fork)
unfolding child_of
child_of-Meets B fs cmd background none = tt
child_of-Meets B fs cmd background (some pid) = tt

dispatch-Bare :
    (fs : Files) (s : Jobs) (a : Answers) (cmd : ParsedCommand) (words : List Text)
    (background : Bool)
    → cmd.args ≡ words
    → MeetsRun (Bare (some cmd ∷ [])) (dispatch fs s cmd words background a.fork a.keys a.status).2
unfolding dispatch
dispatch-Bare fs s a cmd [] background e = tt
dispatch-Bare fs s a cmd (name ∷ words) background e =
    if_ind (λ (out : Jobs × List Note × Run). MeetsRun (Bare (some cmd ∷ [])) out.2)
      (is_intrinsic name && not (is_redirected cmd))
      (λ t. let both = and_not_lem (is_intrinsic name) (is_redirected cmd) t in (e, both.0, both.1))
      (λ t. child_of-Meets (Bare (some cmd ∷ [])) fs cmd background a.fork)

add_last-Meets :
    (B : List Text → Type 0) (s : Jobs) (children : List (Option (ℕ × Stage))) (pid : ℕ)
    (last : Option (List Text))
    → Meets B (add_last s children pid last).2
unfolding add_last
add_last-Meets B s children pid none = tt
add_last-Meets B s children pid (some []) = tt
add_last-Meets B s children pid (some (name ∷ args)) = tt

execute_stages-Meets :
    (B : List Text → Type 0) (fs : Files) (s : Jobs) (a : Answers)
    (cmds : List (Option ParsedCommand)) (background : Bool)
    → Meets B (execute_stages fs s a cmds background).2
unfolding execute_stages wait_all
execute_stages-Meets B fs s a cmds true =
    if_ind (λ (out : Jobs × List Note × Piped). Meets B out.2) a.pipes_open
      (λ e. add_last-Meets B s _ _ (last_command cmds)) (λ e. tt)
execute_stages-Meets B fs s a cmds false =
    if_ind (λ (out : Jobs × List Note × Piped). Meets B out.2) a.pipes_open
      (λ e.
        if_ind (Meets B) (has_gap (fork_all fs a.forks (length cmds - 1) 0 cmds)) (λ t. tt)
          (λ t. if_ind (Meets B) a.children_end (λ u. tt) (λ u. tt)))
      (λ e. tt)

pub execute_pipeline-Bare :
    (fs : Files) (s : Jobs) (a : Answers) (cmds : List (Option ParsedCommand)) (background : Bool)
    → Meets (Bare cmds) (execute_pipeline fs s a (cmds, background)).2
unfolding execute_pipeline execute_single execute_single_command
execute_pipeline-Bare fs s a [] background = tt
execute_pipeline-Bare fs s a (none ∷ []) background = tt
execute_pipeline-Bare fs s a (some cmd ∷ []) background =
    if_ind (λ (out : Jobs × List Note × Piped). Meets (Bare (some cmd ∷ [])) out.2)
      (is_runnable cmd) (λ e. dispatch-Bare fs s a cmd cmd.args background refl) (λ e. tt)
execute_pipeline-Bare fs s a (cmd ∷ other ∷ cmds) background =
    execute_stages-Meets (λ args. ⊥) fs s a (cmd ∷ other ∷ cmds) background

-- The wait for the pipeline ends.
abbrev pub IsPassed : Piped → Type 0
IsPassed (stuck children) = ⊥
IsPassed _ = Unit

add_last-IsPassed :
    (s : Jobs) (children : List (Option (ℕ × Stage))) (pid : ℕ) (last : Option (List Text))
    → IsPassed (add_last s children pid last).2
unfolding add_last
add_last-IsPassed s children pid none = tt
add_last-IsPassed s children pid (some []) = tt
add_last-IsPassed s children pid (some (name ∷ args)) = tt

execute_stages-IsPassed :
    (fs : Files) (s : Jobs) (a : Answers) (cmds : List (Option ParsedCommand)) (background : Bool)
    → a.children_end ≡ true
    → IsPassed (execute_stages fs s a cmds background).2
unfolding execute_stages wait_all
execute_stages-IsPassed fs s a cmds true h =
    if_ind (λ (out : Jobs × List Note × Piped). IsPassed out.2) a.pipes_open
      (λ e. add_last-IsPassed s _ _ (last_command cmds)) (λ e. tt)
execute_stages-IsPassed fs s a cmds false h =
    if_ind (λ (out : Jobs × List Note × Piped). IsPassed out.2) a.pipes_open
      (λ e. rw h (
        if_ind IsPassed (has_gap (fork_all fs a.forks (length cmds - 1) 0 cmds)) (λ t. tt)
          (λ t. tt)))
      (λ e. tt)

-- Where all children end, the shell does not wait for ever.
pub execute_pipeline-IsPassed :
    (fs : Files) (s : Jobs) (a : Answers) (cmds : List (Option ParsedCommand)) (background : Bool)
    → a.children_end ≡ true
    → IsPassed (execute_pipeline fs s a (cmds, background)).2
unfolding execute_pipeline execute_single
execute_pipeline-IsPassed fs s a [] background h = tt
execute_pipeline-IsPassed fs s a (none ∷ []) background h = tt
execute_pipeline-IsPassed fs s a (some cmd ∷ []) background h =
    if_ind (λ (out : Jobs × List Note × Piped). IsPassed out.2) (is_runnable cmd) (λ e. tt)
      (λ e. tt)
execute_pipeline-IsPassed fs s a (cmd ∷ other ∷ cmds) background h =
    execute_stages-IsPassed fs s a (cmd ∷ other ∷ cmds) background h
