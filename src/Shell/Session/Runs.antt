-- ===== src/Shell/Session/Runs.antt =====
-- A run of a line keeps what its `log` commands keep, whatever the line holds.
use operating_systems_and_ne.Prelude.{
  ℕ, ◌⊎◌, inl, inr, true, ◌≡◌, ap, ◌∙◌, Bool, false, Option, none, some, List, [], ◌∷◌, Text, codes,
  text_eq, text_eq_iff, All, if_ind,
}
use operating_systems_and_ne.Shell.Executor.{ParsedCommand}
use operating_systems_and_ne.Shell.Jobs.{Jobs}
use operating_systems_and_ne.Shell.Log.{
  Log, Reply, executes, printed, purged, invalid_index, invalid_line, invalid_syntax, cmd_log,
}
use operating_systems_and_ne.Shell.Log.Stored.{Recalls}
use operating_systems_and_ne.Shell.JobControl.{cmd_activities, cmd_ping, cmd_fg, cmd_bg}
use operating_systems_and_ne.Shell.JobControl.Laws.{cmd_fg-IsValid, cmd_bg-IsValid}
use operating_systems_and_ne.Shell.Run.{intrinsic, nothing, not_forked, child, is_redirected}
use operating_systems_and_ne.Shell.Pipeline.{
  Piped, refused, undefined, single, piped, stuck, execute_pipeline,
}
use operating_systems_and_ne.Shell.Pipeline.Laws.{execute_pipeline-IsValid}
use operating_systems_and_ne.Shell.Pipeline.Idle.{execute_pipeline-IsIdle, cmd_bg-IsIdle}
use operating_systems_and_ne.Shell.Session.{
  World, Moment, replies, Session, Ran, put_out, behind_log, behind_pipeline, execute_intrinsic,
  run_intrinsic, run_pipeline, run_pipelines,
}
use operating_systems_and_ne.Shell.Session.Defined.{
  IsPassed, execute_pipeline-IsPassed, execute_pipeline-IsDefined, Bare, Meets,
  execute_pipeline-Bare,
}
use operating_systems_and_ne.Shell.Session.Keeps.{
  Kept, Asks, Fits, Lands, put_out-Kept, set_log-Kept, behind_hop-Kept, behind_control-Kept,
  behind_pipeline-Kept, ping-same, behind_run-Lands,
}

-- What `cmd_log` keeps, and of which lines it executes.
abbrev pub Logs : World → (Log → Type 0) → (Text → Type 0) → Log → List Text → Type 0
Logs w G L g args = G (cmd_log w.atoi g args).0 × Recalls L (cmd_log w.atoi g args).1

-- As far as the words are a `log` command.
abbrev LogsIf : World → (Log → Type 0) → (Text → Type 0) → Log → List Text → Type 0
LogsIf w G L g [] = Unit
LogsIf w G L g (name ∷ args) = name ≡ codes "log" → Logs w G L g args

pub Meets-map :
    (B B' : List Text → Type 0) (outcome : Piped)
    → ((args : List Text) → B args → B' args)
    → Meets B outcome
    → Meets B' outcome
Meets-map B B' refused f h = tt
Meets-map B B' undefined f h = tt
Meets-map B B' (single nothing) f h = tt
Meets-map B B' (single (intrinsic args)) f h = f args h
Meets-map B B' (single (child c)) f h = tt
Meets-map B B' (single not_forked) f h = tt
Meets-map B B' (piped children) f h = tt
Meets-map B B' (stuck children) f h = tt

-- Every pipeline that is waited for ends, or `C` holds of the state that a wait without end leaves.
abbrev pub Stops : World → (Log → Type 0) → (Session → Type 0) → Type 0
Stops w G C =
    ((i : ℕ) → (w.moment i).answers.children_end ≡ true) ⊎ ((s : Session) → Kept G s → C s)

module _ (w : World) (G : Log → Type 0) (A : ParsedCommand → Type 0) (L : Text → Type 0)
    (C : Session → Type 0) (stops : Stops w G C)
    (recalls : (g : Log) (cmd : ParsedCommand) (args : List Text)
      → G g
      → A cmd
      → is_redirected cmd ≡ false
      → cmd.args ≡ codes "log" ∷ args
      → Logs w G L g args)
    (onward : Session → Text → Ran)
    (again : (s : Session) (line : Text) → Kept G s → L line → Lands G C (onward s line)) where
  replies-Kept :
      (s : Session) (g : Log) (r : Reply)
      → G g
      → Kept G s
      → Kept G (put_out (record s { log = g }) (replies r ∷ []))
  replies-Kept s g r h k =
      put_out-Kept w G (record s { log = g }) _ (tt, tt) (set_log-Kept w G s g h k)

  behind_log-Lands :
      (s : Session) (out : Log × Reply)
      → G out.0
      → Recalls L out.1
      → Kept G s
      → Lands G C (behind_log onward s out)
  unfolding behind_log
  behind_log-Lands s (g, executes line) h r k =
      again _ line (replies-Kept s g (executes line) h k) r
  behind_log-Lands s (g, printed ls) h r k = replies-Kept s g (printed ls) h k
  behind_log-Lands s (g, purged) h r k = replies-Kept s g (purged) h k
  behind_log-Lands s (g, invalid_index) h r k = replies-Kept s g (invalid_index) h k
  behind_log-Lands s (g, invalid_line) h r k = replies-Kept s g (invalid_line) h k
  behind_log-Lands s (g, invalid_syntax) h r k = replies-Kept s g (invalid_syntax) h k

  execute_intrinsic-Lands :
      (m : Moment) (s : Session) (name : Text) (args : List Text)
      → (name ≡ codes "log" → Logs w G L s.log args)
      → Kept G s
      → Lands G C (execute_intrinsic w onward m s name args)
  unfolding execute_intrinsic cmd_activities
  execute_intrinsic-Lands m s name args logs k =
      let fg = cmd_fg w.strtol s.jobs args m.answers.keys m.answers.status in
      let fg_kept =
        cmd_fg-IsValid w.strtol s.jobs args m.answers.keys m.answers.status k.jobs k.idle in
      let bg = cmd_bg w.strtol s.jobs args in
      let pinged = cmd_ping w.strtol s.jobs args m.delivered in
      let same = ping-same w G s.jobs args m.delivered in
      if_ind (Lands G C) (text_eq name (codes "hop")) (λ _. behind_hop-Kept w G s _ k)
        (λ _.
          if_ind (Lands G C) (text_eq name (codes "reveal")) (λ _. put_out-Kept w G s _ (tt, tt) k)
            (λ _.
              if_ind (Lands G C) (text_eq name (codes "log"))
                (λ e.
                  let h = logs ((text_eq_iff name (codes "log")).0 e) in
                  behind_log-Lands s _ h.0 h.1 k)
                (λ _.
                  if_ind (Lands G C) (text_eq name (codes "activities"))
                    (λ _. behind_control-Kept w G s (cmd_activities s.jobs) k.jobs k.idle k)
                    (λ _.
                      if_ind (Lands G C) (text_eq name (codes "ping"))
                        (λ _. behind_control-Kept w G s pinged (rw same k.jobs) (rw same k.idle) k)
                        (λ _.
                          if_ind (Lands G C) (text_eq name (codes "fg"))
                            (λ _. behind_control-Kept w G s fg fg_kept.0 fg_kept.1 k)
                            (λ _.
                              if_ind (Lands G C) (text_eq name (codes "bg"))
                                (λ _.
                                  behind_control-Kept w G s bg
                                    (cmd_bg-IsValid w.strtol s.jobs args k.jobs)
                                    (cmd_bg-IsIdle w.strtol s.jobs args k.idle) k)
                                (λ _. k)))))))

  run_intrinsic-Lands :
      (m : Moment) (s : Session) (outcome : Piped)
      → IsPassed outcome ⊎ ((s : Session) → Kept G s → C s)
      → Meets (LogsIf w G L s.log) outcome
      → Kept G s
      → Lands G C (run_intrinsic w onward m s outcome)
  unfolding run_intrinsic
  run_intrinsic-Lands m s (single (intrinsic (name ∷ args))) p h k =
      execute_intrinsic-Lands m s name args h k
  run_intrinsic-Lands m s (single (intrinsic [])) p h k = k
  run_intrinsic-Lands m s (single nothing) p h k = k
  run_intrinsic-Lands m s (single not_forked) p h k = k
  run_intrinsic-Lands m s (single (child c)) p h k = k
  run_intrinsic-Lands m s refused p h k = k
  run_intrinsic-Lands m s undefined p h k = k
  run_intrinsic-Lands m s (piped children) p h k = k
  run_intrinsic-Lands m s (stuck children) (inl passed) h k = absurd passed
  run_intrinsic-Lands m s (stuck children) (inr stopped) h k = stopped s k

  passes :
      (s : Jobs) (i : ℕ) (cmds : List (Option ParsedCommand)) (background : Bool)
      → IsPassed (execute_pipeline (w.moment i).files s (w.moment i).answers (cmds, background)).2
        ⊎ ((s' : Session) → Kept G s' → C s')
  passes s i cmds background = elim stops [
    | inl ends ↦ inl (
        execute_pipeline-IsPassed (w.moment i).files s (w.moment i).answers cmds background
          (ends i))
    | inr stopped ↦ inr stopped
  ]

  Bare-LogsIf :
      (g : Log) (cmds : List (Option ParsedCommand)) (words : List Text)
      → G g
      → Asks A cmds
      → Bare cmds words
      → LogsIf w G L g words
  Bare-LogsIf g cmds [] h a b = tt
  Bare-LogsIf g [] (name ∷ args) h a b = absurd b
  Bare-LogsIf g (none ∷ []) (name ∷ args) h a b = absurd b
  Bare-LogsIf g (some cmd ∷ []) (name ∷ args) h a b =
      λ e. recalls g cmd args h a b.1 (b.0 ∙ ap (λ n. n ∷ args) e)
  Bare-LogsIf g (cmd ∷ other ∷ cmds) (name ∷ args) h a b = absurd b

  run_pipeline-Lands :
      (s : Session) (cmds : List (Option ParsedCommand)) (background : Bool)
      → Fits A (cmds, background)
      → Kept G s
      → Lands G C (run_pipeline w onward s (cmds, background))
  unfolding run_pipeline behind_pipeline
  run_pipeline-Lands s cmds background (runnable, asks) k =
      let m = w.moment s.clock in
      let meets = execute_pipeline-Bare m.files s.jobs m.answers cmds background in
      run_intrinsic-Lands m _ _ (passes s.jobs s.clock cmds background)
        (Meets-map (Bare cmds) (LogsIf w G L s.log) _
          (λ words b. Bare-LogsIf s.log cmds words k.log asks b) meets)
        (behind_pipeline-Kept w G s _
          (execute_pipeline-IsValid m.files s.jobs m.answers (cmds, background) k.jobs)
          (execute_pipeline-IsIdle m.files s.jobs m.answers (cmds, background) k.idle)
          (execute_pipeline-IsDefined m.files s.jobs m.answers cmds background runnable) k)

  -- A line whose groups fit keeps what its `log` commands keep.
  pub run_pipelines-Lands :
      (s : Session) (groups : List (List (Option ParsedCommand) × Bool))
      → All (Fits A) groups
      → Kept G s
      → Lands G C (run_pipelines w onward s groups)
  unfolding run_pipelines
  run_pipelines-Lands s [] h k = k
  run_pipelines-Lands s ((cmds, background) ∷ groups) h k =
      behind_run-Lands w G C (run_pipeline w onward s (cmds, background))
        (λ s'. run_pipelines w onward s' groups) (run_pipeline-Lands s cmds background h.0 k)
        (λ s' k'. run_pipelines-Lands s' groups h.1 k')
