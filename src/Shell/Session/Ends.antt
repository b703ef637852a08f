-- ===== src/Shell/Session/Ends.antt =====
-- When the shell of shell/src comes back to its prompt: `log execute` ends on lines that hold no `log execute`.
use operating_systems_and_ne.Prelude.{
  ℕ, suc, ◌≡◌, ◌⊎◌, inl, inr, refl, subst, arith, Bool, true, false, not, ◌&&◌, not_and_lem, Option,
  List, [], ◌∷◌, Text, codes, text_eq, if_ind, All, ℤ,
}
use operating_systems_and_ne.Shell.Parser.{parse_input, accepted}
use operating_systems_and_ne.Shell.Executor.{ParsedCommand, plan, split_groups, cut}
use operating_systems_and_ne.Shell.Executor.Runnable.{AllRunnable, plan-AllRunnable}
use operating_systems_and_ne.Shell.Log.{Log, Reply, is_log_command, ensure_loaded, run_log, cmd_log}
use operating_systems_and_ne.Shell.Log.Stored.{
  InFile, Recalls, Stored, log_add_command-Stored, cmd_log-Stored, initial-Stored,
}
use operating_systems_and_ne.Shell.Run.{is_redirected}
use operating_systems_and_ne.Shell.Session.{
  World, Session, Ran, done, cut_off, run_pipelines, run_full_command,
}
use operating_systems_and_ne.Shell.Session.Turns.{Turn, start_shell, run_shell}
use operating_systems_and_ne.Shell.Session.Keeps.{Kept, Asks, Fits, Lands}
use operating_systems_and_ne.Shell.Session.Runs.{run_pipelines-Lands}
use operating_systems_and_ne.Shell.Session.Loop.{Typed, trimmed, main_loop-Lands, start_shell-Kept}
use operating_systems_and_ne.Shell.Session.Safe.{
  Short, Short-trimmed, Anything, Fits-of_AllRunnable,
}

-- The command is `log execute` with an index, run by the shell.
abbrev pub names_execute : List Text → Bool
names_execute (a ∷ b ∷ c ∷ []) = text_eq a (codes "log") && text_eq b (codes "execute")
names_execute _ = false

abbrev pub reexecutes : ParsedCommand → Bool
reexecutes cmd = not (is_redirected cmd) && names_execute cmd.args

abbrev IsCalm : ParsedCommand → Type 0
IsCalm cmd = reexecutes cmd ≡ false

-- No group of the line is such a command by itself.
abbrev pub IsQuiet : Text → Type 0
IsQuiet line =
    All
      (λ (group : List (Option ParsedCommand) × Bool). Asks (λ cmd. reexecutes cmd ≡ false) group.0)
      (plan line)

-- What the log may hold.
abbrev pub Harmless : Text → Type 0
Harmless line = Short line × IsQuiet line

-- What may be typed: a line that is not logged, or one that may be.
abbrev pub Allowed : Text → Type 0
Allowed text = Short text × ((is_log_command (trimmed text) ≡ true) ⊎ IsQuiet (trimmed text))

Harmless-blank : Harmless []
Harmless-blank = (omega arith, unfold plan split_groups cut in tt)

Harmless-Short : (line : Text) → Harmless line → Short line
Harmless-Short line h = h.0

calm_args :
    (cmd : ParsedCommand) (args : List Text)
    → IsCalm cmd
    → is_redirected cmd ≡ false
    → cmd.args ≡ args
    → names_execute args ≡ false
calm_args cmd args h r e =
    subst (λ words. names_execute words ≡ false) e
      (not_and_lem (is_redirected cmd) (names_execute cmd.args) h r)

run_log-Recalls :
    (atoi : Text → ℤ) (g : Log) (args : List Text)
    → names_execute (codes "log" ∷ args) ≡ false
    → Recalls (λ line. ⊥) (run_log atoi g args).1
unfolding run_log text_eq
run_log-Recalls atoi g [] h = tt
run_log-Recalls atoi g (a ∷ []) h =
    if_ind (λ (out : Log × Reply). Recalls (λ line. ⊥) out.1) (text_eq a (codes "purge")) (λ _. tt)
      (λ _. tt)
run_log-Recalls atoi g (a ∷ b ∷ []) h = rw (h) tt
run_log-Recalls atoi g (a ∷ b ∷ c ∷ args) h = tt

-- What the shell executes again.
abbrev Again : Text → Type 0
Again line = Harmless line × (parse_input line ≡ accepted)

Fits-IsCalm :
    (groups : List (List (Option ParsedCommand) × Bool))
    → AllRunnable groups
    → All (λ (group : List (Option ParsedCommand) × Bool). Asks IsCalm group.0) groups
    → All (Fits IsCalm) groups
Fits-IsCalm [] h k = tt
Fits-IsCalm (group ∷ groups) h k = ((h.0, k.0), Fits-IsCalm groups h.1 k.1)

-- A run that is not cut off.
abbrev Finishes : Ran → Type 0
Finishes = Lands (Stored Harmless) (λ s. ⊥)

storable :
    (text : Text)
    → Short text
    → (is_log_command (trimmed text) ≡ true) ⊎ IsQuiet (trimmed text)
    → (is_log_command (trimmed text) ≡ true) ⊎ Harmless (trimmed text)
storable text short (inl e) = inl e
storable text short (inr q) = inr (Short-trimmed text short, q)

module _ (w : World) (ending : (i : ℕ) → (w.moment i).answers.children_end ≡ true) where
  -- A line that holds no `log execute` ends, with whatever fuel.
  run_full_command-Finishes :
      (f : ℕ) (s : Session) (line : Text)
      → Kept (Stored Harmless) s
      → Again line
      → Finishes (run_full_command w (suc f) s line)
  unfolding run_full_command
  run_full_command-Finishes f s line k ((short, quiet), ok) =
      run_pipelines-Lands w (Stored Harmless) IsCalm (λ l. ⊥) (λ s'. ⊥) (inl ending)
        (λ g cmd args h a r e. (
          (cmd_log-Stored Harmless Harmless-blank Harmless-Short w.atoi g args h).0,
          unfold cmd_log in
              (run_log-Recalls w.atoi (ensure_loaded g) args
                (calm_args cmd (codes "log" ∷ args) a r e)),
        ))
        (run_full_command w f) (λ s' l k' h. absurd h) s (plan line)
        (Fits-IsCalm (plan line) (plan-AllRunnable line short ok) quiet) k

  run_pipelines-Finishes :
      (f : ℕ) (s : Session) (groups : List (List (Option ParsedCommand) × Bool))
      → All (Fits Anything) groups
      → Kept (Stored Harmless) s
      → Finishes (run_pipelines w (run_full_command w (suc f)) s groups)
  run_pipelines-Finishes f s groups h k =
      run_pipelines-Lands w (Stored Harmless) Anything Again (λ s'. ⊥) (inl ending)
        (λ g cmd args h a r e.
          cmd_log-Stored Harmless Harmless-blank Harmless-Short w.atoi g args h)
        (run_full_command w (suc f)) (run_full_command-Finishes f) s groups h k

  run_shell-Finishes :
      (f : ℕ) (file : Option (List Text)) (writable : Bool) (turns : List Turn)
      → InFile Harmless file
      → All (Typed Allowed) turns
      → Finishes (run_shell w (suc f) file writable turns)
  unfolding run_shell
  run_shell-Finishes f file writable turns h t =
      main_loop-Lands w (Stored Harmless) Anything Allowed (λ s'. ⊥) (suc f)
        (λ g text (short, allowed) stored.
          log_add_command-Stored Harmless Harmless-blank Harmless-Short g (trimmed text)
            (storable text short allowed) stored)
        (λ text (short, allowed) ok.
          Fits-of_AllRunnable (plan (trimmed text))
            (plan-AllRunnable (trimmed text) (Short-trimmed text short) ok))
        (run_pipelines-Finishes f) (start_shell w file writable) turns t
        (start_shell-Kept w (Stored Harmless) file writable
          (initial-Stored Harmless Harmless-blank Harmless-Short file writable h))

Finishes-done : (r : Ran) → Finishes r → (s : Session) × (r ≡ done s) × Kept (Stored Harmless) s
Finishes-done (done s) h = (s, refl, h)
Finishes-done (cut_off s) h = absurd h

-- Where every child of a pipeline that is waited for ends (a stopped one would keep the shell waiting), and the
-- wait for a single child returns, and where the file and the lines typed hold no `log execute`, but for typed
-- lines that begin with `log` and so are not logged, the shell comes to the end of its turns with a nesting of
-- one: `log execute` does not go on for ever.
pub run_shell-ends :
    (w : World) (f : ℕ) (file : Option (List Text)) (writable : Bool) (turns : List Turn)
    → ((i : ℕ) → (w.moment i).answers.children_end ≡ true)
    → InFile Harmless file
    → All (Typed Allowed) turns
    → (s : Session) × (run_shell w (suc f) file writable turns ≡ done s) × Kept (Stored Harmless) s
run_shell-ends w f file writable turns ending h t =
    Finishes-done (run_shell w (suc f) file writable turns)
      (run_shell-Finishes w ending f file writable turns h t)
