-- ===== src/Shell/Session/Safe.antt =====
-- What the shell of shell/src keeps from its start on, over whatever lines, keys and children.
use operating_systems_and_ne.Prelude.{
  ℕ, zero, suc, ◌<◌, ◌≡◌, arith, inr, Bool, Option, none, some, List, [], ◌∷◌, Text, length, All,
}
use operating_systems_and_ne.Shell.Parser.{parse_input, accepted}
use operating_systems_and_ne.Shell.Executor.{ParsedCommand, plan}
use operating_systems_and_ne.Shell.Executor.Runnable.{AllRunnable, plan-AllRunnable}
use operating_systems_and_ne.Shell.Log.{Log, initial, log_add_command, cmd_log}
use operating_systems_and_ne.Shell.Log.Ring
use operating_systems_and_ne.Shell.Log.Stored.{
  InFile, Recalls, Stored, log_add_command-Stored, cmd_log-Stored, cmd_log-IsValid, initial-Stored,
}
use operating_systems_and_ne.Shell.Main.{strip_newline}
use operating_systems_and_ne.Shell.Main.Rounds.{length-skip_blanks, length-strip_newline}
use operating_systems_and_ne.Shell.Session.{
  World, Session, Ran, done, cut_off, reached, run_full_command,
}
use operating_systems_and_ne.Shell.Session.Turns.{Turn, main_loop, start_shell, run_shell}
use operating_systems_and_ne.Shell.Session.Keeps.{Kept, Asks, Fits, Lands}
use operating_systems_and_ne.Shell.Session.Runs.{run_pipelines-Lands}
use operating_systems_and_ne.Shell.Session.Loop.{Typed, trimmed, main_loop-Lands, start_shell-Kept}

-- A line that `fgets` reads into its buffer.
abbrev pub Short : Text → Type 0
Short line = length line < 4096

pub Short-trimmed : (text : Text) → Short text → Short (trimmed text)
Short-trimmed text h =
    omega (arith, length-skip_blanks (strip_newline text), length-strip_newline text)

-- Nothing is asked of a command.
abbrev pub Anything : ParsedCommand → Type 0
Anything cmd = Unit

Asks-Anything : (cmds : List (Option ParsedCommand)) → Asks Anything cmds
Asks-Anything [] = tt
Asks-Anything (none ∷ []) = tt
Asks-Anything (some cmd ∷ []) = tt
Asks-Anything (cmd ∷ other ∷ cmds) = tt

pub Fits-of_AllRunnable :
    (groups : List (List (Option ParsedCommand) × Bool))
    → AllRunnable groups
    → All (Fits Anything) groups
Fits-of_AllRunnable [] h = tt
Fits-of_AllRunnable ((cmds, background) ∷ groups) h =
    ((h.0, Asks-Anything cmds), Fits-of_AllRunnable groups h.1)

reached-Kept : (G : Log → Type 0) (r : Ran) → Lands G (Kept G) r → Kept G (reached r)
reached-Kept G (done s) h = h
reached-Kept G (cut_off s) h = h

module _ (P : Text → Type 0) (blank : P []) (fitting : (line : Text) → P line → Short line)
    (trims : (text : Text) → P text → P (trimmed text)) (w : World) (H : Log → Type 0)
    (adds : (g : Log) (line : Text) → H g → H (log_add_command g line))
    (commands : (g : Log) (args : List Text) → H g → H (cmd_log w.atoi g args).0) where
  -- The property of the log, and that of its lines.
  abbrev pub Lasts : Log → Type 0
  Lasts g = H g × Stored P g

  -- A line that `log execute` runs.
  abbrev Storable : Text → Type 0
  Storable line = P line × (parse_input line ≡ accepted)

  recalls :
      (g : Log) (args : List Text)
      → Lasts g
      → Lasts (cmd_log w.atoi g args).0 × Recalls Storable (cmd_log w.atoi g args).1
  recalls g args (h, k) =
      let stored = cmd_log-Stored P blank fitting w.atoi g args k in
      ((commands g args h, stored.0), stored.1)

  run_full_command-Lasts :
      (f : ℕ) (s : Session) (line : Text)
      → Kept Lasts s
      → Storable line
      → Lands Lasts (Kept Lasts) (run_full_command w f s line)
  unfolding run_full_command
  run_full_command-Lasts zero s line k h = k
  run_full_command-Lasts (suc f) s line k (short, ok) =
      run_pipelines-Lands w Lasts Anything Storable (Kept Lasts) (inr (λ s' k'. k'))
        (λ g cmd args h a r e. recalls g args h) (run_full_command w f) (run_full_command-Lasts f) s
        (plan line)
        (Fits-of_AllRunnable (plan line) (plan-AllRunnable line (fitting line short) ok)) k

  main_loop-Lasts :
      (f : ℕ) (s : Session) (turns : List Turn)
      → All (Typed P) turns
      → Kept Lasts s
      → Kept Lasts (reached (main_loop w f s turns))
  main_loop-Lasts f s turns h k = reached-Kept Lasts (main_loop w f s turns) (
      main_loop-Lands w Lasts Anything P (Kept Lasts) f
        (λ g text short (k, stored). (
          adds g (trimmed text) k,
          log_add_command-Stored P blank fitting g (trimmed text) (inr (trims text short)) stored,
        ))
        (λ text short ok.
          Fits-of_AllRunnable (plan (trimmed text))
            (plan-AllRunnable (trimmed text) (Short-trimmed text (fitting text short)) ok))
        (λ s groups fits k.
          run_pipelines-Lands w Lasts Anything Storable (Kept Lasts) (inr (λ s' k'. k'))
            (λ g cmd args h a r e. recalls g args h) (run_full_command w f)
            (run_full_command-Lasts f) s groups fits k)
        s turns h k)

  -- At the start, on a file of lines that fit the buffer.
  pub run_shell-Lasts :
      (f : ℕ) (file : Option (List Text)) (writable : Bool) (turns : List Turn)
      → InFile P file
      → H (initial file writable)
      → All (Typed P) turns
      → Kept Lasts (reached (run_shell w f file writable turns))
  unfolding run_shell
  run_shell-Lasts f file writable turns short h typed =
      main_loop-Lasts f (start_shell w file writable) turns typed (
        start_shell-Kept w Lasts file writable
          (h, initial-Stored P blank fitting file writable short))

-- The table of jobs and the ring are well formed, every line of the log fits the buffer, no process is in the
-- foreground, and every pipeline that was started was defined.
abbrev pub IsSafe : Session → Type 0
IsSafe = Kept (λ g. Ring.IsValid g × Stored Short g)

-- From its start on, whatever lines are typed, keys pressed, children reported and logged lines executed, and
-- however deep these nest, the shell keeps the table of jobs and the ring of the log well formed and has no
-- process in the foreground between two commands, and no pipeline that it starts reads an uninitialised
-- `pids[i]`.
pub run_shell-IsSafe :
    (w : World) (f : ℕ) (file : Option (List Text)) (writable : Bool) (turns : List Turn)
    → InFile Short file
    → All (Typed Short) turns
    → IsSafe (reached (run_shell w f file writable turns))
run_shell-IsSafe w f file writable turns short h =
    run_shell-Lasts Short (omega arith) (λ line h. h) Short-trimmed w Ring.IsValid
      Ring.log_add_command-IsValid (cmd_log-IsValid w.atoi) f file writable turns short
      (Ring.initial-IsValid file writable) h
