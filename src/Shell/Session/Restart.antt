-- ===== src/Shell/Session/Restart.antt =====
-- The log of shell/src/log.c over whole sessions: what one shell leaves in the file, the next one finds.
use operating_systems_and_ne.Prelude.{
  ℕ, ◌≤◌, ◌≡◌, refl, ap, ◌∙◌, sym, subst, arith, inl, inr, true, Option, none, some, List, [], Text,
  length, All, ℤ,
}
use operating_systems_and_ne.Shell.Log.{
  written, Log, initial, max_log_entries, load_log, load_file, ensure_loaded, history,
  log_add_command, cmd_log,
}
use operating_systems_and_ne.Shell.Log.Ring.{
  loaded-same, ensure_loaded_loaded, log_add_command_loaded, ensure_loaded-IsValid, initial-IsValid,
}
use operating_systems_and_ne.Shell.Log.History.{
  IsReady, IsSaved, Brief, written-same, typed, command, call, call-IsReady, history-load_file,
  restart_history,
}
use operating_systems_and_ne.Shell.Log.Stored.{InFile, ensure_loaded-Stored, slots-All}
use operating_systems_and_ne.Shell.Session.{World, reached}
use operating_systems_and_ne.Shell.Session.Turns.{Turn, run_shell}
use operating_systems_and_ne.Shell.Session.Loop.{Typed, trimmed}
use operating_systems_and_ne.Shell.Main.{strip_newline}
use operating_systems_and_ne.Shell.Main.Rounds.{length-skip_blanks, length-strip_newline}
use operating_systems_and_ne.Shell.Session.Safe.{Short, run_shell-Lasts}

load_file_file : (g : Log) (o : Option (List Text)) → (load_file g o).file ≡ g.file
unfolding load_file
load_file_file g none = refl
load_file_file g (some ls) = refl

load_file_writable : (g : Log) (o : Option (List Text)) → (load_file g o).writable ≡ g.writable
unfolding load_file
load_file_writable g none = refl
load_file_writable g (some ls) = refl

ensure_loaded_file : (g : Log) → (ensure_loaded g).file ≡ g.file
unfolding ensure_loaded
ensure_loaded_file g = ground (arith, load_file_file g g.file)

cmd_log_loaded :
    (atoi : Text → ℤ) (g : Log) (args : List Text)
    → (cmd_log atoi g args).0 ≡ (cmd_log atoi (ensure_loaded g) args).0
unfolding cmd_log
cmd_log_loaded atoi g args = rw (loaded-same (ensure_loaded g) (ensure_loaded_loaded g)) refl

module _ (atoi : Text → ℤ) where
  -- Once it is loaded, the log agrees with its file.
  abbrev Agrees : Log → Type 0
  Agrees g = IsReady atoi (ensure_loaded g)

  Agrees-of_IsReady : (g : Log) → IsReady atoi g → Agrees g
  Agrees-of_IsReady g r = subst (IsReady atoi) (sym (loaded-same g r.loaded)) r

  log_add_command-Agrees : (g : Log) (line : Text) → Agrees g → Agrees (log_add_command g line)
  log_add_command-Agrees g line r = Agrees-of_IsReady (log_add_command g line) (
      subst (IsReady atoi) (sym (log_add_command_loaded g line))
        (unfold call in (call-IsReady atoi (ensure_loaded g) (typed line) r)))

  cmd_log-Agrees : (g : Log) (args : List Text) → Agrees g → Agrees (cmd_log atoi g args).0
  cmd_log-Agrees g args r = Agrees-of_IsReady (cmd_log atoi g args).0 (
      subst (IsReady atoi) (sym (cmd_log_loaded atoi g args))
        (unfold call in (call-IsReady atoi (ensure_loaded g) (command args) r)))

-- The file holds no more lines than the ring.
abbrev pub IsFew : Option (List Text) → Type 0
IsFew none = Unit
IsFew (some ls) = length ls ≤ max_log_entries

initial-IsSaved :
    (file : Option (List Text))
    → InFile Brief file
    → IsFew file
    → IsSaved (ensure_loaded (initial file true))
unfolding ensure_loaded load_log initial
initial-IsSaved none short few = inr (
  refl,
  history-load_file (initial none true) none [] (initial-IsValid none true) refl (omega arith)
      (inr (refl, refl)),
)
initial-IsSaved (some ls) short few = inl (
    ap some (
      sym (
        ap written (
          history-load_file (initial (some ls) true) (some ls) ls (initial-IsValid (some ls) true)
            refl few (inl refl))
        ∙ written-same ls short)))

initial-Agrees :
    (atoi : Text → ℤ) (file : Option (List Text))
    → InFile Brief file
    → IsFew file
    → Agrees atoi (initial file true)
initial-Agrees atoi file short few = record {
  valid = ensure_loaded-IsValid (initial file true) (initial-IsValid file true);
  saved = initial-IsSaved file short few;
  loaded = ensure_loaded_loaded (initial file true);
  writable = unfold ensure_loaded load_log initial in (load_file_writable (initial file true) file);
}

Brief-Short : (line : Text) → Brief line → Short line
Brief-Short line h = omega (arith, h)

Brief-trimmed : (text : Text) → Brief text → Brief (trimmed text)
Brief-trimmed text h =
    omega (arith, length-skip_blanks (strip_newline text), length-strip_newline text)

-- Whatever lines of less than 4095 bytes are typed and logged lines executed in a shell that starts on a writable
-- file of at most fifteen such lines, or on none, and as long as no other process writes to this file, a shell
-- that is started on the file that it leaves loads the history that it had.
pub run_shell-restart :
    (w : World) (f : ℕ) (file : Option (List Text)) (turns : List Turn)
    → InFile Brief file
    → IsFew file
    → All (Typed Brief) turns
    → history (ensure_loaded (initial (reached (run_shell w f file true turns)).log.file true))
      ≡ history (ensure_loaded (reached (run_shell w f file true turns)).log)
run_shell-restart w f file turns short few h =
    let adds = log_add_command-Agrees w.atoi in
    let commands = cmd_log-Agrees w.atoi in
    let kept =
      run_shell-Lasts Brief (omega arith) Brief-Short Brief-trimmed w (Agrees w.atoi) adds commands
        f file true turns short (initial-Agrees w.atoi file short few) h in
    let g = (reached (run_shell w f file true turns)).log in
    let stored = ensure_loaded-Stored Brief (omega arith) Brief-Short g kept.log.1 in
    let brief = slots-All Brief (omega arith) Brief-Short _ _ _ stored.entries in
    ap (λ o. history (ensure_loaded (initial o true))) (sym (ensure_loaded_file g))
    ∙ restart_history (ensure_loaded g) true kept.log.0.valid brief kept.log.0.saved
