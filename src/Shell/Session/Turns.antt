-- ===== src/Shell/Session/Turns.antt =====
-- shell/src/main.c: the main loop, from the start of the shell to the end of its input.
use operating_systems_and_ne.Prelude.{ℕ, Bool, Option, List, [], ◌∷◌, ◌++◌, map, Text, success}
use operating_systems_and_ne.Shell.Log.{initial}
use operating_systems_and_ne.Shell.Jobs.{zeroed, WaitStatus, check_background_jobs}
use operating_systems_and_ne.Shell.JobControl.{Key, press}
use operating_systems_and_ne.Shell.Prompt.{init_shell, display_prompt}
use operating_systems_and_ne.Shell.Session.{
  World, prints, reports, logout, kills_group, Session, Ran, done, ◌>>=◌, put_out, behind_control,
  read_line,
}

-- What `fgets` does: it reads a line, or finds the end of the input, or fails otherwise.
pub data Input : Type 0 where
  given : Text → Input
  end_of_input failed : Input

-- A round of the main loop: the children that `check_background_jobs` finds, the keys pressed at the prompt, and
-- the input.
pub record Turn : Type 0 where
  pub children : List (ℕ × WaitStatus)
  pub keys : List Key
  pub input : Input

module _ (w : World) where
  -- The head of the main loop: the check for background jobs, and the prompt.
  unfoldable pub begin_turn : Session → List (ℕ × WaitStatus) → Session
  unfolding check_background_jobs display_prompt
  begin_turn s children =
      let (jobs, out) = check_background_jobs s.jobs children in
      put_out (record s { jobs = jobs })
        (map reports out ++ prints (display_prompt w.user w.host w.home_dir s.place.cwd) ∷ [])

  -- The handlers of the keys pressed at the prompt.
  unfoldable pub at_prompt : Session → List Key → Session
  unfolding behind_control press
  at_prompt s keys = let (jobs, out) = press s.jobs keys in behind_control s (jobs, out, success)

  -- What is read is run, and the loop goes on unless the input is at its end.
  unfoldable pub take_input : ℕ → Session → (Session → Ran) → Input → Ran
  unfolding read_line
  take_input f s onward (given text) = read_line w f s text >>= onward
  take_input f s onward end_of_input = done (put_out s (logout ∷ kills_group ∷ []))
  take_input f s onward failed = onward s

  -- The loop of `main`; the end of the input ends it.
  unfoldable pub main_loop : ℕ → Session → List Turn → Ran
  unfolding begin_turn at_prompt take_input
  main_loop f s [] = done s
  main_loop f s (turn ∷ turns) =
      take_input f (at_prompt (begin_turn s turn.children) turn.keys) (λ s'. main_loop f s' turns)
        turn.input

  -- The shell as it starts, in `home_dir`, on the file that is found there.
  unfoldable pub start_shell : Option (List Text) → Bool → Session
  unfolding init_shell
  start_shell file writable =
      let shell = init_shell w.home_dir zeroed in
      record {
        log = initial file writable;
        place = shell.place;
        jobs = shell.jobs;
        clock = 0;
        output = [];
      }

  -- `main`
  unfoldable pub run_shell : ℕ → Option (List Text) → Bool → List Turn → Ran
  unfolding start_shell main_loop
  run_shell f file writable turns = main_loop f (start_shell file writable) turns
