-- ===== src/Shell/Session/Loop.antt =====
-- The loop of shell/src/main.c keeps what the lines keep.
use operating_systems_and_ne.Prelude.{
  ℕ, ◌≡◌, refl, arith, Bool, ◌||◌, Option, List, [], ◌∷◌, ◌==◌, map, Text, peek, All, All-append,
  if_ind, success,
}
use operating_systems_and_ne.Shell.Parser.{Verdict, parse_input, accepted, rejected, unfinished}
use operating_systems_and_ne.Shell.Executor.{ParsedCommand, plan}
use operating_systems_and_ne.Shell.Log.{Log, initial, skip_blanks, log_add_command}
use operating_systems_and_ne.Shell.Jobs.{zeroed, init_jobs, WaitStatus, check_background_jobs}
use operating_systems_and_ne.Shell.Jobs.Operations.{
  init_jobs-IsValid, check_background_jobs-IsValid,
}
use operating_systems_and_ne.Shell.Prompt.{init_shell}
use operating_systems_and_ne.Shell.JobControl.{Key, press}
use operating_systems_and_ne.Shell.Pipeline.Idle.{press-idle, check_background_jobs-IsIdle}
use operating_systems_and_ne.Shell.Main.{
  Round, invalid_syntax, executed, process_input, strip_newline,
}
use operating_systems_and_ne.Shell.Session.{
  World, Session, Ran, reports, run_round, take_line, read_line, run_pipelines, run_full_command,
}
use operating_systems_and_ne.Shell.Session.Turns.{
  Input, given, end_of_input, failed, Turn, begin_turn, at_prompt, take_input, main_loop,
  start_shell,
}
use operating_systems_and_ne.Shell.Session.Keeps.{
  Kept, Fits, Lands, IsFine, map-IsFine, put_out-Kept, set_jobs-Kept, set_log-Kept,
  behind_control-Kept, behind_run-Lands,
}

-- Of a line that is typed `T` holds.
abbrev TypedInput : (Text → Type 0) → Input → Type 0
TypedInput T (given text) = T text
TypedInput T _ = Unit

-- The line without its newline and the blanks in front.
abbrev pub trimmed : Text → Text
trimmed text = skip_blanks (strip_newline text)

abbrev pub Typed : (Text → Type 0) → Turn → Type 0
Typed T turn = TypedInput T turn.input

module _ (w : World) (G : Log → Type 0) (A : ParsedCommand → Type 0) (T : Text → Type 0)
    (C : Session → Type 0) (f : ℕ)
    (adds : (g : Log) (text : Text) → T text → G g → G (log_add_command g (trimmed text)))
    (fits : (text : Text)
      → T text
      → parse_input (trimmed text) ≡ accepted
      → All (Fits A) (plan (trimmed text)))
    (runs : (s : Session) (groups : List (List (Option ParsedCommand) × Bool))
      → All (Fits A) groups
      → Kept G s
      → Lands G C (run_pipelines w (run_full_command w f) s groups)) where
  verdict-Lands :
      (s : Session) (text : Text) (v : Verdict)
      → T text
      → parse_input (trimmed text) ≡ v
      → Kept G s
      → Lands G C (
          run_round w f s (elim v as (λ x. Round) [
            | accepted ↦ executed (plan (trimmed text))
            | rejected ↦ invalid_syntax
            | unfinished ↦ invalid_syntax
          ]))
  unfolding run_round
  verdict-Lands s text accepted h e k = runs s (plan (trimmed text)) (fits text h e) k
  verdict-Lands s text rejected h e k = put_out-Kept w G s _ (tt, tt) k
  verdict-Lands s text unfinished h e k = put_out-Kept w G s _ (tt, tt) k

  read_line-Lands :
      (s : Session) (text : Text) → T text → Kept G s → Lands G C (read_line w f s text)
  unfolding read_line take_line process_input
  read_line-Lands s text h k =
      let g = log_add_command s.log (trimmed text) in
      if_ind (Lands G C) (peek (trimmed text) == 0 || peek (trimmed text) == b'#') (λ _. k)
        (λ _.
          verdict-Lands (record s { log = g }) text (parse_input (trimmed text)) h refl
            (set_log-Kept w G s g (adds s.log text h k.log) k))

  begin_turn-Kept :
      (s : Session) (children : List (ℕ × WaitStatus)) → Kept G s → Kept G (begin_turn w s children)
  unfolding begin_turn
  begin_turn-Kept s children k =
      let (jobs, out) = check_background_jobs s.jobs children in
      put_out-Kept w G (record s { jobs = jobs }) _
        (All-append IsFine (map reports out) _ (map-IsFine reports out (λ x. tt)) (tt, tt))
        (set_jobs-Kept w G s jobs (check_background_jobs-IsValid s.jobs children k.jobs)
          (check_background_jobs-IsIdle s.jobs children k.idle) k)

  at_prompt-Kept : (s : Session) (keys : List Key) → Kept G s → Kept G (at_prompt w s keys)
  unfolding at_prompt
  at_prompt-Kept s keys k =
      let same = press-idle s.jobs keys k.idle in
      let (jobs, out) = press s.jobs keys in
      behind_control-Kept w G s (jobs, out, success) (rw same k.jobs) (rw same k.idle) k

  take_input-Lands :
      (s : Session) (next : Session → Ran) (input : Input)
      → TypedInput T input
      → Kept G s
      → ((s' : Session) → Kept G s' → Lands G C (next s'))
      → Lands G C (take_input w f s next input)
  unfolding take_input
  take_input-Lands s next (given text) t k n =
      behind_run-Lands w G C (read_line w f s text) next (read_line-Lands s text t k) n
  take_input-Lands s next end_of_input t k n = put_out-Kept w G s _ (tt, (tt, tt)) k
  take_input-Lands s next failed t k n = n s k

  -- What every line keeps, the shell keeps.
  pub main_loop-Lands :
      (s : Session) (turns : List Turn)
      → All (Typed T) turns
      → Kept G s
      → Lands G C (main_loop w f s turns)
  unfolding main_loop
  main_loop-Lands s [] h k = k
  main_loop-Lands s (turn ∷ turns) h k =
      take_input-Lands _ _ turn.input h.0
        (at_prompt-Kept (begin_turn w s turn.children) turn.keys
          (begin_turn-Kept s turn.children k))
        (λ s' k'. main_loop-Lands s' turns h.1 k')

-- At the start.
pub start_shell-Kept :
    (w : World) (G : Log → Type 0) (file : Option (List Text)) (writable : Bool)
    → G (initial file writable)
    → Kept G (start_shell w file writable)
unfolding start_shell init_shell
start_shell-Kept w G file writable h = record {
  jobs = init_jobs-IsValid zeroed (omega arith) (omega arith);
  idle = unfold init_jobs in refl;
  output = tt;
  log = h;
}
