-- ===== src/Shell/Tests/Sessions.antt =====
-- Concrete sessions of the whole shell, for shell/src/main.c.
use operating_systems_and_ne.Prelude.{
  ℕ, ℕ, ◌++◌, ◌≡◌, inl, inr, refl, arith, true, false, text_eq, Option, none, some, List, [], ◌∷◌,
  Text, codes, is_space, pos,
}
use operating_systems_and_ne.Shell.Parser.{
  parse_input, accepted, skip_whitespace, parse_cmd_group, parse_atomic, parse_name, scan_name,
  is_name_char, parse_items, parse_item, parse_pipes, parse_groups,
}
use operating_systems_and_ne.Shell.Executor.{
  plan, split_groups, cut, first_group, later_groups, group, trim_end, keep_unless_blank,
  pipeline_of, split_pipes, parse_command, parse_words, next_word, parse_word, scan_word,
  is_word_char, with_argument,
}
use operating_systems_and_ne.Shell.Log.{
  initial, history, ensure_loaded, is_log_command, skip_blanks,
}
use operating_systems_and_ne.Shell.Jobs.{
  exited, new_job, running, exited_abnormally, init_jobs, clear, find_slot, get_job_by_pid,
}
use operating_systems_and_ne.Shell.Jobs.Table.{lookup}
use operating_systems_and_ne.Shell.Jobs.Lifecycle.{IsRoom}
use operating_systems_and_ne.Shell.Run.{in_background, child, run_child, is_intrinsic}
use operating_systems_and_ne.Shell.Pipeline.{single}
use operating_systems_and_ne.Shell.Prompt.{init_shell, display_prompt}
use operating_systems_and_ne.Shell.Session.Background.{IsLaunched, take_line-Background}
use operating_systems_and_ne.Shell.Main.{strip_newline}
use operating_systems_and_ne.Shell.JobControl.{ctrl_c, ctrl_z}
use operating_systems_and_ne.Shell.Session.{
  World, Moment, Session, done, reached, take_line, tells, starts, reports, prints,
}
use operating_systems_and_ne.Shell.Session.Keeps.{Kept}
use operating_systems_and_ne.Shell.Log.Stored.{Stored}
use operating_systems_and_ne.Shell.Session.Turns.{
  Turn, given, end_of_input, failed, start_shell, begin_turn, run_shell,
}
use operating_systems_and_ne.Shell.Session.Safe.{IsSafe, run_shell-IsSafe}
use operating_systems_and_ne.Shell.Session.Restart.{run_shell-restart}
use operating_systems_and_ne.Shell.Session.Ends.{Harmless, IsQuiet, run_shell-ends}
use operating_systems_and_ne.Shell.Session.CutOff.{IsCutOff}
use operating_systems_and_ne.Shell.Session.Diverges.{Holds, take_line-IsCutOff}
use operating_systems_and_ne.Shell.Tests.Tables.{all_open}
use operating_systems_and_ne.Shell.Tests.Pipelines.{answers}

abbrev moment : ℕ → Moment
moment i = record {
  files = all_open;
  answers = answers i;
  delivered = true;
  chdir = λ cwd target. some target;
  read_dir = λ dir. some (codes "a" ∷ codes ".b" ∷ []);
}

-- `atoi` and `strtol`, for the text "1".
abbrev world : World
world = record {
  atoi = λ s. pos 1;
  strtol = λ s. (pos 1, []);
  qsort = λ cmp names. names;
  home_dir = codes "/home/u";
  user = codes "u";
  host = codes "h";
  moment = moment;
}

-- A pipeline is typed, the last line is executed again, and a job ends.
abbrev turns : List Turn
turns =
    record { children = []; keys = ctrl_c ∷ []; input = given (codes "ls | wc &") }
    ∷ record { children = []; keys = ctrl_z ∷ []; input = given (codes "log execute 1") }
    ∷ record { children = (51, exited 0) ∷ []; keys = []; input = failed }
    ∷ record { children = []; keys = []; input = end_of_input }
    ∷ []

abbrev old_file : Option (List Text)
old_file = some (codes "pwd" ∷ [])

run_shell-IsSafe_example : IsSafe (reached (run_shell world 3 old_file true turns))
run_shell-IsSafe_example =
    run_shell-IsSafe world 3 old_file true turns (omega arith, tt)
      (omega arith, (omega arith, (tt, (tt, tt))))

run_shell-restart_example :
    history
      (ensure_loaded (initial (reached (run_shell world 3 old_file true turns)).log.file true))
    ≡ history (ensure_loaded (reached (run_shell world 3 old_file true turns)).log)
run_shell-restart_example =
    run_shell-restart world 3 old_file turns (omega arith, tt) (omega arith)
      (omega arith, (omega arith, (tt, (tt, tt))))

IsQuiet-pwd : IsQuiet (codes "pwd")
unfolding plan split_groups cut first_group group trim_end keep_unless_blank pipeline_of split_pipes
    parse_command parse_words next_word parse_word scan_word is_word_char with_argument
    skip_whitespace is_space
IsQuiet-pwd = (refl, tt)

IsQuiet-pipeline : IsQuiet (codes "ls | wc &")
unfolding plan split_groups cut first_group later_groups group trim_end keep_unless_blank
    pipeline_of split_pipes parse_command parse_words next_word parse_word scan_word is_word_char
    with_argument skip_whitespace is_space
IsQuiet-pipeline = (tt, tt)

run_shell-ends_example :
    (s : Session) × (run_shell world 1 old_file true turns ≡ done s) × Kept (Stored Harmless) s
run_shell-ends_example =
    run_shell-ends world 0 old_file true turns (λ i. refl) ((omega arith, IsQuiet-pwd), tt)
      (
        (omega arith, inr (unfold strip_newline skip_blanks in IsQuiet-pipeline)),
        (
          (omega arith, inl (unfold strip_newline skip_blanks is_log_command text_eq in refl)),
          (tt, (tt, tt)),
        ),
      )

abbrev endless : Text
endless = codes "true; log execute 1"

endless-Holds : Holds endless (codes "execute" ∷ codes "1" ∷ [])
unfolding plan split_groups cut first_group later_groups group trim_end keep_unless_blank
    pipeline_of split_pipes parse_command parse_words next_word parse_word scan_word is_word_char
    with_argument skip_whitespace is_space text_eq
endless-Holds = record {
  before =
      (
        (some (record {
          args = codes "true" ∷ [];
          input_file = none;
          output_file = none;
          append_output = false;
        })
            ∷ []),
        false,
      )
      ∷ [];
  command = record {
    args = codes "log" ∷ codes "execute" ∷ codes "1" ∷ [];
    input_file = none;
    output_file = none;
    append_output = false;
  };
  at_end = false;
  after = [];
  cut_there = refl;
  leaves = (refl, tt);
  names = refl;
  bare = refl;
}

accepted_endless : parse_input endless ≡ accepted
unfolding parse_input skip_whitespace is_space parse_cmd_group parse_atomic parse_name scan_name
    is_name_char parse_items parse_item parse_pipes parse_groups
accepted_endless = refl

begun-IsSafe : IsSafe (start_shell world old_file true)
unfolding start_shell run_shell
begun-IsSafe = run_shell-IsSafe world 0 old_file true [] (omega arith, tt) tt

take_line-IsCutOff_example : IsCutOff (take_line world 7 (start_shell world old_file true) endless)
take_line-IsCutOff_example =
    take_line-IsCutOff world 7 (start_shell world old_file true) endless (codes "1") begun-IsSafe
      (omega arith) accepted_endless (unfold is_log_command skip_blanks text_eq in refl)
      endless-Holds refl

abbrev launched_line : Text
launched_line = codes "sleep 9 &"

accepted_launch : parse_input launched_line ≡ accepted
unfolding parse_input skip_whitespace is_space parse_cmd_group parse_atomic parse_name scan_name
    is_name_char parse_items parse_item parse_pipes parse_groups
accepted_launch = refl

launch : IsLaunched world (start_shell world old_file true) launched_line (codes "sleep") 7
unfolding plan split_groups cut first_group later_groups group trim_end keep_unless_blank
    pipeline_of split_pipes parse_command parse_words next_word parse_word scan_word is_word_char
    with_argument skip_whitespace is_space is_intrinsic text_eq start_shell
launch = record {
  command = record {
    args = codes "sleep" ∷ codes "9" ∷ [];
    input_file = none;
    output_file = none;
    append_output = false;
  };
  args = codes "9" ∷ [];
  planned = refl;
  named = refl;
  external = refl;
  forked = refl;
}

room : IsRoom (start_shell world old_file true).jobs 7 0
unfolding start_shell init_shell init_jobs clear find_slot get_job_by_pid
room = record { free = refl; unused = refl }

take_line-Background_example :
    (s' : Session) × (take_line world 1 (start_shell world old_file true) launched_line ≡ done s')
    × (s'.output
        ≡ (start_shell world old_file true).output
          ++ tells (in_background (pos (start_shell world old_file true).jobs.next_job_id) 7)
            ∷ starts (single (child (run_child all_open launch.command true)))
            ∷ [])
    × (lookup s'.jobs.table (start_shell world old_file true).jobs.next_job_id
        ≡ some (new_job (start_shell world old_file true).jobs 7 (codes "sleep") running))
    × ((begin_turn world s' ((7, exited 1) ∷ [])).output
        ≡ s'.output
          ++ reports (exited_abnormally (codes "sleep") 7)
            ∷ prints (display_prompt (codes "u") (codes "h") (codes "/home/u") s'.place.cwd)
            ∷ [])
    × ((id : ℕ)
        → lookup (begin_turn world s' ((7, exited 1) ∷ [])).jobs.table id
          ≡ lookup (start_shell world old_file true).jobs.table id)
take_line-Background_example =
    take_line-Background world 1 (start_shell world old_file true) launched_line (codes "sleep") 7 0
      (exited 1) begun-IsSafe accepted_launch launch room tt
