-- ===== src/Shell/Log.antt =====
-- shell/src/log.c: the command history, a ring of fifteen lines that is kept in a file.
-- The file is what `fopen` finds: its lines, or nothing; `writable` says whether it can be opened
-- for writing. The lines are the ones that `fgets` reads back: what does not fit its buffer is a line of its own.
pub mod Ring
pub mod History
pub mod Stored
pub mod Newest
use operating_systems_and_ne.Prelude.{
  ℕ, zero, suc, ◌+◌, ◌-◌, ◌%◌, Bool, true, false, not, ◌&&◌, ◌||◌, Option, none, some, List, [],
  ◌∷◌, ◌++◌, ◌==◌, ltb, if◌then◌else◌, Text, codes, peek, advance, text_eq, length, get_or, set,
  take, ℤ, is_pos, pos_part, Status, success, failure, replicate, drop,
}
use operating_systems_and_ne.Shell.Parser.{Verdict, accepted, rejected, unfinished, parse_input}

abbrev pub max_log_entries : ℕ
max_log_entries = 15

-- The static variables, and the file `.shell_log`.
pub record Log : Type 0 where
  pub entries : List Text
  pub count : ℕ
  pub start : ℕ
  pub loaded : Bool
  pub file : Option (List Text)
  pub writable : Bool

-- The program's start: zeroed variables.
unfoldable pub initial : Option (List Text) → Bool → Log
initial file writable = record {
  entries = replicate max_log_entries [];
  count = 0;
  start = 0;
  loaded = false;
  file = file;
  writable = writable;
}

-- The loop of `load_log`: the slots and `log_count`.
unfoldable pub load_lines : List Text → List Text → ℕ → List Text × ℕ
load_lines [] es i = (es, i)
load_lines (l ∷ ls) es i = elim (ltb i max_log_entries) [
  | true ↦ load_lines ls (set es i l) (i + 1)
  | false ↦ (es, i)
]

-- `load_log`, by what `fopen` finds.
unfoldable pub load_file : Log → Option (List Text) → Log
load_file g none = g
load_file g (some ls) =
    let loaded = load_lines ls g.entries 0 in
    record g { entries = loaded.0; count = loaded.1; start = 0 }

unfoldable pub load_log : Log → Log
unfolding load_file
load_log g = load_file g g.file

-- "Load log on first use"
unfoldable pub ensure_loaded : Log → Log
unfolding load_log
ensure_loaded g = if g.loaded then g else record (load_log g) { loaded = true }

-- The `n` entries from `(start + i) % MAX_LOG_ENTRIES` on, as the loops of `save_log` and
-- `cmd_log` visit them.
unfoldable pub slots : List Text → ℕ → ℕ → List Text
slots es i zero = []
slots es i (suc n) = get_or es (i % max_log_entries) [] ∷ slots es (i + 1) n

-- The history, oldest first.
abbrev pub history : Log → List Text
history g = slots g.entries g.start g.count

-- What `fgets` reads back of an entry and its newline: it takes 4095 bytes at a time.
unfoldable pub pieces : Text → List Text
pieces entry =
    if ltb (length entry) 4095 then entry ∷ [] else take 4095 entry ∷ drop 4095 entry ∷ []

-- What is read back of the entries that the loop of `save_log` writes.
unfoldable pub written : List Text → List Text
unfolding pieces
written [] = []
written (entry ∷ entries) = pieces entry ++ written entries

-- `save_log`
unfoldable pub save_log : Log → Log
unfolding written
save_log g = if g.writable then record g { file = some (written (history g)) } else g

-- Skips blanks and tabs, as `log_add_command` and `main` do.
unfoldable pub skip_blanks : Text → Text
skip_blanks [] = []
skip_blanks (c ∷ cs) = elim (c == b' ' || c == b'\t') [ true ↦ skip_blanks cs | false ↦ c ∷ cs ]

-- Whether the command's first word is `log`: it is not logged.
unfoldable pub is_log_command : Text → Bool
unfolding skip_blanks text_eq
is_log_command cmd =
    let trimmed = skip_blanks cmd in
    let c = peek (drop 3 trimmed) in
    text_eq (take 3 trimmed) (codes "log") && (c == 0 || c == b' ' || c == b'\t')

-- Whether the command is the newest entry.
unfoldable pub is_newest : Log → Text → Bool
unfolding text_eq
is_newest g cmd =
    ltb 0 g.count && text_eq (get_or g.entries ((g.start + g.count - 1) % max_log_entries) []) cmd

-- "Add to ring buffer"
unfoldable pub push : Log → Text → Log
push g cmd =
    if ltb g.count max_log_entries
    then record g { entries = set g.entries g.count cmd; count = g.count + 1 }
    else record g { entries = set g.entries g.start cmd; start = (g.start + 1) % max_log_entries }

-- `log_add_command`
unfoldable pub log_add_command : Log → Text → Log
log_add_command g cmd =
    let g' = ensure_loaded g in
    if is_log_command cmd then g' else if is_newest g' cmd then g' else save_log (push g' cmd)

-- What `cmd_log` does besides changing the log: what it prints, or which line it executes.
pub data Reply : Type 0 where
  printed : List Text → Reply
  purged invalid_index invalid_line invalid_syntax : Reply
  executes : Text → Reply

-- `atoi` of the C library is a parameter.
module _ (atoi : Text → ℤ) where
  -- `log execute <index>`: newest first, from 1.
  unfoldable pub execute_entry : Log → Text → Reply
  execute_entry g arg =
      let index = atoi arg in
      if not (is_pos index) || ltb g.count (pos_part index)
      then invalid_index
      else let line =
          get_or g.entries ((g.start + g.count - pos_part index) % max_log_entries) [] in
        elim (parse_input line) [ accepted ↦ executes line | _ ↦ invalid_line ]

  -- `cmd_log`; the list is `argv[1]`, `argv[2]`, ….
  unfoldable pub run_log : Log → List Text → Log × Reply
  unfolding text_eq
  run_log g [] = (g, printed (history g))
  run_log g (a ∷ []) =
      if text_eq a (codes "purge")
      then (save_log (record g { count = 0; start = 0 }), purged)
      else (g, invalid_syntax)
  run_log g (a ∷ b ∷ []) =
      if text_eq a (codes "execute") then (g, execute_entry g b) else (g, invalid_syntax)
  run_log g (a ∷ b ∷ c ∷ args) = (g, invalid_syntax)

  unfoldable pub cmd_log : Log → List Text → Log × Reply
  cmd_log g args = run_log (ensure_loaded g) args
