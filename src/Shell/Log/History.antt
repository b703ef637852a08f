-- ===== src/Shell/Log/History.antt =====
-- What the ring of shell/src/log.c promises: `log_add_command` keeps a bounded history without
-- `log` commands and immediate repetitions, and a restarted shell reads the same history back.
use operating_systems_and_ne.Prelude.{
  ℕ, zero, suc, All, ap, ◌∙◌, ◌<◌, ◌+◌, ◌-◌, ◌%◌, ◌≤◌, ◌≡◌, ◌⊎◌, ◌&&◌, refl, Bool, true, false,
  Option, none, some, List, [], ◌∷◌, ◌++◌, append_assoc, append-nil, arith, Text, length, get_or,
  set, length-set, if◌then◌else◌, text_eq, inl, inr, ltb, ℤ,
}
use operating_systems_and_ne.Shell.Log.{
  Log, max_log_entries, initial, load_lines, load_file, ensure_loaded, slots, history, pieces,
  written, save_log, is_log_command, is_newest, push, log_add_command, cmd_log, run_log,
}
use operating_systems_and_ne.Shell.Log.Ring.{
  IsValid, initial-IsValid, ensure_loaded-IsValid, push-IsValid, save_log-IsValid, slots_succ,
  slots-set_end, length-slots, history-push, remember,
}

-- Whether the last line of a history is `cmd`.
pub ends_with : List Text → Text → Bool
ends_with [] cmd = false
ends_with (x ∷ []) cmd = text_eq x cmd
ends_with (x ∷ y ∷ h) cmd = ends_with (y ∷ h) cmd

ends_with-append : (h : List Text) (x cmd : Text) → ends_with (h ++ x ∷ []) cmd ≡ text_eq x cmd
unfolding ends_with
ends_with-append [] x cmd = refl
ends_with-append (y ∷ []) x cmd = refl
ends_with-append (y ∷ z ∷ h) x cmd = ends_with-append (z ∷ h) x cmd

newest :
    (es : List Text) (s n : ℕ) (cmd : Text)
    → ltb 0 n && text_eq (get_or es ((s + n - 1) % max_log_entries) []) cmd
      ≡ ends_with (slots es s n) cmd
newest es s zero cmd = unfold slots ends_with in refl
newest es s (suc n) cmd = ground (
  arith,
  slots_succ es s n,
  ends_with-append (slots es s n) (get_or es ((s + n) % max_log_entries) []) cmd,
)

-- The history behind one more command line.
pub note : List Text → Text → List Text
note h cmd = if is_log_command cmd then h else if ends_with h cmd then h else remember h cmd

history-save_log : (g : Log) → history (save_log g) ≡ history g
unfolding save_log
history-save_log g = ground arith

-- `log_add_command` behaves as `note` on the history that the log holds once it is loaded: a `log`
-- command and a repetition of the newest line change nothing, any other line joins at the end, and
-- the oldest of fifteen leaves.
pub history-log_add_command :
    (g : Log) (cmd : Text)
    → IsValid g
    → history (log_add_command g cmd) ≡ note (history (ensure_loaded g)) cmd
unfolding log_add_command note is_newest
history-log_add_command g cmd v =
    let g' = ensure_loaded g in
    ground (
      arith,
      newest g'.entries g'.start g'.count cmd,
      history-save_log (push g' cmd),
      history-push g' cmd (ensure_loaded-IsValid g v),
    )

-- The file holds what is read back of the history; there is none as long as nothing was logged.
abbrev pub IsSaved : Log → Type 0
IsSaved g = (g.file ≡ some (written (history g))) ⊎ ((g.file ≡ none) × (history g ≡ []))

load_lines_history :
    (ls es : List Text) (i : ℕ)
    → length es ≡ max_log_entries
    → i + length ls ≤ max_log_entries
    → slots (load_lines ls es i).0 0 (load_lines ls es i).1 ≡ slots es 0 i ++ ls
unfolding load_lines
load_lines_history [] es i size h = rw append-nil
load_lines_history (l ∷ ls) es i size h = ground (
  arith,
  load_lines_history ls (set es i l) (i + 1),
  length-set es i l,
  slots-set_end es i l size,
  append_assoc (slots es 0 i) (l ∷ []) ls,
)

length-history : (g : Log) → IsValid g → length (history g) ≤ max_log_entries
length-history g v = omega (arith, length-slots g.entries g.start g.count)

pub history-load_file :
    (g : Log) (o : Option (List Text)) (h : List Text)
    → IsValid g
    → g.count ≡ 0
    → length h ≤ max_log_entries
    → (o ≡ some h) ⊎ ((o ≡ none) × (h ≡ []))
    → history (load_file g o) ≡ h
unfolding load_file slots
history-load_file g none h v c l s = ground arith
history-load_file g (some ls) h v c l s = ground (arith, load_lines_history ls g.entries 0 v.size)

-- A line that `fgets` reads with its newline.
abbrev pub Brief : Text → Type 0
Brief line = length line < 4095

pub written-same : (h : List Text) → All Brief h → written h ≡ h
unfolding written pieces
written-same [] b = refl
written-same (l ∷ h) b =
    let brief = b.0 in
    let shorter : ltb (length l) 4095 ≡ true = ground arith in rw (shorter, written-same h b.1) refl

saved_lines :
    (g : Log)
    → All Brief (history g)
    → IsSaved g
    → (g.file ≡ some (history g)) ⊎ ((g.file ≡ none) × (history g ≡ []))
saved_lines g b (inl e) = inl (e ∙ ap some (written-same (history g) b))
saved_lines g b (inr e) = inr e

-- A log of brief lines that is written to its file after every change survives a restart: the next shell loads
-- the history that the last one had.
pub restart_history :
    (g : Log) (w : Bool)
    → IsValid g
    → All Brief (history g)
    → IsSaved g
    → history (ensure_loaded (initial g.file w)) ≡ history g
unfolding ensure_loaded initial
restart_history g w v b s =
    history-load_file (initial g.file w) g.file (history g) (initial-IsValid g.file w) refl
      (length-history g v) (saved_lines g b s)

-- The shell's calls on the log: a line typed, or a `log` command with its arguments.
pub data Call : Type 0 where
  typed : Text → Call
  command : List Text → Call

module _ (atoi : Text → ℤ) where
  unfoldable pub call : Log → Call → Log
  call g (typed line) = log_add_command g line
  call g (command args) = (cmd_log atoi g args).0

  -- What every call keeps, once the log is loaded.
  pub record IsReady (g : Log) : Type 0 where
    pub valid : IsValid g
    pub saved : IsSaved g
    pub loaded : g.loaded ≡ true
    pub writable : g.writable ≡ true

  save_log-IsReady :
      (g : Log) → IsValid g → g.loaded ≡ true → g.writable ≡ true → IsReady (save_log g)
  save_log-IsReady g v l w = record {
    valid = save_log-IsValid g v;
    saved = unfold save_log in ground arith;
    loaded = unfold save_log in ground arith;
    writable = unfold save_log in ground arith;
  }

  typed_cases :
      (g : Log) (line : Text)
      → g.loaded ≡ true
      → (log_add_command g line ≡ g) ⊎ (log_add_command g line ≡ save_log (push g line))
  unfolding log_add_command ensure_loaded
  typed_cases g line l = ground arith

  command_cases :
      (g : Log) (args : List Text)
      → g.loaded ≡ true
      → ((cmd_log atoi g args).0 ≡ g)
        ⊎ ((cmd_log atoi g args).0 ≡ save_log (record g { count = 0; start = 0 }))
  unfolding cmd_log run_log ensure_loaded
  command_cases g [] l = ground arith
  command_cases g (a ∷ []) l = ground arith
  command_cases g (a ∷ b ∷ []) l = ground arith
  command_cases g (a ∷ b ∷ c ∷ args) l = ground arith

  pub call-IsReady : (g : Log) (c : Call) → IsReady g → IsReady (call g c)
  unfolding call
  call-IsReady g (typed line) r = elim (typed_cases g line r.loaded) [
    | inl e ↦ rw e r
    | inr e ↦ rw e (
        save_log-IsReady (push g line) (push-IsValid g line r.valid) (unfold push in ground arith)
          (unfold push in ground arith))
  ]
  call-IsReady g (command args) r = elim (command_cases g args r.loaded) [
    | inl e ↦ rw e r
    | inr e ↦ rw e (
        save_log-IsReady (record g { count = 0; start = 0 })
          (record {
            size = r.valid.size;
            count_le = omega arith;
            start_lt = omega arith;
            unwrapped = λ _. refl;
          })
          r.loaded r.writable)
  ]
