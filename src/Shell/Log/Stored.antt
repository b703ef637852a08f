-- ===== src/Shell/Log/Stored.antt =====
-- A property of lines that the ring of shell/src/log.c and its file keep: what holds of every line that comes
-- in holds of every line that `log execute` runs.
use operating_systems_and_ne.Prelude.{
  ℕ, zero, suc, ◌+◌, ◌%◌, ◌≡◌, ◌≤◌, ◌<◌, ap, sym, subst, length, take, drop, All-append, ◌⊎◌, inl,
  inr, refl, Bool, arith, true, not, ◌||◌, Option, none, some, List, [], ◌∷◌, Text, codes, text_eq,
  ltb, set, All, All-set, All-replicate, All-get_or, if_ind, if◌then◌else◌, ℤ, is_pos, pos_part,
}
use operating_systems_and_ne.Shell.Parser.{Verdict, parse_input, accepted, rejected, unfinished}
use operating_systems_and_ne.Shell.Log.{
  Log, initial, max_log_entries, load_lines, load_file, ensure_loaded, slots, pieces, written,
  save_log, is_log_command, is_newest, push, log_add_command, Reply, executes, invalid_line,
  execute_entry, run_log, cmd_log,
}
use operating_systems_and_ne.Shell.Log.Ring.{IsValid, ensure_loaded-IsValid, save_log-IsValid}

abbrev pub InFile : (Text → Type 0) → Option (List Text) → Type 0
InFile P none = Unit
InFile P (some ls) = All P ls

-- Of a line that is executed again `L` holds.
abbrev pub Recalls : (Text → Type 0) → Reply → Type 0
Recalls L (executes line) = L line
Recalls L _ = Unit

-- Every line in the ring and in the file has the property `P`.
pub record Stored (P : Text → Type 0) (g : Log) : Type 0 where
  pub entries : All P g.entries
  pub file : InFile P g.file

load_lines-cons :
    (l : Text) (ls es : List Text) (i : ℕ)
    → load_lines (l ∷ ls) es i
      ≡ (if ltb i max_log_entries then load_lines ls (set es i l) (i + 1) else (es, i))
unfolding load_lines
load_lines-cons l ls es i = ground arith

take_all : (n : ℕ) (l : Text) → length l ≤ n → take n l ≡ l
take_all zero [] h = refl
take_all (suc n) [] h = refl
take_all zero (c ∷ l) h = absurd (omega (arith, h))
take_all (suc n) (c ∷ l) h = ap (λ r. c ∷ r) (take_all n l (omega (arith, h)))

drop_all : (n : ℕ) (l : Text) → length l ≤ n → drop n l ≡ []
drop_all zero [] h = refl
drop_all (suc n) [] h = refl
drop_all zero (c ∷ l) h = absurd (omega (arith, h))
drop_all (suc n) (c ∷ l) h = drop_all n l (omega (arith, h))

module _ (P : Text → Type 0) (blank : P [])
    (fits : (line : Text) → P line → length line < 4096) where
  load_lines-All : (ls es : List Text) (i : ℕ) → All P ls → All P es → All P (load_lines ls es i).0
  load_lines-All [] es i h k = unfold load_lines in k
  load_lines-All (l ∷ ls) es i h k = rw (load_lines-cons l ls es i) (
      if_ind (λ (out : List Text × ℕ). All P out.0) (ltb i max_log_entries)
        (λ _. load_lines-All ls (set es i l) (i + 1) h.1 (All-set P es i l h.0 k)) (λ _. k))

  pub slots-All : (es : List Text) (i n : ℕ) → All P es → All P (slots es i n)
  unfolding slots
  slots-All es i zero k = tt
  slots-All es i (suc n) k =
      (All-get_or P es (i % max_log_entries) [] blank k, slots-All es (i + 1) n k)

  pieces-All : (line : Text) → P line → All P (pieces line)
  unfolding pieces
  pieces-All line h =
      let short = fits line h in
      if_ind (All P) (ltb (length line) 4095) (λ _. (h, tt))
        (λ _. (
          subst P (sym (take_all 4095 line (omega (arith, short)))) h,
          (subst P (sym (drop_all 4095 line (omega (arith, short)))) blank, tt),
        ))

  written-All : (ls : List Text) → All P ls → All P (written ls)
  unfolding written
  written-All [] h = tt
  written-All (l ∷ ls) h =
      All-append P (pieces l) (written ls) (pieces-All l h.0) (written-All ls h.1)

  load_file-Stored :
      (g : Log) (o : Option (List Text)) → InFile P o → Stored P g → Stored P (load_file g o)
  unfolding load_file
  load_file-Stored g none h k = k
  load_file-Stored g (some ls) h k = record {
    entries = load_lines-All ls g.entries 0 h k.entries;
    file = k.file;
  }

  pub ensure_loaded-Stored : (g : Log) → Stored P g → Stored P (ensure_loaded g)
  unfolding ensure_loaded
  ensure_loaded-Stored g k =
      let k' = load_file-Stored g g.file k.file k in
      if_ind (Stored P) g.loaded (λ _. k) (λ _. record { entries = k'.entries; file = k'.file })

  pub save_log-Stored : (g : Log) → Stored P g → Stored P (save_log g)
  unfolding save_log
  save_log-Stored g k =
      if_ind (Stored P) g.writable
        (λ _. record {
          entries = k.entries;
          file = written-All _ (slots-All g.entries g.start g.count k.entries);
        })
        (λ _. k)

  push-Stored : (g : Log) (cmd : Text) → P cmd → Stored P g → Stored P (push g cmd)
  unfolding push
  push-Stored g cmd h k =
      if_ind (Stored P) (ltb g.count max_log_entries)
        (λ _. record { entries = All-set P g.entries g.count cmd h k.entries; file = k.file })
        (λ _. record { entries = All-set P g.entries g.start cmd h k.entries; file = k.file })

  pub initial-Stored :
      (file : Option (List Text)) (writable : Bool)
      → InFile P file
      → Stored P (initial file writable)
  unfolding initial
  initial-Stored file writable h = record {
    entries = All-replicate P max_log_entries [] blank;
    file = h;
  }

  -- A line that begins with `log` is not stored.
  pub log_add_command-Stored :
      (g : Log) (cmd : Text)
      → (is_log_command cmd ≡ true) ⊎ P cmd
      → Stored P g
      → Stored P (log_add_command g cmd)
  unfolding log_add_command
  log_add_command-Stored g cmd (inl e) k = rw e (ensure_loaded-Stored g k)
  log_add_command-Stored g cmd (inr h) k =
      let k' = ensure_loaded-Stored g k in
      if_ind (Stored P) (is_log_command cmd) (λ _. k')
        (λ _.
          if_ind (Stored P) (is_newest (ensure_loaded g) cmd) (λ _. k')
            (λ _.
              save_log-Stored (push (ensure_loaded g) cmd)
                (push-Stored (ensure_loaded g) cmd h k')))

  recalled :
      (line : Text) (v : Verdict)
      → P line
      → parse_input line ≡ v
      → Recalls
          (λ l. P l × (parse_input l ≡ accepted))
          (elim v as (λ x. Reply) [
            | accepted ↦ executes line
            | rejected ↦ invalid_line
            | unfinished ↦ invalid_line
          ])
  recalled line accepted h e = (h, e)
  recalled line rejected h e = tt
  recalled line unfinished h e = tt

  module _ (atoi : Text → ℤ) where
    execute_entry-Recalls :
        (g : Log) (arg : Text)
        → Stored P g
        → Recalls (λ l. P l × (parse_input l ≡ accepted)) (execute_entry atoi g arg)
    unfolding execute_entry
    execute_entry-Recalls g arg k =
        if_ind (Recalls (λ l. P l × (parse_input l ≡ accepted)))
          (not (is_pos (atoi arg)) || ltb g.count (pos_part (atoi arg))) (λ _. tt)
          (λ _. recalled _ _ (All-get_or P g.entries _ [] blank k.entries) refl)

    abbrev Keeps : Log × Reply → Type 0
    Keeps out = Stored P out.0 × Recalls (λ l. P l × (parse_input l ≡ accepted)) out.1

    run_log-Stored : (g : Log) (args : List Text) → Stored P g → Keeps (run_log atoi g args)
    unfolding run_log
    run_log-Stored g [] k = (k, tt)
    run_log-Stored g (a ∷ []) k =
        if_ind Keeps (text_eq a (codes "purge"))
          (λ _. (
            save_log-Stored (record g { count = 0; start = 0 })
                (record { entries = k.entries; file = k.file }),
            tt,
          ))
          (λ _. (k, tt))
    run_log-Stored g (a ∷ b ∷ []) k =
        if_ind Keeps (text_eq a (codes "execute")) (λ _. (k, execute_entry-Recalls g b k))
          (λ _. (k, tt))
    run_log-Stored g (a ∷ b ∷ c ∷ args) k = (k, tt)

    -- `log` keeps the property, and the line that it executes has it and is accepted.
    pub cmd_log-Stored :
        (g : Log) (args : List Text)
        → Stored P g
        → Stored P (cmd_log atoi g args).0
          × Recalls (λ l. P l × (parse_input l ≡ accepted)) (cmd_log atoi g args).1
    unfolding cmd_log
    cmd_log-Stored g args k = run_log-Stored (ensure_loaded g) args (ensure_loaded-Stored g k)

module _ (atoi : Text → ℤ) where
  run_log-IsValid : (g : Log) (args : List Text) → IsValid g → IsValid (run_log atoi g args).0
  unfolding run_log
  run_log-IsValid g [] v = v
  run_log-IsValid g (a ∷ []) v =
      if_ind (λ (out : Log × Reply). IsValid out.0) (text_eq a (codes "purge"))
        (λ _.
          save_log-IsValid (record g { count = 0; start = 0 })
            (record {
              size = v.size;
              count_le = omega arith;
              start_lt = omega arith;
              unwrapped = λ _. refl;
            }))
        (λ _. v)
  run_log-IsValid g (a ∷ b ∷ []) v =
      if_ind (λ (out : Log × Reply). IsValid out.0) (text_eq a (codes "execute")) (λ _. v) (λ _. v)
  run_log-IsValid g (a ∷ b ∷ c ∷ args) v = v

  pub cmd_log-IsValid : (g : Log) (args : List Text) → IsValid g → IsValid (cmd_log atoi g args).0
  unfolding cmd_log
  cmd_log-IsValid g args v = run_log-IsValid (ensure_loaded g) args (ensure_loaded-IsValid g v)
