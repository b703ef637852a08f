-- ===== src/Shell/Log/Newest.antt =====
-- `log execute 1` of shell/src/log.c runs the line that was typed last.
use operating_systems_and_ne.Prelude.{
  ◌+◌, ◌-◌, ◌%◌, ◌<◌, ◌≡◌, refl, subst, ap, ◌∙◌, sym, arith, true, false, not, ◌||◌, [], ◌∷◌, Text,
  codes, text_eq, text_eq_iff, ltb, get_or, set, get_or-set_self, if_ind, ℤ, pos, is_pos, pos_part,
}
use operating_systems_and_ne.Shell.Parser.{parse_input, accepted}
use operating_systems_and_ne.Shell.Log.{
  Log, max_log_entries, ensure_loaded, save_log, is_log_command, is_newest, push, log_add_command,
  executes, execute_entry, run_log, cmd_log,
}
use operating_systems_and_ne.Shell.Log.Ring.{
  IsValid, loaded-same, ensure_loaded_loaded, log_add_command_loaded, ensure_loaded-IsValid,
}

-- The line is the newest entry.
pub record Newest (line : Text) (g : Log) : Type 0 where
  pub loaded : g.loaded ≡ true
  pub some_entry : 0 < g.count
  pub entry : get_or g.entries ((g.start + g.count - 1) % max_log_entries) [] ≡ line

save_log-Newest : (line : Text) (g : Log) → Newest line g → Newest line (save_log g)
unfolding save_log
save_log-Newest line g n =
    if_ind (Newest line) g.writable
      (λ _. record { loaded = n.loaded; some_entry = n.some_entry; entry = n.entry }) (λ _. n)

push-Newest : (line : Text) (g : Log) → IsValid g → g.loaded ≡ true → Newest line (push g line)
unfolding push
push-Newest line g v l =
    if_ind (Newest line) (ltb g.count max_log_entries)
      (λ e.
        let room : g.count < max_log_entries = ground arith in
        let first = v.unwrapped room in
        let here : (g.start + (g.count + 1) - 1) % max_log_entries ≡ g.count = omega arith in
        record {
          loaded = l;
          some_entry = omega arith;
          entry =
              ap (λ k. get_or (set g.entries g.count line) k []) here
              ∙ get_or-set_self g.entries g.count line [] (omega (arith, v.size));
        })
      (λ e.
        let full : g.count ≡ max_log_entries = ground (arith, v.count_le) in
        let start_lt = v.start_lt in
        let here : ((g.start + 1) % max_log_entries + g.count - 1) % max_log_entries ≡ g.start =
          omega arith in
        record {
          loaded = l;
          some_entry = omega arith;
          entry =
              ap (λ k. get_or (set g.entries g.start line) k []) here
              ∙ get_or-set_self g.entries g.start line [] (omega (arith, v.size));
        })

is_newest-Newest :
    (line : Text) (g : Log) → g.loaded ≡ true → is_newest g line ≡ true → Newest line g
unfolding is_newest
is_newest-Newest line g l e =
    let entry = get_or g.entries ((g.start + g.count - 1) % max_log_entries) [] in
    record {
      loaded = l;
      some_entry = ground arith;
      entry = (text_eq_iff entry line).0 (ground arith);
    }

add_loaded-Newest :
    (g : Log) (line : Text)
    → IsValid g
    → g.loaded ≡ true
    → is_log_command line ≡ false
    → Newest line (log_add_command g line)
unfolding log_add_command
add_loaded-Newest g line v l n =
    rw (loaded-same g l, n)
      (if_ind (Newest line) (is_newest g line) (λ e. is_newest-Newest line g l e)
        (λ e. save_log-Newest line (push g line) (push-Newest line g v l)))

-- Behind `log_add_command` the line is the newest entry, unless it begins with `log`.
pub log_add_command-Newest :
    (g : Log) (line : Text)
    → IsValid g
    → is_log_command line ≡ false
    → Newest line (log_add_command g line)
log_add_command-Newest g line v n = subst (Newest line) (sym (log_add_command_loaded g line)) (
    add_loaded-Newest (ensure_loaded g) line (ensure_loaded-IsValid g v) (ensure_loaded_loaded g) n)

execute_entry-Newest :
    (atoi : Text → ℤ) (g : Log) (line index : Text)
    → Newest line g
    → atoi index ≡ pos 1
    → parse_input line ≡ accepted
    → execute_entry atoi g index ≡ executes line
unfolding execute_entry
execute_entry-Newest atoi g line index n i ok =
    let inside : ltb g.count 1 ≡ false = ground (arith, n.some_entry) in
    let allowed : (not (is_pos (atoi index)) || ltb g.count (pos_part (atoi index))) ≡ false =
      ap (λ k. not (is_pos k) || ltb g.count (pos_part k)) i ∙ inside in
    let entry : get_or g.entries ((g.start + g.count - pos_part (atoi index)) % max_log_entries) []
        ≡ line =
      ap (λ k. get_or g.entries ((g.start + g.count - pos_part k) % max_log_entries) []) i
      ∙ n.entry in
    rw (allowed, entry, ok) (ap executes entry)

-- `log execute` at an index that `atoi` reads as 1.
pub cmd_log-Newest :
    (atoi : Text → ℤ) (g : Log) (line index : Text)
    → Newest line g
    → atoi index ≡ pos 1
    → parse_input line ≡ accepted
    → cmd_log atoi g (codes "execute" ∷ index ∷ []) ≡ (g, executes line)
unfolding cmd_log run_log text_eq
cmd_log-Newest atoi g line index n i ok =
    rw (loaded-same g n.loaded, execute_entry-Newest atoi g line index n i ok) refl
