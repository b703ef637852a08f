-- ===== src/Shell/Tests/Histories.antt =====
-- Concrete histories, for shell/src/log.c.
use operating_systems_and_ne.Prelude.{◌≡◌, refl, true, some, [], ◌∷◌, codes, arith, set, replicate}
use operating_systems_and_ne.Shell.Log.{Log, history, ensure_loaded, log_add_command}
use operating_systems_and_ne.Shell.Log.Ring.{IsValid}
use operating_systems_and_ne.Shell.Log.History.{note, history-log_add_command}

-- Two lines in a ring that is full but for thirteen slots.
abbrev two_lines : Log
two_lines = record {
  entries = set (set (replicate 15 []) 0 (codes "ls")) 1 (codes "pwd");
  count = 2;
  start = 0;
  loaded = true;
  file = some (codes "ls" ∷ codes "pwd" ∷ []);
  writable = true;
}

two_lines-IsValid : IsValid two_lines
two_lines-IsValid = record {
  size = refl;
  count_le = omega arith;
  start_lt = omega arith;
  unwrapped = λ _. refl;
}

history-log_add_command_example :
    history (log_add_command two_lines (codes "cat a"))
    ≡ note (history (ensure_loaded two_lines)) (codes "cat a")
history-log_add_command_example =
    history-log_add_command two_lines (codes "cat a") two_lines-IsValid
