-- ===== src/Shell/Log/Ring.antt =====
-- The ring of shell/src/log.c is a bounded history: it holds the last fifteen lines, and the file
-- holds the same.
use operating_systems_and_ne.Prelude.{
  ℕ, zero, suc, ◌+◌, ◌%◌, ◌≤◌, ◌<◌, ◌≡◌, ◌≢◌, refl, ap, ◌∙◌, Bool, true, Option, none, some, List,
  [], ◌∷◌, ◌++◌, arith, Text, length, get_or, set, length-set, get_or-set_self, get_or-set_ne,
  length-replicate, if◌then◌else◌, ltb, drop,
}
use operating_systems_and_ne.Shell.Log.{
  Log, max_log_entries, initial, load_lines, load_file, ensure_loaded, slots, history, save_log,
  push, log_add_command,
}

-- The slots are used from the first on until all are in use; only then does the start move.
pub record IsValid (g : Log) : Type 0 where
  pub size : length g.entries ≡ max_log_entries
  pub count_le : g.count ≤ max_log_entries
  pub start_lt : g.start < max_log_entries
  pub unwrapped : g.count < max_log_entries → g.start ≡ 0

pub initial-IsValid : (file : Option (List Text)) (w : Bool) → IsValid (initial file w)
unfolding initial
initial-IsValid file w = record {
  size = length-replicate {A = Text} max_log_entries [];
  count_le = omega arith;
  start_lt = omega arith;
  unwrapped = λ _. refl;
}

load_lines_bounds :
    (ls es : List Text) (i : ℕ)
    → i ≤ max_log_entries
    → (length (load_lines ls es i).0 ≡ length es) × ((load_lines ls es i).1 ≤ max_log_entries)
unfolding load_lines
load_lines_bounds [] es i h = (refl, h)
load_lines_bounds (l ∷ ls) es i h =
    ground (arith, load_lines_bounds ls (set es i l) (i + 1), length-set es i l)

load_file-IsValid : (g : Log) (o : Option (List Text)) → IsValid g → IsValid (load_file g o)
unfolding load_file
load_file-IsValid g none v = v
load_file-IsValid g (some ls) v =
    let b = load_lines_bounds ls g.entries 0 (omega arith) in
    record { size = b.0 ∙ v.size; count_le = b.1; start_lt = omega arith; unwrapped = λ _. refl }

pub ensure_loaded-IsValid : (g : Log) → IsValid g → IsValid (ensure_loaded g)
unfolding ensure_loaded
ensure_loaded-IsValid g v = ground (arith, load_file-IsValid g g.file v)

pub loaded-same : (g : Log) → g.loaded ≡ true → ensure_loaded g ≡ g
unfolding ensure_loaded
loaded-same g h = rw h refl

pub ensure_loaded_loaded : (g : Log) → (ensure_loaded g).loaded ≡ true
unfolding ensure_loaded
ensure_loaded_loaded g = ground arith

pub log_add_command_loaded :
    (g : Log) (cmd : Text) → log_add_command g cmd ≡ log_add_command (ensure_loaded g) cmd
unfolding log_add_command
log_add_command_loaded g cmd = rw (loaded-same (ensure_loaded g) (ensure_loaded_loaded g)) refl

pub push-IsValid : (g : Log) (cmd : Text) → IsValid g → IsValid (push g cmd)
unfolding push
push-IsValid g cmd v =
    ground (arith, length-set g.entries g.count cmd, length-set g.entries g.start cmd)

pub save_log-IsValid : (g : Log) → IsValid g → IsValid (save_log g)
unfolding save_log
save_log-IsValid g v = ground arith

-- Every call of `log_add_command` keeps the ring well formed.
pub log_add_command-IsValid : (g : Log) (cmd : Text) → IsValid g → IsValid (log_add_command g cmd)
unfolding log_add_command
log_add_command-IsValid g cmd v =
    let v' = ensure_loaded-IsValid g v in
    let w = save_log-IsValid (push (ensure_loaded g) cmd) (push-IsValid (ensure_loaded g) cmd v') in
    ground (arith, v', w)

pub slots_succ :
    (es : List Text) (i n : ℕ)
    → slots es i (suc n) ≡ slots es i n ++ get_or es ((i + n) % max_log_entries) [] ∷ []
unfolding slots
slots_succ es i zero = ap (λ k. get_or es (k % max_log_entries) [] ∷ []) (omega arith)
slots_succ es i (suc n) =
    ap (λ r. get_or es (i % max_log_entries) [] ∷ r)
      (slots_succ es (i + 1) n
        ∙ ap (λ k. slots es (i + 1) n ++ get_or es (k % max_log_entries) [] ∷ []) (omega arith))

-- Going round the ring once more changes nothing.
slots_mod :
    (es : List Text) (i j n : ℕ)
    → i % max_log_entries ≡ j % max_log_entries
    → slots es i n ≡ slots es j n
unfolding slots
slots_mod es i j zero e = refl
slots_mod es i j (suc n) e = rw (e, slots_mod es (i + 1) (j + 1) n (omega arith))

-- A write outside the visited slots is not seen.
slots-set_ne :
    (es : List Text) (k i n : ℕ) (v : Text)
    → ((d : ℕ) → d < n → k ≢ (i + d) % max_log_entries)
    → slots (set es k v) i n ≡ slots es i n
unfolding slots
slots-set_ne es k i zero v h = refl
slots-set_ne es k i (suc n) v h =
    let other : k ≢ i % max_log_entries =
      λ e. h 0 (omega arith) (e ∙ ap (λ t. t % max_log_entries) (omega arith)) in
    let others : (d : ℕ) → d < n → k ≢ (i + 1 + d) % max_log_entries =
      λ d l e. h (d + 1) (omega arith) (e ∙ ap (λ t. t % max_log_entries) (omega arith)) in
    rw (get_or-set_ne es v [] other, slots-set_ne es k (i + 1) n v others)

pub length-slots : (es : List Text) (i n : ℕ) → length (slots es i n) ≡ n
unfolding slots
length-slots es i zero = refl
length-slots es i (suc n) = ap suc (length-slots es (i + 1) n)

-- The bounded history: a line joins at the end, and the oldest leaves when there are fifteen.
pub remember : List Text → Text → List Text
remember h cmd = if ltb (length h) max_log_entries then h ++ cmd ∷ [] else drop 1 h ++ cmd ∷ []

-- A write behind the visited slots, before the ring has gone round.
pub slots-set_end :
    (es : List Text) (n : ℕ) (v : Text)
    → length es ≡ max_log_entries
    → n < max_log_entries
    → slots (set es n v) 0 (n + 1) ≡ slots es 0 n ++ v ∷ []
slots-set_end es n v size room =
    let others : (d : ℕ) → d < n → n ≢ (0 + d) % max_log_entries = λ d l e. omega arith in
    let here : (0 + n) % max_log_entries ≡ n = omega arith in
    ground (
      arith,
      slots_succ (set es n v) 0 n,
      slots-set_ne es n 0 n v others,
      here,
      get_or-set_self es n v [] (omega arith),
    )

history-push_room :
    (g : Log) (cmd : Text)
    → IsValid g
    → g.count < max_log_entries
    → slots (set g.entries g.count cmd) g.start (g.count + 1) ≡ history g ++ cmd ∷ []
history-push_room g cmd v room =
    ground (arith, v.unwrapped room, slots-set_end g.entries g.count cmd v.size room)

history-push_full :
    (g : Log) (cmd : Text)
    → IsValid g
    → g.count ≡ max_log_entries
    → slots (set g.entries g.start cmd) ((g.start + 1) % max_log_entries) max_log_entries
      ≡ drop 1 (history g) ++ cmd ∷ []
history-push_full g cmd v full =
    let es = g.entries in
    let es' = set es g.start cmd in
    let others : (d : ℕ) → d < 14 → g.start ≢ (g.start + 1 + d) % max_log_entries =
      λ d l e. omega arith in
    let here : (g.start + 1 + 14) % max_log_entries ≡ g.start = omega arith in
    slots_mod es' ((g.start + 1) % max_log_entries) (g.start + 1) 15 (omega arith)
    ∙ slots_succ es' (g.start + 1) 14
    ∙ rw
        (
          slots-set_ne es g.start (g.start + 1) 14 cmd others,
          here,
          get_or-set_self es g.start cmd [] (omega arith),
          full,
        )
        (unfold slots in refl)

pub history-push :
    (g : Log) (cmd : Text) → IsValid g → history (push g cmd) ≡ remember (history g) cmd
unfolding push remember
history-push g cmd v = ground (
  arith,
  length-slots g.entries g.start g.count,
  history-push_room g cmd v,
  history-push_full g cmd v,
)
