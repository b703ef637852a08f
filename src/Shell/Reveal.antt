-- ===== src/Shell/Reveal.antt =====
-- shell/src/reveal.c: the command `reveal`.
-- The working directory is a path, and a directory is what `opendir` and `readdir` find: its names, or none
-- where it cannot be opened. `qsort`, which is given `compare_entries`, is a parameter. `getcwd` and the allocations succeed, and paths are
-- shorter than the buffer.
pub mod Letters
pub mod Described
pub mod Arguments
pub mod Lines
use operating_systems_and_ne.Prelude.{
  ℕ, Bool, true, false, ◌==◌, Option, none, some, List, [], ◌∷◌, ◌++◌, if◌then◌else◌, Text, codes,
  text_eq, text_gt, ℤ, pos, minus_one, Status, success, failure,
}
use operating_systems_and_ne.Shell.Hop.{Place}

-- The locals that the arguments set; without a target `arg_count` is 0, and else 1.
pub record Options : Type 0 where
  pub show_hidden : Bool
  pub long_format : Bool
  pub target_dir : Option Text

abbrev pub no_options : Options
no_options = record { show_hidden = false; long_format = false; target_dir = none }

-- Why `reveal` returns -1.
pub data Refusal : Type 0 where
  invalid_flag : ℕ → Refusal
  invalid_syntax no_such_directory : Refusal

pub data Parsed : Type 0 where
  parsed : Options → Parsed
  refused : Refusal → Parsed

-- One letter of a flag.
unfoldable pub set_flag : Options → ℕ → Option Options
set_flag o c =
    if c == b'a'
    then some (record o { show_hidden = true })
    else if c == b'l'
    then some (record o { long_format = true })
    else none

-- The loop over the letters, with what the first one sets.
unfoldable pub set_flags : Options → Text → Parsed
unfolding set_flag
set_flags o [] = parsed o
set_flags o (c ∷ cs) = elim (set_flag o c) [
  | none ↦ refused (invalid_flag c)
  | some o' ↦ set_flags o' cs
]

-- Where a directory argument leads.
unfoldable pub target_of : Text → Place → Text → Option Text
unfolding text_eq
target_of home_dir s arg =
    if text_eq arg (codes "~")
    then some home_dir
    else if text_eq arg (codes ".")
    then some s.cwd
    else if text_eq arg (codes "..")
    then some (codes "..")
    else if text_eq arg (codes "-")
    then elim s.prev_dir [ [] ↦ none | c ∷ cs ↦ some (c ∷ cs) ]
    else some arg

unfoldable pub aim : Options → Option Text → Parsed
aim o none = refused no_such_directory
aim o (some dir) = parsed (record o { target_dir = some dir })

-- A directory argument: a second one is refused.
unfoldable pub set_target : Text → Place → Options → Text → Parsed
unfolding target_of aim
set_target home_dir s o arg = elim o.target_dir [
  | none ↦ aim o (target_of home_dir s arg)
  | some dir ↦ refused invalid_syntax
]

-- One argument: flags stand behind a dash, and a dash alone is a directory.
unfoldable pub read_argument : Text → Place → Options → Text → Parsed
unfolding set_flags set_target
read_argument home_dir s o [] = set_target home_dir s o []
read_argument home_dir s o (c ∷ []) = set_target home_dir s o (c ∷ [])
read_argument home_dir s o (c ∷ d ∷ cs) =
    if c == b'-' then set_flags o (d ∷ cs) else set_target home_dir s o (c ∷ d ∷ cs)

-- The loop over the arguments; the list is `argv[1]`, `argv[2]`, ….
unfoldable pub read_arguments : Text → Place → Options → List Text → Parsed
unfolding read_argument
read_arguments home_dir s o [] = parsed o
read_arguments home_dir s o (arg ∷ args) = elim (read_argument home_dir s o arg) [
  | refused why ↦ refused why
  | parsed o' ↦ read_arguments home_dir s o' args
]

-- The names that are kept: a hidden one begins with a dot.
unfoldable pub is_hidden : Text → Bool
is_hidden [] = false
is_hidden (c ∷ cs) = c == b'.'

unfoldable pub visible_entries : Bool → List Text → List Text
unfolding is_hidden
visible_entries show_hidden [] = []
visible_entries show_hidden (name ∷ names) =
    let rest = visible_entries show_hidden names in
    if show_hidden then name ∷ rest else if is_hidden name then rest else name ∷ rest

-- What `strcmp` returns, up to the size of the number: its sign is the order of the bytes.
unfoldable pub strcmp : Text → Text → ℤ
strcmp a b = if text_gt a b then pos 1 else if text_gt b a then minus_one else pos 0

-- `compare_entries`
unfoldable pub compare_entries : Text → Text → ℤ
unfolding strcmp
compare_entries a b = strcmp a b

-- One entry in a line.
unfoldable pub print_lines : List Text → Text
print_lines [] = []
print_lines (name ∷ names) = name ++ b'\n' ∷ print_lines names

-- The entries behind the first, each behind a space, and the end of the line.
unfoldable pub print_more : List Text → Text
print_more [] = b'\n' ∷ []
print_more (name ∷ names) = b' ' ∷ name ++ print_more names

unfoldable pub print_row : List Text → Text
unfolding print_more
print_row [] = []
print_row (name ∷ names) = name ++ print_more names

unfoldable pub print_entries : Bool → List Text → Text
unfolding print_lines print_row
print_entries long_format names = if long_format then print_lines names else print_row names

-- What is printed for a refusal.
unfoldable pub complaint : Refusal → Text
complaint (invalid_flag c) = codes "reveal: Invalid flag -" ++ c ∷ b'\n' ∷ []
complaint invalid_syntax = codes "reveal: Invalid Syntax!" ++ b'\n' ∷ []
complaint no_such_directory = codes "No such directory!" ++ b'\n' ∷ []

module _ (read_dir : Text → Option (List Text)) (qsort : (Text → Text → ℤ) → List Text → List Text)
    (home_dir : Text) where
  -- Behind `opendir`.
  unfoldable pub reveal_entries : Options → Option (List Text) → Text × Status
  unfolding complaint print_entries visible_entries compare_entries
  reveal_entries o none = (complaint no_such_directory, failure)
  reveal_entries o (some names) =
      let sorted = qsort compare_entries (visible_entries o.show_hidden names) in
      (print_entries o.long_format sorted, success)

  -- The directory that is opened.
  unfoldable pub dir_of : Place → Options → Text
  dir_of s o = elim o.target_dir [ none ↦ s.cwd | some dir ↦ dir ]

  -- Behind the loop over the arguments.
  unfoldable pub reveal_parsed : Place → Parsed → Text × Status
  unfolding reveal_entries dir_of
  reveal_parsed s (refused why) = (complaint why, failure)
  reveal_parsed s (parsed o) = reveal_entries o (read_dir (dir_of s o))

  -- `cmd_reveal`: what it prints, and its status.
  unfoldable pub cmd_reveal : Place → List Text → Text × Status
  unfolding reveal_parsed read_arguments
  cmd_reveal s args = reveal_parsed s (read_arguments home_dir s no_options args)
