-- ===== src/Shell/Hop.antt =====
-- shell/src/hop.c: the command `hop`.
-- The working directory is a path; `chdir` with the `getcwd` behind it is a parameter: the new path, or
-- none where `chdir` fails. Paths are shorter than the buffers, and `getcwd` succeeds.
pub mod Back
use operating_systems_and_ne.Prelude.{
  ℕ, Bool, true, false, Option, none, some, List, [], ◌∷◌, if◌then◌else◌, Text, codes, text_eq,
  Status, success, failure,
}

-- The working directory and `prev_dir`, empty where there is none.
pub record Place : Type 0 where
  pub cwd : Text
  pub prev_dir : Text

-- Where an argument leads: none for an argument that is passed over.
unfoldable pub hop_target : Text → Place → Text → Option Text
unfolding text_eq
hop_target home_dir s arg =
    if text_eq arg (codes "~")
    then some home_dir
    else if text_eq arg (codes ".")
    then none
    else if text_eq arg (codes "..")
    then some (codes "..")
    else if text_eq arg (codes "-")
    then elim s.prev_dir [ [] ↦ none | c ∷ cs ↦ some (c ∷ cs) ]
    else some arg

module _ (chdir : Text → Text → Option Text) (home_dir : Text) where
  -- What `chdir(home_dir)` without arguments leaves: `prev_dir` is the new directory.
  unfoldable pub after_home : Place → Option Text → Place × Status
  after_home s none = (s, failure)
  after_home s (some dir) = (record { cwd = dir; prev_dir = dir }, success)

  -- The change to a target, which `chdir` answers: `prev_dir` is the old directory.
  unfoldable pub move_to : Place → Option Text → Option Place
  move_to s none = none
  move_to s (some dir) = some (record { cwd = dir; prev_dir = s.cwd })

  -- One argument: the place behind it, or none where there is no such directory.
  unfoldable pub visit : Place → Option Text → Option Place
  unfolding move_to
  visit s none = some s
  visit s (some target) = move_to s (chdir s.cwd target)

  unfoldable pub hop_step : Place → Text → Option Place
  unfolding visit hop_target
  hop_step s arg = visit s (hop_target home_dir s arg)

  -- The loop over the arguments, with what the step for the first one gives.
  unfoldable pub hop_args : Place → List Text → Place × Status
  unfolding hop_step
  hop_args s [] = (s, success)
  hop_args s (arg ∷ args) = elim (hop_step s arg) [
    | none ↦ (s, failure)
    | some s' ↦ hop_args s' args
  ]

  -- `cmd_hop`; the list is `argv[1]`, `argv[2]`, ….
  unfoldable pub cmd_hop : Place → List Text → Place × Status
  unfolding after_home hop_args
  cmd_hop s [] = after_home s (chdir s.cwd home_dir)
  cmd_hop s (arg ∷ args) = hop_args s (arg ∷ args)
