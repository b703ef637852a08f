-- ===== src/Shell/Prompt.antt =====
-- shell/src/main.c: the prompt, and the set-up of the shell. `getcwd`, `getpwuid` and `gethostname` succeed, and what
-- they find is an argument; paths are shorter than the buffers.
use operating_systems_and_ne.Prelude.{
  ◌≡◌, ◌⊎◌, inl, inr, refl, subst, Option, none, some, [], ◌∷◌, ◌++◌, ◌==◌, if◌then◌else◌, if_ind,
  Text, codes, arith,
}
use operating_systems_and_ne.Shell.Jobs.{Jobs, init_jobs}
use operating_systems_and_ne.Shell.Hop.{Place}

-- `home_dir`, the working directory with `prev_dir`, and the jobs.
pub record ShellState : Type 0 where
  pub home_dir : Text
  pub place : Place
  pub jobs : Jobs

-- `init_shell`, in the directory `cwd`.
unfoldable pub init_shell : Text → Jobs → ShellState
unfolding init_jobs
init_shell cwd jobs = record {
  home_dir = cwd;
  place = record { cwd = cwd; prev_dir = [] };
  jobs = init_jobs jobs;
}

-- `cwd + home_len`, where `home_dir` is the beginning of `cwd`.
unfoldable pub behind_home : Text → Text → Option Text
behind_home [] cwd = some cwd
behind_home (h ∷ hs) [] = none
behind_home (h ∷ hs) (c ∷ cs) = let rest = behind_home hs cs in if h == c then rest else none

-- The path by what stands behind the home directory.
unfoldable pub shorten : Text → Option Text → Text
shorten cwd none = cwd
shorten cwd (some []) = codes "~"
shorten cwd (some (c ∷ cs)) = if c == b'/' then b'~' ∷ c ∷ cs else cwd

-- `display_path`
unfoldable pub display_path : Text → Text → Text
unfolding shorten behind_home
display_path home_dir cwd = shorten cwd (behind_home home_dir cwd)

-- `display_prompt`: what is printed.
unfoldable pub display_prompt : (user host : Text) → Text → Text → Text
unfolding display_path
display_prompt user host home_dir cwd =
    codes "<" ++ user ++ codes "@" ++ host ++ codes ":" ++ display_path home_dir cwd ++ codes "> "

behind_home-some :
    (home_dir cwd rest : Text) → behind_home home_dir cwd ≡ some rest → cwd ≡ home_dir ++ rest
unfolding behind_home
behind_home-some [] cwd rest e = cc
behind_home-some (h ∷ hs) [] rest e = absurd (cc)
behind_home-some (h ∷ hs) (c ∷ cs) rest e = ground (arith, e, behind_home-some hs cs rest)

behind_home-append : (home_dir rest : Text) → behind_home home_dir (home_dir ++ rest) ≡ some rest
unfolding behind_home
behind_home-append [] rest = refl
behind_home-append (h ∷ hs) rest = ground (arith, behind_home-append hs rest)

-- Nothing, or a path below the directory in front.
abbrev pub IsBelow : Text → Type 0
IsBelow [] = Unit
IsBelow (c ∷ cs) = c ≡ b'/'

-- How the prompt shows a directory: the home directory and what is below it behind `~`, and any other as it is.
abbrev pub Shows : (home_dir cwd shown : Text) → Type 0
Shows home_dir cwd shown =
    ((rest : Text) × (cwd ≡ home_dir ++ rest) × IsBelow rest × (shown ≡ b'~' ∷ rest))
    ⊎ (((rest : Text) → cwd ≡ home_dir ++ rest → IsBelow rest → ⊥) × (shown ≡ cwd))

shorten-Shows :
    (home_dir cwd : Text) (found : Option Text)
    → behind_home home_dir cwd ≡ found
    → Shows home_dir cwd (shorten cwd found)
unfolding shorten
shorten-Shows home_dir cwd none e =
    inr (λ rest split below. (let known = behind_home-append home_dir rest in absurd (cc)), refl)
shorten-Shows home_dir cwd (some []) e = inl ([], behind_home-some home_dir cwd [] e, tt, refl)
shorten-Shows home_dir cwd (some (c ∷ cs)) e =
    if_ind (Shows home_dir cwd) (c == b'/')
      (λ t. inl (c ∷ cs, behind_home-some home_dir cwd (c ∷ cs) e, ground arith, refl))
      (λ t. inr (
        λ rest split below.
            (let known = behind_home-append home_dir rest in
              let same : rest ≡ c ∷ cs = cc in
              let slash : c ≡ b'/' = subst IsBelow same below in absurd (ground arith)),
        refl,
      ))

-- The prompt shows the home directory as `~`, and a directory below it, whose path goes on with a slash, as `~` and
-- the rest of its path. Every other directory it shows by its path, also one whose name only begins like the home
-- directory.
pub display_path_cases : (home_dir cwd : Text) → Shows home_dir cwd (display_path home_dir cwd)
unfolding display_path
display_path_cases home_dir cwd = shorten-Shows home_dir cwd (behind_home home_dir cwd) refl
