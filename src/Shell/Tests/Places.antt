-- ===== src/Shell/Tests/Places.antt =====
-- Concrete directories, for shell/src/hop.c.
use operating_systems_and_ne.Prelude.{
  ◌≡◌, ◌≢◌, refl, Option, some, [], ◌∷◌, Text, codes, success, text_eq,
}
use operating_systems_and_ne.Shell.Prompt.{Shows, display_path, display_path_cases}
use operating_systems_and_ne.Shell.Hop.{Place, cmd_hop, hop_target}
use operating_systems_and_ne.Shell.Hop.Back.{hop_back, hop_home_back}

-- A file system in which each path is entered by its name.
abbrev absolute : Text → Text → Option Text
absolute from target = some target

abbrev in_tmp : Place
in_tmp = record { cwd = codes "/tmp"; prev_dir = [] }

tmp_ne : codes "/tmp" ≢ []
tmp_ne e = cc

home_ne : codes "/home" ≢ []
home_ne e = cc

to_etc : hop_target (codes "/home") in_tmp (codes "/etc") ≡ some (codes "/etc")
unfolding hop_target text_eq
to_etc = refl

hop_back_example :
    cmd_hop absolute
      (codes "/home")
      (cmd_hop absolute (codes "/home") in_tmp (codes "/etc" ∷ [])).0
      (codes "-" ∷ [])
    ≡ (record { cwd = codes "/tmp"; prev_dir = codes "/etc" }, success)
hop_back_example =
    hop_back absolute (codes "/home") in_tmp (codes "/etc") (codes "/etc") to_etc refl tmp_ne refl

hop_home_back_example :
    cmd_hop absolute (codes "/home") (cmd_hop absolute (codes "/home") in_tmp []).0 (codes "-" ∷ [])
    ≡ (record { cwd = codes "/home"; prev_dir = codes "/home" }, success)
hop_home_back_example =
    hop_home_back absolute (codes "/home") in_tmp (codes "/home") refl home_ne refl

display_path_cases_example :
    Shows
      (codes "/home/me")
      (codes "/home/me2")
      (display_path (codes "/home/me") (codes "/home/me2"))
display_path_cases_example = display_path_cases (codes "/home/me") (codes "/home/me2")
