-- ===== src/Shell/Hop/Back.antt =====
-- Where `hop -` of shell/src/hop.c leads.
use operating_systems_and_ne.Prelude.{
  ◌≡◌, ◌≢◌, refl, ap, ◌∙◌, Option, none, some, [], ◌∷◌, Text, codes, text_eq, Status, success,
  failure, arith,
}
use operating_systems_and_ne.Shell.Hop.{
  Place, hop_target, after_home, move_to, visit, hop_step, hop_args, cmd_hop,
}

module _ (chdir : Text → Text → Option Text) (home_dir : Text) where
  dash : (s : Place) → s.prev_dir ≢ [] → hop_target home_dir s (codes "-") ≡ some s.prev_dir
  unfolding hop_target text_eq
  dash s h = ground arith

  -- `hop -` from a place whose previous directory can be entered swaps the two directories.
  swap :
      (s : Place)
      → s.prev_dir ≢ []
      → chdir s.cwd s.prev_dir ≡ some s.prev_dir
      → cmd_hop chdir home_dir s (codes "-" ∷ [])
        ≡ (record { cwd = s.prev_dir; prev_dir = s.cwd }, success)
  unfolding cmd_hop hop_args hop_step visit move_to
  swap s h e = rw (dash s h, e) refl

  moved :
      (s : Place) (arg new : Text)
      → hop_target home_dir s arg ≡ some arg
      → chdir s.cwd arg ≡ some new
      → cmd_hop chdir home_dir s (arg ∷ []) ≡ (record { cwd = new; prev_dir = s.cwd }, success)
  unfolding cmd_hop hop_args hop_step visit move_to
  moved s arg new t e =
      let arrive : Option Place → Place × Status =
        λ o. elim o [ none ↦ (s, failure) | some s' ↦ (s', success) ] in
      ap (λ o. arrive (visit chdir home_dir s o)) t
      ∙ ap (λ o. arrive (move_to chdir home_dir s o)) e

  -- `hop` to a directory that leads from `s.cwd` to `new`, then `hop -`, ends in `s.cwd` again, where
  -- `s.cwd` can be entered from `new` by its path.
  pub hop_back :
      (s : Place) (arg new : Text)
      → hop_target home_dir s arg ≡ some arg
      → chdir s.cwd arg ≡ some new
      → s.cwd ≢ []
      → chdir new s.cwd ≡ some s.cwd
      → cmd_hop chdir home_dir (cmd_hop chdir home_dir s (arg ∷ [])).0 (codes "-" ∷ [])
        ≡ (record { cwd = s.cwd; prev_dir = new }, success)
  hop_back s arg new t e h back =
      rw (moved s arg new t e) (swap (record { cwd = new; prev_dir = s.cwd }) h back)

  -- `hop` without arguments, then `hop -`, ends in the home directory, which is not left again; the
  -- directory before is lost. The home directory is taken to be entered by its path.
  pub hop_home_back :
      (s : Place) (home : Text)
      → chdir s.cwd home_dir ≡ some home
      → home ≢ []
      → chdir home home ≡ some home
      → cmd_hop chdir home_dir (cmd_hop chdir home_dir s []).0 (codes "-" ∷ [])
        ≡ (record { cwd = home; prev_dir = home }, success)
  unfolding cmd_hop after_home
  hop_home_back s home e h stay = rw (e, swap (record { cwd = home; prev_dir = home }) h stay) refl
