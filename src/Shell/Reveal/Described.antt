-- ===== src/Shell/Reveal/Described.antt =====
-- What the loop over the arguments of `cmd_reveal` in shell/src/reveal.c makes of the letters and the
-- directories.
use mathlib.Core.Path.{fun_ext}
use operating_systems_and_ne.Prelude.{
  ◌≡◌, refl, ap, ◌∙◌, sym, true, false, ◌==◌, Option, none, some, List, [], ◌∷◌, ◌++◌,
  if◌then◌else◌, Text,
}
use operating_systems_and_ne.Shell.Hop.{Place}
use operating_systems_and_ne.Shell.Reveal.{
  Options, Parsed, parsed, refused, set_flags, target_of, aim, set_target, read_argument,
  read_arguments, invalid_syntax,
}
use operating_systems_and_ne.Shell.Reveal.Letters.{
  options_of, is_flags, rest_of, letters, dirs, all_known, with_letters, with_dir, with_dirs,
  onward, or_false, letters_append, all_known-append, onward-set_flags, if_same, if_and,
  with_dirs-none,
}

module _ (home_dir : Text) (s : Place) where
  -- The options by the letters and the directories.
  abbrev pub describe : Options → Text → List Text → Option Options
  describe o ls ds = if all_known ls then with_dirs home_dir s (with_letters o ls) ds else none

  onward-aim :
      (o : Options) (found : Option Text) (ls : Text) (ds : List Text)
      → onward (aim o found) (λ o'. describe o' ls ds) ≡ elim found [
        | none ↦ none
        | some dir ↦ describe (record o { target_dir = some dir }) ls ds
      ]
  unfolding onward aim
  onward-aim o none ls ds = refl
  onward-aim o (some dir) ls ds = refl

  -- With a directory before, or with another behind, none is accepted.
  describe-none :
      (o : Options) (dir : Text) (ls : Text) (d : Text) (ds : List Text)
      → o.target_dir ≡ some dir
      → describe o ls (d ∷ ds) ≡ none
  describe-none o dir ls d ds e =
      rw (with_dirs-none home_dir s (with_letters o ls) dir d ds e) (if_same (all_known ls) none)

  with_dirs_one :
      (o : Options) (arg : Text)
      → o.target_dir ≡ none
      → with_dirs home_dir s o (arg ∷ []) ≡ with_dir o (target_of home_dir s arg)
  unfolding with_dirs
  with_dirs_one o arg e = rw e refl

  aim_one :
      (o : Options) (ls : Text) (found : Option Text)
      → elim found [ none ↦ none | some dir ↦ describe (record o { target_dir = some dir }) ls [] ]
        ≡ (if all_known ls then with_dir (with_letters o ls) found else none)
  unfolding with_dirs with_dir
  aim_one o ls none = sym (if_same (all_known ls) none)
  aim_one o ls (some dir) = refl

  aim_more :
      (o : Options) (ls : Text) (d : Text) (ds : List Text) (found : Option Text)
      → elim found [
        | none ↦ none
        | some dir ↦ describe (record o { target_dir = some dir }) ls (d ∷ ds)
      ]
        ≡ none
  aim_more o ls d ds none = refl
  aim_more o ls d ds (some dir) =
      describe-none (record o { target_dir = some dir }) dir ls d ds refl

  aim_found :
      (o : Options) (arg : Text) (ls : Text) (ds : List Text)
      → o.target_dir ≡ none
      → elim (target_of home_dir s arg) [
        | none ↦ none
        | some dir ↦ describe (record o { target_dir = some dir }) ls ds
      ]
        ≡ describe o ls (arg ∷ ds)
  unfolding with_dirs
  aim_found o arg ls [] e =
      aim_one o ls (target_of home_dir s arg)
      ∙ ap (λ x. if all_known ls then x else none) (sym (with_dirs_one (with_letters o ls) arg e))
  aim_found o arg ls (d ∷ ds) e =
      aim_more o ls d ds (target_of home_dir s arg) ∙ sym (if_same (all_known ls) none)

  set_target_first :
      (o : Options) (arg : Text)
      → o.target_dir ≡ none
      → set_target home_dir s o arg ≡ aim o (target_of home_dir s arg)
  unfolding set_target
  set_target_first o arg e = rw e refl

  set_target_second :
      (o : Options) (dir arg : Text)
      → o.target_dir ≡ some dir
      → set_target home_dir s o arg ≡ refused invalid_syntax
  unfolding set_target
  set_target_second o dir arg e = rw e refl

  onward-set_target :
      (o : Options) (arg : Text) (ls : Text) (ds : List Text)
      → onward (set_target home_dir s o arg) (λ o'. describe o' ls ds) ≡ describe o ls (arg ∷ ds)
  onward-set_target o arg ls ds = by_target o.target_dir refl
    where
      by_target :
          (t : Option Text)
          → o.target_dir ≡ t
          → onward (set_target home_dir s o arg) (λ o'. describe o' ls ds)
            ≡ describe o ls (arg ∷ ds)
      by_target none e =
          ap (λ p. onward p (λ o'. describe o' ls ds)) (set_target_first o arg e)
          ∙ onward-aim o (target_of home_dir s arg) ls ds
          ∙ aim_found o arg ls ds e
      by_target (some dir) e =
          ap (λ p. onward p (λ o'. describe o' ls ds)) (set_target_second o dir arg e)
          ∙ (unfold onward in (sym (describe-none o dir ls arg ds e)))

  -- The letters of a flag in front of the others.
  flags_describe :
      (o : Options) (ms ls : Text) (ds : List Text)
      → (if all_known ms then describe (with_letters o ms) ls ds else none)
        ≡ describe o (ms ++ ls) ds
  flags_describe o ms ls ds =
      rw (letters_append o ms ls, all_known-append ms ls)
        (if_and (all_known ms) (all_known ls) (with_dirs home_dir s (with_letters o (ms ++ ls)) ds))

  onward-read :
      (o : Options) (arg : Text) (ls : Text) (ds : List Text)
      → onward (read_argument home_dir s o arg) (λ o'. describe o' ls ds)
        ≡ (if is_flags arg then describe o (rest_of arg ++ ls) ds else describe o ls (arg ∷ ds))
  unfolding read_argument is_flags
  onward-read o [] ls ds = onward-set_target o [] ls ds
  onward-read o (c ∷ []) ls ds = onward-set_target o (c ∷ []) ls ds
  onward-read o (c ∷ d ∷ cs) ls ds =
      elim (c == b'-')
        as (λ t.
          onward (if t then set_flags o (d ∷ cs) else set_target home_dir s o (c ∷ d ∷ cs))
            (λ o'. describe o' ls ds)
          ≡ (if t then describe o ((d ∷ cs) ++ ls) ds else describe o ls ((c ∷ d ∷ cs) ∷ ds))) [
            | true ↦
                onward-set_flags o (d ∷ cs) (λ o'. describe o' ls ds)
                ∙ flags_describe o (d ∷ cs) ls ds
            | false ↦ onward-set_target o (c ∷ d ∷ cs) ls ds
          ]

  options_of-onward :
      (p : Parsed) (args : List Text)
      → options_of
          (elim p [ refused why ↦ refused why | parsed o ↦ read_arguments home_dir s o args ])
        ≡ onward p (λ o. options_of (read_arguments home_dir s o args))
  unfolding options_of onward
  options_of-onward (parsed o) args = refl
  options_of-onward (refused why) args = refl

  front :
      (arg : Text) (args : List Text) (o : Options)
      → (if is_flags arg
          then describe o (rest_of arg ++ letters args) (dirs args)
          else describe o (letters args) (arg ∷ dirs args))
        ≡ describe o (letters (arg ∷ args)) (dirs (arg ∷ args))
  unfolding letters dirs
  front arg args o =
      elim (is_flags arg)
        as (λ t.
          (if t
            then describe o (rest_of arg ++ letters args) (dirs args)
            else describe o (letters args) (arg ∷ dirs args))
          ≡ describe o (if t then rest_of arg ++ letters args else letters args)
              (if t then dirs args else arg ∷ dirs args)) [ true ↦ refl | false ↦ refl ]

  pub options_of-read_arguments :
      (o : Options) (args : List Text)
      → options_of (read_arguments home_dir s o args) ≡ describe o (letters args) (dirs args)
  unfolding read_arguments letters dirs options_of with_dirs all_known
  options_of-read_arguments o [] = rw (or_false o.show_hidden, or_false o.long_format) refl
  options_of-read_arguments o (arg ∷ args) =
      options_of-onward (read_argument home_dir s o arg) args
      ∙ ap (onward (read_argument home_dir s o arg))
          (fun_ext (λ o'. options_of-read_arguments o' args))
      ∙ onward-read o arg (letters args) (dirs args)
      ∙ front arg args o
