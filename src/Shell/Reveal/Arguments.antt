-- ===== src/Shell/Reveal/Arguments.antt =====
-- Which arguments `cmd_reveal` of shell/src/reveal.c accepts.
use operating_systems_and_ne.Prelude.{
  ◌≡◌, refl, ap, ◌∙◌, sym, Bool, true, false, Option, none, some, List, [], ◌∷◌, if◌then◌else◌, ◌↔◌,
  Text,
}
use operating_systems_and_ne.Shell.Hop.{Place}
use operating_systems_and_ne.Shell.Reveal.{
  Options, no_options, Parsed, parsed, refused, target_of, read_arguments,
}
use operating_systems_and_ne.Shell.Reveal.Letters.{
  options_of, letters, dirs, has, all_known, with_letters, with_dir, with_dirs,
}
use operating_systems_and_ne.Shell.Reveal.Described.{options_of-read_arguments}

module _ (home_dir : Text) (s : Place) where
  -- Where the directories lead: to the working directory if there are none.
  abbrev pub Leads : List Text → Option Text → Type 0
  Leads [] t = t ≡ none
  Leads (d ∷ []) t = (dir : Text) × (target_of home_dir s d ≡ some dir) × (t ≡ some dir)
  Leads (d ∷ e ∷ ds) t = ⊥

  -- The same options, field by field.
  same_iff :
      (o o' : Options)
      → (some o ≡ some o') ↔ (
          (o'.target_dir ≡ o.target_dir)
          × (o'.show_hidden ≡ o.show_hidden)
          × (o'.long_format ≡ o.long_format))
  same_iff o o' = (
    λ e.
        let same : o' ≡ o = cc in
        (
          ap (λ (x : Options). x.target_dir) same,
          ap (λ (x : Options). x.show_hidden) same,
          ap (λ (x : Options). x.long_format) same,
        ),
    λ h. cc,
  )

  with_dir_iff :
      (o o' : Options) (found : Option Text)
      → (with_dir o found ≡ some o') ↔ (
          ((dir : Text) × (found ≡ some dir) × (o'.target_dir ≡ some dir))
          × (o'.show_hidden ≡ o.show_hidden)
          × (o'.long_format ≡ o.long_format))
  unfolding with_dir
  with_dir_iff o o' none = (λ e. absurd (cc), λ h. absurd (cc))
  with_dir_iff o o' (some dir) =
      let (to, from) = same_iff (record o { target_dir = some dir }) o' in
      (
        λ e. let (t, hidden, long) = to e in ((dir, refl, t), hidden, long),
        λ h. let (t, hidden, long) = h in let (dir', e, t') = t in from (t' ∙ sym e, hidden, long),
      )

  with_dirs_iff :
      (ls : Text) (ds : List Text) (o : Options)
      → (with_dirs home_dir s (with_letters no_options ls) ds ≡ some o)
        ↔ (Leads ds o.target_dir × (o.show_hidden ≡ has b'a' ls) × (o.long_format ≡ has b'l' ls))
  unfolding with_dirs
  with_dirs_iff ls [] o = same_iff (with_letters no_options ls) o
  with_dirs_iff ls (d ∷ []) o = with_dir_iff (with_letters no_options ls) o (target_of home_dir s d)
  with_dirs_iff ls (d ∷ e ∷ ds) o = (λ e'. absurd (cc), λ h. absurd h.0)

  options_of_iff : (p : Parsed) (o : Options) → (options_of p ≡ some o) ↔ (p ≡ parsed o)
  unfolding options_of
  options_of_iff (parsed o') o = (λ e. cc, λ e. cc)
  options_of_iff (refused why) o = (λ e. absurd (cc), λ e. absurd (cc))

  if_iff :
      (t : Bool) (x : Option Options) (o : Options)
      → ((if t then x else none) ≡ some o) ↔ ((t ≡ true) × (x ≡ some o))
  if_iff true x o = (λ e. (refl, e), λ h. h.1)
  if_iff false x o = (λ e. absurd (cc), λ h. absurd (cc))

  -- The arguments of `reveal` are accepted with the options `o` exactly if every letter behind a dash is an
  -- `a` or an `l`, there is at most one other argument, which is `o`'s target and leads somewhere, and `o` shows
  -- hidden entries if an `a` is among the letters, and has the long format if an `l` is.
  pub read_arguments_iff :
      (args : List Text) (o : Options)
      → (read_arguments home_dir s no_options args ≡ parsed o) ↔ (
          (all_known (letters args) ≡ true)
          × Leads (dirs args) o.target_dir
          × (o.show_hidden ≡ has b'a' (letters args))
          × (o.long_format ≡ has b'l' (letters args)))
  read_arguments_iff args o =
      let e = options_of-read_arguments home_dir s no_options args in
      let a = options_of_iff (read_arguments home_dir s no_options args) o in
      let i =
        if_iff (all_known (letters args))
          (with_dirs home_dir s (with_letters no_options (letters args)) (dirs args)) o in
      let w = with_dirs_iff (letters args) (dirs args) o in
      (
        λ p.
            let (known, d) = i.0 (sym e ∙ a.1 p) in
            let (leads, hidden, long) = w.0 d in (known, leads, hidden, long),
        λ h.
            let (known, leads, hidden, long) = h in
            a.0 (e ∙ i.1 (known, w.1 (leads, hidden, long))),
      )
