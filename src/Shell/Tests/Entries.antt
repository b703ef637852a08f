-- ===== src/Shell/Tests/Entries.antt =====
-- Concrete runs of `cmd_reveal` of shell/src/reveal.c.
use mathlib.Core.List.{Perm}
use mathlib.Core.List.Perm
use operating_systems_and_ne.Prelude.{
  ◌≡◌, ◌↔◌, refl, true, false, Option, some, List, [], ◌∷◌, if◌then◌else◌, if_ind, All, Text, codes,
  text_eq, success, ℤ, is_pos, ◌++◌,
}
use operating_systems_and_ne.Shell.Hop.{Place}
use operating_systems_and_ne.Shell.Reveal.{
  Options, no_options, parsed, read_arguments, print_lines, cmd_reveal,
}
use operating_systems_and_ne.Shell.Reveal.Letters.{letters, dirs, all_known, has}
use operating_systems_and_ne.Shell.Reveal.Arguments.{Leads, read_arguments_iff}
use operating_systems_and_ne.Shell.Reveal.Lines.{
  has_newline, IsSorted, IsSortedBy, IsOrder, IsSifted, lines, cmd_reveal-lines,
}

-- A `qsort`: insertion.
insert : (Text → Text → ℤ) → Text → List Text → List Text
insert cmp a [] = a ∷ []
insert cmp a (b ∷ bs) =
    let rest = insert cmp a bs in if is_pos (cmp a b) then b ∷ rest else a ∷ b ∷ bs

sorted : (Text → Text → ℤ) → List Text → List Text
sorted cmp [] = []
sorted cmp (a ∷ as') = insert cmp a (sorted cmp as')

module _ (cmp : Text → Text → ℤ) where
  insert-Perm : (a : Text) (bs : List Text) → Perm (insert cmp a bs) (a ∷ bs)
  unfolding insert
  insert-Perm a [] = Perm.refl (a ∷ [])
  insert-Perm a (b ∷ bs) =
      if_ind (λ xs. Perm xs (a ∷ b ∷ bs)) (is_pos (cmp a b))
        (λ e. Perm.trans (Perm.cons b (insert-Perm a bs)) (Perm.swap a b bs))
        (λ e. Perm.refl (a ∷ b ∷ bs))

  All-insert :
      (P : Text → Type 0) (a : Text) (bs : List Text) → P a → All P bs → All P (insert cmp a bs)
  unfolding insert
  All-insert P a [] h k = (h, tt)
  All-insert P a (b ∷ bs) h k =
      if_ind (All P) (is_pos (cmp a b)) (λ e. (k.0, All-insert P a bs h k.1)) (λ e. (h, k))

  module _ (order : IsOrder cmp) where
    All-smaller :
        (a b : Text) (bs : List Text)
        → is_pos (cmp a b) ≡ false
        → All (λ c. is_pos (cmp b c) ≡ false) bs
        → All (λ c. is_pos (cmp a c) ≡ false) bs
    All-smaller a b [] e h = tt
    All-smaller a b (c ∷ bs) e h = (order.trans a b c e h.0, All-smaller a b bs e h.1)

    insert-IsSortedBy :
        (a : Text) (bs : List Text) → IsSortedBy cmp bs → IsSortedBy cmp (insert cmp a bs)
    unfolding insert
    insert-IsSortedBy a [] h = (tt, tt)
    insert-IsSortedBy a (b ∷ bs) h =
        if_ind (IsSortedBy cmp) (is_pos (cmp a b))
          (λ e. (
            All-insert (λ c. is_pos (cmp b c) ≡ false) a bs (order.asymm a b e) h.0,
            insert-IsSortedBy a bs h.1,
          ))
          (λ e. ((e, All-smaller a b bs e h.0), h))

    sorted_lem :
        (names : List Text) → Perm (sorted cmp names) names × IsSortedBy cmp (sorted cmp names)
    unfolding sorted
    sorted_lem [] = (Perm.refl [], tt)
    sorted_lem (a ∷ as') =
        let (perm, s) = sorted_lem as' in
        (
          Perm.trans (insert-Perm a (sorted cmp as')) (Perm.cons a perm),
          insert-IsSortedBy a (sorted cmp as') s,
        )

-- A directory with a hidden entry.
abbrev read_dir : Text → Option (List Text)
read_dir dir = some (codes "b" ∷ codes ".h" ∷ codes "a" ∷ [])

abbrev place : Place
place = record { cwd = codes "/tmp"; prev_dir = [] }

abbrev arguments : List Text
arguments = codes "-l" ∷ codes "/etc" ∷ codes "-al" ∷ []

abbrev options : Options
options = record { show_hidden = true; long_format = true; target_dir = some (codes "/etc") }

read_arguments_iff_example :
    (read_arguments (codes "/home") place no_options arguments ≡ parsed options) ↔ (
      (all_known (letters arguments) ≡ true)
      × Leads (codes "/home") place (dirs arguments) options.target_dir
      × (options.show_hidden ≡ has b'a' (letters arguments))
      × (options.long_format ≡ has b'l' (letters arguments)))
read_arguments_iff_example = read_arguments_iff (codes "/home") place arguments options

reads : read_arguments (codes "/home") place no_options arguments ≡ parsed options
unfolding read_arguments text_eq
reads = refl

abbrev plain_arguments : List Text
plain_arguments = codes "-l" ∷ codes "/etc" ∷ []

abbrev plain_options : Options
plain_options = record { show_hidden = false; long_format = true; target_dir = some (codes "/etc") }

plain_reads : read_arguments (codes "/home") place no_options plain_arguments ≡ parsed plain_options
unfolding read_arguments text_eq
plain_reads = refl

cmd_reveal-lines_example :
    (shown : List Text) × (left : List Text) × (cmd_reveal read_dir sorted
        (codes "/home")
        place
        plain_arguments
      ≡ (print_lines shown, success))
    × (lines (print_lines shown) ≡ shown)
    × IsSorted shown
    × Perm (shown ++ left) (codes "b" ∷ codes ".h" ∷ codes "a" ∷ [])
    × IsSifted false shown left
unfolding has_newline
cmd_reveal-lines_example =
    cmd_reveal-lines read_dir sorted (codes "/home") sorted_lem place plain_arguments plain_options
      (codes "b" ∷ codes ".h" ∷ codes "a" ∷ []) plain_reads refl refl (refl, (refl, (refl, tt)))
