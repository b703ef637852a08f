-- ===== src/Shell/Reveal/Letters.antt =====
-- The letters and the directories among the arguments of `cmd_reveal` in shell/src/reveal.c.
use mathlib.Core.Bool.{and_assoc, or_assoc}
use operating_systems_and_ne.Prelude.{
  ℕ, ◌≡◌, refl, ap, ◌∙◌, sym, Bool, true, false, ◌&&◌, ◌||◌, ◌==◌, Option, none, some, List, [],
  ◌∷◌, ◌++◌, if◌then◌else◌, Bool-cases, inl, inr, Text, arith,
}
use operating_systems_and_ne.Shell.Hop.{Place}
use operating_systems_and_ne.Shell.Reveal.{
  Options, Parsed, parsed, refused, set_flag, set_flags, target_of,
}

-- The options of a parse that is not refused.
unfoldable pub options_of : Parsed → Option Options
options_of (parsed o) = some o
options_of (refused why) = none

unfoldable pub is_flags : Text → Bool
is_flags [] = false
is_flags (c ∷ []) = false
is_flags (c ∷ d ∷ cs) = c == b'-'

abbrev pub rest_of : Text → Text
rest_of [] = []
rest_of (c ∷ cs) = cs

-- The letters of all flags, and the directories.
unfoldable pub letters : List Text → Text
unfolding is_flags
letters [] = []
letters (arg ∷ args) = let more = letters args in if is_flags arg then rest_of arg ++ more else more

unfoldable pub dirs : List Text → List Text
unfolding is_flags
dirs [] = []
dirs (arg ∷ args) = let more = dirs args in if is_flags arg then more else arg ∷ more

abbrev pub has : ℕ → Text → Bool
has x [] = false
has x (c ∷ cs) = c == x || has x cs

-- Each letter is an `a` or an `l`.
unfoldable pub all_known : Text → Bool
all_known [] = true
all_known (c ∷ cs) = (c == b'a' || c == b'l') && all_known cs

abbrev pub with_letters : Options → Text → Options
with_letters o ls = record o {
  show_hidden = o.show_hidden || has b'a' ls;
  long_format = o.long_format || has b'l' ls;
}

-- No directory, or one that leads somewhere, and no other before it.
unfoldable pub with_dir : Options → Option Text → Option Options
with_dir o none = none
with_dir o (some dir) = some (record o { target_dir = some dir })

unfoldable pub with_dirs : Text → Place → Options → List Text → Option Options
unfolding with_dir
with_dirs home_dir s o [] = some o
with_dirs home_dir s o (arg ∷ []) = elim o.target_dir [
  | some before ↦ none
  | none ↦ with_dir o (target_of home_dir s arg)
]
with_dirs home_dir s o (arg ∷ other ∷ args) = none

-- Goes on behind what was read.
unfoldable pub onward : Parsed → (Options → Option Options) → Option Options
onward (parsed o) k = k o
onward (refused why) k = none

pub or_false : (b : Bool) → (b || false) ≡ b
or_false true = refl
or_false false = refl

or_true : (b : Bool) → (b || true) ≡ true
or_true true = refl
or_true false = refl

-- An `a` and an `l` at the front.
letters_a :
    (o : Options) (cs : Text)
    → with_letters (record o { show_hidden = true }) cs ≡ with_letters o (b'a' ∷ cs)
letters_a o cs = rw (or_true o.show_hidden) refl

letters_l :
    (o : Options) (cs : Text)
    → with_letters (record o { long_format = true }) cs ≡ with_letters o (b'l' ∷ cs)
letters_l o cs = rw (or_true o.long_format) refl

has-append : (x : ℕ) (ls ms : Text) → has x (ls ++ ms) ≡ (has x ls || has x ms)
has-append x [] ms = refl
has-append x (c ∷ cs) ms = rw (has-append x cs ms) (sym (or_assoc (c == x) (has x cs) (has x ms)))

pub letters_append :
    (o : Options) (ls ms : Text) → with_letters (with_letters o ls) ms ≡ with_letters o (ls ++ ms)
letters_append o ls ms =
    rw
      (
        has-append b'a' ls ms,
        has-append b'l' ls ms,
        or_assoc o.show_hidden (has b'a' ls) (has b'a' ms),
        or_assoc o.long_format (has b'l' ls) (has b'l' ms),
      )
      refl

pub all_known-append : (ls ms : Text) → all_known (ls ++ ms) ≡ (all_known ls && all_known ms)
unfolding all_known
all_known-append [] ms = refl
all_known-append (c ∷ cs) ms =
    rw (all_known-append cs ms)
      (sym (and_assoc (c == b'a' || c == b'l') (all_known cs) (all_known ms)))

set_flag_other :
    (o : Options) (c : ℕ) → (c == b'a') ≡ false → (c == b'l') ≡ false → set_flag o c ≡ none
unfolding set_flag
set_flag_other o c f g = rw (f, g) refl

pub onward-set_flags :
    (o : Options) (ls : Text) (k : Options → Option Options)
    → onward (set_flags o ls) k ≡ (if all_known ls then k (with_letters o ls) else none)
unfolding onward set_flags all_known
onward-set_flags o [] k = rw (or_false o.show_hidden, or_false o.long_format) refl
onward-set_flags o (c ∷ cs) k = elim (Bool-cases (c == b'a')) [
  | inl e ↦
      let e' : c ≡ b'a' = ground arith in
      rw e' (
        onward-set_flags (record o { show_hidden = true }) cs k
        ∙ ap (λ o'. if all_known cs then k o' else none) (letters_a o cs))
  | inr f ↦ elim (Bool-cases (c == b'l')) [
    | inl e ↦
        let e' : c ≡ b'l' = ground arith in
        rw e' (
          onward-set_flags (record o { long_format = true }) cs k
          ∙ ap (λ o'. if all_known cs then k o' else none) (letters_l o cs))
    | inr g ↦ rw (set_flag_other o c f g, set_flags, f, g) refl
  ]
]

pub if_same : (t : Bool) (x : Option Options) → (if t then x else x) ≡ x
if_same true x = refl
if_same false x = refl

pub if_and :
    (a b : Bool) (x : Option Options)
    → (if a then (if b then x else none) else none) ≡ (if a && b then x else none)
if_and true b x = refl
if_and false b x = refl

pub with_dirs-none :
    (home_dir : Text) (s : Place) (o : Options) (dir other : Text) (ds : List Text)
    → o.target_dir ≡ some dir
    → with_dirs home_dir s o (other ∷ ds) ≡ none
unfolding with_dirs
with_dirs-none home_dir s o dir other [] e = rw e refl
with_dirs-none home_dir s o dir other (d ∷ ds) e = refl
