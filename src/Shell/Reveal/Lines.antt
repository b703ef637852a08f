-- ===== src/Shell/Reveal/Lines.antt =====
-- What `cmd_reveal` of shell/src/reveal.c prints in its long format.
use mathlib.Core.Logic.Or
use mathlib.Core.List.{
  Perm, Mem, eq-or-mem_of_mem-cons, mem-cons_self, mem-cons_of_mem, not-mem-nil,
}
use mathlib.Core.List.Perm
use operating_systems_and_ne.Prelude.{
  ℕ, ◌≡◌, refl, ap, ◌∙◌, sym, subst, Bool, true, false, ◌||◌, ◌==◌, Option, some, List, [], ◌∷◌,
  ◌++◌, if◌then◌else◌, if_ind, All, Text, text_gt, text_gt_asymm, text_gt_trans, success, arith, ℤ,
  pos, negsuc, is_pos, inl, inr, Bool-cases, append-nil, peek,
}
use operating_systems_and_ne.Shell.Hop.{Place}
use operating_systems_and_ne.Shell.Reveal.{
  Options, no_options, parsed, read_arguments, strcmp, compare_entries, is_hidden, visible_entries,
  print_lines, print_entries, reveal_entries, reveal_parsed, dir_of, cmd_reveal,
}

-- A text cut into its lines.
in_front : ℕ → List Text → List Text
in_front c [] = (c ∷ []) ∷ []
in_front c (l ∷ ls) = (c ∷ l) ∷ ls

pub lines : Text → List Text
lines [] = []
lines (c ∷ cs) = let more = lines cs in if c == b'\n' then [] ∷ more else in_front c more

-- A name has no end of a line in it.
unfoldable pub has_newline : Text → Bool
has_newline [] = false
has_newline (c ∷ cs) = c == b'\n' || has_newline cs

abbrev pub IsPlain : Text → Type 0
IsPlain name = has_newline name ≡ false

-- No later name is smaller.
abbrev pub IsSorted : List Text → Type 0
IsSorted [] = Unit
IsSorted (a ∷ as') = All (λ b. text_gt a b ≡ false) as' × IsSorted as'

-- By a comparison function, no later name is smaller.
abbrev pub IsSortedBy : (Text → Text → ℤ) → List Text → Type 0
IsSortedBy cmp [] = Unit
IsSortedBy cmp (a ∷ as') = All (λ b. is_pos (cmp a b) ≡ false) as' × IsSortedBy cmp as'

-- `x < 0`
abbrev is_neg : ℤ → Bool
is_neg (pos n) = false
is_neg (negsuc n) = true

-- What the C standard asks of a comparison function: it orders the names.
pub record IsOrder (cmp : Text → Text → ℤ) : Type 0 where
  pub mirrored : (a b : Text) → is_neg (cmp a b) ≡ is_pos (cmp b a)
  pub asymm : (a b : Text) → is_pos (cmp a b) ≡ true → is_pos (cmp b a) ≡ false
  pub trans :
      (a b c : Text)
      → is_pos (cmp a b) ≡ false
      → is_pos (cmp b c) ≡ false
      → is_pos (cmp a c) ≡ false

is_pos-compare_entries : (a b : Text) → is_pos (compare_entries a b) ≡ text_gt a b
unfolding compare_entries strcmp
is_pos-compare_entries a b = elim (Bool-cases (text_gt a b)) [
  | inl e ↦ rw e refl
  | inr e ↦ rw e (if_ind (λ n. is_pos n ≡ false) (text_gt b a) (λ _. refl) (λ _. refl))
]

is_neg-compare_entries : (a b : Text) → is_neg (compare_entries a b) ≡ text_gt b a
unfolding compare_entries strcmp
is_neg-compare_entries a b = elim (Bool-cases (text_gt a b)) [
  | inl e ↦ rw (e, text_gt_asymm a b e) refl
  | inr e ↦ elim (Bool-cases (text_gt b a)) [ inl t ↦ rw (e, t) refl | inr t ↦ rw (e, t) refl ]
]

compare_entries-IsOrder : IsOrder compare_entries
compare_entries-IsOrder = record {
  mirrored = λ a b. is_neg-compare_entries a b ∙ sym (is_pos-compare_entries b a);
  asymm = λ a b e.
      is_pos-compare_entries b a ∙ text_gt_asymm a b (sym (is_pos-compare_entries a b) ∙ e);
  trans = λ a b c e t.
      is_pos-compare_entries a c
      ∙ text_gt_trans a b c (sym (is_pos-compare_entries a b) ∙ e)
          (sym (is_pos-compare_entries b c) ∙ t);
}

All-text_gt :
    (a : Text) (bs : List Text)
    → All (λ b. is_pos (compare_entries a b) ≡ false) bs
    → All (λ b. text_gt a b ≡ false) bs
All-text_gt a [] h = tt
All-text_gt a (b ∷ bs) h = (sym (is_pos-compare_entries a b) ∙ h.0, All-text_gt a bs h.1)

IsSorted-compare_entries : (names : List Text) → IsSortedBy compare_entries names → IsSorted names
IsSorted-compare_entries [] h = tt
IsSorted-compare_entries (a ∷ as') h = (All-text_gt a as' h.0, IsSorted-compare_entries as' h.1)

All-at :
    (P : Text → Type 0)
    → ((name : Text) → IsProp (P name))
    → (names : List Text) (name : Text) → All P names
    → Mem name names
    → P name
All-at P p [] name h m = absurd (not-mem-nil m)
All-at P p (n ∷ names) name h m =
    Or.elim (p name) (eq-or-mem_of_mem-cons m) (λ e. subst P (sym e) h.0)
      (λ m'. All-at P p names name h.1 m')

All-mem :
    (P : Text → Type 0) (names : List Text)
    → ((name : Text) → Mem name names → P name)
    → All P names
All-mem P [] h = tt
All-mem P (n ∷ names) h = (h n mem-cons_self, All-mem P names (λ m k. h m (mem-cons_of_mem n k)))

All-Perm :
    (P : Text → Type 0)
    → ((name : Text) → IsProp (P name))
    → (xs ys : List Text) → Perm xs ys
    → All P ys
    → All P xs
All-Perm P p xs ys perm h = All-mem P xs (λ n m. All-at P p ys n h ((Perm.mem_iff perm).0 m))

lines-name : (name rest : Text) → IsPlain name → lines (name ++ b'\n' ∷ rest) ≡ name ∷ lines rest
unfolding lines in_front has_newline
lines-name [] rest h = refl
lines-name (c ∷ cs) rest h =
    let here : (c == b'\n') ≡ false = ground (arith, h) in
    let behind : has_newline cs ≡ false = ground (arith, h) in
    rw (here, lines-name cs rest behind) refl

lines-print_lines :
    (names : List Text)
    → ((name : Text) → Mem name names → IsPlain name)
    → lines (print_lines names) ≡ names
unfolding print_lines
lines-print_lines [] h = unfold lines in refl
lines-print_lines (name ∷ names) h =
    lines-name name (print_lines names) (h name mem-cons_self)
    ∙ ap (λ ls. name ∷ ls) (lines-print_lines names (λ n m. h n (mem-cons_of_mem name m)))

-- The first byte is a dot.
abbrev pub is_dotted : Text → Bool
is_dotted name = peek name == b'.'

-- Which names are shown, and which are not: with `-a` all are, and else those that do not begin with a dot.
abbrev pub IsSifted : Bool → List Text → List Text → Type 0
IsSifted true shown left = left ≡ []
IsSifted false shown left =
    All (λ name. is_dotted name ≡ false) shown × All (λ name. is_dotted name ≡ true) left

is_hidden-same : (name : Text) → is_hidden name ≡ is_dotted name
unfolding is_hidden
is_hidden-same [] = refl
is_hidden-same (c ∷ cs) = refl

visible_entries-all : (names : List Text) → visible_entries true names ≡ names
unfolding visible_entries
visible_entries-all [] = refl
visible_entries-all (name ∷ names) = ap (λ r. name ∷ r) (visible_entries-all names)

Perm-middle : (a : Text) (xs ys : List Text) → Perm (xs ++ a ∷ ys) (a ∷ xs ++ ys)
Perm-middle a [] ys = Perm.refl (a ∷ ys)
Perm-middle a (x ∷ xs) ys =
    Perm.trans (Perm.cons x (Perm-middle a xs ys)) (Perm.swap a x (xs ++ ys))

abbrev Sifting : Bool → List Text → List Text → Type 0
Sifting show shown names =
    (left : List Text) × Perm (shown ++ left) names × IsSifted show shown left

keep_out :
    (name : Text) (shown names : List Text)
    → is_dotted name ≡ true
    → Sifting false shown names
    → Sifting false shown (name ∷ names)
keep_out name shown names e (left, perm, (kept, out)) =
    (name ∷ left, Perm.trans (Perm-middle name shown left) (Perm.cons name perm), (kept, (e, out)))

keep_in :
    (name : Text) (shown names : List Text)
    → is_dotted name ≡ false
    → Sifting false shown names
    → Sifting false (name ∷ shown) (name ∷ names)
keep_in name shown names e (left, perm, (kept, out)) = (left, Perm.cons name perm, ((e, kept), out))

visible_entries-sifted : (names : List Text) → Sifting false (visible_entries false names) names
unfolding visible_entries
visible_entries-sifted [] = ([], Perm.refl [], (tt, tt))
visible_entries-sifted (name ∷ names) =
    if_ind (λ shown. Sifting false shown (name ∷ names)) (is_hidden name)
      (λ e.
        keep_out name (visible_entries false names) names (sym (is_hidden-same name) ∙ e)
          (visible_entries-sifted names))
      (λ e.
        keep_in name (visible_entries false names) names (sym (is_hidden-same name) ∙ e)
          (visible_entries-sifted names))

-- Sorting what is shown changes nothing of this.
visible_entries-sorted :
    (show : Bool) (names sorted : List Text)
    → Perm sorted (visible_entries show names)
    → Sifting show sorted names
visible_entries-sorted true names sorted perm =
    let same = subst (λ r. Perm sorted r) (visible_entries-all names) perm in
    ([], subst (λ r. Perm r names) (sym (append-nil sorted)) same, refl)
visible_entries-sorted false names sorted perm =
    let (left, parts, (kept, out)) = visible_entries-sifted names in
    (
      left,
      Perm.trans (Perm.append_right left perm) parts,
      (
        All-Perm (λ name. is_dotted name ≡ false) (λ name. hlevel) sorted
            (visible_entries false names) perm kept,
        out,
      ),
    )

All-front : (P : Text → Type 0) (xs ys : List Text) → All P (xs ++ ys) → All P xs
All-front P [] ys h = tt
All-front P (x ∷ xs) ys h = (h.0, All-front P xs ys h.1)

module _ (read_dir : Text → Option (List Text)) (qsort : (Text → Text → ℤ) → List Text → List Text)
    (home_dir : Text)
    (sorts : (cmp : Text → Text → ℤ)
      → IsOrder cmp
      → (names : List Text) → Perm (qsort cmp names) names × IsSortedBy cmp (qsort cmp names)) where
  -- With `-l`, in a directory no name of which has an end of a line in it, and where `qsort` sorts by whatever
  -- comparison function orders the names: `reveal` succeeds, and the lines that it prints are in the order of
  -- the bytes, and with the names left out they are the names in the directory, each as often as it is there.
  -- With `-a` none is left out; without it those are that begin with a dot, and no line begins with one.
  pub cmd_reveal-lines :
      (s : Place) (args : List Text) (o : Options) (names : List Text)
      → read_arguments home_dir s no_options args ≡ parsed o
      → o.long_format ≡ true
      → read_dir (dir_of read_dir qsort home_dir s o) ≡ some names
      → All IsPlain names
      → (shown : List Text) × (left : List Text) × (cmd_reveal read_dir qsort home_dir s args
          ≡ (print_lines shown, success))
        × (lines (print_lines shown) ≡ shown)
        × IsSorted shown
        × Perm (shown ++ left) names
        × IsSifted o.show_hidden shown left
  unfolding cmd_reveal reveal_parsed reveal_entries print_entries
  cmd_reveal-lines s args o names e l d h =
      let shown = qsort compare_entries (visible_entries o.show_hidden names) in
      let (perm, sorted) =
        sorts compare_entries compare_entries-IsOrder (visible_entries o.show_hidden names) in
      let (left, parts, sifted) = visible_entries-sorted o.show_hidden names shown perm in
      let plain =
        All-front IsPlain shown left
          (All-Perm IsPlain (λ name. hlevel) (shown ++ left) names parts h) in
      (
        shown,
        left,
        rw (e, d, l) refl,
        lines-print_lines shown (λ n m. All-at IsPlain (λ name. hlevel) shown n plain m),
        IsSorted-compare_entries shown sorted,
        parts,
        sifted,
      )
