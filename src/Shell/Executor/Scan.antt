-- ===== src/Shell/Executor/Scan.antt =====
-- The loops over a word in `parse_command` of shell/src/executor.c against the tokens of
-- shell/src/parser.c.
use operating_systems_and_ne.Prelude.{
  ◌≤◌, ◌≡◌, refl, sym, ap, ◌∙◌, true, false, ◌||◌, some, List, [], ◌∷◌, ◌++◌, ◌==◌, Text, length,
  arith, All,
}
use operating_systems_and_ne.Shell.Parser.{
  skip_whitespace, second_gt, scan_name, is_name_char, parse_name,
}
use operating_systems_and_ne.Shell.Parser.Tokens.{
  Token, name, input, output, append, lex, LacksName, Named, parse_name-Named, lex-skip_whitespace,
  is_space-peek-skip_whitespace,
}
use operating_systems_and_ne.Shell.Executor.{ParsedCommand, is_word_char, scan_word, with_append}

-- The command that a list of tokens describes.
unfoldable pub assemble : ParsedCommand → List Token → ParsedCommand
assemble cmd [] = cmd
assemble cmd (name n ∷ ts) = assemble (record cmd { args = cmd.args ++ n ∷ [] }) ts
assemble cmd (input ∷ name n ∷ ts) = assemble (record cmd { input_file = some n }) ts
assemble cmd (output ∷ name n ∷ ts) = assemble (record cmd { output_file = some n }) ts
assemble cmd (append ∷ name n ∷ ts) =
    assemble (record cmd { output_file = some n; append_output = true }) ts
assemble cmd (append ∷ ts) = assemble (with_append true cmd) ts
assemble cmd (t ∷ ts) = assemble cmd ts

-- No byte is a pipe or a separator.
abbrev pub IsPlain : Text → Type 0
IsPlain = All (λ c. (c == b'|' || c == b';' || c == b'&') ≡ false)

-- There, words are names.
pub scan_word-IsPlain :
    (s : Text) → IsPlain s → (scan_word s ≡ scan_name s) × IsPlain (scan_name s).1
unfolding scan_word scan_name is_word_char is_name_char
scan_word-IsPlain [] h = (refl, tt)
scan_word-IsPlain (c ∷ cs) h = ground (arith, scan_word-IsPlain cs h.1)

pub skip-IsPlain : (s : Text) → IsPlain s → IsPlain (skip_whitespace s)
unfolding skip_whitespace
skip-IsPlain [] h = tt
skip-IsPlain (c ∷ cs) h = ground (arith, skip-IsPlain cs h.1)

pub second_gt-IsPlain : (s : Text) → IsPlain s → IsPlain (second_gt s).1
unfolding second_gt
second_gt-IsPlain [] h = tt
second_gt-IsPlain (c ∷ cs) h = ground arith

pub length-second_gt : (s : Text) → length (second_gt s).1 ≤ length s
unfolding second_gt
length-second_gt [] = omega arith
length-second_gt (c ∷ cs) = ground arith

pub length-scan_word : (s : Text) → length (scan_word s).1 ≤ length s
unfolding scan_word
length-scan_word [] = omega arith
length-scan_word (c ∷ cs) = ground (arith, length-scan_word cs)

-- A word and the text behind it, against the tokens at the word.
abbrev pub Word : Text × Text → List Token → Type 0
Word ([], r) ts = LacksName ts × (ts ≡ lex r)
Word (c ∷ w, r) ts = ts ≡ name (c ∷ w) ∷ lex r

scan_name_empty : (s : Text) → (scan_name s).0 ≡ [] → (scan_name s).1 ≡ s
unfolding scan_name
scan_name_empty [] e = refl
scan_name_empty (c ∷ cs) e = ground arith

Named-Word :
    (p : Text × Text) (s : Text) → p ≡ scan_name s → Named (parse_name s) (lex s) → Word p (lex s)
unfolding parse_name
Named-Word ([], r) s e n =
    let at_s : r ≡ s =
      ap (λ (q : Text × Text). q.1) e ∙ scan_name_empty s (sym (ap (λ (q : Text × Text). q.0) e)) in
    (rw (← e) at n, ap lex (sym at_s))
Named-Word (c ∷ w, r) s e n = rw (← e) at n

pub scan_word-Word :
    (s : Text)
    → IsPlain s
    → Word (scan_word (skip_whitespace s)) (lex s) × IsPlain (scan_word (skip_whitespace s)).1
scan_word-Word s h =
    let t = skip_whitespace s in
    let same = scan_word-IsPlain t (skip-IsPlain s h) in
    let word : Word (scan_name t) (lex t) =
      Named-Word (scan_name t) t refl (parse_name-Named t (is_space-peek-skip_whitespace s)) in
    rw same.0 (rw lex-skip_whitespace at word, same.1)
