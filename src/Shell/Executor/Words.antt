-- ===== src/Shell/Executor/Words.antt =====
-- `parse_command` of shell/src/executor.c against the tokens of shell/src/parser.c.
use operating_systems_and_ne.Prelude.{
  ℕ, zero, suc, ◌<◌, ◌≤◌, ◌≡◌, refl, sym, ap, ◌∙◌, Bool, true, false, Option, some, List, [], ◌∷◌,
  ◌++◌, ◌==◌, if◌then◌else◌, Text, peek, is_space, length, take, arith, Bool-cases, ==_iff, inl,
  inr,
}
use operating_systems_and_ne.Shell.Parser.{skip_whitespace, second_gt, scan_name, is_name_char}
use operating_systems_and_ne.Shell.Parser.Tokens.{
  Token, name, input, output, append, lex, LacksName, parse_name-Named, lex_in_gt,
  lex-skip_whitespace, is_space-peek-skip_whitespace, length-skip_whitespace,
}
use operating_systems_and_ne.Shell.Parser.Recognizer.{parse_name-some}
use operating_systems_and_ne.Shell.Executor.{
  ParsedCommand, no_command, is_word_char, scan_word, with_input, with_output, with_append,
  parse_word, next_word, parse_words, parse_command, copy_buffer,
}
use operating_systems_and_ne.Shell.Executor.Scan.{
  assemble, IsPlain, scan_word-IsPlain, skip-IsPlain, second_gt-IsPlain, length-second_gt,
  length-scan_word, Word, scan_word-Word,
}

-- What one round of the loop leaves: the same command in the end, of a shorter text.
record Round (s : Text) (cmd : ParsedCommand) (out : ParsedCommand × Text) : Type 0 where
  same : assemble cmd (lex s) ≡ assemble out.0 (lex out.1)
  plain : IsPlain out.1
  shorter : length out.1 < length s

assemble_input :
    (cmd : ParsedCommand) (ts : List Token)
    → LacksName ts
    → assemble cmd (input ∷ ts) ≡ assemble cmd ts
unfolding assemble
assemble_input cmd [] h = refl
assemble_input cmd (name n ∷ ts) h = absurd h
assemble_input cmd (t ∷ ts) h = refl

assemble_output :
    (cmd : ParsedCommand) (ts : List Token)
    → LacksName ts
    → assemble cmd (output ∷ ts) ≡ assemble cmd ts
unfolding assemble
assemble_output cmd [] h = refl
assemble_output cmd (name n ∷ ts) h = absurd h
assemble_output cmd (t ∷ ts) h = refl

assemble_append :
    (cmd : ParsedCommand) (ts : List Token)
    → LacksName ts
    → assemble cmd (append ∷ ts) ≡ assemble (with_append true cmd) ts
unfolding assemble
assemble_append cmd [] h = refl
assemble_append cmd (name n ∷ ts) h = absurd h
assemble_append cmd (t ∷ ts) h = refl

input-Word :
    (cmd : ParsedCommand) (p : Text × Text) (ts : List Token)
    → Word p ts
    → assemble cmd (input ∷ ts) ≡ assemble (with_input p.0 cmd) (lex p.1)
unfolding with_input
input-Word cmd ([], r) ts h = assemble_input cmd ts h.0 ∙ ap (assemble cmd) h.1
input-Word cmd (c ∷ w, r) ts h = rw h (unfold assemble in refl)

output-Word :
    (cmd : ParsedCommand) (second : Bool) (p : Text × Text) (ts : List Token)
    → Word p ts
    → assemble cmd ((if second then append else output) ∷ ts)
      ≡ assemble (with_output p.0 (with_append second cmd)) (lex p.1)
unfolding with_output
output-Word cmd true ([], r) ts h =
    assemble_append cmd ts h.0 ∙ ap (assemble (with_append true cmd)) h.1
output-Word cmd false ([], r) ts h = assemble_output cmd ts h.0 ∙ ap (assemble cmd) h.1
output-Word cmd true (c ∷ w, r) ts h = rw h (unfold assemble in refl)
output-Word cmd false (c ∷ w, r) ts h = rw h (unfold assemble in refl)

input-Round :
    (cs : Text) (cmd : ParsedCommand) → IsPlain cs → Round (b'<' ∷ cs) cmd (parse_word b'<' cs cmd)
unfolding parse_word lex
input-Round cs cmd h =
    let word = scan_word-Word cs h in
    record {
      same = input-Word cmd (scan_word (skip_whitespace cs)) (lex cs) word.0;
      plain = word.1;
      shorter = omega (arith, length-scan_word (skip_whitespace cs), length-skip_whitespace cs);
    }

output-Round :
    (cs : Text) (cmd : ParsedCommand) → IsPlain cs → Round (b'>' ∷ cs) cmd (parse_word b'>' cs cmd)
unfolding parse_word lex
output-Round cs cmd h =
    let (second, t) = second_gt cs in
    let word = scan_word-Word t (second_gt-IsPlain cs h) in
    record {
      same =
          ap (assemble cmd) (lex_in_gt cs)
          ∙ output-Word cmd second (scan_word (skip_whitespace t)) (lex t) word.0;
      plain = word.1;
      shorter = omega (
        arith,
        length-scan_word (skip_whitespace t),
        length-skip_whitespace t,
        length-second_gt cs,
      );
    }

parse_word_name :
    (c : ℕ) (cs : Text) (cmd : ParsedCommand)
    → is_name_char c ≡ true
    → IsPlain (c ∷ cs)
    → parse_word c cs cmd
      ≡ (record cmd { args = cmd.args ++ (c ∷ (scan_name cs).0) ∷ [] }, (scan_name cs).1)
unfolding parse_word scan_word is_name_char is_word_char
parse_word_name c cs cmd n h = ground (arith, scan_word-IsPlain cs h.1)

lex_name :
    (c : ℕ) (cs : Text)
    → is_name_char c ≡ true
    → lex (c ∷ cs) ≡ name (c ∷ (scan_name cs).0) ∷ lex (scan_name cs).1
lex_name c cs n =
    rw (parse_name-some c cs n) at (parse_name-Named (c ∷ cs) (unfold is_name_char in ground arith))

argument-Round :
    (c : ℕ) (cs : Text) (cmd : ParsedCommand)
    → is_name_char c ≡ true
    → IsPlain (c ∷ cs)
    → Round (c ∷ cs) cmd (parse_word c cs cmd)
argument-Round c cs cmd n h = rw (parse_word_name c cs cmd n h) (record {
  same = ap (assemble cmd) (lex_name c cs n) ∙ unfold assemble in refl;
  plain = (scan_word-IsPlain cs h.1).1;
  shorter = omega (
    arith,
    ap (λ (q : Text × Text). length q.1) (scan_word-IsPlain cs h.1).0,
    length-scan_word cs,
  );
})

parse_word-Round :
    (c : ℕ) (cs : Text) (cmd : ParsedCommand)
    → is_space c ≡ false
    → (c == 0) ≡ false
    → IsPlain (c ∷ cs)
    → Round (c ∷ cs) cmd (parse_word c cs cmd)
parse_word-Round c cs cmd e z h = elim (Bool-cases (c == b'<')) [
  | inl lt ↦ rw ((==_iff c b'<').0 lt) (input-Round cs cmd h.1)
  | inr no_lt ↦ elim (Bool-cases (c == b'>')) [
    | inl gt ↦ rw ((==_iff c b'>').0 gt) (output-Round cs cmd h.1)
    | inr no_gt ↦ argument-Round c cs cmd (unfold is_name_char in ground (arith, h.0)) h
  ]
]

lex_nul : (c : ℕ) (cs : Text) → (c == 0) ≡ true → lex (c ∷ cs) ≡ []
unfolding lex
lex_nul c cs h = ground arith

next_word_lem :
    (onward : ParsedCommand → Text → Option ParsedCommand) (f : ℕ) (cmd : ParsedCommand) (s : Text)
    → ((cmd' : ParsedCommand) (r : Text)
        → length r < f
        → IsPlain r
        → onward cmd' r ≡ some (assemble cmd' (lex r)))
    → length s ≤ f
    → is_space (peek s) ≡ false
    → IsPlain s
    → next_word onward cmd s ≡ some (assemble cmd (lex s))
unfolding next_word
next_word_lem onward f cmd [] ih l e h = unfold assemble lex in refl
next_word_lem onward f cmd (c ∷ cs) ih l e h = elim (Bool-cases (c == 0)) [
  | inl z ↦ rw (z, lex_nul c cs z) (unfold assemble in refl)
  | inr z ↦
      let round = parse_word-Round c cs cmd e z h in
      let out = parse_word c cs cmd in
      rw z (ih out.0 out.1 (omega (arith, round.shorter)) round.plain ∙ ap some (sym round.same))
]

parse_words_lem :
    (f : ℕ) (cmd : ParsedCommand) (s : Text)
    → length s < f
    → IsPlain s
    → parse_words f cmd s ≡ some (assemble cmd (lex s))
unfolding parse_words
parse_words_lem zero cmd s l h = absurd (omega arith)
parse_words_lem (suc f) cmd s l h =
    next_word_lem (parse_words f) f cmd (skip_whitespace s) (parse_words_lem f)
      (omega (arith, length-skip_whitespace s)) (is_space-peek-skip_whitespace s) (skip-IsPlain s h)
    ∙ ap (λ ts. some (assemble cmd ts)) (lex-skip_whitespace s)

take_all : (n : ℕ) (s : Text) → length s ≤ n → take n s ≡ s
take_all zero [] h = refl
take_all zero (c ∷ cs) h = absurd (omega arith)
take_all (suc n) [] h = refl
take_all (suc n) (c ∷ cs) h = ap (λ r. c ∷ r) (take_all n cs (omega arith))

pub copy_buffer_lem : (s : Text) → length s < 4096 → copy_buffer s ≡ s
copy_buffer_lem s h = take_all 4095 s (omega arith)

-- `parse_command` on a text of less than 4096 bytes with no pipe and no separator comes to an end within its fuel,
-- with the command that the tokens of the text describe; the array of its arguments is taken as unbounded.
pub parse_command_lem :
    (s : Text) → length s < 4096 → IsPlain s → parse_command s ≡ some (assemble no_command (lex s))
unfolding parse_command
parse_command_lem s l h =
    rw (copy_buffer_lem s l) (parse_words_lem (suc (length s)) no_command s (omega arith) h)
