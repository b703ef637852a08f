-- ===== src/Shell/Parser/Decides.antt =====
-- The recursive descent of shell/src/parser.c decides what the automaton below says of the tokens.
use operating_systems_and_ne.Prelude.{
  ℕ, zero, suc, ◌<◌, ◌≤◌, ◌≡◌, ◌≢◌, refl, sym, ◌∙◌, Bool, true, false, List, [], ◌∷◌, arith, ◌==◌,
  if◌then◌else◌, Text, peek, advance, length, Bool-cases, inl, inr,
}
use operating_systems_and_ne.Shell.Parser.{
  skip_whitespace, parse_cmd_group, parse_groups, parse_input, Parse, done, invalid, out_of_fuel,
  Verdict, accepted, rejected, unfinished, after_group, next_group,
}
use operating_systems_and_ne.Shell.Parser.Tokens.{
  Token, name, lex, lex-skip_whitespace, is_space-peek-skip_whitespace, skip_whitespace_settled,
  lex_ne_nil,
}
use operating_systems_and_ne.Shell.Parser.Follows.{
  Follows, Follows-skip, ends_group, ends_atomic_settled, at_nul, at_semicolon, at_ampersand,
  parse_cmd_group-Follows,
}
use operating_systems_and_ne.Shell.Parser.Recognizer.{
  State, line, command, item, background, recognize,
}

abbrev pub Says : Bool → Verdict → Type 0
Says b accepted = b ≡ true
Says b rejected = b ≡ false
Says b unfinished = ⊥

after_group-Says :
    (onward : Text → Verdict) (st : State) (s : Text) (p : Parse)
    → Follows ends_group st s p
    → ((r : Text)
        → length r ≤ length s
        → ends_group (peek r) ≡ true
        → Says (recognize item (lex r)) (onward r))
    → Says (recognize st (lex s)) (after_group onward p)
unfolding after_group
after_group-Says onward st s (done r) h k = rw h.0 (k r h.2 h.1)
after_group-Says onward st s invalid h k = h
after_group-Says onward st s out_of_fuel h k = h

-- Behind an ampersand the line may end; else a command follows.
recognize-background : (ts : List Token) → ts ≢ [] → recognize background ts ≡ recognize command ts
unfolding recognize
recognize-background [] h = absurd (h refl)
recognize-background (name n ∷ ts) h = refl
recognize-background (t ∷ ts) h = refl

recognize_line : (ts : List Token) → ts ≢ [] → recognize line ts ≡ recognize command ts
unfolding recognize
recognize_line [] h = absurd (h refl)
recognize_line (name n ∷ ts) h = refl
recognize_line (t ∷ ts) h = refl

Onward : ℕ → (Text → Verdict) → Type 0
Onward f onward =
    (r : Text)
    → length r < f
    → ends_group (peek r) ≡ true
    → Says (recognize item (lex r)) (onward r)

-- The group behind a separator at `s`.
behind-Says :
    (onward : Text → Verdict) (f : ℕ) (t : Text)
    → Onward f onward
    → length t < f
    → Says (recognize command (lex t)) (after_group onward (parse_cmd_group (skip_whitespace t)))
unfolding Onward
behind-Says onward f t ih l =
    after_group-Says onward command t _
      (Follows-skip ends_group command t _ (parse_cmd_group-Follows (skip_whitespace t)))
      (λ r m a. ih r (omega arith) a)

lex_skipped_nul : (t : Text) → (peek (skip_whitespace t) == 0) ≡ true → lex t ≡ []
lex_skipped_nul t h = sym (lex-skip_whitespace t) ∙ at_nul (skip_whitespace t) h

lex_skipped_ne : (t : Text) → (peek (skip_whitespace t) == 0) ≡ false → lex t ≢ []
lex_skipped_ne t h =
    rw lex-skip_whitespace at (lex_ne_nil (skip_whitespace t) h (is_space-peek-skip_whitespace t))

ampersand-Says :
    (onward : Text → Verdict) (f : ℕ) (t : Text)
    → Onward f onward
    → length t < f
    → Says (recognize background (lex t)) (
        if peek (skip_whitespace t) == 0
        then accepted
        else after_group onward (parse_cmd_group (skip_whitespace t)))
ampersand-Says onward f t ih l = elim (Bool-cases (peek (skip_whitespace t) == 0)) [
  | inl end ↦ rw (end, lex_skipped_nul t end) (unfold recognize in refl)
  | inr more ↦
      rw (more, recognize-background (lex t) (lex_skipped_ne t more)) (behind-Says onward f t ih l)
]

next_group-Says :
    (onward : Text → Verdict) (f : ℕ) (s : Text)
    → Onward f onward
    → ends_group (peek s) ≡ true
    → length s ≤ f
    → Says (recognize item (lex s)) (next_group onward s)
unfolding next_group
next_group-Says onward f s ih a l = elim (Bool-cases (peek s == 0)) [
  | inl end ↦ rw (end, at_nul s end) (unfold recognize in refl)
  | inr go ↦ elim (Bool-cases (peek s == b'&')) [
    | inl amp ↦
        rw (go, amp, (at_ampersand s amp).0)
          (ampersand-Says onward f (advance s) ih (omega (arith, (at_ampersand s amp).1)))
    | inr other ↦ elim (Bool-cases (peek s == b';')) [
      | inl semi ↦
          rw (go, other, semi, (at_semicolon s semi).0)
            (behind-Says onward f (advance s) ih (omega (arith, (at_semicolon s semi).1)))
      | inr bad ↦ absurd (ground arith)
    ]
  ]
]

parse_groups-Says :
    (f : ℕ) (s : Text)
    → length s < f
    → ends_group (peek s) ≡ true
    → Says (recognize item (lex s)) (parse_groups f s)
unfolding parse_groups Onward
parse_groups-Says zero s h a = absurd (omega arith)
parse_groups-Says (suc f) s h a =
    rw (skip_whitespace_settled s (ends_atomic_settled (peek s) (ground arith)))
      (next_group-Says (parse_groups f) f s (parse_groups-Says f) a (omega arith))

-- `parse_input` always comes to an end within its fuel, and its answer is what the automaton says
-- of the tokens: accepted exactly if the automaton accepts, rejected exactly if it does not.
pub parse_input-Says : (s : Text) → Says (recognize line (lex s)) (parse_input s)
unfolding parse_input
parse_input-Says s = elim (Bool-cases (peek (skip_whitespace s) == 0)) [
  | inl end ↦ rw (end, lex_skipped_nul s end) (unfold recognize in refl)
  | inr more ↦
      rw (more, recognize_line (lex s) (lex_skipped_ne s more))
        (after_group-Says _ command s _
          (Follows-skip ends_group command s _ (parse_cmd_group-Follows (skip_whitespace s)))
          (λ r m a. parse_groups-Says (suc (length r)) r (omega arith) a))
]
