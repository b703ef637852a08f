-- ===== src/Shell/Parser/Recognizer.antt =====
-- An automaton over the tokens of a command line, and what one word or redirection of
-- shell/src/parser.c has read.
use operating_systems_and_ne.Prelude.{
  ℕ, ◌<◌, ◌≤◌, ◌≡◌, refl, sym, ==_iff, Bool, true, false, Option, none, some, List, [], ◌∷◌, arith,
  ◌==◌, Text, is_space, peek, length, Bool-cases, inl, inr,
}
use operating_systems_and_ne.Shell.Parser.{
  is_name_char, skip_whitespace, scan_name, parse_name, second_gt, parse_item, ends_atomic,
}
use operating_systems_and_ne.Shell.Parser.Tokens.{
  Token, name, pipe, semicolon, ampersand, lex, LacksName, Named, parse_name-Named, lex_in_gt,
  length-parse_name, length-skip_whitespace, lex-skip_whitespace, is_space-peek-skip_whitespace,
}

-- Where in the grammar a token list goes on.
pub data State : Type 0 where
  line command item file background : State

unfoldable pub recognize : State → List Token → Bool
recognize line [] = true
recognize line (name n ∷ ts) = recognize item ts
recognize line (t ∷ ts) = false
recognize command (name n ∷ ts) = recognize item ts
recognize command ts = false
recognize item [] = true
recognize item (name n ∷ ts) = recognize item ts
recognize item (pipe ∷ ts) = recognize command ts
recognize item (semicolon ∷ ts) = recognize command ts
recognize item (ampersand ∷ ts) = recognize background ts
recognize item (t ∷ ts) = recognize file ts
recognize file (name n ∷ ts) = recognize item ts
recognize file ts = false
recognize background [] = true
recognize background (name n ∷ ts) = recognize item ts
recognize background (t ∷ ts) = false

recognize-LacksName :
    (ts : List Token) → LacksName ts → (recognize command ts ≡ false) × (recognize file ts ≡ false)
unfolding recognize
recognize-LacksName [] h = (refl, refl)
recognize-LacksName (name n ∷ ts) h = absurd h
recognize-LacksName (t ∷ ts) h = (refl, refl)

-- What the outcome of one argument or redirection says.
abbrev pub Item : Text → Option Text → Type 0
Item s none = recognize item (lex s) ≡ false
Item s (some r) = (recognize item (lex s) ≡ recognize item (lex r)) × (length r < length s)

Named-skip : (s : Text) → Named (parse_name (skip_whitespace s)) (lex s)
Named-skip s =
    let h = parse_name-Named (skip_whitespace s) (is_space-peek-skip_whitespace s) in
    rw lex-skip_whitespace at h

-- A name at the front, read where the grammar wants one: behind a redirection sign, or as the
-- first word of a command.
abbrev pub Begins : State → Text → Option (Text × Text) → Type 0
Begins st t none = recognize st (lex t) ≡ false
Begins st t (some (n, r)) = (recognize st (lex t) ≡ recognize item (lex r)) × (length r < length t)

Begins-of :
    (t : Text) (o : Option (Text × Text))
    → o ≡ parse_name (skip_whitespace t)
    → Begins command t o × Begins file t o
unfolding recognize
Begins-of t none e = recognize-LacksName (lex t) (rw (← e) at (Named-skip t))
Begins-of t (some (n, r)) e =
    let ts : lex t ≡ name n ∷ lex r = rw (← e) at (Named-skip t) in
    let l : length r < length t =
      omega (arith, length-parse_name (skip_whitespace t) n r (sym e), length-skip_whitespace t) in
    ((rw ts, l), (rw ts, l))

pub parse_name-Begins :
    (t : Text)
    → Begins command t (parse_name (skip_whitespace t))
      × Begins file t (parse_name (skip_whitespace t))
parse_name-Begins t = Begins-of t _ refl

length-second_gt : (s : Text) → length (second_gt s).1 ≤ length s
unfolding second_gt
length-second_gt [] = omega arith
length-second_gt (c ∷ cs) = ground arith

parse_name-none : (c : ℕ) (cs : Text) → is_name_char c ≡ false → parse_name (c ∷ cs) ≡ none
unfolding parse_name scan_name
parse_name-none c cs h = ground arith

input-Item : (cs : Text) → Item (b'<' ∷ cs) (parse_item (b'<' ∷ cs))
unfolding parse_item lex recognize is_name_char
input-Item cs = ground (arith, parse_name-Begins cs, parse_name-none b'<' cs refl)

output-Item : (cs : Text) → Item (b'>' ∷ cs) (parse_item (b'>' ∷ cs))
unfolding parse_item lex recognize is_name_char
output-Item cs = ground (
  arith,
  lex_in_gt cs,
  length-second_gt cs,
  parse_name-Begins (second_gt cs).1,
  parse_name-none b'>' cs refl,
)

pub parse_name-some :
    (c : ℕ) (cs : Text)
    → is_name_char c ≡ true
    → parse_name (c ∷ cs) ≡ some (c ∷ (scan_name cs).0, (scan_name cs).1)
unfolding parse_name scan_name
parse_name-some c cs h = ground arith

argument-Item : (c : ℕ) (cs : Text) → is_name_char c ≡ true → Item (c ∷ cs) (parse_item (c ∷ cs))
unfolding parse_item recognize is_name_char
argument-Item c cs h =
    let found = parse_name-some c cs h in
    let named = rw found at (parse_name-Named (c ∷ cs) (ground arith)) in
    ground (arith, found, named, length-parse_name (c ∷ cs) _ _ found)

pub parse_item-Item :
    (s : Text) → is_space (peek s) ≡ false → ends_atomic (peek s) ≡ false → Item s (parse_item s)
parse_item-Item [] h e = cc
parse_item-Item (c ∷ cs) h e = elim (Bool-cases (c == b'<')) [
  | inl lt ↦ rw ((==_iff c b'<').0 lt) (input-Item cs)
  | inr no_lt ↦ elim (Bool-cases (c == b'>')) [
    | inl gt ↦ rw ((==_iff c b'>').0 gt) (output-Item cs)
    | inr no_gt ↦ argument-Item c cs (unfold is_name_char in ground arith)
  ]
]
