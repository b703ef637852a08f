-- ===== src/Shell/Parser/Tokens.antt =====
-- The tokens of shell/include/parser.h, and what `parse_input` says of a token list: a reference
-- for the validator of shell/src/parser.c, which works on the bytes themselves.
use operating_systems_and_ne.Prelude.{
  ℕ, ◌≡◌, ◌≢◌, refl, false, Option, none, some, List, [], ◌∷◌, ◌++◌, append_assoc, append-nil,
  arith, ◌==◌, if◌then◌else◌, Text, is_space, length, peek, ◌<◌, ◌≤◌,
}
use operating_systems_and_ne.Shell.Parser.{
  is_name_char, skip_whitespace, scan_name, parse_name, second_gt,
}

-- `TokenType` with the token's `value`; the end of the list is TOKEN_END.
pub data Token : Type 0 where
  name : Text → Token
  pipe semicolon ampersand input output append : Token

-- What the bytes read so far leave open.
pub data Mode : Type 0 where
  between : Mode
  in_name : Text → Mode
  after_gt : Mode

-- The tokens that the bytes before the next one settle, and the new mode.
unfoldable pub lex_between : ℕ → List Token × Mode
unfolding is_name_char is_space
lex_between c =
    if is_space c
    then ([], between)
    else if is_name_char c
    then ([], in_name (c ∷ []))
    else if c == b'>'
    then ([], after_gt)
    else if c == b'<'
    then (input ∷ [], between)
    else if c == b'|'
    then (pipe ∷ [], between)
    else if c == b'&'
    then (ampersand ∷ [], between)
    else (semicolon ∷ [], between)

abbrev after : Token → List Token × Mode → List Token × Mode
after t (ts, m) = (t ∷ ts, m)

unfoldable pub lex_step : Mode → ℕ → List Token × Mode
lex_step between c = lex_between c
lex_step (in_name n) c =
    if is_name_char c then ([], in_name (n ++ c ∷ [])) else after (name n) (lex_between c)
lex_step after_gt c = if c == b'>' then (append ∷ [], between) else after output (lex_between c)

-- The token that the end of the text settles.
abbrev pub flush : Mode → List Token
flush between = []
flush (in_name n) = name n ∷ []
flush after_gt = output ∷ []

unfoldable pub lex_in : Mode → Text → List Token
unfolding lex_step lex_between
lex_in m [] = flush m
lex_in m (c ∷ cs) = let (ts, m') = lex_step m c in if c == 0 then flush m else ts ++ lex_in m' cs

-- The tokens of a text, up to its end or a NUL.
unfoldable pub lex : Text → List Token
unfolding lex_in
lex = lex_in between

-- The lexer against the functions of the validator that read names and skip whitespace.
pub lex-skip_whitespace : (s : Text) → lex (skip_whitespace s) ≡ lex s
unfolding lex skip_whitespace
lex-skip_whitespace [] = refl
lex-skip_whitespace (c ∷ cs) = ground (arith, lex-skip_whitespace cs)

lex_in_name :
    (n s : Text) → lex_in (in_name n) s ≡ name (n ++ (scan_name s).0) ∷ lex (scan_name s).1
unfolding lex scan_name
lex_in_name n [] = rw append-nil
lex_in_name n (c ∷ cs) =
    ground
      (arith, lex_in_name (n ++ c ∷ []) cs, append_assoc n (c ∷ []) (scan_name cs).0, append-nil n)

pub lex_in_gt :
    (s : Text)
    → lex_in after_gt s ≡ (if (second_gt s).0 then append else output) ∷ lex (second_gt s).1
unfolding lex second_gt
lex_in_gt [] = refl
lex_in_gt (c ∷ cs) = ground arith

-- No name stands at the front.
abbrev pub LacksName : List Token → Type 0
LacksName (name n ∷ ts) = ⊥
LacksName _ = Unit

-- What the result of `parse_name` says of the tokens at its argument.
abbrev pub Named : Option (Text × Text) → List Token → Type 0
Named (some (n, r)) ts = ts ≡ name n ∷ lex r
Named none ts = LacksName ts

pub parse_name-Named : (s : Text) → is_space (peek s) ≡ false → Named (parse_name s) (lex s)
unfolding lex parse_name scan_name
parse_name-Named [] h = tt
parse_name-Named (c ∷ cs) h = ground (arith, lex_in_name (c ∷ []) cs, lex_in_gt cs)

length-scan_name : (s : Text) → length (scan_name s).1 ≤ length s
unfolding scan_name
length-scan_name [] = omega arith
length-scan_name (c ∷ cs) = ground (arith, length-scan_name cs)

pub length-parse_name : (s n r : Text) → parse_name s ≡ some (n, r) → length r < length s
unfolding parse_name scan_name
length-parse_name [] n r h = cc
length-parse_name (c ∷ cs) n r h = ground (arith, length-scan_name cs)

pub length-skip_whitespace : (s : Text) → length (skip_whitespace s) ≤ length s
unfolding skip_whitespace
length-skip_whitespace [] = omega arith
length-skip_whitespace (c ∷ cs) = ground (arith, length-skip_whitespace cs)

pub is_space-peek-skip_whitespace : (s : Text) → is_space (peek (skip_whitespace s)) ≡ false
unfolding skip_whitespace is_space
is_space-peek-skip_whitespace [] = refl
is_space-peek-skip_whitespace (c ∷ cs) = ground (arith, is_space-peek-skip_whitespace cs)

-- At a byte that is no whitespace there is nothing to skip.
pub skip_whitespace_settled : (s : Text) → is_space (peek s) ≡ false → skip_whitespace s ≡ s
unfolding skip_whitespace
skip_whitespace_settled [] h = refl
skip_whitespace_settled (c ∷ cs) h = ground arith

-- Where the text goes on with no whitespace there is a token.
pub lex_ne_nil : (s : Text) → (peek s == 0) ≡ false → is_space (peek s) ≡ false → lex s ≢ []
unfolding lex
lex_ne_nil [] h e = λ q. cc
lex_ne_nil (c ∷ cs) h e = λ q. ground (arith, lex_in_name (c ∷ []) cs, lex_in_gt cs)
