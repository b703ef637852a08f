-- ===== src/Shell/Parser/Follows.antt =====
-- What each loop of shell/src/parser.c has read of the tokens when it stops.
use operating_systems_and_ne.Prelude.{
  ℕ, zero, suc, ◌<◌, ◌≤◌, ◌≡◌, refl, ==_iff, ◌∙◌, Bool, true, false, Option, none, some, [], ◌∷◌,
  arith, ◌==◌, Text, is_space, peek, advance, length, ◌||◌,
}
use operating_systems_and_ne.Shell.Parser.{
  skip_whitespace, parse_items, items_after, parse_atomic, parse_pipes, parse_cmd_group, Parse,
  done, invalid, out_of_fuel, ends_atomic, next_item, and_then, next_pipe,
}
use operating_systems_and_ne.Shell.Parser.Tokens.{
  lex, length-skip_whitespace, lex-skip_whitespace, is_space-peek-skip_whitespace,
  skip_whitespace_settled,
}
use operating_systems_and_ne.Shell.Parser.Recognizer.{
  State, recognize, Item, Begins, parse_name-Begins, parse_item-Item, command, item, background,
}

-- What a parse function that returns `p` says, read from state `st`; it stops where `ends` holds.
abbrev pub Follows : (ℕ → Bool) → State → Text → Parse → Type 0
Follows ends st s (done r) =
    (recognize st (lex s) ≡ recognize item (lex r)) × (ends (peek r) ≡ true) × (length r ≤ length s)
Follows ends st s invalid = recognize st (lex s) ≡ false
Follows ends st s out_of_fuel = ⊥

Follows-trans :
    (ends : ℕ → Bool) (st st' : State) (s r : Text) (p : Parse)
    → recognize st (lex s) ≡ recognize st' (lex r)
    → length r ≤ length s
    → Follows ends st' r p
    → Follows ends st s p
Follows-trans ends st st' s r (done t) e l h = (e ∙ h.0, h.1, omega arith)
Follows-trans ends st st' s r invalid e l h = e ∙ h
Follows-trans ends st st' s r out_of_fuel e l h = h

next_item-Follows :
    (onward : Text → Parse) (f : ℕ) (s : Text) (b : Bool) (o : Option Text)
    → ((r : Text) → length r < f → Follows ends_atomic item r (onward r))
    → ends_atomic (peek s) ≡ b
    → (b ≡ false → Item s o)
    → length s ≤ f
    → Follows ends_atomic item s (next_item onward s b o)
unfolding next_item
next_item-Follows onward f s true o ih e i l = (refl, e, omega arith)
next_item-Follows onward f s false none ih e i l = i refl
next_item-Follows onward f s false (some r) ih e i l =
    Follows-trans ends_atomic item item s r (onward r) (i refl).0 (omega (arith, (i refl).1))
      (ih r (omega (arith, (i refl).1)))

parse_items-Follows :
    (f : ℕ) (s : Text) → length s < f → Follows ends_atomic item s (parse_items f s)
unfolding parse_items
parse_items-Follows zero s h = absurd (omega arith)
parse_items-Follows (suc f) s h =
    Follows-trans ends_atomic item item s (skip_whitespace s) (parse_items (suc f) s)
      (rw (lex-skip_whitespace s)) (length-skip_whitespace s)
      (next_item-Follows (parse_items f) f (skip_whitespace s) _ _ (parse_items-Follows f) refl
        (parse_item-Item (skip_whitespace s) (is_space-peek-skip_whitespace s))
        (omega (arith, length-skip_whitespace s)))

items_after_name :
    (s : Text) (o : Option (Text × Text))
    → Begins command s o
    → Follows ends_atomic command s (items_after o)
unfolding items_after
items_after_name s none b = b
items_after_name s (some (n, r)) b =
    Follows-trans ends_atomic command item s r _ b.0 (omega (arith, b.1))
      (parse_items-Follows (suc (length r)) r (omega arith))

parse_atomic-Follows : (s : Text) → Follows ends_atomic command s (parse_atomic s)
unfolding parse_atomic
parse_atomic-Follows s = items_after_name s _ (parse_name-Begins s).0

-- Leading whitespace makes no difference.
pub Follows-skip :
    (ends : ℕ → Bool) (st : State) (s : Text) (p : Parse)
    → Follows ends st (skip_whitespace s) p
    → Follows ends st s p
Follows-skip ends st s p h =
    Follows-trans ends st st s (skip_whitespace s) p (rw (lex-skip_whitespace s))
      (length-skip_whitespace s) h

abbrev pub ends_group : ℕ → Bool
ends_group c = c == 0 || c == b'&' || c == b';'

pub ends_atomic_settled : (c : ℕ) → ends_atomic c ≡ true → is_space c ≡ false
unfolding is_space
ends_atomic_settled c h = ground arith

-- The tokens at a separator, and at the end.
pub at_nul : (s : Text) → (peek s == 0) ≡ true → lex s ≡ []
unfolding lex
at_nul [] h = refl
at_nul (c ∷ cs) h = ground arith

at_pipe :
    (s : Text)
    → (peek s == b'|') ≡ true
    → (recognize item (lex s) ≡ recognize command (lex (advance s)))
      × (length (advance s) < length s)
unfolding lex recognize
at_pipe [] h = cc
at_pipe (c ∷ cs) h = rw ((==_iff c b'|').0 h) (refl, omega arith)

pub at_semicolon :
    (s : Text)
    → (peek s == b';') ≡ true
    → (recognize item (lex s) ≡ recognize command (lex (advance s)))
      × (length (advance s) < length s)
unfolding lex recognize
at_semicolon [] h = cc
at_semicolon (c ∷ cs) h = rw ((==_iff c b';').0 h) (refl, omega arith)

pub at_ampersand :
    (s : Text)
    → (peek s == b'&') ≡ true
    → (recognize item (lex s) ≡ recognize background (lex (advance s)))
      × (length (advance s) < length s)
unfolding lex recognize
at_ampersand [] h = cc
at_ampersand (c ∷ cs) h = rw ((==_iff c b'&').0 h) (refl, omega arith)

and_then-Follows :
    (onward : Text → Parse) (st : State) (s : Text) (p : Parse)
    → Follows ends_atomic st s p
    → ((r : Text)
        → length r ≤ length s
        → ends_atomic (peek r) ≡ true
        → Follows ends_group item r (onward r))
    → Follows ends_group st s (and_then onward p)
unfolding and_then
and_then-Follows onward st s (done r) h k =
    Follows-trans ends_group st item s r _ h.0 h.2 (k r h.2 h.1)
and_then-Follows onward st s invalid h k = h
and_then-Follows onward st s out_of_fuel h k = h

next_pipe-Follows :
    (onward : Text → Parse) (f : ℕ) (s : Text) (b : Bool)
    → ((r : Text)
        → length r < f
        → ends_atomic (peek r) ≡ true
        → Follows ends_group item r (onward r))
    → (peek s == b'|') ≡ b
    → ends_atomic (peek s) ≡ true
    → length s ≤ f
    → Follows ends_group item s (next_pipe onward s b)
unfolding next_pipe
next_pipe-Follows onward f s false ih e a l = (refl, ground arith, omega arith)
next_pipe-Follows onward f s true ih e a l =
    let (pipes, shorter) = at_pipe s e in
    Follows-trans ends_group item command s (advance s) _ pipes (omega arith) (
      and_then-Follows onward command (advance s) _
        (Follows-skip ends_atomic command (advance s) _
          (parse_atomic-Follows (skip_whitespace (advance s))))
        (λ r h a. ih r (omega arith) a))

parse_pipes-Follows :
    (f : ℕ) (s : Text)
    → length s < f
    → ends_atomic (peek s) ≡ true
    → Follows ends_group item s (parse_pipes f s)
unfolding parse_pipes
parse_pipes-Follows zero s h a = absurd (omega arith)
parse_pipes-Follows (suc f) s h a =
    rw (skip_whitespace_settled s (ends_atomic_settled (peek s) a))
      (next_pipe-Follows (parse_pipes f) f s _ (parse_pipes-Follows f) refl a (omega arith))

pub parse_cmd_group-Follows : (s : Text) → Follows ends_group command s (parse_cmd_group s)
unfolding parse_cmd_group
parse_cmd_group-Follows s =
    and_then-Follows _ command s _
      (Follows-skip ends_atomic command s _ (parse_atomic-Follows (skip_whitespace s)))
      (λ r l a. parse_pipes-Follows (suc (length r)) r (omega arith) a)
