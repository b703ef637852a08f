-- ===== src/Shell/Parser/Grammar.antt =====
-- The grammar in the comments of shell/src/parser.c, as syntax trees and the tokens they spell:
--   shell_cmd: cmd_group ((& | ;) cmd_group)* &?
--   cmd_group: atomic (\| atomic)*
--   atomic:    name (name | input | output)*
use operating_systems_and_ne.Prelude.{
  ◌≡◌, ◌↔◌, ◌⊎◌, refl, sym, ap, ◌∙◌, Bool, true, false, List, [], ◌∷◌, Text, inl, inr,
}
use operating_systems_and_ne.Shell.Parser.{parse_input, Verdict, accepted, rejected, unfinished}
use operating_systems_and_ne.Shell.Parser.Tokens.{
  Token, name, pipe, semicolon, ampersand, input, output, append, lex,
}
use operating_systems_and_ne.Shell.Parser.Recognizer.{
  State, line, command, item, file, background, recognize,
}
use operating_systems_and_ne.Shell.Parser.Decides.{Says, parse_input-Says}

pub data Item : Type 0 where
  argument input_from output_to append_to : Text → Item

-- A command name with what follows it.
abbrev pub Atomic : Type 0
Atomic = Text × List Item

abbrev pub Group : Type 0
Group = Atomic × List Atomic

pub data Separator : Type 0 where
  sequence in_background : Separator

-- The groups behind the first, and whether an ampersand ends the line.
pub data Line : Type 0 where
  empty : Line
  groups : Group → List (Separator × Group) → Bool → Line

-- The tokens of each, in front of others.
abbrev pub spell_item : Item → List Token → List Token
spell_item (argument n) ts = name n ∷ ts
spell_item (input_from n) ts = input ∷ name n ∷ ts
spell_item (output_to n) ts = output ∷ name n ∷ ts
spell_item (append_to n) ts = append ∷ name n ∷ ts

abbrev pub spell_items : List Item → List Token → List Token
spell_items [] ts = ts
spell_items (i ∷ is) ts = spell_item i (spell_items is ts)

abbrev pub spell_pipes : List Atomic → List Token → List Token
spell_pipes [] ts = ts
spell_pipes ((n, is) ∷ ps) ts = pipe ∷ name n ∷ spell_items is (spell_pipes ps ts)

abbrev pub spell_group : Group → List Token → List Token
spell_group ((n, is), ps) ts = name n ∷ spell_items is (spell_pipes ps ts)

abbrev pub spell_separator : Separator → Token
spell_separator sequence = semicolon
spell_separator in_background = ampersand

abbrev pub spell_groups : List (Separator × Group) → Bool → List Token
spell_groups [] true = ampersand ∷ []
spell_groups [] false = []
spell_groups ((s, g) ∷ gs) b = spell_separator s ∷ spell_group g (spell_groups gs b)

abbrev pub spell : Line → List Token
spell empty = []
spell (groups g gs b) = spell_group g (spell_groups gs b)

-- What may follow a command name.
record Rest : Type 0 where
  items : List Item
  pipes : List Atomic
  more : List (Separator × Group)
  trailing : Bool

abbrev spell_rest : Rest → List Token
spell_rest r = spell_items r.items (spell_pipes r.pipes (spell_groups r.more r.trailing))

abbrev Command : List Token → Type 0
Command ts = (n : Text) × (r : Rest) × (ts ≡ name n ∷ spell_rest r)

-- The tree behind each state of the automaton.
abbrev Tree : State → List Token → Type 0
Tree line ts = (ts ≡ []) ⊎ Command ts
Tree command ts = Command ts
Tree item ts = (r : Rest) × (ts ≡ spell_rest r)
Tree file ts = Command ts
Tree background ts = (ts ≡ []) ⊎ Command ts

with_item : {ts : List Token} (i : Item) → Tree item ts → Tree item (spell_item i ts)
with_item i (r, e) = (record r { items = i ∷ r.items }, ap (spell_item i) e)

with_pipe : {ts : List Token} → Command ts → Tree item (pipe ∷ ts)
with_pipe (n, r, e) =
    (record r { items = []; pipes = (n, r.items) ∷ r.pipes }, ap (λ ts. pipe ∷ ts) e)

with_separator : {ts : List Token} (s : Separator) → Command ts → Tree item (spell_separator s ∷ ts)
with_separator s (n, r, e) = (
  record {
    items = [];
    pipes = [];
    more = (s, ((n, r.items), r.pipes)) ∷ r.more;
    trailing = r.trailing;
  },
  ap (λ ts. spell_separator s ∷ ts) e,
)

with_ampersand : {ts : List Token} → Tree background ts → Tree item (ampersand ∷ ts)
with_ampersand (inl e) =
    (record { items = []; pipes = []; more = []; trailing = true }, ap (λ ts. ampersand ∷ ts) e)
with_ampersand (inr c) = with_separator in_background c

with_name : (n : Text) {ts : List Token} → Tree item ts → Command (name n ∷ ts)
with_name n (r, e) = (n, r, ap (λ ts. name n ∷ ts) e)

with_file :
    (i : Text → Item) (t : Token) {ts : List Token}
    → ((n : Text) (us : List Token) → spell_item (i n) us ≡ t ∷ name n ∷ us)
    → Command ts
    → Tree item (t ∷ ts)
with_file i t s (n, r, e) = (record r { items = i n ∷ r.items }, ap (λ us. t ∷ us) e ∙ sym (s n _))

recognize-Tree : (st : State) (ts : List Token) → recognize st ts ≡ true → Tree st ts
unfolding recognize
recognize-Tree line [] h = inl refl
recognize-Tree line (name n ∷ ts) h = inr (with_name n (recognize-Tree item ts h))
recognize-Tree line (t ∷ ts) h = cc
recognize-Tree command (name n ∷ ts) h = with_name n (recognize-Tree item ts h)
recognize-Tree command _ h = cc
recognize-Tree item [] h = (record { items = []; pipes = []; more = []; trailing = false }, refl)
recognize-Tree item (name n ∷ ts) h = with_item (argument n) (recognize-Tree item ts h)
recognize-Tree item (pipe ∷ ts) h = with_pipe (recognize-Tree command ts h)
recognize-Tree item (semicolon ∷ ts) h = with_separator sequence (recognize-Tree command ts h)
recognize-Tree item (ampersand ∷ ts) h = with_ampersand (recognize-Tree background ts h)
recognize-Tree item (input ∷ ts) h =
    with_file input_from input (λ n us. refl) (recognize-Tree file ts h)
recognize-Tree item (output ∷ ts) h =
    with_file output_to output (λ n us. refl) (recognize-Tree file ts h)
recognize-Tree item (append ∷ ts) h =
    with_file append_to append (λ n us. refl) (recognize-Tree file ts h)
recognize-Tree file (name n ∷ ts) h = with_name n (recognize-Tree item ts h)
recognize-Tree file _ h = cc
recognize-Tree background [] h = inl refl
recognize-Tree background (name n ∷ ts) h = inr (with_name n (recognize-Tree item ts h))
recognize-Tree background (t ∷ ts) h = cc

-- Conversely, the automaton reads what a tree spells.
recognize-spell_items :
    (is : List Item) (ts : List Token) → recognize item (spell_items is ts) ≡ recognize item ts
unfolding recognize
recognize-spell_items [] ts = refl
recognize-spell_items (argument n ∷ is) ts = recognize-spell_items is ts
recognize-spell_items (input_from n ∷ is) ts = recognize-spell_items is ts
recognize-spell_items (output_to n ∷ is) ts = recognize-spell_items is ts
recognize-spell_items (append_to n ∷ is) ts = recognize-spell_items is ts

recognize-spell_pipes :
    (ps : List Atomic) (ts : List Token) → recognize item (spell_pipes ps ts) ≡ recognize item ts
unfolding recognize
recognize-spell_pipes [] ts = refl
recognize-spell_pipes ((n, is) ∷ ps) ts = recognize-spell_items is _ ∙ recognize-spell_pipes ps ts

recognize-spell_groups :
    (gs : List (Separator × Group)) (b : Bool) → recognize item (spell_groups gs b) ≡ true
unfolding recognize
recognize-spell_groups [] true = refl
recognize-spell_groups [] false = refl
recognize-spell_groups ((sequence, ((n, is), ps)) ∷ gs) b =
    recognize-spell_items is _ ∙ recognize-spell_pipes ps _ ∙ recognize-spell_groups gs b
recognize-spell_groups ((in_background, ((n, is), ps)) ∷ gs) b =
    recognize-spell_items is _ ∙ recognize-spell_pipes ps _ ∙ recognize-spell_groups gs b

pub recognize-spell : (l : Line) → recognize line (spell l) ≡ true
unfolding recognize
recognize-spell empty = refl
recognize-spell (groups ((n, is), ps) gs b) =
    recognize-spell_items is _ ∙ recognize-spell_pipes ps _ ∙ recognize-spell_groups gs b

Tree-line : {ts : List Token} → Tree line ts → (l : Line) × (ts ≡ spell l)
Tree-line (inl e) = (empty, e)
Tree-line (inr (n, r, e)) = (groups ((n, r.items), r.pipes) r.more r.trailing, e)

accepted-Says : {b : Bool} (v : Verdict) → Says b v → (v ≡ accepted) ↔ (b ≡ true)
accepted-Says accepted h = (λ _. h, λ _. refl)
accepted-Says rejected h = (λ e. cc, λ e. cc)
accepted-Says unfinished h = absurd h

-- A command line is accepted exactly if its tokens are spelled by a syntax tree of the grammar.
pub parse_input_iff : (s : Text) → (parse_input s ≡ accepted) ↔ ((l : Line) × (lex s ≡ spell l))
parse_input_iff s =
    let says = accepted-Says (parse_input s) (parse_input-Says s) in
    (
      λ e. Tree-line (recognize-Tree line (lex s) (says.0 e)),
      λ (l, e). says.1 (rw e (recognize-spell l)),
    )

total : (b : Bool) (v : Verdict) → Says b v → (v ≡ accepted) ⊎ (v ≡ rejected)
total b accepted h = inl refl
total b rejected h = inr refl
total b unfinished h = absurd h

-- The loops of `parse_input` come to an end within their fuel: every line is accepted or rejected.
pub parse_input_total : (s : Text) → (parse_input s ≡ accepted) ⊎ (parse_input s ≡ rejected)
parse_input_total s = total (recognize line (lex s)) (parse_input s) (parse_input-Says s)
