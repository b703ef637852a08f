-- ===== src/Shell/Executor/Plan.antt =====
-- What shell/src/executor.c runs of a line that shell/src/parser.c accepted: the commands of the
-- line's syntax tree, and no other.
use operating_systems_and_ne.Prelude.{
  ◌<◌, ◌≡◌, refl, ap, ◌∙◌, Bool, true, false, some, List, [], ◌∷◌, ◌++◌, Text, length, map,
}
use operating_systems_and_ne.Shell.Parser.{parse_input, accepted}
use operating_systems_and_ne.Shell.Parser.Tokens.{Token, name, input, output, append, lex}
use operating_systems_and_ne.Shell.Parser.Grammar.{
  Item, argument, input_from, output_to, append_to, Atomic, Group, Separator, sequence,
  in_background, Line, empty, groups, spell, spell_items, spell_pipes, spell_group, spell_groups,
  parse_input_iff,
}
use operating_systems_and_ne.Shell.Executor.{ParsedCommand, no_command, plan}
use operating_systems_and_ne.Shell.Executor.Scan.{assemble}
use operating_systems_and_ne.Shell.Executor.Signs.{cut_tokens, is_pipe_token, is_separator_token}
use operating_systems_and_ne.Shell.Executor.Pieces.{commands_of, group_of, all_parsed}
use operating_systems_and_ne.Shell.Executor.Groups.{later_of, groups_of, plan_lem}

-- What a command with its arguments and redirections is executed as.
unfoldable pub run_items : List Item → ParsedCommand → ParsedCommand
run_items [] cmd = cmd
run_items (argument n ∷ is) cmd = run_items is (record cmd { args = cmd.args ++ n ∷ [] })
run_items (input_from n ∷ is) cmd = run_items is (record cmd { input_file = some n })
run_items (output_to n ∷ is) cmd = run_items is (record cmd { output_file = some n })
run_items (append_to n ∷ is) cmd =
    run_items is (record cmd { output_file = some n; append_output = true })

unfoldable pub run_atomic : Atomic → ParsedCommand
unfolding run_items
run_atomic (n, is) = run_items is (record no_command { args = n ∷ [] })

unfoldable pub run_group : Group → List ParsedCommand
run_group (a, ps) = run_atomic a ∷ map run_atomic ps

-- A group runs in the background if an ampersand stands behind it.
unfoldable pub run_groups :
    Group → List (Separator × Group) → Bool → List (List ParsedCommand × Bool)
run_groups g [] b = (run_group g, b) ∷ []
run_groups g ((sequence, g') ∷ gs) b = (run_group g, false) ∷ run_groups g' gs b
run_groups g ((in_background, g') ∷ gs) b = (run_group g, true) ∷ run_groups g' gs b

unfoldable pub run_line : Line → List (List ParsedCommand × Bool)
unfolding run_groups
run_line empty = []
run_line (groups g gs b) = run_groups g gs b

assemble-spell_items :
    (is : List Item) (cmd : ParsedCommand) → assemble cmd (spell_items is []) ≡ run_items is cmd
unfolding assemble run_items
assemble-spell_items [] cmd = refl
assemble-spell_items (argument n ∷ is) cmd = assemble-spell_items is _
assemble-spell_items (input_from n ∷ is) cmd = assemble-spell_items is _
assemble-spell_items (output_to n ∷ is) cmd = assemble-spell_items is _
assemble-spell_items (append_to n ∷ is) cmd = assemble-spell_items is _

pub assemble-atomic :
    (n : Text) (is : List Item)
    → assemble no_command (name n ∷ spell_items is []) ≡ run_atomic (n, is)
unfolding run_atomic
assemble-atomic n is = unfold assemble in assemble-spell_items is _

cut_items :
    (test : Token → Bool) (is : List Item) (ts : List Token)
    → ((n : Text) → test (name n) ≡ false)
    → (test input ≡ false) × (test output ≡ false) × (test append ≡ false)
    → cut_tokens test (spell_items is ts)
      ≡ (spell_items is (cut_tokens test ts).0, (cut_tokens test ts).1)
unfolding cut_tokens
cut_items test [] ts h k = refl
cut_items test (argument n ∷ is) ts h k = rw (cut_items test is ts h k, h n)
cut_items test (input_from n ∷ is) ts h k = rw (cut_items test is ts h k, h n, k.0)
cut_items test (output_to n ∷ is) ts h k = rw (cut_items test is ts h k, h n, k.1)
cut_items test (append_to n ∷ is) ts h k = rw (cut_items test is ts h k, h n, k.2)

-- A pipeline is cut into its commands.
cut_pipes :
    (ps : List Atomic)
    → ((cut_tokens is_pipe_token (spell_pipes ps [])).0 ≡ [])
      × (map
            (λ (q : Token × List Token). assemble no_command q.1)
            (cut_tokens is_pipe_token (spell_pipes ps [])).1
          ≡ map run_atomic ps)
unfolding cut_tokens
cut_pipes [] = (refl, refl)
cut_pipes ((n, is) ∷ ps) =
    let (none_left, rest) = cut_pipes ps in
    let items = cut_items is_pipe_token is (spell_pipes ps []) (λ m. refl) (refl, refl, refl) in
    (refl, rw (items, none_left, rest, assemble-atomic n is))

commands_of_group : (g : Group) → commands_of (spell_group g []) ≡ run_group g
unfolding commands_of run_group cut_tokens
commands_of_group ((n, is), ps) =
    let (none_left, rest) = cut_pipes ps in
    let items = cut_items is_pipe_token is (spell_pipes ps []) (λ m. refl) (refl, refl, refl) in
    rw (items, none_left, rest, assemble-atomic n is)

cut_group_pipes :
    (ps : List Atomic) (ts : List Token)
    → cut_tokens is_separator_token (spell_pipes ps ts)
      ≡ (spell_pipes ps (cut_tokens is_separator_token ts).0, (cut_tokens is_separator_token ts).1)
unfolding cut_tokens
cut_group_pipes [] ts = refl
cut_group_pipes ((n, is) ∷ ps) ts = rw (
  cut_items is_separator_token is (spell_pipes ps ts) (λ m. refl) (refl, refl, refl),
  cut_group_pipes ps ts,
)

cut_group :
    (g : Group) (ts : List Token)
    → cut_tokens is_separator_token (spell_group g ts)
      ≡ (spell_group g (cut_tokens is_separator_token ts).0, (cut_tokens is_separator_token ts).1)
unfolding cut_tokens
cut_group ((n, is), ps) ts = rw (
  cut_items is_separator_token is (spell_pipes ps ts) (λ m. refl) (refl, refl, refl),
  cut_group_pipes ps ts,
)

cut_groups_first :
    (gs : List (Separator × Group)) (b : Bool)
    → (cut_tokens is_separator_token (spell_groups gs b)).0 ≡ []
unfolding cut_tokens
cut_groups_first [] true = refl
cut_groups_first [] false = refl
cut_groups_first ((sequence, g) ∷ gs) b = refl
cut_groups_first ((in_background, g) ∷ gs) b = refl

group_of_group : (g : Group) (b : Bool) → group_of (spell_group g []) b ≡ (run_group g, b) ∷ []
unfolding group_of
group_of_group ((n, is), ps) b = ap (λ c. (c, b) ∷ []) (commands_of_group ((n, is), ps))

abbrev groups_in : List Token × List (Token × List Token) → List (List ParsedCommand × Bool)
groups_in c = later_of c.0 c.1

groups_behind :
    (g : Group) (ts : List Token)
    → (cut_tokens is_separator_token ts).0 ≡ []
    → groups_in (cut_tokens is_separator_token (spell_group g ts))
      ≡ later_of (spell_group g []) (cut_tokens is_separator_token ts).1
groups_behind g ts e =
    ap groups_in (cut_group g ts)
    ∙ ap (λ us. later_of (spell_group g us) (cut_tokens is_separator_token ts).1) e

later_of_groups :
    (g : Group) (gs : List (Separator × Group)) (b : Bool)
    → later_of (spell_group g []) (cut_tokens is_separator_token (spell_groups gs b)).1
      ≡ run_groups g gs b
unfolding later_of run_groups cut_tokens
later_of_groups g [] true = rw (group_of_group g true) (unfold group_of in refl)
later_of_groups g [] false = group_of_group g false
later_of_groups g ((sequence, g') ∷ gs) b = rw (group_of_group g false) (
    ap (λ r. (run_group g, false) ∷ r)
      (groups_behind g' (spell_groups gs b) (cut_groups_first gs b) ∙ later_of_groups g' gs b))
later_of_groups g ((in_background, g') ∷ gs) b = rw (group_of_group g true) (
    ap (λ r. (run_group g, true) ∷ r)
      (groups_behind g' (spell_groups gs b) (cut_groups_first gs b) ∙ later_of_groups g' gs b))

groups_of_line : (l : Line) → groups_of (spell l) ≡ run_line l
unfolding groups_of run_line
groups_of_line empty = unfold cut_tokens group_of in refl
groups_of_line (groups g gs b) =
    groups_behind g (spell_groups gs b) (cut_groups_first gs b) ∙ later_of_groups g gs b

-- A line shorter than the buffers that `parse_input` accepts has a syntax tree that its tokens
-- spell, and what `execute_full_command` runs are the tree's groups, each with the commands of its
-- pipeline and its background flag; every command is parsed with success.
pub plan_accepted :
    (s : Text)
    → length s < 4096
    → parse_input s ≡ accepted
    → (l : Line) × (lex s ≡ spell l) × (plan s ≡ map all_parsed (run_line l))
plan_accepted s short ok =
    let (l, e) = (parse_input_iff s).0 ok in
    (
      l,
      e,
      plan_lem s short
          ∙ ap (λ ts. map all_parsed (groups_of ts)) e
          ∙ ap (map all_parsed) (groups_of_line l),
    )
