-- ===== src/Shell/Executor/Runnable.antt =====
-- What shell/src/executor.c can rely on for a line that was accepted.
use operating_systems_and_ne.Prelude.{
  ◌<◌, ◌≡◌, refl, sym, ap, ◌∙◌, subst, Bool, true, Option, none, some, List, [], ◌∷◌, ◌++◌, Text,
  length, map, All,
}
use operating_systems_and_ne.Shell.Parser.{parse_input, accepted}
use operating_systems_and_ne.Shell.Parser.Grammar.{
  Item, argument, input_from, output_to, append_to, Atomic, Group, Separator, sequence,
  in_background, Line, empty, groups, spell_items,
}
use operating_systems_and_ne.Shell.Executor.{
  ParsedCommand, no_command, parse_command, plan, is_runnable,
}
use operating_systems_and_ne.Shell.Executor.Pieces.{all_parsed}
use operating_systems_and_ne.Shell.Executor.Plan.{
  run_items, run_atomic, run_group, run_groups, run_line, plan_accepted, assemble-atomic,
}
use operating_systems_and_ne.Shell.Executor.Scan.{assemble, IsPlain}
use operating_systems_and_ne.Shell.Executor.Words.{parse_command_lem}
use operating_systems_and_ne.Shell.Parser.Tokens.{name, lex}

-- `parse_command` returned 0: there is an `args[0]`.
abbrev pub Runnable : Option ParsedCommand → Type 0
Runnable none = ⊥
Runnable (some cmd) = is_runnable cmd ≡ true

append_runnable :
    (xs : List Text) (y : Text) (cmd : ParsedCommand)
    → is_runnable (record cmd { args = xs ++ y ∷ [] }) ≡ true
append_runnable [] y cmd = refl
append_runnable (x ∷ xs) y cmd = refl

run_items_runnable :
    (is : List Item) (cmd : ParsedCommand)
    → is_runnable cmd ≡ true
    → is_runnable (run_items is cmd) ≡ true
unfolding run_items
run_items_runnable [] cmd h = h
run_items_runnable (argument n ∷ is) cmd h =
    run_items_runnable is _ (append_runnable cmd.args n cmd)
run_items_runnable (input_from n ∷ is) cmd h =
    run_items_runnable is (record cmd { input_file = some n }) h
run_items_runnable (output_to n ∷ is) cmd h =
    run_items_runnable is (record cmd { output_file = some n }) h
run_items_runnable (append_to n ∷ is) cmd h =
    run_items_runnable is (record cmd { output_file = some n; append_output = true }) h

run_atomic_runnable : (a : Atomic) → is_runnable (run_atomic a) ≡ true
unfolding run_atomic
run_atomic_runnable (n, is) = run_items_runnable is (record no_command { args = n ∷ [] }) refl

pipeline-Runnable : (ps : List Atomic) → All Runnable (map some (map run_atomic ps))
pipeline-Runnable [] = tt
pipeline-Runnable (a ∷ ps) = (run_atomic_runnable a, pipeline-Runnable ps)

group-Runnable : (g : Group) → All Runnable (map some (run_group g))
unfolding run_group
group-Runnable (a, ps) = (run_atomic_runnable a, pipeline-Runnable ps)

abbrev pub AllRunnable : List (List (Option ParsedCommand) × Bool) → Type 0
AllRunnable = All (λ (p : List (Option ParsedCommand) × Bool). All Runnable p.0)

groups_runnable :
    (g : Group) (gs : List (Separator × Group)) (b : Bool)
    → AllRunnable (map all_parsed (run_groups g gs b))
unfolding run_groups
groups_runnable g [] b = (group-Runnable g, tt)
groups_runnable g ((sequence, g') ∷ gs) b = (group-Runnable g, groups_runnable g' gs b)
groups_runnable g ((in_background, g') ∷ gs) b = (group-Runnable g, groups_runnable g' gs b)

line_runnable : (l : Line) → AllRunnable (map all_parsed (run_line l))
unfolding run_line
line_runnable empty = tt
line_runnable (groups g gs b) = groups_runnable g gs b

-- Of a line shorter than the buffers that `parse_input` accepts, `parse_command` succeeds on every
-- command that `execute_full_command` cuts out, so no pipeline skips a command and `args[0]` is
-- there wherever it is read.
pub plan-AllRunnable :
    (s : Text) → length s < 4096 → parse_input s ≡ accepted → AllRunnable (plan s)
plan-AllRunnable s short ok =
    let (l, e, p) = plan_accepted s short ok in
    let runnable : AllRunnable (map all_parsed (run_line l)) = line_runnable l in
    subst AllRunnable (sym p) runnable

run_items-append :
    (is js : List Item) (cmd : ParsedCommand)
    → run_items (is ++ js) cmd ≡ run_items js (run_items is cmd)
unfolding run_items
run_items-append [] js cmd = refl
run_items-append (argument n ∷ is) js cmd = run_items-append is js _
run_items-append (input_from n ∷ is) js cmd = run_items-append is js _
run_items-append (output_to n ∷ is) js cmd = run_items-append is js _
run_items-append (append_to n ∷ is) js cmd = run_items-append is js _

append_stays :
    (is : List Item) (cmd : ParsedCommand)
    → cmd.append_output ≡ true
    → (run_items is cmd).append_output ≡ true
unfolding run_items
append_stays [] cmd h = h
append_stays (argument n ∷ is) cmd h = append_stays is (record cmd { args = cmd.args ++ n ∷ [] }) h
append_stays (input_from n ∷ is) cmd h = append_stays is (record cmd { input_file = some n }) h
append_stays (output_to n ∷ is) cmd h = append_stays is (record cmd { output_file = some n }) h
append_stays (append_to n ∷ is) cmd h =
    append_stays is (record cmd { output_file = some n; append_output = true }) refl

sticky_items :
    (other file : Text) (is js : List Item) (cmd : ParsedCommand)
    → let out = run_items (is ++ append_to other ∷ (js ++ output_to file ∷ [])) cmd in
      (out.output_file ≡ some file) × (out.append_output ≡ true)
sticky_items other file is js cmd =
    let cmd' = run_items is cmd in
    let cmd'' = record cmd' { output_file = some other; append_output = true } in
    let after = run_items-append is (append_to other ∷ (js ++ output_to file ∷ [])) cmd in
    let last = run_items-append js (output_to file ∷ []) cmd'' in
    rw after (unfold run_items in rw last (refl, append_stays js cmd'' refl))

-- Of a command (a text of less than 4096 bytes with no pipe and no separator) that ends in `> file`, with a
-- `>> other` anywhere before it, `parse_command` says that the output is appended to `file`, which is not
-- truncated.
pub append_sticks :
    (s n other file : Text) (is js : List Item)
    → length s < 4096
    → IsPlain s
    → lex s ≡ name n ∷ spell_items (is ++ append_to other ∷ (js ++ output_to file ∷ [])) []
    → (cmd : ParsedCommand) × (parse_command s ≡ some cmd)
      × (cmd.output_file ≡ some file)
      × (cmd.append_output ≡ true)
append_sticks s n other file is js short plain e =
    let items = is ++ append_to other ∷ (js ++ output_to file ∷ []) in
    let parsed : parse_command s ≡ some (run_atomic (n, items)) =
      parse_command_lem s short plain
      ∙ ap some (ap (assemble no_command) e ∙ assemble-atomic n items) in
    let sticky = sticky_items other file is js (record no_command { args = n ∷ [] }) in
    (run_atomic (n, items), parsed, unfold run_atomic in sticky.0, unfold run_atomic in sticky.1)
