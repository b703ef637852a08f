-- ===== src/Shell/Parser.antt =====
-- shell/src/parser.c: the validator that every command line passes before it is executed.
-- A text is a list of bytes whose end is the terminating NUL; `malloc` is taken to succeed.
pub mod Tokens
pub mod Recognizer
pub mod Follows
pub mod Decides
pub mod Grammar
use operating_systems_and_ne.Prelude.{
  ℕ, zero, suc, Bool, true, false, not, ◌&&◌, ◌||◌, Option, none, some, [], ◌∷◌, length, ◌==◌,
  if◌then◌else◌, Text, peek, advance, is_space,
}

-- `is_special_char`
unfoldable pub is_special_char : ℕ → Bool
is_special_char c = c == b'|' || c == b'&' || c == b'>' || c == b'<' || c == b';'

-- `is_name_char`
unfoldable pub is_name_char : ℕ → Bool
unfolding is_special_char is_space
is_name_char c = not (c == 0) && not (is_space c) && not (is_special_char c)

-- `skip_whitespace`
unfoldable pub skip_whitespace : Text → Text
skip_whitespace [] = []
skip_whitespace (c ∷ cs) = elim (is_space c) [ true ↦ skip_whitespace cs | false ↦ c ∷ cs ]

-- The loop of `parse_name`: the name characters at the front, and the text behind them.
unfoldable pub scan_name : Text → Text × Text
scan_name [] = ([], [])
scan_name (c ∷ cs) =
    let (n, r) = scan_name cs in if is_name_char c then (c ∷ n, r) else ([], c ∷ cs)

some_name : Text × Text → Option (Text × Text)
some_name ([], r) = none
some_name (c ∷ n, r) = some (c ∷ n, r)

-- `parse_name`: the name and the new position, or NULL when there is no name.
unfoldable pub parse_name : Text → Option (Text × Text)
unfolding some_name
parse_name input = some_name (scan_name input)

-- `parse_input_redir`
unfoldable pub parse_input_redir : Text → Option (Text × Text)
parse_input_redir [] = none
parse_input_redir (c ∷ cs) = if c == b'<' then parse_name (skip_whitespace cs) else none

-- Behind the first `>`: whether there is a second, and the position behind it.
unfoldable pub second_gt : Text → Bool × Text
second_gt [] = (false, [])
second_gt (c ∷ cs) = if c == b'>' then (true, cs) else (false, c ∷ cs)

-- `parse_output_redir`, with the flag `append`.
unfoldable pub parse_output_redir : Text → Option (Bool × Text × Text)
unfolding second_gt
parse_output_redir [] = none
parse_output_redir (c ∷ cs) =
    let (append, r) = second_gt cs in
    if c == b'>'
    then elim (parse_name (skip_whitespace r)) [ none ↦ none | some (n, r') ↦ some (append, n, r') ]
    else none

-- What a parse function returns: the new position, or NULL. A loop may also run out of fuel.
pub data Parse : Type 0 where
  done : Text → Parse
  invalid : Parse
  out_of_fuel : Parse

abbrev pub ends_atomic : ℕ → Bool
ends_atomic c = c == 0 || c == b'|' || c == b'&' || c == b';'

-- One round of the loop in `parse_atomic`, after the whitespace and the test for its end: the
-- position behind an argument or a redirection.
unfoldable pub parse_item : Text → Option Text
unfolding parse_input_redir parse_output_redir
parse_item s = elim (parse_input_redir s) [
  | some (n, r) ↦ some r
  | none ↦ elim (parse_output_redir s) [
    | some (a, n, r) ↦ some r
    | none ↦ elim (parse_name s) [ some (n, r) ↦ some r | none ↦ none ]
  ]
]

-- The loop of `parse_atomic`: the test for its end, and the way on behind an item.
unfoldable pub next_item : (Text → Parse) → Text → Bool → Option Text → Parse
next_item onward s true item = done s
next_item onward s false (some r) = onward r
next_item onward s false none = invalid

unfoldable pub parse_items : ℕ → Text → Parse
unfolding next_item
parse_items zero s = out_of_fuel
parse_items (suc f) s =
    let s' = skip_whitespace s in
    next_item (parse_items f) s' (ends_atomic (peek s')) (parse_item s')

-- `parse_atomic`: a name, then the loop.
unfoldable pub items_after : Option (Text × Text) → Parse
items_after none = invalid
items_after (some (n, r)) = parse_items (suc (length r)) r

unfoldable pub parse_atomic : Text → Parse
unfolding items_after
parse_atomic input = items_after (parse_name (skip_whitespace input))

-- What is done with the position that another parse function returned.
unfoldable pub and_then : (Text → Parse) → Parse → Parse
and_then onward (done r) = onward r
and_then onward invalid = invalid
and_then onward out_of_fuel = out_of_fuel

-- The loop of `parse_cmd_group`.
unfoldable pub next_pipe : (Text → Parse) → Text → Bool → Parse
unfolding and_then
next_pipe onward s false = done s
next_pipe onward s true = and_then onward (parse_atomic (skip_whitespace (advance s)))

unfoldable pub parse_pipes : ℕ → Text → Parse
unfolding next_pipe
parse_pipes zero s = out_of_fuel
parse_pipes (suc f) s = let s' = skip_whitespace s in next_pipe (parse_pipes f) s' (peek s' == b'|')

-- `parse_cmd_group`
unfoldable pub parse_cmd_group : Text → Parse
unfolding and_then
parse_cmd_group input =
    and_then (λ r. parse_pipes (suc (length r)) r) (parse_atomic (skip_whitespace input))

-- What `parse_input` returns.
pub data Verdict : Type 0 where
  accepted rejected unfinished : Verdict

-- The check of what `parse_cmd_group` returned, and the way on.
unfoldable pub after_group : (Text → Verdict) → Parse → Verdict
after_group onward (done r) = onward r
after_group onward invalid = rejected
after_group onward out_of_fuel = unfinished

-- The loop of `parse_input` from the whitespace at its head on.
unfoldable pub next_group : (Text → Verdict) → Text → Verdict
unfolding after_group
next_group onward s =
    let behind = skip_whitespace (advance s) in
    if peek s == 0
    then accepted
    else if peek s == b'&'
    then if peek behind == 0 then accepted else after_group onward (parse_cmd_group behind)
    else if peek s == b';'
    then after_group onward (parse_cmd_group behind)
    else rejected

unfoldable pub parse_groups : ℕ → Text → Verdict
unfolding next_group
parse_groups zero s = unfinished
parse_groups (suc f) s = next_group (parse_groups f) (skip_whitespace s)

-- `parse_input`. Both ways out of its loop stand at the end of the text, so the test for
-- trailing text behind the loop is never met with any left.
unfoldable pub parse_input : Text → Verdict
unfolding after_group
parse_input input =
    let s = skip_whitespace input in
    if peek s == 0
    then accepted
    else after_group (λ r. parse_groups (suc (length r)) r) (parse_cmd_group s)
