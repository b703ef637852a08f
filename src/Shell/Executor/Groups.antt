-- ===== src/Shell/Executor/Groups.antt =====
-- The groups that shell/src/executor.c cuts out of a line are those of its tokens.
use mathlib.Core.List.{map-append}
use operating_systems_and_ne.Prelude.{
  ℕ, ◌<◌, ◌≤◌, ◌≡◌, ap, ◌∙◌, Bool, true, false, List, [], ◌∷◌, ◌++◌, ◌==◌, Text, length, map, arith,
  All,
}
use operating_systems_and_ne.Shell.Parser.{skip_whitespace}
use operating_systems_and_ne.Shell.Parser.Tokens.{
  Token, ampersand, lex, lex-skip_whitespace, length-skip_whitespace,
}
use operating_systems_and_ne.Shell.Executor.{
  cut, is_separator, trim_end, ParsedCommand, pipeline_of, group, later_groups, first_group,
  split_groups, plan,
}
use operating_systems_and_ne.Shell.Executor.Words.{copy_buffer_lem}
use operating_systems_and_ne.Shell.Executor.Signs.{
  cut_tokens, is_separator_token, token_of, separators-Matches,
}
use operating_systems_and_ne.Shell.Executor.Cuts.{lex-cut}
use operating_systems_and_ne.Shell.Executor.Pieces.{
  Kept, Pieces, cut-Kept, length-cut, skip_All, group_of, group_lem, all_parsed,
}

abbrev is_ampersand : Token → Bool
is_ampersand t = elim t [ ampersand ↦ true | _ ↦ false ]

-- The groups that a list of tokens makes.
unfoldable pub later_of : List Token → List (Token × List Token) → List (List ParsedCommand × Bool)
later_of ts [] = group_of ts false
later_of ts ((sep, next) ∷ more) = group_of ts (is_ampersand sep) ++ later_of next more

unfoldable pub groups_of : List Token → List (List ParsedCommand × Bool)
unfolding later_of
groups_of ts = let (piece, more) = cut_tokens is_separator_token ts in later_of piece more

background_flag : (c : ℕ) → (c == b'&') ≡ is_ampersand (token_of c)
background_flag c = ground arith

abbrev Clean : Text → Type 0
Clean = All (Kept is_separator (λ c. Unit {0}))

abbrev pub tokens : ℕ × Text → Token × List Token
tokens p = (token_of p.0, lex p.1)

skipped_group :
    (s : Text) (b : Bool)
    → length s < 4096
    → Clean s
    → map pipeline_of (group (trim_end (skip_whitespace s)) b) ≡ map all_parsed (group_of (lex s) b)
skipped_group s b l h =
    group_lem (skip_whitespace s) b (omega (arith, length-skip_whitespace s))
      (skip_All (Kept is_separator (λ c. Unit {0})) s h)
    ∙ ap (λ ts. map all_parsed (group_of ts b)) (lex-skip_whitespace s)

later_groups_lem :
    (n : ℕ) (piece : Text) (more : List (ℕ × Text))
    → n < 4096
    → Pieces Clean (piece, more)
    → Pieces (λ p. length p ≤ n) (piece, more)
    → map pipeline_of (later_groups piece more)
      ≡ map all_parsed (later_of (lex piece) (map tokens more))
unfolding later_groups later_of
later_groups_lem n piece [] l h k = skipped_group piece false (omega arith) h.0
later_groups_lem n piece ((sep, next) ∷ more) l h k =
    rw
      (
        map-append,
        skipped_group piece (sep == b'&') (omega arith) h.0,
        later_groups_lem n next more l h.1 k.1,
        ← background_flag sep,
      )
      (rw map-append)

-- Every byte of a line is kept by the first cut.
All-unit : (s : Text) → All (λ c. Unit {0}) s
All-unit [] = tt
All-unit (c ∷ cs) = (tt, All-unit cs)

first_groups_lem :
    (n : ℕ) (piece : Text) (more : List (ℕ × Text))
    → n < 4096
    → Pieces Clean (piece, more)
    → Pieces (λ p. length p ≤ n) (piece, more)
    → map pipeline_of (first_group piece more)
      ≡ map all_parsed (later_of (lex piece) (map tokens more))
unfolding first_group later_of
first_groups_lem n piece [] l h k = group_lem piece false (omega arith) h.0
first_groups_lem n piece ((sep, next) ∷ more) l h k =
    rw
      (
        map-append,
        group_lem piece (sep == b'&') (omega arith) h.0,
        later_groups_lem n next more l h.1 k.1,
        ← background_flag sep,
      )
      (rw map-append)

-- The plan of a line is what its tokens say.
pub plan_lem : (s : Text) → length s < 4096 → plan s ≡ map all_parsed (groups_of (lex s))
unfolding plan split_groups groups_of
plan_lem s l =
    rw (copy_buffer_lem s l, lex-cut separators-Matches s)
      (first_groups_lem (length s) (cut is_separator s).0 (cut is_separator s).1 l
        (cut-Kept is_separator (λ c. Unit {0}) s (All-unit s)) (length-cut is_separator s))
