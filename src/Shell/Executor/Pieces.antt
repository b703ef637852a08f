-- ===== src/Shell/Executor/Pieces.antt =====
-- The groups and commands that shell/src/executor.c cuts out of a line, and their tokens.
use operating_systems_and_ne.Prelude.{
  ℕ, suc, ◌<◌, ◌≤◌, ◌≡◌, ◌≢◌, refl, sym, ap, ◌∙◌, Bool, true, false, Option, some, List, [], ◌∷◌,
  ◌==◌, Text, is_space, length, map, arith, All, Bool-cases, inl, inr,
}
use operating_systems_and_ne.Shell.Parser.{skip_whitespace}
use operating_systems_and_ne.Shell.Parser.Tokens.{Token, lex, lex_ne_nil}
use operating_systems_and_ne.Shell.Executor.{
  cut, is_pipe, is_separator, keep_unless_blank, trim_end, split_pipes, parse_command,
  ParsedCommand, no_command, pipeline_of, group,
}
use operating_systems_and_ne.Shell.Executor.Scan.{assemble, IsPlain}
use operating_systems_and_ne.Shell.Executor.Words.{parse_command_lem, copy_buffer_lem}
use operating_systems_and_ne.Shell.Executor.Signs.{
  cut_tokens, is_pipe_token, token_of, pipes-Matches,
}
use operating_systems_and_ne.Shell.Executor.Cuts.{lex-cut, lex-trim_end}

-- What holds of the bytes of a text holds of its pieces, which hold no NUL and no sign.
abbrev pub Kept : (ℕ → Bool) → (ℕ → Type 0) → ℕ → Type 0
Kept test P c = P c × ((c == 0) ≡ false) × (test c ≡ false)

abbrev pub Pieces : (Text → Type 0) → Text × List (ℕ × Text) → Type 0
Pieces P (piece, more) = P piece × All (λ (p : ℕ × Text). P p.1) more

pub cut-Kept :
    (test : ℕ → Bool) (P : ℕ → Type 0) (s : Text)
    → All P s
    → Pieces (All (Kept test P)) (cut test s)
unfolding cut
cut-Kept test P [] h = (tt, tt)
cut-Kept test P (c ∷ cs) h = elim (Bool-cases (c == 0)) [
  | inl z ↦ rw z (tt, tt)
  | inr z ↦ elim (Bool-cases (test c)) [
    | inl e ↦ rw (z, e) (tt, (cut-Kept test P cs h.1))
    | inr e ↦ rw (z, e) (((h.0, z, e), (cut-Kept test P cs h.1).0), (cut-Kept test P cs h.1).1)
  ]
]

pieces_weaken :
    (n m : ℕ) (more : List (ℕ × Text))
    → n ≤ m
    → All (λ (p : ℕ × Text). length p.1 ≤ n) more
    → All (λ (p : ℕ × Text). length p.1 ≤ m) more
pieces_weaken n m [] h k = tt
pieces_weaken n m (p ∷ more) h k = (omega arith, pieces_weaken n m more h k.1)

pub length-cut : (test : ℕ → Bool) (s : Text) → Pieces (λ p. length p ≤ length s) (cut test s)
unfolding cut
length-cut test [] = (omega arith, tt)
length-cut test (c ∷ cs) = elim (Bool-cases (c == 0)) [
  | inl z ↦ rw z (omega arith, tt)
  | inr z ↦
      let rest =
        pieces_weaken (length cs) (suc (length cs)) (cut test cs).1 (omega arith)
          (length-cut test cs).1 in
      let here = (length-cut test cs).0 in
      elim (Bool-cases (test c)) [
        | inl e ↦ rw (z, e) (omega arith, (omega arith, rest))
        | inr e ↦ rw (z, e) (omega arith, rest)
      ]
]

-- The commands of a pipeline, by its tokens.
unfoldable pub commands_of : List Token → List ParsedCommand
commands_of ts =
    let (piece, more) = cut_tokens is_pipe_token ts in
    assemble no_command piece ∷ map (λ (q : Token × List Token). assemble no_command q.1) more

-- No byte is a separator.
abbrev IsGroup : Text → Type 0
IsGroup = All (λ c. is_separator c ≡ false)

IsPlain-of_Kept : (s : Text) → All (Kept is_pipe (λ c. is_separator c ≡ false)) s → IsPlain s
IsPlain-of_Kept [] h = tt
IsPlain-of_Kept (c ∷ cs) h = (ground (arith, h.0), IsPlain-of_Kept cs h.1)

parse_pieces :
    (n : ℕ) (more : List (ℕ × Text))
    → n < 4096
    → All (λ (p : ℕ × Text). All (Kept is_pipe (λ c. is_separator c ≡ false)) p.1) more
    → All (λ (p : ℕ × Text). length p.1 ≤ n) more
    → map parse_command (map (λ (p : ℕ × Text). p.1) more)
      ≡ map some (
          map
            (λ (q : Token × List Token). assemble no_command q.1)
            (map (λ (p : ℕ × Text). (token_of p.0, lex p.1)) more))
parse_pieces n [] l h k = refl
parse_pieces n (p ∷ more) l h k =
    rw
      (parse_command_lem p.1 (omega arith) (IsPlain-of_Kept p.1 h.0), parse_pieces n more l h.1 k.1)

-- A group's commands are parsed with no failure, into what its tokens describe.
pipeline_of_lem :
    (g : Text) (b : Bool)
    → length g < 4096
    → IsGroup g
    → pipeline_of (g, b) ≡ (map some (commands_of (lex g)), b)
unfolding pipeline_of split_pipes commands_of
pipeline_of_lem g b l h =
    let kept = cut-Kept is_pipe _ g h in
    let short = length-cut is_pipe g in
    rw (
      copy_buffer_lem g l,
      lex-cut pipes-Matches g,
      parse_command_lem (cut is_pipe g).0 (omega (arith, short.0))
          (IsPlain-of_Kept (cut is_pipe g).0 kept.0),
      parse_pieces (length g) (cut is_pipe g).1 l kept.1 short.1,
    )

-- Trimming keeps what holds of every byte, and the text gets no longer.
keep_All :
    (P : ℕ → Type 0) (c : ℕ) (t : Text) (n : ℕ)
    → P c
    → All P t × (length t ≤ n)
    → All P (keep_unless_blank c t) × (length (keep_unless_blank c t) ≤ suc n)
unfolding keep_unless_blank
keep_All P c [] n h k = elim (Bool-cases (is_space c)) [
  | inl e ↦ rw e (tt, omega arith)
  | inr e ↦ rw e ((h, tt), omega arith)
]
keep_All P c (d ∷ ds) n h k = ((h, k.0), omega arith)

trim_All :
    (P : ℕ → Type 0) (s : Text) → All P s → All P (trim_end s) × (length (trim_end s) ≤ length s)
unfolding trim_end
trim_All P [] h = (tt, omega arith)
trim_All P (c ∷ cs) h = keep_All P c (trim_end cs) (length cs) h.0 (trim_All P cs h.1)

pub skip_All : (P : ℕ → Type 0) (s : Text) → All P s → All P (skip_whitespace s)
unfolding skip_whitespace
skip_All P [] h = tt
skip_All P (c ∷ cs) h = ground (arith, skip_All P cs h.1)

lex_blank : (c : ℕ) (cs : Text) → is_space c ≡ true → lex (c ∷ cs) ≡ lex cs
unfolding lex
lex_blank c cs h = ground arith

-- A text with no token is blank.
blank : (s : Text) → All (λ c. (c == 0) ≡ false) s → lex s ≡ [] → trim_end s ≡ []
unfolding trim_end
blank [] h e = refl
blank (c ∷ cs) h e = elim (Bool-cases (is_space c)) [
  | inl sp ↦ rw (blank cs h.1 (sym (lex_blank c cs sp) ∙ e)) (unfold keep_unless_blank in rw sp)
  | inr ns ↦ absurd (lex_ne_nil (c ∷ cs) h.0 ns e)
]

-- The group that the tokens between two separators make, if there are any.
unfoldable pub group_of : List Token → Bool → List (List ParsedCommand × Bool)
group_of [] b = []
group_of (t ∷ ts) b = (commands_of (t ∷ ts), b) ∷ []

abbrev pub all_parsed : List ParsedCommand × Bool → List (Option ParsedCommand) × Bool
all_parsed (cmds, b) = (map some cmds, b)

nul_free : (s : Text) → All (Kept is_separator (λ c. Unit {0})) s → All (λ c. (c == 0) ≡ false) s
nul_free [] h = tt
nul_free (c ∷ cs) h = (h.0.1, nul_free cs h.1)

is_group : (s : Text) → All (Kept is_separator (λ c. Unit {0})) s → IsGroup s
is_group [] h = tt
is_group (c ∷ cs) h = (h.0.2, is_group cs h.1)

cons_ne : (d : ℕ) (ds : Text) → d ∷ ds ≢ []
cons_ne d ds q = cc

group_of_some :
    (ts : List Token) (b : Bool)
    → ts ≢ []
    → map all_parsed (group_of ts b) ≡ all_parsed (commands_of ts, b) ∷ []
unfolding group_of
group_of_some [] b ne = absurd (ne refl)
group_of_some (t ∷ ts) b ne = refl

trimmed_cases :
    (g t : Text) (b : Bool)
    → t ≡ trim_end g
    → (lex g ≡ [] → t ≡ [])
    → length t < 4096
    → IsGroup t
    → map pipeline_of (group t b) ≡ map all_parsed (group_of (lex t) b)
unfolding group
trimmed_cases g [] b e n l h = unfold lex group_of in refl
trimmed_cases g (d ∷ ds) b e n l h =
    ap (λ p. p ∷ []) (pipeline_of_lem (d ∷ ds) b l h)
    ∙ sym (
        group_of_some (lex (d ∷ ds)) b
          (λ q. cons_ne d ds (n (sym (lex-trim_end g) ∙ ap lex (sym e) ∙ q))))

pub group_lem :
    (g : Text) (b : Bool)
    → length g < 4096
    → All (Kept is_separator (λ c. Unit {0})) g
    → map pipeline_of (group (trim_end g) b) ≡ map all_parsed (group_of (lex g) b)
group_lem g b l h =
    let trimmed = trim_All (λ c. is_separator c ≡ false) g (is_group g h) in
    trimmed_cases g (trim_end g) b refl (blank g (nul_free g h)) (omega (arith, trimmed.1))
      trimmed.0
    ∙ ap (λ ts. map all_parsed (group_of ts b)) (lex-trim_end g)
