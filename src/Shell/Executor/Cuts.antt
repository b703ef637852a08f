-- ===== src/Shell/Executor/Cuts.antt =====
-- The splitting loops of shell/src/executor.c against the tokens: cutting a text at its separators
-- and reading the tokens of the pieces is cutting the list of tokens.
use operating_systems_and_ne.Prelude.{
  ℕ, ◌≡◌, ◌≢◌, refl, ◌∙◌, Bool, true, false, List, [], ◌∷◌, ◌++◌, append-nil, append_assoc, ◌==◌,
  Text, is_space, map, arith, All, Bool-cases, inl, inr,
}
use operating_systems_and_ne.Shell.Parser.{is_name_char}
use operating_systems_and_ne.Shell.Parser.Tokens.{
  Token, lex, Mode, between, in_name, after_gt, lex_in, lex_step, flush, lex_ne_nil,
}
use operating_systems_and_ne.Shell.Executor.{cut, keep_unless_blank, trim_end}
use operating_systems_and_ne.Shell.Executor.Signs.{cut_tokens, cut_tokens-append, token_of, Matches}

module _ {test : ℕ → Bool} {token_test : Token → Bool} (matches : Matches test token_test) where
  flush_plain : (m : Mode) → All (λ t. token_test t ≡ false) (flush m)
  flush_plain between = tt
  flush_plain (in_name n) = (matches.names n, tt)
  flush_plain after_gt = (matches.outputs.0, tt)

  lex_step_here :
      (m : Mode) (c : ℕ) → test c ≡ true → lex_step m c ≡ (flush m ++ token_of c ∷ [], between)
  unfolding lex_step
  lex_step_here between c h = (matches.here c h).0
  lex_step_here (in_name n) c h = rw ((matches.here c h).3, (matches.here c h).0)
  lex_step_here after_gt c h = rw ((matches.here c h).4, (matches.here c h).0)

  lex_step_elsewhere :
      (m : Mode) (c : ℕ)
      → test c ≡ false
      → (c == 0) ≡ false
      → All (λ t. token_test t ≡ false) (lex_step m c).0
  unfolding lex_step
  lex_step_elsewhere between c h z = matches.elsewhere c h z
  lex_step_elsewhere (in_name n) c h z = elim (Bool-cases (is_name_char c)) [
    | inl e ↦ rw e tt
    | inr e ↦ rw e (matches.names n, matches.elsewhere c h z)
  ]
  lex_step_elsewhere after_gt c h z = elim (Bool-cases (c == b'>')) [
    | inl e ↦ rw e (matches.outputs.1, tt)
    | inr e ↦ rw e (matches.outputs.0, matches.elsewhere c h z)
  ]

  lex_in_nul : (m : Mode) (c : ℕ) (cs : Text) → (c == 0) ≡ true → lex_in m (c ∷ cs) ≡ flush m
  unfolding lex_in
  lex_in_nul m c cs z = rw z

  lex_in_cons :
      (m : Mode) (c : ℕ) (cs : Text)
      → (c == 0) ≡ false
      → lex_in m (c ∷ cs) ≡ (lex_step m c).0 ++ lex_in (lex_step m c).1 cs
  unfolding lex_in
  lex_in_cons m c cs z = rw z

  cut_nul : (c : ℕ) (cs : Text) → (c == 0) ≡ true → cut test (c ∷ cs) ≡ ([], [])
  unfolding cut
  cut_nul c cs z = rw z

  cut_here :
      (c : ℕ) (cs : Text)
      → (c == 0) ≡ false
      → test c ≡ true
      → cut test (c ∷ cs) ≡ ([], (c, (cut test cs).0) ∷ (cut test cs).1)
  unfolding cut
  cut_here c cs z h = rw (z, h)

  cut_elsewhere :
      (c : ℕ) (cs : Text)
      → (c == 0) ≡ false
      → test c ≡ false
      → cut test (c ∷ cs) ≡ (c ∷ (cut test cs).0, (cut test cs).1)
  unfolding cut
  cut_elsewhere c cs z h = rw (z, h)

  cut_plain :
      (ts : List Token) → All (λ t. token_test t ≡ false) ts → cut_tokens token_test ts ≡ (ts, [])
  unfolding cut_tokens
  cut_plain [] h = refl
  cut_plain (t ∷ ts) h = rw (cut_plain ts h.1, h.0)

  abbrev pub tokens_of : Text × List (ℕ × Text) → Mode → List Token × List (Token × List Token)
  tokens_of (piece, more) m = (lex_in m piece, map (λ (p : ℕ × Text). (token_of p.0, lex p.1)) more)

  lex_in_nil : (m : Mode) → lex_in m [] ≡ flush m
  unfolding lex_in
  lex_in_nil m = refl

  cut_tokens_sign :
      (t : Token) (us : List Token)
      → token_test t ≡ true
      → cut_tokens token_test (t ∷ us)
        ≡ ([], (t, (cut_tokens token_test us).0) ∷ (cut_tokens token_test us).1)
  unfolding cut_tokens
  cut_tokens_sign t us h = rw h

  lex-eq : (s : Text) → lex_in between s ≡ lex s
  unfolding lex
  lex-eq s = refl

  cut_at_sign :
      (m : Mode) (c : ℕ) (cs : Text)
      → test c ≡ true
      → cut_tokens token_test (lex_in between cs) ≡ tokens_of (cut test cs) between
      → cut_tokens token_test (lex_in m (c ∷ cs)) ≡ tokens_of (cut test (c ∷ cs)) m
  cut_at_sign m c cs h ih =
      let sign = matches.here c h in
      rw (
        lex_in_cons m c cs sign.2,
        lex_step_here m c h,
        append_assoc (flush m) (token_of c ∷ []) (lex_in between cs),
        cut_tokens-append token_test (flush m) (token_of c ∷ lex_in between cs) (flush_plain m),
        cut_tokens_sign (token_of c) (lex_in between cs) sign.1,
        ih,
        cut_here c cs sign.2 h,
        append-nil (flush m),
        lex_in_nil m,
        lex-eq (cut test cs).0,
      )

  lex_in-cut : (m : Mode) (s : Text) → cut_tokens token_test (lex_in m s) ≡ tokens_of (cut test s) m
  lex_in-cut m [] =
      rw (lex_in_nil m) (cut_plain (flush m) (flush_plain m) ∙ unfold cut in rw (lex_in_nil m))
  lex_in-cut m (c ∷ cs) = elim (Bool-cases (c == 0)) [
    | inl z ↦
        rw (lex_in_nul m c cs z, cut_nul c cs z, lex_in_nil m) (cut_plain (flush m) (flush_plain m))
    | inr z ↦ elim (Bool-cases (test c)) [
      | inl h ↦ cut_at_sign m c cs h (lex_in-cut between cs)
      | inr h ↦
          rw
            (
              lex_in_cons m c cs z,
              cut_elsewhere c cs z h,
              cut_tokens-append token_test _ (lex_in (lex_step m c).1 cs)
                  (lex_step_elsewhere m c h z),
              lex_in-cut (lex_step m c).1 cs,
              lex_in_cons m c (cut test cs).0 z,
            )
            refl
    ]
  ]

  -- The tokens of the pieces are the pieces of the tokens.
  pub lex-cut :
      (s : Text)
      → cut_tokens token_test (lex s)
        ≡ (lex (cut test s).0, map (λ (p : ℕ × Text). (token_of p.0, lex p.1)) (cut test s).1)
  unfolding lex
  lex-cut s = lex_in-cut between s

-- Dropping the whitespace at the end changes no token.
lex_in_blank : (m : Mode) (c : ℕ) → is_space c ≡ true → lex_in m (c ∷ []) ≡ flush m
unfolding lex_in is_name_char
lex_in_blank between c h = ground arith
lex_in_blank (in_name n) c h = ground arith
lex_in_blank after_gt c h = ground arith

lex_in-keep_unless_blank :
    (m : Mode) (c : ℕ) (t : Text) → lex_in m (keep_unless_blank c t) ≡ lex_in m (c ∷ t)
unfolding keep_unless_blank
lex_in-keep_unless_blank m c [] = elim (Bool-cases (is_space c)) [
  | inl e ↦ rw (e, lex_in_blank m c e) (unfold lex_in in refl)
  | inr e ↦ rw e
]
lex_in-keep_unless_blank m c (d ∷ ds) = refl

lex_in_congr :
    (m : Mode) (c : ℕ) (s t : Text)
    → ((m' : Mode) → lex_in m' s ≡ lex_in m' t)
    → lex_in m (c ∷ s) ≡ lex_in m (c ∷ t)
unfolding lex_in
lex_in_congr m c s t h = rw (h (lex_step m c).1)

lex_in-trim_end : (m : Mode) (s : Text) → lex_in m (trim_end s) ≡ lex_in m s
unfolding trim_end
lex_in-trim_end m [] = refl
lex_in-trim_end m (c ∷ cs) =
    lex_in-keep_unless_blank m c (trim_end cs)
    ∙ lex_in_congr m c (trim_end cs) cs (λ m'. lex_in-trim_end m' cs)

pub lex-trim_end : (s : Text) → lex (trim_end s) ≡ lex s
unfolding lex
lex-trim_end s = lex_in-trim_end between s

-- A trimmed text with no token is empty.
keep_ne_blank : (c : ℕ) (cs : Text) → (c == 0) ≡ false → is_space c ≡ false → lex (c ∷ cs) ≢ []
keep_ne_blank c cs z h = lex_ne_nil (c ∷ cs) z h
