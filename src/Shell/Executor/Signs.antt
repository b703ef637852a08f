-- ===== src/Shell/Executor/Signs.antt =====
-- Cutting a list of tokens at its signs, as shell/src/executor.c cuts a text.
use operating_systems_and_ne.Prelude.{
  ℕ, ◌≡◌, refl, Bool, true, false, List, [], ◌∷◌, ◌++◌, ◌==◌, if◌then◌else◌, Text, arith, All,
  Bool-cases, ==_iff, inl, inr,
}
use operating_systems_and_ne.Shell.Parser.{is_name_char}
use operating_systems_and_ne.Shell.Parser.Tokens.{
  Token, name, pipe, semicolon, ampersand, output, append, between, lex_between,
}
use operating_systems_and_ne.Shell.Executor.{is_pipe, is_separator}

-- `cut` on tokens.
unfoldable pub cut_tokens : (Token → Bool) → List Token → List Token × List (Token × List Token)
cut_tokens test [] = ([], [])
cut_tokens test (t ∷ ts) =
    let (piece, more) = cut_tokens test ts in
    if test t then ([], (t, piece) ∷ more) else (t ∷ piece, more)

abbrev pub is_pipe_token : Token → Bool
is_pipe_token t = elim t [ pipe ↦ true | _ ↦ false ]

abbrev pub is_separator_token : Token → Bool
is_separator_token t = elim t [ semicolon ↦ true | ampersand ↦ true | _ ↦ false ]

pub cut_tokens-append :
    (test : Token → Bool) (ts us : List Token)
    → All (λ t. test t ≡ false) ts
    → cut_tokens test (ts ++ us) ≡ (ts ++ (cut_tokens test us).0, (cut_tokens test us).1)
unfolding cut_tokens
cut_tokens-append test [] us h = refl
cut_tokens-append test (t ∷ ts) us h = rw (h.0, cut_tokens-append test ts us h.1)

-- The token of a pipe or separator.
abbrev pub token_of : ℕ → Token
token_of c = if c == b'|' then pipe else if c == b'&' then ampersand else semicolon

-- The test on bytes and the test on tokens name the same signs.
pub record Matches (test : ℕ → Bool) (token_test : Token → Bool) : Type 0 where
  pub here :
      (c : ℕ)
      → test c ≡ true
      → (lex_between c ≡ (token_of c ∷ [], between))
        × (token_test (token_of c) ≡ true)
        × ((c == 0) ≡ false)
        × (is_name_char c ≡ false)
        × ((c == b'>') ≡ false)
  pub elsewhere :
      (c : ℕ)
      → test c ≡ false
      → (c == 0) ≡ false
      → All (λ t. token_test t ≡ false) (lex_between c).0
  pub names : (n : Text) → token_test (name n) ≡ false
  pub outputs : (token_test output ≡ false) × (token_test append ≡ false)

pub pipes-Matches : Matches is_pipe is_pipe_token
pipes-Matches = record {
  here =
      unfold lex_between in
      λ c h. rw ((==_iff c b'|').0 h) (refl, refl, refl, unfold is_name_char in refl, refl);
  elsewhere = unfold lex_between in λ c h z. ground arith;
  names = λ n. refl;
  outputs = (refl, refl);
}

pub separators-Matches : Matches is_separator is_separator_token
separators-Matches = record {
  here =
      unfold lex_between in
      λ c h. elim (Bool-cases (c == b';')) [
        | inl e ↦ rw ((==_iff c b';').0 e) (refl, refl, refl, unfold is_name_char in refl, refl)
        | inr e ↦
            rw ((==_iff c b'&').0 (ground arith))
              (refl, refl, refl, unfold is_name_char in refl, refl)
      ];
  elsewhere = unfold lex_between in λ c h z. ground arith;
  names = λ n. refl;
  outputs = (refl, refl);
}
