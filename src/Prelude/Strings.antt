-- ===== src/Prelude/Strings.antt =====
-- C strings as lists of bytes: the end of the list is the terminating NUL.
use Prim.Native.Nat.{ℕ}
use Prim.Native.Char.{code}
use Prim.Native.String.{String}
use mathlib.Core.Path.{◌≡◌, refl}
use mathlib.Core.Logic.{◌↔◌}
use mathlib.Core.Bool.{Bool, true, false, ◌&&◌, ◌||◌}
use mathlib.Core.List.{List, [], ◌∷◌}
use native.Mathlib.Omega.{arith}
use operating_systems_and_ne.Prelude.Tests.{◌==◌, leb, ltb, if◌then◌else◌}

abbrev pub Text : Type 0
Text = List ℕ

-- The bytes of an ASCII literal.
abbrev pub codes : String → Text
codes String.[] = []
codes (String.◌∷◌ c s) = code c ∷ codes s

-- `*str`: the byte at the pointer, NUL at the end.
abbrev pub peek : Text → ℕ
peek [] = 0
peek (c ∷ cs) = c

-- `str + 1`, used only where `*str` is no NUL.
abbrev pub advance : Text → Text
advance [] = []
advance (c ∷ cs) = cs

-- `isspace` of the C locale.
unfoldable pub is_space : ℕ → Bool
is_space c = c == b' ' || leb 9 c && leb c 13

-- `strcmp(a, b) == 0`.
unfoldable pub text_eq : Text → Text → Bool
text_eq [] [] = true
text_eq (x ∷ xs) (y ∷ ys) = x == y && text_eq xs ys
text_eq _ _ = false

pub text_eq_iff : (a b : Text) → (text_eq a b ≡ true) ↔ (a ≡ b)
unfolding text_eq
text_eq_iff [] [] = (λ h. refl, λ h. refl)
text_eq_iff [] (y ∷ ys) = (λ h. cc, λ h. cc)
text_eq_iff (x ∷ xs) [] = (λ h. cc, λ h. cc)
text_eq_iff (x ∷ xs) (y ∷ ys) =
    (λ h. ground (arith, text_eq_iff xs ys), λ h. ground (arith, text_eq_iff xs ys))

-- `strcmp(a, b) > 0`.
unfoldable pub text_gt : Text → Text → Bool
text_gt [] b = false
text_gt (x ∷ xs) [] = true
text_gt (x ∷ xs) (y ∷ ys) = if x == y then text_gt xs ys else ltb y x

pub text_gt_asymm : (a b : Text) → text_gt a b ≡ true → text_gt b a ≡ false
unfolding text_gt
text_gt_asymm [] b h = cc
text_gt_asymm (x ∷ xs) [] h = refl
text_gt_asymm (x ∷ xs) (y ∷ ys) h = ground (arith, text_gt_asymm xs ys)

pub text_gt_trans : (a b c : Text) → text_gt a b ≡ false → text_gt b c ≡ false → text_gt a c ≡ false
unfolding text_gt
text_gt_trans [] b c h k = refl
text_gt_trans (x ∷ xs) [] c h k = cc
text_gt_trans (x ∷ xs) (y ∷ ys) [] h k = cc
text_gt_trans (x ∷ xs) (y ∷ ys) (z ∷ zs) h k = ground (arith, text_gt_trans xs ys zs)
