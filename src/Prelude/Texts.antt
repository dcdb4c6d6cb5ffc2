-- ===== src/Prelude/Texts.antt =====
-- Texts as lists of code points, with the decision of their equality.
use Prim.Native.Char.{code}
use Prim.Native.Nat.{ℕ}
use Prim.Native.String.{String}
use mathlib.Core.Path.{◌≡◌, refl}
use mathlib.Core.Bool.{Bool, true, false}
use mathlib.Core.List.{List, [], ◌∷◌}
use native.Mathlib.Omega.{arith}
use native.Mathlib.Decide.{ℕ_discrete}
use nadesiko_reversi.Prelude.Tests.{test}

-- A Go string that the program takes apart or compares.
abbrev pub Text : Type 0
Text = List ℕ

-- The code points of a literal.
abbrev pub codes : String → Text
codes String.[] = []
codes (String.◌∷◌ c s) = code c ∷ codes s

unfoldable pub text_dec : Discrete Text
unfolding ℕ_discrete
text_dec = hlevel ℕ_discrete

-- `==` on strings; tactics split on the decision and see the equation.
abbrev pub text_eq : Text → Text → Bool
text_eq a b = test (text_dec a b)

pub text_eq_refl : (a : Text) → text_eq a a ≡ true
text_eq_refl a = ground arith

-- The decision runs on concrete texts.
text_eq_same : text_eq (codes "ab") (codes "ab") ≡ true
unfolding text_dec
text_eq_same = refl

text_eq_other : text_eq (codes "ab") (codes "ac") ≡ false
unfolding text_dec
text_eq_other = refl
