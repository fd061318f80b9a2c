-- ===== src/Base/Order.antt =====
-- The order of texts by code points, as `sorted` uses it, and lexicographic pairs.
use Prim.Native.Nat.{ℕ}
use Prim.Native.Char.{code}
use Prim.Native.String.{String}
use mathlib.Core.Path.{◌≡◌, refl}
use mathlib.Core.Bool.{Bool, true, false, ◌&&◌, ◌||◌}
use mathlib.Core.List.{List, [], ◌∷◌}
use native.Mathlib.Omega.{arith}
use portable_batch_execution.Base.Tests.{ltb, eqb}

-- The code points of a text.
abbrev pub codes : String → List ℕ
codes String.[] = []
codes (String.◌∷◌ c s) = code c ∷ codes s

pub lex_le : List ℕ → List ℕ → Bool
lex_le [] ys = true
lex_le (x ∷ xs) [] = false
lex_le (x ∷ xs) (y ∷ ys) = ltb x y || (eqb x y && lex_le xs ys)

-- `s <= t`
unfoldable pub text_le : String → String → Bool
unfolding lex_le
text_le s t = lex_le (codes s) (codes t)

lex_le_trans : (xs ys zs : List ℕ) → lex_le xs ys ≡ true → lex_le ys zs ≡ true → lex_le xs zs ≡ true
unfolding lex_le
lex_le_trans [] ys zs p q = refl
lex_le_trans (x ∷ xs) [] zs p q = ground arith
lex_le_trans (x ∷ xs) (y ∷ ys) [] p q = ground arith
lex_le_trans (x ∷ xs) (y ∷ ys) (z ∷ zs) p q = ground (arith, lex_le_trans xs ys zs)

lex_le_total : (xs ys : List ℕ) → lex_le xs ys ≡ false → lex_le ys xs ≡ true
unfolding lex_le
lex_le_total [] ys p = ground arith
lex_le_total (x ∷ xs) [] p = refl
lex_le_total (x ∷ xs) (y ∷ ys) p = ground (arith, lex_le_total xs ys)

lex_le_antisymm : (xs ys : List ℕ) → lex_le xs ys ≡ true → lex_le ys xs ≡ true → xs ≡ ys
unfolding lex_le
lex_le_antisymm [] [] p q = refl
lex_le_antisymm [] (y ∷ ys) p q = ground arith
lex_le_antisymm (x ∷ xs) [] p q = ground arith
lex_le_antisymm (x ∷ xs) (y ∷ ys) p q = ground (arith, lex_le_antisymm xs ys)

pub text_le_trans : (s t u : String) → text_le s t ≡ true → text_le t u ≡ true → text_le s u ≡ true
unfolding text_le
text_le_trans s t u = lex_le_trans (codes s) (codes t) (codes u)

pub text_le_total : (s t : String) → text_le s t ≡ false → text_le t s ≡ true
unfolding text_le
text_le_total s t = lex_le_total (codes s) (codes t)
