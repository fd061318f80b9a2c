-- ===== src/Base/Decimal.antt =====
-- Decimal numerals with leading zeros, as `f"{n:06d}"` writes them, and why they tell numbers apart.
use Prim.Native.Nat.{ℕ, zero, suc, ◌+◌, ◌-◌, ◌*◌, ◌/◌, ◌%◌, ◌<◌}
use Prim.Native.Char.{Char, code}
use Prim.Native.String.{String}
use mathlib.Core.Path.{◌≡◌, refl, ap, sym, ◌∙◌}
use mathlib.Core.List.{List, [], ◌∷◌}
use native.Mathlib.Omega.{arith}
use mathlib.Core.Logic.{inl, inr}
use portable_batch_execution.Base.Tests.{ltb, if◌then◌else◌, Bool-cases, ltb→lt}
use portable_batch_execution.Base.Lists.{length}
use portable_batch_execution.Base.Order.{codes}

-- The digit of a number below ten.
digit_char : ℕ → Char
digit_char zero = "0"
digit_char (suc zero) = "1"
digit_char (suc (suc zero)) = "2"
digit_char (suc (suc (suc zero))) = "3"
digit_char (suc (suc (suc (suc zero)))) = "4"
digit_char (suc (suc (suc (suc (suc zero))))) = "5"
digit_char (suc (suc (suc (suc (suc (suc zero)))))) = "6"
digit_char (suc (suc (suc (suc (suc (suc (suc zero))))))) = "7"
digit_char (suc (suc (suc (suc (suc (suc (suc (suc zero)))))))) = "8"
digit_char _ = "9"

-- The digits of `n` in front of a text; the first argument is fuel, above `n`.
digits_onto : ℕ → ℕ → String → String
unfolding digit_char
digits_onto zero n s = s
digits_onto (suc f) n s =
    let shorter = digits_onto f (n / 10) (String.◌∷◌ (digit_char (n % 10)) s) in
    if ltb n 10 then String.◌∷◌ (digit_char n) s else shorter

zeros_onto : ℕ → String → String
zeros_onto zero s = s
zeros_onto (suc k) s = String.◌∷◌ "0" (zeros_onto k s)

abbrev text_length : String → ℕ
text_length s = length (codes s)

-- `prefix + f"{n:0{width}d}"`
abbrev pub after : String → String → String
after String.[] s = s
after (String.◌∷◌ c p) s = String.◌∷◌ c (after p s)

unfoldable pub padded : ℕ → ℕ → String
unfolding digits_onto zeros_onto
padded width n =
    let digits = digits_onto (suc n) n String.[] in zeros_onto (width - text_length digits) digits

-- The number that a numeral's code points stand for, behind what has been read of it.
read_digits : ℕ → List ℕ → ℕ
read_digits n [] = n
read_digits n (c ∷ cs) = read_digits (n * 10 + (c - 48)) cs

code-digit_char : (d : ℕ) → d < 10 → code (digit_char d) ≡ 48 + d
unfolding digit_char
code-digit_char zero h = refl
code-digit_char (suc zero) h = refl
code-digit_char (suc (suc zero)) h = refl
code-digit_char (suc (suc (suc zero))) h = refl
code-digit_char (suc (suc (suc (suc zero)))) h = refl
code-digit_char (suc (suc (suc (suc (suc zero))))) h = refl
code-digit_char (suc (suc (suc (suc (suc (suc zero)))))) h = refl
code-digit_char (suc (suc (suc (suc (suc (suc (suc zero))))))) h = refl
code-digit_char (suc (suc (suc (suc (suc (suc (suc (suc zero)))))))) h = refl
code-digit_char (suc (suc (suc (suc (suc (suc (suc (suc (suc zero))))))))) h = refl
code-digit_char (suc (suc (suc (suc (suc (suc (suc (suc (suc (suc n)))))))))) h =
    absurd (omega arith)

read_digits-digits_onto :
    (f n : ℕ) (s : String)
    → n < f
    → read_digits 0 (codes (digits_onto f n s)) ≡ read_digits n (codes s)
unfolding digits_onto read_digits
read_digits-digits_onto zero n s h = absurd (omega arith)
read_digits-digits_onto (suc f) n s h = elim (Bool-cases (ltb n 10)) [
  | inl e ↦
      rw e (ap (λ k. read_digits k (codes s)) (omega (arith, code-digit_char n (ltb→lt n 10 e))))
  | inr e ↦ rw e (
      read_digits-digits_onto f (n / 10) (String.◌∷◌ (digit_char (n % 10)) s) (ground arith)
      ∙ ap (λ k. read_digits k (codes s)) (omega (arith, code-digit_char (n % 10) (omega arith))))
]

read_digits-zeros_onto :
    (k : ℕ) (s : String) → read_digits 0 (codes (zeros_onto k s)) ≡ read_digits 0 (codes s)
unfolding zeros_onto read_digits
read_digits-zeros_onto zero s = refl
read_digits-zeros_onto (suc k) s = read_digits-zeros_onto k s

read_digits-padded : (width n : ℕ) → read_digits 0 (codes (padded width n)) ≡ n
unfolding padded read_digits
read_digits-padded width n =
    let digits = digits_onto (suc n) n String.[] in
    read_digits-zeros_onto (width - text_length digits) digits
    ∙ (read_digits-digits_onto (suc n) n String.[] (omega arith))

-- Numerals of one width are equal only if the numbers are.
pub padded-injective : (width m n : ℕ) → padded width m ≡ padded width n → m ≡ n
padded-injective width m n e =
    sym (read_digits-padded width m)
    ∙ (ap (λ s. read_digits 0 (codes s)) e ∙ read_digits-padded width n)

pub after-injective : (p s t : String) → after p s ≡ after p t → s ≡ t
after-injective String.[] s t e = e
after-injective (String.◌∷◌ c p) s t e = after-injective p s t (cc)
