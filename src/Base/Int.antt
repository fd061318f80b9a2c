-- ===== src/Base/Int.antt =====
-- Signed integers over the native numbers, under the library's names.
use Prim.Native.Nat.{ℕ, zero, suc, ◌+◌}
use mathlib.Core.Path.{◌≡◌, refl}
use mathlib.Core.Logic.{◌↔◌}
use native.Mathlib.Omega.{arith}
use mathlib.Core.Bool.{Bool, true, false}
use portable_batch_execution.Base.Tests.{ltb, eqb}

-- `negsuc n` is -(n + 1).
pub data ℤ : Type 0 where
  pos : ℕ → ℤ
  negsuc : ℕ → ℤ

abbrev pub pos_part : ℤ → ℕ
pos_part (pos n) = n
pos_part (negsuc n) = 0

abbrev pub neg_part : ℤ → ℕ
neg_part (pos n) = 0
neg_part (negsuc n) = suc n

abbrev pub ltb_ℤ : ℤ → ℤ → Bool
ltb_ℤ a b = ltb (pos_part a + neg_part b) (pos_part b + neg_part a)

abbrev pub eq_ℤ : ℤ → ℤ → Bool
eq_ℤ (pos a) (pos b) = eqb a b
eq_ℤ (pos a) (negsuc b) = false
eq_ℤ (negsuc a) (pos b) = false
eq_ℤ (negsuc a) (negsuc b) = eqb a b

-- `n + 1`
abbrev pub succ_ℤ : ℤ → ℤ
succ_ℤ (pos n) = pos (suc n)
succ_ℤ (negsuc zero) = pos 0
succ_ℤ (negsuc (suc n)) = negsuc n

pub eq_ℤ_iff : (a b : ℤ) → (eq_ℤ a b ≡ true) ↔ (a ≡ b)
eq_ℤ_iff (pos a) (pos b) = ground arith
eq_ℤ_iff (pos a) (negsuc b) = ground arith
eq_ℤ_iff (negsuc a) (pos b) = ground arith
eq_ℤ_iff (negsuc a) (negsuc b) = ground arith

pub succ_ℤ-ne : (a : ℤ) → eq_ℤ (succ_ℤ a) a ≡ false
succ_ℤ-ne (pos n) = ground arith
succ_ℤ-ne (negsuc zero) = refl
succ_ℤ-ne (negsuc (suc n)) = ground arith

pub ltb_ℤ-irreflexive : (a : ℤ) → ltb_ℤ a a ≡ false
ltb_ℤ-irreflexive (pos n) = ground arith
ltb_ℤ-irreflexive (negsuc n) = ground arith

pub ltb_ℤ-succ : (a : ℤ) → ltb_ℤ a (succ_ℤ a) ≡ true
ltb_ℤ-succ (pos n) = ground arith
ltb_ℤ-succ (negsuc zero) = refl
ltb_ℤ-succ (negsuc (suc n)) = ground arith

pub ltb_ℤ-below_succ : (a k : ℤ) → ltb_ℤ (succ_ℤ a) k ≡ true → ltb_ℤ a k ≡ true
ltb_ℤ-below_succ (pos n) (pos k) h = ground arith
ltb_ℤ-below_succ (pos n) (negsuc k) h = ground arith
ltb_ℤ-below_succ (negsuc zero) (pos k) h = ground arith
ltb_ℤ-below_succ (negsuc zero) (negsuc k) h = ground arith
ltb_ℤ-below_succ (negsuc (suc n)) (pos k) h = ground arith
ltb_ℤ-below_succ (negsuc (suc n)) (negsuc k) h = ground arith
