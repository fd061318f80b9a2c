-- ===== src/Base/Steps.antt =====
-- `range(start, end, step)` and the slices `xs[i : i + step]` at its members.
use native.Mathlib.Nat.{div-add-mod', mod-lt}
use native.Mathlib.Omega.{arith}
use Prim.Native.Nat.{◌*◌, ◌<◌, ◌≤◌, min, ℕ, zero, suc, ◌+◌, ◌-◌, ◌/◌}
use mathlib.Core.Path.{◌≡◌, refl, ap, subst}
use mathlib.Core.List.{List, [], ◌∷◌, map}

-- `count` numbers, `step` apart.
unfoldable pub steps : ℕ → ℕ → ℕ → List ℕ
steps zero start step = []
steps (suc count) start step = start ∷ steps count (start + step) step

-- How many members `range(start, end, step)` has, for a positive step.
abbrev pub range_length : ℕ → ℕ → ℕ → ℕ
range_length start end step = (end - start + (step - 1)) / step

unfoldable pub range : ℕ → ℕ → ℕ → List ℕ
unfolding steps
range start end step = steps (range_length start end step) start step

range_example : range 3 11 4 ≡ 3 ∷ 7 ∷ []
unfolding range
range_example = refl

range_empty : range 3 3 4 ≡ []
unfolding range
range_empty = refl

-- The ranges follow one another from `lo` to `hi`, none is empty, and none but the last is shorter
-- than `size`.
abbrev pub Tiles : ℕ → ℕ → ℕ → List (ℕ × ℕ) → Type 0
Tiles size lo hi [] = lo ≡ hi
Tiles size lo hi ((a, b) ∷ rs) = ((a ≡ lo) × (a < b) × (b ≡ min (a + size) hi)) × Tiles size b hi rs

abbrev pub slices : ℕ → ℕ → List ℕ → List (ℕ × ℕ)
slices size end = map (λ i. (i, min (i + size) end))

steps-Tiles :
    (count start end size : ℕ)
    → 0 < size
    → end ≤ start + count * size
    → ((c : ℕ) → count ≡ suc c → start + c * size < end)
    → Tiles size (min start end) end (slices size end (steps count start size))
unfolding steps
steps-Tiles zero start end size pos enough last = omega arith
steps-Tiles (suc c) start end size pos enough last = (
  (omega (arith, last c refl), omega (arith, last c refl), refl),
  steps-Tiles c (start + size) end size pos (omega arith)
      (λ d e. omega (arith, last (suc d) (ap suc e))),
)

pub range_length_enough :
    (start end size : ℕ) → 0 < size → end ≤ start + range_length start end size * size
range_length_enough start end size pos =
    let d = end - start + (size - 1) in omega (arith, div-add-mod' d size, mod-lt d pos)

pub range_length_tight :
    (start end size c : ℕ) → 0 < size → range_length start end size ≡ suc c → start + c * size < end
range_length_tight start end size c pos e =
    let d = end - start + (size - 1) in omega (arith, rw e at (div-add-mod' d size), mod-lt d pos)

pub range-Tiles :
    (start end size : ℕ)
    → 0 < size
    → start ≤ end
    → Tiles size start end (slices size end (range start end size))
unfolding range
range-Tiles start end size pos h =
    subst (λ lo. Tiles size lo end (slices size end (range start end size))) (omega arith)
      (steps-Tiles (range_length start end size) start end size pos
        (range_length_enough start end size pos) (λ c e. range_length_tight start end size c pos e))
