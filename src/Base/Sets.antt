-- ===== src/Base/Sets.antt =====
-- Lists of texts as sets: membership and distinctness under selection and sorting.
use Prim.Native.String.{String}
use mathlib.Core.Path.{◌≡◌, refl, sym, ◌∙◌}
use mathlib.Core.Bool.{Bool, true, not, ◌&&◌, ◌||◌}
use mathlib.Core.List.{map-id, List, [], ◌∷◌, ◌++◌}
use native.Mathlib.Omega.{arith}
use text.Mathlib.Text.{◌==◌}
use text.Mathlib.TextEquality.{eq_iff}
use portable_batch_execution.Base.Sorting.{sorted, distinct-sorted}
use portable_batch_execution.Base.Tests.{==_comm, Bool_ext}
use portable_batch_execution.Base.Lists.{
  All, all→All, all, select, contains, distinct, to_set, subset, same_set,
}

pub contains-select :
    (p : String → Bool) (xs : List String) (i : String)
    → contains (select p xs) i ≡ (contains xs i && p i)
contains-select p [] i = refl
contains-select p (x ∷ xs) i = ground (arith, contains-select p xs i, eq_iff x i)

pub contains-append :
    (xs ys : List String) (i : String) → contains (xs ++ ys) i ≡ (contains xs i || contains ys i)
contains-append [] ys i = refl
contains-append (x ∷ xs) ys i = ground (arith, contains-append xs ys i)

pub distinct-select :
    (p : String → Bool) (xs : List String) → distinct xs ≡ true → distinct (select p xs) ≡ true
distinct-select p [] h = refl
distinct-select p (x ∷ xs) h = ground (arith, distinct-select p xs, contains-select p xs x)

pub contains-to_set : (xs : List String) (i : String) → contains (to_set xs) i ≡ contains xs i
contains-to_set [] i = refl
contains-to_set (x ∷ xs) i =
    ground
      (arith, contains-select (λ y. not (y == x)) (to_set xs) i, contains-to_set xs i, ==_comm x i)

pub distinct-to_set : (xs : List String) → distinct (to_set xs) ≡ true
distinct-to_set [] = refl
distinct-to_set (x ∷ xs) = ground (
  arith,
  contains-select (λ y. not (y == x)) (to_set xs) x,
  eq_iff x x,
  distinct-select (λ y. not (y == x)) (to_set xs) (distinct-to_set xs),
)

pub all_of_contains :
    (p : String → Bool) (xs : List String)
    → ((i : String) → contains xs i ≡ true → p i ≡ true)
    → all p xs ≡ true
all_of_contains p [] h = refl
all_of_contains p (x ∷ xs) h =
    ground (arith, h x, eq_iff x x, all_of_contains p xs (λ i m. h i (ground arith)))

pub contains-all :
    (p : String → Bool) (xs : List String) (i : String)
    → all p xs ≡ true
    → contains xs i ≡ true
    → p i ≡ true
contains-all p [] i h m = ground arith
contains-all p (x ∷ xs) i h m = ground (arith, contains-all p xs i, eq_iff x i)

-- `subset` from membership, member by member.
pub subset_of_contains :
    (xs ys : List String)
    → ((i : String) → contains xs i ≡ true → contains ys i ≡ true)
    → subset xs ys ≡ true
subset_of_contains xs ys = all_of_contains (contains ys) xs

pub contains-subset :
    (xs ys : List String) (i : String)
    → subset xs ys ≡ true
    → contains xs i ≡ true
    → contains ys i ≡ true
contains-subset xs ys = contains-all (contains ys) xs

pub subset_refl : (xs : List String) → subset xs xs ≡ true
subset_refl xs = subset_of_contains xs xs (λ i m. m)

pub All-contains_self : (xs : List String) → All (λ i. contains xs i ≡ true) xs
All-contains_self xs = all→All (contains xs) xs (subset_refl xs)

pub distinct-sorted_self :
    (le : String → String → Bool) (xs : List String) → distinct (sorted le xs) ≡ distinct xs
distinct-sorted_self le xs = rw (map-id, map-id) at (distinct-sorted le (λ x. x) xs)

subset_le :
    (xs ys zs : List String)
    → ((i : String) → contains xs i ≡ contains ys i)
    → subset ys zs ≡ true
    → subset xs zs ≡ true
subset_le xs ys zs same h =
    subset_of_contains xs zs (λ i m. contains-subset ys zs i h (sym (same i) ∙ m))

subset_cong_right :
    (xs ys zs : List String)
    → ((i : String) → contains ys i ≡ contains zs i)
    → subset xs ys ≡ subset xs zs
subset_cong_right [] ys zs same = refl
subset_cong_right (x ∷ xs) ys zs same = ground (arith, same x, subset_cong_right xs ys zs same)

-- Lists with the same members are the same set.
pub same_set_cong :
    (xs ys zs : List String)
    → ((i : String) → contains xs i ≡ contains ys i)
    → same_set xs zs ≡ same_set ys zs
same_set_cong xs ys zs same = ground (
  arith,
  subset_cong_right zs xs ys same,
  Bool_ext (subset xs zs) (subset ys zs) (subset_le ys xs zs (λ i. sym (same i)))
      (subset_le xs ys zs same),
)

same_set_comm : (xs ys : List String) → same_set xs ys ≡ same_set ys xs
same_set_comm xs ys = ground arith

pub same_set-to_set : (xs ys : List String) → same_set xs (to_set ys) ≡ same_set xs ys
same_set-to_set xs ys =
    same_set_comm xs (to_set ys)
    ∙ (same_set_cong (to_set ys) ys xs (contains-to_set ys) ∙ same_set_comm ys xs)

pub all-to_set : (p : String → Bool) (xs : List String) → all p (to_set xs) ≡ all p xs
all-to_set p xs =
    Bool_ext (all p (to_set xs)) (all p xs)
      (λ h. all_of_contains p xs (λ i m. contains-all p (to_set xs) i h (contains-to_set xs i ∙ m)))
      (λ h.
        all_of_contains p (to_set xs)
          (λ i m. contains-all p xs i h (sym (contains-to_set xs i) ∙ m)))
