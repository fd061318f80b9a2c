-- ===== src/Lifecycle/Plan/Payloads.antt =====
-- The payloads that `plan_gc` looks at.
use mathlib.Core.List.{append_assoc}
use portable_batch_execution.Base.{
  ◌≢◌, not, ◌++◌, select, All, Bool, true, String, List, [], ◌∷◌, Bool-cases, ◌≡◌, refl, ◌∙◌, ap,
  subst, inl, inr, arith,
}
use portable_batch_execution.Base.Decimal.{after}
use portable_batch_execution.Base.Dict.{Dict}
use portable_batch_execution.Base.Sorting.{sorted-All}
use portable_batch_execution.Lifecycle.Plan.{payload_files, ends_in, is_temporary}
use portable_batch_execution.Lifecycle.Reachability.Runs.{directories}
use portable_batch_execution.Lifecycle.Root.{StateRoot, PayloadFile}

-- The payload is a file of the artifact directory, and not a temporary one.
pub record IsPayload (root : StateRoot) (name : String) (file : PayloadFile) : Type 0 where
  pub front : Dict PayloadFile
  pub back : Dict PayloadFile
  pub there : root.artifacts ≡ front ++ (name, file) ∷ back
  pub is_final : (stem : String) → name ≢ after stem ".tmp"

is_temporary-after : (stem : String) → is_temporary (after stem ".tmp") ≡ true
unfolding is_temporary ends_in
is_temporary-after String.[] = refl
is_temporary-after (String.◌∷◌ c stem) = ground (arith, is_temporary-after stem)

split_off :
    {A : Type 0} (before rest : List A)
    → All (λ x. (front : List A) × (back : List A) × (before ++ rest ≡ front ++ x ∷ back)) rest
split_off before [] = tt
split_off before (x ∷ rest) = (
  (before, rest, refl),
  subst (λ whole. All (λ y. (front : List _) × (back : List _) × (whole ≡ front ++ y ∷ back)) rest)
      (append_assoc before (x ∷ []) rest) (split_off (before ++ x ∷ []) rest),
)

-- The condition of `select`, beside what holds of all.
All-selected :
    {A : Type 0} (P : A → Type 0) (p : A → Bool) (xs : List A)
    → All P xs
    → All (λ x. P x × (p x ≡ true)) (select p xs)
All-selected P p [] h = tt
All-selected P p (x ∷ xs) h = elim (Bool-cases (p x)) [
  | inl e ↦ rw e ((h.0, e), All-selected P p xs h.1)
  | inr e ↦ rw e (All-selected P p xs h.1)
]

All-weaken :
    {A : Type 0} (P Q : A → Type 0) (xs : List A) → ((x : A) → P x → Q x) → All P xs → All Q xs
All-weaken P Q [] f h = tt
All-weaken P Q (x ∷ xs) f h = (f x h.0, All-weaken P Q xs f h.1)

named_otherwise : (name stem : String) → not (is_temporary name) ≡ true → name ≢ after stem ".tmp"
named_otherwise name stem h e =
    let ends : is_temporary name ≡ true = ap is_temporary e ∙ is_temporary-after stem in
    absurd (ground (arith, h, ends))

pub payload_files-IsPayload :
    (root : StateRoot) → All (λ p. IsPayload root p.0 p.1) (payload_files root)
unfolding payload_files directories
payload_files-IsPayload root =
    All-weaken _ _ (payload_files root)
      (λ p h. record {
        front = h.0.0;
        back = h.0.1;
        there = h.0.2;
        is_final = λ stem. named_otherwise p.0 stem h.1;
      })
      (All-selected _ _ (directories root.artifacts)
        (sorted-All _ _ root.artifacts (split_off [] root.artifacts)))
