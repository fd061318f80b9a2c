-- ===== src/Kernel/Retry/Budget.antt =====
-- Which shards may run again: the attempt budget, and the three ways in which a shard can stand.
use mathlib.Core.List.{Perm, perm_middle}
use mathlib.Core.List.Perm
use portable_batch_execution.Base.{
  Bool, true, false, not, ◌&&◌, ◌||◌, ◌==◌, ◌≡◌, refl, sym, ◌∙◌, ◌<◌, ap, List, [], ◌∷◌, ◌++◌,
  select, any, All, length, ltb, leb, arith, Bool-cases, inl, inr,
}
use portable_batch_execution.Base.Dict.{get_list-group_onto}
use portable_batch_execution.Base.Sorting.{sorted, sorted-perm, sorted-All}
use portable_batch_execution.Contracts.Attempt.{ShardAttemptRecord, is_succeeded}
use portable_batch_execution.Contracts.Shard.{ShardSpec, ExecutionPolicy}
use portable_batch_execution.Kernel.Completeness.{is_current}
use portable_batch_execution.Kernel.Retry.{
  attempts_by_shard, records_of, may_retry, retryable_shards, is_exhausted, exhausted_shards,
}
use portable_batch_execution.Kernel.Waves.{shard_le}

-- The attempts of the shard on its current inputs and code.
abbrev pub is_attempt_of : ShardSpec → ShardAttemptRecord → Bool
is_attempt_of s a = (a.shard_id == s.shard_id) && is_current s a

abbrev pub current_attempts : List ShardAttemptRecord → ShardSpec → List ShardAttemptRecord
current_attempts attempts s = select (is_attempt_of s) attempts

abbrev pub has_success : List ShardAttemptRecord → ShardSpec → Bool
has_success attempts s = any is_succeeded (current_attempts attempts s)

-- The shards with a current success, in planning order.
abbrev pub succeeded_shards : List ShardSpec → List ShardAttemptRecord → List ShardSpec
succeeded_shards shards attempts = select (has_success attempts) (sorted shard_le shards)

select-is_current :
    (s : ShardSpec) (rs : List ShardAttemptRecord)
    → select (is_current s) (select (λ a. a.shard_id == s.shard_id) rs) ≡ current_attempts rs s
select-is_current s [] = refl
select-is_current s (a ∷ rs) = ground (arith, select-is_current s rs)

records_of_lem :
    (attempts : List ShardAttemptRecord) (s : ShardSpec)
    → records_of (attempts_by_shard attempts) s ≡ current_attempts attempts s
unfolding records_of attempts_by_shard
records_of_lem attempts s =
    ap (select (is_current s)) (get_list-group_onto [] (λ a. a.shard_id) attempts s.shard_id)
    ∙ select-is_current s attempts

-- The second test of the digests in `success` changes nothing.
any-current :
    (s : ShardSpec) (rs : List ShardAttemptRecord)
    → any (λ a. is_succeeded a && is_current s a) (current_attempts rs s) ≡ has_success rs s
any-current s [] = refl
any-current s (a ∷ rs) = ground (arith, any-current s rs)

pub may_retry_lem :
    (attempts : List ShardAttemptRecord) (policy : ExecutionPolicy) (s : ShardSpec)
    → may_retry (attempts_by_shard attempts) policy s ≡ (
        (not (has_success attempts s) || not policy.resume_enabled)
        && ltb (length (current_attempts attempts s)) policy.max_attempts_per_shard)
unfolding may_retry
may_retry_lem attempts policy s = rw (records_of_lem attempts s) (rw (any-current s attempts))

pub is_exhausted_lem :
    (attempts : List ShardAttemptRecord) (policy : ExecutionPolicy) (s : ShardSpec)
    → is_exhausted (attempts_by_shard attempts) policy s ≡ (
        leb policy.max_attempts_per_shard (length (current_attempts attempts s))
        && not (has_success attempts s))
unfolding is_exhausted
is_exhausted_lem attempts policy s = rw (records_of_lem attempts s)

-- Exactly one of the tests passes.
abbrev OneOf : Bool → Bool → Bool → Type 0
OneOf p q r = (p ≡ not (q || r)) × ((q && r) ≡ false)

split3-perm {ℓ} :
    {A : Type ℓ} (p q r : A → Bool) (xs : List A)
    → ((x : A) → OneOf (p x) (q x) (r x))
    → Perm (select p xs ++ (select q xs ++ select r xs)) xs
split3-perm p q r [] h = Perm.rfl
split3-perm p q r (x ∷ xs) h =
    let ih = Perm.cons x (split3-perm p q r xs h) in
    elim (Bool-cases (q x)) [
      | inl eq ↦
          let er : r x ≡ false = ground (arith, (h x).1) in
          let ep : p x ≡ false = ground (arith, (h x).0) in
          rw ep (rw eq (rw er (Perm.trans (perm_middle (select p xs) _) ih)))
      | inr eq ↦ elim (Bool-cases (r x)) [
        | inl er ↦
            let ep : p x ≡ false = ground (arith, (h x).0) in
            rw ep (
              rw eq (
                rw er (
                  Perm.trans
                    (Perm.append_left (select p xs) (perm_middle (select q xs) (select r xs)))
                    (Perm.trans (perm_middle (select p xs) _) ih))))
        | inr er ↦ let ep : p x ≡ true = ground (arith, (h x).0) in rw ep (rw eq (rw er ih))
      ]
    ]

module _ (shards : List ShardSpec) (attempts : List ShardAttemptRecord)
    (policy : ExecutionPolicy) where
  -- Under a policy that resumes, every planned shard stands in exactly one of three ways: it may run
  -- again, it has used up its attempts, or it has a success on its current inputs and code.
  pub retry_partition :
      policy.resume_enabled ≡ true
      → Perm
          (retryable_shards shards attempts policy
            ++ (exhausted_shards shards attempts policy ++ succeeded_shards shards attempts))
          shards
  unfolding retryable_shards exhausted_shards
  retry_partition resumes =
      Perm.trans
        (split3-perm (may_retry (attempts_by_shard attempts) policy)
          (is_exhausted (attempts_by_shard attempts) policy) (has_success attempts)
          (sorted shard_le shards)
          λ s. (
            ground (arith, may_retry_lem attempts policy s, is_exhausted_lem attempts policy s),
            ground (arith, is_exhausted_lem attempts policy s),
          ))
        (sorted-perm shard_le shards)

  -- The budget is not used up, and nothing has succeeded that the policy would resume from.
  abbrev pub HasBudget : ShardSpec → Type 0
  HasBudget s =
      (length (current_attempts attempts s) < policy.max_attempts_per_shard)
      × ((has_success attempts s && policy.resume_enabled) ≡ false)

  select-HasBudget :
      (ss : List ShardSpec)
      → All HasBudget (select (may_retry (attempts_by_shard attempts) policy) ss)
  select-HasBudget [] = tt
  select-HasBudget (s ∷ ss) = elim (Bool-cases (may_retry (attempts_by_shard attempts) policy s)) [
    | inl e ↦ rw e (
      (
        ground (arith, may_retry_lem attempts policy s),
        ground (arith, may_retry_lem attempts policy s),
      ),
      select-HasBudget ss,
    )
    | inr e ↦ rw e (select-HasBudget ss)
  ]

  -- Every shard that may run again has made fewer attempts, on its current inputs and code, than the
  -- policy allows, and if the policy resumes, none of them succeeded.
  retryable_shards-HasBudget : All HasBudget (retryable_shards shards attempts policy)
  unfolding retryable_shards
  retryable_shards-HasBudget = select-HasBudget (sorted shard_le shards)

-- None of the attempts is one of the shard's, on its current inputs and code.
abbrev pub AreStale : List ShardAttemptRecord → ShardSpec → Type 0
AreStale extra s = All (λ a. is_attempt_of s a ≡ false) extra

current_attempts-append :
    (attempts extra : List ShardAttemptRecord) (s : ShardSpec)
    → AreStale extra s
    → current_attempts (attempts ++ extra) s ≡ current_attempts attempts s
current_attempts-append [] [] s h = refl
current_attempts-append [] (a ∷ extra) s h =
    ground (arith, h.0, current_attempts-append [] extra s h.1)
current_attempts-append (a ∷ attempts) extra s h =
    ground (arith, current_attempts-append attempts extra s h)

select_cong :
    (P : ShardSpec → Type 0) (p q : ShardSpec → Bool) (ss : List ShardSpec)
    → ((s : ShardSpec) → P s → p s ≡ q s)
    → All P ss
    → select p ss ≡ select q ss
select_cong P p q [] f h = refl
select_cong P p q (s ∷ ss) f h = ground (arith, f s h.0, select_cong P p q ss f h.1)

-- Further attempts that are stale for every shard change neither which shards may run again nor
-- which are exhausted.
stale_attempts_ignored :
    (shards : List ShardSpec) (attempts extra : List ShardAttemptRecord) (policy : ExecutionPolicy)
    → All (AreStale extra) shards
    → (retryable_shards shards (attempts ++ extra) policy ≡ retryable_shards shards attempts policy)
      × (exhausted_shards shards (attempts ++ extra) policy
          ≡ exhausted_shards shards attempts policy)
unfolding retryable_shards exhausted_shards
stale_attempts_ignored shards attempts extra policy stale =
    let ordered = sorted shard_le shards in
    let still = sorted-All shard_le (AreStale extra) shards stale in
    let same =
      λ (s : ShardSpec) (h : AreStale extra s). current_attempts-append attempts extra s h in
    (
      select_cong (AreStale extra) (may_retry (attempts_by_shard (attempts ++ extra)) policy)
          (may_retry (attempts_by_shard attempts) policy) ordered
          (λ s h.
            may_retry_lem (attempts ++ extra) policy s
            ∙ rw (same s h) (sym (may_retry_lem attempts policy s)))
          still,
      select_cong (AreStale extra) (is_exhausted (attempts_by_shard (attempts ++ extra)) policy)
          (is_exhausted (attempts_by_shard attempts) policy) ordered
          (λ s h.
            is_exhausted_lem (attempts ++ extra) policy s
            ∙ rw (same s h) (sym (is_exhausted_lem attempts policy s)))
          still,
    )
