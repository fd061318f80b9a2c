-- ===== src/Kernel/Completeness/Partition.antt =====
-- What `completeness` finds for each expected shard, against a description without its loop.
use portable_batch_execution.Base.{
  ℕ, ℕ, String, Bool, true, ◌&&◌, ◌==◌, eq_iff, ◌≡◌, refl, ◌∙◌, List, [], ◌∷◌, ◌++◌, select,
  select-All, All, All-append, contains, length, eqb, if◌then◌else◌, arith,
}
use mathlib.Core.List.{map-append}
use portable_batch_execution.Base.Dict.{Dict, get, get_list, get_list-group_onto}
use portable_batch_execution.Contracts.Attempt.{ShardAttemptRecord, is_succeeded}
use portable_batch_execution.Contracts.Manifest.{attempt_shards}
use portable_batch_execution.Contracts.Shard.{ShardSpec}
use portable_batch_execution.Kernel.Completeness.{
  shard_map, is_current_for, counts_for, by_shard, only, canonical_of,
}

-- The attempt satisfies the planned shard `i`: it is one of its attempts, it succeeded, and it ran
-- on the inputs and the code that are planned.
abbrev pub satisfies : List ShardSpec → String → ShardAttemptRecord → Bool
satisfies shards i a =
    (a.shard_id == i) && (is_succeeded a && is_current_for (get (shard_map shards) i) a)

abbrev pub successes : List ShardSpec → List ShardAttemptRecord → String → List ShardAttemptRecord
successes shards attempts i = select (satisfies shards i) attempts

-- How often a shard succeeded.
abbrev pub count_of : List ShardSpec → List ShardAttemptRecord → String → ℕ
count_of shards attempts i = length (successes shards attempts i)

-- The attempt satisfies its own shard, which is expected.
abbrev pub IsCanonical : List String → List ShardSpec → ShardAttemptRecord → Type 0
IsCanonical expected shards a =
    (contains expected a.shard_id ≡ true) × (satisfies shards a.shard_id a ≡ true)

module _ (expected : List String) (attempts : List ShardAttemptRecord)
    (shards : List ShardSpec) where
  abbrev pub found : Dict (List ShardAttemptRecord)
  found = by_shard expected (shard_map shards) attempts

  select-counts_for :
      (i : String) (rs : List ShardAttemptRecord)
      → contains expected i ≡ true
      → select (λ a. a.shard_id == i) (select (counts_for expected (shard_map shards)) rs)
        ≡ successes shards rs i
  select-counts_for i [] h = refl
  select-counts_for i (a ∷ rs) h = ground (arith, eq_iff a.shard_id i, select-counts_for i rs h)

  pub get_list-by_shard :
      (i : String) → contains expected i ≡ true → get_list found i ≡ successes shards attempts i
  unfolding by_shard
  get_list-by_shard i h =
      get_list-group_onto [] (λ a. a.shard_id)
        (select (counts_for expected (shard_map shards)) attempts) i
      ∙ select-counts_for i attempts h

  attempt_shards-only :
      (p : ShardAttemptRecord → Bool) (i : String) (rs : List ShardAttemptRecord)
      → All (λ a. ((a.shard_id == i) && p a) ≡ true) rs
      → attempt_shards (only rs) ≡ (if eqb (length rs) 1 then i ∷ [] else [])
  attempt_shards-only p i [] h = refl
  attempt_shards-only p i (a ∷ []) h = ground (arith, eq_iff a.shard_id i, h.0)
  attempt_shards-only p i (a ∷ b ∷ rs) h = ground arith

  -- The canonical attempts are those of the shards that succeeded once, in the order of `is`.
  pub attempt_shards-canonical_of :
      (is : List String)
      → All (λ i. contains expected i ≡ true) is
      → attempt_shards (canonical_of found is) ≡ select (λ i. eqb (count_of shards attempts i) 1) is
  unfolding canonical_of
  attempt_shards-canonical_of [] h = refl
  attempt_shards-canonical_of (i ∷ is) h =
      map-append (λ a. a.shard_id) (only (get_list found i)) (canonical_of found is)
      ∙ rw (get_list-by_shard i h.0) (
          rw (attempt_shards-only _ i (successes shards attempts i) (select-All _ attempts))
            (rw (attempt_shards-canonical_of is h.1) (once_first i is)))
    where
      once_first :
          (i : String) (is : List String)
          → (if eqb (count_of shards attempts i) 1 then i ∷ [] else [])
              ++ select (λ j. eqb (count_of shards attempts j) 1) is
            ≡ select (λ j. eqb (count_of shards attempts j) 1) (i ∷ is)
      once_first i is = ground arith

  only-All :
      (P : ShardAttemptRecord → Type 0) (rs : List ShardAttemptRecord) → All P rs → All P (only rs)
  only-All P [] h = tt
  only-All P (a ∷ []) h = h
  only-All P (a ∷ b ∷ rs) h = tt

  successes-IsCanonical :
      (i : String) (rs : List ShardAttemptRecord)
      → contains expected i ≡ true
      → All (IsCanonical expected shards) (successes shards rs i)
  successes-IsCanonical i [] h = tt
  successes-IsCanonical i (a ∷ rs) h =
      ground
        (arith, eq_iff a.shard_id i, eq_iff a.shard_id a.shard_id, successes-IsCanonical i rs h)

  pub canonical_of-IsCanonical :
      (is : List String)
      → All (λ i. contains expected i ≡ true) is
      → All (IsCanonical expected shards) (canonical_of found is)
  unfolding canonical_of
  canonical_of-IsCanonical [] h = tt
  canonical_of-IsCanonical (i ∷ is) h =
      All-append (IsCanonical expected shards) (only (get_list found i)) (canonical_of found is)
        (canonical_of-IsCanonical is h.1)
        (only-All (IsCanonical expected shards) (get_list found i)
          (rw (get_list-by_shard i h.0) (successes-IsCanonical i attempts h.0)))
