-- ===== src/Kernel/Completeness/Verdict.antt =====
-- The verdict of `completeness`, and that of `can_finalize`.
use portable_batch_execution.Base.{
  ℕ, String, Bool, true, false, ◌&&◌, ◌||◌, ◌==◌, eq_iff, ◌≡◌, refl, ◌∙◌, ap, List, [], ◌∷◌, select,
  All, contains, same_set, length, ltb, eqb, arith, ok, raise, value_error, all, Bool-cases,
  Bool_ext, eqb_iff, inl, inr,
}
use portable_batch_execution.Base.Dict.{Dict, put, keys, get_list}
use portable_batch_execution.Base.Order.{text_le}
use portable_batch_execution.Base.Sets.{
  all_of_contains, contains-all, contains-select, All-contains_self, same_set_cong,
}
use portable_batch_execution.Base.Sorting.{sorted, any-sorted, sorted-All}
use portable_batch_execution.Contracts.Attempt.{ShardAttemptRecord, is_empty}
use portable_batch_execution.Contracts.Manifest.{attempt_shards}
use portable_batch_execution.Contracts.Shard.{ShardSpec}
use portable_batch_execution.Kernel.Completeness.{
  shard_map, shards_onto, Completeness, completeness, is_complete, can_finalize, canonical_of,
}
use portable_batch_execution.Kernel.Completeness.Partition.{
  found, count_of, IsCanonical, get_list-by_shard, attempt_shards-canonical_of,
  canonical_of-IsCanonical,
}
use portable_batch_execution.Kernel.Waves.{shard_ids}

contains-keys-put :
    {V : Type 0} (d : Dict V) (k i : String) (v : V)
    → contains (keys (put d k v)) i ≡ ((k == i) || contains (keys d) i)
unfolding put
contains-keys-put [] k i v = refl
contains-keys-put ((j, w) ∷ d) k i v = ground (arith, contains-keys-put d k i v, eq_iff j k)

contains-keys-shards_onto :
    (d : Dict ShardSpec) (ss : List ShardSpec) (i : String)
    → contains (keys (shards_onto d ss)) i ≡ (contains (keys d) i || contains (shard_ids ss) i)
unfolding shards_onto
contains-keys-shards_onto d [] i = ground arith
contains-keys-shards_onto d (s ∷ ss) i =
    ground (
      arith,
      contains-keys-shards_onto (put d s.shard_id s) ss i,
      contains-keys-put d s.shard_id i s,
    )

-- The keys of the map are the shards' identifiers, as a set.
same_set-keys :
    (shards : List ShardSpec) (expected : List String)
    → same_set (keys (shard_map shards)) expected ≡ same_set (shard_ids shards) expected
same_set-keys shards expected =
    same_set_cong (keys (shard_map shards)) (shard_ids shards) expected
      (contains-keys-shards_onto [] shards)

module _ (expected : List String) (attempts : List ShardAttemptRecord)
    (shards : List ShardSpec) where
  -- What `completeness` finds: the answer for each identifier, and what the canonical attempts are.
  pub record IsVerdict (c : Completeness) : Type 0 where
    pub missing :
        (i : String)
        → contains c.missing i ≡ (contains expected i && eqb (count_of shards attempts i) 0)
    pub duplicate :
        (i : String)
        → contains c.duplicate i ≡ (contains expected i && ltb 1 (count_of shards attempts i))
    pub completed :
        attempt_shards c.canonical
        ≡ select (λ i. eqb (count_of shards attempts i) 1) (sorted text_le expected)
    pub canonical : All (IsCanonical expected shards) c.canonical

  counted :
      (p : ℕ → Bool) (i : String)
      → contains
          (sorted text_le
            (select (λ j. p (length (get_list (found expected attempts shards) j))) expected))
          i
        ≡ (contains expected i && p (count_of shards attempts i))
  counted p i =
      any-sorted text_le (λ j. j == i) _
      ∙ (contains-select (λ j. p (length (get_list (found expected attempts shards) j))) expected i
          ∙ elim (Bool-cases (contains expected i)) [
            | inl e ↦
                rw e (ap (λ rs. p (length rs)) (get_list-by_shard expected attempts shards i e))
            | inr e ↦ rw e
          ])

  -- If the planned shards are the expected ones, as sets, `completeness` returns, and each expected
  -- shard is counted once: it is missing if no attempt satisfies it, duplicate if two or more do,
  -- and completed if exactly one does, with that attempt among the canonical ones, in the order of
  -- the identifiers.
  pub completeness-IsVerdict :
      same_set (shard_ids shards) expected ≡ true
      → (c : Completeness) × (completeness expected attempts shards ≡ ok c) × IsVerdict c
  unfolding completeness
  completeness-IsVerdict h =
      let members = sorted-All text_le _ expected (All-contains_self expected) in
      (
        record {
          canonical = canonical_of (found expected attempts shards) (sorted text_le expected);
          missing =
              sorted text_le (
                select (λ i. eqb (length (get_list (found expected attempts shards) i)) 0)
                  expected);
          duplicate =
              sorted text_le (
                select (λ i. ltb 1 (length (get_list (found expected attempts shards) i)))
                  expected);
        },
        rw (same_set-keys shards expected ∙ h),
        record {
          missing = counted (λ n. eqb n 0);
          duplicate = counted (λ n. ltb 1 n);
          completed = attempt_shards-canonical_of expected attempts shards _ members;
          canonical = canonical_of-IsCanonical expected attempts shards _ members;
        },
      )

  -- If the planned shards are not the expected ones, as sets, `completeness` raises, whatever the
  -- attempts.
  completeness_mismatch :
      same_set (shard_ids shards) expected ≡ false
      → completeness expected attempts shards
        ≡ raise (value_error "planned shards must exactly match expected shard IDs")
  unfolding completeness
  completeness_mismatch h = rw (same_set-keys shards expected ∙ h)

  is_empty_of_contains :
      (xs : List String) → ((i : String) → contains xs i ≡ false) → is_empty xs ≡ true
  is_empty_of_contains [] h = refl
  is_empty_of_contains (x ∷ xs) h = ground (arith, h x, eq_iff x x)

  not_missing_once :
      (c : Completeness)
      → IsVerdict c
      → is_complete c ≡ true
      → (i : String) → contains expected i ≡ true
      → count_of shards attempts i ≡ 1
  not_missing_once c v h i m = ground (arith, v.missing i, v.duplicate i)

  once_complete :
      (c : Completeness)
      → IsVerdict c
      → ((i : String) → contains expected i ≡ true → count_of shards attempts i ≡ 1)
      → is_complete c ≡ true
  once_complete c v once = ground (
    arith,
    is_empty_of_contains c.missing (λ i. ground (arith, v.missing i, once i)),
    is_empty_of_contains c.duplicate (λ i. ground (arith, v.duplicate i, once i)),
  )

  pub is_complete_lem :
      (c : Completeness)
      → IsVerdict c
      → is_complete c ≡ all (λ i. eqb (count_of shards attempts i) 1) expected
  is_complete_lem c v =
      Bool_ext _ _
        (λ h. all_of_contains _ expected (λ i m. (eqb_iff _ 1).1 (not_missing_once c v h i m)))
        (λ h. once_complete c v (λ i m. (eqb_iff _ 1).0 (contains-all _ expected i h m)))

  -- If the planned shards are the expected ones, `can_finalize` returns, and it returns whether
  -- every expected shard is satisfied by exactly one attempt.
  can_finalize_lem :
      same_set (shard_ids shards) expected ≡ true
      → can_finalize expected attempts shards
        ≡ ok (all (λ i. eqb (count_of shards attempts i) 1) expected)
  unfolding can_finalize
  can_finalize_lem h =
      let (c, returns, v) = completeness-IsVerdict h in rw returns (ap ok (is_complete_lem c v))
