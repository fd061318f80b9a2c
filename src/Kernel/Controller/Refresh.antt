-- ===== src/Kernel/Controller/Refresh.antt =====
-- `refresh` keeps the manifest consistent, and marks it ready exactly if the run is complete.
use portable_batch_execution.Base.{
  String, Bool, true, false, ◌==◌, eq_iff, ◌≡◌, refl, ◌∙◌, List, [], ◌∷◌, ◌++◌, All, any, all,
  contains, distinct, subset, same_set, to_set, eqb, if◌then◌else◌, arith, ok,
}
use portable_batch_execution.Base.Int.{ℤ}
use portable_batch_execution.Base.Order.{text_le}
use portable_batch_execution.Base.Sets.{
  contains-append, contains-select, contains-to_set, distinct-to_set, distinct-select,
  distinct-sorted_self, subset_of_contains, same_set-to_set, all-to_set,
}
use portable_batch_execution.Base.Sorting.{sorted, any-sorted}
use portable_batch_execution.Contracts.Attempt.{ShardAttemptRecord}
use portable_batch_execution.Contracts.Manifest.{
  RunManifest, attempt_shards, same_texts, is_ready, ready, not_started, manifest_invariants,
}
use portable_batch_execution.Contracts.Manifest.Facts.{
  is_foreign, IsConsistent, manifest_invariants_pass, manifest_invariants_sound,
}
use portable_batch_execution.Contracts.Shard.{ShardSpec}
use portable_batch_execution.Kernel.Completeness.{Completeness, is_complete}
use portable_batch_execution.Kernel.Completeness.Partition.{count_of, IsCanonical}
use portable_batch_execution.Kernel.Completeness.Verdict.{
  IsVerdict, completeness-IsVerdict, is_complete_lem,
}
use portable_batch_execution.Kernel.Controller.{RunStateStore, refreshed, next_manifest}
use portable_batch_execution.Kernel.Waves.{shard_ids}

is_ready-status : (b : Bool) → is_ready (if b then ready else not_started) ≡ b
is_ready-status true = refl
is_ready-status false = refl

same_texts_refl : (xs : List String) → same_texts xs xs ≡ true
same_texts_refl [] = refl
same_texts_refl (x ∷ xs) = ground (arith, eq_iff x x, same_texts_refl xs)

module _ (m : RunManifest) (attempts : List ShardAttemptRecord) (planned : List ShardSpec)
    (c : Completeness) (v : IsVerdict (to_set m.expected_shard_ids) attempts planned c) where
  completed_expected :
      (i : String)
      → contains (attempt_shards c.canonical) i ≡ true
      → contains m.expected_shard_ids i ≡ true
  completed_expected i h = ground (
    arith,
    v.completed,
    contains-select (λ j. eqb (count_of planned attempts j) 1)
        (sorted text_le (to_set m.expected_shard_ids)) i,
    any-sorted text_le (λ j. j == i) (to_set m.expected_shard_ids),
    contains-to_set m.expected_shard_ids i,
  )

  known :
      subset (attempt_shards c.canonical ++ (c.missing ++ c.duplicate)) m.expected_shard_ids ≡ true
  known = subset_of_contains _ m.expected_shard_ids λ i h. ground (
    arith,
    contains-append (attempt_shards c.canonical) (c.missing ++ c.duplicate) i,
    contains-append c.missing c.duplicate i,
    v.missing i,
    v.duplicate i,
    contains-to_set m.expected_shard_ids i,
    completed_expected i,
  )

  canonical_once : distinct (attempt_shards c.canonical) ≡ true
  canonical_once = rw v.completed (
      distinct-select (λ j. eqb (count_of planned attempts j) 1)
        (sorted text_le (to_set m.expected_shard_ids))
        (distinct-sorted_self text_le (to_set m.expected_shard_ids)
          ∙ distinct-to_set m.expected_shard_ids))

  canonical_good :
      (rs : List ShardAttemptRecord)
      → All (IsCanonical (to_set m.expected_shard_ids) planned) rs
      → any (is_foreign m) rs ≡ false
  canonical_good [] h = refl
  canonical_good (a ∷ rs) h =
      ground (arith, contains-to_set m.expected_shard_ids a.shard_id, canonical_good rs h.1)

  refreshed-IsConsistent :
      (revision : ℤ) → IsConsistent m → IsConsistent (refreshed m revision attempts c)
  refreshed-IsConsistent revision h = record {
    in_order = h.in_order;
    expected_once = h.expected_once;
    known = known;
    canonical_once = canonical_once;
    canonical_good = canonical_good c.canonical v.canonical;
    completed = same_texts_refl (sorted text_le (attempt_shards c.canonical));
    published = ground arith;
    unblocked = ground arith;
  }

module _ {S : Type 0} (store : RunStateStore S) (s : S) (m : RunManifest) (revision : ℤ)
    (planned : List ShardSpec) (attempts : List ShardAttemptRecord) where
  -- Given the attempts that the store returns, planned shards that are the manifest's expected ones
  -- as sets, and a manifest that its validator accepts: `refresh` has a next manifest to write, the
  -- validator accepts it too, and it is marked ready exactly if each expected shard is satisfied by
  -- exactly one attempt.
  pub next_manifest-valid :
      store.read_attempts s m.logical_run_id ≡ ok attempts
      → same_set (shard_ids planned) m.expected_shard_ids ≡ true
      → manifest_invariants m ≡ ok tt
      → (next : RunManifest) × (next_manifest store s m revision planned ≡ ok next)
        × (manifest_invariants next ≡ ok tt)
        × (is_ready next.finalization_status
            ≡ all (λ i. eqb (count_of planned attempts i) 1) m.expected_shard_ids)
  unfolding next_manifest
  next_manifest-valid reads same valid =
      let (c, returns, v) =
        completeness-IsVerdict (to_set m.expected_shard_ids) attempts planned
          (same_set-to_set (shard_ids planned) m.expected_shard_ids ∙ same) in
      (
        refreshed m revision attempts c,
        rw (reads, returns, next_manifest),
        manifest_invariants_pass _ (
            refreshed-IsConsistent m attempts planned c v revision
              (manifest_invariants_sound m valid)),
        is_ready-status (is_complete c)
            ∙ (is_complete_lem (to_set m.expected_shard_ids) attempts planned c v
                ∙ all-to_set (λ i. eqb (count_of planned attempts i) 1) m.expected_shard_ids),
      )
