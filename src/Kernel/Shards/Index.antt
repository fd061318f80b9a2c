-- ===== src/Kernel/Shards/Index.antt =====
-- `plan_shards` on index ranges: the shards tile the range and have distinct names.
use portable_batch_execution.Base.{
  ℕ, suc, ◌<◌, ◌≤◌, true, false, not, ◌&&◌, ◌==◌, eq_iff, ◌≡◌, refl, List, [], ◌∷◌, map, any,
  contains, distinct, arith, ok, Bool-cases, inl, inr,
}
use portable_batch_execution.Base.Decimal.{after-injective, padded-injective}
use portable_batch_execution.Base.Int.{pos}
use portable_batch_execution.Base.Steps.{range, slices, Tiles, range-Tiles}
use portable_batch_execution.Contracts.Range.{RangeSpec, validate_range, ordered_scalars, scalar_gt}
use portable_batch_execution.Contracts.Shard.{
  ShardSpec, extents, is_records, is_affine, is_missing, validate_shard,
}
use portable_batch_execution.Kernel.Ranges.{index_range}
use portable_batch_execution.Kernel.Shards.{
  ShardPlan, whole, planned_ranges, planned_shard, shard_name, build_shards, plan_shards,
}
use portable_batch_execution.Kernel.Waves.{shard_ids}

-- An ordered index range passes the validators of `RangeSpec`.
pub validate_range-index :
    (a b : ℕ) → a ≤ b → validate_range (index_range a b) ≡ ok (index_range a b)
unfolding validate_range scalar_gt ordered_scalars
validate_range-index a b h = ground arith

-- The shards that `plan_shards` builds for these ranges, from an ordinal on.
unfoldable pub shards_for : ShardPlan → ℕ → List RangeSpec → List ShardSpec
shards_for p k [] = []
shards_for p k (r ∷ rs) = planned_shard p k r ∷ shards_for p (suc k) rs

shard_name-injective : (i j : ℕ) → shard_name i ≡ shard_name j → i ≡ j
unfolding shard_name
shard_name-injective i j e = padded-injective 6 i j (after-injective "shard-" _ _ e)

shards_for-later :
    (p : ShardPlan) (k j : ℕ) (rs : List RangeSpec)
    → j < k
    → contains (shard_ids (shards_for p k rs)) (shard_name j) ≡ false
unfolding shards_for
shards_for-later p k j [] h = refl
shards_for-later p k j (r ∷ rs) h = elim (Bool-cases (shard_name k == shard_name j)) [
  | inl e ↦ absurd (omega (arith, shard_name-injective k j ((eq_iff _ _).0 e)))
  | inr e ↦ rw e (shards_for-later p (suc k) j rs (omega arith))
]

pub shards_for-distinct :
    (p : ShardPlan) (k : ℕ) (rs : List RangeSpec) → distinct (shard_ids (shards_for p k rs)) ≡ true
unfolding shards_for
shards_for-distinct p k [] = refl
shards_for-distinct p k (r ∷ rs) =
    ground (arith, shards_for-later p (suc k) k rs (omega arith), shards_for-distinct p (suc k) rs)

-- The guards of `plan_shards` and of the validators that look at the plan alone: a partition key
-- where the mode wants one, and record extents only.
pub record IsIndexPlan (p : ShardPlan) : Type 0 where
  pub keyed : (is_affine p.correctness && is_missing p.partition_key) ≡ false
  pub record_extents : any (λ e. not (is_records e)) (extents p.correctness) ≡ false

validate_shard-index :
    (p : ShardPlan) (k a b : ℕ)
    → IsIndexPlan p
    → validate_shard (planned_shard p k (index_range a b))
      ≡ ok (planned_shard p k (index_range a b))
unfolding validate_shard
validate_shard-index p k a b h = rw (h.keyed, h.record_extents)

abbrev pub index_specs : List (ℕ × ℕ) → List RangeSpec
index_specs = map (λ (a, b). index_range a b)

build_shards-index :
    (p : ShardPlan) (k lo hi size : ℕ) (rs : List (ℕ × ℕ))
    → IsIndexPlan p
    → Tiles size lo hi rs
    → build_shards p k (index_specs rs) ≡ ok (shards_for p k (index_specs rs))
unfolding build_shards shards_for
build_shards-index p k lo hi size [] h t = refl
build_shards-index p k lo hi size ((a, b) ∷ rs) h t =
    rw (validate_range-index a b (omega arith))
      (rw (validate_shard-index p k a b h) (rw (build_shards-index p (suc k) b hi size rs h t.1)))

-- For an ordered index range, a positive integer size, and a plan that passes the guards,
-- `plan_shards` returns: its shards, numbered and named from 0, carry ranges that tile the primary
-- range in steps of the size, and no two of them have one name.
pub plan_shards-index :
    (p : ShardPlan) (start end n : ℕ)
    → IsIndexPlan p
    → start ≤ end
    → (rs : List (ℕ × ℕ)) × Tiles (suc n) start end rs
      × (plan_shards p (index_range start end) (whole (pos (suc n)))
          ≡ ok (shards_for p 0 (index_specs rs)))
      × (distinct (shard_ids (shards_for p 0 (index_specs rs))) ≡ true)
unfolding plan_shards planned_ranges
plan_shards-index p start end n h le =
    let tiles = range-Tiles start end (suc n) (omega arith) le in
    (
      slices (suc n) end (range start end (suc n)),
      tiles,
      rw h.keyed (build_shards-index p 0 start end (suc n) _ h tiles),
      shards_for-distinct p 0 _,
    )
