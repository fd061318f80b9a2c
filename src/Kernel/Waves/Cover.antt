-- ===== src/Kernel/Waves/Cover.antt =====
-- `plan_waves`: every shard runs in exactly one wave, in planning order, and no wave is empty or over
-- the limit.
use native.Mathlib.Nat.{mul-div_cancel}
use mathlib.Core.List.{map-append}
use portable_batch_execution.Base.{
  ℕ, zero, suc, ◌+◌, ◌*◌, ◌<◌, ◌≤◌, min, String, true, false, not, ◌==◌, ◌≡◌, refl, sym, ◌∙◌, ap,
  Option, List, [], ◌∷◌, ◌++◌, any, All, distinct, take, drop, length, length-drop,
  take-append-drop, arith, ok, traverse, eqb,
}
use portable_batch_execution.Base.Int.{ℤ, pos, negsuc}
use portable_batch_execution.Base.Sorting.{sorted, any-sorted, distinct-sorted}
use portable_batch_execution.Base.Steps.{
  steps, range_length, range_length_enough, range_length_tight,
}
use portable_batch_execution.Contracts.Shard.{ShardSpec, WaveSpec}
use portable_batch_execution.Kernel.Waves.Slices.{
  drop-drop, distinct-drop, distinct-take, length-shard_ids-take,
}
use portable_batch_execution.Kernel.Waves.{
  shard_le, shard_ids, not_positive, Capabilities, limits, least, wave_name, wave_at, magnitude,
  plan_waves,
}

-- The waves of a list of shards, `count` of them, numbered from `k`.
waves_from : String → ℕ → ℕ → ℕ → ℕ → List ShardSpec → List WaveSpec
waves_from run_id max_parallel limit zero k rest = []
waves_from run_id max_parallel limit (suc count) k rest =
    record {
      logical_run_id = run_id;
      wave_id = wave_name k;
      ordinal = k;
      shard_ids = shard_ids (take limit rest);
      max_parallel = max_parallel;
    }
    ∷ waves_from run_id max_parallel limit count (suc k) (drop limit rest)

module _ (run_id : String) (max_parallel limit : ℕ) (pos_parallel : 0 < max_parallel)
    (pos_limit : 0 < limit) where
  wave_at-offset :
      (ordered : List ShardSpec) (k : ℕ)
      → distinct (shard_ids ordered) ≡ true
      → k * limit < length ordered
      → wave_at run_id max_parallel limit ordered (k * limit)
        ≡ ok (record {
          logical_run_id = run_id;
          wave_id = wave_name k;
          ordinal = k;
          shard_ids = shard_ids (take limit (drop (k * limit) ordered));
          max_parallel = max_parallel;
        })
  unfolding wave_at
  wave_at-offset ordered k once more = rw (mul-div_cancel k pos_limit) (
      ground (
        arith,
        length-shard_ids-take limit (drop (k * limit) ordered),
        length-drop (k * limit) ordered,
        distinct-take limit (drop (k * limit) ordered) (distinct-drop (k * limit) ordered once),
      ))

  traverse-waves :
      (ordered : List ShardSpec) (count k start : ℕ)
      → distinct (shard_ids ordered) ≡ true
      → start ≡ k * limit
      → ((c : ℕ) → count ≡ suc c → start + c * limit < length ordered)
      → traverse (wave_at run_id max_parallel limit ordered) (steps count start limit)
        ≡ ok (waves_from run_id max_parallel limit count k (drop start ordered))
  unfolding steps waves_from
  traverse-waves ordered zero k start once e last = refl
  traverse-waves ordered (suc count) k start once e last = rw (drop-drop start limit ordered) (
      rw e (
        rw (wave_at-offset ordered k once (omega (arith, last count refl))) (
          rw (
            traverse-waves ordered count (suc k) (k * limit + limit) once (omega arith)
              (λ c h. omega (arith, last (suc c) (ap suc h)))))))

-- The shards of the waves, in order.
pub planned_ids : List WaveSpec → List String
planned_ids [] = []
planned_ids (w ∷ ws) = w.shard_ids ++ planned_ids ws

-- The wave is not empty, stays below each limit, belongs to the run, and is numbered and named `k`.
pub record IsWave (run_id : String) (caps : List ℤ) (k : ℕ) (w : WaveSpec) : Type 0 where
  pub some_shard : 0 < length w.shard_ids
  pub within : All (λ z. length w.shard_ids ≤ magnitude z) caps
  pub of_run : w.logical_run_id ≡ run_id
  pub numbered : w.ordinal ≡ k
  pub named : w.wave_id ≡ wave_name k

abbrev pub AreWaves : String → List ℤ → ℕ → List WaveSpec → Type 0
AreWaves run_id caps k [] = Unit
AreWaves run_id caps k (w ∷ ws) = IsWave run_id caps k w × AreWaves run_id caps (suc k) ws

All-le :
    (m n : ℕ) (zs : List ℤ) → m ≤ n → All (λ z. n ≤ magnitude z) zs → All (λ z. m ≤ magnitude z) zs
All-le m n [] h a = tt
All-le m n (z ∷ zs) h a = (omega arith, All-le m n zs h a.1)

planned_ids-waves_from :
    (run_id : String) (max_parallel limit count k : ℕ) (rest : List ShardSpec)
    → length rest ≤ count * limit
    → planned_ids (waves_from run_id max_parallel limit count k rest) ≡ shard_ids rest
unfolding planned_ids waves_from
planned_ids-waves_from run_id max_parallel limit zero k [] h = refl
planned_ids-waves_from run_id max_parallel limit zero k (s ∷ ss) h = absurd (omega arith)
planned_ids-waves_from run_id max_parallel limit (suc count) k rest h =
    rw
      (planned_ids-waves_from run_id max_parallel limit count (suc k) (drop limit rest)
        (omega (arith, length-drop limit rest)))
      (sym (map-append (λ s. s.shard_id) (take limit rest) (drop limit rest))
        ∙ ap shard_ids (take-append-drop limit rest))

AreWaves-waves_from :
    (run_id : String) (caps : List ℤ) (max_parallel limit count k : ℕ) (rest : List ShardSpec)
    → All (λ z. limit ≤ magnitude z) caps
    → 0 < limit
    → ((c : ℕ) → count ≡ suc c → c * limit < length rest)
    → AreWaves run_id caps k (waves_from run_id max_parallel limit count k rest)
unfolding waves_from
AreWaves-waves_from run_id caps max_parallel limit zero k rest below above last = tt
AreWaves-waves_from run_id caps max_parallel limit (suc count) k rest below above last = (
  record {
    some_shard = omega (arith, length-shard_ids-take limit rest, last count refl);
    within =
        All-le (length (shard_ids (take limit rest))) limit caps
          (omega (arith, length-shard_ids-take limit rest)) below;
    of_run = refl;
    numbered = refl;
    named = refl;
  },
  AreWaves-waves_from run_id caps max_parallel limit count (suc k) (drop limit rest) below above
      (λ c h. omega (arith, length-drop limit rest, last (suc c) (ap suc h))),
)

least_pos : (zs : List ℤ) → eqb (length zs) 0 ≡ false → any not_positive zs ≡ false → 0 < least zs
unfolding least
least_pos [] h p = ground arith
least_pos (pos zero ∷ zs) h p = ground arith
least_pos (pos (suc n) ∷ []) h p = omega arith
least_pos (pos (suc n) ∷ z ∷ zs) h p =
    omega (arith, least_pos (z ∷ zs) (ground arith) (ground arith))
least_pos (negsuc n ∷ zs) h p = ground arith

least-le : (zs : List ℤ) → any not_positive zs ≡ false → All (λ z. least zs ≤ magnitude z) zs
unfolding least
least-le [] p = tt
least-le (pos n ∷ []) p = omega arith
least-le (pos n ∷ z ∷ zs) p = (
  omega arith,
  All-le (min n (least (z ∷ zs))) (least (z ∷ zs)) (z ∷ zs) (omega arith)
      (least-le (z ∷ zs) (ground arith)),
)
least-le (negsuc n ∷ zs) p = ground arith

magnitude_pos : (z : ℤ) → not_positive z ≡ false → 0 < magnitude z
magnitude_pos (pos zero) h = ground arith
magnitude_pos (pos (suc n)) h = omega arith
magnitude_pos (negsuc n) h = ground arith

-- What `plan_waves` asks for.
pub record IsAdmissible (run_id : String) (shards : List ShardSpec) (max_parallel : ℤ)
    (caps : List ℤ) : Type 0 where
  pub parallel : not_positive max_parallel ≡ false
  pub capped : eqb (length caps) 0 ≡ false
  pub positive_caps : any not_positive caps ≡ false
  pub unique : distinct (shard_ids shards) ≡ true
  pub of_run : any (λ s. not (s.logical_run_id == run_id)) shards ≡ false

module _ (run_id : String) (shards : List ShardSpec) (max_parallel : ℤ) (max_per_wave : Option ℤ)
    (capabilities : Option Capabilities)
    (h : IsAdmissible run_id shards max_parallel (limits max_per_wave capabilities)) where
  abbrev ordered : List ShardSpec
  ordered = sorted shard_le shards

  abbrev limit : ℕ
  limit = least (limits max_per_wave capabilities)

  abbrev count : ℕ
  count = range_length 0 (length ordered) limit

  limit_pos : 0 < limit
  limit_pos = least_pos (limits max_per_wave capabilities) h.capped h.positive_caps

  count_tight : (c : ℕ) → count ≡ suc c → 0 + c * limit < length ordered
  count_tight c e = range_length_tight 0 (length ordered) limit c limit_pos e

  parallel_pos : 0 < magnitude max_parallel
  parallel_pos = magnitude_pos max_parallel h.parallel

  -- If the run's shards have distinct identifiers and all limits are positive, `plan_waves` returns:
  -- its waves hold the shards in planning order, each once, and each wave has a shard, keeps to the
  -- caller's and the backend's limit, and is numbered and named by its place.
  pub plan_waves-cover :
      (waves : List WaveSpec) × (plan_waves run_id shards max_parallel max_per_wave capabilities
        ≡ ok waves)
      × (planned_ids waves ≡ shard_ids (sorted shard_le shards))
      × AreWaves run_id (limits max_per_wave capabilities) 0 waves
  unfolding plan_waves
  plan_waves-cover =
      let once = distinct-sorted shard_le (λ s. s.shard_id) shards ∙ h.unique in
      (
        waves_from run_id (magnitude max_parallel) limit count 0 ordered,
        rw
            (
              h.parallel,
              once,
              any-sorted shard_le (λ s. not (s.logical_run_id == run_id)) shards ∙ h.of_run,
              h.capped,
              h.positive_caps,
            )
            (traverse-waves run_id (magnitude max_parallel) limit parallel_pos limit_pos ordered
              count 0 0 once (omega arith) count_tight),
        planned_ids-waves_from run_id (magnitude max_parallel) limit count 0 ordered
            (omega (arith, range_length_enough 0 (length ordered) limit limit_pos)),
        AreWaves-waves_from run_id (limits max_per_wave capabilities) (magnitude max_parallel) limit
            count 0 ordered (least-le (limits max_per_wave capabilities) h.positive_caps) limit_pos
            (λ c e. omega (arith, count_tight c e)),
      )
