-- ===== src/Registry/Waves.antt =====
-- A registered wave is resolved to what was registered, for good.
use portable_batch_execution.Base.{
  String, Bool, ◌==◌, eq_iff, ◌≡◌, refl, sym, ◌∙◌, ap, Option, none, some, List, if◌then◌else◌,
  arith, Error, Outcome, Outcome-cases, inl, inr, ok, raise, Bool-cases,
}
use portable_batch_execution.Base.Dict.{get, put, get-put}
use portable_batch_execution.Contracts.Job.{JobSpec}
use portable_batch_execution.Contracts.Shard.{ShardSpec, WaveSpec}
use portable_batch_execution.Registry.{
  Bundle, ClosedRun, Registry, run_at, register_checks, place_job, place_wave, register_locked,
  register_closed_wave, resolve_wave,
}
use portable_batch_execution.Names.{safe_file_component}

-- The bundle in the file of a wave.
abbrev pub bundle_at : Registry → String → String → Option Bundle
bundle_at registry run_id wave_id = get (run_at registry run_id).waves wave_id

run_at-put :
    (registry : Registry) (i j : String) (r : ClosedRun)
    → run_at (put registry i r) j ≡ (if i == j then r else run_at registry j)
unfolding run_at
run_at-put registry i j r = ground (arith, get-put registry i j r)

module _ (same_job : JobSpec → JobSpec → Bool) where
  place_job-waves :
      (found : Option JobSpec) (r r' : ClosedRun) (job : JobSpec)
      → place_job same_job found r job ≡ ok r'
      → r'.waves ≡ r.waves
  unfolding place_job
  place_job-waves (some e) r r' job h = elim (Bool-cases (same_job e job)) [
    | inl t ↦ ground arith
    | inr f ↦ ground arith
  ]
  place_job-waves none r r' job h = ground arith

  place_wave-keeps :
      (found : Option Bundle) (r : ClosedRun) (bundle : Bundle) (i : String) (b : Bundle)
      → get r.waves bundle.wave.wave_id ≡ found
      → get r.waves i ≡ some b
      → get (place_wave same_job found r bundle).1.waves i ≡ some b
  unfolding place_wave
  place_wave-keeps (some c) r bundle i b e h = h
  place_wave-keeps none r bundle i b e h =
      ground (arith, get-put r.waves bundle.wave.wave_id i bundle, eq_iff bundle.wave.wave_id i)

  place_wave-stores :
      (found : Option Bundle) (r : ClosedRun) (bundle : Bundle)
      → (place_wave same_job found r bundle).0 ≡ ok tt
      → get (place_wave same_job found r bundle).1.waves bundle.wave.wave_id ≡ some bundle
  unfolding place_wave
  place_wave-stores (some c) r bundle h = cc
  place_wave-stores none r bundle h = ground (
    arith,
    get-put r.waves bundle.wave.wave_id bundle.wave.wave_id bundle,
    eq_iff bundle.wave.wave_id bundle.wave.wave_id,
  )

  -- The run's directory after the wave is placed.
  module _ (registry : Registry) (bundle : Bundle) where
    abbrev placed : ClosedRun → Outcome (Unit {0}) × ClosedRun
    placed r = place_wave same_job (get r.waves bundle.wave.wave_id) r bundle

    abbrev job_placed : Outcome ClosedRun
    job_placed =
        place_job same_job (run_at registry bundle.job.logical_run_id).job_file
          (run_at registry bundle.job.logical_run_id) bundle.job

    locked_ok :
        (r : ClosedRun)
        → job_placed ≡ ok r
        → register_locked same_job registry bundle
          ≡ ((placed r).0, put registry bundle.job.logical_run_id (placed r).1)
    unfolding register_locked
    locked_ok r h = rw (h, register_locked)

    locked_raise :
        (e : Error)
        → job_placed ≡ raise e
        → register_locked same_job registry bundle ≡ (raise e, registry)
    unfolding register_locked
    locked_raise e h = rw (h, register_locked)

    locked-keeps :
        (j i : String) (b : Bundle)
        → bundle_at registry j i ≡ some b
        → bundle_at (register_locked same_job registry bundle).1 j i ≡ some b
    locked-keeps j i b h = elim (Outcome-cases job_placed) [
      | inr (err, e) ↦ rw (locked_raise err e) h
      | inl (r, e) ↦ rw (locked_ok r e) (
          rw (run_at-put registry bundle.job.logical_run_id j (placed r).1)
            (elim (Bool-cases (bundle.job.logical_run_id == j)) [
              | inr other ↦ rw other h
              | inl same ↦
                  let here = (eq_iff bundle.job.logical_run_id j).0 same in
                  let before =
                    ap (λ ws. get ws i) (place_job-waves _ _ r bundle.job e)
                    ∙ (ap (λ k. bundle_at registry k i) here ∙ h) in
                  rw same
                    (place_wave-keeps (get r.waves bundle.wave.wave_id) r bundle i b refl before)
            ]))
    ]

    locked-stores :
        (register_locked same_job registry bundle).0 ≡ ok tt
        → bundle_at
            (register_locked same_job registry bundle).1
            bundle.job.logical_run_id
            bundle.wave.wave_id
          ≡ some bundle
    locked-stores h = elim (Outcome-cases job_placed) [
      | inr (err, e) ↦ let wrong = ap (λ o. o.0) (sym (locked_raise err e)) ∙ h in cc
      | inl (r, e) ↦
          let wrote = ap (λ o. o.0) (sym (locked_ok r e)) ∙ h in
          rw (locked_ok r e) (
            rw
              (run_at-put registry bundle.job.logical_run_id bundle.job.logical_run_id (placed r).1)
              (rw ((eq_iff bundle.job.logical_run_id bundle.job.logical_run_id).1 refl)
                (place_wave-stores (get r.waves bundle.wave.wave_id) r bundle wrote)))
    ]

  module _ (registry : Registry) (job : JobSpec) (wave : WaveSpec) (shards : List ShardSpec) where
    abbrev bundle_of : Bundle
    bundle_of = record { job = job; wave = wave; shards = shards }

    register_ok :
        register_checks job wave shards ≡ ok tt
        → register_closed_wave same_job registry job wave shards
          ≡ register_locked same_job registry bundle_of
    unfolding register_closed_wave
    register_ok h = rw (h, register_closed_wave)

    register_raise :
        (e : Error)
        → register_checks job wave shards ≡ raise e
        → register_closed_wave same_job registry job wave shards ≡ (raise e, registry)
    unfolding register_closed_wave
    register_raise e h = rw (h, register_closed_wave)

    -- A wave's file that is there stays as it is whatever is registered, whether that returns or
    -- raises.
    register_closed_wave-keeps :
        (j i : String) (b : Bundle)
        → bundle_at registry j i ≡ some b
        → bundle_at (register_closed_wave same_job registry job wave shards).1 j i ≡ some b
    register_closed_wave-keeps j i b h = elim (Outcome-cases (register_checks job wave shards)) [
      | inl (tt, e) ↦ rw (register_ok e) (locked-keeps registry bundle_of j i b h)
      | inr (err, e) ↦ rw (register_raise err e) h
    ]

    stores :
        (register_closed_wave same_job registry job wave shards).0 ≡ ok tt
        → bundle_at
            (register_closed_wave same_job registry job wave shards).1
            job.logical_run_id
            wave.wave_id
          ≡ some bundle_of
    stores h = elim (Outcome-cases (register_checks job wave shards)) [
      | inl (tt, e) ↦
          rw (register_ok e)
            (locked-stores registry bundle_of (ap (λ o. o.0) (sym (register_ok e)) ∙ h))
      | inr (err, e) ↦ let wrong = ap (λ o. o.0) (sym (register_raise err e)) ∙ h in cc
    ]

    -- After a registration that returns, under identifiers that pass their checks, `resolve_wave`
    -- returns the job, the wave and the shards registered.
    pub register_closed_wave-resolves :
        (register_closed_wave same_job registry job wave shards).0 ≡ ok tt
        → safe_file_component job.logical_run_id ≡ ok job.logical_run_id
        → safe_file_component wave.wave_id ≡ ok wave.wave_id
        → resolve_wave
            (register_closed_wave same_job registry job wave shards).1
            job.logical_run_id
            wave.wave_id
          ≡ ok bundle_of
    unfolding resolve_wave
    register_closed_wave-resolves h run wave_named = rw (run, wave_named, stores h, resolve_wave)
