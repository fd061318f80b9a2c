-- ===== src/Broker/Register/Checked.antt =====
-- What `register_broker_private_run` of broker/planning.py returns, and the validators of its models.
use portable_batch_execution.A1Controller.{ControllerRoot}
use portable_batch_execution.A1Controller.Python.{Runtime}
use portable_batch_execution.Base.{
  arith, ok, raise, none, some, [], ◌∷◌, ◌≡◌, subst, ◌∙◌, true, false, ok-injective, >>=-returns,
  Bool, List, Option, Outcome,
}
use portable_batch_execution.Base.Exec.{Exec, reading, and_then}
use portable_batch_execution.Base.Triples.{
  Ends, Triple, done-Triple, fail-Triple, reading-Triple, and_then-Triple, knowing,
}
use portable_batch_execution.Broker.Planning.{Asked, PackModels, validate_registered_wave_binding}
use portable_batch_execution.Broker.Register.{
  first_shard, new_bundle, new_job, new_shard, new_wave, pack_of, parts_of, Parts, RegisteredRun,
  Registration, Surroundings,
}
use portable_batch_execution.Broker.Register.Call.{
  bound_parts, materialize_existing, register_broker_private_run, register_new, register_parts,
  register_raced, register_unless, repaired_run, with_manifest,
}
use portable_batch_execution.Contracts.Artifact.{ArtifactRef}
use portable_batch_execution.Contracts.Datetime.{Datetime}
use portable_batch_execution.Contracts.Job.{job_closed}
use portable_batch_execution.Contracts.Manifest.{RunManifest}
use portable_batch_execution.Contracts.Shard.{ShardSpec, WaveSpec, validate_shard, validate_wave}
use portable_batch_execution.Registry.{Bundle}

-- The job, the wave and the shard pass the validators of their models.
pub record IsChecked (parts : Parts) : Type 0 where
  pub job_passes : job_closed parts.job ≡ ok tt
  pub wave_passes : validate_wave parts.wave ≡ ok parts.wave
  pub shard_passes : validate_shard parts.shard ≡ ok parts.shard

-- A validator returns what it was given.
validate_wave-same : (w w' : WaveSpec) → validate_wave w ≡ ok w' → w ≡ w'
unfolding validate_wave
validate_wave-same w w' h = ground arith

validate_shard-same : (s s' : ShardSpec) → validate_shard s ≡ ok s' → s ≡ s'
unfolding validate_shard
validate_shard-same s s' h = ground arith

wave_again : (w w' : WaveSpec) → validate_wave w ≡ ok w' → validate_wave w' ≡ ok w'
wave_again w w' h = subst (λ x. validate_wave x ≡ ok w') (validate_wave-same w w' h) h

shard_again : (s s' : ShardSpec) → validate_shard s ≡ ok s' → validate_shard s' ≡ ok s'
shard_again s s' h = subst (λ x. validate_shard x ≡ ok s') (validate_shard-same s s' h) h

first_again :
    (ss : List ShardSpec) (s : ShardSpec) → first_shard ss ≡ ok s → validate_shard s ≡ ok s
unfolding first_shard
first_again [] s h = cc
first_again (a ∷ ss) s h = shard_again a s h

module _ (r : Runtime) where
  bound_parts-IsChecked :
      (asked : Asked) (bundle : Bundle) (parts : Parts)
      → bound_parts r asked bundle ≡ ok parts
      → IsChecked parts
  unfolding bound_parts parts_of
  bound_parts-IsChecked asked bundle parts h =
      let (found, h1, h2) = >>=-returns (parts_of r bundle) _ h in
      let (_, _, same) =
        >>=-returns (validate_registered_wave_binding r asked found.job found.shard) _ h2 in
      let (_, job, h3) = >>=-returns (job_closed bundle.job) _ h1 in
      let (wave, of_wave, h4) = >>=-returns (validate_wave bundle.wave) _ h3 in
      let (shard, of_shard, made) = >>=-returns (first_shard bundle.shards) _ h4 in
      subst IsChecked (ok-injective _ found made ∙ ok-injective found parts same) (record {
        job_passes = job;
        wave_passes = wave_again bundle.wave wave of_wave;
        shard_passes = first_again bundle.shards shard of_shard;
      })

  new_bundle-IsChecked :
      (asked : Asked) (q : Registration) (input_ref : ArtifactRef) (now : Datetime) (parts : Parts)
      → new_bundle r asked q input_ref now ≡ ok parts
      → IsChecked parts
  unfolding new_bundle
  new_bundle-IsChecked asked q input_ref now parts h =
      let (pack, _, h1) = >>=-returns (pack_of q.pack) _ h in
      let (_, job, h2) = >>=-returns (job_closed (new_job r asked q pack input_ref now)) _ h1 in
      let (shard, of_shard, h3) = >>=-returns (validate_shard (new_shard r asked input_ref)) _ h2 in
      let (wave, of_wave, made) = >>=-returns (validate_wave (new_wave r asked)) _ h3 in
      subst IsChecked (ok-injective _ parts made) (record {
        job_passes = job;
        wave_passes = wave_again (new_wave r asked) wave of_wave;
        shard_passes = shard_again (new_shard r asked input_ref) shard of_shard;
      })

abbrev Any : ControllerRoot → Type 0
Any root = Unit {0}

abbrev Checked : RegisteredRun → ControllerRoot → Type 0
Checked run root = IsChecked run.parts

-- A registration, of which only what it returns is said.
abbrev Returns : Exec ControllerRoot RegisteredRun → Type 0
Returns m = Triple Any m Checked Any

Any-Ends : {A : Type 0} (o : Outcome A × ControllerRoot) → Ends (λ _. Any) Any o
Any-Ends (ok a, root) = tt
Any-Ends (raise e, root) = tt

after_any :
    {A : Type 0} (first : Exec ControllerRoot A) (rest : A → Exec ControllerRoot RegisteredRun)
    → ((a : A) → Returns (rest a))
    → Returns (and_then first rest)
after_any first rest h =
    and_then-Triple (λ _. Any) Checked first rest
      (record { ends = λ root p. Any-Ends (first root) }) h

after_checks :
    (f : ControllerRoot → Outcome Parts) (rest : Parts → Exec ControllerRoot RegisteredRun)
    → ((root : ControllerRoot) (parts : Parts) → f root ≡ ok parts → IsChecked parts)
    → ((parts : Parts) → IsChecked parts → Returns (rest parts))
    → Returns (and_then (reading f) rest)
after_checks f rest checked h =
    and_then-Triple (λ parts root. IsChecked parts × Any root) Checked (reading f) rest
      (reading-Triple (λ parts root. IsChecked parts × Any root) f
        (λ root parts _ e. (checked root parts e, tt)) (λ root _. tt))
      λ parts. knowing (IsChecked parts) Checked (rest parts) (h parts)

module _ (r : Runtime) where
  repaired_run-Returns :
      (parts : Parts) (found : Option RunManifest)
      → IsChecked parts
      → Returns (repaired_run r parts found)
  unfolding repaired_run
  repaired_run-Returns parts none good = fail-Triple Checked _ λ root _. tt
  repaired_run-Returns parts (some m) good = done-Triple Checked _ λ root _. good

  with_manifest-Returns :
      (around : Surroundings) (held : Bool) (asked : Asked) (parts : Parts)
      (found : Option RunManifest)
      → IsChecked parts
      → Returns (with_manifest r around held asked parts found)
  unfolding with_manifest
  with_manifest-Returns around held asked parts (some m) good = done-Triple Checked _ λ root _. good
  with_manifest-Returns around held asked parts none good =
      after_any _ _ λ _. after_any _ _ λ repaired. repaired_run-Returns parts repaired good

  materialize_existing-Returns :
      (around : Surroundings) (held : Bool) (asked : Asked) (bundle : Bundle)
      → Returns (materialize_existing r around held asked bundle)
  unfolding materialize_existing
  materialize_existing-Returns around held asked bundle =
      after_checks (λ _. bound_parts r asked bundle) _
        (λ root parts. bound_parts-IsChecked r asked bundle parts)
        λ parts good.
          after_any _ _ λ found. with_manifest-Returns around held asked parts found good

  register_parts-Returns : (parts : Parts) → IsChecked parts → Returns (register_parts r parts)
  unfolding register_parts
  register_parts-Returns parts good =
      after_any _ _ λ _. after_any _ _ λ _. after_any _ _ λ _. done-Triple Checked _ λ root _. good

  register_new-Returns :
      (around : Surroundings) (asked : Asked) (q : Registration)
      → Returns (register_new r around asked q)
  unfolding register_new
  register_new-Returns around asked q = after_any _ _ λ _. after_any _ _ λ input_ref.
      after_checks (λ _. new_bundle r asked q input_ref around.now) _
        (λ root parts. new_bundle-IsChecked r asked q input_ref around.now parts)
        register_parts-Returns

  register_raced-Returns :
      (around : Surroundings) (asked : Asked) (q : Registration) (raced : Option Bundle)
      → Returns (register_raced r around asked q raced)
  unfolding register_raced
  register_raced-Returns around asked q none = register_new-Returns around asked q
  register_raced-Returns around asked q (some raced) =
      materialize_existing-Returns around true asked raced

  register_unless-Returns :
      (around : Surroundings) (asked : Asked) (q : Registration) (existing : Option Bundle)
      → Returns (register_unless r around asked q existing)
  unfolding register_unless
  register_unless-Returns around asked q (some existing) =
      materialize_existing-Returns around false asked existing
  register_unless-Returns around asked q none =
      after_any _ _ λ _. after_any _ _ λ raced. register_raced-Returns around asked q raced

  register-Returns :
      (models : PackModels) (around : Surroundings) (q : Registration)
      → Returns (register_broker_private_run r models around q)
  unfolding register_broker_private_run
  register-Returns models around q =
      after_any _ _
        λ asked. after_any _ _ λ existing. register_unless-Returns around asked q existing

-- From any state, whatever its registry holds and whatever others do while the lock is waited for: the
-- job, the wave and the shard that a registration returns pass the validators of their models.
pub register-IsChecked :
    (r : Runtime) (models : PackModels) (around : Surroundings) (q : Registration)
    (root after : ControllerRoot) (run : RegisteredRun)
    → register_broker_private_run r models around q root ≡ (ok run, after)
    → IsChecked run.parts
register-IsChecked r models around q root after run h =
    subst (Ends Checked Any) h ((register-Returns r models around q).ends root tt)
