-- ===== src/Tests/Registrations.antt =====
-- The theorems on the registration of one request, which asks to sort a table.
use portable_batch_execution.A1Controller.{ControllerRoot}
use portable_batch_execution.Base.{
  lock_timeout, if◌then◌else◌, ◌∙◌, true, value_error, sym, >>=-returns, ok-injective, [], raise,
  ok, ◌∷◌, ◌≡◌, none, subst, some, refl,
}
use portable_batch_execution.Base.Exec.{reading, done, and_then}
use portable_batch_execution.Base.Sorting.{sorted}
use portable_batch_execution.Broker.Planning.{
  text_take, opaque_wave_id, opaque_run_id, canonical_operation_params, broker_shard_input_digest,
  broker_execution_fingerprint, Asked,
}
use portable_batch_execution.Broker.Register.{
  Surroundings, pack_of, new_bundle, found_wave, new_shard, new_wave, initial_manifest, asked_of,
  Registration, Parts, RegisteredRun, new_job,
}
use portable_batch_execution.Broker.Register.Again.{asks_the_same, register-again}
use portable_batch_execution.Broker.Register.Call.{
  register_unless, register_raced, register_parts, register_new, look_up, in_registry, in_plane,
  in_artifacts, await_lock, register_broker_private_run,
}
use portable_batch_execution.Broker.Register.Checked.{IsChecked, register-IsChecked}
use portable_batch_execution.Broker.Register.Existing.{KeepsWaves}
use portable_batch_execution.Broker.Register.Registered.{register-conflict, IsRegistered}
use portable_batch_execution.Broker.Register.Returns.{IsFiled, register-IsRegistered, IsNamed}
use portable_batch_execution.Broker.StaticInputs.{validate_static_input_refs}
use portable_batch_execution.Contracts.Artifact.{ArtifactRef}
use portable_batch_execution.Contracts.Job.{job_closed, dict, closed_brace, tabular_batch}
use portable_batch_execution.Contracts.Shard.{validate_wave, validate_shard}
use portable_batch_execution.DataPlane.Artifacts.{write, validate_local_refs}
use portable_batch_execution.DataPlane.Manifests.{write_next_manifest}
use portable_batch_execution.Lifecycle.Deletion.{same_param}
use portable_batch_execution.Names.{is_safe_component, safe_file_component}
use portable_batch_execution.Registry.{register_closed_wave, run_at, resolve_wave}
use portable_batch_execution.Tests.{noon, hex_digits}
use portable_batch_execution.Tests.Brokering.{
  runtime, around, models, no_controller, uri_of, other_digits,
}

-- The request's run as it is registered at noon.
abbrev registration : Registration
registration = record {
  request_id = "request";
  pack = "tabular-batch";
  operation = "tabular.sort";
  operation_params = closed_brace;
  input_bytes = 1 ∷ 2 ∷ 3 ∷ [];
  input_media_type = "text/csv";
  public_sha = "sha";
  static_input_refs = [];
  model_delivery = none;
}

abbrev asked : Asked
asked = record {
  request_id = "request";
  input_digest = hex_digits;
  pack = "tabular-batch";
  operation = "tabular.sort";
  operation_params = closed_brace;
  execution_fingerprint = hex_digits;
  static_input_refs = [];
}

abbrev pub input_ref : ArtifactRef
input_ref = record {
  object_id = hex_digits;
  uri = uri_of hex_digits;
  sha256 = "sha256:0123456789abcdef0123456789abcdef0123456789abcdef0123456789abcdef";
  media_type = some "text/csv";
  size_bytes = some 3;
}

abbrev pub parts : Parts
parts = record {
  job = new_job runtime asked registration tabular_batch input_ref noon;
  wave = new_wave runtime asked;
  shard = new_shard runtime asked input_ref;
}

abbrev pub registered_run : RegisteredRun
registered_run = record {
  parts = parts;
  manifest = initial_manifest runtime parts.job parts.wave parts.shard;
}

abbrev pub registered : ControllerRoot
registered = (register_broker_private_run runtime models around registration no_controller).1

registers :
    register_broker_private_run runtime models around registration no_controller
    ≡ (ok registered_run, registered)
unfolding and_then asked_of await_lock broker_execution_fingerprint broker_shard_input_digest
    canonical_operation_params done found_wave in_artifacts in_plane in_registry initial_manifest
    is_safe_component job_closed look_up new_bundle new_job new_shard new_wave opaque_run_id
    opaque_wave_id pack_of reading register_broker_private_run register_closed_wave register_new
    register_parts register_raced register_unless resolve_wave sorted text_take validate_local_refs
    validate_shard validate_static_input_refs validate_wave write write_next_manifest
registers = refl

register-IsChecked_example : IsChecked registered_run.parts
register-IsChecked_example =
    register-IsChecked runtime models around registration no_controller registered registered_run
      registers

asks_asked : asked_of runtime models registration ≡ ok asked
unfolding asked_of canonical_operation_params broker_shard_input_digest broker_execution_fingerprint
asks_asked = refl

request-IsNamed : IsNamed runtime "request"
unfolding safe_file_component is_safe_component opaque_run_id text_take opaque_wave_id
request-IsNamed = record { run_named = refl; wave_named = refl }

nothing-IsFiled : IsFiled []
unfolding resolve_wave run_at
nothing-IsFiled run_id wave_id b h =
    let (i, named, h1) = >>=-returns (safe_file_component run_id) _ h in
    let (j, wave_named, h2) = >>=-returns (safe_file_component wave_id) _ h1 in cc

around-KeepsWaves : KeepsWaves around.others
around-KeepsWaves = record { keeps = λ root run_id wave_id b h. h }

plain :
    (a : Asked)
    → asked_of runtime models registration ≡ ok a
    → same_param (dict a.operation_params) (dict a.operation_params) ≡ true
unfolding same_param
plain a h =
    subst (λ x. same_param (dict x.operation_params) (dict x.operation_params) ≡ true)
      (ok-injective asked a (sym asks_asked ∙ h)) refl

register-IsRegistered_example :
    (a : Asked) × (asked_of runtime models registration ≡ ok a)
    × IsRegistered runtime registered a registered_run
register-IsRegistered_example =
    register-IsRegistered runtime models around registration around-KeepsWaves no_controller
      registered registered_run nothing-IsFiled nothing-IsFiled request-IsNamed plain registers

registered-IsRegistered : IsRegistered runtime registered asked registered_run
registered-IsRegistered =
    let (a, asks, there) =
      register-IsRegistered runtime models around registration around-KeepsWaves no_controller
        registered registered_run nothing-IsFiled nothing-IsFiled request-IsNamed plain registers in
    subst (λ x. IsRegistered runtime registered x registered_run)
      (ok-injective a asked (sym asks ∙ asks_asked)) there

abbrev other_registration : Registration
other_registration = record registration { input_bytes = b'X' ∷ [] }

abbrev other_asked : Asked
other_asked = record asked { input_digest = other_digits }

asks_other : asked_of runtime models other_registration ≡ ok other_asked
unfolding asked_of canonical_operation_params broker_shard_input_digest broker_execution_fingerprint
asks_other = refl

-- The lock is not free any more.
abbrev locked : Surroundings
locked = record around { lock = raise lock_timeout }

register-again_example :
    (register_broker_private_run runtime models locked registration registered
      ≡ (ok registered_run, registered))
    × (register_broker_private_run runtime models locked other_registration registered ≡ (
      if asks_the_same registered_run.parts other_asked
          then ok registered_run
          else raise (value_error "request_binding_conflict"),
      registered,
    ))
register-again_example =
    register-again runtime models around locked registration other_registration around-KeepsWaves
      no_controller registered registered_run other_asked nothing-IsFiled nothing-IsFiled
      request-IsNamed plain registers asks_other refl

register-conflict_example :
    register_broker_private_run runtime models around other_registration registered
    ≡ (raise (value_error "request_binding_conflict"), registered)
register-conflict_example =
    register-conflict runtime models around other_registration registered asked other_asked
      registered_run asks_other registered-IsRegistered refl refl
