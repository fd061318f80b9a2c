-- ===== src/Broker/Register/Call.antt =====
-- The registration itself: an existing wave is compared and its manifest made up for, a new one is
-- written under the lifecycle lock.
use portable_batch_execution.A1Controller.{ControllerRoot}
use portable_batch_execution.A1Controller.Python.{Runtime}
use portable_batch_execution.Base.{
  [], ◌∷◌, revision_conflict, value_error, raise, none, false, ◌>>=◌, true, some, ok, Option,
  Outcome, String, Bool,
}
use portable_batch_execution.Base.Exec.{reading, fail, done, and_then, Exec}
use portable_batch_execution.Base.Int.{negsuc}
use portable_batch_execution.Broker.Planning.{
  opaque_wave_id, opaque_run_id, validate_registered_wave_binding, Asked, PackModels,
}
use portable_batch_execution.Broker.Register.{
  new_bundle, initial_manifest, asked_of, parts_of, found_wave, RegisteredRun, Registration, Parts,
  Surroundings,
}
use portable_batch_execution.Broker.StaticInputs.{validate_static_input_refs}
use portable_batch_execution.Contracts.Manifest.{RunManifest}
use portable_batch_execution.Contracts.Shard.{ShardSpec}
use portable_batch_execution.DataPlane.Artifacts.{write, validate_local_refs, Artifacts}
use portable_batch_execution.DataPlane.Attempts.{Plane}
use portable_batch_execution.DataPlane.Manifests.{write_next_manifest, read_manifest}
use portable_batch_execution.Registry.{register_closed_wave, resolve_wave, Bundle, Registry}

unfoldable pub in_plane : {A : Type 0} → (Plane → Outcome A × Plane) → Exec ControllerRoot A
in_plane step root = let (out, plane) = step root.plane in (out, record root { plane = plane })

unfoldable pub in_artifacts : {A : Type 0} → (Artifacts → Outcome A × Artifacts) → Exec Plane A
in_artifacts step plane =
    let (out, files) = step plane.artifacts in (out, record plane { artifacts = files })

unfoldable pub in_registry :
    {A : Type 0} → (Registry → Outcome A × Registry) → Exec ControllerRoot A
in_registry step root =
    let (out, registry) = step root.registry in (out, record root { registry = registry })

-- The end of `_repair_manifest`: after a conflict, the manifest that another writer has written.
unfoldable pub published_or_current :
    RunManifest → String → Outcome RunManifest × Plane → Outcome (Option RunManifest) × Plane
published_or_current m run_id (ok written, s) = (ok (some m), s)
published_or_current m run_id (raise (revision_conflict _), s) = (read_manifest s run_id, s)
published_or_current m run_id (raise e, s) = (raise e, s)

-- `with _broker_registration_lock(state_root):`
unfoldable pub await_lock : Surroundings → Exec ControllerRoot (Unit {0})
await_lock around root = (around.lock, around.others root)

abbrev pub lock_unless_held : Surroundings → Bool → Exec ControllerRoot (Unit {0})
lock_unless_held around true = done tt
lock_unless_held around false = await_lock around

module _ (r : Runtime) where
  pub repair_checks : Asked → ShardSpec → ControllerRoot → Outcome (Unit {0})
  repair_checks asked shard root =
      validate_static_input_refs r.host root.plane.artifacts asked.static_input_refs >>= λ _.
      validate_local_refs r.host root.plane.artifacts shard.input_refs

  unfoldable pub publish_or_read : String → RunManifest → Exec ControllerRoot (Option RunManifest)
  publish_or_read run_id m =
      in_plane (λ s. published_or_current m run_id (write_next_manifest r.host s m (negsuc 0)))

  -- `_repair_manifest`
  unfoldable pub repair_manifest :
      Asked → String → ShardSpec → RunManifest → Exec ControllerRoot (Option RunManifest)
  repair_manifest asked run_id shard m =
      and_then (reading (repair_checks asked shard)) λ _. publish_or_read run_id m

  unfoldable pub repaired_run : Parts → Option RunManifest → Exec ControllerRoot RegisteredRun
  repaired_run parts none = fail (value_error "registered run missing manifest")
  repaired_run parts (some m) = done (record { parts = parts; manifest = m })

  -- The rest of `_materialize_existing_registration`, for the manifest that was read.
  unfoldable pub with_manifest :
      Surroundings → Bool → Asked → Parts → Option RunManifest → Exec ControllerRoot RegisteredRun
  with_manifest around held asked parts (some m) = done (record { parts = parts; manifest = m })
  with_manifest around held asked parts none = and_then (lock_unless_held around held) λ _.
      and_then
        (repair_manifest asked (opaque_run_id r asked.request_id) parts.shard
          (initial_manifest r parts.job parts.wave parts.shard))
        λ repaired. repaired_run parts repaired

  -- The comparison of the existing wave with what is asked for.
  unfoldable pub bound_parts : Asked → Bundle → Outcome Parts
  bound_parts asked bundle = parts_of r bundle >>= λ parts.
      validate_registered_wave_binding r asked parts.job parts.shard >>= λ _. ok parts

  -- `_materialize_existing_registration`
  unfoldable pub materialize_existing :
      Surroundings → Bool → Asked → Bundle → Exec ControllerRoot RegisteredRun
  materialize_existing around held asked bundle =
      and_then (reading (λ _. bound_parts asked bundle)) λ parts.
        and_then (reading (λ root. read_manifest root.plane (opaque_run_id r asked.request_id)))
          λ found. with_manifest around held asked parts found

  -- The rest of the registration of a new wave, for the parts of it.
  unfoldable pub register_parts : Parts → Exec ControllerRoot RegisteredRun
  register_parts parts =
      and_then
        (reading λ root. validate_local_refs r.host root.plane.artifacts parts.shard.input_refs)
        λ _.
          and_then
            (in_registry λ registry.
              register_closed_wave r.same_job registry parts.job parts.wave (parts.shard ∷ []))
            λ _.
              and_then
                (in_plane λ s.
                  write_next_manifest r.host s (initial_manifest r parts.job parts.wave parts.shard)
                    (negsuc 0))
                λ _. done (record {
                  parts = parts;
                  manifest = initial_manifest r parts.job parts.wave parts.shard;
                })

  -- The part under the lock, where no other process has registered the wave.
  unfoldable pub register_new :
      Surroundings → Asked → Registration → Exec ControllerRoot RegisteredRun
  register_new around asked q =
      and_then
        (reading
          λ root. validate_static_input_refs r.host root.plane.artifacts asked.static_input_refs)
        λ _.
          and_then
            (in_plane
              (in_artifacts λ files. write r.host files q.input_bytes (some q.input_media_type)))
            λ input_ref.
              and_then (reading λ _. new_bundle r asked q input_ref around.now)
                λ parts. register_parts parts

  -- `registry.resolve_wave(...)` of the request's wave
  unfoldable pub look_up : Asked → ControllerRoot → Outcome (Option Bundle)
  look_up asked root = found_wave (
      resolve_wave root.registry (opaque_run_id r asked.request_id)
        (opaque_wave_id r asked.request_id))

  unfoldable pub register_raced :
      Surroundings → Asked → Registration → Option Bundle → Exec ControllerRoot RegisteredRun
  register_raced around asked q (some raced) = materialize_existing around true asked raced
  register_raced around asked q none = register_new around asked q

  unfoldable pub register_unless :
      Surroundings → Asked → Registration → Option Bundle → Exec ControllerRoot RegisteredRun
  register_unless around asked q (some existing) = materialize_existing around false asked existing
  register_unless around asked q none =
      and_then (await_lock around)
        λ _. and_then (reading (look_up asked)) λ raced. register_raced around asked q raced

  unfoldable pub register_broker_private_run :
      PackModels → Surroundings → Registration → Exec ControllerRoot RegisteredRun
  register_broker_private_run models around q = and_then (reading λ _. asked_of r models q) λ asked.
      and_then (reading (look_up asked)) λ existing. register_unless around asked q existing
