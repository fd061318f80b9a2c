-- ===== src/Broker/Register/Returns.antt =====
-- What a registration that returns leaves behind.
use portable_batch_execution.A1Controller.{ControllerRoot}
use portable_batch_execution.A1Controller.Python.{Runtime}
use portable_batch_execution.Base.{
  backend_transport_error, backend_api_error, lock_error, lock_timeout, index_error, none,
  file_not_found, false, overflow_error, Option, attribute_error, ok-injective, type_error,
  revision_conflict, true, runtime_error, value_error, Bool, key_error, >>=-returns, raise, Outcome,
  sym, some, ◌∙◌, subst, ap, [], ◌∷◌, ok, ◌≡◌, String,
}
use portable_batch_execution.Base.Exec.{done-returns, and_then-returns, read_then-returns}
use portable_batch_execution.Base.Int.{negsuc}
use portable_batch_execution.Broker.Planning.{
  validate_registered_wave_binding, PackModels, opaque_wave_id, opaque_run_id, Asked,
}
use portable_batch_execution.Broker.Register.{
  new_bundle, first_shard, asked_of, Parts, Surroundings, parts_of, found_wave, RegisteredRun,
  initial_manifest, new_wave, new_job, Registration,
}
use portable_batch_execution.Broker.Register.Call.{
  in_artifacts, await_lock, register_unless, look_up, register_new, register_raced,
  materialize_existing, register_broker_private_run, bound_parts, in_plane, in_registry,
  register_parts,
}
use portable_batch_execution.Broker.Register.Existing.{
  materialized-IsRegistered, HasWave, KeepsWaves,
}
use portable_batch_execution.Broker.Register.Fresh.{
  pack_of-name, fresh-bound, new_bundle-is, asked-of_request, new_parts, bundle_of,
}
use portable_batch_execution.Broker.Register.Registered.{IsRegistered}
use portable_batch_execution.Broker.StaticInputs.{validate_static_input_refs}
use portable_batch_execution.Contracts.Artifact.{ArtifactRef}
use portable_batch_execution.Contracts.Datetime.{Datetime}
use portable_batch_execution.Contracts.Job.{JobSpec, dict, job_closed, Pack}
use portable_batch_execution.Contracts.Shard.{validate_wave}
use portable_batch_execution.DataPlane.Artifacts.{write, validate_local_refs}
use portable_batch_execution.DataPlane.Manifests.{read_manifest, write_next_manifest}
use portable_batch_execution.DataPlane.Manifests.Writers.{write_next_manifest-reads}
use portable_batch_execution.Lifecycle.Deletion.{same_param}
use portable_batch_execution.Names.{safe_file_component}
use portable_batch_execution.Registry.{Bundle, Registry, resolve_wave, register_closed_wave}
use portable_batch_execution.Registry.Waves.{register_closed_wave-resolves}

-- The request's identifiers are names of files.
pub record IsNamed (r : Runtime) (request_id : String) : Type 0 where
  pub run_named : safe_file_component (opaque_run_id r request_id) ≡ ok (opaque_run_id r request_id)
  pub wave_named :
      safe_file_component (opaque_wave_id r request_id) ≡ ok (opaque_wave_id r request_id)

module _ (r : Runtime) (asked : Asked) (q : Registration) (named : IsNamed r asked.request_id) where
  new_parts-IsRegistered :
      (input_ref : ArtifactRef) (pack : Pack) (now : Datetime) (root after : ControllerRoot)
      (run : RegisteredRun)
      → bound_parts r asked (bundle_of r asked q input_ref pack now)
        ≡ ok (new_parts r asked q input_ref pack now)
      → register_parts r (new_parts r asked q input_ref pack now) root ≡ (ok run, after)
      → IsRegistered r after asked run
  unfolding register_parts in_registry in_plane new_job new_wave initial_manifest
  new_parts-IsRegistered input_ref pack now root after run bound h =
      let parts = new_parts r asked q input_ref pack now in
      let (u, local, h1) =
        read_then-returns (λ s. validate_local_refs r.host s.plane.artifacts parts.shard.input_refs)
          _ root after run h in
      let (u1, s1, registered, h2) =
        and_then-returns
          (in_registry λ registry.
            register_closed_wave r.same_job registry parts.job parts.wave (parts.shard ∷ []))
          _ root after run h1 in
      let first = initial_manifest r parts.job parts.wave parts.shard in
      let (written, s2, wrote, h3) =
        and_then-returns (in_plane λ s. write_next_manifest r.host s first (negsuc 0)) _ s1 after
          run h2 in
      let (same_run, same_root) =
        done-returns (record { parts = parts; manifest = first }) run s2 after h3 in
      let resolves =
        register_closed_wave-resolves r.same_job root.registry parts.job parts.wave
          (parts.shard ∷ []) (ap (λ p. p.0) registered) named.run_named named.wave_named in
      let reads =
        write_next_manifest-reads r.host s1.plane s2.plane first written (negsuc 0)
          (λ i. ((wrote i).0, (wrote i).1.plane)) in
      subst (λ t. IsRegistered r t asked run) same_root
        (subst (λ n. IsRegistered r s2 asked n) same_run
          (record {
            bundle = bundle_of r asked q input_ref pack now;
            resolved =
                subst
                  (λ g.
                    resolve_wave g (opaque_run_id r asked.request_id)
                      (opaque_wave_id r asked.request_id)
                    ≡ ok (bundle_of r asked q input_ref pack now))
                  (ap (λ p. p.1.registry) registered ∙ ap (λ p. p.1.registry) wrote) resolves;
            bound = bound;
            current =
                subst (λ k. read_manifest s2.plane k.logical_run_id ≡ ok (some first)) (sym reads.0)
                  (subst (λ k. read_manifest s2.plane written.logical_run_id ≡ ok (some k))
                    (sym reads.0) reads.3);
          }))

-- A wave is in the directory of its job's run.
abbrev pub IsFiled : Registry → Type 0
IsFiled registry =
    (run_id wave_id : String) (b : Bundle)
    → resolve_wave registry run_id wave_id ≡ ok b
    → b.job.logical_run_id ≡ run_id

found_wave-some :
    (found : Outcome Bundle) (b : Bundle) → found_wave found ≡ ok (some b) → found ≡ ok b
unfolding found_wave
found_wave-some (ok c) b h = cc
found_wave-some (raise (key_error why)) b h = cc
found_wave-some (raise (value_error why)) b h = cc
found_wave-some (raise (runtime_error why)) b h = cc
found_wave-some (raise (revision_conflict why)) b h = cc
found_wave-some (raise type_error) b h = cc
found_wave-some (raise attribute_error) b h = cc
found_wave-some (raise overflow_error) b h = cc
found_wave-some (raise file_not_found) b h = cc
found_wave-some (raise index_error) b h = cc
found_wave-some (raise lock_timeout) b h = cc
found_wave-some (raise lock_error) b h = cc
found_wave-some (raise backend_api_error) b h = cc
found_wave-some (raise backend_transport_error) b h = cc

bound_parts-job :
    (r : Runtime) (asked : Asked) (bundle : Bundle) (parts : Parts)
    → bound_parts r asked bundle ≡ ok parts
    → bundle.job ≡ parts.job
unfolding bound_parts parts_of
bound_parts-job r asked bundle parts h =
    let (found, those, h1) = >>=-returns (parts_of r bundle) _ h in
    let (u, closed, h2) = >>=-returns (job_closed bundle.job) _ those in
    let (wave, valid, h3) = >>=-returns (validate_wave bundle.wave) _ h2 in
    let (shard, first, h4) = >>=-returns (first_shard bundle.shards) _ h3 in
    let (u2, binding, h5) =
      >>=-returns (validate_registered_wave_binding r asked found.job found.shard) _ h1 in
    ap (λ (k : Parts). k.job) (ok-injective _ found h4 ∙ ok-injective found parts h5)

module _ (r : Runtime) (models : PackModels) (around : Surroundings) (q : Registration)
    (polite : KeepsWaves around.others) where
  materialize_existing-IsRegistered :
      (held : Bool) (asked : Asked) (bundle : Bundle) (root after : ControllerRoot)
      (run : RegisteredRun)
      → IsFiled root.registry
      → HasWave r root asked bundle
      → materialize_existing r around held asked bundle root ≡ (ok run, after)
      → IsRegistered r after asked run
  unfolding materialize_existing
  materialize_existing-IsRegistered held asked bundle root after run filed there h =
      let (parts, bound, h1) =
        read_then-returns (λ _. bound_parts r asked bundle) _ root after run h in
      let (found, read, h2) =
        read_then-returns (λ s. read_manifest s.plane (opaque_run_id r asked.request_id)) _ root
          after run h1 in
      materialized-IsRegistered r around polite held asked bundle parts bound
        (sym (ap (λ (j : JobSpec). j.logical_run_id) (bound_parts-job r asked bundle parts bound))
          ∙ filed _ _ bundle there)
        root after run there found read h2

  module _ (asked : Asked) (asks : asked_of r models q ≡ ok asked)
      (named : IsNamed r asked.request_id)
      (reflexive : same_param (dict asked.operation_params) (dict asked.operation_params)
        ≡ true) where
    register_new-IsRegistered :
        (root after : ControllerRoot) (run : RegisteredRun)
        → register_new r around asked q root ≡ (ok run, after)
        → IsRegistered r after asked run
    unfolding register_new
    register_new-IsRegistered root after run h =
        let (u, statics, h1) =
          read_then-returns
            (λ s. validate_static_input_refs r.host s.plane.artifacts asked.static_input_refs) _
            root after run h in
        let (input_ref, s1, wrote, h2) =
          and_then-returns
            (in_plane
              (in_artifacts λ files. write r.host files q.input_bytes (some q.input_media_type)))
            _ root after run h1 in
        let (parts, made, h3) =
          read_then-returns (λ _. new_bundle r asked q input_ref around.now) _ s1 after run h2 in
        let (pack, of_pack, is_new, checked) =
          new_bundle-is r asked q input_ref around.now parts made in
        let (same_id, same_pack, same_operation) = asked-of_request r models q asked asks in
        let bound =
          fresh-bound r asked q input_ref pack around.now parts
            (pack_of-name q.pack pack of_pack ∙ sym same_pack) (sym same_operation) reflexive is_new
            checked in
        new_parts-IsRegistered r asked q named input_ref pack around.now s1 after run
          (subst (λ k. bound_parts r asked (bundle_of r asked q input_ref pack around.now) ≡ ok k)
            is_new bound)
          (subst (λ k. register_parts r k s1 ≡ (ok run, after)) is_new h3)

    raced-IsRegistered :
        (root after : ControllerRoot) (run : RegisteredRun) (raced : Option Bundle)
        → IsFiled root.registry
        → look_up r asked root ≡ ok raced
        → register_raced r around asked q raced root ≡ (ok run, after)
        → IsRegistered r after asked run
    unfolding register_raced look_up
    raced-IsRegistered root after run none filed looked h =
        register_new-IsRegistered root after run h
    raced-IsRegistered root after run (some b) filed looked h =
        materialize_existing-IsRegistered true asked b root after run filed
          (found_wave-some _ b looked) h

    unless-IsRegistered :
        (root after : ControllerRoot) (run : RegisteredRun) (existing : Option Bundle)
        → IsFiled root.registry
        → IsFiled (around.others root).registry
        → look_up r asked root ≡ ok existing
        → register_unless r around asked q existing root ≡ (ok run, after)
        → IsRegistered r after asked run
    unfolding register_unless look_up await_lock
    unless-IsRegistered root after run (some b) filed filed_then looked h =
        materialize_existing-IsRegistered false asked b root after run filed
          (found_wave-some _ b looked) h
    unless-IsRegistered root after run none filed filed_then looked h =
        let (u, s1, waited, h1) = and_then-returns (await_lock around) _ root after run h in
        let (raced, looked_again, h2) = read_then-returns (look_up r asked) _ s1 after run h1 in
        raced-IsRegistered s1 after run raced
          (subst (λ s. IsFiled s.registry) (ap (λ p. p.1) waited) filed_then) looked_again h2

  -- Where waves are filed under their runs and others keep the registered waves, the request's
  -- identifiers are names of files and its canonical parameters equal themselves: after a registration
  -- that returns, the request's wave is in the registry with the returned job, wave and shard, which
  -- are bound to what was asked for, and the returned manifest is the run's current one.
  pub register-IsRegistered :
      (root after : ControllerRoot) (run : RegisteredRun)
      → IsFiled root.registry
      → IsFiled (around.others root).registry
      → IsNamed r q.request_id
      → ((asked : Asked)
          → asked_of r models q ≡ ok asked
          → same_param (dict asked.operation_params) (dict asked.operation_params) ≡ true)
      → register_broker_private_run r models around q root ≡ (ok run, after)
      → (asked : Asked) × (asked_of r models q ≡ ok asked) × IsRegistered r after asked run
  unfolding register_broker_private_run
  register-IsRegistered root after run filed filed_then named reflexive h =
      let (asked, asks, h1) = read_then-returns (λ _. asked_of r models q) _ root after run h in
      let (existing, looked, h2) = read_then-returns (look_up r asked) _ root after run h1 in
      let (same_id, _, _) = asked-of_request r models q asked asks in
      (
        asked,
        asks,
        unless-IsRegistered asked asks (subst (IsNamed r) (sym same_id) named)
            (reflexive asked asks) root after run existing filed filed_then looked h2,
      )
