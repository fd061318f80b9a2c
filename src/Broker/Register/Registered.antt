-- ===== src/Broker/Register/Registered.antt =====
-- A request's run once it is registered, and what a later registration of the request does.
use portable_batch_execution.A1Controller.{ControllerRoot}
use portable_batch_execution.A1Controller.Python.{Runtime}
use portable_batch_execution.Base.{
  subst, inl, eq_iff, inr, ◌>>=◌, raise_if, true, >>=-returns, ◌⊎◌, ◌&&◌, Bool, Error, Outcome, not,
  arith, value_error, raise, some, false, ◌==◌, ok, ◌≡◌, refl,
}
use portable_batch_execution.Base.Exec.{done, reading, and_then}
use portable_batch_execution.Broker.Planning.{
  refs_differ, fingerprint_differs, input_differs, params_differ, operation_differs,
  binding_conflict, job_differs, opaque_wave_id, opaque_run_id, validate_registered_wave_binding,
  Asked, PackModels,
}
use portable_batch_execution.Broker.Register.{
  parts_of, found_wave, Parts, asked_of, Registration, RegisteredRun, Surroundings,
}
use portable_batch_execution.Broker.Register.Call.{
  with_manifest, materialize_existing, register_unless, look_up, register_broker_private_run,
  bound_parts,
}
use portable_batch_execution.Contracts.Job.{JobSpec}
use portable_batch_execution.Contracts.Shard.{ShardSpec}
use portable_batch_execution.DataPlane.Manifests.{read_manifest}
use portable_batch_execution.Registry.{resolve_wave, Bundle}

-- The run is in the registry and has a manifest, and is what was asked for.
pub record IsRegistered (r : Runtime) (root : ControllerRoot) (asked : Asked) (run : RegisteredRun)
    : Type 0 where
  pub bundle : Bundle
  pub resolved :
      resolve_wave root.registry
        (opaque_run_id r asked.request_id)
        (opaque_wave_id r asked.request_id)
      ≡ ok bundle
  pub bound : bound_parts r asked bundle ≡ ok run.parts
  pub current : read_manifest root.plane (opaque_run_id r asked.request_id) ≡ ok (some run.manifest)

>>=-unit :
    (b : Bool) (e : Error) {rest : Outcome (Unit {0})}
    → (raise_if b e >>= λ _. rest) ≡ ok tt
    → (b ≡ false) × (rest ≡ ok tt)
>>=-unit true e h = cc
>>=-unit false e h = (refl, h)

not-false : (b : Bool) → not b ≡ false → b ≡ true
not-false true h = refl
not-false false h = cc

guarded :
    (b : Bool) (e : Error) (rest : Outcome (Unit {0}))
    → (rest ≡ ok tt) ⊎ (rest ≡ raise e)
    → ((raise_if b e >>= λ _. rest) ≡ ok tt) ⊎ ((raise_if b e >>= λ _. rest) ≡ raise e)
guarded true e rest h = inr refl
guarded false e rest h = h

last_guard : (b : Bool) (e : Error) → (raise_if b e ≡ ok tt) ⊎ (raise_if b e ≡ raise e)
last_guard true e = inr refl
last_guard false e = inl refl

module _ (r : Runtime) (asked : Asked) (job : JobSpec) (shard : ShardSpec) where
  -- The comparison returns, or raises the conflict.
  binding-cases :
      (validate_registered_wave_binding r asked job shard ≡ ok tt)
      ⊎ (validate_registered_wave_binding r asked job shard
          ≡ raise (value_error "request_binding_conflict"))
  unfolding validate_registered_wave_binding
  binding-cases = guarded (job_differs r asked job shard) binding_conflict _ (
      guarded (operation_differs r asked job shard) binding_conflict _ (
        guarded (params_differ r asked job shard) binding_conflict _ (
          guarded (input_differs r asked job shard) binding_conflict _ (
            guarded (fingerprint_differs r asked job shard) binding_conflict _
              (last_guard (refs_differ r asked job shard) binding_conflict)))))

  binding-facts :
      validate_registered_wave_binding r asked job shard ≡ ok tt
      → (shard.input_digest ≡ asked.input_digest)
        × (shard.execution_fingerprint ≡ asked.execution_fingerprint)
  unfolding validate_registered_wave_binding
  binding-facts h =
      let (_, h1) = >>=-unit (job_differs r asked job shard) binding_conflict h in
      let (_, h2) = >>=-unit (operation_differs r asked job shard) binding_conflict h1 in
      let (_, h3) = >>=-unit (params_differ r asked job shard) binding_conflict h2 in
      let (digest, h4) = >>=-unit (input_differs r asked job shard) binding_conflict h3 in
      let (fingerprint, _) = >>=-unit (fingerprint_differs r asked job shard) binding_conflict h4 in
      ((eq_iff _ _).0 (not-false _ digest), (eq_iff _ _).0 (not-false _ fingerprint))

module _ (r : Runtime) (first asked : Asked) (bundle : Bundle) (parts : Parts) where
  -- What is bound to one request is not bound to another one.
  unbound :
      bound_parts r first bundle ≡ ok parts
      → ((first.input_digest == asked.input_digest)
          && (first.execution_fingerprint == asked.execution_fingerprint))
        ≡ false
      → bound_parts r asked bundle ≡ raise (value_error "request_binding_conflict")
  unfolding bound_parts
  unbound bound other =
      let (found, those, more) = >>=-returns (parts_of r bundle) _ bound in
      let (u, valid, same) =
        >>=-returns (validate_registered_wave_binding r first found.job found.shard) _ more in
      let facts = binding-facts r first found.job found.shard valid in
      elim (binding-cases r asked found.job found.shard) [
        | inr refused ↦ rw (those, bound_parts, refused) refl
        | inl passed ↦
            let again = binding-facts r asked found.job found.shard passed in
            absurd (
              ground (
                arith,
                other,
                facts.0,
                facts.1,
                again.0,
                again.1,
                eq_iff first.input_digest asked.input_digest,
                eq_iff first.execution_fingerprint asked.execution_fingerprint,
              ))
      ]

module _ (r : Runtime) (models : PackModels) (around : Surroundings) (q : Registration) where
  pub registered-returns :
      (root : ControllerRoot) (asked : Asked) (run : RegisteredRun)
      → asked_of r models q ≡ ok asked
      → IsRegistered r root asked run
      → register_broker_private_run r models around q root ≡ (ok run, root)
  unfolding register_broker_private_run and_then reading look_up found_wave register_unless
      materialize_existing with_manifest done
  registered-returns root asked run asks there =
      rw (asks, register_broker_private_run, there.resolved, look_up, there.bound, there.current)
        refl

  pub registered-refuses :
      (root : ControllerRoot) (first asked : Asked) (run : RegisteredRun)
      (there : IsRegistered r root first run)
      → asked_of r models q ≡ ok asked
      → first.request_id ≡ asked.request_id
      → bound_parts r asked there.bundle ≡ raise (value_error "request_binding_conflict")
      → register_broker_private_run r models around q root
        ≡ (raise (value_error "request_binding_conflict"), root)
  unfolding register_broker_private_run and_then reading look_up found_wave register_unless
      materialize_existing
  registered-refuses root first asked run there asks same refused =
      let there' =
        subst
          (λ i.
            resolve_wave root.registry (opaque_run_id r i) (opaque_wave_id r i) ≡ ok there.bundle)
          same there.resolved in
      rw (asks, register_broker_private_run, there', look_up, refused) refl

  -- A registration under the request's identifier whose input or fingerprint is another raises the
  -- conflict of bindings and changes nothing.
  pub register-conflict :
      (root : ControllerRoot) (first asked : Asked) (run : RegisteredRun)
      → asked_of r models q ≡ ok asked
      → IsRegistered r root first run
      → first.request_id ≡ asked.request_id
      → ((first.input_digest == asked.input_digest)
          && (first.execution_fingerprint == asked.execution_fingerprint))
        ≡ false
      → register_broker_private_run r models around q root
        ≡ (raise (value_error "request_binding_conflict"), root)
  register-conflict root first asked run asks there same other =
      registered-refuses root first asked run there asks same
        (unbound r first asked there.bundle run.parts there.bound other)
