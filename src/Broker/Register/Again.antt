-- ===== src/Broker/Register/Again.antt =====
-- A request that is registered, and then asked for again.
use portable_batch_execution.A1Controller.{ControllerRoot}
use portable_batch_execution.A1Controller.Python.{Runtime}
use portable_batch_execution.Base.{
  ◌||◌, ◌∷◌, subst, sym, ap, ◌∙◌, >>=-returns, ◌>>=◌, raise_if, true, false, ◌&&◌, not, Bool,
  Bool-cases, inl, inr, Error, arith, value_error, raise, some, ok-injective, ◌==◌, ok, ◌≡◌, refl,
  if◌then◌else◌, eq_iff,
}
use portable_batch_execution.Broker.Planning.{
  refs_differ, fingerprint_differs, input_differs, params_differ, operation_differs,
  binding_conflict, job_differs, opaque_run_id, opaque_wave_id, broker_job_id, pack_name,
  validate_registered_wave_binding, Asked, PackModels,
}
use portable_batch_execution.Broker.Register.{
  Parts, asked_of, parts_of, Registration, RegisteredRun, Surroundings,
}
use portable_batch_execution.Broker.Register.Call.{bound_parts, register_broker_private_run}
use portable_batch_execution.Broker.Register.Existing.{KeepsWaves}
use portable_batch_execution.Broker.Register.Fresh.{asked-of_request}
use portable_batch_execution.Broker.Register.Registered.{
  IsRegistered, registered-refuses, registered-returns,
}
use portable_batch_execution.Broker.Register.Returns.{IsFiled, IsNamed, register-IsRegistered}
use portable_batch_execution.Contracts.Job.{dict}
use portable_batch_execution.DataPlane.Attempts.{refs_eq}
use portable_batch_execution.DataPlane.Manifests.{read_manifest}
use portable_batch_execution.Lifecycle.Deletion.{same_param}
use portable_batch_execution.Registry.{Bundle, resolve_wave}

-- The request asks for the pack, the operation, the parameters, the input, the fingerprint and the
-- static inputs that the job and its shard have.
abbrev pub asks_the_same : Parts → Asked → Bool
asks_the_same parts asked =
    (pack_name parts.job.pack == asked.pack)
    && (parts.job.operation == asked.operation)
    && same_param (dict parts.job.operation_params) (dict asked.operation_params)
    && (parts.shard.input_digest == asked.input_digest)
    && (parts.shard.execution_fingerprint == asked.execution_fingerprint)
    && refs_eq parts.shard.input_refs (parts.job.input_manifest_ref ∷ asked.static_input_refs)

guards :
    (job operation params input fingerprint refs : Bool) (e : Error)
    → (raise_if job e >>= λ _. raise_if operation e >>= λ _. raise_if params e >>= λ _.
        raise_if input e >>= λ _. raise_if fingerprint e >>= λ _. raise_if refs e)
      ≡ (if job || operation || params || input || fingerprint || refs then raise e else ok tt)
guards true operation params input fingerprint refs e = refl
guards false true params input fingerprint refs e = refl
guards false false true input fingerprint refs e = refl
guards false false false true fingerprint refs e = refl
guards false false false false true refs e = refl
guards false false false false false true e = refl
guards false false false false false false e = refl

module _ (r : Runtime) (parts : Parts) where
  binding-conflict :
      (asked : Asked)
      → validate_registered_wave_binding r asked parts.job parts.shard ≡ (
          if job_differs r asked parts.job parts.shard
            || operation_differs r asked parts.job parts.shard
            || params_differ r asked parts.job parts.shard
            || input_differs r asked parts.job parts.shard
            || fingerprint_differs r asked parts.job parts.shard
            || refs_differ r asked parts.job parts.shard
          then raise (value_error "request_binding_conflict")
          else ok tt)
  unfolding validate_registered_wave_binding
  binding-conflict asked =
      guards (job_differs r asked parts.job parts.shard)
        (operation_differs r asked parts.job parts.shard)
        (params_differ r asked parts.job parts.shard) (input_differs r asked parts.job parts.shard)
        (fingerprint_differs r asked parts.job parts.shard)
        (refs_differ r asked parts.job parts.shard) binding_conflict

  -- A job of one request is the job of another that has its identifier and its fingerprint.
  same_job_differs :
      (first asked : Asked)
      → first.request_id ≡ asked.request_id
      → job_differs r first parts.job parts.shard ≡ false
      → fingerprint_differs r first parts.job parts.shard ≡ false
      → fingerprint_differs r asked parts.job parts.shard ≡ false
      → job_differs r asked parts.job parts.shard ≡ false
  same_job_differs first asked same_id of_job of_first of_asked =
      let fingerprint : first.execution_fingerprint ≡ asked.execution_fingerprint = ground (
        arith,
        of_first,
        of_asked,
        eq_iff parts.shard.execution_fingerprint first.execution_fingerprint,
        eq_iff parts.shard.execution_fingerprint asked.execution_fingerprint,
      ) in
      subst (λ k. not (parts.job.job_id == broker_job_id r asked.request_id k) ≡ false) fingerprint
        (subst
          (λ i. not (parts.job.job_id == broker_job_id r i first.execution_fingerprint) ≡ false)
          same_id of_job)

  -- What is bound once is bound to who asks for the same, and to no other.
  binding-again :
      (first asked : Asked)
      → first.request_id ≡ asked.request_id
      → validate_registered_wave_binding r first parts.job parts.shard ≡ ok tt
      → validate_registered_wave_binding r asked parts.job parts.shard ≡ (
          if asks_the_same parts asked
          then ok tt
          else raise (value_error "request_binding_conflict"))
  binding-again first asked same_id bound =
      let h = sym (binding-conflict first) ∙ bound in
      let of_job : job_differs r first parts.job parts.shard ≡ false = ground (arith, h) in
      let of_first : fingerprint_differs r first parts.job parts.shard ≡ false =
        ground (arith, h) in
      elim (Bool-cases (fingerprint_differs r asked parts.job parts.shard)) [
        | inl other ↦ binding-conflict asked ∙ ground (arith, other)
        | inr of_asked ↦
            let same_job = same_job_differs first asked same_id of_job of_first of_asked in
            binding-conflict asked ∙ ground (arith, of_asked, same_job)
      ]

  bound_parts-again :
      (first asked : Asked) (bundle : Bundle)
      → first.request_id ≡ asked.request_id
      → bound_parts r first bundle ≡ ok parts
      → bound_parts r asked bundle ≡ (
          if asks_the_same parts asked
          then ok parts
          else raise (value_error "request_binding_conflict"))
  unfolding bound_parts
  bound_parts-again first asked bundle same_id bound =
      let (found, those, more) = >>=-returns (parts_of r bundle) _ bound in
      let (u, valid, same) =
        >>=-returns (validate_registered_wave_binding r first found.job found.shard) _ more in
      let these : found ≡ parts = ok-injective found parts same in
      let again =
        binding-again first asked same_id (
          subst (λ x. validate_registered_wave_binding r first x.job x.shard ≡ ok tt) these
            valid) in
      let whole : bound_parts r asked bundle
          ≡ (validate_registered_wave_binding r asked parts.job parts.shard >>= λ _. ok parts) =
        rw (those ∙ ap ok these, bound_parts) refl in
      whole ∙ elim (Bool-cases (asks_the_same parts asked)) [
        | inl e ↦ rw (again, e) refl
        | inr e ↦ rw (again, e) refl
      ]

module _ (r : Runtime) (models : PackModels) (around later : Surroundings) (q other : Registration)
    (keeping : KeepsWaves around.others) where
  -- Under the conditions of a first registration, which returns (waves filed under their runs, others
  -- who keep the registered waves, identifiers that are names of files, and canonical parameters that
  -- equal themselves): whatever others do later and however the lock is, the same request returns the
  -- same job, wave, shard and manifest. Any request under the identifier does so just if it asks for
  -- the pack, operation, parameters, input, fingerprint and static inputs that are registered, and
  -- else raises the conflict of bindings. Neither changes anything.
  pub register-again :
      (root after : ControllerRoot) (run : RegisteredRun) (asked : Asked)
      → IsFiled root.registry
      → IsFiled (around.others root).registry
      → IsNamed r q.request_id
      → ((first : Asked)
          → asked_of r models q ≡ ok first
          → same_param (dict first.operation_params) (dict first.operation_params) ≡ true)
      → register_broker_private_run r models around q root ≡ (ok run, after)
      → asked_of r models other ≡ ok asked
      → other.request_id ≡ q.request_id
      → (register_broker_private_run r models later q after ≡ (ok run, after))
        × (register_broker_private_run r models later other after ≡ (
          if asks_the_same run.parts asked
              then ok run
              else raise (value_error "request_binding_conflict"),
          after,
        ))
  register-again root after run asked filed filed_then named reflexive h asks same_id =
      let (first, asks_first, there) =
        register-IsRegistered r models around q keeping root after run filed filed_then named
          reflexive h in
      let same : first.request_id ≡ asked.request_id =
        (asked-of_request r models q first asks_first).0
        ∙ sym same_id
        ∙ sym (asked-of_request r models other asked asks).0 in
      let again = bound_parts-again r run.parts first asked there.bundle same there.bound in
      (
        registered-returns r models later q after first run asks_first there,
        elim (Bool-cases (asks_the_same run.parts asked)) [
          | inl e ↦
              let there' : IsRegistered r after asked run = record {
                bundle = there.bundle;
                resolved =
                    subst
                      (λ i.
                        resolve_wave after.registry (opaque_run_id r i) (opaque_wave_id r i)
                        ≡ ok there.bundle)
                      same there.resolved;
                bound = again ∙ rw e refl;
                current =
                    subst
                      (λ i. read_manifest after.plane (opaque_run_id r i) ≡ ok (some run.manifest))
                      same there.current;
              } in
              rw e (registered-returns r models later other after asked run asks there')
          | inr e ↦ rw e (
              registered-refuses r models later other after first asked run there asks same
                (again ∙ rw e refl))
        ],
      )
