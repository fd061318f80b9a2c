-- ===== src/A1Controller/Durable.antt =====
-- The histories that `read_wave_dispatch_history` reads before and after `dispatch_private_wave`.
use portable_batch_execution.A1Controller.{
  dispatch_private_wave, wave_history, record_dispatch, with_waves, dispatch_content,
  ControllerRoot, write_dispatch_state, Backend, read_wave_dispatch_history, read_dispatch_state,
  prepared_dispatch,
}
use portable_batch_execution.A1Controller.Dispatches.{record_dispatch-Recorded, Recorded}
use portable_batch_execution.A1Controller.History.{
  dispatch_record, DispatchRecord, BackendExecutionRef,
}
use portable_batch_execution.A1Controller.Python.{IsRuntime, Runtime}
use portable_batch_execution.Base.{
  ap, raise, Outcome, inl, arith, inr, Outcome-cases, true, truthy, if◌then◌else◌, ◌∙◌, none, false,
  [], ◌∷◌, ◌++◌, ok-injective, value_error, ◌⊎◌, sym, ◌||◌, subst, List, ◌==◌, not, raise_if,
  eq_refl, some, ◌>>=◌, >>=-returns, ok, ◌≡◌, Option, String, refl,
}
use portable_batch_execution.Base.Dict.{get, get-put}
use portable_batch_execution.Contracts.Job.{Fields, Param}
use portable_batch_execution.Contracts.Shard.{WaveSpec, validate_wave}
use portable_batch_execution.DataPlane.Manifests.Checks.{safe_file_component_same}
use portable_batch_execution.Lifecycle.Root.{holding}
use portable_batch_execution.Names.{safe_file_component}
use portable_batch_execution.Registry.{resolve_wave}

record_of_prepared :
    (str : Param → String) (backend : Option Backend) (root : ControllerRoot)
    (run_id wave_id : String) (e : BackendExecutionRef) (next : Fields)
    → prepared_dispatch str backend root run_id wave_id ≡ ok (e, next)
    → (state : Fields) × (read_dispatch_state root run_id ≡ ok state)
      × (record_dispatch str state wave_id e ≡ ok next)
unfolding prepared_dispatch
record_of_prepared str none root run_id wave_id e next h = cc
record_of_prepared str (some backend) root run_id wave_id e next h =
    let (bundle, resolved, h1) = >>=-returns (resolve_wave root.registry run_id wave_id) _ h in
    let (wave, valid, h2) = >>=-returns (validate_wave bundle.wave) _ h1 in
    let (u, guarded, h3) =
      >>=-returns
        (raise_if (not (wave.logical_run_id == run_id) || not (wave.wave_id == wave_id))
          (value_error "resolved wave does not match dispatch request"))
        _ h2 in
    let (execution, submitted, h4) = >>=-returns (backend.submit_wave wave) _ h3 in
    let (state, reading, h5) = >>=-returns (read_dispatch_state root run_id) _ h4 in
    let (written, recorded, last) =
      >>=-returns (record_dispatch str state wave_id execution) _ h5 in
    let same : (execution, written) ≡ (e, next) =
      ok-injective (execution, written) (e, next) last in
    (state, reading, subst (λ p. record_dispatch str state wave_id p.0 ≡ ok p.1) same recorded)

-- What a dispatch returns has been submitted to the backend.
pub submitted_of_prepared :
    (str : Param → String) (backend : Option Backend) (root : ControllerRoot)
    (run_id wave_id : String) (e : BackendExecutionRef) (next : Fields)
    → prepared_dispatch str backend root run_id wave_id ≡ ok (e, next)
    → (b : Backend) × (wave : WaveSpec) × (backend ≡ some b) × (b.submit_wave wave ≡ ok e)
unfolding prepared_dispatch
submitted_of_prepared str none root run_id wave_id e next h = cc
submitted_of_prepared str (some backend) root run_id wave_id e next h =
    let (bundle, resolved, h1) = >>=-returns (resolve_wave root.registry run_id wave_id) _ h in
    let (wave, valid, h2) = >>=-returns (validate_wave bundle.wave) _ h1 in
    let (u, guarded, h3) =
      >>=-returns
        (raise_if (not (wave.logical_run_id == run_id) || not (wave.wave_id == wave_id))
          (value_error "resolved wave does not match dispatch request"))
        _ h2 in
    let (execution, submitted, h4) = >>=-returns (backend.submit_wave wave) _ h3 in
    let (state, reading, h5) = >>=-returns (read_dispatch_state root run_id) _ h4 in
    let (written, recorded, last) =
      >>=-returns (record_dispatch str state wave_id execution) _ h5 in
    (
      backend,
      wave,
      refl,
      submitted ∙ ap (λ (o : Outcome (BackendExecutionRef × Fields)). first_of o execution) last,
    )
  where
    first_of :
        Outcome (BackendExecutionRef × Fields) → BackendExecutionRef → Outcome BackendExecutionRef
    first_of (ok (x, y)) z = ok x
    first_of (raise x) z = ok z

module _ (str : Param → String) where
  read_history-of_state :
      (root : ControllerRoot) (run_id wave_id : String) (state : Fields)
      → safe_file_component run_id ≡ ok run_id
      → read_dispatch_state root run_id ≡ ok state
      → read_wave_dispatch_history str root run_id wave_id
        ≡ (safe_file_component wave_id >>= λ _. wave_history str wave_id state)
  unfolding read_wave_dispatch_history
  read_history-of_state root run_id wave_id state named reading = rw (named, reading) refl

  safe_of_state :
      (root : ControllerRoot) (run_id : String) (state : Fields)
      → read_dispatch_state root run_id ≡ ok state
      → safe_file_component run_id ≡ ok run_id
  unfolding read_dispatch_state
  safe_of_state root run_id state h =
      let (s, named, _) = >>=-returns (safe_file_component run_id) _ h in
      subst (λ t. safe_file_component run_id ≡ ok t) (sym (safe_file_component_same run_id s named))
        named

  written_state :
      (root : ControllerRoot) (run_id : String) (next : Fields)
      → safe_file_component run_id ≡ ok run_id
      → read_dispatch_state (write_dispatch_state root run_id next) run_id ≡ ok (with_waves next)
  unfolding read_dispatch_state write_dispatch_state dispatch_content
  written_state root run_id next named =
      rw
        (
          named,
          get-put root.dispatch run_id run_id (holding next),
          eq_refl run_id,
          dispatch_content,
        )
        refl

-- What a dispatch leaves behind: `merged` is the wave's history then.
pub record IsDurable (str : Param → String) (root after : ControllerRoot) (run_id wave_id : String)
    (e : BackendExecutionRef) (before : List DispatchRecord) : Type 0 where
  pub merged : List DispatchRecord
  pub grows : (merged ≡ before) ⊎ (merged ≡ before ++ dispatch_record e ∷ [])
  pub read_back : read_wave_dispatch_history str after run_id wave_id ≡ ok merged
  pub other_waves :
      (j : String)
      → (wave_id == j) ≡ false
      → read_wave_dispatch_history str after run_id j ≡ read_wave_dispatch_history str root run_id j
  pub other_runs : (k : String) → (run_id == k) ≡ false → get after.dispatch k ≡ get root.dispatch k
  pub same_plane : after.plane ≡ root.plane
  pub same_registry : after.registry ≡ root.registry

module _ (r : Runtime) (laws : IsRuntime r) where
  module _ (root : ControllerRoot) (run_id wave_id : String) (e : BackendExecutionRef)
      (before : List DispatchRecord) (state next : Fields)
      (reading : read_dispatch_state root run_id ≡ ok state)
      (known : read_wave_dispatch_history r.str root run_id wave_id ≡ ok before)
      (w : Recorded r.str state next wave_id e before) where
    written_history_of :
        (j : String)
        → read_wave_dispatch_history r.str (write_dispatch_state root run_id next) run_id j ≡ (
            safe_file_component j >>= λ _.
            (if wave_id == j then ok w.merged else wave_history r.str j state))
    written_history_of j =
        let named = safe_of_state r.str root run_id state reading in
        read_history-of_state r.str (write_dispatch_state root run_id next) run_id j
          (with_waves next) named (written_state r.str root run_id next named)
        ∙ rw (w.reads j) refl

    written-IsDurable :
        IsDurable r.str root (write_dispatch_state root run_id next) run_id wave_id e before
    unfolding write_dispatch_state
    written-IsDurable =
        let named = safe_of_state r.str root run_id state reading in
        let known' =
          sym (read_history-of_state r.str root run_id wave_id state named reading) ∙ known in
        let (s, safe, _) = >>=-returns (safe_file_component wave_id) _ known' in
        record {
          merged = w.merged;
          grows = w.grows;
          read_back = written_history_of wave_id ∙ rw (safe, eq_refl wave_id) refl;
          other_waves = λ j other.
              written_history_of j
              ∙ rw other (sym (read_history-of_state r.str root run_id j state named reading));
          other_runs = λ k other. rw (get-put root.dispatch run_id k (holding next), other) refl;
          same_plane = refl;
          same_registry = refl;
        }

  -- Given a backend's execution with a name, after a dispatch that returns it, the wave's history is
  -- what it was, or that with the execution at its end; the histories of the run's other waves, the
  -- files of other runs, the data plane and the registry are as they were.
  pub dispatch_private_wave-IsDurable :
      (backend : Option Backend) (root after : ControllerRoot) (run_id wave_id : String)
      (e : BackendExecutionRef) (before : List DispatchRecord)
      → truthy e.execution_id ≡ true
      → read_wave_dispatch_history r.str root run_id wave_id ≡ ok before
      → dispatch_private_wave r.str backend run_id wave_id root ≡ (ok e, after)
      → IsDurable r.str root after run_id wave_id e before
  unfolding dispatch_private_wave
  dispatch_private_wave-IsDurable backend root after run_id wave_id e before named known h =
      elim (Outcome-cases (prepared_dispatch r.str backend root run_id wave_id)) [
        | inr (failure, raised) ↦ absurd (ground (arith, raised, h))
        | inl ((execution, next), prepared) ↦
            let same_e : execution ≡ e = ground (arith, prepared, h) in
            let same_after : write_dispatch_state root run_id next ≡ after =
              ground (arith, prepared, h) in
            let (state, reading, recorded) =
              record_of_prepared r.str backend root run_id wave_id execution next prepared in
            let safe = safe_of_state r.str root run_id state reading in
            let known' =
              sym (read_history-of_state r.str root run_id wave_id state safe reading) ∙ known in
            let (s, _, known_state) = >>=-returns (safe_file_component wave_id) _ known' in
            subst (λ a. IsDurable r.str root a run_id wave_id e before) same_after
              (written-IsDurable root run_id wave_id e before state next reading known (
                record_dispatch-Recorded r.str laws.str-text laws.str-truthy state next wave_id e
                  before named known_state
                  (subst (λ x. record_dispatch r.str state wave_id x ≡ ok next) same_e recorded)))
      ]
