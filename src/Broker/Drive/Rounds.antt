-- ===== src/Broker/Drive/Rounds.antt =====
-- A round of the loop, and the loop, keep the number of dispatches within the job's limit.
use portable_batch_execution.A1Controller.{
  read_wave_dispatch_history, prepared_dispatch, ControllerRoot, Backend, dispatch_private_wave,
}
use portable_batch_execution.A1Controller.Durable.{
  submitted_of_prepared, dispatch_private_wave-IsDurable,
}
use portable_batch_execution.A1Controller.History.{
  dispatch_record, DispatchRecord, BackendExecutionRef,
}
use portable_batch_execution.A1Controller.Python.{IsRuntime, Runtime}
use portable_batch_execution.Base.{
  length-append, ap, sym, [], subst, ◌∷◌, inr, inl, ◌++◌, arith, ◌⊎◌, ◌≤◌, true, Outcome-cases, suc,
  truthy, raise, length, Outcome, Error, ◌<◌, some, ok, List, ◌≡◌, Option, String, ℕ, refl,
}
use portable_batch_execution.Base.Exec.{done, Exec, fail}
use portable_batch_execution.Base.Int.{pos}
use portable_batch_execution.Base.Triples.{fail-Triple, done-Triple, Ends, Triple}
use portable_batch_execution.Broker.Drive.{answered, again, Turned}
use portable_batch_execution.Broker.Drive.Budget.{Fits-le, InBudget, Counts, Fits}
use portable_batch_execution.Broker.Drive.Decide.{dispatch, decide}
use portable_batch_execution.Broker.Responses.{BrokerExecuteResponse}
use portable_batch_execution.Broker.Root.{in_controller, BrokerRoot}
use portable_batch_execution.Contracts.Job.{Param}
use portable_batch_execution.Contracts.Shard.{WaveSpec}
use portable_batch_execution.Lifecycle.Records.{BrokerRequestState}

-- A dispatch is decided on only where there is room for one.
pub decide-dispatch :
    (s : BrokerRequestState) (terminal_count limit : ℕ) (status : Option String) (n : ℕ)
    → 0 < limit
    → s.dispatch_count ≡ pos n
    → decide s terminal_count limit status ≡ dispatch
    → n < limit
unfolding decide
decide-dispatch s terminal_count limit status n positive counted h = ground (arith, h, counted)

-- What a backend submits has a name.
abbrev pub NamesExecutions : Backend → Type 0
NamesExecutions b =
    (wave : WaveSpec) (e : BackendExecutionRef)
    → b.submit_wave wave ≡ ok e
    → truthy e.execution_id ≡ true

dispatch-raises :
    (str : Param → String) (backend : Option Backend) (run_id wave_id : String)
    (root after : ControllerRoot) (e : Error)
    → dispatch_private_wave str backend run_id wave_id root ≡ (raise e, after)
    → root ≡ after
unfolding dispatch_private_wave
dispatch-raises str backend run_id wave_id root after e h =
    elim (Outcome-cases (prepared_dispatch str backend root run_id wave_id)) [
      | inl ((execution, next), prepared) ↦ absurd (ground (arith, prepared, h))
      | inr (failure, raised) ↦ ground (arith, raised, h)
    ]

dispatch-named :
    (str : Param → String) (backend : Backend) (run_id wave_id : String)
    (root after : ControllerRoot) (e : BackendExecutionRef)
    → NamesExecutions backend
    → dispatch_private_wave str (some backend) run_id wave_id root ≡ (ok e, after)
    → truthy e.execution_id ≡ true
unfolding dispatch_private_wave
dispatch-named str backend run_id wave_id root after e names h =
    elim (Outcome-cases (prepared_dispatch str (some backend) root run_id wave_id)) [
      | inr (failure, raised) ↦ absurd (ground (arith, raised, h))
      | inl ((execution, next), prepared) ↦
          let (b, wave, same, submitted) =
            submitted_of_prepared str (some backend) root run_id wave_id execution next prepared in
          let same_e : execution ≡ e = ground (arith, prepared, h) in
          let same_b : backend ≡ b = cc same in
          subst (λ x. truthy x.execution_id ≡ true) same_e
            (names wave execution
              (subst (λ k. k.submit_wave wave ≡ ok execution) (sym same_b) submitted))
    ]

module _ (r : Runtime) (laws : IsRuntime r) (run_id wave_id : String) where
  grown-le :
      (history merged : List DispatchRecord) (d : DispatchRecord) (n : ℕ)
      → length history ≤ n
      → (merged ≡ history) ⊎ (merged ≡ history ++ d ∷ [])
      → length merged ≤ suc n
  grown-le history merged d n h (inl same) = omega (arith, ap length same)
  grown-le history merged d n h (inr more) =
      omega (arith, ap length more, length-append history (d ∷ []))

  dispatched-Ends :
      (backend : Backend) (n : ℕ) (root : BrokerRoot) (o : Outcome BackendExecutionRef)
      (after : ControllerRoot)
      → NamesExecutions backend
      → dispatch_private_wave r.str (some backend) run_id wave_id root.controller ≡ (o, after)
      → Fits r laws run_id wave_id n root
      → Ends
          (λ _. Fits r laws run_id wave_id (suc n))
          (Fits r laws run_id wave_id n)
          (o, record root { controller = after })
  dispatched-Ends backend n root (ok e) after names h f =
      let d =
        dispatch_private_wave-IsDurable r laws (some backend) root.controller after run_id wave_id e
          f.history (dispatch-named r.str backend run_id wave_id root.controller after e names h)
          f.reads h in
      record {
        history = d.merged;
        reads = d.read_back;
        fits = grown-le f.history d.merged (dispatch_record e) n f.fits d.grows;
      }
  dispatched-Ends backend n root (raise e) after names h f = record {
    history = f.history;
    reads =
        subst (λ c. read_wave_dispatch_history r.str c run_id wave_id ≡ ok f.history)
          (dispatch-raises r.str (some backend) run_id wave_id root.controller after e h) f.reads;
    fits = f.fits;
  }

  pub dispatch-Fits :
      (backend : Backend) (n : ℕ)
      → NamesExecutions backend
      → Triple
          (Fits r laws run_id wave_id n)
          (in_controller (dispatch_private_wave r.str (some backend) run_id wave_id))
          (λ _. Fits r laws run_id wave_id (suc n))
          (Fits r laws run_id wave_id n)
  unfolding in_controller
  dispatch-Fits backend n names = record {
    ends = λ root f.
        dispatched-Ends backend n root
          (dispatch_private_wave r.str (some backend) run_id wave_id root.controller).0
          (dispatch_private_wave r.str (some backend) run_id wave_id root.controller).1 names refl
          f;
  }

  -- A round ends with a state in the budget, or with an answer.
  abbrev pub Settled : ℕ → Turned → BrokerRoot → Type 0
  Settled limit (again s) root = InBudget r laws run_id wave_id limit s root
  Settled limit (answered answer) root = Fits r laws run_id wave_id limit root

  module _ (limit n : ℕ) (s : BrokerRequestState) (c : Counts r laws run_id wave_id n s) where
    abbrev pub After : Exec BrokerRoot Turned → Type 0
    After m =
        Triple (Fits r laws run_id wave_id n) m (Settled limit) (Fits r laws run_id wave_id limit)

    pub answered-After :
        (answer : BrokerExecuteResponse) → n ≤ limit → After (done (answered answer))
    answered-After answer h =
        done-Triple (Settled limit) (answered answer)
          λ root f. Fits-le r laws run_id wave_id n limit root h f

    pub failed-After : (e : Error) → n ≤ limit → After (fail e)
    failed-After e h =
        fail-Triple (Settled limit) e λ root f. Fits-le r laws run_id wave_id n limit root h f

    pub again-After : n ≤ limit → After (done (again s))
    again-After h =
        done-Triple (Settled limit) (again s)
          λ root f. record { count = n; counts = c; within = h; recorded = f }
