-- ===== src/Broker/Drive/Ended.antt =====
-- The loop, over any turns, leaves the wave's history within the job's limit.
use portable_batch_execution.A1Controller.{Backend, read_wave_dispatch_history, ControllerRoot}
use portable_batch_execution.A1Controller.Python.{IsRuntime, Runtime}
use portable_batch_execution.Base.{
  [], ◌∷◌, none, some, ◌≤◌, Option, All, ◌∙◌, List, ◌≡◌, ◌<◌, ℕ, String,
}
use portable_batch_execution.Base.Exec.{reading, Exec}
use portable_batch_execution.Base.Triples.{
  knowing, relax, reading-Triple, and_then-Triple, done-Triple, Triple,
}
use portable_batch_execution.Broker.Drive.{
  judge_attempts, again, answered, Turned, Driven, go_on, Turn, others_act, drive_loop, one_round,
}
use portable_batch_execution.Broker.Drive.Budget.{
  reconcile_if_changed-Fits, Marked, Fits-le, Counts, Fits,
}
use portable_batch_execution.Broker.Drive.Loop.{judge_attempts-After}
use portable_batch_execution.Broker.Drive.Reconcile.{reconcile_if_changed}
use portable_batch_execution.Broker.Drive.Rounds.{Settled, NamesExecutions}
use portable_batch_execution.Broker.Responses.{BrokerExecuteResponse}
use portable_batch_execution.Broker.Root.{BrokerRoot}
use portable_batch_execution.DataPlane.Attempts.{read_attempts}
use portable_batch_execution.Lifecycle.Records.{BrokerRequestState}

module _ (r : Runtime) (laws : IsRuntime r) (run_id wave_id : String) (limit : ℕ)
    (positive : 0 < limit) where
  one_round-Settles :
      (d : Driven) (backend : Backend) (n : ℕ) (s : BrokerRequestState)
      → NamesExecutions backend
      → d.policy.max_attempts_per_shard ≡ limit
      → Counts r laws run_id wave_id n s
      → n ≤ limit
      → Triple
          (Fits r laws run_id wave_id n)
          (one_round r d (some backend) s)
          (Settled r laws run_id wave_id limit)
          (Fits r laws run_id wave_id limit)
  unfolding one_round
  one_round-Settles d backend n s names same c within =
      let to_limit = λ (root : BrokerRoot). Fits-le r laws run_id wave_id n limit root within in
      and_then-Triple (λ _. Fits r laws run_id wave_id n) (Settled r laws run_id wave_id limit)
        (reading λ root. read_attempts root.controller.plane s.logical_run_id) _
        (reading-Triple (λ _. Fits r laws run_id wave_id n) _ (λ root _ f _. f) to_limit)
        λ attempts.
          and_then-Triple (Marked r laws run_id wave_id n) (Settled r laws run_id wave_id limit)
            (reconcile_if_changed r d.shard attempts s)
            (λ s'. judge_attempts r d (some backend) attempts s')
            (relax (Marked r laws run_id wave_id n) (reconcile_if_changed r d.shard attempts s)
              to_limit (reconcile_if_changed-Fits r laws run_id wave_id n d.shard attempts s c))
            λ s'.
              knowing (Counts r laws run_id wave_id n s') (Settled r laws run_id wave_id limit)
                (judge_attempts r d (some backend) attempts s')
                λ c'.
                  judge_attempts-After r laws run_id wave_id limit positive n s' c' within d backend
                    attempts names same

  -- What others do in a turn leaves the wave's dispatches alone, and its backend names what it runs.
  pub record IsFair (t : Turn) : Type 0 where
    pub keeps_history :
        (c : ControllerRoot)
        → read_wave_dispatch_history r.str (t.others c) run_id wave_id
          ≡ read_wave_dispatch_history r.str c run_id wave_id
    pub names : NamesExecutions t.backend

  others_act-Fits :
      (n : ℕ) (t : Turn)
      → IsFair t
      → Triple
          (Fits r laws run_id wave_id n)
          (others_act t.others)
          (λ _. Fits r laws run_id wave_id n)
          (Fits r laws run_id wave_id limit)
  unfolding others_act
  others_act-Fits n t fair = record {
    ends = λ root f. record {
      history = f.history;
      reads = fair.keeps_history root.controller ∙ f.reads;
      fits = f.fits;
    };
  }

  go_on-Fits :
      (next : BrokerRequestState → Exec BrokerRoot (Option BrokerExecuteResponse))
      → ((n : ℕ) (s : BrokerRequestState)
          → Counts r laws run_id wave_id n s
          → n ≤ limit
          → Triple
              (Fits r laws run_id wave_id n)
              (next s)
              (λ _. Fits r laws run_id wave_id limit)
              (Fits r laws run_id wave_id limit))
      → (turned : Turned)
      → Triple
          (Settled r laws run_id wave_id limit turned)
          (go_on next turned)
          (λ _. Fits r laws run_id wave_id limit)
          (Fits r laws run_id wave_id limit)
  unfolding go_on
  go_on-Fits next ih (answered answer) =
      done-Triple (λ _. Fits r laws run_id wave_id limit) (some answer) λ root f. f
  go_on-Fits next ih (again s) = record {
    ends = λ root b. (ih b.count s b.counts b.within).ends root b.recorded;
  }

  -- Whatever the turns bring, the loop leaves the wave with no more dispatches than its job allows,
  -- whether it returns or raises.
  pub drive_loop-Fits :
      (d : Driven)
      → d.policy.max_attempts_per_shard ≡ limit
      → (turns : List Turn) → All IsFair turns
      → (n : ℕ) (s : BrokerRequestState) → Counts r laws run_id wave_id n s
      → n ≤ limit
      → Triple
          (Fits r laws run_id wave_id n)
          (drive_loop r d turns s)
          (λ _. Fits r laws run_id wave_id limit)
          (Fits r laws run_id wave_id limit)
  unfolding drive_loop
  drive_loop-Fits d same [] fair n s c within =
      done-Triple (λ _. Fits r laws run_id wave_id limit) none
        λ root f. Fits-le r laws run_id wave_id n limit root within f
  drive_loop-Fits d same (t ∷ ts) fair n s c within =
      and_then-Triple (λ _. Fits r laws run_id wave_id n) (λ _. Fits r laws run_id wave_id limit)
        (others_act t.others) _ (others_act-Fits n t fair.0)
        λ _.
          and_then-Triple (Settled r laws run_id wave_id limit)
            (λ _. Fits r laws run_id wave_id limit) (one_round r d (some t.backend) s)
            (λ turned. go_on (drive_loop r d ts) turned)
            (one_round-Settles d t.backend n s fair.0.names same c within)
            λ turned. go_on-Fits (drive_loop r d ts) (drive_loop-Fits d same ts fair.1) turned
