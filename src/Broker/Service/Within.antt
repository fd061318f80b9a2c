-- ===== src/Broker/Service/Within.antt =====
-- The drive of a request to its end dispatches its wave within the job's limit.
use portable_batch_execution.A1Controller.{read_wave_dispatch_history}
use portable_batch_execution.A1Controller.History.{DispatchRecord}
use portable_batch_execution.A1Controller.Python.{IsRuntime}
use portable_batch_execution.Base.{
  some, Option, String, >>=-returns, All, ◌<◌, [], not, ok-injective, subst, length, ok, ◌∷◌, List,
  ◌≤◌, ◌≡◌, ℕ,
}
use portable_batch_execution.Base.Exec.{done, and_then, Exec, reading}
use portable_batch_execution.Base.Int.{pos}
use portable_batch_execution.Base.Triples.{
  ends-either, knowing, if-Triple, reading-Triple, and_then-Triple, done-Triple, Triple,
}
use portable_batch_execution.Broker.Drive.{drive_loop}
use portable_batch_execution.Broker.Drive.Budget.{InBudget, Fits}
use portable_batch_execution.Broker.Drive.Ended.{drive_loop-Fits, IsFair}
use portable_batch_execution.Broker.Responses.{failed_response, BrokerExecuteResponse}
use portable_batch_execution.Broker.Root.{BrokerRoot}
use portable_batch_execution.Broker.Service.{
  drive_shards, drive_to_terminal, wave_policy, sync_dispatch, Service,
}
use portable_batch_execution.Broker.Service.Synced.{sync_dispatch-Ready}
use portable_batch_execution.Contracts.Job.{job_closed}
use portable_batch_execution.Contracts.Shard.{ExecutionPolicy, ShardSpec}
use portable_batch_execution.Lifecycle.Records.{BrokerRequestState}
use portable_batch_execution.Registry.{load_shards_for_run, resolve_wave, Bundle}

module _ (v : Service) (laws : IsRuntime v.runtime) (s : BrokerRequestState) (limit : ℕ) (n : ℕ)
    (counted : s.dispatch_count ≡ pos n) (within : n ≤ limit) where
  abbrev Kept : ℕ → BrokerRoot → Type 0
  Kept m root = Fits v.runtime laws s.logical_run_id s.wave_id m root

  abbrev Ready : BrokerRequestState → BrokerRoot → Type 0
  Ready s' root = InBudget v.runtime laws s.logical_run_id s.wave_id limit s' root

  -- The wave's job allows `limit` attempts.
  abbrev pub HasPolicy : BrokerRoot → Type 0
  HasPolicy root =
      (b : Bundle)
      → resolve_wave root.controller.registry s.logical_run_id s.wave_id ≡ ok b
      → b.job.execution.max_attempts_per_shard ≡ limit

  abbrev Starts : BrokerRoot → Type 0
  Starts root = HasPolicy root × Kept limit root

  -- The policy that was read.
  abbrev Allows : ExecutionPolicy → BrokerRoot → Type 0
  Allows policy root = (policy.max_attempts_per_shard ≡ limit) × Kept limit root

  wave_policy-Allows :
      Triple Starts (reading (wave_policy v s.logical_run_id s.wave_id)) Allows (Kept limit)
  unfolding wave_policy
  wave_policy-Allows =
      reading-Triple Allows (wave_policy v s.logical_run_id s.wave_id)
        (λ root policy start e.
          let (b, resolved, e1) =
            >>=-returns (resolve_wave root.controller.registry s.logical_run_id s.wave_id) _ e in
          let (u, closed, e2) = >>=-returns (job_closed b.job) _ e1 in
          (
            subst (λ (p : ExecutionPolicy). p.max_attempts_per_shard ≡ limit)
                (ok-injective b.job.execution policy e2) (start.0 b resolved),
            start.1,
          ))
        (λ root start. start.1)

  module _ (positive : 0 < limit)
      (fair : All (IsFair v.runtime laws s.logical_run_id s.wave_id limit positive) v.turns)
      (request_id : String) where
    driven-Within :
        (shard : ShardSpec) (policy : ExecutionPolicy)
        → Triple
            (Allows policy)
            (and_then (sync_dispatch v s shard) λ s'.
              drive_loop v.runtime
                (record { request_id = request_id; shard = shard; policy = policy })
                v.turns
                s')
            (λ _. Kept limit)
            (Kept limit)
    driven-Within shard policy =
        knowing (policy.max_attempts_per_shard ≡ limit) (λ _. Kept limit) _
          λ same.
            and_then-Triple Ready (λ _. Kept limit) (sync_dispatch v s shard)
              (λ s'.
                drive_loop v.runtime
                  (record { request_id = request_id; shard = shard; policy = policy }) v.turns s')
              (sync_dispatch-Ready v laws s limit n counted within shard)
              λ s'. record {
                ends = λ root b.
                    (drive_loop-Fits v.runtime laws s.logical_run_id s.wave_id limit positive
                        (record { request_id = request_id; shard = shard; policy = policy }) same
                        v.turns fair b.count s' b.counts b.within).ends
                      root b.recorded;
              }

    drive_shards-Within :
        (shards : List ShardSpec)
        → Triple Starts (drive_shards v request_id s shards) (λ _. Kept limit) (Kept limit)
    unfolding drive_shards
    drive_shards-Within [] = done-Triple (λ _. Kept limit) _ λ root start. start.1
    drive_shards-Within (a ∷ b ∷ more) = done-Triple (λ _. Kept limit) _ λ root start. start.1
    drive_shards-Within (shard ∷ []) =
        and_then-Triple Allows (λ _. Kept limit)
          (reading (wave_policy v s.logical_run_id s.wave_id))
          (λ policy. and_then (sync_dispatch v s shard) λ s'.
            drive_loop v.runtime
              (record { request_id = request_id; shard = shard; policy = policy }) v.turns s')
          wave_policy-Allows λ policy. driven-Within shard policy

    -- The request counts `n` dispatches and the wave's history has no more than the job allows, which
    -- is at least one; others leave the history alone, and the backend names what it runs. Then the
    -- history has no more than the job allows after the drive, whether it returns or raises.
    drive_to_terminal-Within :
        Triple Starts (drive_to_terminal v request_id s) (λ _. Kept limit) (Kept limit)
    unfolding drive_to_terminal
    drive_to_terminal-Within =
        let drives : Exec BrokerRoot (Option BrokerExecuteResponse) =
          and_then (reading λ root. load_shards_for_run root.controller.registry s.logical_run_id)
            λ shards. drive_shards v request_id s shards in
        if-Triple (λ _. Kept limit) (not v.has_backend)
          (done (some (failed_response request_id "backend_unavailable"))) drives
          (λ _. done-Triple (λ _. Kept limit) _ λ root start. start.1)
          λ _.
            and_then-Triple (λ _. Starts) (λ _. Kept limit)
              (reading λ root. load_shards_for_run root.controller.registry s.logical_run_id)
              (λ shards. drive_shards v request_id s shards)
              (reading-Triple (λ _. Starts) _ (λ root _ start _. start) (λ root start. start.1))
              λ shards. drive_shards-Within shards

module _ (v : Service) (laws : IsRuntime v.runtime) (s : BrokerRequestState) (limit n : ℕ)
    (positive : 0 < limit) where
  -- A request counts no more dispatches than its job allows, which is at least one, and its wave's
  -- history has no more; others leave that history alone, and the backend names what it runs. Then
  -- after the drive, whatever the backend answers and whether it returns or raises, the history read
  -- back has no more dispatches than the job allows.
  pub drive_to_terminal-in_budget :
      (request_id : String) (root : BrokerRoot) (history : List DispatchRecord)
      → s.dispatch_count ≡ pos n
      → n ≤ limit
      → All (IsFair v.runtime laws s.logical_run_id s.wave_id limit positive) v.turns
      → ((b : Bundle)
          → resolve_wave root.controller.registry s.logical_run_id s.wave_id ≡ ok b
          → b.job.execution.max_attempts_per_shard ≡ limit)
      → read_wave_dispatch_history v.runtime.str root.controller s.logical_run_id s.wave_id
        ≡ ok history
      → length history ≤ limit
      → (later : List DispatchRecord) × (read_wave_dispatch_history v.runtime.str
            (drive_to_terminal v request_id s root).1.controller
            s.logical_run_id
            s.wave_id
          ≡ ok later)
        × (length later ≤ limit)
  drive_to_terminal-in_budget request_id root history counted within fair policy reads fits =
      let done_so =
        ends-either (Kept v laws s limit n counted within limit)
          (drive_to_terminal v request_id s root)
          ((drive_to_terminal-Within v laws s limit n counted within positive fair request_id).ends
            root (policy, record { history = history; reads = reads; fits = fits })) in
      (done_so.history, done_so.reads, done_so.fits)
