-- ===== src/Broker/Service/Answered.antt =====
-- The drive of a request to its end: its answer agrees with the request's file.
use portable_batch_execution.A1Controller.{read_wave_dispatch_history}
use portable_batch_execution.A1Controller.History.{DispatchRecord}
use portable_batch_execution.Base.{length, [], suc, not, ◌∷◌, some, ◌≡◌, List, Option, String, refl}
use portable_batch_execution.Base.Dict.{get}
use portable_batch_execution.Base.Exec.{and_then, reading, Exec, done}
use portable_batch_execution.Base.Int.{pos, ltb_ℤ}
use portable_batch_execution.Base.Triples.{
  reading-Triple, if-Triple, Ends, done-Triple, and_then-Triple, Triple,
}
use portable_batch_execution.Broker.Drive.{drive_loop, Driven}
use portable_batch_execution.Broker.Drive.Agrees.{save_request-InHand}
use portable_batch_execution.Broker.Drive.Answers.{drive_loop-Replied}
use portable_batch_execution.Broker.Drive.Stored.{still, Replied, Left, InHand, fails_with}
use portable_batch_execution.Broker.Responses.{failed_response, BrokerExecuteResponse}
use portable_batch_execution.Broker.Root.{save_request, BrokerRoot}
use portable_batch_execution.Broker.Service.{
  wave_policy, synced, sync_history, sync_dispatch, drive_to_terminal, drive_shards, Service,
}
use portable_batch_execution.Contracts.Attempt.{ShardAttemptRecord}
use portable_batch_execution.Contracts.Shard.{ShardSpec}
use portable_batch_execution.DataPlane.Attempts.{read_attempts}
use portable_batch_execution.Lifecycle.Records.{BrokerRequestState}
use portable_batch_execution.Lifecycle.Root.{holding}
use portable_batch_execution.Registry.{load_shards_for_run}

module _ (v : Service) (s : BrokerRequestState) where
  abbrev Reply : String → Option BrokerExecuteResponse → BrokerRoot → Type 0
  Reply request_id = Replied v.runtime request_id s

  refuses :
      (request_id code : String)
      → Triple
          (InHand s s)
          (done (some (failed_response request_id code)))
          (Reply request_id)
          (Left s)
  refuses request_id code =
      done-Triple (Reply request_id) _ λ root h. (s, h.0, fails_with code refl refl)

  synced-InHand :
      (shard : ShardSpec) (first : DispatchRecord) (others : List DispatchRecord)
      (attempts : List ShardAttemptRecord)
      → Triple
          (InHand s s)
          (save_request (synced v s shard first others attempts))
          (λ _. InHand s (synced v s shard first others attempts))
          (Left s)
  unfolding synced
  synced-InHand shard first others attempts =
      save_request-InHand s s (synced v s shard first others attempts) refl
        λ g. still g refl refl refl refl refl

  sync_history-InHand :
      (shard : ShardSpec) (history : List DispatchRecord)
      → Triple (InHand s s) (sync_history v s shard history) (InHand s) (Left s)
  unfolding sync_history
  sync_history-InHand shard [] = done-Triple (InHand s) s λ root h. h
  sync_history-InHand shard (first ∷ others) =
      let whole : Exec BrokerRoot BrokerRequestState =
        and_then (reading λ root. read_attempts root.controller.plane s.logical_run_id) λ attempts.
          and_then (save_request (synced v s shard first others attempts))
            λ _. done (synced v s shard first others attempts) in
      if-Triple (InHand s) (not (ltb_ℤ s.dispatch_count (pos (suc (length others))))) (done s) whole
        (λ _. done-Triple (InHand s) s λ root h. h)
        λ _.
          and_then-Triple (λ _. InHand s s) (InHand s)
            (reading λ root. read_attempts root.controller.plane s.logical_run_id) _
            (reading-Triple (λ _. InHand s s) _ (λ root _ h _. h) (λ root h. (s, h.0)))
            λ attempts.
              and_then-Triple (λ _. InHand s (synced v s shard first others attempts)) (InHand s)
                (save_request (synced v s shard first others attempts))
                (λ _. done (synced v s shard first others attempts))
                (synced-InHand shard first others attempts)
                λ _. done-Triple (InHand s) _ λ root h. h

  pub sync_dispatch-InHand :
      (shard : ShardSpec) → Triple (InHand s s) (sync_dispatch v s shard) (InHand s) (Left s)
  unfolding sync_dispatch
  sync_dispatch-InHand shard =
      and_then-Triple (λ _. InHand s s) (InHand s)
        (reading λ root.
          read_wave_dispatch_history v.runtime.str root.controller s.logical_run_id s.wave_id)
        (λ history. sync_history v s shard history)
        (reading-Triple (λ _. InHand s s) _ (λ root _ h _. h) (λ root h. (s, h.0)))
        λ history. sync_history-InHand shard history

  drive_shards-Replied :
      (request_id : String) (shards : List ShardSpec)
      → Triple (InHand s s) (drive_shards v request_id s shards) (Reply request_id) (Left s)
  unfolding drive_shards
  drive_shards-Replied request_id [] = refuses request_id _
  drive_shards-Replied request_id (a ∷ b ∷ more) = refuses request_id _
  drive_shards-Replied request_id (shard ∷ []) =
      and_then-Triple (λ _. InHand s s) (Reply request_id)
        (reading (wave_policy v s.logical_run_id s.wave_id)) _
        (reading-Triple (λ _. InHand s s) _ (λ root _ h _. h) (λ root h. (s, h.0)))
        λ policy.
          let d : Driven = record { request_id = request_id; shard = shard; policy = policy } in
          and_then-Triple (InHand s) (Reply request_id) (sync_dispatch v s shard)
            (λ t. drive_loop v.runtime d v.turns t) (sync_dispatch-InHand shard)
            λ t. drive_loop-Replied v.runtime d s v.turns t

  drive_to_terminal-Replied :
      (request_id : String)
      → Triple (InHand s s) (drive_to_terminal v request_id s) (Reply request_id) (Left s)
  unfolding drive_to_terminal
  drive_to_terminal-Replied request_id =
      let drives : Exec BrokerRoot (Option BrokerExecuteResponse) =
        and_then (reading λ root. load_shards_for_run root.controller.registry s.logical_run_id)
          λ shards. drive_shards v request_id s shards in
      if-Triple (Reply request_id) (not v.has_backend)
        (done (some (failed_response request_id "backend_unavailable"))) drives
        (λ _. refuses request_id _)
        λ _.
          and_then-Triple (λ _. InHand s s) (Reply request_id)
            (reading λ root. load_shards_for_run root.controller.registry s.logical_run_id)
            (λ shards. drive_shards v request_id s shards)
            (reading-Triple (λ _. InHand s s) _ (λ root _ h _. h) (λ root h. (s, h.0)))
            λ shards. drive_shards-Replied request_id shards

  -- A drive that starts from the state in the request's file: if it returns an answer, the file then
  -- has a state of the request that the answer agrees with (a success is stored with the digest of
  -- the payload answered, its size and its type; a spent budget is stored; a failure leaves the
  -- status), if it would go on, the state it would go on from, and if it raises, some state of it.
  pub drive_to_terminal-agrees :
      (request_id : String) (root : BrokerRoot)
      → get root.requests s.request_id ≡ some (holding s)
      → Ends (Replied v.runtime request_id s) (Left s) (drive_to_terminal v request_id s root)
  drive_to_terminal-agrees request_id root there =
      (drive_to_terminal-Replied request_id).ends root (
        record {
          there = there;
          same = record {
            same_id = refl;
            same_binding = refl;
            same_run = refl;
            same_wave = refl;
            same_shard = refl;
          };
        },
        refl,
      )
