-- ===== src/Broker/Handle/Finished.antt =====
-- A request that has ended is answered again, and nothing more is dispatched for it.
use portable_batch_execution.A1Controller.{ControllerRoot, reconcile_run}
use portable_batch_execution.A1Controller.Python.{Runtime}
use portable_batch_execution.Base.{
  [], ◌∷◌, sym, none, raise, inr, ◌∙◌, ok, inl, Outcome, Outcome-cases, Option, ◌≡◌, some, List,
  String, refl,
}
use portable_batch_execution.Base.Dict.{Dict}
use portable_batch_execution.Base.Exec.{reading, done, Exec}
use portable_batch_execution.Base.Int.{ℤ}
use portable_batch_execution.Base.Triples.{
  reading-Triple, and_then-Triple, Ends, done-Triple, Triple,
}
use portable_batch_execution.Broker.Drive.{head_if_complete, output_at}
use portable_batch_execution.Broker.Drive.Budget.{reconcile_run-dispatch}
use portable_batch_execution.Broker.Drive.Rules.{reconcile_if_changed-Triple, KeepsMarks}
use portable_batch_execution.Broker.Drive.Stored.{put_request-there, still, IsSameRequest, IsStored}
use portable_batch_execution.Broker.Handle.{
  answer_output, answer_attempt, reconcile_only, success_from_state, success_of,
}
use portable_batch_execution.Broker.Responses.{
  succeeded_response, AttemptOutput, BrokerExecuteResponse,
}
use portable_batch_execution.Broker.Root.{
  opaque_request_id, put_request, save_request, BrokerRoot, in_controller,
}
use portable_batch_execution.Broker.Service.{Service}
use portable_batch_execution.Contracts.Attempt.{ShardAttemptRecord}
use portable_batch_execution.Contracts.Job.{Fields}
use portable_batch_execution.Contracts.Manifest.{RunManifest}
use portable_batch_execution.Contracts.Shard.{ShardSpec}
use portable_batch_execution.DataPlane.Attempts.{read_attempts}
use portable_batch_execution.Kernel.Completeness.{completeness}
use portable_batch_execution.Lifecycle.Records.{BrokerRequestState}
use portable_batch_execution.Lifecycle.Root.{Stored}
use portable_batch_execution.Registry.{load_shards_for_run}

-- `t` is a state of the request of `s` with its status, and is in its file, and the dispatch files
-- are `files`.
pub record IsFinished (s : BrokerRequestState) (files : Dict (Stored Fields))
    (t : BrokerRequestState) (root : BrokerRoot) : Type 0 where
  pub stored : IsStored s t root
  pub same_status : t.status ≡ s.status
  pub same_dispatches : root.controller.dispatch ≡ files

abbrev pub Remains : BrokerRequestState → Dict (Stored Fields) → BrokerRoot → Type 0
Remains s files root = (t : BrokerRequestState) × IsFinished s files t root

module _ (s : BrokerRequestState) (files : Dict (Stored Fields)) where
  save_request-IsFinished :
      (t t' : BrokerRequestState)
      → t'.status ≡ t.status
      → (IsSameRequest s t → IsSameRequest s t')
      → Triple
          (IsFinished s files t)
          (save_request t')
          (λ _. IsFinished s files t')
          (Remains s files)
  unfolding save_request put_request
  save_request-IsFinished t t' status same = record {
    ends = λ root h. elim (Outcome-cases (opaque_request_id t'.request_id)) [
      | inl (name, e) ↦
          rw (e, save_request)
            (record {
              stored = record { there = put_request-there root t'; same = same h.stored.same };
              same_status = status ∙ h.same_status;
              same_dispatches = h.same_dispatches;
            })
      | inr (why, e) ↦ rw (e, save_request) (t, h)
    ];
  }

  runs-IsFinished :
      (r : Runtime) (t : BrokerRequestState) (run : String)
      → Triple
          (IsFinished s files t)
          (in_controller (reconcile_run r run))
          (λ _. IsFinished s files t)
          (Remains s files)
  unfolding in_controller
  runs-IsFinished r t run = record {
    ends = λ root h.
        ended (reconcile_run r run root.controller).0 (reconcile_run r run root.controller).1 root
          (sym (reconcile_run-dispatch r run root.controller) ∙ h.same_dispatches) h;
  }
    where
      ended :
          (o : Outcome RunManifest) (c : ControllerRoot) (root : BrokerRoot)
          → c.dispatch ≡ files
          → IsFinished s files t root
          → Ends (λ _. IsFinished s files t) (Remains s files) (o, record root { controller = c })
      ended (ok a) c root same h = record {
        stored = record { there = h.stored.there; same = h.stored.same };
        same_status = h.same_status;
        same_dispatches = same;
      }
      ended (raise e) c root same h = (
        t,
        record {
          stored = record { there = h.stored.there; same = h.stored.same };
          same_status = h.same_status;
          same_dispatches = same;
        },
      )

  IsFinished-KeepsMarks : (r : Runtime) → KeepsMarks r (Remains s files) (IsFinished s files)
  IsFinished-KeepsMarks r = record {
    lower = λ t root h. (t, h);
    marks = λ t marker.
        save_request-IsFinished t (record t { last_reconciled_attempt_marker = some marker }) refl
          λ g. still g refl refl refl refl refl;
    runs = λ t run. runs-IsFinished r t run;
  }

  module _ (v : Service) where
    -- The action leaves the request ended, and the dispatches alone.
    abbrev pub Leaves : BrokerRequestState → Exec BrokerRoot (Option BrokerExecuteResponse) → Type 0
    Leaves t m = Triple (IsFinished s files t) m (λ _. Remains s files) (Remains s files)

    pub answers-Leaves :
        (t : BrokerRequestState) (response : BrokerExecuteResponse)
        → Leaves t (done (some response))
    answers-Leaves t response = done-Triple (λ _. Remains s files) _ λ root h. (t, h)

    pub reads-Leaves :
        {A : Type 0} (t : BrokerRequestState) (f : BrokerRoot → Outcome A)
        → Triple (IsFinished s files t) (reading f) (λ _. IsFinished s files t) (Remains s files)
    reads-Leaves t f =
        reading-Triple (λ _. IsFinished s files t) f (λ root _ h _. h) (λ root h. (t, h))

    answer_output-Leaves :
        (t : BrokerRequestState) (o : AttemptOutput) (size : Option ℤ)
        → Leaves t (answer_output v t o size)
    unfolding answer_output
    answer_output-Leaves t o (some n) = answers-Leaves t _
    answer_output-Leaves t o none =
        let t' = record t {
          output_size_bytes = some o.size_bytes;
          output_sha256 = some o.digest;
        } in
        and_then-Triple (λ _. IsFinished s files t') (λ _. Remains s files) (save_request t')
          (λ _. done (some (succeeded_response v.runtime t' o)))
          (save_request-IsFinished t t' refl λ g. still g refl refl refl refl refl)
          λ _. answers-Leaves t' _

    answer_attempt-Leaves :
        (t : BrokerRequestState) (found : Option ShardAttemptRecord)
        → Leaves t (answer_attempt v t found)
    unfolding answer_attempt
    answer_attempt-Leaves t none = answers-Leaves t _
    answer_attempt-Leaves t (some attempt) =
        and_then-Triple (λ _. IsFinished s files t) (λ _. Remains s files)
          (reading λ root. output_at v.runtime root attempt.output_refs) _ (reads-Leaves t _)
          λ o. answer_output-Leaves t o t.output_size_bytes

    success_of-Leaves :
        (t : BrokerRequestState) (attempts : List ShardAttemptRecord) (shards : List ShardSpec)
        → Leaves t (success_of v t attempts shards)
    unfolding success_of
    success_of-Leaves t attempts shards =
        and_then-Triple (λ _. IsFinished s files t) (λ _. Remains s files)
          (reading λ _. completeness (t.shard_id ∷ []) attempts shards) _ (reads-Leaves t _)
          λ c. answer_attempt-Leaves t (head_if_complete c)

    reconcile_only-IsFinished :
        (t : BrokerRequestState) (attempts : List ShardAttemptRecord) (shards : List ShardSpec)
        → Triple
            (IsFinished s files t)
            (reconcile_only v t attempts shards)
            (IsFinished s files)
            (Remains s files)
    unfolding reconcile_only
    reconcile_only-IsFinished t attempts [] = done-Triple (IsFinished s files) t λ root h. h
    reconcile_only-IsFinished t attempts (a ∷ b ∷ more) =
        done-Triple (IsFinished s files) t λ root h. h
    reconcile_only-IsFinished t attempts (shard ∷ []) =
        reconcile_if_changed-Triple v.runtime (Remains s files) (IsFinished s files)
          (IsFinished-KeepsMarks v.runtime) shard attempts t

    pub success_from_state-Leaves : (t : BrokerRequestState) → Leaves t (success_from_state v t)
    unfolding success_from_state
    success_from_state-Leaves t =
        and_then-Triple (λ _. IsFinished s files t) (λ _. Remains s files)
          (reading λ root. load_shards_for_run root.controller.registry t.logical_run_id) _
          (reads-Leaves t _)
          λ shards.
            and_then-Triple (λ _. IsFinished s files t) (λ _. Remains s files)
              (reading λ root. read_attempts root.controller.plane t.logical_run_id) _
              (reads-Leaves t _)
              λ attempts.
                and_then-Triple (IsFinished s files) (λ _. Remains s files)
                  (reconcile_only v t attempts shards) (λ t'. success_of v t' attempts shards)
                  (reconcile_only-IsFinished t attempts shards)
                  λ t'. success_of-Leaves t' attempts shards
