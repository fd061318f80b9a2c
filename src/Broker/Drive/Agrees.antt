-- ===== src/Broker/Drive/Agrees.antt =====
-- Every end of a round, and the loop: the file has the state in hand, and the answer agrees with it.
use portable_batch_execution.A1Controller.{
  dispatch_private_wave, Backend, ControllerRoot, reconcile_run,
}
use portable_batch_execution.A1Controller.History.{BackendExecutionRef}
use portable_batch_execution.A1Controller.Python.{Runtime}
use portable_batch_execution.Base.{
  ◌∙◌, ℕ, Option, raise, ok, Outcome, some, ◌≡◌, String, Error, refl,
}
use portable_batch_execution.Base.Exec.{fail, done, Exec}
use portable_batch_execution.Base.Int.{succ_ℤ, pos}
use portable_batch_execution.Base.Triples.{
  with_fact, try_then-Triple, Ends, done-Triple, fail-Triple, and_then-Triple, Triple,
}
use portable_batch_execution.Broker.Drive.{
  again, dispatch_request, dispatched, carry_out, Turned, answered, save_and_answer,
  exhaust_request, Driven,
}
use portable_batch_execution.Broker.Drive.Decide.{dispatch, exhaust, wait, Decision}
use portable_batch_execution.Broker.Drive.Rules.{dispatched_raise-Triple, KeepsMarks}
use portable_batch_execution.Broker.Drive.Stored.{
  still, fails_with, is_spent, in_controller-Stored, save_request-Stored, Left, IsStored, Told,
  InHand, IsSameRequest,
}
use portable_batch_execution.Broker.Responses.{exhausted_response, failed_response, AttemptOutput}
use portable_batch_execution.Broker.Root.{in_controller, save_request, BrokerRoot}
use portable_batch_execution.Lifecycle.Records.{BrokerRequestState}

-- A state with the output `o`, stored as a success.
pub record HasOutput (o : AttemptOutput) (t : BrokerRequestState) : Type 0 where
  pub has_succeeded : t.status ≡ "succeeded"
  pub digest_stored : t.output_sha256 ≡ some o.digest
  pub size_stored : t.output_size_bytes ≡ some o.size_bytes
  pub type_stored : t.output_media_type ≡ some o.media_type

-- What is said of a state beside its file, and a marker does not change.
pub stored-KeepsMarks :
    (r : Runtime) (s : BrokerRequestState) (C : BrokerRequestState → Type 0)
    → ((t : BrokerRequestState) (marker : String)
        → C t
        → C (record t { last_reconciled_attempt_marker = some marker }))
    → KeepsMarks r (Left s) (λ t root. IsStored s t root × C t)
stored-KeepsMarks r s C marked = record {
  lower = λ t root h. (t, h.0);
  marks = λ t marker. record {
    ends = λ root h.
        (with_fact (C (record t { last_reconciled_attempt_marker = some marker })) (C t)
            (marked t marker)
            (save_request-Stored s t (record t { last_reconciled_attempt_marker = some marker })
              (still h.0.same refl refl refl refl refl))).ends
          root h;
  };
  runs = λ t run. with_fact (C t) (C t) (λ c. c) (in_controller-Stored s t (reconcile_run r run));
}

-- A save of a state of the request that has the status it had.
pub save_request-InHand :
    (s t t' : BrokerRequestState)
    → t'.status ≡ t.status
    → (IsSameRequest s t → IsSameRequest s t')
    → Triple (InHand s t) (save_request t') (λ _. InHand s t') (Left s)
save_request-InHand s t t' status same = record {
  ends = λ root h.
      (with_fact (t'.status ≡ s.status) (t.status ≡ s.status) (λ e. status ∙ e)
          (save_request-Stored s t t' (same h.0.same))).ends
        root h;
}

-- A step of the controller leaves the state in hand, also if it raises.
in_controller-InHand :
    {A : Type 0} (s t : BrokerRequestState) (step : Exec ControllerRoot A)
    → Triple (InHand s t) (in_controller step) (λ _. InHand s t) (InHand s t)
unfolding in_controller
in_controller-InHand {A} s t step = record {
  ends = λ root h. ended (step root.controller).0 (step root.controller).1 root h;
}
  where
    ended :
        (o : Outcome A) (c : ControllerRoot) (root : BrokerRoot)
        → InHand s t root
        → Ends (λ _. InHand s t) (InHand s t) (o, record root { controller = c })
    ended (ok a) c root h = (record { there = h.0.there; same = h.0.same }, h.1)
    ended (raise e) c root h = (record { there = h.0.there; same = h.0.same }, h.1)

module _ (r : Runtime) (d : Driven) (s t : BrokerRequestState) where
  abbrev pub Tells : Exec BrokerRoot Turned → Type 0
  Tells m = Triple (InHand s t) m (Told r d.request_id s) (Left s)

  pub fails-Told : (e : Error) → Tells (fail e)
  fails-Told e = fail-Triple (Told r d.request_id s) e λ root h. (t, h.0)

  pub answers-Told : (code : String) → Tells (done (answered (failed_response d.request_id code)))
  answers-Told code =
      done-Triple (Told r d.request_id s) _ λ root h. (t, h.0, fails_with code refl h.1)

  pub changed-Stored :
      (t' : BrokerRequestState)
      → (IsSameRequest s t → IsSameRequest s t')
      → Triple (InHand s t) (save_request t') (λ _. IsStored s t') (Left s)
  changed-Stored t' same = record {
    ends = λ root h. (save_request-Stored s t t' (same h.0.same)).ends root h.0;
  }

  pub exhaust_request-Told : Tells (exhaust_request t)
  unfolding exhaust_request save_and_answer
  exhaust_request-Told =
      let t' = record t { status = "exhausted" } in
      and_then-Triple (λ _. IsStored s t') (Told r d.request_id s) (save_request t')
        (λ _. done (answered (exhausted_response t')))
        (changed-Stored t' λ h. still h refl refl refl refl refl)
        λ _. done-Triple (Told r d.request_id s) _ λ root h. (t', h, is_spent refl refl)

  dispatched-Told :
      (terminal_count : ℕ) (e : BackendExecutionRef) → Tells (dispatched d terminal_count t (ok e))
  unfolding dispatched
  dispatched-Told terminal_count e =
      let t' = record t {
        execution_id = some e.execution_id;
        last_dispatched_failure_count = pos terminal_count;
        dispatch_count = succ_ℤ t.dispatch_count;
      } in
      and_then-Triple (λ _. InHand s t') (Told r d.request_id s) (save_request t')
        (λ _. done (again t'))
        (save_request-InHand s t t' refl λ g. still g refl refl refl refl refl)
        λ _. done-Triple (Told r d.request_id s) (again t') λ root h. h

  dispatch_request-Told :
      (backend : Option Backend) (terminal_count : ℕ)
      → Tells (dispatch_request r d backend terminal_count t)
  unfolding dispatch_request
  dispatch_request-Told backend terminal_count =
      let runs : Triple (InHand s t)
          (in_controller (dispatch_private_wave r.str backend t.logical_run_id t.wave_id))
          (λ _. InHand s t) (InHand s t) =
        in_controller-InHand s t _ in
      try_then-Triple (λ _. InHand s t) (Told r d.request_id s) (InHand s t)
        (in_controller (dispatch_private_wave r.str backend t.logical_run_id t.wave_id))
        (dispatched d terminal_count t) runs (λ e. dispatched-Told terminal_count e)
        (dispatched_raise-Triple r d backend terminal_count t (InHand s t) (Left s)
          (Told r d.request_id s) answers-Told fails-Told)

  pub carry_out-Told :
      (backend : Option Backend) (terminal_count : ℕ) (decision : Decision)
      → Tells (carry_out r d backend terminal_count t decision)
  unfolding carry_out
  carry_out-Told backend terminal_count wait =
      done-Triple (Told r d.request_id s) (again t) λ root h. h
  carry_out-Told backend terminal_count exhaust = exhaust_request-Told
  carry_out-Told backend terminal_count dispatch = dispatch_request-Told backend terminal_count
