-- ===== src/Broker/Drive/Loop.antt =====
-- Every branch of a round, and the loop, within the budget.
use portable_batch_execution.A1Controller.{dispatch_private_wave, Backend}
use portable_batch_execution.A1Controller.History.{BackendExecutionRef}
use portable_batch_execution.A1Controller.Python.{IsRuntime, Runtime}
use portable_batch_execution.Base.{
  length, List, sym, subst, Error, ap, arith, ◌≡◌, ok, some, suc, Option, ◌≤◌, ◌<◌, ℕ, String,
}
use portable_batch_execution.Base.Exec.{reading, fail, done}
use portable_batch_execution.Base.Int.{succ_ℤ, pos}
use portable_batch_execution.Base.Triples.{
  reading-Triple, done-Triple, relax, try_then-Triple, Triple, and_then-Triple,
}
use portable_batch_execution.Broker.Attempts.{matching_terminal_attempts}
use portable_batch_execution.Broker.Drive.{
  with_output, output_at, backend_status, succeed_request, judge_attempts, again, answered, Driven,
  save_and_answer, dispatch_request, exhaust_request, carry_out, dispatched,
}
use portable_batch_execution.Broker.Drive.Budget.{
  reconcile_if_changed-Fits, Marked, save_request-Fits, Fits-le, Fits, Counts,
}
use portable_batch_execution.Broker.Drive.Decide.{dispatch, exhaust, wait, decide, Decision}
use portable_batch_execution.Broker.Drive.Reconcile.{reconcile_if_changed}
use portable_batch_execution.Broker.Drive.Rounds.{
  answered-After, failed-After, dispatch-Fits, decide-dispatch, again-After, Settled,
  NamesExecutions, After,
}
use portable_batch_execution.Broker.Drive.Rules.{
  after_status-Triple, judge_attempts-Triple, dispatched_raise-Triple,
}
use portable_batch_execution.Broker.Responses.{
  failed_response, succeeded_response, exhausted_response,
}
use portable_batch_execution.Broker.Root.{in_controller, save_request, BrokerRoot}
use portable_batch_execution.Contracts.Attempt.{ShardAttemptRecord}
use portable_batch_execution.Lifecycle.Records.{BrokerRequestState}

module _ (r : Runtime) (laws : IsRuntime r) (run_id wave_id : String) (limit : ℕ)
    (positive : 0 < limit) where
  abbrev pub Recorded : ℕ → BrokerRoot → Type 0
  Recorded n root = Fits r laws run_id wave_id n root

  module _ (n : ℕ) (s : BrokerRequestState) (c : Counts r laws run_id wave_id n s)
      (within : n ≤ limit) where
    to_limit : (root : BrokerRoot) → Recorded n root → Recorded limit root
    to_limit root f = Fits-le r laws run_id wave_id n limit root within f

    exhaust_request-After : After r laws run_id wave_id limit n s c (exhaust_request s)
    unfolding exhaust_request save_and_answer
    exhaust_request-After =
        let s' = record s { status = "exhausted" } in
        and_then-Triple (λ _. Recorded n) (Settled r laws run_id wave_id limit) (save_request s')
          (λ _. done (answered (exhausted_response s')))
          (relax (λ _. Recorded n) (save_request s') to_limit
            (save_request-Fits r laws run_id wave_id n s'))
          λ _. done-Triple (Settled r laws run_id wave_id limit) _ to_limit

    dispatched-After :
        (d : Driven) (terminal_count : ℕ) (e : BackendExecutionRef)
        → n < limit
        → Triple
            (Recorded (suc n))
            (dispatched d terminal_count s (ok e))
            (Settled r laws run_id wave_id limit)
            (Recorded limit)
    unfolding dispatched
    dispatched-After d terminal_count e room =
        let s' = record s {
          execution_id = some e.execution_id;
          last_dispatched_failure_count = pos terminal_count;
          dispatch_count = succ_ℤ s.dispatch_count;
        } in
        and_then-Triple (λ _. Recorded (suc n)) (Settled r laws run_id wave_id limit)
          (save_request s') (λ _. done (again s'))
          (relax (λ _. Recorded (suc n)) (save_request s')
            (λ root f. Fits-le r laws run_id wave_id (suc n) limit root (omega arith) f)
            (save_request-Fits r laws run_id wave_id (suc n) s'))
          λ _. done-Triple (Settled r laws run_id wave_id limit) (again s') λ root f. record {
            count = suc n;
            counts = record {
              counted = ap succ_ℤ c.counted;
              of_run = c.of_run;
              of_wave = c.of_wave;
            };
            within = omega arith;
            recorded = f;
          }

    ends-by : (e : Error) → After r laws run_id wave_id limit n s c (fail e)
    ends-by e = failed-After r laws run_id wave_id limit n s c e within

    answers-After :
        (d : Driven) (code : String)
        → After r laws run_id wave_id limit n s c
            (done (answered (failed_response d.request_id code)))
    answers-After d code = answered-After r laws run_id wave_id limit n s c _ within

    dispatch_request-After :
        (d : Driven) (backend : Backend) (terminal_count : ℕ)
        → NamesExecutions backend
        → n < limit
        → After r laws run_id wave_id limit n s c
            (dispatch_request r d (some backend) terminal_count s)
    unfolding dispatch_request
    dispatch_request-After d backend terminal_count names room =
        let sends : String → String → Type 0 = λ i w.
          Triple (Recorded n) (in_controller (dispatch_private_wave r.str (some backend) i w))
            (λ _. Recorded (suc n)) (Recorded n) in
        try_then-Triple (λ _. Recorded (suc n)) (Settled r laws run_id wave_id limit) (Recorded n)
          (in_controller (dispatch_private_wave r.str (some backend) s.logical_run_id s.wave_id))
          (dispatched d terminal_count s)
          (subst (λ i. sends i s.wave_id) (sym c.of_run)
            (subst (λ w. sends run_id w) (sym c.of_wave)
              (dispatch-Fits r laws run_id wave_id backend n names)))
          (λ e. dispatched-After d terminal_count e room)
          (dispatched_raise-Triple r d (some backend) terminal_count s (Recorded n) (Recorded limit)
            (Settled r laws run_id wave_id limit) (answers-After d) ends-by)

    carry_out-After :
        (d : Driven) (backend : Backend) (terminal_count : ℕ) (status : Option String)
        → NamesExecutions backend
        → (decision : Decision) → decide s terminal_count limit status ≡ decision
        → After r laws run_id wave_id limit n s c
            (carry_out r d (some backend) terminal_count s decision)
    unfolding carry_out
    carry_out-After d backend terminal_count status names wait h =
        again-After r laws run_id wave_id limit n s c within
    carry_out-After d backend terminal_count status names exhaust h = exhaust_request-After
    carry_out-After d backend terminal_count status names dispatch h =
        dispatch_request-After d backend terminal_count names
          (decide-dispatch s terminal_count limit status n positive c.counted h)

    succeed_request-After :
        (d : Driven) (attempts : List ShardAttemptRecord) (attempt : ShardAttemptRecord)
        → After r laws run_id wave_id limit n s c (succeed_request r d attempts s attempt)
    unfolding succeed_request
    succeed_request-After d attempts attempt =
        and_then-Triple (λ _. Recorded n) (Settled r laws run_id wave_id limit)
          (reading λ root. output_at r root attempt.output_refs) _
          (reading-Triple (λ _. Recorded n) _ (λ root _ f _. f) to_limit)
          λ o.
            let s' = with_output r s o in
            and_then-Triple (λ _. Recorded n) (Settled r laws run_id wave_id limit)
              (save_request s') _
              (relax (λ _. Recorded n) (save_request s') to_limit
                (save_request-Fits r laws run_id wave_id n s'))
              λ _.
                and_then-Triple (Marked r laws run_id wave_id n)
                  (Settled r laws run_id wave_id limit) (reconcile_if_changed r d.shard attempts s')
                  (λ s''. done (answered (succeeded_response r s'' o)))
                  (relax (Marked r laws run_id wave_id n)
                    (reconcile_if_changed r d.shard attempts s') to_limit
                    (reconcile_if_changed-Fits r laws run_id wave_id n d.shard attempts s'
                      (record { counted = c.counted; of_run = c.of_run; of_wave = c.of_wave })))
                  λ s''.
                    done-Triple (Settled r laws run_id wave_id limit) _ λ root f. to_limit root f.1

    pub judge_attempts-After :
        (d : Driven) (backend : Backend) (attempts : List ShardAttemptRecord)
        → NamesExecutions backend
        → d.policy.max_attempts_per_shard ≡ limit
        → After r laws run_id wave_id limit n s c (judge_attempts r d (some backend) attempts s)
    judge_attempts-After d backend attempts names same =
        judge_attempts-Triple r d (some backend) attempts s (Recorded n) (Recorded limit)
          (Settled r laws run_id wave_id limit) to_limit exhaust_request-After
          (succeed_request-After d attempts)
          (after_status-Triple r d (some backend)
            (length (matching_terminal_attempts d.shard attempts)) s (Recorded n) (Recorded limit)
            (Settled r laws run_id wave_id limit) (answers-After d) ends-by
            (λ status.
              carry_out-After d backend (length (matching_terminal_attempts d.shard attempts))
                status names
                (decide s (length (matching_terminal_attempts d.shard attempts))
                  d.policy.max_attempts_per_shard status)
                (ap (λ m. decide s (length (matching_terminal_attempts d.shard attempts)) m status)
                  (sym same)))
            (backend_status (some backend) s))
