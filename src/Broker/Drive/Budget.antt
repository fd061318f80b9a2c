-- ===== src/Broker/Drive/Budget.antt =====
-- The dispatches of a request: the loop never dispatches its wave more often than its job allows.
use portable_batch_execution.A1Controller.{
  reconcile_checks, ControllerRoot, read_dispatch_state, read_wave_dispatch_history, reconcile_run,
}
use portable_batch_execution.A1Controller.History.{DispatchRecord}
use portable_batch_execution.A1Controller.Python.{IsRuntime, Runtime}
use portable_batch_execution.Base.{
  some, inr, inl, raise, ◌∙◌, Outcome-cases, Outcome, sym, refl, length, ok, arith, ◌≤◌, ◌≡◌, List,
  ℕ, String,
}
use portable_batch_execution.Base.Int.{pos}
use portable_batch_execution.Base.Triples.{beside, knowing, weaken, Ends, Triple}
use portable_batch_execution.Broker.Drive.Reconcile.{reconcile_if_changed}
use portable_batch_execution.Broker.Drive.Rules.{reconcile_if_changed-Triple, KeepsMarks}
use portable_batch_execution.Broker.Root.{
  opaque_request_id, put_request, BrokerRoot, in_controller, save_request,
}
use portable_batch_execution.Contracts.Attempt.{ShardAttemptRecord}
use portable_batch_execution.Contracts.Job.{Param}
use portable_batch_execution.Contracts.Shard.{ShardSpec}
use portable_batch_execution.Lifecycle.Records.{BrokerRequestState}

pub read_history-of_dispatch :
    (str : Param → String) (a b : ControllerRoot) (run_id wave_id : String)
    → a.dispatch ≡ b.dispatch
    → read_wave_dispatch_history str a run_id wave_id
      ≡ read_wave_dispatch_history str b run_id wave_id
unfolding read_wave_dispatch_history read_dispatch_state
read_history-of_dispatch str a b run_id wave_id same = rw same refl

pub save_request-dispatch :
    (s : BrokerRequestState) (root : BrokerRoot)
    → root.controller.dispatch ≡ (save_request s root).1.controller.dispatch
unfolding save_request put_request
save_request-dispatch s root = elim (Outcome-cases (opaque_request_id s.request_id)) [
  | inl (_, e) ↦ rw (e, save_request) refl
  | inr (_, e) ↦ rw (e, save_request) refl
]

pub reconcile_run-dispatch :
    (r : Runtime) (run : String) (c : ControllerRoot)
    → c.dispatch ≡ (reconcile_run r run c).1.dispatch
unfolding reconcile_run
reconcile_run-dispatch r run c = elim (Outcome-cases (reconcile_checks c run)) [
  | inl (_, e) ↦ rw (e, reconcile_run) refl
  | inr (_, e) ↦ rw (e, reconcile_run) refl
]

module _ (r : Runtime) (laws : IsRuntime r) (run_id wave_id : String) where
  -- The wave's history has `n` dispatches at most.
  pub record Fits (n : ℕ) (root : BrokerRoot) : Type 0 where
    pub history : List DispatchRecord
    pub reads : read_wave_dispatch_history r.str root.controller run_id wave_id ≡ ok history
    pub fits : length history ≤ n

  -- The state is of the wave, and counts `n` dispatches.
  pub record Counts (n : ℕ) (s : BrokerRequestState) : Type 0 where
    pub counted : s.dispatch_count ≡ pos n
    pub of_run : s.logical_run_id ≡ run_id
    pub of_wave : s.wave_id ≡ wave_id

  -- The state and the files agree, within the limit.
  pub record InBudget (limit : ℕ) (s : BrokerRequestState) (root : BrokerRoot) : Type 0 where
    pub count : ℕ
    pub counts : Counts count s
    pub within : count ≤ limit
    pub recorded : Fits count root

  pub Fits-le : (m n : ℕ) (root : BrokerRoot) → m ≤ n → Fits m root → Fits n root
  Fits-le m n root h f = record { history = f.history; reads = f.reads; fits = omega arith }

  Fits-same :
      (n : ℕ) (root t : BrokerRoot)
      → root.controller.dispatch ≡ t.controller.dispatch
      → Fits n root
      → Fits n t
  Fits-same n root t same f = record {
    history = f.history;
    reads =
        sym (read_history-of_dispatch r.str root.controller t.controller run_id wave_id same)
        ∙ f.reads;
    fits = f.fits;
  }

  same_dispatch-Ends :
      {A : Type 0} (n : ℕ) (o : Outcome A) (root t : BrokerRoot)
      → root.controller.dispatch ≡ t.controller.dispatch
      → Fits n root
      → Ends (λ _. Fits n) (Fits n) (o, t)
  same_dispatch-Ends n (ok a) root t same f = Fits-same n root t same f
  same_dispatch-Ends n (raise e) root t same f = Fits-same n root t same f

  pub save_request-Fits :
      (n : ℕ) (s : BrokerRequestState) → Triple (Fits n) (save_request s) (λ _. Fits n) (Fits n)
  save_request-Fits n s = record {
    ends = λ root f.
        same_dispatch-Ends n (save_request s root).0 root (save_request s root).1
          (save_request-dispatch s root) f;
  }

  reconcile_run-Fits :
      (n : ℕ) (run : String)
      → Triple (Fits n) (in_controller (reconcile_run r run)) (λ _. Fits n) (Fits n)
  unfolding in_controller
  reconcile_run-Fits n run = record {
    ends = λ root f.
        same_dispatch-Ends n (reconcile_run r run root.controller).0 root
          (record root { controller = (reconcile_run r run root.controller).1 })
          (reconcile_run-dispatch r run root.controller) f;
  }

  -- What a round of reconciliation ends with: the state with another marker at most.
  abbrev pub Marked : ℕ → BrokerRequestState → BrokerRoot → Type 0
  Marked n s root = Counts n s × Fits n root

  Marked-KeepsMarks : (n : ℕ) → KeepsMarks r (Fits n) (Marked n)
  Marked-KeepsMarks n = record {
    lower = λ s root m. m.1;
    marks = λ s marker. knowing (Counts n s) _ _ λ c.
        beside (Counts n (record s { last_reconciled_attempt_marker = some marker }))
          (record { counted = c.counted; of_run = c.of_run; of_wave = c.of_wave })
          (save_request-Fits n _);
    runs = λ s run. knowing (Counts n s) _ _ λ c. beside (Counts n s) c (reconcile_run-Fits n run);
  }

  pub reconcile_if_changed-Fits :
      (n : ℕ) (shard : ShardSpec) (attempts : List ShardAttemptRecord) (s : BrokerRequestState)
      → Counts n s
      → Triple (Fits n) (reconcile_if_changed r shard attempts s) (Marked n) (Fits n)
  reconcile_if_changed-Fits n shard attempts s c =
      weaken (Marked n) (reconcile_if_changed r shard attempts s) (λ root f. (c, f))
        (reconcile_if_changed-Triple r (Fits n) (Marked n) (Marked-KeepsMarks n) shard attempts s)
