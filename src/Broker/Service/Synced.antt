-- ===== src/Broker/Service/Synced.antt =====
-- The sync of a request's dispatches with the controller's keeps them within a limit.
use portable_batch_execution.A1Controller.{read_wave_dispatch_history}
use portable_batch_execution.A1Controller.History.{DispatchRecord}
use portable_batch_execution.A1Controller.Python.{IsRuntime}
use portable_batch_execution.Base.{
  raise, [], not, ◌∙◌, ok-injective, sym, subst, suc, Outcome, length, arith, ok, ◌∷◌, List, ◌≤◌,
  ◌≡◌, ℕ, refl,
}
use portable_batch_execution.Base.Exec.{done, and_then, Exec, reading}
use portable_batch_execution.Base.Int.{ltb_ℤ, pos}
use portable_batch_execution.Base.Triples.{
  if-Triple, Ends, reading-Triple, and_then-Triple, done-Triple, Triple,
}
use portable_batch_execution.Broker.Drive.Budget.{
  save_request-dispatch, read_history-of_dispatch, InBudget, Fits, Counts,
}
use portable_batch_execution.Broker.Root.{save_request, BrokerRoot}
use portable_batch_execution.Broker.Service.{sync_dispatch, synced, sync_history, Service}
use portable_batch_execution.Contracts.Attempt.{ShardAttemptRecord}
use portable_batch_execution.Contracts.Shard.{ShardSpec}
use portable_batch_execution.DataPlane.Attempts.{read_attempts}
use portable_batch_execution.Lifecycle.Records.{BrokerRequestState}

module _ (v : Service) (laws : IsRuntime v.runtime) (s : BrokerRequestState) (limit : ℕ) (n : ℕ)
    (counted : s.dispatch_count ≡ pos n) (within : n ≤ limit) where
  abbrev Kept : ℕ → BrokerRoot → Type 0
  Kept m root = Fits v.runtime laws s.logical_run_id s.wave_id m root

  abbrev Ready : BrokerRequestState → BrokerRoot → Type 0
  Ready s' root = InBudget v.runtime laws s.logical_run_id s.wave_id limit s' root

  counts : Counts v.runtime laws s.logical_run_id s.wave_id n s
  counts = record { counted = counted; of_run = refl; of_wave = refl }

  -- The wave's history as it was read.
  abbrev HasRead : List DispatchRecord → BrokerRoot → Type 0
  HasRead history root =
      (read_wave_dispatch_history v.runtime.str root.controller s.logical_run_id s.wave_id
        ≡ ok history)
      × (length history ≤ limit)

  synced-Ready :
      (shard : ShardSpec) (first : DispatchRecord) (others : List DispatchRecord)
      (attempts : List ShardAttemptRecord) (root : BrokerRoot)
      → HasRead (first ∷ others) root
      → Ready (synced v s shard first others attempts) root
  unfolding synced
  synced-Ready shard first others attempts root (reads, fits) = record {
    count = suc (length others);
    counts = record { counted = refl; of_run = refl; of_wave = refl };
    within = fits;
    recorded = record { history = first ∷ others; reads = reads; fits = omega arith };
  }

  save-HasRead :
      (history : List DispatchRecord) (s' : BrokerRequestState)
      → Triple (HasRead history) (save_request s') (λ _. HasRead history) (Kept limit)
  save-HasRead history s' = record {
    ends = λ root h.
        ended (save_request s' root).0 root (save_request s' root).1 (save_request-dispatch s' root)
          h;
  }
    where
      ended :
          (o : Outcome (Unit {0})) (root t : BrokerRoot)
          → root.controller.dispatch ≡ t.controller.dispatch
          → HasRead history root
          → Ends (λ _. HasRead history) (Kept limit) (o, t)
      ended (ok _) root t same (reads, fits) = (
        sym (
              read_history-of_dispatch v.runtime.str root.controller t.controller s.logical_run_id
                s.wave_id same)
            ∙ reads,
        fits,
      )
      ended (raise e) root t same (reads, fits) = record {
        history = history;
        reads =
            sym (
              read_history-of_dispatch v.runtime.str root.controller t.controller s.logical_run_id
                s.wave_id same)
            ∙ reads;
        fits = fits;
      }

  of_HasRead :
      (history : List DispatchRecord) (root : BrokerRoot) → HasRead history root → Kept limit root
  of_HasRead history root (reads, fits) = record { history = history; reads = reads; fits = fits }

  sync_history-Ready :
      (shard : ShardSpec) (history : List DispatchRecord)
      → Triple (HasRead history) (sync_history v s shard history) Ready (Kept limit)
  unfolding sync_history
  sync_history-Ready shard [] = done-Triple Ready s λ root h. record {
    count = n;
    counts = counts;
    within = within;
    recorded = record { history = []; reads = h.0; fits = omega arith };
  }
  sync_history-Ready shard (first ∷ others) =
      let longer = ltb_ℤ s.dispatch_count (pos (suc (length others))) in
      let whole : Exec BrokerRoot BrokerRequestState =
        and_then (reading λ root. read_attempts root.controller.plane s.logical_run_id) λ attempts.
          and_then (save_request (synced v s shard first others attempts))
            λ _. done (synced v s shard first others attempts) in
      if-Triple Ready (not longer) (done s) whole
        (λ h. done-Triple Ready s λ root there. record {
          count = n;
          counts = counts;
          within = within;
          recorded = record {
            history = first ∷ others;
            reads = there.0;
            fits = ground (arith, h, counted);
          };
        })
        λ _.
          and_then-Triple (λ _. HasRead (first ∷ others)) Ready
            (reading λ root. read_attempts root.controller.plane s.logical_run_id) _
            (reading-Triple (λ _. HasRead (first ∷ others)) _ (λ root _ h _. h)
              (of_HasRead (first ∷ others)))
            λ attempts.
              and_then-Triple (λ _. HasRead (first ∷ others)) Ready
                (save_request (synced v s shard first others attempts))
                (λ _. done (synced v s shard first others attempts))
                (save-HasRead (first ∷ others) (synced v s shard first others attempts))
                λ _.
                  done-Triple Ready (synced v s shard first others attempts)
                    (synced-Ready shard first others attempts)

  -- The state that the sync returns and the files agree, within the limit.
  pub sync_dispatch-Ready :
      (shard : ShardSpec) → Triple (Kept limit) (sync_dispatch v s shard) Ready (Kept limit)
  unfolding sync_dispatch
  sync_dispatch-Ready shard =
      and_then-Triple HasRead Ready
        (reading λ root.
          read_wave_dispatch_history v.runtime.str root.controller s.logical_run_id s.wave_id)
        (λ history. sync_history v s shard history)
        (reading-Triple HasRead _
          (λ root history f e. (
            e,
            subst (λ h. length h ≤ limit) (ok-injective f.history history (sym f.reads ∙ e)) f.fits,
          ))
          (λ root f. f))
        λ history. sync_history-Ready shard history
