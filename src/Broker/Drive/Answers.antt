-- ===== src/Broker/Drive/Answers.antt =====
-- A round that ends in success, a whole round, and the loop: what is answered is what is stored.
use portable_batch_execution.A1Controller.{ControllerRoot, Backend}
use portable_batch_execution.A1Controller.Python.{Runtime}
use portable_batch_execution.Base.{
  ok-injective, [], subst, none, >>=-returns, length, ◌∷◌, some, ok, ◌≡◌, Option, List, refl,
}
use portable_batch_execution.Base.Decimal.{after}
use portable_batch_execution.Base.Exec.{done, reading, and_then, Exec}
use portable_batch_execution.Base.Triples.{
  with_fact, knowing, reading-Triple, done-Triple, Triple, and_then-Triple,
}
use portable_batch_execution.Broker.Attempts.{matching_terminal_attempts}
use portable_batch_execution.Broker.Drive.{
  backend_status, again, answered, with_output, Turned, judge_attempts, Turn, go_on, drive_loop,
  one_round, others_act, succeed_request, Driven, output_at,
}
use portable_batch_execution.Broker.Drive.Agrees.{
  carry_out-Told, fails-Told, HasOutput, stored-KeepsMarks, answers-Told, exhaust_request-Told,
  Tells,
}
use portable_batch_execution.Broker.Drive.Reconcile.{reconcile_if_changed}
use portable_batch_execution.Broker.Drive.Rules.{
  reconcile_if_changed-Triple, after_status-Triple, judge_attempts-Triple,
}
use portable_batch_execution.Broker.Drive.Stored.{
  save_request-Stored, Replied, still, IsStored, Left, Told, InHand, succeeds,
}
use portable_batch_execution.Broker.Responses.{
  succeeded_response, BrokerExecuteResponse, AttemptOutput,
}
use portable_batch_execution.Broker.Root.{save_request, BrokerRoot}
use portable_batch_execution.Contracts.Artifact.{ArtifactRef}
use portable_batch_execution.Contracts.Attempt.{ShardAttemptRecord}
use portable_batch_execution.DataPlane.Artifacts.{read}
use portable_batch_execution.DataPlane.Attempts.{read_attempts}
use portable_batch_execution.Lifecycle.Records.{BrokerRequestState}

-- The digest of an output is that of its payload.
output_at-digest :
    (r : Runtime) (root : BrokerRoot) (refs : List ArtifactRef) (o : AttemptOutput)
    → output_at r root refs ≡ ok o
    → o.digest ≡ after "sha256:" (r.host.hexdigest o.payload)
unfolding output_at
output_at-digest r root [] o h = cc
output_at-digest r root (ref ∷ refs) o h =
    let (payload, found, h1) = >>=-returns (read r.host root.controller.plane.artifacts ref) _ h in
    subst (λ (x : AttemptOutput). x.digest ≡ after "sha256:" (r.host.hexdigest x.payload))
      (ok-injective _ o h1) refl

module _ (r : Runtime) (d : Driven) (s t : BrokerRequestState) where
  -- What follows once the output is read, with its digest.
  abbrev Reads : AttemptOutput → BrokerRoot → Type 0
  Reads o root = (o.digest ≡ after "sha256:" (r.host.hexdigest o.payload)) × InHand s t root

  with_output-Told :
      (attempts : List ShardAttemptRecord) (o : AttemptOutput)
      → o.digest ≡ after "sha256:" (r.host.hexdigest o.payload)
      → Tells r d s t (
          and_then (save_request (with_output r t o)) λ _.
            and_then
              (reconcile_if_changed r d.shard attempts (with_output r t o))
              λ t''. done (answered (succeeded_response r t'' o)))
  with_output-Told attempts o digest =
      let t' = with_output r t o in
      let Success : BrokerRequestState → BrokerRoot → Type 0 =
        λ u root. IsStored s u root × HasOutput o u in
      and_then-Triple (λ _. Success t') (Told r d.request_id s) (save_request t')
        (λ _.
          and_then (reconcile_if_changed r d.shard attempts t')
            λ t''. done (answered (succeeded_response r t'' o)))
        saved
        λ _.
          and_then-Triple Success (Told r d.request_id s)
            (reconcile_if_changed r d.shard attempts t')
            (λ t''. done (answered (succeeded_response r t'' o)))
            (reconcile_if_changed-Triple r (Left s) Success
              (stored-KeepsMarks r s (HasOutput o) λ u marker g. record {
                has_succeeded = g.has_succeeded;
                digest_stored = g.digest_stored;
                size_stored = g.size_stored;
                type_stored = g.type_stored;
              })
              d.shard attempts t')
            λ t''. done-Triple (Told r d.request_id s) _ λ root h. (
              t'',
              h.0,
              succeeds o refl h.1.has_succeeded h.1.digest_stored h.1.size_stored h.1.type_stored
                  digest,
            )
    where
      has_output : HasOutput o (with_output r t o)
      has_output = record {
        has_succeeded = refl;
        digest_stored = refl;
        size_stored = refl;
        type_stored = refl;
      }

      saved :
          Triple
            (InHand s t)
            (save_request (with_output r t o))
            (λ _ root. IsStored s (with_output r t o) root × HasOutput o (with_output r t o))
            (Left s)
      saved = record {
        ends = λ root h.
            (with_fact (HasOutput o (with_output r t o)) (t.status ≡ s.status) (λ _. has_output)
                (save_request-Stored s t (with_output r t o)
                  (still h.0.same refl refl refl refl refl))).ends
              root h;
      }

  succeed_request-Told :
      (attempts : List ShardAttemptRecord) (attempt : ShardAttemptRecord)
      → Tells r d s t (succeed_request r d attempts t attempt)
  unfolding succeed_request
  succeed_request-Told attempts attempt =
      and_then-Triple Reads (Told r d.request_id s)
        (reading λ root. output_at r root attempt.output_refs) _
        (reading-Triple Reads _ (λ root o h e. (output_at-digest r root attempt.output_refs o e, h))
          (λ root h. (t, h.0)))
        λ o.
          knowing (o.digest ≡ after "sha256:" (r.host.hexdigest o.payload)) (Told r d.request_id s)
            _ λ digest. with_output-Told attempts o digest

  judge_attempts-Told :
      (backend : Option Backend) (attempts : List ShardAttemptRecord)
      → Tells r d s t (judge_attempts r d backend attempts t)
  judge_attempts-Told backend attempts =
      let terminal_count = length (matching_terminal_attempts d.shard attempts) in
      judge_attempts-Triple r d backend attempts t (InHand s t) (Left s) (Told r d.request_id s)
        (λ root h. (t, h.0)) (exhaust_request-Told r d s t) (succeed_request-Told attempts)
        (after_status-Triple r d backend terminal_count t (InHand s t) (Left s)
          (Told r d.request_id s) (answers-Told r d s t) (fails-Told r d s t)
          (λ status. carry_out-Told r d s t backend terminal_count _) (backend_status backend t))

module _ (r : Runtime) (d : Driven) (s : BrokerRequestState) where
  one_round-Told :
      (t : BrokerRequestState) (backend : Option Backend) → Tells r d s t (one_round r d backend t)
  unfolding one_round
  one_round-Told t backend =
      and_then-Triple (λ _. InHand s t) (Told r d.request_id s)
        (reading λ root. read_attempts root.controller.plane t.logical_run_id) _
        (reading-Triple (λ _. InHand s t) _ (λ root _ h _. h) (λ root h. (t, h.0)))
        λ attempts.
          and_then-Triple (InHand s) (Told r d.request_id s)
            (reconcile_if_changed r d.shard attempts t)
            (λ t'. judge_attempts r d backend attempts t')
            (reconcile_if_changed-Triple r (Left s) (InHand s)
              (stored-KeepsMarks r s (λ u. u.status ≡ s.status) λ u marker g. g) d.shard attempts t)
            λ t'. judge_attempts-Told r d s t' backend attempts

  others_act-InHand :
      (t : BrokerRequestState) (others : ControllerRoot → ControllerRoot)
      → Triple (InHand s t) (others_act others) (λ _. InHand s t) (Left s)
  unfolding others_act
  others_act-InHand t others = record {
    ends = λ root h. (record { there = h.0.there; same = h.0.same }, h.1);
  }

  go_on-Replied :
      (next : BrokerRequestState → Exec BrokerRoot (Option BrokerExecuteResponse))
      → ((t : BrokerRequestState)
          → Triple (InHand s t) (next t) (Replied r d.request_id s) (Left s))
      → (turned : Turned)
      → Triple
          (Told r d.request_id s turned)
          (go_on next turned)
          (Replied r d.request_id s)
          (Left s)
  unfolding go_on
  go_on-Replied next ih (answered answer) =
      done-Triple (Replied r d.request_id s) (some answer) λ root h. h
  go_on-Replied next ih (again t) = ih t

  pub drive_loop-Replied :
      (turns : List Turn) (t : BrokerRequestState)
      → Triple (InHand s t) (drive_loop r d turns t) (Replied r d.request_id s) (Left s)
  unfolding drive_loop
  drive_loop-Replied [] t = done-Triple (Replied r d.request_id s) none λ root h. (t, h)
  drive_loop-Replied (turn ∷ turns) t =
      and_then-Triple (λ _. InHand s t) (Replied r d.request_id s) (others_act turn.others) _
        (others_act-InHand t turn.others)
        λ _.
          and_then-Triple (Told r d.request_id s) (Replied r d.request_id s)
            (one_round r d (some turn.backend) t) (λ turned. go_on (drive_loop r d turns) turned)
            (one_round-Told t (some turn.backend))
            λ turned. go_on-Replied (drive_loop r d turns) (drive_loop-Replied turns) turned
