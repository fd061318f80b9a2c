-- ===== src/Broker/Deliveries/Delivered.antt =====
-- From the drive of a request to the commit of its delivery.
use portable_batch_execution.A1Controller.Python.{Runtime}
use portable_batch_execution.Base.{
  eq_refl, ◌∙◌, ap, subst, eq_iff, String, true, ◌==◌, some, none, ok, ◌≡◌, Option, refl,
}
use portable_batch_execution.Base.Dict.{get-put, get, put}
use portable_batch_execution.Base.Exec.{done, try_then, reading, and_then}
use portable_batch_execution.Base.Int.{eq_ℤ_iff, eq_ℤ, ℤ}
use portable_batch_execution.Base.Triples.{Ends}
use portable_batch_execution.Broker.Config.{authorize, BrokerConfig}
use portable_batch_execution.Broker.Deliveries.{
  output_matches, on_saved, commit_of, commit_for, may_save, delivery_of, save_after, save_checks,
  save_new, handle_delivery_commit, BrokerDeliveryCommitRequest,
}
use portable_batch_execution.Broker.Drive.Stored.{
  IsSameRequest, Left, Replied, Agrees, Answered, fails_with, is_spent, succeeds,
}
use portable_batch_execution.Broker.Responses.{
  succeeded_response, failed_response, exhausted_response, AnswerStatus, BrokerExecuteResponse,
  AttemptOutput, accepted,
}
use portable_batch_execution.Broker.Root.{load_request, opaque_request_id, BrokerRoot}
use portable_batch_execution.Broker.Service.{drive_to_terminal, Service}
use portable_batch_execution.Broker.Service.Answered.{drive_to_terminal-agrees}
use portable_batch_execution.Contracts.Datetime.{Datetime}
use portable_batch_execution.Contracts.Manifest.{RunManifest}
use portable_batch_execution.DataPlane.Attempts.{text_option_eq}
use portable_batch_execution.DataPlane.Manifests.{read_manifest}
use portable_batch_execution.Lifecycle.Records.{RequestBinding, BrokerRequestState}
use portable_batch_execution.Lifecycle.Root.{load_record, holding}

module _ (r : Runtime) (config : BrokerConfig) (peer_uid : ℤ) (now : Datetime)
    (commit : BrokerDeliveryCommitRequest) (t : BrokerRequestState) (m : Option RunManifest)
    (root : BrokerRoot) where
  -- The state once the delivery is on file.
  abbrev delivered_root : BrokerRoot
  delivered_root = record root {
    deliveries =
        put root.deliveries commit.request_id (holding (delivery_of r peer_uid now commit t m));
  }

  saves :
      opaque_request_id commit.request_id ≡ ok commit.request_id
      → get root.deliveries commit.request_id ≡ none
      → save_new r (ok tt) (delivery_of r peer_uid now commit t m) root ≡ (ok tt, delivered_root)
  unfolding save_new save_checks save_after may_save delivery_of
  saves named fresh = rw (named, save_checks, fresh, may_save) refl

  accepts :
      opaque_request_id commit.request_id ≡ ok commit.request_id
      → get root.deliveries commit.request_id ≡ none
      → load_request root commit.request_id ≡ ok (some t)
      → (t.status == "succeeded") ≡ true
      → output_matches r t commit ≡ true
      → authorize config peer_uid t.binding.pack t.binding.operation ≡ true
      → read_manifest root.controller.plane t.logical_run_id ≡ ok m
      → handle_delivery_commit r config (ok tt) peer_uid now commit root
        ≡ (ok (record { request_id = commit.request_id; status = accepted }), delivered_root)
  unfolding handle_delivery_commit and_then reading commit_for commit_of try_then on_saved done
  accepts named fresh loaded succeeded same allowed reads =
      rw
        (
          loaded,
          handle_delivery_commit,
          succeeded,
          commit_of,
          same,
          allowed,
          reads,
          saves named fresh,
        )
        refl

-- What is answered of a success can be committed: the commit names the output that is stored.
output_matches-answered :
    (r : Runtime) (t : BrokerRequestState) (commit : BrokerDeliveryCommitRequest)
    (o : AttemptOutput)
    → t.output_sha256 ≡ some o.digest
    → t.output_size_bytes ≡ some o.size_bytes
    → some commit.output_sha256 ≡ some o.digest
    → some commit.output_size_bytes ≡ some o.size_bytes
    → output_matches r t commit ≡ true
unfolding output_matches text_option_eq
output_matches-answered r t commit o digest size same_digest same_size =
    let a : (o.digest == commit.output_sha256) ≡ true =
      (eq_iff o.digest commit.output_sha256).1 (cc) in
    let b : eq_ℤ o.size_bytes commit.output_size_bytes ≡ true =
      (eq_ℤ_iff o.size_bytes commit.output_size_bytes).1 (cc) in
    rw (digest, output_matches, size, a, b) refl

success_output :
    (r : Runtime) (request_id : String) (s t : BrokerRequestState) (answer : BrokerExecuteResponse)
    → answer.status ≡ AnswerStatus.succeeded
    → Agrees r request_id s t answer
    → (o : AttemptOutput) × (answer ≡ succeeded_response r t o)
      × (t.status ≡ "succeeded")
      × (t.output_sha256 ≡ some o.digest)
      × (t.output_size_bytes ≡ some o.size_bytes)
unfolding exhausted_response failed_response
success_output r request_id s t answer won (is_spent e spent) =
    cc (ap (λ (a : BrokerExecuteResponse). a.status) e)
success_output r request_id s t answer won (fails_with code e kept) =
    cc (ap (λ (a : BrokerExecuteResponse). a.status) e)
success_output r request_id s t answer won (succeeds o e succeeded digest size type of_payload) =
    (o, e, succeeded, digest, size)

loads :
    (id : String) (t : BrokerRequestState) (root : BrokerRoot)
    → opaque_request_id id ≡ ok id
    → id ≡ t.request_id
    → get root.requests t.request_id ≡ some (holding t)
    → load_request root id ≡ ok (some t)
unfolding load_request load_record
loads id t root named same there =
    rw (named, load_request)
      (ap (load_record {A = BrokerRequestState}) (ap (get root.requests) same ∙ there))

-- The delivery that is on file is the same for each state of the request.
delivered_there :
    (r : Runtime) (peer_uid : ℤ) (now : Datetime) (commit : BrokerDeliveryCommitRequest)
    (s t : BrokerRequestState) (m : Option RunManifest) (root : BrokerRoot)
    → IsSameRequest s t
    → get
        (put root.deliveries commit.request_id (holding (delivery_of r peer_uid now commit t m)))
        commit.request_id
      ≡ some (holding (delivery_of r peer_uid now commit s m))
unfolding delivery_of
delivered_there r peer_uid now commit s t m root same =
    get-put root.deliveries commit.request_id commit.request_id
      (holding (delivery_of r peer_uid now commit t m))
    ∙ rw (eq_refl commit.request_id) (cc (same.same_run, same.same_binding))

module _ (v : Service) (s : BrokerRequestState) (request_id : String) (root after : BrokerRoot)
    (answer : BrokerExecuteResponse) where
  -- A drive from the stored state that answers with a success leaves the output it answers in the
  -- file of the request.
  stored_success :
      get root.requests s.request_id ≡ some (holding s)
      → drive_to_terminal v request_id s root ≡ (ok (some answer), after)
      → Answered v.runtime request_id s answer after
  stored_success there h =
      subst (Ends (Replied v.runtime request_id s) (Left s)) h
        (drive_to_terminal-agrees v s request_id root there)

  module _ (peer_uid : ℤ) (now : Datetime) (commit : BrokerDeliveryCommitRequest)
      (m : Option RunManifest) where
    -- A drive of a stored request answers with a success, and a peer that the operation is allowed to
    -- commits the output answered, of the identifier answered: where the identifier is opaque, the
    -- lock is free, the run's manifest can be read and no delivery is on file, the commit is accepted
    -- and the delivery of that output to that peer is on file.
    pub drive_to_terminal-delivers :
        get root.requests s.request_id ≡ some (holding s)
        → drive_to_terminal v request_id s root ≡ (ok (some answer), after)
        → answer.status ≡ AnswerStatus.succeeded
        → commit.request_id ≡ answer.request_id
        → some commit.output_sha256 ≡ answer.output_sha256
        → some commit.output_size_bytes ≡ answer.output_size_bytes
        → opaque_request_id commit.request_id ≡ ok commit.request_id
        → authorize v.config peer_uid s.binding.pack s.binding.operation ≡ true
        → read_manifest after.controller.plane s.logical_run_id ≡ ok m
        → get after.deliveries commit.request_id ≡ none
        → (later : BrokerRoot) × (handle_delivery_commit v.runtime v.config
              (ok tt)
              peer_uid
              now
              commit
              after
            ≡ (ok (record { request_id = commit.request_id; status = accepted }), later))
          × (get later.deliveries commit.request_id
              ≡ some (holding (delivery_of v.runtime peer_uid now commit s m)))
    unfolding succeeded_response
    drive_to_terminal-delivers there h won same_id same_digest same_size named allowed reads fresh =
        let (t, stored, agrees) = stored_success there h in
        let (o, e, succeeded, digest, size) =
          success_output v.runtime request_id s t answer won agrees in
        let of_request : commit.request_id ≡ t.request_id =
          same_id ∙ ap (λ (a : BrokerExecuteResponse). a.request_id) e in
        let matches =
          output_matches-answered v.runtime t commit o digest size
            (same_digest ∙ ap (λ (a : BrokerExecuteResponse). a.output_sha256) e)
            (same_size ∙ ap (λ (a : BrokerExecuteResponse). a.output_size_bytes) e) in
        let done_so =
          accepts v.runtime v.config peer_uid now commit t m after named fresh
            (loads commit.request_id t after named of_request stored.there)
            (ap (λ x. x == "succeeded") succeeded) matches
            (subst (λ (b : RequestBinding). authorize v.config peer_uid b.pack b.operation ≡ true)
              stored.same.same_binding allowed)
            (subst (λ run. read_manifest after.controller.plane run ≡ ok m) stored.same.same_run
              reads) in
        (
          delivered_root v.runtime v.config peer_uid now commit t m after,
          done_so,
          delivered_there v.runtime peer_uid now commit s t m after stored.same,
        )
