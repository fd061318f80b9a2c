-- ===== src/Broker/Deliveries/Accepted.antt =====
-- A delivery commit that is accepted.
use portable_batch_execution.A1Controller.Python.{Runtime}
use portable_batch_execution.Base.{
  sym, subst, eq_iff, backend_transport_error, backend_api_error, lock_error, lock_timeout,
  index_error, file_not_found, none, overflow_error, attribute_error, ◌⊎◌, type_error,
  revision_conflict, key_error, runtime_error, inl, value_error, true, inr, ◌∙◌, raise,
  ok-injective, ◌==◌, ap, Bool-cases, some, ok, Option, ◌≡◌, String, Outcome, refl,
}
use portable_batch_execution.Base.Dict.{put, get}
use portable_batch_execution.Base.Exec.{read_then-returns, try_then, fail, done}
use portable_batch_execution.Base.Int.{ℤ}
use portable_batch_execution.Broker.Config.{authorize, BrokerConfig}
use portable_batch_execution.Broker.Deliveries.{
  created_of, save_new, output_matches, commit_for, refuse, delivery_of, commit_of,
  handle_delivery_commit, on_saved, BrokerDeliveryCommitRequest,
}
use portable_batch_execution.Broker.Deliveries.Commits.{save_new-stores}
use portable_batch_execution.Broker.Deliveries.Transport.{
  IsTransport, same_transport-IsTransport, delivery_of-IsTransport, output_matches-same,
}
use portable_batch_execution.Broker.Responses.{accepted, BrokerDeliveryCommitResponse}
use portable_batch_execution.Broker.Root.{load_request, BrokerRoot}
use portable_batch_execution.Contracts.Datetime.{Datetime}
use portable_batch_execution.Contracts.Manifest.{RunManifest}
use portable_batch_execution.DataPlane.Manifests.{read_manifest}
use portable_batch_execution.Lifecycle.Records.{DeliveryRecord, BrokerRequestState}
use portable_batch_execution.Lifecycle.Root.{holding}

-- What an accepted commit says of the request, and what is kept of it: a record that was not there, of
-- this time, or the one that was there.
pub record IsDelivered (r : Runtime) (config : BrokerConfig) (peer_uid : ℤ) (now : Datetime)
    (commit : BrokerDeliveryCommitRequest) (root after : BrokerRoot) : Type 0 where
  pub request : BrokerRequestState
  pub manifest : Option RunManifest
  pub kept : DeliveryRecord
  pub loaded : load_request root commit.request_id ≡ ok (some request)
  pub has_succeeded : request.status ≡ "succeeded"
  pub same_digest : request.output_sha256 ≡ some commit.output_sha256
  pub same_size : request.output_size_bytes ≡ some commit.output_size_bytes
  pub is_allowed : authorize config peer_uid request.binding.pack request.binding.operation ≡ true
  pub of_manifest : read_manifest root.controller.plane request.logical_run_id ≡ ok manifest
  pub transport : IsTransport r peer_uid commit request manifest kept
  pub is_stored : get after.deliveries commit.request_id ≡ some (holding kept)
  pub is_this :
      ((get root.deliveries commit.request_id ≡ none)
        × (kept.delivered_at ≡ now)
        × (kept.created_at ≡ created_of manifest)
        × (after
            ≡ record root { deliveries = put root.deliveries commit.request_id (holding kept) }))
      ⊎ ((get root.deliveries commit.request_id ≡ some (holding kept)) × (after ≡ root))

module _ (r : Runtime) (commit : BrokerDeliveryCommitRequest) where
  not_refused :
      (code : String) (root after : BrokerRoot) (resp : BrokerDeliveryCommitResponse)
      → done (refuse r commit code) root ≡ (ok resp, after)
      → resp.status ≡ accepted
      → ⊥
  unfolding done
  not_refused code root after resp h accepts =
      let same = ok-injective (refuse r commit code) resp (ap (λ p. p.0) h) in
      cc (ap (λ (x : BrokerDeliveryCommitResponse). x.status) same ∙ accepts)

  on_saved-accepted :
      (o : Outcome (Unit {0})) (root after : BrokerRoot) (resp : BrokerDeliveryCommitResponse)
      → on_saved r commit o root ≡ (ok resp, after)
      → resp.status ≡ accepted
      → (o ≡ ok tt) × (root ≡ after)
  unfolding on_saved done fail
  on_saved-accepted (ok tt) root after resp h accepts = (refl, ap (λ p. p.1) h)
  on_saved-accepted (raise (value_error why)) root after resp h accepts =
      absurd (not_refused "delivery_commit_conflict" root after resp h accepts)
  on_saved-accepted (raise (runtime_error why)) root after resp h accepts = cc
  on_saved-accepted (raise (key_error why)) root after resp h accepts = cc
  on_saved-accepted (raise (revision_conflict why)) root after resp h accepts = cc
  on_saved-accepted (raise type_error) root after resp h accepts = cc
  on_saved-accepted (raise attribute_error) root after resp h accepts = cc
  on_saved-accepted (raise overflow_error) root after resp h accepts = cc
  on_saved-accepted (raise file_not_found) root after resp h accepts = cc
  on_saved-accepted (raise index_error) root after resp h accepts = cc
  on_saved-accepted (raise lock_timeout) root after resp h accepts = cc
  on_saved-accepted (raise lock_error) root after resp h accepts = cc
  on_saved-accepted (raise backend_api_error) root after resp h accepts = cc
  on_saved-accepted (raise backend_transport_error) root after resp h accepts = cc

module _ (r : Runtime) (config : BrokerConfig) (lock : Outcome (Unit {0})) (peer_uid : ℤ)
    (now : Datetime) (commit : BrokerDeliveryCommitRequest) where
  saved-IsDelivered :
      (s : BrokerRequestState) (manifest : Option RunManifest) (root after : BrokerRoot)
      (resp : BrokerDeliveryCommitResponse)
      → load_request root commit.request_id ≡ ok (some s)
      → (s.status == "succeeded") ≡ true
      → output_matches r s commit ≡ true
      → authorize config peer_uid s.binding.pack s.binding.operation ≡ true
      → read_manifest root.controller.plane s.logical_run_id ≡ ok manifest
      → try_then
          (save_new r lock (delivery_of r peer_uid now commit s manifest))
          (on_saved r commit)
          root
        ≡ (ok resp, after)
      → resp.status ≡ accepted
      → IsDelivered r config peer_uid now commit root after
  unfolding try_then delivery_of
  saved-IsDelivered s manifest root after resp loaded succeeded same allowed read h accepts =
      let d = delivery_of r peer_uid now commit s manifest in
      let wrote = save_new r lock d root in
      let (is_ok, same_root) = on_saved-accepted r commit wrote.0 wrote.1 after resp h accepts in
      let (kept, there, which) =
        save_new-stores r lock d root after (λ i. (is_ok i, same_root i)) in
      let (digest, size) = output_matches-same r s commit same in
      record {
        request = s;
        manifest = manifest;
        kept = kept;
        loaded = loaded;
        has_succeeded = (eq_iff s.status "succeeded").0 succeeded;
        same_digest = digest;
        same_size = size;
        is_allowed = allowed;
        of_manifest = read;
        transport = elim which [
          | inl (fresh, this, rest) ↦
              subst (IsTransport r peer_uid commit s manifest) (sym this)
                (delivery_of-IsTransport r peer_uid now commit s manifest)
          | inr (old, alike, rest) ↦
              same_transport-IsTransport r peer_uid now commit s manifest kept alike
        ];
        is_stored = there;
        is_this = elim which [
          | inl (fresh, this, rest) ↦ inl (
            fresh,
            ap (λ (x : DeliveryRecord). x.delivered_at) this,
            ap (λ (x : DeliveryRecord). x.created_at) this,
            rest
                ∙ ap
                    (λ (x : DeliveryRecord). record root {
                      deliveries = put root.deliveries commit.request_id (holding x);
                    })
                    (sym this),
          )
          | inr (old, alike, rest) ↦ inr (old, rest)
        ];
      }

  commit_of-IsDelivered :
      (s : BrokerRequestState) (root after : BrokerRoot) (resp : BrokerDeliveryCommitResponse)
      → load_request root commit.request_id ≡ ok (some s)
      → commit_of r config lock peer_uid now commit s root ≡ (ok resp, after)
      → resp.status ≡ accepted
      → IsDelivered r config peer_uid now commit root after
  unfolding commit_of
  commit_of-IsDelivered s root after resp loaded h accepts =
      elim (Bool-cases (s.status == "succeeded")) [
        | inr other ↦ absurd (
            not_refused r commit "delivery_commit_not_ready" root after resp
              (rw (other, commit_of) at h) accepts)
        | inl succeeded ↦ elim (Bool-cases (output_matches r s commit)) [
          | inr other ↦ absurd (
              not_refused r commit "delivery_commit_mismatch" root after resp
                (rw (succeeded, commit_of, other) at h) accepts)
          | inl same ↦
              elim (Bool-cases (authorize config peer_uid s.binding.pack s.binding.operation)) [
                | inr other ↦ absurd (
                    not_refused r commit "peer_not_authorized" root after resp
                      (rw (succeeded, commit_of, same, other) at h) accepts)
                | inl allowed ↦
                    let (manifest, read, h1) =
                      read_then-returns (λ b. read_manifest b.controller.plane s.logical_run_id)
                        (λ m.
                          try_then (save_new r lock (delivery_of r peer_uid now commit s m))
                            (on_saved r commit))
                        root after resp (rw (succeeded, commit_of, same, allowed) at h) in
                    saved-IsDelivered s manifest root after resp loaded succeeded same allowed read
                      h1 accepts
              ]
        ]
      ]

  -- A commit that is accepted is of a request that has succeeded with just this output, by a peer that
  -- the operation is allowed to. A delivery record is then on file under the request, of this output,
  -- to this peer, with the run and its time of creation and the request's pack and operation: none was
  -- there and this one, of the present time, is all that is new, or it was there and nothing has
  -- changed.
  pub handle_delivery_commit-accepted :
      (root after : BrokerRoot) (resp : BrokerDeliveryCommitResponse)
      → handle_delivery_commit r config lock peer_uid now commit root ≡ (ok resp, after)
      → resp.status ≡ accepted
      → IsDelivered r config peer_uid now commit root after
  unfolding handle_delivery_commit
  handle_delivery_commit-accepted root after resp h accepts =
      let (found, loaded, h1) =
        read_then-returns (λ b. load_request b commit.request_id) _ root after resp h in
      found_case found loaded h1
    where
      found_case :
          (found : Option BrokerRequestState)
          → load_request root commit.request_id ≡ ok found
          → commit_for r config lock peer_uid now commit found root ≡ (ok resp, after)
          → IsDelivered r config peer_uid now commit root after
      found_case none loaded h1 =
          absurd (not_refused r commit "delivery_commit_not_ready" root after resp h1 accepts)
      found_case (some s) loaded h1 = commit_of-IsDelivered s root after resp loaded h1 accepts
