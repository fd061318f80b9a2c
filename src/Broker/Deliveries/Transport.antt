-- ===== src/Broker/Deliveries/Transport.antt =====
-- What a delivery record says of the delivery, and which records are of the same delivery.
use portable_batch_execution.A1Controller.Python.{Runtime}
use portable_batch_execution.Base.{
  ◌==◌, arith, Option-cases, eq_iff, &&-true, none, inl, true, inr, ◌∙◌, ap, some, Option, ◌≡◌,
  String, refl,
}
use portable_batch_execution.Base.Int.{eq_ℤ, eq_ℤ_iff, ℤ}
use portable_batch_execution.Broker.Deliveries.{
  provenance_text, stamp, created_of, same_transport, output_matches, delivery_of,
  BrokerDeliveryCommitRequest,
}
use portable_batch_execution.Contracts.Datetime.{Datetime}
use portable_batch_execution.Contracts.Job.{
  opaque, array, bool, closed_brace, field, int, float, dict, text, Param, null,
}
use portable_batch_execution.Contracts.Json.{truthy_param}
use portable_batch_execution.Contracts.Manifest.{RunManifest}
use portable_batch_execution.DataPlane.Attempts.{text_option_eq}
use portable_batch_execution.Lifecycle.Deletion.{same_param}
use portable_batch_execution.Lifecycle.Records.{DeliveryRecord, BrokerRequestState}

-- The delivery is of the commit's output, of the request's run and operation, to the peer, and was
-- created with the run.
pub record IsTransport (r : Runtime) (peer_uid : ℤ) (commit : BrokerDeliveryCommitRequest)
    (request : BrokerRequestState) (manifest : Option RunManifest) (kept : DeliveryRecord)
    : Type 0 where
  pub of_request : kept.request_id ≡ commit.request_id
  pub of_run : kept.logical_run_id ≡ request.logical_run_id
  pub of_output : kept.artifact_digest ≡ commit.output_sha256
  pub of_size : kept.artifact_size_bytes ≡ commit.output_size_bytes
  pub no_producer : kept.producer_uid ≡ null
  pub to_peer : kept.consumer_uid ≡ peer_uid
  pub with_run : stamp kept.created_at ≡ stamp (created_of manifest)
  pub from_binding :
      provenance_text r kept.provenance
      ≡ some (
          r.dumps_spaced (
            dict (
              field "pack"
                (text request.binding.pack)
                (field "operation" (text request.binding.operation) closed_brace))))

text_option_eq-same : (a b : Option String) → text_option_eq a b ≡ true → a ≡ b
unfolding text_option_eq
text_option_eq-same none none h = refl
text_option_eq-same none (some t) h = cc
text_option_eq-same (some s) none h = cc
text_option_eq-same (some s) (some t) h = ap some ((eq_iff s t).0 h)

same_param-null : (p : Param) → same_param p null ≡ true → p ≡ null
unfolding same_param
same_param-null null h = refl
same_param-null (text s) h = cc
same_param-null (float s) h = cc
same_param-null (int n) h = cc
same_param-null (bool b) h = cc
same_param-null (array ps) h = cc
same_param-null (dict fs) h = cc
same_param-null opaque h = cc

pub output_matches-same :
    (r : Runtime) (s : BrokerRequestState) (commit : BrokerDeliveryCommitRequest)
    → output_matches r s commit ≡ true
    → (s.output_sha256 ≡ some commit.output_sha256)
      × (s.output_size_bytes ≡ some commit.output_size_bytes)
unfolding output_matches
output_matches-same r s commit h = elim (Option-cases s.output_size_bytes) [
  | inl e ↦ absurd (ground (arith, e, h))
  | inr (n, e) ↦
      let (digest, size) = &&-true _ _ (rw (e, output_matches) at h) in
      (text_option_eq-same _ _ digest, e ∙ ap some ((eq_ℤ_iff n commit.output_size_bytes).0 size))
]

module _ (r : Runtime) (peer_uid : ℤ) (now : Datetime) (commit : BrokerDeliveryCommitRequest)
    (s : BrokerRequestState) (manifest : Option RunManifest) where
  pub same_transport-IsTransport :
      (kept : DeliveryRecord)
      → same_transport r kept (delivery_of r peer_uid now commit s manifest) ≡ true
      → IsTransport r peer_uid commit s manifest kept
  unfolding same_transport delivery_of truthy_param
  same_transport-IsTransport kept h =
      let id : (kept.request_id == commit.request_id) ≡ true = ground (arith, h) in
      let run : (kept.logical_run_id == s.logical_run_id) ≡ true = ground (arith, h) in
      let digest : (kept.artifact_digest == commit.output_sha256) ≡ true = ground (arith, h) in
      let size : eq_ℤ kept.artifact_size_bytes commit.output_size_bytes ≡ true =
        ground (arith, h) in
      let producer : same_param kept.producer_uid null ≡ true = ground (arith, h) in
      let consumer : eq_ℤ kept.consumer_uid peer_uid ≡ true = ground (arith, h) in
      let created : text_option_eq (stamp kept.created_at) (stamp (created_of manifest)) ≡ true =
        ground (arith, h) in
      let provenance : text_option_eq (provenance_text r kept.provenance) (
            some (
              r.dumps_spaced (
                dict (
                  field "pack" (text s.binding.pack)
                    (field "operation" (text s.binding.operation) closed_brace)))))
          ≡ true =
        ground (arith, h) in
      record {
        of_request = (eq_iff kept.request_id commit.request_id).0 id;
        of_run = (eq_iff kept.logical_run_id s.logical_run_id).0 run;
        of_output = (eq_iff kept.artifact_digest commit.output_sha256).0 digest;
        of_size = (eq_ℤ_iff kept.artifact_size_bytes commit.output_size_bytes).0 size;
        no_producer = same_param-null kept.producer_uid producer;
        to_peer = (eq_ℤ_iff kept.consumer_uid peer_uid).0 consumer;
        with_run = text_option_eq-same _ _ created;
        from_binding = text_option_eq-same _ _ provenance;
      }

  pub delivery_of-IsTransport :
      IsTransport r peer_uid commit s manifest (delivery_of r peer_uid now commit s manifest)
  unfolding delivery_of truthy_param
  delivery_of-IsTransport = record {
    of_request = refl;
    of_run = refl;
    of_output = refl;
    of_size = refl;
    no_producer = refl;
    to_peer = refl;
    with_run = refl;
    from_binding = refl;
  }
