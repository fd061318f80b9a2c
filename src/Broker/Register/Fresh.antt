-- ===== src/Broker/Register/Fresh.antt =====
-- The registration of a request whose wave is not in the registry.
use portable_batch_execution.A1Controller.Python.{Runtime}
use portable_batch_execution.Base.{
  subst, ok-injective, sym, [], eqb_iff, ap, ◌∷◌, ℕ, value_error, List, raise_if, >>=-returns, none,
  eq_refl, eq_iff, some, arith, true, ok, ◌≡◌, Option, String, refl,
}
use portable_batch_execution.Broker.Planning.{
  broker_job_id, canonical_operation_params, validate_registered_wave_binding, pack_name, Asked,
  PackModels,
}
use portable_batch_execution.Broker.Register.{
  first_shard, new_wave, new_job, is_refused_delivery, new_shard, parts_of, Parts, new_bundle,
  asked_of, Registration, pack_of,
}
use portable_batch_execution.Broker.Register.Call.{bound_parts}
use portable_batch_execution.Contracts.Artifact.{ArtifactRef}
use portable_batch_execution.Contracts.Datetime.{Datetime}
use portable_batch_execution.Contracts.Job.{job_closed, dict, Pack}
use portable_batch_execution.Contracts.Shard.{extents, validate_wave, validate_shard}
use portable_batch_execution.DataPlane.Attempts.{ref_eq, size_eq, refs_eq, text_option_eq}
use portable_batch_execution.Lifecycle.Deletion.{same_param}
use portable_batch_execution.Registry.{Bundle}

module _ (r : Runtime) (models : PackModels) (q : Registration) where
  -- What is asked for is the request's own, beside its digests.
  pub asked-of_request :
      (asked : Asked)
      → asked_of r models q ≡ ok asked
      → (asked.request_id ≡ q.request_id) × (asked.pack ≡ q.pack) × (asked.operation ≡ q.operation)
  unfolding asked_of
  asked-of_request asked h =
      let (params, canonical, h1) =
        >>=-returns (canonical_operation_params models q.pack q.operation q.operation_params) _ h in
      let (u, allowed, h2) =
        >>=-returns
          (raise_if (is_refused_delivery q)
            (value_error "model delivery requires the closed DistilBERT operation"))
          _ h1 in
      let same = ok-injective _ asked h2 in
      (
        sym (ap (λ (a : Asked). a.request_id) same),
        sym (ap (λ (a : Asked). a.pack) same),
        sym (ap (λ (a : Asked). a.operation) same),
      )

pub pack_of-name : (s : String) (p : Pack) → pack_of s ≡ ok p → pack_name p ≡ s
unfolding pack_of pack_name
pack_of-name s p h = ground (
  arith,
  eq_iff s "tabular-batch",
  eq_iff s "ml-batch",
  eq_iff s "media-batch",
  eq_iff s "replay-eval-batch",
)

text_option_eq_refl : (o : Option String) → text_option_eq o o ≡ true
unfolding text_option_eq
text_option_eq_refl none = refl
text_option_eq_refl (some s) = eq_refl s

size_eq_refl : (o : Option ℕ) → size_eq o o ≡ true
unfolding size_eq
size_eq_refl none = refl
size_eq_refl (some n) = (eqb_iff n n).1 refl

refs_eq_refl : (refs : List ArtifactRef) → refs_eq refs refs ≡ true
unfolding refs_eq ref_eq
refs_eq_refl [] = refl
refs_eq_refl (a ∷ refs) =
    rw
      (
        eq_refl a.object_id,
        eq_refl a.uri,
        eq_refl a.sha256,
        text_option_eq_refl a.media_type,
        size_eq_refl a.size_bytes,
      )
      (refs_eq_refl refs)

module _ (r : Runtime) (asked : Asked) (q : Registration) (input_ref : ArtifactRef) where
  abbrev pub new_parts : Pack → Datetime → Parts
  new_parts pack now = record {
    job = new_job r asked q pack input_ref now;
    wave = new_wave r asked;
    shard = new_shard r asked input_ref;
  }

  abbrev pub bundle_of : Pack → Datetime → Bundle
  bundle_of pack now = record {
    job = new_job r asked q pack input_ref now;
    wave = new_wave r asked;
    shards = new_shard r asked input_ref ∷ [];
  }

  -- The parts that are registered, and what has been checked of them.
  pub new_bundle-is :
      (now : Datetime) (parts : Parts)
      → new_bundle r asked q input_ref now ≡ ok parts
      → (pack : Pack) × (pack_of q.pack ≡ ok pack)
        × (parts ≡ new_parts pack now)
        × (parts_of r (bundle_of pack now) ≡ ok parts)
  unfolding new_bundle parts_of first_shard validate_shard validate_wave new_shard new_wave extents
  new_bundle-is now parts h =
      let (pack, named, h1) = >>=-returns (pack_of q.pack) _ h in
      let (u, closed, h2) = >>=-returns (job_closed (new_job r asked q pack input_ref now)) _ h1 in
      (pack, named, sym (ok-injective _ _ h2), rw closed h2)

  fresh-binding :
      (pack : Pack) (now : Datetime)
      → pack_name pack ≡ asked.pack
      → q.operation ≡ asked.operation
      → same_param (dict asked.operation_params) (dict asked.operation_params) ≡ true
      → validate_registered_wave_binding r asked
          (new_job r asked q pack input_ref now)
          (new_shard r asked input_ref)
        ≡ ok tt
  unfolding validate_registered_wave_binding new_job new_shard
  fresh-binding pack now same_pack same_operation reflexive =
      rw
        (
          same_pack,
          same_operation,
          eq_refl (broker_job_id r asked.request_id asked.execution_fingerprint),
          eq_refl asked.pack,
          eq_refl asked.operation,
          reflexive,
          eq_refl asked.input_digest,
          eq_refl asked.execution_fingerprint,
          refs_eq_refl (input_ref ∷ asked.static_input_refs),
        )
        refl

  -- A wave that is registered for a request is bound to it.
  pub fresh-bound :
      (pack : Pack) (now : Datetime) (parts : Parts)
      → pack_name pack ≡ asked.pack
      → q.operation ≡ asked.operation
      → same_param (dict asked.operation_params) (dict asked.operation_params) ≡ true
      → parts ≡ new_parts pack now
      → parts_of r (bundle_of pack now) ≡ ok parts
      → bound_parts r asked (bundle_of pack now) ≡ ok parts
  unfolding bound_parts
  fresh-bound pack now parts same_pack same_operation reflexive is_new checked =
      let binding =
        subst (λ (k : Parts). validate_registered_wave_binding r asked k.job k.shard ≡ ok tt)
          (sym is_new) (fresh-binding pack now same_pack same_operation reflexive) in
      rw (checked, bound_parts, binding) refl
