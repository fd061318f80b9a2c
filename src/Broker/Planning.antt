-- ===== src/Broker/Planning.antt =====
-- broker/planning.py up to the registration: canonical parameters, digests, identifiers, and the
-- comparison of a registered wave with a request.
use portable_batch_execution.A1Controller.History.{text_or_null}
use portable_batch_execution.A1Controller.Python.{text_digest, Runtime}
use portable_batch_execution.Base.{
  same_set, ◌||◌, raise_if, ◌>>◌, ◌>>=◌, true, none, not, false, contains, raise, ◌==◌, some, [],
  if◌then◌else◌, zero, ok, ◌∷◌, suc, value_error, Bool, Outcome, Error, List, Option, ℕ, String,
}
use portable_batch_execution.Base.Decimal.{after}
use portable_batch_execution.Base.Int.{pos}
use portable_batch_execution.Contracts.Artifact.{ArtifactRef}
use portable_batch_execution.Contracts.Attempt.{is_empty}
use portable_batch_execution.Contracts.Job.{
  field_keys, media_batch, array, replay_batch, closed_brace, ml_batch, int, text,
  replay_eval_batch, field, item, acquisition_batch, dict, null, no_more, Params, Param,
  tabular_batch, JobSpec, Pack, Fields,
}
use portable_batch_execution.Contracts.Json.{or_else}
use portable_batch_execution.Contracts.Shard.{ShardSpec}
use portable_batch_execution.DataPlane.Attempts.{refs_eq}
use portable_batch_execution.DataPlane.Host.{Bytes}
use portable_batch_execution.Lifecycle.Deletion.{same_param}
use portable_batch_execution.Lifecycle.References.{lookup_field}

-- What the code takes from the tabular pack: `PARAM_MODELS[operation].model_validate(params)
-- .model_dump(mode="json")`, with the ValueError for an operation that has no model.
pub record PackModels : Type 0 where
  pub tabular_params : String → Fields → Outcome Fields

-- The members of the packs' `Literal`.
unfoldable pub pack_name : Pack → String
pack_name tabular_batch = "tabular-batch"
pack_name acquisition_batch = "acquisition-batch"
pack_name replay_eval_batch = "replay-eval-batch"
pack_name ml_batch = "ml-batch"
pack_name replay_batch = "replay-batch"
pack_name media_batch = "media-batch"

abbrev closed_ml_batch_operations : List String
closed_ml_batch_operations =
    "ml.char_wb_tfidf_logistic_score" ∷ "ml.cosine_similarity_matrix"
    ∷ "ml.distilbert_pair_binary_scores" ∷ []

-- `MLPack.supported_operations`
abbrev ml_supported_operations : List String
ml_supported_operations =
    "ml.tfidf" ∷ "ml.hashing_vectorizer" ∷ "ml.logistic_regression" ∷ "ml.sgd_classifier"
    ∷ "ml.train_test" ∷ "ml.group_holdout" ∷ "ml.cross_validate" ∷ "ml.calibrate"
    ∷ "ml.threshold_sweep" ∷ "ml.batch_inference" ∷ "ml.embedding" ∷ "ml.similarity"
    ∷ "ml.clustering" ∷ []

abbrev no_fields : Fields → Bool
no_fields fs = elim fs [ closed_brace ↦ true | field _ _ _ ↦ false ]

-- `if params: raise ValueError(...)` and `return {}`
closed_params : Fields → Outcome Fields
closed_params params = do
  raise_if (not (no_fields params)) (value_error "closed operation parameters")
  ok closed_brace

-- `MLPack.validate_params`
ml_params : String → Fields → Outcome Fields
ml_params operation params = do
  raise_if (not (contains ml_supported_operations operation))
      (value_error "unsupported ml operation")
  ok params

-- `validate_closed_operation_params` of worker/external_api_evaluation.py; no forbidden key is
-- `provider`.
pub closed_external_params : Fields → Outcome (Unit {0})
closed_external_params params = do
  raise_if (not (same_set (field_keys params) ("provider" ∷ [])))
      (value_error "closed operation parameters")
  raise_if
      (not (
        same_param (or_else (lookup_field params "provider") null)
          (text "nvidia-openai-compatible")))
      (value_error "closed operation parameters")

unfoldable pub canonical_operation_params : PackModels → String → String → Fields → Outcome Fields
unfolding closed_params ml_params
canonical_operation_params models pack operation params =
    if pack == "tabular-batch"
    then models.tabular_params operation params
    else if pack == "ml-batch"
    then (if contains closed_ml_batch_operations operation
        then closed_params params
        else ml_params operation params)
    else if pack == "media-batch"
    then closed_params params
    else if pack == "replay-eval-batch"
    then (if not (operation == "replay_eval.external_api_evaluation")
        then raise (value_error "unsupported broker operation")
        else (closed_external_params params >>= λ _.
            ok (field "provider" (text "nvidia-openai-compatible") closed_brace)))
    else raise (value_error "unsupported broker pack")

-- `text[:n]`
unfoldable pub text_take : ℕ → String → String
text_take zero s = ""
text_take (suc n) String.[] = ""
text_take (suc n) (String.◌∷◌ c s) = String.◌∷◌ c (text_take n s)

abbrev size_or_null : Option ℕ → Param
size_or_null none = null
size_or_null (some n) = int (pos n)

-- `_static_ref_projection`
pub static_ref_projection : ArtifactRef → Param
static_ref_projection ref = dict (
    field "object_id" (text ref.object_id) (
      field "sha256" (text ref.sha256) (
        field "size_bytes" (size_or_null ref.size_bytes)
          (field "media_type" (text_or_null ref.media_type) closed_brace))))

static_projections : List ArtifactRef → Params
static_projections [] = no_more
static_projections (ref ∷ refs) = item (static_ref_projection ref) (static_projections refs)

abbrev pub with_separator : String → String → String
with_separator s t = after s (after "\u{1f}" t)

module _ (r : Runtime) where
  pub broker_composite_input_digest : String → List ArtifactRef → String
  unfolding static_projections
  broker_composite_input_digest raw_client_digest static_input_refs = text_digest r (
      r.dumps (
        dict (
          field "client_input_digest" (text raw_client_digest) (
            field "static_input_refs" (array (static_projections static_input_refs))
              closed_brace))))

  unfoldable pub broker_shard_input_digest : Bytes → List ArtifactRef → String
  broker_shard_input_digest input_bytes static_input_refs =
      let raw_digest = r.host.hexdigest input_bytes in
      if is_empty static_input_refs
      then raw_digest
      else broker_composite_input_digest raw_digest static_input_refs

  unfoldable pub broker_execution_fingerprint :
      String → String → String → String → Fields → String → String
  broker_execution_fingerprint request_id input_digest pack operation operation_params public_sha =
      text_digest r (
        r.dumps (
          dict (
            field "request_id" (text request_id) (
              field "input_digest" (text input_digest) (
                field "pack" (text pack) (
                  field "operation" (text operation) (
                    field "operation_params" (dict operation_params)
                      (field "public_sha" (text public_sha) closed_brace))))))))

  unfoldable pub opaque_run_id : String → String
  opaque_run_id request_id = after "run-" (text_take 16 (text_digest r request_id))

  unfoldable pub opaque_wave_id : String → String
  opaque_wave_id request_id = after "wave-" (text_take 12 (text_digest r request_id))

  pub broker_job_id : String → String → String
  broker_job_id request_id execution_fingerprint =
      after "broker-"
        (text_take 16 (text_digest r (with_separator request_id execution_fingerprint)))

-- What a request asks for: `RequestBinding` without the code's revision, and its static inputs.
pub record Asked : Type 0 where
  pub request_id : String
  pub input_digest : String
  pub pack : String
  pub operation : String
  pub operation_params : Fields
  pub execution_fingerprint : String
  pub static_input_refs : List ArtifactRef

abbrev pub binding_conflict : Error
binding_conflict = value_error "request_binding_conflict"

module _ (r : Runtime) (asked : Asked) (job : JobSpec) (shard : ShardSpec) where
  abbrev pub job_differs : Bool
  job_differs = not (job.job_id == broker_job_id r asked.request_id asked.execution_fingerprint)

  abbrev pub operation_differs : Bool
  operation_differs =
      not (pack_name job.pack == asked.pack) || not (job.operation == asked.operation)

  abbrev pub params_differ : Bool
  params_differ = not (same_param (dict job.operation_params) (dict asked.operation_params))

  abbrev pub input_differs : Bool
  input_differs = not (shard.input_digest == asked.input_digest)

  abbrev pub fingerprint_differs : Bool
  fingerprint_differs = not (shard.execution_fingerprint == asked.execution_fingerprint)

  abbrev pub refs_differ : Bool
  refs_differ = not (refs_eq shard.input_refs (job.input_manifest_ref ∷ asked.static_input_refs))

  -- `validate_registered_wave_binding`
  unfoldable pub validate_registered_wave_binding : Outcome (Unit {0})
  validate_registered_wave_binding = do
    raise_if job_differs binding_conflict
    raise_if operation_differs binding_conflict
    raise_if params_differ binding_conflict
    raise_if input_differs binding_conflict
    raise_if fingerprint_differs binding_conflict
    raise_if refs_differ binding_conflict
