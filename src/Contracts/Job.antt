-- ===== src/Contracts/Job.antt =====
-- `JobSpec` of contracts/models.py: the closed operations, and the walk over their parameters.
pub mod Closed
use portable_batch_execution.Base.{
  String, Bool, true, false, not, ◌&&◌, ◌||◌, ◌==◌, Option, none, some, List, [], ◌∷◌, any,
  contains, Outcome, ok, raise, value_error, raise_if, ◌>>=◌, ◌>>◌,
}
use portable_batch_execution.Base.Int.{ℤ}
use portable_batch_execution.Contracts.Artifact.{ArtifactRef, Provenance}
use portable_batch_execution.Contracts.Shard.{ShardCorrectnessSpec, ExecutionPolicy}

pub data Pack : Type 0 where
  tabular_batch acquisition_batch replay_eval_batch ml_batch replay_batch media_batch : Pack

-- `PACK_OPS`
unfoldable pub pack_ops : Pack → List String
pack_ops tabular_batch =
    "tabular.normalize" ∷ "tabular.cast" ∷ "tabular.sort" ∷ "tabular.dedup" ∷ "tabular.join"
    ∷ "tabular.pit_join" ∷ "tabular.window" ∷ "tabular.rolling" ∷ "tabular.statistics"
    ∷ "tabular.format_migration" ∷ []
pack_ops acquisition_batch =
    "acquisition.rest" ∷ "acquisition.html" ∷ "acquisition.incremental" ∷ []
pack_ops replay_eval_batch =
    "replay_eval.replay" ∷ "replay_eval.benchmark" ∷ "replay_eval.compare"
    ∷ "replay_eval.parameter_sweep" ∷ "replay_eval.regression" ∷ "replay_eval.walk_forward"
    ∷ "replay_eval.oos" ∷ "replay_eval.backtest" ∷ "replay_eval.control" ∷ "replay_eval.robustness"
    ∷ "replay_eval.external_api_evaluation" ∷ []
pack_ops ml_batch =
    "ml.tfidf" ∷ "ml.hashing_vectorizer" ∷ "ml.logistic_regression" ∷ "ml.sgd_classifier"
    ∷ "ml.train_test" ∷ "ml.group_holdout" ∷ "ml.cross_validate" ∷ "ml.calibrate"
    ∷ "ml.threshold_sweep" ∷ "ml.batch_inference" ∷ "ml.embedding" ∷ "ml.similarity"
    ∷ "ml.clustering" ∷ "ml.char_wb_tfidf_logistic_score" ∷ "ml.cosine_similarity_matrix"
    ∷ "ml.distilbert_pair_binary_scores" ∷ []
pack_ops replay_batch =
    "replay.structural_canonicalize" ∷ "replay.event_window_extract" ∷ "replay.causal_grid_extract"
    ∷ "replay.structural_canonicalize_merge" ∷ []
pack_ops media_batch =
    "media.decode" ∷ "media.extract_audio" ∷ "media.resample" ∷ "media.mono" ∷ "media.segment"
    ∷ "media.merge" ∷ "media.metadata" ∷ "media.asr_merge" ∷ "media.overlap_remove"
    ∷ "media.asr_normalize_flac" ∷ []

pub data SecurityProfile : Type 0 where
  offline bounded_network external_api : SecurityProfile

-- A parameter's value. Keys are texts, as they are in JSON; a float is not looked into, and stands
-- for itself by what Python prints; `opaque` is a value of any other type, such as a tuple.
mutual
  pub data Param : Type 0 where
    null : Param
    text float : String → Param
    int : ℤ → Param
    bool : Bool → Param
    array : Params → Param
    dict : Fields → Param
    opaque : Param

  pub data Params : Type 0 where
    no_more : Params
    item : Param → Params → Params

  pub data Fields : Type 0 where
    closed_brace : Fields
    field : String → Param → Fields → Fields

abbrev pub field_keys : Fields → List String
field_keys closed_brace = []
field_keys (field k v fs) = k ∷ field_keys fs

abbrev pub reserved : List String
reserved =
    "shell" ∷ "command" ∷ "cmd" ∷ "python" ∷ "python_code" ∷ "script" ∷ "sql" ∷ "import_path"
    ∷ "entrypoint" ∷ "executable" ∷ []

-- `{...} & set(keys)`
unfoldable pub has_reserved : Fields → Bool
has_reserved fs = any (contains reserved) (field_keys fs)

unfoldable mutual
  unfolding has_reserved

  -- `walk(value)`
  pub walk : Param → Outcome (Unit {0})
  walk null = ok tt
  walk (text t) = ok tt
  walk (float t) = ok tt
  walk (int n) = ok tt
  walk (bool b) = ok tt
  walk (array ps) = walk_items ps
  walk (dict fs) =
      raise_if (has_reserved fs) (value_error "reserved nested parameter") >> walk_values fs
  walk opaque = raise (value_error "JSON compatible params only")

  pub walk_items : Params → Outcome (Unit {0})
  walk_items no_more = ok tt
  walk_items (item p ps) = walk p >> walk_items ps

  pub walk_values : Fields → Outcome (Unit {0})
  walk_values closed_brace = ok tt
  walk_values (field k p fs) = walk p >> walk_values fs

-- `HFPrivateModelDelivery`, which the job only passes on.
pub record ModelDelivery : Type 0 where
  pub repo_id : String
  pub revision : String
  pub filenames : List String

pub record AdapterDescriptor : Type 0 where
  pub adapter_id : String
  pub adapter_version : String
  pub adapter_digest : String
  pub supported_operations : List String

pub record JobSpec : Type 0 where
  pub job_id : String
  pub logical_run_id : String
  pub pack : Pack
  pub operation : String
  pub input_manifest_ref : ArtifactRef
  pub sharding : ShardCorrectnessSpec
  pub execution : ExecutionPolicy
  pub security_profile : SecurityProfile
  pub provenance : Provenance
  pub adapter : Option AdapterDescriptor
  pub operation_params : Fields
  pub model_delivery : Option ModelDelivery

abbrev pub is_ml : Pack → Bool
is_ml p = elim p [ ml_batch ↦ true | _ ↦ false ]

abbrev pub is_bounded : SecurityProfile → Bool
is_bounded s = elim s [ bounded_network ↦ true | _ ↦ false ]

abbrev pub is_given {ℓ} : {A : Type ℓ} → Option A → Bool
is_given none = false
is_given (some x) = true

-- `closed`, the validator of a job
unfoldable pub job_closed : JobSpec → Outcome (Unit {0})
unfolding pack_ops has_reserved walk
job_closed j = do
  raise_if
      (is_given j.model_delivery
        && (not (is_ml j.pack)
            || not (j.operation == "ml.distilbert_pair_binary_scores")
            || not (is_bounded j.security_profile)))
      (value_error "model delivery requires a bounded-network DistilBERT job")
  raise_if (not (contains (pack_ops j.pack) j.operation) || has_reserved j.operation_params)
      (value_error "closed operation parameters")
  walk (dict j.operation_params)
