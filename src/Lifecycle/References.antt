-- ===== src/Lifecycle/References.antt =====
-- lifecycle/external_references.py: artifacts that JSON files outside the state root refer to.
use portable_batch_execution.Base.{
  String, Bool, ◌&&◌, truthy, ◌==◌, Option, none, some, List, [], ◌∷◌, ◌++◌, to_set, if◌then◌else◌,
  Outcome, ok, raise, value_error, type_error, file_not_found, ◌>>=◌,
}
use portable_batch_execution.Base.Decimal.{after}
use portable_batch_execution.Contracts.Artifact.{is_digest}
use portable_batch_execution.Contracts.Job.{
  Param, Params, Fields, text, array, dict, no_more, item, closed_brace, field,
}
use portable_batch_execution.Lifecycle.Index.{ReachabilityIndex, protect, unknown, over}
use portable_batch_execution.Lifecycle.Records.{LifecyclePolicy}

pub data ReferenceFile : Type 0 where
  missing unparsable : ReferenceFile
  payload : Param → ReferenceFile

-- The file system outside the state root: which directories there are, the JSON files below each
-- in their order, and what is in a file.
pub record Outside : Type 0 where
  pub is_dir : String → Bool
  pub json_below : String → List String
  pub contents : String → ReferenceFile

-- `node.get(key)`
unfoldable pub lookup_field : Fields → String → Option Param
lookup_field closed_brace key = none
lookup_field (field k p fs) key =
    let rest = lookup_field fs key in if k == key then some p else rest

abbrev as_text : Option Param → Option String
as_text (some (text t)) = some t
as_text _ = none

-- The digest of an object with the form of a reference.
unfoldable pub reference_digest : Fields → List String
reference_digest fs = elim (as_text (lookup_field fs "object_id")) [
  | none ↦ []
  | some object_id ↦ elim (as_text (lookup_field fs "sha256")) [
    | none ↦ []
    | some sha ↦ if truthy object_id && is_digest sha then sha ∷ [] else []
  ]
]

unfoldable mutual
  -- `iter_artifact_ref_digests`
  pub iter_artifact_ref_digests : Param → List String
  iter_artifact_ref_digests (dict fs) = reference_digest fs ++ digests_of_fields fs
  iter_artifact_ref_digests (array ps) = digests_of_items ps
  iter_artifact_ref_digests p = []

  pub digests_of_fields : Fields → List String
  digests_of_fields closed_brace = []
  digests_of_fields (field k p fs) = iter_artifact_ref_digests p ++ digests_of_fields fs

  pub digests_of_items : Params → List String
  digests_of_items no_more = []
  digests_of_items (item p ps) = iter_artifact_ref_digests p ++ digests_of_items ps

-- `load_reference_digests`
unfoldable pub load_reference_digests : ReferenceFile → Outcome (List String)
load_reference_digests missing = raise file_not_found
load_reference_digests unparsable = raise (value_error "unreadable authoritative reference file")
load_reference_digests (payload (dict fs)) = ok (to_set (iter_artifact_ref_digests (dict fs)))
load_reference_digests (payload (array ps)) = ok (to_set (iter_artifact_ref_digests (array ps)))
load_reference_digests (payload p) = raise type_error

module _ (outside : Outside) where
  root_paths : List String → Outcome (List String)
  root_paths [] = ok []
  root_paths (r ∷ rs) =
      if outside.is_dir r
      then (root_paths rs >>= λ rest. ok (outside.json_below r ++ rest))
      else raise file_not_found

  -- `configured_reference_paths`
  unfoldable pub configured_reference_paths : LifecyclePolicy → Outcome (List String)
  unfolding root_paths
  configured_reference_paths policy = do
    below ← root_paths policy.authoritative_reference_roots
    ok (policy.authoritative_reference_files ++ below)

  unfoldable pub reference_file : String → ReachabilityIndex → ReachabilityIndex
  reference_file path i = elim (load_reference_digests (outside.contents path)) [
    | raise e ↦ unknown (after "authoritative reference file: " path) i
    | ok digests ↦ over (λ d. protect d (after "external_reference:" path)) digests i
  ]

  -- `apply_policy_external_references`
  unfoldable pub apply_policy_external_references :
      LifecyclePolicy → ReachabilityIndex → ReachabilityIndex
  apply_policy_external_references policy i = elim (configured_reference_paths policy) [
    | raise e ↦ unknown "authoritative reference root missing" i
    | ok paths ↦ over reference_file paths i
  ]
